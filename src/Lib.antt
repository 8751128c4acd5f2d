-- ===== src/Lib.antt =====
-- Anywherelan (awl): a mesh VPN over libp2p. Each device keeps a configuration with its known peers
-- and their addresses in the VPN, and tunnels IP packets to them over streams.
--
-- Parts, files and sources. The tunnel (service/tunnel.go) takes IP packets from the TUN device,
-- finds the peer by its address and writes frames (protocol/protocol.go) to a stream; the other
-- end reads frames into packets (vpn/packet.go), which get new addresses and checksums. The
-- addresses and aliases of peers come from the configuration (config/config.go,
-- config/network_addr.go). Peers become known by requests, and exchange their status
-- (service/auth_status.go), which also chooses the exit node. The user acts through the HTTP API
-- (api/peers.go, api/settings.go), for which the command line has commands (cli/peers.go,
-- cli/cli.go). The exit node carries SOCKS5 connections (service/socks5.go, socks5/), names of
-- peers are resolved by a DNS server (awldns/awldns.go) that application.go keeps up to date,
-- the libp2p node ranks dials and looks for relays (p2p/p2p.go), and updates choose a version
-- (update/update.go). The application's log is a ring buffer (ringbuffer/ring_buffer.go).
--
--   Base, Base/*         Boolean tests, lists, texts, maps, the search for a free index, decimals
--   RingBuffer, /*       RingBuffer: New, Write, Bytes, Reset
--   Packet, Packet/*     Packet: clear, Parse, ReadFrom, RecalculateChecksum, the three checksums
--   Protocol, /*         ReadUint64, AppendPacketToBuf, the streams under them (io.ReadFull)
--   Addr, Addr/*         what is used of the packages net and net/netip: IPv4 texts, prefixes
--   Config               the records of Config, with the file and the events
--   Config/Peers, /*     RemovePeer, UpsertPeer, UpdatePeerLastSeen, UpsertBlockedPeer, ...
--   Config/Alias         IsUniqPeerAlias, genUniqPeerAlias
--   Config/Address, /*   GenerateNextIpAddrExcept, CheckIPUnique
--   Config/Defaults, /*  setDefaults of config/other.go, and a second run of it in another order
--   Tunnel               Tunnel and VpnPeer: RefreshPeersList, Close, HandleReadPackets
--   Tunnel/Routing, Swap what a refresh keeps and loses
--   Tunnel/Steps, /*     the tunnel's methods as a step relation
--   Tunnel/Outbound, Meant, Broadcast  what HandleReadPackets queues for each peer
--   Tunnel/Receive       StreamHandler, and what sendPacket writes
--   Tunnel/Sender        backgroundOutboundHandler, readBatchFromChan
--   Tunnel/Inbound, /*   backgroundInboundHandler: one batch, and the pool of packets
--   Packet/Rewrite       Device.WritePacket and WritePacketsBatch, up to the TUN device
--   Packet/Device        Device.ReadTUNPackets, with its callback as a parameter
--   Tunnel/Reading, /*   ReadTUNPackets with HandleReadPackets behind it
--   Packet/Patch, Sent   bytes written over others, and what the device is handed
--   Packet/Receiver      how a receiver verifies a checksum (RFC 791, RFC 793)
--   Auth                 AuthStatus: AddPeer, processPeerStatusInfo, createPeerInfo
--   Auth/Exchange        the handlers of the auth and status streams, the requests to others
--   Auth/Pairing         the exchange of status between two devices
--   Auth/Steady, Handlers, Distinct   what every transition keeps of the configuration
--   Auth/*               what peers are told, what is stored, and the exit node
--   Api, Api/Settings    the handlers of the HTTP API that change peers, requests and settings
--   Api/Steps            peers and the user as a step relation over these handlers
--   Api/Listing          getKnownPeers and what it lists
--   Api/Log              GetLog, over the ring buffer
--   Api/Races            UpdatePeerSettings in the two parts between which other requests run
--   Api/*                what the handlers keep, answer and suggest
--   Dns, Dns/*           Resolver: ReceiveConfiguration, the handlers of its three zones
--   Socks5, Socks5/*     ProxyStreamHandler, proxyConn, sendReply, the rules for destinations
--   Release, Release/*   config/version.go and NewUpdateService
--   Cli, Cli/*           the commands on peers: the peer that is named, and what is changed
--   DnsService, /*       DNSService of application.go: initDNS, refreshDNSConfig
--   Node, Node/*         the identity and the addresses of the node: SetIdentity, GetBootstrapPeers,
--                        InitHost
--   P2p, P2p/*           the dial ranker and the source of relays of p2p/p2p.go
--   P2p/Connections      parseMultiaddrToInfo, PeerConnectionsInfo of p2p/metrics.go
--   */Examples           tests, and each theorem at a concrete input
--
-- State is a record that each operation takes and returns. Bytes are numbers, texts are lists of
-- runes, maps are association lists (Base/Dicts), so an iteration over a map is over its entries in
-- some order. A mutex makes a method one step, and a handler is one step, except UpdatePeerSettings
-- in Api/Races, and ExchangeNewStatusInfo, which awaits an answer while others may run
-- (Auth/Exchange, Api/Steps). Words keep their wrap (`% 2 ^ w`). A stream is a list of chunks, each
-- what one Read can return at most, and the way it ends. A panic is `none`.
--
-- Fuel: the carry loops of the checksums run at most two rounds (Packet/Sums); the search for an
-- alias or an address runs at most one round more than there are names to avoid (Base/Search); a
-- packet is read in as many rounds as there are chunks, and two, unless the loop of ReadFrom never
-- ends (Packet/ReadFrom); the stream handler takes a round for each frame and one for the end of
-- the stream, and its result is `none` when the fuel is out.
--
-- Parameters: the reading of IPv6 texts (`ipv6`), the network of the VPN, the time, whether a peer
-- is connected, what the packages strings, unicode, sort, base58 and multiaddr do, and what the
-- network and the operating system return. The TUN device, libp2p, JSON, the file system, sockets,
-- the framework of the HTTP API, the packages behind DNS, SOCKS5 and updates, and the graphical
-- user interfaces are not modelled.
pub mod Base
pub mod RingBuffer
pub mod Packet
pub mod Protocol
pub mod Addr
pub mod Config
pub mod Tunnel
pub mod Auth
pub mod Api
pub mod Dns
pub mod Socks5
pub mod Release
pub mod P2p
pub mod Cli
pub mod DnsService
pub mod Node
