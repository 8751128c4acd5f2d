-- ===== src/Tunnel.antt =====
-- service/tunnel.go: the table of VPN peers, by ID and by address, and the packets on their way
-- out. A `*VpnPeer` is named by its peer ID: the table by ID holds one object for each. The locks
-- make each method one step; `knownPeer.PeerId()` is the ID that the configuration holds.
pub mod Routing
pub mod Receive
pub mod Delivery
pub mod Inbound
pub mod Sender
pub mod Limits
pub mod Swap
pub mod Broadcast
pub mod Meant
pub mod Outbound
pub mod Reading
pub mod Steps
pub mod Examples
use gravil.Base.{
  ℕ, zero, suc, ◌+◌, Bool, true, false, Option, none, some, List, [], ◌∷◌, ◌++◌, Text, Dict, get,
  put, delete, ◌==◌, text_key, nat_key, eqb, ltb, if◌then◌else◌, is_some, length, ◌&&◌, ◌||◌,
}
use gravil.Addr.{Ip, v4, v6, to4, parse_ip4}
use gravil.Config.{KnownPeer}

-- The queues hold the bytes of packets.
pub record VpnPeer : Type 0 where
  pub peer_id : Text
  pub local_ip : ℕ
  pub inbound : List (List ℕ)
  pub outbound : List (List ℕ)

pub record Tunnel : Type 0 where
  pub peers : Dict Text VpnPeer
  pub by_ip : Dict ℕ Text
  pub is_closed : Bool

abbrev pub packet_handlers_chan_cap : ℕ
packet_handlers_chan_cap = 2000

abbrev pub new_vpn_peer : Text → ℕ → VpnPeer
new_vpn_peer id ip = record { peer_id = id; local_ip = ip; inbound = []; outbound = [] }

-- A known peer that is in the table: its address may have changed.
unfoldable pub move_peer : Text → ℕ → VpnPeer → Tunnel → Tunnel
move_peer id ip prev t = if eqb prev.local_ip ip then t else record t {
  peers = put id (record prev { local_ip = ip }) t.peers;
  by_ip = put ip id (delete prev.local_ip t.by_ip);
}

unfoldable pub add_peer : Text → ℕ → Tunnel → Tunnel
add_peer id ip t = record t {
  peers = put id (new_vpn_peer id ip) t.peers;
  by_ip = put ip id t.by_ip;
}

unfoldable pub place_peer : Text → ℕ → Option VpnPeer → Tunnel → Tunnel
unfolding move_peer add_peer
place_peer id ip none t = add_peer id ip t
place_peer id ip (some prev) t = move_peer id ip prev t

-- One round of the first loop; an address that is not IPv4 is skipped.
unfoldable pub refresh_known : Text → Option ℕ → Tunnel → Tunnel
unfolding place_peer
refresh_known id none t = t
refresh_known id (some ip) t = place_peer id ip (get id t.peers) t

unfoldable pub refresh_all : (Text → Option ℕ) → Dict Text KnownPeer → Tunnel → Tunnel
unfolding refresh_known
refresh_all ipv6 [] t = t
refresh_all ipv6 ((_, p) ∷ ps) t =
    refresh_all ipv6 ps (refresh_known p.peer_id (parse_ip4 ipv6 p.ip_addr) t)

-- `vpnPeer.Close` and the removal from both tables.
unfoldable pub drop_peer : Text → VpnPeer → Tunnel → Tunnel
drop_peer id p t = record t { peers = delete id t.peers; by_ip = delete p.local_ip t.by_ip }

-- The second loop, over the entries that the table had when it began.
unfoldable pub sweep : Dict Text KnownPeer → Dict Text VpnPeer → Tunnel → Tunnel
unfolding drop_peer
sweep known [] t = t
sweep known ((id, p) ∷ ps) t =
    sweep known ps (if is_some (get p.peer_id known) then t else drop_peer p.peer_id p t)

unfoldable pub refresh_peers_list : (Text → Option ℕ) → Dict Text KnownPeer → Tunnel → Tunnel
unfolding refresh_all sweep
refresh_peers_list ipv6 known t = let t' = refresh_all ipv6 known t in sweep known t'.peers t'

-- `Close` sweeps everything.
unfoldable pub close : Tunnel → Tunnel
unfolding sweep
close t = sweep [] t.peers (record t { is_closed = true })

-- A packet from the TUN device, as `Parse` left it; nil entries are not in the list.
pub record Outgoing : Type 0 where
  pub dst : Ip
  pub payload : List ℕ

-- `net.IP.Equal` with an IPv4 address.
abbrev pub ip_equal : Option ℕ → ℕ → Bool
ip_equal none a = false
ip_equal (some b) a = eqb b a

-- The send without blocking: a full channel drops the packet.
unfoldable pub offer : List ℕ → VpnPeer → VpnPeer
offer payload p =
    if ltb (length p.outbound) packet_handlers_chan_cap
    then record p { outbound = p.outbound ++ payload ∷ [] }
    else p

unfoldable pub offer_to : Text → List ℕ → Option VpnPeer → Tunnel → Tunnel
unfolding offer
offer_to id payload none t = t
offer_to id payload (some p) t = record t { peers = put id (offer payload p) t.peers }

-- A copy for every connected peer that has an address.
unfoldable pub broadcast : (Text → Bool) → List ℕ → Dict ℕ Text → Tunnel → Tunnel
unfolding offer_to
broadcast connected payload [] t = t
broadcast connected payload ((_, id) ∷ ips) t =
    broadcast connected payload ips
      (if connected id then offer_to id payload (get id t.peers) t else t)

unfoldable pub unicast : List ℕ → Option Text → Tunnel → Tunnel
unfolding offer_to
unicast payload none t = t
unicast payload (some id) t = offer_to id payload (get id t.peers) t

-- The table by address has keys of four bytes only.
unfoldable pub route : Ip → Tunnel → Option Text
route (v4 a) t = get a t.by_ip
route (v6 a) t = none

abbrev pub is_broadcast : ℕ → Ip → Bool
is_broadcast net_broadcast dst = ip_equal (to4 dst) net_broadcast || ip_equal (to4 dst) 0xffffffff

unfoldable pub handle_packet : (Text → Bool) → ℕ → Outgoing → Tunnel → Tunnel
unfolding broadcast unicast route
handle_packet connected net_broadcast p t =
    if is_broadcast net_broadcast p.dst
    then broadcast connected p.payload t.by_ip t
    else unicast p.payload (route p.dst t) t

unfoldable pub handle_all : (Text → Bool) → ℕ → List Outgoing → Tunnel → Tunnel
unfolding handle_packet
handle_all connected net_broadcast [] t = t
handle_all connected net_broadcast (p ∷ ps) t =
    handle_all connected net_broadcast ps (handle_packet connected net_broadcast p t)

-- `HandleReadPackets`.
unfoldable pub handle_read_packets : (Text → Bool) → ℕ → List Outgoing → Tunnel → Tunnel
unfolding handle_all
handle_read_packets connected net_broadcast ps t =
    if t.is_closed then t else handle_all connected net_broadcast ps t
