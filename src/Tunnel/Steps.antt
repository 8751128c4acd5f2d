-- ===== src/Tunnel/Steps.antt =====
-- service/tunnel.go: the tunnel as a step relation. Each method holds the lock of the tables, so that
-- a method, or a round of the stream handler's loop, is one step; a background handler takes packets
-- off the channels of its peer at any time.
pub mod Queues
pub mod Closing
pub mod Runs
use gravil.Base.{ℕ, ◌≡◌, Bool, false, Option, some, List, [], Text, Dict, get, put, text_key, drop}
use gravil.Config.{KnownPeer}
use gravil.Tunnel.{VpnPeer, Tunnel, Outgoing, refresh_peers_list, close, handle_read_packets}
use gravil.Tunnel.Receive.{receive_packet}

-- The tables of `NewTunnel` before its first refresh.
abbrev pub empty_tunnel : Tunnel
empty_tunnel = record { peers = []; by_ip = []; is_closed = false }

-- The background handlers have received `i` inbound and `o` outbound packets.
unfoldable pub taken_off : ℕ → ℕ → VpnPeer → VpnPeer
taken_off i o p = record p { inbound = drop i p.inbound; outbound = drop o p.outbound }

-- The texts that are IPv6 addresses, and the broadcast address of the network.
module _ (ipv6 : Text → Option ℕ) (net : ℕ) where
  pub data Step : Tunnel → Tunnel → Type 0 where
    refreshed :
        (t : Tunnel) (known : Dict Text KnownPeer) → Step t (refresh_peers_list ipv6 known t)
    read :
        (t : Tunnel) (connected : Text → Bool) (ps : List Outgoing)
        → Step t (handle_read_packets connected net ps t)
    arrived :
        (t t' : Tunnel) (id : Text) (bs : List ℕ) → receive_packet id bs t ≡ some t' → Step t t'
    received :
        (t : Tunnel) (id : Text) (p : VpnPeer) (i o : ℕ)
        → get id t.peers ≡ some p
        → Step t (record t { peers = put id (taken_off i o p) t.peers })
    closed : (t : Tunnel) → Step t (close t)

  pub data Reach : Tunnel → Type 0 where
    new_tunnel : (known : Dict Text KnownPeer) → Reach (refresh_peers_list ipv6 known empty_tunnel)
    next : (t t' : Tunnel) → Reach t → Step t t' → Reach t'
