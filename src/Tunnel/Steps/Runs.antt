-- ===== src/Tunnel/Steps/Runs.antt =====
-- service/tunnel.go: the tables and the queues in every state that a tunnel reaches.
use gravil.Base.{ℕ, Option, arith, Text, get, text_key, nat_key}
use gravil.Tunnel.{Tunnel, close}
use gravil.Tunnel.Routing.{IsSound}
use gravil.Tunnel.Steps.{
  empty_tunnel, Step, refreshed, read, arrived, received, closed, Reach, new_tunnel, next,
}
use gravil.Tunnel.Steps.Queues.{
  IsSafe, AllFit, handle_read_packets-IsSafe, receive_packet-IsSafe, taken_off-IsSafe,
  refresh_peers_list-IsSafe,
}
use gravil.Tunnel.Steps.Closing.{IsEmptied, close-IsSafe, close-IsEmptied}

empty_tunnel-IsSafe : IsSafe empty_tunnel
unfolding get
empty_tunnel-IsSafe = record {
  sound = record {
    led = λ ip id e. absurd (ground (arith, e));
    keyed = λ id p e. absurd (ground (arith, e));
    distinct = tt;
  };
  fits = λ id p e. absurd (ground (arith, e));
}

Step-IsSafe :
    (ipv6 : Text → Option ℕ) (net : ℕ) (t t' : Tunnel) → Step ipv6 net t t' → IsSafe t → IsSafe t'
Step-IsSafe ipv6 net _ _ (refreshed t known) s = refresh_peers_list-IsSafe ipv6 known t s
Step-IsSafe ipv6 net _ _ (read t connected ps) s = handle_read_packets-IsSafe connected net ps t s
Step-IsSafe ipv6 net _ _ (arrived t t' id bs e) s = receive_packet-IsSafe id bs t t' e s
Step-IsSafe ipv6 net _ _ (received t id p i o there) s = taken_off-IsSafe id p i o t there s
Step-IsSafe ipv6 net _ _ (closed t) s = close-IsSafe t s

safe : (ipv6 : Text → Option ℕ) (net : ℕ) (t : Tunnel) → Reach ipv6 net t → IsSafe t
safe ipv6 net _ (new_tunnel known) =
    refresh_peers_list-IsSafe ipv6 known empty_tunnel empty_tunnel-IsSafe
safe ipv6 net _ (next t0 t r step) = Step-IsSafe ipv6 net t0 t step (safe ipv6 net t0 r)

-- In every state that a tunnel reaches, by any refreshes, batches from the device, packets from peers,
-- rounds of the background handlers and closings in any order: an address leads only to a peer of the
-- table that has this address, each peer stands under its own ID, no channel holds more packets than
-- its capacity, and `Close` leaves neither a peer nor an address.
pub Reach-IsSound :
    (ipv6 : Text → Option ℕ) (net : ℕ) (t : Tunnel)
    → Reach ipv6 net t
    → IsSound t × AllFit t × IsEmptied (close t)
Reach-IsSound ipv6 net t r = let s = safe ipv6 net t r in (s.sound, s.fits, close-IsEmptied t s)
