-- ===== src/Tunnel/Examples.antt =====
-- service/tunnel.go: tables and a configuration with one peer, and the theorems at them.
use gravil.Base.{
  Distinct, eqb_iff, if◌then◌else◌, text_eq_iff, nat_key, inl, true, ltb, ℕ, ◌≡◌, refl, Bool, false,
  Option, none, some, List, [], ◌∷◌, Text, text, text_key, text_eq, Dict, get, arith,
}
use gravil.Protocol.{put_uint64, append_packet_to_buf}
use gravil.Protocol.Reader.{Stream, at_end, flat}
use gravil.Config.{KnownPeer, zero_known_peer}
use gravil.Tunnel.{Tunnel, VpnPeer, new_vpn_peer, refresh_peers_list}
use gravil.Tunnel.Routing.{IsSound}
use gravil.Tunnel.Receive.{stream_handler, send_packets}
use gravil.Tunnel.Delivery.{Delivered, stream_handler-send_packets}
use gravil.Tunnel.Inbound.{returned_to_pool}
use gravil.Tunnel.Inbound.Pool.{returned_to_pool_twice}
use gravil.Tunnel.Sender.{Attempt, new_sender, send_batch}
use gravil.Tunnel.Limits.{IsWithin, send_batch-IsWithin}
use gravil.Addr.{show_ip}
use gravil.Addr.{v4, to4}
use gravil.Tunnel.{Outgoing, route, handle_read_packets}
use gravil.Tunnel.Meant.{meant}
use gravil.Tunnel.Outbound.{filled, handle_read_packets-filled}
use gravil.Tunnel.{close}
use gravil.Tunnel.Steps.{empty_tunnel, Reach, new_tunnel, next, read, closed, refreshed}
use gravil.Tunnel.Steps.Queues.{AllFit}
use gravil.Tunnel.Steps.Closing.{IsEmptied}
use gravil.Tunnel.Steps.Runs.{Reach-IsSound}

abbrev no_ipv6 : Text → Option ℕ
no_ipv6 s = none

abbrev known : Dict Text KnownPeer
known = (text "A1", record zero_known_peer { peer_id = text "A1"; ip_addr = text "10.66.0.2" }) ∷ []

abbrev a1 : VpnPeer
a1 = new_vpn_peer (text "A1") 0x0a420002

abbrev with_a1 : Tunnel
with_a1 = record {
  peers = (text "A1", a1) ∷ [];
  by_ip = (0x0a420002, text "A1") ∷ [];
  is_closed = false;
}

abbrev batch : List (List ℕ)
batch = (69 ∷ 0 ∷ []) ∷ (70 ∷ []) ∷ []

-- The two frames, cut in the middle of a header.
abbrev stream : Stream
stream = record {
  chunks =
      (0 ∷ 0 ∷ 0 ∷ 0 ∷ 0 ∷ 0 ∷ 0 ∷ 2 ∷ 69 ∷ 0 ∷ 0 ∷ 0 ∷ [])
      ∷ (0 ∷ 0 ∷ 0 ∷ 0 ∷ 0 ∷ 1 ∷ [])
      ∷ (70 ∷ [])
      ∷ [];
  ending = at_end;
}

carries : flat stream.chunks ≡ send_packets [] batch
unfolding send_packets append_packet_to_buf put_uint64
carries = refl

a1_there : get (text "A1") with_a1.peers ≡ some a1
unfolding get text_eq
a1_there = refl

stream_handler-send_packets_example :
    Delivered (text "A1") batch a1 with_a1 (stream_handler 9 (text "A1") stream with_a1)
stream_handler-send_packets_example =
    stream_handler-send_packets batch 9 (text "A1") stream with_a1 a1
      (omega arith, (omega arith, tt)) carries a1_there (omega arith) (omega arith)

-- Of these packets the first does not parse.
abbrev parses : ℕ → Bool
parses r = ltb 1 r

returned_to_pool_twice_example : returned_to_pool parses (1 ∷ 2 ∷ 3 ∷ []) ≡ 1 ∷ 2 ∷ 3 ∷ 3 ∷ []
returned_to_pool_twice_example = returned_to_pool_twice parses 1 (2 ∷ []) 3 refl (refl, tt) refl

abbrev attempt : Attempt
attempt = record { connected = true; opened = some true; write_ok = true }

send_batch-IsWithin_example : IsWithin (send_batch attempt batch new_sender)
send_batch-IsWithin_example =
    send_batch-IsWithin attempt batch new_sender (omega arith) (inl (refl, refl))

abbrev successor : KnownPeer
successor = record zero_known_peer { peer_id = text "B2"; ip_addr = show_ip 0x0a420002 }

with_a1-IsSound : IsSound with_a1
unfolding get
with_a1-IsSound = record {
  led = λ ip id e. ground (arith, e, eqb_iff 0x0a420002 ip, text_eq_iff (text "A1") id);
  keyed = λ id p e. ground (arith, e, text_eq_iff (text "A1") id);
  distinct = (refl, tt);
}

abbrev burst : List Outgoing
burst =
    (record { dst = v4 0x0a420002; payload = 1 ∷ [] })
    ∷ (record { dst = v4 0x0a420009; payload = 2 ∷ [] })
    ∷ (record { dst = v4 0xffffffff; payload = 3 ∷ [] })
    ∷ []

with_a1-Distinct : Distinct with_a1.by_ip
unfolding get
with_a1-Distinct = (refl, tt)

handle_read_packets-filled_example :
    get (text "A1") (handle_read_packets (λ id. true) 0x0a4200ff burst with_a1).peers
    ≡ some (
        if with_a1.is_closed
        then a1
        else filled (meant (λ id. true) 0x0a4200ff (text "A1") a1.local_ip with_a1 burst) a1)
handle_read_packets-filled_example =
    handle_read_packets-filled (λ id. true) 0x0a4200ff (text "A1") burst with_a1 a1 with_a1-IsSound
      with_a1-Distinct a1_there

-- The packet to the peer's address and the broadcast, not the one to an address without a peer.
two_of_three :
    meant (λ id. true) 0x0a4200ff (text "A1") 0x0a420002 with_a1 burst ≡ (1 ∷ []) ∷ (3 ∷ []) ∷ []
unfolding get route text_eq to4
two_of_three = refl

abbrev after_start : Tunnel
after_start = refresh_peers_list no_ipv6 known empty_tunnel

abbrev after_burst : Tunnel
after_burst = handle_read_packets (λ id. true) 0x0a4200ff burst after_start

-- A tunnel that starts with one peer, reads a batch, is closed and is refreshed once more.
run_of_steps : Reach no_ipv6 0x0a4200ff (refresh_peers_list no_ipv6 known (close after_burst))
run_of_steps =
    next (close after_burst) _
      (next after_burst _
        (next after_start _ (new_tunnel known) (read after_start (λ id. true) burst))
        (closed after_burst))
      (refreshed (close after_burst) known)

Reach-IsSound_example :
    let t = refresh_peers_list no_ipv6 known (close after_burst) in
    IsSound t × AllFit t × IsEmptied (close t)
Reach-IsSound_example =
    Reach-IsSound no_ipv6 0x0a4200ff (refresh_peers_list no_ipv6 known (close after_burst))
      run_of_steps
