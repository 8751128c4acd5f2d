-- ===== src/Tunnel/Reading/Examples.antt =====
-- Concrete runs of the loop that reads the TUN device.
use gravil.Base.{
  ℕ, ◌≡◌, refl, arith, Bool, true, false, some, List, [], ◌∷◌, ◌++◌, Text, text, replicate,
}
use gravil.Addr.{v4}
use gravil.Packet.Device.{Read, no_error, too_many_segments, closed, Round, read_tun_packets}
use gravil.Tunnel.{Tunnel, handle_read_packets, new_vpn_peer}
use gravil.Tunnel.Reading.{address_value, packets_handler, sent}
use gravil.Tunnel.Reading.Run.{read_tun_packets-sent}

-- The header of a packet to 10.66.0.2, with one byte behind it.
abbrev to_a1 : List ℕ
to_a1 = 69 ∷ (replicate 15 0 ++ 10 ∷ 66 ∷ 0 ∷ 2 ∷ 7 ∷ [])

abbrev reading : List ℕ → Read
reading bs = record { written = bs; size = 21 }

abbrev a1_only : Tunnel
a1_only = record {
  peers = (text "A1", new_vpn_peer (text "A1") 0x0a420002) ∷ [];
  by_ip = (0x0a420002, text "A1") ∷ [];
  is_closed = false;
}

abbrev online : Text → Bool
online id = true

-- Two reads, one of them no packet, then an error that does not end the loop, then the end.
abbrev rounds : List Round
rounds =
    (record {
      spare = λ i. 96 ∷ 1 ∷ [];
      reads = reading to_a1 ∷ (record { written = 5 ∷ []; size = 1 }) ∷ [];
      error = too_many_segments;
    })
    ∷ (record { spare = λ i. []; reads = reading to_a1 ∷ []; error = closed })
    ∷ (record { spare = λ i. []; reads = reading to_a1 ∷ []; error = no_error })
    ∷ []

read_tun_packets-sent_example :
    read_tun_packets (packets_handler online 0x0a42ffff) 2 rounds a1_only
    ≡ some (handle_read_packets online 0x0a42ffff (sent rounds) a1_only)
read_tun_packets-sent_example =
    read_tun_packets-sent online 0x0a42ffff 2 rounds a1_only (omega arith)

two_queued :
    sent rounds
    ≡ (record { dst = v4 0x0a420002; payload = to_a1 })
      ∷ (record { dst = v4 0x0a420002; payload = to_a1 })
      ∷ []
unfolding address_value
two_queued = refl
