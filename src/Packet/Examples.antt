-- ===== src/Packet/Examples.antt =====
-- vpn/packet.go: a UDP datagram of eight header bytes, and the theorems at it.
use gravil.Base.{
  ℕ, ◌<◌, ◌-◌, ◌≡◌, refl, List, [], ◌∷◌, ◌++◌, arith, take, drop, none, some, true, false, inl, inr,
  length, replicate, length-replicate, append-nil, ap,
}
use gravil.Packet.{Packet, parse}
use gravil.Packet.Recalculate.{recalculate_checksum, header_len}
use gravil.Packet.Transport.{read}
use gravil.Packet.Laws.{IsReady}
use gravil.Packet.ReadFrom.{read_from, no_fuel, read_from_stuck}
use gravil.Protocol.Reader.{at_end}
use gravil.Packet.Rewrite.{prepare}
use gravil.Packet.Receiver.{HasChecksum, pseudo_header}
use gravil.Packet.Sent.{prepare-verifies}
use gravil.Packet.Whole.{source, dest, recalculate_checksum_panics}

abbrev header : ℕ → List ℕ
header proto =
    0x45 ∷ 0 ∷ 0 ∷ 28 ∷ 1 ∷ 2 ∷ 0 ∷ 0 ∷ 64 ∷ proto ∷ 9 ∷ 9 ∷ 10 ∷ 66 ∷ 0 ∷ 1 ∷ 10 ∷ 66 ∷ 0 ∷ 2 ∷ []

abbrev datagram : ℕ → Packet
datagram proto = record {
  content = header proto ++ 1 ∷ 2 ∷ 3 ∷ 4 ∷ 0 ∷ 8 ∷ 7 ∷ 7 ∷ [];
  size = 28;
  src = some source;
  dst = some dest;
  is_ipv6 = false;
  ip_protocol = proto;
}

datagram-IsReady : (proto : ℕ) → proto < 256 → IsReady (datagram proto)
unfolding header_len
datagram-IsReady proto h = record {
  v4 = refl;
  src = refl;
  dst = refl;
  header = omega arith;
  inside = omega arith;
  held = omega arith;
  small = omega arith;
  are_bytes = omega arith;
}

parses : (parse (datagram 17)).1 ≡ true
unfolding parse
parses = refl

recalculate_checksum_panics_example : recalculate_checksum (datagram 6) ≡ none
unfolding header_len
recalculate_checksum_panics_example =
    recalculate_checksum_panics (datagram 6) (datagram-IsReady 6 (omega arith)) (inl refl)
      (omega arith)

abbrev two_chunks : List (List ℕ)
two_chunks = (69 ∷ 0 ∷ []) ∷ (0 ∷ 28 ∷ 5 ∷ []) ∷ []

abbrev too_long : List (List ℕ)
too_long = replicate 4000 0 ∷ []

read_from_stuck_example : read_from 1000 4000 [] too_long at_end ≡ no_fuel
read_from_stuck_example = read_from_stuck 1000 4000 [] too_long at_end (omega arith) (omega arith) (
    omega
      (arith, ap length (append-nil (replicate {A = ℕ} 4000 0)), length-replicate {A = ℕ} 4000 0))

prepare-verifies_example :
    (ys : List ℕ) × (prepare (10 ∷ 66 ∷ 0 ∷ 2 ∷ []) (10 ∷ 66 ∷ 0 ∷ 1 ∷ []) (datagram 17)
      ≡ some (some (record (datagram 17) { content = ys })))
    × (read source ys ≡ 10 ∷ 66 ∷ 0 ∷ 2 ∷ [])
    × (read dest ys ≡ 10 ∷ 66 ∷ 0 ∷ 1 ∷ [])
    × HasChecksum (take (header_len (datagram 17).content) ys)
    × HasChecksum (
        pseudo_header
          (10 ∷ 66 ∷ 0 ∷ 2 ∷ [])
          (10 ∷ 66 ∷ 0 ∷ 1 ∷ [])
          17
          (28 - header_len (datagram 17).content)
        ++ drop (header_len (datagram 17).content) (take 28 ys))
unfolding header_len
prepare-verifies_example =
    prepare-verifies (datagram 17) (10 ∷ 66 ∷ 0 ∷ 2 ∷ []) (10 ∷ 66 ∷ 0 ∷ 1 ∷ [])
      (datagram-IsReady 17 (omega arith)) refl refl (omega arith) (omega arith) (inr refl)
      (omega arith)
