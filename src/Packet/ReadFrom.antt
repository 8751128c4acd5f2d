-- ===== src/Packet/ReadFrom.antt =====
-- vpn/packet.go: `ReadFrom`, over the `io.LimitedReader` that service/tunnel.go hands it.
use gravil.Base.{
  ℕ, zero, suc, ◌+◌, ◌-◌, ◌≤◌, ◌<◌, ◌≡◌, refl, sym, ap, ◌∙◌, List, [], ◌∷◌, ◌++◌, arith, length,
  take, drop, leb, eqb, if◌then◌else◌, append_assoc, append-nil, length-append, length-take,
  take-append, take-append_right, drop-append, drop-append_right, true, false, Bool-cases, inl, inr,
  min, leb→le, length-drop,
}
use gravil.Packet.{room}
use gravil.Protocol.Reader.{Ending, at_end, reset, flat}

pub data Outcome : Type 0 where
  received : List ℕ → List (List ℕ) → Outcome
  broken : Outcome
  no_fuel : Outcome

-- The end of the stream inside a packet ends the packet; a failure is returned.
abbrev ended : Ending → List ℕ → Outcome
ended at_end acc = received acc []
ended reset acc = broken

-- One round is one `Read` of the limited reader into `Buffer[totalRead:]`: at most `n` bytes, what
-- the buffer has room for, and a chunk. A `Read` into no room returns nothing and no error.
unfoldable pub read_from : ℕ → ℕ → List ℕ → List (List ℕ) → Ending → Outcome
read_from zero n acc cs e = no_fuel
read_from (suc fuel) n acc [] e = if eqb n 0 then received acc [] else ended e acc
read_from (suc fuel) n acc (c ∷ cs) e =
    let k = min (room - length acc) n in
    let whole = read_from fuel (n - length c) (acc ++ c) cs e in
    let part = read_from fuel (n - k) (acc ++ take k c) (drop k c ∷ cs) e in
    if eqb n 0 then received acc (c ∷ cs) else if leb (length c) k then whole else part

read_from-zero :
    (fuel n : ℕ) (acc : List ℕ) (cs : List (List ℕ)) (e : Ending)
    → 1 ≤ fuel
    → n ≡ 0
    → read_from fuel n acc cs e ≡ received acc cs
unfolding read_from
read_from-zero zero n acc cs e f z = absurd (omega arith)
read_from-zero (suc fuel) n acc [] e f z = ground arith
read_from-zero (suc fuel) n acc (c ∷ cs) e f z = ground arith

read_from_whole :
    (fuel n : ℕ) (acc c : List ℕ) (cs : List (List ℕ)) (e : Ending)
    → suc n + length acc ≤ room
    → leb (length c) (suc n) ≡ true
    → read_from (suc fuel) (suc n) acc (c ∷ cs) e
      ≡ read_from fuel (suc n - length c) (acc ++ c) cs e
unfolding read_from
read_from_whole fuel n acc c cs e h whole =
    let more : eqb (suc n) 0 ≡ false = ground arith in
    let k : min (room - length acc) (suc n) ≡ suc n = omega arith in rw (more, k, whole) refl

read_from_part :
    (fuel n : ℕ) (acc c : List ℕ) (cs : List (List ℕ)) (e : Ending)
    → suc n + length acc ≤ room
    → leb (length c) (suc n) ≡ false
    → 1 ≤ fuel
    → read_from (suc fuel) (suc n) acc (c ∷ cs) e
      ≡ received (acc ++ take (suc n) c) (drop (suc n) c ∷ cs)
read_from_part fuel n acc c cs e h part f =
    let more : eqb (suc n) 0 ≡ false = ground arith in
    let k : min (room - length acc) (suc n) ≡ suc n = omega arith in
    let rest : read_from fuel (suc n - suc n) (acc ++ take (suc n) c) (drop (suc n) c ∷ cs) e
        ≡ received (acc ++ take (suc n) c) (drop (suc n) c ∷ cs) =
      read_from-zero fuel (suc n - suc n) _ _ e f (omega arith) in
    unfold read_from in rw (more, k, part) rest

-- A packet of `n` bytes that fits the buffer is read exactly, however the stream is cut, in at most
-- as many rounds as there are chunks, and two.
pub read_from-flat :
    (fuel n : ℕ) (acc : List ℕ) (cs : List (List ℕ)) (e : Ending)
    → n + length acc ≤ room
    → n ≤ length (flat cs)
    → length cs + 2 ≤ fuel
    → (rest : List (List ℕ)) × (read_from fuel n acc cs e ≡ received (acc ++ take n (flat cs)) rest)
      × (flat rest ≡ drop n (flat cs))
      × (length rest ≤ length cs)
unfolding read_from
read_from-flat zero n acc cs e h le f = absurd (omega arith)
read_from-flat (suc fuel) zero acc [] e h le f =
    ([], ap (λ b. received b []) (sym (append-nil acc)), refl, omega arith)
read_from-flat (suc fuel) (suc n) acc [] e h le f = absurd (omega arith)
read_from-flat (suc fuel) zero acc (c ∷ cs) e h le f =
    (c ∷ cs, ap (λ b. received b (c ∷ cs)) (sym (append-nil acc)), refl, omega arith)
read_from-flat (suc fuel) (suc n) acc (c ∷ cs) e h le f =
    elim (Bool-cases (leb (length c) (suc n))) [
      | inl whole ↦
          let fits : suc n ≡ length c + (suc n - length c) =
            omega (arith, leb→le (length c) (suc n) whole) in
          let ih =
            read_from-flat fuel (suc n - length c) (acc ++ c) cs e
              (omega (arith, length-append acc c)) (omega (arith, length-append c (flat cs)))
              (omega arith) in
          (
            ih.0,
            read_from_whole fuel n acc c cs e h whole
                ∙ (ih.1
                    ∙ ap (λ b. received b ih.0)
                        (append_assoc acc c _
                          ∙ ap (◌++◌ acc) (sym (take-append_right (suc n) _ c (flat cs) fits)))),
            ih.2 ∙ sym (drop-append_right (suc n) _ c (flat cs) fits),
            omega (arith, ih.3),
          )
      | inr part ↦
          let fits : suc n ≤ length c = ground arith in
          (
            drop (suc n) c ∷ cs,
            read_from_part fuel n acc c cs e h part (omega arith)
                ∙ ap (λ b. received (acc ++ b) (drop (suc n) c ∷ cs))
                    (sym (take-append (suc n) c (flat cs) fits)),
            sym (drop-append (suc n) c (flat cs) fits),
            omega arith,
          )
    ]

-- A frame that announces more than the buffer holds, on a stream that delivers more than that,
-- never lets the loop end: once the buffer is full each `Read` returns nothing and no error.
pub read_from_stuck :
    (fuel n : ℕ) (acc : List ℕ) (cs : List (List ℕ)) (e : Ending)
    → length acc ≤ room
    → room < n + length acc
    → room < length (flat cs) + length acc
    → read_from fuel n acc cs e ≡ no_fuel
unfolding read_from
read_from_stuck zero n acc cs e full long much = refl
read_from_stuck (suc fuel) n acc [] e full long much = absurd (omega arith)
read_from_stuck (suc fuel) n acc (c ∷ cs) e full long much =
    let k = min (room - length acc) n in
    let more : eqb n 0 ≡ false = ground arith in
    elim (Bool-cases (leb (length c) k)) [
      | inl whole ↦
          rw (more, whole)
            (read_from_stuck fuel (n - length c) (acc ++ c) cs e
              (omega (arith, length-append acc c, leb→le (length c) k whole))
              (omega (arith, length-append acc c, leb→le (length c) k whole))
              (omega (arith, length-append acc c, length-append c (flat cs))))
      | inr part ↦
          let less : k ≤ length c = ground arith in
          rw (more, part)
            (read_from_stuck fuel (n - k) (acc ++ take k c) (drop k c ∷ cs) e
              (omega (arith, length-append acc (take k c), length-take k c))
              (omega (arith, length-append acc (take k c), length-take k c))
              (omega (
                arith,
                length-append acc (take k c),
                length-take k c,
                length-append c (flat cs),
                length-append (drop k c) (flat cs),
                length-drop k c,
              )))
    ]
