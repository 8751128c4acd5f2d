-- ===== src/Tunnel/Reading/Batch.antt =====
-- vpn/vpn.go: one batch that `ReadTUNPackets` reads, slot by slot.
use gravil.Base.{
  ℕ, suc, ◌+◌, ◌/◌, ◌≤◌, ◌≡◌, refl, sym, ap, ap₂, ◌∙◌, subst, true, false, Option, none, some, List,
  [], ◌∷◌, ◌++◌, arith, ltb, leb, eqb, length, take, drop, Bool-cases, inl, inr, take-append_length,
  take-append, drop-append, length-drop,
}
use gravil.Addr.{Ip, v4, v6}
use gravil.Packet.{Packet, parse, room}
use gravil.Packet.Recalculate.{◌>>=◌}
use gravil.Packet.Device.{Read, fresh, refill, kept, take_in, take_all}
use gravil.Tunnel.{Outgoing}
use gravil.Tunnel.Reading.{of_slot, address_value, packet_of, listed, packets_of, AreSound}

-- A packet with nothing but a buffer.
abbrev pub blank : List ℕ → Packet
blank xs = record {
  content = xs;
  size = 0;
  src = none;
  dst = none;
  is_ipv6 = false;
  ip_protocol = 0;
}

abbrev content_or : List ℕ → Option Packet → List ℕ
content_or xs none = xs
content_or xs (some p) = p.content

fresh-blank : (xs : List ℕ) (s : Option Packet) → fresh xs s ≡ blank (content_or xs s)
unfolding fresh
fresh-blank xs none = refl
fresh-blank xs (some p) = refl

field :
    (k n : ℕ) (bs rest : List ℕ)
    → k + n ≤ length bs
    → take n (drop k (bs ++ rest)) ≡ take n (drop k bs)
field k n bs rest h =
    ap (take n) (drop-append k bs rest (omega arith))
    ∙ take-append n (drop k bs) rest (omega (arith, length-drop k bs))

-- A packet of the bytes `bs` is read as they say.
parse-of_slot :
    (bs rest : List ℕ)
    → of_slot (kept (parse (record (blank (bs ++ rest)) { size = length bs }))) ≡ packet_of bs
unfolding parse
parse-of_slot [] rest = refl
parse-of_slot (b ∷ bs) rest =
    let all_bytes = take-append_length (b ∷ bs) rest in
    let some_bytes : eqb (suc (length bs)) 0 ≡ false = ground arith in
    let out : (ℕ → Ip) → List ℕ → List ℕ → Option Outgoing =
      λ v a x. some (record { dst = v (address_value 0 a); payload = x }) in
    elim (Bool-cases (eqb (b / 16) 4)) [
      | inl four ↦ elim (Bool-cases (leb 20 (suc (length bs)))) [
        | inl long ↦
            let fits : ltb (suc (length bs)) 20 ≡ false = ground (arith, long) in
            rw (some_bytes, four, long, fits)
              (ap₂ (out v4) (field 16 4 (b ∷ bs) rest (ground (arith, long))) all_bytes)
        | inr short ↦
            let cut : ltb (suc (length bs)) 20 ≡ true = ground (arith, short) in
            let not_six : eqb (b / 16) 6 ≡ false = ground (arith, four) in
            rw (some_bytes, four, short, cut, not_six) refl
      ]
      | inr other ↦ elim (Bool-cases (eqb (b / 16) 6)) [
        | inl six ↦ elim (Bool-cases (leb 40 (suc (length bs)))) [
          | inl long ↦
              let fits : ltb (suc (length bs)) 40 ≡ false = ground (arith, long) in
              rw (some_bytes, other, six, long, fits)
                (ap₂ (out v6) (field 24 16 (b ∷ bs) rest (ground (arith, long))) all_bytes)
          | inr short ↦
              let cut : ltb (suc (length bs)) 40 ≡ true = ground (arith, short) in
              rw (some_bytes, other, six, short, cut) refl
        ]
        | inr neither ↦ rw (some_bytes, other, neither) refl
      ]
    ]

-- A sound read of a batch: its slot holds the packet that the bytes say, if any.
Taken : List ℕ → List ℕ → ℕ → Type 0
Taken bs xs n =
    (s : Option Packet) × (take_in (record { written = bs; size = n }) (blank xs) ≡ some s)
    × (of_slot s ≡ packet_of bs)

take_in-whole : (bs xs : List ℕ) → length bs ≤ room → Taken bs xs (length bs)
unfolding take_in Taken
take_in-whole [] xs fits = (some (blank xs), refl, refl)
take_in-whole (b ∷ bs) xs fits =
    let some_bytes : eqb (suc (length bs)) 0 ≡ false = ground arith in
    let small : ltb 3600 (suc (length bs)) ≡ false = ground arith in
    let inside : ltb 3586 (suc (length bs)) ≡ false = ground arith in
    let rest = drop (length (b ∷ bs)) xs in
    (
      kept (parse (record (blank ((b ∷ bs) ++ rest)) { size = suc (length bs) })),
      rw (some_bytes, small, inside) refl,
      parse-of_slot (b ∷ bs) rest,
    )

take_in-of_slot :
    (r : Read) (xs : List ℕ) → r.size ≡ length r.written → r.size ≤ room → Taken r.written xs r.size
take_in-of_slot r xs said fits =
    subst (Taken r.written xs) (sym said) (take_in-whole r.written xs (omega arith))

-- The packets in a batch, as `HandleReadPackets` reads them.
abbrev pub outs : List (Option Packet) → List Outgoing
outs [] = []
outs (s ∷ ss) = listed (of_slot s) (outs ss)

pub take_all-outs :
    (spare : ℕ → List ℕ) (i : ℕ) (rs : List Read) (slots : List (Option Packet))
    → AreSound rs
    → length rs ≤ length slots
    → (ss : List (Option Packet)) × (take_all rs (refill spare i slots) ≡ some ss)
      × (outs ss ≡ packets_of rs)
      × (length ss ≡ length rs)
unfolding take_all refill Taken
take_all-outs spare i [] slots sound h = ([], refl, refl, refl)
take_all-outs spare i (r ∷ rs) [] sound h = absurd (omega arith)
take_all-outs spare i (r ∷ rs) (s ∷ slots) sound h =
    let xs = content_or (spare i) s in
    let one = take_in-of_slot r xs sound.0 sound.1 in
    let rest = take_all-outs spare (i + 1) rs slots sound.2 (omega arith) in
    (
      one.0 ∷ rest.0,
      ap
            (λ p. take_in r p >>= λ s'.
              take_all rs (refill spare (i + 1) slots) >>= λ ss. some (s' ∷ ss))
            (fresh-blank (spare i) s)
          ∙ ap (λ o. o >>= λ s'. take_all rs (refill spare (i + 1) slots) >>= λ ss. some (s' ∷ ss))
              one.1
          ∙ ap (λ o. o >>= λ ss. some (one.0 ∷ ss)) rest.1,
      ap₂ listed one.2 rest.2,
      ap suc rest.3,
    )
