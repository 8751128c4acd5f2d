-- ===== src/Protocol/Reader.antt =====
-- A network stream as its reader meets it (the contract of io.Reader): what one `Read` can return
-- at most is a chunk, and behind the chunks the stream ends or fails. `io.ReadFull` reads on until
-- its buffer is full.
use gravil.Base.{
  ℕ, zero, suc, ◌+◌, ◌-◌, ◌≤◌, ◌≡◌, refl, sym, ap, ◌∙◌, List, [], ◌∷◌, ◌++◌, arith, length, take,
  drop, leb, eqb, if◌then◌else◌, append_assoc, append-nil, length-append, take-append,
  take-append_right, drop-append, drop-append_right, leb→le, false, Bool-cases, inl, inr,
}

pub data Ending : Type 0 where
  at_end reset : Ending

pub record Stream : Type 0 where
  pub chunks : List (List ℕ)
  pub ending : Ending

pub data Full : Type 0 where
  ok : List ℕ → Full
  eof unexpected_eof failed : Full

abbrev pub flat : List (List ℕ) → List ℕ
flat [] = []
flat (c ∷ cs) = c ++ flat cs

-- A short read: nothing at all is EOF, a part is ErrUnexpectedEOF, a failure stays one.
abbrev short : List ℕ → Ending → Full
short [] at_end = eof
short (b ∷ bs) at_end = unexpected_eof
short bs reset = failed

abbrev step {ℓ} : {A : Type ℓ} → ℕ → List ℕ → A → A → A → A
step k c done whole part = if eqb k 0 then done else if leb (length c) k then whole else part

unfoldable pub read_full_from : ℕ → List ℕ → List (List ℕ) → Ending → Full × Stream
read_full_from k acc [] e =
    if eqb k 0
    then (ok acc, record { chunks = []; ending = e })
    else (short acc e, record { chunks = []; ending = e })
read_full_from k acc (c ∷ cs) e =
    let rest = read_full_from (k - length c) (acc ++ c) cs e in
    step k c (ok acc, record { chunks = c ∷ cs; ending = e }) rest
      (ok (acc ++ take k c), record { chunks = drop k c ∷ cs; ending = e })

unfoldable pub read_full : ℕ → List ℕ → Stream → Full × Stream
unfolding read_full_from
read_full k acc s = read_full_from k acc s.chunks s.ending

-- However the bytes are cut into chunks, a full read takes the first `k`, leaves the others, and
-- does not make the rest of the stream longer.
pub read_full_from-flat :
    (k : ℕ) (acc : List ℕ) (cs : List (List ℕ)) (e : Ending)
    → k ≤ length (flat cs)
    → (rest : List (List ℕ)) × (read_full_from k acc cs e
        ≡ (ok (acc ++ take k (flat cs)), record { chunks = rest; ending = e }))
      × (flat rest ≡ drop k (flat cs))
      × (length rest ≤ length cs)
unfolding read_full_from
read_full_from-flat zero acc [] e h =
    ([], ap (λ b. (ok b, _)) (sym (append-nil acc)), refl, omega arith)
read_full_from-flat (suc k) acc [] e h = absurd (omega arith)
read_full_from-flat zero acc (c ∷ cs) e h =
    (c ∷ cs, ap (λ b. (ok b, _)) (sym (append-nil acc)), refl, omega arith)
read_full_from-flat (suc k) acc (c ∷ cs) e h =
    let more : eqb (suc k) 0 ≡ false = ground arith in
    elim (Bool-cases (leb (length c) (suc k))) [
      | inl whole ↦
          let fits : suc k ≡ length c + (suc k - length c) =
            omega (arith, leb→le (length c) (suc k) whole) in
          let ih =
            read_full_from-flat (suc k - length c) (acc ++ c) cs e
              (omega (arith, length-append c (flat cs))) in
          (
            ih.0,
            rw (more, whole)
                (ih.1
                  ∙ ap (λ b. (ok b, record { chunks = ih.0; ending = e }))
                      (append_assoc acc c _
                        ∙ ap (◌++◌ acc) (sym (take-append_right (suc k) _ c (flat cs) fits)))),
            ih.2 ∙ sym (drop-append_right (suc k) _ c (flat cs) fits),
            omega (arith, ih.3),
          )
      | inr part ↦
          let fits : suc k ≤ length c = ground arith in
          (
            drop (suc k) c ∷ cs,
            rw (more, part)
                (ap (λ b. (ok (acc ++ b), record { chunks = drop (suc k) c ∷ cs; ending = e }))
                  (sym (take-append (suc k) c (flat cs) fits))),
            sym (drop-append (suc k) c (flat cs) fits),
            omega arith,
          )
    ]
