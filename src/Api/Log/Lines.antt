-- ===== src/Api/Log/Lines.antt =====
-- api/debug.go: `bytes.Split` and `bytes.Join` on lines.
use gravil.Base.{
  ℕ, zero, suc, ◌+◌, ◌<◌, ◌≡◌, inl, inr, refl, sym, ap, ap₂, ◌∙◌, subst, false, List, [], ◌∷◌, ◌++◌,
  append_assoc, arith, eqb, eqb_iff, if◌then◌else◌, length, take, drop, Bool-cases,
}
use gravil.Api.Log.{line_ending, before, split, join}

abbrev pub newlines : List ℕ → ℕ
newlines [] = 0
newlines (b ∷ bs) = if eqb b line_ending then suc (newlines bs) else newlines bs

abbrev pub line_count : List ℕ → ℕ
line_count bs = suc (newlines bs)

newlines-append : (xs ys : List ℕ) → newlines (xs ++ ys) ≡ newlines xs + newlines ys
newlines-append [] ys = omega arith
newlines-append (x ∷ xs) ys = ground (arith, newlines-append xs ys)

abbrev pub AreLines : List (List ℕ) → Type 0
AreLines [] = Unit
AreLines (l ∷ ls) = (newlines l ≡ 0) × AreLines ls

-- `split` has a first line.
abbrev pub Parts : List (List ℕ) → List ℕ → Type 0
Parts ls b = (0 < length ls) × (join ls ≡ b) × AreLines ls

newlines-cons : (b : ℕ) (l : List ℕ) → eqb b line_ending ≡ false → newlines (b ∷ l) ≡ newlines l
newlines-cons b l e = ap (λ t. if t then suc (newlines l) else newlines l) e

before-Parts :
    (b : ℕ) (ls : List (List ℕ)) (bs : List ℕ) → Parts ls bs → Parts (before b ls) (b ∷ bs)
unfolding before join
before-Parts b [] bs h = absurd (omega (arith, h.0))
before-Parts b (l ∷ ls) bs h = elim (Bool-cases (eqb b line_ending)) [
  | inl e ↦
      subst (λ t. Parts (if t then [] ∷ l ∷ ls else (b ∷ l) ∷ ls) (b ∷ bs)) (sym e)
        ((omega arith, ap₂ ◌∷◌ (sym ((eqb_iff b line_ending).0 e)) h.1, (refl, h.2)))
  | inr e ↦
      subst (λ t. Parts (if t then [] ∷ l ∷ ls else (b ∷ l) ∷ ls) (b ∷ bs)) (sym e)
        ((omega arith, longer ls ∙ ap (◌∷◌ b) h.1, (newlines-cons b l e ∙ h.2.0, h.2.1)))
]
  where
    longer : (ms : List (List ℕ)) → join ((b ∷ l) ∷ ms) ≡ b ∷ join (l ∷ ms)
    longer [] = refl
    longer (m ∷ ms) = refl

pub split-Parts : (b : List ℕ) → Parts (split b) b
unfolding split join
split-Parts [] = (omega arith, refl, (refl, tt))
split-Parts (b ∷ bs) = before-Parts b (split bs) bs (split-Parts bs)

-- Joined lines hold one newline less than there are lines.
pub newlines-join :
    (ls : List (List ℕ)) → 0 < length ls → AreLines ls → line_count (join ls) ≡ length ls
unfolding join
newlines-join [] h a = absurd (omega (arith, h))
newlines-join (l ∷ []) h a = omega (arith, a.0)
newlines-join (l ∷ m ∷ ls) h a = omega (
  arith,
  a.0,
  newlines-append l (line_ending ∷ join (m ∷ ls)),
  newlines-join (m ∷ ls) (omega arith) a.1,
)

pub join-append :
    (xs ys : List (List ℕ))
    → 0 < length xs
    → 0 < length ys
    → join (xs ++ ys) ≡ join xs ++ line_ending ∷ join ys
unfolding join
join-append [] ys h k = absurd (omega (arith, h))
join-append (x ∷ []) [] h k = absurd (omega (arith, k))
join-append (x ∷ []) (y ∷ ys) h k = refl
join-append (x ∷ x' ∷ xs) ys h k =
    ap (λ z. x ++ line_ending ∷ z) (join-append (x' ∷ xs) ys (omega arith) k)
    ∙ sym (append_assoc x (line_ending ∷ join (x' ∷ xs)) (line_ending ∷ join ys))

pub take-AreLines : (n : ℕ) (ls : List (List ℕ)) → AreLines ls → AreLines (take n ls)
take-AreLines zero ls h = tt
take-AreLines (suc n) [] h = tt
take-AreLines (suc n) (l ∷ ls) h = (h.0, take-AreLines n ls h.1)

pub drop-AreLines : (n : ℕ) (ls : List (List ℕ)) → AreLines ls → AreLines (drop n ls)
drop-AreLines zero ls h = h
drop-AreLines (suc n) [] h = tt
drop-AreLines (suc n) (l ∷ ls) h = drop-AreLines n ls h.1
