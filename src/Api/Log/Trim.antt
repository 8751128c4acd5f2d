-- ===== src/Api/Log/Trim.antt =====
-- api/debug.go: `bytes.Trim` on a text.
use gravil.Base.{
  ℕ, suc, ◌≡◌, inl, inr, refl, sym, ap, ap₂, ◌∙◌, false, List, [], ◌∷◌, ◌++◌, arith, eqb, eqb_iff,
  if◌then◌else◌, replicate, Bool-cases,
}
use gravil.Api.Log.{line_ending, trim_left, kept_before, trim_right, trim}

-- What the trim of a text takes away at its ends.
pub trim_left-split : (bs : List ℕ) → (i : ℕ) × (bs ≡ replicate i line_ending ++ trim_left bs)
unfolding trim_left
trim_left-split [] = (0, refl)
trim_left-split (b ∷ bs) = elim (Bool-cases (eqb b line_ending)) [
  | inl e ↦
      let rest = trim_left-split bs in
      rw e (suc rest.0, ap₂ ◌∷◌ ((eqb_iff b line_ending).0 e) rest.1)
  | inr e ↦ rw e (0, refl)
]

pub trim_right-split : (bs : List ℕ) → (j : ℕ) × (bs ≡ trim_right bs ++ replicate j line_ending)
unfolding trim_right kept_before
trim_right-split [] = (0, refl)
trim_right-split (b ∷ bs) =
    let rest = trim_right-split bs in
    let put = one (trim_right bs) rest.0 in (put.0, ap (◌∷◌ b) rest.1 ∙ put.1)
  where
    one :
        (t : List ℕ) (j : ℕ)
        → (k : ℕ) × (b ∷ (t ++ replicate j line_ending)
            ≡ kept_before b t ++ replicate k line_ending)
    one [] j = elim (Bool-cases (eqb b line_ending)) [
      | inl e ↦ (
        suc j,
        ap (λ c. c ∷ replicate j line_ending) ((eqb_iff b line_ending).0 e)
            ∙ sym (ap (λ t. (if t then [] else b ∷ []) ++ line_ending ∷ replicate j line_ending) e),
      )
      | inr e ↦ (j, sym (ap (λ t. (if t then [] else b ∷ []) ++ replicate j line_ending) e))
    ]
    one (c ∷ cs) j = (j, refl)

abbrev Starts : List ℕ → Type 0
Starts [] = Unit
Starts (b ∷ bs) = ¬ b ≡ line_ending

abbrev Ends : List ℕ → Type 0
Ends [] = Unit
Ends (b ∷ []) = ¬ b ≡ line_ending
Ends (b ∷ c ∷ cs) = Ends (c ∷ cs)

other : (b : ℕ) → eqb b line_ending ≡ false → ¬ b ≡ line_ending
other b e h = ground (arith, e, h)

trim_left-Starts : (bs : List ℕ) → Starts (trim_left bs)
unfolding trim_left
trim_left-Starts [] = tt
trim_left-Starts (b ∷ bs) = elim (Bool-cases (eqb b line_ending)) [
  | inl e ↦ rw e (trim_left-Starts bs)
  | inr e ↦ rw e (other b e)
]

trim_right-Starts : (bs : List ℕ) → Starts bs → Starts (trim_right bs)
unfolding trim_right kept_before
trim_right-Starts [] h = tt
trim_right-Starts (b ∷ bs) h = kept (trim_right bs)
  where
    kept : (t : List ℕ) → Starts (kept_before b t)
    kept [] = elim (Bool-cases (eqb b line_ending)) [ inl e ↦ rw e tt | inr e ↦ rw e h ]
    kept (c ∷ cs) = h

trim_right-Ends : (bs : List ℕ) → Ends (trim_right bs)
unfolding trim_right kept_before
trim_right-Ends [] = tt
trim_right-Ends (b ∷ bs) = kept (trim_right bs) (trim_right-Ends bs)
  where
    kept : (t : List ℕ) → Ends t → Ends (kept_before b t)
    kept [] h = elim (Bool-cases (eqb b line_ending)) [ inl e ↦ rw e tt | inr e ↦ rw e (other b e) ]
    kept (c ∷ cs) h = h

-- Neither the first nor the last byte ends a line.
abbrev pub IsTrimmed : List ℕ → Type 0
IsTrimmed bs = Starts bs × Ends bs

pub trim-IsTrimmed : (bs : List ℕ) → IsTrimmed (trim bs)
unfolding trim
trim-IsTrimmed bs =
    (trim_right-Starts (trim_left bs) (trim_left-Starts bs), trim_right-Ends (trim_left bs))
