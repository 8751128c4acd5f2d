-- ===== src/Base/Search.antt =====
-- The loop that counts up until a candidate is not in use, and why it ends.
use Prim.Native.Nat.{ℕ, zero, suc, ◌+◌, ◌≤◌, ◌<◌}
use mathlib.Core.Path.{◌≡◌, refl, ◌∙◌}
use mathlib.Core.Logic.{◌≢◌, inl, inr}
use mathlib.Core.Bool.{Bool, true, false, ◌||◌}
use mathlib.Core.Option.{Option, none, some}
use mathlib.Core.List.{List, [], ◌∷◌}
use native.Mathlib.Omega.{arith}
use native.Mathlib.Decide.{dec_lt}
use gravil.Base.Tests.{Key, ◌==◌, if◌then◌else◌, Bool-cases}
use gravil.Base.Lists.{length}

module _ {ℓ} {A : Type ℓ} ⦃e : Key A⦄ where
  unfoldable pub elem : A → List A → Bool
  elem a [] = false
  elem a (x ∷ xs) = x == a || elem a xs

  -- The index of the first candidate from `i` on that is not in use.
  unfoldable pub first_free : ℕ → (ℕ → A) → ℕ → List A → Option ℕ
  first_free zero c i used = none
  first_free (suc fuel) c i used =
      let rest = first_free fuel c (i + 1) used in if elem (c i) used then rest else some i

  without : A → List A → List A
  without a [] = []
  without a (x ∷ xs) = let rest = without a xs in if x == a then rest else x ∷ rest

  without-le : (a : A) (xs : List A) → length (without a xs) ≤ length xs
  unfolding without
  without-le a [] = omega arith
  without-le a (x ∷ xs) = ground (arith, without-le a xs)

  without-lt : (a : A) (xs : List A) → elem a xs ≡ true → length (without a xs) < length xs
  unfolding without elem
  without-lt a [] h = cc
  without-lt a (x ∷ xs) h = ground (arith, without-lt a xs, without-le a xs)

  elem-without : (a b : A) (xs : List A) → a ≢ b → elem b (without a xs) ≡ elem b xs
  unfolding without elem
  elem-without a b [] h = refl
  elem-without a b (x ∷ xs) h =
      ground (arith, elem-without a b xs h, e.same_iff x a, e.same_iff x b, e.same_iff a b)

  -- With more rounds than entries in use, and distinct candidates, the loop finds one.
  pub first_free_found :
      (fuel : ℕ) (c : ℕ → A) (i : ℕ) (used : List A)
      → ((j k : ℕ) → j < k → k < i + fuel → c j ≢ c k)
      → length used < fuel
      → (j : ℕ) × (first_free fuel c i used ≡ some j) × (i ≤ j) × (j < i + fuel)
  unfolding first_free
  first_free_found zero c i used inj h = absurd (omega arith)
  first_free_found (suc fuel) c i used inj h = elim (Bool-cases (elem (c i) used)) [
    | inr free ↦ (i, rw free refl, omega arith, omega arith)
    | inl taken ↦
        let smaller = without-lt (c i) used taken in
        let ih =
          first_free_found fuel c (i + 1) (without (c i) used) (λ j k p q. inj j k p (omega arith))
            (omega (arith, smaller)) in
        (
          ih.0,
          rw taken (same fuel (i + 1) (omega arith) (omega arith) ∙ ih.1),
          omega (arith, ih.2),
          omega (arith, ih.3),
        )
  ]
    where
      same :
          (f k : ℕ)
          → i < k
          → k + f ≤ i + suc fuel
          → first_free f c k used ≡ first_free f c k (without (c i) used)
      same zero k p q = refl
      same (suc f) k p q =
          rw
            (
              elem-without (c i) (c k) used (inj i k p (omega arith)),
              same f (k + 1) (omega arith) (omega arith),
            )
            refl

  -- What it finds is free, and every candidate before it is in use.
  pub first_free_first :
      (fuel : ℕ) (c : ℕ → A) (i : ℕ) (used : List A) (j : ℕ)
      → first_free fuel c i used ≡ some j
      → (elem (c j) used ≡ false) × ((k : ℕ) → i ≤ k → k < j → elem (c k) used ≡ true)
  unfolding first_free
  first_free_first zero c i used j h = cc
  first_free_first (suc fuel) c i used j h = elim (Bool-cases (elem (c i) used)) [
    | inr free ↦ let e' : i ≡ j = ground arith in (rw (← e') free, λ k p q. absurd (omega arith))
    | inl taken ↦
        let ih = first_free_first fuel c (i + 1) used j (rw taken at h) in
        (
          ih.0,
          λ k p q. elim (dec_lt i k) [
            | yes later ↦ ih.1 k (omega arith) q
            | no now ↦ let e' : i ≡ k = omega arith in rw (← e') taken
          ],
        )
  ]
