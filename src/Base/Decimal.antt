-- ===== src/Base/Decimal.antt =====
-- Decimal digits: `strconv.Itoa` and the `%d` of `fmt.Sprintf` on a number that is not negative.
use Prim.Native.Nat.{ℕ, zero, suc, ◌+◌, ◌-◌, ◌*◌, ◌/◌, ◌%◌, ◌<◌}
use mathlib.Core.Path.{◌≡◌, refl, sym, ap, ◌∙◌}
use mathlib.Core.Logic.{inl, inr}
use mathlib.Core.List.{[], ◌∷◌, ◌++◌}
use native.Mathlib.Omega.{arith}
use gravil.Base.Tests.{ltb, if◌then◌else◌, Bool-cases}
use gravil.Base.Texts.{Text}

unfoldable pub digits_from : ℕ → ℕ → Text
digits_from zero n = []
digits_from (suc fuel) n =
    let more = digits_from fuel (n / 10) ++ ((48 + n % 10) ∷ []) in
    if ltb n 10 then (48 + n) ∷ [] else more

-- A number has at most as many digits as its successor counts.
unfoldable pub decimal : ℕ → Text
unfolding digits_from
decimal n = digits_from (suc n) n

-- The number that a row of digits stands for.
value_of : ℕ → Text → ℕ
value_of acc [] = acc
value_of acc (c ∷ s) = value_of (acc * 10 + (c - 48)) s

value_of-append :
    (acc c : ℕ) (s : Text) → value_of acc (s ++ c ∷ []) ≡ value_of acc s * 10 + (c - 48)
unfolding value_of
value_of-append acc c [] = refl
value_of-append acc c (d ∷ s) = value_of-append (acc * 10 + (d - 48)) c s

value_of-digits_from : (fuel n : ℕ) → n < fuel → value_of 0 (digits_from fuel n) ≡ n
unfolding value_of digits_from
value_of-digits_from zero n h = absurd (omega arith)
value_of-digits_from (suc fuel) n h = elim (Bool-cases (ltb n 10)) [
  | inl small ↦ rw small (omega arith)
  | inr large ↦ rw large (
      value_of-append 0 (48 + n % 10) (digits_from fuel (n / 10))
      ∙ last (value_of-digits_from fuel (n / 10) (ground arith)))
]
  where
    last :
        value_of 0 (digits_from fuel (n / 10)) ≡ n / 10
        → value_of 0 (digits_from fuel (n / 10)) * 10 + (48 + n % 10 - 48) ≡ n
    last e = omega arith

-- Different numbers have different digits.
pub decimal-injective : (m n : ℕ) → decimal m ≡ decimal n → m ≡ n
unfolding decimal
decimal-injective m n e =
    sym (value_of-digits_from (suc m) m (omega arith))
    ∙ ap (value_of 0) e
    ∙ value_of-digits_from (suc n) n (omega arith)
