-- ===== src/Base/Dicts.antt =====
-- A Go map, as an association list: the order of the list is the order in which a `range` loop
-- meets the entries, which Go leaves open; theorems over every list cover every order.
use mathlib.Core.Path.{◌≡◌, refl}
use mathlib.Core.Option.{Option, none, some}
use mathlib.Core.List.{List, [], ◌∷◌}
use native.Mathlib.Omega.{arith}
use gravil.Base.Tests.{Key, ◌==◌, if◌then◌else◌}

abbrev pub Dict {ℓ κ} : Type ℓ → Type κ → Type (ℓ ⊔ κ)
Dict K V = List (K × V)

module _ {ℓ κ} {K : Type ℓ} {V : Type κ} ⦃e : Key K⦄ where
  unfoldable pub get : K → Dict K V → Option V
  get k [] = none
  get k ((j, v) ∷ m) = if j == k then some v else get k m

  unfoldable pub put : K → V → Dict K V → Dict K V
  put k v [] = (k, v) ∷ []
  put k v ((j, w) ∷ m) = if j == k then (j, v) ∷ m else (j, w) ∷ put k v m

  unfoldable pub delete : K → Dict K V → Dict K V
  delete k [] = []
  delete k ((j, w) ∷ m) = let rest = delete k m in if j == k then rest else (j, w) ∷ rest

  pub get-put :
      (k j : K) (v : V) (m : Dict K V) → get j (put k v m) ≡ (if k == j then some v else get j m)
  unfolding get put
  get-put k j v [] = refl
  get-put k j v ((i, w) ∷ m) =
      ground (arith, get-put k j v m, e.same_iff k j, e.same_iff i k, e.same_iff i j)

  pub get-delete :
      (k j : K) (m : Dict K V) → get j (delete k m) ≡ (if k == j then none else get j m)
  unfolding get delete
  get-delete k j [] = ground arith
  get-delete k j ((i, w) ∷ m) =
      ground (arith, get-delete k j m, e.same_iff k j, e.same_iff i k, e.same_iff i j)

  -- No key twice: what a Go map is.
  abbrev pub Distinct : Dict K V → Type κ
  Distinct [] = Unit
  Distinct ((k, v) ∷ m) = (get k m ≡ none) × Distinct m

  pub put-Distinct : (k : K) (v : V) (m : Dict K V) → Distinct m → Distinct (put k v m)
  unfolding get put
  put-Distinct k v [] d = (refl, tt)
  put-Distinct k v ((j, w) ∷ m) d =
      ground (arith, put-Distinct k v m d.1, get-put k j v m, e.same_iff k j, e.same_iff j k)

  pub delete-Distinct : (k : K) (m : Dict K V) → Distinct m → Distinct (delete k m)
  unfolding get delete
  delete-Distinct k [] d = tt
  delete-Distinct k ((j, w) ∷ m) d = ground (arith, delete-Distinct k m d.1, get-delete k j m)

  -- Each entry of a list is what the map holds under its key.
  abbrev pub Held : Dict K V → Dict K V → Type κ
  Held [] m = Unit
  Held ((k, v) ∷ ps) m = (get k m ≡ some v) × Held ps m

  Held-cons : (ps m : Dict K V) (j : K) (w : V) → get j m ≡ none → Held ps m → Held ps ((j, w) ∷ m)
  unfolding get
  Held-cons [] m j w h g = tt
  Held-cons ((k, v) ∷ ps) m j w h g =
      (ground (arith, g.0, e.same_iff j k, h), Held-cons ps m j w h g.1)

  pub Distinct-Held : (m : Dict K V) → Distinct m → Held m m
  unfolding get
  Distinct-Held [] d = tt
  Distinct-Held ((k, v) ∷ m) d =
      (ground (arith, e.same_iff k k), Held-cons m m k v d.0 (Distinct-Held m d.1))
