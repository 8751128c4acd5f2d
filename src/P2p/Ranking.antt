-- ===== src/P2p/Ranking.antt =====
-- p2p/p2p.go: which relay the dial ranker prefers.
use gravil.Base.{
  ℕ, ◌≤◌, ◌<◌, ◌≡◌, ◌⊎◌, inl, inr, refl, not, ◌&&◌, Option, none, some, List, [], ◌∷◌, arith, Text,
  ltb, eqb, Bool-cases,
}
use gravil.P2p.{Closest, is_closer, nearer, closest_relay, delay_others, rank_delays}

-- No known latency is less than that of the choice.
abbrev pub Bounds : ℕ → Option Closest → Type 0
Bounds t none = t ≡ 0
Bounds t (some c) = (t ≡ 0) ⊎ (c.latency ≤ t)

-- The choice has its own latency, which is known.
abbrev pub IsMeasured : (Text → ℕ) → Option Closest → Type 0
IsMeasured latency none = Unit
IsMeasured latency (some c) = (c.latency ≡ latency c.relay) × (0 < c.latency)

nearer-Bounds :
    (latency : Text → ℕ) (r : Option Text) (t : ℕ) (c : Option Closest)
    → Bounds t c
    → Bounds t (nearer latency r c)
unfolding nearer
nearer-Bounds latency none t c h = h
nearer-Bounds latency (some r) t none h = elim (Bool-cases (eqb (latency r) 0)) [
  | inl zero ↦ rw zero h
  | inr known ↦ rw known (inl h)
]
nearer-Bounds latency (some r) t (some c) h =
    elim (Bool-cases (not (eqb (latency r) 0) && ltb (latency r) c.latency)) [
      | inl closer ↦ rw closer (ground (arith, h, closer))
      | inr farther ↦ rw farther h
    ]

nearer_self :
    (latency : Text → ℕ) (r : Text) (c : Option Closest)
    → Bounds (latency r) (nearer latency (some r) c)
unfolding nearer
nearer_self latency r none = elim (Bool-cases (eqb (latency r) 0)) [
  | inl zero ↦ rw zero (ground (arith, zero))
  | inr known ↦ rw known (inr (omega arith))
]
nearer_self latency r (some c) =
    elim (Bool-cases (not (eqb (latency r) 0) && ltb (latency r) c.latency)) [
      | inl closer ↦ rw closer (inr (omega arith))
      | inr farther ↦ rw farther (ground (arith, farther))
    ]

nearer-IsMeasured :
    (latency : Text → ℕ) (r : Option Text) (c : Option Closest)
    → IsMeasured latency c
    → IsMeasured latency (nearer latency r c)
unfolding nearer
nearer-IsMeasured latency none c h = h
nearer-IsMeasured latency (some r) c h =
    elim (Bool-cases (not (eqb (latency r) 0) && is_closer (latency r) c)) [
      | inl closer ↦ rw closer (refl, ground (arith, closer))
      | inr farther ↦ rw farther h
    ]

module _ {ℓ} {A : Type ℓ} (relay_of : A → Option Text) (latency : Text → ℕ) where
  abbrev pub AllBounded : Option Closest → List (A × ℕ) → Type 0
  AllBounded c [] = Unit
  AllBounded c ((a, d) ∷ rest) =
      ((r : Text) → relay_of a ≡ some r → Bounds (latency r) c) × AllBounded c rest

  closest-Bounds :
      (t : ℕ) (l : List (A × ℕ)) (c : Option Closest)
      → Bounds t c
      → Bounds t (closest_relay relay_of latency l c)
  unfolding closest_relay
  closest-Bounds t [] c h = h
  closest-Bounds t ((a, d) ∷ rest) c h =
      closest-Bounds t rest (nearer latency (relay_of a) c)
        (nearer-Bounds latency (relay_of a) t c h)

  closest-IsMeasured :
      (l : List (A × ℕ)) (c : Option Closest)
      → IsMeasured latency c
      → IsMeasured latency (closest_relay relay_of latency l c)
  unfolding closest_relay
  closest-IsMeasured [] c h = h
  closest-IsMeasured ((a, d) ∷ rest) c h =
      closest-IsMeasured rest (nearer latency (relay_of a) c)
        (nearer-IsMeasured latency (relay_of a) c h)

  closest-AllBounded :
      (l : List (A × ℕ)) (c : Option Closest) → AllBounded (closest_relay relay_of latency l c) l
  unfolding closest_relay
  closest-AllBounded [] c = tt
  closest-AllBounded ((a, d) ∷ rest) c = (
    λ r e.
        closest-Bounds (latency r) rest (nearer latency (relay_of a) c)
          (rw e (nearer_self latency r c)),
    closest-AllBounded rest (nearer latency (relay_of a) c),
  )

  -- The ranker keeps the addresses and their order. There is a choice of a relay, with a known latency
  -- that is the least of the known ones of all relays in the list, or none where no latency is known;
  -- it delays exactly the addresses through another relay than the choice, by the penalty.
  pub rank_delays-chooses :
      (l : List (A × ℕ))
      → (c : Option Closest) × IsMeasured latency c
        × AllBounded c l
        × (rank_delays relay_of latency l ≡ delay_others relay_of latency c l)
  unfolding rank_delays
  rank_delays-chooses l = (
    closest_relay relay_of latency l none,
    closest-IsMeasured l none tt,
    closest-AllBounded l none,
    refl,
  )
