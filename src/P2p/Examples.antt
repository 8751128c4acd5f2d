-- ===== src/P2p/Examples.antt =====
-- p2p/p2p.go: three addresses in the order of dialling.
use gravil.Base.{
  ℕ, ◌≡◌, refl, Option, none, some, List, [], ◌∷◌, Text, text, text_eq, text_key, ◌==◌,
  if◌then◌else◌,
}
use gravil.P2p.{rank_delays, delay_others, closest_relay, nearer, extra}

-- An address is the relay that it passes, if any.
abbrev through : Option Text → Option Text
through o = o

abbrev measured : Text → ℕ
measured r = if r == text "near" then 20 else if r == text "far" then 90 else 0

abbrev delays : List (Option Text × ℕ)
delays = (some (text "far"), 0) ∷ (none, 0) ∷ (some (text "near"), 0) ∷ []

near_first :
    rank_delays through measured delays
    ≡ (some (text "far"), 500000000) ∷ (none, 0) ∷ (some (text "near"), 0) ∷ []
unfolding rank_delays delay_others closest_relay nearer extra text_eq
near_first = refl
