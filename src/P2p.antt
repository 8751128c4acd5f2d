-- ===== src/P2p.antt =====
-- p2p/p2p.go: the order in which addresses are dialled, and the relays that are offered. An address
-- is opaque: `relay_of` tells the relay that it passes, if it is a circuit whose relay can be read.
pub mod Connections
mod Ranking
mod Relays
mod Examples
use gravil.Base.{
  ℕ, ◌+◌, ◌*◌, Bool, true, false, not, ◌&&◌, ◌||◌, Option, none, some, List, [], ◌∷◌, Text, ltb,
  eqb, ◌==◌, text_key, if◌then◌else◌, length, take, drop,
}

-- The closest relay so far, with its latency (0 where it is not known).
pub record Closest : Type 0 where
  pub relay : Text
  pub latency : ℕ

abbrev pub is_closer : ℕ → Option Closest → Bool
is_closer t none = true
is_closer t (some c) = ltb t c.latency

unfoldable pub nearer : (Text → ℕ) → Option Text → Option Closest → Option Closest
nearer latency none c = c
nearer latency (some r) c =
    if not (eqb (latency r) 0) && is_closer (latency r) c
    then some (record { relay = r; latency = latency r })
    else c

-- 500 milliseconds, in nanoseconds.
abbrev pub penalty : ℕ
penalty = 500000000

unfoldable pub extra : Option Text → Option Closest → ℕ
extra none c = 0
extra (some r) none = 0
extra (some r) (some c) = if r == c.relay then 0 else penalty

module _ {ℓ} {A : Type ℓ} (relay_of : A → Option Text) (latency : Text → ℕ) where
  -- The first loop of the ranker.
  unfoldable pub closest_relay : List (A × ℕ) → Option Closest → Option Closest
  unfolding nearer
  closest_relay [] c = c
  closest_relay ((a, d) ∷ rest) c = closest_relay rest (nearer latency (relay_of a) c)

  -- The second loop.
  unfoldable pub delay_others : Option Closest → List (A × ℕ) → List (A × ℕ)
  unfolding extra
  delay_others c [] = []
  delay_others c ((a, d) ∷ rest) = (a, d + extra (relay_of a) c) ∷ delay_others c rest

  -- `getDialRanker`, over the delays of the default ranker.
  unfoldable pub rank_delays : List (A × ℕ) → List (A × ℕ)
  unfolding closest_relay delay_others
  rank_delays delays = delay_others (closest_relay delays none) delays

-- `getAllCandidates`: the bootstrap peers that are connected and whose latency is known; `sort_by` is
-- `slices.SortFunc`.
unfoldable pub usable : (Text → Bool) → (Text → ℕ) → List Text → List Text
usable connected latency [] = []
usable connected latency (p ∷ ps) =
    let rest = usable connected latency ps in
    if not (connected p) || eqb (latency p) 0 then rest else p ∷ rest

unfoldable pub candidates :
    ((Text → ℕ) → List Text → List Text) → (Text → Bool) → (Text → ℕ) → List Text → List Text
unfolding usable
candidates sort_by connected latency bootstrap =
    sort_by latency (usable connected latency bootstrap)

abbrev pub refilled : List Text → List Text → List Text
refilled all [] = all
refilled all (p ∷ ps) = p ∷ ps

-- One call of the peer source: what it sends, and what is left for the next call; `all` are the
-- candidates at that time.
unfoldable pub offer_relays : ℕ → List Text → List Text → List Text × List Text
offer_relays num_peers all last =
    let infos = refilled all last in
    let n = if ltb (length infos) num_peers then length infos else num_peers in
    (take n infos, drop n infos)
