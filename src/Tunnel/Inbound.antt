-- ===== src/Tunnel/Inbound.antt =====
-- service/tunnel.go: `backgroundInboundHandler`, one batch: which packets are given back to the pool.
-- A packet is a reference; `parses` is whether its `Parse` succeeds. `batch[i]` is not changed before
-- round `i`, so that the loop sees the packets that came in.
pub mod Sifting
pub mod Pool
use gravil.Base.{
  ℕ, zero, suc, ◌+◌, Bool, true, false, Option, none, some, List, [], ◌∷◌, ◌++◌, take, map, filter,
  if◌then◌else◌,
}

-- `batch[i] = r`.
pub set_at {ℓ} : {A : Type ℓ} → ℕ → A → List A → List A
set_at i r [] = []
set_at zero r (x ∷ xs) = r ∷ xs
set_at (suc i) r (x ∷ xs) = x ∷ set_at i r xs

pub record Sifted : Type 0 where
  pub batch : List (Option ℕ)
  pub new_len : ℕ
  -- what was given back to the pool, in order
  pub returned : List ℕ

module _ (parses : ℕ → Bool) where
  -- The first loop: `i` is the round, the list holds the packets still to see.
  unfoldable pub sift : ℕ → List ℕ → Sifted → Sifted
  unfolding set_at
  sift i [] s = s
  sift i (r ∷ rs) s = sift (i + 1) rs (
      if parses r
      then record s { batch = set_at s.new_len (some r) s.batch; new_len = s.new_len + 1 }
      else record s { batch = set_at i none s.batch; returned = s.returned ++ r ∷ [] })

  -- The last loop: every entry that is not nil.
  unfoldable pub put_back : List (Option ℕ) → List ℕ
  put_back [] = []
  put_back (none ∷ b) = put_back b
  put_back (some r ∷ b) = r ∷ put_back b

  unfoldable pub start : List ℕ → Sifted
  start rs = record { batch = map some rs; new_len = 0; returned = [] }

  -- What the handler writes to the device: `filteredPackets`.
  unfoldable pub filtered : List ℕ → List (Option ℕ)
  unfolding sift start
  filtered rs = let s = sift 0 rs (start rs) in take s.new_len s.batch

  -- All that goes back to the pool for one batch.
  unfoldable pub returned_to_pool : List ℕ → List ℕ
  unfolding sift start put_back
  returned_to_pool rs = let s = sift 0 rs (start rs) in s.returned ++ put_back s.batch

  abbrev pub good : List ℕ → List ℕ
  good rs = filter parses rs

  abbrev pub bad : List ℕ → List ℕ
  bad [] = []
  bad (r ∷ rs) = if parses r then bad rs else r ∷ bad rs

  -- The entries between the packets kept so far and those still to see, and what they become.
  unfoldable pub leftover : List (Option ℕ) → List ℕ → List (Option ℕ)
  leftover mid [] = mid
  leftover [] (r ∷ rs) =
      let kept = leftover [] rs in
      let hole = leftover (none ∷ []) rs in if parses r then kept else hole
  leftover (m ∷ mid) (r ∷ rs) =
      let kept = leftover (mid ++ some r ∷ []) rs in
      let hole = leftover (m ∷ (mid ++ none ∷ [])) rs in if parses r then kept else hole
