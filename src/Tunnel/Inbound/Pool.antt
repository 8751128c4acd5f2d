-- ===== src/Tunnel/Inbound/Pool.antt =====
-- service/tunnel.go: what one batch of `backgroundInboundHandler` gives to the device and to the pool.
use gravil.Base.{
  ℕ, ◌≡◌, refl, sym, ap, ◌∙◌, Bool, true, false, Option, none, some, List, [], ◌∷◌, ◌++◌, length,
  take, map, append-nil, take-append_length,
}
use gravil.Tunnel.Inbound.{
  Sifted, sift, leftover, good, bad, put_back, start, filtered, returned_to_pool,
}
use gravil.Tunnel.Inbound.Sifting.{sift-done, length-map-some}

module _ (parses : ℕ → Bool) where
  abbrev end : List ℕ → Sifted
  end rs = record {
    batch = map some (good parses rs) ++ leftover parses [] rs;
    new_len = length (good parses rs);
    returned = bad parses rs;
  }

  sifted : (rs : List ℕ) → sift parses 0 rs (start parses rs) ≡ end rs
  unfolding start
  sifted rs = sift-done parses rs [] [] []

  -- The device is handed exactly the packets of the batch that parse, in order.
  pub filtered-good : (rs : List ℕ) → filtered parses rs ≡ map some (good parses rs)
  unfolding filtered
  filtered-good rs =
      ap (λ s. take s.new_len s.batch) (sifted rs)
      ∙ ap (λ k. take k (map some (good parses rs) ++ leftover parses [] rs))
          (sym (length-map-some parses (good parses rs)))
      ∙ take-append_length (map some (good parses rs)) (leftover parses [] rs)

  put_back_kept :
      (gs : List ℕ) (b : List (Option ℕ))
      → put_back parses (map some gs ++ b) ≡ gs ++ put_back parses b
  unfolding put_back
  put_back_kept [] b = refl
  put_back_kept (g ∷ gs) b = ap (◌∷◌ g) (put_back_kept gs b)

  -- What goes back to the pool: the packets that do not parse, the others, and whatever the
  -- places behind them still hold.
  pool_parts :
      (rs : List ℕ)
      → returned_to_pool parses rs
        ≡ bad parses rs ++ (good parses rs ++ put_back parses (leftover parses [] rs))
  unfolding returned_to_pool
  pool_parts rs =
      ap (λ s. s.returned ++ put_back parses s.batch) (sifted rs)
      ∙ ap (◌++◌ (bad parses rs)) (put_back_kept (good parses rs) (leftover parses [] rs))

  abbrev pub AllParse : List ℕ → Type 0
  AllParse [] = Unit {0}
  AllParse (r ∷ rs) = (parses r ≡ true) × AllParse rs

  good_all : (rs : List ℕ) → AllParse rs → good parses rs ≡ rs
  good_all [] h = refl
  good_all (r ∷ rs) h = rw (h.0, good_all rs h.1) refl

  bad_none : (rs : List ℕ) → AllParse rs → bad parses rs ≡ []
  bad_none [] h = refl
  bad_none (r ∷ rs) h = rw (h.0, bad_none rs h.1) refl

  leftover_none : (rs : List ℕ) → AllParse rs → leftover parses [] rs ≡ []
  unfolding leftover
  leftover_none [] h = refl
  leftover_none (r ∷ rs) h = rw h.0 (leftover_none rs h.1)

  leftover_last :
      (rs : List ℕ) (g : ℕ) (m : Option ℕ)
      → AllParse rs
      → parses g ≡ true
      → leftover parses (m ∷ []) (rs ++ g ∷ []) ≡ some g ∷ []
  unfolding leftover
  leftover_last [] g m h p = rw p refl
  leftover_last (r ∷ rs) g m h p = rw h.0 (leftover_last rs g (some r) h.1 p)

  -- When every packet of the batch parses, each goes back to the pool once.
  pub returned_to_pool_once : (rs : List ℕ) → AllParse rs → returned_to_pool parses rs ≡ rs
  unfolding put_back
  returned_to_pool_once rs h =
      pool_parts rs ∙ rw (bad_none rs h, good_all rs h, leftover_none rs h) (append-nil rs)

  AllParse-append : (rs : List ℕ) (g : ℕ) → AllParse rs → parses g ≡ true → AllParse (rs ++ g ∷ [])
  AllParse-append [] g h p = (p, tt)
  AllParse-append (r ∷ rs) g h p = (h.0, AllParse-append rs g h.1 p)

  -- When one packet that does not parse precedes packets that do, the last of them goes back to
  -- the pool twice, so that the pool can hand one packet to two users.
  pub returned_to_pool_twice :
      (b : ℕ) (rs : List ℕ) (g : ℕ)
      → parses b ≡ false
      → AllParse rs
      → parses g ≡ true
      → returned_to_pool parses (b ∷ (rs ++ g ∷ [])) ≡ b ∷ ((rs ++ g ∷ []) ++ g ∷ [])
  unfolding put_back leftover
  returned_to_pool_twice b rs g f h p =
      let all = AllParse-append rs g h p in
      pool_parts (b ∷ (rs ++ g ∷ []))
      ∙ rw
          (f, bad_none (rs ++ g ∷ []) all, good_all (rs ++ g ∷ []) all, leftover_last rs g none h p)
          refl
