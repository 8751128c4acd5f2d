-- ===== src/Tunnel/Inbound/Sifting.antt =====
-- service/tunnel.go: the first loop of `backgroundInboundHandler`, round by round.
use gravil.Base.{
  ℕ, zero, suc, ◌+◌, ◌≡◌, refl, sym, ap, ◌∙◌, Bool, Option, none, some, List, [], ◌∷◌, ◌++◌, arith,
  length, map, length-append, append_assoc, append-nil, Bool-cases, inl, inr,
}
use gravil.Tunnel.Inbound.{set_at, Sifted, sift, leftover, good, bad}

module _ (parses : ℕ → Bool) where
  abbrev pub state : List ℕ → List (Option ℕ) → List ℕ → List ℕ → Sifted
  state gs mid rs ret = record {
    batch = map some gs ++ (mid ++ map some rs);
    new_len = length gs;
    returned = ret;
  }

  pub length-map-some : (gs : List ℕ) → length (map some gs) ≡ length gs
  length-map-some [] = refl
  length-map-some (g ∷ gs) = ap suc (length-map-some gs)

  map-some-append : (gs hs : List ℕ) → map some (gs ++ hs) ≡ map some gs ++ map some hs
  map-some-append [] hs = refl
  map-some-append (g ∷ gs) hs = ap (◌∷◌ (some g)) (map-some-append gs hs)

  set_at-append :
      (k : ℕ) (xs ys : List (Option ℕ)) (r : Option ℕ)
      → k ≡ length xs
      → set_at k r (xs ++ ys) ≡ xs ++ set_at 0 r ys
  unfolding set_at
  set_at-append k [] ys r e = ap (λ i. set_at i r ys) e
  set_at-append zero (x ∷ xs) ys r e = absurd (omega arith)
  set_at-append (suc k) (x ∷ xs) ys r e = ap (◌∷◌ x) (set_at-append k xs ys r (omega arith))

  keep_grown :
      (gs : List ℕ) (r : ℕ) (rest : List (Option ℕ))
      → map some gs ++ some r ∷ rest ≡ map some (gs ++ r ∷ []) ++ rest
  keep_grown gs r rest =
      sym (append_assoc (map some gs) (some r ∷ []) rest)
      ∙ ap (λ xs. xs ++ rest) (sym (map-some-append gs (r ∷ [])))

  -- A packet that parses goes to the place behind those kept so far.
  keep_batch :
      (gs : List ℕ) (r : ℕ) (m : Option ℕ) (rest : List (Option ℕ))
      → set_at (length gs) (some r) (map some gs ++ m ∷ rest) ≡ map some (gs ++ r ∷ []) ++ rest
  unfolding set_at
  keep_batch gs r m rest =
      set_at-append (length gs) (map some gs) (m ∷ rest) (some r) (sym (length-map-some gs))
      ∙ keep_grown gs r rest

  -- Another one leaves a hole.
  hole_batch :
      (gs : List ℕ) (mid rest : List (Option ℕ)) (r : Option ℕ)
      → set_at (length gs + length mid) none (map some gs ++ (mid ++ r ∷ rest))
        ≡ map some gs ++ ((mid ++ none ∷ []) ++ rest)
  unfolding set_at
  hole_batch gs mid rest r =
      ap (set_at (length gs + length mid) none) (sym (append_assoc (map some gs) mid (r ∷ rest)))
      ∙ set_at-append (length gs + length mid) (map some gs ++ mid) (r ∷ rest) none
          (omega (arith, length-append (map some gs) mid, length-map-some gs))
      ∙ append_assoc (map some gs) mid (none ∷ rest)
      ∙ ap (◌++◌ (map some gs)) (sym (append_assoc mid (none ∷ []) rest))

  abbrev pub done : List ℕ → List (Option ℕ) → List ℕ → List ℕ → Sifted
  done gs mid rs ret = record {
    batch = map some (gs ++ good parses rs) ++ leftover parses mid rs;
    new_len = length (gs ++ good parses rs);
    returned = ret ++ bad parses rs;
  }

  -- The state after a packet that parses, and after the rest.
  after_kept :
      (i r : ℕ) (rs gs : List ℕ) (mid b : List (Option ℕ)) (ret : List ℕ)
      → b ≡ map some (gs ++ r ∷ []) ++ (mid ++ map some rs)
      → i ≡ length (gs ++ r ∷ []) + length mid
      → sift parses (length (gs ++ r ∷ []) + length mid) rs (state (gs ++ r ∷ []) mid rs ret)
        ≡ done (gs ++ r ∷ []) mid rs ret
      → sift parses i rs (record { batch = b; new_len = length gs + 1; returned = ret }) ≡ record {
        batch = map some (gs ++ r ∷ good parses rs) ++ leftover parses mid rs;
        new_len = length (gs ++ r ∷ good parses rs);
        returned = ret ++ bad parses rs;
      }
  after_kept i r rs gs mid b ret eb ei ih =
      let n : length gs + 1 ≡ length (gs ++ r ∷ []) = omega (arith, length-append gs (r ∷ [])) in
      ap (λ k. sift parses k rs (record { batch = b; new_len = length gs + 1; returned = ret })) ei
      ∙ ap
          (λ c.
            sift parses (length (gs ++ r ∷ []) + length mid) rs
              (record { batch = c; new_len = length gs + 1; returned = ret }))
          eb
      ∙ ap
          (λ k. sift parses (length (gs ++ r ∷ []) + length mid) rs (record {
            batch = map some (gs ++ r ∷ []) ++ (mid ++ map some rs);
            new_len = k;
            returned = ret;
          }))
          n
      ∙ ih
      ∙ ap
          (λ hs. record {
            batch = map some hs ++ leftover parses mid rs;
            new_len = length hs;
            returned = ret ++ bad parses rs;
          })
          (append_assoc gs (r ∷ []) (good parses rs))

  -- The same for one that does not.
  after_hole :
      (i r : ℕ) (rs gs : List ℕ) (mid b : List (Option ℕ)) (ret : List ℕ)
      → b ≡ map some gs ++ (mid ++ map some rs)
      → i ≡ length gs + length mid
      → sift parses (length gs + length mid) rs (state gs mid rs (ret ++ r ∷ []))
        ≡ done gs mid rs (ret ++ r ∷ [])
      → sift parses i rs (record { batch = b; new_len = length gs; returned = ret ++ r ∷ [] })
        ≡ record {
          batch = map some (gs ++ good parses rs) ++ leftover parses mid rs;
          new_len = length (gs ++ good parses rs);
          returned = ret ++ r ∷ bad parses rs;
        }
  after_hole i r rs gs mid b ret eb ei ih =
      ap
        (λ k.
          sift parses k rs (record { batch = b; new_len = length gs; returned = ret ++ r ∷ [] }))
        ei
      ∙ ap
          (λ c.
            sift parses (length gs + length mid) rs
              (record { batch = c; new_len = length gs; returned = ret ++ r ∷ [] }))
          eb
      ∙ ih
      ∙ ap
          (λ k. record {
            batch = map some (gs ++ good parses rs) ++ leftover parses mid rs;
            new_len = length (gs ++ good parses rs);
            returned = k;
          })
          (append_assoc ret (r ∷ []) (bad parses rs))

  pub sift-done :
      (rs gs : List ℕ) (mid : List (Option ℕ)) (ret : List ℕ)
      → sift parses (length gs + length mid) rs (state gs mid rs ret) ≡ done gs mid rs ret
  unfolding sift leftover
  sift-done [] gs mid ret = rw (append-nil gs, append-nil mid, append-nil ret) refl
  sift-done (r ∷ rs) gs [] ret = elim (Bool-cases (parses r)) [
    | inl parsed ↦ rw parsed (
        after_kept (length gs + 0 + 1) r rs gs [] _ ret (keep_batch gs r (some r) (map some rs))
          (omega (arith, length-append gs (r ∷ []))) (sift-done rs (gs ++ r ∷ []) [] ret))
    | inr failed ↦ rw failed (
        after_hole (length gs + 0 + 1) r rs gs (none ∷ []) _ ret
          (hole_batch gs [] (map some rs) (some r)) (omega arith)
          (sift-done rs gs (none ∷ []) (ret ++ r ∷ [])))
  ]
  sift-done (r ∷ rs) gs (m ∷ mid) ret = elim (Bool-cases (parses r)) [
    | inl parsed ↦ rw parsed (
        after_kept (length gs + length (m ∷ mid) + 1) r rs gs (mid ++ some r ∷ []) _ ret
          (keep_batch gs r m (mid ++ some r ∷ map some rs)
            ∙ ap (◌++◌ (map some (gs ++ r ∷ [])))
                (sym (append_assoc mid (some r ∷ []) (map some rs))))
          (omega (arith, length-append gs (r ∷ []), length-append mid (some r ∷ [])))
          (sift-done rs (gs ++ r ∷ []) (mid ++ some r ∷ []) ret))
    | inr failed ↦ rw failed (
        after_hole (length gs + length (m ∷ mid) + 1) r rs gs (m ∷ (mid ++ none ∷ [])) _ ret
          (hole_batch gs (m ∷ mid) (map some rs) (some r))
          (omega (arith, length-append mid (none ∷ [])))
          (sift-done rs gs (m ∷ (mid ++ none ∷ [])) (ret ++ r ∷ [])))
  ]
