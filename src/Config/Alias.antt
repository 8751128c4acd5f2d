-- ===== src/Config/Alias.antt =====
-- config/config.go: the unique aliases of known peers.
use gravil.Base.{
  ℕ, suc, ◌<◌, ◌≡◌, ◌≢◌, ◌⊎◌, inl, inr, refl, ap, Bool, true, false, Option, none, some, List, [],
  ◌∷◌, ◌++◌, arith, Text, Dict, ◌==◌, text_key, if◌then◌else◌, length, elem, first_free,
  first_free_found, first_free_first, decimal, decimal-injective, Bool-cases,
}
use gravil.Config.{Config, KnownPeer, default_peer_alias}
use gravil.Config.Peers.{is_empty}

unfoldable pub aliases : Dict Text KnownPeer → List Text
aliases [] = []
aliases ((_, p) ∷ ps) = p.alias ∷ aliases ps

-- `IsUniqPeerAlias`, over the known peers.
unfoldable pub is_uniq_from : Text → Text → Dict Text KnownPeer → Bool
is_uniq_from exclude alias [] = true
is_uniq_from exclude alias ((_, p) ∷ ps) =
    let rest = is_uniq_from exclude alias ps in
    if p.peer_id == exclude then rest else if p.alias == alias then false else rest

unfoldable pub is_uniq_peer_alias : Config → Text → Text → Bool
unfolding is_uniq_from
is_uniq_peer_alias c exclude alias = is_uniq_from exclude alias c.known_peers

abbrev pub wanted : Text → Text → Text
wanted name alias =
    if is_empty alias then (if is_empty name then default_peer_alias else name) else alias

-- `fmt.Sprintf("%s_%d", alias, i)`.
abbrev pub numbered : Text → ℕ → Text
numbered alias i = alias ++ (95 ∷ decimal i)

abbrev number_it : Text → Option ℕ → Option Text
number_it alias none = none
number_it alias (some i) = some (numbered alias i)

-- `genUniqPeerAlias` with the aliases in use; the caller's set gains the result. `none` would be a
-- loop that does not end; with one round more than there are aliases it cannot come (below).
unfoldable pub gen_uniq_peer_alias : Text → Text → List Text → Option Text
gen_uniq_peer_alias name alias used =
    if elem (wanted name alias) used
    then number_it (wanted name alias)
        (first_free (suc (length used)) (numbered (wanted name alias)) 0 used)
    else some (wanted name alias)

append-injective : (s t u : Text) → s ++ t ≡ s ++ u → t ≡ u
append-injective [] t u e = e
append-injective (c ∷ s) t u e = append-injective s t u (tail_eq e)
  where
    tail_eq : {a b : ℕ} {x y : Text} → a ∷ x ≡ b ∷ y → x ≡ y
    tail_eq p = cc

numbered-ne : (alias : Text) (i j : ℕ) → i < j → numbered alias i ≢ numbered alias j
numbered-ne alias i j h e =
    let digits : decimal i ≡ decimal j = tail_eq (append-injective alias _ _ e) in
    absurd (omega (arith, decimal-injective i j digits))
  where
    tail_eq : {a b : ℕ} {x y : Text} → a ∷ x ≡ b ∷ y → x ≡ y
    tail_eq p = cc

-- The generator always returns, with an alias that is not in use; it keeps the wanted alias where
-- that is free, and otherwise takes the first free number behind it.
pub gen_uniq_peer_alias_free :
    (name alias : Text) (used : List Text)
    → (a : Text) × (gen_uniq_peer_alias name alias used ≡ some a)
      × (elem a used ≡ false)
      × ((a ≡ wanted name alias)
          ⊎ ((i : ℕ) × (a ≡ numbered (wanted name alias) i)
              × (elem (wanted name alias) used ≡ true)
              × ((k : ℕ) → k < i → elem (numbered (wanted name alias) k) used ≡ true)))
unfolding gen_uniq_peer_alias
gen_uniq_peer_alias_free name alias used = elim (Bool-cases (elem (wanted name alias) used)) [
  | inr free ↦ (wanted name alias, rw free refl, free, inl refl)
  | inl taken ↦
      let found =
        first_free_found (suc (length used)) (numbered (wanted name alias)) 0 used
          (λ j k p q. numbered-ne (wanted name alias) j k p) (omega arith) in
      let first =
        first_free_first (suc (length used)) (numbered (wanted name alias)) 0 used found.0
          found.1 in
      (
        numbered (wanted name alias) found.0,
        rw taken (ap (number_it (wanted name alias)) found.1),
        first.0,
        inr (found.0, refl, taken, λ k p. first.1 k (omega arith) p),
      )
]

is_uniq_of_free :
    (exclude alias : Text) (ps : Dict Text KnownPeer)
    → elem alias (aliases ps) ≡ false
    → is_uniq_from exclude alias ps ≡ true
unfolding is_uniq_from aliases elem
is_uniq_of_free exclude alias [] h = refl
is_uniq_of_free exclude alias ((k, p) ∷ ps) h = ground (arith, is_uniq_of_free exclude alias ps)

-- `GenUniqPeerAlias` returns an alias that `IsUniqPeerAlias` accepts, for any peer.
pub is_uniq_peer_alias-gen :
    (c : Config) (name alias exclude : Text)
    → (a : Text) × (gen_uniq_peer_alias name alias (aliases c.known_peers) ≡ some a)
      × (is_uniq_peer_alias c exclude a ≡ true)
unfolding is_uniq_peer_alias
is_uniq_peer_alias-gen c name alias exclude =
    let g = gen_uniq_peer_alias_free name alias (aliases c.known_peers) in
    (g.0, g.1, is_uniq_of_free exclude g.0 c.known_peers g.2)
