-- ===== src/Config/Defaults/Aliases.antt =====
-- config/other.go: the aliases of the peers after `setDefaults`.
use gravil.Base.{
  ℕ, ◌≡◌, ◌⊎◌, ◌<◌, inl, inr, subst, refl, sym, ap, ◌∙◌, true, false, ◌||◌, List, [], ◌∷◌, ◌++◌,
  arith, Text, Dict, text_key, text_eq_iff, elem,
}
use gravil.Addr.{Network}
use gravil.Config.{KnownPeer}
use gravil.Config.Peers.{is_empty}
use gravil.Config.Alias.{aliases, wanted, numbered, gen_uniq_peer_alias_free}
use gravil.Config.Defaults.{System, fill_peer, fill_peers}

-- No text stands in the list twice.
abbrev pub NoRepeats : List Text → Type 0
NoRepeats [] = Unit {0}
NoRepeats (a ∷ names) = (elem a names ≡ false) × NoRepeats names

abbrev pub NoneEmpty : List Text → Type 0
NoneEmpty [] = Unit {0}
NoneEmpty (a ∷ names) = (is_empty a ≡ false) × NoneEmpty names

pub elem-append :
    (a : Text) (names bs : List Text) → elem a (names ++ bs) ≡ (elem a names || elem a bs)
unfolding elem
elem-append a [] bs = refl
elem-append a (b ∷ names) bs = ground (arith, elem-append a names bs)

NoRepeats-snoc :
    (names : List Text) (b : Text)
    → NoRepeats names
    → elem b names ≡ false
    → NoRepeats (names ++ b ∷ [])
unfolding elem
NoRepeats-snoc [] b h n = (refl, tt)
NoRepeats-snoc (a ∷ names) b h n = (
  ground (arith, h.0, n, elem-append a names (b ∷ []), text_eq_iff a b, text_eq_iff b a),
  NoRepeats-snoc names b h.1 (ground (arith, n)),
)

NoneEmpty-snoc :
    (names : List Text) (b : Text)
    → NoneEmpty names
    → is_empty b ≡ false
    → NoneEmpty (names ++ b ∷ [])
NoneEmpty-snoc [] b h n = (n, tt)
NoneEmpty-snoc (a ∷ names) b h n = (h.0, NoneEmpty-snoc names b h.1 n)

pub aliases-append : (ps qs : Dict Text KnownPeer) → aliases (ps ++ qs) ≡ aliases ps ++ aliases qs
unfolding aliases
aliases-append [] qs = refl
aliases-append ((k, p) ∷ ps) qs = ap (◌∷◌ p.alias) (aliases-append ps qs)

wanted_some : (name alias : Text) → is_empty (wanted name alias) ≡ false
wanted_some name (c ∷ alias) = refl
wanted_some (c ∷ name) [] = refl
wanted_some [] [] = refl

numbered_some : (s : Text) (i : ℕ) → is_empty (numbered s i) ≡ false
numbered_some [] i = refl
numbered_some (c ∷ s) i = refl

found_some :
    (name alias a : Text) (used : List Text)
    → (a ≡ wanted name alias)
      ⊎ ((i : ℕ) × (a ≡ numbered (wanted name alias) i)
          × (elem (wanted name alias) used ≡ true)
          × ((k : ℕ) → k < i → elem (numbered (wanted name alias) k) used ≡ true))
    → is_empty a ≡ false
found_some name alias a used (inl e) = ap is_empty e ∙ wanted_some name alias
found_some name alias a used (inr h) = ap is_empty h.1 ∙ numbered_some (wanted name alias) h.0

-- The alias of a filled peer is not among those used before, and is not empty.
pub fill_peer-alias :
    (sys : System) (vpn : Network) (used : List Text) (table : Dict Text KnownPeer) (p : KnownPeer)
    → (elem (fill_peer sys vpn used table p).alias used ≡ false)
      × (is_empty (fill_peer sys vpn used table p).alias ≡ false)
unfolding fill_peer
fill_peer-alias sys vpn used table p =
    let g = gen_uniq_peer_alias_free p.name p.alias used in
    rw g.1 (g.2, found_some p.name p.alias g.0 used g.3)

module _ (sys : System) (vpn : Network) where
  kept_apart :
      (ps before : Dict Text KnownPeer)
      → NoRepeats (aliases before)
      → NoneEmpty (aliases before)
      → NoRepeats (aliases (fill_peers sys vpn before ps))
        × NoneEmpty (aliases (fill_peers sys vpn before ps))
  unfolding fill_peers aliases
  kept_apart [] before h n = (h, n)
  kept_apart ((id, p) ∷ ps) before h n =
      let q = fill_peer sys vpn (aliases before) (before ++ (id, p) ∷ ps) p in
      let new = fill_peer-alias sys vpn (aliases before) (before ++ (id, p) ∷ ps) p in
      kept_apart ps (before ++ (id, q) ∷ [])
        (subst NoRepeats (sym (aliases-append before ((id, q) ∷ [])))
          (NoRepeats-snoc (aliases before) q.alias h new.0))
        (subst NoneEmpty (sym (aliases-append before ((id, q) ∷ [])))
          (NoneEmpty-snoc (aliases before) q.alias n new.1))

  -- After the loop of `setDefaults` over the peers no two peers have the same alias, and none has an
  -- empty one, whatever the file held.
  pub fill_peers-NoRepeats :
      (ps : Dict Text KnownPeer)
      → NoRepeats (aliases (fill_peers sys vpn [] ps))
        × NoneEmpty (aliases (fill_peers sys vpn [] ps))
  unfolding aliases
  fill_peers-NoRepeats ps = kept_apart ps [] tt tt
