-- ===== src/Config/Defaults/Order.antt =====
-- config/other.go: a second loop of `setDefaults` meets the peers in another order.
use mathlib.Core.List.{Permᴰ}
use gravil.Base.{
  ◌≡◌, refl, sym, ap, ap₂, ◌∙◌, subst, false, ◌||◌, Bool, true, List, [], ◌∷◌, ◌++◌, arith, Text,
  Dict, ◌==◌, text_key, text_eq_iff, elem,
}
use gravil.Addr.{Network}
use gravil.Config.{KnownPeer}
use gravil.Config.Peers.{is_empty, peer_display_name}
use gravil.Config.Alias.{aliases}
use gravil.Config.Defaults.{System, or_default, fill_peers}
use gravil.Config.Defaults.Aliases.{NoRepeats, elem-append, aliases-append, fill_peers-NoRepeats}
use gravil.Config.Defaults.Again.{AllStable, fill_peers_same, filled}

-- No peer has an alias of the list.
Apart : List Text → Dict Text KnownPeer → Type 0
Apart used [] = Unit {0}
Apart used (e ∷ ps) = (elem e.1.alias used ≡ false) × Apart used ps

Apart-snoc :
    (used : List Text) (a : Text) (ps : Dict Text KnownPeer)
    → Apart used ps
    → elem a (aliases ps) ≡ false
    → Apart (used ++ a ∷ []) ps
unfolding Apart elem aliases
Apart-snoc used a [] h n = tt
Apart-snoc used a ((k, p) ∷ ps) h n = (
  ground (
    arith,
    h.0,
    n,
    elem-append p.alias used (a ∷ []),
    text_eq_iff a p.alias,
    text_eq_iff p.alias a,
  ),
  Apart-snoc used a ps h.1 (ground (arith, n)),
)

Apart-nil : (ps : Dict Text KnownPeer) → Apart [] ps
unfolding Apart elem
Apart-nil [] = tt
Apart-nil (e ∷ ps) = (refl, Apart-nil ps)

or_swap : (b c d : Bool) → (b || (c || d)) ≡ (c || (b || d))
or_swap true true d = refl
or_swap true false d = refl
or_swap false c d = refl

elem-Perm :
    (a : Text) {ps qs : Dict Text KnownPeer}
    → Permᴰ ps qs
    → elem a (aliases ps) ≡ elem a (aliases qs)
unfolding elem aliases
elem-Perm a Permᴰ.nil = refl
elem-Perm a (Permᴰ.cons e d) = ap₂ (λ x b. x.1.alias == a || b) e (elem-Perm a d)
elem-Perm a (Permᴰ.swap {a' = a'} {b' = b'} {l = l} e f) =
    ap₂ (λ x y. x.1.alias == a || (y.1.alias == a || elem a (aliases l))) e f
    ∙ or_swap (b'.1.alias == a) (a'.1.alias == a) (elem a (aliases l))
elem-Perm a (Permᴰ.trans d e) = elem-Perm a d ∙ elem-Perm a e

NoRepeats-Perm :
    {ps qs : Dict Text KnownPeer} → Permᴰ ps qs → NoRepeats (aliases ps) → NoRepeats (aliases qs)
unfolding elem aliases
NoRepeats-Perm Permᴰ.nil h = h
NoRepeats-Perm (Permᴰ.cons {l₂ = qs} e d) h = (
  ap (λ x. elem x.1.alias (aliases qs)) (sym e) ∙ sym (elem-Perm _ d) ∙ h.0,
  NoRepeats-Perm d h.1,
)
NoRepeats-Perm (Permᴰ.swap {a = a} {b = b} {b' = b'} {l = l} e f) h =
    subst (λ y. NoRepeats (y.1.alias ∷ b'.1.alias ∷ aliases l)) f
      (subst (λ x. NoRepeats (b.1.alias ∷ x.1.alias ∷ aliases l)) e
        (exchanged a.1.alias b.1.alias (aliases l) h))
  where
    exchanged : (x y : Text) (l : List Text) → NoRepeats (x ∷ y ∷ l) → NoRepeats (y ∷ x ∷ l)
    exchanged x y l h =
        (ground (arith, h, text_eq_iff x y, text_eq_iff y x), (ground (arith, h), h.1.1))
NoRepeats-Perm (Permᴰ.trans d e) h = NoRepeats-Perm e (NoRepeats-Perm d h)

module _ (sys : System) (vpn : Network) where
  -- What the loop asks of one peer, whatever the others are.
  record IsFilled (p : KnownPeer) : Type 0 where
    named : is_empty p.alias ≡ false
    placed : is_empty p.ip_addr ≡ false
    domain : or_default (sys.trim_domain_name (peer_display_name p)) p.domain_name ≡ p.domain_name

  AllFilled : Dict Text KnownPeer → Type 0
  AllFilled [] = Unit {0}
  AllFilled (e ∷ ps) = IsFilled e.1 × AllFilled ps

  AllStable-AllFilled :
      (before ps : Dict Text KnownPeer) → AllStable sys vpn before ps → AllFilled ps
  unfolding AllFilled
  AllStable-AllFilled before [] h = tt
  AllStable-AllFilled before ((k, p) ∷ ps) h = (
    record { named = h.0.named; placed = h.0.placed; domain = h.0.domain },
    AllStable-AllFilled (before ++ (k, p) ∷ []) ps h.1,
  )

  AllFilled-Perm : {ps qs : Dict Text KnownPeer} → Permᴰ ps qs → AllFilled ps → AllFilled qs
  unfolding AllFilled
  AllFilled-Perm Permᴰ.nil h = h
  AllFilled-Perm (Permᴰ.cons e d) h = (subst (λ x. IsFilled x.1) e h.0, AllFilled-Perm d h.1)
  AllFilled-Perm (Permᴰ.swap e f) h =
      (subst (λ x. IsFilled x.1) f h.1.0, (subst (λ x. IsFilled x.1) e h.0, h.1.1))
  AllFilled-Perm (Permᴰ.trans d e) h = AllFilled-Perm e (AllFilled-Perm d h)

  stable :
      (before ps : Dict Text KnownPeer)
      → AllFilled ps
      → NoRepeats (aliases ps)
      → Apart (aliases before) ps
      → AllStable sys vpn before ps
  unfolding AllFilled Apart aliases
  stable before [] f n h = tt
  stable before ((k, p) ∷ ps) f n h = (
    record { free = h.0; named = f.0.named; placed = f.0.placed; domain = f.0.domain },
    stable (before ++ (k, p) ∷ []) ps f.1 n.1 (
        subst (λ l. Apart l ps) (sym (aliases-append before ((k, p) ∷ [])))
          (Apart-snoc (aliases before) p.alias ps h.1 n.0)),
  )

  -- The loop over what it has left, in any order, changes nothing.
  pub fill_peers-Perm :
      (ps qs : Dict Text KnownPeer)
      → Permᴰ (fill_peers sys vpn [] ps) qs
      → fill_peers sys vpn [] qs ≡ qs
  unfolding aliases
  fill_peers-Perm ps qs d =
      let out = filled sys vpn ps [] in
      fill_peers_same sys vpn qs [] (
        stable [] qs
          (AllFilled-Perm d (subst AllFilled (sym out.1) (AllStable-AllFilled [] out.0 out.2)))
          (NoRepeats-Perm d (fill_peers-NoRepeats sys vpn ps).0) (Apart-nil qs))
