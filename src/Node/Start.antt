-- ===== src/Node/Start.antt =====
-- application.go, p2p/p2p.go: the identity from one start of the application to the next.
use gravil.Base.{
  ℕ, ◌≡◌, ◌<◌, refl, sym, ap, ◌∙◌, subst, Bool, true, false, not, ◌&&◌, Option, none, some, List,
  arith, eqb, length,
}
use gravil.Config.{Store}
use gravil.Config.Peers.{is_empty}
use gravil.Node.{
  Packages, running, get_bootstrap_peers, all_multiaddrs, priv_key, set_identity, host_key,
  init_host, make_host, identified, start_with, start,
}

-- What the packages promise: base58 decodes what it has encoded, which is no empty text where there
-- are bytes, and a key has bytes from which it is made again.
pub record IsLawful {K A I : Type 0} (lib : Packages K A I) : Type 0 where
  pub decoded : (bs : List ℕ) → lib.decode (lib.encode bs) ≡ some bs
  pub written : (bs : List ℕ) → 0 < length bs → is_empty (lib.encode bs) ≡ false
  pub has_bytes : (key : K) → 0 < length (lib.raw key)
  pub restored : (key : K) → lib.unmarshal (lib.raw key) ≡ some key

module _ {K A I : Type 0} (lib : Packages K A I) where
  -- A start that comes to the host, with its key.
  abbrev pub IsStart : Bool → (K → Bool) → Option K → Store → Store → List I → K → Type 0
  IsStart allow_empty works generated s s' peers key =
      (get_bootstrap_peers lib s.conf ≡ some peers)
      × (init_host lib allow_empty works generated (priv_key lib s.conf) peers ≡ some key)
      × (set_identity lib key s ≡ s')

  started_by :
      (allow_empty : Bool) (works : K → Bool) (generated : Option K) (s s' : Store)
      → start lib allow_empty works generated s ≡ running s'
      → (peers : List I) × (key : K) × IsStart allow_empty works generated s s' peers key
  unfolding start start_with identified
  started_by allow_empty works generated s s' e = with_peers (get_bootstrap_peers lib s.conf) refl e
    where
      with_key :
          (peers : List I) (o : Option K)
          → get_bootstrap_peers lib s.conf ≡ some peers
          → init_host lib allow_empty works generated (priv_key lib s.conf) peers ≡ o
          → identified lib s o ≡ running s'
          → (peers : List I) × (key : K) × IsStart allow_empty works generated s s' peers key
      with_key peers none p k h = absurd (ground (arith, h))
      with_key peers (some key) p k h = (peers, key, (p, k, ground (arith, h)))

      with_peers :
          (o : Option (List I))
          → get_bootstrap_peers lib s.conf ≡ o
          → start_with lib allow_empty works generated s o ≡ running s'
          → (peers : List I) × (key : K) × IsStart allow_empty works generated s s' peers key
      with_peers none p h = absurd (ground (arith, h))
      with_peers (some peers) p h =
          with_key peers (init_host lib allow_empty works generated (priv_key lib s.conf) peers) p
            refl h

  -- The identity that was stored is the one that is read.
  priv_key-set_identity :
      (key : K) (s : Store)
      → IsLawful lib
      → priv_key lib (set_identity lib key s).conf ≡ some (lib.raw key)
  unfolding priv_key set_identity
  priv_key-set_identity key s law =
      rw (law.written (lib.raw key) (law.has_bytes key)) (law.decoded (lib.raw key))

  made :
      (allow_empty : Bool) (works : K → Bool) (peers : List I) (o : Option K) (key : K)
      → make_host lib allow_empty works peers o ≡ some key
      → (o ≡ some key) × (not allow_empty && eqb (length peers) 0 ≡ false)
  unfolding make_host
  made allow_empty works peers none key e = absurd (ground (arith, e))
  made allow_empty works peers (some k) key e = ground (arith, e)

  made_again :
      (allow_empty : Bool) (works : K → Bool) (peers : List I) (key : K)
      → not allow_empty && eqb (length peers) 0 ≡ false
      → works key ≡ true
      → make_host lib allow_empty works peers (some key) ≡ some key
  unfolding make_host
  made_again allow_empty works peers key enough w = simp (enough, w) refl

  same_peers :
      (key : K) (s : Store)
      → get_bootstrap_peers lib (set_identity lib key s).conf ≡ get_bootstrap_peers lib s.conf
  unfolding get_bootstrap_peers all_multiaddrs set_identity
  same_peers key s = refl

  set_identity_again :
      (key : K) (s : Store) → set_identity lib key (set_identity lib key s) ≡ set_identity lib key s
  unfolding set_identity
  set_identity_again key s = refl

  init_host_stored :
      (allow_empty : Bool) (works : K → Bool) (generated : Option K) (s : Store) (peers : List I)
      (key : K)
      → IsLawful lib
      → not allow_empty && eqb (length peers) 0 ≡ false
      → works key ≡ true
      → init_host lib allow_empty works generated (priv_key lib (set_identity lib key s).conf) peers
        ≡ some key
  unfolding init_host host_key
  init_host_stored allow_empty works generated s peers key law enough w =
      ap (λ o. make_host lib allow_empty works peers (host_key lib generated o))
        (priv_key-set_identity key s law)
      ∙ ap (make_host lib allow_empty works peers) (law.restored key)
      ∙ made_again allow_empty works peers key enough w

  start_stored :
      (allow_empty : Bool) (works : K → Bool) (generated : Option K) (s : Store) (peers : List I)
      (key : K)
      → IsLawful lib
      → get_bootstrap_peers lib s.conf ≡ some peers
      → not allow_empty && eqb (length peers) 0 ≡ false
      → works key ≡ true
      → start lib allow_empty works generated (set_identity lib key s)
        ≡ running (set_identity lib key s)
  unfolding start start_with identified
  start_stored allow_empty works generated s peers key law p enough w =
      ap (start_with lib allow_empty works generated (set_identity lib key s))
        (same_peers key s ∙ p)
      ∙ ap (identified lib (set_identity lib key s))
          (init_host_stored allow_empty works generated s peers key law enough w)
      ∙ ap running (set_identity_again key s)

  -- With packages that read what they have written: a start that comes to the host stores the identity
  -- of its key, in the file too: the key of the configuration, or the generated one where that has none. Every later start from there that can
  -- make its host has the same identity and changes nothing, whatever key was generated for it.
  pub start-again :
      (allow_empty : Bool) (works works' : K → Bool) (generated generated' : Option K)
      (s s' : Store)
      → IsLawful lib
      → ((key : K) → works' key ≡ true)
      → start lib allow_empty works generated s ≡ running s'
      → (key : K) × (host_key lib generated (priv_key lib s.conf) ≡ some key)
        × (s' ≡ set_identity lib key s)
        × (s'.file ≡ some s'.conf)
        × (start lib allow_empty works' generated' s' ≡ running s')
  start-again allow_empty works works' generated generated' s s' law works_now e =
      let r = started_by allow_empty works generated s s' e in
      let (p, k, same) = r.2 in
      let m =
        made allow_empty works r.0 (host_key lib generated (priv_key lib s.conf)) r.1
          (unfold init_host in k) in
      (
        r.1,
        m.0,
        sym same,
        subst (λ z. z.file ≡ some z.conf) same (unfold set_identity in refl),
        subst (λ z. start lib allow_empty works' generated' z ≡ running z) same
            (start_stored allow_empty works' generated' s r.0 r.1 law p m.1 (works_now r.1)),
      )
