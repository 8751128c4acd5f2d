-- ===== src/Auth/Distinct.antt =====
-- config/config.go: the aliases of known peers stay distinct.
use gravil.Base.{
  ℕ, ◌≡◌, ◌≢◌, ◌⊎◌, inl, inr, refl, sym, ap, ◌∙◌, subst, true, Option, none, some, [], ◌∷◌, arith,
  Text, Dict, get, ◌==◌, text_key, text_eq_iff, Bool-cases,
}
use gravil.Config.{Store, KnownPeer}
use gravil.Config.Peers.{get_peer, upsert_peer, update_peer_last_seen}
use gravil.Config.Peers.Laws.{upsert, upsert_seen, get_peer-call, IsKeyed}
use gravil.Config.Alias.{is_uniq_from, is_uniq_peer_alias, is_uniq_peer_alias-gen}
use gravil.Auth.{gen_alias, or_empty}

-- No entry under another ID has the alias. The entry that a lost peer leaves under the empty ID is
-- set aside.
abbrev pub IsFreshAlias : Text → Text → Store → Type 0
IsFreshAlias id alias s =
    (k : Text) (q : KnownPeer)
    → id ≢ []
    → k ≢ []
    → id ≢ k
    → get_peer s.conf k ≡ some q
    → alias ≢ q.alias

abbrev pub HasDistinctAliases : Store → Type 0
HasDistinctAliases s =
    (j : Text) (p : KnownPeer) → get_peer s.conf j ≡ some p → IsFreshAlias j p.alias s

pub upsert-HasDistinctAliases :
    (p : KnownPeer) (s : Store)
    → IsFreshAlias p.peer_id p.alias s
    → HasDistinctAliases s
    → HasDistinctAliases (upsert_peer p s)
upsert-HasDistinctAliases p s fresh h j r e k q j0 k0 jk f = elim (Bool-cases (p.peer_id == j)) [
  | inl pj ↦
      let pj' : p.peer_id ≡ j = (text_eq_iff p.peer_id j).0 pj in
      let rp : p ≡ r = ground (arith, pj, e, get_peer-call 0 (upsert p) s j) in
      let f' : get_peer s.conf k ≡ some q =
        ground (arith, pj', jk, f, text_eq_iff p.peer_id k, get_peer-call 0 (upsert p) s k) in
      λ same.
        fresh k q (λ e0. j0 (sym pj' ∙ e0)) k0 (λ e0. jk (sym pj' ∙ e0)) f'
          (ap KnownPeer.alias rp ∙ same)
  | inr pj ↦
      let e' : get_peer s.conf j ≡ some r = ground (arith, pj, e, get_peer-call 0 (upsert p) s j) in
      elim (Bool-cases (p.peer_id == k)) [
        | inl pk ↦
            let pk' : p.peer_id ≡ k = (text_eq_iff p.peer_id k).0 pk in
            let qp : p ≡ q = ground (arith, pk, f, get_peer-call 0 (upsert p) s k) in
            λ same.
              fresh j r (λ e0. k0 (sym pk' ∙ e0)) j0 (λ e0. jk (sym e0 ∙ pk')) e'
                (ap KnownPeer.alias qp ∙ sym same)
        | inr pk ↦ h j r e' k q j0 k0 jk (ground (arith, pk, f, get_peer-call 0 (upsert p) s k))
      ]
]

-- The entries of `t` have aliases that they have in `s`.
pub same_aliases-HasDistinctAliases :
    (s t : Store)
    → ((k : Text) (q : KnownPeer)
        → get_peer t.conf k ≡ some q
        → (o : KnownPeer) × (get_peer s.conf k ≡ some o) × (o.alias ≡ q.alias))
    → HasDistinctAliases s
    → HasDistinctAliases t
same_aliases-HasDistinctAliases s t old h j p e k q j0 k0 jk f same =
    let a = old j p e in let b = old k q f in h j a.0 a.1 k b.0 j0 k0 jk b.1 (a.2 ∙ same ∙ sym b.2)

pub seen-alias :
    (now : ℕ) (id : Text) (s : Store) (k : Text) (q : KnownPeer)
    → get_peer (update_peer_last_seen now id s).conf k ≡ some q
    → (o : KnownPeer) × (get_peer s.conf k ≡ some o) × (o.alias ≡ q.alias)
seen-alias now id s k q e = at (get_peer s.conf k) refl
  where
    at :
        (o : Option KnownPeer)
        → get_peer s.conf k ≡ o
        → (o : KnownPeer) × (get_peer s.conf k ≡ some o) × (o.alias ≡ q.alias)
    at none there = absurd (ground (arith, e, there, get_peer-call now (upsert_seen id) s k))
    at (some o) there = (o, there, ground (arith, e, there, get_peer-call now (upsert_seen id) s k))

uniq_from-fresh :
    (exclude alias k : Text) (ps : Dict Text KnownPeer) (q : KnownPeer)
    → is_uniq_from exclude alias ps ≡ true
    → get k ps ≡ some q
    → q.peer_id ≢ exclude
    → alias ≢ q.alias
unfolding is_uniq_from get
uniq_from-fresh exclude alias k [] q u e other = cc
uniq_from-fresh exclude alias k ((j, p) ∷ ps) q u e other = ground (
  arith,
  uniq_from-fresh exclude alias k ps q,
  text_eq_iff p.peer_id exclude,
  text_eq_iff p.alias alias,
  text_eq_iff j k,
)

-- An alias that `IsUniqPeerAlias` accepts is fresh for the peer that it sets aside, and for every peer
-- where it sets none aside.
pub is_uniq-IsFreshAlias :
    (exclude alias id : Text) (s : Store)
    → (exclude ≡ id) ⊎ (exclude ≡ [])
    → IsKeyed s
    → is_uniq_peer_alias s.conf exclude alias ≡ true
    → IsFreshAlias id alias s
unfolding is_uniq_peer_alias get_peer
is_uniq-IsFreshAlias exclude alias id s (inl e) keyed u k q id0 k0 idk there =
    uniq_from-fresh exclude alias k s.conf.known_peers q u there
      (λ same. idk (sym (sym (keyed k q there) ∙ same ∙ e)))
is_uniq-IsFreshAlias exclude alias id s (inr e) keyed u k q id0 k0 idk there =
    uniq_from-fresh exclude alias k s.conf.known_peers q u there
      (λ same. k0 (sym (keyed k q there) ∙ same ∙ e))

pub gen_alias-IsFreshAlias :
    (id name alias : Text) (s : Store) → IsKeyed s → IsFreshAlias id (gen_alias s.conf name alias) s
gen_alias-IsFreshAlias id name alias s keyed =
    let g = is_uniq_peer_alias-gen s.conf name alias id in
    subst (λ t. IsFreshAlias id t s) (ap or_empty (sym g.1))
      (is_uniq-IsFreshAlias id g.0 id s (inl refl) keyed g.2)
