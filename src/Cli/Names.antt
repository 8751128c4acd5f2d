-- ===== src/Cli/Names.antt =====
-- cli/peers.go with api/peers.go: the peer that a name on the command line stands for.
use gravil.Base.{
  ◌≡◌, ◌≢◌, refl, sym, ap, ap₂, ◌∙◌, Bool, true, false, not, ◌||◌, Option, none, some, List, [],
  ◌∷◌, ◌++◌, arith, Text, Dict, get, elem, filter, ◌==◌, text_key, text_eq_iff, ==_refl,
  if◌then◌else◌, Bool-cases, Option-cases, inl, inr, is_some,
}
use gravil.Config.{Config, Store, KnownPeer}
use gravil.Config.Peers.{get_peer, is_empty}
use gravil.Auth.Distinct.{HasDistinctAliases}
use gravil.Api.Listing.{
  Net, KnownPeersResponse, found_or_zero, response, responses, ids, get_known_peers,
}
use gravil.Auth.{Auth}
use gravil.Cli.{find_alias, get_peer_id_by_alias}

module _ {Stats Units : Type 0} where
  abbrev is_on : KnownPeersResponse Stats Units → Bool
  is_on r = r.connected

  abbrev is_off : KnownPeersResponse Stats Units → Bool
  is_off r = not r.connected

  -- No connected peer behind one that is not.
  abbrev pub OnFirst : List (KnownPeersResponse Stats Units) → Type 0
  OnFirst [] = Unit
  OnFirst (r ∷ rs) = (r.connected ≡ false → filter is_on rs ≡ []) × OnFirst rs

  -- What is documented of `sort.SliceStable`: the result is ordered, and entries that are equal in the
  -- order stay in theirs.
  pub record IsStableSort
      (f : List (KnownPeersResponse Stats Units) → List (KnownPeersResponse Stats Units))
      : Type 0 where
    pub ordered : (rs : List (KnownPeersResponse Stats Units)) → OnFirst (f rs)
    pub on : (rs : List (KnownPeersResponse Stats Units)) → filter is_on (f rs) ≡ filter is_on rs
    pub off : (rs : List (KnownPeersResponse Stats Units)) → filter is_off (f rs) ≡ filter is_off rs

  OnFirst-split :
      (rs : List (KnownPeersResponse Stats Units))
      → OnFirst rs
      → rs ≡ filter is_on rs ++ filter is_off rs
  OnFirst-split [] h = refl
  OnFirst-split (r ∷ rs) h =
      let parts : Bool → List (KnownPeersResponse Stats Units) = λ b.
        (if b then r ∷ filter is_on rs else filter is_on rs)
        ++ (if not b then r ∷ filter is_off rs else filter is_off rs) in
      elim (Bool-cases r.connected) [
        | inl on ↦ ap (◌∷◌ r) (OnFirst-split rs h.1) ∙ sym (ap parts on)
        | inr off ↦
            ap (◌∷◌ r) (OnFirst-split rs h.1 ∙ ap (λ l. l ++ filter is_off rs) (h.0 off))
            ∙ sym (ap (λ l. l ++ r ∷ filter is_off rs) (h.0 off))
            ∙ sym (ap parts off)
      ]

  -- The result of the sort: the connected entries, then the others, each in their order.
  pub IsStableSort-split :
      (f : List (KnownPeersResponse Stats Units) → List (KnownPeersResponse Stats Units))
      → IsStableSort f
      → (rs : List (KnownPeersResponse Stats Units)) → f rs ≡ filter is_on rs ++ filter is_off rs
  IsStableSort-split f stable rs =
      OnFirst-split (f rs) (stable.ordered rs) ∙ ap₂ ◌++◌ (stable.on rs) (stable.off rs)

  has_id : Text → List (KnownPeersResponse Stats Units) → Bool
  has_id id [] = false
  has_id id (r ∷ rs) = r.peer_id == id || has_id id rs

  has_id-append :
      (id : Text) (rs ss : List (KnownPeersResponse Stats Units))
      → has_id id (rs ++ ss) ≡ (has_id id rs || has_id id ss)
  unfolding has_id
  has_id-append id [] ss = refl
  has_id-append id (r ∷ rs) ss = ground (arith, has_id-append id rs ss)

  has_id-split :
      (id : Text) (rs : List (KnownPeersResponse Stats Units))
      → has_id id rs ≡ true
      → (has_id id (filter is_on rs) || has_id id (filter is_off rs)) ≡ true
  unfolding has_id
  has_id-split id [] h = cc
  has_id-split id (r ∷ rs) h = elim (Bool-cases r.connected) [
    | inl on ↦ ground (arith, on, has_id-split id rs)
    | inr off ↦ ground (arith, off, has_id-split id rs)
  ]

  module _ (c : Config) where
    -- Each entry shows the alias that the configuration holds under its ID.
    abbrev Listed : KnownPeersResponse Stats Units → Type 0
    Listed r = (q : KnownPeer) × (get_peer c r.peer_id ≡ some q) × (r.alias ≡ q.alias)

    abbrev AreListed : List (KnownPeersResponse Stats Units) → Type 0
    AreListed [] = Unit
    AreListed (r ∷ rs) = Listed r × AreListed rs

    AreListed-filter :
        (t : KnownPeersResponse Stats Units → Bool) (rs : List (KnownPeersResponse Stats Units))
        → AreListed rs
        → AreListed (filter t rs)
    AreListed-filter t [] h = tt
    AreListed-filter t (r ∷ rs) h = either (t r) (AreListed-filter t rs h.1)
      where
        either :
            (b : Bool)
            → AreListed (filter t rs)
            → AreListed (if b then r ∷ filter t rs else filter t rs)
        either true rest = (h.0, rest)
        either false rest = rest

    AreListed-append :
        (rs ss : List (KnownPeersResponse Stats Units))
        → AreListed rs
        → AreListed ss
        → AreListed (rs ++ ss)
    AreListed-append [] ss h k = k
    AreListed-append (r ∷ rs) ss h k = (h.0, AreListed-append rs ss h.1 k)

    module _ (id : Text) (p : KnownPeer) (known : get_peer c id ≡ some p)
        (only : (k : Text) (q : KnownPeer)
          → get_peer c k ≡ some q
          → q.alias ≡ p.alias
          → k ≡ id) where
      find_alias-listed :
          (rs : List (KnownPeersResponse Stats Units))
          → AreListed rs
          → has_id id rs ≡ true
          → find_alias p.alias rs ≡ some id
      unfolding find_alias has_id
      find_alias-listed [] h has = cc
      find_alias-listed (r ∷ rs) h has =
          let rest = find_alias p.alias rs in
          let result : Bool → Option Text = λ b. if b then some r.peer_id else rest in
          let q = h.0.0 in
          elim (Bool-cases (r.alias == p.alias)) [
            | inl same ↦
                ap result same
                ∙ ap some
                    (only r.peer_id q h.0.1 (sym h.0.2 ∙ (text_eq_iff r.alias p.alias).0 same))
            | inr other ↦
                let elsewhere : (r.peer_id == id) ≡ false = elim (Bool-cases (r.peer_id == id)) [
                  | inr e ↦ e
                  | inl here ↦
                      let same_peer : q ≡ p =
                        some_eq (
                          sym h.0.1
                          ∙ ap (get_peer c) ((text_eq_iff r.peer_id id).0 here)
                          ∙ known) in
                      absurd (
                        clash (
                          sym other
                          ∙ ap (λ t. t == p.alias) (h.0.2 ∙ ap KnownPeer.alias same_peer)
                          ∙ ==_refl p.alias))
                ] in
                ap result other
                ∙ find_alias-listed rs h.1 (sym (ap (λ b. b || has_id id rs) elsewhere) ∙ has)
          ]
        where
          some_eq : {x y : KnownPeer} → some x ≡ some y → x ≡ y
          some_eq e = cc

          clash : false ≡ true → ⊥
          clash e = cc

-- The IDs that the configuration holds are those that `sort.Strings` returns.
abbrev pub SortsIds : (List Text → List Text) → Type 0
SortsIds f = (id : Text) (xs : List Text) → elem id (f xs) ≡ elem id xs

elem-ids : (id : Text) (m : Dict Text KnownPeer) → elem id (ids m) ≡ is_some (get id m)
unfolding elem ids get
elem-ids id [] = refl
elem-ids id ((k, p) ∷ m) = ground (arith, elem-ids id m)

module _ {Stats Units : Type 0} (net : Net Stats Units) (c : Config) where
  has_id-responses : (id : Text) (xs : List Text) → has_id id (responses net c xs) ≡ elem id xs
  unfolding has_id responses elem response
  has_id-responses id [] = refl
  has_id-responses id (x ∷ xs) = ap (λ b. x == id || b) (has_id-responses id xs)

  response-Listed : (x : Text) → is_some (get_peer c x) ≡ true → Listed c (response net c x)
  unfolding response
  response-Listed x h = elim (Option-cases (get_peer c x)) [
    | inl missing ↦ absurd (no_value (sym (ap is_some missing) ∙ h))
    | inr found ↦ (found.0, found.1, ap (λ o. KnownPeer.alias (found_or_zero o)) found.1)
  ]
    where
      no_value : false ≡ true → ⊥
      no_value e = cc

  responses-AreListed :
      (xs : List Text)
      → ((x : Text) → elem x xs ≡ true → is_some (get_peer c x) ≡ true)
      → AreListed c (responses net c xs)
  unfolding responses elem
  responses-AreListed [] h = tt
  responses-AreListed (x ∷ xs) h = (
    response-Listed x (h x (ap (λ b. b || elem x xs) (==_refl x))),
    responses-AreListed xs (λ y m. h y (or_right (x == y) m)),
  )
    where
      or_right : (b : Bool) {d : Bool} → d ≡ true → (b || d) ≡ true
      or_right true e = refl
      or_right false e = e

only_one :
    (s : Store) (id : Text) (p : KnownPeer)
    → HasDistinctAliases s
    → get_peer s.conf [] ≡ none
    → get_peer s.conf id ≡ some p
    → (k : Text) (q : KnownPeer) → get_peer s.conf k ≡ some q
    → q.alias ≡ p.alias
    → k ≡ id
only_one s id p apart nameless known k q found same = elim (Bool-cases (k == id)) [
  | inl e ↦ (text_eq_iff k id).0 e
  | inr other ↦ absurd (
      apart k q found id p (named k q found) (named id p known)
        (λ e. clash (sym other ∙ ap (λ t. t == id) e ∙ ==_refl id)) known same)
]
  where
    clash : false ≡ true → ⊥
    clash e = cc

    no_value : {r : KnownPeer} → none ≡ some r → ⊥
    no_value e = cc

    named : (j : Text) (r : KnownPeer) → get_peer s.conf j ≡ some r → j ≢ []
    named j r e empty = no_value (sym nameless ∙ ap (get_peer s.conf) (sym empty) ∙ e)

-- While aliases are distinct, a name stands for the peer that has it as alias.
pub get_peer_id_by_alias-known :
    {Stats Units : Type 0} (net : Net Stats Units) (sort_ids : List Text → List Text)
    (sort_stable : List (KnownPeersResponse Stats Units) → List (KnownPeersResponse Stats Units))
    (s : Store) (id : Text) (p : KnownPeer)
    → SortsIds sort_ids
    → IsStableSort sort_stable
    → HasDistinctAliases s
    → get_peer s.conf [] ≡ none
    → get_peer s.conf id ≡ some p
    → is_empty p.alias ≡ false
    → get_peer_id_by_alias p.alias (get_known_peers net sort_ids sort_stable s.conf s.conf)
      ≡ some id
unfolding get_peer_id_by_alias get_known_peers get_peer
get_peer_id_by_alias-known net sort_ids sort_stable s id p sorts stable apart nameless known named =
    let xs = sort_ids (ids s.conf.known_peers) in
    let rs = responses net s.conf xs in
    let is_key : (x : Text) → elem x xs ≡ is_some (get_peer s.conf x) =
      λ x. sorts x (ids s.conf.known_peers) ∙ elem-ids x s.conf.known_peers in
    let listed = responses-AreListed net s.conf xs (λ x m. sym (is_key x) ∙ m) in
    let parts =
      filter (λ r. KnownPeersResponse.connected r) rs
      ++ filter (λ r. not (KnownPeersResponse.connected r)) rs in
    let there : has_id id rs ≡ true =
      has_id-responses net s.conf id xs ∙ is_key id ∙ ap is_some known in
    ap (λ b. if b then none else find_alias p.alias (sort_stable rs)) named
    ∙ ap (find_alias p.alias) (IsStableSort-split sort_stable stable rs)
    ∙ find_alias-listed s.conf id p known (only_one s id p apart nameless known) parts
        (AreListed-append s.conf _ _ (AreListed-filter s.conf (λ r. r.connected) rs listed)
          (AreListed-filter s.conf (λ r. not r.connected) rs listed))
        (has_id-append id _ _ ∙ has_id-split id rs there)
