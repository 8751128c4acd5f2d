-- ===== src/Api/Races.antt =====
-- api/peers.go: `UpdatePeerSettings` as it meets other requests. It reads the peer and tests the alias
-- under one lock each, and checks the address and stores the peer under a third: other requests may
-- run in between.
pub mod Examples
use gravil.Base.{
  ◌≡◌, ◌≢◌, refl, sym, ap, ap₂, ◌∙◌, Bool, true, false, not, ◌&&◌, Option, none, some, List, [],
  ◌∷◌, arith, Text, get, put, get-put, get-delete, Dict, ◌==◌, text_key, text_eq_iff, if◌then◌else◌,
  is_some, Bool-cases, inl, inr, ==_refl, ==_ne,
}
use gravil.Config.{KnownPeer, BlockedPeer}
use gravil.Config.Peers.{
  get_peer, get_blocked_peer, upsert_blocked_peer, upsert_peer, save, emit, set_known, set_blocked,
  is_empty,
}
use gravil.Config.Peers
use gravil.Config.Peers.Laws.{upsert, get_peer-call}
use gravil.Config.Alias.{is_uniq_peer_alias}
use gravil.Config.Address.{unique, check_ip_unique}
use gravil.Auth.{Env, Auth}
use gravil.Auth.Exchange.{block_peer}
use gravil.Auth.Distinct.{HasDistinctAliases}
use gravil.Api.{
  Packages, Reply, done, UpdatePeerSettingsRequest, is_valid_domain_name, is_valid_settings,
  resettled, settings_checked, settings_of, update_peer_settings, remove_peer, remove_decoded,
  block_removed,
}

-- What the handler holds once its guards have passed: the peer as it was, and the new alias.
abbrev pub read_guarded : Bool → KnownPeer → Text → Option (KnownPeer × Text)
read_guarded true p alias = some (p, alias)
read_guarded false p alias = none

abbrev pub read_peer :
    Env → UpdatePeerSettingsRequest → Option KnownPeer → Auth → Option (KnownPeer × Text)
read_peer env req none a = none
read_peer env req (some p) a =
    read_guarded (is_uniq_peer_alias a.store.conf req.peer_id (env.trim_space req.alias)) p
      (env.trim_space req.alias)

-- The first part of the handler, up to `conf.Lock`; `none` where it has answered.
unfoldable pub settings_read :
    Env → Packages → UpdatePeerSettingsRequest → Auth → Option (KnownPeer × Text)
settings_read env pkg req a =
    if is_valid_settings env req && is_valid_domain_name env pkg req.domain_name
    then read_peer env req (get_peer a.store.conf req.peer_id) a
    else none

-- The second part, under the lock.
unfoldable pub settings_write :
    Env → UpdatePeerSettingsRequest → KnownPeer × Text → Auth → Auth × Reply
unfolding settings_checked
settings_write env req (p, alias) a =
    settings_checked (resettled p req alias)
      (check_ip_unique env.ipv6 env.vpn a.store.conf.known_peers req.ip_addr p.peer_id) a

-- What the first part has found out.
abbrev pub IsRead : Env → Packages → UpdatePeerSettingsRequest → Auth → KnownPeer → Text → Type 0
IsRead env pkg req a p alias =
    (is_valid_settings env req && is_valid_domain_name env pkg req.domain_name ≡ true)
    × (get_peer a.store.conf req.peer_id ≡ some p)
    × (is_uniq_peer_alias a.store.conf req.peer_id (env.trim_space req.alias) ≡ true)
    × (alias ≡ env.trim_space req.alias)

read_guarded-eq_some :
    (b : Bool) (p q : KnownPeer) (s t : Text)
    → read_guarded b p s ≡ some (q, t)
    → (b ≡ true) × (p ≡ q) × (t ≡ s)
read_guarded-eq_some true p q s t e = (refl, cc, cc)
read_guarded-eq_some false p q s t e = cc

read_peer-IsRead :
    (env : Env) (pkg : Packages) (req : UpdatePeerSettingsRequest) (a : Auth) (p : KnownPeer)
    (alias : Text) (o : Option KnownPeer)
    → get_peer a.store.conf req.peer_id ≡ o
    → is_valid_settings env req && is_valid_domain_name env pkg req.domain_name ≡ true
    → read_peer env req o a ≡ some (p, alias)
    → IsRead env pkg req a p alias
read_peer-IsRead env pkg req a p alias none known valid e = cc
read_peer-IsRead env pkg req a p alias (some q) known valid e =
    let found =
      read_guarded-eq_some (is_uniq_peer_alias a.store.conf req.peer_id (env.trim_space req.alias))
        q p (env.trim_space req.alias) alias e in
    (valid, known ∙ ap some found.1, found.0, found.2)

settings_read-IsRead :
    (env : Env) (pkg : Packages) (req : UpdatePeerSettingsRequest) (a : Auth) (p : KnownPeer)
    (alias : Text)
    → settings_read env pkg req a ≡ some (p, alias)
    → IsRead env pkg req a p alias
unfolding settings_read
settings_read-IsRead env pkg req a p alias e =
    let valid = is_valid_settings env req && is_valid_domain_name env pkg req.domain_name in
    let read : Bool → Option (KnownPeer × Text) =
      λ b. if b then read_peer env req (get_peer a.store.conf req.peer_id) a else none in
    elim (Bool-cases valid) [
      | inl v ↦
          read_peer-IsRead env pkg req a p alias (get_peer a.store.conf req.peer_id) refl v
            (sym (ap read v) ∙ e)
      | inr w ↦ absurd (no_pair (sym (ap read w) ∙ e))
    ]
  where
    no_pair : {r : KnownPeer × Text} → none ≡ some r → ⊥
    no_pair h = cc

-- With nothing in between the two parts are the handler.
pub settings_write-settings_read :
    (env : Env) (pkg : Packages) (req : UpdatePeerSettingsRequest) (a : Auth) (p : KnownPeer)
    (alias : Text)
    → settings_read env pkg req a ≡ some (p, alias)
    → update_peer_settings env pkg (some req) a ≡ settings_write env req (p, alias) a
unfolding settings_write update_peer_settings settings_of
settings_write-settings_read env pkg req a p alias e =
    let r = settings_read-IsRead env pkg req a p alias e in simp (r.0, r.1, r.2, r.3)

-- The address passes: the peer is stored as it was read, with its new settings.
module _ (env : Env) (req : UpdatePeerSettingsRequest) (p : KnownPeer) (alias : Text) (b : Auth)
    (passes : check_ip_unique env.ipv6 env.vpn b.store.conf.known_peers req.ip_addr p.peer_id
      ≡ unique) where
  settings_write_stored :
      settings_write env req (p, alias) b
      ≡ (record b { store = upsert_peer (resettled p req alias) b.store }, done)
  unfolding settings_write
  settings_write_stored = rw passes refl

  settings_write-get :
      (j : Text)
      → get_peer (settings_write env req (p, alias) b).0.store.conf j
        ≡ (if p.peer_id == j then some (resettled p req alias) else get_peer b.store.conf j)
  settings_write-get j =
      ap (λ (r : Auth × Reply). get_peer r.0.store.conf j) settings_write_stored
      ∙ get_peer-call 0 (upsert (resettled p req alias)) b.store j

  settings_write-own :
      get_peer (settings_write env req (p, alias) b).0.store.conf p.peer_id
      ≡ some (resettled p req alias)
  settings_write-own =
      settings_write-get p.peer_id
      ∙ ap (λ t. if t then some (resettled p req alias) else get_peer b.store.conf p.peer_id)
          (==_refl p.peer_id)

-- Two requests that give two peers one alias, both read before either is written, are both carried out:
-- afterwards the aliases are not distinct, whatever they were before.
pub settings_write_same_alias :
    (env : Env) (pkg : Packages) (req req' : UpdatePeerSettingsRequest) (p p' : KnownPeer)
    (alias : Text) (a : Auth)
    → settings_read env pkg req a ≡ some (p, alias)
    → settings_read env pkg req' a ≡ some (p', alias)
    → p.peer_id ≢ p'.peer_id
    → p.peer_id ≢ []
    → p'.peer_id ≢ []
    → check_ip_unique env.ipv6 env.vpn a.store.conf.known_peers req.ip_addr p.peer_id ≡ unique
    → check_ip_unique env.ipv6 env.vpn
        (settings_write env req (p, alias) a).0.store.conf.known_peers
        req'.ip_addr
        p'.peer_id
      ≡ unique
    → ((settings_write env req (p, alias) a).1 ≡ done)
      × ((settings_write env req' (p', alias) (settings_write env req (p, alias) a).0).1 ≡ done)
      × (¬ HasDistinctAliases
          (settings_write env req' (p', alias) (settings_write env req (p, alias) a).0).0.store)
settings_write_same_alias env pkg req req' p p' alias a r r' other named named' passes passes' =
    let b = (settings_write env req (p, alias) a).0 in
    let kept : get_peer (settings_write env req' (p', alias) b).0.store.conf p.peer_id
        ≡ some (resettled p req alias) =
      settings_write-get env req' p' alias b passes' p.peer_id
      ∙ ap (λ t. if t then some (resettled p' req' alias) else get_peer b.store.conf p.peer_id)
          (==_ne p'.peer_id p.peer_id (λ e. other (sym e)))
      ∙ settings_write-own env req p alias a passes in
    (
      ap (λ (r : Auth × Reply). r.1) (settings_write_stored env req p alias a passes),
      ap (λ (r : Auth × Reply). r.1) (settings_write_stored env req' p' alias b passes'),
      λ distinct.
          distinct p.peer_id (resettled p req alias) kept p'.peer_id (resettled p' req' alias) named
            named' other (settings_write-own env req' p' alias b passes') refl,
    )

put-is_some :
    (id : Text) (b : BlockedPeer) (m : Dict Text BlockedPeer) → is_some (get id (put id b m)) ≡ true
put-is_some id b m =
    ap is_some (get-put id id b m) ∙ ap (λ t. is_some (if t then some b else get id m)) (==_refl id)

-- The API's `RemovePeer` on a known peer: it is blocked, and known no more.
remove_peer-known :
    (env : Env) (pkg : Packages) (id : Text) (p : KnownPeer) (a : Auth)
    → is_empty id ≡ false
    → pkg.decode id ≡ some id
    → get_peer a.store.conf id ≡ some p
    → (get_peer (remove_peer env pkg (some id) a).0.store.conf id ≡ none)
      × (is_some (get_blocked_peer (remove_peer env pkg (some id) a).0.store.conf id) ≡ true)
unfolding remove_peer remove_decoded block_removed block_peer Peers.remove_peer upsert_blocked_peer
    save emit set_known set_blocked get_peer get_blocked_peer
remove_peer-known env pkg id p a named decodes known = (
  simp (named, decodes, known)
      (get-delete id id a.store.conf.known_peers
        ∙ ap (λ b. if b then none else get id a.store.conf.known_peers) (==_refl id)),
  simp (named, decodes, known) (put-is_some id _ a.store.conf.blocked_peers),
)

upsert-blocked :
    (p : KnownPeer) (a : Auth) (id : Text)
    → is_some (get_blocked_peer (upsert_peer p a.store).conf id)
      ≡ is_some (get_blocked_peer a.store.conf id)
unfolding upsert_peer save emit set_known get_blocked_peer
upsert-blocked p a id = refl

valid-named :
    (env : Env) (pkg : Packages) (req : UpdatePeerSettingsRequest)
    → is_valid_settings env req && is_valid_domain_name env pkg req.domain_name ≡ true
    → is_empty req.peer_id ≡ false
unfolding is_valid_settings
valid-named env pkg req h = ground (arith, h)

-- A peer that is removed while a request to change it runs is known again once that is carried out,
-- with all that was read of it before, and is blocked at the same time.
pub settings_write_restores :
    (env : Env) (pkg : Packages) (req : UpdatePeerSettingsRequest) (p : KnownPeer) (alias : Text)
    (a : Auth)
    → settings_read env pkg req a ≡ some (p, alias)
    → p.peer_id ≡ req.peer_id
    → pkg.decode req.peer_id ≡ some req.peer_id
    → check_ip_unique env.ipv6 env.vpn
        (remove_peer env pkg (some req.peer_id) a).0.store.conf.known_peers
        req.ip_addr
        p.peer_id
      ≡ unique
    → let removed = (remove_peer env pkg (some req.peer_id) a).0 in
      let after = settings_write env req (p, alias) removed in
      (get_peer removed.store.conf req.peer_id ≡ none)
      × (after.1 ≡ done)
      × (get_peer after.0.store.conf req.peer_id ≡ some (resettled p req alias))
      × (is_some (get_blocked_peer after.0.store.conf req.peer_id) ≡ true)
settings_write_restores env pkg req p alias a r keyed decodes passes =
    let read = settings_read-IsRead env pkg req a p alias r in
    let b = (remove_peer env pkg (some req.peer_id) a).0 in
    let gone =
      remove_peer-known env pkg req.peer_id p a (valid-named env pkg req read.0) decodes read.1 in
    let stored = settings_write_stored env req p alias b passes in
    (
      gone.0,
      ap (λ (r : Auth × Reply). r.1) stored,
      ap (λ id. get_peer (settings_write env req (p, alias) b).0.store.conf id) (sym keyed)
          ∙ settings_write-own env req p alias b passes,
      ap (λ (r : Auth × Reply). is_some (get_blocked_peer r.0.store.conf req.peer_id)) stored
          ∙ upsert-blocked (resettled p req alias) b req.peer_id
          ∙ gone.1,
    )
