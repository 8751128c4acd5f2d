-- ===== src/Auth/Steady.antt =====
-- service/auth_status.go: what every transition keeps. The peer in use as exit node is known and
-- allows it, each entry of the configuration stands under its own ID, and aliases are distinct.
use gravil.Base.{
  ℕ, ◌≡◌, inl, inr, refl, sym, ap, ◌∙◌, Bool, true, Option, none, some, [], arith, Text, get, ◌==◌,
  text_key, text_eq_iff, if◌then◌else◌, is_some, get-put, Bool-cases, Option-cases,
}
use gravil.Config.{Config, Store, KnownPeer}
use gravil.Config.Peers.{
  is_empty, get_peer, get_blocked_peer, upsert_peer, save, emit, set_known, set_blocked,
  remove_blocked_peer, upsert_blocked_peer, touch, update_peer_last_seen,
}
use gravil.Config.Peers.Laws.{
  remove_block, upsert, upsert_seen, get_peer-call, IsKeyed, call-IsKeyed,
}
use gravil.Config.Alias.{is_uniq_peer_alias}
use gravil.Config.Address.{Check, unique, invalid_ip, outside_subnet, already_used, panics}
use gravil.Protocol.{PeerStatusInfo}
use gravil.Auth.{
  Env, Auth, peer_or_zero, accepted, process_peer_status_info, new_peer, insert_peer, add_checked,
  chosen_ip, ip_check, add_peer,
}
use gravil.Auth.Exit.{allows, IsExit, process_peer_status_info-IsExit}
use gravil.Auth.Stored.{updated, get_peer-process_peer_status_info}
use gravil.Auth.Distinct.{
  IsFreshAlias, HasDistinctAliases, upsert-HasDistinctAliases, same_aliases-HasDistinctAliases,
  seen-alias, is_uniq-IsFreshAlias, gen_alias-IsFreshAlias,
}

pub record IsSteady (s : Store) : Type 0 where
  pub exit : IsExit s
  pub keyed : IsKeyed s
  pub apart : HasDistinctAliases s

-- A peer that is written back with a fresh alias, and still allows what the entry under its ID allowed.
pub upsert-IsSteady :
    (p : KnownPeer) (s : Store)
    → (allows (get_peer s.conf p.peer_id) ≡ true → p.allowed_using_as_exit_node ≡ true)
    → IsFreshAlias p.peer_id p.alias s
    → IsSteady s
    → IsSteady (upsert_peer p s)
unfolding upsert_peer save emit set_known
upsert-IsSteady p s keeps fresh h = record {
  exit = ground (
    arith,
    h.exit,
    keeps,
    get_peer-call 0 (upsert p) s s.conf.socks5.using_peer_id,
    text_eq_iff p.peer_id s.conf.socks5.using_peer_id,
    ap (λ k. allows (get_peer s.conf k)) {x = p.peer_id} {y = s.conf.socks5.using_peer_id},
  );
  keyed = call-IsKeyed 0 (upsert p) s h.keyed;
  apart = upsert-HasDistinctAliases p s fresh h.apart;
}

pub remove_blocked_peer-IsSteady :
    (id : Text) (s : Store) → IsSteady s → IsSteady (remove_blocked_peer id s)
unfolding remove_blocked_peer save set_blocked get_peer
remove_blocked_peer-IsSteady id s h = elim (Bool-cases (is_some (get_blocked_peer s.conf id))) [
  | inl there ↦ rw there (record { exit = h.exit; keyed = h.keyed; apart = h.apart })
  | inr gone ↦ rw gone h
]

pub upsert_blocked_peer-IsSteady :
    (now : ℕ) (id name : Text) (s : Store)
    → IsSteady s
    → IsSteady (upsert_blocked_peer now id name s)
unfolding upsert_blocked_peer save set_blocked get_peer
upsert_blocked_peer-IsSteady now id name s h = record {
  exit = h.exit;
  keyed = h.keyed;
  apart = h.apart;
}

touch-IsExit :
    (now : ℕ) (id : Text) (s : Store) (o : Option KnownPeer)
    → get_peer s.conf id ≡ o
    → IsExit s
    → IsExit (touch now id s o)
unfolding touch set_known get_peer
touch-IsExit now id s none e h = h
touch-IsExit now id s (some p) e h = ground (
  arith,
  h,
  e,
  get-put id s.conf.socks5.using_peer_id (record p { last_seen = now }) s.conf.known_peers,
  text_eq_iff id s.conf.socks5.using_peer_id,
  ap (λ k. allows (get k s.conf.known_peers)) {x = id} {y = s.conf.socks5.using_peer_id},
)

pub update_peer_last_seen-IsSteady :
    (now : ℕ) (id : Text) (s : Store) → IsSteady s → IsSteady (update_peer_last_seen now id s)
unfolding update_peer_last_seen
update_peer_last_seen-IsSteady now id s h = record {
  exit = touch-IsExit now id s (get_peer s.conf id) refl h.exit;
  keyed = call-IsKeyed now (upsert_seen id) s h.keyed;
  apart =
      same_aliases-HasDistinctAliases s (update_peer_last_seen now id s) (seen-alias now id s)
        h.apart;
}

-- A known peer, or the zero value for one that is not known, has a fresh alias.
pub peer_or_zero-IsFreshAlias :
    (id : Text) (s : Store) (o : Option KnownPeer)
    → get_peer s.conf id ≡ o
    → IsSteady s
    → IsFreshAlias (peer_or_zero o).peer_id (peer_or_zero o).alias s
peer_or_zero-IsFreshAlias id s none e h = λ k q empty. absurd (empty refl)
peer_or_zero-IsFreshAlias id s (some p) e h =
    h.apart p.peer_id p (ap (get_peer s.conf) (h.keyed id p e) ∙ e)

updated-peer_id :
    (env : Env) (c : Config) (p : KnownPeer) (info : PeerStatusInfo)
    → (updated env c p info).peer_id ≡ p.peer_id
unfolding accepted
updated-peer_id env c p info = ground arith

updated-IsFreshAlias :
    (env : Env) (p : KnownPeer) (info : PeerStatusInfo) (s : Store)
    → IsFreshAlias p.peer_id p.alias s
    → IsKeyed s
    → IsFreshAlias (updated env s.conf p info).peer_id (updated env s.conf p info).alias s
unfolding accepted
updated-IsFreshAlias env p info s fresh keyed = elim (Bool-cases info.declined) [
  | inl declined ↦ simp declined fresh
  | inr reports ↦ elim (Bool-cases (is_empty p.alias)) [
    | inl missing ↦
        simp (reports, missing) (gen_alias-IsFreshAlias p.peer_id info.name p.alias s keyed)
    | inr named ↦ simp (reports, named) fresh
  ]
]

pub process_peer_status_info-IsSteady :
    (env : Env) (p : KnownPeer) (info : PeerStatusInfo) (s : Store)
    → IsFreshAlias p.peer_id p.alias s
    → IsSteady s
    → IsSteady (process_peer_status_info env p info s)
process_peer_status_info-IsSteady env p info s fresh h = record {
  exit = process_peer_status_info-IsExit env p info s h.exit;
  keyed = λ k q e. call-IsKeyed 0 (upsert new) s h.keyed k q (back k q e);
  apart =
      same_aliases-HasDistinctAliases (upsert_peer new s) (process_peer_status_info env p info s)
        (λ k q e. (q, back k q e, refl))
        (upsert-HasDistinctAliases new s (updated-IsFreshAlias env p info s fresh h.keyed) h.apart);
}
  where
    new : KnownPeer
    new = updated env s.conf p info

    back :
        (k : Text) (q : KnownPeer)
        → get_peer (process_peer_status_info env p info s).conf k ≡ some q
        → get_peer (upsert_peer new s).conf k ≡ some q
    back k q e =
        get_peer-call 0 (upsert new) s k
        ∙ ap (λ i. if i == k then some new else get_peer s.conf k)
            (updated-peer_id env s.conf p info)
        ∙ sym (get_peer-process_peer_status_info env p info s k)
        ∙ e

insert_peer-IsSteady :
    (p : KnownPeer) (a : Auth)
    → get_peer a.store.conf p.peer_id ≡ none
    → IsFreshAlias p.peer_id p.alias a.store
    → IsSteady a.store
    → IsSteady (insert_peer p a).store
unfolding insert_peer
insert_peer-IsSteady p a new fresh h =
    upsert-IsSteady p (remove_blocked_peer p.peer_id a.store)
      (λ e. cc (ap allows (get_peer-call 0 (remove_block p.peer_id) a.store p.peer_id ∙ new), e))
      (λ k q id0 k0 idk e.
        fresh k q id0 k0 idk (sym (get_peer-call 0 (remove_block p.peer_id) a.store k) ∙ e))
      (remove_blocked_peer-IsSteady p.peer_id a.store h)

add_checked-IsSteady :
    (env : Env) (id name alias : Text) (confirmed : Bool) (ip : Text) (k : Check) (a : Auth)
    → get_peer a.store.conf id ≡ none
    → IsFreshAlias id alias a.store
    → IsSteady a.store
    → IsSteady (add_checked env id name alias confirmed ip k a).0.store
unfolding add_checked
add_checked-IsSteady env id name alias confirmed ip unique a new fresh h =
    insert_peer-IsSteady (new_peer env id name alias confirmed ip) a new fresh h
add_checked-IsSteady env id name alias confirmed ip invalid_ip a new fresh h = h
add_checked-IsSteady env id name alias confirmed ip outside_subnet a new fresh h = h
add_checked-IsSteady env id name alias confirmed ip already_used a new fresh h = h
add_checked-IsSteady env id name alias confirmed ip panics a new fresh h = h

pub add_peer-IsSteady :
    (env : Env) (id name alias : Text) (confirmed : Bool) (ip : Text) (a : Auth)
    → IsSteady a.store
    → IsSteady (add_peer env id name alias confirmed ip a).0.store
unfolding add_peer
add_peer-IsSteady env id name alias confirmed ip a h =
    elim (Option-cases (get_peer a.store.conf id)) [
      | inr known ↦ rw known.1 h
      | inl new ↦ elim (Bool-cases (is_uniq_peer_alias a.store.conf [] (env.trim_space alias))) [
        | inr taken ↦ rw (new, taken) h
        | inl free ↦
            rw (new, free)
              (add_checked-IsSteady env id name (env.trim_space alias) confirmed
                (chosen_ip env a.store.conf ip) (ip_check env a.store.conf id ip) a new
                (is_uniq-IsFreshAlias [] (env.trim_space alias) id a.store (inr refl) h.keyed free)
                h)
      ]
    ]
