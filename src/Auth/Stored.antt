-- ===== src/Auth/Stored.antt =====
-- service/auth_status.go: what `processPeerStatusInfo` and `AddPeer` store.
use gravil.Base.{
  ◌≡◌, inl, inr, refl, ap, ◌∙◌, Bool, true, false, none, some, [], arith, Text, get, ◌==◌, ==_refl,
  text_key, if◌then◌else◌, Bool-cases,
}
use gravil.Config.{Config, Store, KnownPeer, zero_known_peer}
use gravil.Config.Peers.{get_peer, get_blocked_peer, upsert_peer, remove_blocked_peer}
use gravil.Config.Peers.Laws.{remove_block, upsert, get_peer-call}
use gravil.Config.Peers.Effects.{IsSaved, get_blocked_peer-call}
use gravil.Protocol.{PeerStatusInfo}
use gravil.Auth.{
  Env, Auth, set_using, accepted, choose_exit, leave_exit, process_peer_status_info, insert_peer,
}
use gravil.Auth.Exchange.{process_status, exchange_answered}

-- The entry after a status.
abbrev pub updated : Env → Config → KnownPeer → PeerStatusInfo → KnownPeer
updated env c p info =
    if info.declined
    then record p { last_seen = env.now; declined = true }
    else accepted env c p info

pub leave_exit-peers :
    (id : Text) (s : Store) → (leave_exit id s).conf.known_peers ≡ s.conf.known_peers
unfolding leave_exit set_using
leave_exit-peers id s = ground arith

pub choose_exit-peers :
    (id : Text) (b : Bool) (s : Store) → (choose_exit id b s).conf.known_peers ≡ s.conf.known_peers
unfolding choose_exit set_using
choose_exit-peers id b s = ground arith

-- A status changes the entry of its peer as it says, and no other entry.
pub get_peer-process_peer_status_info :
    (env : Env) (p : KnownPeer) (info : PeerStatusInfo) (s : Store) (j : Text)
    → get_peer (process_peer_status_info env p info s).conf j
      ≡ (if p.peer_id == j then some (updated env s.conf p info) else get_peer s.conf j)
unfolding process_peer_status_info accepted get_peer
get_peer-process_peer_status_info env p info s j = elim (Bool-cases info.declined) [
  | inl declined ↦
      let q : KnownPeer = record p { last_seen = env.now; declined = true } in
      rw declined
        (ap (get j) (leave_exit-peers p.peer_id (upsert_peer q s)) ∙ get_peer-call 0 (upsert q) s j)
  | inr reports ↦
      let q = accepted env s.conf p info in
      rw reports (
        ap (get j) (choose_exit-peers p.peer_id info.allow_using_as_exit_node (upsert_peer q s))
        ∙ get_peer-call 0 (upsert q) s j)
]

-- A status that is stored for a peer that is not known makes an entry under the empty ID.
pub exchange_answered_unknown :
    (env : Env) (id : Text) (info : PeerStatusInfo) (a : Auth)
    → get_peer a.store.conf id ≡ none
    → (j : Text)
    → get_peer (exchange_answered env id false (some info) a).store.conf j ≡ (
        if [] == j
        then some (updated env a.store.conf zero_known_peer info)
        else get_peer a.store.conf j)
unfolding exchange_answered process_status
exchange_answered_unknown env id info a unknown j =
    rw unknown (get_peer-process_peer_status_info env zero_known_peer info a.store j)

-- What holds after a peer was added: its entry, the others as before, not blocked, saved.
abbrev pub IsAdded : KnownPeer → Auth → Auth → Type 0
IsAdded p a b =
    ((j : Text)
      → get_peer b.store.conf j ≡ (if p.peer_id == j then some p else get_peer a.store.conf j))
    × (get_blocked_peer b.store.conf p.peer_id ≡ none)
    × IsSaved b.store

pub insert_peer-IsAdded : (p : KnownPeer) (a : Auth) → IsAdded p a (insert_peer p a)
unfolding insert_peer upsert_peer
insert_peer-IsAdded p a =
    let s = remove_blocked_peer p.peer_id a.store in
    (
      λ j.
          get_peer-call 0 (upsert p) s j
          ∙ ap (λ o. if p.peer_id == j then some p else o)
              (get_peer-call 0 (remove_block p.peer_id) a.store j),
      get_blocked_peer-call 0 (upsert p) s p.peer_id
          ∙ get_blocked_peer-call 0 (remove_block p.peer_id) a.store p.peer_id
          ∙ ap (λ b. if b then none else get_blocked_peer a.store.conf p.peer_id)
              (==_refl p.peer_id),
      refl,
    )
