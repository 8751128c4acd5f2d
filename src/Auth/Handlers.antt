-- ===== src/Auth/Handlers.antt =====
-- service/auth_status.go: the handlers and requests keep the configuration steady.
use gravil.Base.{
  ◌≡◌, inl, inr, refl, sym, ap, ◌∙◌, Bool, true, false, ◌||◌, Option, none, some, [], Text, get,
  delete, text_key, if◌then◌else◌, is_some, Bool-cases,
}
use gravil.Config.{Store, KnownPeer}
use gravil.Config.Peers.{get_peer}
use gravil.Protocol.{PeerStatusInfo, AuthPeer, AuthPeerResponse}
use gravil.Auth.{Env, Auth, peer_or_zero, gen_alias, add_peer}
use gravil.Auth.Exit.{allows}
use gravil.Auth.Steady.{
  IsSteady, upsert-IsSteady, upsert_blocked_peer-IsSteady, update_peer_last_seen-IsSteady,
  process_peer_status_info-IsSteady, peer_or_zero-IsFreshAlias, add_peer-IsSteady,
}
use gravil.Auth.Exchange.{
  is_known, is_blocked, note_request, auth_stream_handler, process_status, status_received,
  status_stream_handler, exchange_answered, exchange_begun, block_peer, mark_declined,
  auth_answered, send_auth_request, on_peer_connected, on_peer_disconnected,
}

either-IsSteady :
    (b : Bool) (x y : Auth × Option AuthPeerResponse)
    → IsSteady x.0.store
    → IsSteady y.0.store
    → IsSteady (if b then x else y).0.store
either-IsSteady true x y h k = h
either-IsSteady false x y h k = k

pub auth_stream_handler-IsSteady :
    (env : Env) (id : Text) (received : Option AuthPeer) (a : Auth)
    → IsSteady a.store
    → IsSteady (auth_stream_handler env id received a).0.store
unfolding auth_stream_handler note_request
auth_stream_handler-IsSteady env id none a h = h
auth_stream_handler-IsSteady env id (some req) a h =
    elim (Bool-cases (is_known id a || is_blocked id a)) [
      | inl settled ↦ rw settled h
      | inr stranger ↦ rw stranger (
          either-IsSteady a.store.conf.p2p_node.auto_accept_auth_requests
            ((add_peer env id req.name (gen_alias a.store.conf req.name []) true [] a).0, some _)
            (note_request id req a, some _)
            (add_peer-IsSteady env id req.name (gen_alias a.store.conf req.name []) true [] a h) h)
    ]

process_status-IsSteady :
    (env : Env) (id : Text) (blocked : Bool) (info : PeerStatusInfo) (a : Auth)
    → IsSteady a.store
    → IsSteady (process_status env id blocked info a).store
unfolding process_status
process_status-IsSteady env id true info a h = h
process_status-IsSteady env id false info a h =
    process_peer_status_info-IsSteady env (peer_or_zero (get_peer a.store.conf id)) info a.store
      (peer_or_zero-IsFreshAlias id a.store (get_peer a.store.conf id) refl h) h

pub status_stream_handler-IsSteady :
    (env : Env) (id : Text) (received : Option PeerStatusInfo) (a : Auth)
    → IsSteady a.store
    → IsSteady (status_stream_handler env id received a).0.store
unfolding status_stream_handler status_received
status_stream_handler-IsSteady env id none a h =
    elim (Bool-cases (is_known id a || is_blocked id a)) [ inl e ↦ rw e h | inr e ↦ rw e h ]
status_stream_handler-IsSteady env id (some info) a h =
    elim (Bool-cases (is_known id a || is_blocked id a)) [
      | inl e ↦ rw e (
          process_status-IsSteady env id (is_blocked id a) info
            (record a { outgoing = delete id a.outgoing }) h)
      | inr e ↦ rw e h
    ]

pub exchange_begun-IsSteady :
    (id : Text) (a : Auth) → IsSteady a.store → IsSteady (exchange_begun id a).store
unfolding exchange_begun
exchange_begun-IsSteady id a h = h

pub exchange_answered-IsSteady :
    (env : Env) (id : Text) (blocked : Bool) (answer : Option PeerStatusInfo) (a : Auth)
    → IsSteady a.store
    → IsSteady (exchange_answered env id blocked answer a).store
unfolding exchange_answered
exchange_answered-IsSteady env id blocked none a h = h
exchange_answered-IsSteady env id blocked (some info) a h =
    process_status-IsSteady env id blocked info a h

pub block_peer-IsSteady :
    (env : Env) (id name : Text) (a : Auth)
    → IsSteady a.store
    → IsSteady (block_peer env id name a).store
unfolding block_peer
block_peer-IsSteady env id name a h = upsert_blocked_peer-IsSteady env.now id name a.store h

mark_declined-IsSteady :
    (id : Text) (s : Store) (o : Option KnownPeer)
    → get_peer s.conf id ≡ o
    → IsSteady s
    → IsSteady (mark_declined o s)
unfolding mark_declined
mark_declined-IsSteady id s none e h = h
mark_declined-IsSteady id s (some p) e h =
    let here : get_peer s.conf p.peer_id ≡ some p = ap (get_peer s.conf) (h.keyed id p e) ∙ e in
    upsert-IsSteady (record p { declined = true }) s (λ a. sym (ap allows here) ∙ a)
      (h.apart p.peer_id p here) h

pub send_auth_request-IsSteady :
    (id : Text) (req : AuthPeer) (answer : Option AuthPeerResponse) (a : Auth)
    → IsSteady a.store
    → IsSteady (send_auth_request id req answer a).store
unfolding send_auth_request auth_answered
send_auth_request-IsSteady id req none a h = h
send_auth_request-IsSteady id req (some r) a h = elim (Bool-cases r.declined) [
  | inl declined ↦ rw declined (mark_declined-IsSteady id a.store (get_peer a.store.conf id) refl h)
  | inr not_yet ↦ rw not_yet h
]

pub on_peer_connected-IsSteady :
    (env : Env) (id : Text) (a : Auth)
    → IsSteady a.store
    → IsSteady (on_peer_connected env id a).store
unfolding on_peer_connected
on_peer_connected-IsSteady env id a h =
    elim (Bool-cases (is_known id a || is_some (get id a.outgoing))) [
      | inl e ↦ rw e (update_peer_last_seen-IsSteady env.now id a.store h)
      | inr e ↦ rw e h
    ]

pub on_peer_disconnected-IsSteady :
    (env : Env) (id : Text) (a : Auth)
    → IsSteady a.store
    → IsSteady (on_peer_disconnected env id a).store
unfolding on_peer_disconnected
on_peer_disconnected-IsSteady env id a h = elim (Bool-cases (is_known id a)) [
  | inl e ↦ rw e (update_peer_last_seen-IsSteady env.now id a.store h)
  | inr e ↦ rw e h
]
