-- ===== src/Auth/Exchange.antt =====
-- service/auth_status.go: the handlers of the auth and status streams, and the requests to others.
use gravil.Base.{
  ℕ, Bool, true, not, ◌&&◌, ◌||◌, Option, none, some, [], ◌∷◌, Text, Dict, get, put, delete,
  text_key, if◌then◌else◌, is_some, length,
}
use gravil.Config.{Store, KnownPeer}
use gravil.Config.Peers.{
  get_peer, get_blocked_peer, upsert_peer, upsert_blocked_peer, update_peer_last_seen,
}
use gravil.Protocol.{PeerStatusInfo, AuthPeer, AuthPeerResponse}
use gravil.Auth.{
  Env, Auth, peer_or_zero, gen_alias, create_peer_info, process_peer_status_info, add_peer,
}

abbrev pub is_known : Text → Auth → Bool
is_known id a = is_some (get_peer a.store.conf id)

abbrev pub is_blocked : Text → Auth → Bool
is_blocked id a = is_some (get_blocked_peer a.store.conf id)

-- A request that waits for the user, with its event.
unfoldable pub note_request : Text → AuthPeer → Auth → Auth
note_request id req a = record a {
  ingoing = put id req a.ingoing;
  requests = (id, req) ∷ a.requests;
}

-- `AuthStreamHandler`: `received` is none where receiving fails. Whether the answer can be sent
-- changes nothing: the deferred `AddPeer` runs in both cases.
unfoldable pub auth_stream_handler :
    Env → Text → Option AuthPeer → Auth → Auth × Option AuthPeerResponse
unfolding note_request
auth_stream_handler env id none a = (a, none)
auth_stream_handler env id (some req) a =
    let answer : AuthPeerResponse = record {
      confirmed = is_known id a;
      declined = is_blocked id a;
    } in
    let alias = gen_alias a.store.conf req.name [] in
    if is_known id a || is_blocked id a
    then (a, some answer)
    else if a.store.conf.p2p_node.auto_accept_auth_requests
    then ((add_peer env id req.name alias true [] a).0, some answer)
    else (note_request id req a, some answer)

-- What a status tells about the peer, unless it is blocked.
unfoldable pub process_status : Env → Text → Bool → PeerStatusInfo → Auth → Auth
process_status env id blocked info a = if blocked then a else record a {
  store = process_peer_status_info env (peer_or_zero (get_peer a.store.conf id)) info a.store;
}

-- `StatusStreamHandler`, with the status that it sends.
unfoldable pub status_received :
    Env → Text → Option PeerStatusInfo → Auth → Auth × Option PeerStatusInfo
unfolding process_status
status_received env id none a = (a, none)
status_received env id (some info) a =
    let p = peer_or_zero (get_peer a.store.conf id) in
    let reply = create_peer_info a.store.conf p a.store.conf.p2p_node.name (is_blocked id a) in
    (
      process_status env id (is_blocked id a) info (record a { outgoing = delete id a.outgoing }),
      some reply,
    )

unfoldable pub status_stream_handler :
    Env → Text → Option PeerStatusInfo → Auth → Auth × Option PeerStatusInfo
unfolding status_received
status_stream_handler env id received a =
    if is_known id a || is_blocked id a then status_received env id received a else (a, none)

-- The end of `ExchangeNewStatusInfo`, behind the answer, which is none where connecting, sending or
-- receiving fails. Whether the peer is blocked was read before the status was sent.
unfoldable pub exchange_answered : Env → Text → Bool → Option PeerStatusInfo → Auth → Auth
unfolding process_status
exchange_answered env id blocked none a = a
exchange_answered env id blocked (some info) a = process_status env id blocked info a

-- Its beginning.
unfoldable pub exchange_begun : Text → Auth → Auth
exchange_begun id a = record a { ingoing = delete id a.ingoing }

-- `ExchangeNewStatusInfo`; `meanwhile` is what others do while the answer is awaited.
unfoldable pub exchange_new_status_info :
    Env → Text → (Auth → Auth) → Option PeerStatusInfo → Auth → Auth
unfolding exchange_answered exchange_begun
exchange_new_status_info env id meanwhile answer a =
    exchange_answered env id (is_blocked id a) answer (meanwhile (exchange_begun id a))

-- `BlockPeer`, without its goroutine.
unfoldable pub block_peer : Env → Text → Text → Auth → Auth
block_peer env id name a = record a { store = upsert_blocked_peer env.now id name a.store }

-- A peer that declines is marked, if it is known.
unfoldable pub mark_declined : Option KnownPeer → Store → Store
mark_declined none s = s
mark_declined (some p) s = upsert_peer (record p { declined = true }) s

unfoldable pub auth_answered : Text → Option AuthPeerResponse → Auth → Auth
unfolding mark_declined
auth_answered id none a = a
auth_answered id (some r) a =
    let out = if r.confirmed || r.declined then delete id a.outgoing else a.outgoing in
    let store = if r.declined then mark_declined (get_peer a.store.conf id) a.store else a.store in
    record a { outgoing = out; store = store }

-- `SendAuthRequest`.
unfoldable pub send_auth_request : Text → AuthPeer → Option AuthPeerResponse → Auth → Auth
unfolding auth_answered
send_auth_request id req answer a =
    auth_answered id answer (record a { outgoing = put id req a.outgoing })

-- One round of `BackgroundRetryAuthRequests`, over a copy of the table.
unfoldable pub retry_auth_requests :
    (Text → Option AuthPeerResponse) → Dict Text AuthPeer → Auth → Auth
unfolding send_auth_request
retry_auth_requests answer [] a = a
retry_auth_requests answer ((id, req) ∷ reqs) a =
    retry_auth_requests answer reqs (send_auth_request id req (answer id) a)

-- `restoreOutgoingAuths`.
unfoldable pub outgoing_from : Text → Dict Text AuthPeer → Dict Text KnownPeer → Dict Text AuthPeer
outgoing_from name m [] = m
outgoing_from name m ((_, p) ∷ ps) =
    outgoing_from name
      (if not p.confirmed && not p.declined then put p.peer_id (record { name = name }) m else m) ps

unfoldable pub restore_outgoing_auths : Auth → Auth
unfolding outgoing_from
restore_outgoing_auths a = record a {
  outgoing = outgoing_from a.store.conf.p2p_node.name [] a.store.conf.known_peers;
}

-- `onPeerConnected` and `onPeerDisconnected`, without the goroutine.
unfoldable pub on_peer_connected : Env → Text → Auth → Auth
on_peer_connected env id a =
    if is_known id a || is_some (get id a.outgoing)
    then record a { store = update_peer_last_seen env.now id a.store }
    else a

unfoldable pub on_peer_disconnected : Env → Text → Auth → Auth
on_peer_disconnected env id a =
    if is_known id a then record a { store = update_peer_last_seen env.now id a.store } else a

unfoldable pub get_auth_request_counts : Auth → ℕ × ℕ
get_auth_request_counts a = (length a.ingoing, length a.outgoing)
