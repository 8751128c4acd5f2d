-- ===== src/Api/Steps.antt =====
-- service/auth_status.go with api/peers.go and api/settings.go: the device as a transition system.
-- Peers and the user act in any order; each step may see another time, and other packages behind it.
-- A handler runs alone here; two of them at once are in Api/Races.
use gravil.Base.{Text, Option, some, Bool, ◌≢◌, text_key}
use gravil.Protocol.{PeerStatusInfo, AuthPeer, AuthPeerResponse}
use gravil.Auth.{Env, Auth}
use gravil.Auth.Exchange.{
  auth_stream_handler, status_stream_handler, exchange_begun, exchange_answered, block_peer,
  send_auth_request, on_peer_connected, on_peer_disconnected,
}
use gravil.Auth.Steady.{IsSteady}
use gravil.Auth.Handlers.{
  auth_stream_handler-IsSteady, status_stream_handler-IsSteady, exchange_begun-IsSteady,
  exchange_answered-IsSteady, block_peer-IsSteady, send_auth_request-IsSteady,
  on_peer_connected-IsSteady, on_peer_disconnected-IsSteady,
}
use gravil.Api.{
  Packages, UpdatePeerSettingsRequest, FriendRequest, FriendRequestReply, update_peer_settings,
  send_friend_request, accept_friend, remove_peer,
}
use gravil.Api.Settings.{update_my_settings, update_proxy_settings}
use gravil.Api.Steady.{
  update_peer_settings-IsSteady, remove_peer-IsSteady, send_friend_request-IsSteady,
  accept_friend-IsSteady, update_my_settings-IsSteady, update_proxy_settings-IsSteady,
}

-- Every operation, `RemovePeer` for a peer that is not the exit node (Api/Gaps has the other case). An
-- exchange of status has two steps, and what it read of the blocked peers may be out of date.
pub data Step (a : Auth) : Auth → Type 0 where
  asked :
      (env : Env) (id : Text) (req : Option AuthPeer) → Step a (auth_stream_handler env id req a).0
  told :
      (env : Env) (id : Text) (info : Option PeerStatusInfo)
      → Step a (status_stream_handler env id info a).0
  opened : (id : Text) → Step a (exchange_begun id a)
  exchanged :
      (env : Env) (id : Text) (was_blocked : Bool) (answer : Option PeerStatusInfo)
      → Step a (exchange_answered env id was_blocked answer a)
  requested :
      (id : Text) (req : AuthPeer) (answer : Option AuthPeerResponse)
      → Step a (send_auth_request id req answer a)
  connected : (env : Env) (id : Text) → Step a (on_peer_connected env id a)
  disconnected : (env : Env) (id : Text) → Step a (on_peer_disconnected env id a)
  blocked : (env : Env) (id name : Text) → Step a (block_peer env id name a)
  resettled :
      (env : Env) (pkg : Packages) (req : Option UpdatePeerSettingsRequest)
      → Step a (update_peer_settings env pkg req a).0
  invited :
      (env : Env) (pkg : Packages) (req : Option FriendRequest)
      → Step a (send_friend_request env pkg req a).0
  accepted :
      (env : Env) (pkg : Packages) (req : Option FriendRequestReply)
      → Step a (accept_friend env pkg req a).0
  removed :
      (env : Env) (pkg : Packages) (req : Text)
      → a.store.conf.socks5.using_peer_id ≢ req
      → Step a (remove_peer env pkg (some req) a).0
  renamed : (name : Option Text) → Step a (update_my_settings name a).0
  proxied : (id : Option Text) → Step a (update_proxy_settings id a).0

pub data Reach (a : Auth) : Auth → Type 0 where
  here : Reach a a
  later : {b c : Auth} → Reach a b → Step b c → Reach a c

Step-IsSteady : {a b : Auth} → IsSteady a.store → Step a b → IsSteady b.store
Step-IsSteady {a} h (asked env id req) = auth_stream_handler-IsSteady env id req a h
Step-IsSteady {a} h (told env id info) = status_stream_handler-IsSteady env id info a h
Step-IsSteady {a} h (opened id) = exchange_begun-IsSteady id a h
Step-IsSteady {a} h (exchanged env id was_blocked answer) =
    exchange_answered-IsSteady env id was_blocked answer a h
Step-IsSteady {a} h (removed env pkg req other) = remove_peer-IsSteady env pkg req a other h
Step-IsSteady {a} h (requested id req answer) = send_auth_request-IsSteady id req answer a h
Step-IsSteady {a} h (connected env id) = on_peer_connected-IsSteady env id a h
Step-IsSteady {a} h (disconnected env id) = on_peer_disconnected-IsSteady env id a h
Step-IsSteady {a} h (blocked env id name) = block_peer-IsSteady env id name a h
Step-IsSteady {a} h (resettled env pkg req) = update_peer_settings-IsSteady env pkg req a h
Step-IsSteady {a} h (invited env pkg req) = send_friend_request-IsSteady env pkg req a h
Step-IsSteady {a} h (accepted env pkg req) = accept_friend-IsSteady env pkg req a h
Step-IsSteady {a} h (renamed name) = update_my_settings-IsSteady name a h
Step-IsSteady {a} h (proxied id) = update_proxy_settings-IsSteady id a h

-- Whatever requests and statuses peers send, in whatever order, and whatever the user does with the
-- handlers that set, invite, accept, rename and choose an exit node, or remove a peer other than the
-- exit node: from a configuration whose exit node is unset or a known peer that allows it, whose
-- entries stand under their own IDs, and in which no two entries with an ID have the same alias, only
-- such configurations are reached. Each handler runs alone, but others may run within an exchange of
-- status.
pub Reach-IsSteady : {a b : Auth} → IsSteady a.store → Reach a b → IsSteady b.store
Reach-IsSteady h here = h
Reach-IsSteady h (later r st) = Step-IsSteady (Reach-IsSteady h r) st
