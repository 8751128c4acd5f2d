-- ===== src/Auth/Answers.antt =====
-- service/auth_status.go: what a peer is told, and which requests stay pending.
use gravil.Base.{
  ◌≡◌, ◌⊎◌, ◌↔◌, inl, inr, refl, Bool, true, false, ◌||◌, Option, none, some, [], ◌∷◌, arith, Text,
  Dict, get, put, delete, ◌==◌, text_key, text_eq_iff, if◌then◌else◌, is_some, get-put, get-delete,
}
use gravil.Config.{KnownPeer}
use gravil.Config.Peers.{get_peer}
use gravil.Protocol.{PeerStatusInfo, AuthPeer, AuthPeerResponse}
use gravil.Auth.{Env, Auth, create_peer_info}
use gravil.Auth.Stored.{updated, get_peer-process_peer_status_info}
use gravil.Auth.Exchange.{
  is_known, is_blocked, note_request, auth_stream_handler, process_status, status_received,
  status_stream_handler, auth_answered, send_auth_request, outgoing_from, restore_outgoing_auths,
}

-- The request of a known or a blocked peer changes nothing, and is answered with which of the two the
-- peer is.
pub auth_stream_handler_settled :
    (env : Env) (id : Text) (req : AuthPeer) (a : Auth)
    → is_known id a || is_blocked id a ≡ true
    → auth_stream_handler env id (some req) a
      ≡ (a, some (record { confirmed = is_known id a; declined = is_blocked id a }))
unfolding auth_stream_handler
auth_stream_handler_settled env id req a h = ground arith

-- The request of a stranger, unless requests are accepted automatically, is neither confirmed nor
-- declined, and waits for the user; the configuration and the requests of others stay as they are.
pub auth_stream_handler_stranger :
    (env : Env) (id : Text) (req : AuthPeer) (a : Auth)
    → is_known id a ≡ false
    → is_blocked id a ≡ false
    → a.store.conf.p2p_node.auto_accept_auth_requests ≡ false
    → ((auth_stream_handler env id (some req) a).1
        ≡ some (record { confirmed = false; declined = false }))
      × ((auth_stream_handler env id (some req) a).0.store ≡ a.store)
      × ((j : Text)
          → get j (auth_stream_handler env id (some req) a).0.ingoing
            ≡ (if id == j then some req else get j a.ingoing))
unfolding auth_stream_handler note_request
auth_stream_handler_stranger env id req a new free auto = (
  rw (new, free, auto) refl,
  rw (new, free, auto) refl,
  λ j. rw (new, free, auto) (get-put id j req a.ingoing),
)

-- What a device says of itself to a peer that it declines.
abbrev pub declined_info : PeerStatusInfo
declined_info = record {
  name = [];
  declined = true;
  allow_using_as_exit_node = false;
  using_peer_id = [];
}

-- A blocked peer learns nothing but that it is declined, and its status changes nothing in the
-- configuration.
pub status_stream_handler_blocked :
    (env : Env) (id : Text) (info : PeerStatusInfo) (a : Auth)
    → is_blocked id a ≡ true
    → ((status_stream_handler env id (some info) a).1 ≡ some declined_info)
      × ((status_stream_handler env id (some info) a).0.store ≡ a.store)
unfolding status_stream_handler status_received process_status create_peer_info
status_stream_handler_blocked env id info a h = (ground arith, ground arith)

-- A peer that is neither known nor blocked gets no reply, and changes nothing.
pub status_stream_handler_unknown :
    (env : Env) (id : Text) (received : Option PeerStatusInfo) (a : Auth)
    → is_known id a ≡ false
    → is_blocked id a ≡ false
    → status_stream_handler env id received a ≡ (a, none)
unfolding status_stream_handler
status_stream_handler_unknown env id received a new free = rw (new, free) refl

-- A known peer that is not blocked is told this device's name and whether it may use it as exit node,
-- the request to it is settled, and its entry takes over what it reports; no other entry changes.
pub status_stream_handler_known :
    (env : Env) (id : Text) (info : PeerStatusInfo) (a : Auth) (p : KnownPeer)
    → get_peer a.store.conf id ≡ some p
    → is_blocked id a ≡ false
    → ((status_stream_handler env id (some info) a).1
        ≡ some (record {
          name = a.store.conf.p2p_node.name;
          declined = false;
          allow_using_as_exit_node = p.we_allow_using_as_exit_node;
          using_peer_id = a.store.conf.socks5.using_peer_id;
        }))
      × (get id (status_stream_handler env id (some info) a).0.outgoing ≡ none)
      × ((j : Text)
          → get_peer (status_stream_handler env id (some info) a).0.store.conf j ≡ (
              if p.peer_id == j
              then some (updated env a.store.conf p info)
              else get_peer a.store.conf j))
unfolding status_stream_handler status_received process_status create_peer_info
status_stream_handler_known env id info a p known free = (
  rw (free, known) refl,
  rw (free, known) (get-delete_same id a.outgoing),
  λ j. rw (free, known) (get_peer-process_peer_status_info env p info a.store j),
)
  where
    get-delete_same : (k : Text) (m : Dict Text AuthPeer) → get k (delete k m) ≡ none
    get-delete_same k m = ground (arith, get-delete k k m, text_eq_iff k k)

-- Does an answer settle a request?
abbrev pub settled : Option AuthPeerResponse → Bool
settled none = false
settled (some r) = r.confirmed || r.declined

-- A request stays pending, to be sent again, until it is confirmed or declined; the requests to other
-- peers are not touched.
pub send_auth_request-pending :
    (id : Text) (req : AuthPeer) (answer : Option AuthPeerResponse) (a : Auth) (j : Text)
    → get j (send_auth_request id req answer a).outgoing
      ≡ (if id == j then (if settled answer then none else some req) else get j a.outgoing)
unfolding send_auth_request auth_answered
send_auth_request-pending id req none a j = get-put id j req a.outgoing
send_auth_request-pending id req (some r) a j =
    ground (arith, get-put id j req a.outgoing, get-delete id j (put id req a.outgoing))

-- Some entry with this ID has neither confirmed nor declined.
abbrev pub Waits : Text → Dict Text KnownPeer → Type 0
Waits id [] = ⊥
Waits id ((_, p) ∷ ps) =
    ((p.peer_id ≡ id) × (p.confirmed ≡ false) × (p.declined ≡ false)) ⊎ Waits id ps

outgoing_from_iff :
    (name id : Text) (ps : Dict Text KnownPeer) (m : Dict Text AuthPeer)
    → (is_some (get id (outgoing_from name m ps)) ≡ true)
      ↔ ((is_some (get id m) ≡ true) ⊎ Waits id ps)
unfolding outgoing_from
outgoing_from_iff name id [] m = (λ h. inl h, λ h. elim h [ inl k ↦ k | inr k ↦ absurd k ])
outgoing_from_iff name id ((_, p) ∷ ps) m = ground (
  arith,
  outgoing_from_iff name id ps m,
  outgoing_from_iff name id ps (put p.peer_id (record { name = name }) m),
  get-put p.peer_id id (record { name = name }) m,
  text_eq_iff p.peer_id id,
)

-- After a start exactly those requests are pending that go to known peers which have neither
-- confirmed nor declined.
pub restore_outgoing_auths_iff :
    (a : Auth) (id : Text)
    → (is_some (get id (restore_outgoing_auths a).outgoing) ≡ true)
      ↔ Waits id a.store.conf.known_peers
unfolding restore_outgoing_auths get
restore_outgoing_auths_iff a id =
    let r = outgoing_from_iff a.store.conf.p2p_node.name id a.store.conf.known_peers [] in
    (λ h. elim (r.0 h) [ inl k ↦ cc | inr k ↦ k ], λ h. r.1 (inr h))
