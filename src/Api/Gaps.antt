-- ===== src/Api/Gaps.antt =====
-- api/peers.go: two requests that pass the checks of the handlers and leave a configuration that the
-- rest of the program excludes.
use gravil.Base.{
  ◌≡◌, ◌≢◌, inl, inr, is_some, get-put, ap, ◌∙◌, true, false, none, some, [], Text, Dict, get, put,
  ◌==◌, ==_refl, text_key, text_eq, text_eq_iff, Bool-cases, get-delete, if◌then◌else◌,
}
use gravil.Config.{KnownPeer, BlockedPeer, zero_known_peer}
use gravil.Config.Peers.{
  is_empty, get_peer, get_blocked_peer, upsert_blocked_peer, save, emit, set_known, set_blocked,
}
use gravil.Config.Peers
use gravil.Auth.{Env, Auth, Added, add_checked, chosen_ip, ip_check, new_peer, insert_peer}
use gravil.Auth
use gravil.Auth.Exchange.{
  block_peer, is_blocked, exchange_begun, exchange_answered, exchange_new_status_info,
}
use gravil.Protocol.{PeerStatusInfo}
use gravil.Auth.Adding.{entry, IsFree, add_peer_free}
use gravil.Auth.Stored.{insert_peer-IsAdded, updated, exchange_answered_unknown}
use gravil.Api.Steady.{reply_of-kept}
use gravil.Api.{
  Packages, FriendRequest, is_valid_friend, send_decoded, send_friend_request, remove_peer,
  remove_decoded, block_removed,
}

-- `RemovePeer` forgets the exit node: when the peer in use is removed, it stays in use, known no more.
pub remove_peer_keeps_using :
    (env : Env) (pkg : Packages) (id to : Text) (p : KnownPeer) (a : Auth)
    → pkg.decode id ≡ some to
    → is_empty id ≡ false
    → get_peer a.store.conf id ≡ some p
    → a.store.conf.socks5.using_peer_id ≡ id
    → ((remove_peer env pkg (some id) a).0.store.conf.socks5.using_peer_id ≡ id)
      × (get_peer (remove_peer env pkg (some id) a).0.store.conf id ≡ none)
unfolding remove_peer remove_decoded block_removed block_peer Peers.remove_peer upsert_blocked_peer
    save emit set_known set_blocked get_peer
remove_peer_keeps_using env pkg id to p a decodes named known using =
    simp (named, decodes, known)
      (
        using,
        get-delete id id a.store.conf.known_peers
            ∙ ap (λ b. if b then none else get id a.store.conf.known_peers) (==_refl id),
      )

unknown_after :
    (env : Env) (pkg : Packages) (id : Text) (p : KnownPeer) (a : Auth)
    → pkg.decode id ≡ some id
    → is_empty id ≡ false
    → get_peer a.store.conf id ≡ some p
    → get_peer (remove_peer env pkg (some id) a).0.store.conf id ≡ none
unfolding remove_peer remove_decoded block_removed block_peer Peers.remove_peer upsert_blocked_peer
    save emit set_known set_blocked get_peer
unknown_after env pkg id p a decodes named known =
    simp (named, decodes, known)
      (get-delete id id a.store.conf.known_peers
        ∙ ap (λ b. if b then none else get id a.store.conf.known_peers) (==_refl id))

has-put :
    (id : Text) (b : BlockedPeer) (m : Dict Text BlockedPeer) → is_some (get id (put id b m)) ≡ true
has-put id b m =
    ap is_some (get-put id id b m) ∙ ap (λ t. is_some (if t then some b else get id m)) (==_refl id)

blocked_after :
    (env : Env) (pkg : Packages) (id : Text) (p : KnownPeer) (a : Auth)
    → pkg.decode id ≡ some id
    → is_empty id ≡ false
    → get_peer a.store.conf id ≡ some p
    → is_blocked id (remove_peer env pkg (some id) a).0 ≡ true
unfolding remove_peer remove_decoded block_removed block_peer Peers.remove_peer upsert_blocked_peer
    save emit set_known set_blocked get_peer get_blocked_peer
blocked_after env pkg id p a decodes named known = simp (named, decodes, known) (has-put id _ _)

own_entry :
    (env : Env) (req : FriendRequest) (a : Auth)
    → get_peer
        (insert_peer
          (entry env a.store.conf.p2p_node.peer_id [] req.alias false req.ip_addr a)
          a).store.conf
        a.store.conf.p2p_node.peer_id
      ≡ some (entry env a.store.conf.p2p_node.peer_id [] req.alias false req.ip_addr a)
unfolding new_peer
own_entry env req a =
    let self = a.store.conf.p2p_node.peer_id in
    let new = entry env self [] req.alias false req.ip_addr a in
    (insert_peer-IsAdded new a).0 self
    ∙ ap (λ b. if b then some new else get_peer a.store.conf self) (==_refl self)

-- The test against adding oneself compares texts, so another spelling of the device's own ID passes.
pub send_friend_request_self :
    (env : Env) (pkg : Packages) (req : FriendRequest) (a : Auth)
    → pkg.decode req.peer_id ≡ some a.store.conf.p2p_node.peer_id
    → req.peer_id ≢ a.store.conf.p2p_node.peer_id
    → is_valid_friend env req.peer_id req.alias req.ip_addr ≡ true
    → IsFree env a.store.conf.p2p_node.peer_id [] req.alias false req.ip_addr a
    → get_peer (send_friend_request env pkg (some req) a).0.store.conf a.store.conf.p2p_node.peer_id
      ≡ some (entry env a.store.conf.p2p_node.peer_id [] req.alias false req.ip_addr a)
unfolding send_friend_request send_decoded
send_friend_request_self env pkg req a decodes other valid free =
    let differs : req.peer_id == a.store.conf.p2p_node.peer_id ≡ false =
      elim (Bool-cases (req.peer_id == a.store.conf.p2p_node.peer_id)) [
        | inl same ↦ absurd (other ((text_eq_iff _ _).0 same))
        | inr e ↦ e
      ] in
    let self = a.store.conf.p2p_node.peer_id in
    simp (valid, decodes, differs)
      (ap (λ (b : Auth). get_peer b.store.conf self)
          (reply_of-kept (Auth.add_peer env self [] req.alias false req.ip_addr a)
            ∙ ap (λ (r : Auth × Added). r.0)
                (add_peer_free env self [] req.alias false req.ip_addr a free))
        ∙ own_entry env req a)

-- A peer that is removed while an exchange of status with it is awaited: the answer is stored all the
-- same, in an entry under the empty ID, though the peer is not known any more and is blocked. It was
-- known and not blocked when the exchange began, and its ID, which is not empty, decodes to itself.
pub exchange_new_status_info_removed :
    (env : Env) (pkg : Packages) (id : Text) (p : KnownPeer) (info : PeerStatusInfo) (a : Auth)
    → pkg.decode id ≡ some id
    → is_empty id ≡ false
    → get_peer a.store.conf id ≡ some p
    → is_blocked id a ≡ false
    → let remove = λ (b : Auth). (remove_peer env pkg (some id) b).0 in
      let b = exchange_new_status_info env id remove (some info) a in
      (get_peer b.store.conf []
        ≡ some (updated env (remove (exchange_begun id a)).store.conf zero_known_peer info))
      × (get_peer b.store.conf id ≡ none)
      × (is_blocked id (remove (exchange_begun id a)) ≡ true)
unfolding text_eq
exchange_new_status_info_removed env pkg id p info a decodes named known free =
    let begun = exchange_begun id a in
    let c = (remove_peer env pkg (some id) begun).0 in
    let gone : get_peer c.store.conf id ≡ none =
      unknown_after env pkg id p begun decodes named (unfold exchange_begun in known) in
    let ended : exchange_new_status_info env id (λ b. (remove_peer env pkg (some id) b).0)
          (some info) a
        ≡ exchange_answered env id false (some info) c =
      unfold exchange_new_status_info in ap (λ b. exchange_answered env id b (some info) c) free in
    let stored = exchange_answered_unknown env id info c gone in
    let other : ([] == id) ≡ false = elim (Bool-cases ([] == id)) [
      | inl same ↦ absurd (clash (ap is_empty ((text_eq_iff [] id).0 same) ∙ named))
      | inr e ↦ e
    ] in
    (
      ap (λ (b : Auth). get_peer b.store.conf []) ended ∙ stored [],
      ap (λ (b : Auth). get_peer b.store.conf id) ended
          ∙ stored id
          ∙ ap
              (λ t.
                if t
                then some (updated env c.store.conf zero_known_peer info)
                else get_peer c.store.conf id)
              other
          ∙ gone,
      blocked_after env pkg id p begun decodes named (unfold exchange_begun in known),
    )
  where
    clash : true ≡ false → ⊥
    clash e = cc
