-- ===== src/Api/Steady.antt =====
-- api/peers.go and api/settings.go: what the handlers of the HTTP API keep of the configuration.
use gravil.Base.{
  ◌≡◌, ◌≢◌, arith, text_eq_iff, ◌⊎◌, inl, inr, refl, sym, ap, ◌∙◌, Bool, true, false, not, ◌&&◌,
  Option, none, some, [], Text, get, ◌==◌, text_key, if◌then◌else◌, Bool-cases,
}
use gravil.Config.{Store, KnownPeer}
use gravil.Config.Peers.{is_empty, get_peer, save, emit, set_known, peer_display_name}
use gravil.Config.Peers
use gravil.Config.Peers.Laws.{remove, get_peer-call, call-IsKeyed}
use gravil.Config.Alias.{is_uniq_peer_alias}
use gravil.Config.Address.{
  Check, unique, invalid_ip, outside_subnet, already_used, panics, check_ip_unique,
}
use gravil.Protocol.{AuthPeer}
use gravil.Auth.{Env, Auth, Added, added, already_known, alias_taken, ip_refused, set_using}
use gravil.Auth
use gravil.Auth.Exit.{allows, is_empty_iff}
use gravil.Auth.Steady.{IsSteady, upsert-IsSteady, add_peer-IsSteady}
use gravil.Auth.Distinct.{IsFreshAlias, is_uniq-IsFreshAlias, same_aliases-HasDistinctAliases}
use gravil.Auth.Handlers.{block_peer-IsSteady}
use gravil.Api.{
  Packages, Reply, UpdatePeerSettingsRequest, FriendRequest, FriendRequestReply,
  is_valid_domain_name, is_valid_settings, is_valid_friend, resettled, settings_checked,
  settings_of, update_peer_settings, reply_of, send_decoded, send_friend_request, accept_request,
  accept_decoded, accept_friend, block_removed, remove_decoded, remove_peer,
}
use gravil.Api.Settings.{
  set_name, update_my_settings, set_proxy_peer_id, proxy_of, update_proxy_settings,
}

either-IsSteady :
    (b : Bool) (x y : Auth × Reply)
    → IsSteady x.0.store
    → IsSteady y.0.store
    → IsSteady (if b then x else y).0.store
either-IsSteady true x y h k = h
either-IsSteady false x y h k = k

settings_checked-IsSteady :
    (p : KnownPeer) (k : Check) (a : Auth)
    → (allows (get_peer a.store.conf p.peer_id) ≡ true → p.allowed_using_as_exit_node ≡ true)
    → IsFreshAlias p.peer_id p.alias a.store
    → IsSteady a.store
    → IsSteady (settings_checked p k a).0.store
unfolding settings_checked
settings_checked-IsSteady p unique a keeps fresh h = upsert-IsSteady p a.store keeps fresh h
settings_checked-IsSteady p invalid_ip a keeps fresh h = h
settings_checked-IsSteady p outside_subnet a keeps fresh h = h
settings_checked-IsSteady p already_used a keeps fresh h = h
settings_checked-IsSteady p panics a keeps fresh h = h

settings_of-IsSteady :
    (env : Env) (req : UpdatePeerSettingsRequest) (o : Option KnownPeer) (a : Auth)
    → get_peer a.store.conf req.peer_id ≡ o
    → IsSteady a.store
    → IsSteady (settings_of env req o a).0.store
unfolding settings_of
settings_of-IsSteady env req none a e h = h
settings_of-IsSteady env req (some p) a e h =
    let here : get_peer a.store.conf p.peer_id ≡ some p =
      ap (get_peer a.store.conf) (h.keyed req.peer_id p e) ∙ e in
    let alias = env.trim_space req.alias in
    elim (Bool-cases (is_uniq_peer_alias a.store.conf req.peer_id alias)) [
      | inr taken ↦ rw taken h
      | inl free ↦ rw free (
          settings_checked-IsSteady (resettled p req alias)
            (check_ip_unique env.ipv6 env.vpn a.store.conf.known_peers req.ip_addr p.peer_id) a
            (λ allowed. sym (ap allows here) ∙ allowed)
            (is_uniq-IsFreshAlias req.peer_id alias p.peer_id a.store
              (inl (sym (h.keyed req.peer_id p e))) h.keyed free)
            h)
    ]

pub update_peer_settings-IsSteady :
    (env : Env) (pkg : Packages) (req : Option UpdatePeerSettingsRequest) (a : Auth)
    → IsSteady a.store
    → IsSteady (update_peer_settings env pkg req a).0.store
unfolding update_peer_settings
update_peer_settings-IsSteady env pkg none a h = h
update_peer_settings-IsSteady env pkg (some req) a h =
    either-IsSteady
      (not (is_valid_settings env req && is_valid_domain_name env pkg req.domain_name)) _ _ h
      (settings_of-IsSteady env req (get_peer a.store.conf req.peer_id) a refl h)

pub reply_of-kept : (r : Auth × Added) → (reply_of r).0 ≡ r.0
unfolding reply_of
reply_of-kept (a, added) = refl
reply_of-kept (a, already_known) = refl
reply_of-kept (a, alias_taken) = refl
reply_of-kept (a, ip_refused unique) = refl
reply_of-kept (a, ip_refused invalid_ip) = refl
reply_of-kept (a, ip_refused outside_subnet) = refl
reply_of-kept (a, ip_refused already_used) = refl
reply_of-kept (a, ip_refused panics) = refl

replied-IsSteady :
    (env : Env) (id name alias : Text) (confirmed : Bool) (ip : Text) (a : Auth)
    → IsSteady a.store
    → IsSteady (reply_of (Auth.add_peer env id name alias confirmed ip a)).0.store
replied-IsSteady env id name alias confirmed ip a h =
    rw (reply_of-kept (Auth.add_peer env id name alias confirmed ip a))
      (add_peer-IsSteady env id name alias confirmed ip a h)

send_decoded-IsSteady :
    (env : Env) (req : FriendRequest) (o : Option Text) (a : Auth)
    → IsSteady a.store
    → IsSteady (send_decoded env req o a).0.store
unfolding send_decoded
send_decoded-IsSteady env req none a h = h
send_decoded-IsSteady env req (some id) a h =
    either-IsSteady (req.peer_id == a.store.conf.p2p_node.peer_id) _ _ h
      (replied-IsSteady env id [] req.alias false req.ip_addr a h)

pub send_friend_request-IsSteady :
    (env : Env) (pkg : Packages) (req : Option FriendRequest) (a : Auth)
    → IsSteady a.store
    → IsSteady (send_friend_request env pkg req a).0.store
unfolding send_friend_request
send_friend_request-IsSteady env pkg none a h = h
send_friend_request-IsSteady env pkg (some req) a h =
    either-IsSteady (is_valid_friend env req.peer_id req.alias req.ip_addr) _ _
      (send_decoded-IsSteady env req (pkg.decode req.peer_id) a h) h

accept_request-IsSteady :
    (env : Env) (req : FriendRequestReply) (id : Text) (o : Option AuthPeer) (a : Auth)
    → IsSteady a.store
    → IsSteady (accept_request env req id o a).0.store
unfolding accept_request
accept_request-IsSteady env req id none a h = h
accept_request-IsSteady env req id (some auth) a h =
    either-IsSteady req.decline _ _ (block_peer-IsSteady env id auth.name a h)
      (replied-IsSteady env id auth.name req.alias true req.ip_addr a h)

accept_decoded-IsSteady :
    (env : Env) (req : FriendRequestReply) (o : Option Text) (a : Auth)
    → IsSteady a.store
    → IsSteady (accept_decoded env req o a).0.store
unfolding accept_decoded
accept_decoded-IsSteady env req none a h = h
accept_decoded-IsSteady env req (some id) a h =
    either-IsSteady (req.peer_id == a.store.conf.p2p_node.peer_id) _ _ h
      (accept_request-IsSteady env req id (get req.peer_id a.ingoing) a h)

pub accept_friend-IsSteady :
    (env : Env) (pkg : Packages) (req : Option FriendRequestReply) (a : Auth)
    → IsSteady a.store
    → IsSteady (accept_friend env pkg req a).0.store
unfolding accept_friend
accept_friend-IsSteady env pkg none a h = h
accept_friend-IsSteady env pkg (some req) a h =
    either-IsSteady (is_valid_friend env req.peer_id req.alias req.ip_addr) _ _
      (accept_decoded-IsSteady env req (pkg.decode req.peer_id) a h) h

pub update_my_settings-IsSteady :
    (name : Option Text) (a : Auth)
    → IsSteady a.store
    → IsSteady (update_my_settings name a).0.store
unfolding update_my_settings set_name save get_peer
update_my_settings-IsSteady none a h = h
update_my_settings-IsSteady (some name) a h = record {
  exit = h.exit;
  keyed = h.keyed;
  apart = h.apart;
}

set_proxy_peer_id-IsSteady :
    (id : Text) (s : Store)
    → (id ≡ []) ⊎ (allows (get_peer s.conf id) ≡ true)
    → IsSteady s
    → IsSteady (set_proxy_peer_id id s)
unfolding set_proxy_peer_id save set_using get_peer
set_proxy_peer_id-IsSteady id s e h = record { exit = e; keyed = h.keyed; apart = h.apart }

proxy_of-IsSteady :
    (id : Text) (o : Option KnownPeer) (a : Auth)
    → get_peer a.store.conf id ≡ o
    → IsSteady a.store
    → IsSteady (proxy_of id o a).0.store
unfolding proxy_of
proxy_of-IsSteady id none a e h = elim (Bool-cases (is_empty id)) [
  | inl no_peer ↦
      rw no_peer (set_proxy_peer_id-IsSteady id a.store (inl (is_empty_iff id no_peer)) h)
  | inr named ↦ rw named h
]
proxy_of-IsSteady id (some p) a e h = elim (Bool-cases (is_empty id)) [
  | inl no_peer ↦
      rw no_peer (set_proxy_peer_id-IsSteady id a.store (inl (is_empty_iff id no_peer)) h)
  | inr named ↦ elim (Bool-cases p.allowed_using_as_exit_node) [
    | inl allowed ↦
        simp (named, allowed)
          (set_proxy_peer_id-IsSteady id a.store (inr (ap allows e ∙ allowed)) h)
    | inr denied ↦ simp (named, denied) h
  ]
]

pub update_proxy_settings-IsSteady :
    (id : Option Text) (a : Auth) → IsSteady a.store → IsSteady (update_proxy_settings id a).0.store
unfolding update_proxy_settings
update_proxy_settings-IsSteady none a h = h
update_proxy_settings-IsSteady (some id) a h =
    proxy_of-IsSteady id (get_peer a.store.conf id) a refl h

removed-peers :
    (id j : Text) (s : Store)
    → get_peer (Peers.remove_peer id s).0.conf j ≡ (if id == j then none else get_peer s.conf j)
removed-peers id j s = get_peer-call 0 (remove id) s j

removed-using :
    (id : Text) (s : Store)
    → (Peers.remove_peer id s).0.conf.socks5.using_peer_id ≡ s.conf.socks5.using_peer_id
unfolding Peers.remove_peer save emit set_known
removed-using id s = ground arith

removed-IsSteady :
    (id : Text) (s : Store)
    → s.conf.socks5.using_peer_id ≢ id
    → IsSteady s
    → IsSteady (Peers.remove_peer id s).0
removed-IsSteady id s other h = record {
  exit = elim h.exit [
    | inl e ↦ inl (removed-using id s ∙ e)
    | inr e ↦ inr (
        ap (λ u. allows (get_peer (Peers.remove_peer id s).0.conf u)) (removed-using id s)
        ∙ ap allows (removed-peers id s.conf.socks5.using_peer_id s ∙ kept)
        ∙ e)
  ];
  keyed = call-IsKeyed 0 (remove id) s h.keyed;
  apart =
      same_aliases-HasDistinctAliases s (Peers.remove_peer id s).0
        (λ k q e. (q, ground (arith, e, removed-peers id k s), refl)) h.apart;
}
  where
    kept :
        (if id == s.conf.socks5.using_peer_id
          then none
          else get_peer s.conf s.conf.socks5.using_peer_id)
        ≡ get_peer s.conf s.conf.socks5.using_peer_id
    kept = elim (Bool-cases (id == s.conf.socks5.using_peer_id)) [
      | inl same ↦ absurd (other (sym ((text_eq_iff id s.conf.socks5.using_peer_id).0 same)))
      | inr e ↦ rw e refl
    ]

block_removed-IsSteady :
    (env : Env) (id : Text) (r : Store × Option KnownPeer) (a : Auth)
    → IsSteady r.0
    → IsSteady a.store
    → IsSteady (block_removed env id r a).0.store
unfolding block_removed
block_removed-IsSteady env id (s, none) a h k = k
block_removed-IsSteady env id (s, some p) a h k =
    block_peer-IsSteady env id (peer_display_name p) (record a { store = s }) h

pub remove_peer-IsSteady :
    (env : Env) (pkg : Packages) (req : Text) (a : Auth)
    → a.store.conf.socks5.using_peer_id ≢ req
    → IsSteady a.store
    → IsSteady (remove_peer env pkg (some req) a).0.store
unfolding remove_peer remove_decoded
remove_peer-IsSteady env pkg req a other h =
    either-IsSteady (is_empty req) _ _ h (decoded (pkg.decode req))
  where
    decoded : (o : Option Text) → IsSteady (remove_decoded env req o a).0.store
    decoded none = h
    decoded (some id) =
        block_removed-IsSteady env id (Peers.remove_peer req a.store) a
          (removed-IsSteady req a.store other h) h
