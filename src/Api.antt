-- ===== src/Api.antt =====
-- api/peers.go and api/settings.go: the handlers of the HTTP API as transitions of the configuration
-- and the tables of requests. A request arrives as `Bind` reads it (`none` where it fails); the
-- goroutines that a handler starts are transitions of their own.
pub mod Settings
pub mod Steady
pub mod Steps
pub mod Races
pub mod Listing
pub mod Log
pub mod Answers
mod Gaps
mod Suggest
pub mod Examples
use gravil.Base.{
  ℕ, Bool, true, false, not, ◌&&◌, ◌||◌, Option, none, some, List, [], ◌∷◌, ◌++◌, Text, text, Dict,
  get, ◌==◌, text_key, if◌then◌else◌, is_some,
}
use gravil.Config.{Config, Store, KnownPeer}
use gravil.Addr.{parse_ip4}
use gravil.Config.Peers.{is_empty, peer_display_name, get_peer, upsert_peer}
use gravil.Config.Peers
use gravil.Config.Alias.{is_uniq_peer_alias}
use gravil.Config.Address.{
  Check, unique, invalid_ip, outside_subnet, already_used, panics, check_ip_unique,
  generate_next_ip_addr_except,
}
use gravil.Protocol.{AuthPeer}
use gravil.Auth.{
  Env, Auth, trim_domain_name, Added, added, already_known, alias_taken, ip_refused, or_empty,
}
use gravil.Auth
use gravil.Auth.Exchange.{block_peer}

-- The packages behind the handlers: `peer.Decode`, as the text form of the ID that it reads, and
-- `dns.IsDomainName`.
pub record Packages : Type 0 where
  pub decode : Text → Option Text
  pub is_domain_name : Text → Bool

pub data Reply : Type 0 where
  done bad_request not_found panicked : Reply

pub record UpdatePeerSettingsRequest : Type 0 where
  pub peer_id : Text
  pub alias : Text
  pub domain_name : Text
  pub ip_addr : Text
  pub allow_using_as_exit_node : Bool

pub record FriendRequest : Type 0 where
  pub peer_id : Text
  pub alias : Text
  pub ip_addr : Text

pub record FriendRequestReply : Type 0 where
  pub peer_id : Text
  pub alias : Text
  pub decline : Bool
  pub ip_addr : Text

abbrev pub with_local_domain : Text → Text
with_local_domain s = s ++ text ".awl"

-- awldns.IsValidDomainName.
unfoldable pub is_valid_domain_name : Env → Packages → Text → Bool
unfolding trim_domain_name
is_valid_domain_name env pkg s =
    pkg.is_domain_name (with_local_domain s) && s == trim_domain_name env s

unfoldable pub get_known_peer_settings : Config → Text → Option KnownPeer
get_known_peer_settings c id = get_peer c id

-- `trimmed_str_not_empty`.
abbrev pub trimmed_str_not_empty : Env → Text → Bool
trimmed_str_not_empty env s = not (is_empty (env.trim_space s))

-- The validator's `ipv4`.
abbrev pub is_ipv4 : Env → Text → Bool
is_ipv4 env s = is_some (parse_ip4 env.ipv6 s)

-- The `validate` tags of the requests.
unfoldable pub is_valid_settings : Env → UpdatePeerSettingsRequest → Bool
is_valid_settings env req =
    not (is_empty req.peer_id)
    && (not (is_empty req.alias) && trimmed_str_not_empty env req.alias)
    && (not (is_empty req.domain_name) && trimmed_str_not_empty env req.domain_name)
    && (not (is_empty req.ip_addr) && is_ipv4 env req.ip_addr)

unfoldable pub is_valid_friend : Env → Text → Text → Text → Bool
is_valid_friend env peer_id alias ip =
    not (is_empty peer_id)
    && (not (is_empty alias) && trimmed_str_not_empty env alias)
    && (is_empty ip || is_ipv4 env ip)

-- The peer with its new settings.
abbrev pub resettled : KnownPeer → UpdatePeerSettingsRequest → Text → KnownPeer
resettled p req alias = record p {
  alias = alias;
  domain_name = req.domain_name;
  we_allow_using_as_exit_node = req.allow_using_as_exit_node;
  ip_addr = req.ip_addr;
}

unfoldable pub settings_checked : KnownPeer → Check → Auth → Auth × Reply
settings_checked p unique a = (record a { store = upsert_peer p a.store }, done)
settings_checked p invalid_ip a = (a, bad_request)
settings_checked p outside_subnet a = (a, bad_request)
settings_checked p already_used a = (a, bad_request)
settings_checked p panics a = (a, panicked)

unfoldable pub settings_of :
    Env → UpdatePeerSettingsRequest → Option KnownPeer → Auth → Auth × Reply
unfolding settings_checked
settings_of env req none a = (a, not_found)
settings_of env req (some p) a =
    let alias = env.trim_space req.alias in
    if not (is_uniq_peer_alias a.store.conf req.peer_id alias)
    then (a, bad_request)
    else settings_checked (resettled p req alias)
        (check_ip_unique env.ipv6 env.vpn a.store.conf.known_peers req.ip_addr p.peer_id) a

-- `UpdatePeerSettings`, without its goroutine.
unfoldable pub update_peer_settings :
    Env → Packages → Option UpdatePeerSettingsRequest → Auth → Auth × Reply
unfolding settings_of is_valid_domain_name is_valid_settings
update_peer_settings env pkg none a = (a, bad_request)
update_peer_settings env pkg (some req) a =
    if not (is_valid_settings env req && is_valid_domain_name env pkg req.domain_name)
    then (a, bad_request)
    else settings_of env req (get_peer a.store.conf req.peer_id) a

unfoldable pub reply_of : Auth × Added → Auth × Reply
reply_of (a, added) = (a, done)
reply_of (a, already_known) = (a, bad_request)
reply_of (a, alias_taken) = (a, bad_request)
reply_of (a, ip_refused panics) = (a, panicked)
reply_of (a, ip_refused _) = (a, bad_request)

-- The test against adding oneself compares the texts of the request and the configuration.
unfoldable pub send_decoded : Env → FriendRequest → Option Text → Auth → Auth × Reply
unfolding reply_of
send_decoded env req none a = (a, bad_request)
send_decoded env req (some id) a =
    if req.peer_id == a.store.conf.p2p_node.peer_id
    then (a, bad_request)
    else reply_of (Auth.add_peer env id [] req.alias false req.ip_addr a)

unfoldable pub send_friend_request : Env → Packages → Option FriendRequest → Auth → Auth × Reply
unfolding send_decoded is_valid_friend
send_friend_request env pkg none a = (a, bad_request)
send_friend_request env pkg (some req) a =
    if is_valid_friend env req.peer_id req.alias req.ip_addr
    then send_decoded env req (pkg.decode req.peer_id) a
    else (a, bad_request)

-- The request of the peer that is answered, if there is one.
unfoldable pub accept_request :
    Env → FriendRequestReply → Text → Option AuthPeer → Auth → Auth × Reply
unfolding reply_of
accept_request env req id none a = (a, bad_request)
accept_request env req id (some auth) a =
    if req.decline
    then (block_peer env id auth.name a, done)
    else reply_of (Auth.add_peer env id auth.name req.alias true req.ip_addr a)

unfoldable pub accept_decoded : Env → FriendRequestReply → Option Text → Auth → Auth × Reply
unfolding accept_request
accept_decoded env req none a = (a, bad_request)
accept_decoded env req (some id) a =
    if req.peer_id == a.store.conf.p2p_node.peer_id
    then (a, bad_request)
    else accept_request env req id (get req.peer_id a.ingoing) a

unfoldable pub accept_friend : Env → Packages → Option FriendRequestReply → Auth → Auth × Reply
unfolding accept_decoded is_valid_friend
accept_friend env pkg none a = (a, bad_request)
accept_friend env pkg (some req) a =
    if is_valid_friend env req.peer_id req.alias req.ip_addr
    then accept_decoded env req (pkg.decode req.peer_id) a
    else (a, bad_request)

-- `GetAuthRequests`, over the IDs as `sort.Strings` orders them: each request gets an address that
-- was not suggested to one before it.
unfoldable pub suggest : Env → Dict Text KnownPeer → List Text → List Text → List Text
suggest env peers given [] = []
suggest env peers given (id ∷ ids) =
    let ip = or_empty (generate_next_ip_addr_except env.ipv6 env.vpn peers given) in
    ip ∷ suggest env peers (given ++ ip ∷ []) ids

-- A peer that is removed is blocked.
unfoldable pub block_removed : Env → Text → Store × Option KnownPeer → Auth → Auth × Reply
block_removed env id (s, none) a = (a, not_found)
block_removed env id (s, some p) a =
    (block_peer env id (peer_display_name p) (record a { store = s }), done)

unfoldable pub remove_decoded : Env → Text → Option Text → Auth → Auth × Reply
unfolding block_removed
remove_decoded env req none a = (a, bad_request)
remove_decoded env req (some id) a = block_removed env id (Peers.remove_peer req a.store) a

unfoldable pub remove_peer : Env → Packages → Option Text → Auth → Auth × Reply
unfolding remove_decoded
remove_peer env pkg none a = (a, bad_request)
remove_peer env pkg (some req) a =
    if is_empty req then (a, bad_request) else remove_decoded env req (pkg.decode req) a
