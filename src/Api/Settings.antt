-- ===== src/Api/Settings.antt =====
-- api/settings.go and service/socks5.go: the device's own settings, and the choice of the exit node
-- by the user.
use gravil.Base.{
  Bool, ◌&&◌, ◌||◌, Option, none, some, List, [], ◌∷◌, Text, Dict, text_key, if◌then◌else◌,
}
use gravil.Config.{Config, Store, KnownPeer}
use gravil.Config.Peers.{is_empty, peer_display_name, get_peer, save}
use gravil.Auth.{Auth, set_using}
use gravil.Api.{Reply, done, bad_request, not_found}

unfoldable pub set_name : Text → Store → Store
set_name name s = record s {
  conf = record s.conf { p2p_node = record s.conf.p2p_node { name = name } };
}

-- `UpdateMySettings`, without its goroutine.
unfoldable pub update_my_settings : Option Text → Auth → Auth × Reply
unfolding set_name save
update_my_settings none a = (a, bad_request)
update_my_settings (some name) a = (record a { store = save (set_name name a.store) }, done)

-- `SetProxyPeerID`.
unfoldable pub set_proxy_peer_id : Text → Store → Store
unfolding save set_using
set_proxy_peer_id id s = save (set_using id s)

unfoldable pub get_proxy_peer_id : Config → Text
get_proxy_peer_id c = c.socks5.using_peer_id

unfoldable pub proxy_of : Text → Option KnownPeer → Auth → Auth × Reply
unfolding set_proxy_peer_id
proxy_of id none a =
    if is_empty id
    then (record a { store = set_proxy_peer_id id a.store }, done)
    else (a, not_found)
proxy_of id (some p) a =
    if is_empty id || p.allowed_using_as_exit_node
    then (record a { store = set_proxy_peer_id id a.store }, done)
    else (a, bad_request)

-- `UpdateProxySettings`.
unfoldable pub update_proxy_settings : Option Text → Auth → Auth × Reply
unfolding proxy_of
update_proxy_settings none a = (a, bad_request)
update_proxy_settings (some id) a = proxy_of id (get_peer a.store.conf id) a

pub record AvailableProxy : Type 0 where
  pub peer_id : Text
  pub peer_name : Text

-- `ListAvailableProxies`, before it sorts them by name.
unfoldable pub available_proxies : (Text → Bool) → Dict Text KnownPeer → List AvailableProxy
unfolding peer_display_name
available_proxies connected [] = []
available_proxies connected ((_, p) ∷ ps) =
    let rest = available_proxies connected ps in
    if p.allowed_using_as_exit_node && connected p.peer_id
    then (record { peer_id = p.peer_id; peer_name = peer_display_name p }) ∷ rest
    else rest
