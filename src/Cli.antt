-- ===== src/Cli.antt =====
-- cli/cli.go, cli/peers.go and api/apiclient/client.go: the commands that act on peers, as calls of the
-- handlers of the API. The client passes a request on as it is and takes every status but 200 for an
-- error; a command returns whether it reported success. Each call is a step of its own.
pub mod Names
pub mod Commands
mod Examples
use gravil.Base.{
  Bool, true, false, not, Option, none, some, List, [], ◌∷◌, Text, get, ◌==◌, text_key,
  if◌then◌else◌, is_some,
}
use gravil.Config.{Config, KnownPeer}
use gravil.Config.Peers.{is_empty}
use gravil.Auth.{Env, Auth}
use gravil.Api.{
  Packages, Reply, done, bad_request, not_found, panicked, UpdatePeerSettingsRequest,
  get_known_peer_settings, update_peer_settings, send_friend_request, accept_friend, remove_peer,
}
use gravil.Api.Settings.{update_proxy_settings}
use gravil.Api.Listing.{KnownPeersResponse}

-- The flags by which a command names a peer.
pub record Flags : Type 0 where
  pub pid : Text
  pub name : Text

module _ {Stats Units : Type 0} where
  unfoldable pub find_alias : Text → List (KnownPeersResponse Stats Units) → Option Text
  find_alias alias [] = none
  find_alias alias (r ∷ rs) =
      let rest = find_alias alias rs in if r.alias == alias then some r.peer_id else rest

  -- `getPeerIdByAlias`; `none` is an error, here and below.
  unfoldable pub get_peer_id_by_alias : Text → List (KnownPeersResponse Stats Units) → Option Text
  unfolding find_alias
  get_peer_id_by_alias alias rs = if is_empty alias then none else find_alias alias rs

  -- `initApiAndPeerId`, once the API has answered: the ID that the command goes on with.
  unfoldable pub init_api_and_peer_id :
      Bool → Flags → List (KnownPeersResponse Stats Units) → Option Text
  unfolding get_peer_id_by_alias
  init_api_and_peer_id is_required f rs =
      if not (is_empty f.pid)
      then some f.pid
      else if is_empty f.name
      then (if is_required then none else some [])
      else get_peer_id_by_alias f.name rs

abbrev pub is_done : Reply → Bool
is_done done = true
is_done bad_request = false
is_done not_found = false
is_done panicked = false

unfoldable pub answered : Auth × Reply → Auth × Bool
answered (a, r) = (a, is_done r)

-- `KnownPeerConfig`.
unfoldable pub known_peer_config : Text → Auth → Option KnownPeer
known_peer_config id a = if is_empty id then none else get_known_peer_settings a.store.conf id

-- The settings of a peer as they are.
abbrev pub as_it_is : Text → KnownPeer → UpdatePeerSettingsRequest
as_it_is id p = record {
  peer_id = id;
  alias = p.alias;
  domain_name = p.domain_name;
  ip_addr = p.ip_addr;
  allow_using_as_exit_node = p.we_allow_using_as_exit_node;
}

module _ (env : Env) (pkg : Packages) where
  unfoldable pub send_settings :
      (KnownPeer → UpdatePeerSettingsRequest) → Option KnownPeer → Auth → Auth × Bool
  unfolding answered
  send_settings req none a = (a, false)
  send_settings req (some p) a = answered (update_peer_settings env pkg (some (req p)) a)

  unfoldable pub change_peer_alias : Text → Text → Auth → Auth × Bool
  unfolding send_settings known_peer_config
  change_peer_alias id new_alias a =
      send_settings (λ p. record (as_it_is id p) { alias = new_alias }) (known_peer_config id a) a

  unfoldable pub change_peer_domain : Text → Text → Auth → Auth × Bool
  unfolding send_settings known_peer_config
  change_peer_domain id new_domain a =
      send_settings (λ p. record (as_it_is id p) { domain_name = new_domain })
        (known_peer_config id a) a

  unfoldable pub change_peer_ip : Text → Text → Auth → Auth × Bool
  unfolding send_settings known_peer_config
  change_peer_ip id new_ip a =
      send_settings (λ p. record (as_it_is id p) { ip_addr = new_ip }) (known_peer_config id a) a

  unfoldable pub set_allow_using_as_exit_node : Text → Bool → Auth → Auth × Bool
  unfolding send_settings known_peer_config
  set_allow_using_as_exit_node id allow a =
      send_settings (λ p. record (as_it_is id p) { allow_using_as_exit_node = allow })
        (known_peer_config id a) a

  -- `addPeer`: a request of the peer that is there is accepted, else one is sent.
  unfoldable pub add_peer : Text → Text → Text → Auth → Auth × Bool
  unfolding answered
  add_peer id alias ip a =
      if is_some (get id a.ingoing)
      then answered (
          accept_friend env pkg
            (some (record { peer_id = id; alias = alias; decline = false; ip_addr = ip })) a)
      else answered (
          send_friend_request env pkg (some (record { peer_id = id; alias = alias; ip_addr = ip }))
            a)

  unfoldable pub remove_peer_of : Text → Auth → Auth × Bool
  unfolding answered
  remove_peer_of id a = answered (remove_peer env pkg (some id) a)

unfoldable pub set_proxy : Text → Auth → Auth × Bool
unfolding answered
set_proxy id a = answered (update_proxy_settings (some id) a)

-- The commands of the group `peers` that change a setting.
pub data Command : Type 0 where
  rename : Text → Command
  update_domain : Text → Command
  update_ip : Text → Command
  allow_exit_node : Bool → Command

-- The action of a command.
unfoldable pub action : Env → Packages → Command → Text → Auth → Auth × Bool
unfolding change_peer_alias change_peer_domain change_peer_ip set_allow_using_as_exit_node
action env pkg (rename s) id a = change_peer_alias env pkg id s a
action env pkg (update_domain s) id a = change_peer_domain env pkg id s a
action env pkg (update_ip s) id a = change_peer_ip env pkg id s a
action env pkg (allow_exit_node b) id a = set_allow_using_as_exit_node env pkg id b a

unfoldable pub with_peer : (Text → Auth → Auth × Bool) → Option Text → Auth → Auth × Bool
with_peer f none a = (a, false)
with_peer f (some id) a = f id a

-- A command as a whole: `rs` is what the API lists.
unfoldable pub run :
    {Stats Units : Type 0}
    → Env
    → Packages
    → Command
    → Flags
    → List (KnownPeersResponse Stats Units)
    → Auth
    → Auth × Bool
unfolding action with_peer init_api_and_peer_id
run env pkg c f rs a = with_peer (action env pkg c) (init_api_and_peer_id true f rs) a
