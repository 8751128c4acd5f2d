-- ===== src/Auth.antt =====
-- service/auth_status.go: the requests to become known, and the exchange of status, as transitions of
-- the configuration and the two tables of pending requests. What the network returns is an argument;
-- a peer ID is its text form; the goroutines that a method starts are transitions of their own.
pub mod Exchange
pub mod Exit
pub mod Adding
pub mod Distinct
pub mod Pairing
pub mod Steady
pub mod Handlers
pub mod Stored
pub mod Answers
pub mod Examples
use gravil.Base.{
  ℕ, ◌+◌, Bool, true, false, not, ◌&&◌, ◌||◌, Option, none, some, List, [], ◌∷◌, ◌++◌, map, Text,
  Dict, get, put, delete, ◌==◌, text_key, if◌then◌else◌, is_some, length,
}
use gravil.Addr.{Network}
use gravil.Config.{Config, Store, KnownPeer, zero_known_peer}
use gravil.Config.Peers.{
  is_empty, peer_display_name, get_peer, get_blocked_peer, upsert_peer, remove_blocked_peer,
  upsert_blocked_peer, update_peer_last_seen,
}
use gravil.Config.Alias.{aliases, is_uniq_peer_alias, gen_uniq_peer_alias}
use gravil.Config.Address.{
  Check, unique, invalid_ip, outside_subnet, already_used, panics, generate_next_ip_addr,
  check_ip_unique,
}
use gravil.Protocol.{PeerStatusInfo, AuthPeer, AuthPeerResponse}

-- What is used of the packages strings and unicode, the VPN's network, and the time.
pub record Env : Type 0 where
  pub trim_space : Text → Text
  pub is_space : ℕ → Bool
  pub to_lower : Text → Text
  pub ipv6 : Text → Option ℕ
  pub vpn : Network
  pub now : ℕ

pub record Auth : Type 0 where
  pub store : Store
  pub ingoing : Dict Text AuthPeer
  pub outgoing : Dict Text AuthPeer
  -- the `ReceivedAuthRequest` events, the latest first
  pub requests : List (Text × AuthPeer)

-- awldns.TrimDomainName.
unfoldable pub trim_domain_name : Env → Text → Text
trim_domain_name env s =
    env.to_lower (map (λ r. if env.is_space r then 95 else r) (env.trim_space s))

-- `GetPeer` with the zero value for a missing key.
abbrev pub peer_or_zero : Option KnownPeer → KnownPeer
peer_or_zero none = zero_known_peer
peer_or_zero (some p) = p

-- `GenUniqPeerAlias` always returns (Config.Alias.gen_uniq_peer_alias_free).
abbrev pub or_empty : Option Text → Text
or_empty none = []
or_empty (some a) = a

abbrev pub gen_alias : Config → Text → Text → Text
gen_alias c name alias = or_empty (gen_uniq_peer_alias name alias (aliases c.known_peers))

unfoldable pub create_peer_info : Config → KnownPeer → Text → Bool → PeerStatusInfo
create_peer_info c p my_name declined =
    if declined
    then record { name = []; declined = true; allow_using_as_exit_node = false; using_peer_id = [] }
    else record {
      name = my_name;
      declined = false;
      allow_using_as_exit_node = p.we_allow_using_as_exit_node;
      using_peer_id = c.socks5.using_peer_id;
    }

-- Only in memory: the configuration is not saved.
unfoldable pub set_using : Text → Store → Store
set_using id s = record s {
  conf = record s.conf { socks5 = record s.conf.socks5 { using_peer_id = id } };
}

-- The peer after a status that does not decline.
unfoldable pub accepted : Env → Config → KnownPeer → PeerStatusInfo → KnownPeer
unfolding trim_domain_name
accepted env c p info =
    let named : KnownPeer = record p {
      last_seen = env.now;
      name = info.name;
      confirmed = true;
      declined = false;
    } in
    record named {
      domain_name =
          if is_empty p.domain_name
          then trim_domain_name env (peer_display_name named)
          else p.domain_name;
      alias = if is_empty p.alias then gen_alias c info.name p.alias else p.alias;
      allowed_using_as_exit_node = info.allow_using_as_exit_node;
      reported_using_peer_id = info.using_peer_id;
    }

-- The choice of the exit node, behind the update of the peer.
unfoldable pub choose_exit : Text → Bool → Store → Store
unfolding set_using
choose_exit id allowed s =
    let using = s.conf.socks5.using_peer_id in
    if allowed && is_empty using
    then set_using id s
    else if not allowed && using == id
    then set_using [] s
    else s

-- A peer that declines is no exit node any more.
unfoldable pub leave_exit : Text → Store → Store
unfolding set_using
leave_exit id s = if s.conf.socks5.using_peer_id == id then set_using [] s else s

unfoldable pub process_peer_status_info : Env → KnownPeer → PeerStatusInfo → Store → Store
unfolding accepted choose_exit leave_exit
process_peer_status_info env p info s =
    if info.declined
    then leave_exit p.peer_id (upsert_peer (record p { last_seen = env.now; declined = true }) s)
    else choose_exit p.peer_id info.allow_using_as_exit_node
        (upsert_peer (accepted env s.conf p info) s)

pub data Added : Type 0 where
  already_known alias_taken added : Added
  ip_refused : Check → Added

-- The entry that `AddPeer` writes.
unfoldable pub new_peer : Env → Text → Text → Text → Bool → Text → KnownPeer
unfolding trim_domain_name
new_peer env id name alias confirmed ip =
    let p : KnownPeer = record zero_known_peer {
      peer_id = id;
      name = name;
      alias = alias;
      ip_addr = ip;
      confirmed = confirmed;
      created_at = env.now;
    } in
    record p { domain_name = trim_domain_name env (peer_display_name p) }

unfoldable pub insert_peer : KnownPeer → Auth → Auth
insert_peer p a = record a { store = upsert_peer p (remove_blocked_peer p.peer_id a.store) }

-- With an address from the caller, or a generated one.
unfoldable pub add_checked : Env → Text → Text → Text → Bool → Text → Check → Auth → Auth × Added
unfolding new_peer insert_peer
add_checked env id name alias confirmed ip unique a =
    (insert_peer (new_peer env id name alias confirmed ip) a, added)
add_checked env id name alias confirmed ip invalid_ip a = (a, ip_refused invalid_ip)
add_checked env id name alias confirmed ip outside_subnet a = (a, ip_refused outside_subnet)
add_checked env id name alias confirmed ip already_used a = (a, ip_refused already_used)
add_checked env id name alias confirmed ip panics a = (a, ip_refused panics)

abbrev pub chosen_ip : Env → Config → Text → Text
chosen_ip env c ip =
    if is_empty ip then or_empty (generate_next_ip_addr env.ipv6 env.vpn c.known_peers) else ip

abbrev pub ip_check : Env → Config → Text → Text → Check
ip_check env c id ip =
    if is_empty ip then unique else check_ip_unique env.ipv6 env.vpn c.known_peers ip id

-- `AddPeer`, without the goroutine at its end.
unfoldable pub add_peer : Env → Text → Text → Text → Bool → Text → Auth → Auth × Added
unfolding add_checked
add_peer env id name alias confirmed ip a =
    let c = a.store.conf in
    let trimmed = env.trim_space alias in
    if is_some (get_peer c id)
    then (a, already_known)
    else if not (is_uniq_peer_alias c [] trimmed)
    then (a, alias_taken)
    else add_checked env id name trimmed confirmed (chosen_ip env c ip) (ip_check env c id ip) a
