-- ===== src/Config/Defaults.antt =====
-- config/other.go: `setDefaults`, which completes a configuration that was read from a file. A nil
-- list or map is empty here. The event emitter and the directories are left out.
pub mod Aliases
pub mod Again
pub mod Order
pub mod Whole
mod Examples
use gravil.Base.{
  ℕ, ◌+◌, Bool, true, false, not, ◌&&◌, ◌||◌, Option, none, some, List, [], ◌∷◌, ◌++◌, Text, text,
  Dict, ◌==◌, text_key, eqb, if◌then◌else◌, text_eq,
}
use gravil.Addr.{Network}
use gravil.Config.{
  Config, KnownPeer, P2pNodeConfig, VpnConfig, Socks5Config, DnsConfig, UpdateConfig,
}
use gravil.Config.Peers.{is_empty, peer_display_name}
use gravil.Config.Alias.{aliases, gen_uniq_peer_alias}
use gravil.Config.Address.{generate_next_ip_addr}

-- What the build and the system give: the version of the build, `runtime.GOOS`, the data directory,
-- `net.ParseCIDR` (as the IPv4 network with its address, if it is one), `net.ParseIP` on IPv6
-- texts, and `TrimDomainName`.
pub record System : Type 0 where
  pub version : Text
  pub is_darwin : Bool
  pub app_data_dir : Text
  pub parse_cidr : Text → Option Network
  pub ipv6 : Text → Option ℕ
  pub trim_domain_name : Text → Text

abbrev pub default_vpn_network_subnet : Text
default_vpn_network_subnet = text "10.66.0.1/24"

abbrev pub or_default : Text → Text → Text
or_default d s = if is_empty s then d else s

abbrev pub or_number : ℕ → ℕ → ℕ
or_number d n = if eqb n 0 then d else n

unfoldable pub default_p2p_node : P2pNodeConfig → P2pNodeConfig
default_p2p_node n = record n {
  reconnection_interval_sec = or_number 20 n.reconnection_interval_sec;
  parallel_sending_streams_count = or_number 1 n.parallel_sending_streams_count;
}

abbrev pub valid_subnet : Option Network → Text → Text
valid_subnet none s = default_vpn_network_subnet
valid_subnet (some n) s = s

unfoldable pub default_vpn : System → VpnConfig → VpnConfig
default_vpn sys v =
    let subnet = or_default default_vpn_network_subnet v.ip_net in
    record v {
      ip_net = valid_subnet (sys.parse_cidr subnet) subnet;
      interface_name =
          or_default (if sys.is_darwin then text "utun" else text "awl0") v.interface_name;
    }

-- The comparison with the zero value of the struct.
abbrev pub is_zero_socks5 : Socks5Config → Bool
is_zero_socks5 s =
    not s.listener_enabled
    && not s.proxying_enabled
    && is_empty s.listen_address
    && is_empty s.using_peer_id

unfoldable pub default_socks5 : Socks5Config → Socks5Config
default_socks5 s = record s {
  listener_enabled = is_zero_socks5 s || s.listener_enabled;
  proxying_enabled = is_zero_socks5 s || s.proxying_enabled;
  listen_address = or_default (text "127.0.0.1:10808") s.listen_address;
}

unfoldable pub default_dns : DnsConfig → DnsConfig
default_dns d = record d { listen_address = or_default (text "127.0.0.66:53") d.listen_address }

unfoldable pub default_update : UpdateConfig → UpdateConfig
default_update u = record u {
  update_server_url =
      if is_empty u.update_server_url || u.update_server_url == text "http://example/example.json"
      then text "https://build.anywherelan.com/repository/releases.json"
      else u.update_server_url;
  tray_auto_check_enabled =
      (not u.tray_auto_check_enabled && is_empty u.tray_auto_check_interval)
      || u.tray_auto_check_enabled;
  tray_auto_check_interval =
      if is_empty u.tray_auto_check_interval || u.tray_auto_check_interval == text "24h"
      then text "8h"
      else u.tray_auto_check_interval;
}

abbrev pub or_old : Text → Option Text → Text
or_old s none = s
or_old s (some t) = t

-- One peer: `used` are the aliases of the peers before it, `table` all peers as they are by now. The
-- generators always return (Alias.gen_uniq_peer_alias_free, Defaults.Again.generates).
unfoldable pub fill_peer :
    System → Network → List Text → Dict Text KnownPeer → KnownPeer → KnownPeer
fill_peer sys vpn used table p =
    let named : KnownPeer = record p {
      alias = or_old p.alias (gen_uniq_peer_alias p.name p.alias used);
      ip_addr =
          if is_empty p.ip_addr
          then or_old p.ip_addr (generate_next_ip_addr sys.ipv6 vpn table)
          else p.ip_addr;
    } in
    record named {
      domain_name = or_default (sys.trim_domain_name (peer_display_name named)) p.domain_name;
    }

-- The loop over the peers. Each is written back at its place; `uniqAliases` are the aliases of those
-- before it.
unfoldable pub fill_peers :
    System → Network → Dict Text KnownPeer → Dict Text KnownPeer → Dict Text KnownPeer
unfolding fill_peer
fill_peers sys vpn before [] = before
fill_peers sys vpn before ((id, p) ∷ ps) =
    fill_peers sys vpn
      (before ++ (id, fill_peer sys vpn (aliases before) (before ++ (id, p) ∷ ps) p) ∷ []) ps

-- The network for the new addresses; after `default_vpn` there is one.
unfoldable pub fill_known_peers :
    System → Option Network → Dict Text KnownPeer → Dict Text KnownPeer
unfolding fill_peers
fill_known_peers sys none ps = ps
fill_known_peers sys (some vpn) ps = fill_peers sys vpn [] ps

unfoldable pub set_defaults : System → Config → Config
set_defaults sys c =
    let vpn = default_vpn sys c.vpn_config in
    record c {
      version = sys.version;
      p2p_node = default_p2p_node c.p2p_node;
      logger_level = or_default (text "info") c.logger_level;
      http_listen_address = or_default (text "127.0.0.1:8639") c.http_listen_address;
      http_listen_on_admin_host = is_empty c.version || c.http_listen_on_admin_host;
      vpn_config = vpn;
      socks5 = default_socks5 c.socks5;
      dns = default_dns c.dns;
      known_peers = fill_known_peers sys (sys.parse_cidr vpn.ip_net) c.known_peers;
      data_dir = or_default sys.app_data_dir c.data_dir;
      update = default_update c.update;
    }
