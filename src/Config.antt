-- ===== src/Config.antt =====
-- config/config.go: the configuration, which is also the program's database of peers. Times are
-- numbers (`time.Now()` is an argument), a peer ID is its text form. The read-write lock makes each
-- method one step.
pub mod Peers
pub mod Alias
pub mod Address
pub mod Defaults
pub mod Examples
use gravil.Base.{ℕ, Bool, List, [], Option, none, some, Text, text, Dict}

pub record P2pNodeConfig : Type 0 where
  pub peer_id : Text
  pub name : Text
  pub identity : Text
  pub bootstrap_peers : List Text
  pub ignore_default_bootstrap_peers : Option Bool
  pub listen_addresses : List Text
  pub reconnection_interval_sec : ℕ
  pub auto_accept_auth_requests : Bool
  pub use_dedicated_conn_for_each_stream : Bool
  pub parallel_sending_streams_count : ℕ

pub record VpnConfig : Type 0 where
  pub disable_vpn_interface : Bool
  pub interface_name : Text
  pub ip_net : Text

pub record Socks5Config : Type 0 where
  pub listener_enabled : Bool
  pub proxying_enabled : Bool
  pub listen_address : Text
  pub using_peer_id : Text

pub record DnsConfig : Type 0 where
  pub disable_dns : Bool
  pub listen_address : Text

pub record KnownPeer : Type 0 where
  pub peer_id : Text
  pub name : Text
  pub alias : Text
  pub ip_addr : Text
  pub domain_name : Text
  pub created_at : ℕ
  pub last_seen : ℕ
  pub confirmed : Bool
  pub declined : Bool
  pub we_allow_using_as_exit_node : Bool
  pub allowed_using_as_exit_node : Bool
  pub reported_using_peer_id : Text

pub record BlockedPeer : Type 0 where
  pub peer_id : Text
  pub display_name : Text
  pub created_at : ℕ

pub record UpdateConfig : Type 0 where
  pub lowest_priority_chan : Text
  pub update_server_url : Text
  pub tray_auto_check_enabled : Bool
  pub tray_auto_check_interval : Text

pub record HttpBasicAuthConfig : Type 0 where
  pub username : Text
  pub password : Text

pub record Config : Type 0 where
  pub data_dir : Text
  pub version : Text
  pub logger_level : Text
  pub http_listen_address : Text
  pub http_listen_on_admin_host : Bool
  pub http_basic_auth : HttpBasicAuthConfig
  pub p2p_node : P2pNodeConfig
  pub vpn_config : VpnConfig
  pub socks5 : Socks5Config
  pub dns : DnsConfig
  pub known_peers : Dict Text KnownPeer
  pub blocked_peers : Dict Text BlockedPeer
  pub update : UpdateConfig

-- The configuration with what its methods touch outside it: the file that `save` writes (its
-- content as the configuration that was written) and the number of `KnownPeerChanged` events.
pub record Store : Type 0 where
  pub conf : Config
  pub file : Option Config
  pub emitted : ℕ

abbrev pub default_peer_alias : Text
default_peer_alias = text "peer"

-- The zero value, which a Go map returns for a missing key.
abbrev pub zero_known_peer : KnownPeer
zero_known_peer = record {
  peer_id = [];
  name = [];
  alias = [];
  ip_addr = [];
  domain_name = [];
  created_at = 0;
  last_seen = 0;
  confirmed = Bool.false;
  declined = Bool.false;
  we_allow_using_as_exit_node = Bool.false;
  allowed_using_as_exit_node = Bool.false;
  reported_using_peer_id = [];
}
