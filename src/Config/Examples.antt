-- ===== src/Config/Examples.antt =====
-- config/config.go and config/network_addr.go: a configuration with one peer, and the theorems at it.
use gravil.Base.{
  ℕ, ◌≡◌, ◌<◌, ◌⊎◌, refl, true, false, none, some, List, [], ◌∷◌, arith, Text, text, get, put,
  text_eq, text_key, text_eq_iff, elem,
}
use gravil.Addr.{show_ip}
use gravil.Config.{Config, Store, KnownPeer, zero_known_peer}
use gravil.Config.Peers.{get_peer, dns_names_mapping}
use gravil.Config.Peers.Laws.{call, remove, view, IsKeyed, get_peer-call}
use gravil.Config.Alias.{gen_uniq_peer_alias, numbered, gen_uniq_peer_alias_free}

abbrev pub laptop : KnownPeer
laptop = record zero_known_peer {
  peer_id = text "A1";
  name = text "laptop";
  alias = text "laptop";
  ip_addr = show_ip 0x0a420002;
  domain_name = text "laptop";
}

abbrev pub conf : Config
conf = record {
  data_dir = [];
  version = [];
  logger_level = [];
  http_listen_address = [];
  http_listen_on_admin_host = false;
  http_basic_auth = record { username = []; password = [] };
  p2p_node = record {
    peer_id = text "ME";
    name = text "me";
    identity = [];
    bootstrap_peers = [];
    ignore_default_bootstrap_peers = none;
    listen_addresses = [];
    reconnection_interval_sec = 10;
    auto_accept_auth_requests = false;
    use_dedicated_conn_for_each_stream = false;
    parallel_sending_streams_count = 1;
  };
  vpn_config = record { disable_vpn_interface = false; interface_name = []; ip_net = [] };
  socks5 = record {
    listener_enabled = true;
    proxying_enabled = true;
    listen_address = [];
    using_peer_id = [];
  };
  dns = record { disable_dns = false; listen_address = [] };
  known_peers = (text "A1", laptop) ∷ [];
  blocked_peers = [];
  update = record {
    lowest_priority_chan = [];
    update_server_url = [];
    tray_auto_check_enabled = false;
    tray_auto_check_interval = [];
  };
}

abbrev pub store : Store
store = record { conf = conf; file = some conf; emitted = 0 }

get_peer-call_example :
    get_peer (call 7 (remove (text "A1")) store).conf (text "A1")
    ≡ view 7 (remove (text "A1")) store (text "A1")
get_peer-call_example = get_peer-call 7 (remove (text "A1")) store (text "A1")

pub store-IsKeyed : IsKeyed store
unfolding get_peer get
store-IsKeyed k p e = ground (arith, text_eq_iff (text "A1") k)

abbrev laptop_ip : Text
laptop_ip = show_ip 0x0a420002

maps_laptop : get (text "laptop") (dns_names_mapping conf) ≡ some laptop_ip
unfolding dns_names_mapping get put text_eq
maps_laptop = refl

abbrev laptops : List Text
laptops = text "laptop" ∷ text "laptop_0" ∷ []

gen_uniq_peer_alias_free_example :
    (a : Text) × (gen_uniq_peer_alias (text "laptop") [] laptops ≡ some a)
    × (elem a laptops ≡ false)
    × ((a ≡ text "laptop")
        ⊎ ((i : ℕ) × (a ≡ numbered (text "laptop") i)
            × (elem (text "laptop") laptops ≡ true)
            × ((k : ℕ) → k < i → elem (numbered (text "laptop") k) laptops ≡ true)))
gen_uniq_peer_alias_free_example = gen_uniq_peer_alias_free (text "laptop") [] laptops
