-- ===== src/Config/Defaults/Whole.antt =====
-- config/other.go: `setDefaults` as a whole.
use mathlib.Core.List.{Permᴰ}
use gravil.Base.{
  ◌≡◌, refl, ap₂, false, Option, none, some, arith, Text, text, Dict, text_key, text_eq,
  if◌then◌else◌,
}
use gravil.Addr.{Network}
use gravil.Config.{
  Config, KnownPeer, P2pNodeConfig, VpnConfig, Socks5Config, DnsConfig, UpdateConfig,
}
use gravil.Config.Peers.{is_empty}
use gravil.Config.Defaults.{
  System, or_default, valid_subnet, default_vpn_network_subnet, default_p2p_node, default_vpn,
  default_socks5, default_dns, default_update, fill_known_peers, set_defaults,
}
use gravil.Config.Defaults.Order.{fill_peers-Perm}

or_default_again : (d s : Text) → or_default d (or_default d s) ≡ or_default d s
or_default_again d s = ground arith

p2p_node_again : (n : P2pNodeConfig) → default_p2p_node (default_p2p_node n) ≡ default_p2p_node n
unfolding default_p2p_node
p2p_node_again n = ground arith

socks5_again : (s : Socks5Config) → default_socks5 (default_socks5 s) ≡ default_socks5 s
unfolding default_socks5
socks5_again s = ground arith

dns_again : (d : DnsConfig) → default_dns (default_dns d) ≡ default_dns d
unfolding default_dns
dns_again d = ground arith

update_again : (u : UpdateConfig) → default_update (default_update u) ≡ default_update u
unfolding default_update text_eq
update_again u = ground arith

module _ (sys : System) (net : Network)
    (known : sys.parse_cidr default_vpn_network_subnet ≡ some net) where
  subnet_again :
      (s : Text) (o : Option Network)
      → sys.parse_cidr (or_default default_vpn_network_subnet s) ≡ o
      → valid_subnet
          (sys.parse_cidr (
            or_default default_vpn_network_subnet
              (valid_subnet o (or_default default_vpn_network_subnet s))))
          (or_default default_vpn_network_subnet
            (valid_subnet o (or_default default_vpn_network_subnet s)))
        ≡ valid_subnet o (or_default default_vpn_network_subnet s)
  subnet_again s none e = rw known refl
  subnet_again s (some n) e = rw (or_default_again default_vpn_network_subnet s, e) refl

  vpn_again : (v : VpnConfig) → default_vpn sys (default_vpn sys v) ≡ default_vpn sys v
  unfolding default_vpn
  vpn_again v =
      ap₂ (λ (n s : Text). record v { interface_name = n; ip_net = s })
        (or_default_again (if sys.is_darwin then text "utun" else text "awl0") v.interface_name)
        (subnet_again v.ip_net (sys.parse_cidr (or_default default_vpn_network_subnet v.ip_net))
          refl)

  known_again :
      (o : Option Network) (ps qs : Dict Text KnownPeer)
      → Permᴰ (fill_known_peers sys o ps) qs
      → fill_known_peers sys o qs ≡ qs
  unfolding fill_known_peers
  known_again none ps qs d = refl
  known_again (some vpn) ps qs d = fill_peers-Perm sys vpn ps qs d

  -- Where the build has a version and the default network is one that can be read, a second run of
  -- `setDefaults` changes nothing, in whatever order it meets the peers that the first run left.
  pub set_defaults_again :
      (c : Config) (qs : Dict Text KnownPeer)
      → is_empty sys.version ≡ false
      → Permᴰ (set_defaults sys c).known_peers qs
      → set_defaults sys (record (set_defaults sys c) { known_peers = qs })
        ≡ record (set_defaults sys c) { known_peers = qs }
  unfolding set_defaults
  set_defaults_again c qs built reordered =
      let subnet = default_vpn sys c.vpn_config in
      rw
        (
          p2p_node_again c.p2p_node,
          vpn_again c.vpn_config,
          socks5_again c.socks5,
          dns_again c.dns,
          update_again c.update,
          built,
          known_again (sys.parse_cidr subnet.ip_net) c.known_peers qs reordered,
          or_default_again (text "info") c.logger_level,
          or_default_again (text "127.0.0.1:8639") c.http_listen_address,
          or_default_again sys.app_data_dir c.data_dir,
        )
        refl
