-- ===== src/DnsService.antt =====
-- application.go: `DNSService`, which keeps the resolver's tables at the names of the configuration and
-- makes the resolver the system's. `none` is a panic. The operating system's part (the package behind
-- `dns.NewOSConfigurator`) is an input.
mod Tables
mod Current
mod Examples
use gravil.Base.{
  ℕ, Bool, true, false, not, Option, none, some, List, [], ◌∷◌, Text, text, Dict, put, text_key,
  if◌then◌else◌, is_some,
}
use gravil.Addr.{parse_ip}
use gravil.Config.{Config}
use gravil.Config.Peers.{dns_names_mapping}
use gravil.Dns.{Packages, Mappings, receive_configuration}
use gravil.P2p.Connections.{join_host_port}

abbrev pub admin_http_server_domain_name : Text
admin_http_server_domain_name = text "admin"

abbrev pub admin_http_server_ip : Text
admin_http_server_ip = text "127.0.0.66"

abbrev pub default_upstream_dns_address : Text
default_upstream_dns_address = text "1.1.1.1:53"

abbrev pub default_dns_port : Text
default_dns_port = text "53"

pub record DnsService : Type 0 where
  pub dns_resolver : Option Mappings
  pub upstream_dns : Text
  pub is_awl_dns_set_as_system : Bool

abbrev pub new_dns_service : DnsService
new_dns_service = record {
  dns_resolver = none;
  upstream_dns = [];
  is_awl_dns_set_as_system = false;
}

-- What the operating system answers: whether it can be configured, whether it can send the queries of
-- one domain only to a server, its name servers where they can be read, and whether it takes the new
-- configuration.
pub record Os : Type 0 where
  pub is_configurable : Bool
  pub supports_split_dns : Bool
  pub base_nameservers : Option (List Text)
  pub takes_config : Bool

-- The names of the peers, and the one of the web server, which replaces a peer's.
unfoldable pub names_of : Config → Dict Text Text
unfolding dns_names_mapping
names_of c = put admin_http_server_domain_name admin_http_server_ip (dns_names_mapping c)

-- `order` is the order in which the loop of `ReceiveConfiguration` meets the names.
module _ (ns : Packages) (order : Dict Text Text → Dict Text Text) where
  abbrev pub tables_of : Text → Config → Mappings
  tables_of upstream c = receive_configuration ns upstream (order (names_of c))

  abbrev pub received : Config → Text → Option Mappings → Option Mappings
  received c upstream none = none
  received c upstream (some m) = some (tables_of upstream c)

  -- `refreshDNSConfig`.
  unfoldable pub refresh_dns_config : Config → DnsService → DnsService
  unfolding names_of
  refresh_dns_config c s = record s { dns_resolver = received c s.upstream_dns s.dns_resolver }

  -- `SetDNS` and what is kept of its result.
  unfoldable pub set_dns : Os → DnsService → DnsService
  set_dns os s = if os.takes_config then record s { is_awl_dns_set_as_system = true } else s

  abbrev pub upstream_of : List Text → Text
  upstream_of [] = default_upstream_dns_address
  upstream_of (n ∷ ns) = join_host_port n default_dns_port

  -- The name servers of the system become the upstream, where they can be read.
  unfoldable pub with_base : Os → Option (List Text) → DnsService → DnsService
  unfolding set_dns join_host_port
  with_base os none s = s
  with_base os (some servers) s = set_dns os (record s { upstream_dns = upstream_of servers })

  -- `MustParseAddr` panics for a host that is no IP address.
  unfoldable pub configure_os : Os → Text → DnsService → Option DnsService
  unfolding with_base
  configure_os os host s =
      if not os.is_configurable
      then some s
      else if not (is_some (parse_ip ns.ipv6 host))
      then none
      else if os.supports_split_dns
      then some (set_dns os s)
      else some (with_base os os.base_nameservers s)

  abbrev pub and_refreshed : Config → Option DnsService → Option DnsService
  and_refreshed c none = none
  and_refreshed c (some s) = some (refresh_dns_config c s)

  -- The new resolver, after its first refresh.
  abbrev pub started : Config → DnsService → DnsService
  started at_start s = refresh_dns_config at_start (record s {
    dns_resolver = some (record { upstream_dns = []; direct_mapping = []; reverse_mapping = [] });
    upstream_dns = default_upstream_dns_address;
  })

  -- The deferred refresh sees the configuration of its own time.
  unfoldable pub init_at : Os → Config → Config → Option Text → DnsService → Option DnsService
  unfolding configure_os refresh_dns_config
  init_at os at_start at_end none s = some s
  init_at os at_start at_end (some host) s =
      and_refreshed at_end (configure_os os host (started at_start s))

  -- `initDNS`; `host_of` is the host of `net.SplitHostPort`.
  unfoldable pub init_dns :
      (Text → Option Text) → Os → Config → Config → DnsService → Option DnsService
  unfolding init_at
  init_dns host_of os at_start at_end s =
      init_at os at_start at_end (host_of at_start.dns.listen_address) s

  -- The subscription to `KnownPeerChanged`: the configurations at the events, in their order.
  unfoldable pub on_changes : List Config → DnsService → DnsService
  unfolding refresh_dns_config
  on_changes [] s = s
  on_changes (c ∷ cs) s = on_changes cs (refresh_dns_config c s)
