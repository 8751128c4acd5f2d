-- ===== src/DnsService/Examples.antt =====
-- application.go: a device that starts its DNS service and comes to know a peer.
use gravil.Base.{
  ◌≡◌, ◌↔◌, refl, true, false, Option, none, some, [], ◌∷◌, Text, text, text_key, Dict, is_some,
}
use mathlib.Core.List.{append_cancel_right}
use gravil.Addr.{parse_ip, parse_ipv4, parse_fields, parse_as, form}
use gravil.Config.{Config}
use gravil.Config.Examples.{conf}
use gravil.Dns.{Packages, Mappings}
use gravil.DnsService.{DnsService, Os, new_dns_service, names_of, init_dns, on_changes}
use gravil.DnsService.Tables.{AreSeparate, Resolves}
use gravil.DnsService.Current.{init_dns-Resolves, init_dns_panics_iff}

abbrev lower : Packages
lower = record { canonical_name = λ s. s; to_lower = λ s. s; ipv6 = λ s. none }

abbrev in_order : Dict Text Text → Dict Text Text
in_order m = m

-- A Linux device without split DNS.
abbrev linux : Os
linux = record {
  is_configurable = true;
  supports_split_dns = false;
  base_nameservers = some (text "192.168.1.1" ∷ []);
  takes_config = true;
}

abbrev alone : Config
alone = record conf { known_peers = [] }

abbrev on_port_53 : Text → Option Text
on_port_53 s = some (text "127.0.0.66")

abbrev on_localhost : Text → Option Text
on_localhost s = some (text "localhost")

listens_on_ip : is_some (parse_ip lower.ipv6 (text "127.0.0.66")) ≡ true
unfolding parse_ip parse_ipv4 parse_fields parse_as form
listens_on_ip = refl

localhost_is_no_ip : is_some (parse_ip lower.ipv6 (text "localhost")) ≡ false
unfolding parse_ip parse_as form
localhost_is_no_ip = refl

separate : AreSeparate lower (names_of conf)
separate k j a b h g e = append_cancel_right k j (text ".awl") e

init_dns-Resolves_example :
    (s : DnsService) × (m : Mappings) × (init_dns lower in_order on_port_53 linux alone alone
        new_dns_service
      ≡ some s)
    × ((on_changes lower in_order (conf ∷ []) s).dns_resolver ≡ some m)
    × Resolves lower conf m
init_dns-Resolves_example =
    init_dns-Resolves lower in_order on_port_53 linux alone alone (conf ∷ []) (text "127.0.0.66")
      (record { distinct = λ m d. d; held = λ m k. refl }) refl listens_on_ip separate

init_dns_panics_iff_example :
    (init_dns lower in_order on_localhost linux alone alone new_dns_service ≡ none) ↔ (
      (host : Text) × (on_localhost alone.dns.listen_address ≡ some host)
      × (linux.is_configurable ≡ true)
      × (is_some (parse_ip lower.ipv6 host) ≡ false))
init_dns_panics_iff_example =
    init_dns_panics_iff lower in_order linux alone alone new_dns_service on_localhost

localhost_panics : init_dns lower in_order on_localhost linux alone alone new_dns_service ≡ none
localhost_panics =
    (init_dns_panics_iff lower in_order linux alone alone new_dns_service on_localhost).1
      (text "localhost", refl, refl, localhost_is_no_ip)
