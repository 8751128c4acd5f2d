-- ===== src/DnsService/Current.antt =====
-- application.go with config/config.go and awldns/awldns.go: what the resolver answers to after changes.
use gravil.Base.{
  ◌≡◌, ◌≢◌, ◌↔◌, inl, inr, refl, sym, ap, ◌∙◌, true, false, Option, none, some, List, [], ◌∷◌, Text,
  Dict, text_key, is_some, Bool-cases,
}
use gravil.Addr.{parse_ip}
use gravil.Config.{Config}
use gravil.Dns.{Packages, Mappings}
use gravil.DnsService.{
  DnsService, Os, names_of, tables_of, started, default_upstream_dns_address, and_refreshed,
  new_dns_service, received, refresh_dns_config, set_dns, with_base, configure_os, init_at,
  init_dns, on_changes,
}
use gravil.DnsService.Tables.{IsRange, AreSeparate, Resolves, tables_of-Resolves}

-- The configuration at the last event.
abbrev pub last : Config → List Config → Config
last c [] = c
last c (d ∷ ds) = last d ds

module _ (ns : Packages) (order : Dict Text Text → Dict Text Text) where
  -- The resolver has the tables of the configuration.
  abbrev IsAt : Config → DnsService → Type 0
  IsAt c s = (upstream : Text) × (s.dns_resolver ≡ some (tables_of ns order upstream c))

  refresh-IsAt :
      (c : Config) (s : DnsService) (m : Mappings)
      → s.dns_resolver ≡ some m
      → IsAt c (refresh_dns_config ns order c s)
  unfolding refresh_dns_config
  refresh-IsAt c s m e = (s.upstream_dns, ap (received ns order c s.upstream_dns) e)

  on_changes-IsAt :
      (c : Config) (cs : List Config) (s : DnsService)
      → IsAt c s
      → IsAt (last c cs) (on_changes ns order cs s)
  unfolding on_changes
  on_changes-IsAt c [] s h = h
  on_changes-IsAt c (d ∷ ds) s h =
      on_changes-IsAt d ds (refresh_dns_config ns order d s)
        (refresh-IsAt d s (tables_of ns order h.0 c) h.1)

  -- With an IP address to listen on, the system's configuration ends, and leaves the resolver.
  abbrev Configured : DnsService → Option DnsService → Type 0
  Configured s o = (t : DnsService) × (o ≡ some t) × (t.dns_resolver ≡ s.dns_resolver)

  set_dns-resolver :
      (os : Os) (s : DnsService) → (set_dns ns order os s).dns_resolver ≡ s.dns_resolver
  unfolding set_dns
  set_dns-resolver os s = elim (Bool-cases os.takes_config) [ inl h ↦ simp h | inr h ↦ simp h ]

  with_base-resolver :
      (os : Os) (o : Option (List Text)) (s : DnsService)
      → (with_base ns order os o s).dns_resolver ≡ s.dns_resolver
  unfolding with_base
  with_base-resolver os none s = refl
  with_base-resolver os (some servers) s = set_dns-resolver os _

  configure_os-Configured :
      (os : Os) (host : Text) (s : DnsService)
      → is_some (parse_ip ns.ipv6 host) ≡ true
      → Configured s (configure_os ns order os host s)
  unfolding configure_os
  configure_os-Configured os host s address = elim (Bool-cases os.is_configurable) [
    | inr no_os ↦ simp no_os ((s, refl, refl))
    | inl with_os ↦ elim (Bool-cases os.supports_split_dns) [
      | inl split ↦
          simp (with_os, address, split) ((set_dns ns order os s, refl, set_dns-resolver os s))
      | inr whole ↦
          simp (with_os, address, whole)
            ((
              with_base ns order os os.base_nameservers s,
              refl,
              with_base-resolver os os.base_nameservers s,
            ))
    ]
  ]

  init_at-IsAt :
      (os : Os) (at_start at_end : Config) (host : Text) (s : DnsService)
      → is_some (parse_ip ns.ipv6 host) ≡ true
      → (t : DnsService) × (init_at ns order os at_start at_end (some host) s ≡ some t)
        × IsAt at_end t
  unfolding init_at
  init_at-IsAt os at_start at_end host s address =
      let empty : Mappings = record {
        upstream_dns = [];
        direct_mapping = [];
        reverse_mapping = [];
      } in
      let new : DnsService = record s {
        dns_resolver = some empty;
        upstream_dns = default_upstream_dns_address;
      } in
      let first = started ns order at_start s in
      let at_first = refresh-IsAt at_start new empty refl in
      let done = configure_os-Configured os host first address in
      (
        refresh_dns_config ns order at_end done.0,
        ap (and_refreshed ns order at_end) done.1,
        refresh-IsAt at_end done.0 (tables_of ns order at_first.0 at_start) (done.2 ∙ at_first.1),
      )

-- With an IP address to listen on, `initDNS` returns, and after any later changes the resolver answers
-- for the configuration of the last one: the web server is found under its own name, whatever peers call
-- themselves, every other name of a peer leads to the address of a peer that has it, and no other name
-- is found. The names are such that the resolver tells them apart.
pub init_dns-Resolves :
    (ns : Packages) (order : Dict Text Text → Dict Text Text) (host_of : Text → Option Text)
    (os : Os) (at_start at_end : Config) (cs : List Config) (host : Text)
    → IsRange order
    → host_of at_start.dns.listen_address ≡ some host
    → is_some (parse_ip ns.ipv6 host) ≡ true
    → AreSeparate ns (names_of (last at_end cs))
    → (s : DnsService) × (m : Mappings) × (init_dns ns order host_of os at_start at_end
          new_dns_service
        ≡ some s)
      × ((on_changes ns order cs s).dns_resolver ≡ some m)
      × Resolves ns (last at_end cs) m
unfolding init_dns
init_dns-Resolves ns order host_of os at_start at_end cs host range listens address separate =
    let begun = init_at-IsAt ns order os at_start at_end host new_dns_service address in
    let now = on_changes-IsAt ns order at_end cs begun.0 begun.2 in
    (
      begun.0,
      tables_of ns order now.0 (last at_end cs),
      ap (λ h. init_at ns order os at_start at_end h new_dns_service) listens ∙ begun.1,
      now.1,
      tables_of-Resolves ns order range (last at_end cs) now.0 separate,
    )

module _ (ns : Packages) (order : Dict Text Text → Dict Text Text) (os : Os)
    (at_start at_end : Config) (s : DnsService) where
  -- What makes the start panic.
  abbrev IsBadHost : Text → Type 0
  IsBadHost host = (os.is_configurable ≡ true) × (is_some (parse_ip ns.ipv6 host) ≡ false)

  configure_os_bad :
      (host : Text) (t : DnsService) → IsBadHost host → configure_os ns order os host t ≡ none
  unfolding configure_os
  configure_os_bad host t h = simp (h.0, h.1)

  refreshed_some :
      (t : DnsService) (o : Option DnsService)
      → Configured ns order t o
      → and_refreshed ns order at_end o ≢ none
  refreshed_some t o h e = impossible (sym (ap (and_refreshed ns order at_end) h.1) ∙ e)
    where
      impossible : {x : DnsService} → some x ≡ none → ⊥
      impossible q = cc

  configure_os_good :
      (host : Text) (t : DnsService)
      → os.is_configurable ≡ false
      → Configured ns order t (configure_os ns order os host t)
  unfolding configure_os
  configure_os_good host t h = simp h ((t, refl, refl))

  init_host_bad :
      (host : Text) → (init_at ns order os at_start at_end (some host) s ≡ none) ↔ IsBadHost host
  unfolding init_at
  init_host_bad host =
      let first = started ns order at_start s in
      (
        λ e. elim (Bool-cases os.is_configurable) [
          | inr no_os ↦ absurd (refreshed_some first _ (configure_os_good host first no_os) e)
          | inl with_os ↦ elim (Bool-cases (is_some (parse_ip ns.ipv6 host))) [
            | inl address ↦
                absurd (
                  refreshed_some first _ (configure_os-Configured ns order os host first address) e)
            | inr bad ↦ (with_os, bad)
          ]
        ],
        λ h. ap (and_refreshed ns order at_end) (configure_os_bad host first h),
      )

  -- `initDNS` panics exactly where the system can be configured and the host to listen on, although it
  -- was split off its port, is no IP address, such as `localhost` or an empty host.
  pub init_dns_panics_iff :
      (host_of : Text → Option Text)
      → (init_dns ns order host_of os at_start at_end s ≡ none) ↔ (
          (host : Text) × (host_of at_start.dns.listen_address ≡ some host)
          × (os.is_configurable ≡ true)
          × (is_some (parse_ip ns.ipv6 host) ≡ false))
  unfolding init_dns
  init_dns_panics_iff host_of = (
    λ e. split_off (host_of at_start.dns.listen_address) refl e,
    λ h. ap (λ o. init_at ns order os at_start at_end o s) h.1 ∙ (init_host_bad h.0).1 (h.2, h.3),
  )
    where
      impossible : {x : DnsService} → some x ≡ none → ⊥
      impossible q = cc

      split_off :
          (o : Option Text)
          → host_of at_start.dns.listen_address ≡ o
          → init_at ns order os at_start at_end o s ≡ none
          → (host : Text) × (host_of at_start.dns.listen_address ≡ some host)
            × (os.is_configurable ≡ true)
            × (is_some (parse_ip ns.ipv6 host) ≡ false)
      split_off none h e = absurd (impossible (sym (unfold init_at in refl) ∙ e))
      split_off (some host) h e = let bad = (init_host_bad host).0 e in (host, h, bad.0, bad.1)
