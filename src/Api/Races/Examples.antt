-- ===== src/Api/Races/Examples.antt =====
-- Requests that meet in the middle of `UpdatePeerSettings`.
use gravil.Base.{
  ◌≡◌, ◌≢◌, refl, true, false, none, some, [], ◌∷◌, text, text_eq, text_key, text_eq_iff, get, put,
  delete, is_some, Text,
}
use gravil.Addr.{
  parse_ip, parse_ipv4, parse_fields, parse_as, form, contains, to4, show_ip, parse_ip4,
}
use gravil.Config.{KnownPeer}
use gravil.Config.Examples.{conf, store, laptop}
use gravil.Config.Peers.{
  get_peer, get_blocked_peer, upsert_peer, upsert_blocked_peer, save, emit, set_known, set_blocked,
}
use gravil.Config.Peers
use gravil.Config.Alias.{is_uniq_peer_alias, is_uniq_from}
use gravil.Config.Address.{unique, check_ip_unique, check_parsed, check_as4, check_peers}
use gravil.Auth.{Auth, trim_domain_name}
use gravil.Auth.Exchange.{block_peer}
use gravil.Auth.Distinct.{HasDistinctAliases}
use gravil.Auth.Examples.{env, auth}
use gravil.Api.{
  UpdatePeerSettingsRequest, done, is_valid_settings, is_valid_domain_name, resettled,
  settings_checked, remove_peer, remove_decoded, block_removed,
}
use gravil.Api.Examples.{lenient}
use gravil.Api.Races.{
  settings_read, settings_write, settings_write_same_alias, settings_write_restores,
}

abbrev phone : KnownPeer
phone = record laptop { peer_id = text "B2"; alias = text "phone"; ip_addr = text "10.66.0.3" }

abbrev both : Auth
both = record auth {
  store = record store {
    conf = record conf { known_peers = (text "A1", laptop) ∷ (text "B2", phone) ∷ [] };
  };
}

-- Each peer is to be called `tv`, with a free address.
abbrev call_it_tv : Text → Text → UpdatePeerSettingsRequest
call_it_tv id ip = record {
  peer_id = id;
  alias = text "tv";
  domain_name = text "tv";
  ip_addr = ip;
  allow_using_as_exit_node = false;
}

abbrev first : UpdatePeerSettingsRequest
first = call_it_tv (text "A1") (text "10.66.0.4")

abbrev second : UpdatePeerSettingsRequest
second = call_it_tv (text "B2") (text "10.66.0.5")

first_read : settings_read env lenient first both ≡ some (laptop, text "tv")
unfolding settings_read is_valid_settings is_valid_domain_name is_uniq_peer_alias is_uniq_from
    get_peer get text_eq trim_domain_name parse_ip parse_ipv4 parse_fields parse_as form parse_ip4
first_read = refl

second_read : settings_read env lenient second both ≡ some (phone, text "tv")
unfolding settings_read is_valid_settings is_valid_domain_name is_uniq_peer_alias is_uniq_from
    get_peer get text_eq trim_domain_name parse_ip parse_ipv4 parse_fields parse_as form parse_ip4
second_read = refl

first_passes :
    check_ip_unique env.ipv6 env.vpn both.store.conf.known_peers first.ip_addr laptop.peer_id
    ≡ unique
unfolding check_ip_unique check_parsed check_as4 check_peers text_eq contains parse_ip parse_ipv4
    parse_fields parse_as form to4 show_ip
first_passes = refl

second_passes :
    check_ip_unique env.ipv6 env.vpn
      (settings_write env first (laptop, text "tv") both).0.store.conf.known_peers
      second.ip_addr
      phone.peer_id
    ≡ unique
unfolding check_ip_unique check_parsed check_as4 check_peers text_eq contains parse_ip parse_ipv4
    parse_fields parse_as form to4 show_ip settings_write settings_checked upsert_peer save emit
    set_known put
second_passes = refl

apart : text "A1" ≢ text "B2"
unfolding text_eq
apart e = cc ((text_eq_iff (text "A1") (text "B2")).1 e)

settings_write_same_alias_example :
    ((settings_write env first (laptop, text "tv") both).1 ≡ done)
    × ((settings_write env second
          (phone, text "tv")
          (settings_write env first (laptop, text "tv") both).0).1
        ≡ done)
    × (¬ HasDistinctAliases
        (settings_write env second
          (phone, text "tv")
          (settings_write env first (laptop, text "tv") both).0).0.store)
settings_write_same_alias_example =
    settings_write_same_alias env lenient first second laptop phone (text "tv") both first_read
      second_read apart (λ e. cc) (λ e. cc) first_passes second_passes

alone_passes :
    check_ip_unique env.ipv6 env.vpn
      (remove_peer env lenient (some (text "A1")) both).0.store.conf.known_peers
      first.ip_addr
      laptop.peer_id
    ≡ unique
unfolding check_ip_unique check_parsed check_as4 check_peers text_eq contains parse_ip parse_ipv4
    parse_fields parse_as form to4 show_ip remove_peer remove_decoded block_removed block_peer
    Peers.remove_peer upsert_blocked_peer save emit set_known set_blocked get_peer get delete
alone_passes = refl

settings_write_restores_example :
    let removed = (remove_peer env lenient (some (text "A1")) both).0 in
    let after = settings_write env first (laptop, text "tv") removed in
    (get_peer removed.store.conf (text "A1") ≡ none)
    × (after.1 ≡ done)
    × (get_peer after.0.store.conf (text "A1") ≡ some (resettled laptop first (text "tv")))
    × (is_some (get_blocked_peer after.0.store.conf (text "A1")) ≡ true)
settings_write_restores_example =
    settings_write_restores env lenient first laptop (text "tv") both first_read refl refl
      alone_passes
