-- ===== src/Api/Examples.antt =====
-- api/peers.go and api/settings.go: requests to a device that knows one peer, and the theorems at them.
use gravil.Base.{
  false, ◌≡◌, inl, refl, ap, true, none, some, [], ◌∷◌, arith, text, text_eq, text_eq_iff, text_key,
  get,
}
use gravil.Addr.{contains, show_ip}
use gravil.Addr.RoundTrip.{parse_ip4-show_ip}
use gravil.Config.Examples.{conf, store, laptop, store-IsKeyed}
use gravil.Config.Peers.{get_peer}
use gravil.Config.Address.{max_ip, raise}
use gravil.Config.Address.Next.{top}
use gravil.Protocol.{AuthPeer}
use gravil.Auth.{Auth}
use gravil.Auth.Exchange.{auth_stream_handler}
use gravil.Auth.Steady.{IsSteady}
use gravil.Auth.Examples.{env, auth}
use gravil.Api.{Packages, UpdatePeerSettingsRequest, update_peer_settings, suggest, remove_peer}
use gravil.Api.Settings.{update_my_settings}
use gravil.Api.Steps.{here, later, asked, renamed, Reach-IsSteady}
use gravil.Api.Answers.{IsUpdated, update_peer_settings-IsUpdated}
use gravil.Api.Gaps.{remove_peer_keeps_using, exchange_new_status_info_removed}
use gravil.Auth.Exchange.{is_blocked, exchange_begun, exchange_new_status_info}
use gravil.Auth.Stored.{updated}
use gravil.Protocol.{PeerStatusInfo}
use gravil.Config.{zero_known_peer}
use gravil.Config.Peers.{get_blocked_peer}
use gravil.Api.Suggest.{IsFreshList, suggest-IsFreshList}

-- Every text is an ID and a domain name.
abbrev pub lenient : Packages
lenient = record { decode = λ s. some s; is_domain_name = λ s. true }

-- Every text is a spelling of the device's own ID.
abbrev guest : AuthPeer
guest = record { name = text "guest" }

pub store-IsSteady : IsSteady store
unfolding get_peer get
store-IsSteady = record {
  exit = inl refl;
  keyed = store-IsKeyed;
  apart = λ j p e k q j0 k0 jk f same.
      jk (ground (arith, e, f, text_eq_iff (text "A1") j, text_eq_iff (text "A1") k));
}

Reach-IsSteady_example :
    IsSteady
      (update_my_settings
        (some (text "home"))
        (auth_stream_handler env (text "B2") (some guest) auth).0).0.store
Reach-IsSteady_example =
    Reach-IsSteady {a = auth} store-IsSteady
      (later (later here (asked env (text "B2") (some guest))) (renamed (some (text "home"))))

abbrev settings : UpdatePeerSettingsRequest
settings = record {
  peer_id = text "A1";
  alias = text "desk";
  domain_name = text "desk";
  ip_addr = show_ip 0x0a420005;
  allow_using_as_exit_node = true;
}

update_peer_settings-IsUpdated_example :
    IsUpdated env lenient settings auth (update_peer_settings env lenient (some settings) auth)
update_peer_settings-IsUpdated_example = update_peer_settings-IsUpdated env lenient settings auth

abbrev through_laptop : Auth
through_laptop = record auth {
  store = record store {
    conf = record conf { socks5 = record conf.socks5 { using_peer_id = text "A1" } };
  };
}

laptop_known : get_peer through_laptop.store.conf (text "A1") ≡ some laptop
unfolding get_peer get text_eq
laptop_known = refl

laptop_there : get_peer auth.store.conf (text "A1") ≡ some laptop
unfolding get_peer get text_eq
laptop_there = refl

laptop_welcome : is_blocked (text "A1") auth ≡ false
unfolding get_blocked_peer get
laptop_welcome = refl

abbrev hello : PeerStatusInfo
hello = record {
  name = text "laptop";
  declined = false;
  allow_using_as_exit_node = true;
  using_peer_id = [];
}

exchange_new_status_info_removed_example :
    let remove = λ (b : Auth). (remove_peer env lenient (some (text "A1")) b).0 in
    let b = exchange_new_status_info env (text "A1") remove (some hello) auth in
    (get_peer b.store.conf []
      ≡ some
          (updated env (remove (exchange_begun (text "A1") auth)).store.conf zero_known_peer hello))
    × (get_peer b.store.conf (text "A1") ≡ none)
    × (is_blocked (text "A1") (remove (exchange_begun (text "A1") auth)) ≡ true)
exchange_new_status_info_removed_example =
    exchange_new_status_info_removed env lenient (text "A1") laptop hello auth refl refl
      laptop_there laptop_welcome

remove_peer_keeps_using_example :
    ((remove_peer env lenient (some (text "A1")) through_laptop).0.store.conf.socks5.using_peer_id
      ≡ text "A1")
    × (get_peer (remove_peer env lenient (some (text "A1")) through_laptop).0.store.conf (text "A1")
        ≡ none)
remove_peer_keeps_using_example =
    remove_peer_keeps_using env lenient (text "A1") (text "A1") laptop through_laptop refl refl
      laptop_known refl

top_laptop : top env.ipv6 env.vpn conf.known_peers [] ≡ 0x0a420002
unfolding max_ip raise contains
top_laptop = ap (raise env.vpn 0x0a420001) (parse_ip4-show_ip env.ipv6 0x0a420002 (omega arith))

suggest-IsFreshList_example :
    IsFreshList env conf.known_peers []
      (suggest env conf.known_peers [] (text "B2" ∷ text "C3" ∷ []))
suggest-IsFreshList_example =
    suggest-IsFreshList env conf.known_peers (text "B2" ∷ text "C3" ∷ [])
      (omega (arith, top_laptop))
