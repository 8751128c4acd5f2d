-- ===== src/Socks5/Examples.antt =====
-- service/socks5.go and socks5/: two devices that know each other, and the theorems at them.
use gravil.Base.{
  ℕ, ◌≡◌, ◌↔◌, ◌⊎◌, ◌≤◌, ◌<◌, refl, true, false, Bool, none, some, List, [], ◌∷◌, arith, text,
  text_eq, text_key, get,
}
use gravil.Addr.{v4, v6}
use gravil.Config.{KnownPeer, zero_known_peer}
use gravil.Config.Examples.{conf, laptop}
use gravil.Config.Peers.{get_peer, get_blocked_peer}
use gravil.Auth.{Auth}
use gravil.Auth.Exchange.{is_blocked}
use gravil.Auth.Examples.{env, auth}
use gravil.Auth.Pairing.{exchange, IsPaired, exchange-IsPaired}
use gravil.Api.{done}
use gravil.Api.Settings.{update_proxy_settings}
use gravil.Api.Examples.{store-IsSteady}
use gravil.Socks5.{
  Net, AddrSpec, allow, new_rule_deny_localhost, ip_to4, send_reply, served, no_proxy_peer,
  proxy_conn, proxy_stream_handler,
}
use gravil.Socks5.Access.{IsCarried, proxy_conn-IsCarried, allow-new_rule_deny_localhost}
use gravil.Socks5.Carry.{exchange-carries}
use gravil.Socks5.Replies.{read_reply, dest_of, ip4, read_reply-send_reply}

-- The device of the laptop knows "ME" and lets it use it.
abbrev me : KnownPeer
me = record zero_known_peer {
  peer_id = text "ME";
  alias = text "me";
  we_allow_using_as_exit_node = true;
}

abbrev other : Auth
other = record auth {
  store = record auth.store { conf = record conf { known_peers = (text "ME", me) ∷ [] } };
}

knows_laptop : get_peer auth.store.conf (text "A1") ≡ some laptop
unfolding get_peer get text_eq
knows_laptop = refl

knows_me : get_peer other.store.conf (text "ME") ≡ some me
unfolding get_peer get text_eq
knows_me = refl

laptop_free : is_blocked (text "A1") auth ≡ false
unfolding get_blocked_peer get
laptop_free = refl

me_free : is_blocked (text "ME") other ≡ false
unfolding get_blocked_peer get
me_free = refl

abbrev both : Auth × Auth
both = exchange env env (text "ME") (text "A1") auth other

exchange-IsPaired_example :
    IsPaired (text "ME") (text "A1") other both.0
    × IsPaired (text "A1") (text "ME") auth both.1
    × (get (text "A1") both.0.ingoing ≡ none)
    × (get (text "ME") both.1.outgoing ≡ none)
exchange-IsPaired_example =
    exchange-IsPaired env env (text "ME") (text "A1") auth other laptop me knows_laptop knows_me
      refl refl laptop_free me_free

exchange-carries_example :
    ((update_proxy_settings (some (text "A1")) both.0).1 ≡ done)
    × ((net : Net)
        → IsCarried net
            (text "A1")
            (proxy_conn (update_proxy_settings (some (text "A1")) both.0).0.store.conf net))
    × ((no_auth : Bool)
        → proxy_stream_handler both.1.store.conf no_auth (text "ME") ≡ served no_auth)
exchange-carries_example =
    exchange-carries env env (text "ME") (text "A1") auth other laptop me knows_laptop knows_me refl
      refl laptop_free me_free store-IsSteady refl refl refl

abbrev offline : Net
offline = record { connects = λ id. false; new_stream = λ id. none; local_auth = true }

proxy_conn-IsCarried_example :
    ((proxy_conn conf offline ≡ no_proxy_peer) × (conf.socks5.using_peer_id ≡ []))
    ⊎ IsCarried offline conf.socks5.using_peer_id (proxy_conn conf offline)
proxy_conn-IsCarried_example = proxy_conn-IsCarried auth.store offline store-IsSteady

abbrev loopback6 : AddrSpec
loopback6 = record { fqdn = []; ip = some (v6 1); port = 22 }

allow-new_rule_deny_localhost_example :
    (allow new_rule_deny_localhost (some loopback6) ≡ false)
    ↔ ((a : ℕ) × (ip_to4 loopback6.ip ≡ some a) × (0x7f000000 ≤ a) × (a < 0x80000000))
allow-new_rule_deny_localhost_example = allow-new_rule_deny_localhost loopback6

read_reply-send_reply_example :
    ((bs : List ℕ) × (send_reply 1
          (some (record { fqdn = text "a.b"; ip = some (v4 7); port = 8000 }))
        ≡ some bs)
      × (read_reply bs ≡ some (1, dest_of (text "a.b") (v4 7), 8000)))
    × ((bs : List ℕ) × (send_reply 1 none ≡ some bs) × (read_reply bs ≡ some (1, ip4 0, 0)))
read_reply-send_reply_example =
    read_reply-send_reply 1 8000 (text "a.b") (v4 7) (omega arith) (omega arith) (omega arith)
