-- ===== src/Socks5/Carry.antt =====
-- service/socks5.go with service/auth_status.go and api/settings.go, on two devices: from the exchange
-- of status to the connection that leaves through the other device.
use gravil.Base.{
  ◌≡◌, inl, inr, refl, sym, ap, ◌∙◌, subst, Bool, true, false, ◌||◌, Option, some, arith, Text,
  text_key,
}
use gravil.Config.{Config, Store, KnownPeer}
use gravil.Config.Peers.{is_empty, get_peer, upsert_peer, save, emit, set_known}
use gravil.Protocol.{PeerStatusInfo}
use gravil.Auth.{
  Env, Auth, accepted, choose_exit, leave_exit, set_using, peer_or_zero, process_peer_status_info,
}
use gravil.Auth.Exchange.{
  is_blocked, process_status, status_received, status_stream_handler, exchange_begun,
  exchange_new_status_info,
}
use gravil.Auth.Stored.{updated}
use gravil.Auth.Steady.{IsSteady}
use gravil.Auth.Handlers.{exchange_answered-IsSteady, exchange_begun-IsSteady}
use gravil.Auth.Pairing.{
  own_status, exchange, IsPaired, exchange-IsPaired, status_stream_handler-stores,
}
use gravil.Api.{Reply, done}
use gravil.Api.Settings.{set_proxy_peer_id, proxy_of, update_proxy_settings}
use gravil.Api.Steady.{update_proxy_settings-IsSteady}
use gravil.Socks5.{Net, served, proxy_conn, proxy_stream_handler}
use gravil.Socks5.Access.{may_use, proxy_stream_handler_iff, IsCarried, proxy_conn-IsCarried}

updated-keeps :
    (env : Env) (c : Config) (p : KnownPeer) (info : PeerStatusInfo)
    → (updated env c p info).we_allow_using_as_exit_node ≡ p.we_allow_using_as_exit_node
unfolding accepted
updated-keeps env c p info = ground arith

process-proxying :
    (env : Env) (p : KnownPeer) (info : PeerStatusInfo) (s : Store)
    → (process_peer_status_info env p info s).conf.socks5.proxying_enabled
      ≡ s.conf.socks5.proxying_enabled
unfolding process_peer_status_info choose_exit leave_exit set_using upsert_peer save emit set_known
process-proxying env p info s = ground arith

status_stream_handler-proxying :
    (env : Env) (id : Text) (info : PeerStatusInfo) (a : Auth)
    → (status_stream_handler env id (some info) a).0.store.conf.socks5.proxying_enabled
      ≡ a.store.conf.socks5.proxying_enabled
unfolding status_stream_handler status_received process_status
status_stream_handler-proxying env id info a =
    ground (arith, process-proxying env (peer_or_zero (get_peer a.store.conf id)) info a.store)

or_true : (b : Bool) → b || true ≡ true
or_true true = refl
or_true false = refl

chosen :
    (id : Text) (p : KnownPeer) (a : Auth)
    → get_peer a.store.conf id ≡ some p
    → p.allowed_using_as_exit_node ≡ true
    → update_proxy_settings (some id) a ≡ (record a { store = set_proxy_peer_id id a.store }, done)
unfolding update_proxy_settings proxy_of
chosen id p a known allowed = simp (known, allowed, or_true (is_empty id)) refl

set_proxy_peer_id-using :
    (id : Text) (s : Store) → (set_proxy_peer_id id s).conf.socks5.using_peer_id ≡ id
unfolding set_proxy_peer_id set_using save
set_proxy_peer_id-using id s = refl

exchanged-IsSteady :
    (env : Env) (id : Text) (answer : Option PeerStatusInfo) (a : Auth)
    → IsSteady a.store
    → IsSteady (exchange_new_status_info env id (λ b. b) answer a).store
unfolding exchange_new_status_info
exchanged-IsSteady env id answer a h =
    exchange_answered-IsSteady env id (is_blocked id a) answer (exchange_begun id a)
      (exchange_begun-IsSteady id a h)

module _ (env_x env_y : Env) (x y : Text) (here there : Auth) (p q : KnownPeer)
    (x_knows : get_peer here.store.conf y ≡ some p) (y_knows : get_peer there.store.conf x ≡ some q)
    (x_keyed : p.peer_id ≡ y) (y_keyed : q.peer_id ≡ x) (x_free : is_blocked y here ≡ false)
    (y_free : is_blocked x there ≡ false) (steady : IsSteady here.store)
    (named : is_empty y ≡ false) (allows_x : q.we_allow_using_as_exit_node ≡ true)
    (enabled : there.store.conf.socks5.proxying_enabled ≡ true) where
  abbrev after : Auth × Auth
  after = exchange env_x env_y x y here there

  pair : IsPaired x y there after.0
  pair =
      (exchange-IsPaired env_x env_y x y here there p q x_knows y_knows x_keyed y_keyed x_free
        y_free).0

  picked :
      update_proxy_settings (some y) after.0
      ≡ (record after.0 { store = set_proxy_peer_id y after.0.store }, done)
  picked = chosen y pair.entry after.0 pair.stored (
      pair.exit_node
      ∙ ap (λ (o : Option KnownPeer). (peer_or_zero o).we_allow_using_as_exit_node) y_knows
      ∙ allows_x)

  abbrev settled : Store
  settled = (update_proxy_settings (some y) after.0).0.store

  settled-using : settled.conf.socks5.using_peer_id ≡ y
  settled-using =
      ap (λ (r : Auth × Reply). r.0.store.conf.socks5.using_peer_id) picked
      ∙ set_proxy_peer_id-using y after.0.store

  carried : (net : Net) → IsCarried net y (proxy_conn settled.conf net)
  carried net =
      subst (λ id. IsCarried net id (proxy_conn settled.conf net)) settled-using
        (elim (proxy_conn-IsCarried settled net (
          update_proxy_settings-IsSteady (some y) after.0 (
            exchanged-IsSteady env_x y
              (status_stream_handler env_y x (some (own_status y here)) there).1 here steady))) [
                | inl none_set ↦ cc (ap is_empty (sym settled-using ∙ none_set.1), named)
                | inr r ↦ r
              ])

  -- Two devices that know each other, under their own IDs, and block neither; `y` proxies and lets `x`
  -- use it, and in the configuration of `x` the exit node is unset or a known peer that allows it,
  -- entries stand under their own IDs, and no two have the same alias. After one exchange of status the
  -- user of `x` may choose `y` as exit node; then every connection of `x` is piped to `y`, unless `y`
  -- cannot be connected, or no stream to it be opened, or the local client fails the handshake; and `y`
  -- serves the streams of `x`.
  pub exchange-carries :
      ((update_proxy_settings (some y) after.0).1 ≡ done)
      × ((net : Net)
          → IsCarried net y (proxy_conn (update_proxy_settings (some y) after.0).0.store.conf net))
      × ((no_auth : Bool) → proxy_stream_handler after.1.store.conf no_auth x ≡ served no_auth)
  exchange-carries = (
    ap (λ (r : Auth × Reply). r.1) picked,
    carried,
    λ no_auth. (proxy_stream_handler_iff after.1.store.conf no_auth x).1 (
      ap may_use (
            status_stream_handler-stores env_y x (own_status y here) there q y_knows y_free y_keyed)
          ∙ updated-keeps env_y there.store.conf q (own_status y here)
          ∙ allows_x,
      status_stream_handler-proxying env_y x (own_status y here) there ∙ enabled,
    ),
  )
