-- ===== src/Auth/Pairing.antt =====
-- service/auth_status.go on two devices: one of them runs `ExchangeNewStatusInfo`, the other one
-- `StatusStreamHandler` at the other end of the stream.
use gravil.Base.{
  ◌≡◌, refl, sym, ap, ◌∙◌, true, false, Option, none, some, arith, Text, get, ◌==◌, ==_refl,
  text_key, text_eq_iff, if◌then◌else◌, get-delete,
}
use gravil.Config.{Config, KnownPeer}
use gravil.Config.Peers.{get_peer}
use gravil.Protocol.{PeerStatusInfo}
use gravil.Auth.{Env, Auth, create_peer_info, accepted, peer_or_zero}
use gravil.Auth.Exchange.{
  is_blocked, process_status, status_stream_handler, exchange_answered, exchange_begun,
  exchange_new_status_info,
}
use gravil.Auth.Answers.{status_stream_handler_known}
use gravil.Auth.Stored.{updated, get_peer-process_peer_status_info}

-- What a device reports of itself to the peer `id`.
abbrev pub own_status : Text → Auth → PeerStatusInfo
own_status id a =
    create_peer_info a.store.conf (peer_or_zero (get_peer a.store.conf id))
      a.store.conf.p2p_node.name (is_blocked id a)

-- `here` opens the stream to `there`, and nothing else happens meanwhile.
abbrev pub exchange : Env → Env → Text → Text → Auth → Auth → Auth × Auth
exchange env_here env_there id_here id_there here there =
    let answered =
      status_stream_handler env_there id_here (some (own_status id_there here)) there in
    (exchange_new_status_info env_here id_there (λ a. a) answered.1 here, answered.0)

-- `a` keeps what `b` reports of itself to the device `mine`, under the ID `id`, and asks no more.
pub record IsPaired (mine id : Text) (b : Auth) (after : Auth) : Type 0 where
  pub entry : KnownPeer
  pub stored : get_peer after.store.conf id ≡ some entry
  pub confirmed : entry.confirmed ≡ true
  pub not_declined : entry.declined ≡ false
  pub name : entry.name ≡ b.store.conf.p2p_node.name
  pub exit_node :
      entry.allowed_using_as_exit_node
      ≡ (peer_or_zero (get_peer b.store.conf mine)).we_allow_using_as_exit_node
  pub using : entry.reported_using_peer_id ≡ b.store.conf.socks5.using_peer_id

-- The report of `b` to a device that it does not block.
abbrev report : Text → Auth → PeerStatusInfo
report mine b = record {
  name = b.store.conf.p2p_node.name;
  declined = false;
  allow_using_as_exit_node =
      (peer_or_zero (get_peer b.store.conf mine)).we_allow_using_as_exit_node;
  using_peer_id = b.store.conf.socks5.using_peer_id;
}

own_status-report :
    (mine : Text) (b : Auth) → is_blocked mine b ≡ false → own_status mine b ≡ report mine b
unfolding create_peer_info
own_status-report mine b free = rw free refl

report-IsPaired :
    (env : Env) (mine id : Text) (c : Config) (p : KnownPeer) (b after : Auth)
    → get_peer after.store.conf id ≡ some (updated env c p (report mine b))
    → IsPaired mine id b after
unfolding accepted
report-IsPaired env mine id c p b after e = record {
  entry = updated env c p (report mine b);
  stored = e;
  confirmed = refl;
  not_declined = refl;
  name = refl;
  exit_node = refl;
  using = refl;
}

exchange_new_status_info-ingoing :
    (env : Env) (id : Text) (answer : Option PeerStatusInfo) (a : Auth)
    → get id (exchange_new_status_info env id (λ b. b) answer a).ingoing ≡ none
unfolding exchange_new_status_info exchange_begun exchange_answered process_status
exchange_new_status_info-ingoing env id none a =
    ground (arith, get-delete id id a.ingoing, text_eq_iff id id)
exchange_new_status_info-ingoing env id (some info) a =
    ground (arith, get-delete id id a.ingoing, text_eq_iff id id)

module _ (env : Env) (id : Text) (info : PeerStatusInfo) (a : Auth) (p : KnownPeer) where
  exchange_new_status_info-stores :
      get_peer a.store.conf id ≡ some p
      → is_blocked id a ≡ false
      → p.peer_id ≡ id
      → get_peer (exchange_new_status_info env id (λ b. b) (some info) a).store.conf id
        ≡ some (updated env a.store.conf p info)
  unfolding exchange_new_status_info exchange_begun exchange_answered process_status
  exchange_new_status_info-stores known free own =
      rw (free, known)
        (get_peer-process_peer_status_info env p info a.store id
          ∙ ap
              (λ k.
                if k == id
                then some (updated env a.store.conf p info)
                else get_peer a.store.conf id)
              own
          ∙ ap (λ b. if b then some (updated env a.store.conf p info) else get_peer a.store.conf id)
              (==_refl id))

  pub status_stream_handler-stores :
      get_peer a.store.conf id ≡ some p
      → is_blocked id a ≡ false
      → p.peer_id ≡ id
      → get_peer (status_stream_handler env id (some info) a).0.store.conf id
        ≡ some (updated env a.store.conf p info)
  status_stream_handler-stores known free own =
      (status_stream_handler_known env id info a p known free).2 id
      ∙ ap
          (λ k.
            if k == id then some (updated env a.store.conf p info) else get_peer a.store.conf id)
          own
      ∙ ap (λ b. if b then some (updated env a.store.conf p info) else get_peer a.store.conf id)
          (==_refl id)

module _ (env_x env_y : Env) (x y : Text) (here there : Auth) (p q : KnownPeer)
    (x_knows : get_peer here.store.conf y ≡ some p) (y_knows : get_peer there.store.conf x ≡ some q)
    (x_keyed : p.peer_id ≡ y) (y_keyed : q.peer_id ≡ x) (x_free : is_blocked y here ≡ false)
    (y_free : is_blocked x there ≡ false) where
  abbrev after : Auth × Auth
  after = exchange env_x env_y x y here there

  answer :
      (status_stream_handler env_y x (some (own_status y here)) there).1 ≡ some (report x there)
  answer =
      (status_stream_handler_known env_y x (own_status y here) there q y_knows y_free).0
      ∙ ap
          (λ (o : Option KnownPeer). some (record {
            name = there.store.conf.p2p_node.name;
            declined = false;
            allow_using_as_exit_node = (peer_or_zero o).we_allow_using_as_exit_node;
            using_peer_id = there.store.conf.socks5.using_peer_id;
          }))
          (sym y_knows)

  -- Two devices that know each other and block neither, while nothing else happens: after the device `x` exchanges status with `y`,
  -- each of them has the other as confirmed, under the other's name, with the right to use it as exit
  -- node that the other gives; and neither keeps a request of the exchange pending.
  pub exchange-IsPaired :
      IsPaired x y there after.0
      × IsPaired y x here after.1
      × (get y after.0.ingoing ≡ none)
      × (get x after.1.outgoing ≡ none)
  exchange-IsPaired = (
    report-IsPaired env_x x y here.store.conf p there after.0 (
        ap (λ o. get_peer (exchange_new_status_info env_x y (λ b. b) o here).store.conf y) answer
        ∙ exchange_new_status_info-stores env_x y (report x there) here p x_knows x_free x_keyed),
    report-IsPaired env_y y x there.store.conf q here after.1 (
        status_stream_handler-stores env_y x (own_status y here) there q y_knows y_free y_keyed
        ∙ ap (λ i. some (updated env_y there.store.conf q i)) (own_status-report y here x_free)),
    exchange_new_status_info-ingoing env_x y
        (status_stream_handler env_y x (some (own_status y here)) there).1 here,
    (status_stream_handler_known env_y x (own_status y here) there q y_knows y_free).1,
  )
