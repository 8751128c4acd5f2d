-- ===== src/Cli/Commands.antt =====
-- cli/peers.go with api/peers.go: what a command that changes a peer's setting changes.
use gravil.Base.{
  ◌≡◌, ◌⊎◌, inl, inr, refl, sym, ap, ◌∙◌, subst, Bool, true, false, Option, none, some, Text, ◌==◌,
  text_key, if◌then◌else◌, Bool-cases,
}
use gravil.Config.{KnownPeer}
use gravil.Config.Peers.{get_peer, is_empty}
use gravil.Config.Peers.Effects.{IsSaved}
use gravil.Auth.{Env, Auth}
use gravil.Api.{
  Packages, Reply, done, bad_request, not_found, panicked, UpdatePeerSettingsRequest,
  get_known_peer_settings, resettled, update_peer_settings,
}
use gravil.Api.Answers.{refuses, IsUpdated, update_peer_settings-IsUpdated}
use gravil.Cli.{
  is_done, answered, known_peer_config, as_it_is, send_settings, change_peer_alias,
  change_peer_domain, change_peer_ip, set_allow_using_as_exit_node, Command, rename, update_domain,
  update_ip, allow_exit_node, action,
}

-- The peer as a command leaves it; the API trims the alias whatever is changed.
abbrev pub changed : Env → Command → KnownPeer → KnownPeer
changed env (rename s) p = record p { alias = env.trim_space s }
changed env (update_domain s) p = record p { domain_name = s; alias = env.trim_space p.alias }
changed env (update_ip s) p = record p { ip_addr = s; alias = env.trim_space p.alias }
changed env (allow_exit_node b) p = record p {
  we_allow_using_as_exit_node = b;
  alias = env.trim_space p.alias;
}

-- The request of a command.
abbrev pub asked : Command → Text → KnownPeer → UpdatePeerSettingsRequest
asked (rename s) id p = record (as_it_is id p) { alias = s }
asked (update_domain s) id p = record (as_it_is id p) { domain_name = s }
asked (update_ip s) id p = record (as_it_is id p) { ip_addr = s }
asked (allow_exit_node b) id p = record (as_it_is id p) { allow_using_as_exit_node = b }

asked-peer_id : (c : Command) (id : Text) (p : KnownPeer) → (asked c id p).peer_id ≡ id
asked-peer_id (rename s) id p = refl
asked-peer_id (update_domain s) id p = refl
asked-peer_id (update_ip s) id p = refl
asked-peer_id (allow_exit_node b) id p = refl

resettled-asked :
    (env : Env) (c : Command) (id : Text) (p : KnownPeer)
    → resettled p (asked c id p) (env.trim_space (asked c id p).alias) ≡ changed env c p
resettled-asked env (rename s) id p = refl
resettled-asked env (update_domain s) id p = refl
resettled-asked env (update_ip s) id p = refl
resettled-asked env (allow_exit_node b) id p = refl

is_done-refuses : (r : Reply) → refuses r ≡ true → is_done r ≡ false
is_done-refuses done h = cc
is_done-refuses bad_request h = refl
is_done-refuses not_found h = refl
is_done-refuses panicked h = refl

module _ (env : Env) (pkg : Packages) (c : Command) (id : Text) (a : Auth) where
  -- A success, with the setting changed and nothing else, or an error, with nothing changed.
  abbrev pub IsChanged : Auth × Bool → Type 0
  IsChanged r =
      ((p : KnownPeer) × (r.1 ≡ true)
        × (get_peer a.store.conf id ≡ some p)
        × ((j : Text)
            → get_peer r.0.store.conf j
              ≡ (if p.peer_id == j then some (changed env c p) else get_peer a.store.conf j))
        × IsSaved r.0.store)
      ⊎ ((r.1 ≡ false) × (r.0 ≡ a))

  action-send :
      action env pkg c id a ≡ send_settings env pkg (asked c id) (known_peer_config id a) a
  unfolding action change_peer_alias change_peer_domain change_peer_ip set_allow_using_as_exit_node
  action-send = by_command c
    where
      by_command :
          (c : Command)
          → action env pkg c id a ≡ send_settings env pkg (asked c id) (known_peer_config id a) a
      by_command (rename s) = refl
      by_command (update_domain s) = refl
      by_command (update_ip s) = refl
      by_command (allow_exit_node b) = refl

  answered-IsChanged :
      (p : KnownPeer) (r : Auth × Reply)
      → get_peer a.store.conf id ≡ some p
      → IsUpdated env pkg (asked c id p) a r
      → IsChanged (answered r)
  unfolding answered
  answered-IsChanged p r known (inl (q, ok, settable, stored, saved)) =
      let same : q ≡ p =
        some_eq (sym settable.0 ∙ ap (get_peer a.store.conf) (asked-peer_id c id p) ∙ known) in
      let result : KnownPeer → KnownPeer =
        λ k. resettled k (asked c id p) (env.trim_space (asked c id p).alias) in
      inl (
        p,
        ap is_done ok,
        known,
        λ j.
            stored j
            ∙ ap (λ k. if k.peer_id == j then some (result k) else get_peer a.store.conf j) same
            ∙ ap (λ k. if p.peer_id == j then some k else get_peer a.store.conf j)
                (resettled-asked env c id p),
        saved,
      )
    where
      some_eq : {x y : KnownPeer} → some x ≡ some y → x ≡ y
      some_eq e = cc
  answered-IsChanged p r known (inr (refused, same)) = inr (is_done-refuses r.1 refused, same)

  send-IsChanged :
      (o : Option KnownPeer)
      → get_peer a.store.conf id ≡ o
      → IsChanged (send_settings env pkg (asked c id) o a)
  unfolding send_settings answered
  send-IsChanged none known = inr (refl, refl)
  send-IsChanged (some p) known =
      answered-IsChanged p (update_peer_settings env pkg (some (asked c id p)) a) known
        (update_peer_settings-IsUpdated env pkg (asked c id p) a)

  -- A command that renames a peer, sets its domain name or address, or lets it use this device as exit
  -- node, changes exactly that in the peer of the ID (and trims its alias), and saves it; or it reports an
  -- error and changes nothing.
  pub action-IsChanged : IsChanged (action env pkg c id a)
  unfolding known_peer_config get_known_peer_settings send_settings
  action-IsChanged =
      let req = asked c id in
      let sent : Bool → Auth × Bool =
        λ b. send_settings env pkg req (if b then none else get_peer a.store.conf id) a in
      subst IsChanged (sym action-send) (elim (Bool-cases (is_empty id)) [
        | inl nameless ↦ subst IsChanged (sym (ap sent nameless)) (inr (refl, refl))
        | inr named ↦
            subst IsChanged (sym (ap sent named)) (send-IsChanged (get_peer a.store.conf id) refl)
      ])
