-- ===== src/Api/Answers.antt =====
-- api/peers.go: what the handlers answer, and what the checks of a request let through.
use gravil.Base.{
  ◌≡◌, ◌⊎◌, inl, inr, refl, sym, subst, Bool, true, false, ◌&&◌, Option, none, some, arith, Text,
  ◌==◌, text_key, if◌then◌else◌, is_some, Bool-cases,
}
use gravil.Config.{Store, KnownPeer}
use gravil.Addr.{parse_ip4}
use gravil.Config.Peers.{get_peer, upsert_peer, save}
use gravil.Config.Peers.Laws.{upsert, get_peer-call}
use gravil.Config.Peers.Effects.{IsSaved}
use gravil.Config.Alias.{is_uniq_peer_alias}
use gravil.Config.Address.{
  Check, unique, invalid_ip, outside_subnet, already_used, panics, check_ip_unique,
}
use gravil.Config.Address.Calm.{calm, check_ip_unique-calm}
use gravil.Auth.{Env, Auth}
use gravil.Api.{
  Packages, Reply, done, bad_request, not_found, panicked, UpdatePeerSettingsRequest,
  is_valid_domain_name, is_valid_settings, resettled, settings_checked, settings_of,
  update_peer_settings,
}

upsert-IsSaved : (p : KnownPeer) (s : Store) → IsSaved (upsert_peer p s)
unfolding upsert_peer save
upsert-IsSaved p s = refl

-- An answer that refuses the request.
abbrev pub refuses : Reply → Bool
refuses done = false
refuses bad_request = true
refuses not_found = true
refuses panicked = false

module _ (env : Env) (pkg : Packages) (req : UpdatePeerSettingsRequest) (a : Auth) where
  -- The entry with what was asked for.
  abbrev pub as_asked : KnownPeer → KnownPeer
  as_asked p = record {
    peer_id = p.peer_id;
    name = p.name;
    alias = env.trim_space req.alias;
    ip_addr = req.ip_addr;
    domain_name = req.domain_name;
    created_at = p.created_at;
    last_seen = p.last_seen;
    confirmed = p.confirmed;
    declined = p.declined;
    we_allow_using_as_exit_node = req.allow_using_as_exit_node;
    allowed_using_as_exit_node = p.allowed_using_as_exit_node;
    reported_using_peer_id = p.reported_using_peer_id;
  }

  -- The peer is known; the new alias, domain name and address are free and well-formed.
  abbrev pub IsSettable : KnownPeer → Type 0
  IsSettable p =
      (get_peer a.store.conf req.peer_id ≡ some p)
      × (is_valid_settings env req && is_valid_domain_name env pkg req.domain_name ≡ true)
      × (is_uniq_peer_alias a.store.conf req.peer_id (env.trim_space req.alias) ≡ true)
      × (check_ip_unique env.ipv6 env.vpn a.store.conf.known_peers req.ip_addr p.peer_id ≡ unique)

  abbrev pub IsUpdated : Auth × Reply → Type 0
  IsUpdated r =
      ((p : KnownPeer) × (r.1 ≡ done)
        × IsSettable p
        × ((j : Text)
            → get_peer r.0.store.conf j
              ≡ (if p.peer_id == j then some (as_asked p) else get_peer a.store.conf j))
        × IsSaved r.0.store)
      ⊎ ((refuses r.1 ≡ true) × (r.0 ≡ a))

  checked-IsUpdated :
      (p : KnownPeer) (k : Check)
      → get_peer a.store.conf req.peer_id ≡ some p
      → is_valid_settings env req && is_valid_domain_name env pkg req.domain_name ≡ true
      → is_uniq_peer_alias a.store.conf req.peer_id (env.trim_space req.alias) ≡ true
      → check_ip_unique env.ipv6 env.vpn a.store.conf.known_peers req.ip_addr p.peer_id ≡ k
      → calm k ≡ true
      → IsUpdated (settings_checked (resettled p req (env.trim_space req.alias)) k a)
  unfolding settings_checked
  checked-IsUpdated p unique known valid free e c = inl (
    p,
    refl,
    (known, valid, free, e),
    get_peer-call 0 (upsert (resettled p req (env.trim_space req.alias))) a.store,
    upsert-IsSaved (resettled p req (env.trim_space req.alias)) a.store,
  )
  checked-IsUpdated p invalid_ip known valid free e c = inr (refl, refl)
  checked-IsUpdated p outside_subnet known valid free e c = inr (refl, refl)
  checked-IsUpdated p already_used known valid free e c = inr (refl, refl)
  checked-IsUpdated p panics known valid free e c = cc

  valid-ipv4 : is_valid_settings env req ≡ true → is_some (parse_ip4 env.ipv6 req.ip_addr) ≡ true
  unfolding is_valid_settings
  valid-ipv4 h = ground (arith, h)

  taken_up :
      (p : KnownPeer)
      → is_uniq_peer_alias a.store.conf req.peer_id (env.trim_space req.alias) ≡ true
      → settings_of env req (some p) a
        ≡ settings_checked
            (resettled p req (env.trim_space req.alias))
            (check_ip_unique env.ipv6 env.vpn a.store.conf.known_peers req.ip_addr p.peer_id)
            a
  unfolding settings_of
  taken_up p free = rw free refl

  passed :
      is_valid_settings env req && is_valid_domain_name env pkg req.domain_name ≡ true
      → update_peer_settings env pkg (some req) a
        ≡ settings_of env req (get_peer a.store.conf req.peer_id) a
  unfolding update_peer_settings
  passed valid = rw valid refl

  settings_of-IsUpdated :
      (o : Option KnownPeer)
      → get_peer a.store.conf req.peer_id ≡ o
      → is_valid_settings env req && is_valid_domain_name env pkg req.domain_name ≡ true
      → IsUpdated (settings_of env req o a)
  unfolding settings_of
  settings_of-IsUpdated none known valid = inr (refl, refl)
  settings_of-IsUpdated (some p) known valid =
      elim (Bool-cases (is_uniq_peer_alias a.store.conf req.peer_id (env.trim_space req.alias))) [
        | inr taken ↦ rw taken (inr (refl, refl))
        | inl free ↦ subst IsUpdated (sym (taken_up p free)) (
            checked-IsUpdated p
              (check_ip_unique env.ipv6 env.vpn a.store.conf.known_peers req.ip_addr p.peer_id)
              known valid free refl
              (check_ip_unique-calm env.vpn a.store.conf.known_peers req.ip_addr p.peer_id env.ipv6
                (valid-ipv4 (ground (arith, valid)))))
      ]

  -- `UpdatePeerSettings` sets the trimmed alias, the domain name, the address and the right to use this
  -- device as exit node exactly as asked, and nothing else of the peer, or refuses and changes
  -- nothing; it does not panic. It changes only a known peer, to an alias that no other has, a valid
  -- domain name and an IPv4 address that passes the check; other peers stay, and the file is up to
  -- date.
  pub update_peer_settings-IsUpdated : IsUpdated (update_peer_settings env pkg (some req) a)
  unfolding update_peer_settings
  update_peer_settings-IsUpdated =
      elim (Bool-cases
        (is_valid_settings env req && is_valid_domain_name env pkg req.domain_name)) [
          | inl valid ↦
              subst IsUpdated (sym (passed valid))
                (settings_of-IsUpdated (get_peer a.store.conf req.peer_id) refl valid)
          | inr wrong ↦ rw wrong (inr (refl, refl))
        ]
