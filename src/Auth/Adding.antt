-- ===== src/Auth/Adding.antt =====
-- service/auth_status.go: `AddPeer`, and the automatic acceptance of requests.
use gravil.Base.{
  ◌≡◌, ◌⊎◌, inl, inr, refl, sym, ap, ◌∙◌, subst, Bool, true, false, [], Text, text_key, Bool-cases,
  Option-cases, none, if◌then◌else◌,
}
use gravil.Config.{KnownPeer}
use gravil.Addr.{parse_ip4}
use gravil.Config.Peers.{is_empty, get_peer, peer_display_name}
use gravil.Config.Alias.{is_uniq_peer_alias}
use gravil.Config.Address.{
  Check, unique, invalid_ip, outside_subnet, already_used, panics, check_ip_unique,
  generate_next_ip_addr,
}
use gravil.Config.Address.Calm.{calm, check_ip_unique-panics}
use gravil.Auth.{
  trim_domain_name, or_empty, Env, Auth, Added, already_known, alias_taken, added, ip_refused,
  new_peer, insert_peer, add_checked, chosen_ip, ip_check, add_peer,
}
use gravil.Auth.Stored.{IsAdded, insert_peer-IsAdded}

-- A refusal that is reported.
abbrev pub is_refusal : Added → Bool
is_refusal added = false
is_refusal already_known = true
is_refusal alias_taken = true
is_refusal (ip_refused unique) = false
is_refusal (ip_refused invalid_ip) = true
is_refusal (ip_refused outside_subnet) = true
is_refusal (ip_refused already_used) = true
is_refusal (ip_refused panics) = false

-- The result of adding `p` to `a`: it was added, if `condition` holds of what was there; it was
-- refused; or the check of the address panicked, if `trap` holds.
abbrev pub IsResult : KnownPeer → Auth → Type 0 → Type 0 → Auth × Added → Type 0
IsResult p a condition trap r =
    ((r.1 ≡ added) × condition × IsAdded p a r.0)
    ⊎ ((is_refusal r.1 ≡ true) × (r.0 ≡ a))
    ⊎ ((r.1 ≡ ip_refused panics) × (r.0 ≡ a) × trap)

module _ (env : Env) (id name alias : Text) (confirmed : Bool) (ip : Text) (a : Auth) where
  -- The entry that is added: with the trimmed alias, and the given or a generated address; its domain
  -- name is made from the alias, or from the name where that is empty.
  abbrev pub entry : KnownPeer
  entry = record {
    peer_id = id;
    name = name;
    alias = env.trim_space alias;
    ip_addr =
        if is_empty ip
        then or_empty (generate_next_ip_addr env.ipv6 env.vpn a.store.conf.known_peers)
        else ip;
    domain_name =
        trim_domain_name env
          (if is_empty (env.trim_space alias) then name else env.trim_space alias);
    created_at = env.now;
    last_seen = 0;
    confirmed = confirmed;
    declined = false;
    we_allow_using_as_exit_node = false;
    allowed_using_as_exit_node = false;
    reported_using_peer_id = [];
  }

  -- The peer was not known, no other peer has its alias, and a given address passes the check.
  abbrev pub IsFree : Type 0
  IsFree =
      (get_peer a.store.conf id ≡ none)
      × (is_uniq_peer_alias a.store.conf [] (env.trim_space alias) ≡ true)
      × ((is_empty ip ≡ true)
          ⊎ (check_ip_unique env.ipv6 env.vpn a.store.conf.known_peers ip id ≡ unique))

  -- An address was given that is no IPv4 one.
  abbrev pub IsTrap : Type 0
  IsTrap = (is_empty ip ≡ false) × (parse_ip4 env.ipv6 ip ≡ none)

  entry_made :
      new_peer env id name (env.trim_space alias) confirmed (chosen_ip env a.store.conf ip) ≡ entry
  unfolding new_peer peer_display_name
  entry_made = refl

  given :
      (k : Check)
      → ip_check env a.store.conf id ip ≡ k
      → is_empty ip ≡ false
      → check_ip_unique env.ipv6 env.vpn a.store.conf.known_peers ip id ≡ k
  given k e named =
      sym (
        ap
          (λ b.
            if b then unique else check_ip_unique env.ipv6 env.vpn a.store.conf.known_peers ip id)
          named)
      ∙ e

  trapped : ip_check env a.store.conf id ip ≡ panics → IsTrap
  trapped e = elim (Bool-cases (is_empty ip)) [
    | inl missing ↦ absurd (clash (sym (ap calm (generated missing)) ∙ ap calm e))
    | inr named ↦ (
      named,
      check_ip_unique-panics env.vpn a.store.conf.known_peers ip id env.ipv6 (given panics e named),
    )
  ]
    where
      clash : true ≡ false → ⊥
      clash e = cc

      generated : is_empty ip ≡ true → ip_check env a.store.conf id ip ≡ unique
      generated missing =
          ap
            (λ b.
              if b then unique else check_ip_unique env.ipv6 env.vpn a.store.conf.known_peers ip id)
            missing

  checked :
      (k : Check)
      → ip_check env a.store.conf id ip ≡ k
      → get_peer a.store.conf id ≡ none
      → is_uniq_peer_alias a.store.conf [] (env.trim_space alias) ≡ true
      → IsResult entry a IsFree IsTrap (
          add_checked env id name
            (env.trim_space alias)
            confirmed
            (chosen_ip env a.store.conf ip)
            k
            a)
  unfolding add_checked
  checked unique e new free = inl (
    refl,
    (
      new,
      free,
      elim (Bool-cases (is_empty ip)) [
        | inl missing ↦ inl missing
        | inr named ↦ inr (given unique e named)
      ],
    ),
    subst (λ p. IsAdded entry a (insert_peer p a)) (sym entry_made) (insert_peer-IsAdded entry a),
  )
  checked invalid_ip e new free = inr (inl (refl, refl))
  checked outside_subnet e new free = inr (inl (refl, refl))
  checked already_used e new free = inr (inl (refl, refl))
  checked panics e new free = inr (inr (refl, refl, trapped e))

  accepts :
      get_peer a.store.conf id ≡ none
      → is_uniq_peer_alias a.store.conf [] (env.trim_space alias) ≡ true
      → add_peer env id name alias confirmed ip a
        ≡ add_checked env id name
            (env.trim_space alias)
            confirmed
            (chosen_ip env a.store.conf ip)
            (ip_check env a.store.conf id ip)
            a
  unfolding add_peer
  accepts new free = rw (new, free) refl

  pub add_peer_free :
      IsFree → add_peer env id name alias confirmed ip a ≡ (insert_peer entry a, added)
  unfolding add_checked
  add_peer_free h =
      accepts h.0 h.1
      ∙ ap
          (λ k.
            add_checked env id name (env.trim_space alias) confirmed (chosen_ip env a.store.conf ip)
              k a)
          passes
      ∙ ap (λ p. (insert_peer p a, added)) entry_made
    where
      clash : true ≡ false → ⊥
      clash e = cc

      passes : ip_check env a.store.conf id ip ≡ unique
      passes = elim (Bool-cases (is_empty ip)) [
        | inl missing ↦ rw missing refl
        | inr named ↦
            rw named (elim h.2 [ inl missing ↦ absurd (clash (sym missing ∙ named)) | inr e ↦ e ])
      ]

  -- A peer is added exactly as asked, with no rights and no status yet, or it is refused and nothing is
  -- changed. It is added only if it was not known, its trimmed alias is unique and a given address
  -- passes the check; then its entry is there, all others are as before, it is not blocked any more,
  -- and the file is up to date. The check panics only on an address that is no IPv4 one, before
  -- anything is changed.
  pub add_peer-IsResult : IsResult entry a IsFree IsTrap (add_peer env id name alias confirmed ip a)
  unfolding add_peer
  add_peer-IsResult = elim (Option-cases (get_peer a.store.conf id)) [
    | inr known ↦ rw known.1 (inr (inl (refl, refl)))
    | inl new ↦ elim (Bool-cases (is_uniq_peer_alias a.store.conf [] (env.trim_space alias))) [
      | inr taken ↦ rw (new, taken) (inr (inl (refl, refl)))
      | inl free ↦
          subst (IsResult entry a IsFree IsTrap) (sym (accepts new free)) (checked _ refl new free)
    ]
  ]
