-- ===== src/Config/Address/Unique.antt =====
-- config/network_addr.go: `CheckIPUnique`, and the edge of the network.
use native.Mathlib.Nat.{div-eq_of_lt-le, div-mul-le_self, lt-div-mul-add, pow-suc}
use native.Mathlib.Decide.{dec_lt}
use gravil.Base.{
  ℕ, zero, suc, ◌+◌, ◌-◌, ◌*◌, ◌/◌, ◌^◌, ◌≤◌, ◌<◌, ◌≡◌, inl, inr, refl, ap, ◌∙◌, true, false,
  Option, some, [], ◌∷◌, arith, Text, Dict, ◌==◌, text_key, text_eq_iff, eqb_iff, elem, Bool-cases,
}
use gravil.Addr.{Network, contains, parse_ip4, show_ip, to4}
use gravil.Addr.RoundTrip.{parse_ip4-show_ip, parse_ip-show_ip}
use gravil.Config.{KnownPeer}
use gravil.Config.Address.{
  raise, max_ip, unique, check_as4, check_parsed, check_peers, check_ip_unique,
  generate_next_ip_addr, generate_next_ip_addr_except,
}
use gravil.Config.Address.Next.{Holds, top, max_ip_covers, max_ip_held, generate_next_ip_addr_free}

abbrev pub limit : ℕ
limit = 4294967296

-- How many addresses the network has, and its last one.
abbrev pub hosts : Network → ℕ
hosts vpn = 2 ^ (32 - vpn.bits)

abbrev pub last_address : Network → ℕ
last_address vpn = vpn.address / hosts vpn * hosts vpn + (hosts vpn - 1)

quotient : (q a c : ℕ) → c * q ≤ a → a < c * q + q → a / q ≡ c
quotient q a c low high = div-eq_of_lt-le q low (grind arith)

pow_pos : (k : ℕ) → 0 < 2 ^ k
pow_pos zero = omega arith
pow_pos (suc k) = omega (arith, pow-suc 2 k, pow_pos k)

hosts_pos : (vpn : Network) → 0 < hosts vpn
hosts_pos vpn = pow_pos (32 - vpn.bits)

module _ (vpn : Network) (a : ℕ) where
  -- An address of the network lies between the network's first and last address.
  contains-bounds :
      contains vpn a ≡ true → (vpn.address / hosts vpn * hosts vpn ≤ a) × (a ≤ last_address vpn)
  unfolding contains
  contains-bounds h =
      let e : a / hosts vpn ≡ vpn.address / hosts vpn = (eqb_iff _ _).0 h in
      rw (← e) (
        div-mul-le_self a (hosts vpn),
        omega (arith, lt-div-mul-add {a = a} (hosts_pos vpn), hosts_pos vpn),
      )

  contains_between :
      vpn.address / hosts vpn * hosts vpn ≤ a → a ≤ last_address vpn → contains vpn a ≡ true
  unfolding contains
  contains_between low high =
      (eqb_iff _ _).1
        (quotient (hosts vpn) a (vpn.address / hosts vpn) low (omega (arith, hosts_pos vpn)))

  not_contains_above : last_address vpn < a → contains vpn a ≡ false
  not_contains_above high = elim (Bool-cases (contains vpn a)) [
    | inl h ↦ absurd (omega (arith, contains-bounds h))
    | inr h ↦ h
  ]

contains_self : (vpn : Network) → contains vpn vpn.address ≡ true
unfolding contains
contains_self vpn = (eqb_iff _ _).1 refl

module _ (ipv6 : Text → Option ℕ) (vpn : Network) where
  Holds-contains : (a : ℕ) (ps : Dict Text KnownPeer) → Holds ipv6 vpn a ps → contains vpn a ≡ true
  Holds-contains a [] h = absurd h
  Holds-contains a ((k, p) ∷ ps) (inl h) = h.1
  Holds-contains a ((k, p) ∷ ps) (inr h) = Holds-contains a ps h

  module _ (peers : Dict Text KnownPeer) where
    top-contains : contains vpn (top ipv6 vpn peers []) ≡ true
    top-contains = elim (max_ip_held ipv6 vpn vpn.address peers) [
      | inl start ↦ ap (contains vpn) start ∙ contains_self vpn
      | inr held ↦ Holds-contains _ peers held
    ]

    -- With no exceptions, the result is the address behind the highest one in use.
    next_address :
        top ipv6 vpn peers [] + 1 < limit
        → (generate_next_ip_addr ipv6 vpn peers ≡ some (show_ip (top ipv6 vpn peers [] + 1)))
          × ((b : ℕ) → Holds ipv6 vpn b peers → b < top ipv6 vpn peers [] + 1)
    unfolding generate_next_ip_addr elem
    next_address room =
        let g = generate_next_ip_addr_free ipv6 vpn peers [] (omega arith) in
        let e : g.0 ≡ top ipv6 vpn peers [] + 1 = elim (dec_lt (top ipv6 vpn peers [] + 1) g.0) [
          | yes far ↦ cc (g.4 (top ipv6 vpn peers [] + 1) (omega arith) far)
          | no near ↦ omega (arith, g.3)
        ] in
        (g.1 ∙ ap (λ a. some (show_ip a)) e, λ b h. omega (arith, g.5 b h, e))

    -- No peer that holds no such address has the text of the address.
    check_peers_free :
        (a : ℕ) (except : Text) (ps : Dict Text KnownPeer)
        → a < limit
        → contains vpn a ≡ true
        → ¬ Holds ipv6 vpn a ps
        → check_peers (show_ip a) except ps ≡ unique
    unfolding check_peers
    check_peers_free a except [] h c n = refl
    check_peers_free a except ((k, p) ∷ ps) h c n = elim (Bool-cases (p.ip_addr == show_ip a)) [
      | inr other ↦ rw other (check_peers_free a except ps h c (λ g. n (inr g)))
      | inl same ↦
          absurd (
            n (
              inl (ap (parse_ip4 ipv6) ((text_eq_iff _ _).0 same) ∙ parse_ip4-show_ip ipv6 a h, c)))
    ]

    -- While the highest address in use is not the last one of the network, a generated address
    -- passes the check for a unique address of the network, whatever peer is excepted.
    pub check_ip_unique-generate :
        (except : Text)
        → top ipv6 vpn peers [] < last_address vpn
        → last_address vpn < limit
        → (ip : Text) × (generate_next_ip_addr ipv6 vpn peers ≡ some ip)
          × (check_ip_unique ipv6 vpn peers ip except ≡ unique)
    unfolding generate_next_ip_addr check_ip_unique check_parsed check_as4 to4
    check_ip_unique-generate except room fits =
        let a = top ipv6 vpn peers [] + 1 in
        let next = next_address (omega arith) in
        let low = contains-bounds vpn (top ipv6 vpn peers []) top-contains in
        let inside : contains vpn a ≡ true =
          contains_between vpn a (omega (arith, low.0)) (omega arith) in
        let free : check_peers (show_ip a) except peers ≡ unique =
          check_peers_free a except peers (omega arith) inside
            (λ h. absurd (omega (arith, next.1 a h))) in
        (show_ip a, next.0, rw (parse_ip-show_ip ipv6 a (omega arith), inside, free) refl)

    -- A peer outside the network has no part in the choice.
    generate_next_ip_addr_skips :
        (key : Text) (p : KnownPeer) (a : ℕ)
        → parse_ip4 ipv6 p.ip_addr ≡ some a
        → contains vpn a ≡ false
        → generate_next_ip_addr ipv6 vpn ((key, p) ∷ peers) ≡ generate_next_ip_addr ipv6 vpn peers
    unfolding generate_next_ip_addr generate_next_ip_addr_except max_ip raise
    generate_next_ip_addr_skips key p a parsed outside = rw (parsed, outside) refl

    -- Once a peer has the last address of the network, the next generated address lies outside it;
    -- and a peer that takes it does not count, so that the following peer is given the same address.
    pub generate_next_ip_addr_repeats :
        (key : Text) (p : KnownPeer)
        → Holds ipv6 vpn (last_address vpn) peers
        → last_address vpn + 1 < limit
        → p.ip_addr ≡ show_ip (last_address vpn + 1)
        → (generate_next_ip_addr ipv6 vpn peers ≡ some (show_ip (last_address vpn + 1)))
          × (contains vpn (last_address vpn + 1) ≡ false)
          × (generate_next_ip_addr ipv6 vpn ((key, p) ∷ peers)
              ≡ some (show_ip (last_address vpn + 1)))
    generate_next_ip_addr_repeats key p h fits e =
        let high : top ipv6 vpn peers [] ≡ last_address vpn = omega (
          arith,
          contains-bounds vpn (top ipv6 vpn peers []) top-contains,
          max_ip_covers ipv6 vpn vpn.address (last_address vpn) peers h,
        ) in
        let outside : contains vpn (last_address vpn + 1) ≡ false =
          not_contains_above vpn (last_address vpn + 1) (omega arith) in
        let first : generate_next_ip_addr ipv6 vpn peers ≡ some (show_ip (last_address vpn + 1)) =
          (next_address (omega arith)).0 ∙ ap (λ a. some (show_ip (a + 1))) high in
        let parsed : parse_ip4 ipv6 p.ip_addr ≡ some (last_address vpn + 1) =
          ap (parse_ip4 ipv6) e ∙ parse_ip4-show_ip ipv6 (last_address vpn + 1) fits in
        (
          first,
          outside,
          generate_next_ip_addr_skips key p (last_address vpn + 1) parsed outside ∙ first,
        )
