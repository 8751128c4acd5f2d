-- ===== src/Config/Address/Next.antt =====
-- config/network_addr.go: what `GenerateNextIpAddrExcept` returns, and when it is a free address of
-- the network.
use gravil.Base.{
  ℕ, suc, ◌+◌, ◌-◌, ◌%◌, ◌≤◌, ◌<◌, ◌≡◌, ◌≢◌, ◌⊎◌, inl, inr, refl, sym, ap, ◌∙◌, true, false, Option,
  none, some, List, [], ◌∷◌, arith, Text, Dict, text_key, length, elem, first_free_found,
  first_free_first,
}
use gravil.Addr.{Network, contains, parse_ip4, show_ip}
use gravil.Addr.RoundTrip.{show_ip-injective}
use gravil.Config.{KnownPeer}
use gravil.Config.Address.{raise, max_ip, candidate, show_candidate, generate_next_ip_addr_except}

abbrev limit : ℕ
limit = 4294967296

module _ (ipv6 : Text → Option ℕ) (vpn : Network) where
  -- The peers that have an IPv4 address of the network, with that address.
  abbrev pub Holds : ℕ → Dict Text KnownPeer → Type 0
  Holds a [] = ⊥
  Holds a ((_, p) ∷ ps) =
      ((parse_ip4 ipv6 p.ip_addr ≡ some a) × (contains vpn a ≡ true)) ⊎ Holds a ps

  raise-le : (most : ℕ) (o : Option ℕ) → most ≤ raise vpn most o
  unfolding raise
  raise-le most none = omega arith
  raise-le most (some a) = ground arith

  raise_covers :
      (most a : ℕ) (o : Option ℕ) → o ≡ some a → contains vpn a ≡ true → a ≤ raise vpn most o
  unfolding raise
  raise_covers most a none e h = cc
  raise_covers most a (some b) e h = ground arith

  max_ip-le : (most : ℕ) (ps : Dict Text KnownPeer) → most ≤ max_ip ipv6 vpn most ps
  unfolding max_ip
  max_ip-le most [] = omega arith
  max_ip-le most ((k, p) ∷ ps) = omega (
    arith,
    raise-le most (parse_ip4 ipv6 p.ip_addr),
    max_ip-le (raise vpn most (parse_ip4 ipv6 p.ip_addr)) ps,
  )

  -- The maximum is at least every address of the network that a peer has.
  pub max_ip_covers :
      (most a : ℕ) (ps : Dict Text KnownPeer) → Holds a ps → a ≤ max_ip ipv6 vpn most ps
  unfolding max_ip
  max_ip_covers most a [] h = absurd h
  max_ip_covers most a ((k, p) ∷ ps) (inr h) =
      max_ip_covers (raise vpn most (parse_ip4 ipv6 p.ip_addr)) a ps h
  max_ip_covers most a ((k, p) ∷ ps) (inl h) = omega (
    arith,
    raise_covers most a (parse_ip4 ipv6 p.ip_addr) h.0 h.1,
    max_ip-le (raise vpn most (parse_ip4 ipv6 p.ip_addr)) ps,
  )

  raise_held :
      (most : ℕ) (o : Option ℕ)
      → (raise vpn most o ≡ most)
        ⊎ ((o ≡ some (raise vpn most o)) × (contains vpn (raise vpn most o) ≡ true))
  unfolding raise
  raise_held most none = inl refl
  raise_held most (some a) = ground arith

  -- It is the starting value or an address that a peer has.
  pub max_ip_held :
      (most : ℕ) (ps : Dict Text KnownPeer)
      → (max_ip ipv6 vpn most ps ≡ most) ⊎ Holds (max_ip ipv6 vpn most ps) ps
  unfolding max_ip
  max_ip_held most [] = inl refl
  max_ip_held most ((k, p) ∷ ps) =
      elim (max_ip_held (raise vpn most (parse_ip4 ipv6 p.ip_addr)) ps) [
        | inr later ↦ inr (inr later)
        | inl same ↦ elim (raise_held most (parse_ip4 ipv6 p.ip_addr)) [
          | inl still ↦ inl (same ∙ still)
          | inr here ↦ inr (inl (here.0 ∙ ap some (sym same), ap (contains vpn) same ∙ here.1))
        ]
      ]

  module _ (peers : Dict Text KnownPeer) (except : List Text) where
    abbrev pub top : ℕ
    top = max_ip ipv6 vpn vpn.address peers

    -- While the address space lasts, the loop ends within one round more than there are exceptions.
    -- The result is the first address behind the highest one in use that is not an exception, so no
    -- peer of the network has it.
    pub generate_next_ip_addr_free :
        top + length except + 1 < limit
        → (a : ℕ) × (generate_next_ip_addr_except ipv6 vpn peers except ≡ some (show_ip a))
          × (elem (show_ip a) except ≡ false)
          × (top < a)
          × ((b : ℕ) → top < b → b < a → elem (show_ip b) except ≡ true)
          × ((b : ℕ) → Holds b peers → b < a)
    unfolding generate_next_ip_addr_except
    generate_next_ip_addr_free room =
        let found =
          first_free_found (suc (length except)) (candidate top) 0 except distinct (omega arith) in
        let first =
          first_free_first (suc (length except)) (candidate top) 0 except found.0 found.1 in
        let small : (top + (found.0 + 1)) % limit ≡ top + (found.0 + 1) = omega (arith, found.3) in
        (
          top + (found.0 + 1),
          ap (show_candidate top) found.1 ∙ ap (λ a. some (show_ip a)) small,
          ap (λ a. elem (show_ip a) except) (sym small) ∙ first.0,
          omega arith,
          λ b low high.
              let e : (top + (b - top - 1 + 1)) % limit ≡ b = omega (arith, found.3) in
              ap (λ a. elem (show_ip a) except) (sym e)
              ∙ first.1 (b - top - 1) (omega arith) (omega arith),
          λ b h. omega (arith, max_ip_covers vpn.address b peers h),
        )
      where
        distinct :
            (j k : ℕ) → j < k → k < 0 + suc (length except) → candidate top j ≢ candidate top k
        distinct j k p q e =
            let same : (top + (j + 1)) % limit ≡ (top + (k + 1)) % limit =
              show_ip-injective _ _ (omega arith) (omega arith) e in
            absurd (omega arith)
