-- ===== src/Config/Address/Calm.antt =====
-- config/network_addr.go: `CheckIPUnique` panics on no IPv4 address.
use gravil.Base.{
  ℕ, ◌≡◌, inl, inr, refl, sym, ap, ◌∙◌, Bool, true, false, Option, none, some, List, [], ◌∷◌, arith,
  Text, text_key, is_some, Option-cases,
}
use gravil.Config.{KnownPeer}
use gravil.Addr.{Network, Ip, parse_ip, parse_ip4, and_to4, to4}
use gravil.Config.Address.{
  Check, unique, invalid_ip, outside_subnet, already_used, panics, check_ip_unique, check_parsed,
  check_as4, check_peers,
}

-- A check that may fail, but does not panic.
abbrev pub calm : Check → Bool
calm unique = true
calm invalid_ip = true
calm outside_subnet = true
calm already_used = true
calm panics = false

check_peers-calm :
    (ip except : Text) (ps : List (Text × KnownPeer)) → calm (check_peers ip except ps) ≡ true
unfolding check_peers
check_peers-calm ip except [] = refl
check_peers-calm ip except ((k, p) ∷ ps) = ground (arith, check_peers-calm ip except ps)

-- An address that the validator takes for IPv4 does not panic the check.
module _ (vpn : Network) (ps : List (Text × KnownPeer)) (ip except : Text) where
  check_as4-calm :
      (o : Option ℕ) → is_some o ≡ true → calm (check_as4 vpn (check_peers ip except ps) o) ≡ true
  unfolding check_as4
  check_as4-calm none h = cc
  check_as4-calm (some a) h = ground (arith, check_peers-calm ip except ps)

  check_parsed-calm :
      (o : Option Ip)
      → is_some (and_to4 o) ≡ true
      → calm (check_parsed vpn (check_peers ip except ps) o) ≡ true
  unfolding check_parsed and_to4
  check_parsed-calm none h = refl
  check_parsed-calm (some a) h = check_as4-calm (to4 a) h

  pub check_ip_unique-calm :
      (ipv6 : Text → Option ℕ)
      → is_some (parse_ip4 ipv6 ip) ≡ true
      → calm (check_ip_unique ipv6 vpn ps ip except) ≡ true
  unfolding check_ip_unique parse_ip4
  check_ip_unique-calm ipv6 h = check_parsed-calm (parse_ip ipv6 ip) h

  -- Where the check panics, the text is no IPv4 address.
  pub check_ip_unique-panics :
      (ipv6 : Text → Option ℕ)
      → check_ip_unique ipv6 vpn ps ip except ≡ panics
      → parse_ip4 ipv6 ip ≡ none
  check_ip_unique-panics ipv6 e = elim (Option-cases (parse_ip4 ipv6 ip)) [
    | inl missing ↦ missing
    | inr found ↦ absurd (clash (sym (ap calm e) ∙ check_ip_unique-calm ipv6 (ap is_some found.1)))
  ]
    where
      clash : false ≡ true → ⊥
      clash e = cc
