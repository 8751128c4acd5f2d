-- ===== src/Config/Address.antt =====
-- config/network_addr.go: the addresses of peers in the VPN's network. `vpn` is the network that
-- `VPNLocalIPMaskUnlocked` reads from the configuration (an IPv4 CIDR: `setDefaults` replaces any
-- text that is not one), with the local address in it.
pub mod Calm
pub mod Next
pub mod Unique
pub mod Examples
use gravil.Base.{
  ℕ, zero, suc, ◌+◌, ◌%◌, ◌^◌, Bool, true, false, ◌&&◌, not, Option, none, some, List, [], ◌∷◌,
  Text, Dict, ◌==◌, text_key, ltb, if◌then◌else◌, length, elem, first_free,
}
use gravil.Addr.{Ip, v4, v6, Network, contains, parse_ip, parse_ip4, show_ip, to4}
use gravil.Config.{Config, KnownPeer}
use gravil.Config.Peers.{is_empty}

abbrev pub u32 : ℕ
u32 = 2 ^ 32

-- `incrementIPAddr`, `k` times: uint32 addition wraps.
abbrev pub increment : ℕ → ℕ → ℕ
increment a k = (a + k) % u32

-- One known peer: its address counts if it is an IPv4 address of the network above the maximum.
unfoldable pub raise : Network → ℕ → Option ℕ → ℕ
raise vpn most none = most
raise vpn most (some a) = if contains vpn a && ltb most a then a else most

unfoldable pub max_ip : (Text → Option ℕ) → Network → ℕ → Dict Text KnownPeer → ℕ
unfolding raise
max_ip ipv6 vpn most [] = most
max_ip ipv6 vpn most ((_, p) ∷ ps) = max_ip ipv6 vpn (raise vpn most (parse_ip4 ipv6 p.ip_addr)) ps

abbrev pub candidate : ℕ → ℕ → Text
candidate most i = show_ip (increment most (i + 1))

abbrev pub show_candidate : ℕ → Option ℕ → Option Text
show_candidate most none = none
show_candidate most (some i) = some (candidate most i)

-- `GenerateNextIpAddrExcept`; `none` would be a loop that does not end within one round more than
-- there are exceptions (Next.generate_next_ip_addr_free shows that it does).
unfoldable pub generate_next_ip_addr_except :
    (Text → Option ℕ) → Network → Dict Text KnownPeer → List Text → Option Text
generate_next_ip_addr_except ipv6 vpn peers except =
    let most = max_ip ipv6 vpn vpn.address peers in
    show_candidate most (first_free (suc (length except)) (candidate most) 0 except)

unfoldable pub generate_next_ip_addr :
    (Text → Option ℕ) → Network → Dict Text KnownPeer → Option Text
generate_next_ip_addr ipv6 vpn peers = generate_next_ip_addr_except ipv6 vpn peers []

pub data Check : Type 0 where
  unique invalid_ip outside_subnet already_used panics : Check

-- `As4` panics on an IPv6 address that does not stand for an IPv4 one.
unfoldable pub check_as4 : Network → Check → Option ℕ → Check
check_as4 vpn rest none = panics
check_as4 vpn rest (some a) = if contains vpn a then rest else outside_subnet

-- The loop over the peers that have the very text as address.
unfoldable pub check_peers : Text → Text → Dict Text KnownPeer → Check
check_peers ip except [] = unique
check_peers ip except ((_, p) ∷ ps) =
    let rest = check_peers ip except ps in
    if not (p.ip_addr == ip)
    then rest
    else if not (is_empty except) && p.peer_id == except
    then rest
    else already_used

unfoldable pub check_parsed : Network → Check → Option Ip → Check
check_parsed vpn rest none = invalid_ip
check_parsed vpn rest (some a) = check_as4 vpn rest (to4 a)

-- `CheckIPUnique`.
unfoldable pub check_ip_unique :
    (Text → Option ℕ) → Network → Dict Text KnownPeer → Text → Text → Check
check_ip_unique ipv6 vpn peers ip except =
    check_parsed vpn (check_peers ip except peers) (parse_ip ipv6 ip)
