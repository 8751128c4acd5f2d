-- ===== src/Config/Address/Examples.antt =====
-- config/network_addr.go: the default network 10.66.0.1/24 and a full one, and the theorems at them.
use gravil.Base.{
  ℕ, ◌+◌, ◌≡◌, ◌<◌, inl, refl, true, false, Option, none, some, List, [], ◌∷◌, arith, Text, text,
  Dict, elem, text_key, ap,
}
use gravil.Addr.{Network, contains, show_ip}
use gravil.Addr.RoundTrip.{parse_ip4-show_ip}
use gravil.Config.{KnownPeer, zero_known_peer}
use gravil.Config.Address.{
  generate_next_ip_addr, generate_next_ip_addr_except, check_ip_unique, unique, max_ip, raise,
}
use gravil.Config.Address.Next.{Holds, top, generate_next_ip_addr_free}
use gravil.Config.Address.Unique.{
  last_address, check_ip_unique-generate, generate_next_ip_addr_repeats,
}

abbrev no_ipv6 : Text → Option ℕ
no_ipv6 s = none

abbrev vpn : Network
vpn = record { address = 0x0a420001; bits = 24 }

abbrev peer_at : ℕ → KnownPeer
peer_at a = record zero_known_peer { ip_addr = show_ip a }

abbrev one_peer : Dict Text KnownPeer
one_peer = (text "A1", peer_at 0x0a420002) ∷ []

abbrev except : List Text
except = show_ip 0x0a420003 ∷ []

abbrev last_peer : Dict Text KnownPeer
last_peer = (text "A1", peer_at 0x0a4200ff) ∷ []

top_one : (except : List Text) → top no_ipv6 vpn one_peer except ≡ 0x0a420002
unfolding max_ip raise contains
top_one except = ap (raise vpn 0x0a420001) (parse_ip4-show_ip no_ipv6 0x0a420002 (omega arith))

generate_next_ip_addr_free_example :
    (a : ℕ) × (generate_next_ip_addr_except no_ipv6 vpn one_peer except ≡ some (show_ip a))
    × (elem (show_ip a) except ≡ false)
    × (top no_ipv6 vpn one_peer except < a)
    × ((b : ℕ) → top no_ipv6 vpn one_peer except < b → b < a → elem (show_ip b) except ≡ true)
    × ((b : ℕ) → Holds no_ipv6 vpn b one_peer → b < a)
generate_next_ip_addr_free_example =
    generate_next_ip_addr_free no_ipv6 vpn one_peer except (omega (arith, top_one except))

check_ip_unique-generate_example :
    (ip : Text) × (generate_next_ip_addr no_ipv6 vpn one_peer ≡ some ip)
    × (check_ip_unique no_ipv6 vpn one_peer ip [] ≡ unique)
check_ip_unique-generate_example =
    check_ip_unique-generate no_ipv6 vpn one_peer [] (omega (arith, top_one [])) (omega arith)

last_held : Holds no_ipv6 vpn (last_address vpn) last_peer
unfolding contains
last_held = inl (parse_ip4-show_ip no_ipv6 0x0a4200ff (omega arith), refl)

generate_next_ip_addr_repeats_example :
    (generate_next_ip_addr no_ipv6 vpn last_peer ≡ some (show_ip (last_address vpn + 1)))
    × (contains vpn (last_address vpn + 1) ≡ false)
    × (generate_next_ip_addr no_ipv6 vpn ((text "B2", peer_at 0x0a420100) ∷ last_peer)
        ≡ some (show_ip (last_address vpn + 1)))
generate_next_ip_addr_repeats_example =
    generate_next_ip_addr_repeats no_ipv6 vpn last_peer (text "B2") (peer_at 0x0a420100) last_held
      (omega arith) refl
