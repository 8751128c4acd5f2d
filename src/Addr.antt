-- ===== src/Addr.antt =====
-- What config/network_addr.go, awldns/awldns.go and service/tunnel.go use of the packages net and
-- net/netip: an IPv4 address is its 32-bit value, most significant byte first. The text forms of
-- IPv6 addresses are left to a parameter; the program asks of them only whether they are IPv4.
pub mod RoundTrip
use gravil.Base.{
  ℕ, zero, suc, ◌+◌, ◌-◌, ◌*◌, ◌/◌, ◌%◌, ◌^◌, Bool, true, false, ◌&&◌, ◌||◌, Option, none, some,
  List, [], ◌∷◌, ◌++◌, Text, ltb, leb, eqb, if◌then◌else◌, length,
}

pub data Ip : Type 0 where
  v4 v6 : ℕ → Ip

-- `To4`: an IPv4 address, or an IPv6 one that stands for it.
unfoldable pub to4 : Ip → Option ℕ
to4 (v4 a) = some a
to4 (v6 a) = if eqb (a / 2 ^ 32) 0xffff then some (a % 2 ^ 32) else none

-- The loop over the four fields; `digits` counts those of the current one, `field` the fields
-- before it.
unfoldable pub parse_fields : ℕ → ℕ → ℕ → ℕ → Text → Option ℕ
parse_fields field val digits acc [] =
    if eqb digits 0 then none else if eqb field 3 then some (acc * 256 + val) else none
parse_fields field val digits acc (c ∷ s) =
    let digit = parse_fields field (val * 10 + (c - 48)) (digits + 1) acc s in
    let dot = parse_fields (field + 1) 0 0 (acc * 256 + val) s in
    if leb 48 c && leb c 57
    then (if eqb digits 1 && eqb val 0
        then none
        else if ltb 255 (val * 10 + (c - 48))
        then none
        else digit)
    else if eqb c 46
    then (if eqb digits 0 then none else if eqb field 3 then none else dot)
    else none

unfoldable pub parse_ipv4 : Text → Option ℕ
unfolding parse_fields
parse_ipv4 s = parse_fields 0 0 0 0 s

-- The first of `.`, `:` and `%` decides.
pub data Form : Type 0 where
  dotted colons neither : Form

unfoldable pub form : Text → Form
form [] = neither
form (c ∷ s) =
    if eqb c 46 then dotted else if eqb c 58 then colons else if eqb c 37 then neither else form s

unfoldable pub tagged : (ℕ → Ip) → Option ℕ → Option Ip
tagged f none = none
tagged f (some a) = some (f a)

unfoldable pub parse_as : Form → (Text → Option ℕ) → Text → Option Ip
unfolding tagged
parse_as dotted ipv6 s = tagged v4 (parse_ipv4 s)
parse_as colons ipv6 s = tagged v6 (ipv6 s)
parse_as neither ipv6 s = none

-- `netip.ParseAddr` and `net.ParseIP`; `ipv6` reads the texts with colons.
unfoldable pub parse_ip : (Text → Option ℕ) → Text → Option Ip
unfolding form parse_ipv4 parse_as
parse_ip ipv6 s = parse_as (form s) ipv6 s

unfoldable pub and_to4 : Option Ip → Option ℕ
unfolding to4
and_to4 none = none
and_to4 (some a) = to4 a

-- `net.ParseIP(s).To4()`, nil for a text that is no address too.
unfoldable pub parse_ip4 : (Text → Option ℕ) → Text → Option ℕ
unfolding parse_ip and_to4
parse_ip4 ipv6 s = and_to4 (parse_ip ipv6 s)

unfoldable pub show_byte : ℕ → Text
show_byte b =
    if ltb b 10
    then (48 + b) ∷ []
    else if ltb b 100
    then (48 + b / 10) ∷ (48 + b % 10) ∷ []
    else (48 + b / 100) ∷ (48 + b / 10 % 10) ∷ (48 + b % 10) ∷ []

-- `net.IP.String`.
unfoldable pub show_ip : ℕ → Text
unfolding show_byte
show_ip a =
    show_byte (a / 2 ^ 24 % 256)
    ++ (46
        ∷ (show_byte (a / 2 ^ 16 % 256)
            ++ (46 ∷ (show_byte (a / 2 ^ 8 % 256) ++ (46 ∷ show_byte (a % 256))))))

-- A network: an address in it and the length of its prefix.
pub record Network : Type 0 where
  pub address : ℕ
  pub bits : ℕ

-- The addresses of the network agree in the prefix.
unfoldable pub contains : Network → ℕ → Bool
contains n a = eqb (a / 2 ^ (32 - n.bits)) (n.address / 2 ^ (32 - n.bits))
