-- ===== src/Packet/Laws.antt =====
-- vpn/packet.go: `Parse` and `RecalculateChecksum` as a whole.
use gravil.Base.{
  ℕ, zero, suc, ◌+◌, ◌/◌, ◌≤◌, ◌<◌, ◌≡◌, refl, sym, ap, ◌∙◌, List, [], ◌∷◌, arith, length, take,
  get_or, some, true, false, ◌↔◌, ◌⊎◌, eqb, if◌then◌else◌,
}
use gravil.Packet.{Packet, parse}
use gravil.Packet.Recalculate.{header_len}
use gravil.Packet.Sums.{IsBytes}
use gravil.Packet.Around.{around, length-around}
use gravil.Packet.Verify.{with_header}
use gravil.Packet.Transport.{take-around_before}

abbrev pub version : Packet → ℕ
version p = get_or p.content 0 0 / 16

-- What `Parse` accepts.
abbrev pub Accepted : Packet → Type 0
Accepted p = ((version p ≡ 4) × (20 ≤ p.size)) ⊎ ((version p ≡ 6) × (40 ≤ p.size))

-- `Parse` succeeds exactly on a packet that has the whole fixed header of its version.
pub parse_iff : (p : Packet) → ((parse p).1 ≡ true) ↔ Accepted p
unfolding parse
parse_iff p = (λ h. ground arith, λ h. ground arith)

abbrev pub address_len : Packet → ℕ
address_len p = if eqb (version p) 4 then 4 else 16

abbrev pub source_place : Packet → ℕ
source_place p = if eqb (version p) 4 then 12 else 8

-- A rejected packet is left as it was.
abbrev pub Rejected : Packet → Type 0
Rejected p = ((parse p).1 ≡ false) × ((parse p).0 ≡ p)

-- The two addresses stand one behind the other inside the packet's bytes.
abbrev pub Located : Packet → Type 0
Located p =
    ((parse p).1 ≡ true)
    × ((parse p).0.src ≡ some (record { off = source_place p; len = address_len p }))
    × ((parse p).0.dst
        ≡ some (record { off = source_place p + address_len p; len = address_len p }))
    × (source_place p + address_len p + address_len p ≤ p.size)

-- What `Parse` does to a packet.
abbrev pub IsParsed : Packet → Type 0
IsParsed p =
    ((parse p).0.content ≡ p.content) × ((parse p).0.size ≡ p.size) × (Rejected p ⊎ Located p)

-- The bytes are those that came in, a rejected packet is left as it was, and the two addresses of
-- an accepted one stand one behind the other inside its bytes.
pub parse-slices : (p : Packet) → IsParsed p
unfolding parse
parse-slices p = (ground arith, ground arith, ground arith)

-- An IPv4 packet as `Parse` leaves it, with a header that lies inside it.
pub record IsReady (p : Packet) : Type 0 where
  pub v4 : p.is_ipv6 ≡ false
  pub src : p.src ≡ some (record { off = 12; len = 4 })
  pub dst : p.dst ≡ some (record { off = 16; len = 4 })
  pub header : 20 ≤ header_len p.content
  pub inside : header_len p.content ≤ p.size
  pub held : p.size ≤ length p.content
  pub small : length p.content ≤ 3586
  pub are_bytes : IsBytes p.content

abbrev pub protocol : Packet → ℕ
protocol p = get_or p.content 9 0

-- The place of the checksum field behind the header.
abbrev pub field : ℕ → ℕ
field proto = if eqb proto 6 then 16 else 6

abbrev pub IsTransport : ℕ → Type 0
IsTransport proto = (proto ≡ 6) ⊎ (proto ≡ 17)

get_or-take : (i n : ℕ) (xs : List ℕ) → i < n → get_or (take n xs) i 0 ≡ get_or xs i 0
get_or-take i zero xs h = absurd (omega arith)
get_or-take i (suc n) [] h = refl
get_or-take zero (suc n) (x ∷ xs) h = refl
get_or-take (suc i) (suc n) (x ∷ xs) h = get_or-take i n xs (omega arith)

get_or-around :
    (i off a b : ℕ) (xs : List ℕ)
    → i < off
    → off ≤ length xs
    → get_or (around off xs a b) i 0 ≡ get_or xs i 0
get_or-around i off a b xs h fits =
    sym (get_or-take i off (around off xs a b) h)
    ∙ ap (λ ys. get_or ys i 0) (take-around_before off off a b xs (omega arith) fits)
    ∙ get_or-take i off xs h

pub header_protocol :
    (p : Packet) → 20 ≤ p.size → p.size ≤ length p.content → get_or (with_header p) 9 0 ≡ protocol p
header_protocol p h fits =
    get_or-around 9 10 _ _ (around 10 p.content 0 0) (omega arith)
      (omega (arith, length-around 10 0 0 p.content (omega arith)))
    ∙ get_or-around 9 10 0 0 p.content (omega arith) (omega arith)
