-- ===== src/Packet/Whole.antt =====
-- vpn/packet.go: `RecalculateChecksum` as a whole, on a packet that `Parse` accepted.
use gravil.Base.{
  ℕ, zero, suc, ◌+◌, ◌≤◌, ◌<◌, ◌≡◌, ◌≢◌, refl, ap, ◌∙◌, List, [], ◌∷◌, arith, length, take, drop,
  get_or, none, some, inl, inr,
}
use gravil.Packet.{Packet, Slice}
use gravil.Packet.Checksum.{checksum_ipv4_header, checksum_ipv4_tcp_udp}
use gravil.Packet.Recalculate.{
  zero16, put16, header_len, put_transport, put_by_protocol, address_bytes, recalculate_checksum,
  ◌>>=◌,
}
use gravil.Packet.Sums.{IsBytes, IsEven}
use gravil.Packet.Around.{around, length-around, around-IsBytes}
use gravil.Packet.Verify.{with_header, put_header-eq, with_header-verifies}
use gravil.Packet.Transport.{read, put_transport-verifies}
use gravil.Packet.Laws.{IsReady, protocol, field, IsTransport, header_protocol}

-- The two transport protocols differ in the place of the field alone.
put_by_protocol-eq :
    (p : Packet) (ihl proto : ℕ) (xs : List ℕ)
    → IsTransport proto
    → put_by_protocol p ihl proto xs ≡ put_transport p ihl (field proto) proto xs
unfolding put_by_protocol
put_by_protocol-eq p ihl proto xs (inl e) = ground arith
put_by_protocol-eq p ihl proto xs (inr e) = ground arith

put_by_protocol_other :
    (p : Packet) (ihl proto : ℕ) (xs : List ℕ)
    → proto ≢ 6
    → proto ≢ 17
    → put_by_protocol p ihl proto xs ≡ some xs
unfolding put_by_protocol
put_by_protocol_other p ihl proto xs h g = ground arith

-- `RecalculateChecksum` of an IPv4 packet is its header part followed by its transport part.
recalculate_checksum-parts :
    (p : Packet)
    → IsReady p
    → recalculate_checksum p ≡ (
        put_by_protocol p (header_len p.content) (protocol p) (with_header p) >>= λ ys.
        some (record p { content = ys }))
unfolding recalculate_checksum
recalculate_checksum-parts p r =
    let long : 20 ≤ p.size = omega (arith, r.header, r.inside) in
    simp r.v4 (rw (put_header-eq p (omega arith) r.held, header_protocol p long r.held) refl)

field-IsEven : (proto : ℕ) → IsEven (field proto)
field-IsEven proto = ground arith

field-ge-six : (proto : ℕ) → 6 ≤ field proto
field-ge-six proto = ground arith

with_header-IsBytes : (p : Packet) → IsBytes p.content → IsBytes (with_header p)
with_header-IsBytes p h =
    around-IsBytes 10 _ _ (around 10 p.content 0 0) (omega arith) (omega arith)
      (around-IsBytes 10 0 0 p.content (omega arith) (omega arith) h)

length-with_header :
    (p : Packet) → 12 ≤ length p.content → length (with_header p) ≡ length p.content
length-with_header p h =
    length-around 10 _ _ (around 10 p.content 0 0)
      (omega (arith, length-around 10 0 0 p.content (omega arith)))
    ∙ length-around 10 0 0 p.content (omega arith)

get_or-lt : (i : ℕ) (xs : List ℕ) → IsBytes xs → get_or xs i 0 < 256
get_or-lt i [] h = omega arith
get_or-lt zero (x ∷ xs) h = h.0
get_or-lt (suc i) (x ∷ xs) h = get_or-lt i xs h.1

abbrev pub source : Slice
source = record { off = 12; len = 4 }

abbrev pub dest : Slice
dest = record { off = 16; len = 4 }

-- The routine's result, in the header as the header part left it.
pub recalculate_checksum-rewrites :
    (p : Packet)
    → IsReady p
    → IsTransport (protocol p)
    → header_len p.content + field (protocol p) + 2 ≤ p.size
    → (ys : List ℕ) × (recalculate_checksum p ≡ some (record p { content = ys }))
      × (checksum_ipv4_header (take (header_len p.content) ys) ≡ 0)
      × (checksum_ipv4_tcp_udp
            (drop (header_len p.content) (take p.size ys))
            (protocol p)
            (read source ys)
            (read dest ys)
          ≡ 0)
      × (take (header_len p.content) ys ≡ take (header_len p.content) (with_header p))
      × IsBytes ys
      × (length ys ≡ length p.content)
recalculate_checksum-rewrites p r t h =
    let ihl = header_len p.content in
    let len : length (with_header p) ≡ length p.content =
      length-with_header p (omega (arith, r.header, r.inside, r.held)) in
    let done =
      put_transport-verifies p source dest ihl (field (protocol p)) (protocol p) (with_header p)
        r.src r.dst (omega (arith, r.header)) (omega (arith, r.header)) h
        (omega (arith, len, r.held)) (omega (arith, len, r.small)) (field-IsEven (protocol p))
        (get_or-lt 9 p.content r.are_bytes) (with_header-IsBytes p r.are_bytes) in
    let head =
      with_header-verifies p (omega (arith, r.header, r.inside)) r.held r.small r.are_bytes r.header
        (omega (arith, r.inside, r.held)) in
    (
      done.0,
      recalculate_checksum-parts p r
          ∙ ap (λ o. o >>= λ ys. some (record p { content = ys }))
              (put_by_protocol-eq p ihl (protocol p) (with_header p) t ∙ done.1),
      ap checksum_ipv4_header done.3 ∙ head,
      done.2,
      done.3,
      done.4,
      done.5 ∙ len,
    )

-- On a TCP or UDP packet that holds the checksum field, the routine succeeds, and both checks of a
-- receiver succeed: the header's words, and the payload's with the pseudo header, sum to all ones.
pub recalculate_checksum-verifies :
    (p : Packet)
    → IsReady p
    → IsTransport (protocol p)
    → header_len p.content + field (protocol p) + 2 ≤ p.size
    → (ys : List ℕ) × (recalculate_checksum p ≡ some (record p { content = ys }))
      × (checksum_ipv4_header (take (header_len p.content) ys) ≡ 0)
      × (checksum_ipv4_tcp_udp
            (drop (header_len p.content) (take p.size ys))
            (protocol p)
            (read source ys)
            (read dest ys)
          ≡ 0)
recalculate_checksum-verifies p r t h =
    let w = recalculate_checksum-rewrites p r t h in (w.0, w.1, w.2, w.3)

-- On any other protocol the header part is all, and the header's check succeeds.
pub recalculate_checksum_other :
    (p : Packet)
    → IsReady p
    → protocol p ≢ 6
    → protocol p ≢ 17
    → (ys : List ℕ) × (recalculate_checksum p ≡ some (record p { content = ys }))
      × (checksum_ipv4_header (take (header_len p.content) ys) ≡ 0)
recalculate_checksum_other p r h g = (
  with_header p,
  recalculate_checksum-parts p r
      ∙ ap (λ o. o >>= λ ys. some (record p { content = ys }))
          (put_by_protocol_other p (header_len p.content) (protocol p) (with_header p) h g),
  with_header-verifies p (omega (arith, r.header, r.inside)) r.held r.small r.are_bytes r.header
      (omega (arith, r.inside, r.held)),
)

put_transport-none :
    (p : Packet) (ihl off proto : ℕ) (xs : List ℕ)
    → p.size < ihl + off + 2
    → put_transport p ihl off proto xs ≡ none
unfolding put_transport zero16 put16 address_bytes
put_transport-none p ihl off proto xs h = ground arith

-- A TCP or UDP packet that ends before its checksum field does makes the routine panic, although
-- `Parse` accepted it.
pub recalculate_checksum_panics :
    (p : Packet)
    → IsReady p
    → IsTransport (protocol p)
    → p.size < header_len p.content + field (protocol p) + 2
    → recalculate_checksum p ≡ none
recalculate_checksum_panics p r t h =
    recalculate_checksum-parts p r
    ∙ ap (λ o. o >>= λ ys. some (record p { content = ys }))
        (put_by_protocol-eq p (header_len p.content) (protocol p) (with_header p) t
          ∙ put_transport-none p (header_len p.content) (field (protocol p)) (protocol p)
              (with_header p) h)
