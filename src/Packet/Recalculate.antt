-- ===== src/Packet/Recalculate.antt =====
-- vpn/packet.go: `RecalculateChecksum`. `none` is a run-time panic: a slice expression beyond the
-- length, or an index out of range.
use gravil.Base.{
  ℕ, ◌+◌, ◌*◌, ◌/◌, ◌%◌, ◌-◌, Option, none, some, List, [], ◌∷◌, take, drop, get_or, leb, eqb,
  if◌then◌else◌,
}
use gravil.Packet.{Packet, Slice, write_at}
use gravil.Packet.Checksum.{checksum_ipv4_header, checksum_ipv4_tcp_udp}

infixl 10 ◌>>=◌
abbrev pub ◌>>=◌ {ℓ κ} : {A : Type ℓ} {B : Type κ} → Option A → (A → Option B) → Option B
none >>= f = none
some a >>= f = f a

-- `copy(data.Packet[off:], []byte{0, 0})` in a packet of `size` bytes.
unfoldable pub zero16 : ℕ → ℕ → List ℕ → Option (List ℕ)
unfolding write_at
zero16 size off xs =
    if leb off size then some (write_at off (take (size - off) (0 ∷ 0 ∷ [])) xs) else none

-- `binary.BigEndian.PutUint16(data.Packet[off:], v)`.
unfoldable pub put16 : ℕ → ℕ → ℕ → List ℕ → Option (List ℕ)
unfolding write_at
put16 size off v xs =
    if leb (off + 2) size then some (write_at off (v / 256 % 256 ∷ v % 256 ∷ []) xs) else none

-- The bytes behind `data.Src` or `data.Dst`; to index a nil address panics.
unfoldable pub address_bytes : Option Slice → List ℕ → Option (List ℕ)
address_bytes none xs = none
address_bytes (some s) xs = some (take s.len (drop s.off xs))

-- `int(data.Packet[0] & 0x0f) << 2`.
unfoldable pub header_len : List ℕ → ℕ
header_len xs = get_or xs 0 0 % 16 * 4

-- The TCP and UDP cases, which differ in the place of the checksum.
unfoldable pub put_transport : Packet → ℕ → ℕ → ℕ → List ℕ → Option (List ℕ)
put_transport p ihl off protocol xs = do
  zeroed ← zero16 p.size (ihl + off) xs
  src ← address_bytes p.src zeroed
  dst ← address_bytes p.dst zeroed
  put16 p.size (ihl + off) (checksum_ipv4_tcp_udp (drop ihl (take p.size zeroed)) protocol src dst)
      zeroed

unfoldable pub put_by_protocol : Packet → ℕ → ℕ → List ℕ → Option (List ℕ)
put_by_protocol p ihl protocol xs =
    if eqb protocol 6
    then put_transport p ihl 16 protocol xs
    else if eqb protocol 17
    then put_transport p ihl 6 protocol xs
    else some xs

-- The header: zero the field, sum `data.Packet[:ipHeaderLen]` (which may reach behind the packet's
-- end, within the buffer), and write the result.
unfoldable pub put_header : Packet → Option (List ℕ)
put_header p = do
  zeroed ← zero16 p.size 10 p.content
  put16 p.size 10 (checksum_ipv4_header (take (header_len p.content) zeroed)) zeroed

unfoldable pub recalculate_checksum : Packet → Option Packet
recalculate_checksum p = if p.is_ipv6 then some p else do
  xs ← put_header p
  ys ← put_by_protocol p (header_len p.content) (get_or xs 9 0) xs
  some (record p { content = ys })
