-- ===== src/Packet/Checksum.antt =====
-- vpn/packet.go: the Internet checksums, with the wrap of uint32 and uint16 written out.
use gravil.Base.{
  ℕ, zero, suc, ◌+◌, ◌*◌, ◌/◌, ◌%◌, ◌-◌, ◌^◌, List, [], ◌∷◌, length, get_or, ltb, if◌then◌else◌,
}

abbrev pub u32 : ℕ
u32 = 2 ^ 32

-- The loops that add up big-endian 16-bit words, the last byte of an odd length as a high byte.
unfoldable pub add_words : ℕ → List ℕ → ℕ
add_words v [] = v
add_words v (a ∷ []) = (v + a * 256) % u32
add_words v (a ∷ b ∷ rest) = add_words ((v + (a * 256 + b)) % u32) rest

-- The same loop where the two bytes are added one after the other.
unfoldable pub add_bytes : ℕ → List ℕ → ℕ
add_bytes v [] = v
add_bytes v (a ∷ []) = (v + a * 256) % u32
add_bytes v (a ∷ b ∷ rest) = add_bytes (((v + a * 256) % u32 + b) % u32) rest

-- `for v > 0xffff { v = (v >> 16) + (v & 0xffff) }`.
unfoldable pub fold_carries : ℕ → ℕ → ℕ
fold_carries zero v = v
fold_carries (suc fuel) v =
    let rest = fold_carries fuel (v / 65536 + v % 65536) in if ltb 65535 v then rest else v

-- `^uint16(v)`.
abbrev pub complement : ℕ → ℕ
complement v = 65535 - v % 65536

-- Two rounds are enough for any uint32 (Sums.fold_carries_ends).
unfoldable pub checksum_ipv4_header : List ℕ → ℕ
unfolding add_words fold_carries
checksum_ipv4_header buf = complement (fold_carries 3 (add_words 0 buf))

unfoldable pub tcpip_checksum : List ℕ → ℕ → ℕ
unfolding add_bytes fold_carries
tcpip_checksum payload csum = complement (fold_carries 3 (add_bytes csum payload))

-- The pseudo header: the two addresses, the protocol and the length.
unfoldable pub pseudo_sum : ℕ → ℕ → List ℕ → List ℕ → ℕ
pseudo_sum total protocol src dst =
    let at = λ (xs : List ℕ) (i : ℕ). get_or xs i 0 in
    let s1 = ((at src 0 + at src 2) * 256) % u32 in
    let s2 = (s1 + (at src 1 + at src 3)) % u32 in
    let s3 = (s2 + (at dst 0 + at dst 2) * 256) % u32 in
    let s4 = (s3 + (at dst 1 + at dst 3)) % u32 in
    let len = total % u32 in (((s4 + protocol) % u32 + len % 65536) % u32 + len / 65536) % u32

unfoldable pub checksum_ipv4_tcp_udp : List ℕ → ℕ → List ℕ → List ℕ → ℕ
unfolding tcpip_checksum pseudo_sum
checksum_ipv4_tcp_udp payload protocol src dst =
    tcpip_checksum payload (pseudo_sum (length payload) protocol src dst)
