-- ===== src/Packet/Transport.antt =====
-- vpn/packet.go: the TCP and UDP part of `RecalculateChecksum`, over the bytes behind the header.
use gravil.Base.{
  ℕ, zero, suc, ◌+◌, ◌/◌, ◌%◌, ◌-◌, ◌≤◌, ◌<◌, ◌≡◌, refl, sym, ap, ap₂, ◌∙◌, List, [], ◌∷◌, ◌++◌,
  arith, length, take, drop, get_or, length-take, length-drop, take-append, drop-append, drop-drop,
  take-drop, take-take, min, Option, some,
}
use gravil.Packet.{Packet, Slice}
use gravil.Packet.Checksum.{fold_carries, complement, checksum_ipv4_tcp_udp, pseudo_sum, add_words}
use gravil.Packet.Recalculate.{address_bytes, put_transport}
use gravil.Packet.Sums.{IsBytes, IsEven, add_bytes-add_words}
use gravil.Packet.Around.{
  around, length-around, around-IsBytes, take-IsBytes, drop-IsBytes, around-around, zero16-around,
  put16-around,
}
use gravil.Packet.Verify.{region_verifies}

-- The bytes of a slice.
abbrev pub read : Slice → List ℕ → List ℕ
read s xs = take s.len (drop s.off xs)

abbrev Before : Slice → ℕ → Type 0
Before s n = s.off + s.len ≤ n

-- A word does not change what lies before it.
pub take-around_before :
    (n off a b : ℕ) (xs : List ℕ)
    → n ≤ off
    → off ≤ length xs
    → take n (around off xs a b) ≡ take n xs
take-around_before n off a b xs h fits =
    let low : min n off ≡ n = omega arith in
    take-append n (take off xs) _ (omega (arith, length-take off xs))
    ∙ take-take n off xs
    ∙ ap (λ k. take k xs) low

read-around :
    (s : Slice) (off a b : ℕ) (xs : List ℕ)
    → Before s off
    → off ≤ length xs
    → read s (around off xs a b) ≡ read s xs
read-around s off a b xs h fits =
    take-drop s.off s.len (around off xs a b)
    ∙ ap (drop s.off) (take-around_before (s.off + s.len) off a b xs h fits)
    ∙ sym (take-drop s.off s.len xs)

-- Seen from behind the header, the word stands at the offset less the header's length.
drop-around :
    (k off a b : ℕ) (xs : List ℕ)
    → k + off + 2 ≤ length xs
    → drop k (around (k + off) xs a b) ≡ around off (drop k xs) a b
drop-around k off a b xs h =
    drop-append k (take (k + off) xs) _ (omega (arith, length-take (k + off) xs))
    ∙ ap₂ (λ pre post. pre ++ (a ∷ b ∷ post)) (sym (take-drop k off xs))
        (sym (drop-drop (off + 2) k (k + off + 2) xs (omega arith)))

-- The bytes behind the header, in a packet of `size` bytes.
payload-around :
    (k off size a b : ℕ) (xs : List ℕ)
    → k + off + 2 ≤ size
    → size ≤ length xs
    → drop k (take size (around (k + off) xs a b)) ≡ take (size - k) (around off (drop k xs) a b)
payload-around k off size a b xs h fits =
    let sum : size ≡ k + (size - k) = omega arith in
    ap (λ n. drop k (take n (around (k + off) xs a b))) sum
    ∙ sym (take-drop k (size - k) (around (k + off) xs a b))
    ∙ ap (take (size - k)) (drop-around k off a b xs (omega arith))

get_or-IsBytes : (xs : List ℕ) (i : ℕ) → IsBytes xs → get_or xs i 0 < 256
get_or-IsBytes [] i h = omega arith
get_or-IsBytes (x ∷ xs) zero h = h.0
get_or-IsBytes (x ∷ xs) (suc i) h = get_or-IsBytes xs i h.1

pub pseudo_sum-lt :
    (total protocol : ℕ) (src dst : List ℕ)
    → protocol < 256
    → IsBytes src
    → IsBytes dst
    → pseudo_sum total protocol src dst < 4000000000
unfolding pseudo_sum
pseudo_sum-lt total protocol src dst h hs hd = omega (
  arith,
  get_or-IsBytes src 0 hs,
  get_or-IsBytes src 1 hs,
  get_or-IsBytes src 2 hs,
  get_or-IsBytes src 3 hs,
  get_or-IsBytes dst 0 hd,
  get_or-IsBytes dst 1 hd,
  get_or-IsBytes dst 2 hd,
  get_or-IsBytes dst 3 hd,
)

read-IsBytes : (s : Slice) (xs : List ℕ) → IsBytes xs → IsBytes (read s xs)
read-IsBytes s xs h = take-IsBytes s.len (drop s.off xs) (drop-IsBytes s.off xs h)

address_bytes-eq :
    (o : Option Slice) (s : Slice) (xs : List ℕ)
    → o ≡ some s
    → address_bytes o xs ≡ some (read s xs)
unfolding address_bytes
address_bytes-eq o s xs e = ap (λ (o' : Option Slice). address_bytes o' xs) e

module _ (p : Packet) (s d : Slice) (ihl off protocol : ℕ) (xs : List ℕ) (src : p.src ≡ some s)
    (dst : p.dst ≡ some d) (s_before : Before s (ihl + off)) (d_before : Before d (ihl + off))
    (inside : ihl + off + 2 ≤ p.size) (fits : p.size ≤ length xs) (small : length xs ≤ 3586)
    (even : IsEven off) (byte : protocol < 256) (bs : IsBytes xs) where
  -- The pseudo header's sum does not depend on the word that is written.
  seed : ℕ
  seed = pseudo_sum (p.size - ihl) protocol (read s xs) (read d xs)

  abbrev segment : List ℕ → ℕ
  segment ys = checksum_ipv4_tcp_udp (drop ihl (take p.size ys)) protocol (read s ys) (read d ys)

  segment-around :
      (a b : ℕ)
      → segment (around (ihl + off) xs a b)
        ≡ complement
            (fold_carries 3 (add_words seed (take (p.size - ihl) (around off (drop ihl xs) a b))))
  unfolding checksum_ipv4_tcp_udp seed
  segment-around a b =
      let len : length (take (p.size - ihl) (around off (drop ihl xs) a b)) ≡ p.size - ihl = omega (
        arith,
        length-take (p.size - ihl) (around off (drop ihl xs) a b),
        length-around off a b (drop ihl xs) (omega (arith, length-drop ihl xs)),
        length-drop ihl xs,
      ) in
      rw
        (
          payload-around ihl off p.size a b xs inside fits,
          read-around s (ihl + off) a b xs s_before (omega arith),
          read-around d (ihl + off) a b xs d_before (omega arith),
          len,
          add_bytes-add_words,
        )
        refl

  -- The transport part succeeds on a packet that holds the checksum field; a receiver's check of
  -- the result succeeds, and the header's bytes stay as they were.
  pub put_transport-verifies :
      (ys : List ℕ) × (put_transport p ihl off protocol xs ≡ some ys)
      × (segment ys ≡ 0)
      × (take ihl ys ≡ take ihl xs)
      × IsBytes ys
      × (length ys ≡ length xs)
  unfolding put_transport
  put_transport-verifies =
      let zeroed = around (ihl + off) xs 0 0 in
      let c = segment zeroed in
      let hi = c / 256 % 256 in
      let lo = c % 256 in
      (
        around (ihl + off) zeroed hi lo,
        rw
            (
              zero16-around p.size (ihl + off) xs inside fits,
              address_bytes-eq p.src s zeroed src,
              address_bytes-eq p.dst d zeroed dst,
            )
            (put16-around p.size (ihl + off) c zeroed inside
              (omega (arith, length-around (ihl + off) 0 0 xs (omega arith)))),
        ap segment (around-around (ihl + off) 0 0 hi lo xs (omega arith))
            ∙ segment-around hi lo
            ∙ region_verifies seed off (p.size - ihl) (drop ihl xs) even (omega arith)
                (omega (arith, length-drop ihl xs)) (omega (arith, length-drop ihl xs))
                (unfold seed in
                  pseudo_sum-lt (p.size - ihl) protocol _ _ byte (read-IsBytes s xs bs)
                    (read-IsBytes d xs bs))
                (drop-IsBytes ihl xs bs) c (segment-around 0 0),
        ap (take ihl) (around-around (ihl + off) 0 0 hi lo xs (omega arith))
            ∙ take-around_before ihl (ihl + off) hi lo xs (omega arith) (omega arith),
        around-IsBytes (ihl + off) hi lo zeroed (omega arith) (omega arith)
            (around-IsBytes (ihl + off) 0 0 xs (omega arith) (omega arith) bs),
        length-around (ihl + off) hi lo zeroed
              (omega (arith, length-around (ihl + off) 0 0 xs (omega arith)))
            ∙ length-around (ihl + off) 0 0 xs (omega arith),
      )
