-- ===== src/Packet/Receiver.antt =====
-- RFC 1071 and RFC 793: the check that a receiver makes, over the bytes of a packet, and that the
-- sums of vpn/packet.go agree with it.
use gravil.Base.{
  ℕ, zero, suc, ◌+◌, ◌/◌, ◌%◌, ◌≤◌, ◌<◌, ◌≡◌, refl, sym, subst, ap, ◌∙◌, List, [], ◌∷◌, ◌++◌, arith,
  length,
}
use gravil.Packet.Checksum.{
  fold_carries, complement, add_words, add_bytes, checksum_ipv4_header, tcpip_checksum, pseudo_sum,
  checksum_ipv4_tcp_udp,
}
use gravil.Packet.Transport.{pseudo_sum-lt}
use gravil.Packet.Sums.{
  IsBytes, words, words-le, add_words-words, add_bytes-add_words, fold_carries_ends,
}

-- The sum of the 16-bit words in ones' complement is all ones: a multiple of 65535, and not zero.
abbrev pub HasChecksum : List ℕ → Type 0
HasChecksum bs = (0 < words bs) × (words bs % 65535 ≡ 0)

-- The pseudo header: the addresses, a zero byte, the protocol and the length of the segment.
abbrev pub pseudo_header : List ℕ → List ℕ → ℕ → ℕ → List ℕ
pseudo_header src dst proto len = src ++ (dst ++ 0 ∷ proto ∷ len / 256 ∷ len % 256 ∷ [])

folded : (v : ℕ) → v < 4294967296 → complement (fold_carries 3 v) ≡ 0 → (0 < v) × (v % 65535 ≡ 0)
unfolding fold_carries
folded v h e =
    let f = fold_carries_ends v 0 h in
    let ones : fold_carries 3 v ≡ 65535 = omega (arith, e, f.0) in
    (positive v ones, sym f.1 ∙ ap (λ w. w % 65535) ones)
  where
    positive : (v : ℕ) → fold_carries 3 v ≡ 65535 → 0 < v
    positive zero k = absurd (omega (arith, k))
    positive (suc v) k = omega arith

pub header-HasChecksum :
    (bs : List ℕ) → IsBytes bs → length bs ≤ 3586 → checksum_ipv4_header bs ≡ 0 → HasChecksum bs
unfolding checksum_ipv4_header
header-HasChecksum bs h small e =
    let bound : words bs < 4294967296 = omega (arith, words-le bs h) in
    let sum : add_words 0 bs ≡ words bs =
      add_words-words 0 bs (omega (arith, bound)) ∙ omega arith in
    folded (words bs) bound (ap (λ w. complement (fold_carries 3 w)) (sym sum) ∙ e)

four : (xs : List ℕ) → length xs ≡ 4 → (a b c d : ℕ) × (xs ≡ a ∷ b ∷ c ∷ d ∷ [])
four [] h = absurd (omega (arith, h))
four (a ∷ []) h = absurd (omega (arith, h))
four (a ∷ b ∷ []) h = absurd (omega (arith, h))
four (a ∷ b ∷ c ∷ []) h = absurd (omega (arith, h))
four (a ∷ b ∷ c ∷ d ∷ []) h = (a, b, c, d, refl)
four (a ∷ b ∷ c ∷ d ∷ e ∷ xs) h = absurd (omega (arith, h))

module _ (proto : ℕ) (bs : List ℕ) where
  -- The code's sum of the pseudo header is that of its words.
  pseudo-words :
      (a b c d e f g h : ℕ)
      → IsBytes (a ∷ b ∷ c ∷ d ∷ [])
      → IsBytes (e ∷ f ∷ g ∷ h ∷ [])
      → proto < 256
      → length bs ≤ 3586
      → words (pseudo_header (a ∷ b ∷ c ∷ d ∷ []) (e ∷ f ∷ g ∷ h ∷ []) proto (length bs) ++ bs)
        ≡ pseudo_sum (length bs) proto (a ∷ b ∷ c ∷ d ∷ []) (e ∷ f ∷ g ∷ h ∷ []) + words bs
  unfolding words pseudo_sum
  pseudo-words a b c d e f g h hs hd hp small = omega (arith, hs, hd, hp, small)

  four-HasChecksum :
      (a b c d e f g h : ℕ)
      → IsBytes (a ∷ b ∷ c ∷ d ∷ [])
      → IsBytes (e ∷ f ∷ g ∷ h ∷ [])
      → proto < 256
      → IsBytes bs
      → length bs ≤ 3586
      → checksum_ipv4_tcp_udp bs proto (a ∷ b ∷ c ∷ d ∷ []) (e ∷ f ∷ g ∷ h ∷ []) ≡ 0
      → HasChecksum
          (pseudo_header (a ∷ b ∷ c ∷ d ∷ []) (e ∷ f ∷ g ∷ h ∷ []) proto (length bs) ++ bs)
  unfolding checksum_ipv4_tcp_udp tcpip_checksum
  four-HasChecksum a b c d e f g h hs hd hp hb small z =
      let src = a ∷ b ∷ c ∷ d ∷ [] in
      let dst = e ∷ f ∷ g ∷ h ∷ [] in
      let seed = pseudo_sum (length bs) proto src dst in
      let all = pseudo-words a b c d e f g h hs hd hp small in
      let bound : seed + words bs < 4294967296 =
        omega (arith, words-le bs hb, pseudo_sum-lt (length bs) proto src dst hp hs hd) in
      let sum : add_bytes seed bs ≡ seed + words bs =
        add_bytes-add_words seed bs ∙ add_words-words seed bs bound in
      let v =
        folded (seed + words bs) bound (ap (λ w. complement (fold_carries 3 w)) (sym sum) ∙ z) in
      (omega (arith, all, v.0), ap (λ w. w % 65535) all ∙ v.1)

  -- Where the code's check of a segment succeeds, the receiver's does.
  pub segment-HasChecksum :
      (src dst : List ℕ)
      → length src ≡ 4
      → length dst ≡ 4
      → IsBytes src
      → IsBytes dst
      → proto < 256
      → IsBytes bs
      → length bs ≤ 3586
      → checksum_ipv4_tcp_udp bs proto src dst ≡ 0
      → HasChecksum (pseudo_header src dst proto (length bs) ++ bs)
  segment-HasChecksum src dst ls ld hs hd hp hb small z =
      let (a, b, c, d, s) = four src ls in
      let (e, f, g, h, t) = four dst ld in
      subst
        (λ x.
          IsBytes x
          → checksum_ipv4_tcp_udp bs proto x dst ≡ 0
          → HasChecksum (pseudo_header x dst proto (length bs) ++ bs))
        (sym s)
        (λ hs'.
          subst
            (λ y.
              IsBytes y
              → checksum_ipv4_tcp_udp bs proto (a ∷ b ∷ c ∷ d ∷ []) y ≡ 0
              → HasChecksum (pseudo_header (a ∷ b ∷ c ∷ d ∷ []) y proto (length bs) ++ bs))
            (sym t) (λ hd' z'. four-HasChecksum a b c d e f g h hs' hd' hp hb small z') hd)
        hs z
