-- ===== src/Packet/Sums.antt =====
-- vpn/packet.go: the checksum loops against the plain sum of 16-bit words, modulo 65535.
use gravil.Base.{
  ℕ, zero, suc, ◌+◌, ◌*◌, ◌%◌, ◌≤◌, ◌<◌, ◌≡◌, refl, ap, ◌∙◌, List, [], ◌∷◌, ◌++◌, arith, length,
}
use gravil.Packet.Checksum.{
  add_words, add_bytes, fold_carries, complement, checksum_ipv4_header, tcpip_checksum,
}

abbrev pub IsBytes : List ℕ → Type 0
IsBytes [] = Unit {0}
IsBytes (b ∷ bs) = (b < 256) × IsBytes bs

-- The sum of the words, with no bound.
unfoldable pub words : List ℕ → ℕ
words [] = 0
words (a ∷ []) = a * 256
words (a ∷ b ∷ rest) = a * 256 + b + words rest

pub words-le : (bs : List ℕ) → IsBytes bs → words bs ≤ 65280 * length bs
unfolding words
words-le [] h = omega arith
words-le (a ∷ []) h = omega arith
words-le (a ∷ b ∷ rest) h = omega (arith, words-le rest h.1.1)

-- No wrap below 2 ^ 32: the loops add up the words.
pub add_words-words :
    (v : ℕ) (bs : List ℕ) → v + words bs < 4294967296 → add_words v bs ≡ v + words bs
unfolding add_words words
add_words-words v [] h = omega arith
add_words-words v (a ∷ []) h = omega arith
add_words-words v (a ∷ b ∷ rest) h =
    let e : (v + (a * 256 + b)) % 4294967296 ≡ v + (a * 256 + b) = omega arith in
    ap (λ w. add_words w rest) e
    ∙ add_words-words (v + (a * 256 + b)) rest (omega arith)
    ∙ omega arith

-- Adding byte by byte or word by word is the same, with the wrap too.
pub add_bytes-add_words : (v : ℕ) (bs : List ℕ) → add_bytes v bs ≡ add_words v bs
unfolding add_words add_bytes
add_bytes-add_words v [] = refl
add_bytes-add_words v (a ∷ []) = refl
add_bytes-add_words v (a ∷ b ∷ rest) =
    let e : ((v + a * 256) % 4294967296 + b) % 4294967296 ≡ (v + (a * 256 + b)) % 4294967296 =
      omega arith in
    ap (λ w. add_bytes w rest) e ∙ add_bytes-add_words ((v + (a * 256 + b)) % 4294967296) rest

-- The carry loop ends within two rounds on any uint32, at a value below 2 ^ 16 that is zero only
-- for zero and leaves the remainder modulo 65535 alone.
pub fold_carries_ends :
    (v fuel : ℕ)
    → v < 4294967296
    → (fold_carries (suc (suc (suc fuel))) v ≤ 65535)
      × (fold_carries (suc (suc (suc fuel))) v % 65535 ≡ v % 65535)
      × (0 < v → 0 < fold_carries (suc (suc (suc fuel))) v)
unfolding fold_carries
fold_carries_ends v fuel h = ground arith

-- vpn/packet.go computes the header's checksum and the payload's by two copies of one algorithm.
pub checksum_ipv4_header-tcpip_checksum :
    (bs : List ℕ) → checksum_ipv4_header bs ≡ tcpip_checksum bs 0
unfolding checksum_ipv4_header tcpip_checksum
checksum_ipv4_header-tcpip_checksum bs = rw add_bytes-add_words

positive :
    (s : ℕ)
    → s < 4294901760
    → 0 < s
    → complement (fold_carries 3 (s + complement (fold_carries 3 s))) ≡ 0
positive s h pos =
    let small = fold_carries_ends s 0 (omega arith) in
    let large = fold_carries_ends (s + complement (fold_carries 3 s)) 0 (omega arith) in
    omega (arith, small.0, small.1, large.0, large.1, large.2 (omega arith))

-- A sum together with the complement of its folded value folds to all ones.
pub complement_verifies :
    (s : ℕ) → s < 4294901760 → complement (fold_carries 3 (s + complement (fold_carries 3 s))) ≡ 0
unfolding fold_carries
complement_verifies zero h = refl
complement_verifies (suc s) h = positive (suc s) h (omega arith)

abbrev pub IsEven : ℕ → Type 0
IsEven n = n % 2 ≡ 0

-- A word at an even place adds its value.
pub words-append :
    (pre : List ℕ) (a b : ℕ) (post : List ℕ)
    → IsEven (length pre)
    → words (pre ++ a ∷ b ∷ post) ≡ words pre + (a * 256 + b) + words post
unfolding words
words-append [] a b post h = omega arith
words-append (x ∷ []) a b post h = absurd (omega arith)
words-append (x ∷ y ∷ pre) a b post h = omega (arith, words-append pre a b post (omega arith))
