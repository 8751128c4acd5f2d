-- ===== src/Packet/Verify.antt =====
-- vpn/packet.go: what `RecalculateChecksum` leaves behind verifies, and when it panics.
use gravil.Base.{
  ℕ, ◌+◌, ◌*◌, ◌/◌, ◌%◌, ◌-◌, ◌≤◌, ◌<◌, ◌≡◌, refl, ap, ◌∙◌, List, ◌∷◌, ◌++◌, arith, length, take,
  drop, length-take, length-drop, some,
}
use gravil.Packet.{Packet}
use gravil.Packet.Checksum.{fold_carries, complement, checksum_ipv4_header, add_words}
use gravil.Packet.Recalculate.{header_len, put_header}
use gravil.Packet.Sums.{
  IsBytes, IsEven, words, words-le, words-append, add_words-words, complement_verifies,
}
use gravil.Packet.Around.{
  around, take-around, length-around, take-IsBytes, drop-IsBytes, around-around, zero16-around,
  put16-around,
}

-- The word of a checksum, in its two bytes, has the checksum's value.
word_value : (v : ℕ) → v < 65536 → v / 256 % 256 * 256 + v % 256 ≡ v
word_value v h = omega arith

-- A checksum that is stored at an even place where the two bytes were zero: the sum of all the
-- words then folds to all ones, whatever else is added to it.
stored_verifies :
    (v : ℕ) (pre post : List ℕ)
    → IsEven (length pre)
    → v + words pre + words post < 4294901760
    → (c : ℕ) → c ≡ complement (fold_carries 3 (add_words v (pre ++ 0 ∷ 0 ∷ post)))
    → complement (fold_carries 3 (add_words v (pre ++ (c / 256 % 256) ∷ (c % 256) ∷ post))) ≡ 0
stored_verifies v pre post even small c e =
    let zeroed : add_words v (pre ++ 0 ∷ 0 ∷ post) ≡ v + words pre + words post =
      add_words-words v (pre ++ 0 ∷ 0 ∷ post) (omega (arith, words-append pre 0 0 post even))
      ∙ omega (arith, words-append pre 0 0 post even) in
    let c_is : c ≡ complement (fold_carries 3 (v + words pre + words post)) =
      e ∙ ap (λ s. complement (fold_carries 3 s)) zeroed in
    let filled : add_words v (pre ++ (c / 256 % 256) ∷ (c % 256) ∷ post)
        ≡ (v + words pre + words post) + complement (fold_carries 3 (v + words pre + words post)) =
      add_words-words v _ (omega (arith, words-append pre (c / 256 % 256) (c % 256) post even))
      ∙ omega (arith, c_is, words-append pre (c / 256 % 256) (c % 256) post even) in
    ap (λ s. complement (fold_carries 3 s)) filled
    ∙ complement_verifies (v + words pre + words post) small

-- The checksum field of a header.
abbrev pub header_checksum : Packet → ℕ
header_checksum p = checksum_ipv4_header (take (header_len p.content) (around 10 p.content 0 0))

abbrev pub with_header : Packet → List ℕ
with_header p =
    around 10 (around 10 p.content 0 0) (header_checksum p / 256 % 256) (header_checksum p % 256)

pub put_header-eq :
    (p : Packet) → 12 ≤ p.size → p.size ≤ length p.content → put_header p ≡ some (with_header p)
unfolding put_header
put_header-eq p h fits = rw (zero16-around p.size 10 p.content h fits) (
    put16-around p.size 10 (header_checksum p) (around 10 p.content 0 0) h
      (omega (arith, length-around 10 0 0 p.content (omega arith))))

-- What the checksum of a region becomes once it is stored in its zeroed field at `off`.
pub region_verifies :
    (v off n : ℕ) (xs : List ℕ)
    → IsEven off
    → off + 2 ≤ n
    → n ≤ length xs
    → length xs ≤ 3586
    → v < 4000000000
    → IsBytes xs
    → (c : ℕ) → c ≡ complement (fold_carries 3 (add_words v (take n (around off xs 0 0))))
    → complement (fold_carries 3 (add_words v (take n (around off xs (c / 256 % 256) (c % 256)))))
      ≡ 0
region_verifies v off n xs even h fits small vs bs c e =
    let m = n - (off + 2) in
    let pre = take off xs in
    let post = take m (drop (off + 2) xs) in
    let cut = λ (a b : ℕ). take-around off m n a b xs (omega arith) (omega arith) in
    let total : v + words pre + words post < 4294901760 = omega (
      arith,
      words-le pre (take-IsBytes off xs bs),
      words-le post (take-IsBytes m (drop (off + 2) xs) (drop-IsBytes (off + 2) xs bs)),
      length-take off xs,
      length-take m (drop (off + 2) xs),
      length-drop (off + 2) xs,
    ) in
    let even' : IsEven (length pre) = omega (arith, length-take off xs) in
    ap (λ ys. complement (fold_carries 3 (add_words v ys))) (cut (c / 256 % 256) (c % 256))
    ∙ stored_verifies v pre post even' total c
        (e ∙ ap (λ ys. complement (fold_carries 3 (add_words v ys))) (cut 0 0))

-- After the header part, the header's words sum to all ones: a receiver's check succeeds.
pub with_header-verifies :
    (p : Packet)
    → 12 ≤ p.size
    → p.size ≤ length p.content
    → length p.content ≤ 3586
    → IsBytes p.content
    → 20 ≤ header_len p.content
    → header_len p.content ≤ length p.content
    → checksum_ipv4_header (take (header_len p.content) (with_header p)) ≡ 0
unfolding checksum_ipv4_header
with_header-verifies p h fits small bs long inside =
    ap (λ xs. checksum_ipv4_header (take (header_len p.content) xs))
      (around-around 10 0 0 _ _ p.content (omega arith))
    ∙ region_verifies 0 10 (header_len p.content) p.content refl (omega arith) (omega arith) small
        (omega arith) bs (header_checksum p) refl
