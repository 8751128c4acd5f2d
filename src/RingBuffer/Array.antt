-- ===== src/RingBuffer/Array.antt =====
-- ringbuffer/ring_buffer.go: `copy` into an array, and the newest bytes of a list.
use gravil.Base.{
  ℕ, ◌+◌, ◌-◌, ◌≤◌, min, ◌≡◌, ap, ◌∙◌, List, ◌++◌, arith, length, take, drop, length-append,
  length-take, length-drop, take-append, take-append_right, drop-append, drop-drop, take-take,
}
use gravil.RingBuffer.{copy_at}

-- The last `n` entries of a list.
abbrev pub last_n : ℕ → List ℕ → List ℕ
last_n n xs = drop (length xs - n) xs

pub last_n-last_n : (n : ℕ) (xs ys : List ℕ) → last_n n (last_n n xs ++ ys) ≡ last_n n (xs ++ ys)
last_n-last_n n xs ys = rw (← drop-append (length xs - n) xs ys (omega arith)) (
    drop-drop _ (length xs - n) (length (xs ++ ys) - n) (xs ++ ys)
      (omega (arith, length-append xs ys, length-drop (length xs - n) (xs ++ ys))))

pub last_n-short : (n : ℕ) (xs : List ℕ) → length xs ≤ n → last_n n xs ≡ xs
last_n-short n xs h = let e : length xs - n ≡ 0 = omega arith in ap (λ j. drop j xs) e

pub length-copy_at :
    (buf src : List ℕ) (off : ℕ) → off ≤ length buf → length (copy_at buf off src) ≡ length buf
unfolding copy_at
length-copy_at buf src off h = omega (
  arith,
  length-append (take off buf) (take (length buf - off) src ++ drop (off + length src) buf),
  length-append (take (length buf - off) src) (drop (off + length src) buf),
  length-take off buf,
  length-take (length buf - off) src,
  length-drop (off + length src) buf,
)

-- The front of the array after a copy: what lay before it, and the part of the source that fits.
pub take-copy_at :
    (buf src : List ℕ) (off n k : ℕ)
    → off ≤ length buf
    → k ≡ min (length buf - off) (length src)
    → n ≡ off + k
    → take n (copy_at buf off src) ≡ take off buf ++ take k src
unfolding copy_at
take-copy_at buf src off n k h e f =
    let fits : min k (length buf - off) ≡ k = omega arith in
    take-append_right n k (take off buf) _ (omega (arith, length-take off buf))
    ∙ ap (◌++◌ (take off buf)) (
        take-append k (take (length buf - off) src) _
          (omega (arith, length-take (length buf - off) src))
        ∙ take-take k (length buf - off) src
        ∙ ap (λ j. take j src) fits)
