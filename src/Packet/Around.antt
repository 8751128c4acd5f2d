-- ===== src/Packet/Around.antt =====
-- vpn/packet.go: a 16-bit word in a packet's bytes, read and written.
use gravil.Base.{
  ℕ, zero, suc, ◌+◌, ◌/◌, ◌%◌, ◌-◌, ◌≤◌, ◌<◌, ◌≡◌, refl, sym, ap, ◌∙◌, ap₂, List, [], ◌∷◌, ◌++◌,
  arith, length, take, drop, leb, length-take, length-drop, length-append, take-append_right,
  take-all, take-append_length, drop-append_length, drop-drop, true, some,
}
use gravil.Packet.{write_at}
use gravil.Packet.Recalculate.{zero16, put16}
use gravil.Packet.Sums.{IsBytes}

-- The bytes around a word.
abbrev pub around : ℕ → List ℕ → ℕ → ℕ → List ℕ
around off xs a b = take off xs ++ (a ∷ b ∷ drop (off + 2) xs)

pub write_at-around :
    (off a b : ℕ) (xs : List ℕ)
    → off + 2 ≤ length xs
    → write_at off (a ∷ b ∷ []) xs ≡ around off xs a b
unfolding write_at
write_at-around off a b xs h =
    ap (λ ws. take off xs ++ (ws ++ drop (off + 2) xs)) (take-all _ (a ∷ b ∷ []) (omega arith))

pub take-around :
    (off m n a b : ℕ) (xs : List ℕ)
    → n ≡ off + suc (suc m)
    → off ≤ length xs
    → take n (around off xs a b) ≡ take off xs ++ (a ∷ b ∷ take m (drop (off + 2) xs))
take-around off m n a b xs h fits =
    take-append_right n (suc (suc m)) (take off xs) (a ∷ b ∷ drop (off + 2) xs)
      (omega (arith, length-take off xs))

pub length-around :
    (off a b : ℕ) (xs : List ℕ) → off + 2 ≤ length xs → length (around off xs a b) ≡ length xs
length-around off a b xs h = omega (
  arith,
  length-append (take off xs) (a ∷ b ∷ drop (off + 2) xs),
  length-take off xs,
  length-drop (off + 2) xs,
)

pub take-IsBytes : (n : ℕ) (xs : List ℕ) → IsBytes xs → IsBytes (take n xs)
take-IsBytes zero xs h = tt
take-IsBytes (suc n) [] h = tt
take-IsBytes (suc n) (x ∷ xs) h = (h.0, take-IsBytes n xs h.1)

pub drop-IsBytes : (n : ℕ) (xs : List ℕ) → IsBytes xs → IsBytes (drop n xs)
drop-IsBytes zero xs h = h
drop-IsBytes (suc n) [] h = tt
drop-IsBytes (suc n) (x ∷ xs) h = drop-IsBytes n xs h.1

pub append-IsBytes : (xs ys : List ℕ) → IsBytes xs → IsBytes ys → IsBytes (xs ++ ys)
append-IsBytes [] ys h g = g
append-IsBytes (x ∷ xs) ys h g = (h.0, append-IsBytes xs ys h.1 g)

pub around-IsBytes :
    (off a b : ℕ) (xs : List ℕ) → a < 256 → b < 256 → IsBytes xs → IsBytes (around off xs a b)
around-IsBytes off a b xs ha hb h =
    append-IsBytes (take off xs) _ (take-IsBytes off xs h) (ha, (hb, drop-IsBytes (off + 2) xs h))

take-append_at : (n : ℕ) (xs ys : List ℕ) → n ≡ length xs → take n (xs ++ ys) ≡ xs
take-append_at n xs ys e = ap (λ k. take k (xs ++ ys)) e ∙ take-append_length xs ys

pub drop-append_at :
    (n : ℕ) (xs : List ℕ) (a b : ℕ) (ys : List ℕ)
    → n ≡ length xs
    → drop (n + 2) (xs ++ a ∷ b ∷ ys) ≡ ys
drop-append_at n xs a b ys e =
    sym (drop-drop 2 n (n + 2) (xs ++ a ∷ b ∷ ys) refl)
    ∙ ap (λ k. drop 2 (drop k (xs ++ a ∷ b ∷ ys))) e
    ∙ ap (drop 2) (drop-append_length xs (a ∷ b ∷ ys))

-- Writing again over a word that was written: only the last value stays.
pub around-around :
    (off a b c d : ℕ) (xs : List ℕ)
    → off + 2 ≤ length xs
    → around off (around off xs a b) c d ≡ around off xs c d
around-around off a b c d xs h =
    let len : off ≡ length (take off xs) = omega (arith, length-take off xs) in
    ap₂ (λ pre post. pre ++ (c ∷ d ∷ post))
      (take-append_at off (take off xs) (a ∷ b ∷ drop (off + 2) xs) len)
      (drop-append_at off (take off xs) a b (drop (off + 2) xs) len)

-- The two writes of the code, where the word lies inside the packet.
pub zero16-around :
    (size off : ℕ) (xs : List ℕ)
    → off + 2 ≤ size
    → size ≤ length xs
    → zero16 size off xs ≡ some (around off xs 0 0)
unfolding zero16
zero16-around size off xs h fits =
    let e : leb off size ≡ true = ground arith in
    let w : take {A = ℕ} (size - off) (0 ∷ 0 ∷ []) ≡ 0 ∷ 0 ∷ [] = take-all _ _ (omega arith) in
    rw (e, w) (ap some (write_at-around off 0 0 xs (omega arith)))

pub put16-around :
    (size off v : ℕ) (xs : List ℕ)
    → off + 2 ≤ size
    → size ≤ length xs
    → put16 size off v xs ≡ some (around off xs (v / 256 % 256) (v % 256))
unfolding put16
put16-around size off v xs h fits =
    let e : leb (off + 2) size ≡ true = ground arith in
    rw e (ap some (write_at-around off _ _ xs (omega arith)))
