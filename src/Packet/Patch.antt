-- ===== src/Packet/Patch.antt =====
-- vpn/vpn.go: bytes written over a part of a packet (`copy`), and what stays of the others.
use gravil.Base.{
  ℕ, zero, suc, ◌+◌, ◌-◌, ◌≤◌, ◌<◌, ◌≡◌, refl, sym, ap, ◌∙◌, List, [], ◌∷◌, ◌++◌, arith, length,
  take, drop, get_or, length-append, length-take, length-drop, take-take, take-drop, take-all,
  take-append_length, drop-append_length, drop-drop,
}
use gravil.Packet.{write_at}
use gravil.Packet.Sums.{IsBytes}
use gravil.Packet.Around.{take-IsBytes, drop-IsBytes, append-IsBytes, around, drop-append_at}

-- A part of a prefix is a part of the whole.
pub window :
    (o l n : ℕ) (xs : List ℕ) → o + l ≤ n → take l (drop o (take n xs)) ≡ take l (drop o xs)
window o l n xs h =
    take-drop o l (take n xs)
    ∙ ap (drop o) (take-take (o + l) n xs ∙ ap (λ k. take k xs) (omega arith))
    ∙ sym (take-drop o l xs)

pub get_or-take : (i n : ℕ) (xs : List ℕ) → i < n → get_or (take n xs) i 0 ≡ get_or xs i 0
get_or-take i zero xs h = absurd (omega arith)
get_or-take i (suc n) [] h = refl
get_or-take zero (suc n) (x ∷ xs) h = refl
get_or-take (suc i) (suc n) (x ∷ xs) h = get_or-take i n xs (omega arith)

module _ (off : ℕ) (bs xs : List ℕ) (fits : off + length bs ≤ length xs) where
  abbrev pub patched : List ℕ
  patched = take off xs ++ (bs ++ drop (off + length bs) xs)

  prefix : length (take off xs) ≡ off
  prefix = omega (arith, length-take off xs)

  pub write_at-patched : write_at off bs xs ≡ patched
  unfolding write_at
  write_at-patched =
      ap (λ ws. take off xs ++ (ws ++ drop (off + length bs) xs))
        (take-all (length xs - off) bs (omega arith))

  pub length-patched : length patched ≡ length xs
  length-patched = omega (
    arith,
    length-append (take off xs) (bs ++ drop (off + length bs) xs),
    length-append bs (drop (off + length bs) xs),
    prefix,
    length-drop (off + length bs) xs,
  )

  pub patched-IsBytes : IsBytes bs → IsBytes xs → IsBytes patched
  patched-IsBytes b h =
      append-IsBytes (take off xs) (bs ++ drop (off + length bs) xs) (take-IsBytes off xs h)
        (append-IsBytes bs (drop (off + length bs) xs) b (drop-IsBytes (off + length bs) xs h))

  -- The bytes before the part, and the part itself.
  before : take off patched ≡ take off xs
  before =
      ap (λ n. take n patched) (sym prefix)
      ∙ take-append_length (take off xs) (bs ++ drop (off + length bs) xs)

  pub read-patched : take (length bs) (drop off patched) ≡ bs
  read-patched =
      ap (λ n. take (length bs) (drop n patched)) (sym prefix)
      ∙ ap (take (length bs)) (drop-append_length (take off xs) (bs ++ drop (off + length bs) xs))
      ∙ take-append_length bs (drop (off + length bs) xs)

  pub read-before : (o l : ℕ) → o + l ≤ off → take l (drop o patched) ≡ take l (drop o xs)
  read-before o l h =
      sym (window o l off patched h) ∙ ap (λ ys. take l (drop o ys)) before ∙ window o l off xs h

  pub get_or-patched : (i : ℕ) → i < off → get_or patched i 0 ≡ get_or xs i 0
  get_or-patched i h =
      sym (get_or-take i off patched h) ∙ ap (λ ys. get_or ys i 0) before ∙ get_or-take i off xs h

-- A word written before a part leaves it.
pub read-around :
    (off a b o l : ℕ) (xs : List ℕ)
    → off + 2 ≤ o
    → off + 2 ≤ length xs
    → take l (drop o (around off xs a b)) ≡ take l (drop o xs)
read-around off a b o l xs h fits =
    let m = o - (off + 2) in
    let at : off + 2 + m ≡ o = omega arith in
    ap (take l) (
      sym (drop-drop m (off + 2) o (around off xs a b) at)
      ∙ ap (drop m) (
          drop-append_at off (take off xs) a b (drop (off + 2) xs)
            (omega (arith, length-take off xs)))
      ∙ drop-drop m (off + 2) o xs at)
