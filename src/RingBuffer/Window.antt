-- ===== src/RingBuffer/Window.antt =====
-- ringbuffer/ring_buffer.go: the buffer shows the newest `size` bytes of all that it accepted.
use gravil.Base.{
  ℕ, ◌+◌, ◌-◌, ◌*◌, ◌/◌, ◌≤◌, ◌<◌, min, ◌≡◌, refl, sym, ap, ◌∙◌, List, [], ◌∷◌, ◌++◌, arith, length,
  take, drop, ltb, eqb, length-take, length-drop, length-replicate, drop-nil, take-all,
  append_assoc, append-nil, inl, inr, Bool-cases, eqb_iff, ltb→lt, true,
}
use gravil.RingBuffer.{RingBuffer, new, copy_at, compact, append, write, bytes}
use gravil.Base.{take-drop}
use gravil.RingBuffer.Array.{last_n, last_n-last_n, last_n-short, length-copy_at, take-copy_at}

pub record IsValid (r : RingBuffer) : Type 0 where
  pub doubled : length r.buf ≡ r.size * 2
  pub within : r.pos ≤ r.size * 2

-- What the array holds, oldest first.
stored : RingBuffer → List ℕ
stored r = take r.pos r.buf

length-stored : (r : RingBuffer) → IsValid r → length (stored r) ≡ r.pos
unfolding stored
length-stored r v = omega (arith, length-take r.pos r.buf, v.doubled, v.within)

bytes-stored : (r : RingBuffer) → IsValid r → bytes r ≡ last_n r.size (stored r)
unfolding bytes stored
bytes-stored r v = elim (Bool-cases (eqb r.pos 0)) [
  | inl z ↦
      let e : r.pos ≡ 0 = (eqb_iff r.pos 0).0 z in
      rw z (sym (ap (λ j. last_n r.size (take j r.buf)) e ∙ drop-nil (0 - r.size)))
  | inr nz ↦
      let sum : (r.pos - r.size) + (r.pos - (r.pos - r.size)) ≡ r.pos = omega arith in
      let len : length (take r.pos r.buf) ≡ r.pos =
        omega (arith, length-take r.pos r.buf, v.doubled, v.within) in
      rw nz (
        take-drop (r.pos - r.size) _ r.buf
        ∙ ap (λ j. drop (r.pos - r.size) (take j r.buf)) sum
        ∙ ap (λ j. drop (j - r.size) (take r.pos r.buf)) (sym len))
]

-- The move to the front keeps the newest `size` bytes, and the size.
stored-compact :
    (r : RingBuffer)
    → IsValid r
    → IsValid (compact r)
      × (last_n r.size (stored (compact r)) ≡ last_n r.size (stored r))
      × ((compact r).pos ≤ r.size * 17 / 10)
      × ((compact r).size ≡ r.size)
stored-compact r v = elim (Bool-cases (ltb (r.size * 17 / 10) r.pos)) [
  | inl big ↦ moved (ltb→lt (r.size * 17 / 10) r.pos big) big
  | inr small ↦ unfold compact in rw small (v, refl, ground arith, refl)
]
  where
    newest : List ℕ
    newest = take r.size (drop (r.pos - r.size) r.buf)

    moved :
        r.size * 17 / 10 < r.pos
        → ltb (r.size * 17 / 10) r.pos ≡ true
        → IsValid (compact r)
          × (last_n r.size (stored (compact r)) ≡ last_n r.size (stored r))
          × ((compact r).pos ≤ r.size * 17 / 10)
          × ((compact r).size ≡ r.size)
    moved h big =
        let len : length newest ≡ r.size = omega (
          arith,
          length-take r.size (drop (r.pos - r.size) r.buf),
          length-drop (r.pos - r.size) r.buf,
          v.doubled,
          v.within,
        ) in
        let front : take r.size (copy_at r.buf 0 newest) ≡ take r.size newest =
          take-copy_at r.buf newest 0 r.size r.size (omega arith) (omega (arith, v.doubled))
            (omega arith) in
        let sum : (r.pos - r.size) + r.size ≡ r.pos = omega arith in
        unfold compact stored length-stored in
        rw big (
          record {
            doubled = length-copy_at r.buf newest 0 (omega arith) ∙ v.doubled;
            within = omega arith;
          },
          ap (last_n r.size) (front ∙ take-all r.size newest (omega (arith, len)))
              ∙ last_n-short r.size newest (omega (arith, len))
              ∙ take-drop (r.pos - r.size) r.size r.buf
              ∙ ap (λ j. drop (r.pos - r.size) (take j r.buf)) sum
              ∙ ap (λ j. drop (j - r.size) (take r.pos r.buf)) (sym (length-stored r v)),
          omega arith,
          refl,
        )

-- What is accepted stands behind what was stored.
stored-append :
    (r : RingBuffer) (p : List ℕ)
    → IsValid r
    → IsValid (append r p).0
      × (stored (append r p).0 ≡ stored r ++ take (append r p).1 p)
      × ((append r p).1 ≡ min (r.size * 2 - r.pos) (length p))
      × ((append r p).0.size ≡ r.size)
unfolding append stored
stored-append r p v = (
  record {
    doubled = length-copy_at r.buf p r.pos (omega (arith, v.doubled, v.within)) ∙ v.doubled;
    within = omega (arith, v.doubled, v.within);
  },
  take-copy_at r.buf p r.pos _ _ (omega (arith, v.doubled, v.within)) refl refl,
  omega (arith, v.doubled),
  refl,
)

write_cases :
    (r : RingBuffer) (p : List ℕ)
    → IsValid r
    → IsValid (write r p).0
      × (last_n r.size (stored (write r p).0) ≡ last_n r.size (stored r ++ take (write r p).1 p))
      × ((write r p).0.size ≡ r.size)
      × (min (r.size * 2 - r.size * 17 / 10) (length p) ≤ (write r p).1)
      × ((write r p).1 ≤ min (r.size * 2) (length p))
unfolding write
write_cases r p v = elim (Bool-cases (eqb (length p) 0)) [
  | inl z ↦ rw z (
    v,
    ap (last_n r.size) (sym (append-nil (stored r))),
    refl,
    omega (arith, (eqb_iff (length p) 0).0 z),
    omega arith,
  )
  | inr nz ↦
      let c = stored-compact r v in
      let a = stored-append (compact r) p c.0 in
      let chain : last_n r.size (stored (compact r) ++ take (append (compact r) p).1 p)
          ≡ last_n r.size (stored r ++ take (append (compact r) p).1 p) =
        sym (last_n-last_n r.size (stored (compact r)) _)
        ∙ ap (λ xs. last_n r.size (xs ++ take (append (compact r) p).1 p)) c.1
        ∙ last_n-last_n r.size (stored r) _ in
      rw nz (
        a.0,
        ap (last_n r.size) a.1 ∙ chain,
        a.3 ∙ c.3,
        omega (arith, a.2, c.2, c.3),
        omega (arith, a.2, c.3),
      )
]

-- A write keeps the shape; the buffer then shows the newest `size` bytes of what it showed before
-- followed by the bytes that it accepted.
pub bytes-write :
    (r : RingBuffer) (p : List ℕ)
    → IsValid r
    → IsValid (write r p).0
      × (bytes (write r p).0 ≡ last_n r.size (bytes r ++ take (write r p).1 p))
bytes-write r p v =
    let w = write_cases r p v in
    (
      w.0,
      bytes-stored (write r p).0 w.0
          ∙ ap (λ k. last_n k (stored (write r p).0)) w.2
          ∙ w.1
          ∙ sym (last_n-last_n r.size (stored r) (take (write r p).1 p))
          ∙ ap (λ xs. last_n r.size (xs ++ take (write r p).1 p)) (sym (bytes-stored r v)),
    )

-- A write of at most three tenths of the size is accepted whole.
pub write_whole :
    (r : RingBuffer) (p : List ℕ)
    → IsValid r
    → length p ≤ r.size * 3 / 10
    → (write r p).1 ≡ length p
write_whole r p v h = omega (arith, (write_cases r p v).3, (write_cases r p v).4)

-- A write of more than twice the size accepts only a part, although it reports no error.
pub write_short :
    (r : RingBuffer) (p : List ℕ) → IsValid r → r.size * 2 < length p → (write r p).1 < length p
write_short r p v h = omega (arith, (write_cases r p v).4)

length-bytes : (r : RingBuffer) → IsValid r → length (bytes r) ≤ r.size
length-bytes r v =
    omega (arith, ap length (bytes-stored r v), length-drop (length (stored r) - r.size) (stored r))

pub new-IsValid : (size : ℕ) → IsValid (new size)
unfolding new
new-IsValid size = record { doubled = length-replicate (size * 2) 0; within = omega arith }

-- All writes of a list, and the bytes that they accepted, in order.
pub write_all : RingBuffer → List (List ℕ) → RingBuffer × List ℕ
write_all r [] = (r, [])
write_all r (p ∷ ps) =
    let (r', n) = write r p in let (r'', rest) = write_all r' ps in (r'', take n p ++ rest)

write_all-IsValid :
    (r : RingBuffer) (ps : List (List ℕ))
    → IsValid r
    → IsValid (write_all r ps).0
      × (bytes (write_all r ps).0 ≡ last_n r.size (bytes r ++ (write_all r ps).1))
unfolding write_all
write_all-IsValid r [] v = (
  v,
  sym (
      ap (last_n r.size) (append-nil (bytes r)) ∙ last_n-short r.size (bytes r) (length-bytes r v)),
)
write_all-IsValid r (p ∷ ps) v =
    let w = bytes-write r p v in
    let ih = write_all-IsValid (write r p).0 ps w.0 in
    (
      ih.0,
      ih.1
          ∙ (ap (λ k. last_n k (bytes (write r p).0 ++ (write_all (write r p).0 ps).1))
                (write_cases r p v).2
              ∙ ap (λ xs. last_n r.size (xs ++ (write_all (write r p).0 ps).1)) w.1
              ∙ last_n-last_n r.size (bytes r ++ take (write r p).1 p) _
              ∙ ap (last_n r.size) (append_assoc (bytes r) (take (write r p).1 p) _)),
    )

-- From a new buffer, whatever is written, the buffer shows exactly the newest `size` bytes of the
-- accepted ones.
pub bytes-write_all :
    (size : ℕ) (ps : List (List ℕ))
    → bytes (write_all (new size) ps).0 ≡ last_n size (write_all (new size) ps).1
unfolding bytes new
bytes-write_all size ps = (write_all-IsValid (new size) ps (new-IsValid size)).1
