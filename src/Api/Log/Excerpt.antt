-- ===== src/Api/Log/Excerpt.antt =====
-- api/debug.go: the lines that `GetLog` returns.
use gravil.Base.{
  ℕ, ◌-◌, ◌≤◌, ◌<◌, ◌≡◌, ◌⊎◌, inl, inr, refl, sym, ap, ◌∙◌, Bool, true, false, ◌||◌, some, List,
  ◌∷◌, ◌++◌, arith, eqb, eqb_iff, leb, if◌then◌else◌, length, take, drop, replicate, length-take,
  length-drop, take-append-drop, Bool-cases,
}
use gravil.RingBuffer.{new, bytes}
use gravil.RingBuffer.Array.{last_n}
use gravil.RingBuffer.Window.{write_all, bytes-write_all}
use gravil.Api.Log.{line_ending, LogRequest, trim_left, trim, split, join, rows, get_log}
use gravil.Api.Log.Lines.{
  line_count, newlines-join, join-append, take-AreLines, drop-AreLines, split-Parts,
}
use gravil.Api.Log.Trim.{IsTrimmed, trim_left-split, trim_right-split, trim-IsTrimmed}

-- The excerpt of a text that is asked for: all of it where no number of rows is given or there are no
-- more, else that many lines of its beginning or its end.
abbrev pub IsExcerpt : LogRequest → List ℕ → List ℕ → Type 0
IsExcerpt req t r =
    (((req.logs_rows ≡ 0) ⊎ (line_count t ≤ req.logs_rows)) × (r ≡ t))
    ⊎ ((line_count r ≡ req.logs_rows)
        × (rest : List ℕ) × (t
            ≡ (if req.start_from_head then r ++ line_ending ∷ rest else rest ++ line_ending ∷ r)))

module _ (req : LogRequest) (b : List ℕ) where
  count : line_count b ≡ length (split b)
  count =
      let parts = split-Parts b in
      sym (ap line_count parts.1) ∙ newlines-join (split b) parts.0 parts.2

  -- The text is cut before its line `k`.
  cut_at :
      (k : ℕ)
      → 0 < k
      → k < length (split b)
      → (b ≡ join (take k (split b)) ++ line_ending ∷ join (drop k (split b)))
        × (line_count (join (take k (split b))) ≡ k)
        × (line_count (join (drop k (split b))) ≡ length (split b) - k)
  cut_at k some_lines more =
      let ls = split b in
      let parts = split-Parts b in
      let front : 0 < length (take k ls) = omega (arith, length-take k ls) in
      let back : 0 < length (drop k ls) = omega (arith, length-drop k ls) in
      (
        sym parts.1
            ∙ ap join (sym (take-append-drop k ls))
            ∙ join-append (take k ls) (drop k ls) front back,
        newlines-join (take k ls) front (take-AreLines k ls parts.2)
            ∙ omega (arith, length-take k ls),
        newlines-join (drop k ls) back (drop-AreLines k ls parts.2) ∙ length-drop k ls,
      )

  excerpt :
      (head : Bool)
      → 0 < req.logs_rows
      → req.logs_rows < length (split b)
      → let r = join (
          if head
          then take req.logs_rows (split b)
          else drop (length (split b) - req.logs_rows) (split b)) in
        (line_count r ≡ req.logs_rows)
        × (rest : List ℕ) × (b
            ≡ (if head then r ++ line_ending ∷ rest else rest ++ line_ending ∷ r))
  excerpt true h more =
      let c = cut_at req.logs_rows h more in (c.1, join (drop req.logs_rows (split b)), c.0)
  excerpt false h more =
      let k = length (split b) - req.logs_rows in
      let c = cut_at k (omega (arith, more)) (omega (arith, h, more)) in
      (c.2 ∙ omega (arith, more), join (take k (split b)), c.0)

  rows-IsExcerpt : IsExcerpt req b (rows req b)
  unfolding rows
  rows-IsExcerpt = elim (Bool-cases (eqb req.logs_rows 0 || leb (length (split b)) req.logs_rows)) [
    | inl whole ↦ simp whole (inl (few whole, refl))
    | inr part ↦
        simp part (inr (excerpt req.start_from_head (ground (arith, part)) (ground (arith, part))))
  ]
    where
      few :
          eqb req.logs_rows 0 || leb (length (split b)) req.logs_rows ≡ true
          → (req.logs_rows ≡ 0) ⊎ (line_count b ≤ req.logs_rows)
      few whole = elim (Bool-cases (eqb req.logs_rows 0)) [
        | inl z ↦ inl ((eqb_iff req.logs_rows 0).0 z)
        | inr nz ↦ inr (ground (arith, whole, nz, count))
      ]

-- What `GetLog` answers, for any conversion to valid text: with a valid request, after any writes to a
-- new buffer, the newest `size` bytes of those accepted are converted, are text between newlines, and
-- the answer is the excerpt of that text that is asked for.
pub get_log-IsExcerpt :
    (to_valid : List ℕ → List ℕ) (req : LogRequest) (size : ℕ) (ps : List (List ℕ))
    → (r t : List ℕ) × (i j : ℕ) × (get_log to_valid (write_all (new size) ps).0 (some req)
        ≡ some r)
      × (to_valid (last_n size (write_all (new size) ps).1)
          ≡ replicate i line_ending ++ (t ++ replicate j line_ending))
      × IsTrimmed t
      × IsExcerpt req t r
unfolding get_log trim
get_log-IsExcerpt to_valid req size ps =
    let shown = to_valid (bytes (write_all (new size) ps).0) in
    let left = trim_left-split shown in
    let right = trim_right-split (trim_left shown) in
    (
      rows req (trim shown),
      trim shown,
      left.0,
      right.0,
      refl,
      ap to_valid (sym (bytes-write_all size ps))
          ∙ left.1
          ∙ ap (λ z. replicate left.0 line_ending ++ z) right.1,
      trim-IsTrimmed shown,
      rows-IsExcerpt req (trim shown),
    )
