-- ===== src/Api/Log/Examples.antt =====
-- api/debug.go: two writes of three lines, of which the newest two are asked for.
use gravil.Base.{ℕ, ◌≡◌, refl, false, some, List, [], ◌∷◌, ◌++◌, replicate}
use gravil.RingBuffer.{new}
use gravil.RingBuffer.Array.{last_n}
use gravil.RingBuffer.Window.{write_all}
use gravil.Api.Log.{
  line_ending, LogRequest, get_log, trim, trim_left, trim_right, kept_before, split, before, join,
  rows,
}
use gravil.Api.Log.Trim.{IsTrimmed}
use gravil.Api.Log.Excerpt.{IsExcerpt, get_log-IsExcerpt}

abbrev ascii : List ℕ → List ℕ
ascii bs = bs

abbrev newest_two : LogRequest
newest_two = record { start_from_head = false; logs_rows = 2 }

abbrev written : List (List ℕ)
written = (97 ∷ 10 ∷ 98 ∷ []) ∷ (10 ∷ 99 ∷ 100 ∷ 10 ∷ []) ∷ []

get_log-IsExcerpt_example :
    (r t : List ℕ) × (i j : ℕ) × (get_log ascii (write_all (new 16) written).0 (some newest_two)
      ≡ some r)
    × (ascii (last_n 16 (write_all (new 16) written).1)
        ≡ replicate i line_ending ++ (t ++ replicate j line_ending))
    × IsTrimmed t
    × IsExcerpt newest_two t r
get_log-IsExcerpt_example = get_log-IsExcerpt ascii newest_two 16 written

two_lines :
    rows newest_two (trim (10 ∷ 97 ∷ 10 ∷ 98 ∷ 10 ∷ 99 ∷ 100 ∷ 10 ∷ [])) ≡ 98 ∷ 10 ∷ 99 ∷ 100 ∷ []
unfolding trim trim_left trim_right kept_before split before join rows
two_lines = refl
