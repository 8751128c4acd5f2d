-- ===== src/Api/Log.antt =====
-- api/debug.go: `GetLog`, over the ring buffer that the application logs into. `to_valid` is
-- `bytes.ToValidUTF8` with nothing in place of what is invalid.
pub mod Excerpt
pub mod Lines
pub mod Trim
mod Examples
use gravil.Base.{
  ℕ, ◌-◌, Bool, true, false, ◌||◌, Option, none, some, List, [], ◌∷◌, ◌++◌, eqb, leb, if◌then◌else◌,
  length, take, drop,
}
use gravil.RingBuffer.{RingBuffer}
use gravil.RingBuffer

-- `zapcore.DefaultLineEnding`.
abbrev pub line_ending : ℕ
line_ending = 10

pub record LogRequest : Type 0 where
  pub start_from_head : Bool
  pub logs_rows : ℕ

unfoldable pub trim_left : List ℕ → List ℕ
trim_left [] = []
trim_left (b ∷ bs) = let rest = trim_left bs in if eqb b line_ending then rest else b ∷ bs

-- A byte in front of what the trim of the end has left.
unfoldable pub kept_before : ℕ → List ℕ → List ℕ
kept_before b [] = if eqb b line_ending then [] else b ∷ []
kept_before b (c ∷ cs) = b ∷ c ∷ cs

unfoldable pub trim_right : List ℕ → List ℕ
unfolding kept_before
trim_right [] = []
trim_right (b ∷ bs) = kept_before b (trim_right bs)

-- `bytes.Trim` for one character.
unfoldable pub trim : List ℕ → List ℕ
unfolding trim_left trim_right
trim bs = trim_right (trim_left bs)

-- A byte goes to the first line, or begins a new one.
unfoldable pub before : ℕ → List (List ℕ) → List (List ℕ)
before b [] = (b ∷ []) ∷ []
before b (l ∷ ls) = if eqb b line_ending then [] ∷ l ∷ ls else (b ∷ l) ∷ ls

-- `bytes.Split`: never no line.
unfoldable pub split : List ℕ → List (List ℕ)
unfolding before
split [] = [] ∷ []
split (b ∷ bs) = before b (split bs)

-- `bytes.Join`.
unfoldable pub join : List (List ℕ) → List ℕ
join [] = []
join (l ∷ []) = l
join (l ∷ m ∷ ls) = l ++ line_ending ∷ join (m ∷ ls)

-- The lines that are asked for.
abbrev pub chosen : LogRequest → List (List ℕ) → List (List ℕ)
chosen req ls =
    if req.start_from_head then take req.logs_rows ls else drop (length ls - req.logs_rows) ls

unfoldable pub rows : LogRequest → List ℕ → List ℕ
unfolding split join
rows req b =
    if eqb req.logs_rows 0 || leb (length (split b)) req.logs_rows
    then b
    else join (chosen req (split b))

-- `GetLog`; `none` is a request that is refused.
unfoldable pub get_log : (List ℕ → List ℕ) → RingBuffer → Option LogRequest → Option (List ℕ)
unfolding trim rows
get_log to_valid r none = none
get_log to_valid r (some req) = some (rows req (trim (to_valid (RingBuffer.bytes r))))
