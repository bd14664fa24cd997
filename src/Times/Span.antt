-- ===== src/Times/Span.antt =====
-- Daemon/Implementation/HTSUtils.c: parse_time, which reads spans of time such as `2 days 3:30`. An
-- int has no bound here.
pub mod Total
pub mod Clock
use cern_httpd.Base.{
  ℕ, zero, suc, ◌+◌, ◌-◌, ◌*◌, Bool, true, false, ◌||◌, ◌&&◌, Option, none, some, List, [], ◌∷◌,
  leb, ◌==◌, if◌then◌else◌, length, codes, map,
}
use cern_httpd.Str.{CStr, to_lower, white, starts, skip_white}
use cern_httpd.Times.{is_digit}

-- A unit of time_units: its name and its seconds. `len` is the length of the name.
abbrev pub TimeUnit : Type 0
TimeUnit = CStr × ℕ

unfoldable pub time_units : List TimeUnit
time_units =
    (codes "sec", 1)
    ∷ (codes "min", 60)
    ∷ (codes "hour", 3600)
    ∷ (codes "day", 86400)
    ∷ (codes "week", 604800)
    ∷ (codes "month", 2592000)
    ∷ (codes "year", 31536000)
    ∷ (codes "forever", 315360000)
    ∷ []

-- The loop over time_units.
unfoldable pub find_unit : List TimeUnit → CStr → Option ℕ
unfolding starts
find_unit [] p = none
find_unit ((name, seconds) ∷ units) p =
    let rest = find_unit units p in if starts name p then some seconds else rest

-- `n = 10*n + *p - '0'`, and what stands behind the digits.
unfoldable pub read_digits : ℕ → CStr → ℕ × CStr
unfolding is_digit
read_digits n [] = (n, [])
read_digits n (c ∷ p) =
    let more = read_digits (10 * n + c - b'0') p in if is_digit c then more else (n, c ∷ p)

unfoldable pub is_word_char : ℕ → Bool
is_word_char c = (leb b'a' c && leb c b'z') || c == b','

unfoldable pub skip_word : CStr → CStr
unfolding is_word_char
skip_word [] = []
skip_word (c ∷ p) = let rest = skip_word p in if is_word_char c then rest else c ∷ p

-- What the number before a colon counts.
pub data TimeState : Type 0 where
  state_hour : TimeState
  state_mins : TimeState
  state_secs : TimeState
  too_many : TimeState

unfoldable pub colon_seconds : TimeState → Option (ℕ × TimeState)
colon_seconds state_hour = some (3600, state_mins)
colon_seconds state_mins = some (60, state_secs)
colon_seconds state_secs = some (1, too_many)
colon_seconds too_many = none

-- The value that is returned, and that of *tp.
abbrev pub TimeAnswer : Type 0
TimeAnswer = Bool × ℕ

-- How the loop goes on: with the text, the state and *tp.
abbrev pub Rest : Type 0
Rest = CStr → TimeState → ℕ → Option TimeAnswer

unfoldable pub add_colon : Rest → Option (ℕ × TimeState) → ℕ → CStr → ℕ → Option TimeAnswer
add_colon more none n p tp = some (false, tp)
add_colon more (some (seconds, state)) n p tp = more p state (tp + n * seconds)

-- `if (!*p || *p++ == ':')`
unfoldable pub at_colon : Rest → TimeState → ℕ → CStr → ℕ → Option TimeAnswer
unfolding add_colon colon_seconds
at_colon more state n [] tp = add_colon more (colon_seconds state) n [] tp
at_colon more state n (c ∷ p) tp =
    if c == b':' then add_colon more (colon_seconds state) n p tp else some (false, tp)

unfoldable pub with_unit : Rest → Option ℕ → TimeState → ℕ → CStr → ℕ → Option TimeAnswer
unfolding at_colon skip_word
with_unit more none state n p tp = at_colon more state n p tp
with_unit more (some seconds) state n p tp = more (skip_word p) state (tp + n * seconds)

-- Behind a number and white space. A number alone is in the unit `def`.
unfoldable pub behind_number : Rest → ℕ → Bool → TimeState → ℕ → CStr → ℕ → Option TimeAnswer
unfolding with_unit find_unit time_units
behind_number more def true state n [] tp = some (true, n * def)
behind_number more def false state n [] tp = with_unit more (find_unit time_units []) state n [] tp
behind_number more def first state n (c ∷ p) tp =
    with_unit more (find_unit time_units (c ∷ p)) state n (c ∷ p) tp

-- The loop of parse_time, on fuel: one more than the characters left.
unfoldable pub span_loop : ℕ → ℕ → Bool → CStr → TimeState → ℕ → Option TimeAnswer
unfolding behind_number read_digits skip_white
span_loop zero def first p state tp = none
span_loop (suc fuel) def first [] state tp = some (true, tp)
span_loop (suc fuel) def first (c ∷ p) state tp =
    let number = read_digits 0 (skip_white (c ∷ p)) in
    behind_number (λ q st t. span_loop fuel def false q st t) def first state number.0
      (skip_white number.1) tp

-- The white space at the end is overwritten.
unfoldable pub without_white : CStr → CStr
unfolding white
without_white [] = []
without_white (c ∷ p) = elim (without_white p) [
  | [] ↦ if white c then [] else c ∷ []
  | d ∷ q ↦ c ∷ d ∷ q
]

unfoldable pub span_of : ℕ → CStr → Option TimeAnswer
unfolding span_loop without_white to_lower
span_of def [] = some (false, 0)
span_of def (c ∷ str) =
    let p = without_white (map to_lower (c ∷ str)) in
    span_loop (suc (length p)) def true p state_hour 0

-- parse_time
unfoldable pub parse_time : Option CStr → ℕ → Option TimeAnswer
unfolding span_of skip_white
parse_time none def = some (false, 0)
parse_time (some str) def = span_of def (skip_white str)
