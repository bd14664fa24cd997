-- ===== src/Times/Span/Total.antt =====
-- parse_time of HTSUtils.c comes to an end on every text.
use cern_httpd.Base.{
  ℕ, zero, suc, ◌+◌, ◌*◌, ◌-◌, ◌&&◌, ◌≢◌, ◌∙◌, sym, ap, ==_iff, some-ne-none, ◌≤◌, ◌<◌, ◌≡◌, refl,
  arith, Bool, true, false, Option, none, some, List, [], ◌∷◌, ◌==◌, length, Bool-cases, inl, inr,
  All, some-ne-none, sym, ap, ◌∙◌, map,
}
use cern_httpd.Str.{CStr, to_lower, white, starts, skip_white}
use cern_httpd.Times.{is_digit}
use cern_httpd.Times.Span.{
  TimeUnit, time_units, find_unit, read_digits, is_word_char, skip_word, TimeState, state_hour,
  colon_seconds, TimeAnswer, Rest, add_colon, at_colon, with_unit, behind_number, span_loop,
  without_white, span_of, parse_time,
}

abbrev Returns : Option TimeAnswer → Type 0
Returns out = (answer : TimeAnswer) × (out ≡ some answer)

-- The rest of the loop, on texts of less than n characters.
abbrev RestReturns : ℕ → Rest → Type 0
RestReturns n more =
    (p : CStr) (state : TimeState) (tp : ℕ) → length p < n → Returns (more p state tp)

skip_white-le : (p : CStr) → length (skip_white p) ≤ length p
unfolding skip_white
skip_white-le [] = omega arith
skip_white-le (c ∷ p) = elim (Bool-cases (white c)) [
  | inl e ↦ rw e (omega (arith, skip_white-le p))
  | inr e ↦ rw e (omega arith)
]

read_digits-le : (n : ℕ) (p : CStr) → length (read_digits n p).1 ≤ length p
unfolding read_digits
read_digits-le n [] = omega arith
read_digits-le n (c ∷ p) = elim (Bool-cases (is_digit c)) [
  | inl e ↦ rw e (omega (arith, read_digits-le (10 * n + c - b'0') p))
  | inr e ↦ rw e (omega arith)
]

skip_word-le : (p : CStr) → length (skip_word p) ≤ length p
unfolding skip_word
skip_word-le [] = omega arith
skip_word-le (c ∷ p) = elim (Bool-cases (is_word_char c)) [
  | inl e ↦ rw e (omega (arith, skip_word-le p))
  | inr e ↦ rw e (omega arith)
]

-- The name of a unit begins with a letter.
abbrev IsNamed : TimeUnit → Type 0
IsNamed u = (c : ℕ) × (w : CStr) × (u.0 ≡ c ∷ w) × (is_word_char c ≡ true)

time_units-IsNamed : All IsNamed time_units
unfolding time_units is_word_char
time_units-IsNamed = (
  (_, _, refl, refl),
  (
    (_, _, refl, refl),
    (
      (_, _, refl, refl),
      (
        (_, _, refl, refl),
        ((_, _, refl, refl), ((_, _, refl, refl), ((_, _, refl, refl), ((_, _, refl, refl), tt)))),
      ),
    ),
  ),
)

and_left : (a b : Bool) → (a && b) ≡ true → a ≡ true
and_left true b h = refl
and_left false b h = h

no_letter : (c d : ℕ) → is_word_char c ≡ true → is_word_char d ≡ false → (c == d) ≢ true
no_letter c d h e q = cc (h, e, ap is_word_char ((==_iff c d).0 q))

starts-shorter :
    (c : ℕ) (w p : CStr)
    → is_word_char c ≡ true
    → starts (c ∷ w) p ≡ true
    → length (skip_word p) < length p
unfolding starts skip_word
starts-shorter c w [] h s = cc
starts-shorter c w (d ∷ p) h s = elim (Bool-cases (is_word_char d)) [
  | inl e ↦ rw e (omega (arith, skip_word-le p))
  | inr e ↦ absurd (no_letter c d h e (and_left (c == d) (starts w p) s))
]

find_unit-shorter :
    (units : List TimeUnit) (p : CStr) (seconds : ℕ)
    → All IsNamed units
    → find_unit units p ≡ some seconds
    → length (skip_word p) < length p
unfolding find_unit
find_unit-shorter [] p seconds h e = absurd (some-ne-none (sym e))
find_unit-shorter ((name, s) ∷ units) p seconds h e = elim (Bool-cases (starts name p)) [
  | inl y ↦
      let (c, w, eq, letter) = h.0 in
      starts-shorter c w p letter (sym (ap (λ t. starts t p) eq) ∙ y)
  | inr y ↦ find_unit-shorter units p seconds h.1 (rw y at e)
]

add_colon-Returns :
    (m : ℕ) (more : Rest) (o : Option (ℕ × TimeState)) (n : ℕ) (p : CStr) (tp : ℕ)
    → RestReturns m more
    → length p < m
    → Returns (add_colon more o n p tp)
unfolding add_colon
add_colon-Returns m more none n p tp h lt = ((false, tp), refl)
add_colon-Returns m more (some (seconds, state)) n p tp h lt = h p state (tp + n * seconds) lt

at_colon-Returns :
    (m : ℕ) (more : Rest) (state : TimeState) (n : ℕ) (p : CStr) (tp : ℕ)
    → RestReturns m more
    → 0 < m
    → length p ≤ m
    → Returns (at_colon more state n p tp)
unfolding at_colon
at_colon-Returns m more state n [] tp h pos le =
    add_colon-Returns m more (colon_seconds state) n [] tp h pos
at_colon-Returns m more state n (c ∷ p) tp h pos le = elim (Bool-cases (c == b':')) [
  | inl e ↦ rw e (add_colon-Returns m more (colon_seconds state) n p tp h (omega arith))
  | inr e ↦ rw e ((false, tp), refl)
]

with_unit-Returns :
    (m : ℕ) (more : Rest) (found : Option ℕ) (state : TimeState) (n : ℕ) (p : CStr) (tp : ℕ)
    → find_unit time_units p ≡ found
    → RestReturns m more
    → 0 < m
    → length p ≤ m
    → Returns (with_unit more found state n p tp)
unfolding with_unit
with_unit-Returns m more none state n p tp e h pos le =
    at_colon-Returns m more state n p tp h pos le
with_unit-Returns m more (some seconds) state n p tp e h pos le =
    h (skip_word p) state (tp + n * seconds)
      (omega (arith, find_unit-shorter time_units p seconds time_units-IsNamed e))

behind_number-Returns :
    (m : ℕ) (more : Rest) (def : ℕ) (first : Bool) (state : TimeState) (n : ℕ) (p : CStr) (tp : ℕ)
    → RestReturns m more
    → 0 < m
    → length p ≤ m
    → Returns (behind_number more def first state n p tp)
unfolding behind_number
behind_number-Returns m more def true state n [] tp h pos le = ((true, n * def), refl)
behind_number-Returns m more def false state n [] tp h pos le =
    with_unit-Returns m more (find_unit time_units []) state n [] tp refl h pos le
behind_number-Returns m more def true state n (c ∷ p) tp h pos le =
    with_unit-Returns m more (find_unit time_units (c ∷ p)) state n (c ∷ p) tp refl h pos le
behind_number-Returns m more def false state n (c ∷ p) tp h pos le =
    with_unit-Returns m more (find_unit time_units (c ∷ p)) state n (c ∷ p) tp refl h pos le

span_loop-Returns :
    (fuel def : ℕ) (first : Bool) (p : CStr) (state : TimeState) (tp : ℕ)
    → length p < fuel
    → Returns (span_loop fuel def first p state tp)
unfolding span_loop
span_loop-Returns zero def first p state tp lt = absurd (omega arith)
span_loop-Returns (suc fuel) def first [] state tp lt = ((true, tp), refl)
span_loop-Returns (suc fuel) def first (c ∷ p) state tp lt =
    let number = read_digits 0 (skip_white (c ∷ p)) in
    behind_number-Returns (suc (length p)) (λ q st t. span_loop fuel def false q st t) def first
      state number.0 (skip_white number.1) tp
      (λ q st t lt'. span_loop-Returns fuel def false q st t (omega arith)) (omega arith)
      (omega (
        arith,
        skip_white-le number.1,
        read_digits-le 0 (skip_white (c ∷ p)),
        skip_white-le (c ∷ p),
      ))

span_of-Returns : (def : ℕ) (str : CStr) → Returns (span_of def str)
unfolding span_of
span_of-Returns def [] = ((false, 0), refl)
span_of-Returns def (c ∷ str) =
    span_loop-Returns (suc (length (without_white (map to_lower (c ∷ str))))) def true
      (without_white (map to_lower (c ∷ str))) state_hour 0 (omega arith)

-- parse_time returns YES or NO for every text: each round of its loop takes a character at least, a
-- unit's name or a colon, or is the last.
parse_time-total :
    (str : Option CStr) (def : ℕ) → (answer : TimeAnswer) × (parse_time str def ≡ some answer)
unfolding parse_time
parse_time-total none def = ((false, 0), refl)
parse_time-total (some str) def = span_of-Returns def (skip_white str)
