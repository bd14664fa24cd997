-- ===== src/Times/Span/Clock.antt =====
-- What parse_time of HTSUtils.c makes of hours, minutes and seconds.
use cern_httpd.Base.{
  ℕ, suc, ◌+◌, ◌*◌, ◌/◌, ◌%◌, ◌<◌, ◌≡◌, refl, ap, ◌∙◌, arith, true, false, some, [], ◌∷◌, length,
  All, map,
}
use cern_httpd.Str.{CStr, to_lower, white, skip_white}
use cern_httpd.Times.{is_digit}
use cern_httpd.Times.Print.{two}
use cern_httpd.Times.Span.{
  read_digits, state_hour, state_mins, state_secs, behind_number, span_loop, without_white, span_of,
  parse_time,
}

-- No digit comes next.
abbrev Stops : CStr → Type 0
Stops p = (n : ℕ) → read_digits n p ≡ (n, p)

white-digit : (a : ℕ) → white (48 + a) ≡ false
unfolding white
white-digit a = ground arith

skip_white-digit : (a : ℕ) (p : CStr) → skip_white ((48 + a) ∷ p) ≡ (48 + a) ∷ p
unfolding skip_white
skip_white-digit a p = rw (white-digit a) refl

is_digit-digit : (a : ℕ) → a < 10 → is_digit (48 + a) ≡ true
unfolding is_digit
is_digit-digit a lt = ground arith

read_digits-one :
    (n a : ℕ) (p : CStr) → a < 10 → read_digits n ((48 + a) ∷ p) ≡ read_digits (10 * n + a) p
unfolding read_digits
read_digits-one n a p lt = rw (is_digit-digit a lt) (ap (λ (k : ℕ). read_digits k p) (omega arith))

read_digits-two :
    (n : ℕ) (p : CStr) → n < 100 → Stops p → read_digits 0 (skip_white (two n p)) ≡ (n, p)
read_digits-two n p lt h =
    ap (read_digits 0) (skip_white-digit (n / 10) ((48 + n % 10) ∷ p))
    ∙ read_digits-one 0 (n / 10) ((48 + n % 10) ∷ p) (omega arith)
    ∙ read_digits-one (10 * 0 + n / 10) (n % 10) p (omega arith)
    ∙ h (10 * (10 * 0 + n / 10) + n % 10)
    ∙ ap (λ (k : ℕ). (k, p)) (omega arith)

Stops-colon : (p : CStr) → Stops (b':' ∷ p)
unfolding read_digits
Stops-colon p n = refl

Stops-end : Stops []
unfolding read_digits
Stops-end n = refl

hours :
    (fuel def h tp : ℕ) (p : CStr)
    → h < 100
    → span_loop (suc fuel) def true (two h (b':' ∷ p)) state_hour tp
      ≡ span_loop fuel def false p state_mins (tp + h * 3600)
unfolding span_loop
hours fuel def h tp p lt =
    ap
      (λ (number : ℕ × CStr).
        behind_number (λ q st t. span_loop fuel def false q st t) def true state_hour number.0
          (skip_white number.1) tp)
      (read_digits-two h (b':' ∷ p) lt (Stops-colon p))

minutes :
    (fuel def m tp : ℕ) (p : CStr)
    → m < 100
    → span_loop (suc fuel) def false (two m (b':' ∷ p)) state_mins tp
      ≡ span_loop fuel def false p state_secs (tp + m * 60)
unfolding span_loop
minutes fuel def m tp p lt =
    ap
      (λ (number : ℕ × CStr).
        behind_number (λ q st t. span_loop fuel def false q st t) def false state_mins number.0
          (skip_white number.1) tp)
      (read_digits-two m (b':' ∷ p) lt (Stops-colon p))

seconds :
    (fuel def s tp : ℕ)
    → s < 100
    → span_loop (suc (suc fuel)) def false (two s []) state_secs tp ≡ some (true, tp + s * 1)
unfolding span_loop
seconds fuel def s tp lt =
    ap
      (λ (number : ℕ × CStr).
        behind_number (λ q st t. span_loop (suc fuel) def false q st t) def false state_secs
          number.0 (skip_white number.1) tp)
      (read_digits-two s [] lt Stops-end)

abbrev clock_text : ℕ → ℕ → ℕ → CStr
clock_text h m s = two h (b':' ∷ two m (b':' ∷ two s []))

-- The characters that neither loop before the main one changes.
abbrev IsPlain : ℕ → Type 0
IsPlain c = (to_lower c ≡ c) × (white c ≡ false)

map-plain : (p : CStr) → All IsPlain p → map to_lower p ≡ p
map-plain [] h = refl
map-plain (c ∷ p) h = λ i. h.0.0 i ∷ map-plain p h.1 i

without_white-plain : (p : CStr) → All IsPlain p → without_white p ≡ p
unfolding without_white
without_white-plain [] h = refl
without_white-plain (c ∷ []) h = rw h.0.1 refl
without_white-plain (c ∷ d ∷ p) h = rw (without_white-plain (d ∷ p) h.1) refl

IsPlain-digit : (a : ℕ) → a < 10 → IsPlain (48 + a)
unfolding to_lower white
IsPlain-digit a lt = (ground arith, ground arith)

two-IsPlain : (n : ℕ) (p : CStr) → n < 100 → All IsPlain p → All IsPlain (two n p)
two-IsPlain n p lt h =
    (IsPlain-digit (n / 10) (omega arith), (IsPlain-digit (n % 10) (omega arith), h))

colon-IsPlain : (p : CStr) → All IsPlain p → All IsPlain (b':' ∷ p)
unfolding to_lower white
colon-IsPlain p h = ((refl, refl), h)

clock_text-IsPlain : (h m s : ℕ) → h < 100 → m < 100 → s < 100 → All IsPlain (clock_text h m s)
clock_text-IsPlain h m s lh lm ls =
    let secs = two-IsPlain s [] ls tt in
    let mins = two-IsPlain m (b':' ∷ two s []) lm (colon-IsPlain (two s []) secs) in
    two-IsPlain h (b':' ∷ two m (b':' ∷ two s [])) lh (colon-IsPlain (two m (b':' ∷ two s [])) mins)

clock_loop :
    (def h m s : ℕ)
    → h < 100
    → m < 100
    → s < 100
    → span_loop 9 def true (clock_text h m s) state_hour 0 ≡ some (true, h * 3600 + m * 60 + s)
clock_loop def h m s lh lm ls =
    hours 8 def h 0 (two m (b':' ∷ two s [])) lh
    ∙ minutes 7 def m (0 + h * 3600) (two s []) lm
    ∙ seconds 5 def s (0 + h * 3600 + m * 60) ls
    ∙ ap (λ (t : ℕ). some (true, t)) (omega arith)

-- Hours, minutes and seconds of two digits each, between colons, are that many seconds, whatever
-- the unit of a number alone is.
pub parse_time-clock :
    (def h m s : ℕ)
    → h < 100
    → m < 100
    → s < 100
    → parse_time (some (two h (b':' ∷ two m (b':' ∷ two s [])))) def
      ≡ some (true, h * 3600 + m * 60 + s)
unfolding parse_time span_of
parse_time-clock def h m s lh lm ls =
    let plain = clock_text-IsPlain h m s lh lm ls in
    ap (span_of def) (skip_white-digit (h / 10) ((48 + h % 10) ∷ b':' ∷ two m (b':' ∷ two s [])))
    ∙ ap (λ (p : CStr). span_loop (suc (length p)) def true p state_hour 0)
        (ap without_white (map-plain (clock_text h m s) plain)
          ∙ without_white-plain (clock_text h m s) plain)
    ∙ clock_loop def h m s lh lm ls
