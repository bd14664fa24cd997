-- ===== src/Times/Formats.antt =====
-- The three formats of a date that parse_http_time of HTSUtils.c reads.
use cern_httpd.Base.{
  ℕ, ◌+◌, ◌-◌, ◌*◌, ◌/◌, ◌%◌, ◌≤◌, ◌≡◌, refl, ap, ◌∙◌, arith, Option, none, some, [], ◌∷◌, ◌++◌,
  ==_refl,
}
use cern_httpd.Base.Int.{ℤ, pos, neg, ◌-ℤ◌}
use cern_httpd.Str.{CStr, strchr}
use cern_httpd.Times.{Tm, first_format, second_format, other_format, times}
use cern_httpd.Times.Print.{
  Date, IsDate, two, padded, month, clock, gmt, year4, day_850, day_1123, asctime, tm_of,
}
use cern_httpd.Times.Digits.{make_num-two, make_num-padded, make_month-month, Lacks}

pub strchr-Lacks : (x : ℕ) (s : CStr) → Lacks x s → strchr s x ≡ none
unfolding strchr
strchr-Lacks x [] h = refl
strchr-Lacks x (c ∷ s) h = rw h.0 (strchr-Lacks x s h.1)

pub strchr-behind : (x : ℕ) (w s : CStr) → Lacks x w → strchr (w ++ x ∷ s) x ≡ some (x ∷ s)
unfolding strchr
strchr-behind x [] s h = rw (==_refl x) refl
strchr-behind x (c ∷ w) s h = rw h.0 (strchr-behind x w s h.1)

-- The fields, one by one.
tm_fields :
    (a c d e f a' c' d' e' f' : ℤ) (b b' : ℕ)
    → a ≡ a'
    → b ≡ b'
    → c ≡ c'
    → d ≡ d'
    → e ≡ e'
    → f ≡ f'
    → ◌≡◌ {A = Option Tm}
        (some
          (record { tm_mday = a; tm_mon = b; tm_year = c; tm_hour = d; tm_min = e; tm_sec = f }))
        (some (record {
          tm_mday = a';
          tm_mon = b';
          tm_year = c';
          tm_hour = d';
          tm_min = e';
          tm_sec = f';
        }))
tm_fields a c d e f a' c' d' e' f' b b' pa pb pc pd pe pf = λ i. some (record {
  tm_mday = pa i;
  tm_mon = pb i;
  tm_year = pc i;
  tm_hour = pd i;
  tm_min = pe i;
  tm_sec = pf i;
})

-- The year is taken from its last two digits.
abbrev pub last_digits : Date → Tm
last_digits d = record (tm_of d) { tm_year = pos (d.year % 100) }

pub first_format-day : (d : Date) → IsDate d → first_format (day_850 d) ≡ some (last_digits d)
unfolding first_format tm_of
first_format-day d h =
    tm_fields _ _ _ _ _ _ _ _ _ _ _ _
      (make_num-two d.day (b'-' ∷ month d.mon (b'-' ∷ two (d.year % 100) (b' ' ∷ clock d gmt)))
        (omega (arith, h.day_high)))
      (make_month-month d.mon (b'-' ∷ two (d.year % 100) (b' ' ∷ clock d gmt)) h.mon_high)
      (make_num-two (d.year % 100) (b' ' ∷ clock d gmt) (omega arith))
      (make_num-two d.hour (b':' ∷ two d.min (b':' ∷ two d.sec gmt)) (omega (arith, h.hour_high)))
      (make_num-two d.min (b':' ∷ two d.sec gmt) (omega (arith, h.min_high)))
      (make_num-two d.sec gmt (omega (arith, h.sec_high)))

century :
    (a b : ℕ) → 19 ≤ a → (times 100 (pos a) -ℤ pos 1900) -ℤ neg (pos b) ≡ pos (100 * a + b - 1900)
century a b le = ground arith

year_value :
    (y : ℕ) (a b : ℤ)
    → 1970 ≤ y
    → a ≡ pos (y / 100)
    → b ≡ pos (y % 100)
    → (times 100 a -ℤ pos 1900) -ℤ neg b ≡ pos (y - 1900)
year_value y a b le ea eb =
    (λ i. (times 100 (ea i) -ℤ pos 1900) -ℤ neg (eb i))
    ∙ century (y / 100) (y % 100) (omega arith)
    ∙ ap pos (omega arith)

pub second_format-day : (d : Date) → IsDate d → second_format (day_1123 d) ≡ some (tm_of d)
unfolding second_format tm_of
second_format-day d h =
    tm_fields _ _ _ _ _ _ _ _ _ _ _ _
      (make_num-two d.day (b' ' ∷ month d.mon (b' ' ∷ year4 d.year (b' ' ∷ clock d gmt)))
        (omega (arith, h.day_high)))
      (make_month-month d.mon (b' ' ∷ year4 d.year (b' ' ∷ clock d gmt)) h.mon_high)
      (year_value d.year _ _ h.year_low
        (make_num-two (d.year / 100) (two (d.year % 100) (b' ' ∷ clock d gmt))
          (omega (arith, h.year_high)))
        (make_num-two (d.year % 100) (b' ' ∷ clock d gmt) (omega arith)))
      (make_num-two d.hour (b':' ∷ two d.min (b':' ∷ two d.sec gmt)) (omega (arith, h.hour_high)))
      (make_num-two d.min (b':' ∷ two d.sec gmt) (omega (arith, h.min_high)))
      (make_num-two d.sec gmt (omega (arith, h.sec_high)))

pub other_format-asctime :
    (w1 w2 w3 : ℕ) (d : Date) → IsDate d → other_format (asctime w1 w2 w3 d) ≡ some (last_digits d)
unfolding other_format tm_of
other_format-asctime w1 w2 w3 d h =
    let tail = b' ' ∷ year4 d.year gmt in
    tm_fields _ _ _ _ _ _ _ _ _ _ _ _
      (make_num-padded d.day (b' ' ∷ clock d tail) (omega (arith, h.day_high)))
      (make_month-month d.mon (b' ' ∷ padded d.day (b' ' ∷ clock d tail)) h.mon_high)
      (make_num-two (d.year % 100) gmt (omega arith))
      (make_num-two d.hour (b':' ∷ two d.min (b':' ∷ two d.sec tail)) (omega (arith, h.hour_high)))
      (make_num-two d.min (b':' ∷ two d.sec tail) (omega (arith, h.min_high)))
      (make_num-two d.sec tail (omega (arith, h.sec_high)))
