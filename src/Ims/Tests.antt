-- ===== src/Ims/Tests.antt =====
-- Runs of the stream of HTims.c, and its theorems at concrete inputs.
use cern_httpd.Times.{parse_in_place}
use cern_httpd.Base.{ℕ, ◌≡◌, refl, true, [], ◌∷◌, ◌++◌, arith, codes, All, length, suc, zero, some}
use cern_httpd.Base.Int.{ℤ, pos}
use cern_httpd.Str.{CStr, to_upper}
use cern_httpd.Ims.{junk, if_mod_since_stream, ims_put_block}
use cern_httpd.Ims.Delivery.{passed}
use cern_httpd.Ims.Blocks.{feed}
use cern_httpd.Ims.Bounds.{IsInLine, put_block-overrun}

-- A parser for the tests: the number of characters behind the colon is the time, and the first
-- letter becomes a capital.
abbrev capital : CStr → CStr
capital [] = []
capital (c ∷ s) = to_upper c ∷ s

abbrev count_characters : CStr → ℤ × CStr
count_characters s = (pos (length s), capital s)

abbrev crlf : CStr
crlf = 13 ∷ 10 ∷ []

abbrev first_block : CStr
first_block = codes "HTTP/1.0 200 OK" ++ crlf ++ codes "Last-Modified: 1"

abbrev second_block : CStr
second_block = crlf ++ crlf ++ codes "text"

answers_304 :
    (feed count_characters
      (if_mod_since_stream (pos 9) 200 4)
      (first_block ∷ second_block ∷ [])).state
    ≡ junk
unfolding if_mod_since_stream ims_put_block to_upper
answers_304 = refl

passes_new :
    passed
      (feed count_characters
        (if_mod_since_stream (pos 5) 200 4)
        (first_block ∷ second_block ∷ [])).sink
    ≡ first_block ++ second_block
unfolding if_mod_since_stream ims_put_block to_upper
passes_new = refl

abbrev run_of : ℕ → CStr
run_of zero = []
run_of (suc n) = b'a' ∷ run_of n

run_of-All : (n : ℕ) → All IsInLine (run_of n)
run_of-All zero = tt
run_of-All (suc n) = (omega arith, run_of-All n)

length-run_of : (n : ℕ) → length (run_of n) ≡ n
length-run_of zero = refl
length-run_of (suc n) = omega (arith, length-run_of n)

put_block-overrun_example :
    (ims_put_block count_characters
      (if_mod_since_stream (pos 9) 200 4)
      (some (run_of 8097))).overrun
    ≡ true
put_block-overrun_example =
    put_block-overrun count_characters (pos 9) 200 4 (run_of 8097) (run_of-All 8097)
      (omega (arith, length-run_of 8097))

-- The month of the date in a buffer is written as it is in the table.
month_test :
    (parse_in_place (λ tm. pos 1) (codes "Thu, 10-JAN-93 01:29:59 GMT")).1
    ≡ codes "Thu, 10-Jan-93 01:29:59 GMT"
unfolding parse_in_place
month_test = refl

-- The parser of HTSUtils.c in the stream of HTims.c: a response that is newer than asked for.
newer_response :
    passed
      (feed (parse_in_place (λ tm. pos 7)) (if_mod_since_stream (pos 5) 200 4) (
        (codes "HTTP/1.0 200 OK"
          ++ crlf
          ++ codes "Last-Modified: Thu, 10 JAN 1993 01:29:59 GMT"
          ++ second_block)
        ∷ [])).sink
    ≡ codes "HTTP/1.0 200 OK"
      ++ crlf
      ++ codes "Last-Modified: Thu, 10 Jan 1993 01:29:59 GMT"
      ++ second_block
unfolding if_mod_since_stream ims_put_block parse_in_place
newer_response = refl
