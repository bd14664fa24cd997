-- ===== src/Parse/Tests.antt =====
-- The theorems about HTParse.c at concrete strings.
use cern_httpd.Base.{◌≡◌, refl, All, arith, codes, some, Bool, ◌∷◌}
use cern_httpd.Parse.Address.{ht_parse, parse_all}
use cern_httpd.Parse.Address.RoundTrip.{full, ht_parse-full}
use cern_httpd.Parse.Relative.{ht_relative}
use cern_httpd.Str.{CStr, strcasecomp, is_zero}
use cern_httpd.Parse.Escape.{escape, unescape}
use cern_httpd.Parse.Escape.Laws.{unescape-escape}
use cern_httpd.Parse.Clean.{clean_telnet_string}
use cern_httpd.Parse.Clean.Laws.{IsTelnetLegal, clean_telnet_string_lem, TelnetOutcome}

unescape-escape_example : unescape (escape (codes "a b%c/d") 4) ≡ codes "a b%c/d"
unescape-escape_example = unescape-escape (codes "a b%c/d") 4 (omega arith)

clean_telnet_string_example :
    (rest : CStr) × (modified : Bool) × (clean_telnet_string (some (b'a' ∷ 10 ∷ b'b' ∷ codes ""))
      ≡ (some rest, modified))
    × All IsTelnetLegal rest
    × TelnetOutcome (b'a' ∷ 10 ∷ b'b' ∷ codes "") rest modified
clean_telnet_string_example = clean_telnet_string_lem (b'a' ∷ 10 ∷ b'b' ∷ codes "")

climbs : ht_relative (codes "http://h/a/b") (codes "http://h/c/d#x/y") ≡ codes "../a/b"
unfolding ht_relative
climbs = refl

resolves :
    ht_parse (λ s. s) (codes "b.html#x") (codes "http://h/a/c?d/e") parse_all
    ≡ some (codes "http://h/a/b.html#x")
unfolding ht_parse
resolves = refl

ht_parse-full_example :
    ht_parse
      (λ s. s)
      (full (codes "http") (codes "h:80") (codes "a/b") (codes "x"))
      (codes "c")
      parse_all
    ≡ some (full (codes "http") (codes "h:80") (codes "a/b") (codes "x"))
ht_parse-full_example =
    ht_parse-full (λ s. s) (codes "http") (codes "h:80") (codes "a/b") (codes "x") (codes "c")
      (omega arith, unfold strcasecomp is_zero in refl) (omega arith) (omega arith) (omega arith)
      (omega arith)
