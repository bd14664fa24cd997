-- ===== src/Parse/Clean.antt =====
-- HTStrip and HTCleanTelnetString of Library/Implementation/HTParse.c.
pub mod Laws
use cern_httpd.Base.{
  ℕ, ◌+◌, ◌-◌, Bool, true, false, ◌&&◌, ◌||◌, not, Option, none, some, List, [], ◌∷◌, ltb, leb,
  ◌==◌, if◌then◌else◌,
}
use cern_httpd.Base.Int.{ℤ, pos, negsuc}
use cern_httpd.Str.{CStr, char_value}

-- SPACE(c)
unfoldable pub space : ℕ → Bool
space c = c == b' ' || c == 9 || c == 10

pub is_empty : CStr → Bool
is_empty [] = true
is_empty (c ∷ s) = false

-- The loop that overwrites the trailing blanks, from the end of the string to the first other
-- character.
unfoldable pub zap_trailing : CStr → CStr
unfolding space is_empty
zap_trailing [] = []
zap_trailing (c ∷ s) =
    let rest = zap_trailing s in if is_empty rest && space c then [] else c ∷ rest

unfoldable pub skip_leading : CStr → CStr
unfolding space
skip_leading [] = []
skip_leading (c ∷ s) = if space c then skip_leading s else c ∷ s

unfoldable pub strip : Option CStr → Option CStr
unfolding zap_trailing skip_leading
strip none = none
strip (some s) = some (skip_leading (zap_trailing s))

-- The test of HTCleanTelnetString on the `int` that the character is converted to.
unfoldable pub telnet_illegal : ℤ → Bool
telnet_illegal (pos a) = not (a == 9) && (ltb a 32 || (ltb 0x7E a && ltb a 0xA0) || ltb 0xFE a)
telnet_illegal (negsuc a) = true

-- What is left of the string, and whether it was modified.
unfoldable pub clean_telnet_loop : CStr → CStr × Bool
unfolding telnet_illegal char_value
clean_telnet_loop [] = ([], false)
clean_telnet_loop (c ∷ cur) =
    let (rest, modified) = clean_telnet_loop cur in
    if telnet_illegal (char_value c) then ([], true) else (c ∷ rest, modified)

unfoldable pub clean_telnet_string : Option CStr → Option CStr × Bool
unfolding clean_telnet_loop
clean_telnet_string none = (none, false)
clean_telnet_string (some str) =
    let (rest, modified) = clean_telnet_loop str in (some rest, modified)
