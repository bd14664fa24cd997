-- ===== src/Parse/Address.antt =====
-- scan, HTParse and HTRelative of Library/Implementation/HTParse.c.
-- HTSimplify, which HTParse calls on a path that it has put together, is the argument `simplify`.
pub mod RoundTrip
use Prim.Native.Nat.{bit_and}
use cern_httpd.Base.{
  ℕ, zero, suc, ◌+◌, Bool, true, false, ◌&&◌, ◌||◌, not, Option, none, some, List, [], ◌∷◌, ◌++◌,
  ltb, ◌==◌, if◌then◌else◌, codes, drop,
}
use cern_httpd.Str.{CStr, strchr, strrchr, chop_at, streq, strcasecomp, is_zero, before}

-- struct_parts
pub record Parts : Type 0 where
  pub access : Option CStr
  pub host : Option CStr
  pub absolute : Option CStr
  pub relative : Option CStr
  pub anchor : Option CStr

-- The first loop of scan: the access, and the text behind it. `seen` is the text from
-- `after_access` up to the pointer p.
unfoldable pub access_loop : CStr → CStr → Option CStr → CStr → Option CStr × CStr
unfolding strcasecomp is_zero
access_loop seen after_access access [] = (access, after_access)
access_loop seen after_access access (c ∷ p) =
    let ignored = access_loop [] p none p in
    let further = access_loop (seen ++ c ∷ []) after_access access p in
    if c == b':'
    then (if is_zero (strcasecomp (codes "URL") seen) then ignored else (some seen, p))
    else if c == b'/' || c == b'#'
    then (access, after_access)
    else further

-- The second loop: what stands between the first hash and the next.
unfoldable pub anchor_of : Option CStr → Option CStr
unfolding chop_at
anchor_of none = none
anchor_of (some []) = none
anchor_of (some (hash ∷ anchor)) = some (chop_at b'#' anchor)

unfoldable pub after_slash : Option CStr → Option CStr
after_slash none = none
after_slash (some []) = none
after_slash (some (slash ∷ path)) = some path

-- The rest of scan, for the text behind the access without its anchor.
unfoldable pub scan_path : Option CStr → Option CStr → CStr → Parts
unfolding after_slash chop_at strchr
scan_path access anchor [] = record {
  access = access;
  host = none;
  absolute = none;
  relative = none;
  anchor = anchor;
}
scan_path access anchor (c ∷ []) =
    if c == b'/'
    then record {
      access = access;
      host = none;
      absolute = some [];
      relative = none;
      anchor = anchor;
    }
    else record {
      access = access;
      host = none;
      absolute = none;
      relative = some (c ∷ []);
      anchor = anchor;
    }
scan_path access anchor (c ∷ d ∷ p) =
    if c == b'/'
    then (if d == b'/'
        then record {
          access = access;
          host = some (chop_at b'/' p);
          absolute = after_slash (strchr p b'/');
          relative = none;
          anchor = anchor;
        }
        else record {
          access = access;
          host = none;
          absolute = some (d ∷ p);
          relative = none;
          anchor = anchor;
        })
    else record {
      access = access;
      host = none;
      absolute = none;
      relative = some (c ∷ d ∷ p);
      anchor = anchor;
    }

unfoldable pub scan : CStr → Parts
unfolding access_loop anchor_of scan_path chop_at strchr
scan name =
    let (access, after_access) = access_loop [] name none name in
    scan_path access (anchor_of (strchr after_access b'#')) (chop_at b'#' after_access)

unfoldable pub or_else : Option CStr → Option CStr → Option CStr
or_else (some given) related = some given
or_else none related = related

-- PARSE_ACCESS and its kin.
abbrev pub parse_access : ℕ
parse_access = 16

abbrev pub parse_host : ℕ
parse_host = 8

abbrev pub parse_path : ℕ
parse_path = 4

abbrev pub parse_anchor : ℕ
parse_anchor = 2

abbrev pub parse_punctuation : ℕ
parse_punctuation = 1

abbrev pub parse_all : ℕ
parse_all = 31

-- `wanted & flag`
unfoldable pub wants : ℕ → ℕ → Bool
wants wanted flag = not (bit_and wanted flag == 0)

unfoldable pub punctuation : ℕ → CStr → CStr
unfolding wants
punctuation wanted sign = if wants wanted parse_punctuation then sign else []

-- Both are given, and differ.
unfoldable pub differ : Option CStr → Option CStr → Bool
unfolding streq
differ none related = false
differ (some given) none = false
differ (some given) (some related) = not (streq given related)

-- What is inherited of the related address if the accesses differ, and if the hosts do.
unfoldable pub inherit_access : Parts → Parts → Parts
unfolding differ
inherit_access given related =
    if differ given.access related.access
    then record related { host = none; absolute = none; relative = none; anchor = none }
    else related

unfoldable pub inherit_host : Parts → Parts → Parts
unfolding differ
inherit_host given related =
    if differ given.host related.host
    then record related { absolute = none; relative = none; anchor = none }
    else related

unfoldable pub put_access : ℕ → Option CStr → CStr
unfolding punctuation
put_access wanted none = []
put_access wanted (some access) = access ++ punctuation wanted (codes ":")

unfoldable pub put_host : ℕ → Option CStr → CStr
unfolding punctuation
put_host wanted none = []
put_host wanted (some host) = punctuation wanted (codes "//") ++ host

unfoldable pub put_anchor : ℕ → Option CStr → CStr
unfolding punctuation
put_anchor wanted none = []
put_anchor wanted (some anchor) = punctuation wanted (codes "#") ++ anchor

-- The text up to and with its last slash; `none` where the loop runs out of the string.
unfoldable pub through_last_slash : CStr → Option CStr → Option CStr
unfolding before
through_last_slash text none = none
through_last_slash text (some slash) = some (before text slash ++ b'/' ∷ [])

-- The related path with its file name, which ends before a search part, replaced.
unfoldable pub rebase : (CStr → CStr) → CStr → CStr → Option CStr
unfolding through_last_slash chop_at strrchr
rebase simplify result relative =
    let text = chop_at b'?' result in
    elim (through_last_slash text (strrchr text b'/')) [
      | none ↦ none
      | some directory ↦ some (simplify (directory ++ relative))
    ]

unfoldable pub adopt_path : (CStr → CStr) → CStr → Option CStr → Option CStr
unfolding rebase
adopt_path simplify result none = some result
adopt_path simplify result (some relative) = rebase simplify result relative

-- The part of HTParse for the path, behind the `result` so far.
unfoldable pub put_path :
    (CStr → CStr) → ℕ → CStr → Option CStr → Option CStr → Option CStr → Option CStr → Option CStr
unfolding punctuation adopt_path
put_path simplify wanted result (some absolute) relative related_absolute related_relative =
    some (result ++ (punctuation wanted (codes "/") ++ absolute))
put_path simplify wanted result none relative (some related_absolute) related_relative =
    adopt_path simplify (result ++ b'/' ∷ related_absolute) relative
put_path simplify wanted result none (some relative) none related_relative =
    some (result ++ relative)
put_path simplify wanted result none none none (some related_relative) =
    some (result ++ related_relative)
put_path simplify wanted result none none none none = some (result ++ b'/' ∷ [])

unfoldable pub add_anchor : ℕ → Option CStr → Option CStr → Option CStr
unfolding put_anchor
add_anchor wanted anchor none = none
add_anchor wanted anchor (some result) = some (result ++ put_anchor wanted anchor)

-- HTParse on the parts of the two addresses; `none` where its loop over the path runs out of the
-- string.
unfoldable pub parse_parts : (CStr → CStr) → Parts → Parts → ℕ → Option CStr
unfolding inherit_access inherit_host or_else wants put_access put_host put_path add_anchor
parse_parts simplify given related wanted =
    let access = or_else given.access related.access in
    let related1 = inherit_access given related in
    let related2 = inherit_host given related1 in
    let result = if wants wanted parse_access then put_access wanted access else [] in
    let result1 =
      result
      ++ (if wants wanted parse_host
          then put_host wanted (or_else given.host related1.host)
          else []) in
    let result2 =
      if wants wanted parse_path
      then put_path simplify wanted result1 given.absolute given.relative related2.absolute
          related2.relative
      else some result1 in
    if wants wanted parse_anchor
    then add_anchor wanted (or_else given.anchor related2.anchor) result2
    else result2

-- HTParse
unfoldable pub ht_parse : (CStr → CStr) → CStr → CStr → ℕ → Option CStr
unfolding scan parse_parts
ht_parse simplify name related_name wanted =
    parse_parts simplify (scan name) (scan related_name) wanted
