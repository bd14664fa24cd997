-- ===== src/Wild.antt =====
-- Daemon/Implementation/HTWild.c: templates with wildcards.
-- A chain of HTPattern is the list of its nodes, NULL the empty list; so is a chain of HTWildMatch.
-- The result of `match` is `none` for NULL. HTRuleCaseSense is the argument `case_sense`.
pub mod Build
pub mod Replace
pub mod Invert
pub mod Sound
pub mod Fuel
pub mod Dirs
pub mod Prefix
pub mod Overlap
mod Tests
use cern_httpd.Base.{
  ℕ, zero, suc, ◌+◌, Bool, true, false, ◌&&◌, ◌||◌, not, Option, none, some, List, [], ◌∷◌, ◌++◌,
  ◌==◌, if◌then◌else◌, length, drop, codes, is_some,
}
use cern_httpd.Str.{CStr, starts, strncasecomp, is_zero, strstr, strcasestr, before}
use cern_httpd.Parse.Escape.{unescape}

pub record PatNode : Type 0 where
  pub wild : Bool
  pub text : Option CStr

abbrev pub HtPattern : Type 0
HtPattern = List PatNode

-- The texts that the wildcards have matched, and one more node, without a text, at the end.
abbrev pub WildMatch : Type 0
WildMatch = List (Option CStr)

-- pat_new, which hangs the new node on the end of the chain.
unfoldable pub pat_new : Bool → CStr → HtPattern → HtPattern
pat_new wild text chain = chain ++ record { wild = wild; text = some text } ∷ []

-- `*buf` is not the terminator.
unfoldable pub has_text : CStr → Bool
has_text [] = false
has_text (c ∷ s) = true

-- What HTPattern_new does behind its loop.
unfoldable pub pattern_end : CStr → HtPattern → Bool → HtPattern
unfolding pat_new has_text
pattern_end buf chain wild = if wild || has_text buf then pat_new wild buf chain else chain

-- The loop of HTPattern_new. A backslash at the end of the string is read as a newline.
unfoldable pub pattern_loop : CStr → CStr → HtPattern → Bool → HtPattern
unfolding pattern_end pat_new has_text
pattern_loop [] buf chain wild = pattern_end buf chain wild
pattern_loop (c ∷ []) buf chain wild =
    if c == b'\\'
    then pattern_end (buf ++ 10 ∷ []) chain wild
    else if c == b'*'
    then pattern_end [] (if has_text buf then pat_new wild buf chain else chain) true
    else pattern_end (buf ++ c ∷ []) chain wild
pattern_loop (c ∷ d ∷ cur) buf chain wild =
    let escaped = pattern_loop cur (buf ++ d ∷ []) chain wild in
    let starred =
      pattern_loop (d ∷ cur) [] (if has_text buf then pat_new wild buf chain else chain) true in
    let copied = pattern_loop (d ∷ cur) (buf ++ c ∷ []) chain wild in
    if c == b'\\' then escaped else if c == b'*' then starred else copied

unfoldable pub pattern_new : Option CStr → HtPattern
unfolding pattern_loop
pattern_new none = []
pattern_new (some str) = pattern_loop str [] [] false

unfoldable pub is_user_dir : CStr → Bool
unfolding starts
is_user_dir str = starts (codes "/~") str || starts (codes "file:/~") str

-- is_user_dir of a node's text. No pattern of HTPattern_new has a node without a text.
unfoldable pub text_is_user_dir : Option CStr → Bool
unfolding is_user_dir
text_is_user_dir none = false
text_is_user_dir (some text) = is_user_dir text

-- The comparison with a text that stands behind no wildcard.
unfoldable pub text_agrees : Bool → CStr → CStr → Bool
unfolding starts strncasecomp is_zero
text_agrees true text act = starts text act
text_agrees false text act = is_zero (strncasecomp text act (length text))

-- The search for a text behind a wildcard.
unfoldable pub search_text : Bool → CStr → CStr → Option CStr
unfolding strstr strcasestr
search_text true text cur = strstr cur text
search_text false text cur = strcasestr (some cur) (some text)

-- `while (cur) { ... }`: `next` is the match of the rest of the pattern behind the text. Each round
-- goes on behind the text that it found, so a text of one character or more lets the loop end.
unfoldable pub wild_loop :
    (CStr → Option CStr) → ℕ → (CStr → Option WildMatch) → CStr → ℕ → Option CStr → Option WildMatch
unfolding before
wild_loop search len next act fuel none = none
wild_loop search len next act zero (some cur) = none
wild_loop search len next act (suc fuel) (some cur) = elim (next (drop len cur)) [
  | some m ↦ some (some (before act cur) ∷ m)
  | none ↦ wild_loop search len next act fuel (search (drop len cur))
]

-- A node without a wildcard before its text, at an `act` that is no user directory unless `udir`.
unfoldable pub match_plain :
    Bool → Bool → Option CStr → (CStr → Option WildMatch) → CStr → Option WildMatch
unfolding text_agrees is_user_dir
match_plain case_sense udir none next [] = some (none ∷ [])
match_plain case_sense udir none next (c ∷ act) = none
match_plain case_sense udir (some text) next act =
    if not (text_agrees case_sense text act) || (udir && not (is_user_dir text))
    then none
    else next (drop (length text) act)

-- `!pat->text || !*pat->text`
unfoldable pub no_text : Option CStr → Bool
no_text none = true
no_text (some []) = true
no_text (some (c ∷ text)) = false

unfoldable pub match_wild :
    Bool → Bool → Option CStr → (CStr → Option WildMatch) → CStr → Option WildMatch
unfolding no_text text_is_user_dir search_text wild_loop
match_wild case_sense udir none next act = if not udir then some (some act ∷ []) else none
match_wild case_sense udir (some text) next act =
    if no_text (some text) && not udir
    then some (some act ∷ [])
    else if udir && not (text_is_user_dir (some text))
    then none
    else wild_loop (search_text case_sense text) (length text) next act (suc (length act))
        (search_text case_sense text act)

unfoldable pub match_node : Bool → PatNode → (CStr → Option WildMatch) → CStr → Option WildMatch
unfolding match_plain match_wild is_user_dir
match_node case_sense pat next act =
    if pat.wild
    then match_wild case_sense (is_user_dir act) pat.text next act
    else match_plain case_sense (is_user_dir act) pat.text next act

unfoldable pub match_act : Bool → HtPattern → CStr → Option WildMatch
unfolding match_node
match_act case_sense [] [] = some (none ∷ [])
match_act case_sense [] (c ∷ act) = none
match_act case_sense (p ∷ pat) act = match_node case_sense p (match_act case_sense pat) act

-- match
unfoldable pub match_pattern : Bool → HtPattern → Option CStr → Option WildMatch
unfolding match_act
match_pattern case_sense [] none = some (none ∷ [])
match_pattern case_sense (p ∷ pat) none = none
match_pattern case_sense pat (some act) = match_act case_sense pat act

abbrev pub text_of : Option CStr → CStr
text_of none = []
text_of (some text) = text

-- The first loop of `replace`, which counts the room that the result takes.
unfoldable pub replace_len : ℕ → HtPattern → WildMatch → ℕ
replace_len len [] w = len
replace_len len (t ∷ eqv) [] = replace_len (len + length (text_of t.text)) eqv []
replace_len len (t ∷ eqv) (x ∷ w) =
    let taken = replace_len (len + length (text_of x) + length (text_of t.text)) eqv w in
    let left = replace_len (len + length (text_of t.text)) eqv (x ∷ w) in
    if t.wild then taken else left

-- The second loop of `replace`: the texts of the pattern, each behind what its wildcard stands for.
unfoldable pub replace : HtPattern → WildMatch → CStr
replace [] w = []
replace (t ∷ eqv) [] = text_of t.text ++ replace eqv []
replace (t ∷ eqv) (x ∷ w) =
    let taken = text_of x ++ (text_of t.text ++ replace eqv w) in
    let left = text_of t.text ++ replace eqv (x ∷ w) in if t.wild then taken else left

unfoldable pub replace_or_copy : HtPattern → CStr → WildMatch → CStr
unfolding replace
replace_or_copy [] act matches = act
replace_or_copy (t ∷ eqv) act matches = replace (t ∷ eqv) matches

-- HTPattern_match
unfoldable pub pattern_match : Bool → HtPattern → HtPattern → Option CStr → Option CStr
unfolding match_pattern replace_or_copy
pattern_match case_sense [] eqv act = none
pattern_match case_sense (p ∷ pat) eqv none = none
pattern_match case_sense (p ∷ pat) eqv (some act) =
    elim (match_pattern case_sense (p ∷ pat) (some act)) [
      | none ↦ none
      | some matches ↦ some (replace_or_copy eqv act matches)
    ]

-- HTPattern_url_match
unfoldable pub pattern_url_match : Bool → HtPattern → CStr → Bool
unfolding pattern_match unescape
pattern_url_match case_sense pat url =
    is_some (pattern_match case_sense pat [] (some (unescape url)))

-- HTPattern_firstWild
unfoldable pub first_wild : HtPattern → Option CStr → Option CStr
first_wild [] act = none
first_wild (p ∷ pat) none = none
first_wild (p ∷ []) (some act) = if p.wild then some act else none
first_wild (p ∷ q ∷ pat) (some act) =
    if p.wild
    then some act
    else elim p.text [ none ↦ none | some text ↦ some (drop (length text) act) ]
