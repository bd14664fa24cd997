-- ===== src/Parse/Clean/Laws.antt =====
-- What HTStrip and HTCleanTelnetString leave of a string.
use mathlib.Core.Bool.{◌&&◌}
use cern_httpd.Base.{
  if◌then◌else◌, ℕ, ◌≤◌, ◌≡◌, ◌⊎◌, inl, inr, refl, ap, Bool, true, false, some, [], ◌∷◌, ◌++◌, All,
  arith, Bool-cases, ◌∙◌,
}
use cern_httpd.Str.{CStr, char_value}
use cern_httpd.Parse.Clean.{
  space, is_empty, zap_trailing, skip_leading, strip, telnet_illegal, clean_telnet_loop,
  clean_telnet_string,
}

abbrev pub IsSpaces : CStr → Type 0
IsSpaces = All (λ c. space c ≡ true)

-- The first character, if any, is no space.
abbrev pub LeadsWell : CStr → Type 0
LeadsWell [] = Unit
LeadsWell (c ∷ s) = space c ≡ false

-- The last character, if any, is no space.
abbrev pub TrailsWell : CStr → Type 0
TrailsWell [] = Unit
TrailsWell (c ∷ []) = space c ≡ false
TrailsWell (c ∷ d ∷ s) = TrailsWell (d ∷ s)

zap_trailing_step :
    (c : ℕ) (rest s ws : CStr)
    → TrailsWell rest
    → IsSpaces ws
    → s ≡ rest ++ ws
    → let zapped : CStr = if is_empty rest && space c then [] else c ∷ rest in
      TrailsWell zapped × ((ws' : CStr) × IsSpaces ws' × (c ∷ s ≡ zapped ++ ws'))
unfolding is_empty
zap_trailing_step c [] s ws trails spaces whole = elim (Bool-cases (space c)) [
  | inl e ↦ rw e (tt, (c ∷ ws, (e, spaces), ap (λ t. c ∷ t) whole))
  | inr e ↦ rw e (e, (ws, spaces, ap (λ t. c ∷ t) whole))
]
zap_trailing_step c (d ∷ rest) s ws trails spaces whole =
    (trails, (ws, spaces, ap (λ t. c ∷ t) whole))

zap_trailing_lem :
    (s : CStr)
    → TrailsWell (zap_trailing s) × ((ws : CStr) × IsSpaces ws × (s ≡ zap_trailing s ++ ws))
unfolding zap_trailing
zap_trailing_lem [] = (tt, ([], tt, refl))
zap_trailing_lem (c ∷ s) =
    let (trails, (ws, spaces, whole)) = zap_trailing_lem s in
    zap_trailing_step c (zap_trailing s) s ws trails spaces whole

skip_leading_lem :
    (s : CStr)
    → LeadsWell (skip_leading s) × ((ws : CStr) × IsSpaces ws × (s ≡ ws ++ skip_leading s))
unfolding skip_leading
skip_leading_lem [] = (tt, ([], tt, refl))
skip_leading_lem (c ∷ s) = elim (Bool-cases (space c)) [
  | inl e ↦
      let (leads, (ws, spaces, whole)) = skip_leading_lem s in
      rw e (leads, (c ∷ ws, (e, spaces), ap (λ t. c ∷ t) whole))
  | inr e ↦ rw e (e, ([], tt, refl))
]

skip_leading-TrailsWell : (s : CStr) → TrailsWell s → TrailsWell (skip_leading s)
unfolding skip_leading
skip_leading-TrailsWell [] h = tt
skip_leading-TrailsWell (c ∷ []) h = rw h h
skip_leading-TrailsWell (c ∷ d ∷ s) h = elim (Bool-cases (space c)) [
  | inl e ↦ rw e (skip_leading-TrailsWell (d ∷ s) h)
  | inr e ↦ rw e h
]

-- `t` is `s` without the spaces at both ends, and no more is gone.
abbrev pub IsStripped : CStr → CStr → Type 0
IsStripped s t =
    LeadsWell t
    × TrailsWell t
    × ((ws ws' : CStr) × IsSpaces ws × IsSpaces ws' × (s ≡ ws ++ t ++ ws'))

-- HTStrip removes exactly the blanks, tabs and newlines at the two ends of a string.
strip-IsStripped : (s : CStr) → (t : CStr) × (strip (some s) ≡ some t) × IsStripped s t
unfolding strip
strip-IsStripped s =
    let (trails, (ws', spaces', whole)) = zap_trailing_lem s in
    let (leads, (ws, spaces, zapped)) = skip_leading_lem (zap_trailing s) in
    (
      skip_leading (zap_trailing s),
      refl,
      (
        leads,
        skip_leading-TrailsWell (zap_trailing s) trails,
        (ws, ws', spaces, spaces', whole ∙ ap (λ t. t ++ ws') zapped),
      ),
    )

-- The characters that HTCleanTelnetString lets pass where `char` is signed: TAB and 0x20 to 0x7E.
abbrev pub IsTelnetLegal : ℕ → Type 0
IsTelnetLegal c = (c ≡ 9) ⊎ ((32 ≤ c) × (c ≤ 0x7E))

-- The string is cut before its first illegal character.
abbrev pub CutAtIllegal : CStr → CStr → Type 0
CutAtIllegal str rest = (c : ℕ) × (tail : CStr) × (str ≡ rest ++ c ∷ tail) × (¬ IsTelnetLegal c)

telnet_illegal-char_value-false : (c : ℕ) → telnet_illegal (char_value c) ≡ false → IsTelnetLegal c
unfolding telnet_illegal char_value
telnet_illegal-char_value-false c h = ground arith

telnet_illegal-char_value-true : (c : ℕ) → telnet_illegal (char_value c) ≡ true → ¬ IsTelnetLegal c
unfolding telnet_illegal char_value
telnet_illegal-char_value-true c h = ground arith

abbrev pub TelnetOutcome : CStr → CStr → Bool → Type 0
TelnetOutcome str rest modified =
    ((modified ≡ false) × (rest ≡ str)) ⊎ ((modified ≡ true) × CutAtIllegal str rest)

TelnetOutcome-cons :
    (c : ℕ) {cur rest : CStr} {modified : Bool}
    → TelnetOutcome cur rest modified
    → TelnetOutcome (c ∷ cur) (c ∷ rest) modified
TelnetOutcome-cons c (inl (m, e)) = inl (m, ap (λ t. c ∷ t) e)
TelnetOutcome-cons c (inr (m, (d, tail, whole, illegal))) =
    inr (m, (d, tail, ap (λ t. c ∷ t) whole, illegal))

clean_telnet_loop_lem :
    (str : CStr)
    → All IsTelnetLegal (clean_telnet_loop str).0
      × TelnetOutcome str (clean_telnet_loop str).0 (clean_telnet_loop str).1
unfolding clean_telnet_loop
clean_telnet_loop_lem [] = (tt, inl (refl, refl))
clean_telnet_loop_lem (c ∷ cur) = elim (Bool-cases (telnet_illegal (char_value c))) [
  | inl e ↦ rw e (tt, inr (refl, (c, cur, refl, telnet_illegal-char_value-true c e)))
  | inr e ↦
      let (legal, outcome) = clean_telnet_loop_lem cur in
      rw e ((telnet_illegal-char_value-false c e, legal), TelnetOutcome-cons c outcome)
]

-- HTCleanTelnetString leaves legal characters only. It reports no change and the string is what it
-- was, or it reports a change and the string was cut before its first illegal character.
pub clean_telnet_string_lem :
    (str : CStr)
    → (rest : CStr) × (modified : Bool) × (clean_telnet_string (some str) ≡ (some rest, modified))
      × All IsTelnetLegal rest
      × TelnetOutcome str rest modified
unfolding clean_telnet_string
clean_telnet_string_lem str =
    let (legal, outcome) = clean_telnet_loop_lem str in
    ((clean_telnet_loop str).0, (clean_telnet_loop str).1, refl, legal, outcome)
