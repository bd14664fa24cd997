-- ===== src/Parse/Escape/Laws.antt =====
-- What HTEscape writes, and that HTUnEscape reads it back.
use Prim.Native.Nat.{bit_and-bitwise}
use cern_httpd.Base.{
  ℕ, zero, suc, ◌+◌, ◌*◌, ◌/◌, ◌%◌, ◌<◌, ◌≡◌, ◌≢◌, refl, ap, true, false, [], ◌∷◌, All, arith, ◌==◌,
  ==_ne, ◌⊎◌, Bool-cases, inl, inr, ◌∙◌,
}
use cern_httpd.Base.Table.{agree, from_table}
use cern_httpd.Str.{CStr}
use cern_httpd.Parse.Escape.{acceptable, hex, escape, from_hex, unescape_from, c_str, unescape}

-- A byte that may stand in a C string.
abbrev pub IsChar : ℕ → Type 0
IsChar c = (c ≢ 0) × (c < 256)

from_hex-hex_table : agree (λ d. from_hex (hex d)) (λ d. d) 16 ≡ true
unfolding agree from_hex hex
from_hex-hex_table = refl

from_hex-hex : (d : ℕ) → d < 16 → from_hex (hex d) ≡ d
from_hex-hex d h = from_table 16 (λ d. from_hex (hex d)) (λ d. d) d from_hex-hex_table h

-- No mask makes the escape character acceptable.
pub not-acceptable-percent : (mask : ℕ) → acceptable mask b'%' ≡ false
unfolding acceptable
not-acceptable-percent mask = ground (arith, bit_and-bitwise 0 mask)

unescape_from-copy :
    (str : CStr) (q c : ℕ) (p : CStr)
    → (c == b'%') ≡ false
    → unescape_from str q (c ∷ p) ≡ c ∷ unescape_from str (q + 1) p
unfolding unescape_from
unescape_from-copy str q c [] h = rw h
unescape_from-copy str q c (d ∷ []) h = rw h
unescape_from-copy str q c (d ∷ e ∷ p) h = rw h

-- The two digits of a byte spell it.
byte_of_digits :
    (a : ℕ) → a < 256 → ((from_hex (hex (a / 16)) * 16) % 256 + from_hex (hex (a % 16))) % 256 ≡ a
byte_of_digits a h =
    omega (arith, from_hex-hex (a / 16) (omega arith), from_hex-hex (a % 16) (omega arith))

unescape_from-digits :
    (str : CStr) (q a : ℕ) (p : CStr)
    → a < 256
    → unescape_from str q (b'%' ∷ hex (a / 16) ∷ hex (a % 16) ∷ p) ≡ a ∷ unescape_from str (q + 1) p
unfolding unescape_from
unescape_from-digits str q a p h = ap (λ t. t ∷ unescape_from str (q + 1) p) (byte_of_digits a h)

acceptable-ne-percent : (mask a : ℕ) → acceptable mask a ≡ true → (a == b'%') ≡ false
acceptable-ne-percent mask a h =
    ==_ne a b'%' (λ e. cc (h, ap (acceptable mask) e, not-acceptable-percent mask))

unescape_from-escape :
    (s : CStr) (mask : ℕ) (str : CStr) (q : ℕ)
    → All IsChar s
    → unescape_from str q (escape s mask) ≡ s
unfolding escape
unescape_from-escape [] mask str q h = unfold unescape_from in refl
unescape_from-escape (a ∷ s) mask str q h = elim (Bool-cases (acceptable mask a)) [
  | inl e ↦
      rw (e, unescape_from-copy str q a (escape s mask) (acceptable-ne-percent mask a e))
        (ap (λ t. a ∷ t) (unescape_from-escape s mask str (q + 1) h.1))
  | inr e ↦
      rw (e, unescape_from-digits str q a (escape s mask) h.0.1)
        (ap (λ t. a ∷ t) (unescape_from-escape s mask str (q + 1) h.1))
]

c_str-chars : (s : CStr) → All IsChar s → c_str s ≡ s
unfolding c_str
c_str-chars [] h = refl
c_str-chars (zero ∷ s) h = absurd (h.0.0 refl)
c_str-chars (suc c ∷ s) h = ap (λ t. suc c ∷ t) (c_str-chars s h.1)

-- HTUnEscape undoes HTEscape, for every mask and every string of bytes.
pub unescape-escape : (s : CStr) (mask : ℕ) → All IsChar s → unescape (escape s mask) ≡ s
unfolding unescape c_str
unescape-escape s mask h =
    ap c_str (unescape_from-escape s mask (escape s mask) 0 h) ∙ c_str-chars s h

-- The characters of an escaped string: acceptable ones, `%`, and the digits of a byte.
abbrev pub IsEscaped : ℕ → ℕ → Type 0
IsEscaped mask c = (acceptable mask c ≡ true) ⊎ ((c ≡ b'%') ⊎ ((d : ℕ) × (d < 16) × (c ≡ hex d)))

-- Whatever bytes it is given, HTEscape leaves acceptable characters, `%` and hexadecimal digits.
escape-All : (s : CStr) (mask : ℕ) → All (λ a. a < 256) s → All (IsEscaped mask) (escape s mask)
unfolding escape
escape-All [] mask h = tt
escape-All (a ∷ s) mask h = elim (Bool-cases (acceptable mask a)) [
  | inl e ↦ rw e (inl e, escape-All s mask h.1)
  | inr e ↦ rw e (
    inr (inl refl),
    (
      inr (inr (a / 16, omega arith, refl)),
      (inr (inr (a % 16, omega arith, refl)), escape-All s mask h.1),
    ),
  )
]
