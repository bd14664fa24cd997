-- ===== src/Uu/Encode.antt =====
-- A group of four characters gives its three bytes back.
use Prim.Native.Nat.{bit_or}
use cern_httpd.Base.{ℕ, ◌+◌, ◌*◌, ◌/◌, ◌%◌, ◌<◌, ◌≡◌, ap, ◌∙◌, [], ◌∷◌, arith}
use cern_httpd.Uu.{Bytes, enc, dec, char1, char2, char3, char4, group}
use cern_httpd.Uu.Bits.{dec-enc, or4, or16, or64, six_bits_2, six_bits_3, six_bits_4}

pub dec-char1 : (a : ℕ) → a < 256 → dec (char1 a) ≡ a / 4
unfolding char1
dec-char1 a h = dec-enc (a / 4) (omega arith)

pub dec-char2 : (a b : ℕ) → a < 256 → b < 256 → dec (char2 a b) ≡ a % 4 * 16 + b / 16
unfolding char2
dec-char2 a b ha hb =
    ap (λ v. dec (enc v)) (six_bits_2 a b ha hb) ∙ dec-enc (a % 4 * 16 + b / 16) (omega arith)

pub dec-char3 : (b c : ℕ) → b < 256 → c < 256 → dec (char3 b c) ≡ b % 16 * 4 + c / 64
unfolding char3
dec-char3 b c hb hc =
    ap (λ v. dec (enc v)) (six_bits_3 b c hb hc) ∙ dec-enc (b % 16 * 4 + c / 64) (omega arith)

pub dec-char4 : (c : ℕ) → c < 256 → dec (char4 c) ≡ c % 64
unfolding char4
dec-char4 c hc = ap (λ v. dec (enc v)) (six_bits_4 c hc) ∙ dec-enc (c % 64) (omega arith)

-- The three shifts, on six-bit values that are parts of bytes.
first_byte :
    (a b : ℕ) → a < 256 → b < 256 → bit_or (a / 4 * 4) ((a % 4 * 16 + b / 16) / 16) % 256 ≡ a
first_byte a b ha hb =
    let e : (a % 4 * 16 + b / 16) / 16 ≡ a % 4 = omega arith in
    rw (e, or4 (a / 4) (a % 4) (omega arith) (omega arith)) (omega arith)

second_byte :
    (a b c : ℕ)
    → a < 256
    → b < 256
    → c < 256
    → bit_or ((a % 4 * 16 + b / 16) * 16) ((b % 16 * 4 + c / 64) / 4) % 256 ≡ b
second_byte a b c ha hb hc =
    let e : (b % 16 * 4 + c / 64) / 4 ≡ b % 16 = omega arith in
    rw (e, or16 (a % 4 * 16 + b / 16) (b % 16) (omega arith) (omega arith)) (omega arith)

third_byte : (b c : ℕ) → b < 256 → c < 256 → bit_or ((b % 16 * 4 + c / 64) * 64) (c % 64) % 256 ≡ c
third_byte b c hb hc =
    rw (or64 (b % 16 * 4 + c / 64) (c % 64) (omega arith) (omega arith)) (omega arith)

pub group-three :
    (a b c : ℕ) (s : Bytes)
    → a < 256
    → b < 256
    → c < 256
    → group (char1 a ∷ char2 a b ∷ char3 b c ∷ char4 c ∷ s) ≡ a ∷ b ∷ c ∷ []
unfolding group
group-three a b c s ha hb hc =
    rw (dec-char1 a ha, dec-char2 a b ha hb, dec-char3 b c hb hc, dec-char4 c hc)
      (rw (first_byte a b ha hb, second_byte a b c ha hb hc, third_byte b c hb hc))

pub group-two :
    (a b : ℕ) (s : Bytes)
    → a < 256
    → b < 256
    → (x : ℕ) × (group (char1 a ∷ char2 a b ∷ char3 b 0 ∷ b'=' ∷ s) ≡ a ∷ b ∷ x ∷ [])
unfolding group
group-two a b s ha hb = (
  bit_or (dec (char3 b 0) * 64) (dec b'=') % 256,
  rw (dec-char1 a ha, dec-char2 a b ha hb, dec-char3 b 0 hb (omega arith))
      (rw (first_byte a b ha hb, second_byte a b 0 ha hb (omega arith))),
)

pub group-one :
    (a : ℕ) (s : Bytes)
    → a < 256
    → (x y : ℕ) × (group (char1 a ∷ char2 a 0 ∷ b'=' ∷ b'=' ∷ s) ≡ a ∷ x ∷ y ∷ [])
unfolding group
group-one a s ha = (
  bit_or (dec (char2 a 0) * 16) (dec b'=' / 4) % 256,
  bit_or (dec b'=' * 64) (dec b'=') % 256,
  rw (dec-char1 a ha, dec-char2 a 0 ha (omega arith)) (rw (first_byte a 0 ha (omega arith))),
)
