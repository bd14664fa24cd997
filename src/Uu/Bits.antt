-- ===== src/Uu/Bits.antt =====
-- The shifts and masks of HTUU.c as arithmetic, checked value by value.
use Prim.Native.Nat.{bit_and, bit_or}
use cern_httpd.Base.{ℕ, ◌+◌, ◌*◌, ◌/◌, ◌%◌, ◌<◌, ◌≡◌, refl, true, arith}
use cern_httpd.Base.Table.{agree, from_table}
use cern_httpd.Uu.{enc, dec}

and48_table : agree (λ a. bit_and (a * 16) 48) (λ a. a % 4 * 16) 256 ≡ true
unfolding agree
and48_table = refl

and15_table : agree (λ t. bit_and t 15) (λ t. t) 16 ≡ true
unfolding agree
and15_table = refl

or16_table : agree (λ n. bit_or (n / 16 * 16) (n % 16)) (λ n. n) 1024 ≡ true
unfolding agree
or16_table = refl

or4_table : agree (λ n. bit_or (n / 4 * 4) (n % 4)) (λ n. n) 256 ≡ true
unfolding agree
or4_table = refl

or64_table : agree (λ n. bit_or (n / 64 * 64) (n % 64)) (λ n. n) 4096 ≡ true
unfolding agree
or64_table = refl

dec-enc_table : agree (λ v. dec (enc v)) (λ v. v) 64 ≡ true
unfolding agree dec enc
dec-enc_table = refl

and60_table : agree (λ b. bit_and (b * 4) 60) (λ b. b % 16 * 4) 256 ≡ true
unfolding agree
and60_table = refl

and3_table : agree (λ t. bit_and t 3) (λ t. t) 4 ≡ true
unfolding agree
and3_table = refl

and63_table : agree (λ c. bit_and c 63) (λ c. c % 64) 256 ≡ true
unfolding agree
and63_table = refl

pub dec-enc : (v : ℕ) → v < 64 → dec (enc v) ≡ v
dec-enc v h = from_table 64 (λ v. dec (enc v)) (λ v. v) v dec-enc_table h

pub or16 : (h t : ℕ) → h < 64 → t < 16 → bit_or (h * 16) t ≡ h * 16 + t
or16 h t hh ht =
    let x =
      from_table 1024 (λ n. bit_or (n / 16 * 16) (n % 16)) (λ n. n) (h * 16 + t) or16_table
        (omega arith) in
    let q : (h * 16 + t) / 16 ≡ h = omega arith in
    let r : (h * 16 + t) % 16 ≡ t = omega arith in rw (q, r) at x

pub or4 : (h t : ℕ) → h < 64 → t < 4 → bit_or (h * 4) t ≡ h * 4 + t
or4 h t hh ht =
    let x =
      from_table 256 (λ n. bit_or (n / 4 * 4) (n % 4)) (λ n. n) (h * 4 + t) or4_table
        (omega arith) in
    let q : (h * 4 + t) / 4 ≡ h = omega arith in
    let r : (h * 4 + t) % 4 ≡ t = omega arith in rw (q, r) at x

pub or64 : (h t : ℕ) → h < 64 → t < 64 → bit_or (h * 64) t ≡ h * 64 + t
or64 h t hh ht =
    let x =
      from_table 4096 (λ n. bit_or (n / 64 * 64) (n % 64)) (λ n. n) (h * 64 + t) or64_table
        (omega arith) in
    let q : (h * 64 + t) / 64 ≡ h = omega arith in
    let r : (h * 64 + t) % 64 ≡ t = omega arith in rw (q, r) at x

pub six_bits_2 :
    (a b : ℕ)
    → a < 256
    → b < 256
    → bit_or (bit_and (a * 16) 48) (bit_and (b / 16) 15) ≡ a % 4 * 16 + b / 16
six_bits_2 a b ha hb =
    rw
      (
        from_table 256 (λ a. bit_and (a * 16) 48) (λ a. a % 4 * 16) a and48_table ha,
        from_table 16 (λ t. bit_and t 15) (λ t. t) (b / 16) and15_table (omega arith),
      )
      (or16 (a % 4) (b / 16) (omega arith) (omega arith))

pub six_bits_3 :
    (b c : ℕ)
    → b < 256
    → c < 256
    → bit_or (bit_and (b * 4) 60) (bit_and (c / 64) 3) ≡ b % 16 * 4 + c / 64
six_bits_3 b c hb hc =
    rw
      (
        from_table 256 (λ b. bit_and (b * 4) 60) (λ b. b % 16 * 4) b and60_table hb,
        from_table 4 (λ t. bit_and t 3) (λ t. t) (c / 64) and3_table (omega arith),
      )
      (or4 (b % 16) (c / 64) (omega arith) (omega arith))

pub six_bits_4 : (c : ℕ) → c < 256 → bit_and c 63 ≡ c % 64
six_bits_4 c hc = from_table 256 (λ c. bit_and c 63) (λ c. c % 64) c and63_table hc
