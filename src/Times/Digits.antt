-- ===== src/Times/Digits.antt =====
-- The numbers and the months of a date, in HTSUtils.c.
use mathlib.Core.Path.{subst}
use cern_httpd.Base.{
  ℕ, zero, suc, ◌+◌, ◌*◌, ◌/◌, ◌%◌, ◌≤◌, ◌<◌, ◌≡◌, refl, ap, ◌∙◌, arith, false, List, [], ◌∷◌, ltb,
  ◌==◌, Bool-cases, inl, inr, All,
}
use cern_httpd.Base.Int.{pos}
use cern_httpd.Str.{CStr}
use cern_httpd.Times.{month_names, make_num, make_month}
use cern_httpd.Times.Print.{two, padded, letter, month}

make_num-digits :
    (a b : ℕ) (rest : CStr)
    → a < 10
    → b < 10
    → make_num ((48 + a) ∷ (48 + b) ∷ rest) ≡ pos (10 * a + b)
unfolding make_num
make_num-digits a b rest ha hb = ground arith

pub make_num-two : (n : ℕ) (rest : CStr) → n < 100 → make_num (two n rest) ≡ pos n
make_num-two n rest h =
    make_num-digits (n / 10) (n % 10) rest (omega arith) (omega arith) ∙ ap pos (omega arith)

make_num-blank : (b : ℕ) (rest : CStr) → b < 10 → make_num (32 ∷ (48 + b) ∷ rest) ≡ pos b
unfolding make_num
make_num-blank b rest hb = ground arith

pub make_num-padded : (n : ℕ) (rest : CStr) → n < 100 → make_num (padded n rest) ≡ pos n
make_num-padded n rest h = elim (Bool-cases (ltb n 10)) [
  | inl e ↦ rw e (make_num-blank (n % 10) rest (omega arith) ∙ ap pos (ground arith))
  | inr e ↦ rw e (make_num-two n rest h)
]

abbrev range : ℕ → ℕ → List ℕ
range i zero = []
range i (suc k) = i ∷ range (suc i) k

All-range : (P : ℕ → Type 0) (i k n : ℕ) → All P (range i k) → i ≤ n → n < i + k → P n
All-range P i zero n h le lt = absurd (omega arith)
All-range P i (suc k) n h le lt = elim (Bool-cases (i == n)) [
  | inl e ↦ subst P (ground arith) h.0
  | inr e ↦ All-range P (suc i) k n h.1 (ground arith) (omega arith)
]

-- What holds of every month.
each_month : (P : ℕ → Type 0) → All P (range 0 12) → (mon : ℕ) → mon ≤ 11 → P mon
each_month P h mon le = All-range P 0 12 mon h (omega arith) (omega arith)

pub make_month-month : (mon : ℕ) (rest : CStr) → mon ≤ 11 → make_month (month mon rest) ≡ mon
unfolding make_month
make_month-month mon rest le =
    each_month (λ m. make_month (month m rest) ≡ m)
      (
        refl,
        (refl, (refl, (refl, (refl, (refl, (refl, (refl, (refl, (refl, (refl, (refl, tt))))))))))),
      )
      mon le

-- A character that is no digit, and no letter of a month.
abbrev pub IsMark : ℕ → Type 0
IsMark x =
    ((a : ℕ) → a < 10 → ((48 + a) == x) ≡ false)
    × ((mon : ℕ)
        → mon ≤ 11
        → ((letter mon 0 == x) ≡ false)
          × ((letter mon 1 == x) ≡ false)
          × ((letter mon 2 == x) ≡ false))

pub minus-IsMark : IsMark b'-'
unfolding month_names
minus-IsMark = (
  (λ a lt. ground arith),
  each_month
      (λ m.
        ((letter m 0 == b'-') ≡ false)
        × ((letter m 1 == b'-') ≡ false)
        × ((letter m 2 == b'-') ≡ false))
      (
        (refl, refl, refl),
        (
          (refl, refl, refl),
          (
            (refl, refl, refl),
            (
              (refl, refl, refl),
              (
                (refl, refl, refl),
                (
                  (refl, refl, refl),
                  (
                    (refl, refl, refl),
                    (
                      (refl, refl, refl),
                      (
                        (refl, refl, refl),
                        ((refl, refl, refl), ((refl, refl, refl), ((refl, refl, refl), tt))),
                      ),
                    ),
                  ),
                ),
              ),
            ),
          ),
        ),
      ),
)

pub comma-IsMark : IsMark b','
unfolding month_names
comma-IsMark = (
  (λ a lt. ground arith),
  each_month
      (λ m.
        ((letter m 0 == b',') ≡ false)
        × ((letter m 1 == b',') ≡ false)
        × ((letter m 2 == b',') ≡ false))
      (
        (refl, refl, refl),
        (
          (refl, refl, refl),
          (
            (refl, refl, refl),
            (
              (refl, refl, refl),
              (
                (refl, refl, refl),
                (
                  (refl, refl, refl),
                  (
                    (refl, refl, refl),
                    (
                      (refl, refl, refl),
                      (
                        (refl, refl, refl),
                        ((refl, refl, refl), ((refl, refl, refl), ((refl, refl, refl), tt))),
                      ),
                    ),
                  ),
                ),
              ),
            ),
          ),
        ),
      ),
)

-- The pieces of a date without such a character.
abbrev pub Lacks : ℕ → CStr → Type 0
Lacks x = All (λ c. (c == x) ≡ false)

pub two-Lacks : (x n : ℕ) (rest : CStr) → IsMark x → n < 100 → Lacks x rest → Lacks x (two n rest)
two-Lacks x n rest h lt t = (h.0 (n / 10) (omega arith), (h.0 (n % 10) (omega arith), t))

pub month-Lacks :
    (x mon : ℕ) (rest : CStr) → IsMark x → mon ≤ 11 → Lacks x rest → Lacks x (month mon rest)
month-Lacks x mon rest h le t = let l = h.1 mon le in (l.0, (l.1, (l.2, t)))
