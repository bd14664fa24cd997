-- ===== src/Base/Table.antt =====
-- Functions on the numbers below a bound, compared value by value.
use Prim.Native.Nat.{ℕ, zero, suc, ◌<◌}
use mathlib.Core.Path.{◌≡◌}
use mathlib.Core.Logic.{◌⊎◌, inl, inr}
use mathlib.Core.Bool.{Bool, true, ◌&&◌}
use native.Mathlib.Omega.{arith}
use cern_httpd.Base.Tests.{◌==◌, ==_iff, Bool-cases}

-- Do the functions agree on the numbers below the bound?
unfoldable pub agree : (ℕ → ℕ) → (ℕ → ℕ) → ℕ → Bool
agree f g zero = true
agree f g (suc bound) = f bound == g bound && agree f g bound

agree-last :
    (f g : ℕ → ℕ) (bound : ℕ)
    → agree f g (suc bound) ≡ true
    → (f bound ≡ g bound) × (agree f g bound ≡ true)
unfolding agree
agree-last f g bound h = elim (Bool-cases (f bound == g bound)) [
  | inl e ↦ ((==_iff (f bound) (g bound)).0 e, rw e at h)
  | inr e ↦ cc (rw e at h)
]

lt_or_eq : (x bound : ℕ) → x < suc bound → (x < bound) ⊎ (x ≡ bound)
lt_or_eq x bound h = omega arith

-- A value below the bound, read off a table.
pub from_table : (bound : ℕ) (f g : ℕ → ℕ) (x : ℕ) → agree f g bound ≡ true → x < bound → f x ≡ g x
from_table zero f g x h lt = absurd (omega arith)
from_table (suc bound) f g x h lt =
    let (here, below) = agree-last f g bound h in
    elim (lt_or_eq x bound lt) [ inl less ↦ from_table bound f g x below less | inr e ↦ rw e here ]
