-- ===== src/Base/Int.antt =====
-- Signed integers over the native numbers, under the library's names, and Python's rounding of a
-- quotient. Nothing here models code.
use Prim.Native.Nat.{ℕ, suc, ◌+◌, ◌*◌, ◌/◌, ◌%◌}
use mathlib.Core.Path.{◌≡◌, refl}
use mathlib.Core.Bool.{Bool, true, false}
use native.Mathlib.Omega.{arith}
use spaceport.Base.Tests.{ltb, ◌==◌, if◌then◌else◌}

-- `negsuc n` is -(n + 1).
pub data ℤ : Type 0 where
  pos : ℕ → ℤ
  negsuc : ℕ → ℤ

-- A number with a sign, where zero has only one form.
abbrev pub signed : Bool → ℕ → ℤ
signed false n = pos n
signed true ℕ.zero = pos 0
signed true (suc n) = negsuc n

abbrev pub abs : ℤ → ℕ
abs (pos n) = n
abs (negsuc n) = suc n

-- `0 < z`
abbrev pub is_positive : ℤ → Bool
is_positive (pos n) = ltb 0 n
is_positive (negsuc n) = false

abbrev pub is_zero : ℤ → Bool
is_zero (pos n) = n == 0
is_zero (negsuc n) = false

-- Python's `round(a / b)` for whole numbers: to the nearest, and halves to the even neighbour.
unfoldable pub round_div : ℕ → ℕ → ℕ
round_div a b =
    if ltb (2 * (a % b)) b
    then a / b
    else if ltb b (2 * (a % b))
    then a / b + 1
    else a / b + a / b % 2

pub round_div_millis : (s : ℕ) → round_div (1000 * s) 1000 ≡ s
unfolding round_div
round_div_millis s = ground arith

round_div_runs : round_div 2500 1000 ≡ 2
unfolding round_div
round_div_runs = refl
