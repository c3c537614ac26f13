-- ===== src/Base/Word.antt =====
-- The 256-bit unsigned integer `U256`: a number below `2 ^ 256`. Its operators panic where the
-- result does not fit; `checked_mul` and `checked_div` return `None` there.
use Prim.Native.Nat.{ℕ, ◌+◌, ◌-◌, ◌*◌, ◌/◌, ◌^◌}
use mathlib.Core.Option.{Option, none, some}
use liq_ranger.Base.Tests.{ltb, leb, ◌==◌, if◌then◌else◌}
use liq_ranger.Base.Results.{Result, ok, err}

abbrev pub u256_mod : ℕ
u256_mod = 2 ^ 256

abbrev pub u128_mod : ℕ
u128_mod = 2 ^ 128

pub data Panic : Type 0 where
  overflow underflow mul_overflow div_by_zero index_out_of_bounds assertion_failed : Panic

abbrev pub Checked {ℓ} : Type ℓ → Type ℓ
Checked A = Result Panic A

abbrev pub checked_mul : ℕ → ℕ → Option ℕ
checked_mul a b = if ltb (a * b) u256_mod then some (a * b) else none

abbrev pub checked_div : ℕ → ℕ → Option ℕ
checked_div a b = if b == 0 then none else some (a / b)

abbrev pub saturating_sub : ℕ → ℕ → ℕ
saturating_sub a b = a - b

abbrev pub mul : ℕ → ℕ → Checked ℕ
mul a b = if ltb (a * b) u256_mod then ok (a * b) else err overflow

abbrev pub add : ℕ → ℕ → Checked ℕ
add a b = if ltb (a + b) u256_mod then ok (a + b) else err overflow

abbrev pub sub : ℕ → ℕ → Checked ℕ
sub a b = if leb b a then ok (a - b) else err underflow

abbrev pub div : ℕ → ℕ → Checked ℕ
div a b = if b == 0 then err div_by_zero else ok (a / b)

-- `as_u64` panics where the number does not fit.
abbrev pub as_u64 : ℕ → Checked ℕ
as_u64 n = if ltb n (2 ^ 64) then ok n else err overflow
