-- ===== src/Math/Morpho/Rounding.antt =====
-- src/adapters/helpers/morpho_math_helpers.rs: the two rounded quotients.
use native.Mathlib.Nat.{div-mul-le_self, lt-div-mul-add}
use liq_ranger.Base.{ℕ, ◌+◌, ◌-◌, ◌*◌, ◌/◌, ◌≤◌, ◌<◌, ◌≡◌, ok, arith, ◌⊎◌, ◌↔◌}
use liq_ranger.Base.Word.{u256_mod}
use liq_ranger.Math.Morpho.{mul_div_down, mul_div_up}

-- The quotient is the one number whose multiple brackets the dividend.
pub div_unique : (n d q : ℕ) → q * d ≤ n → n < q * d + d → n / d ≡ q
div_unique n d q lo hi = grind (arith, div-mul-le_self n d, lt-div-mul-add {a = n} {b = d})

-- The product over the divisor, rounded down, comes back exactly when the product fits in a word and
-- the divisor is not zero.
pub mul_div_down-eq-ok :
    (x y d q : ℕ)
    → (mul_div_down x y d ≡ ok q) ↔ ((x * y < u256_mod) × (q * d ≤ x * y) × (x * y < q * d + d))
unfolding mul_div_down
mul_div_down-eq-ok x y d q = (
  λ e. ground (arith, div-mul-le_self (x * y) d, lt-div-mul-add {a = x * y} {b = d}),
  λ h. ground (arith, div_unique (x * y) d q),
)

-- Rounded up, it is zero for a product of zero, whatever the divisor, and comes back otherwise
-- exactly when the sum of product and divisor fits in a word and the divisor is not zero.
pub mul_div_up-eq-ok :
    (x y d q : ℕ)
    → (mul_div_up x y d ≡ ok q) ↔ (
        (x * y < u256_mod)
        × (((x * y ≡ 0) × (q ≡ 0))
            ⊎ ((0 < x * y) × (x * y + d < u256_mod) × (x * y ≤ q * d) × (q * d < x * y + d))))
unfolding mul_div_up
mul_div_up-eq-ok x y d q = (
  λ e.
      ground (arith, div-mul-le_self (x * y + d - 1) d, lt-div-mul-add {a = x * y + d - 1} {b = d}),
  λ h. ground (arith, div_unique (x * y + d - 1) d q),
)
