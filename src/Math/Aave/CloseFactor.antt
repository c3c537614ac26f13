-- ===== src/Math/Aave/CloseFactor.antt =====
-- src/adapters/helpers/aave_math_helpers.rs: the amounts of an Aave liquidation.
use native.Mathlib.Nat.{div-mul-le_self, lt-div-mul-add}
use liq_ranger.Base.{
  ℕ, ◌+◌, ◌*◌, ◌/◌, ◌^◌, ◌≤◌, ◌<◌, ◌≡◌, ltb, if◌then◌else◌, ok, some, arith, Option,
}
use liq_ranger.Base.Word.{u256_mod}
use liq_ranger.Math.Aave.{
  bps, Power, close_factor_bps, apply_close_factor, compute_debt_to_cover, liquidation_bonus_bps,
  estimate_seizable_collateral_amount,
}

-- Below a health factor of 0.95 the whole debt is repaid, and otherwise half of it, rounded down,
-- for every debt whose product with 10000 fits in a word.
pub compute_debt_to_cover_lem :
    (debt health_factor : ℕ)
    → debt * bps < u256_mod
    → compute_debt_to_cover (some debt) health_factor
      ≡ ok (if ltb health_factor (95 * 10 ^ 16) then debt else debt / 2)
unfolding compute_debt_to_cover apply_close_factor close_factor_bps
compute_debt_to_cover_lem debt hf h = ground arith

-- A bonus that is read is the field of the configuration, and it is between 100% and 200%.
pub liquidation_bonus_bps-eq-ok :
    (config : Option ℕ) (bonus : ℕ)
    → liquidation_bonus_bps config ≡ ok bonus
    → (10_000 ≤ bonus) × (bonus ≤ 20_000)
unfolding liquidation_bonus_bps
liquidation_bonus_bps-eq-ok config bonus e = ground arith

quotient_brackets : (n d q : ℕ) → 0 < d → n / d ≡ q → (q * d ≤ n) × (n < q * d + d)
quotient_brackets n d q h e = grind (arith, div-mul-le_self n d, lt-div-mul-add {a = n} {b = d})

-- The amount that an estimate returns is the quotient, rounded down, of the exact products, for
-- tokens of at most 77 decimals.
pub estimate_seizable_collateral_amount-eq-ok :
    (power : Power) (d cp dp cd dd bonus q : ℕ)
    → cd ≤ 77
    → dd ≤ 77
    → estimate_seizable_collateral_amount power d cp dp cd dd bonus ≡ ok q
    → (q * (cp * bps * 10 ^ dd) ≤ d * dp * 10 ^ cd * bonus)
      × (d * dp * 10 ^ cd * bonus < q * (cp * bps * 10 ^ dd) + cp * bps * 10 ^ dd)
unfolding estimate_seizable_collateral_amount
estimate_seizable_collateral_amount-eq-ok power d cp dp cd dd bonus q h k e =
    let f = rw (power.exp10-eq cd h, power.exp10-eq dd k) at e in
    quotient_brackets (d * dp * 10 ^ cd * bonus) (cp * bps * 10 ^ dd) q (ground (arith, f))
      (ground (arith, f))
