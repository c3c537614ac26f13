-- ===== src/Math/Morpho/Shares.antt =====
-- src/adapters/helpers/morpho_math_helpers.rs: conversions between shares and assets.
use native.Mathlib.Nat.{lt_of_mul-lt-mul_right, mul-le-mul}
use liq_ranger.Base.{
  ◌/◌, ◌-◌, ◌==◌, Bool-cases, ◌^◌, ℕ, ◌+◌, ◌*◌, ◌≤◌, ◌<◌, ◌≡◌, inl, inr, ok, arith,
}
use liq_ranger.Base.Word.{u256_mod}
use liq_ranger.Math.Morpho.{
  mul_div_down, mul_div_up, to_assets_down, to_assets_up, to_shares_down, to_shares_up,
  virtual_assets, virtual_shares,
}
use liq_ranger.Math.Morpho.Rounding.{mul_div_down-eq-ok, mul_div_up-eq-ok}

-- The conversions with their totals put in.
pub to_assets_down-eq-ok :
    (s ta ts q : ℕ)
    → to_assets_down s ta ts ≡ ok q
    → mul_div_down s (ta + virtual_assets) (ts + virtual_shares) ≡ ok q
unfolding to_assets_down
to_assets_down-eq-ok s ta ts q e = ground arith

pub to_assets_up-eq-ok :
    (s ta ts q : ℕ)
    → to_assets_up s ta ts ≡ ok q
    → mul_div_up s (ta + virtual_assets) (ts + virtual_shares) ≡ ok q
unfolding to_assets_up
to_assets_up-eq-ok s ta ts q e = ground arith

pub to_shares_down-eq-ok :
    (s ta ts q : ℕ)
    → to_shares_down s ta ts ≡ ok q
    → mul_div_down s (ts + virtual_shares) (ta + virtual_assets) ≡ ok q
unfolding to_shares_down
to_shares_down-eq-ok s ta ts q e = ground arith

pub to_shares_up-eq-ok :
    (s ta ts q : ℕ)
    → to_shares_up s ta ts ≡ ok q
    → mul_div_up s (ts + virtual_shares) (ta + virtual_assets) ≡ ok q
unfolding to_shares_up
to_shares_up-eq-ok s ta ts q e = ground arith

gap_le : (n d p q : ℕ) → n < p * d + d → q * d < n + d → q ≤ p + 1
gap_le n d p q h k = omega (arith, lt_of_mul-lt-mul_right d {m = q} {n = p + 2} (omega arith))

gap_ge : (n d p q : ℕ) → p * d ≤ n → n < p * d + d → n ≤ q * d → p ≤ q
gap_ge n d p q h l k = grind arith

up_down_gap :
    (x y d p q : ℕ) → mul_div_down x y d ≡ ok p → mul_div_up x y d ≡ ok q → (p ≤ q) × (q ≤ p + 1)
up_down_gap x y d p q e f = ground (
  arith,
  (mul_div_down-eq-ok x y d p).0 e,
  (mul_div_up-eq-ok x y d q).0 f,
  gap_le (x * y) d p q,
  gap_ge (x * y) d p q,
)

-- Whenever both roundings of a share amount return, the upper one is the lower one or one more.
pub to_assets_up-to_assets_down :
    (shares total_assets total_shares p q : ℕ)
    → to_assets_down shares total_assets total_shares ≡ ok p
    → to_assets_up shares total_assets total_shares ≡ ok q
    → (p ≤ q) × (q ≤ p + 1)
to_assets_up-to_assets_down s ta ts p q e f =
    up_down_gap _ _ _ p q (to_assets_down-eq-ok s ta ts p e) (to_assets_up-eq-ok s ta ts q f)

down_down : (s a d p q : ℕ) → 0 < a → p * d ≤ s * a → q * a ≤ p * d → q ≤ s
down_down s a d p q h lo hi = grind arith

-- Shares turned into assets and back, both rounded down, are never more than at the start.
pub to_shares_down-to_assets_down :
    (shares total_assets total_shares p q : ℕ)
    → to_assets_down shares total_assets total_shares ≡ ok p
    → to_shares_down p total_assets total_shares ≡ ok q
    → q ≤ shares
to_shares_down-to_assets_down s ta ts p q e f =
    down_down s (ta + 1) (ts + virtual_shares) p q (omega arith)
      ((mul_div_down-eq-ok _ _ _ _).0 (to_assets_down-eq-ok s ta ts p e)).1
      ((mul_div_down-eq-ok _ _ _ _).0 (to_shares_down-eq-ok p ta ts q f)).1

up_le : (x y d q : ℕ) → mul_div_up x y d ≡ ok q → x * y ≤ q * d
up_le x y d q e = ground (arith, (mul_div_up-eq-ok x y d q).0 e)

up_up : (s a d p q : ℕ) → 0 < a → s * a ≤ p * d → p * d ≤ q * a → s ≤ q
up_up s a d p q h lo hi = grind arith

-- Rounded up both times, they are never fewer.
pub to_shares_up-to_assets_up :
    (shares total_assets total_shares p q : ℕ)
    → to_assets_up shares total_assets total_shares ≡ ok p
    → to_shares_up p total_assets total_shares ≡ ok q
    → shares ≤ q
to_shares_up-to_assets_up s ta ts p q e f =
    up_up s (ta + 1) (ts + virtual_shares) p q (omega arith)
      (up_le _ _ _ p (to_assets_up-eq-ok s ta ts p e))
      (up_le _ _ _ q (to_shares_up-eq-ok p ta ts q f))

mul_div_up_total : (x y d : ℕ) → 0 < d → x * y + d < u256_mod → (q : ℕ) × (mul_div_up x y d ≡ ok q)
unfolding mul_div_up
mul_div_up_total x y d h f = elim (Bool-cases (x * y == 0)) [
  | inl e ↦ (0, ground arith)
  | inr e ↦ ((x * y + d - 1) / d, ground arith)
]

-- Conversions of amounts that fit in 127 bits never panic.
pub to_assets_up_total :
    (s ta ts : ℕ)
    → s < 2 ^ 127
    → ta < 2 ^ 127
    → ts < 2 ^ 127
    → (q : ℕ) × (to_assets_up s ta ts ≡ ok q)
unfolding to_assets_up
to_assets_up_total s ta ts a b c =
    let p : s * (ta + 1) ≤ 2 ^ 127 * 2 ^ 127 =
      mul-le-mul {n₂ = 2 ^ 127} {m₂ = 2 ^ 127} (omega arith) (omega arith) in
    let r = mul_div_up_total s (ta + 1) (ts + virtual_shares) (omega arith) (omega arith) in
    (r.0, ground (arith, r.1))

mul_div_down_total : (x y d : ℕ) → 0 < d → x * y < u256_mod → (q : ℕ) × (mul_div_down x y d ≡ ok q)
unfolding mul_div_down
mul_div_down_total x y d h f = (x * y / d, ground arith)

pub to_assets_down_total :
    (s ta ts : ℕ)
    → s < 2 ^ 127
    → ta < 2 ^ 127
    → ts < 2 ^ 127
    → (q : ℕ) × (to_assets_down s ta ts ≡ ok q)
unfolding to_assets_down
to_assets_down_total s ta ts a b c =
    let p : s * (ta + 1) ≤ 2 ^ 127 * 2 ^ 127 =
      mul-le-mul {n₂ = 2 ^ 127} {m₂ = 2 ^ 127} (omega arith) (omega arith) in
    let r = mul_div_down_total s (ta + 1) (ts + virtual_shares) (omega arith) (omega arith) in
    (r.0, ground (arith, r.1))
