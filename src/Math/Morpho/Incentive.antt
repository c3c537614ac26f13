-- ===== src/Math/Morpho/Incentive.antt =====
-- src/adapters/helpers/morpho_math_helpers.rs: the liquidation incentive factor.
use native.Mathlib.Nat.{le-div_iff_mul-le, mul-le-mul_left, div-mul-le_self, le_trans}
use liq_ranger.Base.{ℕ, ◌-◌, ◌*◌, ◌/◌, ◌^◌, ◌≤◌, ◌<◌, ◌≡◌, refl, ok, err, arith}
use liq_ranger.Base.Word.{underflow}
use liq_ranger.Math.Morpho.{incentive_factor, min, wmul_down, wdiv_down, wad}

-- Collateral per unit of debt, in wads: 1 / (1 - 0.3 * (1 - lltv)), at most 1.15.
abbrev raw_factor : ℕ → ℕ
raw_factor lltv = wad * wad / (wad - 3 * 10 ^ 17 * (wad - lltv) / wad)

incentive_factor-eq :
    (lltv : ℕ) → lltv ≤ wad → incentive_factor lltv ≡ ok (min (115 * 10 ^ 16) (raw_factor lltv))
unfolding incentive_factor wmul_down wdiv_down
incentive_factor-eq lltv h = ground arith

incentive_factor_above : (lltv : ℕ) → wad < lltv → incentive_factor lltv ≡ err underflow
unfolding incentive_factor
incentive_factor_above lltv h = ground arith

-- A quotient falls as its divisor grows.
pub div_antitone : (n d e : ℕ) → 0 < d → d ≤ e → n / e ≤ n / d
div_antitone n d e h k =
    (le-div_iff_mul-le h).1 (le_trans (mul-le-mul_left (n / e) k) (div-mul-le_self n e))

net : ℕ → ℕ
net lltv = wad - 3 * 10 ^ 17 * (wad - lltv) / wad

net_bounds : (lltv : ℕ) → (0 < net lltv) × (net lltv ≤ wad)
unfolding net
net_bounds lltv = omega arith

net_mono : (l m : ℕ) → l ≤ m → net l ≤ net m
unfolding net
net_mono l m h = omega arith

raw_factor-net : (l : ℕ) → raw_factor l ≡ wad * wad / net l
unfolding net
raw_factor-net l = refl

wad-le-raw_factor : (lltv : ℕ) → wad ≤ raw_factor lltv
wad-le-raw_factor l =
    rw (raw_factor-net l) ((le-div_iff_mul-le (net_bounds l).0).1 (omega (arith, net_bounds l)))

raw_factor_antitone : (l m : ℕ) → l ≤ m → raw_factor m ≤ raw_factor l
raw_factor_antitone l m h =
    rw (raw_factor-net l, raw_factor-net m)
      (div_antitone (wad * wad) (net l) (net m) (net_bounds l).0 (net_mono l m h))

-- For a loan-to-value of at most one wad the factor is between 1 and 1.15 wads, and above one wad
-- the computation panics.
pub incentive_factor_bounds :
    (lltv : ℕ)
    → (lltv ≤ wad → (f : ℕ) × (incentive_factor lltv ≡ ok f) × (wad ≤ f) × (f ≤ 115 * 10 ^ 16))
      × (wad < lltv → incentive_factor lltv ≡ err underflow)
unfolding min
incentive_factor_bounds lltv = (
  λ h. (
    min (115 * 10 ^ 16) (raw_factor lltv),
    incentive_factor-eq lltv h,
    ground (arith, wad-le-raw_factor lltv),
    ground arith,
  ),
  incentive_factor_above lltv,
)

min_antitone : (c a b : ℕ) → b ≤ a → min c b ≤ min c a
unfolding min
min_antitone c a b h = ground arith

le-wad_of_ok : (l f : ℕ) → incentive_factor l ≡ ok f → l ≤ wad
le-wad_of_ok l f e = ground (arith, incentive_factor_above l)

-- A market with a lower loan-to-value pays at least as high an incentive.
pub incentive_factor_antitone :
    (l m f g : ℕ) → l ≤ m → incentive_factor l ≡ ok f → incentive_factor m ≡ ok g → g ≤ f
incentive_factor_antitone l m f g h e k = ground (
  arith,
  le-wad_of_ok m g k,
  incentive_factor-eq l,
  incentive_factor-eq m,
  min_antitone (115 * 10 ^ 16) (raw_factor l) (raw_factor m) (raw_factor_antitone l m h),
)
