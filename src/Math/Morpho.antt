-- ===== src/Math/Morpho.antt =====
-- src/adapters/helpers/morpho_math_helpers.rs: share and asset conversions of Morpho Blue.
pub mod Rounding
pub mod Shares
pub mod Incentive
use liq_ranger.Base.{ℕ, ◌+◌, ◌-◌, ◌*◌, ◌^◌, ltb, ◌==◌, if◌then◌else◌, ok, ◌>>=◌, ◌>>◌, or_fail}
use liq_ranger.Base.Word.{Checked, mul_overflow, div_by_zero, checked_mul, checked_div, add, sub}

-- constants.rs
abbrev pub wad : ℕ
wad = 10 ^ 18

abbrev pub virtual_assets : ℕ
virtual_assets = 1

abbrev pub virtual_shares : ℕ
virtual_shares = 1_000_000

abbrev pub max_liquidation_incentive_factor : ℕ
max_liquidation_incentive_factor = 115 * 10 ^ 16

abbrev pub oracle_price_scale : ℕ
oracle_price_scale = 10 ^ 36

abbrev pub liquidation_cursor : ℕ
liquidation_cursor = 3 * 10 ^ 17

unfoldable pub min : ℕ → ℕ → ℕ
min a b = if ltb a b then a else b

unfoldable pub max : ℕ → ℕ → ℕ
max a b = if ltb b a then a else b

unfoldable pub mul_div_down : ℕ → ℕ → ℕ → Checked ℕ
mul_div_down x y d = do
  n ← or_fail (checked_mul x y) mul_overflow
  or_fail (checked_div n d) div_by_zero

-- `n + d - 1`, the sum first.
unfoldable pub mul_div_up : ℕ → ℕ → ℕ → Checked ℕ
mul_div_up x y d = do
  n ← or_fail (checked_mul x y) mul_overflow
  if n == 0 then ok 0 else do s ← add n d; t ← sub s 1; or_fail (checked_div t d) div_by_zero

unfoldable pub wmul_down : ℕ → ℕ → Checked ℕ
unfolding mul_div_down
wmul_down x y = mul_div_down x y wad

unfoldable pub wdiv_down : ℕ → ℕ → Checked ℕ
unfolding mul_div_down
wdiv_down x y = mul_div_down x wad y

unfoldable pub wdiv_up : ℕ → ℕ → Checked ℕ
unfolding mul_div_up
wdiv_up x y = mul_div_up x wad y

unfoldable pub to_assets_down : ℕ → ℕ → ℕ → Checked ℕ
to_assets_down shares total_assets total_shares = do
  a ← add total_assets virtual_assets
  s ← add total_shares virtual_shares
  mul_div_down shares a s

unfoldable pub to_assets_up : ℕ → ℕ → ℕ → Checked ℕ
to_assets_up shares total_assets total_shares = do
  a ← add total_assets virtual_assets
  s ← add total_shares virtual_shares
  mul_div_up shares a s

unfoldable pub to_shares_down : ℕ → ℕ → ℕ → Checked ℕ
to_shares_down assets total_assets total_shares = do
  s ← add total_shares virtual_shares
  a ← add total_assets virtual_assets
  mul_div_down assets s a

unfoldable pub to_shares_up : ℕ → ℕ → ℕ → Checked ℕ
to_shares_up assets total_assets total_shares = do
  s ← add total_shares virtual_shares
  a ← add total_assets virtual_assets
  mul_div_up assets s a

unfoldable pub incentive_factor : ℕ → Checked ℕ
incentive_factor lltv = do
  gap ← sub wad lltv
  cut ← wmul_down liquidation_cursor gap
  base ← sub wad cut
  factor ← wdiv_down wad base
  ok (min max_liquidation_incentive_factor factor)

unfoldable pub seized_assets_from_repaid_shares : ℕ → ℕ → ℕ → ℕ → ℕ → ℕ → Checked ℕ
seized_assets_from_repaid_shares repaid_shares total_assets total_shares lltv scale price = do
  repaid_assets ← to_assets_down repaid_shares total_assets total_shares
  lif ← incentive_factor lltv
  bonus ← wmul_down repaid_assets lif
  mul_div_down bonus scale price

unfoldable pub repaid_assets_from_repaid_shares : ℕ → ℕ → ℕ → Checked ℕ
repaid_assets_from_repaid_shares repaid_shares total_assets total_shares =
    to_assets_up repaid_shares total_assets total_shares

unfoldable pub repaid_assets_from_seized_collateral : ℕ → ℕ → ℕ → ℕ → ℕ → ℕ → Checked ℕ
repaid_assets_from_seized_collateral seized total_assets total_shares lltv scale price = do
  quoted ← mul_div_up seized price scale
  lif ← incentive_factor lltv
  assets ← wdiv_up quoted lif
  repaid_shares ← to_shares_up assets total_assets total_shares
  to_assets_up repaid_shares total_assets total_shares
