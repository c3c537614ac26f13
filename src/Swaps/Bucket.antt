-- ===== src/Swaps/Bucket.antt =====
-- src/adapters/uniswap_v3_adapter.rs: the key under which a route is cached.
pub mod Width
use liq_ranger.Base.{
  ℕ, ◌+◌, ◌-◌, ◌*◌, ◌/◌, ◌%◌, ◌^◌, ◌≤◌, ◌<◌, ltb, ◌==◌, if◌then◌else◌, ok, err, ◌>>=◌,
}
use liq_ranger.Base.Word.{Checked, u256_mod, overflow, as_u64}
use liq_ranger.Core.Identity.{Address}

-- `U256::bits` of the crate: how many bits a number has.
pub record Bits : Type 0 where
  pub bits : ℕ → ℕ
  pub bits-low : (n : ℕ) → 0 < n → n < u256_mod → 2 ^ (bits n - 1) ≤ n
  pub bits-high : (n : ℕ) → n < u256_mod → n < 2 ^ bits n

pub record CacheKey : Type 0 where
  pub src_token : Address
  pub dest_token : Address
  pub amount_bucket : ℕ

-- `U256::pow` panics where the result does not fit.
abbrev pow10 : ℕ → Checked ℕ
pow10 n = if ltb (10 ^ n) u256_mod then ok (10 ^ n) else err overflow

abbrev pub approx_magnitude : ℕ → ℕ
approx_magnitude bits = bits * 301 / 1000

most_significant : ℕ → ℕ → Checked ℕ
most_significant amount scaling_factor =
    if scaling_factor == 0
    then ok 0
    else do leading ← as_u64 (amount / scaling_factor); ok (leading % 10)

module _ (words : Bits) where
  open words use {bits}

  unfoldable pub amount_bucket : ℕ → Checked ℕ
  unfolding most_significant
  amount_bucket amount = if amount == 0 then ok 0 else do
    scaling_factor ← pow10 (approx_magnitude (bits amount) - 1)
    leading ← most_significant amount scaling_factor
    ok (approx_magnitude (bits amount) * 10 + leading)

  -- `CacheKey::new`
  unfoldable pub cache_key : (src_token dest_token : Address) → ℕ → Checked CacheKey
  unfolding amount_bucket
  cache_key src_token dest_token amount = do
    bucket ← amount_bucket amount
    ok (record { src_token = src_token; dest_token = dest_token; amount_bucket = bucket })
