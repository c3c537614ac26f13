-- ===== src/Swaps/Uniswap.antt =====
-- src/adapters/uniswap_v3_adapter.rs: the route of a swap, its cache, and the quote.
pub mod Quotes
use liq_ranger.Base.{
  ℕ, ◌-◌, ◌==◌, if◌then◌else◌, Option, none, some, List, Result, ok, err, ◌>>=◌, ◌≡◌, ◌⊎◌,
}
use liq_ranger.Swaps.Batch.{
  RouteTopology, single_hop, multi_hop, Quoter, find_best_route_multicall, requote,
}
use liq_ranger.Base.Word.{Checked, mul, div}
use liq_ranger.Core.Identity.{Address}
use liq_ranger.Core.Types.{MarketQuote}
use liq_ranger.Swaps.Bucket.{Bits, CacheKey, cache_key}

-- The router's encoding of the two calls.
pub record Router : Type 0 where
  pub address : Address
  pub exact_input_single :
      (token_in token_out fee amount_in amount_out_minimum : ℕ) → Option (List ℕ)
  pub exact_input : (path : List ℕ) (amount_in amount_out_minimum : ℕ) → Option (List ℕ)

-- The cache of the crate moka: it may drop an entry at any time, and never makes one up.
pub record RouteCache : Type 1 where
  pub Store : Type 0
  pub get : Store → CacheKey → Option RouteTopology
  pub insert : Store → CacheKey → RouteTopology → Store
  pub invalidate : Store → CacheKey → Store
  pub get-insert :
      (s : Store) (k j : CacheKey) (t u : RouteTopology)
      → get (insert s k t) j ≡ some u
      → ((j ≡ k) × (u ≡ t)) ⊎ (get s j ≡ some u)
  pub get-invalidate :
      (s : Store) (k j : CacheKey) (u : RouteTopology)
      → get (invalidate s k) j ≡ some u
      → get s j ≡ some u

abbrev pub slippage_bps : ℕ
slippage_bps = 50

unfoldable pub calculate_min_amount_out : (expected_out slippage : ℕ) → Checked ℕ
calculate_min_amount_out expected_out slippage = do
  scaled ← mul expected_out (10_000 - slippage)
  div scaled 10_000

pub data QuoteError : Type 0 where
  no_liquidity encoding_failed : QuoteError

module _ (words : Bits) (cache : RouteCache) (quoter : Quoter) where
  open cache use {Store, get, insert, invalidate}

  abbrev pub Routed : Type 0
  Routed = Checked ((ℕ × RouteTopology) × Store)

  abbrev remember : Store → CacheKey → ℕ × RouteTopology → (ℕ × RouteTopology) × Store
  remember store key (out, topology) =
      ((out, topology), if out == 0 then store else insert store key topology)

  discover : Store → CacheKey → (src_token dest_token amount : ℕ) → List Address → Routed
  unfolding find_best_route_multicall
  discover store key src dest amount hubs = do
    best ← find_best_route_multicall quoter src dest amount hubs
    ok (remember (invalidate store key) key best)

  use_cached :
      Option RouteTopology
      → Store
      → CacheKey
      → (src_token dest_token amount : ℕ) → List Address
      → Routed
  unfolding discover
  use_cached none store key src dest amount hubs = discover store key src dest amount hubs
  use_cached (some topology) store key src dest amount hubs =
      if requote quoter src dest amount topology == 0
      then discover store key src dest amount hubs
      else ok ((requote quoter src dest amount topology, topology), store)

  unfoldable pub evaluate_route : Store → (src_token dest_token amount : ℕ) → List Address → Routed
  unfolding use_cached
  evaluate_route store src dest amount hubs = do
    key ← cache_key words src dest amount
    use_cached (get store key) store key src dest amount hubs

  module _ (router : Router) where
    abbrev pub swap_data :
        RouteTopology → (src_token dest_token amount min_amt_out : ℕ) → Option (List ℕ)
    swap_data (multi_hop path) src dest amount least = router.exact_input path amount least
    swap_data (single_hop fee) src dest amount least =
        router.exact_input_single src dest fee amount least

    abbrev quote_with : Option (List ℕ) → ℕ → Result QuoteError MarketQuote
    quote_with none least = err encoding_failed
    quote_with (some bytes) least = ok (record {
      swap_target = router.address;
      token_transfer_proxy = router.address;
      swap_data = bytes;
      min_amt_out = least;
    })

    build_quote :
        (src_token dest_token amount : ℕ)
        → ℕ × RouteTopology
        → Checked (Result QuoteError MarketQuote)
    unfolding calculate_min_amount_out
    build_quote src dest amount (out, topology) = if out == 0 then ok (err no_liquidity) else do
      least ← calculate_min_amount_out out slippage_bps
      ok (quote_with (swap_data topology src dest amount least) least)

    -- A quote or an error, and the cache afterwards.
    unfoldable pub get_swap_quote :
        List Address
        → Store
        → (src_token dest_token amount : ℕ) → Checked (Result QuoteError MarketQuote × Store)
    unfolding evaluate_route build_quote
    get_swap_quote hubs store src dest amount = do
      (route, after) ← evaluate_route store src dest amount hubs
      quote ← build_quote src dest amount route
      ok (quote, after)
