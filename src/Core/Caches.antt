-- ===== src/Core/Caches.antt =====
-- src/common/mod.rs and src/adapters/helpers/aave_math_helpers.rs: what is asked of a token once and
-- then remembered. An answer is that of the call, if it is made; none is a failed call. The look into
-- the cache, the call and the insertion are one step here, so requests are served one after another;
-- in the program a second request may ask too while the first one waits.
pub mod First
use liq_ranger.Base.{ℕ, Option, none, some, List, [], ◌∷◌}
use liq_ranger.Core.Identity.{Text, Address}
use liq_ranger.Watchlists.Cache.{lookup, insert}

-- TOKEN_DECIMAL_CACHE, TOKEN_SYMBOL_CACHE and ATOKENS_ADDR.
pub record TokenCaches : Type 0 where
  pub decimals : List (ℕ × ℕ)
  pub symbols : List (ℕ × Text)
  pub atokens : List (ℕ × Address)

-- The three functions are written alike: what the cache holds, or else the answer, which is remembered
-- unless the call fails.
abbrev pub found_or {ℓ} :
    {V : Type ℓ} → Address → Option V → Option V → List (ℕ × V) → Option V × List (ℕ × V)
found_or key (some value) answer cache = (some value, cache)
found_or key none none cache = (none, cache)
found_or key none (some value) cache = (some value, insert key value cache)

abbrev pub get_or_ask {ℓ} :
    {V : Type ℓ} → Address → Option V → List (ℕ × V) → Option V × List (ℕ × V)
get_or_ask key answer cache = found_or key (lookup key cache) answer cache

unfoldable pub get_token_decimals :
    (token : Address) → Option ℕ → TokenCaches → Option ℕ × TokenCaches
get_token_decimals token answer caches =
    let (result, decimals) = get_or_ask token answer caches.decimals in
    (result, record caches { decimals = decimals })

unfoldable pub get_token_symbol :
    (token : Address) → Option Text → TokenCaches → Option Text × TokenCaches
get_token_symbol token answer caches =
    let (result, symbols) = get_or_ask token answer caches.symbols in
    (result, record caches { symbols = symbols })

unfoldable pub resolve_atoken :
    (asset : Address) → Option Address → TokenCaches → Option Address × TokenCaches
resolve_atoken asset answer caches =
    let (result, atokens) = get_or_ask asset answer caches.atokens in
    (result, record caches { atokens = atokens })
