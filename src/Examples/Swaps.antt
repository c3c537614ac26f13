-- ===== src/Examples/Swaps.antt =====
-- The exchange with two pools, and the encoding of a route.
use native.Mathlib.Nat.{pow-suc}
use liq_ranger.Base.{
  ℕ, zero, suc, ◌-◌, ◌*◌, ◌/◌, ◌^◌, ◌≤◌, ◌<◌, ◌≡◌, inl, inr, refl, sym, if◌then◌else◌, ◌==◌, true,
  false, Bool-cases, ==_iff, Option, Bool, ◌&&◌, subst, some, none, List, [], ◌∷◌, ok, arith,
}
use liq_ranger.Core.Types.{MarketQuote}
use liq_ranger.Swaps.Path.{encode_v3_path, packed}
use liq_ranger.Swaps.Bucket.{Bits, CacheKey, cache_key, amount_bucket}
use liq_ranger.Swaps.Bucket.Width.{cache_key-same}
use liq_ranger.Swaps.Batch.{
  RouteTopology, RouteMeta, Response, Quoter, routes, find_best_route_multicall, best_of,
  single_hop, multi_hop,
}
use liq_ranger.Swaps.Batch.Routes.{IsRoute, one_pool}
use liq_ranger.Swaps.Batch.Answers.{IsBatch}
use liq_ranger.Swaps.Batch.Candidates.{IsTried}
use liq_ranger.Swaps.Batch.Best.{IsBest, find_best_route_multicall-IsBest}
use liq_ranger.Swaps.Uniswap.{
  Router, RouteCache, calculate_min_amount_out, evaluate_route, get_swap_quote,
}
use liq_ranger.Swaps.Uniswap.Quotes.{IsHonest, IsKept, get_swap_quote-IsHonest}

-- How many bits a number below 2 ^ fuel has.
abbrev count_bits : ℕ → ℕ → ℕ
count_bits zero n = 0
count_bits (suc fuel) n = let rest = count_bits fuel (n / 2) in if n == 0 then 0 else suc rest

positive : (n : ℕ) → 0 < n → (n == 0) ≡ false
positive n p = ground (arith, p)

count_high : (fuel n : ℕ) → n < 2 ^ fuel → n < 2 ^ count_bits fuel n
count_high zero n h = h
count_high (suc fuel) n h = elim (Bool-cases (n == 0)) [
  | inl e ↦ rw e (ground (arith, e))
  | inr e ↦
      let half = count_high fuel (n / 2) (omega (arith, h, pow-suc 2 fuel)) in
      rw e (omega (arith, half, pow-suc 2 (count_bits fuel (n / 2))))
]

count_zero : (fuel : ℕ) → count_bits fuel 0 ≡ 0
count_zero zero = refl
count_zero (suc fuel) = refl

pred_suc : (r : ℕ) → suc r - 1 ≡ r
pred_suc r = omega arith

low_step : (r n : ℕ) → n / 2 < 2 ^ r → 2 ^ (r - 1) ≤ n / 2 → 2 ^ r ≤ n
low_step zero n h l = absurd (omega (arith, h, l))
low_step (suc r) n h l = let k = rw (pred_suc r) at l in omega (arith, k, pow-suc 2 r)

count_low : (fuel n : ℕ) → 0 < n → n < 2 ^ fuel → 2 ^ (count_bits fuel n - 1) ≤ n
count_low zero n p h = absurd (omega (arith, p, h))
count_low (suc fuel) n p h = elim (Bool-cases (n / 2 == 0)) [
  | inl e ↦ rw (positive n p, (==_iff (n / 2) 0).0 e, count_zero fuel) p
  | inr e ↦
      let below : n / 2 < 2 ^ fuel = omega (arith, h, pow-suc 2 fuel) in
      rw (positive n p, pred_suc (count_bits fuel (n / 2)))
        (low_step (count_bits fuel (n / 2)) n (count_high fuel (n / 2) below)
          (count_low fuel (n / 2) (ground (arith, e)) below))
]

abbrev words : Bits
words = record {
  bits = count_bits 256;
  bits-low = λ n p h. count_low 256 n p h;
  bits-high = λ n h. count_high 256 n h;
}

abbrev key : CacheKey
key = record { src_token = 5; dest_token = 7; amount_bucket = 26 }

-- Two amounts that share a key, one more than seven times the other.
key_64 : cache_key words 5 7 64 ≡ ok key
unfolding cache_key amount_bucket
key_64 = refl

key_464 : cache_key words 5 7 464 ≡ ok key
unfolding cache_key amount_bucket
key_464 = refl

cache_key-same_example : (◌≡◌ {A = ℕ} 5 5) × (◌≡◌ {A = ℕ} 7 7) × (64 ≤ 16 * 464) × (464 ≤ 16 * 64)
cache_key-same_example =
    cache_key-same words 5 7 5 7 64 464 key (omega arith) (omega arith) key_64 key_464

-- One pool answers, the route over token 3 answers more, and the others fail.
abbrev first : List ℕ → Option ℕ
first [] = none
first (b ∷ bs) = some b

abbrev failed : Response
failed = record { success = false; return_data = [] }

abbrev answered : ℕ → Response
answered out = record { success = true; return_data = out ∷ [] }

abbrev quoter : Quoter
quoter = record {
  quote_exact_input_single = λ i o fee amount. if fee == 500 then some 900 else none;
  quote_exact_input = λ path amount. some 1000;
  single_calldata = λ i o fee amount. some (fee ∷ []);
  path_calldata = λ path amount. some path;
  aggregate_3 = λ calls. some (failed ∷ answered 900 ∷ failed ∷ failed ∷ answered 1000 ∷ []);
  decode_single = first;
  decode_multi = first;
}

abbrev hops : RouteTopology
hops = multi_hop (packed (5 ∷ 3 ∷ 7 ∷ []) (500 ∷ 500 ∷ []))

best_at : find_best_route_multicall quoter 5 7 64 (3 ∷ 7 ∷ []) ≡ ok (1000, hops)
unfolding find_best_route_multicall routes best_of encode_v3_path
best_at = refl

find_best_route_multicall-IsBest_example :
    (metas : List RouteMeta) × (calls : List (List ℕ)) × (asked : List RouteMeta) × IsTried 5 7
      (3 ∷ 7 ∷ [])
      metas
    × IsBatch quoter 5 7 64 metas calls asked
    × IsBest quoter calls asked (1000, hops)
find_best_route_multicall-IsBest_example =
    find_best_route_multicall-IsBest quoter 5 7 64 (3 ∷ 7 ∷ []) (1000, hops) best_at

-- A cache with one place.
abbrev same_key : CacheKey → CacheKey → Bool
same_key j k =
    j.src_token == k.src_token
    && (j.dest_token == k.dest_token && j.amount_bucket == k.amount_bucket)

same_key_sound : (j k : CacheKey) → same_key j k ≡ true → j ≡ k
same_key_sound j k e =
    let a : j.src_token ≡ k.src_token = ground (arith, e) in
    let b : j.dest_token ≡ k.dest_token = ground (arith, e) in
    let c : j.amount_bucket ≡ k.amount_bucket = ground (arith, e) in cc

abbrev find : Option (CacheKey × RouteTopology) → CacheKey → Option RouteTopology
find none j = none
find (some (k, t)) j = if same_key j k then some t else none

find_insert :
    (k j : CacheKey) (t u : RouteTopology) → find (some (k, t)) j ≡ some u → (j ≡ k) × (u ≡ t)
find_insert k j t u e = elim (Bool-cases (same_key j k)) [
  | inr n ↦ let f = rw n at e in absurd (cc)
  | inl y ↦ let f = rw y at e in (same_key_sound j k y, cc)
]

abbrev cache : RouteCache
cache = record {
  Store = Option (CacheKey × RouteTopology);
  get = find;
  insert = λ s k t. some (k, t);
  invalidate = λ s k. none;
  get-insert = λ s k j t u e. inl (find_insert k j t u e);
  get-invalidate = λ s k j u e. absurd (cc);
}

abbrev store : Option (CacheKey × RouteTopology)
store = some (key, single_hop 500)

store-IsKept : IsKept words cache quoter store
store-IsKept k t e =
    let (a, b) = find_insert key k (single_hop 500) t e in
    subst (IsRoute k.src_token k.dest_token) (sym b) (one_pool 500)

abbrev router : Router
router = record {
  address = 8;
  exact_input_single = λ i o fee amount least. some (fee ∷ amount ∷ least ∷ []);
  exact_input = λ path amount least. some path;
}

abbrev quote : MarketQuote
quote = record {
  swap_target = 8;
  token_transfer_proxy = 8;
  swap_data = 500 ∷ 64 ∷ 895 ∷ [];
  min_amt_out = 895;
}

quote_at : get_swap_quote words cache quoter router (3 ∷ []) store 5 7 64 ≡ ok (ok quote, store)
unfolding get_swap_quote evaluate_route calculate_min_amount_out cache_key amount_bucket
quote_at = refl

get_swap_quote-IsHonest_example :
    IsHonest words cache quoter router 5 7 64 (3 ∷ []) quote × IsKept words cache quoter store
get_swap_quote-IsHonest_example =
    get_swap_quote-IsHonest words cache quoter router 5 7 64 (3 ∷ []) store store quote store-IsKept
      quote_at
