-- ===== src/Swaps/Uniswap/Quotes.antt =====
-- src/adapters/uniswap_v3_adapter.rs: what a quote stands for.
use liq_ranger.Base.{
  ℕ, ◌+◌, ◌*◌, ◌≤◌, ◌<◌, ◌≡◌, false, inl, inr, refl, subst, sym, ap, ◌∙◌, ◌==◌, Option, none, some,
  List, Result, ok, arith, Bool-cases, Option-cases, Result-cases,
}
use liq_ranger.Base.Word.{Checked}
use liq_ranger.Core.Identity.{Address}
use liq_ranger.Swaps.Bucket.{Bits, CacheKey, amount_bucket, cache_key}
use liq_ranger.Swaps.Batch.{
  RouteTopology, single_hop, multi_hop, or_none, Quoter, find_best_route_multicall, requote,
}
use liq_ranger.Swaps.Uniswap.{
  RouteCache, QuoteError, remember, discover, use_cached, evaluate_route, Router, slippage_bps,
  calculate_min_amount_out, swap_data, build_quote, get_swap_quote,
}
use liq_ranger.Swaps.Batch.Routes.{IsRoute, IsAnswer, IsQuoted, IsSound, find_best-IsSound}
use liq_ranger.Core.Types.{MarketQuote}

module _ (words : Bits) (cache : RouteCache) (quoter : Quoter) where
  open cache use {Store, get, insert, invalidate}

  -- What the cache holds for a key is a route between the tokens of the key.
  abbrev pub IsKept : Store → Type 0
  IsKept store =
      (key : CacheKey) (t : RouteTopology)
      → get store key ≡ some t
      → IsRoute key.src_token key.dest_token t

  invalidate-IsKept :
      (store : Store) (key : CacheKey) → IsKept store → IsKept (invalidate store key)
  invalidate-IsKept store key h k t e = h k t (cache.get-invalidate store key k t e)

  insert-IsKept :
      (store : Store) (key : CacheKey) (t : RouteTopology)
      → IsKept store
      → IsRoute key.src_token key.dest_token t
      → IsKept (insert store key t)
  insert-IsKept store key t h r k u e = elim (cache.get-insert store key k t u e) [
    | inr q ↦ h k u q
    | inl (q, p) ↦
        subst (IsRoute k.src_token k.dest_token) (sym p)
          (subst (λ x. IsRoute x.src_token x.dest_token t) (sym q) r)
  ]

  module _ (src dest amount : ℕ) (hubs : List Address) where
    abbrev pub Safe : (ℕ × RouteTopology) × Store → Type 0
    Safe (found, after) = IsSound src dest quoter amount hubs found × IsKept after

    remember-IsKept :
        (store : Store) (key : CacheKey) (found : ℕ × RouteTopology)
        → IsKept store
        → IsRoute key.src_token key.dest_token found.1
        → IsKept (remember words cache quoter store key found).1
    remember-IsKept store key found h r = elim (Bool-cases (found.0 == 0)) [
      | inl e ↦ rw e h
      | inr e ↦ rw e (insert-IsKept store key found.1 h r)
    ]

    discover-Safe :
        (store : Store) (key : CacheKey) (result : (ℕ × RouteTopology) × Store)
        → IsKept store
        → key.src_token ≡ src
        → key.dest_token ≡ dest
        → discover words cache quoter store key src dest amount hubs ≡ ok result
        → Safe result
    unfolding discover
    discover-Safe store key result h p q e =
        elim (Result-cases (find_best_route_multicall quoter src dest amount hubs)) [
          | inr n ↦ absurd (ground arith)
          | inl (found, f) ↦
              let sound = find_best-IsSound src dest quoter amount hubs found f in
              subst Safe {x = remember words cache quoter (invalidate store key) key found}
                {y = result} (let g = rw f at e in cc)
                (
                  sound,
                  remember-IsKept (invalidate store key) key found (invalidate-IsKept store key h)
                      (rw (p, q) sound.0),
                )
        ]

    or_none-some :
        (o : Option ℕ) (out : ℕ) → or_none quoter o ≡ out → (out == 0) ≡ false → o ≡ some out
    or_none-some none out e z = absurd (ground (arith, e, z))
    or_none-some (some n) out e z = ap some e

    requote-IsAnswer :
        (t : RouteTopology) (out : ℕ)
        → requote quoter src dest amount t ≡ out
        → (out == 0) ≡ false
        → IsAnswer src dest quoter amount out t
    requote-IsAnswer (single_hop fee) out e z =
        or_none-some (quoter.quote_exact_input_single src dest fee amount) out e z
    requote-IsAnswer (multi_hop path) out e z =
        or_none-some (quoter.quote_exact_input path amount) out e z

    use_cached-Safe :
        (o : Option RouteTopology) (store : Store) (key : CacheKey)
        (result : (ℕ × RouteTopology) × Store)
        → get store key ≡ o
        → IsKept store
        → key.src_token ≡ src
        → key.dest_token ≡ dest
        → use_cached words cache quoter o store key src dest amount hubs ≡ ok result
        → Safe result
    unfolding use_cached
    use_cached-Safe none store key result g h p q e = discover-Safe store key result h p q e
    use_cached-Safe (some t) store key result g h p q e =
        elim (Bool-cases (requote quoter src dest amount t == 0)) [
          | inl z ↦ discover-Safe store key result h p q (rw z at e)
          | inr z ↦
              let f = rw z at e in
              subst Safe {x = ((requote quoter src dest amount t, t), store)} {y = result} (cc) (
                (
                  rw⁻¹ (p, q) (h key t g),
                  inr (inl (requote-IsAnswer t (requote quoter src dest amount t) refl z)),
                ),
                h,
              )
        ]

    key_tokens :
        (key : CacheKey)
        → cache_key words src dest amount ≡ ok key
        → (key.src_token ≡ src) × (key.dest_token ≡ dest)
    unfolding cache_key
    key_tokens key e = elim (Result-cases (amount_bucket words amount)) [
      | inr n ↦ absurd (ground arith)
      | inl (bucket, q) ↦ ground arith
    ]

    -- From a cache that holds for each key a route between the tokens of the key, an evaluation leads
    -- to such a cache. It returns a route between the two tokens, and an amount that the contracts
    -- have answered for that route and this amount to sell, unless it is zero.
    pub evaluate_route-Safe :
        (store after : Store) (found : ℕ × RouteTopology)
        → IsKept store
        → evaluate_route words cache quoter store src dest amount hubs ≡ ok (found, after)
        → IsSound src dest quoter amount hubs found × IsKept after
    unfolding evaluate_route
    evaluate_route-Safe store after found h e =
        elim (Result-cases (cache_key words src dest amount)) [
          | inr n ↦ absurd (ground arith)
          | inl (key, k) ↦
              let (p, q) = key_tokens key k in
              use_cached-Safe (get store key) store key (found, after) refl h p q (rw k at e)
        ]

-- The least amount is the expected one less half a percent, rounded down.
pub calculate_min_amount_out-eq-ok :
    (expected least : ℕ)
    → calculate_min_amount_out expected slippage_bps ≡ ok least
    → (least * 10_000 ≤ expected * 9_950) × (expected * 9_950 < least * 10_000 + 10_000)
unfolding calculate_min_amount_out
calculate_min_amount_out-eq-ok expected least e = ground arith

module _ (words : Bits) (cache : RouteCache) (quoter : Quoter) (router : Router) where
  open cache use {Store}

  -- The router's call that sells the amount along the route, for no less than the least amount.
  abbrev pub IsCall : (src dest amount : ℕ) → RouteTopology → ℕ → List ℕ → Type 0
  IsCall src dest amount (single_hop fee) least bytes =
      router.exact_input_single src dest fee amount least ≡ some bytes
  IsCall src dest amount (multi_hop path) least bytes =
      router.exact_input path amount least ≡ some bytes

  swap_data-IsCall :
      (src dest amount : ℕ) (t : RouteTopology) (least : ℕ) (bytes : List ℕ)
      → swap_data words cache quoter router t src dest amount least ≡ some bytes
      → IsCall src dest amount t least bytes
  swap_data-IsCall src dest amount (single_hop fee) least bytes e = e
  swap_data-IsCall src dest amount (multi_hop path) least bytes e = e

  -- A quote: the router's call for a route that answered `out`, with the least amount in it.
  pub record IsHonest (src dest amount : ℕ) (hubs : List Address) (quote : MarketQuote)
      : Type 0 where
    pub out : ℕ
    pub topology : RouteTopology
    pub is_route : IsRoute src dest topology
    pub out_positive : 0 < out
    pub quoted : IsQuoted src dest quoter amount hubs out topology
    pub least_low : quote.min_amt_out * 10_000 ≤ out * 9_950
    pub least_high : out * 9_950 < quote.min_amt_out * 10_000 + 10_000
    pub call : IsCall src dest amount topology quote.min_amt_out quote.swap_data
    pub target : quote.swap_target ≡ router.address
    pub proxy : quote.token_transfer_proxy ≡ router.address

  module _ (src dest amount : ℕ) (hubs : List Address) where
    abbrev returned :
        Result QuoteError MarketQuote → Store → Checked (Result QuoteError MarketQuote × Store)
    returned quote store = ok (quote, store)

    both_same :
        (x : Result QuoteError MarketQuote) (s : Store) (y : Result QuoteError MarketQuote)
        (t : Store)
        → returned x s ≡ returned y t
        → (x ≡ y) × (s ≡ t)
    both_same x s y t e = (cc, cc)

    build_quote-IsHonest :
        (found : ℕ × RouteTopology) (quote : MarketQuote)
        → IsSound src dest quoter amount hubs found
        → build_quote words cache quoter router src dest amount found ≡ ok (ok quote)
        → IsHonest src dest amount hubs quote
    unfolding build_quote
    build_quote-IsHonest (out, t) quote (r, s) e = elim (Bool-cases (out == 0)) [
      | inl z ↦ absurd (ground arith)
      | inr z ↦ elim (Result-cases (calculate_min_amount_out out slippage_bps)) [
        | inr n ↦ absurd (ground arith)
        | inl (least, l) ↦
            elim (Option-cases (swap_data words cache quoter router t src dest amount least)) [
              | inl n ↦ absurd (ground arith)
              | inr (bytes, b) ↦
                  let bounds = calculate_min_amount_out-eq-ok out least l in
                  let call : bytes ≡ quote.swap_data = ground arith in
                  let same : quote.min_amt_out ≡ least = ground arith in
                  record {
                    out = out;
                    topology = t;
                    is_route = r;
                    out_positive = ground arith;
                    quoted = elim s [ inl n ↦ absurd (ground arith) | inr x ↦ x ];
                    least_low = ground arith;
                    least_high = ground arith;
                    call = swap_data-IsCall src dest amount t quote.min_amt_out quote.swap_data (
                        subst
                          (λ x.
                            swap_data words cache quoter router t src dest amount x
                            ≡ some quote.swap_data)
                          {x = least} {y = quote.min_amt_out} (sym same) (b ∙ ap some call));
                    target = ground arith;
                    proxy = ground arith;
                  }
            ]
      ]
    ]

    -- From a cache that holds for each key a route between the tokens of the key, every quote is the
    -- router's call that sells the amount along a route between the two tokens, for which the quoter
    -- has answered a positive amount for the amount to sell, alone or in a batch of such questions;
    -- the least amount in the call, and in the quote, is that less half a percent, rounded down; and
    -- the cache afterwards is such a cache.
    pub get_swap_quote-IsHonest :
        (store after : Store) (quote : MarketQuote)
        → IsKept words cache quoter store
        → get_swap_quote words cache quoter router hubs store src dest amount ≡ ok (ok quote, after)
        → IsHonest src dest amount hubs quote × IsKept words cache quoter after
    unfolding get_swap_quote
    get_swap_quote-IsHonest store after quote h e =
        elim (Result-cases (evaluate_route words cache quoter store src dest amount hubs)) [
          | inr n ↦ absurd (ground arith)
          | inl ((found, kept), q) ↦
              elim (Result-cases (build_quote words cache quoter router src dest amount found)) [
                | inr n ↦ absurd (ground arith)
                | inl (built, b) ↦
                    let (s, k) =
                      evaluate_route-Safe words cache quoter src dest amount hubs store kept found h
                        q in
                    let f = rw b at (rw q at e) in
                    let (x, y) = both_same built kept (ok quote) after f in
                    (
                      build_quote-IsHonest found quote s (b ∙ ap ok x),
                      subst (IsKept words cache quoter) y k,
                    )
              ]
        ]
