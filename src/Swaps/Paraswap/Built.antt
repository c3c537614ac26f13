-- ===== src/Swaps/Paraswap/Built.antt =====
-- src/adapters/paraswap_adapter.rs: what a quote is built from.
use liq_ranger.Base.{
  ℕ, ◌*◌, ◌/◌, ◌<◌, ◌≡◌, ◌⊎◌, sym, ap, ◌∙◌, Option, none, some, ok, arith, and_then-eq-ok,
  or_fail-eq-ok, ok-eq-ok, ◌≤◌, ◌^◌, ◌+◌, ◌≢◌, inl, inr, refl, [], ◌∷◌, Bool-cases, ◌==◌,
}
use liq_ranger.Core.Identity.{HexCodec, Text, Address}
use liq_ranger.Core.Types.{MarketQuote}
use liq_ranger.Simulation.Sandbox.{Hex}
use liq_ranger.Swaps.Paraswap.{
  Service, Backoff, done, TransactionResponse, get_attempt, post_attempt, clean_hex, as_str,
  get_price_route, build_transaction, read_amount, min_out, get_swap_quote, transient, Json,
  string_value, number_value, other_value, PriceQuery, TransactionBody,
}

-- An attempt that is made again: nothing was sent, or the service was busy or failed.
abbrev pub IsRetried : {Body : Type 0} → Option (ℕ × Body) → Type 0
IsRetried none = Unit
IsRetried (some (status, body)) = (status ≡ 429) ⊎ ((500 ≤ status) × (status < 600))

get_attempt-IsRetried :
    {Body : Type 0} (o : Option (ℕ × Body)) → get_attempt o ≡ transient → IsRetried o
get_attempt-IsRetried none e = tt
get_attempt-IsRetried (some (status, body)) e = ground (arith, e)

post_attempt-IsRetried :
    {Body : Type 0} (o : Option (ℕ × Body)) → post_attempt o ≡ transient → IsRetried o
post_attempt-IsRetried none e = tt
post_attempt-IsRetried (some (status, body)) e = ground (arith, e)

-- The response of an attempt that counts.
get_attempt-eq-done :
    {Body : Type 0} (o : Option (ℕ × Body)) (body : Body)
    → get_attempt o ≡ done body
    → o ≡ some (200, body)
get_attempt-eq-done none body e = absurd (cc)
get_attempt-eq-done (some (status, b)) body e = ground arith

post_attempt-eq-done :
    {Body : Type 0} (o : Option (ℕ × Body)) (body : Body)
    → post_attempt o ≡ done body
    → (status : ℕ) × (o ≡ some (status, body)) × ((status ≡ 200) ⊎ (status ≡ 201))
post_attempt-eq-done none body e = absurd (cc)
post_attempt-eq-done (some (status, b)) body e = (status, ground arith, ground arith)

-- The digits of a text: what follows a leading 0x, or all of it if there is none.
abbrev pub IsClean : Text → Text → Type 0
IsClean text digits =
    (text ≡ b'0' ∷ b'x' ∷ digits) ⊎ ((digits ≡ text) × ((rest : Text) → text ≢ b'0' ∷ b'x' ∷ rest))

clean_hex-IsClean : (text : Text) → IsClean text (clean_hex text)
clean_hex-IsClean [] = inr (refl, λ rest e. absurd (cc))
clean_hex-IsClean (c ∷ []) = inr (refl, λ rest e. absurd (cc))
clean_hex-IsClean (c ∷ d ∷ t) = elim (Bool-cases (c == b'0')) [
  | inr n ↦ rw n (inr (refl, λ rest e. ground (arith, n, e)))
  | inl y ↦ elim (Bool-cases (d == b'x')) [
    | inr n ↦ rw (y, n) (inr (refl, λ rest e. ground (arith, n, e)))
    | inl z ↦ rw (y, z) (inl (ground (arith, y, z)))
  ]
]

as_str-eq-some : (value : Json) (t : Text) → as_str value ≡ some t → value ≡ string_value t
as_str-eq-some (string_value s) t e = cc
as_str-eq-some (number_value n) t e = absurd (cc)
as_str-eq-some other_value t e = absurd (cc)

module _ (hex : HexCodec) (bytes : Hex) (service : Service) (backoff : Backoff)
    (flash_liq_address : Address) (chain_id : ℕ)
    (src dest src_decimals dest_decimals amount : ℕ) where
  open service use {
    Body, Route, get, post, read_route, read_transaction, dest_amount, now, from_dec_str,
  }

  -- The route that some attempt of the price query has brought with a status of 200, after others that
  -- are made again. The query has the two tokens, each with its decimals, the amount and the contract.
  pub record IsFetched (route : Route) : Type 0 where
    pub query : PriceQuery
    pub sold : query.src_token ≡ hex.show_address src
    pub bought : query.dest_token ≡ hex.show_address dest
    pub sold_decimals : query.src_decimals ≡ src_decimals
    pub bought_decimals : query.dest_decimals ≡ dest_decimals
    pub amount_sold : query.amount ≡ amount
    pub chain : query.network ≡ chain_id
    pub user : query.user_address ≡ hex.show_address flash_liq_address
    pub attempt : ℕ
    pub body : Body
    pub answered : get query attempt ≡ some (200, body)
    pub retried : (m : ℕ) → m < attempt → IsRetried (get query m)
    pub read : read_route body ≡ some route

  -- The transaction that some attempt of the second request has brought, after others that are made
  -- again. The request repeats the tokens, the decimals and the amount, with this route, the contract
  -- as the sender and the receiver, a slippage of half a percent, and five minutes of time.
  pub record IsPosted (route : Route) (tx : TransactionResponse) : Type 0 where
    pub time : ℕ
    pub clock : now ≡ some time
    pub request : TransactionBody Route
    pub sold : request.src_token ≡ hex.show_address src
    pub bought : request.dest_token ≡ hex.show_address dest
    pub sold_decimals : request.src_decimals ≡ src_decimals
    pub bought_decimals : request.dest_decimals ≡ dest_decimals
    pub amount_sold : request.src_amount ≡ amount
    pub along : request.price_route ≡ route
    pub user : request.user_address ≡ hex.show_address flash_liq_address
    pub receiver : request.receiver ≡ hex.show_address flash_liq_address
    pub slippage : request.slippage ≡ 50
    pub deadline : request.deadline ≡ time + 300
    pub attempt : ℕ
    pub status : ℕ
    pub body : Body
    pub answered : post request attempt ≡ some (status, body)
    pub accepted : (status ≡ 200) ⊎ (status ≡ 201)
    pub retried : (m : ℕ) → m < attempt → IsRetried (post request m)
    pub read : read_transaction body ≡ some tx

  -- The amount of a value: a number, or a text that is read as one.
  abbrev pub IsAmount : Json → ℕ → Type 0
  IsAmount value out =
      (value ≡ number_value out)
      ⊎ ((t : Text) × (value ≡ string_value t) × (from_dec_str t ≡ some out))

  read_amount-IsAmount :
      (value : Json) (out : ℕ)
      → read_amount hex bytes service backoff flash_liq_address chain_id value ≡ some out
      → IsAmount value out
  read_amount-IsAmount (string_value t) out e = inr (t, refl, e)
  read_amount-IsAmount (number_value n) out e = inl (cc)
  read_amount-IsAmount other_value out e = absurd (cc)

  -- A quote, with the answers that it rests on.
  pub record IsPriced (q : MarketQuote) : Type 0 where
    pub route : Route
    pub fetched : IsFetched route
    pub out : ℕ
    pub promised : IsAmount (dest_amount route) out
    pub fits : out * 9_950 < 2 ^ 256
    pub least : q.min_amt_out ≡ out * 9_950 / 10_000
    pub tx : TransactionResponse
    pub posted : IsPosted route tx
    pub target : hex.parse_address tx.to ≡ some q.swap_target
    pub proxy_text : Text
    pub named : service.token_transfer_proxy route ≡ string_value proxy_text
    pub proxy : hex.parse_address proxy_text ≡ some q.token_transfer_proxy
    pub digits : Text
    pub clean : IsClean tx.data_text digits
    pub encoded : bytes.decode digits ≡ some q.swap_data

  get_price_route-IsFetched :
      (route : Route)
      → get_price_route hex bytes service backoff flash_liq_address chain_id src dest amount
          src_decimals dest_decimals
        ≡ ok route
      → IsFetched route
  unfolding get_price_route
  get_price_route-IsFetched route e =
      let (body, retried, read) = and_then-eq-ok _ _ route e in
      let (n, last, earlier) = backoff.retry-some _ body (or_fail-eq-ok _ _ body retried) in
      record {
        query = _;
        sold = refl;
        bought = refl;
        sold_decimals = refl;
        bought_decimals = refl;
        amount_sold = refl;
        chain = refl;
        user = refl;
        attempt = n;
        body = body;
        answered = get_attempt-eq-done _ body last;
        retried = λ m l. get_attempt-IsRetried _ (earlier m l);
        read = or_fail-eq-ok _ _ route read;
      }

  build_transaction-IsPosted :
      (route : Route) (tx : TransactionResponse)
      → build_transaction hex bytes service backoff flash_liq_address chain_id src dest amount
          src_decimals dest_decimals route
        ≡ ok tx
      → IsPosted route tx
  unfolding build_transaction
  build_transaction-IsPosted route tx e =
      let (time, clock, sent) = and_then-eq-ok _ _ tx e in
      let (body, retried, read) = and_then-eq-ok _ _ tx sent in
      let (n, last, earlier) = backoff.retry-some _ body (or_fail-eq-ok _ _ body retried) in
      let (status, answered, accepted) = post_attempt-eq-done _ body last in
      record {
        time = time;
        clock = or_fail-eq-ok _ _ time clock;
        request = _;
        sold = refl;
        bought = refl;
        sold_decimals = refl;
        bought_decimals = refl;
        amount_sold = refl;
        along = refl;
        user = refl;
        receiver = refl;
        slippage = refl;
        deadline = refl;
        attempt = n;
        status = status;
        body = body;
        answered = answered;
        accepted = accepted;
        retried = λ m l. post_attempt-IsRetried _ (earlier m l);
        read = or_fail-eq-ok _ _ tx read;
      }

  min_out-eq-ok :
      (out least : ℕ)
      → min_out hex bytes service backoff flash_liq_address chain_id out ≡ ok least
      → (out * 9_950 < 2 ^ 256) × (least ≡ out * 9_950 / 10_000)
  unfolding min_out
  min_out-eq-ok out least e = ground arith

  -- A quote rests on two answers of the service. The first, with a status of 200, is to a query for the two
  -- tokens, each with its decimals, the amount, the chain and the contract. The second, with a status of
  -- 200 or 201, is to a request with the same tokens and amount, the route of the first, the contract
  -- as the receiver, half a percent of slippage and five minutes of time. The attempts before either
  -- were not sent, or had a status of 429 or 5xx. The least output is what the first promises less half a
  -- percent, rounded down without an overflow; the proxy is the first's, the target and the data are
  -- the second's, the data read without a leading 0x.
  pub get_swap_quote-IsPriced :
      (q : MarketQuote)
      → get_swap_quote hex bytes service backoff flash_liq_address chain_id src dest src_decimals
          dest_decimals amount
        ≡ ok q
      → IsPriced q
  unfolding get_swap_quote
  get_swap_quote-IsPriced q e =
      let (route, fetched, e₁) = and_then-eq-ok _ _ q e in
      let (out, promised, e₂) = and_then-eq-ok _ _ q e₁ in
      let (least, rounded, e₃) = and_then-eq-ok _ _ q e₂ in
      let (tx, posted, e₄) = and_then-eq-ok _ _ q e₃ in
      let (proxy_text, named, e₅) = and_then-eq-ok _ _ q e₄ in
      let (target, t, e₆) = and_then-eq-ok _ _ q e₅ in
      let (proxy, p, e₇) = and_then-eq-ok _ _ q e₆ in
      let (swap_data, d, e₈) = and_then-eq-ok _ _ q e₇ in
      let built = ok-eq-ok _ q e₈ in
      let (fits, quotient) = min_out-eq-ok out least rounded in
      record {
        route = route;
        fetched = get_price_route-IsFetched route fetched;
        out = out;
        promised = read_amount-IsAmount _ out (or_fail-eq-ok _ _ out promised);
        fits = fits;
        least = ap (λ x. x.min_amt_out) (sym built) ∙ quotient;
        tx = tx;
        posted = build_transaction-IsPosted route tx posted;
        target = or_fail-eq-ok _ _ target t ∙ ap (λ x. some x.swap_target) built;
        proxy_text = proxy_text;
        named = as_str-eq-some _ proxy_text (or_fail-eq-ok _ _ proxy_text named);
        proxy = or_fail-eq-ok _ _ proxy p ∙ ap (λ x. some x.token_transfer_proxy) built;
        digits = _;
        clean = clean_hex-IsClean tx.data_text;
        encoded = or_fail-eq-ok _ _ swap_data d ∙ ap (λ x. some x.swap_data) built;
      }
