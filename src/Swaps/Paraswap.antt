-- ===== src/Swaps/Paraswap.antt =====
-- src/adapters/paraswap_adapter.rs: a quote of the service, in two requests.
pub mod Built
use liq_ranger.Base.{
  ℕ, ◌+◌, ◌-◌, ◌*◌, ◌/◌, ◌<◌, ◌≡◌, Bool, true, false, ◌&&◌, ◌||◌, leb, ltb, ◌==◌, if◌then◌else◌,
  Option, none, some, List, [], ◌∷◌, Result, ok, err, ◌>>=◌, or_fail,
}
use liq_ranger.Base.Word.{checked_mul}
use liq_ranger.Core.Identity.{HexCodec, Text, Address}
use liq_ranger.Core.Types.{MarketQuote}
use liq_ranger.Simulation.Sandbox.{Hex}
use liq_ranger.Swaps.Uniswap.{slippage_bps}

-- A value of a JSON document: what `as_str` and `as_u64` read, and anything else.
pub data Json : Type 0 where
  string_value : Text → Json
  number_value : ℕ → Json
  other_value : Json

-- The side SELL and the version 6.2 are the same in every query.
pub record PriceQuery : Type 0 where
  pub src_token : Text
  pub dest_token : Text
  pub src_decimals : ℕ
  pub dest_decimals : ℕ
  pub amount : ℕ
  pub network : ℕ
  pub user_address : Text

pub record TransactionBody (Route : Type 0) : Type 0 where
  pub src_token : Text
  pub dest_token : Text
  pub src_decimals : ℕ
  pub dest_decimals : ℕ
  pub src_amount : ℕ
  pub price_route : Route
  pub user_address : Text
  pub receiver : Text
  pub slippage : ℕ
  pub deadline : ℕ

pub record TransactionResponse : Type 0 where
  pub to : Text
  pub data_text : Text

-- The service and the crates that speak to it: the response to each attempt of a request, or none where
-- it is not sent; the readers of the bodies; the clock; and the readers of numbers.
pub record Service : Type 1 where
  pub Body : Type 0
  pub Route : Type 0
  pub get : PriceQuery → (attempt : ℕ) → Option (ℕ × Body)
  pub post : TransactionBody Route → (attempt : ℕ) → Option (ℕ × Body)
  pub read_route : Body → Option Route
  pub read_transaction : Body → Option TransactionResponse
  pub dest_amount : Route → Json
  pub token_transfer_proxy : Route → Json
  pub now : Option ℕ
  pub from_dec_str : Text → Option ℕ

pub data Attempt (Body : Type 0) : Type 0 where
  done : Body → Attempt Body
  transient permanent : Attempt Body

-- `retry` of the crate backoff calls the operation again after a transient error, for as long as the
-- strategy leaves time.
pub record Backoff : Type 1 where
  pub retry : {Body : Type 0} → (ℕ → Attempt Body) → Option Body
  pub retry-some :
      {Body : Type 0} (operation : ℕ → Attempt Body) (body : Body)
      → retry operation ≡ some body
      → (n : ℕ) × (operation n ≡ done body) × ((m : ℕ) → m < n → operation m ≡ transient)

-- `is_server_error`
abbrev pub is_server_error : ℕ → Bool
is_server_error status = leb 500 status && ltb status 600

abbrev pub failed_attempt : {Body : Type 0} → ℕ → Attempt Body
failed_attempt status =
    if status == 429 then transient else if is_server_error status then transient else permanent

abbrev pub get_attempt : {Body : Type 0} → Option (ℕ × Body) → Attempt Body
get_attempt none = transient
get_attempt (some (status, body)) = if status == 200 then done body else failed_attempt status

abbrev pub post_attempt : {Body : Type 0} → Option (ℕ × Body) → Attempt Body
post_attempt none = transient
post_attempt (some (status, body)) =
    if status == 200 || status == 201 then done body else failed_attempt status

pub data QuoteFailure : Type 0 where
  no_response no_route no_clock no_dest_amount slippage_overflow no_proxy : QuoteFailure
  bad_target bad_proxy bad_data : QuoteFailure

-- The text without a leading 0x.
abbrev pub clean_hex : Text → Text
clean_hex (c ∷ d ∷ t) = if c == b'0' && d == b'x' then t else c ∷ d ∷ t
clean_hex t = t

abbrev pub as_str : Json → Option Text
as_str (string_value t) = some t
as_str _ = none

module _ (hex : HexCodec) (bytes : Hex) (service : Service) (backoff : Backoff)
    (flash_liq_address : Address) (chain_id : ℕ) where
  open service use {
    Route, get, post, read_route, read_transaction, dest_amount, token_transfer_proxy, now,
    from_dec_str,
  }

  abbrev pub price_query : (src_token dest_token amount src_decimals dest_decimals : ℕ) → PriceQuery
  price_query src dest amount src_decimals dest_decimals = record {
    src_token = hex.show_address src;
    dest_token = hex.show_address dest;
    src_decimals = src_decimals;
    dest_decimals = dest_decimals;
    amount = amount;
    network = chain_id;
    user_address = hex.show_address flash_liq_address;
  }

  unfoldable pub get_price_route :
      (src_token dest_token amount src_decimals dest_decimals : ℕ) → Result QuoteFailure Route
  get_price_route src dest amount src_decimals dest_decimals = do
    body ←
        or_fail
          (backoff.retry
            λ n. get_attempt (get (price_query src dest amount src_decimals dest_decimals) n))
          no_response
    or_fail (read_route body) no_route

  abbrev pub transaction_body :
      (src_token dest_token amount src_decimals dest_decimals : ℕ)
      → Route
      → (time : ℕ) → TransactionBody Route
  transaction_body src dest amount src_decimals dest_decimals route time = record {
    src_token = hex.show_address src;
    dest_token = hex.show_address dest;
    src_decimals = src_decimals;
    dest_decimals = dest_decimals;
    src_amount = amount;
    price_route = route;
    user_address = hex.show_address flash_liq_address;
    receiver = hex.show_address flash_liq_address;
    slippage = slippage_bps;
    deadline = time + 300;
  }

  unfoldable pub build_transaction :
      (src_token dest_token amount src_decimals dest_decimals : ℕ)
      → Route
      → Result QuoteFailure TransactionResponse
  build_transaction src dest amount src_decimals dest_decimals route = do
    time ← or_fail now no_clock
    body ←
        or_fail
          (backoff.retry λ n.
            post_attempt
              (post (transaction_body src dest amount src_decimals dest_decimals route time) n))
          no_response
    or_fail (read_transaction body) no_route

  abbrev pub read_amount : Json → Option ℕ
  read_amount (string_value t) = from_dec_str t
  read_amount (number_value n) = some n
  read_amount other_value = none

  unfoldable pub min_out : ℕ → Result QuoteFailure ℕ
  min_out dest = do
    scaled ← or_fail (checked_mul dest (10_000 - slippage_bps)) slippage_overflow
    ok (scaled / 10_000)

  unfoldable pub get_swap_quote :
      (src_token dest_token src_decimals dest_decimals amount : ℕ) → Result QuoteFailure MarketQuote
  unfolding get_price_route build_transaction min_out
  get_swap_quote src dest src_decimals dest_decimals amount = do
    route ← get_price_route src dest amount src_decimals dest_decimals
    out ← or_fail (read_amount (dest_amount route)) no_dest_amount
    least ← min_out out
    tx ← build_transaction src dest amount src_decimals dest_decimals route
    proxy_text ← or_fail (as_str (token_transfer_proxy route)) no_proxy
    target ← or_fail (hex.parse_address tx.to) bad_target
    proxy ← or_fail (hex.parse_address proxy_text) bad_proxy
    swap_data ← or_fail (bytes.decode (clean_hex tx.data_text)) bad_data
    ok (record {
      swap_target = target;
      token_transfer_proxy = proxy;
      swap_data = swap_data;
      min_amt_out = least;
    })
