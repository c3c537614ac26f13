-- ===== src/Examples/Prices.antt =====
-- A quote of the service Paraswap.
use liq_ranger.Base.{ℕ, ◌≡◌, refl, Option, some, none, [], ◌∷◌, arith, List}
use liq_ranger.Core.Types.{MarketQuote}
use liq_ranger.Swaps.Paraswap.{
  string_value, number_value, Service, Backoff, Attempt, done, transient, permanent, get_swap_quote,
  get_price_route, build_transaction, min_out,
}
use liq_ranger.Swaps.Paraswap.Built.{IsPriced, get_swap_quote-IsPriced}
use liq_ranger.Examples.{short_hex}
use liq_ranger.Examples.Tasks.{hex}
use liq_ranger.Core.Caches.{get_token_decimals, get_token_symbol, resolve_atoken}
use liq_ranger.Core.Caches.First.{
  Request, decimals_of, symbol_of, atoken_of, serve_all, empty, serve_all-first,
}

-- Every request is answered at the first attempt; the route promises 1000.
abbrev service : Service
service = record {
  Body = ℕ;
  Route = ℕ;
  get = λ query n. some (200, 5);
  post = λ body n. some (201, 6);
  read_route = λ body. some body;
  read_transaction = λ body.
      some (record { to = short_hex.show_address 3; data_text = b'0' ∷ b'x' ∷ b'8' ∷ b'0' ∷ [] });
  dest_amount = λ route. number_value 1_000;
  token_transfer_proxy = λ route. string_value (short_hex.show_address 4);
  now = some 7;
  from_dec_str = λ t. none;
}

abbrev first_attempt : {Body : Type 0} → Attempt Body → Option Body
first_attempt (done body) = some body
first_attempt transient = none
first_attempt permanent = none

first_attempt-eq-some :
    {Body : Type 0} (a : Attempt Body) (body : Body) → first_attempt a ≡ some body → a ≡ done body
first_attempt-eq-some (done b) body e = cc
first_attempt-eq-some transient body e = absurd (cc)
first_attempt-eq-some permanent body e = absurd (cc)

-- One attempt is all.
abbrev backoff : Backoff
backoff = record {
  retry = λ operation. first_attempt (operation 0);
  retry-some = λ operation body e.
      (0, first_attempt-eq-some (operation 0) body e, λ m h. absurd (omega (arith, h)));
}

abbrev quote : MarketQuote
quote = record { swap_target = 3; token_transfer_proxy = 4; swap_data = []; min_amt_out = 995 }

get_swap_quote-IsPriced_example : IsPriced short_hex hex service backoff 8 137 2 1 18 6 500 quote
unfolding get_swap_quote get_price_route build_transaction min_out
get_swap_quote-IsPriced_example =
    get_swap_quote-IsPriced short_hex hex service backoff 8 137 2 1 18 6 500 quote refl

-- The first call for the decimals of 7 fails, and the third answers otherwise than the second.
abbrev requests : List Request
requests =
    decimals_of 7 none
    ∷ symbol_of 7 (some (b'A' ∷ []))
    ∷ decimals_of 7 (some 6)
    ∷ atoken_of 8 (some 9)
    ∷ decimals_of 7 (some 18)
    ∷ []

serve_all-first_example :
    ((get_token_decimals 7 (some 18) (serve_all empty requests)).0 ≡ some 6)
    × ((get_token_symbol 7 none (serve_all empty requests)).0 ≡ some (b'A' ∷ []))
    × ((resolve_atoken 7 none (serve_all empty requests)).0 ≡ none)
serve_all-first_example = serve_all-first requests 7 (some 18) none none
