-- ===== src/Examples/Histories.antt =====
-- The records of two liquidations in one transaction, and the discovery of their assets.
use liq_ranger.Base.{
  ℕ, ◌+◌, ◌-◌, ◌<◌, ◌≡◌, ◌==◌, ◌&&◌, leb, if◌then◌else◌, refl, true, Option, some, none, List, [],
  ◌∷◌, arith,
}
use liq_ranger.Core.Identity.{HexCodec, HasNoColon, Text}
use liq_ranger.Services.Distributor.{Chain, Tokens, discover_active_assets}
use liq_ranger.Records.Tables.{Database}
use liq_ranger.Records.Extractor.{
  Units, Answers, position_liquidated, StreamEvent, indexed, stream_closed, start,
}
use liq_ranger.Records.Replay.{start-start}
use liq_ranger.Records.Discovery.{ShortForm, ellipsis, asset_rows, discover_active_assets-recorded}
use liq_ranger.Watchlists.Cache.{has}

-- A letter and a character that is above the ellipsis.
abbrev print : ℕ → ℕ → Text
print letter n = letter ∷ (n + 9_000) ∷ []

abbrev scan : ℕ → Text → Option ℕ
scan letter (c ∷ d ∷ []) = if c == letter && leb 9_000 d then some (d - 9_000) else none
scan letter _ = none

scan-print : (letter n : ℕ) → scan letter (print letter n) ≡ some n
scan-print letter n = ground arith

print-HasNoColon : (letter n : ℕ) → 58 < letter → HasNoColon (print letter n)
print-HasNoColon letter n h = ((λ e. omega (arith, h, e)), ((λ e. omega (arith, e)), tt))

scan-ellipsis : (t : Text) → has t ellipsis ≡ true → scan b'x' t ≡ none
scan-ellipsis [] h = refl
scan-ellipsis (c ∷ []) h = refl
scan-ellipsis (c ∷ d ∷ []) h = ground arith
scan-ellipsis (c ∷ d ∷ e ∷ t) h = refl

abbrev wide_hex : HexCodec
wide_hex = record {
  show_address = print b'x';
  parse_address = scan b'x';
  show_hash = print b'h';
  parse_hash = scan b'h';
  parse-show_address = scan-print b'x';
  parse-show_hash = scan-print b'h';
  show_address-HasNoColon = λ a. print-HasNoColon b'x' a (omega arith);
  show_hash-HasNoColon = λ h. print-HasNoColon b'h' h (omega arith);
  parse_hash-show_address = λ a. refl;
  parse_address-show_hash = λ h. refl;
}

-- Amounts in whole units.
abbrev units : Units
units = record {
  F64 = ℕ;
  zero = 0;
  plus = ◌+◌;
  format_units = λ n d. some (n ∷ []);
  parse = λ t. some 4;
}

has-ellipsis : (a : ℕ) → has (b'0' ∷ b'x' ∷ a ∷ ellipsis ∷ []) ellipsis ≡ true
has-ellipsis a = ground arith

abbrev form : ShortForm wide_hex
form = record {
  to_string = λ a. b'0' ∷ b'x' ∷ a ∷ ellipsis ∷ [];
  elided = λ a. has-ellipsis a;
  digits_only = scan-ellipsis;
}

abbrev answers : Answers
answers = record { token_symbol = λ a. none; token_decimals = λ a. some 6; executes = true }

abbrev events : List StreamEvent
events =
    indexed (position_liquidated 1 9 2 1 40 5) 7 30 answers
    ∷ indexed (position_liquidated 0 8 3 1 60 5) 7 30 answers
    ∷ stream_closed
    ∷ []

abbrev empty : Database ℕ
empty = record { liquidations = []; distributions = [] }

start-start_example :
    start wide_hex units form.to_string (start wide_hex units form.to_string empty events) events
    ≡ start wide_hex units form.to_string empty events
start-start_example = start-start wide_hex units form.to_string empty events

abbrev chain : Chain
chain = record {
  State = ℕ;
  get_balance = λ s. none;
  accumulated_profits = λ s asset. none;
  send = λ s t. (true, s);
  token_symbol = λ s asset. none;
  fetch_all = λ s. some (asset_rows (start wide_hex units form.to_string empty events));
}

abbrev tokens : Tokens
tokens = record { wpol = 1; usdc = 2; usdt = 3; breet = 7; aave_reserves = 2 ∷ [] }

discover_active_assets-recorded_example :
    discover_active_assets chain tokens wide_hex (record { state = 0; sent = [] })
    ≡ some (1 ∷ 2 ∷ [])
discover_active_assets-recorded_example =
    discover_active_assets-recorded wide_hex form units chain tokens
      (record { state = 0; sent = [] }) events refl
