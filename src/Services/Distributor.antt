-- ===== src/Services/Distributor.antt =====
-- src/profit_distributor.rs: the weekly settlement. `get_token_symbol` is of src/common/mod.rs, and the
-- amounts are constants of src/constants.rs.
pub mod Transfers
pub mod Overlap
use liq_ranger.Base.{
  ℕ, suc, ◌-◌, ◌*◌, ◌^◌, Bool, true, false, ltb, leb, ◌==◌, ◌||◌, if◌then◌else◌, Option, none, some,
  List, [], ◌∷◌, Result, ok, err,
}
use liq_ranger.Core.Identity.{HexCodec, Text, Address}
use liq_ranger.Watchlists.Cache.{Items, put_item}

pub data Transfer : Type 0 where
  refuel_gas : (amount : ℕ) → Transfer
  distribute_profits : (asset to : Address) → Transfer

pub data SettlementError : Type 0 where
  call_failed tx_failed symbol_failed query_failed : SettlementError

-- The wallet, the contract and the database, with a state of their own. `send` submits a transaction
-- and waits for its confirmations; it tells whether a receipt came back.
pub record Chain : Type 1 where
  pub State : Type 0
  pub get_balance : State → Option ℕ
  pub accumulated_profits : State → Address → Option ℕ
  pub send : State → Transfer → Bool × State
  pub token_symbol : State → Address → Option Text
  pub fetch_all : State → Option (List (Option Text))

-- The addresses of the tokens and of the receiver.
pub record Tokens : Type 0 where
  pub wpol : Address
  pub usdc : Address
  pub usdt : Address
  pub breet : Address
  pub aave_reserves : Items

abbrev pub gas_threshold : ℕ
gas_threshold = 10 * 10 ^ 18

abbrev pub refuel_amt : ℕ
refuel_amt = 100 * 10 ^ 18

module _ (tokens : Tokens) where
  open tokens use {wpol, usdc, usdt, breet, aave_reserves}

  abbrev pub profit_dist_assets : Items
  profit_dist_assets = put_item aave_reserves wpol

  unfoldable pub breet_address_for : Address → Address
  breet_address_for asset = if asset == usdc || asset == usdt then breet else 0

-- The assets of the rows; what does not read is left out.
module _ (hex : HexCodec) where
  abbrev add_parsed : Option Address → Items → Items
  add_parsed none assets = assets
  add_parsed (some a) assets = put_item assets a

  abbrev pub add_rows : List (Option Text) → Items → Items
  add_rows [] assets = assets
  add_rows (none ∷ rows) assets = add_rows rows assets
  add_rows (some t ∷ rows) assets = add_rows rows (add_parsed (hex.parse_address t) assets)

module _ (chain : Chain) where
  open chain use {State, get_balance, accumulated_profits, send, token_symbol, fetch_all}

  -- The state, and the transfers that were submitted, the newest first.
  pub record Progress : Type 0 where
    pub state : State
    pub sent : List Transfer

  abbrev pub Settled : Type 0
  Settled = Result SettlementError (Unit {0}) × Progress

  abbrev verdict : Bool → Result SettlementError (Unit {0})
  verdict true = ok tt
  verdict false = err tx_failed

  abbrev pub submit : Progress → Transfer → Settled
  submit p t =
      let (done, s) = send p.state t in (verdict done, record { state = s; sent = t ∷ p.sent })

  -- What a read that failed leads to, and what follows one that did not.
  abbrev pub with {ℓ} :
      {A : Type ℓ} → Option A → SettlementError → Progress → (A → Settled) → Settled
  with none e p rest = (err e, p)
  with (some a) e p rest = rest a

  abbrev refuel : Progress → ℕ → ℕ → Settled
  refuel p gas_balance accumulated_wpol =
      let needed = refuel_amt - gas_balance in
      if ltb accumulated_wpol needed
      then (ok tt, p)
      else if needed == 0
      then (ok tt, p)
      else submit p (refuel_gas needed)

  module _ (tokens : Tokens) where
    open tokens use {wpol}

    unfoldable pub ensure_gas_balance : Progress → Settled
    ensure_gas_balance p = with (get_balance p.state) call_failed p λ gas_balance.
        if leb gas_threshold gas_balance
        then (ok tt, p)
        else with (accumulated_profits p.state wpol) call_failed p
            λ accumulated_wpol. refuel p gas_balance accumulated_wpol

    abbrev distribute : Progress → Address → ℕ → Settled
    distribute p asset profit_amount =
        if profit_amount == 0
        then (ok tt, p)
        else if asset == wpol
        then (ok tt, p)
        else with (token_symbol p.state asset) symbol_failed p
            λ symbol. submit p (distribute_profits asset (breet_address_for tokens asset))

    unfoldable pub distribute_asset : Progress → Address → Settled
    unfolding breet_address_for
    distribute_asset p asset =
        with (accumulated_profits p.state asset) call_failed p
          λ profit_amount. distribute p asset profit_amount

    abbrev pub and_next : (Progress → Settled) → Settled → Settled
    and_next rest (ok done, p) = rest p
    and_next rest (err e, p) = (err e, p)

    -- The loop over the assets: the first error ends it.
    unfoldable pub distribute_each : List Address → Progress → Settled
    unfolding distribute_asset
    distribute_each [] p = (ok tt, p)
    distribute_each (asset ∷ assets) p =
        and_next (λ q. distribute_each assets q) (distribute_asset p asset)

    module _ (hex : HexCodec) where
      unfoldable pub discover_active_assets : Progress → Option Items
      discover_active_assets p = elim (fetch_all p.state) [
        | none ↦ none
        | some rows ↦ some (add_rows hex rows (profit_dist_assets tokens))
      ]

      unfoldable pub distribute_all_assets : Progress → Settled
      unfolding discover_active_assets distribute_each
      distribute_all_assets p =
          with (discover_active_assets p) query_failed p λ assets. distribute_each assets p

      unfoldable pub execute : Progress → Settled
      unfolding ensure_gas_balance distribute_all_assets
      execute p = and_next (λ q. distribute_all_assets q) (ensure_gas_balance p)

-- The cron job: `fired` by the schedule, `finished` when an execution returns.
pub data CronEvent : Type 0 where
  fired finished : CronEvent

-- The flag, and the number of executions under way.
pub record Cron : Type 0 where
  pub running : Bool
  pub active : ℕ

unfoldable pub on_cron : Cron → CronEvent → Cron
on_cron c fired = if c.running then c else record { running = true; active = suc c.active }
on_cron c finished = record { running = false; active = c.active - 1 }

unfoldable pub run_cron : Cron → List CronEvent → Cron
unfolding on_cron
run_cron c [] = c
run_cron c (e ∷ es) = run_cron (on_cron c e) es
