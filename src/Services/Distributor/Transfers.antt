-- ===== src/Services/Distributor/Transfers.antt =====
-- src/profit_distributor.rs: which transfers an execution submits.
use liq_ranger.Base.{
  ℕ, ◌+◌, ◌-◌, ◌≤◌, ◌<◌, ◌≡◌, ◌≢◌, ◌⊎◌, ==_iff, refl, inl, inr, ltb, leb, ◌==◌, [], ◌∷◌, All, ok,
  err, some, arith, Option-cases, Bool-cases, ◌*◌, ◌^◌,
}
use liq_ranger.Core.Identity.{HexCodec, Address}
use liq_ranger.Watchlists.Cache.{Items}
use liq_ranger.Services.Distributor.{
  Transfer, refuel_gas, distribute_profits, Chain, Tokens, gas_threshold, refuel_amt,
  breet_address_for, Progress, Settled, refuel, ensure_gas_balance, distribute_asset, and_next,
  distribute_each, discover_active_assets, distribute_all_assets, execute,
}

module _ (chain : Chain) (tokens : Tokens) where
  open chain use {State, get_balance, accumulated_profits}
  open tokens use {wpol, usdc, usdt, breet}

  -- The profits in the two stablecoins go to the receiver of the configuration; those in any other
  -- asset go to the zero address.
  abbrev pub IsReceiver : (asset to : Address) → Type 0
  IsReceiver asset to =
      (((asset ≡ usdc) ⊎ (asset ≡ usdt)) × (to ≡ breet))
      ⊎ ((asset ≢ usdc) × (asset ≢ usdt) × (to ≡ 0))

  breet_address_for-IsReceiver :
      (asset : Address) → IsReceiver asset (breet_address_for tokens asset)
  unfolding breet_address_for
  breet_address_for-IsReceiver asset = elim (Bool-cases (asset == usdc)) [
    | inl u ↦ rw u (inl (inl ((==_iff asset usdc).0 u), refl))
    | inr u ↦ elim (Bool-cases (asset == usdt)) [
      | inl t ↦ rw (u, t) (inl (inr ((==_iff asset usdt).0 t), refl))
      | inr t ↦ rw (u, t) (inr ((λ e. ground (arith, u, e)), (λ e. ground (arith, t, e)), refl))
    ]
  ]

  -- A transfer that the rules allow, with the state in which the amounts were read.
  pub data IsAllowed : Transfer → Type 0 where
    tops_up :
        (s : State) (gas_balance accumulated amount : ℕ)
        → get_balance s ≡ some gas_balance
        → accumulated_profits s wpol ≡ some accumulated
        → gas_balance < 10 * 10 ^ 18
        → amount + gas_balance ≡ 100 * 10 ^ 18
        → amount ≤ accumulated
        → IsAllowed (refuel_gas amount)
    pays_out :
        (s : State) (asset to : Address) (profit : ℕ)
        → accumulated_profits s asset ≡ some profit
        → 0 < profit
        → asset ≢ wpol
        → IsReceiver asset to
        → IsAllowed (distribute_profits asset to)

  abbrev pub AllAllowed : Progress chain → Type 0
  AllAllowed p = All IsAllowed p.sent

  refuel-AllAllowed :
      (p : Progress chain) (gas_balance accumulated : ℕ)
      → get_balance p.state ≡ some gas_balance
      → accumulated_profits p.state wpol ≡ some accumulated
      → gas_balance < gas_threshold
      → AllAllowed p
      → AllAllowed (refuel chain p gas_balance accumulated).1
  refuel-AllAllowed p g a q r l h = elim (Bool-cases (ltb a (refuel_amt - g))) [
    | inl e ↦ rw e h
    | inr e ↦ elim (Bool-cases (refuel_amt - g == 0)) [
      | inl f ↦ rw (e, f) h
      | inr f ↦
          rw (e, f)
            ((tops_up p.state g a (refuel_amt - g) q r l (omega (arith, l)) (ground (arith, e)), h))
    ]
  ]

  ensure_gas_balance-AllAllowed :
      (p : Progress chain) → AllAllowed p → AllAllowed (ensure_gas_balance chain tokens p).1
  unfolding ensure_gas_balance
  ensure_gas_balance-AllAllowed p h = elim (Option-cases (get_balance p.state)) [
    | inl q ↦ rw q h
    | inr (g, q) ↦ elim (Bool-cases (leb gas_threshold g)) [
      | inl l ↦ rw (q, l) h
      | inr l ↦ elim (Option-cases (accumulated_profits p.state wpol)) [
        | inl r ↦ rw (q, l, r) h
        | inr (a, r) ↦ rw (q, l, r) (refuel-AllAllowed p g a q r (ground (arith, l)) h)
      ]
    ]
  ]

  distribute_asset-AllAllowed :
      (p : Progress chain) (asset : Address)
      → AllAllowed p
      → AllAllowed (distribute_asset chain tokens p asset).1
  unfolding distribute_asset
  distribute_asset-AllAllowed p asset h = elim (Option-cases (accumulated_profits p.state asset)) [
    | inl q ↦ rw q h
    | inr (n, q) ↦ elim (Bool-cases (n == 0)) [
      | inl z ↦ rw (q, z) h
      | inr z ↦ elim (Bool-cases (asset == wpol)) [
        | inl w ↦ rw (q, z, w) h
        | inr w ↦ elim (Option-cases (chain.token_symbol p.state asset)) [
          | inl s ↦ rw (q, z, w, s) h
          | inr (t, s) ↦
              rw (q, z, w, s)
                ((
                  pays_out p.state asset (breet_address_for tokens asset) n q (ground (arith, z))
                      (λ e. ground (arith, w, e)) (breet_address_for-IsReceiver asset),
                  h,
                ))
        ]
      ]
    ]
  ]

  next-AllAllowed :
      (rest : Progress chain → Settled chain) (s : Settled chain)
      → ((p : Progress chain) → AllAllowed p → AllAllowed (rest p).1)
      → AllAllowed s.1
      → AllAllowed (and_next chain tokens rest s).1
  next-AllAllowed rest (ok done, p) f h = f p h
  next-AllAllowed rest (err e, p) f h = h

  distribute_each-AllAllowed :
      (assets : Items) (p : Progress chain)
      → AllAllowed p
      → AllAllowed (distribute_each chain tokens assets p).1
  unfolding distribute_each
  distribute_each-AllAllowed [] p h = h
  distribute_each-AllAllowed (a ∷ others) p h =
      next-AllAllowed (λ q. distribute_each chain tokens others q)
        (distribute_asset chain tokens p a) (λ q k. distribute_each-AllAllowed others q k)
        (distribute_asset-AllAllowed p a h)

  distribute_all_assets-AllAllowed :
      (hex : HexCodec) (p : Progress chain)
      → AllAllowed p
      → AllAllowed (distribute_all_assets chain tokens hex p).1
  unfolding distribute_all_assets
  distribute_all_assets-AllAllowed hex p h =
      elim (Option-cases (discover_active_assets chain tokens hex p)) [
        | inl q ↦ rw q h
        | inr (assets, q) ↦ rw q (distribute_each-AllAllowed assets p h)
      ]

  -- Whatever the chain answers, an execution submits allowed transfers only. A refuel happens below
  -- a balance of 10 whole coins, brings it to 100, and takes no more than the contract has in WPOL; a distribution is of an asset other than WPOL with a positive profit, to the receiver of
  -- the configuration if the asset is USDC or USDT, and otherwise to the zero address.
  pub execute-AllAllowed :
      (hex : HexCodec) (p : Progress chain)
      → AllAllowed p
      → AllAllowed (execute chain tokens hex p).1
  unfolding execute
  execute-AllAllowed hex p h =
      next-AllAllowed (λ q. distribute_all_assets chain tokens hex q)
        (ensure_gas_balance chain tokens p) (λ q k. distribute_all_assets-AllAllowed hex q k)
        (ensure_gas_balance-AllAllowed p h)
