-- ===== src/Services/Broadcast/Fees.antt =====
-- src/adapters/flash_liquidator_adapter.rs: what is sent.
use liq_ranger.Base.{
  sym, Bool-cases, ◌==◌, ==_iff, subst, true, false, ◌≢◌, ap, ◌∙◌, ℕ, suc, zero, ◌+◌, ◌*◌, ◌^◌,
  Option, none, ◌≤◌, ◌<◌, ◌≡◌, ◌⊎◌, inl, inr, refl, some, ok, arith, Option-cases, Result-cases,
}
use liq_ranger.Core.Identity.{Hash}
use liq_ranger.Core.Types.{LiquidationJob, LiquidationParams, to_params}
use liq_ranger.Core.Params.{IsParams, to_params-IsParams}
use liq_ranger.Services.Broadcast.{
  Broadcast, Transaction, Provider, or_default_fees, percent, extract_calldata, adjusted_fees,
  build_transaction, execute_liquidation, Receipt, request_failed, pending, mined, Verdict,
  confirmed, reverted, gave_up, timed_out, on_answer, poll,
}

percent-eq-ok :
    (n part k : ℕ) → percent n part ≡ ok k → (k * 100 ≤ n * part) × (n * part < k * 100 + 100)
percent-eq-ok n part k e = ground arith

module _ (provider : Provider) where
  open provider use {execute_flash_liquidation, estimate_eip1559_fees, send_transaction}

  adjusted_fees-eq-ok :
      (base_max base_priority max_fee priority : ℕ)
      → adjusted_fees provider (base_max, base_priority) ≡ ok (max_fee, priority)
      → (base_priority * 3 < priority * 2 + 2)
        × (priority * 2 ≤ base_priority * 3)
        × (base_max * 6 + priority * 5 < max_fee * 5 + 5)
        × (max_fee * 5 ≤ base_max * 6 + priority * 5)
  unfolding adjusted_fees
  adjusted_fees-eq-ok base_max base_priority max_fee priority e = ground arith

  -- The fees that the node estimates, or, if the estimate fails, 200 and 50 Gwei.
  abbrev pub IsEstimate : (base_max base_priority : ℕ) → Type 0
  IsEstimate base_max base_priority =
      (estimate_eip1559_fees ≡ some (base_max, base_priority))
      ⊎ ((estimate_eip1559_fees ≡ none) × (base_max ≡ 200 * 10 ^ 9) × (base_priority ≡ 50 * 10 ^ 9))

  or_default_fees-IsEstimate :
      (o : Option (ℕ × ℕ))
      → estimate_eip1559_fees ≡ o
      → IsEstimate (or_default_fees o).0 (or_default_fees o).1
  or_default_fees-IsEstimate none e = inr (e, refl, refl)
  or_default_fees-IsEstimate (some fees) e = inl e

  -- The transaction of a job: its call, and the estimates raised, each rounded down.
  pub record IsRaised (job : LiquidationJob) (gas_limit : ℕ) (tx : Transaction) : Type 0 where
    pub params : LiquidationParams
    pub described : IsParams job params
    pub call : execute_flash_liquidation job.debt_to_cover params ≡ some tx.call_data
    pub to : tx.to ≡ provider.address
    pub base_max : ℕ
    pub base_priority : ℕ
    pub estimated : IsEstimate base_max base_priority
    pub priority_low : base_priority * 3 < tx.max_priority_fee_per_gas * 2 + 2
    pub priority_high : tx.max_priority_fee_per_gas * 2 ≤ base_priority * 3
    pub max_fee_low : base_max * 6 + tx.max_priority_fee_per_gas * 5 < tx.max_fee_per_gas * 5 + 5
    pub max_fee_high : tx.max_fee_per_gas * 5 ≤ base_max * 6 + tx.max_priority_fee_per_gas * 5
    pub gas_low : gas_limit * 6 < tx.gas * 5 + 5
    pub gas_high : tx.gas * 5 ≤ gas_limit * 6

  build_transaction-IsRaised :
      (job : LiquidationJob) (gas_limit : ℕ) (tx : Transaction)
      → build_transaction provider job gas_limit ≡ ok tx
      → IsRaised job gas_limit tx
  unfolding build_transaction extract_calldata adjusted_fees
  build_transaction-IsRaised job gas_limit tx e =
      elim (Option-cases (execute_flash_liquidation job.debt_to_cover (to_params job))) [
        | inl n ↦ absurd (ground arith)
        | inr (bytes, c) ↦
            elim (Result-cases (adjusted_fees provider (or_default_fees estimate_eip1559_fees))) [
              | inr n ↦ absurd (ground arith)
              | inl ((max_fee, priority), f) ↦ elim (Result-cases (percent gas_limit 120)) [
                | inr n ↦ absurd (ground arith)
                | inl (gas, g) ↦
                    let bounds =
                      adjusted_fees-eq-ok (or_default_fees estimate_eip1559_fees).0
                        (or_default_fees estimate_eip1559_fees).1 max_fee priority f in
                    let gas_bounds = percent-eq-ok gas_limit 120 gas g in
                    let same_gas : tx.gas ≡ gas = ground arith in
                    let same_max : tx.max_fee_per_gas ≡ max_fee = ground arith in
                    let same_priority : tx.max_priority_fee_per_gas ≡ priority = ground arith in
                    record {
                      params = to_params job;
                      described = to_params-IsParams job;
                      call = ground arith;
                      base_max = (or_default_fees estimate_eip1559_fees).0;
                      base_priority = (or_default_fees estimate_eip1559_fees).1;
                      estimated = or_default_fees-IsEstimate estimate_eip1559_fees refl;
                      to = ground arith;
                      priority_low = omega (arith, bounds.0, same_priority);
                      priority_high = omega (arith, bounds.1, same_priority);
                      max_fee_low = omega (arith, bounds.2, same_priority, same_max);
                      max_fee_high = omega (arith, bounds.3, same_priority, same_max);
                      gas_low = omega (arith, gas_bounds, same_gas);
                      gas_high = omega (arith, gas_bounds, same_gas);
                    }
              ]
            ]
      ]

  abbrev sent : Transaction → Hash → Broadcast (Transaction × Hash)
  sent tx tx_hash = ok (tx, tx_hash)

  same_sent : (x y : Transaction) (m n : Hash) → sent x m ≡ sent y n → (x ≡ y) × (m ≡ n)
  same_sent x y m n e = (cc, cc)

  -- A transaction that is sent carries the contract's call for the debt, the assets and the swap of the
  -- job. Its priority fee is the estimate of the node raised by a half, its maximal fee is the estimate
  -- raised by a fifth, with that priority fee added, where 50 and 200 Gwei stand for an estimate that
  -- fails, and its gas is the limit raised by a fifth, each rounded down.
  pub execute_liquidation-IsRaised :
      (job : LiquidationJob) (gas_limit : ℕ) (tx : Transaction) (tx_hash : Hash)
      → execute_liquidation provider job gas_limit ≡ ok (tx, tx_hash)
      → IsRaised job gas_limit tx × (send_transaction tx ≡ some tx_hash)
  unfolding execute_liquidation
  execute_liquidation-IsRaised job gas_limit tx tx_hash e =
      elim (Result-cases (build_transaction provider job gas_limit)) [
        | inr n ↦ absurd (ground arith)
        | inl (built, b) ↦ elim (Option-cases (send_transaction built)) [
          | inl n ↦ absurd (ground arith)
          | inr (hash, s) ↦
              let (same, hashes) = same_sent built tx hash tx_hash (rw (b, s) at e) in
              (
                build_transaction-IsRaised job gas_limit tx (b ∙ ap ok same),
                ap send_transaction (sym same) ∙ s ∙ ap some hashes,
              )
        ]
      ]

-- The verdict is that of the first answer that is not `pending`, and without one the wait times out
-- when its seconds are over.
abbrev pub verdict_of : Receipt → Verdict
verdict_of request_failed = gave_up
verdict_of pending = timed_out
verdict_of (mined true) = confirmed
verdict_of (mined false) = reverted

abbrev pub IsFirst : ℕ → (ℕ → Receipt) → Verdict → Type 0
IsFirst ticks answer v =
    ((v ≡ timed_out) × ((k : ℕ) → k < ticks → answer k ≡ pending))
    ⊎ ((n : ℕ) × (n < ticks)
        × (answer n ≢ pending)
        × (v ≡ verdict_of (answer n))
        × ((k : ℕ) → n < k → k < ticks → answer k ≡ pending))

upto :
    (ticks : ℕ) (answer : ℕ → Receipt) (k : ℕ)
    → answer ticks ≡ pending
    → ((k : ℕ) → k < ticks → answer k ≡ pending)
    → k < suc ticks
    → answer k ≡ pending
upto ticks answer k p all l = elim (Bool-cases (k == ticks)) [
  | inl e ↦ subst (λ x. answer x ≡ pending) (sym ((==_iff k ticks).0 e)) p
  | inr e ↦ all k (ground (arith, e, l))
]

wait :
    (ticks : ℕ) (answer : ℕ → Receipt) (v : Verdict)
    → answer ticks ≡ pending
    → IsFirst ticks answer v
    → IsFirst (suc ticks) answer v
wait ticks answer v p (inl (q, all)) = inl (q, λ k l. upto ticks answer k p all l)
wait ticks answer v p (inr (n, l, f, q, all)) = inr (
  n,
  omega (arith, l),
  f,
  q,
  λ k m o. elim (Bool-cases (k == ticks)) [
    | inl e ↦ subst (λ x. answer x ≡ pending) (sym ((==_iff k ticks).0 e)) p
    | inr e ↦ all k m (ground (arith, e, o))
  ],
)

answered :
    (ticks : ℕ) (answer : ℕ → Receipt) (r : Receipt) (rest : Verdict)
    → answer ticks ≡ r
    → IsFirst ticks answer rest
    → IsFirst (suc ticks) answer (on_answer r rest)
answered ticks answer pending rest q ih = wait ticks answer rest q ih
answered ticks answer request_failed rest q ih =
    inr
      (ticks, omega arith, (λ e. cc), ap verdict_of (sym q), λ k l m. absurd (omega (arith, l, m)))
answered ticks answer (mined true) rest q ih =
    inr
      (ticks, omega arith, (λ e. cc), ap verdict_of (sym q), λ k l m. absurd (omega (arith, l, m)))
answered ticks answer (mined false) rest q ih =
    inr
      (ticks, omega arith, (λ e. cc), ap verdict_of (sym q), λ k l m. absurd (omega (arith, l, m)))

-- The wait for a receipt takes at most the given number of requests. Its verdict is that of the first
-- answer that says more than `pending`, and without such an answer it times out.
pub poll-IsFirst : (ticks : ℕ) (answer : ℕ → Receipt) → IsFirst ticks answer (poll ticks answer)
unfolding poll
poll-IsFirst zero answer = inl (refl, λ k l. absurd (omega (arith, l)))
poll-IsFirst (suc ticks) answer =
    answered ticks answer (answer ticks) (poll ticks answer) refl (poll-IsFirst ticks answer)
