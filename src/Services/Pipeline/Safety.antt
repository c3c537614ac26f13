-- ===== src/Services/Pipeline/Safety.antt =====
-- src/core/services/liquidation_engine.rs: the checks before a broadcast.
use liq_ranger.Base.{
  subst, if◌then◌else◌, ℕ, ◌≤◌, ◌≡◌, ◌⊎◌, inl, inr, refl, Option, none, some, List, [], ◌∷◌, arith,
  Bool-cases,
}
use liq_ranger.Core.Types.{LiquidationJob, BorrowerProfile, MarketQuote}
use liq_ranger.Services.Pipeline.{
  pure, Action, ◌>>=◌, ask_refresh, state_changed, Ports, Event, quoted, simulated, refreshed,
  broadcast, State, LiqPayload, TxPayload, process_payload, validate_profile,
  fetch_and_validate_quote, build_liquidation_job, simulate_job, jit_refresh_guard,
  try_revalidate_and_simulate, execute_liquidation, update_job,
}

-- Among the events is a successful simulation of just this job, with this gas.
abbrev pub Passed : LiquidationJob → ℕ → List Event → Type 0
Passed job gas [] = ⊥
Passed job gas (simulated b j (some g) ∷ es) = ((j ≡ job) × (g ≡ gas)) ⊎ Passed job gas es
Passed job gas (_ ∷ es) = Passed job gas es

-- No broadcast is among the events.
abbrev pub NoBroadcast : List Event → Type 0
NoBroadcast [] = Unit
NoBroadcast (broadcast j g r ∷ es) = ⊥
NoBroadcast (_ ∷ es) = NoBroadcast es

-- Each broadcast is of a job whose swap covers the debt and which the simulator has passed, and none
-- came before it.
abbrev pub IsSafe : List Event → Type 0
IsSafe [] = Unit
IsSafe (broadcast job gas r ∷ es) =
    (job.debt_to_cover ≤ job.min_amt_out) × Passed job gas es × NoBroadcast es
IsSafe (_ ∷ es) = IsSafe es

pub NoBroadcast-IsSafe : (es : List Event) → NoBroadcast es → IsSafe es
NoBroadcast-IsSafe [] h = tt
NoBroadcast-IsSafe (quoted s d a q ∷ es) h = NoBroadcast-IsSafe es h
NoBroadcast-IsSafe (simulated b j g ∷ es) h = NoBroadcast-IsSafe es h
NoBroadcast-IsSafe (refreshed t p ∷ es) h = NoBroadcast-IsSafe es h
NoBroadcast-IsSafe (broadcast j g r ∷ es) h = absurd h

-- To prove a property of a chain, prove it of both ends of its first step.
bind_rule {ℓ} :
    {W A B : Type 0} (Q : Option B × State W → Type ℓ) (m : Action W A) (f : A → Action W B)
    (s : State W)
    → ((t : State W) → m s ≡ (none, t) → Q (none, t))
    → ((a : A) (t : State W) → m s ≡ (some a, t) → Q (f a t))
    → Q ((m >>= f) s)
bind_rule {W} {A} {B} Q m f s stop go = by_result (m s) refl
  where
    by_result :
        (r : Option A × State W) → m s ≡ r → Q (elim r.0 [ none ↦ (none, r.1) | some a ↦ f a r.1 ])
    by_result (none, t) e = stop t e
    by_result (some a, t) e = go a t e

module _ {W : Type 0} (ports : Ports W) where
  -- A quote that comes back covers the debt.
  abbrev Covers : BorrowerProfile → Option MarketQuote × State W → Type 0
  Covers p (none, s) = NoBroadcast s.trace
  Covers p (some q, s) = NoBroadcast s.trace × (p.debt_to_cover ≤ q.min_amt_out)

  quote-Covers :
      (p : BorrowerProfile) (s : State W)
      → NoBroadcast s.trace
      → Covers p (fetch_and_validate_quote ports p s)
  unfolding fetch_and_validate_quote
  quote-Covers p s h = ground arith

  -- A job that may be broadcast.
  abbrev Ready : Option TxPayload × State W → Type 0
  Ready (none, s) = NoBroadcast s.trace
  Ready (some tx, s) =
      NoBroadcast s.trace
      × (tx.job.debt_to_cover ≤ tx.job.min_amt_out)
      × Passed tx.job tx.gas_used s.trace

  revalidate-Ready :
      (p : BorrowerProfile) (job : LiquidationJob) (s : State W)
      → NoBroadcast s.trace
      → Ready (try_revalidate_and_simulate ports p job s)
  unfolding try_revalidate_and_simulate update_job
  revalidate-Ready p job s h = ground arith

  abbrev after_refresh : LiquidationJob → ℕ → BorrowerProfile → Action W TxPayload
  after_refresh job gas q =
      if state_changed ports q job
      then try_revalidate_and_simulate ports q job
      else pure (record { job = job; gas_used = gas })

  guard-Ready :
      (job : LiquidationJob) (gas : ℕ) (s : State W)
      → NoBroadcast s.trace
      → job.debt_to_cover ≤ job.min_amt_out
      → Passed job gas s.trace
      → Ready (jit_refresh_guard ports job gas s)
  unfolding jit_refresh_guard
  guard-Ready job gas s h c p =
      bind_rule Ready (ask_refresh ports job.identity) (after_refresh job gas) s
        (λ t e. ground arith)
        (λ q t e. elim (Bool-cases (state_changed ports q job)) [
          | inl b ↦ rw b (revalidate-Ready q job t (ground arith))
          | inr b ↦ rw b (ground arith)
        ])

  abbrev Safe : Option (Unit {0}) × State W → Type 0
  Safe (r, s) = IsSafe s.trace

  execute-Safe :
      (tx : TxPayload) (s : State W)
      → Ready (some tx, s)
      → Safe (execute_liquidation ports tx.job tx.gas_used s)
  unfolding execute_liquidation
  execute-Safe tx s h = ground arith

  abbrev after_simulation : LiquidationJob → ℕ → Action W (Unit {0})
  after_simulation job gas =
      jit_refresh_guard ports job gas >>= λ tx. execute_liquidation ports tx.job tx.gas_used

  after_simulation-Safe :
      (job : LiquidationJob) (gas : ℕ) (s : State W)
      → Ready (some (record { job = job; gas_used = gas }), s)
      → Safe (after_simulation job gas s)
  after_simulation-Safe job gas s (h, c, p) =
      let ready = guard-Ready job gas s h c p in
      bind_rule Safe (jit_refresh_guard ports job gas)
        (λ tx. execute_liquidation ports tx.job tx.gas_used) s
        (λ t e. NoBroadcast-IsSafe t.trace (subst Ready e ready))
        (λ tx t e. execute-Safe tx t (subst Ready e ready))

  abbrev after_quote : LiqPayload → MarketQuote → Action W (Unit {0})
  after_quote payload quote =
      let job = build_liquidation_job payload.profile quote in
      simulate_job ports payload.block_number job >>= after_simulation job

  after_quote-Safe :
      (payload : LiqPayload) (q : MarketQuote) (s : State W)
      → Covers payload.profile (some q, s)
      → Safe (after_quote payload q s)
  unfolding simulate_job
  after_quote-Safe payload q s h =
      let job = build_liquidation_job payload.profile q in
      bind_rule Safe (simulate_job ports payload.block_number job) (after_simulation job) s
        (λ t e. ground (arith, NoBroadcast-IsSafe s.trace h.0))
        (λ gas t e. after_simulation-Safe job gas t (unfold build_liquidation_job in ground arith))

  abbrev after_validation : LiqPayload → Action W (Unit {0})
  after_validation payload = fetch_and_validate_quote ports payload.profile >>= after_quote payload

  after_validation-Safe :
      (payload : LiqPayload) (s : State W) → NoBroadcast s.trace → Safe (after_validation payload s)
  after_validation-Safe payload s h =
      let covers = quote-Covers payload.profile s h in
      bind_rule Safe (fetch_and_validate_quote ports payload.profile) (after_quote payload) s
        (λ t e. NoBroadcast-IsSafe t.trace (subst (Covers payload.profile) e covers))
        (λ q t e. after_quote-Safe payload q t (subst (Covers payload.profile) e covers))

  -- Whatever the ports answer, one payload leads to at most one broadcast, and then the swap's
  -- guaranteed output covers the debt and the simulator has passed that very job with that gas.
  pub process_payload-IsSafe :
      (payload : LiqPayload) (world : W)
      → IsSafe (process_payload ports payload (record { world = world; trace = [] })).1.trace
  unfolding process_payload
  process_payload-IsSafe payload world = elim (Bool-cases (validate_profile payload.profile)) [
    | inl v ↦ rw v (after_validation-Safe payload (record { world = world; trace = [] }) tt)
    | inr v ↦ rw v tt
  ]
