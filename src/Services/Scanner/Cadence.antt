-- ===== src/Services/Scanner/Cadence.antt =====
-- src/core/services/protocol_scanner.rs: when scans start.
use liq_ranger.Base.{
  false, none, some, cons-ne_self, ℕ, ◌+◌, ◌≤◌, ◌≡◌, ◌↔◌, true, List, [], ◌∷◌, arith, inl, inr,
  Bool-cases,
}
use liq_ranger.Services.Scanner.{
  Event, shutdown, task_done, block, lagged, closed, Scanner, new, on_block, step, run,
  block_interval,
}

abbrev pub latest : List ℕ → ℕ
latest [] = 0
latest (b ∷ bs) = b

-- Each block is at least an interval above the one before it, and the first above 0.
abbrev pub Spaced : List ℕ → Type 0
Spaced [] = Unit
Spaced (b ∷ bs) = (latest bs + block_interval ≤ b) × Spaced bs

pub record Inv (s : Scanner) : Type 0 where
  pub spaced : Spaced s.started
  pub remembered : s.last_processed_block ≡ latest s.started
  pub single : s.in_flight ≤ 1
  pub drained : s.stopped ≡ true → s.in_flight ≡ 0

on_block-Inv : (s : Scanner) (n : ℕ) → s.stopped ≡ false → Inv s → Inv (on_block s n)
unfolding on_block
on_block-Inv s n r v = ground arith

step-Inv : (s : Scanner) (e : Event) → s.stopped ≡ false → Inv s → Inv (step s e)
unfolding step
step-Inv s shutdown r v = ground arith
step-Inv s task_done r v = ground arith
step-Inv s (block n) r v = on_block-Inv s n r v
step-Inv s (lagged none) r v = v
step-Inv s (lagged (some n)) r v = on_block-Inv s n r v
step-Inv s closed r v = ground arith

run-Inv : (s : Scanner) (es : List Event) → Inv s → Inv (run s es)
unfolding run
run-Inv s [] v = v
run-Inv s (e ∷ es) v = elim (Bool-cases s.stopped) [
  | inl h ↦ simp h v
  | inr h ↦ simp h (run-Inv (step s e) es (step-Inv s e h v))
]

-- After any events the scans so far started at blocks at least three apart, at most one is running,
-- and a stopped scanner has none running.
pub run-new-Inv : (es : List Event) → Inv (run new es)
unfolding new
run-new-Inv es = run-Inv new es (ground arith)

-- A block starts a scan exactly when no scan is running and the block is at least three above the
-- last one that started a scan.
pub step_block_starts :
    (s : Scanner) (n : ℕ)
    → ((step s (block n)).started ≡ n ∷ s.started)
      ↔ ((s.last_processed_block + block_interval ≤ n) × (s.in_flight ≡ 0))
unfolding step on_block
step_block_starts s n = (λ e. ground (arith, cons-ne_self n s.started), λ h. ground arith)
