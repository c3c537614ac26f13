-- ===== src/Bootstrap/Executor.antt =====
-- src/core/services/bootstrap_executor.rs: how the outcomes of the bootstraps become one.
use liq_ranger.Base.{◌≡◌, ◌↔◌, refl, List, [], ◌∷◌, All, Result, ok, err, ◌>>=◌, arith}
use liq_ranger.Bootstrap.{BootstrapError}

-- What a spawned task ends with: the result of `run`, or a panic.
pub data Joined : Type 0 where
  finished : Result BootstrapError (Unit {0}) → Joined
  panicked : Joined

pub data ExecutorError : Type 0 where
  join_failed : ExecutorError
  failed_to_initialize : BootstrapError → ExecutorError

-- `try_join_all`: an error as soon as one task has panicked.
abbrev try_join_all : List Joined → Result ExecutorError (List (Result BootstrapError (Unit {0})))
try_join_all [] = ok []
try_join_all (panicked ∷ tasks) = err join_failed
try_join_all (finished r ∷ tasks) = do ok (r ∷ (← try_join_all tasks))

-- The first error of the results in the order of the bootstraps.
abbrev first_failure : List (Result BootstrapError (Unit {0})) → Result ExecutorError (Unit {0})
first_failure [] = ok tt
first_failure (ok u ∷ results) = first_failure results
first_failure (err e ∷ results) = err (failed_to_initialize e)

unfoldable pub run_all : List Joined → Result ExecutorError (Unit {0})
run_all tasks = do results ← try_join_all tasks; first_failure results

abbrev pub Succeeded : Joined → Type 0
Succeeded task = task ≡ finished (ok tt)

run_all-Succeeded : (tasks : List Joined) → run_all tasks ≡ ok tt → All Succeeded tasks
unfolding run_all
run_all-Succeeded [] e = tt
run_all-Succeeded (panicked ∷ tasks) e = absurd (cc)
run_all-Succeeded (finished (ok u) ∷ tasks) e = (refl, run_all-Succeeded tasks (ground arith))
run_all-Succeeded (finished (err x) ∷ tasks) e = absurd (ground arith)

run_all-ok : (tasks : List Joined) → All Succeeded tasks → run_all tasks ≡ ok tt
unfolding run_all
run_all-ok [] h = refl
run_all-ok (t ∷ tasks) h = rw h.0 (ground (arith, run_all-ok tasks h.1))

-- The start-up goes on exactly when every bootstrap has succeeded.
pub run_all-eq-ok : (tasks : List Joined) → (run_all tasks ≡ ok tt) ↔ All Succeeded tasks
run_all-eq-ok tasks = (run_all-Succeeded tasks, run_all-ok tasks)
