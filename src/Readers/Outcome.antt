-- ===== src/Readers/Outcome.antt =====
-- src/adapters/morpho_protocol_adapter.rs and aave_protocol_adapter.rs: how an evaluation ends, and the
-- set of identities that a scan goes through.
use liq_ranger.Base.{
  Bool, false, ◌||◌, if◌then◌else◌, List, [], ◌∷◌, Option, Result, ok, err, or_fail, map_err,
}
use liq_ranger.Base.Word.{Panic, Checked}
use liq_ranger.Core.Identity.{Text, text_eq}
use liq_ranger.Math.Aave.{Failure, Fallible}

-- Why no profile comes back: the function returned `None`, or a computation panicked.
pub data Stop : Type 0 where
  skipped : Stop
  panicked : Panic → Stop

abbrev pub Eval : Type 0 → Type 0
Eval A = Result Stop A

abbrev pub ask : {A : Type 0} → Option A → Eval A
ask o = or_fail o skipped

abbrev pub run : {A : Type 0} → Checked A → Eval A
run c = map_err panicked c

-- An error of the Aave computations skips the borrower, and a panic does not.
abbrev pub to_eval : {A : Type 0} → Fallible A → Eval A
to_eval (ok value) = ok value
to_eval (err (Failure.panicked e)) = err (panicked e)
to_eval (err _) = err skipped

-- `HashSet::from_iter`: each identity once.
abbrev pub contains : List Text → Text → Bool
contains [] t = false
contains (s ∷ ss) t = text_eq s t || contains ss t

abbrev pub unique : List Text → List Text
unique [] = []
unique (s ∷ ss) = if contains ss s then unique ss else s ∷ unique ss
