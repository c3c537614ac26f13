-- ===== src/Simulation/Sandbox/Unparsed.antt =====
-- src/adapters/anvil_simulation_sandbox.rs: what becomes of the text of an error.
use liq_ranger.Base.{
  ℕ, ◌≡◌, inl, inr, refl, ◌&&◌, ◌==◌, none, some, List, [], ◌∷◌, err, arith, Bool-cases,
  Option-cases, ap,
}
use liq_ranger.Core.Identity.{Text}
use liq_ranger.Core.Types.{LiquidationJob, to_params}
use liq_ranger.Simulation.Engine.{Abi}
use liq_ranger.Simulation.Sandbox.{
  from_0x, first_part, trim_0x, Hex, Fork, revert_text, parse_revert_message, aborted,
  simulate_tx_stateless, simulate_liquidation,
}

-- A text that begins with 0x.
abbrev Begins : Text → Type 0
Begins t = (rest : Text) × (t ≡ b'0' ∷ b'x' ∷ rest)

from_0x-Begins : (t s : Text) → from_0x t ≡ some s → Begins s
from_0x-Begins [] s e = absurd (cc)
from_0x-Begins (c ∷ []) s e = absurd (cc)
from_0x-Begins (c ∷ d ∷ t) s e = elim (Bool-cases (c == b'0' && d == b'x')) [
  | inl q ↦ (t, (ground arith))
  | inr q ↦ from_0x-Begins (d ∷ t) s (rw q at e)
]

-- What is decoded is the digit before the x.
trim_0x-first_part : (s : Text) → Begins s → trim_0x (first_part s) ≡ b'0' ∷ []
trim_0x-first_part s (rest, e) = rw e refl

module _ (hex : Hex) (abi : Abi) where
  revert_text-none : (t : Text) → revert_text hex abi t ≡ none
  revert_text-none t = elim (Option-cases (from_0x t)) [
    | inl q ↦ rw q refl
    | inr (s, q) ↦
        rw (q, trim_0x-first_part s (from_0x-Begins t s q), hex.decode-odd (b'0' ∷ []) refl) refl
  ]

  parse_revert_message-same : (t : Text) → parse_revert_message hex abi t ≡ t
  unfolding parse_revert_message
  parse_revert_message-same t = rw (revert_text-none t) refl

  -- A job whose call fails is aborted with the whole text of the error: no revert data in it is
  -- decoded.
  pub simulate_liquidation-aborted :
      (fork : Fork) (block_number : ℕ) (job : LiquidationJob) (bytes : List ℕ) (text : Text)
      → fork.calldata job.debt_to_cover (to_params job) ≡ some bytes
      → fork.call bytes block_number ≡ err text
      → simulate_liquidation hex abi fork block_number job ≡ err (aborted text)
  unfolding simulate_liquidation simulate_tx_stateless
  simulate_liquidation-aborted fork block job bytes text c e =
      rw (simulate_liquidation, c, e) (ap (λ x. err (aborted x)) (parse_revert_message-same text))
