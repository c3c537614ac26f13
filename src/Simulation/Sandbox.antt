-- ===== src/Simulation/Sandbox.antt =====
-- src/adapters/anvil_simulation_sandbox.rs: the simulation by a call to a forked node.
pub mod Unparsed
use liq_ranger.Base.{
  ℕ, Bool, true, false, ◌&&◌, ◌||◌, leb, ◌==◌, if◌then◌else◌, Option, none, some, List, [], ◌∷◌,
  Result, ok, err, ◌>>=◌, or_fail, map_err, unwrap_or, ◌≡◌,
}
use liq_ranger.Base.Word.{Panic, as_u64}
use liq_ranger.Core.Identity.{Text}
use liq_ranger.Core.Types.{LiquidationJob, LiquidationParams, to_params}
use liq_ranger.Simulation.Engine.{Abi, error_selector}

-- `find("0x")`, as the text from there on.
abbrev pub from_0x : Text → Option Text
from_0x [] = none
from_0x (c ∷ []) = none
from_0x (c ∷ d ∷ t) =
    let rest = from_0x (d ∷ t) in if c == b'0' && d == b'x' then some (c ∷ d ∷ t) else rest

-- `is_ascii_hexdigit`
abbrev pub is_hexdigit : ℕ → Bool
is_hexdigit c =
    (leb b'0' c && leb c b'9') || (leb b'a' c && leb c b'f') || (leb b'A' c && leb c b'F')

-- The first part that `split` yields.
abbrev pub first_part : Text → Text
first_part [] = []
first_part (c ∷ t) = if is_hexdigit c then c ∷ first_part t else []

-- `trim_start_matches("0x")`
abbrev pub trim_0x : Text → Text
trim_0x [] = []
trim_0x (c ∷ []) = c ∷ []
trim_0x (c ∷ d ∷ t) = let rest = trim_0x t in if c == b'0' && d == b'x' then rest else c ∷ d ∷ t

abbrev pub is_odd : Text → Bool
is_odd [] = false
is_odd (c ∷ t) = if is_odd t then false else true

-- `hex::decode`: an odd number of digits is an error.
pub record Hex : Type 0 where
  pub decode : Text → Option (List ℕ)
  pub decode-odd : (t : Text) → is_odd t ≡ true → decode t ≡ none

-- The bytes after a prefix.
abbrev pub after_prefix : List ℕ → List ℕ → Option (List ℕ)
after_prefix [] bytes = some bytes
after_prefix (p ∷ ps) [] = none
after_prefix (p ∷ ps) (b ∷ bs) = if p == b then after_prefix ps bs else none

module _ (hex : Hex) (abi : Abi) where
  -- `?` on an Option
  abbrev then_try {ℓ} : {A : Type ℓ} → Option A → (A → Option Text) → Option Text
  then_try none f = none
  then_try (some a) f = f a

  abbrev pub revert_text : Text → Option Text
  revert_text err_str = then_try (from_0x err_str) λ raw_hex.
      then_try (hex.decode (trim_0x (first_part raw_hex)))
        λ bytes. then_try (after_prefix error_selector bytes) abi.decode_string

  unfoldable pub parse_revert_message : Text → Text
  parse_revert_message err_str = unwrap_or (revert_text err_str) err_str

pub record SimResult : Type 0 where
  pub success : Bool
  pub return_data : List ℕ
  pub gas_used : ℕ
  pub revert_reason : Option Text

-- The node of the fork, for a call of the keeper to the contract at a block, and the encoding of the
-- call; an error of a call comes with its text.
pub record Fork : Type 0 where
  pub calldata : ℕ → LiquidationParams → Option (List ℕ)
  pub call : List ℕ → (block_number : ℕ) → Result Text (List ℕ)
  pub estimate_gas : List ℕ → (block_number : ℕ) → Option ℕ

pub data SandboxError : Type 0 where
  no_calldata : SandboxError
  aborted : Text → SandboxError
  panicked : Panic → SandboxError

abbrev pub default_gas : ℕ
default_gas = 500_000

abbrev pub execution_reverted : Text
execution_reverted =
    b'E' ∷ b'x' ∷ b'e' ∷ b'c' ∷ b'u' ∷ b't' ∷ b'i' ∷ b'o' ∷ b'n' ∷ b' ' ∷ b'R' ∷ b'e' ∷ b'v' ∷ b'e'
    ∷ b'r' ∷ b't' ∷ b'e' ∷ b'd' ∷ []

module _ (hex : Hex) (abi : Abi) (fork : Fork) where
  abbrev pub result_of : List ℕ → ℕ → Result Text (List ℕ) → SimResult
  result_of bytes block (ok return_data) = record {
    success = true;
    return_data = return_data;
    gas_used = unwrap_or (fork.estimate_gas bytes block) default_gas;
    revert_reason = none;
  }
  result_of bytes block (err text) = record {
    success = false;
    return_data = [];
    gas_used = 0;
    revert_reason = some (parse_revert_message hex abi text);
  }

  unfoldable pub simulate_tx_stateless : List ℕ → (block_number : ℕ) → SimResult
  unfolding parse_revert_message
  simulate_tx_stateless bytes block = result_of bytes block (fork.call bytes block)

  abbrev pub gas_of : SimResult → Result SandboxError ℕ
  gas_of r =
      if r.success
      then map_err panicked (as_u64 r.gas_used)
      else err (aborted (unwrap_or r.revert_reason execution_reverted))

  unfoldable pub simulate_liquidation : ℕ → LiquidationJob → Result SandboxError ℕ
  unfolding simulate_tx_stateless
  simulate_liquidation block_number job = do
    bytes ← or_fail (fork.calldata job.debt_to_cover (to_params job)) no_calldata
    gas_of (simulate_tx_stateless bytes block_number)
