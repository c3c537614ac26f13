-- ===== src/Simulation/Snapshots/Called.antt =====
-- src/simulation/snapshot.rs: in which environments a call runs.
use liq_ranger.Base.{
  ℕ, ◌+◌, ◌*◌, ◌^◌, ◌≡◌, ◌⊎◌, inl, inr, refl, subst, Option, none, some, List, ok, arith,
  and_then-eq-ok, ok-eq-ok, unwrap_or,
}
use liq_ranger.Base.Word.{add, as_u64}
use liq_ranger.Core.Identity.{Address}
use liq_ranger.Simulation.Environment.{
  Block, BlockEnv, TxEnv, build_block_env, build_tx_env, default_base_fee, priority_fee,
}

-- The value, or `other` where there is none.
abbrev pub IsOr : Option ℕ → ℕ → ℕ → Type 0
IsOr o other n = (o ≡ some n) ⊎ ((o ≡ none) × (n ≡ other))

unwrap_or-IsOr : (o : Option ℕ) (other : ℕ) → IsOr o other (unwrap_or o other)
unwrap_or-IsOr none other = inr (refl, refl)
unwrap_or-IsOr (some n) other = inl refl

-- The environment of a block is what its header says, with zero for what it lacks.
pub record IsBlockEnv (header : Block) (b : BlockEnv) : Type 0 where
  pub number : IsOr header.number 0 b.number
  pub timestamp : b.timestamp ≡ header.timestamp
  pub coinbase : IsOr header.author 0 b.coinbase
  pub gas_limit : b.gas_limit ≡ header.gas_limit
  pub basefee : IsOr header.base_fee_per_gas 0 b.basefee
  pub random : ℕ
  pub prevrandao : b.prevrandao ≡ some random
  pub mixed : IsOr header.mix_hash 0 random

-- The environment of a call without coins: it has the gas of the block, and it pays 1.5 Gwei above the
-- base fee, or above 30 Gwei if there is none.
pub record IsTxEnv (source target : Address) (call_data : List ℕ) (header : Block) (t : TxEnv)
    : Type 0 where
  pub caller : t.caller ≡ source
  pub transact_to : t.transact_to ≡ target
  pub bytes : t.call_data ≡ call_data
  pub value : t.value ≡ 0
  pub gas_limit : t.gas_limit ≡ header.gas_limit
  pub base : ℕ
  pub base_fee : IsOr header.base_fee_per_gas (30 * 10 ^ 9) base
  pub gas_price : t.gas_price ≡ base + 1_500_000_000
  pub priority : t.gas_priority_fee ≡ some 1_500_000_000
  pub chain_id : t.chain_id ≡ none

as_u64-eq-ok : (n m : ℕ) → as_u64 n ≡ ok m → m ≡ n
as_u64-eq-ok n m e = ground arith

add-eq-ok : (a b c : ℕ) → add a b ≡ ok c → c ≡ a + b
add-eq-ok a b c e = ground arith

pub build_block_env-IsBlockEnv :
    (header : Block) (b : BlockEnv) → build_block_env header ≡ ok b → IsBlockEnv header b
unfolding build_block_env
build_block_env-IsBlockEnv header b e =
    let (timestamp, t, e₁) = and_then-eq-ok _ _ b e in
    let (gas_limit, g, e₂) = and_then-eq-ok _ _ b e₁ in
    let same = ok-eq-ok _ b e₂ in
    subst (IsBlockEnv header) same (record {
      number = unwrap_or-IsOr header.number 0;
      timestamp = as_u64-eq-ok header.timestamp timestamp t;
      coinbase = unwrap_or-IsOr header.author 0;
      gas_limit = as_u64-eq-ok header.gas_limit gas_limit g;
      basefee = unwrap_or-IsOr header.base_fee_per_gas 0;
      random = _;
      prevrandao = refl;
      mixed = unwrap_or-IsOr header.mix_hash 0;
    })

pub build_tx_env-IsTxEnv :
    (source target : Address) (call_data : List ℕ) (header : Block) (chain_id : ℕ) (t : TxEnv)
    → build_tx_env source target call_data 0 header chain_id ≡ ok t
    → IsTxEnv source target call_data header (record t { chain_id = none })
unfolding build_tx_env
build_tx_env-IsTxEnv source target call_data header chain_id t e =
    let (price, p, e₁) = and_then-eq-ok _ _ t e in
    let (gas_limit, g, e₂) = and_then-eq-ok _ _ t e₁ in
    let same = ok-eq-ok _ t e₂ in
    subst (λ x. IsTxEnv source target call_data header (record x { chain_id = none })) same
      (record {
        caller = refl;
        transact_to = refl;
        bytes = refl;
        value = refl;
        gas_limit = as_u64-eq-ok header.gas_limit gas_limit g;
        base = unwrap_or header.base_fee_per_gas default_base_fee;
        base_fee = unwrap_or-IsOr header.base_fee_per_gas default_base_fee;
        gas_price = add-eq-ok _ priority_fee price p;
        priority = refl;
        chain_id = refl;
      })
