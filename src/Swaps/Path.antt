-- ===== src/Swaps/Path.antt =====
-- src/adapters/uniswap_v3_adapter.rs: `encode_v3_path`, the bytes of a route over several pools.
pub mod RoundTrip
use liq_ranger.Base.{
  ℕ, suc, zero, ◌+◌, ◌/◌, ◌%◌, ◌^◌, ◌==◌, length, List, [], ◌∷◌, ◌++◌, ok, ◌>>◌, guard,
}
use liq_ranger.Base.Word.{Checked, assertion_failed}
use liq_ranger.Core.Identity.{Address}

-- The bytes of a number, the highest first.
abbrev pub be_bytes : (width n : ℕ) → List ℕ
be_bytes zero n = []
be_bytes (suc width) n = n / 256 ^ width % 256 ∷ be_bytes width n

-- `as_bytes` of an address, and the lower three of the four bytes of a fee.
abbrev pub as_bytes : Address → List ℕ
as_bytes token = be_bytes 20 token

abbrev pub fee_bytes : ℕ → List ℕ
fee_bytes fee = be_bytes 3 fee

abbrev pub packed : List Address → List ℕ → List ℕ
packed [] fees = []
packed (token ∷ tokens) [] = as_bytes token
packed (token ∷ tokens) (fee ∷ fees) = as_bytes token ++ (fee_bytes fee ++ packed tokens fees)

unfoldable pub encode_v3_path : List Address → List ℕ → Checked (List ℕ)
encode_v3_path tokens fees = do
  guard (length tokens == length fees + 1) assertion_failed
  ok (packed tokens fees)
