-- ===== src/Core/Health.antt =====
-- src/core/types.rs: the health check of a Morpho position.
use native.Mathlib.Nat.{mul-le-mul, mul-le-mul_right}
use liq_ranger.Base.{
  ◌-◌, Result-cases, inl, inr, ℕ, ◌*◌, ◌/◌, ◌^◌, ◌≤◌, ◌<◌, ◌≡◌, refl, ◌↔◌, Bool, true, leb, ok,
  ◌>>=◌, arith,
}
use liq_ranger.Base.Word.{Checked, mul, div}
use liq_ranger.Math.Morpho.{oracle_price_scale, wad, to_assets_up}
use liq_ranger.Math.Morpho.Shares.{to_assets_up_total}
use liq_ranger.Core.Types.{Market, Position}

-- `Position::is_healthy`
unfoldable pub is_healthy : Position → Market → ℕ → ℕ → Checked Bool
is_healthy position market lltv price = do
  product ← mul position.collateral price
  collateral_value ← div product oracle_price_scale
  scaled ← mul collateral_value lltv
  max_borrow ← div scaled wad
  borrowed_assets ←
      to_assets_up position.borrow_shares market.total_borrow_assets market.total_borrow_shares
  ok (leb borrowed_assets max_borrow)

-- What the collateral lets its owner borrow.
abbrev pub borrow_limit : Position → ℕ → ℕ → ℕ
borrow_limit position lltv price = position.collateral * price / oracle_price_scale * lltv / wad

-- Where the check returns, it compares the debt, rounded up, with the borrow limit.
pub is_healthy-eq-ok :
    (p : Position) (m : Market) (lltv price : ℕ) (b : Bool)
    → is_healthy p m lltv price ≡ ok b
    → (debt : ℕ) × (to_assets_up p.borrow_shares m.total_borrow_assets m.total_borrow_shares
        ≡ ok debt)
      × ((b ≡ true) ↔ (debt ≤ borrow_limit p lltv price))
unfolding is_healthy
is_healthy-eq-ok p m lltv price b e =
    elim (Result-cases (to_assets_up p.borrow_shares m.total_borrow_assets m.total_borrow_shares)) [
      | inl (d, f) ↦ (d, f, ((λ t. ground arith), (λ t. ground arith)))
      | inr (x, f) ↦ absurd (ground arith)
    ]

-- With totals of at most 127 bits, a price below 2 ^ 128 and a loan-to-value of at most one wad the
-- check returns.
pub is_healthy_total :
    (p : Position) (m : Market) (lltv price : ℕ)
    → p.collateral < 2 ^ 128
    → price < 2 ^ 128
    → lltv ≤ wad
    → p.borrow_shares < 2 ^ 127
    → m.total_borrow_assets < 2 ^ 127
    → m.total_borrow_shares < 2 ^ 127
    → (b : Bool) × (is_healthy p m lltv price ≡ ok b)
unfolding is_healthy
is_healthy_total p m lltv price c pr l s ta ts =
    let (debt, f) = to_assets_up_total _ _ _ s ta ts in
    let v = p.collateral * price / oracle_price_scale in
    let h : p.collateral * price ≤ (2 ^ 128 - 1) * (2 ^ 128 - 1) =
      mul-le-mul {n₂ = 2 ^ 128 - 1} {m₂ = 2 ^ 128 - 1} (omega arith) (omega arith) in
    let k : v * lltv ≤ 2 ^ 137 * wad = mul-le-mul {n₂ = 2 ^ 137} {m₂ = wad} (omega arith) l in
    (leb debt (v * lltv / wad), ground arith)

borrow_limit_mono :
    (p q : Position) (lltv price : ℕ)
    → p.collateral ≤ q.collateral
    → borrow_limit p lltv price ≤ borrow_limit q lltv price
borrow_limit_mono p q lltv price c =
    let h : p.collateral * price ≤ q.collateral * price = mul-le-mul_right price c in
    let v = p.collateral * price / oracle_price_scale in
    let w = q.collateral * price / oracle_price_scale in
    let k : v * lltv ≤ w * lltv = mul-le-mul_right lltv (omega arith) in omega arith

-- More collateral never makes a healthy position liquidatable, where the check returns at all.
pub is_healthy_mono :
    (p q : Position) (m : Market) (lltv price : ℕ) (b : Bool)
    → q.borrow_shares ≡ p.borrow_shares
    → p.collateral ≤ q.collateral
    → is_healthy p m lltv price ≡ ok true
    → is_healthy q m lltv price ≡ ok b
    → b ≡ true
is_healthy_mono p q m lltv price b s c e f =
    let (d, g, h) = is_healthy-eq-ok p m lltv price true e in
    let (d', g', h') = is_healthy-eq-ok q m lltv price b f in
    h'.1 (ground (arith, h.0 refl, borrow_limit_mono p q lltv price c))
