-- ===== src/Readers/Morpho/Panics.antt =====
-- src/adapters/morpho_protocol_adapter.rs: panics, and what they do to a scan.
use liq_ranger.Base.{
  sym, ℕ, ◌<◌, ◌≡◌, refl, true, false, ok, err, ltb, ◌*◌, List, [], ◌∷◌, arith, inl, inr,
  Result-cases, Bool-cases, subst,
}
use liq_ranger.Base.Word.{Panic, u256_mod, div_by_zero, mul_overflow}
use liq_ranger.Math.Morpho.{to_assets_down, to_assets_up, incentive_factor, mul_div_down, wmul_down}
use liq_ranger.Math.Morpho.Shares.{to_assets_up-to_assets_down}
use liq_ranger.Core.Identity.{HexCodec, Text, text_eq}
use liq_ranger.Core.Identity.Layout.{text_eq_sound}
use liq_ranger.Core.Types.{Position, BorrowerProfile}
use liq_ranger.Core.Health.{is_healthy}
use liq_ranger.Readers.Morpho.{
  MarketState, Chain, Sizing, panicked, skipped, Eval, debt_of, required_collateral, choose_mode,
  sizing, market_of, plan, contains, unique, evaluate_target, collect, evaluate_all,
  fetch_liquidation_candidates,
}

pub contains_kept :
    (ts : List Text) (t : Text) → contains ts t ≡ true → contains (unique ts) t ≡ true
contains_kept (s ∷ ts) t h = elim (Bool-cases (text_eq s t)) [
  | inr n ↦ ground (arith, contains_kept ts t)
  | inl e ↦ elim (Bool-cases (contains ts s)) [
    | inr n ↦ rw (n, e) refl
    | inl m ↦ rw m (contains_kept ts t (subst (λ x. contains ts x ≡ true) (text_eq_sound s t e) m))
  ]
]
contains_kept [] t h = h

mul_div_down_zero : (x y d : ℕ) → d ≡ 0 → (e : Panic) × (mul_div_down x y d ≡ err e)
unfolding mul_div_down
mul_div_down_zero x y d q = elim (Bool-cases (ltb (x * y) u256_mod)) [
  | inl h ↦ (div_by_zero, ground arith)
  | inr h ↦ (mul_overflow, ground arith)
]

-- At a price of zero no amount of collateral is the worth of a debt.
required_zero_price :
    (z : Sizing) (d : ℕ) → z.price ≡ 0 → (e : Panic) × (required_collateral z d ≡ err e)
unfolding required_collateral
required_zero_price z d q = elim (Result-cases (incentive_factor z.lltv)) [
  | inr (e, f) ↦ (e, ground arith)
  | inl (lif, f) ↦ elim (Result-cases (wmul_down d lif)) [
    | inr (e, g) ↦ (e, ground arith)
    | inl (bonus, g) ↦ let (e, k) = mul_div_down_zero bonus z.scale z.price q in (e, ground arith)
  ]
]

unhealthy_at_zero :
    (pos : Position) (state : MarketState) (lltv up : ℕ)
    → to_assets_up pos.borrow_shares state.total_borrow_assets state.total_borrow_shares ≡ ok up
    → 0 < up
    → is_healthy pos (market_of state) lltv 0 ≡ ok false
unfolding is_healthy
unhealthy_at_zero pos state lltv up u h = ground arith

module _ (hex : HexCodec) (chain : Chain) (scale : ℕ) where
  collect_panics :
      (r : Eval BorrowerProfile) (e : Panic)
      → (f : Panic) × (collect hex chain scale r (err e) ≡ err f)
  unfolding collect
  collect_panics (ok p) e = (e, refl)
  collect_panics (err skipped) e = (e, refl)
  collect_panics (err (panicked f)) e = (f, refl)

  all_panics :
      (ts : List Text) (t : Text) (e : Panic)
      → contains ts t ≡ true
      → evaluate_target hex chain scale t ≡ err (panicked e)
      → (f : Panic) × (evaluate_all hex chain scale ts ≡ err f)
  unfolding evaluate_all collect
  all_panics [] t e h q = absurd (cc)
  all_panics (s ∷ ts) t e h q = elim (Bool-cases (text_eq s t)) [
    | inl k ↦ (
      e,
      rw
          (subst (λ x. evaluate_target hex chain scale x ≡ err (panicked e))
            (sym (text_eq_sound s t k)) q)
          refl,
    )
    | inr k ↦
        let (f, r) = all_panics ts t e (ground arith) q in
        let (g, w) = collect_panics (evaluate_target hex chain scale s) f in (g, rw r w)
  ]

  -- One tracked position whose evaluation panics makes the whole scan panic: no profile comes back,
  -- of any other position either.
  pub fetch_panics :
      (tracked : List Text) (t : Text) (e : Panic)
      → contains tracked t ≡ true
      → evaluate_target hex chain scale t ≡ err (panicked e)
      → (f : Panic) × (fetch_liquidation_candidates hex chain scale tracked ≡ err f)
  unfolding fetch_liquidation_candidates
  fetch_panics tracked t e h q = all_panics (unique tracked) t e (contains_kept tracked t h) q

-- Where the oracle of a market reports zero, planning a position whose debt is positive and has both
-- roundings panics.
pub plan_zero_price :
    (pos : Position) (state : MarketState) (lltv scale down up : ℕ)
    → to_assets_down pos.borrow_shares state.total_borrow_assets state.total_borrow_shares ≡ ok down
    → to_assets_up pos.borrow_shares state.total_borrow_assets state.total_borrow_shares ≡ ok up
    → 0 < down
    → (e : Panic) × (plan pos state lltv scale 0 ≡ err (panicked e))
unfolding plan debt_of choose_mode
plan_zero_price pos state lltv scale down up d u h =
    let (e, r) = required_zero_price (sizing pos state lltv scale 0) down refl in
    let gap = to_assets_up-to_assets_down _ _ _ down up d u in
    let sick = unhealthy_at_zero pos state lltv up u (omega (arith, gap, h)) in
    (e, ground (arith, r, sick))
