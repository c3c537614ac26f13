-- ===== src/Readers/Morpho/Sound.antt =====
-- src/adapters/morpho_protocol_adapter.rs: a profile, and the position that it stands for.
use liq_ranger.Base.{
  ℕ, ◌≤◌, ◌<◌, ◌≡◌, ◌⊎◌, inl, inr, refl, false, some, ok, err, arith, Result, to_option,
  Result-cases, Option-cases,
}
use liq_ranger.Math.Morpho.{to_assets_down, seized_assets_from_repaid_shares}
use liq_ranger.Core.Identity.{
  HexCodec, Text, Address, Hash, TrackerIdentity, aave_v3, morpho_blue, compound3, IdentityError,
  from_str,
}
use liq_ranger.Core.Types.{LiquidationMode, Position, BorrowerProfile}
use liq_ranger.Core.Health.{is_healthy}
use liq_ranger.Readers.Morpho.{
  MarketState, Chain, Sizing, debt_of, required_collateral, repay_mode, choose_mode,
  collateral_for_swap, repaid_of, seized_of, Plan, sizing, market_of, plan, evaluate,
  evaluate_target, evaluate_parsed, MarketParams,
}

-- The debt is the borrower's shares as assets, rounded down, and it is not zero.
debt_of-eq-ok :
    (z : Sizing) (d : ℕ)
    → debt_of z ≡ ok d
    → (to_assets_down z.borrow_shares z.total_assets z.total_shares ≡ ok d) × (0 < d)
unfolding debt_of
debt_of-eq-ok z d e = ground arith

-- Both computations of the collateral that a full repayment seizes agree.
seized-required :
    (z : Sizing) (d : ℕ)
    → to_assets_down z.borrow_shares z.total_assets z.total_shares ≡ ok d
    → seized_assets_from_repaid_shares z.borrow_shares z.total_assets z.total_shares z.lltv z.scale
        z.price
      ≡ required_collateral z d
unfolding required_collateral seized_assets_from_repaid_shares
seized-required z d e = rw e

-- The swapped collateral is there, and exactly one of the two amounts that Morpho takes is not zero.
abbrev pub Fits : Sizing → LiquidationMode → Type 0
Fits z m =
    (collateral_for_swap m ≤ z.collateral)
    × (((repaid_of m ≡ z.borrow_shares) × (seized_of m ≡ 0))
        ⊎ ((repaid_of m ≡ 0) × (seized_of m ≡ z.collateral)))

choose_mode-Fits :
    (z : Sizing) (d : ℕ) (m : LiquidationMode)
    → to_assets_down z.borrow_shares z.total_assets z.total_shares ≡ ok d
    → choose_mode z d ≡ ok m
    → Fits z m
unfolding choose_mode repay_mode
choose_mode-Fits z d m e f = elim (Result-cases (required_collateral z d)) [
  | inl (r, g) ↦ ground (arith, seized-required z d e)
  | inr (x, g) ↦ absurd (ground arith)
]

plan-eq-ok :
    (pos : Position) (st : MarketState) (lltv scale price : ℕ) (p : Plan)
    → plan pos st lltv scale price ≡ ok p
    → (is_healthy pos (market_of st) lltv price ≡ ok false)
      × (to_assets_down pos.borrow_shares st.total_borrow_assets st.total_borrow_shares
          ≡ ok p.debt_assets)
      × (0 < p.debt_assets)
      × (0 < collateral_for_swap p.mode)
      × Fits (sizing pos st lltv scale price) p.mode
unfolding plan
plan-eq-ok pos st lltv scale price p e =
    elim (Result-cases (is_healthy pos (market_of st) lltv price)) [
      | inr (x, h) ↦ absurd (ground arith)
      | inl (h, eh) ↦ elim (Result-cases (debt_of (sizing pos st lltv scale price))) [
        | inr (x, d) ↦ absurd (ground arith)
        | inl (d, ed) ↦ elim (Result-cases (choose_mode (sizing pos st lltv scale price) d)) [
          | inr (x, m) ↦ absurd (ground arith)
          | inl (m, em) ↦
              let fits = choose_mode-Fits _ d m (debt_of-eq-ok _ d ed).0 em in
              ground (arith, debt_of-eq-ok (sizing pos st lltv scale price) d ed, fits)
        ]
      ]
    ]

-- The chain's answers on which the profile rests.
pub record IsLiquidatable (hex : HexCodec) (chain : Chain) (scale : ℕ) (identity : Text)
    (profile : BorrowerProfile) : Type 0 where
  pub market_id : Hash
  pub pos : Position
  pub state : MarketState
  pub params : MarketParams
  pub quoted : ℕ
  pub parsed : from_str hex identity ≡ ok (morpho_blue market_id profile.address)
  pub held : chain.position market_id profile.address ≡ some pos
  pub market : chain.market market_id ≡ some state
  pub terms : chain.id_to_market_params market_id ≡ some params
  pub price : chain.price params.oracle ≡ some quoted
  pub unhealthy : is_healthy pos (market_of state) params.lltv quoted ≡ ok false
  pub debt :
      to_assets_down pos.borrow_shares state.total_borrow_assets state.total_borrow_shares
      ≡ ok profile.debt_to_cover
  pub debt_positive : 0 < profile.debt_to_cover
  pub seize_positive : 0 < profile.seize_amount
  pub seize_covered : profile.seize_amount ≤ pos.collateral
  pub one_amount :
      ((profile.repaid_shares ≡ some pos.borrow_shares) × (profile.seized_assets ≡ some 0))
      ⊎ ((profile.repaid_shares ≡ some 0) × (profile.seized_assets ≡ some pos.collateral))
  pub identity_kept : profile.identity ≡ identity

module _ (hex : HexCodec) (chain : Chain) (scale : ℕ) where
  open chain use {position, market as state_of, id_to_market_params, price as price_of, decimals}

  evaluate-IsLiquidatable :
      (identity : Text) (market_id : Hash) (borrower : Address) (profile : BorrowerProfile)
      → from_str hex identity ≡ ok (morpho_blue market_id borrower)
      → evaluate hex chain scale identity market_id borrower ≡ ok profile
      → IsLiquidatable hex chain scale identity profile
  unfolding evaluate
  evaluate-IsLiquidatable identity market_id borrower profile q e =
      elim (Option-cases (position market_id borrower)) [
        | inl n ↦ absurd (ground arith)
        | inr (pos, a) ↦ elim (Option-cases (state_of market_id)) [
          | inl n ↦ absurd (ground arith)
          | inr (st, b) ↦ elim (Option-cases (id_to_market_params market_id)) [
            | inl n ↦ absurd (ground arith)
            | inr (ps, c) ↦ elim (Option-cases (price_of ps.oracle)) [
              | inl n ↦ absurd (ground arith)
              | inr (pr, d) ↦ elim (Result-cases (plan pos st ps.lltv scale pr)) [
                | inr n ↦ absurd (ground arith)
                | inl (p, f) ↦
                    let facts = plan-eq-ok pos st ps.lltv scale pr p f in
                    record {
                      market_id = market_id;
                      pos = pos;
                      state = st;
                      params = ps;
                      quoted = pr;
                      parsed = ground arith;
                      held = ground arith;
                      market = b;
                      terms = c;
                      price = d;
                      unhealthy = facts.0;
                      debt = ground arith;
                      debt_positive = ground arith;
                      seize_positive = ground arith;
                      seize_covered = ground arith;
                      one_amount = ground arith;
                      identity_kept = ground arith;
                    }
              ]
            ]
          ]
        ]
      ]

  parsed-IsLiquidatable :
      (identity : Text) (r : Result IdentityError TrackerIdentity) (profile : BorrowerProfile)
      → from_str hex identity ≡ r
      → evaluate_parsed hex chain scale identity (to_option r) ≡ ok profile
      → IsLiquidatable hex chain scale identity profile
  unfolding evaluate_parsed
  parsed-IsLiquidatable identity (ok (morpho_blue m b)) profile q e =
      evaluate-IsLiquidatable identity m b profile q e
  parsed-IsLiquidatable identity (ok (aave_v3 b r)) profile q e = cc
  parsed-IsLiquidatable identity (ok (compound3 b)) profile q e = cc
  parsed-IsLiquidatable identity (err x) profile q e = cc

  -- A profile stands for a position that the chain reports as unhealthy: its debt is positive, the
  -- collateral that it swaps is positive and no more than the position holds, and of the two
  -- amounts that Morpho takes one is the whole position's and the other is zero.
  pub evaluate_target-IsLiquidatable :
      (identity : Text) (profile : BorrowerProfile)
      → evaluate_target hex chain scale identity ≡ ok profile
      → IsLiquidatable hex chain scale identity profile
  unfolding evaluate_target
  evaluate_target-IsLiquidatable identity profile e =
      parsed-IsLiquidatable identity (from_str hex identity) profile refl e
