-- ===== src/Readers/Aave/Built.antt =====
-- src/adapters/aave_protocol_adapter.rs: what a profile is built from.
use liq_ranger.Base.{
  ℕ, ◌<◌, ◌≡◌, inl, inr, refl, subst, true, some, List, [], ◌∷◌, map, ok, err, arith, Result-cases,
  Option-cases, Bool-cases,
}
use liq_ranger.Math.Aave.{
  Power, Debt, CollateralCandidate, Fallible, candidate, compute_debt_to_cover,
  select_collateral_candidate,
}
use liq_ranger.Math.Aave.Choice.{Among, select_collateral_candidate-Best}
use liq_ranger.Core.Identity.{HexCodec, Address, aave_v3, to_string_id}
use liq_ranger.Core.Types.{BorrowerProfile}
use liq_ranger.Readers.Outcome.{to_eval}
use liq_ranger.Readers.Aave.{
  UserReserve, Account, Tokens, is_collateral, collateral_positions, reserve_of, debt_of,
  build_profile,
}
use liq_ranger.Watchlists.Cache.{lookup}

pub to_eval-eq-ok : {A : Type 0} (r : Fallible A) (x : A) → to_eval r ≡ ok x → r ≡ ok x
to_eval-eq-ok (ok y) x e = ground arith
to_eval-eq-ok (err f) x e = ground arith

pub Among-map :
    {A B : Type 0} (f : A → B) (l : List A) (y : B)
    → Among y (map f l)
    → (x : A) × Among x l × (y ≡ f x)
Among-map f [] y m = absurd m
Among-map f (x ∷ l) y (inl e) = (x, inl refl, e)
Among-map f (x ∷ l) y (inr m) = let (z, n, e) = Among-map f l y m in (z, inr n, e)

pub Among-collateral :
    (l : List UserReserve) (r : UserReserve)
    → Among r (collateral_positions l)
    → Among r l × (is_collateral r ≡ true)
Among-collateral [] r m = absurd m
Among-collateral (s ∷ l) r m = elim (Bool-cases (is_collateral s)) [
  | inr q ↦ let (a, b) = Among-collateral l r (rw q at m) in (inr a, b)
  | inl q ↦ elim (rw q at m) [
    | inl e ↦ (inl e, rw e q)
    | inr n ↦ let (a, b) = Among-collateral l r n in (inr a, b)
  ]
]

module _ (power : Power) (account : Account) (borrower : Address) where
  -- The collateral that is chosen is one of the positions.
  pub chosen_from :
      (debt : Debt) (l : List UserReserve) (c : CollateralCandidate)
      → select_collateral_candidate power debt (map (reserve_of account borrower) l) ≡ ok c
      → (r : UserReserve) × Among r l
        × (candidate power debt (reserve_of account borrower r) ≡ ok (some c))
  chosen_from debt l c e =
      let ((s, m, q), best) =
        select_collateral_candidate-Best power debt (map (reserve_of account borrower) l) c e in
      let (r, n, same) = Among-map (reserve_of account borrower) l s m in
      (r, n, subst (λ x. candidate power debt x ≡ ok (some c)) same q)

module _ (hex : HexCodec) (power : Power) (account : Account) (vdebt_tokens : Tokens) where
  open account use {health_factor, user_reserves, balance_of, decimals}

  -- What a profile that was built has taken from the answers.
  pub record IsBuilt (borrower : Address) (hf : ℕ) (collaterals : List UserReserve)
      (reserve : Address) (profile : BorrowerProfile) : Type 0 where
    pub address : profile.address ≡ borrower
    pub debt_asset : profile.debt_asset ≡ reserve
    pub identity : profile.identity ≡ to_string_id hex (aave_v3 borrower reserve)
    pub v_debt : Address
    pub mapped : lookup reserve vdebt_tokens ≡ some v_debt
    pub debt : compute_debt_to_cover (balance_of v_debt borrower) hf ≡ ok profile.debt_to_cover
    pub debt_positive : 0 < profile.debt_to_cover
    pub chosen : CollateralCandidate
    pub is_chosen :
        select_collateral_candidate power
          (debt_of account borrower reserve profile.debt_to_cover)
          (map (reserve_of account borrower) collaterals)
        ≡ ok chosen
    pub asset : profile.collateral_asset ≡ chosen.asset
    pub seize : profile.seize_amount ≡ chosen.seize_amount

  pub build_profile-IsBuilt :
      (borrower : Address) (hf : ℕ) (collaterals : List UserReserve) (reserve : Address)
      (profile : BorrowerProfile)
      → build_profile hex power account vdebt_tokens borrower hf collaterals reserve ≡ ok profile
      → IsBuilt borrower hf collaterals reserve profile
  unfolding build_profile
  build_profile-IsBuilt borrower hf cs reserve profile e =
      elim (Option-cases (lookup reserve vdebt_tokens)) [
        | inl n ↦ absurd (ground arith)
        | inr (v, a) ↦
            elim (Result-cases (to_eval (compute_debt_to_cover (balance_of v borrower) hf))) [
              | inr n ↦ absurd (ground arith)
              | inl (d, b) ↦
                  elim (Result-cases (
                    to_eval (
                      select_collateral_candidate power (debt_of account borrower reserve d)
                        (map (reserve_of account borrower) cs)))) [
                          | inr n ↦ absurd (ground arith)
                          | inl (c, f) ↦ record {
                            address = ground arith;
                            debt_asset = ground arith;
                            identity = ground arith;
                            v_debt = v;
                            mapped = a;
                            debt = ground (arith, to_eval-eq-ok _ d b);
                            debt_positive = ground arith;
                            chosen = c;
                            is_chosen =
                                subst
                                  (λ x.
                                    select_collateral_candidate power
                                      (debt_of account borrower reserve x)
                                      (map (reserve_of account borrower) cs)
                                    ≡ ok c)
                                  {x = d} (ground arith) (to_eval-eq-ok _ c f);
                            asset = ground arith;
                            seize = ground arith;
                          }
                        ]
            ]
      ]
