-- ===== src/Math/Aave/Choice.antt =====
-- src/adapters/helpers/aave_math_helpers.rs: which collateral is chosen.
use liq_ranger.Base.{
  ℕ, ◌≤◌, ◌<◌, ◌≡◌, ◌⊎◌, inl, inr, refl, Option, none, some, List, [], ◌∷◌, All, ok, err, arith,
  Result-cases, Option-cases, subst, Bool-cases, ltb,
}
use liq_ranger.Math.Aave.{
  Fallible, panicked, CollateralCandidate, Reserve, Debt, Power, candidate, put, keep,
  sorted_candidates, first_of, select_collateral_candidate, liquidation_bonus_bps, value_candidate,
}
use liq_ranger.Base.Word.{Checked}

abbrev pub offered : Fallible (Option CollateralCandidate) → ℕ
offered (ok (some c)) = c.usd_value
offered (ok none) = 0
offered (err e) = 0

abbrev pub Among : {A : Type 0} → A → List A → Type 0
Among r [] = ⊥
Among r (s ∷ rs) = (r ≡ s) ⊎ Among r rs

-- All candidates are worth at most `n`.
abbrev Bounded : ℕ → List CollateralCandidate → Type 0
Bounded n = All λ c. c.usd_value ≤ n

module _ (power : Power) (debt : Debt) where
  -- The first candidate is that of one of the reserves, and no reserve offers more.
  abbrev pub Best : List Reserve → List CollateralCandidate → Type 0
  Best rs [] = All (λ r. offered (candidate power debt r) ≡ 0) rs
  Best rs (c ∷ cs) =
      ((r : Reserve) × Among r rs × (candidate power debt r ≡ ok (some c)))
      × All (λ r. offered (candidate power debt r) ≤ c.usd_value) rs

  weaken :
      (rs : List Reserve) (m n : ℕ)
      → m ≤ n
      → All (λ r. offered (candidate power debt r) ≤ m) rs
      → All (λ r. offered (candidate power debt r) ≤ n) rs
  weaken [] m n h a = tt
  weaken (r ∷ rs) m n h a = (ground (arith, a.0), weaken rs m n h a.1)

  zeros :
      (rs : List Reserve) (n : ℕ)
      → All (λ r. offered (candidate power debt r) ≡ 0) rs
      → All (λ r. offered (candidate power debt r) ≤ n) rs
  zeros [] n a = tt
  zeros (r ∷ rs) n a = (ground (arith, a.0), zeros rs n a.1)

  put-Best :
      (r : Reserve) (rs : List Reserve) (c : CollateralCandidate) (cs : List CollateralCandidate)
      → candidate power debt r ≡ ok (some c)
      → Best rs cs
      → Best (r ∷ rs) (put power c cs)
  put-Best r rs c [] q b = ((r, inl refl, q), (ground arith, zeros rs c.usd_value b))
  put-Best r rs c (d ∷ ds) q ((s, a, e), b) = elim (Bool-cases (ltb c.usd_value d.usd_value)) [
    | inl h ↦ rw h (((s, inr a, e), (ground arith, b)))
    | inr h ↦
        rw h
          (((r, inl refl, q), (ground arith, weaken rs d.usd_value c.usd_value (ground arith) b)))
  ]

  skip-Best :
      (r : Reserve) (rs : List Reserve) (cs : List CollateralCandidate)
      → offered (candidate power debt r) ≡ 0
      → Best rs cs
      → Best (r ∷ rs) cs
  skip-Best r rs [] q b = (q, b)
  skip-Best r rs (c ∷ cs) q ((s, a, e), b) = ((s, inr a, e), (ground arith, b))

  keep-Best :
      (r : Reserve) (rs : List Reserve) (o : Fallible (Option CollateralCandidate))
      (rest : Checked (List CollateralCandidate)) (cs : List CollateralCandidate)
      → candidate power debt r ≡ o
      → ((ds : List CollateralCandidate) → rest ≡ ok ds → Best rs ds)
      → keep power o rest ≡ ok cs
      → Best (r ∷ rs) cs
  unfolding keep
  keep-Best r rs (ok (some c)) (ok ds) cs q ih e =
      subst (Best (r ∷ rs)) {x = put power c ds} (cc) (put-Best r rs c ds q (ih ds refl))
  keep-Best r rs (ok (some c)) (err x) cs q ih e = absurd (cc)
  keep-Best r rs (ok none) rest cs q ih e = skip-Best r rs cs (ground arith) (ih cs e)
  keep-Best r rs (err (panicked x)) rest cs q ih e = absurd (cc)
  keep-Best r rs (err _) rest cs q ih e = skip-Best r rs cs (ground arith) (ih cs e)

  sorted-Best :
      (rs : List Reserve) (cs : List CollateralCandidate)
      → sorted_candidates power debt rs ≡ ok cs
      → Best rs cs
  unfolding sorted_candidates
  sorted-Best [] cs e = subst (Best []) {x = []} (cc) tt
  sorted-Best (r ∷ rs) cs e =
      keep-Best r rs (candidate power debt r) (sorted_candidates power debt rs) cs refl
        (λ ds q. sorted-Best rs ds q) e

  -- The collateral that is chosen is what one of the reserves offers, and none offers a higher value.
  pub select_collateral_candidate-Best :
      (rs : List Reserve) (c : CollateralCandidate)
      → select_collateral_candidate power debt rs ≡ ok c
      → ((r : Reserve) × Among r rs × (candidate power debt r ≡ ok (some c)))
        × All (λ r. offered (candidate power debt r) ≤ c.usd_value) rs
  unfolding select_collateral_candidate first_of
  select_collateral_candidate-Best rs c e = elim (Result-cases (sorted_candidates power debt rs)) [
    | inr (x, q) ↦ absurd (ground arith)
    | inl ([], q) ↦ absurd (ground arith)
    | inl (d ∷ ds, q) ↦
        subst (λ x. Best rs (x ∷ ds)) {x = d} (ground arith) (sorted-Best rs (d ∷ ds) q)
  ]

  -- What a reserve offers is more than zero and no more than the borrower's balance, and its bonus is
  -- between 100% and 200%.
  pub candidate-eq-ok :
      (r : Reserve) (c : CollateralCandidate)
      → candidate power debt r ≡ ok (some c)
      → (balance : ℕ) × (r.balance ≡ some balance)
        × (0 < c.seize_amount)
        × (c.seize_amount ≤ balance)
        × (10_000 ≤ c.liquidation_bonus_bps)
        × (c.liquidation_bonus_bps ≤ 20_000)
  unfolding candidate value_candidate liquidation_bonus_bps
  candidate-eq-ok r c e = elim (Option-cases r.balance) [
    | inl q ↦ absurd (ground arith)
    | inr (b, q) ↦ (b, q, ground arith, ground arith, ground arith, ground arith)
  ]

  -- A reserve offers its own asset.
  pub candidate-asset :
      (r : Reserve) (c : CollateralCandidate)
      → candidate power debt r ≡ ok (some c)
      → c.asset ≡ r.asset
  unfolding candidate value_candidate liquidation_bonus_bps
  candidate-asset r c e = ground arith
