-- ===== src/Readers/Morpho/Scan.antt =====
-- src/adapters/morpho_protocol_adapter.rs: one scan of the watchlist.
use liq_ranger.Base.{
  ◌≡◌, inl, inr, refl, sym, subst, true, false, All, ok, err, arith, List, [], ◌∷◌, Bool-cases, map,
  ℕ,
}
use liq_ranger.Base.Word.{Checked}
use liq_ranger.Core.Identity.{HexCodec, Text, text_eq}
use liq_ranger.Core.Identity.Layout.{text_eq_sound, text_eq_refl}
use liq_ranger.Core.Types.{BorrowerProfile}
use liq_ranger.Readers.Morpho.{
  Chain, skipped, panicked, Eval, contains, unique, evaluate_target, collect, evaluate_all,
  fetch_liquidation_candidates,
}
use liq_ranger.Readers.Morpho.Sound.{IsLiquidatable, evaluate_target-IsLiquidatable}

-- No identity comes twice.
abbrev pub Distinct : List Text → Type 0
Distinct [] = Unit
Distinct (t ∷ ts) = (contains ts t ≡ false) × Distinct ts

contains-unique :
    (ts : List Text) (t : Text) → contains ts t ≡ false → contains (unique ts) t ≡ false
contains-unique [] t h = refl
contains-unique (s ∷ ts) t h = ground (arith, contains-unique ts t)

unique-contains : (ts : List Text) (t : Text) → contains (unique ts) t ≡ true → contains ts t ≡ true
unique-contains [] t h = h
unique-contains (s ∷ ts) t h = ground (arith, unique-contains ts t)

unique-Distinct : (ts : List Text) → Distinct (unique ts)
unique-Distinct [] = tt
unique-Distinct (t ∷ ts) = ground (arith, unique-Distinct ts, contains-unique ts t)

abbrev identities : List BorrowerProfile → List Text
identities = map λ p. p.identity

-- What is not among the identities scanned is not among those reported.
contains-identities :
    (ts : List Text) (t : Text) (ps : List BorrowerProfile)
    → contains ts t ≡ false
    → All (λ p. contains ts p.identity ≡ true) ps
    → contains (identities ps) t ≡ false
contains-identities ts t [] h a = refl
contains-identities ts t (p ∷ ps) h a = elim (Bool-cases (text_eq p.identity t)) [
  | inl e ↦
      let q = subst (λ x. contains ts x ≡ true) (text_eq_sound p.identity t e) a.0 in absurd (cc)
  | inr e ↦ ground (arith, contains-identities ts t ps h a.1)
]

module _ (hex : HexCodec) (chain : Chain) (scale : ℕ) where
  abbrev pub Reported : List Text → BorrowerProfile → Type 0
  Reported ts p = (contains ts p.identity ≡ true) × IsLiquidatable hex chain scale p.identity p

  Reported-tail :
      (t : Text) (ts : List Text) (ps : List BorrowerProfile)
      → All (Reported ts) ps
      → All (Reported (t ∷ ts)) ps
  Reported-tail t ts [] a = tt
  Reported-tail t ts (p ∷ ps) a = ((ground arith, a.0.1), Reported-tail t ts ps a.1)

  tracked-All :
      (ts : List Text) (ps : List BorrowerProfile)
      → All (Reported ts) ps
      → All (λ p. contains ts p.identity ≡ true) ps
  tracked-All ts [] a = tt
  tracked-All ts (p ∷ ps) a = (a.0.0, tracked-All ts ps a.1)

  Sound : List Text → List BorrowerProfile → Type 0
  Sound ts ps = All (Reported ts) ps × Distinct (identities ps)

  -- A new profile in front: its identity is the text just evaluated, which the rest does not hold.
  front-Sound :
      (t : Text) (ts : List Text) (p : BorrowerProfile) (ps : List BorrowerProfile)
      → contains ts t ≡ false
      → IsLiquidatable hex chain scale t p
      → Sound ts ps
      → Sound (t ∷ ts) (p ∷ ps)
  unfolding Sound
  front-Sound t ts p ps c l (a, d) =
      let same = l.identity_kept in
      (
        (
          (
            ground (arith, text_eq_refl t),
            subst (λ x. IsLiquidatable hex chain scale x p) (sym same) l,
          ),
          Reported-tail t ts ps a,
        ),
        (
          subst (λ x. contains (identities ps) x ≡ false) (sym same)
              (contains-identities ts t ps c (tracked-All ts ps a)),
          d,
        ),
      )

  collect-Sound :
      (t : Text) (ts : List Text) (r : Eval BorrowerProfile) (rest : Checked (List BorrowerProfile))
      (ps : List BorrowerProfile)
      → contains ts t ≡ false
      → evaluate_target hex chain scale t ≡ r
      → ((qs : List BorrowerProfile) → rest ≡ ok qs → Sound ts qs)
      → collect hex chain scale r rest ≡ ok ps
      → Sound (t ∷ ts) ps
  unfolding collect Sound
  collect-Sound t ts (ok p) (ok qs) ps c q ih e =
      subst (λ l. Sound (t ∷ ts) l) {x = p ∷ qs} (cc)
        (front-Sound t ts p qs c (evaluate_target-IsLiquidatable hex chain scale t p q)
          (ih qs refl))
  collect-Sound t ts (ok p) (err x) ps c q ih e = absurd (cc)
  collect-Sound t ts (err skipped) rest ps c q ih e =
      (Reported-tail t ts ps (ih ps e).0, (ih ps e).1)
  collect-Sound t ts (err (panicked x)) rest ps c q ih e = absurd (cc)

  evaluate_all-Sound :
      (ts : List Text) (ps : List BorrowerProfile)
      → Distinct ts
      → evaluate_all hex chain scale ts ≡ ok ps
      → Sound ts ps
  unfolding evaluate_all Sound
  evaluate_all-Sound [] ps d e = subst (λ l. Sound [] l) {x = []} (cc) (tt, tt)
  evaluate_all-Sound (t ∷ ts) ps d e =
      collect-Sound t ts (evaluate_target hex chain scale t) (evaluate_all hex chain scale ts) ps
        d.0 refl (λ qs q. evaluate_all-Sound ts qs d.1 q) e

  from_unique :
      (ts : List Text) (ps : List BorrowerProfile)
      → All (Reported (unique ts)) ps
      → All (Reported ts) ps
  from_unique ts [] a = tt
  from_unique ts (p ∷ ps) a = ((unique-contains ts p.identity a.0.0, a.0.1), from_unique ts ps a.1)

  -- Each profile of a scan is liquidatable under an identity of the watchlist, and no identity is
  -- reported twice.
  pub fetch-Reported :
      (tracked : List Text) (profiles : List BorrowerProfile)
      → fetch_liquidation_candidates hex chain scale tracked ≡ ok profiles
      → All (Reported tracked) profiles × Distinct (map (λ p. p.identity) profiles)
  unfolding fetch_liquidation_candidates Sound
  fetch-Reported tracked profiles e =
      let (a, d) = evaluate_all-Sound (unique tracked) profiles (unique-Distinct tracked) e in
      (from_unique tracked profiles a, d)
