-- ===== src/Readers/Aave/Scan.antt =====
-- src/adapters/aave_protocol_adapter.rs: one scan of the watchlist.
use liq_ranger.Base.{
  ◌≡◌, inl, inr, refl, subst, true, false, ◌==◌, All, ok, err, arith, List, [], ◌∷◌, none,
  Bool-cases, map, ==_iff, ==_refl, sym, ◌∙◌,
}
use liq_ranger.Base.Word.{Checked}
use liq_ranger.Math.Aave.{Power}
use liq_ranger.Core.Identity.{HexCodec, Text, Address}
use liq_ranger.Core.Types.{BorrowerProfile}
use liq_ranger.Readers.Outcome.{Eval, skipped, panicked}
use liq_ranger.Readers.Aave.{
  Account, Tokens, unique_addresses, borrowers_of, evaluate_borrower, collect, evaluate_borrowers,
  fetch_liquidation_candidates,
}
use liq_ranger.Readers.Aave.Built.{build_profile-IsBuilt}
use liq_ranger.Readers.Aave.Sound.{
  IsSeizable, evaluate_borrower-IsEvaluated, evaluate_borrower-IsSeizable,
}
use liq_ranger.Watchlists.Cache.{has}

-- No address comes twice.
abbrev pub AllDifferent : List Address → Type 0
AllDifferent [] = Unit
AllDifferent (b ∷ bs) = (has bs b ≡ false) × AllDifferent bs

same_address : (bs : List Address) (b c : Address) → b ≡ c → has bs b ≡ true → has bs c ≡ true
same_address bs b c e h = subst (λ x. has bs x ≡ true) e h

has-unique_addresses : (bs : List Address) (b : Address) → has (unique_addresses bs) b ≡ has bs b
has-unique_addresses [] b = refl
has-unique_addresses (c ∷ bs) b = elim (Bool-cases (has bs c)) [
  | inl q ↦ elim (Bool-cases (b == c)) [
    | inr n ↦ rw (q, n) (has-unique_addresses bs b)
    | inl e ↦ rw (q, e) (has-unique_addresses bs b ∙ same_address bs c b (sym ((==_iff b c).0 e)) q)
  ]
  | inr q ↦ rw q (ground (arith, has-unique_addresses bs b))
]

unique_addresses-AllDifferent : (bs : List Address) → AllDifferent (unique_addresses bs)
unique_addresses-AllDifferent [] = tt
unique_addresses-AllDifferent (b ∷ bs) =
    ground (arith, unique_addresses-AllDifferent bs, has-unique_addresses bs b)

module _ (hex : HexCodec) (power : Power) (account : Account) (vdebt_tokens : Tokens) where
  abbrev IsFrom : List Address → BorrowerProfile → Type 0
  IsFrom bs p = (has bs p.address ≡ true) × IsSeizable hex account vdebt_tokens p

  abbrev Scanned : List Address → List BorrowerProfile → Type 0
  Scanned bs ps = All (IsFrom bs) ps × AllDifferent (map (λ p. p.address) ps)

  address_kept :
      (b : Address) (p : BorrowerProfile)
      → evaluate_borrower hex power account vdebt_tokens b none ≡ ok p
      → p.address ≡ b
  address_kept b p e =
      let s = evaluate_borrower-IsEvaluated hex power account vdebt_tokens b none p e in
      (build_profile-IsBuilt hex power account vdebt_tokens b s.hf _ s.reserve p s.built).address

  wider :
      (b : Address) (bs : List Address) (ps : List BorrowerProfile)
      → All (IsFrom bs) ps
      → All (IsFrom (b ∷ bs)) ps
  wider b bs [] a = tt
  wider b bs (p ∷ ps) a = ((ground (arith, a.0.0), a.0.1), wider b bs ps a.1)

  not_reported :
      (bs : List Address) (b : Address) (ps : List BorrowerProfile)
      → has bs b ≡ false
      → All (IsFrom bs) ps
      → has (map (λ p. p.address) ps) b ≡ false
  not_reported bs b [] h a = refl
  not_reported bs b (p ∷ ps) h a = elim (Bool-cases (b == p.address)) [
    | inr q ↦ rw q (not_reported bs b ps h a.1)
    | inl q ↦ let k = same_address bs _ b (sym ((==_iff b p.address).0 q)) a.0.0 in absurd (cc)
  ]

  collect-Scanned :
      (b : Address) (bs : List Address) (r : Eval BorrowerProfile)
      (rest : Checked (List BorrowerProfile)) (ps : List BorrowerProfile)
      → has bs b ≡ false
      → evaluate_borrower hex power account vdebt_tokens b none ≡ r
      → ((qs : List BorrowerProfile) → rest ≡ ok qs → Scanned bs qs)
      → collect hex power account vdebt_tokens r rest ≡ ok ps
      → Scanned (b ∷ bs) ps
  unfolding collect
  collect-Scanned b bs (ok p) (ok qs) ps c q ih e =
      let (a, d) = ih qs refl in
      let same = address_kept b p q in
      subst (λ l. Scanned (b ∷ bs) l) {x = p ∷ qs} (cc)
        (
          (
            (
              rw same (ground (arith, ==_refl b)),
              evaluate_borrower-IsSeizable hex power account vdebt_tokens b none p q,
            ),
            wider b bs qs a,
          ),
          (rw same (not_reported bs b qs c a), d),
        )
  collect-Scanned b bs (ok p) (err x) ps c q ih e = absurd (cc)
  collect-Scanned b bs (err skipped) rest ps c q ih e = (wider b bs ps (ih ps e).0, (ih ps e).1)
  collect-Scanned b bs (err (panicked x)) rest ps c q ih e = absurd (cc)

  evaluate_borrowers-Scanned :
      (bs : List Address) (ps : List BorrowerProfile)
      → AllDifferent bs
      → evaluate_borrowers hex power account vdebt_tokens bs ≡ ok ps
      → Scanned bs ps
  unfolding evaluate_borrowers
  evaluate_borrowers-Scanned [] ps d e = subst (λ l. Scanned [] l) {x = []} (cc) (tt, tt)
  evaluate_borrowers-Scanned (b ∷ bs) ps d e =
      collect-Scanned b bs (evaluate_borrower hex power account vdebt_tokens b none)
        (evaluate_borrowers hex power account vdebt_tokens bs) ps d.0 refl
        (λ qs q. evaluate_borrowers-Scanned bs qs d.1 q) e

  -- A reported profile: its borrower is among those of the identities, and its account is seizable.
  abbrev pub IsReported : List Text → BorrowerProfile → Type 0
  IsReported tracked p =
      (has (borrowers_of hex power account vdebt_tokens tracked) p.address ≡ true)
      × IsSeizable hex account vdebt_tokens p

  from_All :
      (tracked : List Text) (ps : List BorrowerProfile)
      → All (IsFrom (unique_addresses (borrowers_of hex power account vdebt_tokens tracked))) ps
      → All (IsReported tracked) ps
  from_All tracked [] a = tt
  from_All tracked (p ∷ ps) a = (
    (
      sym (has-unique_addresses (borrowers_of hex power account vdebt_tokens tracked) p.address)
          ∙ a.0.0,
      a.0.1,
    ),
    from_All tracked ps a.1,
  )

  -- Each profile of a scan stands for a seizable account of a borrower of the watchlist, and no
  -- borrower is reported twice.
  pub fetch-IsReported :
      (tracked : List Text) (profiles : List BorrowerProfile)
      → fetch_liquidation_candidates hex power account vdebt_tokens tracked ≡ ok profiles
      → All (IsReported tracked) profiles × AllDifferent (map (λ p. p.address) profiles)
  unfolding fetch_liquidation_candidates
  fetch-IsReported tracked profiles e =
      let bs = borrowers_of hex power account vdebt_tokens tracked in
      let (a, d) =
        evaluate_borrowers-Scanned (unique_addresses bs) profiles (unique_addresses-AllDifferent bs)
          e in
      (from_All tracked profiles a, d)
