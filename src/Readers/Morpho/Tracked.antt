-- ===== src/Readers/Morpho/Tracked.antt =====
-- src/adapters/morpho_protocol_adapter.rs: a scan of the snapshot of a watchlist.
use liq_ranger.Base.{
  ◌≡◌, ap, sym, ◌∙◌, subst, true, All, ok, List, [], ◌∷◌, ◌++◌, ℕ, inl, inr, Bool-cases, Result,
}
use liq_ranger.Core.Identity.{
  HexCodec, Text, Address, Hash, TrackerIdentity, IdentityError, morpho_blue, to_string_id,
  from_str, text_eq,
}
use liq_ranger.Core.Identity.RoundTrip.{from_str-to_string_id}
use liq_ranger.Core.Identity.Layout.{text_eq_sound}
use liq_ranger.Core.Types.{BorrowerProfile}
use liq_ranger.Readers.Morpho.{Chain, contains as is_listed, fetch_liquidation_candidates}
use liq_ranger.Readers.Morpho.Scan.{Reported, fetch-Reported}
use liq_ranger.Watchlists.Cache.{Items, IsKeyed}
use liq_ranger.Watchlists.Sled.{Sled}
use liq_ranger.Watchlists.Tracked.{WatchList, contains}
use liq_ranger.Watchlists.Morpho.{listed, listing, snapshot}
use liq_ranger.Watchlists.Morpho.Entries.{contains_printed}
use liq_ranger.Watchlists.Morpho.Listing.{snapshot-contains}

abbrev IsPrinted : HexCodec → Text → Type 0
IsPrinted hex t = (m : Hash) × (b : Address) × (t ≡ to_string_id hex (morpho_blue m b))

module _ (hex : HexCodec) where
  listed-IsPrinted :
      (b : Address) (set : Items) (rest : List Text) (t : Text)
      → (is_listed rest t ≡ true → IsPrinted hex t)
      → is_listed (listed hex b set ++ rest) t ≡ true
      → IsPrinted hex t
  listed-IsPrinted b [] rest t ih h = ih h
  listed-IsPrinted b (m ∷ set) rest t ih h =
      elim (Bool-cases (text_eq (to_string_id hex (morpho_blue m b)) t)) [
        | inl e ↦ (m, b, sym (text_eq_sound _ t e))
        | inr e ↦ listed-IsPrinted b set rest t ih (rw e at h)
      ]

  listing-IsPrinted :
      (cache : List (ℕ × Items)) (t : Text)
      → is_listed (listing hex cache) t ≡ true
      → IsPrinted hex t
  listing-IsPrinted [] t h = absurd (cc)
  listing-IsPrinted ((b, set) ∷ cache) t h =
      listed-IsPrinted b set (listing hex cache) t (λ k. listing-IsPrinted cache t k) h

  abbrev parsed : TrackerIdentity → Result IdentityError TrackerIdentity
  parsed identity = ok identity

  same_position :
      (m n : Hash) (b c : Address)
      → parsed (morpho_blue m b) ≡ parsed (morpho_blue n c)
      → (m ≡ n) × (b ≡ c)
  same_position m n b c e = (cc, cc)

module _ (hex : HexCodec) (sled : Sled) (chain : Chain) (scale : ℕ) (w : WatchList sled) where
  -- A reported profile, and the tracked position that it is about.
  abbrev pub IsTracked : BorrowerProfile → Type 0
  IsTracked p =
      (m : Hash) × (from_str hex p.identity ≡ ok (morpho_blue m p.address))
      × (contains sled w p.address m ≡ true)

  Reported-IsTracked :
      (p : BorrowerProfile)
      → IsKeyed w.cache
      → Reported hex chain scale (snapshot hex sled w) p
      → IsTracked p
  unfolding snapshot
  Reported-IsTracked p k (h, l) =
      let (m, b, e) = listing-IsPrinted hex w.cache p.identity h in
      let (f, g) =
        same_position hex l.market_id m p.address b
          (sym l.parsed ∙ ap (from_str hex) e ∙ from_str-to_string_id hex (morpho_blue m b)) in
      let t = subst (λ x. is_listed (snapshot hex sled w) x ≡ true) e h in
      let c =
        sym (contains_printed hex sled w m b) ∙ sym (snapshot-contains hex sled w m b k) ∙ t in
      (
        l.market_id,
        l.parsed,
        subst (λ x. contains sled w p.address x ≡ true) (sym f)
            (subst (λ x. contains sled w x m ≡ true) (sym g) c),
      )

  All-IsTracked :
      (ps : List BorrowerProfile)
      → IsKeyed w.cache
      → All (Reported hex chain scale (snapshot hex sled w)) ps
      → All IsTracked ps
  All-IsTracked [] k a = tt
  All-IsTracked (p ∷ ps) k a = (Reported-IsTracked p k a.0, All-IsTracked ps k a.1)

  -- A scan of the snapshot of a list that has no borrower twice reports tracked positions only.
  pub fetch-snapshot-IsTracked :
      (profiles : List BorrowerProfile)
      → IsKeyed w.cache
      → fetch_liquidation_candidates hex chain scale (snapshot hex sled w) ≡ ok profiles
      → All IsTracked profiles
  fetch-snapshot-IsTracked profiles k e =
      All-IsTracked profiles k (fetch-Reported hex chain scale (snapshot hex sled w) profiles e).0
