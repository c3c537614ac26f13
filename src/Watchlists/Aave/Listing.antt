-- ===== src/Watchlists/Aave/Listing.antt =====
-- src/watchlists/aave_watchlist.rs: what the snapshot holds.
use liq_ranger.Base.{
  ℕ, ◌≡◌, refl, Bool, true, false, ◌&&◌, ◌||◌, List, [], ◌∷◌, ◌++◌, ok, Result, arith, inl, inr,
  Bool-cases, ◌==◌, ap, sym, length, length-append, map, ◌≢◌, ◌∙◌, ==_iff, ==_refl, subst, none,
  some, Option,
}
use liq_ranger.Core.Identity.{
  HexCodec, Text, Address, TrackerIdentity, aave_v3, to_string_id, from_str, text_eq, IdentityError,
}
use liq_ranger.Core.Identity.RoundTrip.{from_str-to_string_id}
use liq_ranger.Core.Identity.Layout.{text_eq_sound, text_eq_refl}
use liq_ranger.Readers.Morpho.{contains as is_listed}
use liq_ranger.Watchlists.Cache.{Items, lookup, IsKeyed}
use liq_ranger.Watchlists.Sled.{Sled}
use liq_ranger.Watchlists.Tracked.{WatchList}
use liq_ranger.Watchlists.Tracked.Synced.{lookup_same}
use liq_ranger.Watchlists.Tracked.Content.{NoEmpty}
use liq_ranger.Watchlists.Aave.{snapshot, unique_borrowers, listed, listing}

is_listed-append :
    (ss ts : List Text) (t : Text) → is_listed (ss ++ ts) t ≡ (is_listed ss t || is_listed ts t)
is_listed-append [] ts t = refl
is_listed-append (s ∷ ss) ts t = ground (arith, is_listed-append ss ts t)

abbrev read : TrackerIdentity → Result IdentityError TrackerIdentity
read id = ok id

-- The reserve that stands for a borrower.
abbrev pub stands_for : Option Items → Address → Bool
stands_for none r = false
stands_for (some []) r = false
stands_for (some (q ∷ set)) r = r == q

length-map : (m : List (ℕ × Items)) → length (map (λ e. e.0) m) ≡ length m
length-map [] = refl
length-map (e ∷ m) = omega (arith, length-map m)

module _ (hex : HexCodec) where
  abbrev pub text : Address → Address → Text
  text b r = to_string_id hex (aave_v3 b r)

  text_injective : (b c r q : Address) → text b r ≡ text c q → (b ≡ c) × (r ≡ q)
  text_injective b c r q e =
      let f : read (aave_v3 b r) ≡ read (aave_v3 c q) =
        sym (from_str-to_string_id hex (aave_v3 b r))
        ∙ ap (from_str hex) e
        ∙ from_str-to_string_id hex (aave_v3 c q) in
      (cc, cc)

  text_same : (b c r q : Address) → b ≡ c → r ≡ q → text b r ≡ text c q
  text_same b c r q e f = rw (e, f) refl

  pub text_eq-text : (b c r q : Address) → text_eq (text b r) (text c q) ≡ (b == c && r == q)
  text_eq-text b c r q = elim (Bool-cases (text_eq (text b r) (text c q))) [
    | inl h ↦
        let (e, f) = text_injective b c r q (text_eq_sound _ _ h) in rw h (ground (arith, e, f))
    | inr h ↦ elim (Bool-cases (b == c && r == q)) [
      | inr g ↦ h ∙ sym g
      | inl g ↦
          let e =
            text_same b c r q ((==_iff b c).0 (ground arith)) ((==_iff r q).0 (ground arith)) in
          let k = subst (λ t. text_eq (text b r) t ≡ true) e (text_eq_refl (text b r)) in
          absurd (cc)
    ]
  ]

  is_listed-listed :
      (c : Address) (set : Items) (b r : Address)
      → is_listed (listed hex c set) (text b r) ≡ (b == c && stands_for (some set) r)
  is_listed-listed c [] b r = ground arith
  is_listed-listed c (q ∷ set) b r = ground (arith, text_eq-text c b q r)

  stands_for_same :
      (b c : ℕ) (cache : List (ℕ × Items)) (r : ℕ)
      → (b == c) ≡ true
      → lookup c cache ≡ none
      → stands_for (lookup b cache) r ≡ false
  stands_for_same b c cache r e q = rw ((==_iff b c).0 e, q) refl

  is_listed-listing :
      (cache : List (ℕ × Items)) (b r : Address)
      → IsKeyed cache
      → is_listed (listing hex cache) (text b r) ≡ stands_for (lookup b cache) r
  is_listed-listing [] b r h = refl
  is_listed-listing ((c, set) ∷ cache) b r h =
      rw
        (
          is_listed-append (listed hex c set) (listing hex cache) (text b r),
          is_listed-listed c set b r,
          is_listed-listing cache b r h.1,
        )
        (ground (arith, stands_for_same b c cache r, h.0))

  length-listed : (c : Address) (set : Items) → set ≢ [] → length (listed hex c set) ≡ 1
  length-listed c [] h = absurd (h refl)
  length-listed c (x ∷ set) h = refl

  length-listing :
      (cache : List (ℕ × Items))
      → IsKeyed cache
      → ((k : ℕ) → lookup k cache ≢ some [])
      → length (listing hex cache) ≡ length cache
  length-listing [] h n = refl
  length-listing ((c, set) ∷ cache) h n =
      rw (length-append (listed hex c set) (listing hex cache)) (
        omega (
          arith,
          length-listed c set (λ e. n c (ground (arith, e, ==_refl c))),
          length-listing cache h.1 (λ k e. n k (ground (arith, e, h.0, lookup_same k c cache))),
        ))

module _ (hex : HexCodec) (sled : Sled) where
  -- An entry is in the snapshot, as its printed identity, exactly when its reserve is the one that
  -- stands for its borrower, if no borrower is listed twice.
  pub snapshot-stands_for :
      (w : WatchList sled) (b r : Address)
      → IsKeyed w.cache
      → is_listed (snapshot hex sled w) (to_string_id hex (aave_v3 b r))
        ≡ stands_for (lookup b w.cache) r
  unfolding snapshot
  snapshot-stands_for w b r h = is_listed-listing hex w.cache b r h

  -- Where no borrower is listed twice or with an empty set, the snapshot has one identity for each
  -- borrower.
  pub length-snapshot :
      (w : WatchList sled)
      → IsKeyed w.cache
      → NoEmpty sled w
      → length (snapshot hex sled w) ≡ length (unique_borrowers hex sled w)
  unfolding snapshot unique_borrowers
  length-snapshot w h n = length-listing hex w.cache h n ∙ sym (length-map w.cache)
