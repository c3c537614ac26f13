-- ===== src/Watchlists/Morpho/Listing.antt =====
-- src/watchlists/morpho_watchlist.rs: what the snapshot holds.
use liq_ranger.Base.{
  ℕ, ◌≡◌, refl, true, false, ◌&&◌, ◌||◌, List, [], ◌∷◌, ◌++◌, ok, Result, arith, inl, inr,
  Bool-cases, ◌==◌, ap, sym, ◌∙◌, ==_iff, subst, none,
}
use liq_ranger.Core.Identity.{
  HexCodec, Text, Address, Hash, TrackerIdentity, morpho_blue, to_string_id, from_str, text_eq,
  IdentityError,
}
use liq_ranger.Core.Identity.RoundTrip.{from_str-to_string_id}
use liq_ranger.Core.Identity.Layout.{text_eq_sound, text_eq_refl}
use liq_ranger.Readers.Morpho.{contains as is_listed}
use liq_ranger.Watchlists.Cache.{Items, has, lookup, IsKeyed}
use liq_ranger.Watchlists.Sled.{Sled}
use liq_ranger.Watchlists.Tracked.{WatchList}
use liq_ranger.Watchlists.Tracked.Content.{contains-member, member}
use liq_ranger.Watchlists.Morpho.{contains_identity, snapshot, listed, listing}
use liq_ranger.Watchlists.Morpho.Entries.{contains_printed}

is_listed-append :
    (ss ts : List Text) (t : Text) → is_listed (ss ++ ts) t ≡ (is_listed ss t || is_listed ts t)
is_listed-append [] ts t = refl
is_listed-append (s ∷ ss) ts t = ground (arith, is_listed-append ss ts t)

abbrev read : TrackerIdentity → Result IdentityError TrackerIdentity
read id = ok id

module _ (hex : HexCodec) where
  abbrev pub text : Hash → Address → Text
  text m b = to_string_id hex (morpho_blue m b)

  text_injective : (m n : Hash) (b c : Address) → text m b ≡ text n c → (b ≡ c) × (m ≡ n)
  text_injective m n b c e =
      let f : read (morpho_blue m b) ≡ read (morpho_blue n c) =
        sym (from_str-to_string_id hex (morpho_blue m b))
        ∙ ap (from_str hex) e
        ∙ from_str-to_string_id hex (morpho_blue n c) in
      (cc, cc)

  text_same : (m n : Hash) (b c : Address) → b ≡ c → m ≡ n → text m b ≡ text n c
  text_same m n b c e f = rw (e, f) refl

  pub text_eq-text :
      (m n : Hash) (b c : Address) → text_eq (text m b) (text n c) ≡ (b == c && m == n)
  text_eq-text m n b c = elim (Bool-cases (text_eq (text m b) (text n c))) [
    | inl h ↦
        let (e, f) = text_injective m n b c (text_eq_sound _ _ h) in rw h (ground (arith, e, f))
    | inr h ↦ elim (Bool-cases (b == c && m == n)) [
      | inr g ↦ h ∙ sym g
      | inl g ↦
          let e =
            text_same m n b c ((==_iff b c).0 (ground arith)) ((==_iff m n).0 (ground arith)) in
          let k = subst (λ t. text_eq (text m b) t ≡ true) e (text_eq_refl (text m b)) in
          absurd (cc)
    ]
  ]

  is_listed-listed :
      (c : Address) (set : Items) (m : Hash) (b : Address)
      → is_listed (listed hex c set) (text m b) ≡ (b == c && has set m)
  is_listed-listed c [] m b = ground arith
  is_listed-listed c (n ∷ set) m b =
      ground (arith, is_listed-listed c set m b, text_eq-text n m c b)

  member_same :
      (b c : ℕ) (cache : List (ℕ × Items)) (m : ℕ)
      → (b == c) ≡ true
      → lookup c cache ≡ none
      → member (lookup b cache) m ≡ false
  member_same b c cache m e q = rw ((==_iff b c).0 e, q) refl

  is_listed-listing :
      (cache : List (ℕ × Items)) (m : Hash) (b : Address)
      → IsKeyed cache
      → is_listed (listing hex cache) (text m b) ≡ member (lookup b cache) m
  is_listed-listing [] m b h = refl
  is_listed-listing ((c, set) ∷ cache) m b h =
      rw
        (
          is_listed-append (listed hex c set) (listing hex cache) (text m b),
          is_listed-listed c set m b,
          is_listed-listing cache m b h.1,
        )
        (ground (arith, member_same b c cache m, h.0))

module _ (hex : HexCodec) (sled : Sled) where
  -- A position is in the snapshot, as its printed identity, exactly when it is tracked, if no
  -- borrower is listed twice.
  pub snapshot-contains :
      (w : WatchList sled) (m : Hash) (b : Address)
      → IsKeyed w.cache
      → is_listed (snapshot hex sled w) (to_string_id hex (morpho_blue m b))
        ≡ contains_identity hex sled w (to_string_id hex (morpho_blue m b))
  unfolding snapshot
  snapshot-contains w m b h =
      rw (contains_printed hex sled w m b, contains-member sled w b m)
        (is_listed-listing hex w.cache m b h)
