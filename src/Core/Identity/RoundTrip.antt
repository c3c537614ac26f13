-- ===== src/Core/Identity/RoundTrip.antt =====
-- src/core/types.rs: identities printed and parsed.
use liq_ranger.Base.{◌∙◌, ap, ◌≡◌, refl, ok, err, [], ◌∷◌, ◌++◌, arith}
use liq_ranger.Core.Identity.{
  HexCodec, TrackerIdentity, aave_v3, morpho_blue, compound3, Text, Hash, Address, colon,
  HasNoColon, split, morpho_tag, invalid_hex, to_string_id, from_str,
}

pub split-append : (x y : Text) → HasNoColon x → split (x ++ (colon ∷ y)) ≡ x ∷ split y
unfolding split
split-append [] y h = refl
split-append (c ∷ x) y h = ground (arith, split-append x y h.1)

pub split_whole : (x : Text) → HasNoColon x → split x ≡ x ∷ []
unfolding split
split_whole [] h = refl
split_whole (c ∷ x) h = ground (arith, split_whole x h.1)

split_pair : (x y : Text) → HasNoColon x → HasNoColon y → split (x ++ (colon ∷ y)) ≡ x ∷ y ∷ []
split_pair x y h k = split-append x y h ∙ ap (λ l. x ∷ l) (split_whole y k)

module _ (hex : HexCodec) where
  open hex use {
    show_address, show_hash, parse-show_address, parse-show_hash, show_address-HasNoColon,
    parse_hash-show_address, show_hash-HasNoColon,
  }

  -- The two fields of a printed pair come back, whatever they hold, if neither has a colon.
  split_addresses :
      (a b : Address)
      → split (show_address a ++ (colon ∷ show_address b)) ≡ show_address a ∷ show_address b ∷ []
  split_addresses a b = split_pair _ _ (show_address-HasNoColon a) (show_address-HasNoColon b)

  split_hash_address :
      (h : Hash) (a : Address)
      → split (show_hash h ++ (colon ∷ show_address a)) ≡ show_hash h ∷ show_address a ∷ []
  split_hash_address h a = split_pair _ _ (show_hash-HasNoColon h) (show_address-HasNoColon a)

  split_address_hash :
      (a : Address) (h : Hash)
      → split (show_address a ++ (colon ∷ show_hash h)) ≡ show_address a ∷ show_hash h ∷ []
  split_address_hash a h = split_pair _ _ (show_address-HasNoColon a) (show_hash-HasNoColon h)

  -- Every identity, printed and parsed, is itself.
  pub from_str-to_string_id : (id : TrackerIdentity) → from_str hex (to_string_id hex id) ≡ ok id
  unfolding from_str to_string_id
  from_str-to_string_id (aave_v3 borrower reserve) =
      rw (split_addresses borrower reserve, parse-show_address borrower, parse-show_address reserve)
  from_str-to_string_id (morpho_blue market_id borrower) = rw (
    split_hash_address market_id borrower,
    parse-show_hash market_id,
    parse-show_address borrower,
  )
  from_str-to_string_id (compound3 borrower) =
      rw (split_whole _ (show_address-HasNoColon borrower), parse-show_address borrower)

  -- The text `morpho:<borrower>:<market>`, with the two fields the other way round, is no identity.
  pub from_str_swapped :
      (borrower : Address) (market_id : Hash)
      → from_str hex
          (morpho_tag ++ (colon ∷ (show_address borrower ++ (colon ∷ show_hash market_id))))
        ≡ err invalid_hex
  unfolding from_str
  from_str_swapped borrower market_id =
      rw (split_address_hash borrower market_id, parse_hash-show_address borrower)
