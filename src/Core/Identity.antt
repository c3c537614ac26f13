-- ===== src/Core/Identity.antt =====
-- src/core/types.rs: the identity of a tracked position and its text form.
pub mod RoundTrip
pub mod Layout
use liq_ranger.Base.{
  ℕ, ◌≡◌, Bool, true, false, ◌&&◌, Option, none, some, List, [], ◌∷◌, ◌++◌, All, ◌==◌, ◌≢◌,
  if◌then◌else◌, Result, ok, err, ◌>>=◌, or_fail,
}

-- A text is the list of its code points.
abbrev pub Text : Type 0
Text = List ℕ

-- An Address (20 bytes) and an H256 (32 bytes) are numbers.
abbrev pub Address : Type 0
Address = ℕ

abbrev pub Hash : Type 0
Hash = ℕ

abbrev pub colon : ℕ
colon = b':'

abbrev pub HasNoColon : Text → Type 0
HasNoColon = All λ c. c ≢ colon

-- Text forms of the crate `ethers`: `{:#x}` (and `{:?}`) print 0x and lower-case digits,
-- `from_str` reads them back. An address has 40 digits and a hash 64, so neither reads as the other.
pub record HexCodec : Type 0 where
  pub show_address : Address → Text
  pub parse_address : Text → Option Address
  pub show_hash : Hash → Text
  pub parse_hash : Text → Option Hash
  pub parse-show_address : (a : Address) → parse_address (show_address a) ≡ some a
  pub parse-show_hash : (h : Hash) → parse_hash (show_hash h) ≡ some h
  pub show_address-HasNoColon : (a : Address) → HasNoColon (show_address a)
  pub show_hash-HasNoColon : (h : Hash) → HasNoColon (show_hash h)
  pub parse_hash-show_address : (a : Address) → parse_hash (show_address a) ≡ none
  pub parse_address-show_hash : (h : Hash) → parse_address (show_hash h) ≡ none

pub data TrackerIdentity : Type 0 where
  aave_v3 : (borrower reserve : Address) → TrackerIdentity
  morpho_blue : (market_id : Hash) (borrower : Address) → TrackerIdentity
  compound3 : (borrower : Address) → TrackerIdentity

pub data IdentityError : Type 0 where
  empty_identity invalid_aave_layout invalid_morpho_layout invalid_compound_layout : IdentityError
  invalid_hex : IdentityError
  unknown_prefix : Text → IdentityError

abbrev pub aave_tag : Text
aave_tag = b'a' ∷ b'a' ∷ b'v' ∷ b'e' ∷ []

abbrev pub morpho_tag : Text
morpho_tag = b'm' ∷ b'o' ∷ b'r' ∷ b'p' ∷ b'h' ∷ b'o' ∷ []

abbrev pub comet_tag : Text
comet_tag = b'c' ∷ b'o' ∷ b'm' ∷ b'e' ∷ b't' ∷ []

abbrev pub text_eq : Text → Text → Bool
text_eq [] [] = true
text_eq [] (d ∷ t) = false
text_eq (c ∷ s) [] = false
text_eq (c ∷ s) (d ∷ t) = (c == d) && text_eq s t

-- `s.split(':')`: one more part than the text has colons.
abbrev prepend : ℕ → List Text → List Text
prepend c [] = (c ∷ []) ∷ []
prepend c (p ∷ ps) = (c ∷ p) ∷ ps

abbrev push_char : ℕ → List Text → List Text
push_char c parts = if c == colon then [] ∷ parts else prepend c parts

unfoldable pub split : Text → List Text
split [] = [] ∷ []
split (c ∷ s) = push_char c (split s)

module _ (hex : HexCodec) where
  open hex use {show_address, parse_address, show_hash, parse_hash}

  unfoldable pub to_string_id : TrackerIdentity → Text
  to_string_id (aave_v3 borrower reserve) =
      aave_tag ++ (colon ∷ (show_address borrower ++ (colon ∷ show_address reserve)))
  to_string_id (morpho_blue market_id borrower) =
      morpho_tag ++ (colon ∷ (show_hash market_id ++ (colon ∷ show_address borrower)))
  to_string_id (compound3 borrower) = comet_tag ++ (colon ∷ show_address borrower)

  abbrev read_address : Text → Result IdentityError Address
  read_address s = or_fail (parse_address s) invalid_hex

  abbrev read_hash : Text → Result IdentityError Hash
  read_hash s = or_fail (parse_hash s) invalid_hex

  from_aave : List Text → Result IdentityError TrackerIdentity
  from_aave (p ∷ q ∷ []) = do ok (aave_v3 (← read_address p) (← read_address q))
  from_aave _ = err invalid_aave_layout

  from_morpho : List Text → Result IdentityError TrackerIdentity
  from_morpho (p ∷ q ∷ []) = do ok (morpho_blue (← read_hash p) (← read_address q))
  from_morpho _ = err invalid_morpho_layout

  from_comet : List Text → Result IdentityError TrackerIdentity
  from_comet (p ∷ []) = do ok (compound3 (← read_address p))
  from_comet _ = err invalid_compound_layout

  from_parts : List Text → Result IdentityError TrackerIdentity
  unfolding from_aave from_morpho from_comet
  from_parts [] = err empty_identity
  from_parts (tag ∷ rest) =
      if text_eq tag aave_tag
      then from_aave rest
      else if text_eq tag morpho_tag
      then from_morpho rest
      else if text_eq tag comet_tag
      then from_comet rest
      else err (unknown_prefix tag)

  -- `TrackerIdentity::from_str`
  unfoldable pub from_str : Text → Result IdentityError TrackerIdentity
  unfolding from_parts split
  from_str s = from_parts (split s)
