-- ===== src/Core/Identity/Layout.antt =====
-- src/core/types.rs: which texts are identities.
use liq_ranger.Base.{
  ℕ, ◌≡◌, refl, sym, true, ok, subst, some, List, [], ◌∷◌, ◌++◌, arith, inl, inr, Bool-cases, ◌≢◌,
}
use liq_ranger.Core.Identity.{
  HexCodec, TrackerIdentity, aave_v3, morpho_blue, compound3, Text, colon, aave_tag, morpho_tag,
  comet_tag, text_eq, split, from_str, from_parts, from_aave, from_morpho, from_comet, prepend,
}

pub text_eq_sound : (s t : Text) → text_eq s t ≡ true → s ≡ t
text_eq_sound [] [] h = refl
text_eq_sound [] (d ∷ t) h = cc
text_eq_sound (c ∷ s) [] h = cc
text_eq_sound (c ∷ s) (d ∷ t) h = ground (arith, text_eq_sound s t)

pub text_eq_refl : (s : Text) → text_eq s s ≡ true
text_eq_refl [] = refl
text_eq_refl (c ∷ s) = ground (arith, text_eq_refl s)

-- The text that `split` took apart.
abbrev join : List Text → Text
join [] = []
join (p ∷ []) = p
join (p ∷ q ∷ ps) = p ++ (colon ∷ join (q ∷ ps))

split-ne-nil : (s : Text) → split s ≢ []
unfolding split
split-ne-nil [] = λ e. cc
split-ne-nil (c ∷ s) = ground arith

join-prepend : (c : ℕ) (ps : List Text) → join (prepend c ps) ≡ c ∷ join ps
join-prepend c [] = refl
join-prepend c (p ∷ []) = refl
join-prepend c (p ∷ q ∷ ps) = refl

join-colon : (ps : List Text) → ps ≢ [] → join ([] ∷ ps) ≡ colon ∷ join ps
join-colon [] h = absurd (h refl)
join-colon (p ∷ ps) h = refl

join-split : (s : Text) → join (split s) ≡ s
unfolding split
join-split [] = refl
join-split (c ∷ s) =
    ground (arith, join-split s, join-prepend c (split s), join-colon (split s) (split-ne-nil s))

module _ (hex : HexCodec) where
  open hex use {parse_address, parse_hash}

  -- The text is the tag and the fields that read as the identity's parts, joined by colons.
  abbrev pub Reads : Text → TrackerIdentity → Type 0
  Reads s (aave_v3 b r) =
      (x : Text) × (y : Text) × (s ≡ aave_tag ++ (colon ∷ (x ++ (colon ∷ y))))
      × (parse_address x ≡ some b)
      × (parse_address y ≡ some r)
  Reads s (morpho_blue m b) =
      (x : Text) × (y : Text) × (s ≡ morpho_tag ++ (colon ∷ (x ++ (colon ∷ y))))
      × (parse_hash x ≡ some m)
      × (parse_address y ≡ some b)
  Reads s (compound3 b) = (x : Text) × (s ≡ comet_tag ++ (colon ∷ x)) × (parse_address x ≡ some b)

  from_aave-Reads :
      (ps : List Text) (id : TrackerIdentity)
      → from_aave hex ps ≡ ok id
      → Reads (join (aave_tag ∷ ps)) id
  unfolding from_aave
  from_aave-Reads (p ∷ q ∷ []) (aave_v3 b r) e = (p, q, refl, ground arith, ground arith)
  from_aave-Reads (p ∷ q ∷ []) _ e = absurd (ground arith)
  from_aave-Reads _ _ e = cc

  from_morpho-Reads :
      (ps : List Text) (id : TrackerIdentity)
      → from_morpho hex ps ≡ ok id
      → Reads (join (morpho_tag ∷ ps)) id
  unfolding from_morpho
  from_morpho-Reads (p ∷ q ∷ []) (morpho_blue m b) e = (p, q, refl, ground arith, ground arith)
  from_morpho-Reads (p ∷ q ∷ []) _ e = absurd (ground arith)
  from_morpho-Reads _ _ e = cc

  from_comet-Reads :
      (ps : List Text) (id : TrackerIdentity)
      → from_comet hex ps ≡ ok id
      → Reads (join (comet_tag ∷ ps)) id
  unfolding from_comet
  from_comet-Reads (p ∷ []) (compound3 b) e = (p, refl, ground arith)
  from_comet-Reads (p ∷ []) _ e = absurd (ground arith)
  from_comet-Reads _ _ e = cc

  from_parts-Reads :
      (tag : Text) (ps : List Text) (id : TrackerIdentity)
      → from_parts hex (tag ∷ ps) ≡ ok id
      → Reads (join (tag ∷ ps)) id
  unfolding from_parts
  from_parts-Reads tag ps id e = elim (Bool-cases (text_eq tag aave_tag)) [
    | inl a ↦ retag (text_eq_sound _ _ a) (from_aave-Reads ps id (rw a at e))
    | inr na ↦ elim (Bool-cases (text_eq tag morpho_tag)) [
      | inl m ↦ retag (text_eq_sound _ _ m) (from_morpho-Reads ps id (rw (na, m) at e))
      | inr nm ↦ elim (Bool-cases (text_eq tag comet_tag)) [
        | inl c ↦ retag (text_eq_sound _ _ c) (from_comet-Reads ps id (rw (na, nm, c) at e))
        | inr nc ↦ absurd (ground arith)
      ]
    ]
  ]
    where
      retag : {t u : Text} → t ≡ u → Reads (join (u ∷ ps)) id → Reads (join (t ∷ ps)) id
      retag e r = subst (λ x. Reads (join (x ∷ ps)) id) (sym e) r

  parts-Reads :
      (parts : List Text) (id : TrackerIdentity)
      → from_parts hex parts ≡ ok id
      → Reads (join parts) id
  unfolding from_parts
  parts-Reads [] id e = cc
  parts-Reads (tag ∷ ps) id e = from_parts-Reads tag ps id e

  -- A text that parses has exactly the layout of its protocol, and its fields read as the identity.
  pub from_str-Reads : (s : Text) (id : TrackerIdentity) → from_str hex s ≡ ok id → Reads s id
  unfolding from_str
  from_str-Reads s id e = subst (λ t. Reads t id) (join-split s) (parts-Reads (split s) id e)
