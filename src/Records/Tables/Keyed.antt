-- ===== src/Records/Tables/Keyed.antt =====
-- src/common/mod.rs: what a saved record leaves of a table.
use liq_ranger.Base.{◌≡◌, inl, inr, refl, true, false, List, [], ◌∷◌, All, arith, Bool-cases}
use liq_ranger.Core.Identity.{Text}
use liq_ranger.Core.Identity.Layout.{text_eq_refl}
use liq_ranger.Records.Tables.{is_saved, insert_or_ignore}

module _ {Row : Type 0} (key : Row → Text) where
  -- No two rows have the same key.
  abbrev pub IsUnique : List Row → Type 0
  IsUnique [] = Unit
  IsUnique (r ∷ rows) = (is_saved key rows (key r) ≡ false) × IsUnique rows

  pub insert_or_ignore-IsUnique :
      (rows : List Row) (r : Row) → IsUnique rows → IsUnique (insert_or_ignore key rows r)
  insert_or_ignore-IsUnique rows r h = ground arith

  pub insert_or_ignore-All :
      (P : Row → Type 0) (rows : List Row) (r : Row)
      → P r
      → All P rows
      → All P (insert_or_ignore key rows r)
  insert_or_ignore-All P rows r p h = elim (Bool-cases (is_saved key rows (key r))) [
    | inl e ↦ rw e h
    | inr e ↦ rw e (p, h)
  ]

  -- A saved row stays, and its own key is saved.
  pub is_saved-insert_or_ignore :
      (rows : List Row) (r : Row) → is_saved key (insert_or_ignore key rows r) (key r) ≡ true
  is_saved-insert_or_ignore rows r = ground (arith, text_eq_refl (key r))

  pub is_saved-insert_or_ignore_kept :
      (rows : List Row) (r : Row) (t : Text)
      → is_saved key rows t ≡ true
      → is_saved key (insert_or_ignore key rows r) t ≡ true
  is_saved-insert_or_ignore_kept rows r t h = ground arith

  pub insert_or_ignore-saved :
      (rows : List Row) (r : Row)
      → is_saved key rows (key r) ≡ true
      → insert_or_ignore key rows r ≡ rows
  insert_or_ignore-saved rows r h = rw h refl
