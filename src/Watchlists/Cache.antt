-- ===== src/Watchlists/Cache.antt =====
-- src/watchlists: the map from a borrower to a set, as an association list, and the set, as a list.
use liq_ranger.Base.{
  ℕ, ◌≡◌, ap, Bool, true, false, not, ◌&&◌, ◌||◌, Option, none, some, List, [], ◌∷◌, arith, ◌==◌,
  if◌then◌else◌,
}

abbrev pub Items : Type 0
Items = List ℕ

abbrev pub has : Items → ℕ → Bool
has [] x = false
has (y ∷ s) x = x == y || has s x

abbrev pub put_item : Items → ℕ → Items
put_item s x = if has s x then s else x ∷ s

abbrev pub drop_item : Items → ℕ → Items
drop_item [] x = []
drop_item (y ∷ s) x = if x == y then drop_item s x else y ∷ drop_item s x

abbrev pub is_empty : Items → Bool
is_empty [] = true
is_empty (y ∷ s) = false

has_same : (s : Items) (x y : ℕ) → x ≡ y → has s x ≡ has s y
has_same s x y e = ap (has s) e

pub has-put_item : (s : Items) (x y : ℕ) → has (put_item s x) y ≡ (y == x || has s y)
has-put_item s x y = ground (arith, has_same s x y)

pub has-drop_item : (s : Items) (x y : ℕ) → has (drop_item s x) y ≡ (not (y == x) && has s y)
has-drop_item [] x y = ground arith
has-drop_item (z ∷ s) x y = ground (arith, has-drop_item s x y)

module _ {ℓ} {V : Type ℓ} where
  abbrev pub lookup : ℕ → List (ℕ × V) → Option V
  lookup k [] = none
  lookup k ((j, v) ∷ m) = if k == j then some v else lookup k m

  abbrev pub insert : ℕ → V → List (ℕ × V) → List (ℕ × V)
  insert k v [] = (k, v) ∷ []
  insert k v (e ∷ m) = if k == e.0 then (k, v) ∷ m else e ∷ insert k v m

  abbrev pub erase : ℕ → List (ℕ × V) → List (ℕ × V)
  erase k [] = []
  erase k (e ∷ m) = if k == e.0 then erase k m else e ∷ erase k m

  pub lookup-insert :
      (k j : ℕ) (v : V) (m : List (ℕ × V))
      → lookup j (insert k v m) ≡ (if j == k then some v else lookup j m)
  lookup-insert k j v [] = ground arith
  lookup-insert k j v (e ∷ m) = ground (arith, lookup-insert k j v m)

  pub lookup-erase :
      (k j : ℕ) (m : List (ℕ × V)) → lookup j (erase k m) ≡ (if j == k then none else lookup j m)
  lookup-erase k j [] = ground arith
  lookup-erase k j (e ∷ m) = ground (arith, lookup-erase k j m)

  -- No key is listed twice.
  abbrev pub IsKeyed : List (ℕ × V) → Type ℓ
  IsKeyed [] = Unit
  IsKeyed ((k, v) ∷ m) = (lookup k m ≡ none) × IsKeyed m
