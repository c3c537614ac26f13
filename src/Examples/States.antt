-- ===== src/Examples/States.antt =====
-- The saved block of a bootstrap, in a tree that is a function.
use liq_ranger.Base.{
  ℕ, ◌≡◌, ◌≢◌, refl, sym, ap, ◌∙◌, if◌then◌else◌, Option, some, none, List, [], ◌∷◌, ok, arith,
  Bool-cases, inl, inr,
}
use liq_ranger.Core.Identity.{text_eq}
use liq_ranger.Core.Identity.Layout.{text_eq_sound, text_eq_refl}
use liq_ranger.Core.Types.{Protocol, morpho, aave}
use liq_ranger.Bootstrap.State.{Bincode, ByteTree, load_last_block, save_last_block}

abbrev key_of : Protocol → List ℕ
key_of morpho = 0 ∷ []
key_of aave = 1 ∷ []

key_injective : (p q : Protocol) → key_of p ≡ key_of q → p ≡ q
key_injective morpho morpho e = refl
key_injective morpho aave e = absurd (ground (arith, e))
key_injective aave morpho e = absurd (ground (arith, e))
key_injective aave aave e = refl

abbrev number : List ℕ → Option ℕ
number (n ∷ []) = some n
number _ = none

abbrev bincode : Bincode
bincode = record {
  key = key_of;
  serialize = λ n. n ∷ [];
  deserialize = number;
  key_injective = key_injective;
  deserialize-serialize = λ n h. refl;
}

abbrev Tree : Type 0
Tree = List ℕ → Option (List ℕ)

abbrev put : Tree → List ℕ → List ℕ → Tree
put t k v j = if text_eq j k then some v else t j

same_tree : (f u : Tree) (j : List ℕ) → some f ≡ some u → u j ≡ f j
same_tree f u j e = let h : u ≡ f = cc in ap (λ x. x j) h

put_same : (t : Tree) (k v : List ℕ) → put t k v k ≡ some v
put_same t k v = rw (text_eq_refl k) refl

put_other : (t : Tree) (k j v : List ℕ) → j ≢ k → put t k v j ≡ t j
put_other t k j v n = elim (Bool-cases (text_eq j k)) [
  | inl e ↦ absurd (n (text_eq_sound j k e))
  | inr e ↦ rw e refl
]

read_same : (x r : Option (List ℕ)) → some x ≡ some r → r ≡ x
read_same x r e = cc

abbrev tree : ByteTree
tree = record {
  Tree = Tree;
  get = λ t k. some (t k);
  insert = λ t k v. some (put t k v);
  get-insert_same =
      λ t u k v r e g. read_same (u k) r g ∙ same_tree (put t k v) u k e ∙ put_same t k v;
  get-insert_other = λ t u k j v r s e n g h.
      read_same (u j) r g
      ∙ same_tree (put t k v) u j e
      ∙ put_other t k j v n
      ∙ sym (read_same (t j) s h);
}

abbrev empty : Tree
empty k = none

saved_at : save_last_block bincode tree empty morpho 200 ≡ ok (put empty (0 ∷ []) (200 ∷ []))
unfolding save_last_block
saved_at = refl

loaded_at : load_last_block bincode tree (put empty (0 ∷ []) (200 ∷ [])) morpho ≡ ok (some 200)
unfolding load_last_block
loaded_at = refl

abbrev saved : Option ℕ
saved = some 200
