-- ===== src/Examples.antt =====
-- The parameters of the model, made concrete: short texts for addresses and hashes, and a tree in
-- memory for the database. The children run the operations on them.
mod Numbers
mod Identities
mod Lists
mod Readers
mod Services
mod Boots
mod Accounts
mod Swaps
mod Settlements
mod States
mod Updates
mod Composed
mod Histories
mod Tasks
mod Prices
mod Starts
use liq_ranger.Base.{
  ℕ, ◌+◌, ◌-◌, ◌<◌, ◌≡◌, refl, subst, sym, ◌==◌, if◌then◌else◌, Option, none, some, List, [], ◌∷◌,
  arith, ap, ◌∙◌,
}
use liq_ranger.Core.Identity.{HexCodec, Text, HasNoColon}
use liq_ranger.Watchlists.Cache.{Items, lookup, insert, erase, IsKeyed, lookup-insert, lookup-erase}
use liq_ranger.Watchlists.Tracked.Keyed.{insert-IsKeyed, erase-IsKeyed}
use liq_ranger.Watchlists.Sled.{Sled}

-- A letter and one character above the colon.
abbrev print : ℕ → ℕ → Text
print letter n = letter ∷ (n + 59) ∷ []

abbrev scan : ℕ → Text → Option ℕ
scan letter (c ∷ d ∷ []) = if c == letter then some (d - 59) else none
scan letter _ = none

pub scan-print : (letter n : ℕ) → scan letter (print letter n) ≡ some n
scan-print letter n = ground arith

pub print-HasNoColon : (letter n : ℕ) → 58 < letter → HasNoColon (print letter n)
print-HasNoColon letter n h = ((λ e. omega (arith, h, e)), ((λ e. omega (arith, e)), tt))

abbrev pub short_hex : HexCodec
short_hex = record {
  show_address = print b'x';
  parse_address = scan b'x';
  show_hash = print b'h';
  parse_hash = scan b'h';
  parse-show_address = scan-print b'x';
  parse-show_hash = scan-print b'h';
  show_address-HasNoColon = λ a. print-HasNoColon b'x' a (omega arith);
  show_hash-HasNoColon = λ h. print-HasNoColon b'h' h (omega arith);
  parse_hash-show_address = λ a. refl;
  parse_address-show_hash = λ h. refl;
}

abbrev pub Tree : Type 0
Tree = (rows : List (ℕ × Items)) × IsKeyed rows

abbrev pub put : Tree → ℕ → Items → Tree
put (rows, h) k v = (insert k v rows, insert-IsKeyed k v rows h)

abbrev drop : Tree → ℕ → Tree
drop (rows, h) k = (erase k rows, erase-IsKeyed k rows h)

pub lookup_of : (t u : Tree) (j : ℕ) → some t ≡ some u → lookup j u.0 ≡ lookup j t.0
lookup_of t u j e = ap (λ x. lookup j x.0) {x = u} {y = t} (cc)

pub same_rows : (t : Tree) (l : List (ℕ × Items)) → some t.0 ≡ some l → l ≡ t.0
same_rows t l e = cc

abbrev pub memory : Sled
memory = record {
  Tree = Tree;
  get = λ t k. lookup k t.0;
  insert = λ t k v. some (put t k v);
  remove = λ t k. some (drop t k);
  rows = λ t. some t.0;
  get-insert = λ t u k j v e. lookup_of (put t k v) u j e ∙ lookup-insert k j v t.0;
  get-remove = λ t u k j e. lookup_of (drop t k) u j e ∙ lookup-erase k j t.0;
  rows_listed = λ t l j e. ap (λ x. lookup j x) (same_rows t l e);
  rows_distinct = λ t l e. subst IsKeyed (sym (same_rows t l e)) t.1;
}
