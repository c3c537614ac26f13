-- ===== src/Bootstrap/Aave/Tracks.antt =====
-- src/adapters/aave_bootstrap_adapter.rs: what a bootstrap of Aave adds to the watchlist.
use liq_ranger.Base.{
  ◌≡◌, Bool, true, List, [], ◌∷◌, ok, arith, inl, inr, Option-cases, Bool-cases, Result-cases,
  subst, sym, to_option, ==_refl,
}
use liq_ranger.Core.Identity.{HexCodec, Text, Address, aave_v3, to_string_id, from_str, text_eq}
use liq_ranger.Core.Identity.Layout.{text_eq_sound}
use liq_ranger.Readers.Morpho.{unique, contains}
use liq_ranger.Readers.Morpho.Panics.{contains_kept}
use liq_ranger.Watchlists.Sled.{Sled}
use liq_ranger.Watchlists.Tracked.{WatchList, track}
use liq_ranger.Watchlists.Tracked.Content.{contains-track}
use liq_ranger.Watchlists.Aave.{contains_identity, add, entry_of}
use liq_ranger.Watchlists.Aave.Entries.{contains_printed_entry, contains-add_entry}
use liq_ranger.Bootstrap.{Node, Progress, add_entries}
use liq_ranger.Bootstrap.Watched.{run_preserves}
use liq_ranger.Bootstrap.Aave.{Logs, entries_of, aave_adapter, run_aave}

module _ (hex : HexCodec) (whitelisted : Address → Bool) (sled : Sled) where
  abbrev pub IsTracked : Address → Address → WatchList sled → Type 0
  IsTracked b r list = contains_identity hex sled list (to_string_id hex (aave_v3 b r)) ≡ true

  add_keeps :
      (list : WatchList sled) (t : Text) (b r : Address)
      → IsTracked b r list
      → IsTracked b r (add hex sled list t).1
  unfolding add
  add_keeps list t b r h = elim (Option-cases (entry_of (to_option (from_str hex t)))) [
    | inl q ↦ rw (q, add) h
    | inr ((c, s), q) ↦
        rw
          (
            q,
            add,
            contains_printed_entry hex sled (track sled list c s).1 b r,
            contains-track sled list c s b r,
          )
          (ground (arith, h, contains_printed_entry hex sled list b r))
  ]

  pub add_entries_keeps :
      (ts : List Text) (list : WatchList sled) (b r : Address)
      → IsTracked b r list
      → IsTracked b r (add_entries (aave_adapter hex whitelisted sled) ts list).1
  unfolding add_entries aave_adapter
  add_entries_keeps [] list b r h = h
  add_entries_keeps (t ∷ ts) list b r h = elim (Bool-cases (contains_identity hex sled list t)) [
    | inl k ↦ rw k (add_entries_keeps ts list b r h)
    | inr k ↦ elim (Result-cases (add hex sled list t).0) [
      | inl (u, q) ↦ rw (k, q) (add_entries_keeps ts _ b r (add_keeps list t b r h))
      | inr (x, q) ↦ rw (k, q) (add_keeps list t b r h)
    ]
  ]

  -- A text that has just been added, or was there.
  add-IsTracked :
      (list : WatchList sled) (b r : Address)
      → IsTracked b r (add hex sled list (to_string_id hex (aave_v3 b r))).1
  add-IsTracked list b r =
      ground (arith, contains-add_entry hex sled list b b r r, ==_refl b, ==_refl r)

  -- The first text is the one in question, or a later one is.
  known :
      (t : Text) (ts : List Text) (list : WatchList sled) (b r : Address)
      → contains_identity hex sled list t ≡ true
      → contains (t ∷ ts) (to_string_id hex (aave_v3 b r)) ≡ true
      → (contains ts (to_string_id hex (aave_v3 b r)) ≡ true
          → IsTracked b r (add_entries (aave_adapter hex whitelisted sled) ts list).1)
      → IsTracked b r (add_entries (aave_adapter hex whitelisted sled) ts list).1
  known t ts list b r k h ih = elim (Bool-cases (text_eq t (to_string_id hex (aave_v3 b r)))) [
    | inl e ↦
        add_entries_keeps ts list b r
          (subst (λ x. contains_identity hex sled list x ≡ true) (text_eq_sound _ _ e) k)
    | inr n ↦ ih (ground arith)
  ]

  added :
      (t : Text) (ts : List Text) (list : WatchList sled) (b r : Address)
      → contains (t ∷ ts) (to_string_id hex (aave_v3 b r)) ≡ true
      → (contains ts (to_string_id hex (aave_v3 b r)) ≡ true
          → IsTracked b r
              (add_entries (aave_adapter hex whitelisted sled) ts (add hex sled list t).1).1)
      → IsTracked b r (add_entries (aave_adapter hex whitelisted sled) ts (add hex sled list t).1).1
  added t ts list b r h ih = elim (Bool-cases (text_eq t (to_string_id hex (aave_v3 b r)))) [
    | inl e ↦ add_entries_keeps ts (add hex sled list t).1 b r (
        subst (λ x. IsTracked b r (add hex sled list x).1) (sym (text_eq_sound _ _ e))
          (add-IsTracked list b r))
    | inr n ↦ ih (ground arith)
  ]

  add_entries-IsTracked :
      (ts : List Text) (list : WatchList sled) (b r : Address)
      → contains ts (to_string_id hex (aave_v3 b r)) ≡ true
      → (add_entries (aave_adapter hex whitelisted sled) ts list).0 ≡ ok tt
      → IsTracked b r (add_entries (aave_adapter hex whitelisted sled) ts list).1
  unfolding add_entries aave_adapter
  add_entries-IsTracked [] list b r h e = absurd (cc)
  add_entries-IsTracked (t ∷ ts) list b r h e =
      elim (Bool-cases (contains_identity hex sled list t)) [
        | inl k ↦
            rw k (known t ts list b r k h (λ m. add_entries-IsTracked ts list b r m (rw k at e)))
        | inr k ↦ elim (Result-cases (add hex sled list t).0) [
          | inr (x, q) ↦ absurd (ground arith)
          | inl (u, q) ↦
              rw (k, q)
                (added t ts list b r h
                  (λ m. add_entries-IsTracked ts (add hex sled list t).1 b r m (rw (k, q) at e)))
        ]
      ]

  -- A reserve of a borrower whose printed identity is among the texts that the logs of a batch yield
  -- is tracked once these texts are added without an error.
  pub batch_tracks :
      (logs : Logs) (list : WatchList sled) (b r : Address)
      → contains (entries_of hex whitelisted logs) (to_string_id hex (aave_v3 b r)) ≡ true
      → (add_entries
          (aave_adapter hex whitelisted sled)
          (unique (entries_of hex whitelisted logs))
          list).0
        ≡ ok tt
      → contains_identity hex sled
          (add_entries
            (aave_adapter hex whitelisted sled)
            (unique (entries_of hex whitelisted logs))
            list).1
          (to_string_id hex (aave_v3 b r))
        ≡ true
  batch_tracks logs list b r h e =
      add_entries-IsTracked (unique (entries_of hex whitelisted logs)) list b r
        (contains_kept (entries_of hex whitelisted logs) _ h) e

  -- After a bootstrap of Aave, successful or not, whatever was tracked before is tracked still.
  pub run_aave_keeps :
      (node : Node Logs) (p : Progress (WatchList sled)) (b r : Address)
      → contains_identity hex sled p.watch_list (to_string_id hex (aave_v3 b r)) ≡ true
      → contains_identity hex sled
          (run_aave hex whitelisted sled node p).1.watch_list
          (to_string_id hex (aave_v3 b r))
        ≡ true
  unfolding run_aave
  run_aave_keeps node p b r h =
      run_preserves (aave_adapter hex whitelisted sled) node (IsTracked b r)
        (λ logs list k. add_entries_keeps _ list b r k) p h
