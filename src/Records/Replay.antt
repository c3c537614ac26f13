-- ===== src/Records/Replay.antt =====
-- src/liq_data_extractor.rs: what a second delivery of the same events changes.
use liq_ranger.Base.{
  ◌≡◌, inl, inr, refl, ap, ◌∙◌, true, false, List, [], ◌∷◌, Result, ok, err, Bool-cases,
}
use liq_ranger.Core.Identity.{HexCodec, Text, Address}
use liq_ranger.Records.Tables.{
  Database, LiquidationRecord, DistributionRecord, is_saved, save_liquidation, save_distribution,
}
use liq_ranger.Records.Tables.Keyed.{
  is_saved-insert_or_ignore, is_saved-insert_or_ignore_kept, insert_or_ignore-saved,
}
use liq_ranger.Records.Extractor.{
  Units, Answers, Trouble, panicked, failed, position_liquidated, profit_distributed, other_event,
  StreamEvent, shutdown, stream_closed, stream_error, indexed, liquidation_record,
  distribution_record, if_executes, handle_liquidation_event, handle_distribution_event,
  handle_event, Turn, settle, step, then_go, start,
}

module _ {F64 : Type 0} where
  -- What the first tables have saved, the second have too.
  pub record IsWithin (d d' : Database F64) : Type 0 where
    pub liquidations :
        (t : Text)
        → is_saved (λ x. x.tx_hash) d.liquidations t ≡ true
        → is_saved (λ x. x.tx_hash) d'.liquidations t ≡ true
    pub distributions :
        (t : Text)
        → is_saved (λ x. x.tx_hash) d.distributions t ≡ true
        → is_saved (λ x. x.tx_hash) d'.distributions t ≡ true

  IsWithin-refl : (d : Database F64) → IsWithin d d
  IsWithin-refl d = record { liquidations = λ t h. h; distributions = λ t h. h }

  IsWithin-trans : (a b c : Database F64) → IsWithin a b → IsWithin b c → IsWithin a c
  IsWithin-trans a b c h k = record {
    liquidations = λ t e. k.liquidations t (h.liquidations t e);
    distributions = λ t e. k.distributions t (h.distributions t e);
  }

  save_liquidation-IsWithin :
      (to_string : Address → Text) (d : Database F64) (r : LiquidationRecord F64)
      → IsWithin d (save_liquidation to_string d r)
  unfolding save_liquidation
  save_liquidation-IsWithin to_string d r = record {
    liquidations = λ t h. is_saved-insert_or_ignore_kept (λ x. x.tx_hash) d.liquidations _ t h;
    distributions = λ t h. h;
  }

  save_distribution-IsWithin :
      (d : Database F64) (r : DistributionRecord F64) → IsWithin d (save_distribution d r)
  unfolding save_distribution
  save_distribution-IsWithin d r = record {
    liquidations = λ t h. h;
    distributions = λ t h. is_saved-insert_or_ignore_kept (λ x. x.tx_hash) d.distributions _ t h;
  }

  -- A record that is saved is saved no more.
  save_liquidation-again :
      (to_string : Address → Text) (d d' : Database F64) (r : LiquidationRecord F64)
      → IsWithin (save_liquidation to_string d r) d'
      → save_liquidation to_string d' r ≡ d'
  unfolding save_liquidation
  save_liquidation-again to_string d d' r h =
      ap (λ l. record d' { liquidations = l })
        (insert_or_ignore-saved (λ x. x.tx_hash) d'.liquidations _
          (h.liquidations r.tx_hash (is_saved-insert_or_ignore (λ x. x.tx_hash) d.liquidations _)))

  save_distribution-again :
      (d d' : Database F64) (r : DistributionRecord F64)
      → IsWithin (save_distribution d r) d'
      → save_distribution d' r ≡ d'
  unfolding save_distribution
  save_distribution-again d d' r h =
      ap (λ l. record d' { distributions = l })
        (insert_or_ignore-saved (λ x. x.tx_hash) d'.distributions r
          (h.distributions r.tx_hash
            (is_saved-insert_or_ignore (λ x. x.tx_hash) d.distributions r)))

module _ (hex : HexCodec) (units : Units) (to_string : Address → Text) where
  open units use {F64}

  abbrev settled : Database F64 → Result Trouble (Database F64) → Turn hex units to_string
  settled d r = settle hex units to_string d r

  -- What a handler does to two tables of which the second has all that it leaves in the first.
  abbrev Repeats :
      Database F64
      → Database F64
      → Result Trouble (Database F64)
      → Result Trouble (Database F64)
      → Type 0
  Repeats d d' r r' =
      IsWithin d (settled d r).0
      × (IsWithin (settled d r).0 d' → settled d' r' ≡ (d', (settled d r).1))

  failing-Repeats : (d d' : Database F64) (e : Trouble) → Repeats d d' (err e) (err e)
  failing-Repeats d d' (panicked e) = (IsWithin-refl d, λ h. refl)
  failing-Repeats d d' failed = (IsWithin-refl d, λ h. refl)

  executing-Repeats :
      (answers : Answers) (d d' n n' : Database F64)
      → IsWithin d n
      → (IsWithin n d' → n' ≡ d')
      → Repeats d d' (if_executes hex units answers n) (if_executes hex units answers n')
  executing-Repeats answers d d' n n' h k = elim (Bool-cases answers.executes) [
    | inl e ↦ rw e (h, λ w. ap (λ x. (x, true)) (k w))
    | inr e ↦ rw e (failing-Repeats d d' failed)
  ]

  liquidation-Repeats :
      (answers : Answers) (d d' : Database F64) (r : Result Trouble (LiquidationRecord F64))
      → Repeats d d'
          (handle_liquidation_event hex units to_string d answers r)
          (handle_liquidation_event hex units to_string d' answers r)
  liquidation-Repeats answers d d' (err e) = failing-Repeats d d' e
  liquidation-Repeats answers d d' (ok r) =
      executing-Repeats answers d d' (save_liquidation to_string d r)
        (save_liquidation to_string d' r) (save_liquidation-IsWithin to_string d r)
        (save_liquidation-again to_string d d' r)

  distribution-Repeats :
      (answers : Answers) (d d' : Database F64) (r : Result Trouble (DistributionRecord F64))
      → Repeats d d'
          (handle_distribution_event hex units to_string d answers r)
          (handle_distribution_event hex units to_string d' answers r)
  distribution-Repeats answers d d' (err e) = failing-Repeats d d' e
  distribution-Repeats answers d d' (ok r) =
      executing-Repeats answers d d' (save_distribution d r) (save_distribution d' r)
        (save_distribution-IsWithin d r) (save_distribution-again d d' r)

  abbrev RepeatsTurn : Database F64 → Database F64 → StreamEvent → Type 0
  RepeatsTurn d d' e =
      IsWithin d (step hex units to_string d e).0
      × (IsWithin (step hex units to_string d e).0 d'
          → step hex units to_string d' e ≡ (d', (step hex units to_string d e).1))

  step-Repeats : (d d' : Database F64) (e : StreamEvent) → RepeatsTurn d d' e
  unfolding step handle_event
  step-Repeats d d' shutdown = (IsWithin-refl d, λ h. refl)
  step-Repeats d d' stream_closed = (IsWithin-refl d, λ h. refl)
  step-Repeats d d' stream_error = (IsWithin-refl d, λ h. refl)
  step-Repeats d d' (indexed (position_liquidated mode b c p profit time) hash block answers) =
      liquidation-Repeats answers d d'
        (liquidation_record hex units answers mode b c p profit time (hex.show_hash hash) block)
  step-Repeats d d' (indexed (profit_distributed asset owner breet time) hash block answers) =
      distribution-Repeats answers d d'
        (distribution_record hex units answers asset owner breet time (hex.show_hash hash))
  step-Repeats d d' (indexed other_event hash block answers) = (IsWithin-refl d, λ h. refl)

  started-IsWithin :
      (d : Database F64) (t : Turn hex units to_string) (es : List StreamEvent)
      → IsWithin d t.0
      → ((n : Database F64) → IsWithin n (start hex units to_string n es))
      → IsWithin d (then_go hex units to_string (λ n. start hex units to_string n es) t)
  started-IsWithin d (n, true) es h k = IsWithin-trans d n (start hex units to_string n es) h (k n)
  started-IsWithin d (n, false) es h k = h

  start-IsWithin :
      (d : Database F64) (es : List StreamEvent) → IsWithin d (start hex units to_string d es)
  unfolding start
  start-IsWithin d [] = IsWithin-refl d
  start-IsWithin d (e ∷ es) =
      started-IsWithin d (step hex units to_string d e) es (step-Repeats d d e).0
        (λ n. start-IsWithin n es)

  -- One turn, and what follows it.
  repeated :
      (d' : Database F64) (es : List StreamEvent) (t : Turn hex units to_string)
      → ((n : Database F64)
          → IsWithin (start hex units to_string n es) d'
          → start hex units to_string d' es ≡ d')
      → IsWithin (then_go hex units to_string (λ n. start hex units to_string n es) t) d'
      → then_go hex units to_string (λ n. start hex units to_string n es) (d', t.1) ≡ d'
  repeated d' es (n, true) k h = k n h
  repeated d' es (n, false) k h = refl

  before :
      (d' : Database F64) (es : List StreamEvent) (t : Turn hex units to_string)
      → IsWithin (then_go hex units to_string (λ n. start hex units to_string n es) t) d'
      → IsWithin t.0 d'
  before d' es (n, true) h =
      IsWithin-trans n (start hex units to_string n es) d' (start-IsWithin n es) h
  before d' es (n, false) h = h

  start-again :
      (d d' : Database F64) (es : List StreamEvent)
      → IsWithin (start hex units to_string d es) d'
      → start hex units to_string d' es ≡ d'
  unfolding start
  start-again d d' [] h = refl
  start-again d d' (e ∷ es) h =
      let t = step hex units to_string d e in
      ap (then_go hex units to_string (λ n. start hex units to_string n es))
        ((step-Repeats d d' e).1 (before d' es t h))
      ∙ repeated d' es t (λ n w. start-again n d' es w) h

  -- After events have been served, serving them again with the same answers changes no table.
  pub start-start :
      (d : Database F64) (es : List StreamEvent)
      → start hex units to_string (start hex units to_string d es) es
        ≡ start hex units to_string d es
  start-start d es =
      start-again d (start hex units to_string d es) es
        (IsWithin-refl (start hex units to_string d es))
