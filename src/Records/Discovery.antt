-- ===== src/Records/Discovery.antt =====
-- src/liq_data_extractor.rs and src/profit_distributor.rs: the assets that the distributor reads from
-- the records.
use liq_ranger.Base.{
  ℕ, ◌≡◌, inl, inr, refl, true, false, Option, none, some, List, [], ◌∷◌, ◌++◌, All, map, Result,
  ok, err, Bool-cases, ap,
}
use liq_ranger.Core.Identity.{HexCodec, Text, Address}
use liq_ranger.Watchlists.Cache.{Items, has}
use liq_ranger.Readers.Outcome.{contains, unique}
use liq_ranger.Services.Distributor.{
  Chain, Tokens, Progress, profit_dist_assets, add_rows, discover_active_assets,
}
use liq_ranger.Records.Tables.{
  Database, LiquidationRecord, LiquidationRow, DistributionRecord, save_liquidation,
  save_distribution,
}
use liq_ranger.Records.Tables.Keyed.{insert_or_ignore-All}
use liq_ranger.Records.Extractor.{
  Units, Answers, Trouble, panicked, failed, position_liquidated, profit_distributed, other_event,
  StreamEvent, shutdown, stream_closed, stream_error, indexed, liquidation_record,
  distribution_record, if_executes, handle_liquidation_event, handle_distribution_event,
  handle_event, Turn, settle, step, then_go, start,
}

abbrev pub ellipsis : ℕ
ellipsis = 8230

-- `to_string` of an Address prints 0x, its first digits, an ellipsis and its last digits;
-- `Address::from_str` reads hexadecimal digits only.
pub record ShortForm (hex : HexCodec) : Type 0 where
  pub to_string : Address → Text
  pub elided : (a : Address) → has (to_string a) ellipsis ≡ true
  pub digits_only : (t : Text) → has t ellipsis ≡ true → hex.parse_address t ≡ none

module _ {F64 : Type 0} where
  -- The rows of the query, which leaves out repetitions and the order open.
  unfoldable pub asset_rows : Database F64 → List (Option Text)
  asset_rows db = map some (
      unique (
        map (λ r. r.profit_asset) db.liquidations ++ map (λ r. r.collateral_asset) db.liquidations))

abbrev IsElided : Text → Type 0
IsElided t = has t ellipsis ≡ true

All-append : (xs ys : List Text) → All IsElided xs → All IsElided ys → All IsElided (xs ++ ys)
All-append [] ys h k = k
All-append (x ∷ xs) ys (h, hs) k = (h, All-append xs ys hs k)

All-unique : (ts : List Text) → All IsElided ts → All IsElided (unique ts)
All-unique [] h = tt
All-unique (t ∷ ts) (h, hs) = elim (Bool-cases (contains ts t)) [
  | inl e ↦ rw e (All-unique ts hs)
  | inr e ↦ rw e (h, All-unique ts hs)
]

module _ (hex : HexCodec) (form : ShortForm hex) where
  add_rows-elided :
      (ts : List Text) (assets : Items)
      → All IsElided ts
      → add_rows hex (map some ts) assets ≡ assets
  add_rows-elided [] assets h = refl
  add_rows-elided (t ∷ ts) assets (h, hs) =
      rw (add_rows, form.digits_only t h) (add_rows-elided ts assets hs)

  module _ (units : Units) where
    open units use {F64}

    abbrev RowIsElided : LiquidationRow F64 → Type 0
    RowIsElided r = IsElided r.profit_asset × IsElided r.collateral_asset

    -- Each address of a liquidation is saved in its short form.
    abbrev pub IsShort : Database F64 → Type 0
    IsShort db = All RowIsElided db.liquidations

    save_liquidation-IsShort :
        (db : Database F64) (r : LiquidationRecord F64)
        → IsShort db
        → IsShort (save_liquidation form.to_string db r)
    unfolding save_liquidation
    save_liquidation-IsShort db r h =
        insert_or_ignore-All (λ x. x.tx_hash) RowIsElided db.liquidations _
          (form.elided r.profit_asset, form.elided r.collateral_asset) h

    settle-IsShort :
        (answers : Answers) (db n : Database F64)
        → IsShort db
        → IsShort n
        → IsShort (settle hex units form.to_string db (if_executes hex units answers n)).0
    settle-IsShort answers db n h k = elim (Bool-cases answers.executes) [
      | inl e ↦ rw e k
      | inr e ↦ rw e h
    ]

    failed-IsShort :
        (db : Database F64) (e : Trouble)
        → IsShort db
        → IsShort (settle hex units form.to_string db (err e)).0
    failed-IsShort db (panicked e) h = h
    failed-IsShort db failed h = h

    liquidation-IsShort :
        (answers : Answers) (db : Database F64) (r : Result Trouble (LiquidationRecord F64))
        → IsShort db
        → IsShort
            (settle hex units form.to_string db
              (handle_liquidation_event hex units form.to_string db answers r)).0
    liquidation-IsShort answers db (err e) h = failed-IsShort db e h
    liquidation-IsShort answers db (ok r) h =
        settle-IsShort answers db (save_liquidation form.to_string db r) h
          (save_liquidation-IsShort db r h)

    distribution-IsShort :
        (answers : Answers) (db : Database F64) (r : Result Trouble (DistributionRecord F64))
        → IsShort db
        → IsShort
            (settle hex units form.to_string db
              (handle_distribution_event hex units form.to_string db answers r)).0
    unfolding save_distribution
    distribution-IsShort answers db (err e) h = failed-IsShort db e h
    distribution-IsShort answers db (ok r) h =
        settle-IsShort answers db (save_distribution db r) h h

    step-IsShort :
        (db : Database F64) (e : StreamEvent)
        → IsShort db
        → IsShort (step hex units form.to_string db e).0
    unfolding step handle_event
    step-IsShort db shutdown h = h
    step-IsShort db stream_closed h = h
    step-IsShort db stream_error h = h
    step-IsShort db (indexed (position_liquidated mode b c p profit time) hash block answers) h =
        liquidation-IsShort answers db
          (liquidation_record hex units answers mode b c p profit time (hex.show_hash hash) block) h
    step-IsShort db (indexed (profit_distributed asset owner breet time) hash block answers) h =
        distribution-IsShort answers db
          (distribution_record hex units answers asset owner breet time (hex.show_hash hash)) h
    step-IsShort db (indexed other_event hash block answers) h = h

    then_go-IsShort :
        (es : List StreamEvent) (t : Turn hex units form.to_string)
        → ((n : Database F64) → IsShort n → IsShort (start hex units form.to_string n es))
        → IsShort t.0
        → IsShort (then_go hex units form.to_string (λ n. start hex units form.to_string n es) t)
    then_go-IsShort es (n, true) k h = k n h
    then_go-IsShort es (n, false) k h = h

    start-IsShort :
        (db : Database F64) (es : List StreamEvent)
        → IsShort db
        → IsShort (start hex units form.to_string db es)
    unfolding start
    start-IsShort db [] h = h
    start-IsShort db (e ∷ es) h =
        then_go-IsShort es (step hex units form.to_string db e) (λ n k. start-IsShort n es k)
          (step-IsShort db e h)

    columns :
        (rows : List (LiquidationRow F64))
        → All RowIsElided rows
        → All IsElided (map (λ r. r.profit_asset) rows)
          × All IsElided (map (λ r. r.collateral_asset) rows)
    columns [] h = (tt, tt)
    columns (r ∷ rows) ((p, c), h) = let (ps, cs) = columns rows h in ((p, ps), (c, cs))

    -- From empty tables, whatever events have been recorded, the query over the records adds no asset
    -- to those that are always distributed: the texts of its rows are not read as addresses.
    pub discover_active_assets-recorded :
        (chain : Chain) (tokens : Tokens) (p : Progress chain) (es : List StreamEvent)
        → chain.fetch_all p.state
          ≡ some (
              asset_rows (
                start hex units form.to_string
                  (record { liquidations = []; distributions = [] })
                  es))
        → discover_active_assets chain tokens hex p ≡ some (profit_dist_assets tokens)
    unfolding discover_active_assets asset_rows
    discover_active_assets-recorded chain tokens p es e =
        let db =
          start hex units form.to_string (record { liquidations = []; distributions = [] }) es in
        let (ps, cs) =
          columns db.liquidations
            (start-IsShort (record { liquidations = []; distributions = [] }) es tt) in
        rw (discover_active_assets, e)
          (ap some
            (add_rows-elided _ (profit_dist_assets tokens) (All-unique _ (All-append _ _ ps cs))))
