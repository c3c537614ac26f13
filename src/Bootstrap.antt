-- ===== src/Bootstrap.antt =====
-- src/adapters/aave_bootstrap_adapter.rs, src/adapters/morpho_bootstrap_adapter.rs: the loop over
-- batches of blocks that both adapters write out. What differs is a parameter: the batch size, the
-- block of deployment, the texts that a batch yields and the watchlist.
pub mod Aave
pub mod Morpho
pub mod Batch
pub mod Coverage
pub mod Complete
pub mod Watched
pub mod Executor
pub mod State
use liq_ranger.Base.{
  ℕ, zero, suc, ◌+◌, ◌-◌, Bool, leb, ltb, if◌then◌else◌, Option, none, some, List, [], ◌∷◌, Result,
  ok, err,
}
use liq_ranger.Base.Word.{saturating_sub}
use liq_ranger.Core.Identity.{Text}
use liq_ranger.Readers.Morpho.{unique}
use liq_ranger.Watchlists.Tracked.{DbError}

pub data BootstrapError : Type 0 where
  state_failed provider_failed rpc_failed watchlist_failed out_of_fuel : BootstrapError

-- The node and the store of the last block: whether the store reads, the latest block, the logs of
-- a range at each attempt, and whether the store takes a block.
pub record Node (Logs : Type 0) : Type 0 where
  pub state_reads : Bool
  pub get_block_number : Option ℕ
  pub query : (attempt first last : ℕ) → Option Logs
  pub state_takes : ℕ → Bool

-- The watchlist, the saved block, and the ranges scanned and saved, newest first.
pub record Progress (L : Type 0) : Type 0 where
  pub watch_list : L
  pub last_block : Option ℕ
  pub scanned : List (ℕ × ℕ)

pub record Adapter (Logs L : Type 0) : Type 0 where
  pub batch_size : ℕ
  pub deploy_block : ℕ
  pub entries_of : Logs → List Text
  pub contains_identity : L → Text → Bool
  pub add : L → Text → Result DbError (Unit {0}) × L

abbrev pub Outcome : Type 0 → Type 0
Outcome L = Result BootstrapError (Unit {0}) × Progress L

abbrev pub overlap : ℕ
overlap = 20

abbrev pub or_default : Option ℕ → ℕ → ℕ
or_default none d = d
or_default (some b) d = b

abbrev pub smaller : ℕ → ℕ → ℕ
smaller a b = if ltb b a then b else a

abbrev pub start_block : {Logs L : Type 0} → Adapter Logs L → Progress L → ℕ
start_block adapter p = saturating_sub (or_default p.last_block adapter.deploy_block) overlap

module _ {Logs L : Type 0} (adapter : Adapter Logs L) where
  open adapter use {contains_identity, add}

  -- The texts that are not tracked yet are added; the first failure ends it.
  unfoldable pub add_entries : List Text → L → Result DbError (Unit {0}) × L
  add_entries [] list = (ok tt, list)
  add_entries (entry ∷ entries) list =
      if contains_identity list entry then add_entries entries list else elim (add list entry).0 [
        | err e ↦ (err e, (add list entry).1)
        | ok u ↦ add_entries entries (add list entry).1
      ]

module _ {Logs L : Type 0} (adapter : Adapter Logs L) (node : Node Logs) where
  open adapter use {batch_size, entries_of}

  -- Up to `left` more attempts.
  abbrev pub retry : (left attempt first last : ℕ) → Option Logs
  retry zero attempt first last = none
  retry (suc left) attempt first last = elim (node.query attempt first last) [
    | some logs ↦ some logs
    | none ↦ retry left (suc attempt) first last
  ]

  unfoldable pub fetch_batch : (first last : ℕ) → Option Logs
  fetch_batch first last = retry 5 0 first last

  save : (first last : ℕ) → L → Progress L → Result BootstrapError ℕ × Progress L
  save first last list p =
      if node.state_takes last
      then (
        ok (last + 1),
        record { watch_list = list; last_block = some last; scanned = (first, last) ∷ p.scanned },
      )
      else (err state_failed, record p { watch_list = list })

  record_logs : (first last : ℕ) → Logs → Progress L → Result BootstrapError ℕ × Progress L
  unfolding add_entries save
  record_logs first last logs p =
      let (r, list) = add_entries adapter (unique (entries_of logs)) p.watch_list in
      elim r [
        | err e ↦ (err watchlist_failed, record p { watch_list = list })
        | ok u ↦ save first last list p
      ]

  -- The body of the loop: the next start block.
  unfoldable pub scan_batch : (first latest : ℕ) → Progress L → Result BootstrapError ℕ × Progress L
  unfolding fetch_batch record_logs
  scan_batch first latest p =
      let last = smaller (first + batch_size) latest in
      elim (fetch_batch first last) [
        | none ↦ (err rpc_failed, p)
        | some logs ↦ record_logs first last logs p
      ]

  unfoldable pub scan : (fuel first latest : ℕ) → Progress L → Outcome L
  unfolding scan_batch
  scan zero first latest p = if leb first latest then (err out_of_fuel, p) else (ok tt, p)
  scan (suc fuel) first latest p =
      if leb first latest
      then elim (scan_batch first latest p).0 [
        | err e ↦ (err e, (scan_batch first latest p).1)
        | ok next ↦ scan fuel next latest (scan_batch first latest p).1
      ]
      else (ok tt, p)

  -- Fuel for one batch per block is enough.
  scan_from_latest : Option ℕ → Progress L → Outcome L
  unfolding scan
  scan_from_latest none p = (err provider_failed, p)
  scan_from_latest (some latest) p =
      scan (latest + 1 - start_block adapter p) (start_block adapter p) latest p

  unfoldable pub run : Progress L → Outcome L
  unfolding scan_from_latest
  run p =
      if node.state_reads then scan_from_latest node.get_block_number p else (err state_failed, p)
