-- ===== src/Startup/Ready.antt =====
-- src/lib.rs: what holds once the tasks are spawned.
use liq_ranger.Base.{
  ◌≡◌, refl, sym, ap, ◌∙◌, Bool, true, false, ◌==◌, ==_iff, Option, some, List, [], ◌∷◌, Result, ok,
  err, Bool-cases, inl, inr, Option-cases, guard, map_err, ◌>>◌, or_fail, not, and_then-eq-ok,
  or_fail-eq-ok, ok-eq-ok, map_err-eq-ok,
}
use liq_ranger.Core.Identity.{HexCodec, Address}
use liq_ranger.Bootstrap.Executor.{finished, run_all, run_all-eq-ok}
use liq_ranger.Bootstrap.{BootstrapError}
use liq_ranger.Bootstrap.Morpho.Dropped.{run_morpho_same}
use liq_ranger.Readers.Aave.{
  Account, Tokens, vdebt_mapping, populate_vdebt_tokens, then_ask, has_outstanding_debt,
}
use liq_ranger.Watchlists.Cache.{lookup, insert, lookup-insert, has}
use liq_ranger.Watchlists.Sled.{Sled}
use liq_ranger.Watchlists.Tracked.{WatchList}
use liq_ranger.Startup.{
  Setup, Running, no_connection, bad_url, no_directory, no_sled, no_sqlite, no_tree,
  not_bootstrapped, no_vdebt_tokens, start_services, open_list, fetch_watchlists, bootstrap_aave,
  bootstrap_morpho, bootstraps, launch,
}

guarded-eq-ok :
    {Fault V : Type 0} (b : Bool) (fault : Fault) (rest : Result Fault V) (v : V)
    → (guard b fault >> rest) ≡ ok v
    → (b ≡ true) × (rest ≡ ok v)
guarded-eq-ok true fault rest v e = (refl, e)
guarded-eq-ok false fault rest v e = absurd (cc)

then-eq-ok :
    {Fault V : Type 0} (r : Result Fault (Unit {0})) (rest : Result Fault V) (v : V)
    → (r >> rest) ≡ ok v
    → (r ≡ ok tt) × (rest ≡ ok v)
then-eq-ok (ok u) rest v e = (refl, e)
then-eq-ok (err fault) rest v e = absurd (cc)

finished-eq-finished : (r s : Result BootstrapError (Unit {0})) → finished r ≡ finished s → r ≡ s
finished-eq-finished r s e = cc

both_succeeded :
    (r s : Result BootstrapError (Unit {0}))
    → run_all (finished r ∷ finished s ∷ []) ≡ ok tt
    → (r ≡ ok tt) × (s ≡ ok tt)
both_succeeded r s e =
    let h = (run_all-eq-ok (finished r ∷ finished s ∷ [])).0 e in
    (finished-eq-finished r _ h.0, finished-eq-finished s _ h.1.0)

-- What was mapped stays mapped to the answer of its call.
module _ (variable_debt_token : Address → Option Address) where
  lookup-vdebt_mapping_kept :
      (rs : List Address) (m tokens : Tokens) (r : Address)
      → vdebt_mapping variable_debt_token rs m ≡ some tokens
      → (t : Address) × (variable_debt_token r ≡ some t) × (lookup r m ≡ some t)
      → (t : Address) × (variable_debt_token r ≡ some t) × (lookup r tokens ≡ some t)
  lookup-vdebt_mapping_kept [] m tokens r e (t, a, l) = (t, a, cc)
  lookup-vdebt_mapping_kept (s ∷ rs) m tokens r e (t, a, l) =
      elim (Option-cases (variable_debt_token s)) [
        | inl n ↦ absurd (cc)
        | inr (b, k) ↦ lookup-vdebt_mapping_kept rs (insert s b m) tokens r (rw k at e) (
          t,
          a,
          rw (lookup-insert s r b m) (elim (Bool-cases (r == s)) [
            | inl q ↦ rw q (sym k ∙ ap variable_debt_token (sym ((==_iff r s).0 q)) ∙ a)
            | inr q ↦ rw q l
          ]),
        )
      ]

  lookup-vdebt_mapping :
      (rs : List Address) (m tokens : Tokens) (r : Address)
      → vdebt_mapping variable_debt_token rs m ≡ some tokens
      → has rs r ≡ true
      → (t : Address) × (variable_debt_token r ≡ some t) × (lookup r tokens ≡ some t)
  lookup-vdebt_mapping [] m tokens r e h = absurd (cc)
  lookup-vdebt_mapping (s ∷ rs) m tokens r e h = elim (Option-cases (variable_debt_token s)) [
    | inl n ↦ absurd (cc)
    | inr (b, k) ↦ elim (Bool-cases (r == s)) [
      | inl q ↦
          lookup-vdebt_mapping_kept rs (insert s b m) tokens r (rw k at e)
            (b, ap variable_debt_token ((==_iff r s).0 q) ∙ k, rw (lookup-insert s r b m, q) refl)
      | inr q ↦ lookup-vdebt_mapping rs (insert s b m) tokens r (rw k at e) (rw q at h)
    ]
  ]

has_outstanding_debt_mapped :
    (account : Account) (tokens : Tokens) (borrower reserve token : Address)
    → lookup reserve tokens ≡ some token
    → has_outstanding_debt account tokens borrower reserve
      ≡ then_ask (account.balance_of token borrower) λ debt. some (not (debt == 0))
unfolding has_outstanding_debt
has_outstanding_debt_mapped account tokens borrower reserve token l = rw l refl

-- What the launch leaves behind.
module _ (hex : HexCodec) (sled : Sled) (setup : Setup sled) where
  -- Each listed reserve has a token, whose balance is what a debt check reads.
  abbrev pub Readable : Tokens → Type 0
  Readable tokens =
      (reserve : Address)
      → has setup.reserves reserve ≡ true
      → (token : Address) × (setup.variable_debt_token reserve ≡ some token)
        × ((account : Account) (borrower : Address)
            → has_outstanding_debt account tokens borrower reserve
              ≡ then_ask (account.balance_of token borrower) λ debt. some (not (debt == 0)))

  populated :
      (tokens : Tokens)
      → populate_vdebt_tokens setup.variable_debt_token setup.reserves ≡ some tokens
      → Readable tokens
  populated tokens e reserve h =
      let (t, a, l) =
        lookup-vdebt_mapping setup.variable_debt_token setup.reserves [] tokens reserve e h in
      (t, a, λ account borrower. has_outstanding_debt_mapped account tokens borrower reserve t l)

  fetch_watchlists-eq-ok :
      (lists : WatchList sled × WatchList sled)
      → fetch_watchlists sled setup ≡ ok lists
      → (open_list sled setup.aave_tree ≡ ok lists.0)
        × (open_list sled setup.morpho_tree ≡ ok lists.1)
  unfolding fetch_watchlists
  fetch_watchlists-eq-ok lists e =
      let (aave, aave_opened, e₁) = and_then-eq-ok _ (open_list sled setup.aave_tree) lists e in
      let (morpho, morpho_opened, e₂) =
        and_then-eq-ok _ (open_list sled setup.morpho_tree) lists e₁ in
      let (state, e₃) = guarded-eq-ok setup.state_tree no_tree _ lists e₂ in
      let pair = ok-eq-ok (aave, morpho) lists e₃ in
      (aave_opened ∙ ap (λ x. ok x.0) pair, morpho_opened ∙ ap (λ x. ok x.1) pair)

  pub record IsReady (running : Running sled) : Type 0 where
    pub aave_loaded : WatchList sled
    pub aave_opened : open_list sled setup.aave_tree ≡ ok aave_loaded
    pub aave_bootstrapped : (bootstrap_aave sled hex setup aave_loaded).0 ≡ ok tt
    pub aave_list :
        running.aave_watchlist ≡ (bootstrap_aave sled hex setup aave_loaded).1.watch_list
    pub morpho_opened : open_list sled setup.morpho_tree ≡ ok running.morpho_watchlist
    pub morpho_bootstrapped : (bootstrap_morpho sled hex setup running.morpho_watchlist).0 ≡ ok tt
    pub spawned : running.handles ≡ start_services
    pub debts_readable : Readable running.vdebt_tokens

  -- When the launch succeeds, both lists have been opened and loaded and both bootstraps have
  -- succeeded, of which only that of Aave may have changed its list; the eight tasks are spawned,
  -- the block watcher last; and for each reserve of the configuration the chain has answered with a
  -- debt token, so that a debt check in this reserve reads the balance of the borrower in that token
  -- and fails only where this call fails.
  pub launch-IsReady :
      (running : Running sled) → launch sled hex setup ≡ ok running → IsReady running
  unfolding launch
  launch-IsReady running e =
      let (ws, e₁) = guarded-eq-ok setup.ws_connects no_connection _ running e in
      let (url, e₂) = guarded-eq-ok setup.url_parses bad_url _ running e₁ in
      let (directory, e₃) = guarded-eq-ok setup.directory_is_there no_directory _ running e₂ in
      let (opens, e₄) = guarded-eq-ok setup.sled_opens no_sled _ running e₃ in
      let (connects, e₅) = guarded-eq-ok setup.sqlite_connects no_sqlite _ running e₄ in
      let (lists, opened, e₆) = and_then-eq-ok _ (fetch_watchlists sled setup) running e₅ in
      let (aave_opened, morpho_opened) = fetch_watchlists-eq-ok lists opened in
      let (done, e₇) =
        then-eq-ok (map_err not_bootstrapped (run_all (bootstraps sled hex setup lists.0 lists.1)))
          _ running e₆ in
      let tokens_of = populate_vdebt_tokens setup.variable_debt_token setup.reserves in
      let (tokens, filled, e₈) = and_then-eq-ok _ (or_fail tokens_of no_vdebt_tokens) running e₇ in
      let (aave_ends, morpho_ends) =
        both_succeeded (bootstrap_aave sled hex setup lists.0).0
          (bootstrap_morpho sled hex setup lists.1).0 (map_err-eq-ok _ _ tt done) in
      let same =
        run_morpho_same hex (has setup.markets) sled setup.morpho_node
          (record { watch_list = lists.1; last_block = setup.morpho_last_block; scanned = [] }) in
      coe 0 1 (i. IsReady (ok-eq-ok _ running e₈ i)) record {
        aave_loaded = lists.0;
        aave_opened = aave_opened;
        aave_bootstrapped = aave_ends;
        aave_list = refl;
        morpho_opened = morpho_opened ∙ ap ok (sym same);
        morpho_bootstrapped = ap (λ l. (bootstrap_morpho sled hex setup l).0) same ∙ morpho_ends;
        spawned = refl;
        debts_readable = populated tokens (or_fail-eq-ok _ _ tokens filled);
      }
