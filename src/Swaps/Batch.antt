-- ===== src/Swaps/Batch.antt =====
-- src/adapters/uniswap_v3_adapter.rs: the routes between two tokens, and the best of them, asked for in
-- one batch.
pub mod Answers
pub mod Candidates
pub mod Best
pub mod Routes
use liq_ranger.Base.{
  ℕ, ◌-◌, Bool, true, false, ltb, ◌==◌, ◌||◌, if◌then◌else◌, not, Option, none, some, List, [], ◌∷◌,
  ◌++◌, ok, err, ◌>>=◌,
}
use liq_ranger.Base.Word.{Checked, index_out_of_bounds}
use liq_ranger.Core.Identity.{Address}
use liq_ranger.Swaps.Path.{encode_v3_path}

pub data RouteTopology : Type 0 where
  single_hop : (fee : ℕ) → RouteTopology
  multi_hop : (path : List ℕ) → RouteTopology

pub data RouteMeta : Type 0 where
  single_meta : (fee : ℕ) → RouteMeta
  multi_meta : (path : List ℕ) → RouteMeta

abbrev pub topology_of : RouteMeta → RouteTopology
topology_of (single_meta fee) = single_hop fee
topology_of (multi_meta path) = multi_hop path

pub record Response : Type 0 where
  pub success : Bool
  pub return_data : List ℕ

-- The quoter and the multicall contract; `none` is a failed call, or data that do not encode or decode.
pub record Quoter : Type 0 where
  pub quote_exact_input_single : (token_in token_out fee amount : ℕ) → Option ℕ
  pub quote_exact_input : (path : List ℕ) (amount : ℕ) → Option ℕ
  pub single_calldata : (token_in token_out fee amount : ℕ) → Option (List ℕ)
  pub path_calldata : (path : List ℕ) (amount : ℕ) → Option (List ℕ)
  pub aggregate_3 : List (List ℕ) → Option (List Response)
  pub decode_single : List ℕ → Option ℕ
  pub decode_multi : List ℕ → Option ℕ

abbrev pub single_fee_tiers : List ℕ
single_fee_tiers = 100 ∷ 500 ∷ 3000 ∷ 10_000 ∷ []

abbrev pub multihop_fee_tiers : List ℕ
multihop_fee_tiers = 500 ∷ 3000 ∷ []

abbrev pub fallback : ℕ × RouteTopology
fallback = (0, single_hop 3000)

module _ (src_token dest_token : Address) where
  abbrev pub single_routes : List ℕ → List RouteMeta
  single_routes [] = []
  single_routes (fee ∷ fees) = single_meta fee ∷ single_routes fees

  abbrev pub is_valid : Address → Bool
  is_valid hub = not (hub == src_token || hub == dest_token)

  abbrev pub valid_hubs : List Address → List Address
  valid_hubs [] = []
  valid_hubs (hub ∷ hubs) = if is_valid hub then hub ∷ valid_hubs hubs else valid_hubs hubs

  -- The loops over the first and the second fee, and over the hubs.
  abbrev pub second_fees : Address → ℕ → List ℕ → Checked (List RouteMeta)
  second_fees hub fee_1 [] = ok []
  second_fees hub fee_1 (fee_2 ∷ fees) = do
    path ← encode_v3_path (src_token ∷ hub ∷ dest_token ∷ []) (fee_1 ∷ fee_2 ∷ [])
    rest ← second_fees hub fee_1 fees
    ok (multi_meta path ∷ rest)

  abbrev pub first_fees : Address → List ℕ → Checked (List RouteMeta)
  first_fees hub [] = ok []
  first_fees hub (fee_1 ∷ fees) = do
    here ← second_fees hub fee_1 multihop_fee_tiers
    rest ← first_fees hub fees
    ok (here ++ rest)

  abbrev pub multi_routes : List Address → Checked (List RouteMeta)
  multi_routes [] = ok []
  multi_routes (hub ∷ hubs) = do
    here ← first_fees hub multihop_fee_tiers
    rest ← multi_routes hubs
    ok (here ++ rest)

  unfoldable pub routes : List Address → Checked (List RouteMeta)
  routes hubs = do
    multi ← multi_routes (valid_hubs hubs)
    ok (single_routes single_fee_tiers ++ multi)

module _ (quoter : Quoter) where
  open quoter use {single_calldata, path_calldata, aggregate_3, decode_single, decode_multi}

  module _ (src_token dest_token amount : ℕ) where
    abbrev pub calldata : RouteMeta → Option (List ℕ)
    calldata (single_meta fee) = single_calldata src_token dest_token fee amount
    calldata (multi_meta path) = path_calldata path amount

    abbrev pub add_call :
        Option (List ℕ)
        → RouteMeta
        → List (List ℕ) × List RouteMeta
        → List (List ℕ) × List RouteMeta
    add_call none m calls = calls
    add_call (some call) m (calls, metas) = (call ∷ calls, m ∷ metas)

    -- The calls, and the route of each.
    abbrev pub batch : List RouteMeta → List (List ℕ) × List RouteMeta
    batch [] = ([], [])
    batch (m ∷ ms) = add_call (calldata m) m (batch ms)

  abbrev pub decoded : RouteMeta → List ℕ → Option ℕ
  decoded (single_meta fee) bytes = decode_single bytes
  decoded (multi_meta path) bytes = decode_multi bytes

  abbrev pub is_blank : List ℕ → Bool
  is_blank [] = true
  is_blank (b ∷ bs) = false

  abbrev pub is_skipped : Response → Bool
  is_skipped r = not r.success || is_blank r.return_data

  -- The amount that a response stands for.
  abbrev pub answer : RouteMeta → Response → Option ℕ
  answer m r = if is_skipped r then none else decoded m r.return_data

  abbrev pub better : Option ℕ → RouteMeta → ℕ × RouteTopology → ℕ × RouteTopology
  better none m best = best
  better (some out) m (best_out, best_topology) =
      if ltb best_out out then (out, topology_of m) else (best_out, best_topology)

  -- The loop over the responses; a response that is looked at has a route.
  unfoldable pub best_of :
      List RouteMeta → List Response → ℕ × RouteTopology → Checked (ℕ × RouteTopology)
  best_of ms [] best = ok best
  best_of [] (r ∷ rs) best =
      let rest = best_of [] rs best in if is_skipped r then rest else err index_out_of_bounds
  best_of (m ∷ ms) (r ∷ rs) best = best_of ms rs (better (answer m r) m best)

  from_batch : Option (List Response) → List RouteMeta → Checked (ℕ × RouteTopology)
  unfolding best_of
  from_batch none ms = ok fallback
  from_batch (some responses) ms = best_of ms responses fallback

  send : List (List ℕ) × List RouteMeta → Checked (ℕ × RouteTopology)
  unfolding from_batch
  send ([], ms) = ok fallback
  send (call ∷ calls, ms) = from_batch (aggregate_3 (call ∷ calls)) ms

  unfoldable pub find_best_route_multicall :
      (src_token dest_token amount : ℕ) → List Address → Checked (ℕ × RouteTopology)
  unfolding routes send
  find_best_route_multicall src_token dest_token amount hubs = do
    metas ← routes src_token dest_token hubs
    send (batch src_token dest_token amount metas)

  abbrev pub or_none : Option ℕ → ℕ
  or_none none = 0
  or_none (some out) = out

  -- A route of the cache, quoted again (`quote_single_hop`, or the call of `quote_exact_input`).
  abbrev pub requote : (src_token dest_token amount : ℕ) → RouteTopology → ℕ
  requote src dest amount (single_hop fee) =
      or_none (quoter.quote_exact_input_single src dest fee amount)
  requote src dest amount (multi_hop path) = or_none (quoter.quote_exact_input path amount)
