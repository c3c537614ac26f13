-- ===== src/Swaps/Batch/Routes.antt =====
-- src/adapters/uniswap_v3_adapter.rs: what a search returns is a route, and its amount was answered.
use liq_ranger.Base.{ℕ, ◌≡◌, ◌≢◌, ◌⊎◌, inl, inr, refl, subst, sym, some, List, [], ◌∷◌, All, ok}
use liq_ranger.Core.Identity.{Address}
use liq_ranger.Swaps.Batch.{
  RouteTopology, single_hop, multi_hop, RouteMeta, single_meta, multi_meta, topology_of, Response,
  Quoter, find_best_route_multicall,
}
use liq_ranger.Swaps.Batch.Answers.{IsBatch, nothing, skips, asks}
use liq_ranger.Swaps.Batch.Candidates.{path_over, IsOver, IsTried}
use liq_ranger.Swaps.Batch.Best.{IsAlong, Answered, find_best_route_multicall-IsBest}

module _ (src dest : Address) where
  -- A route between the two tokens: one pool, or two pools that meet at a third token.
  pub data IsRoute : RouteTopology → Type 0 where
    one_pool : (fee : ℕ) → IsRoute (single_hop fee)
    two_pools :
        (hub fee_1 fee_2 : ℕ)
        → hub ≢ src
        → hub ≢ dest
        → IsRoute (multi_hop (path_over src dest hub fee_1 fee_2))

  AreRoutes : List RouteMeta → Type 0
  AreRoutes = All λ m. IsRoute (topology_of m)

  IsOver-AreRoutes :
      (hubs : List Address) (ms : List RouteMeta) → IsOver src dest hubs ms → AreRoutes ms
  unfolding AreRoutes
  IsOver-AreRoutes [] ms e = subst AreRoutes (sym e) tt
  IsOver-AreRoutes (hub ∷ hubs) ms (inl (k, h)) = IsOver-AreRoutes hubs ms h
  IsOver-AreRoutes (hub ∷ hubs) ms (inr (p, q, (rest, e, h))) = subst AreRoutes (sym e) (
    two_pools hub 500 500 p q,
    (
      two_pools hub 500 3000 p q,
      (two_pools hub 3000 500 p q, (two_pools hub 3000 3000 p q, IsOver-AreRoutes hubs rest h)),
    ),
  )

  IsTried-AreRoutes :
      (hubs : List Address) (ms : List RouteMeta) → IsTried src dest hubs ms → AreRoutes ms
  unfolding AreRoutes
  IsTried-AreRoutes hubs ms (rest, e, h) = subst AreRoutes (sym e) (
    one_pool 100,
    (one_pool 500, (one_pool 3000, (one_pool 10_000, IsOver-AreRoutes hubs rest h))),
  )

  module _ (quoter : Quoter) (amount : ℕ) where
    batch-AreRoutes :
        {ms asked : List RouteMeta} {calls : List (List ℕ)}
        → IsBatch quoter src dest amount ms calls asked
        → AreRoutes ms
        → AreRoutes asked
    unfolding AreRoutes
    batch-AreRoutes nothing a = tt
    batch-AreRoutes (skips m ms asked calls e b) a = batch-AreRoutes b a.1
    batch-AreRoutes (asks m ms asked call calls e b) a = (a.0, batch-AreRoutes b a.1)

    IsAlong-IsRoute :
        (m : RouteMeta) (t : RouteTopology)
        → IsAlong quoter m t
        → IsRoute (topology_of m)
        → IsRoute t
    IsAlong-IsRoute (single_meta fee) t e h = subst IsRoute (sym e) h
    IsAlong-IsRoute (multi_meta path) t e h = subst IsRoute (sym e) h

    Answered-IsRoute :
        (ms : List RouteMeta) (rs : List Response) (out : ℕ) (t : RouteTopology)
        → AreRoutes ms
        → Answered quoter ms rs out t
        → IsRoute t
    unfolding AreRoutes
    Answered-IsRoute ms [] out t a x = absurd x
    Answered-IsRoute [] (r ∷ rs) out t a x = absurd x
    Answered-IsRoute (m ∷ ms) (r ∷ rs) out t a (inl (q, e)) = IsAlong-IsRoute m t e a.0
    Answered-IsRoute (m ∷ ms) (r ∷ rs) out t a (inr x) = Answered-IsRoute ms rs out t a.1 x

    -- The quoter's answer to the question for this route alone.
    abbrev pub IsAnswer : ℕ → RouteTopology → Type 0
    IsAnswer out (single_hop fee) = quoter.quote_exact_input_single src dest fee amount ≡ some out
    IsAnswer out (multi_hop path) = quoter.quote_exact_input path amount ≡ some out

    -- The contracts have answered this amount for the route: on its own, or in a batch for the routes
    -- between the two tokens.
    abbrev pub IsQuoted : List Address → ℕ → RouteTopology → Type 0
    IsQuoted hubs out t =
        IsAnswer out t
        ⊎ ((metas : List RouteMeta) × (calls : List (List ℕ)) × (asked : List RouteMeta)
            × (responses : List Response) × IsTried src dest hubs metas
            × IsBatch quoter src dest amount metas calls asked
            × (quoter.aggregate_3 calls ≡ some responses)
            × Answered quoter asked responses out t)

    -- A route, and the amount that is quoted for it unless that is zero.
    abbrev pub IsSound : List Address → ℕ × RouteTopology → Type 0
    IsSound hubs found = IsRoute found.1 × ((found.0 ≡ 0) ⊎ IsQuoted hubs found.0 found.1)

    pub fallback-IsSound :
        (hubs : List Address) (found : ℕ × RouteTopology)
        → found ≡ (0, single_hop 3000)
        → IsSound hubs found
    fallback-IsSound hubs found f = subst (IsSound hubs) (sym f) (one_pool 3000, inl refl)

    pub find_best-IsSound :
        (hubs : List Address) (found : ℕ × RouteTopology)
        → find_best_route_multicall quoter src dest amount hubs ≡ ok found
        → IsSound hubs found
    find_best-IsSound hubs found e =
        let (metas, calls, asked, tried, sent, b) =
          find_best_route_multicall-IsBest quoter src dest amount hubs found e in
        elim b [
          | inl (f, n) ↦ fallback-IsSound hubs found f
          | inr (rs, g, most, inl f) ↦ fallback-IsSound hubs found f
          | inr (rs, g, most, inr a) ↦ (
            Answered-IsRoute asked rs found.0 found.1
                (batch-AreRoutes sent (IsTried-AreRoutes hubs metas tried)) a,
            inr (inr (metas, calls, asked, rs, tried, sent, g, a)),
          )
        ]
