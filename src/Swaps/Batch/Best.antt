-- ===== src/Swaps/Batch/Best.antt =====
-- src/adapters/uniswap_v3_adapter.rs: the best of the routes of one batch.
use liq_ranger.Base.{
  ℕ, ◌≤◌, ◌<◌, ◌≡◌, ◌⊎◌, inl, inr, refl, sym, ltb, Option, none, some, List, [], ◌∷◌, ok, arith, ap,
  ◌∙◌, Bool-cases, Option-cases, Result-cases,
}
use liq_ranger.Core.Identity.{Address}
use liq_ranger.Swaps.Batch.{
  RouteTopology, single_hop, multi_hop, single_meta, multi_meta, RouteMeta, topology_of, Response,
  Quoter, fallback, routes, batch, answer, better, best_of, from_batch, send,
  find_best_route_multicall, is_skipped, or_none,
}
use liq_ranger.Swaps.Batch.Answers.{Says, answer-Says, IsBatch, batch-IsBatch}
use liq_ranger.Swaps.Batch.Candidates.{IsTried, routes-IsTried}

module _ (quoter : Quoter) where
  -- The route that is returned for one that was tried.
  abbrev pub IsAlong : RouteMeta → RouteTopology → Type 0
  IsAlong (single_meta fee) t = t ≡ single_hop fee
  IsAlong (multi_meta path) t = t ≡ multi_hop path

  along : (m : RouteMeta) (t : RouteTopology) → t ≡ topology_of m → IsAlong m t
  along (single_meta fee) t e = e
  along (multi_meta path) t e = e

  -- A response of the list says this amount, along this route.
  abbrev pub Answered : List RouteMeta → List Response → ℕ → RouteTopology → Type 0
  Answered ms [] out t = ⊥
  Answered [] (r ∷ rs) out t = ⊥
  Answered (m ∷ ms) (r ∷ rs) out t = (Says quoter m r out × IsAlong m t) ⊎ Answered ms rs out t

  -- No response says a higher amount.
  abbrev pub AtMost : ℕ → List RouteMeta → List Response → Type 0
  AtMost n ms [] = Unit
  AtMost n [] (r ∷ rs) = Unit
  AtMost n (m ∷ ms) (r ∷ rs) = ((out : ℕ) → Says quoter m r out → out ≤ n) × AtMost n ms rs

  better_cases :
      (o : Option ℕ) (m : RouteMeta) (best : ℕ × RouteTopology)
      → ((better quoter o m best ≡ best) × ((out : ℕ) → o ≡ some out → out ≤ best.0))
        ⊎ ((out : ℕ) × (o ≡ some out)
            × (best.0 < out)
            × (better quoter o m best ≡ (out, topology_of m)))
  better_cases none m best = inl (refl, λ out e. absurd (cc))
  better_cases (some out) m (n, t) = elim (Bool-cases (ltb n out)) [
    | inl e ↦ inr (out, refl, ground arith, rw e refl)
    | inr e ↦ inl (rw e refl, λ x q. ground arith)
  ]

  from_none :
      (rs : List Response) (best found : ℕ × RouteTopology)
      → (found ≡ best) ⊎ Answered [] rs found.0 found.1
      → (found ≡ best) ⊎ ⊥
  from_none rs best found (inl e) = inl e
  from_none [] best found (inr a) = inr a
  from_none (r ∷ rs) best found (inr a) = inr a

  -- The best of a list is no worse than the one before, and is that one or a response's.
  best_of-IsBest :
      (ms : List RouteMeta) (rs : List Response) (best found : ℕ × RouteTopology)
      → best_of quoter ms rs best ≡ ok found
      → (best.0 ≤ found.0)
        × AtMost found.0 ms rs
        × ((found ≡ best) ⊎ Answered ms rs found.0 found.1)
  unfolding best_of
  best_of-IsBest ms [] best found e =
      let q : found ≡ best = cc in (omega (arith, ap (λ x. x.0) q), tt, inl q)
  best_of-IsBest [] (r ∷ rs) best found e = elim (Bool-cases (is_skipped quoter r)) [
    | inr b ↦ absurd (ground arith)
    | inl b ↦
        let (least, most, from) = best_of-IsBest [] rs best found (rw b at e) in
        (least, tt, from_none rs best found from)
  ]
  best_of-IsBest (m ∷ ms) (r ∷ rs) best found e =
      let (least, most, from) =
        best_of-IsBest ms rs (better quoter (answer quoter m r) m best) found e in
      let says = answer-Says quoter m r in
      elim (better_cases (answer quoter m r) m best) [
        | inl (same, low) ↦
            let step = ap (λ x. x.0) same in
            (
              omega (arith, least, step),
              ((λ out q. omega (arith, low out ((says out).1 q), least, step)), most),
              elim from [ inl f ↦ inl (f ∙ same) | inr a ↦ inr (inr a) ],
            )
        | inr (out, q, l, new) ↦
            let step = ap (λ x. x.0) new in
            (
              omega (arith, least, step, l),
              (
                (λ x p.
                    omega
                      (arith, ap (λ o. or_none quoter o) (sym ((says x).1 p) ∙ q), least, step)),
                most,
              ),
              elim from [
                | inl f ↦ inr (
                    inl (
                      (says found.0).0 (q ∙ ap some (sym (ap (λ x. x.0) (f ∙ new)))),
                      along m _ (ap (λ x. x.1) (f ∙ new)),
                    ))
                | inr a ↦ inr (inr a)
              ],
            )
      ]

  -- What a batch leads to: the fallback, if there is no answer to it, and otherwise the highest
  -- amount among the responses, with its route.
  abbrev pub IsBest : List (List ℕ) → List RouteMeta → ℕ × RouteTopology → Type 0
  IsBest calls ms found =
      ((found ≡ (0, single_hop 3000)) × ((calls ≡ []) ⊎ (quoter.aggregate_3 calls ≡ none)))
      ⊎ ((responses : List Response) × (quoter.aggregate_3 calls ≡ some responses)
          × AtMost found.0 ms responses
          × ((found ≡ (0, single_hop 3000)) ⊎ Answered ms responses found.0 found.1))

  send-IsBest :
      (calls : List (List ℕ)) (ms : List RouteMeta) (found : ℕ × RouteTopology)
      → send quoter (calls, ms) ≡ ok found
      → IsBest calls ms found
  unfolding send from_batch
  send-IsBest [] ms found e = inl (cc, inl refl)
  send-IsBest (c ∷ cs) ms found e = elim (Option-cases (quoter.aggregate_3 (c ∷ cs))) [
    | inl n ↦ let f = rw n at e in inl (cc, inr n)
    | inr (rs, q) ↦
        let (least, most, from) = best_of-IsBest ms rs fallback found (rw q at e) in
        inr (rs, q, most, from)
  ]

  -- The search is over one pool at each of four fees, and over two pools that meet at any of the other
  -- tokens, each at two fees. It sends one batch of the contracts' calls for these routes, the tokens
  -- and the amount. If that is answered, no response of the batch says more than the amount found,
  -- and some response says just that for the route found, unless it is zero.
  pub find_best_route_multicall-IsBest :
      (src dest amount : ℕ) (hubs : List Address) (found : ℕ × RouteTopology)
      → find_best_route_multicall quoter src dest amount hubs ≡ ok found
      → (metas : List RouteMeta) × (calls : List (List ℕ)) × (asked : List RouteMeta) × IsTried src
          dest hubs metas
        × IsBatch quoter src dest amount metas calls asked
        × IsBest calls asked found
  unfolding find_best_route_multicall
  find_best_route_multicall-IsBest src dest amount hubs found e =
      elim (Result-cases (routes src dest hubs)) [
        | inr n ↦ absurd (ground arith)
        | inl (metas, q) ↦
            let (calls, asked) = batch quoter src dest amount metas in
            (
              metas,
              calls,
              asked,
              routes-IsTried src dest hubs metas q,
              batch-IsBatch quoter src dest amount metas,
              send-IsBest calls asked found (rw q at e),
            )
      ]
