-- ===== src/Swaps/Batch/Candidates.antt =====
-- src/adapters/uniswap_v3_adapter.rs: which routes are tried.
use liq_ranger.Base.{
  ℕ, ◌≡◌, ◌≢◌, ◌⊎◌, inl, inr, refl, sym, ap, ◌∙◌, ==_iff, ◌==◌, List, [], ◌∷◌, ◌++◌, ok, arith,
  Bool-cases, and_then-eq-ok, ok-eq-ok,
}
use liq_ranger.Core.Identity.{Address}
use liq_ranger.Swaps.Path.{be_bytes, encode_v3_path}
use liq_ranger.Swaps.Batch.{
  RouteMeta, single_meta, multi_meta, valid_hubs, first_fees, multihop_fee_tiers, multi_routes,
  routes,
}

module _ (src dest : Address) where
  -- The bytes of a path over two pools: each token in twenty bytes, each fee in three.
  abbrev pub path_over : (hub fee_1 fee_2 : ℕ) → List ℕ
  path_over hub fee_1 fee_2 =
      be_bytes 20 src
      ++ (be_bytes 3 fee_1 ++ (be_bytes 20 hub ++ (be_bytes 3 fee_2 ++ be_bytes 20 dest)))

  -- The four paths over a token that is none of the two.
  abbrev pub over : Address → List RouteMeta → List RouteMeta
  over hub rest =
      multi_meta (path_over hub 500 500)
      ∷ multi_meta (path_over hub 500 3000)
      ∷ multi_meta (path_over hub 3000 500)
      ∷ multi_meta (path_over hub 3000 3000)
      ∷ rest

  abbrev pub IsOver : List Address → List RouteMeta → Type 0
  IsOver [] ms = ms ≡ []
  IsOver (hub ∷ hubs) ms =
      (((hub ≡ src) ⊎ (hub ≡ dest)) × IsOver hubs ms)
      ⊎ ((hub ≢ src)
          × (hub ≢ dest)
          × ((rest : List RouteMeta) × (ms ≡ over hub rest) × IsOver hubs rest))

  -- One pool at each of four fees, and two pools over each other token.
  abbrev pub IsTried : List Address → List RouteMeta → Type 0
  IsTried hubs ms =
      (rest : List RouteMeta) × (ms
        ≡ single_meta 100 ∷ single_meta 500 ∷ single_meta 3000 ∷ single_meta 10_000 ∷ rest)
      × IsOver hubs rest

  encoded :
      (hub fee_1 fee_2 : ℕ)
      → encode_v3_path (src ∷ hub ∷ dest ∷ []) (fee_1 ∷ fee_2 ∷ []) ≡ ok (path_over hub fee_1 fee_2)
  unfolding encode_v3_path
  encoded hub fee_1 fee_2 = refl

  first_fees-over : (hub : ℕ) → first_fees src dest hub multihop_fee_tiers ≡ ok (over hub [])
  unfolding encode_v3_path
  first_fees-over hub = refl

  over_rest :
      (hub : ℕ) (hubs : List Address) (ms : List RouteMeta)
      → multi_routes src dest (hub ∷ valid_hubs src dest hubs) ≡ ok ms
      → ((rest : List RouteMeta)
          → multi_routes src dest (valid_hubs src dest hubs) ≡ ok rest
          → IsOver hubs rest)
      → (rest : List RouteMeta) × (ms ≡ over hub rest) × IsOver hubs rest
  over_rest hub hubs ms e ih =
      let (here, f, e₁) = and_then-eq-ok _ (first_fees src dest hub multihop_fee_tiers) ms e in
      let (rest, g, e₂) =
        and_then-eq-ok _ (multi_routes src dest (valid_hubs src dest hubs)) ms e₁ in
      let same = ok-eq-ok here (over hub []) (sym f ∙ first_fees-over hub) in
      (rest, sym (ok-eq-ok (here ++ rest) ms e₂) ∙ ap (λ l. l ++ rest) same, ih rest g)

  multi_routes-IsOver :
      (hubs : List Address) (ms : List RouteMeta)
      → multi_routes src dest (valid_hubs src dest hubs) ≡ ok ms
      → IsOver hubs ms
  multi_routes-IsOver [] ms e = sym (ok-eq-ok [] ms e)
  multi_routes-IsOver (hub ∷ hubs) ms e = elim (Bool-cases (hub == src)) [
    | inl p ↦ inl (inl ((==_iff hub src).0 p), multi_routes-IsOver hubs ms (rw p at e))
    | inr p ↦ elim (Bool-cases (hub == dest)) [
      | inl q ↦ inl (inr ((==_iff hub dest).0 q), multi_routes-IsOver hubs ms (rw (p, q) at e))
      | inr q ↦ inr (
        (λ k. ground (arith, p, k)),
        (λ k. ground (arith, q, k)),
        over_rest hub hubs ms (rw (p, q) at e) (λ rest g. multi_routes-IsOver hubs rest g),
      )
    ]
  ]

  pub routes-IsTried :
      (hubs : List Address) (ms : List RouteMeta) → routes src dest hubs ≡ ok ms → IsTried hubs ms
  unfolding routes
  routes-IsTried hubs ms e =
      let (multi, q, r) =
        and_then-eq-ok _ (multi_routes src dest (valid_hubs src dest hubs)) ms e in
      (multi, sym (ok-eq-ok _ ms r), multi_routes-IsOver hubs multi q)
