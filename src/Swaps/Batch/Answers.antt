-- ===== src/Swaps/Batch/Answers.antt =====
-- src/adapters/uniswap_v3_adapter.rs: the calls of a batch, and what its responses say.
use liq_ranger.Base.{
  ℕ, ◌≡◌, ◌≢◌, ◌↔◌, refl, Bool, true, false, Option, none, some, List, [], ◌∷◌, Option-cases, inl,
  inr,
}
use liq_ranger.Swaps.Batch.{
  RouteMeta, single_meta, multi_meta, Response, Quoter, batch, calldata, answer, decoded,
}

module _ (quoter : Quoter) where
  -- How the contracts encode an answer: that of one pool, or that of a path.
  abbrev pub Decodes : RouteMeta → List ℕ → ℕ → Type 0
  Decodes (single_meta fee) bytes out = quoter.decode_single bytes ≡ some out
  Decodes (multi_meta path) bytes out = quoter.decode_multi bytes ≡ some out

  -- The response is a success with data, which say this amount.
  abbrev pub Says : RouteMeta → Response → ℕ → Type 0
  Says m r out = (r.success ≡ true) × (r.return_data ≢ []) × Decodes m r.return_data out

  decoded-Decodes :
      (m : RouteMeta) (bytes : List ℕ) (out : ℕ)
      → (decoded quoter m bytes ≡ some out) ↔ Decodes m bytes out
  decoded-Decodes (single_meta fee) bytes out = ((λ e. e), λ e. e)
  decoded-Decodes (multi_meta path) bytes out = ((λ e. e), λ e. e)

  answer-fields :
      (m : RouteMeta) (success : Bool) (bytes : List ℕ) (out : ℕ)
      → (answer quoter m (record { success = success; return_data = bytes }) ≡ some out)
        ↔ Says m (record { success = success; return_data = bytes }) out
  answer-fields m false bytes out = ((λ e. absurd (cc)), λ h. let k = h.0 in absurd (cc))
  answer-fields m true [] out = ((λ e. absurd (cc)), λ h. absurd (h.1 refl))
  answer-fields m true (b ∷ bytes) out =
      let (to, from) = decoded-Decodes m (b ∷ bytes) out in
      ((λ e. (refl, (λ k. cc), to e)), λ h. from h.2)

  -- The amount that the search reads from a response is what it says.
  pub answer-Says :
      (m : RouteMeta) (r : Response) (out : ℕ) → (answer quoter m r ≡ some out) ↔ Says m r out
  answer-Says m r out = answer-fields m r.success r.return_data out

  module _ (src_token dest_token amount : ℕ) where
    -- The encoding of the question for a route.
    abbrev pub Encodes : RouteMeta → Option (List ℕ) → Type 0
    Encodes (single_meta fee) o = quoter.single_calldata src_token dest_token fee amount ≡ o
    Encodes (multi_meta path) o = quoter.path_calldata path amount ≡ o

    -- The calls for the routes, in order, without those that do not encode.
    pub data IsBatch : List RouteMeta → List (List ℕ) → List RouteMeta → Type 0 where
      nothing : IsBatch [] [] []
      skips :
          (m : RouteMeta) (ms asked : List RouteMeta) (calls : List (List ℕ))
          → Encodes m none
          → IsBatch ms calls asked
          → IsBatch (m ∷ ms) calls asked
      asks :
          (m : RouteMeta) (ms asked : List RouteMeta) (call : List ℕ) (calls : List (List ℕ))
          → Encodes m (some call)
          → IsBatch ms calls asked
          → IsBatch (m ∷ ms) (call ∷ calls) (m ∷ asked)

    calldata-Encodes :
        (m : RouteMeta) (o : Option (List ℕ))
        → calldata quoter src_token dest_token amount m ≡ o
        → Encodes m o
    calldata-Encodes (single_meta fee) o e = e
    calldata-Encodes (multi_meta path) o e = e

    pub batch-IsBatch :
        (ms : List RouteMeta)
        → IsBatch ms
            (batch quoter src_token dest_token amount ms).0
            (batch quoter src_token dest_token amount ms).1
    batch-IsBatch [] = nothing
    batch-IsBatch (m ∷ ms) = elim (Option-cases (calldata quoter src_token dest_token amount m)) [
      | inl n ↦ rw n (skips m ms _ _ (calldata-Encodes m none n) (batch-IsBatch ms))
      | inr (call, q) ↦
          rw q (asks m ms _ call _ (calldata-Encodes m (some call) q) (batch-IsBatch ms))
    ]
