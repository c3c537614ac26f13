-- ===== src/Swaps/Path/RoundTrip.antt =====
-- src/adapters/uniswap_v3_adapter.rs: a route is read back from its bytes.
use native.Mathlib.Nat.{mod-eq_of_lt, mod-one, pow-suc, div-add-mod', div-div-eq-div-mul}
use liq_ranger.Base.{
  ℕ, suc, zero, ◌+◌, ◌*◌, ◌/◌, ◌%◌, ◌^◌, ◌<◌, ◌≡◌, refl, ap, sym, ◌∙◌, length, List, [], ◌∷◌, All,
  ok, arith,
}
use liq_ranger.Core.Identity.{Address}
use liq_ranger.Swaps.Path.{be_bytes, as_bytes, fee_bytes, packed, encode_v3_path}

-- A reader of such bytes.
abbrev pub value : List ℕ → ℕ
value [] = 0
value (b ∷ bs) = b * 256 ^ length bs + value bs

abbrev pub take : ℕ → List ℕ → List ℕ
take zero bs = []
take (suc n) [] = []
take (suc n) (b ∷ bs) = b ∷ take n bs

abbrev pub drop : ℕ → List ℕ → List ℕ
drop zero bs = bs
drop (suc n) [] = []
drop (suc n) (b ∷ bs) = drop n bs

-- The tokens and the fees of a route with the given number of pools.
abbrev pub decode : ℕ → List ℕ → List Address × List ℕ
decode zero bytes = (value (take 20 bytes) ∷ [], [])
decode (suc pools) bytes =
    let (tokens, fees) = decode pools (drop 23 bytes) in
    (value (take 20 bytes) ∷ tokens, value (take 3 (drop 20 bytes)) ∷ fees)

length-be_bytes : (w n : ℕ) → length (be_bytes w n) ≡ w
length-be_bytes zero n = refl
length-be_bytes (suc w) n = ap suc (length-be_bytes w n)

cancel_high : (a b k r m : ℕ) → (a * 256 + b) * k + r ≡ a * (k * 256) + m → b * k + r ≡ m
cancel_high a b k r m e = omega (arith, e)

digit : (n k : ℕ) → n / k % 256 * k + n % k ≡ n % (k * 256)
digit n k = cancel_high (n / k / 256) (n / k % 256) k (n % k) (n % (k * 256)) (
    ap (λ q. q * k + n % k) (div-add-mod' (n / k) 256)
    ∙ div-add-mod' n k
    ∙ sym (div-add-mod' n (k * 256))
    ∙ ap (λ q. q * (k * 256) + n % (k * 256)) (sym (div-div-eq-div-mul n k 256)))

value-be_bytes : (w n : ℕ) → value (be_bytes w n) ≡ n % 256 ^ w
value-be_bytes zero n = sym (mod-one n)
value-be_bytes (suc w) n =
    rw (length-be_bytes w n, value-be_bytes w n, pow-suc 256 w) (digit n (256 ^ w))

value-as_bytes : (token : Address) → token < 256 ^ 20 → value (as_bytes token) ≡ token
value-as_bytes token h = value-be_bytes 20 token ∙ mod-eq_of_lt h

value-fee_bytes : (fee : ℕ) → fee < 256 ^ 3 → value (fee_bytes fee) ≡ fee
value-fee_bytes fee h = value-be_bytes 3 fee ∙ mod-eq_of_lt h

decode-packed :
    (tokens : List Address) (fees : List ℕ)
    → length tokens ≡ length fees + 1
    → All (λ t. t < 256 ^ 20) tokens
    → All (λ f. f < 256 ^ 3) fees
    → decode (length fees) (packed tokens fees) ≡ (tokens, fees)
decode-packed [] fees e a b = absurd (omega (arith, e))
decode-packed (token ∷ []) [] e a b = ap (λ t. (t ∷ [], [])) (value-as_bytes token a.0)
decode-packed (token ∷ u ∷ tokens) [] e a b = absurd (omega (arith, e))
decode-packed (token ∷ tokens) (fee ∷ fees) e a b =
    rw
      (
        decode-packed tokens fees (omega (arith, e)) a.1 b.1,
        value-as_bytes token a.0,
        value-fee_bytes fee b.0,
      )
      refl

length-packed :
    (tokens : List Address) (fees : List ℕ)
    → length tokens ≡ length fees + 1
    → length (packed tokens fees) ≡ 23 * length fees + 20
length-packed [] fees e = absurd (omega (arith, e))
length-packed (token ∷ tokens) [] e = refl
length-packed (token ∷ tokens) (fee ∷ fees) e =
    omega (arith, length-packed tokens fees (omega (arith, e)))

-- A route of n pools, with one token more, is packed without a panic into 23 n + 20 bytes, and from
-- these its tokens and its fees are read back, if the tokens fit in 20 bytes and the fees in 3.
pub decode-encode_v3_path :
    (tokens : List Address) (fees : List ℕ)
    → length tokens ≡ length fees + 1
    → All (λ t. t < 256 ^ 20) tokens
    → All (λ f. f < 256 ^ 3) fees
    → (bytes : List ℕ) × (encode_v3_path tokens fees ≡ ok bytes)
      × (length bytes ≡ 23 * length fees + 20)
      × (decode (length fees) bytes ≡ (tokens, fees))
unfolding encode_v3_path
decode-encode_v3_path tokens fees e a b = (
  packed tokens fees,
  ground (arith, e),
  length-packed tokens fees e,
  decode-packed tokens fees e a b,
)
