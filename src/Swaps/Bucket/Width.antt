-- ===== src/Swaps/Bucket/Width.antt =====
-- src/adapters/uniswap_v3_adapter.rs: which amounts share a key.
use native.Mathlib.Nat.{pow-le-pow_right, pow-suc, div-lt_iff_lt-mul}
use liq_ranger.Base.{
  ℕ, suc, zero, ◌+◌, ◌-◌, ◌*◌, ◌/◌, ◌%◌, ◌^◌, ◌≤◌, ◌<◌, ◌≡◌, Bool, true, ◌&&◌, ltb, leb, ◌==◌, refl,
  ok, arith, Bool-cases, inl, inr, if◌then◌else◌, ◌>>=◌, ◌≢◌, err, subst, sym, ==_iff, false,
}
use liq_ranger.Base.Word.{Checked, u256_mod, overflow}
use liq_ranger.Swaps.Bucket.{
  Bits, CacheKey, approx_magnitude, amount_bucket, most_significant, cache_key,
}

-- The two places where a key could panic, for amounts of `b` bits.
abbrev fits : ℕ → Bool
fits b =
    ltb (10 ^ (approx_magnitude b - 1)) u256_mod
    && leb (2 ^ b) (10 ^ (approx_magnitude b - 1) * 2 ^ 64)

abbrev all_fit : ℕ → Bool
all_fit zero = fits zero
all_fit (suc n) = fits (suc n) && all_fit n

both : (x y : Bool) → (x && y) ≡ true → (x ≡ true) × (y ≡ true)
both true y h = (refl, h)
both false y h = absurd (cc)

all_fit_at : (n b : ℕ) → all_fit n ≡ true → b ≤ n → fits b ≡ true
all_fit_at zero b h l = subst (λ x. fits x ≡ true) {x = zero} {y = b} (omega (arith, l)) h
all_fit_at (suc n) b h l = elim (Bool-cases (b == suc n)) [
  | inl e ↦
      subst (λ x. fits x ≡ true) {x = suc n} (sym ((==_iff b (suc n)).0 e))
        (both (fits (suc n)) (all_fit n) h).0
  | inr e ↦ all_fit_at n b (both (fits (suc n)) (all_fit n) h).1 (ground (arith, l, e))
]

up_to_a_word : all_fit 256 ≡ true
up_to_a_word = refl

sixteen : (n : ℕ) → 2 ^ suc (suc (suc (suc n))) ≡ 16 * 2 ^ n
sixteen n =
    omega (
      arith,
      pow-suc 2 n,
      pow-suc 2 (suc n),
      pow-suc 2 (suc (suc n)),
      pow-suc 2 (suc (suc (suc n))),
    )

-- A number of one digit, in the magnitude zero.
one_digit : (m a : ℕ) → m ≡ 0 → 0 < a → a < 8 → 0 < a / 10 ^ (m - 1) % 10
one_digit m a e p h =
    subst (λ x. 0 < a / 10 ^ (x - 1) % 10) {x = 0} {y = m} (sym e) (omega (arith, p, h))

abbrev key_of : (src_token dest_token amount_bucket : ℕ) → CacheKey
key_of s d n = record { src_token = s; dest_token = d; amount_bucket = n }

abbrev returned : CacheKey → Checked CacheKey
returned key = ok key

same_fields :
    (s d n t c m : ℕ) (key : CacheKey)
    → returned (key_of s d n) ≡ ok key
    → returned (key_of t c m) ≡ ok key
    → (s ≡ t) × (d ≡ c) × (n ≡ m)
same_fields s d n t c m key e f = (cc, cc, cc)

not_zero : (n : ℕ) → 0 < n → (n == 0) ≡ false
not_zero n h = ground (arith, h)

module _ (words : Bits) where
  open words use {bits}

  bits_of_word : (amount : ℕ) → 0 < amount → amount < u256_mod → bits amount ≤ 256
  bits_of_word amount p h = elim (Bool-cases (leb (bits amount) 256)) [
    | inl e ↦ ground (arith, e)
    | inr e ↦
        let low = words.bits-low amount p h in
        let top =
          pow-le-pow_right {n = 2} (omega arith) {i = 256} {j = bits amount - 1}
            (ground (arith, e)) in
        absurd (omega (arith, low, top, h))
  ]

  positive_power : (n : ℕ) → 0 < 10 ^ n
  positive_power n = pow-le-pow_right {n = 10} (omega arith) {i = 0} {j = n} (omega arith)

  digit_fits :
      (amount b : ℕ)
      → amount < 2 ^ b
      → fits b ≡ true
      → amount / 10 ^ (approx_magnitude b - 1) < 2 ^ 64
  digit_fits amount b h f =
      let q = both (ltb (10 ^ (approx_magnitude b - 1)) u256_mod) _ f in
      (div-lt_iff_lt-mul (positive_power (approx_magnitude b - 1))).1 (ground (arith, h, q.0, q.1))

  bucket_steps :
      (m s amount : ℕ)
      → s ≢ 0
      → s < u256_mod
      → amount / s < 2 ^ 64
      → ((if ltb s u256_mod then ok s else err overflow) >>= λ t.
          most_significant amount t >>= λ d. ok (m * 10 + d))
        ≡ ok (m * 10 + amount / s % 10)
  unfolding most_significant
  bucket_steps m s amount n h d = ground (arith, n, h, d)

  -- The magnitude of an amount, and one digit.
  abbrev magnitude : ℕ → ℕ
  magnitude amount = approx_magnitude (bits amount)

  abbrev digit : ℕ → ℕ
  digit amount = amount / 10 ^ (magnitude amount - 1) % 10

  positive_bucket :
      (amount : ℕ)
      → 0 < amount
      → amount < u256_mod
      → amount_bucket words amount ≡ ok (magnitude amount * 10 + digit amount)
  unfolding amount_bucket
  positive_bucket amount p h =
      let f = all_fit_at 256 (bits amount) up_to_a_word (bits_of_word amount p h) in
      let q = both (ltb (10 ^ (magnitude amount - 1)) u256_mod) _ f in
      let positive = positive_power (magnitude amount - 1) in
      rw (not_zero amount p) (
        bucket_steps (magnitude amount) (10 ^ (magnitude amount - 1)) amount
          (λ e. omega (arith, positive, e)) (ground (arith, q.0))
          (digit_fits amount (bits amount) (words.bits-high amount h) f))

  -- The bucket of every amount.
  abbrev bucket_of : ℕ → ℕ
  bucket_of amount = if amount == 0 then 0 else magnitude amount * 10 + digit amount

  amount_bucket_lem :
      (amount : ℕ) → amount < u256_mod → amount_bucket words amount ≡ ok (bucket_of amount)
  unfolding amount_bucket
  amount_bucket_lem amount h = elim (Bool-cases (amount == 0)) [
    | inl e ↦ rw e refl
    | inr e ↦ rw e (rw e at (positive_bucket amount (ground (arith, e)) h))
  ]

  -- Amounts of the same magnitude have nearly the same number of bits.
  near : (a b : ℕ) → a < u256_mod → 0 < b → b < u256_mod → bits a ≤ bits b + 3 → a ≤ 16 * b
  near a b h p k l =
      let high = words.bits-high a h in
      let low = words.bits-low b p k in
      let step =
        pow-le-pow_right {n = 2} (omega arith) {i = bits a} {j = suc (suc (suc (suc (bits b - 1))))}
          (omega (arith, l)) in
      omega (arith, high, low, step, sixteen (bits b - 1))

  small_digit : (a : ℕ) → 0 < a → a < u256_mod → magnitude a ≡ 0 → 0 < digit a
  small_digit a p h m =
      let high = words.bits-high a h in
      let top = pow-le-pow_right {n = 2} (omega arith) {i = bits a} {j = 3} (omega (arith, m)) in
      one_digit (magnitude a) a m p (omega (arith, high, top))

  -- Only zero has the bucket zero.
  positive_value : (a : ℕ) → 0 < a → a < u256_mod → 0 < bucket_of a
  positive_value a p h = elim (Bool-cases (magnitude a == 0)) [
    | inl e ↦
        let d = small_digit a p h ((==_iff (magnitude a) 0).0 e) in
        rw (not_zero a p) (omega (arith, d))
    | inr e ↦ ground (arith, p, e)
  ]

  same_magnitude : (a b : ℕ) → 0 < a → 0 < b → bucket_of a ≡ bucket_of b → bits a ≤ bits b + 3
  same_magnitude a b p q e = let f = rw (not_zero a p, not_zero b q) at e in omega (arith, f)

  same_bucket : (a b : ℕ) → a < u256_mod → b < u256_mod → bucket_of a ≡ bucket_of b → a ≤ 16 * b
  same_bucket a b h k e = elim (Bool-cases (a == 0)) [
    | inl z ↦ ground (arith, z)
    | inr z ↦ elim (Bool-cases (b == 0)) [
      | inl y ↦ let p = positive_value a (ground (arith, z)) h in absurd (ground (arith, y, e, p))
      | inr y ↦
          let p : 0 < a = ground (arith, z) in
          let q : 0 < b = ground (arith, y) in near a b h q k (same_magnitude a b p q e)
    ]
  ]

  -- Every amount below 2 ^ 256 has a key: no step of it panics.
  pub cache_key-total :
      (src_token dest_token amount : ℕ)
      → amount < u256_mod
      → (key : CacheKey) × (cache_key words src_token dest_token amount ≡ ok key)
  unfolding cache_key
  cache_key-total s d amount h = (
    record { src_token = s; dest_token = d; amount_bucket = bucket_of amount },
    rw (amount_bucket_lem amount h) refl,
  )

  -- Amounts below 2 ^ 256 that have the same key are of the same pair of tokens, and neither is more
  -- than sixteen times the other.
  pub cache_key-same :
      (src dest src_2 dest_2 a b : ℕ) (key : CacheKey)
      → a < u256_mod
      → b < u256_mod
      → cache_key words src dest a ≡ ok key
      → cache_key words src_2 dest_2 b ≡ ok key
      → (src ≡ src_2) × (dest ≡ dest_2) × (a ≤ 16 * b) × (b ≤ 16 * a)
  unfolding cache_key
  cache_key-same src dest src_2 dest_2 a b key h k e f =
      let p = rw (amount_bucket_lem a h) at e in
      let q = rw (amount_bucket_lem b k) at f in
      let (x, y, z) = same_fields src dest (bucket_of a) src_2 dest_2 (bucket_of b) key p q in
      (x, y, same_bucket a b h k z, same_bucket b a k h (sym z))
