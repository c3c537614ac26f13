-- ===== src/Core/Caches/First.antt =====
-- src/common/mod.rs: what the caches of tokens answer after any requests.
use liq_ranger.Base.{
  ℕ, ◌≡◌, refl, ap, sym, ◌∙◌, true, ◌==◌, ==_iff, if◌then◌else◌, Option, none, some, List, [], ◌∷◌,
  Bool-cases, inl, inr,
}
use liq_ranger.Core.Identity.{Text, Address}
use liq_ranger.Watchlists.Cache.{lookup, lookup-insert}
use liq_ranger.Core.Caches.{
  TokenCaches, found_or, get_or_ask, get_token_decimals, get_token_symbol, resolve_atoken,
}

-- A request, with the answer that a call would have had at that time.
pub data Request : Type 0 where
  decimals_of : Address → Option ℕ → Request
  symbol_of : Address → Option Text → Request
  atoken_of : Address → Option Address → Request

abbrev pub serve : TokenCaches → Request → TokenCaches
serve caches (decimals_of token answer) = (get_token_decimals token answer caches).1
serve caches (symbol_of token answer) = (get_token_symbol token answer caches).1
serve caches (atoken_of asset answer) = (resolve_atoken asset answer caches).1

abbrev pub serve_all : TokenCaches → List Request → TokenCaches
serve_all caches [] = caches
serve_all caches (r ∷ rs) = serve_all (serve caches r) rs

abbrev pub decimals_in : List Request → List (Address × Option ℕ)
decimals_in [] = []
decimals_in (decimals_of token answer ∷ rs) = (token, answer) ∷ decimals_in rs
decimals_in (symbol_of token answer ∷ rs) = decimals_in rs
decimals_in (atoken_of asset answer ∷ rs) = decimals_in rs

abbrev pub symbols_in : List Request → List (Address × Option Text)
symbols_in [] = []
symbols_in (symbol_of token answer ∷ rs) = (token, answer) ∷ symbols_in rs
symbols_in (decimals_of token answer ∷ rs) = symbols_in rs
symbols_in (atoken_of asset answer ∷ rs) = symbols_in rs

abbrev pub atokens_in : List Request → List (Address × Option Address)
atokens_in [] = []
atokens_in (atoken_of asset answer ∷ rs) = (asset, answer) ∷ atokens_in rs
atokens_in (decimals_of token answer ∷ rs) = atokens_in rs
atokens_in (symbol_of token answer ∷ rs) = atokens_in rs

module _ {ℓ} {V : Type ℓ} where
  abbrev pub or_else : Option V → Option V → Option V
  or_else (some v) o = some v
  or_else none o = o

  -- The first answer for the key that is not a failure; if there is none, the last one.
  abbrev pub first_answer : Address → List (Address × Option V) → Option V → Option V
  first_answer key [] last = last
  first_answer key ((k, none) ∷ asked) last = first_answer key asked last
  first_answer key ((k, some v) ∷ asked) last =
      if key == k then some v else first_answer key asked last

  abbrev get_all : List (ℕ × V) → List (Address × Option V) → List (ℕ × V)
  get_all cache [] = cache
  get_all cache ((k, answer) ∷ asked) = get_all (get_or_ask k answer cache).1 asked

  found_or_kept :
      (key : Address) (o : Option V) (cache : List (ℕ × V)) → (found_or key o none cache).1 ≡ cache
  found_or_kept key none cache = refl
  found_or_kept key (some v) cache = refl

  found_or_last :
      (key : Address) (o last : Option V) (cache : List (ℕ × V))
      → (found_or key o last cache).0 ≡ or_else o last
  found_or_last key none none cache = refl
  found_or_last key none (some v) cache = refl
  found_or_last key (some v) last cache = refl

  same_key :
      (key k : Address) (o : Option V) (cache : List (ℕ × V))
      → key == k ≡ true
      → lookup k cache ≡ o
      → lookup key cache ≡ o
  same_key key k o cache q e = ap (λ x. lookup x cache) ((==_iff key k).0 q) ∙ e

  -- One answer more, before whatever follows.
  lookup-found_or :
      (key k : Address) (v : V) (o rest : Option V) (cache : List (ℕ × V))
      → lookup k cache ≡ o
      → or_else (lookup key (found_or k o (some v) cache).1) rest
        ≡ or_else (lookup key cache) (if key == k then some v else rest)
  lookup-found_or key k v none rest cache e = elim (Bool-cases (key == k)) [
    | inl q ↦ rw (lookup-insert k key v cache, q) (sym (rw (same_key key k none cache q e) refl))
    | inr q ↦ rw (lookup-insert k key v cache, q) refl
  ]
  lookup-found_or key k v (some u) rest cache e = elim (Bool-cases (key == k)) [
    | inl q ↦ rw q (rw (same_key key k (some u) cache q e) refl)
    | inr q ↦ rw q refl
  ]

  get_or_ask-get_all :
      (key : Address) (asked : List (Address × Option V)) (last : Option V) (cache : List (ℕ × V))
      → (get_or_ask key last (get_all cache asked)).0
        ≡ or_else (lookup key cache) (first_answer key asked last)
  get_or_ask-get_all key [] last cache = found_or_last key (lookup key cache) last cache
  get_or_ask-get_all key ((k, none) ∷ asked) last cache =
      rw (found_or_kept k (lookup k cache) cache) (get_or_ask-get_all key asked last cache)
  get_or_ask-get_all key ((k, some v) ∷ asked) last cache =
      get_or_ask-get_all key asked last (get_or_ask k (some v) cache).1
      ∙ lookup-found_or key k v (lookup k cache) (first_answer key asked last) cache refl

serve_all-decimals :
    (rs : List Request) (caches : TokenCaches)
    → (serve_all caches rs).decimals ≡ get_all caches.decimals (decimals_in rs)
unfolding get_token_decimals get_token_symbol resolve_atoken
serve_all-decimals [] caches = refl
serve_all-decimals (decimals_of t a ∷ rs) caches =
    serve_all-decimals rs (get_token_decimals t a caches).1
serve_all-decimals (symbol_of t a ∷ rs) caches =
    serve_all-decimals rs (get_token_symbol t a caches).1
serve_all-decimals (atoken_of t a ∷ rs) caches = serve_all-decimals rs (resolve_atoken t a caches).1

serve_all-symbols :
    (rs : List Request) (caches : TokenCaches)
    → (serve_all caches rs).symbols ≡ get_all caches.symbols (symbols_in rs)
unfolding get_token_decimals get_token_symbol resolve_atoken
serve_all-symbols [] caches = refl
serve_all-symbols (decimals_of t a ∷ rs) caches =
    serve_all-symbols rs (get_token_decimals t a caches).1
serve_all-symbols (symbol_of t a ∷ rs) caches = serve_all-symbols rs (get_token_symbol t a caches).1
serve_all-symbols (atoken_of t a ∷ rs) caches = serve_all-symbols rs (resolve_atoken t a caches).1

serve_all-atokens :
    (rs : List Request) (caches : TokenCaches)
    → (serve_all caches rs).atokens ≡ get_all caches.atokens (atokens_in rs)
unfolding get_token_decimals get_token_symbol resolve_atoken
serve_all-atokens [] caches = refl
serve_all-atokens (decimals_of t a ∷ rs) caches =
    serve_all-atokens rs (get_token_decimals t a caches).1
serve_all-atokens (symbol_of t a ∷ rs) caches = serve_all-atokens rs (get_token_symbol t a caches).1
serve_all-atokens (atoken_of t a ∷ rs) caches = serve_all-atokens rs (resolve_atoken t a caches).1

abbrev pub empty : TokenCaches
empty = record { decimals = []; symbols = []; atokens = [] }

-- After any requests, in any order, each of the three answers with what the first call for the same
-- token has answered, of those that did not fail, and with its own call where there is none: the
-- caches neither mix tokens or questions nor remember a failure.
pub serve_all-first :
    (rs : List Request) (token : Address) (d : Option ℕ) (s : Option Text) (a : Option Address)
    → ((get_token_decimals token d (serve_all empty rs)).0 ≡ first_answer token (decimals_in rs) d)
      × ((get_token_symbol token s (serve_all empty rs)).0 ≡ first_answer token (symbols_in rs) s)
      × ((resolve_atoken token a (serve_all empty rs)).0 ≡ first_answer token (atokens_in rs) a)
unfolding get_token_decimals get_token_symbol resolve_atoken
serve_all-first rs token d s a = (
  rw (serve_all-decimals rs empty) (get_or_ask-get_all token (decimals_in rs) d []),
  rw (serve_all-symbols rs empty) (get_or_ask-get_all token (symbols_in rs) s []),
  rw (serve_all-atokens rs empty) (get_or_ask-get_all token (atokens_in rs) a []),
)
