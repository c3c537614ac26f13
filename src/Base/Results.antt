-- ===== src/Base/Results.antt =====
-- Fallible code: a value, or an error of the type that the component names.
use mathlib.Core.Path.{◌≡◌, refl}
use mathlib.Core.Bool.{Bool, true, false}
use mathlib.Core.Logic.{◌⊎◌, inl, inr}
use mathlib.Core.Option.{Option, none, some}

pub data Result {ℓ} (Fault : Type 0) (Value : Type ℓ) : Type ℓ where
  ok : Value → Result Fault Value
  err : Fault → Result Fault Value

-- The `?` operator: the rest of a function runs on the value.
abbrev pub and_then {ℓ κ} :
    {Fault : Type 0} {V : Type ℓ} {W : Type κ}
    → (V → Result Fault W)
    → Result Fault V
    → Result Fault W
and_then rest (err fault) = err fault
and_then rest (ok value) = rest value

infixl 5 ◌>>=◌
abbrev pub ◌>>=◌ {ℓ κ} :
    {Fault : Type 0} {V : Type ℓ} {W : Type κ}
    → Result Fault V
    → (V → Result Fault W)
    → Result Fault W
r >>= rest = and_then rest r

infixl 5 ◌>>◌
abbrev pub ◌>>◌ {κ} :
    {Fault : Type 0} {W : Type κ} → Result Fault (Unit {0}) → Result Fault W → Result Fault W
check >> rest = and_then (λ done. rest) check

-- `ok_or_else(..)?`, `expect`
abbrev pub or_fail {ℓ} : {Fault : Type 0} {V : Type ℓ} → Option V → Fault → Result Fault V
or_fail (some value) fault = ok value
or_fail none fault = err fault

-- `ensure!`, and an early return of an error unless the test holds
abbrev pub guard : {Fault : Type 0} → Bool → Fault → Result Fault (Unit {0})
guard false fault = err fault
guard true fault = ok tt

abbrev pub map_err {ℓ} :
    {Fault Other : Type 0} {V : Type ℓ} → (Fault → Other) → Result Fault V → Result Other V
map_err convert (err fault) = err (convert fault)
map_err convert (ok value) = ok value

-- `.ok()`
abbrev pub to_option {ℓ} : {Fault : Type 0} {V : Type ℓ} → Result Fault V → Option V
to_option (err fault) = none
to_option (ok value) = some value

pub Result-cases {ℓ} :
    {Fault : Type 0} {V : Type ℓ} (r : Result Fault V)
    → ((value : V) × (r ≡ ok value)) ⊎ ((fault : Fault) × (r ≡ err fault))
Result-cases (err fault) = inr (fault, refl)
Result-cases (ok value) = inl (value, refl)

abbrev pub unwrap_or {ℓ} : {A : Type ℓ} → Option A → A → A
unwrap_or none default = default
unwrap_or (some a) default = a

-- A chain that returns has returned at its first step and from there on.
pub and_then-eq-ok {ℓ κ} :
    {Fault : Type 0} {V : Type ℓ} {W : Type κ} (rest : V → Result Fault W) (r : Result Fault V)
    (b : W)
    → and_then rest r ≡ ok b
    → (a : V) × (r ≡ ok a) × (rest a ≡ ok b)
and_then-eq-ok rest (err fault) b e = absurd (cc)
and_then-eq-ok rest (ok a) b e = (a, refl, e)

pub or_fail-eq-ok {ℓ} :
    {Fault : Type 0} {V : Type ℓ} (o : Option V) (fault : Fault) (a : V)
    → or_fail o fault ≡ ok a
    → o ≡ some a
or_fail-eq-ok none fault a e = absurd (cc)
or_fail-eq-ok (some b) fault a e = cc

pub ok-eq-ok {ℓ} :
    {Fault : Type 0} {V : Type ℓ} (a b : V) → ◌≡◌ {A = Result Fault V} (ok a) (ok b) → a ≡ b
ok-eq-ok a b e = cc

pub map_err-eq-ok {ℓ} :
    {Fault Other : Type 0} {V : Type ℓ} (f : Fault → Other) (r : Result Fault V) (a : V)
    → map_err f r ≡ ok a
    → r ≡ ok a
map_err-eq-ok f (err fault) a e = absurd (cc)
map_err-eq-ok f (ok b) a e = cc
