-- ===== src/Base/Outcome.antt =====
-- Rust's `Result`, with its chain `?`.
use mathlib.Core.Path.{◌≡◌, refl}
use mathlib.Core.Option.{Option, none, some}

-- A value, or the error that stands in its place.
pub data Result {ℓ κ} (Fault : Type κ) (Value : Type ℓ) : Type (ℓ ⊔ κ) where
  err : Fault → Result Fault Value
  ok : Value → Result Fault Value

-- `and_then`, with the continuation in front.
abbrev pub and_then {ℓ κ η} :
    {Fault : Type κ} {Value : Type ℓ} {Next : Type η}
    → (Value → Result Fault Next)
    → Result Fault Value
    → Result Fault Next
and_then next (err fault) = err fault
and_then next (ok value) = next value

infixl 5 ◌>>=◌
-- The same, as `do` writes it.
abbrev pub ◌>>=◌ {ℓ κ η} :
    {Fault : Type κ} {Value : Type ℓ} {Next : Type η}
    → Result Fault Value
    → (Value → Result Fault Next)
    → Result Fault Next
r >>= next = and_then next r

abbrev pub map_err {ℓ κ η} :
    {Fault : Type κ} {Other : Type η} {Value : Type ℓ}
    → (Fault → Other)
    → Result Fault Value
    → Result Other Value
map_err of (err fault) = err (of fault)
map_err of (ok value) = ok value

-- `ok_or`.
abbrev pub ok_or {ℓ κ} :
    {Fault : Type κ} {Value : Type ℓ} → Option Value → Fault → Result Fault Value
ok_or (some value) fault = ok value
ok_or none fault = err fault

-- Inversion of a chain that succeeds: its first step did, and the rest from its value.
pub >>=-eq-ok {ℓ κ η} :
    {Fault : Type κ} {Value : Type ℓ} {Next : Type η}
    → (r : Result Fault Value) (next : Value → Result Fault Next) {last : Next}
    → (r >>= next) ≡ ok last
    → (value : Value) × (r ≡ ok value) × (next value ≡ ok last)
>>=-eq-ok (err fault) next chained = cc
>>=-eq-ok (ok value) next chained = (value, refl, chained)
