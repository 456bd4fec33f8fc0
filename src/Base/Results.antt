-- ===== src/Base/Results.antt =====
-- Exceptions as values: the exception classes of the source, a result, and the rules for `do`.
use mathlib.Core.Path.{ap, ◌≡◌, refl}
use mathlib.Core.Bool.{Bool, true, false}
use mathlib.Core.Option.{Option, none, some}
use mathlib.Core.Logic.{◌⊎◌, inl, inr}

-- The classes `ValueError`, `BMPParseError` and `BGPParseError`, without the text of the message.
-- `out_of_fuel` is no exception: a loop of the model used up its rounds.
pub data Error : Type 0 where
  value_error bmp_parse_error bgp_parse_error out_of_fuel : Error

-- What a call does: it returns a value or raises an exception.
pub data Result {ℓ} (A : Type ℓ) : Type ℓ where
  err : Error → Result A
  ok : A → Result A

-- `if not test: raise e`
abbrev pub require : Bool → Error → Result (Unit {0})
require false e = err e
require true e = ok tt

-- A statement that only raises or goes on.
abbrev pub ◌>>◌ {ℓ} : {A : Type ℓ} → Result (Unit {0}) → Result A → Result A
err e >> rest = err e
ok done >> rest = rest

-- The rest of the code gets the value, unless an exception stops it.
abbrev pub ◌>>=◌ {ℓ κ} : {A : Type ℓ} {B : Type κ} → Result A → (A → Result B) → Result B
err e >>= rest = err e
ok value >>= rest = rest value

infixl 5 ◌>>=◌ ◌>>◌
-- `except ValueError: raise e`
abbrev pub on_value_error {ℓ} : {A : Type ℓ} → Error → Result A → Result A
on_value_error e (ok a) = ok a
on_value_error e (err value_error) = err e
on_value_error e (err bmp_parse_error) = err bmp_parse_error
on_value_error e (err bgp_parse_error) = err bgp_parse_error
on_value_error e (err out_of_fuel) = err out_of_fuel

-- The only exception that a call can raise is of the class `e`.
abbrev pub RaisesOnly {ℓ} : {A : Type ℓ} → Error → Result A → Type ℓ
RaisesOnly e m = (x : Error) → m ≡ err x → x ≡ e

-- Success, with a property of the value.
abbrev pub Returns {ℓ} : {A : Type ℓ} → (A → Type 0) → Result A → Type 0
Returns P (ok a) = P a
Returns P (err x) = ⊥

-- A result or an exception: to split on a computed call and keep the equation.
pub Result-cases {ℓ} :
    {A : Type ℓ} (m : Result A) → ((a : A) × (m ≡ ok a)) ⊎ ((x : Error) × (m ≡ err x))
Result-cases (ok a) = inl (a, refl)
Result-cases (err x) = inr (x, refl)

-- The call returns a value, or raises the one exception `e`.
abbrev pub ReturnsOr {ℓ} : {A : Type ℓ} → Error → Result A → Type ℓ
ReturnsOr {A = A} e m = ((a : A) × (m ≡ ok a)) ⊎ (m ≡ err e)

pub returns_or {ℓ} : {A : Type ℓ} (e : Error) (m : Result A) → RaisesOnly e m → ReturnsOr e m
returns_or e (ok a) h = inl (a, refl)
returns_or e (err x) h = inr (ap err (h x refl))

-- The call of an `IntEnum` class whose ValueError is raised again as `e`.
abbrev pub of_option {ℓ} : {A : Type ℓ} → Error → Option A → Result A
of_option e none = err e
of_option e (some a) = ok a

pub Option-cases {ℓ} : {A : Type ℓ} (m : Option A) → (m ≡ none) ⊎ ((a : A) × (m ≡ some a))
Option-cases none = inl refl
Option-cases (some a) = inr (a, refl)
