-- ===== src/Shipping/Cod/Money.antt =====
-- `_grosze` of cod.py: a money text as whole grosze. Reading the text into a `Decimal` belongs to
-- Python's library and is the parameter `decimal`, `none` where the constructor raises.
use native.Mathlib.Nat.{div-add-mod}
use zdrovena_reconciliation.Prelude.{
  ℕ, ◌-◌, ◌*◌, ◌/◌, ◌%◌, ◌^◌, ◌≡◌, ◌⊎◌, String, Bool, false, ◌&&◌, Option, none, some, arith, ltb,
  leb, ◌==◌, if◌then◌else◌,
}
use zdrovena_reconciliation.Prelude.Result.{Result, ok, err}
use zdrovena_reconciliation.Prelude.Text.{strip}

-- A `Decimal`: NaN or an infinity, `c * 10 ^ e`, or `c / 10 ^ e`; the `Bool` is the sign, `true`
-- for minus.
pub data Decimal : Type 0 where
  special : Decimal
  scaled : Bool → ℕ → ℕ → Decimal
  fractional : Bool → ℕ → ℕ → Decimal

pub data Field : Type 0 where
  cod_amount shipping_price : Field
  line_total : ℕ → Field

-- What `cod_allocation` raises. The first six are `CodAllocationError`s; the others are exceptions
-- of the library: `decimal.InvalidOperation` beyond 28 digits, `ZeroDivisionError`, `KeyError`,
-- `IndexError`, and the `ValueError` of a strict `zip`.
pub data CodError : Type 0 where
  no_cod : CodError
  invalid : Field → CodError
  sub_grosz : Field → CodError
  shipping_exceeds : ℕ → ℕ → CodError
  split_mismatch : ℕ → ℕ → CodError
  empty_parcel : ℕ → ℕ → CodError
  beyond_precision : Field → CodError
  zero_division : CodError
  key_error index_error : ℕ → CodError
  zip_mismatch : CodError

-- the coefficient bound of the default decimal context
abbrev pub precision_limit : ℕ
precision_limit = 10 ^ 28

unfoldable pub grosze_of : Decimal → Field → Result CodError ℕ
grosze_of special field = err (invalid field)
grosze_of (scaled negative c e) field =
    if negative && ltb 0 c
    then err (invalid field)
    else if leb precision_limit (c * 10 ^ e * 100)
    then err (beyond_precision field)
    else ok (c * 10 ^ e * 100)
grosze_of (fractional negative c e) field =
    if negative && ltb 0 c
    then err (invalid field)
    else if leb ((2 * precision_limit - 1) * 10 ^ e) (2 * (c * 100))
    then err (beyond_precision field)
    else if c * 100 % 10 ^ e == 0
    then ok (c * 100 / 10 ^ e)
    else err (sub_grosz field)

unfoldable pub grosze : (String → Option Decimal) → String → Field → Result CodError ℕ
unfolding grosze_of
grosze decimal raw field = elim (decimal (strip raw)) [
  | none ↦ err (invalid field)
  | some d ↦ grosze_of d field
]

-- what a `Decimal` is worth, as a multiple of a grosz: `grosze * unit ≡ value`, `unit` a power of 10
abbrev pub IsWorth : Decimal → ℕ → Type 0
IsWorth special g = ⊥
IsWorth (scaled negative c e) g = ((negative ≡ false) ⊎ (c ≡ 0)) × (c * 10 ^ e * 100 ≡ g)
IsWorth (fractional negative c e) g = ((negative ≡ false) ⊎ (c ≡ 0)) × (g * 10 ^ e ≡ c * 100)

exact_quotient : (n d : ℕ) → n % d ≡ 0 → n / d * d ≡ n
exact_quotient n d h = omega (arith, div-add-mod n d)

-- An amount that is read is the decimal's value to the grosz, never rounded, and never negative.
pub grosze_of-IsWorth :
    (d : Decimal) (field : Field) (g : ℕ) → grosze_of d field ≡ ok g → IsWorth d g
unfolding grosze_of
grosze_of-IsWorth special field g h = cc
grosze_of-IsWorth (scaled negative c e) field g h = ground arith
grosze_of-IsWorth (fractional negative c e) field g h =
    ground (arith, exact_quotient (c * 100) (10 ^ e))
