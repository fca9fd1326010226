-- ===== src/Money.antt =====
-- libs/common/money.py. A Decimal is a coefficient and a number of decimal places, or is not
-- finite; money is an integer number of ten-thousandths. What `Decimal(str(value))` reads is the
-- standard library's: a value comes here as what it read, as `invalid` where it raised, or as a
-- float. Results of more than 28 digits raise InvalidOperation, which `to_money` does not catch.
pub mod Laws
mod Tests
use mini_stock_exchange_plat.Base.{
  ℕ, suc, minus, ◌+◌, ◌-◌, ◌*◌, ◌/◌, ◌%◌, ◌^◌, ℤ, pos, negsuc, pos_part, neg_part, Bool, leb, ltb,
  ◌==◌, if◌then◌else◌, ◌&&◌,
}

pub data Decimal : Type 0 where
  finite : ℤ → ℕ → Decimal
  non_finite : Decimal

pub data Value : Type 0 where
  float : Value
  invalid : Value
  decimal : Decimal → Value

pub data Error : Type 0 where
  money_error invalid_operation : Error

pub data Result {ℓ} (A : Type ℓ) : Type ℓ where
  ok : A → Result A
  err : Error → Result A

infixl 5 ◌>>=◌
abbrev pub ◌>>=◌ {ℓ κ} : {A : Type ℓ} {B : Type κ} → Result A → (A → Result B) → Result B
ok a >>= f = f a
err e >>= f = err e

-- The digits of the default decimal context.
abbrev pub max_coefficient : ℕ
max_coefficient = 10 ^ 28

-- n / d, halves away from zero
abbrev pub div_half_up : ℕ → ℕ → ℕ
div_half_up n d = (2 * n + d) / (2 * d)

-- The same on either sign, as ROUND_HALF_UP does.
abbrev pub round_half_up : ℤ → ℕ → ℤ
round_half_up (pos n) d = pos (div_half_up n d)
round_half_up (negsuc n) d = minus (div_half_up (suc n) d)

abbrev pub scale_up : ℤ → ℕ → ℤ
scale_up (pos n) k = pos (n * k)
scale_up (negsuc n) k = minus (suc n * k)

-- `d.quantize(MONEY_QUANT, rounding=ROUND_HALF_UP)`
abbrev pub to_units : ℤ → ℕ → ℤ
to_units c scale =
    if leb scale 4 then scale_up c (10 ^ (4 - scale)) else round_half_up c (10 ^ (scale - 4))

quantize : ℤ → Result ℤ
quantize m = if ltb (pos_part m + neg_part m) max_coefficient then ok m else err invalid_operation

unfoldable pub to_money : Value → Result ℤ
unfolding quantize
to_money float = err money_error
to_money invalid = err money_error
to_money (decimal non_finite) = err money_error
to_money (decimal (finite c scale)) = quantize (to_units c scale)

abbrev pub tick : ℕ
tick = 100

abbrev pub max_price : ℕ
max_price = 10_000_000_000

abbrev pub max_qty : ℕ
max_qty = 1_000_000

-- A price in range, as a number of ten-thousandths.
price_in_range : ℤ → Result ℤ
price_in_range (negsuc n) = err money_error
price_in_range (pos p) =
    if p == 0
    then err money_error
    else if ltb max_price p
    then err money_error
    else if p % tick == 0
    then ok (pos p)
    else err money_error

unfoldable pub validate_price : Value → Result ℤ
unfolding price_in_range
validate_price value = to_money value >>= price_in_range

-- What `isinstance(value, int)` tells apart: an integer, or a bool or anything else.
pub data Quantity : Type 0 where
  int : ℤ → Quantity
  not_int : Quantity

unfoldable pub validate_quantity : Quantity → Result ℕ
validate_quantity not_int = err money_error
validate_quantity (int (negsuc n)) = err money_error
validate_quantity (int (pos q)) =
    if q == 0 then err money_error else if ltb max_qty q then err money_error else ok q

-- `to_money(to_money(price) * Decimal(validate_quantity(quantity)))`
unfoldable pub notional : Value → Quantity → Result ℤ
unfolding quantize
notional price quantity = do
  p ← to_money price
  q ← validate_quantity quantity
  quantize (scale_up p q)
