-- ===== src/Money/Tests.antt =====
-- Money rules at concrete values.
use mini_stock_exchange_plat.Base.{◌≡◌, ◌^◌, refl, pos, negsuc, arith}
use mini_stock_exchange_plat.Money.{
  finite, decimal, Value, to_money, validate_price, notional, int, ok, err, invalid_operation,
}
use mini_stock_exchange_plat.Money.Laws.{notional_exact}

half_up : to_money (decimal (finite (pos 1_000_005) 5)) ≡ ok (pos 100_001)
unfolding to_money
half_up = refl

half_down : to_money (decimal (finite (negsuc 1_000_004) 5)) ≡ ok (negsuc 100_000)
unfolding to_money
half_down = refl

-- The price of a huge integer is not refused as a MoneyError.
huge_price : validate_price (decimal (finite (pos (10 ^ 24)) 0)) ≡ err invalid_operation
unfolding validate_price to_money
huge_price = refl

-- 10.25
abbrev ten_and_quarter : Value
ten_and_quarter = decimal (finite (pos 1025) 2)

ten_and_quarter_money : to_money ten_and_quarter ≡ ok (pos 102_500)
unfolding to_money
ten_and_quarter_money = refl

notional_exact_example : notional ten_and_quarter (int (pos 7)) ≡ ok (pos 717_500)
notional_exact_example =
    notional_exact ten_and_quarter 102_500 7 ten_and_quarter_money (omega arith) (omega arith)
      (omega arith)
