-- ===== src/Orders/Place/Repeatable.antt =====
-- How `reserve` of services/order-service/app/service.py ends where the services can be asked again.
use mini_stock_exchange_plat.Base.{ℕ, ℤ, ◌≡◌, false, Option, none, some}
use mini_stock_exchange_plat.Engine.Book.{Side, buy, sell, OrderType, market, limit}
use mini_stock_exchange_plat.Money.{Result, ok, err}
use mini_stock_exchange_plat.Orders.Status.{Order}
use mini_stock_exchange_plat.Orders.Place.{
  Outside, Reserve, refused_with, reserve, Call, held, refused, failed, called, hold_cash,
  reserve_market, reserve_as, IsRepeatable, AllRepeatable,
}

-- No 409 after a hold that has landed.
abbrev pub IsClean : Reserve → Type 0
IsClean (refused_with detail landed) = landed ≡ false
IsClean _ = Unit

called-IsClean :
    (amount : Option ℤ) (call : Call) → IsRepeatable call → IsClean (called amount call)
called-IsClean amount held h = tt
called-IsClean amount (refused detail landed) h = h
called-IsClean amount (failed landed) h = tt

hold_cash-IsClean :
    (out : Outside) (o : Order) (amount : Result ℤ)
    → AllRepeatable out
    → IsClean (hold_cash out o amount)
hold_cash-IsClean out o (err e) h = tt
hold_cash-IsClean out o (ok amount) h = called-IsClean (some amount) _ (h.0 o.id o.user_id amount)

pub reserve-IsClean : (out : Outside) (o : Order) → AllRepeatable out → IsClean (reserve out o)
unfolding reserve
reserve-IsClean out o h = go o.side o.order_type
  where
    at_market : (reference : Option ℕ) → IsClean (reserve_market out o reference)
    at_market none = tt
    at_market (some reference) = hold_cash-IsClean out o _ h

    go : (side : Side) (type : OrderType) → IsClean (reserve_as out o side type)
    go sell type = called-IsClean none _ (h.1 o.id o.user_id o.symbol o.quantity)
    go buy market = at_market (out.reference_price o.symbol)
    go buy (limit px) = hold_cash-IsClean out o _ h
