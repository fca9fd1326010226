-- ===== src/Orders/Place.antt =====
-- Placing an order: `validate`, `reserve`, `release`, `_reject` and `place_order` of
-- services/order-service/app/service.py. What the other services, Redis and the broker answer is
-- a parameter, as is which text a field holds: a symbol, side or type that is no such word is
-- `none`. A release that is attempted works or fails for both services together.
pub mod Saga
pub mod Repeatable
pub mod Outcome
mod Tests
use mini_stock_exchange_plat.Base.{
  ℕ, ◌*◌, ◌≡◌, refl, ℤ, pos, Bool, true, false, Option, none, some, List, [], ◌∷◌, ◌++◌, not, ◌==◌,
  if◌then◌else◌,
}
use mini_stock_exchange_plat.Base.Dict.{Dict, lookup}
use mini_stock_exchange_plat.Money.{
  Value, finite, decimal, Quantity, int, Result, ok, err, money_error, invalid_operation, to_money,
  validate_price, validate_quantity, notional,
}
use mini_stock_exchange_plat.Engine.Book.{Side, buy, sell, OrderType, limit, market}
use mini_stock_exchange_plat.Engine.Desk.{TypeWord, limit_word, market_word}
use mini_stock_exchange_plat.Orders.Status.{
  Status, pending, new, rejected, Rejection, no_market_price, service_unavailable,
  broker_unavailable, answered, Order, OrderEvent, Db, save, transition,
}

-- A price as it was sent; `scientific` is that its text has an `e`.
pub record PriceText : Type 0 where
  pub scientific : Bool
  pub value : Value

pub record PlaceOrderIn : Type 0 where
  pub symbol : Option ℕ
  pub side : Option Side
  pub order_type : Option TypeWord
  pub quantity : Quantity
  pub price : Option PriceText
  pub client_order_id : Option ℕ

-- How a request ends: an order, an HTTP error, or another exception.
pub data Answer : Type 0 where
  created replayed : Order → Answer
  bad_request conflict unavailable crashed : Answer

-- What `validate` raises: a 400, or what is no MoneyError.
pub data Refusal : Type 0 where
  invalid uncaught : Refusal

-- A value, or how the validation ends.
pub data Step (A : Type 0) : Type 0 where
  go : A → Step A
  stop : Refusal → Step A

-- A MoneyError is a 400, what else is raised is not caught.
abbrev pub or_bad : {A : Type 0} → Result A → Step A
or_bad (ok a) = go a
or_bad (err money_error) = stop invalid
or_bad (err invalid_operation) = stop uncaught

abbrev pub checked_price : TypeWord → Option PriceText → Step OrderType
checked_price market_word none = go market
checked_price market_word (some p) = stop invalid
checked_price limit_word none = stop invalid
checked_price limit_word (some p) =
    if p.scientific
    then stop invalid
    else elim (or_bad (validate_price p.value)) [ go px ↦ go (limit px) | stop a ↦ stop a ]

pub record Valid : Type 0 where
  pub symbol : ℕ
  pub side : Side
  pub type : OrderType
  pub quantity : ℕ

with_price : ℕ → Side → ℕ → Step OrderType → Step Valid
with_price symbol side n (stop a) = stop a
with_price symbol side n (go type) =
    go (record { symbol = symbol; side = side; type = type; quantity = n })

with_quantity : ℕ → Side → TypeWord → Option PriceText → Step ℕ → Step Valid
with_quantity symbol side word price (stop a) = stop a
with_quantity symbol side word price (go n) = with_price symbol side n (checked_price word price)

with_words : Option ℕ → Option Side → Option TypeWord → PlaceOrderIn → Step Valid
with_words (some symbol) (some side) (some word) body =
    with_quantity symbol side word body.price (or_bad (validate_quantity body.quantity))
with_words _ _ _ body = stop invalid

unfoldable pub validate : PlaceOrderIn → Step Valid
unfolding with_words with_quantity with_price
validate body = with_words body.symbol body.side body.order_type body

-- A call of another service, with its retries: it holds, it refuses with a 409, or it fails; in the
-- last two an attempt before may have landed the hold or not.
pub data Call : Type 0 where
  held : Call
  refused : ℕ → Bool → Call
  failed : Bool → Call

-- What happens outside: the live price in Redis or the seed price, the answers of the Account and
-- the Portfolio Service, whether the releases work, which order has won a race for the
-- client_order_id, whether the commits of the new status and of a rejection work, and whether the
-- broker takes the two messages.
pub record Outside : Type 0 where
  pub reference_price : ℕ → Option ℕ
  pub account : ℕ → ℕ → ℤ → Call
  pub portfolio : ℕ → ℕ → ℕ → ℕ → Call
  pub release_works : Bool
  pub raced : Option (Option Order)
  pub advance_committed : Bool
  pub reject_committed : Bool
  pub accepted_sent : Bool
  pub rejected_sent : Bool

pub data Event : Type 0 where
  order_accepted : Order → Event
  order_rejected : Order → Rejection → Event
  cancel_requested : Order → Event

-- The tables, the orders that hold cash or shares elsewhere, and what the broker has taken.
pub record World : Type 0 where
  pub db : Db
  pub holds : List ℕ
  pub outbox : List Event

-- How `reserve` ends; `reserve_crashed` is an exception that the saga does not catch.
pub data Reserve : Type 0 where
  reserved : Option ℤ → Reserve
  no_price reserve_crashed : Reserve
  refused_with : ℕ → Bool → Reserve
  failed_call : Bool → Reserve

abbrev pub called : Option ℤ → Call → Reserve
called amount held = reserved amount
called amount (refused detail landed) = refused_with detail landed
called amount (failed landed) = failed_call landed

abbrev pub hold_cash : Outside → Order → Result ℤ → Reserve
hold_cash out order (err e) = reserve_crashed
hold_cash out order (ok amount) = called (some amount) (out.account order.id order.user_id amount)

-- The reference price times the quantity times 1.05.
abbrev pub market_amount : ℕ → ℕ → Result ℤ
market_amount reference quantity = to_money (decimal (finite (pos (reference * quantity * 105)) 6))

reserve_market : Outside → Order → Option ℕ → Reserve
reserve_market out order none = no_price
reserve_market out order (some reference) =
    hold_cash out order (market_amount reference order.quantity)

reserve_as : Outside → Order → Side → OrderType → Reserve
reserve_as out order sell type =
    called none (out.portfolio order.id order.user_id order.symbol order.quantity)
reserve_as out order buy market = reserve_market out order (out.reference_price order.symbol)
reserve_as out order buy (limit px) =
    hold_cash out order (notional (decimal (finite px 4)) (int (pos order.quantity)))

unfoldable pub reserve : Outside → Order → Reserve
unfolding reserve_as reserve_market
reserve out order = reserve_as out order order.side order.order_type

abbrev pub drop_hold : ℕ → List ℕ → List ℕ
drop_hold id [] = []
drop_hold id (k ∷ ks) = if k == id then drop_hold id ks else k ∷ drop_hold id ks

-- `release`: both services are asked, and a failure is only logged.
abbrev pub release : Outside → ℕ → World → World
release out id w = if out.release_works then record w { holds = drop_hold id w.holds } else w

-- A service that has taken a hold answers a repeated request with that hold, so that no 409 comes
-- after an attempt that has landed.
abbrev pub IsRepeatable : Call → Type 0
IsRepeatable (refused detail landed) = landed ≡ false
IsRepeatable _ = Unit

abbrev pub AllRepeatable : Outside → Type 0
AllRepeatable out =
    ((id user : ℕ) (amount : ℤ) → IsRepeatable (out.account id user amount))
    × ((id user symbol n : ℕ) → IsRepeatable (out.portfolio id user symbol n))
