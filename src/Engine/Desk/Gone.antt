-- ===== src/Engine/Desk/Gone.antt =====
-- An order that has left the book of services/matching-engine/app, through later deliveries to the
-- consumers of handlers.py.
use mini_stock_exchange_plat.Base.{ℕ, ◌≡◌, ◌≢◌, Option, some}
use mini_stock_exchange_plat.Money.{Result, ok}
use mini_stock_exchange_plat.Engine.Book.{BookOrder}
use mini_stock_exchange_plat.Engine.Desk.{Accepted, Engine}
use mini_stock_exchange_plat.Engine.Desk.Deliveries.{
  order_accepted, cancel_requested, Steps, done, step,
}
use mini_stock_exchange_plat.Engine.Gone.{IsGone}

module _ (id : ℕ) where
  -- The order that `parse` makes has the id of the payload.
  HasIdOf : Accepted → Result (Option BookOrder) → Type 0
  HasIdOf p (ok (some o)) = p.order_id ≡ some o.order_id
  HasIdOf p _ = Unit

  -- None of the deliveries is an order.accepted of the order.
  abbrev pub AllOthers : {e f : Engine} → Steps e f → Type 0
  AllOthers (done e) = Unit
  AllOthers (step (order_accepted p e) t) = (p.order_id ≢ some id) × AllOthers t
  AllOthers (step (cancel_requested p e) t) = AllOthers t

  module _ (symbol : ℕ) where
    -- The id is in the engine's book of the symbol no more.
    abbrev HasLeft : Engine → Type 0
    HasLeft e = IsGone id (e.books symbol)
