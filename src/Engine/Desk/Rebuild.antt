-- ===== src/Engine/Desk/Rebuild.antt =====
-- `rebuild_book` of services/matching-engine/app/main.py: the resting orders that the Order Service
-- still has open are put back when the engine starts.
use mini_stock_exchange_plat.Base.{
  suc, ℤ, pos, negsuc, Option, none, some, List, [], ◌∷◌, ◌==◌, if◌then◌else◌,
}
use mini_stock_exchange_plat.Base.Int.{◌-ℤ◌}
use mini_stock_exchange_plat.Base.Maybe.{◌>>=◌}
use mini_stock_exchange_plat.Events.Once.{Delivery, returned, raised}
use mini_stock_exchange_plat.Money.{int, Result, ok, err}
use mini_stock_exchange_plat.Engine.Book.{limit, market, BookOrder, rest}
use mini_stock_exchange_plat.Engine.Desk.{Accepted, Engine, remember, parse, set_book}

-- A row of the Order Service's answer: what is left is wanted.
pub record OpenRow : Type 0 where
  pub row : Accepted
  -- What `int` reads; a fill count that is missing or null is 0.
  pub quantity : Option ℤ
  pub filled_quantity : Option ℤ

-- `rest` and `_remember` of a restored limit order.
restore_parsed : Engine → Result (Option BookOrder) → Engine × Delivery
restore_parsed engine (err e) = (engine, raised)
restore_parsed engine (ok none) = (engine, returned)
restore_parsed engine (ok (some order)) =
    let engine' = record engine { seq = order.seq } in
    elim order.order_type [
      | market ↦ (engine', returned)
      | limit _ ↦ (
        record engine' {
          books = set_book order.symbol (rest (engine.books order.symbol) order) engine.books;
          seen_orders = remember order.order_id engine.seen_orders;
        },
        returned,
      )
    ]

-- `int(quantity) - int(filled_quantity)`, where both read as integers and shares are left.
shares_left : OpenRow → Option ℤ
shares_left r = do quantity ← r.quantity; filled ← r.filled_quantity; some (quantity -ℤ filled)

restore_left : OpenRow → Engine → Option ℤ → Engine × Delivery
restore_left r engine none = (engine, returned)
restore_left r engine (some (negsuc n)) = (engine, returned)
restore_left r engine (some (pos n)) =
    if n == 0
    then (engine, returned)
    else restore_parsed engine (parse (suc engine.seq) (record r.row { quantity = int (pos n) }))

-- The loop of `rebuild_book` over the rows, which ends where a row raises.
unfoldable pub rebuild_rows : List OpenRow → Engine → Engine × Delivery
unfolding restore_left restore_parsed shares_left
rebuild_rows [] engine = (engine, returned)
rebuild_rows (r ∷ rows) engine =
    let (engine', delivery) = restore_left r engine (shares_left r) in
    elim delivery [ raised ↦ (engine', raised) | returned ↦ rebuild_rows rows engine' ]

-- `rebuild_book`; `none` is a call of the Order Service that failed.
unfoldable pub rebuild_book : Option (List OpenRow) → Engine → Engine × Delivery
rebuild_book none engine = (engine, returned)
rebuild_book (some rows) engine = rebuild_rows rows engine
