-- ===== src/Orders/Tests.antt =====
-- The order service's consumers on two orders, and their theorems there.
use mini_stock_exchange_plat.Base.{ℕ, ◌≡◌, refl, pos, true, Option, none, some, [], ◌∷◌, arith}
use mini_stock_exchange_plat.Base.Dict.{lookup}
use mini_stock_exchange_plat.Engine.Book.{Side, buy, sell, limit}
use mini_stock_exchange_plat.Events.Once.{
  once_twice, uuid, commit, once, member, seen_event, mark_event_processed,
}
use mini_stock_exchange_plat.Orders.Status.{
  Status, new, partially_filled, filled, cancel_pending, Order, Db, transition,
}
use mini_stock_exchange_plat.Orders.Evolution.{Evolves, AllRows}
use mini_stock_exchange_plat.Orders.Fills.{
  TradePayload, accepts, trade_work, Orders, handle_trade_executed, handle_cancel_rejected,
}
use mini_stock_exchange_plat.Orders.Fills.Handlers.{
  Steps, done, step, trade_executed, redis_changes, cancel_rejected, consumers_evolve,
  trade_applied,
}
use mini_stock_exchange_plat.Base.Text.{text}
use mini_stock_exchange_plat.Symbols.{normalize_symbol}
use mini_stock_exchange_plat.Orders.Listing.{list_orders, IsPage, list_orders-IsPage}

abbrev order : ℕ → ℕ → Side → ℕ → Status → Order
order id user side n status = record {
  id = id;
  user_id = user;
  client_order_id = none;
  symbol = 0;
  side = side;
  order_type = limit (pos 1000);
  quantity = n;
  filled_quantity = 0;
  avg_fill_price = pos 0;
  status = status;
  reserved_amount = none;
  reject_reason = none;
}

abbrev two_orders : Db
two_orders = record {
  orders = (1, order 1 7 buy 10 new) ∷ (2, order 2 8 sell 4 cancel_pending) ∷ [];
  order_events = [];
}

abbrev service : Orders
service = record { db = two_orders; processed = []; seen = record { texts = []; uuids = [] } }

abbrev payload : TradePayload
payload = record { quantity = 4; price = pos 1000; buy_order_id = some 1; sell_order_id = some 2 }

abbrev traded : Orders
traded = (handle_trade_executed (uuid 5) payload service).0

abbrev status_of : ℕ → Db → Option Status
status_of id db = elim (lookup id db.orders) [ none ↦ none | some o ↦ some o.status ]

traded_statuses :
    (status_of 1 traded.db ≡ some partially_filled) × (status_of 2 traded.db ≡ some filled)
unfolding handle_trade_executed once commit seen_event mark_event_processed trade_work transition
traded_statuses = (refl, refl)

two_orders-AllRows : AllRows two_orders
two_orders-AllRows j o h = record {
  keyed = ground (arith, h);
  bounded = ground (arith, h);
  sized = ground (arith, h);
}

-- The trade, its redelivery once Redis has lost the marker, and a late cancel.rejected.
abbrev lost : Orders
lost = record traded { seen = record { texts = []; uuids = [] } }

abbrev again : Orders
again = (handle_trade_executed (uuid 5) payload lost).0

abbrev ended : Orders
ended = (handle_cancel_rejected (uuid 6) (some 2) again).0

deliveries : Steps service ended
deliveries = step (trade_executed (uuid 5) payload service) (
    step (redis_changes (record { texts = []; uuids = [] }) traded) (
      step (trade_executed (uuid 5) payload lost)
        (step (cancel_rejected (uuid 6) (some 2) again) (done ended))))

consumers_evolve_example : Evolves two_orders ended.db × AllRows ended.db
consumers_evolve_example = consumers_evolve service ended deliveries two_orders-AllRows

trade_applied_example :
    (traded.db ≡ trade_work payload two_orders) × (member 5 traded.processed ≡ true)
trade_applied_example = trade_applied 5 payload service two_orders-AllRows refl refl refl

once_twice_example :
    let s1 =
      (once (λ db. accepts db.orders) (λ db. some (trade_work payload db)) (uuid 5) service).0 in
    let s2 =
      (once
        (λ db. accepts db.orders)
        (λ db. some (trade_work payload db))
        (uuid 5)
        (record s1 { seen = service.seen })).0 in
    (s2.db ≡ s1.db) × (s2.processed ≡ s1.processed)
once_twice_example =
    once_twice (λ db. accepts db.orders) (λ db. some (trade_work payload db)) 5 service service.seen
      (λ m. absurd (ground arith))

-- The newest first, of the user's open orders.
list_orders-IsPage_example :
    IsPage (λ o. o.id) (some (text "new, cancel_pending")) 5 7 (order 1 7 buy 10 new ∷ [])
unfolding list_orders normalize_symbol
list_orders-IsPage_example =
    list_orders-IsPage (λ o. o.id) (some (text "new, cancel_pending")) (some (text "aapl")) 5 0 7
      two_orders (order 1 7 buy 10 new ∷ []) refl
