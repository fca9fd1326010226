-- ===== src/Orders/Fills/Handlers.antt =====
-- The deliveries of the order service's consumers, in any order and any number
-- (services/order-service/app/handlers.py).
use mini_stock_exchange_plat.Base.{ℕ, ◌≡◌, true, false, Option, some, arith, inl, inr, ◌⊎◌}
use mini_stock_exchange_plat.Events.Once.{
  EventId, absent, text, uuid, Seen, once, commit, member, seen_event,
}
use mini_stock_exchange_plat.Orders.Status.{Db}
use mini_stock_exchange_plat.Orders.Evolution.{Evolves, AllRows}
use mini_stock_exchange_plat.Orders.Fills.{
  TradePayload, accepts, trade_work, cancelled_work, cancel_rejected_work, Orders,
  handle_trade_executed, handle_order_cancelled, handle_cancel_rejected,
}
use mini_stock_exchange_plat.Orders.Fills.Moves.{
  Keeps, Keeps-refl, Keeps-trans, trade_work-Keeps, cancelled_work-Keeps,
  cancel_rejected_work-Keeps,
}

-- One delivery to the service, or any change of its markers in Redis.
pub data Step : Orders → Orders → Type 0 where
  trade_executed :
      (event_id : EventId) (p : TradePayload) (s : Orders)
      → Step s (handle_trade_executed event_id p s).0
  order_cancelled :
      (event_id : EventId) (order_id : Option ℕ) (s : Orders)
      → Step s (handle_order_cancelled event_id order_id s).0
  cancel_rejected :
      (event_id : EventId) (order_id : Option ℕ) (s : Orders)
      → Step s (handle_cancel_rejected event_id order_id s).0
  redis_changes : (seen : Seen) (s : Orders) → Step s (record s { seen = seen })

pub data Steps : Orders → Orders → Type 0 where
  done : (s : Orders) → Steps s s
  step : {s t u : Orders} → Step s t → Steps t u → Steps s u

-- What `once` leaves is what was there or what the work makes of it.
once-Keeps :
    (work : Db → Db) (event_id : EventId) (s : Orders)
    → AllRows s.db
    → ((db : Db) → AllRows db → Keeps db (work db))
    → Keeps s.db (once (λ db. accepts db.orders) (λ db. some (work db)) event_id s).0.db
unfolding once commit
once-Keeps work event_id s rows keeps = go (once_db event_id)
  where
    after : EventId → Db
    after id = (once (λ db. accepts db.orders) (λ db. some (work db)) id s).0.db

    once_db : (id : EventId) → (after id ≡ s.db) ⊎ (after id ≡ work s.db)
    once_db absent = ground arith
    once_db (text k) = ground arith
    once_db (uuid k) = ground arith

    go : (after event_id ≡ s.db) ⊎ (after event_id ≡ work s.db) → Keeps s.db (after event_id)
    go (inl e) = rw e (Keeps-refl s.db rows)
    go (inr e) = rw e (keeps s.db rows)

Step-Keeps : {s t : Orders} → Step s t → AllRows s.db → Keeps s.db t.db
unfolding handle_trade_executed handle_order_cancelled handle_cancel_rejected
Step-Keeps (trade_executed event_id p s) rows =
    once-Keeps (trade_work p) event_id s rows (trade_work-Keeps p)
Step-Keeps (order_cancelled event_id r s) rows =
    once-Keeps (cancelled_work r) event_id s rows (cancelled_work-Keeps r)
Step-Keeps (cancel_rejected event_id r s) rows =
    once-Keeps (cancel_rejected_work r) event_id s rows (cancel_rejected_work-Keeps r)
Step-Keeps (redis_changes seen s) rows = Keeps-refl s.db rows

Steps-Keeps : {s t : Orders} → Steps s t → AllRows s.db → Keeps s.db t.db
Steps-Keeps (done s) rows = Keeps-refl s.db rows
Steps-Keeps (step p q) rows = let k = Step-Keeps p rows in Keeps-trans k (Steps-Keeps q k.rows)

-- Whatever trade.executed, order.cancelled and cancel.rejected deliveries the Order Service gets,
-- in any order and number, with Redis markers lost or gained in between: if every row of orders
-- stands under its id with a positive quantity and fills within it, afterwards no row has come or
-- gone, each is such a row with its user, side, type and quantity unchanged, its fills have not
-- shrunk, its status has moved along edges of ALLOWED only, and a terminal status has not changed.
pub consumers_evolve : (s t : Orders) → Steps s t → AllRows s.db → Evolves s.db t.db × AllRows t.db
consumers_evolve s t p rows = let k = Steps-Keeps p rows in (k.evolves, k.rows)

-- A trade.executed event that the Order Service has neither processed nor marked is applied and
-- recorded, if every row stands under its id with a positive quantity and fills within it and the
-- check constraints hold before: no constraint refuses the commit.
pub trade_applied :
    (k : ℕ) (p : TradePayload) (s : Orders)
    → AllRows s.db
    → accepts s.db.orders ≡ true
    → member k s.processed ≡ false
    → member k s.seen.uuids ≡ false
    → let t = (handle_trade_executed (uuid k) p s).0 in
      (t.db ≡ trade_work p s.db) × (member k t.processed ≡ true)
unfolding handle_trade_executed once commit seen_event
trade_applied k p s rows ok new unseen =
    let a = (trade_work-Keeps p s.db rows).accepted ok in ground arith
