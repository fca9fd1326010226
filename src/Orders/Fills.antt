-- ===== src/Orders/Fills.antt =====
-- The event consumers of the order service: services/order-service/app/handlers.py. A payload is
-- read as numbers: what `_as_uuid` refuses is `none`, and a quantity that is missing is 0.
pub mod Moves
pub mod Handlers
use mini_stock_exchange_plat.Base.{
  ℕ, ◌+◌, ◌*◌, ◌≡◌, refl, ℤ, Bool, true, false, Option, none, some, List, [], ◌∷◌, arith, leb, ltb,
  ◌==◌, ◌&&◌, if◌then◌else◌,
}
use mini_stock_exchange_plat.Base.Int.{◌+ℤ◌, ◌*ℤ◌, pos}
use mini_stock_exchange_plat.Base.Dict.{Dict, lookup}
use mini_stock_exchange_plat.Money.{round_half_up}
use mini_stock_exchange_plat.Events.Once.{EventId, Service, Delivery, once}
use mini_stock_exchange_plat.Orders.Status.{
  Status, pending, new, partially_filled, filled, cancel_pending, cancelled, is_terminal, Order, Db,
  save, transition,
}

-- `ck_fill_bounds` and `ck_qty_positive`, of every row
abbrev pub accepts : Dict Order → Bool
accepts [] = true
accepts ((_, o) ∷ orders) = leb o.filled_quantity o.quantity && ltb 0 o.quantity && accepts orders

-- `SELECT ... FOR UPDATE` by an id that may be no UUID
abbrev pub locked : Db → Option ℕ → Option Order
locked db none = none
locked db (some id) = lookup id db.orders

pub record TradePayload : Type 0 where
  pub quantity : ℕ
  pub price : ℤ
  pub buy_order_id : Option ℕ
  pub sell_order_id : Option ℕ

-- The fill count after the clamp.
abbrev pub new_filled : Order → ℕ → ℕ
new_filled order quantity =
    if ltb order.quantity (order.filled_quantity + quantity)
    then order.quantity
    else order.filled_quantity + quantity

-- The order with its numbers updated.
abbrev pub add_fill : Order → ℕ → ℤ → Order
add_fill order quantity price = record order {
  avg_fill_price =
      round_half_up (order.avg_fill_price *ℤ pos order.filled_quantity +ℤ price *ℤ pos quantity)
        (new_filled order quantity);
  filled_quantity = new_filled order quantity;
}

-- The body of the loop over the two orders of a trade.
fill_order : ℕ → ℤ → Db → Option Order → Db
fill_order quantity price db none = db
fill_order quantity price db (some order) =
    let order' = add_fill order quantity price in
    if new_filled order quantity == 0
    then db
    else if is_terminal order.status
    then save order' db
    else (transition (save order' db) order'
        (if order'.filled_quantity == order'.quantity then filled else partially_filled)).0

unfoldable pub trade_work : TradePayload → Db → Db
unfolding fill_order
trade_work p db =
    if p.quantity == 0
    then db
    else let db1 = fill_order p.quantity p.price db (locked db p.buy_order_id) in
      fill_order p.quantity p.price db1 (locked db1 p.sell_order_id)

cancel_order : Db → Option Order → Db
cancel_order db none = db
cancel_order db (some order) = (transition db order cancelled).0

unfoldable pub cancelled_work : Option ℕ → Db → Db
unfolding cancel_order
cancelled_work order_id db = cancel_order db (locked db order_id)

-- Where a refused cancellation puts the order back.
abbrev pub restored : Order → Status
restored order =
    if leb order.quantity order.filled_quantity
    then filled
    else if ltb 0 order.filled_quantity
    then partially_filled
    else new

restore_order : Db → Option Order → Db
restore_order db none = db
restore_order db (some order) = elim order.status [
  | cancel_pending ↦ (transition db order (restored order)).0
  | _ ↦ db
]

unfoldable pub cancel_rejected_work : Option ℕ → Db → Db
unfolding restore_order
cancel_rejected_work order_id db = restore_order db (locked db order_id)

abbrev pub Orders : Type 0
Orders = Service Db

unfoldable pub handle_trade_executed : EventId → TradePayload → Orders → Orders × Delivery
handle_trade_executed event_id p =
    once (λ db. accepts db.orders) (λ db. some (trade_work p db)) event_id

unfoldable pub handle_order_cancelled : EventId → Option ℕ → Orders → Orders × Delivery
handle_order_cancelled event_id order_id =
    once (λ db. accepts db.orders) (λ db. some (cancelled_work order_id db)) event_id

unfoldable pub handle_cancel_rejected : EventId → Option ℕ → Orders → Orders × Delivery
handle_cancel_rejected event_id order_id =
    once (λ db. accepts db.orders) (λ db. some (cancel_rejected_work order_id db)) event_id
