-- ===== src/Orders/Place/Saga.antt =====
-- The saga of `place_order`, with its compensations: services/order-service/app/service.py.
use mini_stock_exchange_plat.Base.{
  ℕ, ℤ, pos, Bool, false, Option, none, some, [], ◌∷◌, ◌++◌, ◌==◌, ◌&&◌, if◌then◌else◌,
}
use mini_stock_exchange_plat.Base.Dict.{Dict}
use mini_stock_exchange_plat.Orders.Status.{
  Status, pending, new, rejected, Rejection, no_market_price, service_unavailable,
  broker_unavailable, answered, Order, Db, save, transition,
}
use mini_stock_exchange_plat.Orders.Place.{
  PlaceOrderIn, Answer, created, replayed, bad_request, conflict, unavailable, crashed, Step, go,
  stop, invalid, uncaught, Valid, validate, Outside, order_accepted, order_rejected, World, Reserve,
  reserved, no_price, reserve_crashed, refused_with, failed_call, reserve, release,
}

-- The user's order with this client_order_id.
abbrev pub same_client : Order → ℕ → ℕ → Bool
same_client o user client =
    o.user_id == user && (elim o.client_order_id [ none ↦ false | some c ↦ c == client ])

abbrev pub find_client : ℕ → ℕ → Dict Order → Option Order
find_client user client [] = none
find_client user client ((_, o) ∷ orders) =
    if same_client o user client then some o else find_client user client orders

abbrev pub existing : ℕ → Option ℕ → Db → Option Order
existing user none db = none
existing user (some client) db = find_client user client db.orders

-- The new row.
abbrev pub pending_order : ℕ → ℕ → Option ℕ → Valid → Order
pending_order id user client v = record {
  id = id;
  user_id = user;
  client_order_id = client;
  symbol = v.symbol;
  side = v.side;
  order_type = v.type;
  quantity = v.quantity;
  filled_quantity = 0;
  avg_fill_price = pos 0;
  status = pending;
  reserved_amount = none;
  reject_reason = none;
}

abbrev pub persist : Order → World → World
persist order w = record w {
  db = record (save order w.db) {
    order_events =
        w.db.order_events
        ++ record { order_id = order.id; from_status = none; to_status = pending } ∷ [];
  };
}

-- The order as the session has it after `transition`.
abbrev pub moved : Db → Order → Status → Order
moved db order to = if (transition db order to).1 then record order { status = to } else order

-- `_reject`, and the answer that follows it; a commit that fails is raised.
unfoldable pub reject : Outside → Order → Rejection → World → Answer → World × Answer
reject out order reason w answer =
    let order' = record (moved w.db order rejected) { reject_reason = some reason } in
    if out.reject_committed
    then (
      record w {
        db = save order' (transition w.db order rejected).0;
        outbox = w.outbox ++ (if out.rejected_sent then order_rejected order' reason ∷ [] else []);
      },
      answer,
    )
    else (w, crashed)

-- Step 6, of an order that is NEW: publish, or release the hold and reject.
unfoldable pub announce : Outside → Order → World → World × Answer
announce out order w =
    if out.accepted_sent
    then (record w { outbox = w.outbox ++ order_accepted order ∷ [] }, created order)
    else reject out order broker_unavailable (release out order.id w) unavailable

abbrev pub with_amount : Option ℤ → Order → Order
with_amount none order = order
with_amount (some a) order = record order { reserved_amount = some a }

-- Step 5, where the hold is in place; after a commit that fails, the row is as it was.
unfoldable pub advance : Outside → Order → Option ℤ → World → World × Answer
advance out order amount w =
    let order1 = with_amount amount order in
    let db = save order1 w.db in
    let held = record w { holds = order.id ∷ w.holds } in
    if out.advance_committed
    then announce out (moved db order1 new) (record held { db = (transition db order1 new).0 })
    else (held, crashed)

abbrev pub landed_hold : Bool → ℕ → World → World
landed_hold landed id w = if landed then record w { holds = id ∷ w.holds } else w

-- Steps 4 to 7, of an order that is PENDING, by how `reserve` ends.
unfoldable pub after_reserve : Outside → Order → World → Reserve → World × Answer
after_reserve out order w (reserved amount) = advance out order amount w
after_reserve out order w no_price = reject out order no_market_price w conflict
after_reserve out order w reserve_crashed = (w, crashed)
after_reserve out order w (refused_with detail landed) =
    reject out order (answered detail) (landed_hold landed order.id w) conflict
after_reserve out order w (failed_call landed) =
    let w1 = landed_hold landed order.id w in
    reject out order service_unavailable (release out order.id w1) unavailable

-- Steps 3 to 7: the commit of the new row may lose a race for the client_order_id.
unfoldable pub submit : Outside → Order → World → Option (Option Order) → World × Answer
submit out order w (some (some winner)) = (w, replayed winner)
submit out order w (some none) = (w, conflict)
submit out order w none = after_reserve out order (persist order w) (reserve out order)

-- Steps 2 to 7.
unfoldable pub place_valid :
    Outside → ℕ → ℕ → Option ℕ → World → Valid → Option Order → World × Answer
place_valid out id user client w v (some order) = (w, replayed order)
place_valid out id user client w v none = submit out (pending_order id user client v) w out.raced

unfoldable pub place_checked : Outside → ℕ → ℕ → PlaceOrderIn → World → Step Valid → World × Answer
place_checked out id user body w (stop invalid) = (w, bad_request)
place_checked out id user body w (stop uncaught) = (w, crashed)
place_checked out id user body w (go v) =
    place_valid out id user body.client_order_id w v (existing user body.client_order_id w.db)

-- `place_order`; `id` is the fresh `uuid4`.
unfoldable pub place_order : Outside → ℕ → ℕ → PlaceOrderIn → World → World × Answer
unfolding place_checked place_valid submit
place_order out id user body w = place_checked out id user body w (validate body)
