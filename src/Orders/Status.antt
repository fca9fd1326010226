-- ===== src/Orders/Status.antt =====
-- The order's state machine, its row and its audit trail:
-- services/order-service/app/models.py, and `transition` of services/order-service/app/service.py.
-- The note of an audit row is not modelled.
use mini_stock_exchange_plat.Base.{
  ℕ, ℤ, Bool, true, false, Option, some, List, [], ◌∷◌, ◌++◌, if◌then◌else◌,
}
use mini_stock_exchange_plat.Base.Dict.{Dict, insert}
use mini_stock_exchange_plat.Engine.Book.{Side, OrderType}

pub data Status : Type 0 where
  pending new partially_filled filled cancel_pending cancelled rejected : Status

-- `TERMINAL`
abbrev pub is_terminal : Status → Bool
is_terminal filled = true
is_terminal cancelled = true
is_terminal rejected = true
is_terminal _ = false

-- `OPEN`, which `CANCELLABLE` equals
abbrev pub is_open : Status → Bool
is_open new = true
is_open partially_filled = true
is_open _ = false

-- `ALLOWED`: from a status, to a status.
abbrev pub is_allowed : Status → Status → Bool
is_allowed pending new = true
is_allowed pending rejected = true
is_allowed new partially_filled = true
is_allowed new filled = true
is_allowed new cancel_pending = true
is_allowed new cancelled = true
is_allowed new rejected = true
is_allowed partially_filled partially_filled = true
is_allowed partially_filled filled = true
is_allowed partially_filled cancel_pending = true
is_allowed partially_filled cancelled = true
is_allowed cancel_pending cancelled = true
is_allowed cancel_pending filled = true
is_allowed cancel_pending partially_filled = true
is_allowed cancel_pending new = true
is_allowed _ _ = false

-- The reasons of a rejection; what another service answers is a text of its own.
pub data Rejection : Type 0 where
  no_market_price service_unavailable broker_unavailable service_restart : Rejection
  answered : ℕ → Rejection

pub record Order : Type 0 where
  pub id : ℕ
  pub user_id : ℕ
  pub client_order_id : Option ℕ
  pub symbol : ℕ
  pub side : Side
  pub order_type : OrderType
  pub quantity : ℕ
  pub filled_quantity : ℕ
  pub avg_fill_price : ℤ
  pub status : Status
  pub reserved_amount : Option ℤ
  pub reject_reason : Option Rejection

pub record OrderEvent : Type 0 where
  pub order_id : ℕ
  pub from_status : Option Status
  pub to_status : Status

-- The tables `orders` and `order_events`.
pub record Db : Type 0 where
  pub orders : Dict Order
  pub order_events : List OrderEvent

-- The row of an order, written.
abbrev pub save : Order → Db → Db
save order db = record db { orders = insert order.id order db.orders }

-- `transition`: the order as the session then has it, and what is returned.
unfoldable pub transition : Db → Order → Status → Db × Bool
transition db order to_status =
    if is_allowed order.status to_status
    then (
      record (save (record order { status = to_status }) db) {
        order_events =
            db.order_events
            ++ record {
              order_id = order.id;
              from_status = some order.status;
              to_status = to_status;
            }
              ∷ [];
      },
      true,
    )
    else (db, false)
