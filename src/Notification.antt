-- ===== src/Notification.antt =====
-- Notifications: services/notification-service/app/handlers.py. A message is kept as what it says;
-- its wording and the mock email, which follows the commit and may fail, are left out.
mod Delivered
pub mod Inbox
pub mod Badge
mod Tests
use mini_stock_exchange_plat.Base.{
  ℕ, Bool, true, false, ◌&&◌, Option, none, some, List, [], ◌∷◌, ◌++◌, ◌==◌, if◌then◌else◌,
}
use mini_stock_exchange_plat.Events.Once.{EventId, Service, Delivery, once}

pub data NotificationType : Type 0 where
  order_filled order_partially_filled order_cancelled order_rejected : NotificationType

abbrev pub type_index : NotificationType → ℕ
type_index order_filled = 0
type_index order_partially_filled = 1
type_index order_cancelled = 2
type_index order_rejected = 3

abbrev pub eq_type : NotificationType → NotificationType → Bool
eq_type a b = type_index a == type_index b

pub data CancelReason : Type 0 where
  user_request no_liquidity ioc_remainder : CancelReason

pub data Message : Type 0 where
  bought sold : ℕ → ℕ → ℕ → Message
  no_liquidity_for_order : Message
  not_filled unfilled_cancelled : ℕ → Message
  rejected_for : Option ℕ → Message

-- A user id that is no UUID is `none`.
pub record Notification : Type 0 where
  pub user_id : Option ℕ
  pub notification_type : NotificationType
  pub message : Message
  pub symbol : ℕ
  pub reference_id : Option ℕ

pub record Trade : Type 0 where
  pub trade_id : Option ℕ
  pub symbol : ℕ
  pub quantity : ℕ
  pub price : ℕ
  pub buyer : Option ℕ
  pub seller : Option ℕ
  pub buy_remaining : ℕ
  pub sell_remaining : ℕ

abbrev pub fill_type : ℕ → NotificationType
fill_type remaining = if remaining == 0 then order_filled else order_partially_filled

unfoldable pub build_trade_executed : Trade → List Notification
build_trade_executed t =
    record {
      user_id = t.buyer;
      notification_type = fill_type t.buy_remaining;
      message = bought t.quantity t.price t.buy_remaining;
      symbol = t.symbol;
      reference_id = t.trade_id;
    }
    ∷ record {
      user_id = t.seller;
      notification_type = fill_type t.sell_remaining;
      message = sold t.quantity t.price t.sell_remaining;
      symbol = t.symbol;
      reference_id = t.trade_id;
    }
    ∷ []

abbrev pub cancel_message : CancelReason → ℕ → Message
cancel_message no_liquidity quantity = no_liquidity_for_order
cancel_message ioc_remainder quantity = not_filled quantity
cancel_message user_request quantity = unfilled_cancelled quantity

abbrev pub is_remainder : CancelReason → Bool
is_remainder ioc_remainder = true
is_remainder _ = false

-- Nothing is told of a remainder of no shares.
unfoldable pub build_order_cancelled :
    Option ℕ → Option ℕ → ℕ → ℕ → CancelReason → List Notification
build_order_cancelled user order symbol quantity reason =
    if is_remainder reason && quantity == 0
    then []
    else record {
      user_id = user;
      notification_type = order_cancelled;
      message = cancel_message reason quantity;
      symbol = symbol;
      reference_id = order;
    }
      ∷ []

unfoldable pub build_order_rejected : Option ℕ → Option ℕ → ℕ → Option ℕ → List Notification
build_order_rejected user order symbol reason =
    record {
      user_id = user;
      notification_type = order_rejected;
      message = rejected_for reason;
      symbol = symbol;
      reference_id = order;
    }
    ∷ []

-- The rows whose user id is usable.
unfoldable pub deliverable : List Notification → List Notification
deliverable [] = []
deliverable (row ∷ rows) = elim row.user_id [
  | none ↦ deliverable rows
  | some user ↦ row ∷ deliverable rows
]

-- `_handle`, of what the payload builds; the rows commit with the event's row.
unfoldable pub handle :
    List Notification
    → EventId
    → Service (List Notification)
    → Service (List Notification) × Delivery
handle rows = once (λ _. true) (λ table. some (table ++ deliverable rows))
