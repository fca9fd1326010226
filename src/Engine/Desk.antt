-- ===== src/Engine/Desk.antt =====
-- The consumers of services/matching-engine/app/handlers.py. A payload comes as it was read:
-- `none` for a symbol that `normalize_symbol` refuses, a side or a type that is no such word, an
-- identifier that is missing or empty. `_publish` never raises; what is handed to it is the
-- outbox. The lock of a symbol is held from the look-up in the book to the last write, so a
-- handler is one step.
pub mod Rebuild
pub mod Memory
pub mod Deliveries
pub mod Gone
mod Tests
use mini_stock_exchange_plat.Base.{
  ℕ, ◌+◌, ◌-◌, suc, ℤ, pos, negsuc, Bool, true, false, Option, none, some, List, [], ◌∷◌, ◌++◌, map,
  length, ltb, ◌==◌, ◌||◌, if◌then◌else◌,
}
use mini_stock_exchange_plat.Base.Maybe.{◌>>=◌, is_some}
use mini_stock_exchange_plat.Events.Once.{member, Delivery, returned, raised}
use mini_stock_exchange_plat.Money.{
  Value, Quantity, int, not_int, Result, ok, err, money_error, invalid_operation, to_money,
}
use mini_stock_exchange_plat.Engine.Book.{
  Side, OrderType, limit, market, BookOrder, Trade, OrderBook, rest, cancel,
}
use mini_stock_exchange_plat.Engine.Match.{match, CancelEvent, user_request}

pub data TypeWord : Type 0 where
  limit_word market_word : TypeWord

-- The payload of order.accepted, and a row of the Order Service's open orders.
pub record Accepted : Type 0 where
  pub order_id : Option ℕ
  pub user_id : Option ℕ
  pub symbol : Option ℕ
  pub side : Option Side
  pub order_type : Option TypeWord
  pub price : Value
  pub quantity : Quantity

pub data RejectReason : Type 0 where
  already_filled not_in_book : RejectReason

-- What is handed to `_publish`, less the times.
pub data Event : Type 0 where
  trade_executed : Trade → Event
  order_cancelled : CancelEvent → Event
  cancel_rejected : Option ℕ → Option ℕ → RejectReason → Event

-- `books`, `seen_orders` and `_seq`, with what was published.
pub record Engine : Type 0 where
  pub books : ℕ → OrderBook
  pub seen_orders : List ℕ
  pub seq : ℕ
  pub outbox : List Event

abbrev pub seen_orders_max : ℕ
seen_orders_max = 10_000

-- `while len(seen_orders) > SEEN_ORDERS_MAX: seen_orders.pop(next(iter(seen_orders)))`
unfoldable pub trim : ℕ → List ℕ → List ℕ
trim bound [] = []
trim bound (k ∷ ks) = if ltb bound (suc (length ks)) then trim bound ks else k ∷ ks

-- `seen_orders[order_id] = None`: a key that is there keeps its place.
abbrev pub set_key : ℕ → List ℕ → List ℕ
set_key k ks = if member k ks then ks else ks ++ k ∷ []

unfoldable pub remember : ℕ → List ℕ → List ℕ
remember order_id seen = trim seen_orders_max (set_key order_id seen)

-- The order's type with its price: `none` is a bad price, which is dropped.
parse_type : TypeWord → Value → Result (Option OrderType)
parse_type market_word price = ok (some market)
parse_type limit_word price = elim (to_money price) [
  | ok p ↦ ok (some (limit p))
  | err money_error ↦ ok none
  | err invalid_operation ↦ err invalid_operation
]

parse_quantity : Quantity → Option ℕ
parse_quantity not_int = none
parse_quantity (int (negsuc n)) = none
parse_quantity (int (pos n)) = if n == 0 then none else some n

-- The checks of `_parse` that drop the event.
checked : Accepted → Option (ℕ × Side × TypeWord × ℕ)
checked p = do
  symbol ← p.symbol
  side ← p.side
  word ← p.order_type
  n ← parse_quantity p.quantity
  some (symbol, side, word, n)

-- The end of `_parse`, where the identifiers must be there.
parse_order : Accepted → ℕ → ℕ → Side → ℕ → OrderType → Option BookOrder
parse_order p seq symbol side n type = do
  order_id ← p.order_id
  user_id ← p.user_id
  some (record {
    order_id = order_id;
    user_id = user_id;
    side = side;
    order_type = type;
    remaining = n;
    symbol = symbol;
    seq = seq;
  })

parse_priced : Accepted → ℕ → ℕ → Side → ℕ → Result (Option OrderType) → Result (Option BookOrder)
parse_priced p seq symbol side n (err e) = err e
parse_priced p seq symbol side n (ok none) = ok none
parse_priced p seq symbol side n (ok (some type)) = ok (parse_order p seq symbol side n type)

parse_checked : ℕ → Accepted → Option (ℕ × Side × TypeWord × ℕ) → Result (Option BookOrder)
parse_checked seq p none = ok none
parse_checked seq p (some (symbol, side, word, n)) =
    parse_priced p seq symbol side n (parse_type word p.price)

-- `_parse`: an order, None, or what `to_money` raises that is no MoneyError.
unfoldable pub parse : ℕ → Accepted → Result (Option BookOrder)
unfolding parse_checked parse_priced parse_order parse_quantity parse_type checked
parse seq p = parse_checked seq p (checked p)

abbrev pub set_book : ℕ → OrderBook → (ℕ → OrderBook) → ℕ → OrderBook
set_book symbol book books j = if j == symbol then book else books j

abbrev pub cancel_events : Option CancelEvent → List Event
cancel_events none = []
cancel_events (some e) = order_cancelled e ∷ []

-- `handle_order_accepted`, once the order is parsed.
unfoldable pub accept : BookOrder → Engine → Engine
accept order engine =
    let book = engine.books order.symbol in
    if is_some (book.index order.order_id) || member order.order_id engine.seen_orders
    then engine
    else let m = match book order in
      record engine {
        books = set_book order.symbol m.book engine.books;
        seen_orders = remember order.order_id engine.seen_orders;
        outbox = engine.outbox ++ map trade_executed m.trades ++ cancel_events m.cancelled;
      }

-- The order has the next sequence number, which is used up.
accept_parsed : Engine → Result (Option BookOrder) → Engine × Delivery
accept_parsed engine (err e) = (engine, raised)
accept_parsed engine (ok none) = (engine, returned)
accept_parsed engine (ok (some order)) =
    (accept order (record engine { seq = order.seq }), returned)

unfoldable pub handle_order_accepted : Accepted → Engine → Engine × Delivery
unfolding accept_parsed
handle_order_accepted p engine = accept_parsed engine (parse (suc engine.seq) p)

-- The payload of order.cancel_requested.
pub record CancelRequested : Type 0 where
  pub order_id : Option ℕ
  pub user_id : Option ℕ
  pub symbol : Option ℕ

-- `cancel(book, str(order_id))`; no order is held under a missing id.
cancel_id : OrderBook → Option ℕ → OrderBook × Option BookOrder
cancel_id book none = (book, none)
cancel_id book (some order_id) = cancel book order_id

reject_reason : Option ℕ → List ℕ → RejectReason
reject_reason none seen = not_in_book
reject_reason (some order_id) seen = if member order_id seen then already_filled else not_in_book

cancel_answer : CancelRequested → ℕ → List ℕ → Option BookOrder → Event
cancel_answer p symbol seen none =
    cancel_rejected p.order_id p.user_id (reject_reason p.order_id seen)
cancel_answer p symbol seen (some removed) = order_cancelled (record {
  order_id = removed.order_id;
  user_id = removed.user_id;
  symbol = symbol;
  side = removed.side;
  cancelled_quantity = removed.remaining;
  reason = user_request;
})

cancel_in : CancelRequested → Engine → Option ℕ → Engine
cancel_in p engine none = engine
cancel_in p engine (some symbol) =
    let (book, removed) = cancel_id (engine.books symbol) p.order_id in
    record engine {
      books = set_book symbol book engine.books;
      outbox = engine.outbox ++ cancel_answer p symbol engine.seen_orders removed ∷ [];
    }

unfoldable pub handle_cancel_requested : CancelRequested → Engine → Engine × Delivery
unfolding cancel_in cancel_id cancel_answer reject_reason
handle_cancel_requested p engine = (cancel_in p engine p.symbol, returned)
