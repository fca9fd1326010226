-- ===== src/Engine/Book.antt =====
-- The order book of services/matching-engine/app/engine.py: its data, `rest`, `cancel`, the best
-- prices and `aggregate`. Identifiers are only compared, so they are naturals; a price is a
-- Decimal of four places, held as an integer number of ten-thousandths. A BookOrder is a shared
-- object in the source, found from a level and from `index`; here both hold its value, and what
-- writes `remaining` writes both. `seq`, which `_parse` counts up, is the object's identity.
use mini_stock_exchange_plat.Base.{
  ℕ, ℤ, Bool, Option, none, some, List, [], ◌∷◌, ◌++◌, map, length, sum_of, ltb_ℤ, eqb_ℤ, ◌==◌,
  if◌then◌else◌, take,
}

pub data Side : Type 0 where
  buy sell : Side

-- `order_type` with `price`: a limit order has one, a market order has None.
pub data OrderType : Type 0 where
  limit : ℤ → OrderType
  market : OrderType

pub record BookOrder : Type 0 where
  pub order_id : ℕ
  pub user_id : ℕ
  pub side : Side
  pub order_type : OrderType
  pub remaining : ℕ
  pub symbol : ℕ
  pub seq : ℕ

-- A `trade.executed` payload, less its fresh `trade_id` and its time.
pub record Trade : Type 0 where
  pub symbol : ℕ
  pub price : ℤ
  pub quantity : ℕ
  pub buy_order_id : ℕ
  pub sell_order_id : ℕ
  pub buyer_user_id : ℕ
  pub seller_user_id : ℕ
  pub aggressor_side : Side
  pub buy_order_remaining : ℕ
  pub sell_order_remaining : ℕ
  pub buy_order_limit_price : Option ℤ

-- `dict[Decimal, deque[BookOrder]]`, in insertion order; a level's front is its head.
abbrev pub Levels : Type 0
Levels = List (ℤ × List BookOrder)

-- `book.index`
abbrev pub Index : Type 0
Index = ℕ → Option BookOrder

pub record OrderBook : Type 0 where
  pub symbol : ℕ
  pub bids : Levels
  pub asks : Levels
  pub index : Index
  pub recent_trades : List Trade

abbrev pub max_recent_trades : ℕ
max_recent_trades = 200

-- The level at a price; a missing key reads as the empty level.
abbrev pub level_at : ℤ → Levels → List BookOrder
level_at px [] = []
level_at px ((k, level) ∷ levels) = if eqb_ℤ px k then level else level_at px levels

-- `side_map[px] = level`, at a key that is there or at the end
abbrev pub set_level : ℤ → List BookOrder → Levels → Levels
set_level px level [] = (px, level) ∷ []
set_level px level (e ∷ levels) =
    if eqb_ℤ px e.0 then (px, level) ∷ levels else e ∷ set_level px level levels

-- `del side_map[px]`
abbrev pub del_level : ℤ → Levels → Levels
del_level px [] = []
del_level px (e ∷ levels) = if eqb_ℤ px e.0 then levels else e ∷ del_level px levels

-- What the code leaves of a level: an empty one is deleted.
abbrev pub store_level : ℤ → List BookOrder → Levels → Levels
store_level px [] levels = del_level px levels
store_level px (o ∷ level) levels = set_level px (o ∷ level) levels

abbrev pub set_index : ℕ → BookOrder → Index → Index
set_index id o index j = if j == id then some o else index j

-- `index.pop(id, None)`
abbrev pub pop_index : ℕ → Index → Index
pop_index id index j = if j == id then none else index j

-- `OrderBook.__init__`
unfoldable pub empty_book : ℕ → OrderBook
empty_book symbol = record {
  symbol = symbol;
  bids = [];
  asks = [];
  index = λ _. none;
  recent_trades = [];
}

-- The side map that an order of this side rests in, and the one it is matched against.
abbrev pub own_levels : Side → OrderBook → Levels
own_levels buy book = book.bids
own_levels sell book = book.asks

abbrev pub opposite_levels : Side → OrderBook → Levels
opposite_levels buy book = book.asks
opposite_levels sell book = book.bids

abbrev pub with_own_levels : Side → Levels → OrderBook → OrderBook
with_own_levels buy levels book = record book { bids = levels }
with_own_levels sell levels book = record book { asks = levels }

abbrev pub with_opposite_levels : Side → Levels → OrderBook → OrderBook
with_opposite_levels buy levels book = record book { asks = levels }
with_opposite_levels sell levels book = record book { bids = levels }

-- `rest`: to the back of the level at its price. Only limit orders come here.
unfoldable pub rest_at : OrderBook → BookOrder → OrderType → OrderBook
rest_at book order market = book
rest_at book order (limit px) =
    let levels = own_levels order.side book in
    let level = level_at px levels ++ order ∷ [] in
    record (with_own_levels order.side (set_level px level levels) book) {
      index = set_index order.order_id order book.index;
    }

unfoldable pub rest : OrderBook → BookOrder → OrderBook
unfolding rest_at
rest book order = rest_at book order order.order_type

-- `level.remove(order)`: the object with this identity, if the level has it
abbrev pub remove_order : ℕ → List BookOrder → List BookOrder
remove_order seq [] = []
remove_order seq (o ∷ level) = if o.seq == seq then level else o ∷ remove_order seq level

-- `side_map.get(order.price)`, then the removal; no level is left alone.
abbrev pub remove_from : ℤ → ℕ → Levels → Levels
remove_from px seq levels = store_level px (remove_order seq (level_at px levels)) levels

unfoldable pub cancel_at : OrderBook → BookOrder → OrderType → OrderBook
cancel_at book order market = book
cancel_at book order (limit px) =
    with_own_levels order.side (remove_from px order.seq (own_levels order.side book)) book

unfoldable pub cancel : OrderBook → ℕ → OrderBook × Option BookOrder
unfolding cancel_at
cancel book order_id = elim (book.index order_id) [
  | none ↦ (book, none)
  | some order ↦ (
    cancel_at (record book { index = pop_index order_id book.index }) order order.order_type,
    some order,
  )
]

-- `best_bid` and `best_ask`: `max` and `min` of the keys.
unfoldable pub best_from : (ℤ → ℤ → Bool) → ℤ → Levels → ℤ
best_from better px [] = px
best_from better px ((k, _) ∷ levels) = best_from better (if better k px then k else px) levels

unfoldable pub best : (ℤ → ℤ → Bool) → Levels → Option ℤ
best better [] = none
best better ((k, _) ∷ levels) = some (best_from better k levels)

unfoldable pub best_bid : OrderBook → Option ℤ
unfolding best best_from
best_bid book = best (λ a b. ltb_ℤ b a) book.bids

unfoldable pub best_ask : OrderBook → Option ℤ
unfolding best best_from
best_ask book = best ltb_ℤ book.asks

-- `sorted(side_map)` and `sorted(side_map, reverse=True)`, by what comes first.
abbrev pub insert_price : (ℤ → ℤ → Bool) → ℤ → List ℤ → List ℤ
insert_price ahead px [] = px ∷ []
insert_price ahead px (k ∷ ks) = if ahead px k then px ∷ k ∷ ks else k ∷ insert_price ahead px ks

abbrev pub sort_prices : (ℤ → ℤ → Bool) → List ℤ → List ℤ
sort_prices ahead [] = []
sort_prices ahead (k ∷ ks) = insert_price ahead k (sort_prices ahead ks)

abbrev pub prices : Levels → List ℤ
prices [] = []
prices ((k, _) ∷ levels) = k ∷ prices levels

pub record Depth : Type 0 where
  pub price : ℤ
  pub quantity : ℕ
  pub orders : ℕ

unfoldable pub aggregate_level : Levels → ℤ → Depth
aggregate_level levels px = record {
  price = px;
  quantity = sum_of (λ o. o.remaining) (level_at px levels);
  orders = length (level_at px levels);
}

-- `aggregate`; `ahead` is the order of the prices, descending for bids
unfoldable pub aggregate : (ℤ → ℤ → Bool) → ℕ → Levels → List Depth
unfolding aggregate_level
aggregate ahead depth levels =
    map (aggregate_level levels) (take depth (sort_prices ahead (prices levels)))
