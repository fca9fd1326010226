-- ===== src/Engine/Match.antt =====
-- `make_trade` and `match` of services/matching-engine/app/engine.py.
pub mod Induction
pub mod Trades
pub mod Priority
pub mod Clearing
use mini_stock_exchange_plat.Base.{
  ℕ, ◌-◌, min, ℤ, Bool, true, false, Option, none, some, List, [], ◌∷◌, ◌++◌, take, leb_ℤ, ltb_ℤ,
  ltb, ◌==◌, if◌then◌else◌,
}
use mini_stock_exchange_plat.Engine.Book.{
  Side, buy, sell, OrderType, limit, market, BookOrder, Trade, Levels, Index, OrderBook, level_at,
  store_level, set_index, pop_index, opposite_levels, with_opposite_levels, sort_prices, prices,
  rest, max_recent_trades,
}

-- `money_str(buy_o.price) if buy_o.order_type == "LIMIT" else None`
abbrev limit_price : OrderType → Option ℤ
limit_price (limit px) = some px
limit_price market = none

trade_between : ℕ → ℤ → ℕ → Side → BookOrder → BookOrder → Trade
trade_between symbol px qty aggressor buy_o sell_o = record {
  symbol = symbol;
  price = px;
  quantity = qty;
  buy_order_id = buy_o.order_id;
  sell_order_id = sell_o.order_id;
  buyer_user_id = buy_o.user_id;
  seller_user_id = sell_o.user_id;
  aggressor_side = aggressor;
  buy_order_remaining = buy_o.remaining;
  sell_order_remaining = sell_o.remaining;
  buy_order_limit_price = limit_price buy_o.order_type;
}

-- `make_trade`, after both remainders are decremented
unfoldable pub make_trade : ℕ → ℤ → ℕ → BookOrder → BookOrder → Trade
unfolding trade_between
make_trade symbol px qty incoming resting = elim incoming.side [
  | buy ↦ trade_between symbol px qty buy incoming resting
  | sell ↦ trade_between symbol px qty sell resting incoming
]

-- What the loops of `match` write: the incoming order, `book.index` and `trades`.
pub record Fill : Type 0 where
  pub incoming : BookOrder
  pub index : Index
  pub trades : List Trade

abbrev pub fill_qty : BookOrder → Fill → ℕ
fill_qty resting s = min s.incoming.remaining resting.remaining

-- The resting order after the fill.
abbrev pub after_fill : BookOrder → Fill → BookOrder
after_fill resting s = record resting { remaining = resting.remaining - fill_qty resting s }

-- One fill: both remainders, the trade, and the resting order's entry in the index.
unfoldable pub execute : ℕ → ℤ → BookOrder → Fill → Fill
execute symbol px resting s =
    let qty = fill_qty resting s in
    let incoming = record s.incoming { remaining = s.incoming.remaining - qty } in
    let resting' = after_fill resting s in
    record {
      incoming = incoming;
      index =
          if ltb 0 resting'.remaining
          then set_index resting.order_id resting' s.index
          else pop_index resting.order_id s.index;
      trades = s.trades ++ make_trade symbol px qty incoming resting' ∷ [];
    }

-- The variables of the `while` loop over one level when it ends.
pub record Drained : Type 0 where
  pub level : List BookOrder
  pub skipped : List BookOrder
  pub fill : Fill

-- `while level and incoming.remaining > 0`. The loop pops from the left. An order that is put
-- back has shares left, so the incoming order has none and the loop ends.
unfoldable pub drain : ℕ → ℤ → List BookOrder → List BookOrder → Fill → Drained
drain symbol px [] skipped s = record { level = []; skipped = skipped; fill = s }
drain symbol px (resting ∷ level) skipped s = elim (ltb 0 s.incoming.remaining) [
  | false ↦ record { level = resting ∷ level; skipped = skipped; fill = s }
  | true ↦ elim (resting.user_id == s.incoming.user_id) [
    | true ↦ drain symbol px level (skipped ++ resting ∷ []) s
    | false ↦ elim (ltb 0 (after_fill resting s).remaining) [
      | true ↦ record {
        level = after_fill resting s ∷ level;
        skipped = skipped;
        fill = execute symbol px resting s;
      }
      | false ↦ drain symbol px level skipped (execute symbol px resting s)
    ]
  ]
]

-- `while skipped: level.appendleft(skipped.pop())`
abbrev pub restore : Drained → List BookOrder
restore d = d.skipped ++ d.level

-- The two breaks on the limit price.
abbrev pub beyond_limit : Side → OrderType → ℤ → Bool
beyond_limit side market px = false
beyond_limit buy (limit p) px = ltb_ℤ p px
beyond_limit sell (limit p) px = ltb_ℤ px p

-- `for px in price_keys`
unfoldable pub match_levels : ℕ → List ℤ → Levels → Fill → Levels × Fill
match_levels symbol [] levels s = (levels, s)
match_levels symbol (px ∷ ks) levels s = elim (s.incoming.remaining == 0) [
  | true ↦ (levels, s)
  | false ↦ elim (beyond_limit s.incoming.side s.incoming.order_type px) [
    | true ↦ (levels, s)
    | false ↦
        let d = drain symbol px (level_at px levels) [] s in
        match_levels symbol ks (store_level px (restore d) levels) d.fill
  ]
]

-- Ascending for a buy, descending for a sell.
abbrev pub ahead_for : Side → ℤ → ℤ → Bool
ahead_for buy a b = leb_ℤ a b
ahead_for sell a b = leb_ℤ b a

pub data Reason : Type 0 where
  ioc_remainder no_liquidity user_request : Reason

-- An `order.cancelled` payload, less its time.
pub record CancelEvent : Type 0 where
  pub order_id : ℕ
  pub user_id : ℕ
  pub symbol : ℕ
  pub side : Side
  pub cancelled_quantity : ℕ
  pub reason : Reason

ioc_cancel : ℕ → BookOrder → List Trade → CancelEvent
ioc_cancel symbol o trades = record {
  order_id = o.order_id;
  user_id = o.user_id;
  symbol = symbol;
  side = o.side;
  cancelled_quantity = o.remaining;
  reason = elim trades [ [] ↦ no_liquidity | t ∷ ts ↦ ioc_remainder ];
}

-- What becomes of the shares that are left.
unfoldable pub settle_rest :
    OrderBook → BookOrder → List Trade → OrderType → OrderBook × Option CancelEvent
unfolding ioc_cancel
settle_rest book incoming trades type =
    if ltb 0 incoming.remaining
    then elim type [
      | limit _ ↦ (rest book incoming, none)
      | market ↦ (book, some (ioc_cancel book.symbol incoming trades))
    ]
    else (book, none)

-- `for trade in trades: recent_trades.appendleft(trade)`, with `maxlen`
unfoldable pub push_recent : List Trade → List Trade → List Trade
push_recent [] recent = recent
push_recent (t ∷ ts) recent = push_recent ts (take max_recent_trades (t ∷ recent))

pub record Matched : Type 0 where
  pub book : OrderBook
  pub incoming : BookOrder
  pub trades : List Trade
  pub cancelled : Option CancelEvent

-- The loops of `match`, from a book and an order.
unfoldable pub run_loops : OrderBook → BookOrder → Levels × Fill
run_loops book incoming =
    let levels = opposite_levels incoming.side book in
    match_levels book.symbol (sort_prices (ahead_for incoming.side) (prices levels)) levels
      (record { incoming = incoming; index = book.index; trades = [] })

unfoldable pub match : OrderBook → BookOrder → Matched
unfolding run_loops settle_rest
match book incoming =
    let (levels, s) = run_loops book incoming in
    let book' = record (with_opposite_levels incoming.side levels book) { index = s.index } in
    let (book'', cancelled) = settle_rest book' s.incoming s.trades s.incoming.order_type in
    record {
      book = record book'' { recent_trades = push_recent s.trades book''.recent_trades };
      incoming = s.incoming;
      trades = s.trades;
      cancelled = cancelled;
    }
