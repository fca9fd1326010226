-- ===== src/Market.antt =====
-- Candles and the last price: services/market-data-service/app/events.py. Prices are in ten-
-- thousandths; times are seconds since the epoch, so that a minute is 60 of them. A payload that
-- does not parse is raised before anything is written, and is left out; quantities and prices of a
-- trade are not negative.
pub mod Candles
pub mod Fill
pub mod Feed
pub mod Quotes
mod Tests
use mini_stock_exchange_plat.Base.{
  ℕ, min, max, ◌+◌, ◌-◌, ◌*◌, ◌/◌, ◌%◌, ◌≡◌, Bool, true, false, ◌&&◌, ◌||◌, ◌++◌, Option, none,
  some, List, [], ◌∷◌, ◌==◌, if◌then◌else◌,
}
use mini_stock_exchange_plat.Base.Dict.{Dict, lookup, insert}
use mini_stock_exchange_plat.Events.Once.{member}

pub data Interval : Type 0 where
  one_minute five_minutes : Interval

abbrev pub minutes : Interval → ℕ
minutes one_minute = 1
minutes five_minutes = 5

pub record Candle : Type 0 where
  pub open_price : ℕ
  pub high : ℕ
  pub low : ℕ
  pub close : ℕ
  pub volume : ℕ
  pub trade_count : ℕ

-- `floor_bucket`: the minute of the hour is cut down to a multiple of the width.
unfoldable pub floor_bucket : ℕ → ℕ → ℕ
floor_bucket ts width = 3600 * (ts / 3600) + 60 * (ts % 3600 / 60 / width * width)

-- The payload of trade.executed, with its event.
pub record Trade : Type 0 where
  pub event_id : ℕ
  pub symbol : ℕ
  pub price : ℕ
  pub quantity : ℕ
  pub executed_at : ℕ

-- The tables, candles by interval, symbol and start; the keys of Redis; the ticks published.
pub record Market : Type 0 where
  pub trades : List Trade
  pub candles : Interval → ℕ → ℕ → Option Candle
  pub seen : List ℕ
  pub last_price : ℕ → Option ℕ
  pub ticks : List Trade

-- The row that is inserted, and what it makes of a row that is there.
abbrev pub opening : Trade → Candle
opening t = record {
  open_price = t.price;
  high = t.price;
  low = t.price;
  close = t.price;
  volume = t.quantity;
  trade_count = 1;
}

abbrev pub updated : Trade → Candle → Candle
updated t c = record {
  open_price = c.open_price;
  high = max c.high t.price;
  low = min c.low t.price;
  close = t.price;
  volume = c.volume + t.quantity;
  trade_count = c.trade_count + 1;
}

unfoldable pub upserted : Trade → Option Candle → Candle
upserted t none = opening t
upserted t (some c) = updated t c

abbrev pub eq_interval : Interval → Interval → Bool
eq_interval i j = minutes i == minutes j

-- `upsert_candle`, in the bucket of the trade.
unfoldable pub upsert_candle : Interval → Trade → Market → Market
upsert_candle i t m =
    let bucket = floor_bucket t.executed_at (minutes i) in
    let row = upserted t (m.candles i t.symbol bucket) in
    record m {
      candles = λ j symbol start.
          if eq_interval i j && t.symbol == symbol && bucket == start
          then some row
          else m.candles j symbol start;
    }

abbrev pub has_trade : ℕ → List Trade → Bool
has_trade event [] = false
has_trade event (t ∷ ts) = event == t.event_id || has_trade event ts

-- The insert that does nothing on a conflict.
abbrev pub insert_trade : Trade → Market → Market
insert_trade t m = if has_trade t.event_id m.trades then m else record m { trades = t ∷ m.trades }

-- What follows the transaction: the cached price and the tick.
abbrev pub announce : Trade → Market → Market
announce t m = record m {
  last_price = λ symbol. if t.symbol == symbol then some t.price else m.last_price symbol;
  ticks = m.ticks ++ t ∷ [];
}

-- `handle_trade`
unfoldable pub handle_trade : Trade → Market → Market
handle_trade t m =
    let stored = upsert_candle five_minutes t (upsert_candle one_minute t (insert_trade t m)) in
    if member t.event_id m.seen then m else announce t stored

unfoldable pub handle_trades : List Trade → Market → Market
handle_trades [] m = m
handle_trades (t ∷ ts) m = handle_trades ts (handle_trade t m)
