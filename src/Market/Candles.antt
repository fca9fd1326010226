-- ===== src/Market/Candles.antt =====
-- The candles of services/market-data-service/app/events.py against the trades they sum up.
use mini_stock_exchange_plat.Base.{
  ℕ, min, max, ◌+◌, ◌*◌, ◌%◌, ◌<◌, ◌≤◌, ◌≡◌, refl, ◌∙◌, Bool, true, false, ◌&&◌, Option, none, some,
  List, [], ◌∷◌, ◌==◌, if◌then◌else◌, arith, sum_of, length,
}
use mini_stock_exchange_plat.Events.Once.{member}
use mini_stock_exchange_plat.Market.{
  Interval, one_minute, five_minutes, minutes, Candle, floor_bucket, Trade, Market, opening,
  updated, upserted, eq_interval, upsert_candle, has_trade, insert_trade, handle_trade,
}

-- The bucket of a time starts at a whole multiple of its interval, no later than the time, and
-- ends after it.
pub floor_bucket_bounds :
    (i : Interval) (ts : ℕ)
    → (floor_bucket ts (minutes i) ≤ ts)
      × (ts < floor_bucket ts (minutes i) + 60 * minutes i)
      × (floor_bucket ts (minutes i) % (60 * minutes i) ≡ 0)
unfolding floor_bucket
floor_bucket_bounds one_minute ts = omega arith
floor_bucket_bounds five_minutes ts = omega arith

-- The trades of a candle.
abbrev pub belongs : Interval → ℕ → ℕ → Trade → Bool
belongs i symbol start t = t.symbol == symbol && floor_bucket t.executed_at (minutes i) == start

unfoldable pub trades_of : Interval → ℕ → ℕ → List Trade → List Trade
trades_of i symbol start [] = []
trades_of i symbol start (t ∷ ts) =
    let rest = trades_of i symbol start ts in if belongs i symbol start t then t ∷ rest else rest

-- The specification: first and last price, extremes, and sums.
unfoldable pub last_price_of : ℕ → List Trade → ℕ
last_price_of price [] = price
last_price_of price (t ∷ ts) = last_price_of t.price ts

unfoldable pub highest : ℕ → List Trade → ℕ
highest price [] = price
highest price (t ∷ ts) = max t.price (highest price ts)

unfoldable pub lowest : ℕ → List Trade → ℕ
lowest price [] = price
lowest price (t ∷ ts) = min t.price (lowest price ts)

unfoldable pub summary : List Trade → Option Candle
summary [] = none
summary (t ∷ ts) = some (record {
  open_price = t.price;
  high = highest t.price ts;
  low = lowest t.price ts;
  close = last_price_of t.price ts;
  volume = t.quantity + sum_of (λ t. t.quantity) ts;
  trade_count = length (t ∷ ts);
})

-- Trades added to a candle, one after another.
unfoldable pub extended : Candle → List Trade → Candle
extended c [] = c
extended c (t ∷ ts) = extended (updated t c) ts

-- The candle under a key after one trade, and after many.
candle-upsert :
    (i : Interval) (symbol start : ℕ) (j : Interval) (t : Trade) (m : Market)
    → (upsert_candle j t m).candles i symbol start ≡ (
        if eq_interval j i && belongs j symbol start t
        then some (upserted t (m.candles i symbol start))
        else m.candles i symbol start)
unfolding upsert_candle
candle-upsert one_minute symbol start one_minute t m = ground arith
candle-upsert one_minute symbol start five_minutes t m = refl
candle-upsert five_minutes symbol start one_minute t m = refl
candle-upsert five_minutes symbol start five_minutes t m = ground arith

candle-insert_trade :
    (i : Interval) (symbol start : ℕ) (t : Trade) (m : Market)
    → (insert_trade t m).candles i symbol start ≡ m.candles i symbol start
candle-insert_trade i symbol start t m = ground arith

seen-insert_trade : (t : Trade) (m : Market) → (insert_trade t m).seen ≡ m.seen
seen-insert_trade t m = ground arith

candle-handle_trade :
    (i : Interval) (symbol start : ℕ) (t : Trade) (m : Market)
    → m.seen ≡ []
    → (handle_trade t m).candles i symbol start ≡ (
        if belongs i symbol start t
        then some (upserted t (m.candles i symbol start))
        else m.candles i symbol start)
unfolding handle_trade
candle-handle_trade i symbol start t m e =
    let unseen : member t.event_id m.seen ≡ false = rw e refl in rw (unseen, if◌then◌else◌) (both i)
  where
    both :
        (i : Interval)
        → (upsert_candle five_minutes t (upsert_candle one_minute t (insert_trade t m))).candles i
            symbol start
          ≡ (if belongs i symbol start t
              then some (upserted t (m.candles i symbol start))
              else m.candles i symbol start)
    both one_minute =
        rw
          (
            candle-upsert one_minute symbol start five_minutes t
                (upsert_candle one_minute t (insert_trade t m)),
            candle-upsert one_minute symbol start one_minute t (insert_trade t m),
            candle-insert_trade one_minute symbol start t m,
          )
          refl
    both five_minutes =
        rw
          (
            candle-upsert five_minutes symbol start five_minutes t
                (upsert_candle one_minute t (insert_trade t m)),
            candle-upsert five_minutes symbol start one_minute t (insert_trade t m),
            candle-insert_trade five_minutes symbol start t m,
          )
          refl

seen-handle_trade : (t : Trade) (m : Market) → (handle_trade t m).seen ≡ m.seen
unfolding handle_trade upsert_candle
seen-handle_trade t m = ground (arith, seen-insert_trade t m)

-- What trades make of a candle that may be there.
added : Option Candle → List Trade → Option Candle
added none [] = none
added none (t ∷ ts) = some (extended (opening t) ts)
added (some c) ts = some (extended c ts)

trades-handle_trade :
    (t : Trade) (m : Market) → m.seen ≡ [] → (handle_trade t m).trades ≡ (insert_trade t m).trades
unfolding handle_trade upsert_candle
trades-handle_trade t m e =
    let unseen : member t.event_id m.seen ≡ false = rw e refl in rw (unseen, if◌then◌else◌) refl

-- The trades come with event ids that are not stored and not repeated.
abbrev pub AllNew : List Trade → List Trade → Type 0
AllNew [] stored = Unit
AllNew (t ∷ ts) stored = (has_trade t.event_id stored ≡ false) × AllNew ts (t ∷ stored)

-- The latest first.
unfoldable pub pushed : List Trade → List Trade → List Trade
pushed [] stored = stored
pushed (t ∷ ts) stored = pushed ts (t ∷ stored)

-- A trade's event that comes again.
again-insert_trade :
    (t : Trade) (m : Market) → has_trade t.event_id (insert_trade t m).trades ≡ true
again-insert_trade t m = ground arith

-- A trade event that is handled again right away leaves the stored trades as they are, and adds
-- the trade to its candles once more; the service has no event markers.
pub redelivered_volume :
    (i : Interval) (t : Trade) (m : Market)
    → m.seen ≡ []
    → let once = handle_trade t m in
      let twice = handle_trade t once in
      let start = floor_bucket t.executed_at (minutes i) in
      (twice.trades ≡ once.trades)
      × (twice.candles i t.symbol start ≡ some (upserted t (once.candles i t.symbol start)))
redelivered_volume i t m e =
    let once = handle_trade t m in
    let e' : once.seen ≡ [] = seen-handle_trade t m ∙ e in
    let kept : (handle_trade t m).trades ≡ (insert_trade t m).trades = trades-handle_trade t m e in
    let stays : (insert_trade t once).trades ≡ once.trades =
      ground (arith, again-insert_trade t m, kept) in
    let its_own : belongs i t.symbol (floor_bucket t.executed_at (minutes i)) t ≡ true =
      ground arith in
    let added_again =
      candle-handle_trade i t.symbol (floor_bucket t.executed_at (minutes i)) t once e' in
    (trades-handle_trade t once e' ∙ stays, added_again ∙ rw (its_own, if◌then◌else◌) refl)
