-- ===== src/Market/Fill.antt =====
-- The candles of a chart: `get_market_candles` of services/market-data-service/app/main.py. The
-- query's rows come as the database gives them, sorted: for one symbol and interval the start of a
-- row is unique. Times are seconds.
pub mod Ascending
pub mod Contiguous
mod Tests
use mini_stock_exchange_plat.Base.{
  ℕ, zero, suc, min, ◌+◌, ◌-◌, ◌*◌, ◌≡◌, Bool, true, false, Option, none, some, List, [], ◌∷◌, ◌++◌,
  ltb, ◌==◌, if◌then◌else◌, length,
}
use mini_stock_exchange_plat.Events.Once.{member}
use mini_stock_exchange_plat.Market.{Interval, minutes, Candle}

pub record Row : Type 0 where
  pub bucket_start : ℕ
  pub candle : Candle

pub record Point : Type 0 where
  pub time : ℕ
  pub opening_price : ℕ
  pub high : ℕ
  pub low : ℕ
  pub close : ℕ
  pub volume : ℕ

abbrev pub max_fill_per_gap : ℕ
max_fill_per_gap = 1000

abbrev pub max_limit : ℕ
max_limit = 1000

abbrev pub step_of : Interval → ℕ
step_of i = minutes i * 60

abbrev pub flat : ℕ → ℕ → Point
flat time price = record {
  time = time;
  opening_price = price;
  high = price;
  low = price;
  close = price;
  volume = 0;
}

abbrev pub point_of : Row → Point
point_of r = record {
  time = r.bucket_start;
  opening_price = r.candle.open_price;
  high = r.candle.high;
  low = r.candle.low;
  close = r.candle.close;
  volume = r.candle.volume;
}

-- The inner loop, which may produce so many points more.
unfoldable pub fill_gap : ℕ → ℕ → ℕ → ℕ → ℕ → List Point
fill_gap zero step last_ts curr_ts prev_close = []
fill_gap (suc left) step last_ts curr_ts prev_close =
    let rest = fill_gap left step (last_ts + step) curr_ts prev_close in
    if ltb (last_ts + step) curr_ts then flat (last_ts + step) prev_close ∷ rest else []

-- The loop over the rows after the first. The last point of `filled` is that of the row before, so
-- its time and close are the loop's state.
unfoldable pub fill_from : ℕ → ℕ → ℕ → List Row → List Point
fill_from step last_ts prev_close [] = []
fill_from step last_ts prev_close (r ∷ rows) =
    fill_gap max_fill_per_gap step last_ts r.bucket_start prev_close
    ++ point_of r ∷ fill_from step r.bucket_start r.candle.close rows

unfoldable pub fill : ℕ → List Row → List Point
fill step [] = []
fill step (r ∷ rows) = point_of r ∷ fill_from step r.bucket_start r.candle.close rows

abbrev pub drop_points : ℕ → List Point → List Point
drop_points zero points = points
drop_points (suc n) [] = []
drop_points (suc n) (p ∷ points) = drop_points n points

-- `filled[-limit:]`, which is all of it where the limit is 0.
unfoldable pub last_points : ℕ → List Point → List Point
last_points limit points = if limit == 0 then points else drop_points (length points - limit) points

unfoldable pub deduplicate : List ℕ → List Point → List Point
deduplicate seen [] = []
deduplicate seen (p ∷ points) =
    let again = deduplicate seen points in
    let rest = deduplicate (p.time ∷ seen) points in if member p.time seen then again else p ∷ rest

-- From the rows, which the query has limited.
unfoldable pub market_candles : Interval → ℕ → List Row → List Point
market_candles i limit rows =
    deduplicate [] (last_points (min limit max_limit) (fill (step_of i) rows))
