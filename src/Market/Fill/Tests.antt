-- ===== src/Market/Fill/Tests.antt =====
-- A chart with a gap, of services/market-data-service/app/main.py, and witnesses.
use mini_stock_exchange_plat.Base.{ℕ, ◌≡◌, refl, List, [], ◌∷◌, arith}
use mini_stock_exchange_plat.Market.{one_minute}
use mini_stock_exchange_plat.Market.Fill.{
  Row, flat, step_of, fill, fill_from, fill_gap, market_candles,
}
use mini_stock_exchange_plat.Market.Fill.Contiguous.{
  IsContiguous, steps_after, market_candles-IsContiguous,
}

abbrev row : ℕ → ℕ → Row
row start price = record {
  bucket_start = start;
  candle = record {
    open_price = price;
    high = price;
    low = price;
    close = price;
    volume = 4;
    trade_count = 1;
  };
}

abbrev rows : List Row
rows = row 600 50 ∷ row 780 70 ∷ []

gap_filled :
    fill 60 rows
    ≡ record (flat 600 50) { volume = 4 }
      ∷ flat 660 50
      ∷ flat 720 50
      ∷ record (flat 780 70) { volume = 4 }
      ∷ []
unfolding fill fill_from fill_gap
gap_filled = refl

market_candles-IsContiguous_example :
    IsContiguous (step_of one_minute) (market_candles one_minute 3 rows)
unfolding steps_after
market_candles-IsContiguous_example =
    market_candles-IsContiguous one_minute 3 rows ((2, refl, omega arith), tt)
