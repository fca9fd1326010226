-- ===== src/Market/Tests.antt =====
-- Trades in services/market-data-service/app/events.py, and witnesses.
use mini_stock_exchange_plat.Base.{ℕ, ◌≡◌, refl, none, some, List, [], ◌∷◌}
use mini_stock_exchange_plat.Market.{
  one_minute, five_minutes, minutes, floor_bucket, Trade, Market, upserted, upsert_candle,
  handle_trade, handle_trades,
}

abbrev empty : Market
empty = record {
  trades = [];
  candles = λ i symbol start. none;
  seen = [];
  last_price = λ symbol. none;
  ticks = [];
}

abbrev trade : ℕ → ℕ → ℕ → ℕ → Trade
trade event price quantity time = record {
  event_id = event;
  symbol = 5;
  price = price;
  quantity = quantity;
  executed_at = time;
}

abbrev trades : List Trade
trades = trade 1 300 10 7205 ∷ trade 2 280 5 7230 ∷ trade 3 310 2 7265 ∷ []

one_minute_candle :
    (handle_trades trades empty).candles one_minute 5 7200
    ≡ some (record {
      open_price = 300;
      high = 300;
      low = 280;
      close = 280;
      volume = 15;
      trade_count = 2;
    })
unfolding handle_trades handle_trade upsert_candle upserted floor_bucket
one_minute_candle = refl

bucket_of_7565 : floor_bucket 7565 (minutes five_minutes) ≡ 7500
unfolding floor_bucket
bucket_of_7565 = refl
