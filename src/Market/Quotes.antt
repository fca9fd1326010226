-- ===== src/Market/Quotes.antt =====
-- Prices on the board: warmup_cache, _daily_stats and the routes for symbols, quotes and trades of
-- services/market-data-service/app/main.py. A symbol is named by its place in SYMBOLS. A change in
-- percent, which is a float, is left out.
pub mod Newest
use mini_stock_exchange_plat.Base.{
  ℕ, ℤ, pos, zero, suc, ◌+◌, ◌-◌, Bool, true, false, ◌&&◌, Option, none, some, List, [], ◌∷◌, ◌==◌,
  ltb, leb, if◌then◌else◌, take,
}
use mini_stock_exchange_plat.Base.Int.{◌-ℤ◌}
use mini_stock_exchange_plat.Market.{Trade, Market}

-- What a query on the replica gives: rows, an OperationalError, or any other exception.
pub data Read (A : Type 0) : Type 0 where
  rows : A → Read A
  operational_error other_error : Read A

-- `SEED_PRICES`, in ten-thousandths.
abbrev pub seed_prices : List ℕ
seed_prices =
    1_955_000 ∷ 1_752_000 ∷ 4_258_000 ∷ 1_854_000 ∷ 2_456_000 ∷ 1_283_000 ∷ 5_121_000 ∷ 6_859_000
    ∷ []

abbrev pub nth_or : ℕ → List ℕ → ℕ → ℕ
nth_or default [] i = default
nth_or default (x ∷ xs) zero = x
nth_or default (x ∷ xs) (suc i) = nth_or default xs i

abbrev pub seed_price : ℕ → ℕ
seed_price symbol = nth_or 0 seed_prices symbol

abbrev pub symbols : List ℕ
symbols = 0 ∷ 1 ∷ 2 ∷ 3 ∷ 4 ∷ 5 ∷ 6 ∷ 7 ∷ []

-- `where(Trade.symbol == sym).order_by(desc(Trade.executed_at))`
abbrev pub insert_newest : Trade → List Trade → List Trade
insert_newest t [] = t ∷ []
insert_newest t (u ∷ ts) =
    if leb u.executed_at t.executed_at then t ∷ u ∷ ts else u ∷ insert_newest t ts

unfoldable pub newest_first : ℕ → List Trade → List Trade
newest_first symbol [] = []
newest_first symbol (t ∷ ts) =
    let rest = newest_first symbol ts in if t.symbol == symbol then insert_newest t rest else rest

abbrev pub first : List Trade → Option Trade
first [] = none
first (t ∷ ts) = some t

-- The price of the newest trade, if the query gives one.
abbrev pub newest_price : ℕ → Read (List Trade) → Option ℕ
newest_price symbol (rows ts) = elim (first (newest_first symbol ts)) [
  | none ↦ none
  | some t ↦ some t.price
]
newest_price symbol operational_error = none
newest_price symbol other_error = none

abbrev pub or_seed : ℕ → Option ℕ → ℕ
or_seed symbol none = seed_price symbol
or_seed symbol (some price) = price

-- `warmup_cache` for one symbol, on the keys `md:last_price:`.
unfoldable pub warm : (ℕ → Read (List Trade)) → ℕ → (ℕ → Option ℕ) → ℕ → Option ℕ
warm replica symbol last_price asked = elim (last_price symbol) [
  | some price ↦ last_price asked
  | none ↦
      if asked == symbol
      then some (or_seed symbol (newest_price symbol (replica symbol)))
      else last_price asked
]

unfoldable pub warm_each : (ℕ → Read (List Trade)) → List ℕ → (ℕ → Option ℕ) → ℕ → Option ℕ
warm_each replica [] last_price = last_price
warm_each replica (symbol ∷ rest) last_price =
    warm_each replica rest (warm replica symbol last_price)

unfoldable pub warmup_cache : (ℕ → Read (List Trade)) → (ℕ → Option ℕ) → ℕ → Option ℕ
warmup_cache replica last_price = warm_each replica symbols last_price

pub record Quote : Type 0 where
  pub price : ℕ
  pub quantity : ℕ
  pub ts : ℕ
  pub stale : Bool

abbrev pub quote_of : Trade → Quote
quote_of t = record { price = t.price; quantity = t.quantity; ts = t.executed_at; stale = false }

abbrev pub stale_quote : ℕ → ℕ → Quote
stale_quote now symbol = record { price = seed_price symbol; quantity = 0; ts = now; stale = true }

-- Any exception of the query is passed over.
unfoldable pub get_market_quote : ℕ → Option Quote → Read (List Trade) → ℕ → Quote
get_market_quote now (some cached) replica symbol = cached
get_market_quote now none (rows ts) symbol = elim (first (newest_first symbol ts)) [
  | some t ↦ quote_of t
  | none ↦ stale_quote now symbol
]
get_market_quote now none operational_error symbol = stale_quote now symbol
get_market_quote now none other_error symbol = stale_quote now symbol

-- The primary is asked where the replica has an OperationalError; `none` is an exception.
unfoldable pub get_market_trades :
    Read (List Trade) → Read (List Trade) → ℕ → ℕ → Option (List Trade)
get_market_trades (rows ts) primary symbol limit = some (take limit (newest_first symbol ts))
get_market_trades operational_error (rows ts) symbol limit =
    some (take limit (newest_first symbol ts))
get_market_trades operational_error operational_error symbol limit = none
get_market_trades operational_error other_error symbol limit = none
get_market_trades other_error primary symbol limit = none

-- A row of the candles with interval 1m.
pub record MinuteCandle : Type 0 where
  pub symbol : ℕ
  pub bucket_start : ℕ
  pub open_price : ℕ
  pub volume : ℕ

abbrev pub in_day : ℕ → ℕ → MinuteCandle → Bool
in_day now symbol c = c.symbol == symbol && leb now (c.bucket_start + 86400)

abbrev pub earlier : MinuteCandle → Option MinuteCandle → MinuteCandle
earlier c none = c
earlier c (some d) = if leb c.bucket_start d.bucket_start then c else d

unfoldable pub day_open : ℕ → ℕ → List MinuteCandle → Option MinuteCandle
day_open now symbol [] = none
day_open now symbol (c ∷ cs) =
    let rest = day_open now symbol cs in if in_day now symbol c then some (earlier c rest) else rest

unfoldable pub day_volume : ℕ → ℕ → List MinuteCandle → ℕ
day_volume now symbol [] = 0
day_volume now symbol (c ∷ cs) =
    (if in_day now symbol c then c.volume else 0) + day_volume now symbol cs

pub record Board : Type 0 where
  pub symbol : ℕ
  pub last_price : ℕ
  pub change : ℤ
  pub volume_24h : ℕ

abbrev pub change_of : ℕ → Option MinuteCandle → ℤ
change_of last none = pos 0
change_of last (some c) = if ltb 0 c.open_price then pos last -ℤ pos c.open_price else pos 0

-- `_daily_stats`, from the replica or else the primary; with another error, no history.
abbrev pub daily_candles : Read (List MinuteCandle) → Read (List MinuteCandle) → List MinuteCandle
daily_candles (rows cs) primary = cs
daily_candles operational_error (rows cs) = cs
daily_candles operational_error operational_error = []
daily_candles operational_error other_error = []
daily_candles other_error primary = []

abbrev pub board_row : ℕ → (ℕ → Option ℕ) → List MinuteCandle → ℕ → Board
board_row now last_price candles symbol =
    let last = or_seed symbol (last_price symbol) in
    record {
      symbol = symbol;
      last_price = last;
      change = change_of last (day_open now symbol candles);
      volume_24h = day_volume now symbol candles;
    }

abbrev pub board_rows : ℕ → (ℕ → Option ℕ) → List MinuteCandle → List ℕ → List Board
board_rows now last_price candles [] = []
board_rows now last_price candles (symbol ∷ rest) =
    board_row now last_price candles symbol ∷ board_rows now last_price candles rest

unfoldable pub get_market_symbols :
    ℕ → (ℕ → Option ℕ) → Read (List MinuteCandle) → Read (List MinuteCandle) → List Board
get_market_symbols now last_price replica primary =
    board_rows now last_price (daily_candles replica primary) symbols
