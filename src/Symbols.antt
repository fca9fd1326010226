-- ===== src/Symbols.antt =====
-- The symbols that are traded: libs/common/symbols.py.
mod Tests
pub mod Known
use mini_stock_exchange_plat.Base.{
  Bool, false, Option, none, some, List, [], ◌∷◌, map, if◌then◌else◌,
}
use mini_stock_exchange_plat.Base.Text.{Text, text, eq_text, one_of, strip, upper}

-- The keys of `SYMBOLS`, with the names, and `SEED_PRICES`.
abbrev pub symbols : List (Text × Text)
symbols =
    (text "AAPL", text "Apple Inc.")
    ∷ (text "GOOGL", text "Alphabet Inc.")
    ∷ (text "MSFT", text "Microsoft Corporation")
    ∷ (text "AMZN", text "Amazon.com Inc.")
    ∷ (text "TSLA", text "Tesla Inc.")
    ∷ (text "NVDA", text "NVIDIA Corporation")
    ∷ (text "META", text "Meta Platforms Inc.")
    ∷ (text "NFLX", text "Netflix Inc.")
    ∷ []

abbrev pub seed_prices : List (Text × Text)
seed_prices =
    (text "AAPL", text "195.50")
    ∷ (text "GOOGL", text "175.20")
    ∷ (text "MSFT", text "425.80")
    ∷ (text "AMZN", text "185.40")
    ∷ (text "TSLA", text "245.60")
    ∷ (text "NVDA", text "128.30")
    ∷ (text "META", text "512.10")
    ∷ (text "NFLX", text "685.90")
    ∷ []

abbrev pub keys : List (Text × Text) → List Text
keys [] = []
keys ((key, row) ∷ table) = key ∷ keys table

abbrev pub get : Text → List (Text × Text) → Option Text
get key [] = none
get key ((other, row) ∷ table) = if eq_text key other then some row else get key table

abbrev pub is_symbol : Text → Bool
is_symbol s = one_of s (keys symbols)

-- A value that is no text is `none`.
unfoldable pub is_valid_symbol : Option Text → Bool
is_valid_symbol none = false
is_valid_symbol (some symbol) = is_symbol (upper symbol)

-- `none` is the ValueError.
unfoldable pub normalize_symbol : Option Text → Option Text
normalize_symbol none = none
normalize_symbol (some symbol) =
    if is_symbol (upper (strip symbol)) then some (upper (strip symbol)) else none
