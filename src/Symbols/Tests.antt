-- ===== src/Symbols/Tests.antt =====
-- Runs of libs/common/symbols.py.
use mini_stock_exchange_plat.Base.{◌≡◌, refl, false, some}
use mini_stock_exchange_plat.Base.Text.{text}
use mini_stock_exchange_plat.Symbols.{is_valid_symbol, normalize_symbol}

-- The two disagree on a text with space around it.
padded :
    (normalize_symbol (some (text " aapl")) ≡ some (text "AAPL"))
    × (is_valid_symbol (some (text " aapl")) ≡ false)
unfolding normalize_symbol is_valid_symbol
padded = (refl, refl)
