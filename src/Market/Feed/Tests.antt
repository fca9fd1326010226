-- ===== src/Market/Feed/Tests.antt =====
-- A client of the feed, and a witness.
use mini_stock_exchange_plat.Base.{◌≡◌, refl, none, some, List, [], ◌∷◌}
use mini_stock_exchange_plat.Base.Text.{text}
use mini_stock_exchange_plat.Symbols.{normalize_symbol}
use mini_stock_exchange_plat.Market.Feed.{
  ClientMessage, subscribe, unsubscribe, asked_symbols, receive, session,
}
use mini_stock_exchange_plat.Market.Feed.Subscribed.{AllKnown, session-asked_symbols}

abbrev messages : List ClientMessage
messages =
    subscribe (some (text " nvda") ∷ some (text "gold") ∷ none ∷ [])
    ∷ unsubscribe (some (text "aapl") ∷ [])
    ∷ []

session-asked_symbols_example : AllKnown (text "NVDA" ∷ [])
unfolding asked_symbols normalize_symbol session receive
session-asked_symbols_example =
    session-asked_symbols (text "aapl,") messages (text "AAPL" ∷ []) (text "NVDA" ∷ []) refl refl

-- What subscribes with space around it does not unsubscribe so.
padded :
    session (unsubscribe (some (text " nvda") ∷ []) ∷ []) (text "NVDA" ∷ [])
    ≡ some (text "NVDA" ∷ [])
unfolding session receive
padded = refl
