-- ===== src/Engine/Samples.antt =====
-- A small order book that the tests of the engine run on.
use mini_stock_exchange_plat.Base.{ℕ, pos, none, [], ◌∷◌, arith}
use mini_stock_exchange_plat.Engine.Book.{
  Side, buy, sell, OrderType, limit, BookOrder, OrderBook, set_index,
}
use mini_stock_exchange_plat.Engine.Invariant.{IsValid}

abbrev pub order : ℕ → ℕ → Side → OrderType → ℕ → BookOrder
order id user side type n = record {
  order_id = id;
  user_id = user;
  side = side;
  order_type = type;
  remaining = n;
  symbol = 0;
  seq = id;
}

abbrev pub ask_11 : BookOrder
ask_11 = order 11 2 sell (limit (pos 100)) 5

abbrev pub ask_12 : BookOrder
ask_12 = order 12 1 sell (limit (pos 100)) 3

abbrev pub ask_13 : BookOrder
ask_13 = order 13 3 sell (limit (pos 100)) 4

abbrev pub ask_14 : BookOrder
ask_14 = order 14 2 sell (limit (pos 101)) 10

abbrev pub bid_15 : BookOrder
bid_15 = order 15 4 buy (limit (pos 90)) 1

-- Two ask levels; user 1 has an order of his own at the better price.
abbrev pub small_book : OrderBook
small_book = record {
  symbol = 0;
  bids = (pos 90, bid_15 ∷ []) ∷ [];
  asks = (pos 101, ask_14 ∷ []) ∷ (pos 100, ask_11 ∷ ask_12 ∷ ask_13 ∷ []) ∷ [];
  index = set_index 11 ask_11 (
      set_index 12 ask_12
        (set_index 13 ask_13 (set_index 14 ask_14 (set_index 15 bid_15 (λ _. none)))));
  recent_trades = [];
}

abbrev pub wanted : BookOrder
wanted = order 20 1 buy (limit (pos 101)) 11

pub small_book-IsValid : IsValid small_book
small_book-IsValid = record {
  own_side = record { distinct = ground arith; resting = ground arith };
  opposite_side = record { distinct = ground arith; resting = ground arith };
  parted = ground arith;
}
