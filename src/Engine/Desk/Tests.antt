-- ===== src/Engine/Desk/Tests.antt =====
-- The engine's consumers on the small book, and their theorems there.
use mini_stock_exchange_plat.Base.{ℕ, ◌≡◌, refl, pos, some, [], ◌∷◌, length}
use mini_stock_exchange_plat.Base.Int.{◌-ℤ◌}
use mini_stock_exchange_plat.Money.{finite, decimal, int, to_money}
use mini_stock_exchange_plat.Engine.Book.{
  Side, buy, sell, cancel, empty_book, best_bid, best_ask, rest,
}
use mini_stock_exchange_plat.Engine.Match.{
  match, match_levels, drain, execute, make_trade, user_request,
}
use mini_stock_exchange_plat.Engine.Samples.{small_book, small_book-IsValid}
use mini_stock_exchange_plat.Engine.Desk.{
  Accepted, limit_word, order_cancelled, Engine, parse, accept, handle_order_accepted,
  CancelRequested, handle_cancel_requested,
}
use mini_stock_exchange_plat.Engine.Desk.Deliveries.{
  AllValid, Steps, done, step, order_accepted, cancel_requested, deliveries-AllValid, request,
}
use mini_stock_exchange_plat.Engine.Desk.Rebuild.{OpenRow, rebuild_rows, rebuild_book}

abbrev engine : Engine
engine = record { books = λ _. small_book; seen_orders = []; seq = 20; outbox = [] }

-- User 1 buys 11 shares at 0.0101 or less.
abbrev wanted : Accepted
wanted = record {
  order_id = some 20;
  user_id = some 1;
  symbol = some 0;
  side = some buy;
  order_type = some limit_word;
  price = decimal (finite (pos 101) 4);
  quantity = int (pos 11);
}

published : length (handle_order_accepted wanted engine).0.outbox ≡ 3
unfolding handle_order_accepted parse to_money accept match match_levels drain execute make_trade
published = refl

abbrev first : Engine
first = (handle_order_accepted wanted engine).0

abbrev asked : CancelRequested
asked = request 13 3 0

abbrev cancelled_once : Engine
cancelled_once = (handle_cancel_requested asked engine).0

reports_cancelled :
    cancelled_once.outbox
    ≡ order_cancelled (record {
      order_id = 13;
      user_id = 3;
      symbol = 0;
      side = sell;
      cancelled_quantity = 4;
      reason = user_request;
    })
      ∷ []
unfolding handle_cancel_requested cancel
reports_cancelled = refl

-- User 1's order is matched between the requests, and another one is cancelled.
abbrev later : Engine
later = (handle_cancel_requested (request 12 1 0) (handle_order_accepted wanted cancelled_once).0).0

abbrev other_deliveries : Steps cancelled_once later
other_deliveries = step (order_accepted wanted cancelled_once) (
    step (cancel_requested (request 12 1 0) (handle_order_accepted wanted cancelled_once).0)
      (done later))

deliveries-AllValid_example : AllValid (handle_cancel_requested asked first).0
deliveries-AllValid_example =
    deliveries-AllValid engine (handle_cancel_requested asked first).0
      (step (order_accepted wanted engine) (step (cancel_requested asked first) (done _)))
      (λ _. small_book-IsValid)

abbrev row : ℕ → Side → OpenRow
row id side = record {
  row = record {
    order_id = some id;
    user_id = some id;
    symbol = some 0;
    side = some side;
    order_type = some limit_word;
    price = decimal (finite (pos 100) 4);
    quantity = int (pos 1);
  };
  quantity = some (pos 1);
  filled_quantity = some (pos 0);
}

-- `rebuild_book` rests two users' orders that cross, since it does not match.
abbrev rebuilt : Engine
rebuilt =
    (rebuild_book (some (row 1 buy ∷ row 2 sell ∷ []))
      (record { books = empty_book; seen_orders = []; seq = 0; outbox = [] })).0

rebuilt_crossed :
    (best_bid (rebuilt.books 0) ≡ some (pos 100)) × (best_ask (rebuilt.books 0) ≡ some (pos 100))
unfolding rebuild_book rebuild_rows parse to_money rest best_bid best_ask empty_book ◌-ℤ◌
rebuilt_crossed = (refl, refl)
