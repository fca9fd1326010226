-- ===== src/Orders/Place/Tests.antt =====
-- Placing and cancelling one order, and the theorems there.
use mini_stock_exchange_plat.Base.{◌≡◌, refl, pos, true, false, none, some, [], arith}
use mini_stock_exchange_plat.Base.Dict.{lookup}
use mini_stock_exchange_plat.Money.{
  finite, decimal, int, to_money, validate_price, validate_quantity, notional,
}
use mini_stock_exchange_plat.Engine.Book.{buy}
use mini_stock_exchange_plat.Engine.Desk.{limit_word}
use mini_stock_exchange_plat.Orders.Status.{Order, transition, new, rejected}
use mini_stock_exchange_plat.Orders.Place.{
  PlaceOrderIn, Outside, Call, held, failed, World, validate, reserve,
}
use mini_stock_exchange_plat.Orders.Place.Saga.{
  place_order, after_reserve, advance, announce, reject,
}
use mini_stock_exchange_plat.Orders.Place.Outcome.{status_at, Fits, place_order-Fits}
use mini_stock_exchange_plat.Orders.Cancel.{cancel_order, cancel_order-Fits}
use mini_stock_exchange_plat.Orders.Cancel

-- 10 shares at 10.25 or less.
abbrev body : PlaceOrderIn
body = record {
  symbol = some 0;
  side = some buy;
  order_type = some limit_word;
  quantity = int (pos 10);
  price = some (record { scientific = false; value = decimal (finite (pos 1025) 2) });
  client_order_id = none;
}

abbrev outside : Call → Outside
outside answer = record {
  reference_price = λ _. none;
  account = λ _ _ _. answer;
  portfolio = λ _ _ _ _. answer;
  release_works = true;
  raced = none;
  advance_committed = true;
  reject_committed = true;
  accepted_sent = true;
  rejected_sent = true;
}

abbrev nothing : World
nothing = record { db = record { orders = []; order_events = [] }; holds = []; outbox = [] }

abbrev placed : World
placed = (place_order (outside held) 5 7 body nothing).0

placed_new : status_at 5 placed ≡ some new
unfolding place_order validate validate_price validate_quantity to_money notional reserve
    after_reserve advance announce transition
placed_new = refl

-- The hold has landed, but the answer was lost.
abbrev unwound : World
unwound = (place_order (outside (failed true)) 5 7 body nothing).0

unwound_rejected : status_at 5 unwound ≡ some rejected
unfolding place_order validate validate_price validate_quantity to_money notional reserve
    after_reserve reject transition
unwound_rejected = refl

place_order-Fits_example :
    let r = place_order (outside (failed true)) 5 7 body nothing in Fits 5 nothing r.0 r.1
place_order-Fits_example =
    place_order-Fits (outside (failed true)) 5 7 body nothing ((λ _ _ _. tt), (λ _ _ _ _. tt)) refl
      refl refl

placed_keyed : (o : Order) → lookup 5 placed.db.orders ≡ some o → o.id ≡ 5
unfolding place_order validate validate_price validate_quantity to_money notional reserve
    after_reserve advance announce transition
placed_keyed o h = ground (arith, h)

cancel_order-Fits_example : let r = cancel_order false 5 7 placed in Cancel.Fits 5 placed r.0 r.1
cancel_order-Fits_example = cancel_order-Fits false 5 7 placed placed_keyed
