-- ===== src/Portfolio/Tests.antt =====
-- A sale and its end in services/portfolio-service/app, and witnesses.
use mini_stock_exchange_plat.Base.{
  ℕ, ◌≡◌, refl, pos, Option, none, some, List, [], ◌∷◌, arith, ◌==◌, if◌then◌else◌,
}
use mini_stock_exchange_plat.Base.Int.{◌+ℤ◌, ◌*ℤ◌}
use mini_stock_exchange_plat.Base.Dict.{Dict}
use mini_stock_exchange_plat.Portfolio.{
  Holding, ShareReservation, held, released, Portfolio, Trade, Op, trade_executed, order_ended,
  reserves, releases, apply, handle_trade_executed, handle_order_cancelled_or_rejected,
  reserve_shares, reserve_found, reserve_from, release_shares, release_by, release_from,
  get_or_create_holding, save_holding, save_reservation, process, process_buy, process_sell,
  use_reservation, commit, release_held, release_as,
}
use mini_stock_exchange_plat.Portfolio.Shares.{run, total_shares, total_shares-run}
use mini_stock_exchange_plat.Portfolio.Bounds.{IsSound, AllCurrent, run-IsSound}
use mini_stock_exchange_plat.Portfolio.Reserved.{AllKept}
use mini_stock_exchange_plat.Portfolio.Kept.{AllFit, run-AllKept}
use mini_stock_exchange_plat.Portfolio.Valuation.{
  get_portfolio, value_from, add_position, position_of, mark_of,
}

-- User 1 has twenty shares of symbol 5.
abbrev start : Portfolio
start = record {
  holdings =
      (
        5,
        (1, record { quantity = 20; reserved_quantity = 0; avg_cost = 300; realized_pnl = pos 0 })
            ∷ [],
      )
      ∷ [];
  reservations = [];
  history = [];
  processed = [];
  seen = [];
}

abbrev sale : Trade
sale = record {
  trade_id = 40;
  symbol = 5;
  quantity = 4;
  price = 500;
  buyer = 2;
  seller = 1;
  sell_order = 7;
  sell_remaining = 6;
}

abbrev ended : ShareReservation
ended = record {
  user_id = 1;
  symbol = 5;
  quantity = 10;
  consumed = 4;
  released_quantity = 6;
  status = released;
}

abbrev ops : List Op
ops = reserves 7 1 5 10 ∷ trade_executed 90 sale ∷ order_ended 91 7 ∷ releases 7 (some ended) ∷ []

ends_as :
    (get_or_create_holding 1 5 (run ops start)
      ≡ record { quantity = 16; reserved_quantity = 0; avg_cost = 300; realized_pnl = pos 800 })
    × (get_or_create_holding 2 5 (run ops start)
        ≡ record { quantity = 4; reserved_quantity = 0; avg_cost = 500; realized_pnl = pos 0 })
unfolding run get_or_create_holding apply release_shares handle_order_cancelled_or_rejected
    handle_trade_executed reserve_shares reserve_found reserve_from save_reservation save_holding
    commit process process_sell process_buy use_reservation release_held ◌*ℤ◌ ◌+ℤ◌ release_as
    release_by release_from
ends_as = (refl, refl)

total_shares-run_example : total_shares 5 (run ops start) ≡ total_shares 5 start
total_shares-run_example = total_shares-run 5 ops start

start-IsSound : IsSound start
unfolding get_or_create_holding
start-IsSound = record { covered = λ u s. ground arith; parted = λ o. tt }

ops-AllCurrent : AllCurrent ops start
unfolding get_or_create_holding apply release_shares handle_order_cancelled_or_rejected
    handle_trade_executed reserve_shares reserve_found reserve_from save_reservation save_holding
    commit process process_sell process_buy use_reservation release_held ◌*ℤ◌ ◌+ℤ◌ release_as
    release_by release_from
ops-AllCurrent = (tt, (tt, (tt, (refl, tt))))

run-IsSound_example : IsSound (run ops start)
run-IsSound_example = run-IsSound ops start ops-AllCurrent start-IsSound

start-AllKept : AllKept start
unfolding get_or_create_holding
start-AllKept u s = ground arith

ops-AllFit : AllFit ops start
unfolding get_or_create_holding apply release_shares handle_order_cancelled_or_rejected
    handle_trade_executed reserve_shares reserve_found reserve_from save_reservation save_holding
    commit process process_sell process_buy use_reservation release_held ◌*ℤ◌ ◌+ℤ◌ release_as
    release_by release_from
ops-AllFit = (
  tt,
  (
    (λ _. record {
      reservation = record {
        user_id = 1;
        symbol = 5;
        quantity = 10;
        consumed = 0;
        released_quantity = 0;
        status = held;
      };
      found = refl;
      of_seller = refl;
      of_symbol = refl;
      enough = omega arith;
      whole = λ e. absurd (omega arith);
    }),
    (tt, (refl, tt)),
  ),
)

run-AllKept_example : AllKept (run ops start)
run-AllKept_example = run-AllKept ops start ops-AllFit start-IsSound start-AllKept

abbrev holdings : Dict Holding
holdings =
    (5, record { quantity = 16; reserved_quantity = 0; avg_cost = 300; realized_pnl = pos 800 })
    ∷ (6, record { quantity = 2; reserved_quantity = 0; avg_cost = 100; realized_pnl = pos 0 })
    ∷ []

abbrev last_prices : ℕ → Option ℕ
last_prices symbol = if symbol == 5 then some 250 else none

totals_run : (get_portfolio last_prices holdings).1.total_market_value ≡ 4200
unfolding get_portfolio value_from add_position position_of mark_of
totals_run = refl
