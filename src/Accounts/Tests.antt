-- ===== src/Accounts/Tests.antt =====
-- The Account Service on a small bank, and its theorems there.
use mini_stock_exchange_plat.Base.{◌≡◌, refl, Option, none, some, [], ◌∷◌, arith}
use mini_stock_exchange_plat.Base.Dict.{lookup}
use mini_stock_exchange_plat.Accounts.Bank.{
  Reservation, held, Bank, deposit, reserve_funds, release_reservation, insufficient,
}
use mini_stock_exchange_plat.Accounts.Settle.{
  Trade, settle, settle_buyer, settle_held, reservation_of,
}
use mini_stock_exchange_plat.Accounts.Cash.{total_cash, settle-total_cash}
use mini_stock_exchange_plat.Accounts.Backing.{AllBacked}
use mini_stock_exchange_plat.Accounts.Ledger.{AllExplained, Steps-AllExplained}
use mini_stock_exchange_plat.Accounts.Ledger
use mini_stock_exchange_plat.Accounts.Holds.{
  HasReservation, done, step, deposits, reserves, releases, settles, Steps-AllBacked,
}

abbrev empty : Bank
empty = record { accounts = []; reservations = []; transactions = [] }

empty-AllBacked : AllBacked empty
empty-AllBacked user = record { backed = refl; solvent = omega arith }

-- User 1 pays in 1000 and has 600 held for order 9.
abbrev paid_in : Bank
paid_in = deposit 1 1000 empty

abbrev holding : Bank
holding = (reserve_funds 9 1 600 paid_in).0

poor : (reserve_funds 8 1 500 holding).1 ≡ insufficient
unfolding deposit reserve_funds
poor = refl

-- Five shares at 100, within a limit of 120.
abbrev bought : Trade
bought = record {
  trade_id = some 3;
  buyer = 1;
  seller = 2;
  buy_order_id = some 9;
  price = some 100;
  quantity = 5;
  buy_order_limit_price = some 120;
  buy_order_remaining = 0;
}

abbrev after_trade : Bank
after_trade = record {
  accounts =
      (1, record { cash_balance = 500; held_balance = 0 })
      ∷ (2, record { cash_balance = 500; held_balance = 0 })
      ∷ [];
  reservations = holding.reservations;
  transactions = [];
}

abbrev settled_bank : Option Bank → Bank
settled_bank none = empty
settled_bank (some bank) = bank

abbrev traded : Bank
traded = settled_bank (settle bought holding)

traded_accounts : traded.accounts ≡ after_trade.accounts
unfolding deposit reserve_funds settle settle_buyer settle_held reservation_of
traded_accounts = refl

settles_bought : settle bought holding ≡ some traded
unfolding deposit reserve_funds settle settle_buyer settle_held reservation_of
settles_bought = refl

settle-total_cash_example : total_cash traded ≡ total_cash holding
settle-total_cash_example = settle-total_cash bought holding traded settles_bought

holding_order : HasReservation bought holding
unfolding deposit reserve_funds
holding_order = (9, _, refl, refl, refl)

Steps-AllBacked_example : AllBacked (release_reservation 9 (lookup 9 traded.reservations) traded).0
Steps-AllBacked_example =
    Steps-AllBacked empty (release_reservation 9 (lookup 9 traded.reservations) traded).0
      (step (deposits 1 1000 empty) (
        step (reserves 9 1 600 paid_in) (
          step (settles bought holding traded holding_order settles_bought)
            (step (releases 9 _ traded refl) (done _)))))
      empty-AllBacked

abbrev hold_9 : Reservation
hold_9 = record {
  user_id = 1;
  amount_held = 600;
  amount_consumed = 0;
  amount_released = 0;
  status = held;
}

holds_9 : lookup 9 holding.reservations ≡ some hold_9
unfolding deposit reserve_funds
holds_9 = refl

empty-AllExplained : AllExplained empty
empty-AllExplained user = refl

Steps-AllExplained_example :
    AllExplained (release_reservation 9 (lookup 9 traded.reservations) traded).0
Steps-AllExplained_example =
    Steps-AllExplained
      (Ledger.step (Ledger.deposits 1 1000 empty) (
        Ledger.step (Ledger.reserves 9 1 600 paid_in) (
          Ledger.step (Ledger.settles bought holding traded settles_bought)
            (Ledger.step (Ledger.releases 9 _ traded) (Ledger.done _)))))
      empty-AllExplained
