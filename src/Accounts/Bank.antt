-- ===== src/Accounts/Bank.antt =====
-- The tables of services/account-service/app/models.py, the helpers of repo.py, and the routes
-- deposit, reserve_funds and release_reservation of routes.py. An amount is a number of
-- ten-thousandths. No stored balance is negative, by the check constraints, and no amount of a
-- request is, by schemas.py, so they are naturals; where the source takes a maximum with zero,
-- subtraction stops at 0. A route that gets no lock answers 503 and changes nothing;
-- what a route does under the lock is one step.
use mini_stock_exchange_plat.Base.{
  ℕ, ◌+◌, ◌-◌, ℤ, pos, minus, Option, none, some, List, [], ◌∷◌, ◌++◌, ltb, ◌==◌, if◌then◌else◌,
}
use mini_stock_exchange_plat.Base.Dict.{Dict, lookup, insert}

pub record Account : Type 0 where
  pub cash_balance : ℕ
  pub held_balance : ℕ

pub data HoldStatus : Type 0 where
  held consumed released : HoldStatus

pub record Reservation : Type 0 where
  pub user_id : ℕ
  pub amount_held : ℕ
  pub amount_consumed : ℕ
  pub amount_released : ℕ
  pub status : HoldStatus

pub data TransactionType : Type 0 where
  deposited hold release trade_buy trade_sell : TransactionType

pub record Transaction : Type 0 where
  pub user_id : ℕ
  pub type : TransactionType
  pub amount : ℤ
  pub balance_after : ℕ
  pub reference_id : Option ℕ

pub record Bank : Type 0 where
  pub accounts : Dict Account
  pub reservations : Dict Reservation
  pub transactions : List Transaction

-- `max(ZERO, reservation.remaining)`
abbrev pub remaining : Reservation → ℕ
remaining r = r.amount_held - r.amount_consumed - r.amount_released

abbrev pub or_new : Option Account → Account
or_new none = record { cash_balance = 0; held_balance = 0 }
or_new (some account) = account

-- `get_or_create_account`; a new row is written with the changes that follow.
abbrev pub account_of : ℕ → Bank → Account
account_of user bank = or_new (lookup user bank.accounts)

abbrev pub save_account : ℕ → Account → Bank → Bank
save_account user account bank = record bank { accounts = insert user account bank.accounts }

abbrev pub save_reservation : ℕ → Reservation → Bank → Bank
save_reservation order r bank = record bank { reservations = insert order r bank.reservations }

abbrev pub record_tx : Transaction → Bank → Bank
record_tx t bank = record bank { transactions = bank.transactions ++ t ∷ [] }

-- What `release_remaining` leaves of the reservation and of the account; what it returns is
-- `remaining` of the reservation before.
abbrev pub released_reservation : Reservation → Reservation
released_reservation r =
    let released_amount = r.amount_released + remaining r in
    record r {
      amount_released = released_amount;
      status = if ltb 0 released_amount then released else consumed;
    }

abbrev pub released_account : Reservation → Account → Account
released_account r account = record account { held_balance = account.held_balance - remaining r }

unfoldable pub deposit : ℕ → ℕ → Bank → Bank
deposit user amount bank =
    let account = account_of user bank in
    let account' = record account { cash_balance = account.cash_balance + amount } in
    record_tx
      (record {
        user_id = user;
        type = deposited;
        amount = pos amount;
        balance_after = account'.cash_balance;
        reference_id = none;
      })
      (save_account user account' bank)

-- The answers of `reserve_funds`.
pub data Reserved : Type 0 where
  reserved : ℕ → ℕ → HoldStatus → Reserved
  insufficient : Reserved

unfoldable pub reserve_new : ℕ → ℕ → ℕ → Bank → Bank × Reserved
reserve_new order user amount bank =
    let account = account_of user bank in
    if ltb account.cash_balance (account.held_balance + amount) then (bank, insufficient) else (
      record_tx
          (record {
            user_id = user;
            type = hold;
            amount = minus amount;
            balance_after = account.cash_balance;
            reference_id = some order;
          })
          (save_reservation order
            (record {
              user_id = user;
              amount_held = amount;
              amount_consumed = 0;
              amount_released = 0;
              status = held;
            })
            (save_account user (record account { held_balance = account.held_balance + amount })
              bank)),
      reserved user amount held,
    )

unfoldable pub reserve_funds : ℕ → ℕ → ℕ → Bank → Bank × Reserved
unfolding reserve_new
reserve_funds order user amount bank = elim (lookup order bank.reservations) [
  | none ↦ reserve_new order user amount bank
  | some r ↦ (bank, reserved r.user_id r.amount_held r.status)
]

-- The rows of a release: the reservation, the account and, if anything is released, a transaction.
-- `owner` is whose account the caller takes, `r` the caller's copy of the reservation; only the
-- columns that the caller changes are written.
abbrev pub released_row : Reservation → Option Reservation → Reservation
released_row r none = released_reservation r
released_row r (some stored) = record stored {
  amount_released = (released_reservation r).amount_released;
  status = (released_reservation r).status;
}

unfoldable pub release_hold : ℕ → ℕ → Reservation → Bank → Bank
release_hold order owner r bank =
    let account = released_account r (account_of owner bank) in
    let row = released_row r (lookup order bank.reservations) in
    let bank' = save_reservation order row (save_account owner account bank) in
    if ltb 0 (remaining r)
    then record_tx
        (record {
          user_id = owner;
          type = release;
          amount = pos (remaining r);
          balance_after = account.cash_balance;
          reference_id = some order;
        })
        bank'
    else bank'

-- `release_reservation`: `none` is a 404, a number is what was released. The reservation is `found`
-- before the lock is taken, so that the row may have changed.
unfoldable pub release_reservation : ℕ → Option Reservation → Bank → Bank × Option ℕ
release_reservation order none bank = (bank, none)
release_reservation order (some r) bank =
    if remaining r == 0
    then (bank, some 0)
    else (release_hold order r.user_id r bank, some (remaining r))
