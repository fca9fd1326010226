-- ===== src/Accounts/Views.antt =====
-- What a user sees of the account: the routes for the balance and the transactions of
-- services/account-service/app/routes.py. The time of a transaction is a parameter; an account that
-- is made for a look is not kept by get_balance, and kept by internal_get_account.
use mini_stock_exchange_plat.Base.{
  ℕ, ◌+◌, ◌-◌, ◌≡◌, subst, Bool, true, ◌&&◌, Option, none, some, List, min, ◌==◌, leb,
  if◌then◌else◌, arith, All, length, inl, inr, Bool-cases, some_injective,
}
use mini_stock_exchange_plat.Base.Maybe.{none_not_some}
use mini_stock_exchange_plat.Base.Pages.{page, chosen, IsNewestFirst, page-IsNewestFirst}
use mini_stock_exchange_plat.Base.Text.{Text, text, eq_text, is_empty, upper}
use mini_stock_exchange_plat.Accounts.Bank.{
  Account, TransactionType, deposited, hold, release, trade_buy, trade_sell, Transaction, Bank,
  account_of, save_account,
}
use mini_stock_exchange_plat.Accounts.Backing.{held_for, AllBacked}

abbrev pub max_tx_limit : ℕ
max_tx_limit = 200

pub record Balance : Type 0 where
  pub user_id : ℕ
  pub cash_balance : ℕ
  pub held_balance : ℕ
  pub available_balance : ℕ

abbrev pub balance_out : ℕ → Account → Balance
balance_out user account = record {
  user_id = user;
  cash_balance = account.cash_balance;
  held_balance = account.held_balance;
  available_balance = account.cash_balance - account.held_balance;
}

unfoldable pub get_balance : ℕ → Bank → Balance
get_balance user bank = balance_out user (account_of user bank)

unfoldable pub internal_get_account : ℕ → Bank → Balance × Bank
internal_get_account user bank =
    let account = account_of user bank in (balance_out user account, save_account user account bank)

abbrev pub word_of : TransactionType → Text
word_of deposited = text "DEPOSIT"
word_of hold = text "HOLD"
word_of release = text "RELEASE"
word_of trade_buy = text "TRADE_BUY"
word_of trade_sell = text "TRADE_SELL"

-- No filter, also where the text is empty, or a type in any case.
abbrev pub is_wanted : Option Text → TransactionType → Bool
is_wanted none type = true
is_wanted (some filter) type =
    if is_empty filter then true else eq_text (word_of type) (upper filter)

abbrev pub is_listed : Option Text → ℕ → Transaction → Bool
is_listed filter user t = t.user_id == user && is_wanted filter t.type

-- `none` is the answer 422 to a limit out of range.
unfoldable pub list_transactions :
    (Transaction → ℕ) → Option Text → ℕ → ℕ → ℕ → Bank → Option (List Transaction)
list_transactions created_at filter limit offset user bank =
    if leb 1 limit && leb limit max_tx_limit
    then some (page created_at (is_listed filter user) limit offset bank.transactions)
    else none

-- What is shown as available is the cash that no reservation of the user holds.
pub get_balance-available :
    (user : ℕ) (bank : Bank)
    → AllBacked bank
    → (get_balance user bank).available_balance + held_for user bank
      ≡ (get_balance user bank).cash_balance
unfolding get_balance
get_balance-available user bank all = let b = all user in omega (arith, b.backed, b.solvent)

pub list_transactions-IsNewestFirst :
    (created_at : Transaction → ℕ) (filter : Option Text) (limit offset user : ℕ) (bank : Bank)
    (shown : List Transaction)
    → list_transactions created_at filter limit offset user bank ≡ some shown
    → IsNewestFirst created_at shown
      × All (λ t. is_listed filter user t ≡ true) shown
      × (length shown
          ≡ min limit (length (chosen (is_listed filter user) bank.transactions) - offset))
unfolding list_transactions
list_transactions-IsNewestFirst created_at filter limit offset user bank shown h =
    let test = is_listed filter user in
    elim (Bool-cases (leb 1 limit && leb limit max_tx_limit)) [
      | inl within ↦
          subst
            (λ rows.
              IsNewestFirst created_at rows
              × All (λ t. test t ≡ true) rows
              × (length rows ≡ min limit (length (chosen test bank.transactions) - offset)))
            (some_injective (rw (within, if◌then◌else◌) at h))
            (page-IsNewestFirst created_at test limit offset bank.transactions)
      | inr out ↦ absurd (none_not_some (rw (out, if◌then◌else◌) at h))
    ]
