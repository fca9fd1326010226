-- ===== src/Accounts/Cash.antt =====
-- Money in the settlement of a trade (services/account-service/app/handlers.py).
use mini_stock_exchange_plat.Base.{ℕ, ◌+◌, ◌-◌, ◌≡◌, refl, Option, none, some, arith}
use mini_stock_exchange_plat.Base.Dict.{lookup, total_of, value_of, total_of-insert}
use mini_stock_exchange_plat.Base.Maybe.{bind_some}
use mini_stock_exchange_plat.Accounts.Bank.{
  Account, Reservation, Bank, account_of, or_new, save_account,
}
use mini_stock_exchange_plat.Accounts.Settle.{
  Trade, cost_of, settle, settle_buyer, settle_held, reservation_of, write_buyer, pay_seller,
  limit_or,
}

-- All the cash there is.
abbrev pub total_cash : Bank → ℕ
total_cash bank = total_of (λ a. a.cash_balance) bank.accounts

value-or_new : (r : Option Account) → value_of (λ a. a.cash_balance) r ≡ (or_new r).cash_balance
value-or_new none = refl
value-or_new (some a) = refl

save_account-total_cash :
    (user : ℕ) (account : Account) (bank : Bank)
    → total_cash (save_account user account bank) + (account_of user bank).cash_balance
      ≡ total_cash bank + account.cash_balance
save_account-total_cash user account bank = omega (
  arith,
  total_of-insert (λ a. a.cash_balance) user account bank.accounts,
  value-or_new (lookup user bank.accounts),
)

-- The buyer's row, if it is written, has paid the cost.
write_buyer-total_cash :
    (t : Trade) (cost : ℕ) (account : Account) (bank paid : Bank)
    → account.cash_balance ≡ (account_of t.buyer bank).cash_balance - cost
    → write_buyer t cost account bank ≡ some paid
    → total_cash paid + cost ≡ total_cash bank
write_buyer-total_cash t cost account bank paid e h =
    ground (arith, save_account-total_cash t.buyer account bank)

settle_held-total_cash :
    (t : Trade) (cost reserved order : ℕ) (r : Reservation) (bank paid : Bank)
    → settle_held t cost reserved order r bank ≡ some paid
    → total_cash paid + cost ≡ total_cash bank
unfolding settle_held
settle_held-total_cash t cost reserved order r bank paid h =
    write_buyer-total_cash t cost _ (record bank { reservations = _ }) paid (ground arith) h

settle_buyer-total_cash :
    (t : Trade) (price cost : ℕ) (found : Option (ℕ × Reservation)) (bank paid : Bank)
    → settle_buyer t price cost found bank ≡ some paid
    → total_cash paid + cost ≡ total_cash bank
unfolding settle_buyer
settle_buyer-total_cash t price cost none bank paid h =
    write_buyer-total_cash t cost _ bank paid refl h
settle_buyer-total_cash t price cost (some (order, r)) bank paid h =
    let (reserved, e, h') =
      bind_some (cost_of (limit_or t.buy_order_limit_price price) t.quantity) _ paid h in
    settle_held-total_cash t cost reserved order r bank paid h'

-- What a settlement that does not raise has come to.
pub settled :
    (t : Trade) (bank bank' : Bank)
    → settle t bank ≡ some bank'
    → (price : ℕ) × (cost : ℕ) × (paid : Bank) × (t.price ≡ some price)
      × (cost_of price t.quantity ≡ some cost)
      × (settle_buyer t price cost (reservation_of t.buy_order_id bank) bank ≡ some paid)
      × (bank' ≡ pay_seller t cost paid)
unfolding settle
settled t bank bank' h =
    let (price, p, h1) = bind_some t.price _ bank' h in
    let (cost, c, h2) = bind_some (cost_of price t.quantity) _ bank' h1 in
    let (paid, b, h3) =
      bind_some (settle_buyer t price cost (reservation_of t.buy_order_id bank) bank) _ bank' h2 in
    (price, cost, paid, p, c, b, cc)

-- A settlement that does not raise leaves the cash of all accounts together as it was, whoever
-- buys and sells.
pub settle-total_cash :
    (t : Trade) (bank bank' : Bank)
    → settle t bank ≡ some bank'
    → total_cash bank' ≡ total_cash bank
settle-total_cash t bank bank' h =
    let (price, cost, paid, p, c, b, e) = settled t bank bank' h in
    let seller = account_of t.seller paid in
    let before =
      settle_buyer-total_cash t price cost (reservation_of t.buy_order_id bank) bank paid b in
    let after =
      save_account-total_cash t.seller (record seller { cash_balance = seller.cash_balance + cost })
        paid in
    rw e (omega arith)
