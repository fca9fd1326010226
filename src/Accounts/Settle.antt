-- ===== src/Accounts/Settle.antt =====
-- The consumers of services/account-service/app/handlers.py. Prices are not negative: the Order
-- Service accepts no other. What is not read, as an identifier or as money, is `none`. The rows
-- that are written before the seller's account is read are flushed there, so a check constraint
-- that the buyer's row violates raises, and is not the IntegrityError that ends the commit.
use mini_stock_exchange_plat.Base.{
  ℕ, ◌+◌, ◌-◌, ◌*◌, min, pos, minus, Bool, true, Option, none, some, [], ◌∷◌, ltb, leb, ◌==◌, ◌&&◌,
  ◌||◌, if◌then◌else◌,
}
use mini_stock_exchange_plat.Base.Dict.{Dict, lookup}
use mini_stock_exchange_plat.Base.Maybe.{◌>>=◌}
use mini_stock_exchange_plat.Money.{max_coefficient, max_qty}
use mini_stock_exchange_plat.Events.Once.{
  EventId, Service, Delivery, returned, seen_event, mark_event_processed, once,
}
use mini_stock_exchange_plat.Accounts.Bank.{
  Account, Reservation, Transaction, trade_buy, trade_sell, Bank, remaining, account_of,
  save_account, save_reservation, record_tx, released_reservation, released_account, release_hold,
}

-- `notional`, on a price that is not negative.
abbrev pub cost_of : ℕ → ℕ → Option ℕ
cost_of price quantity =
    if quantity == 0 || ltb max_qty quantity
    then none
    else if ltb (price * quantity) max_coefficient
    then some (price * quantity)
    else none

-- The payload of trade.executed, with usable user ids.
pub record Trade : Type 0 where
  pub trade_id : Option ℕ
  pub buyer : ℕ
  pub seller : ℕ
  pub buy_order_id : Option ℕ
  pub price : Option ℕ
  pub quantity : ℕ
  pub buy_order_limit_price : Option ℕ
  pub buy_order_remaining : ℕ

abbrev pub limit_or : Option ℕ → ℕ → ℕ
limit_or none price = price
limit_or (some limit) price = limit

-- The reservation of an order, with its key, if it has one.
unfoldable pub with_key : ℕ → Option Reservation → Option (ℕ × Reservation)
with_key order none = none
with_key order (some r) = some (order, r)

unfoldable pub reservation_of : Option ℕ → Bank → Option (ℕ × Reservation)
unfolding with_key
reservation_of none bank = none
reservation_of (some order) bank = with_key order (lookup order bank.reservations)

-- The reservation and the buyer's hold after a fill that needs `reserved` of the hold.
abbrev pub consume : ℕ → Reservation → Reservation
consume reserved r = record r { amount_consumed = r.amount_consumed + min reserved (remaining r) }

abbrev pub pay : ℕ → ℕ → Account → Account
pay cost consumed account = record {
  cash_balance = account.cash_balance - cost;
  held_balance = account.held_balance - consumed;
}

abbrev pub buyer_tx : Trade → ℕ → Account → Transaction
buyer_tx t cost account = record {
  user_id = t.buyer;
  type = trade_buy;
  amount = minus cost;
  balance_after = account.cash_balance;
  reference_id = t.trade_id;
}

-- The buyer's row, where the check constraints let it be written.
abbrev pub write_buyer : Trade → ℕ → Account → Bank → Option Bank
write_buyer t cost account bank =
    let before = account_of t.buyer bank in
    if leb cost before.cash_balance && leb account.held_balance account.cash_balance
    then some (record_tx (buyer_tx t cost account) (save_account t.buyer account bank))
    else none

-- The buyer pays, and the hold is consumed; what is left of it is released with the last fill.
unfoldable pub settle_held : Trade → ℕ → ℕ → ℕ → Reservation → Bank → Option Bank
settle_held t cost reserved order r bank =
    let r' = consume reserved r in
    let buyer = pay cost (min reserved (remaining r)) (account_of t.buyer bank) in
    let last = t.buy_order_remaining == 0 in
    write_buyer t cost (if last then released_account r' buyer else buyer)
      (save_reservation order (if last then released_reservation r' else r') bank)

-- Without a reservation, what cash there is pays.
unfoldable pub settle_buyer : Trade → ℕ → ℕ → Option (ℕ × Reservation) → Bank → Option Bank
settle_buyer t price cost none bank =
    let buyer = account_of t.buyer bank in
    write_buyer t cost (pay cost (min cost buyer.cash_balance) buyer) bank
settle_buyer t price cost (some (order, r)) bank = do
  reserved ← cost_of (limit_or t.buy_order_limit_price price) t.quantity
  settle_held t cost reserved order r bank

-- The seller's proceeds.
abbrev pub pay_seller : Trade → ℕ → Bank → Bank
pay_seller t cost bank =
    let seller = account_of t.seller bank in
    let seller' = record seller { cash_balance = seller.cash_balance + cost } in
    record_tx
      (record {
        user_id = t.seller;
        type = trade_sell;
        amount = pos cost;
        balance_after = seller'.cash_balance;
        reference_id = t.trade_id;
      })
      (save_account t.seller seller' bank)

-- The work of `handle_trade_executed`: `none` is that it raises.
unfoldable pub settle : Trade → Bank → Option Bank
settle t bank = do
  price ← t.price
  cost ← cost_of price t.quantity
  paid ← settle_buyer t price cost (reservation_of t.buy_order_id bank) bank
  some (pay_seller t cost paid)

-- The work of `_release_reservation`.
unfoldable pub release_for : ℕ → ℕ → Bank → Bank
release_for order user bank = elim (lookup order bank.reservations) [
  | none ↦ bank
  | some r ↦ release_hold order user r bank
]

-- `ck_held_le_cash`, of every row
abbrev pub accepts : Dict Account → Bool
accepts [] = true
accepts ((_, account) ∷ accounts) =
    leb account.held_balance account.cash_balance && accepts accounts

abbrev pub Accounts : Type 0
Accounts = Service Bank

-- `_drop_unprocessable`, for an event that is not marked
abbrev pub drop_unprocessable : EventId → Accounts → Accounts × Delivery
drop_unprocessable event_id s = (
  if seen_event s.seen event_id
      then s
      else record s { seen = mark_event_processed s.seen event_id },
  returned,
)

-- The payload is `none` where a user id is unusable.
unfoldable pub handle_trade_executed : EventId → Option Trade → Accounts → Accounts × Delivery
handle_trade_executed event_id none s = drop_unprocessable event_id s
handle_trade_executed event_id (some t) s =
    once (λ bank. accepts bank.accounts) (settle t) event_id s

-- `handle_order_cancelled` and `handle_order_rejected`: the order's and the user's id.
unfoldable pub release_reservation_event : EventId → Option (ℕ × ℕ) → Accounts → Accounts × Delivery
release_reservation_event event_id none s = drop_unprocessable event_id s
release_reservation_event event_id (some (order, user)) s =
    once (λ bank. accepts bank.accounts) (λ bank. some (release_for order user bank)) event_id s
