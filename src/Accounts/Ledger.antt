-- ===== src/Accounts/Ledger.antt =====
-- The balances of services/account-service/app against its transactions.
use mini_stock_exchange_plat.Base.{
  ℕ, zero, suc, some_injective, ◌+◌, ◌-◌, ◌≤◌, ◌≡◌, refl, sym, ap, ◌∙◌, subst, ℤ, pos, pos_part,
  neg_part, minus, true, false, Option, none, some, [], ◌∷◌, ◌==◌, ltb, leb, ◌&&◌, if◌then◌else◌,
  arith, inl, inr, Bool-cases, Option-cases, sum_of, sum_of-append, both_branches,
}
use mini_stock_exchange_plat.Base.Dict.{lookup}
use mini_stock_exchange_plat.Base.Maybe.{none_not_some, bind_some}
use mini_stock_exchange_plat.Accounts.Bank.{
  Account, Reservation, TransactionType, hold, release, Transaction, Bank, remaining, account_of,
  save_account, record_tx, deposit, reserve_new, reserve_funds, release_hold, release_reservation,
}
use mini_stock_exchange_plat.Accounts.Backing.{account_of-save_account}
use mini_stock_exchange_plat.Accounts.Cash.{settled}
use mini_stock_exchange_plat.Accounts.Settle.{
  Trade, cost_of, limit_or, reservation_of, write_buyer, buyer_tx, settle_held, settle_buyer,
  settle, release_for,
}

-- What a transaction moves in cash; a hold and a release move none.
abbrev pub in_cash : TransactionType → ℤ → ℤ
in_cash hold amount = pos 0
in_cash release amount = pos 0
in_cash _ amount = amount

abbrev pub credit : ℕ → Transaction → ℕ
credit user t = if t.user_id == user then pos_part (in_cash t.type t.amount) else 0

abbrev pub debit : ℕ → Transaction → ℕ
debit user t = if t.user_id == user then neg_part (in_cash t.type t.amount) else 0

-- A user's cash is what the transactions of the user add up to.
abbrev pub IsExplained : Bank → ℕ → Type 0
IsExplained bank user =
    (account_of user bank).cash_balance + sum_of (debit user) bank.transactions
    ≡ sum_of (credit user) bank.transactions

abbrev pub AllExplained : Bank → Type 0
AllExplained bank = (user : ℕ) → IsExplained bank user

-- A row that is written with the transaction for what it changes in cash.
booked-AllExplained :
    (bank : Bank) (v : ℕ) (a : Account) (t : Transaction)
    → t.user_id ≡ v
    → a.cash_balance + neg_part (in_cash t.type t.amount)
      ≡ (account_of v bank).cash_balance + pos_part (in_cash t.type t.amount)
    → AllExplained bank
    → AllExplained (record_tx t (save_account v a bank))
booked-AllExplained bank v a t own change h user =
    let at = account_of-save_account user v a bank in
    let outgo = sum_of-append (debit user) bank.transactions (t ∷ []) in
    let income = sum_of-append (credit user) bank.transactions (t ∷ []) in
    let before = h user in
    elim (Bool-cases (user == v)) [
      | inl mine ↦
          let same : user ≡ v = ground arith in
          let cash = ap (λ (x : Account). x.cash_balance) (rw (mine, if◌then◌else◌) at at) in
          let old = ap (λ u. (account_of u bank).cash_balance) same in
          let hit : (t.user_id == user) ≡ true = ground arith in
          rw (cash, outgo, income) (rw (hit, if◌then◌else◌) (omega arith))
      | inr other ↦
          let cash = ap (λ (x : Account). x.cash_balance) (rw (other, if◌then◌else◌) at at) in
          let miss : (t.user_id == user) ≡ false = ground arith in
          rw (cash, outgo, income) (rw (miss, if◌then◌else◌) (omega arith))
    ]

-- A row that is written without a transaction keeps the cash.
kept-AllExplained :
    (bank : Bank) (v : ℕ) (a : Account)
    → a.cash_balance ≡ (account_of v bank).cash_balance
    → AllExplained bank
    → AllExplained (save_account v a bank)
kept-AllExplained bank v a same h user =
    let at = account_of-save_account user v a bank in
    elim (Bool-cases (user == v)) [
      | inl mine ↦
          let same_user : user ≡ v = ground arith in
          let cash = ap (λ (x : Account). x.cash_balance) (rw (mine, if◌then◌else◌) at at) in
          let old = ap (λ u. (account_of u bank).cash_balance) same_user in
          rw cash (rw (same ∙ sym old) (h user))
      | inr other ↦ rw (rw (other, if◌then◌else◌) at at) (h user)
    ]

deposit-AllExplained :
    (user amount : ℕ) (bank : Bank) → AllExplained bank → AllExplained (deposit user amount bank)
unfolding deposit
deposit-AllExplained user amount bank h = booked-AllExplained bank user _ _ refl (omega arith) h

reserve_funds-AllExplained :
    (order user amount : ℕ) (bank : Bank)
    → AllExplained bank
    → AllExplained (reserve_funds order user amount bank).0
unfolding reserve_funds reserve_new
reserve_funds-AllExplained order user amount bank h =
    let account = account_of user bank in
    elim (Option-cases (lookup order bank.reservations)) [
      | inr (r, e) ↦ rw (reserve_funds, e) h
      | inl e ↦ elim (Bool-cases (ltb account.cash_balance (account.held_balance + amount))) [
        | inl short ↦ rw (reserve_funds, e, reserve_new, short, if◌then◌else◌) h
        | inr enough ↦
            rw (reserve_funds, e, reserve_new, enough, if◌then◌else◌)
              (booked-AllExplained bank user _ _ refl (omega arith) h)
      ]
    ]

release_hold-AllExplained :
    (order owner : ℕ) (r : Reservation) (bank : Bank)
    → AllExplained bank
    → AllExplained (release_hold order owner r bank)
unfolding release_hold
release_hold-AllExplained order owner r bank h =
    both_branches {A = Bank} AllExplained (ltb 0 (remaining r))
      (booked-AllExplained bank owner _ _ refl (omega arith) h)
      (kept-AllExplained bank owner _ refl h)

release_reservation-AllExplained :
    (order : ℕ) (found : Option Reservation) (bank : Bank)
    → AllExplained bank
    → AllExplained (release_reservation order found bank).0
unfolding release_reservation
release_reservation-AllExplained order none bank h = h
release_reservation-AllExplained order (some r) bank h =
    both_branches {A = Bank × Option ℕ} (λ x. AllExplained x.0) (remaining r == 0) h
      (release_hold-AllExplained order r.user_id r bank h)

release_for-AllExplained :
    (order user : ℕ) (bank : Bank) → AllExplained bank → AllExplained (release_for order user bank)
unfolding release_for
release_for-AllExplained order user bank h = elim (Option-cases (lookup order bank.reservations)) [
  | inl e ↦ rw (release_for, e) h
  | inr (r, e) ↦ rw (release_for, e) (release_hold-AllExplained order user r bank h)
]

minus_parts : (n : ℕ) → (neg_part (minus n) ≡ n) × (pos_part (minus n) ≡ 0)
minus_parts zero = (refl, refl)
minus_parts (suc n) = (refl, refl)

-- The buyer's row, if it is written, has paid the cost.
write_buyer-AllExplained :
    (t : Trade) (cost : ℕ) (account : Account) (bank paid : Bank)
    → account.cash_balance ≡ (account_of t.buyer bank).cash_balance - cost
    → write_buyer t cost account bank ≡ some paid
    → AllExplained bank
    → AllExplained paid
write_buyer-AllExplained t cost account bank paid e w h =
    let before = account_of t.buyer bank in
    let fits = leb cost before.cash_balance && leb account.held_balance account.cash_balance in
    elim (Bool-cases fits) [
      | inr refused ↦ absurd (none_not_some (rw (refused, if◌then◌else◌) at w))
      | inl written ↦ subst AllExplained (some_injective (rw (written, if◌then◌else◌) at w)) (
          booked-AllExplained bank t.buyer account (buyer_tx t cost account) refl
            (let (out, in_) = minus_parts cost in
              let enough : cost ≤ before.cash_balance = ground arith in omega arith)
            h)
    ]

settle_buyer-AllExplained :
    (t : Trade) (price cost : ℕ) (found : Option (ℕ × Reservation)) (bank paid : Bank)
    → settle_buyer t price cost found bank ≡ some paid
    → AllExplained bank
    → AllExplained paid
unfolding settle_buyer settle_held
settle_buyer-AllExplained t price cost none bank paid w h =
    write_buyer-AllExplained t cost _ bank paid refl w h
settle_buyer-AllExplained t price cost (some (order, r)) bank paid w h =
    let (reserved, e, w') =
      bind_some (cost_of (limit_or t.buy_order_limit_price price) t.quantity) _ paid w in
    write_buyer-AllExplained t cost _ (record bank { reservations = _ }) paid (ground arith) w' h

settle-AllExplained :
    (t : Trade) (bank bank' : Bank)
    → settle t bank ≡ some bank'
    → AllExplained bank
    → AllExplained bank'
settle-AllExplained t bank bank' e h =
    let (price, cost, paid, p, c, w, q) = settled t bank bank' e in
    rw q (
      booked-AllExplained paid t.seller _ _ refl (omega arith)
        (settle_buyer-AllExplained t price cost (reservation_of t.buy_order_id bank) bank paid w h))

-- What the Account Service may do to its tables: the routes, a release from any copy of the
-- reservation; the release after order.cancelled or order.rejected, for any user; and a settlement
-- that does not raise.
pub data Step : Bank → Bank → Type 0 where
  deposits : (user amount : ℕ) (bank : Bank) → Step bank (deposit user amount bank)
  reserves :
      (order user amount : ℕ) (bank : Bank) → Step bank (reserve_funds order user amount bank).0
  releases :
      (order : ℕ) (found : Option Reservation) (bank : Bank)
      → Step bank (release_reservation order found bank).0
  cancels : (order user : ℕ) (bank : Bank) → Step bank (release_for order user bank)
  settles : (t : Trade) (bank bank' : Bank) → settle t bank ≡ some bank' → Step bank bank'

pub data Steps : Bank → Bank → Type 0 where
  done : (bank : Bank) → Steps bank bank
  step : {a b c : Bank} → Step a b → Steps b c → Steps a c

Step-AllExplained : {a b : Bank} → Step a b → AllExplained a → AllExplained b
Step-AllExplained (deposits user amount bank) h = deposit-AllExplained user amount bank h
Step-AllExplained (reserves order user amount bank) h =
    reserve_funds-AllExplained order user amount bank h
Step-AllExplained (releases order found bank) h =
    release_reservation-AllExplained order found bank h
Step-AllExplained (cancels order user bank) h = release_for-AllExplained order user bank h
Step-AllExplained (settles t bank bank' e) h = settle-AllExplained t bank bank' e h

-- After any deposits, reservations, releases and settlements that do not raise, in any order and
-- number, whoever they name, with a reservation for the order or not, and from however old a copy
-- of it a release is made, each user's cash is what the deposits, purchases and sales among the
-- user's transactions add up to, if that is so before.
pub Steps-AllExplained : {a b : Bank} → Steps a b → AllExplained a → AllExplained b
Steps-AllExplained (done bank) h = h
Steps-AllExplained (step p q) h = Steps-AllExplained q (Step-AllExplained p h)
