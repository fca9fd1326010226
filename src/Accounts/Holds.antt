-- ===== src/Accounts/Holds.antt =====
-- Deposits, reservations, releases and settlements in any order, in services/account-service/app:
-- routes.py and handlers.py.
use mini_stock_exchange_plat.Base.{
  ℕ, ◌+◌, ◌≤◌, ◌≡◌, refl, sym, ◌∙◌, ap, min, true, false, Option, none, some, arith, ltb, leb, ◌==◌,
  ◌&&◌, if◌then◌else◌, Option-cases, Bool-cases, inl, inr, ◌⊎◌, both_branches, subst,
}
use mini_stock_exchange_plat.Base.Dict.{lookup, insert, lookup-insert}
use mini_stock_exchange_plat.Base.Maybe.{bind_some}
use mini_stock_exchange_plat.Accounts.Bank.{
  Account, Reservation, Transaction, Bank, account_of, save_account, save_reservation, remaining,
  released_account, released_reservation, record_tx, deposit, reserve_new, reserve_funds,
  release_hold, release_reservation,
}
use mini_stock_exchange_plat.Accounts.Settle.{
  Trade, cost_of, settle, settle_buyer, settle_held, reservation_of, with_key, buyer_tx,
  write_buyer, pay_seller, pay, consume, limit_or, release_for,
}
use mini_stock_exchange_plat.Accounts.Cash.{settled}
use mini_stock_exchange_plat.Accounts.Backing.{
  AllBacked, IsOwn, credit-AllBacked, hold-AllBacked, remaining-le-held,
}

record_tx-AllBacked :
    (t : Transaction) (bank : Bank) → AllBacked bank → AllBacked (record_tx t bank)
record_tx-AllBacked t bank b u = record { backed = (b u).backed; solvent = (b u).solvent }

deposit-AllBacked :
    (user amount : ℕ) (bank : Bank) → AllBacked bank → AllBacked (deposit user amount bank)
unfolding deposit
deposit-AllBacked user amount bank b =
    record_tx-AllBacked _ _ (credit-AllBacked user _ bank refl (omega arith) b)

reserve_new-AllBacked :
    (order user amount : ℕ) (bank : Bank)
    → lookup order bank.reservations ≡ none
    → AllBacked bank
    → AllBacked (reserve_new order user amount bank).0
unfolding reserve_new
reserve_new-AllBacked order user amount bank e b =
    let account = account_of user bank in
    elim (Bool-cases (ltb account.cash_balance (account.held_balance + amount))) [
      | inl poor ↦ rw (poor, if◌then◌else◌) b
      | inr rich ↦
          rw (rich, if◌then◌else◌)
            (record_tx-AllBacked _ _ (
              hold-AllBacked order user _ _ bank refl (rw e tt) (rw e (omega arith)) (ground arith)
                b))
    ]

reserve_funds-AllBacked :
    (order user amount : ℕ) (bank : Bank)
    → AllBacked bank
    → AllBacked (reserve_funds order user amount bank).0
unfolding reserve_funds
reserve_funds-AllBacked order user amount bank b =
    elim (Option-cases (lookup order bank.reservations)) [
      | inl new ↦ rw (new, reserve_funds) (reserve_new-AllBacked order user amount bank new b)
      | inr (r, old) ↦ rw (old, reserve_funds) b
    ]

release_hold-AllBacked :
    (order : ℕ) (r : Reservation) (bank : Bank)
    → lookup order bank.reservations ≡ some r
    → AllBacked bank
    → AllBacked (release_hold order r.user_id r bank)
unfolding release_hold
release_hold-AllBacked order r bank e b =
    let v = r.user_id in
    let l = remaining-le-held v order r bank e refl (b v) in
    let s = (b v).solvent in
    let k : AllBacked (
        save_reservation order (released_reservation r)
          (save_account v (released_account r (account_of v bank)) bank)) =
      hold-AllBacked order v (released_reservation r) (released_account r (account_of v bank)) bank
        refl (rw e refl) (rw e (omega arith)) (omega arith) b in
    rw e (both_branches AllBacked (ltb 0 (remaining r)) (record_tx-AllBacked _ _ k) k)

release_reservation-AllBacked :
    (order : ℕ) (found : Option Reservation) (bank : Bank)
    → lookup order bank.reservations ≡ found
    → AllBacked bank
    → AllBacked (release_reservation order found bank).0
unfolding release_reservation
release_reservation-AllBacked order none bank e b = b
release_reservation-AllBacked order (some r) bank e b =
    both_branches {A = Bank × Option ℕ} (λ x. AllBacked x.0) (remaining r == 0) b
      (release_hold-AllBacked order r bank e b)

release_for-AllBacked :
    (order user : ℕ) (bank : Bank)
    → IsOwn user (lookup order bank.reservations)
    → AllBacked bank
    → AllBacked (release_for order user bank)
unfolding release_for
release_for-AllBacked order user bank own b = elim (Option-cases (lookup order bank.reservations)) [
  | inl gone ↦ rw (gone, release_for) b
  | inr (r, e) ↦
      let k : r.user_id ≡ user = ground (arith, own) in
      rw (e, release_for) (rw⁻¹ k (release_hold-AllBacked order r bank e b))
]

write_buyer-AllBacked :
    (t : Trade) (cost order : ℕ) (r r' : Reservation) (a : Account) (bank paid : Bank)
    → lookup order bank.reservations ≡ some r
    → r.user_id ≡ t.buyer
    → r'.user_id ≡ t.buyer
    → a.held_balance + remaining r ≡ (account_of t.buyer bank).held_balance + remaining r'
    → write_buyer t cost a (save_reservation order r' bank) ≡ some paid
    → AllBacked bank
    → AllBacked paid
write_buyer-AllBacked t cost order r r' a bank paid e o o' m h b =
    go
      (Bool-cases
        (leb cost (account_of t.buyer bank).cash_balance && leb a.held_balance a.cash_balance))
      h
  where
    written :
        a.held_balance ≤ a.cash_balance
        → AllBacked (save_reservation order r' (save_account t.buyer a bank))
    written s = hold-AllBacked order t.buyer r' a bank o' (rw e o) (rw e m) s b

    go :
        (leb cost (account_of t.buyer bank).cash_balance && leb a.held_balance a.cash_balance
            ≡ true)
          ⊎ (leb cost (account_of t.buyer bank).cash_balance && leb a.held_balance a.cash_balance
              ≡ false)
        → write_buyer t cost a (save_reservation order r' bank) ≡ some paid
        → AllBacked paid
    go (inl fits) h =
        let done : Bank =
          record_tx (buyer_tx t cost a) (save_reservation order r' (save_account t.buyer a bank)) in
        let e : done ≡ paid = ground (arith, h) in
        subst AllBacked e (record_tx-AllBacked (buyer_tx t cost a) _ (written (ground arith)))
    go (inr fails) h = absurd (ground (arith, h))

settle_held-AllBacked :
    (t : Trade) (cost reserved order : ℕ) (r : Reservation) (bank paid : Bank)
    → lookup order bank.reservations ≡ some r
    → r.user_id ≡ t.buyer
    → settle_held t cost reserved order r bank ≡ some paid
    → AllBacked bank
    → AllBacked paid
unfolding settle_held
settle_held-AllBacked t cost reserved order r bank paid e o h b =
    let l = remaining-le-held t.buyer order r bank e o (b t.buyer) in
    let last = t.buy_order_remaining == 0 in
    let r1 = consume reserved r in
    let r2 = if last then released_reservation r1 else r1 in
    let buyer = pay cost (min reserved (remaining r)) (account_of t.buyer bank) in
    let a = if last then released_account r1 buyer else buyer in
    write_buyer-AllBacked t cost order r r2 a bank paid e o
      (both_branches {A = Reservation} (λ x. x.user_id ≡ t.buyer) last o o) (ground arith) h b

-- The buyer of a trade has a reservation for the order.
abbrev pub HasReservation : Trade → Bank → Type 0
HasReservation t bank =
    (order : ℕ) × (r : Reservation) × (t.buy_order_id ≡ some order)
    × (lookup order bank.reservations ≡ some r)
    × (r.user_id ≡ t.buyer)

pay_seller-AllBacked :
    (t : Trade) (cost : ℕ) (bank : Bank) → AllBacked bank → AllBacked (pay_seller t cost bank)
pay_seller-AllBacked t cost bank b =
    record_tx-AllBacked _ _ (credit-AllBacked t.seller _ bank refl (omega arith) b)

settle-AllBacked :
    (t : Trade) (bank bank' : Bank)
    → HasReservation t bank
    → settle t bank ≡ some bank'
    → AllBacked bank
    → AllBacked bank'
unfolding settle_buyer reservation_of with_key
settle-AllBacked t bank bank' (order, r, i, e, o) h b =
    let (price, cost, paid, p, c, s, q) = settled t bank bank' h in
    let found : reservation_of t.buy_order_id bank ≡ some (order, r) = rw i (rw e refl) in
    let s' : settle_buyer t price cost (some (order, r)) bank ≡ some paid =
      ap (λ x. settle_buyer t price cost x bank) (sym found) ∙ s in
    let (reserved, x, y) =
      bind_some (cost_of (limit_or t.buy_order_limit_price price) t.quantity) _ paid s' in
    rw q (
      pay_seller-AllBacked t cost paid
        (settle_held-AllBacked t cost reserved order r bank paid e o y b))

-- What the Account Service may do to its tables: the routes, a release where the reservation is
-- still as it was found before the lock; the release after order.cancelled or order.rejected, whose
-- payload names the order's owner; and a settlement that does not raise, of an order whose buyer
-- has a reservation.
pub data Step : Bank → Bank → Type 0 where
  deposits : (user amount : ℕ) (bank : Bank) → Step bank (deposit user amount bank)
  reserves :
      (order user amount : ℕ) (bank : Bank) → Step bank (reserve_funds order user amount bank).0
  releases :
      (order : ℕ) (found : Option Reservation) (bank : Bank)
      → lookup order bank.reservations ≡ found
      → Step bank (release_reservation order found bank).0
  cancels :
      (order user : ℕ) (bank : Bank)
      → IsOwn user (lookup order bank.reservations)
      → Step bank (release_for order user bank)
  settles :
      (t : Trade) (bank bank' : Bank)
      → HasReservation t bank
      → settle t bank ≡ some bank'
      → Step bank bank'

pub data Steps : Bank → Bank → Type 0 where
  done : (bank : Bank) → Steps bank bank
  step : {a b c : Bank} → Step a b → Steps b c → Steps a c

Step-AllBacked : {a b : Bank} → Step a b → AllBacked a → AllBacked b
Step-AllBacked (deposits user amount bank) h = deposit-AllBacked user amount bank h
Step-AllBacked (reserves order user amount bank) h =
    reserve_funds-AllBacked order user amount bank h
Step-AllBacked (releases order found bank e) h = release_reservation-AllBacked order found bank e h
Step-AllBacked (cancels order user bank own) h = release_for-AllBacked order user bank own h
Step-AllBacked (settles t bank bank' r e) h = settle-AllBacked t bank bank' r e h

-- After any deposits, reservations, releases and settlements that do not raise, in any order and
-- number, where a release by request finds the reservation as it is when the lock is taken, the
-- release after an event names the owner of the order's reservation, and a settlement is of an
-- order that the buyer has a reservation for, each user's held balance is what the user's
-- reservations still hold, and no more than the user's cash, if that is so before.
pub Steps-AllBacked : (a b : Bank) → Steps a b → AllBacked a → AllBacked b
Steps-AllBacked a b p h = go p h
  where
    go : {a b : Bank} → Steps a b → AllBacked a → AllBacked b
    go (done bank) h = h
    go (step p q) h = go q (Step-AllBacked p h)

release_done :
    (order : ℕ) (bank : Bank) (r : Reservation)
    → remaining r ≡ 0
    → release_reservation order (some r) bank ≡ (bank, some 0)
unfolding release_reservation
release_done order bank r z =
    let q : (remaining r == 0) ≡ true = ground arith in rw (q, if◌then◌else◌) refl

release_hold-lookup :
    (order v : ℕ) (r : Reservation) (bank : Bank)
    → lookup order bank.reservations ≡ some r
    → lookup order (release_hold order v r bank).reservations ≡ some (released_reservation r)
unfolding release_hold
release_hold-lookup order v r bank e =
    let written : lookup order (insert order (released_reservation r) bank.reservations)
        ≡ some (released_reservation r) =
      rw (lookup-insert order order (released_reservation r) bank.reservations) (ground arith) in
    rw e (
      both_branches {A = Bank} (λ b. lookup order b.reservations ≡ some (released_reservation r))
        (ltb 0 (remaining r)) written written)

-- For an order that has a reservation, a second release releases nothing and changes no row.
pub release_twice :
    (order : ℕ) (bank : Bank) (r : Reservation)
    → lookup order bank.reservations ≡ some r
    → let bank1 = (release_reservation order (some r) bank).0 in
      release_reservation order (lookup order bank1.reservations) bank1 ≡ (bank1, some 0)
unfolding release_reservation
release_twice order bank r e = elim (Bool-cases (remaining r == 0)) [
  | inl nothing ↦ rw (nothing, if◌then◌else◌) (rw e (release_done order bank r (ground arith)))
  | inr some_left ↦
      rw (some_left, if◌then◌else◌)
        (rw (release_hold-lookup order r.user_id r bank e) (
          release_done order (release_hold order r.user_id r bank) (released_reservation r)
            (omega arith)))
]
