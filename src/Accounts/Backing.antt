-- ===== src/Accounts/Backing.antt =====
-- Held balances against reservations, in services/account-service/app: routes.py and handlers.py.
use mini_stock_exchange_plat.Base.{
  ℕ, ◌+◌, ◌≤◌, ◌≡◌, refl, ◌∙◌, ap, false, Option, none, some, [], ◌∷◌, arith, ◌==◌, if◌then◌else◌,
  Bool-cases, inl, inr,
}
use mini_stock_exchange_plat.Base.Dict.{
  Dict, lookup, lookup-insert, total_of, value_of, total_of-insert,
}
use mini_stock_exchange_plat.Accounts.Bank.{
  Account, Reservation, Bank, account_of, save_account, save_reservation, remaining,
}

-- What a reservation still holds of a user's cash.
abbrev pub share : ℕ → Reservation → ℕ
share user r = if r.user_id == user then remaining r else 0

abbrev pub held_for : ℕ → Bank → ℕ
held_for user bank = total_of (share user) bank.reservations

-- Each user's held balance is what the user's reservations hold, and no more than the cash.
pub record IsBacked (bank : Bank) (user : ℕ) : Type 0 where
  pub backed : (account_of user bank).held_balance ≡ held_for user bank
  pub solvent : (account_of user bank).held_balance ≤ (account_of user bank).cash_balance

abbrev pub AllBacked : Bank → Type 0
AllBacked bank = (user : ℕ) → IsBacked bank user

pub account_of-save_account :
    (u v : ℕ) (a : Account) (bank : Bank)
    → account_of u (save_account v a bank) ≡ (if u == v then a else account_of u bank)
account_of-save_account u v a bank = rw (lookup-insert u v a bank.accounts) (ground arith)

value-le-total :
    (f : Reservation → ℕ) (k : ℕ) (d : Dict Reservation) → value_of f (lookup k d) ≤ total_of f d
value-le-total f k [] = omega arith
value-le-total f k ((j, r) ∷ d) = ground (arith, value-le-total f k d)

-- An account that changes only in its cash, upwards.
pub credit-AllBacked :
    (v : ℕ) (a : Account) (bank : Bank)
    → a.held_balance ≡ (account_of v bank).held_balance
    → (account_of v bank).cash_balance ≤ a.cash_balance
    → AllBacked bank
    → AllBacked (save_account v a bank)
credit-AllBacked v a bank h c b u = elim (Bool-cases (u == v)) [
  | inl hit ↦
      let k : u ≡ v = ground arith in
      let p = (b v).backed in
      let q = (b v).solvent in
      let at : account_of u (save_account v a bank) ≡ a =
        account_of-save_account u v a bank ∙ rw hit refl in
      record { backed = rw (at, k) (omega arith); solvent = rw at (omega arith) }
  | inr miss ↦
      let at : account_of u (save_account v a bank) ≡ account_of u bank =
        account_of-save_account u v a bank ∙ rw miss refl in
      record { backed = rw at (b u).backed; solvent = rw at (b u).solvent }
]

-- The reservation under a key, if there is one, is this user's.
abbrev pub IsOwn : ℕ → Option Reservation → Type 0
IsOwn v none = Unit
IsOwn v (some r) = r.user_id ≡ v

share_own :
    (v : ℕ) (o : Option Reservation) → IsOwn v o → value_of (share v) o ≡ value_of remaining o
share_own v none h = refl
share_own v (some r) h = ground arith

share_other :
    (u v : ℕ) (o : Option Reservation) → (u == v) ≡ false → IsOwn v o → value_of (share u) o ≡ 0
share_other u v none ne h = refl
share_other u v (some r) ne h = ground arith

-- A reservation and its owner's account that change by the same amount.
pub hold-AllBacked :
    (order v : ℕ) (r' : Reservation) (a : Account) (bank : Bank)
    → r'.user_id ≡ v
    → IsOwn v (lookup order bank.reservations)
    → a.held_balance + value_of remaining (lookup order bank.reservations)
      ≡ (account_of v bank).held_balance + remaining r'
    → a.held_balance ≤ a.cash_balance
    → AllBacked bank
    → AllBacked (save_reservation order r' (save_account v a bank))
hold-AllBacked order v r' a bank e own m s b u = elim (Bool-cases (u == v)) [
  | inl hit ↦
      let k : u ≡ v = ground arith in
      let p = (b v).backed in
      let at : account_of u (save_account v a bank) ≡ a =
        account_of-save_account u v a bank ∙ rw hit refl in
      let t = total_of-insert (share v) order r' bank.reservations in
      let o = share_own v (lookup order bank.reservations) own in
      let n = share_own v (some r') e in
      record { backed = rw (at, k) (omega arith); solvent = rw at s }
  | inr miss ↦
      let p = (b u).backed in
      let at : account_of u (save_account v a bank) ≡ account_of u bank =
        account_of-save_account u v a bank ∙ rw miss refl in
      let t = total_of-insert (share u) order r' bank.reservations in
      let o = share_other u v (lookup order bank.reservations) miss own in
      let n = share_other u v (some r') miss e in
      record { backed = rw at (omega arith); solvent = rw at (b u).solvent }
]

-- A hold of the owner's is within the owner's held balance.
pub remaining-le-held :
    (v order : ℕ) (r : Reservation) (bank : Bank)
    → lookup order bank.reservations ≡ some r
    → r.user_id ≡ v
    → IsBacked bank v
    → remaining r ≤ (account_of v bank).held_balance
remaining-le-held v order r bank e own b =
    let p = b.backed in
    let l = value-le-total (share v) order bank.reservations in
    let o = share_own v (some r) own in
    let l' : share v r ≤ held_for v bank = rw⁻¹ (ap (value_of (share v)) e) l in omega arith
