-- ===== src/Engine/Desk/Deliveries.antt =====
-- Deliveries to the consumers of services/matching-engine/app/handlers.py, in any order and number.
use mini_stock_exchange_plat.Base.{
  ℕ, suc, ◌≡◌, refl, true, false, Option, none, some, [], ◌∷◌, ◌++◌, arith, ◌==◌, ◌||◌,
  if◌then◌else◌, Bool-cases, Option-cases, inl, inr, both_branches,
}
use mini_stock_exchange_plat.Base.Maybe.{is_some}
use mini_stock_exchange_plat.Events.Once.{member}
use mini_stock_exchange_plat.Money.{Result, ok, err}
use mini_stock_exchange_plat.Engine.Book.{Side, OrderType, BookOrder, OrderBook, cancel, cancel_at}
use mini_stock_exchange_plat.Engine.Invariant.{IsValid}
use mini_stock_exchange_plat.Engine.Validity.{match-IsValid, cancel-IsValid}
use mini_stock_exchange_plat.Engine.Desk.{
  Accepted, TypeWord, cancel_rejected, already_filled, not_in_book, Engine, set_book, accept,
  accept_parsed, parse, parse_checked, parse_priced, parse_order, parse_type, checked,
  handle_order_accepted, CancelRequested, handle_cancel_requested, cancel_in, cancel_id,
  cancel_answer, reject_reason,
}
use mini_stock_exchange_plat.Engine.Desk.Memory.{remember_lasts}

-- Every book keeps the invariant of a book.
abbrev pub AllValid : Engine → Type 0
AllValid engine = (symbol : ℕ) → IsValid (engine.books symbol)

-- One delivery of either event.
pub data Step : Engine → Engine → Type 0 where
  order_accepted : (p : Accepted) (e : Engine) → Step e (handle_order_accepted p e).0
  cancel_requested : (p : CancelRequested) (e : Engine) → Step e (handle_cancel_requested p e).0

pub data Steps : Engine → Engine → Type 0 where
  done : (e : Engine) → Steps e e
  step : {e f g : Engine} → Step e f → Steps f g → Steps e g

set_book-AllValid :
    (symbol : ℕ) (book : OrderBook) (books : ℕ → OrderBook)
    → IsValid book
    → ((j : ℕ) → IsValid (books j))
    → (j : ℕ) → IsValid (set_book symbol book books j)
set_book-AllValid symbol book books v vs j = both_branches IsValid (j == symbol) v (vs j)

accept-AllValid : (o : BookOrder) (e : Engine) → AllValid e → AllValid (accept o e)
unfolding accept
accept-AllValid o e vs =
    both_branches AllValid
      (is_some ((e.books o.symbol).index o.order_id) || member o.order_id e.seen_orders) vs
      (set_book-AllValid o.symbol _ e.books (match-IsValid (e.books o.symbol) o (vs o.symbol)) vs)

accept_parsed-AllValid :
    (e : Engine) (r : Result (Option BookOrder)) → AllValid e → AllValid (accept_parsed e r).0
unfolding accept_parsed
accept_parsed-AllValid e (err x) vs = vs
accept_parsed-AllValid e (ok none) vs = vs
accept_parsed-AllValid e (ok (some o)) vs = accept-AllValid o (record e { seq = o.seq }) vs

cancel_in-AllValid :
    (p : CancelRequested) (e : Engine) (s : Option ℕ) → AllValid e → AllValid (cancel_in p e s)
unfolding cancel_in cancel_id
cancel_in-AllValid p e none vs = vs
cancel_in-AllValid p e (some symbol) vs = set_book-AllValid symbol _ e.books (held p.order_id) vs
  where
    held : (r : Option ℕ) → IsValid (cancel_id (e.books symbol) r).0
    held none = vs symbol
    held (some id) = cancel-IsValid (e.books symbol) id (vs symbol)

Step-AllValid : {e f : Engine} → Step e f → AllValid e → AllValid f
unfolding handle_order_accepted handle_cancel_requested
Step-AllValid (order_accepted p e) vs = accept_parsed-AllValid e _ vs
Step-AllValid (cancel_requested p e) vs = cancel_in-AllValid p e p.symbol vs

-- Whatever order.accepted and order.cancel_requested deliveries the engine gets, in any order and
-- number, if every book has the invariant of a book before, every book has it afterwards.
pub deliveries-AllValid : (e f : Engine) → Steps e f → AllValid e → AllValid f
deliveries-AllValid e f p vs = go p vs
  where
    go : {e f : Engine} → Steps e f → AllValid e → AllValid f
    go (done e) vs = vs
    go (step p q) vs = go q (Step-AllValid p vs)

-- The sequence number is all that `parse` takes from the engine.
with_seq : ℕ → Result (Option BookOrder) → Result (Option BookOrder)
with_seq seq (err e) = err e
with_seq seq (ok none) = ok none
with_seq seq (ok (some o)) = ok (some (record o { seq = seq }))

parse_priced-with_seq :
    (s t : ℕ) (p : Accepted) (symbol : ℕ) (side : Side) (n : ℕ) (r : Result (Option OrderType))
    → parse_priced p t symbol side n r ≡ with_seq t (parse_priced p s symbol side n r)
unfolding parse_priced parse_order with_seq
parse_priced-with_seq s t p symbol side n (err e) = refl
parse_priced-with_seq s t p symbol side n (ok none) = refl
parse_priced-with_seq s t p symbol side n (ok (some type)) = ground arith

parse-with_seq : (s t : ℕ) (p : Accepted) → parse t p ≡ with_seq t (parse s p)
unfolding parse parse_checked with_seq
parse-with_seq s t p = go (checked p)
  where
    go :
        (c : Option (ℕ × Side × TypeWord × ℕ))
        → parse_checked t p c ≡ with_seq t (parse_checked s p c)
    go none = refl
    go (some (symbol, side, word, n)) =
        parse_priced-with_seq s t p symbol side n (parse_type word p.price)

-- The same but for the sequence number.
abbrev pub IsSame : Engine → Engine → Type 0
IsSame e f = (f.books ≡ e.books) × (f.outbox ≡ e.outbox) × (f.seen_orders ≡ e.seen_orders)

accept_known :
    (o : BookOrder) (e : Engine)
    → is_some ((e.books o.symbol).index o.order_id) || member o.order_id e.seen_orders ≡ true
    → IsSame e (accept o e)
unfolding accept
accept_known o e h = rw (h, if◌then◌else◌) (refl, refl, refl)

accept_new :
    (o : BookOrder) (e : Engine)
    → is_some ((e.books o.symbol).index o.order_id) || member o.order_id e.seen_orders ≡ false
    → member o.order_id (accept o e).seen_orders ≡ true
unfolding accept
accept_new o e h =
    rw (h, if◌then◌else◌)
      ((remember_lasts o.order_id [] e.seen_orders (ground arith) (omega arith)).0)

known_after :
    (o : BookOrder) (e : Engine)
    → let f = accept o e in
      is_some ((f.books o.symbol).index o.order_id) || member o.order_id f.seen_orders ≡ true
known_after o e =
    elim (Bool-cases
      (is_some ((e.books o.symbol).index o.order_id) || member o.order_id e.seen_orders)) [
        | inl old ↦ let q = accept_known o e old in rw (q.0, q.2) old
        | inr new ↦ let m = accept_new o e new in ground arith
      ]

accept_parsed_again :
    (e : Engine) (r : Result (Option BookOrder)) (t : ℕ)
    → let e1 = (accept_parsed e r).0 in IsSame e1 (accept_parsed e1 (with_seq t r)).0
unfolding accept_parsed with_seq
accept_parsed_again e (err x) t = (refl, refl, refl)
accept_parsed_again e (ok none) t = (refl, refl, refl)
accept_parsed_again e (ok (some o)) t =
    let f = accept o (record e { seq = o.seq }) in
    accept_known (record o { seq = t }) (record f { seq = t })
      (known_after o (record e { seq = o.seq }))

-- A second delivery of an order.accepted event, right after the first, publishes nothing and
-- leaves every book and what is remembered as they are.
pub accepted_twice :
    (p : Accepted) (e : Engine)
    → let e1 = (handle_order_accepted p e).0 in IsSame e1 (handle_order_accepted p e1).0
unfolding handle_order_accepted
accepted_twice p e =
    let e1 = (handle_order_accepted p e).0 in
    rw (parse-with_seq (suc e.seq) (suc e1.seq) p)
      (accept_parsed_again e (parse (suc e.seq) p) (suc e1.seq))

pub cancel-index : (book : OrderBook) (id : ℕ) → (cancel book id).0.index id ≡ none
unfolding cancel cancel_at
cancel-index book id = elim (Option-cases (book.index id)) [
  | inl gone ↦ rw (gone, cancel) gone
  | inr (o, held) ↦ rw (held, cancel) (ground arith)
]

pub cancel-none : (book : OrderBook) (id : ℕ) → book.index id ≡ none → cancel book id ≡ (book, none)
unfolding cancel
cancel-none book id h = rw (h, cancel) refl

abbrev pub request : ℕ → ℕ → ℕ → CancelRequested
request id user symbol = record { order_id = some id; user_id = some user; symbol = some symbol }

-- After any order.cancel_requested for an order, the answer to a second one right after it, with
-- no delivery in between, is cancel.rejected, with ALREADY_FILLED if the order is remembered and
-- NOT_IN_BOOK if not, and the book does not change.
pub cancel_twice :
    (id user symbol : ℕ) (e : Engine)
    → let e1 = (handle_cancel_requested (request id user symbol) e).0 in
      let e2 = (handle_cancel_requested (request id user symbol) e1).0 in
      let reason = if member id e.seen_orders then already_filled else not_in_book in
      (e2.outbox ≡ e1.outbox ++ cancel_rejected (some id) (some user) reason ∷ [])
      × (e2.books symbol ≡ e1.books symbol)
unfolding handle_cancel_requested cancel_in cancel_id cancel_answer reject_reason
cancel_twice id user symbol e =
    let book = (cancel (e.books symbol) id).0 in
    let same : (symbol == symbol) ≡ true = ground arith in
    rw (same, if◌then◌else◌, cancel-none book id (cancel-index (e.books symbol) id)) (refl, refl)
