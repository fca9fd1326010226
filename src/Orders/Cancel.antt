-- ===== src/Orders/Cancel.antt =====
-- Asking for a cancellation: `_owned` and `cancel_order` of services/order-service/app/routes.py.
-- `sent` is whether the broker takes the message.
use mini_stock_exchange_plat.Base.{
  ℕ, ◌≡◌, refl, sym, ◌∙◌, ap, Bool, true, false, Option, none, some, [], ◌∷◌, ◌++◌, ◌==◌,
  if◌then◌else◌, arith, inl, inr, both_branches, subst, ◌⊎◌,
}
use mini_stock_exchange_plat.Base.Dict.{lookup}
use mini_stock_exchange_plat.Orders.Status.{
  Status, new, partially_filled, cancel_pending, is_open, is_allowed, Order, transition,
}
use mini_stock_exchange_plat.Orders.Place.{cancel_requested, World}
use mini_stock_exchange_plat.Orders.Place.Outcome.{status_at, status_of, status_at-save}

pub data CancelAnswer : Type 0 where
  accepted not_found forbidden conflict unavailable : CancelAnswer

-- The request was not sent: back to the status before.
abbrev pub undo : Order → World → World
undo order w = record w {
  db = (transition w.db (record order { status = cancel_pending }) order.status).0;
}

-- Phase one, of an order that may be cancelled.
request_cancel : Bool → Order → World → World × CancelAnswer
request_cancel sent order w =
    let w1 = record w { db = (transition w.db order cancel_pending).0 } in
    if sent
    then (record w1 { outbox = w.outbox ++ cancel_requested order ∷ [] }, accepted)
    else (undo order w1, unavailable)

cancel_owned : Bool → ℕ → Option Order → World → World × CancelAnswer
cancel_owned sent user none w = (w, not_found)
cancel_owned sent user (some order) w =
    if order.user_id == user
    then (if is_open order.status then request_cancel sent order w else (w, conflict))
    else (w, forbidden)

unfoldable pub cancel_order : Bool → ℕ → ℕ → World → World × CancelAnswer
unfolding cancel_owned request_cancel
cancel_order sent id user w = cancel_owned sent user (lookup id w.db.orders) w

-- How a request to cancel may end.
abbrev pub Fits : ℕ → World → World → CancelAnswer → Type 0
Fits id before w accepted =
    (status_at id w ≡ some cancel_pending)
    × ((status_at id before ≡ some new) ⊎ (status_at id before ≡ some partially_filled))
    × ((o : Order) × (o.id ≡ id) × (w.outbox ≡ before.outbox ++ cancel_requested o ∷ []))
Fits id before w _ = (status_at id w ≡ status_at id before) × (w.outbox ≡ before.outbox)

transition-status_at :
    (w : World) (o : Order) (to : Status)
    → is_allowed o.status to ≡ true
    → status_at o.id (record w { db = (transition w.db o to).0 }) ≡ some to
unfolding transition
transition-status_at w o to h = rw h (status_at-save (record o { status = to }) w)

open_status : (s : Status) → is_open s ≡ true → (s ≡ new) ⊎ (s ≡ partially_filled)
open_status s h = ground arith

request_cancel-Fits :
    (sent : Bool) (o : Order) (w : World)
    → lookup o.id w.db.orders ≡ some o
    → is_open o.status ≡ true
    → let r = request_cancel sent o w in Fits o.id w r.0 r.1
unfolding request_cancel
request_cancel-Fits sent o w e h =
    let before : status_at o.id w ≡ some o.status = ap status_of e in
    let was_open : (o.status ≡ new) ⊎ (o.status ≡ partially_filled)
        → (status_at o.id w ≡ some new) ⊎ (status_at o.id w ≡ some partially_filled) =
      λ c. elim c [ inl n ↦ inl (before ∙ ap some n) | inr n ↦ inr (before ∙ ap some n) ] in
    let w1 : World = record w { db = (transition w.db o cancel_pending).0 } in
    both_branches {A = World × CancelAnswer} (λ x. Fits o.id w x.0 x.1) sent
      (
        transition-status_at w o cancel_pending (ground arith),
        was_open (open_status o.status h),
        (o, refl, refl),
      )
      (
        transition-status_at w1 (record o { status = cancel_pending }) o.status (ground arith)
            ∙ sym before,
        refl,
      )

-- Where an order's row stands under its id, a cancellation that is accepted has found the order
-- NEW or PARTIALLY_FILLED, leaves it CANCEL_PENDING and sends order.cancel_requested; with any
-- other answer, also where the message could not be sent, the order's status is what it was and
-- nothing was sent.
pub cancel_order-Fits :
    (sent : Bool) (id user : ℕ) (w : World)
    → ((o : Order) → lookup id w.db.orders ≡ some o → o.id ≡ id)
    → let r = cancel_order sent id user w in Fits id w r.0 r.1
unfolding cancel_order cancel_owned
cancel_order-Fits sent id user w keyed = go (lookup id w.db.orders) refl
  where
    own :
        (o : Order)
        → lookup id w.db.orders ≡ some o
        → (b : Bool) → is_open o.status ≡ b
        → let r = if b then request_cancel sent o w else (w, conflict) in Fits id w r.0 r.1
    own o e false h = (refl, refl)
    own o e true h =
        let k : o.id ≡ id = keyed o e in
        subst (λ j. let r = request_cancel sent o w in Fits j w r.0 r.1) k
          (request_cancel-Fits sent o w (ap (λ j. lookup j w.db.orders) k ∙ e) h)

    go :
        (u : Option Order)
        → lookup id w.db.orders ≡ u
        → let r = cancel_owned sent user u w in Fits id w r.0 r.1
    go none e = (refl, refl)
    go (some o) e =
        both_branches {A = World × CancelAnswer} (λ r. Fits id w r.0 r.1) (o.user_id == user)
          (own o e (is_open o.status) refl) (refl, refl)
