-- ===== src/Orders/Place/Outcome.antt =====
-- How `place_order` of services/order-service/app/service.py may end.
use mini_stock_exchange_plat.Base.{
  ℕ, ℤ, ◌≡◌, refl, ◌∙◌, ap, true, false, Option, none, some, List, [], ◌∷◌, ◌++◌, ◌||◌, arith, inl,
  inr, ◌⊎◌, both_branches,
}
use mini_stock_exchange_plat.Base.Dict.{lookup, lookup-insert}
use mini_stock_exchange_plat.Events.Once.{member}
use mini_stock_exchange_plat.Orders.Status.{
  Status, pending, new, rejected, Rejection, no_market_price, service_unavailable,
  broker_unavailable, answered, Order, Db, save, transition,
}
use mini_stock_exchange_plat.Orders.Place.{
  PlaceOrderIn, Answer, created, replayed, bad_request, conflict, unavailable, crashed, Step, go,
  stop, invalid, uncaught, Valid, validate, Outside, Event, order_accepted, order_rejected,
  cancel_requested, World, Reserve, reserved, no_price, reserve_crashed, refused_with, failed_call,
  reserve, release, drop_hold, AllRepeatable,
}
use mini_stock_exchange_plat.Orders.Place.Saga.{
  pending_order, persist, moved, reject, announce, advance, landed_hold, after_reserve, submit,
  place_valid, place_checked, place_order, existing,
}
use mini_stock_exchange_plat.Orders.Place.Repeatable.{IsClean, reserve-IsClean}

abbrev pub status_of : Option Order → Option Status
status_of none = none
status_of (some o) = some o.status

-- The status of the row under an id.
abbrev pub status_at : ℕ → World → Option Status
status_at id w = status_of (lookup id w.db.orders)

-- The orders that are announced as accepted.
abbrev pub accepted_ids : List Event → List ℕ
accepted_ids [] = []
accepted_ids (order_accepted o ∷ es) = o.id ∷ accepted_ids es
accepted_ids (order_rejected o r ∷ es) = accepted_ids es
accepted_ids (cancel_requested o ∷ es) = accepted_ids es

-- An order that is under way: NEW, with its hold, and announced to the engine.
pub record IsUnderWay (id : ℕ) (w : World) : Type 0 where
  pub is_new : status_at id w ≡ some new
  pub is_held : member id w.holds ≡ true
  pub is_announced : member id (accepted_ids w.outbox) ≡ true

-- An order that was unwound: REJECTED, without a hold, and never announced as accepted.
pub record IsUnwound (id : ℕ) (w : World) : Type 0 where
  pub is_rejected : status_at id w ≡ some rejected
  pub not_held : member id w.holds ≡ false
  pub not_announced : member id (accepted_ids w.outbox) ≡ false

member-drop_hold : (id : ℕ) (ks : List ℕ) → member id (drop_hold id ks) ≡ false
member-drop_hold id [] = refl
member-drop_hold id (k ∷ ks) = ground (arith, member-drop_hold id ks)

accepted_ids-append :
    (id : ℕ) (es fs : List Event)
    → member id (accepted_ids (es ++ fs))
      ≡ (member id (accepted_ids es) || member id (accepted_ids fs))
accepted_ids-append id [] fs = refl
accepted_ids-append id (order_accepted o ∷ es) fs = ground (arith, accepted_ids-append id es fs)
accepted_ids-append id (order_rejected o r ∷ es) fs = accepted_ids-append id es fs
accepted_ids-append id (cancel_requested o ∷ es) fs = accepted_ids-append id es fs

pub status_at-save :
    (o : Order) (w : World) → status_at o.id (record w { db = save o w.db }) ≡ some o.status
status_at-save o w = ap status_of (lookup-insert o.id o.id o w.db.orders) ∙ ground arith

-- A pending or new order moves to REJECTED, and a pending one to NEW.
moved_rejected :
    (db : Db) (o : Order)
    → (o.status ≡ pending) ⊎ (o.status ≡ new)
    → moved db o rejected ≡ record o { status = rejected }
unfolding transition
moved_rejected db o (inl p) = rw p refl
moved_rejected db o (inr p) = rw p refl

moved_new : (db : Db) (o : Order) → o.status ≡ pending → moved db o new ≡ record o { status = new }
unfolding transition
moved_new db o p = rw p refl

release_gone :
    (out : Outside) (id : ℕ) (w : World)
    → out.release_works ≡ true
    → member id (release out id w).holds ≡ false
release_gone out id w r = rw r (member-drop_hold id w.holds)

release_outbox : (out : Outside) (id : ℕ) (w : World) → (release out id w).outbox ≡ w.outbox
release_outbox out id w = ground arith

-- Whether the outcome fits the answer of a new order.
abbrev pub Fits : ℕ → World → World → Answer → Type 0
Fits id before w (created o) = (o.id ≡ id) × IsUnderWay id w
Fits id before w (replayed o) = w ≡ before
Fits id before w bad_request = w ≡ before
Fits id before w conflict = IsUnwound id w ⊎ (w ≡ before)
Fits id before w unavailable = IsUnwound id w
Fits id before w crashed =
    (member id (accepted_ids w.outbox) ≡ false)
    × ((member id w.holds ≡ false) ⊎ (status_at id w ≡ some pending))

-- What a rejection that commits allows to answer.
abbrev pub FitsUnwound : ℕ → World → Answer → Type 0
FitsUnwound id before answer = (w : World) → IsUnwound id w → Fits id before w answer

-- A rejection of a pending or new order unwinds it, where the hold is gone.
reject-Fits :
    (out : Outside) (o : Order) (reason : Rejection) (before w : World) (answer : Answer)
    → (o.status ≡ pending) ⊎ (o.status ≡ new)
    → member o.id w.holds ≡ false
    → member o.id (accepted_ids w.outbox) ≡ false
    → FitsUnwound o.id before answer
    → let r = reject out o reason w answer in Fits o.id before r.0 r.1
unfolding reject
reject-Fits out o reason before w answer s h a f =
    let m = moved_rejected w.db o s in
    let o' = record o { status = rejected; reject_reason = some reason } in
    both_branches {A = World × Answer} (λ x. Fits o.id before x.0 x.1) out.reject_committed
      (f _ (record {
        is_rejected = rw m (status_at-save o' (record w { db = (transition w.db o rejected).0 }));
        not_held = h;
        not_announced =
            accepted_ids-append o.id w.outbox _
            ∙ rw a (
                both_branches (λ es. member o.id (accepted_ids es) ≡ false) out.rejected_sent refl
                  refl);
      }))
      (a, inl h)

announce-Fits :
    (out : Outside) (o : Order) (before w : World)
    → o.status ≡ new
    → status_at o.id w ≡ some new
    → out.release_works ≡ true
    → member o.id w.holds ≡ true
    → member o.id (accepted_ids w.outbox) ≡ false
    → let r = announce out o w in Fits o.id before r.0 r.1
unfolding announce
announce-Fits out o before w s l r h a =
    let g : (release out o.id w).outbox ≡ w.outbox = ground arith in
    both_branches {A = World × Answer} (λ x. Fits o.id before x.0 x.1) out.accepted_sent
      (
        refl,
        record {
          is_new = l;
          is_held = h;
          is_announced =
              accepted_ids-append o.id w.outbox (order_accepted o ∷ []) ∙ ground (arith, a);
        },
      )
      (reject-Fits out o broker_unavailable before (release out o.id w) unavailable (inr s)
        (release_gone out o.id w r) (rw g a) (λ w u. u))

transition-status_at :
    (db : Db) (o : Order) (w : World)
    → o.status ≡ pending
    → status_at o.id (record w { db = (transition db o new).0 }) ≡ some new
unfolding transition
transition-status_at db o w p =
    rw p (status_at-save (record o { status = new }) (record w { db = db }))

advance_from :
    (out : Outside) (o : Order) (before w : World) (db : Db)
    → o.status ≡ pending
    → out.release_works ≡ true
    → member o.id (accepted_ids w.outbox) ≡ false
    → let r =
        announce out
          (moved db o new)
          (record w { db = (transition db o new).0; holds = o.id ∷ w.holds }) in
      Fits o.id before r.0 r.1
advance_from out o before w db p r a = rw (moved_new db o p) (
    announce-Fits out (record o { status = new }) before
      (record w { db = (transition db o new).0; holds = o.id ∷ w.holds }) refl
      (transition-status_at db o w p) r (ground arith) a)

advance-Fits :
    (out : Outside) (o : Order) (amount : Option ℤ) (before w : World)
    → o.status ≡ pending
    → out.release_works ≡ true
    → status_at o.id w ≡ some pending
    → member o.id (accepted_ids w.outbox) ≡ false
    → let r = advance out o amount w in Fits o.id before r.0 r.1
unfolding advance
advance-Fits out o none before w p r k a =
    both_branches {A = World × Answer} (λ x. Fits o.id before x.0 x.1) out.advance_committed
      (advance_from out o before w _ p r a) (a, inr k)
advance-Fits out o (some amount) before w p r k a =
    both_branches {A = World × Answer} (λ x. Fits o.id before x.0 x.1) out.advance_committed
      (advance_from out (record o { reserved_amount = some amount }) before w _ p r a) (a, inr k)

after_reserve-Fits :
    (out : Outside) (o : Order) (before w : World) (result : Reserve)
    → IsClean result
    → o.status ≡ pending
    → out.release_works ≡ true
    → status_at o.id w ≡ some pending
    → member o.id w.holds ≡ false
    → member o.id (accepted_ids w.outbox) ≡ false
    → let r = after_reserve out o w result in Fits o.id before r.0 r.1
unfolding after_reserve
after_reserve-Fits out o before w (reserved amount) c p r k h a =
    advance-Fits out o amount before w p r k a
after_reserve-Fits out o before w no_price c p r k h a =
    reject-Fits out o no_market_price before w conflict (inl p) h a (λ w u. inl u)
after_reserve-Fits out o before w reserve_crashed c p r k h a = (a, inl h)
after_reserve-Fits out o before w (refused_with detail landed) c p r k h a =
    rw c (reject-Fits out o (answered detail) before w conflict (inl p) h a (λ w u. inl u))
after_reserve-Fits out o before w (failed_call landed) c p r k h a =
    let w1 = landed_hold landed o.id w in
    let e : (release out o.id w1).outbox ≡ w.outbox = ground arith in
    reject-Fits out o service_unavailable before (release out o.id w1) unavailable (inl p)
      (release_gone out o.id w1 r) (rw e a) (λ w u. u)

submit-Fits :
    (out : Outside) (o : Order) (w : World) (raced : Option (Option Order))
    → AllRepeatable out
    → o.status ≡ pending
    → out.release_works ≡ true
    → member o.id w.holds ≡ false
    → member o.id (accepted_ids w.outbox) ≡ false
    → let r = submit out o w raced in Fits o.id w r.0 r.1
unfolding submit
submit-Fits out o w (some (some winner)) c p r h a = refl
submit-Fits out o w (some none) c p r h a = inr refl
submit-Fits out o w none c p r h a =
    after_reserve-Fits out o w (persist o w) (reserve out o) (reserve-IsClean out o c) p r
      (status_at-save o w ∙ ap some p) h a

place_valid-Fits :
    (out : Outside) (id user : ℕ) (client : Option ℕ) (w : World) (v : Valid) (old : Option Order)
    → AllRepeatable out
    → out.release_works ≡ true
    → member id w.holds ≡ false
    → member id (accepted_ids w.outbox) ≡ false
    → let r = place_valid out id user client w v old in Fits id w r.0 r.1
unfolding place_valid
place_valid-Fits out id user client w v (some o) c r h a = refl
place_valid-Fits out id user client w v none c r h a =
    submit-Fits out (pending_order id user client v) w out.raced c refl r h a

place_checked-Fits :
    (out : Outside) (id user : ℕ) (body : PlaceOrderIn) (w : World) (checked : Step Valid)
    → AllRepeatable out
    → out.release_works ≡ true
    → member id w.holds ≡ false
    → member id (accepted_ids w.outbox) ≡ false
    → let r = place_checked out id user body w checked in Fits id w r.0 r.1
unfolding place_checked
place_checked-Fits out id user body w (stop invalid) c r h a = refl
place_checked-Fits out id user body w (stop uncaught) c r h a = (a, inl h)
place_checked-Fits out id user body w (go v) c r h a =
    place_valid-Fits out id user body.client_order_id w v (existing user body.client_order_id w.db)
      c r h a

-- Placing an order is all or nothing: for an order id that is new to the services and the broker,
-- whatever these answer, if a release that is asked for works and no 409 comes after a hold that
-- has landed, a created order is NEW, has its hold and is announced as accepted; after a 503 the
-- order is REJECTED, has no hold and was not announced as accepted; after a 409 that is so or
-- nothing has changed; after a replay or a 400 nothing has changed; after any other exception, a
-- commit that fails included, the order was not announced, and it has no hold or is PENDING.
pub place_order-Fits :
    (out : Outside) (id user : ℕ) (body : PlaceOrderIn) (w : World)
    → AllRepeatable out
    → out.release_works ≡ true
    → member id w.holds ≡ false
    → member id (accepted_ids w.outbox) ≡ false
    → let r = place_order out id user body w in Fits id w r.0 r.1
unfolding place_order
place_order-Fits out id user body w c r h a =
    place_checked-Fits out id user body w (validate body) c r h a
