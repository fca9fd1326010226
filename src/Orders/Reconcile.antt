-- ===== src/Orders/Reconcile.antt =====
-- After a restart: `startup_reconciliation` of services/order-service/app/handlers.py. New rows go
-- to the end of the table, so that its order is that of `created_at`; `is_old` tells which orders
-- were created before the cutoff. A failed release is only logged; a failed publish ends the run.
mod Tests
use mini_stock_exchange_plat.Base.{
  ℕ, ◌+◌, ◌-◌, ◌<◌, ◌≤◌, ◌≡◌, refl, sym, subst, ap, ◌∙◌, Bool, true, false, not, ◌||◌, ◌&&◌, Option,
  none, some, List, [], ◌∷◌, ◌++◌, ◌==◌, leb, if◌then◌else◌, arith, Bool-cases, inl, inr, ◌⊎◌,
}
use mini_stock_exchange_plat.Base.Dict.{Dict, lookup}
use mini_stock_exchange_plat.Events.Once.{member}
use mini_stock_exchange_plat.Orders.Status.{
  Status, pending, rejected, is_open, is_allowed, Order, OrderEvent, Db, service_restart,
}
use mini_stock_exchange_plat.Orders.Place.{
  Outside, Event, order_accepted, World, release, drop_hold,
}

abbrev pub is_pending : Status → Bool
is_pending pending = true
is_pending _ = false

abbrev pub is_stale : (ℕ → Bool) → Order → Bool
is_stale is_old o = is_pending o.status && is_old o.id

-- What `transition` and the reason leave in a row, and in the audit trail.
abbrev pub abandoned : Order → Order
abandoned o = record o {
  status = if is_allowed o.status rejected then rejected else o.status;
  reject_reason = some service_restart;
}

abbrev pub abandoned_event : Order → OrderEvent
abandoned_event o = record { order_id = o.id; from_status = some o.status; to_status = rejected }

unfoldable pub reject_rows : (ℕ → Bool) → Dict Order → Dict Order
reject_rows is_old [] = []
reject_rows is_old ((key, o) ∷ rows) =
    (key, if is_stale is_old o then abandoned o else o) ∷ reject_rows is_old rows

-- The loop over the abandoned orders: the holds and the audit trail.
unfoldable pub abandon : Outside → Order → World → World
abandon out o w =
    let w' = release out o.id w in
    record w' { db = record w'.db { order_events = w'.db.order_events ++ abandoned_event o ∷ [] } }

unfoldable pub abandon_all : Outside → (ℕ → Bool) → Dict Order → World → World
abandon_all out is_old [] w = w
abandon_all out is_old ((key, o) ∷ rows) w =
    abandon_all out is_old rows (if is_stale is_old o then abandon out o w else w)

unfoldable pub reject_stale : Outside → (ℕ → Bool) → World → World
reject_stale out is_old w =
    let w' = abandon_all out is_old w.db.orders w in
    record w' { db = record w'.db { orders = reject_rows is_old w.db.orders } }

-- The second loop: what remains of the open orders is announced again.
unfoldable pub announcements : Dict Order → List Event
announcements [] = []
announcements ((key, o) ∷ rows) =
    let rest = announcements rows in
    if is_open o.status && not (leb o.quantity o.filled_quantity)
    then order_accepted (record o { quantity = o.quantity - o.filled_quantity }) ∷ rest
    else rest

unfoldable pub republish : Outside → World → World
republish out w =
    if out.accepted_sent then record w { outbox = w.outbox ++ announcements w.db.orders } else w

unfoldable pub startup_reconciliation : Outside → (ℕ → Bool) → World → World
startup_reconciliation out is_old w = republish out (reject_stale out is_old w)

-- A row after the run, by the row before.
abbrev pub RowAfter : (ℕ → Bool) → Option Order → Option Order → Type 0
RowAfter is_old none after = after ≡ none
RowAfter is_old (some o) after =
    after
    ≡ some (
        if is_stale is_old o
        then record o { status = rejected; reject_reason = some service_restart }
        else o)

-- The announcements of rows: of the open ones that are not filled, in order, each for a quantity
-- that with what is filled makes the order's.
pub data Announces : Dict Order → List Event → Type 0 where
  no_rows : Announces [] []
  passes :
      (key : ℕ) (o : Order) {rows : Dict Order} {es : List Event}
      → (is_open o.status ≡ false) ⊎ (o.quantity ≤ o.filled_quantity)
      → Announces rows es
      → Announces ((key, o) ∷ rows) es
  announces :
      (key : ℕ) (o : Order) (n : ℕ) {rows : Dict Order} {es : List Event}
      → is_open o.status ≡ true
      → 0 < n
      → o.filled_quantity + n ≡ o.quantity
      → Announces rows es
      → Announces ((key, o) ∷ rows) (order_accepted (record o { quantity = n }) ∷ es)

abbrev pub has_stale : (ℕ → Bool) → ℕ → Dict Order → Bool
has_stale is_old id [] = false
has_stale is_old id ((key, o) ∷ rows) = is_stale is_old o && o.id == id || has_stale is_old id rows

-- What the run leaves: every row as it was but for the abandoned ones, no hold of an abandoned
-- order and every other hold, and the announcements of the rows that were open.
pub record IsReconciled (is_old : ℕ → Bool) (w w' : World) : Type 0 where
  pub row_after : (key : ℕ) → RowAfter is_old (lookup key w.db.orders) (lookup key w'.db.orders)
  pub released_hold : (id : ℕ) → has_stale is_old id w.db.orders ≡ true → member id w'.holds ≡ false
  pub kept_hold :
      (id : ℕ) → has_stale is_old id w.db.orders ≡ false → member id w'.holds ≡ member id w.holds
  pub news : List Event
  pub sent : w'.outbox ≡ w.outbox ++ news
  pub announced : Announces w.db.orders news

rejected_pending :
    (s : Status) → is_pending s ≡ true → (if is_allowed s rejected then rejected else s) ≡ rejected
rejected_pending pending h = refl
rejected_pending _ h = ground (arith, h)

announcements-Announces : (rows : Dict Order) → Announces rows (announcements rows)
unfolding announcements
announcements-Announces [] = no_rows
announcements-Announces ((key, o) ∷ rows) =
    let ih = announcements-Announces rows in
    elim (Bool-cases (is_open o.status)) [
      | inr closed ↦ rw (closed, if◌then◌else◌) (passes key o (inl closed) ih)
      | inl live ↦ elim (Bool-cases (leb o.quantity o.filled_quantity)) [
        | inl filled ↦ rw (live, filled, if◌then◌else◌) (passes key o (inr (ground arith)) ih)
        | inr unfilled ↦
            rw (live, unfilled, if◌then◌else◌)
              (announces key o (o.quantity - o.filled_quantity) live (ground arith) (ground arith)
                ih)
      ]
    ]

is_pending_of :
    (is_old : ℕ → Bool) (o : Order) → is_stale is_old o ≡ true → is_pending o.status ≡ true
is_pending_of is_old o h = ground (arith, h)

lookup-reject_rows :
    (is_old : ℕ → Bool) (key : ℕ) (rows : Dict Order)
    → RowAfter is_old (lookup key rows) (lookup key (reject_rows is_old rows))
unfolding reject_rows
lookup-reject_rows is_old key [] = refl
lookup-reject_rows is_old key ((other, o) ∷ rows) = elim (Bool-cases (key == other)) [
  | inl here ↦
      rw (here, if◌then◌else◌)
        (elim (Bool-cases (is_stale is_old o)) [
          | inl stale ↦
              rw (stale, if◌then◌else◌)
                (ap (λ s. some (record o { status = s; reject_reason = some service_restart }))
                  (rejected_pending o.status (is_pending_of is_old o stale)))
          | inr fresh ↦ rw (fresh, if◌then◌else◌) refl
        ])
  | inr there ↦ rw (there, if◌then◌else◌) (lookup-reject_rows is_old key rows)
]

member-drop_hold :
    (id key : ℕ) (holds : List ℕ)
    → member id (drop_hold key holds) ≡ (if key == id then false else member id holds)
member-drop_hold id key [] = ground arith
member-drop_hold id key (k ∷ holds) = ground (arith, member-drop_hold id key holds)

member-abandon :
    (out : Outside) (id : ℕ) (o : Order) (w : World)
    → out.release_works ≡ true
    → member id (abandon out o w).holds ≡ (if o.id == id then false else member id w.holds)
unfolding abandon
member-abandon out id o w e = rw (e, if◌then◌else◌) (member-drop_hold id o.id w.holds)

member-abandon_all :
    (out : Outside) (is_old : ℕ → Bool) (id : ℕ) (rows : Dict Order) (w : World)
    → out.release_works ≡ true
    → member id (abandon_all out is_old rows w).holds
      ≡ (if has_stale is_old id rows then false else member id w.holds)
unfolding abandon_all abandon
member-abandon_all out is_old id [] w e = refl
member-abandon_all out is_old id ((key, o) ∷ rows) w e = elim (Bool-cases (is_stale is_old o)) [
  | inl stale ↦
      let ih = member-abandon_all out is_old id rows (abandon out o w) e in
      rw (stale, if◌then◌else◌) (ground (arith, ih, member-abandon out id o w e))
  | inr fresh ↦
      let ih = member-abandon_all out is_old id rows w e in
      rw (abandon_all, fresh, if◌then◌else◌) ih
]

outbox-abandon :
    (out : Outside) (o : Order) (w : World) (b : Bool)
    → (if b then abandon out o w else w).outbox ≡ w.outbox
unfolding abandon
outbox-abandon out o w true = ground arith
outbox-abandon out o w false = refl

outbox-abandon_all :
    (out : Outside) (is_old : ℕ → Bool) (rows : Dict Order) (w : World)
    → (abandon_all out is_old rows w).outbox ≡ w.outbox
unfolding abandon_all
outbox-abandon_all out is_old [] w = refl
outbox-abandon_all out is_old ((key, o) ∷ rows) w =
    outbox-abandon_all out is_old rows _ ∙ outbox-abandon out o w (is_stale is_old o)

not_open :
    (s : Status)
    → is_pending s ≡ true
    → (is_open s ≡ false) × (is_open (if is_allowed s rejected then rejected else s) ≡ false)
not_open pending h = (refl, refl)
not_open _ h = ground (arith, h)

announcements-reject_rows :
    (is_old : ℕ → Bool) (rows : Dict Order)
    → announcements (reject_rows is_old rows) ≡ announcements rows
unfolding announcements reject_rows
announcements-reject_rows is_old [] = refl
announcements-reject_rows is_old ((key, o) ∷ rows) =
    let ih = announcements-reject_rows is_old rows in
    elim (Bool-cases (is_stale is_old o)) [
      | inl stale ↦
          let (before, after) = not_open o.status (is_pending_of is_old o stale) in
          rw (stale, if◌then◌else◌) (rw (before, after) ih)
      | inr fresh ↦ rw (fresh, if◌then◌else◌) (ground (arith, ih))
    ]

republish_sent :
    (out : Outside) (w : World)
    → out.accepted_sent ≡ true
    → republish out w ≡ record w { outbox = w.outbox ++ announcements w.db.orders }
unfolding republish
republish_sent out w sent = rw (sent, if◌then◌else◌) refl

-- Where the releases and the publishing work, the reconciliation at start changes of the order
-- rows only those PENDING from before the cutoff, which become REJECTED with SERVICE_RESTART; it
-- leaves no hold of such an order and every other hold, and announces, in the order of the rows,
-- the open ones that are not filled, each with the quantity that is left.
pub startup_reconciliation-IsReconciled :
    (out : Outside) (is_old : ℕ → Bool) (w : World)
    → out.release_works ≡ true
    → out.accepted_sent ≡ true
    → IsReconciled is_old w (startup_reconciliation out is_old w)
unfolding startup_reconciliation reject_stale
startup_reconciliation-IsReconciled out is_old w works sent =
    subst (IsReconciled is_old w) (sym (republish_sent out (reject_stale out is_old w) sent))
      (record {
        row_after = λ key. lookup-reject_rows is_old key w.db.orders;
        released_hold = λ id stale.
            member-abandon_all out is_old id w.db.orders w works ∙ rw (stale, if◌then◌else◌) refl;
        kept_hold = λ id fresh.
            member-abandon_all out is_old id w.db.orders w works ∙ rw (fresh, if◌then◌else◌) refl;
        news = announcements w.db.orders;
        sent = announced_again;
        announced = announcements-Announces w.db.orders;
      })
  where
    announced_again :
        (abandon_all out is_old w.db.orders w).outbox
          ++ announcements (reject_rows is_old w.db.orders)
        ≡ w.outbox ++ announcements w.db.orders
    announced_again =
        ap (λ (sent : List Event). sent ++ announcements (reject_rows is_old w.db.orders))
          (outbox-abandon_all out is_old w.db.orders w)
        ∙ ap (λ (news : List Event). w.outbox ++ news)
            (announcements-reject_rows is_old w.db.orders)
