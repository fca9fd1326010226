-- ===== src/Orders/Fills/Moves.antt =====
-- What the event consumers of services/order-service/app/handlers.py may do to an order.
use mini_stock_exchange_plat.Base.{
  ℕ, ◌≤◌, ◌<◌, ◌≡◌, refl, ◌∙◌, ap, ℤ, Bool, true, false, Option, none, some, [], ◌∷◌, arith, ◌==◌,
  both_branches,
}
use mini_stock_exchange_plat.Base.Dict.{Dict, lookup, insert, lookup-insert}
use mini_stock_exchange_plat.Orders.Status.{
  Status, pending, new, partially_filled, filled, cancel_pending, cancelled, rejected, is_terminal,
  is_allowed, Order, Db, save, transition,
}
use mini_stock_exchange_plat.Orders.Evolution.{
  here, next, IsLater, Evolves, Evolves-trans, row_refl, AllRows, save-Evolves, save-AllRows,
}
use mini_stock_exchange_plat.Orders.Fills.{
  new_filled, add_fill, fill_order, TradePayload, trade_work, cancel_order, cancelled_work,
  cancel_rejected_work, restore_order, restored, locked, accepts,
}

-- The tables after a step: every row has moved as it may and is a row, and no check constraint is
-- violated that was not.
pub record Keeps (db db' : Db) : Type 0 where
  pub evolves : Evolves db db'
  pub rows : AllRows db'
  pub accepted : accepts db.orders ≡ true → accepts db'.orders ≡ true

pub Keeps-refl : (db : Db) → AllRows db → Keeps db db
Keeps-refl db rows = record { evolves = row_refl db rows; rows = rows; accepted = λ h. h }

pub Keeps-trans : {a b c : Db} → Keeps a b → Keeps b c → Keeps a c
Keeps-trans {a} {b} {c} p q = record {
  evolves = Evolves-trans a b c p.evolves q.evolves;
  rows = q.rows;
  accepted = λ h. q.accepted (p.accepted h);
}

accepts-insert :
    (k : ℕ) (o : Order) (orders : Dict Order)
    → o.filled_quantity ≤ o.quantity
    → 0 < o.quantity
    → accepts orders ≡ true
    → accepts (insert k o orders) ≡ true
accepts-insert k o [] b s h = ground arith
accepts-insert k o (e ∷ orders) b s h = ground (arith, accepts-insert k o orders b s)

save-Keeps :
    (db : Db) (o o' : Order)
    → AllRows db
    → lookup o.id db.orders ≡ some o
    → IsLater o o'
    → Keeps db (save o' db)
save-Keeps db o o' rows e l = record {
  evolves = save-Evolves db o o' rows e l;
  rows = save-AllRows db o o' rows (rows o.id o e) l;
  accepted =
      let q = l.same_quantity in
      let r = (rows o.id o e).sized in
      accepts-insert o'.id o' db.orders l.fills_bound (omega arith);
}

-- No edge leaves a terminal status.
terminal_stays : (a b : Status) → is_allowed a b ≡ true → is_terminal a ≡ true → b ≡ a
terminal_stays a b h t = ground arith

transition-Keeps :
    (db : Db) (o : Order) (to : Status)
    → AllRows db
    → lookup o.id db.orders ≡ some o
    → Keeps db (transition db o to).0
unfolding transition
transition-Keeps db o to rows e = go (is_allowed o.status to) refl
  where
    moved : is_allowed o.status to ≡ true → IsLater o (record o { status = to })
    moved a = record {
      same_id = refl;
      same_user = refl;
      same_side = refl;
      same_type = refl;
      same_quantity = refl;
      fills_grow = omega arith;
      fills_bound = (rows o.id o e).bounded;
      terminal_stays = terminal_stays o.status to a;
      edges = next o.status a (here to);
    }

    go : (b : Bool) → is_allowed o.status to ≡ b → Keeps db (transition db o to).0
    go true a =
        let k = save-Keeps db o (record o { status = to }) rows e (moved a) in
        rw a (record { evolves = k.evolves; rows = k.rows; accepted = k.accepted })
    go false a = rw a (Keeps-refl db rows)

locked-found :
    (db : Db) (r : Option ℕ) (o : Order)
    → AllRows db
    → locked db r ≡ some o
    → lookup o.id db.orders ≡ some o
locked-found db none o rows h = cc
locked-found db (some id) o rows h = ap (λ j. lookup j db.orders) (rows id o h).keyed ∙ h

add_fill-IsLater :
    (o : Order) (n : ℕ) (price : ℤ)
    → o.filled_quantity ≤ o.quantity
    → IsLater o (add_fill o n price)
add_fill-IsLater o n price b = record {
  same_id = refl;
  same_user = refl;
  same_side = refl;
  same_type = refl;
  same_quantity = refl;
  fills_grow = ground arith;
  fills_bound = ground arith;
  terminal_stays = λ _. refl;
  edges = here o.status;
}

fill_order-Keeps :
    (n : ℕ) (price : ℤ) (db : Db) (r : Option ℕ)
    → AllRows db
    → Keeps db (fill_order n price db (locked db r))
unfolding fill_order
fill_order-Keeps n price db r rows = go (locked db r) refl
  where
    go : (u : Option Order) → locked db r ≡ u → Keeps db (fill_order n price db u)
    go none h = Keeps-refl db rows
    go (some o) h =
        let e = locked-found db r o rows h in
        let o' = add_fill o n price in
        let k = save-Keeps db o o' rows e (add_fill-IsLater o n price (rows o.id o e).bounded) in
        let f : lookup o.id (save o' db).orders ≡ some o' =
          rw (lookup-insert o.id o.id o' db.orders) (ground arith) in
        let m : (to : Status) → Keeps db (transition (save o' db) o' to).0 =
          λ to. Keeps-trans k (transition-Keeps (save o' db) o' to k.rows f) in
        both_branches (Keeps db) (new_filled o n == 0) (Keeps-refl db rows)
          (both_branches (Keeps db) (is_terminal o.status) k (m _))

pub trade_work-Keeps : (p : TradePayload) (db : Db) → AllRows db → Keeps db (trade_work p db)
unfolding trade_work
trade_work-Keeps p db rows =
    let k = fill_order-Keeps p.quantity p.price db p.buy_order_id rows in
    both_branches (Keeps db) (p.quantity == 0) (Keeps-refl db rows)
      (Keeps-trans k (fill_order-Keeps p.quantity p.price _ p.sell_order_id k.rows))

pub cancelled_work-Keeps : (r : Option ℕ) (db : Db) → AllRows db → Keeps db (cancelled_work r db)
unfolding cancelled_work cancel_order
cancelled_work-Keeps r db rows = go (locked db r) refl
  where
    go : (u : Option Order) → locked db r ≡ u → Keeps db (cancel_order db u)
    go none h = Keeps-refl db rows
    go (some o) h = transition-Keeps db o cancelled rows (locked-found db r o rows h)

pub cancel_rejected_work-Keeps :
    (r : Option ℕ) (db : Db) → AllRows db → Keeps db (cancel_rejected_work r db)
unfolding cancel_rejected_work restore_order
cancel_rejected_work-Keeps r db rows = go (locked db r) refl
  where
    back :
        (o : Order) (s : Status)
        → lookup o.id db.orders ≡ some o
        → Keeps db (elim s [ cancel_pending ↦ (transition db o (restored o)).0 | _ ↦ db ])
    back o cancel_pending e = transition-Keeps db o (restored o) rows e
    back o pending e = Keeps-refl db rows
    back o new e = Keeps-refl db rows
    back o partially_filled e = Keeps-refl db rows
    back o filled e = Keeps-refl db rows
    back o cancelled e = Keeps-refl db rows
    back o rejected e = Keeps-refl db rows

    go : (u : Option Order) → locked db r ≡ u → Keeps db (restore_order db u)
    go none h = Keeps-refl db rows
    go (some o) h = back o o.status (locked-found db r o rows h)
