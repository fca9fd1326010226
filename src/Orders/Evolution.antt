-- ===== src/Orders/Evolution.antt =====
-- How a row of `orders` may change under the event consumers
-- (services/order-service/app/handlers.py).
use mini_stock_exchange_plat.Base.{
  ℕ, ◌≤◌, ◌<◌, ◌≡◌, refl, sym, ◌∙◌, ap, true, false, Option, none, some, arith, ◌==◌, if◌then◌else◌,
  Bool-cases, inl, inr, ◌⊎◌,
}
use mini_stock_exchange_plat.Base.Dict.{lookup, lookup-insert}
use mini_stock_exchange_plat.Orders.Status.{Status, is_terminal, is_allowed, Order, Db, save}

-- A path of allowed edges.
pub data StatusPath : Status → Status → Type 0 where
  here : (a : Status) → StatusPath a a
  next : (a : Status) {b c : Status} → is_allowed a b ≡ true → StatusPath b c → StatusPath a c

pub StatusPath-trans : {a b c : Status} → StatusPath a b → StatusPath b c → StatusPath a c
StatusPath-trans (here a) q = q
StatusPath-trans (next a e p) q = next a e (StatusPath-trans p q)

-- What a later state of an order has kept of an earlier one.
pub record IsLater (o o' : Order) : Type 0 where
  pub same_id : o'.id ≡ o.id
  pub same_user : o'.user_id ≡ o.user_id
  pub same_side : o'.side ≡ o.side
  pub same_type : o'.order_type ≡ o.order_type
  pub same_quantity : o'.quantity ≡ o.quantity
  pub fills_grow : o.filled_quantity ≤ o'.filled_quantity
  pub fills_bound : o'.filled_quantity ≤ o'.quantity
  pub terminal_stays : is_terminal o.status ≡ true → o'.status ≡ o.status
  pub edges : StatusPath o.status o'.status

-- A row before and after: no row comes or goes.
abbrev pub RowMoves : Option Order → Option Order → Type 0
RowMoves none none = Unit
RowMoves none (some o') = ⊥
RowMoves (some o) none = ⊥
RowMoves (some o) (some o') = IsLater o o'

abbrev pub Evolves : Db → Db → Type 0
Evolves db db' = (j : ℕ) → RowMoves (lookup j db.orders) (lookup j db'.orders)

-- The key of a row is its id, and its fills are within its size.
pub record IsRow (j : ℕ) (o : Order) : Type 0 where
  pub keyed : o.id ≡ j
  pub bounded : o.filled_quantity ≤ o.quantity
  pub sized : 0 < o.quantity

abbrev pub AllRows : Db → Type 0
AllRows db = (j : ℕ) (o : Order) → lookup j db.orders ≡ some o → IsRow j o

IsLater-refl : (o : Order) → o.filled_quantity ≤ o.quantity → IsLater o o
IsLater-refl o b = record {
  same_id = refl;
  same_user = refl;
  same_side = refl;
  same_type = refl;
  same_quantity = refl;
  fills_grow = omega arith;
  fills_bound = b;
  terminal_stays = λ _. refl;
  edges = here o.status;
}

IsLater-trans : {a b c : Order} → IsLater a b → IsLater b c → IsLater a c
IsLater-trans p q = record {
  same_id = q.same_id ∙ p.same_id;
  same_user = q.same_user ∙ p.same_user;
  same_side = q.same_side ∙ p.same_side;
  same_type = q.same_type ∙ p.same_type;
  same_quantity = q.same_quantity ∙ p.same_quantity;
  fills_grow = omega arith;
  fills_bound = q.fills_bound;
  terminal_stays =
      λ t. q.terminal_stays (ap is_terminal (p.terminal_stays t) ∙ t) ∙ p.terminal_stays t;
  edges = StatusPath-trans p.edges q.edges;
}

pub row_refl : (db : Db) → AllRows db → Evolves db db
row_refl db rows j = go (lookup j db.orders) (rows j)
  where
    go : (r : Option Order) → ((o : Order) → r ≡ some o → IsRow j o) → RowMoves r r
    go none f = tt
    go (some o) f = IsLater-refl o (f o refl).bounded

RowMoves-trans : (a b c : Option Order) → RowMoves a b → RowMoves b c → RowMoves a c
RowMoves-trans none none none p q = tt
RowMoves-trans none none (some c) p q = q
RowMoves-trans none (some b) c p q = absurd p
RowMoves-trans (some a) none c p q = absurd p
RowMoves-trans (some a) (some b) none p q = q
RowMoves-trans (some a) (some b) (some c) p q = IsLater-trans p q

pub Evolves-trans : (a b c : Db) → Evolves a b → Evolves b c → Evolves a c
Evolves-trans a b c p q j = RowMoves-trans _ (lookup j b.orders) _ (p j) (q j)

-- Saving a later state of one order.
pub save-Evolves :
    (db : Db) (o o' : Order)
    → AllRows db
    → lookup o.id db.orders ≡ some o
    → IsLater o o'
    → Evolves db (save o' db)
save-Evolves db o o' rows e l j =
    rw (lookup-insert j o'.id o' db.orders) (go (Bool-cases (j == o'.id)))
  where
    go :
        (j == o'.id ≡ true) ⊎ (j == o'.id ≡ false)
        → RowMoves (lookup j db.orders) (if j == o'.id then some o' else lookup j db.orders)
    go (inl hit) = let k : j ≡ o.id = ground (arith, l.same_id) in rw (hit, k, e) l
    go (inr miss) = rw miss (row_refl db rows j)

IsRow-later : {o o' : Order} → IsRow o.id o → IsLater o o' → IsRow o'.id o'
IsRow-later r l = record {
  keyed = refl;
  bounded = l.fills_bound;
  sized = let e = l.same_quantity in let s = r.sized in omega arith;
}

-- Such a row is a row again.
pub save-AllRows :
    (db : Db) (o o' : Order) → AllRows db → IsRow o.id o → IsLater o o' → AllRows (save o' db)
save-AllRows db o o' rows r l j u h = go (Bool-cases (j == o'.id))
  where
    at : (if j == o'.id then some o' else lookup j db.orders) ≡ some u
    at = sym (lookup-insert j o'.id o' db.orders) ∙ h

    go : (j == o'.id ≡ true) ⊎ (j == o'.id ≡ false) → IsRow j u
    go (inl hit) =
        let k : j ≡ o'.id = ground arith in
        let q : o' ≡ u = ground (arith, at) in rw (k, sym q) (IsRow-later r l)
    go (inr miss) = rows j u (ground (arith, at))
