-- ===== src/Orders/Reconcile/Tests.antt =====
-- A restart of the Order Service with an abandoned and an open order, and a witness.
use mini_stock_exchange_plat.Base.{ℕ, pos, ◌≡◌, refl, true, none, some, [], ◌∷◌}
use mini_stock_exchange_plat.Base.Dict.{lookup}
use mini_stock_exchange_plat.Engine.Book.{buy, limit}
use mini_stock_exchange_plat.Orders.Status.{Status, pending, new, Order}
use mini_stock_exchange_plat.Orders.Place.{Outside, held, World, order_accepted}
use mini_stock_exchange_plat.Orders.Reconcile.{
  abandoned, abandon_all, abandon, reject_rows, reject_stale, announcements, republish,
  startup_reconciliation, IsReconciled, startup_reconciliation-IsReconciled,
}

abbrev outside : Outside
outside = record {
  reference_price = λ _. none;
  account = λ _ _ _. held;
  portfolio = λ _ _ _ _. held;
  release_works = true;
  raced = none;
  advance_committed = true;
  reject_committed = true;
  accepted_sent = true;
  rejected_sent = true;
}

abbrev order : ℕ → Status → ℕ → Order
order id status filled = record {
  id = id;
  user_id = 7;
  client_order_id = none;
  symbol = 0;
  side = buy;
  order_type = limit (pos 102_500);
  quantity = 10;
  filled_quantity = filled;
  avg_fill_price = pos 0;
  status = status;
  reserved_amount = none;
  reject_reason = none;
}

abbrev before : World
before = record {
  db = record { orders = (1, order 1 pending 0) ∷ (2, order 2 new 4) ∷ []; order_events = [] };
  holds = 1 ∷ 2 ∷ [];
  outbox = [];
}

restarted :
    ((startup_reconciliation outside (λ _. true) before).holds ≡ 2 ∷ [])
    × (lookup 1 (startup_reconciliation outside (λ _. true) before).db.orders
        ≡ some (abandoned (order 1 pending 0)))
    × ((startup_reconciliation outside (λ _. true) before).outbox
        ≡ order_accepted (record (order 2 new 4) { quantity = 6 }) ∷ [])
unfolding startup_reconciliation republish reject_stale abandon_all abandon reject_rows
    announcements
restarted = (refl, refl, refl)

startup_reconciliation-IsReconciled_example :
    IsReconciled (λ _. true) before (startup_reconciliation outside (λ _. true) before)
startup_reconciliation-IsReconciled_example =
    startup_reconciliation-IsReconciled outside (λ _. true) before refl refl
