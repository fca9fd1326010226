-- ===== src/Notification/Delivered.antt =====
-- Who is told of an event by services/notification-service/app/handlers.py, and how often.
use mini_stock_exchange_plat.Base.{
  ℕ, ◌+◌, ◌≡◌, refl, sym, ◌∙◌, true, false, Option, none, some, List, [], ◌∷◌, ◌++◌, ◌==◌,
  if◌then◌else◌, arith, length,
}
use mini_stock_exchange_plat.Events.Once.{uuid, Seen, Service, member, once_twice, once_done}
use mini_stock_exchange_plat.Notification.{
  Notification, NotificationType, order_filled, eq_type, Trade, build_trade_executed, deliverable,
  handle,
}

-- An event that is neither recorded nor marked is told of once, however often it comes.
told_once :
    (rows : List Notification) (k : ℕ) (s : Service (List Notification)) (seen' : Seen)
    → member k s.processed ≡ false
    → member k s.seen.uuids ≡ false
    → let s1 = (handle rows (uuid k) s).0 in
      let s2 = (handle rows (uuid k) (record s1 { seen = seen' })).0 in
      (s1.db ≡ s.db ++ deliverable rows) × (s2.db ≡ s.db ++ deliverable rows)
unfolding handle
told_once rows k s seen' unprocessed unmarked =
    let work = λ (table : List Notification). some (table ++ deliverable rows) in
    let told =
      once_done (λ _. true) work k s (s.db ++ deliverable rows) unprocessed unmarked refl refl in
    let again =
      once_twice (λ _. true) work k s seen' (λ marked. absurd (not_both unmarked marked)) in
    (told, again.0 ∙ told)
  where
    false_not_true : false ≡ true → ⊥
    false_not_true e = cc

    not_both : member k s.seen.uuids ≡ false → member k s.seen.uuids ≡ true → ⊥
    not_both h g = false_not_true (sym h ∙ g)

-- A trade tells each side whose user id is usable once, and it is a complete fill just where
-- nothing of its order remains.
usable : Option ℕ → ℕ
usable none = 0
usable (some user) = 1

count_for : NotificationType → List Notification → ℕ
count_for type [] = 0
count_for type (row ∷ rows) =
    (if eq_type type row.notification_type then 1 else 0) + count_for type rows

trade_told :
    (t : Trade)
    → (count_for order_filled (deliverable (build_trade_executed t))
        ≡ (if t.buy_remaining == 0 then usable t.buyer else 0)
          + (if t.sell_remaining == 0 then usable t.seller else 0))
      × (length (deliverable (build_trade_executed t)) ≡ usable t.buyer + usable t.seller)
unfolding count_for usable deliverable build_trade_executed
trade_told t = go t.buyer t.seller refl refl
  where
    go :
        (b s : Option ℕ)
        → t.buyer ≡ b
        → t.seller ≡ s
        → (count_for order_filled (deliverable (build_trade_executed t))
            ≡ (if t.buy_remaining == 0 then usable t.buyer else 0)
              + (if t.sell_remaining == 0 then usable t.seller else 0))
          × (length (deliverable (build_trade_executed t)) ≡ usable t.buyer + usable t.seller)
    go none none b s = rw (b, s) (ground arith)
    go none (some _) b s = rw (b, s) (ground arith)
    go (some _) none b s = rw (b, s) (ground arith)
    go (some _) (some _) b s = rw (b, s) (ground arith)
