-- ===== src/Notification/Tests.antt =====
-- Notifications of two users, and a witness.
use mini_stock_exchange_plat.Base.{ℕ, ◌≡◌, refl, Bool, true, false, none, some, List, [], ◌∷◌}
use mini_stock_exchange_plat.Notification.{order_filled, bought}
use mini_stock_exchange_plat.Notification.Inbox.{Stored, unread_count, mark_all_read}
use mini_stock_exchange_plat.Notification.Badge.{AreMarked, mark_all_read-Marks}

abbrev stored : ℕ → ℕ → Bool → Stored
stored id user is_read = record {
  id = id;
  told = record {
    user_id = some user;
    notification_type = order_filled;
    message = bought 1 100 0;
    symbol = 0;
    reference_id = none;
  };
  is_read = is_read;
  created_at = id;
}

abbrev table : List Stored
table = stored 1 7 false ∷ stored 2 8 false ∷ stored 3 7 true ∷ stored 4 7 false ∷ []

mark_all_read-Marks_example :
    ((mark_all_read 7 table).0 ≡ unread_count 7 table)
    × (unread_count 7 (mark_all_read 7 table).1 ≡ 0)
    × AreMarked 7 table (mark_all_read 7 table).1
mark_all_read-Marks_example = mark_all_read-Marks 7 table

counted : unread_count 7 table ≡ 2
unfolding unread_count
counted = refl
