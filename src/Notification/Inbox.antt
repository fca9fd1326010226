-- ===== src/Notification/Inbox.antt =====
-- The routes of services/notification-service/app/routes.py over the stored notifications.
use mini_stock_exchange_plat.Base.{
  ℕ, ◌+◌, Bool, true, false, not, ◌&&◌, Option, none, some, List, [], ◌∷◌, ◌==◌, leb, if◌then◌else◌,
}
use mini_stock_exchange_plat.Base.Pages.{page}
use mini_stock_exchange_plat.Notification.{Notification}

-- A row: what a consumer has built, with the columns that the database adds.
pub record Stored : Type 0 where
  pub id : ℕ
  pub told : Notification
  pub is_read : Bool
  pub created_at : ℕ

abbrev pub max_limit : ℕ
max_limit = 200

abbrev pub is_user : ℕ → Option ℕ → Bool
is_user user none = false
is_user user (some other) = user == other

abbrev pub is_of : ℕ → Stored → Bool
is_of user row = is_user user row.told.user_id

abbrev pub is_unread_of : ℕ → Stored → Bool
is_unread_of user row = is_of user row && not row.is_read

abbrev pub is_listed : ℕ → Bool → Stored → Bool
is_listed user unread_only row = if unread_only then is_unread_of user row else is_of user row

-- `none` is the answer 422 to a limit out of range.
unfoldable pub list_notifications : Bool → ℕ → ℕ → ℕ → List Stored → Option (List Stored)
list_notifications unread_only limit offset user table =
    if leb 1 limit && leb limit max_limit
    then some (page (λ row. row.created_at) (is_listed user unread_only) limit offset table)
    else none

unfoldable pub unread_count : ℕ → List Stored → ℕ
unread_count user [] = 0
unread_count user (row ∷ rows) = (if is_unread_of user row then 1 else 0) + unread_count user rows

abbrev pub read : Stored → Stored
read row = record row { is_read = true }

-- The UPDATE, with the number of rows that it matched.
unfoldable pub mark_all_read : ℕ → List Stored → ℕ × List Stored
mark_all_read user [] = (0, [])
mark_all_read user (row ∷ rows) =
    let rest = mark_all_read user rows in
    if is_unread_of user row then (1 + rest.0, read row ∷ rest.1) else (rest.0, row ∷ rest.1)

abbrev pub is_own : ℕ → ℕ → Stored → Bool
is_own notification_id user row = notification_id == row.id && is_of user row

abbrev pub with_row : Stored → Option Stored × List Stored → Option Stored × List Stored
with_row row (found, rows) = (found, row ∷ rows)

-- `none` is the answer 404.
unfoldable pub mark_read : ℕ → ℕ → List Stored → Option Stored × List Stored
mark_read notification_id user [] = (none, [])
mark_read notification_id user (row ∷ rows) =
    let rest = mark_read notification_id user rows in
    if is_own notification_id user row
    then (some (read row), read row ∷ rows)
    else with_row row rest
