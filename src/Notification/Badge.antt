-- ===== src/Notification/Badge.antt =====
-- The unread count, the pages and the marks of services/notification-service/app/routes.py agree.
use mini_stock_exchange_plat.Base.{
  ℕ, ◌-◌, ◌≤◌, ◌≡◌, ◌⊎◌, refl, ap, ◌∙◌, subst, inl, inr, true, ◌&&◌, some, List, [], ◌∷◌, min, leb,
  if◌then◌else◌, arith, length, All, Bool-cases, some_injective,
}
use mini_stock_exchange_plat.Base.Maybe.{none_not_some}
use mini_stock_exchange_plat.Base.Pages.{chosen, page-IsNewestFirst, IsNewestFirst}
use mini_stock_exchange_plat.Notification.Inbox.{
  Stored, max_limit, is_of, is_unread_of, is_listed, list_notifications, unread_count, read,
  mark_all_read, is_own, mark_read,
}

length-chosen :
    (user : ℕ) (rows : List Stored)
    → length (chosen (is_listed user true) rows) ≡ unread_count user rows
unfolding unread_count
length-chosen user [] = refl
length-chosen user (row ∷ rows) = ground (arith, length-chosen user rows)

-- The pages of unread notifications are as long as the badge says.
pub list_notifications-IsNewestFirst :
    (limit offset user : ℕ) (table shown : List Stored)
    → list_notifications true limit offset user table ≡ some shown
    → IsNewestFirst (λ row. row.created_at) shown
      × All (λ row. is_unread_of user row ≡ true) shown
      × (length shown ≡ min limit (unread_count user table - offset))
unfolding list_notifications
list_notifications-IsNewestFirst limit offset user table shown h =
    elim (Bool-cases (leb 1 limit && leb limit max_limit)) [
      | inl within ↦
          let at = λ (row : Stored). row.created_at in
          let (sorted, own, long) =
            page-IsNewestFirst at (is_listed user true) limit offset table in
          subst
            (λ rows.
              IsNewestFirst at rows
              × All (λ row. is_unread_of user row ≡ true) rows
              × (length rows ≡ min limit (unread_count user table - offset)))
            (some_injective (rw (within, if◌then◌else◌) at h))
            (sorted, own, long ∙ ap (λ n. min limit (n - offset)) (length-chosen user table))
      | inr out ↦ absurd (none_not_some (rw (out, if◌then◌else◌) at h))
    ]

-- What a mark leaves of a table, whose rows it keeps in their order: of the user's rows only
-- whether they are read, of others' nothing.
abbrev pub IsMarked : ℕ → Stored → Stored → Type 0
IsMarked user old new = (new ≡ old) ⊎ ((is_of user old ≡ true) × (new ≡ read old))

pub AreMarked : ℕ → List Stored → List Stored → Type 0
AreMarked user [] [] = Unit
AreMarked user [] (_ ∷ _) = ⊥
AreMarked user (_ ∷ _) [] = ⊥
AreMarked user (old ∷ olds) (new ∷ news) = IsMarked user old new × AreMarked user olds news

-- Marking all as read answers with the number of the user's unread notifications, leaves none of
-- them unread, and changes of the table nothing but that notifications of the user are read.
pub mark_all_read-Marks :
    (user : ℕ) (table : List Stored)
    → ((mark_all_read user table).0 ≡ unread_count user table)
      × (unread_count user (mark_all_read user table).1 ≡ 0)
      × AreMarked user table (mark_all_read user table).1
unfolding mark_all_read unread_count AreMarked
mark_all_read-Marks user [] = (refl, refl, tt)
mark_all_read-Marks user (row ∷ rows) = ground (arith, mark_all_read-Marks user rows)

AreMarked-refl : (user : ℕ) (table : List Stored) → AreMarked user table table
unfolding AreMarked
AreMarked-refl user [] = tt
AreMarked-refl user (row ∷ rows) = (inl refl, AreMarked-refl user rows)

-- A mark of one row, which is there afterwards, and a second one, which changes nothing.
pub mark_read-Marks :
    (notification_id user : ℕ) (table : List Stored)
    → let (found, marked) = mark_read notification_id user table in
      AreMarked user table marked
      × (unread_count user marked ≤ unread_count user table)
      × (mark_read notification_id user marked ≡ (found, marked))
unfolding mark_read unread_count AreMarked
mark_read-Marks notification_id user [] = (tt, omega arith, refl)
mark_read-Marks notification_id user (row ∷ rows) =
    let (marks, fewer, again) = mark_read-Marks notification_id user rows in
    elim (Bool-cases (is_own notification_id user row)) [
      | inl own ↦
          rw (own, if◌then◌else◌)
            (
              (inr (ground arith, refl), AreMarked-refl user rows),
              ground arith,
              rw (own, if◌then◌else◌) refl,
            )
      | inr other ↦
          rw (other, if◌then◌else◌)
            (
              (inl refl, marks),
              omega arith,
              rw (other, if◌then◌else◌) (ap (λ r. (r.0, row ∷ r.1)) again),
            )
    ]
