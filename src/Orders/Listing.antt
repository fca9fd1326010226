-- ===== src/Orders/Listing.antt =====
-- What a user sees of the orders: the listing routes of services/order-service/app/routes.py. The
-- time of an order's row is a parameter, by the order's id.
use mini_stock_exchange_plat.Base.{
  ℕ, suc, ◌≤◌, ◌≡◌, subst, Bool, true, ◌&&◌, Option, none, some, List, [], ◌∷◌, map, ◌==◌, leb,
  if◌then◌else◌, arith, All, length, inl, inr, Bool-cases,
}
use mini_stock_exchange_plat.Base.Dict.{Dict, lookup}
use mini_stock_exchange_plat.Base.Pages.{page, IsNewestFirst, page-IsNewestFirst}
use mini_stock_exchange_plat.Base.Text.{
  Text, text, eq_text, one_of, is_empty, upper, split_from, stripped,
}
use mini_stock_exchange_plat.Symbols.{symbols, keys, normalize_symbol}
use mini_stock_exchange_plat.Orders.Status.{
  Status, pending, new, partially_filled, filled, cancel_pending, cancelled, rejected, Order,
  OrderEvent, Db,
}

abbrev pub max_page : ℕ
max_page = 200

abbrev pub word_of : Status → Text
word_of pending = text "PENDING"
word_of new = text "NEW"
word_of partially_filled = text "PARTIALLY_FILLED"
word_of filled = text "FILLED"
word_of cancel_pending = text "CANCEL_PENDING"
word_of cancelled = text "CANCELLED"
word_of rejected = text "REJECTED"

-- The details of the answers that refuse.
pub data Refusal : Type 0 where
  order_not_found not_your_order unknown_symbol out_of_range : Refusal

pub data Answer (A : Type 0) : Type 0 where
  done : A → Answer A
  refused : Refusal → Answer A

-- `_owned`
unfoldable pub owned : ℕ → ℕ → Db → Answer Order
owned order_id user db = elim (lookup order_id db.orders) [
  | none ↦ refused order_not_found
  | some order ↦ if order.user_id == user then done order else refused not_your_order
]

abbrev pub events_of : ℕ → List OrderEvent → List OrderEvent
events_of order_id [] = []
events_of order_id (e ∷ events) =
    if e.order_id == order_id then e ∷ events_of order_id events else events_of order_id events

-- The rows of the audit trail stand in the order of their times.
unfoldable pub get_order_events : ℕ → ℕ → Db → Answer (List OrderEvent)
get_order_events order_id user db = elim (owned order_id user db) [
  | refused refusal ↦ refused refusal
  | done order ↦ done (events_of order_id db.order_events)
]

-- No filter, also where the text is empty, or the words that are wanted.
abbrev pub is_wanted : Option Text → Status → Bool
is_wanted none status = true
is_wanted (some filter) status =
    if is_empty filter
    then true
    else one_of (word_of status) (map upper (stripped (split_from [] filter)))

abbrev pub place_in : Text → List Text → ℕ
place_in s [] = 0
place_in s (t ∷ ts) = if eq_text s t then 0 else suc (place_in s ts)

-- The place in SYMBOLS of the symbol that is asked for; `none` is the answer 400.
abbrev pub wanted_symbol : Option Text → Option (Option ℕ)
wanted_symbol none = some none
wanted_symbol (some symbol) =
    if is_empty symbol then some none else elim (normalize_symbol (some symbol)) [
      | none ↦ none
      | some s ↦ some (some (place_in s (keys symbols)))
    ]

abbrev pub has_symbol : Option ℕ → ℕ → Bool
has_symbol none symbol = true
has_symbol (some wanted) symbol = wanted == symbol

abbrev pub is_listed : Option Text → Option ℕ → ℕ → Order → Bool
is_listed status_filter wanted user order =
    order.user_id == user
    && (is_wanted status_filter order.status && has_symbol wanted order.symbol)

abbrev pub rows_of : Dict Order → List Order
rows_of [] = []
rows_of ((id, order) ∷ table) = order ∷ rows_of table

abbrev pub list_page :
    (Order → ℕ) → Option Text → ℕ → ℕ → ℕ → Db → Option (Option ℕ) → Answer (List Order)
list_page created_at status_filter limit offset user db none = refused unknown_symbol
list_page created_at status_filter limit offset user db (some wanted) =
    done (page created_at (is_listed status_filter wanted user) limit offset (rows_of db.orders))

-- `out_of_range` is the answer 422 to a limit out of range.
unfoldable pub list_orders :
    (Order → ℕ) → Option Text → Option Text → ℕ → ℕ → ℕ → Db → Answer (List Order)
list_orders created_at status_filter symbol limit offset user db =
    if leb 1 limit && leb limit max_page
    then list_page created_at status_filter limit offset user db (wanted_symbol symbol)
    else refused out_of_range

and_left : (a b : Bool) → (a && b) ≡ true → a ≡ true
and_left a b h = ground arith

-- What a page of orders is: the user's, of a wanted status, newest first, no longer than asked.
pub record IsPage (created_at : Order → ℕ) (status_filter : Option Text) (limit user : ℕ)
    (shown : List Order) : Type 0 where
  pub own : All (λ o. o.user_id ≡ user) shown
  pub wanted : All (λ o. is_wanted status_filter o.status ≡ true) shown
  pub sorted : IsNewestFirst created_at shown
  pub bounded : length shown ≤ limit

listed-own :
    (status_filter : Option Text) (wanted : Option ℕ) (user : ℕ) (rows : List Order)
    → All (λ o. is_listed status_filter wanted user o ≡ true) rows
    → All (λ o. o.user_id ≡ user) rows × All (λ o. is_wanted status_filter o.status ≡ true) rows
listed-own status_filter wanted user [] h = (tt, tt)
listed-own status_filter wanted user (o ∷ rows) h =
    let rest = listed-own status_filter wanted user rows h.1 in
    let mine = and_left (o.user_id == user) _ h.0 in
    ((ground arith, rest.0), (ground arith, rest.1))

-- A page of orders shows orders of the user only, in a status that is asked for, newest first, and
-- no more than the limit.
pub list_orders-IsPage :
    (created_at : Order → ℕ) (status_filter symbol : Option Text) (limit offset user : ℕ) (db : Db)
    (shown : List Order)
    → list_orders created_at status_filter symbol limit offset user db ≡ done shown
    → IsPage created_at status_filter limit user shown
unfolding list_orders
list_orders-IsPage created_at status_filter symbol limit offset user db shown h =
    elim (Bool-cases (leb 1 limit && leb limit max_page)) [
      | inr out ↦ absurd (refused_not_done (rw (out, if◌then◌else◌) at h))
      | inl within ↦ go (wanted_symbol symbol) (rw (within, if◌then◌else◌) at h)
    ]
  where
    refused_not_done : {A : Type 0} {refusal : Refusal} {a : A} → refused refusal ≡ done a → ⊥
    refused_not_done e = cc

    done_injective : {a b : List Order} → done a ≡ done b → a ≡ b
    done_injective e = cc

    go :
        (o : Option (Option ℕ))
        → list_page created_at status_filter limit offset user db o ≡ done shown
        → IsPage created_at status_filter limit user shown
    go none e = absurd (refused_not_done e)
    go (some wanted) e =
        let test = is_listed status_filter wanted user in
        let (sorted, passes, long) =
          page-IsNewestFirst created_at test limit offset (rows_of db.orders) in
        let own =
          listed-own status_filter wanted user
            (page created_at test limit offset (rows_of db.orders)) passes in
        subst (IsPage created_at status_filter limit user) (done_injective e)
          (record { own = own.0; wanted = own.1; sorted = sorted; bounded = omega (arith, long) })
