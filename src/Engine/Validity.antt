-- ===== src/Engine/Validity.antt =====
-- `match`, `rest` and `cancel` keep the invariant of the book
-- (services/matching-engine/app/engine.py).
mod Loops
pub mod Writes
use mathlib.Core.Bool.{false≢true}
use mathlib.Core.Path.{subst}
use mini_stock_exchange_plat.Base.{
  ℕ, ◌<◌, ◌≡◌, refl, sym, ◌∙◌, ap, ℤ, Bool, true, false, Option, none, some, List, [], ◌∷◌, ◌++◌,
  arith, ltb, ◌==◌, eqb_ℤ, eqb_ℤ→eq, eqb_ℤ_refl, if◌then◌else◌, All, All-append, All-map, inl, inr,
  Bool-cases, Option-cases, ◌||◌,
}
use mini_stock_exchange_plat.Engine.Book.{
  Side, buy, sell, OrderType, limit, market, BookOrder, Trade, OrderBook, Index, Levels, level_at,
  store_level, set_level, prices, own_levels, opposite_levels, with_own_levels,
  with_opposite_levels, sort_prices, rest, rest_at, cancel_at, remove_order, remove_from, cancel,
}
use mini_stock_exchange_plat.Engine.Match.{
  Fill, after_fill, execute, drain, restore, beyond_limit, match_levels, run_loops, match,
  settle_rest, ahead_for,
}
use mini_stock_exchange_plat.Engine.Prices.{
  has_price, IsDistinct, sort_prices-IsSorted, has_price-sort_prices,
}
use mini_stock_exchange_plat.Engine.Levels.{
  store_level-IsDistinct, set_level-IsDistinct, AllOrders-map,
}
use mini_stock_exchange_plat.Engine.Swap.{AllOrders-swap}
use mini_stock_exchange_plat.Engine.Match.Induction.{
  AllOrders, AllOrders-level_at, AllOrders-set_level, AllOrders-store_level, Fillable,
  match_levels_induction,
}
use mini_stock_exchange_plat.Engine.Match.Trades.{other_side, IsResting}
use mini_stock_exchange_plat.Engine.Match.Clearing.{Done, IsSame, match_levels-Done}
use mini_stock_exchange_plat.Engine.Invariant.{
  IsValid, IsValidFor, IsValidSide, Parted, AllParted, IsValid-for, IsValid-from,
}
use mini_stock_exchange_plat.Engine.Validity.Loops.{within_others, loops-Done, loops-IsValidFor}
use mini_stock_exchange_plat.Engine.Validity.Writes.{
  put_opposite-IsValid, opposite_levels-with_opposite_levels, cancel_at-IsValid, rest-IsValid,
}

settle_rest-IsValid :
    (book : OrderBook) (o : BookOrder) (trades : List Trade) (type : OrderType)
    → o.order_type ≡ type
    → (0 < o.remaining
        → (px : ℤ) → type ≡ limit px
        → AllOrders (Parted o.side px o) (opposite_levels o.side book))
    → IsValid book
    → IsValid (settle_rest book o trades type).0
unfolding settle_rest
settle_rest-IsValid book o trades market e apart v = ground arith
settle_rest-IsValid book o trades (limit px) e apart v = elim (Bool-cases (ltb 0 o.remaining)) [
  | inl left ↦
      rw (left, if◌then◌else◌)
        (rest-IsValid book o px (record { sided = refl; priced = e; open_shares = ground arith })
          (apart (ground arith) px refl) v)
  | inr gone ↦ rw (gone, if◌then◌else◌) v
]

-- Matching any order keeps the invariant of the book: no price has two levels on a side, every
-- resting order is a limit order of its side and price with shares left, and resting orders whose
-- prices cross are one user's.
pub match-IsValid :
    (book : OrderBook) (incoming : BookOrder) → IsValid book → IsValid (match book incoming).book
unfolding match
match-IsValid book incoming v =
    let side = incoming.side in
    let (levels, s) = run_loops book incoming in
    let (apart, same) = loops-IsValidFor book incoming (IsValid-for side book v) in
    let book' = record (with_opposite_levels side levels book) { index = s.index } in
    let valid : IsValid book' = put_opposite-IsValid side book levels apart in
    settle_rest-IsValid book' s.incoming s.trades s.incoming.order_type refl
      (λ left px e. within_others incoming px s.incoming _ same e (
        rw same.side (
          subst (AllOrders (Done incoming []))
            (sym (opposite_levels-with_opposite_levels side book levels s.index))
            (loops-Done book incoming (IsValid-for side book v).opposite_side.distinct left))))
      valid

-- Cancelling keeps the invariant of the book, whether or not the order rests in it.
pub cancel-IsValid :
    (book : OrderBook) (order_id : ℕ) → IsValid book → IsValid (cancel book order_id).0
unfolding cancel
cancel-IsValid book order_id v = elim (Option-cases (book.index order_id)) [
  | inl missing ↦ rw (missing, cancel) v
  | inr (o, found) ↦ rw (found, cancel) (cancel_at-IsValid _ o o.order_type v)
]
