-- ===== src/Engine/Validity/Writes.antt =====
-- `rest` and the writes of `match` and `cancel` to the side maps
-- (services/matching-engine/app/engine.py).
use mathlib.Core.Path.{subst}
use mini_stock_exchange_plat.Base.{
  ℕ, ◌≡◌, refl, sym, ℤ, List, [], ◌∷◌, ◌++◌, arith, All, All-append,
}
use mini_stock_exchange_plat.Engine.Book.{
  Side, buy, sell, OrderType, limit, market, BookOrder, OrderBook, Index, Levels, level_at,
  set_level, own_levels, opposite_levels, with_own_levels, with_opposite_levels, rest, rest_at,
  cancel_at, remove_order, remove_from,
}
use mini_stock_exchange_plat.Engine.Levels.{store_level-IsDistinct, set_level-IsDistinct}
use mini_stock_exchange_plat.Engine.Match.Induction.{
  AllOrders, AllOrders-level_at, AllOrders-set_level, AllOrders-store_level,
}
use mini_stock_exchange_plat.Engine.Match.Trades.{IsResting}
use mini_stock_exchange_plat.Engine.Invariant.{
  IsValid, IsValidFor, Parted, IsValid-for, IsValid-from,
}

-- A limit order that no other user's order crosses may rest.
set_level-IsValidFor :
    {side : Side} {own opposite : Levels} (px : ℤ) (o : BookOrder)
    → IsResting side px o
    → AllOrders (Parted side px o) opposite
    → IsValidFor side own opposite
    → IsValidFor side (set_level px (level_at px own ++ o ∷ []) own) opposite
set_level-IsValidFor {side} {own} {opposite} px o ok apart v = record {
  own_side = record {
    distinct = set_level-IsDistinct px (level_at px own ++ o ∷ []) own v.own_side.distinct;
    resting = put (IsResting side) ok v.own_side.resting;
  };
  opposite_side = v.opposite_side;
  parted = put (λ k r. AllOrders (Parted side k r) opposite) apart v.parted;
}
  where
    put :
        (R : ℤ → BookOrder → Type 0)
        → R px o
        → AllOrders R own
        → AllOrders R (set_level px (level_at px own ++ o ∷ []) own)
    put R h a =
        AllOrders-set_level R px (level_at px own ++ o ∷ []) own
          (All-append (R px) (level_at px own) (o ∷ []) (AllOrders-level_at R px own a) (h, tt)) a

put_own-IsValid :
    (side : Side) (book : OrderBook) (levels : Levels)
    → IsValidFor side levels (opposite_levels side book)
    → IsValid (with_own_levels side levels book)
put_own-IsValid buy book levels v = v
put_own-IsValid sell book levels v = IsValid-from sell (with_own_levels sell levels book) v

-- A new limit order keeps the invariant if only its own user's orders cross it.
pub rest-IsValid :
    (book : OrderBook) (o : BookOrder) (px : ℤ)
    → IsResting o.side px o
    → AllOrders (Parted o.side px o) (opposite_levels o.side book)
    → IsValid book
    → IsValid (rest book o)
unfolding rest
rest-IsValid book o px ok apart v =
    subst (λ type. IsValid (rest_at book o type)) (sym ok.priced) resting
  where
    resting : IsValid (rest_at book o (limit px))
    resting =
        put_own-IsValid o.side book _
          (set_level-IsValidFor px o ok apart (IsValid-for o.side book v))

pub put_opposite-IsValid :
    (side : Side) (book : OrderBook) (levels : Levels)
    → IsValidFor side (own_levels side book) levels
    → IsValid (with_opposite_levels side levels book)
put_opposite-IsValid buy book levels v = v
put_opposite-IsValid sell book levels v =
    IsValid-from sell (with_opposite_levels sell levels book) v

pub opposite_levels-with_opposite_levels :
    (side : Side) (book : OrderBook) (levels : Levels) (index : Index)
    → opposite_levels side (record (with_opposite_levels side levels book) { index = index })
      ≡ levels
opposite_levels-with_opposite_levels buy book levels index = refl
opposite_levels-with_opposite_levels sell book levels index = refl

pub All-remove_order :
    (P : BookOrder → Type 0) (seq : ℕ) (level : List BookOrder)
    → All P level
    → All P (remove_order seq level)
All-remove_order P seq [] h = tt
All-remove_order P seq (o ∷ level) h = ground (arith, All-remove_order P seq level h.1)

pub remove_from-IsValidFor :
    {side : Side} {own opposite : Levels} (px : ℤ) (seq : ℕ)
    → IsValidFor side own opposite
    → IsValidFor side (remove_from px seq own) opposite
remove_from-IsValidFor {side} {own} {opposite} px seq v = record {
  own_side = record {
    distinct = store_level-IsDistinct px _ own v.own_side.distinct;
    resting = shrink (IsResting side) v.own_side.resting;
  };
  opposite_side = v.opposite_side;
  parted = shrink (λ k r. AllOrders (Parted side k r) opposite) v.parted;
}
  where
    shrink : (R : ℤ → BookOrder → Type 0) → AllOrders R own → AllOrders R (remove_from px seq own)
    shrink R a =
        AllOrders-store_level R px (remove_order seq (level_at px own)) own
          (All-remove_order (R px) seq (level_at px own) (AllOrders-level_at R px own a)) a

pub cancel_at-IsValid :
    (book : OrderBook) (o : BookOrder) (type : OrderType)
    → IsValid book
    → IsValid (cancel_at book o type)
unfolding cancel_at
cancel_at-IsValid book o market v = v
cancel_at-IsValid book o (limit px) v =
    put_own-IsValid o.side book _ (remove_from-IsValidFor px o.seq (IsValid-for o.side book v))
