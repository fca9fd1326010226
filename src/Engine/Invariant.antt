-- ===== src/Engine/Invariant.antt =====
-- The invariant of the order book, and that `match` and `cancel` keep it
-- (services/matching-engine/app/engine.py).
use mini_stock_exchange_plat.Base.{◌≡◌, refl, sym, ℤ, false}
use mini_stock_exchange_plat.Engine.Book.{
  Side, buy, sell, limit, BookOrder, OrderBook, Levels, prices, own_levels, opposite_levels,
}
use mini_stock_exchange_plat.Engine.Match.{beyond_limit}
use mini_stock_exchange_plat.Engine.Prices.{IsDistinct}
use mini_stock_exchange_plat.Engine.Levels.{AllOrders-map}
use mini_stock_exchange_plat.Engine.Match.Induction.{AllOrders}
use mini_stock_exchange_plat.Engine.Match.Trades.{other_side, IsResting}
use mini_stock_exchange_plat.Engine.Swap.{AllOrders-swap}

-- One side: no price twice, and only limit orders of the side with shares left, at their prices.
pub record IsValidSide (side : Side) (levels : Levels) : Type 0 where
  pub distinct : IsDistinct (prices levels)
  pub resting : AllOrders (IsResting side) levels

-- An order at `px` on `side` and one at `qx` on the other side that could trade are one user's.
abbrev pub Parted : Side → ℤ → BookOrder → ℤ → BookOrder → Type 0
Parted side px o qx r = beyond_limit side (limit px) qx ≡ false → r.user_id ≡ o.user_id

abbrev pub AllParted : Side → Levels → Levels → Type 0
AllParted side own opposite = AllOrders (λ px o. AllOrders (Parted side px o) opposite) own

-- Both sides are valid, and no two users' orders cross.
pub record IsValidFor (side : Side) (own opposite : Levels) : Type 0 where
  pub own_side : IsValidSide side own
  pub opposite_side : IsValidSide (other_side side) opposite
  pub parted : AllParted side own opposite

abbrev pub IsValid : OrderBook → Type 0
IsValid book = IsValidFor buy book.bids book.asks

-- Crossing is the same seen from either side.
AllParted-other_side :
    (side : Side) (own opposite : Levels)
    → AllParted side own opposite
    → AllParted (other_side side) opposite own
AllParted-other_side side own opposite h =
    AllOrders-map (λ qx r. AllOrders-map (λ px o. turn side px o qx r) own) opposite
      (AllOrders-swap (Parted side) own opposite h)
  where
    turn :
        (side : Side) (px : ℤ) (o : BookOrder) (qx : ℤ) (r : BookOrder)
        → Parted side px o qx r
        → Parted (other_side side) qx r px o
    turn buy px o qx r f w = sym (f w)
    turn sell px o qx r f w = sym (f w)

other_side_twice : (side : Side) → other_side (other_side side) ≡ side
other_side_twice buy = refl
other_side_twice sell = refl

pub IsValidFor-other_side :
    {side : Side} {own opposite : Levels}
    → IsValidFor side own opposite
    → IsValidFor (other_side side) opposite own
IsValidFor-other_side {side} {own} {opposite} v = record {
  own_side = v.opposite_side;
  opposite_side = rw other_side_twice v.own_side;
  parted = AllParted-other_side side own opposite v.parted;
}

-- The invariant from the side of an incoming order.
pub IsValid-for :
    (side : Side) (book : OrderBook)
    → IsValid book
    → IsValidFor side (own_levels side book) (opposite_levels side book)
IsValid-for buy book v = v
IsValid-for sell book v = IsValidFor-other_side v

pub IsValid-from :
    (side : Side) (book : OrderBook)
    → IsValidFor side (own_levels side book) (opposite_levels side book)
    → IsValid book
IsValid-from buy book v = v
IsValid-from sell book v = IsValidFor-other_side v
