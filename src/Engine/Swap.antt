-- ===== src/Engine/Swap.antt =====
-- A relation between the orders of one side and those of the other, read from either side
-- (the side maps of services/matching-engine/app/engine.py).
use mini_stock_exchange_plat.Base.{ℤ, List, [], ◌∷◌, All}
use mini_stock_exchange_plat.Engine.Book.{BookOrder, Levels}
use mini_stock_exchange_plat.Engine.Match.Induction.{AllOrders}

module _ (Q : ℤ → BookOrder → ℤ → BookOrder → Type 0) where
  none_left : (ys : Levels) → AllOrders (λ qx r. Unit {0}) ys
  none_left [] = tt
  none_left ((qx, l) ∷ ys) = (go l, none_left ys)
    where
      go : (l : List BookOrder) → All (λ r. Unit {0}) l
      go [] = tt
      go (r ∷ l) = (tt, go l)

  join_level :
      (px : ℤ) (l : List BookOrder) (ys : Levels)
      → All (λ o. AllOrders (Q px o) ys) l
      → AllOrders (λ qx r. All (λ o. Q px o qx r) l) ys
  join_level px [] ys h = none_left ys
  join_level px (o ∷ l) ys h = both ys h.0 (join_level px l ys h.1)
    where
      level_both :
          (qx : ℤ) (rs : List BookOrder)
          → All (Q px o qx) rs
          → All (λ r. All (λ o. Q px o qx r) l) rs
          → All (λ r. All (λ o. Q px o qx r) (o ∷ l)) rs
      level_both qx [] a b = tt
      level_both qx (r ∷ rs) a b = ((a.0, b.0), level_both qx rs a.1 b.1)

      both :
          (ys : Levels)
          → AllOrders (Q px o) ys
          → AllOrders (λ qx r. All (λ o. Q px o qx r) l) ys
          → AllOrders (λ qx r. All (λ o. Q px o qx r) (o ∷ l)) ys
      both [] a b = tt
      both ((qx, rs) ∷ ys) a b = (level_both qx rs a.0 b.0, both ys a.1 b.1)

  -- A relation of all orders of one side to all of the other may be read from either side.
  pub AllOrders-swap :
      (xs ys : Levels)
      → AllOrders (λ px o. AllOrders (Q px o) ys) xs
      → AllOrders (λ qx r. AllOrders (λ px o. Q px o qx r) xs) ys
  AllOrders-swap [] ys h = none_left ys
  AllOrders-swap ((px, l) ∷ xs) ys h = both ys (join_level px l ys h.0) (AllOrders-swap xs ys h.1)
    where
      level_both :
          (qx : ℤ) (rs : List BookOrder)
          → All (λ r. All (λ o. Q px o qx r) l) rs
          → All (λ r. AllOrders (λ px o. Q px o qx r) xs) rs
          → All (λ r. AllOrders (λ px o. Q px o qx r) ((px, l) ∷ xs)) rs
      level_both qx [] a b = tt
      level_both qx (r ∷ rs) a b = ((a.0, b.0), level_both qx rs a.1 b.1)

      both :
          (ys : Levels)
          → AllOrders (λ qx r. All (λ o. Q px o qx r) l) ys
          → AllOrders (λ qx r. AllOrders (λ px o. Q px o qx r) xs) ys
          → AllOrders (λ qx r. AllOrders (λ px o. Q px o qx r) ((px, l) ∷ xs)) ys
      both [] a b = tt
      both ((qx, rs) ∷ ys) a b = (level_both qx rs a.0 b.0, both ys a.1 b.1)
