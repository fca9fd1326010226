-- ===== src/Engine/Levels.antt =====
-- Writes to a side map keep its prices distinct, and keep what holds of every order
-- (services/matching-engine/app/engine.py).
use mini_stock_exchange_plat.Base.{
  ◌≡◌, refl, ℤ, false, List, [], ◌∷◌, arith, eqb_ℤ, eqb_ℤ→eq, if◌then◌else◌, All, inl, inr,
  Bool-cases,
}
use mini_stock_exchange_plat.Engine.Book.{
  BookOrder, Levels, set_level, del_level, store_level, prices,
}
use mini_stock_exchange_plat.Engine.Prices.{has_price, IsDistinct}
use mini_stock_exchange_plat.Engine.Match.Induction.{AllOrders}

-- Writing never adds another price than the one written.
pub has_price-set_level :
    (k px : ℤ) (level : List BookOrder) (levels : Levels)
    → eqb_ℤ k px ≡ false
    → has_price k (prices levels) ≡ false
    → has_price k (prices (set_level px level levels)) ≡ false
has_price-set_level k px level [] ne h = ground arith
has_price-set_level k px level ((j, l) ∷ levels) ne h =
    ground (arith, has_price-set_level k px level levels ne)

pub has_price-del_level :
    (k px : ℤ) (levels : Levels)
    → has_price k (prices levels) ≡ false
    → has_price k (prices (del_level px levels)) ≡ false
has_price-del_level k px [] h = refl
has_price-del_level k px ((j, l) ∷ levels) h = ground (arith, has_price-del_level k px levels)

pub set_level-IsDistinct :
    (px : ℤ) (level : List BookOrder) (levels : Levels)
    → IsDistinct (prices levels)
    → IsDistinct (prices (set_level px level levels))
set_level-IsDistinct px level [] d = (refl, tt)
set_level-IsDistinct px level ((j, l) ∷ levels) d =
    ground (arith, set_level-IsDistinct px level levels d.1, has_price-set_level j px level levels)

del_level-IsDistinct :
    (px : ℤ) (levels : Levels)
    → IsDistinct (prices levels)
    → IsDistinct (prices (del_level px levels))
del_level-IsDistinct px [] d = tt
del_level-IsDistinct px ((j, l) ∷ levels) d =
    ground (arith, del_level-IsDistinct px levels d.1, has_price-del_level j px levels)

pub store_level-IsDistinct :
    (px : ℤ) (level : List BookOrder) (levels : Levels)
    → IsDistinct (prices levels)
    → IsDistinct (prices (store_level px level levels))
store_level-IsDistinct px [] levels d = del_level-IsDistinct px levels d
store_level-IsDistinct px (o ∷ level) levels d = set_level-IsDistinct px (o ∷ level) levels d

pub AllOrders-map :
    {R S : ℤ → BookOrder → Type 0}
    → ((px : ℤ) (o : BookOrder) → R px o → S px o)
    → (levels : Levels) → AllOrders R levels
    → AllOrders S levels
AllOrders-map f [] h = tt
AllOrders-map {R} {S} f ((px, level) ∷ levels) h = (go level h.0, AllOrders-map f levels h.1)
  where
    go : (l : List BookOrder) → All (R px) l → All (S px) l
    go [] g = tt
    go (o ∷ l) g = (f px o g.0, go l g.1)

module _ (R : ℤ → BookOrder → Type 0) (px : ℤ) where
  abbrev Elsewhere : ℤ → BookOrder → Type 0
  Elsewhere k o = eqb_ℤ k px ≡ false → R k o

  All-Elsewhere :
      (k : ℤ) (l : List BookOrder) → eqb_ℤ k px ≡ false → All (Elsewhere k) l → All (R k) l
  All-Elsewhere k [] ne h = tt
  All-Elsewhere k (o ∷ l) ne h = (h.0 ne, All-Elsewhere k l ne h.1)

  everywhere :
      (levels : Levels)
      → has_price px (prices levels) ≡ false
      → AllOrders Elsewhere levels
      → AllOrders R levels
  everywhere [] h a = tt
  everywhere ((k, level) ∷ levels) h a =
      (All-Elsewhere k level (ground arith) a.0, everywhere levels (ground arith) a.1)

  set_level-at :
      (level : List BookOrder) (levels : Levels)
      → IsDistinct (prices levels)
      → All (R px) level
      → AllOrders Elsewhere levels
      → AllOrders R (set_level px level levels)
  set_level-at level [] d hl a = (hl, tt)
  set_level-at level ((k, l) ∷ levels) d hl a = elim (Bool-cases (eqb_ℤ px k)) [
    | inl hit ↦ rw (hit, if◌then◌else◌) (hl, everywhere levels (rw (eqb_ℤ→eq px k hit) d.0) a.1)
    | inr miss ↦
        rw (miss, if◌then◌else◌)
          (All-Elsewhere k l (ground arith) a.0, set_level-at level levels d.1 hl a.1)
  ]

  del_level-at :
      (levels : Levels)
      → IsDistinct (prices levels)
      → AllOrders Elsewhere levels
      → AllOrders R (del_level px levels)
  del_level-at [] d a = tt
  del_level-at ((k, l) ∷ levels) d a = elim (Bool-cases (eqb_ℤ px k)) [
    | inl hit ↦ rw (hit, if◌then◌else◌) (everywhere levels (rw (eqb_ℤ→eq px k hit) d.0) a.1)
    | inr miss ↦
        rw (miss, if◌then◌else◌) (All-Elsewhere k l (ground arith) a.0, del_level-at levels d.1 a.1)
  ]

  -- What holds of every order at other prices, and of the level written, holds of every order.
  pub store_level-at :
      (level : List BookOrder) (levels : Levels)
      → IsDistinct (prices levels)
      → All (R px) level
      → AllOrders Elsewhere levels
      → AllOrders R (store_level px level levels)
  store_level-at [] levels d hl a = del_level-at levels d a
  store_level-at (o ∷ level) levels d hl a = set_level-at (o ∷ level) levels d hl a
