-- ===== src/Engine/Prices.antt =====
-- Keys of a side map: membership, distinctness, and `sorted` on them
-- (services/matching-engine/app/engine.py).
use mini_stock_exchange_plat.Base.{
  ◌≡◌, refl, ℤ, Bool, true, false, List, [], ◌∷◌, arith, ◌||◌, eqb_ℤ, if◌then◌else◌, All, inl, inr,
  Bool-cases,
}
use mini_stock_exchange_plat.Engine.Book.{
  BookOrder, Levels, Side, buy, sell, OrderType, limit, market, level_at, store_level, insert_price,
  sort_prices,
}
use mini_stock_exchange_plat.Engine.Match.{ahead_for, beyond_limit}

abbrev pub has_price : ℤ → List ℤ → Bool
has_price px [] = false
has_price px (k ∷ ks) = eqb_ℤ px k || has_price px ks

-- No price stands twice.
abbrev pub IsDistinct : List ℤ → Type 0
IsDistinct [] = Unit
IsDistinct (k ∷ ks) = (has_price k ks ≡ false) × IsDistinct ks

pub has_price-insert_price :
    (ahead : ℤ → ℤ → Bool) (k px : ℤ) (ks : List ℤ)
    → has_price k (insert_price ahead px ks) ≡ (eqb_ℤ k px || has_price k ks)
has_price-insert_price ahead k px [] = refl
has_price-insert_price ahead k px (j ∷ ks) = ground (arith, has_price-insert_price ahead k px ks)

pub has_price-sort_prices :
    (ahead : ℤ → ℤ → Bool) (k : ℤ) (ks : List ℤ)
    → has_price k (sort_prices ahead ks) ≡ has_price k ks
has_price-sort_prices ahead k [] = refl
has_price-sort_prices ahead k (j ∷ ks) = ground (
  arith,
  has_price-insert_price ahead k j (sort_prices ahead ks),
  has_price-sort_prices ahead k ks,
)

insert_price-IsDistinct :
    (ahead : ℤ → ℤ → Bool) (px : ℤ) (ks : List ℤ)
    → has_price px ks ≡ false
    → IsDistinct ks
    → IsDistinct (insert_price ahead px ks)
insert_price-IsDistinct ahead px [] h d = (refl, tt)
insert_price-IsDistinct ahead px (j ∷ ks) h d =
    ground (arith, insert_price-IsDistinct ahead px ks, has_price-insert_price ahead j px ks)

pub sort_prices-IsDistinct :
    (ahead : ℤ → ℤ → Bool) (ks : List ℤ) → IsDistinct ks → IsDistinct (sort_prices ahead ks)
sort_prices-IsDistinct ahead [] d = tt
sort_prices-IsDistinct ahead (k ∷ ks) d =
    insert_price-IsDistinct ahead k (sort_prices ahead ks)
      (ground (arith, has_price-sort_prices ahead k ks)) (sort_prices-IsDistinct ahead ks d.1)

-- What a write at one price leaves of the others.
pub level_at-store_level_ne :
    (k px : ℤ) (level : List BookOrder) (levels : Levels)
    → eqb_ℤ k px ≡ false
    → level_at k (store_level px level levels) ≡ level_at k levels
level_at-store_level_ne k px [] [] h = refl
level_at-store_level_ne k px [] ((j, l) ∷ levels) h =
    ground (arith, level_at-store_level_ne k px [] levels)
level_at-store_level_ne k px (o ∷ level) [] h = ground arith
level_at-store_level_ne k px (o ∷ level) ((j, l) ∷ levels) h =
    ground (arith, level_at-store_level_ne k px (o ∷ level) levels)

-- Each price stands ahead of all later ones, or equals them.
abbrev pub IsSorted : (ℤ → ℤ → Bool) → List ℤ → Type 0
IsSorted ahead [] = Unit
IsSorted ahead (k ∷ ks) = All (λ j. ahead k j ≡ true) ks × IsSorted ahead ks

pub ahead_for_trans :
    (side : Side) (a b c : ℤ)
    → ahead_for side a b ≡ true
    → ahead_for side b c ≡ true
    → ahead_for side a c ≡ true
ahead_for_trans buy a b c p q = ground arith
ahead_for_trans sell a b c p q = ground arith

ahead_for_total : (side : Side) (a b : ℤ) → ahead_for side a b ≡ false → ahead_for side b a ≡ true
ahead_for_total buy a b p = ground arith
ahead_for_total sell a b p = ground arith

-- A price beyond the limit leaves every price behind it beyond the limit.
pub beyond_limit-ahead_for :
    (side : Side) (type : OrderType) (a b : ℤ)
    → beyond_limit side type a ≡ true
    → ahead_for side a b ≡ true
    → beyond_limit side type b ≡ true
beyond_limit-ahead_for side market a b h p = cc
beyond_limit-ahead_for buy (limit l) a b h p = ground arith
beyond_limit-ahead_for sell (limit l) a b h p = ground arith

module _ (side : Side) where
  All-behind :
      (a b : ℤ) (ks : List ℤ)
      → ahead_for side a b ≡ true
      → All (λ j. ahead_for side b j ≡ true) ks
      → All (λ j. ahead_for side a j ≡ true) ks
  All-behind a b [] p h = tt
  All-behind a b (k ∷ ks) p h = (ahead_for_trans side a b k p h.0, All-behind a b ks p h.1)

  All-insert_price :
      (a px : ℤ) (ks : List ℤ)
      → ahead_for side a px ≡ true
      → All (λ j. ahead_for side a j ≡ true) ks
      → All (λ j. ahead_for side a j ≡ true) (insert_price (ahead_for side) px ks)
  All-insert_price a px [] p h = (p, tt)
  All-insert_price a px (k ∷ ks) p h = elim (Bool-cases (ahead_for side px k)) [
    | inl e ↦ rw (e, if◌then◌else◌) (p, h)
    | inr e ↦ rw (e, if◌then◌else◌) (h.0, All-insert_price a px ks p h.1)
  ]

  insert_price-IsSorted :
      (px : ℤ) (ks : List ℤ)
      → IsSorted (ahead_for side) ks
      → IsSorted (ahead_for side) (insert_price (ahead_for side) px ks)
  insert_price-IsSorted px [] h = (tt, tt)
  insert_price-IsSorted px (k ∷ ks) h = elim (Bool-cases (ahead_for side px k)) [
    | inl e ↦ rw (e, if◌then◌else◌) ((e, All-behind px k ks e h.0), h)
    | inr e ↦
        rw (e, if◌then◌else◌)
          (
            All-insert_price k px ks (ahead_for_total side px k e) h.0,
            insert_price-IsSorted px ks h.1,
          )
  ]

  pub sort_prices-IsSorted :
      (ks : List ℤ) → IsSorted (ahead_for side) (sort_prices (ahead_for side) ks)
  sort_prices-IsSorted [] = tt
  sort_prices-IsSorted (k ∷ ks) = insert_price-IsSorted k _ (sort_prices-IsSorted ks)
