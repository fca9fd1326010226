-- ===== src/Engine/Snapshot.antt =====
-- What services/matching-engine/app/routes.py shows of a book, taken under the book's lock.
use mini_stock_exchange_plat.Base.{
  ℕ, suc, zero, ◌≤◌, ◌≡◌, refl, sym, ap, ◌∙◌, subst, ℤ, Bool, true, false, ◌&&◌, Option, none, some,
  List, [], ◌∷◌, map, arith, leb, ltb_ℤ, eqb_ℤ, if◌then◌else◌, All, length, length-take-le, take,
  inl, inr, Bool-cases, some_injective,
}
use mini_stock_exchange_plat.Base.Int.{◌-ℤ◌}
use mini_stock_exchange_plat.Base.Maybe.{none_not_some}
use mini_stock_exchange_plat.Engine.Book.{
  Side, buy, sell, Levels, OrderBook, Trade, Depth, best_from, best, best_bid, best_ask,
  insert_price, sort_prices, prices, aggregate_level, aggregate,
}
use mini_stock_exchange_plat.Engine.Match.{ahead_for}
use mini_stock_exchange_plat.Engine.Prices.{
  has_price, IsDistinct, sort_prices-IsDistinct, IsSorted, sort_prices-IsSorted,
}

pub record Snapshot : Type 0 where
  pub symbol : ℕ
  pub bids : List Depth
  pub asks : List Depth
  pub top_bid : Option ℤ
  pub top_ask : Option ℤ
  pub spread : Option ℤ

abbrev pub spread_of : Option ℤ → Option ℤ → Option ℤ
spread_of (some bid) (some ask) = some (ask -ℤ bid)
spread_of _ _ = none

-- `_snapshot`: bids are sorted as a sell order would meet them, asks as a buy order would.
unfoldable pub snapshot : OrderBook → ℕ → Snapshot
snapshot book depth = record {
  symbol = book.symbol;
  bids = aggregate (ahead_for sell) depth book.bids;
  asks = aggregate (ahead_for buy) depth book.asks;
  top_bid = best_bid book;
  top_ask = best_ask book;
  spread = spread_of (best_bid book) (best_ask book);
}

-- `get_book`; `none` is the answer 422 to a depth out of range.
unfoldable pub get_book : OrderBook → ℕ → Option Snapshot
get_book book depth = if leb 1 depth && leb depth 50 then some (snapshot book depth) else none

-- `book_trades`, newest first.
unfoldable pub book_trades : OrderBook → ℕ → Option (List Trade)
book_trades book limit =
    if leb 1 limit && leb limit 200 then some (take limit book.recent_trades) else none

abbrev pub first_of : List ℤ → Option ℤ
first_of [] = none
first_of (k ∷ ks) = some k

abbrev pub better_for : Side → ℤ → ℤ → Bool
better_for buy a b = ltb_ℤ a b
better_for sell a b = ltb_ℤ b a

abbrev pub prices_of : List Depth → List ℤ
prices_of [] = []
prices_of (row ∷ rows) = row.price ∷ prices_of rows

-- Each price is strictly better than all later ones.
abbrev pub IsStrict : Side → List ℤ → Type 0
IsStrict side [] = Unit
IsStrict side (k ∷ ks) = All (λ j. better_for side k j ≡ true) ks × IsStrict side ks

abbrev first_or : Side → ℤ → List ℤ → ℤ
first_or side px [] = px
first_or side px (k ∷ ks) = if better_for side k px then k else px

first_or-insert_price :
    (side : Side) (px k : ℤ) (ks : List ℤ)
    → first_or side (if better_for side k px then k else px) ks
      ≡ first_or side px (insert_price (ahead_for side) k ks)
first_or-insert_price side px k [] = refl
first_or-insert_price buy px k (j ∷ ks) = ground arith
first_or-insert_price sell px k (j ∷ ks) = ground arith

best_from-sort_prices :
    (side : Side) (px : ℤ) (levels : Levels)
    → best_from (better_for side) px levels
      ≡ first_or side px (sort_prices (ahead_for side) (prices levels))
unfolding best_from
best_from-sort_prices side px [] = refl
best_from-sort_prices side px ((k, level) ∷ levels) =
    best_from-sort_prices side (if better_for side k px then k else px) levels
    ∙ first_or-insert_price side px k (sort_prices (ahead_for side) (prices levels))

first_or-insert :
    (side : Side) (k : ℤ) (ks : List ℤ)
    → some (first_or side k ks) ≡ first_of (insert_price (ahead_for side) k ks)
first_or-insert side k [] = refl
first_or-insert buy k (j ∷ ks) = ground arith
first_or-insert sell k (j ∷ ks) = ground arith

-- The best price is the first of the sorted ones.
best-sort_prices :
    (side : Side) (levels : Levels)
    → best (better_for side) levels ≡ first_of (sort_prices (ahead_for side) (prices levels))
unfolding best
best-sort_prices side [] = refl
best-sort_prices side ((k, level) ∷ levels) =
    ap some (best_from-sort_prices side k levels)
    ∙ first_or-insert side k (sort_prices (ahead_for side) (prices levels))

prices_of-map : (levels : Levels) (ks : List ℤ) → prices_of (map (aggregate_level levels) ks) ≡ ks
unfolding aggregate_level
prices_of-map levels [] = refl
prices_of-map levels (k ∷ ks) = ap (λ js. k ∷ js) (prices_of-map levels ks)

better_for_apart :
    (side : Side) (k j : ℤ)
    → ahead_for side k j ≡ true
    → eqb_ℤ k j ≡ false
    → better_for side k j ≡ true
better_for_apart buy k j h ne = ground arith
better_for_apart sell k j h ne = ground arith

All-better_for :
    (side : Side) (k : ℤ) (ks : List ℤ) (n : ℕ)
    → All (λ j. ahead_for side k j ≡ true) ks
    → has_price k ks ≡ false
    → All (λ j. better_for side k j ≡ true) (take n ks)
All-better_for side k ks zero h ne = tt
All-better_for side k [] (suc n) h ne = tt
All-better_for side k (j ∷ ks) (suc n) h ne =
    (better_for_apart side k j h.0 (ground arith), All-better_for side k ks n h.1 (ground arith))

take-IsStrict :
    (side : Side) (ks : List ℤ) (n : ℕ)
    → IsSorted (ahead_for side) ks
    → IsDistinct ks
    → IsStrict side (take n ks)
take-IsStrict side ks zero h d = tt
take-IsStrict side [] (suc n) h d = tt
take-IsStrict side (k ∷ ks) (suc n) h d =
    (All-better_for side k ks n h.0 d.0, take-IsStrict side ks n h.1 d.1)

-- One side of a snapshot: no more rows than asked for, best price first, no price twice.
pub record IsShown (side : Side) (depth : ℕ) (top : Option ℤ) (rows : List Depth) : Type 0 where
  pub bounded : length (prices_of rows) ≤ depth
  pub strict : IsStrict side (prices_of rows)
  pub topped : first_of (prices_of rows) ≡ top

first_of-take : (n : ℕ) (ks : List ℤ) → 1 ≤ n → first_of (take n ks) ≡ first_of ks
first_of-take zero ks h = absurd (omega arith)
first_of-take (suc n) [] h = refl
first_of-take (suc n) (k ∷ ks) h = refl

aggregate-IsShown :
    (side : Side) (depth : ℕ) (levels : Levels)
    → 1 ≤ depth
    → IsDistinct (prices levels)
    → IsShown side depth (best (better_for side) levels) (aggregate (ahead_for side) depth levels)
unfolding aggregate
aggregate-IsShown side depth levels h distinct =
    let sorted = sort_prices (ahead_for side) (prices levels) in
    let shown = prices_of-map levels (take depth sorted) in
    record {
      bounded = rw shown (length-take-le depth sorted);
      strict = rw shown (
          take-IsStrict side sorted depth (sort_prices-IsSorted side (prices levels))
            (sort_prices-IsDistinct (ahead_for side) (prices levels) distinct));
      topped = rw shown (first_of-take depth sorted h ∙ sym (best-sort_prices side levels));
    }

-- A snapshot of a book whose sides have no price twice shows bids strictly downwards and asks
-- strictly upwards, no more of a side than the depth asked for, and the first of each is the best
-- price of its side, if the side has any.
pub get_book-IsShown :
    (book : OrderBook) (depth : ℕ) (shown : Snapshot)
    → IsDistinct (prices book.bids)
    → IsDistinct (prices book.asks)
    → get_book book depth ≡ some shown
    → IsShown sell depth shown.top_bid shown.bids × IsShown buy depth shown.top_ask shown.asks
unfolding get_book snapshot best_bid best_ask
get_book-IsShown book depth shown bids asks h = elim (Bool-cases (leb 1 depth && leb depth 50)) [
  | inl within ↦
      subst (λ s. IsShown sell depth s.top_bid s.bids × IsShown buy depth s.top_ask s.asks)
        (some_injective (rw (within, if◌then◌else◌) at h))
        (
          aggregate-IsShown sell depth book.bids (ground arith) bids,
          aggregate-IsShown buy depth book.asks (ground arith) asks,
        )
  | inr out ↦ absurd (none_not_some (rw (out, if◌then◌else◌) at h))
]
