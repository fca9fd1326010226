-- ===== src/Engine/Validity/Loops.antt =====
-- The loops of `match` on the two sides of the book
-- (services/matching-engine/app/engine.py).
use mathlib.Core.Bool.{false≢true}
use mini_stock_exchange_plat.Base.{
  ℕ, ◌<◌, ◌≡◌, refl, sym, ◌∙◌, ℤ, Bool, true, List, [], ◌∷◌, arith, eqb_ℤ_refl, All,
}
use mini_stock_exchange_plat.Engine.Book.{
  limit, BookOrder, OrderBook, Levels, level_at, store_level, prices, own_levels, opposite_levels,
  sort_prices,
}
use mini_stock_exchange_plat.Engine.Match.{
  Fill, after_fill, execute, drain, restore, match_levels, run_loops, ahead_for,
}
use mini_stock_exchange_plat.Engine.Prices.{
  has_price, IsDistinct, sort_prices-IsSorted, has_price-sort_prices,
}
use mini_stock_exchange_plat.Engine.Levels.{store_level-IsDistinct, AllOrders-map}
use mini_stock_exchange_plat.Engine.Swap.{AllOrders-swap}
use mini_stock_exchange_plat.Engine.Match.Induction.{AllOrders, Fillable, match_levels_induction}
use mini_stock_exchange_plat.Engine.Match.Trades.{other_side, IsResting}
use mini_stock_exchange_plat.Engine.Match.Clearing.{Done, IsSame, match_levels-Done}
use mini_stock_exchange_plat.Engine.Invariant.{IsValidFor, Parted}

match_levels-IsDistinct :
    (symbol : ℕ) (ks : List ℤ) (levels : Levels) (s : Fill)
    → IsDistinct (prices levels)
    → IsDistinct (prices (match_levels symbol ks levels s).0)
unfolding match_levels
match_levels-IsDistinct symbol [] levels s d = d
match_levels-IsDistinct symbol (px ∷ ks) levels s d =
    let r = drain symbol px (level_at px levels) [] s in
    ground (
      arith,
      store_level-IsDistinct px (restore r) levels d,
      match_levels-IsDistinct symbol ks (store_level px (restore r) levels) r.fill,
    )

module _ (book : OrderBook) (incoming : BookOrder) where
  abbrev pub Own : Levels
  Own = own_levels incoming.side book

  abbrev pub Opposite : Levels
  Opposite = opposite_levels incoming.side book

  -- What a resting order of the other side keeps while `incoming` is matched.
  record Waits (qx : ℤ) (r : BookOrder) : Type 0 where
    waits : IsResting (other_side incoming.side) qx r
    apart : AllOrders (λ px o. Parted incoming.side px o qx r) Own

  after_fill-Waits :
      (qx : ℤ) (r : BookOrder) (s : Fill)
      → Waits qx r
      → 0 < (after_fill r s).remaining
      → Waits qx (after_fill r s)
  after_fill-Waits qx r s h more = record {
    waits = record { sided = h.waits.sided; priced = h.waits.priced; open_shares = more };
    apart = h.apart;
  }

  abbrev Kept : Fill → Type 0
  Kept s = IsSame incoming s.incoming

  execute-Kept :
      (px : ℤ) (r : BookOrder) (s : Fill)
      → Fillable px r s
      → Waits px r
      → Kept s
      → Kept (execute book.symbol px r s)
  unfolding execute
  execute-Kept px r s f w h = record { side = h.side; type = h.type; user = h.user }

  All-Waits :
      (levels : Levels)
      → AllOrders (IsResting (other_side incoming.side)) levels
      → AllOrders (λ qx r. AllOrders (λ px o. Parted incoming.side px o qx r) Own) levels
      → AllOrders Waits levels
  All-Waits [] a b = tt
  All-Waits ((qx, l) ∷ levels) a b = (go l a.0 b.0, All-Waits levels a.1 b.1)
    where
      go :
          (l : List BookOrder)
          → All (IsResting (other_side incoming.side) qx) l
          → All (λ r. AllOrders (λ px o. Parted incoming.side px o qx r) Own) l
          → All (Waits qx) l
      go [] a b = tt
      go (r ∷ l) a b = (record { waits = a.0; apart = b.0 }, go l a.1 b.1)

  -- The two sides after the loops, still apart.
  pub loops-IsValidFor :
      IsValidFor incoming.side Own Opposite
      → let (levels, s) = run_loops book incoming in
        IsValidFor incoming.side Own levels × IsSame incoming s.incoming
  unfolding run_loops
  loops-IsValidFor v =
      let ks = sort_prices (ahead_for incoming.side) (prices Opposite) in
      let start : Fill = record { incoming = incoming; index = book.index; trades = [] } in
      let (waits, same) =
        match_levels_induction book.symbol Kept Waits execute-Kept after_fill-Waits ks Opposite
          start
          (All-Waits Opposite v.opposite_side.resting
            (AllOrders-swap (Parted incoming.side) Own Opposite v.parted))
          (record { side = refl; type = refl; user = refl }) in
      let levels = (match_levels book.symbol ks Opposite start).0 in
      (
        record {
          own_side = v.own_side;
          opposite_side = record {
            distinct =
                match_levels-IsDistinct book.symbol ks Opposite start v.opposite_side.distinct;
            resting = AllOrders-map (λ qx r h. h.waits) levels waits;
          };
          parted =
              AllOrders-swap (λ qx r px o. Parted incoming.side px o qx r) levels Own
                (AllOrders-map (λ qx r h. h.apart) levels waits);
        },
        same,
      )

pub within_others :
    (incoming : BookOrder) (px : ℤ) (o : BookOrder) (levels : Levels)
    → IsSame incoming o
    → o.order_type ≡ limit px
    → AllOrders (Done incoming []) levels
    → AllOrders (Parted o.side px o) levels
within_others incoming px o levels same e h =
    AllOrders-map (λ qx r f w. f refl (rw (← same.side, ← same.type, e) w) ∙ sym same.user) levels h

sorted_all :
    (incoming : BookOrder) (ahead : ℤ → ℤ → Bool) (all levels : Levels)
    → ((k : ℤ) → has_price k (prices levels) ≡ true → has_price k (prices all) ≡ true)
    → AllOrders (Done incoming (sort_prices ahead (prices all))) levels
sorted_all incoming ahead all [] f = tt
sorted_all incoming ahead all ((k, l) ∷ levels) f =
    (go l, sorted_all incoming ahead all levels (λ j h. f j (ground arith)))
  where
    found : has_price k (sort_prices ahead (prices all)) ≡ true
    found = has_price-sort_prices ahead k (prices all) ∙ f k (rw (eqb_ℤ_refl k))

    go : (l : List BookOrder) → All (Done incoming (sort_prices ahead (prices all)) k) l
    go [] = tt
    go (o ∷ l) = ((λ u w. absurd (false≢true (sym u ∙ found))), go l)

-- Shares are left over only when no other user's order within the limit is left.
pub loops-Done :
    (book : OrderBook) (incoming : BookOrder)
    → IsDistinct (prices (opposite_levels incoming.side book))
    → let (levels, s) = run_loops book incoming in
      0 < s.incoming.remaining → AllOrders (Done incoming []) levels
unfolding run_loops
loops-Done book incoming d =
    let levels = opposite_levels incoming.side book in
    match_levels-Done incoming book.symbol (sort_prices (ahead_for incoming.side) (prices levels))
      levels _ (record { side = refl; type = refl; user = refl }) d
      (sort_prices-IsSorted incoming.side (prices levels))
      (sorted_all incoming (ahead_for incoming.side) levels levels (λ k h. h))
