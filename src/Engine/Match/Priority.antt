-- ===== src/Engine/Match/Priority.antt =====
-- The nested loops of `match` against price-time priority on one queue
-- (services/matching-engine/app/engine.py).
use mini_stock_exchange_plat.Base.{
  ℕ, ◌≡◌, refl, sym, ap, ◌∙◌, ℤ, true, false, List, [], ◌∷◌, ◌++◌, arith, ◌==◌, ◌||◌, if◌then◌else◌,
  inl, inr, Bool-cases, All,
}
use mini_stock_exchange_plat.Engine.Book.{
  BookOrder, Side, OrderBook, Levels, level_at, store_level, sort_prices, prices, opposite_levels,
}
use mini_stock_exchange_plat.Engine.Prices.{
  has_price, IsDistinct, IsSorted, sort_prices-IsSorted, beyond_limit-ahead_for,
  sort_prices-IsDistinct, level_at-store_level_ne,
}
use mini_stock_exchange_plat.Engine.Match.{
  Fill, execute, drain, restore, beyond_limit, match_levels, run_loops, match, ahead_for,
}

-- One pass over a queue of resting orders, best first: fill with each that another user owns,
-- until no share is wanted or the price is beyond the limit.
pub sweep : ℕ → List (ℤ × BookOrder) → Fill → Fill
sweep symbol [] s = s
sweep symbol ((px, r) ∷ queue) s =
    elim (s.incoming.remaining == 0 || beyond_limit s.incoming.side s.incoming.order_type px) [
      | true ↦ s
      | false ↦
          sweep symbol queue (if r.user_id == s.incoming.user_id then s else execute symbol px r s)
    ]

abbrev at_price : ℤ → List BookOrder → List (ℤ × BookOrder)
at_price px [] = []
at_price px (o ∷ level) = (px, o) ∷ at_price px level

-- The levels at these prices, one after the other.
abbrev queue_of : List ℤ → Levels → List (ℤ × BookOrder)
queue_of [] levels = []
queue_of (px ∷ ks) levels = at_price px (level_at px levels) ++ queue_of ks levels

sweep_nil : (symbol : ℕ) (s : Fill) → s ≡ sweep symbol [] s
unfolding sweep
sweep_nil symbol s = refl

sweep_full :
    (symbol : ℕ) (queue : List (ℤ × BookOrder)) (s : Fill)
    → s.incoming.remaining ≡ 0
    → sweep symbol queue s ≡ s
unfolding sweep
sweep_full symbol [] s h = refl
sweep_full symbol ((px, r) ∷ queue) s h = ground arith

drain-sweep :
    (symbol : ℕ) (px : ℤ) (level skipped : List BookOrder) (queue : List (ℤ × BookOrder)) (s : Fill)
    → beyond_limit s.incoming.side s.incoming.order_type px ≡ false
    → sweep symbol (at_price px level ++ queue) s
      ≡ sweep symbol queue (drain symbol px level skipped s).fill
unfolding drain sweep execute
drain-sweep symbol px [] skipped queue s w = refl
drain-sweep symbol px (r ∷ level) skipped queue s w = ground (
  arith,
  drain-sweep symbol px level (skipped ++ r ∷ []) queue s w,
  drain-sweep symbol px level skipped queue (execute symbol px r s) w,
  sweep_full symbol queue s,
  sweep_full symbol (at_price px level ++ queue) (execute symbol px r s),
  sweep_full symbol queue (execute symbol px r s),
)

queue_of-store_level :
    (px : ℤ) (level : List BookOrder) (ks : List ℤ) (levels : Levels)
    → has_price px ks ≡ false
    → queue_of ks (store_level px level levels) ≡ queue_of ks levels
queue_of-store_level px level [] levels h = refl
queue_of-store_level px level (k ∷ ks) levels h =
    ground
      (arith, level_at-store_level_ne k px level levels, queue_of-store_level px level ks levels)

-- Nothing behind the limit is filled.
sweep_level_beyond :
    (symbol : ℕ) (px : ℤ) (level : List BookOrder) (queue : List (ℤ × BookOrder)) (s : Fill)
    → beyond_limit s.incoming.side s.incoming.order_type px ≡ true
    → sweep symbol queue s ≡ s
    → sweep symbol (at_price px level ++ queue) s ≡ s
unfolding sweep
sweep_level_beyond symbol px [] queue s h e = e
sweep_level_beyond symbol px (r ∷ level) queue s h e = ground arith

sweep_beyond :
    (symbol : ℕ) (px : ℤ) (ks : List ℤ) (levels : Levels) (s : Fill)
    → beyond_limit s.incoming.side s.incoming.order_type px ≡ true
    → All (λ j. ahead_for s.incoming.side px j ≡ true) ks
    → sweep symbol (queue_of ks levels) s ≡ s
unfolding sweep
sweep_beyond symbol px [] levels s h a = refl
sweep_beyond symbol px (k ∷ ks) levels s h a =
    sweep_level_beyond symbol k (level_at k levels) (queue_of ks levels) s
      (beyond_limit-ahead_for s.incoming.side s.incoming.order_type px k h a.0)
      (sweep_beyond symbol px ks levels s h a.1)

drain_side :
    (symbol : ℕ) (px : ℤ) (level skipped : List BookOrder) (s : Fill)
    → (drain symbol px level skipped s).fill.incoming.side ≡ s.incoming.side
unfolding drain execute
drain_side symbol px [] skipped s = refl
drain_side symbol px (r ∷ level) skipped s = ground (
  arith,
  drain_side symbol px level (skipped ++ r ∷ []) s,
  drain_side symbol px level skipped (execute symbol px r s),
)

match_levels-sweep :
    (symbol : ℕ) (side : Side) (ks : List ℤ) (levels : Levels) (s : Fill)
    → s.incoming.side ≡ side
    → IsDistinct ks
    → IsSorted (ahead_for side) ks
    → (match_levels symbol ks levels s).1 ≡ sweep symbol (queue_of ks levels) s
unfolding match_levels
match_levels-sweep symbol side [] levels s e h o = sweep_nil symbol s
match_levels-sweep symbol side (px ∷ ks) levels s e h o =
    let d = drain symbol px (level_at px levels) [] s in
    elim (Bool-cases (s.incoming.remaining == 0)) [
      | inl full ↦
          rw (full, match_levels)
            (sym (sweep_full symbol (queue_of (px ∷ ks) levels) s (ground arith)))
      | inr more ↦ elim (Bool-cases (beyond_limit s.incoming.side s.incoming.order_type px)) [
        | inl stop ↦
            rw (more, stop, match_levels)
              (sym (
                sweep_level_beyond symbol px (level_at px levels) (queue_of ks levels) s stop
                  (sweep_beyond symbol px ks levels s stop (rw e o.0))))
        | inr fine ↦
            rw (more, fine, match_levels)
              (match_levels-sweep symbol side ks (store_level px (restore d) levels) d.fill
                  (drain_side symbol px (level_at px levels) [] s ∙ e) h.1 o.1
                ∙ ap (λ q. sweep symbol q d.fill)
                    (queue_of-store_level px (restore d) ks levels h.0)
                ∙ sym (drain-sweep symbol px (level_at px levels) [] (queue_of ks levels) s fine))
      ]
    ]

-- The resting orders that `incoming` meets, in price-time order.
pub priority_queue : OrderBook → BookOrder → List (ℤ × BookOrder)
priority_queue book incoming =
    let levels = opposite_levels incoming.side book in
    queue_of (sort_prices (ahead_for incoming.side) (prices levels)) levels

-- The nested loops of match fill by price-time priority: if no price has two levels on the
-- opposite side, match makes the trades, and leaves the incoming order, that one sweep over the
-- queue of all resting orders does, best price first and each level from its front, skipping the
-- user's own orders.
pub match-sweep :
    (book : OrderBook) (incoming : BookOrder)
    → IsDistinct (prices (opposite_levels incoming.side book))
    → let s =
        sweep book.symbol
          (priority_queue book incoming)
          (record { incoming = incoming; index = book.index; trades = [] }) in
      ((match book incoming).trades ≡ s.trades) × ((match book incoming).incoming ≡ s.incoming)
unfolding match priority_queue run_loops
match-sweep book incoming h =
    let levels = opposite_levels incoming.side book in
    let ks = sort_prices (ahead_for incoming.side) (prices levels) in
    let start : Fill = record { incoming = incoming; index = book.index; trades = [] } in
    let e =
      match_levels-sweep book.symbol incoming.side ks levels start refl
        (sort_prices-IsDistinct (ahead_for incoming.side) (prices levels) h)
        (sort_prices-IsSorted incoming.side (prices levels)) in
    (ap (λ s. s.trades) e, ap (λ s. s.incoming) e)
