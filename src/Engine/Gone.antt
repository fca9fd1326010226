-- ===== src/Engine/Gone.antt =====
-- An order that is in the book of services/matching-engine/app/engine.py no more,
-- through `match` and `cancel`.
use mini_stock_exchange_plat.Base.{
  ℕ, ◌≡◌, ◌≢◌, ℤ, none, List, [], ◌∷◌, arith, ltb, if◌then◌else◌, Bool-cases, Option-cases, inl,
  inr, All-append,
}
use mini_stock_exchange_plat.Engine.Book.{
  Side, buy, sell, OrderType, market, limit, BookOrder, Trade, Levels, Index, OrderBook, level_at,
  own_levels, opposite_levels, with_own_levels, with_opposite_levels, sort_prices, prices, rest_at,
  rest, cancel_at, cancel,
}
use mini_stock_exchange_plat.Engine.Match.{Fill, execute, ahead_for, run_loops, settle_rest, match}
use mini_stock_exchange_plat.Engine.Match.Induction.{
  AllOrders, AllOrders-level_at, AllOrders-set_level, AllOrders-store_level, Fillable,
  match_levels_induction,
}
use mini_stock_exchange_plat.Engine.Validity.Writes.{All-remove_order}

abbrev pub IsOther : ℕ → ℤ → BookOrder → Type 0
IsOther id px o = o.order_id ≢ id

-- No order of the book has the id.
pub record IsGone (id : ℕ) (book : OrderBook) : Type 0 where
  pub unindexed : book.index id ≡ none
  pub no_bid : AllOrders (IsOther id) book.bids
  pub no_ask : AllOrders (IsOther id) book.asks

module _ (id : ℕ) where
  -- What every fill keeps.
  record IsApart (s : Fill) : Type 0 where
    other : s.incoming.order_id ≢ id
    unindexed : s.index id ≡ none

  execute-IsApart :
      (symbol : ℕ) (px : ℤ) (r : BookOrder) (s : Fill)
      → Fillable px r s
      → IsOther id px r
      → IsApart s
      → IsApart (execute symbol px r s)
  unfolding execute
  execute-IsApart symbol px r s f ne p = record {
    other = p.other;
    unindexed = ground (arith, ne, p.unindexed);
  }

  IsGone-opposite :
      (side : Side) (book : OrderBook)
      → IsGone id book
      → AllOrders (IsOther id) (opposite_levels side book)
  IsGone-opposite buy book g = g.no_ask
  IsGone-opposite sell book g = g.no_bid

  IsGone-own :
      (side : Side) (book : OrderBook)
      → IsGone id book
      → AllOrders (IsOther id) (own_levels side book)
  IsGone-own buy book g = g.no_bid
  IsGone-own sell book g = g.no_ask

  put_opposite-IsGone :
      (side : Side) (book : OrderBook) (levels : Levels) (index : Index)
      → index id ≡ none
      → AllOrders (IsOther id) levels
      → IsGone id book
      → IsGone id (record (with_opposite_levels side levels book) { index = index })
  put_opposite-IsGone buy book levels index u h g = record {
    unindexed = u;
    no_bid = g.no_bid;
    no_ask = h;
  }
  put_opposite-IsGone sell book levels index u h g = record {
    unindexed = u;
    no_bid = h;
    no_ask = g.no_ask;
  }

  put_own-IsGone :
      (side : Side) (book : OrderBook) (levels : Levels) (index : Index)
      → index id ≡ none
      → AllOrders (IsOther id) levels
      → IsGone id book
      → IsGone id (record (with_own_levels side levels book) { index = index })
  put_own-IsGone buy book levels index u h g = record {
    unindexed = u;
    no_bid = h;
    no_ask = g.no_ask;
  }
  put_own-IsGone sell book levels index u h g = record {
    unindexed = u;
    no_bid = g.no_bid;
    no_ask = h;
  }

  rest_at-IsGone :
      (book : OrderBook) (o : BookOrder) (type : OrderType)
      → o.order_id ≢ id
      → IsGone id book
      → IsGone id (rest_at book o type)
  unfolding rest_at
  rest_at-IsGone book o market ne g = g
  rest_at-IsGone book o (limit px) ne g =
      let own = own_levels o.side book in
      let there = IsGone-own o.side book g in
      put_own-IsGone o.side book _ _ (ground (arith, ne, g.unindexed))
        (AllOrders-set_level (IsOther id) px _ own
          (All-append (IsOther id px) (level_at px own) (o ∷ [])
            (AllOrders-level_at (IsOther id) px own there) (ne, tt))
          there)
        g

  settle_rest-IsGone :
      (book : OrderBook) (o : BookOrder) (trades : List Trade) (type : OrderType)
      → o.order_id ≢ id
      → IsGone id book
      → IsGone id (settle_rest book o trades type).0
  unfolding settle_rest rest
  settle_rest-IsGone book o trades market ne g = ground arith
  settle_rest-IsGone book o trades (limit px) ne g = elim (Bool-cases (ltb 0 o.remaining)) [
    | inl left ↦ rw (left, if◌then◌else◌) (rest_at-IsGone book o o.order_type ne g)
    | inr filled ↦ rw (filled, if◌then◌else◌) g
  ]

  pub match-IsGone :
      (book : OrderBook) (incoming : BookOrder)
      → incoming.order_id ≢ id
      → IsGone id book
      → IsGone id (match book incoming).book
  unfolding match run_loops
  match-IsGone book incoming ne g =
      let side = incoming.side in
      let (levels, s) = run_loops book incoming in
      let opposite = opposite_levels side book in
      let (apart, ended) =
        match_levels_induction book.symbol IsApart (IsOther id) (execute-IsApart book.symbol)
          (λ px r s ne left. ne) (sort_prices (ahead_for side) (prices opposite)) opposite
          (record { incoming = incoming; index = book.index; trades = [] })
          (IsGone-opposite side book g) (record { other = ne; unindexed = g.unindexed }) in
      let h =
        settle_rest-IsGone (record (with_opposite_levels side levels book) { index = s.index })
          s.incoming s.trades s.incoming.order_type ended.other
          (put_opposite-IsGone side book levels s.index ended.unindexed apart g) in
      record { unindexed = h.unindexed; no_bid = h.no_bid; no_ask = h.no_ask }

  cancel_at-IsGone :
      (book : OrderBook) (o : BookOrder) (type : OrderType)
      → IsGone id book
      → IsGone id (cancel_at book o type)
  unfolding cancel_at
  cancel_at-IsGone book o market g = g
  cancel_at-IsGone book o (limit px) g =
      let own = own_levels o.side book in
      let there = IsGone-own o.side book g in
      let h =
        put_own-IsGone o.side book _ book.index g.unindexed
          (AllOrders-store_level (IsOther id) px _ own
            (All-remove_order (IsOther id px) o.seq (level_at px own)
              (AllOrders-level_at (IsOther id) px own there))
            there)
          g in
      kept o.side _ h
    where
      kept :
          (side : Side) (levels : Levels)
          → IsGone id (record (with_own_levels side levels book) { index = book.index })
          → IsGone id (with_own_levels side levels book)
      kept buy levels h = h
      kept sell levels h = h

  pub cancel-IsGone : (book : OrderBook) (k : ℕ) → IsGone id book → IsGone id (cancel book k).0
  unfolding cancel
  cancel-IsGone book k g = elim (Option-cases (book.index k)) [
    | inl missing ↦ rw (missing, cancel) g
    | inr (o, found) ↦
        rw (found, cancel)
          (cancel_at-IsGone _ o o.order_type (record {
            unindexed = ground (arith, g.unindexed);
            no_bid = g.no_bid;
            no_ask = g.no_ask;
          }))
  ]
