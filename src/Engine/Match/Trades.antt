-- ===== src/Engine/Match/Trades.antt =====
-- What the trades of `match` are like (services/matching-engine/app/engine.py).
use mini_stock_exchange_plat.Base.{
  ℕ, ◌+◌, ◌<◌, ◌≡◌, ◌≢◌, refl, ℤ, false, List, [], ◌∷◌, arith, ◌-◌, All, All-append, sum_of,
  sum_of-append,
}
use mini_stock_exchange_plat.Engine.Book.{
  Side, buy, sell, limit, BookOrder, Trade, OrderBook, opposite_levels, sort_prices, prices,
}
use mini_stock_exchange_plat.Engine.Match.{
  Fill, fill_qty, after_fill, execute, make_trade, beyond_limit, run_loops, match, ahead_for,
}
use mini_stock_exchange_plat.Engine.Match.Induction.{AllOrders, Fillable, match_levels_induction}

-- The other side of the book.
abbrev pub other_side : Side → Side
other_side buy = sell
other_side sell = buy

-- An order as it rests at a price: of the side, a limit order at that price, shares left.
pub record IsResting (side : Side) (px : ℤ) (o : BookOrder) : Type 0 where
  pub sided : o.side ≡ side
  pub priced : o.order_type ≡ limit px
  pub open_shares : 0 < o.remaining

-- A trade that the incoming order may make.
pub record IsFair (symbol : ℕ) (incoming : BookOrder) (t : Trade) : Type 0 where
  pub listed : t.symbol ≡ symbol
  pub within : beyond_limit incoming.side incoming.order_type t.price ≡ false
  pub parties : t.buyer_user_id ≢ t.seller_user_id
  pub positive : 0 < t.quantity
  pub aggressor : t.aggressor_side ≡ incoming.side

abbrev quantity_of : List Trade → ℕ
quantity_of = sum_of (λ t. t.quantity)

module _ (symbol : ℕ) (incoming : BookOrder) where
  -- What every fill keeps.
  record Progress (s : Fill) : Type 0 where
    side : s.incoming.side ≡ incoming.side
    type : s.incoming.order_type ≡ incoming.order_type
    user : s.incoming.user_id ≡ incoming.user_id
    conserved : quantity_of s.trades + s.incoming.remaining ≡ incoming.remaining
    fair : All (IsFair symbol incoming) s.trades

  make_trade-IsFair :
      (px : ℤ) (qty : ℕ) (o r : BookOrder)
      → o.side ≡ incoming.side
      → beyond_limit incoming.side incoming.order_type px ≡ false
      → r.user_id ≢ o.user_id
      → 0 < qty
      → IsFair symbol incoming (make_trade symbol px qty o r)
  unfolding make_trade
  make_trade-IsFair px qty o r e w ne h = ground arith

  quantity-make_trade :
      (px : ℤ) (qty : ℕ) (o r : BookOrder) → (make_trade symbol px qty o r).quantity ≡ qty
  unfolding make_trade
  quantity-make_trade px qty o r = ground arith

  execute-Progress :
      (px : ℤ) (r : BookOrder) (s : Fill)
      → Fillable px r s
      → IsResting (other_side incoming.side) px r
      → Progress s
      → Progress (execute symbol px r s)
  unfolding execute
  execute-Progress px r s f ok p =
      let qty = fill_qty r s in
      let o = record s.incoming { remaining = s.incoming.remaining - qty } in
      let t = make_trade symbol px qty o (after_fill r s) in
      let legal : beyond_limit incoming.side incoming.order_type px ≡ false =
        rw (← p.side, ← p.type) f.within in
      let fair_t : IsFair symbol incoming t =
        make_trade-IsFair px qty o (after_fill r s) p.side legal f.others (omega arith) in
      record {
        side = p.side;
        type = p.type;
        user = p.user;
        conserved = omega (
          arith,
          sum_of-append (λ t. t.quantity) s.trades (t ∷ []),
          quantity-make_trade px qty o (after_fill r s),
        );
        fair = All-append (IsFair symbol incoming) s.trades (t ∷ []) p.fair (fair_t, tt);
      }

  after_fill-IsResting :
      (px : ℤ) (r : BookOrder) (s : Fill)
      → IsResting (other_side incoming.side) px r
      → 0 < (after_fill r s).remaining
      → IsResting (other_side incoming.side) px (after_fill r s)
  after_fill-IsResting px r s ok more = record {
    sided = ok.sided;
    priced = ok.priced;
    open_shares = more;
  }

-- The side that `incoming` is matched against holds resting limit orders at their own prices.
abbrev pub HasOpposite : OrderBook → BookOrder → Type 0
HasOpposite book incoming =
    AllOrders (IsResting (other_side incoming.side)) (opposite_levels incoming.side book)

run_loops-Progress :
    (book : OrderBook) (incoming : BookOrder)
    → HasOpposite book incoming
    → let (levels, s) = run_loops book incoming in
      AllOrders (IsResting (other_side incoming.side)) levels × Progress book.symbol incoming s
unfolding run_loops
run_loops-Progress book incoming h =
    match_levels_induction book.symbol (Progress book.symbol incoming)
      (IsResting (other_side incoming.side)) (execute-Progress book.symbol incoming)
      (after_fill-IsResting book.symbol incoming)
      (sort_prices (ahead_for incoming.side) (prices (opposite_levels incoming.side book))) _ _ h
      (record { side = refl; type = refl; user = refl; conserved = omega arith; fair = tt })

-- Where every order of the opposite side rests as it should (of that side, at its price, with
-- shares left), the shares that the trades of match fill and the shares that the order has left
-- add up to what it came with.
pub match_conserves :
    (book : OrderBook) (incoming : BookOrder)
    → HasOpposite book incoming
    → let m = match book incoming in
      quantity_of m.trades + m.incoming.remaining ≡ incoming.remaining
unfolding match
match_conserves book incoming h = (run_loops-Progress book incoming h).1.conserved

-- Where every order of the opposite side rests as it should, every trade of match is in the book's
-- symbol, at a price within the incoming order's limit, between two different users, for at least
-- one share, with the incoming order's side as the aggressor.
pub match-IsFair :
    (book : OrderBook) (incoming : BookOrder)
    → HasOpposite book incoming
    → All (IsFair book.symbol incoming) (match book incoming).trades
unfolding match
match-IsFair book incoming h = (run_loops-Progress book incoming h).1.fair
