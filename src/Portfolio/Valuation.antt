-- ===== src/Portfolio/Valuation.antt =====
-- What a portfolio is worth: `_get_portfolio` of services/portfolio-service/app/main.py. The last
-- prices come from Redis; amounts stay below 28 digits, where the source's rounding is exact.
use mini_stock_exchange_plat.Base.{
  ℕ, ◌+◌, ◌-◌, ◌*◌, ◌≡◌, refl, ℤ, pos, sub_ℕ, Bool, true, false, Option, none, some, List, [], ◌∷◌,
  arith, sum_of,
}
use mini_stock_exchange_plat.Base.Int.{◌+ℤ◌}
use mini_stock_exchange_plat.Base.Dict.{Dict}
use mini_stock_exchange_plat.Portfolio.{Holding}

pub record Position : Type 0 where
  pub symbol : ℕ
  pub quantity : ℕ
  pub available_quantity : ℕ
  pub reserved_quantity : ℕ
  pub last_price : ℕ
  pub market_value : ℕ
  pub cost_basis : ℕ
  pub unrealized_pnl : ℤ
  pub realized_pnl : ℤ
  pub price_stale : Bool

-- The mark, and whether it stands for a price that is missing.
unfoldable pub mark_of : Holding → Option ℕ → ℕ × Bool
mark_of h none = (h.avg_cost, true)
mark_of h (some price) = (price, false)

unfoldable pub position_of : ℕ → Holding → Option ℕ → Position
position_of symbol h price =
    let (mark, stale) = mark_of h price in
    record {
      symbol = symbol;
      quantity = h.quantity;
      available_quantity = h.quantity - h.reserved_quantity;
      reserved_quantity = h.reserved_quantity;
      last_price = mark;
      market_value = mark * h.quantity;
      cost_basis = h.avg_cost * h.quantity;
      unrealized_pnl = sub_ℕ (mark * h.quantity) (h.avg_cost * h.quantity);
      realized_pnl = h.realized_pnl;
      price_stale = stale;
    }

pub record Totals : Type 0 where
  pub total_market_value : ℕ
  pub total_cost_basis : ℕ
  pub total_unrealized_pnl : ℤ
  pub total_realized_pnl : ℤ

unfoldable pub add_position : Totals → Position → Totals
add_position t x = record {
  total_market_value = t.total_market_value + x.market_value;
  total_cost_basis = t.total_cost_basis + x.cost_basis;
  total_unrealized_pnl = t.total_unrealized_pnl +ℤ x.unrealized_pnl;
  total_realized_pnl = t.total_realized_pnl +ℤ x.realized_pnl;
}

-- The loop, over a user's holdings by symbol.
unfoldable pub value_from : (ℕ → Option ℕ) → Totals → Dict Holding → List Position × Totals
value_from prices t [] = ([], t)
value_from prices t ((symbol, h) ∷ holdings) =
    let x = position_of symbol h (prices symbol) in
    let rest = value_from prices (add_position t x) holdings in (x ∷ rest.0, rest.1)

abbrev pub no_totals : Totals
no_totals = record {
  total_market_value = 0;
  total_cost_basis = 0;
  total_unrealized_pnl = pos 0;
  total_realized_pnl = pos 0;
}

unfoldable pub get_portfolio : (ℕ → Option ℕ) → Dict Holding → List Position × Totals
get_portfolio prices holdings = value_from prices no_totals holdings

abbrev pub IsBalanced : Totals → Type 0
IsBalanced t = t.total_unrealized_pnl ≡ sub_ℕ t.total_market_value t.total_cost_basis

sub_ℕ-add : (a b c d : ℕ) → sub_ℕ a b +ℤ sub_ℕ c d ≡ sub_ℕ (a + c) (b + d)
unfolding ◌+ℤ◌
sub_ℕ-add a b c d = ground arith

add_position-IsBalanced :
    (t : Totals) (symbol : ℕ) (h : Holding) (price : Option ℕ)
    → IsBalanced t
    → IsBalanced (add_position t (position_of symbol h price))
unfolding add_position position_of
add_position-IsBalanced t symbol h price e = rw e (sub_ℕ-add _ _ _ _)

value_from-IsBalanced :
    (prices : ℕ → Option ℕ) (holdings : Dict Holding) (t : Totals)
    → IsBalanced t
    → IsBalanced (value_from prices t holdings).1
unfolding value_from
value_from-IsBalanced prices [] t e = e
value_from-IsBalanced prices ((symbol, h) ∷ holdings) t e =
    value_from-IsBalanced prices holdings (add_position t (position_of symbol h (prices symbol)))
      (add_position-IsBalanced t symbol h (prices symbol) e)

value_from-sums :
    (prices : ℕ → Option ℕ) (holdings : Dict Holding) (t : Totals)
    → ((value_from prices t holdings).1.total_market_value
        ≡ t.total_market_value + sum_of (λ x. x.market_value) (value_from prices t holdings).0)
      × ((value_from prices t holdings).1.total_cost_basis
          ≡ t.total_cost_basis + sum_of (λ x. x.cost_basis) (value_from prices t holdings).0)
unfolding value_from add_position
value_from-sums prices [] t = (omega arith, omega arith)
value_from-sums prices ((symbol, h) ∷ holdings) t =
    let (market, cost) =
      value_from-sums prices holdings (add_position t (position_of symbol h (prices symbol))) in
    (omega (arith, market), omega (arith, cost))

-- The totals of a portfolio are the sums of its positions' market values and costs, and the total
-- unrealized profit is their difference.
pub get_portfolio_totals :
    (prices : ℕ → Option ℕ) (holdings : Dict Holding)
    → let (positions, totals) = get_portfolio prices holdings in
      (totals.total_market_value ≡ sum_of (λ x. x.market_value) positions)
      × (totals.total_cost_basis ≡ sum_of (λ x. x.cost_basis) positions)
      × (totals.total_unrealized_pnl ≡ sub_ℕ totals.total_market_value totals.total_cost_basis)
unfolding get_portfolio
get_portfolio_totals prices holdings =
    let (market, cost) = value_from-sums prices holdings no_totals in
    (
      omega (arith, market),
      omega (arith, cost),
      value_from-IsBalanced prices holdings no_totals refl,
    )
