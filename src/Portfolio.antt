-- ===== src/Portfolio.antt =====
-- Holdings and share reservations: services/portfolio-service/app/events.py, models.py and the
-- reservation routes of main.py. What an operation reads and writes in its transaction is one
-- step, under a lock in all but handle_order_cancelled_or_rejected. Users, symbols, orders and
-- trades are numbers; money is in ten-thousandths.
pub mod Shares
pub mod Reserved
pub mod Kept
pub mod Valuation
pub mod Bounds
mod Tests
use mini_stock_exchange_plat.Base.{
  ℕ, min, ◌+◌, ◌-◌, ◌*◌, ◌≡◌, ℤ, pos, sub_ℕ, Bool, true, false, not, ◌||◌, ◌&&◌, Option, none, some,
  List, [], ◌∷◌, leb, ltb, ◌==◌, if◌then◌else◌,
}
use mini_stock_exchange_plat.Base.Int.{◌+ℤ◌, ◌*ℤ◌}
use mini_stock_exchange_plat.Base.Dict.{Dict, lookup, insert, total_of}
use mini_stock_exchange_plat.Money.{div_half_up}
use mini_stock_exchange_plat.Events.Once.{member}

pub record Holding : Type 0 where
  pub quantity : ℕ
  pub reserved_quantity : ℕ
  pub avg_cost : ℕ
  pub realized_pnl : ℤ

pub data ReservationStatus : Type 0 where
  held released : ReservationStatus

pub record ShareReservation : Type 0 where
  pub user_id : ℕ
  pub symbol : ℕ
  pub quantity : ℕ
  pub consumed : ℕ
  pub released_quantity : ℕ
  pub status : ReservationStatus

pub data Side : Type 0 where
  buy sell : Side

pub record TradeHistory : Type 0 where
  pub trade_id : ℕ
  pub user_id : ℕ
  pub symbol : ℕ
  pub side : Side
  pub quantity : ℕ
  pub price : ℕ
  pub realized_pnl : ℤ

-- The tables, a holding under its symbol and user, and the markers in Redis.
pub record Portfolio : Type 0 where
  pub holdings : Dict (Dict Holding)
  pub reservations : Dict ShareReservation
  pub history : List TradeHistory
  pub processed : List ℕ
  pub seen : List ℕ

abbrev pub or_empty : Option (Dict Holding) → Dict Holding
or_empty none = []
or_empty (some table) = table

-- The holdings of a symbol, by user.
abbrev pub holders : ℕ → Portfolio → Dict Holding
holders symbol p = or_empty (lookup symbol p.holdings)

abbrev pub new_holding : Holding
new_holding = record { quantity = 0; reserved_quantity = 0; avg_cost = 0; realized_pnl = pos 0 }

abbrev pub or_new : Option Holding → Holding
or_new none = new_holding
or_new (some h) = h

-- `get_or_create_holding`; the row is written by `save_holding`.
unfoldable pub get_or_create_holding : ℕ → ℕ → Portfolio → Holding
get_or_create_holding user symbol p = or_new (lookup user (holders symbol p))

unfoldable pub save_holding : ℕ → ℕ → Holding → Portfolio → Portfolio
save_holding user symbol h p = record p {
  holdings = insert symbol (insert user h (holders symbol p)) p.holdings;
}

unfoldable pub save_reservation : ℕ → ShareReservation → Portfolio → Portfolio
save_reservation order r p = record p { reservations = insert order r p.reservations }

abbrev pub add_history : TradeHistory → Portfolio → Portfolio
add_history t p = record p { history = t ∷ p.history }

-- The payload of trade.executed.
pub record Trade : Type 0 where
  pub trade_id : ℕ
  pub symbol : ℕ
  pub quantity : ℕ
  pub price : ℕ
  pub buyer : ℕ
  pub seller : ℕ
  pub sell_order : ℕ
  pub sell_remaining : ℕ

-- The average is rounded once; the source's quotient is cut to 28 digits before.
abbrev pub bought : Trade → Holding → Holding
bought t h =
    let total = h.quantity + t.quantity in
    record h {
      quantity = total;
      avg_cost =
          if ltb 0 total
          then div_half_up (h.quantity * h.avg_cost + t.quantity * t.price) total
          else h.avg_cost;
    }

abbrev pub realized : Trade → Holding → ℤ
realized t h = sub_ℕ t.price h.avg_cost *ℤ pos t.quantity

abbrev pub sold : Trade → Holding → Holding
sold t h =
    let left = h.quantity - t.quantity in
    record {
      quantity = left;
      reserved_quantity = h.reserved_quantity - min h.reserved_quantity t.quantity;
      avg_cost = if left == 0 then 0 else h.avg_cost;
      realized_pnl = h.realized_pnl +ℤ realized t h;
    }

abbrev pub open_quantity : ShareReservation → ℕ
open_quantity r = r.quantity - r.consumed - r.released_quantity

abbrev pub used : Trade → ShareReservation → ShareReservation
used t r =
    let r' = record r { consumed = r.consumed + min (open_quantity r) t.quantity } in
    if t.sell_remaining == 0
    then record r' {
      released_quantity = r'.released_quantity + open_quantity r';
      status = released;
    }
    else r'

unfoldable pub use_reservation : Trade → Option ShareReservation → Portfolio → Portfolio
use_reservation t none p = p
use_reservation t (some r) p = save_reservation t.sell_order (used t r) p

abbrev pub recorded : ℕ → ℕ → List TradeHistory → Bool
recorded trade user [] = false
recorded trade user (t ∷ ts) = t.trade_id == trade && t.user_id == user || recorded trade user ts

abbrev pub sale_row : Trade → Holding → TradeHistory
sale_row t h = record {
  trade_id = t.trade_id;
  user_id = t.seller;
  symbol = t.symbol;
  side = sell;
  quantity = t.quantity;
  price = t.price;
  realized_pnl = realized t h;
}

-- The buyer's half of `process`, and the seller's. `none` is a constraint that refuses the rows:
-- one row of trade_history for a trade and a user, no negative quantity, and no more reserved than
-- there is.
unfoldable pub process_buy : Trade → Portfolio → Portfolio
process_buy t p =
    add_history
      (record {
        trade_id = t.trade_id;
        user_id = t.buyer;
        symbol = t.symbol;
        side = buy;
        quantity = t.quantity;
        price = t.price;
        realized_pnl = pos 0;
      })
      (save_holding t.buyer t.symbol (bought t (get_or_create_holding t.buyer t.symbol p)) p)

unfoldable pub process_sell : Trade → Portfolio → Option Portfolio
process_sell t p =
    let h = get_or_create_holding t.seller t.symbol p in
    let p' = add_history (sale_row t h) (save_holding t.seller t.symbol (sold t h) p) in
    if ltb h.quantity t.quantity || ltb (sold t h).quantity (sold t h).reserved_quantity
    then none
    else some (use_reservation t (lookup t.sell_order p.reservations) p')

unfoldable pub process : Trade → Portfolio → Option Portfolio
process t p =
    if recorded t.trade_id t.buyer p.history
      || recorded t.trade_id t.seller p.history
      || t.buyer == t.seller
    then none
    else process_sell t (process_buy t p)

-- The commit with the row of processed_events, and the marker after it.
unfoldable pub commit : ℕ → Portfolio → Option Portfolio → Portfolio
commit event p none = p
commit event p (some p') =
    if member event p'.processed
    then p
    else record p' { processed = event ∷ p'.processed; seen = event ∷ p'.seen }

unfoldable pub handle_trade_executed : ℕ → Trade → Portfolio → Portfolio
handle_trade_executed event t p = if member event p.seen then p else commit event p (process t p)

abbrev pub all_released : ShareReservation → ShareReservation
all_released r = record r {
  released_quantity = r.released_quantity + open_quantity r;
  status = released;
}

abbrev pub less_reserved : ℕ → Holding → Holding
less_reserved n h = record h { reserved_quantity = h.reserved_quantity - n }

-- The end of a reservation in `handle_order_cancelled_or_rejected`, by its status.
unfoldable pub release_as : ReservationStatus → ℕ → ShareReservation → Portfolio → Portfolio
release_as released order r p = p
release_as held order r p =
    save_holding r.user_id r.symbol
      (less_reserved (r.quantity - r.consumed) (get_or_create_holding r.user_id r.symbol p))
      (save_reservation order (all_released r) p)

unfoldable pub release_held : ℕ → Option ShareReservation → Portfolio → Portfolio
release_held order none p = p
release_held order (some r) p = release_as r.status order r p

unfoldable pub handle_order_cancelled_or_rejected : ℕ → ℕ → Portfolio → Portfolio
handle_order_cancelled_or_rejected event order p =
    if member event p.seen
    then p
    else commit event p (some (release_held order (lookup order p.reservations) p))

-- `reserve_shares`: the answer is the reservation, or `none` for insufficient shares. The quantity is
-- a natural number, as the Order Service sends it; the route takes a negative one as well.
unfoldable pub reserve_from :
    ℕ → ℕ → ℕ → ℕ → Option Holding → Portfolio → Portfolio × Option ShareReservation
reserve_from order user symbol quantity none p = (p, none)
reserve_from order user symbol quantity (some h) p =
    let r : ShareReservation = record {
      user_id = user;
      symbol = symbol;
      quantity = quantity;
      consumed = 0;
      released_quantity = 0;
      status = held;
    } in
    if ltb h.quantity (h.reserved_quantity + quantity) then (p, none) else (
      save_reservation order r (
          save_holding user symbol (record h { reserved_quantity = h.reserved_quantity + quantity })
            p),
      some r,
    )

unfoldable pub reserve_found :
    ℕ → ℕ → ℕ → ℕ → Option ShareReservation → Portfolio → Portfolio × Option ShareReservation
reserve_found order user symbol quantity (some r) p = (p, some r)
reserve_found order user symbol quantity none p =
    reserve_from order user symbol quantity (lookup user (holders symbol p)) p

unfoldable pub reserve_shares : ℕ → ℕ → ℕ → ℕ → Portfolio → Portfolio × Option ShareReservation
reserve_shares order user symbol quantity p =
    reserve_found order user symbol quantity (lookup order p.reservations) p

-- The row that `release_shares` writes from its copy `r`; only the changed columns are written.
abbrev pub released_row : ShareReservation → Option ShareReservation → ShareReservation
released_row r none = all_released r
released_row r (some stored) = record stored {
  released_quantity = (all_released r).released_quantity;
  status = released;
}

unfoldable pub release_from : ℕ → ShareReservation → Option Holding → Portfolio → Portfolio
release_from order r none p =
    save_reservation order (released_row r (lookup order p.reservations)) p
release_from order r (some h) p =
    save_holding r.user_id r.symbol (less_reserved (open_quantity r) h)
      (save_reservation order (released_row r (lookup order p.reservations)) p)

unfoldable pub release_by : ReservationStatus → ℕ → ShareReservation → Portfolio → Portfolio × ℕ
release_by released order r p = (p, 0)
release_by held order r p =
    (release_from order r (lookup r.user_id (holders r.symbol p)) p, open_quantity r)

-- `release_shares`, and the quantity that it answers. The reservation is `found` before the lock is
-- taken; the second `get` answers with the same copy.
unfoldable pub release_shares : ℕ → Option ShareReservation → Portfolio → Portfolio × ℕ
release_shares order none p = (p, 0)
release_shares order (some r) p = release_by r.status order r p

-- The operations, in any order; what one reads and writes of the tables is one step, but for the
-- copy that a release has read before.
pub data Op : Type 0 where
  trade_executed : ℕ → Trade → Op
  order_ended : ℕ → ℕ → Op
  reserves : ℕ → ℕ → ℕ → ℕ → Op
  releases : ℕ → Option ShareReservation → Op

unfoldable pub apply : Op → Portfolio → Portfolio
apply (trade_executed event t) p = handle_trade_executed event t p
apply (order_ended event order) p = handle_order_cancelled_or_rejected event order p
apply (reserves order user symbol quantity) p = (reserve_shares order user symbol quantity p).0
apply (releases order found) p = (release_shares order found p).0
