-- ===== src/Portfolio/Shares.antt =====
-- Shares move between holders and are neither made nor lost, in services/portfolio-service/app.
use mini_stock_exchange_plat.Base.{
  ℕ, ◌+◌, ◌≡◌, refl, some_injective, sym, ◌∙◌, Bool, true, false, Option, none, some, List, [], ◌∷◌,
  ltb, ◌==◌, if◌then◌else◌, arith, both_branches,
}
use mini_stock_exchange_plat.Base.Dict.{
  lookup, insert, total_of, value_of, lookup-insert, total_of-insert,
}
use mini_stock_exchange_plat.Events.Once.{member}
use mini_stock_exchange_plat.Portfolio.{
  Holding, ReservationStatus, held, released, release_as, release_by, reserve_found, sale_row,
  ShareReservation, Portfolio, or_empty, holders, or_new, get_or_create_holding, save_holding,
  save_reservation, TradeHistory, add_history, Trade, bought, sold, use_reservation, process_buy,
  process_sell, process, commit, handle_trade_executed, less_reserved, all_released, release_held,
  handle_order_cancelled_or_rejected, reserve_from, reserve_shares, release_from, release_shares,
  Op, trade_executed, order_ended, reserves, releases, apply,
}

-- All the shares of a symbol.
unfoldable pub total_shares : ℕ → Portfolio → ℕ
total_shares symbol p = total_of (λ h. h.quantity) (holders symbol p)

pub holders-save_holding :
    (asked user symbol : ℕ) (h : Holding) (p : Portfolio)
    → holders asked (save_holding user symbol h p)
      ≡ (if asked == symbol then insert user h (holders symbol p) else holders asked p)
unfolding save_holding
holders-save_holding asked user symbol h p =
    rw (lookup-insert asked symbol (insert user h (holders symbol p)) p.holdings)
      (go (asked == symbol))
  where
    go :
        (b : Bool)
        → or_empty (if b then some (insert user h (holders symbol p)) else lookup asked p.holdings)
          ≡ (if b then insert user h (holders symbol p) else holders asked p)
    go true = refl
    go false = refl

quantity_value : (o : Option Holding) → value_of (λ h. h.quantity) o ≡ (or_new o).quantity
quantity_value none = refl
quantity_value (some h) = refl

-- Writing a holding changes the total of its symbol by as much as the holding.
total_shares-save_holding :
    (asked user symbol : ℕ) (h : Holding) (p : Portfolio)
    → total_shares asked (save_holding user symbol h p)
        + (if asked == symbol then (get_or_create_holding user symbol p).quantity else 0)
      ≡ total_shares asked p + (if asked == symbol then h.quantity else 0)
unfolding total_shares get_or_create_holding
total_shares-save_holding asked user symbol h p = rw (holders-save_holding asked user symbol h p) (
    ground (
      arith,
      total_of-insert (λ h. h.quantity) user h (holders symbol p),
      quantity_value (lookup user (holders symbol p)),
    ))

-- A holding that keeps its quantity.
total_shares-same :
    (asked user symbol : ℕ) (h : Holding) (p : Portfolio)
    → h.quantity ≡ (get_or_create_holding user symbol p).quantity
    → total_shares asked (save_holding user symbol h p) ≡ total_shares asked p
total_shares-same asked user symbol h p e =
    ground (arith, total_shares-save_holding asked user symbol h p)

total_shares-process_buy :
    (asked : ℕ) (t : Trade) (p : Portfolio)
    → total_shares asked (process_buy t p)
      ≡ total_shares asked p + (if asked == t.symbol then t.quantity else 0)
unfolding process_buy total_shares
total_shares-process_buy asked t p = ground (
  arith,
  total_shares-save_holding asked t.buyer t.symbol
      (bought t (get_or_create_holding t.buyer t.symbol p)) p,
)

total_shares-use_reservation :
    (asked : ℕ) (t : Trade) (r : Option ShareReservation) (p : Portfolio)
    → total_shares asked (use_reservation t r p) ≡ total_shares asked p
unfolding use_reservation save_reservation total_shares
total_shares-use_reservation asked t none p = refl
total_shares-use_reservation asked t (some r) p = refl

total_shares-add_history :
    (asked : ℕ) (t : TradeHistory) (p : Portfolio)
    → total_shares asked (add_history t p) ≡ total_shares asked p
unfolding total_shares
total_shares-add_history asked t p = refl

-- What a refusal does not stop.
pub passed :
    {A : Type 0} (b : Bool) (x y : A)
    → (if b then none else some x) ≡ some y
    → (b ≡ false) × (x ≡ y)
passed true x y h = ground arith
passed false x y h = ground arith

pub went_on :
    {A : Type 0} (b : Bool) (x : Option A) (y : A)
    → (if b then none else x) ≡ some y
    → (b ≡ false) × (x ≡ some y)
went_on true x y h = ground arith
went_on false x y h = (refl, h)

total_shares-process_sell :
    (asked : ℕ) (t : Trade) (p p' : Portfolio)
    → process_sell t p ≡ some p'
    → total_shares asked p' + (if asked == t.symbol then t.quantity else 0) ≡ total_shares asked p
unfolding process_sell
total_shares-process_sell asked t p p' h =
    let h0 = get_or_create_holding t.seller t.symbol p in
    let (allowed, e) = passed _ _ _ h in
    let written = save_holding t.seller t.symbol (sold t h0) p in
    rw
      (
        sym e,
        total_shares-use_reservation asked t (lookup t.sell_order p.reservations)
            (add_history (sale_row t h0) written),
        total_shares-add_history asked (sale_row t h0) written,
      )
      (ground (arith, total_shares-save_holding asked t.seller t.symbol (sold t h0) p))

total_shares-process :
    (asked : ℕ) (t : Trade) (p p' : Portfolio)
    → process t p ≡ some p'
    → total_shares asked p' ≡ total_shares asked p
unfolding process
total_shares-process asked t p p' h =
    let (fits, e) = went_on _ _ p' h in
    omega (
      arith,
      total_shares-process_buy asked t p,
      total_shares-process_sell asked t (process_buy t p) p' e,
    )

total_shares-commit :
    (asked event : ℕ) (p : Portfolio) (o : Option Portfolio)
    → ((p' : Portfolio) → o ≡ some p' → total_shares asked p' ≡ total_shares asked p)
    → total_shares asked (commit event p o) ≡ total_shares asked p
unfolding commit total_shares
total_shares-commit asked event p none h = refl
total_shares-commit asked event p (some p') h =
    both_branches (λ q. total_shares asked q ≡ total_shares asked p) (member event p'.processed)
      refl (h p' refl)

total_shares-save_reservation :
    (asked order : ℕ) (r : ShareReservation) (p : Portfolio)
    → total_shares asked (save_reservation order r p) ≡ total_shares asked p
unfolding total_shares save_reservation
total_shares-save_reservation asked order r p = refl

-- Less may be reserved of a holding.
total_shares-less_reserved :
    (asked order n : ℕ) (r r' : ShareReservation) (h : Holding) (p : Portfolio)
    → h.quantity ≡ (get_or_create_holding r.user_id r.symbol p).quantity
    → total_shares asked
        (save_holding r.user_id r.symbol (less_reserved n h) (save_reservation order r' p))
      ≡ total_shares asked p
unfolding save_reservation get_or_create_holding
total_shares-less_reserved asked order n r r' h p e =
    total_shares-same asked r.user_id r.symbol (less_reserved n h) (save_reservation order r' p) e
    ∙ total_shares-save_reservation asked order r' p

total_shares-release_as :
    (asked order : ℕ) (s : ReservationStatus) (r : ShareReservation) (p : Portfolio)
    → total_shares asked (release_as s order r p) ≡ total_shares asked p
unfolding release_as
total_shares-release_as asked order released r p = refl
total_shares-release_as asked order held r p =
    total_shares-less_reserved asked order _ r (all_released r) _ p refl

total_shares-release_held :
    (asked order : ℕ) (r : Option ShareReservation) (p : Portfolio)
    → total_shares asked (release_held order r p) ≡ total_shares asked p
unfolding release_held
total_shares-release_held asked order none p = refl
total_shares-release_held asked order (some r) p = total_shares-release_as asked order r.status r p

total_shares-release_from :
    (asked order : ℕ) (r : ShareReservation) (o : Option Holding) (p : Portfolio)
    → lookup r.user_id (holders r.symbol p) ≡ o
    → total_shares asked (release_from order r o p) ≡ total_shares asked p
unfolding release_from get_or_create_holding
total_shares-release_from asked order r none p e = total_shares-save_reservation asked order _ p
total_shares-release_from asked order r (some h) p e =
    total_shares-less_reserved asked order _ r _ h p (rw e refl)

total_shares-release_shares :
    (asked order : ℕ) (o : Option ShareReservation) (p : Portfolio)
    → total_shares asked (release_shares order o p).0 ≡ total_shares asked p
unfolding release_shares release_by
total_shares-release_shares asked order none p = refl
total_shares-release_shares asked order (some r) p = go r.status
  where
    go :
        (s : ReservationStatus)
        → total_shares asked (release_by s order r p).0 ≡ total_shares asked p
    go released = refl
    go held = total_shares-release_from asked order r _ p refl

total_shares-reserve_from :
    (asked order user symbol n : ℕ) (o : Option Holding) (p : Portfolio)
    → lookup user (holders symbol p) ≡ o
    → total_shares asked (reserve_from order user symbol n o p).0 ≡ total_shares asked p
unfolding reserve_from get_or_create_holding save_reservation
total_shares-reserve_from asked order user symbol n none p e = refl
total_shares-reserve_from asked order user symbol n (some h) p e =
    both_branches {A = Portfolio × Option ShareReservation}
      (λ x. total_shares asked x.0 ≡ total_shares asked p)
      (ltb h.quantity (h.reserved_quantity + n)) refl
      (total_shares-save_reservation asked order _ _
        ∙ total_shares-same asked user symbol _ p (rw e refl))

total_shares-reserve_found :
    (asked order user symbol n : ℕ) (o : Option ShareReservation) (p : Portfolio)
    → total_shares asked (reserve_found order user symbol n o p).0 ≡ total_shares asked p
unfolding reserve_found
total_shares-reserve_found asked order user symbol n none p =
    total_shares-reserve_from asked order user symbol n _ p refl
total_shares-reserve_found asked order user symbol n (some r) p = refl

total_shares-some :
    (asked : ℕ) (p x y : Portfolio)
    → some x ≡ some y
    → total_shares asked x ≡ total_shares asked p
    → total_shares asked y ≡ total_shares asked p
total_shares-some asked p x y e h = rw⁻¹ (some_injective e) h

pub total_shares-apply :
    (asked : ℕ) (op : Op) (p : Portfolio) → total_shares asked (apply op p) ≡ total_shares asked p
unfolding apply handle_trade_executed handle_order_cancelled_or_rejected reserve_shares
    release_shares
total_shares-apply asked (trade_executed event t) p =
    both_branches (λ q. total_shares asked q ≡ total_shares asked p) (member event p.seen) refl
      (total_shares-commit asked event p (process t p) (total_shares-process asked t p))
total_shares-apply asked (order_ended event order) p =
    both_branches (λ q. total_shares asked q ≡ total_shares asked p) (member event p.seen) refl
      (total_shares-commit asked event p _ (λ p' e.
        total_shares-some asked p (release_held order (lookup order p.reservations) p) p' e
          (total_shares-release_held asked order (lookup order p.reservations) p)))
total_shares-apply asked (reserves order user symbol n) p =
    total_shares-reserve_found asked order user symbol n _ p
total_shares-apply asked (releases order found) p = total_shares-release_shares asked order found p

unfoldable pub run : List Op → Portfolio → Portfolio
run [] p = p
run (op ∷ ops) p = run ops (apply op p)

-- No share is made or lost: any trades, ends of orders, reservations and releases, in any order
-- and number, leave the total of the holdings of each symbol as it was.
pub total_shares-run :
    (asked : ℕ) (ops : List Op) (p : Portfolio)
    → total_shares asked (run ops p) ≡ total_shares asked p
unfolding run
total_shares-run asked [] p = refl
total_shares-run asked (op ∷ ops) p =
    total_shares-run asked ops (apply op p) ∙ total_shares-apply asked op p
