-- ===== src/Portfolio/Kept.antt =====
-- Reserved quantities after any operations of services/portfolio-service/app, one after another.
use mini_stock_exchange_plat.Base.{
  ℕ, ◌+◌, ◌-◌, ◌≡◌, refl, subst, some_injective, false, ◌&&◌, Option, none, some, List, [], ◌∷◌,
  ltb, ◌==◌, if◌then◌else◌, arith, Bool-cases, inl, inr, both_branches,
}
use mini_stock_exchange_plat.Base.Dict.{lookup, value_of, total_of-insert}
use mini_stock_exchange_plat.Events.Once.{member}
use mini_stock_exchange_plat.Portfolio.{
  Holding, ReservationStatus, held, released, ShareReservation, Portfolio, holders,
  get_or_create_holding, save_holding, save_reservation, Trade, recorded, process_buy, process,
  commit, handle_trade_executed, less_reserved, all_released, open_quantity, release_as,
  release_held, handle_order_cancelled_or_rejected, reserve_from, reserve_found, reserve_shares,
  release_from, release_by, release_shares, Op, trade_executed, order_ended, reserves, releases,
  apply,
}
use mini_stock_exchange_plat.Portfolio.Shares.{run, went_on}
use mini_stock_exchange_plat.Portfolio.Bounds.{
  IsSound, IsParted, IsWellParted, IsCurrent, apply-IsSound,
}
use mini_stock_exchange_plat.Portfolio.Reserved.{
  kept, AllKept, both-AllKept, open-le-reserved, FitsIn, process_buy-AllKept, process_sell-AllKept,
}

process-AllKept :
    (t : Trade) (p p' : Portfolio)
    → process t p ≡ some p'
    → (recorded t.trade_id t.seller p.history ≡ false → FitsIn t p.reservations)
    → AllKept p
    → AllKept p'
unfolding process process_buy save_holding
process-AllKept t p p' h fits k =
    let (unrecorded, e) = went_on _ _ p' h in
    process_sell-AllKept t (process_buy t p) p' e (fits (ground arith)) (process_buy-AllKept t p k)

commit-AllKept :
    (event : ℕ) (p : Portfolio) (o : Option Portfolio)
    → ((p' : Portfolio) → o ≡ some p' → AllKept p')
    → AllKept p
    → AllKept (commit event p o)
unfolding commit get_or_create_holding
commit-AllKept event p none h k = k
commit-AllKept event p (some p') h k =
    both_branches AllKept (member event p'.processed) k (λ u s. h p' refl u s)

-- A held reservation is let go, with what its holding kept for it.
freed-AllKept :
    (order n : ℕ) (r : ShareReservation) (h : Holding) (p : Portfolio)
    → lookup order p.reservations ≡ some r
    → n ≡ open_quantity r
    → h.reserved_quantity ≡ (get_or_create_holding r.user_id r.symbol p).reserved_quantity
    → AllKept p
    → AllKept (
        save_holding r.user_id r.symbol
          (less_reserved n h)
          (save_reservation order (all_released r) p))
freed-AllKept order n r h p e m same k =
    both-AllKept order r.user_id r.symbol (less_reserved n h) (all_released r) p (refl, refl)
      (rw e (refl, refl)) (rw e (omega (arith, open-le-reserved order r p e k, same, m))) k

release_as-AllKept :
    (s : ReservationStatus) (order : ℕ) (r : ShareReservation) (p : Portfolio)
    → r.status ≡ s
    → lookup order p.reservations ≡ some r
    → IsSound p
    → AllKept p
    → AllKept (release_as s order r p)
unfolding release_as
release_as-AllKept released order r p st e i k = k
release_as-AllKept held order r p st e i k =
    let parted : IsWellParted r held =
      subst (IsWellParted r) st (subst IsParted e (i.parted order)) in
    freed-AllKept order (r.quantity - r.consumed) r (get_or_create_holding r.user_id r.symbol p) p e
      (omega (arith, parted)) refl k

release_held-AllKept :
    (order : ℕ) (o : Option ShareReservation) (p : Portfolio)
    → lookup order p.reservations ≡ o
    → IsSound p
    → AllKept p
    → AllKept (release_held order o p)
unfolding release_held
release_held-AllKept order none p e i k = k
release_held-AllKept order (some r) p e i k = release_as-AllKept r.status order r p refl e i k

-- Where there is no holding, nothing is kept.
unheld-AllKept :
    (order : ℕ) (r : ShareReservation) (p : Portfolio)
    → lookup order p.reservations ≡ some r
    → lookup r.user_id (holders r.symbol p) ≡ none
    → AllKept p
    → AllKept (save_reservation order (all_released r) p)
unfolding save_reservation get_or_create_holding
unheld-AllKept order r p e n k u s =
    let nothing : (get_or_create_holding r.user_id r.symbol p).reserved_quantity ≡ 0 = rw n refl in
    let total = total_of-insert (kept u s) order (all_released r) p.reservations in
    let old : value_of (kept u s) (lookup order p.reservations) ≡ kept u s r = rw e refl in
    let none_kept : open_quantity r ≡ 0 = omega (arith, open-le-reserved order r p e k, nothing) in
    let still_none : open_quantity (all_released r) ≡ 0 = omega arith in
    let before : kept u s r ≡ 0 =
      both_branches (λ n. n ≡ 0) (r.user_id == u && r.symbol == s) none_kept refl in
    let after : kept u s (all_released r) ≡ 0 =
      both_branches (λ n. n ≡ 0) (r.user_id == u && r.symbol == s) still_none refl in
    omega (arith, total, old, before, after, k u s)

release_from-AllKept :
    (order : ℕ) (r : ShareReservation) (o : Option Holding) (p : Portfolio)
    → lookup r.user_id (holders r.symbol p) ≡ o
    → lookup order p.reservations ≡ some r
    → AllKept p
    → AllKept (release_from order r o p)
unfolding release_from get_or_create_holding
release_from-AllKept order r none p n e k = rw e (unheld-AllKept order r p e n k)
release_from-AllKept order r (some h) p n e k =
    rw e (freed-AllKept order (open_quantity r) r h p e refl (rw n refl) k)

release_by-AllKept :
    (s : ReservationStatus) (order : ℕ) (r : ShareReservation) (p : Portfolio)
    → lookup order p.reservations ≡ some r
    → AllKept p
    → AllKept (release_by s order r p).0
unfolding release_by
release_by-AllKept released order r p e k = k
release_by-AllKept held order r p e k = release_from-AllKept order r _ p refl e k

release_shares-AllKept :
    (order : ℕ) (o : Option ShareReservation) (p : Portfolio)
    → lookup order p.reservations ≡ o
    → AllKept p
    → AllKept (release_shares order o p).0
unfolding release_shares
release_shares-AllKept order none p e k = k
release_shares-AllKept order (some r) p e k = release_by-AllKept r.status order r p e k

reserve_from-AllKept :
    (order user symbol n : ℕ) (o : Option Holding) (p : Portfolio)
    → lookup user (holders symbol p) ≡ o
    → lookup order p.reservations ≡ none
    → AllKept p
    → AllKept (reserve_from order user symbol n o p).0
unfolding reserve_from save_reservation save_holding get_or_create_holding
reserve_from-AllKept order user symbol n none p h e k = k
reserve_from-AllKept order user symbol n (some h0) p h e k =
    elim (Bool-cases (ltb h0.quantity (h0.reserved_quantity + n))) [
      | inl short ↦ rw (short, if◌then◌else◌) k
      | inr enough ↦
          let r : ShareReservation = record {
            user_id = user;
            symbol = symbol;
            quantity = n;
            consumed = 0;
            released_quantity = 0;
            status = held;
          } in
          let j =
            both-AllKept order user symbol
              (record h0 { reserved_quantity = h0.reserved_quantity + n }) r p (refl, refl)
              (rw e tt) (rw (e, h) (omega arith)) k in
          rw (enough, if◌then◌else◌) (λ u s. j u s)
    ]

reserve_found-AllKept :
    (order user symbol n : ℕ) (o : Option ShareReservation) (p : Portfolio)
    → lookup order p.reservations ≡ o
    → AllKept p
    → AllKept (reserve_found order user symbol n o p).0
unfolding reserve_found
reserve_found-AllKept order user symbol n none p e k =
    reserve_from-AllKept order user symbol n _ p refl e k
reserve_found-AllKept order user symbol n (some r) p e k = k

-- A trade that is not recorded yet fits, and a release is from the reservation as it is.
abbrev pub Fits : Op → Portfolio → Type 0
Fits (trade_executed event t) p =
    recorded t.trade_id t.seller p.history ≡ false → FitsIn t p.reservations
Fits (releases order found) p = IsCurrent (releases order found) p
Fits _ p = Unit

abbrev pub AllFit : List Op → Portfolio → Type 0
AllFit [] p = Unit
AllFit (op ∷ ops) p = Fits op p × AllFit ops (apply op p)

current_of : (op : Op) (p : Portfolio) → Fits op p → IsCurrent op p
current_of (releases order found) p f = f
current_of (trade_executed event t) p f = tt
current_of (order_ended event order) p f = tt
current_of (reserves order user symbol n) p f = tt

apply-AllKept : (op : Op) (p : Portfolio) → Fits op p → IsSound p → AllKept p → AllKept (apply op p)
unfolding apply handle_trade_executed handle_order_cancelled_or_rejected reserve_shares
    release_shares
apply-AllKept (trade_executed event t) p f i k =
    both_branches AllKept (member event p.seen) k
      (commit-AllKept event p (process t p) (λ p' e. process-AllKept t p p' e f k) k)
apply-AllKept (order_ended event order) p f i k = both_branches AllKept (member event p.seen) k (
    commit-AllKept event p _
      (λ p' e.
        subst AllKept (some_injective e)
          (release_held-AllKept order (lookup order p.reservations) p refl i k))
      k)
apply-AllKept (reserves order user symbol n) p f i k =
    reserve_found-AllKept order user symbol n _ p refl k
apply-AllKept (releases order found) p f i k = release_shares-AllKept order found p f k

-- After any trades, ends of orders, reservations of quantities that are not negative, and
-- releases, in any order and number, each done reading and writing before the next, each holding's
-- reserved quantity is what the reservations of its user and symbol still keep, if that is so
-- before, reservations and holdings are in bounds before, each release finds the reservation as it
-- is, and each trade that is not recorded yet fits its sell order's reservation: the seller's, of
-- the symbol, with enough left, and with no more left where nothing of the order remains.
pub run-AllKept :
    (ops : List Op) (p : Portfolio) → AllFit ops p → IsSound p → AllKept p → AllKept (run ops p)
unfolding run
run-AllKept [] p f i k = k
run-AllKept (op ∷ ops) p f i k =
    run-AllKept ops (apply op p) f.1 (apply-IsSound op p (current_of op p f.0) i)
      (apply-AllKept op p f.0 i k)
