-- ===== src/Portfolio/Bounds.antt =====
-- What is reserved, consumed and released stays in bounds: services/portfolio-service/app.
use mini_stock_exchange_plat.Base.{
  ℕ, ◌+◌, ◌≤◌, ◌≡◌, refl, sym, subst, some_injective, ◌&&◌, Option, none, some, List, [], ◌∷◌, ltb,
  ◌==◌, if◌then◌else◌, arith, Bool-cases, inl, inr, both_branches,
}
use mini_stock_exchange_plat.Base.Dict.{lookup, lookup-insert}
use mini_stock_exchange_plat.Events.Once.{member}
use mini_stock_exchange_plat.Portfolio.{
  Holding, ReservationStatus, held, released, ShareReservation, Portfolio, holders, or_new,
  get_or_create_holding, save_holding, save_reservation, TradeHistory, add_history, Trade, bought,
  sold, used, use_reservation, sale_row, process_buy, process_sell, process, commit,
  handle_trade_executed, less_reserved, all_released, release_as, release_held,
  handle_order_cancelled_or_rejected, reserve_from, reserve_found, reserve_shares, release_from,
  release_by, release_shares, Op, trade_executed, order_ended, reserves, releases, apply,
}
use mini_stock_exchange_plat.Portfolio.Shares.{run, holders-save_holding, passed, went_on}

pub get_or_create-save_holding :
    (u s user symbol : ℕ) (h : Holding) (p : Portfolio)
    → get_or_create_holding u s (save_holding user symbol h p)
      ≡ (if s == symbol && u == user then h else get_or_create_holding u s p)
unfolding get_or_create_holding
get_or_create-save_holding u s user symbol h p =
    rw (holders-save_holding s user symbol h p)
      (ground (arith, lookup-insert u user h (holders symbol p)))

-- A reservation's parts, by its status.
abbrev pub IsWellParted : ShareReservation → ReservationStatus → Type 0
IsWellParted r held = (r.released_quantity ≡ 0) × (r.consumed ≤ r.quantity)
IsWellParted r released = r.consumed + r.released_quantity ≡ r.quantity

abbrev pub IsParted : Option ShareReservation → Type 0
IsParted none = Unit
IsParted (some r) = IsWellParted r r.status

abbrev pub IsCovered : Holding → Type 0
IsCovered h = h.reserved_quantity ≤ h.quantity

pub record IsSound (p : Portfolio) : Type 0 where
  pub covered : (user symbol : ℕ) → IsCovered (get_or_create_holding user symbol p)
  pub parted : (order : ℕ) → IsParted (lookup order p.reservations)

save_holding-IsSound :
    (user symbol : ℕ) (h : Holding) (p : Portfolio)
    → IsCovered h
    → IsSound p
    → IsSound (save_holding user symbol h p)
unfolding save_holding
save_holding-IsSound user symbol h p c i = record {
  covered = λ u s.
      rw (get_or_create-save_holding u s user symbol h p)
        (both_branches IsCovered (s == symbol && u == user) c (i.covered u s));
  parted = i.parted;
}

save_reservation-IsSound :
    (order : ℕ) (r : ShareReservation) (p : Portfolio)
    → IsWellParted r r.status
    → IsSound p
    → IsSound (save_reservation order r p)
unfolding save_reservation get_or_create_holding
save_reservation-IsSound order r p w i = record {
  covered = i.covered;
  parted = λ o.
      rw (lookup-insert o order r p.reservations)
        (both_branches IsParted (o == order) w (i.parted o));
}

add_history-IsSound : (t : TradeHistory) (p : Portfolio) → IsSound p → IsSound (add_history t p)
unfolding get_or_create_holding
add_history-IsSound t p i = record { covered = i.covered; parted = i.parted }

used-IsWellParted :
    (t : Trade) (s : ReservationStatus) (r : ShareReservation)
    → r.status ≡ s
    → IsWellParted r s
    → IsWellParted (used t r) (used t r).status
used-IsWellParted t held r e w =
    both_branches (λ r. IsWellParted r r.status) (t.sell_remaining == 0) (omega arith)
      (rw e (omega arith))
used-IsWellParted t released r e w =
    both_branches (λ r. IsWellParted r r.status) (t.sell_remaining == 0) (omega arith)
      (rw e (omega arith))

use_reservation-IsSound :
    (t : Trade) (o : Option ShareReservation) (p : Portfolio)
    → IsParted o
    → IsSound p
    → IsSound (use_reservation t o p)
unfolding use_reservation
use_reservation-IsSound t none p w i = i
use_reservation-IsSound t (some r) p w i =
    save_reservation-IsSound t.sell_order (used t r) p (used-IsWellParted t r.status r refl w) i

process_buy-IsSound : (t : Trade) (p : Portfolio) → IsSound p → IsSound (process_buy t p)
unfolding process_buy
process_buy-IsSound t p i =
    let c = i.covered t.buyer t.symbol in
    add_history-IsSound _ _ (
      save_holding-IsSound t.buyer t.symbol (bought t (get_or_create_holding t.buyer t.symbol p)) p
        (omega (arith, c)) i)

process_sell-IsSound :
    (t : Trade) (p p' : Portfolio) → process_sell t p ≡ some p' → IsSound p → IsSound p'
unfolding process_sell
process_sell-IsSound t p p' h i =
    let h0 = get_or_create_holding t.seller t.symbol p in
    let (allowed, e) = passed _ _ _ h in
    let c = i.covered t.seller t.symbol in
    rw (sym e) (
      use_reservation-IsSound t (lookup t.sell_order p.reservations) _ (i.parted t.sell_order) (
        add_history-IsSound (sale_row t h0) _
          (save_holding-IsSound t.seller t.symbol (sold t h0) p (omega (arith, c)) i)))

process-IsSound : (t : Trade) (p p' : Portfolio) → process t p ≡ some p' → IsSound p → IsSound p'
unfolding process
process-IsSound t p p' h i =
    process_sell-IsSound t (process_buy t p) p' (went_on _ _ p' h).1 (process_buy-IsSound t p i)

commit-IsSound :
    (event : ℕ) (p : Portfolio) (o : Option Portfolio)
    → ((p' : Portfolio) → o ≡ some p' → IsSound p')
    → IsSound p
    → IsSound (commit event p o)
unfolding commit get_or_create_holding
commit-IsSound event p none h i = i
commit-IsSound event p (some p') h i =
    both_branches IsSound (member event p'.processed) i
      (let j = h p' refl in record { covered = j.covered; parted = j.parted })

-- A reservation is released whole; the part of the holding that it kept is free.
all_released-IsWellParted :
    (s : ReservationStatus) (r : ShareReservation)
    → IsWellParted r s
    → IsWellParted (all_released r) released
all_released-IsWellParted held r w = omega arith
all_released-IsWellParted released r w = omega arith

freed-IsSound :
    (order n : ℕ) (r : ShareReservation) (h : Holding) (p : Portfolio)
    → IsWellParted r r.status
    → IsCovered h
    → IsSound p
    → IsSound (
        save_holding r.user_id r.symbol
          (less_reserved n h)
          (save_reservation order (all_released r) p))
freed-IsSound order n r h p w c i =
    save_holding-IsSound r.user_id r.symbol (less_reserved n h) _ (omega arith)
      (save_reservation-IsSound order (all_released r) p (all_released-IsWellParted r.status r w) i)

release_as-IsSound :
    (s : ReservationStatus) (order : ℕ) (r : ShareReservation) (p : Portfolio)
    → IsWellParted r r.status
    → IsSound p
    → IsSound (release_as s order r p)
unfolding release_as
release_as-IsSound released order r p w i = i
release_as-IsSound held order r p w i =
    freed-IsSound order _ r _ p w (i.covered r.user_id r.symbol) i

release_held-IsSound :
    (order : ℕ) (o : Option ShareReservation) (p : Portfolio)
    → IsParted o
    → IsSound p
    → IsSound (release_held order o p)
unfolding release_held
release_held-IsSound order none p w i = i
release_held-IsSound order (some r) p w i = release_as-IsSound r.status order r p w i

release_from-IsSound :
    (order : ℕ) (r : ShareReservation) (o : Option Holding) (p : Portfolio)
    → lookup r.user_id (holders r.symbol p) ≡ o
    → lookup order p.reservations ≡ some r
    → IsWellParted r r.status
    → IsSound p
    → IsSound (release_from order r o p)
unfolding release_from get_or_create_holding
release_from-IsSound order r none p e c w i =
    rw c
      (save_reservation-IsSound order (all_released r) p (all_released-IsWellParted r.status r w) i)
release_from-IsSound order r (some h) p e c w i = rw c (
    freed-IsSound order _ r h p w
      (subst (λ o. IsCovered (or_new o)) e (i.covered r.user_id r.symbol)) i)

release_by-IsSound :
    (s : ReservationStatus) (order : ℕ) (r : ShareReservation) (p : Portfolio)
    → lookup order p.reservations ≡ some r
    → IsWellParted r r.status
    → IsSound p
    → IsSound (release_by s order r p).0
unfolding release_by
release_by-IsSound released order r p c w i = i
release_by-IsSound held order r p c w i = release_from-IsSound order r _ p refl c w i

release_shares-IsSound :
    (order : ℕ) (o : Option ShareReservation) (p : Portfolio)
    → lookup order p.reservations ≡ o
    → IsParted o
    → IsSound p
    → IsSound (release_shares order o p).0
unfolding release_shares
release_shares-IsSound order none p c w i = i
release_shares-IsSound order (some r) p c w i = release_by-IsSound r.status order r p c w i

reserve_from-IsSound :
    (order user symbol n : ℕ) (o : Option Holding) (p : Portfolio)
    → IsSound p
    → IsSound (reserve_from order user symbol n o p).0
unfolding reserve_from
reserve_from-IsSound order user symbol n none p i = i
reserve_from-IsSound order user symbol n (some h) p i =
    elim (Bool-cases (ltb h.quantity (h.reserved_quantity + n))) [
      | inl short ↦ rw (short, if◌then◌else◌) i
      | inr enough ↦
          rw (enough, if◌then◌else◌)
            (save_reservation-IsSound order _ _ (omega arith)
              (save_holding-IsSound user symbol _ p (ground arith) i))
    ]

reserve_found-IsSound :
    (order user symbol n : ℕ) (o : Option ShareReservation) (p : Portfolio)
    → IsSound p
    → IsSound (reserve_found order user symbol n o p).0
unfolding reserve_found
reserve_found-IsSound order user symbol n none p i = reserve_from-IsSound order user symbol n _ p i
reserve_found-IsSound order user symbol n (some r) p i = i

-- A release is from the reservation as it is.
abbrev pub IsCurrent : Op → Portfolio → Type 0
IsCurrent (releases order found) p = lookup order p.reservations ≡ found
IsCurrent _ p = Unit

abbrev pub AllCurrent : List Op → Portfolio → Type 0
AllCurrent [] p = Unit
AllCurrent (op ∷ ops) p = IsCurrent op p × AllCurrent ops (apply op p)

pub apply-IsSound : (op : Op) (p : Portfolio) → IsCurrent op p → IsSound p → IsSound (apply op p)
unfolding apply handle_trade_executed handle_order_cancelled_or_rejected reserve_shares
    release_shares
apply-IsSound (trade_executed event t) p c i =
    both_branches IsSound (member event p.seen) i
      (commit-IsSound event p (process t p) (λ p' e. process-IsSound t p p' e i) i)
apply-IsSound (order_ended event order) p c i = both_branches IsSound (member event p.seen) i (
    commit-IsSound event p _
      (λ p' e.
        some-IsSound _ p' e
          (release_held-IsSound order (lookup order p.reservations) p (i.parted order) i))
      i)
  where
    some-IsSound : (x y : Portfolio) → some x ≡ some y → IsSound x → IsSound y
    some-IsSound x y e h = rw⁻¹ (some_injective e) h
apply-IsSound (reserves order user symbol n) p c i = reserve_found-IsSound order user symbol n _ p i
apply-IsSound (releases order found) p c i =
    release_shares-IsSound order found p c (subst IsParted c (i.parted order)) i

-- After any trades, ends of orders, reservations of quantities that are not negative, and
-- releases, each done reading and writing before the next, and each release with the reservation
-- found as it is, no holding has more reserved than it has, a held reservation has consumed no
-- more than its quantity and released nothing, and the parts of a released one add up to its
-- quantity, if that is so before.
pub run-IsSound :
    (ops : List Op) (p : Portfolio) → AllCurrent ops p → IsSound p → IsSound (run ops p)
unfolding run
run-IsSound [] p c i = i
run-IsSound (op ∷ ops) p c i = run-IsSound ops (apply op p) c.1 (apply-IsSound op p c.0 i)
