-- ===== src/Portfolio/Reserved.antt =====
-- What a holding has reserved is what the open reservations keep: services/portfolio-service/app.
use mini_stock_exchange_plat.Base.{
  ℕ, ◌+◌, ◌≤◌, ◌≡◌, refl, subst, ◌∙◌, ◌&&◌, Option, none, some, ◌==◌, if◌then◌else◌, arith,
  Bool-cases, inl, inr, both_branches,
}
use mini_stock_exchange_plat.Base.Dict.{
  Dict, lookup, total_of, value_of, total_of-insert, value_of-le_total,
}
use mini_stock_exchange_plat.Portfolio.{
  Holding, ShareReservation, Portfolio, get_or_create_holding, save_holding, save_reservation,
  Trade, bought, sold, used, use_reservation, process_buy, process_sell, open_quantity,
}
use mini_stock_exchange_plat.Portfolio.Shares.{passed}
use mini_stock_exchange_plat.Portfolio.Bounds.{get_or_create-save_holding}

-- What a reservation keeps of a user's holding of a symbol.
abbrev pub kept : ℕ → ℕ → ShareReservation → ℕ
kept user symbol r = if r.user_id == user && r.symbol == symbol then open_quantity r else 0

abbrev pub IsKept : ℕ → ℕ → Portfolio → Type 0
IsKept user symbol p =
    (get_or_create_holding user symbol p).reserved_quantity
    ≡ total_of (kept user symbol) p.reservations

abbrev pub AllKept : Portfolio → Type 0
AllKept p = (user symbol : ℕ) → IsKept user symbol p

abbrev pub IsOwn : ℕ → ℕ → Option ShareReservation → Type 0
IsOwn user symbol none = Unit
IsOwn user symbol (some r) = (r.user_id ≡ user) × (r.symbol ≡ symbol)

kept_value :
    (u s user symbol : ℕ) (o : Option ShareReservation)
    → IsOwn user symbol o
    → value_of (kept u s) o ≡ (if s == symbol && u == user then value_of open_quantity o else 0)
kept_value u s user symbol none own = ground arith
kept_value u s user symbol (some r) own = ground (arith, own)

-- A holding and a reservation of it change together, by the same amount.
pub both-AllKept :
    (order user symbol : ℕ) (h : Holding) (r : ShareReservation) (p : Portfolio)
    → IsOwn user symbol (some r)
    → IsOwn user symbol (lookup order p.reservations)
    → h.reserved_quantity + value_of open_quantity (lookup order p.reservations)
      ≡ (get_or_create_holding user symbol p).reserved_quantity + open_quantity r
    → AllKept p
    → AllKept (save_holding user symbol h (save_reservation order r p))
unfolding save_reservation save_holding get_or_create_holding
both-AllKept order user symbol h r p own old e k u s =
    let q = save_reservation order r p in
    let total = total_of-insert (kept u s) order r p.reservations in
    let before = kept_value u s user symbol (lookup order p.reservations) old in
    let after = kept_value u s user symbol (some r) own in
    rw (get_or_create-save_holding u s user symbol h q)
      (elim (Bool-cases (s == symbol && u == user)) [
        | inl mine ↦
            let here = k u s in
            let same_symbol : s ≡ symbol = ground arith in
            let same_user : u ≡ user = ground arith in
            let before' : value_of (kept u s) (lookup order p.reservations)
                ≡ value_of open_quantity (lookup order p.reservations) =
              before ∙ rw (mine, if◌then◌else◌) refl in
            let after' : kept u s r ≡ open_quantity r = after ∙ rw (mine, if◌then◌else◌) refl in
            let e' : h.reserved_quantity + value_of open_quantity (lookup order p.reservations)
                ≡ (get_or_create_holding u s p).reserved_quantity + open_quantity r =
              rw (same_symbol, same_user) e in
            rw (mine, if◌then◌else◌) (omega (arith, total, before', after', e', here))
        | inr other ↦
            let here = k u s in
            let before' : value_of (kept u s) (lookup order p.reservations) ≡ 0 =
              before ∙ rw (other, if◌then◌else◌) refl in
            let after' : kept u s r ≡ 0 = after ∙ rw (other, if◌then◌else◌) refl in
            rw (other, if◌then◌else◌) (omega (arith, total, before', after', here))
      ])

-- What a reservation keeps is reserved.
pub open-le-reserved :
    (order : ℕ) (r : ShareReservation) (p : Portfolio)
    → lookup order p.reservations ≡ some r
    → AllKept p
    → open_quantity r ≤ (get_or_create_holding r.user_id r.symbol p).reserved_quantity
open-le-reserved order r p e k =
    let here = k r.user_id r.symbol in
    let le = value_of-le_total (kept r.user_id r.symbol) order p.reservations in
    let value : value_of (kept r.user_id r.symbol) (lookup order p.reservations) ≡ open_quantity r =
      rw e (ground arith) in
    omega (arith, here, le, value)

-- A trade fits the reservation of its sell order: it is the seller's, of the symbol, keeps enough,
-- and keeps no more where nothing of the order remains.
pub record FitsIn (t : Trade) (reservations : Dict ShareReservation) : Type 0 where
  pub reservation : ShareReservation
  pub found : lookup t.sell_order reservations ≡ some reservation
  pub of_seller : reservation.user_id ≡ t.seller
  pub of_symbol : reservation.symbol ≡ t.symbol
  pub enough : t.quantity ≤ open_quantity reservation
  pub whole : t.sell_remaining ≡ 0 → t.quantity ≡ open_quantity reservation

-- Reservation and sold holding after such a trade.
open_quantity-used :
    (t : Trade) (r : ShareReservation)
    → t.quantity ≤ open_quantity r
    → (t.sell_remaining ≡ 0 → t.quantity ≡ open_quantity r)
    → open_quantity (used t r) + t.quantity ≡ open_quantity r
open_quantity-used t r h w = elim (Bool-cases (t.sell_remaining == 0)) [
  | inl last ↦ let all = w (ground arith) in rw (last, if◌then◌else◌) (omega (arith, all))
  | inr more ↦ rw (more, if◌then◌else◌) (omega arith)
]

used-IsOwn :
    (t : Trade) (user symbol : ℕ) (r : ShareReservation)
    → IsOwn user symbol (some r)
    → IsOwn user symbol (some (used t r))
used-IsOwn t user symbol r own =
    both_branches (λ r. IsOwn user symbol (some r)) (t.sell_remaining == 0) own own

reserved-same :
    (u s user symbol : ℕ) (h : Holding) (p : Portfolio)
    → h.reserved_quantity ≡ (get_or_create_holding user symbol p).reserved_quantity
    → (get_or_create_holding u s (save_holding user symbol h p)).reserved_quantity
      ≡ (get_or_create_holding u s p).reserved_quantity
reserved-same u s user symbol h p e =
    rw (get_or_create-save_holding u s user symbol h p)
      (elim (Bool-cases (s == symbol && u == user)) [
        | inl mine ↦
            let same_symbol : s ≡ symbol = ground arith in
            let same_user : u ≡ user = ground arith in
            rw (mine, if◌then◌else◌) (rw (same_symbol, same_user) e)
        | inr other ↦ rw (other, if◌then◌else◌) refl
      ])

pub process_buy-AllKept : (t : Trade) (p : Portfolio) → AllKept p → AllKept (process_buy t p)
unfolding process_buy save_holding get_or_create_holding
process_buy-AllKept t p k u s =
    reserved-same u s t.buyer t.symbol (bought t (get_or_create_holding t.buyer t.symbol p)) p refl
    ∙ k u s

pub process_sell-AllKept :
    (t : Trade) (p p' : Portfolio)
    → process_sell t p ≡ some p'
    → FitsIn t p.reservations
    → AllKept p
    → AllKept p'
unfolding process_sell use_reservation save_reservation save_holding get_or_create_holding
process_sell-AllKept t p p' h fits k =
    let r = fits.reservation in
    let h0 = get_or_create_holding t.seller t.symbol p in
    let own : IsOwn t.seller t.symbol (some r) = (fits.of_seller, fits.of_symbol) in
    let reserved : open_quantity r ≤ h0.reserved_quantity =
      subst (λ u. open_quantity r ≤ (get_or_create_holding u t.symbol p).reserved_quantity)
        fits.of_seller
        (subst (λ s. open_quantity r ≤ (get_or_create_holding r.user_id s p).reserved_quantity)
          fits.of_symbol (open-le-reserved t.sell_order r p fits.found k)) in
    let still = open_quantity-used t r fits.enough fits.whole in
    let kept' =
      both-AllKept t.sell_order t.seller t.symbol (sold t h0) (used t r) p
        (used-IsOwn t t.seller t.symbol r own) (rw fits.found own)
        (rw fits.found (omega (arith, reserved, still))) k in
    let (allowed, e) = passed _ _ _ h in subst AllKept e (rw fits.found (λ u s. kept' u s))
