-- ===== src/Engine/Match/Clearing.antt =====
-- What is left on the other side when `match` leaves shares over
-- (services/matching-engine/app/engine.py).
use mathlib.Core.Bool.{false≢true}
use mini_stock_exchange_plat.Base.{
  ℕ, ◌<◌, ◌≤◌, ◌≡◌, sym, ◌∙◌, ℤ, Bool, true, false, List, [], ◌∷◌, ◌++◌, arith, ◌==◌, eqb_ℤ,
  eqb_ℤ→eq, All, All-append, All-map, inl, inr, Bool-cases,
}
use mini_stock_exchange_plat.Engine.Book.{BookOrder, Levels, level_at, store_level, prices}
use mini_stock_exchange_plat.Engine.Match.{
  Fill, execute, drain, restore, beyond_limit, match_levels, ahead_for,
}
use mini_stock_exchange_plat.Engine.Prices.{has_price, IsDistinct, IsSorted, beyond_limit-ahead_for}
use mini_stock_exchange_plat.Engine.Levels.{store_level-at, store_level-IsDistinct, AllOrders-map}
use mini_stock_exchange_plat.Engine.Match.Induction.{AllOrders, Fillable, match_levels_induction}

-- The loops never give shares back to the incoming order.
remaining-match_levels-le :
    (symbol : ℕ) (ks : List ℤ) (levels : Levels) (s : Fill)
    → (match_levels symbol ks levels s).1.incoming.remaining ≤ s.incoming.remaining
remaining-match_levels-le symbol ks levels s =
    (match_levels_induction symbol (λ s'. s'.incoming.remaining ≤ s.incoming.remaining)
      (λ px o. Unit {0}) (execute-le s) (λ px r s' u more. tt) ks levels s (anything levels)
      (omega arith)).1
  where
    execute-le :
        (s : Fill) (px : ℤ) (r : BookOrder) (s' : Fill)
        → Fillable px r s'
        → Unit {0}
        → s'.incoming.remaining ≤ s.incoming.remaining
        → (execute symbol px r s').incoming.remaining ≤ s.incoming.remaining
    execute-le s px r s' f u h = unfold execute in omega arith

    level_anything : (l : List BookOrder) → All (λ o. Unit {0}) l
    level_anything [] = tt
    level_anything (o ∷ l) = (tt, level_anything l)

    anything : (levels : Levels) → AllOrders (λ px o. Unit {0}) levels
    anything [] = tt
    anything ((px, l) ∷ levels) = (level_anything l, anything levels)

module _ (incoming : BookOrder) where
  -- No fill changes the incoming order but for its shares.
  pub record IsSame (o : BookOrder) : Type 0 where
    pub side : o.side ≡ incoming.side
    pub type : o.order_type ≡ incoming.order_type
    pub user : o.user_id ≡ incoming.user_id

  pub drain-IsSame :
      (symbol : ℕ) (px : ℤ) (level skipped : List BookOrder) (s : Fill)
      → IsSame s.incoming
      → IsSame (drain symbol px level skipped s).fill.incoming
  unfolding drain execute
  drain-IsSame symbol px [] skipped s h = h
  drain-IsSame symbol px (r ∷ level) skipped s h = ground (
    arith,
    drain-IsSame symbol px level (skipped ++ r ∷ []) s,
    drain-IsSame symbol px level skipped (execute symbol px r s),
  )

  abbrev pub IsOwn : BookOrder → Type 0
  IsOwn o = o.user_id ≡ incoming.user_id

  -- A level that leaves shares over has only the incoming user's own orders left.
  drain-IsOwn :
      (symbol : ℕ) (px : ℤ) (level skipped : List BookOrder) (s : Fill)
      → IsSame s.incoming
      → 0 < (drain symbol px level skipped s).fill.incoming.remaining
      → All IsOwn skipped
      → All IsOwn (restore (drain symbol px level skipped s))
  unfolding drain execute
  drain-IsOwn symbol px [] skipped s e more h = All-append IsOwn skipped [] h tt
  drain-IsOwn symbol px (r ∷ level) skipped s e more h = ground (
    arith,
    drain-IsOwn symbol px level (skipped ++ r ∷ []) s e,
    drain-IsOwn symbol px level skipped (execute symbol px r s),
    All-append IsOwn skipped (r ∷ []) h,
  )

  abbrev pub beyond : ℤ → Bool
  beyond px = beyond_limit incoming.side incoming.order_type px

  -- At the prices that are not among `ks` and within the limit, only own orders are left.
  abbrev pub Done : List ℤ → ℤ → BookOrder → Type 0
  Done ks px o = has_price px ks ≡ false → beyond px ≡ false → IsOwn o

  -- Every price of a sorted list is beyond the limit if the first is.
  beyond-All :
      (px k : ℤ) (ks : List ℤ)
      → beyond px ≡ true
      → All (λ j. ahead_for incoming.side px j ≡ true) ks
      → has_price k (px ∷ ks) ≡ true
      → beyond k ≡ true
  beyond-All px k [] stop a h = rw (eqb_ℤ→eq k px (ground arith)) stop
  beyond-All px k (j ∷ ks) stop a h = elim (Bool-cases (eqb_ℤ k j)) [
    | inl hit ↦
        rw (eqb_ℤ→eq k j hit)
          (beyond_limit-ahead_for incoming.side incoming.order_type px j stop a.0)
    | inr miss ↦ beyond-All px k ks stop a.1 (ground arith)
  ]

  Done-stop :
      (px k : ℤ) (ks : List ℤ) (o : BookOrder)
      → beyond px ≡ true
      → All (λ j. ahead_for incoming.side px j ≡ true) ks
      → Done (px ∷ ks) k o
      → Done [] k o
  Done-stop px k ks o stop a f u w = elim (Bool-cases (has_price k (px ∷ ks))) [
    | inl found ↦ absurd (false≢true (sym w ∙ beyond-All px k ks stop a found))
    | inr missing ↦ f missing w
  ]

  Done-step :
      (px : ℤ) (ks : List ℤ) (level : List BookOrder) (levels : Levels)
      → IsDistinct (prices levels)
      → All IsOwn level
      → AllOrders (Done (px ∷ ks)) levels
      → AllOrders (Done ks) (store_level px level levels)
  Done-step px ks level levels d own a =
      store_level-at (Done ks) px level levels d (All-map (λ o h u w. h) level own)
        (AllOrders-map (λ k o f ne u w. f (rw (ne, u)) w) levels a)

  pub match_levels-Done :
      (symbol : ℕ) (ks : List ℤ) (levels : Levels) (s : Fill)
      → IsSame s.incoming
      → IsDistinct (prices levels)
      → IsSorted (ahead_for incoming.side) ks
      → AllOrders (Done ks) levels
      → 0 < (match_levels symbol ks levels s).1.incoming.remaining
      → AllOrders (Done []) (match_levels symbol ks levels s).0
  unfolding match_levels
  match_levels-Done symbol [] levels s e d o a more = a
  match_levels-Done symbol (px ∷ ks) levels s e d o a more =
      elim (Bool-cases (s.incoming.remaining == 0)) [
        | inl full ↦ absurd (ground (arith, remaining-match_levels-le symbol (px ∷ ks) levels s))
        | inr wanted ↦ elim (Bool-cases (beyond_limit s.incoming.side s.incoming.order_type px)) [
          | inl stop ↦
              rw (wanted, stop, match_levels)
                (AllOrders-map (λ k r f. Done-stop px k ks r (rw (e.side, e.type) at stop) o.0 f)
                  levels a)
          | inr fine ↦
              let r = drain symbol px (level_at px levels) [] s in
              let more' : 0
                  < (match_levels symbol ks (store_level px (restore r) levels)
                      r.fill).1.incoming.remaining =
                rw (wanted, fine, match_levels) at more in
              let left =
                remaining-match_levels-le symbol ks (store_level px (restore r) levels) r.fill in
              rw (wanted, fine, match_levels)
                (match_levels-Done symbol ks (store_level px (restore r) levels) r.fill
                  (drain-IsSame symbol px (level_at px levels) [] s e)
                  (store_level-IsDistinct px (restore r) levels d) o.1
                  (Done-step px ks (restore r) levels d
                    (drain-IsOwn symbol px (level_at px levels) [] s e (omega arith) tt) a)
                  more')
        ]
      ]
