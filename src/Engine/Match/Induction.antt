-- ===== src/Engine/Match/Induction.antt =====
-- The induction principle of the loops of `match` (services/matching-engine/app/engine.py): what
-- every fill keeps, and what the orders of the levels keep.
use mini_stock_exchange_plat.Base.{
  ℕ, ◌<◌, ◌≡◌, ◌≢◌, ℤ, false, List, [], ◌∷◌, ◌++◌, arith, if◌then◌else◌, eqb_ℤ, eqb_ℤ→eq, inl, inr,
  Bool-cases, All, All-append,
}
use mini_stock_exchange_plat.Engine.Book.{
  BookOrder, Levels, level_at, store_level, set_level, del_level,
}
use mini_stock_exchange_plat.Engine.Match.{
  Fill, after_fill, execute, Drained, drain, restore, beyond_limit, match_levels,
}

-- Every order of every level, with its price.
abbrev pub AllOrders : (ℤ → BookOrder → Type 0) → Levels → Type 0
AllOrders R [] = Unit
AllOrders R ((px, level) ∷ levels) = All (R px) level × AllOrders R levels

module _ (R : ℤ → BookOrder → Type 0) where
  pub AllOrders-level_at :
      (px : ℤ) (levels : Levels) → AllOrders R levels → All (R px) (level_at px levels)
  AllOrders-level_at px [] h = tt
  AllOrders-level_at px ((k, level) ∷ levels) h = elim (Bool-cases (eqb_ℤ px k)) [
    | inl hit ↦ rw (hit, if◌then◌else◌) (rw (eqb_ℤ→eq px k hit) h.0)
    | inr miss ↦ rw (miss, if◌then◌else◌) (AllOrders-level_at px levels h.1)
  ]

  pub AllOrders-set_level :
      (px : ℤ) (level : List BookOrder) (levels : Levels)
      → All (R px) level
      → AllOrders R levels
      → AllOrders R (set_level px level levels)
  AllOrders-set_level px level [] hl h = (hl, tt)
  AllOrders-set_level px level ((k, l) ∷ levels) hl h =
      ground (arith, AllOrders-set_level px level levels hl h.1)

  pub AllOrders-del_level :
      (px : ℤ) (levels : Levels) → AllOrders R levels → AllOrders R (del_level px levels)
  AllOrders-del_level px [] h = tt
  AllOrders-del_level px ((k, l) ∷ levels) h = ground (arith, AllOrders-del_level px levels h.1)

  pub AllOrders-store_level :
      (px : ℤ) (level : List BookOrder) (levels : Levels)
      → All (R px) level
      → AllOrders R levels
      → AllOrders R (store_level px level levels)
  AllOrders-store_level px [] levels hl h = AllOrders-del_level px levels h
  AllOrders-store_level px (o ∷ level) levels hl h = AllOrders-set_level px (o ∷ level) levels hl h

-- When a fill is made: shares are wanted, the owners differ and the price is within the limit.
pub record Fillable (px : ℤ) (resting : BookOrder) (s : Fill) : Type 0 where
  pub wanted : 0 < s.incoming.remaining
  pub others : resting.user_id ≢ s.incoming.user_id
  pub within : beyond_limit s.incoming.side s.incoming.order_type px ≡ false

module _ (symbol : ℕ) (P : Fill → Type 0) (R : ℤ → BookOrder → Type 0)
    (keep : (px : ℤ) (r : BookOrder) (s : Fill)
      → Fillable px r s
      → R px r
      → P s
      → P (execute symbol px r s))
    (left : (px : ℤ) (r : BookOrder) (s : Fill)
      → R px r
      → 0 < (after_fill r s).remaining
      → R px (after_fill r s)) where
  abbrev Kept : ℤ → Drained → Type 0
  Kept px d = All (R px) d.level × All (R px) d.skipped × P d.fill

  drain-Kept :
      (px : ℤ) (level skipped : List BookOrder) (s : Fill)
      → beyond_limit s.incoming.side s.incoming.order_type px ≡ false
      → All (R px) level
      → All (R px) skipped
      → P s
      → Kept px (drain symbol px level skipped s)
  unfolding drain execute
  drain-Kept px [] skipped s w hl hs h = (tt, hs, h)
  drain-Kept px (r ∷ level) skipped s w hl hs h = ground (
    arith,
    drain-Kept px level (skipped ++ r ∷ []) s w hl.1,
    All-append (R px) skipped (r ∷ []) hs (hl.0, tt),
    drain-Kept px level skipped (execute symbol px r s) w hl.1 hs,
    keep px r s,
    left px r s hl.0,
  )

  restore-Kept : (px : ℤ) (d : Drained) → Kept px d → All (R px) (restore d)
  restore-Kept px d h = All-append (R px) d.skipped d.level h.1 h.0

  -- What every fill keeps holds when the loops end, and so does what the orders left keep.
  pub match_levels_induction :
      (ks : List ℤ) (levels : Levels) (s : Fill)
      → AllOrders R levels
      → P s
      → let (levels', s') = match_levels symbol ks levels s in AllOrders R levels' × P s'
  unfolding match_levels
  match_levels_induction [] levels s hl h = (hl, h)
  match_levels_induction (px ∷ ks) levels s hl h =
      let d = drain symbol px (level_at px levels) [] s in
      ground (
        arith,
        drain-Kept px (level_at px levels) [] s,
        AllOrders-level_at R px levels hl,
        restore-Kept px d,
        AllOrders-store_level R px (restore d) levels,
        match_levels_induction ks (store_level px (restore d) levels) d.fill,
      )
