-- ===== src/Market/Fill/Contiguous.antt =====
-- A chart of services/market-data-service/app/main.py has no holes.
use mini_stock_exchange_plat.Base.{
  ℕ, zero, suc, min, ◌+◌, ◌<◌, ◌≤◌, ◌≡◌, refl, true, false, List, [], ◌∷◌, ◌++◌, ltb, ◌==◌,
  if◌then◌else◌, arith, both_branches,
}
use mini_stock_exchange_plat.Market.{Interval}
use mini_stock_exchange_plat.Market.Fill.{
  Row, Point, max_fill_per_gap, max_limit, step_of, point_of, fill_gap, fill_from, fill,
  drop_points, last_points, market_candles,
}
use mini_stock_exchange_plat.Market.Fill.Ascending.{
  RowsAfter, RowsAscend, step_of_positive, market_candles_kept,
}

-- Each point is one step after the one before.
abbrev pub PointsEvery : ℕ → ℕ → List Point → Type 0
PointsEvery step t [] = Unit
PointsEvery step t (p ∷ ps) = (p.time ≡ t + step) × PointsEvery step p.time ps

abbrev pub IsContiguous : ℕ → List Point → Type 0
IsContiguous step [] = Unit
IsContiguous step (p ∷ ps) = PointsEvery step p.time ps

-- So many steps after a time.
unfoldable pub steps_after : ℕ → ℕ → ℕ → ℕ
steps_after step t zero = t
steps_after step t (suc n) = steps_after step (t + step) n

-- The rows that follow a time leave gaps of whole steps, of so many that they are filled.
abbrev pub RowsOnGrid : ℕ → ℕ → List Row → Type 0
RowsOnGrid step t [] = Unit
RowsOnGrid step t (r ∷ rows) =
    ((missing : ℕ) × (r.bucket_start ≡ steps_after step (t + step) missing)
      × (missing ≤ max_fill_per_gap))
    × RowsOnGrid step r.bucket_start rows

abbrev pub GridRows : ℕ → List Row → Type 0
GridRows step [] = Unit
GridRows step (r ∷ rows) = RowsOnGrid step r.bucket_start rows

steps_after-le : (step t n : ℕ) → t ≤ steps_after step t n
unfolding steps_after
steps_after-le step t zero = omega arith
steps_after-le step t (suc n) = omega (arith, steps_after-le step (t + step) n)

fill_gap-PointsEvery :
    (missing left step last_ts close : ℕ) (r : Row) (ps : List Point)
    → 0 < step
    → missing ≤ left
    → r.bucket_start ≡ steps_after step (last_ts + step) missing
    → PointsEvery step r.bucket_start ps
    → PointsEvery step last_ts (fill_gap left step last_ts r.bucket_start close ++ point_of r ∷ ps)
unfolding fill_gap steps_after
fill_gap-PointsEvery zero zero step last_ts close r ps h l e a = (e, a)
fill_gap-PointsEvery zero (suc left) step last_ts close r ps h l e a =
    let none_missing : ltb (last_ts + step) r.bucket_start ≡ false = ground arith in
    rw (none_missing, if◌then◌else◌) (e, a)
fill_gap-PointsEvery (suc missing) zero step last_ts close r ps h l e a = absurd (omega arith)
fill_gap-PointsEvery (suc missing) (suc left) step last_ts close r ps h l e a =
    let le = steps_after-le step (last_ts + step + step) missing in
    let more : ltb (last_ts + step) r.bucket_start ≡ true = ground (arith, le) in
    rw (more, if◌then◌else◌)
      (refl, fill_gap-PointsEvery missing left step (last_ts + step) close r ps h (omega arith) e a)

fill_from-PointsEvery :
    (step last_ts close : ℕ) (rows : List Row)
    → 0 < step
    → RowsOnGrid step last_ts rows
    → PointsEvery step last_ts (fill_from step last_ts close rows)
unfolding fill_from
fill_from-PointsEvery step last_ts close [] h g = tt
fill_from-PointsEvery step last_ts close (r ∷ rows) h (gap, g) =
    fill_gap-PointsEvery gap.0 max_fill_per_gap step last_ts close r _ h gap.2 gap.1
      (fill_from-PointsEvery step r.bucket_start r.candle.close rows h g)

fill-IsContiguous :
    (step : ℕ) (rows : List Row)
    → 0 < step
    → GridRows step rows
    → IsContiguous step (fill step rows)
unfolding fill
fill-IsContiguous step [] h g = tt
fill-IsContiguous step (r ∷ rows) h g =
    fill_from-PointsEvery step r.bucket_start r.candle.close rows h g

PointsEvery-IsContiguous :
    (step t : ℕ) (ps : List Point) → PointsEvery step t ps → IsContiguous step ps
PointsEvery-IsContiguous step t [] a = tt
PointsEvery-IsContiguous step t (p ∷ ps) a = a.1

drop_points-IsContiguous :
    (step n : ℕ) (ps : List Point) → IsContiguous step ps → IsContiguous step (drop_points n ps)
drop_points-IsContiguous step zero ps a = a
drop_points-IsContiguous step (suc n) [] a = tt
drop_points-IsContiguous step (suc n) (p ∷ ps) a =
    drop_points-IsContiguous step n ps (PointsEvery-IsContiguous step p.time ps a)

last_points-IsContiguous :
    (step limit : ℕ) (ps : List Point)
    → IsContiguous step ps
    → IsContiguous step (last_points limit ps)
unfolding last_points
last_points-IsContiguous step limit ps a =
    both_branches (IsContiguous step) (limit == 0) a (drop_points-IsContiguous step _ ps a)

-- Rows on the grid go up.
GridRows-RowsAscend : (step : ℕ) (rows : List Row) → 0 < step → GridRows step rows → RowsAscend rows
GridRows-RowsAscend step [] h g = tt
GridRows-RowsAscend step (r ∷ rows) h g = go r.bucket_start rows g
  where
    go : (t : ℕ) (rows : List Row) → RowsOnGrid step t rows → RowsAfter t rows
    go t [] g = tt
    go t (r ∷ rows) (gap, g) =
        (omega (arith, steps_after-le step (t + step) gap.0, gap.1), go r.bucket_start rows g)

-- A chart has no holes: each point is one step after the one before, if between any two rows of
-- the query a whole number of buckets is missing, of which there are at most a thousand.
pub market_candles-IsContiguous :
    (i : Interval) (limit : ℕ) (rows : List Row)
    → GridRows (step_of i) rows
    → IsContiguous (step_of i) (market_candles i limit rows)
market_candles-IsContiguous i limit rows g =
    rw
      (market_candles_kept i limit rows
        (GridRows-RowsAscend (step_of i) rows (step_of_positive i) g))
      (last_points-IsContiguous (step_of i) (min limit max_limit) _
        (fill-IsContiguous (step_of i) rows (step_of_positive i) g))
