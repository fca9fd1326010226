-- ===== src/Market/Fill/Ascending.antt =====
-- The order and number of the points of services/market-data-service/app/main.py.
use mini_stock_exchange_plat.Base.{
  ℕ, zero, suc, min, ◌+◌, ◌-◌, ◌<◌, ◌≤◌, ◌≡◌, refl, false, List, [], ◌∷◌, ◌++◌, ltb, ◌==◌,
  if◌then◌else◌, length, arith, All, All-map, Bool-cases, inl, inr, both_branches, ap,
}
use mini_stock_exchange_plat.Events.Once.{member}
use mini_stock_exchange_plat.Market.{Interval, one_minute, five_minutes}
use mini_stock_exchange_plat.Market.Fill.{
  Row, Point, max_fill_per_gap, max_limit, step_of, point_of, fill_gap, fill_from, fill,
  drop_points, last_points, deduplicate, market_candles,
}

-- Times that go up, from one on.
abbrev pub PointsAfter : ℕ → List Point → Type 0
PointsAfter t [] = Unit
PointsAfter t (p ∷ ps) = (t < p.time) × PointsAfter p.time ps

abbrev pub IsAscending : List Point → Type 0
IsAscending [] = Unit
IsAscending (p ∷ ps) = PointsAfter p.time ps

abbrev pub RowsAfter : ℕ → List Row → Type 0
RowsAfter t [] = Unit
RowsAfter t (r ∷ rows) = (t < r.bucket_start) × RowsAfter r.bucket_start rows

abbrev pub RowsAscend : List Row → Type 0
RowsAscend [] = Unit
RowsAscend (r ∷ rows) = RowsAfter r.bucket_start rows

fill_gap-PointsAfter :
    (left step last_ts close : ℕ) (r : Row) (ps : List Point)
    → 0 < step
    → last_ts < r.bucket_start
    → PointsAfter r.bucket_start ps
    → PointsAfter last_ts (fill_gap left step last_ts r.bucket_start close ++ point_of r ∷ ps)
unfolding fill_gap
fill_gap-PointsAfter zero step last_ts close r ps h l a = (l, a)
fill_gap-PointsAfter (suc left) step last_ts close r ps h l a =
    elim (Bool-cases (ltb (last_ts + step) r.bucket_start)) [
      | inl more ↦
          rw (more, if◌then◌else◌)
            (
              omega arith,
              fill_gap-PointsAfter left step (last_ts + step) close r ps h (ground arith) a,
            )
      | inr enough ↦ rw (enough, if◌then◌else◌) (l, a)
    ]

fill_from-PointsAfter :
    (step last_ts close : ℕ) (rows : List Row)
    → 0 < step
    → RowsAfter last_ts rows
    → PointsAfter last_ts (fill_from step last_ts close rows)
unfolding fill_from
fill_from-PointsAfter step last_ts close [] h a = tt
fill_from-PointsAfter step last_ts close (r ∷ rows) h a =
    fill_gap-PointsAfter max_fill_per_gap step last_ts close r _ h a.0
      (fill_from-PointsAfter step r.bucket_start r.candle.close rows h a.1)

fill-IsAscending :
    (step : ℕ) (rows : List Row) → 0 < step → RowsAscend rows → IsAscending (fill step rows)
unfolding fill
fill-IsAscending step [] h a = tt
fill-IsAscending step (r ∷ rows) h a =
    fill_from-PointsAfter step r.bucket_start r.candle.close rows h a

PointsAfter-IsAscending : (t : ℕ) (ps : List Point) → PointsAfter t ps → IsAscending ps
PointsAfter-IsAscending t [] a = tt
PointsAfter-IsAscending t (p ∷ ps) a = a.1

drop_points-IsAscending :
    (n : ℕ) (ps : List Point) → IsAscending ps → IsAscending (drop_points n ps)
drop_points-IsAscending zero ps a = a
drop_points-IsAscending (suc n) [] a = tt
drop_points-IsAscending (suc n) (p ∷ ps) a =
    drop_points-IsAscending n ps (PointsAfter-IsAscending p.time ps a)

length-drop_points : (n : ℕ) (ps : List Point) → length (drop_points n ps) ≡ length ps - n
length-drop_points zero ps = omega arith
length-drop_points (suc n) [] = omega arith
length-drop_points (suc n) (p ∷ ps) = omega (arith, length-drop_points n ps)

-- Nothing is dropped as a duplicate from times that go up.
not_member : (t : ℕ) (seen : List ℕ) → All (λ u. u < t) seen → member t seen ≡ false
not_member t [] a = refl
not_member t (u ∷ seen) a = ground (arith, not_member t seen)

deduplicate_after :
    (ps : List Point) (t : ℕ) (seen : List ℕ)
    → All (λ u. u ≤ t) seen
    → PointsAfter t ps
    → deduplicate seen ps ≡ ps
unfolding deduplicate
deduplicate_after [] t seen s a = refl
deduplicate_after (p ∷ ps) t seen s a =
    let fresh = not_member p.time seen (All-map (λ u h. omega (arith, h, a.0)) seen s) in
    rw (fresh, if◌then◌else◌)
      (ap (λ ps. p ∷ ps)
        (deduplicate_after ps p.time (p.time ∷ seen)
          (omega arith, All-map (λ u h. omega (arith, h, a.0)) seen s) a.1))

deduplicate_ascending : (ps : List Point) → IsAscending ps → deduplicate [] ps ≡ ps
unfolding deduplicate
deduplicate_ascending [] a = refl
deduplicate_ascending (p ∷ ps) a =
    ap (λ ps. p ∷ ps) (deduplicate_after ps p.time (p.time ∷ []) (omega arith, tt) a)

pub step_of_positive : (i : Interval) → 0 < step_of i
step_of_positive one_minute = omega arith
step_of_positive five_minutes = omega arith

last_points-IsAscending :
    (limit : ℕ) (ps : List Point) → IsAscending ps → IsAscending (last_points limit ps)
unfolding last_points
last_points-IsAscending limit ps a =
    both_branches IsAscending (limit == 0) a (drop_points-IsAscending _ ps a)

length-last_points :
    (limit : ℕ) (ps : List Point)
    → 0 < limit
    → length (last_points limit ps) ≡ min (length ps) limit
unfolding last_points
length-last_points limit ps h = ground (arith, length-drop_points (length ps - limit) ps)

pub market_candles_kept :
    (i : Interval) (limit : ℕ) (rows : List Row)
    → RowsAscend rows
    → market_candles i limit rows ≡ last_points (min limit max_limit) (fill (step_of i) rows)
unfolding market_candles
market_candles_kept i limit rows a = deduplicate_ascending _ (
    last_points-IsAscending (min limit max_limit) _
      (fill-IsAscending (step_of i) rows (step_of_positive i) a))

-- From rows whose starts go up, and for a limit above 0, the times of a chart's points go up
-- strictly, and there are as many points as the filled rows have or as the limit, at most a
-- thousand, says, whichever is less: nothing is removed as a duplicate.
pub market_candles-IsAscending :
    (i : Interval) (limit : ℕ) (rows : List Row)
    → RowsAscend rows
    → 0 < limit
    → IsAscending (market_candles i limit rows)
      × (length (market_candles i limit rows)
          ≡ min (length (fill (step_of i) rows)) (min limit max_limit))
market_candles-IsAscending i limit rows a h = rw (market_candles_kept i limit rows a) (
  last_points-IsAscending (min limit max_limit) _
      (fill-IsAscending (step_of i) rows (step_of_positive i) a),
  length-last_points (min limit max_limit) (fill (step_of i) rows) (omega arith),
)
