-- ===== src/Gateway/Tests.antt =====
-- The breaker in use, and its theorems there.
use mini_stock_exchange_plat.Base.{◌≡◌, refl, true, false, none, some, [], ◌∷◌}
use mini_stock_exchange_plat.Gateway.Breaker.{
  Breaker, record_failure, asks, fails, closed, is_blocked, watch, watch_all, nothing_failed,
}

abbrev soft : Breaker → Breaker
soft b = record_failure 5 false b

fourth_opens :
    ((soft (soft (soft closed))).open_until ≡ none)
    × ((soft (soft (soft (soft closed)))).open_until ≡ some 10_005)
unfolding record_failure
fourth_opens = (refl, refl)

blocked :
    let us =
      fails 1 false
      ∷ fails 2 false
      ∷ fails 3 false
      ∷ fails 4 false
      ∷ asks 10_004
      ∷ fails 10_009 true
      ∷ [] in
    (is_blocked 20_008 (watch_all us nothing_failed) ≡ true)
    × (is_blocked 20_009 (watch_all us nothing_failed) ≡ false)
unfolding watch_all watch
blocked = (refl, refl)
