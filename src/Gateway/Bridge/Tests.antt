-- ===== src/Gateway/Bridge/Tests.antt =====
-- Bridges that come and go, and a witness.
use mini_stock_exchange_plat.Base.{ℕ, ◌≡◌, refl, none, some, [], ◌∷◌, arith}
use mini_stock_exchange_plat.Gateway.Bridge.{
  Bridges, increment, decrement, admits, accepts, ends, Steps, done, step_then,
}
use mini_stock_exchange_plat.Gateway.Bridge.Counted.{IsExact, IsLimited, Steps-IsCounted}

abbrev none_open : Bridges
none_open = record { per_client = []; waiting = []; opened = [] }

none_open-IsExact : IsExact none_open
none_open-IsExact = record {
  keyed = tt;
  counts = λ key. refl;
  totals = refl;
  positive = λ key n h. absurd (absent h);
}
  where
    absent : {n : ℕ} → none ≡ some n → ⊥
    absent e = cc

abbrev asked : Bridges
asked = record { per_client = []; waiting = 3 ∷ []; opened = [] }

abbrev opened : Bridges
opened = record { per_client = increment 3 []; waiting = []; opened = 3 ∷ [] }

abbrev ended : Bridges
ended = record { per_client = decrement 3 (increment 3 []); waiting = []; opened = [] }

comes_and_goes : Steps 1 none_open ended
comes_and_goes = step_then (admits 3 none_open refl) (omega arith) (
    step_then (accepts 3 asked (omega arith)) (omega arith)
      (step_then (ends 3 opened (omega arith)) (omega arith) (done ended)))

Steps-IsCounted_example : IsExact ended × IsLimited 1 ended
Steps-IsCounted_example =
    Steps-IsCounted 1 comes_and_goes none_open-IsExact
      (record { in_total = omega arith; per_key = λ key. omega arith })

abbrev four_open : Bridges
four_open = record { per_client = (3, 4) ∷ []; waiting = []; opened = 3 ∷ 3 ∷ 3 ∷ 3 ∷ [] }

abbrev six_open : Bridges
six_open = record {
  per_client = increment 3 (increment 3 ((3, 4) ∷ []));
  waiting = [];
  opened = 3 ∷ 3 ∷ 3 ∷ 3 ∷ 3 ∷ 3 ∷ [];
}

-- Two that wait at a time pass the limit of five.
six_for_one : Steps 2 four_open six_open
six_for_one = step_then (admits 3 four_open refl) (omega arith) (
    step_then (admits 3 _ refl) (omega arith) (
      step_then (accepts 3 _ (omega arith)) (omega arith)
        (step_then (accepts 3 _ (omega arith)) (omega arith) (done six_open))))
