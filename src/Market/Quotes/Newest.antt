-- ===== src/Market/Quotes/Newest.antt =====
-- The prices that services/market-data-service/app/main.py starts from and shows.
use mini_stock_exchange_plat.Base.{
  ℕ, ◌≤◌, ◌≡◌, refl, sym, ◌∙◌, subst, Bool, true, false, ◌||◌, Option, none, some, List, [], ◌∷◌,
  ◌==◌, leb, if◌then◌else◌, arith, All, inl, inr, Bool-cases, Option-cases, some_injective,
}
use mini_stock_exchange_plat.Base.Maybe.{none_not_some}
use mini_stock_exchange_plat.Market.{Trade}
use mini_stock_exchange_plat.Market.Quotes.{
  Read, symbols, insert_newest, newest_first, first, newest_price, or_seed, warm, warm_each,
  warmup_cache,
}

abbrev pub is_in : ℕ → List ℕ → Bool
is_in s [] = false
is_in s (t ∷ ts) = s == t || is_in s ts

-- A cached price, or else the newest one of the replica, or else the seed.
abbrev pub start_price : (ℕ → Read (List Trade)) → ℕ → Option ℕ → ℕ
start_price replica symbol (some price) = price
start_price replica symbol none = or_seed symbol (newest_price symbol (replica symbol))

warm_self :
    (replica : ℕ → Read (List Trade)) (symbol : ℕ) (last_price : ℕ → Option ℕ)
    → warm replica symbol last_price symbol ≡ some (start_price replica symbol (last_price symbol))
unfolding warm
warm_self replica symbol last_price = elim (Option-cases (last_price symbol)) [
  | inl e ↦ rw (warm, e) (ground arith)
  | inr (price, e) ↦ rw (warm, e) e
]

warm-start_price :
    (replica : ℕ → Read (List Trade)) (asked symbol : ℕ) (last_price : ℕ → Option ℕ)
    → warm replica symbol last_price asked ≡ (
        if asked == symbol
        then some (start_price replica asked (last_price asked))
        else last_price asked)
unfolding warm
warm-start_price replica asked symbol last_price = elim (Bool-cases (asked == symbol)) [
  | inl e ↦
      let same : asked ≡ symbol = ground arith in
      rw (e, if◌then◌else◌)
        (subst
          (λ s.
            warm replica s last_price asked ≡ some (start_price replica asked (last_price asked)))
          same (warm_self replica asked last_price))
  | inr ne ↦ elim (Option-cases (last_price symbol)) [
    | inl e ↦ rw (warm, e, ne, if◌then◌else◌) refl
    | inr (price, e) ↦ rw (warm, e, ne, if◌then◌else◌) refl
  ]
]

warm_each-start_price :
    (replica : ℕ → Read (List Trade)) (asked : ℕ) (listed : List ℕ) (last_price : ℕ → Option ℕ)
    → warm_each replica listed last_price asked ≡ (
        if is_in asked listed
        then some (start_price replica asked (last_price asked))
        else last_price asked)
unfolding warm_each warm
warm_each-start_price replica asked [] last_price = refl
warm_each-start_price replica asked (symbol ∷ listed) last_price =
    let here = warm-start_price replica asked symbol last_price in
    let rest = warm_each-start_price replica asked listed (warm replica symbol last_price) in
    elim (Bool-cases (asked == symbol)) [
      | inl e ↦
          let through = λ (o : Option ℕ).
            warm_each replica listed (warm replica symbol last_price) asked
            ≡ (if is_in asked listed then some (start_price replica asked o) else o) in
          let rest' = subst through (rw (e, if◌then◌else◌) at here) rest in rw e (ground arith)
      | inr ne ↦
          let through = λ (o : Option ℕ).
            warm_each replica listed (warm replica symbol last_price) asked
            ≡ (if is_in asked listed then some (start_price replica asked o) else o) in
          rw ne (subst through (rw (ne, if◌then◌else◌) at here) rest)
    ]

pub warmup_cache-start_price :
    (replica : ℕ → Read (List Trade)) (last_price : ℕ → Option ℕ) (asked : ℕ)
    → warmup_cache replica last_price asked ≡ (
        if is_in asked symbols
        then some (start_price replica asked (last_price asked))
        else last_price asked)
unfolding warmup_cache
warmup_cache-start_price replica last_price asked =
    warm_each-start_price replica asked symbols last_price

-- A stored trade of the symbol that is no older than any other of it.
abbrev pub IsNewest : ℕ → List Trade → Trade → Type 0
IsNewest symbol ts t =
    (t.symbol ≡ symbol) × All (λ u. (u.symbol == symbol) ≡ true → u.executed_at ≤ t.executed_at) ts

abbrev newer : Trade → Option Trade → Trade
newer t none = t
newer t (some u) = if leb u.executed_at t.executed_at then t else u

first-insert_newest :
    (t : Trade) (ts : List Trade) → first (insert_newest t ts) ≡ some (newer t (first ts))
first-insert_newest t [] = refl
first-insert_newest t (u ∷ ts) = ground arith

All-later :
    (symbol : ℕ) (a b : Trade) (ts : List Trade)
    → a.executed_at ≤ b.executed_at
    → All (λ u. (u.symbol == symbol) ≡ true → u.executed_at ≤ a.executed_at) ts
    → All (λ u. (u.symbol == symbol) ≡ true → u.executed_at ≤ b.executed_at) ts
All-later symbol a b [] le h = tt
All-later symbol a b (u ∷ ts) le h =
    ((λ e. let old = h.0 e in omega arith), All-later symbol a b ts le h.1)

All-absent :
    (symbol : ℕ) (t : Trade) (ts : List Trade)
    → first (newest_first symbol ts) ≡ none
    → All (λ u. (u.symbol == symbol) ≡ true → u.executed_at ≤ t.executed_at) ts
unfolding newest_first
All-absent symbol t [] h = tt
All-absent symbol t (u ∷ ts) h = elim (Bool-cases (u.symbol == symbol)) [
  | inl e ↦ absurd (
      some_not_none
        (sym (first-insert_newest u (newest_first symbol ts)) ∙ (rw (e, if◌then◌else◌) at h)))
  | inr ne ↦ ((λ e. absurd (ground arith)), All-absent symbol t ts (rw (ne, if◌then◌else◌) at h))
]
  where
    some_not_none : {t : Trade} → some t ≡ none → ⊥
    some_not_none e = cc

pub newest_first-IsNewest :
    (symbol : ℕ) (ts : List Trade) (t : Trade)
    → first (newest_first symbol ts) ≡ some t
    → IsNewest symbol ts t
unfolding newest_first
newest_first-IsNewest symbol [] t h = absurd (none_not_some h)
newest_first-IsNewest symbol (u ∷ ts) t h = elim (Bool-cases (u.symbol == symbol)) [
  | inr ne ↦
      let rest = newest_first-IsNewest symbol ts t (rw (ne, if◌then◌else◌) at h) in
      (rest.0, ((λ e. absurd (ground arith)), rest.1))
  | inl e ↦
      let made =
        some_injective
          (sym (first-insert_newest u (newest_first symbol ts)) ∙ (rw (e, if◌then◌else◌) at h)) in
      elim (Option-cases (first (newest_first symbol ts))) [
        | inl alone ↦
            let same : u ≡ t = rw alone at made in
            subst (λ r. IsNewest symbol (u ∷ ts) r) same
              (ground arith, ((λ _. omega arith), All-absent symbol u ts alone))
        | inr (v, found) ↦
            let rest = newest_first-IsNewest symbol ts v found in
            let which : newer u (some v) ≡ t = rw found at made in
            elim (Bool-cases (leb v.executed_at u.executed_at)) [
              | inl later ↦
                  subst (λ r. IsNewest symbol (u ∷ ts) r) (rw (later, if◌then◌else◌) at which)
                    (
                      ground arith,
                      ((λ _. omega arith), All-later symbol v u ts (ground arith) rest.1),
                    )
              | inr earlier ↦
                  subst (λ r. IsNewest symbol (u ∷ ts) r) (rw (earlier, if◌then◌else◌) at which)
                    (rest.0, ((λ _. ground arith), rest.1))
            ]
      ]
]
