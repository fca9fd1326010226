-- ===== src/Gateway/Routing.antt =====
-- Path to upstream: services/gateway/app/routing.py. An upstream is named by its setting.
use mini_stock_exchange_plat.Base.{
  ℕ, ◌≤◌, ◌≡◌, refl, Bool, true, false, ◌||◌, All-map, both_branches, from_branches, Bool-cases,
  ◌⊎◌, inl, inr, Option, none, some, List, [], ◌∷◌, ◌++◌, leb, ◌==◌, if◌then◌else◌, arith, length,
  All,
}
use mini_stock_exchange_plat.Base.Text.{Text, text, eq_text, starts_with, drop}

pub data Upstream : Type 0 where
  user_service account_service order_service matching_engine market_data_service portfolio_service
        notification_service :
      Upstream

abbrev upstream_index : Upstream → ℕ
upstream_index user_service = 0
upstream_index account_service = 1
upstream_index order_service = 2
upstream_index matching_engine = 3
upstream_index market_data_service = 4
upstream_index portfolio_service = 5
upstream_index notification_service = 6

abbrev pub eq_upstream : Upstream → Upstream → Bool
eq_upstream u v = upstream_index u == upstream_index v

abbrev pub Routes : Type 0
Routes = List (Text × Upstream)

abbrev pub api_prefix : Text
api_prefix = text "/api"

-- `sorted(…, key=len of the prefix, reverse=True)`, which keeps the order of equal lengths.
unfoldable pub insert_route : Text × Upstream → Routes → Routes
insert_route r [] = r ∷ []
insert_route r (q ∷ rs) =
    let rest = insert_route r rs in if leb (length q.0) (length r.0) then r ∷ q ∷ rs else q ∷ rest

unfoldable pub sort_routes : Routes → Routes
sort_routes [] = []
sort_routes (r ∷ rs) = insert_route r (sort_routes rs)

abbrev pub public_routes : Routes
public_routes =
    (text "/api/auth", user_service)
    ∷ (text "/api/users", user_service)
    ∷ (text "/api/account", account_service)
    ∷ (text "/api/orders", order_service)
    ∷ (text "/api/book", matching_engine)
    ∷ (text "/api/market", market_data_service)
    ∷ (text "/api/portfolio", portfolio_service)
    ∷ (text "/api/notifications", notification_service)
    ∷ []

abbrev pub routes : Routes
routes = sort_routes public_routes

abbrev pub matches : Text → Text → Bool
matches path prefix = eq_text path prefix || starts_with (prefix ++ text "/") path

-- The loop of `resolve`.
unfoldable pub resolve_in : Routes → Text → Option (Upstream × Text)
resolve_in [] path = none
resolve_in (r ∷ rs) path =
    let rest = resolve_in rs path in
    if matches path r.0 then some (r.1, drop (length api_prefix) path) else rest

unfoldable pub resolve : Text → Option (Upstream × Text)
resolve path = resolve_in routes path

-- What is resolved is the path without the first four characters.
pub resolve_in-drop :
    (rs : Routes) (path : Text) (found : Upstream × Text)
    → resolve_in rs path ≡ some found
    → found.1 ≡ drop (length api_prefix) path
unfolding resolve_in
resolve_in-drop [] path found h = ground arith
resolve_in-drop (r ∷ rs) path found h = ground (arith, resolve_in-drop rs path found)

-- The specification: a route of the table whose prefix matches, and none that matches is longer.
abbrev pub In : Text × Upstream → Routes → Type 0
In r [] = ⊥
In r (q ∷ rs) = (q ≡ r) ⊎ In r rs

abbrev NoLonger : Text → Text → Routes → Type 0
NoLonger path prefix rs = All (λ r. matches path r.0 ≡ true → length r.0 ≤ length prefix) rs

pub record Longest (rs : Routes) (path : Text) (r : Text × Upstream) : Type 0 where
  pub in_table : In r rs
  pub is_matched : matches path r.0 ≡ true
  pub no_longer : NoLonger path r.0 rs

abbrev NoMatch : Text → Routes → Type 0
NoMatch path rs = All (λ r. matches path r.0 ≡ false) rs

abbrev pub ResolvesTo : Routes → Text → Option (Upstream × Text) → Type 0
ResolvesTo rs path found =
    ((found ≡ none) × NoMatch path rs)
    ⊎ ((r : Text × Upstream) × Longest rs path r
        × (found ≡ some (r.1, drop (length api_prefix) path)))

-- The lengths of a sorted table go down.
abbrev AtMost : ℕ → Routes → Type 0
AtMost n rs = All (λ r. length r.0 ≤ n) rs

abbrev IsDescending : Routes → Type 0
IsDescending [] = Unit
IsDescending (r ∷ rs) = AtMost (length r.0) rs × IsDescending rs

AtMost-weaken : (m n : ℕ) (rs : Routes) → m ≤ n → AtMost m rs → AtMost n rs
AtMost-weaken m n rs h = All-map (λ r a. omega arith) rs

insert_route-AtMost :
    (n : ℕ) (r : Text × Upstream) (rs : Routes)
    → length r.0 ≤ n
    → AtMost n rs
    → AtMost n (insert_route r rs)
unfolding insert_route
insert_route-AtMost n r [] h a = (h, tt)
insert_route-AtMost n r (q ∷ rs) h a =
    both_branches (AtMost n) _ {x = r ∷ q ∷ rs} {y = q ∷ insert_route r rs} (h, a)
      (a.0, insert_route-AtMost n r rs h a.1)

insert_route-IsDescending :
    (r : Text × Upstream) (rs : Routes) → IsDescending rs → IsDescending (insert_route r rs)
unfolding insert_route
insert_route-IsDescending r [] d = (tt, tt)
insert_route-IsDescending r (q ∷ rs) d = elim (Bool-cases (leb (length q.0) (length r.0))) [
  | inl e ↦
      let h : length q.0 ≤ length r.0 = ground arith in
      rw (e, if◌then◌else◌) ((h, AtMost-weaken _ _ rs h d.0), d)
  | inr e ↦
      rw (e, if◌then◌else◌)
        (
          insert_route-AtMost (length q.0) r rs (ground arith) d.0,
          insert_route-IsDescending r rs d.1,
        )
]

sort_routes-IsDescending : (rs : Routes) → IsDescending (sort_routes rs)
unfolding sort_routes
sort_routes-IsDescending [] = tt
sort_routes-IsDescending (r ∷ rs) =
    insert_route-IsDescending r (sort_routes rs) (sort_routes-IsDescending rs)

-- Sorting keeps the routes.
module _ (P : Text × Upstream → Type 0) where
  All-insert_route :
      (r : Text × Upstream) (rs : Routes) → All P (insert_route r rs) → P r × All P rs
  unfolding insert_route
  All-insert_route r [] h = (h.0, tt)
  All-insert_route r (q ∷ rs) h =
      from_branches (All P) (leb (length q.0) (length r.0)) (λ h. h)
        (λ h. let rest = All-insert_route r rs h.1 in (rest.0, (h.0, rest.1))) h

  All-sort_routes : (rs : Routes) → All P (sort_routes rs) → All P rs
  unfolding sort_routes
  All-sort_routes [] h = tt
  All-sort_routes (r ∷ rs) h =
      let rest = All-insert_route r (sort_routes rs) h in (rest.0, All-sort_routes rs rest.1)

In-insert_route : (p r : Text × Upstream) (rs : Routes) → In p (insert_route r rs) → In p (r ∷ rs)
unfolding insert_route
In-insert_route p r [] h = h
In-insert_route p r (q ∷ rs) h =
    from_branches (In p) (leb (length q.0) (length r.0)) (λ h. h)
      (λ h. elim h [
        | inl e ↦ inr (inl e)
        | inr g ↦ elim (In-insert_route p r rs g) [ inl e ↦ inl e | inr g ↦ inr (inr g) ]
      ])
      h

In-sort_routes : (p : Text × Upstream) (rs : Routes) → In p (sort_routes rs) → In p rs
unfolding sort_routes
In-sort_routes p [] h = h
In-sort_routes p (r ∷ rs) h = elim (In-insert_route p r (sort_routes rs) h) [
  | inl e ↦ inl e
  | inr g ↦ inr (In-sort_routes p rs g)
]

resolve_in-ResolvesTo :
    (rs : Routes) (path : Text) → IsDescending rs → ResolvesTo rs path (resolve_in rs path)
unfolding resolve_in
resolve_in-ResolvesTo [] path d = inl (refl, tt)
resolve_in-ResolvesTo (r ∷ rs) path d = elim (Bool-cases (matches path r.0)) [
  | inl m ↦ inr (
    r,
    record {
      in_table = inl refl;
      is_matched = m;
      no_longer = (λ _. omega arith, All-map (λ q a _. a) rs d.0);
    },
    rw (m, if◌then◌else◌) refl,
  )
  | inr m ↦ elim (resolve_in-ResolvesTo rs path d.1) [
    | inl (e, none_matches) ↦ inl (rw (m, if◌then◌else◌) e, (m, none_matches))
    | inr (q, longest, e) ↦ inr (
      q,
      record {
        in_table = inr longest.in_table;
        is_matched = longest.is_matched;
        no_longer = (λ m'. absurd (ground arith), longest.no_longer);
      },
      rw (m, if◌then◌else◌) e,
    )
  ]
]

-- Resolving a path in a sorted table finds nothing exactly where no prefix of the table matches,
-- and otherwise a route of the table whose prefix matches and is as long as any that does, with
-- the path less its first four characters.
pub resolve_in-sort :
    (table : Routes) (path : Text) → ResolvesTo table path (resolve_in (sort_routes table) path)
resolve_in-sort table path =
    elim (resolve_in-ResolvesTo (sort_routes table) path (sort_routes-IsDescending table)) [
      | inl (e, none_matches) ↦ inl (e, All-sort_routes _ table none_matches)
      | inr (r, longest, e) ↦ inr (
        r,
        record {
          in_table = In-sort_routes r table longest.in_table;
          is_matched = longest.is_matched;
          no_longer = All-sort_routes _ table longest.no_longer;
        },
        e,
      )
    ]
