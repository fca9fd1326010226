-- ===== src/Base/Pages.antt =====
-- Queries that show the newest rows first, a page at a time: `order_by(....desc())` with limit and
-- offset. Rows of one time keep the order of the table.
use Prim.Native.Nat.{ℕ, zero, suc, ◌-◌, ◌≤◌, min}
use mathlib.Core.Path.{◌≡◌, refl, ap, ◌∙◌}
use mathlib.Core.Logic.{inl, inr}
use mathlib.Core.Bool.{Bool, true}
use mathlib.Core.List.{List, [], ◌∷◌}
use native.Mathlib.Omega.{arith}
use mini_stock_exchange_plat.Base.Tests.{leb, if◌then◌else◌, Bool-cases}
use mini_stock_exchange_plat.Base.Lists.{length, take, All}

module _ {ℓ} {A : Type ℓ} where
  abbrev pub chosen : (A → Bool) → List A → List A
  chosen test [] = []
  chosen test (a ∷ rows) = if test a then a ∷ chosen test rows else chosen test rows

  abbrev pub insert_newest : (A → ℕ) → A → List A → List A
  insert_newest at a [] = a ∷ []
  insert_newest at a (b ∷ rows) =
      if leb (at b) (at a) then a ∷ b ∷ rows else b ∷ insert_newest at a rows

  abbrev pub newest_first : (A → ℕ) → List A → List A
  newest_first at [] = []
  newest_first at (a ∷ rows) = insert_newest at a (newest_first at rows)

  abbrev pub skip : ℕ → List A → List A
  skip zero rows = rows
  skip (suc n) [] = []
  skip (suc n) (a ∷ rows) = skip n rows

  -- The page of `limit` rows after `offset`.
  abbrev pub page : (A → ℕ) → (A → Bool) → ℕ → ℕ → List A → List A
  page at test limit offset rows = take limit (skip offset (newest_first at (chosen test rows)))

  length-insert_newest :
      (at : A → ℕ) (a : A) (rows : List A) → length (insert_newest at a rows) ≡ suc (length rows)
  length-insert_newest at a [] = refl
  length-insert_newest at a (b ∷ rows) = ground (arith, length-insert_newest at a rows)

  length-newest_first : (at : A → ℕ) (rows : List A) → length (newest_first at rows) ≡ length rows
  length-newest_first at [] = refl
  length-newest_first at (a ∷ rows) =
      length-insert_newest at a (newest_first at rows) ∙ ap suc (length-newest_first at rows)

  length-skip : (n : ℕ) (rows : List A) → length (skip n rows) ≡ length rows - n
  length-skip zero rows = omega arith
  length-skip (suc n) [] = omega arith
  length-skip (suc n) (a ∷ rows) = omega (arith, length-skip n rows)

  length-take : (n : ℕ) (rows : List A) → length (take n rows) ≡ min n (length rows)
  length-take zero rows = omega arith
  length-take (suc n) [] = omega arith
  length-take (suc n) (a ∷ rows) = omega (arith, length-take n rows)

  pub length-page :
      (at : A → ℕ) (test : A → Bool) (limit offset : ℕ) (rows : List A)
      → length (page at test limit offset rows) ≡ min limit (length (chosen test rows) - offset)
  length-page at test limit offset rows =
      length-take limit (skip offset (newest_first at (chosen test rows)))
      ∙ ap (min limit) (
          length-skip offset (newest_first at (chosen test rows))
          ∙ ap (λ n. n - offset) (length-newest_first at (chosen test rows)))

  -- No row is older than one that follows it.
  abbrev pub IsNewestFirst : (A → ℕ) → List A → Type 0
  IsNewestFirst at [] = Unit
  IsNewestFirst at (a ∷ rows) = All (λ b. at b ≤ at a) rows × IsNewestFirst at rows

  All-later :
      (at : A → ℕ) (a b : A) (rows : List A)
      → at b ≤ at a
      → All (λ c. at c ≤ at b) rows
      → All (λ c. at c ≤ at a) rows
  All-later at a b [] le h = tt
  All-later at a b (c ∷ rows) le h = (omega arith, All-later at a b rows le h.1)

module _ {ℓ κ} {A : Type ℓ} (P : A → Type κ) where
  All-insert_newest :
      (at : A → ℕ) (a : A) (rows : List A) → P a → All P rows → All P (insert_newest at a rows)
  All-insert_newest at a [] p h = (p, tt)
  All-insert_newest at a (b ∷ rows) p h = elim (Bool-cases (leb (at b) (at a))) [
    | inl e ↦ rw (e, if◌then◌else◌) (p, h)
    | inr e ↦ rw (e, if◌then◌else◌) (h.0, All-insert_newest at a rows p h.1)
  ]

  All-newest_first : (at : A → ℕ) (rows : List A) → All P rows → All P (newest_first at rows)
  All-newest_first at [] h = tt
  All-newest_first at (a ∷ rows) h =
      All-insert_newest at a (newest_first at rows) h.0 (All-newest_first at rows h.1)

  All-skip : (n : ℕ) (rows : List A) → All P rows → All P (skip n rows)
  All-skip zero rows h = h
  All-skip (suc n) [] h = h
  All-skip (suc n) (a ∷ rows) h = All-skip n rows h.1

  All-take : (n : ℕ) (rows : List A) → All P rows → All P (take n rows)
  All-take zero rows h = tt
  All-take (suc n) [] h = tt
  All-take (suc n) (a ∷ rows) h = (h.0, All-take n rows h.1)

module _ {ℓ} {A : Type ℓ} (at : A → ℕ) where
  insert_newest-IsNewestFirst :
      (a : A) (rows : List A) → IsNewestFirst at rows → IsNewestFirst at (insert_newest at a rows)
  insert_newest-IsNewestFirst a [] h = (tt, tt)
  insert_newest-IsNewestFirst a (b ∷ rows) h = elim (Bool-cases (leb (at b) (at a))) [
    | inl e ↦ rw (e, if◌then◌else◌) ((ground arith, All-later at a b rows (ground arith) h.0), h)
    | inr e ↦
        rw (e, if◌then◌else◌)
          (
            All-insert_newest (λ c. at c ≤ at b) at a rows (ground arith) h.0,
            insert_newest-IsNewestFirst a rows h.1,
          )
  ]

  newest_first-IsNewestFirst : (rows : List A) → IsNewestFirst at (newest_first at rows)
  newest_first-IsNewestFirst [] = tt
  newest_first-IsNewestFirst (a ∷ rows) =
      insert_newest-IsNewestFirst a (newest_first at rows) (newest_first-IsNewestFirst rows)

  skip-IsNewestFirst :
      (n : ℕ) (rows : List A) → IsNewestFirst at rows → IsNewestFirst at (skip n rows)
  skip-IsNewestFirst zero rows h = h
  skip-IsNewestFirst (suc n) [] h = h
  skip-IsNewestFirst (suc n) (a ∷ rows) h = skip-IsNewestFirst n rows h.1

  take-IsNewestFirst :
      (n : ℕ) (rows : List A) → IsNewestFirst at rows → IsNewestFirst at (take n rows)
  take-IsNewestFirst zero rows h = tt
  take-IsNewestFirst (suc n) [] h = tt
  take-IsNewestFirst (suc n) (a ∷ rows) h =
      (All-take (λ b. at b ≤ at a) n rows h.0, take-IsNewestFirst n rows h.1)

  chosen-passes : (test : A → Bool) (rows : List A) → All (λ a. test a ≡ true) (chosen test rows)
  chosen-passes test [] = tt
  chosen-passes test (a ∷ rows) = elim (Bool-cases (test a)) [
    | inl e ↦ rw (e, if◌then◌else◌) (e, chosen-passes test rows)
    | inr e ↦ rw (e, if◌then◌else◌) (chosen-passes test rows)
  ]

  -- A page shows chosen rows only, newest first, as many as there are or as it holds.
  pub page-IsNewestFirst :
      (test : A → Bool) (limit offset : ℕ) (rows : List A)
      → IsNewestFirst at (page at test limit offset rows)
        × All (λ a. test a ≡ true) (page at test limit offset rows)
        × (length (page at test limit offset rows) ≡ min limit (length (chosen test rows) - offset))
  page-IsNewestFirst test limit offset rows =
      let sorted = newest_first at (chosen test rows) in
      (
        take-IsNewestFirst limit (skip offset sorted)
            (skip-IsNewestFirst offset sorted (newest_first-IsNewestFirst (chosen test rows))),
        All-take (λ a. test a ≡ true) limit (skip offset sorted)
            (All-skip (λ a. test a ≡ true) offset sorted
              (All-newest_first (λ a. test a ≡ true) at (chosen test rows)
                (chosen-passes test rows))),
        length-page at test limit offset rows,
      )
