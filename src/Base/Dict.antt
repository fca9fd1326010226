-- ===== src/Base/Dict.antt =====
-- Tables by a numeric key: what a Python dict or a primary key gives, in insertion order.
use Prim.Native.Nat.{ℕ, ◌+◌, ◌≤◌}
use mathlib.Core.Path.{◌≡◌, refl}
use mathlib.Core.Option.{Option, none, some}
use mathlib.Core.List.{List, [], ◌∷◌}
use native.Mathlib.Omega.{arith}
use mini_stock_exchange_plat.Base.Tests.{◌==◌, if◌then◌else◌}

abbrev pub Dict {ℓ} : Type ℓ → Type ℓ
Dict Row = List (ℕ × Row)

-- The row under a key, if there is one.
abbrev pub lookup {ℓ} : {Row : Type ℓ} → ℕ → Dict Row → Option Row
lookup key [] = none
lookup key ((other, row) ∷ table) = if key == other then some row else lookup key table

-- A row is written where its key stands, or at the end.
abbrev pub insert {ℓ} : {Row : Type ℓ} → ℕ → Row → Dict Row → Dict Row
insert key row [] = (key, row) ∷ []
insert key row ((other, old) ∷ table) =
    if key == other then (key, row) ∷ table else (other, old) ∷ insert key row table

pub lookup-insert {ℓ} :
    {Row : Type ℓ} (asked key : ℕ) (row : Row) (table : Dict Row)
    → lookup asked (insert key row table) ≡ (if asked == key then some row else lookup asked table)
lookup-insert asked key row [] = refl
lookup-insert asked key row ((other, old) ∷ table) =
    ground (arith, lookup-insert asked key row table)

-- A measure of the rows, added up, and of the row under a key.
abbrev pub total_of {ℓ} : {Row : Type ℓ} → (Row → ℕ) → Dict Row → ℕ
total_of f [] = 0
total_of f ((key, row) ∷ table) = f row + total_of f table

abbrev pub value_of {ℓ} : {Row : Type ℓ} → (Row → ℕ) → Option Row → ℕ
value_of f none = 0
value_of f (some row) = f row

-- Writing a row replaces what stood under its key in the total.
pub total_of-insert {ℓ} :
    {Row : Type ℓ} (f : Row → ℕ) (key : ℕ) (row : Row) (table : Dict Row)
    → total_of f (insert key row table) + value_of f (lookup key table) ≡ total_of f table + f row
total_of-insert f key row [] = omega arith
total_of-insert f key row ((other, old) ∷ table) = ground (arith, total_of-insert f key row table)

pub value_of-le_total {ℓ} :
    {Row : Type ℓ} (f : Row → ℕ) (key : ℕ) (table : Dict Row)
    → value_of f (lookup key table) ≤ total_of f table
value_of-le_total f key [] = omega arith
value_of-le_total f key ((other, old) ∷ table) = ground (arith, value_of-le_total f key table)

-- No key stands twice.
abbrev pub IsKeyed {ℓ} : {Row : Type ℓ} → Dict Row → Type ℓ
IsKeyed [] = Unit
IsKeyed ((key, row) ∷ table) = (lookup key table ≡ none) × IsKeyed table

pub insert-IsKeyed {ℓ} :
    {Row : Type ℓ} (key : ℕ) (row : Row) (table : Dict Row)
    → IsKeyed table
    → IsKeyed (insert key row table)
insert-IsKeyed key row [] h = (refl, tt)
insert-IsKeyed key row ((other, old) ∷ table) h =
    ground (arith, insert-IsKeyed key row table, lookup-insert other key row table)

-- `del table[key]`
abbrev pub delete {ℓ} : {Row : Type ℓ} → ℕ → Dict Row → Dict Row
delete key [] = []
delete key ((other, row) ∷ table) = if key == other then table else (other, row) ∷ delete key table

pub lookup-delete {ℓ} :
    {Row : Type ℓ} (asked key : ℕ) (table : Dict Row)
    → IsKeyed table
    → lookup asked (delete key table) ≡ (if asked == key then none else lookup asked table)
lookup-delete asked key [] h = ground arith
lookup-delete asked key ((other, row) ∷ table) h = ground (arith, lookup-delete asked key table)

pub delete-IsKeyed {ℓ} :
    {Row : Type ℓ} (key : ℕ) (table : Dict Row) → IsKeyed table → IsKeyed (delete key table)
delete-IsKeyed key [] h = tt
delete-IsKeyed key ((other, row) ∷ table) h =
    ground (arith, delete-IsKeyed key table, lookup-delete other key table)

pub total_of-delete {ℓ} :
    {Row : Type ℓ} (f : Row → ℕ) (key : ℕ) (table : Dict Row)
    → total_of f (delete key table) + value_of f (lookup key table) ≡ total_of f table
total_of-delete f key [] = omega arith
total_of-delete f key ((other, row) ∷ table) = ground (arith, total_of-delete f key table)
