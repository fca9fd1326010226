-- ===== src/Symbols/Known.antt =====
-- What normalize_symbol of libs/common/symbols.py gives.
use mini_stock_exchange_plat.Base.{
  ◌≡◌, refl, subst, true, Option, none, some, if◌then◌else◌, All, inl, inr, Bool-cases,
  some_injective,
}
use mini_stock_exchange_plat.Base.Maybe.{is_some, none_not_some}
use mini_stock_exchange_plat.Base.Text.{Text, strip, upper, one_of-All}
use mini_stock_exchange_plat.Symbols.{
  symbols, seed_prices, keys, get, is_symbol, is_valid_symbol, normalize_symbol,
}

-- Everywhere valid: it stays as it is, and has a seed price.
pub record IsKnown (symbol : Text) : Type 0 where
  pub listed : is_symbol symbol ≡ true
  pub same : normalize_symbol (some symbol) ≡ some symbol
  pub valid : is_valid_symbol (some symbol) ≡ true
  pub seeded : is_some (get symbol seed_prices) ≡ true

pub all-IsKnown : All IsKnown (keys symbols)
unfolding normalize_symbol is_valid_symbol
all-IsKnown = (
  record { listed = refl; same = refl; valid = refl; seeded = refl },
  (
    record { listed = refl; same = refl; valid = refl; seeded = refl },
    (
      record { listed = refl; same = refl; valid = refl; seeded = refl },
      (
        record { listed = refl; same = refl; valid = refl; seeded = refl },
        (
          record { listed = refl; same = refl; valid = refl; seeded = refl },
          (
            record { listed = refl; same = refl; valid = refl; seeded = refl },
            (
              record { listed = refl; same = refl; valid = refl; seeded = refl },
              (record { listed = refl; same = refl; valid = refl; seeded = refl }, tt),
            ),
          ),
        ),
      ),
    ),
  ),
)

is_symbol-IsKnown : (symbol : Text) → is_symbol symbol ≡ true → IsKnown symbol
is_symbol-IsKnown symbol listed = one_of-All IsKnown symbol (keys symbols) all-IsKnown listed

pub normalize_symbol-IsKnown :
    (symbol : Option Text) (s : Text) → normalize_symbol symbol ≡ some s → IsKnown s
unfolding normalize_symbol
normalize_symbol-IsKnown none s h = absurd (none_not_some h)
normalize_symbol-IsKnown (some symbol) s h = elim (Bool-cases (is_symbol (upper (strip symbol)))) [
  | inl listed ↦
      subst IsKnown (some_injective (rw (listed, if◌then◌else◌) at h))
        (is_symbol-IsKnown (upper (strip symbol)) listed)
  | inr other ↦ absurd (none_not_some (rw (other, if◌then◌else◌) at h))
]
