-- ===== src/Money/Laws.antt =====
-- The rules of libs/common/money.py: ranges, rounding and exactness.
use native.Mathlib.Nat.{mul-le-mul, pow-suc, one-le-pow}
use mini_stock_exchange_plat.Base.{
  ℕ, ◌+◌, ◌-◌, ◌*◌, ◌%◌, ◌^◌, ◌≤◌, ◌<◌, ◌≡◌, refl, ℤ, pos, negsuc, pos_part, neg_part, true, false,
  Bool-cases, subst, arith, leb, if◌then◌else◌, minus, ◌⊎◌, ◌↔◌, inl, inr, ap, zero, suc,
}
use mini_stock_exchange_plat.Money.{
  finite, Value, decimal, Result, ok, err, to_money, validate_price, int, validate_quantity,
  notional, max_coefficient, max_price, max_qty, tick, quantize, ◌>>=◌, price_in_range, to_units,
  div_half_up,
}

-- What `validate_price` demands of an amount.
abbrev pub IsPrice : ℤ → Type 0
IsPrice m = (p : ℕ) × (m ≡ pos p) × (0 < p) × (p ≤ max_price) × (p % tick ≡ 0)

-- Validate_price accepts a value, with the amount that to_money rounds it to, exactly when that
-- amount is a positive whole number of ticks and at most the maximum.
pub validate_price_iff :
    (v : Value) (m : ℤ) → (validate_price v ≡ ok m) ↔ ((to_money v ≡ ok m) × IsPrice m)
unfolding validate_price
validate_price_iff v m = (λ h. accepted (to_money v) h, λ h. rw (h.0) (accepts m h.1))
  where
    range : (u : ℤ) → price_in_range u ≡ ok m → (u ≡ m) × IsPrice m
    range (negsuc n) h = cc
    range (pos p) h = (ground arith, (p, ground arith, ground arith, ground arith, ground arith))

    accepted : (r : Result ℤ) → (r >>= price_in_range) ≡ ok m → (r ≡ ok m) × IsPrice m
    accepted (ok u) h = let r = range u h in (ap ok r.0, r.1)
    accepted (err e) h = cc

    accepts : (u : ℤ) → IsPrice u → price_in_range u ≡ ok u
    accepts u (p, e, h0, h1, h2) = rw e (ground arith)

-- Rounding a quotient: it lies within half a unit of the result.
div_half_up_bounds :
    (n d : ℕ)
    → 0 < d
    → (2 * n ≤ 2 * (div_half_up n d * d) + d) × (2 * (div_half_up n d * d) ≤ 2 * n + d)
div_half_up_bounds n d h = grind arith

product_small : (p q : ℕ) → p ≤ max_price → q ≤ max_qty → p * q < max_coefficient
product_small p q hp hq = let small : p * q ≤ max_price * max_qty = mul-le-mul hp hq in omega arith

-- The size of an amount.
abbrev pub size : ℤ → ℕ
size c = pos_part c + neg_part c

-- An integer over ten to the `scale`, within half a ten-thousandth of `p` ten-thousandths.
abbrev pub IsNear : ℕ → ℕ → ℕ → Type 0
IsNear n scale p =
    (2 * (n * 10_000) ≤ 2 * (p * 10 ^ scale) + 10 ^ scale)
    × (2 * (p * 10 ^ scale) ≤ 2 * (n * 10_000) + 10 ^ scale)

shift : (k : ℕ) → 10 ^ (k + 4) ≡ 10 ^ k * 10_000
shift zero = refl
shift (suc k) = grind (arith, shift k, pow-suc 10 (k + 4), pow-suc 10 k)

fine : (n k : ℕ) → IsNear n (k + 4) (div_half_up n (10 ^ k))
fine n k =
    rw (shift k) (grind (arith, div_half_up_bounds n (10 ^ k) (one-le-pow k 10 (omega arith))))

exact : (scale : ℕ) → scale ≤ 4 → 10 ^ (4 - scale) * 10 ^ scale ≡ 10_000
exact zero h = refl
exact (suc zero) h = refl
exact (suc (suc zero)) h = refl
exact (suc (suc (suc zero))) h = refl
exact (suc (suc (suc (suc zero)))) h = refl
exact (suc (suc (suc (suc (suc k))))) h = omega arith

coarse : (n scale : ℕ) → scale ≤ 4 → IsNear n scale (n * 10 ^ (4 - scale))
coarse n scale h = grind (arith, exact scale h)

size-to_units :
    (c : ℤ) (scale : ℕ)
    → size (to_units c scale)
      ≡ (if leb scale 4 then size c * 10 ^ (4 - scale) else div_half_up (size c) (10 ^ (scale - 4)))
size-to_units (pos n) scale = ground arith
size-to_units (negsuc n) scale = ground arith

to_units-IsNear : (c : ℤ) (scale : ℕ) → IsNear (size c) scale (size (to_units c scale))
to_units-IsNear c scale = rw (size-to_units c scale) (go (Bool-cases (leb scale 4)))
  where
    go :
        (leb scale 4 ≡ true) ⊎ (leb scale 4 ≡ false)
        → IsNear (size c) scale (
            if leb scale 4
            then size c * 10 ^ (4 - scale)
            else div_half_up (size c) (10 ^ (scale - 4)))
    go (inl h) = rw h (coarse (size c) scale (ground arith))
    go (inr h) =
        let e : (scale - 4) + 4 ≡ scale = ground arith in
        rw h (
          subst (λ s. IsNear (size c) s (div_half_up (size c) (10 ^ (scale - 4)))) e
            (fine (size c) (scale - 4)))

-- An amount is no negative one for a value that is none, and no positive one for a negative value.
abbrev pub KeepsSign : ℤ → ℤ → Type 0
KeepsSign (pos n) m = m ≡ pos (size m)
KeepsSign (negsuc n) m = m ≡ minus (size m)

-- A finite value that to_money accepts becomes the amount on its side of zero that is within half
-- a ten-thousandth of it.
pub to_money_nearest :
    (c : ℤ) (scale : ℕ) (m : ℤ)
    → to_money (decimal (finite c scale)) ≡ ok m
    → IsNear (size c) scale (size m) × KeepsSign c m
unfolding to_money quantize
to_money_nearest c scale m h =
    let e : to_units c scale ≡ m = ground arith in rw⁻¹ e (to_units-IsNear c scale, signs c)
  where
    signs : (c : ℤ) → KeepsSign c (to_units c scale)
    signs (pos n) = ground arith
    signs (negsuc n) = ground arith

-- For a value that to_money reads as a non-negative price of at most the maximum, and a positive
-- quantity of at most the maximum, notional is their exact product: nothing is rounded and nothing
-- is raised.
pub notional_exact :
    (v : Value) (p q : ℕ)
    → to_money v ≡ ok (pos p)
    → p ≤ max_price
    → 0 < q
    → q ≤ max_qty
    → notional v (int (pos q)) ≡ ok (pos (p * q))
unfolding notional validate_quantity
notional_exact v p q e hp h0 hq = rw (e, notional) (ground (arith, product_small p q hp hq))
