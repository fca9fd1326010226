-- ===== src/Gateway/RateLimit/Windows.antt =====
-- How many requests of services/gateway/app/ratelimit.py pass in one window.
use mini_stock_exchange_plat.Base.{
  ℕ, zero, suc, min, ◌+◌, ◌*◌, ◌/◌, ◌≤◌, ◌≡◌, refl, sym, subst, Bool, true, false, ◌&&◌, Option,
  none, some, List, [], ◌∷◌, leb, ltb, if◌then◌else◌, arith, All, Bool-cases, inl, inr,
}
use mini_stock_exchange_plat.Base.Text.{Text, eq_text_refl, eq_text→eq}
use mini_stock_exchange_plat.Gateway.RateLimit.{
  RateKey, eq_key, Counter, Counters, reachable, enforce,
}

-- A call of `enforce`.
pub record Attempt : Type 0 where
  pub now : ℕ
  pub identity : Text
  pub limit : ℕ
  pub bucket : Text

abbrev pub key_of : Attempt → RateKey
key_of a = record { identity = a.identity; bucket = a.bucket; window = a.now / 60 }

abbrev pub enforce_on : Attempt → Counters → Counters × Bool
enforce_on a counters = enforce reachable a.now a.identity a.limit a.bucket counters

abbrev pub unit_if : Bool → ℕ
unit_if b = if b then 1 else 0

-- The attempts under a key in a run, and how many of them are let through.
unfoldable pub asked : RateKey → List Attempt → ℕ
asked k [] = 0
asked k (a ∷ rest) = unit_if (eq_key k (key_of a)) + asked k rest

unfoldable pub admitted : RateKey → List Attempt → Counters → ℕ
admitted k [] counters = 0
admitted k (a ∷ rest) counters =
    unit_if (eq_key k (key_of a) && (enforce_on a counters).1)
    + admitted k rest (enforce_on a counters).0

-- All attempts under the key are held to the same limit.
abbrev pub AllLimited : RateKey → ℕ → List Attempt → Type 0
AllLimited k limit rest = All (λ a. eq_key k (key_of a) ≡ true → a.limit ≡ limit) rest

-- The counter after n attempts; it outlives its window.
abbrev StandsAt : RateKey → ℕ → Option Counter → Type 0
StandsAt k zero c = c ≡ none
StandsAt k (suc n) c =
    (t : ℕ) × (c ≡ some (record { count = suc n; expires_at = some t })) × (60 * k.window + 60 ≤ t)

eq_key→eq : (k l : RateKey) → eq_key k l ≡ true → k ≡ l
eq_key→eq k l h =
    let i = eq_text→eq k.identity l.identity in
    let b = eq_text→eq k.bucket l.bucket in ground (arith, i, b)

eq_key_refl : (k : RateKey) → eq_key k k ≡ true
eq_key_refl k = ground (arith, eq_text_refl k.identity, eq_text_refl k.bucket)

enforce_same :
    (a : Attempt) (n : ℕ) (counters : Counters)
    → StandsAt (key_of a) n (counters (key_of a))
    → StandsAt (key_of a) (suc n) ((enforce_on a counters).0 (key_of a))
      × ((enforce_on a counters).1 ≡ leb (suc n) a.limit)
unfolding enforce
enforce_same a zero counters e =
    rw (enforce, e, eq_key_refl (key_of a)) ((a.now + 60, refl, omega arith), refl)
enforce_same a (suc n) counters (t, e, h) =
    let on_time : ltb a.now t ≡ true = ground arith in
    rw (enforce, e, on_time, eq_key_refl (key_of a)) ((t, ground arith, h), ground arith)

enforce_other :
    (k : RateKey) (a : Attempt) (counters : Counters)
    → eq_key k (key_of a) ≡ false
    → (enforce_on a counters).0 k ≡ counters k
unfolding enforce
enforce_other k a counters h = rw (h, if◌then◌else◌) refl

enforce_step :
    (k : RateKey) (n : ℕ) (a : Attempt) (counters : Counters)
    → eq_key k (key_of a) ≡ true
    → StandsAt k n (counters k)
    → StandsAt k (suc n) ((enforce_on a counters).0 k)
      × ((enforce_on a counters).1 ≡ leb (suc n) a.limit)
enforce_step k n a counters same h =
    subst
      (λ k.
        StandsAt k n (counters k)
        → StandsAt k (suc n) ((enforce_on a counters).0 k)
          × ((enforce_on a counters).1 ≡ leb (suc n) a.limit))
      (sym (eq_key→eq k (key_of a) same)) (enforce_same a n counters) h

admitted-StandsAt :
    (k : RateKey) (limit n : ℕ) (attempts : List Attempt) (counters : Counters)
    → AllLimited k limit attempts
    → StandsAt k n (counters k)
    → admitted k attempts counters + min n limit ≡ min (n + asked k attempts) limit
unfolding admitted asked
admitted-StandsAt k limit n [] counters all h = omega arith
admitted-StandsAt k limit n (a ∷ attempts) counters all h =
    elim (Bool-cases (eq_key k (key_of a))) [
      | inl same ↦
          let step = enforce_step k n a counters same h in
          let ih =
            admitted-StandsAt k limit (suc n) attempts (enforce_on a counters).0 all.1 step.0 in
          let held = all.0 same in rw (same) (rw (step.1, held) (ground (arith, ih)))
      | inr other ↦
          let ih =
            admitted-StandsAt k limit n attempts (enforce_on a counters).0 all.1
              (rw (enforce_other k a counters other) h) in
          rw other (omega (arith, ih))
    ]

-- Of any calls of enforce while Redis is reachable, in any order and at any times, those under one
-- identity, bucket and minute that are let through are as many as there are or as the limit says,
-- whichever is less, if they all have this limit and the key is not there before.
pub admitted-min :
    (k : RateKey) (limit : ℕ) (attempts : List Attempt) (counters : Counters)
    → AllLimited k limit attempts
    → counters k ≡ none
    → admitted k attempts counters ≡ min (asked k attempts) limit
admitted-min k limit attempts counters all e =
    omega (arith, admitted-StandsAt k limit 0 attempts counters all e)
