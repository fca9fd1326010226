-- ===== src/Gateway/RateLimit.antt =====
-- The rate limit: services/gateway/app/ratelimit.py. Times are seconds. Of Redis, `incr` and
-- `expire` are modelled, with a key gone once its time to live is over.
pub mod Windows
use mini_stock_exchange_plat.Base.{
  ℕ, ◌+◌, ◌/◌, ◌<◌, ◌≤◌, ◌≡◌, refl, Bool, true, false, ◌&&◌, ◌==◌, Option, none, some, List, [],
  ◌∷◌, leb, ltb, if◌then◌else◌, arith,
}
use mini_stock_exchange_plat.Base.Text.{Text, text, eq_text, starts_with, ends_with}
use mini_stock_exchange_plat.Security.{Claims, get_or_empty}

abbrev pub default_limit : ℕ
default_limit = 120

abbrev pub order_placement_limit : ℕ
order_placement_limit = 30

abbrev pub bot_limit : ℕ
bot_limit = 1200

abbrev pub is_order_placement : Text → Text → Bool
is_order_placement method path =
    eq_text method (text "POST") && starts_with (text "/api/orders") path

abbrev pub is_bot : Option Claims → Bool
is_bot none = false
is_bot (some claims) = ends_with (text "@mse.local") (get_or_empty claims.email)

unfoldable pub limit_for : Text → Text → Option Claims → ℕ
limit_for method path claims =
    if is_bot claims
    then bot_limit
    else if is_order_placement method path
    then order_placement_limit
    else default_limit

unfoldable pub bucket_for : Text → Text → Text
bucket_for method path = if is_order_placement method path then text "orders" else text "default"

-- `ratelimit:{identity}:{bucket}:{window}`
pub record RateKey : Type 0 where
  pub identity : Text
  pub bucket : Text
  pub window : ℕ

abbrev pub eq_key : RateKey → RateKey → Bool
eq_key k l = eq_text k.identity l.identity && eq_text k.bucket l.bucket && k.window == l.window

pub record Counter : Type 0 where
  pub count : ℕ
  pub expires_at : Option ℕ

-- The keys of Redis.
abbrev pub Counters : Type 0
Counters = RateKey → Option Counter

-- What a key holds at this time.
abbrev pub alive : ℕ → Option Counter → Option Counter
alive now none = none
alive now (some c) = elim c.expires_at [
  | none ↦ some c
  | some t ↦ if ltb now t then some c else none
]

abbrev pub set_key : RateKey → Counter → Counters → Counters
set_key key c counters k = if eq_key k key then some c else counters k

abbrev pub incremented : Option Counter → Counter
incremented none = record { count = 1; expires_at = none }
incremented (some c) = record c { count = c.count + 1 }

-- How far Redis answers: not at all, only to `incr`, or to both calls.
pub data RedisUp : Type 0 where
  unreachable only_incr reachable : RedisUp

-- `expire(key, 60)` of a counter that stands at 1.
abbrev pub with_expiry : ℕ → Counter → Counter
with_expiry now c = if c.count == 1 then record c { expires_at = some (now + 60) } else c

-- `enforce`: whether the request is let through, and what Redis then holds. An error of Redis lets
-- it through.
unfoldable pub enforce : RedisUp → ℕ → Text → ℕ → Text → Counters → Counters × Bool
enforce up now identity limit bucket counters =
    let key : RateKey = record { identity = identity; bucket = bucket; window = now / 60 } in
    let c = incremented (alive now (counters key)) in
    elim up [
      | unreachable ↦ (counters, true)
      | only_incr ↦ (set_key key c counters, if c.count == 1 then true else leb c.count limit)
      | reachable ↦ (set_key key (with_expiry now c) counters, leb c.count limit)
    ]
