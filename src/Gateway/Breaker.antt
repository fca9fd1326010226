-- ===== src/Gateway/Breaker.antt =====
-- The circuit breaker of services/gateway/app/proxy.py, for one upstream. Times are milliseconds
-- of the event loop's clock, later than 0.
use mini_stock_exchange_plat.Base.{
  ℕ, ◌+◌, ◌≡◌, Bool, true, false, not, ◌&&◌, Option, none, some, List, [], ◌∷◌, ltb, leb,
  if◌then◌else◌, arith,
}

abbrev pub hard_failure_threshold : ℕ
hard_failure_threshold = 1

abbrev pub soft_failure_threshold : ℕ
soft_failure_threshold = 4

abbrev pub breaker_open : ℕ
breaker_open = 10_000

-- An upstream's entries in `_failures` and `_open_until`; a missing count reads as 0.
pub record Breaker : Type 0 where
  pub failures : ℕ
  pub open_until : Option ℕ

-- `_circuit_open`: once the window has elapsed, a probe is let through.
unfoldable pub circuit_open : ℕ → Breaker → Breaker × Bool
circuit_open now b = elim b.open_until [
  | none ↦ (b, false)
  | some until ↦
      if ltb now until then (b, true) else (record { failures = 0; open_until = none }, false)
]

abbrev pub threshold : Bool → ℕ
threshold hard = if hard then hard_failure_threshold else soft_failure_threshold

-- `_record_failure`: an open circuit keeps its window.
unfoldable pub record_failure : ℕ → Bool → Breaker → Breaker
record_failure now hard b = record {
  failures = b.failures + 1;
  open_until = elim b.open_until [
    | some until ↦ some until
    | none ↦ if leb (threshold hard) (b.failures + 1) then some (now + breaker_open) else none
  ];
}

-- `_record_success`
abbrev pub record_success : Breaker → Breaker
record_success b = record { failures = 0; open_until = none }

-- One use of the breaker by a request; requests overlap, so they come in any order.
pub data Use : Type 0 where
  asks : ℕ → Use
  fails : ℕ → Bool → Use
  succeeds : Use

unfoldable pub use_breaker : Use → Breaker → Breaker
use_breaker (asks now) b = (circuit_open now b).0
use_breaker (fails now hard) b = record_failure now hard b
use_breaker succeeds b = record_success b

unfoldable pub use_all : List Use → Breaker → Breaker
use_all [] b = b
use_all (u ∷ us) b = use_all us (use_breaker u b)

abbrev pub closed : Breaker
closed = record { failures = 0; open_until = none }

-- The specification: the failures since the last success or probe, a hard one counted as the soft
-- threshold, and the time of the one that reached it.
pub record Watch : Type 0 where
  pub failed : ℕ
  pub reached_at : ℕ

abbrev pub nothing_failed : Watch
nothing_failed = record { failed = 0; reached_at = 0 }

abbrev pub is_reached : Watch → Bool
is_reached w = leb soft_failure_threshold w.failed

abbrev pub is_blocked : ℕ → Watch → Bool
is_blocked now w = is_reached w && ltb now (w.reached_at + breaker_open)

abbrev pub weight : Bool → ℕ
weight hard = if hard then soft_failure_threshold else 1

unfoldable pub watch : Use → Watch → Watch
watch (asks now) w = if is_reached w && not (is_blocked now w) then nothing_failed else w
watch (fails now hard) w = record {
  failed = w.failed + weight hard;
  reached_at = if is_reached w then w.reached_at else now;
}
watch succeeds w = nothing_failed

unfoldable pub watch_all : List Use → Watch → Watch
watch_all [] w = w
watch_all (u ∷ us) w = watch_all us (watch u w)

-- The breaker is open for what the watch has reached, and else has counted the same.
record Agrees (w : Watch) (b : Breaker) : Type 0 where
  opened : b.open_until ≡ (if is_reached w then some (w.reached_at + breaker_open) else none)
  counted : is_reached w ≡ false → b.failures ≡ w.failed

asked :
    (now : ℕ) (w : Watch) (b : Breaker)
    → Agrees w b
    → (circuit_open now b).0 ≡ (if is_reached w && not (is_blocked now w) then closed else b)
unfolding circuit_open
asked now w b h = ground (arith, h.opened)

-- After a hard failure of an upstream whose circuit was closed, a request is refused, and the
-- breaker left as it is, exactly until the window has elapsed; then it is let through and the
-- breaker is reset.
pub hard_failure_window :
    (now later : ℕ) (b : Breaker)
    → b.open_until ≡ none
    → circuit_open later (record_failure now true b) ≡ (
        if ltb later (now + breaker_open)
        then (record_failure now true b, true)
        else (record_success b, false))
unfolding circuit_open record_failure
hard_failure_window now later b e = ground (arith, e)
