-- ===== src/Gateway/Proxy/Bulkhead.antt =====
-- The bulkhead of services/gateway/app/proxy.py: the calls of `forward` for one upstream, which
-- overlap at each `await`. The semaphore's counter is `permits`.
use mini_stock_exchange_plat.Base.{ℕ, suc, ◌+◌, ◌≤◌, ◌≡◌, none, if◌then◌else◌, arith}
use mini_stock_exchange_plat.Gateway.Breaker.{Breaker, circuit_open}
use mini_stock_exchange_plat.Gateway.Proxy.{Sent, after_sent}

abbrev pub max_inflight_per_upstream : ℕ
max_inflight_per_upstream = 8

-- The requests that wait at the semaphore, and those that hold it while they call the upstream.
pub record Lane : Type 0 where
  pub breaker : Breaker
  pub permits : ℕ
  pub waiting : ℕ
  pub calling : ℕ

abbrev pub fresh_lane : Lane
fresh_lane = record {
  breaker = record { failures = 0; open_until = none };
  permits = max_inflight_per_upstream;
  waiting = 0;
  calling = 0;
}

-- A request asks the breaker; one that waits takes a permit or gives up after its second; a call
-- ends, its permit is released in `finally`, and the breaker is told.
unfoldable pub asks : ℕ → Lane → Lane
asks now lane =
    let (b, is_open) = circuit_open now lane.breaker in
    if is_open
    then record lane { breaker = b }
    else record lane { breaker = b; waiting = lane.waiting + 1 }

pub data Event (Body : Type 0) : Lane → Lane → Type 0 where
  begins : (now : ℕ) (lane : Lane) → Event Body lane (asks now lane)
  enters :
      (w p : ℕ) (lane : Lane)
      → Event Body
          (record lane { waiting = suc w; permits = suc p })
          (record lane { waiting = w; permits = p; calling = lane.calling + 1 })
  sheds :
      (w : ℕ) (lane : Lane)
      → Event Body (record lane { waiting = suc w }) (record lane { waiting = w })
  ends :
      (now c : ℕ) (sent : Sent Body) (lane : Lane)
      → Event Body
          (record lane { calling = suc c })
          (record lane {
            calling = c;
            permits = lane.permits + 1;
            breaker = (after_sent now lane.breaker sent).0;
          })

pub data Events (Body : Type 0) : Lane → Lane → Type 0 where
  quiet : (lane : Lane) → Events Body lane lane
  event_then : {a b c : Lane} → Event Body a b → Events Body b c → Events Body a c

-- Every permit is free or held by a call.
abbrev pub IsBalanced : Lane → Type 0
IsBalanced lane = lane.permits + lane.calling ≡ max_inflight_per_upstream

module _ {Body : Type 0} where
  Event-IsBalanced : {a b : Lane} → Event Body a b → IsBalanced a → IsBalanced b
  unfolding asks
  Event-IsBalanced (begins now lane) h = ground (arith, h)
  Event-IsBalanced (enters w p lane) h = omega arith
  Event-IsBalanced (sheds w lane) h = h
  Event-IsBalanced (ends now c sent lane) h = omega arith

  pub Events-IsBalanced : (a b : Lane) → Events Body a b → IsBalanced a → IsBalanced b
  Events-IsBalanced a b p h = go p h
    where
      go : {a b : Lane} → Events Body a b → IsBalanced a → IsBalanced b
      go (quiet lane) h = h
      go (event_then e p) h = go p (Event-IsBalanced e h)

  -- However requests to an upstream begin, wait, enter, give up and end, at most eight call it at
  -- a time, and when none does all eight permits are free again.
  pub bulkhead_bounds :
      (lane : Lane)
      → Events Body fresh_lane lane
      → (lane.calling ≤ max_inflight_per_upstream)
        × (lane.calling ≡ 0 → lane.permits ≡ max_inflight_per_upstream)
  bulkhead_bounds lane p =
      let h = Events-IsBalanced fresh_lane lane p (omega arith) in
      (omega (arith, h), λ e. omega (arith, h))
