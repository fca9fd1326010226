-- ===== src/Broker/Bounded.antt =====
-- How often a message of libs/common/events.py is delivered.
use mini_stock_exchange_plat.Base.{
  ◌+◌, ◌<◌, Bool, Option, none, some, ◌∷◌, arith, leb, if◌then◌else◌, All-append, both_branches,
  Bool-cases, inl, inr,
}
use mini_stock_exchange_plat.Events.Once.{Delivery, returned, raised}
use mini_stock_exchange_plat.Broker.{
  max_delivery_attempts, Message, Queue, requeue_for_retry, after_failure, after_handler, on_body,
  on_message,
}
use mini_stock_exchange_plat.Broker.Steps.{
  Step, arrives, delivers, expires, redelivers, crashes, crashes_after_copy, Steps, done, step,
  IsBounded,
}

requeue-IsBounded :
    {Env State : Type 0} (m : Message Env) (q : Queue Env State)
    → m.attempts < max_delivery_attempts
    → IsBounded q
    → IsBounded (requeue_for_retry m (m.attempts + 1) q)
unfolding requeue_for_retry
requeue-IsBounded m q h b = elim (Bool-cases (leb max_delivery_attempts (m.attempts + 1))) [
  | inl last ↦
      rw (last, if◌then◌else◌)
        (record {
          waiting_below = b.waiting_below;
          retrying_below = b.retrying_below;
          unacked_below = b.unacked_below;
          dead_exact = All-append _ q.dead _ b.dead_exact (ground arith);
        })
  | inr more ↦
      rw (more, if◌then◌else◌)
        (record {
          waiting_below = b.waiting_below;
          retrying_below = All-append _ q.retrying _ b.retrying_below (ground arith);
          unacked_below = b.unacked_below;
          dead_exact = b.dead_exact;
        })
]

module _ {Env State : Type 0} (handler : Env → State → State × Delivery) where
  after_handler-IsBounded :
      (sent : Bool) (m : Message Env) (q : Queue Env State) (r : State × Delivery)
      → m.attempts < max_delivery_attempts
      → IsBounded q
      → IsBounded (after_handler handler sent m q r)
  unfolding after_handler after_failure
  after_handler-IsBounded sent m q (s, returned) h b = record {
    waiting_below = b.waiting_below;
    retrying_below = b.retrying_below;
    unacked_below = b.unacked_below;
    dead_exact = b.dead_exact;
  }
  after_handler-IsBounded sent m q (s, raised) h b =
      both_branches IsBounded sent
        (requeue-IsBounded m (record q { state = s }) h
          (record {
            waiting_below = b.waiting_below;
            retrying_below = b.retrying_below;
            unacked_below = b.unacked_below;
            dead_exact = b.dead_exact;
          }))
        (record {
          waiting_below = b.waiting_below;
          retrying_below = b.retrying_below;
          unacked_below = (h, b.unacked_below);
          dead_exact = b.dead_exact;
        })

  on_body-IsBounded :
      (sent : Bool) (m : Message Env) (q : Queue Env State) (body : Option Env)
      → m.attempts < max_delivery_attempts
      → IsBounded q
      → IsBounded (on_body handler sent m q body)
  unfolding on_body
  on_body-IsBounded sent m q none h b = record {
    waiting_below = b.waiting_below;
    retrying_below = b.retrying_below;
    unacked_below = b.unacked_below;
    dead_exact = b.dead_exact;
  }
  on_body-IsBounded sent m q (some env) h b =
      after_handler-IsBounded sent m q (handler env q.state) h b

  Step-IsBounded : {p q : Queue Env State} → Step handler p q → IsBounded p → IsBounded q
  unfolding on_message
  Step-IsBounded (arrives body q) b = record {
    waiting_below = All-append _ q.waiting _ b.waiting_below (omega arith);
    retrying_below = b.retrying_below;
    unacked_below = b.unacked_below;
    dead_exact = b.dead_exact;
  }
  Step-IsBounded (delivers sent m ms q) b =
      on_body-IsBounded sent m (record q { waiting = ms }) m.body b.waiting_below.0
        (record {
          waiting_below = b.waiting_below.1;
          retrying_below = b.retrying_below;
          unacked_below = b.unacked_below;
          dead_exact = b.dead_exact;
        })
  Step-IsBounded (expires m ms q) b = record {
    waiting_below = All-append _ q.waiting _ b.waiting_below (b.retrying_below.0, tt);
    retrying_below = b.retrying_below.1;
    unacked_below = b.unacked_below;
    dead_exact = b.dead_exact;
  }
  Step-IsBounded (redelivers m ms q) b = record {
    waiting_below = (b.unacked_below.0, b.waiting_below);
    retrying_below = b.retrying_below;
    unacked_below = b.unacked_below.1;
    dead_exact = b.dead_exact;
  }
  Step-IsBounded (crashes m ms s q) b = record {
    waiting_below = b.waiting_below.1;
    retrying_below = b.retrying_below;
    unacked_below = (b.waiting_below.0, b.unacked_below);
    dead_exact = b.dead_exact;
  }
  Step-IsBounded (crashes_after_copy m ms q) b =
      requeue-IsBounded m (record q { waiting = ms; unacked = m ∷ q.unacked }) b.waiting_below.0
        (record {
          waiting_below = b.waiting_below.1;
          retrying_below = b.retrying_below;
          unacked_below = (b.waiting_below.0, b.unacked_below);
          dead_exact = b.dead_exact;
        })

  -- Whatever happens to a queue, if no message that may be delivered has had five attempts before
  -- and every dead-lettered one has had exactly five, that is so afterwards.
  pub Steps-IsBounded : (p q : Queue Env State) → Steps handler p q → IsBounded p → IsBounded q
  Steps-IsBounded p q t b = go t b
    where
      go : {p q : Queue Env State} → Steps handler p q → IsBounded p → IsBounded q
      go (done q) b = b
      go (step x y) b = go y (Step-IsBounded x b)
