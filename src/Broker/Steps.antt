-- ===== src/Broker/Steps.antt =====
-- What may happen to a queue of libs/common/events.py, in any order.
use mini_stock_exchange_plat.Base.{
  ◌+◌, ◌<◌, ◌≡◌, Bool, Option, none, some, List, [], ◌∷◌, ◌++◌, ◌⊎◌, All,
}
use mini_stock_exchange_plat.Events.Once.{Delivery, returned}
use mini_stock_exchange_plat.Broker.{
  max_delivery_attempts, Message, Queue, requeue_for_retry, on_message,
}

module _ {Env State : Type 0} (handler : Env → State → State × Delivery) where
  -- A message is published; the consumer takes the first one; the retry queue's first message
  -- expires and comes back; the connection drops and an unacked message comes back; the service
  -- crashes in a handler, whose effect may have been committed, or between the retry copy and the
  -- ack.
  pub data Step : Queue Env State → Queue Env State → Type 0 where
    arrives :
        (body : Option Env) (q : Queue Env State)
        → Step q (record q { waiting = q.waiting ++ record { body = body; attempts = 0 } ∷ [] })
    delivers :
        (sent : Bool) (m : Message Env) (ms : List (Message Env)) (q : Queue Env State)
        → Step
            (record q { waiting = m ∷ ms })
            (on_message handler sent m (record q { waiting = ms }))
    expires :
        (m : Message Env) (ms : List (Message Env)) (q : Queue Env State)
        → Step
            (record q { retrying = m ∷ ms })
            (record q { retrying = ms; waiting = q.waiting ++ m ∷ [] })
    redelivers :
        (m : Message Env) (ms : List (Message Env)) (q : Queue Env State)
        → Step (record q { unacked = m ∷ ms }) (record q { unacked = ms; waiting = m ∷ q.waiting })
    crashes :
        (m : Message Env) (ms : List (Message Env)) (s : State) (q : Queue Env State)
        → Step
            (record q { waiting = m ∷ ms })
            (record q { waiting = ms; unacked = m ∷ q.unacked; state = s })
    crashes_after_copy :
        (m : Message Env) (ms : List (Message Env)) (q : Queue Env State)
        → Step
            (record q { waiting = m ∷ ms })
            (requeue_for_retry m
              (m.attempts + 1)
              (record q { waiting = ms; unacked = m ∷ q.unacked }))

  pub data Steps : Queue Env State → Queue Env State → Type 0 where
    done : (q : Queue Env State) → Steps q q
    step : {p q r : Queue Env State} → Step p q → Steps q r → Steps p r

-- A message with this body is in the list.
abbrev pub Holds : {Env : Type 0} → Option Env → List (Message Env) → Type 0
Holds body [] = ⊥
Holds body (m ∷ ms) = (m.body ≡ body) ⊎ Holds body ms

-- Where a published message may be.
pub data Place : Type 0 where
  waits retries died unacked acked dropped : Place

abbrev pub at : {Env State : Type 0} → Place → Queue Env State → List (Message Env)
at waits q = q.waiting
at retries q = q.retrying
at died q = q.dead
at unacked q = q.unacked
at acked q = q.handled
at dropped q = q.dropped

-- A handled message is one that the handler has returned for, and a dropped one is no JSON.
abbrev pub Earned :
    {Env State : Type 0} → (Env → State → State × Delivery) → Option Env → Place → Type 0
Earned {State} handler body acked =
    (env : _) × (s : State) × (body ≡ some env) × ((handler env s).1 ≡ returned)
Earned handler body dropped = body ≡ none
Earned handler body _ = Unit

-- The message is waiting, in the retry queue, dead-lettered, not acked, or rightly handled or
-- dropped.
abbrev pub Somewhere :
    {Env State : Type 0} → (Env → State → State × Delivery) → Option Env → Queue Env State → Type 0
Somewhere handler body q = (k : Place) × Holds body (at k q) × Earned handler body k

-- What counts as a delivery more than a message has had.
abbrev pub AllBelow : {Env : Type 0} → List (Message Env) → Type 0
AllBelow ms = All (λ m. m.attempts < max_delivery_attempts) ms

-- No message that may be delivered again has had all its attempts; a dead one has had just these.
pub record IsBounded {Env State : Type 0} (q : Queue Env State) : Type 0 where
  pub waiting_below : AllBelow q.waiting
  pub retrying_below : AllBelow q.retrying
  pub unacked_below : AllBelow q.unacked
  pub dead_exact : All (λ m. m.attempts ≡ max_delivery_attempts) q.dead
