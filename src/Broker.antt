-- ===== src/Broker.antt =====
-- Delivery of messages: `Broker.consume` of libs/common/events.py, for one queue. RabbitMQ holds the
-- queues; what it does with them is in `Step`. A message is its body and the header
-- x-attempts; a body that is no JSON is `none`. Whether publishing works is `sent`.
pub mod Steps
pub mod Moves
pub mod Lossless
pub mod Bounded
pub mod Life
mod Tests
use mini_stock_exchange_plat.Base.{
  ℕ, ◌+◌, Bool, Option, none, some, List, [], ◌∷◌, ◌++◌, leb, if◌then◌else◌,
}
use mini_stock_exchange_plat.Events.Once.{Delivery, returned, raised}

abbrev pub max_delivery_attempts : ℕ
max_delivery_attempts = 5

pub record Message (Env : Type 0) : Type 0 where
  pub body : Option Env
  pub attempts : ℕ

-- The queue, its retry queue, the dead-letter exchange, and what was delivered and not acked.
-- `handled` and `dropped` are the messages acked for good, and `state` is the service's.
pub record Queue (Env State : Type 0) : Type 0 where
  pub waiting : List (Message Env)
  pub retrying : List (Message Env)
  pub dead : List (Message Env)
  pub unacked : List (Message Env)
  pub handled : List (Message Env)
  pub dropped : List (Message Env)
  pub state : State

-- `_requeue_for_retry`, where publishing works.
unfoldable pub requeue_for_retry :
    {Env State : Type 0} → Message Env → ℕ → Queue Env State → Queue Env State
requeue_for_retry m attempts q =
    let copy = record m { attempts = attempts } in
    if leb max_delivery_attempts attempts
    then record q { dead = q.dead ++ copy ∷ [] }
    else record q { retrying = q.retrying ++ copy ∷ [] }

-- The message is acked once its copy is published, or else stays unacked.
unfoldable pub after_failure :
    {Env State : Type 0} → Bool → Message Env → Queue Env State → Queue Env State
after_failure sent m q =
    if sent then requeue_for_retry m (m.attempts + 1) q else record q { unacked = m ∷ q.unacked }

module _ {Env State : Type 0} (handler : Env → State → State × Delivery) where
  -- What follows the call of the handler.
  unfoldable pub after_handler :
      Bool → Message Env → Queue Env State → State × Delivery → Queue Env State
  after_handler sent m q (s, returned) = record q { state = s; handled = m ∷ q.handled }
  after_handler sent m q (s, raised) = after_failure sent m (record q { state = s })

  -- `_on_message`, of a message that has left the queue.
  unfoldable pub on_body : Bool → Message Env → Queue Env State → Option Env → Queue Env State
  on_body sent m q none = record q { dropped = m ∷ q.dropped }
  on_body sent m q (some env) = after_handler sent m q (handler env q.state)

  unfoldable pub on_message : Bool → Message Env → Queue Env State → Queue Env State
  on_message sent m q = on_body sent m q m.body
