-- ===== src/Broker/Tests.antt =====
-- A queue of counters: the handler raises until its third call.
use mini_stock_exchange_plat.Base.{ℕ, ◌+◌, ◌≡◌, refl, true, some, [], ◌∷◌, ltb, if◌then◌else◌, inl}
use mini_stock_exchange_plat.Events.Once.{Delivery, returned, raised}
use mini_stock_exchange_plat.Broker.{
  Queue, on_message, on_body, after_handler, after_failure, requeue_for_retry,
  max_delivery_attempts,
}
use mini_stock_exchange_plat.Broker.Steps.{Steps, step, done, delivers, expires, Somewhere, waits}
use mini_stock_exchange_plat.Broker.Lossless.{Steps-Somewhere}
use mini_stock_exchange_plat.Broker.Life.{call_until, rounds, holding, HasEnded, life-HasEnded}

abbrev handler : ℕ → ℕ → ℕ × Delivery
handler limit calls = (calls + 1, if ltb (calls + 1) limit then raised else returned)

abbrev start : Queue ℕ ℕ
start = holding 3 0 0

abbrev failed_once : Queue ℕ ℕ
failed_once =
    on_message handler true (record { body = some 3; attempts = 0 }) (record start { waiting = [] })

abbrev back : Queue ℕ ℕ
back = record failed_once { retrying = []; waiting = record { body = some 3; attempts = 1 } ∷ [] }

failure_is_retried : failed_once.retrying ≡ record { body = some 3; attempts = 1 } ∷ []
unfolding on_message on_body after_handler after_failure requeue_for_retry
failure_is_retried = refl

twice_delivered : Steps handler start back
unfolding on_message on_body after_handler after_failure requeue_for_retry
twice_delivered = step (delivers true (record { body = some 3; attempts = 0 }) [] start) (
    step
      (expires (record { body = some 3; attempts = 1 }) [] (record failed_once { retrying = [] }))
      (done back))

Steps-Somewhere_example : Somewhere handler (some 3) back
Steps-Somewhere_example =
    Steps-Somewhere handler (some 3) start back twice_delivered (waits, inl refl, tt)

life-HasEnded_example :
    HasEnded 3
      (call_until handler max_delivery_attempts 3 0)
      (rounds handler max_delivery_attempts (holding 3 0 0))
life-HasEnded_example = life-HasEnded handler 3 0

third_call_returns : call_until handler max_delivery_attempts 3 0 ≡ (3, returned)
unfolding call_until
third_call_returns = refl
