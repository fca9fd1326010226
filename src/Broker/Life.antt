-- ===== src/Broker/Life.antt =====
-- One message of libs/common/events.py from its arrival to its end, where nothing crashes and its
-- retry copies are published.
use mini_stock_exchange_plat.Base.{
  ℕ, zero, suc, length, ◌+◌, ◌<◌, ◌≡◌, refl, true, false, some, List, [], ◌∷◌, ◌++◌, arith, leb,
  if◌then◌else◌, ap,
}
use mini_stock_exchange_plat.Events.Once.{Delivery, returned, raised}
use mini_stock_exchange_plat.Broker.{
  max_delivery_attempts, Message, Queue, requeue_for_retry, after_failure, after_handler, on_body,
  on_message,
}

module _ {Env State : Type 0} (handler : Env → State → State × Delivery) where
  -- The first message is consumed, and what is in the retry queue comes back.
  consume_first : List (Message Env) → Queue Env State → Queue Env State
  consume_first [] q = q
  consume_first (m ∷ ms) q = on_message handler true m (record q { waiting = ms })

  pub round : Queue Env State → Queue Env State
  round q =
      let q' = consume_first q.waiting q in
      record q' { waiting = q'.waiting ++ q'.retrying; retrying = [] }

  pub rounds : ℕ → Queue Env State → Queue Env State
  rounds zero q = q
  rounds (suc n) q = rounds n (round q)

  -- The specification: the handler is called until it returns, so many times at most.
  unfoldable pub call_until : ℕ → Env → State → State × Delivery
  call_until zero env s = (s, raised)
  call_until (suc n) env s =
      let (s', delivery) = handler env s in
      elim delivery [ returned ↦ (s', returned) | raised ↦ call_until n env s' ]

-- The copy that is dead-lettered, if the last call raised.
abbrev pub dead_for : {Env : Type 0} → Env → Delivery → List (Message Env)
dead_for env returned = []
dead_for env raised = record { body = some env; attempts = max_delivery_attempts } ∷ []

abbrev pub handled_for : Delivery → ℕ
handled_for returned = 1
handled_for raised = 0

-- The queue is done with the message; `r` is how the calls of the handler have ended.
pub record HasEnded {Env State : Type 0} (env : Env) (r : State × Delivery) (q : Queue Env State)
    : Type 0 where
  pub none_waiting : q.waiting ≡ []
  pub none_retrying : q.retrying ≡ []
  pub none_unacked : q.unacked ≡ []
  pub state_left : q.state ≡ r.0
  pub dead_left : q.dead ≡ dead_for env r.1
  pub handled_left : length q.handled ≡ handled_for r.1

-- A queue that holds only this message.
abbrev pub holding : {Env State : Type 0} → Env → ℕ → State → Queue Env State
holding env attempts s = record {
  waiting = record { body = some env; attempts = attempts } ∷ [];
  retrying = [];
  dead = [];
  unacked = [];
  handled = [];
  dropped = [];
  state = s;
}

module _ {Env State : Type 0} (handler : Env → State → State × Delivery) where
  rounds_idle :
      (n : ℕ) (q : Queue Env State) → q.waiting ≡ [] → q.retrying ≡ [] → rounds handler n q ≡ q
  unfolding rounds round consume_first
  rounds_idle zero q w r = refl
  rounds_idle (suc n) q w r =
      let e : round handler q ≡ q = ground arith in rw (rounds, e) (rounds_idle n q w r)

  round_returned :
      (env : Env) (k : ℕ) (s s' : State)
      → handler env s ≡ (s', returned)
      → round handler (holding env k s) ≡ record (holding env k s') {
        waiting = [];
        handled = record { body = some env; attempts = k } ∷ [];
      }
  unfolding round consume_first on_message on_body after_handler
  round_returned env k s s' e =
      rw (e, after_handler) (rw (ap (λ (x : State × Delivery). x.0) e) refl)

  round_raised :
      (env : Env) (k : ℕ) (s s' : State)
      → handler env s ≡ (s', raised)
      → k + 1 < max_delivery_attempts
      → round handler (holding env k s) ≡ holding env (k + 1) s'
  unfolding round consume_first on_message on_body after_handler after_failure requeue_for_retry
  round_raised env k s s' e h =
      let more : leb max_delivery_attempts (k + 1) ≡ false = ground arith in
      rw (e, after_handler)
        (rw (more, if◌then◌else◌) (rw (ap (λ (x : State × Delivery). x.0) e) refl))

  round_dead :
      (env : Env) (k : ℕ) (s s' : State)
      → handler env s ≡ (s', raised)
      → k + 1 ≡ max_delivery_attempts
      → round handler (holding env k s)
        ≡ record (holding env k s') { waiting = []; dead = dead_for env raised }
  unfolding round consume_first on_message on_body after_handler after_failure requeue_for_retry
  round_dead env k s s' e h =
      rw (e, after_handler) (rw h (rw (ap (λ (x : State × Delivery). x.0) e) refl))

  settled :
      (n : ℕ) (q q' : Queue Env State) (env : Env) (r : State × Delivery)
      → round handler q ≡ q'
      → HasEnded env r q'
      → HasEnded env r (rounds handler (suc n) q)
  unfolding rounds
  settled n q q' env r e h = rw (e, rounds_idle n q' h.none_waiting h.none_retrying) h

  call_until_returned :
      (n : ℕ) (env : Env) (s s' : State)
      → handler env s ≡ (s', returned)
      → call_until handler (suc n) env s ≡ (s', returned)
  unfolding call_until
  call_until_returned n env s s' e = ground (arith, e)

  call_until_raised :
      (n : ℕ) (env : Env) (s s' : State)
      → handler env s ≡ (s', raised)
      → call_until handler (suc n) env s ≡ call_until handler n env s'
  unfolding call_until
  call_until_raised n env s s' e = ground (arith, e)

  rounds-HasEnded :
      (n k : ℕ) (env : Env) (s : State) (r : State × Delivery)
      → k + suc n ≡ max_delivery_attempts
      → handler env s ≡ r
      → HasEnded env (call_until handler (suc n) env s) (rounds handler (suc n) (holding env k s))
  unfolding rounds call_until
  rounds-HasEnded n k env s (s', returned) h e = rw (call_until_returned n env s s' e) (
      settled n _ _ env (s', returned) (round_returned env k s s' e)
        (record {
          none_waiting = refl;
          none_retrying = refl;
          none_unacked = refl;
          state_left = refl;
          dead_left = refl;
          handled_left = omega arith;
        }))
  rounds-HasEnded zero k env s (s', raised) h e = rw (call_until_raised 0 env s s' e) (
      settled 0 _ _ env (s', raised) (round_dead env k s s' e (omega arith))
        (record {
          none_waiting = refl;
          none_retrying = refl;
          none_unacked = refl;
          state_left = refl;
          dead_left = refl;
          handled_left = omega arith;
        }))
  rounds-HasEnded (suc n) k env s (s', raised) h e =
      rw (call_until_raised (suc n) env s s' e, round_raised env k s s' e (omega arith))
        (rounds-HasEnded n (k + 1) env s' (handler env s') (omega arith) refl)

  -- Where nothing crashes and the retry copies are published, five rounds of delivery and retry
  -- are enough for a message: nothing of it is left to deliver, the service's state is the one
  -- that calling the handler until it returns, five times at most, leaves, and the message is
  -- handled once if a call returned and dead-lettered once if none did.
  pub life-HasEnded :
      (env : Env) (s : State)
      → HasEnded env
          (call_until handler max_delivery_attempts env s)
          (rounds handler max_delivery_attempts (holding env 0 s))
  life-HasEnded env s = rounds-HasEnded 4 0 env s (handler env s) (omega arith) refl
