-- ===== src/Broker/Lossless.antt =====
-- No message of libs/common/events.py is lost.
use mini_stock_exchange_plat.Base.{
  ◌+◌, ◌≡◌, refl, sym, ap, ◌∙◌, Bool, Option, none, some, [], ◌∷◌, ◌⊎◌, inl, inr, both_branches,
}
use mini_stock_exchange_plat.Events.Once.{Delivery, returned, raised}
use mini_stock_exchange_plat.Broker.{
  Message, Queue, after_failure, after_handler, on_body, on_message,
}
use mini_stock_exchange_plat.Broker.Steps.{
  Step, arrives, delivers, expires, redelivers, crashes, crashes_after_copy, Steps, done, step,
  waits, Somewhere,
}
use mini_stock_exchange_plat.Broker.Moves.{
  Holds-append_right, from_waiting, from_retrying, from_unacked, append_waiting, put_unacked,
  put_waiting, put_handled, put_dropped, with_state, requeue-Somewhere,
}

module _ {Env State : Type 0} (handler : Env → State → State × Delivery) (body : Option Env) where
  after_handler-Somewhere :
      (sent : Bool) (m : Message Env) (env : Env) (s0 : State) (q : Queue Env State)
      (r : State × Delivery)
      → m.body ≡ some env
      → handler env s0 ≡ r
      → (m.body ≡ body) ⊎ Somewhere handler body q
      → Somewhere handler body (after_handler handler sent m q r)
  unfolding after_handler after_failure
  after_handler-Somewhere sent m env s0 q (s, returned) b called h =
      put_handled handler body m (record q { state = s })
        (λ e. (env, s0, sym e ∙ b, ap (λ r. r.1) called))
        (elim h [ inl e ↦ inl e | inr g ↦ inr (with_state handler body s q g) ])
  after_handler-Somewhere sent m env s0 q (s, raised) b called h =
      let h' : (m.body ≡ body) ⊎ Somewhere handler body (record q { state = s }) = elim h [
        | inl e ↦ inl e
        | inr g ↦ inr (with_state handler body s q g)
      ] in
      both_branches (Somewhere handler body) sent
        (requeue-Somewhere handler body m (m.attempts + 1) (record q { state = s }) h')
        (put_unacked handler body m (record q { state = s }) h')

  on_body-Somewhere :
      (sent : Bool) (m : Message Env) (q : Queue Env State) (b : Option Env)
      → m.body ≡ b
      → (m.body ≡ body) ⊎ Somewhere handler body q
      → Somewhere handler body (on_body handler sent m q b)
  unfolding on_body
  on_body-Somewhere sent m q none b h = put_dropped handler body m q (λ e. sym e ∙ b) h
  on_body-Somewhere sent m q (some env) b h =
      after_handler-Somewhere sent m env q.state q (handler env q.state) b refl h

  Step-Somewhere :
      {p q : Queue Env State}
      → Step handler p q
      → Somewhere handler body p
      → Somewhere handler body q
  unfolding on_message
  Step-Somewhere (arrives b q) h = append_waiting handler body _ q h
  Step-Somewhere (delivers sent m ms q) h =
      on_body-Somewhere sent m (record q { waiting = ms }) m.body refl
        (from_waiting handler body m ms q h)
  Step-Somewhere (expires m ms q) h = elim (from_retrying handler body m ms q h) [
    | inl e ↦ (waits, Holds-append_right body q.waiting _ (inl e), tt)
    | inr g ↦ append_waiting handler body (m ∷ []) (record q { retrying = ms }) g
  ]
  Step-Somewhere (redelivers m ms q) h =
      put_waiting handler body m (record q { unacked = ms }) (from_unacked handler body m ms q h)
  Step-Somewhere (crashes m ms s q) h =
      with_state handler body s (record q { waiting = ms; unacked = m ∷ q.unacked })
        (put_unacked handler body m (record q { waiting = ms })
          (from_waiting handler body m ms q h))
  Step-Somewhere (crashes_after_copy m ms q) h =
      requeue-Somewhere handler body m (m.attempts + 1)
        (record q { waiting = ms; unacked = m ∷ q.unacked })
        (inr (
          put_unacked handler body m (record q { waiting = ms })
            (from_waiting handler body m ms q h)))

  -- No published message is lost: whatever a service's handler does, and however messages arrive,
  -- are delivered, expire in the retry queue, are delivered again after a dropped connection, and
  -- the service crashes in a handler or between the retry copy and the ack, a message that is in
  -- the system stays in it, waiting, in the retry queue, dead-lettered, not acked, handled by a
  -- call of the handler that returned, or dropped, which only a body that is no JSON is.
  pub Steps-Somewhere :
      (p q : Queue Env State)
      → Steps handler p q
      → Somewhere handler body p
      → Somewhere handler body q
  Steps-Somewhere p q t h = go t h
    where
      go :
          {p q : Queue Env State}
          → Steps handler p q
          → Somewhere handler body p
          → Somewhere handler body q
      go (done q) h = h
      go (step a b) h = go b (Step-Somewhere a h)
