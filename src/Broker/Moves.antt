-- ===== src/Broker/Moves.antt =====
-- Where a message of libs/common/events.py is after it is put, taken or moved.
use mini_stock_exchange_plat.Base.{
  ℕ, ◌≡◌, Option, List, [], ◌∷◌, ◌++◌, leb, ◌⊎◌, inl, inr, both_branches,
}
use mini_stock_exchange_plat.Events.Once.{Delivery}
use mini_stock_exchange_plat.Broker.{max_delivery_attempts, Message, Queue, requeue_for_retry}
use mini_stock_exchange_plat.Broker.Steps.{
  Holds, Place, waits, retries, died, unacked, acked, dropped, at, Earned, Somewhere,
}

module _ {Env : Type 0} (body : Option Env) where
  pub Holds-append_left : (ms ns : List (Message Env)) → Holds body ms → Holds body (ms ++ ns)
  Holds-append_left [] ns h = absurd h
  Holds-append_left (m ∷ ms) ns (inl h) = inl h
  Holds-append_left (m ∷ ms) ns (inr h) = inr (Holds-append_left ms ns h)

  pub Holds-append_right : (ms ns : List (Message Env)) → Holds body ns → Holds body (ms ++ ns)
  Holds-append_right [] ns h = h
  Holds-append_right (m ∷ ms) ns h = inr (Holds-append_right ms ns h)

module _ {Env State : Type 0} (handler : Env → State → State × Delivery) (body : Option Env) where
  -- A step that takes nothing away, and one that takes a message off the front of a list.
  pub stays :
      (p q : Queue Env State)
      → ((k : Place) → Holds body (at k p) → Holds body (at k q))
      → Somewhere handler body p
      → Somewhere handler body q
  stays p q f (k, h, e) = (k, f k h, e)

  pub taken :
      (m : Message Env) (p q : Queue Env State)
      → ((k : Place) → Holds body (at k p) → (m.body ≡ body) ⊎ Holds body (at k q))
      → Somewhere handler body p
      → (m.body ≡ body) ⊎ Somewhere handler body q
  taken m p q f (k, h, earned) = elim (f k h) [ inl e ↦ inl e | inr h' ↦ inr (k, h', earned) ]

  pub from_waiting :
      (m : Message Env) (ms : List (Message Env)) (q : Queue Env State)
      → Somewhere handler body (record q { waiting = m ∷ ms })
      → (m.body ≡ body) ⊎ Somewhere handler body (record q { waiting = ms })
  from_waiting m ms q = taken m _ _ f
    where
      f :
          (k : Place)
          → Holds body (at k (record q { waiting = m ∷ ms }))
          → (m.body ≡ body) ⊎ Holds body (at k (record q { waiting = ms }))
      f waits h = h
      f _ h = inr h

  pub from_retrying :
      (m : Message Env) (ms : List (Message Env)) (q : Queue Env State)
      → Somewhere handler body (record q { retrying = m ∷ ms })
      → (m.body ≡ body) ⊎ Somewhere handler body (record q { retrying = ms })
  from_retrying m ms q = taken m _ _ f
    where
      f :
          (k : Place)
          → Holds body (at k (record q { retrying = m ∷ ms }))
          → (m.body ≡ body) ⊎ Holds body (at k (record q { retrying = ms }))
      f retries h = h
      f _ h = inr h

  pub from_unacked :
      (m : Message Env) (ms : List (Message Env)) (q : Queue Env State)
      → Somewhere handler body (record q { unacked = m ∷ ms })
      → (m.body ≡ body) ⊎ Somewhere handler body (record q { unacked = ms })
  from_unacked m ms q = taken m _ _ f
    where
      f :
          (k : Place)
          → Holds body (at k (record q { unacked = m ∷ ms }))
          → (m.body ≡ body) ⊎ Holds body (at k (record q { unacked = ms }))
      f unacked h = h
      f _ h = inr h

  pub append_waiting :
      (ns : List (Message Env)) (q : Queue Env State)
      → Somewhere handler body q
      → Somewhere handler body (record q { waiting = q.waiting ++ ns })
  append_waiting ns q = stays q _ f
    where
      f :
          (k : Place)
          → Holds body (at k q)
          → Holds body (at k (record q { waiting = q.waiting ++ ns }))
      f waits h = Holds-append_left body q.waiting ns h
      f _ h = h

  pub append_retrying :
      (ns : List (Message Env)) (q : Queue Env State)
      → Somewhere handler body q
      → Somewhere handler body (record q { retrying = q.retrying ++ ns })
  append_retrying ns q = stays q _ f
    where
      f :
          (k : Place)
          → Holds body (at k q)
          → Holds body (at k (record q { retrying = q.retrying ++ ns }))
      f retries h = Holds-append_left body q.retrying ns h
      f _ h = h

  pub append_dead :
      (ns : List (Message Env)) (q : Queue Env State)
      → Somewhere handler body q
      → Somewhere handler body (record q { dead = q.dead ++ ns })
  append_dead ns q = stays q _ f
    where
      f : (k : Place) → Holds body (at k q) → Holds body (at k (record q { dead = q.dead ++ ns }))
      f died h = Holds-append_left body q.dead ns h
      f _ h = h

  -- A message that is put in front of a list.
  pub put_unacked :
      (m : Message Env) (q : Queue Env State)
      → (m.body ≡ body) ⊎ Somewhere handler body q
      → Somewhere handler body (record q { unacked = m ∷ q.unacked })
  put_unacked m q (inl e) = (unacked, inl e, tt)
  put_unacked m q (inr h) = stays q _ f h
    where
      f :
          (k : Place)
          → Holds body (at k q)
          → Holds body (at k (record q { unacked = m ∷ q.unacked }))
      f unacked h = inr h
      f _ h = h

  pub put_waiting :
      (m : Message Env) (q : Queue Env State)
      → (m.body ≡ body) ⊎ Somewhere handler body q
      → Somewhere handler body (record q { waiting = m ∷ q.waiting })
  put_waiting m q (inl e) = (waits, inl e, tt)
  put_waiting m q (inr h) = stays q _ f h
    where
      f :
          (k : Place)
          → Holds body (at k q)
          → Holds body (at k (record q { waiting = m ∷ q.waiting }))
      f waits h = inr h
      f _ h = h

  pub put_handled :
      (m : Message Env) (q : Queue Env State)
      → (m.body ≡ body → Earned handler body acked)
      → (m.body ≡ body) ⊎ Somewhere handler body q
      → Somewhere handler body (record q { handled = m ∷ q.handled })
  put_handled m q earned (inl e) = (acked, inl e, earned e)
  put_handled m q earned (inr h) = stays q _ f h
    where
      f :
          (k : Place)
          → Holds body (at k q)
          → Holds body (at k (record q { handled = m ∷ q.handled }))
      f acked h = inr h
      f _ h = h

  pub put_dropped :
      (m : Message Env) (q : Queue Env State)
      → (m.body ≡ body → Earned handler body dropped)
      → (m.body ≡ body) ⊎ Somewhere handler body q
      → Somewhere handler body (record q { dropped = m ∷ q.dropped })
  put_dropped m q earned (inl e) = (dropped, inl e, earned e)
  put_dropped m q earned (inr h) = stays q _ f h
    where
      f :
          (k : Place)
          → Holds body (at k q)
          → Holds body (at k (record q { dropped = m ∷ q.dropped }))
      f dropped h = inr h
      f _ h = h

  pub with_state :
      (s : State) (q : Queue Env State)
      → Somewhere handler body q
      → Somewhere handler body (record q { state = s })
  with_state s q = stays q _ f
    where
      f : (k : Place) → Holds body (at k q) → Holds body (at k (record q { state = s }))
      f waits h = h
      f _ h = h

  pub requeue-Somewhere :
      (m : Message Env) (n : ℕ) (q : Queue Env State)
      → (m.body ≡ body) ⊎ Somewhere handler body q
      → Somewhere handler body (requeue_for_retry m n q)
  unfolding requeue_for_retry
  requeue-Somewhere m n q (inl e) =
      both_branches (Somewhere handler body) (leb max_delivery_attempts n)
        (died, Holds-append_right body q.dead _ (inl e), tt)
        (retries, Holds-append_right body q.retrying _ (inl e), tt)
  requeue-Somewhere m n q (inr h) =
      both_branches (Somewhere handler body) (leb max_delivery_attempts n) (append_dead _ q h)
        (append_retrying _ q h)
