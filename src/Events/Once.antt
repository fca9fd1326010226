-- ===== src/Events/Once.antt =====
-- Database-first idempotency: `seen_event` and `mark_event_processed` of
-- libs/common/redis_client.py, around work that commits together with its `processed_events` row,
-- as services/order-service/app/handlers.py does in `_once`. The database of a service is a
-- parameter; what its constraints refuse at commit is `accepts`. Keys of Redis may be lost at any
-- time, so `seen` is never relied on.
use mini_stock_exchange_plat.Base.{
  ℕ, ◌≡◌, Bool, true, false, Option, none, some, List, [], ◌∷◌, arith, ◌==◌, ◌||◌, not,
  if◌then◌else◌,
}

-- `event_id` of an envelope: missing, a text that is no UUID, or a UUID.
pub data EventId : Type 0 where
  absent : EventId
  text : ℕ → EventId
  uuid : ℕ → EventId

-- The `idem:` keys of this service in Redis.
pub record Seen : Type 0 where
  pub texts : List ℕ
  pub uuids : List ℕ

abbrev pub member : ℕ → List ℕ → Bool
member k [] = false
member k (j ∷ js) = k == j || member k js

unfoldable pub seen_event : Seen → EventId → Bool
seen_event seen absent = false
seen_event seen (text k) = member k seen.texts
seen_event seen (uuid k) = member k seen.uuids

unfoldable pub mark_event_processed : Seen → EventId → Seen
mark_event_processed seen absent = seen
mark_event_processed seen (text k) = record seen { texts = k ∷ seen.texts }
mark_event_processed seen (uuid k) = record seen { uuids = k ∷ seen.uuids }

-- A service: its tables, the primary keys of `processed_events`, and its markers in Redis.
pub record Service (Db : Type 0) : Type 0 where
  pub db : Db
  pub processed : List ℕ
  pub seen : Seen

-- How a delivery ends for the broker: the handler returns or raises.
pub data Delivery : Type 0 where
  returned raised : Delivery

module _ {Db : Type 0} (accepts : Db → Bool) where
  -- `session.commit()` with the marker's row: `none` is an IntegrityError, which is rolled back.
  unfoldable pub commit : EventId → Db → List ℕ → Option (Db × List ℕ)
  commit (uuid k) db processed =
      if member k processed || not (accepts db) then none else some (db, k ∷ processed)
  commit absent db processed = if accepts db then some (db, processed) else none
  commit (text k) db processed = if accepts db then some (db, processed) else none

  finish : EventId → Service Db → Option (Db × List ℕ) → Service Db
  finish event_id s none = s
  finish event_id s (some (db, processed)) = record {
    db = db;
    processed = processed;
    seen = mark_event_processed s.seen event_id;
  }

  apply_work : EventId → Service Db → Option Db → Service Db × Delivery
  unfolding finish
  apply_work event_id s none = (s, raised)
  apply_work event_id s (some db) = (finish event_id s (commit event_id db s.processed), returned)

  -- `_once`; `work` is `none` where it raises.
  unfoldable pub once : (Db → Option Db) → EventId → Service Db → Service Db × Delivery
  unfolding apply_work
  once work event_id s =
      if seen_event s.seen event_id then (s, returned) else apply_work event_id s (work s.db)

  -- Whatever happens to the markers in Redis and whatever the work is by then, an event whose
  -- row is in `processed_events` changes no table.
  pub once_processed :
      (work : Db → Option Db) (k : ℕ) (s : Service Db)
      → member k s.processed ≡ true
      → ((once work (uuid k) s).0.db ≡ s.db) × ((once work (uuid k) s).0.processed ≡ s.processed)
  unfolding once commit
  once_processed work k s h = ground arith

  -- A marker in Redis is written after the row only.
  abbrev pub IsHonest : ℕ → Service Db → Type 0
  IsHonest k s = member k s.seen.uuids ≡ true → member k s.processed ≡ true

  -- Handling an event twice leaves the tables and the processed events as handling it once does,
  -- for any work and constraints, even if Redis has lost the marker or gained any other in
  -- between, provided that a marker stands only for an event that is recorded.
  pub once_twice :
      (work : Db → Option Db) (k : ℕ) (s : Service Db) (seen' : Seen)
      → IsHonest k s
      → let s1 = (once work (uuid k) s).0 in
        let s2 = (once work (uuid k) (record s1 { seen = seen' })).0 in
        (s2.db ≡ s1.db) × (s2.processed ≡ s1.processed)
  unfolding once commit seen_event
  once_twice work k s seen' h = ground arith

  pub once-IsHonest :
      (work : Db → Option Db) (j k : ℕ) (s : Service Db)
      → IsHonest j s
      → IsHonest j (once work (uuid k) s).0
  unfolding once commit seen_event mark_event_processed
  once-IsHonest work j k s h m = ground (arith, h)

  -- Work that raises nothing and that the constraints accept is done, where the event is neither
  -- recorded nor marked.
  pub once_done :
      (work : Db → Option Db) (k : ℕ) (s : Service Db) (db : Db)
      → member k s.processed ≡ false
      → member k s.seen.uuids ≡ false
      → work s.db ≡ some db
      → accepts db ≡ true
      → (once work (uuid k) s).0.db ≡ db
  unfolding once commit seen_event
  once_done work k s db h g e a = ground arith
