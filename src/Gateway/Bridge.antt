-- ===== src/Gateway/Bridge.antt =====
-- The connections of the WebSocket bridge: services/gateway/app/ws_proxy.py. What the sockets
-- carry is left out. The event loop runs one bridge at a time from one await to the next, so a
-- bridge moves in three steps: the check, the count after `accept`, and the `finally`.
pub mod Counted
mod Tests
use mini_stock_exchange_plat.Base.{
  ℕ, ◌+◌, ◌-◌, ◌≤◌, ◌≡◌, Bool, true, false, ◌||◌, List, [], ◌∷◌, ◌==◌, leb, if◌then◌else◌, length,
}
use mini_stock_exchange_plat.Base.Dict.{Dict, lookup, insert, delete, total_of, value_of}

abbrev pub max_total_connections : ℕ
max_total_connections = 200

abbrev pub max_per_client : ℕ
max_per_client = 5

-- `_per_client`: a missing key counts 0.
abbrev pub Counter : Type 0
Counter = Dict ℕ

abbrev pub count_at : ℕ → Counter → ℕ
count_at key counter = value_of (λ n. n) (lookup key counter)

abbrev pub at_capacity : ℕ → Counter → Bool
at_capacity key per_client =
    leb max_total_connections (total_of (λ n. n) per_client)
    || leb max_per_client (count_at key per_client)

unfoldable pub increment : ℕ → Counter → Counter
increment key per_client = insert key (count_at key per_client + 1) per_client

-- A count of 0 or less is deleted.
unfoldable pub decrement : ℕ → Counter → Counter
decrement key per_client =
    let count = count_at key per_client - 1 in
    let counted = insert key count per_client in if leb count 0 then delete key counted else counted

-- The clients whose bridge waits for `accept`, and whose bridge is open.
pub record Bridges : Type 0 where
  pub per_client : Counter
  pub waiting : List ℕ
  pub opened : List ℕ

abbrev pub times : ℕ → List ℕ → ℕ
times key [] = 0
times key (other ∷ keys) = (if key == other then 1 else 0) + times key keys

abbrev pub without : ℕ → List ℕ → List ℕ
without key [] = []
without key (other ∷ keys) = if key == other then keys else other ∷ without key keys

-- `accept` may fail, which ends the bridge before its count.
pub data Step : Bridges → Bridges → Type 0 where
  refuses : (key : ℕ) (b : Bridges) → at_capacity key b.per_client ≡ true → Step b b
  admits :
      (key : ℕ) (b : Bridges)
      → at_capacity key b.per_client ≡ false
      → Step b (record b { waiting = key ∷ b.waiting })
  accepts :
      (key : ℕ) (b : Bridges)
      → 1 ≤ times key b.waiting
      → Step b (record {
        per_client = increment key b.per_client;
        waiting = without key b.waiting;
        opened = key ∷ b.opened;
      })
  fails :
      (key : ℕ) (b : Bridges)
      → 1 ≤ times key b.waiting
      → Step b (record b { waiting = without key b.waiting })
  ends :
      (key : ℕ) (b : Bridges)
      → 1 ≤ times key b.opened
      → Step b (record b { per_client = decrement key b.per_client; opened = without key b.opened })

-- Steps in which at most `w` bridges wait for `accept` at a time.
pub data Steps (w : ℕ) : Bridges → Bridges → Type 0 where
  done : (b : Bridges) → Steps w b b
  step_then : {a b c : Bridges} → Step a b → length b.waiting ≤ w → Steps w b c → Steps w a c
