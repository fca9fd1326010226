-- ===== src/Gateway/Bridge/Counted.antt =====
-- The counter of services/gateway/app/ws_proxy.py against the open bridges, and its limits.
use mini_stock_exchange_plat.Base.{
  ℕ, suc, ◌+◌, ◌-◌, ◌≤◌, ◌<◌, ◌≡◌, some, List, [], ◌∷◌, ◌==◌, leb, if◌then◌else◌, arith, length,
  inl, inr, Bool-cases,
}
use mini_stock_exchange_plat.Base.Dict.{
  lookup, insert, total_of, lookup-insert, lookup-delete, total_of-insert, total_of-delete, IsKeyed,
  insert-IsKeyed, delete-IsKeyed,
}
use mini_stock_exchange_plat.Gateway.Bridge.{
  max_total_connections, max_per_client, count_at, increment, decrement, Bridges, times, without,
  Step, refuses, admits, accepts, fails, ends, Steps, done, step_then,
}

times-without :
    (key other : ℕ) (keys : List ℕ)
    → 1 ≤ times key keys
    → times other (without key keys) + (if other == key then 1 else 0) ≡ times other keys
times-without key other [] h = absurd (omega arith)
times-without key other (first ∷ keys) h = ground (arith, times-without key other keys)

length-without :
    (key : ℕ) (keys : List ℕ) → 1 ≤ times key keys → suc (length (without key keys)) ≡ length keys
length-without key [] h = absurd (omega arith)
length-without key (first ∷ keys) h = ground (arith, length-without key keys)

-- The counter has the number of each client's open bridges, and no entry for a client without.
pub record IsExact (b : Bridges) : Type 0 where
  pub keyed : IsKeyed b.per_client
  pub counts : (key : ℕ) → count_at key b.per_client ≡ times key b.opened
  pub totals : total_of (λ n. n) b.per_client ≡ length b.opened
  pub positive : (key n : ℕ) → lookup key b.per_client ≡ some n → 1 ≤ n

-- With at most `w` waiting, no more than this is open or about to be.
pub record IsLimited (w : ℕ) (b : Bridges) : Type 0 where
  pub in_total : length b.opened + length b.waiting < max_total_connections + w
  pub per_key : (key : ℕ) → times key b.opened + times key b.waiting < max_per_client + w

increment-IsExact :
    (key : ℕ) (b : Bridges) (waiting : List ℕ)
    → IsExact b
    → IsExact (record {
      per_client = increment key b.per_client;
      waiting = waiting;
      opened = key ∷ b.opened;
    })
unfolding increment
increment-IsExact key b waiting exact =
    let c = b.per_client in
    record {
      keyed = insert-IsKeyed key (count_at key c + 1) c exact.keyed;
      counts = λ other. ground (
        arith,
        lookup-insert other key (count_at key c + 1) c,
        exact.counts other,
        exact.counts key,
      );
      totals = ground (arith, total_of-insert (λ n. n) key (count_at key c + 1) c, exact.totals);
      positive = λ other n h.
          ground (arith, lookup-insert other key (count_at key c + 1) c, exact.positive other n);
    }

decrement-IsExact :
    (key : ℕ) (b : Bridges)
    → 1 ≤ times key b.opened
    → IsExact b
    → IsExact (record b { per_client = decrement key b.per_client; opened = without key b.opened })
unfolding decrement
decrement-IsExact key b held exact =
    let n = count_at key b.per_client - 1 in
    let counted = insert key n b.per_client in
    let keyed = insert-IsKeyed key n b.per_client exact.keyed in
    elim (Bool-cases (leb n 0)) [
      | inl last ↦
          rw (last, if◌then◌else◌)
            (record {
              keyed = delete-IsKeyed key counted keyed;
              counts = λ other. ground (
                arith,
                lookup-delete other key counted keyed,
                lookup-insert other key n b.per_client,
                exact.counts other,
                exact.counts key,
                times-without key other b.opened,
              );
              totals = ground (
                arith,
                total_of-delete (λ n. n) key counted,
                lookup-insert key key n b.per_client,
                total_of-insert (λ n. n) key n b.per_client,
                exact.totals,
                exact.counts key,
                length-without key b.opened,
              );
              positive = λ other m h. ground (
                arith,
                lookup-delete other key counted keyed,
                lookup-insert other key n b.per_client,
                exact.positive other m,
              );
            })
      | inr more ↦
          rw (more, if◌then◌else◌)
            (record {
              keyed = keyed;
              counts = λ other. ground (
                arith,
                lookup-insert other key n b.per_client,
                exact.counts other,
                exact.counts key,
                times-without key other b.opened,
              );
              totals = ground (
                arith,
                total_of-insert (λ n. n) key n b.per_client,
                exact.totals,
                exact.counts key,
                length-without key b.opened,
              );
              positive = λ other m h.
                  ground (arith, lookup-insert other key n b.per_client, exact.positive other m);
            })
    ]

Step-IsExact : {a b : Bridges} → Step a b → IsExact a → IsExact b
Step-IsExact (refuses key b full) exact = exact
Step-IsExact (admits key b free) exact = record {
  keyed = exact.keyed;
  counts = exact.counts;
  totals = exact.totals;
  positive = exact.positive;
}
Step-IsExact (accepts key b waits) exact = increment-IsExact key b (without key b.waiting) exact
Step-IsExact (fails key b waits) exact = record {
  keyed = exact.keyed;
  counts = exact.counts;
  totals = exact.totals;
  positive = exact.positive;
}
Step-IsExact (ends key b held) exact = decrement-IsExact key b held exact

times-le_length : (key : ℕ) (keys : List ℕ) → times key keys ≤ length keys
times-le_length key [] = omega arith
times-le_length key (other ∷ keys) = ground (arith, times-le_length key keys)

Step-IsLimited :
    {a b : Bridges} (w : ℕ)
    → Step a b
    → length b.waiting ≤ w
    → IsExact a
    → IsLimited w a
    → IsLimited w b
Step-IsLimited w (refuses key b full) few exact limited = limited
Step-IsLimited w (admits key b free) few exact limited = record {
  in_total = ground (arith, exact.totals);
  per_key = λ other.
      ground (arith, exact.counts other, limited.per_key other, times-le_length other b.waiting);
}
Step-IsLimited w (accepts key b waits) few exact limited = record {
  in_total = omega (arith, limited.in_total, length-without key b.waiting waits);
  per_key = λ other. ground (arith, limited.per_key other, times-without key other b.waiting);
}
Step-IsLimited w (fails key b waits) few exact limited = record {
  in_total = omega (arith, limited.in_total, length-without key b.waiting waits);
  per_key = λ other. ground (arith, limited.per_key other, times-without key other b.waiting);
}
Step-IsLimited w (ends key b held) few exact limited = record {
  in_total = omega (arith, limited.in_total, length-without key b.opened held);
  per_key = λ other. ground (arith, limited.per_key other, times-without key other b.opened);
}

-- However bridges of the WebSocket are refused, let in, accepted, fail to be accepted and end:
-- where at most a number w of them wait for accept at a time, fewer than 200 + w are open or
-- waiting, and fewer than 5 + w of a client; the counter has just the open ones of each client,
-- and no entry for a client without, if that is so before.
pub Steps-IsCounted :
    (w : ℕ) {a b : Bridges} → Steps w a b → IsExact a → IsLimited w a → IsExact b × IsLimited w b
Steps-IsCounted w (done b) exact limited = (exact, limited)
Steps-IsCounted w (step_then step few steps) exact limited =
    Steps-IsCounted w steps (Step-IsExact step exact) (Step-IsLimited w step few exact limited)
