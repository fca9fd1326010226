-- ===== src/Events/Tests.antt =====
-- The lock of libs/common/redis_client.py in use, and a witness.
use mini_stock_exchange_plat.Base.{◌≡◌, refl, true, some, [], ◌∷◌, inl, arith}
use mini_stock_exchange_plat.Events.Lock.{
  Lease, Lock, set_nx, try_enter, release_script, exit, LockSteps, passes, tries, still, step_then,
  free_lock, lock_exclusive,
}

abbrev lease : Lease
lease = record { token = 0; expires_at = 5000 }

-- One enters, and another tries in vain.
abbrev taken : Lock
taken = record { now = 100; key = some lease; inside = lease ∷ [] }

taken_steps : LockSteps free_lock taken
unfolding try_enter set_nx
taken_steps = step_then (tries 5000 0 free_lock) (
    step_then (passes 100 (try_enter 5000 0 free_lock))
      (step_then (tries 5000 1 taken) (still taken)))

-- One whose time is over does not release the lock of the next.
late_exit :
    (exit true 0 (record {
      now = 5200;
      key = some (record { token = 1; expires_at = 9000 });
      inside = record { token = 1; expires_at = 9000 } ∷ lease ∷ [];
    })).key
    ≡ some (record { token = 1; expires_at = 9000 })
unfolding exit release_script
late_exit = refl

lock_exclusive_example : (lease ≡ lease) × (taken.key ≡ some lease)
lock_exclusive_example =
    lock_exclusive taken lease lease taken_steps (inl refl) (inl refl) (omega arith) (omega arith)
