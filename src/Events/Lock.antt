-- ===== src/Events/Lock.antt =====
-- The distributed lock of libs/common/redis_client.py, for one key of Redis. Times are
-- milliseconds. A caller keeps its token, a UUID, over all its rounds. Redis runs a command, or a
-- script, as one step, and drops the key once its time to live is over.
use mini_stock_exchange_plat.Base.{
  ℕ, ◌+◌, ◌<◌, ◌≡◌, refl, sym, subst, ◌∙◌, Bool, true, false, ◌⊎◌, inl, inr, Option, none, some,
  some_injective, List, [], ◌∷◌, ltb, ◌==◌, if◌then◌else◌, arith, All, All-map, Bool-cases,
  both_branches,
}

-- What the key holds, and until when.
pub record Lease : Type 0 where
  pub token : ℕ
  pub expires_at : ℕ

-- Time, the key, and who is inside `async with`.
pub record Lock : Type 0 where
  pub now : ℕ
  pub key : Option Lease
  pub inside : List Lease

abbrev pub alive : ℕ → Option Lease → Option Lease
alive now none = none
alive now (some l) = if ltb now l.expires_at then some l else none

-- `redis.set(key, token, nx=True, px=ttl_ms)` of a key that is there, or not.
unfoldable pub set_nx : Lease → Option Lease → Lock → Lock
set_nx lease (some other) lock = lock
set_nx lease none lock = record lock { key = some lease; inside = lease ∷ lock.inside }

-- One round of the loop: enter, or sleep and try again.
unfoldable pub try_enter : ℕ → ℕ → Lock → Lock
try_enter ttl token lock =
    set_nx (record { token = token; expires_at = lock.now + ttl }) (alive lock.now lock.key) lock

-- `_RELEASE_LUA`
unfoldable pub release_script : ℕ → Option Lease → Option Lease
release_script token none = none
release_script token (some l) = if l.token == token then none else some l

unfoldable pub leave : ℕ → List Lease → List Lease
leave token [] = []
leave token (l ∷ ls) = let rest = leave token ls in if l.token == token then rest else l ∷ rest

-- The end of `async with`; the script may not be reached, which is only logged.
unfoldable pub exit : Bool → ℕ → Lock → Lock
exit reached token lock = record lock {
  key = if reached then release_script token (alive lock.now lock.key) else lock.key;
  inside = leave token lock.inside;
}

pub data LockStep : Lock → Lock → Type 0 where
  passes : (ms : ℕ) (lock : Lock) → LockStep lock (record lock { now = lock.now + ms })
  tries : (ttl token : ℕ) (lock : Lock) → LockStep lock (try_enter ttl token lock)
  exits : (reached : Bool) (token : ℕ) (lock : Lock) → LockStep lock (exit reached token lock)

pub data LockSteps : Lock → Lock → Type 0 where
  still : (lock : Lock) → LockSteps lock lock
  step_then : {a b c : Lock} → LockStep a b → LockSteps b c → LockSteps a c

abbrev pub free_lock : Lock
free_lock = record { now = 0; key = none; inside = [] }

-- Who is inside and has time left holds the key.
abbrev Holds : ℕ → Option Lease → Lease → Type 0
Holds now key l = now < l.expires_at → key ≡ some l

abbrev AllHold : Lock → Type 0
AllHold lock = All (Holds lock.now lock.key) lock.inside

-- Where the key is free, nobody inside has time left.
over :
    (now : ℕ) (key : Option Lease) (l : Lease)
    → alive now key ≡ none
    → Holds now key l
    → now < l.expires_at
    → ⊥
over now key l free h left =
    let held : alive now key ≡ some l = rw (h left, if◌then◌else◌) (ground arith) in
    absurd (none_some (sym free ∙ held))
  where
    none_some : none ≡ some l → ⊥
    none_some e = cc

set_nx-AllHold :
    (lease : Lease) (found : Option Lease) (lock : Lock)
    → alive lock.now lock.key ≡ found
    → AllHold lock
    → AllHold (set_nx lease found lock)
unfolding set_nx
set_nx-AllHold lease (some other) lock e h = h
set_nx-AllHold lease none lock e h = (
  λ _. refl,
  All-map (λ l holds left. absurd (over lock.now lock.key l e holds left)) lock.inside h,
)

leave-AllHold :
    (now token : ℕ) (key : Option Lease) (ls : List Lease)
    → All (Holds now key) ls
    → All (Holds now (release_script token (alive now key))) (leave token ls)
unfolding leave release_script
leave-AllHold now token key [] h = tt
leave-AllHold now token key (l ∷ ls) h = elim (Bool-cases (l.token == token)) [
  | inl gone ↦ rw (gone, if◌then◌else◌) (leave-AllHold now token key ls h.1)
  | inr stays ↦
      let kept : Holds now (release_script token (alive now key)) l = λ left.
        let on_time : ltb now l.expires_at ≡ true = ground arith in
        rw (h.0 left) (rw (on_time, if◌then◌else◌) (rw (stays, if◌then◌else◌) refl)) in
      rw (stays, if◌then◌else◌) (kept, leave-AllHold now token key ls h.1)
]

left-AllHold :
    (now token : ℕ) (key : Option Lease) (ls : List Lease)
    → All (Holds now key) ls
    → All (Holds now key) (leave token ls)
unfolding leave
left-AllHold now token key [] h = tt
left-AllHold now token key (l ∷ ls) h =
    both_branches (All (Holds now key)) (l.token == token) {x = leave token ls}
      {y = l ∷ leave token ls} (left-AllHold now token key ls h.1)
      (h.0, left-AllHold now token key ls h.1)

LockStep-AllHold : {a b : Lock} → LockStep a b → AllHold a → AllHold b
unfolding try_enter exit
LockStep-AllHold (passes ms lock) h = All-map (λ l holds left. holds (omega arith)) lock.inside h
LockStep-AllHold (tries ttl token lock) h = set_nx-AllHold _ (alive lock.now lock.key) lock refl h
LockStep-AllHold (exits true token lock) h = leave-AllHold lock.now token lock.key lock.inside h
LockStep-AllHold (exits false token lock) h = left-AllHold lock.now token lock.key lock.inside h

abbrev pub IsInside : Lease → List Lease → Type 0
IsInside l [] = ⊥
IsInside l (k ∷ ks) = (k ≡ l) ⊎ IsInside l ks

held_of :
    (now : ℕ) (key : Option Lease) (l : Lease) (ls : List Lease)
    → IsInside l ls
    → All (Holds now key) ls
    → Holds now key l
held_of now key l [] i h = absurd i
held_of now key l (k ∷ ks) (inl e) h = subst (Holds now key) e h.0
held_of now key l (k ∷ ks) (inr i) h = held_of now key l ks i h.1

-- However callers try to enter, leave and fail to reach the release script, and however time
-- passes, from a free lock on: of all who are inside and whose time to live is not over there is
-- at most one, and the key is its own.
pub lock_exclusive :
    (lock : Lock) (l k : Lease)
    → LockSteps free_lock lock
    → IsInside l lock.inside
    → IsInside k lock.inside
    → lock.now < l.expires_at
    → lock.now < k.expires_at
    → (l ≡ k) × (lock.key ≡ some l)
lock_exclusive lock l k steps i j l_left k_left =
    let h = go steps tt in
    let l_held = held_of lock.now lock.key l lock.inside i h l_left in
    let k_held = held_of lock.now lock.key k lock.inside j h k_left in
    (some_injective (sym l_held ∙ k_held), l_held)
  where
    go : {a b : Lock} → LockSteps a b → AllHold a → AllHold b
    go (still lock) h = h
    go (step_then s t) h = go t (LockStep-AllHold s h)
