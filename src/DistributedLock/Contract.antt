-- ===== src/DistributedLock/Contract.antt =====
-- packages/core/src/control-plane/distributed-lock/types.ts: `IDistributedLock`, and what its callers rely on,
-- said without a store: who holds a lock of which name, and until when.
pub mod Refinement
use athena_console.Prelude.{
  ℕ, ◌+◌, ◌≤◌, String, ◌≡◌, refl, fun_ext, Bool, true, false, ◌&&◌, Option, none, some, List, [],
  ◌∷◌, str_eq, ltb, put, if◌then◌else◌, Result, ok, throw, arith, Bool-cases, Option-cases,
}
use athena_console.DistributedLock.{
  DistributedLockAcquireRequest, DistributedLockReleaseRequest, Grant, DistributedLockAcquireResult,
  acquired, refused, LockError, lease_not_positive, lease_of,
}

-- The clock and the token that a call draws are handed to it.
pub record IDistributedLock (Store : Type 0) : Type 0 where
  pub try_acquire :
      Store
      → DistributedLockAcquireRequest
      → String
      → ℕ
      → Result LockError (Store × DistributedLockAcquireResult)
  pub release : Store → DistributedLockReleaseRequest → ℕ → Result LockError Store

pub record Holder : Type 0 where
  pub owner_id : String
  pub token : String
  pub until : ℕ

-- Who holds the lock of a name.
abbrev pub Held : Type 0
Held = String → Option Holder

abbrev pub nobody : Held
nobody name = none

abbrev pub still : ℕ → Option Holder → Option Holder
still now none = none
still now (some holder) = if ltb now holder.until then some holder else none

-- The leases that have ended by a time are dropped.
abbrev pub expire : ℕ → Held → Held
expire now held name = still now (held name)

abbrev pub holder_of : DistributedLockAcquireRequest → ℕ → String → ℕ → Holder
holder_of request lease token now = record {
  owner_id = request.owner_id;
  token = token;
  until = now + lease;
}

abbrev pub grant_of : DistributedLockAcquireRequest → ℕ → String → ℕ → Grant
grant_of request lease token now = record {
  lock_name = request.lock_name;
  owner_id = request.owner_id;
  token = token;
  acquired_at = now;
  expires_at = now + lease;
}

-- A lock is granted when nobody holds it.
unfoldable pub abstract_acquire :
    Held
    → DistributedLockAcquireRequest
    → String
    → ℕ
    → Result LockError (Held × DistributedLockAcquireResult)
abstract_acquire held request token now = elim (lease_of request.lease_ms) [
  | none ↦ throw lease_not_positive
  | some lease ↦ elim (held request.lock_name) [
    | some _ ↦ ok (held, refused)
    | none ↦ ok (
      put request.lock_name (holder_of request lease token now) held,
      acquired (grant_of request lease token now),
    )
  ]
]

abbrev pub is_holder : Holder → DistributedLockReleaseRequest → Bool
is_holder holder request =
    str_eq holder.owner_id request.owner_id && str_eq holder.token request.token

abbrev pub unless_holder : DistributedLockReleaseRequest → Option Holder → Option Holder
unless_holder request none = none
unless_holder request (some holder) = if is_holder holder request then none else some holder

-- Only the owner with the token of the grant gives a lock back.
unfoldable pub abstract_release : Held → DistributedLockReleaseRequest → Held
abstract_release held request name =
    if str_eq request.lock_name name then unless_holder request (held name) else held name

pub data Call : Type 0 where
  asks : DistributedLockAcquireRequest → String → ℕ → Call
  returns : DistributedLockReleaseRequest → ℕ → Call

abbrev pub time : Call → ℕ
time (asks request token now) = now
time (returns request now) = now

-- The clock does not run backwards.
abbrev pub InOrder : ℕ → List Call → Type 0
InOrder now [] = Unit
InOrder now (call ∷ calls) = (now ≤ time call) × InOrder (time call) calls

pub data Outcome : Type 0 where
  answered : DistributedLockAcquireResult → Outcome
  returned : Outcome
  failed : LockError → Outcome

-- What the callers see of calls made one after the other. A call that throws leaves the locks.
abbrev pub run : {S : Type 0} → IDistributedLock S → S → List Call → List Outcome
run lock store [] = []
run lock store (asks request token now ∷ calls) = elim (lock.try_acquire store request token now) [
  | throw error ↦ failed error ∷ run lock store calls
  | ok (store', answer) ↦ answered answer ∷ run lock store' calls
]
run lock store (returns request now ∷ calls) = elim (lock.release store request now) [
  | throw error ↦ failed error ∷ run lock store calls
  | ok store' ↦ returned ∷ run lock store' calls
]

-- The same calls on the table of the holders.
abbrev pub abstract_run : Held → List Call → List Outcome
abstract_run held [] = []
abstract_run held (asks request token now ∷ calls) =
    elim (abstract_acquire (expire now held) request token now) [
      | throw error ↦ failed error ∷ abstract_run held calls
      | ok (held', answer) ↦ answered answer ∷ abstract_run held' calls
    ]
abstract_run held (returns request now ∷ calls) =
    returned ∷ abstract_run (abstract_release (expire now held) request) calls
