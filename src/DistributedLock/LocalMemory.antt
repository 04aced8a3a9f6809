-- ===== src/DistributedLock/LocalMemory.antt =====
-- packages/core/src/control-plane/distributed-lock/local-memory.ts: the lock that one process keeps in memory.
-- A lease ends within the range of Date, beyond which `toISOString` throws once the lock is stored.
pub mod Contract
pub mod Exclusion
use athena_console.Prelude.{
  ℕ, ◌+◌, String, Bool, true, false, ◌||◌, ◌&&◌, not, Option, none, some, List, [], ◌∷◌, str_eq,
  leb, ltb, put, if◌then◌else◌, Result, ok, throw, ◌>>=◌,
}
use athena_console.DistributedLock.{
  DistributedLockAcquireRequest, DistributedLockReleaseRequest, Grant, DistributedLockAcquireResult,
  acquired, refused, LockError, lease_not_positive, lease_of,
}

pub record MemoryLockRecord : Type 0 where
  pub lock_name : String
  pub owner_id : String
  pub token : String
  pub acquired_at_ms : ℕ
  pub expires_at_ms : ℕ

-- `this.locks`
abbrev pub Locks : Type 0
Locks = String → Option MemoryLockRecord

abbrev pub no_locks : Locks
no_locks _ = none

-- `Map.prototype.delete`
abbrev pub delete : String → Locks → Locks
delete name locks k = if str_eq name k then none else locks k

abbrev pub should_reclaim_lock : MemoryLockRecord → ℕ → Bool
should_reclaim_lock lock now = leb lock.expires_at_ms now

abbrev pub is_held : Option MemoryLockRecord → ℕ → Bool
is_held none now = false
is_held (some current) now = not (should_reclaim_lock current now)

abbrev pub granted : MemoryLockRecord → Grant
granted lock = record {
  lock_name = lock.lock_name;
  owner_id = lock.owner_id;
  token = lock.token;
  acquired_at = lock.acquired_at_ms;
  expires_at = lock.expires_at_ms;
}

abbrev pub new_lock : DistributedLockAcquireRequest → ℕ → String → ℕ → MemoryLockRecord
new_lock request lease token now = record {
  lock_name = request.lock_name;
  owner_id = request.owner_id;
  token = token;
  acquired_at_ms = now;
  expires_at_ms = now + lease;
}

-- `token` is the one drawn by this call. Nothing else runs between its first line and its last, so that the
-- clock is read once.
unfoldable pub try_acquire :
    Locks
    → DistributedLockAcquireRequest
    → String
    → ℕ
    → Result LockError (Locks × DistributedLockAcquireResult)
try_acquire locks request token now = elim (lease_of request.lease_ms) [
  | none ↦ throw lease_not_positive
  | some lease ↦
      if is_held (locks request.lock_name) now
      then ok (locks, refused)
      else ok (
        put request.lock_name (new_lock request lease token now) locks,
        acquired (granted (new_lock request lease token now)),
      )
]

abbrev pub owns : MemoryLockRecord → DistributedLockReleaseRequest → Bool
owns current request =
    str_eq current.owner_id request.owner_id && str_eq current.token request.token

unfoldable pub release : Locks → DistributedLockReleaseRequest → Locks
release locks request = elim (locks request.lock_name) [
  | none ↦ locks
  | some current ↦ if owns current request then delete request.lock_name locks else locks
]
