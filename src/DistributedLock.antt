-- ===== src/DistributedLock.antt =====
-- packages/core/src/control-plane/distributed-lock/types.ts: what a lock is asked for, and what it answers.
pub mod Contract
pub mod LocalMemory
pub mod Redis
pub mod LocalFile
use athena_console.Prelude.{ℕ, String, Option, none, some, ltb, if◌then◌else◌}
use athena_console.Json.{pos, Value, integer}

-- The lease is a number, which need not be an integer.
pub record DistributedLockAcquireRequest : Type 0 where
  pub lock_name : String
  pub owner_id : String
  pub lease_ms : Value

pub record DistributedLockReleaseRequest : Type 0 where
  pub lock_name : String
  pub owner_id : String
  pub token : String

pub record Grant : Type 0 where
  pub lock_name : String
  pub owner_id : String
  pub token : String
  pub acquired_at : ℕ
  pub expires_at : ℕ

pub data DistributedLockAcquireResult : Type 0 where
  acquired : Grant → DistributedLockAcquireResult
  refused : DistributedLockAcquireResult

pub data LockError : Type 0 where
  lease_not_positive : LockError
  redis_url_required : LockError
  redis_failed : String → LockError

-- `Number.isInteger(leaseMs) && leaseMs > 0`: the lease, or none.
abbrev pub lease_of : Value → Option ℕ
lease_of (integer (pos n)) = if ltb 0 n then some n else none
lease_of _ = none
