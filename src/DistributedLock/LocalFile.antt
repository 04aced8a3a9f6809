-- ===== src/DistributedLock/LocalFile.antt =====
-- packages/core/src/control-plane/distributed-lock/local-file.ts: the lock that the processes of one machine keep in
-- files. What runs inside the lock of the directory is one step. `createHash`, the dates and `process.kill` are
-- parameters.
-- A lease ends within the range of Date, beyond which `toISOString` throws.
pub mod Contract
use athena_console.Prelude.{
  ℕ, ◌+◌, String, Bool, true, false, ◌||◌, ◌&&◌, not, Option, none, some, str_eq, leb, ltb, is_some,
  put, if◌then◌else◌, Result, ok, throw,
}
use athena_console.Prelude.Maybe.{◌>>=◌}
use athena_console.Json.{ℤ, pos, negsuc, Value, integer, fraction, string, object, end, field, prop}
use athena_console.DistributedLock.{
  DistributedLockAcquireRequest, DistributedLockReleaseRequest, Grant, DistributedLockAcquireResult,
  acquired, refused, LockError, lease_not_positive, lease_of,
}

abbrev distributed_lock_record_schema_version : Value
distributed_lock_record_schema_version = integer (pos 1)

-- The version and the process are numbers, which need not be integers.
pub record DistributedLockRecord : Type 0 where
  pub schema_version : Value
  pub lock_name : String
  pub owner_id : String
  pub token : String
  pub pid : Value
  pub acquired_at : String
  pub expires_at : String

-- What `JSON.parse` makes of a file, by its path; `undefined` is a text that it refuses.
abbrev pub Files : Type 0
Files = String → Option Value

-- A text, and a number.
abbrev text_of : Value → Option String
text_of (string s) = some s
text_of _ = none

abbrev pub number_of : Value → Option Value
number_of (integer z) = some (integer z)
number_of (fraction i) = some (fraction i)
number_of _ = none

-- A positive integer, or 1.
abbrev pub version_of : Value → Value
version_of (integer (pos n)) =
    if ltb 0 n then integer (pos n) else distributed_lock_record_schema_version
version_of _ = distributed_lock_record_schema_version

-- `readLock` on the value of a file.
unfoldable pub parse_lock : Value → Option DistributedLockRecord
parse_lock parsed = do
  lock_name ← text_of (prop "lockName" parsed)
  owner_id ← text_of (prop "ownerId" parsed)
  token ← text_of (prop "token" parsed)
  pid ← number_of (prop "pid" parsed)
  acquired_at ← text_of (prop "acquiredAt" parsed)
  expires_at ← text_of (prop "expiresAt" parsed)
  some (record {
    schema_version = version_of (prop "schemaVersion" parsed);
    lock_name = lock_name;
    owner_id = owner_id;
    token = token;
    pid = pid;
    acquired_at = acquired_at;
    expires_at = expires_at;
  })

-- `JSON.stringify(record)`, read back.
abbrev pub lock_json : DistributedLockRecord → Value
lock_json lock = object (
    field "schemaVersion" lock.schema_version (
      field "lockName" (string lock.lock_name) (
        field "ownerId" (string lock.owner_id) (
          field "token" (string lock.token) (
            field "pid" lock.pid (
              field "acquiredAt" (string lock.acquired_at)
                (field "expiresAt" (string lock.expires_at) end)))))))

-- What the machine gives: the digest of a text in hexadecimal, `toISOString` and `Date.parse` of times in
-- milliseconds (none is NaN), whether signal 0 reaches a process or fails with another code than ESRCH, and the id
-- of this process.
pub record Machine : Type 0 where
  pub sha256 : String → String
  pub to_iso_string : ℕ → String
  pub date_parse : String → Option ℤ
  pub signal_reaches : Value → Bool
  pub pid : ℕ

-- The file is named by its digest alone.
abbrev pub resolve_lock_path : Machine → String → String
resolve_lock_path machine lock_name = machine.sha256 lock_name

-- The sign of a fraction is not kept: whether it is the id of a process is for the machine to say.
abbrev pub is_pid_alive : Machine → Value → Bool
is_pid_alive machine (integer (pos n)) =
    if ltb 0 n then machine.signal_reaches (integer (pos n)) else false
is_pid_alive machine (integer (negsuc n)) = false
is_pid_alive machine pid = machine.signal_reaches pid

-- `expiresAtMs <= Date.now()`
abbrev has_passed : ℤ → ℕ → Bool
has_passed (pos n) now = leb n now
has_passed (negsuc n) now = true

abbrev expires_by : Option ℤ → ℕ → Bool
expires_by none now = true
expires_by (some time) now = has_passed time now

unfoldable pub should_reclaim_lock : Machine → DistributedLockRecord → ℕ → Bool
should_reclaim_lock machine lock now =
    not (is_pid_alive machine lock.pid)
    || (not (is_some (machine.date_parse lock.acquired_at))
        || expires_by (machine.date_parse lock.expires_at) now)

unfoldable pub read_lock : Files → String → Option DistributedLockRecord
read_lock files path = do parsed ← files path; parse_lock parsed

abbrev pub is_held : Machine → Option DistributedLockRecord → ℕ → Bool
is_held machine none now = false
is_held machine (some current) now = not (should_reclaim_lock machine current now)

-- `rm`
abbrev pub remove : String → Files → Files
remove path files p = if str_eq path p then none else files p

abbrev pub new_record :
    Machine → DistributedLockAcquireRequest → ℕ → String → ℕ → DistributedLockRecord
new_record machine request lease token now = record {
  schema_version = distributed_lock_record_schema_version;
  lock_name = request.lock_name;
  owner_id = request.owner_id;
  token = token;
  pid = integer (pos machine.pid);
  acquired_at = machine.to_iso_string now;
  expires_at = machine.to_iso_string (now + lease);
}

-- The times of the answer are those of the record before `toISOString`.
abbrev pub file_grant : DistributedLockAcquireRequest → ℕ → String → ℕ → Grant
file_grant request lease token now = record {
  lock_name = request.lock_name;
  owner_id = request.owner_id;
  token = token;
  acquired_at = now;
  expires_at = now + lease;
}

-- A file that is written whole is in place of the one before; one that is reclaimed is removed first.
unfoldable pub file_try_acquire :
    Machine
    → Files
    → DistributedLockAcquireRequest
    → String
    → ℕ
    → Result LockError (Files × DistributedLockAcquireResult)
file_try_acquire machine files request token now = elim (lease_of request.lease_ms) [
  | none ↦ throw lease_not_positive
  | some lease ↦
      let path = resolve_lock_path machine request.lock_name in
      let current = read_lock files path in
      let cleared = if is_some current then remove path files else files in
      if is_held machine current now
      then ok (files, refused)
      else ok (
        put path (lock_json (new_record machine request lease token now)) cleared,
        acquired (file_grant request lease token now),
      )
]

abbrev pub owns : DistributedLockRecord → DistributedLockReleaseRequest → Bool
owns current request =
    str_eq current.token request.token && str_eq current.owner_id request.owner_id

unfoldable pub file_release : Machine → Files → DistributedLockReleaseRequest → Files
file_release machine files request =
    let path = resolve_lock_path machine request.lock_name in
    elim (read_lock files path) [
      | none ↦ files
      | some current ↦ if owns current request then remove path files else files
    ]
