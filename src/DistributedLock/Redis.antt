-- ===== src/DistributedLock/Redis.antt =====
-- packages/core/src/control-plane/distributed-lock/redis.ts: the lock that a Redis server keeps for many processes.
-- The server, its client and `JSON.stringify` are parameters.
pub mod Server
pub mod Contract
use athena_console.Prelude.{
  ℕ, ◌+◌, String, Bool, true, false, Option, none, some, str_eq, is_empty, if◌then◌else◌, ◌<>◌,
  Result, ok, throw, get_or,
}
use athena_console.Text.{trim}
use athena_console.DistributedLock.{
  DistributedLockAcquireRequest, DistributedLockReleaseRequest, Grant, DistributedLockAcquireResult,
  acquired, refused, LockError, lease_not_positive, redis_url_required, redis_failed, lease_of,
}

-- What a script reads and changes on the server, at a time.
pub record RedisServer (Server : Type 0) : Type 0 where
  pub get : Server → String → ℕ → Option String
  pub del : Server → String → Server

-- A script has a key and an argument, and answers with a number.
abbrev pub Script : Type 0 → Type 0
Script Server = Server → String → String → ℕ → Server × ℕ

-- A call of the client that rejects is none. `set key value "PX" leaseMs "NX"` answers whether it was "OK".
pub record RedisLockClient (Server : Type 0) : Type 0 where
  pub set : Server → String → String → ℕ → ℕ → Option (Server × Bool)
  pub eval : Script Server → Server → String → String → ℕ → Option (Server × ℕ)

abbrev pub redis_lock_key_prefix : String
redis_lock_key_prefix = "athena:lock:"

abbrev is_text : String → Option String → Bool
is_text text none = false
is_text text (some value) = str_eq value text

-- The script in Lua.
abbrev pub redis_compare_and_delete_script : {Server : Type 0} → RedisServer Server → Script Server
redis_compare_and_delete_script redis server key argument now =
    if is_text argument (redis.get server key now) then (redis.del server key, 1) else (server, 0)

pub record RedisLockProvider : Type 0 where
  pub redis_url : String
  pub key_prefix : String

-- The constructor.
unfoldable pub redis_lock_provider : String → Option String → Result LockError RedisLockProvider
redis_lock_provider redis_url key_prefix =
    if is_empty (trim redis_url)
    then throw redis_url_required
    else ok (record {
      redis_url = trim redis_url;
      key_prefix = get_or key_prefix redis_lock_key_prefix;
    })

abbrev pub resolve_lock_key : RedisLockProvider → String → String
resolve_lock_key provider lock_name = provider.key_prefix <> lock_name

abbrev pub redis_grant : DistributedLockAcquireRequest → ℕ → String → ℕ → Grant
redis_grant request lease token now_ms = record {
  lock_name = request.lock_name;
  owner_id = request.owner_id;
  token = token;
  acquired_at = now_ms;
  expires_at = now_ms + lease;
}

-- `serialize_owner_token` is `JSON.stringify({ ownerId, token })`.
module _ {Server : Type 0} (redis : RedisServer Server) (client : RedisLockClient Server)
    (serialize_owner_token : String → String → String) (provider : RedisLockProvider) where
  unfoldable pub redis_try_acquire :
      Server
      → DistributedLockAcquireRequest
      → String
      → ℕ
      → Result LockError (Server × DistributedLockAcquireResult)
  redis_try_acquire server request token now = elim (lease_of request.lease_ms) [
    | none ↦ throw lease_not_positive
    | some lease ↦
        elim (client.set server (resolve_lock_key provider request.lock_name)
          (serialize_owner_token request.owner_id token) lease now) [
            | none ↦ throw (redis_failed request.lock_name)
            | some (server', is_ok) ↦
                if is_ok
                then ok (server', acquired (redis_grant request lease token now))
                else ok (server', refused)
          ]
  ]

  unfoldable pub redis_release :
      Server → DistributedLockReleaseRequest → ℕ → Result LockError Server
  redis_release server request now =
      elim (client.eval (redis_compare_and_delete_script redis) server
        (resolve_lock_key provider request.lock_name)
        (serialize_owner_token request.owner_id request.token) now) [
          | none ↦ throw (redis_failed request.lock_name)
          | some (server', deleted) ↦ ok server'
        ]
