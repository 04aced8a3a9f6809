-- ===== src/Examples/Locks.antt =====
-- packages/core/src/control-plane/distributed-lock: a lock that is taken, and asked for by another, in each store.
use Prim.Native.Char.{code}
use Prim.Native.String.{[] as empty_text, ◌∷◌ as cons_text}
use athena_console.Prelude.{
  ℕ, zero, suc, ◌+◌, ◌==◌, String, ◌≡◌, refl, ap, Bool, true, false, Option, none, some, List, [],
  ◌∷◌, put, str_eq, arith, ok, if◌then◌else◌,
}
use athena_console.Json.{integer, pos}
use athena_console.DistributedLock.{
  DistributedLockAcquireRequest, DistributedLockReleaseRequest, refused,
}
use athena_console.DistributedLock.LocalMemory.{
  MemoryLockRecord, Locks, no_locks, new_lock, try_acquire, release,
}
use athena_console.DistributedLock.Contract.{
  Call, asks, returns, InOrder, run, abstract_run, nobody,
}
use athena_console.DistributedLock.LocalMemory.Contract.{memory_lock, run-memory_lock}
use athena_console.DistributedLock.Redis.{
  RedisServer, RedisLockClient, RedisLockProvider, redis_lock_key_prefix,
}
use athena_console.DistributedLock.Redis.Server.{
  Entry, live, entry_value, without_key, Documented, Readable,
}
use athena_console.DistributedLock.Redis.Contract.{redis_lock, run-redis_lock}
use athena_console.DistributedLock.LocalFile.{Machine}
use athena_console.DistributedLock.LocalFile.Contract.{Sound, file_lock, run-file_lock}
use athena_console.DistributedLock.LocalMemory.Exclusion.{
  acquires, releases, Calls, done, then_call, Calls-exclude,
}

abbrev request_of : String → DistributedLockAcquireRequest
request_of owner = record { lock_name = "l"; owner_id = owner; lease_ms = integer (pos 10) }

abbrev lock : MemoryLockRecord
lock = new_lock (request_of "ann") 10 "t1" 0

abbrev taken : Locks
taken = put "l" lock no_locks

-- Another owner asks, and releases what it does not hold.
abbrev others_release : DistributedLockReleaseRequest
others_release = record { lock_name = "l"; owner_id = "bob"; token = "t2" }

refusal : try_acquire taken (request_of "bob") "t2" 4 ≡ ok (taken, refused)
unfolding try_acquire str_eq
refusal = refl

calls : Calls "l" lock taken (release taken others_release)
unfolding str_eq
calls =
    then_call {now = 4} (acquires (request_of "bob") "t2" refusal) (omega arith) refl
      (then_call {now = 6} (releases others_release) (omega arith) refl done)

Calls-exclude_example :
    (release taken others_release "l" ≡ some lock)
    × (try_acquire (release taken others_release) (request_of "bob") "t3" 8
        ≡ ok (release taken others_release, refused))
unfolding str_eq
Calls-exclude_example =
    Calls-exclude refl calls (request_of "bob") "t3" 8 10 refl refl (omega arith)

-- Ann has the lock, Bob is refused, and has it after Ann gives it back.
abbrev order_of_calls : List Call
order_of_calls =
    asks (request_of "ann") "t1" 0
    ∷ asks (request_of "bob") "t2" 4
    ∷ returns (record { lock_name = "l"; owner_id = "ann"; token = "t1" }) 6
    ∷ asks (request_of "bob") "t3" 8
    ∷ []

in_order : InOrder 0 order_of_calls
in_order = (omega arith, (omega arith, (omega arith, (omega arith, tt))))

run-memory_lock_example :
    run memory_lock no_locks order_of_calls ≡ abstract_run nobody order_of_calls
run-memory_lock_example = run-memory_lock order_of_calls in_order

-- A pair of texts as one: each character of the first behind an `a`, and the second behind a `b`.
abbrev pair : String → String → String
pair empty_text t = cons_text "b" t
pair (cons_text c s) t = cons_text "a" (cons_text c (pair s t))

abbrev pair_owner : String → String
pair_owner empty_text = empty_text
pair_owner (cons_text m empty_text) = empty_text
pair_owner (cons_text m (cons_text c s)) =
    if code m == 97 then cons_text c (pair_owner s) else empty_text

abbrev pair_token : String → String
pair_token empty_text = empty_text
pair_token (cons_text m empty_text) = empty_text
pair_token (cons_text m (cons_text c s)) = if code m == 97 then pair_token s else cons_text c s

pair_owner-pair : (s t : String) → pair_owner (pair s t) ≡ s
pair_owner-pair empty_text empty_text = refl
pair_owner-pair empty_text (cons_text c t) = refl
pair_owner-pair (cons_text c s) t = ap (λ r. cons_text c r) (pair_owner-pair s t)

pair_token-pair : (s t : String) → pair_token (pair s t) ≡ t
pair_token-pair empty_text empty_text = refl
pair_token-pair empty_text (cons_text c t) = refl
pair_token-pair (cons_text c s) t = pair_token-pair s t

-- A server that is the table of its entries.
abbrev Entries : Type 0
Entries = String → Option Entry

abbrev server : RedisServer Entries
server = record {
  get = λ entries key now. entry_value (live now (entries key));
  del = λ entries key. without_key key entries;
}

abbrev set_entry : Option Entry → Entries → String → String → ℕ → ℕ → Entries × Bool
set_entry (some old) entries key value lease now = (entries, false)
set_entry none entries key value lease now =
    (put key (record { value = value; until = now + lease }) entries, true)

abbrev client : RedisLockClient Entries
client = record {
  set = λ entries key value lease now.
      some (set_entry (live now (entries key)) entries key value lease now);
  eval = λ script entries key argument now. some (script entries key argument now);
}

abbrev provider : RedisLockProvider
provider = record { redis_url = "redis://host"; key_prefix = redis_lock_key_prefix }

documented : Documented server client (λ entries. entries)
documented = record {
  gets = λ entries key now. refl;
  deletes = λ entries key. refl;
  sets = λ entries key value lease now positive e.
      (put key (record { value = value; until = now + lease }) entries, rw e refl, refl);
  stands = λ entries key value lease now old e. (entries, rw e refl, refl);
  runs = λ script entries key argument now. refl;
}

readable : Readable pair pair_owner pair_token
readable = record { owner = pair_owner-pair; token = pair_token-pair }

run-redis_lock_example :
    run (redis_lock server client pair provider) (λ _. none) order_of_calls
    ≡ abstract_run nobody order_of_calls
run-redis_lock_example =
    run-redis_lock server client pair provider (λ entries. entries) pair_owner pair_token documented
      readable (λ _. none) (λ key. refl) order_of_calls in_order

-- A time as that many characters.
abbrev time_text : ℕ → String
time_text zero = empty_text
time_text (suc n) = cons_text "i" (time_text n)

abbrev text_time : String → ℕ
text_time empty_text = 0
text_time (cons_text c s) = suc (text_time s)

text_time-time_text : (n : ℕ) → text_time (time_text n) ≡ n
text_time-time_text zero = refl
text_time-time_text (suc n) = ap (λ m. suc m) (text_time-time_text n)

abbrev machine : Machine
machine = record {
  sha256 = λ s. s;
  to_iso_string = time_text;
  date_parse = λ s. some (pos (text_time s));
  signal_reaches = λ _. true;
  pid = 7;
}

sound : Sound machine
sound = record {
  runs = refl;
  reads_back = λ n. ap (λ m. some (pos m)) (text_time-time_text n);
  digests = λ s t e. e;
}

run-file_lock_example :
    run (file_lock machine) (λ _. none) order_of_calls ≡ abstract_run nobody order_of_calls
run-file_lock_example = run-file_lock machine sound order_of_calls in_order
