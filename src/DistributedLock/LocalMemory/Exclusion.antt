-- ===== src/DistributedLock/LocalMemory/Exclusion.antt =====
-- local-memory.ts: a granted lock keeps others out until it is released or its lease ends.
use athena_console.Prelude.{
  ℕ, ◌<◌, String, ◌≡◌, ◌⊎◌, inl, inr, Bool, true, false, ◌&&◌, some, str_eq, str_eq_iff, put, ok,
  throw, arith, Bool-cases, Option-cases,
}
use athena_console.DistributedLock.{
  DistributedLockAcquireRequest, DistributedLockReleaseRequest, DistributedLockAcquireResult,
  acquired, refused, lease_not_positive, lease_of,
}
use athena_console.DistributedLock.LocalMemory.{
  MemoryLockRecord, Locks, is_held, granted, new_lock, try_acquire, owns, release,
}

-- A call on the locks, at a time.
pub data Step (locks : Locks) (now : ℕ) : Locks → Type 0 where
  acquires :
      (request : DistributedLockAcquireRequest) (token : String) {locks' : Locks}
      {answer : DistributedLockAcquireResult}
      → try_acquire locks request token now ≡ ok (locks', answer)
      → Step locks now locks'
  releases : (request : DistributedLockReleaseRequest) → Step locks now (release locks request)

-- Whether a call is the release that a grant is for.
abbrev gives_up :
    {locks locks' : Locks} {now : ℕ} → String → MemoryLockRecord → Step locks now locks' → Bool
gives_up name lock (acquires request token e) = false
gives_up name lock (releases request) = str_eq request.lock_name name && owns lock request

-- Calls one after the other, none of which comes after a time or gives the lock up.
pub data Calls (name : String) (lock : MemoryLockRecord) : Locks → Locks → Type 0 where
  done : {locks : Locks} → Calls name lock locks locks
  then_call :
      {locks locks' locks'' : Locks} {now : ℕ} (step : Step locks now locks')
      → now < lock.expires_at_ms
      → gives_up name lock step ≡ false
      → Calls name lock locks' locks''
      → Calls name lock locks locks''

-- A call that returns has refused and left the locks, or has found the lock free and set it.
try_acquire-cases :
    (locks : Locks) (request : DistributedLockAcquireRequest) (token : String) (now : ℕ)
    {locks' : Locks} {answer : DistributedLockAcquireResult}
    → try_acquire locks request token now ≡ ok (locks', answer)
    → ((is_held (locks request.lock_name) now ≡ true) × (locks ≡ locks') × (refused ≡ answer))
      ⊎ ((lease : ℕ) × (lease_of request.lease_ms ≡ some lease)
          × (is_held (locks request.lock_name) now ≡ false)
          × (put request.lock_name (new_lock request lease token now) locks ≡ locks')
          × (acquired (granted (new_lock request lease token now)) ≡ answer))
unfolding try_acquire
try_acquire-cases locks request token now {locks'} {answer} ran =
    elim (Option-cases (lease_of request.lease_ms)) [
      | inl bad ↦ absurd (
          let h : try_acquire locks request token now ≡ throw lease_not_positive =
            rw (bad, try_acquire) in
          cc)
      | inr (lease, good) ↦ elim (Bool-cases (is_held (locks request.lock_name) now)) [
        | inl held ↦
            let h : try_acquire locks request token now ≡ ok (locks, refused) =
              rw (good, try_acquire) (rw held) in
            inl (held, cc, cc)
        | inr free ↦
            let h : try_acquire locks request token now
                ≡ ok (
                  put request.lock_name (new_lock request lease token now) locks,
                  acquired (granted (new_lock request lease token now)),
                ) =
              rw (good, try_acquire) (rw free) in
            inr (lease, good, free, cc, cc)
      ]
    ]

Step-keeps :
    {locks locks' : Locks} {now : ℕ} (name : String) (lock : MemoryLockRecord)
    → locks name ≡ some lock
    → now < lock.expires_at_ms
    → (step : Step locks now locks') → gives_up name lock step ≡ false
    → locks' name ≡ some lock
unfolding release
Step-keeps {locks} {now} name lock e early (acquires request token {locks'} {answer} ran) kept =
    elim (try_acquire-cases locks request token now ran) [
      | inl (held, same, refusal) ↦ rw (← same) e
      | inr (lease, good, free, same, got) ↦ elim (Bool-cases (str_eq request.lock_name name)) [
        | inl here ↦
            let named = (str_eq_iff request.lock_name name).0 here in
            let found : locks request.lock_name ≡ some lock = rw named e in
            absurd (let h : is_held (some lock) now ≡ false = rw found at free in ground arith)
        | inr other ↦ rw (← same, other) e
      ]
    ]
Step-keeps {locks} {now} name lock e early (releases request) kept =
    elim (Option-cases (locks request.lock_name)) [
      | inl gone ↦ rw (gone, release) e
      | inr (current, there) ↦ elim (Bool-cases (str_eq request.lock_name name)) [
        | inl here ↦
            let named = (str_eq_iff request.lock_name name).0 here in
            let found : locks request.lock_name ≡ some lock = rw named e in
            let stays : owns lock request ≡ false = ground arith in rw (found, release) (rw stays e)
        | inr other ↦ elim (Bool-cases (owns current request)) [
          | inl owned ↦ rw (there, release) (rw (owned, other) e)
          | inr foreign ↦ rw (there, release) (rw foreign e)
        ]
      ]
    ]

Calls-keep :
    {name : String} {lock : MemoryLockRecord} {locks locks' : Locks}
    → locks name ≡ some lock
    → Calls name lock locks locks'
    → locks' name ≡ some lock
Calls-keep e done = e
Calls-keep {name} {lock} e (then_call step early kept rest) =
    Calls-keep (Step-keeps name lock e early step kept) rest

-- Once a lock is granted, whatever calls come before its lease ends, other than its own release, leave it
-- granted, and until then a further request for it is refused.
pub Calls-exclude :
    {name : String} {lock : MemoryLockRecord} {locks locks' : Locks}
    → locks name ≡ some lock
    → Calls name lock locks locks'
    → (request : DistributedLockAcquireRequest) (token : String) (now lease : ℕ)
    → request.lock_name ≡ name
    → lease_of request.lease_ms ≡ some lease
    → now < lock.expires_at_ms
    → (locks' name ≡ some lock) × (try_acquire locks' request token now ≡ ok (locks', refused))
unfolding try_acquire
Calls-exclude e calls request token now lease same good early =
    let kept = Calls-keep e calls in (kept, rw (good, try_acquire) (rw (same, kept) (ground arith)))
