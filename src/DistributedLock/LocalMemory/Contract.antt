-- ===== src/DistributedLock/LocalMemory/Contract.antt =====
-- local-memory.ts: the lock in memory keeps the contract of `IDistributedLock`.
use athena_console.Prelude.{
  ℕ, ◌<◌, String, ◌≡◌, refl, fun_ext, ap, str_eq_iff, true, false, Option, none, some, List, str_eq,
  put, ok, arith, Bool-cases, Option-cases, inl, inr,
}
use athena_console.DistributedLock.{
  DistributedLockAcquireRequest, DistributedLockReleaseRequest, acquired, refused,
  lease_not_positive, lease_of,
}
use athena_console.DistributedLock.Contract.{
  IDistributedLock, Holder, Held, nobody, still, abstract_acquire, abstract_release, Call, InOrder,
  run, abstract_run, holder_of, grant_of,
}
use athena_console.DistributedLock.Contract.Refinement.{
  Follows, both_throw, both_answer, Keeps, Keeps-run, still-still, lease_of-positive,
}
use athena_console.DistributedLock.LocalMemory.{
  MemoryLockRecord, Locks, no_locks, is_held, granted, new_lock, try_acquire, release,
}

abbrev pub memory_lock : IDistributedLock Locks
memory_lock = record {
  try_acquire = try_acquire;
  release = λ locks request now. ok (release locks request);
}

abbrev as_holder : MemoryLockRecord → Holder
as_holder lock = record { owner_id = lock.owner_id; token = lock.token; until = lock.expires_at_ms }

abbrev memory_holder : Option MemoryLockRecord → Option Holder
memory_holder none = none
memory_holder (some lock) = some (as_holder lock)

abbrev pub memory_holders : Locks → ℕ → Held
memory_holders locks now name = still now (memory_holder (locks name))

held-holder :
    (lock : Option MemoryLockRecord) (now : ℕ)
    → is_held lock now ≡ true
    → (holder : Holder) × (still now (memory_holder lock) ≡ some holder)
held-holder none now held = absurd cc
held-holder (some lock) now held = (as_holder lock, ground arith)

free-holder :
    (lock : Option MemoryLockRecord) (now : ℕ)
    → is_held lock now ≡ false
    → still now (memory_holder lock) ≡ none
free-holder none now free = refl
free-holder (some lock) now free = ground arith

memory_holders-put :
    (locks : Locks) (request : DistributedLockAcquireRequest) (lease : ℕ) (token : String) (now : ℕ)
    → 0 < lease
    → put request.lock_name (holder_of request lease token now) (memory_holders locks now)
      ≡ memory_holders (put request.lock_name (new_lock request lease token now) locks) now
memory_holders-put locks request lease token now longer = fun_ext λ name.
    elim (Bool-cases (str_eq request.lock_name name)) [
      | inl here ↦ rw here (ground arith)
      | inr other ↦ rw other refl
    ]

memory-acquires :
    (locks : Locks) (request : DistributedLockAcquireRequest) (token : String) (now : ℕ)
    → Follows
        (λ _. Unit)
        (λ s. memory_holders s now)
        (abstract_acquire (memory_holders locks now) request token now)
        (try_acquire locks request token now)
unfolding try_acquire abstract_acquire
memory-acquires locks request token now = elim (Option-cases (lease_of request.lease_ms)) [
  | inl bad ↦
      both_throw lease_not_positive (rw (bad, abstract_acquire) refl) (rw (bad, try_acquire) refl)
  | inr (lease, good) ↦
      let longer : 0 < lease = lease_of-positive request.lease_ms good in
      elim (Bool-cases (is_held (locks request.lock_name) now)) [
        | inl held ↦
            let (holder, there) = held-holder (locks request.lock_name) now held in
            both_answer locks refused tt (rw (good, abstract_acquire) (rw (there) refl))
              (rw (good, try_acquire) (rw held refl))
        | inr free ↦
            let nobody_there = free-holder (locks request.lock_name) now free in
            both_answer (put request.lock_name (new_lock request lease token now) locks)
              (acquired (granted (new_lock request lease token now))) tt
              (rw (good, abstract_acquire)
                (rw nobody_there (
                  ap (λ held. ok (held, acquired (grant_of request lease token now)))
                    (memory_holders-put locks request lease token now longer))))
              (rw (good, try_acquire) (rw free refl))
      ]
]

memory-releases :
    (locks : Locks) (request : DistributedLockReleaseRequest) (now : ℕ)
    → memory_holders (release locks request) now
      ≡ abstract_release (memory_holders locks now) request
unfolding release abstract_release
memory-releases locks request now = fun_ext λ name.
    elim (Bool-cases (str_eq request.lock_name name)) [
      | inl here ↦
          let named = (str_eq_iff request.lock_name name).0 here in
          elim (Option-cases (locks name)) [
            | inl gone ↦ ground (arith)
            | inr (lock, there) ↦ ground (arith)
          ]
      | inr other ↦ elim (Option-cases (locks request.lock_name)) [
        | inl gone ↦ ground arith
        | inr (lock, there) ↦ ground arith
      ]
    ]

pub memory-Keeps : Keeps (λ _. Unit) memory_holders memory_lock
memory-Keeps = record {
  passes =
      λ locks now later le. fun_ext λ name. still-still now later (memory_holder (locks name)) le;
  acquires = λ locks _ request token now. memory-acquires locks request token now;
  releases =
      λ locks _ request now. (release locks request, refl, memory-releases locks request now, tt);
}

-- Whatever calls are made, in the order of their times, the lock in memory answers each as the table of the
-- holders does: a grant exactly when no lease of the name runs, a refusal otherwise, and a release only to the
-- owner with the token of the grant.
pub run-memory_lock :
    (calls : List Call)
    → InOrder 0 calls
    → run memory_lock no_locks calls ≡ abstract_run nobody calls
run-memory_lock calls ordered =
    Keeps-run (λ _. Unit) memory_holders memory_lock memory-Keeps calls no_locks 0 nobody tt
      (λ later le. refl) ordered
