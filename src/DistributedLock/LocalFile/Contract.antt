-- ===== src/DistributedLock/LocalFile/Contract.antt =====
-- local-file.ts: what is written is read back, and the lock keeps the contract of `IDistributedLock`.
use athena_console.Prelude.{
  ℕ, ◌+◌, ◌≤◌, ◌<◌, String, ◌≡◌, refl, sym, ◌∙◌, fun_ext, ap, str_eq_iff, str_eq_refl, Bool, true,
  false, Option, none, some, inl, inr, List, str_eq, put, is_some, if◌then◌else◌, ok, arith,
  Bool-cases, Option-cases,
}
use athena_console.Json.{Value, ℤ, pos, negsuc, integer, prop}
use athena_console.DistributedLock.{
  DistributedLockAcquireRequest, DistributedLockReleaseRequest, acquired, refused,
  lease_not_positive, lease_of,
}
use athena_console.DistributedLock.Contract.{
  IDistributedLock, Holder, Held, nobody, still, abstract_acquire, abstract_release, Call, InOrder,
  run, abstract_run, holder_of, grant_of, unless_holder,
}
use athena_console.DistributedLock.Contract.Refinement.{
  Follows, both_throw, both_answer, Keeps, Keeps-run, lease_of-positive,
}
use athena_console.DistributedLock.LocalFile.{
  DistributedLockRecord, Files, version_of, number_of, parse_lock, lock_json, Machine,
  resolve_lock_path, is_pid_alive, should_reclaim_lock, read_lock, is_held, remove, new_record,
  file_try_acquire, owns, file_release,
}

-- A record whose version is a positive integer, and whose process is a number, is read back from what is written
-- of it.
pub parse_lock-lock_json :
    (lock : DistributedLockRecord)
    → version_of lock.schema_version ≡ lock.schema_version
    → number_of lock.pid ≡ some lock.pid
    → parse_lock (lock_json lock) ≡ some lock
unfolding parse_lock str_eq prop
parse_lock-lock_json lock version process =
    let with_version : Value → DistributedLockRecord = λ v. record {
      schema_version = v;
      lock_name = lock.lock_name;
      owner_id = lock.owner_id;
      token = lock.token;
      pid = lock.pid;
      acquired_at = lock.acquired_at;
      expires_at = lock.expires_at;
    } in
    rw process (ap (λ v. some (with_version v)) version)

-- The time that a lock ends at; one before the epoch has ended.
abbrev expiry : Option ℤ → ℕ
expiry (some (pos n)) = n
expiry _ = 0

abbrev holder_at : Machine → Option DistributedLockRecord → ℕ → Option Holder
holder_at machine none now = none
holder_at machine (some lock) now =
    if should_reclaim_lock machine lock now
    then none
    else some (record {
      owner_id = lock.owner_id;
      token = lock.token;
      until = expiry (machine.date_parse lock.expires_at);
    })

abbrev pub file_holders : Machine → Files → ℕ → Held
file_holders machine files now name =
    holder_at machine (read_lock files (resolve_lock_path machine name)) now

abbrev pub file_lock : Machine → IDistributedLock Files
file_lock machine = record {
  try_acquire = file_try_acquire machine;
  release = λ files request now. ok (file_release machine files request);
}

-- What a lock relies on: this process runs, the times are read back, and no two names have one digest.
pub record Sound (machine : Machine) : Type 0 where
  pub runs : is_pid_alive machine (integer (pos machine.pid)) ≡ true
  pub reads_back : (n : ℕ) → machine.date_parse (machine.to_iso_string n) ≡ some (pos n)
  pub digests : (s t : String) → machine.sha256 s ≡ machine.sha256 t → s ≡ t

holder_at-later :
    (machine : Machine) (lock : Option DistributedLockRecord) (now later : ℕ)
    → now ≤ later
    → holder_at machine lock later ≡ still later (holder_at machine lock now)
unfolding should_reclaim_lock
holder_at-later machine none now later le = refl
holder_at-later machine (some lock) now later le =
    elim (Option-cases (machine.date_parse lock.expires_at)) [
      | inl bad ↦ rw bad (ground arith)
      | inr (pos n, good) ↦ rw good (ground arith)
      | inr (negsuc n, good) ↦ rw good (ground arith)
    ]

held-holder :
    (machine : Machine) (lock : Option DistributedLockRecord) (now : ℕ)
    → is_held machine lock now ≡ true
    → (holder : Holder) × (holder_at machine lock now ≡ some holder)
held-holder machine none now held = absurd cc
held-holder machine (some lock) now held = (
  record {
    owner_id = lock.owner_id;
    token = lock.token;
    until = expiry (machine.date_parse lock.expires_at);
  },
  ground arith,
)

free-holder :
    (machine : Machine) (lock : Option DistributedLockRecord) (now : ℕ)
    → is_held machine lock now ≡ false
    → holder_at machine lock now ≡ none
free-holder machine none now free = refl
free-holder machine (some lock) now free = ground arith

given_up :
    (machine : Machine) (lock : DistributedLockRecord) (request : DistributedLockReleaseRequest)
    (now : ℕ)
    → owns lock request ≡ true
    → none ≡ unless_holder request (holder_at machine (some lock) now)
given_up machine lock request now owned = ground arith

left :
    (machine : Machine) (lock : DistributedLockRecord) (request : DistributedLockReleaseRequest)
    (now : ℕ)
    → owns lock request ≡ false
    → holder_at machine (some lock) now ≡ unless_holder request (holder_at machine (some lock) now)
left machine lock request now foreign = ground arith

module _ (machine : Machine) (sound : Sound machine) where
  str_eq-digest : (s t : String) → str_eq (machine.sha256 s) (machine.sha256 t) ≡ str_eq s t
  str_eq-digest s t = elim (Bool-cases (str_eq s t)) [
    | inl same ↦ let e = (str_eq_iff s t).0 same in rw (same, e) (str_eq_refl (machine.sha256 t))
    | inr other ↦ elim (Bool-cases (str_eq (machine.sha256 s) (machine.sha256 t))) [
      | inl same ↦ absurd (
          let e = sound.digests s t ((str_eq_iff (machine.sha256 s) (machine.sha256 t)).0 same) in
          ground (arith, (str_eq_iff s t).1 e))
      | inr apart ↦ rw (apart, other) refl
    ]
  ]

  holder_at-new :
      (request : DistributedLockAcquireRequest) (lease : ℕ) (token : String) (now : ℕ)
      → 0 < lease
      → holder_at machine (some (new_record machine request lease token now)) now
        ≡ some (holder_of request lease token now)
  unfolding should_reclaim_lock
  holder_at-new request lease token now longer =
      rw (sound.runs, sound.reads_back now, sound.reads_back (now + lease)) (ground arith)

  cleared-elsewhere :
      (files : Files) (path other : String) (value : Value) (found : Bool)
      → str_eq path other ≡ false
      → put path value (if found then remove path files else files) other ≡ files other
  cleared-elsewhere files path other value true apart = rw apart refl
  cleared-elsewhere files path other value false apart = rw apart refl

  holders-put :
      (files : Files) (request : DistributedLockAcquireRequest) (lease : ℕ) (token : String)
      (now : ℕ) (found : Bool)
      → 0 < lease
      → put request.lock_name (holder_of request lease token now) (file_holders machine files now)
        ≡ file_holders machine
            (put
              (resolve_lock_path machine request.lock_name)
              (lock_json (new_record machine request lease token now))
              (if found then remove (resolve_lock_path machine request.lock_name) files else files))
            now
  unfolding read_lock
  holders-put files request lease token now found longer = fun_ext λ name.
      let same = str_eq-digest request.lock_name name in
      elim (Bool-cases (str_eq request.lock_name name)) [
        | inl here ↦
            let back =
              parse_lock-lock_json (new_record machine request lease token now) refl refl in
            rw (same, here) (rw back (sym (holder_at-new request lease token now longer)))
        | inr other ↦
            let elsewhere =
              cleared-elsewhere files (machine.sha256 request.lock_name) (machine.sha256 name)
                (lock_json (new_record machine request lease token now)) found (same ∙ other) in
            rw (other, elsewhere) refl
      ]

  file-acquires :
      (files : Files) (request : DistributedLockAcquireRequest) (token : String) (now : ℕ)
      → Follows
          (λ _. Unit)
          (λ s. file_holders machine s now)
          (abstract_acquire (file_holders machine files now) request token now)
          (file_try_acquire machine files request token now)
  unfolding file_try_acquire abstract_acquire
  file-acquires files request token now = elim (Option-cases (lease_of request.lease_ms)) [
    | inl bad ↦
        both_throw lease_not_positive (rw (bad, abstract_acquire) refl)
          (rw (bad, file_try_acquire) refl)
    | inr (lease, good) ↦
        let current = read_lock files (resolve_lock_path machine request.lock_name) in
        elim (Bool-cases (is_held machine current now)) [
          | inl held ↦
              let (holder, there) = held-holder machine current now held in
              both_answer files refused tt (rw (good, abstract_acquire) (rw there refl))
                (rw (good, file_try_acquire) (rw held refl))
          | inr free ↦
              let nobody_there = free-holder machine current now free in
              let longer = lease_of-positive request.lease_ms good in
              both_answer
                (put (resolve_lock_path machine request.lock_name)
                  (lock_json (new_record machine request lease token now))
                  (if is_some current
                    then remove (resolve_lock_path machine request.lock_name) files
                    else files))
                (acquired (grant_of request lease token now)) tt
                (rw (good, abstract_acquire)
                  (rw nobody_there (
                    ap (λ held. ok (held, acquired (grant_of request lease token now)))
                      (holders-put files request lease token now (is_some current) longer))))
                (rw (good, file_try_acquire) (rw free refl))
        ]
  ]

  file-releases :
      (files : Files) (request : DistributedLockReleaseRequest) (now : ℕ)
      → file_holders machine (file_release machine files request) now
        ≡ abstract_release (file_holders machine files now) request
  unfolding file_release abstract_release read_lock
  file-releases files request now = fun_ext λ name.
      let same = str_eq-digest request.lock_name name in
      elim (Option-cases (read_lock files (machine.sha256 request.lock_name))) [
        | inl gone ↦
            rw (gone, file_release)
              (elim (Bool-cases (str_eq request.lock_name name)) [
                | inl here ↦
                    let named = (str_eq_iff request.lock_name name).0 here in
                    let gone' : read_lock files (machine.sha256 name) ≡ none = rw (← named) gone in
                    rw (here, gone') refl
                | inr other ↦ rw other refl
              ])
        | inr (lock, there) ↦ elim (Bool-cases (str_eq request.lock_name name)) [
          | inl here ↦
              let named = (str_eq_iff request.lock_name name).0 here in
              let there' : read_lock files (machine.sha256 name) ≡ some lock = rw (← named) there in
              elim (Bool-cases (owns lock request)) [
                | inl owned ↦
                    rw (there, file_release)
                      (rw (owned)
                        (rw (same, here, there') (given_up machine lock request now owned)))
                | inr foreign ↦
                    rw (there, file_release)
                      (rw (foreign) (rw (here, there') (left machine lock request now foreign)))
              ]
          | inr other ↦ elim (Bool-cases (owns lock request)) [
            | inl owned ↦ rw (there, file_release) (rw owned (rw (same, other) refl))
            | inr foreign ↦ rw (there, file_release) (rw foreign (rw other refl))
          ]
        ]
      ]

  file-Keeps : Keeps (λ _. Unit) (file_holders machine) (file_lock machine)
  file-Keeps = record {
    passes = λ files now later le.
        fun_ext
          λ name. holder_at-later machine (read_lock files (machine.sha256 name)) now later le;
    acquires = λ files _ request token now. file-acquires files request token now;
    releases = λ files _ request now.
        (file_release machine files request, refl, file-releases files request now, tt);
  }

  -- While this process runs, the lock in files, of which there are none at first, answers whatever calls are made,
  -- in the order of their times, as the table of the holders does. Times are read back as they were written, and
  -- no two names have one digest.
  pub run-file_lock :
      (calls : List Call)
      → InOrder 0 calls
      → run (file_lock machine) (λ _. none) calls ≡ abstract_run nobody calls
  unfolding read_lock
  run-file_lock calls ordered =
      Keeps-run (λ _. Unit) (file_holders machine) (file_lock machine) file-Keeps calls (λ _. none)
        0 nobody tt (λ later le. refl) ordered
