-- ===== src/DistributedLock/Contract/Refinement.antt =====
-- distributed-lock/types.ts: when a lock keeps the contract, and that its callers then see what the table of the
-- holders shows them.
use athena_console.Prelude.{
  ℕ, ◌≤◌, ◌<◌, String, ◌≡◌, refl, sym, ap, Option, none, some, List, [], ◌∷◌, Result, ok, throw,
  arith,
}
use athena_console.Json.{
  Value, undefined, null, boolean, integer, fraction, string, array, object, pos, negsuc,
}
use athena_console.DistributedLock.{
  DistributedLockAcquireRequest, DistributedLockReleaseRequest, LockError, lease_of,
}
use athena_console.DistributedLock.Contract.{
  IDistributedLock, Holder, Held, still, expire, abstract_acquire, abstract_release, Call, asks,
  returns, InOrder, run, abstract_run, answered, failed, returned,
}

-- A lease that has ended stays ended.
pub still-still :
    (now later : ℕ) (holder : Option Holder)
    → now ≤ later
    → still later holder ≡ still later (still now holder)
still-still now later none le = refl
still-still now later (some holder) le = ground arith

pub lease_of-positive : (value : Value) {lease : ℕ} → lease_of value ≡ some lease → 0 < lease
lease_of-positive (integer (pos n)) e = ground arith
lease_of-positive (integer (negsuc n)) e = absurd cc
lease_of-positive undefined e = absurd cc
lease_of-positive null e = absurd cc
lease_of-positive (boolean b) e = absurd cc
lease_of-positive (fraction i) e = absurd cc
lease_of-positive (string t) e = absurd cc
lease_of-positive (array vs) e = absurd cc
lease_of-positive (object fs) e = absurd cc

-- A call on a store does what the abstract one does on the holders of the store.
pub data Follows {S A : Type 0} (Good : S → Type 0) (view : S → Held)
    (abstract : Result LockError (Held × A)) (call : Result LockError (S × A)) : Type 0 where
  both_throw :
      (error : LockError)
      → abstract ≡ throw error
      → call ≡ throw error
      → Follows Good view abstract call
  both_answer :
      (store : S) (answer : A)
      → Good store
      → abstract ≡ ok (view store, answer)
      → call ≡ ok (store, answer)
      → Follows Good view abstract call

-- `holder store now` are the holders of a store at a time. The stores that the lock makes are `Good`.
pub record Keeps {S : Type 0} (Good : S → Type 0) (holder : S → ℕ → Held)
    (lock : IDistributedLock S) : Type 0 where
  pub passes :
      (store : S) (now later : ℕ)
      → now ≤ later
      → holder store later ≡ expire later (holder store now)
  pub acquires :
      (store : S)
      → Good store
      → (request : DistributedLockAcquireRequest) (token : String) (now : ℕ)
      → Follows Good
          (λ s. holder s now)
          (abstract_acquire (holder store now) request token now)
          (lock.try_acquire store request token now)
  pub releases :
      (store : S)
      → Good store
      → (request : DistributedLockReleaseRequest) (now : ℕ)
      → (store' : S) × (lock.release store request now ≡ ok store')
        × (holder store' now ≡ abstract_release (holder store now) request)
        × Good store'

-- The holders of a store are those of a table, from a time on.
abbrev Shows : {S : Type 0} → (S → ℕ → Held) → S → ℕ → Held → Type 0
Shows holder store now held = (later : ℕ) → now ≤ later → holder store later ≡ expire later held

module _ {S : Type 0} (Good : S → Type 0) (holder : S → ℕ → Held) (lock : IDistributedLock S)
    (keeps : Keeps Good holder lock) where
  pub Keeps-run :
      (calls : List Call) (store : S) (now : ℕ) (held : Held)
      → Good store
      → Shows holder store now held
      → InOrder now calls
      → run lock store calls ≡ abstract_run held calls
  Keeps-run [] store now held good shows ordered = refl
  Keeps-run (asks request token at ∷ calls) store now held good shows (after, ordered) =
      let seen : holder store at ≡ expire at held = shows at after in
      elim (keeps.acquires store good request token at) [
        | both_throw error e f ↦
            let e' : abstract_acquire (expire at held) request token at ≡ throw error =
              rw (← seen) e in
            rw (e', f, run, abstract_run)
              (ap (λ rest. failed error ∷ rest)
                (Keeps-run calls store at held good (λ later le. shows later (omega arith))
                  ordered))
        | both_answer store' answer good' e f ↦
            let e' : abstract_acquire (expire at held) request token at
                ≡ ok (holder store' at, answer) =
              rw (← seen) e in
            rw (e', f, run, abstract_run)
              (ap (λ rest. answered answer ∷ rest)
                (Keeps-run calls store' at (holder store' at) good'
                  (λ later le. keeps.passes store' at later le) ordered))
      ]
  Keeps-run (returns request at ∷ calls) store now held good shows (after, ordered) =
      let seen : holder store at ≡ expire at held = shows at after in
      let (store', f, e, good') = keeps.releases store good request at in
      let e' : abstract_release (expire at held) request ≡ holder store' at = rw (← seen) (sym e) in
      rw (e', f, run, abstract_run)
        (ap (λ rest. returned ∷ rest)
          (Keeps-run calls store' at (holder store' at) good'
            (λ later le. keeps.passes store' at later le) ordered))
