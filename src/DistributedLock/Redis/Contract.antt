-- ===== src/DistributedLock/Redis/Contract.antt =====
-- redis.ts: on a server that does what is documented of SET with PX and NX and of scripts, the lock keeps the
-- contract of `IDistributedLock`.

use athena_console.Prelude.{
  ℕ, ◌+◌, ◌<◌, String, ◌≡◌, refl, sym, ◌∙◌, fun_ext, ap, str_eq_iff, true, false, ◌&&◌, Option,
  none, some, inl, inr, List, str_eq, ltb, put, ok, arith, Bool-cases, Option-cases,
}
use athena_console.DistributedLock.{
  DistributedLockAcquireRequest, DistributedLockReleaseRequest, acquired, refused,
  lease_not_positive, lease_of,
}
use athena_console.DistributedLock.Contract.{
  IDistributedLock, Holder, Held, nobody, still, abstract_acquire, abstract_release, Call, InOrder,
  run, abstract_run, holder_of, grant_of,
}
use athena_console.DistributedLock.Contract.Refinement.{
  Follows, both_throw, both_answer, Keeps, Keeps-run, still-still, lease_of-positive,
}
use athena_console.DistributedLock.Redis.{
  RedisServer, RedisLockClient, redis_compare_and_delete_script, RedisLockProvider,
  resolve_lock_key, redis_try_acquire, redis_release,
}
use athena_console.DistributedLock.Redis.Server.{
  Entry, live, entry_value, without_key, Documented, str_eq-append, Readable,
}

abbrev pub redis_lock :
    {Server : Type 0}
    → RedisServer Server
    → RedisLockClient Server
    → (String → String → String)
    → RedisLockProvider
    → IDistributedLock Server
redis_lock redis client serialize provider = record {
  try_acquire = redis_try_acquire redis client serialize provider;
  release = redis_release redis client serialize provider;
}

module _ {Server : Type 0} (redis : RedisServer Server) (client : RedisLockClient Server)
    (serialize : String → String → String) (provider : RedisLockProvider)
    (entry : Server → String → Option Entry) (owner_of token_of : String → String)
    (documented : Documented redis client entry)
    (readable : Readable serialize owner_of token_of) where
  abbrev as_holder : Option Entry → Option Holder
  as_holder none = none
  as_holder (some e) =
      some (record { owner_id = owner_of e.value; token = token_of e.value; until = e.until })

  abbrev holders : (String → Option Entry) → ℕ → Held
  holders entries now name = still now (as_holder (entries (resolve_lock_key provider name)))

  abbrev pub redis_holders : Server → ℕ → Held
  redis_holders server now = holders (entry server) now

  -- The keys hold what `serialize` writes.
  abbrev pub Written : Server → Type 0
  Written server =
      (key : String) (e : Entry)
      → entry server key ≡ some e
      → serialize (owner_of e.value) (token_of e.value) ≡ e.value

  not_live : (o : Option Entry) (now : ℕ) → live now o ≡ none → still now (as_holder o) ≡ none
  not_live none now free = refl
  not_live (some e) now free = ground arith

  is_live :
      (o : Option Entry) (now : ℕ) (old : Entry)
      → live now o ≡ some old
      → (o ≡ some old) × (still now (as_holder o) ≡ as_holder (some old))
  is_live none now old there = absurd cc
  is_live (some e) now old there = elim (Bool-cases (ltb now e.until)) [
    | inl runs ↦
        let same : some e ≡ some old = rw runs at there in (same, rw runs (ap as_holder same))
    | inr over ↦ absurd (let h : none ≡ some old = rw over at there in cc)
  ]

  abbrev new_entry : DistributedLockAcquireRequest → ℕ → String → ℕ → Entry
  new_entry request lease token now = record {
    value = serialize request.owner_id token;
    until = now + lease;
  }

  holders-put :
      (entries : String → Option Entry) (request : DistributedLockAcquireRequest) (lease : ℕ)
      (token : String) (now : ℕ)
      → 0 < lease
      → put request.lock_name (holder_of request lease token now) (holders entries now)
        ≡ holders
            (put
              (resolve_lock_key provider request.lock_name)
              (new_entry request lease token now)
              entries)
            now
  holders-put entries request lease token now longer = fun_ext λ name.
      let same = str_eq-append provider.key_prefix request.lock_name name in
      let owner = readable.owner request.owner_id token in
      let drawn = readable.token request.owner_id token in
      elim (Bool-cases (str_eq request.lock_name name)) [
        | inl here ↦
            let later : ltb now (now + lease) ≡ true = ground arith in
            rw (same, here, later) (rw (owner, drawn) refl)
        | inr other ↦ rw (same, other) refl
      ]

  ap2 : (f : String → String → String) {a b c d : String} → a ≡ b → c ≡ d → f a c ≡ f b d
  ap2 f e h = λ i. f (e i) (h i)

  holds :
      (e : Entry) (request : DistributedLockReleaseRequest)
      → serialize (owner_of e.value) (token_of e.value) ≡ e.value
      → str_eq e.value (serialize request.owner_id request.token)
        ≡ (str_eq (owner_of e.value) request.owner_id && str_eq (token_of e.value) request.token)
  holds e request written =
      elim (Bool-cases (str_eq e.value (serialize request.owner_id request.token))) [
        | inl same ↦
            let e' = (str_eq_iff e.value (serialize request.owner_id request.token)).0 same in
            let owner : owner_of e.value ≡ request.owner_id =
              rw e' (readable.owner request.owner_id request.token) in
            let token : token_of e.value ≡ request.token =
              rw e' (readable.token request.owner_id request.token) in
            ground (
              arith,
              (str_eq_iff (owner_of e.value) request.owner_id).1 owner,
              (str_eq_iff (token_of e.value) request.token).1 token,
            )
        | inr other ↦
            elim (Bool-cases (
              str_eq (owner_of e.value) request.owner_id
              && str_eq (token_of e.value) request.token)) [
                | inl both ↦
                    let owner : owner_of e.value ≡ request.owner_id =
                      (str_eq_iff (owner_of e.value) request.owner_id).0 (ground arith) in
                    let token : token_of e.value ≡ request.token =
                      (str_eq_iff (token_of e.value) request.token).0 (ground arith) in
                    let same : e.value ≡ serialize request.owner_id request.token =
                      sym written ∙ ap2 serialize owner token in
                    absurd (
                      let h =
                        (str_eq_iff e.value (serialize request.owner_id request.token)).1 same in
                      cc)
                | inr apart ↦ other ∙ sym apart
              ]
      ]

  Written-put :
      {server server' : Server}
      → Written server
      → (request : DistributedLockAcquireRequest) (lease : ℕ) (token : String) (now : ℕ)
      → entry server'
        ≡ put
            (resolve_lock_key provider request.lock_name)
            (new_entry request lease token now)
            (entry server)
      → Written server'
  Written-put {server} written request lease token now e k old found =
      let there : put (resolve_lock_key provider request.lock_name)
            (new_entry request lease token now) (entry server) k
          ≡ some old =
        sym (ap (λ f. f k) e) ∙ found in
      elim (Bool-cases (str_eq (resolve_lock_key provider request.lock_name) k)) [
        | inl here ↦
            let same : some (new_entry request lease token now) ≡ some old = rw here at there in
            let value : some (serialize request.owner_id token) ≡ some old.value =
              ap entry_value same in
            let same_value : serialize request.owner_id token ≡ old.value = cc in
            rw (← same_value) (
              rw (readable.owner request.owner_id token, readable.token request.owner_id token)
                refl)
        | inr other ↦ written k old (rw other at there)
      ]

  redis-acquires :
      (server : Server) (written : Written server) (request : DistributedLockAcquireRequest)
      (token : String) (now : ℕ)
      → Follows Written
          (λ s. redis_holders s now)
          (abstract_acquire (redis_holders server now) request token now)
          (redis_try_acquire redis client serialize provider server request token now)
  unfolding redis_try_acquire abstract_acquire
  redis-acquires server written request token now =
      let key = resolve_lock_key provider request.lock_name in
      elim (Option-cases (lease_of request.lease_ms)) [
        | inl bad ↦
            both_throw lease_not_positive (rw (bad, abstract_acquire) refl)
              (rw (bad, redis_try_acquire) refl)
        | inr (lease, good) ↦
            let value = serialize request.owner_id token in
            elim (Option-cases (live now (entry server key))) [
              | inl free ↦
                  let longer : 0 < lease = lease_of-positive request.lease_ms good in
                  let (server', set, sets_it) =
                    documented.sets server key value lease now longer free in
                  let nobody_there = not_live (entry server key) now free in
                  both_answer server' (acquired (grant_of request lease token now))
                    (Written-put written request lease token now sets_it)
                    (rw (good, abstract_acquire)
                      (rw nobody_there (
                        ap (λ held. ok (held, acquired (grant_of request lease token now)))
                          (holders-put (entry server) request lease token now longer
                            ∙ ap (λ entries. holders entries now) (sym sets_it)))))
                    (rw (good, redis_try_acquire) (rw set refl))
              | inr (old, there) ↦
                  let (server', set, kept) =
                    documented.stands server key value lease now old there in
                  let (_, somebody) = is_live (entry server key) now old there in
                  both_answer server' refused (λ k e found. written k e (rw (← kept) found))
                    (rw (good, abstract_acquire)
                      (rw somebody (ap (λ entries. ok (holders entries now, refused)) (sym kept))))
                    (rw (good, redis_try_acquire) (rw set refl))
            ]
      ]

  holders-del :
      (entries : String → Option Entry) (request : DistributedLockReleaseRequest) (now : ℕ)
      (old : Entry)
      → live now (entries (resolve_lock_key provider request.lock_name)) ≡ some old
      → serialize (owner_of old.value) (token_of old.value) ≡ old.value
      → str_eq old.value (serialize request.owner_id request.token) ≡ true
      → holders (without_key (resolve_lock_key provider request.lock_name) entries) now
        ≡ abstract_release (holders entries now) request
  unfolding abstract_release
  holders-del entries request now old there written same = fun_ext λ name.
      let keys = str_eq-append provider.key_prefix request.lock_name name in
      elim (Bool-cases (str_eq request.lock_name name)) [
        | inl here ↦
            let named = (str_eq_iff request.lock_name name).0 here in
            let there' : live now (entries (resolve_lock_key provider name)) ≡ some old =
              rw (← named) there in
            let (_, holder) = is_live (entries (resolve_lock_key provider name)) now old there' in
            let owned = holds old request written in
            rw (keys, here, holder) (rw (← owned) (rw same refl))
        | inr other ↦ rw (keys, other) refl
      ]

  holders-stay :
      (entries : String → Option Entry) (request : DistributedLockReleaseRequest) (now : ℕ)
      → ((old : Entry)
          → live now (entries (resolve_lock_key provider request.lock_name)) ≡ some old
          → (serialize (owner_of old.value) (token_of old.value) ≡ old.value)
            × (str_eq old.value (serialize request.owner_id request.token) ≡ false))
      → holders entries now ≡ abstract_release (holders entries now) request
  unfolding abstract_release
  holders-stay entries request now foreign = fun_ext λ name.
      elim (Bool-cases (str_eq request.lock_name name)) [
        | inl here ↦
            let named = (str_eq_iff request.lock_name name).0 here in
            elim (Option-cases (live now (entries (resolve_lock_key provider name)))) [
              | inl free ↦
                  rw here (rw (not_live (entries (resolve_lock_key provider name)) now free) refl)
              | inr (old, there) ↦
                  let (_, holder) =
                    is_live (entries (resolve_lock_key provider name)) now old there in
                  let (written, other) = foreign old (rw named there) in
                  let owned = holds old request written in
                  rw (here, holder) (rw (← owned) (rw other refl))
            ]
        | inr other ↦ rw other refl
      ]

  Written-del :
      {server server' : Server}
      → Written server
      → (key : String) → entry server' ≡ without_key key (entry server)
      → Written server'
  Written-del {server} written key e k old found =
      let there : without_key key (entry server) k ≡ some old = sym (ap (λ f. f k) e) ∙ found in
      elim (Bool-cases (str_eq key k)) [
        | inl here ↦ absurd (let gone : none ≡ some old = rw here at there in cc)
        | inr other ↦ written k old (rw other at there)
      ]

  redis-releases :
      (server : Server)
      → Written server
      → (request : DistributedLockReleaseRequest) (now : ℕ)
      → (server' : Server) × (redis_release redis client serialize provider server request now
          ≡ ok server')
        × (redis_holders server' now ≡ abstract_release (redis_holders server now) request)
        × Written server'
  unfolding redis_release
  redis-releases server written request now =
      let key = resolve_lock_key provider request.lock_name in
      let value = serialize request.owner_id request.token in
      let got = documented.gets server key now in
      let ran = documented.runs (redis_compare_and_delete_script redis) server key value now in
      elim (Option-cases (live now (entry server key))) [
        | inl free ↦ (
          server,
          rw (ran, redis_release) (rw (got, free) refl),
          holders-stay (entry server) request now (λ old there. absurd cc),
          written,
        )
        | inr (old, there) ↦
            let wrote = written key old (is_live (entry server key) now old there).0 in
            elim (Bool-cases (str_eq old.value value)) [
              | inl same ↦ (
                redis.del server key,
                rw (ran, redis_release) (rw (got, there) (rw same refl)),
                rw (documented.deletes server key)
                    (holders-del (entry server) request now old there wrote same),
                λ k e found. Written-del written key (documented.deletes server key) k e found,
              )
              | inr other ↦ (
                server,
                rw (ran, redis_release) (rw (got, there) (rw other refl)),
                holders-stay (entry server) request now (λ old' there'. ground (arith, wrote)),
                written,
              )
            ]
      ]

  redis-Keeps : Keeps Written redis_holders (redis_lock redis client serialize provider)
  redis-Keeps = record {
    passes = λ server now later le. fun_ext λ name.
        still-still now later (as_holder (entry server (resolve_lock_key provider name))) le;
    acquires = λ server written request token now. redis-acquires server written request token now;
    releases = redis-releases;
  }

  -- On a Redis server that does what is documented, and that holds none of the keys at first, the lock answers
  -- whatever calls are made, in the order of their times, as the table of the holders does.
  pub run-redis_lock :
      (server : Server)
      → ((key : String) → entry server key ≡ none)
      → (calls : List Call) → InOrder 0 calls
      → run (redis_lock redis client serialize provider) server calls ≡ abstract_run nobody calls
  run-redis_lock server empty calls ordered =
      Keeps-run Written redis_holders (redis_lock redis client serialize provider) redis-Keeps calls
        server 0 nobody (λ key e there. absurd (let h = empty key in cc))
        (λ later le. fun_ext λ name. rw (empty (resolve_lock_key provider name)) refl) ordered
