-- ===== src/DistributedLock/Redis/Server.antt =====
-- redis.ts: what is documented of the server, of its client and of `JSON.stringify`.
use Prim.Native.Char.{Char}
use Prim.Native.String.{[] as empty_text, ◌∷◌ as cons_text}
use Prim.Native.String.append
use athena_console.Prelude.{
  ℕ, ◌+◌, ◌<◌, String, ◌≡◌, refl, sym, ◌∙◌, ap, str_eq_iff, str_eq_refl, true, false, Option, none,
  some, inl, inr, str_eq, ltb, put, if◌then◌else◌, arith, Bool-cases, ◌<>◌,
}
use athena_console.DistributedLock.Redis.{RedisServer, RedisLockClient, Script}

-- What a key was last set to, and when that expires.
pub record Entry : Type 0 where
  pub value : String
  pub until : ℕ

abbrev pub live : ℕ → Option Entry → Option Entry
live now none = none
live now (some entry) = if ltb now entry.until then some entry else none

abbrev pub entry_value : Option Entry → Option String
entry_value none = none
entry_value (some entry) = some entry.value

abbrev pub without_key : String → (String → Option Entry) → String → Option Entry
without_key key entries k = if str_eq key k then none else entries k

-- `entry` is what the server holds. The commands are those of the documentation: SET with NX does nothing on a key
-- that has not expired, PX is the time to live, which is positive, and a script runs whole.
pub record Documented {Server : Type 0} (redis : RedisServer Server)
    (client : RedisLockClient Server) (entry : Server → String → Option Entry) : Type 0 where
  pub gets :
      (server : Server) (key : String) (now : ℕ)
      → redis.get server key now ≡ entry_value (live now (entry server key))
  pub deletes :
      (server : Server) (key : String)
      → entry (redis.del server key) ≡ without_key key (entry server)
  pub sets :
      (server : Server) (key value : String) (lease now : ℕ)
      → 0 < lease
      → live now (entry server key) ≡ none
      → (server' : Server) × (client.set server key value lease now ≡ some (server', true))
        × (entry server' ≡ put key (record { value = value; until = now + lease }) (entry server))
  pub stands :
      (server : Server) (key value : String) (lease now : ℕ) (old : Entry)
      → live now (entry server key) ≡ some old
      → (server' : Server) × (client.set server key value lease now ≡ some (server', false))
        × (entry server' ≡ entry server)
  pub runs :
      (script : Script Server) (server : Server) (key argument : String) (now : ℕ)
      → client.eval script server key argument now ≡ some (script server key argument now)

abbrev tail : String → String
tail empty_text = empty_text
tail (cons_text c s) = s

append-nil : (t : String) → ("" <> t) ≡ t
append-nil t = λ i. append.nil t i

append-cons : (c : Char) (s t : String) → (cons_text c s <> t) ≡ cons_text c (s <> t)
append-cons c s t = λ i. append.cons c s t i

append-injective : (p s t : String) → (p <> s) ≡ (p <> t) → s ≡ t
append-injective empty_text s t e = sym (append-nil s) ∙ e ∙ append-nil t
append-injective (cons_text c p) s t e =
    append-injective p s t (ap tail (sym (append-cons c p s) ∙ e ∙ append-cons c p t))

pub str_eq-append : (p s t : String) → str_eq (p <> s) (p <> t) ≡ str_eq s t
str_eq-append p s t = elim (Bool-cases (str_eq s t)) [
  | inl same ↦ let e = (str_eq_iff s t).0 same in rw (same, e) (str_eq_refl (p <> t))
  | inr other ↦ elim (Bool-cases (str_eq (p <> s) (p <> t))) [
    | inl same ↦ absurd (
        let e = append-injective p s t ((str_eq_iff (p <> s) (p <> t)).0 same) in
        ground (arith, (str_eq_iff s t).1 e))
    | inr apart ↦ rw (apart, other) refl
  ]
]

-- `JSON.stringify({ ownerId, token })`, and its parts read back.
pub record Readable (serialize : String → String → String) (owner_of token_of : String → String)
    : Type 0 where
  pub owner : (owner_id token : String) → owner_of (serialize owner_id token) ≡ owner_id
  pub token : (owner_id token : String) → token_of (serialize owner_id token) ≡ token
