-- ===== src/Prelude/Keys.antt =====
-- Identifiers are texts; sets and lists of them are tested by `includes`.
use Prim.Native.Nat.{ℕ, suc}
use Prim.Native.String.{String, compare, ◌++◌ as append_text}
use mathlib.Core.Path.{◌≡◌, refl}
use mathlib.Core.Logic.{◌↔◌}
use mathlib.Core.Bool.{Bool, true, false, not, ◌&&◌, ◌||◌}
use mathlib.Core.Option.{Option, none, some}
use mathlib.Core.List.{List, [], ◌∷◌, ◌++◌}
use native.Mathlib.Omega.{arith}
use text.Mathlib.Text.{is_lt, ◌==◌ as text_eq}
use text.Mathlib.TextEquality.{eq_iff}
use athena_console.Prelude.Tests.{if◌then◌else◌}

-- `===` on texts, and `<` in the order of the code points.
unfoldable pub str_eq : String → String → Bool
str_eq s t = text_eq s t

abbrev pub str_lt : String → String → Bool
str_lt s t = is_lt (compare s t)

pub str_eq_iff : (s t : String) → (str_eq s t ≡ true) ↔ (s ≡ t)
unfolding str_eq
str_eq_iff s t = eq_iff s t

-- A template literal is a text appended to a text.
infixr 66 ◌<>◌
abbrev pub ◌<>◌ : String → String → String
s <> t = append_text s t

abbrev pub is_empty : String → Bool
is_empty s = str_eq s ""

-- `Array.prototype.includes` and `Set.prototype.has`.
abbrev pub includes : List String → String → Bool
includes [] k = false
includes (x ∷ xs) k = str_eq x k || includes xs k

-- `Array.from(new Set(xs))`: each text at its first place. `seen` are the texts met before.
abbrev pub dedupe_from : List String → List String → List String
dedupe_from seen [] = []
dedupe_from seen (x ∷ xs) =
    if includes seen x then dedupe_from seen xs else x ∷ dedupe_from (x ∷ seen) xs

abbrev pub dedupe : List String → List String
dedupe xs = dedupe_from [] xs

-- `xs.filter((x) => x !== k)`, and `Set.prototype.delete`.
abbrev pub without : String → List String → List String
without k [] = []
without k (x ∷ xs) = if str_eq x k then without k xs else x ∷ without k xs

pub str_eq_refl : (s : String) → str_eq s s ≡ true
str_eq_refl s = (str_eq_iff s s).1 refl

pub includes-append :
    (xs ys : List String) (k : String) → includes (xs ++ ys) k ≡ (includes xs k || includes ys k)
includes-append [] ys k = refl
includes-append (x ∷ xs) ys k = ground (arith, includes-append xs ys k)

-- How many of `xs` are not in `seen`.
abbrev pub missing : List String → List String → ℕ
missing [] seen = 0
missing (x ∷ xs) seen = if includes seen x then missing xs seen else suc (missing xs seen)

-- No text stands twice.
abbrev pub distinct : List String → Bool
distinct [] = true
distinct (x ∷ xs) = not (includes xs x) && distinct xs

-- `seen'` is `seen` with `x` put in anywhere.
pub record Adds (x : String) (seen seen' : List String) : Type 0 where
  pub test : (k : String) → includes seen' k ≡ (str_eq x k || includes seen k)

-- Each of `xs` is in `ys`.
abbrev pub Within : List String → List String → Type 0
Within xs ys = (k : String) → includes xs k ≡ true → includes ys k ≡ true

-- A `Map` with texts for keys: `put` is `Map.prototype.set`, and `map_of` is `new Map(entries)`.
module _ {ℓ} {A : Type ℓ} where
  abbrev pub put : String → A → (String → Option A) → String → Option A
  put k v m j = if str_eq k j then some v else m j

  abbrev pub map_of : List (String × A) → String → Option A
  map_of [] k = none
  map_of ((j, v) ∷ entries) k = elim (map_of entries k) [
    | none ↦ if str_eq j k then some v else none
    | some w ↦ some w
  ]
