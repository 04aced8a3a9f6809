-- ===== src/Json.antt =====
-- The values of the language that the source reads as `unknown`, and its type tests.
use athena_console.Prelude.{
  ℕ, String, Bool, true, false, Option, none, some, List, [], ◌∷◌, str_eq, if◌then◌else◌,
}

-- An integer: `pos n` is n and `negsuc n` is -(n + 1).
pub data ℤ : Type 0 where
  pos : ℕ → ℤ
  negsuc : ℕ → ℤ

-- `fraction` is any number that is not an integer, told apart by an index.
mutual
  pub data Value : Type 0 where
    undefined null : Value
    boolean : Bool → Value
    integer : ℤ → Value
    fraction : ℕ → Value
    string : String → Value
    array : Items → Value
    object : Fields → Value

  pub data Items : Type 0 where
    nil : Items
    item : Value → Items → Items

  pub data Fields : Type 0 where
    end : Fields
    field : String → Value → Fields → Fields

abbrev pub items : Items → List Value
items nil = []
items (item v vs) = v ∷ items vs

abbrev pub get_field : String → Fields → Value
get_field k end = undefined
get_field k (field j v fs) = if str_eq j k then v else get_field k fs

-- `!!value && typeof value === "object" && !Array.isArray(value)`
unfoldable pub is_record : Value → Bool
is_record (object fs) = true
is_record _ = false

-- `value.k`, which is `undefined` on a value that is no object.
unfoldable pub prop : String → Value → Value
prop k (object fs) = get_field k fs
prop k _ = undefined

-- What a JSON column keeps of a value: nothing of `undefined`.
abbrev pub defined : Value → Option Value
defined undefined = none
defined v = some v

abbrev pub defined_field : String → Value → Fields → Fields
defined_field k undefined fs = fs
defined_field k v fs = field k v fs

abbrev pub texts : List String → Items
texts [] = nil
texts (s ∷ ss) = item (string s) (texts ss)
