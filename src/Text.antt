-- ===== src/Text.antt =====
-- `String.prototype.trim` and `Number.parseInt` with radix 10, for the texts that the source reads.
use Prim.Native.Char.{Char, code}
use Prim.Native.String.{String, [], ◌∷◌}
use athena_console.Prelude.{
  ℕ, ◌+◌, ◌*◌, ◌-◌, Bool, true, false, ◌&&◌, ◌||◌, leb, ◌==◌, Option, none, some, is_empty,
  if◌then◌else◌, zero, suc,
}
use athena_console.Json.{ℤ, pos, negsuc}

-- White space and the ends of lines.
abbrev is_space : ℕ → Bool
is_space n =
    (leb 9 n && leb n 13)
    || n == 32
    || n == 160
    || n == 5760
    || (leb 8192 n && leb n 8202)
    || n == 8232
    || n == 8233
    || n == 8239
    || n == 8287
    || n == 12288
    || n == 65279

abbrev pub trim_start : String → String
trim_start [] = []
trim_start (c ∷ s) = if is_space (code c) then trim_start s else c ∷ s

abbrev put_before : Char → String → String
put_before c [] = if is_space (code c) then [] else c ∷ []
put_before c (d ∷ s) = c ∷ d ∷ s

abbrev trim_end : String → String
trim_end [] = []
trim_end (c ∷ s) = put_before c (trim_end s)

unfoldable pub trim : String → String
trim s = trim_end (trim_start s)

-- `s.trim().length > 0`
unfoldable pub has_text : String → Bool
has_text s = if is_empty (trim s) then false else true

abbrev is_digit : ℕ → Bool
is_digit n = leb 48 n && leb n 57

-- The digits up to the first character that is none, after those that make `n`.
abbrev digits : ℕ → String → ℕ
digits n [] = n
digits n (c ∷ s) = if is_digit (code c) then digits (n * 10 + (code c - 48)) s else n

abbrev unsigned : String → Option ℕ
unsigned [] = none
unsigned (c ∷ s) = if is_digit (code c) then some (digits (code c - 48) s) else none

abbrev positive : Option ℕ → Option ℤ
positive none = none
positive (some n) = some (pos n)

-- -0 is 0.
abbrev negative : Option ℕ → Option ℤ
negative none = none
negative (some zero) = some (pos 0)
negative (some (suc n)) = some (negsuc n)

abbrev signed : String → Option ℤ
signed [] = none
signed (c ∷ s) =
    if code c == 45
    then negative (unsigned s)
    else (if code c == 43 then positive (unsigned s) else positive (unsigned (c ∷ s)))

-- None is NaN. The numbers are exact.
unfoldable pub parse_int : String → Option ℤ
parse_int s = signed (trim_start s)
