-- ===== src/Prelude/Membership.antt =====
-- Laws of `includes`, `missing` and `distinct`.
use Prim.Native.Nat.{suc, ◌≤◌, ◌<◌}
use Prim.Native.String.{String}
use mathlib.Core.Path.{◌≡◌, refl, ap}
use mathlib.Core.Bool.{true, false, not, ◌&&◌}
use mathlib.Core.Logic.{◌≢◌, inl, inr}
use athena_console.Prelude.Lists.{length}
use mathlib.Core.List.{List, [], ◌∷◌, ◌++◌}
use native.Mathlib.Omega.{arith}
use athena_console.Prelude.Tests.{Bool-cases}
use athena_console.Prelude.Keys.{
  str_eq, str_eq_iff, str_eq_refl, includes, includes-append, without, missing, distinct, Adds,
  Within,
}

pub Adds-cons : (x : String) (seen : List String) → Adds x seen (x ∷ seen)
Adds-cons x seen = record { test = λ k. refl }

pub Adds-snoc : (x : String) (seen : List String) → Adds x seen (seen ++ x ∷ [])
Adds-snoc x seen = record { test = λ k. ground (arith, includes-append seen (x ∷ []) k) }

module _ {x : String} {seen seen' : List String} (adds : Adds x seen seen') where
  pub missing-Adds-le : (xs : List String) → missing xs seen' ≤ missing xs seen
  missing-Adds-le [] = omega arith
  missing-Adds-le (y ∷ ys) = ground (arith, adds.test y, missing-Adds-le ys)

  -- A new text that is one of `xs` makes fewer of them missing.
  pub missing-Adds-lt :
      (xs : List String)
      → includes xs x ≡ true
      → includes seen x ≡ false
      → missing xs seen' < missing xs seen
  missing-Adds-lt [] h new = cc
  missing-Adds-lt (y ∷ ys) h new =
      ground
        (arith, adds.test y, missing-Adds-le ys, missing-Adds-lt ys, str_eq_iff y x, str_eq_refl x)

  pub missing-Adds_other :
      (xs : List String) → includes xs x ≡ false → missing xs seen' ≡ missing xs seen
  missing-Adds_other [] h = refl
  missing-Adds_other (y ∷ ys) h =
      ground (arith, adds.test y, missing-Adds_other ys, str_eq_iff y x, str_eq_iff x y)

  pub missing-Adds_one :
      (xs : List String)
      → distinct xs ≡ true
      → includes xs x ≡ true
      → includes seen x ≡ false
      → suc (missing xs seen') ≡ missing xs seen
  missing-Adds_one [] d h new = cc
  missing-Adds_one (y ∷ ys) d h new = ground (
    arith,
    adds.test y,
    missing-Adds_one ys,
    missing-Adds_other ys,
    str_eq_iff y x,
    str_eq_iff x y,
    str_eq_refl x,
  )

pub missing_zero : (xs seen : List String) → missing xs seen ≡ 0 → Within xs seen
missing_zero [] seen h k m = cc
missing_zero (x ∷ xs) seen h k m =
    ground (arith, λ (e : missing xs seen ≡ 0). missing_zero xs seen e k, str_eq_iff x k)

pub missing-Within : (xs seen : List String) → Within xs seen → missing xs seen ≡ 0
missing-Within [] seen w = refl
missing-Within (x ∷ xs) seen w =
    ground (arith, w x, str_eq_refl x, missing-Within xs seen (λ k m. w k (ground (arith, m))))

-- Taking a text out of a set that it was put into.
pub includes-without :
    (k j : String) (xs : List String)
    → includes (without k xs) j ≡ (includes xs j && not (str_eq k j))
includes-without k j [] = refl
includes-without k j (x ∷ xs) =
    ground (arith, includes-without k j xs, str_eq_iff x k, str_eq_iff k j, str_eq_iff x j)

pub missing-nil : (xs : List String) → missing xs [] ≡ length xs
missing-nil [] = refl
missing-nil (x ∷ xs) = ap suc (missing-nil xs)

pub missing_pos :
    (xs seen : List String)
    → missing xs seen ≢ 0
    → (d : String) × (includes xs d ≡ true) × (includes seen d ≡ false)
missing_pos [] seen h = absurd (h refl)
missing_pos (x ∷ xs) seen h = elim (Bool-cases (includes seen x)) [
  | inl here ↦ let (d, m, out) = missing_pos xs seen (λ e. h (rw here e)) in (d, ground arith, out)
  | inr out ↦ (x, rw (str_eq_refl x), out)
]
