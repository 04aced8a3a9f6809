-- ===== src/Rbac/Permissions.antt =====
-- rbac.ts: the roles in their order.
use athena_console.Prelude.{
  String, ◌≡◌, refl, true, List, ◌++◌, str_eq, includes, includes-append, distinct, arith, ℕ, ◌≤◌,
}
use athena_console.Rbac.{
  AthenaRbacRole, viewer, operator, admin, viewer_permissions, operator_additional_permissions,
  admin_additional_permissions, get_permissions_for_role,
}

abbrev pub rank : AthenaRbacRole → ℕ
rank viewer = 0
rank operator = 1
rank admin = 2

includes-left :
    (xs ys : List String) (k : String) → includes xs k ≡ true → includes (xs ++ ys) k ≡ true
includes-left xs ys k m = rw (includes-append xs ys k, m)

-- A role is permitted what any role of its rank or below is.
pub get_permissions_for_role-le :
    (low high : AthenaRbacRole)
    → rank low ≤ rank high
    → (permission : String) → includes (get_permissions_for_role low) permission ≡ true
    → includes (get_permissions_for_role high) permission ≡ true
unfolding get_permissions_for_role
get_permissions_for_role-le viewer viewer h k m = m
get_permissions_for_role-le viewer operator h k m =
    includes-left viewer_permissions operator_additional_permissions k m
get_permissions_for_role-le viewer admin h k m =
    includes-left (viewer_permissions ++ operator_additional_permissions)
      admin_additional_permissions k
      (includes-left viewer_permissions operator_additional_permissions k m)
get_permissions_for_role-le operator viewer h k m = absurd (omega arith)
get_permissions_for_role-le operator operator h k m = m
get_permissions_for_role-le operator admin h k m =
    includes-left (viewer_permissions ++ operator_additional_permissions)
      admin_additional_permissions k m
get_permissions_for_role-le admin viewer h k m = absurd (omega arith)
get_permissions_for_role-le admin operator h k m = absurd (omega arith)
get_permissions_for_role-le admin admin h k m = m

-- No role lists a permission twice.
pub get_permissions_for_role-distinct :
    (role : AthenaRbacRole) → distinct (get_permissions_for_role role) ≡ true
unfolding get_permissions_for_role str_eq
get_permissions_for_role-distinct viewer = refl
get_permissions_for_role-distinct operator = refl
get_permissions_for_role-distinct admin = refl
