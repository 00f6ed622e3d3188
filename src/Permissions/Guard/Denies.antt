-- ===== src/Permissions/Guard/Denies.antt =====
-- `PermissionsGuard` while users have no permissions.
use api_payment.Common.{
  String, ◌≡◌, refl, false, Option, none, some, List, [], ◌∷◌, truthy, Option-cases, arith, inl,
  inr,
}
use api_payment.Common.Exec.{Exception, throw}
use api_payment.Permissions.Name.{
  ParsedPermission, parse_permission, check_wildcards, check_permission_hierarchy,
}
use api_payment.Permissions.Store.{Environment, Store}
use api_payment.Permissions.Crud.{has_any_permission, some_granted}
use api_payment.Permissions.Guard.{
  can_activate, check_user, allow, not_authenticated, permission_denied,
}

check_wildcards-nil : (o : Option ParsedPermission) → check_wildcards [] o ≡ false
unfolding check_wildcards
check_wildcards-nil none = refl
check_wildcards-nil (some r) = ground arith

some_granted-nil : (ps : List String) → some_granted [] ps ≡ false
unfolding some_granted check_permission_hierarchy
some_granted-nil [] = refl
some_granted-nil (p ∷ ps) =
    ground (arith, check_wildcards-nil (parse_permission p), some_granted-nil ps)

-- Who is refused, and how
abbrev pub refusal : Option String → Exception
refusal none = not_authenticated
refusal (some user_id) = permission_denied

-- On a route that asks for a permission `PermissionsGuard` lets nobody through: a request without the
-- id of a user is answered 401, every other 403, and nothing is written.
pub can_activate-denies :
    (v : Environment) (permission : String) (permissions : List String) (user_id : Option String)
    (s : Store v)
    → can_activate v (some (permission ∷ permissions)) user_id s
      ≡ (throw (refusal (truthy user_id)), s)
unfolding can_activate check_user has_any_permission allow
can_activate-denies v p ps user_id s = elim (Option-cases (truthy user_id)) [
  | inl nobody ↦ rw nobody refl
  | inr (u, somebody) ↦ rw (somebody, some_granted-nil (p ∷ ps)) refl
]
