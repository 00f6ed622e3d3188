-- ===== src/Permissions/Clients/Union.antt =====
-- The set of names of `getClientEffectivePermissions`.
use mathlib.Core.Path.{subst}
use api_payment.Common.{
  String, ◌≡◌, ◌↔◌, ◌⊎◌, inl, inr, Option, none, some, List, [], ◌∷◌, eq_iff, Bool-cases, arith,
}
use api_payment.Common.Exec.{ok, ok_injective}
use api_payment.Common.Lists.{AnySuch, AnyOf, includes, includes_iff, AnyOf-append}
use api_payment.Platform.{Row}
use api_payment.Permissions.Entities.{Permission, LoadedRole, LoadedRolePermission}
use api_payment.Permissions.Clients.{add_name, add_all, add_permission, add_role, add_roles}
use api_payment.Permissions.Grants.{LoadedName, LoadedGrants}

add_name-AnyOf :
    (names : List String) (n x : String) → AnyOf x (add_name names n) ↔ (AnyOf x names ⊎ (n ≡ x))
unfolding add_name
add_name-AnyOf names n x = elim (Bool-cases (includes names n)) [
  | inl held ↦
      let there = (includes_iff names n).0 held in
      rw held (inl, λ h. elim h [ inl m ↦ m | inr e ↦ subst (λ y. AnyOf y names) e there ])
  | inr new ↦ rw new (ground (arith, AnyOf-append x names (n ∷ [])))
]

pub add_all-AnyOf :
    (names ns : List String) (x : String)
    → AnyOf x (add_all names ns) ↔ (AnyOf x names ⊎ AnyOf x ns)
unfolding add_all
add_all-AnyOf names [] x = ground arith
add_all-AnyOf names (n ∷ ns) x =
    ground (arith, add_name-AnyOf names n x, add_all-AnyOf (add_name names n) ns x)

add_permission-AnyOf :
    (names : List String) (o : Option (Row Permission)) (x : String)
    → AnyOf x (add_permission names o) ↔ (AnyOf x names ⊎ LoadedName x o)
unfolding add_permission
add_permission-AnyOf names none x = ground arith
add_permission-AnyOf names (some p) x =
    ground (arith, eq_iff p.fields.name "", add_name-AnyOf names p.fields.name x)

add_role-AnyOf :
    (names : List String) (rps : List LoadedRolePermission) (x : String)
    → AnyOf x (add_role names rps)
      ↔ (AnyOf x names ⊎ AnySuch (λ (rp : LoadedRolePermission). LoadedName x rp.permission) rps)
unfolding add_role
add_role-AnyOf names [] x = ground arith
add_role-AnyOf names (rp ∷ rps) x = ground (
  arith,
  add_permission-AnyOf names rp.permission x,
  add_role-AnyOf (add_permission names rp.permission) rps x,
)

pub add_roles-AnyOf :
    (names : List String) (roles : List (Option LoadedRole)) (result : List String) (x : String)
    → add_roles names roles ≡ ok result
    → AnyOf x result ↔ (AnyOf x names ⊎ AnySuch (LoadedGrants x) roles)
unfolding add_roles
add_roles-AnyOf names [] result x e = rw (← ok_injective names result e) (ground arith)
add_roles-AnyOf names (none ∷ roles) result x e = cc
add_roles-AnyOf names (some role ∷ roles) result x e = ground (
  arith,
  add_role-AnyOf names role.role_permissions x,
  add_roles-AnyOf (add_role names role.role_permissions) roles result x e,
)
