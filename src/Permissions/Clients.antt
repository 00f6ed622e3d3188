-- ===== src/Permissions/Clients.antt =====
-- What a client may do: the part of permissions/services/permission.service.ts on clients, with its
-- cache. The two queries of a `Promise.all` are run in turn.
use Prim.Native.String.{◌++◌}
pub mod Assignments
pub mod Loads
pub mod Keys
pub mod Coherence
pub mod Union
pub mod Answers
pub mod Decision
pub mod Rows
pub mod Invalidation
pub mod Preserved
pub mod RolesPreserved
pub mod Calls
pub mod Loses
use api_payment.Common.{
  String, Bool, true, false, Option, none, some, List, [], ◌∷◌, ◌++◌ as append, ◌&&◌,
  str_eq as ◌==◌, if◌then◌else◌, truthy_text, is_some,
}
use api_payment.Common.Exec.{Result, ok, throw, type_error, Exec, pure, raise, lift, ◌>>=◌, ◌>>◌}
use api_payment.Common.Lists.{includes}
use api_payment.Platform.{Row}
use api_payment.Permissions.Name.{check_permission_hierarchy}
use api_payment.Permissions.Entities.{
  Permission, Role, RolePermission, ClientRole, ClientPermission, LoadedRole, LoadedRolePermission,
}
use api_payment.Permissions.Store.{
  Environment, Store, query, query_one, find, find_one, permission_repository, role_repository,
  role_permission_repository, client_role_repository, client_permission_repository, and_then,
  query_each,
}
use api_payment.Permissions.Cache.{cache_get, cache_set, cache_del}

-- `RedisKeyPrefixes`
abbrev pub client_permissions_key : String → String
client_permissions_key client_id = "client_permissions:" ++ client_id

abbrev pub client_direct_permissions_key : String → String
client_direct_permissions_key client_id = "client_direct_permissions:" ++ client_id

abbrev pub client_roles_key : String → String
client_roles_key client_id = "client_roles:" ++ client_id

-- `.map((cp) => cp.permission?.name).filter((name) => !!name)`
unfoldable pub names_of : List (Option (Row Permission)) → List String
names_of [] = []
names_of (none ∷ ps) = names_of ps
names_of (some p ∷ ps) =
    let rest = names_of ps in elim (truthy_text p.fields.name) [ none ↦ rest | some n ↦ n ∷ rest ]

-- `set.add(name)`
unfoldable pub add_name : List String → String → List String
add_name names name = if includes names name then names else append names (name ∷ [])

-- `new Set(names)`, behind those that the set holds
unfoldable pub add_all : List String → List String → List String
unfolding add_name
add_all names [] = names
add_all names (n ∷ ns) = add_all (add_name names n) ns

-- `if (rp.permission?.name) set.add(rp.permission.name)`
unfoldable pub add_permission : List String → Option (Row Permission) → List String
unfolding add_name
add_permission names none = names
add_permission names (some p) = elim (truthy_text p.fields.name) [
  | none ↦ names
  | some n ↦ add_name names n
]

unfoldable pub add_role : List String → List LoadedRolePermission → List String
unfolding add_permission
add_role names [] = names
add_role names (rp ∷ rps) = add_role (add_permission names rp.permission) rps

-- The loop over the roles; a role that is null has no `rolePermissions` to read.
unfoldable pub add_roles : List String → List (Option LoadedRole) → Result (List String)
unfolding add_role
add_roles names [] = ok names
add_roles names (none ∷ roles) = throw type_error
add_roles names (some role ∷ roles) = add_roles (add_role names role.role_permissions) roles

-- `if (permissionNames.length === 0) return false`, and the hierarchy
unfoldable pub grants_name : List String → String → Bool
grants_name [] permission_name = false
grants_name (n ∷ ns) permission_name = check_permission_hierarchy (n ∷ ns) permission_name

module _ (v : Environment) where
  -- The relation `permission` of a row
  unfoldable pub load_permission : String → Store v → Result (Option (Row Permission))
  load_permission permission_id = query_one v (permission_repository v) λ p. p.id == permission_id

  unfoldable pub load_role_permission : Store v → Row RolePermission → Result LoadedRolePermission
  unfolding load_permission
  load_role_permission s rp =
      and_then (load_permission rp.fields.permission_id s)
        λ p. ok (record { row = rp; permission = p })

  -- The relation `role`, with `role.rolePermissions` and `role.rolePermissions.permission`
  unfoldable pub load_found_role : Store v → Option (Row Role) → Result (Option LoadedRole)
  unfolding load_role_permission query_each
  load_found_role s none = ok none
  load_found_role s (some role) =
      and_then (query v (role_permission_repository v) (λ rp. rp.fields.role_id == role.id) s)
        λ rps.
          and_then (query_each (load_role_permission s) rps)
            λ loaded. ok (some (record { row = role; role_permissions = loaded }))

  load_role : Store v → Row ClientRole → Result (Option LoadedRole)
  unfolding load_found_role
  load_role s cr =
      and_then (query_one v (role_repository v) (λ role. role.id == cr.fields.role_id) s)
        (load_found_role s)

  pub load_roles : String → Store v → Result (List (Option LoadedRole))
  unfolding load_role query_each
  load_roles client_id s =
      and_then (query v (client_role_repository v) (λ cr. cr.fields.client_id == client_id) s)
        (query_each (load_role s))

  pub load_direct : String → Store v → Result (List String)
  unfolding load_permission query_each names_of
  load_direct client_id s =
      and_then (query v (client_permission_repository v) (λ cp. cp.fields.client_id == client_id) s)
        λ rows.
          and_then
            (query_each (λ (cp : Row ClientPermission). load_permission cp.fields.permission_id s)
              rows)
            λ ps. ok (names_of ps)

  unfoldable pub get_client_roles : String → Exec (Store v) (List (Option LoadedRole))
  unfolding load_roles
  get_client_roles client_id = do
    cached ← cache_get v v.roles_json (client_roles_key client_id)
    elim cached [
      | some roles ↦ pure roles
      | none ↦ do
        roles ← λ s. (load_roles client_id s, s)
        cache_set v v.roles_json (client_roles_key client_id) roles
        pure roles
    ]

  unfoldable pub get_client_direct_permissions : String → Exec (Store v) (List String)
  unfolding load_direct
  get_client_direct_permissions client_id = do
    cached ← cache_get v v.names_json (client_direct_permissions_key client_id)
    elim cached [
      | some names ↦ pure names
      | none ↦ do
        result ← λ s. (load_direct client_id s, s)
        cache_set v v.names_json (client_direct_permissions_key client_id) result
        pure result
    ]

  unfoldable pub set_effective : String → List String → Exec (Store v) (List String)
  set_effective client_id result = do
    cache_set v v.names_json (client_permissions_key client_id) result
    pure result

  unfoldable pub get_client_effective_permissions : String → Exec (Store v) (List String)
  get_client_effective_permissions client_id = do
    cached ← cache_get v v.names_json (client_permissions_key client_id)
    elim cached [
      | some names ↦ pure names
      | none ↦ do
        direct_permissions ← get_client_direct_permissions client_id
        roles ← get_client_roles client_id
        result ← lift (add_roles (add_all [] direct_permissions) roles)
        set_effective client_id result
    ]

  unfoldable pub client_has_permission : (client_id permission_name : String) → Exec (Store v) Bool
  unfolding grants_name
  client_has_permission client_id permission_name = do
    permission_names ← get_client_effective_permissions client_id
    pure (grants_name permission_names permission_name)

  has_client_role : String → Option (Row Role) → Exec (Store v) Bool
  has_client_role client_id none = pure false
  has_client_role client_id (some role) = do
    client_role ←
        find_one v (client_role_repository v)
          λ cr. cr.fields.client_id == client_id && cr.fields.role_id == role.id
    pure (is_some client_role)

  unfoldable pub client_has_role : (client_id role_name : String) → Exec (Store v) Bool
  unfolding has_client_role
  client_has_role client_id role_name = do
    role ← find_one v (role_repository v) λ role. role.fields.name == role_name
    has_client_role client_id role
