-- ===== src/Permissions/Clients/Assignments.antt =====
-- The part of permissions/services/permission.service.ts that gives roles and permissions to clients
-- and takes them away.
use Prim.Native.String.{◌++◌}
use api_payment.Common.{String, Bool, not, Option, none, some, List, [], ◌∷◌, ◌&&◌, str_eq as ◌==◌}
use api_payment.Common.Exec.{Exec, pure, raise, ◌>>=◌, ◌>>◌, for_each}
use api_payment.Common.Lists.{includes, filter}
use api_payment.Platform.{Row}
use api_payment.Permissions.Entities.{Permission, ClientRole, ClientPermission}
use api_payment.Permissions.Store.{
  Environment, Store, find, find_one, insert, remove_all, permission_repository,
  client_role_repository, client_permission_repository,
}
use api_payment.Permissions.Cache.{cache_del}
use api_payment.Permissions.Finder.{permission_not_found}
use api_payment.Permissions.Clients.{
  client_permissions_key, client_direct_permissions_key, client_roles_key,
}

-- `names.join(', ')`
unfoldable pub join : List String → String
join [] = ""
join (n ∷ []) = n
join (n ∷ m ∷ ns) = n ++ (", " ++ join (m ∷ ns))

unfoldable pub names_in : List (Row Permission) → List String
names_in [] = []
names_in (p ∷ ps) = p.fields.name ∷ names_in ps

-- `permissionNames.filter((name) => !existingNames.has(name))`
unfoldable pub missing_names : List String → List (Row Permission) → List String
unfolding names_in
missing_names permission_names existing_permissions =
    filter (λ name. not (includes (names_in existing_permissions) name)) permission_names

unfoldable pub missing_message : List String → String
unfolding join
missing_message names =
    "Permissions not found: "
    ++ (join names
        ++ ". Please create these permissions first by running the seeds (npm run seed) or create them manually.")

module _ (v : Environment) where
  unfoldable pub invalidate_client_cache : String → Exec (Store v) (Unit {0})
  unfolding cache_del
  invalidate_client_cache client_id = do
    cache_del v (client_permissions_key client_id)
    cache_del v (client_direct_permissions_key client_id)
    cache_del v (client_roles_key client_id)

  unfoldable pub has_role : (client_id role_id : String) → Row ClientRole → Bool
  has_role client_id role_id cr = cr.fields.client_id == client_id && cr.fields.role_id == role_id

  unfoldable pub has_permission_id :
      (client_id permission_id : String) → Row ClientPermission → Bool
  has_permission_id client_id permission_id cp =
      cp.fields.client_id == client_id && cp.fields.permission_id == permission_id

  unfoldable pub save_client_role :
      (client_id role_id : String) → Option (Row ClientRole) → Exec (Store v) (Unit {0})
  unfolding invalidate_client_cache
  save_client_role client_id role_id (some existing) = pure tt
  save_client_role client_id role_id none = do
    invalidate_client_cache client_id
    insert v (client_role_repository v)
        (record { client_id = client_id; role_id = role_id; deleted_at = none })
    pure tt

  unfoldable pub assign_role_to_client : (client_id role_id : String) → Exec (Store v) (Unit {0})
  unfolding save_client_role has_role
  assign_role_to_client client_id role_id = do
    existing_client_role ← find_one v (client_role_repository v) (has_role client_id role_id)
    save_client_role client_id role_id existing_client_role

  unfoldable pub remove_client_role : String → Option (Row ClientRole) → Exec (Store v) (Unit {0})
  unfolding invalidate_client_cache
  remove_client_role client_id none = pure tt
  remove_client_role client_id (some client_role) = do
    invalidate_client_cache client_id
    remove_all v (client_role_repository v) (client_role ∷ [])

  unfoldable pub remove_role_from_client : (client_id role_id : String) → Exec (Store v) (Unit {0})
  unfolding remove_client_role has_role
  remove_role_from_client client_id role_id = do
    client_role ← find_one v (client_role_repository v) (has_role client_id role_id)
    remove_client_role client_id client_role

  unfoldable pub save_client_permission :
      (client_id permission_id : String) → Option (Row ClientPermission) → Exec (Store v) (Unit {0})
  save_client_permission client_id permission_id (some existing) = pure tt
  save_client_permission client_id permission_id none = do
    insert v (client_permission_repository v)
        (record { client_id = client_id; permission_id = permission_id; deleted_at = none })
    pure tt

  unfoldable pub assign_found :
      (client_id permission_name : String) → Option (Row Permission) → Exec (Store v) (Unit {0})
  unfolding save_client_permission has_permission_id
  assign_found client_id permission_name none =
      raise (permission_not_found 404 ("Permission not found: " ++ permission_name))
  assign_found client_id permission_name (some permission) = do
    existing_client_permission ←
        find_one v (client_permission_repository v) (has_permission_id client_id permission.id)
    save_client_permission client_id permission.id existing_client_permission

  -- `_assignPermissionToClient`
  unfoldable pub assign_permission :
      (client_id permission_name : String) → Exec (Store v) (Unit {0})
  unfolding assign_found
  assign_permission client_id permission_name = do
    permission ← find_one v (permission_repository v) (λ p. p.fields.name == permission_name)
    assign_found client_id permission_name permission

  unfoldable pub assign_permission_to_client :
      (client_id permission_name : String) → Exec (Store v) (Unit {0})
  unfolding invalidate_client_cache assign_permission
  assign_permission_to_client client_id permission_name = do
    invalidate_client_cache client_id
    assign_permission client_id permission_name

  unfoldable pub remove_client_permission :
      Option (Row ClientPermission) → Exec (Store v) (Unit {0})
  remove_client_permission none = pure tt
  remove_client_permission (some client_permission) =
      remove_all v (client_permission_repository v) (client_permission ∷ [])

  unfoldable pub remove_found : String → Option (Row Permission) → Exec (Store v) (Unit {0})
  unfolding remove_client_permission has_permission_id
  remove_found client_id none = pure tt
  remove_found client_id (some permission) = do
    client_permission ←
        find_one v (client_permission_repository v) (has_permission_id client_id permission.id)
    remove_client_permission client_permission

  unfoldable pub remove_permission_from_client :
      (client_id permission_name : String) → Exec (Store v) (Unit {0})
  unfolding invalidate_client_cache remove_found
  remove_permission_from_client client_id permission_name = do
    invalidate_client_cache client_id
    permission ← find_one v (permission_repository v) (λ p. p.fields.name == permission_name)
    remove_found client_id permission

  unfoldable pub refuse_missing : List String → Exec (Store v) (Unit {0})
  refuse_missing [] = pure tt
  refuse_missing (n ∷ ns) = raise (permission_not_found 400 (missing_message (n ∷ ns)))

  unfoldable pub validate_permissions_exist : List String → Exec (Store v) (Unit {0})
  unfolding refuse_missing missing_names
  validate_permissions_exist [] = pure tt
  validate_permissions_exist (n ∷ ns) = do
    existing_permissions ← find v (permission_repository v) (λ p. includes (n ∷ ns) p.fields.name)
    refuse_missing (missing_names (n ∷ ns) existing_permissions)

  unfoldable pub assign_permissions_to_client :
      (client_id : String) (permission_names : List String) → Exec (Store v) (Unit {0})
  unfolding validate_permissions_exist assign_permission_to_client for_each
  assign_permissions_to_client client_id permission_names = do
    validate_permissions_exist permission_names
    for_each (assign_permission_to_client client_id) permission_names

  unfoldable pub remove_permissions_from_client :
      (client_id : String) (permission_names : List String) → Exec (Store v) (Unit {0})
  unfolding remove_permission_from_client for_each
  remove_permissions_from_client client_id = for_each (remove_permission_from_client client_id)

  unfoldable pub remove_current : List (Row ClientPermission) → Exec (Store v) (Unit {0})
  remove_current [] = pure tt
  remove_current (cp ∷ cps) = remove_all v (client_permission_repository v) (cp ∷ cps)

  unfoldable pub update_client_permissions :
      (client_id : String) (permission_names : List String) → Exec (Store v) (Unit {0})
  unfolding invalidate_client_cache remove_current assign_permissions_to_client
  update_client_permissions client_id permission_names = do
    invalidate_client_cache client_id
    current_client_permissions ←
        find v (client_permission_repository v) (λ cp. cp.fields.client_id == client_id)
    remove_current current_client_permissions
    assign_permissions_to_client client_id permission_names
