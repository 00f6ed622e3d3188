-- ===== src/Permissions/Crud.antt =====
-- The part of permissions/services/permission.service.ts on permissions themselves and on users, who
-- have none yet.
pub mod Unique
use Prim.Native.String.{◌++◌}
use api_payment.Common.{
  String, Bool, true, false, Option, none, some, List, [], ◌∷◌, ◌++◌ as append, str_eq as ◌==◌,
  ◌||◌, ◌&&◌, truthy, or_text, defined_or,
}
use api_payment.Common.Exec.{
  Exception, Result, ok, throw, custom_http, Exec, pure, raise, ◌>>=◌, ◌>>◌,
}
use api_payment.Platform.{Row}
use api_payment.Permissions.Name.{permission_name, check_permission_hierarchy}
use api_payment.Permissions.Entities.{Permission, Role, RolePermission}
use api_payment.Permissions.Store.{
  Environment, Store, find_one, insert, update_all, remove_all, query, query_one, query_each,
  and_then, permission_repository, role_repository, role_permission_repository,
}
use api_payment.Permissions.Cache.{cache_del}
use api_payment.Permissions.Finder.{permission_not_found}
use api_payment.Permissions.Clients.Assignments.{join}

pub record CreatePermissionDto : Type 0 where
  pub name : String
  -- `module` in the source
  pub module_name : String
  pub action : String
  pub description : Option String

pub record UpdatePermissionDto : Type 0 where
  pub name : Option String
  pub module_name : Option String
  pub action : Option String
  pub description : Option String

pub record CreateBulkPermissionsDto : Type 0 where
  pub module_name : String
  pub actions : List String
  pub description : Option String

-- A `Permission` with its relations `rolePermissions` and `rolePermissions.role`.
pub record LoadedPermission : Type 0 where
  pub row : Row Permission
  pub role_permissions : List (Row RolePermission × Option (Row Role))

-- What the loop of `createBulkPermissions` has gathered
pub record Bulk : Type 0 where
  pub created_permissions : List (Row Permission)
  pub existing_permissions : List String
  pub errors : List String

abbrev pub permission_already_exists : (message : String) → Exception
permission_already_exists = custom_http 409 "PERMISSION_ALREADY_EXISTS"

abbrev pub feature_not_available : Exception
feature_not_available =
    custom_http 501 "FEATURE_NOT_IMPLEMENTED" "Feature not available without User module"

-- The fields of the permission with those of the dto that are given
unfoldable pub updated_permission : UpdatePermissionDto → Permission → Permission
updated_permission dto p = record p {
  name = or_text dto.name p.name;
  module_name = or_text dto.module_name p.module_name;
  action = or_text dto.action p.action;
  description = defined_or dto.description p.description;
}

-- `permissions.some(…)` and `permissions.every(…)`
unfoldable pub some_granted : (user_permissions permissions : List String) → Bool
some_granted user_permissions [] = false
some_granted user_permissions (p ∷ ps) =
    check_permission_hierarchy user_permissions p || some_granted user_permissions ps

unfoldable pub every_granted : (user_permissions permissions : List String) → Bool
every_granted user_permissions [] = true
every_granted user_permissions (p ∷ ps) =
    check_permission_hierarchy user_permissions p && every_granted user_permissions ps

unfoldable pub bulk_permission : CreateBulkPermissionsDto → String → Permission
bulk_permission dto action = record {
  name = permission_name dto.module_name action;
  module_name = dto.module_name;
  action = action;
  description =
      some (or_text dto.description ("Permite " ++ (action ++ (" no módulo " ++ dto.module_name))));
  deleted_at = none;
}

module _ (v : Environment) where
  unfoldable pub if_permission :
      {A : Type 0}
      → Option (Row Permission)
      → (Row Permission → Exec (Store v) A)
      → Exec (Store v) A
  if_permission none f = raise (permission_not_found 404 "Permission not found.")
  if_permission (some p) f = f p

  unfoldable pub save_permission :
      CreatePermissionDto → Option (Row Permission) → Exec (Store v) (Row Permission)
  save_permission dto (some existing) =
      raise (permission_already_exists "Permission already exists.")
  save_permission dto none = insert v (permission_repository v) (record {
    name = dto.name;
    module_name = dto.module_name;
    action = dto.action;
    description = dto.description;
    deleted_at = none;
  })

  unfoldable pub create_permission : CreatePermissionDto → Exec (Store v) (Row Permission)
  unfolding save_permission
  create_permission dto = do
    existing_permission ← find_one v (permission_repository v) (λ p. p.fields.name == dto.name)
    save_permission dto existing_permission

  -- `catch (error)` around the save of one permission
  unfoldable pub saved : String → Bulk → Result (Row Permission) → Bulk
  saved name bulk (ok p) = record bulk {
    created_permissions = append bulk.created_permissions (p ∷ []);
  }
  saved name bulk (throw x) =
      let message = name ++ (": " ++ or_text (v.error_message x) "Unknown error") in
      record bulk { errors = append bulk.errors (message ∷ []) }

  unfoldable pub create_action :
      CreateBulkPermissionsDto → String → Bulk → Option (Row Permission) → Exec (Store v) Bulk
  unfolding saved bulk_permission
  create_action dto action bulk (some existing) = pure (record bulk {
    existing_permissions =
        append bulk.existing_permissions (permission_name dto.module_name action ∷ []);
  })
  create_action dto action bulk none = λ s.
      let x = insert v (permission_repository v) (bulk_permission dto action) s in
      (ok (saved (permission_name dto.module_name action) bulk x.0), x.1)

  unfoldable pub create_actions :
      CreateBulkPermissionsDto → List String → Bulk → Exec (Store v) Bulk
  unfolding create_action
  create_actions dto [] bulk = pure bulk
  create_actions dto (action ∷ actions) bulk = do
    existing_permission ←
        find_one v (permission_repository v)
          (λ p. p.fields.name == permission_name dto.module_name action)
    bulk' ← create_action dto action bulk existing_permission
    create_actions dto actions bulk'

  unfoldable pub refuse_existing :
      List (Row Permission) → List String → Exec (Store v) (List (Row Permission))
  unfolding join
  refuse_existing [] (n ∷ ns) =
      raise (permission_already_exists ("Todas as permissões já existem: " ++ join (n ∷ ns)))
  refuse_existing created _ = pure created

  unfoldable pub bulk_answer :
      List String → List (Row Permission) → List String → Exec (Store v) (List (Row Permission))
  unfolding refuse_existing
  bulk_answer (e ∷ es) created existing =
      raise (permission_not_found 400 ("Erro ao criar algumas permissões: " ++ join (e ∷ es)))
  bulk_answer [] created existing = refuse_existing created existing

  unfoldable pub create_bulk_permissions :
      CreateBulkPermissionsDto → Exec (Store v) (List (Row Permission))
  unfolding create_actions bulk_answer
  create_bulk_permissions dto = do
    bulk ←
        create_actions dto dto.actions
          (record { created_permissions = []; existing_permissions = []; errors = [] })
    bulk_answer bulk.errors bulk.created_permissions bulk.existing_permissions

  unfoldable pub update_permission :
      (id : String) → UpdatePermissionDto → Exec (Store v) (Row Permission)
  unfolding if_permission updated_permission
  update_permission id dto = do
    permission ← find_one v (permission_repository v) (λ p. p.id == id)
    if_permission permission λ p. do
      update_all v (permission_repository v)
          (record p { fields = updated_permission dto p.fields } ∷ [])
      pure (record p { fields = updated_permission dto p.fields })

  -- The relation `rolePermissions` of a permission, with its relation `role`
  unfoldable pub load_role_of :
      Store v → Row RolePermission → Result (Row RolePermission × Option (Row Role))
  load_role_of s rp =
      and_then (query_one v (role_repository v) (λ role. role.id == rp.fields.role_id) s)
        λ role. ok (rp, role)

  unfoldable pub load_roles_of :
      Row Permission → Store v → Result (List (Row RolePermission × Option (Row Role)))
  unfolding load_role_of query_each
  load_roles_of p s =
      and_then (query v (role_permission_repository v) (λ rp. rp.fields.permission_id == p.id) s)
        (query_each (load_role_of s))

  unfoldable pub get_permission_by_id : String → Exec (Store v) LoadedPermission
  unfolding if_permission load_roles_of
  get_permission_by_id id = do
    permission ← find_one v (permission_repository v) (λ p. p.id == id)
    if_permission permission λ p. do
      role_permissions ← λ s. (load_roles_of p s, s)
      pure (record { row = p; role_permissions = role_permissions })

  unfoldable pub delete_permission : String → Exec (Store v) (Unit {0})
  unfolding if_permission
  delete_permission id = do
    permission ← find_one v (permission_repository v) (λ p. p.id == id)
    if_permission permission λ p. remove_all v (permission_repository v) (p ∷ [])

  unfoldable pub get_user_permissions : String → Exec (Store v) (List String)
  get_user_permissions user_id = pure []

  unfoldable pub get_user_roles : String → Exec (Store v) (List String)
  get_user_roles user_id = pure []

  unfoldable pub has_permission : (user_id required : String) → Exec (Store v) Bool
  unfolding get_user_permissions
  has_permission user_id required = do
    user_permissions ← get_user_permissions user_id
    pure (check_permission_hierarchy user_permissions required)

  unfoldable pub has_any_permission : String → List String → Exec (Store v) Bool
  unfolding get_user_permissions some_granted
  has_any_permission user_id [] = pure false
  has_any_permission user_id (p ∷ ps) = do
    user_permissions ← get_user_permissions user_id
    pure (some_granted user_permissions (p ∷ ps))

  unfoldable pub has_all_permissions : String → List String → Exec (Store v) Bool
  unfolding get_user_permissions every_granted
  has_all_permissions user_id [] = pure true
  has_all_permissions user_id (p ∷ ps) = do
    user_permissions ← get_user_permissions user_id
    pure (every_granted user_permissions (p ∷ ps))

  unfoldable pub invalidate_user_cache : String → Exec (Store v) (Unit {0})
  unfolding cache_del
  invalidate_user_cache user_id = do
    cache_del v ("user_permissions:" ++ user_id)
    cache_del v ("user_roles:" ++ user_id)

  unfoldable pub assign_permission_to_user :
      (user_id permission_id : String) → Exec (Store v) (Unit {0})
  assign_permission_to_user user_id permission_id = raise feature_not_available

  unfoldable pub remove_permission_from_user :
      (user_id permission_id : String) → Exec (Store v) (Unit {0})
  remove_permission_from_user user_id permission_id = pure tt

  unfoldable pub get_user_direct_permissions : String → Exec (Store v) (List (Row Permission))
  get_user_direct_permissions user_id = pure []
