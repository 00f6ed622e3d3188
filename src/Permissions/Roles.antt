-- ===== src/Permissions/Roles.antt =====
-- permissions/services/role.service.ts.
pub mod Stale
pub mod Changes
pub mod Assigned
pub mod Sets
pub mod Updated
use api_payment.Common.{
  String, Bool, true, false, not, Option, none, some, List, [], ◌∷◌, str_eq as ◌==◌, ◌&&◌, ◌||◌,
  if◌then◌else◌, is_some, truthy, defined_or,
}
use api_payment.Common.Exec.{
  Exception, Result, ok, throw, custom_http, type_error, Exec, pure, raise, lift, ◌>>=◌, ◌>>◌,
}
use api_payment.Common.Lists.{filter, includes}
use api_payment.Platform.{Row}
use api_payment.Permissions.Entities.{
  Permission, Role, RolePermission, LoadedRole, LoadedRolePermission,
}
use api_payment.Permissions.Store.{
  Environment, Store, and_then, find_one, insert, insert_all, update_all, remove_all,
  role_repository, role_permission_repository,
}
use api_payment.Permissions.Finder.{find_permissions}
use api_payment.Permissions.Clients.{load_found_role}
use api_payment.Permissions.Crud.{feature_not_available}

pub record CreateRoleDto : Type 0 where
  pub name : String
  pub description : Option String
  pub permission_ids : Option (List String)
  pub permission_names : Option (List String)

pub record UpdateRoleDto : Type 0 where
  pub name : Option String
  pub description : Option String
  pub permission_ids : Option (List String)
  pub permission_names : Option (List String)

abbrev pub role_not_found : Exception
role_not_found = custom_http 404 "ROLE_NOT_FOUND" "Role not found."

abbrev pub role_already_exists : (message : String) → Exception
role_already_exists = custom_http 409 "ROLE_ALREADY_EXISTS"

unfoldable pub row_ids : List (Row Permission) → List String
row_ids [] = []
row_ids (p ∷ ps) = p.id ∷ row_ids ps

-- `rolePermissions.filter((rp) => !rp.deletedAt)`
unfoldable pub active : List LoadedRolePermission → List LoadedRolePermission
active = filter (λ rp. not (is_some (truthy rp.row.fields.deleted_at)))

-- `rp.permission.id` of each; a permission that is null has no id to read.
unfoldable pub permission_ids_of : List LoadedRolePermission → Result (List String)
permission_ids_of [] = ok []
permission_ids_of (rp ∷ rps) = elim rp.permission [
  | none ↦ throw type_error
  | some p ↦ and_then (permission_ids_of rps) λ ids. ok (p.id ∷ ids)
]

-- The rows whose permission is not wanted, with their date of deletion
unfoldable pub to_delete :
    String → List String → List LoadedRolePermission → List (Row RolePermission)
to_delete now wanted [] = []
to_delete now wanted (rp ∷ rps) =
    let rest = to_delete now wanted rps in
    let gone : Row RolePermission = record {
      id = rp.row.id;
      fields = record rp.row.fields { deleted_at = some now };
    } in
    elim rp.permission [ none ↦ rest | some p ↦ if includes wanted p.id then rest else gone ∷ rest ]

-- A row for each permission that the role does not have
unfoldable pub to_create :
    (role_id : String) → List String → List (Row Permission) → List RolePermission
to_create role_id existing [] = []
to_create role_id existing (p ∷ ps) =
    let rest = to_create role_id existing ps in
    if includes existing p.id
    then rest
    else record { role_id = role_id; permission_id = p.id; deleted_at = none } ∷ rest

unfoldable pub described : Option String → Row Role → Row Role
described description role = record role {
  fields = record role.fields { description = defined_or description role.fields.description };
}

module _ (v : Environment) where
  unfoldable pub if_role :
      {A : Type 0} → Option (Row Role) → (Row Role → Exec (Store v) A) → Exec (Store v) A
  if_role none f = raise role_not_found
  if_role (some role) f = f role

  unfoldable pub if_loaded :
      {A : Type 0} → Option LoadedRole → (LoadedRole → Exec (Store v) A) → Exec (Store v) A
  if_loaded none f = raise role_not_found
  if_loaded (some role) f = f role

  -- `findOne({ where: { id }, relations: { rolePermissions: { permission: true } } })`
  unfoldable pub find_role : String → Exec (Store v) (Option LoadedRole)
  unfolding load_found_role
  find_role role_id = do
    role ← find_one v (role_repository v) (λ role. role.id == role_id)
    λ s. (load_found_role v s role, s)

  unfoldable pub get_role_by_id : String → Exec (Store v) LoadedRole
  unfolding find_role if_loaded
  get_role_by_id role_id = do role ← find_role role_id; if_loaded role pure

  unfoldable pub save_deleted : List (Row RolePermission) → Exec (Store v) (Unit {0})
  save_deleted [] = pure tt
  save_deleted (r ∷ rs) = do update_all v (role_permission_repository v) (r ∷ rs); pure tt

  unfoldable pub save_created : List RolePermission → Exec (Store v) (Unit {0})
  save_created [] = pure tt
  save_created (r ∷ rs) = do insert_all v (role_permission_repository v) (r ∷ rs); pure tt

  unfoldable pub save_role : CreateRoleDto → Option (Row Role) → Exec (Store v) LoadedRole
  unfolding get_role_by_id to_create save_created
  save_role dto (some existing) = raise (role_already_exists "Role already exists.")
  save_role dto none = do
    permissions ← find_permissions v dto.permission_names dto.permission_ids
    role ←
        insert v (role_repository v)
          (record { name = dto.name; description = dto.description; deleted_at = none })
    save_created (to_create role.id [] permissions)
    get_role_by_id role.id

  unfoldable pub create_role : CreateRoleDto → Exec (Store v) LoadedRole
  unfolding save_role
  create_role dto = do
    existing_role ← find_one v (role_repository v) (λ role. role.fields.name == dto.name)
    save_role dto existing_role

  unfoldable pub replace_permissions :
      LoadedRole → List (Row Permission) → Exec (Store v) (Unit {0})
  unfolding active permission_ids_of to_delete to_create row_ids save_deleted save_created
  replace_permissions role permissions = do
    existing ← lift (permission_ids_of (active role.role_permissions))
    save_deleted (to_delete v.now (row_ids permissions) (active role.role_permissions))
    save_created (to_create role.row.id existing permissions)

  unfoldable pub update_role_permissions :
      (role_id : String) (names ids : Option (List String)) → Exec (Store v) LoadedRole
  unfolding find_role if_loaded get_role_by_id replace_permissions
  update_role_permissions role_id names ids = do
    role ← find_role role_id
    if_loaded role λ role. do
      permissions ← find_permissions v names ids
      replace_permissions role permissions
      get_role_by_id role_id

  -- `existingRole && existingRole.id !== roleId`
  unfoldable pub refuse_other : String → Option (Row Role) → Exec (Store v) (Unit {0})
  refuse_other role_id none = pure tt
  refuse_other role_id (some existing) =
      if existing.id == role_id
      then pure tt
      else raise (role_already_exists "Role name already exists.")

  unfoldable pub rename : String → Option String → Row Role → Exec (Store v) (Row Role)
  unfolding refuse_other
  rename role_id none role = pure role
  rename role_id (some name) role = do
    existing_role ← find_one v (role_repository v) (λ r. r.fields.name == name)
    refuse_other role_id existing_role
    pure (record role { fields = record role.fields { name = name } })

  unfoldable pub update_role : (role_id : String) → UpdateRoleDto → Exec (Store v) LoadedRole
  unfolding if_role rename described get_role_by_id update_role_permissions
  update_role role_id dto = do
    role ← find_one v (role_repository v) (λ role. role.id == role_id)
    if_role role λ role. do
      renamed ← rename role_id (truthy dto.name) role
      update_all v (role_repository v) (described dto.description renamed ∷ [])
      if is_some dto.permission_names || is_some dto.permission_ids
          then update_role_permissions role_id dto.permission_names dto.permission_ids
          else get_role_by_id role_id

  unfoldable pub delete_role : String → Exec (Store v) (Unit {0})
  unfolding if_role
  delete_role role_id = do
    role ← find_one v (role_repository v) (λ role. role.id == role_id)
    if_role role λ role. remove_all v (role_repository v) (role ∷ [])

  unfoldable pub assign_role_to_user : (user_id role_id : String) → Exec (Store v) (Unit {0})
  assign_role_to_user user_id role_id = raise feature_not_available

  unfoldable pub remove_role_from_user : (user_id role_id : String) → Exec (Store v) (Unit {0})
  remove_role_from_user user_id role_id = pure tt

  -- `RoleService.getUserRoles`
  unfoldable pub roles_of_user : String → Exec (Store v) (List (Row Role))
  roles_of_user user_id = pure []
