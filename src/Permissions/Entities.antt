-- ===== src/Permissions/Entities.antt =====
-- permissions/entities. A relation to one is the column of its id; a relation to many is loaded where
-- it is asked for.
use api_payment.Common.{String, Option, List}
use api_payment.Platform.{Row}

pub record Permission : Type 0 where
  pub name : String
  -- `module` in the source
  pub module_name : String
  pub action : String
  pub description : Option String
  pub deleted_at : Option String

pub record Role : Type 0 where
  pub name : String
  pub description : Option String
  pub deleted_at : Option String

pub record RolePermission : Type 0 where
  pub role_id : String
  pub permission_id : String
  pub deleted_at : Option String

pub record ClientRole : Type 0 where
  pub client_id : String
  pub role_id : String
  pub deleted_at : Option String

pub record ClientPermission : Type 0 where
  pub client_id : String
  pub permission_id : String
  pub deleted_at : Option String

-- A `RolePermission` with its relation `permission`.
pub record LoadedRolePermission : Type 0 where
  pub row : Row RolePermission
  pub permission : Option (Row Permission)

-- A `Role` with its relation `rolePermissions`.
pub record LoadedRole : Type 0 where
  pub row : Row Role
  pub role_permissions : List LoadedRolePermission
