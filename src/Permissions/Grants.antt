-- ===== src/Permissions/Grants.antt =====
-- What a client is granted, read off the tables, without the cache: directly, or by a role.
use api_payment.Common.{String, ◌≡◌, ◌≢◌, ◌⊎◌, true, Option, none, some}
use api_payment.Common.Lists.{AnySuch}
use api_payment.Platform.{Row}
use api_payment.Platform.Manager.{IsFaithful}
use api_payment.Platform.Redis.{IsRedis, IsJson}
use api_payment.Permissions.Entities.{
  Permission, Role, RolePermission, ClientRole, ClientPermission, LoadedRole, LoadedRolePermission,
}
use api_payment.Permissions.Store.{
  Environment, Store, Repository, is_live, permission_repository, role_repository,
  role_permission_repository, client_role_repository, client_permission_repository,
}

-- What is documented of the outside.
pub record IsSound (v : Environment) : Type 1 where
  pub manager : IsFaithful v.manager
  pub redis : IsRedis v.redis
  pub names_json : IsJson v.names_json
  pub roles_json : IsJson v.roles_json

-- The name is the permission's; an empty one is dropped.
abbrev pub HasName : String → Row Permission → Type 0
HasName name p = (p.fields.name ≡ name) × (name ≢ "")

module _ (v : Environment) (w : IsSound v) where
  -- A row of the table without a date of deletion.
  abbrev pub Lives : {E : Type 0} → Repository v E → Store v → Row E → Type 0
  Lives {E} r s row = w.manager.Holds E (r.table s) row × (is_live v r row ≡ true)

  -- The permission of this id has this name.
  abbrev pub Named : Store v → (permission_id name : String) → Type 0
  Named s permission_id name =
      (p : Row Permission) × Lives (permission_repository v) s p
      × (p.id ≡ permission_id)
      × HasName name p

  abbrev pub DirectlyGranted : Store v → (client_id name : String) → Type 0
  DirectlyGranted s client_id name =
      (cp : Row ClientPermission) × Lives (client_permission_repository v) s cp
      × (cp.fields.client_id ≡ client_id)
      × Named s cp.fields.permission_id name

  abbrev pub RoleGrants : Store v → Row Role → String → Type 0
  RoleGrants s role name =
      (rp : Row RolePermission) × Lives (role_permission_repository v) s rp
      × (rp.fields.role_id ≡ role.id)
      × Named s rp.fields.permission_id name

  abbrev pub RoleOf : Store v → (role_id name : String) → Type 0
  RoleOf s role_id name =
      (role : Row Role) × Lives (role_repository v) s role
      × (role.id ≡ role_id)
      × RoleGrants s role name

  abbrev pub GrantedByRole : Store v → (client_id name : String) → Type 0
  GrantedByRole s client_id name =
      (cr : Row ClientRole) × Lives (client_role_repository v) s cr
      × (cr.fields.client_id ≡ client_id)
      × RoleOf s cr.fields.role_id name

  abbrev pub Granted : Store v → (client_id name : String) → Type 0
  Granted s client_id name = DirectlyGranted s client_id name ⊎ GrantedByRole s client_id name

-- What loaded values grant.
abbrev pub LoadedName : String → Option (Row Permission) → Type 0
LoadedName name none = ⊥
LoadedName name (some p) = HasName name p

abbrev pub LoadedGrants : String → Option LoadedRole → Type 0
LoadedGrants name none = ⊥
LoadedGrants name (some role) =
    AnySuch (λ (rp : LoadedRolePermission). LoadedName name rp.permission) role.role_permissions
