-- ===== src/Permissions/Store.antt =====
-- What the services of permissions read and write: five tables and the cache. A find leaves out the
-- rows with a date in the column of `@DeleteDateColumn`.
use api_payment.Common.{String, Bool, not, ◌&&◌, Option, List, [], ◌∷◌, is_some}
use api_payment.Common.Exec.{Exception, Result, ok, throw, Exec}
use api_payment.Platform.{Row}
use api_payment.Platform.Manager.{EntityManager}
use api_payment.Platform.Redis.{Redis, Json}
use api_payment.Permissions.Entities.{
  Permission, Role, RolePermission, ClientRole, ClientPermission, LoadedRole,
}

-- What comes from outside. `now` is the date of `getCurrentDate()`, and `error_message` is
-- `error?.message` of what a `catch` caught. A role that a `ClientRole` names may be missing.
pub record Environment : Type 1 where
  pub manager : EntityManager
  pub redis : Redis
  pub names_json : Json (List String)
  pub roles_json : Json (List (Option LoadedRole))
  pub now : String
  pub error_message : Exception → Option String

pub record Store (v : Environment) : Type 0 where
  pub permissions : v.manager.Table Permission
  pub roles : v.manager.Table Role
  pub role_permissions : v.manager.Table RolePermission
  pub client_roles : v.manager.Table ClientRole
  pub client_permissions : v.manager.Table ClientPermission
  pub cache : v.redis.Cache

pub record Repository (v : Environment) (E : Type 0) : Type 0 where
  pub table : Store v → v.manager.Table E
  pub with_table : v.manager.Table E → Store v → Store v
  pub deleted_at : E → Option String

module _ (v : Environment) {E : Type 0} (r : Repository v E) where
  abbrev pub is_live : Row E → Bool
  is_live row = not (is_some (r.deleted_at row.fields))

  -- A query that writes nothing: what it answers.
  abbrev pub query : (Row E → Bool) → Store v → Result (List (Row E))
  query p s = v.manager.find E (λ row. is_live row && p row) (r.table s)

  abbrev pub query_one : (Row E → Bool) → Store v → Result (Option (Row E))
  query_one p s = v.manager.find_one E (λ row. is_live row && p row) (r.table s)

  abbrev pub find : (Row E → Bool) → Exec (Store v) (List (Row E))
  find p s = (query p s, s)

  abbrev pub find_one : (Row E → Bool) → Exec (Store v) (Option (Row E))
  find_one p s = (query_one p s, s)

  abbrev pub insert : E → Exec (Store v) (Row E)
  insert e s =
      ((v.manager.insert E e (r.table s)).0, r.with_table (v.manager.insert E e (r.table s)).1 s)

  abbrev pub insert_all : List E → Exec (Store v) (List (Row E))
  insert_all es s = (
    (v.manager.insert_all E es (r.table s)).0,
    r.with_table (v.manager.insert_all E es (r.table s)).1 s,
  )

  abbrev pub update_all : List (Row E) → Exec (Store v) (List (Row E))
  update_all rows s = (
    (v.manager.update_all E rows (r.table s)).0,
    r.with_table (v.manager.update_all E rows (r.table s)).1 s,
  )

  abbrev pub remove_all : List (Row E) → Exec (Store v) (Unit {0})
  remove_all rows s = (
    (v.manager.remove_all E rows (r.table s)).0,
    r.with_table (v.manager.remove_all E rows (r.table s)).1 s,
  )

module _ (v : Environment) where
  abbrev pub permission_repository : Repository v Permission
  permission_repository = record {
    table = λ s. s.permissions;
    with_table = λ t s. record s { permissions = t };
    deleted_at = λ p. p.deleted_at;
  }

  abbrev pub role_repository : Repository v Role
  role_repository = record {
    table = λ s. s.roles;
    with_table = λ t s. record s { roles = t };
    deleted_at = λ p. p.deleted_at;
  }

  abbrev pub role_permission_repository : Repository v RolePermission
  role_permission_repository = record {
    table = λ s. s.role_permissions;
    with_table = λ t s. record s { role_permissions = t };
    deleted_at = λ p. p.deleted_at;
  }

  abbrev pub client_role_repository : Repository v ClientRole
  client_role_repository = record {
    table = λ s. s.client_roles;
    with_table = λ t s. record s { client_roles = t };
    deleted_at = λ p. p.deleted_at;
  }

  abbrev pub client_permission_repository : Repository v ClientPermission
  client_permission_repository = record {
    table = λ s. s.client_permissions;
    with_table = λ t s. record s { client_permissions = t };
    deleted_at = λ p. p.deleted_at;
  }

-- A query for each of several rows, such as the load of a relation.
module _ {A B : Type 0} where
  abbrev pub and_then : Result A → (A → Result B) → Result B
  and_then (ok a) f = f a
  and_then (throw x) f = throw x

module _ {A B : Type 0} (f : A → Result B) where
  unfoldable pub query_each : List A → Result (List B)
  query_each [] = ok []
  query_each (a ∷ as') = and_then (f a) λ b. and_then (query_each as') λ bs. ok (b ∷ bs)
