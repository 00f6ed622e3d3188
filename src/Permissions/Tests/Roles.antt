-- ===== src/Permissions/Tests/Roles.antt =====
-- A role whose permissions are replaced, on tables in memory.
use api_payment.Common.{String, ◌≡◌, ◌↔◌, refl, none, some, List, [], ◌∷◌}
use api_payment.Common.Exec.{ok}
use api_payment.Common.Lists.{AnyOf}
use api_payment.Platform.{Row}
use api_payment.Platform.Manager.InMemory.{
  without, rows, first, fresh_id, insert_row, then_insert, insert_rows,
}
use api_payment.Permissions.Entities.{Permission, LoadedRole}
use api_payment.Permissions.Store.{Store, query_each}
use api_payment.Permissions.Finder.{find_permissions}
use api_payment.Permissions.Clients.{load_found_role, load_role_permission, load_permission}
use api_payment.Permissions.Roles.{update_role_permissions, row_ids}
use api_payment.Permissions.Roles.Assigned.{RoleHas}
use api_payment.Permissions.Roles.Updated.{update_role_permissions-RoleHas}
use api_payment.Permissions.Tests.{environment, environment-IsSound, seeded}

-- A role with the permission `p1`
abbrev with_role : Store environment
with_role = record seeded {
  roles =
      record {
        id = "r1";
        fields = record { name = "Viewer"; description = none; deleted_at = none };
      }
      ∷ [];
  role_permissions =
      record {
        id = "a1";
        fields = record { role_id = "r1"; permission_id = "p1"; deleted_at = none };
      }
      ∷ [];
}

answered :
    (answer : LoadedRole) × ((update_role_permissions environment "r1"
        (some ("webhook:read" ∷ []))
        none
        with_role).0
      ≡ ok answer)
unfolding update_role_permissions find_permissions load_found_role load_role_permission
    load_permission query_each rows without first fresh_id insert_row then_insert insert_rows
answered = (_, refl)

update_role_permissions-RoleHas_example :
    (ps : List (Row Permission)) × ((find_permissions environment
        (some ("webhook:read" ∷ []))
        none
        with_role).0
      ≡ ok ps)
    × ((i : String)
        → RoleHas environment environment-IsSound
            (update_role_permissions environment "r1" (some ("webhook:read" ∷ [])) none with_role).1
            "r1"
            i
          ↔ AnyOf i (row_ids ps))
update_role_permissions-RoleHas_example =
    update_role_permissions-RoleHas environment environment-IsSound "r1"
      (some ("webhook:read" ∷ [])) none with_role
      (update_role_permissions environment "r1" (some ("webhook:read" ∷ [])) none with_role).1
      answered.0
      (λ i. (
        answered.1 i,
        (update_role_permissions environment "r1" (some ("webhook:read" ∷ [])) none with_role).1,
      ))
