-- ===== src/Permissions/Tests.antt =====
-- The permissions of a client on tables and a cache in memory, and the theorems at concrete inputs.
pub mod Roles
use api_payment.Common.{
  String, ◌≡◌, ◌≢◌, ◌↔◌, refl, ap, inl, inr, true, ◌||◌, none, some, List, [], ◌∷◌, eq_iff, arith,
}
use api_payment.Common.Exec.{ok, throw}
use api_payment.Common.Lists.{includes}
use api_payment.Platform.{Row}
use api_payment.Platform.Manager.InMemory.{
  manager_in_memory, manager_in_memory-IsFaithful, without, rows, first, insert_row,
}
use api_payment.Platform.Redis.InMemory.{
  redis_in_memory, redis_in_memory-IsRedis, texts_json, texts_json-IsJson, empty_json,
  empty_json-IsJson, lookup, delete, write_texts, read_list,
}
use api_payment.Permissions.Name.{parse_permission, permission_name, check_permission_hierarchy}
use api_payment.Permissions.Name.Parts.{LacksColon, parse_permission_iff}
use api_payment.Permissions.Name.Hierarchy.{any_grants, check_permission_hierarchy-any}
use api_payment.Permissions.Entities.{Permission}
use api_payment.Permissions.Store.{Environment, Store, permission_repository}
use api_payment.Permissions.Finder.{permission_not_found}
use api_payment.Permissions.Crud.{
  CreatePermissionDto, CreateBulkPermissionsDto, create_permission, create_bulk_permissions,
}
use api_payment.Permissions.Crud.Unique.{NamesUnique, create-NamesUnique}
use api_payment.Permissions.Roles.Stale.{no_permission, after_change, client_has_permission-stale}
use api_payment.Permissions.Cache.{parsed, cache_get, cache_set, cache_del}
use api_payment.Permissions.Clients.{
  client_has_permission, get_client_effective_permissions, get_client_direct_permissions,
  get_client_roles, add_all, add_roles, set_effective, grants_name, client_permissions_key,
}
use api_payment.Permissions.Clients.Assignments.{
  assign_permission_to_client, update_client_permissions,
}
use api_payment.Permissions.Grants.{IsSound, Lives, Granted, DirectlyGranted}
use api_payment.Permissions.Clients.Coherence.{Coherent}
use api_payment.Permissions.Clients.Decision.{Grants}
use api_payment.Permissions.Clients.Invalidation.{Deletes}
use api_payment.Permissions.Clients.Calls.{
  Call, assign_permission, ask_permission, after_call, after_calls, after_calls-Coherent,
  after_calls-client_has_permission, no_entries-Coherent,
}
use api_payment.Permissions.Clients.Loses.{Answers, update_client_permissions-loses}
use api_payment.Permissions.Guard.{can_activate, permission_denied}
use api_payment.Permissions.Guard.Denies.{can_activate-denies}

abbrev environment : Environment
environment = record {
  manager = manager_in_memory;
  redis = redis_in_memory;
  names_json = texts_json;
  roles_json = empty_json;
  now = "2026-01-01";
  error_message = λ x. none;
}

environment-IsSound : IsSound environment
environment-IsSound = record {
  manager = manager_in_memory-IsFaithful;
  redis = redis_in_memory-IsRedis;
  names_json = texts_json-IsJson;
  roles_json = empty_json-IsJson;
}

abbrev permission_of : (id module_name action : String) → Row Permission
permission_of id m a = record {
  id = id;
  fields = record {
    name = permission_name m a;
    module_name = m;
    action = a;
    description = none;
    deleted_at = none;
  };
}

-- Two permissions, and nobody has one.
abbrev seeded : Store environment
seeded = record {
  permissions = permission_of "p1" "financial" "*" ∷ permission_of "p2" "webhook" "read" ∷ [];
  roles = [];
  role_permissions = [];
  client_roles = [];
  client_permissions = [];
  cache = [];
}

-- A client is given a permission, asked about, and loses it.
abbrev given : List Call
given = assign_permission "c1" "financial:*" ∷ ask_permission "c1" "webhook:read" ∷ []

abbrev granted_store : Store environment
granted_store = after_calls environment given seeded

asked_create : (client_has_permission environment "c1" "financial:create" granted_store).0 ≡ ok true
unfolding client_has_permission get_client_effective_permissions get_client_direct_permissions
    get_client_roles add_all add_roles set_effective after_calls after_call
    assign_permission_to_client cache_get cache_set cache_del rows first insert_row lookup delete
    write_texts read_list without check_permission_hierarchy parse_permission
asked_create = refl

deletes : Deletes environment
deletes key cache = refl

no_entry : (key text : String) → ¬ environment-IsSound.redis.Entry seeded.cache key text
unfolding environment-IsSound redis_in_memory-IsRedis lookup
no_entry key text h = cc

after_calls-client_has_permission_example : (true ≡ true) ↔ (
    (held : String) × Granted environment environment-IsSound granted_store "c1" held
    × Grants "financial:create" held)
after_calls-client_has_permission_example =
    after_calls-client_has_permission environment environment-IsSound deletes given seeded
      (client_has_permission environment "c1" "financial:create" granted_store).1 "c1"
      "financial:create" true no_entry
      (λ i. (
        asked_create i,
        (client_has_permission environment "c1" "financial:create" granted_store).1,
      ))

after_calls-Coherent_example : Coherent environment environment-IsSound granted_store
after_calls-Coherent_example =
    after_calls-Coherent environment environment-IsSound deletes given seeded
      (no_entries-Coherent environment environment-IsSound seeded no_entry)

parse_permission_iff_example :
    (parse_permission "pix:create" ≡ some (record { module_name = "pix"; action = "create" }))
    ↔ (("pix:create" ≡ permission_name "pix" "create") × LacksColon "pix" × LacksColon "create")
parse_permission_iff_example =
    parse_permission_iff "pix:create" (record { module_name = "pix"; action = "create" })

check_permission_hierarchy-any_example :
    check_permission_hierarchy ("pix:write" ∷ []) "pix:create"
    ≡ includes ("pix:write" ∷ []) "pix:create"
      || any_grants ("pix:write" ∷ []) (parse_permission "pix:create")
check_permission_hierarchy-any_example =
    check_permission_hierarchy-any ("pix:write" ∷ []) "pix:create"

can_activate-denies_example :
    can_activate environment (some ("*:*" ∷ [])) (some "u1") seeded
    ≡ (throw permission_denied, seeded)
can_activate-denies_example = can_activate-denies environment "*:*" [] (some "u1") seeded

answers : Answers manager_in_memory
answers = record { finds = λ E p t. (_, refl); removes = λ E rs t. (_, refl) }

no_such_name :
    (p : Row Permission)
    → Lives environment environment-IsSound (permission_repository environment) seeded p
    → p.fields.name ≢ "financial:boletos"
unfolding environment-IsSound manager_in_memory-IsFaithful rows without
no_such_name p (inl e, live) h =
    ground (
      arith,
      eq_iff "financial:*" "financial:boletos",
      ap (λ (r : Row Permission). r.fields.name) e,
    )
no_such_name p (inr (inl e), live) h =
    ground (
      arith,
      eq_iff "webhook:read" "financial:boletos",
      ap (λ (r : Row Permission). r.fields.name) e,
    )
no_such_name p (inr (inr x), live) h = absurd x

update_client_permissions-loses_example :
    (message : String) × (t : Store environment) × (update_client_permissions environment "c1"
        ("financial:*" ∷ "financial:boletos" ∷ [])
        seeded
      ≡ (throw (permission_not_found 400 message), t))
    × ((held : String) → ¬ DirectlyGranted environment environment-IsSound t "c1" held)
update_client_permissions-loses_example =
    update_client_permissions-loses environment environment-IsSound answers "c1" "financial:boletos"
      ("financial:*" ∷ "financial:boletos" ∷ []) seeded (inr (inl refl)) no_such_name

abbrev empty_store : Store environment
empty_store = record seeded { permissions = [] }

no_names : NamesUnique environment environment-IsSound empty_store
unfolding environment-IsSound manager_in_memory-IsFaithful rows
no_names p q (x, l) m e = absurd x

abbrev dto : CreatePermissionDto
dto = record { name = "pix:create"; module_name = "pix"; action = "create"; description = none }

abbrev bulk_dto : CreateBulkPermissionsDto
bulk_dto = record {
  module_name = "ted";
  actions = "read" ∷ "create" ∷ "read" ∷ [];
  description = none;
}

create-NamesUnique_example :
    NamesUnique environment environment-IsSound (create_permission environment dto empty_store).1
    × NamesUnique environment environment-IsSound
        (create_bulk_permissions environment bulk_dto empty_store).1
create-NamesUnique_example =
    create-NamesUnique environment environment-IsSound dto bulk_dto empty_store no_names

abbrev cached_store : Store environment
cached_store = record seeded {
  cache = (client_permissions_key "c1", texts_json.stringify ("financial:*" ∷ [])) ∷ [];
}

cached_names :
    parsed texts_json (redis_in_memory.get (client_permissions_key "c1") cached_store.cache)
    ≡ some ("financial:*" ∷ [])
unfolding parsed lookup write_texts read_list
cached_names = refl

client_has_permission-stale_example :
    (client_has_permission environment "c1" "financial:create"
      (after_change environment (no_permission "p1") cached_store)).0
    ≡ ok (grants_name ("financial:*" ∷ []) "financial:create")
client_has_permission-stale_example =
    client_has_permission-stale environment (no_permission "p1") "c1" "financial:create"
      ("financial:*" ∷ []) cached_store cached_names
