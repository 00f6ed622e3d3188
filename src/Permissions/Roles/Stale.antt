-- ===== src/Permissions/Roles/Stale.antt =====
-- Changes of roles and permissions, and the cache of clients.
use api_payment.Common.{
  ℕ, String, ◌≡◌, refl, ◌∙◌, Bool, Option, none, some, List, [], ◌∷◌, arith, if◌then◌else◌, is_some,
  ◌||◌, truthy, str_eq as ◌==◌,
}
use api_payment.Common.Exec.{ok, Exec, continue-keeps, pure, ◌>>=◌}
use api_payment.Platform.{Row}
use api_payment.Permissions.Entities.{Permission, Role, LoadedRole}
use api_payment.Permissions.Store.{Environment, Store, find_one, update_all, role_repository}
use api_payment.Permissions.Cache.{cache_get, parsed}
use api_payment.Permissions.Finder.{find_permissions, find_every, by_ids}
use api_payment.Permissions.Clients.{
  client_permissions_key, grants_name, client_has_permission, get_client_effective_permissions,
}
use api_payment.Permissions.Crud.{
  UpdatePermissionDto, update_permission, delete_permission, if_permission,
}
use api_payment.Permissions.Roles.{
  UpdateRoleDto, update_role_permissions, update_role, delete_role, find_role, get_role_by_id,
  replace_permissions, save_deleted, save_created, if_role, if_loaded, rename, refuse_other,
  described,
}

-- A change that may take a permission away from clients
pub data Change : Type 0 where
  role_permissions : (role_id : String) (names ids : Option (List String)) → Change
  role : (role_id : String) (dto : UpdateRoleDto) → Change
  no_role : (role_id : String) → Change
  permission : (id : String) (dto : UpdatePermissionDto) → Change
  no_permission : (id : String) → Change

module _ (v : Environment) where
  unfoldable pub after_change : Change → Store v → Store v
  after_change (role_permissions role_id names ids) s =
      (update_role_permissions v role_id names ids s).1
  after_change (role role_id dto) s = (update_role v role_id dto s).1
  after_change (no_role role_id) s = (delete_role v role_id s).1
  after_change (permission id dto) s = (update_permission v id dto s).1
  after_change (no_permission id) s = (delete_permission v id s).1

  -- The method leaves the cache alone.
  abbrev KeepsCache : {A : Type 0} → Exec (Store v) A → Type 0
  KeepsCache m = (s : Store v) → (m s).1.cache ≡ s.cache

  >>=-KeepsCache :
      {A B : Type 0} (m : Exec (Store v) A) (f : A → Exec (Store v) B)
      → KeepsCache m
      → ((a : A) → KeepsCache (f a))
      → KeepsCache (m >>= f)
  >>=-KeepsCache m f hm hf s =
      continue-keeps (λ t. t.cache ≡ s.cache) (m s) f (hm s) (λ a k. hf a (m s).1 ∙ k)

  find_every-KeepsCache :
      (fits : Row Permission → Bool) (asked : ℕ) → KeepsCache (find_every v fits asked)
  unfolding find_every
  find_every-KeepsCache fits asked s = ground arith

  by_ids-KeepsCache : (ids : Option (List String)) → KeepsCache (by_ids v ids)
  unfolding by_ids
  by_ids-KeepsCache (some (i ∷ is)) s = find_every-KeepsCache _ _ s
  by_ids-KeepsCache _ s = refl

  find_permissions-KeepsCache :
      (names ids : Option (List String)) → KeepsCache (find_permissions v names ids)
  unfolding find_permissions
  find_permissions-KeepsCache (some (n ∷ ns)) ids s = find_every-KeepsCache _ _ s
  find_permissions-KeepsCache _ ids s = by_ids-KeepsCache ids s

  replace_permissions-KeepsCache :
      (r : LoadedRole) (ps : List (Row Permission)) → KeepsCache (replace_permissions v r ps)
  unfolding replace_permissions save_deleted save_created
  replace_permissions-KeepsCache r ps s = ground arith

  find_role-KeepsCache : (i : String) → KeepsCache (find_role v i)
  unfolding find_role
  find_role-KeepsCache i =
      >>=-KeepsCache (find_one v (role_repository v) (λ role. role.id == i)) _ (λ s. refl)
        (λ o s. refl)

  if_loaded-KeepsCache :
      {A : Type 0} (f : LoadedRole → Exec (Store v) A) (o : Option LoadedRole)
      → ((r : LoadedRole) → KeepsCache (f r))
      → KeepsCache (if_loaded v o f)
  unfolding if_loaded
  if_loaded-KeepsCache f none h s = refl
  if_loaded-KeepsCache f (some r) h s = h r s

  if_role-KeepsCache :
      {A : Type 0} (f : Row Role → Exec (Store v) A) (o : Option (Row Role))
      → ((r : Row Role) → KeepsCache (f r))
      → KeepsCache (if_role v o f)
  unfolding if_role
  if_role-KeepsCache f none h s = refl
  if_role-KeepsCache f (some r) h s = h r s

  get_role_by_id-KeepsCache : (i : String) → KeepsCache (get_role_by_id v i)
  unfolding get_role_by_id
  get_role_by_id-KeepsCache i =
      >>=-KeepsCache (find_role v i) _ (find_role-KeepsCache i)
        (λ o. if_loaded-KeepsCache pure o (λ r s. refl))

  update_role_permissions-KeepsCache :
      (i : String) (names ids : Option (List String))
      → KeepsCache (update_role_permissions v i names ids)
  unfolding update_role_permissions
  update_role_permissions-KeepsCache i names ids =
      >>=-KeepsCache (find_role v i) _ (find_role-KeepsCache i) (λ o. if_loaded-KeepsCache _ o (λ r.
        >>=-KeepsCache (find_permissions v names ids) _ (find_permissions-KeepsCache names ids)
          (λ ps.
            >>=-KeepsCache (replace_permissions v r ps) _ (replace_permissions-KeepsCache r ps)
              (λ _. get_role_by_id-KeepsCache i))))

  rename-KeepsCache : (i : String) (o : Option String) (r : Row Role) → KeepsCache (rename v i o r)
  unfolding rename refuse_other
  rename-KeepsCache i none r s = refl
  rename-KeepsCache i (some name) r s = ground arith

  answer-KeepsCache :
      (i : String) (dto : UpdateRoleDto)
      → KeepsCache (
          if is_some dto.permission_names || is_some dto.permission_ids
          then update_role_permissions v i dto.permission_names dto.permission_ids
          else get_role_by_id v i)
  answer-KeepsCache i dto s = ground (
    arith,
    update_role_permissions-KeepsCache i dto.permission_names dto.permission_ids s,
    get_role_by_id-KeepsCache i s,
  )

  delete_role-KeepsCache : (i : String) → KeepsCache (delete_role v i)
  unfolding delete_role if_role
  delete_role-KeepsCache i s = ground arith

  update_permission-KeepsCache :
      (i : String) (dto : UpdatePermissionDto) → KeepsCache (update_permission v i dto)
  unfolding update_permission if_permission
  update_permission-KeepsCache i dto s = ground arith

  delete_permission-KeepsCache : (i : String) → KeepsCache (delete_permission v i)
  unfolding delete_permission if_permission
  delete_permission-KeepsCache i s = ground arith

  update_role-KeepsCache : (i : String) (dto : UpdateRoleDto) → KeepsCache (update_role v i dto)
  unfolding update_role
  update_role-KeepsCache i dto =
      >>=-KeepsCache (find_one v (role_repository v) (λ role. role.id == i)) _ (λ s. refl)
        (λ o. if_role-KeepsCache _ o (λ r.
          >>=-KeepsCache (rename v i (truthy dto.name) r) _
            (rename-KeepsCache i (truthy dto.name) r)
            (λ named.
              >>=-KeepsCache
                (update_all v (role_repository v) (described dto.description named ∷ [])) _
                (λ s. refl) (λ _. answer-KeepsCache i dto))))

  after_change-cache : (k : Change) (s : Store v) → (after_change k s).cache ≡ s.cache
  unfolding after_change
  after_change-cache (role_permissions i names ids) s =
      update_role_permissions-KeepsCache i names ids s
  after_change-cache (role i dto) s = update_role-KeepsCache i dto s
  after_change-cache (no_role i) s = delete_role-KeepsCache i s
  after_change-cache (permission i dto) s = update_permission-KeepsCache i dto s
  after_change-cache (no_permission i) s = delete_permission-KeepsCache i s

  -- While the list of a client's permissions is cached, `clientHasPermission` answers from it, also
  -- after `updateRolePermissions`, `updateRole`, `deleteRole`, `updatePermission` or `deletePermission`,
  -- whatever that call took away.
  pub client_has_permission-stale :
      (k : Change) (c required : String) (names : List String) (s : Store v)
      → parsed v.names_json (v.redis.get (client_permissions_key c) s.cache) ≡ some names
      → (client_has_permission v c required (after_change k s)).0 ≡ ok (grants_name names required)
  unfolding client_has_permission get_client_effective_permissions cache_get
  client_has_permission-stale k c required names s cached = rw (after_change-cache k s, cached) refl
