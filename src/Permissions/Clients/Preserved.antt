-- ===== src/Permissions/Clients/Preserved.antt =====
-- Calls on clients keep the cache true.
use mathlib.Core.Path.{subst}
use api_payment.Common.{
  String, ◌≡◌, refl, ap, ◌∙◌, inl, inr, Bool, true, Option, none, some, List, [], ◌∷◌, eq_iff,
  str_eq as ◌==◌, Option-cases, arith,
}
use api_payment.Common.Exec.{
  ok, Exec, continue-keeps, continue-keeps_answer, for_each, for_each-keeps, ◌>>=◌, ◌>>◌,
}
use api_payment.Common.Lists.{includes}
use api_payment.Platform.{Row}
use api_payment.Permissions.Entities.{Permission, ClientPermission}
use api_payment.Permissions.Store.{
  Environment, Store, find, find_one, insert, remove_all, permission_repository, is_live,
  client_permission_repository,
}
use api_payment.Permissions.Clients.Assignments.{
  invalidate_client_cache, has_permission_id, save_client_permission, assign_found,
  assign_permission, assign_permission_to_client, remove_client_permission, remove_found,
  remove_permission_from_client, refuse_missing, missing_names, validate_permissions_exist,
  assign_permissions_to_client, remove_permissions_from_client, remove_current,
  update_client_permissions,
}
use api_payment.Permissions.Grants.{IsSound}
use api_payment.Permissions.Clients.Loads.{and-eq-true}
use api_payment.Permissions.Clients.Coherence.{Coherent}
use api_payment.Permissions.Clients.Rows.{OwnRows, insert-OthersSame, remove_all-OthersSame}
use api_payment.Permissions.Clients.Invalidation.{
  Deletes, TrueWithout, TrueWithout-Coherent, invalidate_client_cache-TrueWithout,
  change_permissions-TrueWithout,
}

module _ (v : Environment) (w : IsSound v) (c : String) where
  -- A call that deletes the client's entries first
  pub after_invalidation :
      Deletes v
      → (call : Exec (Store v) (Unit {0}))
      → ((t : Store v) → TrueWithout v w c t → Coherent v w (call t).1)
      → (s : Store v) → Coherent v w s
      → Coherent v w ((invalidate_client_cache v c >> call) s).1
  unfolding invalidate_client_cache
  after_invalidation deletes call keeps s h =
      keeps (invalidate_client_cache v c s).1
        (invalidate_client_cache-TrueWithout v w deletes c s h)

  insert_permission-TrueWithout :
      (s : Store v) (e : ClientPermission)
      → e.client_id ≡ c
      → TrueWithout v w c s
      → TrueWithout v w c (insert v (client_permission_repository v) e s).1
  insert_permission-TrueWithout s e own h =
      change_permissions-TrueWithout v w c s h _
        (insert-OthersSame v w (λ cp. cp.client_id) c e s.client_permissions own)

  remove_permissions-TrueWithout :
      (s : Store v) (rows : List (Row ClientPermission))
      → OwnRows v w (λ cp. cp.client_id) c s.client_permissions rows
      → TrueWithout v w c s
      → TrueWithout v w c (remove_all v (client_permission_repository v) rows s).1
  remove_permissions-TrueWithout s rows own h =
      change_permissions-TrueWithout v w c s h _
        (remove_all-OthersSame v w (λ cp. cp.client_id) c rows s.client_permissions own)

  save_client_permission-TrueWithout :
      (i : String) (o : Option (Row ClientPermission)) (s : Store v)
      → TrueWithout v w c s
      → TrueWithout v w c (save_client_permission v c i o s).1
  unfolding save_client_permission
  save_client_permission-TrueWithout i (some row) s h = h
  save_client_permission-TrueWithout i none s h =
      continue-keeps (TrueWithout v w c) (insert v (client_permission_repository v) _ s) _
        (insert_permission-TrueWithout s _ refl h) (λ a k. k)

  assign_found-TrueWithout :
      (name : String) (o : Option (Row Permission)) (s : Store v)
      → TrueWithout v w c s
      → TrueWithout v w c (assign_found v c name o s).1
  unfolding assign_found
  assign_found-TrueWithout name none s h = h
  assign_found-TrueWithout name (some p) s h =
      continue-keeps (TrueWithout v w c) (find_one v (client_permission_repository v) _ s) _ h
        λ o k. save_client_permission-TrueWithout p.id o s k

  assign_permission-TrueWithout :
      (name : String) (s : Store v)
      → TrueWithout v w c s
      → TrueWithout v w c (assign_permission v c name s).1
  unfolding assign_permission
  assign_permission-TrueWithout name s h =
      continue-keeps (TrueWithout v w c) (find_one v (permission_repository v) _ s) _ h
        λ o k. assign_found-TrueWithout name o s k

  pub assign_permission_to_client-Coherent :
      Deletes v
      → (name : String) (s : Store v) → Coherent v w s
      → Coherent v w (assign_permission_to_client v c name s).1
  unfolding assign_permission_to_client
  assign_permission_to_client-Coherent deletes name s h =
      after_invalidation deletes (assign_permission v c name)
        (λ t k. TrueWithout-Coherent v w c _ (assign_permission-TrueWithout name t k)) s h

  own_permission :
      (s : Store v) (p : Row ClientPermission → Bool) (cp : Row ClientPermission)
      → ((row : Row ClientPermission) → p row ≡ true → row.fields.client_id ≡ c)
      → (find_one v (client_permission_repository v) p s).0 ≡ ok (some cp)
      → OwnRows v w (λ cp. cp.client_id) c s.client_permissions (cp ∷ [])
  own_permission s p cp mine e r (inl same) =
      let (holds, fits) = w.manager.find_one_some ClientPermission _ s.client_permissions cp e in
      let chosen =
        ((and-eq-true (is_live v (client_permission_repository v) cp) (p cp)).0 fits).1 in
      subst (λ r. w.manager.Holds _ s.client_permissions r × (r.fields.client_id ≡ c)) same
        (holds, mine cp chosen)
  own_permission s p cp mine e r (inr x) = absurd x

  has_permission_id-client :
      (i : String) (row : Row ClientPermission)
      → has_permission_id v c i row ≡ true
      → row.fields.client_id ≡ c
  unfolding has_permission_id
  has_permission_id-client i row h = ground (arith, eq_iff row.fields.client_id c)

  remove_found-TrueWithout :
      (o : Option (Row Permission)) (s : Store v)
      → TrueWithout v w c s
      → TrueWithout v w c (remove_found v c o s).1
  unfolding remove_found remove_client_permission
  remove_found-TrueWithout none s h = h
  remove_found-TrueWithout (some p) s h =
      continue-keeps_answer (TrueWithout v w c)
        (find_one v (client_permission_repository v) (has_permission_id v c p.id) s) _ h
        λ o e. elim (Option-cases o) [
          | inl missing ↦ rw missing h
          | inr (cp, found) ↦ rw found (
              remove_permissions-TrueWithout s (cp ∷ [])
                (own_permission s (has_permission_id v c p.id) cp (has_permission_id-client p.id)
                  (e ∙ ap ok found))
                h)
        ]

  pub remove_permission_from_client-Coherent :
      Deletes v
      → (name : String) (s : Store v) → Coherent v w s
      → Coherent v w (remove_permission_from_client v c name s).1
  unfolding remove_permission_from_client
  remove_permission_from_client-Coherent deletes name s h =
      after_invalidation deletes
        (find_one v (permission_repository v) (λ p. p.fields.name == name) >>= remove_found v c)
        (λ t k. TrueWithout-Coherent v w c _ (
          continue-keeps (TrueWithout v w c)
            (find_one v (permission_repository v) (λ p. p.fields.name == name) t) (remove_found v c)
            k (λ o l. remove_found-TrueWithout o t l)))
        s h

  refuse_missing-Coherent :
      (names : List String) (s : Store v)
      → Coherent v w s
      → Coherent v w (refuse_missing v names s).1
  unfolding refuse_missing
  refuse_missing-Coherent [] s h = h
  refuse_missing-Coherent (n ∷ ns) s h = h

  validate_permissions_exist-Coherent :
      (names : List String) (s : Store v)
      → Coherent v w s
      → Coherent v w (validate_permissions_exist v names s).1
  unfolding validate_permissions_exist
  validate_permissions_exist-Coherent [] s h = h
  validate_permissions_exist-Coherent (n ∷ ns) s h =
      continue-keeps (Coherent v w)
        (find v (permission_repository v) (λ p. includes (n ∷ ns) p.fields.name) s)
        (λ rows. refuse_missing v (missing_names (n ∷ ns) rows)) h
        (λ rows k. refuse_missing-Coherent (missing_names (n ∷ ns) rows) s k)

  pub assign_permissions_to_client-Coherent :
      Deletes v
      → (names : List String) (s : Store v) → Coherent v w s
      → Coherent v w (assign_permissions_to_client v c names s).1
  unfolding assign_permissions_to_client
  assign_permissions_to_client-Coherent deletes names s h =
      continue-keeps (Coherent v w) (validate_permissions_exist v names s)
        (λ _. for_each (assign_permission_to_client v c) names)
        (validate_permissions_exist-Coherent names s h)
        (λ a k.
          for_each-keeps (assign_permission_to_client v c) (Coherent v w)
            (assign_permission_to_client-Coherent deletes) names _ k)

  pub remove_permissions_from_client-Coherent :
      Deletes v
      → (names : List String) (s : Store v) → Coherent v w s
      → Coherent v w (remove_permissions_from_client v c names s).1
  unfolding remove_permissions_from_client
  remove_permissions_from_client-Coherent deletes names s h =
      for_each-keeps (remove_permission_from_client v c) (Coherent v w)
        (remove_permission_from_client-Coherent deletes) names s h

  own_rows :
      (s : Store v) (rows : List (Row ClientPermission))
      → (find v (client_permission_repository v) (λ cp. cp.fields.client_id == c) s).0 ≡ ok rows
      → OwnRows v w (λ cp. cp.client_id) c s.client_permissions rows
  own_rows s rows e r m =
      let (holds, fits) =
        (w.manager.find_holds ClientPermission _ s.client_permissions rows e r).0 m in
      let chosen =
        ((and-eq-true (is_live v (client_permission_repository v) r) (r.fields.client_id == c)).0
          fits).1 in
      (holds, (eq_iff r.fields.client_id c).0 chosen)

  remove_current-TrueWithout :
      (rows : List (Row ClientPermission)) (s : Store v)
      → OwnRows v w (λ cp. cp.client_id) c s.client_permissions rows
      → TrueWithout v w c s
      → TrueWithout v w c (remove_current v rows s).1
  unfolding remove_current
  remove_current-TrueWithout [] s own h = h
  remove_current-TrueWithout (r ∷ rows) s own h = remove_permissions-TrueWithout s (r ∷ rows) own h

  -- The part of `updateClientPermissions` behind the deletion of the client's entries
  abbrev replace_permissions : List String → Exec (Store v) (Unit {0})
  replace_permissions names =
      find v (client_permission_repository v) (λ cp. cp.fields.client_id == c) >>= λ rows.
      remove_current v rows >> assign_permissions_to_client v c names

  replace_permissions-Coherent :
      Deletes v
      → (names : List String) (s : Store v) → TrueWithout v w c s
      → Coherent v w (replace_permissions names s).1
  replace_permissions-Coherent deletes names s h =
      continue-keeps_answer (Coherent v w)
        (find v (client_permission_repository v) (λ cp. cp.fields.client_id == c) s)
        (λ rows. remove_current v rows >> assign_permissions_to_client v c names)
        (TrueWithout-Coherent v w c s h)
        λ rows e.
          continue-keeps (Coherent v w) (remove_current v rows s)
            (λ _. assign_permissions_to_client v c names)
            (TrueWithout-Coherent v w c _ (remove_current-TrueWithout rows s (own_rows s rows e) h))
            (λ a k. assign_permissions_to_client-Coherent deletes names _ k)

  pub update_client_permissions-Coherent :
      Deletes v
      → (names : List String) (s : Store v) → Coherent v w s
      → Coherent v w (update_client_permissions v c names s).1
  unfolding update_client_permissions
  update_client_permissions-Coherent deletes names s h =
      after_invalidation deletes (replace_permissions names)
        (replace_permissions-Coherent deletes names) s h
