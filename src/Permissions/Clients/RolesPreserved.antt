-- ===== src/Permissions/Clients/RolesPreserved.antt =====
-- Calls that give a client a role or take it away keep the cache true.
use mathlib.Core.Path.{subst}
use api_payment.Common.{
  String, ◌≡◌, refl, ap, ◌∙◌, inl, inr, Option, none, some, List, [], ◌∷◌, eq_iff, Option-cases,
  arith,
}
use api_payment.Common.Exec.{ok, continue-keeps, continue-keeps_answer, pure, ◌>>◌}
use api_payment.Platform.{Row}
use api_payment.Permissions.Entities.{ClientRole}
use api_payment.Permissions.Store.{
  Environment, Store, find_one, insert, remove_all, client_role_repository,
}
use api_payment.Permissions.Clients.Assignments.{
  invalidate_client_cache, has_role, save_client_role, assign_role_to_client, remove_client_role,
  remove_role_from_client,
}
use api_payment.Permissions.Grants.{IsSound}
use api_payment.Permissions.Clients.Preserved.{after_invalidation}
use api_payment.Permissions.Clients.Coherence.{Coherent}
use api_payment.Permissions.Clients.Rows.{OwnRows, insert-OthersSame, remove_all-OthersSame}
use api_payment.Permissions.Clients.Invalidation.{
  Deletes, TrueWithout, TrueWithout-Coherent, invalidate_client_cache-TrueWithout,
  change_roles-TrueWithout,
}

module _ (v : Environment) (w : IsSound v) (c : String) where
  insert_role-TrueWithout :
      (s : Store v) (e : ClientRole)
      → e.client_id ≡ c
      → TrueWithout v w c s
      → TrueWithout v w c (insert v (client_role_repository v) e s).1
  insert_role-TrueWithout s e own h =
      change_roles-TrueWithout v w c s h _
        (insert-OthersSame v w (λ cr. cr.client_id) c e s.client_roles own)

  remove_roles-TrueWithout :
      (s : Store v) (rows : List (Row ClientRole))
      → OwnRows v w (λ cr. cr.client_id) c s.client_roles rows
      → TrueWithout v w c s
      → TrueWithout v w c (remove_all v (client_role_repository v) rows s).1
  remove_roles-TrueWithout s rows own h =
      change_roles-TrueWithout v w c s h _
        (remove_all-OthersSame v w (λ cr. cr.client_id) c rows s.client_roles own)

  save_client_role-Coherent :
      Deletes v
      → (role_id : String) (o : Option (Row ClientRole)) (s : Store v) → Coherent v w s
      → Coherent v w (save_client_role v c role_id o s).1
  unfolding save_client_role
  save_client_role-Coherent deletes role_id (some row) s h = h
  save_client_role-Coherent deletes role_id none s h =
      let e : ClientRole = record { client_id = c; role_id = role_id; deleted_at = none } in
      after_invalidation v w c deletes (insert v (client_role_repository v) e >> pure tt)
        (λ t k. TrueWithout-Coherent v w c _ (
          continue-keeps (TrueWithout v w c) (insert v (client_role_repository v) e t)
            (λ _. pure tt) (insert_role-TrueWithout t e refl k) (λ a l. l)))
        s h

  pub assign_role_to_client-Coherent :
      Deletes v
      → (role_id : String) (s : Store v) → Coherent v w s
      → Coherent v w (assign_role_to_client v c role_id s).1
  unfolding assign_role_to_client save_client_role
  assign_role_to_client-Coherent deletes role_id s h =
      continue-keeps (Coherent v w) (find_one v (client_role_repository v) (has_role v c role_id) s)
        (save_client_role v c role_id) h λ o k. save_client_role-Coherent deletes role_id o s k

  own_role :
      (s : Store v) (role_id : String) (cr : Row ClientRole)
      → (find_one v (client_role_repository v) (has_role v c role_id) s).0 ≡ ok (some cr)
      → OwnRows v w (λ cr. cr.client_id) c s.client_roles (cr ∷ [])
  unfolding has_role
  own_role s role_id cr e r (inl same) =
      let (holds, fits) = w.manager.find_one_some ClientRole _ s.client_roles cr e in
      let mine : cr.fields.client_id ≡ c = ground (arith, eq_iff cr.fields.client_id c) in
      subst (λ r. w.manager.Holds _ s.client_roles r × (r.fields.client_id ≡ c)) same (holds, mine)
  own_role s role_id cr e r (inr x) = absurd x

  pub remove_role_from_client-Coherent :
      Deletes v
      → (role_id : String) (s : Store v) → Coherent v w s
      → Coherent v w (remove_role_from_client v c role_id s).1
  unfolding remove_role_from_client remove_client_role invalidate_client_cache
  remove_role_from_client-Coherent deletes role_id s h =
      continue-keeps_answer (Coherent v w)
        (find_one v (client_role_repository v) (has_role v c role_id) s) (remove_client_role v c) h
        λ o e. elim (Option-cases o) [
          | inl missing ↦ rw missing h
          | inr (cr, found) ↦ rw found (
              TrueWithout-Coherent v w c _ (
                remove_roles-TrueWithout (invalidate_client_cache v c s).1 (cr ∷ [])
                  (own_role s role_id cr (e ∙ ap ok found))
                  (invalidate_client_cache-TrueWithout v w deletes c s h)))
        ]
