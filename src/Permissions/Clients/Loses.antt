-- ===== src/Permissions/Clients/Loses.antt =====
-- `updateClientPermissions` with a name that no permission has.
use api_payment.Common.{
  String, ◌≡◌, ◌≢◌, refl, inl, inr, Bool, true, false, not, ◌&&◌, List, [], ◌∷◌, str_eq as ◌==◌,
  eq_iff, Bool-cases, arith,
}
use api_payment.Common.Exec.{ok, throw}
use api_payment.Common.Lists.{AnyOf, filter, includes}
use api_payment.Platform.{Row}
use api_payment.Platform.Manager.{EntityManager, has_id}
use api_payment.Permissions.Entities.{Permission, ClientPermission}
use api_payment.Permissions.Store.{
  Environment, Store, find, is_live, permission_repository, client_permission_repository,
}
use api_payment.Permissions.Finder.{permission_not_found}
use api_payment.Permissions.Grants.{IsSound, Lives, DirectlyGranted}
use api_payment.Permissions.Clients.Loads.{and-eq-true}
use api_payment.Permissions.Clients.Assignments.{
  names_in, missing_names, missing_message, invalidate_client_cache, refuse_missing,
  validate_permissions_exist, assign_permissions_to_client, remove_current,
  update_client_permissions,
}

-- The database answers every find and every removal.
pub record Answers (o : EntityManager) : Type 1 where
  pub finds :
      (E : Type 0) (p : Row E → Bool) (t : o.Table E) → (rs : List (Row E)) × (o.find E p t ≡ ok rs)
  pub removes :
      (E : Type 0) (rs : List (Row E)) (t : o.Table E)
      → (t' : o.Table E) × (o.remove_all E rs t ≡ (ok tt, t'))

filter-ne-nil :
    (q : String → Bool) (x : String) (xs : List String)
    → AnyOf x xs
    → q x ≡ true
    → (y : String) × (ys : List String) × (filter q xs ≡ y ∷ ys)
filter-ne-nil q x [] m h = absurd m
filter-ne-nil q x (z ∷ xs) m h = elim (Bool-cases (q z)) [
  | inl keep ↦ (z, filter q xs, rw (keep, filter) refl)
  | inr drop ↦ elim m [
    | inl same ↦ absurd (cc)
    | inr n ↦ rw (drop, filter) (filter-ne-nil q x xs n h)
  ]
]

names_in-AnyOf :
    (rows : List (Row Permission)) (name : String)
    → includes (names_in rows) name ≡ true
    → (p : Row Permission) × AnyOf p rows × (p.fields.name ≡ name)
unfolding names_in
names_in-AnyOf [] name h = cc
names_in-AnyOf (p ∷ rows) name h = elim (Bool-cases (p.fields.name == name)) [
  | inl here ↦ (p, inl refl, (eq_iff p.fields.name name).0 here)
  | inr later ↦ let (q, m, e) = names_in-AnyOf rows name (ground arith) in (q, inr m, e)
]

AnyOf-has_id :
    {E : Type 0} (rows : List (Row E)) (r : Row E) → AnyOf r rows → has_id rows r.id ≡ true
AnyOf-has_id [] r m = absurd m
AnyOf-has_id (x ∷ rows) r m =
    ground (arith, eq_iff x.id r.id, λ (n : AnyOf r rows). AnyOf-has_id rows r n)

module _ (v : Environment) (w : IsSound v) (up : Answers v.manager) where
  refused :
      (n : String) (ns : List String) (s : Store v) (rows : List (Row Permission)) (y : String)
      (ys : List String)
      → (find v (permission_repository v) (λ p. includes (n ∷ ns) p.fields.name) s).0 ≡ ok rows
      → missing_names (n ∷ ns) rows ≡ y ∷ ys
      → validate_permissions_exist v (n ∷ ns) s
        ≡ (throw (permission_not_found 400 (missing_message (y ∷ ys))), s)
  unfolding validate_permissions_exist refuse_missing
  refused n ns s rows y ys found kept = rw (found, kept) refl

  -- `validatePermissionsExist` with a name that no permission has
  validate-refuses :
      (names : List String) (name : String) (s : Store v)
      → AnyOf name names
      → ((p : Row Permission) → Lives v w (permission_repository v) s p → p.fields.name ≢ name)
      → (message : String) × (validate_permissions_exist v names s
          ≡ (throw (permission_not_found 400 message), s))
  unfolding validate_permissions_exist missing_names
  validate-refuses [] name s m free = absurd m
  validate-refuses (n ∷ ns) name s m free =
      let fit : Row Permission → Bool =
        λ p. is_live v (permission_repository v) p && includes (n ∷ ns) p.fields.name in
      let (rows, found) = up.finds Permission fit s.permissions in
      let seen = w.manager.find_holds Permission fit s.permissions rows found in
      let unseen : includes (names_in rows) name ≡ false =
        elim (Bool-cases (includes (names_in rows) name)) [
          | inr misses ↦ misses
          | inl hits ↦
              let (p, i, e) = names_in-AnyOf rows name hits in
              let (holds, fits) = (seen p).0 i in
              let live =
                ((and-eq-true (is_live v (permission_repository v) p)
                    (includes (n ∷ ns) p.fields.name)).0
                  fits).0 in
              absurd (free p (holds, live) e)
        ] in
      let (y, ys, kept) =
        filter-ne-nil (λ n. not (includes (names_in rows) n)) name (n ∷ ns) m (rw unseen refl) in
      (missing_message (y ∷ ys), refused n ns s rows y ys found kept)

  none_left :
      (s : Store v) (c : String) (rows : List (Row ClientPermission))
      (t : v.manager.Table ClientPermission) (name : String)
      → (find v (client_permission_repository v) (λ cp. cp.fields.client_id == c) s).0 ≡ ok rows
      → ((cp : Row ClientPermission)
          → w.manager.Holds ClientPermission t cp
          → w.manager.Holds ClientPermission s.client_permissions cp × (has_id rows cp.id ≡ false))
      → ¬ DirectlyGranted v w (record s { client_permissions = t }) c name
  none_left s c rows t name found left (cp, (holds, live), mine, named) =
      let (before, gone) = left cp holds in
      let fits =
        (and-eq-true (is_live v (client_permission_repository v) cp) (cp.fields.client_id == c)).1
          (live, (eq_iff cp.fields.client_id c).1 mine) in
      let seen =
        (w.manager.find_holds ClientPermission _ s.client_permissions rows found cp).1
          (before, fits) in
      let there = AnyOf-has_id rows cp seen in cc

  current_removed :
      (s : Store v) (c : String) (rows : List (Row ClientPermission))
      → (find v (client_permission_repository v) (λ cp. cp.fields.client_id == c) s).0 ≡ ok rows
      → (t : v.manager.Table ClientPermission) × (remove_current v rows s
          ≡ (ok tt, record s { client_permissions = t }))
        × ((name : String) → ¬ DirectlyGranted v w (record s { client_permissions = t }) c name)
  unfolding remove_current
  current_removed s c [] found = (
    s.client_permissions,
    refl,
    λ name. none_left s c [] s.client_permissions name found (λ cp h. (h, refl)),
  )
  current_removed s c (r ∷ rows) found =
      let (t, removed) = up.removes ClientPermission (r ∷ rows) s.client_permissions in
      let left =
        w.manager.remove_all_holds ClientPermission (r ∷ rows) s.client_permissions t removed in
      (
        t,
        λ i. ((removed i).0, record s { client_permissions = (removed i).1 }),
        λ name. none_left s c (r ∷ rows) t name found (λ cp h. (left cp).0 h),
      )

  -- Where the database answers, `updateClientPermissions` with a name that no permission has throws
  -- 400 after it has removed all that the client was granted directly: the client has none of its
  -- permissions afterwards.
  pub update_client_permissions-loses :
      (c name : String) (names : List String) (s : Store v)
      → AnyOf name names
      → ((p : Row Permission) → Lives v w (permission_repository v) s p → p.fields.name ≢ name)
      → (message : String) × (t : Store v) × (update_client_permissions v c names s
          ≡ (throw (permission_not_found 400 message), t))
        × ((held : String) → ¬ DirectlyGranted v w t c held)
  unfolding update_client_permissions invalidate_client_cache assign_permissions_to_client
  update_client_permissions-loses c name names s m free =
      let u = (invalidate_client_cache v c s).1 in
      let (rows, found) =
        up.finds ClientPermission
          (λ cp. is_live v (client_permission_repository v) cp && (cp.fields.client_id == c))
          u.client_permissions in
      let (t, removed, none_held) = current_removed u c rows found in
      let after = record u { client_permissions = t } in
      let (message, refused_names) = validate-refuses names name after m free in
      (message, after, rw (found, removed, refused_names) refl, none_held)
