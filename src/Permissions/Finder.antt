-- ===== src/Permissions/Finder.antt =====
-- permissions/helpers/permission-finder.helper.ts, and the exceptions that the services throw.
use api_payment.Common.{ℕ, String, Bool, Option, some, List, [], ◌∷◌, ◌==◌, if◌then◌else◌}
use api_payment.Common.Exec.{Exception, custom_http, Exec, pure, raise, ◌>>=◌}
use api_payment.Common.Lists.{length, includes}
use api_payment.Platform.{Row}
use api_payment.Permissions.Entities.{Permission}
use api_payment.Permissions.Store.{Environment, Store, permission_repository, find}

abbrev pub permission_not_found : (status : ℕ) (message : String) → Exception
permission_not_found status = custom_http status "PERMISSION_NOT_FOUND"

module _ (v : Environment) where
  -- `find`, and a row for each that was asked for
  unfoldable pub find_every : (Row Permission → Bool) → ℕ → Exec (Store v) (List (Row Permission))
  find_every fits asked = do
    permissions ← find v (permission_repository v) fits
    if length permissions == asked
        then pure permissions
        else raise (permission_not_found 404 "One or more permissions not found.")

  unfoldable pub by_ids : Option (List String) → Exec (Store v) (List (Row Permission))
  unfolding find_every
  by_ids (some (i ∷ is)) = find_every (λ p. includes (i ∷ is) p.id) (length (i ∷ is))
  by_ids _ = pure []

  unfoldable pub find_permissions :
      (names ids : Option (List String)) → Exec (Store v) (List (Row Permission))
  unfolding find_every by_ids
  find_permissions (some (n ∷ ns)) ids =
      find_every (λ p. includes (n ∷ ns) p.fields.name) (length (n ∷ ns))
  find_permissions _ ids = by_ids ids
