-- ===== src/Permissions/Guard.antt =====
-- permissions/guards/permissions.guard.ts: the permissions that the route asks for and the user of the
-- request are what the framework hands over.
pub mod Denies
use api_payment.Common.{
  String, ◌≡◌, refl, Bool, true, false, Option, none, some, List, [], ◌∷◌, truthy,
}
use api_payment.Common.Exec.{Exception, throw, custom_http, Exec, pure, raise, ◌>>=◌, ◌>>◌}
use api_payment.Permissions.Store.{Environment, Store}
use api_payment.Permissions.Name.{check_permission_hierarchy}
use api_payment.Permissions.Crud.{has_any_permission, some_granted}

abbrev pub not_authenticated : Exception
not_authenticated = custom_http 401 "USER_NOT_AUTHENTICATED" "User not authenticated."

abbrev pub permission_denied : Exception
permission_denied = custom_http 403 "ACCESS_DENIED" "Permission denied."

module _ (v : Environment) where
  unfoldable pub allow : Bool → Exec (Store v) Bool
  allow true = pure true
  allow false = raise permission_denied

  unfoldable pub check_user : List String → Option String → Exec (Store v) Bool
  unfolding allow
  check_user required none = raise not_authenticated
  check_user required (some user_id) = do
    has_permission ← has_any_permission v user_id required
    allow has_permission

  -- `user?.userId` of the request, and the metadata of the handler or its class
  unfoldable pub can_activate :
      (required : Option (List String)) (user_id : Option String) → Exec (Store v) Bool
  unfolding check_user
  can_activate none user_id = pure true
  can_activate (some []) user_id = pure true
  can_activate (some (p ∷ ps)) user_id = check_user (p ∷ ps) (truthy user_id)
