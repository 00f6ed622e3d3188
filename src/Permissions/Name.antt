-- ===== src/Permissions/Name.antt =====
-- Names of permissions: permissions/helpers/permission.helper.ts. A name is `module:action`; `*` in
-- either place stands for all, and `write` for `create` and `update`.
pub mod Parts
pub mod Hierarchy
use Prim.Native.Char.{Char, code}
use Prim.Native.String.{◌++◌}
use api_payment.Common.{
  String, Bool, true, false, ◌&&◌, ◌||◌, Option, none, some, List, [], ◌∷◌, str_eq, ◌==◌,
  if◌then◌else◌,
}
use api_payment.Common.Lists.{includes}

pub record ParsedPermission : Type 0 where
  -- `module` in the source
  pub module_name : String
  pub action : String

-- What a character does to the parts of the text behind it.
add_char : Char → List String → List String
add_char c [] = []
add_char c (p ∷ ps) = if code c == b':' then "" ∷ p ∷ ps else (String.◌∷◌ c p) ∷ ps

-- `permission.split(':')`
unfoldable pub split : String → List String
unfolding add_char
split String.[] = "" ∷ []
split (String.◌∷◌ c s) = add_char c (split s)

two_parts : List String → Option ParsedPermission
two_parts (m ∷ a ∷ []) = some (record { module_name = m; action = a })
two_parts _ = none

unfoldable pub parse_permission : String → Option ParsedPermission
unfolding split two_parts
parse_permission permission = two_parts (split permission)

-- `${module}:${action}`
abbrev pub permission_name : String → String → String
permission_name m a = m ++ (":" ++ a)

infix 50 ◌===◌
abbrev ◌===◌ : String → String → Bool
◌===◌ = str_eq

abbrev pub is_written : String → Bool
is_written action = action === "create" || action === "update"

matches_parsed : ParsedPermission → Option ParsedPermission → Bool
matches_parsed required none = false
matches_parsed required (some user) =
    if user.module_name === required.module_name && user.action === required.action
    then true
    else if user.module_name === "*" && user.action === "*"
    then true
    else if user.module_name === required.module_name && user.action === "*"
    then true
    else if user.module_name === required.module_name
        && user.action === "write"
        && is_written required.action
    then true
    else false

unfoldable pub matches_permission : ParsedPermission → String → Bool
unfolding parse_permission matches_parsed
matches_permission required user_perm = matches_parsed required (parse_permission user_perm)

unfoldable pub check_wildcards : List String → Option ParsedPermission → Bool
check_wildcards user_permissions none = false
check_wildcards user_permissions (some required) =
    if includes user_permissions "*:*"
    then true
    else if includes user_permissions (permission_name required.module_name "*")
    then true
    else if is_written required.action
        && includes user_permissions (permission_name required.module_name "write")
    then true
    else false

unfoldable pub check_permission_hierarchy : List String → String → Bool
unfolding check_wildcards
check_permission_hierarchy user_permissions required_permission =
    if includes user_permissions required_permission
    then true
    else check_wildcards user_permissions (parse_permission required_permission)
