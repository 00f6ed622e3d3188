-- ===== src/Permissions/Name/Hierarchy.antt =====
-- `checkPermissionHierarchy`, which compares names as texts, against `matchesPermission`, which
-- compares their parts.
use api_payment.Common.{
  String, ◌≡◌, refl, inl, inr, Bool, false, ◌&&◌, ◌||◌, Option, none, some, List, [], ◌∷◌, str_eq,
  eq_iff, Option-cases, arith,
}
use api_payment.Common.Lists.{includes}
use api_payment.Permissions.Name.{
  ParsedPermission, parse_permission, permission_name, is_written, matches_parsed,
  matches_permission, check_wildcards, check_permission_hierarchy,
}
use api_payment.Permissions.Name.Parts.{LacksColon, parse_permission_iff}

-- `permissions.some(p)`
abbrev pub any : (String → Bool) → List String → Bool
any p [] = false
any p (x ∷ xs) = p x || any p xs

-- Without wildcards a name that is granted is granted by itself alone; with a module and an action it
-- is granted by the names that `matchesPermission` accepts.
abbrev pub any_grants : List String → Option ParsedPermission → Bool
any_grants names none = false
any_grants names (some required) = any (matches_permission required) names

-- Two names with the same parts are the same text.
name_eq :
    (u : String) (user : ParsedPermission) (m a : String)
    → parse_permission u ≡ some user
    → LacksColon m
    → LacksColon a
    → str_eq u (permission_name m a) ≡ str_eq user.module_name m && str_eq user.action a
name_eq u user m a parsed hm ha =
    let parts : ParsedPermission = record { module_name = m; action = a } in
    let split_u = (parse_permission_iff u user).0 parsed in
    ground (
      arith,
      parse_permission_iff u parts,
      split_u,
      eq_iff u (permission_name m a),
      eq_iff user.module_name m,
      eq_iff user.action a,
    )

no_name :
    (u m a : String)
    → parse_permission u ≡ none
    → LacksColon m
    → LacksColon a
    → str_eq u (permission_name m a) ≡ false
no_name u m a e hm ha =
    let parts : ParsedPermission = record { module_name = m; action = a } in
    ground (arith, parse_permission_iff u parts, eq_iff u (permission_name m a))

-- The four names that grant `m:a`.
grants : String → String → String → Bool
grants m a u =
    str_eq u (permission_name m a)
    || str_eq u "*:*"
    || str_eq u (permission_name m "*")
    || (is_written a && str_eq u (permission_name m "write"))

matches_permission-grants :
    (m a u : String)
    → LacksColon m
    → LacksColon a
    → matches_permission (record { module_name = m; action = a }) u ≡ grants m a u
unfolding matches_permission matches_parsed grants
matches_permission-grants m a u hm ha = elim (Option-cases (parse_permission u)) [
  | inl e ↦ rw e (
      ground (
        arith,
        no_name u m a e hm ha,
        no_name u "*" "*" e (omega arith) (omega arith),
        no_name u m "*" e hm (omega arith),
        no_name u m "write" e hm (omega arith),
      ))
  | inr (user, e) ↦ rw e (
      ground (
        arith,
        name_eq u user m a e hm ha,
        name_eq u user "*" "*" e (omega arith) (omega arith),
        name_eq u user m "*" e hm (omega arith),
        name_eq u user m "write" e hm (omega arith),
      ))
]

regroup :
    (w a b c d a' b' c' d' : Bool)
    → (a || b || c || (w && d)) || (a' || b' || c' || (w && d'))
      ≡ (a || a') || (b || b') || (c || c') || (w && (d || d'))
regroup w a b c d a' b' c' d' = ground arith

any-grants :
    (m a : String) (hm : LacksColon m) (ha : LacksColon a) (names : List String)
    → any (matches_permission (record { module_name = m; action = a })) names
      ≡ includes names (permission_name m a)
        || includes names "*:*"
        || includes names (permission_name m "*")
        || (is_written a && includes names (permission_name m "write"))
unfolding grants
any-grants m a hm ha [] = ground arith
any-grants m a hm ha (u ∷ us) =
    rw (matches_permission-grants m a u hm ha, any-grants m a hm ha us)
      (regroup (is_written a) (str_eq u (permission_name m a)) (str_eq u "*:*")
        (str_eq u (permission_name m "*")) (str_eq u (permission_name m "write"))
        (includes us (permission_name m a)) (includes us "*:*")
        (includes us (permission_name m "*")) (includes us (permission_name m "write")))

check_wildcards-any :
    (names : List String) (required : String) (r : Option ParsedPermission)
    → parse_permission required ≡ r
    → includes names required || check_wildcards names r
      ≡ includes names required || any_grants names r
unfolding check_wildcards
check_wildcards-any names required none e = refl
check_wildcards-any names required (some r) e =
    let (text, hm, ha) = (parse_permission_iff required r).0 e in
    rw (any-grants r.module_name r.action hm ha names, ← text) (ground arith)

-- `checkPermissionHierarchy` answers true exactly when the list has the required name itself or the
-- required name has a module and an action and `matchesPermission` accepts one name of the list.
pub check_permission_hierarchy-any :
    (names : List String) (required : String)
    → check_permission_hierarchy names required
      ≡ includes names required || any_grants names (parse_permission required)
unfolding check_permission_hierarchy
check_permission_hierarchy-any names required =
    ground (arith, check_wildcards-any names required (parse_permission required) refl)
