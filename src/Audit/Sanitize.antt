-- ===== src/Audit/Sanitize.antt =====
-- common/audit/helpers/sanitize-data.helper.ts. `to_lower` is `toLowerCase`.
pub mod Clean
pub mod Removed
pub mod Lookup
use api_payment.Common.{
  ℕ, zero, suc, ◌+◌, String, Bool, true, false, Option, none, some, List, [], ◌∷◌, ltb, not, ◌||◌,
  str_eq, if◌then◌else◌,
}
use api_payment.Common.Lists.{includes}
use api_payment.Audit.Value.{
  Value, Items, Entries, Fields, null, undefined, scalar, opaque, array, map_of, set_of, record_of,
  instance_of, is_record, no_item, item, no_entry, entry, no_field, field,
}

abbrev pub max_depth : ℕ
max_depth = 20

unfoldable pub lower_all : (String → String) → List String → List String
lower_all to_lower [] = []
lower_all to_lower (f ∷ fs) = to_lower f ∷ lower_all to_lower fs

-- `getSensitiveFields`, of the parts of the environment variable, if it is set
unfoldable pub get_sensitive_fields : (String → String) → Option (List String) → List String
unfolding lower_all
get_sensitive_fields to_lower (some (f ∷ fs)) = lower_all to_lower (f ∷ fs)
get_sensitive_fields to_lower _ = lower_all to_lower ("password" ∷ [])

module _ (to_lower : String → String) (sensitive_fields : List String) where
  abbrev pub is_sensitive : String → Bool
  is_sensitive key = includes sensitive_fields (to_lower key)

  -- A field whose key is `__proto__` is not made by the assignment.
  abbrev pub is_dropped : String → Bool
  is_dropped key = is_sensitive key || str_eq key "__proto__"

  unfoldable mutual
    pub sanitize : ℕ → Value → Value
    sanitize depth (array xs) =
        let ys = sanitize_items (depth + 1) xs in if ltb max_depth depth then array xs else array ys
    sanitize depth (map_of es) =
        let ys = sanitize_entries (depth + 1) es in
        if ltb max_depth depth then map_of es else map_of ys
    sanitize depth (set_of xs) =
        let ys = sanitize_items (depth + 1) xs in
        if ltb max_depth depth then set_of xs else set_of ys
    sanitize depth (record_of fs) =
        let ys = sanitize_fields (depth + 1) fs in
        if ltb max_depth depth || not (is_record (record_of fs)) then record_of fs else record_of ys
    sanitize depth null = null
    sanitize depth undefined = undefined
    sanitize depth (scalar s) = scalar s
    sanitize depth (opaque s) = opaque s
    sanitize depth (instance_of fs) = instance_of fs

    pub sanitize_items : ℕ → Items → Items
    sanitize_items depth no_item = no_item
    sanitize_items depth (item x xs) = item (sanitize depth x) (sanitize_items depth xs)

    pub sanitize_entries : ℕ → Entries → Entries
    sanitize_entries depth no_entry = no_entry
    sanitize_entries depth (entry k x es) = entry k (sanitize depth x) (sanitize_entries depth es)

    pub sanitize_fields : ℕ → Fields → Fields
    sanitize_fields depth no_field = no_field
    sanitize_fields depth (field k x fs) =
        let rest = sanitize_fields depth fs in
        let kept = field k (sanitize depth x) rest in if is_dropped k then rest else kept

module _ (to_lower : String → String) (fields_to_remove : List String) where
  unfoldable pub is_removed : String → Bool
  is_removed key = includes (lower_all to_lower fields_to_remove) (to_lower key)

  -- `removeFields`, which does not look into maps and sets
  unfoldable mutual
    pub remove_fields : ℕ → Value → Value
    remove_fields depth (array xs) =
        let ys = remove_items (depth + 1) xs in if ltb max_depth depth then array xs else array ys
    remove_fields depth (record_of fs) =
        let ys = remove_keys (depth + 1) fs in
        if ltb max_depth depth || not (is_record (record_of fs)) then record_of fs else record_of ys
    remove_fields depth null = null
    remove_fields depth undefined = undefined
    remove_fields depth (scalar s) = scalar s
    remove_fields depth (opaque s) = opaque s
    remove_fields depth (map_of es) = map_of es
    remove_fields depth (set_of xs) = set_of xs
    remove_fields depth (instance_of fs) = instance_of fs

    pub remove_items : ℕ → Items → Items
    remove_items depth no_item = no_item
    remove_items depth (item x xs) = item (remove_fields depth x) (remove_items depth xs)

    pub remove_keys : ℕ → Fields → Fields
    remove_keys depth no_field = no_field
    remove_keys depth (field k x fs) =
        let rest = remove_keys depth fs in
        let kept = field k (remove_fields depth x) rest in
        if is_removed k || str_eq k "__proto__" then rest else kept
