-- ===== src/Audit/OldValues.antt =====
-- common/audit/interceptors/audit.interceptor.ts: what is kept of an entity as it was before a change.
pub mod Kept
use api_payment.Common.{
  ℕ, zero, suc, ◌+◌, String, Bool, true, false, Option, none, some, List, [], ◌∷◌, ltb,
  if◌then◌else◌,
}
use api_payment.Common.Lists.{includes}
use api_payment.Audit.Value.{
  Value, Items, Fields, null, undefined, scalar, opaque, array, map_of, set_of, record_of,
  instance_of, is_record, no_item, item, no_field, field,
}
use api_payment.Audit.Sanitize.{sanitize}
use api_payment.Audit.Interceptor.{record_or_empty, without_ignored}

abbrev pub internal_fields : List String
internal_fields =
    "id" ∷ "createdAt" ∷ "updatedAt" ∷ "deletedAt" ∷ "created_at" ∷ "updated_at" ∷ "deleted_at" ∷ []

module _ (fields_to_remove : List String) where
  -- `removeInternalFields`: an object is changed in place. A map and a set have no fields that `in` finds.
  unfoldable mutual
    pub remove_internal_fields : Value → Value
    remove_internal_fields (record_of fs) = record_of (remove_internal_keys fs)
    remove_internal_fields (instance_of fs) = instance_of (remove_internal_keys fs)
    remove_internal_fields (array xs) = array (remove_internal_items xs)
    remove_internal_fields null = null
    remove_internal_fields undefined = undefined
    remove_internal_fields (scalar s) = scalar s
    remove_internal_fields (opaque s) = opaque s
    remove_internal_fields (map_of es) = map_of es
    remove_internal_fields (set_of xs) = set_of xs

    pub remove_internal_items : Items → Items
    remove_internal_items no_item = no_item
    remove_internal_items (item x xs) = item (remove_internal_fields x) (remove_internal_items xs)

    pub remove_internal_keys : Fields → Fields
    remove_internal_keys no_field = no_field
    remove_internal_keys (field k x fs) =
        let rest = remove_internal_keys fs in
        let kept = field k (remove_internal_fields x) rest in
        if includes fields_to_remove k then rest else kept

-- `nestedCount > 0`, else whether the object has keys
unfoldable pub count_nested : Fields → ℕ → ℕ
count_nested fs (suc n) = suc n
count_nested no_field zero = 0
count_nested (field k x fs) zero = 1

unfoldable mutual
  pub count_fields : Value → ℕ
  count_fields (array xs) = count_items xs
  count_fields (record_of fs) = let n = count_keys fs in if is_record (record_of fs) then n else 0
  count_fields null = 0
  count_fields undefined = 0
  count_fields (scalar s) = 0
  count_fields (opaque s) = 0
  count_fields (map_of es) = 0
  count_fields (set_of xs) = 0
  count_fields (instance_of fs) = 0

  -- The sum over the items, of which an object is counted by `count_fields`
  pub count_items : Items → ℕ
  count_items no_item = 0
  count_items (item (scalar s) xs) = 1 + count_items xs
  count_items (item x xs) = count_fields x + count_items xs

  pub count_keys : Fields → ℕ
  count_keys no_field = 0
  count_keys (field k null fs) = count_keys fs
  count_keys (field k undefined fs) = count_keys fs
  count_keys (field k (record_of gs) fs) =
      let n = count_keys gs in
      let rest = count_keys fs in (if is_record (record_of gs) then count_nested gs n else 1) + rest
  count_keys (field k (array xs) fs) = count_items xs + count_keys fs
  count_keys (field k x fs) = 1 + count_keys fs

-- `fieldsCount > 0`
unfoldable pub if_counted : Fields → Option Fields
unfolding count_fields
if_counted fs = if ltb 0 (count_fields (record_of fs)) then some fs else none

-- The end of `fetchOldValues`, from the entity as an object
unfoldable pub old_values :
    (String → String) → List String → Value → Option (List String) → Option Fields
old_values to_lower sensitive_fields entity_object ignore_fields = if_counted (
    remove_internal_keys internal_fields (
      without_ignored to_lower ignore_fields
        (record_or_empty (sanitize to_lower sensitive_fields 0 entity_object))))
