-- ===== src/Audit/Interceptor.antt =====
-- common/audit/interceptors/audit.interceptor.ts: what is kept of the body of a request.
pub mod Kept
use api_payment.Common.{if◌then◌else◌, ℕ, String, Option, none, some, List, [], ◌∷◌}
use api_payment.Audit.Value.{
  Value, Fields, null, undefined, scalar, opaque, array, map_of, set_of, record_of, instance_of,
  is_record, no_field, field,
}
use api_payment.Audit.Sanitize.{sanitize, remove_fields}

-- `isRecord(value) ? value : {}`
unfoldable pub record_or_empty : Value → Fields
record_or_empty (record_of fs) = if is_record (record_of fs) then fs else no_field
record_or_empty _ = no_field

-- `Object.keys(record).length > 0 ? record : undefined`
unfoldable pub unless_empty : Fields → Option Fields
unless_empty no_field = none
unless_empty (field k x fs) = some (field k x fs)

module _ (to_lower : String → String) where
  -- `if (ignoreFields && ignoreFields.length > 0)`
  unfoldable pub without_ignored : Option (List String) → Fields → Fields
  unfolding record_or_empty remove_fields
  without_ignored (some (f ∷ fs)) sanitized =
      record_or_empty (remove_fields to_lower (f ∷ fs) 0 (record_of sanitized))
  without_ignored _ sanitized = sanitized

  module _ (sensitive_fields : List String) where
    -- A text, number or Boolean that counts as false has no fields, so that it ends as any other scalar.
    unfoldable pub extract_new_values : Value → Option (List String) → Option Fields
    extract_new_values null ignore_fields = none
    extract_new_values undefined ignore_fields = none
    extract_new_values body ignore_fields = unless_empty (
        without_ignored ignore_fields (record_or_empty (sanitize to_lower sensitive_fields 0 body)))
