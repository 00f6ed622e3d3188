-- ===== src/Audit/Sanitize/Lookup.antt =====
-- common/audit/helpers/sanitize-data.helper.ts: what `sanitize` keeps of an object.
use api_payment.Common.{
  ℕ, ◌+◌, ◌≤◌, ◌≡◌, String, Bool, false, List, Option, none, some, if◌then◌else◌, arith, str_eq,
  eq_iff, Bool-cases, inl, inr,
}
use api_payment.Audit.Value.{Value, Fields, record_of, is_record, has_key, no_field, field}
use api_payment.Audit.Sanitize.{max_depth, is_dropped, sanitize, sanitize_fields}

unfoldable lookup_field : String → Fields → Option Value
lookup_field key no_field = none
lookup_field key (field k x fs) =
    let rest = lookup_field key fs in if str_eq k key then some x else rest

-- `value[key]` of an object, none for a key that it has not
unfoldable pub field_of : String → Value → Option Value
unfolding lookup_field
field_of key (record_of fs) = lookup_field key fs
field_of key _ = none

module _ (to_lower : String → String) (sensitive_fields : List String) where
  unfoldable pub cleaned : ℕ → Bool → Option Value → Option Value
  cleaned depth false (some v) = some (sanitize to_lower sensitive_fields depth v)
  cleaned depth _ _ = none

  sanitize_fields-lookup_field :
      (key : String) (depth : ℕ) (fs : Fields)
      → lookup_field key (sanitize_fields to_lower sensitive_fields depth fs)
        ≡ cleaned depth (is_dropped to_lower sensitive_fields key) (lookup_field key fs)
  unfolding lookup_field cleaned sanitize
  sanitize_fields-lookup_field key depth no_field = ground arith
  sanitize_fields-lookup_field key depth (field k x fs) =
      elim (Bool-cases (is_dropped to_lower sensitive_fields k)) [
        | inl e ↦ ground (arith, eq_iff k key, sanitize_fields-lookup_field key depth fs)
        | inr e ↦ ground (arith, eq_iff k key, sanitize_fields-lookup_field key depth fs)
      ]

-- `sanitize` of a plain object that is at most 20 levels deep leaves it as it is if it has an own key
-- `constructor`. Else it drops exactly the fields with a sensitive key or the key `__proto__`: such a key
-- has no value afterwards, and any other has the value that it had, cleaned one level deeper, or none if
-- it had none.
pub sanitize-field_of :
    (to_lower : String → String) (sensitive_fields : List String) (key : String) (depth : ℕ)
    (fs : Fields)
    → depth ≤ max_depth
    → field_of key (sanitize to_lower sensitive_fields depth (record_of fs)) ≡ (
        if has_key "constructor" fs
        then field_of key (record_of fs)
        else cleaned to_lower sensitive_fields
            (depth + 1)
            (is_dropped to_lower sensitive_fields key)
            (field_of key (record_of fs)))
unfolding sanitize field_of is_record
sanitize-field_of to_lower sensitive_fields key depth fs h =
    ground (arith, sanitize_fields-lookup_field to_lower sensitive_fields key (depth + 1) fs)
