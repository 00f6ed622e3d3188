-- ===== src/Audit/Tests.antt =====
-- The body of a request with passwords in it, cleaned for the log.
use api_payment.Common.{◌≡◌, refl, String, some, List, [], ◌∷◌, str_eq, if◌then◌else◌, arith}
use api_payment.Audit.Value.{
  Fields, null, scalar, array, map_of, record_of, is_record, has_key, no_item, item, no_entry,
  entry, no_field, field,
}
use api_payment.Audit.Sanitize.{is_dropped, lower_all, sanitize, remove_fields, is_removed}
use api_payment.Audit.Sanitize.Lookup.{cleaned, field_of, sanitize-field_of}
use api_payment.Audit.Interceptor.{
  record_or_empty, unless_empty, without_ignored, extract_new_values,
}
use api_payment.Audit.Interceptor.Kept.{MayBeKept, extract_new_values-MayBeKept}
use api_payment.Audit.OldValues.{
  internal_fields, remove_internal_fields, count_fields, count_nested, if_counted, old_values,
}
use api_payment.Audit.OldValues.Kept.{WithoutKeys, old_values-MayBeKept}

-- `toLowerCase`, for the keys of the examples
abbrev lower : String → String
lower s = if str_eq s "Password" then "password" else s

abbrev sensitive : List String
sensitive = "password" ∷ []

abbrev credentials : Fields
credentials = field "Password" (scalar "secret") (field "name" (scalar "Ana") no_field)

abbrev body : Fields
body = field "users" (array (item (record_of credentials) no_item)) (
    field "byId" (map_of (entry (scalar "1") (record_of credentials) no_entry))
      (field "trace" (scalar "t") (field "password" (scalar "secret") no_field)))

abbrev named : Fields
named = field "name" (scalar "Ana") no_field

abbrev kept : Fields
kept =
    field "users" (array (item (record_of named) no_item))
      (field "byId" (map_of (entry (scalar "1") (record_of named) no_entry)) no_field)

extracted : extract_new_values lower sensitive (record_of body) (some ("trace" ∷ [])) ≡ some kept
unfolding extract_new_values without_ignored record_or_empty unless_empty is_record has_key sanitize
    remove_fields is_removed lower_all
extracted = refl

extract_new_values-MayBeKept_example : MayBeKept lower sensitive (some ("trace" ∷ [])) kept
extract_new_values-MayBeKept_example =
    extract_new_values-MayBeKept lower sensitive (record_of body) (some ("trace" ∷ [])) kept
      extracted

sanitize-field_of_example :
    field_of "Password" (sanitize lower sensitive 1 (record_of credentials)) ≡ (
      if has_key "constructor" credentials
      then field_of "Password" (record_of credentials)
      else cleaned lower sensitive 2
          (is_dropped lower sensitive "Password")
          (field_of "Password" (record_of credentials)))
sanitize-field_of_example = sanitize-field_of lower sensitive "Password" 1 credentials (omega arith)

-- An entity with a relation
abbrev entity : Fields
entity = field "id" (scalar "1") (
    field "owner" (record_of (field "id" (scalar "2") credentials))
      (field "trace" (scalar "t") (field "deletedAt" null no_field)))

abbrev old : Fields
old = field "owner" (record_of named) no_field

fetched : old_values lower sensitive (record_of entity) (some ("trace" ∷ [])) ≡ some old
unfolding old_values if_counted count_fields count_nested remove_internal_fields without_ignored
    record_or_empty sanitize remove_fields is_removed lower_all is_record has_key
fetched = refl

old_values-MayBeKept_example :
    MayBeKept lower sensitive (some ("trace" ∷ [])) old × WithoutKeys internal_fields old
old_values-MayBeKept_example =
    old_values-MayBeKept lower sensitive (record_of entity) (some ("trace" ∷ [])) old fetched
