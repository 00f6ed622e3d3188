-- ===== src/Audit/Interceptor/Kept.antt =====
-- common/audit/interceptors/audit.interceptor.ts: what the new values of a log entry hold.
use api_payment.Common.{
  ◌≡◌, ◌≢◌, String, Option, none, some, List, [], ◌∷◌, arith, true, Bool-cases, inl, inr, refl,
}
use api_payment.Audit.Value.{
  Value, Fields, null, undefined, scalar, opaque, array, map_of, set_of, record_of, instance_of,
  is_record, has_key, no_field, field,
}
use api_payment.Audit.Sanitize.{lower_all, sanitize, remove_fields, remove_keys}
use api_payment.Audit.Sanitize.Clean.{KeysShown, Clean, sanitize-Clean}
use api_payment.Audit.Sanitize.Removed.{remove_keys-KeysShown, remove_fields-Clean}
use api_payment.Audit.Interceptor.{
  record_or_empty, unless_empty, without_ignored, extract_new_values,
}

unless_empty-some : (fs gs : Fields) → unless_empty fs ≡ some gs → (gs ≡ fs) × (gs ≢ no_field)
unfolding unless_empty
unless_empty-some no_field gs e = absurd (ground (arith, e))
unless_empty-some (field k x fs) gs e = ground (arith, e)

recorded :
    (P : Fields → Type 0) (fs : Fields) → P no_field → P fs → P (record_or_empty (record_of fs))
unfolding record_or_empty
recorded P fs p q = elim (Bool-cases (is_record (record_of fs))) [
  | inl plain ↦ rw plain q
  | inr other ↦ rw other p
]

-- What is a record or the empty one is a record.
pub record_or_empty-is_record : (v : Value) → is_record (record_of (record_or_empty v)) ≡ true
unfolding record_or_empty is_record has_key
record_or_empty-is_record (record_of fs) = elim (Bool-cases (is_record (record_of fs))) [
  | inl plain ↦ ground (arith, plain)
  | inr other ↦ ground (arith, other)
]
record_or_empty-is_record null = refl
record_or_empty-is_record undefined = refl
record_or_empty-is_record (scalar s) = refl
record_or_empty-is_record (opaque s) = refl
record_or_empty-is_record (instance_of fs) = refl
record_or_empty-is_record (array xs) = refl
record_or_empty-is_record (map_of es) = refl
record_or_empty-is_record (set_of xs) = refl

pub without_ignored-is_record :
    (to_lower : String → String) (ignore_fields : Option (List String)) (v : Value)
    → is_record (record_of (without_ignored to_lower ignore_fields (record_or_empty v))) ≡ true
unfolding without_ignored
without_ignored-is_record to_lower none v = record_or_empty-is_record v
without_ignored-is_record to_lower (some []) v = record_or_empty-is_record v
without_ignored-is_record to_lower (some (f ∷ names)) v = record_or_empty-is_record _

module _ (to_lower : String → String) (sensitive_fields : List String) where
  -- The object may be kept in the log: it has a field, `isRecord` takes it, no object in it that
  -- `isRecord` takes has a sensitive key, at a depth up to 20, and it has no key that is to be ignored.
  abbrev pub MayBeKept : Option (List String) → Fields → Type 0
  MayBeKept ignore_fields fs =
      ((fs ≢ no_field) × (is_record (record_of fs) ≡ true))
      × (Clean to_lower sensitive_fields 0 (record_of fs)
          × ((names : List String)
              → ignore_fields ≡ some names
              → KeysShown to_lower (lower_all to_lower names) fs))

  pub record_or_empty-Clean :
      (v : Value)
      → Clean to_lower sensitive_fields 0 v
      → Clean to_lower sensitive_fields 0 (record_of (record_or_empty v))
  unfolding record_or_empty Clean KeysShown
  record_or_empty-Clean (record_of fs) h =
      recorded (λ gs. Clean to_lower sensitive_fields 0 (record_of gs)) fs
        (λ plain. ((λ le. tt), tt)) h
  record_or_empty-Clean null h = λ plain. ((λ le. tt), tt)
  record_or_empty-Clean undefined h = λ plain. ((λ le. tt), tt)
  record_or_empty-Clean (scalar s) h = λ plain. ((λ le. tt), tt)
  record_or_empty-Clean (opaque s) h = λ plain. ((λ le. tt), tt)
  record_or_empty-Clean (instance_of fs) h = λ plain. ((λ le. tt), tt)
  record_or_empty-Clean (array xs) h = λ plain. ((λ le. tt), tt)
  record_or_empty-Clean (map_of es) h = λ plain. ((λ le. tt), tt)
  record_or_empty-Clean (set_of xs) h = λ plain. ((λ le. tt), tt)

  pub without_ignored-Clean :
      (ignore_fields : Option (List String)) (fs : Fields)
      → Clean to_lower sensitive_fields 0 (record_of fs)
      → Clean to_lower sensitive_fields 0 (record_of (without_ignored to_lower ignore_fields fs))
  unfolding without_ignored
  without_ignored-Clean none fs h = h
  without_ignored-Clean (some []) fs h = h
  without_ignored-Clean (some (f ∷ names)) fs h =
      record_or_empty-Clean _
        (remove_fields-Clean to_lower (f ∷ names) sensitive_fields (record_of fs) 0 h)

  KeysShown-none : (fs : Fields) → KeysShown to_lower (lower_all to_lower []) fs
  unfolding KeysShown lower_all
  KeysShown-none no_field = tt
  KeysShown-none (field k x fs) = ground (arith, KeysShown-none fs)

  removed-KeysShown :
      (names : List String) (fs : Fields)
      → KeysShown to_lower
          (lower_all to_lower names)
          (record_or_empty (remove_fields to_lower names 0 (record_of fs)))
  unfolding remove_fields record_or_empty KeysShown
  removed-KeysShown names fs = elim (Bool-cases (is_record (record_of fs))) [
    | inl plain ↦ rw plain (
        recorded (KeysShown to_lower (lower_all to_lower names)) (remove_keys to_lower names 1 fs)
          tt (remove_keys-KeysShown to_lower names 1 fs))
    | inr other ↦ rw (other, other) tt
  ]

  pub without_ignored-KeysShown :
      (names : List String) (fs : Fields)
      → KeysShown to_lower (lower_all to_lower names) (without_ignored to_lower (some names) fs)
  unfolding without_ignored
  without_ignored-KeysShown [] fs = KeysShown-none fs
  without_ignored-KeysShown (f ∷ names) fs = removed-KeysShown (f ∷ names) fs

  -- What a body is cleaned to may be kept, if it is not empty.
  cleaned-MayBeKept :
      (body : Value) (ignore_fields : Option (List String)) (fs : Fields)
      → unless_empty (
          without_ignored to_lower ignore_fields
            (record_or_empty (sanitize to_lower sensitive_fields 0 body)))
        ≡ some fs
      → MayBeKept ignore_fields fs
  cleaned-MayBeKept body ignore_fields fs e =
      let w =
        without_ignored to_lower ignore_fields
          (record_or_empty (sanitize to_lower sensitive_fields 0 body)) in
      let same = unless_empty-some w fs e in
      (
        (same.1, rw same.0 (without_ignored-is_record to_lower ignore_fields _)),
        (
          rw same.0 (
              without_ignored-Clean ignore_fields _
                (record_or_empty-Clean _ (sanitize-Clean to_lower sensitive_fields 0 body))),
          (λ names given. rw (same.0, given) (without_ignored-KeysShown names _)),
        ),
      )

-- The new values that are taken from a body have a field and no own key `constructor`; no plain object in
-- them without an own key `constructor`, at a depth of at most 20 and reached through arrays, maps, sets
-- and such objects, has a sensitive key; and no key at the top is one of those to be ignored.
pub extract_new_values-MayBeKept :
    (to_lower : String → String) (sensitive_fields : List String) (body : Value)
    (ignore_fields : Option (List String)) (fs : Fields)
    → extract_new_values to_lower sensitive_fields body ignore_fields ≡ some fs
    → MayBeKept to_lower sensitive_fields ignore_fields fs
unfolding extract_new_values
extract_new_values-MayBeKept to_lower sensitive_fields null ignore_fields fs e =
    absurd (ground (arith, e))
extract_new_values-MayBeKept to_lower sensitive_fields undefined ignore_fields fs e =
    absurd (ground (arith, e))
extract_new_values-MayBeKept to_lower sensitive_fields (scalar s) ignore_fields fs e =
    cleaned-MayBeKept to_lower sensitive_fields (scalar s) ignore_fields fs e
extract_new_values-MayBeKept to_lower sensitive_fields (opaque s) ignore_fields fs e =
    cleaned-MayBeKept to_lower sensitive_fields (opaque s) ignore_fields fs e
extract_new_values-MayBeKept to_lower sensitive_fields (array xs) ignore_fields fs e =
    cleaned-MayBeKept to_lower sensitive_fields (array xs) ignore_fields fs e
extract_new_values-MayBeKept to_lower sensitive_fields (map_of es) ignore_fields fs e =
    cleaned-MayBeKept to_lower sensitive_fields (map_of es) ignore_fields fs e
extract_new_values-MayBeKept to_lower sensitive_fields (set_of xs) ignore_fields fs e =
    cleaned-MayBeKept to_lower sensitive_fields (set_of xs) ignore_fields fs e
extract_new_values-MayBeKept to_lower sensitive_fields (record_of gs) ignore_fields fs e =
    cleaned-MayBeKept to_lower sensitive_fields (record_of gs) ignore_fields fs e
extract_new_values-MayBeKept to_lower sensitive_fields (instance_of gs) ignore_fields fs e =
    cleaned-MayBeKept to_lower sensitive_fields (instance_of gs) ignore_fields fs e
