-- ===== src/Audit/Sanitize/Removed.antt =====
-- common/audit/helpers/sanitize-data.helper.ts: `removeFields` on a value that was cleaned.
use api_payment.Common.{
  ◌≡◌, true, not, ◌||◌, Bool-cases, inl, inr, ℕ, ◌+◌, String, List, ltb, if◌then◌else◌, arith,
}
use api_payment.Audit.Value.{
  Value, Items, Fields, null, undefined, scalar, opaque, array, map_of, set_of, record_of,
  instance_of, is_record, no_item, item, no_field, field,
}
use api_payment.Audit.Sanitize.{
  max_depth, is_removed, lower_all, remove_fields, remove_items, remove_keys,
}
use api_payment.Audit.Sanitize.Clean.{or_false, or_true, KeysShown, Clean, CleanItems, CleanFields}

-- Either of two values is clean, and so is the one that the depth chooses.
cut-Clean_either :
    (to_lower : String → String) (sensitive_fields : List String) (depth : ℕ) (v w : Value)
    → Clean to_lower sensitive_fields depth v
    → Clean to_lower sensitive_fields depth w
    → Clean to_lower sensitive_fields depth (if ltb max_depth depth then v else w)
cut-Clean_either to_lower sensitive_fields depth v w hv hw = ground arith

cut_record-Clean_either :
    (to_lower : String → String) (sensitive_fields : List String) (depth : ℕ) (fs : Fields)
    (w : Value)
    → Clean to_lower sensitive_fields depth (record_of fs)
    → (is_record (record_of fs) ≡ true → Clean to_lower sensitive_fields depth w)
    → Clean to_lower sensitive_fields depth
        (if ltb max_depth depth || not (is_record (record_of fs)) then record_of fs else w)
cut_record-Clean_either to_lower sensitive_fields depth fs w hv hw =
    elim (Bool-cases (is_record (record_of fs))) [
      | inl plain ↦ rw plain (
          rw (or_false (ltb max_depth depth))
            (cut-Clean_either to_lower sensitive_fields depth (record_of fs) w hv (hw plain)))
      | inr other ↦ rw (other, or_true (ltb max_depth depth)) hv
    ]

module _ (to_lower : String → String) (fields_to_remove : List String) where
  -- No key that is to be removed is left in an object.
  pub remove_keys-KeysShown :
      (depth : ℕ) (fs : Fields)
      → KeysShown to_lower
          (lower_all to_lower fields_to_remove)
          (remove_keys to_lower fields_to_remove depth fs)
  unfolding KeysShown remove_fields is_removed
  remove_keys-KeysShown depth no_field = tt
  remove_keys-KeysShown depth (field k x fs) = ground (arith, remove_keys-KeysShown depth fs)

  module _ (sensitive_fields : List String) where
    remove_keys-KeysShown_still :
        (depth : ℕ) (fs : Fields)
        → KeysShown to_lower sensitive_fields fs
        → KeysShown to_lower sensitive_fields (remove_keys to_lower fields_to_remove depth fs)
    unfolding KeysShown remove_fields
    remove_keys-KeysShown_still depth no_field h = tt
    remove_keys-KeysShown_still depth (field k x fs) h =
        ground (arith, remove_keys-KeysShown_still depth fs)

    mutual
      unfolding Clean remove_fields

      removed-Clean :
          (v : Value) (depth : ℕ)
          → Clean to_lower sensitive_fields depth v
          → Clean to_lower sensitive_fields depth (remove_fields to_lower fields_to_remove depth v)
      removed-Clean null depth h = tt
      removed-Clean undefined depth h = tt
      removed-Clean (scalar s) depth h = tt
      removed-Clean (opaque s) depth h = tt
      removed-Clean (instance_of fs) depth h = tt
      removed-Clean (map_of es) depth h = h
      removed-Clean (set_of xs) depth h = h
      removed-Clean (array xs) depth h =
          cut-Clean_either to_lower sensitive_fields depth _ _ h
            (removed_items-Clean xs (depth + 1) h)
      removed-Clean (record_of fs) depth h =
          cut_record-Clean_either to_lower sensitive_fields depth fs _ h λ plain. λ still. (
            (λ le. remove_keys-KeysShown_still (depth + 1) fs ((h plain).0 le)),
            removed_keys-Clean fs (depth + 1) (h plain).1,
          )

      removed_items-Clean :
          (xs : Items) (depth : ℕ)
          → CleanItems to_lower sensitive_fields depth xs
          → CleanItems to_lower sensitive_fields depth
              (remove_items to_lower fields_to_remove depth xs)
      removed_items-Clean no_item depth h = tt
      removed_items-Clean (item x xs) depth h =
          (removed-Clean x depth h.0, removed_items-Clean xs depth h.1)

      removed_keys-Clean :
          (fs : Fields) (depth : ℕ)
          → CleanFields to_lower sensitive_fields depth fs
          → CleanFields to_lower sensitive_fields depth
              (remove_keys to_lower fields_to_remove depth fs)
      removed_keys-Clean no_field depth h = tt
      removed_keys-Clean (field k x fs) depth h =
          ground (arith, removed-Clean x depth h.0, removed_keys-Clean fs depth h.1)

    -- A value that has been cleaned stays clean.
    pub remove_fields-Clean :
        (v : Value) (depth : ℕ)
        → Clean to_lower sensitive_fields depth v
        → Clean to_lower sensitive_fields depth (remove_fields to_lower fields_to_remove depth v)
    remove_fields-Clean v depth h = removed-Clean v depth h
