-- ===== src/Audit/OldValues/Kept.antt =====
-- common/audit/interceptors/audit.interceptor.ts: what the old values of a log entry hold.
use api_payment.Common.{
  Bool, Option, none, some, if◌then◌else◌, refl, sym, ap, ◌∙◌, not, eq_iff, ℕ, ◌+◌, ◌≡◌, ◌≢◌,
  String, false, List, arith,
}
use api_payment.Common.Lists.{includes}
use api_payment.Audit.Value.{
  Value, Items, Fields, null, undefined, scalar, opaque, array, map_of, set_of, record_of,
  instance_of, is_record, has_key, no_item, item, no_field, field,
}
use api_payment.Audit.Sanitize.{lower_all, sanitize}
use api_payment.Audit.Sanitize.Clean.{KeysShown, Clean, CleanItems, CleanFields, sanitize-Clean}
use api_payment.Audit.Interceptor.{record_or_empty, without_ignored}
use api_payment.Audit.Interceptor.Kept.{
  MayBeKept, without_ignored-is_record, record_or_empty-Clean, without_ignored-Clean,
  without_ignored-KeysShown,
}
use api_payment.Audit.OldValues.{
  internal_fields, remove_internal_fields, remove_internal_items, remove_internal_keys,
  count_fields, if_counted, old_values,
}

module _ (names : List String) where
  -- None of the names is a key of an object that is reached through arrays and objects.
  unfoldable mutual
    pub Without : Value → Type 0
    Without (record_of fs) = WithoutKeys fs
    Without (instance_of fs) = WithoutKeys fs
    Without (array xs) = WithoutItems xs
    Without null = Unit
    Without undefined = Unit
    Without (scalar s) = Unit
    Without (opaque s) = Unit
    Without (map_of es) = Unit
    Without (set_of xs) = Unit

    pub WithoutItems : Items → Type 0
    WithoutItems no_item = Unit
    WithoutItems (item x xs) = Without x × WithoutItems xs

    pub WithoutKeys : Fields → Type 0
    WithoutKeys no_field = Unit
    WithoutKeys (field k x fs) = (includes names k ≡ false) × (Without x × WithoutKeys fs)

  mutual
    unfolding Without remove_internal_fields

    removed-Without : (v : Value) → Without (remove_internal_fields names v)
    removed-Without (record_of fs) = removed_keys-Without fs
    removed-Without (instance_of fs) = removed_keys-Without fs
    removed-Without (array xs) = removed_items-Without xs
    removed-Without null = tt
    removed-Without undefined = tt
    removed-Without (scalar s) = tt
    removed-Without (opaque s) = tt
    removed-Without (map_of es) = tt
    removed-Without (set_of xs) = tt

    removed_items-Without : (xs : Items) → WithoutItems (remove_internal_items names xs)
    removed_items-Without no_item = tt
    removed_items-Without (item x xs) = (removed-Without x, removed_items-Without xs)

    removed_keys-Without : (fs : Fields) → WithoutKeys (remove_internal_keys names fs)
    removed_keys-Without no_field = tt
    removed_keys-Without (field k x fs) = ground (arith, removed-Without x, removed_keys-Without fs)

  removed-has_key :
      includes names "constructor" ≡ false
      → (fs : Fields)
      → has_key "constructor" (remove_internal_keys names fs) ≡ has_key "constructor" fs
  unfolding remove_internal_fields has_key
  removed-has_key others no_field = refl
  removed-has_key others (field k x fs) =
      ground (arith, eq_iff k "constructor", removed-has_key others fs)

  -- `isRecord` takes the same objects afterwards.
  removed-is_record :
      includes names "constructor" ≡ false
      → (fs : Fields)
      → is_record (record_of (remove_internal_keys names fs)) ≡ is_record (record_of fs)
  unfolding is_record
  removed-is_record others fs = ap not (removed-has_key others fs)

  module _ (to_lower : String → String) (sensitive_fields : List String)
      (others : includes names "constructor" ≡ false) where
    removed-KeysShown :
        (fs : Fields)
        → KeysShown to_lower sensitive_fields fs
        → KeysShown to_lower sensitive_fields (remove_internal_keys names fs)
    unfolding KeysShown remove_internal_fields
    removed-KeysShown no_field h = tt
    removed-KeysShown (field k x fs) h = ground (arith, removed-KeysShown fs)

    mutual
      unfolding Clean remove_internal_fields

      removed-Clean :
          (v : Value) (depth : ℕ)
          → Clean to_lower sensitive_fields depth v
          → Clean to_lower sensitive_fields depth (remove_internal_fields names v)
      removed-Clean null depth h = tt
      removed-Clean undefined depth h = tt
      removed-Clean (scalar s) depth h = tt
      removed-Clean (opaque s) depth h = tt
      removed-Clean (instance_of fs) depth h = tt
      removed-Clean (map_of es) depth h = h
      removed-Clean (set_of xs) depth h = h
      removed-Clean (array xs) depth h = removed_items-Clean xs (depth + 1) h
      removed-Clean (record_of fs) depth h = λ plain.
          let read = h (sym (removed-is_record others fs) ∙ plain) in
          ((λ le. removed-KeysShown fs (read.0 le)), removed_keys-Clean fs (depth + 1) read.1)

      removed_items-Clean :
          (xs : Items) (depth : ℕ)
          → CleanItems to_lower sensitive_fields depth xs
          → CleanItems to_lower sensitive_fields depth (remove_internal_items names xs)
      removed_items-Clean no_item depth h = tt
      removed_items-Clean (item x xs) depth h =
          (removed-Clean x depth h.0, removed_items-Clean xs depth h.1)

      removed_keys-Clean :
          (fs : Fields) (depth : ℕ)
          → CleanFields to_lower sensitive_fields depth fs
          → CleanFields to_lower sensitive_fields depth (remove_internal_keys names fs)
      removed_keys-Clean no_field depth h = tt
      removed_keys-Clean (field k x fs) depth h =
          ground (arith, removed-Clean x depth h.0, removed_keys-Clean fs depth h.1)

taken : (b : Bool) (fs gs : Fields) → (if b then some fs else none) ≡ some gs → gs ≡ fs
taken b fs gs e = ground (arith, e)

if_counted-some : (fs gs : Fields) → if_counted fs ≡ some gs → (gs ≡ fs) × (gs ≢ no_field)
unfolding if_counted count_fields is_record has_key
if_counted-some no_field gs e = absurd (ground (arith, e))
if_counted-some (field k x fs) gs e =
    let same = taken _ (field k x fs) gs e in (same, λ empty. let bad = sym same ∙ empty in cc)

-- The old values that are taken from an entity have a field and no own key `constructor`; no plain object
-- in them without an own key `constructor`, at a depth of at most 20 and reached through arrays, maps, sets
-- and such objects, has a sensitive key; no key at the top is one of those to be ignored; and no object
-- that is reached through arrays and objects has an id or a date of creation, change or deletion.
pub old_values-MayBeKept :
    (to_lower : String → String) (sensitive_fields : List String) (entity_object : Value)
    (ignore_fields : Option (List String)) (fs : Fields)
    → old_values to_lower sensitive_fields entity_object ignore_fields ≡ some fs
    → MayBeKept to_lower sensitive_fields ignore_fields fs × WithoutKeys internal_fields fs
unfolding old_values remove_internal_fields
old_values-MayBeKept to_lower sensitive_fields entity_object ignore_fields fs e =
    let w =
      without_ignored to_lower ignore_fields
        (record_or_empty (sanitize to_lower sensitive_fields 0 entity_object)) in
    let same = if_counted-some (remove_internal_keys internal_fields w) fs e in
    let clean = without_ignored-Clean to_lower sensitive_fields ignore_fields _ (
      record_or_empty-Clean to_lower sensitive_fields _
        (sanitize-Clean to_lower sensitive_fields 0 entity_object)) in
    (
      (
        (
          same.1,
          rw same.0 (
              removed-is_record internal_fields refl w
              ∙ without_ignored-is_record to_lower ignore_fields _),
        ),
        (
          rw same.0
              (removed-Clean internal_fields to_lower sensitive_fields refl (record_of w) 0 clean),
          (λ names given.
              rw (same.0, given)
                (removed-KeysShown internal_fields to_lower (lower_all to_lower names) refl _
                  (without_ignored-KeysShown to_lower sensitive_fields names _))),
        ),
      ),
      rw same.0 (removed_keys-Without internal_fields w),
    )
