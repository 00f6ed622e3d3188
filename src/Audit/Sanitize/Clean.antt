-- ===== src/Audit/Sanitize/Clean.antt =====
-- common/audit/helpers/sanitize-data.helper.ts: what is left in a value that `sanitize` returns.
use api_payment.Common.{
  ℕ, ◌+◌, ◌≤◌, ◌<◌, ◌≡◌, String, Bool, true, false, List, ltb, not, ◌||◌, Bool-cases, inl, inr, sym,
  ◌∙◌, if◌then◌else◌, arith,
}
use api_payment.Audit.Value.{
  Value, Items, Entries, Fields, null, undefined, scalar, opaque, array, map_of, set_of, record_of,
  instance_of, is_record, no_item, item, no_entry, entry, no_field, field,
}
use api_payment.Audit.Sanitize.{
  max_depth, is_sensitive, sanitize, sanitize_items, sanitize_entries, sanitize_fields,
}

false-not-true : false ≡ true → ⊥
false-not-true h = cc

pub or_false : (b : Bool) → (b || false) ≡ b
or_false b = ground arith

pub or_true : (b : Bool) → (b || true) ≡ true
or_true b = ground arith

module _ (to_lower : String → String) (sensitive_fields : List String) where
  -- An object has no key that is kept from the log.
  unfoldable pub KeysShown : Fields → Type 0
  KeysShown no_field = Unit
  KeysShown (field k x fs) = (is_sensitive to_lower sensitive_fields k ≡ false) × KeysShown fs

  -- Every object that `isRecord` takes, at a depth of at most 20, reached through arrays, maps, sets and plain objects,
  -- has only keys that may be shown.
  unfoldable mutual
    pub Clean : ℕ → Value → Type 0
    Clean depth (array xs) = CleanItems (depth + 1) xs
    Clean depth (map_of es) = CleanEntries (depth + 1) es
    Clean depth (set_of xs) = CleanItems (depth + 1) xs
    Clean depth (record_of fs) =
        is_record (record_of fs) ≡ true
        → (depth ≤ max_depth → KeysShown fs) × CleanFields (depth + 1) fs
    Clean depth null = Unit
    Clean depth undefined = Unit
    Clean depth (scalar s) = Unit
    Clean depth (opaque s) = Unit
    Clean depth (instance_of fs) = Unit

    pub CleanItems : ℕ → Items → Type 0
    CleanItems depth no_item = Unit
    CleanItems depth (item x xs) = Clean depth x × CleanItems depth xs

    pub CleanEntries : ℕ → Entries → Type 0
    CleanEntries depth no_entry = Unit
    CleanEntries depth (entry k x es) = Clean depth x × CleanEntries depth es

    pub CleanFields : ℕ → Fields → Type 0
    CleanFields depth no_field = Unit
    CleanFields depth (field k x fs) = Clean depth x × CleanFields depth fs

  mutual
    unfolding Clean

    deep-Clean : (v : Value) (depth : ℕ) → max_depth < depth → Clean depth v
    deep-Clean null depth h = tt
    deep-Clean undefined depth h = tt
    deep-Clean (scalar s) depth h = tt
    deep-Clean (opaque s) depth h = tt
    deep-Clean (instance_of fs) depth h = tt
    deep-Clean (array xs) depth h = deep_items-Clean xs (depth + 1) (omega arith)
    deep-Clean (map_of es) depth h = deep_entries-Clean es (depth + 1) (omega arith)
    deep-Clean (set_of xs) depth h = deep_items-Clean xs (depth + 1) (omega arith)
    deep-Clean (record_of fs) depth h = λ plain. (
      (λ (le : depth ≤ max_depth). absurd (omega arith)),
      deep_fields-Clean fs (depth + 1) (omega arith),
    )

    deep_items-Clean : (xs : Items) (depth : ℕ) → max_depth < depth → CleanItems depth xs
    deep_items-Clean no_item depth h = tt
    deep_items-Clean (item x xs) depth h = (deep-Clean x depth h, deep_items-Clean xs depth h)

    deep_entries-Clean : (es : Entries) (depth : ℕ) → max_depth < depth → CleanEntries depth es
    deep_entries-Clean no_entry depth h = tt
    deep_entries-Clean (entry k x es) depth h =
        (deep-Clean x depth h, deep_entries-Clean es depth h)

    deep_fields-Clean : (fs : Fields) (depth : ℕ) → max_depth < depth → CleanFields depth fs
    deep_fields-Clean no_field depth h = tt
    deep_fields-Clean (field k x fs) depth h = (deep-Clean x depth h, deep_fields-Clean fs depth h)

  sanitize_fields-KeysShown :
      (depth : ℕ) (fs : Fields) → KeysShown (sanitize_fields to_lower sensitive_fields depth fs)
  unfolding KeysShown sanitize
  sanitize_fields-KeysShown depth no_field = tt
  sanitize_fields-KeysShown depth (field k x fs) =
      ground (arith, sanitize_fields-KeysShown depth fs)

  -- A value that is cut at the depth limit is clean either way.
  cut-Clean :
      (depth : ℕ) (v w : Value) → Clean depth w → Clean depth (if ltb max_depth depth then v else w)
  cut-Clean depth v w h = ground (arith, deep-Clean v depth)

  -- An object that `isRecord` does not take is not looked into.
  unread-Clean :
      (depth : ℕ) (fs : Fields) → is_record (record_of fs) ≡ false → Clean depth (record_of fs)
  unfolding Clean
  unread-Clean depth fs other = λ plain. absurd (false-not-true (sym other ∙ plain))

  cut_record-Clean :
      (depth : ℕ) (fs : Fields) (w : Value)
      → Clean depth w
      → Clean depth
          (if ltb max_depth depth || not (is_record (record_of fs)) then record_of fs else w)
  cut_record-Clean depth fs w h = elim (Bool-cases (is_record (record_of fs))) [
    | inl plain ↦
        rw plain (rw (or_false (ltb max_depth depth)) (cut-Clean depth (record_of fs) w h))
    | inr other ↦ rw (other, or_true (ltb max_depth depth)) (unread-Clean depth fs other)
  ]

  mutual
    unfolding Clean sanitize

    sanitized-Clean :
        (v : Value) (depth : ℕ) → Clean depth (sanitize to_lower sensitive_fields depth v)
    sanitized-Clean null depth = tt
    sanitized-Clean undefined depth = tt
    sanitized-Clean (scalar s) depth = tt
    sanitized-Clean (opaque s) depth = tt
    sanitized-Clean (instance_of fs) depth = tt
    sanitized-Clean (array xs) depth = cut-Clean depth _ _ (sanitized_items-Clean xs (depth + 1))
    sanitized-Clean (map_of es) depth = cut-Clean depth _ _ (sanitized_entries-Clean es (depth + 1))
    sanitized-Clean (set_of xs) depth = cut-Clean depth _ _ (sanitized_items-Clean xs (depth + 1))
    sanitized-Clean (record_of fs) depth = cut_record-Clean depth fs _ (λ plain.
        ((λ le. sanitize_fields-KeysShown (depth + 1) fs), sanitized_fields-Clean fs (depth + 1)))

    sanitized_items-Clean :
        (xs : Items) (depth : ℕ)
        → CleanItems depth (sanitize_items to_lower sensitive_fields depth xs)
    sanitized_items-Clean no_item depth = tt
    sanitized_items-Clean (item x xs) depth =
        (sanitized-Clean x depth, sanitized_items-Clean xs depth)

    sanitized_entries-Clean :
        (es : Entries) (depth : ℕ)
        → CleanEntries depth (sanitize_entries to_lower sensitive_fields depth es)
    sanitized_entries-Clean no_entry depth = tt
    sanitized_entries-Clean (entry k x es) depth =
        (sanitized-Clean x depth, sanitized_entries-Clean es depth)

    sanitized_fields-Clean :
        (fs : Fields) (depth : ℕ)
        → CleanFields depth (sanitize_fields to_lower sensitive_fields depth fs)
    sanitized_fields-Clean no_field depth = tt
    sanitized_fields-Clean (field k x fs) depth =
        ground (arith, sanitized-Clean x depth, sanitized_fields-Clean fs depth)

-- What `sanitize` returns for any value, at any depth that it is called with, has no sensitive key in a
-- plain object that is at most 20 levels deep and is reached through arrays, maps, sets and plain
-- objects.
pub sanitize-Clean :
    (to_lower : String → String) (sensitive_fields : List String) (depth : ℕ) (v : Value)
    → Clean to_lower sensitive_fields depth (sanitize to_lower sensitive_fields depth v)
sanitize-Clean to_lower sensitive_fields depth v = sanitized-Clean to_lower sensitive_fields v depth
