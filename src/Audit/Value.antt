-- ===== src/Audit/Value.antt =====
-- Values of JavaScript as common/audit/helpers/sanitize-data.helper.ts tells them apart, and `isRecord`
-- of common/errors/helpers/type.helpers.ts. A value is a tree of data: functions, getters, cycles and
-- what a key `__proto__` makes of an object's prototype are left out.
use api_payment.Common.{String, Bool, false, not, str_eq, ◌||◌}

mutual
  -- `scalar` is a text, a number or a Boolean, `opaque` a Date, RegExp, Buffer or Error,
  -- `record_of` an object made by a literal or read from JSON, and `instance_of` one of a class or without
  -- a prototype.
  pub data Value : Type 0 where
    null : Value
    undefined : Value
    scalar : String → Value
    opaque : String → Value
    array : Items → Value
    map_of : Entries → Value
    set_of : Items → Value
    record_of : Fields → Value
    instance_of : Fields → Value

  pub data Items : Type 0 where
    no_item : Items
    item : Value → Items → Items

  pub data Entries : Type 0 where
    no_entry : Entries
    entry : (key value : Value) → Entries → Entries

  pub data Fields : Type 0 where
    no_field : Fields
    field : (key : String) (value : Value) → Fields → Fields

-- `key` is an own key of the object.
unfoldable pub has_key : String → Fields → Bool
has_key key no_field = false
has_key key (field k x fs) = str_eq k key || has_key key fs

-- `isRecord`: an own key `constructor` hides the constructor `Object`, and is never that itself.
unfoldable pub is_record : Value → Bool
is_record (record_of fs) = not (has_key "constructor" fs)
is_record _ = false
