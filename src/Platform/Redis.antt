-- ===== src/Platform/Redis.antt =====
-- Redis, a store of texts by key that may drop an entry at any time and may fail; and the writing and
-- reading of values as JSON.
pub mod InMemory
use Prim.Native.Nat.{ℕ}
use api_payment.Common.{String, ◌≡◌, ◌≢◌, ◌⊎◌, Option, none, some}
use api_payment.Common.Exec.{Exception, Result, ok, throw}

pub record Redis : Type 1 where
  pub Cache : Type 0
  pub get : String → Cache → Result (Option String)
  -- `set(key, value, ttlSeconds)`
  pub set : (key value : String) (ttl_seconds : ℕ) → Cache → Result (Unit {0}) × Cache
  pub del : String → Cache → Result (Unit {0}) × Cache

-- What a get answers was set and not deleted since. Entries may vanish at any time, by their time to
-- live or for room.
pub record IsRedis (r : Redis) : Type 1 where
  pub Entry : r.Cache → String → String → Type 0
  pub get_entry : (k v : String) (c : r.Cache) → r.get k c ≡ ok (some v) → Entry c k v
  pub set_entry :
      (k v : String) (ttl : ℕ) (c : r.Cache) (j w : String)
      → Entry (r.set k v ttl c).1 j w
      → ((k ≡ j) × (v ≡ w)) ⊎ Entry c j w
  pub del_entry : (k : String) (c : r.Cache) (j w : String) → Entry (r.del k c).1 j w → Entry c j w
  pub del_deletes :
      (k : String) (c : r.Cache) (w : String) → (r.del k c).0 ≡ ok tt → ¬ Entry (r.del k c).1 k w

-- `JSON.stringify(value)`, and `JSON.parse(value)` with a check of the value's type; `none` where the
-- text is no JSON or the value has another type.
pub record Json (A : Type 0) : Type 0 where
  pub stringify : A → String
  pub parse : String → Option A

-- A text that was written is read as what it was written for, if it is read at all.
pub record IsJson {A : Type 0} (j : Json A) : Type 0 where
  pub parse-stringify : (a b : A) → j.parse (j.stringify a) ≡ some b → a ≡ b
