-- ===== src/Common/Script.antt =====
-- JavaScript idioms. A value that may be undefined or null is an `Option`; a text is falsy when it
-- is undefined or empty, an amount when it is undefined or 0.
use Prim.Native.Nat.{ℕ, zero, suc}
use Prim.Native.String.{String}
use mathlib.Core.Bool.{Bool, true, false}
use mathlib.Core.Option.{Option, none, some}
use text.Mathlib.Text.{◌==◌}

-- `o?.f`
infixl 60 ◌&?◌
abbrev pub ◌&?◌ : {A B : Type 0} → Option A → (A → Option B) → Option B
none &? f = none
some a &? f = f a

abbrev pub is_some : {A : Type 0} → Option A → Bool
is_some none = false
is_some (some a) = true

-- The text itself if it is truthy.
abbrev pub truthy_text : String → Option String
truthy_text s = elim (s == "") [ true ↦ none | false ↦ some s ]

abbrev pub truthy : Option String → Option String
truthy none = none
truthy (some s) = truthy_text s

-- `o || s`, on texts
abbrev pub or_text : Option String → String → String
or_text o s = elim (truthy o) [ none ↦ s | some t ↦ t ]

-- `o || p`, on texts that may be undefined
abbrev pub or_option : Option String → Option String → Option String
or_option o p = elim (truthy o) [ none ↦ p | some t ↦ some t ]

-- `o || n`, on amounts
abbrev pub or_amount : Option ℕ → Option ℕ → Option ℕ
or_amount none n = n
or_amount (some zero) n = n
or_amount (some (suc m)) n = some (suc m)

-- `o || false`
abbrev pub or_false : Option Bool → Bool
or_false none = false
or_false (some b) = b

-- `source[key]` written over `target[key]` unless it is undefined
abbrev pub defined_or {ℓ} : {A : Type ℓ} → Option A → Option A → Option A
defined_or none target = target
defined_or (some a) target = some a
