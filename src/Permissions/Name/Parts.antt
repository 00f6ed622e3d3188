-- ===== src/Permissions/Name/Parts.antt =====
-- The parts of a permission's name: `parsePermission` against the texts that it reads.
use Prim.Native.Char.{Char, code}
use Prim.Native.String.{◌++◌}
use text.Mathlib.TextEquality.{Char-path}
use text.Mathlib.TextLemmas.{nil-append, cons-append}
use api_payment.Common.{
  String, ◌≡◌, ◌≢◌, ◌↔◌, ◌⊎◌, refl, sym, ap, ◌∙◌, inl, inr, some, List, [], ◌∷◌, ◌==◌, Bool-cases,
  arith,
}
use api_payment.Common.Lists.{All}
use api_payment.Permissions.Name.{
  ParsedPermission, add_char, split, two_parts, parse_permission, permission_name,
}

-- No colon in the text.
abbrev pub LacksColon : String → Type 0
LacksColon String.[] = Unit
LacksColon (String.◌∷◌ c s) = (code c ≢ b':') × LacksColon s

-- `parts.join(':')`
spell : List String → String
spell [] = ""
spell (p ∷ []) = p
spell (p ∷ q ∷ ps) = p ++ (":" ++ spell (q ∷ ps))

colon_char : (c : Char) (s : String) → code c ≡ b':' → ":" ++ s ≡ String.◌∷◌ c s
colon_char c s h =
    let same : c ≡ ":" = Char-path c ":" h in
    cons-append ":" "" s
    ∙ ap (String.◌∷◌ ":") (nil-append s)
    ∙ ap (λ (d : Char). String.◌∷◌ d s) (sym same)

spell-cons :
    (c : Char) (p : String) (ps : List String)
    → spell ((String.◌∷◌ c p) ∷ ps) ≡ String.◌∷◌ c (spell (p ∷ ps))
unfolding spell
spell-cons c p [] = refl
spell-cons c p (q ∷ ps) = cons-append c p _

spell-add_char :
    (c : Char) (p : String) (ps : List String)
    → spell (add_char c (p ∷ ps)) ≡ String.◌∷◌ c (spell (p ∷ ps))
unfolding add_char
spell-add_char c p ps = elim (Bool-cases (code c == b':')) [
  | inl sep ↦ rw sep (unfold spell in nil-append _ ∙ colon_char c _ (ground arith))
  | inr other ↦ rw other (spell-cons c p ps)
]

add_char-ne-nil : (c : Char) (ps : List String) → ps ≢ [] → add_char c ps ≢ []
unfolding add_char
add_char-ne-nil c [] h = h
add_char-ne-nil c (p ∷ ps) h = ground arith

split-ne-nil : (s : String) → split s ≢ []
unfolding split
split-ne-nil String.[] = ground arith
split-ne-nil (String.◌∷◌ c s) = add_char-ne-nil c (split s) (split-ne-nil s)

List-cases : (xs : List String) → (xs ≡ []) ⊎ ((p : String) × (ps : List String) × (xs ≡ p ∷ ps))
List-cases [] = inl refl
List-cases (p ∷ ps) = inr (p, ps, refl)

spell-split : (s : String) → spell (split s) ≡ s
unfolding split
spell-split String.[] = unfold spell in refl
spell-split (String.◌∷◌ c s) = elim (List-cases (split s)) [
  | inl empty ↦ absurd (split-ne-nil s empty)
  | inr (p, ps, e) ↦ rw e (spell-add_char c p ps ∙ ap (String.◌∷◌ c) (rw e at (spell-split s)))
]

add_char-LacksColon :
    (c : Char) (ps : List String) → All LacksColon ps → All LacksColon (add_char c ps)
unfolding add_char
add_char-LacksColon c [] h = tt
add_char-LacksColon c (p ∷ ps) h = elim (Bool-cases (code c == b':')) [
  | inl sep ↦ rw sep (tt, h)
  | inr other ↦ rw other ((ground arith, h.0), h.1)
]

split-LacksColon : (s : String) → All LacksColon (split s)
unfolding split
split-LacksColon String.[] = (tt, tt)
split-LacksColon (String.◌∷◌ c s) = add_char-LacksColon c (split s) (split-LacksColon s)

split_plain : (s : String) → LacksColon s → split s ≡ s ∷ []
unfolding split add_char
split_plain String.[] h = refl
split_plain (String.◌∷◌ c s) h = ground (arith, split_plain s h.1)

add_char_colon : (a : String) → add_char ":" (split a) ≡ "" ∷ split a
unfolding add_char
add_char_colon a = elim (List-cases (split a)) [
  | inl empty ↦ absurd (split-ne-nil a empty)
  | inr (p, ps, e) ↦ rw e refl
]

split_first : (m a : String) → LacksColon m → split (permission_name m a) ≡ m ∷ split a
unfolding split add_char
split_first String.[] a h = rw (nil-append, colon_char ":" a refl, add_char_colon a) refl
split_first (String.◌∷◌ c m) a h =
    rw (cons-append c m (":" ++ a)) (ground (arith, split_first m a h.1))

two_parts-inv :
    (s : String) (parts : List String) (r : ParsedPermission)
    → split s ≡ parts
    → two_parts parts ≡ some r
    → (s ≡ permission_name r.module_name r.action) × LacksColon r.module_name × LacksColon r.action
unfolding two_parts spell
two_parts-inv s (m ∷ a ∷ []) r e h =
    let spelt : spell (m ∷ a ∷ []) ≡ s = rw e at (spell-split s) in
    let plain : All LacksColon (m ∷ a ∷ []) = rw e at (split-LacksColon s) in
    let same : record { module_name = m; action = a } ≡ r = ground arith in
    rw (← same) (sym spelt, plain.0, plain.1.0)
two_parts-inv s parts r e h = cc

-- `parsePermission` gives a module and an action exactly when the text is the two with a colon
-- between them and neither holds one.
pub parse_permission_iff :
    (s : String) (r : ParsedPermission)
    → (parse_permission s ≡ some r) ↔ (
        (s ≡ permission_name r.module_name r.action)
        × LacksColon r.module_name
        × LacksColon r.action)
unfolding parse_permission
parse_permission_iff s r = (
  two_parts-inv s (split s) r refl,
  λ (e, hm, ha). rw (e, split_first r.module_name r.action hm, split_plain r.action ha) refl,
)
