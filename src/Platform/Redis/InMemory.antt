-- ===== src/Platform/Redis/InMemory.antt =====
-- Redis in memory, for examples, and a JSON of lists of texts.
use Prim.Native.Char.{Char, code}
use api_payment.Common.{
  String, ◌≡◌, ◌≢◌, ◌⊎◌, refl, ap, ◌∙◌, Option, none, some, List, [], ◌∷◌, str_eq, eq_iff, ◌==◌,
  if◌then◌else◌, arith,
}
use api_payment.Common.Exec.{ok, ok_injective}
use api_payment.Platform.Redis.{Redis, IsRedis, Json, IsJson}

abbrev Texts : Type 0
Texts = List (String × String)

unfoldable pub lookup : String → Texts → Option String
lookup k [] = none
lookup k ((j, v) ∷ m) = if str_eq j k then some v else lookup k m

unfoldable pub delete : String → Texts → Texts
delete k [] = []
delete k ((j, v) ∷ m) = let rest = delete k m in if str_eq j k then rest else (j, v) ∷ rest

abbrev pub redis_in_memory : Redis
redis_in_memory = record {
  Cache = Texts;
  get = λ k c. ok (lookup k c);
  set = λ k v ttl c. (ok tt, (k, v) ∷ c);
  del = λ k c. (ok tt, delete k c);
}

lookup-delete :
    (k j : String) (m : Texts) → lookup j (delete k m) ≡ (if str_eq k j then none else lookup j m)
unfolding lookup delete
lookup-delete k j [] = ground arith
lookup-delete k j ((i, w) ∷ m) =
    ground (arith, eq_iff k j, eq_iff i k, eq_iff i j, lookup-delete k j m)

pub lookup-set :
    (k v j w : String) (m : Texts)
    → lookup j ((k, v) ∷ m) ≡ some w
    → ((k ≡ j) × (v ≡ w)) ⊎ (lookup j m ≡ some w)
unfolding lookup
lookup-set k v j w m h = ground (arith, eq_iff k j)

pub deleted_before :
    (k j w : String) (m : Texts) → lookup j (delete k m) ≡ some w → lookup j m ≡ some w
deleted_before k j w m h = ground (arith, lookup-delete k j m)

pub deleted_gone : (k w : String) (m : Texts) → lookup k (delete k m) ≢ some w
deleted_gone k w m h = ground (arith, lookup-delete k k m, eq_iff k k)

unfoldable pub redis_in_memory-IsRedis : IsRedis redis_in_memory
redis_in_memory-IsRedis = record {
  Entry = λ c k v. lookup k c ≡ some v;
  get_entry = λ k v c h. ok_injective _ _ h;
  set_entry = λ k v ttl c j w h. lookup-set k v j w c h;
  del_entry = λ k c j w h. deleted_before k j w c h;
  del_deletes = λ k c w e. deleted_gone k w c;
}

-- Each character of a text behind a point, and a comma behind the text
unfoldable pub write_text : String → String → String
write_text String.[] rest = String.◌∷◌ "," rest
write_text (String.◌∷◌ c s) rest = String.◌∷◌ "." (String.◌∷◌ c (write_text s rest))

unfoldable pub write_texts : List String → String
unfolding write_text
write_texts [] = ""
write_texts (n ∷ ns) = write_text n (write_texts ns)

unfoldable pub next_text : Option (List String) → Option (List String)
next_text none = none
next_text (some ns) = some ("" ∷ ns)

unfoldable pub next_char : Char → Option (List String) → Option (List String)
next_char c (some (n ∷ ns)) = some ((String.◌∷◌ c n) ∷ ns)
next_char c _ = none

unfoldable pub read_texts : String → Option (List String)
unfolding next_text next_char
read_texts String.[] = some []
read_texts (String.◌∷◌ x String.[]) = next_text (some [])
read_texts (String.◌∷◌ x (String.◌∷◌ c s)) =
    let here = next_char c (read_texts s) in
    let next = next_text (read_texts (String.◌∷◌ c s)) in if code x == b',' then next else here

put_first : String → Option (List String) → Option (List String)
put_first n none = none
put_first n (some ns) = some (n ∷ ns)

next_text-put_first : (o : Option (List String)) → next_text o ≡ put_first "" o
unfolding next_text put_first
next_text-put_first none = refl
next_text-put_first (some ns) = refl

next_char-put_first :
    (c : Char) (s : String) (o : Option (List String))
    → next_char c (put_first s o) ≡ put_first (String.◌∷◌ c s) o
unfolding next_char put_first
next_char-put_first c s none = refl
next_char-put_first c s (some ns) = refl

read_texts-write_text :
    (n rest : String) → read_texts (write_text n rest) ≡ put_first n (read_texts rest)
unfolding read_texts write_text put_first next_char next_text
read_texts-write_text String.[] String.[] = refl
read_texts-write_text String.[] (String.◌∷◌ c rest) =
    next_text-put_first (read_texts (String.◌∷◌ c rest))
read_texts-write_text (String.◌∷◌ c s) rest =
    ap (next_char c) (read_texts-write_text s rest) ∙ next_char-put_first c s (read_texts rest)

read_texts-write_texts : (ns : List String) → read_texts (write_texts ns) ≡ some ns
unfolding write_texts put_first
read_texts-write_texts [] = unfold read_texts in refl
read_texts-write_texts (n ∷ ns) =
    read_texts-write_text n (write_texts ns) ∙ ap (put_first n) (read_texts-write_texts ns)

-- A bracket before the texts, for an empty text is not read.
unfoldable pub read_list : String → Option (List String)
unfolding read_texts
read_list String.[] = none
read_list (String.◌∷◌ x s) = read_texts s

abbrev pub texts_json : Json (List String)
texts_json = record { stringify = λ ns. String.◌∷◌ "[" (write_texts ns); parse = read_list }

texts_json_lem : (a b : List String) → texts_json.parse (texts_json.stringify a) ≡ some b → a ≡ b
unfolding read_list
texts_json_lem a b h = ground (arith, read_texts-write_texts a)

pub texts_json-IsJson : IsJson texts_json
texts_json-IsJson = record { parse-stringify = texts_json_lem }

-- A JSON that reads no other list than the empty one
abbrev pub empty_json : {A : Type 0} → Json (List A)
empty_json {A} = record {
  stringify = λ as'. elim as' [ [] ↦ "[]" | _ ↦ "[…]" ];
  parse = λ t. if str_eq t "[]" then some [] else none;
}

pub empty_json-IsJson : {A : Type 0} → IsJson (empty_json {A = A})
empty_json-IsJson {A} = record { parse-stringify = read_empty }
  where
    read_empty :
        (a b : List A)
        → (empty_json {A = A}).parse ((empty_json {A = A}).stringify a) ≡ some b
        → a ≡ b
    read_empty [] b h = ground arith
    read_empty (x ∷ a) b h = cc
