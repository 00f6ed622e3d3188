-- ===== src/Permissions/Clients/Keys.antt =====
-- The keys of the cache: `RedisKeyPrefixes` before the id of a client.
use Prim.Native.Char.{Char, code}
use Prim.Native.String.{◌++◌}
use text.Mathlib.TextLemmas.{append_assoc, append_cancel_left, cons-append, head-eq_of_cons-eq}
use api_payment.Common.{String, ◌≡◌, ◌≢◌, sym, ap, ◌∙◌, arith}
use api_payment.Permissions.Clients.{
  client_permissions_key, client_direct_permissions_key, client_roles_key,
}

pub client_permissions_key_injective :
    (c d : String) → client_permissions_key c ≡ client_permissions_key d → c ≡ d
client_permissions_key_injective c d = append_cancel_left "client_permissions:" c d

pub client_direct_permissions_key_injective :
    (c d : String) → client_direct_permissions_key c ≡ client_direct_permissions_key d → c ≡ d
client_direct_permissions_key_injective c d = append_cancel_left "client_direct_permissions:" c d

pub client_roles_key_injective : (c d : String) → client_roles_key c ≡ client_roles_key d → c ≡ d
client_roles_key_injective c d = append_cancel_left "client_roles:" c d

-- The text of a key behind `client_`
rest : (p c : String) → ("client_" ++ p) ++ c ≡ "client_" ++ (p ++ c)
rest p c = append_assoc "client_" p c

same_rest : (p q c d : String) → ("client_" ++ p) ++ c ≡ ("client_" ++ q) ++ d → p ++ c ≡ q ++ d
same_rest p q c d e = append_cancel_left "client_" _ _ (sym (rest p c) ∙ e ∙ rest q d)

same_first :
    (x y : Char) (p q c d : String)
    → (String.◌∷◌ x p) ++ c ≡ (String.◌∷◌ y q) ++ d
    → code x ≡ code y
same_first x y p q c d e =
    ap code (head-eq_of_cons-eq (sym (cons-append x p c) ∙ e ∙ cons-append y q d))

pub client_permissions_key-ne-direct :
    (c d : String) → client_permissions_key c ≢ client_direct_permissions_key d
client_permissions_key-ne-direct c d e =
    let first =
      same_first "p" "d" "ermissions:" "irect_permissions:" c d
        (same_rest "permissions:" "direct_permissions:" c d e) in
    absurd (omega arith)

pub client_permissions_key-ne-roles : (c d : String) → client_permissions_key c ≢ client_roles_key d
client_permissions_key-ne-roles c d e =
    let first =
      same_first "p" "r" "ermissions:" "oles:" c d (same_rest "permissions:" "roles:" c d e) in
    absurd (omega arith)

pub client_direct_permissions_key-ne-roles :
    (c d : String) → client_direct_permissions_key c ≢ client_roles_key d
client_direct_permissions_key-ne-roles c d e =
    let first =
      same_first "d" "r" "irect_permissions:" "oles:" c d
        (same_rest "direct_permissions:" "roles:" c d e) in
    absurd (omega arith)
