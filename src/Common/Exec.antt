-- ===== src/Common/Exec.antt =====
-- An async method: state and exceptions. There is no enclosing transaction, so what was written
-- before a throw stays written and the state comes back beside the exception.
use mathlib.Core.Path.{◌≡◌, refl}
use mathlib.Core.Logic.{◌⊎◌, inl, inr}
use mathlib.Core.List.{List, [], ◌∷◌}
use Prim.Native.Nat.{ℕ}
use Prim.Native.String.{String}
use native.Mathlib.Omega.{arith}

-- `not_found` is `TransactionNotFoundRetryableException`, `out_of_sequence` is
-- `WebhookOutOfSequenceRetryableException`, the next two are a `CustomHttpException` with the code
-- INVALID_FINANCIAL_PROVIDER or INVALID_DATE, `query_failed` is any failure of the database or of
-- Redis, `custom_http` is any other `CustomHttpException`, and `type_error` a field of `undefined`.
pub data Exception : Type 0 where
  not_found : (authentication_code event_name : String) → Exception
  out_of_sequence : (authentication_code event_name reason : String) → Exception
  invalid_provider : String → Exception
  invalid_date : String → Exception
  query_failed : Exception
  custom_http : (status : ℕ) (code message : String) → Exception
  type_error : Exception

pub data Result {ℓ} (A : Type ℓ) : Type ℓ where
  ok : A → Result A
  throw : Exception → Result A

abbrev pub Exec : Type 0 → Type 0 → Type 0
Exec S A = S → Result A × S

module _ {S A : Type 0} where
  abbrev pub pure : A → Exec S A
  pure a s = (ok a, s)

  abbrev pub raise : Exception → Exec S A
  raise x s = (throw x, s)

  abbrev pub gets : (S → A) → Exec S A
  gets f s = (ok (f s), s)

  abbrev pub lift : Result A → Exec S A
  lift r s = (r, s)

module _ {S A B : Type 0} where
  abbrev pub continue : Result A → (A → Exec S B) → Exec S B
  continue (ok a) f s = f a s
  continue (throw x) f s = (throw x, s)

  infixl 5 ◌>>=◌ ◌>>◌
  abbrev pub ◌>>=◌ : Exec S A → (A → Exec S B) → Exec S B
  ◌>>=◌ m f s = continue (m s).0 f (m s).1

  abbrev pub ◌>>◌ : Exec S A → Exec S B → Exec S B
  m >> k = m >>= λ _. k

-- To split on what a step answered, keeping the equation.
pub Result-cases {ℓ} :
    {A : Type ℓ} (r : Result A) → ((a : A) × (r ≡ ok a)) ⊎ ((x : Exception) × (r ≡ throw x))
Result-cases (ok a) = inl (a, refl)
Result-cases (throw x) = inr (x, refl)

pub ok_injective : {A : Type 0} (a b : A) → ok a ≡ ok b → a ≡ b
ok_injective a b h = ground arith

-- What a step and all that may follow it keep is kept, however the run ends.
pub continue-keeps :
    {S A B : Type 0} (P : S → Type 0) (r : Result A × S) (f : A → Exec S B)
    → P r.1
    → ((a : A) → P r.1 → P (f a r.1).1)
    → P (continue r.0 f r.1).1
continue-keeps P (ok a, s) f h k = k a h
continue-keeps P (throw x, s) f h k = h

-- The same, where what follows may use what the step answered.
pub continue-keeps_answer :
    {S A B : Type 0} (P : S → Type 0) (r : Result A × S) (f : A → Exec S B)
    → P r.1
    → ((a : A) → r.0 ≡ ok a → P (f a r.1).1)
    → P (continue r.0 f r.1).1
continue-keeps_answer P (ok a, s) f h k = k a refl
continue-keeps_answer P (throw x, s) f h k = h

pub continue-pure :
    {S A : Type 0} (r : Result A) (s : S) → (continue r (λ _. pure {A = Unit {0}} tt) s).1 ≡ s
continue-pure (ok a) s = refl
continue-pure (throw x) s = refl

-- A run that ended well has made its first step well.
pub continue-eq-ok :
    {S A B : Type 0} (r : Result A × S) (f : A → Exec S B) {b : B} {t : S}
    → continue r.0 f r.1 ≡ (ok b, t)
    → (a : A) × (u : S) × (r ≡ (ok a, u)) × (f a u ≡ (ok b, t))
continue-eq-ok (ok a, u) f h = (a, u, refl, h)
continue-eq-ok (throw x, u) f h = cc

-- So has one whose last step gives nothing back.
pub done-eq-ok :
    {S A : Type 0} (r : Result A × S) {t : S}
    → continue r.0 (λ _. pure {A = Unit {0}} tt) r.1 ≡ (ok tt, t)
    → (a : A) × (r ≡ (ok a, t))
done-eq-ok (ok a, u) h = (a, λ i. (ok a, (h i).1))
done-eq-ok (throw x, u) h = cc

module _ {S E : Type 0} (step : E → Exec S (Unit {0})) where
  -- `for (const event of events) { … }`; `continue` is a step that returns
  unfoldable pub for_each : List E → Exec S (Unit {0})
  for_each [] s = (ok tt, s)
  for_each (e ∷ es) s = continue (step e s).0 (λ _. for_each es) (step e s).1

  -- A throw stops the loop, and keeps what the step and those before it wrote.
  pub for_each-throw :
      (e : E) (es : List E) (s : S) {x : Exception} {t : S}
      → step e s ≡ (throw x, t)
      → for_each (e ∷ es) s ≡ (throw x, t)
  unfolding for_each
  for_each-throw e es s h = rw h

  pub for_each-ok :
      (e : E) (es : List E) (s : S) {t : S}
      → step e s ≡ (ok tt, t)
      → for_each (e ∷ es) s ≡ for_each es t
  unfolding for_each
  for_each-ok e es s h = rw h

  -- What each round keeps is kept by the loop, however it ends.
  pub for_each-keeps :
      (P : S → Type 0)
      → ((e : E) (s : S) → P s → P (step e s).1)
      → (es : List E) (s : S) → P s
      → P (for_each es s).1
  unfolding for_each
  for_each-keeps P keep [] s h = h
  for_each-keeps P keep (e ∷ es) s h =
      continue-keeps P (step e s) (λ _. for_each es) (keep e s h)
        (λ a k. for_each-keeps P keep es (step e s).1 k)
