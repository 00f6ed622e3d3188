-- ===== src/Common/Numbers.antt =====
-- Numbers as texts: `String(n)`.
use Prim.Native.Nat.{ℕ, zero, suc, ◌/◌, ◌%◌}
use Prim.Native.String.{String, ◌++◌, slice}
use mathlib.Core.Path.{◌≡◌, refl}
use api_payment.Common.Tests.{ltb, if◌then◌else◌}

abbrev digit_text : ℕ → String
digit_text n = slice "0123456789" n (suc n)

-- The number itself is fuel enough: each round divides it by ten.
digits_of : ℕ → ℕ → String → String
digits_of zero n rest = rest
digits_of (suc fuel) n rest =
    let more = digits_of fuel (n / 10) (digit_text (n % 10) ++ rest) in
    if ltb n 10 then digit_text n ++ rest else more

-- `String(n)`, for a whole number below 10^21
unfoldable pub text_of_number : ℕ → String
unfolding digits_of
text_of_number n = digits_of (suc n) n ""

text_of_number_example : text_of_number 1203 ≡ "1203"
unfolding text_of_number digits_of
text_of_number_example = refl
