-- ===== src/Platform/Dates.antt =====
-- Dates (src/common/helpers/date.helpers.ts). A JavaScript `Date` is given by its `getTime()`; times
-- before 1970 are not represented.
use Prim.Native.Char.{code}
use Prim.Native.String.{String}
use api_payment.Common.{
  ℕ, ◌+◌, ◌-◌, ◌*◌, Bool, false, ◌&&◌, ◌||◌, Option, none, some, List, [], ◌∷◌, leb, ◌==◌,
  if◌then◌else◌,
}
use api_payment.Common.Exec.{Result, ok, throw, invalid_date}

abbrev pub Date : Type 0
Date = ℕ

-- What the parsers of JavaScript and date-fns answer in the time zone of the process; `none` is an
-- invalid date. `local_date y m d` is `new Date(y, m - 1, d, 0, 0, 0, 0)`, which is valid for all
-- numbers of four and two digits.
pub record DateParsers : Type 0 where
  pub new_date : String → Option Date
  pub parse_minutes : String → Option Date
  pub local_date : ℕ → ℕ → ℕ → Date

-- The code points of a text.
abbrev pub codes : String → List ℕ
codes String.[] = []
codes (String.◌∷◌ c s) = code c ∷ codes s

-- `s.includes(c)` for one character
abbrev has_code : ℕ → List ℕ → Bool
has_code c [] = false
has_code c (x ∷ s) = x == c || has_code c s

-- `s.endsWith(c)` for one character
abbrev ends_with_code : ℕ → List ℕ → Bool
ends_with_code c [] = false
ends_with_code c (x ∷ []) = x == c
ends_with_code c (x ∷ y ∷ s) = ends_with_code c (y ∷ s)

abbrev is_digit : ℕ → Bool
is_digit c = leb b'0' c && leb c b'9'

-- `/^\d{4}-\d{2}-\d{2}$/`, with the year, month and day that `split('-').map(Number)` gives.
abbrev digit : ℕ → ℕ
digit c = c - b'0'

abbrev date_parts : List ℕ → Option (ℕ × ℕ × ℕ)
date_parts (a ∷ b ∷ c ∷ d ∷ s ∷ e ∷ f ∷ t ∷ g ∷ h ∷ []) =
    if is_digit a
      && is_digit b
      && is_digit c
      && is_digit d
      && s == b'-'
      && is_digit e
      && is_digit f
      && t == b'-'
      && is_digit g
      && is_digit h
    then some (
      digit a * 1000 + digit b * 100 + digit c * 10 + digit d,
      digit e * 10 + digit f,
      digit g * 10 + digit h,
    )
    else none
date_parts _ = none

module _ (p : DateParsers) where
  abbrev valid : String → Option Date → Result Date
  valid s none = throw (invalid_date s)
  valid s (some date) = ok date

  -- `parseISO`
  parse_iso : String → Result Date
  parse_iso s = valid s (p.new_date s)

  -- `parseDateString`
  parse_date_string : String → Result Date
  parse_date_string s = valid s (p.parse_minutes s)

  -- `parseDateOnly`
  parse_date_only : String → Result Date
  parse_date_only s = elim (date_parts (codes s)) [
    | none ↦ throw (invalid_date s)
    | some (y, m, d) ↦ ok (p.local_date y m d)
  ]

  -- `parseDate`
  unfoldable pub parse_date : String → Result Date
  unfolding parse_iso parse_date_string parse_date_only
  parse_date s =
      if has_code b'T' (codes s) || ends_with_code b'Z' (codes s)
      then parse_iso s
      else if has_code b' ' (codes s) && has_code b':' (codes s)
      then parse_date_string s
      else parse_date_only s
