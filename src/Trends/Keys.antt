-- ===== src/Trends/Keys.antt =====
-- lib/data/live.ts, the day keys `YYYY-MM-DD` of `localDateKey` and the labels `D/M` that are read back
-- from them. The year, the month from 0 and the day of a date are the browser's.
pub mod RoundTrip
use Prim.Native.Char.{Char, char, code, IsScalar}
use Prim.Native.String.{[], ◌∷◌}
use mathlib.Core.List.{List, [] as nil, ◌∷◌ as ◌∷∷◌}
use sensepro.Prelude.{
  ℕ, zero, suc, ◌+◌, ◌-◌, ◌*◌, ◌/◌, ◌%◌, ◌<◌, ◌≤◌, ◌≡◌, refl, ap, ◌∙◌, String, Option, none, some,
  Bool, true, false, ◌&&◌, ltb, leb, ◌==◌, if◌then◌else◌, arith, Bool-cases, inl, inr,
}
use sensepro.Auth.Token.{append, text_length, equals_signs}

digit-IsScalar : (n : ℕ) → IsScalar (b'0' + n % 10)
digit-IsScalar n = let small : b'0' + n % 10 < 55296 = omega arith in ground arith

-- The last decimal digit.
unfoldable pub digit : ℕ → Char
unfolding digit-IsScalar
digit n = char (b'0' + n % 10) (digit-IsScalar n)

-- `String(n)`: at most as many digits as the fuel.
unfoldable pub show_digits : ℕ → ℕ → String
unfolding digit append
show_digits zero n = ""
show_digits (suc fuel) n =
    let front = show_digits fuel (n / 10) in
    if ltb n 10 then digit n ∷ "" else append front (digit n ∷ "")

unfoldable pub show : ℕ → String
unfolding show_digits
show n = show_digits (suc n) n

-- `.padStart(2, "0")`, of a text that is not empty.
unfoldable pub pad_start : String → String
pad_start s = if text_length s == 1 then "0" ∷ s else s

-- `localDateKey`.
unfoldable pub local_date_key : ℕ → ℕ → ℕ → String
unfolding show pad_start append
local_date_key year month day =
    append (show year) ("-" ∷ append (pad_start (show (month + 1))) ("-" ∷ pad_start (show day)))

-- `Number(s)` of a text of digits; any other text is not a number.
abbrev pub is_digit : Char → Bool
is_digit c = leb b'0' (code c) && leb (code c) b'9'

unfoldable pub read_from : ℕ → String → Option ℕ
read_from n [] = some n
read_from n (c ∷ s) =
    let rest = read_from (n * 10 + (code c - b'0')) s in if is_digit c then rest else none

-- `split("-")`.
abbrev pub add_front : Char → List String → List String
add_front c nil = (c ∷ "") ∷∷ nil
add_front c (w ∷∷ ws) = (c ∷ w) ∷∷ ws

unfoldable pub split : String → List String
split [] = "" ∷∷ nil
split (c ∷ s) = let rest = split s in if code c == b'-' then "" ∷∷ rest else add_front c rest

-- `const [, month, date] = day.split("-")` with `Number` of each; none where one is missing or is not a
-- number.
unfoldable pub both : Option ℕ → Option ℕ → Option (ℕ × ℕ)
both (some a) (some b) = some (a, b)
both _ _ = none

unfoldable pub date_and_month : List String → Option (ℕ × ℕ)
unfolding both read_from
date_and_month (_ ∷∷ month ∷∷ date ∷∷ _) = both (read_from 0 date) (read_from 0 month)
date_and_month _ = none

-- ``${Number(date)}/${Number(month)}``.
unfoldable pub label_of : Option (ℕ × ℕ) → Option String
unfolding show append
label_of none = none
label_of (some (date, month)) = some (append (show date) ("/" ∷ show month))

unfoldable pub day_label : String → Option String
unfolding date_and_month split label_of
day_label day = label_of (date_and_month (split day))
