-- ===== src/Trends/Keys/RoundTrip.antt =====
-- The day key of a date is read back as its year, month and day.
use Prim.Native.Char.{code}
use Prim.Native.String.{[], ◌∷◌}
use mathlib.Core.List.{List, [] as nil, ◌∷◌ as ◌∷∷◌}
use sensepro.Prelude.{
  ℕ, zero, suc, ◌+◌, ◌-◌, ◌*◌, ◌/◌, ◌%◌, ◌<◌, ◌≡◌, refl, ap, ◌∙◌, String, Option, none, some, ltb,
  arith, Bool-cases, inl, inr,
}
use sensepro.Auth.Token.{append}
use sensepro.Trends.Keys.{
  digit, show_digits, show, pad_start, local_date_key, is_digit, read_from, split, date_and_month,
  both, day_label,
}

-- Reading a text and then another.
and_then : Option ℕ → String → Option ℕ
and_then none t = none
and_then (some n) t = read_from n t

read_from-append : (n : ℕ) (s t : String) → read_from n (append s t) ≡ and_then (read_from n s) t
unfolding read_from append and_then
read_from-append n [] t = refl
read_from-append n (c ∷ s) t = ground (arith, read_from-append (n * 10 + (code c - b'0')) s t)

read_from-digit : (k n : ℕ) → read_from k (digit n ∷ "") ≡ some (k * 10 + n % 10)
unfolding read_from digit
read_from-digit k n = ground arith

-- The digits of a number are read back.
read_from-show_digits : (fuel n : ℕ) → n < fuel → read_from 0 (show_digits fuel n) ≡ some n
unfolding show_digits and_then
read_from-show_digits zero n h = absurd (omega arith)
read_from-show_digits (suc fuel) n h = elim (Bool-cases (ltb n 10)) [
  | inl one ↦ let e : 0 * 10 + n % 10 ≡ n = ground arith in rw one (read_from-digit 0 n ∙ ap some e)
  | inr more ↦
      let front = show_digits fuel (n / 10) in
      let e : n / 10 * 10 + n % 10 ≡ n = omega arith in
      rw more (
        read_from-append 0 front (digit n ∷ "")
        ∙ ap (λ o. and_then o (digit n ∷ "")) (read_from-show_digits fuel (n / 10) (ground arith))
        ∙ read_from-digit (n / 10) n
        ∙ ap some e)
]

pub read_from-show : (n : ℕ) → read_from 0 (show n) ≡ some n
unfolding show
read_from-show n = read_from-show_digits (suc n) n (omega arith)

read_from-pad_start : (s : String) → read_from 0 (pad_start s) ≡ read_from 0 s
unfolding pad_start read_from
read_from-pad_start s = ground arith

-- A text that reads as a number has no dash, so a dash behind it splits it off.
split-append :
    (s t : String) (k n : ℕ) → read_from k s ≡ some n → split (append s ("-" ∷ t)) ≡ s ∷∷ split t
unfolding read_from split append
split-append [] t k n h = refl
split-append (c ∷ s) t k n h = elim (Bool-cases (is_digit c)) [
  | inl d ↦ ground (arith, split-append s t (k * 10 + (code c - b'0')) n (ground arith))
  | inr not_digit ↦ absurd (ground arith)
]

split-last : (s : String) (k n : ℕ) → read_from k s ≡ some n → split s ≡ s ∷∷ nil
unfolding read_from split
split-last [] k n h = refl
split-last (c ∷ s) k n h = elim (Bool-cases (is_digit c)) [
  | inl d ↦ ground (arith, split-last s (k * 10 + (code c - b'0')) n (ground arith))
  | inr not_digit ↦ absurd (ground arith)
]

read_from-padded : (n : ℕ) → read_from 0 (pad_start (show n)) ≡ some n
read_from-padded n = read_from-pad_start (show n) ∙ read_from-show n

-- A day key splits into its year, its month from 1 and its day, padded.
split-local_date_key :
    (year month day : ℕ)
    → split (local_date_key year month day)
      ≡ show year ∷∷ pad_start (show (month + 1)) ∷∷ pad_start (show day) ∷∷ nil
unfolding local_date_key
split-local_date_key year month day =
    let date = pad_start (show day) in
    split-append (show year) _ 0 year (read_from-show year)
    ∙ ap (λ w. show year ∷∷ w)
        (split-append (pad_start (show (month + 1))) date 0 (month + 1)
            (read_from-padded (month + 1))
          ∙ ap (λ w. pad_start (show (month + 1)) ∷∷ w)
              (split-last date 0 day (read_from-padded day)))

-- The three numbers of a key.
numbers : List String → Option ℕ × Option ℕ × Option ℕ
numbers (y ∷∷ m ∷∷ d ∷∷ _) = (read_from 0 y, read_from 0 m, read_from 0 d)
numbers _ = (none, none, none)

numbers-local_date_key :
    (year month day : ℕ)
    → numbers (split (local_date_key year month day)) ≡ (some year, some (month + 1), some day)
unfolding numbers
numbers-local_date_key year month day = rw (
  split-local_date_key year month day,
  read_from-show year,
  read_from-padded (month + 1),
  read_from-padded day,
)

local_date_key-injective :
    (year month day y m d : ℕ)
    → local_date_key year month day ≡ local_date_key y m d
    → (year ≡ y) × (month ≡ m) × (day ≡ d)
local_date_key-injective year month day y m d e =
    ground (arith, numbers-local_date_key year month day, numbers-local_date_key y m d, e)

-- The label of a day key is the day and the month, from 1, of its date, and the year is read back from
-- the key as well: different dates have different keys.
pub day_label-local_date_key :
    (year month day : ℕ)
    → (day_label (local_date_key year month day)
        ≡ some (append (show day) ("/" ∷ show (month + 1))))
      × ((y m d : ℕ)
          → local_date_key year month day ≡ local_date_key y m d
          → (year ≡ y) × (month ≡ m) × (day ≡ d))
unfolding day_label date_and_month both
day_label-local_date_key year month day = (
  rw (split-local_date_key year month day, read_from-padded (month + 1), read_from-padded day),
  local_date_key-injective year month day,
)
