-- ===== src/Retention/Names.antt =====
-- The names of the daily partitions (backend/app/database/retention.py and partitioning.py), with
-- what `strftime` and `strptime` do for "%Y%m%d". The letters of the names are ASCII.
pub mod RoundTrip
use Prim.Native.Char.{Char, code}
use Prim.Native.String.{char_at}
use p2p_treker.Prelude.{
  ℕ, zero, suc, ◌+◌, ◌-◌, ◌*◌, ◌/◌, ◌%◌, ◌<◌, ◌≤◌, ◌≡◌, refl, sym, ap, ◌∙◌, subst, Bool, true,
  false, ◌&&◌, String, arith, ltb, leb, leb→le, ◌==◌, if◌then◌else◌, Bool-cases, inl, inr, Option,
  none, some,
}
use p2p_treker.Prelude.Int.{ℤ, pos, negsuc, ◌+ℤ◌, ◌-ℤ◌, ◌*ℤ◌, int_laws, eq_of_parts}
use p2p_treker.Prelude.Result.{Result, ok, err, Returns, value_error}
use p2p_treker.Retention.Calendar.{
  Date, date_of, is_date, day_of, IsDateOf, date_of-IsDateOf, days_before_year, year_since,
}
use p2p_treker.Retention.Days.{day_ms, floor_div, floor_div-*ℤ}

-- 1970-01-01
abbrev pub epoch_day : ℕ
epoch_day = 719162

pub digit : ℕ → Char
digit n = char_at "0123456789" n

pub digit_value : Char → ℕ
digit_value c = code c - 48

pub is_digit : Char → Bool
is_digit c = leb 48 (code c) && leb (code c) 57

pub two_digits : ℕ → String → String
unfolding digit
two_digits n rest = String.◌∷◌ (digit (n / 10)) (String.◌∷◌ (digit (n % 10)) rest)

-- "%Y" writes no leading zeros.
pub year_text : ℕ → String → String
unfolding digit two_digits
year_text y rest =
    if ltb y 10
    then String.◌∷◌ (digit y) rest
    else if ltb y 100
    then two_digits y rest
    else if ltb y 1000
    then String.◌∷◌ (digit (y / 100)) (two_digits (y % 100) rest)
    else two_digits (y / 100) (two_digits (y % 100) rest)

unfoldable pub date_text : Date → String
unfolding two_digits year_text
date_text d = year_text d.year (two_digits d.month (two_digits d.day ""))

abbrev pub partition_prefix : String
partition_prefix = "quotes_1s_"

pub attach : String → String → String
attach String.[] t = t
attach (String.◌∷◌ c s) t = String.◌∷◌ c (attach s t)

-- `text.removeprefix(start)`
pub strip : String → String → Option String
strip String.[] s = some s
strip (String.◌∷◌ c p) String.[] = none
strip (String.◌∷◌ c p) (String.◌∷◌ d s) =
    let rest = strip p s in if code c == code d then rest else none

abbrev pub kept_or : String → Option String → String
kept_or text none = text
kept_or text (some rest) = rest

unfoldable pub removeprefix : String → String → String
unfolding strip
removeprefix start text = kept_or text (strip start text)

pub text_length : String → ℕ
text_length String.[] = 0
text_length (String.◌∷◌ c s) = suc (text_length s)

-- Each character is a digit; `isdigit` is called for eight of them.
pub all_digits : String → Bool
unfolding is_digit
all_digits String.[] = true
all_digits (String.◌∷◌ c s) = is_digit c && all_digits s

-- `int` of digits, after the number that stands before them.
pub number_from : ℕ → String → ℕ
unfolding digit_value
number_from n String.[] = n
number_from n (String.◌∷◌ c s) = number_from (n * 10 + digit_value c) s

-- The start of a day.
unfoldable pub day_start : ℕ → ℤ
day_start n = (pos n -ℤ pos epoch_day) *ℤ pos day_ms

-- `datetime.fromtimestamp(day_start_ms / 1000, tz=UTC)` has years 1 to 9999.
pub named : ℤ → Result String
unfolding attach date_text
named (negsuc n) = err (value_error "year is out of range")
named (pos n) =
    if leb (date_of n).year 9999
    then ok (attach partition_prefix (date_text (date_of n)))
    else err (value_error "year is out of range")

unfoldable pub partition_name_for : ℤ → Result String
unfolding named
partition_name_for day_start_ms = named (floor_div day_start_ms day_ms +ℤ pos epoch_day)

-- The guard of `drop_old_partitions`.
unfoldable pub is_partition_day : String → Bool
unfolding text_length all_digits
is_partition_day name =
    let date_part = removeprefix partition_prefix name in
    (text_length date_part == 8) && all_digits date_part

-- `_parse_partition_day`, behind the guard: four digits of a year, two of a month, two of a day.
pub dated : ℕ → Result ℤ
dated n =
    if is_date (n / 10000) (n / 100 % 100) (n % 100)
    then ok (day_start (day_of (n / 10000) (n / 100 % 100) (n % 100)))
    else err (value_error "time data does not match format")

unfoldable pub parse_partition_day : String → Result ℤ
unfolding number_from dated
parse_partition_day name = dated (number_from 0 (removeprefix partition_prefix name))
