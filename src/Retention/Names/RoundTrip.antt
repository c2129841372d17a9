-- ===== src/Retention/Names/RoundTrip.antt =====
-- The names of the daily partitions are read back as their days (backend/app/database).
use p2p_treker.Prelude.{
  ℕ, zero, suc, ◌+◌, ◌*◌, ◌/◌, ◌%◌, ◌<◌, ◌≤◌, ◌≡◌, refl, sym, ap, ◌∙◌, subst, true, false, String,
  arith, leb, leb→le, Bool-cases, inl, inr,
}
use p2p_treker.Prelude.Int.{ℤ, pos, ◌+ℤ◌, ◌-ℤ◌, ◌*ℤ◌, int_laws, eq_of_parts}
use p2p_treker.Prelude.Result.{Result, ok, err, Returns, value_error}
use p2p_treker.Retention.Calendar.{Date, date_of, date_of-IsDateOf, days_before_year, year_since}
use p2p_treker.Retention.Days.{day_ms, floor_div, floor_div-*ℤ}
use p2p_treker.Retention.Names.{
  epoch_day, digit, digit_value, is_digit, two_digits, year_text, date_text, partition_prefix,
  attach, strip, removeprefix, text_length, all_digits, number_from, day_start, named,
  partition_name_for, is_partition_day, dated, parse_partition_day,
}

removeprefix-prefix :
    (rest : String) → removeprefix partition_prefix (attach partition_prefix rest) ≡ rest
unfolding removeprefix strip attach
removeprefix-prefix rest = refl

below_ten :
    (P : ℕ → Type 0)
    → P 0
    → P 1
    → P 2
    → P 3
    → P 4
    → P 5
    → P 6
    → P 7
    → P 8
    → P 9
    → (n : ℕ) → n < 10
    → P n
below_ten P a b c d e f g h i j zero l = a
below_ten P a b c d e f g h i j (suc zero) l = b
below_ten P a b c d e f g h i j (suc (suc zero)) l = c
below_ten P a b c d e f g h i j (suc (suc (suc zero))) l = d
below_ten P a b c d e f g h i j (suc (suc (suc (suc zero)))) l = e
below_ten P a b c d e f g h i j (suc (suc (suc (suc (suc zero))))) l = f
below_ten P a b c d e f g h i j (suc (suc (suc (suc (suc (suc zero)))))) l = g
below_ten P a b c d e f g h i j (suc (suc (suc (suc (suc (suc (suc zero))))))) l = h
below_ten P a b c d e f g h i j (suc (suc (suc (suc (suc (suc (suc (suc zero)))))))) l = i
below_ten P a b c d e f g h i j (suc (suc (suc (suc (suc (suc (suc (suc (suc zero))))))))) l = j
below_ten P a b c d e f g h i j (suc (suc (suc (suc (suc (suc (suc (suc (suc (suc n)))))))))) l =
    absurd (omega arith)

-- A digit is read back.
abbrev IsDigitOf : ℕ → Type 0
IsDigitOf n = (digit_value (digit n) ≡ n) × (is_digit (digit n) ≡ true)

digit-IsDigitOf : (n : ℕ) → n < 10 → IsDigitOf n
unfolding digit digit_value is_digit
digit-IsDigitOf =
    below_ten IsDigitOf (refl, refl) (refl, refl) (refl, refl) (refl, refl) (refl, refl)
      (refl, refl) (refl, refl) (refl, refl) (refl, refl) (refl, refl)

-- Two digits are read back as a number, before others.
record ReadsTwo (n : ℕ) (rest : String) : Type 0 where
  number :
      (before : ℕ) → number_from before (two_digits n rest) ≡ number_from (before * 100 + n) rest
  digits : all_digits (two_digits n rest) ≡ all_digits rest
  length : text_length (two_digits n rest) ≡ suc (suc (text_length rest))

two_digits-ReadsTwo : (n : ℕ) (rest : String) → n < 100 → ReadsTwo n rest
unfolding two_digits number_from all_digits text_length
two_digits-ReadsTwo n rest h =
    let t = digit-IsDigitOf (n / 10) (omega arith) in
    let u = digit-IsDigitOf (n % 10) (omega arith) in
    record {
      number = λ before. ap (λ (k : ℕ). number_from k rest) (omega (arith, t.0, u.0));
      digits = rw (t.1, u.1) refl;
      length = refl;
    }

-- The text of a date with a year of four digits, as it is read.
record ReadsDate (d : Date) : Type 0 where
  number : number_from 0 (date_text d) ≡ d.year * 10000 + d.month * 100 + d.day
  digits : all_digits (date_text d) ≡ true
  length : text_length (date_text d) ≡ 8

date_text-ReadsDate :
    (d : Date) → 1000 ≤ d.year → d.year ≤ 9999 → d.month ≤ 12 → d.day ≤ 31 → ReadsDate d
unfolding date_text year_text number_from all_digits text_length
date_text-ReadsDate d l h m n =
    let a = two_digits-ReadsTwo d.day "" (omega arith) in
    let b = two_digits-ReadsTwo d.month (two_digits d.day "") (omega arith) in
    let lower = two_digits d.month (two_digits d.day "") in
    let c = two_digits-ReadsTwo (d.year % 100) lower (omega arith) in
    let e = two_digits-ReadsTwo (d.year / 100) (two_digits (d.year % 100) lower) (omega arith) in
    let four : date_text d ≡ two_digits (d.year / 100) (two_digits (d.year % 100) lower) =
      ground arith in
    let number : number_from
          ((((0 + d.year / 100) * 100 + d.year % 100) * 100 + d.month) * 100 + d.day) ""
        ≡ d.year * 10000 + d.month * 100 + d.day =
      omega arith in
    record {
      number = rw four (e.number 0 ∙ c.number _ ∙ b.number _ ∙ a.number _ ∙ number);
      digits = rw four (e.digits ∙ c.digits ∙ b.digits ∙ a.digits ∙ refl);
      length = rw four (rw e.length refl);
    }

-- What a name of a partition is read as.
pub record IsNameOf (start : ℤ) (name : String) : Type 0 where
  pub guarded : is_partition_day name ≡ true
  pub parsed : parse_partition_day name ≡ ok start

read_back :
    (n : ℕ)
    → 1000 ≤ (date_of n).year
    → (date_of n).year ≤ 9999
    → IsNameOf (day_start n) (attach partition_prefix (date_text (date_of n)))
unfolding is_partition_day parse_partition_day dated
read_back n l h =
    let d = date_of n in
    let is = date_of-IsDateOf n in
    let r = date_text-ReadsDate d l h is.month is.day in
    let y : (d.year * 10000 + d.month * 100 + d.day) / 10000 ≡ d.year =
      omega (arith, is.month, is.day) in
    let m : (d.year * 10000 + d.month * 100 + d.day) / 100 % 100 ≡ d.month =
      omega (arith, is.month, is.day) in
    let e : (d.year * 10000 + d.month * 100 + d.day) % 100 ≡ d.day =
      omega (arith, is.month, is.day) in
    record {
      guarded = rw (removeprefix-prefix (date_text d), r.length, r.digits) refl;
      parsed =
          rw (removeprefix-prefix (date_text d), r.number, y, m, e, is.exists, is.day_back) refl;
    }

floor-day_start :
    (n : ℕ) → floor_div ((pos n -ℤ pos epoch_day) *ℤ pos day_ms) day_ms +ℤ pos epoch_day ≡ pos n
floor-day_start n =
    rw (floor_div-*ℤ (pos n -ℤ pos epoch_day) day_ms (omega arith))
      (eq_of_parts _ _ (omega int_laws))

not_named :
    (n : ℕ)
    → leb (date_of n).year 9999 ≡ false
    → partition_name_for (day_start n) ≡ err (value_error "year is out of range")
unfolding partition_name_for day_start named
not_named n p = rw (floor-day_start n, p) refl

name_in_range :
    (n : ℕ)
    → 1000 ≤ (date_of n).year
    → (date_of n).year ≤ 9999
    → Returns (IsNameOf (day_start n)) (named (pos n))
unfolding named
name_in_range n l h =
    let le : leb (date_of n).year 9999 ≡ true = ground arith in rw le (read_back n l h)

-- The name of the partition of a day of the years 1000 to 9999 passes the guard of
-- `drop_old_partitions`, and is read back as the start of that day.
pub partition_name_for-Returns :
    (n : ℕ)
    → 1000 ≤ (date_of n).year
    → (date_of n).year ≤ 9999
    → Returns (IsNameOf (day_start n)) (partition_name_for (day_start n))
unfolding partition_name_for day_start
partition_name_for-Returns n l h = rw (floor-day_start n) (name_in_range n l h)

-- A name that is given is read back.
pub named-IsNameOf :
    (n : ℕ) (name : String)
    → epoch_day ≤ n
    → partition_name_for (day_start n) ≡ ok name
    → IsNameOf (day_start n) name
unfolding days_before_year
named-IsNameOf n name h e = elim (Bool-cases (leb (date_of n).year 9999)) [
  | inl p ↦
      subst (Returns (IsNameOf (day_start n))) e (
        partition_name_for-Returns n (omega (arith, year_since 999 n (omega arith))) (leb→le _ _ p))
  | inr p ↦ absurd (subst refused (sym (not_named n p) ∙ e) tt)
]
  where
    refused : Result String → Type 0
    refused (err raised) = Unit
    refused (ok other) = ⊥
