-- ===== src/Retention/Calendar.antt =====
-- The civil calendar, as `datetime` reads and prints it (backend/app/database/retention.py): days
-- are counted from the first of January of year 1, months from 0 and days of a month from 1.
use p2p_treker.Prelude.{
  ℕ, zero, suc, ◌+◌, ◌-◌, ◌*◌, ◌/◌, ◌%◌, ◌<◌, ◌≤◌, ◌≡◌, refl, ◌∙◌, subst, Bool, true, false, ◌&&◌,
  ◌||◌, not, arith, ltb, leb, ltb→lt, ◌==◌, if◌then◌else◌, Bool-cases, inl, inr,
}

pub record Date : Type 0 where
  pub year : ℕ
  pub month : ℕ
  pub day : ℕ

pub is_leap : ℕ → Bool
is_leap y = (y % 4 == 0) && (not (y % 100 == 0) || (y % 400 == 0))

unfoldable pub month_length : Bool → ℕ → ℕ
month_length leap m =
    if m == 1
    then (if leap then 29 else 28)
    else if (m == 3) || (m == 5) || (m == 8) || (m == 10)
    then 30
    else 31

-- The days of the first m months.
unfoldable pub days_before_month : Bool → ℕ → ℕ
unfolding month_length
days_before_month leap zero = 0
days_before_month leap (suc m) = days_before_month leap m + month_length leap m

unfoldable pub year_length : ℕ → ℕ
unfolding is_leap
year_length y = if is_leap y then 366 else 365

-- The days of the years 1 to k.
unfoldable pub days_before_year : ℕ → ℕ
days_before_year k = k * 365 + k / 4 - k / 100 + k / 400

unfoldable pub find_month : Bool → ℕ → ℕ → ℕ → ℕ × ℕ
unfolding month_length
find_month leap zero m n = (m, n)
find_month leap (suc fuel) m n = elim (ltb n (month_length leap m)) [
  | true ↦ (m, n)
  | false ↦ find_month leap fuel (suc m) (n - month_length leap m)
]

unfoldable pub find_year : ℕ → ℕ → ℕ → ℕ × ℕ
unfolding year_length
find_year zero k n = (k, n)
find_year (suc fuel) k n = elim (ltb n (year_length (suc k))) [
  | true ↦ (k, n)
  | false ↦ find_year fuel (suc k) (n - year_length (suc k))
]

abbrev pub date_in_year : ℕ × ℕ → Date
date_in_year (k, n) =
    let m = find_month (is_leap (suc k)) 11 0 n in
    record { year = suc k; month = suc m.0; day = suc m.1 }

-- The date of a day. The search for its year begins early enough: no year has more than 366 days.
unfoldable pub date_of : ℕ → Date
unfolding find_year find_month days_before_year
date_of n = let k = n / 366 in date_in_year (find_year (n + 1) k (n - days_before_year k))

-- Whether a date exists, and its day.
unfoldable pub is_date : ℕ → ℕ → ℕ → Bool
unfolding is_leap month_length
is_date y m d =
    ltb 0 y && ltb 0 m && leb m 12 && ltb 0 d && leb d (month_length (is_leap y) (m - 1))

unfoldable pub day_of : ℕ → ℕ → ℕ → ℕ
unfolding days_before_year days_before_month is_leap
day_of y m d = days_before_year (y - 1) + days_before_month (is_leap y) (m - 1) + (d - 1)

days_before_year_step :
    (k : ℕ) → days_before_year (suc k) ≡ days_before_year k + year_length (suc k)
unfolding days_before_year year_length is_leap
days_before_year_step k = ground arith

days_before_month_year : (leap : Bool) → days_before_month leap 12 ≡ (if leap then 366 else 365)
unfolding days_before_month month_length
days_before_month_year true = refl
days_before_month_year false = refl

year_estimate : (n : ℕ) → days_before_year (n / 366) ≤ n
unfolding days_before_year
year_estimate n = omega arith

le_of_not : {a b : ℕ} → ltb a b ≡ false → b ≤ a
le_of_not {a} {b} p = ground arith

at_last :
    (leap : Bool) (m : ℕ)
    → m ≡ 11
    → days_before_month leap 12 ≡ days_before_month leap m + month_length leap m
unfolding days_before_month
at_last leap m e = rw e refl

year_length_pos : (y : ℕ) → 0 < year_length y
unfolding year_length
year_length_pos y = ground arith

-- What the search for a month returns: the same day, in a month that has it.
record InMonth (leap : Bool) (total : ℕ) (r : ℕ × ℕ) : Type 0 where
  kept : days_before_month leap r.0 + r.1 ≡ total
  month : r.0 ≤ 11
  day : r.1 < month_length leap r.0

find_month-InMonth :
    (leap : Bool) (fuel m n : ℕ)
    → m + fuel ≡ 11
    → days_before_month leap m + n < days_before_month leap 12
    → InMonth leap (days_before_month leap m + n) (find_month leap fuel m n)
unfolding find_month days_before_month
find_month-InMonth leap zero m n e h = record {
  kept = refl;
  month = omega arith;
  day = omega (arith, at_last leap m (omega arith));
}
find_month-InMonth leap (suc fuel) m n e h = elim (Bool-cases (ltb n (month_length leap m))) [
  | inl p ↦ rw (p, find_month) (record { kept = refl; month = omega arith; day = ltb→lt n _ p })
  | inr p ↦
      rw (p, find_month)
        (let l = le_of_not p in
          let total : days_before_month leap (suc m) + (n - month_length leap m)
              ≡ days_before_month leap m + n =
            omega arith in
          subst (λ t. InMonth leap t (find_month leap fuel (suc m) (n - month_length leap m))) total
            (find_month-InMonth leap fuel (suc m) (n - month_length leap m) (omega arith)
              (omega arith)))
]

record InYear (total : ℕ) (r : ℕ × ℕ) : Type 0 where
  kept : days_before_year r.0 + r.1 ≡ total
  day : r.1 < year_length (suc r.0)

-- Fuel for each day that is left is enough.
find_year-InYear : (fuel k n : ℕ) → n < fuel → InYear (days_before_year k + n) (find_year fuel k n)
unfolding find_year
find_year-InYear zero k n h = absurd (omega arith)
find_year-InYear (suc fuel) k n h = elim (Bool-cases (ltb n (year_length (suc k)))) [
  | inl p ↦ rw (p, find_year) (record { kept = refl; day = ltb→lt n _ p })
  | inr p ↦
      rw (p, find_year)
        (let l = le_of_not p in
          let total : days_before_year (suc k) + (n - year_length (suc k))
              ≡ days_before_year k + n =
            omega (arith, days_before_year_step k) in
          subst (λ t. InYear t (find_year fuel (suc k) (n - year_length (suc k)))) total
            (find_year-InYear fuel (suc k) (n - year_length (suc k))
              (omega (arith, year_length_pos (suc k)))))
]

date_of-InYear : (n : ℕ) → InYear n (find_year (n + 1) (n / 366) (n - days_before_year (n / 366)))
date_of-InYear n =
    let total : days_before_year (n / 366) + (n - days_before_year (n / 366)) ≡ n =
      omega (arith, year_estimate n) in
    subst (λ t. InYear t (find_year (n + 1) (n / 366) (n - days_before_year (n / 366)))) total
      (find_year-InYear (n + 1) (n / 366) (n - days_before_year (n / 366)) (omega arith))

-- The date of a day exists, and its day is that day.
pub record IsDateOf (n : ℕ) (d : Date) : Type 0 where
  pub exists : is_date d.year d.month d.day ≡ true
  pub day_back : day_of d.year d.month d.day ≡ n
  pub month : d.month ≤ 12
  pub day : d.day ≤ 31

month_in_year :
    (y rest : ℕ)
    → rest < year_length y
    → InMonth (is_leap y) rest (find_month (is_leap y) 11 0 rest)
unfolding days_before_month year_length
month_in_year y rest h =
    let total : days_before_month (is_leap y) 0 + rest ≡ rest = omega arith in
    subst (λ t. InMonth (is_leap y) t (find_month (is_leap y) 11 0 rest)) total
      (find_month-InMonth (is_leap y) 11 0 rest refl
        (omega (arith, days_before_month_year (is_leap y))))

month_length_le : (leap : Bool) (m : ℕ) → month_length leap m ≤ 31
unfolding month_length
month_length_le leap m = ground arith

suc-sub-one : (n : ℕ) → suc n - 1 ≡ n
suc-sub-one n = omega arith

day_of-suc :
    (k m d : ℕ)
    → day_of (suc k) (suc m) (suc d)
      ≡ days_before_year k + days_before_month (is_leap (suc k)) m + d
unfolding day_of
day_of-suc k m d = simp (suc-sub-one k, suc-sub-one m, suc-sub-one d) refl

date_in_year-IsDateOf : (n : ℕ) (r : ℕ × ℕ) → InYear n r → IsDateOf n (date_in_year r)
unfolding is_date day_of
date_in_year-IsDateOf n (k, rest) y =
    let leap = is_leap (suc k) in
    let m = find_month leap 11 0 rest in
    let f = month_in_year (suc k) rest y.day in
    record {
      exists = ground (arith, f.month, f.day);
      day_back = day_of-suc k m.0 m.1 ∙ omega (arith, f.kept, y.kept);
      month = omega (arith, f.month);
      day = omega (arith, f.day, month_length_le leap m.0);
    }

pub date_of-IsDateOf : (n : ℕ) → IsDateOf n (date_of n)
unfolding date_of
date_of-IsDateOf n =
    date_in_year-IsDateOf n (find_year (n + 1) (n / 366) (n - days_before_year (n / 366)))
      (date_of-InYear n)

days_before_year_mono : (a b : ℕ) → a ≤ b → days_before_year a ≤ days_before_year b
unfolding days_before_year
days_before_year_mono a b h = omega arith

pub year_since : (y n : ℕ) → days_before_year y ≤ n → y < (date_of n).year
unfolding date_of
year_since y n h =
    let r = find_year (n + 1) (n / 366) (n - days_before_year (n / 366)) in
    let i = date_of-InYear n in
    elim (Bool-cases (ltb r.0 y)) [
      | inl p ↦ absurd (
          omega (
            arith,
            ltb→lt r.0 y p,
            days_before_year_mono (suc r.0) y (omega (arith, ltb→lt r.0 y p)),
            days_before_year_step r.0,
            i.kept,
            i.day,
          ))
      | inr p ↦ omega (arith, le_of_not p)
    ]
