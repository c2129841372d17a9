-- ===== src/Decimal/Division.antt =====
-- Python's decimal division under the default context: 28 significant digits, ties to even.
use native.Mathlib.Nat.{mul-le-mul_right, div-add-mod, div-le_of_le-mul, mod-lt, le-div_iff_mul-le}
use p2p_treker.Prelude.{
  ℕ, zero, suc, ◌+◌, ◌-◌, ◌*◌, ◌/◌, ◌%◌, ◌^◌, ◌≤◌, ◌<◌, ◌≡◌, Bool, true, false, arith, ltb, ◌==◌,
  not, ap, ◌⊎◌, inl, inr, ◌&&◌, ◌||◌, if◌then◌else◌,
}
use p2p_treker.Prelude.Int.{ℤ, pos, negsuc, pos_part, neg_part, nat_abs, sub_ℕ, eq_pos_of_nonneg}
use p2p_treker.Decimal.{Decimal, at, places, d_zero, d_one, ◌≤D◌, ◌<D◌}
use p2p_treker.Decimal.Order.{at_self, at_zero, at_one, at_le, le_at, lt_at, decimal_laws}

-- `context.prec`
abbrev pub precision : ℕ
precision = 28

-- The quotient n / d of two numbers, rounded to the nearest integer, ties to the even one.
unfoldable pub round_half_even : ℕ → ℕ → ℕ
round_half_even n d =
    let q = n / d in
    let r = n % d in if ltb (2 * r) d || (2 * r == d && q % 2 == 0) then q else q + 1

-- The number of decimal digits, with fuel; `digits n n` is enough.
digits_fuel : ℕ → ℕ → ℕ
digits_fuel zero n = 1
digits_fuel (suc f) n = elim (ltb n 10) [ true ↦ 1 | false ↦ digits_fuel f (n / 10) + 1 ]

pub digits : ℕ → ℕ
unfolding digits_fuel
digits n = digits_fuel n n

-- The places after the point at which the quotient has `precision` digits. A quotient of 10 ^ 28
-- and more is rounded to an integer.
quotient_places : ℕ → ℕ → ℕ
unfolding digits
quotient_places n d =
    let t = precision + digits d - digits n in
    if ltb (round_half_even (n * 10 ^ t) d) (10 ^ precision) then t else t - 1

with_sign : Bool → ℕ → ℤ
with_sign negative n = if negative then sub_ℕ 0 n else pos n

is_negative : ℤ → Bool
is_negative (pos n) = false
is_negative (negsuc n) = true

not_equal : Bool → Bool → Bool
not_equal true b = not b
not_equal false b = b

-- `a / b`; the callers have excluded b = 0, where Python raises `DivisionByZero`.
unfoldable pub div_D : Decimal → Decimal → Decimal
unfolding with_sign is_negative not_equal round_half_even quotient_places
div_D a b =
    let x = at (places a b) a in
    let y = at (places a b) b in
    let t = quotient_places (nat_abs x) (nat_abs y) in
    record {
      coef =
          with_sign (not_equal (is_negative x) (is_negative y))
            (round_half_even (nat_abs x * 10 ^ t) (nat_abs y));
      scale = t;
    }

-- What the context makes of an exact result: at most 28 digits, ties to even. A result of more than
-- 28 digits before the point is rounded there.
unfoldable pub round_D : Decimal → Decimal
unfolding with_sign is_negative round_half_even digits
round_D d =
    if ltb (nat_abs d.coef) (10 ^ precision)
    then d
    else let cut = digits (nat_abs d.coef) - precision in
      record {
        coef =
            with_sign (is_negative d.coef)
              (round_half_even (nat_abs d.coef) (10 ^ cut) * 10 ^ (cut - d.scale));
        scale = d.scale - cut;
      }

-- `a // b` truncates towards zero.
unfoldable pub floor_div_D : Decimal → Decimal → Decimal
unfolding with_sign is_negative not_equal
floor_div_D a b =
    let x = at (places a b) a in
    let y = at (places a b) b in
    record {
      coef = with_sign (not_equal (is_negative x) (is_negative y)) (nat_abs x / nat_abs y);
      scale = 0;
    }

pub round_half_even_bounds :
    (n d : ℕ)
    → 0 < d
    → (2 * (round_half_even n d * d) ≤ 2 * n + d) × (2 * n ≤ 2 * (round_half_even n d * d) + d)
unfolding round_half_even
round_half_even_bounds n d h = grind (arith, div-add-mod n d, mod-lt n h)

-- A quotient that is at most the integer `m` is `m` exactly, or falls a whole step short of it.
exact_or_below : (n d m : ℕ) → 0 < d → n ≤ m * d → (n / d < m) ⊎ ((n / d ≡ m) × (n % d ≡ 0))
exact_or_below n d m h p = elim (le_cases (div-le_of_le-mul d (omega (arith, p)))) [
  | inl less ↦ inl less
  | inr same ↦ inr (same, omega (arith, div-add-mod n d, ap (λ (t : ℕ). d * t) same))
]
  where
    le_cases : n / d ≤ m → (n / d < m) ⊎ (n / d ≡ m)
    le_cases q = omega arith

pub round_half_even-le : (n d m : ℕ) → 0 < d → n ≤ m * d → round_half_even n d ≤ m
unfolding round_half_even
round_half_even-le n d m h p = elim (exact_or_below n d m h p) [
  | inl less ↦ ground arith
  | inr (same, none_left) ↦ ground arith
]

pub le-round_half_even : (n d m : ℕ) → 0 < d → m * d ≤ n → m ≤ round_half_even n d
unfolding round_half_even
le-round_half_even n d m h p = grind (arith, (le-div_iff_mul-le h).1 p)

-- A quotient of a non-negative by a positive decimal, written out.
module _ (a b : Decimal) (p : d_zero ≤D a) (q : d_zero <D b) where
  pub dividend : ℕ
  dividend = pos_part (at (places a b) a)

  pub divisor : ℕ
  divisor = pos_part (at (places a b) b)

  pub exponent : ℕ
  exponent = quotient_places dividend divisor

  pub divisor_pos : 0 < divisor
  unfolding divisor
  divisor_pos = omega (decimal_laws, lt_at (places a b) d_zero b (omega arith) (omega arith) q)

  pub at-dividend : at (places a b) a ≡ pos dividend
  unfolding dividend
  at-dividend =
      eq_pos_of_nonneg _
        (omega (decimal_laws, le_at (places a b) d_zero a (omega arith) (omega arith) p))

  pub at-divisor : at (places a b) b ≡ pos divisor
  unfolding divisor
  at-divisor =
      eq_pos_of_nonneg _
        (omega (decimal_laws, lt_at (places a b) d_zero b (omega arith) (omega arith) q))

  pub coef_div : ℕ
  unfolding dividend divisor exponent
  coef_div = round_half_even (dividend * 10 ^ exponent) divisor

  div_D_lem : div_D a b ≡ record { coef = pos coef_div; scale = exponent }
  unfolding div_D exponent coef_div
  div_D_lem = rw (at-dividend, at-divisor)

  at_quotient : at exponent (div_D a b) ≡ pos coef_div
  at_quotient = rw div_D_lem (at_self _)

  dividend-le-divisor : a ≤D b → dividend ≤ divisor
  unfolding dividend divisor
  dividend-le-divisor h = omega (
    arith,
    le_at (places a b) a b (omega arith) (omega arith) h,
    ap neg_part at-dividend,
    ap neg_part at-divisor,
  )

  divisor-le-dividend : b ≤D a → divisor ≤ dividend
  unfolding dividend divisor
  divisor-le-dividend h = omega (
    arith,
    le_at (places a b) b a (omega arith) (omega arith) h,
    ap neg_part at-dividend,
    ap neg_part at-divisor,
  )

  coef_div-le : dividend ≤ divisor → coef_div ≤ 10 ^ exponent
  unfolding coef_div
  coef_div-le h =
      round_half_even-le _ divisor _ divisor_pos (omega (arith, mul-le-mul_right (10 ^ exponent) h))

  le-coef_div : divisor ≤ dividend → 10 ^ exponent ≤ coef_div
  unfolding coef_div
  le-coef_div h =
      le-round_half_even _ divisor _ divisor_pos (omega (arith, mul-le-mul_right (10 ^ exponent) h))

  -- A dividend up to the divisor gives at most one, and one from the divisor on at least one.
  pub div_D-le-one : a ≤D b → div_D a b ≤D d_one
  div_D-le-one h =
      at_le exponent (div_D a b) d_one (rw div_D_lem (omega arith)) (omega arith)
        (rw (at_quotient, at_one) (omega (arith, coef_div-le (dividend-le-divisor h))))

  pub one-le-div_D : b ≤D a → d_one ≤D div_D a b
  one-le-div_D h =
      at_le exponent d_one (div_D a b) (omega arith) (rw div_D_lem (omega arith))
        (rw (at_quotient, at_one) (omega (arith, le-coef_div (divisor-le-dividend h))))

  pub div_D_nonneg : d_zero ≤D div_D a b
  div_D_nonneg =
      at_le exponent d_zero (div_D a b) (omega arith) (rw div_D_lem (omega arith))
        (rw (at_quotient, at_zero) (omega arith))

  -- The rounded quotient is within half a unit of its last place.
  pub div_D_error :
      (2 * (coef_div * divisor) ≤ 2 * (dividend * 10 ^ exponent) + divisor)
      × (2 * (dividend * 10 ^ exponent) ≤ 2 * (coef_div * divisor) + divisor)
  unfolding coef_div
  div_D_error = round_half_even_bounds _ _ divisor_pos
