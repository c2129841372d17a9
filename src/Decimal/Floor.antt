-- ===== src/Decimal/Floor.antt =====
-- Python's `//` on a non-negative and a positive decimal: the multiples of a step.
use native.Mathlib.Nat.{div-mul-le_self, lt-div-mul-add, div-eq_of_eq-mul_left}
use p2p_treker.Prelude.{ℕ, ◌+◌, ◌-◌, ◌*◌, ◌/◌, ◌^◌, ◌≤◌, ◌≡◌, ◌↔◌, refl, ap, arith}
use p2p_treker.Prelude.Int.{ℤ, pos, pos_part, ◌*ℤ◌, ◌+ℤ◌, *ℤ_assoc, pos_part-*ℤ, int_laws}
use p2p_treker.Decimal.{Decimal, at, places, of_int, d_zero, ◌+D◌, ◌*D◌, ◌≤D◌, ◌<D◌, ◌≈◌}
use p2p_treker.Decimal.Order.{at_zero, at_self, at-add, at_le, at_lt, eq_at, at_eq, decimal_laws}
use p2p_treker.Decimal.Division.{
  dividend, divisor, divisor_pos, at-dividend, at-divisor, floor_div_D,
}

pub at-times : (l n : ℕ) (b : Decimal) → b.scale ≤ l → at l (of_int (pos n) *D b) ≡ pos n *ℤ at l b
unfolding at ◌*D◌
at-times l n b h =
    let e : l - (0 + b.scale) ≡ l - b.scale = omega arith in
    rw (e, *ℤ_assoc (pos n) b.coef (pos (10 ^ (l - b.scale)))) refl

module _ (a b : Decimal) (p : d_zero ≤D a) (q : d_zero <D b) where
  -- The number of whole steps `b` in `a`.
  pub steps : ℕ
  steps = dividend a b p q / divisor a b p q

  pub floor_div_D_lem : floor_div_D a b ≡ of_int (pos steps)
  unfolding floor_div_D steps
  floor_div_D_lem = rw (at-dividend a b p q, at-divisor a b p q) refl

  at_multiple : (n : ℕ) → at (places a b) (of_int (pos n) *D b) ≡ pos n *ℤ pos (divisor a b p q)
  at_multiple n = rw (at-times (places a b) n b (omega arith), at-divisor a b p q) refl

  at_rounded : at (places a b) (floor_div_D a b *D b) ≡ pos steps *ℤ pos (divisor a b p q)
  at_rounded = rw floor_div_D_lem (at_multiple steps)

  -- The multiple is at most the dividend, by less than one step.
  pub floor_multiple-le : floor_div_D a b *D b ≤D a
  unfolding steps
  floor_multiple-le =
      at_le (places a b) _ a (rw floor_div_D_lem (omega decimal_laws)) (omega arith) (
        rw (at_rounded, at-dividend a b p q)
          (omega (int_laws, div-mul-le_self (dividend a b p q) (divisor a b p q))))

  pub lt-floor_multiple : a <D floor_div_D a b *D b +D b
  unfolding steps
  lt-floor_multiple =
      let short : (floor_div_D a b *D b).scale ≤ places a b =
        rw floor_div_D_lem (omega decimal_laws) in
      at_lt (places a b) a _ (omega arith) (omega (decimal_laws, short)) (
        rw
          (
            at-add (places a b) (floor_div_D a b *D b) b short (omega arith),
            at_rounded,
            at-dividend a b p q,
            at-divisor a b p q,
          )
          (omega (int_laws, lt-div-mul-add {a = dividend a b p q} (divisor_pos a b p q))))

  count_steps : (n : ℕ) → a ≈ of_int (pos n) *D b → steps ≡ n
  unfolding steps
  count_steps n h =
      let e = eq_at (places a b) a (of_int (pos n) *D b) (omega arith) (omega decimal_laws) h in
      let whole : dividend a b p q ≡ n * divisor a b p q = omega (
        int_laws,
        pos_part-*ℤ (pos n) (pos (divisor a b p q)),
        ap pos_part (rw (at_multiple n, at-dividend a b p q) at e),
      ) in
      div-eq_of_eq-mul_left (divisor_pos a b p q) whole

  -- A decimal is a multiple of the step exactly if rounding down does not change it.
  pub aligned_iff : (a ≈ floor_div_D a b *D b) ↔ ((n : ℕ) × (a ≈ of_int (pos n) *D b))
  aligned_iff =
      ((λ h. (steps, rw floor_div_D_lem at h)), (λ (n, h). rw (floor_div_D_lem, count_steps n h) h))

pos-suc-*ℤ : (n : ℕ) (x : ℤ) → pos (n + 1) *ℤ x ≡ pos n *ℤ x +ℤ x
pos-suc-*ℤ n x = omega (int_laws, pos_part-*ℤ (pos (n + 1)) x, pos_part-*ℤ (pos n) x)

-- One more multiple.
pub of_int-suc : (n : ℕ) (b : Decimal) → of_int (pos (n + 1)) *D b ≈ of_int (pos n) *D b +D b
of_int-suc n b = at_eq b.scale _ _ (omega decimal_laws) (omega decimal_laws) (
    rw
      (
        at-times b.scale (n + 1) b (omega arith),
        at-add b.scale (of_int (pos n) *D b) b (omega decimal_laws) (omega arith),
        at-times b.scale n b (omega arith),
      )
      (pos-suc-*ℤ n (at b.scale b)))

pub of_int-one : (b : Decimal) → of_int (pos 1) *D b ≈ b
of_int-one b =
    at_eq b.scale _ _ (omega decimal_laws) (omega arith) (
      rw (at-times b.scale 1 b (omega arith))
        (omega (int_laws, pos_part-*ℤ (pos 1) (at b.scale b))))

pub of_int_nonneg : (n : ℕ) → d_zero ≤D of_int (pos n)
of_int_nonneg n =
    at_le 0 d_zero (of_int (pos n)) (omega arith) (omega arith)
      (rw (at_zero 0, at_self (of_int (pos n))) (omega arith))
