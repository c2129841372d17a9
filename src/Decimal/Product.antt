-- ===== src/Decimal/Product.antt =====
-- Products of decimals: order under a non-negative factor, and distribution over sums.
use native.Mathlib.Nat.{add_comm, add_assoc}
use p2p_treker.Prelude.{◌+◌, ◌≡◌, arith}
use p2p_treker.Prelude.Int.{pos, ≤ℤ-*ℤ_nonneg, <ℤ-*ℤ_pos, *ℤ_assoc, +ℤ-*ℤ, *ℤ_comm, int_laws}
use p2p_treker.Decimal.{Decimal, at, d_zero, ◌+D◌, ◌*D◌, ◌≤D◌, ◌<D◌, ◌≈◌}
use p2p_treker.Decimal.Order.{
  at-add, at-mul, at_zero, lt_at, at_lt, le_at, at_le, at_eq, decimal_laws,
}

-- Multiplying by a non-negative decimal keeps order.
pub mul_mono_right : (a b c : Decimal) → d_zero ≤D c → a ≤D b → a *D c ≤D b *D c
mul_mono_right a b c p q =
    let k = a.scale + b.scale in
    at_le (k + c.scale) (a *D c) (b *D c) (omega decimal_laws) (omega decimal_laws) (
      rw
        (
          at-mul k c.scale a c (omega arith) (omega arith),
          at-mul k c.scale b c (omega arith) (omega arith),
        )
        (≤ℤ-*ℤ_nonneg _ _ (at c.scale c)
          (omega (decimal_laws, le_at c.scale d_zero c (omega arith) (omega arith) p))
          (le_at k a b (omega arith) (omega arith) q)))

pub mul_comm_D : (a b : Decimal) → a *D b ≡ b *D a
unfolding ◌*D◌
mul_comm_D a b = λ i. record { coef = *ℤ_comm a.coef b.coef i; scale = add_comm a.scale b.scale i }

pub add_mul : (a b c : Decimal) → (a +D b) *D c ≈ a *D c +D b *D c
add_mul a b c =
    let k = a.scale + b.scale in
    let l = c.scale in
    at_eq (k + l) _ _ (omega decimal_laws) (omega decimal_laws) (
      rw
        (
          at-mul k l (a +D b) c (omega decimal_laws) (omega arith),
          at-add k a b (omega arith) (omega arith),
          at-add (k + l) (a *D c) (b *D c) (omega decimal_laws) (omega decimal_laws),
          at-mul k l a c (omega arith) (omega arith),
          at-mul k l b c (omega arith) (omega arith),
        )
        (+ℤ-*ℤ _ _ _))

pub mul_nonneg : (a b : Decimal) → d_zero ≤D a → d_zero ≤D b → d_zero ≤D a *D b
mul_nonneg a b p q =
    let x = at a.scale a in
    let y = at b.scale b in
    at_le (a.scale + b.scale) d_zero (a *D b) (omega arith) (omega decimal_laws) (
      rw (at-mul a.scale b.scale a b (omega arith) (omega arith), at_zero)
        (omega (
          int_laws,
          ≤ℤ-*ℤ_nonneg (pos 0) x y
              (omega (decimal_laws, le_at b.scale d_zero b (omega arith) (omega arith) q))
              (omega (decimal_laws, le_at a.scale d_zero a (omega arith) (omega arith) p)),
        )))

pub mul_zero_D : (a : Decimal) → a *D d_zero ≈ d_zero
mul_zero_D a =
    at_eq (a.scale + 0) (a *D d_zero) d_zero (omega decimal_laws) (omega arith) (
      rw (at-mul a.scale 0 a d_zero (omega arith) (omega arith), at_zero, at_zero) (omega int_laws))

pub mul_pos : (a b : Decimal) → d_zero <D a → d_zero <D b → d_zero <D a *D b
mul_pos a b p q =
    let x = at a.scale a in
    let y = at b.scale b in
    at_lt (a.scale + b.scale) d_zero (a *D b) (omega arith) (omega decimal_laws) (
      rw (at-mul a.scale b.scale a b (omega arith) (omega arith), at_zero)
        (<ℤ-*ℤ_pos x y (omega (decimal_laws, lt_at a.scale d_zero a (omega arith) (omega arith) p))
          (omega (decimal_laws, lt_at b.scale d_zero b (omega arith) (omega arith) q))))

pub mul_assoc_D : (a b c : Decimal) → a *D b *D c ≡ a *D (b *D c)
unfolding ◌*D◌
mul_assoc_D a b c = λ i. record {
  coef = *ℤ_assoc a.coef b.coef c.coef i;
  scale = add_assoc a.scale b.scale c.scale i;
}
