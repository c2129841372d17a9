-- ===== src/Decimal/Order.antt =====
-- Decimals form an ordered group: each linear fact is read at one common number of places.
use native.Mathlib.Nat.{pow-zero, pow-suc, pow-le-pow_right, add-zero, add-suc}
use p2p_treker.Prelude.{ℕ, zero, suc, ◌+◌, ◌-◌, ◌*◌, ◌^◌, ◌≤◌, ◌<◌, max, ◌≡◌, refl, ◌∙◌, arith}
use p2p_treker.Prelude.Int.{
  ℤ, pos, pos_part, neg_part, ◌+ℤ◌, ◌-ℤ◌, ◌*ℤ◌, ◌≤ℤ◌, ◌<ℤ◌, int_laws, +ℤ-*ℤ-pos, -ℤ-*ℤ-pos,
  *ℤ-pos_assoc, *ℤ_interchange, ≤ℤ-*ℤ-pos, ≤ℤ-*ℤ-pos_cancel, <ℤ-*ℤ-pos, <ℤ-*ℤ-pos_cancel,
  eq-*ℤ-pos_cancel,
}
use p2p_treker.Decimal.{
  neg_D, Decimal, at, d_zero, d_one, places, ◌+D◌, ◌-D◌, ◌*D◌, ◌≤D◌, ◌<D◌, ◌≈◌,
}

pow_add : (b m n : ℕ) → b ^ (m + n) ≡ b ^ m * b ^ n
pow_add b m zero = rw (add-zero m, pow-zero b) (omega arith)
pow_add b m (suc n) = rw (add-suc m n, pow-suc b (m + n), pow-suc b n, pow_add b m n) (omega arith)

pow_split : (k m s : ℕ) → s ≤ m → m ≤ k → 10 ^ (k - s) ≡ 10 ^ (m - s) * 10 ^ (k - m)
pow_split k m s h j =
    let e : k - s ≡ (m - s) + (k - m) = omega arith in rw e (pow_add 10 (m - s) (k - m))

pub pow_pos : (n : ℕ) → 0 < 10 ^ n
pow_pos n = pow-le-pow_right {n = 10} (omega arith) {i = 0} {j = n} (omega arith)

-- More places multiply the coefficient by a power of ten.
pub at-at : (k m : ℕ) (d : Decimal) → d.scale ≤ m → m ≤ k → at k d ≡ at m d *ℤ pos (10 ^ (k - m))
unfolding at
at-at k m d h j = rw (*ℤ-pos_assoc, pow_split k m d.scale h j)

at_record : (k m : ℕ) (c : ℤ) → at k (record { coef = c; scale = m }) ≡ c *ℤ pos (10 ^ (k - m))
unfolding at
at_record k m c = refl

pub at_zero : (k : ℕ) → at k d_zero ≡ pos 0
unfolding at ◌*ℤ◌
at_zero k = ground arith

pub at_self : (d : Decimal) → at d.scale d ≡ d.coef
unfolding at ◌*ℤ◌
at_self d = let e : d.scale - d.scale ≡ 0 = omega arith in rw e (ground arith)

pub at_one : (k : ℕ) → at k d_one ≡ pos (10 ^ k)
unfolding at ◌*ℤ◌
at_one k = ground arith

pub at-add : (k : ℕ) (a b : Decimal) → a.scale ≤ k → b.scale ≤ k → at k (a +D b) ≡ at k a +ℤ at k b
unfolding ◌+D◌
at-add k a b h j =
    let m = places a b in
    rw (
      at_record,
      +ℤ-*ℤ-pos,
      at-at k m a (omega arith) (omega arith),
      at-at k m b (omega arith) (omega arith),
    )

pub at-sub : (k : ℕ) (a b : Decimal) → a.scale ≤ k → b.scale ≤ k → at k (a -D b) ≡ at k a -ℤ at k b
unfolding ◌-D◌
at-sub k a b h j =
    let m = places a b in
    rw (
      at_record,
      -ℤ-*ℤ-pos,
      at-at k m a (omega arith) (omega arith),
      at-at k m b (omega arith) (omega arith),
    )

pub at-mul :
    (k l : ℕ) (a b : Decimal) → a.scale ≤ k → b.scale ≤ l → at (k + l) (a *D b) ≡ at k a *ℤ at l b
unfolding ◌*D◌ at
at-mul k l a b h j =
    let e : k + l - (a.scale + b.scale) ≡ (k - a.scale) + (l - b.scale) = omega arith in
    rw (e, pow_add 10 (k - a.scale) (l - b.scale)) (*ℤ_interchange a.coef b.coef _ _)

-- An order or an equation may be read at any number of places that suffices for both sides.
module _ (k : ℕ) (a b : Decimal) (h : a.scale ≤ k) (j : b.scale ≤ k) where
  pub le_at : a ≤D b → at k a ≤ℤ at k b
  le_at p =
      let m = places a b in
      rw (at-at k m a (omega arith) (omega arith), at-at k m b (omega arith) (omega arith))
        (≤ℤ-*ℤ-pos _ _ (10 ^ (k - m)) p.holds)

  pub at_le : at k a ≤ℤ at k b → a ≤D b
  at_le p =
      let m = places a b in
      record {
        holds = ≤ℤ-*ℤ-pos_cancel _ _ (10 ^ (k - m)) (pow_pos (k - m)) (
            rw (at-at k m a (omega arith) (omega arith), at-at k m b (omega arith) (omega arith)) at
              p);
      }

  pub lt_at : a <D b → at k a <ℤ at k b
  lt_at p =
      let m = places a b in
      rw (at-at k m a (omega arith) (omega arith), at-at k m b (omega arith) (omega arith))
        (<ℤ-*ℤ-pos _ _ (10 ^ (k - m)) (pow_pos (k - m)) p.holds)

  pub at_lt : at k a <ℤ at k b → a <D b
  at_lt p =
      let m = places a b in
      record {
        holds = <ℤ-*ℤ-pos_cancel _ _ (10 ^ (k - m)) (
            rw (at-at k m a (omega arith) (omega arith), at-at k m b (omega arith) (omega arith)) at
              p);
      }

  pub eq_at : a ≈ b → at k a ≡ at k b
  eq_at p =
      let m = places a b in
      rw (at-at k m a (omega arith) (omega arith), at-at k m b (omega arith) (omega arith), p.holds)
        refl

  pub at_eq : at k a ≡ at k b → a ≈ b
  at_eq p =
      let m = places a b in
      record {
        holds = eq-*ℤ-pos_cancel _ _ (10 ^ (k - m)) (pow_pos (k - m)) (
            rw (at-at k m a (omega arith) (omega arith), at-at k m b (omega arith) (omega arith)) at
              p);
      }

pub scale-add : (a b : Decimal) → (a +D b).scale ≡ max a.scale b.scale
unfolding ◌+D◌
scale-add a b = refl

pub scale-sub : (a b : Decimal) → (a -D b).scale ≡ max a.scale b.scale
unfolding ◌-D◌
scale-sub a b = refl

pub scale-mul : (a b : Decimal) → (a *D b).scale ≡ a.scale + b.scale
unfolding ◌*D◌
scale-mul a b = refl

-- In the two parts that `omega` reads.
pub at-add_parts :
    (k : ℕ) (a b : Decimal)
    → a.scale ≤ k
    → b.scale ≤ k
    → pos_part (at k (a +D b)) + neg_part (at k a) + neg_part (at k b)
      ≡ neg_part (at k (a +D b)) + pos_part (at k a) + pos_part (at k b)
at-add_parts k a b h j = rw (at-add k a b h j) (omega int_laws)

pub at-sub_parts :
    (k : ℕ) (a b : Decimal)
    → a.scale ≤ k
    → b.scale ≤ k
    → pos_part (at k (a -D b)) + neg_part (at k a) + pos_part (at k b)
      ≡ neg_part (at k (a -D b)) + pos_part (at k a) + neg_part (at k b)
at-sub_parts k a b h j = rw (at-sub k a b h j) (omega int_laws)

pub at-zero_parts : (k : ℕ) → (pos_part (at k d_zero) ≡ 0) × (neg_part (at k d_zero) ≡ 0)
at-zero_parts k = rw at_zero (refl, refl)

-- `omega` with these works at `k` places, with the operations on decimals shut.
pub ruleset decimal_laws =
    (int_laws, at-add_parts, at-sub_parts, at-zero_parts, scale-add, scale-sub, scale-mul)

-- A listed `le_at k a b` or `at_le k a b` carries an order to `k` places and back.
pub ≤D_trans : (a b c : Decimal) → a ≤D b → b ≤D c → a ≤D c
≤D_trans a b c p q =
    let k = a.scale + b.scale + c.scale in
    grind (decimal_laws, le_at k a b, le_at k b c, at_le k a c)

pub <D_of_≤D_of_<D : (a b c : Decimal) → a ≤D b → b <D c → a <D c
<D_of_≤D_of_<D a b c p q =
    let k = a.scale + b.scale + c.scale in
    grind (decimal_laws, le_at k a b, lt_at k b c, at_lt k a c)

pub ≈_refl : (a : Decimal) → a ≈ a
≈_refl a = record { holds = refl }

pub ≈_trans : (a b c : Decimal) → a ≈ b → b ≈ c → a ≈ c
≈_trans a b c p q =
    let k = a.scale + b.scale + c.scale in
    at_eq k a c (omega arith) (omega arith)
      (eq_at k a b (omega arith) (omega arith) p ∙ eq_at k b c (omega arith) (omega arith) q)

pub sub_nonneg : (a b : Decimal) → a ≤D b → d_zero ≤D b -D a
sub_nonneg a b p =
    let k = a.scale + b.scale in grind (decimal_laws, le_at k a b, at_le k d_zero (b -D a))

pub add_mono : (a b c d : Decimal) → a ≤D b → c ≤D d → a +D c ≤D b +D d
add_mono a b c d p q =
    let k = a.scale + b.scale + c.scale + d.scale in
    grind (decimal_laws, le_at k a b, le_at k c d, at_le k (a +D c) (b +D d))

pub scale-neg : (a : Decimal) → (neg_D a).scale ≡ a.scale
unfolding neg_D
scale-neg a = refl

pub at-neg :
    (k : ℕ) (a : Decimal)
    → (pos_part (at k (neg_D a)) + pos_part (at k a)
        ≡ neg_part (at k (neg_D a)) + neg_part (at k a))
unfolding neg_D at
at-neg k a = rw (-ℤ-*ℤ-pos (pos 0) a.coef (10 ^ (k - a.scale))) (omega int_laws)
