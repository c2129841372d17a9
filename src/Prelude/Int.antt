-- ===== src/Prelude/Int.antt =====
-- Python's unbounded integers over the native numbers, under the library's names.
-- Sums and orders go through the two parts of an integer, which are numbers that `omega` reads.
use Prim.Native.Nat.{ℕ, suc, ◌+◌, ◌-◌, ◌*◌, ◌≤◌, ◌<◌}
use mathlib.Core.Path.{◌≡◌, ap}
use mathlib.Core.Bool.{Bool}
use native.Mathlib.Nat.{mul-le-mul_right, le_of_mul-le-mul_right}
use native.Mathlib.Omega.{arith}
use p2p_treker.Prelude.Tests.{ltb, leb, ◌==◌, if◌then◌else◌}

-- `negsuc n` is -(n + 1).
pub data ℤ : Type 0 where
  pos : ℕ → ℤ
  negsuc : ℕ → ℤ

abbrev pub pos_part : ℤ → ℕ
pos_part (pos n) = n
pos_part (negsuc n) = 0

abbrev pub neg_part : ℤ → ℕ
neg_part (pos n) = 0
neg_part (negsuc n) = suc n

-- a - b, as an integer.
abbrev pub sub_ℕ : ℕ → ℕ → ℤ
sub_ℕ a b = if leb b a then pos (a - b) else negsuc (b - a - 1)

infixl 65 ◌+ℤ◌ ◌-ℤ◌
infixl 70 ◌*ℤ◌
infix 50 ◌≤ℤ◌ ◌<ℤ◌
unfoldable pub ◌+ℤ◌ : ℤ → ℤ → ℤ
a +ℤ b = sub_ℕ (pos_part a + pos_part b) (neg_part a + neg_part b)

unfoldable pub ◌-ℤ◌ : ℤ → ℤ → ℤ
a -ℤ b = sub_ℕ (pos_part a + neg_part b) (neg_part a + pos_part b)

unfoldable pub ◌*ℤ◌ : ℤ → ℤ → ℤ
a *ℤ b =
    sub_ℕ (pos_part a * pos_part b + neg_part a * neg_part b)
      (pos_part a * neg_part b + neg_part a * pos_part b)

abbrev pub ◌≤ℤ◌ : ℤ → ℤ → Type 0
a ≤ℤ b = pos_part a + neg_part b ≤ pos_part b + neg_part a

abbrev pub ◌<ℤ◌ : ℤ → ℤ → Type 0
a <ℤ b = pos_part a + neg_part b < pos_part b + neg_part a

abbrev pub leb_ℤ : ℤ → ℤ → Bool
leb_ℤ a b = leb (pos_part a + neg_part b) (pos_part b + neg_part a)

abbrev pub ltb_ℤ : ℤ → ℤ → Bool
ltb_ℤ a b = ltb (pos_part a + neg_part b) (pos_part b + neg_part a)

abbrev pub eqb_ℤ : ℤ → ℤ → Bool
eqb_ℤ a b = pos_part a + neg_part b == pos_part b + neg_part a

-- `abs(a)`
abbrev pub nat_abs : ℤ → ℕ
nat_abs (pos n) = n
nat_abs (negsuc n) = suc n

pub +ℤ_parts :
    (a b : ℤ)
    → pos_part (a +ℤ b) + neg_part a + neg_part b ≡ neg_part (a +ℤ b) + pos_part a + pos_part b
unfolding ◌+ℤ◌
+ℤ_parts a b = ground arith

pub -ℤ_parts :
    (a b : ℤ)
    → pos_part (a -ℤ b) + neg_part a + pos_part b ≡ neg_part (a -ℤ b) + pos_part a + neg_part b
unfolding ◌-ℤ◌
-ℤ_parts a b = ground arith

pub *ℤ_parts :
    (a b : ℤ)
    → pos_part (a *ℤ b) + (pos_part a * neg_part b + neg_part a * pos_part b)
      ≡ neg_part (a *ℤ b) + (pos_part a * pos_part b + neg_part a * neg_part b)
unfolding ◌*ℤ◌
*ℤ_parts a b = ground arith

pub eq_of_parts : (a b : ℤ) → pos_part a + neg_part b ≡ pos_part b + neg_part a → a ≡ b
eq_of_parts a b h = ground arith

pub ruleset int_laws = (arith, +ℤ_parts, -ℤ_parts, *ℤ_parts, eq_of_parts)

-- Scaling by a natural number goes through sums.
pub +ℤ-*ℤ-pos : (a b : ℤ) (n : ℕ) → (a +ℤ b) *ℤ pos n ≡ a *ℤ pos n +ℤ b *ℤ pos n
+ℤ-*ℤ-pos a b n = omega (int_laws, ap (λ (t : ℕ). t * n) (+ℤ_parts a b))

pub -ℤ-*ℤ-pos : (a b : ℤ) (n : ℕ) → (a -ℤ b) *ℤ pos n ≡ a *ℤ pos n -ℤ b *ℤ pos n
-ℤ-*ℤ-pos a b n = omega (int_laws, ap (λ (t : ℕ). t * n) (-ℤ_parts a b))

pub *ℤ-pos_assoc : (a : ℤ) (m n : ℕ) → a *ℤ pos m *ℤ pos n ≡ a *ℤ pos (m * n)
*ℤ-pos_assoc a m n = omega (int_laws, ap (λ (t : ℕ). t * n) (*ℤ_parts a (pos m)))

pub pos_part-*ℤ : (a b : ℤ) → pos_part (a *ℤ b) ≡ pos_part a * pos_part b + neg_part a * neg_part b
unfolding ◌*ℤ◌
pos_part-*ℤ a b = ground arith

pub neg_part-*ℤ : (a b : ℤ) → neg_part (a *ℤ b) ≡ pos_part a * neg_part b + neg_part a * pos_part b
unfolding ◌*ℤ◌
neg_part-*ℤ a b = ground arith

pub ruleset product_parts = (pos_part-*ℤ, neg_part-*ℤ)

pub *ℤ_comm : (a b : ℤ) → a *ℤ b ≡ b *ℤ a
*ℤ_comm a b = eq_of_parts _ _ (simp product_parts (omega arith))

pub *ℤ_assoc : (a b c : ℤ) → a *ℤ b *ℤ c ≡ a *ℤ (b *ℤ c)
*ℤ_assoc a b c = eq_of_parts _ _ (simp product_parts (omega arith))

-- A product at two powers is the product of the parts at each.
pub *ℤ_interchange : (a b : ℤ) (m n : ℕ) → a *ℤ b *ℤ pos (m * n) ≡ (a *ℤ pos m) *ℤ (b *ℤ pos n)
*ℤ_interchange a b m n = eq_of_parts _ _ (simp product_parts (omega arith))

-- Scaling by a positive number keeps and reflects order.
pub ≤ℤ-*ℤ-pos : (a b : ℤ) (n : ℕ) → a ≤ℤ b → a *ℤ pos n ≤ℤ b *ℤ pos n
≤ℤ-*ℤ-pos a b n h = simp product_parts (omega (arith, mul-le-mul_right n h))

pub ≤ℤ-*ℤ-pos_cancel : (a b : ℤ) (n : ℕ) → 0 < n → a *ℤ pos n ≤ℤ b *ℤ pos n → a ≤ℤ b
≤ℤ-*ℤ-pos_cancel a b n p h =
    le_of_mul-le-mul_right {k = n} (omega (arith, simp product_parts at h)) p

pub eq-*ℤ-pos_cancel : (a b : ℤ) (n : ℕ) → 0 < n → a *ℤ pos n ≡ b *ℤ pos n → a ≡ b
eq-*ℤ-pos_cancel a b n p e = omega (
  int_laws,
  ≤ℤ-*ℤ-pos_cancel a b n p (rw e (omega arith)),
  ≤ℤ-*ℤ-pos_cancel b a n p (rw e (omega arith)),
)

pub <ℤ-*ℤ-pos : (a b : ℤ) (n : ℕ) → 0 < n → a <ℤ b → a *ℤ pos n <ℤ b *ℤ pos n
<ℤ-*ℤ-pos a b n p h = grind (arith, ≤ℤ-*ℤ-pos_cancel b a n p)

pub <ℤ-*ℤ-pos_cancel : (a b : ℤ) (n : ℕ) → a *ℤ pos n <ℤ b *ℤ pos n → a <ℤ b
<ℤ-*ℤ-pos_cancel a b n h = grind (arith, ≤ℤ-*ℤ-pos b a n)

pub ≤ℤ-*ℤ_nonneg : (a b c : ℤ) → pos 0 ≤ℤ c → a ≤ℤ b → a *ℤ c ≤ℤ b *ℤ c
≤ℤ-*ℤ_nonneg a b (pos n) p h = ≤ℤ-*ℤ-pos a b n h
≤ℤ-*ℤ_nonneg a b (negsuc n) p h = absurd (omega arith)

pub +ℤ-*ℤ : (a b c : ℤ) → (a +ℤ b) *ℤ c ≡ a *ℤ c +ℤ b *ℤ c
+ℤ-*ℤ a b c = omega (
  int_laws,
  ap (λ (t : ℕ). t * pos_part c) (+ℤ_parts a b),
  ap (λ (t : ℕ). t * neg_part c) (+ℤ_parts a b),
)

pub -ℤ-*ℤ : (a b c : ℤ) → (a -ℤ b) *ℤ c ≡ a *ℤ c -ℤ b *ℤ c
-ℤ-*ℤ a b c = omega (
  int_laws,
  ap (λ (t : ℕ). t * pos_part c) (-ℤ_parts a b),
  ap (λ (t : ℕ). t * neg_part c) (-ℤ_parts a b),
)

pub eq_pos_of_nonneg : (a : ℤ) → pos 0 ≤ℤ a → a ≡ pos (pos_part a)
eq_pos_of_nonneg a h = ground arith

pub <ℤ-*ℤ_pos : (a b : ℤ) → pos 0 <ℤ a → pos 0 <ℤ b → pos 0 <ℤ a *ℤ b
<ℤ-*ℤ_pos a (pos n) p q = grind (int_laws, <ℤ-*ℤ-pos (pos 0) a n)
<ℤ-*ℤ_pos a (negsuc n) p q = absurd (omega arith)
