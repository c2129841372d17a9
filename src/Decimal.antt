-- ===== src/Decimal.antt =====
-- Python's `decimal.Decimal`: a signed coefficient times a power of ten.
--
-- `Decimal("12.50")` is coefficient 1250 at scale 2. Sums take the larger scale and products add
-- the scales, as Python's do. Sums, differences and products are exact, which Python's are while
-- the result has at most 28 digits; a quotient is rounded (Decimal/Division).
pub mod Order
pub mod Product
pub mod Division
pub mod Key
pub mod Floor
pub mod Linear
use p2p_treker.Prelude.{ℕ, ◌+◌, ◌-◌, ◌^◌, max, Bool, if◌then◌else◌, ◌≡◌, List, [], ◌∷◌}
use p2p_treker.Prelude.Int.{ℤ, pos, ◌+ℤ◌, ◌-ℤ◌, ◌*ℤ◌, ◌≤ℤ◌, ◌<ℤ◌, leb_ℤ, ltb_ℤ, eqb_ℤ}

pub record Decimal : Type 0 where
  pub coef : ℤ
  pub scale : ℕ

-- The coefficient of `d` when it is written with `k` places, for `k` at least its own scale.
unfoldable pub at : ℕ → Decimal → ℤ
at k d = d.coef *ℤ pos (10 ^ (k - d.scale))

abbrev pub places : Decimal → Decimal → ℕ
places a b = max a.scale b.scale

abbrev pub of_int : ℤ → Decimal
of_int n = record { coef = n; scale = 0 }

-- A literal such as `Decimal("0.001")`, `lit 1 3`.
abbrev pub lit : ℕ → ℕ → Decimal
lit c s = record { coef = pos c; scale = s }

abbrev pub d_zero : Decimal
d_zero = lit 0 0

abbrev pub d_one : Decimal
d_one = lit 1 0

abbrev pub d_hundred : Decimal
d_hundred = lit 100 0

infixl 65 ◌+D◌ ◌-D◌
infixl 70 ◌*D◌
infix 50 ◌≤D◌ ◌<D◌
infix 4 ◌≈◌
unfoldable pub ◌+D◌ : Decimal → Decimal → Decimal
a +D b = record { coef = at (places a b) a +ℤ at (places a b) b; scale = places a b }

unfoldable pub ◌-D◌ : Decimal → Decimal → Decimal
a -D b = record { coef = at (places a b) a -ℤ at (places a b) b; scale = places a b }

unfoldable pub ◌*D◌ : Decimal → Decimal → Decimal
a *D b = record { coef = a.coef *ℤ b.coef; scale = a.scale + b.scale }

-- Decimals compare by value: 1.0 and 1.00 are equal.
pub record ◌≤D◌ (a b : Decimal) : Type 0 where
  pub holds : at (places a b) a ≤ℤ at (places a b) b

pub record ◌<D◌ (a b : Decimal) : Type 0 where
  pub holds : at (places a b) a <ℤ at (places a b) b

pub record ◌≈◌ (a b : Decimal) : Type 0 where
  pub holds : at (places a b) a ≡ at (places a b) b

abbrev pub leb_D : Decimal → Decimal → Bool
leb_D a b = leb_ℤ (at (places a b) a) (at (places a b) b)

abbrev pub ltb_D : Decimal → Decimal → Bool
ltb_D a b = ltb_ℤ (at (places a b) a) (at (places a b) b)

abbrev pub eqb_D : Decimal → Decimal → Bool
eqb_D a b = eqb_ℤ (at (places a b) a) (at (places a b) b)

-- Python's `min` and `max` return the first of two equal values.
unfoldable pub min_D : Decimal → Decimal → Decimal
min_D a b = if ltb_D b a then b else a

unfoldable pub max_D : Decimal → Decimal → Decimal
max_D a b = if ltb_D a b then b else a

-- `-d`
unfoldable pub neg_D : Decimal → Decimal
neg_D d = record { coef = pos 0 -ℤ d.coef; scale = d.scale }

-- `sum(ds, Decimal("0"))` adds from the left.
pub sum_from : Decimal → List Decimal → Decimal
sum_from acc [] = acc
sum_from acc (d ∷ ds) = sum_from (acc +D d) ds
