-- ===== src/Decimal/Key.antt =====
-- Decimals as dict keys, equal by value as `__eq__` and `__hash__` have them, and the laws of the
-- Boolean tests.
use p2p_treker.Prelude.{◌≡◌, sym, ap, true, false, ◌⊎◌, inl, inr, refl, Bool-cases, arith}
use p2p_treker.Prelude.Int.{pos_part, neg_part, eq_of_parts}
use p2p_treker.Prelude.Dict.{Key}
use p2p_treker.Decimal.{Decimal, places, d_zero, eqb_D, leb_D, ltb_D, min_D, max_D, ◌≈◌, ◌≤D◌, ◌<D◌}
use p2p_treker.Decimal.Order.{at_lt, ≈_trans, ≤D_trans, le_at}

places_comm : (a b : Decimal) → places a b ≡ places b a
places_comm a b = omega arith

pub eqb_D→≈ : (a b : Decimal) → eqb_D a b ≡ true → a ≈ b
eqb_D→≈ a b h = record { holds = eq_of_parts _ _ (ground arith) }

pub ≈→eqb_D : (a b : Decimal) → a ≈ b → eqb_D a b ≡ true
≈→eqb_D a b h = ground (arith, ap pos_part h.holds, ap neg_part h.holds)

pub ≈_symm : (a b : Decimal) → a ≈ b → b ≈ a
≈_symm a b h = record { holds = rw (places_comm b a) (sym h.holds) }

pub leb_D→≤D : (a b : Decimal) → leb_D a b ≡ true → a ≤D b
leb_D→≤D a b h = ground arith

pub ltb_D→<D : (a b : Decimal) → ltb_D a b ≡ true → a <D b
ltb_D→<D a b h = ground arith

pub ≤D→leb_D : (a b : Decimal) → a ≤D b → leb_D a b ≡ true
≤D→leb_D a b h = ground arith

pub <D→ltb_D : (a b : Decimal) → a <D b → ltb_D a b ≡ true
<D→ltb_D a b h = ground arith

-- The two orders of a test.
pub not-leb_D : (a b : Decimal) → leb_D a b ≡ false → b <D a
not-leb_D a b h = record { holds = rw (places_comm b a) (ground arith) }

pub not-ltb_D : (a b : Decimal) → ltb_D a b ≡ false → b ≤D a
not-ltb_D a b h = record { holds = rw (places_comm b a) (ground arith) }

pub <D→≤D : (a b : Decimal) → a <D b → a ≤D b
<D→≤D a b h = omega arith

pub <D→not-≤D : (a b : Decimal) → a <D b → ¬ (b ≤D a)
<D→not-≤D a b h k = let k' = rw (places_comm b a) at k.holds in omega arith

pub eqb_D_refl : (a : Decimal) → eqb_D a a ≡ true
eqb_D_refl a = ground arith

pub eqb_D_symm : (a b : Decimal) → eqb_D a b ≡ true → eqb_D b a ≡ true
eqb_D_symm a b h = ≈→eqb_D b a (≈_symm a b (eqb_D→≈ a b h))

pub eqb_D_trans : (a b c : Decimal) → eqb_D a b ≡ true → eqb_D b c ≡ true → eqb_D a c ≡ true
eqb_D_trans a b c h k = ≈→eqb_D a c (≈_trans a b c (eqb_D→≈ a b h) (eqb_D→≈ b c k))

instance abbrev pub decimal_key : Key Decimal
decimal_key = record {
  beq = eqb_D;
  beq_refl = eqb_D_refl;
  beq_symm = eqb_D_symm;
  beq_trans = eqb_D_trans;
}

pub ≤D_refl : (a : Decimal) → a ≤D a
≤D_refl a = omega arith

-- The tests as orders between Boolean values, for `sorted`, `max` and `min`.
pub leb_D_total : (a b : Decimal) → leb_D a b ≡ false → leb_D b a ≡ true
leb_D_total a b f = ≤D→leb_D b a (<D→≤D b a (not-leb_D a b f))

pub leb_D_trans : (a b c : Decimal) → leb_D a b ≡ true → leb_D b c ≡ true → leb_D a c ≡ true
leb_D_trans a b c p q = ≤D→leb_D a c (≤D_trans a b c (leb_D→≤D a b p) (leb_D→≤D b c q))

pub min_D-cases : (a b : Decimal) → ((min_D a b ≡ b) × (b <D a)) ⊎ ((min_D a b ≡ a) × (a ≤D b))
unfolding min_D
min_D-cases a b = elim (Bool-cases (ltb_D b a)) [
  | inl t ↦ inl (rw t refl, ltb_D→<D b a t)
  | inr f ↦ inr (rw f refl, not-ltb_D b a f)
]

pub max_D-cases : (a b : Decimal) → ((max_D a b ≡ b) × (a <D b)) ⊎ ((max_D a b ≡ a) × (b ≤D a))
unfolding max_D
max_D-cases a b = elim (Bool-cases (ltb_D a b)) [
  | inl t ↦ inl (rw t refl, ltb_D→<D a b t)
  | inr f ↦ inr (rw f refl, not-ltb_D a b f)
]

pub min_D-le_left : (a b : Decimal) → min_D a b ≤D a
min_D-le_left a b = elim (min_D-cases a b) [
  | inl (e, h) ↦ rw e (<D→≤D b a h)
  | inr (e, h) ↦ rw e (≤D_refl a)
]

pub min_D-le_right : (a b : Decimal) → min_D a b ≤D b
min_D-le_right a b = elim (min_D-cases a b) [ inl (e, h) ↦ rw e (≤D_refl b) | inr (e, h) ↦ rw e h ]

pub le-max_D_left : (a b : Decimal) → a ≤D max_D a b
le-max_D_left a b = elim (max_D-cases a b) [
  | inl (e, h) ↦ rw e (<D→≤D a b h)
  | inr (e, h) ↦ rw e (≤D_refl a)
]

pub le-max_D_right : (a b : Decimal) → b ≤D max_D a b
le-max_D_right a b = elim (max_D-cases a b) [ inl (e, h) ↦ rw e (≤D_refl b) | inr (e, h) ↦ rw e h ]

-- With its sign known, a decimal that is not zero is positive.
pub pos_of_ne_zero : (a : Decimal) → d_zero ≤D a → eqb_D a d_zero ≡ false → d_zero <D a
pos_of_ne_zero a h f =
    let k = places a d_zero in
    let h' = le_at k d_zero a (omega arith) (omega arith) h in
    at_lt k d_zero a (omega arith) (omega arith) (ground arith)

-- The guards `if d <= 0` and `if d < 0` on decimals that pass them.
pub leb_D_of_pos : (d : Decimal) → d_zero <D d → leb_D d d_zero ≡ false
leb_D_of_pos d p = elim (Bool-cases (leb_D d d_zero)) [
  | inl t ↦ absurd (<D→not-≤D d_zero d p (leb_D→≤D d d_zero t))
  | inr f ↦ f
]

pub ltb_D_of_nonneg : (d : Decimal) → d_zero ≤D d → ltb_D d d_zero ≡ false
ltb_D_of_nonneg d p = elim (Bool-cases (ltb_D d d_zero)) [
  | inl t ↦ absurd (<D→not-≤D d d_zero (ltb_D→<D d d_zero t) p)
  | inr f ↦ f
]
