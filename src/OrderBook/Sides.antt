-- ===== src/OrderBook/Sides.antt =====
-- One side of the book under a list of changes: what each price holds afterwards.
use p2p_treker.Prelude.{
  ◌≡◌, refl, inl, inr, Option, none, some, List, [], ◌∷◌, All, arith, Bool-cases, if◌then◌else◌,
}
use p2p_treker.Prelude.Dict.{
  lookup, insert, erase, Distinct, lookup-insert, lookup-erase, insert-Distinct, erase-Distinct,
}
use p2p_treker.Decimal.{Decimal, d_zero, eqb_D, ltb_D, ◌<D◌, ◌≤D◌}
use p2p_treker.Decimal.Key.{decimal_key, ltb_D→<D, pos_of_ne_zero}
use p2p_treker.OrderBook.{
  Side, snapshot_level, snapshot_from, snapshot_side, apply_level, apply_side,
}

-- What the last change of a price says: absent, removed, or a quantity.
pub last_change : Decimal → List (Decimal × Decimal) → Option (Option Decimal)
last_change p [] = none
last_change p ((q, qty) ∷ levels) = elim (last_change p levels) [
  | some later ↦ some later
  | none ↦ if eqb_D q p then some (if eqb_D qty d_zero then none else some qty) else none
]

abbrev pub or_else : Option (Option Decimal) → Option Decimal → Option Decimal
or_else none old = old
or_else (some new) old = new

apply_level-Distinct :
    (store : Side) (p qty : Decimal) → Distinct store → Distinct (apply_level store p qty)
unfolding apply_level
apply_level-Distinct store p qty h =
    ground (arith, erase-Distinct p store h, insert-Distinct p qty store h)

pub apply_side-Distinct :
    (store : Side) (levels : List (Decimal × Decimal))
    → Distinct store
    → Distinct (apply_side store levels)
unfolding apply_side
apply_side-Distinct store [] h = h
apply_side-Distinct store ((p, qty) ∷ levels) h =
    apply_side-Distinct (apply_level store p qty) levels (apply_level-Distinct store p qty h)

lookup-apply_level :
    (p : Decimal) (store : Side) (q qty : Decimal)
    → Distinct store
    → lookup p (apply_level store q qty)
      ≡ (if eqb_D q p then (if eqb_D qty d_zero then none else some qty) else lookup p store)
unfolding apply_level
lookup-apply_level p store q qty h =
    ground (arith, lookup-erase q p store h, lookup-insert q p qty store)

-- After a delta a price holds what its last change says, and without one what it held.
pub lookup-apply_side :
    (p : Decimal) (store : Side) (levels : List (Decimal × Decimal))
    → Distinct store
    → lookup p (apply_side store levels) ≡ or_else (last_change p levels) (lookup p store)
unfolding apply_side last_change
lookup-apply_side p store [] h = refl
lookup-apply_side p store ((q, qty) ∷ levels) h = ground (
  arith,
  lookup-apply_side p (apply_level store q qty) levels (apply_level-Distinct store q qty h),
  lookup-apply_level p store q qty h,
)

-- Every stored quantity is positive, and no price stands twice.
abbrev pub IsPositive : Decimal × Decimal → Type 0
IsPositive (p, qty) = d_zero <D qty

pub record IsSide (store : Side) : Type 0 where
  pub distinct : Distinct store
  pub positive : All IsPositive store

erase-All :
    (P : Decimal × Decimal → Type 0) (p : Decimal) (store : Side)
    → All P store
    → All P (erase p store)
erase-All P p [] h = tt
erase-All P p (e ∷ store) h = elim (Bool-cases (eqb_D e.0 p)) [
  | inl t ↦ rw t h.1
  | inr f ↦ rw f (h.0, erase-All P p store h.1)
]

insert-IsPositive :
    (p qty : Decimal) (store : Side)
    → d_zero <D qty
    → All IsPositive store
    → All IsPositive (insert p qty store)
insert-IsPositive p qty [] q h = (q, tt)
insert-IsPositive p qty (e ∷ store) q h = elim (Bool-cases (eqb_D e.0 p)) [
  | inl t ↦ rw t (q, h.1)
  | inr f ↦ rw f (h.0, insert-IsPositive p qty store q h.1)
]

apply_level-IsPositive :
    (store : Side) (p qty : Decimal)
    → d_zero ≤D qty
    → All IsPositive store
    → All IsPositive (apply_level store p qty)
unfolding apply_level
apply_level-IsPositive store p qty q h = elim (Bool-cases (eqb_D qty d_zero)) [
  | inl t ↦ rw t (erase-All IsPositive p store h)
  | inr f ↦ rw f (insert-IsPositive p qty store (pos_of_ne_zero qty q f) h)
]

-- The feed carries no negative quantity.
abbrev pub NonNegative : List (Decimal × Decimal) → Type 0
NonNegative = All (λ level. d_zero ≤D level.1)

pub apply_side-IsSide :
    (store : Side) (levels : List (Decimal × Decimal))
    → NonNegative levels
    → IsSide store
    → IsSide (apply_side store levels)
unfolding apply_side
apply_side-IsSide store [] q h = h
apply_side-IsSide store ((p, qty) ∷ levels) q h =
    apply_side-IsSide (apply_level store p qty) levels q.1 (record {
      distinct = apply_level-Distinct store p qty h.distinct;
      positive = apply_level-IsPositive store p qty q.0 h.positive;
    })

snapshot_level-IsSide :
    (store : Side) (p qty : Decimal) → IsSide store → IsSide (snapshot_level store p qty)
unfolding snapshot_level
snapshot_level-IsSide store p qty h = elim (Bool-cases (ltb_D d_zero qty)) [
  | inl t ↦ rw t (record {
    distinct = insert-Distinct p qty store h.distinct;
    positive = insert-IsPositive p qty store (ltb_D→<D d_zero qty t) h.positive;
  })
  | inr f ↦ rw f h
]

snapshot_from-IsSide :
    (store : Side) (levels : List (Decimal × Decimal))
    → IsSide store
    → IsSide (snapshot_from store levels)
unfolding snapshot_from
snapshot_from-IsSide store [] h = h
snapshot_from-IsSide store ((p, qty) ∷ levels) h =
    snapshot_from-IsSide (snapshot_level store p qty) levels (snapshot_level-IsSide store p qty h)

-- A snapshot is checked whatever quantities it carries.
pub snapshot_side-IsSide : (levels : List (Decimal × Decimal)) → IsSide (snapshot_side levels)
unfolding snapshot_side
snapshot_side-IsSide levels =
    snapshot_from-IsSide [] levels (record { distinct = tt; positive = tt })
