-- ===== src/OrderBook/Vwap/Fill.antt =====
-- The loop of `compute_vwap`: how much it takes, and what it pays.
use p2p_treker.Prelude.{inl, inr, ◌↔◌, List, [], ◌∷◌, All, Bool-cases}
use p2p_treker.Decimal.{Decimal, d_zero, ◌+D◌, ◌-D◌, ◌≤D◌, ◌<D◌, ◌≈◌, leb_D, min_D}
use p2p_treker.Decimal.Order.{≤D_trans, ≈_refl, ≈_trans, sub_nonneg}
use p2p_treker.Decimal.Key.{
  ≤D_refl, leb_D→≤D, <D→≤D, min_D-cases, min_D-le_right, ≈_symm, <D→not-≤D,
}
use p2p_treker.Decimal.Linear.{
  sub-le_of_le-add, le-add_of_sub-le, sub_self-le, le-add_left, add_nonneg, add_sub_balance,
  add_assoc_D, add_zero_D,
}
use p2p_treker.OrderBook.{BookLevel}
use p2p_treker.OrderBook.Vwap.{Progress, take_level, fill_levels}

-- The quantity that the levels offer together.
pub total_quantity : List BookLevel → Decimal
total_quantity [] = d_zero
total_quantity (l ∷ ls) = l.quantity +D total_quantity ls

abbrev pub Offers : List BookLevel → Type 0
Offers = All (λ l. d_zero ≤D l.quantity)

pub total_nonneg : (ls : List BookLevel) → Offers ls → d_zero ≤D total_quantity ls
unfolding total_quantity
total_nonneg [] h = ≤D_refl d_zero
total_nonneg (l ∷ ls) h = add_nonneg l.quantity (total_quantity ls) h.0 (total_nonneg ls h.1)

abbrev pub taken : Progress → BookLevel → Decimal
taken s l = min_D l.quantity s.remaining

pub taken_nonneg :
    (s : Progress) (l : BookLevel)
    → d_zero ≤D s.remaining
    → d_zero ≤D l.quantity
    → d_zero ≤D taken s l
taken_nonneg s l p q = elim (min_D-cases l.quantity s.remaining) [
  | inl (e, h) ↦ rw e p
  | inr (e, h) ↦ rw e q
]

-- One level: what stays to be filled fits the other levels exactly if it fitted them all.
take_level-fits :
    (s : Progress) (l : BookLevel) (t : Decimal)
    → d_zero ≤D t
    → (s.remaining -D taken s l ≤D t) ↔ (s.remaining ≤D l.quantity +D t)
take_level-fits s l t h = elim (min_D-cases l.quantity s.remaining) [
  | inl (e, less) ↦ rw e (
    (λ _. le-add_left s.remaining l.quantity t (<D→≤D s.remaining l.quantity less) h),
    (λ _. sub_self-le s.remaining t h),
  )
  | inr (e, more) ↦
      rw e (le-add_of_sub-le s.remaining l.quantity t, sub-le_of_le-add s.remaining l.quantity t)
]

pub remaining-take_level : (s : Progress) (l : BookLevel) → d_zero ≤D s.remaining -D taken s l
remaining-take_level s l =
    sub_nonneg (taken s l) s.remaining (min_D-le_right l.quantity s.remaining)

-- The loop never takes more than was asked for.
pub remaining_nonneg :
    (s : Progress) (ls : List BookLevel)
    → d_zero ≤D s.remaining
    → d_zero ≤D (fill_levels s ls).remaining
unfolding fill_levels
remaining_nonneg s [] p = p
remaining_nonneg s (l ∷ ls) p = elim (Bool-cases (leb_D s.remaining d_zero)) [
  | inl done ↦ rw done p
  | inr more ↦ rw more (remaining_nonneg (take_level s l) ls (remaining-take_level s l))
]

-- Nothing remains exactly when the levels offered enough.
pub remaining_iff :
    (s : Progress) (ls : List BookLevel)
    → d_zero ≤D s.remaining
    → Offers ls
    → ((fill_levels s ls).remaining ≤D d_zero) ↔ (s.remaining ≤D total_quantity ls)
unfolding fill_levels total_quantity
remaining_iff s [] p h = ((λ q. q), (λ q. q))
remaining_iff s (l ∷ ls) p h = elim (Bool-cases (leb_D s.remaining d_zero)) [
  | inl done ↦ rw done (
    (λ q.
        ≤D_trans s.remaining d_zero (total_quantity (l ∷ ls)) (leb_D→≤D s.remaining d_zero done)
          (total_nonneg (l ∷ ls) h)),
    (λ _. leb_D→≤D s.remaining d_zero done),
  )
  | inr more ↦
      let ih = remaining_iff (take_level s l) ls (remaining-take_level s l) h.1 in
      let step = take_level-fits s l (total_quantity ls) (total_nonneg ls h.1) in
      rw more ((λ q. step.0 (ih.0 q)), (λ q. ih.1 (step.1 q)))
]

-- What is filled and what remains make up what was asked for.
pub filled_balance :
    (s : Progress) (ls : List BookLevel)
    → (fill_levels s ls).filled +D (fill_levels s ls).remaining ≈ s.filled +D s.remaining
unfolding fill_levels
filled_balance s [] = ≈_refl (s.filled +D s.remaining)
filled_balance s (l ∷ ls) = elim (Bool-cases (leb_D s.remaining d_zero)) [
  | inl done ↦ rw done (≈_refl (s.filled +D s.remaining))
  | inr more ↦ rw more (
      ≈_trans _ _ _ (filled_balance (take_level s l) ls)
        (add_sub_balance s.filled s.remaining (taken s l)))
]

-- If something remains, every level was taken whole.
pub exhausted :
    (s : Progress) (ls : List BookLevel)
    → Offers ls
    → d_zero ≤D s.remaining
    → d_zero <D (fill_levels s ls).remaining
    → (fill_levels s ls).filled ≈ s.filled +D total_quantity ls
unfolding fill_levels total_quantity
exhausted s [] o r h = ≈_symm _ _ (add_zero_D s.filled)
exhausted s (l ∷ ls) o r h = elim (Bool-cases (leb_D s.remaining d_zero)) [
  | inl done ↦
      absurd (<D→not-≤D d_zero s.remaining (rw done at h) (leb_D→≤D s.remaining d_zero done))
  | inr more ↦ rw more (elim (min_D-cases l.quantity s.remaining) [
    | inl (e, less) ↦ absurd (
        <D→not-≤D d_zero (fill_levels (take_level s l) ls).remaining (rw more at h) (
          (remaining_iff (take_level s l) ls (remaining-take_level s l) o.1).1
            (rw e (sub_self-le s.remaining (total_quantity ls) (total_nonneg ls o.1)))))
    | inr (e, whole) ↦
        ≈_trans _ _ _ (exhausted (take_level s l) ls o.1 (remaining-take_level s l) (rw more at h))
          (rw e (add_assoc_D s.filled l.quantity (total_quantity ls)))
  ])
]
