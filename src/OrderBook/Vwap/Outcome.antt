-- ===== src/OrderBook/Vwap/Outcome.antt =====
-- What `compute_vwap` promises of its result, on every path.
use p2p_treker.Prelude.{
  ◌≡◌, refl, inl, inr, ◌↔◌, true, false, none, List, All, Bool-cases, arith, ◌+◌, ap,
}
use p2p_treker.Prelude.Int.{pos_part, neg_part}
use p2p_treker.Prelude.Result.{Returns}
use p2p_treker.Decimal.{Decimal, d_zero, ◌+D◌, ◌*D◌, ◌≤D◌, ◌<D◌, ◌≈◌, eqb_D}
use p2p_treker.Decimal.Order.{
  ≈_refl, ≈_trans, le_at, at_le, lt_at, at_lt, eq_at, at_eq, decimal_laws,
}
use p2p_treker.Decimal.Key.{
  leb_D_of_pos, leb_D→≤D, ≤D→leb_D, not-leb_D, <D→≤D, <D→not-≤D, ≈_symm, eqb_D→≈, ≈→eqb_D,
}
use p2p_treker.Decimal.Linear.{≈→≤D}
use p2p_treker.Decimal.Product.{mul_zero_D}
use p2p_treker.OrderBook.{BookLevel}
use p2p_treker.OrderBook.Vwap.{Progress, VwapResult, fill_levels, start, vwap_of, compute_vwap}
use p2p_treker.OrderBook.Vwap.Fill.{
  Offers, total_quantity, remaining_nonneg, remaining_iff, filled_balance, exhausted,
}
use p2p_treker.OrderBook.Vwap.Price.{notional_floor, notional_ceiling}

pub record Outcome (levels : List BookLevel) (target : Decimal) (r : VwapResult) : Type 0 where
  pub within : r.filled_quantity ≤D target
  pub full_iff : (r.fully_filled ≡ true) ↔ (target ≤D total_quantity levels)
  pub when_full : r.fully_filled ≡ true → r.filled_quantity ≈ target
  pub when_partial : r.fully_filled ≡ false → r.filled_quantity ≈ total_quantity levels
  pub unpriced_iff : (r.vwap_price ≡ none) ↔ (r.filled_quantity ≈ d_zero)
  pub floor : (p : Decimal) → All (λ l. p ≤D l.price) levels → p *D r.filled_quantity ≤D r.notional
  pub ceiling :
      (p : Decimal) → All (λ l. l.price ≤D p) levels → r.notional ≤D p *D r.filled_quantity

-- The facts of a loop that has ended at `s`.
record Ended (target total : Decimal) (s : Progress) : Type 0 where
  remaining_nonneg : d_zero ≤D s.remaining
  remaining_iff : (s.remaining ≤D d_zero) ↔ (target ≤D total)
  balance : s.filled +D s.remaining ≈ d_zero +D target
  exhausted : d_zero <D s.remaining → s.filled ≈ d_zero +D total

filled-le : (f r t : Decimal) → d_zero ≤D r → f +D r ≈ d_zero +D t → f ≤D t
filled-le f r t h e =
    let k = f.scale + r.scale + t.scale in
    grind (decimal_laws, le_at k d_zero r, eq_at k (f +D r) (d_zero +D t), at_le k f t)

filled-eq : (f r t : Decimal) → d_zero ≤D r → r ≤D d_zero → f +D r ≈ d_zero +D t → f ≈ t
filled-eq f r t h l e =
    let k = f.scale + r.scale + t.scale in
    at_eq k f t (omega arith) (omega arith) (
      omega (
        decimal_laws,
        le_at k d_zero r (omega arith) (omega arith) h,
        le_at k r d_zero (omega arith) (omega arith) l,
        ap pos_part (eq_at k (f +D r) (d_zero +D t) (omega decimal_laws) (omega decimal_laws) e),
        ap neg_part (eq_at k (f +D r) (d_zero +D t) (omega decimal_laws) (omega decimal_laws) e),
      ))

zero_add_D : (a : Decimal) → d_zero +D a ≈ a
zero_add_D a = at_eq a.scale _ _ (omega decimal_laws) (omega decimal_laws) (omega decimal_laws)

-- Nothing was filled, so all of a positive target remains.
remaining_pos : (f r t : Decimal) → f ≈ d_zero → d_zero <D t → f +D r ≈ d_zero +D t → d_zero <D r
remaining_pos f r t z p e =
    let k = f.scale + r.scale + t.scale in
    grind (
      decimal_laws,
      eq_at k f d_zero,
      lt_at k d_zero t,
      eq_at k (f +D r) (d_zero +D t),
      at_lt k d_zero r,
    )

module _ (levels : List BookLevel) (target : Decimal) (positive : d_zero <D target) (s : Progress)
    (ended : Ended target (total_quantity levels) s)
    (floor : (p : Decimal) → All (λ l. p ≤D l.price) levels → p *D s.filled ≤D s.notional)
    (ceiling : (p : Decimal) → All (λ l. l.price ≤D p) levels → s.notional ≤D p *D s.filled) where
  total : Decimal
  total = total_quantity levels

  some_left : s.remaining ≤D d_zero → ¬ (d_zero <D s.remaining)
  some_left l h = <D→not-≤D d_zero s.remaining h l

  empty-Outcome : eqb_D s.filled d_zero ≡ true → Outcome levels target (vwap_of s)
  unfolding vwap_of
  empty-Outcome z =
      let nothing = eqb_D→≈ s.filled d_zero z in
      let left = remaining_pos s.filled s.remaining target nothing positive ended.balance in
      rw z (record {
        within = <D→≤D d_zero target positive;
        full_iff = ((λ h. cc), (λ h. absurd (some_left (ended.remaining_iff.1 h) left)));
        when_full = λ h. cc;
        when_partial = λ h.
            ≈_trans _ _ _ (≈_symm _ _ nothing)
              (≈_trans _ _ _ (ended.exhausted left) (zero_add_D (total_quantity levels)));
        unpriced_iff = ((λ h. ≈_refl d_zero), (λ h. refl));
        floor = λ p a. ≈→≤D _ _ (mul_zero_D p);
        ceiling = λ p a. ≈→≤D _ _ (≈_symm _ _ (mul_zero_D p));
      })

  priced-Outcome : eqb_D s.filled d_zero ≡ false → Outcome levels target (vwap_of s)
  unfolding vwap_of
  priced-Outcome z = rw z (record {
    within = filled-le s.filled s.remaining target ended.remaining_nonneg ended.balance;
    full_iff = (
      (λ h. ended.remaining_iff.0 (leb_D→≤D s.remaining d_zero h)),
      (λ h. ≤D→leb_D s.remaining d_zero (ended.remaining_iff.1 h)),
    );
    when_full = λ h.
        filled-eq s.filled s.remaining target ended.remaining_nonneg (leb_D→≤D s.remaining d_zero h)
          ended.balance;
    when_partial = λ h.
        ≈_trans _ _ _ (ended.exhausted (not-leb_D s.remaining d_zero h))
          (zero_add_D (total_quantity levels));
    unpriced_iff = ((λ h. cc), (λ h. let z' = ≈→eqb_D s.filled d_zero h in cc));
    floor = floor;
    ceiling = ceiling;
  })

-- For a positive target over levels of non-negative quantity `compute_vwap` returns: it fills
-- the smaller of the target and the depth, says `fully_filled` exactly if the depth suffices,
-- gives no price exactly if nothing was filled, and pays between the lowest and highest price.
pub compute_vwap-Outcome :
    (levels : List BookLevel) (target : Decimal)
    → Offers levels
    → d_zero <D target
    → Returns (Outcome levels target) (compute_vwap levels target)
unfolding compute_vwap
compute_vwap-Outcome levels target o p =
    rw (leb_D_of_pos target p) (elim (Bool-cases (eqb_D s.filled d_zero)) [
      | inl z ↦ empty-Outcome levels target p s ended low high z
      | inr z ↦ priced-Outcome levels target p s ended low high z
    ])
  where
    s : Progress
    s = fill_levels (start target) levels

    asked : d_zero ≤D target
    asked = <D→≤D d_zero target p

    ended : Ended target (total_quantity levels) s
    ended = record {
      remaining_nonneg = remaining_nonneg (start target) levels asked;
      remaining_iff = remaining_iff (start target) levels asked o;
      balance = filled_balance (start target) levels;
      exhausted = exhausted (start target) levels o asked;
    }

    low : (q : Decimal) → All (λ l. q ≤D l.price) levels → q *D s.filled ≤D s.notional
    low q a = notional_floor q (start target) levels a o asked (≈→≤D _ _ (mul_zero_D q))

    high : (q : Decimal) → All (λ l. l.price ≤D q) levels → s.notional ≤D q *D s.filled
    high q a =
        notional_ceiling q (start target) levels a o asked (≈→≤D _ _ (≈_symm _ _ (mul_zero_D q)))
