-- ===== src/Capital/Plan.antt =====
-- The plan of `rebalance_signals` as a whole: enough fuel, no exception, and bounded amounts.
use p2p_treker.Prelude.{
  ℕ, zero, suc, ◌+◌, ◌≤◌, ◌≡◌, refl, inl, inr, Option, none, some, String, List, [], ◌∷◌, map,
  length, arith, All, Bool-cases,
}
use p2p_treker.Prelude.Result.{Result, ok, err}
use p2p_treker.Prelude.Sorting.{sorted-All}
use p2p_treker.Decimal.{
  Decimal, d_zero, d_hundred, ◌-D◌, ◌*D◌, ◌≤D◌, ◌<D◌, leb_D, ltb_D, min_D, neg_D, sum_from,
}
use p2p_treker.Decimal.Order.{
  ≤D_trans, sub_nonneg, le_at, at_le, lt_at, at_lt, decimal_laws, at_self, <D_of_≤D_of_<D, at-neg,
  scale-neg,
}
use p2p_treker.Decimal.Key.{
  ≤D_refl, leb_D→≤D, ≤D→leb_D, <D→not-≤D, ltb_D→<D, not-leb_D, <D→≤D, min_D-cases, min_D-le_left,
  min_D-le_right,
}
use p2p_treker.Decimal.Linear.{sub_self-le}
use p2p_treker.Decimal.Product.{mul_nonneg}
use p2p_treker.Decimal.Division.{div_D, div_D_nonneg}
use p2p_treker.Capital.{
  CapitalConfig, ExchangeCapitalStatus, RebalanceSignal, Side, advance, match_sides, over_entry,
  under_entry, over_of, under_of, largest_first, plan,
}
use p2p_treker.Capital.Rebalance.{
  Settles, Planned, Nonneg, Known, append-Planned, advance-Nonneg, advance-Known,
  side_total-advance, length-advance, length-advance_done, amounts-nil,
}
use p2p_treker.Spread.Engine.Pairs.{All-append}

Settles-imp :
    (P Q : List RebalanceSignal → Type 0) (r : Option (Result (List RebalanceSignal)))
    → ((signals : List RebalanceSignal) → P signals → Q signals)
    → Settles P r
    → Settles Q r
Settles-imp P Q none f h = h
Settles-imp P Q (some (err e)) f h = h
Settles-imp P Q (some (ok signals)) f h = f signals h

-- A round uses up one of the two heads.
length_shrinks :
    (s t : ExchangeCapitalStatus) (excess deficit : Decimal) (over under : Side)
    → length (advance s (excess -D min_D excess deficit) over)
        + length (advance t (deficit -D min_D excess deficit) under)
      ≤ length over + length under + 1
length_shrinks s t excess deficit over under = elim (min_D-cases excess deficit) [
  | inl (e, h) ↦ rw e (
      omega (
        arith,
        length-advance s (excess -D deficit) over,
        length-advance_done t (deficit -D deficit) under
            (≤D→leb_D (deficit -D deficit) d_zero (sub_self-le deficit d_zero (≤D_refl d_zero))),
      ))
  | inr (e, h) ↦ rw e (
      omega (
        arith,
        length-advance t (deficit -D excess) under,
        length-advance_done s (excess -D excess) over
            (≤D→leb_D (excess -D excess) d_zero (sub_self-le excess d_zero (≤D_refl d_zero))),
      ))
]

match_sides-Planned :
    (fuel : ℕ) (asset : String) (over under : Side)
    → length over + length under ≤ fuel
    → Nonneg over
    → Nonneg under
    → Known under
    → Settles (Planned over under) (match_sides fuel asset over under)
unfolding match_sides
match_sides-Planned fuel asset [] under p o u k = record {
  positive = tt;
  within_over = amounts-nil [] o;
  within_under = amounts-nil under u;
}
match_sides-Planned fuel asset (x ∷ over) [] p o u k = record {
  positive = tt;
  within_over = amounts-nil (x ∷ over) o;
  within_under = amounts-nil [] u;
}
match_sides-Planned zero asset (x ∷ over) (y ∷ under) p o u k = absurd (omega arith)
match_sides-Planned (suc fuel) asset ((s, excess) ∷ over) ((t, deficit) ∷ under) p o u k =
    let (d, known) = k.0 in
    let left = sub_nonneg (min_D excess deficit) excess (min_D-le_left excess deficit) in
    let right = sub_nonneg (min_D excess deficit) deficit (min_D-le_right excess deficit) in
    append-Planned asset s t excess deficit over under d known
      (match_sides fuel asset (advance s (excess -D min_D excess deficit) over)
        (advance t (deficit -D min_D excess deficit) under))
      o.0 u.0
      (Settles-imp
        (Planned (advance s (excess -D min_D excess deficit) over)
          (advance t (deficit -D min_D excess deficit) under))
        _ _
        (λ signals v. (
          v.positive,
          ≤D_trans _ _ _ v.within_over
              (side_total-advance s (excess -D min_D excess deficit) over left),
          ≤D_trans _ _ _ v.within_under
              (side_total-advance t (deficit -D min_D excess deficit) under right),
        ))
        (match_sides-Planned fuel asset (advance s (excess -D min_D excess deficit) over)
          (advance t (deficit -D min_D excess deficit) under)
          (omega (arith, length_shrinks s t excess deficit over under))
          (advance-Nonneg s (excess -D min_D excess deficit) over left o.1)
          (advance-Nonneg t (deficit -D min_D excess deficit) under right u.1)
          (advance-Known t (deficit -D min_D excess deficit) under k.0 k.1)))

-- The amounts of both sides come from deviations beyond a threshold that is not negative.
hundred_pos : d_zero <D d_hundred
hundred_pos =
    at_lt 0 d_zero d_hundred (omega arith) (omega arith)
      (rw (at_self d_zero, at_self d_hundred) (omega arith))

beyond : (a b c : Decimal) → a ≤D b → b <D c → a ≤D c
beyond a b c p q = <D→≤D a c (<D_of_≤D_of_<D a b c p q)

neg_nonneg :
    (threshold deviation : Decimal)
    → d_zero ≤D threshold
    → deviation <D neg_D threshold
    → d_zero ≤D neg_D deviation
neg_nonneg threshold deviation p q =
    let k = threshold.scale + deviation.scale in
    grind (
      decimal_laws,
      at-neg k threshold,
      at-neg k deviation,
      scale-neg,
      le_at k d_zero threshold,
      lt_at k deviation (neg_D threshold),
      at_le k d_zero (neg_D deviation),
    )

module _ (threshold total : Decimal) (p : d_zero ≤D threshold) (q : d_zero ≤D total) where
  share_nonneg :
      (deviation : Decimal) → d_zero ≤D deviation → d_zero ≤D div_D deviation d_hundred *D total
  share_nonneg deviation h = mul_nonneg _ total (div_D_nonneg deviation d_hundred h hundred_pos) q

  over_entry-Nonneg :
      (s : ExchangeCapitalStatus) (d : Option Decimal) → Nonneg (over_entry threshold total s d)
  unfolding over_entry
  over_entry-Nonneg s none = tt
  over_entry-Nonneg s (some d) = elim (Bool-cases (ltb_D threshold d)) [
    | inl t ↦ rw t (share_nonneg d (beyond d_zero threshold d p (ltb_D→<D threshold d t)), tt)
    | inr f ↦ rw f tt
  ]

  under_entry-Nonneg :
      (s : ExchangeCapitalStatus) (d : Option Decimal)
      → s.deviation_pct ≡ d
      → Nonneg (under_entry threshold total s d) × Known (under_entry threshold total s d)
  unfolding under_entry
  under_entry-Nonneg s none e = (tt, tt)
  under_entry-Nonneg s (some d) e = elim (Bool-cases (ltb_D d (neg_D threshold))) [
    | inl t ↦ rw t (
      (share_nonneg (neg_D d) (neg_nonneg threshold d p (ltb_D→<D d (neg_D threshold) t)), tt),
      ((d, e), tt),
    )
    | inr f ↦ rw f (tt, tt)
  ]

  over_of-Nonneg :
      (statuses : List ExchangeCapitalStatus) → Nonneg (over_of threshold total statuses)
  unfolding over_of
  over_of-Nonneg [] = tt
  over_of-Nonneg (s ∷ statuses) =
      All-append (λ entry. d_zero ≤D entry.1) (over_entry threshold total s s.deviation_pct) _
        (over_entry-Nonneg s s.deviation_pct) (over_of-Nonneg statuses)

  under_of-Nonneg :
      (statuses : List ExchangeCapitalStatus)
      → Nonneg (under_of threshold total statuses) × Known (under_of threshold total statuses)
  unfolding under_of
  under_of-Nonneg [] = (tt, tt)
  under_of-Nonneg (s ∷ statuses) =
      let (a, b) = under_entry-Nonneg s s.deviation_pct refl in
      let (c, d) = under_of-Nonneg statuses in
      (
        All-append (λ entry. d_zero ≤D entry.1) (under_entry threshold total s s.deviation_pct) _ a
            c,
        All-append (λ entry. (d : Decimal) × (entry.0.deviation_pct ≡ some d))
            (under_entry threshold total s s.deviation_pct) _ b d,
      )

largest_first-All :
    (P : ExchangeCapitalStatus × Decimal → Type 0) (side : Side)
    → All P side
    → All P (largest_first side)
unfolding largest_first
largest_first-All P side h = sorted-All (λ p q. leb_D q.1 p.1) P side h

-- What the statuses have over and under their targets, the largest first.
abbrev pub capital_of : List ExchangeCapitalStatus → Decimal
capital_of statuses = sum_from d_zero (map (λ s. s.quote_asset_status.total) statuses)

abbrev pub surplus : CapitalConfig → List ExchangeCapitalStatus → Side
surplus config statuses =
    largest_first (over_of config.rebalance_threshold_pct (capital_of statuses) statuses)

abbrev pub deficit : CapitalConfig → List ExchangeCapitalStatus → Side
deficit config statuses =
    largest_first (under_of config.rebalance_threshold_pct (capital_of statuses) statuses)

-- For a threshold that is not negative and statuses with some capital, the loop of
-- `rebalance_signals` ends, raises nothing, and its signals each move a positive amount and all
-- together no more than the exchanges have over their targets, nor than the others have under
-- theirs. Without capital there is no signal.
pub plan-Planned :
    (config : CapitalConfig) (statuses : List ExchangeCapitalStatus)
    → d_zero ≤D config.rebalance_threshold_pct
    → Settles
        (λ signals.
          (capital_of statuses ≤D d_zero → signals ≡ [])
          × (d_zero <D capital_of statuses
              → Planned (surplus config statuses) (deficit config statuses) signals))
        (plan config statuses)
unfolding plan
plan-Planned config statuses p = elim (Bool-cases (leb_D (capital_of statuses) d_zero)) [
  | inl t ↦ rw t (
    (λ h. refl),
    (λ h.
        absurd
          (<D→not-≤D d_zero (capital_of statuses) h (leb_D→≤D (capital_of statuses) d_zero t))),
  )
  | inr f ↦
      let capital = <D→≤D d_zero (capital_of statuses) (not-leb_D (capital_of statuses) d_zero f) in
      let (u, k) =
        under_of-Nonneg config.rebalance_threshold_pct (capital_of statuses) p capital statuses in
      rw f (
        Settles-imp (Planned (surplus config statuses) (deficit config statuses)) _ _
          (λ signals v. (
            (λ h. absurd (
                <D→not-≤D d_zero (capital_of statuses) (not-leb_D (capital_of statuses) d_zero f)
                  h)),
            (λ h. v),
          ))
          (match_sides-Planned (length (surplus config statuses) + length (deficit config statuses))
            config.quote_asset (surplus config statuses) (deficit config statuses) (omega arith)
            (largest_first-All (λ entry. d_zero ≤D entry.1) _
              (over_of-Nonneg config.rebalance_threshold_pct (capital_of statuses) p capital
                statuses))
            (largest_first-All (λ entry. d_zero ≤D entry.1) _ u)
            (largest_first-All (λ entry. (d : Decimal) × (entry.0.deviation_pct ≡ some d)) _ k)))
]
