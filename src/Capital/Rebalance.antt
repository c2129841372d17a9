-- ===== src/Capital/Rebalance.antt =====
-- The loop of `rebalance_signals` ends, raises nothing, and moves no more than there is.
use p2p_treker.Prelude.{
  ◌+◌, ◌≤◌, ◌≡◌, refl, inl, inr, true, Option, none, some, String, List, [], ◌∷◌, length, arith,
  All, Bool-cases,
}
use p2p_treker.Prelude.Result.{Result, ok, err}
use p2p_treker.Decimal.{Decimal, d_zero, ◌+D◌, ◌-D◌, ◌≤D◌, ◌<D◌, leb_D, ltb_D, min_D}
use p2p_treker.Decimal.Order.{le_at, at_le, decimal_laws}
use p2p_treker.Decimal.Key.{≤D_refl, ltb_D→<D, min_D-cases}
use p2p_treker.Decimal.Linear.{add_nonneg}
use p2p_treker.Capital.{
  ExchangeCapitalStatus, RebalanceSignal, Side, signal_of, signals_of, advance, append_later,
}

-- The loop has ended without an exception, with signals that meet the predicate.
abbrev pub Settles :
    (List RebalanceSignal → Type 0) → Option (Result (List RebalanceSignal)) → Type 0
Settles P none = ⊥
Settles P (some (err e)) = ⊥
Settles P (some (ok signals)) = P signals

pub amounts : List RebalanceSignal → Decimal
amounts [] = d_zero
amounts (s ∷ signals) = s.amount +D amounts signals

pub side_total : Side → Decimal
side_total [] = d_zero
side_total ((s, amount) ∷ side) = amount +D side_total side

-- Each signal moves something, and all of them together no more than either side has.
pub record Planned (over under : Side) (signals : List RebalanceSignal) : Type 0 where
  pub positive : All (λ s. d_zero <D s.amount) signals
  pub within_over : amounts signals ≤D side_total over
  pub within_under : amounts signals ≤D side_total under

abbrev pub Nonneg : Side → Type 0
Nonneg = All (λ entry. d_zero ≤D entry.1)

-- The deviation of a status that is under its target is known.
abbrev pub Known : Side → Type 0
Known = All (λ entry. (d : Decimal) × (entry.0.deviation_pct ≡ some d))

pub side_total_nonneg : (side : Side) → Nonneg side → d_zero ≤D side_total side
unfolding side_total
side_total_nonneg [] h = ≤D_refl d_zero
side_total_nonneg ((s, a) ∷ side) h =
    add_nonneg a (side_total side) h.0 (side_total_nonneg side h.1)

pub amounts-nil : (side : Side) → Nonneg side → amounts [] ≤D side_total side
unfolding amounts
amounts-nil side h = side_total_nonneg side h

module _ (s : ExchangeCapitalStatus) (left : Decimal) (rest : Side) where
  pub advance-Nonneg : d_zero ≤D left → Nonneg rest → Nonneg (advance s left rest)
  unfolding advance
  advance-Nonneg p h = elim (Bool-cases (leb_D left d_zero)) [
    | inl t ↦ rw t h
    | inr f ↦ rw f (p, h)
  ]

  pub advance-Known :
      (d : Decimal) × (s.deviation_pct ≡ some d) → Known rest → Known (advance s left rest)
  unfolding advance
  advance-Known k h = elim (Bool-cases (leb_D left d_zero)) [ inl t ↦ rw t h | inr f ↦ rw f (k, h) ]

  zero_add-le : d_zero ≤D left → side_total rest ≤D left +D side_total rest
  zero_add-le p =
      let k = left.scale + (side_total rest).scale in
      grind (decimal_laws, le_at k d_zero left, at_le k (side_total rest) (left +D side_total rest))

  pub side_total-advance :
      d_zero ≤D left → side_total (advance s left rest) ≤D left +D side_total rest
  unfolding advance side_total
  side_total-advance p = elim (Bool-cases (leb_D left d_zero)) [
    | inl t ↦ rw t (zero_add-le p)
    | inr f ↦ rw f (≤D_refl _)
  ]

  pub length-advance : length (advance s left rest) ≤ length rest + 1
  unfolding advance
  length-advance = elim (Bool-cases (leb_D left d_zero)) [
    | inl t ↦ rw t (omega arith)
    | inr f ↦ rw f (omega arith)
  ]

  pub length-advance_done : leb_D left d_zero ≡ true → length (advance s left rest) ≡ length rest
  unfolding advance
  length-advance_done h = rw h refl

-- What is moved from one side: the amount of a round, and later no more than what it left.
spent :
    (have amount later rest : Decimal)
    → later ≤D (have -D amount) +D rest
    → amount +D later ≤D have +D rest
spent have amount later rest h =
    let k = have.scale + amount.scale + later.scale + rest.scale in
    grind (
      decimal_laws,
      le_at k later ((have -D amount) +D rest),
      at_le k (amount +D later) (have +D rest),
    )

unspent :
    (have amount later rest : Decimal)
    → d_zero ≤D amount
    → later ≤D (have -D amount) +D rest
    → later ≤D have +D rest
unspent have amount later rest p h =
    let k = have.scale + amount.scale + later.scale + rest.scale in
    grind (
      decimal_laws,
      le_at k d_zero amount,
      le_at k later ((have -D amount) +D rest),
      at_le k later (have +D rest),
    )

-- One round before the later ones.
module _ (asset : String) (s t : ExchangeCapitalStatus) (excess deficit : Decimal)
    (over under : Side) (d : Decimal) (known : t.deviation_pct ≡ some d) where
  pub append-Planned :
      (later : Option (Result (List RebalanceSignal)))
      → d_zero ≤D excess
      → d_zero ≤D deficit
      → Settles
          (λ signals.
            All (λ s. d_zero <D s.amount) signals
            × (amounts signals ≤D (excess -D min_D excess deficit) +D side_total over)
            × (amounts signals ≤D (deficit -D min_D excess deficit) +D side_total under))
          later
      → Settles
          (Planned ((s, excess) ∷ over) ((t, deficit) ∷ under))
          (append_later (signals_of asset s t (min_D excess deficit)) later)
  unfolding append_later signals_of signal_of amounts side_total
  append-Planned none p q h = h
  append-Planned (some (err e)) p q h = absurd h
  append-Planned (some (ok signals)) p q h =
      elim (Bool-cases (ltb_D d_zero (min_D excess deficit))) [
        | inl moves ↦
            rw (moves, known)
              (record {
                positive = (ltb_D→<D d_zero (min_D excess deficit) moves, h.0);
                within_over =
                    spent excess (min_D excess deficit) (amounts signals) (side_total over) h.1;
                within_under =
                    spent deficit (min_D excess deficit) (amounts signals) (side_total under) h.2;
              })
        | inr none_moves ↦ rw none_moves (record {
          positive = h.0;
          within_over =
              unspent excess (min_D excess deficit) (amounts signals) (side_total over)
                (min_nonneg p q) h.1;
          within_under =
              unspent deficit (min_D excess deficit) (amounts signals) (side_total under)
                (min_nonneg p q) h.2;
        })
      ]
    where
      min_nonneg : d_zero ≤D excess → d_zero ≤D deficit → d_zero ≤D min_D excess deficit
      min_nonneg p q = elim (min_D-cases excess deficit) [
        | inl (e, h) ↦ rw e q
        | inr (e, h) ↦ rw e p
      ]
