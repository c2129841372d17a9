-- ===== src/Spread/Events/Bounds.antt =====
-- What an event has recorded: its maximum and its sum against the threshold.
use p2p_treker.Prelude.{
  ℕ, ◌+◌, ◌≤◌, ◌≡◌, refl, inl, inr, true, Option, none, some, List, [], ◌∷◌, arith, All, Bool-cases,
}
use p2p_treker.Prelude.Int.{ℤ, pos}
use p2p_treker.Prelude.Dict.{lookup, erase, insert-All, lookup-All}
use p2p_treker.Decimal.{Decimal, of_int, ◌+D◌, ◌*D◌, ◌≤D◌, ltb_D}
use p2p_treker.Decimal.Order.{≤D_trans, add_mono}
use p2p_treker.Decimal.Key.{≤D_refl, ≈_symm, leb_D→≤D, ltb_D→<D, not-ltb_D, <D→≤D}
use p2p_treker.Decimal.Linear.{≈→≤D}
use p2p_treker.Decimal.Product.{mul_mono_right, mul_comm_D}
use p2p_treker.Decimal.Floor.{of_int-suc, of_int-one, of_int_nonneg}
use p2p_treker.Spread.Engine.{SpreadRow}
use p2p_treker.Spread.Engine.Pairs.{All-append}
use p2p_treker.Spread.Events.{
  direction_key, OpenEvent, OpenEvents, ClosedEvent, new_event, counted, update, close, row_key,
  net_of, active, process_event, process_row, process_rows, seen, keep_seen, close_unseen, process,
}

-- `n` samples of the value `d`.
abbrev pub times : ℕ → Decimal → Decimal
times n d = of_int (pos n) *D d

-- Each of the samples lies between the threshold and the maximum.
pub record IsEvent (threshold : Decimal) (e : OpenEvent) : Type 0 where
  pub sampled : 1 ≤ e.samples
  pub start_over : threshold ≤D e.start_net_spread
  pub max_over : e.start_net_spread ≤D e.max_net_spread
  pub sum_over : times e.samples threshold ≤D e.spread_sum
  pub sum_under : e.spread_sum ≤D times e.samples e.max_net_spread

new_event-IsEvent :
    (threshold : Decimal) (row : SpreadRow) (net : Decimal) (now_ms : ℤ)
    → threshold ≤D net
    → IsEvent threshold (new_event row net now_ms)
unfolding new_event
new_event-IsEvent threshold row net now_ms h = record {
  sampled = omega arith;
  start_over = h;
  max_over = ≤D_refl net;
  sum_over = ≤D_trans _ _ _ (≈→≤D _ _ (of_int-one threshold)) h;
  sum_under = ≈→≤D _ _ (≈_symm _ _ (of_int-one net));
}

-- One more sample between two bounds.
sum_step_over :
    (n : ℕ) (t s net : Decimal) → times n t ≤D s → t ≤D net → times (n + 1) t ≤D s +D net
sum_step_over n t s net h k =
    ≤D_trans _ _ _ (≈→≤D _ _ (of_int-suc n t)) (add_mono (times n t) s t net h k)

sum_step_under :
    (n : ℕ) (m s net : Decimal) → s ≤D times n m → net ≤D m → s +D net ≤D times (n + 1) m
sum_step_under n m s net h k =
    ≤D_trans _ _ _ (add_mono s (times n m) net m h k) (≈→≤D _ _ (≈_symm _ _ (of_int-suc n m)))

times_mono : (n : ℕ) (a b : Decimal) → a ≤D b → times n a ≤D times n b
times_mono n a b h =
    rw (mul_comm_D (of_int (pos n)) a, mul_comm_D (of_int (pos n)) b)
      (mul_mono_right a b (of_int (pos n)) (of_int_nonneg n) h)

update-IsEvent :
    (threshold : Decimal) (e : OpenEvent) (net : Decimal) (row : SpreadRow)
    → threshold ≤D net
    → IsEvent threshold e
    → IsEvent threshold (update e net row)
unfolding update counted
update-IsEvent threshold e net row h v = elim (Bool-cases (ltb_D e.max_net_spread net)) [
  | inl t ↦
      let below = <D→≤D _ _ (ltb_D→<D e.max_net_spread net t) in
      rw t (record {
        sampled = omega arith;
        start_over = v.start_over;
        max_over = ≤D_trans _ _ _ v.max_over below;
        sum_over = sum_step_over e.samples threshold e.spread_sum net v.sum_over h;
        sum_under =
            sum_step_under e.samples net e.spread_sum net
              (≤D_trans _ _ _ v.sum_under (times_mono e.samples e.max_net_spread net below))
              (≤D_refl net);
      })
  | inr f ↦ rw f (record {
    sampled = omega arith;
    start_over = v.start_over;
    max_over = v.max_over;
    sum_over = sum_step_over e.samples threshold e.spread_sum net v.sum_over h;
    sum_under =
        sum_step_under e.samples e.max_net_spread e.spread_sum net v.sum_under
          (not-ltb_D e.max_net_spread net f);
  })
]

-- Of all open events, and of closed ones.
abbrev pub AllOpen : Decimal → OpenEvents → Type 0
AllOpen threshold = All (λ entry. IsEvent threshold entry.1)

abbrev pub AllClosed : Decimal → List ClosedEvent → Type 0
AllClosed threshold = All (λ c. IsEvent threshold c.event)

active-le :
    (threshold : Decimal) (row : SpreadRow) → active threshold row ≡ true → threshold ≤D net_of row
unfolding active
active-le threshold row h = leb_D→≤D threshold (net_of row) (ground arith)

erase-AllOpen :
    (threshold : Decimal) (o : OpenEvents) (row : SpreadRow)
    → AllOpen threshold o
    → AllOpen threshold (erase (row_key row) o)
erase-AllOpen threshold [] row h = tt
erase-AllOpen threshold ((k, e) ∷ o) row h = elim (Bool-cases (direction_key.beq k (row_key row))) [
  | inl t ↦ rw t h.1
  | inr f ↦ rw f (h.0, erase-AllOpen threshold o row h.1)
]

abbrev Bounded : Decimal → OpenEvents × List ClosedEvent → Type 0
Bounded threshold (o, c) = AllOpen threshold o × AllClosed threshold c

module _ (threshold : Decimal) (now_ms : ℤ) where
  process_event-Bounded :
      (o : OpenEvents) (row : SpreadRow) (event : Option OpenEvent)
      → AllOpen threshold o
      → lookup (row_key row) o ≡ event
      → Bounded threshold (process_event threshold now_ms o row event)
  unfolding process_event close
  process_event-Bounded o row none h q = elim (Bool-cases (active threshold row)) [
    | inl t ↦ rw t (
      insert-All (IsEvent threshold) (row_key row) _ o
          (new_event-IsEvent threshold row (net_of row) now_ms (active-le threshold row t)) h,
      tt,
    )
    | inr f ↦ rw f (h, tt)
  ]
  process_event-Bounded o row (some event) h q =
      let v = lookup-All (IsEvent threshold) (row_key row) o h event q in
      elim (Bool-cases (active threshold row)) [
        | inl t ↦ rw t (
          insert-All (IsEvent threshold) (row_key row) _ o
              (update-IsEvent threshold event (net_of row) row (active-le threshold row t) v) h,
          tt,
        )
        | inr f ↦ rw f (erase-AllOpen threshold o row h, (v, tt))
      ]

  process_rows-Bounded :
      (o : OpenEvents) (rows : List SpreadRow)
      → AllOpen threshold o
      → Bounded threshold (process_rows threshold now_ms o rows)
  unfolding process_rows process_row
  process_rows-Bounded o [] h = (h, tt)
  process_rows-Bounded o (row ∷ rows) h =
      let (h', c) = process_event-Bounded o row (lookup (row_key row) o) h refl in
      let (h'', c') = process_rows-Bounded (process_row threshold now_ms o row).0 rows h' in
      (
        h'',
        All-append (λ c. IsEvent threshold c.event) (process_row threshold now_ms o row).1 _ c c',
      )

  filter-AllOpen :
      (rows : List SpreadRow) (o : OpenEvents)
      → AllOpen threshold o
      → AllOpen threshold (keep_seen rows o)
  unfolding keep_seen
  filter-AllOpen rows [] h = tt
  filter-AllOpen rows ((k, e) ∷ o) h = elim (Bool-cases (seen k rows)) [
    | inl t ↦ rw t (h.0, filter-AllOpen rows o h.1)
    | inr f ↦ rw f (filter-AllOpen rows o h.1)
  ]

  close_unseen-AllClosed :
      (rows : List SpreadRow) (o : OpenEvents)
      → AllOpen threshold o
      → AllClosed threshold (close_unseen threshold now_ms rows o)
  unfolding close_unseen close
  close_unseen-AllClosed rows [] h = tt
  close_unseen-AllClosed rows ((k, e) ∷ o) h = elim (Bool-cases (seen k rows)) [
    | inl t ↦ rw t (close_unseen-AllClosed rows o h.1)
    | inr f ↦ rw f (h.0, close_unseen-AllClosed rows o h.1)
  ]

  -- `process` keeps, and closes only, events of at least one sample whose start is at least the
  -- threshold and at most the maximum, and whose sum of n samples lies between n times the
  -- threshold and n times the maximum.
  pub process-Bounded :
      (o : OpenEvents) (rows : List SpreadRow)
      → AllOpen threshold o
      → AllOpen threshold (process threshold o rows now_ms).0
        × AllClosed threshold (process threshold o rows now_ms).1
  unfolding process
  process-Bounded o rows h =
      let (h', c) = process_rows-Bounded o rows h in
      (
        filter-AllOpen rows (process_rows threshold now_ms o rows).0 h',
        All-append (λ c. IsEvent threshold c.event) (process_rows threshold now_ms o rows).1 _ c
            (close_unseen-AllClosed rows (process_rows threshold now_ms o rows).0 h'),
      )
