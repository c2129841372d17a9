-- ===== src/Spread/Events/Tracking.antt =====
-- Which event each direction has after `process`.
use p2p_treker.Prelude.{
  ◌≡◌, refl, ap, ◌∙◌, inl, inr, true, Option, none, some, List, [], ◌∷◌, arith, Bool-cases,
  if◌then◌else◌,
}
use p2p_treker.Prelude.Int.{ℤ}
use p2p_treker.Prelude.Dict.{
  lookup, Distinct, lookup-insert, lookup-erase, lookup-filter, lookup_congr, insert-Distinct,
  erase-Distinct,
}
use p2p_treker.Decimal.{Decimal}
use p2p_treker.Spread.Engine.{SpreadRow}
use p2p_treker.Spread.Events.{
  DirectionKey, direction_key, OpenEvent, OpenEvents, new_event, update, row_key, net_of, active,
  process_event, process_row, process_rows, seen, keep_seen, process,
}

seen_congr :
    (j k : DirectionKey) (rows : List SpreadRow)
    → direction_key.beq j k ≡ true
    → seen j rows ≡ seen k rows
unfolding seen
seen_congr j k [] h = refl
seen_congr j k (row ∷ rows) h = ground (
  arith,
  seen_congr j k rows,
  direction_key.beq_trans (row_key row) j k,
  direction_key.beq_trans (row_key row) k j,
  direction_key.beq_symm j k,
)

module _ (threshold : Decimal) (now_ms : ℤ) where
  -- What one row makes of the event of its direction.
  pub after_row : SpreadRow → Option OpenEvent → Option OpenEvent
  unfolding new_event update net_of active
  after_row row none =
      if active threshold row then some (new_event row (net_of row) now_ms) else none
  after_row row (some event) =
      if active threshold row then some (update event (net_of row) row) else none

  -- What the rows of a direction make of its event, in order.
  pub after_rows : DirectionKey → List SpreadRow → Option OpenEvent → Option OpenEvent
  unfolding after_row
  after_rows key [] event = event
  after_rows key (row ∷ rows) event =
      after_rows key rows
        (if direction_key.beq (row_key row) key then after_row row event else event)

  process_event-Distinct :
      (o : OpenEvents) (row : SpreadRow) (event : Option OpenEvent)
      → Distinct o
      → Distinct (process_event threshold now_ms o row event).0
  unfolding process_event
  process_event-Distinct o row none d = elim (Bool-cases (active threshold row)) [
    | inl t ↦ rw t (insert-Distinct (row_key row) _ o d)
    | inr f ↦ rw f d
  ]
  process_event-Distinct o row (some event) d = elim (Bool-cases (active threshold row)) [
    | inl t ↦ rw t (insert-Distinct (row_key row) _ o d)
    | inr f ↦ rw f (erase-Distinct (row_key row) o d)
  ]

  pub process_row-Distinct :
      (o : OpenEvents) (row : SpreadRow)
      → Distinct o
      → Distinct (process_row threshold now_ms o row).0
  unfolding process_row
  process_row-Distinct o row d = process_event-Distinct o row (lookup (row_key row) o) d

  lookup-process_event :
      (key : DirectionKey) (o : OpenEvents) (row : SpreadRow) (event : Option OpenEvent)
      → Distinct o
      → lookup (row_key row) o ≡ event
      → lookup key (process_event threshold now_ms o row event).0
        ≡ (if direction_key.beq (row_key row) key then after_row row event else lookup key o)
  unfolding process_event after_row
  lookup-process_event key o row none d e = elim (Bool-cases (active threshold row)) [
    | inl t ↦ rw t (lookup-insert (row_key row) key _ o)
    | inr f ↦ rw f (ground (arith, lookup_congr (row_key row) key o))
  ]
  lookup-process_event key o row (some event) d e = elim (Bool-cases (active threshold row)) [
    | inl t ↦ rw t (lookup-insert (row_key row) key _ o)
    | inr f ↦ rw f (lookup-erase (row_key row) key o d)
  ]

  lookup-process_row :
      (key : DirectionKey) (o : OpenEvents) (row : SpreadRow)
      → Distinct o
      → lookup key (process_row threshold now_ms o row).0 ≡ (
          if direction_key.beq (row_key row) key
          then after_row row (lookup key o)
          else lookup key o)
  unfolding process_row
  lookup-process_row key o row d =
      lookup-process_event key o row (lookup (row_key row) o) d refl ∙ same_event
    where
      same_event :
          (if direction_key.beq (row_key row) key
            then after_row row (lookup (row_key row) o)
            else lookup key o)
          ≡ (if direction_key.beq (row_key row) key
              then after_row row (lookup key o)
              else lookup key o)
      same_event = elim (Bool-cases (direction_key.beq (row_key row) key)) [
        | inl t ↦ rw (t, lookup_congr (row_key row) key o t) refl
        | inr f ↦ rw f refl
      ]

  pub process_rows-Distinct :
      (o : OpenEvents) (rows : List SpreadRow)
      → Distinct o
      → Distinct (process_rows threshold now_ms o rows).0
  unfolding process_rows
  process_rows-Distinct o [] d = d
  process_rows-Distinct o (row ∷ rows) d =
      process_rows-Distinct (process_row threshold now_ms o row).0 rows
        (process_row-Distinct o row d)

  lookup-process_rows :
      (key : DirectionKey) (o : OpenEvents) (rows : List SpreadRow)
      → Distinct o
      → lookup key (process_rows threshold now_ms o rows).0 ≡ after_rows key rows (lookup key o)
  unfolding process_rows after_rows
  lookup-process_rows key o [] d = refl
  lookup-process_rows key o (row ∷ rows) d =
      lookup-process_rows key (process_row threshold now_ms o row).0 rows
        (process_row-Distinct o row d)
      ∙ ap (after_rows key rows) (lookup-process_row key o row d)

-- After `process` a direction of the table has the event that its rows make of the one it had,
-- and a direction that has left the table has none.
pub lookup-process :
    (threshold : Decimal) (o : OpenEvents) (rows : List SpreadRow) (now_ms : ℤ) (key : DirectionKey)
    → Distinct o
    → lookup key (process threshold o rows now_ms).0
      ≡ (if seen key rows then after_rows threshold now_ms key rows (lookup key o) else none)
unfolding process keep_seen
lookup-process threshold o rows now_ms key d =
    lookup-filter (λ k. seen k rows) key (process_rows threshold now_ms o rows).0
      (λ j k h. seen_congr j k rows h) (process_rows-Distinct threshold now_ms o rows d)
    ∙ ap (λ (e : Option OpenEvent). if seen key rows then e else none)
        (lookup-process_rows threshold now_ms key o rows d)
