-- ===== src/OrderBook/Invariant.antt =====
-- The invariant of a book, kept by snapshots and deltas, under which no call raises.
use p2p_treker.Prelude.{◌≡◌, refl, inl, inr, Bool, true, some, List, [], ◌∷◌, All, Bool-cases}
use p2p_treker.Prelude.Int.{ℤ, pos, ◌+ℤ◌, leb_ℤ, ltb_ℤ}
use p2p_treker.Prelude.Result.{Result, ok, err, ◌>>=◌, Returns}
use p2p_treker.Decimal.{Decimal}
use p2p_treker.OrderBook.{OrderBook, empty_book, apply_snapshot, apply_delta, in_sequence}
use p2p_treker.OrderBook.Sides.{IsSide, NonNegative, apply_side-IsSide, snapshot_side-IsSide}
use p2p_treker.OrderBook.Feed.{Delta, apply_all}

-- Prices stand once and quantities are positive; a synced book has a sequence, so the `assert`
-- of `apply_delta` does not fail.
pub record IsValid (b : OrderBook) : Type 0 where
  pub bids : IsSide b.bids
  pub asks : IsSide b.asks
  pub tracked : b.synced ≡ true → (n : ℤ) × (b.sequence ≡ some n)

pub empty_book-IsValid : IsValid empty_book
unfolding empty_book
empty_book-IsValid = record {
  bids = record { distinct = tt; positive = tt };
  asks = record { distinct = tt; positive = tt };
  tracked = λ h. cc;
}

pub apply_snapshot-IsValid :
    (b : OrderBook) (bids asks : List (Decimal × Decimal)) (n : ℤ)
    → IsValid (apply_snapshot b bids asks n)
unfolding apply_snapshot
apply_snapshot-IsValid b bids asks n = record {
  bids = snapshot_side-IsSide bids;
  asks = snapshot_side-IsSide asks;
  tracked = λ h. (n, refl);
}

in_sequence-IsValid :
    (b : OrderBook) (d : Delta) (n : ℤ)
    → NonNegative d.bids
    → NonNegative d.asks
    → IsValid b
    → IsValid (in_sequence b d.bids d.asks d.sequence n).0
unfolding in_sequence
in_sequence-IsValid b d n p q v = elim (Bool-cases (leb_ℤ d.sequence n)) [
  | inl stale ↦ rw stale v
  | inr later ↦ rw later (elim (Bool-cases (ltb_ℤ (n +ℤ pos 1) d.sequence)) [
    | inl gap ↦ rw gap (record { bids = v.bids; asks = v.asks; tracked = λ h. cc })
    | inr next ↦ rw next (record {
      bids = apply_side-IsSide b.bids d.bids p v.bids;
      asks = apply_side-IsSide b.asks d.asks q v.asks;
      tracked = λ h. (d.sequence, refl);
    })
  ])
]

pub apply_delta-Returns :
    (b : OrderBook) (d : Delta)
    → NonNegative d.bids
    → NonNegative d.asks
    → IsValid b
    → Returns (λ r. IsValid r.0) (apply_delta b d.bids d.asks d.sequence)
unfolding apply_delta
apply_delta-Returns b d p q v = elim (Bool-cases b.synced) [
  | inl s ↦ let (n, e) = v.tracked s in rw (s, e) (in_sequence-IsValid b d n p q v)
  | inr u ↦ simp u v
]

abbrev pub Messages : List Delta → Type 0
Messages = All (λ d. NonNegative d.bids × NonNegative d.asks)

-- Any feed of non-negative quantities runs to its end: no exception leaves `apply_delta`, and the
-- book that it leaves holds each price once, with a positive quantity.
pub apply_all-Returns :
    (b : OrderBook) (ds : List Delta) → Messages ds → IsValid b → Returns IsValid (apply_all b ds)
unfolding apply_all
apply_all-Returns b [] m v = v
apply_all-Returns b (d ∷ ds) m v =
    then_returns (apply_delta b d.bids d.asks d.sequence) (apply_delta-Returns b d m.0.0 m.0.1 v)
      λ r. apply_all-Returns r.0 ds m.1
  where
    then_returns :
        (m : Result (OrderBook × Bool))
        → Returns (λ r. IsValid r.0) m
        → ((r : OrderBook × Bool) → IsValid r.0 → Returns IsValid (apply_all r.0 ds))
        → Returns IsValid (m >>= λ r. apply_all r.0 ds)
    then_returns (ok r) h k = k r h
    then_returns (err e) h k = h
