-- ===== src/OrderBook/Feed.antt =====
-- A feed of deltas through `apply_delta`: which of them a book that stays synced has applied.
use p2p_treker.Prelude.{
  ℕ, suc, ◌≡◌, refl, ap, ◌∙◌, ◌⊎◌, inl, inr, true, false, some, List, [], ◌∷◌, arith, Bool-cases,
  length, if◌then◌else◌,
}
use p2p_treker.Prelude.Int.{
  ℤ, pos, ◌+ℤ◌, ◌≤ℤ◌, ◌<ℤ◌, +ℤ_parts, leb_ℤ, ltb_ℤ, eqb_ℤ, eq_of_parts, int_laws,
}
use p2p_treker.Prelude.Result.{Result, ok, ◌>>=◌}
use p2p_treker.Decimal.{Decimal}
use p2p_treker.OrderBook.{OrderBook, Side, apply_side, apply_delta}

pub record Delta : Type 0 where
  pub bids : List (Decimal × Decimal)
  pub asks : List (Decimal × Decimal)
  pub sequence : ℤ

unfoldable pub apply_all : OrderBook → List Delta → Result OrderBook
apply_all b [] = ok b
apply_all b (d ∷ ds) = apply_delta b d.bids d.asks d.sequence >>= λ r. apply_all r.0 ds

-- The specification: the deltas that carry the next number each time.
pub next_deltas : ℤ → List Delta → List Delta
next_deltas n [] = []
next_deltas n (d ∷ ds) =
    let taken = d ∷ next_deltas d.sequence ds in
    let skipped = next_deltas n ds in if eqb_ℤ d.sequence (n +ℤ pos 1) then taken else skipped

pub replay : (Delta → List (Decimal × Decimal)) → Side → List Delta → Side
replay side store [] = store
replay side store (d ∷ ds) = replay side (apply_side store (side d)) ds

module _ (b : OrderBook) (d : Delta) where
  apply_delta-unsynced : b.synced ≡ false → apply_delta b d.bids d.asks d.sequence ≡ ok (b, false)
  unfolding apply_delta
  apply_delta-unsynced h = ground arith

  module _ (n : ℤ) (synced : b.synced ≡ true) (current : b.sequence ≡ some n) where
    apply_delta-stale : d.sequence ≤ℤ n → apply_delta b d.bids d.asks d.sequence ≡ ok (b, true)
    unfolding apply_delta
    apply_delta-stale h = ground arith

    apply_delta-gap :
        n +ℤ pos 1 <ℤ d.sequence
        → apply_delta b d.bids d.asks d.sequence ≡ ok (record b { synced = false }, false)
    unfolding apply_delta
    apply_delta-gap h = ground (arith, +ℤ_parts n (pos 1))

    apply_delta-next :
        d.sequence ≡ n +ℤ pos 1
        → apply_delta b d.bids d.asks d.sequence
          ≡ ok (
            record b {
              bids = apply_side b.bids d.bids;
              asks = apply_side b.asks d.asks;
              sequence = some d.sequence;
            },
            true,
          )
    unfolding apply_delta
    apply_delta-next h = ground (arith, +ℤ_parts n (pos 1))

-- A book out of sync takes no delta until the next snapshot.
pub apply_all-unsynced :
    (b : OrderBook) (ds : List Delta) → b.synced ≡ false → apply_all b ds ≡ ok b
unfolding apply_all
apply_all-unsynced b [] h = refl
apply_all-unsynced b (d ∷ ds) h = rw (apply_delta-unsynced b d h) (apply_all-unsynced b ds h)

-- The book `c` is `b`, at the number `n`, after the deltas `ks` in order.
pub record Applied (b : OrderBook) (n : ℤ) (ks : List Delta) (c : OrderBook) : Type 0 where
  pub bids : c.bids ≡ replay (λ d. d.bids) b.bids ks
  pub asks : c.asks ≡ replay (λ d. d.asks) b.asks ks
  pub sequence : c.sequence ≡ some (n +ℤ pos (length ks))

sequence-cases : (n s : ℤ) → (s ≤ℤ n) ⊎ (n +ℤ pos 1 <ℤ s) ⊎ (s ≡ n +ℤ pos 1)
sequence-cases n s = elim (Bool-cases (leb_ℤ s n)) [
  | inl stale ↦ inl (ground arith)
  | inr later ↦ inr (elim (Bool-cases (ltb_ℤ (n +ℤ pos 1) s)) [
    | inl gap ↦ inl (ground arith)
    | inr next ↦ inr (eq_of_parts s _ (ground (arith, +ℤ_parts n (pos 1))))
  ])
]

next_deltas-nil : (n : ℤ) → next_deltas n [] ≡ []
unfolding next_deltas
next_deltas-nil n = refl

next_deltas-skip :
    (n : ℤ) (d : Delta) (ds : List Delta)
    → d.sequence ≤ℤ n
    → next_deltas n (d ∷ ds) ≡ next_deltas n ds
unfolding next_deltas
next_deltas-skip n d ds h = ground (arith, +ℤ_parts n (pos 1))

next_deltas-take :
    (n : ℤ) (d : Delta) (ds : List Delta)
    → d.sequence ≡ n +ℤ pos 1
    → next_deltas n (d ∷ ds) ≡ d ∷ next_deltas d.sequence ds
unfolding next_deltas
next_deltas-take n d ds h = ground arith

pos-suc : (n : ℤ) (k : ℕ) → n +ℤ pos 1 +ℤ pos k ≡ n +ℤ pos (suc k)
pos-suc n k = omega int_laws

Applied-refl : (b : OrderBook) (n : ℤ) → b.sequence ≡ some n → Applied b n [] b
unfolding replay
Applied-refl b n e = record {
  bids = refl;
  asks = refl;
  sequence = let stay : n ≡ n +ℤ pos 0 = omega int_laws in cc;
}

abbrev after : OrderBook → Delta → OrderBook
after b d = record b {
  bids = apply_side b.bids d.bids;
  asks = apply_side b.asks d.asks;
  sequence = some d.sequence;
}

Applied-cons :
    (b c : OrderBook) (n : ℤ) (d : Delta) (ks : List Delta)
    → d.sequence ≡ n +ℤ pos 1
    → Applied (after b d) d.sequence ks c
    → Applied b n (d ∷ ks) c
unfolding replay
Applied-cons b c n d ks e a = record {
  bids = a.bids;
  asks = a.asks;
  sequence = a.sequence ∙ ap some (ap (λ (m : ℤ). m +ℤ pos (length ks)) e ∙ pos-suc n (length ks));
}

-- A synced book with a sequence that is still synced after a feed, which raised nothing, has
-- applied exactly the deltas that continue its sequence one by one, in order, and stands at the
-- number of the last of them.
pub feed_replays :
    (n : ℤ) (b c : OrderBook) (ds : List Delta)
    → b.synced ≡ true
    → b.sequence ≡ some n
    → apply_all b ds ≡ ok c
    → c.synced ≡ true
    → Applied b n (next_deltas n ds) c
unfolding apply_all
feed_replays n b c [] s e r t =
    let same : b ≡ c = cc in rw (← same) (rw (next_deltas-nil n) (Applied-refl b n e))
feed_replays n b c (d ∷ ds) s e r t = elim (sequence-cases n d.sequence) [
  | inl stale ↦
      rw (next_deltas-skip n d ds stale)
        (feed_replays n b c ds s e (rw (apply_delta-stale b d n s e stale) at r) t)
  | inr (inl gap) ↦
      let frozen = rw (apply_delta-gap b d n s e gap) at r in
      let same = apply_all-unsynced (record b { synced = false }) ds refl in cc
  | inr (inr next) ↦ rw (next_deltas-take n d ds next) (
      Applied-cons b c n d (next_deltas d.sequence ds) next (
        feed_replays d.sequence (after b d) c ds s refl (rw (apply_delta-next b d n s e next) at r)
          t))
]
