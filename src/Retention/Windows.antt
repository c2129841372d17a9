-- ===== src/Retention/Windows.antt =====
-- Runs of the downsampler at different times (backend/app/services/downsampler.py).
use p2p_treker.Prelude.{
  ℕ, ◌<◌, ◌≡◌, refl, sym, subst, ap, ◌∙◌, Bool, true, false, ◌&&◌, Bool-cases, inl, inr, Option,
  none, some, List, [], ◌∷◌, filter, All, All-imp, arith,
}
use p2p_treker.Prelude.Int.{
  ℤ, pos, ◌+ℤ◌, ◌-ℤ◌, ◌*ℤ◌, ◌≤ℤ◌, ◌<ℤ◌, eqb_ℤ, eq_of_parts, negsuc, +ℤ_parts, leb_ℤ, ltb_ℤ,
}
use p2p_treker.Prelude.Dict.{string_key, Dict, lookup, pair_key}
use p2p_treker.Decimal.{Decimal}
use p2p_treker.Retention.Days.{floor_div, floor_div-IsFloor, floor_unique}
use p2p_treker.Retention.Downsampler.{
  div_trunc, int_key, int_refl, StoredQuote, Bucket, BucketKey, bucket_key, in_window, in_bucket,
  aggregate, on_conflict, run_level, run_at, safety_margin_ms,
}
use p2p_treker.Retention.Summary.{Row, merged-Row}
use p2p_treker.Retention.Buckets.{merged, lookup-run_level, not_both}

-- Tests one after the other.
module _ {A : Type 0} (p q : A → Bool) where
  filter_absorb :
      (xs : List A) → All (λ x. p x ≡ true → q x ≡ true) xs → filter p (filter q xs) ≡ filter p xs
  filter_absorb [] h = refl
  filter_absorb (x ∷ xs) h = elim (Bool-cases (q x)) [
    | inl e ↦ rw (e, filter_absorb xs h.1) refl
    | inr e ↦ elim (Bool-cases (p x)) [
      | inl f ↦ absurd (not_both (q x) false (h.0 f) (rw e refl))
      | inr f ↦ rw (e, f, filter_absorb xs h.1) refl
    ]
  ]

  filter_none : (xs : List A) → All (λ x. p x ≡ true → q x ≡ false) xs → filter p (filter q xs) ≡ []
  filter_none [] h = refl
  filter_none (x ∷ xs) h = elim (Bool-cases (q x)) [
    | inl e ↦ elim (Bool-cases (p x)) [
      | inl f ↦ absurd (not_both (q x) false e (rw (h.0 f) refl))
      | inr f ↦ rw (e, f, filter_none xs h.1) refl
    ]
    | inr e ↦ rw (e, filter_none xs h.1) refl
  ]

and_left : (a b : Bool) → (a && b) ≡ true → a ≡ true
and_left a b h = ground arith

trunc_floor : (t : ℤ) (k : ℕ) → pos 0 ≤ℤ t → div_trunc t k ≡ floor_div t k
unfolding div_trunc floor_div
trunc_floor (pos n) k h = refl
trunc_floor (negsuc n) k h = absurd (omega arith)

-- A quote in the bucket of a key lies between the start of the bucket and its end.
in_bucket_bounds :
    (bucket_ms : ℕ) (key : BucketKey) (q : StoredQuote)
    → 0 < bucket_ms
    → pos 0 ≤ℤ q.timestamp
    → in_bucket bucket_ms key q ≡ true
    → key.0.0 ≤ℤ q.timestamp × q.timestamp <ℤ key.0.0 +ℤ pos bucket_ms
unfolding bucket_key
in_bucket_bounds bucket_ms key q p h e =
    let f = floor_div-IsFloor q.timestamp bucket_ms p in
    let same : eqb_ℤ (div_trunc q.timestamp bucket_ms *ℤ pos bucket_ms) key.0.0 ≡ true =
      and_left _ _ (and_left _ _ e) in
    let start : floor_div q.timestamp bucket_ms *ℤ pos bucket_ms ≡ key.0.0 =
      eq_of_parts _ _ (rw (← trunc_floor q.timestamp bucket_ms h) (ground arith)) in
    (rw (← start) f.0, rw (← start) f.1)

-- The quotes of a bucket: those of its exchange, symbol and market in its interval.
abbrev pub belongs : ℕ → BucketKey → StoredQuote → Bool
belongs bucket_ms key q =
    leb_ℤ key.0.0 q.timestamp
    && ltb_ℤ q.timestamp (key.0.0 +ℤ pos bucket_ms)
    && string_key.beq q.exchange key.0.1
    && string_key.beq q.symbol key.1.0
    && string_key.beq q.market_type key.1.1

outside :
    (s t : ℤ) (k : ℕ) → (leb_ℤ s t && ltb_ℤ t (s +ℤ pos k)) ≡ false → s ≤ℤ t → t <ℤ s +ℤ pos k → ⊥
outside s t k e a b = ground (arith, e, a, b)

-- The start of the bucket of a time.
starts :
    (t m : ℤ) (bucket_ms : ℕ)
    → 0 < bucket_ms
    → pos 0 ≤ℤ t
    → eqb_ℤ (div_trunc t bucket_ms *ℤ pos bucket_ms) (m *ℤ pos bucket_ms)
      ≡ (leb_ℤ (m *ℤ pos bucket_ms) t && ltb_ℤ t (m *ℤ pos bucket_ms +ℤ pos bucket_ms))
starts t m bucket_ms p h =
    let s = m *ℤ pos bucket_ms in
    let f = floor_div-IsFloor t bucket_ms p in
    let parts = +ℤ_parts s (pos bucket_ms) in
    rw (trunc_floor t bucket_ms h) (elim (Bool-cases (leb_ℤ s t && ltb_ℤ t (s +ℤ pos bucket_ms))) [
      | inl e ↦
          let u : floor_div t bucket_ms ≡ m =
            floor_unique t m bucket_ms p (ground (arith, e)) (ground (arith, e)) in
          rw (u, e) (int_refl s)
      | inr e ↦ elim (Bool-cases (eqb_ℤ (floor_div t bucket_ms *ℤ pos bucket_ms) s)) [
        | inl g ↦
            let same : floor_div t bucket_ms *ℤ pos bucket_ms ≡ s =
              eq_of_parts _ _ (ground (arith, g)) in
            absurd (outside s t bucket_ms e (rw (← same) f.0) (rw (← same) f.1))
        | inr g ↦ rw (e, g) refl
      ]
    ])

in_bucket-belongs :
    (bucket_ms : ℕ) (m : ℤ) (key : BucketKey) (q : StoredQuote)
    → 0 < bucket_ms
    → pos 0 ≤ℤ q.timestamp
    → key.0.0 ≡ m *ℤ pos bucket_ms
    → in_bucket bucket_ms key q ≡ belongs bucket_ms key q
unfolding bucket_key
in_bucket-belongs bucket_ms m key q p n e = ground (arith, start)
  where
    start :
        eqb_ℤ (div_trunc q.timestamp bucket_ms *ℤ pos bucket_ms) key.0.0
        ≡ (leb_ℤ key.0.0 q.timestamp && ltb_ℤ q.timestamp (key.0.0 +ℤ pos bucket_ms))
    start = rw e (starts q.timestamp m bucket_ms p n)

filter_congr :
    {A : Type 0} (p q : A → Bool) (xs : List A)
    → All (λ x. p x ≡ q x) xs
    → filter p xs ≡ filter q xs
filter_congr p q [] h = refl
filter_congr p q (x ∷ xs) h = rw (h.0, filter_congr p q xs h.1) refl

merged_twice : (old new : Option Bucket) → merged (merged old new) new ≡ merged old new
unfolding on_conflict
merged_twice old none = refl
merged_twice none (some new) = refl
merged_twice (some old) (some new) = refl

module _ (average : List Decimal → Decimal) (average_ms : List ℤ → Decimal) where
  -- Running the same interval again on the same quotes changes no row.
  pub run_level_again :
      (bucket_ms : ℕ) (from_ms to_ms : ℤ) (quotes : List StoredQuote)
      (table : Dict BucketKey Bucket) (key : BucketKey)
      → lookup key (
          run_level average average_ms bucket_ms from_ms to_ms quotes
            (run_level average average_ms bucket_ms from_ms to_ms quotes table))
        ≡ lookup key (run_level average average_ms bucket_ms from_ms to_ms quotes table)
  run_level_again bucket_ms from_ms to_ms quotes table key =
      let run = run_level average average_ms bucket_ms from_ms to_ms quotes in
      let first = lookup-run_level average average_ms bucket_ms from_ms to_ms quotes table key in
      let second =
        lookup-run_level average average_ms bucket_ms from_ms to_ms quotes (run table) key in
      second ∙ rw first (merged_twice (lookup key table) _)

  -- If no timestamp is negative, a bucket begins at a multiple of its length and the interval contains
  -- it, then after a run its row is what it was before if there is no quote of its exchange, symbol and
  -- market from its start on and before its end; otherwise it has the highest and the lowest prices of
  -- all such quotes, the prices of a last one, the averages and the number of them, and the opening
  -- prices that were there before or, in a new row, those of a first one.
  pub whole_bucket :
      (bucket_ms : ℕ) (m from_ms to_ms : ℤ) (quotes : List StoredQuote)
      (table : Dict BucketKey Bucket) (key : BucketKey)
      → 0 < bucket_ms
      → All (λ q. pos 0 ≤ℤ q.timestamp) quotes
      → key.0.0 ≡ m *ℤ pos bucket_ms
      → from_ms ≤ℤ key.0.0
      → key.0.0 +ℤ pos bucket_ms ≤ℤ to_ms
      → Row average average_ms
          (lookup key table)
          (filter (belongs bucket_ms key) quotes)
          (lookup key (run_level average average_ms bucket_ms from_ms to_ms quotes table))
  whole_bucket bucket_ms m from_ms to_ms quotes table key p h e l u =
      subst
        (λ (rows : List StoredQuote).
          Row average average_ms (lookup key table) rows
            (lookup key (run_level average average_ms bucket_ms from_ms to_ms quotes table)))
        (filter_congr (in_bucket bucket_ms key) (belongs bucket_ms key) quotes
          (All-imp quotes (λ q n. in_bucket-belongs bucket_ms m key q p n e) h))
        (subst (Row average average_ms (lookup key table) (filter (in_bucket bucket_ms key) quotes))
          (sym (
            lookup-run_level average average_ms bucket_ms from_ms to_ms quotes table key
            ∙ ap
                (λ (rows : List StoredQuote).
                  merged (lookup key table) (aggregate average average_ms rows))
                (filter_absorb (in_bucket bucket_ms key) (in_window from_ms to_ms) quotes
                  (All-imp quotes inside h))))
          (merged-Row average average_ms (lookup key table)
            (filter (in_bucket bucket_ms key) quotes)))
    where
      inside :
          (q : StoredQuote)
          → pos 0 ≤ℤ q.timestamp
          → in_bucket bucket_ms key q ≡ true
          → in_window from_ms to_ms q ≡ true
      inside q n e =
          let b = in_bucket_bounds bucket_ms key q p n e in
          ground (arith, b.0, b.1, l, u, +ℤ_parts key.0.0 (pos bucket_ms))

  -- Of two runs, quotes that come before the look-back of the second one, but not before the
  -- margin of the first one, reach no bucket: the row of a bucket that has only such quotes is
  -- after both runs what it was before.
  pub gap_unaggregated :
      (lookback_ms bucket_ms : ℕ) (now_ms next_ms : ℤ) (quotes later : List StoredQuote)
      (table : Dict BucketKey Bucket) (key : BucketKey)
      → All
          (λ q. in_bucket bucket_ms key q ≡ true → now_ms -ℤ pos safety_margin_ms ≤ℤ q.timestamp)
          quotes
      → All
          (λ q. in_bucket bucket_ms key q ≡ true → q.timestamp <ℤ next_ms -ℤ pos lookback_ms)
          later
      → lookup key (
          run_at average average_ms lookback_ms bucket_ms next_ms later
            (run_at average average_ms lookback_ms bucket_ms now_ms quotes table))
        ≡ lookup key table
  unfolding run_at
  gap_unaggregated lookback_ms bucket_ms now_ms next_ms quotes later table key h k =
      let run =
        run_level average average_ms bucket_ms (now_ms -ℤ pos lookback_ms)
          (now_ms -ℤ pos safety_margin_ms) quotes table in
      let P = in_bucket bucket_ms key in
      let first : lookup key run ≡ lookup key table =
        lookup-run_level average average_ms bucket_ms (now_ms -ℤ pos lookback_ms)
          (now_ms -ℤ pos safety_margin_ms) quotes table key
        ∙ ap
            (λ (rows : List StoredQuote).
              merged (lookup key table) (aggregate average average_ms rows))
            (filter_none P _ quotes (All-imp quotes (λ q o e. ended q (o e)) h)) in
      lookup-run_level average average_ms bucket_ms (next_ms -ℤ pos lookback_ms)
        (next_ms -ℤ pos safety_margin_ms) later run key
      ∙ ap
          (λ (rows : List StoredQuote). merged (lookup key run) (aggregate average average_ms rows))
          (filter_none P _ later (All-imp later (λ q o e. unreached q (o e)) k))
      ∙ first
    where
      ended :
          (q : StoredQuote)
          → now_ms -ℤ pos safety_margin_ms ≤ℤ q.timestamp
          → in_window (now_ms -ℤ pos lookback_ms) (now_ms -ℤ pos safety_margin_ms) q ≡ false
      ended q o = ground (arith, o)

      unreached :
          (q : StoredQuote)
          → q.timestamp <ℤ next_ms -ℤ pos lookback_ms
          → in_window (next_ms -ℤ pos lookback_ms) (next_ms -ℤ pos safety_margin_ms) q ≡ false
      unreached q o = ground (arith, o)
