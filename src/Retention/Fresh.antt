-- ===== src/Retention/Fresh.antt =====
-- New partitions beside the removal of old ones (backend/app/database/partitioning.py).
use p2p_treker.Prelude.{
  ℕ, ◌+◌, ◌*◌, ◌≤◌, ◌≡◌, refl, sym, ap, subst, false, String, List, [], ◌∷◌, All, arith,
}
use p2p_treker.Prelude.Int.{
  ℤ, pos, pos_part, neg_part, ◌+ℤ◌, ◌-ℤ◌, ◌*ℤ◌, ◌≤ℤ◌, ltb_ℤ, int_laws, eq_of_parts,
  eq_pos_of_nonneg, -ℤ-*ℤ-pos, ≤ℤ-*ℤ-pos, ≤ℤ-*ℤ-pos_cancel, pos_part-*ℤ, neg_part-*ℤ,
}
use p2p_treker.Prelude.Result.{Result, ok, err, Given, Given-bind}
use p2p_treker.Retention.{create_partition, Execute, committed}
use p2p_treker.Retention.Days.{
  day_ms, floor_div, floor_div-le, floor_div-*ℤ, succ_mul, day_bounds_ms, Tiles,
  day_starts_in_range-Tiles,
}
use p2p_treker.Retention.Names.{partition_name_for, day_start, epoch_day}
use p2p_treker.Retention.Names.RoundTrip.{IsNameOf, named-IsNameOf}
use p2p_treker.Retention.Partitions.{
  create_all, ensure_partitions, drop_if_old, drop_all, drop_old_partitions,
}

-- A name of a day that does not begin before `first`.
record IsSince (first : ℤ) (name : String) : Type 0 where
  start : ℤ
  late : first ≤ℤ start
  named : IsNameOf start name

module _ {Database : Type 0} (execute : Execute Database) (first : ℤ)
    (positive : pos 0 ≤ℤ first) where
  day-IsSince :
      (q : ℤ) (name : String)
      → first ≤ℤ q *ℤ pos day_ms
      → partition_name_for (q *ℤ pos day_ms) ≡ ok name
      → IsSince first name
  unfolding day_start
  day-IsSince q name h e =
      let nonneg : pos 0 ≤ℤ q =
        ≤ℤ-*ℤ-pos_cancel (pos 0) q day_ms (omega arith)
          (omega (arith, pos_part-*ℤ (pos 0) (pos day_ms), neg_part-*ℤ (pos 0) (pos day_ms))) in
      let z = eq_pos_of_nonneg q nonneg in
      let n = pos_part q + epoch_day in
      let back : pos n -ℤ pos epoch_day ≡ q = eq_of_parts _ _ (omega (int_laws, ap neg_part z)) in
      let s : day_start n ≡ q *ℤ pos day_ms = ap (λ (t : ℤ). t *ℤ pos day_ms) back in
      record {
        start = day_start n;
        late = rw s h;
        named = named-IsNameOf n name (omega arith) (rw s e);
      }

  created-All :
      (days : List ℤ) (q b : ℤ) (database : Database)
      → Tiles day_ms (q *ℤ pos day_ms) b days
      → first ≤ℤ q *ℤ pos day_ms
      → Given (λ r. All (IsSince first) r.1) (create_all execute days database)
  unfolding create_all
  created-All [] q b database t h = tt
  created-All (day ∷ days) q b database t h =
      let P : Database × List String → Type 0 = λ r. All (IsSince first) r.1 in
      Given-bind (partition_name_for day) _ P (λ name e.
        Given-bind (execute (create_partition name day (day +ℤ pos day_ms)) database) _ P (λ done d.
          Given-bind (create_all execute days done.0) _ P (λ rest r. (
            day-IsSince q name h (subst (λ s. partition_name_for s ≡ ok name) t.0 e),
            subst (Given P) r (
                created-All days (q +ℤ pos 1) b done.0
                  (subst (λ s. Tiles day_ms s b days) (succ_mul q day_ms) t.1)
                  (rw (← succ_mul q day_ms) (omega int_laws))),
          ))))

  -- Names of days since `first` are not dropped at a cutoff that is not later.
  drop_all-IsSince :
      (cutoff : ℤ) (names : List String) (database : Database)
      → cutoff ≤ℤ first
      → All (IsSince first) names
      → drop_all execute cutoff names database ≡ ok (database, [])
  unfolding drop_all drop_if_old
  drop_all-IsSince cutoff [] database h k = refl
  drop_all-IsSince cutoff (name ∷ names) database h k =
      let n = k.0.named in
      let young : ltb_ℤ k.0.start cutoff ≡ false = ground (arith, k.0.late) in
      rw (n.guarded, n.parsed, drop_if_old, young)
        (rw (drop_all-IsSince cutoff names database h k.1) refl)

module _ {Database : Type 0} (execute : Execute Database) where
  -- The first day, as a multiple of a day.
  first_day : (t : ℤ) (n : ℕ) → t *ℤ pos day_ms -ℤ pos (n * day_ms) ≡ (t -ℤ pos n) *ℤ pos day_ms
  first_day t n = eq_of_parts _ _ (
      rw (-ℤ-*ℤ-pos t (pos n) day_ms)
        (omega (int_laws, pos_part-*ℤ (pos n) (pos day_ms), neg_part-*ℤ (pos n) (pos day_ms))))

  today : (now_ms : ℤ) (n : ℕ) → pos (n * day_ms) ≤ℤ now_ms → pos n ≤ℤ floor_div now_ms day_ms
  today now_ms n h =
      let e : pos n *ℤ pos day_ms ≡ pos (n * day_ms) =
        eq_of_parts _ _
          (omega (arith, pos_part-*ℤ (pos n) (pos day_ms), neg_part-*ℤ (pos n) (pos day_ms))) in
      subst (λ z. z ≤ℤ floor_div now_ms day_ms) (floor_div-*ℤ (pos n) day_ms (omega arith))
        (floor_div-le (pos n *ℤ pos day_ms) now_ms day_ms (omega arith) (rw e h))

  first_nonneg : (t : ℤ) (n : ℕ) → pos n ≤ℤ t → pos 0 ≤ℤ t *ℤ pos day_ms -ℤ pos (n * day_ms)
  first_nonneg t n h = omega (
    int_laws,
    ≤ℤ-*ℤ-pos (pos n) t day_ms h,
    pos_part-*ℤ (pos n) (pos day_ms),
    neg_part-*ℤ (pos n) (pos day_ms),
  )

  first_floor :
      (t : ℤ) (n : ℕ)
      → floor_div (t *ℤ pos day_ms -ℤ pos (n * day_ms)) day_ms *ℤ pos day_ms
        ≡ t *ℤ pos day_ms -ℤ pos (n * day_ms)
  first_floor t n =
      subst (λ f. floor_div f day_ms *ℤ pos day_ms ≡ f) (sym (first_day t n))
        (ap (λ (q : ℤ). q *ℤ pos day_ms) (floor_div-*ℤ (t -ℤ pos n) day_ms (omega arith)))

  committed-Given :
      (Q : List String → Type 0) (before : Database) (r : Result (Database × List String))
      (names : List String)
      → Given (λ x. Q x.1) r
      → (committed before r).1 ≡ ok names
      → Q names
  unfolding committed
  committed-Given Q before (err raised) names h e = absurd cc
  committed-Given Q before (ok (after, result)) names h e = subst (Given Q) e h

  -- From the year 1970 on: as long as at least as many days are kept as partitions are created
  -- behind the current day, the names that `ensure_partitions` gives are not dropped by
  -- `drop_old_partitions` at the same time, which then changes nothing.
  pub ensured_kept :
      (now_ms : ℤ) (ahead_days behind_days retention_days : ℕ) (database later : Database)
      (names : List String)
      → behind_days ≤ retention_days
      → pos (behind_days * day_ms) ≤ℤ now_ms
      → (ensure_partitions execute now_ms ahead_days behind_days database).1 ≡ ok names
      → drop_old_partitions execute now_ms retention_days (ok names) later ≡ (later, ok [])
  unfolding ensure_partitions drop_old_partitions day_bounds_ms committed
  ensured_kept now_ms ahead_days behind_days retention_days database later names h p e =
      let t = floor_div now_ms day_ms in
      let late = today now_ms behind_days p in
      let first = t *ℤ pos day_ms -ℤ pos (behind_days * day_ms) in
      let positive : pos 0 ≤ℤ first = first_nonneg t behind_days late in
      let floor : floor_div first day_ms *ℤ pos day_ms ≡ first = first_floor t behind_days in
      let range : first ≤ℤ t *ℤ pos day_ms +ℤ pos (ahead_days * day_ms) = omega int_laws in
      let since : All (IsSince first) names =
        committed-Given (All (IsSince first)) database _ names
          (created-All execute first positive _ (floor_div first day_ms) _ database
            (day_starts_in_range-Tiles first _ range) (rw floor (omega arith)))
          e in
      rw
        (drop_all-IsSince execute first positive (t *ℤ pos day_ms -ℤ pos (retention_days * day_ms))
          names later (omega int_laws) since)
        refl
