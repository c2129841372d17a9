-- ===== src/Retention/Safety.antt =====
-- What maintenance leaves alone (backend/app/services/retention_manager.py).
use p2p_treker.Prelude.{
  ℕ, ◌*◌, ◌≡◌, refl, Bool, true, ◌||◌, ◌==◌, Bool-cases, if-elim, inl, inr, Option, none, some,
  String, List, [], ◌∷◌, All, if◌then◌else◌,
}
use p2p_treker.Prelude.Int.{ℤ, pos, ◌+ℤ◌, ◌-ℤ◌, ltb_ℤ}
use p2p_treker.Prelude.Dict.{Dict, string_key}
use p2p_treker.Prelude.Result.{Result, ok, err, Given, Given-bind, ◌>>=◌}
use p2p_treker.Retention.{
  Statement, create_partition, drop_table, delete_before, upsert_buckets, Execute, committed,
}
use p2p_treker.Retention.Days.{day_ms, cutoff_ms, day_bounds_ms, day_starts_in_range}
use p2p_treker.Retention.Names.{partition_name_for, is_partition_day, parse_partition_day}
use p2p_treker.Retention.Downsampler.{DownsampleLevel, levels}
use p2p_treker.Retention.Partitions.{
  create_all, ensure_partitions, drop_if_old, drop_all, drop_old_partitions,
}
use p2p_treker.Retention.Manager.{
  RetentionConfig, RetentionMetrics, level_retention, after_session, run_levels, downsample,
  delete_levels, delete_events, delete_expired_rows, measured, swept, aggregated, pruned, maintain,
  run_once,
}

-- The statements that touch neither the spread events nor a table that is not the platform's.
abbrev pub is_level_table : String → Bool
is_level_table table =
    string_key.beq table "quotes_10s"
    || string_key.beq table "quotes_1m"
    || string_key.beq table "quotes_5m"

abbrev pub IsMaintenance : Statement → Type 0
IsMaintenance (create_partition name from_ms to_ms) = Unit
IsMaintenance (drop_table name) = is_partition_day name ≡ true
IsMaintenance (delete_before table cutoff) = is_level_table table ≡ true
IsMaintenance (upsert_buckets table bucket_ms from_ms to_ms) = is_level_table table ≡ true

-- No retention is set for the spread events.
abbrev pub IsUnset : Option ℕ → Type 0
IsUnset none = Unit
IsUnset (some days) = (days == 0) ≡ true

module _ {Database : Type 0} (execute : Execute Database) (P : Database → Type 0)
    (keeps : (s : Statement) (d : Database)
      → IsMaintenance s
      → P d
      → Given (λ r. P r.0) (execute s d)) where
  abbrev Keeps : {A : Type 0} → Result (Database × A) → Type 0
  Keeps = Given (λ r. P r.0)

  Keeps-bind :
      {A B : Type 0} (r : Result (Database × A)) (next : Database × A → Result (Database × B))
      → Keeps r
      → ((x : Database × A) → P x.0 → Keeps (next x))
      → Keeps (r >>= next)
  Keeps-bind (err raised) next h k = tt
  Keeps-bind (ok x) next h k = k x h

  committed-Keeps :
      {A : Type 0} (d : Database) (r : Result (Database × A)) → P d → Keeps r → P (committed d r).0
  unfolding committed
  committed-Keeps d (err raised) h k = h
  committed-Keeps d (ok (after, result)) h k = k

  after_session-Keeps :
      {A B : Type 0} (s : Database × Result A) (next : Database → A → Database × Result B)
      → P s.0
      → ((d : Database) (a : A) → P d → P (next d a).0)
      → P (after_session s next).0
  unfolding after_session
  after_session-Keeps (d, err raised) next h k = h
  after_session-Keeps (d, ok a) next h k = k d a h

  create_all-Keeps : (days : List ℤ) (d : Database) → P d → Keeps (create_all execute days d)
  unfolding create_all
  create_all-Keeps [] d h = h
  create_all-Keeps (day ∷ days) d h = Given-bind (partition_name_for day) _ _ (λ name e.
      Keeps-bind (execute (create_partition name day (day +ℤ pos day_ms)) d) _ (keeps _ d tt h)
        (λ done f.
          Keeps-bind (create_all execute days done.0) _ (create_all-Keeps days done.0 f)
            (λ rest g. g)))

  ensure-Keeps :
      (now_ms : ℤ) (ahead behind : ℕ) (d : Database)
      → P d
      → P (ensure_partitions execute now_ms ahead behind d).0
  unfolding ensure_partitions
  ensure-Keeps now_ms ahead behind d h =
      let today = (day_bounds_ms now_ms).0 in
      let days =
        day_starts_in_range (today -ℤ pos (behind * day_ms)) (today +ℤ pos (ahead * day_ms)) in
      committed-Keeps d (create_all execute days d) h (create_all-Keeps days d h)

  drop_if_old-Keeps :
      (cutoff : ℤ) (name : String) (d : Database) (day : Result ℤ)
      → is_partition_day name ≡ true
      → P d
      → Keeps (drop_if_old execute cutoff name d day)
  unfolding drop_if_old
  drop_if_old-Keeps cutoff name d (err raised) e h = tt
  drop_if_old-Keeps cutoff name d (ok day) e h = elim (Bool-cases (ltb_ℤ day cutoff)) [
    | inl p ↦ rw p (Keeps-bind (execute (drop_table name) d) _ (keeps _ d e h) (λ done f. f))
    | inr p ↦ rw p h
  ]

  drop_all-Keeps :
      (cutoff : ℤ) (names : List String) (d : Database)
      → P d
      → Keeps (drop_all execute cutoff names d)
  unfolding drop_all
  drop_all-Keeps cutoff [] d h = h
  drop_all-Keeps cutoff (name ∷ names) d h =
      Keeps-bind
        (if is_partition_day name
          then drop_if_old execute cutoff name d (parse_partition_day name)
          else ok (d, []))
        _
        (if-elim Keeps (is_partition_day name) _ _
          (λ e. drop_if_old-Keeps cutoff name d (parse_partition_day name) e h) (λ e. h))
        (λ here f.
          Keeps-bind (drop_all execute cutoff names here.0) _ (drop_all-Keeps cutoff names here.0 f)
            (λ rest g. g))

  drop_old-Keeps :
      (now_ms : ℤ) (days : ℕ) (names : Result (List String)) (d : Database)
      → P d
      → P (drop_old_partitions execute now_ms days names d).0
  unfolding drop_old_partitions
  drop_old-Keeps now_ms days (err raised) d h = h
  drop_old-Keeps now_ms days (ok names) d h = committed-Keeps d _ h (drop_all-Keeps _ names d h)

  run_levels-Keeps :
      (ls : List DownsampleLevel) (from_ms to_ms : ℤ) (d : Database)
      → All (λ l. is_level_table l.table ≡ true) ls
      → P d
      → Keeps (run_levels execute ls from_ms to_ms d)
  unfolding run_levels
  run_levels-Keeps [] from_ms to_ms d q h = h
  run_levels-Keeps (l ∷ ls) from_ms to_ms d q h =
      Keeps-bind (execute (upsert_buckets l.table l.bucket_ms from_ms to_ms) d) _ (keeps _ d q.0 h)
        (λ done f.
          Keeps-bind (run_levels execute ls from_ms to_ms done.0) _
            (run_levels-Keeps ls from_ms to_ms done.0 q.1 f) (λ rest g. g))

  module _ (config : RetentionConfig) (current : ℤ) where
    delete_levels-Keeps :
        (ls : List DownsampleLevel) (d : Database)
        → All (λ l. is_level_table l.table ≡ true) ls
        → P d
        → Keeps (delete_levels execute config current ls d)
    unfolding delete_levels
    delete_levels-Keeps [] d q h = h
    delete_levels-Keeps (l ∷ ls) d q h = Given-bind (level_retention config l.table) _ _ (λ days e.
        Keeps-bind (execute (delete_before l.table (cutoff_ms current days)) d) _ (keeps _ d q.0 h)
          (λ done f.
            Keeps-bind (delete_levels execute config current ls done.0) _
              (delete_levels-Keeps ls done.0 q.1 f) (λ rest g. g)))

    delete_events-Keeps :
        (days : Option ℕ) (d : Database)
        → IsUnset days
        → P d
        → Keeps (delete_events execute days current d)
    unfolding delete_events
    delete_events-Keeps none d u h = h
    delete_events-Keeps (some days) d u h = rw u h

    delete_expired-Keeps :
        (d : Database)
        → IsUnset config.spread_events_retention_days
        → P d
        → P (delete_expired_rows execute config current d).0
    unfolding delete_expired_rows
    delete_expired-Keeps d u h = committed-Keeps d _ h (
        Keeps-bind (delete_levels execute config current levels d) _
          (delete_levels-Keeps levels d (refl, (refl, (refl, tt))) h)
          (λ x f.
            Keeps-bind (delete_events execute config.spread_events_retention_days current x.0) _
              (delete_events-Keeps config.spread_events_retention_days x.0 u f) (λ rest g. g)))

    module _ (existing_partitions : Database → Result (List String))
        (relation_size : String → Database → Result ℕ)
        (unset : IsUnset config.spread_events_retention_days) where
      swept-Keeps :
          (created dropped : List String) (d : Database) (downsampled : Dict String ℕ)
          → P d
          → P
              (swept execute existing_partitions relation_size config current created dropped d
                downsampled).0
      unfolding swept
      swept-Keeps created dropped d downsampled h =
          after_session-Keeps (delete_expired_rows execute config current d)
            (measured execute existing_partitions relation_size created dropped downsampled)
            (delete_expired-Keeps d unset h) (λ d2 a k. k)

      aggregated-Keeps :
          (created : List String) (d : Database) (dropped : List String)
          → P d
          → P
              (aggregated execute existing_partitions relation_size config current created d
                dropped).0
      unfolding aggregated downsample
      aggregated-Keeps created d dropped h =
          after_session-Keeps (downsample execute 3600000 current d)
            (swept execute existing_partitions relation_size config current created dropped)
            (committed-Keeps d _ h (run_levels-Keeps levels _ _ d (refl, (refl, (refl, tt))) h))
            (swept-Keeps created dropped)

      pruned-Keeps :
          (d : Database) (created : List String)
          → P d
          → P (pruned execute existing_partitions relation_size config current d created).0
      unfolding pruned
      pruned-Keeps d created h =
          after_session-Keeps
            (drop_old_partitions execute current config.raw_retention_days (existing_partitions d)
              d)
            (aggregated execute existing_partitions relation_size config current created)
            (drop_old-Keeps current config.raw_retention_days (existing_partitions d) d h)
            (aggregated-Keeps created)

      -- Where no retention is set for the spread events, a maintenance run changes the database by
      -- these statements only, whether it succeeds or not: partitions are created, tables with the
      -- name of a partition are dropped, and rows of the three downsampled tables are deleted or
      -- aggregated. So it keeps every predicate that these statements keep.
      pub run_once-Keeps :
          (metrics : RetentionMetrics) (d : Database)
          → P d
          → P (run_once execute existing_partitions relation_size config current metrics d).0
      unfolding run_once maintain
      run_once-Keeps metrics d h =
          after_session-Keeps (ensure_partitions execute current config.partition_ahead_days 1 d)
            (pruned execute existing_partitions relation_size config current)
            (ensure-Keeps current config.partition_ahead_days 1 d h) pruned-Keeps
