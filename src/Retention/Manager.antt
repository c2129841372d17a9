-- ===== src/Retention/Manager.antt =====
-- A maintenance run (backend/app/services/retention_manager.py), and the statements of the
-- downsampler (backend/app/services/downsampler.py).
use p2p_treker.Prelude.{
  ℕ, Bool, ◌==◌, Option, none, some, String, List, [], ◌∷◌, ◌++◌, length, if◌then◌else◌,
}
use p2p_treker.Prelude.Int.{ℤ, pos, ◌-ℤ◌}
use p2p_treker.Prelude.Dict.{Dict, string_key}
use p2p_treker.Prelude.Result.{Result, Error, ok, err, ◌>>=◌}
use p2p_treker.Retention.{delete_before, upsert_buckets, Execute, committed}
use p2p_treker.Retention.Days.{cutoff_ms}
use p2p_treker.Retention.Downsampler.{DownsampleLevel, levels, safety_margin_ms}
use p2p_treker.Retention.Partitions.{ensure_partitions, drop_old_partitions}

pub record RetentionConfig : Type 0 where
  pub enabled : Bool
  pub raw_retention_days : ℕ
  pub downsample_10s_retention_days : ℕ
  pub downsample_1m_retention_days : ℕ
  pub downsample_5m_retention_days : ℕ
  pub spread_events_retention_days : Option ℕ
  pub partition_ahead_days : ℕ
  pub maintenance_interval_hours : ℕ

-- `last_error` is the exception whose type and message the code writes.
pub record RetentionMetrics : Type 0 where
  pub last_run_at_ms : Option ℤ
  pub partitions_created : ℕ
  pub partitions_dropped : ℕ
  pub downsampled_rows : Dict String ℕ
  pub rows_deleted : Dict String ℕ
  pub storage_bytes : Dict String ℕ
  pub last_error : Option Error

-- The results of a run in which nothing is raised.
pub record Maintained : Type 0 where
  pub created : List String
  pub dropped : List String
  pub downsampled : Dict String ℕ
  pub deleted : Dict String ℕ
  pub storage : Dict String ℕ

-- `getattr(config, _DOWNSAMPLE_RETENTION_FIELDS[table])`
unfoldable pub level_retention : RetentionConfig → String → Result ℕ
level_retention config table =
    if string_key.beq table "quotes_10s"
    then ok config.downsample_10s_retention_days
    else if string_key.beq table "quotes_1m"
    then ok config.downsample_1m_retention_days
    else if string_key.beq table "quotes_5m"
    then ok config.downsample_5m_retention_days
    else err Error.key_error

-- A session, and what follows it.
unfoldable pub after_session :
    {Database A B : Type 0}
    → Database × Result A
    → (Database → A → Database × Result B)
    → Database × Result B
after_session (database, err raised) next = (database, err raised)
after_session (database, ok result) next = next database result

module _ {Database : Type 0} (execute : Execute Database) where
  -- `Downsampler.run`
  unfoldable pub run_levels :
      List DownsampleLevel → ℤ → ℤ → Database → Result (Database × Dict String ℕ)
  run_levels [] from_ms to_ms database = ok (database, [])
  run_levels (level ∷ rest) from_ms to_ms database = do
    done ← execute (upsert_buckets level.table level.bucket_ms from_ms to_ms) database
    others ← run_levels rest from_ms to_ms done.0
    ok (others.0, (level.table, done.1) ∷ others.1)

  unfoldable pub downsample : ℕ → ℤ → Database → Database × Result (Dict String ℕ)
  unfolding run_levels committed
  downsample lookback_ms now_ms database =
      committed database
        (run_levels levels (now_ms -ℤ pos lookback_ms) (now_ms -ℤ pos safety_margin_ms) database)

  unfoldable pub delete_levels :
      RetentionConfig → ℤ → List DownsampleLevel → Database → Result (Database × Dict String ℕ)
  unfolding level_retention cutoff_ms
  delete_levels config current_ms [] database = ok (database, [])
  delete_levels config current_ms (level ∷ rest) database = do
    days ← level_retention config level.table
    done ← execute (delete_before level.table (cutoff_ms current_ms days)) database
    others ← delete_levels config current_ms rest done.0
    ok (others.0, (level.table, done.1) ∷ others.1)

  -- None and 0 keep the spread events.
  unfoldable pub delete_events : Option ℕ → ℤ → Database → Result (Database × Dict String ℕ)
  unfolding cutoff_ms
  delete_events none current_ms database = ok (database, [])
  delete_events (some days) current_ms database = if days == 0 then ok (database, []) else (do
    done ← execute (delete_before "spread_events" (cutoff_ms current_ms days)) database
    ok (done.0, ("spread_events", done.1) ∷ []))

  unfoldable pub delete_expired_rows :
      RetentionConfig → ℤ → Database → Database × Result (Dict String ℕ)
  unfolding delete_levels delete_events committed
  delete_expired_rows config current_ms database = committed database (do
    by_level ← delete_levels config current_ms levels database
    events ← delete_events config.spread_events_retention_days current_ms by_level.0
    ok (events.0, by_level.1 ++ events.1))

  module _ (existing_partitions : Database → Result (List String))
      (relation_size : String → Database → Result ℕ) where
    -- `quotes_1s` is asked for the sum over its partitions.
    unfoldable pub measure_storage : List String → Database → Result (Dict String ℕ)
    measure_storage [] database = ok []
    measure_storage (table ∷ tables) database = do
      size ← relation_size table database
      rest ← measure_storage tables database
      ok ((table, size) ∷ rest)

    -- The calls of `run_once`, each in its own session, from the last one to the first one.
    unfoldable pub measured :
        List String
        → List String
        → Dict String ℕ
        → Database
        → Dict String ℕ
        → Database × Result Maintained
    unfolding measure_storage
    measured created dropped downsampled database deleted = (
      database,
      (do
        storage ←
            measure_storage
              ("spread_events" ∷ "quotes_10s" ∷ "quotes_1m" ∷ "quotes_5m" ∷ "quotes_1s" ∷ [])
              database
        ok (record {
          created = created;
          dropped = dropped;
          downsampled = downsampled;
          deleted = deleted;
          storage = storage;
        })),
    )

    module _ (config : RetentionConfig) (current : ℤ) where
      unfoldable pub swept :
          List String → List String → Database → Dict String ℕ → Database × Result Maintained
      unfolding after_session delete_expired_rows measured
      swept created dropped database downsampled =
          after_session (delete_expired_rows config current database)
            (measured created dropped downsampled)

      unfoldable pub aggregated :
          List String → Database → List String → Database × Result Maintained
      unfolding after_session downsample swept
      aggregated created database dropped =
          after_session (downsample 3600000 current database) (swept created dropped)

      unfoldable pub pruned : Database → List String → Database × Result Maintained
      unfolding after_session drop_old_partitions aggregated
      pruned database created =
          after_session
            (drop_old_partitions execute current config.raw_retention_days
              (existing_partitions database) database)
            (aggregated created)

      unfoldable pub maintain : Database → Database × Result Maintained
      unfolding after_session ensure_partitions pruned
      maintain database =
          after_session (ensure_partitions execute current config.partition_ahead_days 1 database)
            pruned

    unfoldable pub noted : Result Maintained → ℤ → RetentionMetrics → RetentionMetrics
    noted (err raised) current metrics = record metrics {
      last_error = some raised;
      last_run_at_ms = some current;
    }
    noted (ok run) current metrics = record {
      last_run_at_ms = some current;
      partitions_created = length run.created;
      partitions_dropped = length run.dropped;
      downsampled_rows = run.downsampled;
      rows_deleted = run.deleted;
      storage_bytes = run.storage;
      last_error = none;
    }

    unfoldable pub run_once :
        RetentionConfig → ℤ → RetentionMetrics → Database → Database × RetentionMetrics
    unfolding maintain noted
    run_once config current metrics database =
        let r = maintain config current database in (r.0, noted r.1 current metrics)
