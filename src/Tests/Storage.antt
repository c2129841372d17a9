-- ===== src/Tests/Storage.antt =====
-- Stored quotes (backend/app/database, backend/app/services): a run of March 2024, and quotes of
-- two exchanges.
use p2p_treker.Prelude.{
  ℕ, ◌≡◌, refl, true, none, some, String, List, [], ◌∷◌, filter, All, arith, if◌then◌else◌,
}
use p2p_treker.Prelude.Int.{ℤ, pos, ◌+ℤ◌, ◌-ℤ◌, ◌*ℤ◌}
use p2p_treker.Prelude.Dict.{lookup, string_key, pair_key}
use p2p_treker.Prelude.Result.{ok, Returns, Given}
use p2p_treker.Decimal.{Decimal, lit}
use p2p_treker.Retention.{
  Statement, create_partition, drop_table, delete_before, upsert_buckets, Execute,
}
use p2p_treker.Retention.Calendar.{date_of, is_date}
use p2p_treker.Retention.Days.{
  day_ms, floor_div, day_bounds_ms, day_starts_in_range, Tiles, day_starts_in_range-Tiles,
}
use p2p_treker.Retention.Names.{
  partition_name_for, removeprefix, is_partition_day, parse_partition_day, day_start,
}
use p2p_treker.Retention.Names.RoundTrip.{IsNameOf, partition_name_for-Returns}
use p2p_treker.Retention.Partitions.{
  ensure_partitions, drop_all, drop_old_partitions, expired, IsDated, drops, drop_all-expired,
}
use p2p_treker.Retention.Fresh.{ensured_kept}
use p2p_treker.Retention.Downsampler.{int_key, StoredQuote, BucketKey, run_level, run_at}
use p2p_treker.Retention.Summary.{Row}
use p2p_treker.Retention.Windows.{belongs, whole_bucket, gap_unaggregated}
use p2p_treker.Retention.Manager.{RetentionConfig, RetentionMetrics, run_once}
use p2p_treker.Retention.Safety.{IsMaintenance, is_level_table, run_once-Keeps}

-- 2024-03-15, 00:00:00 and 12:00:00
abbrev midnight : ℤ
midnight = pos 1710460800000

abbrev noon : ℤ
noon = pos 1710504000000

day_start_run : day_start 738959 ≡ midnight
unfolding day_start ◌-ℤ◌ ◌*ℤ◌
day_start_run = refl

name_run : partition_name_for midnight ≡ ok "quotes_1s_20240315"
unfolding partition_name_for ◌+ℤ◌ floor_div date_of
name_run = refl

no_date_run : is_partition_day "quotes_1s_20241399" ≡ true
unfolding is_partition_day removeprefix
no_date_run = refl

partition_name_for-Returns_example :
    Returns (IsNameOf (day_start 738959)) (partition_name_for (day_start 738959))
unfolding date_of
partition_name_for-Returns_example = partition_name_for-Returns 738959 (omega arith) (omega arith)

day_starts_in_range-Tiles_example :
    Tiles day_ms
      (day_bounds_ms midnight).0
      (day_bounds_ms noon).1
      (day_starts_in_range midnight noon)
day_starts_in_range-Tiles_example = day_starts_in_range-Tiles midnight noon (omega arith)

-- A database that only notes the names of the partitions.
abbrev notes : Execute (List String)
notes (create_partition name from_ms to_ms) names = ok (name ∷ names, 0)
notes (drop_table name) names = ok (names, 0)
notes _ names = ok (names, 1)

abbrev new_names : List String
new_names = "quotes_1s_20240314" ∷ "quotes_1s_20240315" ∷ "quotes_1s_20240316" ∷ []

ensured : (ensure_partitions notes noon 1 1 []).1 ≡ ok new_names
unfolding ensure_partitions ◌+ℤ◌ ◌*ℤ◌ ◌-ℤ◌ date_of
ensured = refl

ensured_kept_example :
    drop_old_partitions notes noon 7 (ok new_names) new_names ≡ (new_names, ok [])
ensured_kept_example =
    ensured_kept notes noon 1 1 7 [] new_names new_names (omega arith) (omega arith) ensured

abbrev old_names : List String
old_names = "quotes_1s_20240301" ∷ "quotes_1s_default" ∷ "quotes_1s_20240314" ∷ []

old_names-IsDated : All IsDated old_names
unfolding is_partition_day removeprefix parse_partition_day is_date
old_names-IsDated = (λ h. tt, (λ h. absurd cc, (λ h. tt, tt)))

drop_all-expired_example :
    drop_all notes midnight old_names [] ≡ drops notes (filter (expired midnight) old_names) []
drop_all-expired_example = drop_all-expired notes midnight old_names [] old_names-IsDated

-- A database of which only the number of spread events is looked at.
abbrev counts : Execute ℕ
counts (delete_before table cutoff) events = ok (if is_level_table table then events else 0, 1)
counts _ events = ok (events, 1)

counts_keeps : (s : Statement) (d : ℕ) → IsMaintenance s → d ≡ 7 → Given (λ r. r.0 ≡ 7) (counts s d)
counts_keeps (create_partition name from_ms to_ms) d q h = h
counts_keeps (drop_table name) d q h = h
counts_keeps (delete_before table cutoff) d q h = rw q h
counts_keeps (upsert_buckets table bucket_ms from_ms to_ms) d q h = h

abbrev config : RetentionConfig
config = record {
  enabled = true;
  raw_retention_days = 7;
  downsample_10s_retention_days = 30;
  downsample_1m_retention_days = 180;
  downsample_5m_retention_days = 365;
  spread_events_retention_days = some 0;
  partition_ahead_days = 2;
  maintenance_interval_hours = 24;
}

abbrev metrics : RetentionMetrics
metrics = record {
  last_run_at_ms = none;
  partitions_created = 0;
  partitions_dropped = 0;
  downsampled_rows = [];
  rows_deleted = [];
  storage_bytes = [];
  last_error = none;
}

run_once-Keeps_example :
    (run_once counts (λ d. ok old_names) (λ table d. ok 8192) config noon metrics 7).0 ≡ 7
run_once-Keeps_example =
    run_once-Keeps counts (λ d. d ≡ 7) counts_keeps config noon (λ d. ok old_names)
      (λ table d. ok 8192) refl metrics 7 refl

-- Quotes of a second, and their bucket of ten seconds.
abbrev at : ℤ → StoredQuote
at t = record {
  timestamp = t;
  exchange = "binance";
  symbol = "BTC-USDT";
  market_type = "spot";
  bid_price = lit 99 0;
  ask_price = lit 100 0;
  quote_age_ms = pos 40;
}

abbrev quotes : List StoredQuote
quotes = at noon ∷ at (pos 1710504001000) ∷ []

abbrev key : BucketKey
key = ((noon, "binance"), ("BTC-USDT", "spot"))

abbrev first_price : List Decimal → Decimal
first_price [] = lit 0 0
first_price (d ∷ ds) = d

abbrev forty : List ℤ → Decimal
forty ages = lit 40 0

whole_bucket_example :
    Row first_price forty none
      (filter (belongs 10000 key) quotes)
      (lookup key (run_level first_price forty 10000 noon (pos 1710504020000) quotes []))
unfolding ◌+ℤ◌ ◌*ℤ◌
whole_bucket_example =
    whole_bucket first_price forty 10000 (pos 171050400) noon (pos 1710504020000) quotes [] key
      (omega arith) (omega arith, (omega arith, tt)) refl (omega arith) (omega arith)

-- Both quotes are in the bucket.
belongs_run : filter (belongs 10000 key) quotes ≡ quotes
unfolding ◌+ℤ◌
belongs_run = refl

-- The next run comes a day later.
gap_unaggregated_example :
    lookup key (
      run_at first_price forty 3600000 10000
        (pos 1710590400000)
        quotes
        (run_at first_price forty 3600000 10000 noon quotes []))
    ≡ none
unfolding ◌-ℤ◌
gap_unaggregated_example =
    gap_unaggregated first_price forty 3600000 10000 noon (pos 1710590400000) quotes quotes [] key
      (λ h. omega arith, (λ h. omega arith, tt)) (λ h. omega arith, (λ h. omega arith, tt))
