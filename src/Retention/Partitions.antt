-- ===== src/Retention/Partitions.antt =====
-- The partitions of `quotes_1s` (backend/app/database/partitioning.py).
use p2p_treker.Prelude.{
  ℕ, ◌*◌, ◌≡◌, refl, Bool, true, false, ◌&&◌, String, List, [], ◌∷◌, ◌++◌, filter, All,
  if◌then◌else◌,
}
use p2p_treker.Prelude.Int.{ℤ, pos, ◌+ℤ◌, ◌-ℤ◌, ltb_ℤ}
use p2p_treker.Prelude.Result.{Result, ok, err, Returns, ◌>>=◌}
use p2p_treker.Retention.{create_partition, drop_table, Execute, committed}
use p2p_treker.Retention.Days.{day_ms, day_bounds_ms, day_starts_in_range}
use p2p_treker.Retention.Names.{partition_name_for, is_partition_day, parse_partition_day}

module _ {Database : Type 0} (execute : Execute Database) where
  -- The loop of `ensure_partitions`.
  unfoldable pub create_all : List ℤ → Database → Result (Database × List String)
  unfolding partition_name_for
  create_all [] database = ok (database, [])
  create_all (day ∷ days) database = do
    name ← partition_name_for day
    done ← execute (create_partition name day (day +ℤ pos day_ms)) database
    rest ← create_all days done.0
    ok (rest.0, name ∷ rest.1)

  unfoldable pub ensure_partitions : ℤ → ℕ → ℕ → Database → Database × Result (List String)
  unfolding committed create_all day_starts_in_range day_bounds_ms
  ensure_partitions now_ms ahead_days behind_days database =
      let today = (day_bounds_ms now_ms).0 in
      committed database (
        create_all
          (day_starts_in_range (today -ℤ pos (behind_days * day_ms))
            (today +ℤ pos (ahead_days * day_ms)))
          database)

  -- A turn of the loop of `drop_old_partitions`, for a name that the guard accepts.
  unfoldable pub drop_if_old : ℤ → String → Database → Result ℤ → Result (Database × List String)
  drop_if_old cutoff name database (err raised) = err raised
  drop_if_old cutoff name database (ok day) =
      if ltb_ℤ day cutoff
      then (do done ← execute (drop_table name) database; ok (done.0, name ∷ []))
      else ok (database, [])

  unfoldable pub drop_all : ℤ → List String → Database → Result (Database × List String)
  unfolding is_partition_day parse_partition_day drop_if_old
  drop_all cutoff [] database = ok (database, [])
  drop_all cutoff (name ∷ names) database = do
    here ←
        if is_partition_day name
        then drop_if_old cutoff name database (parse_partition_day name)
        else ok (database, [])
    rest ← drop_all cutoff names here.0
    ok (rest.0, here.1 ++ rest.1)

  -- `names` is what `existing_partitions` reads.
  unfoldable pub drop_old_partitions :
      ℤ → ℕ → Result (List String) → Database → Database × Result (List String)
  unfolding committed drop_all day_bounds_ms
  drop_old_partitions now_ms retention_days (err raised) database = (database, err raised)
  drop_old_partitions now_ms retention_days (ok names) database =
      committed database
        (drop_all ((day_bounds_ms now_ms).0 -ℤ pos (retention_days * day_ms)) names database)

-- Whether a name is one of a day before the cutoff.
abbrev before : ℤ → Result ℤ → Bool
before cutoff (err raised) = false
before cutoff (ok day) = ltb_ℤ day cutoff

abbrev pub expired : ℤ → String → Bool
expired cutoff name = is_partition_day name && before cutoff (parse_partition_day name)

-- The date of a name that the guard accepts can be read.
abbrev pub IsDated : String → Type 0
IsDated name = is_partition_day name ≡ true → Returns (λ day. Unit) (parse_partition_day name)

module _ {Database : Type 0} (execute : Execute Database) where
  -- The names are dropped, one after the other.
  abbrev pub drops : List String → Database → Result (Database × List String)
  drops [] database = ok (database, [])
  drops (name ∷ names) database = do
    done ← execute (drop_table name) database
    rest ← drops names done.0
    ok (rest.0, name ∷ rest.1)

  module _ (cutoff : ℤ) (name : String) (names : List String)
      (others : (database : Database)
        → drop_all execute cutoff names database
          ≡ drops (filter (expired cutoff) names) database) where
    -- The rest of the loop, after the turn of `name`.
    abbrev after : Database × List String → Result (Database × List String)
    after here = drop_all execute cutoff names here.0 >>= λ rest. ok (rest.0, here.1 ++ rest.1)

    whole : (r : Result (Database × List String)) → (r >>= λ rest. ok (rest.0, rest.1)) ≡ r
    whole (err raised) = refl
    whole (ok (database, dropped)) = refl

    kept :
        (database : Database)
        → after (database, []) ≡ drops (filter (expired cutoff) names) database
    kept database = rw (others database) (whole (drops (filter (expired cutoff) names) database))

    dropped :
        (r : Result (Database × ℕ))
        → ((r >>= λ done. ok (done.0, name ∷ [])) >>= after) ≡ (
            r >>= λ done.
            drops (filter (expired cutoff) names) done.0 >>= λ rest. ok (rest.0, name ∷ rest.1))
    dropped (err raised) = refl
    dropped (ok (database, rows)) = rw (others database) refl

    tested :
        (old : Bool) (database : Database)
        → ((if old
              then (execute (drop_table name) database >>= λ done. ok (done.0, name ∷ []))
              else ok (database, []))
            >>= after)
          ≡ drops
              (if old then name ∷ filter (expired cutoff) names else filter (expired cutoff) names)
              database
    tested true database = dropped (execute (drop_table name) database)
    tested false database = kept database

    turn :
        (guard : Bool) (day : Result ℤ) (database : Database)
        → (guard ≡ true → Returns (λ d. Unit) day)
        → ((if guard then drop_if_old execute cutoff name database day else ok (database, []))
            >>= after)
          ≡ drops
              (if guard && before cutoff day
                then name ∷ filter (expired cutoff) names
                else filter (expired cutoff) names)
              database
    unfolding drop_if_old
    turn false day database h = kept database
    turn true (err raised) database h = absurd (h refl)
    turn true (ok day) database h = tested (ltb_ℤ day cutoff) database

  -- Where the dates of the listed partitions can be read, whatever the database does with a
  -- statement, exactly the partitions of the days before the cutoff are dropped, in their order;
  -- the others, and tables with other names, are left alone.
  pub drop_all-expired :
      (cutoff : ℤ) (names : List String) (database : Database)
      → All IsDated names
      → drop_all execute cutoff names database ≡ drops (filter (expired cutoff) names) database
  unfolding drop_all drop_if_old
  drop_all-expired cutoff [] database h = refl
  drop_all-expired cutoff (name ∷ names) database h =
      turn cutoff name names (λ d. drop_all-expired cutoff names d h.1) (is_partition_day name)
        (parse_partition_day name) database h.0
