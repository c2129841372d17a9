-- ===== src/Retention.antt =====
-- What is kept of the stored quotes, and for how long (backend/app/database/retention.py and
-- partitioning.py, backend/app/services/retention_manager.py and downsampler.py).
--
-- A session is given the database and returns it with what the code reads. What the database does
-- with a statement is an argument; a session that an exception leaves is rolled back.
pub mod Calendar
pub mod Days
pub mod Names
pub mod Partitions
pub mod Fresh
pub mod Downsampler
pub mod Buckets
pub mod Summary
pub mod Windows
pub mod Manager
pub mod Safety
use p2p_treker.Prelude.{ℕ, String}
use p2p_treker.Prelude.Int.{ℤ}
use p2p_treker.Prelude.Result.{Result, ok, err}

-- The statements that change the database: a daily partition that is created if its name is not
-- there, a table that is dropped if it is, the rows of a table before a time, and the aggregation of
-- the quotes of an interval into buckets of a table.
pub data Statement : Type 0 where
  create_partition : String → ℤ → ℤ → Statement
  drop_table : String → Statement
  delete_before : String → ℤ → Statement
  upsert_buckets : String → ℕ → ℤ → ℤ → Statement

-- A statement's effect and its row count.
abbrev pub Execute : Type 0 → Type 0
Execute Database = Statement → Database → Result (Database × ℕ)

-- The end of a session.
unfoldable pub committed :
    {Database A : Type 0} → Database → Result (Database × A) → Database × Result A
committed before (err raised) = (before, err raised)
committed before (ok (after, result)) = (after, ok result)
