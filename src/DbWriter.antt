-- ===== src/DbWriter.antt =====
-- The asynchronous writer (backend/app/database/writer.py): a bounded queue between the collectors
-- and the database, written in batches.
--
-- `enqueue` runs between two awaits of the consumer, so a run of the writer is a sequence of
-- actions: calls of `enqueue`, single `queue.get`s into the batch of `_collect_batch`, the end of
-- that collection, and the outcome of `_write`. Rows are of any type.
pub mod Places
pub mod Accounting
pub mod Grouping
use p2p_treker.Prelude.{
  ℕ, ◌+◌, ◌≡◌, Bool, true, false, not, ◌&&◌, Option, none, some, String, List, [], ◌∷◌, ◌++◌,
  length, leb, ltb, ◌==◌, if◌then◌else◌,
}
use p2p_treker.Prelude.Dict.{Dict, lookup_or, insert, string_key}

pub data QueueOverflowPolicy : Type 0 where
  block drop_oldest drop_newest : QueueOverflowPolicy

pub record DatabaseConfig : Type 0 where
  pub write_queue_size : ℕ
  pub queue_overflow_policy : QueueOverflowPolicy
  pub batch_max_rows : ℕ

pub record WriterMetrics : Type 0 where
  pub enqueued_total : ℕ
  pub written_total : ℕ
  pub dropped_total : ℕ
  pub failed_batches : ℕ
  pub batches_total : ℕ
  pub last_batch_size : ℕ
  pub last_write_latency_ms : ℕ
  pub queue_size : ℕ

unfoldable pub no_metrics : WriterMetrics
no_metrics = record {
  enqueued_total = 0;
  written_total = 0;
  dropped_total = 0;
  failed_batches = 0;
  batches_total = 0;
  last_batch_size = 0;
  last_write_latency_ms = 0;
  queue_size = 0;
}

-- `_drop`
pub drop : WriterMetrics → ℕ → WriterMetrics
drop m n = record m { dropped_total = m.dropped_total + n }

module _ (Row : Type 0) where
  -- The batch is the local variable of `_run`, from one `_write` to the next.
  pub record Writer : Type 0 where
    pub queue : List (String × Row)
    pub batch : List (String × Row)
    pub metrics : WriterMetrics

  unfoldable pub new_writer : Writer
  unfolding no_metrics
  new_writer = record { queue = []; batch = []; metrics = no_metrics }

  -- `asyncio.Queue.full`: a size of 0 is no bound.
  pub full : DatabaseConfig → List (String × Row) → Bool
  full config queue = ltb 0 config.write_queue_size && leb config.write_queue_size (length queue)

  -- The end of `enqueue`, with the item in the queue.
  accept : Writer → List (String × Row) → WriterMetrics → Writer × Bool
  accept w queue m = (
    record w {
      queue = queue;
      metrics = record m { enqueued_total = m.enqueued_total + 1; queue_size = length queue };
    },
    true,
  )

  refuse : Writer → WriterMetrics → Writer × Bool
  unfolding drop
  refuse w m = (record w { metrics = drop m 1 }, false)

  -- The second `put_nowait`, after the oldest record has gone.
  put_again :
      DatabaseConfig → Writer → List (String × Row) → WriterMetrics → String × Row → Writer × Bool
  unfolding full accept refuse
  put_again config w queue m item =
      if full config queue
      then refuse (record w { queue = queue }) m
      else accept w (queue ++ (item ∷ [])) m

  drop_oldest_put : DatabaseConfig → Writer → List (String × Row) → String × Row → Writer × Bool
  unfolding drop put_again
  drop_oldest_put config w [] item = put_again config w [] w.metrics item
  drop_oldest_put config w (_ ∷ queue) item = put_again config w queue (drop w.metrics 1) item

  -- What happens on `QueueFull`.
  overflow : DatabaseConfig → QueueOverflowPolicy → Writer → String × Row → Writer × Bool
  unfolding refuse drop_oldest_put
  overflow config drop_newest w item = refuse w w.metrics
  overflow config drop_oldest w item = drop_oldest_put config w w.queue item
  overflow config block w item = refuse w w.metrics

  unfoldable pub enqueue : DatabaseConfig → Writer → String → Row → Writer × Bool
  unfolding full accept overflow
  enqueue config w table row =
      if full config w.queue
      then overflow config config.queue_overflow_policy w (table, row)
      else accept w (w.queue ++ ((table, row) ∷ [])) w.metrics

  -- One `await self._queue.get()` of `_collect_batch`, whose loop runs below `batch_max_rows`.
  take_from : DatabaseConfig → Writer → List (String × Row) → Writer
  take_from config w [] = w
  take_from config w (item ∷ queue) =
      if ltb (length w.batch) config.batch_max_rows
      then record w { queue = queue; batch = w.batch ++ (item ∷ []) }
      else w

  unfoldable pub take_next : DatabaseConfig → Writer → Writer
  unfolding take_from
  take_next config w = take_from config w w.queue

  -- The end of `_collect_batch`.
  pub end_collection : Writer → Writer
  end_collection w = record w { metrics = record w.metrics { queue_size = length w.queue } }

  -- `grouped.setdefault(table, []).append(row)`
  pub group_item : Dict String (List Row) → String → Row → Dict String (List Row)
  group_item grouped table row = insert table (lookup_or table [] grouped ++ (row ∷ [])) grouped

  pub group_from : Dict String (List Row) → List (String × Row) → Dict String (List Row)
  unfolding group_item
  group_from grouped [] = grouped
  group_from grouped ((table, row) ∷ batch) = group_from (group_item grouped table row) batch

  -- `_write`, by whether `flush` returned, and the milliseconds that it took.
  unfoldable pub finish_write : Writer → Bool → ℕ → Writer
  finish_write w true latency_ms = record w {
    batch = [];
    metrics = record w.metrics {
      batches_total = w.metrics.batches_total + 1;
      last_batch_size = length w.batch;
      written_total = w.metrics.written_total + length w.batch;
      last_write_latency_ms = latency_ms;
    };
  }
  finish_write w false latency_ms = record w {
    batch = [];
    metrics = record w.metrics { failed_batches = w.metrics.failed_batches + 1 };
  }

  -- `if batch: await self._write(batch)`
  unfoldable pub write : Writer → Bool → ℕ → Writer
  unfolding finish_write
  write w flushed latency_ms = elim w.batch [ [] ↦ w | _ ∷ _ ↦ finish_write w flushed latency_ms ]

  pub data Action : Type 0 where
    enqueues : String → Row → Action
    takes : Action
    ends_collection : Action
    writes : Bool → ℕ → Action

  unfoldable pub act : DatabaseConfig → Writer → Action → Writer
  unfolding enqueue take_next end_collection write
  act config w (enqueues table row) = (enqueue config w table row).0
  act config w takes = take_next config w
  act config w ends_collection = end_collection w
  act config w (writes flushed latency_ms) = write w flushed latency_ms

  unfoldable pub run : DatabaseConfig → Writer → List Action → Writer
  unfolding act
  run config w [] = w
  run config w (a ∷ actions) = run config (act config w a) actions
