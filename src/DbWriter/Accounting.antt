-- ===== src/DbWriter/Accounting.antt =====
-- Where the records have gone: the fate of each record that is offered to the writer.
use mathlib.Core.List.{Perm, append-nil, append_assoc}
use mathlib.Core.List.Perm
use p2p_treker.Prelude.{
  ℕ, ◌≤◌, ◌<◌, ◌≡◌, refl, sym, subst, inl, inr, Bool, ◌&&◌, true, false, String, List, [], ◌∷◌,
  ◌++◌, length, length-append, leb, ltb, arith, Bool-cases, if◌then◌else◌,
}
use p2p_treker.DbWriter.Places.{
  placed, queued, refused, displaced_oldest, taken, batch_lost, batch_written,
}
use p2p_treker.DbWriter.{
  DatabaseConfig, QueueOverflowPolicy, drop_oldest, drop_newest, block, Writer, new_writer, full,
  drop, accept, refuse, put_again, drop_oldest_put, overflow, enqueue, take_from, take_next,
  end_collection, finish_write, write, Action, enqueues, takes, ends_collection, writes, act, run,
}

module _ (Row : Type 0) (config : DatabaseConfig) where
  abbrev pub Item : Type 0
  Item = String × Row

  -- What an action offers, writes, loses and drops.
  pub offered_by : Writer Row → Action Row → List Item
  offered_by w (enqueues table row) = (table, row) ∷ []
  offered_by w _ = []

  pub written_by : Writer Row → Action Row → List Item
  written_by w (writes true ms) = w.batch
  written_by w _ = []

  pub failed_by : Writer Row → Action Row → List Item
  failed_by w (writes false ms) = w.batch
  failed_by w _ = []

  -- The policy `drop_oldest` drops the head of the queue, the others the record that comes.
  abbrev pub victim : QueueOverflowPolicy → List Item → Item → List Item
  victim drop_oldest [] item = item ∷ []
  victim drop_oldest (oldest ∷ queue) item = oldest ∷ []
  victim drop_newest queue item = item ∷ []
  victim block queue item = item ∷ []

  unfoldable pub dropped_by : Writer Row → Action Row → List Item
  dropped_by w (enqueues table row) =
      if ltb 0 config.write_queue_size && leb config.write_queue_size (length w.queue)
      then victim config.queue_overflow_policy w.queue (table, row)
      else []
  dropped_by w _ = []

  -- What the actions of a run do so, in their order.
  unfoldable pub gathered :
      (Writer Row → Action Row → List Item) → Writer Row → List (Action Row) → List Item
  gathered f w [] = []
  gathered f w (a ∷ actions) = f w a ++ gathered f (act Row config w a) actions

  -- The records that were offered are, each as often as it was offered, those that were written,
  -- were lost with a batch, were dropped, and are in the batch and in the queue.
  pub record IsAccounted (offered written failed dropped : List Item) (w : Writer Row)
      : Type 0 where
    pub places : Perm offered (placed written failed dropped w.batch w.queue)
    pub written_counted : w.metrics.written_total ≡ length written
    pub dropped_counted : w.metrics.dropped_total ≡ length dropped
    pub bounded : 0 < config.write_queue_size → length w.queue ≤ config.write_queue_size

  fits_after :
      (y : Item) (queue : List Item)
      → (0 < config.write_queue_size → length (y ∷ queue) ≤ config.write_queue_size)
      → full Row config (y ∷ queue) ≡ true
      → full Row config queue ≡ false
  unfolding full
  fits_after y queue h p = ground arith

  empty_not_full : full Row config [] ≡ true → ⊥
  unfolding full
  empty_not_full p = ground arith

  room_for :
      (x : Item) (queue : List Item)
      → full Row config queue ≡ false
      → 0 < config.write_queue_size
      → length (queue ++ (x ∷ [])) ≤ config.write_queue_size
  unfolding full
  room_for x queue h p = grind (arith, length-append queue (x ∷ []))

  module _ (o wr fl d : List Item) (w : Writer Row) (x : Item) where
    accept-IsAccounted :
        full Row config w.queue ≡ false
        → IsAccounted o wr fl d w
        → IsAccounted (o ++ (x ∷ [])) wr fl d (accept Row w (w.queue ++ (x ∷ [])) w.metrics).0
    unfolding accept
    accept-IsAccounted h v = record {
      places = queued wr fl d w.batch w.queue o x v.places;
      written_counted = v.written_counted;
      dropped_counted = v.dropped_counted;
      bounded = room_for x w.queue h;
    }

    refuse-IsAccounted :
        IsAccounted o wr fl d w
        → IsAccounted (o ++ (x ∷ [])) wr fl (d ++ (x ∷ [])) (refuse Row w w.metrics).0
    unfolding refuse drop
    refuse-IsAccounted v = record {
      places = refused wr fl d w.batch w.queue o x v.places;
      written_counted = v.written_counted;
      dropped_counted = omega (arith, v.dropped_counted, length-append d (x ∷ []));
      bounded = v.bounded;
    }

    drop_oldest-IsAccounted :
        (queue : List Item)
        → w.queue ≡ queue
        → full Row config queue ≡ true
        → IsAccounted o wr fl d w
        → IsAccounted
            (o ++ (x ∷ []))
            wr
            fl
            (d ++ victim drop_oldest queue x)
            (drop_oldest_put Row config w queue x).0
    unfolding drop_oldest_put put_again accept drop
    drop_oldest-IsAccounted [] e h v = absurd (empty_not_full h)
    drop_oldest-IsAccounted (y ∷ queue) e h v =
        let p = rw e at v.places in
        let b = rw e at v.bounded in
        let free = fits_after y queue b h in
        rw free (record {
          places =
              queued wr fl (d ++ (y ∷ [])) w.batch queue o x
                (displaced_oldest wr fl d w.batch queue o y p);
          written_counted = v.written_counted;
          dropped_counted = omega (arith, v.dropped_counted, length-append d (y ∷ []));
          bounded = room_for x queue free;
        })

    overflow-IsAccounted :
        (policy : QueueOverflowPolicy)
        → full Row config w.queue ≡ true
        → IsAccounted o wr fl d w
        → IsAccounted
            (o ++ (x ∷ []))
            wr
            fl
            (d ++ victim policy w.queue x)
            (overflow Row config policy w x).0
    unfolding overflow
    overflow-IsAccounted drop_oldest h v = drop_oldest-IsAccounted w.queue refl h v
    overflow-IsAccounted drop_newest h v = refuse-IsAccounted v
    overflow-IsAccounted block h v = refuse-IsAccounted v

  enqueue-IsAccounted :
      (o wr fl d : List Item) (w : Writer Row) (table : String) (row : Row)
      → IsAccounted o wr fl d w
      → IsAccounted
          (o ++ ((table, row) ∷ []))
          wr
          fl
          (d ++ dropped_by w (enqueues table row))
          (enqueue Row config w table row).0
  unfolding enqueue dropped_by full
  enqueue-IsAccounted o wr fl d w table row v = elim (Bool-cases (full Row config w.queue)) [
    | inl t ↦ rw t (overflow-IsAccounted o wr fl d w (table, row) config.queue_overflow_policy t v)
    | inr f ↦ rw (f, append-nil d) (accept-IsAccounted o wr fl d w (table, row) f v)
  ]

  take_from-IsAccounted :
      (o wr fl d : List Item) (w : Writer Row) (queue : List Item)
      → w.queue ≡ queue
      → IsAccounted o wr fl d w
      → IsAccounted o wr fl d (take_from Row config w queue)
  unfolding take_from
  take_from-IsAccounted o wr fl d w [] e v = v
  take_from-IsAccounted o wr fl d w (x ∷ queue) e v =
      let b = rw e at v.bounded in
      elim (Bool-cases (ltb (length w.batch) config.batch_max_rows)) [
        | inl t ↦ rw t (record {
          places = taken wr fl d w.batch queue o x (rw e at v.places);
          written_counted = v.written_counted;
          dropped_counted = v.dropped_counted;
          bounded = λ p. omega (arith, b p);
        })
        | inr f ↦ rw f v
      ]

  finish_write-IsAccounted :
      (o wr fl d : List Item) (w : Writer Row) (flushed : Bool) (ms : ℕ)
      → IsAccounted o wr fl d w
      → IsAccounted o
          (wr ++ written_by w (writes flushed ms))
          (fl ++ failed_by w (writes flushed ms))
          d
          (finish_write Row w flushed ms)
  unfolding finish_write written_by failed_by
  finish_write-IsAccounted o wr fl d w true ms v = rw (append-nil fl) (record {
    places = batch_written wr fl d w.batch w.queue o v.places;
    written_counted = omega (arith, v.written_counted, length-append wr w.batch);
    dropped_counted = v.dropped_counted;
    bounded = v.bounded;
  })
  finish_write-IsAccounted o wr fl d w false ms v = rw (append-nil wr) (record {
    places = batch_lost wr fl d w.batch w.queue o v.places;
    written_counted = v.written_counted;
    dropped_counted = v.dropped_counted;
    bounded = v.bounded;
  })

  write-IsAccounted :
      (o wr fl d : List Item) (w : Writer Row) (flushed : Bool) (ms : ℕ)
      → IsAccounted o wr fl d w
      → IsAccounted o
          (wr ++ written_by w (writes flushed ms))
          (fl ++ failed_by w (writes flushed ms))
          d
          (write Row w flushed ms)
  unfolding write written_by failed_by
  write-IsAccounted o wr fl d w flushed ms v = by_batch w.batch refl
    where
      empty :
          (b : Bool)
          → w.batch ≡ []
          → IsAccounted o (wr ++ written_by w (writes b ms)) (fl ++ failed_by w (writes b ms)) d w
      empty true e =
          subst (λ (l : List Item). IsAccounted o (wr ++ l) (fl ++ []) d w) (sym e)
            (rw (append-nil wr, append-nil fl) v)
      empty false e =
          subst (λ (l : List Item). IsAccounted o (wr ++ []) (fl ++ l) d w) (sym e)
            (rw (append-nil wr, append-nil fl) v)

      by_batch :
          (batch : List Item)
          → w.batch ≡ batch
          → IsAccounted o
              (wr ++ written_by w (writes flushed ms))
              (fl ++ failed_by w (writes flushed ms))
              d
              (elim batch [ [] ↦ w | _ ∷ _ ↦ finish_write Row w flushed ms ])
      by_batch [] e = empty flushed e
      by_batch (x ∷ xs) e = finish_write-IsAccounted o wr fl d w flushed ms v

  act-IsAccounted :
      (o wr fl d : List Item) (w : Writer Row) (a : Action Row)
      → IsAccounted o wr fl d w
      → IsAccounted
          (o ++ offered_by w a)
          (wr ++ written_by w a)
          (fl ++ failed_by w a)
          (d ++ dropped_by w a)
          (act Row config w a)
  unfolding act offered_by written_by failed_by dropped_by take_next end_collection
  act-IsAccounted o wr fl d w (enqueues table row) v =
      rw (append-nil wr, append-nil fl) (enqueue-IsAccounted o wr fl d w table row v)
  act-IsAccounted o wr fl d w takes v =
      rw (append-nil o, append-nil wr, append-nil fl, append-nil d)
        (take_from-IsAccounted o wr fl d w w.queue refl v)
  act-IsAccounted o wr fl d w ends_collection v =
      rw (append-nil o, append-nil wr, append-nil fl, append-nil d)
        (record {
          places = v.places;
          written_counted = v.written_counted;
          dropped_counted = v.dropped_counted;
          bounded = v.bounded;
        })
  act-IsAccounted o wr fl d w (writes flushed ms) v =
      rw (append-nil o, append-nil d) (write-IsAccounted o wr fl d w flushed ms v)

  run_from :
      (o wr fl d : List Item) (w : Writer Row) (actions : List (Action Row))
      → IsAccounted o wr fl d w
      → IsAccounted
          (o ++ gathered offered_by w actions)
          (wr ++ gathered written_by w actions)
          (fl ++ gathered failed_by w actions)
          (d ++ gathered dropped_by w actions)
          (run Row config w actions)
  unfolding run gathered
  run_from o wr fl d w [] v = rw (append-nil o, append-nil wr, append-nil fl, append-nil d) v
  run_from o wr fl d w (a ∷ actions) v =
      let next = act Row config w a in
      rw
        (
          ← append_assoc o (offered_by w a) (gathered offered_by next actions),
          ← append_assoc wr (written_by w a) (gathered written_by next actions),
          ← append_assoc fl (failed_by w a) (gathered failed_by next actions),
          ← append_assoc d (dropped_by w a) (gathered dropped_by next actions),
        )
        (run_from (o ++ offered_by w a) (wr ++ written_by w a) (fl ++ failed_by w a)
          (d ++ dropped_by w a) next actions (act-IsAccounted o wr fl d w a v))

  new_writer-IsAccounted : IsAccounted [] [] [] [] (new_writer Row)
  unfolding new_writer
  new_writer-IsAccounted = record {
    places = Perm.refl [];
    written_counted = refl;
    dropped_counted = refl;
    bounded = λ p. omega arith;
  }

  -- In any run of a new writer, whatever its policy, the records that were offered to `enqueue` are,
  -- up to their order, those of the batches that were written, those of the batches that failed, those
  -- that a full queue dropped, and those still in the batch and in the queue, each as often as it was
  -- offered. A full queue drops its oldest record under `drop_oldest` and the record that comes under
  -- the other policies. The counters of written and of dropped records are the numbers of such records,
  -- and the queue never exceeds a configured bound.
  pub run-IsAccounted :
      (actions : List (Action Row))
      → IsAccounted
          (gathered offered_by (new_writer Row) actions)
          (gathered written_by (new_writer Row) actions)
          (gathered failed_by (new_writer Row) actions)
          (gathered dropped_by (new_writer Row) actions)
          (run Row config (new_writer Row) actions)
  run-IsAccounted actions = run_from [] [] [] [] (new_writer Row) actions new_writer-IsAccounted
