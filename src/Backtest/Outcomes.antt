-- ===== src/Backtest/Outcomes.antt =====
-- What a run over valid ticks reports.
use p2p_treker.Prelude.{
  ℕ, zero, suc, min, ◌+◌, ◌≡◌, ◌↔◌, refl, sym, subst, Bool, true, inl, inr, none, List, [], ◌∷◌,
  ◌++◌, All, Bool-cases, filter, take, length, length-take, ltb,
}
use p2p_treker.Prelude.Int.{ℤ, ◌-ℤ◌, leb_ℤ}
use p2p_treker.Prelude.Dict.{Dict, insert, insert-All}
use p2p_treker.Prelude.Result.{Result, ok, err, Returns, ◌>>=◌}
use p2p_treker.Decimal.{Decimal}
use p2p_treker.Decimal.Key.{ltb_D_of_nonneg}
use p2p_treker.Models.{Exchange, exchange_key}
use p2p_treker.Models.Quote.{IsValid, validate_iff}
use p2p_treker.QuoteCache.{update}
use p2p_treker.QuoteCache.Invariant.{IsCache, empty_cache-IsCache, update-IsCache}
use p2p_treker.Spread.Engine.{TradingConfig, Fees, enabled_fees, update_taker_fee, compute_all}
use p2p_treker.Spread.Engine.Pairs.{All-append}
use p2p_treker.Spread.Engine.Table.{IsFees, IsFraction, TableRow, compute_all-Returns}
use p2p_treker.Spread.Events.{OpenEvents, ClosedEvent, flush_open, close}
use p2p_treker.Spread.Events.Bounds.{AllOpen, AllClosed, IsEvent, process-Bounded}
use p2p_treker.Backtest.{
  BacktestParams, BacktestResult, BaseSettings, Tick, Groups, Replay, quote_of, row_to_quote, given,
  average, trading_of, override_fees, groupby, feed_rows, tick_done, replay, starting, report, run,
}
use p2p_treker.Backtest.Groups.{ungrouped, groupby_lem}

-- A stored row that makes a valid quote.
abbrev pub IsTick : Tick → Type 0
IsTick row = IsValid (quote_of row 0)

-- What holds between the rounds of a run.
pub record IsReplay (threshold : Decimal) (s : Replay) : Type 0 where
  pub cached : IsCache s.cache
  pub opened : AllOpen threshold s.open_events
  pub closed : AllClosed threshold s.closed_events

-- The next statement of a block of which the first one returns.
returned :
    {A B : Type 0} (P : A → Type 0) (Q : B → Type 0) (m : Result A) (f : A → Result B)
    → Returns P m
    → ((a : A) → P a → Returns Q (f a))
    → Returns Q (m >>= f)
returned P Q (err e) f h k = h
returned P Q (ok a) f h k = k a h

All-split : (P : Tick → Type 0) (xs ys : List Tick) → All P (xs ++ ys) → All P xs × All P ys
All-split P [] ys h = (tt, h)
All-split P (x ∷ xs) ys h = let (a, b) = All-split P xs ys h.1 in ((h.0, a), b)

All-take : (P : Tick → Type 0) (n : ℕ) (xs : List Tick) → All P xs → All P (take n xs)
All-take P zero xs h = tt
All-take P (suc n) [] h = tt
All-take P (suc n) (x ∷ xs) h = (h.0, All-take P n xs h.1)

override_fees-Returns :
    (fees : Fees) (overrides : Dict Exchange Decimal)
    → IsFees fees
    → IsFees overrides
    → Returns IsFees (override_fees fees overrides)
unfolding override_fees update_taker_fee
override_fees-Returns fees [] h k = h
override_fees-Returns fees ((exchange, fee) ∷ rest) h k = rw (ltb_D_of_nonneg fee k.0.nonneg) (
    override_fees-Returns (insert exchange fee fees) rest
      (insert-All IsFraction exchange fee fees k.0 h) k.1)

tick-ok : (row : Tick) (n : ℕ) → IsTick row → row_to_quote row n ≡ ok (quote_of row n)
unfolding row_to_quote
tick-ok row n v = (validate_iff (quote_of row n)).1 (record {
  bid_pos = v.bid_pos;
  bid_quantity_nonneg = v.bid_quantity_nonneg;
  ask_pos = v.ask_pos;
  ask_quantity_nonneg = v.ask_quantity_nonneg;
})

feed_rows-Returns :
    (threshold : Decimal) (s : Replay) (rows : List Tick)
    → All IsTick rows
    → IsReplay threshold s
    → Returns (IsReplay threshold) (feed_rows s rows)
unfolding feed_rows
feed_rows-Returns threshold s [] h v = v
feed_rows-Returns threshold s (row ∷ rows) h v = rw (tick-ok row (s.sequence + 1) h.0) (
    let row_valid : IsValid (quote_of row (s.sequence + 1)) = record {
      bid_pos = h.0.bid_pos;
      bid_quantity_nonneg = h.0.bid_quantity_nonneg;
      ask_pos = h.0.ask_pos;
      ask_quantity_nonneg = h.0.ask_quantity_nonneg;
    } in
    feed_rows-Returns threshold
      (record s {
        cache = (update s.cache (quote_of row (s.sequence + 1))).0;
        sequence = s.sequence + 1;
      })
      rows h.1
      (record {
        cached = update-IsCache s.cache (quote_of row (s.sequence + 1)) row_valid v.cached;
        opened = v.opened;
        closed = v.closed;
      }))

module _ (trading : TradingConfig) (fees : Fees) (threshold : Decimal) (charged : IsFees fees) where
  tick_done-Returns :
      (ts : ℤ) (s : Replay)
      → IsReplay threshold s
      → Returns (IsReplay threshold) (tick_done trading fees threshold ts s)
  unfolding tick_done
  tick_done-Returns ts s v =
      returned (All (TableRow trading fees trading.symbols)) (IsReplay threshold)
        (compute_all trading fees s.cache ts) _
        (compute_all-Returns trading fees s.cache ts v.cached charged)
        λ rows h.
          let (o, c) = process-Bounded threshold ts s.open_events rows v.opened in
          record {
            cached = v.cached;
            opened = o;
            closed = All-append _ s.closed_events _ v.closed c;
          }

  replay-Returns :
      (s : Replay) (groups : Groups)
      → All IsTick (ungrouped groups)
      → IsReplay threshold s
      → Returns (IsReplay threshold) (replay trading fees threshold s groups)
  unfolding replay
  replay-Returns s [] h v = v
  replay-Returns s ((ts, rows) ∷ groups) h v =
      let (now, later) = All-split IsTick rows (ungrouped groups) h in
      returned (IsReplay threshold) (IsReplay threshold) (feed_rows s rows) _
        (feed_rows-Returns threshold s rows now v)
        λ fed w.
          returned (IsReplay threshold) (IsReplay threshold)
            (tick_done trading fees threshold ts fed) _ (tick_done-Returns ts fed w)
            λ next x. replay-Returns next groups later x

starting-IsReplay :
    (threshold : Decimal) (params : BacktestParams) → IsReplay threshold (starting params)
unfolding starting
starting-IsReplay threshold params = record {
  cached = empty_cache-IsCache;
  opened = tt;
  closed = tt;
}

-- The events that are left open are closed as they are.
flushed-AllClosed :
    (threshold : Decimal) (o : OpenEvents) (now_ms : ℤ)
    → AllOpen threshold o
    → AllClosed threshold (flush_open threshold o now_ms).1
unfolding flush_open close
flushed-AllClosed threshold [] now_ms h = tt
flushed-AllClosed threshold (entry ∷ o) now_ms h = (h.0, flushed-AllClosed threshold o now_ms h.1)

abbrev pub lasts : ℤ → ClosedEvent → Bool
lasts min_ms e = leb_ℤ min_ms (e.end_timestamp -ℤ e.event.start_timestamp)

filter-All :
    (P : ClosedEvent → Type 0) (min_ms : ℤ) (es : List ClosedEvent)
    → All P es
    → All (λ e. P e × (lasts min_ms e ≡ true)) (filter (lasts min_ms) es)
filter-All P min_ms [] h = tt
filter-All P min_ms (e ∷ es) h = elim (Bool-cases (lasts min_ms e)) [
  | inl t ↦ rw t ((h.0, t), filter-All P min_ms es h.1)
  | inr f ↦ rw f (filter-All P min_ms es h.1)
]

-- What a result says of its own run.
pub record IsReported (base : BaseSettings) (params : BacktestParams) (loaded : List Tick)
    (r : BacktestResult) : Type 0 where
  pub ticks : r.ticks_processed ≡ min base.max_ticks_per_run (length loaded)
  pub cut : r.truncated ≡ ltb base.max_ticks_per_run (length loaded)
  pub counted : r.total_events ≡ length r.events
  pub reported :
      All
        (λ e.
          IsEvent (given params.spread_threshold base.spread_threshold) e.event
          × (lasts params.min_duration_ms e ≡ true))
        r.events
  pub averaged : (r.average_pnl_per_event ≡ none) ↔ (r.events ≡ [])

average-none : (d : Decimal) (es : List ClosedEvent) → (average d (length es) ≡ none) ↔ (es ≡ [])
average-none d [] = ((λ h. refl), (λ h. refl))
average-none d (e ∷ es) = ((λ h. absurd cc), (λ h. absurd cc))

report-IsReported :
    (base : BaseSettings) (params : BacktestParams) (loaded : List Tick) (s : Replay)
    → IsReplay (given params.spread_threshold base.spread_threshold) s
    → IsReported base params loaded (
        report params
          (given params.spread_threshold base.spread_threshold)
          (length (take base.max_ticks_per_run loaded))
          (ltb base.max_ticks_per_run (length loaded))
          s)
unfolding report
report-IsReported base params loaded s v =
    let threshold = given params.spread_threshold base.spread_threshold in
    let flushed = (flush_open threshold s.open_events s.last_ts).1 in
    record {
      ticks = length-take base.max_ticks_per_run loaded;
      cut = refl;
      counted = refl;
      reported =
          filter-All (λ e. IsEvent threshold e.event) params.min_duration_ms
            (s.closed_events ++ flushed)
            (All-append _ s.closed_events flushed v.closed
              (flushed-AllClosed threshold s.open_events s.last_ts v.opened));
      averaged =
          average-none _ (filter (lasts params.min_duration_ms) (s.closed_events ++ flushed));
    }

-- A run over valid ticks, with fees from 0 to 1, raises nothing. It processes the first
-- `max_ticks_per_run` ticks and says whether there were more; it reports, and counts, only events
-- that lasted the minimal duration, whose start is at least the threshold and at most the maximum
-- and whose sum lies between as many thresholds and as many maxima as there are samples; and it
-- gives no average exactly if there is no event.
pub run-Returns :
    (base : BaseSettings) (params : BacktestParams) (loaded : List Tick)
    → IsFees (enabled_fees base.exchanges)
    → IsFees params.fee_overrides
    → All IsTick loaded
    → Returns (IsReported base params loaded) (run base params loaded)
unfolding run
run-Returns base params loaded charged overridden ticks =
    let threshold = given params.spread_threshold base.spread_threshold in
    let rows = take base.max_ticks_per_run loaded in
    let grouped : ungrouped (groupby rows) ≡ rows = (groupby_lem rows).0 in
    returned IsFees (IsReported base params loaded)
      (override_fees (enabled_fees base.exchanges) params.fee_overrides) _
      (override_fees-Returns (enabled_fees base.exchanges) params.fee_overrides charged overridden)
      λ fees h.
        returned (IsReplay threshold) (IsReported base params loaded)
          (replay (trading_of base params) fees threshold (starting params) (groupby rows)) _
          (replay-Returns (trading_of base params) fees threshold h (starting params) (groupby rows)
            (subst (All IsTick) (sym grouped) (All-take IsTick base.max_ticks_per_run loaded ticks))
            (starting-IsReplay threshold params))
          λ final v. report-IsReported base params loaded final v
