-- ===== src/Recorder.antt =====
-- The recorder of the history (backend/app/services/history_recorder.py): quotes of the cache and
-- closed spread events, given to the database writer.
--
-- Its two loops, its end and the consumer of the writer share one event loop: a history is a list of
-- ticks. The cache and the fees at a tick are part of it, since others change them between ticks.
pub mod Sampling
use p2p_treker.Prelude.{
  ℕ, Option, none, some, String, List, [], ◌∷◌, ◌++◌, map, length, if◌then◌else◌,
}
use p2p_treker.Prelude.Int.{ℤ}
use p2p_treker.Prelude.Dict.{Dict}
use p2p_treker.Prelude.Result.{Result, ok, err}
use p2p_treker.Decimal.{Decimal}
use p2p_treker.Models.{Exchange, MarketType}
use p2p_treker.Models.Quote.{NormalizedQuote, quote_age_ms}
use p2p_treker.QuoteCache.{QuoteCache, get}
use p2p_treker.Spread.Engine.{TradingConfig, ExchangeConfig, Fees, SpreadRow, compute_all}
use p2p_treker.Spread.Events.{OpenEvents, ClosedEvent, process, flush_open}
use p2p_treker.DbWriter.{DatabaseConfig, Writer, new_writer, Action, enqueue, act}

-- A row of `quotes_1s`.
pub record QuoteRow : Type 0 where
  pub timestamp : ℤ
  pub exchange : Exchange
  pub symbol : String
  pub market_type : MarketType
  pub bid_price : Decimal
  pub bid_quantity : Decimal
  pub ask_price : Decimal
  pub ask_quantity : Decimal
  pub exchange_timestamp : ℤ
  pub received_timestamp : ℤ
  pub age_ms : ℤ

pub data Row : Type 0 where
  quote_row : QuoteRow → Row
  event_row : ClosedEvent → Row

unfoldable pub quote_sample : ℤ → NormalizedQuote → Row
unfolding quote_age_ms
quote_sample current q = quote_row (record {
  timestamp = current;
  exchange = q.exchange;
  symbol = q.symbol;
  market_type = q.market_type;
  bid_price = q.bid_price;
  bid_quantity = q.bid_quantity;
  ask_price = q.ask_price;
  ask_quantity = q.ask_quantity;
  exchange_timestamp = q.exchange_timestamp;
  received_timestamp = q.received_timestamp;
  age_ms = quote_age_ms q current;
})

abbrev pub sample_of : ℤ → Option NormalizedQuote → List Row
sample_of current none = []
sample_of current (some q) = quote_sample current q ∷ []

-- The symbols of one exchange, and all exchanges that are enabled.
unfoldable pub samples_of : Exchange → MarketType → QuoteCache → ℤ → List String → List Row
unfolding get
samples_of exchange market cache current [] = []
samples_of exchange market cache current (symbol ∷ symbols) =
    sample_of current (get cache exchange market symbol)
    ++ samples_of exchange market cache current symbols

unfoldable pub sample_rows :
    TradingConfig → Dict Exchange ExchangeConfig → QuoteCache → ℤ → List Row
unfolding samples_of
sample_rows trading [] cache current = []
sample_rows trading ((exchange, settings) ∷ exchanges) cache current =
    let rest = sample_rows trading exchanges cache current in
    if settings.enabled
    then samples_of exchange trading.market_type cache current trading.symbols ++ rest
    else rest

pub record Recorder : Type 0 where
  pub writer : Writer Row
  pub open_events : OpenEvents

unfoldable pub new_recorder : Recorder
new_recorder = record { writer = new_writer Row; open_events = [] }

-- The settings of the recorder: the exchanges of the application and the threshold of the events.
pub record Recording : Type 0 where
  pub database : DatabaseConfig
  pub trading : TradingConfig
  pub exchanges : Dict Exchange ExchangeConfig
  pub threshold : Decimal

unfoldable pub enqueue_all : DatabaseConfig → String → Writer Row → List Row → Writer Row
unfolding enqueue
enqueue_all config table w [] = w
enqueue_all config table w (row ∷ rows) =
    enqueue_all config table (enqueue Row config w table row).0 rows

module _ (s : Recording) where
  -- With the number of rows.
  unfoldable pub sample_quotes_once : Recorder → QuoteCache → ℤ → Recorder × ℕ
  unfolding sample_rows enqueue_all
  sample_quotes_once r cache current =
      let rows = sample_rows s.trading s.exchanges cache current in
      (record r { writer = enqueue_all s.database "quotes_1s" r.writer rows }, length rows)

  unfoldable pub enqueue_events :
      Recorder → OpenEvents × List ClosedEvent → Recorder × List ClosedEvent
  unfolding enqueue_all
  enqueue_events r (open_events, closed) = (
    record r {
      writer = enqueue_all s.database "spread_events" r.writer (map event_row closed);
      open_events = open_events;
    },
    closed,
  )

  -- An exception of `compute_all` is logged by the loop.
  unfoldable pub process_rows : Recorder → Result (List SpreadRow) → ℤ → Recorder × List ClosedEvent
  unfolding process enqueue_events
  process_rows r (err raised) now_ms = (r, [])
  process_rows r (ok rows) now_ms = enqueue_events r (process s.threshold r.open_events rows now_ms)

  unfoldable pub process_events_once :
      Recorder → Fees → QuoteCache → ℤ → ℤ → Recorder × List ClosedEvent
  unfolding compute_all process_rows
  process_events_once r fees cache computed_at now_ms =
      process_rows r (compute_all s.trading fees cache computed_at) now_ms

  -- The open events are closed at the end.
  unfoldable pub stop : Recorder → ℤ → Recorder × List ClosedEvent
  unfolding flush_open enqueue_events
  stop r now_ms = enqueue_events r (flush_open s.threshold r.open_events now_ms)

pub data Tick : Type 0 where
  samples : QuoteCache → ℤ → Tick
  tracks : Fees → QuoteCache → ℤ → ℤ → Tick
  stops : ℤ → Tick
  works : Action Row → Tick

module _ (s : Recording) where
  unfoldable pub tick : Recorder → Tick → Recorder
  unfolding sample_quotes_once process_events_once stop act
  tick r (samples cache current) = (sample_quotes_once s r cache current).0
  tick r (tracks fees cache computed_at now_ms) =
      (process_events_once s r fees cache computed_at now_ms).0
  tick r (stops now_ms) = (stop s r now_ms).0
  tick r (works action) = record r { writer = act Row s.database r.writer action }

  unfoldable pub ticks : Recorder → List Tick → Recorder
  unfolding tick
  ticks r [] = r
  ticks r (t ∷ ts) = ticks (tick r t) ts
