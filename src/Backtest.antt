-- ===== src/Backtest.antt =====
-- The backtest (backend/app/backtesting/engine.py): stored ticks through the live spread engine and
-- event tracker. The rows that `_load_ticks` returns are an argument.
pub mod Groups
pub mod Outcomes
use p2p_treker.Prelude.{
  ℕ, zero, suc, ◌+◌, ◌≡◌, Bool, true, false, not, Option, none, some, String, List, [], ◌∷◌, ◌++◌,
  map, filter, length, take, ltb, if◌then◌else◌,
}
use p2p_treker.Prelude.Int.{ℤ, pos, ◌-ℤ◌, leb_ℤ, eqb_ℤ}
use p2p_treker.Prelude.Dict.{Dict}
use p2p_treker.Prelude.Result.{Result, ok, err, value_error, ◌>>=◌, ◌>>◌, raise_if}
use p2p_treker.Decimal.{Decimal, d_zero, of_int, sum_from}
use p2p_treker.Decimal.Division.{div_D}
use p2p_treker.Models.{Exchange, MarketType, spot, market_eq}
use p2p_treker.Models.Quote.{NormalizedQuote, validate}
use p2p_treker.QuoteCache.{QuoteCache, empty_cache, update}
use p2p_treker.Spread.Engine.{
  TradingConfig, ExchangeConfig, Fees, enabled_fees, update_taker_fee, compute_all,
}
use p2p_treker.Spread.Events.{OpenEvents, ClosedEvent, process, flush_open}
use p2p_treker.Settings.{unknown_symbols, is_empty}

pub record BacktestParams : Type 0 where
  pub symbols : List String
  pub from_ms : ℤ
  pub to_ms : ℤ
  pub market_type : MarketType
  pub spread_threshold : Option Decimal
  pub min_duration_ms : ℤ
  pub min_executable_quantity : Option Decimal
  pub min_executable_notional : Option Decimal
  pub fee_overrides : Dict Exchange Decimal

-- `BacktestParams.__post_init__`
unfoldable pub validate_params : BacktestParams → Result BacktestParams
validate_params p = do
  raise_if (leb_ℤ p.to_ms p.from_ms) (value_error "'to_ms' must be greater than 'from_ms'")
  raise_if (not (is_empty (unknown_symbols p.symbols)))
      (value_error "Symbols without exchange mapping")
  raise_if (is_empty p.symbols) (value_error "At least one symbol is required")
  raise_if (not (market_eq p.market_type spot))
      (value_error "Backtesting supports only spot market (MVP scope)")
  ok p

pub record BacktestResult : Type 0 where
  pub params : BacktestParams
  pub ticks_processed : ℕ
  pub truncated : Bool
  pub total_events : ℕ
  pub events : List ClosedEvent
  pub total_simulated_pnl : Decimal
  pub average_pnl_per_event : Option Decimal

-- The settings that a run reads: of the trading, the exchanges and the backtest section.
pub record BaseSettings : Type 0 where
  pub trading : TradingConfig
  pub exchanges : Dict Exchange ExchangeConfig
  pub spread_threshold : Decimal
  pub max_ticks_per_run : ℕ

-- A row of `quotes_1s`.
pub record Tick : Type 0 where
  pub timestamp : ℤ
  pub exchange : Exchange
  pub market_type : MarketType
  pub symbol : String
  pub bid_price : Decimal
  pub bid_quantity : Decimal
  pub ask_price : Decimal
  pub ask_quantity : Decimal
  pub exchange_timestamp : ℤ
  pub received_timestamp : ℤ

abbrev pub quote_of : Tick → ℕ → NormalizedQuote
quote_of row sequence = record {
  exchange = row.exchange;
  market_type = row.market_type;
  symbol = row.symbol;
  bid_price = row.bid_price;
  bid_quantity = row.bid_quantity;
  ask_price = row.ask_price;
  ask_quantity = row.ask_quantity;
  exchange_timestamp = row.exchange_timestamp;
  received_timestamp = row.received_timestamp;
  sequence = some (pos sequence);
}

-- `_row_to_quote`, whose constructor runs the validators.
pub row_to_quote : Tick → ℕ → Result NormalizedQuote
row_to_quote row sequence = validate (quote_of row sequence)

-- `value if value is not None else fallback`
abbrev pub given : {A : Type 0} → Option A → A → A
given none fallback = fallback
given (some value) fallback = value

pub trading_of : BaseSettings → BacktestParams → TradingConfig
trading_of base params = record base.trading {
  symbols = params.symbols;
  min_executable_quantity =
      given params.min_executable_quantity base.trading.min_executable_quantity;
  min_executable_notional =
      given params.min_executable_notional base.trading.min_executable_notional;
}

pub override_fees : Fees → Dict Exchange Decimal → Result Fees
override_fees fees [] = ok fees
override_fees fees ((exchange, fee) ∷ rest) =
    update_taker_fee fees exchange fee >>= λ fees'. override_fees fees' rest

-- `itertools.groupby(rows, key=lambda r: r["timestamp"])`: runs of rows with one timestamp.
abbrev pub Groups : Type 0
Groups = List (ℤ × List Tick)

pub join_group : Tick → Groups → Groups
join_group row [] = (row.timestamp, row ∷ []) ∷ []
join_group row ((ts, rows) ∷ groups) =
    if eqb_ℤ row.timestamp ts
    then (row.timestamp, row ∷ rows) ∷ groups
    else (row.timestamp, row ∷ []) ∷ (ts, rows) ∷ groups

pub groupby : List Tick → Groups
unfolding join_group
groupby [] = []
groupby (row ∷ rows) = join_group row (groupby rows)

-- The variables of the loops in `run`.
pub record Replay : Type 0 where
  pub cache : QuoteCache
  pub sequence : ℕ
  pub open_events : OpenEvents
  pub closed_events : List ClosedEvent
  pub last_ts : ℤ

pub feed_rows : Replay → List Tick → Result Replay
unfolding row_to_quote
feed_rows s [] = ok s
feed_rows s (row ∷ rows) = row_to_quote row (s.sequence + 1) >>= λ quote.
    feed_rows (record s { cache = (update s.cache quote).0; sequence = s.sequence + 1 }) rows

-- The rest of one round of the outer loop.
pub tick_done : TradingConfig → Fees → Decimal → ℤ → Replay → Result Replay
tick_done trading fees threshold ts s = compute_all trading fees s.cache ts >>= λ spread_rows.
    let (open_events, closed) = process threshold s.open_events spread_rows ts in
    ok (record s {
      open_events = open_events;
      closed_events = s.closed_events ++ closed;
      last_ts = ts;
    })

pub replay : TradingConfig → Fees → Decimal → Replay → Groups → Result Replay
unfolding feed_rows tick_done
replay trading fees threshold s [] = ok s
replay trading fees threshold s ((ts, rows) ∷ groups) = feed_rows s rows >>= λ fed.
    tick_done trading fees threshold ts fed >>= λ next. replay trading fees threshold next groups

pub starting : BacktestParams → Replay
starting params = record {
  cache = empty_cache;
  sequence = 0;
  open_events = [];
  closed_events = [];
  last_ts = params.from_ms;
}

abbrev pub average : Decimal → ℕ → Option Decimal
average total zero = none
average total (suc n) = some (div_D total (of_int (pos (suc n))))

-- The end of `run`: the open events are closed, and those that lasted long enough are reported.
pub report : BacktestParams → Decimal → ℕ → Bool → Replay → BacktestResult
unfolding flush_open
report params threshold ticks truncated s =
    let closed = s.closed_events ++ (flush_open threshold s.open_events s.last_ts).1 in
    let qualifying =
      filter (λ e. leb_ℤ params.min_duration_ms (e.end_timestamp -ℤ e.event.start_timestamp))
        closed in
    let total_pnl = sum_from d_zero (map (λ e. e.event.peak_profit) qualifying) in
    record {
      params = params;
      ticks_processed = ticks;
      truncated = truncated;
      total_events = length qualifying;
      events = qualifying;
      total_simulated_pnl = total_pnl;
      average_pnl_per_event = average total_pnl (length qualifying);
    }

unfoldable pub run : BaseSettings → BacktestParams → List Tick → Result BacktestResult
unfolding trading_of override_fees groupby replay starting report
run base params loaded =
    let max_ticks = base.max_ticks_per_run in
    let rows = take max_ticks loaded in
    let threshold = given params.spread_threshold base.spread_threshold in
    override_fees (enabled_fees base.exchanges) params.fee_overrides >>= λ fees.
    replay (trading_of base params) fees threshold (starting params) (groupby rows) >>= λ final.
    ok (report params threshold (length rows) (ltb max_ticks (length loaded)) final)
