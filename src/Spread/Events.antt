-- ===== src/Spread/Events.antt =====
-- `SpreadEventTracker` (backend/app/spread/events.py): a spread above the threshold is one event.
pub mod Tracking
pub mod Bounds
use p2p_treker.Prelude.{
  ℕ, ◌+◌, ◌≡◌, Bool, true, false, not, ◌&&◌, Option, none, some, String, List, [], ◌∷◌, ◌++◌, map,
  filter, if◌then◌else◌,
}
use p2p_treker.Prelude.Int.{ℤ, pos}
use p2p_treker.Prelude.Dict.{Dict, Key, lookup, insert, erase, values, pair_key, string_key}
use p2p_treker.Decimal.{Decimal, d_zero, d_hundred, of_int, ◌+D◌, leb_D, ltb_D}
use p2p_treker.Decimal.Division.{div_D}
use p2p_treker.Models.{Exchange, MarketType, exchange_key}
use p2p_treker.Spread.Engine.{SpreadRow}

-- (symbol, buy_exchange, sell_exchange); the enum members stand for their values.
abbrev pub DirectionKey : Type 0
DirectionKey = String × (Exchange × Exchange)

instance abbrev pub direction_key : Key DirectionKey
direction_key = pair_key

-- `calculation_version` is always the constant 1.
pub record OpenEvent : Type 0 where
  pub start_timestamp : ℤ
  pub symbol : String
  pub market_type : MarketType
  pub buy_exchange : Exchange
  pub sell_exchange : Exchange
  pub start_net_spread : Decimal
  pub max_net_spread : Decimal
  pub spread_sum : Decimal
  pub samples : ℕ
  pub peak_quantity : Decimal
  pub peak_notional : Decimal
  pub peak_profit : Decimal

-- The dict that `close` returns.
pub record ClosedEvent : Type 0 where
  pub event : OpenEvent
  pub end_timestamp : ℤ
  pub average_net_spread : Decimal
  pub threshold : Decimal

pub new_event : SpreadRow → Decimal → ℤ → OpenEvent
new_event row net now_ms = record {
  start_timestamp = now_ms;
  symbol = row.symbol;
  market_type = row.market_type;
  buy_exchange = row.buy_exchange;
  sell_exchange = row.sell_exchange;
  start_net_spread = net;
  max_net_spread = net;
  spread_sum = net;
  samples = 1;
  peak_quantity = row.executable_quantity;
  peak_notional = row.executable_notional;
  peak_profit = row.expected_net_profit;
}

counted : OpenEvent → Decimal → OpenEvent
counted event net = record event {
  samples = event.samples + 1;
  spread_sum = event.spread_sum +D net;
}

unfoldable pub update : OpenEvent → Decimal → SpreadRow → OpenEvent
unfolding counted
update event net row =
    if ltb_D event.max_net_spread net
    then record (counted event net) {
      max_net_spread = net;
      peak_quantity = row.executable_quantity;
      peak_notional = row.executable_notional;
      peak_profit = row.expected_net_profit;
    }
    else counted event net

-- An open event has at least one sample (Bounds), so the division does not fail.
unfoldable pub close : OpenEvent → ℤ → Decimal → ClosedEvent
close event end_timestamp threshold = record {
  event = event;
  end_timestamp = end_timestamp;
  average_net_spread = div_D event.spread_sum (of_int (pos event.samples));
  threshold = threshold;
}

abbrev pub OpenEvents : Type 0
OpenEvents = Dict DirectionKey OpenEvent

abbrev pub row_key : SpreadRow → DirectionKey
row_key row = (row.symbol, (row.buy_exchange, row.sell_exchange))

-- `row.net_spread_pct / _HUNDRED`
pub net_of : SpreadRow → Decimal
net_of row = div_D row.net_spread_pct d_hundred

pub active : Decimal → SpreadRow → Bool
unfolding net_of
active threshold row = row.valid && leb_D threshold (net_of row)

-- One round of the loop, at the event of the row's direction: the open events, and those that it
-- closes.
unfoldable pub process_event :
    Decimal → ℤ → OpenEvents → SpreadRow → Option OpenEvent → OpenEvents × List ClosedEvent
unfolding new_event update close net_of active
process_event threshold now_ms open_events row none =
    if active threshold row
    then (insert (row_key row) (new_event row (net_of row) now_ms) open_events, [])
    else (open_events, [])
process_event threshold now_ms open_events row (some event) =
    if active threshold row
    then (insert (row_key row) (update event (net_of row) row) open_events, [])
    else (erase (row_key row) open_events, close event now_ms threshold ∷ [])

unfoldable pub process_row : Decimal → ℤ → OpenEvents → SpreadRow → OpenEvents × List ClosedEvent
unfolding process_event
process_row threshold now_ms open_events row =
    process_event threshold now_ms open_events row (lookup (row_key row) open_events)

unfoldable pub process_rows :
    Decimal → ℤ → OpenEvents → List SpreadRow → OpenEvents × List ClosedEvent
unfolding process_row
process_rows threshold now_ms open_events [] = (open_events, [])
process_rows threshold now_ms open_events (row ∷ rows) =
    let (next, closed) = process_row threshold now_ms open_events row in
    let (final, others) = process_rows threshold now_ms next rows in (final, closed ++ others)

-- `key in seen`
unfoldable pub seen : DirectionKey → List SpreadRow → Bool
seen key [] = false
seen key (row ∷ rows) = if direction_key.beq (row_key row) key then true else seen key rows

-- A direction that has left the table is closed too.
unfoldable pub keep_seen : List SpreadRow → OpenEvents → OpenEvents
unfolding seen
keep_seen rows open_events = filter (λ entry. seen entry.0 rows) open_events

close_unseen : Decimal → ℤ → List SpreadRow → OpenEvents → List ClosedEvent
unfolding seen close
close_unseen threshold now_ms rows [] = []
close_unseen threshold now_ms rows ((key, event) ∷ rest) =
    let others = close_unseen threshold now_ms rows rest in
    if seen key rows then others else close event now_ms threshold ∷ others

unfoldable pub process : Decimal → OpenEvents → List SpreadRow → ℤ → OpenEvents × List ClosedEvent
unfolding process_rows keep_seen close_unseen
process threshold open_events rows now_ms =
    let (next, closed) = process_rows threshold now_ms open_events rows in
    (keep_seen rows next, closed ++ close_unseen threshold now_ms rows next)

unfoldable pub flush_open : Decimal → OpenEvents → ℤ → OpenEvents × List ClosedEvent
unfolding close
flush_open threshold open_events now_ms =
    ([], map (λ event. close event now_ms threshold) (values open_events))
