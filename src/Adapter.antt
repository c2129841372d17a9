-- ===== src/Adapter.antt =====
-- The WebSocket adapter that the exchanges share (backend/app/exchanges/base_ws.py).
--
-- `_run` and the calls of the application share one event loop: a history is a list of events, each
-- of them what happens up to the next `await`. An event that does not fit the place where `_run`
-- stands changes nothing. Seconds are decimals; the readings of the clock and of `random` are part
-- of the events, and so is each turn of `_keepalive`.
pub mod Venues
pub mod Lifecycle
pub mod Doubling
pub mod Backoff
pub mod Delivery
use Prim.Native.Nat.{Ordering}
use Prim.Native.String.{compare as compare_text}
use p2p_treker.Prelude.{
  ℕ, ◌+◌, ◌≡◌, Bool, true, false, not, ◌&&◌, ◌||◌, Option, none, some, String, List, [], ◌∷◌, ◌++◌,
  map, filter, ltb, if◌then◌else◌,
}
use p2p_treker.Prelude.Int.{ℤ}
use p2p_treker.Prelude.Dict.{string_key}
use p2p_treker.Prelude.Result.{Result, ok, err, ◌>>=◌}
use p2p_treker.Prelude.Sorting.{sorted}
use p2p_treker.Decimal.{Decimal, lit, d_one, ◌+D◌, ◌*D◌, min_D}
use p2p_treker.Models.{Exchange}
use p2p_treker.Models.Quote.{NormalizedQuote}
use p2p_treker.QuoteCache.{ConnectionStatus, disconnected, connecting, connected, reconnecting}
use p2p_treker.Symbols.{to_native}

-- The fields of `WebSocketConfig` that an adapter reads.
pub record WebSocketConfig : Type 0 where
  pub reconnect_initial_delay_s : Decimal
  pub reconnect_max_delay_s : Decimal

-- What a subclass provides: its own state, the texts that it sends and the reading of a message.
pub record Venue (State Message : Type 0) : Type 0 where
  pub exchange : Exchange
  pub keepalive_interval_s : Option Decimal
  pub subscribe_payloads : List String → List String
  pub keepalive_payload : Option String
  pub parse : State → Message → ℤ → State × Result (Option NormalizedQuote)
  pub on_reconnect : State → State

-- Where `_run` stands: no task, at `websockets.connect`, at `ws.send`, at `ws.recv`, at the sleep
-- before the next attempt, or returned.
pub data Place : Type 0 where
  absent opening subscribing receiving sleeping returned : Place

pub record AdapterHealth : Type 0 where
  pub exchange : Exchange
  pub status : ConnectionStatus
  pub last_message_at_ms : Option ℤ
  pub reconnect_count : ℕ
  pub subscribed_symbols : List String

-- `sent`, `quotes` and `statuses` are what the socket and the two sinks have been given, and
-- `native` is the local variable of `_send_subscriptions`.
pub record Adapter (State : Type 0) : Type 0 where
  pub symbols : List String
  pub place : Place
  pub delay : Decimal
  pub pause : Decimal
  pub stopping : Bool
  pub status : ConnectionStatus
  pub last_message_at_ms : Option ℤ
  pub reconnect_count : ℕ
  pub state : State
  pub native : Result (List String)
  pub sent : List String
  pub quotes : List NormalizedQuote
  pub statuses : List ConnectionStatus

abbrev pub has_socket : Place → Bool
has_socket subscribing = true
has_socket receiving = true
has_socket _ = false

-- `sorted(set(a) | set(b))`
text_le : String → String → Bool
text_le s t = elim (compare_text s t) [ Ordering.gt ↦ false | _ ↦ true ]

abbrev pub listed : String → List String → Bool
listed s [] = false
listed s (t ∷ ts) = string_key.beq t s || listed s ts

abbrev pub distinct_texts : List String → List String
distinct_texts [] = []
distinct_texts (s ∷ ss) = let rest = distinct_texts ss in if listed s ss then rest else s ∷ rest

pub union_symbols : List String → List String → List String
unfolding text_le
union_symbols a b = sorted text_le (distinct_texts (a ++ b))

module _ {State : Type 0} where
  unfoldable pub new_adapter : List String → State → WebSocketConfig → Adapter State
  new_adapter symbols state config = record {
    symbols = symbols;
    place = absent;
    delay = config.reconnect_initial_delay_s;
    pause = config.reconnect_initial_delay_s;
    stopping = false;
    status = disconnected;
    last_message_at_ms = none;
    reconnect_count = 0;
    state = state;
    native = ok [];
    sent = [];
    quotes = [];
    statuses = [];
  }

module _ {State : Type 0} where
  unfoldable pub set_status : ConnectionStatus → Adapter State → Adapter State
  set_status status a = record a { status = status; statuses = a.statuses ++ (status ∷ []) }

  -- The top of the loop of `_run`.
  pub next_round : Adapter State → Adapter State
  unfolding set_status
  next_round a =
      if a.stopping
      then record a { place = returned }
      else record (set_status (if ltb 0 a.reconnect_count then reconnecting else connecting) a) {
        place = opening;
      }

  -- `disconnect` up to the closing of the socket, and after it.
  pub stop : Adapter State → Adapter State
  stop a = record a { stopping = true }

  pub stopped : Adapter State → Adapter State
  unfolding set_status
  stopped a = if a.stopping then record (set_status disconnected a) { place = absent } else a

  -- The loop of `_recv_loop` goes on while the adapter does not stop.
  pub next_receive : Adapter State → Adapter State
  next_receive a = if a.stopping then record a { place = returned } else a

  unfoldable pub unsubscribe : Adapter State → List String → Adapter State
  unsubscribe a symbols = record a { symbols = filter (λ s. not (listed s symbols)) a.symbols }

  -- The end of `handle_message`: an exception of `parse` is logged.
  pub deliver : State × Result (Option NormalizedQuote) → Adapter State → Adapter State
  deliver (state, err e) a = record a { state = state }
  deliver (state, ok none) a = record a { state = state }
  deliver (state, ok (some q)) a = record a { state = state; quotes = a.quotes ++ (q ∷ []) }

module _ {State : Type 0} (config : WebSocketConfig) where
  -- An exception, or the end of `_recv_loop`: the connection is over, and the loop breaks when the
  -- adapter stops. `jitter` is the reading of `random.random()`.
  pub lose : Adapter State → Decimal → Adapter State
  unfolding set_status
  lose a jitter =
      if a.stopping
      then record a { place = returned }
      else record (set_status reconnecting (record a { reconnect_count = a.reconnect_count + 1 })) {
        place = sleeping;
        pause = a.delay *D (d_one +D jitter *D lit 2 1);
        delay = min_D (a.delay *D lit 2 0) config.reconnect_max_delay_s;
      }

  -- `connect`: the new task runs up to its first `await`.
  pub connect_at : Place → Adapter State → Adapter State
  unfolding next_round
  connect_at absent a =
      next_round (record a { stopping = false; delay = config.reconnect_initial_delay_s })
  connect_at _ a = a

  pub connect : Adapter State → Adapter State
  unfolding connect_at
  connect a = connect_at a.place a

pub data Event : Type 0 where
  connects : Event
  stops : Event
  stop_ends : Event
  subscribes : List String → Event
  unsubscribes : List String → Event
  opens : Event
  sends : Decimal → Event
  receives : String → ℤ → Event
  keeps_alive : Event
  fails : Decimal → Event
  wakes : Event

module _ {State Message : Type 0} (venue : Venue State Message) (config : WebSocketConfig)
    (loads : String → Option Message) where
  unfoldable pub health_status : Adapter State → AdapterHealth
  health_status a = record {
    exchange = venue.exchange;
    status = a.status;
    last_message_at_ms = a.last_message_at_ms;
    reconnect_count = a.reconnect_count;
    subscribed_symbols = a.symbols;
  }

  -- `[to_native(s, self.exchange) for s in symbols]`
  unfoldable pub natives : List String → Result (List String)
  natives [] = ok []
  natives (s ∷ symbols) = do
    native ← to_native s venue.exchange
    rest ← natives symbols
    ok (native ∷ rest)

  -- The connection is open: the local state is reset, and `_send_subscriptions` begins with the
  -- native symbols, before its first `await`.
  pub opened : Adapter State → Adapter State
  unfolding natives
  opened a = record a {
    place = subscribing;
    state = venue.on_reconnect a.state;
    native = natives a.symbols;
  }

  -- All payloads are sent; after a symbol that is not mapped, which raises KeyError, the socket is
  -- closed instead.
  pub subscribed_with : Result (List String) → Adapter State → Decimal → Adapter State
  unfolding lose set_status next_receive
  subscribed_with (err e) a jitter = lose config a jitter
  subscribed_with (ok native) a jitter =
      next_receive
        (record (set_status connected
          (record a { sent = a.sent ++ venue.subscribe_payloads native })) {
            place = receiving;
            delay = config.reconnect_initial_delay_s;
          })

  -- `subscribe`, which raises KeyError after the symbols have been added.
  pub send_more : Result (List String) → Adapter State → Adapter State × Result (Unit {0})
  send_more (err e) a = (a, err e)
  send_more (ok native) a = (record a { sent = a.sent ++ venue.subscribe_payloads native }, ok tt)

  unfoldable pub subscribe : Adapter State → List String → Adapter State × Result (Unit {0})
  unfolding natives send_more union_symbols
  subscribe a symbols =
      let added = record a { symbols = union_symbols a.symbols symbols } in
      if has_socket a.place then send_more (natives symbols) added else (added, ok tt)

  unfoldable pub handle_message : Adapter State → Message → ℤ → Adapter State
  unfolding deliver
  handle_message a message received =
      deliver (venue.parse a.state message received)
        (record a { last_message_at_ms = some received })

  -- One round of `_recv_loop`, for a text that arrives in time.
  pub receive_json : Option Message → Adapter State → ℤ → Adapter State
  unfolding handle_message
  receive_json none a received = a
  receive_json (some message) a received = handle_message a message received

  pub receive : Adapter State → String → ℤ → Adapter State
  unfolding receive_json
  receive a raw received =
      if string_key.beq raw "ping"
      then record a { sent = a.sent ++ ("pong" ∷ []) }
      else if string_key.beq raw "pong"
      then a
      else receive_json (loads raw) a received

  -- A turn of `_keepalive`, which runs beside `_recv_loop` if there is an interval.
  pub keep_alive : Option Decimal → Option String → Adapter State → Adapter State
  keep_alive none payload a = a
  keep_alive (some _) none a = a
  keep_alive (some _) (some payload) a = record a { sent = a.sent ++ (payload ∷ []) }

  -- A step of `_run` at its place: an open connection, the end of the subscriptions, a text, a
  -- failure of any kind, and the end of the sleep.
  pub run_step : Place → Adapter State → Event → Adapter State
  unfolding next_round lose opened subscribed_with receive next_receive keep_alive
  run_step opening a opens = opened a
  run_step opening a (fails jitter) = lose config a jitter
  run_step subscribing a (sends jitter) = subscribed_with a.native a jitter
  run_step subscribing a (fails jitter) = lose config a jitter
  run_step receiving a (receives raw received) = next_receive (receive a raw received)
  run_step receiving a keeps_alive = keep_alive venue.keepalive_interval_s venue.keepalive_payload a
  run_step receiving a (fails jitter) = lose config a jitter
  run_step sleeping a wakes = next_round a
  run_step _ a _ = a

  unfoldable pub step : Adapter State → Event → Adapter State
  unfolding connect stop stopped subscribe unsubscribe run_step
  step a connects = connect config a
  step a stops = stop a
  step a stop_ends = stopped a
  step a (subscribes symbols) = (subscribe a symbols).0
  step a (unsubscribes symbols) = unsubscribe a symbols
  step a opens = run_step a.place a opens
  step a (sends jitter) = run_step a.place a (sends jitter)
  step a (receives raw received) = run_step a.place a (receives raw received)
  step a keeps_alive = run_step a.place a keeps_alive
  step a (fails jitter) = run_step a.place a (fails jitter)
  step a wakes = run_step a.place a wakes

  unfoldable pub history : Adapter State → List Event → Adapter State
  unfolding step
  history a [] = a
  history a (e ∷ events) = history (step a e) events
