-- ===== src/Tests/Adapters.antt =====
-- An adapter of Binance for two symbols (backend/app/exchanges): runs, and the theorems at histories
-- with losses, failed attempts and texts.
use p2p_treker.Prelude.{
  ◌≡◌, refl, false, none, some, Option, String, List, [], ◌∷◌, ◌++◌, length, if◌then◌else◌,
}
use p2p_treker.Prelude.Int.{pos, ◌*ℤ◌}
use p2p_treker.Prelude.Dict.{string_key}
use p2p_treker.Prelude.Result.{Result, ok, err, value_error}
use p2p_treker.Decimal.{Decimal, d_zero, lit, at, ◌<D◌, ◌≤D◌}
use p2p_treker.Decimal.Key.{ltb_D→<D, leb_D→≤D}
use p2p_treker.Models.{binance, okx, bybit}
use p2p_treker.Normalizer.{
  BookTicker, BboMessage, BookMessage, new_normalizer, Level, Normalizer, normalize_book_ticker,
  normalize_bbo, handle, reset,
}
use p2p_treker.Models.Quote.{validate}
use p2p_treker.QuoteCache.{empty_cache, reconnecting}
use p2p_treker.QuoteCache.Invariant.{empty_cache-IsCache}
use p2p_treker.Adapter.{
  WebSocketConfig, Adapter, sleeping, new_adapter, natives, Event, connects, fails, wakes, opens,
  sends, receives, history,
}
use p2p_treker.Symbols.{to_native, to_canonical, native_to_canonical, symbol_map}
use p2p_treker.Adapter.Venues.{binance_payloads, binance_venue, okx_venue, bybit_venue}
use p2p_treker.Adapter.Lifecycle.{Fits, history-Fits}
use p2p_treker.Adapter.Backoff.{
  Attempt, refused, cut, failing, Failed, failing-Failed, Recovered, failing-Recovered,
}
use p2p_treker.Adapter.Delivery.{Delivers, adapters-Delivers}

payloads_run :
    binance_payloads ("BTCUSDT" ∷ "ETHUSDT" ∷ [])
    ≡ "{\"method\": \"SUBSCRIBE\", \"params\": [\"btcusdt@bookTicker\", \"ethusdt@bookTicker\"], \"id\": 1}"
      ∷ []
unfolding binance_payloads
payloads_run = refl

abbrev config : WebSocketConfig
config = record { reconnect_initial_delay_s = lit 1 0; reconnect_max_delay_s = lit 30 0 }

abbrev decimal : String → Result Decimal
decimal text =
    if string_key.beq text "100.5"
    then ok (lit 1005 1)
    else if string_key.beq text "99.5"
    then ok (lit 995 1)
    else if string_key.beq text "2"
    then ok (lit 2 0)
    else err (value_error "not a number")

-- One text is the message of a symbol; the others are not JSON.
abbrev ticker_text : String
ticker_text = "ticker of BTCUSDT"

abbrev tickers : String → Option BookTicker
tickers text =
    if string_key.beq text ticker_text
    then some (record {
      s = some "BTCUSDT";
      b = some "99.5";
      bid_quantity = "2";
      a = some "100.5";
      ask_quantity = "2";
      u = some (pos 7);
    })
    else none

-- The same best levels in the messages of OKX and Bybit.
abbrev bids : List Level
bids = ("99.5", "2") ∷ []

abbrev asks : List Level
asks = ("100.5", "2") ∷ []

abbrev bbos : String → Option BboMessage
bbos text =
    if string_key.beq text ticker_text
    then some (record {
      channel = some "bbo-tbt";
      inst_id = "BTC-USDT";
      payload = record { bids = bids; asks = asks; ts = pos 990; seq_id = some (pos 7) } ∷ [];
    })
    else none

abbrev books : String → Option BookMessage
books text =
    if string_key.beq text ticker_text
    then some (record {
      topic = "orderbook.1.BTCUSDT";
      payload = some (record { s = "BTCUSDT"; b = bids; a = asks; u = some (pos 7) });
      msg_type = some "snapshot";
      ts = some (pos 990);
    })
    else none

abbrev fresh : Adapter (Unit {0})
fresh = new_adapter ("BTC-USDT" ∷ "ETH-USDT" ∷ []) tt config

-- The first attempt fails, the second one succeeds, and a text comes.
abbrev events : List Event
events =
    connects
    ∷ fails (lit 5 1)
    ∷ wakes
    ∷ opens
    ∷ sends (lit 1 1)
    ∷ receives ticker_text (pos 1000)
    ∷ []

abbrev of_bybit : Adapter Normalizer
of_bybit =
    history (bybit_venue decimal) config books
      (new_adapter ("BTC-USDT" ∷ "ETH-USDT" ∷ []) new_normalizer config) events

-- Each venue reads a quote in the text, and the cache takes it.
binance_run : length (history (binance_venue decimal) config tickers fresh events).quotes ≡ 1
unfolding history new_adapter to_native symbol_map normalize_book_ticker to_canonical
    native_to_canonical validate at ◌*ℤ◌
binance_run = refl

okx_run : length (history (okx_venue decimal) config bbos fresh events).quotes ≡ 1
unfolding history new_adapter to_native symbol_map normalize_bbo to_canonical native_to_canonical
    validate at ◌*ℤ◌
okx_run = refl

bybit_run : length of_bybit.quotes ≡ 1
unfolding history new_adapter to_native symbol_map handle new_normalizer reset to_canonical
    native_to_canonical validate at ◌*ℤ◌
bybit_run = refl

history-Fits_example :
    Fits
      (history (binance_venue decimal) config tickers fresh events).place
      (history (binance_venue decimal) config tickers fresh events)
unfolding new_adapter
history-Fits_example = history-Fits (binance_venue decimal) config tickers fresh events refl

-- After a loss.
abbrev lost : Adapter (Unit {0})
lost = record {
  symbols = "BTC-USDT" ∷ "ETH-USDT" ∷ [];
  place = sleeping;
  delay = lit 2 0;
  pause = lit 15 1;
  stopping = false;
  status = reconnecting;
  last_message_at_ms = none;
  reconnect_count = 1;
  state = tt;
  native = ok [];
  sent = [];
  quotes = [];
  statuses = reconnecting ∷ [];
}

max_pos : d_zero <D config.reconnect_max_delay_s
unfolding at ◌*ℤ◌
max_pos = ltb_D→<D d_zero (lit 30 0) refl

capped : lost.delay ≤D config.reconnect_max_delay_s
unfolding at ◌*ℤ◌
capped = leb_D→≤D (lit 2 0) (lit 30 0) refl

-- The second attempt opens first.
abbrev attempts : List Attempt
attempts = refused (lit 5 1) ∷ cut (lit 0 0) ∷ refused (lit 25 2) ∷ []

abbrev both : List String
both = "BTCUSDT" ∷ "ETHUSDT" ∷ []

failing-Failed_example :
    Failed
      (λ s. s)
      (lit 30 0)
      attempts
      lost
      (history (binance_venue decimal) config tickers lost (failing attempts))
failing-Failed_example =
    failing-Failed (binance_venue decimal) config tickers max_pos lost attempts refl refl capped

both_mapped : natives (binance_venue decimal) config tickers lost.symbols ≡ ok both
unfolding natives to_native symbol_map
both_mapped = refl

failing-Recovered_example :
    Recovered (binance_venue decimal) config tickers max_pos attempts both lost (
      history
        (binance_venue decimal)
        config
        tickers
        lost
        (failing attempts ++ (wakes ∷ opens ∷ sends (lit 1 1) ∷ [])))
failing-Recovered_example =
    failing-Recovered (binance_venue decimal) config tickers max_pos lost attempts (lit 1 1) both
      refl refl capped both_mapped

adapters-Delivers_example :
    Delivers binance empty_cache (history (binance_venue decimal) config tickers fresh events)
    × Delivers okx empty_cache (history (okx_venue decimal) config bbos fresh events)
    × Delivers bybit empty_cache (
        history
          (bybit_venue decimal)
          config
          books
          (new_adapter ("BTC-USDT" ∷ "ETH-USDT" ∷ []) new_normalizer config)
          events)
adapters-Delivers_example =
    adapters-Delivers decimal config ("BTC-USDT" ∷ "ETH-USDT" ∷ []) events empty_cache tickers bbos
      books empty_cache-IsCache
