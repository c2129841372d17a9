-- ===== src/Lib.antt =====
-- A verification library for the spread monitor and paper trading backend (backend/app).
--
-- The program. Collectors receive quotes and order books of a few exchanges. A quote that passes
-- its validators enters the quote cache; once per cycle the spread engine computes, for each symbol,
-- a row for each ordered pair of exchanges, the event tracker turns rows above a threshold into
-- events, the connection manager sends the table to its clients, and the database writer stores
-- quotes and events in batches. The paper trading engine executes both legs of an arbitrage against
-- the order books, with balances, trading rules and a request limit per exchange, and the capital
-- monitor plans transfers between the exchanges.
--
-- The files, and the code that each is about (paths below backend/app):
--   Prelude        integers, dicts in insertion order, stable sorting, exceptions as values
--   Decimal        Python's `decimal.Decimal`: values, order, division, `//`
--   Models         models/enums.py, models/quote.py
--   Symbols        core/symbols.py
--   Settings       core/config.py: the validators; the other settings stand with their components
--   QuoteCache     quote_cache/cache.py
--   OrderBook      orderbook/book.py; OrderBook/Vwap: orderbook/vwap.py
--   Spread         spread/formulas.py, spread/engine.py, spread/events.py
--   PaperTrading   paper_trading/balance.py, rules.py and engine.py; PaperTrading/Setup: main.py
--   Capital        capital/monitor.py
--   Normalizer     normalizer/binance.py, bybit.py and okx.py
--   Backtest       backtesting/engine.py
--   DbWriter       database/writer.py
--   ConnectionManager  api/websocket/manager.py
--   Adapter        exchanges/base_ws.py; Adapter/Venues: exchanges/binance, bybit and okx
--   Retention      database/retention.py, partitioning.py, services/retention_manager.py and
--                  downsampler.py
--   Testnet        testnet/binance.py
--   Recorder       services/history_recorder.py
--   Tests          runs at concrete inputs
-- The children of a component hold its theorems, or its parts with theirs.
--
-- How the code corresponds. An object is a record of its attributes, and a method takes it and
-- returns it with its result; a method of the engine that can raise after a change returns the state
-- beside a `Result`. `Result` has the value or the exception, and `raise` is `err`. A dict is its
-- list of entries in insertion order, with the equality of its keys: `Decimal` keys are equal by
-- value. Reading an absent balance opens it, as `BalanceManager.get` does. `Optional` is `Option`.
-- The messages of rejections, violations and shortages are data with the values that they print.
--
-- Numbers. A `Decimal` is an integer coefficient and a number of decimal places. Sums, differences
-- and products are exact, which Python's are as long as a result has at most 28 digits; quotients
-- are rounded to 28 digits, ties to even, as in the default context, and so is each operation of the
-- realised profit of a trade. `//` is taken for quotients of at most 28 digits, beyond which Python
-- raises. The exponent of a result is not kept where only its
-- value matters. Milliseconds and sequence numbers are integers, counters natural numbers.
--
-- From outside come, as arguments: how the text of a price in a message is read as a decimal, the
-- rows of the ticks that a backtest loads, the order ids, the clock readings of each call, what other
-- tasks do to the paper trading engine while `execute_arbitrage` sleeps, and whether `flush` of the
-- writer returned and after how long. The writer and its producers share one event loop: a run is a
-- sequence of actions (a record is offered, taken, a collection ends, a batch is written), in any
-- order. `calculation_version` is the constant 1 of the source.
--
-- Loops are structural recursion. The two-pointer loop of `rebalance_signals` has fuel, the number of
-- exchanges above and below their targets: each turn leaves one of them behind, and it is shown that
-- this fuel is enough.
--
-- A history of an adapter is a sequence of events: what the socket does, what the application calls,
-- and the ends of the waits. How a text is read as JSON is an argument.
--
-- The database is a state of any kind, with a function that executes a statement on it and may fail; a
-- session that an exception leaves is rolled back. The query of the downsampler is modelled apart, on
-- the rows that it reads and the table that it writes, with `avg` as an argument. `datetime` is
-- modelled as the proleptic calendar of the years 1 to 9999, by the number of a day.
--
-- The test exchange is a state of any kind that answers a request.
--
-- The recorder and the writer share one event loop: a history is a sequence of ticks of both.
--
-- Not modelled: the broadcaster and the analytics queries, which are mostly I/O and
-- SQL; the routes, the start of the application, logging, the table declarations, the migrations and
-- the frontend. Of the modelled files: `to_wire` of the spread rows, the log lines, `start` and `stop`
-- of the writer, and pydantic's bounds of single fields.
pub mod Prelude
pub mod Decimal
pub mod Models
pub mod OrderBook
pub mod Symbols
pub mod Normalizer
pub mod QuoteCache
pub mod Adapter
pub mod Retention
pub mod Testnet
pub mod Recorder
pub mod Spread
pub mod Settings
pub mod DbWriter
pub mod ConnectionManager
pub mod PaperTrading
pub mod Backtest
pub mod Capital
mod Tests
