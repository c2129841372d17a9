-- ===== src/Tests/Feeds.antt =====
-- Messages and stored ticks (backend/app/normalizer, backtesting): a snapshot of one symbol, and
-- three ticks of two exchanges.
use p2p_treker.Prelude.{ℕ, ◌+◌, refl, All, if◌then◌else◌, true, none, some, String, List, [], ◌∷◌}
use p2p_treker.Prelude.Int.{pos, ◌*ℤ◌}
use p2p_treker.Prelude.Dict.{Dict, string_key}
use p2p_treker.Prelude.Result.{Result, ok, err, value_error, Returns}
use p2p_treker.Decimal.{Decimal, at, d_zero, d_one, lit}
use p2p_treker.Decimal.Key.{ltb_D→<D, leb_D→≤D}
use p2p_treker.Models.{Exchange, binance, bybit, spot}
use p2p_treker.Normalizer.{BookData, BookMessage, new_normalizer, handle}
use p2p_treker.Normalizer.Bybit.{IsNormalizer, IsPayload, Handled, handle-Handled}
use p2p_treker.Spread.Engine.{ExchangeConfig, TradingConfig, enabled_fees}
use p2p_treker.Spread.Engine.Table.{IsFees, IsFraction}
use p2p_treker.Backtest.{BacktestParams, BaseSettings, Tick, run}
use p2p_treker.Backtest.Outcomes.{IsTick, IsReported, run-Returns}

-- A reader of the texts that the message has.
abbrev decimal : String → Result Decimal
decimal text =
    if string_key.beq text "99.5"
    then ok (lit 995 1)
    else if string_key.beq text "101"
    then ok (lit 101 0)
    else if string_key.beq text "2"
    then ok (lit 2 0)
    else err (value_error "not a number")

abbrev payload : BookData
payload = record { s = "BTCUSDT"; b = ("99.5", "2") ∷ []; a = ("101", "2") ∷ []; u = some (pos 12) }

abbrev message : BookMessage
message = record {
  topic = "orderbook.1.BTCUSDT";
  payload = some payload;
  msg_type = some "snapshot";
  ts = some (pos 1000);
}

payload-IsPayload : IsPayload decimal (some payload)
unfolding at ◌*ℤ◌
payload-IsPayload = (
  (
    record {
      price_read = ltb_D→<D d_zero (lit 995 1) refl;
      quantity_read = leb_D→≤D d_zero (lit 2 0) refl;
    },
    tt,
  ),
  (
    record {
      price_read = ltb_D→<D d_zero (lit 101 0) refl;
      quantity_read = leb_D→≤D d_zero (lit 2 0) refl;
    },
    tt,
  ),
)

new_normalizer-IsNormalizer : IsNormalizer decimal new_normalizer
unfolding new_normalizer
new_normalizer-IsNormalizer = record { bids_read = tt; asks_read = tt }

handle-Handled_example :
    Handled decimal (some payload) (handle decimal new_normalizer message (pos 1005))
handle-Handled_example =
    handle-Handled decimal new_normalizer message (pos 1005) payload-IsPayload
      new_normalizer-IsNormalizer

abbrev tick : ℕ → Exchange → ℕ → Tick
tick ts exchange bid = record {
  timestamp = pos ts;
  exchange = exchange;
  market_type = spot;
  symbol = "BTC-USDT";
  bid_price = lit bid 0;
  bid_quantity = lit 1 0;
  ask_price = lit (bid + 1) 0;
  ask_quantity = lit 1 0;
  exchange_timestamp = pos ts;
  received_timestamp = pos ts;
}

abbrev ticks : List Tick
ticks = tick 1000 binance 99 ∷ tick 1000 bybit 103 ∷ tick 2000 bybit 100 ∷ []

ticks-All : All IsTick ticks
unfolding at ◌*ℤ◌
ticks-All = (
  record {
    bid_pos = ltb_D→<D d_zero (lit 99 0) refl;
    bid_quantity_nonneg = leb_D→≤D d_zero (lit 1 0) refl;
    ask_pos = ltb_D→<D d_zero (lit 100 0) refl;
    ask_quantity_nonneg = leb_D→≤D d_zero (lit 1 0) refl;
  },
  (
    record {
      bid_pos = ltb_D→<D d_zero (lit 103 0) refl;
      bid_quantity_nonneg = leb_D→≤D d_zero (lit 1 0) refl;
      ask_pos = ltb_D→<D d_zero (lit 104 0) refl;
      ask_quantity_nonneg = leb_D→≤D d_zero (lit 1 0) refl;
    },
    (
      record {
        bid_pos = ltb_D→<D d_zero (lit 100 0) refl;
        bid_quantity_nonneg = leb_D→≤D d_zero (lit 1 0) refl;
        ask_pos = ltb_D→<D d_zero (lit 101 0) refl;
        ask_quantity_nonneg = leb_D→≤D d_zero (lit 1 0) refl;
      },
      tt,
    ),
  ),
)

abbrev exchanges : Dict Exchange ExchangeConfig
exchanges =
    (binance, record { enabled = true; taker_fee = lit 1 3 })
    ∷ (bybit, record { enabled = true; taker_fee = lit 1 3 })
    ∷ []

abbrev trading : TradingConfig
trading = record {
  market_type = spot;
  symbols = "ETH-USDT" ∷ [];
  max_quote_age_ms = pos 1000;
  max_timestamp_diff_ms = pos 1500;
  min_executable_quantity = d_zero;
  min_executable_notional = lit 10 0;
}

abbrev base : BaseSettings
base = record {
  trading = trading;
  exchanges = exchanges;
  spread_threshold = lit 1 3;
  max_ticks_per_run = 100;
}

abbrev params : BacktestParams
params = record {
  symbols = "BTC-USDT" ∷ [];
  from_ms = pos 0;
  to_ms = pos 5000;
  market_type = spot;
  spread_threshold = some (lit 2 3);
  min_duration_ms = pos 500;
  min_executable_quantity = none;
  min_executable_notional = none;
  fee_overrides = (bybit, lit 5 4) ∷ [];
}

small-IsFraction : IsFraction (lit 1 3)
unfolding at ◌*ℤ◌
small-IsFraction = record {
  nonneg = leb_D→≤D d_zero (lit 1 3) refl;
  le-one = leb_D→≤D (lit 1 3) d_one refl;
}

enabled_fees-IsFees : IsFees (enabled_fees exchanges)
unfolding enabled_fees
enabled_fees-IsFees = (small-IsFraction, (small-IsFraction, tt))

overrides-IsFees : IsFees params.fee_overrides
unfolding at ◌*ℤ◌
overrides-IsFees =
    (record { nonneg = leb_D→≤D d_zero (lit 5 4) refl; le-one = leb_D→≤D (lit 5 4) d_one refl }, tt)

run-Returns_example : Returns (IsReported base params ticks) (run base params ticks)
run-Returns_example = run-Returns base params ticks enabled_fees-IsFees overrides-IsFees ticks-All
