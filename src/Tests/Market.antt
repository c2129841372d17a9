-- ===== src/Tests/Market.antt =====
-- Quotes, cache, spreads and events (backend/app/models, quote_cache, spread): BTC at two exchanges.
use p2p_treker.Prelude.{ℕ, ◌≡◌, refl, ◌&&◌, All, if◌then◌else◌, true, false, none, some, [], ◌∷◌}
use p2p_treker.Prelude.Int.{pos, ◌*ℤ◌}
use p2p_treker.Prelude.Dict.{lookup, string_key}
use p2p_treker.Prelude.Result.{Returns}
use p2p_treker.DbWriter.{drop_oldest}
use p2p_treker.Recorder.{Recording, new_recorder}
use p2p_treker.Recorder.{sample_quotes_once}
use p2p_treker.Recorder.Sampling.{Samples, sample_quotes_once-Samples}
use p2p_treker.Decimal.{at, d_zero, d_one, lit}
use p2p_treker.Decimal.Key.{ltb_D→<D, leb_D→≤D}
use p2p_treker.Models.{Exchange, binance, bybit, spot, exchange_key, market_key}
use p2p_treker.Models.Quote.{NormalizedQuote, IsValid}
use p2p_treker.QuoteCache.{QuoteCache, empty_cache, get, update}
use p2p_treker.QuoteCache.Updates.{stands_at, get-update}
use p2p_treker.QuoteCache.Invariant.{IsCache, empty_cache-IsCache, update-IsCache}
use p2p_treker.Spread.Engine.{SpreadRow, TradingConfig, Fees, compute_all}
use p2p_treker.Spread.Engine.Table.{IsFees, TableRow, compute_all-Returns}
use p2p_treker.Spread.Events.{DirectionKey, direction_key, process, seen}
use p2p_treker.Spread.Events.Tracking.{after_rows, lookup-process}
use p2p_treker.Spread.Events.Bounds.{AllOpen, AllClosed, process-Bounded}

abbrev quote : Exchange → ℕ → ℕ → NormalizedQuote
quote exchange bid ask = record {
  exchange = exchange;
  market_type = spot;
  symbol = "BTC-USDT";
  bid_price = lit bid 0;
  bid_quantity = lit 1 0;
  ask_price = lit ask 0;
  ask_quantity = lit 2 0;
  exchange_timestamp = pos 1000;
  received_timestamp = pos 1005;
  sequence = some (pos 4);
}

abbrev on_binance : NormalizedQuote
on_binance = quote binance 99 100

abbrev on_bybit : NormalizedQuote
on_bybit = quote bybit 103 104

binance-IsValid : IsValid on_binance
unfolding at ◌*ℤ◌
binance-IsValid = record {
  bid_pos = ltb_D→<D d_zero (lit 99 0) refl;
  bid_quantity_nonneg = leb_D→≤D d_zero (lit 1 0) refl;
  ask_pos = ltb_D→<D d_zero (lit 100 0) refl;
  ask_quantity_nonneg = leb_D→≤D d_zero (lit 2 0) refl;
}

bybit-IsValid : IsValid on_bybit
unfolding at ◌*ℤ◌
bybit-IsValid = record {
  bid_pos = ltb_D→<D d_zero (lit 103 0) refl;
  bid_quantity_nonneg = leb_D→≤D d_zero (lit 1 0) refl;
  ask_pos = ltb_D→<D d_zero (lit 104 0) refl;
  ask_quantity_nonneg = leb_D→≤D d_zero (lit 2 0) refl;
}

abbrev one_quote : QuoteCache
one_quote = (update empty_cache on_binance).0

abbrev two_quotes : QuoteCache
two_quotes = (update one_quote on_bybit).0

one_quote-IsCache : IsCache one_quote
one_quote-IsCache = update-IsCache empty_cache on_binance binance-IsValid empty_cache-IsCache

two_quotes-IsCache : IsCache two_quotes
two_quotes-IsCache = update-IsCache one_quote on_bybit bybit-IsValid one_quote-IsCache

update-IsCache_example : IsCache two_quotes
update-IsCache_example = update-IsCache one_quote on_bybit bybit-IsValid one_quote-IsCache

get-update_example : get (update one_quote on_bybit).0 bybit spot "BTC-USDT" ≡ (
    if (update one_quote on_bybit).1 && stands_at on_bybit bybit spot "BTC-USDT"
    then some on_bybit
    else get one_quote bybit spot "BTC-USDT")
get-update_example = get-update one_quote on_bybit bybit spot "BTC-USDT"

abbrev fees : Fees
fees = (binance, lit 1 3) ∷ (bybit, lit 1 3) ∷ []

fees-IsFees : IsFees fees
unfolding at ◌*ℤ◌
fees-IsFees = (
  record { nonneg = leb_D→≤D d_zero (lit 1 3) refl; le-one = leb_D→≤D (lit 1 3) d_one refl },
  (record { nonneg = leb_D→≤D d_zero (lit 1 3) refl; le-one = leb_D→≤D (lit 1 3) d_one refl }, tt),
)

abbrev trading : TradingConfig
trading = record {
  market_type = spot;
  symbols = "BTC-USDT" ∷ "ETH-USDT" ∷ [];
  max_quote_age_ms = pos 1000;
  max_timestamp_diff_ms = pos 1500;
  min_executable_quantity = d_zero;
  min_executable_notional = lit 10 0;
}

compute_all-Returns_example :
    Returns
      (All (TableRow trading fees trading.symbols))
      (compute_all trading fees two_quotes (pos 1100))
compute_all-Returns_example =
    compute_all-Returns trading fees two_quotes (pos 1100) two_quotes-IsCache fees-IsFees

abbrev row : SpreadRow
row = record {
  symbol = "BTC-USDT";
  market_type = spot;
  buy_exchange = binance;
  sell_exchange = bybit;
  buy_price = lit 100 0;
  sell_price = lit 103 0;
  gross_spread_pct = lit 3 0;
  net_spread_pct = lit 28 1;
  executable_quantity = lit 1 0;
  executable_notional = lit 100 0;
  expected_net_profit = lit 28 1;
  quote_age_ms = pos 95;
  timestamp_diff_ms = pos 0;
  stale = false;
  valid = true;
}

abbrev direction : DirectionKey
direction = ("BTC-USDT", (binance, bybit))

lookup-process_example : lookup direction (process (lit 1 3) [] (row ∷ []) (pos 1100)).0 ≡ (
    if seen direction (row ∷ [])
    then after_rows (lit 1 3) (pos 1100) direction (row ∷ []) (lookup direction [])
    else none)
lookup-process_example = lookup-process (lit 1 3) [] (row ∷ []) (pos 1100) direction tt

process-Bounded_example :
    AllOpen (lit 1 3) (process (lit 1 3) [] (row ∷ []) (pos 1100)).0
    × AllClosed (lit 1 3) (process (lit 1 3) [] (row ∷ []) (pos 1100)).1
process-Bounded_example = process-Bounded (lit 1 3) (pos 1100) [] (row ∷ []) tt

abbrev recording : Recording
recording = record {
  database = record {
    write_queue_size = 2;
    queue_overflow_policy = drop_oldest;
    batch_max_rows = 10;
  };
  trading = trading;
  exchanges =
      (binance, record { enabled = true; taker_fee = lit 1 3 })
      ∷ (bybit, record { enabled = true; taker_fee = lit 1 3 })
      ∷ [];
  threshold = d_zero;
}

sample_quotes_once-Samples_example :
    Samples recording new_recorder two_quotes
      (pos 1100)
      (sample_quotes_once recording new_recorder two_quotes (pos 1100))
sample_quotes_once-Samples_example =
    sample_quotes_once-Samples recording new_recorder two_quotes (pos 1100)

sampled_run : (sample_quotes_once recording new_recorder two_quotes (pos 1100)).1 ≡ 2
unfolding sample_quotes_once empty_cache update get
sampled_run = refl
