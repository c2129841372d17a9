-- ===== src/Spread/Engine.antt =====
-- `SpreadEngine` (backend/app/spread/engine.py): both directions of each pair of exchanges.
pub mod Pairs
pub mod Rows
pub mod Table
use p2p_treker.Prelude.{
  ◌≡◌, Bool, true, false, not, ◌&&◌, ◌||◌, Option, none, some, String, List, [], ◌∷◌, ◌++◌, map,
  filter, if◌then◌else◌,
}
use p2p_treker.Prelude.Int.{ℤ, pos, ◌-ℤ◌, leb_ℤ, ltb_ℤ, nat_abs}
use p2p_treker.Prelude.Dict.{Dict, lookup, contains, insert, values, string_key}
use p2p_treker.Prelude.Result.{Result, ok, err, value_error, key_error, ◌>>=◌, ◌>>◌, raise_if}
use p2p_treker.Decimal.{Decimal, d_zero, d_hundred, ◌*D◌, leb_D, ltb_D}
use p2p_treker.Models.{Exchange, MarketType, exchange_key}
use p2p_treker.Models.Quote.{NormalizedQuote, quote_age_ms, is_stale}
use p2p_treker.QuoteCache.{QuoteCache, snapshot}
use p2p_treker.Spread.Formulas.{
  gross_spread, net_spread, executable_quantity, executable_notional, expected_net_profit,
  ensure_comparable,
}

-- `calculation_version` is always the constant 1.
pub record SpreadRow : Type 0 where
  pub symbol : String
  pub market_type : MarketType
  pub buy_exchange : Exchange
  pub sell_exchange : Exchange
  pub buy_price : Decimal
  pub sell_price : Decimal
  pub gross_spread_pct : Decimal
  pub net_spread_pct : Decimal
  pub executable_quantity : Decimal
  pub executable_notional : Decimal
  pub expected_net_profit : Decimal
  pub quote_age_ms : ℤ
  pub timestamp_diff_ms : ℤ
  pub stale : Bool
  pub valid : Bool

-- The fields of `TradingConfig` that the engine reads.
pub record TradingConfig : Type 0 where
  pub market_type : MarketType
  pub symbols : List String
  pub max_quote_age_ms : ℤ
  pub max_timestamp_diff_ms : ℤ
  pub min_executable_quantity : Decimal
  pub min_executable_notional : Decimal

pub record ExchangeConfig : Type 0 where
  pub enabled : Bool
  pub taker_fee : Decimal

abbrev pub Fees : Type 0
Fees = Dict Exchange Decimal

-- `{exchange: cfg.taker_fee for exchange, cfg in ... if cfg.enabled}`
unfoldable pub enabled_fees : Dict Exchange ExchangeConfig → Fees
enabled_fees [] = []
enabled_fees ((exchange, cfg) ∷ rest) =
    let others = enabled_fees rest in
    if cfg.enabled then (exchange, cfg.taker_fee) ∷ others else others

unfoldable pub update_taker_fee : Fees → Exchange → Decimal → Result Fees
update_taker_fee fees exchange fee = do
  raise_if (ltb_D fee d_zero) (value_error "fee must be non-negative")
  ok (insert exchange fee fees)

-- `self._taker_fees[exchange]`
fee_at : Fees → Exchange → Result Decimal
fee_at fees exchange = elim (lookup exchange fees) [ none ↦ err key_error | some fee ↦ ok fee ]

max_ℤ : ℤ → ℤ → ℤ
max_ℤ a b = if ltb_ℤ a b then b else a

-- `volume_ok`
volume_ok : TradingConfig → Decimal → Decimal → Bool
volume_ok trading quantity notional =
    leb_D trading.min_executable_quantity quantity
    && (ltb_D d_zero quantity && leb_D trading.min_executable_notional notional)

-- Fresh, aligned in time, and of a sufficient volume.
row_valid : TradingConfig → Bool → ℤ → Decimal → Decimal → Bool
unfolding volume_ok
row_valid trading stale ts_diff_ms quantity notional =
    not stale
    && (leb_ℤ ts_diff_ms trading.max_timestamp_diff_ms && volume_ok trading quantity notional)

-- The quotes' ages and timestamps.
either_stale : TradingConfig → NormalizedQuote → NormalizedQuote → ℤ → Bool
either_stale trading buy_quote sell_quote now_ms =
    is_stale buy_quote now_ms trading.max_quote_age_ms
    || is_stale sell_quote now_ms trading.max_quote_age_ms

timestamp_diff : NormalizedQuote → NormalizedQuote → ℤ
timestamp_diff buy_quote sell_quote =
    pos (nat_abs (buy_quote.exchange_timestamp -ℤ sell_quote.exchange_timestamp))

make_row :
    TradingConfig → NormalizedQuote → NormalizedQuote → ℤ → Decimal → Decimal → Decimal → SpreadRow
unfolding either_stale timestamp_diff row_valid max_ℤ
make_row trading buy_quote sell_quote now_ms gross net net_profit =
    let quantity = executable_quantity buy_quote.ask_quantity sell_quote.bid_quantity in
    let notional = executable_notional quantity buy_quote.ask_price in
    let stale = either_stale trading buy_quote sell_quote now_ms in
    let ts_diff_ms = timestamp_diff buy_quote sell_quote in
    record {
      symbol = buy_quote.symbol;
      market_type = buy_quote.market_type;
      buy_exchange = buy_quote.exchange;
      sell_exchange = sell_quote.exchange;
      buy_price = buy_quote.ask_price;
      sell_price = sell_quote.bid_price;
      gross_spread_pct = gross *D d_hundred;
      net_spread_pct = net *D d_hundred;
      executable_quantity = quantity;
      executable_notional = notional;
      expected_net_profit = net_profit;
      quote_age_ms = max_ℤ (quote_age_ms buy_quote now_ms) (quote_age_ms sell_quote now_ms);
      timestamp_diff_ms = ts_diff_ms;
      stale = stale;
      valid = row_valid trading stale ts_diff_ms quantity notional;
    }

-- `_compute_pair`: buy at the ask of one exchange, sell at the bid of the other.
unfoldable pub compute_pair :
    TradingConfig → Fees → NormalizedQuote → NormalizedQuote → ℤ → Result SpreadRow
unfolding fee_at make_row
compute_pair trading fees buy_quote sell_quote now_ms = do
  ensure_comparable buy_quote sell_quote
  let buy_ask = buy_quote.ask_price
  let sell_bid = sell_quote.bid_price
  buy_fee ← fee_at fees buy_quote.exchange
  sell_fee ← fee_at fees sell_quote.exchange
  gross ← gross_spread buy_ask sell_bid
  net ← net_spread buy_ask sell_bid buy_fee sell_fee
  let quantity = executable_quantity buy_quote.ask_quantity sell_quote.bid_quantity
  net_profit ← expected_net_profit quantity buy_ask sell_bid buy_fee sell_fee
  ok (make_row trading buy_quote sell_quote now_ms gross net net_profit)

-- `permutations(xs, 2)`: each element with each of the others, in the order of the positions.
unfoldable pub pairs_from : {A : Type 0} → List A → List A → List (A × A)
pairs_from before [] = []
pairs_from before (x ∷ after) =
    map (λ y. (x, y)) (before ++ after) ++ pairs_from (before ++ (x ∷ [])) after

unfoldable pub permutations : {A : Type 0} → List A → List (A × A)
unfolding pairs_from
permutations xs = pairs_from [] xs

unfoldable pub available_quotes :
    Fees → Dict Exchange NormalizedQuote → Dict Exchange NormalizedQuote
available_quotes fees quotes = filter (λ entry. contains entry.0 fees) quotes

-- The inner loop, over the pairs of one symbol.
unfoldable pub rows_of_pairs :
    TradingConfig → Fees → ℤ → List (NormalizedQuote × NormalizedQuote) → Result (List SpreadRow)
rows_of_pairs trading fees now_ms [] = ok []
rows_of_pairs trading fees now_ms ((buy_quote, sell_quote) ∷ pairs) = do
  row ← compute_pair trading fees buy_quote sell_quote now_ms
  rows ← rows_of_pairs trading fees now_ms pairs
  ok (row ∷ rows)

symbol_pairs : TradingConfig → Fees → QuoteCache → String → List (NormalizedQuote × NormalizedQuote)
symbol_pairs trading fees cache symbol =
    permutations (values (available_quotes fees (snapshot cache trading.market_type symbol)))

unfoldable pub rows_of_symbols :
    TradingConfig → Fees → QuoteCache → ℤ → List String → Result (List SpreadRow)
unfolding symbol_pairs
rows_of_symbols trading fees cache now_ms [] = ok []
rows_of_symbols trading fees cache now_ms (symbol ∷ symbols) = do
  rows ← rows_of_pairs trading fees now_ms (symbol_pairs trading fees cache symbol)
  others ← rows_of_symbols trading fees cache now_ms symbols
  ok (rows ++ others)

unfoldable pub compute_all : TradingConfig → Fees → QuoteCache → ℤ → Result (List SpreadRow)
unfolding rows_of_symbols
compute_all trading fees cache now_ms = rows_of_symbols trading fees cache now_ms trading.symbols
