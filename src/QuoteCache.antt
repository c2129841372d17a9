-- ===== src/QuoteCache.antt =====
-- The quote cache (backend/app/quote_cache/cache.py): `quotes[exchange][market_type][symbol]`.
pub mod Updates
pub mod Invariant
use p2p_treker.Prelude.{
  ℕ, ◌+◌, ◌≡◌, Bool, true, false, Option, none, some, String, List, [], ◌∷◌, length, if◌then◌else◌,
}
use p2p_treker.Prelude.Int.{ℤ, ltb_ℤ}
use p2p_treker.Prelude.Dict.{Dict, lookup, lookup_or, insert, string_key}
use p2p_treker.Models.{Exchange, MarketType, exchange_key, market_key}
use p2p_treker.Models.Quote.{NormalizedQuote}

pub data ConnectionStatus : Type 0 where
  disconnected connecting connected reconnecting : ConnectionStatus

abbrev pub BySymbol : Type 0
BySymbol = Dict String NormalizedQuote

abbrev pub ByMarket : Type 0
ByMarket = Dict MarketType BySymbol

pub record QuoteCache : Type 0 where
  pub quotes : Dict Exchange ByMarket
  pub status : Dict Exchange ConnectionStatus

unfoldable pub empty_cache : QuoteCache
empty_cache = record { quotes = []; status = [] }

abbrev pub market_of : Dict Exchange ByMarket → Exchange → ByMarket
market_of quotes exchange = lookup_or exchange [] quotes

abbrev pub symbols_of : Dict Exchange ByMarket → Exchange → MarketType → BySymbol
symbols_of quotes exchange market = lookup_or market [] (market_of quotes exchange)

-- `.get(exchange, {}).get(market_type, {}).get(symbol)`
unfoldable pub get : QuoteCache → Exchange → MarketType → String → Option NormalizedQuote
get c exchange market symbol = lookup symbol (symbols_of c.quotes exchange market)

-- Both sequences are known, and the new one is smaller.
pub older : Option ℤ → Option ℤ → Bool
older (some new) (some current) = ltb_ℤ new current
older _ _ = false

pub out_of_order : NormalizedQuote → Option NormalizedQuote → Bool
unfolding older
out_of_order quote none = false
out_of_order quote (some current) = older quote.sequence current.sequence

store : QuoteCache → NormalizedQuote → QuoteCache
store c quote =
    let by_symbol =
      insert quote.symbol quote (symbols_of c.quotes quote.exchange quote.market_type) in
    let by_market = insert quote.market_type by_symbol (market_of c.quotes quote.exchange) in
    record c { quotes = insert quote.exchange by_market c.quotes }

-- A quote that is dropped finds both inner dicts, so its `setdefault` calls change nothing.
unfoldable pub update : QuoteCache → NormalizedQuote → QuoteCache × Bool
unfolding get out_of_order store
update c quote =
    if out_of_order quote (get c quote.exchange quote.market_type quote.symbol)
    then (c, false)
    else (store c quote, true)

-- One exchange of the loop in `snapshot`.
pub quote_at : MarketType → String → ByMarket → Option NormalizedQuote
quote_at market symbol by_market = lookup symbol (lookup_or market [] by_market)

pub snapshot_of : MarketType → String → Dict Exchange ByMarket → Dict Exchange NormalizedQuote
unfolding quote_at
snapshot_of market symbol [] = []
snapshot_of market symbol ((exchange, by_market) ∷ rest) =
    let others = snapshot_of market symbol rest in
    elim (quote_at market symbol by_market) [
      | none ↦ others
      | some quote ↦ (exchange, quote) ∷ others
    ]

unfoldable pub snapshot : QuoteCache → MarketType → String → Dict Exchange NormalizedQuote
unfolding snapshot_of
snapshot c market symbol = snapshot_of market symbol c.quotes

unfoldable pub set_status : QuoteCache → Exchange → ConnectionStatus → QuoteCache
set_status c exchange status = record c { status = insert exchange status c.status }

unfoldable pub get_status : QuoteCache → Exchange → ConnectionStatus
get_status c exchange = lookup_or exchange disconnected c.status

count_symbols : ByMarket → ℕ
count_symbols [] = 0
count_symbols ((_, by_symbol) ∷ rest) = length by_symbol + count_symbols rest

count_quotes : Dict Exchange ByMarket → ℕ
unfolding count_symbols
count_quotes [] = 0
count_quotes ((_, by_market) ∷ rest) = count_symbols by_market + count_quotes rest

pub quote_count : QuoteCache → ℕ
unfolding count_quotes
quote_count c = count_quotes c.quotes
