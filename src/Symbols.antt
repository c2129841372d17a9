-- ===== src/Symbols.antt =====
-- The symbol table (backend/app/core/symbols.py): canonical symbols and those of each exchange.
pub mod RoundTrip
use p2p_treker.Prelude.{◌≡◌, Option, none, some, String, List, [], ◌∷◌}
use p2p_treker.Prelude.Dict.{Dict, Key, lookup, insert, pair_key, string_key}
use p2p_treker.Prelude.Result.{Result, ok, err, key_error, ◌>>=◌}
use p2p_treker.Models.{Exchange, binance, bybit, okx, exchange_key}

abbrev pub Natives : Type 0
Natives = Dict Exchange String

natives : String → String → String → Natives
natives on_binance on_bybit on_okx = (binance, on_binance) ∷ (bybit, on_bybit) ∷ (okx, on_okx) ∷ []

unfoldable pub symbol_map : Dict String Natives
unfolding natives
symbol_map =
    ("BTC-USDT", natives "BTCUSDT" "BTCUSDT" "BTC-USDT")
    ∷ ("ETH-USDT", natives "ETHUSDT" "ETHUSDT" "ETH-USDT")
    ∷ ("SOL-USDT", natives "SOLUSDT" "SOLUSDT" "SOL-USDT")
    ∷ ("BNB-USDT", natives "BNBUSDT" "BNBUSDT" "BNB-USDT")
    ∷ ("XRP-USDT", natives "XRPUSDT" "XRPUSDT" "XRP-USDT")
    ∷ []

instance abbrev pub native_key : Key (Exchange × String)
native_key = pair_key

abbrev pub Canonicals : Type 0
Canonicals = Dict (Exchange × String) String

-- The two `for`s of the comprehension.
index_natives : String → Canonicals → Natives → Canonicals
index_natives canonical index [] = index
index_natives canonical index ((exchange, native) ∷ rest) =
    index_natives canonical (insert (exchange, native) canonical index) rest

index_symbols : Canonicals → Dict String Natives → Canonicals
unfolding index_natives
index_symbols index [] = index
index_symbols index ((canonical, mapping) ∷ rest) =
    index_symbols (index_natives canonical index mapping) rest

unfoldable pub native_to_canonical : Canonicals
unfolding index_symbols
native_to_canonical = index_symbols [] symbol_map

-- `d[k]`
unfoldable pub found {ℓ} : {A : Type ℓ} → Option A → Result A
found none = err key_error
found (some a) = ok a

unfoldable pub to_native : String → Exchange → Result String
unfolding found
to_native canonical_symbol exchange =
    found (lookup canonical_symbol symbol_map) >>= λ mapping. found (lookup exchange mapping)

unfoldable pub to_canonical : String → Exchange → Result String
unfolding found
to_canonical native_symbol exchange = found (lookup (exchange, native_symbol) native_to_canonical)
