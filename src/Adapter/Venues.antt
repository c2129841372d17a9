-- ===== src/Adapter/Venues.antt =====
-- The adapters of Binance, Bybit and OKX (backend/app/exchanges): what each sends, and how it reads
-- a message. Symbols of the table have no character that JSON escapes, and are ASCII.
use Prim.Native.Char.{Char, code}
use Prim.Native.String.{char_at, ◌++◌}
use p2p_treker.Prelude.{◌-◌, ◌&&◌, leb, String, List, [], ◌∷◌, map, none, some, if◌then◌else◌}
use p2p_treker.Prelude.Result.{Result}
use p2p_treker.Decimal.{Decimal, lit}
use p2p_treker.Models.{binance, bybit, okx}
use p2p_treker.Normalizer.{
  BookTicker, BboMessage, BookMessage, Normalizer, reset, normalize_book_ticker, normalize_bbo,
  handle,
}
use p2p_treker.Adapter.{Venue}

-- `s.lower()`
lower_char : Char → Char
lower_char c =
    if leb 65 (code c) && leb (code c) 90
    then char_at "abcdefghijklmnopqrstuvwxyz" (code c - 65)
    else c

lower : String → String
unfolding lower_char
lower String.[] = String.[]
lower (String.◌∷◌ c s) = String.◌∷◌ (lower_char c) (lower s)

-- The list of `json.dumps`, of values that are written already.
join_comma : List String → String
join_comma [] = ""
join_comma (s ∷ []) = s
join_comma (s ∷ t ∷ ss) = s ++ (", " ++ join_comma (t ∷ ss))

json_text : String → String
json_text s = "\"" ++ (s ++ "\"")

json_list : List String → String
unfolding join_comma
json_list ss = "[" ++ (join_comma ss ++ "]")

unfoldable pub binance_payloads : List String → List String
unfolding lower json_text json_list
binance_payloads native_symbols =
    ("{\"method\": \"SUBSCRIBE\", \"params\": "
      ++ (json_list (map (λ s. json_text (lower s ++ "@bookTicker")) native_symbols)
          ++ ", \"id\": 1}"))
    ∷ []

pub bybit_payloads : List String → List String
unfolding json_text json_list
bybit_payloads native_symbols =
    ("{\"op\": \"subscribe\", \"args\": "
      ++ (json_list (map (λ s. json_text ("orderbook.1." ++ s)) native_symbols) ++ "}"))
    ∷ []

okx_arg : String → String
unfolding json_text
okx_arg s = "{\"channel\": \"bbo-tbt\", \"instId\": " ++ (json_text s ++ "}")

pub okx_payloads : List String → List String
unfolding okx_arg json_list
okx_payloads native_symbols =
    ("{\"op\": \"subscribe\", \"args\": " ++ (json_list (map okx_arg native_symbols) ++ "}")) ∷ []

module _ (decimal : String → Result Decimal) where
  abbrev pub binance_venue : Venue (Unit {0}) BookTicker
  binance_venue = record {
    exchange = binance;
    keepalive_interval_s = none;
    keepalive_payload = none;
    subscribe_payloads = binance_payloads;
    parse = λ s message received. (s, normalize_book_ticker decimal message received);
    on_reconnect = λ s. s;
  }

  abbrev pub bybit_venue : Venue Normalizer BookMessage
  bybit_venue = record {
    exchange = bybit;
    keepalive_interval_s = some (lit 20 0);
    keepalive_payload = some "{\"op\": \"ping\"}";
    subscribe_payloads = bybit_payloads;
    parse = handle decimal;
    on_reconnect = reset;
  }

  abbrev pub okx_venue : Venue (Unit {0}) BboMessage
  okx_venue = record {
    exchange = okx;
    keepalive_interval_s = some (lit 25 0);
    keepalive_payload = some "ping";
    subscribe_payloads = okx_payloads;
    parse = λ s message received. (s, normalize_bbo decimal message received);
    on_reconnect = λ s. s;
  }
