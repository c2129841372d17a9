-- ===== src/Tests/Exchange.antt =====
-- The client of the test exchange (backend/app/testnet/binance.py) with an exchange that gives
-- prepared replies.
use p2p_treker.Prelude.{◌≡◌, refl, none, some, String, List, [], ◌∷◌, if◌then◌else◌}
use p2p_treker.Prelude.Int.{ℤ, pos, ◌*ℤ◌}
use p2p_treker.Prelude.Dict.{Dict, string_key}
use p2p_treker.Prelude.Result.{Result, ok, err, value_error, testnet_rejected}
use p2p_treker.Decimal.{Decimal, lit, at}
use p2p_treker.Decimal.Division.{div_D}
use p2p_treker.Testnet.{
  Payload, TestnetOrderResult, Request, Reply, transport_error, response, Client, NewOrder,
  OrderQuery, Outcome, attempts, create_order,
}
use p2p_treker.Testnet.Retries.{IsVerdict, attempts-IsVerdict}
use p2p_treker.Testnet.Orders.{creates, reads, perform_all, created_once}

abbrev answer : Request → List Reply → List Reply × Reply
answer request [] = ([], transport_error)
answer request (r ∷ rs) = (rs, r)

abbrev sign : Dict String String → String
sign params = "signed"

abbrev number_text : ℤ → String
number_text n = "5000"

abbrev decimal_text : Decimal → String
decimal_text d = "0.5"

abbrev decimal : String → Result Decimal
decimal text =
    if string_key.beq text "0.5"
    then ok (lit 5 1)
    else if string_key.beq text "50.25"
    then ok (lit 5025 2)
    else err (value_error "not a number")

abbrev payload : Payload
payload =
    ("clientOrderId", "a1")
    ∷ ("orderId", "77")
    ∷ ("status", "FILLED")
    ∷ ("executedQty", "0.5")
    ∷ ("cummulativeQuoteQty", "50.25")
    ∷ []

abbrev client : Client
client = record {
  api_key = "key";
  max_retries = 3;
  backoff_base_s = lit 5 1;
  recv_window_ms = 5000;
  idempotency_cache = [];
}

abbrev order : NewOrder
order = record {
  symbol = "BTCUSDT";
  side = "BUY";
  quantity = lit 5 1;
  order_type = "MARKET";
  price = none;
  client_order_id = some "a1";
  fresh = "f0";
  timestamp = pos 1000;
}

abbrev other : NewOrder
other = record order { client_order_id = some "b2"; timestamp = pos 2000 }

abbrev query : OrderQuery
query = record {
  symbol = "BTCUSDT";
  client_order_id = some "a1";
  exchange_order_id = none;
  timestamp = pos 3000;
}

abbrev prepared : List Reply
prepared =
    response 503 (ok []) ∷ transport_error ∷ response 200 (ok payload) ∷ response 418 (ok []) ∷ []

abbrev post : Request
post = record { method = "POST"; path = "/api/v3/order"; query_string = "signed"; api_key = "key" }

attempts-IsVerdict_example :
    IsVerdict answer (lit 5 1) post 3 0 prepared (attempts answer (lit 5 1) post 3 0 prepared)
attempts-IsVerdict_example = attempts-IsVerdict answer (lit 5 1) post 3 0 prepared

rejected_run :
    (attempts answer (lit 5 1) post 3 0 (response 400 (ok []) ∷ prepared)).result
    ≡ err testnet_rejected
unfolding attempts
rejected_run = refl

abbrev created : Outcome (List Reply)
created = create_order answer sign number_text decimal_text decimal client order prepared

abbrev filled : TestnetOrderResult
filled = record {
  client_order_id = "a1";
  exchange_order_id = "77";
  status = "FILLED";
  filled_quantity = lit 5 1;
  avg_price = some (div_D (lit 5025 2) (lit 5 1));
  raw = payload;
}

created_filled : created.result ≡ ok filled
unfolding create_order at ◌*ℤ◌
created_filled = refl

created_once_example :
    create_order answer sign number_text decimal_text decimal
      (perform_all answer sign number_text decimal_text decimal
        (creates other ∷ reads query ∷ [])
        created.client
        created.server).0
      order
      (perform_all answer sign number_text decimal_text decimal
        (creates other ∷ reads query ∷ [])
        created.client
        created.server).1
    ≡ record {
      client =
          (perform_all answer sign number_text decimal_text decimal
            (creates other ∷ reads query ∷ [])
            created.client
            created.server).0;
      server =
          (perform_all answer sign number_text decimal_text decimal
            (creates other ∷ reads query ∷ [])
            created.client
            created.server).1;
      sleeps = [];
      result = ok filled;
    }
created_once_example =
    created_once answer sign number_text decimal_text decimal client order order filled
      (creates other ∷ reads query ∷ []) prepared created_filled refl
