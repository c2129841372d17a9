-- ===== src/Testnet.antt =====
-- The client of the test exchange (backend/app/testnet/binance.py).
--
-- The exchange is a state of any kind that answers a request; the signature of the parameters, the
-- text of a number and its reading are arguments. A payload is the dict of the texts of its values,
-- which is all that the code reads of them. Seconds are decimals.
pub mod Retries
pub mod Orders
use p2p_treker.Prelude.{
  ℕ, zero, suc, ◌+◌, ◌*◌, ◌^◌, Bool, true, false, not, ◌&&◌, Option, none, some, String, List, [],
  ◌∷◌, ◌++◌, leb, if◌then◌else◌,
}
use p2p_treker.Prelude.Int.{ℤ, pos, ◌*ℤ◌}
use p2p_treker.Prelude.Dict.{Dict, string_key, lookup, lookup_or, insert}
use p2p_treker.Prelude.Result.{
  Result, ok, err, ◌>>=◌, key_error, value_error, testnet_rejected, testnet_retryable,
}
use p2p_treker.Decimal.{Decimal, d_zero, lit, ltb_D, ◌*D◌}
use p2p_treker.Decimal.Division.{div_D}

abbrev pub Payload : Type 0
Payload = Dict String String

pub record TestnetOrderResult : Type 0 where
  pub client_order_id : String
  pub exchange_order_id : String
  pub status : String
  pub filled_quantity : Decimal
  pub avg_price : Option Decimal
  pub raw : Payload

abbrev found : Option String → Result String
found none = err key_error
found (some text) = ok text

pub parse_order : (String → Result Decimal) → Payload → Result TestnetOrderResult
parse_order decimal payload = do
  executed_qty ← decimal (lookup_or "executedQty" "0" payload)
  cumulative_quote ← decimal (lookup_or "cummulativeQuoteQty" "0" payload)
  client_order_id ← found (lookup "clientOrderId" payload)
  exchange_order_id ← found (lookup "orderId" payload)
  status ← found (lookup "status" payload)
  ok (record {
    client_order_id = client_order_id;
    exchange_order_id = exchange_order_id;
    status = status;
    filled_quantity = executed_qty;
    avg_price =
        if ltb_D d_zero executed_qty then some (div_D cumulative_quote executed_qty) else none;
    raw = payload;
  })

pub record Request : Type 0 where
  pub method : String
  pub path : String
  pub query_string : String
  pub api_key : String

-- What comes of an attempt: no answer, or a status with a body that may not be JSON.
pub data Reply : Type 0 where
  transport_error : Reply
  response : ℕ → Result Payload → Reply

abbrev pub is_transient : Reply → Bool
is_transient transport_error = true
is_transient (response status_code body) = leb 500 status_code

-- The end of the loop for a reply that is not tried again, or was the last one.
unfoldable pub decided : Reply → Result Payload
decided transport_error = err testnet_retryable
decided (response status_code body) =
    if leb 500 status_code
    then err testnet_retryable
    else if leb 400 status_code
    then err testnet_rejected
    else body

-- The exchange after a request, the seconds slept between the attempts, and what the call gives.
pub record Answered (Server : Type 0) : Type 0 where
  pub server : Server
  pub sleeps : List Decimal
  pub result : Result Payload

-- The settings and the cache of a client.
pub record Client : Type 0 where
  pub api_key : String
  pub max_retries : ℕ
  pub backoff_base_s : Decimal
  pub recv_window_ms : ℕ
  pub idempotency_cache : Dict String TestnetOrderResult

-- The arguments of `create_order`; `fresh` is what `uuid4` gives, `timestamp` the reading of the
-- clock.
pub record NewOrder : Type 0 where
  pub symbol : String
  pub side : String
  pub quantity : Decimal
  pub order_type : String
  pub price : Option Decimal
  pub client_order_id : Option String
  pub fresh : String
  pub timestamp : ℤ

-- The arguments of `get_order_status` and `cancel_order`.
pub record OrderQuery : Type 0 where
  pub symbol : String
  pub client_order_id : Option String
  pub exchange_order_id : Option String
  pub timestamp : ℤ

-- Whether an optional text counts as true.
abbrev pub given : Option String → Bool
given none = false
given (some text) = not (string_key.beq text "")

-- `client_order_id or uuid.uuid4().hex`
abbrev pub order_id : NewOrder → String
order_id o = elim o.client_order_id [
  | none ↦ o.fresh
  | some text ↦ if string_key.beq text "" then o.fresh else text
]

-- `if text: params[name] = text`
abbrev pub with_text : String → Option String → Dict String String → Dict String String
with_text name none params = params
with_text name (some text) params =
    if string_key.beq text "" then params else insert name text params

abbrev pub with_price :
    (Decimal → String) → String → Option Decimal → Dict String String → Dict String String
with_price decimal_text order_type none params = params
with_price decimal_text order_type (some price) params =
    if string_key.beq order_type "MARKET"
    then params
    else insert "timeInForce" "GTC" (insert "price" (decimal_text price) params)

-- What a call of the client leaves and gives.
pub record Outcome (Server : Type 0) : Type 0 where
  pub client : Client
  pub server : Server
  pub sleeps : List Decimal
  pub result : Result TestnetOrderResult

abbrev pub backoff : Decimal → ℕ → Decimal
backoff base attempt = base *D lit (2 ^ attempt) 0

module _ {Server : Type 0} (call : Request → Server → Server × Reply) where
  -- `left` attempts may follow this one.
  unfoldable pub attempts : Decimal → Request → ℕ → ℕ → Server → Answered Server
  unfolding decided
  attempts base request zero attempt server =
      let r = call request server in record { server = r.0; sleeps = []; result = decided r.1 }
  attempts base request (suc left) attempt server =
      let r = call request server in
      let later = attempts base request left (suc attempt) r.0 in
      if is_transient r.1
      then record later { sleeps = backoff base attempt ∷ later.sleeps }
      else record { server = r.0; sleeps = []; result = decided r.1 }

  module _ (sign : Dict String String → String) (number_text : ℤ → String)
      (decimal_text : Decimal → String) (decimal : String → Result Decimal) where
    -- `_request`; `timestamp` is the reading of the clock.
    unfoldable pub request :
        Client → String → String → Dict String String → ℤ → Server → Answered Server
    unfolding attempts
    request c method path params timestamp server =
        let signed_params =
          insert "recvWindow" (number_text (pos c.recv_window_ms))
            (insert "timestamp" (number_text timestamp) params) in
        attempts c.backoff_base_s
          (record {
            method = method;
            path = path;
            query_string = sign signed_params;
            api_key = c.api_key;
          })
          c.max_retries 0 server

    unfoldable pub order_params : NewOrder → Dict String String
    order_params o = with_price decimal_text o.order_type o.price (
        ("symbol", o.symbol)
        ∷ ("side", o.side)
        ∷ ("type", o.order_type)
        ∷ ("quantity", decimal_text o.quantity)
        ∷ ("newClientOrderId", order_id o)
        ∷ [])

    -- An order that the exchange accepted is kept in the cache.
    unfoldable pub stored :
        Client → String → Answered Server → Result TestnetOrderResult → Outcome Server
    stored c id a (err raised) = record {
      client = c;
      server = a.server;
      sleeps = a.sleeps;
      result = err raised;
    }
    stored c id a (ok order) = record {
      client = record c { idempotency_cache = insert id order c.idempotency_cache };
      server = a.server;
      sleeps = a.sleeps;
      result = ok order;
    }

    unfoldable pub create_with :
        Client → NewOrder → Option TestnetOrderResult → Server → Outcome Server
    unfolding request order_params stored parse_order
    create_with c o (some cached) server = record {
      client = c;
      server = server;
      sleeps = [];
      result = ok cached;
    }
    create_with c o none server =
        let a = request c "POST" "/api/v3/order" (order_params o) o.timestamp server in
        stored c (order_id o) a (a.result >>= parse_order decimal)

    unfoldable pub create_order : Client → NewOrder → Server → Outcome Server
    unfolding create_with
    create_order c o server = create_with c o (lookup (order_id o) c.idempotency_cache) server

    -- What `get_order_status` and `cancel_order` share.
    unfoldable pub ask : String → Client → OrderQuery → Server → Outcome Server
    unfolding request parse_order
    ask method c q server =
        if not (given q.client_order_id) && not (given q.exchange_order_id)
        then record {
          client = c;
          server = server;
          sleeps = [];
          result = err (value_error "must provide client_order_id or exchange_order_id");
        }
        else let params =
            with_text "orderId" q.exchange_order_id
              (with_text "origClientOrderId" q.client_order_id (("symbol", q.symbol) ∷ [])) in
          let a = request c method "/api/v3/order" params q.timestamp server in
          record {
            client = c;
            server = a.server;
            sleeps = a.sleeps;
            result = a.result >>= parse_order decimal;
          }

    unfoldable pub get_order_status : Client → OrderQuery → Server → Outcome Server
    unfolding ask
    get_order_status = ask "GET"

    unfoldable pub cancel_order : Client → OrderQuery → Server → Outcome Server
    unfolding ask
    cancel_order = ask "DELETE"
