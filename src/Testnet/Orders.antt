-- ===== src/Testnet/Orders.antt =====
-- Orders that are created once (backend/app/testnet/binance.py).
use p2p_treker.Prelude.{
  ◌≡◌, refl, sym, ap, ◌∙◌, false, not, ◌&&◌, Bool-cases, if-elim, inl, inr, Option, none, some,
  String, List, [], ◌∷◌,
}
use p2p_treker.Prelude.Int.{ℤ}
use p2p_treker.Prelude.Dict.{Dict, string_key, lookup, lookup-insert, lookup_congr}
use p2p_treker.Prelude.Result.{Result, ok, err, ◌>>=◌}
use p2p_treker.Decimal.{Decimal}
use p2p_treker.Testnet.{
  Request, Reply, Client, NewOrder, OrderQuery, order_id, TestnetOrderResult, Outcome, Answered,
  request, given, order_params, parse_order, stored, create_with, create_order, ask,
  get_order_status, cancel_order,
}

none-some : {A : Type 0} {a : A} → none ≡ some a → ⊥
none-some e = absurd cc

-- A call of the client.
pub data Operation : Type 0 where
  creates : NewOrder → Operation
  reads : OrderQuery → Operation
  cancels : OrderQuery → Operation

module _ {Server : Type 0} (call : Request → Server → Server × Reply)
    (sign : Dict String String → String) (number_text : ℤ → String)
    (decimal_text : Decimal → String) (decimal : String → Result Decimal) where
  abbrev create : Client → NewOrder → Server → Outcome Server
  create = create_order call sign number_text decimal_text decimal

  unfoldable pub perform : Operation → Client → Server → Outcome Server
  perform (creates o) c server = create_order call sign number_text decimal_text decimal c o server
  perform (reads q) c server =
      get_order_status call sign number_text decimal_text decimal c q server
  perform (cancels q) c server = cancel_order call sign number_text decimal_text decimal c q server

  -- Calls one after the other.
  unfoldable pub perform_all : List Operation → Client → Server → Client × Server
  unfolding perform
  perform_all [] c server = (c, server)
  perform_all (operation ∷ operations) c server =
      let a = perform operation c server in perform_all operations a.client a.server

  ask-client :
      (method : String) (c : Client) (q : OrderQuery) (server : Server)
      → (ask call sign number_text decimal_text decimal method c q server).client ≡ c
  unfolding ask
  ask-client method c q server =
      if-elim (λ (x : Outcome Server). x.client ≡ c)
        (not (given q.client_order_id) && not (given q.exchange_order_id)) _ _ (λ p. refl)
        (λ p. refl)

  module _ (id : String) (order : TestnetOrderResult) where
    abbrev Holds : Client → Type 0
    Holds c = lookup id c.idempotency_cache ≡ some order

    stored-Holds :
        (c : Client) (other : String) (a : Answered Server) (r : Result TestnetOrderResult)
        → string_key.beq other id ≡ false
        → Holds c
        → Holds (stored call sign number_text decimal_text decimal c other a r).client
    unfolding stored
    stored-Holds c other a (err raised) e h = h
    stored-Holds c other a (ok new) e h = lookup-insert other id new c.idempotency_cache ∙ rw e h

    create_with-Holds :
        (c : Client) (o : NewOrder) (cached : Option TestnetOrderResult) (server : Server)
        → lookup (order_id o) c.idempotency_cache ≡ cached
        → Holds c
        → Holds (create_with call sign number_text decimal_text decimal c o cached server).client
    unfolding create_with
    create_with-Holds c o (some found) server e h = h
    create_with-Holds c o none server e h =
        let a =
          request call sign number_text decimal_text decimal c "POST" "/api/v3/order"
            (order_params call sign number_text decimal_text decimal o) o.timestamp server in
        elim (Bool-cases (string_key.beq (order_id o) id)) [
          | inl p ↦
              absurd (none-some (sym e ∙ lookup_congr (order_id o) id c.idempotency_cache p ∙ h))
          | inr p ↦ stored-Holds c (order_id o) a (a.result >>= parse_order decimal) p h
        ]

    perform-Holds :
        (operation : Operation) (c : Client) (server : Server)
        → Holds c
        → Holds (perform operation c server).client
    unfolding perform create_order get_order_status cancel_order
    perform-Holds (creates o) c server h =
        create_with-Holds c o (lookup (order_id o) c.idempotency_cache) server refl h
    perform-Holds (reads q) c server h = rw (ask-client "GET" c q server) h
    perform-Holds (cancels q) c server h = rw (ask-client "DELETE" c q server) h

    perform_all-Holds :
        (operations : List Operation) (c : Client) (server : Server)
        → Holds c
        → Holds (perform_all operations c server).0
    unfolding perform_all
    perform_all-Holds [] c server h = h
    perform_all-Holds (operation ∷ operations) c server h =
        let a = perform operation c server in
        perform_all-Holds operations a.client a.server (perform-Holds operation c server h)

    stored-result :
        (c : Client) (a : Answered Server) (r : Result TestnetOrderResult)
        → (stored call sign number_text decimal_text decimal c id a r).result ≡ ok order
        → Holds (stored call sign number_text decimal_text decimal c id a r).client
    unfolding stored
    stored-result c a (err raised) e = absurd cc
    stored-result c a (ok new) e =
        lookup-insert id id new c.idempotency_cache ∙ rw (string_key.beq_refl id) cc

  created-Holds :
      (order : TestnetOrderResult) (c : Client) (o : NewOrder) (cached : Option TestnetOrderResult)
      (server : Server)
      → lookup (order_id o) c.idempotency_cache ≡ cached
      → (create_with call sign number_text decimal_text decimal c o cached server).result ≡ ok order
      → Holds
          (order_id o)
          order
          (create_with call sign number_text decimal_text decimal c o cached server).client
  unfolding create_with
  created-Holds order c o (some found) server h e = cc
  created-Holds order c o none server h e =
      let a =
        request call sign number_text decimal_text decimal c "POST" "/api/v3/order"
          (order_params call sign number_text decimal_text decimal o) o.timestamp server in
      stored-result (order_id o) order c a (a.result >>= parse_order decimal) e

  cached_again :
      (order : TestnetOrderResult) (c : Client) (o : NewOrder) (server : Server)
      → Holds (order_id o) order c
      → create_order call sign number_text decimal_text decimal c o server
        ≡ record { client = c; server = server; sleeps = []; result = ok order }
  unfolding create_order create_with
  cached_again order c o server h =
      ap
        (λ (cached : Option TestnetOrderResult).
          create_with call sign number_text decimal_text decimal c o cached server)
        h

  -- Once an order is created, then whatever calls follow, creating an order under the same client
  -- order id again gives the same result, sends nothing to the exchange, does not sleep and leaves
  -- the client as it is.
  pub created_once :
      (c : Client) (o again : NewOrder) (order : TestnetOrderResult) (operations : List Operation)
      (server : Server)
      → (create_order call sign number_text decimal_text decimal c o server).result ≡ ok order
      → order_id again ≡ order_id o
      → (let a = create_order call sign number_text decimal_text decimal c o server in
          let x = perform_all operations a.client a.server in
          create_order call sign number_text decimal_text decimal x.0 again x.1
          ≡ record { client = x.0; server = x.1; sleeps = []; result = ok order })
  unfolding create_order
  created_once c o again order operations server h i =
      let a = create_order call sign number_text decimal_text decimal c o server in
      let first : Holds (order_id o) order a.client =
        created-Holds order c o (lookup (order_id o) c.idempotency_cache) server refl h in
      let kept = perform_all-Holds (order_id o) order operations a.client a.server first in
      let x = perform_all operations a.client a.server in
      cached_again order x.0 again x.1
        (ap (λ (k : String). lookup k x.0.idempotency_cache) i ∙ kept)
