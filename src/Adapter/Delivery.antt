-- ===== src/Adapter/Delivery.antt =====
-- What an adapter delivers to the quote cache.
use p2p_treker.Prelude.{
  ◌≡◌, refl, sym, subst, false, Bool-cases, inl, inr, Option, none, some, String, List, [], ◌∷◌,
  All, All-imp, arith,
}
use p2p_treker.Prelude.Int.{ℤ}
use p2p_treker.Prelude.Dict.{string_key}
use p2p_treker.Prelude.Result.{Result, ok, err}
use p2p_treker.Decimal.{Decimal}
use p2p_treker.Models.{Exchange, binance, bybit, okx}
use p2p_treker.Models.Quote.{NormalizedQuote, IsValid}
use p2p_treker.QuoteCache.{QuoteCache, update}
use p2p_treker.QuoteCache.Invariant.{IsCache, update-IsCache}
use p2p_treker.Normalizer.Quotes.{
  IsQuoteOf, Quotes, normalize_book_ticker-Quotes, normalize_bbo-Quotes, handle-Quotes,
}
use p2p_treker.Spread.Engine.Pairs.{All-append}
use p2p_treker.Normalizer.{BookTicker, BboMessage, BookMessage, new_normalizer}
use p2p_treker.Adapter.{
  WebSocketConfig, Venue, Place, absent, opening, subscribing, receiving, sleeping, Adapter, Event,
  connects, stops, stop_ends, subscribes, unsubscribes, opens, sends, receives, keeps_alive, fails,
  wakes, natives, next_round, lose, connect_at, stopped, subscribed_with, subscribe, send_more,
  deliver, receive, receive_json, keep_alive, next_receive, run_step, step, history, new_adapter,
  has_socket, union_symbols,
}
use p2p_treker.Adapter.Venues.{binance_venue, bybit_venue, okx_venue}

-- Steps that deliver nothing.
module _ {State : Type 0} where
  quotes-next_round : (a : Adapter State) → (next_round a).quotes ≡ a.quotes
  unfolding next_round
  quotes-next_round a = ground arith

  quotes-next_receive : (a : Adapter State) → (next_receive a).quotes ≡ a.quotes
  unfolding next_receive
  quotes-next_receive a = ground arith

  quotes-stopped : (a : Adapter State) → (stopped a).quotes ≡ a.quotes
  unfolding stopped
  quotes-stopped a = ground arith

  quotes-lose :
      (config : WebSocketConfig) (a : Adapter State) (r : Decimal)
      → (lose config a r).quotes ≡ a.quotes
  unfolding lose
  quotes-lose config a r = ground arith

  quotes-connect_at :
      (config : WebSocketConfig) (p : Place) (a : Adapter State)
      → (connect_at config p a).quotes ≡ a.quotes
  unfolding connect_at
  quotes-connect_at config absent a =
      quotes-next_round (record a { stopping = false; delay = config.reconnect_initial_delay_s })
  quotes-connect_at config _ a = refl

module _ {State Message : Type 0} (venue : Venue State Message) (config : WebSocketConfig)
    (loads : String → Option Message) where
  module _ (Good : NormalizedQuote → Type 0)
      (parsed : (s : State) (m : Message) (t : ℤ) (q : NormalizedQuote)
        → (venue.parse s m t).1 ≡ ok (some q)
        → Good q) where
    deliver-All :
        (r : State × Result (Option NormalizedQuote)) (a : Adapter State)
        → ((q : NormalizedQuote) → r.1 ≡ ok (some q) → Good q)
        → All Good a.quotes
        → All Good (deliver r a).quotes
    unfolding deliver
    deliver-All (state, err e) a p h = h
    deliver-All (state, ok none) a p h = h
    deliver-All (state, ok (some q)) a p h = All-append Good a.quotes (q ∷ []) h (p q refl, tt)

    receive_json-All :
        (m : Option Message) (a : Adapter State) (t : ℤ)
        → All Good a.quotes
        → All Good (receive_json venue config loads m a t).quotes
    unfolding receive_json
    receive_json-All none a t h = h
    receive_json-All (some m) a t h =
        deliver-All (venue.parse a.state m t) (record a { last_message_at_ms = some t })
          (parsed a.state m t) h

    receive-All :
        (a : Adapter State) (raw : String) (t : ℤ)
        → All Good a.quotes
        → All Good (next_receive (receive venue config loads a raw t)).quotes
    unfolding receive next_receive
    receive-All a raw t h =
        subst (All Good) (sym (quotes-next_receive (receive venue config loads a raw t)))
          (elim (Bool-cases (string_key.beq raw "ping")) [
            | inl p ↦ rw p h
            | inr p ↦ elim (Bool-cases (string_key.beq raw "pong")) [
              | inl q ↦ rw (p, q) h
              | inr q ↦ rw (p, q) (receive_json-All (loads raw) a t h)
            ]
          ])

    subscribed_with-quotes :
        (native : Result (List String)) (a : Adapter State) (r : Decimal)
        → (subscribed_with venue config loads native a r).quotes ≡ a.quotes
    unfolding subscribed_with
    subscribed_with-quotes (err e) a r = quotes-lose config a r
    subscribed_with-quotes (ok native) a r = quotes-next_receive _

    subscribe-quotes :
        (a : Adapter State) (symbols : List String)
        → (subscribe venue config loads a symbols).0.quotes ≡ a.quotes
    unfolding subscribe
    subscribe-quotes a symbols = elim (Bool-cases (has_socket a.place)) [
      | inl t ↦ rw t (send (natives venue config loads symbols))
      | inr f ↦ rw f refl
    ]
      where
        send :
            (native : Result (List String))
            → (send_more venue config loads native
                (record a { symbols = union_symbols a.symbols symbols })).0.quotes
              ≡ a.quotes
        send (err e) = refl
        send (ok native) = refl

    keep_alive-quotes :
        (interval : Option Decimal) (payload : Option String) (a : Adapter State)
        → (keep_alive venue config loads interval payload a).quotes ≡ a.quotes
    unfolding keep_alive
    keep_alive-quotes none payload a = refl
    keep_alive-quotes (some _) none a = refl
    keep_alive-quotes (some _) (some payload) a = refl

    run_step-All :
        (p : Place) (a : Adapter State) (e : Event)
        → All Good a.quotes
        → All Good (run_step venue config loads p a e).quotes
    unfolding run_step
    run_step-All opening a opens h = h
    run_step-All opening a (fails r) h = rw (quotes-lose config a r) h
    run_step-All subscribing a (sends r) h = rw (subscribed_with-quotes a.native a r) h
    run_step-All subscribing a (fails r) h = rw (quotes-lose config a r) h
    run_step-All receiving a (receives raw t) h = receive-All a raw t h
    run_step-All receiving a keeps_alive h =
        rw (keep_alive-quotes venue.keepalive_interval_s venue.keepalive_payload a) h
    run_step-All receiving a (fails r) h = rw (quotes-lose config a r) h
    run_step-All sleeping a wakes h = rw (quotes-next_round a) h
    run_step-All _ a _ h = h

    step-All :
        (a : Adapter State) (e : Event)
        → All Good a.quotes
        → All Good (step venue config loads a e).quotes
    unfolding step
    step-All a connects h = rw (quotes-connect_at config a.place a) h
    step-All a stops h = h
    step-All a stop_ends h = rw (quotes-stopped a) h
    step-All a (subscribes symbols) h = rw (subscribe-quotes a symbols) h
    step-All a (unsubscribes symbols) h = h
    step-All a opens h = run_step-All a.place a opens h
    step-All a (sends r) h = run_step-All a.place a (sends r) h
    step-All a (receives raw t) h = run_step-All a.place a (receives raw t) h
    step-All a keeps_alive h = run_step-All a.place a keeps_alive h
    step-All a (fails r) h = run_step-All a.place a (fails r) h
    step-All a wakes h = run_step-All a.place a wakes h

    pub history-All :
        (a : Adapter State) (events : List Event)
        → All Good a.quotes
        → All Good (history venue config loads a events).quotes
    unfolding history
    history-All a [] h = h
    history-All a (e ∷ events) h = history-All (step venue config loads a e) events (step-All a e h)

-- `on_quote` of `build_adapters` (backend/app/main.py), called with one quote after the other.
pub fed : QuoteCache → List NormalizedQuote → QuoteCache
fed c [] = c
fed c (q ∷ qs) = fed (update c q).0 qs

fed-IsCache :
    (c : QuoteCache) (qs : List NormalizedQuote) → All IsValid qs → IsCache c → IsCache (fed c qs)
unfolding fed
fed-IsCache c [] h v = v
fed-IsCache c (q ∷ qs) h v = fed-IsCache (update c q).0 qs h.1 (update-IsCache c q h.0 v)

module _ {State Message : Type 0} (venue : Venue State Message) (config : WebSocketConfig)
    (loads : String → Option Message)
    (sound : (s : State) (m : Message) (t : ℤ) → Quotes venue.exchange (venue.parse s m t).1) where
  history-Delivered :
      (symbols : List String) (state : State) (events : List Event) (c : QuoteCache)
      → IsCache c
      → All
          (IsQuoteOf venue.exchange)
          (history venue config loads (new_adapter symbols state config) events).quotes
        × IsCache
            (fed c (history venue config loads (new_adapter symbols state config) events).quotes)
  unfolding new_adapter
  history-Delivered symbols state events c v =
      let a = new_adapter symbols state config in
      let qs = (history venue config loads a events).quotes in
      let good : All (IsQuoteOf venue.exchange) qs =
        history-All venue config loads (IsQuoteOf venue.exchange) parsed a events tt in
      (good, fed-IsCache c qs (All-imp qs (λ q g. g.valid) good) v)
    where
      parsed :
          (s : State) (m : Message) (t : ℤ) (q : NormalizedQuote)
          → (venue.parse s m t).1 ≡ ok (some q)
          → IsQuoteOf venue.exchange q
      parsed s m t q e = subst (Quotes venue.exchange) e (sound s m t)

-- The quotes that an adapter delivers, and a cache that it feeds.
abbrev pub Delivers : {State : Type 0} → Exchange → QuoteCache → Adapter State → Type 0
Delivers exchange c a = All (IsQuoteOf exchange) a.quotes × IsCache (fed c a.quotes)

module _ (decimal : String → Result Decimal) (config : WebSocketConfig) where
  -- In any history, whatever texts they receive, the adapters of Binance, OKX and Bybit deliver only
  -- valid spot quotes of their exchange under canonical symbols, and a cache of valid quotes, each in
  -- its own place, that one of them feeds stays one.
  pub adapters-Delivers :
      (symbols : List String) (events : List Event) (c : QuoteCache)
      (tickers : String → Option BookTicker) (bbos : String → Option BboMessage)
      (books : String → Option BookMessage)
      → IsCache c
      → Delivers binance c
          (history (binance_venue decimal) config tickers (new_adapter symbols tt config) events)
        × Delivers okx c
            (history (okx_venue decimal) config bbos (new_adapter symbols tt config) events)
        × Delivers bybit c (
            history
              (bybit_venue decimal)
              config
              books
              (new_adapter symbols new_normalizer config)
              events)
  adapters-Delivers symbols events c tickers bbos books v = (
    history-Delivered (binance_venue decimal) config tickers
        (λ s m t. normalize_book_ticker-Quotes decimal m t) symbols tt events c v,
    history-Delivered (okx_venue decimal) config bbos (λ s m t. normalize_bbo-Quotes decimal m t)
        symbols tt events c v,
    history-Delivered (bybit_venue decimal) config books (λ s m t. handle-Quotes decimal s m t)
        symbols new_normalizer events c v,
  )
