-- ===== src/Adapter/Lifecycle.antt =====
-- The status of an adapter follows the place where `_run` stands.
use p2p_treker.Prelude.{
  ◌≡◌, refl, ◌∙◌, ℕ, ◌<◌, Bool-cases, inl, inr, true, false, Option, none, some, String, List, [],
  ◌∷◌, arith, ltb, if◌then◌else◌,
}
use p2p_treker.Prelude.Int.{ℤ}
use p2p_treker.Prelude.Dict.{string_key}
use p2p_treker.Prelude.Result.{Result, ok, err}
use p2p_treker.Decimal.{Decimal}
use p2p_treker.Models.Quote.{NormalizedQuote}
use p2p_treker.QuoteCache.{ConnectionStatus, disconnected, connecting, connected, reconnecting}
use p2p_treker.Adapter.{
  WebSocketConfig, Venue, Place, absent, opening, subscribing, receiving, sleeping, returned,
  Adapter, natives, Event, connects, stops, stop_ends, subscribes, unsubscribes, opens, sends,
  receives, keeps_alive, fails, wakes, run_step, step, history, next_round, lose, connect_at, stop,
  stopped, subscribed_with, subscribe, union_symbols, has_socket, receive_json, keep_alive,
  send_more, receive, next_receive, deliver,
}

-- The status while an attempt is under way.
abbrev pub attempt_status : ℕ → ConnectionStatus
attempt_status reconnects = if ltb 0 reconnects then reconnecting else connecting

abbrev pub Fits : {State : Type 0} → Place → Adapter State → Type 0
Fits absent a = a.status ≡ disconnected
Fits opening a = a.status ≡ attempt_status a.reconnect_count
Fits subscribing a = a.status ≡ attempt_status a.reconnect_count
Fits receiving a = a.status ≡ connected
Fits sleeping a = (a.status ≡ reconnecting) × (0 < a.reconnect_count)
Fits returned a = a.stopping ≡ true

module _ {State : Type 0} where
  -- What a text or a further subscription leaves alone.
  record Same (a b : Adapter State) : Type 0 where
    place : b.place ≡ a.place
    status : b.status ≡ a.status
    reconnects : b.reconnect_count ≡ a.reconnect_count
    stopping : b.stopping ≡ a.stopping

  Same-Fits : (a b : Adapter State) → Same a b → Fits a.place a → Fits b.place b
  Same-Fits a b s h = simp s.place (go a.place h)
    where
      go : (p : Place) → Fits p a → Fits p b
      go absent h = s.status ∙ h
      go opening h = s.status ∙ rw s.reconnects h
      go subscribing h = s.status ∙ rw s.reconnects h
      go receiving h = s.status ∙ h
      go sleeping h = (s.status ∙ h.0, rw s.reconnects h.1)
      go returned h = s.stopping ∙ h

  deliver-Same :
      (r : State × Result (Option NormalizedQuote)) (a : Adapter State) → Same a (deliver r a)
  unfolding deliver
  deliver-Same (state, err e) a = ground arith
  deliver-Same (state, ok none) a = ground arith
  deliver-Same (state, ok (some q)) a = ground arith

  next_round-Fits : (a : Adapter State) → Fits (next_round a).place (next_round a)
  unfolding next_round
  next_round-Fits a = ground arith

  lose-Fits :
      (config : WebSocketConfig) (a : Adapter State) (r : Decimal)
      → Fits (lose config a r).place (lose config a r)
  unfolding lose
  lose-Fits config a r = ground arith

  next_receive-Fits :
      (a : Adapter State)
      → a.place ≡ receiving
      → a.status ≡ connected
      → Fits (next_receive a).place (next_receive a)
  unfolding next_receive
  next_receive-Fits a p h = elim (Bool-cases a.stopping) [
    | inl t ↦ simp t refl
    | inr f ↦ simp (f, p) h
  ]

module _ {State Message : Type 0} (venue : Venue State Message) (config : WebSocketConfig)
    (loads : String → Option Message) where
  subscribed_with-Fits :
      (native : Result (List String)) (a : Adapter State) (r : Decimal)
      → Fits
          (subscribed_with venue config loads native a r).place
          (subscribed_with venue config loads native a r)
  unfolding subscribed_with
  subscribed_with-Fits (err e) a r = lose-Fits config a r
  subscribed_with-Fits (ok native) a r = next_receive-Fits _ refl refl

  receive-Same :
      (a : Adapter State) (raw : String) (received : ℤ)
      → Same a (receive venue config loads a raw received)
  unfolding receive
  receive-Same a raw received = elim (Bool-cases (string_key.beq raw "ping")) [
    | inl t ↦ rw t (record { place = refl; status = refl; reconnects = refl; stopping = refl })
    | inr f ↦ elim (Bool-cases (string_key.beq raw "pong")) [
      | inl t ↦
          rw (f, t) (record { place = refl; status = refl; reconnects = refl; stopping = refl })
      | inr g ↦ rw (f, g) (read (loads raw))
    ]
  ]
    where
      read : (m : Option Message) → Same a (receive_json venue config loads m a received)
      read none = record { place = refl; status = refl; reconnects = refl; stopping = refl }
      read (some message) =
          let s =
            deliver-Same (venue.parse a.state message received)
              (record a { last_message_at_ms = some received }) in
          record {
            place = s.place;
            status = s.status;
            reconnects = s.reconnects;
            stopping = s.stopping;
          }

  subscribe-Same :
      (a : Adapter State) (symbols : List String)
      → Same a (subscribe venue config loads a symbols).0
  unfolding subscribe
  subscribe-Same a symbols = elim (Bool-cases (has_socket a.place)) [
    | inl t ↦ rw t (send (natives venue config loads symbols))
    | inr f ↦ rw f (record { place = refl; status = refl; reconnects = refl; stopping = refl })
  ]
    where
      send :
          (native : Result (List String))
          → Same a
              (send_more venue config loads native
                (record a { symbols = union_symbols a.symbols symbols })).0
      send (err e) = record { place = refl; status = refl; reconnects = refl; stopping = refl }
      send (ok native) = record { place = refl; status = refl; reconnects = refl; stopping = refl }

  keep_alive-Same :
      (interval : Option Decimal) (payload : Option String) (a : Adapter State)
      → Same a (keep_alive venue config loads interval payload a)
  unfolding keep_alive
  keep_alive-Same none payload a = ground arith
  keep_alive-Same (some _) none a = ground arith
  keep_alive-Same (some _) (some payload) a = ground arith

  run_step-Fits :
      (p : Place) (a : Adapter State) (e : Event)
      → a.place ≡ p
      → Fits p a
      → Fits (run_step venue config loads p a e).place (run_step venue config loads p a e)
  unfolding run_step
  run_step-Fits opening a opens q h = h
  run_step-Fits opening a (fails r) q h = lose-Fits config a r
  run_step-Fits subscribing a (sends r) q h = subscribed_with-Fits a.native a r
  run_step-Fits subscribing a (fails r) q h = lose-Fits config a r
  run_step-Fits receiving a (receives raw received) q h =
      let s = receive-Same a raw received in
      next_receive-Fits (receive venue config loads a raw received) (s.place ∙ q) (s.status ∙ h)
  run_step-Fits receiving a keeps_alive q h =
      Same-Fits a _ (keep_alive-Same venue.keepalive_interval_s venue.keepalive_payload a)
        (simp q h)
  run_step-Fits receiving a (fails r) q h = lose-Fits config a r
  run_step-Fits sleeping a wakes q h = next_round-Fits a
  run_step-Fits _ a _ q h = simp q h

  stopped-Fits : (a : Adapter State) → Fits a.place a → Fits (stopped a).place (stopped a)
  unfolding stopped
  stopped-Fits a h = elim (Bool-cases a.stopping) [ inl t ↦ simp t refl | inr f ↦ simp f h ]

  stop-Fits : (p : Place) (a : Adapter State) → Fits p a → Fits p (stop a)
  unfolding stop
  stop-Fits absent a h = h
  stop-Fits returned a h = refl
  stop-Fits _ a h = h

  connect_at-Fits :
      (p : Place) (a : Adapter State)
      → a.place ≡ p
      → Fits p a
      → Fits (connect_at config p a).place (connect_at config p a)
  unfolding connect_at
  connect_at-Fits absent a q h =
      next_round-Fits (record a { stopping = false; delay = config.reconnect_initial_delay_s })
  connect_at-Fits _ a q h = simp q h

  step-Fits :
      (a : Adapter State) (e : Event)
      → Fits a.place a
      → Fits (step venue config loads a e).place (step venue config loads a e)
  unfolding step
  step-Fits a connects h = connect_at-Fits a.place a refl h
  step-Fits a stops h = stop-Fits a.place a h
  step-Fits a stop_ends h = stopped-Fits a h
  step-Fits a (subscribes symbols) h = Same-Fits a _ (subscribe-Same a symbols) h
  step-Fits a (unsubscribes symbols) h =
      Same-Fits a _ (record { place = refl; status = refl; reconnects = refl; stopping = refl }) h
  step-Fits a opens h = run_step-Fits a.place a opens refl h
  step-Fits a (sends r) h = run_step-Fits a.place a (sends r) refl h
  step-Fits a (receives raw t) h = run_step-Fits a.place a (receives raw t) refl h
  step-Fits a keeps_alive h = run_step-Fits a.place a keeps_alive refl h
  step-Fits a (fails r) h = run_step-Fits a.place a (fails r) refl h
  step-Fits a wakes h = run_step-Fits a.place a wakes refl h

  -- In every history of an adapter its status follows the place where `_run` stands: it is
  -- "disconnected" without a task, "connecting" in a first attempt and "reconnecting" in a later
  -- one, "connected" while texts are awaited, and "reconnecting", after a counted loss, while the
  -- loop sleeps; and the loop returns only if the adapter stops.
  pub history-Fits :
      (a : Adapter State) (events : List Event)
      → Fits a.place a
      → Fits (history venue config loads a events).place (history venue config loads a events)
  unfolding history
  history-Fits a [] h = h
  history-Fits a (e ∷ events) h =
      history-Fits (step venue config loads a e) events (step-Fits a e h)
