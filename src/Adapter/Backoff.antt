-- ===== src/Adapter/Backoff.antt =====
-- Failed attempts in a row, and the attempt that succeeds.
use p2p_treker.Prelude.{
  ℕ, suc, ◌+◌, ◌≡◌, ◌∙◌, refl, ap, ◌⊎◌, inl, inr, false, Option, String, List, [], ◌∷◌, ◌++◌, arith,
  length, ltb, if◌then◌else◌,
}
use p2p_treker.Prelude.Result.{ok}
use p2p_treker.Decimal.{Decimal, d_zero, d_one, lit, ◌+D◌, ◌*D◌, ◌≤D◌, ◌<D◌, min_D}
use p2p_treker.Decimal.Key.{min_D-cases, min_D-le_right}
use p2p_treker.Adapter.Doubling.{doubled, capped_doubling}
use p2p_treker.QuoteCache.{connected, connecting, reconnecting}
use p2p_treker.Adapter.{
  WebSocketConfig, Venue, opening, subscribing, receiving, sleeping, set_status, Adapter, natives,
  Event, opens, sends, fails, wakes, step, history, run_step, next_round, lose, opened,
  subscribed_with, next_receive,
}

-- An attempt that fails while the connection opens, or after it has opened and before the
-- subscriptions are sent, with the reading of `random`.
pub data Attempt : Type 0 where
  refused cut : Decimal → Attempt

-- The sleep ends and the next attempt fails, once for each attempt.
abbrev pub failing : List Attempt → List Event
failing [] = []
failing (refused r ∷ rs) = wakes ∷ fails r ∷ failing rs
failing (cut r ∷ rs) = wakes ∷ opens ∷ fails r ∷ failing rs

-- The local state is reset by each attempt that opens.
abbrev pub resets : {State : Type 0} → (State → State) → List Attempt → State → State
resets f [] s = s
resets f (refused r ∷ rs) s = resets f rs s
resets f (cut r ∷ rs) s = resets f rs (f s)

-- What failed attempts leave.
pub record Failed {State : Type 0} (on_reconnect : State → State) (max : Decimal)
    (attempts : List Attempt) (a b : Adapter State) : Type 0 where
  pub place : b.place ≡ sleeping
  pub going : b.stopping ≡ false
  pub capped : b.delay ≤D max
  pub backed_off : (b.delay ≡ doubled (length attempts) a.delay) ⊎ (b.delay ≡ max)
  pub counted : b.reconnect_count ≡ a.reconnect_count + length attempts
  pub symbols : b.symbols ≡ a.symbols
  pub state : b.state ≡ resets on_reconnect attempts a.state
  pub sent : b.sent ≡ a.sent
  pub quotes : b.quotes ≡ a.quotes

module _ {State Message : Type 0} (venue : Venue State Message) (config : WebSocketConfig)
    (loads : String → Option Message) (pos_max : d_zero <D config.reconnect_max_delay_s) where
  -- The states in which the next attempt and the next sleep begin.
  attempted : Adapter State → Adapter State
  unfolding set_status
  attempted a =
      record (set_status (if ltb 0 a.reconnect_count then reconnecting else connecting) a) {
        place = opening;
      }

  slept : Adapter State → Decimal → Adapter State
  unfolding set_status
  slept a r =
      record (set_status reconnecting (record a { reconnect_count = a.reconnect_count + 1 })) {
        place = sleeping;
        pause = a.delay *D (d_one +D r *D lit 2 1);
        delay = min_D (a.delay *D lit 2 0) config.reconnect_max_delay_s;
      }

  step-wakes :
      (a : Adapter State)
      → a.place ≡ sleeping
      → a.stopping ≡ false
      → step venue config loads a wakes ≡ attempted a
  unfolding step run_step next_round attempted
  step-wakes a p q = ground arith

  step-fails :
      (a : Adapter State) (r : Decimal)
      → (a.place ≡ opening) ⊎ (a.place ≡ subscribing)
      → a.stopping ≡ false
      → step venue config loads a (fails r) ≡ slept a r
  unfolding step run_step lose slept
  step-fails a r p q = ground arith

  step-opens :
      (a : Adapter State)
      → a.place ≡ opening
      → step venue config loads a opens ≡ opened venue config loads a
  unfolding step run_step
  step-opens a p = ground arith

  history-refused :
      (a : Adapter State) (r : Decimal) (es : List Event)
      → a.place ≡ sleeping
      → a.stopping ≡ false
      → history venue config loads a (wakes ∷ fails r ∷ es)
        ≡ history venue config loads (slept (attempted a) r) es
  unfolding history attempted
  history-refused a r es p q =
      rw (step-wakes a p q) (rw (step-fails (attempted a) r (inl refl) q) refl)

  history-cut :
      (a : Adapter State) (r : Decimal) (es : List Event)
      → a.place ≡ sleeping
      → a.stopping ≡ false
      → history venue config loads a (wakes ∷ opens ∷ fails r ∷ es)
        ≡ history venue config loads (slept (opened venue config loads (attempted a)) r) es
  unfolding history attempted opened
  history-cut a r es p q =
      rw (step-wakes a p q, step-opens (attempted a) refl)
        (rw (step-fails (opened venue config loads (attempted a)) r (inr refl) q) refl)

  backed_off_more :
      (n : ℕ) (d b : Decimal)
      → b ≤D config.reconnect_max_delay_s
      → (b ≡ doubled n (min_D (d *D lit 2 0) config.reconnect_max_delay_s))
        ⊎ (b ≡ config.reconnect_max_delay_s)
      → (b ≡ doubled (suc n) d) ⊎ (b ≡ config.reconnect_max_delay_s)
  backed_off_more n d b c h = elim (min_D-cases (d *D lit 2 0) config.reconnect_max_delay_s) [
    | inr (e, l) ↦ rw e at h
    | inl (e, l) ↦ inr (elim h [
      | inl k ↦ capped_doubling n b config.reconnect_max_delay_s pos_max c (k ∙ ap (doubled n) e)
      | inr k ↦ k
    ])
  ]

  -- One failure more, before others.
  refused_first :
      (rs : List Attempt) (a b : Adapter State) (r : Decimal)
      → Failed venue.on_reconnect config.reconnect_max_delay_s rs (slept (attempted a) r) b
      → Failed venue.on_reconnect config.reconnect_max_delay_s (refused r ∷ rs) a b
  unfolding slept attempted
  refused_first rs a b r f = record {
    place = f.place;
    going = f.going;
    capped = f.capped;
    backed_off = backed_off_more (length rs) a.delay b.delay f.capped f.backed_off;
    counted = omega (arith, f.counted);
    symbols = f.symbols;
    state = f.state;
    sent = f.sent;
    quotes = f.quotes;
  }

  cut_first :
      (rs : List Attempt) (a b : Adapter State) (r : Decimal)
      → Failed venue.on_reconnect config.reconnect_max_delay_s rs
          (slept (opened venue config loads (attempted a)) r)
          b
      → Failed venue.on_reconnect config.reconnect_max_delay_s (cut r ∷ rs) a b
  unfolding slept attempted opened
  cut_first rs a b r f = record {
    place = f.place;
    going = f.going;
    capped = f.capped;
    backed_off = backed_off_more (length rs) a.delay b.delay f.capped f.backed_off;
    counted = omega (arith, f.counted);
    symbols = f.symbols;
    state = f.state;
    sent = f.sent;
    quotes = f.quotes;
  }

  -- While the cap is positive and the adapter does not stop, attempts in a row of which each fails
  -- while the connection opens, or after it has opened and before the subscriptions are sent, leave
  -- the adapter asleep with one loss more for each, and with a delay of at most the cap that is the
  -- cap or the first delay doubled once for each; the local state is reset once for each attempt that
  -- opened; its symbols and what it has sent and delivered stay.
  pub failing-Failed :
      (a : Adapter State) (attempts : List Attempt)
      → a.place ≡ sleeping
      → a.stopping ≡ false
      → a.delay ≤D config.reconnect_max_delay_s
      → Failed venue.on_reconnect config.reconnect_max_delay_s attempts a
          (history venue config loads a (failing attempts))
  unfolding history slept attempted opened
  failing-Failed a [] p q h = record {
    place = p;
    going = q;
    capped = h;
    backed_off = inl refl;
    counted = omega arith;
    symbols = refl;
    state = refl;
    sent = refl;
    quotes = refl;
  }
  failing-Failed a (refused r ∷ rs) p q h = rw (history-refused a r (failing rs) p q) (
      refused_first rs a _ r (
        failing-Failed (slept (attempted a) r) rs refl q
          (min_D-le_right (a.delay *D lit 2 0) config.reconnect_max_delay_s)))
  failing-Failed a (cut r ∷ rs) p q h = rw (history-cut a r (failing rs) p q) (
      cut_first rs a _ r (
        failing-Failed (slept (opened venue config loads (attempted a)) r) rs refl q
          (min_D-le_right (a.delay *D lit 2 0) config.reconnect_max_delay_s)))

  -- What the application sees of a connection that has come back.
  pub record Recovered (attempts : List Attempt) (native : List String) (a b : Adapter State)
      : Type 0 where
    pub place : b.place ≡ receiving
    pub status : b.status ≡ connected
    pub delay : b.delay ≡ config.reconnect_initial_delay_s
    pub sent : b.sent ≡ a.sent ++ venue.subscribe_payloads native
    pub state : b.state ≡ venue.on_reconnect (resets venue.on_reconnect attempts a.state)
    pub symbols : b.symbols ≡ a.symbols
    pub quotes : b.quotes ≡ a.quotes

  joined : Adapter State → List String → Adapter State
  unfolding set_status
  joined a native =
      record (set_status connected
        (record a { sent = a.sent ++ venue.subscribe_payloads native })) {
          place = receiving;
          delay = config.reconnect_initial_delay_s;
        }

  step-sends :
      (a : Adapter State) (r : Decimal) (native : List String)
      → a.place ≡ subscribing
      → a.stopping ≡ false
      → a.native ≡ ok native
      → step venue config loads a (sends r) ≡ joined a native
  unfolding step run_step joined
  step-sends a r native p q e = rw (p, run_step) (simp (e, subscribed_with, next_receive, q) refl)

  recovers :
      (a : Adapter State) (r : Decimal) (native : List String)
      → a.place ≡ sleeping
      → a.stopping ≡ false
      → natives venue config loads a.symbols ≡ ok native
      → Recovered [] native a (history venue config loads a (wakes ∷ opens ∷ sends r ∷ []))
  unfolding history attempted opened joined
  recovers a r native p q e =
      rw
        (
          step-wakes a p q,
          step-opens (attempted a) refl,
          step-sends (opened venue config loads (attempted a)) r native refl q e,
        )
        (record {
          place = refl;
          status = refl;
          delay = refl;
          sent = refl;
          state = refl;
          symbols = refl;
          quotes = refl;
        })

  history-append :
      (a : Adapter State) (ds es : List Event)
      → history venue config loads a (ds ++ es)
        ≡ history venue config loads (history venue config loads a ds) es
  unfolding history
  history-append a [] es = refl
  history-append a (d ∷ ds) es = history-append (step venue config loads a d) ds es

  -- While the cap is positive, the adapter does not stop and all its symbols are mapped, it comes
  -- back after any number of attempts of which each fails while the connection opens, or after it has
  -- opened and before the subscriptions are sent: the next attempt that opens and sends the
  -- subscriptions leaves it connected and receiving, with the delay reset, the local state reset once
  -- more than by the attempts that opened, and all its symbols subscribed again.
  pub failing-Recovered :
      (a : Adapter State) (rs : List Attempt) (r : Decimal) (native : List String)
      → a.place ≡ sleeping
      → a.stopping ≡ false
      → a.delay ≤D config.reconnect_max_delay_s
      → natives venue config loads a.symbols ≡ ok native
      → Recovered rs native a
          (history venue config loads a (failing rs ++ (wakes ∷ opens ∷ sends r ∷ [])))
  failing-Recovered a rs r native p q h e =
      let b = history venue config loads a (failing rs) in
      let f = failing-Failed a rs p q h in
      let c = recovers b r native f.place f.going (rw f.symbols e) in
      simp (history-append a (failing rs) (wakes ∷ opens ∷ sends r ∷ [])) (record {
        place = c.place;
        status = c.status;
        delay = c.delay;
        sent = c.sent ∙ ap (λ (t : List String). t ++ venue.subscribe_payloads native) f.sent;
        state = c.state ∙ ap venue.on_reconnect f.state;
        symbols = c.symbols ∙ f.symbols;
        quotes = c.quotes ∙ f.quotes;
      })
