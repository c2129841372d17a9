-- ===== src/Recorder/Sampling.antt =====
-- What the recorder samples (backend/app/services/history_recorder.py).
use p2p_treker.Prelude.{
  ℕ, ◌≡◌, refl, sym, subst, ◌∙◌, ap, inl, inr, Bool-cases, Option, none, some, String, List, [],
  ◌∷◌, map, length, true, All, All-imp, Among, Among-append_left, Among-append_right,
}
use p2p_treker.Prelude.Int.{ℤ}
use p2p_treker.Prelude.Dict.{Dict}
use p2p_treker.Models.{Exchange, MarketType}
use p2p_treker.Models.Quote.{NormalizedQuote}
use p2p_treker.QuoteCache.{QuoteCache, get}
use p2p_treker.Spread.Engine.{TradingConfig, ExchangeConfig}
use p2p_treker.Spread.Engine.Pairs.{All-append}
use p2p_treker.DbWriter.{DatabaseConfig, Writer, enqueue, enqueues, act, run}
use p2p_treker.Recorder.{
  Row, quote_sample, sample_of, samples_of, sample_rows, Recorder, Recording, enqueue_all,
  sample_quotes_once,
}

enqueue_all-run :
    (config : DatabaseConfig) (table : String) (w : Writer Row) (rows : List Row)
    → enqueue_all config table w rows ≡ run Row config w (map (enqueues table) rows)
unfolding enqueue_all run act
enqueue_all-run config table w [] = refl
enqueue_all-run config table w (row ∷ rows) =
    enqueue_all-run config table (enqueue Row config w table row).0 rows

module _ (cache : QuoteCache) (current : ℤ) where
  -- A row of a cached quote of an exchange that is enabled and of a symbol that is traded.
  pub record IsSample (market : MarketType) (symbols : List String)
      (exchanges : Dict Exchange ExchangeConfig) (row : Row) : Type 0 where
    pub exchange : Exchange
    pub settings : ExchangeConfig
    pub configured : Among (exchange, settings) exchanges
    pub enabled : settings.enabled ≡ true
    pub symbol : String
    pub traded : Among symbol symbols
    pub quote : NormalizedQuote
    pub cached : get cache exchange market symbol ≡ some quote
    pub sampled : row ≡ quote_sample current quote

  module _ (x : Exchange) (market : MarketType) where
    record OfExchange (symbols : List String) (row : Row) : Type 0 where
      symbol : String
      traded : Among symbol symbols
      quote : NormalizedQuote
      cached : get cache x market symbol ≡ some quote
      sampled : row ≡ quote_sample current quote

    samples_of_sound :
        (symbols : List String)
        → All (OfExchange symbols) (samples_of x market cache current symbols)
    unfolding samples_of
    samples_of_sound [] = tt
    samples_of_sound (symbol ∷ symbols) =
        All-append (OfExchange (symbol ∷ symbols)) _ _ (first (get cache x market symbol) refl)
          (All-imp (samples_of x market cache current symbols) later (samples_of_sound symbols))
      where
        later : (row : Row) → OfExchange symbols row → OfExchange (symbol ∷ symbols) row
        later row h = record {
          symbol = h.symbol;
          traded = inr h.traded;
          quote = h.quote;
          cached = h.cached;
          sampled = h.sampled;
        }

        first :
            (o : Option NormalizedQuote)
            → get cache x market symbol ≡ o
            → All (OfExchange (symbol ∷ symbols)) (sample_of current o)
        first none e = tt
        first (some q) e = (
          record { symbol = symbol; traded = inl refl; quote = q; cached = e; sampled = refl },
          tt,
        )

    samples_of_complete :
        (symbol : String) (q : NormalizedQuote) (symbols : List String)
        → get cache x market symbol ≡ some q
        → Among symbol symbols
        → Among (quote_sample current q) (samples_of x market cache current symbols)
    unfolding samples_of
    samples_of_complete symbol q [] e h = absurd h
    samples_of_complete symbol q (s ∷ symbols) e (inl p) =
        Among-append_left (quote_sample current q) (sample_of current (get cache x market s)) _ (
          subst
            (λ (o : Option NormalizedQuote). Among (quote_sample current q) (sample_of current o))
            (sym e ∙ ap (get cache x market) p) (inl refl))
    samples_of_complete symbol q (s ∷ symbols) e (inr h) =
        Among-append_right (quote_sample current q) (sample_of current (get cache x market s)) _
          (samples_of_complete symbol q symbols e h)

  module _ (trading : TradingConfig) where
    sound :
        (exchanges : Dict Exchange ExchangeConfig)
        → All
            (IsSample trading.market_type trading.symbols exchanges)
            (sample_rows trading exchanges cache current)
    unfolding sample_rows
    sound [] = tt
    sound ((x, settings) ∷ exchanges) = elim (Bool-cases settings.enabled) [
      | inl t ↦ simp t (
          All-append (IsSample trading.market_type trading.symbols ((x, settings) ∷ exchanges)) _ _
            (All-imp _ (here t) (samples_of_sound x trading.market_type trading.symbols))
            (All-imp _ later (sound exchanges)))
      | inr f ↦ simp f (All-imp _ later (sound exchanges))
    ]
      where
        here :
            settings.enabled ≡ true
            → (row : Row) → OfExchange x trading.market_type trading.symbols row
            → IsSample trading.market_type trading.symbols ((x, settings) ∷ exchanges) row
        here t row h = record {
          exchange = x;
          settings = settings;
          configured = inl refl;
          enabled = t;
          symbol = h.symbol;
          traded = h.traded;
          quote = h.quote;
          cached = h.cached;
          sampled = h.sampled;
        }

        later :
            (row : Row)
            → IsSample trading.market_type trading.symbols exchanges row
            → IsSample trading.market_type trading.symbols ((x, settings) ∷ exchanges) row
        later row h = record {
          exchange = h.exchange;
          settings = h.settings;
          configured = inr h.configured;
          enabled = h.enabled;
          symbol = h.symbol;
          traded = h.traded;
          quote = h.quote;
          cached = h.cached;
          sampled = h.sampled;
        }

    complete :
        (x : Exchange) (settings : ExchangeConfig) (symbol : String) (q : NormalizedQuote)
        (exchanges : Dict Exchange ExchangeConfig)
        → settings.enabled ≡ true
        → Among symbol trading.symbols
        → get cache x trading.market_type symbol ≡ some q
        → Among (x, settings) exchanges
        → Among (quote_sample current q) (sample_rows trading exchanges cache current)
    unfolding sample_rows
    complete x settings symbol q [] t m e h = absurd h
    complete x settings symbol q ((y, other) ∷ exchanges) t m e (inl p) =
        let on : other.enabled ≡ true =
          sym (ap (λ (z : Exchange × ExchangeConfig). z.1.enabled) p) ∙ t in
        rw on (
          Among-append_left (quote_sample current q) _ _ (
            samples_of_complete y trading.market_type symbol q trading.symbols
              (subst (λ (z : Exchange). get cache z trading.market_type symbol ≡ some q)
                (ap (λ (z : Exchange × ExchangeConfig). z.0) p) e)
              m))
    complete x settings symbol q ((y, other) ∷ exchanges) t m e (inr h) =
        let rest = complete x settings symbol q exchanges t m e h in
        elim (Bool-cases other.enabled) [
          | inl on ↦ rw on (Among-append_right (quote_sample current q) _ _ rest)
          | inr off ↦ rw off rest
        ]

-- What `sample_quotes_once` does: it gives the writer these rows, in this order, and returns their
-- number.
pub record Samples (s : Recording) (r : Recorder) (cache : QuoteCache) (current : ℤ)
    (after : Recorder × ℕ) : Type 0 where
  pub rows : List Row
  pub offered : after.0.writer ≡ run Row s.database r.writer (map (enqueues "quotes_1s") rows)
  pub events_kept : after.0.open_events ≡ r.open_events
  pub counted : after.1 ≡ length rows
  pub are_samples :
      All (IsSample cache current s.trading.market_type s.trading.symbols s.exchanges) rows
  pub all_samples :
      (x : Exchange) (settings : ExchangeConfig) (symbol : String) (q : NormalizedQuote)
      → settings.enabled ≡ true
      → Among symbol s.trading.symbols
      → get cache x s.trading.market_type symbol ≡ some q
      → Among (x, settings) s.exchanges
      → Among (quote_sample current q) rows

-- `sample_quotes_once` offers to the writer, one after the other, rows of `quotes_1s` of which each is
-- the sample of a cached quote of an exchange that is enabled and of a symbol that is traded, and
-- among which each such quote has its sample; it returns their number and leaves the open events.
pub sample_quotes_once-Samples :
    (s : Recording) (r : Recorder) (cache : QuoteCache) (current : ℤ)
    → Samples s r cache current (sample_quotes_once s r cache current)
unfolding sample_quotes_once
sample_quotes_once-Samples s r cache current = record {
  rows = sample_rows s.trading s.exchanges cache current;
  offered =
      enqueue_all-run s.database "quotes_1s" r.writer
        (sample_rows s.trading s.exchanges cache current);
  events_kept = refl;
  counted = refl;
  are_samples = sound cache current s.trading s.exchanges;
  all_samples =
      λ x settings symbol q. complete cache current s.trading x settings symbol q s.exchanges;
}
