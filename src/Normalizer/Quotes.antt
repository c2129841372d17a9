-- ===== src/Normalizer/Quotes.antt =====
-- The quotes that the normalizers return, whatever the messages are.
use text.Mathlib.Text.{starts_with}
use p2p_treker.Prelude.{
  ◌≡◌, refl, sym, ◌∙◌, ap, true, false, Bool-cases, ◌||◌, ◌&&◌, inl, inr, Option, none, some,
  String, List, [], ◌∷◌,
}
use p2p_treker.Prelude.Int.{ℤ}
use p2p_treker.Prelude.Dict.{lookup_or, contains, string_key}
use p2p_treker.Prelude.Result.{Result, ok, err, ◌>>=◌}
use p2p_treker.Decimal.{Decimal}
use p2p_treker.Models.{Exchange, spot, binance, bybit, okx}
use p2p_treker.Models.Quote.{NormalizedQuote, IsValid, validate, validate-eq, validate-IsValid}
use p2p_treker.Symbols.{to_canonical}
use p2p_treker.Normalizer.{
  Level, BookTicker, BboEntry, BboMessage, BookData, BookMessage, Normalizer, quote_with,
  for_symbol, no_side, ticker_quote, normalize_book_ticker, entry_quote, normalize_bbo, is_text,
  sides_quote, finish, apply_sides, ts_or, handle_symbol, handle_data, handle,
}

-- A valid spot quote of the exchange, under the canonical symbol of one of its own.
pub record IsQuoteOf (exchange : Exchange) (q : NormalizedQuote) : Type 0 where
  pub valid : IsValid q
  pub on : q.exchange ≡ exchange
  pub market : q.market_type ≡ spot
  pub native : String
  pub mapped : to_canonical native exchange ≡ ok q.symbol

-- The quote of a result, if there is one, is a quote of the exchange.
abbrev pub Quotes : Exchange → Result (Option NormalizedQuote) → Type 0
Quotes exchange (err e) = Unit
Quotes exchange (ok none) = Unit
Quotes exchange (ok (some q)) = IsQuoteOf exchange q

-- What follows a call matters only if the call returns.
after_call :
    {A : Type 0} (exchange : Exchange) (m : Result A) (f : A → Result (Option NormalizedQuote))
    → ((a : A) → m ≡ ok a → Quotes exchange (f a))
    → Quotes exchange (m >>= f)
after_call exchange (err e) f h = tt
after_call exchange (ok a) f h = h a refl

module _ (decimal : String → Result Decimal) where
  quote_with-Quotes :
      (exchange : Exchange) (native symbol : String) (bid ask : Level) (ts received : ℤ)
      (n : Option ℤ)
      → to_canonical native exchange ≡ ok symbol
      → Quotes exchange (quote_with decimal exchange symbol bid ask ts received n)
  unfolding quote_with
  quote_with-Quotes exchange native symbol bid ask ts received n c =
      after_call exchange (decimal bid.0) _ λ bid_price _.
        after_call exchange (decimal bid.1) _ λ bid_quantity _.
          after_call exchange (decimal ask.0) _ λ ask_price _.
            after_call exchange (decimal ask.1) _ λ ask_quantity _.
              after_call exchange (validate _) _ λ q v.
                let e = validate-eq _ q v in
                record {
                  valid = validate-IsValid _ q v;
                  on = sym (ap (λ (p : NormalizedQuote). p.exchange) e);
                  market = sym (ap (λ (p : NormalizedQuote). p.market_type) e);
                  native = native;
                  mapped = c ∙ ap (λ (p : NormalizedQuote). ok p.symbol) e;
                }

  -- `try: symbol = to_canonical(native)`, and a quote of that symbol.
  mapped-Quotes :
      (exchange : Exchange) (native : String) (rest : String → Result (Option NormalizedQuote))
      → ((symbol : String)
          → to_canonical native exchange ≡ ok symbol
          → Quotes exchange (rest symbol))
      → Quotes exchange (for_symbol (to_canonical native exchange) rest)
  mapped-Quotes exchange native rest h = go (to_canonical native exchange) h
    where
      go :
          (r : Result String)
          → ((symbol : String) → r ≡ ok symbol → Quotes exchange (rest symbol))
          → Quotes exchange (for_symbol r rest)
      go (err e) h = tt
      go (ok symbol) h = h symbol refl

  ticker_quote-Quotes :
      (p : BookTicker) (t : ℤ) (s b a : String) → Quotes binance (ticker_quote decimal p t s b a)
  unfolding ticker_quote
  ticker_quote-Quotes p t s b a = elim (Bool-cases (no_side decimal b || no_side decimal a)) [
    | inl x ↦ rw x tt
    | inr x ↦ rw x (
        mapped-Quotes binance s
          (λ symbol.
            quote_with decimal binance symbol (b, p.bid_quantity) (a, p.ask_quantity) t t p.u)
          λ symbol c.
            quote_with-Quotes binance s symbol (b, p.bid_quantity) (a, p.ask_quantity) t t p.u c)
  ]

  pub normalize_book_ticker-Quotes :
      (p : BookTicker) (t : ℤ) → Quotes binance (normalize_book_ticker decimal p t)
  unfolding normalize_book_ticker
  normalize_book_ticker-Quotes p t = go p.s p.b p.a
    where
      go :
          (s b a : Option String)
          → Quotes binance (elim s [
            | none ↦ ok none
            | some s ↦ elim b [
              | none ↦ ok none
              | some b ↦ elim a [ none ↦ ok none | some a ↦ ticker_quote decimal p t s b a ]
            ]
          ])
      go none b a = tt
      go (some s) none a = tt
      go (some s) (some b) none = tt
      go (some s) (some b) (some a) = ticker_quote-Quotes p t s b a

  pub normalize_bbo-Quotes : (m : BboMessage) (t : ℤ) → Quotes okx (normalize_bbo decimal m t)
  unfolding normalize_bbo
  normalize_bbo-Quotes m t = elim (Bool-cases (is_text "bbo-tbt" m.channel)) [
    | inl x ↦ rw x (go m.payload)
    | inr x ↦ rw x tt
  ]
    where
      entry :
          (symbol : String) (bids asks : List Level) (e : BboEntry)
          → to_canonical m.inst_id okx ≡ ok symbol
          → Quotes okx (entry_quote decimal bids asks e t symbol)
      entry symbol [] asks e c = tt
      entry symbol (bid ∷ bids) [] e c = tt
      entry symbol (bid ∷ bids) (ask ∷ asks) e c =
          quote_with-Quotes okx m.inst_id symbol bid ask e.ts t e.seq_id c

      go :
          (es : List BboEntry)
          → Quotes okx (elim es [
            | [] ↦ ok none
            | e ∷ rest ↦
                for_symbol (to_canonical m.inst_id okx) (entry_quote decimal e.bids e.asks e t)
          ])
      go [] = tt
      go (e ∷ rest) =
          mapped-Quotes okx m.inst_id (entry_quote decimal e.bids e.asks e t)
            λ symbol c. entry symbol e.bids e.asks e c

  finish-Quotes :
      (native symbol : String) (n : Option ℤ) (ts : Option ℤ) (t : ℤ)
      (r : Normalizer × Result (Unit {0}))
      → to_canonical native bybit ≡ ok symbol
      → Quotes bybit (finish decimal r symbol n ts t).1
  unfolding finish
  finish-Quotes native symbol n ts t (s, err e) c = tt
  finish-Quotes native symbol n ts t (s, ok _) c =
      sides (lookup_or symbol none s.bids) (lookup_or symbol none s.asks)
    where
      sides : (b a : Option Level) → Quotes bybit (sides_quote decimal b a symbol (ts_or ts t) t n)
      sides none a = tt
      sides (some b) none = tt
      sides (some b) (some a) = quote_with-Quotes bybit native symbol b a (ts_or ts t) t n c

  handle_data-Quotes :
      (s : Normalizer) (m : BookMessage) (p : BookData) (t : ℤ)
      → Quotes bybit (handle_data decimal s m p t).1
  unfolding handle_data handle_symbol
  handle_data-Quotes s m p t = go (to_canonical p.s bybit) refl
    where
      at_symbol :
          (symbol : String)
          → to_canonical p.s bybit ≡ ok symbol
          → Quotes bybit (handle_symbol decimal s m p symbol t).1
      at_symbol symbol c = elim (Bool-cases (is_text "snapshot" m.msg_type)) [
        | inl x ↦ rw x (finish-Quotes p.s symbol p.u m.ts t (apply_sides decimal s symbol p true) c)
        | inr x ↦ elim (Bool-cases (is_text "delta" m.msg_type && contains symbol s.sequences)) [
          | inl y ↦
              rw (x, y)
                (finish-Quotes p.s symbol p.u m.ts t (apply_sides decimal s symbol p false) c)
          | inr y ↦ rw (x, y) tt
        ]
      ]

      go :
          (r : Result String)
          → to_canonical p.s bybit ≡ r
          → Quotes bybit
              (elim r as (λ _. Normalizer × Result (Option NormalizedQuote)) [
                | err e ↦ (s, ok none)
                | ok symbol ↦ handle_symbol decimal s m p symbol t
              ]).1
      go (err e) c = tt
      go (ok symbol) c = at_symbol symbol c

  pub handle-Quotes :
      (s : Normalizer) (m : BookMessage) (t : ℤ) → Quotes bybit (handle decimal s m t).1
  unfolding handle
  handle-Quotes s m t = elim (Bool-cases (starts_with m.topic "orderbook.1.")) [
    | inr f ↦ rw f tt
    | inl x ↦ rw x (go m.payload)
  ]
    where
      go :
          (p : Option BookData)
          → Quotes bybit
              (elim p as (λ _. Normalizer × Result (Option NormalizedQuote)) [
                | none ↦ (s, ok none)
                | some d ↦ handle_data decimal s m d t
              ]).1
      go none = tt
      go (some d) = handle_data-Quotes s m d t
