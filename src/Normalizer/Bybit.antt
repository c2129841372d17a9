-- ===== src/Normalizer/Bybit.antt =====
-- What `BybitBookNormalizer.handle` keeps and returns, over messages whose texts are numbers.
use text.Mathlib.Text.{starts_with}
use p2p_treker.Prelude.{
  ◌≡◌, ◌⊎◌, ◌&&◌, refl, Bool, true, false, inl, inr, Option, none, some, String, List, [], ◌∷◌, All,
  Bool-cases,
}
use p2p_treker.Prelude.Int.{ℤ}
use p2p_treker.Prelude.Dict.{lookup_or, lookup_or-All, contains, insert-All, string_key}
use p2p_treker.Prelude.Result.{Result, ok, err, Returns}
use p2p_treker.Decimal.{Decimal, d_zero, ◌≤D◌, ◌<D◌, eqb_D}
use p2p_treker.Models.{bybit, spot}
use p2p_treker.Models.Quote.{NormalizedQuote, IsValid, validate_iff}
use p2p_treker.Symbols.{to_canonical}
use p2p_treker.Normalizer.{
  Level, Store, BookData, BookMessage, Normalizer, is_text, quote_with, apply_side, apply_sides,
  note_sequence, sides_quote, ts_or, finish, handle_symbol, handle_data, handle,
}

-- What a call that returns has returned.
value_of : {A : Type 0} (P : A → Type 0) (m : Result A) → Returns P m → (a : A) × (m ≡ ok a) × P a
value_of P (err e) h = absurd h
value_of P (ok a) h = (a, refl, h)

module _ (decimal : String → Result Decimal) where
  -- The texts of the level are a positive price and a quantity that is not negative.
  pub record IsLevel (level : Level) : Type 0 where
    pub price_read : Returns (λ d. d_zero <D d) (decimal level.0)
    pub quantity_read : Returns (λ d. d_zero ≤D d) (decimal level.1)

  abbrev pub IsSide : Option Level → Type 0
  IsSide none = Unit
  IsSide (some level) = IsLevel level

  pub record IsNormalizer (s : Normalizer) : Type 0 where
    pub bids_read : All (λ entry. IsSide entry.1) s.bids
    pub asks_read : All (λ entry. IsSide entry.1) s.asks

  abbrev pub IsPayload : Option BookData → Type 0
  IsPayload none = Unit
  IsPayload (some payload) = All IsLevel payload.b × All IsLevel payload.a

  -- The quote shows the two sides that the state holds for its symbol.
  pub record IsShown (s : Normalizer) (symbol : String) (sequence : Option ℤ) (q : NormalizedQuote)
      : Type 0 where
    pub valid : IsValid q
    pub on_bybit : q.exchange ≡ bybit
    pub on_spot : q.market_type ≡ spot
    pub named : q.symbol ≡ symbol
    pub numbered : q.sequence ≡ sequence
    pub bid : Level
    pub ask : Level
    pub bid_held : lookup_or symbol none s.bids ≡ some bid
    pub ask_held : lookup_or symbol none s.asks ≡ some ask
    pub bid_price : decimal bid.0 ≡ ok q.bid_price
    pub bid_quantity : decimal bid.1 ≡ ok q.bid_quantity
    pub ask_price : decimal ask.0 ≡ ok q.ask_price
    pub ask_quantity : decimal ask.1 ≡ ok q.ask_quantity

  abbrev pub Shown : Normalizer → String → Option ℤ → Option NormalizedQuote → Type 0
  Shown s symbol sequence none = Unit
  Shown s symbol sequence (some q) = IsShown s symbol sequence q

  quote_with-Returns :
      (s : Normalizer) (symbol : String) (bid ask : Level) (ts received_ts_ms : ℤ)
      (sequence : Option ℤ)
      → IsLevel bid
      → IsLevel ask
      → lookup_or symbol none s.bids ≡ some bid
      → lookup_or symbol none s.asks ≡ some ask
      → Returns
          (Shown s symbol sequence)
          (quote_with decimal bybit symbol bid ask ts received_ts_ms sequence)
  unfolding quote_with
  quote_with-Returns s symbol bid ask ts received_ts_ms sequence b a hb ha =
      let (bp, bp_read, bp_pos) = value_of _ (decimal bid.0) b.price_read in
      let (bq, bq_read, bq_nonneg) = value_of _ (decimal bid.1) b.quantity_read in
      let (ap, ap_read, ap_pos) = value_of _ (decimal ask.0) a.price_read in
      let (aq, aq_read, aq_nonneg) = value_of _ (decimal ask.1) a.quantity_read in
      let q : NormalizedQuote = record {
        exchange = bybit;
        market_type = spot;
        symbol = symbol;
        bid_price = bp;
        bid_quantity = bq;
        ask_price = ap;
        ask_quantity = aq;
        exchange_timestamp = ts;
        received_timestamp = received_ts_ms;
        sequence = sequence;
      } in
      let v : IsValid q = record {
        bid_pos = bp_pos;
        bid_quantity_nonneg = bq_nonneg;
        ask_pos = ap_pos;
        ask_quantity_nonneg = aq_nonneg;
      } in
      rw (bp_read, bq_read, ap_read, aq_read, (validate_iff q).1 v)
        (record {
          valid = v;
          on_bybit = refl;
          on_spot = refl;
          named = refl;
          numbered = refl;
          bid = bid;
          ask = ask;
          bid_held = hb;
          ask_held = ha;
          bid_price = bp_read;
          bid_quantity = bq_read;
          ask_price = ap_read;
          ask_quantity = aq_read;
        })

  sides_quote-Returns :
      (s : Normalizer) (symbol : String) (b a : Option Level) (ts received_ts_ms : ℤ)
      (sequence : Option ℤ)
      → IsSide b
      → IsSide a
      → lookup_or symbol none s.bids ≡ b
      → lookup_or symbol none s.asks ≡ a
      → Returns
          (Shown s symbol sequence)
          (sides_quote decimal b a symbol ts received_ts_ms sequence)
  unfolding sides_quote
  sides_quote-Returns s symbol none a ts r n v w hb ha = tt
  sides_quote-Returns s symbol (some bid) none ts r n v w hb ha = tt
  sides_quote-Returns s symbol (some bid) (some ask) ts r n v w hb ha =
      quote_with-Returns s symbol bid ask ts r n v w hb ha

  apply_side-Returns :
      (store : Store) (symbol : String) (levels : List Level) (snapshot : Bool)
      → All IsLevel levels
      → All (λ entry. IsSide entry.1) store
      → Returns (All (λ entry. IsSide entry.1)) (apply_side decimal store symbol levels snapshot)
  unfolding apply_side
  apply_side-Returns store symbol [] true h v = insert-All IsSide symbol none store tt v
  apply_side-Returns store symbol [] false h v = v
  apply_side-Returns store symbol ((price, qty) ∷ levels) snapshot h v =
      let (q, q_read, q_nonneg) = value_of _ (decimal qty) h.0.quantity_read in
      elim (Bool-cases (eqb_D q d_zero)) [
        | inl z ↦ rw (q_read, z) (insert-All IsSide symbol none store tt v)
        | inr z ↦ rw (q_read, z) (insert-All IsSide symbol (some (price, qty)) store h.0 v)
      ]

  apply_sides-Returns :
      (s : Normalizer) (symbol : String) (payload : BookData) (snapshot : Bool)
      → IsPayload (some payload)
      → IsNormalizer s
      → IsNormalizer (apply_sides decimal s symbol payload snapshot).0
        × Returns (λ _. Unit {0}) (apply_sides decimal s symbol payload snapshot).1
  unfolding apply_sides
  apply_sides-Returns s symbol payload snapshot h v =
      let (bids, b, b_read) =
        value_of _ (apply_side decimal s.bids symbol payload.b snapshot)
          (apply_side-Returns s.bids symbol payload.b snapshot h.0 v.bids_read) in
      let (asks, a, a_read) =
        value_of _ (apply_side decimal s.asks symbol payload.a snapshot)
          (apply_side-Returns s.asks symbol payload.a snapshot h.1 v.asks_read) in
      rw (b, a, apply_sides) (record { bids_read = b_read; asks_read = a_read }, tt)

  -- The state is sound, and a quote that is returned is about the message and shows the state.
  pub record Handled (payload : Option BookData) (r : Normalizer × Result (Option NormalizedQuote))
      : Type 0 where
    pub kept : IsNormalizer r.0
    pub answered :
        Returns
          (λ (answer : Option NormalizedQuote).
            (answer ≡ none)
            ⊎ ((d : BookData) × (symbol : String) × (payload ≡ some d)
                × (to_canonical d.s bybit ≡ ok symbol)
                × Shown r.0 symbol d.u answer))
          r.1

  silent-Handled :
      (payload : Option BookData) (s : Normalizer) → IsNormalizer s → Handled payload (s, ok none)
  silent-Handled payload s v = record { kept = v; answered = inl refl }

  finish-Handled :
      (d : BookData) (symbol : String) (ts : Option ℤ) (received_ts_ms : ℤ)
      (r : Normalizer × Result (Unit {0}))
      → to_canonical d.s bybit ≡ ok symbol
      → IsNormalizer r.0
      → Returns (λ _. Unit {0}) r.1
      → Handled (some d) (finish decimal r symbol d.u ts received_ts_ms)
  unfolding finish
  finish-Handled d symbol ts received_ts_ms (s, err e) c v h = absurd h
  finish-Handled d symbol ts received_ts_ms (s, ok _) c v h =
      let s' : Normalizer = record s { sequences = note_sequence s.sequences symbol d.u } in
      let (answer, e, shown) =
        value_of _
          (sides_quote decimal (lookup_or symbol none s.bids) (lookup_or symbol none s.asks) symbol
            (ts_or ts received_ts_ms) received_ts_ms d.u)
          (sides_quote-Returns s' symbol (lookup_or symbol none s.bids)
            (lookup_or symbol none s.asks) (ts_or ts received_ts_ms) received_ts_ms d.u
            (lookup_or-All IsSide symbol none s.bids tt v.bids_read)
            (lookup_or-All IsSide symbol none s.asks tt v.asks_read) refl refl) in
      record {
        kept = record { bids_read = v.bids_read; asks_read = v.asks_read };
        answered = rw e (inr (d, symbol, refl, c, shown));
      }

  handle_symbol-Handled :
      (s : Normalizer) (message : BookMessage) (d : BookData) (symbol : String) (received_ts_ms : ℤ)
      → to_canonical d.s bybit ≡ ok symbol
      → IsPayload (some d)
      → IsNormalizer s
      → Handled (some d) (handle_symbol decimal s message d symbol received_ts_ms)
  unfolding handle_symbol
  handle_symbol-Handled s message d symbol received_ts_ms c p v =
      let (a, b) = apply_sides-Returns s symbol d true p v in
      let (a', b') = apply_sides-Returns s symbol d false p v in
      elim (Bool-cases (is_text "snapshot" message.msg_type)) [
        | inl t ↦ rw t (
            finish-Handled d symbol message.ts received_ts_ms (apply_sides decimal s symbol d true)
              c a b)
        | inr f ↦
            elim (Bool-cases (is_text "delta" message.msg_type && contains symbol s.sequences)) [
              | inl t ↦
                  rw (f, t)
                    (finish-Handled d symbol message.ts received_ts_ms
                      (apply_sides decimal s symbol d false) c a' b')
              | inr g ↦ rw (f, g) (silent-Handled (some d) s v)
            ]
      ]

  handle_data-Handled :
      (s : Normalizer) (message : BookMessage) (d : BookData) (received_ts_ms : ℤ)
      → IsPayload (some d)
      → IsNormalizer s
      → Handled (some d) (handle_data decimal s message d received_ts_ms)
  unfolding handle_data
  handle_data-Handled s message d received_ts_ms p v = go (to_canonical d.s bybit) refl
    where
      go :
          (r : Result String)
          → to_canonical d.s bybit ≡ r
          → Handled (some d) (elim r [
            | err e ↦ (s, ok none)
            | ok symbol ↦ handle_symbol decimal s message d symbol received_ts_ms
          ])
      go (err e) c = silent-Handled (some d) s v
      go (ok symbol) c = handle_symbol-Handled s message d symbol received_ts_ms c p v

  -- Over a sound state and a message whose levels have positive prices and non-negative quantities
  -- `handle` raises nothing and keeps the state sound. A quote that it returns is valid, is about
  -- the canonical symbol of the message, has the message's number, and shows the two sides that
  -- the state then holds for the symbol.
  pub handle-Handled :
      (s : Normalizer) (message : BookMessage) (received_ts_ms : ℤ)
      → IsPayload message.payload
      → IsNormalizer s
      → Handled message.payload (handle decimal s message received_ts_ms)
  unfolding handle
  handle-Handled s message received_ts_ms p v =
      elim (Bool-cases (starts_with message.topic "orderbook.1.")) [
        | inr f ↦ rw f (silent-Handled message.payload s v)
        | inl t ↦ rw t (by_payload message.payload p)
      ]
    where
      by_payload :
          (payload : Option BookData)
          → IsPayload payload
          → Handled payload (elim payload [
            | none ↦ (s, ok none)
            | some d ↦ handle_data decimal s message d received_ts_ms
          ])
      by_payload none p = silent-Handled none s v
      by_payload (some d) p = handle_data-Handled s message d received_ts_ms p v
