-- ===== src/Normalizer.antt =====
-- The normalizers (backend/app/normalizer): a message of an exchange becomes a quote, or nothing.
--
-- A message is what its `get`s find, a level the first two texts of its list, and `int(text)` the
-- integer of the text. How a text is read as a decimal is an argument.
pub mod Bybit
pub mod Quotes
use text.Mathlib.Text.{starts_with}
use p2p_treker.Prelude.{
  ◌≡◌, Bool, true, false, not, ◌||◌, ◌&&◌, Option, none, some, String, List, [], ◌∷◌, if◌then◌else◌,
}
use p2p_treker.Prelude.Int.{ℤ}
use p2p_treker.Prelude.Result.{Result, ok, err, ◌>>=◌}
use p2p_treker.Prelude.Dict.{Dict, lookup, lookup_or, insert, contains, string_key}
use p2p_treker.Decimal.{Decimal, d_zero, eqb_D}
use p2p_treker.Models.{Exchange, binance, bybit, okx, MarketType, spot}
use p2p_treker.Models.Quote.{NormalizedQuote, validate}
use p2p_treker.Symbols.{to_canonical}

-- `[price, quantity]`
abbrev pub Level : Type 0
Level = String × String

-- The payload of a Binance `bookTicker`.
pub record BookTicker : Type 0 where
  pub s : Option String
  pub b : Option String
  pub bid_quantity : String
  pub a : Option String
  pub ask_quantity : String
  pub u : Option ℤ

-- An entry of the `data` of an OKX message.
pub record BboEntry : Type 0 where
  pub bids : List Level
  pub asks : List Level
  pub ts : ℤ
  pub seq_id : Option ℤ

pub record BboMessage : Type 0 where
  pub channel : Option String
  pub inst_id : String
  pub payload : List BboEntry

-- The `data` of a Bybit message.
pub record BookData : Type 0 where
  pub s : String
  pub b : List Level
  pub a : List Level
  pub u : Option ℤ

pub record BookMessage : Type 0 where
  pub topic : String
  pub payload : Option BookData
  pub msg_type : Option String
  pub ts : Option ℤ

abbrev pub Store : Type 0
Store = Dict String (Option Level)

-- The state of `BybitBookNormalizer`.
pub record Normalizer : Type 0 where
  pub bids : Store
  pub asks : Store
  pub sequences : Dict String ℤ

unfoldable pub new_normalizer : Normalizer
new_normalizer = record { bids = []; asks = []; sequences = [] }

-- `reset` clears the three dicts.
unfoldable pub reset : Normalizer → Normalizer
unfolding new_normalizer
reset s = new_normalizer

abbrev pub is_text : String → Option String → Bool
is_text t none = false
is_text t (some u) = string_key.beq u t

-- `try: symbol = to_canonical(...)` with `except KeyError: return None`, and the rest.
abbrev pub for_symbol :
    Result String → (String → Result (Option NormalizedQuote)) → Result (Option NormalizedQuote)
for_symbol (err e) rest = ok none
for_symbol (ok symbol) rest = rest symbol

abbrev pub note_sequence : Dict String ℤ → String → Option ℤ → Dict String ℤ
note_sequence sequences symbol none = sequences
note_sequence sequences symbol (some u) = insert symbol u sequences

abbrev pub ts_or : Option ℤ → ℤ → ℤ
ts_or none received_ts_ms = received_ts_ms
ts_or (some ts) received_ts_ms = ts

module _ (decimal : String → Result Decimal) where
  -- The quote of a symbol, whose constructor reads the texts and runs the validators.
  pub quote_with :
      Exchange → String → Level → Level → ℤ → ℤ → Option ℤ → Result (Option NormalizedQuote)
  quote_with exchange symbol bid ask exchange_ts received_ts_ms sequence = do
    bid_price ← decimal bid.0
    bid_quantity ← decimal bid.1
    ask_price ← decimal ask.0
    ask_quantity ← decimal ask.1
    q ← validate (record {
      exchange = exchange;
      market_type = spot;
      symbol = symbol;
      bid_price = bid_price;
      bid_quantity = bid_quantity;
      ask_price = ask_price;
      ask_quantity = ask_quantity;
      exchange_timestamp = exchange_ts;
      received_timestamp = received_ts_ms;
      sequence = sequence;
    })
    ok (some q)

  -- `data[side] in ("", "0")`
  pub no_side : String → Bool
  no_side text = string_key.beq text "" || string_key.beq text "0"

  pub ticker_quote : BookTicker → ℤ → String → String → String → Result (Option NormalizedQuote)
  unfolding quote_with no_side
  ticker_quote payload received_ts_ms s b a =
      if no_side b || no_side a
      then ok none
      else for_symbol (to_canonical s binance) λ symbol.
        quote_with binance symbol (b, payload.bid_quantity) (a, payload.ask_quantity) received_ts_ms
          received_ts_ms payload.u

  unfoldable pub normalize_book_ticker : BookTicker → ℤ → Result (Option NormalizedQuote)
  unfolding ticker_quote
  normalize_book_ticker payload received_ts_ms = elim payload.s [
    | none ↦ ok none
    | some s ↦ elim payload.b [
      | none ↦ ok none
      | some b ↦ elim payload.a [
        | none ↦ ok none
        | some a ↦ ticker_quote payload received_ts_ms s b a
      ]
    ]
  ]

  pub entry_quote :
      List Level → List Level → BboEntry → ℤ → String → Result (Option NormalizedQuote)
  unfolding quote_with
  entry_quote [] asks entry received_ts_ms symbol = ok none
  entry_quote (bid ∷ bids) [] entry received_ts_ms symbol = ok none
  entry_quote (bid ∷ bids) (ask ∷ asks) entry received_ts_ms symbol =
      quote_with okx symbol bid ask entry.ts received_ts_ms entry.seq_id

  unfoldable pub normalize_bbo : BboMessage → ℤ → Result (Option NormalizedQuote)
  unfolding entry_quote
  normalize_bbo message received_ts_ms =
      if not (is_text "bbo-tbt" message.channel) then ok none else elim message.payload [
        | [] ↦ ok none
        | entry ∷ entries ↦
            for_symbol (to_canonical message.inst_id okx)
              (entry_quote entry.bids entry.asks entry received_ts_ms)
      ]

  -- `BybitBookNormalizer._apply_side`, whose `Decimal(qty)` can raise.
  pub apply_side : Store → String → List Level → Bool → Result Store
  apply_side store symbol [] snapshot = ok (if snapshot then insert symbol none store else store)
  apply_side store symbol ((price, qty) ∷ levels) snapshot = decimal qty >>= λ q.
      ok (insert symbol (if eqb_D q d_zero then none else some (price, qty)) store)

  -- Both sides, the bids first.
  pub apply_sides : Normalizer → String → BookData → Bool → Normalizer × Result (Unit {0})
  unfolding apply_side
  apply_sides s symbol payload snapshot = elim (apply_side s.bids symbol payload.b snapshot) [
    | err e ↦ (s, err e)
    | ok bids ↦ elim (apply_side s.asks symbol payload.a snapshot) [
      | err e ↦ (record s { bids = bids }, err e)
      | ok asks ↦ (record s { bids = bids; asks = asks }, ok tt)
    ]
  ]

  -- The quote of both sides, if there are both.
  pub sides_quote :
      Option Level → Option Level → String → ℤ → ℤ → Option ℤ → Result (Option NormalizedQuote)
  unfolding quote_with
  sides_quote none ask symbol exchange_ts received_ts_ms sequence = ok none
  sides_quote (some bid) none symbol exchange_ts received_ts_ms sequence = ok none
  sides_quote (some bid) (some ask) symbol exchange_ts received_ts_ms sequence =
      quote_with bybit symbol bid ask exchange_ts received_ts_ms sequence

  -- The end of `handle`, after the sides.
  pub finish :
      Normalizer × Result (Unit {0})
      → String
      → Option ℤ
      → Option ℤ
      → ℤ
      → Normalizer × Result (Option NormalizedQuote)
  unfolding sides_quote
  finish (s, err e) symbol sequence ts received_ts_ms = (s, err e)
  finish (s, ok _) symbol sequence ts received_ts_ms = (
    record s { sequences = note_sequence s.sequences symbol sequence },
    sides_quote (lookup_or symbol none s.bids) (lookup_or symbol none s.asks) symbol
        (ts_or ts received_ts_ms) received_ts_ms sequence,
  )

  pub handle_symbol :
      Normalizer
      → BookMessage
      → BookData
      → String
      → ℤ
      → Normalizer × Result (Option NormalizedQuote)
  unfolding apply_sides finish
  handle_symbol s message payload symbol received_ts_ms =
      if is_text "snapshot" message.msg_type
      then finish (apply_sides s symbol payload true) symbol payload.u message.ts received_ts_ms
      else if is_text "delta" message.msg_type && contains symbol s.sequences
      then finish (apply_sides s symbol payload false) symbol payload.u message.ts received_ts_ms
      else (s, ok none)

  pub handle_data :
      Normalizer → BookMessage → BookData → ℤ → Normalizer × Result (Option NormalizedQuote)
  unfolding handle_symbol
  handle_data s message payload received_ts_ms = elim (to_canonical payload.s bybit) [
    | err e ↦ (s, ok none)
    | ok symbol ↦ handle_symbol s message payload symbol received_ts_ms
  ]

  unfoldable pub handle :
      Normalizer → BookMessage → ℤ → Normalizer × Result (Option NormalizedQuote)
  unfolding handle_data
  handle s message received_ts_ms =
      if not (starts_with message.topic "orderbook.1.")
      then (s, ok none)
      else elim message.payload [
        | none ↦ (s, ok none)
        | some payload ↦ handle_data s message payload received_ts_ms
      ]
