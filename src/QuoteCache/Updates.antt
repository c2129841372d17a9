-- ===== src/QuoteCache/Updates.antt =====
-- What the cache finds after an update, and that a stored sequence does not go back.
use mathlib.Core.Option.{some-injective}
use p2p_treker.Prelude.{
  ap, ◌≡◌, refl, inl, inr, Bool, true, false, ◌&&◌, Option, none, some, String, [], ◌∷◌, arith,
  Bool-cases, if◌then◌else◌,
}
use p2p_treker.Prelude.Int.{ℤ, ◌≤ℤ◌, pos_part, neg_part}
use p2p_treker.Prelude.Dict.{
  Dict, lookup, lookup_or, insert, Distinct, string_key, lookup-insert, lookup_or-insert,
  lookup_or_congr, lookup_congr,
}
use p2p_treker.Models.{Exchange, MarketType, exchange_key, market_key, exchange_eq→eq, market_eq→eq}
use p2p_treker.Models.Quote.{NormalizedQuote}
use p2p_treker.QuoteCache.{
  QuoteCache, ByMarket, market_of, symbols_of, get, older, out_of_order, store, update, quote_at,
  snapshot_of, snapshot,
}

-- The key of a quote.
abbrev pub stands_at : NormalizedQuote → Exchange → MarketType → String → Bool
stands_at q exchange market symbol =
    exchange_key.beq q.exchange exchange
    && (market_key.beq q.market_type market && string_key.beq q.symbol symbol)

-- One exchange.
market_stored :
    (m : ByMarket) (q : NormalizedQuote) (market : MarketType) (symbol : String)
    → lookup symbol (
        lookup_or market []
          (insert q.market_type (insert q.symbol q (lookup_or q.market_type [] m)) m))
      ≡ (if market_key.beq q.market_type market && string_key.beq q.symbol symbol
          then some q
          else lookup symbol (lookup_or market [] m))
market_stored m q market symbol =
    rw (lookup_or-insert q.market_type market _ [] m)
      (elim (Bool-cases (market_key.beq q.market_type market)) [
        | inr f ↦ rw f refl
        | inl t ↦
            rw
              (
                t,
                lookup-insert q.symbol symbol q (lookup_or q.market_type [] m),
                lookup_or_congr q.market_type market [] m t,
              )
              refl
      ])

-- What a stored quote is found under.
get-store :
    (c : QuoteCache) (q : NormalizedQuote) (exchange : Exchange) (market : MarketType)
    (symbol : String)
    → get (store c q) exchange market symbol
      ≡ (if stands_at q exchange market symbol then some q else get c exchange market symbol)
unfolding get store
get-store c q exchange market symbol =
    rw (lookup_or-insert q.exchange exchange _ [] c.quotes)
      (elim (Bool-cases (exchange_key.beq q.exchange exchange)) [
        | inr f ↦ rw f refl
        | inl t ↦
            rw
              (
                t,
                market_stored (market_of c.quotes q.exchange) q market symbol,
                lookup_or_congr q.exchange exchange [] c.quotes t,
              )
              refl
      ])

-- After an update each key finds the quote, if it was accepted and stands at the key, and
-- otherwise what it found before.
pub get-update :
    (c : QuoteCache) (q : NormalizedQuote) (exchange : Exchange) (market : MarketType)
    (symbol : String)
    → get (update c q).0 exchange market symbol ≡ (
        if (update c q).1 && stands_at q exchange market symbol
        then some q
        else get c exchange market symbol)
unfolding update
get-update c q exchange market symbol =
    elim (Bool-cases (out_of_order q (get c q.exchange q.market_type q.symbol))) [
      | inl t ↦ rw t refl
      | inr f ↦ rw (f, get-store c q exchange market symbol) refl
    ]

-- A quote stays, and if its sequence and that of the quote after it are known, the sequence has
-- not gone back.
pub record NotBack (before after : Option NormalizedQuote) : Type 0 where
  pub stays : (b : NormalizedQuote) → before ≡ some b → (a : NormalizedQuote) × (after ≡ some a)
  pub forward :
      (b a : NormalizedQuote) (n m : ℤ)
      → before ≡ some b
      → after ≡ some a
      → b.sequence ≡ some n
      → a.sequence ≡ some m
      → n ≤ℤ m

NotBack-refl : (o : Option NormalizedQuote) → NotBack o o
NotBack-refl o = record {
  stays = λ b h. (b, h);
  forward = λ b a n m h k p q.
      let same : n ≡ m = some-injective n m (let e : b ≡ a = cc in cc) in
      omega (arith, ap pos_part same, ap neg_part same);
}

in_order :
    (q b : NormalizedQuote) (n m : ℤ)
    → out_of_order q (some b) ≡ false
    → b.sequence ≡ some n
    → q.sequence ≡ some m
    → n ≤ℤ m
unfolding out_of_order older
in_order q b n m h p r = let h' = rw (p, r) at h in ground (arith, h')

get_congr :
    (c : QuoteCache) (q : NormalizedQuote) (exchange : Exchange) (market : MarketType)
    (symbol : String)
    → stands_at q exchange market symbol ≡ true
    → get c q.exchange q.market_type q.symbol ≡ get c exchange market symbol
unfolding get
get_congr c q exchange market symbol h =
    let x : q.exchange ≡ exchange = ground (arith, exchange_eq→eq q.exchange exchange) in
    let y : q.market_type ≡ market = ground (arith, market_eq→eq q.market_type market) in
    let z : string_key.beq q.symbol symbol ≡ true = ground arith in
    rw (x, y) (lookup_congr q.symbol symbol (symbols_of c.quotes exchange market) z)

-- No update removes a quote or puts one with a smaller sequence in its place.
pub update-NotBack :
    (c : QuoteCache) (q : NormalizedQuote) (exchange : Exchange) (market : MarketType)
    (symbol : String)
    → NotBack (get c exchange market symbol) (get (update c q).0 exchange market symbol)
unfolding update
update-NotBack c q exchange market symbol =
    elim (Bool-cases (out_of_order q (get c q.exchange q.market_type q.symbol))) [
      | inl t ↦ rw t (NotBack-refl _)
      | inr f ↦
          rw (f, get-store c q exchange market symbol)
            (elim (Bool-cases (stands_at q exchange market symbol)) [
              | inr g ↦ rw g (NotBack-refl _)
              | inl t ↦
                  let f' = rw (get_congr c q exchange market symbol t) at f in
                  rw t (record {
                    stays = λ b h. (q, refl);
                    forward = λ b a n m h k p r.
                        in_order q b n m (rw h at f') p
                          (let e : q ≡ a = some-injective q a k in cc);
                  })
            ])
    ]

pub snapshot_absent :
    (market : MarketType) (symbol : String) (exchange : Exchange) (quotes : Dict Exchange ByMarket)
    → lookup exchange quotes ≡ none
    → lookup exchange (snapshot_of market symbol quotes) ≡ none
unfolding snapshot_of
snapshot_absent market symbol exchange [] h = refl
snapshot_absent market symbol exchange ((e, m) ∷ quotes) h =
    ground (arith, snapshot_absent market symbol exchange quotes)

snapshot_of-lookup :
    (market : MarketType) (symbol : String) (exchange : Exchange) (quotes : Dict Exchange ByMarket)
    → Distinct quotes
    → lookup exchange (snapshot_of market symbol quotes)
      ≡ lookup symbol (lookup_or market [] (lookup_or exchange [] quotes))
unfolding snapshot_of quote_at
snapshot_of-lookup market symbol exchange [] d = refl
snapshot_of-lookup market symbol exchange ((e, m) ∷ quotes) d = ground (
  arith,
  snapshot_of-lookup market symbol exchange quotes d.1,
  snapshot_absent market symbol exchange quotes,
  lookup_congr e exchange quotes,
)

-- The snapshot of a symbol holds, for each exchange, the quote that `get` finds.
pub lookup-snapshot :
    (c : QuoteCache) (exchange : Exchange) (market : MarketType) (symbol : String)
    → Distinct c.quotes
    → lookup exchange (snapshot c market symbol) ≡ get c exchange market symbol
unfolding snapshot get
lookup-snapshot c exchange market symbol d = snapshot_of-lookup market symbol exchange c.quotes d
