-- ===== src/QuoteCache/Invariant.antt =====
-- A cache of valid quotes, each under its own exchange, market and symbol.
use mathlib.Core.Option.{some-injective}
use p2p_treker.Prelude.{
  ◌≡◌, subst, ◌∙◌, sym, inl, inr, true, ◌&&◌, Option, none, some, String, [], ◌∷◌, arith, All,
  All-imp, Bool-cases, if◌then◌else◌,
}
use p2p_treker.Prelude.Dict.{Dict, Distinct, string_key, insert-Distinct, All-lookup}
use p2p_treker.Models.{Exchange, MarketType, exchange_key, market_key, exchange_eq→eq, market_eq→eq}
use p2p_treker.Models.Quote.{NormalizedQuote, IsValid}
use p2p_treker.QuoteCache.{
  QuoteCache, ByMarket, empty_cache, get, out_of_order, store, update, quote_at, snapshot_of,
  snapshot,
}
use p2p_treker.QuoteCache.Updates.{stands_at, get-update, snapshot_absent, lookup-snapshot}

-- The quote belongs where it is found.
pub record IsPlaced (exchange : Exchange) (market : MarketType) (symbol : String)
    (q : NormalizedQuote) : Type 0 where
  pub valid : IsValid q
  pub exchange_same : q.exchange ≡ exchange
  pub market_same : q.market_type ≡ market
  pub symbol_same : string_key.beq q.symbol symbol ≡ true

pub record IsCache (c : QuoteCache) : Type 0 where
  pub distinct : Distinct c.quotes
  pub placed :
      (exchange : Exchange) (market : MarketType) (symbol : String) (q : NormalizedQuote)
      → get c exchange market symbol ≡ some q
      → IsPlaced exchange market symbol q

pub empty_cache-IsCache : IsCache empty_cache
unfolding empty_cache get
empty_cache-IsCache = record { distinct = tt; placed = λ e m s q h. absurd cc }

update-Distinct :
    (c : QuoteCache) (q : NormalizedQuote) → Distinct c.quotes → Distinct (update c q).0.quotes
unfolding update store
update-Distinct c q d =
    elim (Bool-cases (out_of_order q (get c q.exchange q.market_type q.symbol))) [
      | inl t ↦ rw t d
      | inr f ↦ rw f (insert-Distinct q.exchange _ c.quotes d)
    ]

stands-IsPlaced :
    (q : NormalizedQuote) (exchange : Exchange) (market : MarketType) (symbol : String)
    → IsValid q
    → stands_at q exchange market symbol ≡ true
    → IsPlaced exchange market symbol q
stands-IsPlaced q exchange market symbol v h = record {
  valid = v;
  exchange_same = ground (arith, exchange_eq→eq q.exchange exchange);
  market_same = ground (arith, market_eq→eq q.market_type market);
  symbol_same = ground arith;
}

-- An update with a valid quote keeps every quote of the cache valid and in its own place.
pub update-IsCache :
    (c : QuoteCache) (q : NormalizedQuote) → IsValid q → IsCache c → IsCache (update c q).0
update-IsCache c q v i = record {
  distinct = update-Distinct c q i.distinct;
  placed = λ exchange market symbol a h.
      found exchange market symbol a (sym (get-update c q exchange market symbol) ∙ h);
}
  where
    found :
        (exchange : Exchange) (market : MarketType) (symbol : String) (a : NormalizedQuote)
        → (if (update c q).1 && stands_at q exchange market symbol
            then some q
            else get c exchange market symbol)
          ≡ some a
        → IsPlaced exchange market symbol a
    found exchange market symbol a h =
        elim (Bool-cases ((update c q).1 && stands_at q exchange market symbol)) [
          | inl t ↦
              subst (IsPlaced exchange market symbol) (some-injective q a (rw t at h))
                (stands-IsPlaced q exchange market symbol v (ground arith))
          | inr f ↦ i.placed exchange market symbol a (rw f at h)
        ]

snapshot_of-Distinct :
    (market : MarketType) (symbol : String) (quotes : Dict Exchange ByMarket)
    → Distinct quotes
    → Distinct (snapshot_of market symbol quotes)
unfolding snapshot_of
snapshot_of-Distinct market symbol [] d = tt
snapshot_of-Distinct market symbol ((e, m) ∷ quotes) d =
    one_more (quote_at market symbol m) (snapshot_of-Distinct market symbol quotes d.1)
  where
    one_more :
        (o : Option NormalizedQuote)
        → Distinct (snapshot_of market symbol quotes)
        → Distinct (elim o [
          | none ↦ snapshot_of market symbol quotes
          | some q ↦ (e, q) ∷ snapshot_of market symbol quotes
        ])
    one_more none h = h
    one_more (some q) h = (snapshot_absent market symbol e quotes d.0, h)

pub snapshot-Distinct :
    (c : QuoteCache) (market : MarketType) (symbol : String)
    → IsCache c
    → Distinct (snapshot c market symbol)
unfolding snapshot
snapshot-Distinct c market symbol i = snapshot_of-Distinct market symbol c.quotes i.distinct

pub snapshot-IsPlaced :
    (c : QuoteCache) (market : MarketType) (symbol : String)
    → IsCache c
    → All (λ entry. IsPlaced entry.0 market symbol entry.1) (snapshot c market symbol)
snapshot-IsPlaced c market symbol i =
    All-imp (snapshot c market symbol)
      (λ entry h.
        i.placed entry.0 market symbol entry.1
          (sym (lookup-snapshot c entry.0 market symbol i.distinct) ∙ h))
      (All-lookup (snapshot c market symbol) (snapshot-Distinct c market symbol i))
