-- ===== src/Settings/Validation.antt =====
-- What a configuration that passes its validators provides.
use p2p_treker.Prelude.{
  ◌≡◌, refl, ◌↔◌, inl, inr, true, false, none, some, String, List, [], ◌∷◌, arith, All, Bool-cases,
  if◌then◌else◌,
}
use p2p_treker.Prelude.Dict.{
  Dict, Key, lookup, lookup_or, contains, string_key, lookup-insert, lookup_congr,
}
use p2p_treker.Prelude.Result.{ok}
use p2p_treker.Models.{
  Exchange, binance, bybit, okx, exchange_key, exchange_eq, spot, market_eq, market_eq→eq,
}
use p2p_treker.Spread.Engine.{ExchangeConfig, TradingConfig}
use p2p_treker.Symbols.{symbol_map}
use p2p_treker.Settings.{
  default_exchange, set_default, merge_default_exchanges, unknown_symbols, is_empty,
  validate_trading,
}

contains-lookup :
    {K V : Type 0} ⦃e : Key K⦄ (k : K) (d : Dict K V)
    → contains k d ≡ (elim (lookup k d) [ none ↦ false | some _ ↦ true ])
contains-lookup k [] = refl
contains-lookup ⦃e⦄ k ((j, w) ∷ d) = ground (arith, contains-lookup k d)

lookup-set_default :
    (d : Dict Exchange ExchangeConfig) (k j : Exchange)
    → lookup j (set_default d k)
      ≡ (if exchange_eq k j then some (lookup_or k default_exchange d) else lookup j d)
unfolding set_default
lookup-set_default d k j =
    ground (arith, contains-lookup k d, lookup-insert k j default_exchange d, lookup_congr k j d)

-- After the merge every exchange has a configuration: its own if one was given, or the default.
pub lookup-merge_default_exchanges :
    (d : Dict Exchange ExchangeConfig) (exchange : Exchange)
    → lookup exchange (merge_default_exchanges d) ≡ some (lookup_or exchange default_exchange d)
unfolding merge_default_exchanges
lookup-merge_default_exchanges d binance = ground (
  arith,
  lookup-set_default (set_default (set_default d binance) bybit) okx binance,
  lookup-set_default (set_default d binance) bybit binance,
  lookup-set_default d binance binance,
)
lookup-merge_default_exchanges d bybit = ground (
  arith,
  lookup-set_default (set_default (set_default d binance) bybit) okx bybit,
  lookup-set_default (set_default d binance) bybit bybit,
  lookup-set_default d binance bybit,
)
lookup-merge_default_exchanges d okx = ground (
  arith,
  lookup-set_default (set_default (set_default d binance) bybit) okx okx,
  lookup-set_default (set_default d binance) bybit okx,
  lookup-set_default d binance okx,
)

-- The engine's market is spot, there is a symbol, and each one is mapped.
pub record IsTrading (t : TradingConfig) : Type 0 where
  pub spot_market : t.market_type ≡ spot
  pub some_symbol : is_empty t.symbols ≡ false
  pub mapped : All (λ s. contains s symbol_map ≡ true) t.symbols

no_unknown :
    (symbols : List String)
    → is_empty (unknown_symbols symbols) ≡ true
    → All (λ s. contains s symbol_map ≡ true) symbols
unfolding unknown_symbols
no_unknown [] h = tt
no_unknown (s ∷ symbols) h = elim (Bool-cases (contains s symbol_map)) [
  | inl t ↦ (t, no_unknown symbols (rw t at h))
  | inr f ↦ absurd (let h' = rw f at h in cc)
]

All-known :
    (symbols : List String)
    → All (λ s. contains s symbol_map ≡ true) symbols
    → is_empty (unknown_symbols symbols) ≡ true
unfolding unknown_symbols
All-known [] h = refl
All-known (s ∷ symbols) h = rw h.0 (All-known symbols h.1)

-- A trading configuration passes its validator exactly if its market is spot, it has a symbol,
-- and every symbol is in the symbol table.
pub validate_trading_iff : (t : TradingConfig) → (validate_trading t ≡ ok t) ↔ IsTrading t
unfolding validate_trading
validate_trading_iff t = elim (Bool-cases (market_eq t.market_type spot)) [
  | inr f ↦ rw f ((λ h. absurd cc), (λ v. absurd (let s = rw v.spot_market at f in cc)))
  | inl m ↦ elim (Bool-cases (is_empty (unknown_symbols t.symbols))) [
    | inr f ↦
        rw (m, f) ((λ h. absurd cc), (λ v. absurd (let k = All-known t.symbols v.mapped in cc)))
    | inl k ↦ elim (Bool-cases (is_empty t.symbols)) [
      | inl z ↦ rw (m, k, z) ((λ h. absurd cc), (λ v. absurd (let n = v.some_symbol in cc)))
      | inr n ↦
          rw (m, k, n)
            (
              (λ h. record {
                spot_market = market_eq→eq t.market_type spot m;
                some_symbol = n;
                mapped = no_unknown t.symbols k;
              }),
              (λ v. refl),
            )
    ]
  ]
]
