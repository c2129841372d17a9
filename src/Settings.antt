-- ===== src/Settings.antt =====
-- The validators of the configuration (backend/app/core/config.py). A field of `Settings` that no
-- validator reads is left out.
pub mod Validation
use p2p_treker.Prelude.{
  ℕ, ◌+◌, ◌≡◌, Bool, true, false, not, ◌&&◌, ◌||◌, none, some, Option, String, List, [], ◌∷◌,
  length, filter, ltb, if◌then◌else◌,
}
use p2p_treker.Prelude.Dict.{Dict, lookup, insert, contains, values, string_key}
use p2p_treker.Prelude.Result.{Result, ok, err, value_error, ◌>>=◌, ◌>>◌, raise_if}
use p2p_treker.Decimal.{Decimal, d_zero, d_hundred, lit, ◌-D◌, ltb_D, neg_D, sum_from}
use p2p_treker.Models.{Exchange, binance, bybit, okx, exchange_key, MarketType, spot, market_eq}
use p2p_treker.Spread.Engine.{ExchangeConfig, TradingConfig}
use p2p_treker.Symbols.{symbol_map}

pub data Environment : Type 0 where
  dev staging production : Environment

abbrev pub is_production : Environment → Bool
is_production production = true
is_production _ = false

pub record Settings : Type 0 where
  pub environment : Environment
  pub exchanges : Dict Exchange ExchangeConfig
  pub mask_secrets : Bool

-- The defaults of `ExchangeConfig`.
abbrev pub default_exchange : ExchangeConfig
default_exchange = record { enabled = true; taker_fee = lit 1 3 }

-- `setdefault`
set_default : Dict Exchange ExchangeConfig → Exchange → Dict Exchange ExchangeConfig
set_default exchanges exchange =
    if contains exchange exchanges then exchanges else insert exchange default_exchange exchanges

-- `_merge_default_exchanges`, on a given dict.
unfoldable pub merge_default_exchanges : Dict Exchange ExchangeConfig → Dict Exchange ExchangeConfig
unfolding set_default
merge_default_exchanges exchanges =
    set_default (set_default (set_default exchanges binance) bybit) okx

unfoldable pub enabled_exchanges : Dict Exchange ExchangeConfig → Dict Exchange ExchangeConfig
enabled_exchanges exchanges = filter (λ entry. entry.1.enabled) exchanges

-- `Settings._validate`
unfoldable pub validate_settings : Settings → Result Settings
validate_settings s = do
  raise_if (ltb (length (enabled_exchanges s.exchanges)) 2)
      (value_error "At least two enabled exchanges are required to compute spreads")
  raise_if (is_production s.environment && not s.mask_secrets)
      (value_error "Secret masking cannot be disabled in production")
  ok s

-- `set(self.symbols) - set(SYMBOL_MAP)`, as the list of the symbols without a mapping.
unfoldable pub unknown_symbols : List String → List String
unknown_symbols symbols = filter (λ s. not (contains s symbol_map)) symbols

abbrev pub is_empty : List String → Bool
is_empty [] = true
is_empty (_ ∷ _) = false

-- `TradingConfig._validate`
unfoldable pub validate_trading : TradingConfig → Result TradingConfig
unfolding unknown_symbols
validate_trading t = do
  raise_if (not (market_eq t.market_type spot)) (value_error "MVP supports only spot market")
  raise_if (not (is_empty (unknown_symbols t.symbols)))
      (value_error "Symbols without exchange mapping")
  raise_if (is_empty t.symbols) (value_error "At least one trading symbol is required")
  ok t

-- `abs(d)`
abs_D : Decimal → Decimal
abs_D d = if ltb_D d d_zero then neg_D d else d

abbrev pub is_unset : Dict Exchange Decimal → Bool
is_unset [] = true
is_unset (_ ∷ _) = false

-- `CapitalConfig._validate_allocation_sums_to_100`
unfoldable pub validate_allocation : Dict Exchange Decimal → Result (Dict Exchange Decimal)
unfolding abs_D
validate_allocation v = do
  raise_if (not (is_unset v) && ltb_D (lit 1 2) (abs_D (sum_from d_zero (values v) -D d_hundred)))
      (value_error "target_allocation must sum to 100")
  ok v
