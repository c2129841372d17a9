-- ===== src/PaperTrading/Setup.antt =====
-- `build_paper_trading_engine` (backend/app/main.py): the balances and the fees that the paper
-- trading engine starts with.
use p2p_treker.Prelude.{
  ◌≡◌, refl, inl, inr, Bool, Bool-cases, false, ◌&&◌, ◌||◌, Option, none, some, String, List, [],
  ◌∷◌, arith, if◌then◌else◌,
}
use p2p_treker.Prelude.Dict.{
  Dict, Distinct, lookup, insert, lookup-insert, lookup_congr, string_key,
}
use p2p_treker.Prelude.Int.{◌*ℤ◌}
use p2p_treker.Decimal.{Decimal, at, d_zero, lit, ◌≤D◌}
use p2p_treker.Decimal.Key.{leb_D→≤D}
use p2p_treker.Models.{Exchange, exchange_key}
use p2p_treker.Spread.Engine.{ExchangeConfig, Fees}
use p2p_treker.PaperTrading.Balance.{AssetBalance, Balances, account_key, set_balance}
use p2p_treker.PaperTrading.Balance.Invariant.{AllSolvent, sets, step-AllSolvent}
use p2p_treker.PaperTrading.Engine.{Engine}
use p2p_treker.PaperTrading.Engine.Trade.{split_symbol}

abbrev pub default_funding : Decimal
default_funding = lit 1000000 0

-- `symbol.split("-")[0]`
abbrev pub base_asset : String → String
base_asset symbol = (split_symbol symbol).0

fund : Exchange → List String → Balances → Balances
fund exchange [] m = m
fund exchange (symbol ∷ symbols) m =
    fund exchange symbols (set_balance m exchange (base_asset symbol) default_funding)

-- The accounts of an exchange that is enabled.
open_accounts : Exchange → List String → Balances → Balances
unfolding fund
open_accounts exchange symbols m =
    fund exchange symbols (set_balance m exchange "USDT" default_funding)

add_exchange : List String → Balances × Fees → Exchange × ExchangeConfig → Balances × Fees
unfolding open_accounts
add_exchange symbols (balances, fees) (exchange, cfg) =
    if cfg.enabled
    then (open_accounts exchange symbols balances, insert exchange cfg.taker_fee fees)
    else (balances, fees)

add_exchanges : List String → Balances × Fees → Dict Exchange ExchangeConfig → Balances × Fees
unfolding add_exchange
add_exchanges symbols built [] = built
add_exchanges symbols built (entry ∷ rest) =
    add_exchanges symbols (add_exchange symbols built entry) rest

-- The state of the new engine, and the fees that it was given.
unfoldable pub build_paper_trading_engine :
    Dict Exchange ExchangeConfig → List String → Engine × Fees
unfolding add_exchanges
build_paper_trading_engine exchanges symbols =
    let (balances, fees) = add_exchanges symbols ([], []) exchanges in
    (record { balances = balances; rate_limiters = [] }, fees)

-- What the balances and the fees of the built engine are meant to be.
abbrev pub is_base : String → List String → Bool
is_base asset [] = false
is_base asset (symbol ∷ symbols) = string_key.beq (base_asset symbol) asset || is_base asset symbols

abbrev pub is_traded : String → List String → Bool
is_traded asset symbols = string_key.beq "USDT" asset || is_base asset symbols

abbrev pub is_enabled : Exchange → Dict Exchange ExchangeConfig → Bool
is_enabled x exchanges = elim (lookup x exchanges) [ none ↦ false | some cfg ↦ cfg.enabled ]

abbrev pub fee_or : Option ExchangeConfig → Option Decimal → Option Decimal
fee_or none fallback = fallback
fee_or (some cfg) fallback = if cfg.enabled then some cfg.taker_fee else fallback

abbrev pub funding : AssetBalance
funding = record { total = default_funding; locked = d_zero }

module _ (x : Exchange) (asset : String) where
  lookup-fund :
      (y : Exchange) (symbols : List String) (m : Balances)
      → lookup (x, asset) (fund y symbols m) ≡ (
          if exchange_key.beq y x && is_base asset symbols
          then some funding
          else lookup (x, asset) m)
  unfolding fund set_balance
  lookup-fund y [] m = ground arith
  lookup-fund y (symbol ∷ symbols) m = ground (
    arith,
    lookup-fund y symbols (insert (y, base_asset symbol) funding m),
    lookup-insert (y, base_asset symbol) (x, asset) funding m,
  )

  lookup-open_accounts :
      (y : Exchange) (symbols : List String) (m : Balances)
      → lookup (x, asset) (open_accounts y symbols m) ≡ (
          if exchange_key.beq y x && is_traded asset symbols
          then some funding
          else lookup (x, asset) m)
  unfolding open_accounts set_balance
  lookup-open_accounts y symbols m = ground (
    arith,
    lookup-fund y symbols (insert (y, "USDT") funding m),
    lookup-insert (y, "USDT") (x, asset) funding m,
  )

  lookup-add_exchange :
      (symbols : List String) (built : Balances × Fees) (entry : Exchange × ExchangeConfig)
      → lookup (x, asset) (add_exchange symbols built entry).0 ≡ (
          if entry.1.enabled && (exchange_key.beq entry.0 x && is_traded asset symbols)
          then some funding
          else lookup (x, asset) built.0)
  unfolding add_exchange
  lookup-add_exchange symbols (m, fees) (y, cfg) = ground (arith, lookup-open_accounts y symbols m)

  lookup-add_exchanges :
      (symbols : List String) (built : Balances × Fees) (d : Dict Exchange ExchangeConfig)
      → Distinct d
      → lookup (x, asset) (add_exchanges symbols built d).0 ≡ (
          if is_enabled x d && is_traded asset symbols
          then some funding
          else lookup (x, asset) built.0)
  unfolding add_exchanges
  lookup-add_exchanges symbols built [] h = refl
  lookup-add_exchanges symbols built ((y, cfg) ∷ d) h = ground (
    arith,
    lookup-add_exchanges symbols (add_exchange symbols built (y, cfg)) d h.1,
    lookup-add_exchange symbols built (y, cfg),
    lookup_congr y x d,
  )

lookup-add_fees :
    (x : Exchange) (symbols : List String) (built : Balances × Fees)
    (d : Dict Exchange ExchangeConfig)
    → Distinct d
    → lookup x (add_exchanges symbols built d).1 ≡ fee_or (lookup x d) (lookup x built.1)
unfolding add_exchanges add_exchange
lookup-add_fees x symbols built [] h = refl
lookup-add_fees x symbols (m, fees) ((y, cfg) ∷ d) h = ground (
  arith,
  lookup-add_fees x symbols (add_exchange symbols (m, fees) (y, cfg)) d h.1,
  lookup-insert y x cfg.taker_fee fees,
  lookup_congr y x d,
)

module _ (funds : d_zero ≤D default_funding) where
  fund-AllSolvent :
      (y : Exchange) (symbols : List String) (m : Balances)
      → AllSolvent m
      → AllSolvent (fund y symbols m)
  unfolding fund
  fund-AllSolvent y [] m h = h
  fund-AllSolvent y (symbol ∷ symbols) m h =
      fund-AllSolvent y symbols _
        (step-AllSolvent m (sets y (base_asset symbol) default_funding) funds h)

  add_exchange-AllSolvent :
      (symbols : List String) (built : Balances × Fees) (entry : Exchange × ExchangeConfig)
      → AllSolvent built.0
      → AllSolvent (add_exchange symbols built entry).0
  unfolding add_exchange open_accounts
  add_exchange-AllSolvent symbols (m, fees) (y, cfg) h = elim (Bool-cases cfg.enabled) [
    | inl t ↦
        rw t
          (fund-AllSolvent y symbols _ (step-AllSolvent m (sets y "USDT" default_funding) funds h))
    | inr f ↦ rw f h
  ]

  add_exchanges-AllSolvent :
      (symbols : List String) (built : Balances × Fees) (d : Dict Exchange ExchangeConfig)
      → AllSolvent built.0
      → AllSolvent (add_exchanges symbols built d).0
  unfolding add_exchanges
  add_exchanges-AllSolvent symbols built [] h = h
  add_exchanges-AllSolvent symbols built (entry ∷ d) h =
      add_exchanges-AllSolvent symbols (add_exchange symbols built entry) d
        (add_exchange-AllSolvent symbols built entry h)

funding_nonneg : d_zero ≤D default_funding
unfolding at ◌*ℤ◌
funding_nonneg = leb_D→≤D d_zero default_funding refl

pub record IsFunded (exchanges : Dict Exchange ExchangeConfig) (symbols : List String)
    (built : Engine × Fees) : Type 0 where
  pub accounts :
      (x : Exchange) (asset : String)
      → lookup (x, asset) built.0.balances
        ≡ (if is_enabled x exchanges && is_traded asset symbols then some funding else none)
  pub fees : (x : Exchange) → lookup x built.1 ≡ fee_or (lookup x exchanges) none
  pub solvent : AllSolvent built.0.balances

-- For a dict of exchanges, which has no exchange twice, the balances of the built engine hold
-- 1000000 and no lock in USDT and in the base asset of each symbol on every exchange that is
-- enabled, and no other account; the fees are those of the enabled exchanges and no others; and
-- every account is solvent, so that the invariant of the balances holds from the start.
pub build_paper_trading_engine-IsFunded :
    (exchanges : Dict Exchange ExchangeConfig) (symbols : List String)
    → Distinct exchanges
    → IsFunded exchanges symbols (build_paper_trading_engine exchanges symbols)
unfolding build_paper_trading_engine
build_paper_trading_engine-IsFunded exchanges symbols h = record {
  accounts = λ x asset. lookup-add_exchanges x asset symbols ([], []) exchanges h;
  fees = λ x. lookup-add_fees x symbols ([], []) exchanges h;
  solvent = add_exchanges-AllSolvent funding_nonneg symbols ([], []) exchanges tt;
}
