-- ===== src/Tests/Paper.antt =====
-- Paper trading (backend/app/paper_trading): a trade of two units against the book of Tests/Book.
use p2p_treker.Prelude.{arith, ◌≡◌, refl, ◌↔◌, true, false, none, some, [], ◌∷◌}
use p2p_treker.Prelude.Int.{pos, ◌+ℤ◌, ◌-ℤ◌, ◌*ℤ◌}
use p2p_treker.Prelude.Dict.{Dict, lookup}
use p2p_treker.Prelude.Result.{Returns}
use p2p_treker.Decimal.{Decimal, ◌+D◌, ◌*D◌, at, d_zero, d_one, lit, ◌≤D◌, ◌<D◌, ◌-D◌}
use p2p_treker.Decimal.Division.{round_D}
use p2p_treker.Decimal.Key.{ltb_D→<D, leb_D→≤D}
use p2p_treker.Models.{Exchange, binance, bybit}
use p2p_treker.OrderBook.{asks_sorted, best_ask, best_bid}
use p2p_treker.Prelude.Sorting.{extreme}
use p2p_treker.OrderBook.Vwap.{compute_vwap}
use p2p_treker.PaperTrading.Balance.{Balances, account_key, reserve, get, set_balance}
use p2p_treker.PaperTrading.Balance.Invariant.{AllSolvent, reserves, step, step-AllSolvent}
use p2p_treker.PaperTrading.Rules.{SymbolRules, validate_order}
use p2p_treker.PaperTrading.Rules.Compliance.{IsCompliant, validate_order_iff}
use p2p_treker.PaperTrading.RateLimiter.{new_limiter}
use p2p_treker.PaperTrading.RateLimiter.Window.{decisions, log_decisions, decisions_reference}
use p2p_treker.PaperTrading.Orders.{buy, PaperOrder, OrderStatus}
use p2p_treker.Spread.Engine.Table.{IsFees}
use p2p_treker.PaperTrading.Engine.Trade.{priced, fee_of, split_symbol}
use p2p_treker.PaperTrading.Engine.Trade.Profit.{HasPrice, IsExact, Agrees, priced-Returns}
use p2p_treker.PaperTrading.Setup.{
  build_paper_trading_engine, IsFunded, build_paper_trading_engine-IsFunded,
}
use p2p_treker.Spread.Engine.{ExchangeConfig}
use p2p_treker.PaperTrading.Engine.{
  PaperTradingConfig, Engine, Readings, Leg, rules_for, reserve_amount, place_leg,
}
use p2p_treker.PaperTrading.Engine.Effect.{Effect}
use p2p_treker.PaperTrading.Engine.Placement.{
  AllSolvent-LocksNonneg, place_leg-Effect, buy_cost-reserved,
}
use p2p_treker.PaperTrading.Engine.Arbitrage.{Arbitrage, execute_arbitrage}
use p2p_treker.PaperTrading.Engine.Arbitrage.Cycle.{Ends, execute_arbitrage-Ends}
use p2p_treker.Tests.Book.{book, book-IsValid}

abbrev balances : Balances
balances = ((binance, "USDT"), record { total = lit 1000 0; locked = lit 100 0 }) ∷ []

balances-AllSolvent : AllSolvent balances
unfolding at ◌*ℤ◌
balances-AllSolvent = (
  record {
    locked_nonneg = leb_D→≤D d_zero (lit 100 0) refl;
    covered = leb_D→≤D (lit 100 0) (lit 1000 0) refl;
  },
  tt,
)

step-AllSolvent_example : AllSolvent (step balances (reserves binance "USDT" (lit 900 0)))
unfolding at ◌*ℤ◌
step-AllSolvent_example =
    step-AllSolvent balances (reserves binance "USDT" (lit 900 0))
      (leb_D→≤D d_zero (lit 900 0) refl) balances-AllSolvent

reserved_run : (reserve balances binance "USDT" (lit 900 0)).1 ≡ true
unfolding reserve get at ◌*ℤ◌ ◌-D◌ ◌-ℤ◌
reserved_run = refl

-- The defaults of `SymbolRulesConfig`.
abbrev rules : SymbolRules
rules = record {
  tick_size = lit 1 2;
  step_size = lit 1 5;
  min_quantity = lit 1 5;
  min_notional = lit 10 0;
}

validate_order_iff_example :
    Returns
      (λ r. (r.valid ≡ true) ↔ IsCompliant (lit 2 0) (lit 101 0) rules)
      (validate_order (lit 2 0) (lit 101 0) rules)
unfolding at ◌*ℤ◌
validate_order_iff_example =
    validate_order_iff (lit 2 0) (lit 101 0) rules (ltb_D→<D d_zero (lit 1 5) refl)
      (ltb_D→<D d_zero (lit 1 2) refl)

decisions_reference_example :
    decisions (new_limiter 2) (1000 ∷ 1500 ∷ 1999 ∷ 2000 ∷ [])
    ≡ log_decisions 2 [] (1000 ∷ 1500 ∷ 1999 ∷ 2000 ∷ [])
decisions_reference_example = decisions_reference 2 (1000 ∷ 1500 ∷ 1999 ∷ 2000 ∷ []) (ground arith)

abbrev config : PaperTradingConfig
config = record {
  default_rules = rules;
  symbol_rules = [];
  inter_order_delay_ms = 200;
  order_timeout_ms = pos 5000;
  rate_limit_orders_per_second = 10;
}

abbrev fees : Dict Exchange Decimal
fees = (binance, lit 1 3) ∷ (bybit, lit 1 3) ∷ []

abbrev readings : Readings
readings = record { order_id = "a"; created_at = 1; updated_at = 1; allowed_at = 2; filled_at = 3 }

abbrev leg : Leg
leg = record {
  symbol = "BTC-USDT";
  exchange = binance;
  side = buy;
  quantity = lit 2 0;
  book = book;
  rules = rules;
  reserve_asset = "USDT";
  simulated_ack_latency_ms = pos 0;
}

abbrev engine : Engine
engine = record { balances = balances; rate_limiters = [] }

place_leg-Effect_example : Effect leg balances (place_leg config fees leg readings engine)
unfolding at ◌*ℤ◌
place_leg-Effect_example =
    place_leg-Effect config fees leg readings book-IsValid (ltb_D→<D d_zero (lit 1 5) refl)
      (ltb_D→<D d_zero (lit 1 2) refl) engine (AllSolvent-LocksNonneg balances balances-AllSolvent)

top_run : best_ask book ≡ some (record { price = lit 101 0; quantity = lit 2 0 })
unfolding best_ask extreme at ◌*ℤ◌
top_run = refl

buy_cost-reserved_example :
    Returns
      (λ v. v.fully_filled ≡ true → reserve_amount buy (lit 25 1) (lit 101 0) ≤D v.notional)
      (compute_vwap (asks_sorted book) (lit 25 1))
unfolding at ◌*ℤ◌
buy_cost-reserved_example =
    buy_cost-reserved book (record { price = lit 101 0; quantity = lit 2 0 }) (lit 25 1)
      book-IsValid top_run (leb_D→≤D d_zero (lit 101 0) refl) (ltb_D→<D d_zero (lit 25 1) refl)

fees-IsFees : IsFees fees
unfolding at ◌*ℤ◌
fees-IsFees = (
  record { nonneg = leb_D→≤D d_zero (lit 1 3) refl; le-one = leb_D→≤D (lit 1 3) d_one refl },
  (record { nonneg = leb_D→≤D d_zero (lit 1 3) refl; le-one = leb_D→≤D (lit 1 3) d_one refl }, tt),
)

-- Both orders of a trade; the estimate reads their exchanges.
abbrev order_at : Exchange → PaperOrder
order_at exchange = record {
  id = "a";
  exchange = exchange;
  symbol = "BTC-USDT";
  side = buy;
  requested_quantity = lit 1 0;
  reference_price = lit 101 0;
  status = OrderStatus.filled;
  filled_quantity = lit 1 0;
  avg_fill_price = some (lit 101 0);
  fee_paid = lit 101 3;
  rejection_reason = none;
  created_at_ms = pos 1;
  updated_at_ms = pos 3;
}

bid_run : best_bid book ≡ some (record { price = lit 100 0; quantity = lit 15 1 })
unfolding best_bid extreme at ◌*ℤ◌
bid_run = refl

ask-HasPrice : HasPrice (best_ask book)
unfolding at ◌*ℤ◌
ask-HasPrice = rw top_run (ltb_D→<D d_zero (lit 101 0) refl)

bid-HasPrice : HasPrice (best_bid book)
unfolding at ◌*ℤ◌
bid-HasPrice = rw bid_run (ltb_D→<D d_zero (lit 100 0) refl)

trade-IsExact :
    IsExact
      (lit 1 0)
      (lit 101 0)
      (lit 100 0)
      (fee_of config fees binance)
      (fee_of config fees bybit)
unfolding fee_of round_D at ◌*ℤ◌ ◌+ℤ◌ ◌-ℤ◌ ◌+D◌ ◌-D◌ ◌*D◌
trade-IsExact = record {
  buy_factor = record { holds = refl };
  sell_factor = record { holds = refl };
  buy_value = record { holds = refl };
  sell_value = record { holds = refl };
  cost = record { holds = refl };
  proceeds = record { holds = refl };
  difference = record { holds = refl };
  net_cost = record { holds = refl };
  net_proceeds = record { holds = refl };
}

priced-Returns_example : Returns Agrees (
    priced config fees
      (order_at binance)
      (order_at bybit)
      book
      book
      (lit 1 0)
      d_zero
      (lit 101 0)
      (lit 100 0))
unfolding at ◌*ℤ◌
priced-Returns_example =
    priced-Returns config fees (order_at binance) (order_at bybit) book book (lit 1 0) d_zero
      (lit 101 0) (lit 100 0) fees-IsFees ask-HasPrice bid-HasPrice
      (ltb_D→<D d_zero (lit 101 0) refl) (leb_D→≤D d_zero (lit 100 0) refl)
      (leb_D→≤D d_zero (lit 1 0) refl) trade-IsExact

abbrev arbitrage : Arbitrage
arbitrage = record {
  symbol = "BTC-USDT";
  buy_exchange = binance;
  buy_book = book;
  sell_exchange = bybit;
  sell_book = book;
  quantity = lit 2 0;
  quote_asset = "USDT";
  simulated_ack_latency_ms = pos 0;
}

steps_pos : d_zero <D (rules_for config "BTC-USDT").step_size
unfolding rules_for at ◌*ℤ◌
steps_pos = ltb_D→<D d_zero (lit 1 5) refl

ticks_pos : d_zero <D (rules_for config "BTC-USDT").tick_size
unfolding rules_for at ◌*ℤ◌
ticks_pos = ltb_D→<D d_zero (lit 1 2) refl

execute_arbitrage-Ends_example :
    Ends config fees
      (λ w. w)
      arbitrage
      readings
      readings
      engine
      (execute_arbitrage config fees (λ w. w) arbitrage readings readings engine)
execute_arbitrage-Ends_example =
    execute_arbitrage-Ends config fees (λ w. w) arbitrage readings readings engine book-IsValid
      book-IsValid (λ w h. h) steps_pos ticks_pos
      (AllSolvent-LocksNonneg balances balances-AllSolvent)

abbrev configured : Dict Exchange ExchangeConfig
configured =
    (binance, record { enabled = true; taker_fee = lit 1 3 })
    ∷ (bybit, record { enabled = false; taker_fee = lit 2 3 })
    ∷ []

funded_run :
    lookup (binance, "BTC") (build_paper_trading_engine configured ("BTC-USDT" ∷ [])).0.balances
    ≡ some (record { total = lit 1000000 0; locked = d_zero })
unfolding build_paper_trading_engine set_balance split_symbol
funded_run = refl

build_paper_trading_engine-IsFunded_example :
    IsFunded configured ("BTC-USDT" ∷ []) (build_paper_trading_engine configured ("BTC-USDT" ∷ []))
build_paper_trading_engine-IsFunded_example =
    build_paper_trading_engine-IsFunded configured ("BTC-USDT" ∷ []) (refl, (refl, tt))

-- The product of two prices of fifteen digits has 29 and is rounded to 28.
rounded_run :
    round_D (lit 304873216079053 9 *D lit 305422537189105 9) ≡ lit 9311515117586660934409031756 17
unfolding round_D ◌*D◌ ◌*ℤ◌
rounded_run = refl
