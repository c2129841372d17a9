-- ===== src/PaperTrading/Engine.antt =====
-- `PaperTradingEngine` (backend/app/paper_trading/engine.py): one leg of an arbitrage.
--
-- The engine's methods change the balances that it was given and its rate limiters; both are in
-- `Engine`, and an exception leaves the state as it was when it was raised. The ids and the clock
-- readings of a leg are its `Readings`.
pub mod Trade
pub mod Arbitrage
pub mod Effect
pub mod Placement
use p2p_treker.Prelude.{
  ℕ, ◌≡◌, Bool, true, false, Option, none, some, String, List, [], ◌∷◌, if◌then◌else◌,
}
use p2p_treker.Prelude.Int.{ℤ, pos, ltb_ℤ}
use p2p_treker.Prelude.Dict.{Dict, lookup_or, insert, string_key}
use p2p_treker.Prelude.Result.{Result, ok, err}
use p2p_treker.Decimal.{Decimal, d_zero, ◌*D◌}
use p2p_treker.Models.{Exchange, exchange_key}
use p2p_treker.OrderBook.{OrderBook, BookLevel, best_ask, best_bid, asks_sorted, bids_sorted}
use p2p_treker.OrderBook.Vwap.{VwapResult, compute_vwap}
use p2p_treker.PaperTrading.Balance.{Balances, reserve, release, settle, credit}
use p2p_treker.PaperTrading.Rules.{SymbolRules, OrderValidationResult, validate_order}
use p2p_treker.PaperTrading.RateLimiter.{RateLimiter, new_limiter, allow}
use p2p_treker.PaperTrading.Orders.{
  OrderStatus, OrderSide, buy, sell, PaperOrder, RejectionReason, ack_latency_exceeded,
  no_liquidity, rules_violated, rate_limit_exceeded, insufficient_balance, no_fillable_depth,
}
use p2p_treker.PaperTrading.Orders

pub record PaperTradingConfig : Type 0 where
  pub default_rules : SymbolRules
  pub symbol_rules : Dict String SymbolRules
  pub inter_order_delay_ms : ℕ
  pub order_timeout_ms : ℤ
  pub rate_limit_orders_per_second : ℕ

unfoldable pub rules_for : PaperTradingConfig → String → SymbolRules
rules_for config symbol = lookup_or symbol config.default_rules config.symbol_rules

pub record Engine : Type 0 where
  pub balances : Balances
  pub rate_limiters : Dict Exchange RateLimiter

-- What a leg reads from `uuid4` and, in turn, from the clock.
pub record Readings : Type 0 where
  pub order_id : String
  pub created_at : ℕ
  pub updated_at : ℕ
  pub allowed_at : ℕ
  pub filled_at : ℕ

pub record Leg : Type 0 where
  pub symbol : String
  pub exchange : Exchange
  pub side : OrderSide
  pub quantity : Decimal
  pub book : OrderBook
  pub rules : SymbolRules
  pub reserve_asset : String
  pub simulated_ack_latency_ms : ℤ

-- An engine call: the state that it leaves, and what it returns or raises.
abbrev pub EngineResult : Type 0 → Type 0
EngineResult A = Engine × Result A

unfoldable pub rate_limiter : PaperTradingConfig → Engine → Exchange → RateLimiter
rate_limiter config e exchange =
    lookup_or exchange (new_limiter config.rate_limit_orders_per_second) e.rate_limiters

-- `book.best_ask() if side == "buy" else book.best_bid()`, and the levels in that order.
abbrev pub top_of : OrderSide → OrderBook → Option BookLevel
top_of buy book = best_ask book
top_of sell book = best_bid book

abbrev pub levels_of : OrderSide → OrderBook → List BookLevel
levels_of buy book = asks_sorted book
levels_of sell book = bids_sorted book

abbrev pub reserve_amount : OrderSide → Decimal → Decimal → Decimal
reserve_amount buy quantity price = quantity *D price
reserve_amount sell quantity price = quantity

abbrev pub actual_amount : OrderSide → Decimal → Decimal → Decimal
actual_amount buy quantity notional = notional
actual_amount sell quantity notional = quantity

abbrev pub reference_price : Option BookLevel → Decimal
reference_price none = d_zero
reference_price (some top) = top.price

pub new_order : Leg → Readings → PaperOrder
new_order leg r = record {
  id = r.order_id;
  exchange = leg.exchange;
  symbol = leg.symbol;
  side = leg.side;
  requested_quantity = leg.quantity;
  reference_price = reference_price (top_of leg.side leg.book);
  status = OrderStatus.new;
  filled_quantity = d_zero;
  avg_fill_price = none;
  fee_paid = d_zero;
  rejection_reason = none;
  created_at_ms = pos r.created_at;
  updated_at_ms = pos r.updated_at;
}

pub reject : PaperOrder → RejectionReason → PaperOrder
reject o reason = record o { status = OrderStatus.rejected; rejection_reason = some reason }

pub expire : PaperOrder → RejectionReason → PaperOrder
expire o reason = record o { status = OrderStatus.expired; rejection_reason = some reason }

pub fill : PaperOrder → VwapResult → Decimal → Decimal → ℕ → PaperOrder
fill o vwap price fee_rate now = record o {
  filled_quantity = vwap.filled_quantity;
  avg_fill_price = some price;
  fee_paid = vwap.notional *D fee_rate;
  status = if vwap.fully_filled then OrderStatus.filled else OrderStatus.partially_filled;
  updated_at_ms = pos now;
}

module _ (config : PaperTradingConfig) (fees : Dict Exchange Decimal) (leg : Leg)
    (r : Readings) where
  pub order : PaperOrder
  unfolding new_order
  order = new_order leg r

  -- The funds are reserved and the depth is walked.
  pub settle_fill : Engine → Decimal → VwapResult → EngineResult PaperOrder
  unfolding order reject fill
  settle_fill e amount vwap = elim vwap.vwap_price [
    | none ↦ (
      record e { balances = release e.balances leg.exchange leg.reserve_asset amount },
      ok (reject order no_fillable_depth),
    )
    | some price ↦ (
      record e {
        balances =
            settle e.balances leg.exchange leg.reserve_asset amount
              (actual_amount leg.side leg.quantity vwap.notional);
      },
      ok (fill order vwap price (lookup_or leg.exchange d_zero fees) r.filled_at),
    )
  ]

  pub fill_leg : Engine → Decimal → EngineResult PaperOrder
  unfolding settle_fill
  fill_leg e amount = elim (compute_vwap (levels_of leg.side leg.book) leg.quantity) [
    | err x ↦ (e, err x)
    | ok vwap ↦ settle_fill e amount vwap
  ]

  pub reserve_leg : Engine → Decimal → EngineResult PaperOrder
  unfolding order reject fill_leg
  reserve_leg e amount =
      let (b, reserved) = reserve e.balances leg.exchange leg.reserve_asset amount in
      let reserved_state = record e { balances = b } in
      if reserved
      then fill_leg reserved_state amount
      else (reserved_state, ok (reject order (insufficient_balance leg.reserve_asset leg.exchange)))

  -- `self._rate_limiter(exchange).allow(now_ms())`
  pub limit_leg : Engine → Decimal → EngineResult PaperOrder
  unfolding order reject reserve_leg
  limit_leg e amount =
      let (limiter, allowed) = allow (rate_limiter config e leg.exchange) r.allowed_at in
      let counted = record e { rate_limiters = insert leg.exchange limiter e.rate_limiters } in
      if allowed
      then reserve_leg counted amount
      else (counted, ok (reject order rate_limit_exceeded))

  pub validated_leg : Engine → Decimal → OrderValidationResult → EngineResult PaperOrder
  unfolding order reject limit_leg
  validated_leg e price validation =
      if validation.valid
      then limit_leg e (reserve_amount leg.side leg.quantity price)
      else (e, ok (reject order (rules_violated validation.violations)))

  pub quoted_leg : Engine → Option BookLevel → EngineResult PaperOrder
  unfolding order reject validated_leg
  quoted_leg e none = (e, ok (reject order no_liquidity))
  quoted_leg e (some top) = elim (validate_order leg.quantity top.price leg.rules) [
    | err x ↦ (e, err x)
    | ok validation ↦ validated_leg e top.price validation
  ]

  -- `_place_leg`
  unfoldable pub place_leg : Engine → EngineResult PaperOrder
  unfolding order expire quoted_leg
  place_leg e =
      if ltb_ℤ config.order_timeout_ms leg.simulated_ack_latency_ms
      then (
        e,
        ok (
            expire order
              (ack_latency_exceeded leg.simulated_ack_latency_ms config.order_timeout_ms)),
      )
      else quoted_leg e (top_of leg.side leg.book)
