-- ===== src/PaperTrading/Engine/Arbitrage.antt =====
-- `execute_arbitrage` (backend/app/paper_trading/engine.py): the buy leg, the delay and the sell leg.
pub mod Cycle
use p2p_treker.Prelude.{none, some, String, ltb, if◌then◌else◌}
use p2p_treker.Prelude.Int.{ℤ, pos}
use p2p_treker.Prelude.Dict.{Dict}
use p2p_treker.Prelude.Result.{ok, err}
use p2p_treker.Decimal.{Decimal, d_zero, leb_D}
use p2p_treker.Models.{Exchange}
use p2p_treker.OrderBook.{OrderBook}
use p2p_treker.PaperTrading.Orders.{
  OrderStatus, buy, sell, PaperOrder, buy_leg_did_not_fill, ArbitrageTradeResult,
}
use p2p_treker.PaperTrading.Engine.{
  PaperTradingConfig, Engine, Readings, Leg, EngineResult, place_leg, rules_for,
}
use p2p_treker.PaperTrading.Engine.Trade.{split_symbol, unpriced, settle_trade}

pub record Arbitrage : Type 0 where
  pub symbol : String
  pub buy_exchange : Exchange
  pub buy_book : OrderBook
  pub sell_exchange : Exchange
  pub sell_book : OrderBook
  pub quantity : Decimal
  pub quote_asset : String
  pub simulated_ack_latency_ms : ℤ

-- The engine and the two books, which other tasks may change during a sleep.
pub record World : Type 0 where
  pub engine : Engine
  pub buy_book : OrderBook
  pub sell_book : OrderBook

pub buy_leg : PaperTradingConfig → Arbitrage → Leg
buy_leg config a = record {
  symbol = a.symbol;
  exchange = a.buy_exchange;
  side = buy;
  quantity = a.quantity;
  book = a.buy_book;
  rules = rules_for config a.symbol;
  reserve_asset = a.quote_asset;
  simulated_ack_latency_ms = a.simulated_ack_latency_ms;
}

pub sell_leg : PaperTradingConfig → Arbitrage → OrderBook → Decimal → Leg
unfolding split_symbol
sell_leg config a book bought = record {
  symbol = a.symbol;
  exchange = a.sell_exchange;
  side = sell;
  quantity = bought;
  book = book;
  rules = rules_for config a.symbol;
  reserve_asset = (split_symbol a.symbol).0;
  simulated_ack_latency_ms = a.simulated_ack_latency_ms;
}

-- The sell order of a trade whose buy leg did not fill.
pub skipped_sell : Arbitrage → Readings → PaperOrder
skipped_sell a r = record {
  id = r.order_id;
  exchange = a.sell_exchange;
  symbol = a.symbol;
  side = sell;
  requested_quantity = d_zero;
  reference_price = d_zero;
  status = OrderStatus.canceled;
  filled_quantity = d_zero;
  avg_fill_price = none;
  fee_paid = d_zero;
  rejection_reason = some buy_leg_did_not_fill;
  created_at_ms = pos r.created_at;
  updated_at_ms = pos r.updated_at;
}

-- `pause` is what the other tasks do during `asyncio.sleep`.
module _ (config : PaperTradingConfig) (fees : Dict Exchange Decimal) (pause : World → World)
    (a : Arbitrage) (buy_readings sell_readings : Readings) where
  pub after_delay : World → World
  after_delay w = if ltb 0 config.inter_order_delay_ms then pause w else w

  pub settle_legs : World → PaperOrder → EngineResult PaperOrder → EngineResult ArbitrageTradeResult
  settle_legs w buy_order (e, err x) = (e, err x)
  settle_legs w buy_order (e, ok sell_order) =
      settle_trade config fees e buy_order sell_order w.buy_book w.sell_book

  pub sell_phase : World → PaperOrder → EngineResult ArbitrageTradeResult
  unfolding sell_leg settle_legs
  sell_phase w buy_order = settle_legs w buy_order (
      place_leg config fees (sell_leg config a w.sell_book buy_order.filled_quantity) sell_readings
        w.engine)

  pub skip_sell : Engine → PaperOrder → EngineResult ArbitrageTradeResult
  unfolding unpriced skipped_sell
  skip_sell e buy_order =
      (e, ok (unpriced config fees buy_order (skipped_sell a sell_readings) d_zero d_zero))

  pub after_buy : EngineResult PaperOrder → EngineResult ArbitrageTradeResult
  unfolding after_delay sell_phase skip_sell
  after_buy (e, err x) = (e, err x)
  after_buy (e, ok buy_order) =
      if leb_D buy_order.filled_quantity d_zero
      then skip_sell e buy_order
      else sell_phase
          (after_delay (record { engine = e; buy_book = a.buy_book; sell_book = a.sell_book }))
          buy_order

  unfoldable pub execute_arbitrage : Engine → EngineResult ArbitrageTradeResult
  unfolding buy_leg after_buy
  execute_arbitrage e = after_buy (place_leg config fees (buy_leg config a) buy_readings e)
