-- ===== src/PaperTrading/Engine/Trade.antt =====
-- `cancel_order`, `execute_arbitrage` and `_settle` (backend/app/paper_trading/engine.py).
pub mod Profit
use Prim.Native.Char.{code}
use Prim.Native.String.{[], ◌∷◌}
use p2p_treker.Prelude.{ℕ, Bool, false, not, ◌&&◌, Option, none, some, String, ◌==◌, if◌then◌else◌}
use p2p_treker.Prelude.Int.{pos}
use p2p_treker.Prelude.Dict.{Dict, lookup_or}
use p2p_treker.Prelude.Result.{Result, ok, ◌>>=◌}
use p2p_treker.Decimal.{Decimal, d_zero, d_one, d_hundred, ◌+D◌, ◌-D◌, ◌*D◌, ltb_D, eqb_D, min_D}
use p2p_treker.Decimal.Division.{round_D}
use p2p_treker.Models.{Exchange, exchange_key}
use p2p_treker.OrderBook.{OrderBook, BookLevel, best_ask, best_bid}
use p2p_treker.OrderBook.Vwap.{buy_slippage_pct, sell_slippage_pct}
use p2p_treker.Spread.Formulas.{net_spread}
use p2p_treker.PaperTrading.Balance.{release, credit}
use p2p_treker.PaperTrading.Orders.{OrderStatus, PaperOrder, ArbitrageTradeResult}
use p2p_treker.PaperTrading.Engine.{PaperTradingConfig, Engine, EngineResult}

-- `symbol.partition("-")`: all before the first dash, and all behind it.
unfoldable pub split_symbol : String → String × String
split_symbol [] = ([], [])
split_symbol (c ∷ s) =
    let (base, quote) = split_symbol s in if code c == 45 then ([], s) else (c ∷ base, quote)

module _ (config : PaperTradingConfig) (fees : Dict Exchange Decimal) where
  -- `cancel_order`, at a reading of the clock.
  unfoldable pub cancel_order : Engine → PaperOrder → String → Decimal → ℕ → Engine × PaperOrder
  cancel_order e order reserved_asset reserved_amount now = elim order.status [
    | OrderStatus.filled ↦ (e, order)
    | OrderStatus.canceled ↦ (e, order)
    | OrderStatus.rejected ↦ (e, order)
    | _ ↦ (
      record e { balances = release e.balances order.exchange reserved_asset reserved_amount },
      record order { status = OrderStatus.canceled; updated_at_ms = pos now },
    )
  ]

  unfoldable pub fee_of : Exchange → Decimal
  fee_of exchange = lookup_or exchange d_zero fees

  abbrev pub price_or_zero : Option Decimal → Decimal
  price_or_zero none = d_zero
  price_or_zero (some p) = p

  -- The credit of `_settle`: the sold quantity at the sell leg's average price.
  unfoldable pub credit_proceeds : Engine → PaperOrder → PaperOrder → Decimal → Engine
  unfolding split_symbol
  credit_proceeds e buy_order sell_order matched =
      if ltb_D d_zero sell_order.filled_quantity
      then record e {
        balances =
            credit e.balances sell_order.exchange (split_symbol buy_order.symbol).1
              (matched *D price_or_zero sell_order.avg_fill_price);
      }
      else e

  pub slippage :
      (Decimal → Decimal → Result Decimal) → Option BookLevel → Decimal → Result (Option Decimal)
  slippage pct none price = ok none
  slippage pct (some top) price = pct top.price price >>= λ s. ok (some s)

  -- The result without an estimate, and the one with it.
  unfoldable pub unpriced : PaperOrder → PaperOrder → Decimal → Decimal → ArbitrageTradeResult
  unpriced buy_order sell_order matched leftover = record {
    buy_order = buy_order;
    sell_order = sell_order;
    matched_quantity = matched;
    leftover_base_quantity = leftover;
    realized_pnl = none;
    buy_slippage_pct = none;
    sell_slippage_pct = none;
    net_spread_after_slippage_pct = none;
  }

  -- `proceeds - cost` of a matched quantity, each operation rounded by the context.
  pub pnl : Decimal → Decimal → Decimal → Decimal → Decimal → Decimal
  pnl matched buy_price sell_price buy_fee_rate sell_fee_rate =
      let cost = round_D (round_D (matched *D buy_price) *D round_D (d_one +D buy_fee_rate)) in
      let proceeds =
        round_D (round_D (matched *D sell_price) *D round_D (d_one -D sell_fee_rate)) in
      round_D (proceeds -D cost)

  pub priced :
      PaperOrder
      → PaperOrder
      → OrderBook
      → OrderBook
      → Decimal
      → Decimal
      → Decimal
      → Decimal
      → Result ArbitrageTradeResult
  unfolding unpriced fee_of slippage pnl
  priced buy_order sell_order buy_book sell_book matched leftover buy_price sell_price = do
    let buy_fee_rate = fee_of buy_order.exchange
    let sell_fee_rate = fee_of sell_order.exchange
    buy_slip ← slippage buy_slippage_pct (best_ask buy_book) buy_price
    sell_slip ← slippage sell_slippage_pct (best_bid sell_book) sell_price
    net ← net_spread buy_price sell_price buy_fee_rate sell_fee_rate
    ok (record (unpriced buy_order sell_order matched leftover) {
      realized_pnl = some (pnl matched buy_price sell_price buy_fee_rate sell_fee_rate);
      buy_slippage_pct = buy_slip;
      sell_slippage_pct = sell_slip;
      net_spread_after_slippage_pct = some (net *D d_hundred);
    })

  -- The condition `matched > 0 and buy_order.avg_fill_price and sell_order.avg_fill_price`: a
  -- price that is absent or zero is false.
  pub truthy_price : Option Decimal → Bool
  truthy_price none = false
  truthy_price (some p) = not (eqb_D p d_zero)

  pub trade_result :
      PaperOrder
      → PaperOrder
      → OrderBook
      → OrderBook
      → Decimal
      → Decimal
      → Result ArbitrageTradeResult
  unfolding unpriced priced truthy_price
  trade_result buy_order sell_order buy_book sell_book matched leftover =
      let estimate =
        priced buy_order sell_order buy_book sell_book matched leftover
          (price_or_zero buy_order.avg_fill_price) (price_or_zero sell_order.avg_fill_price) in
      if ltb_D d_zero matched
        && truthy_price buy_order.avg_fill_price
        && truthy_price sell_order.avg_fill_price
      then estimate
      else ok (unpriced buy_order sell_order matched leftover)

  -- `_settle`
  unfoldable pub settle_trade :
      Engine → PaperOrder → PaperOrder → OrderBook → OrderBook → EngineResult ArbitrageTradeResult
  unfolding credit_proceeds trade_result
  settle_trade e buy_order sell_order buy_book sell_book =
      let matched = min_D buy_order.filled_quantity sell_order.filled_quantity in
      let leftover = buy_order.filled_quantity -D matched in
      (
        credit_proceeds e buy_order sell_order matched,
        trade_result buy_order sell_order buy_book sell_book matched leftover,
      )
