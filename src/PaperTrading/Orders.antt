-- ===== src/PaperTrading/Orders.antt =====
-- `PaperOrder` and its states (backend/app/paper_trading/engine.py).
use p2p_treker.Prelude.{Option, String, List}
use p2p_treker.Prelude.Int.{ℤ}
use p2p_treker.Decimal.{Decimal}
use p2p_treker.Models.{Exchange}
use p2p_treker.PaperTrading.Rules.{Violation}

pub data OrderStatus : Type 0 where
  new partially_filled filled rejected canceled expired : OrderStatus

-- `side: str  # "buy" | "sell"`
pub data OrderSide : Type 0 where
  buy sell : OrderSide

-- The texts of `rejection_reason`, with the values that they print.
pub data RejectionReason : Type 0 where
  ack_latency_exceeded : ℤ → ℤ → RejectionReason
  no_liquidity : RejectionReason
  rules_violated : List Violation → RejectionReason
  rate_limit_exceeded : RejectionReason
  insufficient_balance : String → Exchange → RejectionReason
  no_fillable_depth : RejectionReason
  buy_leg_did_not_fill : RejectionReason

pub record PaperOrder : Type 0 where
  pub id : String
  pub exchange : Exchange
  pub symbol : String
  pub side : OrderSide
  pub requested_quantity : Decimal
  pub reference_price : Decimal
  pub status : OrderStatus
  pub filled_quantity : Decimal
  pub avg_fill_price : Option Decimal
  pub fee_paid : Decimal
  pub rejection_reason : Option RejectionReason
  pub created_at_ms : ℤ
  pub updated_at_ms : ℤ

pub record ArbitrageTradeResult : Type 0 where
  pub buy_order : PaperOrder
  pub sell_order : PaperOrder
  pub matched_quantity : Decimal
  pub leftover_base_quantity : Decimal
  pub realized_pnl : Option Decimal
  pub buy_slippage_pct : Option Decimal
  pub sell_slippage_pct : Option Decimal
  pub net_spread_after_slippage_pct : Option Decimal
