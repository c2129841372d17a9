-- ===== src/OrderBook/Vwap.antt =====
-- VWAP and slippage over the depth of the book (backend/app/orderbook/vwap.py).
pub mod Fill
pub mod Price
pub mod Outcome
use p2p_treker.Prelude.{◌≡◌, Bool, true, false, Option, none, some, List, [], ◌∷◌, if◌then◌else◌}
use p2p_treker.Prelude.Result.{Result, ok, err, value_error, ◌>>=◌, ◌>>◌, raise_if}
use p2p_treker.Decimal.{Decimal, d_zero, d_one, d_hundred, ◌+D◌, ◌-D◌, ◌*D◌, leb_D, eqb_D, min_D}
use p2p_treker.Decimal.Division.{div_D}
use p2p_treker.OrderBook.{BookLevel}

pub record VwapResult : Type 0 where
  pub vwap_price : Option Decimal
  pub filled_quantity : Decimal
  pub notional : Decimal
  pub fully_filled : Bool

-- The variables of the loop.
pub record Progress : Type 0 where
  pub remaining : Decimal
  pub filled : Decimal
  pub notional : Decimal

pub take_level : Progress → BookLevel → Progress
take_level s level =
    let take = min_D level.quantity s.remaining in
    record {
      remaining = s.remaining -D take;
      filled = s.filled +D take;
      notional = s.notional +D take *D level.price;
    }

unfoldable pub fill_levels : Progress → List BookLevel → Progress
unfolding take_level
fill_levels s [] = s
fill_levels s (level ∷ levels) =
    let rest = fill_levels (take_level s level) levels in
    if leb_D s.remaining d_zero then s else rest

pub start : Decimal → Progress
start target = record { remaining = target; filled = d_zero; notional = d_zero }

pub vwap_of : Progress → VwapResult
vwap_of s =
    if eqb_D s.filled d_zero
    then record {
      vwap_price = none;
      filled_quantity = d_zero;
      notional = d_zero;
      fully_filled = false;
    }
    else record {
      vwap_price = some (div_D s.notional s.filled);
      filled_quantity = s.filled;
      notional = s.notional;
      fully_filled = leb_D s.remaining d_zero;
    }

unfoldable pub compute_vwap : List BookLevel → Decimal → Result VwapResult
unfolding fill_levels start vwap_of
compute_vwap levels target = do
  raise_if (leb_D target d_zero) (value_error "target_quantity must be positive")
  ok (vwap_of (fill_levels (start target) levels))

unfoldable pub buy_slippage_pct : Decimal → Decimal → Result Decimal
buy_slippage_pct top_ask vwap_price = do
  raise_if (leb_D top_ask d_zero) (value_error "top_ask must be positive")
  ok ((div_D vwap_price top_ask -D d_one) *D d_hundred)

unfoldable pub sell_slippage_pct : Decimal → Decimal → Result Decimal
sell_slippage_pct top_bid vwap_price = do
  raise_if (leb_D top_bid d_zero) (value_error "top_bid must be positive")
  ok ((d_one -D div_D vwap_price top_bid) *D d_hundred)
