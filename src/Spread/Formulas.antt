-- ===== src/Spread/Formulas.antt =====
-- The spread formulas (backend/app/spread/formulas.py).
pub mod Profit
use p2p_treker.Prelude.{◌≡◌, Bool, true, false, not, ◌||◌, String}
use p2p_treker.Prelude.Int.{ℤ, pos, ◌-ℤ◌, leb_ℤ, nat_abs}
use p2p_treker.Prelude.Result.{
  Result, ok, err, value_error, market_type_mismatch, ◌>>=◌, ◌>>◌, raise_if,
}
use p2p_treker.Prelude.Dict.{Key, string_key}
use p2p_treker.Decimal.{Decimal, d_zero, d_one, ◌+D◌, ◌-D◌, ◌*D◌, leb_D, ltb_D, min_D}
use p2p_treker.Decimal.Division.{div_D}
use p2p_treker.Models.{market_eq}
use p2p_treker.Models.Quote.{NormalizedQuote}

unfoldable pub gross_spread : Decimal → Decimal → Result Decimal
gross_spread buy_ask sell_bid = do
  raise_if (leb_D buy_ask d_zero) (value_error "buy_ask must be positive")
  ok (div_D sell_bid buy_ask -D d_one)

unfoldable pub net_spread : Decimal → Decimal → Decimal → Decimal → Result Decimal
net_spread buy_ask sell_bid buy_fee sell_fee = do
  raise_if (leb_D buy_ask d_zero) (value_error "buy_ask must be positive")
  raise_if (ltb_D buy_fee d_zero || ltb_D sell_fee d_zero) (value_error "fees must be non-negative")
  ok (div_D (sell_bid *D (d_one -D sell_fee)) (buy_ask *D (d_one +D buy_fee)) -D d_one)

unfoldable pub executable_quantity : Decimal → Decimal → Decimal
executable_quantity buy_ask_qty sell_bid_qty = min_D buy_ask_qty sell_bid_qty

unfoldable pub executable_notional : Decimal → Decimal → Decimal
executable_notional quantity buy_ask = quantity *D buy_ask

pub expected_gross_profit : Decimal → Decimal → Decimal → Decimal
expected_gross_profit quantity buy_ask sell_bid = quantity *D (sell_bid -D buy_ask)

unfoldable pub expected_net_profit :
    Decimal → Decimal → Decimal → Decimal → Decimal → Result Decimal
expected_net_profit quantity buy_ask sell_bid buy_fee sell_fee = do
  net ← net_spread buy_ask sell_bid buy_fee sell_fee
  ok (quantity *D buy_ask *D net)

-- Quotes compare within one market type and one canonical symbol only.
unfoldable pub ensure_comparable : NormalizedQuote → NormalizedQuote → Result (Unit {0})
ensure_comparable buy_quote sell_quote = do
  raise_if (not (market_eq buy_quote.market_type sell_quote.market_type)) market_type_mismatch
  raise_if (not (string_key.beq buy_quote.symbol sell_quote.symbol)) market_type_mismatch
  ok tt

pub timestamps_aligned : NormalizedQuote → NormalizedQuote → ℤ → Bool
timestamps_aligned quote_a quote_b max_diff_ms =
    leb_ℤ (pos (nat_abs (quote_a.exchange_timestamp -ℤ quote_b.exchange_timestamp))) max_diff_ms
