-- ===== src/Spread/Formulas/Profit.antt =====
-- When a spread shows a profit: the sign of the formulas, whose quotients are rounded.
use p2p_treker.Prelude.{◌≡◌, refl, ◌+◌}
use p2p_treker.Prelude.Result.{ok, Returns}
use p2p_treker.Decimal.{Decimal, d_zero, d_one, ◌+D◌, ◌-D◌, ◌*D◌, ◌≤D◌, ◌<D◌}
use p2p_treker.Decimal.Order.{at_one, pow_pos, sub_nonneg, le_at, at_le, at_lt, decimal_laws}
use p2p_treker.Decimal.Key.{leb_D_of_pos, ltb_D_of_nonneg}
use p2p_treker.Decimal.Product.{mul_nonneg, mul_pos}
use p2p_treker.Decimal.Division.{div_D, div_D-le-one, one-le-div_D}
use p2p_treker.Spread.Formulas.{gross_spread, net_spread, expected_net_profit}

-- A spread of a return `proceeds / cost`: not negative if the proceeds cover the cost, and not
-- positive if they are at most the cost.
pub record Signed (cost proceeds spread : Decimal) : Type 0 where
  pub gain : cost ≤D proceeds → d_zero ≤D spread
  pub loss : proceeds ≤D cost → spread ≤D d_zero

sub_nonpos : (a b : Decimal) → a ≤D b → a -D b ≤D d_zero
sub_nonpos a b p =
    let k = a.scale + b.scale in grind (decimal_laws, le_at k a b, at_le k (a -D b) d_zero)

return-Signed :
    (cost proceeds : Decimal)
    → d_zero ≤D proceeds
    → d_zero <D cost
    → Signed cost proceeds (div_D proceeds cost -D d_one)
return-Signed cost proceeds p q = record {
  gain = λ h. sub_nonneg d_one (div_D proceeds cost) (one-le-div_D proceeds cost p q h);
  loss = λ h. sub_nonpos (div_D proceeds cost) d_one (div_D-le-one proceeds cost p q h);
}

-- For a positive ask and a non-negative bid the gross spread is returned; it is at least
-- zero if the bid reaches the ask, and at most zero if the bid does not exceed it.
pub gross_spread-Returns :
    (buy_ask sell_bid : Decimal)
    → d_zero <D buy_ask
    → d_zero ≤D sell_bid
    → Returns (Signed buy_ask sell_bid) (gross_spread buy_ask sell_bid)
unfolding gross_spread
gross_spread-Returns buy_ask sell_bid p q =
    rw (leb_D_of_pos buy_ask p) (return-Signed buy_ask sell_bid q p)

one_add_pos : (f : Decimal) → d_zero ≤D f → d_zero <D d_one +D f
one_add_pos f p =
    let k = f.scale in
    grind (decimal_laws, at_one k, pow_pos k, le_at k d_zero f, at_lt k d_zero (d_one +D f))

pub net-Signed :
    (buy_ask sell_bid buy_fee sell_fee : Decimal)
    → d_zero <D buy_ask
    → d_zero ≤D sell_bid
    → d_zero ≤D buy_fee
    → sell_fee ≤D d_one
    → Signed
        (buy_ask *D (d_one +D buy_fee))
        (sell_bid *D (d_one -D sell_fee))
        (div_D (sell_bid *D (d_one -D sell_fee)) (buy_ask *D (d_one +D buy_fee)) -D d_one)
net-Signed buy_ask sell_bid buy_fee sell_fee p q f u =
    return-Signed _ _ (mul_nonneg sell_bid (d_one -D sell_fee) q (sub_nonneg sell_fee d_one u))
      (mul_pos buy_ask (d_one +D buy_fee) p (one_add_pos buy_fee f))

-- For a positive ask, a non-negative bid, a buy fee from 0 on and a sell fee from 0 to 1 the net
-- spread is returned; it is at least zero if the proceeds after the sell fee cover the cost with
-- the buy fee, and at most zero if they do not exceed it.
pub net_spread-Returns :
    (buy_ask sell_bid buy_fee sell_fee : Decimal)
    → d_zero <D buy_ask
    → d_zero ≤D sell_bid
    → d_zero ≤D buy_fee
    → d_zero ≤D sell_fee
    → sell_fee ≤D d_one
    → Returns
        (Signed (buy_ask *D (d_one +D buy_fee)) (sell_bid *D (d_one -D sell_fee)))
        (net_spread buy_ask sell_bid buy_fee sell_fee)
unfolding net_spread
net_spread-Returns buy_ask sell_bid buy_fee sell_fee p q f g u =
    rw (leb_D_of_pos buy_ask p, ltb_D_of_nonneg buy_fee f, ltb_D_of_nonneg sell_fee g)
      (net-Signed buy_ask sell_bid buy_fee sell_fee p q f u)

-- What the formulas return, past their guards.
module _ (buy_ask sell_bid : Decimal) (p : d_zero <D buy_ask) where
  pub gross_spread_value : gross_spread buy_ask sell_bid ≡ ok (div_D sell_bid buy_ask -D d_one)
  unfolding gross_spread
  gross_spread_value = rw (leb_D_of_pos buy_ask p) refl

  module _ (buy_fee sell_fee : Decimal) (f : d_zero ≤D buy_fee) (g : d_zero ≤D sell_fee) where
    pub net_spread_value :
        net_spread buy_ask sell_bid buy_fee sell_fee
        ≡ ok (div_D (sell_bid *D (d_one -D sell_fee)) (buy_ask *D (d_one +D buy_fee)) -D d_one)
    unfolding net_spread
    net_spread_value =
        rw (leb_D_of_pos buy_ask p, ltb_D_of_nonneg buy_fee f, ltb_D_of_nonneg sell_fee g) refl

    pub expected_net_profit_value :
        (quantity : Decimal)
        → expected_net_profit quantity buy_ask sell_bid buy_fee sell_fee
          ≡ ok (
              quantity
              *D buy_ask
              *D (div_D (sell_bid *D (d_one -D sell_fee)) (buy_ask *D (d_one +D buy_fee)) -D d_one))
    unfolding expected_net_profit
    expected_net_profit_value quantity = rw net_spread_value refl
