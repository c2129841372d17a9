-- ===== src/PaperTrading/Engine/Trade/Profit.antt =====
-- The estimate of `_settle`: the realised profit against the net spread after slippage.
use p2p_treker.Prelude.{◌≡◌, refl, ◌+◌, ◌⊎◌, inl, inr, Option, none, some, arith, Bool-cases}
use p2p_treker.Prelude.Dict.{Dict, lookup_or-All}
use p2p_treker.Prelude.Result.{ok, Returns}
use p2p_treker.Decimal.{Decimal, d_zero, d_one, d_hundred, ◌+D◌, ◌-D◌, ◌*D◌, ◌≤D◌, ◌<D◌, ◌≈◌, leb_D}
use p2p_treker.Decimal.Order.{
  at_zero, at_one, at_eq, eq_at, at-mul, at-sub, ≈_trans, ≤D_trans, sub_nonneg, le_at, at_le,
  decimal_laws,
}
use p2p_treker.Decimal.Key.{≤D_refl, ≈_symm, leb_D→≤D, not-leb_D, <D→≤D, leb_D_of_pos}
use p2p_treker.Decimal.Linear.{≈→≤D}
use p2p_treker.Decimal.Product.{mul_mono_right, mul_comm_D, mul_assoc_D}
use p2p_treker.Decimal.Division.{div_D, round_D}
use p2p_treker.Models.{Exchange, exchange_key}
use p2p_treker.OrderBook.{OrderBook, BookLevel, best_ask, best_bid}
use p2p_treker.OrderBook.Vwap.{buy_slippage_pct, sell_slippage_pct}
use p2p_treker.Spread.Formulas.Profit.{Signed, net-Signed, net_spread_value}
use p2p_treker.Spread.Engine.Table.{IsFraction, IsFees}
use p2p_treker.PaperTrading.Orders.{PaperOrder, ArbitrageTradeResult}
use p2p_treker.PaperTrading.Engine.{PaperTradingConfig}
use p2p_treker.PaperTrading.Engine.Trade.{slippage, pnl, fee_of, priced}

-- The best level of a side, if there is one, has a positive price.
abbrev pub HasPrice : Option BookLevel → Type 0
HasPrice none = Unit
HasPrice (some top) = d_zero <D top.price

-- The estimate names a profit and a net spread, and they have the same sign.
pub record Agrees (t : ArbitrageTradeResult) : Type 0 where
  pub profit : Decimal
  pub net : Decimal
  pub profit_reported : t.realized_pnl ≡ some profit
  pub net_reported : t.net_spread_after_slippage_pct ≡ some (net *D d_hundred)
  pub same_sign : ((d_zero ≤D profit) × (d_zero ≤D net)) ⊎ ((profit ≤D d_zero) × (net ≤D d_zero))

-- The context rounds nothing: each operation of the estimate has a result of at most 28 digits, up
-- to zeros at its end. The last two are the products of the net spread.
pub record IsExact (matched buy_price sell_price f g : Decimal) : Type 0 where
  pub buy_factor : round_D (d_one +D f) ≈ d_one +D f
  pub sell_factor : round_D (d_one -D g) ≈ d_one -D g
  pub buy_value : round_D (matched *D buy_price) ≈ matched *D buy_price
  pub sell_value : round_D (matched *D sell_price) ≈ matched *D sell_price
  pub cost :
      round_D (round_D (matched *D buy_price) *D round_D (d_one +D f))
      ≈ round_D (matched *D buy_price) *D round_D (d_one +D f)
  pub proceeds :
      round_D (round_D (matched *D sell_price) *D round_D (d_one -D g))
      ≈ round_D (matched *D sell_price) *D round_D (d_one -D g)
  pub difference :
      round_D (
        round_D (round_D (matched *D sell_price) *D round_D (d_one -D g))
        -D round_D (round_D (matched *D buy_price) *D round_D (d_one +D f)))
      ≈ round_D (round_D (matched *D sell_price) *D round_D (d_one -D g))
        -D round_D (round_D (matched *D buy_price) *D round_D (d_one +D f))
  pub net_cost : round_D (buy_price *D (d_one +D f)) ≈ buy_price *D (d_one +D f)
  pub net_proceeds : round_D (sell_price *D (d_one -D g)) ≈ sell_price *D (d_one -D g)

mul_congr : (a b c d : Decimal) → a ≈ b → c ≈ d → a *D c ≈ b *D d
mul_congr a b c d p q =
    let k = a.scale + b.scale in
    let l = c.scale + d.scale in
    at_eq (k + l) (a *D c) (b *D d) (omega decimal_laws) (omega decimal_laws) (
      rw
        (
          at-mul k l a c (omega arith) (omega arith),
          at-mul k l b d (omega arith) (omega arith),
          eq_at k a b (omega arith) (omega arith) p,
          eq_at l c d (omega arith) (omega arith) q,
        )
        refl)

sub_congr : (a b c d : Decimal) → a ≈ b → c ≈ d → a -D c ≈ b -D d
sub_congr a b c d p q =
    let k = a.scale + b.scale + c.scale + d.scale in
    at_eq k (a -D c) (b -D d) (omega decimal_laws) (omega decimal_laws) (
      rw
        (
          at-sub k a c (omega arith) (omega arith),
          at-sub k b d (omega arith) (omega arith),
          eq_at k a b (omega arith) (omega arith) p,
          eq_at k c d (omega arith) (omega arith) q,
        )
        refl)

sub_nonpos : (a b : Decimal) → a ≤D b → a -D b ≤D d_zero
sub_nonpos a b p =
    let k = a.scale + b.scale in grind (decimal_laws, le_at k a b, at_le k (a -D b) d_zero)

scaled_mono : (q a f b g : Decimal) → d_zero ≤D q → a *D f ≤D b *D g → q *D a *D f ≤D q *D b *D g
scaled_mono q a f b g p h =
    rw (mul_assoc_D q a f, mul_assoc_D q b g, mul_comm_D q (a *D f), mul_comm_D q (b *D g))
      (mul_mono_right (a *D f) (b *D g) q p h)

zero-le-one : d_zero ≤D d_one
zero-le-one =
    at_le 0 d_zero d_one (omega arith) (omega arith) (rw (at_zero 0, at_one 0) (omega arith))

module _ (config : PaperTradingConfig) (fees : Dict Exchange Decimal) where
  buy_slippage_value :
      (o : Option BookLevel) (price : Decimal)
      → HasPrice o
      → (v : Option Decimal) × (slippage config fees buy_slippage_pct o price ≡ ok v)
  unfolding slippage buy_slippage_pct
  buy_slippage_value none price h = (none, refl)
  buy_slippage_value (some top) price h =
      (some ((div_D price top.price -D d_one) *D d_hundred), rw (leb_D_of_pos top.price h) refl)

  sell_slippage_value :
      (o : Option BookLevel) (price : Decimal)
      → HasPrice o
      → (v : Option Decimal) × (slippage config fees sell_slippage_pct o price ≡ ok v)
  unfolding slippage sell_slippage_pct
  sell_slippage_value none price h = (none, refl)
  sell_slippage_value (some top) price h =
      (some ((d_one -D div_D price top.price) *D d_hundred), rw (leb_D_of_pos top.price h) refl)

  fee-IsFraction : (exchange : Exchange) → IsFees fees → IsFraction (fee_of config fees exchange)
  unfolding fee_of
  fee-IsFraction exchange h =
      lookup_or-All IsFraction exchange d_zero fees
        (record { nonneg = ≤D_refl d_zero; le-one = zero-le-one }) h

  exact_pnl : Decimal → Decimal → Decimal → Decimal → Decimal → Decimal
  exact_pnl matched buy_price sell_price f g =
      matched *D sell_price *D (d_one -D g) -D matched *D buy_price *D (d_one +D f)

  pnl-exact :
      (matched buy_price sell_price f g : Decimal)
      → IsExact matched buy_price sell_price f g
      → pnl config fees matched buy_price sell_price f g
        ≈ exact_pnl matched buy_price sell_price f g
  unfolding pnl exact_pnl
  pnl-exact matched buy_price sell_price f g x = ≈_trans _ _ _ x.difference (
      sub_congr _ _ _ _ (≈_trans _ _ _ x.proceeds (mul_congr _ _ _ _ x.sell_value x.sell_factor))
        (≈_trans _ _ _ x.cost (mul_congr _ _ _ _ x.buy_value x.buy_factor)))

  exact_sign :
      (matched buy_price sell_price f g net : Decimal)
      → d_zero ≤D matched
      → Signed (buy_price *D (d_one +D f)) (sell_price *D (d_one -D g)) net
      → ((d_zero ≤D exact_pnl matched buy_price sell_price f g) × (d_zero ≤D net))
        ⊎ ((exact_pnl matched buy_price sell_price f g ≤D d_zero) × (net ≤D d_zero))
  unfolding exact_pnl
  exact_sign matched buy_price sell_price f g net p h =
      elim (Bool-cases (leb_D (buy_price *D (d_one +D f)) (sell_price *D (d_one -D g)))) [
        | inl t ↦
            let q = leb_D→≤D (buy_price *D (d_one +D f)) (sell_price *D (d_one -D g)) t in
            inl (
              sub_nonneg _ _
                  (scaled_mono matched buy_price (d_one +D f) sell_price (d_one -D g) p q),
              h.gain q,
            )
        | inr t ↦
            let q =
              <D→≤D _ _ (not-leb_D (buy_price *D (d_one +D f)) (sell_price *D (d_one -D g)) t) in
            inr (
              sub_nonpos _ _
                  (scaled_mono matched sell_price (d_one -D g) buy_price (d_one +D f) p q),
              h.loss q,
            )
      ]

  profit_sign :
      (matched buy_price sell_price f g net : Decimal)
      → IsExact matched buy_price sell_price f g
      → d_zero ≤D matched
      → Signed (buy_price *D (d_one +D f)) (sell_price *D (d_one -D g)) net
      → ((d_zero ≤D pnl config fees matched buy_price sell_price f g) × (d_zero ≤D net))
        ⊎ ((pnl config fees matched buy_price sell_price f g ≤D d_zero) × (net ≤D d_zero))
  profit_sign matched buy_price sell_price f g net x p h =
      let e = pnl-exact matched buy_price sell_price f g x in
      elim (exact_sign matched buy_price sell_price f g net p h) [
        | inl (gain, n) ↦ inl (≤D_trans _ _ _ gain (≈→≤D _ _ (≈_symm _ _ e)), n)
        | inr (loss, n) ↦ inr (≤D_trans _ _ _ (≈→≤D _ _ e) loss, n)
      ]

  -- For fees from 0 to 1, books whose best prices are positive, a positive average buy price, and a
  -- sell price and a matched quantity that are not negative, where the factors, the products and the
  -- difference of the profit and the products of the net spread need at most the 28 digits of the
  -- decimal context: the estimate of `_settle` raises nothing, and its realised profit and its net
  -- spread after slippage are both at least zero or both at most zero.
  pub priced-Returns :
      (buy_order sell_order : PaperOrder) (buy_book sell_book : OrderBook)
      (matched leftover buy_price sell_price : Decimal)
      → IsFees fees
      → HasPrice (best_ask buy_book)
      → HasPrice (best_bid sell_book)
      → d_zero <D buy_price
      → d_zero ≤D sell_price
      → d_zero ≤D matched
      → IsExact matched buy_price sell_price
          (fee_of config fees buy_order.exchange)
          (fee_of config fees sell_order.exchange)
      → Returns Agrees (
          priced config fees buy_order sell_order buy_book sell_book matched leftover buy_price
            sell_price)
  unfolding priced
  priced-Returns buy_order sell_order buy_book sell_book matched leftover buy_price sell_price h a b
        p q r x =
      let u = fee-IsFraction buy_order.exchange h in
      let v = fee-IsFraction sell_order.exchange h in
      let (buy_slip, e) = buy_slippage_value (best_ask buy_book) buy_price a in
      let (sell_slip, e') = sell_slippage_value (best_bid sell_book) sell_price b in
      let f = fee_of config fees buy_order.exchange in
      let g = fee_of config fees sell_order.exchange in
      rw (e, e', net_spread_value buy_price sell_price p f g u.nonneg v.nonneg)
        (record {
          profit = pnl config fees matched buy_price sell_price f g;
          net = div_D (sell_price *D (d_one -D g)) (buy_price *D (d_one +D f)) -D d_one;
          profit_reported = refl;
          net_reported = refl;
          same_sign =
              profit_sign matched buy_price sell_price f g _ x r
                (net-Signed buy_price sell_price f g p q u.nonneg v.le-one);
        })
