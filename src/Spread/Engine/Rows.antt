-- ===== src/Spread/Engine/Rows.antt =====
-- `compute_all` raises nothing over a well-formed cache, and what its rows say.
use p2p_treker.Prelude.{◌≡◌, refl, true, false, some, String, List, [], ◌∷◌, All}
use p2p_treker.Prelude.Dict.{lookup, string_key, string_symm, string_trans}
use p2p_treker.Prelude.Result.{Result, ok, err, Returns, ◌>>=◌}
use p2p_treker.Decimal.{Decimal, d_zero, d_one, d_hundred, ◌≤D◌, ◌*D◌, ◌+D◌, ◌-D◌}
use p2p_treker.Decimal.Division.{div_D}
use p2p_treker.Prelude.Int.{ℤ}
use p2p_treker.Decimal.Key.{<D→≤D}
use p2p_treker.Models.{exchange_key, exchange_eq, market_eq, market_refl}
use p2p_treker.Models.Quote.{NormalizedQuote, IsValid}
use p2p_treker.Spread.Formulas.{executable_quantity, ensure_comparable}
use p2p_treker.Spread.Formulas.Profit.{
  Signed, net-Signed, gross_spread_value, net_spread_value, expected_net_profit_value,
}
use p2p_treker.Spread.Engine.{
  SpreadRow, TradingConfig, Fees, fee_at, make_row, compute_pair, rows_of_pairs,
}

-- A quote that the engine may use for `symbol`: valid, of the engine's market, from an exchange
-- whose fee is a fraction.
pub record Usable (trading : TradingConfig) (fees : Fees) (symbol : String) (q : NormalizedQuote)
    : Type 0 where
  pub valid : IsValid q
  pub market : q.market_type ≡ trading.market_type
  pub named : string_key.beq q.symbol symbol ≡ true
  pub fee : Decimal
  pub fee_found : lookup q.exchange fees ≡ some fee
  pub fee_nonneg : d_zero ≤D fee
  pub fee-le-one : fee ≤D d_one

-- What a row of the table says: two exchanges, the engine's market and symbol, and a net spread
-- with the sign of the trade after the fees of both exchanges.
pub record RowFacts (trading : TradingConfig) (fees : Fees) (symbol : String) (row : SpreadRow)
    : Type 0 where
  pub apart : exchange_eq row.buy_exchange row.sell_exchange ≡ false
  pub market : row.market_type ≡ trading.market_type
  pub named : string_key.beq row.symbol symbol ≡ true
  pub buy_fee : Decimal
  pub sell_fee : Decimal
  pub buy_fee_found : lookup row.buy_exchange fees ≡ some buy_fee
  pub sell_fee_found : lookup row.sell_exchange fees ≡ some sell_fee
  pub net : Decimal
  pub net_pct : row.net_spread_pct ≡ net *D d_hundred
  pub signed :
      Signed (row.buy_price *D (d_one +D buy_fee)) (row.sell_price *D (d_one -D sell_fee)) net

module _ (trading : TradingConfig) (fees : Fees) (symbol : String) (now_ms : ℤ) where
  comparable :
      (a b : NormalizedQuote)
      → Usable trading fees symbol a
      → Usable trading fees symbol b
      → ensure_comparable a b ≡ ok tt
  unfolding ensure_comparable
  comparable a b u v =
      let same_market : market_eq a.market_type b.market_type ≡ true =
        rw (u.market, v.market) (market_refl trading.market_type) in
      let same_symbol =
        string_trans a.symbol symbol b.symbol u.named (string_symm b.symbol symbol v.named) in
      rw (same_market, same_symbol) refl

  fee_value :
      (q : NormalizedQuote) (u : Usable trading fees symbol q) → fee_at fees q.exchange ≡ ok u.fee
  unfolding fee_at
  fee_value q u = rw (u.fee_found, fee_at) refl

  compute_pair-Returns :
      (a b : NormalizedQuote)
      → Usable trading fees symbol a
      → Usable trading fees symbol b
      → exchange_eq a.exchange b.exchange ≡ false
      → Returns (RowFacts trading fees symbol) (compute_pair trading fees a b now_ms)
  unfolding compute_pair make_row
  compute_pair-Returns a b u v h =
      rw
        (
          comparable a b u v,
          fee_value a u,
          fee_value b v,
          gross_spread_value a.ask_price b.bid_price u.valid.ask_pos,
          net_spread_value a.ask_price b.bid_price u.valid.ask_pos u.fee v.fee u.fee_nonneg
              v.fee_nonneg,
          expected_net_profit_value a.ask_price b.bid_price u.valid.ask_pos u.fee v.fee u.fee_nonneg
              v.fee_nonneg (executable_quantity a.ask_quantity b.bid_quantity),
        )
        (record {
          apart = h;
          market = u.market;
          named = u.named;
          buy_fee = u.fee;
          sell_fee = v.fee;
          buy_fee_found = u.fee_found;
          sell_fee_found = v.fee_found;
          net = div_D (b.bid_price *D (d_one -D v.fee)) (a.ask_price *D (d_one +D u.fee)) -D d_one;
          net_pct = refl;
          signed =
              net-Signed a.ask_price b.bid_price u.fee v.fee u.valid.ask_pos
                (<D→≤D d_zero b.bid_price v.valid.bid_pos) u.fee_nonneg v.fee-le-one;
        })

  pub rows_of_pairs-Returns :
      (ps : List (NormalizedQuote × NormalizedQuote))
      → All
          (λ p.
            Usable trading fees symbol p.0
            × Usable trading fees symbol p.1
            × (exchange_eq p.0.exchange p.1.exchange ≡ false))
          ps
      → Returns (All (RowFacts trading fees symbol)) (rows_of_pairs trading fees now_ms ps)
  unfolding rows_of_pairs
  rows_of_pairs-Returns [] h = tt
  rows_of_pairs-Returns ((a, b) ∷ ps) h =
      cons_returns (compute_pair trading fees a b now_ms) (rows_of_pairs trading fees now_ms ps)
        (compute_pair-Returns a b h.0.0 h.0.1 h.0.2) (rows_of_pairs-Returns ps h.1)
    where
      cons_returns :
          (x : Result SpreadRow) (xs : Result (List SpreadRow))
          → Returns (RowFacts trading fees symbol) x
          → Returns (All (RowFacts trading fees symbol)) xs
          → Returns
              (All (RowFacts trading fees symbol))
              (x >>= λ row. xs >>= λ rows. ok (row ∷ rows))
      cons_returns (ok row) (ok rows) p q = (p, q)
      cons_returns (ok row) (err e) p q = q
      cons_returns (err e) xs p q = p
