-- ===== src/PaperTrading/Engine/Arbitrage/Cycle.antt =====
-- A whole arbitrage: what the two legs and the credit between them do to the balances
-- (backend/app/paper_trading/engine.py).
use p2p_treker.Prelude.{
  ◌≡◌, refl, ◌⊎◌, inl, inr, ◌&&◌, String, ltb, Bool-cases, if-elim, if◌then◌else◌,
}
use p2p_treker.Prelude.Dict.{Dict}
use p2p_treker.Prelude.Result.{ok, err}
use p2p_treker.Decimal.{Decimal, d_zero, ◌+D◌, ◌*D◌, ◌≤D◌, ◌<D◌, min_D, leb_D, ltb_D}
use p2p_treker.Decimal.Key.{leb_D→≤D, not-leb_D}
use p2p_treker.Models.{Exchange, exchange_key}
use p2p_treker.OrderBook.Invariant.{IsValid}
use p2p_treker.PaperTrading.Balance.{AssetBalance, Balances, account_key}
use p2p_treker.PaperTrading.Balance.Invariant.{account}
use p2p_treker.PaperTrading.Balance.Effects.{account-credit}
use p2p_treker.PaperTrading.Orders.{PaperOrder, ArbitrageTradeResult}
use p2p_treker.PaperTrading.Engine.{
  PaperTradingConfig, Engine, Readings, EngineResult, place_leg, rules_for,
}
use p2p_treker.PaperTrading.Engine.Trade.{
  split_symbol, price_or_zero, credit_proceeds, unpriced, settle_trade,
}
use p2p_treker.PaperTrading.Engine.Arbitrage.{
  Arbitrage, World, buy_leg, sell_leg, skipped_sell, after_delay, settle_legs, sell_phase,
  skip_sell, after_buy, execute_arbitrage,
}
use p2p_treker.PaperTrading.Engine.Effect.{Effect}
use p2p_treker.PaperTrading.Engine.Placement.{LocksNonneg, place_leg-Effect, Effect-LocksNonneg}

-- No account has a negative lock, and the book to sell to is valid.
pub record IsSound (w : World) : Type 0 where
  pub unlocked : LocksNonneg w.engine.balances
  pub valid : IsValid w.sell_book

module _ (config : PaperTradingConfig) (fees : Dict Exchange Decimal) where
  -- The account that gets the proceeds of the sold quantity, and the others.
  abbrev pub credited : Balances → PaperOrder → PaperOrder → Exchange × String → AssetBalance
  credited m bought sold j =
      let target : Exchange × String = (sold.exchange, (split_symbol bought.symbol).1) in
      let amount =
        min_D bought.filled_quantity sold.filled_quantity
        *D price_or_zero config fees sold.avg_fill_price in
      if ltb_D d_zero sold.filled_quantity && account_key.beq target j
      then record (account m target) { total = (account m target).total +D amount }
      else account m j

  credit_proceeds-credited :
      (e : Engine) (bought sold : PaperOrder) (j : Exchange × String)
      → account
          (credit_proceeds config fees e bought sold
            (min_D bought.filled_quantity sold.filled_quantity)).balances
          j
        ≡ credited e.balances bought sold j
  unfolding credit_proceeds
  credit_proceeds-credited e bought sold j = elim (Bool-cases (ltb_D d_zero sold.filled_quantity)) [
    | inl t ↦ rw t (account-credit e.balances sold.exchange (split_symbol bought.symbol).1 _ j)
    | inr f ↦ rw f refl
  ]

module _ (config : PaperTradingConfig) (fees : Dict Exchange Decimal) (pause : World → World)
    (a : Arbitrage) (buy_readings sell_readings : Readings) where
  -- Where the sell leg begins, after the delay.
  abbrev pub resumed : Engine → World
  resumed between =
      after_delay config fees pause a buy_readings sell_readings
        (record { engine = between; buy_book = a.buy_book; sell_book = a.sell_book })

module _ (config : PaperTradingConfig) (fees : Dict Exchange Decimal) (pause : World → World)
    (a : Arbitrage) (buy_readings sell_readings : Readings) (e : Engine)
    (r : EngineResult ArbitrageTradeResult) where
  -- The buy leg bought nothing, and no sell leg was placed.
  pub record Skipped : Type 0 where
    pub bought : PaperOrder
    pub first : Effect (buy_leg config a) e.balances (r.0, ok bought)
    pub nothing : bought.filled_quantity ≤D d_zero
    pub result : r.1 ≡ ok (unpriced config fees bought (skipped_sell a sell_readings) d_zero d_zero)

  -- Both legs were placed, the second one for what the first one bought.
  pub record Sold : Type 0 where
    pub bought : PaperOrder
    pub sold : PaperOrder
    pub between : Engine
    pub settled : Engine
    pub first : Effect (buy_leg config a) e.balances (between, ok bought)
    pub something : d_zero <D bought.filled_quantity
    pub second :
        Effect
          (sell_leg config a
            (resumed config fees pause a buy_readings sell_readings between).sell_book
            bought.filled_quantity)
          (resumed config fees pause a buy_readings sell_readings between).engine.balances
          (settled, ok sold)
    pub proceeds :
        (j : Exchange × String)
        → account r.0.balances j ≡ credited config fees settled.balances bought sold j

-- How an arbitrage ends.
abbrev pub Ends :
    PaperTradingConfig
    → Dict Exchange Decimal
    → (World → World)
    → Arbitrage
    → Readings
    → Readings
    → Engine
    → EngineResult ArbitrageTradeResult
    → Type 0
Ends config fees pause a buy_readings sell_readings e r =
    Skipped config fees pause a buy_readings sell_readings e r
    ⊎ Sold config fees pause a buy_readings sell_readings e r

module _ (config : PaperTradingConfig) (fees : Dict Exchange Decimal) (pause : World → World)
    (a : Arbitrage) (buy_readings sell_readings : Readings) (e : Engine)
    (valid : IsValid a.buy_book) (sell_valid : IsValid a.sell_book)
    (paused : (w : World) → IsSound w → IsSound (pause w))
    (steps : d_zero <D (rules_for config a.symbol).step_size)
    (ticks : d_zero <D (rules_for config a.symbol).tick_size)
    (unlocked : LocksNonneg e.balances) where
  resumed-IsSound :
      (between : Engine)
      → LocksNonneg between.balances
      → IsSound (resumed config fees pause a buy_readings sell_readings between)
  unfolding after_delay
  resumed-IsSound between h =
      if-elim IsSound (ltb 0 config.inter_order_delay_ms) _ _
        (λ p. paused _ (record { unlocked = h; valid = sell_valid }))
        (λ p. record { unlocked = h; valid = sell_valid })

  settle_legs-Ends :
      (between : Engine) (bought : PaperOrder) (r : EngineResult PaperOrder)
      → Effect (buy_leg config a) e.balances (between, ok bought)
      → d_zero <D bought.filled_quantity
      → Effect
          (sell_leg config a
            (resumed config fees pause a buy_readings sell_readings between).sell_book
            bought.filled_quantity)
          (resumed config fees pause a buy_readings sell_readings between).engine.balances
          r
      → Ends config fees pause a buy_readings sell_readings e (
          settle_legs config fees pause a buy_readings sell_readings
            (resumed config fees pause a buy_readings sell_readings between)
            bought
            r)
  unfolding settle_legs settle_trade
  settle_legs-Ends between bought (settled, err x) f p h = absurd h
  settle_legs-Ends between bought (settled, ok sold) f p h = inr (record {
    bought = bought;
    sold = sold;
    between = between;
    settled = settled;
    first = f;
    something = p;
    second = h;
    proceeds = credit_proceeds-credited config fees settled bought sold;
  })

  after_buy-Ends :
      (r : EngineResult PaperOrder)
      → Effect (buy_leg config a) e.balances r
      → Ends config fees pause a buy_readings sell_readings e
          (after_buy config fees pause a buy_readings sell_readings r)
  unfolding after_buy skip_sell sell_phase sell_leg
  after_buy-Ends (between, err x) h = absurd h
  after_buy-Ends (between, ok bought) h =
      let w = resumed config fees pause a buy_readings sell_readings between in
      let sound =
        resumed-IsSound between
          (Effect-LocksNonneg (buy_leg config a) e.balances between bought unlocked h) in
      let leg = sell_leg config a w.sell_book bought.filled_quantity in
      if-elim (Ends config fees pause a buy_readings sell_readings e)
        (leb_D bought.filled_quantity d_zero) _ _
        (λ t. inl (record {
          bought = bought;
          first = h;
          nothing = leb_D→≤D bought.filled_quantity d_zero t;
          result = refl;
        }))
        (λ f.
          settle_legs-Ends between bought (place_leg config fees leg sell_readings w.engine) h
            (not-leb_D bought.filled_quantity d_zero f)
            (place_leg-Effect config fees leg sell_readings sound.valid steps ticks w.engine
              sound.unlocked))

  -- Where both books are valid, no account has a negative lock, the step and the tick are positive,
  -- and what other tasks do during the delay keeps this: an arbitrage places the buy leg, and if
  -- that bought nothing it ends there with a cancelled sell order, and the balances are those after
  -- the buy leg. Otherwise it places a sell leg for the quantity that was bought, at the state
  -- after the delay, and then, if something was sold, credits the smaller of the two quantities at
  -- the average sell price to the quote asset on the sell exchange; no other account changes.
  pub execute_arbitrage-Ends :
      Ends config fees pause a buy_readings sell_readings e
        (execute_arbitrage config fees pause a buy_readings sell_readings e)
  unfolding execute_arbitrage buy_leg
  execute_arbitrage-Ends =
      after_buy-Ends (place_leg config fees (buy_leg config a) buy_readings e)
        (place_leg-Effect config fees (buy_leg config a) buy_readings valid steps ticks e unlocked)
