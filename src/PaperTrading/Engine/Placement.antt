-- ===== src/PaperTrading/Engine/Placement.antt =====
-- `_place_leg` as a whole: it raises nothing, and charges exactly what was executed.
use p2p_treker.Prelude.{
  ◌≡◌, refl, ◌⊎◌, inl, inr, ◌↔◌, true, Option, none, some, String, arith, Bool-cases,
}
use p2p_treker.Prelude.Dict.{Dict, lookup_or-All, lookup_congr, insert}
use p2p_treker.Prelude.Result.{Result, ok, err, Returns}
use p2p_treker.Prelude.Int.{ltb_ℤ}
use p2p_treker.Decimal.{Decimal, d_zero, ◌≤D◌, ◌<D◌, ◌≈◌}
use p2p_treker.Decimal.Order.{≤D_trans}
use p2p_treker.Decimal.Key.{≈_symm}
use p2p_treker.Decimal.Linear.{≈→≤D}
use p2p_treker.Decimal.Product.{mul_mono_right, mul_comm_D}
use p2p_treker.Models.{Exchange, exchange_key}
use p2p_treker.OrderBook.{OrderBook, BookLevel, best_ask, asks_sorted}
use p2p_treker.OrderBook.Invariant.{IsValid}
use p2p_treker.OrderBook.Depth.{asks_sorted-above, asks_sorted-Offers}
use p2p_treker.OrderBook.Vwap.{VwapResult, compute_vwap}
use p2p_treker.OrderBook.Vwap.Outcome.{Outcome, compute_vwap-Outcome}
use p2p_treker.PaperTrading.Balance.{Balances, account_key, reserve}
use p2p_treker.PaperTrading.Balance.Invariant.{
  account, AllSolvent, IsSolvent, no_funds, no_funds-IsSolvent,
}
use p2p_treker.PaperTrading.Balance.Effects.{reserve-refused}
use p2p_treker.PaperTrading.Rules.{OrderValidationResult, validate_order}
use p2p_treker.PaperTrading.Rules.Compliance.{IsCompliant, validate_order_iff}
use p2p_treker.PaperTrading.RateLimiter.{allow}
use p2p_treker.PaperTrading.Orders.{buy, PaperOrder}
use p2p_treker.PaperTrading.Engine.{
  PaperTradingConfig, Engine, Readings, Leg, new_order, expire, top_of, reserve_amount, order,
  rate_limiter, reserve_leg, limit_leg, validated_leg, quoted_leg, place_leg,
}
use p2p_treker.PaperTrading.Engine.Effect.{
  Unfilled, Executed, Effect, nothing-Paid, rejected-Effect, fill_leg-Effect, held,
}

-- No account shows a negative lock.
abbrev pub LocksNonneg : Balances → Type 0
LocksNonneg m = (j : Exchange × String) → d_zero ≤D (account m j).locked

pub AllSolvent-LocksNonneg : (m : Balances) → AllSolvent m → LocksNonneg m
AllSolvent-LocksNonneg m h j =
    (lookup_or-All IsSolvent j no_funds m no_funds-IsSolvent h).locked_nonneg

module _ (config : PaperTradingConfig) (fees : Dict Exchange Decimal) (leg : Leg) (r : Readings)
    (valid : IsValid leg.book) where
  reserve_leg-Effect :
      (e : Engine) (amount : Decimal)
      → LocksNonneg e.balances
      → d_zero <D leg.quantity
      → Effect leg e.balances (reserve_leg config fees leg r e amount)
  unfolding reserve_leg held
  reserve_leg-Effect e amount s p =
      elim (Bool-cases (reserve e.balances leg.exchange leg.reserve_asset amount).1) [
        | inl t ↦ rw t (
            fill_leg-Effect config fees leg r e amount t (s (leg.exchange, leg.reserve_asset)) p
              valid)
        | inr f ↦ rw f (
            rejected-Effect config fees leg r e.balances
              (record e { balances = (reserve e.balances leg.exchange leg.reserve_asset amount).0 })
              _ (λ j. reserve-refused e.balances leg.exchange leg.reserve_asset amount j f))
      ]

  limit_leg-Effect :
      (e : Engine) (amount : Decimal)
      → LocksNonneg e.balances
      → d_zero <D leg.quantity
      → Effect leg e.balances (limit_leg config fees leg r e amount)
  unfolding limit_leg
  limit_leg-Effect e amount s p =
      let counted = record e {
        rate_limiters =
            insert leg.exchange (allow (rate_limiter config e leg.exchange) r.allowed_at).0
              e.rate_limiters;
      } in
      elim (Bool-cases (allow (rate_limiter config e leg.exchange) r.allowed_at).1) [
        | inl t ↦ rw t (reserve_leg-Effect counted amount s p)
        | inr f ↦ rw f (rejected-Effect config fees leg r e.balances counted _ (λ j. refl))
      ]

  module _ (steps : d_zero <D leg.rules.step_size) (ticks : d_zero <D leg.rules.tick_size)
      (e : Engine) (unlocked : LocksNonneg e.balances) where
    validated_leg-Effect :
        (price : Decimal) (v : OrderValidationResult)
        → ((v.valid ≡ true) ↔ IsCompliant leg.quantity price leg.rules)
        → Effect leg e.balances (validated_leg config fees leg r e price v)
    unfolding validated_leg
    validated_leg-Effect price v h = elim (Bool-cases v.valid) [
      | inl t ↦ rw t (limit_leg-Effect e _ unlocked (h.0 t).quantity_pos)
      | inr f ↦ rw f (rejected-Effect config fees leg r e.balances e _ (λ j. refl))
    ]

    quoted_leg-Effect :
        (top : Option BookLevel) → Effect leg e.balances (quoted_leg config fees leg r e top)
    unfolding quoted_leg
    quoted_leg-Effect none = rejected-Effect config fees leg r e.balances e _ (λ j. refl)
    quoted_leg-Effect (some top) =
        go (validate_order leg.quantity top.price leg.rules)
          (validate_order_iff leg.quantity top.price leg.rules steps ticks)
      where
        go :
            (c : Result OrderValidationResult)
            → Returns (λ v. (v.valid ≡ true) ↔ IsCompliant leg.quantity top.price leg.rules) c
            → Effect leg e.balances (elim c [
              | err x ↦ (e, err x)
              | ok v ↦ validated_leg config fees leg r e top.price v
            ])
        go (ok v) h = validated_leg-Effect top.price v h
        go (err x) h = h

    -- Over a valid book and positive steps, while no account has a negative lock, `_place_leg` raises nothing. Either
    -- the order is rejected or expired, fills nothing, and its account shows what it showed; or it
    -- is executed at a result that keeps the promises of `compute_vwap`, and the account has paid
    -- the notional (buy) or the requested quantity (sell), with as much locked as before. No other
    -- account changes.
    pub place_leg-Effect : Effect leg e.balances (place_leg config fees leg r e)
    unfolding place_leg order new_order expire
    place_leg-Effect =
        elim (Bool-cases (ltb_ℤ config.order_timeout_ms leg.simulated_ack_latency_ms)) [
          | inl t ↦ rw t (
            inl (record {
              nothing = refl;
              unpriced = refl;
              ended = inr refl;
              kept = nothing-Paid _;
            }),
            λ j q. refl,
          )
          | inr f ↦ rw f (quoted_leg-Effect (top_of leg.side leg.book))
        ]

-- A leg leaves no account with a negative lock.
pub Effect-LocksNonneg :
    (leg : Leg) (m : Balances) (e : Engine) (o : PaperOrder)
    → LocksNonneg m
    → Effect leg m (e, ok o)
    → LocksNonneg e.balances
Effect-LocksNonneg leg m e o h (p, others) j =
    elim (Bool-cases (account_key.beq (leg.exchange, leg.reserve_asset) j)) [
      | inr f ↦ rw (others j f) (h j)
      | inl t ↦
          rw (← same_account e.balances t)
            (nonneg_of_eq _ _ (kept p) (h (leg.exchange, leg.reserve_asset)))
    ]
  where
    same_account :
        (b : Balances)
        → account_key.beq (leg.exchange, leg.reserve_asset) j ≡ true
        → account b (leg.exchange, leg.reserve_asset) ≡ account b j
    same_account b t = ground (arith, lookup_congr (leg.exchange, leg.reserve_asset) j b t)

    kept :
        Unfilled
            (account m (leg.exchange, leg.reserve_asset))
            (account e.balances (leg.exchange, leg.reserve_asset))
            o
          ⊎ Executed leg
              (account m (leg.exchange, leg.reserve_asset))
              (account e.balances (leg.exchange, leg.reserve_asset))
              o
        → (account e.balances (leg.exchange, leg.reserve_asset)).locked
          ≈ (account m (leg.exchange, leg.reserve_asset)).locked
    kept (inl u) = u.kept.locked
    kept (inr x) = x.paid.locked

    nonneg_of_eq : (a b : Decimal) → a ≈ b → d_zero ≤D b → d_zero ≤D a
    nonneg_of_eq a b q r = ≤D_trans d_zero b a r (≈→≤D b a (≈_symm a b q))

-- A buy leg that is filled in full costs at least what it had reserved: the reservation is taken
-- at the best ask, and no level of a valid book is cheaper.
pub buy_cost-reserved :
    (b : OrderBook) (top : BookLevel) (quantity : Decimal)
    → IsValid b
    → best_ask b ≡ some top
    → d_zero ≤D top.price
    → d_zero <D quantity
    → Returns
        (λ v. v.fully_filled ≡ true → reserve_amount buy quantity top.price ≤D v.notional)
        (compute_vwap (asks_sorted b) quantity)
buy_cost-reserved b top quantity v e p q =
    go (compute_vwap (asks_sorted b) quantity)
      (compute_vwap-Outcome (asks_sorted b) quantity (asks_sorted-Offers b v.asks) q)
  where
    go :
        (c : Result VwapResult)
        → Returns (Outcome (asks_sorted b) quantity) c
        → Returns
            (λ v. v.fully_filled ≡ true → reserve_amount buy quantity top.price ≤D v.notional)
            c
    go (err x) h = h
    go (ok r) h = λ full.
        ≤D_trans _ _ _
          (mul_mono_right quantity r.filled_quantity top.price p
            (≈→≤D _ _ (≈_symm _ _ (h.when_full full))))
          (rw (mul_comm_D r.filled_quantity top.price)
            (h.floor top.price (asks_sorted-above b top v.asks e)))
