-- ===== src/PaperTrading/Engine/Effect.antt =====
-- What a leg does to the balances, on every path of `_place_leg`.
use p2p_treker.Prelude.{
  ◌≡◌, refl, ◌∙◌, ◌⊎◌, inl, inr, true, false, none, some, String, Option-cases, if◌then◌else◌,
}
use p2p_treker.Prelude.Dict.{Dict}
use p2p_treker.Prelude.Result.{Result, ok, err, Returns}
use p2p_treker.Decimal.{Decimal, d_zero, ◌≤D◌, ◌<D◌}
use p2p_treker.Decimal.Order.{≈_refl}
use p2p_treker.Models.{Exchange, exchange_key}
use p2p_treker.OrderBook.{OrderBook}
use p2p_treker.OrderBook.Invariant.{IsValid}
use p2p_treker.OrderBook.Depth.{asks_sorted-Offers, bids_sorted-Offers}
use p2p_treker.OrderBook.Vwap.{VwapResult, compute_vwap}
use p2p_treker.OrderBook.Vwap.Fill.{Offers}
use p2p_treker.OrderBook.Vwap.Outcome.{Outcome, compute_vwap-Outcome}
use p2p_treker.PaperTrading.Balance.{AssetBalance, Balances, account_key, reserve}
use p2p_treker.PaperTrading.Balance.Invariant.{account, reserves, releases, settles, step_others}
use p2p_treker.PaperTrading.Balance.Effects.{Paid, sub_zero_D, release-reserve, settle-reserve}
use p2p_treker.PaperTrading.Orders.{OrderStatus, OrderSide, buy, sell, PaperOrder, RejectionReason}
use p2p_treker.PaperTrading.Engine.{
  PaperTradingConfig, Engine, Readings, Leg, EngineResult, new_order, reject, fill, levels_of,
  actual_amount, order, settle_fill, fill_leg,
}

-- An order that was not executed, and balances that show what they showed.
pub record Unfilled (before after : AssetBalance) (o : PaperOrder) : Type 0 where
  pub nothing : o.filled_quantity ≡ d_zero
  pub unpriced : o.avg_fill_price ≡ none
  pub ended : (o.status ≡ OrderStatus.rejected) ⊎ (o.status ≡ OrderStatus.expired)
  pub kept : Paid before after d_zero

-- An order that was executed at the result `vwap` of `compute_vwap`.
pub record Executed (leg : Leg) (before after : AssetBalance) (o : PaperOrder) : Type 0 where
  pub vwap : VwapResult
  pub price : Decimal
  pub computed : Outcome (levels_of leg.side leg.book) leg.quantity vwap
  pub priced : vwap.vwap_price ≡ some price
  pub average : o.avg_fill_price ≡ some price
  pub quantity : o.filled_quantity ≡ vwap.filled_quantity
  pub status :
      o.status ≡ (if vwap.fully_filled then OrderStatus.filled else OrderStatus.partially_filled)
  pub paid : Paid before after (actual_amount leg.side leg.quantity vwap.notional)

-- The leg's own account, and the others.
abbrev pub Effect : Leg → Balances → EngineResult PaperOrder → Type 0
Effect leg m (e, err x) = ⊥
Effect leg m (e, ok o) =
    (Unfilled (account m (leg.exchange, leg.reserve_asset))
        (account e.balances (leg.exchange, leg.reserve_asset)) o
      ⊎ Executed leg (account m (leg.exchange, leg.reserve_asset))
          (account e.balances (leg.exchange, leg.reserve_asset)) o)
    × ((j : Exchange × String)
        → account_key.beq (leg.exchange, leg.reserve_asset) j ≡ false
        → account e.balances j ≡ account m j)

levels-Offers : (s : OrderSide) (b : OrderBook) → IsValid b → Offers (levels_of s b)
levels-Offers buy b v = asks_sorted-Offers b v.asks
levels-Offers sell b v = bids_sorted-Offers b v.bids

pub nothing-Paid : (b : AssetBalance) → Paid b b d_zero
nothing-Paid b = record { total = sub_zero_D b.total; locked = ≈_refl b.locked }

module _ (config : PaperTradingConfig) (fees : Dict Exchange Decimal) (leg : Leg)
    (r : Readings) where
  -- A rejection that has changed what no account shows.
  pub rejected-Effect :
      (m : Balances) (e : Engine) (reason : RejectionReason)
      → ((j : Exchange × String) → account e.balances j ≡ account m j)
      → Effect leg m (e, ok (reject (order config fees leg r) reason))
  unfolding reject order new_order
  rejected-Effect m e reason h = (
    inl (record {
      nothing = refl;
      unpriced = refl;
      ended = inl refl;
      kept = rw (h (leg.exchange, leg.reserve_asset)) (nothing-Paid _);
    }),
    λ j q. h j,
  )

  module _ (e : Engine) (amount : Decimal)
      (reserved : (reserve e.balances leg.exchange leg.reserve_asset amount).1 ≡ true)
      (locked : d_zero ≤D (account e.balances (leg.exchange, leg.reserve_asset)).locked) where
    unfoldable pub held : Engine
    held = record e { balances = (reserve e.balances leg.exchange leg.reserve_asset amount).0 }

    settle_fill-Effect :
        (vwap : VwapResult)
        → Outcome (levels_of leg.side leg.book) leg.quantity vwap
        → Effect leg e.balances (settle_fill config fees leg r held amount vwap)
    unfolding held settle_fill order new_order reject fill
    settle_fill-Effect vwap o = elim (Option-cases vwap.vwap_price) [
      | inl none_filled ↦ rw none_filled (
        inl (record {
          nothing = refl;
          unpriced = refl;
          ended = inl refl;
          kept = release-reserve e.balances leg.exchange leg.reserve_asset amount reserved locked;
        }),
        λ j q.
            step_others held.balances (releases leg.exchange leg.reserve_asset amount) j q
            ∙ step_others e.balances (reserves leg.exchange leg.reserve_asset amount) j q,
      )
      | inr (price, priced) ↦ rw priced (
        inr (record {
          vwap = vwap;
          price = price;
          computed = o;
          priced = priced;
          average = refl;
          quantity = refl;
          status = refl;
          paid =
              settle-reserve e.balances leg.exchange leg.reserve_asset amount reserved
                (actual_amount leg.side leg.quantity vwap.notional) locked;
        }),
        λ j q.
            step_others held.balances
              (settles leg.exchange leg.reserve_asset amount
                (actual_amount leg.side leg.quantity vwap.notional))
              j q
            ∙ step_others e.balances (reserves leg.exchange leg.reserve_asset amount) j q,
      )
    ]

    -- The depth is walked for a positive quantity, so `compute_vwap` raises nothing.
    pub fill_leg-Effect :
        d_zero <D leg.quantity
        → IsValid leg.book
        → Effect leg e.balances (fill_leg config fees leg r held amount)
    unfolding fill_leg
    fill_leg-Effect p v = go (compute_vwap (levels_of leg.side leg.book) leg.quantity) (
        compute_vwap-Outcome (levels_of leg.side leg.book) leg.quantity
          (levels-Offers leg.side leg.book v) p)
      where
        go :
            (c : Result VwapResult)
            → Returns (Outcome (levels_of leg.side leg.book) leg.quantity) c
            → Effect leg e.balances (elim c [
              | err x ↦ (held, err x)
              | ok vwap ↦ settle_fill config fees leg r held amount vwap
            ])
        go (ok vwap) o = settle_fill-Effect vwap o
        go (err x) o = o
