-- ===== src/OrderBook/Depth.antt =====
-- What the sorted views offer to `compute_vwap`.
use p2p_treker.Prelude.{◌≡◌, subst, some, List, [], ◌∷◌, map, All, All-imp, All-map}
use p2p_treker.Prelude.Dict.{keys, lookup_or-All}
use p2p_treker.Prelude.Sorting.{sorted, sorted-All}
use p2p_treker.Decimal.{Decimal, d_zero, ◌≤D◌, leb_D}
use p2p_treker.Decimal.Key.{decimal_key, ≤D_refl, <D→≤D}
use p2p_treker.OrderBook.{OrderBook, BookLevel, Side, level_at, best_ask, asks_sorted, bids_sorted}
use p2p_treker.OrderBook.Sides.{IsSide, IsPositive}
use p2p_treker.OrderBook.Views.{IsBest, best_ask-IsBest}
use p2p_treker.OrderBook.Vwap.Fill.{Offers}

level_at_nonneg :
    (side : Side) (p : Decimal) → All IsPositive side → d_zero ≤D (level_at side p).quantity
unfolding level_at
level_at_nonneg side p h =
    lookup_or-All (λ q. d_zero ≤D q) p d_zero side (≤D_refl d_zero)
      (All-imp side (λ e q. <D→≤D d_zero e.1 q) h)

level_at-Offers :
    (side : Side) (ps : List Decimal) → All IsPositive side → Offers (map (level_at side) ps)
level_at-Offers side [] h = tt
level_at-Offers side (p ∷ ps) h = (level_at_nonneg side p h, level_at-Offers side ps h)

pub asks_sorted-Offers : (b : OrderBook) → IsSide b.asks → Offers (asks_sorted b)
unfolding asks_sorted
asks_sorted-Offers b v = level_at-Offers b.asks _ v.positive

pub bids_sorted-Offers : (b : OrderBook) → IsSide b.bids → Offers (bids_sorted b)
unfolding bids_sorted
bids_sorted-Offers b v = level_at-Offers b.bids _ v.positive

-- No ask of the view is below the best one.
pub asks_sorted-above :
    (b : OrderBook) (top : BookLevel)
    → IsSide b.asks
    → best_ask b ≡ some top
    → All (λ l. top.price ≤D l.price) (asks_sorted b)
unfolding asks_sorted level_at
asks_sorted-above b top v e =
    let best = subst (IsBest (λ p q. q ≤D p) b.asks) e (best_ask-IsBest b v.distinct) in
    All-map (λ l. top.price ≤D l.price) (level_at b.asks) (sorted leb_D (keys b.asks))
      (sorted-All leb_D (λ p. top.price ≤D p) (keys b.asks)
        (All-map (λ p. top.price ≤D p) (λ e. e.0) b.asks best.1))
