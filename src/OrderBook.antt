-- ===== src/OrderBook.antt =====
-- The order book of one (exchange, symbol) pair (backend/app/orderbook/book.py): snapshots, deltas
-- with a sequence check, and the views by which the paper trading engine reads it.
pub mod Sides
pub mod Feed
pub mod Invariant
pub mod Views
pub mod Vwap
pub mod Depth
use p2p_treker.Prelude.{
  ℕ, ◌+◌, ◌≡◌, Bool, true, false, not, Option, none, some, List, [], ◌∷◌, map, String, length,
  filter, if◌then◌else◌,
}
use p2p_treker.Prelude.Int.{ℤ, pos, ◌+ℤ◌, leb_ℤ, ltb_ℤ}
use p2p_treker.Prelude.Dict.{Key, Dict, insert, erase, lookup_or, keys}
use p2p_treker.Prelude.Sorting.{sorted, extreme}
use p2p_treker.Prelude.Result.{Result, ok, err, assertion_error}
use p2p_treker.Decimal.{Decimal, d_zero, leb_D, ltb_D, eqb_D}
use p2p_treker.Decimal.Key.{decimal_key}

pub record BookLevel : Type 0 where
  pub price : Decimal
  pub quantity : Decimal

-- `dict[Decimal, Decimal]`, price to quantity.
abbrev pub Side : Type 0
Side = Dict Decimal Decimal

pub record OrderBook : Type 0 where
  pub bids : Side
  pub asks : Side
  pub sequence : Option ℤ
  pub synced : Bool

pub empty_book : OrderBook
empty_book = record { bids = []; asks = []; sequence = none; synced = false }

-- One entry of `{price: qty for price, qty in levels if qty > 0}`.
pub snapshot_level : Side → Decimal → Decimal → Side
snapshot_level store price qty = if ltb_D d_zero qty then insert price qty store else store

snapshot_from : Side → List (Decimal × Decimal) → Side
unfolding snapshot_level
snapshot_from store [] = store
snapshot_from store ((price, qty) ∷ levels) = snapshot_from (snapshot_level store price qty) levels

pub snapshot_side : List (Decimal × Decimal) → Side
unfolding snapshot_from
snapshot_side levels = snapshot_from [] levels

unfoldable pub apply_snapshot :
    OrderBook → List (Decimal × Decimal) → List (Decimal × Decimal) → ℤ → OrderBook
apply_snapshot b bids asks sequence = record {
  bids = snapshot_side bids;
  asks = snapshot_side asks;
  sequence = some sequence;
  synced = true;
}

-- One round of the loop in `_apply_side`.
pub apply_level : Side → Decimal → Decimal → Side
apply_level store price qty = if eqb_D qty d_zero then erase price store else insert price qty store

unfoldable pub apply_side : Side → List (Decimal × Decimal) → Side
unfolding apply_level
apply_side store [] = store
apply_side store ((price, qty) ∷ levels) = apply_side (apply_level store price qty) levels

-- The part of `apply_delta` behind its `assert`, at the book's own sequence.
in_sequence :
    OrderBook → List (Decimal × Decimal) → List (Decimal × Decimal) → ℤ → ℤ → OrderBook × Bool
in_sequence b bids asks sequence current =
    if leb_ℤ sequence current
    then (b, true)
    else if ltb_ℤ (current +ℤ pos 1) sequence
    then (record b { synced = false }, false)
    else (
      record b {
        bids = apply_side b.bids bids;
        asks = apply_side b.asks asks;
        sequence = some sequence;
      },
      true,
    )

unfoldable pub apply_delta :
    OrderBook → List (Decimal × Decimal) → List (Decimal × Decimal) → ℤ → Result (OrderBook × Bool)
unfolding in_sequence
apply_delta b bids asks sequence = if not b.synced then ok (b, false) else elim b.sequence [
  | none ↦ err assertion_error
  | some current ↦ ok (in_sequence b bids asks sequence current)
]

-- `max(prices)` and `min(prices)`, of a first price and the others.
max_key : Decimal → List Decimal → Decimal
max_key = extreme λ p best. ltb_D best p

min_key : Decimal → List Decimal → Decimal
min_key = extreme ltb_D

-- `BookLevel(p, side[p])` for a key `p` of the side: the lookup succeeds (Views), so the default
-- stands for no behaviour.
pub level_at : Side → Decimal → BookLevel
level_at side p = record { price = p; quantity = lookup_or p d_zero side }

-- `best_bid` and `best_ask`, by the keys of the side.
best_level : (Decimal → List Decimal → Decimal) → Side → List Decimal → Option BookLevel
best_level best side [] = none
best_level best side (p ∷ ps) = some (level_at side (best p ps))

unfoldable pub best_bid : OrderBook → Option BookLevel
unfolding best_level max_key level_at
best_bid b = best_level max_key b.bids (keys b.bids)

unfoldable pub best_ask : OrderBook → Option BookLevel
unfolding best_level min_key level_at
best_ask b = best_level min_key b.asks (keys b.asks)

-- From the highest price to the lowest.
unfoldable pub bids_sorted : OrderBook → List BookLevel
unfolding level_at
bids_sorted b = map (level_at b.bids) (sorted (λ p q. leb_D q p) (keys b.bids))

-- From the lowest price to the highest.
unfoldable pub asks_sorted : OrderBook → List BookLevel
unfolding level_at
asks_sorted b = map (level_at b.asks) (sorted leb_D (keys b.asks))

pub depth : OrderBook → ℕ × ℕ
depth b = (length b.bids, length b.asks)
