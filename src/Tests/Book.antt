-- ===== src/Tests/Book.antt =====
-- The order book (backend/app/orderbook): a book of three levels and a feed of four deltas.
use p2p_treker.Prelude.{◌≡◌, refl, true, some, List, [], ◌∷◌}
use p2p_treker.Prelude.Int.{pos, ◌+ℤ◌, ◌-ℤ◌, ◌*ℤ◌}
use p2p_treker.Prelude.Dict.{Distinct, lookup}
use p2p_treker.Prelude.Sorting.{extreme}
use p2p_treker.Prelude.Result.{ok, Returns}
use p2p_treker.Decimal.{at, d_zero, lit, ◌+D◌, ◌-D◌, ◌*D◌, min_D}
use p2p_treker.Decimal.Division.{div_D, round_half_even}
use p2p_treker.Decimal.Key.{decimal_key, ltb_D→<D, leb_D→≤D}
use p2p_treker.OrderBook.{OrderBook, BookLevel, Side, apply_delta, apply_side, best_ask}
use p2p_treker.OrderBook.Sides.{last_change, or_else, lookup-apply_side}
use p2p_treker.OrderBook.Feed.{Delta, apply_all, next_deltas, Applied, feed_replays}
use p2p_treker.OrderBook.Invariant.{IsValid, Messages, apply_all-Returns}
use p2p_treker.OrderBook.Views.{AreBest, best_levels-AreBest, AreSorted, sorted_levels-AreSorted}
use p2p_treker.OrderBook.Vwap.{compute_vwap}
use p2p_treker.OrderBook.Vwap.Fill.{Offers}
use p2p_treker.OrderBook.Vwap.Outcome.{Outcome, compute_vwap-Outcome}

-- One and a half at 100 and 98, two at 101 and one at 103.
abbrev pub bids : Side
bids = (lit 100 0, lit 15 1) ∷ (lit 98 0, lit 15 1) ∷ []

abbrev pub asks : Side
asks = (lit 103 0, lit 1 0) ∷ (lit 101 0, lit 2 0) ∷ []

abbrev pub book : OrderBook
book = record { bids = bids; asks = asks; sequence = some (pos 7); synced = true }

abbrev delta_8 : Delta
delta_8 = record { bids = (lit 100 0, d_zero) ∷ []; asks = []; sequence = pos 8 }

abbrev delta_9 : Delta
delta_9 = record { bids = []; asks = (lit 1010 1, lit 5 0) ∷ []; sequence = pos 9 }

-- The stale and the repeated delta are skipped.
abbrev feed : List Delta
feed = delta_8 ∷ delta_8 ∷ delta_9 ∷ []

abbrev book_9 : OrderBook
book_9 = record {
  bids = (lit 98 0, lit 15 1) ∷ [];
  asks = (lit 103 0, lit 1 0) ∷ (lit 101 0, lit 5 0) ∷ [];
  sequence = some (pos 9);
  synced = true;
}

feed_run : apply_all book feed ≡ ok book_9
unfolding apply_all apply_delta apply_side at ◌*ℤ◌ ◌+ℤ◌
feed_run = refl

feed_replays_example : Applied book (pos 7) (next_deltas (pos 7) feed) book_9
feed_replays_example = feed_replays (pos 7) book book_9 feed refl refl feed_run refl

lookup-apply_side_example :
    lookup (lit 100 0) (apply_side bids ((lit 1000 1, lit 3 0) ∷ (lit 98 0, d_zero) ∷ []))
    ≡ or_else
        (last_change (lit 100 0) ((lit 1000 1, lit 3 0) ∷ (lit 98 0, d_zero) ∷ []))
        (lookup (lit 100 0) bids)
unfolding at ◌*ℤ◌
lookup-apply_side_example =
    lookup-apply_side (lit 100 0) bids ((lit 1000 1, lit 3 0) ∷ (lit 98 0, d_zero) ∷ [])
      (refl, (refl, tt))

pub bids-Distinct : Distinct bids
unfolding at ◌*ℤ◌
bids-Distinct = (refl, (refl, tt))

pub asks-Distinct : Distinct asks
unfolding at ◌*ℤ◌
asks-Distinct = (refl, (refl, tt))

pub book-IsValid : IsValid book
unfolding at ◌*ℤ◌
book-IsValid = record {
  bids = record {
    distinct = bids-Distinct;
    positive = (ltb_D→<D d_zero (lit 15 1) refl, (ltb_D→<D d_zero (lit 15 1) refl, tt));
  };
  asks = record {
    distinct = asks-Distinct;
    positive = (ltb_D→<D d_zero (lit 1 0) refl, (ltb_D→<D d_zero (lit 2 0) refl, tt));
  };
  tracked = λ h. (pos 7, refl);
}

feed-Messages : Messages feed
unfolding at ◌*ℤ◌
feed-Messages = (
  ((leb_D→≤D d_zero d_zero refl, tt), tt),
  (((leb_D→≤D d_zero d_zero refl, tt), tt), ((tt, (leb_D→≤D d_zero (lit 5 0) refl, tt)), tt)),
)

apply_all-Returns_example : Returns IsValid (apply_all book feed)
apply_all-Returns_example = apply_all-Returns book feed feed-Messages book-IsValid

best_levels-AreBest_example : AreBest book
best_levels-AreBest_example = best_levels-AreBest book bids-Distinct asks-Distinct

best_ask_run : best_ask book ≡ some (record { price = lit 101 0; quantity = lit 2 0 })
unfolding best_ask extreme at ◌*ℤ◌
best_ask_run = refl

sorted_levels-AreSorted_example : AreSorted book
sorted_levels-AreSorted_example = sorted_levels-AreSorted book bids-Distinct asks-Distinct

-- From best to worst.
abbrev ask_levels : List BookLevel
ask_levels =
    record { price = lit 101 0; quantity = lit 2 0 }
    ∷ record { price = lit 103 0; quantity = lit 1 0 }
    ∷ []

ask_levels-Offers : Offers ask_levels
unfolding at ◌*ℤ◌
ask_levels-Offers = (leb_D→≤D d_zero (lit 2 0) refl, (leb_D→≤D d_zero (lit 1 0) refl, tt))

compute_vwap-Outcome_example :
    Returns (Outcome ask_levels (lit 25 1)) (compute_vwap ask_levels (lit 25 1))
unfolding at ◌*ℤ◌
compute_vwap-Outcome_example =
    compute_vwap-Outcome ask_levels (lit 25 1) ask_levels-Offers (ltb_D→<D d_zero (lit 25 1) refl)

-- 2.5 cost 2 * 101 + 0.5 * 103 = 253.5, which is 101.4 each.
vwap_run :
    compute_vwap ask_levels (lit 25 1)
    ≡ ok (record {
      vwap_price = some (lit 1014000000000000000000000000 25);
      filled_quantity = lit 25 1;
      notional = lit 2535 1;
      fully_filled = true;
    })
unfolding compute_vwap div_D round_half_even min_D at ◌*ℤ◌ ◌+ℤ◌ ◌-ℤ◌ ◌+D◌ ◌-D◌ ◌*D◌
vwap_run = refl
