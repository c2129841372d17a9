-- ===== src/OrderBook/Views.antt =====
-- What `best_bid`, `best_ask` and the sorted views show of the stored levels.
use mathlib.Core.List.{Perm, map-map}
use mathlib.Core.List.Perm
use p2p_treker.Prelude.{
  ◌≡◌, refl, subst, Bool, true, false, Option, none, some, List, [], ◌∷◌, map, arith, All, All-imp,
  All-map, All-unmap, map_congr, ◌∙◌,
}
use p2p_treker.Prelude.Dict.{lookup, keys, Distinct, All-lookup}
use p2p_treker.Prelude.Sorting.{
  sorted-perm, sorted-IsSorted, IsSorted, IsSorted-map, extreme, extreme-All, le-extreme,
  All-le-extreme,
}
use p2p_treker.Decimal.{Decimal, leb_D, ltb_D, ◌≤D◌}
use p2p_treker.Decimal.Key.{
  decimal_key, ≤D_refl, ltb_D→<D, not-ltb_D, <D→≤D, leb_D_total, leb_D_trans,
}
use p2p_treker.Decimal.Order.{≤D_trans}
use p2p_treker.OrderBook.{
  OrderBook, BookLevel, Side, level_at, best_level, best_bid, best_ask, bids_sorted, asks_sorted,
}

abbrev pub entry_level : Decimal × Decimal → BookLevel
entry_level (p, qty) = record { price = p; quantity = qty }

level_at_found :
    (side : Side) (p qty : Decimal)
    → lookup p side ≡ some qty
    → level_at side p ≡ record { price = p; quantity = qty }
unfolding level_at
level_at_found side p qty h = ground arith

-- The levels by the keys of a side are its entries.
map-level_at :
    (side : Side) → Distinct side → map (level_at side) (keys side) ≡ map entry_level side
map-level_at side d =
    map-map (level_at side) (λ e. e.0) side
    ∙ map_congr _ entry_level side
        (All-imp side (λ e h. level_at_found side e.0 e.1 h) (All-lookup side d))

-- A level that stands in a side.
pub record Stands (side : Side) (l : BookLevel) : Type 0 where
  pub found : lookup l.price side ≡ some l.quantity

key-Stands : (side : Side) → Distinct side → All (λ p. Stands side (level_at side p)) (keys side)
key-Stands side d =
    All-map _ (λ e. e.0) side
      (All-imp side (λ e h. rw (level_at_found side e.0 e.1 h) (record { found = h }))
        (All-lookup side d))

-- What a best level is: it stands in the side, and no price of the side is better.
abbrev pub IsBest : (Decimal → Decimal → Type 0) → Side → Option BookLevel → Type 0
IsBest Worse side none = side ≡ []
IsBest Worse side (some l) = Stands side l × All (λ e. Worse e.0 l.price) side

-- Of either side, with the order in which its prices get worse.
module _ (beats : Decimal → Decimal → Bool) (Worse : Decimal → Decimal → Type 0)
    (worse_refl : (p : Decimal) → Worse p p)
    (worse_trans : (p q r : Decimal) → Worse p q → Worse q r → Worse p r)
    (beaten : (p q : Decimal) → beats p q ≡ true → Worse q p)
    (unbeaten : (p q : Decimal) → beats p q ≡ false → Worse p q) where
  best_level-IsBest :
      (side : Side)
      → Distinct side
      → IsBest Worse side (best_level (extreme beats) side (keys side))
  unfolding best_level level_at
  best_level-IsBest [] d = refl
  best_level-IsBest ((p, qty) ∷ rest) d =
      let ks = key-Stands ((p, qty) ∷ rest) d in
      (
        extreme-All beats _ p (keys rest) ks.0 ks.1,
        (
          le-extreme beats Worse worse_refl worse_trans beaten unbeaten p (keys rest),
          All-unmap (λ q. Worse q (extreme beats p (keys rest))) (λ e. e.0) rest
              (All-le-extreme beats Worse worse_refl worse_trans beaten unbeaten p (keys rest)),
        ),
      )

best_bid-IsBest : (b : OrderBook) → Distinct b.bids → IsBest ◌≤D◌ b.bids (best_bid b)
unfolding best_bid
best_bid-IsBest b d =
    best_level-IsBest (λ p best. ltb_D best p) ◌≤D◌ ≤D_refl ≤D_trans
      (λ p q h. <D→≤D q p (ltb_D→<D q p h)) (λ p q h. not-ltb_D q p h) b.bids d

pub best_ask-IsBest : (b : OrderBook) → Distinct b.asks → IsBest (λ p q. q ≤D p) b.asks (best_ask b)
unfolding best_ask
best_ask-IsBest b d =
    best_level-IsBest ltb_D (λ p q. q ≤D p) ≤D_refl (λ p q r h k. ≤D_trans r q p k h)
      (λ p q h. <D→≤D p q (ltb_D→<D p q h)) (λ p q h. not-ltb_D p q h) b.asks d

abbrev pub levels : Side → List BookLevel
levels = map entry_level

bids_sorted_lem :
    (b : OrderBook)
    → Distinct b.bids
    → Perm (bids_sorted b) (levels b.bids) × IsSorted (λ l m. leb_D m.price l.price) (bids_sorted b)
unfolding bids_sorted
bids_sorted_lem b d = (
  subst (Perm (bids_sorted b)) (map-level_at b.bids d)
      (Perm.map (level_at b.bids) (sorted-perm (λ p q. leb_D q p) (keys b.bids))),
  IsSorted-map _ _ (level_at b.bids) _ (λ p q. refl)
      (sorted-IsSorted (λ p q. leb_D q p) (λ p q h. leb_D_total q p h)
        (λ p q r h k. leb_D_trans r q p k h) (keys b.bids)),
)

asks_sorted_lem :
    (b : OrderBook)
    → Distinct b.asks
    → Perm (asks_sorted b) (levels b.asks) × IsSorted (λ l m. leb_D l.price m.price) (asks_sorted b)
unfolding asks_sorted
asks_sorted_lem b d = (
  subst (Perm (asks_sorted b)) (map-level_at b.asks d)
      (Perm.map (level_at b.asks) (sorted-perm leb_D (keys b.asks))),
  IsSorted-map _ _ (level_at b.asks) _ (λ p q. refl)
      (sorted-IsSorted leb_D leb_D_total leb_D_trans (keys b.asks)),
)

-- The best level of each side.
abbrev pub AreBest : OrderBook → Type 0
AreBest b = IsBest ◌≤D◌ b.bids (best_bid b) × IsBest (λ p q. q ≤D p) b.asks (best_ask b)

-- The best bid stands in the book and no bid is higher, the best ask stands in the book and no ask
-- is lower; there is none only without levels on its side.
pub best_levels-AreBest : (b : OrderBook) → Distinct b.bids → Distinct b.asks → AreBest b
best_levels-AreBest b d e = (best_bid-IsBest b d, best_ask-IsBest b e)

-- The levels of each side, from the best one on.
abbrev pub AreSorted : OrderBook → Type 0
AreSorted b =
    (Perm (bids_sorted b) (levels b.bids) × IsSorted (λ l m. leb_D m.price l.price) (bids_sorted b))
    × (Perm (asks_sorted b) (levels b.asks)
        × IsSorted (λ l m. leb_D l.price m.price) (asks_sorted b))

-- `bids_sorted` holds each stored bid once, the highest price first, and `asks_sorted` each stored
-- ask once, the lowest price first.
pub sorted_levels-AreSorted : (b : OrderBook) → Distinct b.bids → Distinct b.asks → AreSorted b
sorted_levels-AreSorted b d e = (bids_sorted_lem b d, asks_sorted_lem b e)
