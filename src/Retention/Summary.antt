-- ===== src/Retention/Summary.antt =====
-- What a row of a level says of the quotes of its bucket (backend/app/services/downsampler.py).
use p2p_treker.Prelude.{
  Among, ◌≡◌, refl, sym, subst, ◌∙◌, ◌⊎◌, inl, inr, Bool-cases, Option, none, some, List, [], ◌∷◌,
  map, length, All, arith, if◌then◌else◌,
}
use p2p_treker.Prelude.Int.{ℤ, ◌≤ℤ◌, ltb_ℤ}
use p2p_treker.Decimal.{Decimal, ◌≤D◌, min_D, max_D}
use p2p_treker.Decimal.Order.{≤D_trans}
use p2p_treker.Decimal.Key.{
  ≤D_refl, max_D-cases, min_D-cases, le-max_D_left, le-max_D_right, min_D-le_left, min_D-le_right,
}
use p2p_treker.Retention.Downsampler.{
  StoredQuote, Bucket, earliest, latest, highest, lowest, aggregate, on_conflict,
}
use p2p_treker.Retention.Buckets.{merged}

abbrev pub IsMax : Decimal → List Decimal → Type 0
IsMax d ds = Among d ds × All (λ e. e ≤D d) ds

abbrev pub IsMin : Decimal → List Decimal → Type 0
IsMin d ds = Among d ds × All (λ e. d ≤D e) ds

-- The prices of a quote of the list that no other one comes before, or after.
abbrev pub AreFirst : Decimal → Decimal → List StoredQuote → Type 0
AreFirst bid ask quotes =
    (q : StoredQuote) × Among q quotes
    × (bid ≡ q.bid_price)
    × (ask ≡ q.ask_price)
    × All (λ r. q.timestamp ≤ℤ r.timestamp) quotes

abbrev pub AreLast : Decimal → Decimal → List StoredQuote → Type 0
AreLast bid ask quotes =
    (q : StoredQuote) × Among q quotes
    × (bid ≡ q.bid_price)
    × (ask ≡ q.ask_price)
    × All (λ r. r.timestamp ≤ℤ q.timestamp) quotes

-- A row that was there before keeps its opening prices.
abbrev pub Opens : Option Bucket → List StoredQuote → Bucket → Type 0
Opens none quotes b = AreFirst b.open_bid b.open_ask quotes
Opens (some old) quotes b = (b.open_bid ≡ old.open_bid) × (b.open_ask ≡ old.open_ask)

pub record Summarises (average : List Decimal → Decimal) (average_ms : List ℤ → Decimal)
    (old : Option Bucket) (quotes : List StoredQuote) (b : Bucket) : Type 0 where
  pub opens : Opens old quotes b
  pub closes : AreLast b.close_bid b.close_ask quotes
  pub highest_bid : IsMax b.high_bid (map (λ q. q.bid_price) quotes)
  pub lowest_bid : IsMin b.low_bid (map (λ q. q.bid_price) quotes)
  pub highest_ask : IsMax b.high_ask (map (λ q. q.ask_price) quotes)
  pub lowest_ask : IsMin b.low_ask (map (λ q. q.ask_price) quotes)
  pub mean_bid : b.avg_bid ≡ average (map (λ q. q.bid_price) quotes)
  pub mean_ask : b.avg_ask ≡ average (map (λ q. q.ask_price) quotes)
  pub mean_age : b.avg_quote_age_ms ≡ average_ms (map (λ q. q.quote_age_ms) quotes)
  pub counted : b.sample_count ≡ length quotes

-- The row of a bucket afterwards: the one from before, if the bucket has no quotes.
abbrev pub Row :
    (List Decimal → Decimal)
    → (List ℤ → Decimal)
    → Option Bucket
    → List StoredQuote
    → Option Bucket
    → Type 0
Row average average_ms old [] new = new ≡ old
Row average average_ms old (q ∷ quotes) new =
    (b : Bucket) × (new ≡ some b) × Summarises average average_ms old (q ∷ quotes) b

-- The running extreme is one of the two values, or among the later ones.
from_either :
    {A : Type 0} (x m d e : A) (xs : List A)
    → (m ≡ d) ⊎ (m ≡ e)
    → (x ≡ m) ⊎ Among x xs
    → (x ≡ d) ⊎ ((x ≡ e) ⊎ Among x xs)
from_either x m d e xs (inl f) (inl g) = inl (g ∙ f)
from_either x m d e xs (inr f) (inl g) = inr (inl (g ∙ f))
from_either x m d e xs _ (inr h) = inr (inr h)

max_D-either : (d e : Decimal) → (max_D d e ≡ d) ⊎ (max_D d e ≡ e)
max_D-either d e = elim (max_D-cases d e) [ inl (f, _) ↦ inr f | inr (f, _) ↦ inl f ]

min_D-either : (d e : Decimal) → (min_D d e ≡ d) ⊎ (min_D d e ≡ e)
min_D-either d e = elim (min_D-cases d e) [ inl (f, _) ↦ inr f | inr (f, _) ↦ inl f ]

highest-IsMax : (d : Decimal) (ds : List Decimal) → IsMax (highest d ds) (d ∷ ds)
unfolding highest
highest-IsMax d [] = (inl refl, (≤D_refl d, tt))
highest-IsMax d (e ∷ ds) =
    let (among, (top, rest)) = highest-IsMax (max_D d e) ds in
    (
      from_either _ (max_D d e) d e ds (max_D-either d e) among,
      (≤D_trans _ _ _ (le-max_D_left d e) top, (≤D_trans _ _ _ (le-max_D_right d e) top, rest)),
    )

lowest-IsMin : (d : Decimal) (ds : List Decimal) → IsMin (lowest d ds) (d ∷ ds)
unfolding lowest
lowest-IsMin d [] = (inl refl, (≤D_refl d, tt))
lowest-IsMin d (e ∷ ds) =
    let (among, (low, rest)) = lowest-IsMin (min_D d e) ds in
    (
      from_either _ (min_D d e) d e ds (min_D-either d e) among,
      (≤D_trans _ _ _ low (min_D-le_left d e), (≤D_trans _ _ _ low (min_D-le_right d e), rest)),
    )

-- The quote of an end of the bucket.
abbrev IsFirst : StoredQuote → List StoredQuote → Type 0
IsFirst q quotes = Among q quotes × All (λ r. q.timestamp ≤ℤ r.timestamp) quotes

abbrev IsLast : StoredQuote → List StoredQuote → Type 0
IsLast q quotes = Among q quotes × All (λ r. r.timestamp ≤ℤ q.timestamp) quotes

earliest-IsFirst :
    (q : StoredQuote) (quotes : List StoredQuote) → IsFirst (earliest q quotes) (q ∷ quotes)
unfolding earliest
earliest-IsFirst q [] = (inl refl, (omega arith, tt))
earliest-IsFirst q (r ∷ quotes) = elim (Bool-cases (ltb_ℤ r.timestamp q.timestamp)) [
  | inl t ↦
      let c : (if ltb_ℤ r.timestamp q.timestamp then r else q) ≡ r = rw t refl in
      let (among, (low, rest)) = earliest-IsFirst r quotes in
      subst (λ (x : StoredQuote). IsFirst (earliest x quotes) (q ∷ r ∷ quotes)) (sym c)
        (inr among, (ground (arith, t, low), (low, rest)))
  | inr f ↦
      let c : (if ltb_ℤ r.timestamp q.timestamp then r else q) ≡ q = rw f refl in
      let (among, (low, rest)) = earliest-IsFirst q quotes in
      subst (λ (x : StoredQuote). IsFirst (earliest x quotes) (q ∷ r ∷ quotes)) (sym c)
        (from_either _ q q r quotes (inl refl) among, (low, (ground (arith, f, low), rest)))
]

latest-IsLast :
    (q : StoredQuote) (quotes : List StoredQuote) → IsLast (latest q quotes) (q ∷ quotes)
unfolding latest
latest-IsLast q [] = (inl refl, (omega arith, tt))
latest-IsLast q (r ∷ quotes) = elim (Bool-cases (ltb_ℤ q.timestamp r.timestamp)) [
  | inl t ↦
      let c : (if ltb_ℤ q.timestamp r.timestamp then r else q) ≡ r = rw t refl in
      let (among, (top, rest)) = latest-IsLast r quotes in
      subst (λ (x : StoredQuote). IsLast (latest x quotes) (q ∷ r ∷ quotes)) (sym c)
        (inr among, (ground (arith, t, top), (top, rest)))
  | inr f ↦
      let c : (if ltb_ℤ q.timestamp r.timestamp then r else q) ≡ q = rw f refl in
      let (among, (top, rest)) = latest-IsLast q quotes in
      subst (λ (x : StoredQuote). IsLast (latest x quotes) (q ∷ r ∷ quotes)) (sym c)
        (from_either _ q q r quotes (inl refl) among, (top, (ground (arith, f, top), rest)))
]

module _ (average : List Decimal → Decimal) (average_ms : List ℤ → Decimal) where
  abbrev first_prices :
      (q : StoredQuote) (quotes : List StoredQuote)
      → AreFirst (earliest q quotes).bid_price (earliest q quotes).ask_price (q ∷ quotes)
  first_prices q quotes =
      let e = earliest-IsFirst q quotes in (earliest q quotes, e.0, refl, refl, e.1)

  abbrev last_prices :
      (q : StoredQuote) (quotes : List StoredQuote)
      → AreLast (latest q quotes).bid_price (latest q quotes).ask_price (q ∷ quotes)
  last_prices q quotes = let e = latest-IsLast q quotes in (latest q quotes, e.0, refl, refl, e.1)

  opened_by :
      (old : Option Bucket) (q : StoredQuote) (quotes : List StoredQuote) (new : Bucket)
      → (new.open_bid ≡ (earliest q quotes).bid_price)
      → (new.open_ask ≡ (earliest q quotes).ask_price)
      → Opens old (q ∷ quotes) (on_conflict old new)
  unfolding on_conflict
  opened_by none q quotes new e f =
      let p = earliest-IsFirst q quotes in (earliest q quotes, p.0, e, f, p.1)
  opened_by (some old) q quotes new e f = (refl, refl)

  -- `ON CONFLICT` keeps all other columns of the new row.
  merged-Summarises :
      (old : Option Bucket) (q : StoredQuote) (quotes : List StoredQuote) (new : Bucket)
      → Summarises average average_ms none (q ∷ quotes) new
      → Opens old (q ∷ quotes) (on_conflict old new)
      → Summarises average average_ms old (q ∷ quotes) (on_conflict old new)
  unfolding on_conflict
  merged-Summarises none q quotes new s o = s
  merged-Summarises (some old) q quotes new s o = record {
    opens = o;
    closes = s.closes;
    highest_bid = s.highest_bid;
    lowest_bid = s.lowest_bid;
    highest_ask = s.highest_ask;
    lowest_ask = s.lowest_ask;
    mean_bid = s.mean_bid;
    mean_ask = s.mean_ask;
    mean_age = s.mean_age;
    counted = s.counted;
  }

  pub merged-Row :
      (old : Option Bucket) (quotes : List StoredQuote)
      → Row average average_ms old quotes (merged old (aggregate average average_ms quotes))
  merged-Row old [] = refl
  merged-Row old (q ∷ quotes) = (
    on_conflict old _,
    refl,
    merged-Summarises old q quotes _
        (record {
          opens = first_prices q quotes;
          closes = last_prices q quotes;
          highest_bid = highest-IsMax q.bid_price (map (λ r. r.bid_price) quotes);
          lowest_bid = lowest-IsMin q.bid_price (map (λ r. r.bid_price) quotes);
          highest_ask = highest-IsMax q.ask_price (map (λ r. r.ask_price) quotes);
          lowest_ask = lowest-IsMin q.ask_price (map (λ r. r.ask_price) quotes);
          mean_bid = refl;
          mean_ask = refl;
          mean_age = refl;
          counted = refl;
        })
        (opened_by old q quotes _ refl refl),
  )
