-- ===== src/Retention/Downsampler.antt =====
-- Downsampling (backend/app/services/downsampler.py): the query that `_run_level` executes, on the
-- rows of `quotes_1s` and the table of a level.
--
-- `avg` of the database is an argument. Of rows with the same timestamp, the first one counts as
-- the earliest and as the latest one.
use p2p_treker.Prelude.{
  ℕ, suc, ◌/◌, ◌≡◌, Bool, true, false, ◌&&◌, ◌||◌, Option, none, some, String, List, [], ◌∷◌, map,
  filter, length, arith, if◌then◌else◌,
}
use p2p_treker.Prelude.Int.{ℤ, pos, negsuc, ◌-ℤ◌, ◌*ℤ◌, leb_ℤ, ltb_ℤ, eqb_ℤ, sub_ℕ}
use p2p_treker.Prelude.Dict.{Key, Dict, lookup, insert, string_key, pair_key}
use p2p_treker.Decimal.{Decimal, min_D, max_D}

-- The columns of `quotes_1s` that the query reads.
pub record StoredQuote : Type 0 where
  pub timestamp : ℤ
  pub exchange : String
  pub symbol : String
  pub market_type : String
  pub bid_price : Decimal
  pub ask_price : Decimal
  pub quote_age_ms : ℤ

pub record Bucket : Type 0 where
  pub open_bid : Decimal
  pub high_bid : Decimal
  pub low_bid : Decimal
  pub close_bid : Decimal
  pub open_ask : Decimal
  pub high_ask : Decimal
  pub low_ask : Decimal
  pub close_ask : Decimal
  pub avg_bid : Decimal
  pub avg_ask : Decimal
  pub avg_quote_age_ms : Decimal
  pub sample_count : ℕ

pub record DownsampleLevel : Type 0 where
  pub table : String
  pub bucket_ms : ℕ

abbrev pub levels : List DownsampleLevel
levels =
    record { table = "quotes_10s"; bucket_ms = 10000 }
    ∷ record { table = "quotes_1m"; bucket_ms = 60000 }
    ∷ record { table = "quotes_5m"; bucket_ms = 300000 }
    ∷ []

abbrev pub safety_margin_ms : ℕ
safety_margin_ms = 5000

-- Whole numbers of the database are divided towards zero.
unfoldable pub div_trunc : ℤ → ℕ → ℤ
div_trunc (pos n) k = pos (n / k)
div_trunc (negsuc n) k = sub_ℕ 0 (suc n / k)

abbrev pub BucketKey : Type 0
BucketKey = (ℤ × String) × (String × String)

pub int_refl : (a : ℤ) → eqb_ℤ a a ≡ true
int_refl a = ground arith

pub int_symm : (a b : ℤ) → eqb_ℤ a b ≡ true → eqb_ℤ b a ≡ true
int_symm a b h = ground arith

pub int_trans : (a b c : ℤ) → eqb_ℤ a b ≡ true → eqb_ℤ b c ≡ true → eqb_ℤ a c ≡ true
int_trans a b c h k = ground arith

instance abbrev pub int_key : Key ℤ
int_key = record { beq = eqb_ℤ; beq_refl = int_refl; beq_symm = int_symm; beq_trans = int_trans }

unfoldable pub bucket_key : ℕ → StoredQuote → BucketKey
unfolding div_trunc
bucket_key bucket_ms q =
    ((div_trunc q.timestamp bucket_ms *ℤ pos bucket_ms, q.exchange), (q.symbol, q.market_type))

abbrev pub in_window : ℤ → ℤ → StoredQuote → Bool
in_window from_ms to_ms q = leb_ℤ from_ms q.timestamp && ltb_ℤ q.timestamp to_ms

abbrev pub in_bucket : ℕ → BucketKey → StoredQuote → Bool
in_bucket bucket_ms key q = pair_key.beq (bucket_key bucket_ms q) key

-- The first of the earliest rows, the first of the latest ones, and extreme values.
unfoldable pub earliest : StoredQuote → List StoredQuote → StoredQuote
earliest q [] = q
earliest q (r ∷ rows) = earliest (if ltb_ℤ r.timestamp q.timestamp then r else q) rows

unfoldable pub latest : StoredQuote → List StoredQuote → StoredQuote
latest q [] = q
latest q (r ∷ rows) = latest (if ltb_ℤ q.timestamp r.timestamp then r else q) rows

unfoldable pub highest : Decimal → List Decimal → Decimal
highest d [] = d
highest d (e ∷ ds) = highest (max_D d e) ds

unfoldable pub lowest : Decimal → List Decimal → Decimal
lowest d [] = d
lowest d (e ∷ ds) = lowest (min_D d e) ds

module _ (average : List Decimal → Decimal) (average_ms : List ℤ → Decimal) where
  abbrev pub aggregate : List StoredQuote → Option Bucket
  aggregate [] = none
  aggregate (q ∷ rows) =
      let bids = map (λ r. r.bid_price) rows in
      let asks = map (λ r. r.ask_price) rows in
      some (record {
        open_bid = (earliest q rows).bid_price;
        high_bid = highest q.bid_price bids;
        low_bid = lowest q.bid_price bids;
        close_bid = (latest q rows).bid_price;
        open_ask = (earliest q rows).ask_price;
        high_ask = highest q.ask_price asks;
        low_ask = lowest q.ask_price asks;
        close_ask = (latest q rows).ask_price;
        avg_bid = average (q.bid_price ∷ bids);
        avg_ask = average (q.ask_price ∷ asks);
        avg_quote_age_ms = average_ms (q.quote_age_ms ∷ map (λ r. r.quote_age_ms) rows);
        sample_count = suc (length rows);
      })

-- `ON CONFLICT`: the row that is there keeps its opening prices.
unfoldable pub on_conflict : Option Bucket → Bucket → Bucket
on_conflict none new = new
on_conflict (some old) new = record new { open_bid = old.open_bid; open_ask = old.open_ask }

-- The groups of `GROUP BY`, each key once.
abbrev pub listed_key : BucketKey → List BucketKey → Bool
listed_key key [] = false
listed_key key (k ∷ ks) = pair_key.beq k key || listed_key key ks

abbrev pub groups : ℕ → List StoredQuote → List BucketKey
groups bucket_ms [] = []
groups bucket_ms (q ∷ rows) =
    let ks = groups bucket_ms rows in
    let key = bucket_key bucket_ms q in if listed_key key ks then ks else key ∷ ks

module _ (average : List Decimal → Decimal) (average_ms : List ℤ → Decimal) where
  abbrev pub group_bucket : ℕ → List StoredQuote → BucketKey → Option Bucket
  group_bucket bucket_ms rows key =
      aggregate average average_ms (filter (in_bucket bucket_ms key) rows)

  abbrev pub upsert : BucketKey → Option Bucket → Dict BucketKey Bucket → Dict BucketKey Bucket
  upsert key none table = table
  upsert key (some new) table = insert key (on_conflict (lookup key table) new) table

  unfoldable pub upsert_all :
      ℕ → List StoredQuote → List BucketKey → Dict BucketKey Bucket → Dict BucketKey Bucket
  unfolding on_conflict
  upsert_all bucket_ms rows [] table = table
  upsert_all bucket_ms rows (key ∷ ks) table =
      upsert_all bucket_ms rows ks (upsert key (group_bucket bucket_ms rows key) table)

  -- The statement of `_run_level`.
  unfoldable pub run_level :
      ℕ → ℤ → ℤ → List StoredQuote → Dict BucketKey Bucket → Dict BucketKey Bucket
  unfolding upsert_all bucket_key
  run_level bucket_ms from_ms to_ms quotes table =
      let rows = filter (in_window from_ms to_ms) quotes in
      upsert_all bucket_ms rows (groups bucket_ms rows) table

  -- One level of `run`, with its look-back.
  unfoldable pub run_at :
      ℕ → ℕ → ℤ → List StoredQuote → Dict BucketKey Bucket → Dict BucketKey Bucket
  unfolding run_level
  run_at lookback_ms bucket_ms now_ms quotes table =
      run_level bucket_ms (now_ms -ℤ pos lookback_ms) (now_ms -ℤ pos safety_margin_ms) quotes table
