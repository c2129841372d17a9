-- ===== src/Retention/Buckets.antt =====
-- What a run of the downsampler leaves in the table of a level (backend/app/services/downsampler.py).
use p2p_treker.Prelude.{
  ℕ, ◌≡◌, refl, sym, ap, ◌∙◌, subst, Bool, true, false, ◌||◌, Bool-cases, inl, inr, Option, none,
  some, List, [], ◌∷◌, filter, arith, if◌then◌else◌,
}
use p2p_treker.Prelude.Int.{ℤ}
use p2p_treker.Prelude.Dict.{
  string_key, Dict, lookup, lookup-insert, lookup_congr, pair_key, beq_congr,
}
use p2p_treker.Decimal.{Decimal}
use p2p_treker.Retention.Downsampler.{
  int_key, StoredQuote, Bucket, BucketKey, bucket_key, in_window, in_bucket, aggregate, on_conflict,
  listed_key, groups, group_bucket, upsert, upsert_all, run_level,
}

-- The row of a key after the upsert of its group, which may have no row.
abbrev pub merged : Option Bucket → Option Bucket → Option Bucket
merged old none = old
merged old (some new) = some (on_conflict old new)

in_bucket_congr :
    (bucket_ms : ℕ) (j k : BucketKey) (rows : List StoredQuote)
    → pair_key.beq j k ≡ true
    → filter (in_bucket bucket_ms j) rows ≡ filter (in_bucket bucket_ms k) rows
in_bucket_congr bucket_ms j k [] h = refl
in_bucket_congr bucket_ms j k (q ∷ rows) h =
    rw (beq_congr (bucket_key bucket_ms q) j k h, in_bucket_congr bucket_ms j k rows h) refl

listed_congr :
    (j k : BucketKey) (ks : List BucketKey)
    → pair_key.beq j k ≡ true
    → listed_key j ks ≡ listed_key k ks
listed_congr j k [] h = refl
listed_congr j k (i ∷ ks) h = rw (beq_congr i j k h, listed_congr j k ks h) refl

listed_groups :
    (bucket_ms : ℕ) (key : BucketKey) (q : StoredQuote) (rows : List StoredQuote)
    → listed_key key (groups bucket_ms (q ∷ rows))
      ≡ (pair_key.beq (bucket_key bucket_ms q) key || listed_key key (groups bucket_ms rows))
listed_groups bucket_ms key q rows = go (groups bucket_ms rows) (bucket_key bucket_ms q)
  where
    go :
        (ks : List BucketKey) (j : BucketKey)
        → listed_key key (if listed_key j ks then ks else j ∷ ks)
          ≡ (pair_key.beq j key || listed_key key ks)
    go ks j = elim (Bool-cases (listed_key j ks)) [
      | inl p ↦ elim (Bool-cases (pair_key.beq j key)) [
        | inl q ↦ rw (p, q) (sym (listed_congr j key ks q) ∙ p)
        | inr q ↦ rw (p, q) refl
      ]
      | inr p ↦ rw p refl
    ]

pub not_both : (a b : Bool) → a ≡ true → (a || b) ≡ false → ⊥
not_both a b p h = ground arith

same_if : {A : Type 0} (b : Bool) (x : A) → x ≡ (if b then x else x)
same_if true x = refl
same_if false x = refl

-- A key without rows has no group.
no_group :
    (bucket_ms : ℕ) (key : BucketKey) (rows : List StoredQuote)
    → listed_key key (groups bucket_ms rows) ≡ false
    → filter (in_bucket bucket_ms key) rows ≡ []
no_group bucket_ms key [] h = refl
no_group bucket_ms key (q ∷ rows) h =
    elim (Bool-cases (pair_key.beq (bucket_key bucket_ms q) key)) [
      | inl p ↦ absurd (
          not_both (pair_key.beq (bucket_key bucket_ms q) key) _ p
            (sym (listed_groups bucket_ms key q rows) ∙ h))
      | inr p ↦
          rw
            (
              p,
              no_group bucket_ms key rows (
                  subst (λ b. (b || listed_key key (groups bucket_ms rows)) ≡ false) p
                    (sym (listed_groups bucket_ms key q rows) ∙ h)),
            )
            refl
    ]

Separate : List BucketKey → Type 0
Separate [] = Unit
Separate (k ∷ ks) = (listed_key k ks ≡ false) × Separate ks

groups-Separate : (bucket_ms : ℕ) (rows : List StoredQuote) → Separate (groups bucket_ms rows)
unfolding Separate
groups-Separate bucket_ms [] = tt
groups-Separate bucket_ms (q ∷ rows) =
    elim (Bool-cases (listed_key (bucket_key bucket_ms q) (groups bucket_ms rows))) [
      | inl p ↦ rw p (groups-Separate bucket_ms rows)
      | inr p ↦ rw p (p, groups-Separate bucket_ms rows)
    ]

module _ (average : List Decimal → Decimal) (average_ms : List ℤ → Decimal) where
  lookup-upsert :
      (j key : BucketKey) (new : Option Bucket) (table : Dict BucketKey Bucket)
      → lookup key (upsert average average_ms j new table)
        ≡ (if pair_key.beq j key then merged (lookup key table) new else lookup key table)
  unfolding on_conflict
  lookup-upsert j key none table = same_if (pair_key.beq j key) (lookup key table)
  lookup-upsert j key (some new) table =
      let v = on_conflict (lookup j table) new in
      elim (Bool-cases (pair_key.beq j key)) [
        | inl p ↦
            lookup-insert j key v table
            ∙ rw p
                (ap (λ (o : Option Bucket). some (on_conflict o new)) (lookup_congr j key table p))
        | inr p ↦ lookup-insert j key v table ∙ rw p refl
      ]

  lookup-upsert_all :
      (bucket_ms : ℕ) (rows : List StoredQuote) (ks : List BucketKey) (key : BucketKey)
      (table : Dict BucketKey Bucket)
      → Separate ks
      → lookup key (upsert_all average average_ms bucket_ms rows ks table) ≡ (
          if listed_key key ks
          then merged (lookup key table) (group_bucket average average_ms bucket_ms rows key)
          else lookup key table)
  unfolding upsert_all Separate
  lookup-upsert_all bucket_ms rows [] key table s = refl
  lookup-upsert_all bucket_ms rows (j ∷ ks) key table s =
      let G = group_bucket average average_ms bucket_ms rows in
      let next = upsert average average_ms j (G j) table in
      let rest = lookup-upsert_all bucket_ms rows ks key next s.1 in
      let one = lookup-upsert j key (G j) table in
      elim (Bool-cases (pair_key.beq j key)) [
        | inl p ↦
            let absent : listed_key key ks ≡ false = sym (listed_congr j key ks p) ∙ s.0 in
            let same : G j ≡ G key =
              ap (aggregate average average_ms) (in_bucket_congr bucket_ms j key rows p) in
            rest ∙ rw (absent, p) (one ∙ rw p (ap (merged (lookup key table)) same))
        | inr p ↦
            let kept : lookup key next ≡ lookup key table = one ∙ rw p refl in
            rest ∙ rw (p, kept) refl
      ]

  -- After a run on the rows of `quotes_1s` in an interval, the row of a bucket is the aggregate of
  -- its quotes in the interval, but for opening prices that are there before; a bucket without
  -- such quotes keeps its row.
  pub lookup-run_level :
      (bucket_ms : ℕ) (from_ms to_ms : ℤ) (quotes : List StoredQuote)
      (table : Dict BucketKey Bucket) (key : BucketKey)
      → lookup key (run_level average average_ms bucket_ms from_ms to_ms quotes table)
        ≡ merged (lookup key table) (
            aggregate average average_ms
              (filter (in_bucket bucket_ms key) (filter (in_window from_ms to_ms) quotes)))
  unfolding run_level
  lookup-run_level bucket_ms from_ms to_ms quotes table key =
      let rows = filter (in_window from_ms to_ms) quotes in
      let ks = groups bucket_ms rows in
      let all = lookup-upsert_all bucket_ms rows ks key table (groups-Separate bucket_ms rows) in
      elim (Bool-cases (listed_key key ks)) [
        | inl p ↦ all ∙ rw p refl
        | inr p ↦ all ∙ rw (p, no_group bucket_ms key rows p) refl
      ]
