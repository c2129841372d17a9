-- ===== src/Spread/Engine/Table.antt =====
-- `compute_all` over a well-formed cache: it raises nothing.
use p2p_treker.Prelude.{
  ◌≡◌, refl, ◌⊎◌, inl, inr, Bool, true, false, none, some, String, List, [], ◌∷◌, ◌++◌, filter,
  arith, All, All-imp, All-map, Bool-cases,
}
use p2p_treker.Prelude.Int.{ℤ}
use p2p_treker.Prelude.Dict.{Dict, Key, lookup, contains, values, Distinct, string_key, lookup-All}
use p2p_treker.Prelude.Result.{Result, ok, err, Returns, ◌>>=◌}
use p2p_treker.Decimal.{Decimal, d_zero, d_one, ◌≤D◌}
use p2p_treker.Models.{Exchange, exchange_key, exchange_eq, exchange_symm}
use p2p_treker.Models.Quote.{NormalizedQuote}
use p2p_treker.QuoteCache.{QuoteCache, snapshot}
use p2p_treker.QuoteCache.Invariant.{IsCache, IsPlaced, snapshot-Distinct, snapshot-IsPlaced}
use p2p_treker.Spread.Engine.{
  SpreadRow, TradingConfig, Fees, available_quotes, symbol_pairs, rows_of_pairs, rows_of_symbols,
  compute_all,
}
use p2p_treker.Spread.Engine.Pairs.{Apart, permutations-All, All-append}
use p2p_treker.Spread.Engine.Rows.{Usable, RowFacts, rows_of_pairs-Returns}

-- Each fee is a fraction from 0 to 1.
pub record IsFraction (fee : Decimal) : Type 0 where
  pub nonneg : d_zero ≤D fee
  pub le-one : fee ≤D d_one

abbrev pub IsFees : Fees → Type 0
IsFees = All (λ entry. IsFraction entry.1)

contains_found :
    {K V : Type 0} ⦃e : Key K⦄ (k : K) (d : Dict K V)
    → contains k d ≡ true
    → (v : V) × (lookup k d ≡ some v)
contains_found k [] h = absurd cc
contains_found ⦃e⦄ k ((j, w) ∷ d) h = elim (Bool-cases (e.beq j k)) [
  | inl t ↦ (w, rw t refl)
  | inr f ↦ let (v, q) = contains_found k d (rw f at h) in (v, rw f q)
]

filter-All :
    {A : Type 0} (P : A → Type 0) (p : A → Bool) (xs : List A)
    → All P xs
    → All (λ x. P x × (p x ≡ true)) (filter p xs)
filter-All P p [] h = tt
filter-All P p (x ∷ xs) h = elim (Bool-cases (p x)) [
  | inl t ↦ rw t ((h.0, t), filter-All P p xs h.1)
  | inr f ↦ rw f (filter-All P p xs h.1)
]

filter_absent :
    {K V : Type 0} ⦃e : Key K⦄ (k : K) (p : K × V → Bool) (d : Dict K V)
    → lookup k d ≡ none
    → lookup k (filter p d) ≡ none
filter_absent k p [] h = refl
filter_absent ⦃e⦄ k p ((j, w) ∷ d) h = ground (arith, filter_absent k p d)

filter-Distinct :
    {K V : Type 0} ⦃e : Key K⦄ (p : K × V → Bool) (d : Dict K V)
    → Distinct d
    → Distinct (filter p d)
filter-Distinct p [] h = tt
filter-Distinct ⦃e⦄ p ((j, w) ∷ d) h = elim (Bool-cases (p (j, w))) [
  | inl t ↦ rw t (filter_absent j p d h.0, filter-Distinct p d h.1)
  | inr f ↦ rw f (filter-Distinct p d h.1)
]

absent-All :
    {K V : Type 0} ⦃e : Key K⦄ (k : K) (d : Dict K V)
    → lookup k d ≡ none
    → All (λ entry. e.beq entry.0 k ≡ false) d
absent-All k [] h = tt
absent-All ⦃e⦄ k ((j, w) ∷ d) h = elim (Bool-cases (e.beq j k)) [
  | inl t ↦ absurd (let h' = rw t at h in cc)
  | inr f ↦ (f, absent-All k d (rw f at h))
]

All-both :
    {A : Type 0} (P Q : A → Type 0) (xs : List A) → All P xs → All Q xs → All (λ x. P x × Q x) xs
All-both P Q [] h k = tt
All-both P Q (x ∷ xs) h k = ((h.0, k.0), All-both P Q xs h.1 k.1)

module _ (trading : TradingConfig) (fees : Fees) (symbol : String) where
  -- Two quotes that may trade against each other.
  abbrev Tradable : NormalizedQuote → NormalizedQuote → Type 0
  Tradable a b =
      Usable trading fees symbol a
      × Usable trading fees symbol b
      × (exchange_eq a.exchange b.exchange ≡ false)

  tradable_symm : (a b : NormalizedQuote) → Tradable a b → Tradable b a
  tradable_symm a b h = (
    h.1,
    h.0,
    ground (arith, h.2, exchange_symm a.exchange b.exchange, exchange_symm b.exchange a.exchange),
  )

  abbrev AtOwn : Exchange × NormalizedQuote → Type 0
  AtOwn entry = Usable trading fees symbol entry.1 × (entry.1.exchange ≡ entry.0)

  tradable_entry :
      (j : Exchange) (w : NormalizedQuote) (entry : Exchange × NormalizedQuote)
      → AtOwn (j, w)
      → AtOwn entry × (exchange_eq entry.0 j ≡ false)
      → Tradable w entry.1
  tradable_entry j w entry (u, p) ((v, q), n) =
      (u, v, rw (p, q) (ground (arith, exchange_symm j entry.0)))

  values-Apart :
      (d : Dict Exchange NormalizedQuote)
      → Distinct d
      → All AtOwn d
      → Apart Tradable tradable_symm (values d)
  values-Apart [] h k = tt
  values-Apart ((j, w) ∷ d) h k = (
    All-map (Tradable w) (λ entry. entry.1) d
        (All-imp d (λ entry q. tradable_entry j w entry k.0 q)
          (All-both AtOwn (λ entry. exchange_eq entry.0 j ≡ false) d k.1 (absent-All j d h.0))),
    values-Apart d h.1 k.1,
  )

  usable_entry :
      (entry : Exchange × NormalizedQuote)
      → IsFees fees
      → IsPlaced entry.0 trading.market_type symbol entry.1 × (contains entry.0 fees ≡ true)
      → AtOwn entry
  usable_entry entry h (p, c) =
      let (fee, found) = contains_found entry.0 fees c in
      let fraction = lookup-All IsFraction entry.0 fees h fee found in
      (
        record {
          valid = p.valid;
          market = p.market_same;
          named = p.symbol_same;
          fee = fee;
          fee_found = rw p.exchange_same found;
          fee_nonneg = fraction.nonneg;
          fee-le-one = fraction.le-one;
        },
        p.exchange_same,
      )

  symbol_pairs-All :
      (cache : QuoteCache)
      → IsCache cache
      → IsFees fees
      → All (λ p. Tradable p.0 p.1) (symbol_pairs trading fees cache symbol)
  unfolding symbol_pairs available_quotes
  symbol_pairs-All cache i h =
      let quotes = snapshot cache trading.market_type symbol in
      permutations-All Tradable tradable_symm _ (
        values-Apart (filter (λ entry. contains entry.0 fees) quotes)
          (filter-Distinct (λ entry. contains entry.0 fees) quotes
            (snapshot-Distinct cache trading.market_type symbol i))
          (All-imp (filter (λ entry. contains entry.0 fees) quotes)
            (λ entry q. usable_entry entry h q)
            (filter-All (λ entry. IsPlaced entry.0 trading.market_type symbol entry.1)
              (λ entry. contains entry.0 fees) quotes
              (snapshot-IsPlaced cache trading.market_type symbol i))))

abbrev pub OneOf : String → List String → Type 0
OneOf s [] = ⊥
OneOf s (x ∷ xs) = (s ≡ x) ⊎ OneOf s xs

-- A row for one of the symbols.
pub record TableRow (trading : TradingConfig) (fees : Fees) (symbols : List String)
    (row : SpreadRow) : Type 0 where
  pub symbol : String
  pub listed : OneOf symbol symbols
  pub facts : RowFacts trading fees symbol row

module _ (trading : TradingConfig) (fees : Fees) (cache : QuoteCache) (now_ms : ℤ) where
  append-Returns :
      (P : SpreadRow → Type 0) (xs ys : Result (List SpreadRow))
      → Returns (All P) xs
      → Returns (All P) ys
      → Returns (All P) (xs >>= λ rows. ys >>= λ others. ok (rows ++ others))
  append-Returns P (ok xs) (ok ys) h k = All-append P xs ys h k
  append-Returns P (ok xs) (err e) h k = k
  append-Returns P (err e) ys h k = h

  weaken :
      (P Q : SpreadRow → Type 0) (xs : Result (List SpreadRow))
      → ((row : SpreadRow) → P row → Q row)
      → Returns (All P) xs
      → Returns (All Q) xs
  weaken P Q (ok xs) f h = All-imp xs f h
  weaken P Q (err e) f h = h

  rows_of_symbols-Returns :
      (symbols : List String)
      → IsCache cache
      → IsFees fees
      → Returns
          (All (TableRow trading fees symbols))
          (rows_of_symbols trading fees cache now_ms symbols)
  unfolding rows_of_symbols
  rows_of_symbols-Returns [] i h = tt
  rows_of_symbols-Returns (s ∷ symbols) i h =
      append-Returns (TableRow trading fees (s ∷ symbols)) _ _
        (weaken (RowFacts trading fees s) (TableRow trading fees (s ∷ symbols))
          (rows_of_pairs trading fees now_ms (symbol_pairs trading fees cache s))
          (λ row f. record { symbol = s; listed = inl refl; facts = f })
          (rows_of_pairs-Returns trading fees s now_ms (symbol_pairs trading fees cache s)
            (symbol_pairs-All trading fees s cache i h)))
        (weaken (TableRow trading fees symbols) (TableRow trading fees (s ∷ symbols))
          (rows_of_symbols trading fees cache now_ms symbols)
          (λ row r. record { symbol = r.symbol; listed = inr r.listed; facts = r.facts })
          (rows_of_symbols-Returns symbols i h))

  -- Over a cache of valid quotes in their places and fees from 0 to 1 `compute_all` raises
  -- nothing. Each row is about one of the configured symbols and two different exchanges, whose
  -- fees are known, and its net spread is at least zero if the sale after its fee
  -- covers the purchase with its fee, and at most zero if it does not exceed it.
  pub compute_all-Returns :
      IsCache cache
      → IsFees fees
      → Returns
          (All (TableRow trading fees trading.symbols))
          (compute_all trading fees cache now_ms)
  unfolding compute_all
  compute_all-Returns i h = rows_of_symbols-Returns trading.symbols i h
