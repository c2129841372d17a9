-- ===== src/Models/Quote.antt =====
-- `NormalizedQuote` (backend/app/models/quote.py): a top-of-book quote and its validators.
--
-- Prices and quantities are decimals by their type here, so the float check does not arise.
use p2p_treker.Prelude.{refl, sym, ap, ◌∙◌, ◌↔◌, inl, inr, Bool-cases, ◌≡◌, Bool, Option, String}
use p2p_treker.Prelude.Int.{ℤ, ◌-ℤ◌, ltb_ℤ}
use p2p_treker.Prelude.Result.{Result, ok, value_error, ◌>>◌, raise_if}
use p2p_treker.Decimal.{Decimal, d_zero, leb_D, ltb_D, ◌<D◌, ◌≤D◌}
use p2p_treker.Decimal.Key.{leb_D_of_pos, ltb_D_of_nonneg, not-leb_D, not-ltb_D}
use p2p_treker.Models.{Exchange, MarketType}

pub record NormalizedQuote : Type 0 where
  pub exchange : Exchange
  pub market_type : MarketType
  pub symbol : String
  pub bid_price : Decimal
  pub bid_quantity : Decimal
  pub ask_price : Decimal
  pub ask_quantity : Decimal
  pub exchange_timestamp : ℤ
  pub received_timestamp : ℤ
  pub sequence : Option ℤ

positive_price : Decimal → Result (Unit {0})
positive_price v = raise_if (leb_D v d_zero) (value_error "price must be positive")

non_negative_quantity : Decimal → Result (Unit {0})
non_negative_quantity v = raise_if (ltb_D v d_zero) (value_error "quantity must be non-negative")

-- The validators of a new quote, field by field in the order of the class.
unfoldable pub validate : NormalizedQuote → Result NormalizedQuote
unfolding positive_price non_negative_quantity
validate q = do
  positive_price q.bid_price
  non_negative_quantity q.bid_quantity
  positive_price q.ask_price
  non_negative_quantity q.ask_quantity
  ok q

unfoldable pub quote_age_ms : NormalizedQuote → ℤ → ℤ
quote_age_ms q now_ms = now_ms -ℤ q.received_timestamp

unfoldable pub is_stale : NormalizedQuote → ℤ → ℤ → Bool
unfolding quote_age_ms
is_stale q now_ms max_quote_age_ms = ltb_ℤ max_quote_age_ms (quote_age_ms q now_ms)

-- What the validators promise of every quote in the system.
pub record IsValid (q : NormalizedQuote) : Type 0 where
  pub bid_pos : d_zero <D q.bid_price
  pub bid_quantity_nonneg : d_zero ≤D q.bid_quantity
  pub ask_pos : d_zero <D q.ask_price
  pub ask_quantity_nonneg : d_zero ≤D q.ask_quantity

-- A quote passes its validators exactly if its prices are positive and its quantities are not
-- negative.
pub validate_iff : (q : NormalizedQuote) → (validate q ≡ ok q) ↔ IsValid q
unfolding validate positive_price non_negative_quantity
validate_iff q = elim (Bool-cases (leb_D q.bid_price d_zero)) [
  | inl a ↦
      rw a ((λ h. absurd cc), (λ v. absurd (let x = leb_D_of_pos q.bid_price v.bid_pos in cc)))
  | inr a ↦ elim (Bool-cases (ltb_D q.bid_quantity d_zero)) [
    | inl b ↦
        rw (a, b)
          (
            (λ h. absurd cc),
            (λ v. absurd (let x = ltb_D_of_nonneg q.bid_quantity v.bid_quantity_nonneg in cc)),
          )
    | inr b ↦ elim (Bool-cases (leb_D q.ask_price d_zero)) [
      | inl c ↦
          rw (a, b, c)
            ((λ h. absurd cc), (λ v. absurd (let x = leb_D_of_pos q.ask_price v.ask_pos in cc)))
      | inr c ↦ elim (Bool-cases (ltb_D q.ask_quantity d_zero)) [
        | inl d ↦
            rw (a, b, c, d)
              (
                (λ h. absurd cc),
                (λ v. absurd (let x = ltb_D_of_nonneg q.ask_quantity v.ask_quantity_nonneg in cc)),
              )
        | inr d ↦
            rw (a, b, c, d)
              (
                (λ h. record {
                  bid_pos = not-leb_D q.bid_price d_zero a;
                  bid_quantity_nonneg = not-ltb_D q.bid_quantity d_zero b;
                  ask_pos = not-leb_D q.ask_price d_zero c;
                  ask_quantity_nonneg = not-ltb_D q.ask_quantity d_zero d;
                }),
                (λ v. refl),
              )
      ]
    ]
  ]
]

-- A quote that leaves the validators is the one that entered.
pub validate-eq : (q r : NormalizedQuote) → validate q ≡ ok r → q ≡ r
unfolding validate positive_price non_negative_quantity
validate-eq q r h = elim (Bool-cases (leb_D q.bid_price d_zero)) [
  | inl a ↦ absurd (let k = rw a at h in cc)
  | inr a ↦ elim (Bool-cases (ltb_D q.bid_quantity d_zero)) [
    | inl b ↦ absurd (let k = rw (a, b) at h in cc)
    | inr b ↦ elim (Bool-cases (leb_D q.ask_price d_zero)) [
      | inl c ↦ absurd (let k = rw (a, b, c) at h in cc)
      | inr c ↦ elim (Bool-cases (ltb_D q.ask_quantity d_zero)) [
        | inl d ↦ absurd (let k = rw (a, b, c, d) at h in cc)
        | inr d ↦ let k = rw (a, b, c, d) at h in cc
      ]
    ]
  ]
]

pub validate-IsValid : (q r : NormalizedQuote) → validate q ≡ ok r → IsValid r
validate-IsValid q r h =
    let e = validate-eq q r h in (validate_iff r).0 (rw (← e) (h ∙ ap ok (sym e)))
