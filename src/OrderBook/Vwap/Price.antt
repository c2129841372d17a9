-- ===== src/OrderBook/Vwap/Price.antt =====
-- What the loop of `compute_vwap` pays, by the prices of the levels, and what it leaves behind.
use p2p_treker.Prelude.{inl, inr, List, [], ◌∷◌, All, Bool-cases}
use p2p_treker.Decimal.{Decimal, d_zero, ◌+D◌, ◌*D◌, ◌≤D◌, leb_D}
use p2p_treker.Decimal.Order.{≤D_trans, add_mono}
use p2p_treker.Decimal.Product.{mul_mono_right, add_mul, mul_comm_D}
use p2p_treker.Decimal.Key.{≈_symm}
use p2p_treker.Decimal.Linear.{≈→≤D}
use p2p_treker.OrderBook.{BookLevel}
use p2p_treker.OrderBook.Vwap.{Progress, take_level, fill_levels}
use p2p_treker.OrderBook.Vwap.Fill.{Offers, taken, taken_nonneg, remaining-take_level}

-- `q` more at a price between the bounds keeps the payment between them.
pay_floor :
    (p f n q price : Decimal)
    → d_zero ≤D q
    → p ≤D price
    → p *D f ≤D n
    → p *D (f +D q) ≤D n +D q *D price
pay_floor p f n q price h k paid = rw (mul_comm_D p (f +D q)) (
    ≤D_trans _ _ _ (≈→≤D _ _ (add_mul f q p)) (
      add_mono (f *D p) n (q *D p) (q *D price) (rw (mul_comm_D f p) paid)
        (rw (mul_comm_D q p, mul_comm_D q price) (mul_mono_right p price q h k))))

pay_ceiling :
    (p f n q price : Decimal)
    → d_zero ≤D q
    → price ≤D p
    → n ≤D p *D f
    → n +D q *D price ≤D p *D (f +D q)
pay_ceiling p f n q price h k paid = rw (mul_comm_D p (f +D q)) (
    ≤D_trans _ _ _
      (add_mono n (f *D p) (q *D price) (q *D p) (rw (mul_comm_D f p) paid)
        (rw (mul_comm_D q p, mul_comm_D q price) (mul_mono_right price p q h k)))
      (≈→≤D _ _ (≈_symm _ _ (add_mul f q p))))

pub notional_floor :
    (p : Decimal) (s : Progress) (ls : List BookLevel)
    → All (λ l. p ≤D l.price) ls
    → Offers ls
    → d_zero ≤D s.remaining
    → p *D s.filled ≤D s.notional
    → p *D (fill_levels s ls).filled ≤D (fill_levels s ls).notional
unfolding fill_levels
notional_floor p s [] a o r h = h
notional_floor p s (l ∷ ls) a o r h = elim (Bool-cases (leb_D s.remaining d_zero)) [
  | inl done ↦ rw done h
  | inr more ↦ rw more (
      notional_floor p (take_level s l) ls a.1 o.1 (remaining-take_level s l)
        (pay_floor p s.filled s.notional (taken s l) l.price (taken_nonneg s l r o.0) a.0 h))
]

pub notional_ceiling :
    (p : Decimal) (s : Progress) (ls : List BookLevel)
    → All (λ l. l.price ≤D p) ls
    → Offers ls
    → d_zero ≤D s.remaining
    → s.notional ≤D p *D s.filled
    → (fill_levels s ls).notional ≤D p *D (fill_levels s ls).filled
unfolding fill_levels
notional_ceiling p s [] a o r h = h
notional_ceiling p s (l ∷ ls) a o r h = elim (Bool-cases (leb_D s.remaining d_zero)) [
  | inl done ↦ rw done h
  | inr more ↦ rw more (
      notional_ceiling p (take_level s l) ls a.1 o.1 (remaining-take_level s l)
        (pay_ceiling p s.filled s.notional (taken s l) l.price (taken_nonneg s l r o.0) a.0 h))
]
