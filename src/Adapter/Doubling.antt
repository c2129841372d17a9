-- ===== src/Adapter/Doubling.antt =====
-- The doubling of a delay (backend/app/exchanges/base_ws.py).
use p2p_treker.Prelude.{ℕ, zero, suc, ◌+◌, ◌≡◌, refl, arith}
use p2p_treker.Decimal.{Decimal, d_zero, lit, ◌*D◌, ◌≤D◌, ◌<D◌, at}
use p2p_treker.Prelude.Int.{◌*ℤ◌}
use p2p_treker.Decimal.Product.{mul_pos}
use p2p_treker.Decimal.Key.{<D→≤D, ltb_D→<D, <D→not-≤D, ≤D_refl}
use p2p_treker.Decimal.Order.{≤D_trans, at_lt, lt_at, at-mul, at_self, decimal_laws}

-- `delay * 2`, n times.
abbrev pub doubled : ℕ → Decimal → Decimal
doubled zero d = d
doubled (suc n) d = doubled n (d *D lit 2 0)

lt-double : (d : Decimal) → d_zero <D d → d <D d *D lit 2 0
lt-double d p = at_lt (d.scale + 0) d (d *D lit 2 0) (omega arith) (omega decimal_laws) (
    let e : d.scale + 0 ≡ d.scale = omega arith in
    rw (at-mul d.scale 0 d (lit 2 0) (omega arith) (omega arith), at_self (lit 2 0), e)
      (omega (decimal_laws, lt_at d.scale d_zero d (omega arith) (omega arith) p)))

double_pos : (d : Decimal) → d_zero <D d → d_zero <D d *D lit 2 0
unfolding at ◌*ℤ◌
double_pos d p = mul_pos d (lit 2 0) p (ltb_D→<D d_zero (lit 2 0) refl)

le-doubled : (n : ℕ) (d : Decimal) → d_zero <D d → d ≤D doubled n d
le-doubled zero d p = ≤D_refl d
le-doubled (suc n) d p =
    ≤D_trans _ _ _ (<D→≤D d (d *D lit 2 0) (lt-double d p))
      (le-doubled n (d *D lit 2 0) (double_pos d p))

-- A doubled cap that is not above the cap has been doubled no time.
pub capped_doubling :
    (n : ℕ) (b max : Decimal) → d_zero <D max → b ≤D max → b ≡ doubled n max → b ≡ max
capped_doubling zero b max p h e = e
capped_doubling (suc n) b max p h e = absurd (
    <D→not-≤D max (max *D lit 2 0) (lt-double max p)
      (≤D_trans (max *D lit 2 0) b max (rw e (le-doubled n (max *D lit 2 0) (double_pos max p))) h))
