-- ===== src/Decimal/Linear.antt =====
-- Linear facts that the components share, each read at a common number of places.
use p2p_treker.Prelude.{◌+◌, ap, arith}
use p2p_treker.Prelude.Int.{pos_part, neg_part}
use p2p_treker.Decimal.{Decimal, d_zero, ◌+D◌, ◌-D◌, ◌≤D◌, ◌≈◌}
use p2p_treker.Decimal.Order.{le_at, at_le, at_eq, decimal_laws}

pub ≈→≤D : (a b : Decimal) → a ≈ b → a ≤D b
≈→≤D a b h = omega (arith, ap pos_part h.holds, ap neg_part h.holds)

pub sub-le_of_le-add : (a b c : Decimal) → a ≤D b +D c → a -D b ≤D c
sub-le_of_le-add a b c h =
    let k = a.scale + b.scale + c.scale in
    grind (decimal_laws, le_at k a (b +D c), at_le k (a -D b) c)

pub le-add_of_sub-le : (a b c : Decimal) → a -D b ≤D c → a ≤D b +D c
le-add_of_sub-le a b c h =
    let k = a.scale + b.scale + c.scale in
    grind (decimal_laws, le_at k (a -D b) c, at_le k a (b +D c))

pub sub_self-le : (a c : Decimal) → d_zero ≤D c → a -D a ≤D c
sub_self-le a c h =
    let k = a.scale + c.scale in grind (decimal_laws, le_at k d_zero c, at_le k (a -D a) c)

pub le-add_left : (a b c : Decimal) → a ≤D b → d_zero ≤D c → a ≤D b +D c
le-add_left a b c h p =
    let k = a.scale + b.scale + c.scale in
    grind (decimal_laws, le_at k a b, le_at k d_zero c, at_le k a (b +D c))

pub add_nonneg : (a b : Decimal) → d_zero ≤D a → d_zero ≤D b → d_zero ≤D a +D b
add_nonneg a b p q =
    let k = a.scale + b.scale in
    grind (decimal_laws, le_at k d_zero a, le_at k d_zero b, at_le k d_zero (a +D b))

-- What one side gains the other has lost.
pub add_sub_balance : (f r t : Decimal) → (f +D t) +D (r -D t) ≈ f +D r
add_sub_balance f r t =
    let k = f.scale + r.scale + t.scale in
    at_eq k _ _ (omega decimal_laws) (omega decimal_laws) (omega decimal_laws)

pub add_assoc_D : (a b c : Decimal) → (a +D b) +D c ≈ a +D (b +D c)
add_assoc_D a b c =
    let k = a.scale + b.scale + c.scale in
    at_eq k _ _ (omega decimal_laws) (omega decimal_laws) (omega decimal_laws)

pub add_zero_D : (a : Decimal) → a +D d_zero ≈ a
add_zero_D a = at_eq a.scale _ _ (omega decimal_laws) (omega decimal_laws) (omega decimal_laws)

pub add-le_of_le-sub : (a b c : Decimal) → b ≤D c -D a → a +D b ≤D c
add-le_of_le-sub a b c h =
    let k = a.scale + b.scale + c.scale in
    grind (decimal_laws, le_at k b (c -D a), at_le k (a +D b) c)

-- What is available of `c` covers `b`, so taking `b` away leaves the locked `a` covered.
pub le-sub_of_le-sub : (a b c : Decimal) → b ≤D c -D a → a ≤D c -D b
le-sub_of_le-sub a b c h =
    let k = a.scale + b.scale + c.scale in
    grind (decimal_laws, le_at k b (c -D a), at_le k a (c -D b))

pub sub-le_self : (a b : Decimal) → d_zero ≤D b → a -D b ≤D a
sub-le_self a b h =
    let k = a.scale + b.scale in grind (decimal_laws, le_at k d_zero b, at_le k (a -D b) a)

pub sub_mono : (a b c d : Decimal) → a ≤D b → d ≤D c → a -D c ≤D b -D d
sub_mono a b c d h p =
    let k = a.scale + b.scale + c.scale + d.scale in
    grind (decimal_laws, le_at k a b, le_at k d c, at_le k (a -D c) (b -D d))
