-- ===== src/Retention/Days.antt =====
-- Days and buckets of epoch milliseconds (backend/app/database/retention.py). Milliseconds are
-- integers, and `//` rounds down.
use native.Mathlib.Nat.{div-add-mod', mod-lt}
use p2p_treker.Prelude.{
  ℕ, zero, suc, ◌+◌, ◌*◌, ◌/◌, ◌<◌, ◌≡◌, refl, sym, ap, ◌∙◌, false, List, [], ◌∷◌, arith,
  if◌then◌else◌, ◌==◌,
}
use p2p_treker.Prelude.Int.{
  ℤ, pos, negsuc, pos_part, neg_part, ◌+ℤ◌, ◌-ℤ◌, ◌*ℤ◌, ◌≤ℤ◌, ◌<ℤ◌, ltb_ℤ, int_laws, eq_of_parts,
  eq_pos_of_nonneg, pos_part-*ℤ, neg_part-*ℤ, +ℤ-*ℤ-pos, -ℤ-*ℤ-pos, <ℤ-*ℤ-pos_cancel,
}
use p2p_treker.Prelude.Result.{Result, ok, err, zero_division}

abbrev pub day_ms : ℕ
day_ms = 86400000

-- `a // k`
unfoldable pub floor_div : ℤ → ℕ → ℤ
floor_div (pos n) k = pos (n / k)
floor_div (negsuc n) k = negsuc (n / k)

unfoldable pub day_bounds_ms : ℤ → ℤ × ℤ
unfolding floor_div
day_bounds_ms ts_ms =
    let start = floor_div ts_ms day_ms *ℤ pos day_ms in (start, start +ℤ pos day_ms)

-- `range(first, first + n * step, step)`
unfoldable pub range_from : ℤ → ℕ → ℕ → List ℤ
range_from first step zero = []
range_from first step (suc n) = first ∷ range_from (first +ℤ pos step) step n

unfoldable pub day_starts_in_range : ℤ → ℤ → List ℤ
unfolding day_bounds_ms floor_div range_from
day_starts_in_range from_ms to_ms =
    if ltb_ℤ to_ms from_ms
    then []
    else let first = (day_bounds_ms from_ms).0 in
      let last = (day_bounds_ms to_ms).0 in
      range_from first day_ms (pos_part (floor_div (last -ℤ first) day_ms) + 1)

unfoldable pub bucket_start_ms : ℤ → ℕ → Result ℤ
unfolding floor_div
bucket_start_ms ts_ms bucket_ms =
    if bucket_ms == 0 then err zero_division else ok (floor_div ts_ms bucket_ms *ℤ pos bucket_ms)

unfoldable pub cutoff_ms : ℤ → ℕ → ℤ
cutoff_ms now_ms retention_days = now_ms -ℤ pos (retention_days * day_ms)

-- A quotient that rounds down, and the only one that does.
pub floor_div-IsFloor :
    (a : ℤ) (k : ℕ) → 0 < k → floor_div a k *ℤ pos k ≤ℤ a × a <ℤ floor_div a k *ℤ pos k +ℤ pos k
unfolding floor_div
floor_div-IsFloor (pos n) k p =
    let d = div-add-mod' n k in
    let m = mod-lt n {m = k} p in
    let v = pos_part-*ℤ (pos (n / k)) (pos k) in
    let w = neg_part-*ℤ (pos (n / k)) (pos k) in (omega arith, omega int_laws)
floor_div-IsFloor (negsuc n) k p =
    let d = div-add-mod' n k in
    let m = mod-lt n {m = k} p in
    let v = pos_part-*ℤ (negsuc (n / k)) (pos k) in
    let w = neg_part-*ℤ (negsuc (n / k)) (pos k) in (omega arith, omega int_laws)

pub succ_mul : (a : ℤ) (k : ℕ) → a *ℤ pos k +ℤ pos k ≡ (a +ℤ pos 1) *ℤ pos k
succ_mul a k = eq_of_parts _ _ (
    let e = +ℤ-*ℤ-pos a (pos 1) k in
    rw e (omega (int_laws, pos_part-*ℤ (pos 1) (pos k), neg_part-*ℤ (pos 1) (pos k))))

pub floor_unique :
    (a q : ℤ) (k : ℕ) → 0 < k → q *ℤ pos k ≤ℤ a → a <ℤ q *ℤ pos k +ℤ pos k → floor_div a k ≡ q
floor_unique a q k p l h =
    let f = floor_div-IsFloor a k p in
    let u : floor_div a k *ℤ pos k <ℤ (q +ℤ pos 1) *ℤ pos k =
      rw (← succ_mul q k) (omega (arith, f.0)) in
    let v : q *ℤ pos k <ℤ (floor_div a k +ℤ pos 1) *ℤ pos k =
      rw (← succ_mul (floor_div a k) k) (omega (arith, f.1)) in
    omega (
      int_laws,
      <ℤ-*ℤ-pos_cancel (floor_div a k) (q +ℤ pos 1) k u,
      <ℤ-*ℤ-pos_cancel q (floor_div a k +ℤ pos 1) k v,
    )

pub floor_div-*ℤ : (a : ℤ) (k : ℕ) → 0 < k → floor_div (a *ℤ pos k) k ≡ a
floor_div-*ℤ a k p = floor_unique (a *ℤ pos k) a k p (omega arith) (omega int_laws)

-- The intervals of one step from the entries on fill [a, b), one after the other.
abbrev pub Tiles : ℕ → ℤ → ℤ → List ℤ → Type 0
Tiles step a b [] = a ≡ b
Tiles step a b (s ∷ ss) = (s ≡ a) × Tiles step (a +ℤ pos step) b ss

no_steps : (a : ℤ) (step : ℕ) → a +ℤ pos 0 *ℤ pos step ≡ a
no_steps a step =
    eq_of_parts _ _
      (omega (int_laws, pos_part-*ℤ (pos 0) (pos step), neg_part-*ℤ (pos 0) (pos step)))

one_step : (a : ℤ) (step n : ℕ) → a +ℤ pos step +ℤ pos n *ℤ pos step ≡ a +ℤ pos (suc n) *ℤ pos step
one_step a step n = eq_of_parts _ _ (
    omega (
      int_laws,
      pos_part-*ℤ (pos n) (pos step),
      neg_part-*ℤ (pos n) (pos step),
      pos_part-*ℤ (pos (suc n)) (pos step),
      neg_part-*ℤ (pos (suc n)) (pos step),
    ))

range_from-Tiles :
    (a b : ℤ) (step n : ℕ) → a +ℤ pos n *ℤ pos step ≡ b → Tiles step a b (range_from a step n)
unfolding range_from
range_from-Tiles a b step zero e = sym (no_steps a step) ∙ e
range_from-Tiles a b step (suc n) e =
    (refl, range_from-Tiles (a +ℤ pos step) b step n (one_step a step n ∙ e))

pub floor_div-le : (a b : ℤ) (k : ℕ) → 0 < k → a ≤ℤ b → floor_div a k ≤ℤ floor_div b k
floor_div-le a b k p h =
    let f = floor_div-IsFloor a k p in
    let g = floor_div-IsFloor b k p in
    let u : floor_div a k *ℤ pos k <ℤ (floor_div b k +ℤ pos 1) *ℤ pos k =
      rw (← succ_mul (floor_div b k) k) (omega (arith, f.0, g.1)) in
    omega (int_laws, <ℤ-*ℤ-pos_cancel (floor_div a k) (floor_div b k +ℤ pos 1) k u)

-- The number of days, counted from the difference of the first and the last start.
days_between :
    (m n : ℤ) (k : ℕ)
    → 0 < k
    → m ≤ℤ n
    → m *ℤ pos k +ℤ pos (pos_part (floor_div (n *ℤ pos k -ℤ m *ℤ pos k) k) + 1) *ℤ pos k
      ≡ n *ℤ pos k +ℤ pos k
days_between m n k p h =
    let d : floor_div (n *ℤ pos k -ℤ m *ℤ pos k) k ≡ n -ℤ m =
      rw (← -ℤ-*ℤ-pos n m k) (floor_div-*ℤ (n -ℤ m) k p) in
    let z = ap neg_part (eq_pos_of_nonneg (n -ℤ m) (omega int_laws)) in
    let e : pos (pos_part (n -ℤ m) + 1) ≡ n -ℤ m +ℤ pos 1 = eq_of_parts _ _ (omega int_laws) in
    rw (d, e, ← +ℤ-*ℤ-pos m (n -ℤ m +ℤ pos 1) k, succ_mul n k)
      (ap (λ (t : ℤ). t *ℤ pos k) (eq_of_parts _ _ (omega int_laws)))

-- The days from the one of `from_ms` to the one of `to_ms`: their starts come in order, and the
-- intervals fill the time from the start of the first day to the end of the last one.
pub day_starts_in_range-Tiles :
    (from_ms to_ms : ℤ)
    → from_ms ≤ℤ to_ms
    → Tiles day_ms
        (day_bounds_ms from_ms).0
        (day_bounds_ms to_ms).1
        (day_starts_in_range from_ms to_ms)
unfolding day_starts_in_range day_bounds_ms
day_starts_in_range-Tiles from_ms to_ms h =
    let m = floor_div from_ms day_ms in
    let n = floor_div to_ms day_ms in
    let le : m ≤ℤ n = floor_div-le from_ms to_ms day_ms (omega arith) h in
    let go : ltb_ℤ to_ms from_ms ≡ false = ground arith in
    rw go (
      range_from-Tiles (m *ℤ pos day_ms) (n *ℤ pos day_ms +ℤ pos day_ms) day_ms _
        (days_between m n day_ms (omega arith) le))
