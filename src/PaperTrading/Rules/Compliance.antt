-- ===== src/PaperTrading/Rules/Compliance.antt =====
-- An order is valid exactly if it complies with the rules of its symbol.
use p2p_treker.Prelude.{
  ℕ, ◌≡◌, refl, inl, inr, ◌↔◌, Bool, true, false, not, ◌++◌, arith, Bool-cases,
}
use p2p_treker.Prelude.Int.{pos}
use p2p_treker.Prelude.Result.{ok, Returns}
use p2p_treker.Decimal.{Decimal, d_zero, of_int, ◌+D◌, ◌*D◌, ◌≤D◌, ◌<D◌, ◌≈◌, leb_D, ltb_D, eqb_D}
use p2p_treker.Decimal.Division.{floor_div_D}
use p2p_treker.Decimal.Floor.{
  steps, floor_div_D_lem, floor_multiple-le, lt-floor_multiple, aligned_iff,
}
use p2p_treker.Decimal.Order.{≈_refl}
use p2p_treker.Decimal.Key.{
  leb_D_of_pos, not-leb_D, ltb_D→<D, not-ltb_D, <D→≤D, <D→not-≤D, eqb_D→≈, ≈→eqb_D,
}
use p2p_treker.PaperTrading.Rules.{
  SymbolRules, Violation, round_to_tick, round_to_step, note, check_limits, validate_order, verdict,
}

-- `n` whole steps.
pub record IsMultiple (step d : Decimal) : Type 0 where
  pub count : ℕ
  pub exact : d ≈ of_int (pos count) *D step

pub record IsCompliant (quantity price : Decimal) (rules : SymbolRules) : Type 0 where
  pub quantity_pos : d_zero <D quantity
  pub price_pos : d_zero <D price
  pub enough : rules.min_quantity ≤D quantity
  pub worth : rules.min_notional ≤D quantity *D price
  pub on_step : IsMultiple rules.step_size quantity
  pub on_tick : IsMultiple rules.tick_size price

IsMultiple-of_rounded :
    (d step : Decimal)
    → d_zero ≤D d
    → d_zero <D step
    → d ≈ floor_div_D d step *D step
    → IsMultiple step d
IsMultiple-of_rounded d step p q h =
    let (n, e) = (aligned_iff d step p q).0 h in record { count = n; exact = e }

rounded_of_multiple :
    (d step : Decimal)
    → d_zero ≤D d
    → d_zero <D step
    → IsMultiple step d
    → d ≈ floor_div_D d step *D step
rounded_of_multiple d step p q m = (aligned_iff d step p q).1 (m.count, m.exact)

rounded-IsMultiple :
    (d step : Decimal) → d_zero ≤D d → d_zero <D step → IsMultiple step (floor_div_D d step *D step)
rounded-IsMultiple d step p q = record {
  count = steps d step p q;
  exact = rw (floor_div_D_lem d step p q) (≈_refl _);
}

-- A non-negative quantity is rounded to a positive step without an exception: to a multiple of
-- the step, down, and by less than one step.
pub round_to_step-Returns :
    (quantity step : Decimal)
    → d_zero ≤D quantity
    → d_zero <D step
    → Returns
        (λ r. IsMultiple step r × (r ≤D quantity) × (quantity <D r +D step))
        (round_to_step quantity step)
unfolding round_to_step
round_to_step-Returns quantity step p q = rw (leb_D_of_pos step q) (
  rounded-IsMultiple quantity step p q,
  floor_multiple-le quantity step p q,
  lt-floor_multiple quantity step p q,
)

pub round_to_step_value :
    (quantity step : Decimal)
    → d_zero <D step
    → round_to_step quantity step ≡ ok (floor_div_D quantity step *D step)
unfolding round_to_step
round_to_step_value quantity step q = rw (leb_D_of_pos step q) refl

pub round_to_tick_value :
    (price tick : Decimal)
    → d_zero <D tick
    → round_to_tick price tick ≡ ok (floor_div_D price tick *D tick)
unfolding round_to_tick
round_to_tick_value price tick q = rw (leb_D_of_pos tick q) refl

-- The four tests behind the signs.
verdict_iff :
    (a b c d : Bool) (u v w x : Violation)
    → ((verdict (note a u ++ note b v ++ note c w ++ note d x)).valid ≡ true)
      ↔ ((a ≡ false) × (b ≡ false) × (c ≡ false) × (d ≡ false))
unfolding verdict
verdict_iff a b c d u v w x = ground arith

off_grid_iff :
    (d step : Decimal)
    → d_zero ≤D d
    → d_zero <D step
    → (not (eqb_D d (floor_div_D d step *D step)) ≡ false) ↔ IsMultiple step d
off_grid_iff d step p q = (
  (λ h. IsMultiple-of_rounded d step p q (eqb_D→≈ _ _ (ground arith))),
  (λ m. let e = ≈→eqb_D _ _ (rounded_of_multiple d step p q m) in ground arith),
)

below_iff : (a b : Decimal) → (ltb_D a b ≡ false) ↔ (b ≤D a)
below_iff a b = ((λ h. not-ltb_D a b h), (λ h. not_below h))
  where
    not_below : b ≤D a → ltb_D a b ≡ false
    not_below h = elim (Bool-cases (ltb_D a b)) [
      | inl t ↦ absurd (<D→not-≤D a b (ltb_D→<D a b t) h)
      | inr f ↦ f
    ]

module _ (quantity price : Decimal) (rules : SymbolRules) (step_pos : d_zero <D rules.step_size)
    (tick_pos : d_zero <D rules.tick_size) where
  limits_iff :
      d_zero <D quantity
      → d_zero <D price
      → Returns
          (λ r. (r.valid ≡ true) ↔ IsCompliant quantity price rules)
          (check_limits quantity price rules)
  unfolding check_limits
  limits_iff p q =
      let (fwd, bwd) =
        verdict_iff (ltb_D quantity rules.min_quantity)
          (ltb_D (quantity *D price) rules.min_notional)
          (not (eqb_D quantity (floor_div_D quantity rules.step_size *D rules.step_size)))
          (not (eqb_D price (floor_div_D price rules.tick_size *D rules.tick_size))) _ _ _ _ in
      let stepped = off_grid_iff quantity rules.step_size (<D→≤D _ _ p) step_pos in
      let ticked = off_grid_iff price rules.tick_size (<D→≤D _ _ q) tick_pos in
      rw
        (
          round_to_step_value quantity rules.step_size step_pos,
          round_to_tick_value price rules.tick_size tick_pos,
        )
        (
          (λ h.
              let (a, b, c, d) = fwd h in
              record {
                quantity_pos = p;
                price_pos = q;
                enough = (below_iff _ _).0 a;
                worth = (below_iff _ _).0 b;
                on_step = stepped.0 c;
                on_tick = ticked.0 d;
              }),
          (λ v. bwd (
            (below_iff _ _).1 v.enough,
            (below_iff _ _).1 v.worth,
            stepped.1 v.on_step,
            ticked.1 v.on_tick,
          )),
        )

  -- Under positive steps `validate_order` raises nothing, and an order is valid exactly if its
  -- quantity and price are positive, reach the minimal quantity and notional, and are multiples
  -- of the step and the tick.
  pub validate_order_iff :
      Returns
        (λ r. (r.valid ≡ true) ↔ IsCompliant quantity price rules)
        (validate_order quantity price rules)
  unfolding validate_order
  validate_order_iff = elim (Bool-cases (leb_D quantity d_zero)) [
    | inl t ↦ rw t (λ h. cc, λ v. let f = leb_D_of_pos quantity v.quantity_pos in cc)
    | inr f ↦ elim (Bool-cases (leb_D price d_zero)) [
      | inl t ↦ rw (f, t) (λ h. cc, λ v. let g = leb_D_of_pos price v.price_pos in cc)
      | inr g ↦ rw (f, g) (limits_iff (not-leb_D quantity d_zero f) (not-leb_D price d_zero g))
    ]
  ]
