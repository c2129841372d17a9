-- ===== src/PaperTrading/Rules.antt =====
-- The trading rules of a symbol (backend/app/paper_trading/rules.py).
pub mod Compliance
use p2p_treker.Prelude.{
  ◌≡◌, Bool, true, false, not, Option, none, some, List, [], ◌∷◌, ◌++◌, if◌then◌else◌,
}
use p2p_treker.Prelude.Result.{Result, ok, err, value_error, ◌>>=◌, ◌>>◌, raise_if}
use p2p_treker.Decimal.{Decimal, d_zero, ◌*D◌, leb_D, ltb_D, eqb_D}
use p2p_treker.Decimal.Division.{floor_div_D}

pub record SymbolRules : Type 0 where
  pub tick_size : Decimal
  pub step_size : Decimal
  pub min_quantity : Decimal
  pub min_notional : Decimal

-- The messages of `validate_order`, with the values that they print.
pub data Violation : Type 0 where
  quantity_not_positive price_not_positive : Violation
  below_min_quantity : Decimal → Decimal → Violation
  below_min_notional : Decimal → Decimal → Violation
  off_step : Decimal → Decimal → Violation
  off_tick : Decimal → Decimal → Violation

pub record OrderValidationResult : Type 0 where
  pub valid : Bool
  pub violations : List Violation

unfoldable pub round_to_tick : Decimal → Decimal → Result Decimal
round_to_tick price tick_size = do
  raise_if (leb_D tick_size d_zero) (value_error "tick_size must be positive")
  ok (floor_div_D price tick_size *D tick_size)

unfoldable pub round_to_step : Decimal → Decimal → Result Decimal
round_to_step quantity step_size = do
  raise_if (leb_D step_size d_zero) (value_error "step_size must be positive")
  ok (floor_div_D quantity step_size *D step_size)

-- `if c: violations.append(v)`
abbrev pub note : Bool → Violation → List Violation
note c v = if c then v ∷ [] else []

verdict : List Violation → OrderValidationResult
verdict [] = record { valid = true; violations = [] }
verdict (v ∷ vs) = record { valid = false; violations = v ∷ vs }

sign_violations : Decimal → Decimal → List Violation
sign_violations quantity price =
    note (leb_D quantity d_zero) quantity_not_positive
    ++ note (leb_D price d_zero) price_not_positive

-- The tests of an order whose quantity and price are positive.
check_limits : Decimal → Decimal → SymbolRules → Result OrderValidationResult
unfolding verdict
check_limits quantity price rules = do
  let notional = quantity *D price
  stepped ← round_to_step quantity rules.step_size
  ticked ← round_to_tick price rules.tick_size
  ok (
      verdict (
        note (ltb_D quantity rules.min_quantity) (below_min_quantity quantity rules.min_quantity)
        ++ note (ltb_D notional rules.min_notional) (below_min_notional notional rules.min_notional)
        ++ note (not (eqb_D quantity stepped)) (off_step quantity rules.step_size)
        ++ note (not (eqb_D price ticked)) (off_tick price rules.tick_size)))

validate_signed : List Violation → Decimal → Decimal → SymbolRules → Result OrderValidationResult
unfolding check_limits
validate_signed [] quantity price rules = check_limits quantity price rules
validate_signed (v ∷ vs) quantity price rules = ok (record { valid = false; violations = v ∷ vs })

unfoldable pub validate_order : Decimal → Decimal → SymbolRules → Result OrderValidationResult
unfolding sign_violations validate_signed
validate_order quantity price rules =
    validate_signed (sign_violations quantity price) quantity price rules
