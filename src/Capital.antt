-- ===== src/Capital.antt =====
-- The capital monitor (backend/app/capital/monitor.py): the distribution of the quote asset over the
-- exchanges, the signals for rebalancing, and the check of a direction. Reading a balance opens its
-- account, so each reader passes the balances on.
pub mod Rebalance
pub mod Plan
pub mod Transfers
use Prim.Native.Char.{code}
use Prim.Native.String
use p2p_treker.Prelude.{
  ℕ, zero, suc, ◌+◌, ◌≡◌, Bool, true, false, ◌&&◌, Option, none, some, String, List, [], ◌∷◌, ◌++◌,
  map, length, ◌==◌, if◌then◌else◌,
}
use p2p_treker.Prelude.Dict.{Dict, lookup, lookup_or, insert, values, string_key}
use p2p_treker.Prelude.Result.{Result, ok, err, assertion_error, ◌>>=◌}
use p2p_treker.Prelude.Sorting.{sorted}
use p2p_treker.Decimal.{
  Decimal, d_zero, d_hundred, ◌+D◌, ◌-D◌, ◌*D◌, leb_D, ltb_D, min_D, neg_D, sum_from,
}
use p2p_treker.Decimal.Division.{div_D}
use p2p_treker.Models.{Exchange, exchange_key}
use p2p_treker.PaperTrading.Balance.{Balances, available_of, get, available, debit, credit}
use p2p_treker.PaperTrading.Engine.Trade.{split_symbol}

pub record CapitalConfig : Type 0 where
  pub quote_asset : String
  pub target_allocation : Dict Exchange Decimal
  pub rebalance_threshold_pct : Decimal

pub record AssetCapitalStatus : Type 0 where
  pub asset : String
  pub total : Decimal
  pub available : Decimal
  pub locked : Decimal

pub record ExchangeCapitalStatus : Type 0 where
  pub exchange : Exchange
  pub quote_asset_status : AssetCapitalStatus
  pub base_asset_statuses : Dict String AssetCapitalStatus
  pub target_pct : Option Decimal
  pub actual_pct : Option Decimal
  pub deviation_pct : Option Decimal

-- `reason` names the two exchanges with their deviations.
pub record RebalanceSignal : Type 0 where
  pub asset : String
  pub from_exchange : Exchange
  pub to_exchange : Exchange
  pub amount : Decimal
  pub over_deviation : Option Decimal
  pub under_deviation : Decimal

pub asset_status : Balances → Exchange → String → Balances × AssetCapitalStatus
asset_status m exchange asset =
    let (m', b) = get m exchange asset in
    (m', record { asset = asset; total = b.total; available = available_of b; locked = b.locked })

-- `{exchange: self._balances.get(...).total for exchange in exchanges}`
quote_totals_from :
    String → Balances → Dict Exchange Decimal → List Exchange → Balances × Dict Exchange Decimal
quote_totals_from quote_asset m totals [] = (m, totals)
quote_totals_from quote_asset m totals (exchange ∷ exchanges) =
    let (m', b) = get m exchange quote_asset in
    quote_totals_from quote_asset m' (insert exchange b.total totals) exchanges

base_statuses_from :
    Exchange
    → Balances
    → Dict String AssetCapitalStatus
    → List String
    → Balances × Dict String AssetCapitalStatus
unfolding asset_status
base_statuses_from exchange m statuses [] = (m, statuses)
base_statuses_from exchange m statuses (asset ∷ assets) =
    let (m', s) = asset_status m exchange asset in
    base_statuses_from exchange m' (insert asset s statuses) assets

-- `(quote_totals[exchange] / total_capital) * _HUNDRED if total_capital > 0 else None`
pub actual_share : Decimal → Decimal → Option Decimal
actual_share total total_capital =
    if ltb_D d_zero total_capital then some (div_D total total_capital *D d_hundred) else none

pub deviation_of : Option Decimal → Option Decimal → Option Decimal
deviation_of (some actual) (some target) = some (actual -D target)
deviation_of _ _ = none

-- One round of the loop in `snapshot`.
exchange_status :
    CapitalConfig
    → List String
    → Dict Exchange Decimal
    → Decimal
    → Balances
    → Exchange
    → Balances × ExchangeCapitalStatus
unfolding asset_status base_statuses_from actual_share deviation_of
exchange_status config base_assets totals total_capital m exchange =
    let (m₁, quote_status) = asset_status m exchange config.quote_asset in
    let (m₂, base_statuses) = base_statuses_from exchange m₁ [] base_assets in
    let target = lookup exchange config.target_allocation in
    let actual = actual_share (lookup_or exchange d_zero totals) total_capital in
    (
      m₂,
      record {
        exchange = exchange;
        quote_asset_status = quote_status;
        base_asset_statuses = base_statuses;
        target_pct = target;
        actual_pct = actual;
        deviation_pct = deviation_of actual target;
      },
    )

statuses_from :
    CapitalConfig
    → List String
    → Dict Exchange Decimal
    → Decimal
    → Balances
    → List Exchange
    → Balances × List ExchangeCapitalStatus
unfolding exchange_status
statuses_from config base_assets totals total_capital m [] = (m, [])
statuses_from config base_assets totals total_capital m (exchange ∷ exchanges) =
    let (m', status) = exchange_status config base_assets totals total_capital m exchange in
    let (m'', others) = statuses_from config base_assets totals total_capital m' exchanges in
    (m'', status ∷ others)

unfoldable pub snapshot :
    CapitalConfig → Balances → List Exchange → List String → Balances × List ExchangeCapitalStatus
unfolding quote_totals_from statuses_from
snapshot config m exchanges base_assets =
    let (m', totals) = quote_totals_from config.quote_asset m [] exchanges in
    statuses_from config base_assets totals (sum_from d_zero (values totals)) m' exchanges

-- A status with what it has too much or too little of.
abbrev pub Side : Type 0
Side = List (ExchangeCapitalStatus × Decimal)

pub over_entry : Decimal → Decimal → ExchangeCapitalStatus → Option Decimal → Side
over_entry threshold total_capital s none = []
over_entry threshold total_capital s (some deviation) =
    if ltb_D threshold deviation then (s, div_D deviation d_hundred *D total_capital) ∷ [] else []

pub under_entry : Decimal → Decimal → ExchangeCapitalStatus → Option Decimal → Side
under_entry threshold total_capital s none = []
under_entry threshold total_capital s (some deviation) =
    if ltb_D deviation (neg_D threshold)
    then (s, div_D (neg_D deviation) d_hundred *D total_capital) ∷ []
    else []

pub over_of : Decimal → Decimal → List ExchangeCapitalStatus → Side
unfolding over_entry
over_of threshold total_capital [] = []
over_of threshold total_capital (s ∷ statuses) =
    over_entry threshold total_capital s s.deviation_pct ++ over_of threshold total_capital statuses

pub under_of : Decimal → Decimal → List ExchangeCapitalStatus → Side
unfolding under_entry
under_of threshold total_capital [] = []
under_of threshold total_capital (s ∷ statuses) =
    under_entry threshold total_capital s s.deviation_pct
    ++ under_of threshold total_capital statuses

-- `sort(key=lambda pair: pair[1], reverse=True)`, which is stable.
pub largest_first : Side → Side
largest_first = sorted λ p q. leb_D q.1 p.1

-- `signals.append(...)` behind its `assert`, before the signals of the later rounds.
signal_of :
    String
    → ExchangeCapitalStatus
    → ExchangeCapitalStatus
    → Decimal
    → Option Decimal
    → Result (List RebalanceSignal)
signal_of asset over under amount none = err assertion_error
signal_of asset over under amount (some deviation) = ok (
    record {
      asset = asset;
      from_exchange = over.exchange;
      to_exchange = under.exchange;
      amount = amount;
      over_deviation = over.deviation_pct;
      under_deviation = deviation;
    }
    ∷ [])

pub signals_of :
    String → ExchangeCapitalStatus → ExchangeCapitalStatus → Decimal → Result (List RebalanceSignal)
unfolding signal_of
signals_of asset over under amount =
    if ltb_D d_zero amount then signal_of asset over under amount under.deviation_pct else ok []

-- `over[i]` and `under[j]` after a round: passed if nothing is left of them.
pub advance : ExchangeCapitalStatus → Decimal → Side → Side
advance s left rest = if leb_D left d_zero then rest else (s, left) ∷ rest

pub append_later :
    Result (List RebalanceSignal)
    → Option (Result (List RebalanceSignal))
    → Option (Result (List RebalanceSignal))
append_later now none = none
append_later now (some later) = some (now >>= λ signals. later >>= λ others. ok (signals ++ others))

-- The `while` loop on fuel; `none` is out of fuel (Rebalance shows that this does not happen).
pub match_sides : ℕ → String → Side → Side → Option (Result (List RebalanceSignal))
unfolding append_later signals_of advance
match_sides fuel asset [] under = some (ok [])
match_sides fuel asset (o ∷ over) [] = some (ok [])
match_sides zero asset (o ∷ over) (u ∷ under) = none
match_sides (suc fuel) asset ((s, excess) ∷ over) ((t, deficit) ∷ under) =
    let amount = min_D excess deficit in
    append_later (signals_of asset s t amount) (
      match_sides fuel asset (advance s (excess -D amount) over)
        (advance t (deficit -D amount) under))

-- The two sides of `rebalance_signals`, matched.
pub plan : CapitalConfig → List ExchangeCapitalStatus → Option (Result (List RebalanceSignal))
unfolding over_of under_of largest_first match_sides
plan config statuses =
    let total_capital = sum_from d_zero (map (λ s. s.quote_asset_status.total) statuses) in
    let over = largest_first (over_of config.rebalance_threshold_pct total_capital statuses) in
    let under = largest_first (under_of config.rebalance_threshold_pct total_capital statuses) in
    if leb_D total_capital d_zero
    then some (ok [])
    else match_sides (length over + length under) config.quote_asset over under

unfoldable pub rebalance_signals :
    CapitalConfig → Balances → List Exchange → Balances × Option (Result (List RebalanceSignal))
unfolding plan
rebalance_signals config m exchanges =
    let (m', statuses) = snapshot config m exchanges [] in (m', plan config statuses)

-- The `reason` of a direction that is not available, with its asset, exchange and amounts.
pub record Shortage : Type 0 where
  pub asset : String
  pub exchange : Exchange
  pub available : Decimal
  pub required : Decimal

pub record DirectionAvailability : Type 0 where
  pub symbol : String
  pub buy_exchange : Exchange
  pub sell_exchange : Exchange
  pub available : Bool
  pub reason : Option Shortage

direction : String → Exchange → Exchange → Bool → Option Shortage → DirectionAvailability
direction symbol buy_exchange sell_exchange available reason = record {
  symbol = symbol;
  buy_exchange = buy_exchange;
  sell_exchange = sell_exchange;
  available = available;
  reason = reason;
}

check_sell : Balances → String → Exchange → Exchange → Decimal → Balances × DirectionAvailability
unfolding direction
check_sell m symbol buy_exchange sell_exchange quantity =
    let base_asset = (split_symbol symbol).0 in
    let (m', sell_available) = available m sell_exchange base_asset in
    let shortage : Shortage = record {
      asset = base_asset;
      exchange = sell_exchange;
      available = sell_available;
      required = quantity;
    } in
    (
      m',
      if ltb_D sell_available quantity
          then direction symbol buy_exchange sell_exchange false (some shortage)
          else direction symbol buy_exchange sell_exchange true none,
    )

unfoldable pub check_direction :
    CapitalConfig
    → Balances
    → String
    → Exchange
    → Exchange
    → Decimal
    → Decimal
    → Balances × DirectionAvailability
unfolding direction check_sell
check_direction config m symbol buy_exchange sell_exchange quantity buy_price =
    let quote_needed = quantity *D buy_price in
    let (m', buy_available) = available m buy_exchange config.quote_asset in
    let shortage : Shortage = record {
      asset = config.quote_asset;
      exchange = buy_exchange;
      available = buy_available;
      required = quote_needed;
    } in
    let sell_check = check_sell m' symbol buy_exchange sell_exchange quantity in
    if ltb_D buy_available quote_needed
    then (m', direction symbol buy_exchange sell_exchange false (some shortage))
    else sell_check

transfer_credit : Balances × Bool → String → Exchange → Decimal → Balances × Bool
transfer_credit (m, false) asset to_exchange amount = (m, false)
transfer_credit (m, true) asset to_exchange amount = (credit m to_exchange asset amount, true)

unfoldable pub record_manual_transfer :
    Balances → String → Exchange → Exchange → Decimal → Balances × Bool
unfolding transfer_credit
record_manual_transfer m asset from_exchange to_exchange amount =
    transfer_credit (debit m from_exchange asset amount) asset to_exchange amount
