-- ===== src/Tests/Services.antt =====
-- Writer, clients, configuration, symbols and capital (backend/app/database, api, core, capital).
use p2p_treker.Prelude.{ℕ, ◌≡◌, refl, ◌⊎◌, arith, true, false, none, some, String, List, [], ◌∷◌}
use p2p_treker.Prelude.Int.{ℤ, pos, ◌*ℤ◌}
use p2p_treker.Prelude.Dict.{Dict, lookup, string_key}
use p2p_treker.Prelude.Result.{ok}
use p2p_treker.Decimal.{at, d_zero, lit, ◌<D◌, ◌≤D◌}
use p2p_treker.Decimal.Key.{leb_D→≤D}
use p2p_treker.Models.{Exchange, binance, bybit, okx, spot, exchange_key}
use p2p_treker.DbWriter.{
  act, DatabaseConfig, drop_oldest, Action, enqueues, takes, ends_collection, writes, new_writer,
  run,
}
use p2p_treker.DbWriter.Accounting.{
  gathered, offered_by, written_by, failed_by, dropped_by, IsAccounted, run-IsAccounted,
}
use p2p_treker.ConnectionManager.{Manager, broadcast}
use p2p_treker.ConnectionManager.Broadcast.{delivered, lookup-broadcast}
use p2p_treker.Spread.Engine.{ExchangeConfig, TradingConfig}
use p2p_treker.Symbols.{symbol_map, to_native, to_canonical, found}
use p2p_treker.Symbols.RoundTrip.{to_canonical-to_native}
use p2p_treker.PaperTrading.Balance.{Balances, account_key}
use p2p_treker.Capital.{CapitalConfig, ExchangeCapitalStatus, plan, record_manual_transfer}
use p2p_treker.Capital.Rebalance.{Settles, Planned}
use p2p_treker.Capital.Plan.{capital_of, surplus, deficit, plan-Planned}
use p2p_treker.Capital.Transfers.{Moved, Refused, record_manual_transfer_cases}

abbrev database : DatabaseConfig
database = record { write_queue_size = 2; queue_overflow_policy = drop_oldest; batch_max_rows = 10 }

-- The third record displaces the first; the batch of one fails.
abbrev actions : List (Action ℕ)
actions =
    enqueues "quotes_1s" 1
    ∷ enqueues "quotes_1s" 2
    ∷ enqueues "spread_events" 3
    ∷ takes
    ∷ ends_collection
    ∷ writes false 5
    ∷ []

abbrev first_record : String × ℕ
first_record = ("quotes_1s", 1)

dropped_run : gathered ℕ database (dropped_by ℕ database) (new_writer ℕ) actions ≡ first_record ∷ []
unfolding gathered dropped_by new_writer act
dropped_run = refl

run-IsAccounted_example :
    IsAccounted ℕ database
      (gathered ℕ database (offered_by ℕ database) (new_writer ℕ) actions)
      (gathered ℕ database (written_by ℕ database) (new_writer ℕ) actions)
      (gathered ℕ database (failed_by ℕ database) (new_writer ℕ) actions)
      (gathered ℕ database (dropped_by ℕ database) (new_writer ℕ) actions)
      (run ℕ database (new_writer ℕ) actions)
run-IsAccounted_example = run-IsAccounted ℕ database actions

abbrev manager : Manager String ℕ
manager = record { queue_size = 2; clients = ("slow", 1 ∷ 2 ∷ []) ∷ ("new", []) ∷ [] }

lookup-broadcast_example :
    lookup "slow" (broadcast String ℕ manager 3).clients
    ≡ delivered ℕ 2 (lookup "slow" manager.clients) 3
lookup-broadcast_example = lookup-broadcast String ℕ manager 3 "slow" (omega arith)

abbrev given : Dict Exchange ExchangeConfig
given = (okx, record { enabled = false; taker_fee = lit 8 4 }) ∷ []

abbrev trading : TradingConfig
trading = record {
  market_type = spot;
  symbols = "BTC-USDT" ∷ [];
  max_quote_age_ms = pos 1000;
  max_timestamp_diff_ms = pos 1500;
  min_executable_quantity = d_zero;
  min_executable_notional = lit 10 0;
}

native_run : to_native "SOL-USDT" bybit ≡ ok "SOLUSDT"
unfolding to_native found symbol_map
native_run = refl

to_canonical-to_native_example : to_canonical "SOLUSDT" bybit ≡ ok "SOL-USDT"
to_canonical-to_native_example = to_canonical-to_native "SOL-USDT" "SOLUSDT" bybit native_run

abbrev balances : Balances
balances = ((binance, "USDT"), record { total = lit 1000 0; locked = lit 100 0 }) ∷ []

record_manual_transfer_cases_example :
    (((record_manual_transfer balances "USDT" binance okx (lit 300 0)).1 ≡ true)
      × Moved balances
          (record_manual_transfer balances "USDT" binance okx (lit 300 0)).0
          "USDT"
          binance
          okx
          (lit 300 0))
    ⊎ (((record_manual_transfer balances "USDT" binance okx (lit 300 0)).1 ≡ false)
        × Refused balances
            (record_manual_transfer balances "USDT" binance okx (lit 300 0)).0
            "USDT"
            binance
            (lit 300 0))
record_manual_transfer_cases_example =
    record_manual_transfer_cases balances "USDT" binance okx (lit 300 0) refl

abbrev capital_config : CapitalConfig
capital_config = record {
  quote_asset = "USDT";
  target_allocation = (binance, lit 50 0) ∷ (bybit, lit 50 0) ∷ [];
  rebalance_threshold_pct = lit 10 0;
}

abbrev status : Exchange → ℕ → ℤ → ExchangeCapitalStatus
status exchange total deviation = record {
  exchange = exchange;
  quote_asset_status = record {
    asset = "USDT";
    total = lit total 0;
    available = lit total 0;
    locked = d_zero;
  };
  base_asset_statuses = [];
  target_pct = some (lit 50 0);
  actual_pct = none;
  deviation_pct = some (record { coef = deviation; scale = 0 });
}

abbrev statuses : List ExchangeCapitalStatus
statuses = status binance 900 (pos 40) ∷ status bybit 100 (ℤ.negsuc 39) ∷ []

plan-Planned_example :
    Settles
      (λ signals.
        (capital_of statuses ≤D d_zero → signals ≡ [])
        × (d_zero <D capital_of statuses
            → Planned (surplus capital_config statuses) (deficit capital_config statuses) signals))
      (plan capital_config statuses)
unfolding at ◌*ℤ◌
plan-Planned_example = plan-Planned capital_config statuses (leb_D→≤D d_zero (lit 10 0) refl)
