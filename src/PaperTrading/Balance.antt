-- ===== src/PaperTrading/Balance.antt =====
-- `BalanceManager` (backend/app/paper_trading/balance.py): what each asset on each exchange holds
-- and how much of it open orders have locked.
pub mod Invariant
pub mod Effects
use p2p_treker.Prelude.{Bool, true, false, Option, none, some, String, List, if◌then◌else◌, ◌≡◌}
use p2p_treker.Prelude.Dict.{Dict, Key, lookup, lookup_or, insert, pair_key, string_key}
use p2p_treker.Decimal.{Decimal, d_zero, ◌+D◌, ◌-D◌, ltb_D, max_D}
use p2p_treker.Models.{Exchange, exchange_key}

pub record AssetBalance : Type 0 where
  pub total : Decimal
  pub locked : Decimal

pub available_of : AssetBalance → Decimal
available_of b = b.total -D b.locked

-- `tuple[Exchange, str]`
instance abbrev pub account_key : Key (Exchange × String)
account_key = pair_key

abbrev pub Balances : Type 0
Balances = Dict (Exchange × String) AssetBalance

unfoldable pub set_balance : Balances → Exchange → String → Decimal → Balances
set_balance m exchange asset total =
    insert (exchange, asset) (record { total = total; locked = d_zero }) m

-- `setdefault`: an account that is asked for exists afterwards.
get_or_open : Option AssetBalance → Balances → Exchange → String → Balances × AssetBalance
get_or_open (some b) m exchange asset = (m, b)
get_or_open none m exchange asset =
    let fresh : AssetBalance = record { total = d_zero; locked = d_zero } in
    (insert (exchange, asset) fresh m, fresh)

unfoldable pub get : Balances → Exchange → String → Balances × AssetBalance
unfolding get_or_open
get m exchange asset = get_or_open (lookup (exchange, asset) m) m exchange asset

-- The object that `get` returns is the dict's own: a write to it is a write to the dict.
pub write : Balances → Exchange → String → AssetBalance → Balances
write m exchange asset b = insert (exchange, asset) b m

unfoldable pub available : Balances → Exchange → String → Balances × Decimal
unfolding get available_of
available m exchange asset = let (m', b) = get m exchange asset in (m', available_of b)

unfoldable pub reserve : Balances → Exchange → String → Decimal → Balances × Bool
unfolding get available_of write
reserve m exchange asset amount =
    let (m', b) = get m exchange asset in
    if ltb_D (available_of b) amount
    then (m', false)
    else (write m' exchange asset (record b { locked = b.locked +D amount }), true)

unfoldable pub release : Balances → Exchange → String → Decimal → Balances
unfolding get write
release m exchange asset amount =
    let (m', b) = get m exchange asset in
    write m' exchange asset (record b { locked = max_D d_zero (b.locked -D amount) })

unfoldable pub settle : Balances → Exchange → String → Decimal → Decimal → Balances
unfolding get write
settle m exchange asset reserved_amount actual_amount =
    let (m', b) = get m exchange asset in
    write m' exchange asset (record b {
      total = b.total -D actual_amount;
      locked = max_D d_zero (b.locked -D reserved_amount);
    })

unfoldable pub credit : Balances → Exchange → String → Decimal → Balances
unfolding get write
credit m exchange asset amount =
    let (m', b) = get m exchange asset in
    write m' exchange asset (record b { total = b.total +D amount })

unfoldable pub debit : Balances → Exchange → String → Decimal → Balances × Bool
unfolding get available_of write
debit m exchange asset amount =
    let (m', b) = get m exchange asset in
    if ltb_D (available_of b) amount
    then (m', false)
    else (write m' exchange asset (record b { total = b.total -D amount }), true)

-- `all_balances` copies the dict.
pub all_balances : Balances → Balances
all_balances m = m
