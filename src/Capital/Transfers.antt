-- ===== src/Capital/Transfers.antt =====
-- `record_manual_transfer`: funds move between two exchanges, or nothing changes.
use p2p_treker.Prelude.{
  ◌≡◌, refl, ◌∙◌, inl, inr, ◌⊎◌, ◌+◌, true, false, String, arith, Bool-cases, if◌then◌else◌,
}
use p2p_treker.Decimal.{Decimal, ◌+D◌, ◌-D◌, ◌≤D◌, ◌<D◌, ◌≈◌, ltb_D}
use p2p_treker.Decimal.Order.{at_eq, decimal_laws}
use p2p_treker.Decimal.Key.{not-ltb_D, ltb_D→<D}
use p2p_treker.Models.{Exchange, exchange_key}
use p2p_treker.PaperTrading.Balance.{Balances, account_key, available_of, get, write, credit}
use p2p_treker.PaperTrading.Balance.Invariant.{account, account-get}
use p2p_treker.PaperTrading.Balance.Effects.{
  account-credit, account-written, debit_accepted, debit_refused, account_self,
}
use p2p_treker.Capital.{record_manual_transfer}

-- The transfer has been recorded: `amount` has gone from one account to the other.
pub record Moved (m m' : Balances) (asset : String) (x y : Exchange) (amount : Decimal)
    : Type 0 where
  pub covered : amount ≤D available_of (account m (x, asset))
  pub from_total : (account m' (x, asset)).total ≡ (account m (x, asset)).total -D amount
  pub to_total : (account m' (y, asset)).total ≡ (account m (y, asset)).total +D amount
  pub conserved :
      (account m' (x, asset)).total +D (account m' (y, asset)).total
      ≈ (account m (x, asset)).total +D (account m (y, asset)).total
  pub from_locked : (account m' (x, asset)).locked ≡ (account m (x, asset)).locked
  pub to_locked : (account m' (y, asset)).locked ≡ (account m (y, asset)).locked
  pub others :
      (j : Exchange × String)
      → account_key.beq (x, asset) j ≡ false
      → account_key.beq (y, asset) j ≡ false
      → account m' j ≡ account m j

-- The transfer has been refused.
pub record Refused (m m' : Balances) (asset : String) (x : Exchange) (amount : Decimal)
    : Type 0 where
  pub short : available_of (account m (x, asset)) <D amount
  pub kept : (j : Exchange × String) → account m' j ≡ account m j

balanced : (a b t : Decimal) → (a -D t) +D (b +D t) ≈ a +D b
balanced a b t =
    let k = a.scale + b.scale + t.scale in
    at_eq k _ _ (omega decimal_laws) (omega decimal_laws) (omega decimal_laws)

module _ (m : Balances) (asset : String) (x y : Exchange) (amount : Decimal) where
  taken : Balances
  taken =
      write (get m x asset).0 x asset
        (record (account m (x, asset)) { total = (account m (x, asset)).total -D amount })

  account-taken :
      (j : Exchange × String)
      → account taken j ≡ (
          if account_key.beq (x, asset) j
          then record (account m (x, asset)) { total = (account m (x, asset)).total -D amount }
          else account m j)
  unfolding taken
  account-taken j = account-written m x asset _ j

  account-moved :
      (j : Exchange × String)
      → account_key.beq (x, asset) (y, asset) ≡ false
      → account (credit taken y asset amount) j ≡ (
          if account_key.beq (y, asset) j
          then record (account m (y, asset)) { total = (account m (y, asset)).total +D amount }
          else if account_key.beq (x, asset) j
          then record (account m (x, asset)) { total = (account m (x, asset)).total -D amount }
          else account m j)
  account-moved j d =
      rw (account-credit taken y asset amount j, account-taken (y, asset), account-taken j, d) refl

  moved :
      account_key.beq (x, asset) (y, asset) ≡ false
      → ltb_D (available_of (account m (x, asset))) amount ≡ false
      → Moved m (credit taken y asset amount) asset x y amount
  moved d h =
      let d' : account_key.beq (y, asset) (x, asset) ≡ false =
        ground (arith, account_key.beq_symm (y, asset) (x, asset)) in
      let from_account =
        account-moved (x, asset) d
        ∙ rw d' (
            account_self x asset
              (record (account m (x, asset)) { total = (account m (x, asset)).total -D amount })
              (account m (x, asset))) in
      let to_account =
        account-moved (y, asset) d
        ∙ account_self y asset
            (record (account m (y, asset)) { total = (account m (y, asset)).total +D amount }) _ in
      record {
        covered = not-ltb_D (available_of (account m (x, asset))) amount h;
        from_total = rw from_account refl;
        to_total = rw to_account refl;
        conserved = rw (from_account, to_account) (balanced _ _ amount);
        from_locked = rw from_account refl;
        to_locked = rw to_account refl;
        others = λ j p q. rw (account-moved j d, q, p) refl;
      }

  -- A transfer between two different exchanges is recorded, and then moves the amount, keeps the
  -- sum of both totals, and changes no lock and no other account; or it is refused, because the
  -- available funds of the first do not cover it, and then no account changes.
  pub record_manual_transfer_cases :
      account_key.beq (x, asset) (y, asset) ≡ false
      → (((record_manual_transfer m asset x y amount).1 ≡ true)
          × Moved m (record_manual_transfer m asset x y amount).0 asset x y amount)
        ⊎ (((record_manual_transfer m asset x y amount).1 ≡ false)
            × Refused m (record_manual_transfer m asset x y amount).0 asset x amount)
  unfolding record_manual_transfer taken
  record_manual_transfer_cases d =
      elim (Bool-cases (ltb_D (available_of (account m (x, asset))) amount)) [
        | inl t ↦ inr (
            rw (debit_refused m x asset amount t) (
              refl,
              record {
                short = ltb_D→<D (available_of (account m (x, asset))) amount t;
                kept = λ j. account-get m x asset j;
              },
            ))
        | inr f ↦ inl (rw (debit_accepted m x asset amount f) (refl, moved d f))
      ]
