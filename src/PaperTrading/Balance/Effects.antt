-- ===== src/PaperTrading/Balance/Effects.antt =====
-- What each account shows after a call, and after a reservation with its release or settlement.
use p2p_treker.Prelude.{
  ◌≡◌, refl, inl, inr, ◌+◌, true, false, String, arith, Bool-cases, if◌then◌else◌,
}
use p2p_treker.Decimal.{Decimal, d_zero, ◌+D◌, ◌-D◌, ◌≤D◌, ◌≈◌, ltb_D, max_D}
use p2p_treker.Decimal.Order.{≈_refl, at_eq, le_at, decimal_laws}
use p2p_treker.Decimal.Key.{max_D-cases}
use p2p_treker.Models.{Exchange, exchange_key}
use p2p_treker.PaperTrading.Balance.{
  AssetBalance, Balances, account_key, available_of, reserve, release, settle, credit, debit, get,
  write,
}
use p2p_treker.PaperTrading.Balance.Invariant.{
  account, account-get, get-account, account-write, reserve-short, reserve-enough, debit-short,
  debit-enough,
}

-- Funds that were locked and are freed again leave the lock as it was.
pub lock_restored : (l t : Decimal) → d_zero ≤D l → max_D d_zero (l +D t -D t) ≈ l
lock_restored l t p =
    let k = l.scale + t.scale in
    elim (max_D-cases d_zero (l +D t -D t)) [
      | inl (e, h) ↦
          rw e (at_eq k _ _ (omega decimal_laws) (omega decimal_laws) (omega decimal_laws))
      | inr (e, h) ↦ rw e (
          at_eq k _ _ (omega decimal_laws) (omega decimal_laws) (
            omega (
              decimal_laws,
              le_at k d_zero l (omega arith) (omega arith) p,
              le_at k (l +D t -D t) d_zero (omega decimal_laws) (omega arith) h,
            )))
    ]

module _ (m : Balances) (x : Exchange) (a : String) where
  pub account-reserve-short :
      (t : Decimal) (j : Exchange × String)
      → ltb_D (available_of (get m x a).1) t ≡ true
      → account (reserve m x a t).0 j ≡ account m j
  account-reserve-short t j h = rw (reserve-short m x a t h) (account-get m x a j)

  pub account-written :
      (b : AssetBalance) (j : Exchange × String)
      → account (write (get m x a).0 x a b) j
        ≡ (if account_key.beq (x, a) j then b else account m j)
  account-written b j = ground (arith, account-write (get m x a).0 x a b j, account-get m x a j)

  pub account-reserve-enough :
      (t : Decimal) (j : Exchange × String)
      → ltb_D (available_of (get m x a).1) t ≡ false
      → account (reserve m x a t).0 j ≡ (
          if account_key.beq (x, a) j
          then record (account m (x, a)) { locked = (account m (x, a)).locked +D t }
          else account m j)
  account-reserve-enough t j h =
      rw (reserve-enough m x a t h, account-written _ j, get-account m x a) refl

  pub account-release :
      (t : Decimal) (j : Exchange × String)
      → account (release m x a t) j ≡ (
          if account_key.beq (x, a) j
          then record (account m (x, a)) { locked = max_D d_zero ((account m (x, a)).locked -D t) }
          else account m j)
  unfolding release
  account-release t j = rw (account-written _ j, get-account m x a) refl

  pub account-settle :
      (r t : Decimal) (j : Exchange × String)
      → account (settle m x a r t) j ≡ (
          if account_key.beq (x, a) j
          then record (account m (x, a)) {
            total = (account m (x, a)).total -D t;
            locked = max_D d_zero ((account m (x, a)).locked -D r);
          }
          else account m j)
  unfolding settle
  account-settle r t j = rw (account-written _ j, get-account m x a) refl

-- The two outcomes of `debit`, and `credit`.
module _ (m : Balances) (x : Exchange) (a : String) (t : Decimal) where
  pub debit_refused :
      ltb_D (available_of (account m (x, a))) t ≡ true → debit m x a t ≡ ((get m x a).0, false)
  debit_refused h = debit-short m x a t (rw (get-account m x a) h)

  pub debit_accepted :
      ltb_D (available_of (account m (x, a))) t ≡ false
      → debit m x a t ≡ (
        write
            (get m x a).0
            x
            a
            (record (account m (x, a)) { total = (account m (x, a)).total -D t }),
        true,
      )
  debit_accepted h = rw (← get-account m x a) (debit-enough m x a t (rw (get-account m x a) h))

  pub account-credit :
      (j : Exchange × String)
      → account (credit m x a t) j ≡ (
          if account_key.beq (x, a) j
          then record (account m (x, a)) { total = (account m (x, a)).total +D t }
          else account m j)
  unfolding credit
  account-credit j = rw (account-written m x a _ j, get-account m x a) refl

-- The account of a call after the call.
pub account_self :
    (x : Exchange) (a : String) (b c : AssetBalance)
    → (if account_key.beq (x, a) (x, a) then b else c) ≡ b
account_self x a b c = ground (arith, account_key.beq_refl (x, a))

-- The balance of the account has lost `paid`, and as much of it is locked as before.
pub record Paid (before after : AssetBalance) (paid : Decimal) : Type 0 where
  pub total : after.total ≈ before.total -D paid
  pub locked : after.locked ≈ before.locked

pub sub_zero_D : (d : Decimal) → d ≈ d -D d_zero
sub_zero_D d = at_eq d.scale _ _ (omega arith) (omega decimal_laws) (omega decimal_laws)

module _ (m : Balances) (x : Exchange) (a : String) (t : Decimal)
    (h : (reserve m x a t).1 ≡ true) where
  enough_of_reserved : ltb_D (available_of (get m x a).1) t ≡ false
  enough_of_reserved = elim (Bool-cases (ltb_D (available_of (get m x a).1) t)) [
    | inl short ↦ absurd (let r = rw (reserve-short m x a t short) at h in cc)
    | inr enough ↦ enough
  ]

  reserved_account :
      account (reserve m x a t).0 (x, a)
      ≡ record (account m (x, a)) { locked = (account m (x, a)).locked +D t }
  reserved_account =
      rw (account-reserve-enough m x a t (x, a) enough_of_reserved, account_self x a _ _) refl

  -- A successful reservation that is released leaves the total and the lock as they were, when no
  -- negative amount was locked.
  pub release-reserve :
      d_zero ≤D (account m (x, a)).locked
      → Paid (account m (x, a)) (account (release (reserve m x a t).0 x a t) (x, a)) d_zero
  release-reserve p =
      rw (account-release (reserve m x a t).0 x a t (x, a), account_self x a _ _, reserved_account)
        (record { total = sub_zero_D _; locked = lock_restored _ t p })

  -- A successful reservation that is settled for `paid` takes that from the total and leaves the
  -- lock as it was, when no negative amount was locked.
  pub settle-reserve :
      (paid : Decimal)
      → d_zero ≤D (account m (x, a)).locked
      → Paid (account m (x, a)) (account (settle (reserve m x a t).0 x a t paid) (x, a)) paid
  settle-reserve paid p =
      rw
        (
          account-settle (reserve m x a t).0 x a t paid (x, a),
          account_self x a _ _,
          reserved_account,
        )
        (record { total = ≈_refl _; locked = lock_restored _ t p })

-- A refused reservation changes what no account shows.
pub reserve-refused :
    (m : Balances) (x : Exchange) (a : String) (t : Decimal) (j : Exchange × String)
    → (reserve m x a t).1 ≡ false
    → account (reserve m x a t).0 j ≡ account m j
reserve-refused m x a t j h = elim (Bool-cases (ltb_D (available_of (get m x a).1) t)) [
  | inl short ↦ account-reserve-short m x a t j short
  | inr enough ↦ absurd (let r = rw (reserve-enough m x a t enough) at h in cc)
]
