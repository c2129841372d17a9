-- ===== src/PaperTrading/Balance/Invariant.antt =====
-- Every call changes one account only, and keeps all accounts solvent.
use p2p_treker.Prelude.{
  ◌≡◌, refl, inl, inr, true, false, String, All, Bool-cases, Option-cases, arith, if◌then◌else◌,
}
use p2p_treker.Prelude.Dict.{lookup, lookup_or, lookup_congr, lookup-insert, lookup-All, insert-All}
use p2p_treker.Decimal.{Decimal, d_zero, ◌+D◌, ◌-D◌, ◌≤D◌, ltb_D, max_D}
use p2p_treker.Decimal.Order.{≤D_trans, sub_nonneg}
use p2p_treker.Decimal.Key.{≤D_refl, not-ltb_D, max_D-cases, le-max_D_left}
use p2p_treker.Decimal.Linear.{
  add_nonneg, add-le_of_le-sub, sub-le_self, sub_mono, le-add_left, le-sub_of_le-sub,
}
use p2p_treker.Models.{Exchange}
use p2p_treker.PaperTrading.Balance.{
  AssetBalance, Balances, account_key, available_of, set_balance, get, get_or_open, reserve,
  release, settle, credit, debit, write,
}

abbrev pub no_funds : AssetBalance
no_funds = record { total = d_zero; locked = d_zero }

-- What an account shows: an absent one shows nothing.
abbrev pub account : Balances → Exchange × String → AssetBalance
account m k = lookup_or k no_funds m

-- The locked funds are not negative, and the account covers them.
pub record IsSolvent (b : AssetBalance) : Type 0 where
  pub locked_nonneg : d_zero ≤D b.locked
  pub covered : b.locked ≤D b.total

abbrev pub AllSolvent : Balances → Type 0
AllSolvent = All (λ entry. IsSolvent entry.1)

pub no_funds-IsSolvent : IsSolvent no_funds
no_funds-IsSolvent = record { locked_nonneg = ≤D_refl d_zero; covered = ≤D_refl d_zero }

pub get-account : (m : Balances) (x : Exchange) (a : String) → (get m x a).1 ≡ account m (x, a)
unfolding get
get-account m x a = ground arith

pub account-get :
    (m : Balances) (x : Exchange) (a : String) (j : Exchange × String)
    → account (get m x a).0 j ≡ account m j
unfolding get
account-get m x a j = ground (arith, lookup-insert (x, a) j no_funds m, lookup_congr (x, a) j m)

pub account-write :
    (m : Balances) (x : Exchange) (a : String) (b : AssetBalance) (j : Exchange × String)
    → account (write m x a b) j ≡ (if account_key.beq (x, a) j then b else account m j)
unfolding write
account-write m x a b j = ground (arith, lookup-insert (x, a) j b m)

pub get-AllSolvent :
    (m : Balances) (x : Exchange) (a : String)
    → AllSolvent m
    → AllSolvent (get m x a).0 × IsSolvent (get m x a).1
unfolding get
get-AllSolvent m x a h = elim (Option-cases (lookup (x, a) m)) [
  | inl e ↦
      rw (e, get_or_open)
        (insert-All IsSolvent (x, a) no_funds m no_funds-IsSolvent h, no_funds-IsSolvent)
  | inr (b, e) ↦ rw (e, get_or_open) (h, lookup-All IsSolvent (x, a) m h b e)
]

write-AllSolvent :
    (m : Balances) (x : Exchange) (a : String) (b : AssetBalance)
    → IsSolvent b
    → AllSolvent m
    → AllSolvent (write m x a b)
unfolding write
write-AllSolvent m x a b p h = insert-All IsSolvent (x, a) b m p h

-- The calls that change balances.
pub data Call : Type 0 where
  sets : Exchange → String → Decimal → Call
  reserves : Exchange → String → Decimal → Call
  releases : Exchange → String → Decimal → Call
  settles : Exchange → String → Decimal → Decimal → Call
  credits : Exchange → String → Decimal → Call
  debits : Exchange → String → Decimal → Call

abbrev pub step : Balances → Call → Balances
step m (sets x a total) = set_balance m x a total
step m (reserves x a amount) = (reserve m x a amount).0
step m (releases x a amount) = release m x a amount
step m (settles x a reserved actual) = settle m x a reserved actual
step m (credits x a amount) = credit m x a amount
step m (debits x a amount) = (debit m x a amount).0

abbrev pub target : Call → Exchange × String
target (sets x a _) = (x, a)
target (reserves x a _) = (x, a)
target (releases x a _) = (x, a)
target (settles x a _ _) = (x, a)
target (credits x a _) = (x, a)
target (debits x a _) = (x, a)

-- Amounts are not negative, and a settlement costs no more than it had reserved.
abbrev pub IsAdmissible : Balances → Call → Type 0
IsAdmissible m (sets x a total) = d_zero ≤D total
IsAdmissible m (reserves x a amount) = d_zero ≤D amount
IsAdmissible m (releases x a amount) = d_zero ≤D amount
IsAdmissible m (settles x a reserved actual) =
    (d_zero ≤D reserved) × (actual ≤D reserved) × (reserved ≤D (account m (x, a)).locked)
IsAdmissible m (credits x a amount) = d_zero ≤D amount
IsAdmissible m (debits x a amount) = d_zero ≤D amount

written_others :
    (m : Balances) (x : Exchange) (a : String) (b : AssetBalance) (j : Exchange × String)
    → account_key.beq (x, a) j ≡ false
    → account (write (get m x a).0 x a b) j ≡ account m j
written_others m x a b j h =
    ground (arith, account-write (get m x a).0 x a b j, account-get m x a j)

-- The two outcomes of the calls that test the available funds.
module _ (m : Balances) (x : Exchange) (a : String) (t : Decimal) where
  pub reserve-short :
      ltb_D (available_of (get m x a).1) t ≡ true → reserve m x a t ≡ ((get m x a).0, false)
  unfolding reserve
  reserve-short h = rw h refl

  pub reserve-enough :
      ltb_D (available_of (get m x a).1) t ≡ false
      → reserve m x a t ≡ (
        write (get m x a).0 x a (record (get m x a).1 { locked = (get m x a).1.locked +D t }),
        true,
      )
  unfolding reserve
  reserve-enough h = rw h refl

  pub debit-short :
      ltb_D (available_of (get m x a).1) t ≡ true → debit m x a t ≡ ((get m x a).0, false)
  unfolding debit
  debit-short h = rw h refl

  pub debit-enough :
      ltb_D (available_of (get m x a).1) t ≡ false
      → debit m x a t ≡ (
        write (get m x a).0 x a (record (get m x a).1 { total = (get m x a).1.total -D t }),
        true,
      )
  unfolding debit
  debit-enough h = rw h refl

-- A call changes the account that it names and no other.
pub step_others :
    (m : Balances) (c : Call) (j : Exchange × String)
    → account_key.beq (target c) j ≡ false
    → account (step m c) j ≡ account m j
unfolding set_balance release settle credit
step_others m (sets x a t) j h =
    ground (arith, lookup-insert (x, a) j (record { total = t; locked = d_zero }) m)
step_others m (reserves x a t) j h = elim (Bool-cases (ltb_D (available_of (get m x a).1) t)) [
  | inl short ↦ rw (reserve-short m x a t short, step) (account-get m x a j)
  | inr enough ↦ rw (reserve-enough m x a t enough, step) (written_others m x a _ j h)
]
step_others m (releases x a t) j h = written_others m x a _ j h
step_others m (settles x a r t) j h = written_others m x a _ j h
step_others m (credits x a t) j h = written_others m x a _ j h
step_others m (debits x a t) j h = elim (Bool-cases (ltb_D (available_of (get m x a).1) t)) [
  | inl short ↦ rw (debit-short m x a t short, step) (account-get m x a j)
  | inr enough ↦ rw (debit-enough m x a t enough, step) (written_others m x a _ j h)
]

-- Each new balance is solvent.
reserved-IsSolvent :
    (b : AssetBalance) (t : Decimal)
    → d_zero ≤D t
    → ltb_D (available_of b) t ≡ false
    → IsSolvent b
    → IsSolvent (record b { locked = b.locked +D t })
unfolding available_of
reserved-IsSolvent b t p enough v = record {
  locked_nonneg = add_nonneg b.locked t v.locked_nonneg p;
  covered = add-le_of_le-sub b.locked t b.total (not-ltb_D (b.total -D b.locked) t enough);
}

credited-IsSolvent :
    (b : AssetBalance) (t : Decimal)
    → d_zero ≤D t
    → IsSolvent b
    → IsSolvent (record b { total = b.total +D t })
credited-IsSolvent b t p v = record {
  locked_nonneg = v.locked_nonneg;
  covered = ≤D_trans _ _ _ v.covered (le-add_left b.total b.total t (≤D_refl b.total) p);
}

debited-IsSolvent :
    (b : AssetBalance) (t : Decimal)
    → ltb_D (available_of b) t ≡ false
    → IsSolvent b
    → IsSolvent (record b { total = b.total -D t })
unfolding available_of
debited-IsSolvent b t enough v = record {
  locked_nonneg = v.locked_nonneg;
  covered = le-sub_of_le-sub b.locked t b.total (not-ltb_D (b.total -D b.locked) t enough);
}

released-le :
    (locked r : Decimal) → d_zero ≤D locked → d_zero ≤D r → max_D d_zero (locked -D r) ≤D locked
released-le locked r p q = elim (max_D-cases d_zero (locked -D r)) [
  | inl (e, h) ↦ rw e (sub-le_self locked r q)
  | inr (e, h) ↦ rw e p
]

released-IsSolvent :
    (b : AssetBalance) (t : Decimal)
    → d_zero ≤D t
    → IsSolvent b
    → IsSolvent (record b { locked = max_D d_zero (b.locked -D t) })
released-IsSolvent b t p v = record {
  locked_nonneg = le-max_D_left d_zero (b.locked -D t);
  covered = ≤D_trans _ _ _ (released-le b.locked t v.locked_nonneg p) v.covered;
}

settled-IsSolvent :
    (b : AssetBalance) (r t : Decimal)
    → t ≤D r
    → r ≤D b.locked
    → IsSolvent b
    → IsSolvent (record b { total = b.total -D t; locked = max_D d_zero (b.locked -D r) })
settled-IsSolvent b r t p q v = record {
  locked_nonneg = le-max_D_left d_zero (b.locked -D r);
  covered = elim (max_D-cases d_zero (b.locked -D r)) [
    | inl (e, h) ↦ rw e (sub_mono b.locked b.total r t v.covered p)
    | inr (e, h) ↦
        rw e
          (sub_nonneg t b.total (≤D_trans t r b.total p (≤D_trans r b.locked b.total q v.covered)))
  ];
}

-- A call with a non-negative amount, or a settlement of a non-negative reservation that is locked
-- for no more than the reservation, keeps every account solvent: its lock is not negative, and its
-- total covers the lock.
pub step-AllSolvent :
    (m : Balances) (c : Call) → IsAdmissible m c → AllSolvent m → AllSolvent (step m c)
unfolding set_balance release settle credit
step-AllSolvent m (sets x a t) p h =
    insert-All IsSolvent (x, a) _ m (record { locked_nonneg = ≤D_refl d_zero; covered = p }) h
step-AllSolvent m (reserves x a t) p h =
    let (h', v) = get-AllSolvent m x a h in
    elim (Bool-cases (ltb_D (available_of (get m x a).1) t)) [
      | inl short ↦ rw (reserve-short m x a t short, step) h'
      | inr enough ↦
          rw (reserve-enough m x a t enough, step)
            (write-AllSolvent _ x a _ (reserved-IsSolvent (get m x a).1 t p enough v) h')
    ]
step-AllSolvent m (releases x a t) p h =
    let (h', v) = get-AllSolvent m x a h in
    write-AllSolvent _ x a _ (released-IsSolvent (get m x a).1 t p v) h'
step-AllSolvent m (settles x a r t) p h =
    let (h', v) = get-AllSolvent m x a h in
    write-AllSolvent _ x a _
      (settled-IsSolvent (get m x a).1 r t p.1 (rw (get-account m x a) p.2) v) h'
step-AllSolvent m (credits x a t) p h =
    let (h', v) = get-AllSolvent m x a h in
    write-AllSolvent _ x a _ (credited-IsSolvent (get m x a).1 t p v) h'
step-AllSolvent m (debits x a t) p h =
    let (h', v) = get-AllSolvent m x a h in
    elim (Bool-cases (ltb_D (available_of (get m x a).1) t)) [
      | inl short ↦ rw (debit-short m x a t short, step) h'
      | inr enough ↦
          rw (debit-enough m x a t enough, step)
            (write-AllSolvent _ x a _ (debited-IsSolvent (get m x a).1 t enough v) h')
    ]
