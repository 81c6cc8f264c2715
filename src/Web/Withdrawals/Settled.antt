-- ===== src/Web/Withdrawals/Settled.antt =====
-- The deposits of the dashboard under the two updates of a withdrawal.
use skaus.Prelude.{
  ℕ, ◌+◌, ◌≡◌, refl, sym, String, true, false, inl, inr, Option, none, some, List, [], ◌∷◌, ◌++◌,
  if◌then◌else◌, str_eq, eq_iff, Bool-cases, arith,
}
use skaus.Wallet.Scan.{ScannedDeposit}
use skaus.Web.Withdrawals.{
  withdrawn, error, DashboardDeposit, is_available, find_deposit, update_deposit, total_balance,
  Outcome, sent, failed, to_withdrawing, settle, message_of,
}

-- No two deposits of the list have one id.
abbrev pub Distinct : List DashboardDeposit → Type 0
Distinct [] = Unit {0}
Distinct (d ∷ ds) = (find_deposit d.deposit.id ds ≡ none) × Distinct ds

abbrev pub amounts : List ScannedDeposit → ℕ
amounts [] = 0
amounts (d ∷ ds) = d.amount + amounts ds

-- How often an id is among the deposits.
abbrev pub times : String → List ScannedDeposit → ℕ
times id [] = 0
times id (d ∷ ds) = (if str_eq d.id id then 1 else 0) + times id ds

-- How often a deposit with the id was handed to `executeWithdraw`.
abbrev pub called : String → List (ScannedDeposit × List ℕ) → ℕ
called id [] = 0
called id ((d, root) ∷ rest) = (if str_eq d.id id then 1 else 0) + called id rest

pub called-append :
    (id : String) (xs ys : List (ScannedDeposit × List ℕ))
    → called id (xs ++ ys) ≡ called id xs + called id ys
called-append id [] ys = omega arith
called-append id ((d, root) ∷ xs) ys = omega (arith, called-append id xs ys)

pub amounts-append :
    (xs : List ScannedDeposit) (d : ScannedDeposit) → amounts (xs ++ d ∷ []) ≡ amounts xs + d.amount
amounts-append [] d = omega arith
amounts-append (x ∷ xs) d = omega (arith, amounts-append xs d)

pub times-append :
    (id : String) (xs : List ScannedDeposit) (d : ScannedDeposit)
    → times id (xs ++ d ∷ []) ≡ times id xs + (if str_eq d.id id then 1 else 0)
times-append id [] d = ground arith
times-append id (x ∷ xs) d = omega (arith, times-append id xs d)

-- What an update does to the deposit that is found.
abbrev pub onto :
    (DashboardDeposit → DashboardDeposit) → Option DashboardDeposit → Option DashboardDeposit
onto f none = none
onto f (some d) = some (f d)

pub find_deposit-id :
    (id : String) (ds : List DashboardDeposit) (d : DashboardDeposit)
    → find_deposit id ds ≡ some d
    → d.deposit.id ≡ id
unfolding find_deposit
find_deposit-id id [] d h = cc
find_deposit-id id (x ∷ xs) d h = ground (arith, eq_iff x.deposit.id id, find_deposit-id id xs d)

module _ (f : DashboardDeposit → DashboardDeposit)
    (same : (d : DashboardDeposit) → (f d).deposit ≡ d.deposit) where
  pub find_deposit-update_deposit :
      (k id : String) (ds : List DashboardDeposit)
      → find_deposit k (update_deposit id f ds)
        ≡ (if str_eq id k then onto f (find_deposit k ds) else find_deposit k ds)
  unfolding find_deposit update_deposit
  find_deposit-update_deposit k id [] = ground arith
  find_deposit-update_deposit k id (d ∷ ds) = ground (
    arith,
    same d,
    eq_iff d.deposit.id id,
    eq_iff d.deposit.id k,
    eq_iff id k,
    find_deposit-update_deposit k id ds,
  )

  update_deposit-absent :
      (id : String) (ds : List DashboardDeposit)
      → find_deposit id ds ≡ none
      → update_deposit id f ds ≡ ds
  unfolding find_deposit update_deposit
  update_deposit-absent id [] h = refl
  update_deposit-absent id (d ∷ ds) h = ground (arith, update_deposit-absent id ds)

  pub update_deposit-Distinct :
      (id : String) (ds : List DashboardDeposit) → Distinct ds → Distinct (update_deposit id f ds)
  unfolding update_deposit
  update_deposit-Distinct id [] h = tt
  update_deposit-Distinct id (d ∷ ds) (fresh, h) = ground (
    arith,
    same d,
    find_deposit-update_deposit d.deposit.id id ds,
    update_deposit-Distinct id ds h,
  )

  -- The balance falls by the amount of the deposit that is no longer available.
  pub total_balance-update_deposit :
      (id : String) (ds : List DashboardDeposit) (d : DashboardDeposit)
      → Distinct ds
      → find_deposit id ds ≡ some d
      → is_available d.status ≡ true
      → is_available (f d).status ≡ false
      → total_balance ds ≡ total_balance (update_deposit id f ds) + d.deposit.amount
  unfolding find_deposit update_deposit total_balance
  total_balance-update_deposit id [] d h e a b = cc
  total_balance-update_deposit id (x ∷ xs) d (fresh, h) e a b =
      elim (Bool-cases (str_eq x.deposit.id id)) [
        | inl y ↦
            let gone : find_deposit id xs ≡ none = rw (sym ((eq_iff x.deposit.id id).0 y)) fresh in
            ground (arith, same d, update_deposit-absent id xs gone)
        | inr n ↦ ground (arith, total_balance-update_deposit id xs d h)
      ]

unfoldable pub both : Outcome → DashboardDeposit → DashboardDeposit
both o d = settle o (to_withdrawing d)

pub both-deposit : (o : Outcome) (d : DashboardDeposit) → (both o d).deposit ≡ d.deposit
unfolding both
both-deposit (sent s) d = refl
both-deposit (failed m) d = refl

pub both-unavailable : (o : Outcome) (d : DashboardDeposit) → is_available (both o d).status ≡ false
unfolding both
both-unavailable (sent s) d = refl
both-unavailable (failed m) d = refl

pub update_deposit-both :
    (id : String) (o : Outcome) (ds : List DashboardDeposit)
    → update_deposit id (settle o) (update_deposit id to_withdrawing ds)
      ≡ update_deposit id (both o) ds
unfolding update_deposit both
update_deposit-both id o [] = refl
update_deposit-both id o (d ∷ ds) = ground (arith, update_deposit-both id o ds)

-- A deposit behind the attempt to withdraw it: it has the signature, or the error's message.
abbrev pub IsSettled : Outcome → DashboardDeposit → Type 0
IsSettled (sent signature) d = (d.status ≡ withdrawn) × (d.withdraw_tx ≡ some signature)
IsSettled (failed message) d = (d.status ≡ error) × (d.withdraw_error ≡ some (message_of message))

pub IsSettled-both : (o : Outcome) (d : DashboardDeposit) → IsSettled o (both o d)
unfolding both
IsSettled-both (sent s) d = (refl, refl)
IsSettled-both (failed m) d = (refl, refl)

pub IsSettled-unavailable :
    (o : Outcome) (d : DashboardDeposit) → IsSettled o d → is_available d.status ≡ false
IsSettled-unavailable (sent s) d (e, t) = rw e
IsSettled-unavailable (failed m) d (e, t) = rw e
