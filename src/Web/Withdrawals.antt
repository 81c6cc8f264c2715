-- ===== src/Web/Withdrawals.antt =====
-- apps/web/src/app/dashboard/page.tsx: the deposits that the dashboard shows, their selection, and the
-- withdrawals that it starts. The page is drawn anew before an `await` returns, so that a round of the
-- loop reads the deposits as the rounds before it left them. What the chain, the prover and the gateway
-- answer in a round is an argument.
pub mod Settled
pub mod Ends
pub mod Handled
pub mod Confirm
use skaus.Prelude.{
  ℕ, suc, ◌+◌, String, Bool, true, false, not, Option, none, some, List, [], ◌∷◌, ◌++◌, leb,
  if◌then◌else◌, str_eq, length, replicate,
}
use skaus.Prelude.Bytes.{Bytes, slice}
use skaus.Withdraw.Hex.{byte_digits, Groth16Proof}
use skaus.Withdraw.Flow.{CircuitInputs, WithdrawRequest, execute_withdraw}
use skaus.Wallet.Scan.{ScannedDeposit}

pub data DepositStatus : Type 0 where
  available withdrawing withdrawn error : DepositStatus

pub record DashboardDeposit : Type 0 where
  pub deposit : ScannedDeposit
  pub status : DepositStatus
  pub withdraw_tx : Option String
  pub withdraw_error : Option String

-- `running` and `progress` are what the modal shows.
pub record Dashboard : Type 0 where
  pub deposits : List DashboardDeposit
  pub selected : List String
  pub modal : Option (List String)
  pub address_error : Bool
  pub running : Bool
  pub progress : ℕ × ℕ

abbrev pub is_available : DepositStatus → Bool
is_available available = true
is_available withdrawing = false
is_available withdrawn = false
is_available error = false

abbrev pub is_withdrawn : DepositStatus → Bool
is_withdrawn available = false
is_withdrawn withdrawing = false
is_withdrawn withdrawn = true
is_withdrawn error = false

-- `find(d => d.id === id)`
unfoldable pub find_deposit : String → List DashboardDeposit → Option DashboardDeposit
find_deposit id [] = none
find_deposit id (d ∷ ds) = if str_eq d.deposit.id id then some d else find_deposit id ds

-- `find(d => d.id === id)?.status === 'available'`
abbrev pub available_of : Option DashboardDeposit → Bool
available_of none = false
available_of (some d) = is_available d.status

unfoldable pub has_available : List DashboardDeposit → String → Bool
has_available ds id = available_of (find_deposit id ds)

-- `prev.map(d => d.id === id ? ... : d)`
unfoldable pub update_deposit :
    String → (DashboardDeposit → DashboardDeposit) → List DashboardDeposit → List DashboardDeposit
update_deposit id f [] = []
update_deposit id f (d ∷ ds) = (if str_eq d.deposit.id id then f d else d) ∷ update_deposit id f ds

-- `ids.filter(...)`
unfoldable pub keep : (String → Bool) → List String → List String
keep test [] = []
keep test (id ∷ ids) = let rest = keep test ids in if test id then id ∷ rest else rest

unfoldable pub includes : String → List String → Bool
includes id [] = false
includes id (k ∷ ks) = if str_eq k id then true else includes id ks

-- `toggleDepositSelected`; the deletion is also that behind a withdrawal.
unfoldable pub deselect : String → List String → List String
deselect id = keep (λ k. not (str_eq k id))

unfoldable pub toggle_deposit_selected : String → List String → List String
toggle_deposit_selected id selected =
    if includes id selected then deselect id selected else selected ++ id ∷ []

-- `openWithdrawModal`
unfoldable pub open_withdraw_modal : List String → Dashboard → Dashboard
open_withdraw_modal ids p = elim (keep (has_available p.deposits) ids) [
  | [] ↦ p
  | id ∷ rest ↦ record p { modal = some (id ∷ rest) }
]

-- `totalBalance`
unfoldable pub total_balance : List DashboardDeposit → ℕ
total_balance [] = 0
total_balance (d ∷ ds) = (if is_available d.status then d.deposit.amount else 0) + total_balance ds

pub data ActivityFilter : Type 0 where
  all incoming outgoing : ActivityFilter

abbrev pub passes : ActivityFilter → DepositStatus → Bool
passes all s = true
passes incoming s = is_available s
passes outgoing s = is_withdrawn s

-- `filteredDeposits`
unfoldable pub filtered_deposits : ActivityFilter → List DashboardDeposit → List DashboardDeposit
filtered_deposits filter [] = []
filtered_deposits filter (d ∷ ds) =
    let rest = filtered_deposits filter ds in if passes filter d.status then d ∷ rest else rest

-- What a round is answered: the query of the pool's root, the account that the fee is read from, the
-- prover, and the gateway, which gives a signature. A message stands for an exception.
pub record Round : Type 0 where
  pub root_query : Option (Option Bytes)
  pub root_error : String
  pub pool_account : Option Bytes
  pub prove : CircuitInputs → Option Groth16Proof
  pub prove_error : String
  pub submit : WithdrawRequest → Option String
  pub submit_error : String

pub data Outcome : Type 0 where
  sent failed : String → Outcome

-- `fetchMerkleRootHex`
unfoldable pub merkle_root_hex : Option Bytes → List ℕ
merkle_root_hex none = replicate 64 0
merkle_root_hex (some account) =
    if leb 159 (length account) then byte_digits (slice 127 159 account) else replicate 64 0

abbrev pub outcome_of : String → Option String → Outcome
outcome_of message none = failed message
outcome_of message (some signature) = sent signature

-- `err.message || 'Withdraw failed'`
unfoldable pub message_of : String → String
message_of message = if str_eq message "" then "Withdraw failed" else message

abbrev pub to_withdrawing : DashboardDeposit → DashboardDeposit
to_withdrawing d = record d { status = withdrawing; withdraw_error = none }

abbrev pub settle : Outcome → DashboardDeposit → DashboardDeposit
settle (sent signature) d = record d {
  status = withdrawn;
  withdraw_tx = some signature;
  withdraw_error = none;
}
settle (failed message) d = record d { status = error; withdraw_error = some (message_of message) }

abbrev pub deselected : Outcome → String → List String → List String
deselected (sent signature) id selected = deselect id selected
deselected (failed message) id selected = selected

-- The page, the deposits that rounds set to withdrawing so far, and the calls of `executeWithdraw`: the
-- deposit and the root that each was given.
pub record Progress : Type 0 where
  pub page : Dashboard
  pub begun : List ScannedDeposit
  pub calls : List (ScannedDeposit × List ℕ)

module _ (poseidon : List ℕ → ℕ) (demo : Bool) (decode : String → Option Bytes) (rounds : ℕ → Round)
    (recipient : String) where
  unfoldable pub submit_request : Round → Option WithdrawRequest → Outcome
  submit_request r none = failed r.prove_error
  submit_request r (some q) = outcome_of r.submit_error (r.submit q)

  -- The result, and the calls of `executeWithdraw`: none where the query of the root throws.
  unfoldable pub withdraw_with_root :
      Round → Option (Option Bytes) → ScannedDeposit → Outcome × List (ScannedDeposit × List ℕ)
  withdraw_with_root r none d = (failed r.root_error, [])
  withdraw_with_root r (some account) d = (
    submit_request r (
        execute_withdraw poseidon demo r.pool_account (decode recipient) r.prove d recipient
          (merkle_root_hex account)),
    (d, merkle_root_hex account) ∷ [],
  )

  -- The body of the `try`.
  unfoldable pub attempt : ℕ → ScannedDeposit → Outcome × List (ScannedDeposit × List ℕ)
  attempt i d = withdraw_with_root (rounds i) (rounds i).root_query d

  -- The two updates of the page around the attempt.
  unfoldable pub settled_page : String → Outcome → Dashboard → Dashboard
  settled_page id outcome p = record p {
    deposits = update_deposit id (settle outcome) (update_deposit id to_withdrawing p.deposits);
    selected = deselected outcome id p.selected;
  }

  unfoldable pub withdraw_found : ℕ → String → Option DashboardDeposit → Progress → Progress
  withdraw_found i id none s = s
  withdraw_found i id (some d) s =
      if is_available d.status
      then record {
        page = settled_page id (attempt i d.deposit).0 s.page;
        begun = s.begun ++ d.deposit ∷ [];
        calls = s.calls ++ (attempt i d.deposit).1;
      }
      else s

  -- One round of the loop.
  unfoldable pub withdraw_round : ℕ → String → Progress → Progress
  withdraw_round i id s =
      let page = record s.page { progress = (suc i, s.page.progress.1) } in
      withdraw_found i id (find_deposit id s.page.deposits) (record s { page = page })

  unfoldable pub withdraw_from : ℕ → List String → Progress → Progress
  withdraw_from i [] s = s
  withdraw_from i (id ∷ ids) s = withdraw_from (suc i) ids (withdraw_round i id s)

  unfoldable pub finished : Progress → Progress
  finished s = record s { page = record s.page { running = false; modal = none } }

  -- `confirmWithdraw` behind the check of the address, on the ids that are still available.
  unfoldable pub confirm_available : List String → Dashboard → Progress
  confirm_available [] p = record { page = record p { modal = none }; begun = []; calls = [] }
  confirm_available (id ∷ ids) p =
      let started = record p { running = true; progress = (0, length (id ∷ ids)) } in
      finished (withdraw_from 0 (id ∷ ids) (record { page = started; begun = []; calls = [] }))

  unfoldable pub confirm_checked : Option Bytes → List String → Dashboard → Progress
  confirm_checked none ids p = record {
    page = record p { address_error = true };
    begun = [];
    calls = [];
  }
  confirm_checked (some key) ids p =
      confirm_available (keep (has_available p.deposits) ids) (record p { address_error = false })

  unfoldable pub confirm_ids : List String → Dashboard → Progress
  confirm_ids [] p = record { page = p; begun = []; calls = [] }
  confirm_ids (id ∷ ids) p =
      if str_eq recipient ""
      then record { page = p; begun = []; calls = [] }
      else confirm_checked (decode recipient) (id ∷ ids) p

  unfoldable pub confirm_modal : Option (List String) → Dashboard → Progress
  confirm_modal none p = record { page = p; begun = []; calls = [] }
  confirm_modal (some ids) p = confirm_ids ids p

  -- `confirmWithdraw`, with the address already trimmed.
  unfoldable pub confirm_withdraw : Dashboard → Progress
  confirm_withdraw p = confirm_modal p.modal p
