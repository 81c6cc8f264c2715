-- ===== src/Web/Withdrawals/Confirm.antt =====
-- What the withdrawals of the dashboard come to.
use skaus.Prelude.{
  ℕ, suc, ◌≡◌, refl, ap, String, Bool, false, inl, inr, Option, none, some, List, [], ◌∷◌, str_eq,
  Bool-cases,
}
use skaus.Prelude.Bytes.{Bytes}
use skaus.Web.Withdrawals.{
  DashboardDeposit, Dashboard, is_available, find_deposit, has_available, keep, Round, Progress,
  attempt, settled_page, withdraw_found, withdraw_round, withdraw_from, finished, confirm_available,
  confirm_checked, confirm_ids, confirm_modal, confirm_withdraw,
}
use skaus.Web.Withdrawals.Settled.{Distinct, update_deposit-both}
use skaus.Web.Withdrawals.Ends.{attempt-Ends}
use skaus.Web.Withdrawals.Handled.{
  Handles, Handles-none, Handles-skip, Handles-one, Handles-next, Handles-keep,
}

-- What the rounds are answered, and where the withdrawals go.
module _ (poseidon : List ℕ → ℕ) (demo : Bool) (decode : String → Option Bytes) (rounds : ℕ → Round)
    (recipient : String) where
  -- A round handles its id.
  withdraw_found-Handles :
      (i : ℕ) (id : String) (o : Option DashboardDeposit) (s : Progress)
      → Distinct s.page.deposits
      → find_deposit id s.page.deposits ≡ o
      → let s' = withdraw_found poseidon demo decode rounds recipient i id o s in
        Handles poseidon demo decode rounds recipient
          (id ∷ [])
          s.page.deposits
          s.begun
          s.calls
          s'.page.deposits
          s'.begun
          s'.calls
  unfolding withdraw_found settled_page has_available
  withdraw_found-Handles i id none s h e =
      Handles-skip poseidon demo decode rounds recipient id s.page.deposits s.begun s.calls h (rw e)
  withdraw_found-Handles i id (some d) s h e = elim (Bool-cases (is_available d.status)) [
    | inl a ↦
        let o = attempt poseidon demo decode rounds recipient i d.deposit in
        rw (a, update_deposit-both id o.0 s.page.deposits)
          (Handles-one poseidon demo decode rounds recipient i id o.0 o.1 d s.page.deposits s.begun
            s.calls (attempt-Ends poseidon demo decode rounds recipient i d.deposit) h e a)
    | inr a ↦ rw a (
        Handles-skip poseidon demo decode rounds recipient id s.page.deposits s.begun s.calls h
          (rw (e, a)))
  ]

  withdraw_round-Handles :
      (i : ℕ) (id : String) (s : Progress)
      → Distinct s.page.deposits
      → let s' = withdraw_round poseidon demo decode rounds recipient i id s in
        Handles poseidon demo decode rounds recipient
          (id ∷ [])
          s.page.deposits
          s.begun
          s.calls
          s'.page.deposits
          s'.begun
          s'.calls
  unfolding withdraw_round
  withdraw_round-Handles i id s h =
      withdraw_found-Handles i id (find_deposit id s.page.deposits)
        (record s { page = record s.page { progress = (suc i, s.page.progress.1) } }) h refl

  withdraw_from-Handles :
      (i : ℕ) (ids : List String) (s : Progress)
      → Distinct s.page.deposits
      → let s' = withdraw_from poseidon demo decode rounds recipient i ids s in
        Handles poseidon demo decode rounds recipient ids s.page.deposits s.begun s.calls
          s'.page.deposits s'.begun s'.calls
  unfolding withdraw_from
  withdraw_from-Handles i [] s h =
      Handles-none poseidon demo decode rounds recipient s.page.deposits s.begun s.calls h
  withdraw_from-Handles i (id ∷ ids) s h =
      let s' = withdraw_round poseidon demo decode rounds recipient i id s in
      let s'' = withdraw_from poseidon demo decode rounds recipient (suc i) ids s' in
      let first = withdraw_round-Handles i id s h in
      Handles-next poseidon demo decode rounds recipient id ids s.page.deposits s'.page.deposits
        s''.page.deposits s.begun s'.begun s''.begun s.calls s'.calls s''.calls first
        (withdraw_from-Handles (suc i) ids s' first.distinct)

  confirm_available-Handles :
      (ids : List String) (p : Dashboard)
      → Distinct p.deposits
      → let r = confirm_available poseidon demo decode rounds recipient ids p in
        Handles poseidon demo decode rounds recipient ids p.deposits [] [] r.page.deposits r.begun
          r.calls
        × (r.page.modal ≡ none)
  unfolding confirm_available finished
  confirm_available-Handles [] p h =
      (Handles-none poseidon demo decode rounds recipient p.deposits [] [] h, refl)
  confirm_available-Handles (id ∷ ids) p h = (withdraw_from-Handles 0 (id ∷ ids) _ h, refl)

  confirm_ids-Handles :
      (p : Dashboard) (id : String) (ids : List String) (key : Bytes)
      → Distinct p.deposits
      → str_eq recipient "" ≡ false
      → decode recipient ≡ some key
      → let r = confirm_ids poseidon demo decode rounds recipient (id ∷ ids) p in
        Handles poseidon demo decode rounds recipient
          (id ∷ ids)
          p.deposits
          []
          []
          r.page.deposits
          r.begun
          r.calls
        × (r.page.modal ≡ none)
  unfolding confirm_ids confirm_checked
  confirm_ids-Handles p id ids key h filled decoded =
      let due = keep (has_available p.deposits) (id ∷ ids) in
      let (handles, closed) =
        confirm_available-Handles due (record p { address_error = false }) h in
      rw (filled, decoded)
        (
          Handles-keep poseidon demo decode rounds recipient (id ∷ ids) p.deposits [] [] _ _ _
              handles,
          closed,
        )

  confirm_withdraw-modal :
      (p : Dashboard) (ids : List String)
      → p.modal ≡ some ids
      → confirm_withdraw poseidon demo decode rounds recipient p
        ≡ confirm_ids poseidon demo decode rounds recipient ids p
  unfolding confirm_withdraw confirm_modal
  confirm_withdraw-modal p ids e =
      ap (λ o. confirm_modal poseidon demo decode rounds recipient o p) e

  -- If no two deposits have one id, the modal is open for at least one id, and the address is not empty
  -- and decodes: the modal is closed, and of each id that it is open for and whose deposit is
  -- available, exactly one round takes that deposit up. That round calls `executeWithdraw` with it once,
  -- for the root that it was answered, unless the query of the root throws, when it does not call it;
  -- the deposit ends as withdrawn with the signature that the gateway gave for the request of that
  -- call, or as an error with the message of the step that failed. Every other id has no such round and
  -- no call, and its deposit is as before; no two deposits have one id, and the balance of the
  -- available deposits has fallen by the amounts of what was taken up.
  pub confirm_withdraw-Handles :
      (p : Dashboard) (id : String) (ids : List String) (key : Bytes)
      → Distinct p.deposits
      → p.modal ≡ some (id ∷ ids)
      → str_eq recipient "" ≡ false
      → decode recipient ≡ some key
      → let r = confirm_withdraw poseidon demo decode rounds recipient p in
        Handles poseidon demo decode rounds recipient
          (id ∷ ids)
          p.deposits
          []
          []
          r.page.deposits
          r.begun
          r.calls
        × (r.page.modal ≡ none)
  confirm_withdraw-Handles p id ids key h shown filled decoded =
      let opened = confirm_withdraw-modal p (id ∷ ids) shown in
      rw opened (confirm_ids-Handles p id ids key h filled decoded)
