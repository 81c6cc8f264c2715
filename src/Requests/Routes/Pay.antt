-- ===== src/Requests/Routes/Pay.antt =====
-- What the handlers that write a request leave in the table.
use skaus.Prelude.{
  ℕ, String, ◌≡◌, refl, ap, true, false, some, [], ◌∷◌, ◌++◌, inl, inr, Option-cases, Bool-cases,
  ◌∙◌, ◌⊎◌, ◌&&◌, str_eq, eq_iff,
}
use skaus.Requests.Row.{
  Numbers, Payment, StoredRequest, is_closed, is_cancellable, is_pending, is_past, resolved,
  cancelled_at, with_payment, with_status,
}
use skaus.Prelude.Database.Rows.{Sees, Sees-found, Sees-start, Sees-update}
use skaus.Requests.Routes.{
  recorded, closed_request, Requests, resolve_status, append_payment, settle_payment,
  record_payment, cancelled_request, cancel_request,
}

module _ (n : Numbers) (join : String → String → String) (m : Requests n join) where
  open n use {Number}
  open m use {Table, find, find_key, update, id-find, find-update}

  resolve_status-Sees :
      (now : ℕ) (id : String) (r : StoredRequest Number) (t : Table)
      → find id t ≡ some r
      → let (t', stored) = resolve_status n join m now r t in
        (stored ≡ resolved n now r) × Sees m id t stored t'
  unfolding resolve_status resolved
  resolve_status-Sees now id r t h =
      let start = Sees-start m id t r h in
      elim (Bool-cases (is_pending r.status && is_past n now r.expires_at)) [
        | inl e ↦ rw e (refl, Sees-update m id t t r _ refl start)
        | inr e ↦ rw e (refl, start)
      ]

  append_payment-Sees :
      (now : ℕ) (id tx_signature : String) (amount : Number) (r : StoredRequest Number)
      (t t' : Table)
      → Sees m id t r t'
      → let p : Payment Number = record {
        tx_signature = tx_signature;
        amount = amount;
        paid_at = now;
      } in
        let final = with_status n now (with_payment n p r) in
        let result = append_payment n join m now tx_signature amount r t' in
        (result.1 ≡ recorded final) × Sees m id t final result.0
  unfolding append_payment settle_payment with_status with_payment
  append_payment-Sees now id tx_signature amount r t t' s =
      let p : Payment Number = record {
        tx_signature = tx_signature;
        amount = amount;
        paid_at = now;
      } in
      let w = with_payment n p r in
      let written = Sees-update m id t t' r w refl s in
      let found : find r.id (update w t') ≡ some w =
        ap (λ k. find k (update w t')) s.under ∙ Sees-found m id t (update w t') w written in
      rw found (refl, Sees-update m id t (update w t') w (with_status n now w) refl written)

  payments_after :
      (now : ℕ) (row : StoredRequest Number) (p : Payment Number)
      → (with_status n now (with_payment n p (resolved n now row))).payments
        ≡ row.payments ++ p ∷ []
  unfolding with_status with_payment resolved
  payments_after now row p =
      elim (Bool-cases (is_pending row.status && is_past n now row.expires_at)) [
        | inl e ↦ rw e refl
        | inr e ↦ rw e refl
      ]

  cancelled_at-found :
      (now : ℕ) (id : String) (row : StoredRequest Number) (t : Table)
      → find id t ≡ some row
      → find id (update (cancelled_at n now row) t) ≡ some (cancelled_at n now row)
  unfolding cancelled_at
  cancelled_at-found now id row t h =
      Sees-found m id t _ _ (Sees-update m id t t row _ refl (Sees-start m id t row h))

  -- A payment for a request that is not closed when it is looked at is appended to its payments, the
  -- new status is set, and the reply and the table have that row. For a closed request the reply is
  -- its status, and the table has the request as it was looked at, without the payment.
  pub record_payment-found :
      (now : ℕ) (id tx_signature : String) (amount : Number) (row : StoredRequest Number)
      (t : Table)
      → find id t ≡ some row
      → let p : Payment Number = record {
        tx_signature = tx_signature;
        amount = amount;
        paid_at = now;
      } in
        let stored = resolved n now row in
        let final = with_status n now (with_payment n p stored) in
        let result = record_payment n join m now id tx_signature amount t in
        (is_closed stored.status ≡ false
          → (result.1 ≡ recorded final)
            × (find id result.0 ≡ some final)
            × (final.payments ≡ row.payments ++ p ∷ []))
        × (is_closed stored.status ≡ true
            → (result.1 ≡ closed_request stored.status) × (find id result.0 ≡ some stored))
  unfolding record_payment
  record_payment-found now id tx_signature amount row t h =
      let (same, sees) = resolve_status-Sees now id row t h in
      let t' = (resolve_status n join m now row t).0 in
      let sees' : Sees m id t (resolved n now row) t' = rw (← same) sees in
      let (reply, paid) =
        append_payment-Sees now id tx_signature amount (resolved n now row) t t' sees' in
      (
        λ o.
            rw (h, record_payment, same, o)
              (reply, Sees-found m id t _ _ paid, payments_after now row _),
        λ c. rw (h, record_payment, same, c) (refl, Sees-found m id t _ _ sees'),
      )

  -- A cancellation leaves the table as it was, or the row is there, its creator is the caller, its
  -- status is pending or partial, and the reply and the table have it cancelled.
  pub cancel_request-authorized :
      (now : ℕ) (id creator : String) (t : Table)
      → let result = cancel_request n join m now id creator t in
        (result.0 ≡ t)
        ⊎ ((row : StoredRequest Number) × (find id t ≡ some row)
            × (row.creator ≡ creator)
            × (is_cancellable row.status ≡ true)
            × (result.1 ≡ cancelled_request (cancelled_at n now row))
            × (find id result.0 ≡ some (cancelled_at n now row)))
  unfolding cancel_request
  cancel_request-authorized now id creator t = elim (Option-cases (find id t)) [
    | inl e ↦ rw (e, cancel_request) (inl refl)
    | inr (row, e) ↦ elim (Bool-cases (str_eq row.creator creator)) [
      | inr other ↦ rw (e, cancel_request, other) (inl refl)
      | inl same ↦ elim (Bool-cases (is_cancellable row.status)) [
        | inr c ↦ rw (e, cancel_request, same, c) (inl refl)
        | inl c ↦
            rw (e, cancel_request, same, c)
              (inr (
                row,
                refl,
                (eq_iff row.creator creator).0 same,
                c,
                refl,
                cancelled_at-found now id row t e,
              ))
      ]
    ]
  ]
