-- ===== src/Requests/Row/Status.antt =====
-- The status that a payment leads to, and the statuses that a request's history can reach.
use skaus.Prelude.{
  ℕ, ◌≡◌, refl, ap, ◌∙◌, Bool, true, false, not, ◌&&◌, ◌||◌, inl, inr, List, [], ◌∷◌, ◌++◌, leb,
  if◌then◌else◌, length, arith, Bool-cases, length-append,
}
use skaus.Requests.Row.{
  Numbers, PaymentStatus, pending, partial, paid, Payment, StoredRequest, is_paid, is_pending,
  is_closed, is_cancellable, resolved, viewed, cancelled_at, sum_from, total_paid, by_amount,
  new_status, with_payment, with_status, is_past,
}

module _ (n : Numbers) where
  open n use {Number, nought, add, less, at_most}

  -- The request is answered: by the number of payments, or by their sum if the amount is fixed.
  unfoldable pub is_complete : StoredRequest Number → Bool
  is_complete r =
      leb r.max_payments (length r.payments)
      || (not r.open_amount && at_most r.amount (total_paid n r))

  -- A payment's status is `paid` just when the request is complete, else it is `partial` once the sum
  -- is above zero, and else it stays.
  new_status-is_complete :
      (r : StoredRequest Number)
      → new_status n r ≡ (
          if is_complete r
          then paid
          else (if less nought (total_paid n r) then partial else r.status))
  unfolding new_status by_amount is_complete
  new_status-is_complete r = ground arith

  sum_from-append :
      (s : Number) (ps : List (Payment Number)) (p : Payment Number)
      → sum_from n s (ps ++ p ∷ []) ≡ add (sum_from n s ps) p.amount
  unfolding sum_from
  sum_from-append s [] p = refl
  sum_from-append s (q ∷ ps) p = sum_from-append (add s q.amount) ps p

  -- What the handlers make of a row.
  pub data Step : StoredRequest Number → StoredRequest Number → Type 0 where
    looked_at : (now : ℕ) (r : StoredRequest Number) → Step r (resolved n now r)
    seen : (now : ℕ) (r : StoredRequest Number) → Step r (record (viewed n r) { updated_at = now })
    called_off :
        (now : ℕ) (r : StoredRequest Number)
        → is_cancellable r.status ≡ true
        → Step r (cancelled_at n now r)
    paid_to :
        (now : ℕ) (p : Payment Number) (r : StoredRequest Number)
        → is_closed r.status ≡ false
        → at_most nought p.amount ≡ true
        → Step r (with_status n now (with_payment n p r))

  pub data Steps : StoredRequest Number → StoredRequest Number → Type 0 where
    done : (r : StoredRequest Number) → Steps r r
    and_then : (r s t : StoredRequest Number) → Steps r s → Step s t → Steps r t

  -- A paid request is complete.
  abbrev pub IsSettled : StoredRequest Number → Type 0
  IsSettled r = is_paid r.status ≡ true → is_complete r ≡ true

  is_complete-with_status :
      (now : ℕ) (r : StoredRequest Number) → is_complete (with_status n now r) ≡ is_complete r
  unfolding is_complete with_status total_paid
  is_complete-with_status now r = refl

  with_payment-status :
      (p : Payment Number) (r : StoredRequest Number) → (with_payment n p r).status ≡ r.status
  unfolding with_payment
  with_payment-status p r = refl

  resolved-status :
      (now : ℕ) (r : StoredRequest Number) → is_pending r.status ≡ false → resolved n now r ≡ r
  unfolding resolved
  resolved-status now r h = rw h

  closed_not_pending : (s : PaymentStatus) → is_closed s ≡ true → is_pending s ≡ false
  closed_not_pending s h = ground arith

  paid_not_pending : (s : PaymentStatus) → is_paid s ≡ true → is_pending s ≡ false
  paid_not_pending s h = ground arith

  Step-closed :
      (r s : StoredRequest Number)
      → Step r s
      → is_closed r.status ≡ true
      → (s.status ≡ r.status) × (s.payments ≡ r.payments)
  unfolding viewed cancelled_at
  Step-closed _ _ (looked_at now r) h =
      let same = resolved-status now r (closed_not_pending r.status h) in
      (ap (λ q. q.status) same, ap (λ q. q.payments) same)
  Step-closed _ _ (seen now r) h = (refl, refl)
  Step-closed _ _ (called_off now r c) h = absurd (ground arith)
  Step-closed _ _ (paid_to now p r c _) h = absurd (ground arith)

  -- Whatever happens to it, a request that is cancelled or expired keeps its status and its payments.
  Steps-closed :
      (r s : StoredRequest Number)
      → Steps r s
      → is_closed r.status ≡ true
      → (s.status ≡ r.status) × (s.payments ≡ r.payments)
  Steps-closed r _ (done _) h = (refl, refl)
  Steps-closed r _ (and_then _ s t steps step) h =
      let (status, payments) = Steps-closed r s steps h in
      let (status', payments') = Step-closed s t step (rw status h) in
      (status' ∙ status, payments' ∙ payments)

  module _
      (grows : (a b c : Number)
        → at_most a b ≡ true
        → at_most nought c ≡ true
        → at_most a (add b c) ≡ true) where
    is_complete-with_payment :
        (p : Payment Number) (r : StoredRequest Number)
        → at_most nought p.amount ≡ true
        → is_complete r ≡ true
        → is_complete (with_payment n p r) ≡ true
    unfolding is_complete with_payment total_paid
    is_complete-with_payment p r h c = ground (
      arith,
      length-append r.payments (p ∷ []),
      sum_from-append nought r.payments p,
      grows r.amount (sum_from n nought r.payments) p.amount,
    )

    with_status-IsSettled :
        (now : ℕ) (p : Payment Number) (r : StoredRequest Number)
        → at_most nought p.amount ≡ true
        → IsSettled r
        → IsSettled (with_status n now (with_payment n p r))
          × (is_paid r.status ≡ true
              → is_paid (with_status n now (with_payment n p r)).status ≡ true)
    unfolding with_status
    with_status-IsSettled now p r c h =
        let r' = with_payment n p r in
        let kept : is_paid r.status ≡ true → is_complete r' ≡ true =
          λ q. is_complete-with_payment p r c (h q) in
        elim (Bool-cases (is_complete r')) [
          | inl e ↦
              (λ q. is_complete-with_status now r' ∙ e, λ q. rw (new_status-is_complete r', e) refl)
          | inr e ↦ (
            λ q.
                absurd
                  (ground (arith, e, with_payment-status p r, new_status-is_complete r', kept)),
            λ q. absurd (ground (arith, e, kept q)),
          )
        ]

    Step-IsSettled :
        (r s : StoredRequest Number)
        → Step r s
        → IsSettled r
        → IsSettled s × (is_paid r.status ≡ true → is_paid s.status ≡ true)
    unfolding is_complete total_paid resolved viewed cancelled_at
    Step-IsSettled _ _ (looked_at now r) h =
        elim (Bool-cases (is_pending r.status && is_past n now r.expires_at)) [
          | inl e ↦ rw e (λ q. absurd (ground arith), λ q. absurd (ground arith))
          | inr e ↦ rw e (h, λ q. q)
        ]
    Step-IsSettled _ _ (seen now r) h = (h, λ q. q)
    Step-IsSettled _ _ (called_off now r c) h =
        (λ q. absurd (ground arith), λ q. absurd (ground arith))
    Step-IsSettled _ _ (paid_to now p r o c) h = with_status-IsSettled now p r c h

    Steps-IsSettled :
        (r s : StoredRequest Number)
        → Steps r s
        → IsSettled r
        → IsSettled s × (is_paid r.status ≡ true → is_paid s.status ≡ true)
    Steps-IsSettled r _ (done _) h = (h, λ q. q)
    Steps-IsSettled r _ (and_then _ s t steps step) h =
        let (settled, stays) = Steps-IsSettled r s steps h in
        let (settled', stays') = Step-IsSettled s t step settled in
        (settled', λ q. stays' (stays q))

    -- A request that was created, and then paid with amounts that are not negative, is paid only if it
    -- is complete, and whatever else happens it stays paid; the addition of such an amount must not
    -- bring a sum below what it reached.
    pub Steps-paid :
        (r s t : StoredRequest Number)
        → r.status ≡ pending
        → Steps r s
        → is_paid s.status ≡ true
        → Steps s t
        → (is_complete s ≡ true) × (is_paid t.status ≡ true)
    Steps-paid r s t fresh before h after =
        let (settled, _) = Steps-IsSettled r s before (λ q. absurd (ground arith)) in
        (settled h, (Steps-IsSettled s t after settled).1 h)
