-- ===== src/Requests/Row.antt =====
-- apps/gateway/src/routes/requests.ts: a request with its payments, and what the handlers make of
-- it. Amounts are floating-point numbers, and their operations a parameter.
pub mod Status
use skaus.Prelude.{
  ℕ, ◌+◌, String, Bool, true, false, not, ◌&&◌, Option, none, some, List, [], ◌∷◌, ◌++◌, ltb, leb,
  if◌then◌else◌, length,
}

pub record Numbers : Type 1 where
  pub Number : Type 0
  pub nought : Number
  pub add : Number → Number → Number
  pub less : Number → Number → Bool
  pub at_most : Number → Number → Bool
  pub is_nan : Number → Bool

pub data PaymentStatus : Type 0 where
  pending partial paid expired cancelled : PaymentStatus

pub record Payment (Number : Type 0) : Type 0 where
  pub tx_signature : String
  pub amount : Number
  pub paid_at : ℕ

pub record StoredRequest (Number : Type 0) : Type 0 where
  pub id : String
  pub creator : String
  pub username : String
  pub slug : String
  pub amount : Number
  pub token : String
  pub memo : String
  pub title : String
  pub open_amount : Bool
  pub expires_at : Option ℕ
  pub max_payments : ℕ
  pub deposit_path_index : ℕ
  pub status : PaymentStatus
  pub payments : List (Payment Number)
  pub created_at : ℕ
  pub updated_at : ℕ
  pub views : ℕ

abbrev pub is_paid : PaymentStatus → Bool
is_paid pending = false
is_paid partial = false
is_paid paid = true
is_paid expired = false
is_paid cancelled = false

abbrev pub is_pending : PaymentStatus → Bool
is_pending pending = true
is_pending partial = false
is_pending paid = false
is_pending expired = false
is_pending cancelled = false

-- `status === 'expired' || status === 'cancelled'`
abbrev pub is_closed : PaymentStatus → Bool
is_closed pending = false
is_closed partial = false
is_closed paid = false
is_closed expired = true
is_closed cancelled = true

-- `status === 'pending' || status === 'partial'`
abbrev pub is_cancellable : PaymentStatus → Bool
is_cancellable pending = true
is_cancellable partial = true
is_cancellable paid = false
is_cancellable expired = false
is_cancellable cancelled = false

module _ (n : Numbers) where
  open n use {Number, nought, add, less, at_most}

  -- `req.expiresAt && Date.now() > req.expiresAt`
  unfoldable pub is_past : ℕ → Option ℕ → Bool
  is_past now none = false
  is_past now (some at) = ltb 0 at && ltb at now

  -- `resolveStatus`, without its write.
  unfoldable pub resolved : ℕ → StoredRequest Number → StoredRequest Number
  resolved now r =
      if is_pending r.status && is_past now r.expires_at
      then record r { status = expired; updated_at = now }
      else r

  -- The views are counted in the table with the time, in the reply without it.
  unfoldable pub viewed : StoredRequest Number → StoredRequest Number
  viewed r = record r { views = r.views + 1 }

  unfoldable pub cancelled_at : ℕ → StoredRequest Number → StoredRequest Number
  cancelled_at now r = record r { status = cancelled; updated_at = now }

  -- `payments.reduce((s, p) => s + p.amount, s)`
  unfoldable pub sum_from : Number → List (Payment Number) → Number
  sum_from s [] = s
  sum_from s (p ∷ ps) = sum_from (add s p.amount) ps

  unfoldable pub total_paid : StoredRequest Number → Number
  total_paid r = sum_from nought r.payments

  -- The first of the two tests for a fixed amount.
  unfoldable pub by_amount : StoredRequest Number → PaymentStatus
  by_amount r =
      if at_most r.amount (total_paid r)
      then paid
      else (if less nought (total_paid r) then partial else r.status)

  unfoldable pub new_status : StoredRequest Number → PaymentStatus
  new_status r =
      if r.open_amount
      then (if leb r.max_payments (length r.payments)
          then paid
          else (if less nought (total_paid r) then partial else r.status))
      else (if leb r.max_payments (length r.payments) && not (is_paid (by_amount r))
          then paid
          else by_amount r)

  unfoldable pub with_payment : Payment Number → StoredRequest Number → StoredRequest Number
  with_payment p r = record r { payments = r.payments ++ p ∷ [] }

  unfoldable pub with_status : ℕ → StoredRequest Number → StoredRequest Number
  with_status now r = record r { status = new_status r; updated_at = now }
