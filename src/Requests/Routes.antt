-- ===== src/Requests/Routes.antt =====
-- apps/gateway/src/routes/requests.ts: the handlers. The rows are read with their payments. The
-- unique pair of a user name and a slug is one key, `join`. A handler runs with no other between its
-- queries, and its calls of the clock give one time.
pub mod Create
pub mod Pay
use skaus.Prelude.{
  ℕ, ◌+◌, ◌++◌, String, ◌||◌, Bool, true, false, Option, none, some, List, [], ◌∷◌, if◌then◌else◌,
  ◌==◌, str_eq, not, ◌&&◌, Model,
}
use skaus.Requests.Slug.{to_slug, trim_start, trim_end, or_else}
use skaus.Requests.Row.{
  Numbers, PaymentStatus, pending, Payment, StoredRequest, is_closed, is_cancellable, resolved,
  viewed, cancelled_at, with_payment, with_status, is_past, is_pending,
}

-- An absent text is empty, an absent number is 0: the handler does not tell them apart.
pub record CreateBody (Number : Type 0) : Type 0 where
  pub creator : String
  pub username : String
  pub amount : Number
  pub token : String
  pub memo : String
  pub title : String
  pub open_amount : Bool
  pub expires_at : ℕ
  pub max_payments : ℕ
  pub deposit_path_index : Option ℕ

pub data CreateReply (Number : Type 0) : Type 0 where
  missing_fields invalid_amount amount_not_positive : CreateReply Number
  -- 409, with the slug
  taken_slug : String → CreateReply Number
  created : StoredRequest Number → CreateReply Number

pub data CancelReply (Number : Type 0) : Type 0 where
  no_request unauthorized : CancelReply Number
  cannot_cancel : PaymentStatus → CancelReply Number
  cancelled_request : StoredRequest Number → CancelReply Number

pub data PaymentReply (Number : Type 0) : Type 0 where
  no_such_request : PaymentReply Number
  closed_request : PaymentStatus → PaymentReply Number
  -- `findUniqueOrThrow` threw
  lost_request : PaymentReply Number
  recorded : StoredRequest Number → PaymentReply Number

abbrev is_empty : String → Bool
is_empty s = str_eq s ""

-- The key under which a row is unique.
abbrev pub link : {Number : Type 0} → (String → String → String) → StoredRequest Number → String
link join r = join r.username r.slug

abbrev pub Requests : Numbers → (String → String → String) → Type 1
Requests n join = Model (StoredRequest n.Number) (λ r. r.id) (link join)

module _ (n : Numbers) (join : String → String → String) (m : Requests n join) where
  open n use {Number, nought, less, at_most, is_nan}
  open m use {Table, find, find_key, create, update}

  module _ (lower : String → String) where
    unfoldable pub link_title : CreateBody Number → String
    link_title b = or_else (trim_end (trim_start b.title)) "Payment link"

    unfoldable pub slug_of : CreateBody Number → String
    slug_of b = to_slug lower (link_title b)

    unfoldable pub slug_exists : String → String → Table → Bool
    slug_exists username slug t = elim (find_key (join username slug) t) [
      | some row ↦ true
      | none ↦ false
    ]

    -- The checks of the body that come before the slug.
    unfoldable pub refused_body : CreateBody Number → Option (CreateReply Number)
    refused_body b = elim b.deposit_path_index [
      | none ↦ some missing_fields
      | some path ↦
          if is_empty b.creator || is_empty b.username
          then some missing_fields
          else (if is_nan b.amount || less b.amount nought
              then some invalid_amount
              else (if not b.open_amount && at_most b.amount nought
                  then some amount_not_positive
                  else none))
    ]

    unfoldable pub new_row : String → ℕ → CreateBody Number → StoredRequest Number
    new_row id now b = record {
      id = id;
      creator = b.creator;
      username = b.username;
      slug = slug_of b;
      amount = if b.open_amount then nought else b.amount;
      token = or_else b.token "USDC";
      memo = b.memo;
      title = link_title b;
      open_amount = b.open_amount;
      expires_at = if b.expires_at == 0 then none else some b.expires_at;
      max_payments = if b.max_payments == 0 then 1 else b.max_payments;
      deposit_path_index = elim b.deposit_path_index [ some path ↦ path | none ↦ 0 ];
      status = pending;
      payments = [];
      created_at = now;
      updated_at = now;
      views = 0;
    }

    -- POST /requests
    unfoldable pub create_request :
        String → ℕ → CreateBody Number → Table → Table × CreateReply Number
    create_request id now b t = elim (refused_body b) [
      | some reply ↦ (t, reply)
      | none ↦
          if slug_exists b.username (slug_of b) t
          then (t, taken_slug (slug_of b))
          else (create (new_row id now b) t, created (new_row id now b))
    ]

  -- `resolveStatus`: it writes only if the status changed.
  unfoldable pub resolve_status : ℕ → StoredRequest Number → Table → Table × StoredRequest Number
  resolve_status now r t =
      if is_pending r.status && is_past n now r.expires_at
      then (update (resolved n now r) t, resolved n now r)
      else (t, r)

  -- The two GET handlers from the row on.
  unfoldable pub show_request :
      ℕ → Bool → Option (StoredRequest Number) → Table → Table × Option (StoredRequest Number)
  show_request now record_view none t = (t, none)
  show_request now record_view (some row) t =
      let (t', stored) = resolve_status now row t in
      if record_view
      then (update (record (viewed n stored) { updated_at = now }) t', some (viewed n stored))
      else (t', some stored)

  -- GET /requests/:id: `none` is 404.
  unfoldable pub get_request : ℕ → Bool → String → Table → Table × Option (StoredRequest Number)
  get_request now record_view id t = show_request now record_view (find id t) t

  -- GET /requests/by-slug/:username/:slug
  unfoldable pub get_by_slug :
      ℕ → Bool → String → String → Table → Table × Option (StoredRequest Number)
  get_by_slug now record_view username slug t =
      show_request now record_view (find_key (join username slug) t) t

  -- GET /requests/by-creator/:creator, behind the query that gives the rows.
  unfoldable pub resolve_all :
      ℕ → List (StoredRequest Number) → Table → Table × List (StoredRequest Number)
  resolve_all now [] t = (t, [])
  resolve_all now (r ∷ rs) t =
      let (t', stored) = resolve_status now r t in
      let (t'', rest) = resolve_all now rs t' in (t'', stored ∷ rest)

  -- POST /requests/:id/cancel
  unfoldable pub cancel_request : ℕ → String → String → Table → Table × CancelReply Number
  cancel_request now id creator t = elim (find id t) [
    | none ↦ (t, no_request)
    | some row ↦
        if str_eq row.creator creator
        then (if is_cancellable row.status
            then (update (cancelled_at n now row) t, cancelled_request (cancelled_at n now row))
            else (t, cannot_cancel row.status))
        else (t, unauthorized)
  ]

  -- POST /requests/:id/payment from the re-read on.
  unfoldable pub settle_payment :
      ℕ → Option (StoredRequest Number) → Table → Table × PaymentReply Number
  settle_payment now none t = (t, lost_request)
  settle_payment now (some refreshed) t =
      (update (with_status n now refreshed) t, recorded (with_status n now refreshed))

  -- `prisma.payment.create`, and what follows it.
  unfoldable pub append_payment :
      ℕ → String → Number → StoredRequest Number → Table → Table × PaymentReply Number
  append_payment now tx_signature amount stored t =
      let p : Payment Number = record {
        tx_signature = tx_signature;
        amount = amount;
        paid_at = now;
      } in
      let t' = update (with_payment n p stored) t in settle_payment now (find stored.id t') t'

  -- POST /requests/:id/payment
  unfoldable pub record_payment : ℕ → String → String → Number → Table → Table × PaymentReply Number
  record_payment now id tx_signature amount t = elim (find id t) [
    | none ↦ (t, no_such_request)
    | some row ↦
        let (t', stored) = resolve_status now row t in
        if is_closed stored.status
        then (t', closed_request stored.status)
        else append_payment now tx_signature amount stored t'
  ]
