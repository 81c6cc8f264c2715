-- ===== src/Web/Activity.antt =====
-- apps/web/src/app/dashboard/activities/page.tsx, and the notifications of
-- apps/web/src/components/DashboardShell.tsx: the payments of a creator's requests in one list, its
-- filter, its orders and its sums. Amounts are numbers of a type that is an argument, with its zero,
-- its addition and its order. `Array.sort` is stable, and is an insertion sort here.
pub mod Sorted
pub mod Tests
use skaus.Prelude.{
  ℕ, ◌+◌, String, Bool, true, false, ◌||◌, Option, none, some, List, [], ◌∷◌, ◌++◌, leb, ltb,
  if◌then◌else◌, str_eq, take,
}

-- `sort` by a comparison: `le a b` is whether it gives no positive number.
module _ {ℓ} {A : Type ℓ} (le : A → A → Bool) where
  unfoldable pub insert_by : A → List A → List A
  insert_by a [] = a ∷ []
  insert_by a (b ∷ bs) = if le a b then a ∷ b ∷ bs else b ∷ insert_by a bs

  unfoldable pub sort_by : List A → List A
  sort_by [] = []
  sort_by (a ∷ as') = insert_by a (sort_by as')

-- Floating-point numbers: `at_most a b` is whether `a - b` is no positive number.
pub record Amounts : Type 1 where
  pub Number : Type 0
  pub nought : Number
  pub plus : Number → Number → Number
  pub at_most : Number → Number → Bool

pub record RequestPayment (N : Type 0) : Type 0 where
  pub tx_signature : String
  pub amount : N
  pub paid_at : ℕ

-- A request as the gateway lists it.
pub record RequestData (N : Type 0) : Type 0 where
  pub id : String
  pub slug : String
  pub title : String
  pub token : String
  pub status : String
  pub payments : List (RequestPayment N)

pub record FlatPayment (N : Type 0) : Type 0 where
  pub tx_signature : String
  pub amount : N
  pub paid_at : ℕ
  pub token : String
  pub request_id : String
  pub request_title : String
  pub request_slug : String
  pub request_status : String

module _ {N : Type 0} where
  -- `req.title || req.slug || 'Payment link'`
  unfoldable pub title_of : RequestData N → String
  title_of r =
      if str_eq r.title "" then (if str_eq r.slug "" then "Payment link" else r.slug) else r.title

  abbrev pub flat_payment : RequestData N → RequestPayment N → FlatPayment N
  flat_payment r p = record {
    tx_signature = p.tx_signature;
    amount = p.amount;
    paid_at = p.paid_at;
    token = r.token;
    request_id = r.id;
    request_title = title_of r;
    request_slug = r.slug;
    request_status = r.status;
  }

  unfoldable pub flatten_request : RequestData N → List (RequestPayment N) → List (FlatPayment N)
  flatten_request r [] = []
  flatten_request r (p ∷ ps) = flat_payment r p ∷ flatten_request r ps

  -- `allPayments`
  unfoldable pub all_payments : List (RequestData N) → List (FlatPayment N)
  all_payments [] = []
  all_payments (r ∷ rs) = flatten_request r r.payments ++ all_payments rs

pub data SortOrder : Type 0 where
  newest oldest amount_desc amount_asc : SortOrder

module _ (m : Amounts) where
  open m use {Number, nought, plus, at_most}

  -- Whether the first of two payments may stand first: the comparison gives no positive number.
  unfoldable pub in_order : SortOrder → FlatPayment Number → FlatPayment Number → Bool
  in_order newest a b = leb b.paid_at a.paid_at
  in_order oldest a b = leb a.paid_at b.paid_at
  in_order amount_desc a b = at_most b.amount a.amount
  in_order amount_asc a b = at_most a.amount b.amount

module _ {N : Type 0} where
  -- `filterRequest`: all, or the payments of one request.
  unfoldable pub filter_request : String → List (FlatPayment N) → List (FlatPayment N)
  filter_request id [] = []
  filter_request id (p ∷ ps) =
      let rest = filter_request id ps in if str_eq p.request_id id then p ∷ rest else rest

module _ (m : Amounts) where
  open m use {Number, nought, plus, at_most}

  unfoldable pub filtered :
      String → SortOrder → List (FlatPayment Number) → List (FlatPayment Number)
  filtered filter order ps =
      sort_by (in_order m order) (if str_eq filter "all" then ps else filter_request filter ps)

  -- `reduce((s, p) => s + p.amount, 0)`
  unfoldable pub total_from : Number → List (FlatPayment Number) → Number
  total_from s [] = s
  total_from s (p ∷ ps) = total_from (plus s p.amount) ps

  unfoldable pub total_received : List (FlatPayment Number) → Number
  total_received ps = total_from nought ps

  -- The sum of one request, in its row.
  unfoldable pub revenue_from : Number → List (RequestPayment Number) → Number
  revenue_from s [] = s
  revenue_from s (p ∷ ps) = revenue_from (plus s p.amount) ps

module _ {N : Type 0} where
  unfoldable pub active_requests : List (RequestData N) → ℕ
  active_requests [] = 0
  active_requests (r ∷ rs) =
      (if str_eq r.status "pending" || str_eq r.status "partial" then 1 else 0) + active_requests rs

-- The notifications, and their cache, which is of the module and not of a wallet.
pub record NotifItem (N : Type 0) : Type 0 where
  pub id : String
  pub amount : N
  pub token : String
  pub req_title : String
  pub paid_at : ℕ

pub record NotifCache (N : Type 0) : Type 0 where
  pub items : List (NotifItem N)
  pub ts : ℕ

abbrev pub cache_ttl : ℕ
cache_ttl = 300_000

module _ {N : Type 0} where
  unfoldable pub items_of : RequestData N → List (RequestPayment N) → List (NotifItem N)
  items_of r [] = []
  items_of r (p ∷ ps) =
      record {
        id = p.tx_signature;
        amount = p.amount;
        token = r.token;
        req_title = title_of r;
        paid_at = p.paid_at;
      }
      ∷ items_of r ps

  unfoldable pub all_items : List (RequestData N) → List (NotifItem N)
  all_items [] = []
  all_items (r ∷ rs) = items_of r r.payments ++ all_items rs

  unfoldable pub newer_item : NotifItem N → NotifItem N → Bool
  newer_item a b = leb b.paid_at a.paid_at

  unfoldable pub trimmed_items : List (RequestData N) → List (NotifItem N)
  trimmed_items requests = take 20 (sort_by newer_item (all_items requests))

  unfoldable pub unread_count : ℕ → List (NotifItem N) → ℕ
  unread_count last_read [] = 0
  unread_count last_read (p ∷ ps) =
      (if ltb last_read p.paid_at then 1 else 0) + unread_count last_read ps

-- What is shown, and the cache. A fetch that fails leaves both.
pub record Notifications (N : Type 0) : Type 0 where
  pub shown : List (NotifItem N)
  pub cache : Option (NotifCache N)

module _ {N : Type 0} where
  unfoldable pub fetched_notifications :
      ℕ → Option (List (RequestData N)) → Notifications N → Notifications N
  fetched_notifications now none s = s
  fetched_notifications now (some requests) s = record {
    shown = trimmed_items requests;
    cache = some (record { items = trimmed_items requests; ts = now });
  }

  abbrev pub fresh_items : ℕ → Option (NotifCache N) → Option (List (NotifItem N))
  fresh_items now none = none
  fresh_items now (some c) = if ltb now (c.ts + cache_ttl) then some c.items else none

  -- The effect of a wallet, with what the gateway answers about it.
  unfoldable pub load_notifications :
      ℕ → Option (List (RequestData N)) → Notifications N → Notifications N
  load_notifications now by_creator s = elim (fresh_items now s.cache) [
    | some items ↦ record s { shown = items }
    | none ↦ fetched_notifications now by_creator s
  ]
