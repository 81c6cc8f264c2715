-- ===== src/Requests/Tests.antt =====
-- Runs of the payment requests at concrete inputs, with whole numbers as amounts.
use skaus.Prelude.{
  ℕ, ◌+◌, String, ◌≡◌, refl, ◌⊎◌, true, false, none, some, [], ◌∷◌, ◌++◌, ltb, leb, arith,
}
use skaus.Prelude.Database.{history}
use skaus.Requests.Slug.{
  to_slug, is_hyphen, is_letter, is_space, strip_special, hyphenate, collapse, drop_first_hyphen,
  drop_last_hyphen, cut_after, or_else, trim_start, trim_end,
}
use skaus.Requests.Row.{
  Numbers, pending, Payment, StoredRequest, is_paid, is_closed, is_cancellable, resolved,
  cancelled_at, total_paid, new_status, by_amount, sum_from, with_payment, with_status,
}
use skaus.Requests.Row.Status.{is_complete, done, and_then, paid_to, looked_at, Steps-paid}
use skaus.Requests.Routes.{
  Requests, link, recorded, closed_request, record_payment, cancelled_request, cancel_request,
}
use skaus.Requests.Routes.Pay.{record_payment-found, cancel_request-authorized}

abbrev whole : Numbers
whole = record { Number = ℕ; nought = 0; add = ◌+◌; less = ltb; at_most = leb; is_nan = λ a. false }

abbrev same_text : String → String
same_text s = s

to_slug_runs : to_slug same_text " my  invoice #1 " ≡ "my-invoice-1"
unfolding to_slug is_hyphen is_letter is_space strip_special hyphenate collapse drop_first_hyphen
    drop_last_hyphen cut_after or_else trim_start trim_end
to_slug_runs = refl

abbrev request : StoredRequest ℕ
request = record {
  id = "r";
  creator = "ada";
  username = "ada";
  slug = "my-invoice";
  amount = 100;
  token = "USDC";
  memo = "";
  title = "My invoice";
  open_amount = false;
  expires_at = none;
  max_payments = 3;
  deposit_path_index = 0;
  status = pending;
  payments = [];
  created_at = 1;
  updated_at = 1;
  views = 0;
}

abbrev sixty : Payment ℕ
sixty = record { tx_signature = "t"; amount = 60; paid_at = 5 }

abbrev half_paid : StoredRequest ℕ
half_paid = with_status whole 5 (with_payment whole sixty request)

grows : (a b c : ℕ) → leb a b ≡ true → leb 0 c ≡ true → leb a (b + c) ≡ true
grows a b c h k = ground arith

abbrev full_paid : StoredRequest ℕ
full_paid = with_status whole 6 (with_payment whole sixty half_paid)

paid_now : is_paid full_paid.status ≡ true
unfolding with_status with_payment new_status total_paid by_amount sum_from
paid_now = refl

half_open : is_closed half_paid.status ≡ false
unfolding with_status with_payment new_status total_paid by_amount sum_from
half_open = refl

Steps-paid_example :
    (is_complete whole full_paid ≡ true) × (is_paid (resolved whole 9 full_paid).status ≡ true)
Steps-paid_example =
    Steps-paid whole grows request full_paid (resolved whole 9 full_paid) refl
      (and_then request half_paid full_paid
        (and_then request request half_paid (done request) (paid_to 5 sixty request refl refl))
        (paid_to 6 sixty half_paid half_open refl))
      paid_now (and_then full_paid full_paid _ (done full_paid) (looked_at 9 full_paid))

abbrev join : String → String → String
join username slug = slug

abbrev db : Requests whole join
db = history (λ r. r.id) (link join)

record_payment-found_example :
    let stored = resolved whole 5 request in
    let final = with_status whole 5 (with_payment whole sixty stored) in
    let result = record_payment whole join db 5 "r" "t" 60 (request ∷ []) in
    (is_closed stored.status ≡ false
      → (result.1 ≡ recorded final)
        × (db.find "r" result.0 ≡ some final)
        × (final.payments ≡ request.payments ++ sixty ∷ []))
    × (is_closed stored.status ≡ true
        → (result.1 ≡ closed_request stored.status) × (db.find "r" result.0 ≡ some stored))
record_payment-found_example =
    record_payment-found whole join db 5 "r" "t" 60 request (request ∷ []) refl

cancel_request-authorized_example :
    let result = cancel_request whole join db 5 "r" "ada" (request ∷ []) in
    (result.0 ≡ request ∷ [])
    ⊎ ((row : StoredRequest ℕ) × (db.find "r" (request ∷ []) ≡ some row)
        × (row.creator ≡ "ada")
        × (is_cancellable row.status ≡ true)
        × (result.1 ≡ cancelled_request (cancelled_at whole 5 row))
        × (db.find "r" result.0 ≡ some (cancelled_at whole 5 row)))
cancel_request-authorized_example =
    cancel_request-authorized whole join db 5 "r" "ada" (request ∷ [])
