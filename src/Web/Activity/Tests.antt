-- ===== src/Web/Activity/Tests.antt =====
-- Three requests of a creator on the activities page: one of them is not paid yet.
use skaus.Prelude.{◌+◌, leb, ℕ, String, [], ◌∷◌}
use skaus.Web.Activity.{Amounts, RequestPayment, RequestData}

-- Whole numbers as amounts.
abbrev whole : Amounts
whole = record { Number = ℕ; nought = 0; plus = ◌+◌; at_most = leb }

abbrev paid : String → ℕ → ℕ → RequestPayment ℕ
paid signature amount at = record { tx_signature = signature; amount = amount; paid_at = at }

abbrev coffee : RequestData ℕ
coffee = record {
  id = "r1";
  slug = "coffee";
  title = "";
  token = "USDC";
  status = "partial";
  payments = paid "s1" 5 100 ∷ paid "s2" 9 300 ∷ [];
}

abbrev book : RequestData ℕ
book = record {
  id = "r2";
  slug = "book";
  title = "A book";
  token = "USDC";
  status = "paid";
  payments = paid "s3" 7 200 ∷ [];
}

abbrev unpaid : RequestData ℕ
unpaid = record {
  id = "r3";
  slug = "";
  title = "";
  token = "SOL";
  status = "pending";
  payments = [];
}
