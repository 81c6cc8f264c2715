-- ===== src/Relayer/Executor.antt =====
-- packages/relayer/src/executor.ts: the retries of `execute` and `_estimatePriorityFee`. What one
-- attempt comes to, and the samples of the chain, are arguments.
pub mod Retries
pub mod Fees
use skaus.Prelude.{
  ℕ, zero, suc, ◌+◌, ◌-◌, ◌*◌, ◌/◌, ◌^◌, String, Bool, true, false, Option, none, some, List, [],
  ◌∷◌, ◌++◌, ltb, leb, if◌then◌else◌, length, get_elem?, min, max,
}
use skaus.Relayer.Job.{Outcome, sent, threw}

-- The signature, or the error thrown in the end: `none` is `undefined`.
pub data Executed : Type 0 where
  returned : String → Executed
  rethrown : Option String → Executed

unfoldable pub backoff_ms : ℕ → ℕ
backoff_ms attempt = min (1_000 * 2 ^ (attempt - 1)) 30_000

-- The loop of `execute` from an attempt on, with the rounds left, the last error and the sleeps so
-- far. What it returns comes with the sleeps.
unfoldable pub retry_from : ℕ → (ℕ → Outcome) → ℕ → ℕ → Option String → List ℕ → Executed × List ℕ
retry_from max_attempts run zero attempt last slept = (rethrown last, slept)
retry_from max_attempts run (suc rounds) attempt last slept = elim (run attempt) [
  | sent signature ↦ (returned signature, slept)
  | threw message ↦
      retry_from max_attempts run rounds (attempt + 1) (some message)
        (if ltb attempt max_attempts then slept ++ backoff_ms attempt ∷ [] else slept)
]

unfoldable pub execute : ℕ → (ℕ → Outcome) → Executed × List ℕ
execute max_attempts run = retry_from max_attempts run max_attempts 1 none []

abbrev pub fallback_priority_fee : ℕ
fallback_priority_fee = 10_000

unfoldable pub insert : ℕ → List ℕ → List ℕ
insert x [] = x ∷ []
insert x (y ∷ ys) = if leb x y then x ∷ y ∷ ys else y ∷ insert x ys

-- `sort((a, b) => a - b)`.
unfoldable pub sort : List ℕ → List ℕ
sort [] = []
sort (x ∷ xs) = insert x (sort xs)

unfoldable pub keep_positive : List ℕ → List ℕ
keep_positive [] = []
keep_positive (x ∷ xs) = if ltb 0 x then x ∷ keep_positive xs else keep_positive xs

-- `fees[i] ?? fees[fees.length - 1]`; the list has an element.
unfoldable pub pick : List ℕ → ℕ → ℕ
pick fees i = elim (get_elem? fees i) [
  | some p ↦ p
  | none ↦ elim (get_elem? fees (length fees - 1)) [ some p ↦ p | none ↦ 0 ]
]

-- The 75th percentile of the positive samples, in order, times 1.25, rounded up.
unfoldable pub estimate_from : List ℕ → ℕ
estimate_from [] = fallback_priority_fee
estimate_from (x ∷ xs) =
    let fees = x ∷ xs in max ((pick fees (length fees * 3 / 4) * 5 + 3) / 4) fallback_priority_fee

-- The samples, or `none` if the query threw or gave nothing.
unfoldable pub estimate_priority_fee : Option (List ℕ) → ℕ
estimate_priority_fee none = fallback_priority_fee
estimate_priority_fee (some samples) = estimate_from (sort (keep_positive samples))
