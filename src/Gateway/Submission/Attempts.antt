-- ===== src/Gateway/Submission/Attempts.antt =====
-- Which of the three attempts a submission ends with, and what it has sent by then.
use skaus.Prelude.{
  ℕ, zero, suc, ◌+◌, ◌≤◌, ◌<◌, ◌*◌, ◌/◌, ◌≡◌, ◌⊎◌, refl, ap, String, Bool, true, false, Option,
  none, some, List, [], ◌∷◌, ◌++◌, length, arith, inl, inr, Option-cases, get_elem?, max, All,
}
use skaus.Relayer.Executor.{sort}
use skaus.Relayer.Executor.Fees.{sort-All, get_elem?-All}
use skaus.Gateway.Submission.{
  Attempt, failed, uncounted, confirmed, relayed, gave_up, attempt_from, submit_attempts,
  estimate_submission_fee,
}

abbrev pub is_saved : Attempt → Bool
is_saved (failed message) = false
is_saved (uncounted signature message) = false
is_saved (confirmed signature) = true

abbrev pub signature_of : Attempt → List String
signature_of (failed message) = []
signature_of (uncounted signature message) = signature ∷ []
signature_of (confirmed signature) = signature ∷ []

-- The signatures confirmed by `n` attempts from one on.
abbrev pub confirmations : (ℕ → Attempt) → ℕ → ℕ → List String
confirmations run attempt zero = []
confirmations run attempt (suc n) = signature_of (run attempt) ++ confirmations run (attempt + 1) n

later :
    (run : ℕ → Attempt) (attempt n : ℕ)
    → ((i : ℕ) → i < suc n → is_saved (run (attempt + i)) ≡ false)
    → (i : ℕ) → i < n
    → is_saved (run (attempt + 1 + i)) ≡ false
later run attempt n h i k =
    let same : attempt + 1 + i ≡ attempt + suc i = omega arith in rw same (h (suc i) (omega arith))

first_unsaved :
    (run : ℕ → Attempt) (attempt n : ℕ)
    → ((i : ℕ) → i < suc n → is_saved (run (attempt + i)) ≡ false)
    → is_saved (run attempt) ≡ false
first_unsaved run attempt n h =
    let same : attempt ≡ attempt + 0 = omega arith in rw same (h 0 (omega arith))

Attempt-cases :
    (a : Attempt)
    → ((m : String) × (a ≡ failed m))
      ⊎ ((s : String) × (a ≡ confirmed s))
      ⊎ ((s m : String) × (a ≡ uncounted s m))
Attempt-cases (failed m) = inl (m, refl)
Attempt-cases (confirmed s) = inr (inl (s, refl))
Attempt-cases (uncounted s m) = inr (inr (s, m, refl))

attempt_from-relayed :
    (run : ℕ → Attempt) (rounds attempt n : ℕ) (last : Option String) (total : ℕ) (s : String)
    → n < rounds
    → ((i : ℕ) → i < n → is_saved (run (attempt + i)) ≡ false)
    → run (attempt + n) ≡ confirmed s
    → let p = attempt_from run rounds attempt last total in
      (p.reply ≡ relayed s) × (p.signatures ≡ confirmations run attempt n ++ s ∷ [])
unfolding attempt_from
attempt_from-relayed run zero attempt n last total s k h e = absurd (omega arith)
attempt_from-relayed run (suc rounds) attempt zero last total s k h e =
    let same : attempt ≡ attempt + 0 = omega arith in
    let here : run attempt ≡ confirmed s = rw same e in rw (here, attempt_from) (refl, refl)
attempt_from-relayed run (suc rounds) attempt (suc n) last total s k h e =
    let same : attempt + 1 + n ≡ attempt + suc n = omega arith in
    let final : run (attempt + 1 + n) ≡ confirmed s = rw same e in
    elim (Attempt-cases (run attempt)) [
      | inl (m, a) ↦
          rw (a, attempt_from)
            (attempt_from-relayed run rounds (attempt + 1) n _ _ s (omega arith)
              (later run attempt n h) final)
      | inr (inl (s', a)) ↦ absurd (ground (arith, a, first_unsaved run attempt n h))
      | inr (inr (s', m, a)) ↦
          let (reply, signatures) =
            attempt_from-relayed run rounds (attempt + 1) n _ _ s (omega arith)
              (later run attempt n h) final in
          rw (a, attempt_from) (reply, ap (λ r. s' ∷ r) signatures)
    ]

attempt_from-gave_up :
    (run : ℕ → Attempt) (rounds attempt : ℕ) (last : Option String) (total : ℕ)
    → ((i : ℕ) → i < rounds → is_saved (run (attempt + i)) ≡ false)
    → let p = attempt_from run rounds attempt last total in
      ((m : Option String) × (p.reply ≡ gave_up m))
      × (p.signatures ≡ confirmations run attempt rounds)
unfolding attempt_from
attempt_from-gave_up run zero attempt last total h = ((last, refl), refl)
attempt_from-gave_up run (suc rounds) attempt last total h = elim (Attempt-cases (run attempt)) [
  | inl (m, a) ↦
      rw (a, attempt_from)
        (attempt_from-gave_up run rounds (attempt + 1) _ _ (later run attempt rounds h))
  | inr (inl (s', a)) ↦ absurd (ground (arith, a, first_unsaved run attempt rounds h))
  | inr (inr (s', m, a)) ↦
      let (reply, signatures) =
        attempt_from-gave_up run rounds (attempt + 1) _ _ (later run attempt rounds h) in
      rw (a, attempt_from) (reply, ap (λ r. s' ∷ r) signatures)
]

pub attempt_from-total :
    (run : ℕ → Attempt) (rounds attempt : ℕ) (last : Option String) (total : ℕ)
    → let p = attempt_from run rounds attempt last total in
      (p.total ≡ total + length p.signatures) × (length p.signatures ≤ rounds)
unfolding attempt_from
attempt_from-total run zero attempt last total = (omega arith, omega arith)
attempt_from-total run (suc rounds) attempt last total = elim (Attempt-cases (run attempt)) [
  | inl (m, a) ↦
      let (count, bound) = attempt_from-total run rounds (attempt + 1) (some m) total in
      rw (a, attempt_from) (count, omega arith)
  | inr (inl (s, a)) ↦ rw (a, attempt_from) (omega arith, omega arith)
  | inr (inr (s, m, a)) ↦
      let (count, bound) = attempt_from-total run rounds (attempt + 1) (some m) (total + 1) in
      rw (a, attempt_from) (omega arith, omega arith)
]

from_zero :
    (run : ℕ → Attempt) (n : ℕ)
    → ((i : ℕ) → i < n → is_saved (run i) ≡ false)
    → (i : ℕ) → i < n
    → is_saved (run (0 + i)) ≡ false
from_zero run n h i k = let same : 0 + i ≡ i = omega arith in rw same (h i k)

end : (run : ℕ → Attempt) (n : ℕ) (s : String) → run n ≡ confirmed s → run (0 + n) ≡ confirmed s
end run n s e = let same : 0 + n ≡ n = omega arith in rw same e

module _ (run : ℕ → Attempt) (total : ℕ) where
  -- If the first attempt that is confirmed and counted in the table is one of the three, its signature
  -- is the reply. Confirmed before it are the signatures of the attempts whose count was not written,
  -- and every confirmation is counted.
  submit_attempts-relayed :
      (n : ℕ) (s : String)
      → n < 3
      → ((i : ℕ) → i < n → is_saved (run i) ≡ false)
      → run n ≡ confirmed s
      → let p = submit_attempts run total in
        (p.reply ≡ relayed s)
        × (p.signatures ≡ confirmations run 0 n ++ s ∷ [])
        × (p.total ≡ total + length p.signatures)
  unfolding submit_attempts
  submit_attempts-relayed n s k h e =
      let (reply, signatures) =
        attempt_from-relayed run 3 0 n none total s k (from_zero run n h) (end run n s e) in
      (reply, signatures, (attempt_from-total run 3 0 none total).0)

  -- If none of the three attempts is confirmed and counted in the table, the submission fails, even
  -- where attempts were confirmed: all their signatures stand for transactions that went through.
  submit_attempts-gave_up :
      ((i : ℕ) → i < 3 → is_saved (run i) ≡ false)
      → let p = submit_attempts run total in
        ((m : Option String) × (p.reply ≡ gave_up m))
        × (p.signatures ≡ confirmations run 0 3)
        × (p.total ≡ total + length p.signatures)
  unfolding submit_attempts
  submit_attempts-gave_up h =
      let (reply, signatures) = attempt_from-gave_up run 3 0 none total (from_zero run 3 h) in
      (reply, signatures, (attempt_from-total run 3 0 none total).0)

-- The fee is the least one when the query throws or gives nothing, and else between the least one and
-- the larger of it and any bound on the samples.
estimate_submission_fee_bounds :
    (samples : List ℕ) (b : ℕ)
    → All (λ x. x ≤ b) samples
    → (1_000 ≤ estimate_submission_fee (some samples))
      × (estimate_submission_fee (some samples) ≤ max b 1_000)
unfolding estimate_submission_fee
estimate_submission_fee_bounds [] b h = (omega arith, omega arith)
estimate_submission_fee_bounds (x ∷ xs) b h =
    let sorted = sort (x ∷ xs) in
    elim (Option-cases (get_elem? sorted (length sorted * 3 / 4))) [
      | inl e ↦ rw (e, estimate_submission_fee) (omega arith, omega arith)
      | inr (fee, e) ↦
          let below =
            get_elem?-All (λ y. y ≤ b) sorted _ fee (sort-All (λ y. y ≤ b) (x ∷ xs) h) e in
          rw (e, estimate_submission_fee) (omega arith, omega arith)
    ]
