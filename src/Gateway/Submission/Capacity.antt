-- ===== src/Gateway/Submission/Capacity.antt =====
-- The counter of submissions that run, under any interleaving.
use skaus.Prelude.{
  ℕ, suc, ◌+◌, ◌≤◌, ◌≡◌, refl, true, false, leb, Bool-cases, inl, inr, arith, le→leb, ◌⊎◌, [], none,
  String, length, Bool,
}
use skaus.Prelude.Bytes.{Bytes}
use skaus.Relayer.Instruction.{Result, ok, err, Host}
use skaus.Gateway.Accounts.{PublicInputs, prepare_withdrawal}
use skaus.Gateway.Submission.Attempts.{attempt_from-total}
use skaus.Gateway.Submission.{
  RelayService, Began, refused, began, begin_submission, end_submission, Attempt, Submitted,
  no_keypair, at_capacity, submit_withdrawal, run_submission, submit_attempts,
}

-- What a service reaches by submissions that begin and end in any order, with the number that runs.
pub data Reaches : ℕ → RelayService → Type 0 where
  at_rest : (s : RelayService) → s.pending_tx_count ≡ 0 → Reaches 0 s
  begins :
      (n : ℕ) (s s' : RelayService)
      → Reaches n s
      → begin_submission s ≡ began s'
      → Reaches (suc n) s'
  ends :
      (n total : ℕ) (s : RelayService)
      → Reaches (suc n) s
      → Reaches n (end_submission (record s { total_relayed = total }))

begin_submission-began :
    (s s' : RelayService)
    → begin_submission s ≡ began s'
    → (s'.pending_tx_count ≡ s.pending_tx_count + 1)
      × (s'.max_pending_txs ≡ s.max_pending_txs)
      × (s.pending_tx_count + 1 ≤ s.max_pending_txs)
      × (s'.total_relayed ≡ s.total_relayed)
unfolding begin_submission
begin_submission-began s s' h = elim (Bool-cases s.has_keypair) [
  | inr k ↦ absurd (ground arith)
  | inl k ↦ elim (Bool-cases (leb s.max_pending_txs s.pending_tx_count)) [
    | inl full ↦ absurd (ground arith)
    | inr free ↦ ground arith
  ]
]

-- However submissions interleave, the counter is the number of those that run, and no more run than
-- the configured bound.
pub Reaches-capacity :
    (n : ℕ) (s : RelayService) → Reaches n s → (s.pending_tx_count ≡ n) × (n ≤ s.max_pending_txs)
unfolding end_submission
Reaches-capacity _ _ (at_rest s h) = (h, omega arith)
Reaches-capacity _ _ (begins n s s' before h) =
    let (count, _) = Reaches-capacity n s before in
    let (more, same, free, _) = begin_submission-began s s' h in (omega arith, omega arith)
Reaches-capacity _ _ (ends n total s before) =
    let (count, bound) = Reaches-capacity (suc n) s before in (omega arith, omega arith)

Began-cases :
    (b : Began) → ((reply : Submitted) × (b ≡ refused reply)) ⊎ ((s : RelayService) × (b ≡ began s))
Began-cases (refused reply) = inl (reply, refl)
Began-cases (began s) = inr (s, refl)

run_submission-total :
    (data' : Result Bytes) (answered : Bool) (run : ℕ → Attempt) (s : RelayService)
    → let p = run_submission data' answered run s in
      (p.total ≡ s.total_relayed + length p.signatures) × (length p.signatures ≤ 3)
unfolding run_submission submit_attempts
run_submission-total (err fault) answered run s = (omega arith, omega arith)
run_submission-total (ok bytes) true run s = attempt_from-total run 3 0 none s.total_relayed
run_submission-total (ok bytes) false run s = (omega arith, omega arith)

begin_submission-refused :
    (s : RelayService)
    → s.has_keypair ≡ false ⊎ (s.max_pending_txs ≤ s.pending_tx_count)
    → (reply : Submitted) × (begin_submission s ≡ refused reply)
unfolding begin_submission
begin_submission-refused s (inl h) = (no_keypair, ground arith)
begin_submission-refused s (inr h) = elim (Bool-cases s.has_keypair) [
  | inl k ↦ (at_capacity, ground (arith, le→leb s.max_pending_txs s.pending_tx_count h))
  | inr k ↦ (no_keypair, ground arith)
]

-- A submission that nothing interrupts gives its place back on every way out, and counts exactly the
-- withdrawals that were confirmed. Without a key, or at the bound, it sends nothing.
submit_withdrawal-pending :
    (host : Host) (proof : String) (inputs : PublicInputs) (answered : Bool) (run : ℕ → Attempt)
    (s : RelayService)
    → let result = submit_withdrawal host proof inputs answered run s in
      (result.0.pending_tx_count ≡ s.pending_tx_count)
      × (result.0.total_relayed ≡ s.total_relayed + length result.1.signatures)
      × (s.has_keypair ≡ false ⊎ (s.max_pending_txs ≤ s.pending_tx_count)
          → result.1.signatures ≡ [])
unfolding submit_withdrawal end_submission
submit_withdrawal-pending host proof inputs answered run s =
    elim (Began-cases (begin_submission s)) [
      | inl (reply, e) ↦ rw (e, submit_withdrawal) (refl, omega arith, λ h. refl)
      | inr (s', e) ↦
          let (more, _, _, total) = begin_submission-began s s' e in
          let (count, bound) =
            run_submission-total (prepare_withdrawal host proof inputs) answered run s' in
          rw (e, submit_withdrawal)
            (
              omega arith,
              omega arith,
              λ h. let (reply, r) = begin_submission-refused s h in absurd (ground (arith, r, e)),
            )
    ]
