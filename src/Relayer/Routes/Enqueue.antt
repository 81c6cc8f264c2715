-- ===== src/Relayer/Routes/Enqueue.antt =====
-- One job per nullifier: what POST /jobs adds, and what it refuses.
use text.Mathlib.TextPositions.{eq_refl}
use skaus.Prelude.{
  ℕ, String, ◌≡◌, refl, true, none, some, List, inl, inr, length, Option-cases, Bool-cases, ==_iff,
  ◌⊎◌, ◌==◌, arith,
}
use skaus.Relayer.Job.{pending, WithdrawalJob, Jobs}
use skaus.Relayer.Routes.{
  EnqueueBody, duplicate, created, failed_create, new_job, fits_schema, check_enqueue, create_job,
  enqueue, get_job,
}

module _ (m : Jobs) (decode : String → List ℕ) where
  open m use {Table, find, find_key, create, find-create, find_key-create}

  create-absent :
      (id : String) (b : EnqueueBody) (t : Table)
      → find_key b.nullifier_hash t ≡ none
      → create_job m decode id b t ≡ (create (new_job id b) t, created id pending)
  unfolding create_job
  create-absent id b t h = rw (h, create_job)

  find_key-created :
      (id : String) (b b' : EnqueueBody) (t : Table)
      → b'.nullifier_hash ≡ b.nullifier_hash
      → find_key b.nullifier_hash t ≡ none
      → find_key b'.nullifier_hash (create (new_job id b) t) ≡ some (new_job id b)
  find_key-created id b b' t same h =
      rw (find_key-create (new_job id b) b'.nullifier_hash t h, same, eq_refl b.nullifier_hash)

  module _ (b : EnqueueBody) (t : Table) (valid : fits_schema b ≡ true) where
    check-absent :
        length (decode b.proof_base64) ≡ 256
        → find_key b.nullifier_hash t ≡ none
        → check_enqueue m decode b t ≡ none
    unfolding check_enqueue
    check-absent size h = ground arith

    check-present :
        (j : WithdrawalJob)
        → length (decode b.proof_base64) ≡ 256
        → find_key b.nullifier_hash t ≡ some j
        → check_enqueue m decode b t ≡ some (duplicate j.id j.status j.tx_signature)
    unfolding check_enqueue
    check-present j size h = ground arith

    -- A valid request for a nullifier that is not in the table adds a pending job under the new id
    -- and under the nullifier, which `GET /jobs/:id` then finds.
    enqueue-get_job :
        (id : String)
        → length (decode b.proof_base64) ≡ 256
        → find_key b.nullifier_hash t ≡ none
        → find id t ≡ none
        → let (t', reply) = enqueue m decode id b t in
          (reply ≡ created id pending)
          × (get_job m decode id t' ≡ some (new_job id b))
          × (find_key b.nullifier_hash t' ≡ some (new_job id b))
    unfolding enqueue get_job
    enqueue-get_job id size h n =
        rw (check-absent size h, enqueue, create-absent id b t h)
          (
            refl,
            rw (find-create (new_job id b) id t n, eq_refl id),
            find_key-created id b b t refl h,
          )

    enqueue-absent :
        (id : String)
        → length (decode b.proof_base64) ≡ 256
        → find_key b.nullifier_hash t ≡ none
        → enqueue m decode id b t ≡ (create (new_job id b) t, created id pending)
    unfolding enqueue
    enqueue-absent id size h = rw (check-absent size h, enqueue, create-absent id b t h)

    enqueue-present :
        (id : String) (j : WithdrawalJob)
        → length (decode b.proof_base64) ≡ 256
        → find_key b.nullifier_hash t ≡ some j
        → enqueue m decode id b t ≡ (t, duplicate j.id j.status j.tx_signature)
    unfolding enqueue
    enqueue-present id j size h = rw (check-present j size h, enqueue)

  -- After a valid request for a nullifier that was not in the table, a second valid request with the
  -- same nullifier, whatever else it holds, changes nothing and is answered with the first job.
  pub enqueue_twice :
      (id id' : String) (b b' : EnqueueBody) (t : Table)
      → fits_schema b ≡ true
      → fits_schema b' ≡ true
      → length (decode b.proof_base64) ≡ 256
      → length (decode b'.proof_base64) ≡ 256
      → b'.nullifier_hash ≡ b.nullifier_hash
      → find_key b.nullifier_hash t ≡ none
      → enqueue m decode id' b' (enqueue m decode id b t).0
        ≡ ((enqueue m decode id b t).0, duplicate id pending none)
  enqueue_twice id id' b b' t v v' size size' same h = rw (enqueue-absent b t v id size h) (
      enqueue-present b' (create (new_job id b) t) v' id' (new_job id b) size'
        (find_key-created id b b' t same h))

  -- Only a request that is answered with 201 changes the table.
  enqueue-refused :
      (id : String) (b : EnqueueBody) (t : Table)
      → ((enqueue m decode id b t).0 ≡ t)
        ⊎ ((enqueue m decode id b t ≡ (create (new_job id b) t, created id pending))
            × (fits_schema b ≡ true)
            × (length (decode b.proof_base64) ≡ 256)
            × (find_key b.nullifier_hash t ≡ none))
  unfolding enqueue check_enqueue create_job
  enqueue-refused id b t = elim (Bool-cases (fits_schema b)) [
    | inl v ↦ elim (Bool-cases (length (decode b.proof_base64) == 256)) [
      | inl s ↦ elim (Option-cases (find_key b.nullifier_hash t)) [
        | inl h ↦
            let size : length (decode b.proof_base64) ≡ 256 = (==_iff _ _).0 s in
            inr (enqueue-absent b t v id size h, v, size, h)
        | inr (j, h) ↦ inl (ground arith)
      ]
      | inr s ↦ inl (ground arith)
    ]
    | inr v ↦ inl (ground arith)
  ]

  -- Two valid requests with one nullifier that both find no job: the second one to create gets an
  -- error, and the table has the job of the first.
  create_job-race :
      (id id' : String) (b b' : EnqueueBody) (t : Table)
      → b'.nullifier_hash ≡ b.nullifier_hash
      → find_key b.nullifier_hash t ≡ none
      → let t' = (create_job m decode id b t).0 in
        (create_job m decode id' b' t' ≡ (t', failed_create))
        × (find_key b'.nullifier_hash t' ≡ some (new_job id b))
  unfolding create_job
  create_job-race id id' b b' t same h =
      let there = find_key-created id b b' t same h in
      rw (create-absent id b t h) (rw (there, create_job), there)
