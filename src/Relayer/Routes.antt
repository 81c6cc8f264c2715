-- ===== src/Relayer/Routes.antt =====
-- packages/relayer/src/routes/jobs.ts: POST /jobs and GET /jobs/:id. Decoding base64 and the ids
-- that the database gives out are arguments.
pub mod Enqueue
use Prim.Native.Char.{Char, code}
use Prim.Native.String
use Prim.Native.String.{count}
use skaus.Prelude.{
  ℕ, String, Bool, true, false, ◌&&◌, Option, none, some, List, leb, ◌==◌, if◌then◌else◌, length,
}
use skaus.Relayer.Job.{JobStatus, pending, WithdrawalJob, Jobs}

pub record EnqueueBody : Type 0 where
  pub proof_base64 : String
  pub merkle_root : String
  pub nullifier_hash : String
  pub recipient : String
  pub amount : String
  pub fee : String
  pub token_mint : String

abbrev all_digits : String → Bool
all_digits String.[] = true
all_digits (String.◌∷◌ c s) = leb b'0' (code c) && leb (code c) b'9' && all_digits s

-- The pattern `^[0-9]+$`.
unfoldable pub is_decimal : String → Bool
is_decimal String.[] = false
is_decimal (String.◌∷◌ c s) = all_digits (String.◌∷◌ c s)

abbrev has_length : ℕ → ℕ → String → Bool
has_length lo hi s = leb lo (count s) && leb (count s) hi

-- `enqueueBodySchema`.
unfoldable pub fits_schema : EnqueueBody → Bool
unfolding is_decimal
fits_schema b =
    leb 1 (count b.proof_base64)
    && has_length 64 64 b.merkle_root
    && has_length 64 64 b.nullifier_hash
    && has_length 32 44 b.recipient
    && is_decimal b.amount
    && is_decimal b.fee
    && has_length 32 44 b.token_mint

pub data EnqueueReply : Type 0 where
  -- 400, from the schema
  invalid_body : EnqueueReply
  -- 400, with the number of bytes
  wrong_proof_size : ℕ → EnqueueReply
  -- 409, with the job that is there
  duplicate : String → JobStatus → Option String → EnqueueReply
  -- 201
  created : String → JobStatus → EnqueueReply
  -- 500, the unique constraint
  failed_create : EnqueueReply

abbrev pub new_job : String → EnqueueBody → WithdrawalJob
new_job id b = record {
  id = id;
  proof_base64 = b.proof_base64;
  merkle_root = b.merkle_root;
  nullifier_hash = b.nullifier_hash;
  recipient = b.recipient;
  amount = b.amount;
  fee = b.fee;
  token_mint = b.token_mint;
  status = pending;
  tx_signature = none;
  attempts = 0;
  last_error = none;
}

module _ (m : Jobs) (decode : String → List ℕ) where
  open m use {Table, find, find_key, create}

  -- The handler up to its second query: the reply it gives, or `none` if it goes on to create.
  unfoldable pub check_enqueue : EnqueueBody → Table → Option EnqueueReply
  check_enqueue b t =
      if fits_schema b
      then (if length (decode b.proof_base64) == 256
          then (elim (find_key b.nullifier_hash t) [
            | some job ↦ some (duplicate job.id job.status job.tx_signature)
            | none ↦ none
          ])
          else some (wrong_proof_size (length (decode b.proof_base64))))
      else some invalid_body

  -- `prisma.withdrawalJob.create`: the nullifier hash is unique.
  unfoldable pub create_job : String → EnqueueBody → Table → Table × EnqueueReply
  create_job id b t = elim (find_key b.nullifier_hash t) [
    | some job ↦ (t, failed_create)
    | none ↦ (create (new_job id b) t, created id pending)
  ]

  -- The handler with no other request between its two queries.
  unfoldable pub enqueue : String → EnqueueBody → Table → Table × EnqueueReply
  unfolding check_enqueue create_job
  enqueue id b t = elim (check_enqueue b t) [ some reply ↦ (t, reply) | none ↦ create_job id b t ]

  -- GET /jobs/:id: `none` is 404.
  unfoldable pub get_job : String → Table → Option WithdrawalJob
  get_job id t = find id t
