-- ===== src/Relayer/Job.antt =====
-- The relayer's job rows (packages/relayer/prisma/schema.prisma, packages/relayer/src/queue.ts and
-- packages/relayer/src/executor.ts). Dates are left out.
use skaus.Prelude.{ℕ, String, Option, Model}

pub data JobStatus : Type 0 where
  pending processing confirmed failed : JobStatus

pub record WithdrawalJob : Type 0 where
  pub id : String
  pub proof_base64 : String
  pub merkle_root : String
  pub nullifier_hash : String
  pub recipient : String
  pub amount : String
  pub fee : String
  pub token_mint : String
  pub status : JobStatus
  pub tx_signature : Option String
  pub attempts : ℕ
  pub last_error : Option String

-- What the executor is given of a job.
pub record WithdrawParams : Type 0 where
  pub proof_base64 : String
  pub merkle_root : String
  pub nullifier_hash : String
  pub recipient : String
  pub amount : String
  pub token_mint : String

abbrev pub params_of : WithdrawalJob → WithdrawParams
params_of j = record {
  proof_base64 = j.proof_base64;
  merkle_root = j.merkle_root;
  nullifier_hash = j.nullifier_hash;
  recipient = j.recipient;
  amount = j.amount;
  token_mint = j.token_mint;
}

-- What `execute` comes to: the signature of the confirmed transaction, or the message thrown.
pub data Outcome : Type 0 where
  sent : String → Outcome
  threw : String → Outcome

-- The table of jobs: the id and the nullifier hash are unique.
abbrev pub Jobs : Type 1
Jobs = Model WithdrawalJob (λ j. j.id) (λ j. j.nullifier_hash)
