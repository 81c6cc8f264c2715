-- ===== src/Deposit/Tests.antt =====
-- Runs of the deposit's split at concrete amounts.
use skaus.Prelude.{
  ℕ, zero, suc, ◌+◌, ◌-◌, ◌%◌, ◌≡◌, ◌<◌, refl, ap, String, Bool, true, false, none, some, List, [],
  ◌∷◌, All, length, replicate, length-replicate, arith,
}
use skaus.Prelude.Bytes.{Bytes, sum}
use skaus.Withdraw.Hex.{byte_digits}
use skaus.Requests.Slug.Laws.{size}
use skaus.Relayer.Instruction.{Chain}
use skaus.Notes.Encryption.{Primitives}
use skaus.Notes.Encryption.RoundTrip.{IsReadBack}
use skaus.Wallet.Scan.{scan_deposits_on_chain}
use skaus.Deposit.Execution.{Draw, Payer, DepositRun, executed, note_for, execute_deposit}
use skaus.Deposit.Execution.Total.{amounts, found_amounts, accounts, IsSound, execute_deposit-found}
use skaus.Deposit.Tiers.{usdc}

-- Numbers in ones, and a note as as many bytes as its amount, and one more.
unfoldable pub decimal : ℕ → String
decimal zero = String.[]
decimal (suc n) = String.◌∷◌ "1" (decimal n)

size-decimal : (n : ℕ) → size (decimal n) ≡ n
unfolding decimal
size-decimal zero = refl
size-decimal (suc n) = ap suc (size-decimal n)

abbrev pub key32 : Bytes
key32 = replicate 32 9

-- One key and one hash.
abbrev pub primitives : Primitives
primitives = record {
  sha256 = λ bs. replicate 32 7;
  public_key = λ k. key32;
  shared_secret = λ a b. b;
  to_json = λ j. replicate (suc (size j.amount)) 1;
  from_json = λ bs. some (record {
    secret = decimal 0;
    nullifier = decimal 0;
    amount = decimal (length bs - 1);
    token_mint = "mint";
    ephemeral_pubkey = byte_digits key32;
  });
  decimal = decimal;
  big_int = λ s. some (size s);
  domain = 3 ∷ [];
}

abbrev pub chain : Chain
chain = record {
  program_address = λ seeds. key32;
  token_address = λ mint owner. key32;
  account_data = λ k. none;
  relayer = key32;
  token_program = key32;
  system_program = key32;
  stealth_pool_seed = 1 ∷ [];
  merkle_roots_seed = 2 ∷ [];
  nullifier_seed = 3 ∷ [];
}

abbrev pub payer : Payer
payer = record {
  chain = chain;
  deposit_note_seed = 4 ∷ [];
  depositor = key32;
  token_mint = key32;
  mint_text = "mint";
  send = λ i. some "sig";
}

abbrev pub draw : ℕ → Draw
draw i = record { secret = 0; nullifier = 0; ephemeral_privkey = 1 ∷ []; nonce = replicate 12 8 }

abbrev pub poseidon : List ℕ → ℕ
poseidon xs = 5

abbrev pub place : ℕ → ℕ × ℕ
place i = (i % 1000, 1_700_000_000)

ones-bytes : (n : ℕ) → All (λ b. b < 256) (replicate n 1)
ones-bytes zero = tt
ones-bytes (suc n) = (omega arith, ones-bytes n)

note_for-IsReadBack :
    (i tier : ℕ) → IsReadBack primitives (note_for primitives poseidon payer key32 draw i tier)
note_for-IsReadBack i tier =
    let bytes : Bytes = replicate (suc (size (decimal tier))) 1 in
    let long : length bytes ≡ suc (size (decimal tier)) =
      length-replicate (suc (size (decimal tier))) (◌+◌ 0 1) in
    let same : length bytes - 1 ≡ tier = omega (arith, long, size-decimal tier) in
    record {
      json = rw same refl;
      bytes = ones-bytes (suc (size (decimal tier)));
      not_empty = omega (arith, long);
      secret = ap some (size-decimal 0);
      nullifier = ap some (size-decimal 0);
      amount = ap some (size-decimal tier);
    }

pub sound :
    IsSound primitives poseidon payer (2 ∷ []) draw (replicate 8 1) (replicate 32 2) [] place
sound = record {
  agree = λ a b. refl;
  keys = λ k. refl;
  hash = λ bs. refl;
  field = λ xs. omega arith;
  nonces = λ i. refl;
  texts = note_for-IsReadBack;
  disc_size = refl;
  pool_size = refl;
  leaves = λ i. omega arith;
  times = λ i. omega arith;
}

abbrev pub hex : Bytes → String
hex bytes = "hex"

abbrev pub not_sol : String → Bool
not_sol text = false

execute_deposit-found_example :
    let account_list =
      accounts primitives poseidon payer
        (2 ∷ [])
        draw
        (replicate 8 1)
        (replicate 32 2)
        []
        place
        0 in
    let scan_all = scan_deposits_on_chain primitives (2 ∷ []) hex not_sol in
    (e : DepositRun) × (execute_deposit primitives poseidon payer key32 draw 30_000 usdc
      ≡ some (executed e))
    × (found_amounts (scan_all (account_list e.made)) ≡ amounts e.made)
    × (e.complete ≡ true → sum (found_amounts (scan_all (account_list e.made))) ≡ 30_000)
execute_deposit-found_example =
    execute_deposit-found primitives poseidon payer (2 ∷ []) draw (replicate 8 1) (replicate 32 2)
      [] place hex not_sol sound usdc 30_000 (omega arith) (omega arith)
