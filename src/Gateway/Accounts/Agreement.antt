-- ===== src/Gateway/Accounts/Agreement.antt =====
-- The gateway beside the stand-alone relayer: the same data, and the same accounts but for the fee
-- vault, which the gateway reads where the program writes it.
use skaus.Prelude.{
  ℕ, ◌≤◌, ◌≡◌, refl, ◌∙◌, ap, String, some, List, [], ◌∷◌, ◌++◌, length, take, drop, get_elem?,
  le→leb, arith, length-append, take-append, drop-append, drop-drop,
}
use skaus.Prelude.Bytes.{Bytes, slice, concat, HaveSizes, length-concat, drop-concat}
use skaus.Relayer.Job.{WithdrawParams}
use skaus.Relayer.Instruction.{
  ok, Host, Chain, u64_le, derive_accounts, pool_pda, build_withdraw_instruction_data,
}
use skaus.Relayer.Instruction.Layout.{pool_sizes, IsChecked}
use skaus.Gateway.Accounts.{
  PublicInputs, fee_token_account, account_meta, derive_withdraw_accounts, build_withdraw_data,
  prepare_withdrawal,
}

root_sizes : List ℕ
root_sizes = 8 ∷ 32 ∷ 32 ∷ 2 ∷ 8 ∷ 8 ∷ 8 ∷ 8 ∷ 8 ∷ 8 ∷ 4 ∷ 1 ∷ 32 ∷ []

fee_token_account-vault :
    (fields : List Bytes) (root vault rest fallback : Bytes)
    → HaveSizes pool_sizes fields
    → length root ≡ 32
    → length vault ≡ 32
    → fee_token_account (some (concat fields ++ (root ++ (vault ++ rest)))) fallback ≡ vault
unfolding fee_token_account
fee_token_account-vault fields root vault rest fallback h r v =
    let account = concat fields ++ (root ++ (vault ++ rest)) in
    let offset : drop 159 account ≡ vault ++ rest =
      drop-drop 127 32 159 account refl
      ∙ ap (drop 32) (drop-concat pool_sizes fields (root ++ (vault ++ rest)) h)
      ∙ drop-append 32 root (vault ++ rest) r in
    let long : 191 ≤ length account = omega (
      arith,
      length-append (concat fields) (root ++ (vault ++ rest)),
      length-append root (vault ++ rest),
      length-append vault rest,
      length-concat pool_sizes fields h,
    ) in
    rw (le→leb 191 (length account) long) (ap (take 32) offset ∙ take-append 32 vault rest v)

-- For a pool account that the program laid out, the sixth account of the gateway is the fee vault.
-- All the others are those of the relayer, in the same places.
pub derive_withdraw_accounts-derive_accounts :
    (c : Chain) (mint nullifier recipient : Bytes) (fields : List Bytes) (root vault rest : Bytes)
    → c.account_data (pool_pda c mint) ≡ some (concat fields ++ (root ++ (vault ++ rest)))
    → HaveSizes pool_sizes fields
    → length root ≡ 32
    → length vault ≡ 32
    → let here = derive_withdraw_accounts c mint nullifier recipient in
      let there = derive_accounts c mint nullifier recipient in
      (get_elem? here 5 ≡ some (account_meta vault))
      × (take 5 here ≡ take 5 there)
      × (drop 6 here ≡ drop 6 there)
unfolding derive_withdraw_accounts derive_accounts
derive_withdraw_accounts-derive_accounts c mint nullifier recipient fields root vault rest e h r v =
    (
      ap (λ k. some (account_meta k))
          (ap (λ a. fee_token_account a (c.token_address mint (pool_pda c mint))) e
            ∙ fee_token_account-vault fields root vault rest _ h r v),
      refl,
      refl,
    )

abbrev pub inputs_of : WithdrawParams → String → PublicInputs
inputs_of p fee = record {
  merkle_root = p.merkle_root;
  nullifier_hash = p.nullifier_hash;
  recipient = p.recipient;
  amount = p.amount;
  fee = fee;
}

build_withdraw_data-same :
    (a b c n r root : Bytes) (amount : ℕ)
    → build_withdraw_data a b c n r amount root
      ≡ build_withdraw_instruction_data a b c n r amount root
unfolding build_withdraw_data build_withdraw_instruction_data u64_le
build_withdraw_data-same a b c n r root amount = ground arith

-- What the relayer's checks let through, the gateway sends as the same data.
prepare_withdrawal-IsChecked :
    (host : Host) (p : WithdrawParams) (fee : String) (out : Bytes)
    → IsChecked host p out
    → prepare_withdrawal host p.proof_base64 (inputs_of p fee) ≡ ok out
unfolding prepare_withdrawal
prepare_withdrawal-IsChecked host p fee out c =
    let proof = host.base64 p.proof_base64 in
    let built =
      build_withdraw_data-same (slice 0 64 proof) (slice 64 192 proof) (slice 192 256 proof)
        (host.hex p.nullifier_hash) c.recipient (host.hex p.merkle_root) c.amount
      ∙ c.built in
    rw (c.proof_256, c.recipient_key, c.amount_int, c.nullifier_32, c.root_32, built) refl
