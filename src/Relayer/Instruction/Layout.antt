-- ===== src/Relayer/Instruction/Layout.antt =====
-- The bytes of the withdraw instruction, and of the pool account, as the program lays them out.
use skaus.Prelude.{
  ℕ, ◌≤◌, ◌<◌, ◌^◌, ◌≡◌, refl, ◌∙◌, ap, Option, none, some, List, [], ◌∷◌, ◌++◌, length, take, drop,
  leb, leb→le, le→leb, lt→ltb, Bool-cases, inl, inr, arith, length-take, length-drop, length-append,
  take-append, drop-append, drop-drop, ◌⊎◌, Option-cases,
}
use mathlib.Core.List.{append_assoc}
use skaus.Prelude.Bytes.{
  Bytes, slice, le_bytes, of_le, concat, cut, HaveSizes, cut-concat, length-concat, drop-concat,
  length-le_bytes, of_le-le_bytes,
}
use skaus.Relayer.Job.{WithdrawParams}
use skaus.Relayer.Instruction.{
  withdraw_discriminator, u64_le, build_withdraw_instruction_data, Result, ok, err, Fault, or_fail,
  ◌>>=◌, Host, check_sizes, encode, prepare, resolve_fee_vault,
}

-- The arguments of the program's `withdraw`, behind the discriminator.
abbrev pub withdraw_sizes : List ℕ
withdraw_sizes = 8 ∷ 64 ∷ 128 ∷ 64 ∷ 32 ∷ 32 ∷ 8 ∷ 32 ∷ []

u64_le-fits : (n : ℕ) → n < 2 ^ 64 → u64_le n ≡ some (le_bytes 8 n)
unfolding u64_le
u64_le-fits n h = rw (lt→ltb n (2 ^ 64) h)

-- With parts of the sizes that the program declares and an amount of 64 bits, the data has 368
-- bytes, and read by those sizes it gives the parts and the amount back.
cut-build_withdraw_instruction_data :
    (a b c n r root : Bytes) (amount : ℕ)
    → HaveSizes (64 ∷ 128 ∷ 64 ∷ 32 ∷ 32 ∷ 32 ∷ []) (a ∷ b ∷ c ∷ n ∷ r ∷ root ∷ [])
    → amount < 2 ^ 64
    → (out amount_buf : Bytes) × (build_withdraw_instruction_data a b c n r amount root ≡ some out)
      × (length out ≡ 368)
      × (cut withdraw_sizes out
          ≡ withdraw_discriminator ∷ a ∷ b ∷ c ∷ n ∷ r ∷ amount_buf ∷ root ∷ [])
      × (of_le amount_buf ≡ amount)
unfolding build_withdraw_instruction_data
cut-build_withdraw_instruction_data a b c n r root amount (ha, (hb, (hc, (hn, (hr, (hroot, _))))))
      h =
    let parts : List Bytes =
      withdraw_discriminator ∷ a ∷ b ∷ c ∷ n ∷ r ∷ le_bytes 8 amount ∷ root ∷ [] in
    let sized : HaveSizes withdraw_sizes parts =
      (refl, (ha, (hb, (hc, (hn, (hr, (length-le_bytes 8 amount, (hroot, tt)))))))) in
    (
      concat parts,
      le_bytes 8 amount,
      rw (u64_le-fits amount h, build_withdraw_instruction_data),
      length-concat withdraw_sizes parts sized,
      cut-concat withdraw_sizes parts sized,
      of_le-le_bytes 8 amount h,
    )

-- The fields of the account before the Merkle root: discriminator, authority, token mint, fee, least
-- and greatest deposit, totals and counts, Merkle index, pause flag.
abbrev pub pool_sizes : List ℕ
pool_sizes = 8 ∷ 32 ∷ 32 ∷ 2 ∷ 8 ∷ 8 ∷ 8 ∷ 8 ∷ 8 ∷ 8 ∷ 4 ∷ 1 ∷ []

-- Of an account that the program laid out, with a Merkle root of 24 and 8 bytes and a fee vault of
-- 24 and 8 bytes, what is taken for the fee vault is the end of the root and the start of the vault.
resolve_fee_vault-shifted :
    (fields : List Bytes) (root root' vault vault' rest fallback : Bytes)
    → HaveSizes pool_sizes fields
    → length root ≡ 24
    → length root' ≡ 8
    → length vault ≡ 24
    → resolve_fee_vault
        (some (concat fields ++ (root ++ (root' ++ (vault ++ (vault' ++ rest))))))
        fallback
      ≡ root' ++ vault
unfolding resolve_fee_vault
resolve_fee_vault-shifted fields r r' v v' rest fallback h e e' k =
    let behind = r' ++ (v ++ (v' ++ rest)) in
    let account = concat fields ++ (r ++ behind) in
    let offset : drop 151 account ≡ behind =
      drop-drop 127 24 151 account refl
      ∙ ap (drop 24) (drop-concat pool_sizes fields (r ++ behind) h)
      ∙ drop-append 24 r behind e in
    let taken : take 32 (r' ++ (v ++ (v' ++ rest))) ≡ r' ++ v =
      rw (← append_assoc r' v (v' ++ rest))
        (take-append 32 (r' ++ v) (v' ++ rest) (omega (arith, length-append r' v))) in
    let long : 183 ≤ length account = omega (
      arith,
      length-append (concat fields) (r ++ behind),
      length-append r behind,
      length-append r' (v ++ (v' ++ rest)),
      length-append v (v' ++ rest),
      length-concat pool_sizes fields h,
    ) in
    rw (le→leb 183 (length account) long) (ap (take 32) offset ∙ taken)

-- An account too short to hold a fee vault, or none, gives the fallback.
pub resolve_fee_vault-fallback :
    (account : Option Bytes) (fallback : Bytes)
    → (resolve_fee_vault account fallback ≡ fallback)
      ⊎ ((bytes : Bytes) × (account ≡ some bytes)
          × (183 ≤ length bytes)
          × (length (resolve_fee_vault account fallback) ≡ 32))
unfolding resolve_fee_vault
resolve_fee_vault-fallback none fallback = inl refl
resolve_fee_vault-fallback (some xs) fallback = elim (Bool-cases (leb 183 (length xs))) [
  | inl e ↦ inr (
    xs,
    refl,
    leb→le 183 (length xs) e,
    rw e
        (omega (arith, length-take 32 (drop 151 xs), length-drop 151 xs, leb→le 183 (length xs) e)),
  )
  | inr e ↦ inl (rw e)
]

-- What the checks have established of a withdrawal that is sent.
pub record IsChecked (host : Host) (p : WithdrawParams) (out : Bytes) : Type 0 where
  pub recipient : Bytes
  pub amount : ℕ
  pub proof_256 : length (host.base64 p.proof_base64) ≡ 256
  pub nullifier_32 : length (host.hex p.nullifier_hash) ≡ 32
  pub root_32 : length (host.hex p.merkle_root) ≡ 32
  pub recipient_key : host.public_key p.recipient ≡ some recipient
  pub amount_int : host.big_int p.amount ≡ some amount
  pub built :
      build_withdraw_instruction_data
        (slice 0 64 (host.base64 p.proof_base64))
        (slice 64 192 (host.base64 p.proof_base64))
        (slice 192 256 (host.base64 p.proof_base64))
        (host.hex p.nullifier_hash)
        recipient
        amount
        (host.hex p.merkle_root)
      ≡ some out

SizesOk : Host → WithdrawParams → Type 0
SizesOk host p =
    (length (host.base64 p.proof_base64) ≡ 256)
    × (length (host.hex p.nullifier_hash) ≡ 32)
    × (length (host.hex p.merkle_root) ≡ 32)

check_sizes-ok :
    (host : Host) (p : WithdrawParams) (u : Unit {0}) → check_sizes host p ≡ ok u → SizesOk host p
unfolding check_sizes SizesOk
check_sizes-ok host p u h = ground arith

>>=-eq-ok :
    {A B : Type 0} (r : Result A) (f : A → Result B) {b : B}
    → (r >>= f) ≡ ok b
    → (a : A) × (r ≡ ok a) × (f a ≡ ok b)
>>=-eq-ok (ok a) f h = (a, refl, h)
>>=-eq-ok (err e) f h = cc

abbrev built_from : Host → WithdrawParams → Bytes → ℕ → Option Bytes
built_from host p recipient amount =
    build_withdraw_instruction_data (slice 0 64 (host.base64 p.proof_base64))
      (slice 64 192 (host.base64 p.proof_base64)) (slice 192 256 (host.base64 p.proof_base64))
      (host.hex p.nullifier_hash) recipient amount (host.hex p.merkle_root)

or_fail-eq-ok : {A : Type 0} (o : Option A) (f : Fault) {a : A} → or_fail o f ≡ ok a → o ≡ some a
or_fail-eq-ok none f h = cc
or_fail-eq-ok (some a) f h = cc

encode-ok :
    (host : Host) (p : WithdrawParams) (out : Bytes)
    → encode host p ≡ ok out
    → (recipient : Bytes) × (amount : ℕ) × (host.public_key p.recipient ≡ some recipient)
      × (host.big_int p.amount ≡ some amount)
      × (built_from host p recipient amount ≡ some out)
unfolding encode
encode-ok host p out h = elim (Option-cases (host.public_key p.token_mint)) [
  | inl d ↦ absurd (ground arith)
  | inr (mint, d) ↦ elim (Option-cases (host.public_key p.recipient)) [
    | inl e ↦ absurd (ground arith)
    | inr (recipient, e) ↦ elim (Option-cases (host.big_int p.amount)) [
      | inl f ↦ absurd (ground arith)
      | inr (amount, f) ↦ (recipient, amount, e, f, or_fail-eq-ok _ _ (rw (encode, d, e, f) at h))
    ]
  ]
]

-- Data is only sent for a proof of 256 bytes, a nullifier hash and a root of 32 bytes, a recipient
-- that is a key and an amount that is a number, and it is then the data built from these.
pub prepare-IsChecked :
    (host : Host) (p : WithdrawParams) (out : Bytes)
    → prepare host p ≡ ok out
    → IsChecked host p out
unfolding prepare SizesOk
prepare-IsChecked host p out h =
    let (u, sized, rest) = >>=-eq-ok (check_sizes host p) (λ _. encode host p) h in
    let (a, b, c) = check_sizes-ok host p u sized in
    let (recipient, amount, e, f, g) = encode-ok host p out rest in
    record {
      recipient = recipient;
      amount = amount;
      proof_256 = a;
      nullifier_32 = b;
      root_32 = c;
      recipient_key = e;
      amount_int = f;
      built = g;
    }
