-- ===== src/Names/Registration/Treasury.antt =====
-- The account that a registration pays its fee to, from the configuration as the program lays it out:
-- the authority, the fee, and then the treasury.
use skaus.Prelude.{
  ℕ, ◌≤◌, ◌≡◌, ◌↔◌, refl, ap, some, ◌++◌, length, le→leb, arith, length-append, drop-append,
}
use skaus.Prelude.Bytes.{Bytes, slice, le_bytes, length-le_bytes, slice-field}
use skaus.Names.Resolver.{account}
use skaus.Names.Registration.{fee_treasury_of}

-- The account of the program's configuration.
abbrev pub config_account : Bytes → Bytes → ℕ → Bytes → Bytes → Bytes
config_account disc admin fee treasury rest =
    disc ++ (admin ++ (le_bytes 8 fee ++ (treasury ++ rest)))

-- The registration names the configuration's authority as its treasury: it is the treasury that the
-- program asks for only if the two are one account.
fee_treasury_of-config_account :
    (wallet disc admin treasury rest : Bytes) (fee : ℕ)
    → length disc ≡ 8
    → length admin ≡ 32
    → length treasury ≡ 32
    → (fee_treasury_of wallet (account (config_account disc admin fee treasury rest))
        ≡ some treasury)
      ↔ (admin ≡ treasury)
unfolding fee_treasury_of
fee_treasury_of-config_account wallet disc admin treasury rest fee hd ha ht =
    let r2 = le_bytes 8 fee ++ (treasury ++ rest) in
    let whole = config_account disc admin fee treasury rest in
    let read : slice 8 40 whole ≡ admin =
      slice-field 8 32 40 whole admin r2 refl ha (drop-append 8 disc (admin ++ r2) hd) in
    let long : 48 ≤ length whole = omega (
      arith,
      length-append disc (admin ++ r2),
      length-append admin r2,
      length-append (le_bytes 8 fee) (treasury ++ rest),
      length-le_bytes 8 fee,
    ) in
    rw (le→leb 48 (length whole) long, read) (λ e. cc, λ e. ap some e)
