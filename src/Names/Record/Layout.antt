-- ===== src/Names/Record/Layout.antt =====
-- The account of a name, as the program programs/name-registry lays it out: an optional content
-- identifier takes one byte if there is none, and the readers step over 33 bytes in either case.
use skaus.Prelude.{
  ℕ, ◌+◌, ◌^◌, ◌<◌, ◌≤◌, ◌≡◌, refl, ap, ◌∙◌, Option, none, some, [], ◌∷◌, ◌++◌, length, drop,
  get_elem?, replicate, arith, length-append, drop-append,
}
use skaus.Prelude.Bytes.{
  Bytes, slice, le_bytes, of_le, length-le_bytes, of_le-le_bytes, next, slice-field, get_elem?-drop,
}

-- The fields that stand in every record, in the program's order.
pub record Fields : Type 0 where
  pub discriminator : Bytes
  pub authority : Bytes
  pub name_hash : Bytes
  pub scan : Bytes
  pub spend : Bytes
  pub version : ℕ
  pub deposit_index : ℕ
  pub created_at : ℕ
  pub updated_at : ℕ
  pub status : ℕ
  pub bump : ℕ

-- The sizes and ranges that the program's types give the fields.
pub record IsSized (f : Fields) : Type 0 where
  pub discriminator_size : length f.discriminator ≡ 8
  pub authority_size : length f.authority ≡ 32
  pub name_hash_size : length f.name_hash ≡ 32
  pub scan_size : length f.scan ≡ 32
  pub spend_size : length f.spend ≡ 32
  pub deposit_index_range : f.deposit_index < 2 ^ 64
  pub updated_at_range : f.updated_at < 2 ^ 63

-- What stands behind the optional identifier, up to the end of the record.
abbrev pub ending : Fields → Bytes
ending f =
    le_bytes 8 f.deposit_index
    ++ (le_bytes 8 f.created_at ++ (le_bytes 8 f.updated_at ++ f.status ∷ f.bump ∷ []))

abbrev pub beginning : Fields → Bytes → Bytes
beginning f rest =
    f.discriminator ++ (f.authority ++ (f.name_hash ++ (f.scan ++ (f.spend ++ f.version ∷ rest))))

-- The bytes of an account, with the zeros that fill it up to its 196 bytes.
abbrev pub name_account : Fields → Option Bytes → Bytes
name_account f (some cid) = beginning f (1 ∷ (cid ++ ending f))
name_account f none = beginning f (0 ∷ (ending f ++ replicate 32 0))

-- What the two readers read of the beginning.
pub record Begins (f : Fields) (rest account : Bytes) : Type 0 where
  pub authority_read : slice 8 40 account ≡ f.authority
  pub name_hash_read : slice 40 72 account ≡ f.name_hash
  pub scan_read : slice 72 104 account ≡ f.scan
  pub spend_read : slice 104 136 account ≡ f.spend
  pub version_read : get_elem? account 136 ≡ some f.version
  pub behind : drop 137 account ≡ rest
  pub long : length account ≡ 137 + length rest

pub beginning-Begins : (f : Fields) (rest : Bytes) → IsSized f → Begins f rest (beginning f rest)
beginning-Begins f rest s =
    let account = beginning f rest in
    let r4 = f.version ∷ rest in
    let r3 = f.spend ++ r4 in
    let r2 = f.scan ++ r3 in
    let r1 = f.name_hash ++ r2 in
    let d8 = drop-append 8 f.discriminator (f.authority ++ r1) s.discriminator_size in
    let d40 = next 8 32 40 account f.authority r1 refl s.authority_size d8 in
    let d72 = next 40 32 72 account f.name_hash r2 refl s.name_hash_size d40 in
    let d104 = next 72 32 104 account f.scan r3 refl s.scan_size d72 in
    let d136 = next 104 32 136 account f.spend r4 refl s.spend_size d104 in
    record {
      authority_read = slice-field 8 32 40 account f.authority r1 refl s.authority_size d8;
      name_hash_read = slice-field 40 32 72 account f.name_hash r2 refl s.name_hash_size d40;
      scan_read = slice-field 72 32 104 account f.scan r3 refl s.scan_size d72;
      spend_read = slice-field 104 32 136 account f.spend r4 refl s.spend_size d104;
      version_read = get_elem?-drop 136 f.version account rest d136;
      behind = next 136 1 137 account (f.version ∷ []) rest refl refl d136;
      long = omega (
        arith,
        length-append f.discriminator (f.authority ++ r1),
        length-append f.authority r1,
        length-append f.name_hash r2,
        length-append f.scan r3,
        length-append f.spend r4,
        s.discriminator_size,
        s.authority_size,
        s.name_hash_size,
        s.scan_size,
        s.spend_size,
      );
    }

length-ending : (f : Fields) → length (ending f) ≡ 26
length-ending f = omega (
  arith,
  length-append (le_bytes 8 f.deposit_index)
      (le_bytes 8 f.created_at ++ (le_bytes 8 f.updated_at ++ f.status ∷ f.bump ∷ [])),
  length-append (le_bytes 8 f.created_at) (le_bytes 8 f.updated_at ++ f.status ∷ f.bump ∷ []),
  length-append (le_bytes 8 f.updated_at) (f.status ∷ f.bump ∷ []),
  length-le_bytes 8 f.deposit_index,
  length-le_bytes 8 f.created_at,
  length-le_bytes 8 f.updated_at,
)

-- The rest of an account behind the tag, read: the offsets at which the readers look.
pub record Ends (account : Bytes) (deposit updated status : ℕ) : Type 0 where
  pub deposit_read : of_le (slice 170 178 account) ≡ deposit
  pub updated_read : of_le (slice 186 194 account) ≡ updated
  pub status_read : get_elem? account 194 ≡ some status
  pub enough : 194 ≤ length account

pub with_cid-Ends :
    (f : Fields) (cid : Bytes)
    → IsSized f
    → length cid ≡ 32
    → Ends (name_account f (some cid)) f.deposit_index f.updated_at f.status
      × (slice 138 170 (name_account f (some cid)) ≡ cid)
with_cid-Ends f cid s h =
    let account = name_account f (some cid) in
    let b = beginning-Begins f (1 ∷ (cid ++ ending f)) s in
    let r8 = f.status ∷ f.bump ∷ [] in
    let r7 = le_bytes 8 f.updated_at ++ r8 in
    let r6 = le_bytes 8 f.created_at ++ r7 in
    let d138 = next 137 1 138 account (1 ∷ []) (cid ++ ending f) refl refl b.behind in
    let d170 = next 138 32 170 account cid (ending f) refl h d138 in
    let n8 = length-le_bytes 8 in
    let d178 =
      next 170 8 178 account (le_bytes 8 f.deposit_index) r6 refl (n8 f.deposit_index) d170 in
    let d186 = next 178 8 186 account (le_bytes 8 f.created_at) r7 refl (n8 f.created_at) d178 in
    let d194 = next 186 8 194 account (le_bytes 8 f.updated_at) r8 refl (n8 f.updated_at) d186 in
    (
      record {
        deposit_read =
            ap of_le (
              slice-field 170 8 178 account (le_bytes 8 f.deposit_index) r6 refl
                (n8 f.deposit_index) d170)
            ∙ of_le-le_bytes 8 f.deposit_index (omega (arith, s.deposit_index_range));
        updated_read =
            ap of_le (
              slice-field 186 8 194 account (le_bytes 8 f.updated_at) r8 refl (n8 f.updated_at)
                d186)
            ∙ of_le-le_bytes 8 f.updated_at (omega (arith, s.updated_at_range));
        status_read = get_elem?-drop 194 f.status account (f.bump ∷ []) d194;
        enough = omega (arith, b.long, length-append cid (ending f), length-ending f, h);
      },
      slice-field 138 32 170 account cid (ending f) refl h d138,
    )

of_le-zeros : of_le (replicate 8 0) ≡ 0
unfolding of_le
of_le-zeros = refl

-- Without an identifier the readers look into the zeros behind the record.
pub without_cid-Ends : (f : Fields) → IsSized f → Ends (name_account f none) 0 0 0
without_cid-Ends f s =
    let account = name_account f none in
    let zeros : Bytes = replicate 32 0 in
    let size : length zeros ≡ 32 = refl in
    let b = beginning-Begins f (0 ∷ (ending f ++ zeros)) s in
    let d138 = next 137 1 138 account (0 ∷ []) (ending f ++ zeros) refl refl b.behind in
    let d164 = next 138 26 164 account (ending f) zeros refl (length-ending f) d138 in
    let d170 = next 164 6 170 account (replicate 6 0) (replicate 26 0) refl refl d164 in
    let d186 = next 170 16 186 account (replicate 16 0) (replicate 10 0) refl refl d170 in
    let d194 = next 186 8 194 account (replicate 8 0) (0 ∷ 0 ∷ []) refl refl d186 in
    record {
      deposit_read =
          ap of_le (slice-field 170 8 178 account (replicate 8 0) (replicate 18 0) refl refl d170)
          ∙ of_le-zeros;
      updated_read =
          ap of_le (slice-field 186 8 194 account (replicate 8 0) (0 ∷ 0 ∷ []) refl refl d186)
          ∙ of_le-zeros;
      status_read = get_elem?-drop 194 0 account (0 ∷ []) d194;
      enough = omega (arith, b.long, length-append (ending f) zeros, length-ending f, size);
    }
