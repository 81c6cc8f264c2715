-- ===== src/Indexer/Events/Layout.antt =====
-- The account of a deposit note, as the program lays it out.
use skaus.Prelude.{
  ℕ, ◌+◌, ◌^◌, ◌<◌, ◌≤◌, ◌≡◌, refl, ap, ◌∙◌, some, ◌++◌, length, le→leb, lt→ltb, arith,
  length-append, drop-append,
}
use skaus.Prelude.Bytes.{
  Bytes, slice, le_bytes, of_le, length-le_bytes, of_le-le_bytes, next, slice-field,
}
use skaus.Indexer.Events.{pos, read_i64, parse_note}

-- The bytes of an account of `DepositNote`; `tail` is what stands behind the timestamp.
abbrev pub note_account : Bytes → Bytes → Bytes → Bytes → ℕ → ℕ → Bytes → Bytes
note_account disc pool commitment note leaf timestamp tail =
    disc
    ++ (pool
        ++ (commitment
            ++ (le_bytes 4 (length note)
                ++ (note ++ (le_bytes 4 leaf ++ (le_bytes 8 timestamp ++ tail))))))

parse_note-reads :
    (account pool commitment note : Bytes) (leaf timestamp : ℕ)
    → slice 8 40 account ≡ pool
    → slice 40 72 account ≡ commitment
    → of_le (slice 72 76 account) ≡ length note
    → slice 76 (76 + length note) account ≡ note
    → of_le (slice (76 + length note) (76 + length note + 4) account) ≡ leaf
    → of_le (slice (76 + length note + 4) (76 + length note + 12) account) ≡ timestamp
    → timestamp < 2 ^ 63
    → 76 + length note + 12 ≤ length account
    → parse_note account
      ≡ some (record {
        pool = pool;
        commitment = commitment;
        encrypted_note = note;
        leaf_index = leaf;
        timestamp = pos timestamp;
      })
unfolding parse_note read_i64
parse_note-reads account pool commitment note leaf timestamp p c size n l t small long =
    let short : 76 ≤ length account = omega arith in
    rw
      (
        size,
        le→leb 76 (length account) short,
        le→leb (76 + length note + 12) (length account) long,
        p,
        c,
        n,
        l,
        t,
        lt→ltb timestamp (2 ^ 63) small,
      )
      refl

-- An account with its fields in the program's order, a note of at most 32 bits of length, a leaf index
-- of 32 bits and a timestamp that is not negative is read as these fields.
pub parse_note-note_account :
    (disc pool commitment note tail : Bytes) (leaf timestamp : ℕ)
    → length disc ≡ 8
    → length pool ≡ 32
    → length commitment ≡ 32
    → length note < 2 ^ 32
    → leaf < 2 ^ 32
    → timestamp < 2 ^ 63
    → parse_note (note_account disc pool commitment note leaf timestamp tail)
      ≡ some (record {
        pool = pool;
        commitment = commitment;
        encrypted_note = note;
        leaf_index = leaf;
        timestamp = pos timestamp;
      })
parse_note-note_account disc pool commitment note tail leaf timestamp hd hp hc hn hl ht =
    let account = note_account disc pool commitment note leaf timestamp tail in
    let size = length note in
    let r6 = le_bytes 8 timestamp ++ tail in
    let r5 = le_bytes 4 leaf ++ r6 in
    let r4 = note ++ r5 in
    let r3 = le_bytes 4 size ++ r4 in
    let r2 = commitment ++ r3 in
    let d8 = drop-append 8 disc (pool ++ r2) hd in
    let d40 = next 8 32 40 account pool r2 refl hp d8 in
    let d72 = next 40 32 72 account commitment r3 refl hc d40 in
    let d76 = next 72 4 76 account (le_bytes 4 size) r4 refl (length-le_bytes 4 size) d72 in
    let d_leaf = next 76 size (76 + size) account note r5 refl refl d76 in
    let d_time =
      next (76 + size) 4 (76 + size + 4) account (le_bytes 4 leaf) r6 refl (length-le_bytes 4 leaf)
        d_leaf in
    let long : 76 + size + 12 ≤ length account = omega (
      arith,
      length-append disc (pool ++ r2),
      length-append pool r2,
      length-append commitment r3,
      length-append (le_bytes 4 size) r4,
      length-append note r5,
      length-append (le_bytes 4 leaf) r6,
      length-append (le_bytes 8 timestamp) tail,
      length-le_bytes 4 size,
      length-le_bytes 4 leaf,
      length-le_bytes 8 timestamp,
    ) in
    parse_note-reads account pool commitment note leaf timestamp
      (slice-field 8 32 40 account pool r2 refl hp d8)
      (slice-field 40 32 72 account commitment r3 refl hc d40)
      (ap of_le (slice-field 72 4 76 account (le_bytes 4 size) r4 refl (length-le_bytes 4 size) d72)
        ∙ of_le-le_bytes 4 size (omega arith))
      (slice-field 76 size (76 + size) account note r5 refl refl d76)
      (ap of_le (
          slice-field (76 + size) 4 (76 + size + 4) account (le_bytes 4 leaf) r6 refl
            (length-le_bytes 4 leaf) d_leaf)
        ∙ of_le-le_bytes 4 leaf (omega arith))
      (ap of_le (
          slice-field (76 + size + 4) 8 (76 + size + 12) account (le_bytes 8 timestamp) tail
            (omega arith) (length-le_bytes 8 timestamp) d_time)
        ∙ of_le-le_bytes 8 timestamp (omega arith))
      ht long
