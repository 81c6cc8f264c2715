-- ===== src/Names/Record/Readers.antt =====
-- What the indexer and the resolver read of the account of a name, with a content identifier and
-- without one.
use skaus.Prelude.{
  ℕ, ◌^◌, ◌<◌, ◌≤◌, ◌≡◌, refl, ◌∙◌, String, none, some, ◌∷◌, ◌++◌, length, get_elem?, replicate,
  le→leb, lt→ltb, arith,
}
use skaus.Prelude.Bytes.{Bytes, slice, get_elem?-drop}
use skaus.Indexer.Events.{pos, read_i64}
use skaus.Names.Record.Layout.{
  Fields, IsSized, name_account, ending, Begins, Ends, beginning-Begins, with_cid-Ends,
  without_cid-Ends,
}
use skaus.Names.Record.{
  active, status_of, profile_cid_of, deserialize_name_event, deserialize_resolved_name,
}

-- What the two readers make of an account, from what they read.
event-read :
    (base58 : Bytes → String) (signature : String) (f : Fields) (rest account : Bytes)
    (deposit updated status tag : ℕ)
    → Begins f rest account
    → Ends account deposit updated status
    → get_elem? account 137 ≡ some tag
    → updated < 2 ^ 63
    → deserialize_name_event base58 account signature
      ≡ some (record {
        name_hash = base58 f.name_hash;
        authority = base58 f.authority;
        scan_pubkey = base58 f.scan;
        spend_pubkey = base58 f.spend;
        version = some f.version;
        profile_cid = profile_cid_of base58 (some tag) (slice 138 170 account);
        status = status_of (some status);
        updated_at = pos updated;
        tx_signature = signature;
      })
unfolding deserialize_name_event read_i64
event-read base58 signature f rest account deposit updated status tag b e t small =
    rw
      (
        le→leb 194 (length account) e.enough,
        b.authority_read,
        b.name_hash_read,
        b.scan_read,
        b.spend_read,
        b.version_read,
        t,
        e.status_read,
        e.updated_read,
        lt→ltb updated (2 ^ 63) small,
      )
      refl

resolved-read :
    (base58 : Bytes → String) (f : Fields) (rest account : Bytes) (deposit updated status tag : ℕ)
    → Begins f rest account
    → Ends account deposit updated status
    → get_elem? account 137 ≡ some tag
    → deserialize_resolved_name base58 account
      ≡ some (record {
        authority = base58 f.authority;
        name_hash = base58 f.name_hash;
        scan_pubkey = base58 f.scan;
        spend_pubkey = base58 f.spend;
        version = some f.version;
        profile_cid = profile_cid_of base58 (some tag) (slice 138 170 account);
        deposit_index = deposit;
        status = status_of (some status);
      })
unfolding deserialize_resolved_name
resolved-read base58 f rest account deposit updated status tag b e t =
    let enough : 178 ≤ length account = omega (arith, e.enough) in
    rw
      (
        le→leb 178 (length account) enough,
        b.authority_read,
        b.name_hash_read,
        b.scan_read,
        b.spend_read,
        b.version_read,
        t,
        e.status_read,
        e.deposit_read,
      )
      refl

-- An account with a content identifier of 32 bytes is read as its fields by both readers: the indexer
-- keeps the time of its last change, the resolver its deposit index.
pub deserialize-with_cid :
    (base58 : Bytes → String) (signature : String) (f : Fields) (cid : Bytes)
    → IsSized f
    → length cid ≡ 32
    → (deserialize_name_event base58 (name_account f (some cid)) signature
        ≡ some (record {
          name_hash = base58 f.name_hash;
          authority = base58 f.authority;
          scan_pubkey = base58 f.scan;
          spend_pubkey = base58 f.spend;
          version = some f.version;
          profile_cid = some (base58 cid);
          status = status_of (some f.status);
          updated_at = pos f.updated_at;
          tx_signature = signature;
        }))
      × (deserialize_resolved_name base58 (name_account f (some cid))
          ≡ some (record {
            authority = base58 f.authority;
            name_hash = base58 f.name_hash;
            scan_pubkey = base58 f.scan;
            spend_pubkey = base58 f.spend;
            version = some f.version;
            profile_cid = some (base58 cid);
            deposit_index = f.deposit_index;
            status = status_of (some f.status);
          }))
unfolding profile_cid_of
deserialize-with_cid base58 signature f cid s h =
    let account = name_account f (some cid) in
    let rest = cid ++ ending f in
    let b = beginning-Begins f (1 ∷ rest) s in
    let (e, c) = with_cid-Ends f cid s h in
    let t = get_elem?-drop 137 1 account rest b.behind in
    (
      event-read base58 signature f (1 ∷ rest) account f.deposit_index f.updated_at f.status 1 b e t
            s.updated_at_range
          ∙ rw c refl,
      resolved-read base58 f (1 ∷ rest) account f.deposit_index f.updated_at f.status 1 b e t
          ∙ rw c refl,
    )

-- An account without a content identifier, which is how a name is registered, is read by both readers
-- as an active name with deposit index 0 that changed at time 0, whatever its fields say.
pub deserialize-without_cid :
    (base58 : Bytes → String) (signature : String) (f : Fields)
    → IsSized f
    → (deserialize_name_event base58 (name_account f none) signature
        ≡ some (record {
          name_hash = base58 f.name_hash;
          authority = base58 f.authority;
          scan_pubkey = base58 f.scan;
          spend_pubkey = base58 f.spend;
          version = some f.version;
          profile_cid = none;
          status = active;
          updated_at = pos 0;
          tx_signature = signature;
        }))
      × (deserialize_resolved_name base58 (name_account f none)
          ≡ some (record {
            authority = base58 f.authority;
            name_hash = base58 f.name_hash;
            scan_pubkey = base58 f.scan;
            spend_pubkey = base58 f.spend;
            version = some f.version;
            profile_cid = none;
            deposit_index = 0;
            status = active;
          }))
unfolding profile_cid_of status_of
deserialize-without_cid base58 signature f s =
    let account = name_account f none in
    let rest = ending f ++ replicate 32 0 in
    let b = beginning-Begins f (0 ∷ rest) s in
    let e = without_cid-Ends f s in
    let t = get_elem?-drop 137 0 account rest b.behind in
    (
      event-read base58 signature f (0 ∷ rest) account 0 0 0 0 b e t (omega arith),
      resolved-read base58 f (0 ∷ rest) account 0 0 0 0 b e t,
    )
