-- ===== src/Names/Routes/PayLinks.antt =====
-- Which names the pay links serve, from the accounts of the names on the chain.
use skaus.Prelude.{
  ℕ, ◌≡◌, refl, ◌∙◌, String, Option, none, some, List, [], ◌∷◌, length, if◌then◌else◌,
}
use skaus.Prelude.Bytes.{Bytes}
use skaus.Names.Record.{active, suspended, status_of, ResolvedName, deserialize_resolved_name}
use skaus.Names.Record.Layout.{Fields, IsSized, name_account}
use skaus.Names.Record.Readers.{deserialize-with_cid, deserialize-without_cid}
use skaus.Names.Hash.{hash_name}
use skaus.Names.Resolver.{
  account, Network, name_seed, resolve_account, resolve_name_hash, resolve_username,
}
use skaus.Names.Routes.{
  Site, PayReply, not_active, pay_link, is_active, link_of, amount_text, get_pay_link,
}

-- The chain has a name's account at the address of its hash.
pub record IsRegistered (net : Network) (username : String) (bytes : Bytes) : Type 0 where
  pub poseidon : List ℕ → ℕ
  pub loaded : net.poseidon ≡ some poseidon
  pub stored :
      net.get_account (net.program_address (name_seed ∷ hash_name net.lower poseidon username ∷ []))
      ≡ account bytes

resolve_username-IsRegistered :
    (net : Network) (username : String) (bytes : Bytes)
    → IsRegistered net username bytes
    → resolve_username net username ≡ deserialize_resolved_name net.base58 bytes
unfolding resolve_username resolve_name_hash resolve_account
resolve_username-IsRegistered net username bytes h = rw (h.loaded, h.stored) refl

-- What the resolver makes of a record with a content identifier, or without one.
abbrev pub seen : Network → Fields → Option Bytes → ResolvedName
seen net f (some cid) = record {
  authority = net.base58 f.authority;
  name_hash = net.base58 f.name_hash;
  scan_pubkey = net.base58 f.scan;
  spend_pubkey = net.base58 f.spend;
  version = some f.version;
  profile_cid = some (net.base58 cid);
  deposit_index = f.deposit_index;
  status = status_of (some f.status);
}
seen net f none = record {
  authority = net.base58 f.authority;
  name_hash = net.base58 f.name_hash;
  scan_pubkey = net.base58 f.scan;
  spend_pubkey = net.base58 f.spend;
  version = some f.version;
  profile_cid = none;
  deposit_index = 0;
  status = active;
}

get_pay_link-seen :
    (net : Network) (site : Site) (username token : String) (r : ResolvedName)
    → resolve_username net username ≡ some r
    → get_pay_link net site username "" token ≡ (
        if is_active r.status
        then pay_link (link_of site username token r none)
        else not_active r.status)
unfolding get_pay_link amount_text
get_pay_link-seen net site username token r h = rw (get_pay_link, h) refl

-- A content identifier, if there is one, has 32 bytes.
abbrev pub HasCidSize : Option Bytes → Type 0
HasCidSize none = Unit {0}
HasCidSize (some cid) = length cid ≡ 32

resolve_username-seen :
    (net : Network) (username : String) (f : Fields) (cid : Option Bytes)
    → IsSized f
    → HasCidSize cid
    → IsRegistered net username (name_account f cid)
    → resolve_username net username ≡ some (seen net f cid)
resolve_username-seen net username f none s h r =
    resolve_username-IsRegistered net username (name_account f none) r
    ∙ (deserialize-without_cid net.base58 "" f s).1
resolve_username-seen net username f (some cid) s h r =
    resolve_username-IsRegistered net username (name_account f (some cid)) r
    ∙ (deserialize-with_cid net.base58 "" f cid s h).1

abbrev pub reply_to_suspended : Network → Site → String → String → Fields → Option Bytes → PayReply
reply_to_suspended net site username token f (some cid) = not_active suspended
reply_to_suspended net site username token f none =
    pay_link (link_of site username token (seen net f none) none)

-- A registered name that is suspended on the chain gets no pay link if it has a content identifier of
-- 32 bytes, and gets one if it has none, which is how every name begins.
get_pay_link-suspended :
    (net : Network) (site : Site) (username token : String) (f : Fields) (cid : Option Bytes)
    → IsSized f
    → HasCidSize cid
    → f.status ≡ 1
    → IsRegistered net username (name_account f cid)
    → get_pay_link net site username "" token ≡ reply_to_suspended net site username token f cid
unfolding status_of
get_pay_link-suspended net site username token f none s h e r =
    get_pay_link-seen net site username token (seen net f none)
      (resolve_username-seen net username f none s h r)
get_pay_link-suspended net site username token f (some cid) s h e r =
    get_pay_link-seen net site username token (seen net f (some cid))
      (resolve_username-seen net username f (some cid) s h r)
    ∙ rw e refl
