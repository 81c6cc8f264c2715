-- ===== src/Names/Routes.antt =====
-- The other routes of apps/gateway/src/routes/names.ts, and apps/gateway/src/routes/paylink.ts. The
-- texts of URLs and of numbers, and the server's configuration, are arguments.
pub mod PayLinks
use skaus.Prelude.{
  ℕ, String, Bool, true, false, not, Option, none, some, List, [], ◌∷◌, map, if◌then◌else◌, str_eq,
}
use skaus.Prelude.Bytes.{Bytes, slice}
use skaus.Requests.Slug.{or_else}
use skaus.Names.Validity.{is_valid_name}
use skaus.Names.Record.{NameStatus, active, suspended, expired, ResolvedName}
use skaus.Names.Resolver.{Network, resolve_username}

pub data NameReply : Type 0 where
  -- 404, with `available: true`
  not_found : NameReply
  found : ResolvedName → NameReply

-- GET /names/:username
unfoldable pub get_name : Network → String → NameReply
get_name net username = elim (resolve_username net username) [
  | none ↦ not_found
  | some resolved ↦ found resolved
]

pub data AvailableReply : Type 0 where
  invalid_format : AvailableReply
  available : Bool → AvailableReply

-- GET /names/:username/available
unfoldable pub get_available : Network → String → AvailableReply
get_available net username =
    if is_valid_name username
    then available (elim (resolve_username net username) [ none ↦ true | some resolved ↦ false ])
    else invalid_format

-- GET /names/:username/deposit-paths: `none` is 404.
unfoldable pub get_deposit_paths : Network → String → Option ℕ
get_deposit_paths net username = elim (resolve_username net username) [
  | none ↦ none
  | some resolved ↦ some resolved.deposit_index
]

pub record OwnedName : Type 0 where
  pub pda : String
  pub name_hash : String
  pub scan_pubkey : String
  pub spend_pubkey : String
  pub username : Option String

pub data OwnedReply : Type 0 where
  invalid_address : OwnedReply
  -- `registered: false`, with the error's text or without it
  unregistered : Bool → OwnedReply
  registered : List OwnedName → OwnedReply

-- GET /names/by-authority/:address: whether the address is one, the accounts of the program with that
-- authority if the query was answered, and the profile's name by hash, `none` if its query threw.
unfoldable pub owned_name :
    (Bytes → String) → (String → Option (Option String)) → Bytes × Bytes → OwnedName
owned_name base58 profile (pda, bytes) = record {
  pda = base58 pda;
  name_hash = base58 (slice 40 72 bytes);
  scan_pubkey = base58 (slice 72 104 bytes);
  spend_pubkey = base58 (slice 104 136 bytes);
  username = elim (profile (base58 (slice 40 72 bytes))) [ none ↦ none | some username ↦ username ];
}

unfoldable pub by_authority :
    (Bytes → String)
    → (String → Option (Option String))
    → Bool
    → Option (List (Bytes × Bytes))
    → OwnedReply
by_authority base58 profile false accounts = invalid_address
by_authority base58 profile true none = unregistered true
by_authority base58 profile true (some []) = unregistered false
by_authority base58 profile true (some (a ∷ rest)) =
    registered (map (owned_name base58 profile) (a ∷ rest))

-- The server's configuration, `BigInt(_).toString()`, `URLSearchParams`, and the base 64 of a memo.
pub record Site : Type 0 where
  pub pool : String
  pub network : String
  pub pay_url : String → String
  pub canonical : String → Option String
  pub with_query : String → List (String × String) → String
  pub memo_text : String → String

pub record PayLink : Type 0 where
  pub username : String
  pub scan_pubkey : String
  pub spend_pubkey : String
  pub key_version : Option ℕ
  pub pool : String
  pub network : String
  pub amount : Option String
  pub token : String
  pub pay_url : String
  pub profile_cid : Option String
  pub deposit_index : ℕ

pub data PayReply : Type 0 where
  no_username : PayReply
  not_active : NameStatus → PayReply
  -- `BigInt` threw
  bad_amount : PayReply
  pay_link : PayLink → PayReply

abbrev pub is_active : NameStatus → Bool
is_active active = true
is_active suspended = false
is_active expired = false

-- `amount ? BigInt(amount).toString() : null`; the outer `none` is an exception.
unfoldable pub amount_text : Site → String → Option (Option String)
amount_text site amount =
    if str_eq amount ""
    then some none
    else elim (site.canonical amount) [ none ↦ none | some text ↦ some (some text) ]

unfoldable pub link_of : Site → String → String → ResolvedName → Option String → PayLink
link_of site username token r amount = record {
  username = username;
  scan_pubkey = r.scan_pubkey;
  spend_pubkey = r.spend_pubkey;
  key_version = r.version;
  pool = site.pool;
  network = site.network;
  amount = amount;
  token = or_else token "USDC";
  pay_url = site.pay_url username;
  profile_cid = r.profile_cid;
  deposit_index = r.deposit_index;
}

-- GET /pay/:username. An absent parameter is empty.
unfoldable pub get_pay_link : Network → Site → String → String → String → PayReply
get_pay_link net site username amount token = elim (resolve_username net username) [
  | none ↦ no_username
  | some r ↦
      if is_active r.status
      then elim (amount_text site amount) [
        | none ↦ bad_amount
        | some text ↦ pay_link (link_of site username token r text)
      ]
      else not_active r.status
]

pub record QrData : Type 0 where
  pub scan_pubkey : String
  pub spend_pubkey : String
  pub key_version : Option ℕ
  pub pool : String
  pub network : String
  pub amount : Option String
  pub token : String
  pub memo_encrypted : Option String

abbrev pub non_empty : String → Option String
non_empty text = if str_eq text "" then none else some text

abbrev parameter : String → String → List (String × String) → List (String × String)
parameter name value rest = if str_eq value "" then rest else (name, value) ∷ rest

unfoldable pub build_pay_url : Site → String → String → String → String
build_pay_url site username amount token =
    site.with_query (site.pay_url username) (parameter "amount" amount (parameter "token" token []))

-- POST /pay/link: the URL and the data of the code, or 404.
unfoldable pub create_pay_link :
    Network → Site → String → String → String → String → Option (String × QrData)
create_pay_link net site username amount token memo = elim (resolve_username net username) [
  | none ↦ none
  | some r ↦ some (
    build_pay_url site username amount token,
    record {
      scan_pubkey = r.scan_pubkey;
      spend_pubkey = r.spend_pubkey;
      key_version = r.version;
      pool = site.pool;
      network = site.network;
      amount = non_empty amount;
      token = or_else token "USDC";
      memo_encrypted = elim (non_empty memo) [
        | none ↦ none
        | some text ↦ some (site.memo_text text)
      ];
    },
  )
]
