-- ===== src/Gateway/Balances.antt =====
-- apps/gateway/src/services/goldrush.ts and the route of apps/gateway/src/routes/analytics.ts, with
-- `fetchWalletBalances` of apps/web/src/lib/gateway.ts: the balances of a wallet, and the cache in front
-- of the service that knows them. That service's answers and the clock are arguments.
pub mod Fresh
mod Tests
use Prim.Native.Char.{code}
use skaus.Prelude.{
  ℕ, ◌+◌, ◌-◌, ◌≤◌, ◌<◌, String, Bool, true, false, ◌&&◌, ◌||◌, not, Option, none, some, List, [],
  ◌∷◌, leb, ltb, ◌==◌, if◌then◌else◌, str_eq,
}

-- A field that is missing or null is `none`; prices are numbers of a type that is an argument.
pub record RawItem (Price : Type 0) : Type 0 where
  pub contract_ticker_symbol : Option String
  pub contract_name : Option String
  pub balance : Option String
  pub contract_decimals : Option ℕ
  pub quote_rate : Option Price
  pub quote : Option Price
  pub is_spam : Bool
  pub token_logo_url : Option String

pub record TokenBalance (Price : Type 0) : Type 0 where
  pub symbol : String
  pub name : String
  pub balance : String
  pub decimals : ℕ
  pub usd_rate : Price
  pub usd_value : Price
  pub logo_url : Option String

abbrev pub or_else {ℓ} : {A : Type ℓ} → A → Option A → A
or_else default none = default
or_else default (some a) = a

-- `item.balance && item.balance !== '0'`
unfoldable pub has_balance : Option String → Bool
has_balance none = false
has_balance (some text) = not (str_eq text "") && not (str_eq text "0")

-- What the service answers: an exception or a status other than 2xx with its message, or the items.
pub data Fetched (Price : Type 0) : Type 0 where
  not_fetched : String → Fetched Price
  fetched_items : List (RawItem Price) → Fetched Price

pub data Balances (Price : Type 0) : Type 0 where
  failed_balances : String → Balances Price
  balances_of : List (TokenBalance Price) → Balances Price

module _ {Price : Type 0} (nought : Price) where
  abbrev pub balance_of : RawItem Price → TokenBalance Price
  balance_of item = record {
    symbol = or_else "???" item.contract_ticker_symbol;
    name = or_else "" item.contract_name;
    balance = or_else "" item.balance;
    decimals = or_else 0 item.contract_decimals;
    usd_rate = or_else nought item.quote_rate;
    usd_value = or_else nought item.quote;
    logo_url = item.token_logo_url;
  }

  -- The filter and the map.
  unfoldable pub kept_balances : List (RawItem Price) → List (TokenBalance Price)
  kept_balances [] = []
  kept_balances (item ∷ items) =
      let rest = kept_balances items in
      if not item.is_spam && has_balance item.balance then balance_of item ∷ rest else rest

  -- `fetchSolanaBalances`
  unfoldable pub fetch_solana_balances : Fetched Price → Balances Price
  fetch_solana_balances (not_fetched message) = failed_balances message
  fetch_solana_balances (fetched_items items) = balances_of (kept_balances items)

pub record CacheEntry (Price : Type 0) : Type 0 where
  pub found : List (TokenBalance Price)
  pub at : ℕ

-- `balanceCache`: the entries by address, the newest first.
abbrev pub BalanceCache : Type 0 → Type 0
BalanceCache Price = List (String × CacheEntry Price)

abbrev pub cache_ttl_ms : ℕ
cache_ttl_ms = 30_000

unfoldable pub cached : {Price : Type 0} → String → BalanceCache Price → Option (CacheEntry Price)
cached address [] = none
cached address ((key, e) ∷ cache) = if str_eq key address then some e else cached address cache

module _ {Price : Type 0} where
  -- What a fetch leaves in the cache, at the time when it has come back.
  unfoldable pub remember :
      String → ℕ → Balances Price → BalanceCache Price → Balances Price × BalanceCache Price
  remember address back (failed_balances message) cache = (failed_balances message, cache)
  remember address back (balances_of found) cache =
      (balances_of found, (address, record { found = found; at = back }) ∷ cache)

  -- `cached && Date.now() - cached.ts < CACHE_TTL_MS`
  unfoldable pub fresh_entry : ℕ → Option (CacheEntry Price) → Option (List (TokenBalance Price))
  fresh_entry now none = none
  fresh_entry now (some e) = if ltb now (e.at + cache_ttl_ms) then some e.found else none

  -- `fetchSolanaBalancesCached`, at `now`, with a fetch that is back at `back`.
  unfoldable pub fetch_solana_balances_cached :
      ℕ → ℕ → Balances Price → String → BalanceCache Price → Balances Price × BalanceCache Price
  fetch_solana_balances_cached now back fetched address cache =
      elim (fresh_entry now (cached address cache)) [
        | some found ↦ (balances_of found, cache)
        | none ↦ remember address back fetched cache
      ]

-- `[1-9A-HJ-NP-Za-km-z]`
unfoldable pub is_base58 : ℕ → Bool
is_base58 c =
    (leb 49 c && leb c 57)
    || (leb 65 c && leb c 72)
    || (leb 74 c && leb c 78)
    || (leb 80 c && leb c 90)
    || (leb 97 c && leb c 107)
    || (leb 109 c && leb c 122)

unfoldable pub all_base58 : String → Bool
all_base58 String.[] = true
all_base58 (String.◌∷◌ c s) = is_base58 (code c) && all_base58 s

unfoldable pub characters : String → ℕ
characters String.[] = 0
characters (String.◌∷◌ c s) = 1 + characters s

-- `/^[1-9A-HJ-NP-Za-km-z]{32,44}$/`
unfoldable pub is_address : String → Bool
is_address address =
    leb 32 (characters address) && leb (characters address) 44 && all_base58 address

-- The reply: 400, or the balances with a note or an error.
pub data BalancesReply (Price : Type 0) : Type 0 where
  invalid_address not_configured : BalancesReply Price
  with_error : String → BalancesReply Price
  with_balances : List (TokenBalance Price) → BalancesReply Price

module _ {Price : Type 0} where
  abbrev pub reply_of : Balances Price → BalancesReply Price
  reply_of (failed_balances message) = with_error message
  reply_of (balances_of found) = with_balances found

  -- GET /analytics/balances/:address: `configured` is whether there is a key.
  unfoldable pub get_balances :
      Bool
      → ℕ
      → ℕ
      → Balances Price
      → String
      → BalanceCache Price
      → BalancesReply Price × BalanceCache Price
  get_balances configured now back fetched address cache =
      if not (is_address address)
      then (invalid_address, cache)
      else if not configured
      then (not_configured, cache)
      else (let r = fetch_solana_balances_cached now back fetched address cache in
          (reply_of r.0, r.1))

  -- `fetchWalletBalances`, of the reply or of an exception.
  unfoldable pub fetch_wallet_balances : Option (BalancesReply Price) → List (TokenBalance Price)
  fetch_wallet_balances none = []
  fetch_wallet_balances (some invalid_address) = []
  fetch_wallet_balances (some not_configured) = []
  fetch_wallet_balances (some (with_error message)) = []
  fetch_wallet_balances (some (with_balances found)) = found
