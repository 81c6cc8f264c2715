-- ===== src/Gateway/Balances/Fresh.antt =====
-- How old the balances are that the gateway sends.
use mathlib.Core.Path.{subst}
use skaus.Prelude.{
  ℕ, ◌+◌, ◌≤◌, ◌<◌, ◌≡◌, refl, ap, ◌∙◌, sym, String, Bool, ◌⊎◌, inl, inr, Option, none, some, List,
  [], ltb, ltb→lt, str_eq, eq_iff, Bool-cases, Option-cases, arith,
}
use skaus.Gateway.Balances.{
  TokenBalance, Balances, failed_balances, balances_of, CacheEntry, BalanceCache, cache_ttl_ms,
  cached, remember, fresh_entry, fetch_solana_balances_cached, is_address, with_balances, reply_of,
  get_balances,
}

-- `Answered address t b`: a fetch for the address came back at `t` with `b`.
module _ {Price : Type 0} (Answered : String → ℕ → Balances Price → Type 0) where
  -- The cache at a time, behind writes of requests that may overlap: a request writes when its fetch
  -- is back.
  pub data Reaches : ℕ → BalanceCache Price → Type 0 where
    empty : Reaches 0 []
    wait : {t : ℕ} {c : BalanceCache Price} (u : ℕ) → t ≤ u → Reaches t c → Reaches u c
    back :
        {t : ℕ} {c : BalanceCache Price} (address : String) (b : Balances Price)
        → Answered address t b
        → Reaches t c
        → Reaches t (remember address t b c).1

  -- What the cache holds for an address was answered, and not later than now.
  abbrev Holds : ℕ → String → CacheEntry Price → Type 0
  Holds now address e = Answered address e.at (balances_of e.found) × (e.at ≤ now)

  cached-remember :
      (address key : String) (t : ℕ) (b : Balances Price) (c : BalanceCache Price)
      (e : CacheEntry Price)
      → Answered key t b
      → ((e' : CacheEntry Price) → cached address c ≡ some e' → Holds t address e')
      → cached address (remember key t b c).1 ≡ some e
      → Holds t address e
  unfolding remember cached
  cached-remember address key t (failed_balances m) c e a before h = before e h
  cached-remember address key t (balances_of found) c e a before h =
      elim (Bool-cases (str_eq key address)) [
        | inl same ↦
            let new : CacheEntry Price = record { found = found; at = t } in
            let written : some new ≡ some e = rw same at h in
            let entry : new ≡ e = cc in
            let answered : Answered address t (balances_of found) =
              rw (← (eq_iff key address).0 same) a in
            subst (λ x. Holds t address x) entry (answered, omega arith)
        | inr other ↦ before e (rw other at h)
      ]

  Reaches-Holds :
      {t : ℕ} {c : BalanceCache Price} (address : String) (e : CacheEntry Price)
      → Reaches t c
      → cached address c ≡ some e
      → Holds t address e
  unfolding cached
  Reaches-Holds address e empty h = cc
  Reaches-Holds address e (wait u later r) h =
      let (a, b) = Reaches-Holds address e r h in (a, omega arith)
  Reaches-Holds address e (back {t = t} {c = c} key b a r) h =
      cached-remember address key t b c e a (λ e' k. Reaches-Holds address e' r k) h

  reply_of-balances :
      (b : Balances Price) (found : List (TokenBalance Price))
      → reply_of b ≡ with_balances found
      → b ≡ balances_of found
  reply_of-balances (failed_balances m) found h = cc
  reply_of-balances (balances_of other) found h = cc

  remember-result :
      (address : String) (t : ℕ) (b : Balances Price) (c : BalanceCache Price)
      → (remember address t b c).0 ≡ b
  unfolding remember
  remember-result address t (failed_balances m) c = refl
  remember-result address t (balances_of found) c = refl

  fresh_entry-young :
      (now : ℕ) (o : Option (CacheEntry Price)) (found : List (TokenBalance Price))
      → fresh_entry now o ≡ some found
      → (e : CacheEntry Price) × (o ≡ some e) × (e.found ≡ found) × (now < e.at + 30_000)
  unfolding fresh_entry
  fresh_entry-young now none found h = cc
  fresh_entry-young now (some e) found h = elim (Bool-cases (ltb now (e.at + cache_ttl_ms))) [
    | inl young ↦
        let f : some e.found ≡ some found = rw young at h in
        (e, refl, cc, ltb→lt now (e.at + 30_000) young)
    | inr old ↦ let f = rw old at h in cc
  ]

  cached-fresh :
      (now behind : ℕ) (fetched : Balances Price) (address : String) (c : BalanceCache Price)
      (found : List (TokenBalance Price))
      → Reaches now c
      → (fetch_solana_balances_cached now behind fetched address c).0 ≡ balances_of found
      → (fetched ≡ balances_of found)
        ⊎ ((t : ℕ) × Answered address t (balances_of found) × (t ≤ now) × (now < t + 30_000))
  unfolding fetch_solana_balances_cached
  cached-fresh now behind fetched address c found r h =
      elim (Option-cases (fresh_entry now (cached address c))) [
        | inl e ↦
            let f = rw (e, fetch_solana_balances_cached) at h in
            inl (sym (remember-result address behind fetched c) ∙ f)
        | inr (kept, e) ↦
            let f : balances_of kept ≡ balances_of found =
              rw (e, fetch_solana_balances_cached) at h in
            let same : kept ≡ found = cc in
            let (entry, held, has, young) =
              fresh_entry-young now (cached address c) found (e ∙ ap some same) in
            let (answered, past) = Reaches-Holds address entry r held in
            inr (entry.at, rw (← has) answered, past, young)
      ]

  -- Of a cache that overlapping requests filled, each when its fetch was back: the balances that are
  -- sent for an address are those of the request's own fetch, or were answered for that address less
  -- than 30 seconds before the request, and not after it.
  pub get_balances-fresh :
      (configured : Bool) (now behind : ℕ) (fetched : Balances Price) (address : String)
      (c : BalanceCache Price) (found : List (TokenBalance Price))
      → Reaches now c
      → (get_balances configured now behind fetched address c).0 ≡ with_balances found
      → (fetched ≡ balances_of found)
        ⊎ ((t : ℕ) × Answered address t (balances_of found) × (t ≤ now) × (now < t + 30_000))
  unfolding get_balances
  get_balances-fresh configured now behind fetched address c found r h =
      elim (Bool-cases (is_address address)) [
        | inr bad ↦ let f = rw bad at h in cc
        | inl good ↦ elim (Bool-cases configured) [
          | inr off ↦ let f = rw (good, off) at h in cc
          | inl on ↦
              let f = rw (good, on) at h in
              cached-fresh now behind fetched address c found r (
                reply_of-balances (fetch_solana_balances_cached now behind fetched address c).0
                  found f)
        ]
      ]
