-- ===== src/Gateway/Balances/Tests.antt =====
-- A run of the cached balances at concrete answers.
use skaus.Prelude.{ℕ, ◌+◌, ◌≤◌, ◌<◌, ◌≡◌, refl, String, true, ◌⊎◌, List, [], ◌∷◌, arith}
use skaus.Gateway.Balances.{
  TokenBalance, Balances, failed_balances, balances_of, BalanceCache, cached, remember, fresh_entry,
  fetch_solana_balances_cached, is_base58, all_base58, characters, is_address, with_balances,
  get_balances,
}
use skaus.Gateway.Balances.Fresh.{Reaches, empty, wait, back, get_balances-fresh}

abbrev wallet : String
wallet = "11111111111111111111111111111111"

abbrev nothing : List (TokenBalance ℕ)
nothing = []

abbrev Answered : String → ℕ → Balances ℕ → Type 0
Answered address t b = b ≡ balances_of nothing

abbrev filled : BalanceCache ℕ
filled = (wallet, record { found = nothing; at = 5 }) ∷ []

reached : Reaches Answered 100 filled
unfolding remember
reached =
    wait 100 (omega arith) (back wallet (balances_of nothing) refl (wait 5 (omega arith) empty))

sent : (get_balances true 100 101 (failed_balances "down") wallet filled).0 ≡ with_balances nothing
unfolding get_balances is_address characters all_base58 is_base58 fetch_solana_balances_cached
    fresh_entry cached
sent = refl

get_balances-fresh_example :
    (failed_balances "down" ≡ balances_of nothing)
    ⊎ ((t : ℕ) × Answered wallet t (balances_of nothing) × (t ≤ 100) × (100 < t + 30_000))
get_balances-fresh_example =
    get_balances-fresh Answered true 100 101 (failed_balances "down") wallet filled nothing reached
      sent
