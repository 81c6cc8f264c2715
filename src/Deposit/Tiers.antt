-- ===== src/Deposit/Tiers.antt =====
-- packages/types/src/index.ts: an amount is split into deposits of fixed sizes, greedily from the
-- largest. Amounts are natural numbers. The inner loop takes fuel: `none` means that it did not end.
pub mod Greedy
use skaus.Prelude.{
  ℕ, zero, suc, ◌-◌, Bool, true, false, Option, none, some, List, [], ◌∷◌, leb, ltb, if◌then◌else◌,
  length,
}

abbrev pub deposit_tiers_usdc : List ℕ
deposit_tiers_usdc =
    10_000 ∷ 100_000 ∷ 1_000_000 ∷ 10_000_000 ∷ 100_000_000 ∷ 1_000_000_000 ∷ 10_000_000_000 ∷ []

abbrev pub deposit_tiers_sol : List ℕ
deposit_tiers_sol =
    1_000_000 ∷ 10_000_000 ∷ 100_000_000 ∷ 1_000_000_000 ∷ 10_000_000_000 ∷ 100_000_000_000 ∷ []

unfoldable pub insert : ℕ → List ℕ → List ℕ
insert x [] = x ∷ []
insert x (y ∷ ys) = if leb y x then x ∷ y ∷ ys else y ∷ insert x ys

-- `[...tiers].sort((a, b) => …)`, the largest first.
unfoldable pub sort : List ℕ → List ℕ
unfolding insert
sort [] = []
sort (x ∷ xs) = insert x (sort xs)

-- `while (remaining >= tier)`: what is taken comes in front of what the rest of the loop takes.
unfoldable pub peel : ℕ → ℕ → ℕ → Option (List ℕ × ℕ)
peel zero tier remaining = none
peel (suc fuel) tier remaining =
    let more = peel fuel tier (remaining - tier) in
    if leb tier remaining
    then (elim more [ none ↦ none | some (ds, r) ↦ some (tier ∷ ds, r) ])
    else some ([], remaining)

abbrev pub append : List ℕ → List ℕ → List ℕ
append [] ys = ys
append (x ∷ xs) ys = x ∷ append xs ys

-- `for (const tier of sorted)`.
unfoldable pub split_from : ℕ → List ℕ → ℕ → Option (List ℕ × ℕ)
split_from fuel [] remaining = some ([], remaining)
split_from fuel (tier ∷ tiers) remaining = elim (peel fuel tier remaining) [
  | none ↦ none
  | some (ds, r) ↦ elim (split_from fuel tiers r) [
    | none ↦ none
    | some (es, s) ↦ some (append ds es, s)
  ]
]

-- The deposits and the remainder. A loop with a tier of at least 1 takes at most `amount` rounds.
unfoldable pub split_into_tiers_with_remainder : ℕ → List ℕ → Option (List ℕ × ℕ)
split_into_tiers_with_remainder amount tiers = split_from (suc amount) (sort tiers) amount

pub data Split : Type 0 where
  exact : List ℕ → Split
  -- the error, with the remainder that its message names
  inexact : ℕ → Split

unfoldable pub split_into_tiers : ℕ → List ℕ → Option Split
split_into_tiers amount tiers = elim (split_from (suc amount) (sort tiers) amount) [
  | none ↦ none
  | some (ds, r) ↦ some (if ltb 0 r then inexact r else exact ds)
]

pub data Token : Type 0 where
  usdc sol : Token

abbrev pub tiers_of : Token → List ℕ
tiers_of usdc = deposit_tiers_usdc
tiers_of sol = deposit_tiers_sol

abbrev pub min_deposit : Token → ℕ
min_deposit usdc = 10_000
min_deposit sol = 1_000_000

-- `previewDeposit`: the number of deposits and the remainder.
unfoldable pub preview_deposit : ℕ → Token → Option (ℕ × ℕ)
preview_deposit amount token = elim (split_into_tiers_with_remainder amount (tiers_of token)) [
  | none ↦ none
  | some (ds, r) ↦ some (length ds, r)
]

-- The checks that `executeDeposit` makes before its first deposit: `inl` is an error.
pub data Plan : Type 0 where
  below_minimum : Plan
  unsplittable : ℕ → Plan
  deposits : List ℕ → Plan

unfoldable pub plan_deposit : ℕ → Token → Option Plan
plan_deposit amount token =
    if ltb amount (min_deposit token)
    then some below_minimum
    else (elim (split_into_tiers amount (tiers_of token)) [
      | none ↦ none
      | some (inexact r) ↦ some (unsplittable r)
      | some (exact ds) ↦ some (deposits ds)
    ])
