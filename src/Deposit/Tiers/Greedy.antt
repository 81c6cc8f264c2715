-- ===== src/Deposit/Tiers/Greedy.antt =====
-- What the deposits add up to, and what is left over.
use skaus.Prelude.{
  ℕ, zero, suc, ◌+◌, ◌-◌, ◌%◌, ◌≤◌, ◌<◌, ◌≡◌, refl, sym, ◌≢◌, lt→ltb, ge→ltb, ◌∙◌, ◌⊎◌, inl, inr,
  true, Option, some, List, [], ◌∷◌, leb, ltb, if◌then◌else◌, length, All, arith, Bool-cases,
  leb→le, leb-false,
}
use native.Mathlib.Nat.{mod-eq-sub-mod, mod-eq_of_lt}
use skaus.Prelude.Bytes.{sum}
use skaus.Deposit.Tiers.{
  insert, sort, peel, append, split_from, split_into_tiers_with_remainder, exact, inexact,
  split_into_tiers, Token, usdc, sol, tiers_of, min_deposit, preview_deposit, below_minimum,
  unsplittable, deposits, plan_deposit,
}

sum-append : (xs ys : List ℕ) → sum (append xs ys) ≡ sum xs + sum ys
sum-append [] ys = omega arith
sum-append (x ∷ xs) ys = omega (arith, sum-append xs ys)

-- Of one tier as many are taken as fit.
record Peeled (tier remaining : ℕ) (result : Option (List ℕ × ℕ)) : Type 0 where
  taken : List ℕ
  left : ℕ
  ends : result ≡ some (taken, left)
  total : sum taken + left ≡ remaining
  all_tier : All (λ d. d ≡ tier) taken
  fits : left ≡ remaining % tier

peel-Peeled :
    (fuel tier remaining : ℕ)
    → remaining < fuel
    → 0 < tier
    → Peeled tier remaining (peel fuel tier remaining)
unfolding peel
peel-Peeled zero tier remaining h p = absurd (omega arith)
peel-Peeled (suc fuel) tier remaining h p = elim (Bool-cases (leb tier remaining)) [
  | inl e ↦
      let le = leb→le tier remaining e in
      let rest = peel-Peeled fuel tier (remaining - tier) (omega arith) p in
      record {
        taken = tier ∷ rest.taken;
        left = rest.left;
        ends = rw (e, rest.ends);
        total = omega (arith, rest.total);
        all_tier = (refl, rest.all_tier);
        fits = rest.fits ∙ sym (mod-eq-sub-mod le);
      }
  | inr e ↦ record {
    taken = [];
    left = remaining;
    ends = rw e;
    total = omega arith;
    all_tier = tt;
    fits = sym (mod-eq_of_lt (leb-false tier remaining e));
  }
]

abbrev pub IsAmong : ℕ → List ℕ → Type 0
IsAmong d [] = ⊥
IsAmong d (t ∷ ts) = (d ≡ t) ⊎ IsAmong d ts

-- What is left of an amount behind each tier in turn.
abbrev mods : List ℕ → ℕ → ℕ
mods [] n = n
mods (t ∷ ts) n = mods ts (n % t)

All-map : (P Q : ℕ → Type 0) → ((n : ℕ) → P n → Q n) → (xs : List ℕ) → All P xs → All Q xs
All-map P Q f [] h = tt
All-map P Q f (x ∷ xs) (p, h) = (f x p, All-map P Q f xs h)

All-both : (P : ℕ → Type 0) (xs ys : List ℕ) → All P xs → All P ys → All P (append xs ys)
All-both P [] ys h k = k
All-both P (x ∷ xs) ys (p, h) k = (p, All-both P xs ys h k)

record Splits (tiers : List ℕ) (remaining : ℕ) (result : Option (List ℕ × ℕ)) : Type 0 where
  taken : List ℕ
  ends : result ≡ some (taken, mods tiers remaining)
  total : sum taken + mods tiers remaining ≡ remaining
  among : All (λ d. IsAmong d tiers) taken

split_from-Splits :
    (fuel : ℕ) (tiers : List ℕ) (remaining : ℕ)
    → remaining < fuel
    → All (λ t. 0 < t) tiers
    → Splits tiers remaining (split_from fuel tiers remaining)
unfolding split_from
split_from-Splits fuel [] remaining h p = record {
  taken = [];
  ends = refl;
  total = omega arith;
  among = tt;
}
split_from-Splits fuel (t ∷ ts) remaining h (p, ps) =
    let first = peel-Peeled fuel t remaining h p in
    let below : remaining % t < fuel = omega (arith, first.total, first.fits) in
    let rest = split_from-Splits fuel ts (remaining % t) below ps in
    record {
      taken = append first.taken rest.taken;
      ends = rw (first.ends, split_from, first.fits, rest.ends);
      total = omega (arith, sum-append first.taken rest.taken, first.total, first.fits, rest.total);
      among =
          All-both _ first.taken rest.taken (All-map _ _ (λ n e. inl e) first.taken first.all_tier)
            (All-map _ _ (λ n e. inr e) rest.taken rest.among);
    }

insert-All : (P : ℕ → Type 0) (x : ℕ) (xs : List ℕ) → P x → All P xs → All P (insert x xs)
unfolding insert
insert-All P x [] p h = (p, tt)
insert-All P x (y ∷ ys) p (q, h) = elim (Bool-cases (leb y x)) [
  | inl e ↦ rw e (p, (q, h))
  | inr e ↦ rw e (q, insert-All P x ys p h)
]

sort-All : (P : ℕ → Type 0) (xs : List ℕ) → All P xs → All P (sort xs)
unfolding sort
sort-All P [] h = tt
sort-All P (x ∷ xs) (p, h) = insert-All P x (sort xs) p (sort-All P xs h)

IsAmong-insert : (d x : ℕ) (xs : List ℕ) → IsAmong d (insert x xs) → IsAmong d (x ∷ xs)
unfolding insert
IsAmong-insert d x [] h = h
IsAmong-insert d x (y ∷ ys) h = elim (Bool-cases (leb y x)) [
  | inl e ↦ rw e at h
  | inr e ↦
      let h' : IsAmong d (y ∷ insert x ys) = rw e at h in
      elim h' [
        | inl f ↦ inr (inl f)
        | inr f ↦ elim (IsAmong-insert d x ys f) [ inl g ↦ inl g | inr g ↦ inr (inr g) ]
      ]
]

IsAmong-sort : (d : ℕ) (xs : List ℕ) → IsAmong d (sort xs) → IsAmong d xs
unfolding sort
IsAmong-sort d [] h = h
IsAmong-sort d (x ∷ xs) h = elim (IsAmong-insert d x (sort xs) h) [
  | inl e ↦ inl e
  | inr e ↦ inr (IsAmong-sort d xs e)
]

-- With tiers of at least 1 the split ends, every deposit is one of the tiers, and the deposits and
-- the remainder add up to the amount.
split_into_tiers_with_remainder-total :
    (amount : ℕ) (tiers : List ℕ)
    → All (λ t. 0 < t) tiers
    → (ds : List ℕ) × (r : ℕ) × (split_into_tiers_with_remainder amount tiers ≡ some (ds, r))
      × (sum ds + r ≡ amount)
      × All (λ d. IsAmong d tiers) ds
unfolding split_into_tiers_with_remainder
split_into_tiers_with_remainder-total amount tiers h =
    let s =
      split_from-Splits (suc amount) (sort tiers) amount (omega arith)
        (sort-All (λ t. 0 < t) tiers h) in
    (
      s.taken,
      mods (sort tiers) amount,
      s.ends,
      s.total,
      All-map _ _ (λ d. IsAmong-sort d tiers) s.taken s.among,
    )

tiers_positive : (t : Token) → All (λ t. 0 < t) (tiers_of t)
tiers_positive usdc = omega arith
tiers_positive sol = omega arith

-- Each tier is ten times the one below, so the smallest decides what is left.
mods-tiers : (t : Token) (amount : ℕ) → mods (sort (tiers_of t)) amount ≡ amount % min_deposit t
unfolding sort
mods-tiers usdc amount = omega arith
mods-tiers sol amount = omega arith

token-Splits :
    (t : Token) (amount : ℕ)
    → (ds : List ℕ) × (split_from (suc amount) (sort (tiers_of t)) amount
        ≡ some (ds, amount % min_deposit t))
      × (sum ds + amount % min_deposit t ≡ amount)
      × All (λ d. IsAmong d (tiers_of t)) ds
token-Splits t amount =
    let s =
      split_from-Splits (suc amount) (sort (tiers_of t)) amount (omega arith)
        (sort-All (λ t. 0 < t) (tiers_of t) (tiers_positive t)) in
    (
      s.taken,
      rw (← mods-tiers t amount) s.ends,
      rw (← mods-tiers t amount) s.total,
      All-map _ _ (λ d. IsAmong-sort d (tiers_of t)) s.taken s.among,
    )

split_into_tiers-token :
    (t : Token) (amount : ℕ) (ds : List ℕ)
    → split_from (suc amount) (sort (tiers_of t)) amount ≡ some (ds, amount % min_deposit t)
    → split_into_tiers amount (tiers_of t)
      ≡ some (if ltb 0 (amount % min_deposit t) then inexact (amount % min_deposit t) else exact ds)
unfolding split_into_tiers
split_into_tiers-token t amount ds e = rw (e, split_into_tiers)

preview_deposit-token :
    (t : Token) (amount : ℕ) (ds : List ℕ)
    → split_from (suc amount) (sort (tiers_of t)) amount ≡ some (ds, amount % min_deposit t)
    → preview_deposit amount t ≡ some (length ds, amount % min_deposit t)
unfolding preview_deposit split_into_tiers_with_remainder
preview_deposit-token t amount ds e = rw (e, preview_deposit, split_into_tiers_with_remainder)

-- An amount that is a positive multiple of the token's smallest tier is deposited whole, in tiers of
-- the token, and the preview counts as many deposits and leaves no remainder.
pub plan_deposit-exact :
    (t : Token) (amount : ℕ)
    → min_deposit t ≤ amount
    → amount % min_deposit t ≡ 0
    → (ds : List ℕ) × (plan_deposit amount t ≡ some (deposits ds))
      × (sum ds ≡ amount)
      × All (λ d. IsAmong d (tiers_of t)) ds
      × (preview_deposit amount t ≡ some (length ds, 0))
unfolding plan_deposit
plan_deposit-exact t amount h e =
    let (ds, ends, total, among) = token-Splits t amount in
    let split : split_into_tiers amount (tiers_of t) ≡ some (exact ds) =
      rw (split_into_tiers-token t amount ds ends, e) in
    (
      ds,
      rw (ge→ltb amount (min_deposit t) h, plan_deposit, split),
      omega (arith, total, e),
      among,
      rw (preview_deposit-token t amount ds ends, e),
    )

-- An amount that is no multiple of the token's smallest tier is refused: below that tier as too
-- small, and else with the remainder that the preview shows.
plan_deposit-refused :
    (t : Token) (amount : ℕ)
    → amount % min_deposit t ≢ 0
    → (n : ℕ) × (plan_deposit amount t
        ≡ some (
            if ltb amount (min_deposit t)
            then below_minimum
            else unsplittable (amount % min_deposit t)))
      × (preview_deposit amount t ≡ some (n, amount % min_deposit t))
unfolding plan_deposit
plan_deposit-refused t amount e =
    let (ds, ends, total, among) = token-Splits t amount in
    let left : ltb 0 (amount % min_deposit t) ≡ true =
      lt→ltb 0 (amount % min_deposit t) (omega arith) in
    let split : split_into_tiers amount (tiers_of t) ≡ some (inexact (amount % min_deposit t)) =
      rw (split_into_tiers-token t amount ds ends, left) in
    (
      length ds,
      elim (Bool-cases (ltb amount (min_deposit t))) [
        | inl small ↦ rw (small, plan_deposit)
        | inr big ↦ rw (big, plan_deposit, split)
      ],
      preview_deposit-token t amount ds ends,
    )
