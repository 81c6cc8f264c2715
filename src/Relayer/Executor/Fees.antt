-- ===== src/Relayer/Executor/Fees.antt =====
-- The priority fee stays between the fallback and what the samples justify.
use skaus.Prelude.{
  ℕ, zero, suc, ◌+◌, ◌*◌, ◌/◌, ◌≤◌, ◌<◌, ◌≡◌, refl, inl, inr, some, List, [], ◌∷◌, ltb, leb, length,
  get_elem?, All, max, arith, Bool-cases,
}
use skaus.Relayer.Executor.{insert, sort, keep_positive, pick, estimate_from, estimate_priority_fee}

module _ (P : ℕ → Type 0) where
  insert-All : (x : ℕ) (xs : List ℕ) → P x → All P xs → All P (insert x xs)
  unfolding insert
  insert-All x [] p h = (p, tt)
  insert-All x (y ∷ ys) p (q, h) = elim (Bool-cases (leb x y)) [
    | inl e ↦ rw e (p, (q, h))
    | inr e ↦ rw e (q, insert-All x ys p h)
  ]

  pub sort-All : (xs : List ℕ) → All P xs → All P (sort xs)
  unfolding sort
  sort-All [] h = tt
  sort-All (x ∷ xs) (p, h) = insert-All x (sort xs) p (sort-All xs h)

  keep_positive-All : (xs : List ℕ) → All P xs → All P (keep_positive xs)
  unfolding keep_positive
  keep_positive-All [] h = tt
  keep_positive-All (x ∷ xs) (p, h) = elim (Bool-cases (ltb 0 x)) [
    | inl e ↦ rw e (p, keep_positive-All xs h)
    | inr e ↦ rw e (keep_positive-All xs h)
  ]

  pub get_elem?-All : (xs : List ℕ) (i : ℕ) (x : ℕ) → All P xs → get_elem? xs i ≡ some x → P x
  get_elem?-All [] i x h e = absurd (ground arith)
  get_elem?-All (y ∷ xs) zero x (p, h) e = let same : x ≡ y = ground arith in rw same p
  get_elem?-All (y ∷ xs) (suc i) x (p, h) e = get_elem?-All xs i x h e

get_elem?-within :
    {A : Type 0} (xs : List A) (i : ℕ) → i < length xs → (x : A) × (get_elem? xs i ≡ some x)
get_elem?-within [] i h = absurd (omega arith)
get_elem?-within (x ∷ xs) zero h = (x, refl)
get_elem?-within (x ∷ xs) (suc i) h = get_elem?-within xs i (omega arith)

-- The index of the percentile is in range, so the fallback of `??` is never taken.
pick-percentile :
    (x : ℕ) (xs : List ℕ)
    → get_elem? (x ∷ xs) (length (x ∷ xs) * 3 / 4) ≡ some (pick (x ∷ xs) (length (x ∷ xs) * 3 / 4))
unfolding pick
pick-percentile x xs =
    let (p, e) = get_elem?-within (x ∷ xs) (length (x ∷ xs) * 3 / 4) (omega arith) in rw (e, pick)

estimate_from-le :
    (b : ℕ) (xs : List ℕ) → All (λ x. x ≤ b) xs → estimate_from xs ≤ max ((b * 5 + 3) / 4) 10_000
unfolding estimate_from
estimate_from-le b [] h = omega arith
estimate_from-le b (x ∷ xs) h =
    omega (arith, get_elem?-All (λ x. x ≤ b) (x ∷ xs) _ _ h (pick-percentile x xs))

estimate_from-ge : (xs : List ℕ) → 10_000 ≤ estimate_from xs
unfolding estimate_from
estimate_from-ge [] = omega arith
estimate_from-ge (x ∷ xs) = omega arith

-- The fee is never below the fallback, and never above both the fallback and 1.25 times, rounded
-- up, a bound on the samples.
estimate_priority_fee_bounds :
    (samples : List ℕ) (b : ℕ)
    → All (λ x. x ≤ b) samples
    → (10_000 ≤ estimate_priority_fee (some samples))
      × (estimate_priority_fee (some samples) ≤ max ((b * 5 + 3) / 4) 10_000)
unfolding estimate_priority_fee
estimate_priority_fee_bounds samples b h = (
  estimate_from-ge (sort (keep_positive samples)),
  estimate_from-le b (sort (keep_positive samples)) (sort-All _ _ (keep_positive-All _ samples h)),
)
