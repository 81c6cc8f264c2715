-- ===== src/Withdraw/Merkle/Laws.antt =====
-- The path the client computes leads to the root the program computes, and the program accepts it.
use native.Mathlib.Nat.{pow-suc}
use skaus.Prelude.{
  ℕ, zero, suc, ◌+◌, ◌*◌, ◌/◌, ◌%◌, ◌^◌, ◌≤◌, ◌<◌, ◌≡◌, refl, ap, List, [], ◌∷◌, true, length,
  arith, ==_iff,
}
use skaus.Withdraw.Merkle.{
  zeros_from, compute_zeros, entry, hash_level, climb, compute_merkle_path, zero_loop, zero_value,
  insert_loop, insert_leaf, fold_path, verify_proof,
}

module _ (hash : ℕ → ℕ → ℕ) where
  entry-zeros_from : (k i z : ℕ) → i ≤ k → entry i (zeros_from hash k z) ≡ zero_loop hash i z
  unfolding entry zeros_from zero_loop
  entry-zeros_from zero zero z h = refl
  entry-zeros_from (suc k) zero z h = refl
  entry-zeros_from zero (suc i) z h = absurd (omega arith)
  entry-zeros_from (suc k) (suc i) z h = entry-zeros_from k i (hash z z) (omega arith)

  climb-insert_loop :
      (left level current idx : ℕ)
      → level + left ≤ 20
      → (climb hash (compute_zeros hash) left level current idx).root
        ≡ insert_loop hash left level current idx
  unfolding climb insert_loop hash_level zero_value compute_zeros
  climb-insert_loop zero level current idx h = refl
  climb-insert_loop (suc left) level current idx h =
      rw (entry-zeros_from 20 level 0 (omega arith)) (
        climb-insert_loop left (suc level)
          (hash_level hash (idx % 2) current (zero_value hash level)) (idx / 2) (omega arith))

  -- The root of the path computed for a leaf is the root the program computes when it inserts the leaf
  -- at that index, for every hash.
  pub compute_merkle_path-insert_leaf :
      (leaf index : ℕ) → (compute_merkle_path hash leaf index).root ≡ insert_leaf hash leaf index
  unfolding compute_merkle_path insert_leaf
  compute_merkle_path-insert_leaf leaf index = climb-insert_loop 20 0 leaf index (omega arith)

  climb-fold_path :
      (zeros : List ℕ) (left level current idx : ℕ)
      → let p = climb hash zeros left level current idx in
        fold_path hash current p.path_elements p.path_indices ≡ p.root
  unfolding climb fold_path hash_level
  climb-fold_path zeros zero level current idx = refl
  climb-fold_path zeros (suc left) level current idx =
      climb-fold_path zeros left (suc level) (hash_level hash (idx % 2) current (entry level zeros))
        (idx / 2)

  climb-lengths :
      (zeros : List ℕ) (left level current idx : ℕ)
      → let p = climb hash zeros left level current idx in
        (length p.path_elements ≡ left) × (length p.path_indices ≡ left)
  unfolding climb
  climb-lengths zeros zero level current idx = (refl, refl)
  climb-lengths zeros (suc left) level current idx =
      let (elements, indices) =
        climb-lengths zeros left (suc level) (hash_level hash (idx % 2) current (entry level zeros))
          (idx / 2) in
      (ap suc elements, ap suc indices)

  -- The program's verification accepts the computed path for its leaf and its root.
  pub verify_proof-compute_merkle_path :
      (leaf index : ℕ)
      → let p = compute_merkle_path hash leaf index in
        verify_proof hash p.root leaf p.path_elements p.path_indices ≡ true
  unfolding compute_merkle_path verify_proof
  verify_proof-compute_merkle_path leaf index =
      let zeros = compute_zeros hash in
      let (elements, indices) = climb-lengths zeros 20 0 leaf index in
      rw (elements, indices, climb-fold_path zeros 20 0 leaf index)
        ((==_iff (climb hash zeros 20 0 leaf index).root (climb hash zeros 20 0 leaf index).root).1
          refl)

-- The number whose bits are listed, the lowest first.
abbrev pub of_bits : List ℕ → ℕ
of_bits [] = 0
of_bits (b ∷ bs) = b + 2 * of_bits bs

climb-bits :
    (hash : ℕ → ℕ → ℕ) (zeros : List ℕ) (left level current idx : ℕ)
    → idx < 2 ^ left
    → of_bits (climb hash zeros left level current idx).path_indices ≡ idx
unfolding climb
climb-bits hash zeros zero level current idx h = omega arith
climb-bits hash zeros (suc left) level current idx h =
    let current' = hash_level hash (idx % 2) current (entry level zeros) in
    let below : idx < 2 ^ left * 2 = rw (← pow-suc 2 left) h in
    omega (arith, climb-bits hash zeros left (suc level) current' (idx / 2) (omega arith))

-- The path tells the leaves of the tree apart: below 2 ^ 20 its bits, the lowest first, are the index,
-- and it has 20 siblings.
compute_merkle_path-bits :
    (hash : ℕ → ℕ → ℕ) (leaf index : ℕ)
    → index < 2 ^ 20
    → let p = compute_merkle_path hash leaf index in
      (of_bits p.path_indices ≡ index) × (length p.path_elements ≡ 20)
unfolding compute_merkle_path
compute_merkle_path-bits hash leaf index h = (
  climb-bits hash (compute_zeros hash) 20 0 leaf index h,
  (climb-lengths hash (compute_zeros hash) 20 0 leaf index).0,
)
