-- ===== src/Withdraw/Merkle.antt =====
-- packages/sdk/src/pool/proof.ts: the path of a leaf in the incremental tree, beside the insertion
-- and the verification of programs/stealth-pool/src/utils/merkle.rs. The Poseidon hash of two field
-- elements is a parameter. `idx & 1` and `idx >> 1` are the remainder and the quotient by 2: the 20
-- levels read the low 20 bits alone, which the source's conversion to 32 bits keeps.
pub mod Laws
use skaus.Prelude.{
  ℕ, zero, suc, ◌+◌, ◌-◌, ◌*◌, ◌/◌, ◌%◌, List, [], ◌∷◌, Bool, true, false, ◌==◌, if◌then◌else◌,
  length,
}

abbrev pub merkle_depth : ℕ
merkle_depth = 20

unfoldable pub zeros_from : (ℕ → ℕ → ℕ) → ℕ → ℕ → List ℕ
zeros_from hash zero last = last ∷ []
zeros_from hash (suc n) last = last ∷ zeros_from hash n (hash last last)

unfoldable pub compute_zeros : (ℕ → ℕ → ℕ) → List ℕ
compute_zeros hash = zeros_from hash merkle_depth 0

-- `zeros[level]`
unfoldable pub entry : ℕ → List ℕ → ℕ
entry level [] = 0
entry zero (z ∷ zs) = z
entry (suc level) (z ∷ zs) = entry level zs

pub record MerklePath : Type 0 where
  pub path_elements : List ℕ
  pub path_indices : List ℕ
  pub root : ℕ

-- The two orders of a level.
unfoldable pub hash_level : (ℕ → ℕ → ℕ) → ℕ → ℕ → ℕ → ℕ
hash_level hash bit current sibling =
    if bit == 0 then hash current sibling else hash sibling current

-- The loop of `computeMerklePath`, with the levels left and the level it is at.
unfoldable pub climb : (ℕ → ℕ → ℕ) → List ℕ → ℕ → ℕ → ℕ → ℕ → MerklePath
climb hash zeros zero level current idx = record {
  path_elements = [];
  path_indices = [];
  root = current;
}
climb hash zeros (suc left) level current idx =
    let rest =
      climb hash zeros left (suc level) (hash_level hash (idx % 2) current (entry level zeros))
        (idx / 2) in
    record {
      path_elements = entry level zeros ∷ rest.path_elements;
      path_indices = idx % 2 ∷ rest.path_indices;
      root = rest.root;
    }

unfoldable pub compute_merkle_path : (ℕ → ℕ → ℕ) → ℕ → ℕ → MerklePath
compute_merkle_path hash leaf index = climb hash (compute_zeros hash) merkle_depth 0 leaf index

-- `zero_value(level)` of the program: the loop hashes the value with itself.
unfoldable pub zero_loop : (ℕ → ℕ → ℕ) → ℕ → ℕ → ℕ
zero_loop hash zero current = current
zero_loop hash (suc n) current = zero_loop hash n (hash current current)

unfoldable pub zero_value : (ℕ → ℕ → ℕ) → ℕ → ℕ
zero_value hash level = zero_loop hash level 0

unfoldable pub insert_loop : (ℕ → ℕ → ℕ) → ℕ → ℕ → ℕ → ℕ → ℕ
insert_loop hash zero level current idx = current
insert_loop hash (suc left) level current idx =
    insert_loop hash left (suc level)
      (if idx % 2 == 0
        then hash current (zero_value hash level)
        else hash (zero_value hash level) current)
      (idx / 2)

unfoldable pub insert_leaf : (ℕ → ℕ → ℕ) → ℕ → ℕ → ℕ
insert_leaf hash leaf index = insert_loop hash merkle_depth 0 leaf index

-- The loop of `verify_proof` over the path and its bits.
unfoldable pub fold_path : (ℕ → ℕ → ℕ) → ℕ → List ℕ → List ℕ → ℕ
fold_path hash current [] bits = current
fold_path hash current (e ∷ es) [] = current
fold_path hash current (e ∷ es) (b ∷ bs) =
    fold_path hash (if b == 0 then hash current e else hash e current) es bs

unfoldable pub verify_proof : (ℕ → ℕ → ℕ) → ℕ → ℕ → List ℕ → List ℕ → Bool
verify_proof hash root leaf path path_indices =
    if length path == merkle_depth
    then (if length path_indices == merkle_depth
        then fold_path hash leaf path path_indices == root
        else false)
    else false
