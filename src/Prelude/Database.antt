-- ===== src/Prelude/Database.antt =====
-- What the services rely on of a database table with a unique id and one more unique key. The
-- client of the database is not part of the repository, so a table is a parameter: its reads, its
-- writes, and what a read returns after a write.
pub mod Rows
use Prim.Native.String.{String}
use mathlib.Core.Path.{◌≡◌, refl}
use mathlib.Core.Option.{Option, none, some}
use mathlib.Core.List.{List, [], ◌∷◌}
use native.Mathlib.Omega.{arith}
use text.Mathlib.TextEquality.{eq_iff}
use text.Mathlib.Text.{◌==◌ as str_eq}
use skaus.Prelude.Tests.{if◌then◌else◌}

-- `R` is the type of rows, `id` and `key` are its unique columns.
pub record Model (R : Type 0) (id key : R → String) : Type 1 where
  pub Table : Type 0
  pub find : String → Table → Option R
  pub find_key : String → Table → Option R
  pub create : R → Table → Table
  pub update : R → Table → Table
  pub id-find : (k : String) (r : R) (t : Table) → find k t ≡ some r → id r ≡ k
  pub key-find_key : (k : String) (r : R) (t : Table) → find_key k t ≡ some r → key r ≡ k
  pub find-create :
      (r : R) (k : String) (t : Table)
      → find (id r) t ≡ none
      → find k (create r t) ≡ (if str_eq (id r) k then some r else find k t)
  pub find_key-create :
      (r : R) (k : String) (t : Table)
      → find_key (key r) t ≡ none
      → find_key k (create r t) ≡ (if str_eq (key r) k then some r else find_key k t)
  pub find-update :
      (r o : R) (k : String) (t : Table)
      → find (id r) t ≡ some o
      → find k (update r t) ≡ (if str_eq (id r) k then some r else find k t)
  pub find_key-update :
      (r o : R) (k : String) (t : Table)
      → find (id r) t ≡ some o
      → key r ≡ key o
      → find_key k (update r t) ≡ (if str_eq (key r) k then some r else find_key k t)

-- What a query that writes came to: `late` is a query that the caller gave up on, and whose write
-- took effect all the same.
pub data Reply : Type 0 where
  answered lost late : Reply

-- A table as the history of its rows, the newest first: it shows that the laws can be met.
abbrev pub lookup_by : {R : Type 0} → (R → String) → String → List R → Option R
lookup_by f k [] = none
lookup_by f k (r ∷ rs) = if str_eq (f r) k then some r else lookup_by f k rs

pub lookup_by-key :
    {R : Type 0} (f : R → String) (k : String) (r : R) (rs : List R)
    → lookup_by f k rs ≡ some r
    → f r ≡ k
lookup_by-key f k r [] h = cc
lookup_by-key f k r (o ∷ rs) h = ground (arith, eq_iff (f o) k, lookup_by-key f k r rs)

abbrev pub history : {R : Type 0} (id key : R → String) → Model R id key
history {R} id key = record {
  Table = List R;
  find = lookup_by id;
  find_key = lookup_by key;
  create = λ r t. r ∷ t;
  update = λ r t. r ∷ t;
  id-find = lookup_by-key id;
  key-find_key = lookup_by-key key;
  find-create = λ r k t h. refl;
  find_key-create = λ r k t h. refl;
  find-update = λ r o k t h. refl;
  find_key-update = λ r o k t h e. refl;
}
