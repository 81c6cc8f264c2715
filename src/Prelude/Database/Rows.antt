-- ===== src/Prelude/Database/Rows.antt =====
-- A table in which one row was written over: what every read of it by id gives.
use Prim.Native.String.{String}
use mathlib.Core.Path.{◌≡◌, ◌∙◌}
use mathlib.Core.Logic.{inl, inr}
use mathlib.Core.Option.{some}
use native.Mathlib.Omega.{arith}
use text.Mathlib.Text.{◌==◌ as str_eq}
use text.Mathlib.TextEquality.{eq_iff}
use text.Mathlib.TextPositions.{eq_refl}
use skaus.Prelude.Tests.{if◌then◌else◌, Bool-cases}
use skaus.Prelude.Database.{Model}

module _ {R : Type 0} {id key : R → String} (m : Model R id key) where
  open m use {Table, find, update, find-update, id-find}

  -- `t'` is `t`, but for the row under `k`, which is `r`.
  pub record Sees (k : String) (t : Table) (r : R) (t' : Table) : Type 0 where
    pub under : id r ≡ k
    pub reads : (j : String) → find j t' ≡ (if str_eq k j then some r else find j t)

  pub Sees-found : (k : String) (t t' : Table) (r : R) → Sees k t r t' → find k t' ≡ some r
  Sees-found k t t' r s = rw (s.reads k, eq_refl k)

  pub Sees-start : (k : String) (t : Table) (r : R) → find k t ≡ some r → Sees k t r t
  Sees-start k t r h = record {
    under = id-find k r t h;
    reads =
        λ j. elim (Bool-cases (str_eq k j)) [ inl e ↦ rw (e, ← (eq_iff k j).0 e) h | inr e ↦ rw e ];
  }

  pub Sees-update :
      (k : String) (t t' : Table) (r r' : R)
      → id r' ≡ id r
      → Sees k t r t'
      → Sees k t r' (update r' t')
  Sees-update k t t' r r' e s =
      let same : id r' ≡ k = e ∙ s.under in
      record {
        under = same;
        reads = λ j.
            find-update r' r j t' (rw same (Sees-found k t t' r s))
            ∙ rw (same, s.reads j) (ground arith);
      }
