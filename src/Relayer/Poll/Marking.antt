-- ===== src/Relayer/Poll/Marking.antt =====
-- What `updateMany` of the poll loop does to the table of jobs.
use skaus.Prelude.{
  String, ◌≡◌, refl, Bool, true, false, ◌&&◌, ◌||◌, Option, none, some, List, [], ◌∷◌, inl, inr,
  if◌then◌else◌, Bool-cases, Option-cases, str_eq, eq_iff, arith,
}
use skaus.Prelude.Database.Rows.{Sees-start, Sees-update}
use skaus.Relayer.Job.{processing, WithdrawalJob, Jobs}
use skaus.Relayer.Poll.{is_pending, mark_one, mark_processing}

abbrev pub is_among : String → List String → Bool
is_among k [] = false
is_among k (id ∷ ids) = str_eq id k || is_among k ids

-- A pending row goes to processing, any other row stays.
abbrev pub taken : Bool → Option WithdrawalJob → Option WithdrawalJob
taken b none = none
taken b (some j) = some (if b && is_pending j.status then record j { status = processing } else j)

taken-false : (o : Option WithdrawalJob) → taken false o ≡ o
taken-false none = refl
taken-false (some j) = refl

taken-taken : (b c : Bool) (o : Option WithdrawalJob) → taken c (taken b o) ≡ taken (b || c) o
taken-taken b c none = refl
taken-taken true c (some j) = ground arith
taken-taken false c (some j) = refl

module _ (m : Jobs) where
  open m use {Table, find, update}

  -- The row of a pending job is written over, at every id that is read.
  mark-found :
      (id k : String) (t : Table) (j : WithdrawalJob)
      → find id t ≡ some j
      → find k t ≡ (if str_eq id k then some j else find k t)
  mark-found id k t j e = (Sees-start m id t j e).reads k

  mark-written :
      (id k : String) (t : Table) (j r : WithdrawalJob)
      → r.id ≡ j.id
      → find id t ≡ some j
      → find k (update r t) ≡ (if str_eq id k then some r else find k t)
  mark-written id k t j r same e = (Sees-update m id t t j r same (Sees-start m id t j e)).reads k

  find-mark_one :
      (id k : String) (t : Table) → find k (mark_one m id t) ≡ taken (str_eq id k) (find k t)
  unfolding mark_one
  find-mark_one id k t = elim (Option-cases (find id t)) [
    | inl e ↦ elim (Bool-cases (str_eq id k)) [
      | inl same ↦ rw (e, mark_one, same, ← (eq_iff id k).0 same, e)
      | inr other ↦ rw (e, mark_one, other, taken-false (find k t))
    ]
    | inr (j, e) ↦ elim (Bool-cases (is_pending j.status)) [
      | inl p ↦
          rw (e, mark_one, p, mark-written id k t j (record j { status = processing }) refl e)
            (ground (arith, mark-found id k t j e))
      | inr q ↦ rw (e, mark_one, q) (ground (arith, mark-found id k t j e))
    ]
  ]

  -- Among the ids that the query names, the jobs that are pending, and no others, go to processing.
  find-mark_processing :
      (ids : List String) (k : String) (t : Table)
      → find k (mark_processing m ids t) ≡ taken (is_among k ids) (find k t)
  unfolding mark_processing
  find-mark_processing [] k t = rw (taken-false (find k t))
  find-mark_processing (id ∷ ids) k t =
      rw (find-mark_processing ids k (mark_one m id t), find-mark_one id k t)
        (taken-taken (str_eq id k) (is_among k ids) (find k t))
