-- ===== src/Web/Withdrawals/Handled.antt =====
-- What the rounds of the withdrawals have done for a list of ids, and how two such lists are composed.
use mathlib.Core.Bool.{true≢false}
use skaus.Prelude.{
  ℕ, ◌+◌, ◌≡◌, refl, ◌∙◌, sym, ap, String, Bool, true, false, ◌&&◌, inl, inr, Option, some, List,
  [], ◌∷◌, ◌++◌, if◌then◌else◌, str_eq, eq_iff, Bool-cases, arith,
}
use skaus.Prelude.Bytes.{Bytes}
use skaus.Wallet.Scan.{ScannedDeposit}
use skaus.Web.Withdrawals.{
  DashboardDeposit, is_available, find_deposit, has_available, update_deposit, keep, includes,
  total_balance, Round, Outcome,
}
use skaus.Web.Withdrawals.Settled.{
  called, called-append, Distinct, amounts, times, amounts-append, times-append, find_deposit-id,
  find_deposit-update_deposit, update_deposit-Distinct, total_balance-update_deposit, both,
  both-deposit, both-unavailable, IsSettled, IsSettled-both, IsSettled-unavailable,
}
use skaus.Web.Withdrawals.Ends.{Ends, called-Ends}

includes-keep :
    (k : String) (test : String → Bool) (ids : List String)
    → includes k (keep test ids) ≡ (includes k ids && test k)
unfolding includes keep
includes-keep k test [] = refl
includes-keep k test (id ∷ ids) = ground (arith, eq_iff id k, includes-keep k test ids)

-- Whether an id is asked for and is available.
abbrev pub is_due : List String → List DashboardDeposit → String → Bool
is_due ids ds k = includes k ids && has_available ds k

-- What the rounds are answered, and where the withdrawals go.
module _ (poseidon : List ℕ → ℕ) (demo : Bool) (decode : String → Option Bytes) (rounds : ℕ → Round)
    (recipient : String) where
  -- One round took the deposit of an id up: `made` are its calls of `executeWithdraw`.
  pub record Ended (k : String) (ds : List DashboardDeposit)
      (calls : List (ScannedDeposit × List ℕ)) (ds' : List DashboardDeposit)
      (calls' : List (ScannedDeposit × List ℕ)) : Type 0 where
    pub round : ℕ
    pub was : DashboardDeposit
    pub is : DashboardDeposit
    pub outcome : Outcome
    pub made : List (ScannedDeposit × List ℕ)
    pub found : find_deposit k ds ≡ some was
    pub ends : Ends poseidon demo decode rounds recipient (rounds round) was.deposit outcome made
    pub left : find_deposit k ds' ≡ some is
    pub deposit : is.deposit ≡ was.deposit
    pub settled : IsSettled outcome is
    pub count : called k calls' ≡ called k calls + called k made

  -- From the deposits `ds`, with what was begun and called so far, the ids were handled.
  pub record Handles (ids : List String) (ds : List DashboardDeposit) (begun : List ScannedDeposit)
      (calls : List (ScannedDeposit × List ℕ)) (ds' : List DashboardDeposit)
      (begun' : List ScannedDeposit) (calls' : List (ScannedDeposit × List ℕ)) : Type 0 where
    pub balance : total_balance ds + amounts begun ≡ total_balance ds' + amounts begun'
    pub distinct : Distinct ds'
    pub count : (k : String) → times k begun' ≡ times k begun + (if is_due ids ds k then 1 else 0)
    pub ended : (k : String) → is_due ids ds k ≡ true → Ended k ds calls ds' calls'
    pub kept : (k : String) → is_due ids ds k ≡ false → find_deposit k ds' ≡ find_deposit k ds
    pub uncalled : (k : String) → is_due ids ds k ≡ false → called k calls' ≡ called k calls

  pub Handles-none :
      (ds : List DashboardDeposit) (begun : List ScannedDeposit)
      (calls : List (ScannedDeposit × List ℕ))
      → Distinct ds
      → Handles [] ds begun calls ds begun calls
  unfolding includes
  Handles-none ds begun calls h = record {
    balance = refl;
    distinct = h;
    count = λ k. ground arith;
    ended = λ k e. absurd (true≢false (sym e));
    kept = λ k e. refl;
    uncalled = λ k e. refl;
  }

  -- An id that is not available changes nothing.
  pub Handles-skip :
      (id : String) (ds : List DashboardDeposit) (begun : List ScannedDeposit)
      (calls : List (ScannedDeposit × List ℕ))
      → Distinct ds
      → has_available ds id ≡ false
      → Handles (id ∷ []) ds begun calls ds begun calls
  unfolding includes
  Handles-skip id ds begun calls h a =
      let idle =
        λ (k : String). let t : is_due (id ∷ []) ds k ≡ false = ground (arith, eq_iff id k) in t in
      record {
        balance = refl;
        distinct = h;
        count = λ k. ground (arith, idle k);
        ended = λ k e. absurd (true≢false (sym e ∙ idle k));
        kept = λ k e. refl;
        uncalled = λ k e. refl;
      }

  pub Handles-one :
      (i : ℕ) (id : String) (o : Outcome) (made : List (ScannedDeposit × List ℕ))
      (d : DashboardDeposit) (ds : List DashboardDeposit) (begun : List ScannedDeposit)
      (calls : List (ScannedDeposit × List ℕ))
      → Ends poseidon demo decode rounds recipient (rounds i) d.deposit o made
      → Distinct ds
      → find_deposit id ds ≡ some d
      → is_available d.status ≡ true
      → Handles
          (id ∷ [])
          ds
          begun
          calls
          (update_deposit id (both o) ds)
          (begun ++ d.deposit ∷ [])
          (calls ++ made)
  unfolding includes has_available
  Handles-one i id o made d ds begun calls ends h e a =
      let same = both-deposit o in
      let named = find_deposit-id id ds d e in
      record {
        balance = omega (
          arith,
          amounts-append begun d.deposit,
          total_balance-update_deposit (both o) same id ds d h e a (both-unavailable o d),
        );
        distinct = update_deposit-Distinct (both o) same id ds h;
        count = λ k. ground (arith, named, times-append k begun d.deposit, eq_iff id k);
        ended = λ k due.
            let key : id ≡ k = ground (arith, eq_iff id k) in
            record {
              round = i;
              was = d;
              is = both o d;
              outcome = o;
              made = made;
              found = rw (← key) e;
              ends = ends;
              left = ground (arith, eq_iff id k, find_deposit-update_deposit (both o) same k id ds);
              deposit = same d;
              settled = IsSettled-both o d;
              count = called-append k calls made;
            };
        kept =
            λ k due. ground (arith, eq_iff id k, find_deposit-update_deposit (both o) same k id ds);
        uncalled = λ k due.
            let other : str_eq d.deposit.id k ≡ false = ground (arith, named, eq_iff id k, e, a) in
            omega (
              arith,
              called-append k calls made,
              called-Ends poseidon demo decode rounds recipient k (rounds i) d.deposit o made ends
                  other,
            );
      }

  -- One id after the other.
  module _ (id : String) (ids : List String) (ds ds' ds'' : List DashboardDeposit)
      (begun begun' begun'' : List ScannedDeposit)
      (calls calls' calls'' : List (ScannedDeposit × List ℕ))
      (first : Handles (id ∷ []) ds begun calls ds' begun' calls')
      (rest : Handles ids ds' begun' calls' ds'' begun'' calls'') (k : String) where
    -- The first id was due, so that its deposit is left alone by the rest.
    due_first :
        is_due (id ∷ []) ds k ≡ true → (is_due (id ∷ ids) ds k ≡ true) × (is_due ids ds' k ≡ false)
    unfolding includes has_available
    due_first h =
        let e = first.ended k h in
        let gone : is_available e.is.status ≡ false =
          IsSettled-unavailable e.outcome e.is e.settled in
        let left = e.left in
        let none_left : has_available ds' k ≡ false = rw (left, gone) refl in ground arith

    due_rest : is_due (id ∷ []) ds k ≡ false → is_due (id ∷ ids) ds k ≡ is_due ids ds' k
    unfolding includes has_available
    due_rest h = let same = first.kept k h in ground (arith, eq_iff id k)

    next_count : times k begun'' ≡ times k begun + (if is_due (id ∷ ids) ds k then 1 else 0)
    next_count = elim (Bool-cases (is_due (id ∷ []) ds k)) [
      | inl e ↦ let (a, b) = due_first e in rw (rest.count k, b, first.count k, e, a) (omega arith)
      | inr e ↦ rw (rest.count k, first.count k, e, due_rest e) (omega arith)
    ]

    next-Ended : is_due (id ∷ ids) ds k ≡ true → Ended k ds calls ds'' calls''
    next-Ended due = elim (Bool-cases (is_due (id ∷ []) ds k)) [
      | inl e ↦
          let (a, b) = due_first e in
          let r = first.ended k e in
          record {
            round = r.round;
            was = r.was;
            is = r.is;
            outcome = r.outcome;
            made = r.made;
            found = r.found;
            ends = r.ends;
            left = rest.kept k b ∙ r.left;
            deposit = r.deposit;
            settled = r.settled;
            count = rest.uncalled k b ∙ r.count;
          }
      | inr e ↦
          let r = rest.ended k (sym (due_rest e) ∙ due) in
          record {
            round = r.round;
            was = r.was;
            is = r.is;
            outcome = r.outcome;
            made = r.made;
            found = sym (first.kept k e) ∙ r.found;
            ends = r.ends;
            left = r.left;
            deposit = r.deposit;
            settled = r.settled;
            count = r.count ∙ ap (λ n. n + called k r.made) (first.uncalled k e);
          }
    ]

    next_kept : is_due (id ∷ ids) ds k ≡ false → find_deposit k ds'' ≡ find_deposit k ds
    next_kept due = elim (Bool-cases (is_due (id ∷ []) ds k)) [
      | inl e ↦ let (a, b) = due_first e in cc
      | inr e ↦ rest.kept k (sym (due_rest e) ∙ due) ∙ first.kept k e
    ]

    next_uncalled : is_due (id ∷ ids) ds k ≡ false → called k calls'' ≡ called k calls
    next_uncalled due = elim (Bool-cases (is_due (id ∷ []) ds k)) [
      | inl e ↦ let (a, b) = due_first e in cc
      | inr e ↦ rest.uncalled k (sym (due_rest e) ∙ due) ∙ first.uncalled k e
    ]

  pub Handles-next :
      (id : String) (ids : List String) (ds ds' ds'' : List DashboardDeposit)
      (begun begun' begun'' : List ScannedDeposit)
      (calls calls' calls'' : List (ScannedDeposit × List ℕ))
      → Handles (id ∷ []) ds begun calls ds' begun' calls'
      → Handles ids ds' begun' calls' ds'' begun'' calls''
      → Handles (id ∷ ids) ds begun calls ds'' begun'' calls''
  Handles-next id ids ds ds' ds'' b b' b'' c c' c'' first rest = record {
    balance = first.balance ∙ rest.balance;
    distinct = rest.distinct;
    count = λ k. next_count id ids ds ds' ds'' b b' b'' c c' c'' first rest k;
    ended = λ k due. next-Ended id ids ds ds' ds'' b b' b'' c c' c'' first rest k due;
    kept = λ k due. next_kept id ids ds ds' ds'' b b' b'' c c' c'' first rest k due;
    uncalled = λ k due. next_uncalled id ids ds ds' ds'' b b' b'' c c' c'' first rest k due;
  }

  -- To handle the ids that are available is to handle the ids.
  pub Handles-keep :
      (ids : List String) (ds : List DashboardDeposit) (begun : List ScannedDeposit)
      (calls : List (ScannedDeposit × List ℕ)) (ds' : List DashboardDeposit)
      (begun' : List ScannedDeposit) (calls' : List (ScannedDeposit × List ℕ))
      → Handles (keep (has_available ds) ids) ds begun calls ds' begun' calls'
      → Handles ids ds begun calls ds' begun' calls'
  Handles-keep ids ds begun calls ds' begun' calls' h =
      let same = λ (k : String).
        let t : is_due (keep (has_available ds) ids) ds k ≡ is_due ids ds k =
          ground (arith, includes-keep k (has_available ds) ids) in
        t in
      record {
        balance = h.balance;
        distinct = h.distinct;
        count = λ k. rw (← same k) (h.count k);
        ended = λ k due. h.ended k (same k ∙ due);
        kept = λ k due. h.kept k (same k ∙ due);
        uncalled = λ k due. h.uncalled k (same k ∙ due);
      }
