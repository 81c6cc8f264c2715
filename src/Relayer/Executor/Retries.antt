-- ===== src/Relayer/Executor/Retries.antt =====
-- What `execute` returns, and how long it sleeps between attempts.
use skaus.Prelude.{
  ℕ, zero, suc, ◌+◌, ◌≤◌, ◌<◌, String, ◌≡◌, refl, Option, none, some, List, [], ◌∷◌, ◌++◌, ltb,
  if◌then◌else◌, lt→ltb, ge→ltb, arith, ap, ◌∙◌,
}
use mathlib.Core.List.{append-nil, append_assoc}
use skaus.Relayer.Job.{Outcome, sent, threw}
use skaus.Relayer.Executor.{returned, rethrown, backoff_ms, retry_from, execute}

-- The sleeps behind `n` failed attempts, the first of which is `a`.
abbrev pub backoffs : ℕ → ℕ → List ℕ
backoffs a zero = []
backoffs a (suc n) = backoff_ms a ∷ backoffs (a + 1) n

module _ (m : ℕ) (run : ℕ → Outcome) where
  -- The attempts from `a` on, `n` of them, fail with these messages.
  abbrev Fail : ℕ → ℕ → (ℕ → String) → Type 0
  Fail a n messages = (i : ℕ) → i < n → run (a + i) ≡ threw (messages i)

  Fail-first :
      (a n : ℕ) (messages : ℕ → String) → Fail a (suc n) messages → run a ≡ threw (messages 0)
  Fail-first a n messages f = let here : a ≡ a + 0 = omega arith in ap run here ∙ f 0 (omega arith)

  Fail-rest :
      (a n : ℕ) (messages : ℕ → String)
      → Fail a (suc n) messages
      → Fail (a + 1) n (λ i. messages (suc i))
  Fail-rest a n messages f i h =
      let here : a + 1 + i ≡ a + suc i = omega arith in ap run here ∙ f (suc i) (omega arith)

  retry_from-fails :
      (r a : ℕ) (message : String) (last : Option String) (slept : List ℕ)
      → run a ≡ threw message
      → retry_from m run (suc r) a last slept
        ≡ retry_from m run r
            (a + 1)
            (some message)
            (if ltb a m then slept ++ backoff_ms a ∷ [] else slept)
  unfolding retry_from
  retry_from-fails r a message last slept e = rw (e, retry_from)

  retry_from-sent :
      (n r a : ℕ) (messages : ℕ → String) (last : Option String) (slept : List ℕ)
      (signature : String)
      → Fail a n messages
      → run (a + n) ≡ sent signature
      → a + n ≤ m
      → n < r
      → retry_from m run r a last slept ≡ (returned signature, slept ++ backoffs a n)
  unfolding retry_from
  retry_from-sent n zero a messages last slept s f e h k = absurd (omega arith)
  retry_from-sent zero (suc r) a messages last slept s f e h k =
      let here : a ≡ a + 0 = omega arith in rw (ap run here ∙ e, retry_from, append-nil)
  retry_from-sent (suc n) (suc r) a messages last slept s f e h k =
      let next : a + 1 + n ≡ a + suc n = omega arith in
      rw (Fail-first a n messages f, retry_from, lt→ltb a m (omega arith))
        (retry_from-sent n r (a + 1) (λ i. messages (suc i)) (some (messages 0))
            (slept ++ backoff_ms a ∷ []) s (Fail-rest a n messages f) (ap run next ∙ e)
            (omega arith) (omega arith)
          ∙ rw append_assoc)

  retry_from-done :
      (a : ℕ) (last : Option String) (slept : List ℕ)
      → retry_from m run 0 a last slept ≡ (rethrown last, slept)
  unfolding retry_from
  retry_from-done a last slept = refl

  retry_from-threw :
      (r a : ℕ) (messages : ℕ → String) (last : Option String) (slept : List ℕ)
      → Fail a (suc r) messages
      → a + r ≡ m
      → retry_from m run (suc r) a last slept
        ≡ (rethrown (some (messages r)), slept ++ backoffs a r)
  retry_from-threw zero a messages last slept f e =
      retry_from-fails 0 a (messages 0) last slept (Fail-first a 0 messages f)
      ∙ rw (ge→ltb a m (omega arith), append-nil)
          (retry_from-done (a + 1) (some (messages 0)) slept)
  retry_from-threw (suc r) a messages last slept f e =
      retry_from-fails (suc r) a (messages 0) last slept (Fail-first a (suc r) messages f)
      ∙ rw (lt→ltb a m (omega arith)) (
          retry_from-threw r (a + 1) (λ i. messages (suc i)) (some (messages 0))
            (slept ++ backoff_ms a ∷ []) (Fail-rest a (suc r) messages f) (omega arith)
          ∙ rw append_assoc)

  -- If the attempts 1 to n fail and the next one, within the limit, sends, `execute` returns its
  -- signature after one sleep for each failure.
  pub execute-sent :
      (n : ℕ) (messages : ℕ → String) (signature : String)
      → ((i : ℕ) → i < n → run (1 + i) ≡ threw (messages i))
      → run (1 + n) ≡ sent signature
      → n < m
      → execute m run ≡ (returned signature, backoffs 1 n)
  unfolding execute
  execute-sent n messages s f e h = retry_from-sent n m 1 messages none [] s f e (omega arith) h

  -- If all attempts up to the limit n + 1 fail, `execute` throws the last error, after a sleep for
  -- each failure but the last.
  execute-threw :
      (n : ℕ) (messages : ℕ → String)
      → ((i : ℕ) → i < suc n → run (1 + i) ≡ threw (messages i))
      → m ≡ suc n
      → execute m run ≡ (rethrown (some (messages n)), backoffs 1 n)
  unfolding execute
  execute-threw n messages f e =
      ap (λ r. retry_from m run r 1 none []) e
      ∙ retry_from-threw n 1 messages none [] f (omega arith)
