-- ===== src/Webhook/Batch/Streak.antt =====
-- How often a group goes on with an endpoint that does not answer.
use panmail.Webhook.Batch.Rows.{attempts_of, attempts_of-cases}
use panmail.Base.{
  [], inl, inr, true, ◌∷◌, List, ℕ, Bool, All, ◌<◌, ◌≡◌, ◌+◌, ltb, ◌&&◌, leb, arith, false, ◌++◌,
  length, sym, ◌∙◌, cons_inj, ap,
}
use panmail.Webhook.Batch.{tally, run_group, stop}
use panmail.Webhook.{Delivery, attempt, Lookup, Posted}

-- Every attempt found the endpoint unreachable.
abbrev pub AllUnreached : List (Delivery × Bool) → Type 0
AllUnreached attempts = All (λ a. a.1 ≡ true) attempts

module _ (failure_streak : ℕ) (may_start : ℕ → Bool) (now : ℕ → ℕ) (found : Delivery → Lookup)
    (posted : ℕ → Delivery → Posted) where
  abbrev made : ℕ → ℕ × ℕ → List Delivery → List (Delivery × Bool)
  made = attempts_of failure_streak may_start now found posted

  -- Failures in a row that open the attempts, after those already counted, stay below the limit if
  -- another attempt follows.
  run_below :
      (i : ℕ) (counts : ℕ × ℕ) (group : List Delivery) (run after : List (Delivery × Bool))
      (a : Delivery × Bool)
      → 0 < failure_streak
      → made i counts group ≡ run ++ a ∷ after
      → AllUnreached run
      → counts.0 + length run < failure_streak
  unfolding run_group stop
  run_below i counts [] run after a positive e all = absurd (nothing run after a e)
    where
      nothing :
          (run after : List (Delivery × Bool)) (a : Delivery × Bool) → [] ≡ run ++ a ∷ after → ⊥
      nothing [] after a e = ground arith
      nothing (r ∷ run) after a e = ground arith
  run_below i counts (d ∷ rest) run after a positive e all =
      elim (attempts_of-cases failure_streak may_start now found posted i counts d rest) [
        | inl none_made ↦ absurd (nothing run (sym none_made ∙ e))
        | inr (_, q, more) ↦
            split run all (sym more ∙ e) q
              (λ tail same rise. run_below (i + 1) next rest tail after a positive same rise)
      ]
    where
      first : Delivery × Bool
      first = attempt (now i) (found d) (posted i d) d

      next : ℕ × ℕ
      next = tally counts.0 counts.1 first

      nothing : (run : List (Delivery × Bool)) → [] ≡ run ++ a ∷ after → ⊥
      nothing [] e = ground arith
      nothing (r ∷ run) e = ground arith

      split :
          (run : List (Delivery × Bool))
          → AllUnreached run
          → first ∷ made (i + 1) next rest ≡ run ++ a ∷ after
          → (ltb 0 failure_streak && leb failure_streak counts.0) ≡ false
          → ((tail : List (Delivery × Bool))
              → made (i + 1) next rest ≡ tail ++ a ∷ after
              → AllUnreached tail
              → next.0 + length tail < failure_streak)
          → counts.0 + length run < failure_streak
      split [] all e q later = ground arith
      split (r ∷ run) all e q later =
          let (head, tail) = cons_inj first r (made (i + 1) next rest) (run ++ a ∷ after) e in
          omega (arith, later run tail all.1, counted (ap (λ x. x.1) head ∙ all.0))
        where
          counted : first.1 ≡ true → next.0 ≡ counts.0 + 1
          counted t = ground arith

  -- What is left of the attempts after some of them is what a later row leads to.
  made_later :
      (before : List (Delivery × Bool)) (i : ℕ) (counts : ℕ × ℕ) (group : List Delivery)
      (xs : List (Delivery × Bool))
      → made i counts group ≡ before ++ xs
      → (n : ℕ) × (later : ℕ × ℕ) × (left : List Delivery) × (made n later left ≡ xs)
  unfolding run_group stop
  made_later [] i counts group xs e = (i, counts, group, e)
  made_later (b ∷ before) i counts [] xs e = absurd (ground arith)
  made_later (b ∷ before) i counts (d ∷ rest) xs e =
      elim (attempts_of-cases failure_streak may_start now found posted i counts d rest) [
        | inl none_made ↦ absurd (nothing (sym none_made ∙ e))
        | inr (_, q, more) ↦
            made_later before (i + 1) next rest xs
              (cons_inj first b (made (i + 1) next rest) (before ++ xs) (sym more ∙ e)).1
      ]
    where
      first : Delivery × Bool
      first = attempt (now i) (found d) (posted i d) d

      next : ℕ × ℕ
      next = tally counts.0 counts.1 first

      nothing : [] ≡ b ∷ before ++ xs → ⊥
      nothing q = ground arith

  -- With a limit set, a group never makes another attempt after as many attempts in a row as the
  -- limit that found the endpoint unreachable, wherever in the group they stand.
  pub attempts_of-streak :
      (group : List Delivery) (before run after : List (Delivery × Bool)) (a : Delivery × Bool)
      → 0 < failure_streak
      → attempts_of failure_streak may_start now found posted 0 (0, 0) group
        ≡ before ++ (run ++ a ∷ after)
      → AllUnreached run
      → length run < failure_streak
  attempts_of-streak group before run after a positive e all =
      let (n, later, left, q) = made_later before 0 (0, 0) group (run ++ a ∷ after) e in
      omega (arith, run_below n later left run after a positive q all)
