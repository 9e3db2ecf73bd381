-- ===== src/Delivery/Counts.antt =====
-- A pass finishes with each recipient at most once, and only with those it was to send to.
use panmail.Recipients.Distinct.{occurrences}
use panmail.Delivery.Finished.{finishings, finishes, finishings-append}
use panmail.Delivery.Attempts.{
  attempt_each, attempt_one, try_providers, join, outcome_of, failure, event, Pass, Tried,
  after_answer,
}
use panmail.Delivery.{
  Surroundings, RecipientFailure, EmailProvider, is_delivered, settles, is_receiver, Answer,
  no_sender, unsent, accepted,
}
use panmail.Base.{
  [], if◌then◌else◌, inl, inr, ◌∷◌, List, String, ℕ, ◌++◌, ◌+◌, ◌≡◌, arith, Bool, ◌≤◌, Option, ◌&&◌,
  Bool-cases, none, some, Option-cases, false, true, ◌<◌, subst, ltb,
}
use panmail.Base.Text.{◌==◌, Text, eq_of_==, holds, ==_refl}

-- How many of the failures are a recipient's.
unfoldable pub failures_of : Text → List RecipientFailure → ℕ
failures_of r [] = 0
failures_of r (f ∷ fs) = (if f.recipient == r then 1 else 0) + failures_of r fs

pub failures_of-append :
    (r : Text) (xs ys : List RecipientFailure)
    → failures_of r (xs ++ ys) ≡ failures_of r xs + failures_of r ys
unfolding failures_of
failures_of-append r [] ys = omega arith
failures_of-append r (x ∷ xs) ys = omega (arith, failures_of-append r xs ys)

module _ (s : Surroundings) (tenant_id message_id : String) (subject : Text) where
  -- A recipient tried is finished with exactly if it was sent to.
  abbrev IsTried : Text → Text → Tried → Type 0
  IsTried r q t = finishings q t.events ≡ (if r == q && t.sent then 1 else 0)

  after_answer-IsTried :
      (r q : Text) (p : EmailProvider) (err : Option Text) (go_on : Text → Tried) (a : Answer)
      → ((e : Text) → IsTried r q (go_on e))
      → IsTried r q (after_answer s tenant_id message_id subject r p err go_on a)
  unfolding after_answer finishings finishes event is_delivered settles
  after_answer-IsTried r q p err go_on (no_sender e) h = h e
  after_answer-IsTried r q p err go_on (unsent e) h = ground (arith, h e)
  after_answer-IsTried r q p err go_on accepted h = ground arith

  try_providers-IsTried :
      (r q : Text) (err : Option Text) (ps : List EmailProvider)
      → IsTried r q (try_providers s tenant_id message_id subject r err ps)
  unfolding try_providers finishings
  try_providers-IsTried r q err [] = ground arith
  try_providers-IsTried r q err (p ∷ ps) = elim (Bool-cases (is_receiver p)) [
    | inl e ↦ rw e (try_providers-IsTried r q err ps)
    | inr e ↦ rw e (
        after_answer-IsTried r q p err
          (λ d. try_providers s tenant_id message_id subject r (some d) ps) (s.answer p r)
          (λ d. try_providers-IsTried r q (some d) ps))
  ]

  -- What the loop over the recipients adds for one of them.
  abbrev IsCounted : Text → Text → Pass → Type 0
  IsCounted r q p =
      (finishings q p.events + failures_of q p.failures ≤ (if r == q then 1 else 0))
      × ((r == q) ≡ true → p.delivered_count ≤ finishings q p.events)

  outcome_of-IsCounted :
      (r q : Text) (t : Tried)
      → IsTried r q t
      → IsCounted r q (outcome_of s tenant_id message_id subject r t)
  unfolding outcome_of failures_of failure
  outcome_of-IsCounted r q t h = elim (Bool-cases t.sent) [
    | inl e ↦ rw (outcome_of, e) (ground arith, λ same. ground arith)
    | inr e ↦ elim (Option-cases t.recipient_error) [
      | inl n ↦ rw (outcome_of, e, n) (ground arith, λ same. ground arith)
      | inr (d, n) ↦ rw (outcome_of, e, n) (ground arith, λ same. ground arith)
    ]
  ]

  attempt_one-IsCounted :
      (ps : List EmailProvider) (r q : Text)
      → IsCounted r q (attempt_one s tenant_id message_id subject ps r)
  unfolding attempt_one failures_of failure finishings
  attempt_one-IsCounted ps r q = elim (Option-cases (s.interrupted r)) [
    | inl e ↦
        rw (attempt_one, e)
          (outcome_of-IsCounted r q (try_providers s tenant_id message_id subject r none ps)
            (try_providers-IsTried r q none ps))
    | inr (d, e) ↦ rw (attempt_one, e) (ground arith, λ same. omega arith)
  ]

  pub attempt_each-counts :
      (ps : List EmailProvider) (skip : Text → Bool) (rs : List Text) (q : Text)
      → let p = attempt_each s tenant_id message_id subject ps skip rs in
        finishings q p.events + failures_of q p.failures ≤ (if skip q then 0 else occurrences q rs)
  unfolding attempt_each join occurrences finishings failures_of
  attempt_each-counts ps skip [] q = ground arith
  attempt_each-counts ps skip (r ∷ rs) q =
      let one = attempt_one s tenant_id message_id subject ps r in
      let after = attempt_each s tenant_id message_id subject ps skip rs in
      elim (Bool-cases (skip r)) [
        | inl e ↦ rw e (ground (arith, attempt_each-counts ps skip rs q))
        | inr e ↦ rw e (
            ground (
              arith,
              attempt_each-counts ps skip rs q,
              attempt_one-IsCounted ps r q,
              finishings-append q one.events after.events,
              failures_of-append q one.failures after.failures,
              eq_of_== r q,
            ))
      ]

  -- A pass that delivered has a recipient, one that it was to send to, whom it finished with.
  pub attempt_each-delivered :
      (ps : List EmailProvider) (skip : Text → Bool) (rs : List Text)
      → 0 < (attempt_each s tenant_id message_id subject ps skip rs).delivered_count
      → (q : Text) × ((holds rs q ≡ true)
          × (skip q ≡ false)
          × (0 < finishings q (attempt_each s tenant_id message_id subject ps skip rs).events))
  unfolding attempt_each join
  attempt_each-delivered ps skip [] h = absurd (omega arith)
  attempt_each-delivered ps skip (r ∷ rs) h =
      let one = attempt_one s tenant_id message_id subject ps r in
      let after = attempt_each s tenant_id message_id subject ps skip rs in
      let both = join s tenant_id message_id subject one after in
      let chosen = λ (b : Bool). 0 < (if b then after else both).delivered_count in
      elim (Bool-cases (skip r)) [
        | inl e ↦
            let (q, (m, k, f)) = attempt_each-delivered ps skip rs (subst chosen e h) in
            (q, (ground arith, k, rw e f))
        | inr e ↦
            let some_delivered : 0 < one.delivered_count + after.delivered_count =
              subst chosen e h in
            elim (Bool-cases (ltb 0 one.delivered_count)) [
              | inl d ↦ (
                r,
                (
                  ground (arith, ==_refl r),
                  e,
                  rw e (
                      ground (
                        arith,
                        (attempt_one-IsCounted ps r r).1 (==_refl r),
                        finishings-append r one.events after.events,
                      )),
                ),
              )
              | inr d ↦
                  let (q, (m, k, f)) = attempt_each-delivered ps skip rs (ground arith) in
                  (
                    q,
                    (
                      ground arith,
                      k,
                      rw e (ground (arith, finishings-append q one.events after.events)),
                    ),
                  )
            ]
      ]
