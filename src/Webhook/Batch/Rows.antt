-- ===== src/Webhook/Batch/Rows.antt =====
-- What becomes of the rows of a group.
use panmail.Base.Int.{ℤ, ltb_ℤ, pos, ◌+ℤ◌, ◌≤ℤ◌, int_laws, pos_part, ◌-ℤ◌, leb_ℤ, neg_part}
use panmail.Base.{
  [], inl, inr, refl, true, ◌∷◌, List, ℕ, Bool, String, map, ◌≡◌, Bool-cases, ap, ◌+◌, ◌<◌, length,
  not, arith, ltb, ◌∙◌, ◌&&◌, leb, false, suc, zero, ◌⊎◌, subst,
}
use panmail.Webhook.Batch.{
  run_group, saved, stop, back_off, tally, delay_until, start_window, back_off_delay,
}
use panmail.Webhook.{Delivery, release_one, release, attempt, Lookup, Posted}
use panmail.Webhook.Retries.{attempt-Attempted}

abbrev pub ids : List Delivery → List String
ids rows = map (λ d. d.id) rows

ids-release : (rows : List Delivery) → ids (release rows) ≡ ids rows
unfolding release release_one
ids-release [] = refl
ids-release (d ∷ rows) = ap (λ t. d.id ∷ t) (ids-release rows)

ids-delay : (until : ℕ) (rows : List Delivery) → ids (map (delay_until until) rows) ≡ ids rows
ids-delay until [] = refl
ids-delay until (d ∷ rows) = ap (λ t. d.id ∷ t) (ids-delay until rows)

ids-back_off :
    (now worst : ℕ) (rows : List Delivery) → ids (saved (back_off now worst rows)) ≡ ids rows
unfolding back_off
ids-back_off now worst rows =
    let until = now + back_off_delay worst in
    ids-release (map (delay_until until) rows) ∙ ids-delay until rows

ids-stop : (rows : List Delivery) → ids (saved (stop rows)) ≡ ids rows
unfolding stop
ids-stop rows = ids-release rows

module _ (failure_streak : ℕ) (may_start : ℕ → Bool) (now : ℕ → ℕ) (found : Delivery → Lookup)
    (posted : ℕ → Delivery → Posted) where
  -- A group saves each of its rows exactly once, in claim order, attempted or handed back.
  pub saved-run_group :
      (i : ℕ) (counts : ℕ × ℕ) (group : List Delivery)
      → ids (saved (run_group failure_streak may_start now found posted i counts group)) ≡ ids group
  unfolding run_group
  saved-run_group i counts [] = ids-stop []
  saved-run_group i counts (d ∷ rest) =
      let a = attempt (now i) (found d) (posted i d) d in
      let same = (attempt-Attempted (now i) (found d) (posted i d) d).same_row in
      let next = tally counts.0 counts.1 a in
      elim (Bool-cases (not (may_start i))) [
        | inl e ↦ rw e (ids-stop (d ∷ rest))
        | inr e ↦ elim (Bool-cases (ltb 0 failure_streak && leb failure_streak counts.0)) [
          | inl q ↦ rw (e, q) (ids-back_off (now i) counts.1 (d ∷ rest))
          | inr q ↦ rw (e, q, same, saved-run_group (i + 1) next rest) refl
        ]
      ]

  abbrev pub attempts_of : ℕ → ℕ × ℕ → List Delivery → List (Delivery × Bool)
  attempts_of i counts group =
      (run_group failure_streak may_start now found posted i counts group).attempts

  -- The attempts are none, or that of the first row, allowed by both tests, and those of the rest.
  pub attempts_of-cases :
      (i : ℕ) (counts : ℕ × ℕ) (d : Delivery) (rest : List Delivery)
      → (attempts_of i counts (d ∷ rest) ≡ [])
        ⊎ ((may_start i ≡ true)
            × ((ltb 0 failure_streak && leb failure_streak counts.0) ≡ false)
            × (attempts_of i counts (d ∷ rest)
                ≡ attempt (now i) (found d) (posted i d) d
                  ∷ attempts_of
                      (i + 1)
                      (tally counts.0 counts.1 (attempt (now i) (found d) (posted i d) d))
                      rest))
  unfolding run_group stop back_off
  attempts_of-cases i counts d rest = elim (Bool-cases (may_start i)) [
    | inl e ↦ elim (Bool-cases (ltb 0 failure_streak && leb failure_streak counts.0)) [
      | inl q ↦ inl (rw (attempts_of, e, q) refl)
      | inr q ↦ inr (e, q, rw (attempts_of, e, q) refl)
    ]
    | inr e ↦ inl (rw (attempts_of, e) refl)
  ]

  -- No attempt starts that the test before it does not allow.
  pub attempts-may_start :
      (i : ℕ) (counts : ℕ × ℕ) (group : List Delivery) (j : ℕ)
      → j < length (attempts_of i counts group)
      → may_start (i + j) ≡ true
  unfolding run_group stop
  attempts-may_start i counts [] j h = absurd (omega arith)
  attempts-may_start i counts (d ∷ rest) j h = elim (attempts_of-cases i counts d rest) [
    | inl e ↦ absurd (omega (arith, h, ap length e))
    | inr (e, q, more) ↦
        at j e (omega (arith, h, ap length more))
          (λ k le. attempts-may_start (i + 1) next rest k le)
  ]
    where
      next : ℕ × ℕ
      next = tally counts.0 counts.1 (attempt (now i) (found d) (posted i d) d)

      at :
          (k : ℕ)
          → may_start i ≡ true
          → k < suc (length (attempts_of (i + 1) next rest))
          → ((n : ℕ) → n < length (attempts_of (i + 1) next rest) → may_start (i + 1 + n) ≡ true)
          → may_start (i + k) ≡ true
      at zero e le later = subst (λ n. may_start n ≡ true) (omega arith) e
      at (suc k) e le later = subst (λ n. may_start n ≡ true) (omega arith) (later k (omega arith))

start_window-le :
    (lease timeout save_reserve batch_budget : ℤ)
    → pos 1 ≤ℤ timeout
    → start_window lease timeout save_reserve batch_budget ≤ℤ lease -ℤ timeout -ℤ save_reserve
unfolding start_window
start_window-le lease timeout save_reserve batch_budget h =
    elim (Bool-cases (leb_ℤ (pos 0) timeout && leb_ℤ timeout (pos 0))) [
      | inl e ↦ absurd (ground arith)
      | inr e ↦ rw e (omega int_laws)
    ]

-- The test that `processDue` makes before each row: the worker runs, and the window is open.
abbrev pub in_window : (ℕ → Bool) → (ℕ → ℕ) → ℕ → ℤ → ℕ → Bool
in_window is_running now claimed_at window i =
    is_running i && ltb_ℤ (pos (now i)) (pos claimed_at +ℤ window)

in_window_lt :
    (is_running : ℕ → Bool) (now : ℕ → ℕ) (claimed_at : ℕ) (window : ℤ) (i : ℕ)
    → in_window is_running now claimed_at window i ≡ true
    → pos 1 +ℤ pos (now i) ≤ℤ pos claimed_at +ℤ window
in_window_lt is_running now claimed_at window i h =
    omega (int_laws, lt (pos (now i)) (pos claimed_at +ℤ window) (ground arith))
  where
    lt : (a b : ℤ) → ltb_ℤ a b ≡ true → pos_part a + neg_part b < pos_part b + neg_part a
    lt a b e = ground arith

-- With a client that times out, an attempt that starts, lasts no longer than the timeout and takes
-- no longer than the reserve to record ends while the claim's lease is still running.
pub attempts_within_lease :
    (failure_streak : ℕ) (is_running : ℕ → Bool) (now : ℕ → ℕ) (found : Delivery → Lookup)
    (posted : ℕ → Delivery → Posted) (claimed_at : ℕ) (lease timeout save_reserve batch_budget : ℤ)
    (group : List Delivery) (j : ℕ)
    → pos 1 ≤ℤ timeout
    → (let may_start =
          in_window is_running now claimed_at
            (start_window lease timeout save_reserve batch_budget) in
        j < length (attempts_of failure_streak may_start now found posted 0 (0, 0) group))
    → pos 1 +ℤ (pos (now j) +ℤ timeout +ℤ save_reserve) ≤ℤ pos claimed_at +ℤ lease
attempts_within_lease failure_streak is_running now found posted claimed_at lease timeout
      save_reserve batch_budget group j positive h =
    let window = start_window lease timeout save_reserve batch_budget in
    let may_start = in_window is_running now claimed_at window in
    let allowed =
      subst (λ n. may_start n ≡ true) (omega arith)
        (attempts-may_start failure_streak may_start now found posted 0 (0, 0) group j h) in
    omega (
      int_laws,
      start_window-le lease timeout save_reserve batch_budget positive,
      in_window_lt is_running now claimed_at window j allowed,
    )
