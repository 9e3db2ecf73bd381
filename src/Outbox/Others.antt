-- ===== src/Outbox/Others.antt =====
-- Everything that other workers may do to the table while a lease runs.
use panmail.Outbox.{
  Row, choose_due, create, claim_pending, is_one_of, renew_claim, update_rows, delete_rows,
  oldest_first, prune_terminal, is_due, prune_held, claim_rows, mark_all, mark, renew_rows,
  is_claim, update_row, is_terminal, is_orphan, list_claimed, has_token,
}
use panmail.Outbox.Lease.{
  rows_of, Holds, is_one_of-take, IsHeld, is_one_of-oldest_first, none_passes, is_due-held,
  filter-Holds, map-Holds, has_token-held,
}
use panmail.Queue.{OutboxEmail}
use panmail.Base.{
  [], false, none, true, ◌∷◌, List, String, ℕ, Bool, ◌++◌, ◌≡◌, ◌+◌, ◌≤◌, arith, All-append, filter,
  ◌∙◌, if◌then◌else◌, refl, some, All, map, subst, sym, not, any,
}
use text.Mathlib.Text.{◌==◌}
use text.Mathlib.TextEquality.{eq_iff}

-- A statement of another worker, of the API or of the housekeeping.
pub data Step : Type 0 where
  created : OutboxEmail → Step
  claimed : ℕ → ℕ → ℕ → String → Step
  renewed : String → String → ℕ → Step
  updated : OutboxEmail → Step
  deleted : String → Step
  pruned_terminal : ℕ → Step
  pruned_held : ℕ → (String → Bool) → Step

unfoldable pub run : Step → List Row → List Row
run (created e) rows = create e rows
run (claimed limit lease_for now token) rows = (claim_pending limit lease_for now token rows).0
run (renewed id token until) rows = (renew_claim id token until rows).0
run (updated e) rows = update_rows e rows
run (deleted id) rows = delete_rows id rows
run (pruned_terminal older_than) rows = prune_terminal older_than rows
run (pruned_held older_than under_review) rows = prune_held older_than under_review rows

unfoldable pub run_all : List Step → List Row → List Row
run_all [] rows = rows
run_all (s ∷ steps) rows = run_all steps (run s rows)

-- A step of another: it settles another message, and its claims are under another token and made
-- while the lease runs.
abbrev pub IsOther : String → String → ℕ → Step → Type 0
IsOther id token until (created e) = (e.id == id) ≡ false
IsOther id token until (claimed limit lease_for now t) = ((token == t) ≡ false) × (now ≤ until)
IsOther id token until (renewed i t u) = (token == t) ≡ false
IsOther id token until (updated e) = (id == e.id) ≡ false
IsOther id token until (deleted i) = (id == i) ≡ false
IsOther id token until (pruned_terminal n) = Unit
IsOther id token until (pruned_held n f) = Unit

rows_of-append :
    (id : String) (xs ys : List Row) → rows_of id (xs ++ ys) ≡ rows_of id xs + rows_of id ys
unfolding rows_of
rows_of-append id [] ys = omega arith
rows_of-append id (x ∷ xs) ys = omega (arith, rows_of-append id xs ys)

module _ (id token : String) (until : ℕ) where
  claim_misses :
      (limit now : ℕ) (rows : List Row)
      → now ≤ until
      → Holds id token until rows
      → is_one_of (choose_due limit now rows) id ≡ false
  unfolding choose_due
  claim_misses limit now rows early h =
      is_one_of-take id limit (oldest_first (filter (is_due now) rows)) (
        is_one_of-oldest_first id (filter (is_due now) rows)
        ∙ none_passes id token until (is_due now) rows (λ r. is_due-held token until now r early)
            h.held)

  same_id : (r : Row) → (r.email.id == id) ≡ true → r.email.id ≡ id
  same_id r i = ground (arith, eq_iff r.email.id id)

  map_held :
      (after : ℕ) (g : Row → Row) (rows : List Row)
      → ((r : Row) → (g r).email.id ≡ r.email.id)
      → ((r : Row) → (r.email.id == id) ≡ true → IsHeld token until r → IsHeld token after (g r))
      → Holds id token until rows
      → Holds id token after (map g rows)
  map_held after g rows same keeps h =
      let (n, a) = map-Holds id token until after g rows same keeps in
      record { one = n ∙ h.one; held = a h.held }

  filter_held :
      (p : Row → Bool) (rows : List Row)
      → ((r : Row) → (r.email.id == id) ≡ true → IsHeld token until r → p r ≡ true)
      → Holds id token until rows
      → Holds id token until (filter p rows)
  filter_held p rows keeps h =
      let (n, a) = filter-Holds id token until p rows keeps h.held in
      record { one = n ∙ h.one; held = a }

  unchanged :
      (b : Bool) (x r : Row)
      → b ≡ false
      → IsHeld token until r
      → IsHeld token until (if b then x else r)
  unchanged b x r e h = rw e h

  run-Holds :
      (s : Step) (rows : List Row)
      → IsOther id token until s
      → Holds id token until rows
      → Holds id token until (run s rows)
  unfolding run create claim_pending claim_rows mark_all mark renew_claim renew_rows is_claim
      update_rows update_row delete_rows prune_terminal is_terminal prune_held is_orphan rows_of
  run-Holds (created e) rows apart h =
      let new : List Row = record { email = e; claim_token = none; claimed_until = none } ∷ [] in
      record {
        one = ground (arith, rows_of-append id rows new, h.one);
        held =
            All-append (λ r. (r.email.id == id) ≡ true → IsHeld token until r) rows new h.held
              ((λ (i : (e.id == id) ≡ true). absurd (ground (arith, i, apart))), tt);
      }
  run-Holds (claimed limit lease_for now t) rows (apart, early) h =
      let chosen = choose_due limit now rows in
      map_held until (λ r. if is_one_of chosen r.email.id then mark now lease_for t r else r) rows
        (λ r. ground arith)
        (λ r i k.
          unchanged (is_one_of chosen r.email.id) (mark now lease_for t r) r
            (subst (λ x. is_one_of chosen x ≡ false) (sym (same_id r i))
              (claim_misses limit now rows early h))
            k)
        h
  run-Holds (renewed i t u) rows apart h =
      map_held until (λ r. if is_claim i t r then record r { claimed_until = some u } else r) rows
        (λ r. ground arith)
        (λ r e k.
          unchanged (is_claim i t r) (record r { claimed_until = some u }) r
            (ground (arith, has_token-held token t until r apart k)) k)
        h
  run-Holds (updated e) rows apart h =
      map_held until (λ r. if r.email.id == e.id then update_row e r else r) rows
        (λ r. ground arith)
        (λ r i k.
          unchanged (r.email.id == e.id) (update_row e r) r
            (subst (λ x. (x == e.id) ≡ false) (sym (same_id r i)) apart) k)
        h
  run-Holds (deleted i) rows apart h =
      filter_held (λ r. not (r.email.id == i)) rows (λ r e k. rw (same_id r e, apart) refl) h
  run-Holds (pruned_terminal n) rows apart h =
      filter_held (λ r. not (is_terminal n r)) rows (λ r e k. rw (is_terminal, k.status) refl) h
  run-Holds (pruned_held n f) rows apart h =
      filter_held (λ r. not (is_orphan n f r)) rows (λ r e k. rw (is_orphan, k.status) refl) h

  pub run_all-Holds :
      (steps : List Step) (rows : List Row)
      → All (IsOther id token until) steps
      → Holds id token until rows
      → Holds id token until (run_all steps rows)
  unfolding run_all
  run_all-Holds [] rows others h = h
  run_all-Holds (s ∷ steps) rows others h =
      run_all-Holds steps (run s rows) others.1 (run-Holds s rows others.0 h)

  -- The rows handed to another claim are not the message's.
  copies_miss :
      (other : String) (rows : List Row)
      → any (λ e. e.id == id) (map (λ r. record r.email { claim_token = other }) rows)
        ≡ is_one_of rows id
  unfolding is_one_of
  copies_miss other [] = refl
  copies_miss other (r ∷ rows) = ground (arith, copies_miss other rows)

  pub claimed_misses :
      (limit lease_for now : ℕ) (other : String) (rows : List Row)
      → (token == other) ≡ false
      → now ≤ until
      → Holds id token until rows
      → any (λ e. e.id == id) (claim_pending limit lease_for now other rows).1 ≡ false
  unfolding claim_pending list_claimed run
  claimed_misses limit lease_for now other rows apart early h =
      let after = claim_rows limit lease_for now other rows in
      let still = run-Holds (claimed limit lease_for now other) rows (apart, early) h in
      copies_miss other (oldest_first (filter (has_token other) after))
      ∙ is_one_of-oldest_first id (filter (has_token other) after)
      ∙ none_passes id token until (has_token other) after
          (λ r. has_token-held token other until r apart) still.held
