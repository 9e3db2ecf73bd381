-- ===== src/Outbox/Held/Examples.antt =====
-- A held message that its tenant releases twice, and that another tenant may not.
use panmail.Outbox.Held.Repeats.{run_review-once, Causes, IsSettled}
use panmail.Outbox.Held.{
  run_review, release, discard, HeldError, release_held, refuse, accept, is_held, released,
  of_another_tenant,
}
use panmail.Base.Int.{pos}
use panmail.Base.{[], false, none, refl, some, true, ◌∷◌, List, ◌≡◌, ◌⊎◌}
use panmail.Outbox.{Row, get_by_id}
use panmail.Queue.{held, OutboxEmail}

abbrev waiting : OutboxEmail
waiting = record {
  id = "m";
  tenant_id = "acme";
  request = [];
  status = held;
  retry_count = 0;
  next_retry_at = pos 0;
  last_error = [];
  created_at = 0;
  updated_at = 0;
  claim_token = "";
}

abbrev rows : List Row
rows = record { email = waiting; claim_token = none; claimed_until = none } ∷ []

-- The worker is woken by the first release, and not by the second.
first_wakes : (run_review true false false "acme" "m" (release 30) rows).is_woken ≡ true
unfolding run_review release_held accept get_by_id is_held released
first_wakes = refl

other_tenant_is_refused :
    (run_review true false false "zeta" "m" (release 30) rows).error ≡ some of_another_tenant
unfolding run_review release_held refuse get_by_id
other_tenant_is_refused = refl

run_review-once_example :
    ((error : HeldError) × Causes false false "acme" "m" rows error
      × ((run_review true false false "acme" "m" (release 30) rows).error ≡ some error)
      × ((run_review true false false "acme" "m" (release 30) rows).rows ≡ rows))
    ⊎ (((run_review true false false "acme" "m" (release 30) rows).error ≡ none)
        × ((get_by_id "m" (run_review true false false "acme" "m" (release 30) rows).rows ≡ none)
            ⊎ IsSettled "acme" "m" (run_review true false false "acme" "m" (release 30) rows).rows)
        × ((run_review true false false "acme" "m" discard
              (run_review true false false "acme" "m" (release 30) rows).rows).rows
            ≡ (run_review true false false "acme" "m" (release 30) rows).rows))
run_review-once_example =
    run_review-once true false false true false false "acme" "m" (release 30) discard rows
