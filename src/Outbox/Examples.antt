-- ===== src/Outbox/Examples.antt =====
-- A message that one worker holds while another claims.
use panmail.Outbox.Renewal.{renewed_lease_is_exclusive}
use panmail.Base.Int.{pos}
use panmail.Outbox.Others.{claimed, Step, updated, pruned_terminal, run_all}
use panmail.Outbox.Lease.{rows_of}
use panmail.Outbox.{
  claim_pending, Row, claim_rows, renew_claim, mark_all, renew_rows, mark, choose_due, is_claim,
  has_token, oldest_first, insert, is_due, is_open, has_lapsed, is_one_of, list_claimed,
}
use panmail.Base.{
  [], false, none, refl, some, true, ◌∷◌, List, String, filter, ℕ, ◌≡◌, ◌≤◌, any, map, arith,
}
use text.Mathlib.Text.{◌==◌}
use panmail.Queue.{sending, pending, OutboxStatus, OutboxEmail}

abbrev email : String → OutboxStatus → OutboxEmail
email id status = record {
  id = id;
  tenant_id = "acme";
  request = [];
  status = status;
  retry_count = 0;
  next_retry_at = pos 0;
  last_error = [];
  created_at = 0;
  updated_at = 0;
  claim_token = "";
}

abbrev rows : List Row
rows =
    record { email = email "m" sending; claim_token = some "a"; claimed_until = some 50 }
    ∷ record { email = email "n" pending; claim_token = none; claimed_until = none }
    ∷ []

abbrev others : List Step
others = claimed 10 120 60 "b" ∷ updated (email "n" pending) ∷ pruned_terminal 90 ∷ []

-- The other worker gets the other message alone.
other_gets :
    map (λ e. e.id) (claim_pending 10 120 60 "b" (renew_claim "m" "a" 100 rows).0).1 ≡ "n" ∷ []
unfolding claim_pending claim_rows mark_all mark choose_due oldest_first insert filter is_due
    is_open has_lapsed renew_claim renew_rows is_claim has_token list_claimed is_one_of
other_gets = refl

-- Once the lease has run out, the message goes to whoever claims it next, and its old holder is
-- told so.
lapsed_lease_is_lost : (renew_claim "m" "a" 200 (claim_pending 10 120 60 "b" rows).0).1 ≡ false
unfolding claim_pending claim_rows mark_all mark choose_due oldest_first insert filter is_due
    is_open has_lapsed renew_claim renew_rows is_claim has_token is_one_of
lapsed_lease_is_lost = refl

renewed_lease_is_exclusive_example :
    let now_rows = run_all others (renew_claim "m" "a" 100 rows).0 in
    ((after : ℕ) → (renew_claim "m" "a" after now_rows).1 ≡ true)
    × ((limit lease_for now : ℕ) (other : String)
        → ("a" == other) ≡ false
        → now ≤ 100
        → any (λ e. e.id == "m") (claim_pending limit lease_for now other now_rows).1 ≡ false)
unfolding rows_of renew_claim renew_rows filter is_claim has_token
renewed_lease_is_exclusive_example =
    renewed_lease_is_exclusive "m" "a" 100 rows others refl refl
      ((refl, omega arith), (refl, (tt, tt)))
