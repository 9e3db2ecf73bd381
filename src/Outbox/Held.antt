-- ===== src/Outbox/Held.antt =====
-- internal/email/usecases/release_held.go: what a review does to the queued message that it holds.
--
-- A statement may fail, and then changes nothing: whether one does is an argument. The two readings
-- of the clock in a release are taken as one. An error keeps its kind, not its text.
pub mod Repeats
mod Examples
use panmail.Base.Int.{pos}
use panmail.Base.{false, if◌then◌else◌, none, some, true, Bool, List, String, ℕ, Option, not}
use text.Mathlib.Text.{◌==◌}
use panmail.Queue.{held, pending, OutboxEmail, OutboxStatus}
use panmail.Outbox.{Row, delete_rows, get_by_id, update_rows}

pub data HeldError : Type 0 where
  read_failed : HeldError
  no_longer_stored : HeldError
  of_another_tenant : HeldError
  write_failed : HeldError

-- The table after a review, whether the worker was woken, and the error.
pub record Reviewed : Type 0 where
  pub rows : List Row
  pub is_woken : Bool
  pub error : Option HeldError

unfoldable pub is_held : OutboxStatus → Bool
is_held s = elim s [ held ↦ true | _ ↦ false ]

unfoldable pub refuse : List Row → HeldError → Reviewed
refuse rows e = record { rows = rows; is_woken = false; error = some e }

unfoldable pub accept : List Row → Bool → Reviewed
accept rows is_woken = record { rows = rows; is_woken = is_woken; error = none }

unfoldable pub released : ℕ → OutboxEmail → OutboxEmail
released now e = record e { status = pending; next_retry_at = pos now; updated_at = now }

module _ (has_worker read_fails write_fails : Bool) (now : ℕ) (tenant_id id : String) where
  unfoldable pub release_held : List Row → Reviewed
  release_held rows = if read_fails then refuse rows read_failed else elim (get_by_id id rows) [
    | none ↦ refuse rows no_longer_stored
    | some e ↦
        if not (e.tenant_id == tenant_id)
        then refuse rows of_another_tenant
        else if not (is_held e.status)
        then accept rows false
        else if write_fails
        then refuse rows write_failed
        else accept (update_rows (released now e) rows) has_worker
  ]

module _ (read_fails write_fails : Bool) (tenant_id id : String) where
  unfoldable pub discard_held : List Row → Reviewed
  discard_held rows = if read_fails then refuse rows read_failed else elim (get_by_id id rows) [
    | none ↦ accept rows false
    | some e ↦
        if not (e.tenant_id == tenant_id)
        then refuse rows of_another_tenant
        else if not (is_held e.status)
        then accept rows false
        else if write_fails
        then refuse rows write_failed
        else accept (delete_rows id rows) false
  ]

-- What a reviewer decides; a release is stamped with its time.
pub data Review : Type 0 where
  release : ℕ → Review
  discard : Review

module _ (has_worker read_fails write_fails : Bool) (tenant_id id : String) where
  unfoldable pub run_review : Review → List Row → Reviewed
  run_review (release now) rows =
      release_held has_worker read_fails write_fails now tenant_id id rows
  run_review discard rows = discard_held read_fails write_fails tenant_id id rows
