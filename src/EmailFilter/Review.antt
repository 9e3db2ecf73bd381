-- ===== src/EmailFilter/Review.antt =====
-- internal/emailfilter/quarantine.go, review.go and expiry.go, with the statements of
-- stores/postgres/quarantine.go that decide a row: what becomes of a held message.
--
-- The table is keyed by tenant and id, and every row has a tenant; a row keeps the fields that its
-- fate depends on. One statement is one step, as the database makes it, and one that fails changes
-- nothing; an update may succeed and its row fail to be read back. The calls of the pipelines and
-- of the notifier are recorded in a log, the
-- latest first. Whether a pipeline is configured and whether its call succeeds are arguments. A
-- sweep is given the ids that its first statement read, so that other steps may lie between that
-- and its update.
pub mod Clean
pub mod Sweep
pub mod Pruned
pub mod Once
mod Examples
use panmail.Base.{
  [], false, if◌then◌else◌, inl, inr, none, some, true, ◌∷◌, Bool, List, String, ℕ, Option, not,
  ◌&&◌, ◌⊎◌, ltb, ◌+◌, ◌||◌, map,
}
use text.Mathlib.Text.{◌==◌}
use panmail.Base.Dict.{Dict, delete, lookup, put}
use panmail.EmailFilter.{Direction, outbound, inbound, other_direction}
use panmail.EmailFilter.Rule.{Action, hold}

pub data Status : Type 0 where
  pending released rejected expired : Status

unfoldable pub is_terminal : Status → Bool
is_terminal pending = false
is_terminal released = true
is_terminal rejected = true
is_terminal expired = true

pub record FilteredMessage : Type 0 where
  pub direction : Direction
  pub action : Action
  pub status : Status
  pub payload_ref : String
  pub reviewed_by : String
  pub reviewed_at : Option ℕ
  pub review_note : String
  pub created_at : ℕ
  pub expires_at : Option ℕ

pub data Effect : Type 0 where
  sent : String → Effect
  discarded : String → Effect
  announced : String → Status → Effect

pub record Queue : Type 0 where
  pub rows : Dict FilteredMessage
  pub log : List Effect

pub data Refusal : Type 0 where
  not_an_outcome not_found already_reviewed not_delivered not_read_back : Refusal

abbrev pub is_pending : Status → Bool
is_pending pending = true
is_pending _ = false

abbrev pub is_expired : Status → Bool
is_expired expired = true
is_expired _ = false

abbrev pub is_hold : Action → Bool
is_hold hold = true
is_hold _ = false

abbrev pub is_outbound : Direction → Bool
is_outbound outbound = true
is_outbound _ = false

-- The expiry that `screener.Record` gives a row; a retention of zero is for ever.
unfoldable pub with_expiry : ℕ → FilteredMessage → FilteredMessage
with_expiry retention r = elim r.expires_at [
  | some at ↦ r
  | none ↦
      if is_hold r.action && ltb 0 retention
      then record r { expires_at = some (r.created_at + retention) }
      else r
]

-- `Review`: the conditional update, and the row read back, if it can be, or the reason that nothing
-- changed.
unfoldable pub review :
    Bool → ℕ → String → Status → String → String → Queue → Queue × (Refusal ⊎ FilteredMessage)
review reads_back now key status by note q =
    if not (is_terminal status) then (q, inl not_an_outcome) else elim (lookup key q.rows) [
      | none ↦ (q, inl not_found)
      | some r ↦
          let decided = record r {
            status = status;
            reviewed_by = by;
            reviewed_at = some now;
            review_note = note;
          } in
          if is_pending r.status
          then (
            record q { rows = put key decided q.rows },
            if reads_back then inr decided else inl not_read_back,
          )
          else (q, inl already_reviewed)
    ]

-- Which pipelines are configured, whether the call of one succeeds, and whether the store can read
-- back what it has updated.
pub record Pipelines : Type 0 where
  pub has_outbound : Bool
  pub has_inbound : Bool
  pub has_notifier : Bool
  pub succeeds : Bool
  pub reads_back : Bool

unfoldable pub has_pipeline : Pipelines → Direction → Bool
has_pipeline p outbound = p.has_outbound
has_pipeline p inbound = p.has_inbound
has_pipeline p (other_direction t) = false

-- `deliver`: the log, and whether there was no error.
unfoldable pub deliver : Pipelines → String → FilteredMessage → List Effect → List Effect × Bool
deliver p key r log =
    if not (is_hold r.action)
    then (log, true)
    else if r.payload_ref == ""
    then (log, false)
    else if has_pipeline p r.direction
    then (sent key ∷ log, p.succeeds)
    else (log, false)

abbrev pub announce : Pipelines → String → Status → List Effect → List Effect
announce p key status log = if p.has_notifier then announced key status ∷ log else log

unfoldable pub release_row :
    Pipelines → String → FilteredMessage → Queue → Queue × (Refusal ⊎ FilteredMessage)
release_row p key r q =
    let d = deliver p key r q.log in
    if d.1
    then (record q { log = announce p key released d.0 }, inr r)
    else (record q { log = d.0 }, inl not_delivered)

-- `Release` and `Reject` after the claim, on what `review` returns.
unfoldable pub release_claimed :
    Pipelines → String → Queue × (Refusal ⊎ FilteredMessage) → Queue × (Refusal ⊎ FilteredMessage)
release_claimed p key (q, inl e) = (q, inl e)
release_claimed p key (q, inr r) = release_row p key r q

unfoldable pub release :
    Pipelines → ℕ → String → String → String → Queue → Queue × (Refusal ⊎ FilteredMessage)
release p now key by note q = release_claimed p key (review p.reads_back now key released by note q)

-- The guard and the call of `discard`, which `Reject` makes too.
unfoldable pub discard : Pipelines → String → FilteredMessage → List Effect → List Effect
discard p key r log =
    if p.has_outbound && is_outbound r.direction && is_hold r.action && not (r.payload_ref == "")
    then discarded key ∷ log
    else log

unfoldable pub reject_claimed :
    Pipelines → String → Queue × (Refusal ⊎ FilteredMessage) → Queue × (Refusal ⊎ FilteredMessage)
reject_claimed p key (q, inl e) = (q, inl e)
reject_claimed p key (q, inr r) =
    (record q { log = announce p key rejected (discard p key r q.log) }, inr r)

unfoldable pub reject :
    Pipelines → ℕ → String → String → String → Queue → Queue × (Refusal ⊎ FilteredMessage)
reject p now key by note q = reject_claimed p key (review p.reads_back now key rejected by note q)

-- The update of `Expire` for the ids that were read, on the rows.
unfoldable pub expire_rows : List String → Dict FilteredMessage → Dict FilteredMessage
expire_rows [] rows = rows
expire_rows (key ∷ rest) rows = elim (lookup key rows) [
  | none ↦ expire_rows rest rows
  | some r ↦
      expire_rows rest
        (if is_pending r.status then put key (record r { status = expired }) rows else rows)
]

-- The discards of the rows that read as expired, then their announcements.
unfoldable pub discard_expired :
    Pipelines → Dict FilteredMessage → List String → List Effect → List Effect
discard_expired p rows [] log = log
discard_expired p rows (key ∷ rest) log = elim (lookup key rows) [
  | none ↦ discard_expired p rows rest log
  | some r ↦ discard_expired p rows rest (if is_expired r.status then discard p key r log else log)
]

unfoldable pub announce_expired :
    Pipelines → Dict FilteredMessage → List String → List Effect → List Effect
announce_expired p rows [] log = log
announce_expired p rows (key ∷ rest) log = elim (lookup key rows) [
  | none ↦ announce_expired p rows rest log
  | some r ↦
      announce_expired p rows rest (if is_expired r.status then announce p key expired log else log)
]

unfoldable pub expire : Pipelines → List String → Queue → Queue
expire p ids q =
    let rows = expire_rows ids q.rows in
    record {
      rows = rows;
      log =
          if p.reads_back
          then announce_expired p rows ids (discard_expired p rows ids q.log)
          else q.log;
    }

-- When a row was decided, as the prune takes it.
unfoldable pub decided_at : FilteredMessage → ℕ
decided_at r = elim r.reviewed_at [
  | some at ↦ at
  | none ↦ elim r.expires_at [ some at ↦ at | none ↦ r.created_at ]
]

unfoldable pub is_over : ℕ → FilteredMessage → Bool
is_over before r = (is_terminal r.status || not (is_hold r.action)) && ltb (decided_at r) before

unfoldable pub prune_rows : ℕ → List String → Dict FilteredMessage → Dict FilteredMessage
prune_rows before [] rows = rows
prune_rows before (key ∷ rest) rows = elim (lookup key rows) [
  | none ↦ prune_rows before rest rows
  | some r ↦ prune_rows before rest (if is_over before r then delete key rows else rows)
]

-- `PruneTerminal`.
unfoldable pub prune_terminal : ℕ → Queue → Queue
prune_terminal before q = record q { rows = prune_rows before (map (λ x. x.0) q.rows) q.rows }

-- `screener.Record` with `Create`, for a row under a key that the table does not hold, which
-- `NewFilteredMessage` made pending.
unfoldable pub create : Pipelines → ℕ → String → FilteredMessage → Queue → Queue
create p retention key r q =
    let row = with_expiry retention (record r { status = pending }) in
    record {
      rows = put key row q.rows;
      log = if is_hold row.action then announce p key pending q.log else q.log;
    }
