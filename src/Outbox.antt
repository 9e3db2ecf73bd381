-- ===== src/Outbox.antt =====
-- internal/email/repositories/stores/postgres/outbox_store.go with its statements under sql/: the
-- table of queued messages and the claims on them.
--
-- Each statement is one step on the table, as the database makes it. A column that may be NULL is
-- an option. A statement that the database refuses changes nothing, and is no step. Rows of one
-- `created_at` are taken in the order of the table, where SQL leaves it open.
pub mod Held
pub mod Lease
pub mod Others
pub mod Renewal
mod Examples
use panmail.Base.Int.{leb_ℤ, pos}
use panmail.Base.{
  ◌==◌ as nat_eq, [], false, if◌then◌else◌, none, some, true, ◌∷◌, Bool, List, String, ℕ, Option,
  any, filter, leb, length, ltb, map, take, ◌&&◌, ◌++◌, ◌+◌, not,
}
use text.Mathlib.Text.{◌==◌}
use panmail.Queue.{pending, deferred, failed, sending, held, OutboxEmail}

pub record Row : Type 0 where
  pub email : OutboxEmail
  pub claim_token : Option String
  pub claimed_until : Option ℕ

-- `create_outbox.sql`
unfoldable pub create : OutboxEmail → List Row → List Row
create e rows = rows ++ record { email = e; claim_token = none; claimed_until = none } ∷ []

-- `claimed_until IS NULL OR claimed_until < now`
unfoldable pub has_lapsed : ℕ → Option ℕ → Bool
has_lapsed now none = true
has_lapsed now (some until) = ltb until now

unfoldable pub is_open : ℕ → Row → Bool
is_open now r = elim r.email.status [
  | pending ↦ true
  | deferred ↦ true
  | sending ↦ has_lapsed now r.claimed_until
  | failed ↦ false
  | held ↦ false
]

-- The WHERE clause of `claim_pending_outbox.sql`.
unfoldable pub is_due : ℕ → Row → Bool
is_due now r = leb_ℤ r.email.next_retry_at (pos now) && is_open now r

-- `ORDER BY created_at ASC`
unfoldable pub insert : Row → List Row → List Row
insert r [] = r ∷ []
insert r (s ∷ rows) =
    let rest = insert r rows in
    if leb r.email.created_at s.email.created_at then r ∷ s ∷ rows else s ∷ rest

unfoldable pub oldest_first : List Row → List Row
oldest_first [] = []
oldest_first (r ∷ rows) = insert r (oldest_first rows)

unfoldable pub is_one_of : List Row → String → Bool
is_one_of rows id = any (λ r. r.email.id == id) rows

unfoldable pub choose_due : ℕ → ℕ → List Row → List Row
choose_due limit now rows = take limit (oldest_first (filter (is_due now) rows))

unfoldable pub mark : ℕ → ℕ → String → Row → Row
mark now lease_for token r = record {
  email = record r.email { status = sending; updated_at = now };
  claim_token = some token;
  claimed_until = some (now + lease_for);
}

unfoldable pub mark_all : ℕ → ℕ → String → List Row → List Row → List Row
mark_all now lease_for token chosen rows =
    map (λ r. if is_one_of chosen r.email.id then mark now lease_for token r else r) rows

unfoldable pub has_token : String → Row → Bool
has_token token r = elim r.claim_token [ some t ↦ t == token | none ↦ false ]

-- `list_claimed_outbox.sql`, each copy with the token that it was claimed under.
unfoldable pub list_claimed : String → List Row → List OutboxEmail
list_claimed token rows =
    map (λ r. record r.email { claim_token = token }) (oldest_first (filter (has_token token) rows))

unfoldable pub claim_rows : ℕ → ℕ → ℕ → String → List Row → List Row
claim_rows limit lease_for now token rows =
    mark_all now lease_for token (choose_due limit now rows) rows

unfoldable pub claim_pending : ℕ → ℕ → ℕ → String → List Row → List Row × List OutboxEmail
claim_pending limit lease_for now token rows =
    let after = claim_rows limit lease_for now token rows in (after, list_claimed token after)

-- `renew_outbox_claim.sql`: the claim is still the token's.
unfoldable pub is_claim : String → String → Row → Bool
is_claim id token r =
    r.email.id == id && has_token token r && (elim r.email.status [ sending ↦ true | _ ↦ false ])

unfoldable pub renew_rows : String → String → ℕ → List Row → List Row
renew_rows id token until rows =
    map (λ r. if is_claim id token r then record r { claimed_until = some until } else r) rows

-- `affected == 1`
unfoldable pub renew_claim : String → String → ℕ → List Row → List Row × Bool
renew_claim id token until rows =
    (renew_rows id token until rows, nat_eq (length (filter (is_claim id token) rows)) 1)

unfoldable pub update_row : OutboxEmail → Row → Row
update_row e r = record {
  email = record r.email {
    status = e.status;
    retry_count = e.retry_count;
    next_retry_at = e.next_retry_at;
    last_error = e.last_error;
    updated_at = e.updated_at;
  };
  claim_token = none;
  claimed_until = none;
}

unfoldable pub update_rows : OutboxEmail → List Row → List Row
update_rows e rows = map (λ r. if r.email.id == e.id then update_row e r else r) rows

unfoldable pub delete_rows : String → List Row → List Row
delete_rows id rows = filter (λ r. not (r.email.id == id)) rows

unfoldable pub is_terminal : ℕ → Row → Bool
is_terminal older_than r = elim r.email.status [
  | failed ↦ ltb r.email.updated_at older_than
  | _ ↦ false
]

unfoldable pub prune_terminal : ℕ → List Row → List Row
prune_terminal older_than rows = filter (λ r. not (is_terminal older_than r)) rows

-- A held row with no review that is still pending; the reviews are another table's.
unfoldable pub is_orphan : ℕ → (String → Bool) → Row → Bool
is_orphan older_than under_review r = elim r.email.status [
  | held ↦ ltb r.email.created_at older_than && not (under_review r.email.id)
  | _ ↦ false
]

unfoldable pub prune_held : ℕ → (String → Bool) → List Row → List Row
prune_held older_than under_review rows =
    filter (λ r. not (is_orphan older_than under_review r)) rows

unfoldable pub get_by_id : String → List Row → Option OutboxEmail
get_by_id id [] = none
get_by_id id (r ∷ rows) =
    let rest = get_by_id id rows in if r.email.id == id then some r.email else rest

unfoldable pub is_queued : Row → Bool
is_queued r = elim r.email.status [ pending ↦ true | deferred ↦ true | sending ↦ true | _ ↦ false ]

unfoldable pub count_pending : String → List Row → ℕ
count_pending tenant_id rows =
    length (filter (λ r. r.email.tenant_id == tenant_id && is_queued r) rows)
