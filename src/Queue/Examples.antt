-- ===== src/Queue/Examples.antt =====
-- A message to two recipients, one of whom a provider puts off.

use panmail.Delivery.Attempts.{
  event, drop_reason, drop_each, attempt_each, attempt_one, try_providers, after_answer, outcome_of,
  failure, join,
}
use panmail.Senders.{allowed, match_address}
use panmail.Delivery.Providers.{choose_providers, named_provider, find_provider, first_sender}
use panmail.Queue.Passes.{Life-ends}
use panmail.Base.Dict.{lookup, put}
use panmail.Queue.Handlers.{
  handle_failure, handle_recipient_failures, settle_failures, settle_retryable, settle_permanents,
  defer_until,
}
use panmail.Recipients.{unique_recipients, unique_from}
use panmail.Base.Int.{pos, ◌+ℤ◌}
use panmail.Queue.Outcome.{Outcome, handle_failure-Outcome}
use panmail.Delivery.Finished.{all_finishings, remaining}
use panmail.Queue.History.{Life, Message, claimable, after_pass, passed, queued, Meets, row_after}
use panmail.Cache.{write, TtlCache, get, put_value, evict_expired, write_if_room}
use panmail.Queue.Worker.{
  Circumstances, Processed, process_email, settle_sent, hold_lease, recorded_events,
}
use panmail.Bounce.{
  Patterns, classify_error, classify_text, classify_reply, is_infrastructure, is_transient,
  is_hard_bounce, reply_of, contains_any, deferred,
}
use panmail.Delivery.{
  EmailProvider, Request, SendError, Surroundings, Answer, accepted, smtp, unsent, is_receiver,
  finished_in, delivered_in, settled_in, failures_text, retryable_failures, permanent_failures,
  is_delivered, settles,
}
use panmail.Base.{
  [], false, if◌then◌else◌, inl, inr, none, refl, some, true, ◌∷◌, length, List, ◌≤◌, String, ◌+◌,
  ◌≡◌, arith, filter,
}
use panmail.Base.Text.{
  ◌==◌, Text, codes, has_substring, has_prefix, to_lower, trim_space, trim, trim_left, trim_right,
}
use panmail.Delivery.Send.{
  send_email, do_send, choose, render, read_history, deliver, read_suppressions, send_to, conclude,
}
use panmail.Queue.{
  pending, Collaborators, OutboxEmail, get_retry_pattern, read_pattern, global_pattern,
  next_retry_delay, delay_of, update, deferred,
}

abbrev ann : Text
ann = codes "ann@x.org"

abbrev bob : Text
bob = codes "bob@x.org"

abbrev request : Request
request = record {
  provider_id = "p";
  from = codes "ceo@acme.org";
  to = ann ∷ [];
  cc = bob ∷ [];
  bcc = [];
  subject = codes "hello";
}

-- Patterns that find no codes and no addresses.
abbrev no_codes : Patterns
no_codes = record {
  has_code = λ codes_of t. false;
  has_transient_code = λ t. false;
  without_addresses = λ t. t;
  reply_code = λ t. none;
}

abbrev provider : EmailProvider
provider = record { id = "p"; name = codes "relay"; provider_type = smtp; allowed_senders = [] }

-- The provider takes mail for Ann and puts Bob's off.
unfoldable answer_of : EmailProvider → Text → Answer
answer_of p r = if r == ann then accepted else unsent (codes "server busy")

abbrev surroundings : Surroundings
surroundings = record {
  refused_early = none;
  sender = inr (codes "ceo@acme.org");
  listed = inr (provider ∷ []);
  stored = none;
  rendered = inr (codes "hello");
  history = inr [];
  parse = λ t. none;
  suppressions = inr (λ t. none);
  pace = λ p n. none;
  interrupted = λ t. none;
  answer = answer_of;
  patterns = no_codes;
}

abbrev collaborators : Collaborators
collaborators = record {
  parse_duration = λ t. some (pos 300);
  patterns = no_codes;
  retry_pattern_source = none;
  tenant_retry_pattern = λ t. none;
}

abbrev queued_row : OutboxEmail
queued_row = record {
  id = "m";
  tenant_id = "acme";
  request = codes "{}";
  status = pending;
  retry_count = 0;
  next_retry_at = pos 0;
  last_error = [];
  created_at = 0;
  updated_at = 0;
  claim_token = "t";
}

abbrev circumstances : Circumstances
circumstances = record {
  now = 1000;
  renewed = some true;
  unmarshal = λ t. some request;
  surroundings = surroundings;
  lost = false;
  readable = true;
  stores = λ e. true;
}

abbrev cache : TtlCache (List String)
cache = record { entries = []; ttl = 60; max_entries = 10 }

abbrev new_message : Message
new_message = record {
  row = some queued_row;
  history = [];
  lost = [];
  recorded = [];
  passes = 0;
  unread = 0;
}

abbrev first_pass : Processed
first_pass = process_email collaborators circumstances [] cache queued_row

abbrev after_first : Message
after_first = after_pass queued_row request new_message circumstances first_pass

meets : Meets collaborators request 8 new_message queued_row circumstances cache
unfolding claimable get_retry_pattern get lookup read_pattern global_pattern
meets = record { row = refl; due = refl; request = refl; reads = inl refl; short = omega arith }

life : Life request 8 after_first
life = passed collaborators queued_row circumstances cache (queued queued_row refl) meets

-- The pass leaves Bob to be tried again, in a row put back with no retry counted.
one_left :
    (remaining after_first.history (unique_recipients (ann ∷ []) (bob ∷ []) []) ≡ 1)
    × (first_pass.write
        ≡ some (
            update (record queued_row {
              status = deferred;
              next_retry_at = pos 1300;
              last_error = codes "failed to deliver to bob@x.org: server busy";
              updated_at = 1000;
            })))
unfolding answer_of process_email settle_sent hold_lease send_email do_send choose choose_providers
    named_provider find_provider is_receiver allowed match_address render read_history deliver
    read_suppressions finished_in delivered_in settled_in send_to drop_reason drop_each first_sender
    attempt_each attempt_one try_providers after_answer outcome_of failure join event conclude
    failures_text handle_failure handle_recipient_failures settle_failures settle_retryable
    settle_permanents retryable_failures permanent_failures filter get_retry_pattern get put_value
    next_retry_delay delay_of classify_error classify_text classify_reply is_infrastructure
    is_transient is_hard_bounce reply_of contains_any has_substring has_prefix to_lower trim_space
    trim trim_left trim_right ◌==◌ unique_recipients unique_from after_pass row_after
    recorded_events remaining is_delivered settles lookup put write defer_until read_pattern
    global_pattern ◌+ℤ◌ evict_expired write_if_room
one_left = (refl, refl)

Life-ends_example :
    let most =
      length (unique_recipients (ann ∷ []) (bob ∷ []) [])
      + all_finishings after_first.lost
      + 8
      + 1 in
    (after_first.passes ≤ most)
    × ((e : OutboxEmail)
        → after_first.row ≡ some e
        → after_first.passes ≡ most
        → claimable e.status ≡ false)
Life-ends_example = Life-ends life

abbrev busy : SendError
busy = record {
  message = codes "server busy";
  paced = none;
  per_recipient = none;
  permanent = false;
}

handle_failure-Outcome_example :
    Outcome
      (get_retry_pattern collaborators 1000 "acme" cache).1
      busy
      queued_row
      (handle_failure collaborators 1000 request (some []) busy cache queued_row).write
handle_failure-Outcome_example =
    handle_failure-Outcome collaborators 1000 request busy (some []) cache queued_row
