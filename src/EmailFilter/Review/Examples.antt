-- ===== src/EmailFilter/Review/Examples.antt =====
-- Two reviewers and a sweep at one message.
use panmail.Base.Dict.{lookup, put}
use panmail.Base.{[], none, refl, some, true, ◌∷◌, ◌≤◌, ◌≡◌, ◌⊎◌}
use panmail.EmailFilter.Review.{
  Queue, FilteredMessage, Pipelines, release, expire, create, pending, release_claimed, release_row,
  review, is_terminal, deliver, released, has_pipeline, with_expiry, expire_rows, discard_expired,
  announce_expired,
}
use panmail.EmailFilter.Review.Clean.{sent_count, discard_count}
use panmail.EmailFilter.Review.Once.{Reach-once, released_by, created, empty}
use panmail.EmailFilter.{outbound}
use panmail.EmailFilter.Rule.{hold}

abbrev working : Pipelines
working = record {
  has_outbound = true;
  has_inbound = true;
  has_notifier = true;
  succeeds = true;
  reads_back = true;
}

abbrev held : FilteredMessage
held = record {
  direction = outbound;
  action = hold;
  status = pending;
  payload_ref = "m1";
  reviewed_by = "";
  reviewed_at = none;
  review_note = "";
  created_at = 0;
  expires_at = none;
}

abbrev start : Queue
start = create working 100 "1" held (record { rows = []; log = [] })

abbrev raced : Queue
raced = (release working 6 "1" "bob" "" (release working 5 "1" "ann" "" start).0).0

sent_once :
    (sent_count "1" raced.log ≡ 1) × (discard_count "1" (expire working ("1" ∷ []) raced).log ≡ 0)
unfolding release release_claimed release_row review is_terminal deliver has_pipeline create
    with_expiry lookup put expire expire_rows discard_expired announce_expired
sent_once = (refl, refl)

Reach-once_example :
    (sent_count "1" raced.log ≤ 1)
    × ((sent_count "1" raced.log ≡ 0) ⊎ (discard_count "1" raced.log ≡ 0))
    × ((r : FilteredMessage)
        → lookup "1" raced.rows ≡ some r
        → 1 ≤ sent_count "1" raced.log
        → r.status ≡ released)
unfolding lookup
Reach-once_example =
    Reach-once
      (released_by working 6 "1" "bob" "" (
        released_by working 5 "1" "ann" "" (created working 100 "1" held (refl, refl, refl) empty)))
      "1"
