-- ===== src/EmailFilter/Review/Clean.antt =====
-- What the log may hold of a message, and that a review keeps to it.
use text.Mathlib.TextEquality.{eq_iff}
use panmail.Base.{
  [], false, if◌then◌else◌, inl, inr, none, refl, some, suc, ◌∷◌, Option, String, ℕ, List, ◌≡◌,
  arith, subst, ◌≤◌, ◌⊎◌, Bool-cases, sym, ◌+◌, not, Option-cases, Bool,
}
use panmail.EmailFilter.Review.{
  Queue, FilteredMessage, Effect, Status, Pipelines, review, release, release_claimed, release_row,
  reject, reject_claimed, deliver, discard, announce, Refusal, rejected, released, pending, sent,
  discarded, expired, announced, is_terminal, not_an_outcome, not_found, is_pending,
  already_reviewed, not_read_back,
}
use panmail.Base.Dict.{lookup, put, lookup-put}
use text.Mathlib.Text.{◌==◌}

-- How often a message was handed to its pipeline.
abbrev pub sent_count : String → List Effect → ℕ
sent_count key [] = 0
sent_count key (sent k ∷ log) = if k == key then suc (sent_count key log) else sent_count key log
sent_count key (discarded k ∷ log) = sent_count key log
sent_count key (announced k s ∷ log) = sent_count key log

abbrev pub discard_count : String → List Effect → ℕ
discard_count key [] = 0
discard_count key (sent k ∷ log) = discard_count key log
discard_count key (discarded k ∷ log) =
    if k == key then suc (discard_count key log) else discard_count key log
discard_count key (announced k s ∷ log) = discard_count key log

-- What the log may hold of a message, by the status of its row.
abbrev pub AllowedFor : Status → ℕ → ℕ → Type 0
AllowedFor pending sends discards = (sends ≡ 0) × (discards ≡ 0)
AllowedFor released sends discards = (sends ≤ 1) × (discards ≡ 0)
AllowedFor rejected sends discards = sends ≡ 0
AllowedFor expired sends discards = sends ≡ 0

abbrev pub Allowed : Option FilteredMessage → ℕ → ℕ → Type 0
Allowed none sends discards = (sends ≤ 1) × ((sends ≡ 0) ⊎ (discards ≡ 0))
Allowed (some r) sends discards = AllowedFor r.status sends discards

abbrev pub IsClean : Queue → Type 0
IsClean q =
    (key : String) → Allowed (lookup key q.rows) (sent_count key q.log) (discard_count key q.log)

pub announce_counts :
    (p : Pipelines) (key : String) (status : Status) (log : List Effect) (k : String)
    → (sent_count k (announce p key status log) ≡ sent_count k log)
      × (discard_count k (announce p key status log) ≡ discard_count k log)
announce_counts p key status log k = ground arith

pub discard_counts :
    (p : Pipelines) (key : String) (r : FilteredMessage) (log : List Effect) (k : String)
    → (sent_count k (discard p key r log) ≡ sent_count k log)
      × ((key == k) ≡ false → discard_count k (discard p key r log) ≡ discard_count k log)
unfolding discard
discard_counts p key r log k = ground arith

deliver_counts :
    (p : Pipelines) (key : String) (r : FilteredMessage) (log : List Effect) (k : String)
    → (discard_count k (deliver p key r log).0 ≡ discard_count k log)
      × (sent_count k (deliver p key r log).0 ≤ sent_count k log + 1)
      × ((key == k) ≡ false → sent_count k (deliver p key r log).0 ≡ sent_count k log)
unfolding deliver
deliver_counts p key r log k = ground arith

-- What a review does: nothing, or it decides a pending row and hands it on, or fails to read it.
review_cases :
    (reads_back : Bool) (now : ℕ) (key : String) (status : Status) (by note : String) (q : Queue)
    → ((e : Refusal) × (review reads_back now key status by note q ≡ (q, inl e)))
      ⊎ ((old : FilteredMessage) × (new : FilteredMessage) × (lookup key q.rows ≡ some old)
          × (old.status ≡ pending)
          × (new.status ≡ status)
          × ((review reads_back now key status by note q
                ≡ (record q { rows = put key new q.rows }, inr new))
              ⊎ (review reads_back now key status by note q
                  ≡ (record q { rows = put key new q.rows }, inl not_read_back))))
unfolding review
review_cases reads_back now key status by note q = elim (Bool-cases (not (is_terminal status))) [
  | inl t ↦ inl (not_an_outcome, rw t refl)
  | inr t ↦ elim (Option-cases (lookup key q.rows)) [
    | inl e ↦ inl (not_found, rw (t, e, review) refl)
    | inr (r, e) ↦ elim (Bool-cases (is_pending r.status)) [
      | inl w ↦ inr (
        r,
        record r { status = status; reviewed_by = by; reviewed_at = some now; review_note = note },
        e,
        ground arith,
        refl,
        elim (Bool-cases reads_back) [
          | inl b ↦ inl (rw (t, e, review, w, b) refl)
          | inr b ↦ inr (rw (t, e, review, w, b) refl)
        ],
      )
      | inr w ↦ inl (already_reviewed, rw (t, e, review, w) refl)
    ]
  ]
]

-- A row that is decided, and nothing done about it.
put-IsClean :
    (key : String) (old new : FilteredMessage) (q : Queue)
    → IsClean q
    → lookup key q.rows ≡ some old
    → old.status ≡ pending
    → (new.status ≡ released) ⊎ (new.status ≡ rejected)
    → IsClean (record q { rows = put key new q.rows })
put-IsClean key old new q h e w (inl s) k =
    ground (arith, h k, h key, lookup-put key k new q.rows, eq_iff key k)
put-IsClean key old new q h e w (inr s) k =
    ground (arith, h k, h key, lookup-put key k new q.rows, eq_iff key k)

release_row-IsClean :
    (p : Pipelines) (key : String) (old new : FilteredMessage) (q : Queue)
    → IsClean q
    → lookup key q.rows ≡ some old
    → old.status ≡ pending
    → new.status ≡ released
    → IsClean (release_row p key new (record q { rows = put key new q.rows })).0
unfolding release_row
release_row-IsClean p key old new q h e w s k =
    let d = deliver p key new q.log in
    ground (
      arith,
      h k,
      h key,
      lookup-put key k new q.rows,
      eq_iff key k,
      deliver_counts p key new q.log k,
      announce_counts p key released d.0 k,
    )

pub release-IsClean :
    (p : Pipelines) (now : ℕ) (key by note : String) (q : Queue)
    → IsClean q
    → IsClean (release p now key by note q).0
unfolding release release_claimed
release-IsClean p now key by note q h =
    elim (review_cases p.reads_back now key released by note q) [
      | inl (e, same) ↦ subst (λ c. IsClean (release_claimed p key c).0) (sym same) h
      | inr (old, new, e, w, s, inl same) ↦
          subst (λ c. IsClean (release_claimed p key c).0) (sym same)
            (release_row-IsClean p key old new q h e w s)
      | inr (old, new, e, w, s, inr same) ↦
          subst (λ c. IsClean (release_claimed p key c).0) (sym same)
            (put-IsClean key old new q h e w (inl s))
    ]

reject_claimed-IsClean :
    (p : Pipelines) (key : String) (old new : FilteredMessage) (q : Queue)
    → IsClean q
    → lookup key q.rows ≡ some old
    → old.status ≡ pending
    → new.status ≡ rejected
    → IsClean (reject_claimed p key (record q { rows = put key new q.rows }, inr new)).0
unfolding reject_claimed
reject_claimed-IsClean p key old new q h e w s k = ground (
  arith,
  h k,
  h key,
  lookup-put key k new q.rows,
  eq_iff key k,
  discard_counts p key new q.log k,
  announce_counts p key rejected (discard p key new q.log) k,
)

pub reject-IsClean :
    (p : Pipelines) (now : ℕ) (key by note : String) (q : Queue)
    → IsClean q
    → IsClean (reject p now key by note q).0
unfolding reject reject_claimed
reject-IsClean p now key by note q h = elim (review_cases p.reads_back now key rejected by note q) [
  | inl (e, same) ↦ subst (λ c. IsClean (reject_claimed p key c).0) (sym same) h
  | inr (old, new, e, w, s, inl same) ↦
      subst (λ c. IsClean (reject_claimed p key c).0) (sym same)
        (reject_claimed-IsClean p key old new q h e w s)
  | inr (old, new, e, w, s, inr same) ↦
      subst (λ c. IsClean (reject_claimed p key c).0) (sym same)
        (put-IsClean key old new q h e w (inr s))
]
