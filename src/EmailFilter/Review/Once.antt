-- ===== src/EmailFilter/Review/Once.antt =====
-- A held message is decided once.
use mathlib.Core.Option.{some_inj}
use panmail.EmailFilter.Review.Pruned.{prune_terminal-IsClean}
use text.Mathlib.TextEquality.{eq_iff}
use panmail.Base.{
  [], inl, inr, none, refl, some, String, ℕ, ◌≡◌, ◌≤◌, List, ◌⊎◌, arith, subst, Option,
}
use panmail.EmailFilter.Review.{
  Queue, FilteredMessage, Status, Pipelines, release, reject, expire, prune_terminal, create,
  with_expiry, pending, released, rejected, expired,
}
use panmail.EmailFilter.Review.Clean.{
  IsClean, Allowed, AllowedFor, sent_count, discard_count, release-IsClean, reject-IsClean,
  announce_counts,
}
use panmail.EmailFilter.Review.Sweep.{expire-IsClean}
use panmail.Base.Dict.{lookup, lookup-put}

-- A key that no row has and nothing was done for.
abbrev pub IsNew : String → Queue → Type 0
IsNew key q =
    (lookup key q.rows ≡ none) × (sent_count key q.log ≡ 0) × (discard_count key q.log ≡ 0)

-- Histories of the review queue: messages are recorded under new keys, released, rejected, expired
-- and pruned in any order, with any outcome of the calls to the pipelines, and of reading a row
-- back after its update.
pub data Reach : Queue → Type 0 where
  empty : Reach (record { rows = []; log = [] })
  created :
      {q : Queue} (p : Pipelines) (retention : ℕ) (key : String) (r : FilteredMessage)
      → IsNew key q
      → Reach q
      → Reach (create p retention key r q)
  released_by :
      {q : Queue} (p : Pipelines) (now : ℕ) (key by note : String)
      → Reach q
      → Reach (release p now key by note q).0
  rejected_by :
      {q : Queue} (p : Pipelines) (now : ℕ) (key by note : String)
      → Reach q
      → Reach (reject p now key by note q).0
  swept : {q : Queue} (p : Pipelines) (ids : List String) → Reach q → Reach (expire p ids q)
  pruned : {q : Queue} (before : ℕ) → Reach q → Reach (prune_terminal before q)

create-IsClean :
    (p : Pipelines) (retention : ℕ) (key : String) (r : FilteredMessage) (q : Queue)
    → IsNew key q
    → IsClean q
    → IsClean (create p retention key r q)
unfolding create with_expiry
create-IsClean p retention key r q e h k =
    let new = with_expiry retention (record r { status = pending }) in
    ground (
      arith,
      h k,
      h key,
      lookup-put key k new q.rows,
      eq_iff key k,
      announce_counts p key pending q.log k,
    )

Reach-IsClean : {q : Queue} → Reach q → IsClean q
unfolding lookup
Reach-IsClean empty = λ k. (omega arith, inl refl)
Reach-IsClean (created {q = q} p retention key r e reached) =
    create-IsClean p retention key r q e (Reach-IsClean reached)
Reach-IsClean (released_by {q = q} p now key by note reached) =
    release-IsClean p now key by note q (Reach-IsClean reached)
Reach-IsClean (rejected_by {q = q} p now key by note reached) =
    reject-IsClean p now key by note q (Reach-IsClean reached)
Reach-IsClean (swept {q = q} p ids reached) = expire-IsClean p ids q (Reach-IsClean reached)
Reach-IsClean (pruned {q = q} before reached) =
    prune_terminal-IsClean before q (Reach-IsClean reached)

-- In any history of the review queue, prunes, sweeps that read their ids before other steps, and
-- updates whose row could not be read back included: a message is handed to its pipeline at most
-- once; it is never both handed on and discarded; and while the row of a message that was handed on
-- is there, it reads released.
pub Reach-once :
    {q : Queue}
    → Reach q
    → (key : String)
    → (sent_count key q.log ≤ 1)
      × ((sent_count key q.log ≡ 0) ⊎ (discard_count key q.log ≡ 0))
      × ((r : FilteredMessage)
          → lookup key q.rows ≡ some r
          → 1 ≤ sent_count key q.log
          → r.status ≡ released)
Reach-once {q} reached key = by_row (lookup key q.rows) refl (Reach-IsClean reached key)
  where
    by_row :
        (o : Option FilteredMessage)
        → lookup key q.rows ≡ o
        → Allowed o (sent_count key q.log) (discard_count key q.log)
        → (sent_count key q.log ≤ 1)
          × ((sent_count key q.log ≡ 0) ⊎ (discard_count key q.log ≡ 0))
          × ((r : FilteredMessage) → o ≡ some r → 1 ≤ sent_count key q.log → r.status ≡ released)
    by_row none e (s, d) = (s, d, λ r h le. absurd (ground (arith, h)))
    by_row (some r) e a = by_status r.status refl a
      where
        by_status :
            (status : Status)
            → r.status ≡ status
            → AllowedFor status (sent_count key q.log) (discard_count key q.log)
            → (sent_count key q.log ≤ 1)
              × ((sent_count key q.log ≡ 0) ⊎ (discard_count key q.log ≡ 0))
              × ((t : FilteredMessage)
                  → some r ≡ some t
                  → 1 ≤ sent_count key q.log
                  → t.status ≡ released)
        by_status pending x (s, d) = (omega arith, inl s, λ t h le. absurd (omega (arith, s, le)))
        by_status released x (s, d) = (
          s,
          inr d,
          λ t h le. subst (λ (u : FilteredMessage). u.status ≡ released) (some_inj.0 h) x,
        )
        by_status rejected x s = (omega arith, inl s, λ t h le. absurd (omega (arith, s, le)))
        by_status expired x s = (omega arith, inl s, λ t h le. absurd (omega (arith, s, le)))
