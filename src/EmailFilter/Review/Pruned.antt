-- ===== src/EmailFilter/Review/Pruned.antt =====
-- A prune of the rows that are over keeps to what the log may hold of a message.
use panmail.Base.{
  [], arith, inl, inr, map, none, refl, some, ◌∷◌, ◌≡◌, ◌⊎◌, ◌∙◌, Bool-cases, List, Option,
  Option-cases, String, ℕ,
}
use panmail.Base.Dict.{Dict, delete, lookup, lookup-delete}
use panmail.EmailFilter.Review.{
  FilteredMessage, Queue, Status, is_over, prune_rows, prune_terminal, expired, pending, rejected,
  released,
}
use panmail.EmailFilter.Review.Clean.{Allowed, AllowedFor, IsClean, discard_count, sent_count}
use text.Mathlib.Text.{◌==◌}

prune_rows_cases :
    (before : ℕ) (ids : List String) (rows : Dict FilteredMessage) (k : String)
    → (lookup k (prune_rows before ids rows) ≡ lookup k rows)
      ⊎ (lookup k (prune_rows before ids rows) ≡ none)
unfolding prune_rows
prune_rows_cases before [] rows k = inl refl
prune_rows_cases before (key ∷ rest) rows k = elim (Option-cases (lookup key rows)) [
  | inl e ↦ rw (e, prune_rows) (prune_rows_cases before rest rows k)
  | inr (r, e) ↦ elim (Bool-cases (is_over before r)) [
    | inr w ↦ rw (e, prune_rows, w) (prune_rows_cases before rest rows k)
    | inl w ↦ rw (e, prune_rows, w) (after (prune_rows_cases before rest (delete key rows) k))
  ]
]
  where
    after :
        (lookup k (prune_rows before rest (delete key rows)) ≡ lookup k (delete key rows))
          ⊎ (lookup k (prune_rows before rest (delete key rows)) ≡ none)
        → (lookup k (prune_rows before rest (delete key rows)) ≡ lookup k rows)
          ⊎ (lookup k (prune_rows before rest (delete key rows)) ≡ none)
    after (inr gone) = inr gone
    after (inl same) = elim (Bool-cases (key == k)) [
      | inl x ↦ inr (same ∙ ground (arith, lookup-delete key k rows, x))
      | inr x ↦ inl (same ∙ ground (arith, lookup-delete key k rows, x))
    ]

-- What the log holds of a message in any status it may hold of one that is gone.
Allowed-none :
    (o : Option FilteredMessage) (sends discards : ℕ)
    → Allowed o sends discards
    → Allowed none sends discards
Allowed-none none sends discards h = h
Allowed-none (some r) sends discards h = by_status r.status h
  where
    by_status : (s : Status) → AllowedFor s sends discards → Allowed none sends discards
    by_status pending h = (omega (arith, h), inl h.0)
    by_status released h = (h.0, inr h.1)
    by_status rejected h = (omega (arith, h), inl h)
    by_status expired h = (omega (arith, h), inl h)

pub prune_terminal-IsClean :
    (before : ℕ) (q : Queue) → IsClean q → IsClean (prune_terminal before q)
unfolding prune_terminal
prune_terminal-IsClean before q h k =
    let ids = map (λ x. x.0) q.rows in
    elim (prune_rows_cases before ids q.rows k) [
      | inl same ↦ rw same (h k)
      | inr gone ↦
          rw gone
            (Allowed-none (lookup k q.rows) (sent_count k q.log) (discard_count k q.log) (h k))
    ]
