-- ===== src/EmailFilter/Review/Sweep.antt =====
-- A sweep keeps to what the log may hold of a message.
use text.Mathlib.TextEquality.{eq_iff}
use panmail.Base.{
  [], if◌then◌else◌, inl, inr, refl, some, true, ◌∷◌, List, String, arith, ◌≡◌, Option-cases, ◌⊎◌,
  Bool-cases, ◌∙◌,
}
use panmail.EmailFilter.Review.{
  Queue, FilteredMessage, Effect, Pipelines, expire, expire_rows, discard_expired, announce_expired,
  discard, announce, is_pending, is_expired, expired, pending,
}
use panmail.EmailFilter.Review.Clean.{
  IsClean, sent_count, discard_count, announce_counts, discard_counts,
}
use panmail.Base.Dict.{Dict, lookup, put, lookup-put}
use text.Mathlib.Text.{◌==◌}

-- What a sweep does to a row: it expires a pending one.
expire_rows_cases :
    (ids : List String) (rows : Dict FilteredMessage) (k : String)
    → (lookup k (expire_rows ids rows) ≡ lookup k rows)
      ⊎ ((r : FilteredMessage) × (lookup k rows ≡ some r)
          × (r.status ≡ pending)
          × (lookup k (expire_rows ids rows) ≡ some (record r { status = expired })))
unfolding expire_rows
expire_rows_cases [] rows k = inl refl
expire_rows_cases (key ∷ rest) rows k = elim (Option-cases (lookup key rows)) [
  | inl e ↦ rw (e, expire_rows) (expire_rows_cases rest rows k)
  | inr (r, e) ↦ elim (Bool-cases (is_pending r.status)) [
    | inl w ↦
        rw (e, expire_rows, w)
          (after r e w (expire_rows_cases rest (put key (record r { status = expired }) rows) k))
    | inr w ↦ rw (e, expire_rows, w) (expire_rows_cases rest rows k)
  ]
]
  where
    after :
        (r : FilteredMessage)
        → lookup key rows ≡ some r
        → is_pending r.status ≡ true
        → (let later = put key (record r { status = expired }) rows in
            (lookup k (expire_rows rest later) ≡ lookup k later)
            ⊎ ((s : FilteredMessage) × (lookup k later ≡ some s)
                × (s.status ≡ pending)
                × (lookup k (expire_rows rest later) ≡ some (record s { status = expired }))))
        → (let later = put key (record r { status = expired }) rows in
            (lookup k (expire_rows rest later) ≡ lookup k rows)
            ⊎ ((s : FilteredMessage) × (lookup k rows ≡ some s)
                × (s.status ≡ pending)
                × (lookup k (expire_rows rest later) ≡ some (record s { status = expired }))))
    after r e w (inl same) = elim (Bool-cases (key == k)) [
      | inl x ↦ inr (
        r,
        ground (arith, eq_iff key k),
        ground arith,
        same ∙ ground (arith, lookup-put key k (record r { status = expired }) rows),
      )
      | inr x ↦ inl (same ∙ ground (arith, lookup-put key k (record r { status = expired }) rows))
    ]
    after r e w (inr (s, there, fresh, done)) = elim (Bool-cases (key == k)) [
      | inl x ↦
          absurd
            (gone s fresh (ground (arith, lookup-put key k (record r { status = expired }) rows)))
      | inr x ↦
          inr
            (s, ground (arith, lookup-put key k (record r { status = expired }) rows), fresh, done)
    ]
      where
        gone :
            (s : FilteredMessage)
            → s.status ≡ pending
            → some (record r { status = expired }) ≡ some s
            → ⊥
        gone s fresh q = ground arith

sent_count-announce_expired :
    (p : Pipelines) (rows : Dict FilteredMessage) (ids : List String) (log : List Effect)
    (k : String)
    → (sent_count k (announce_expired p rows ids log) ≡ sent_count k log)
      × (discard_count k (announce_expired p rows ids log) ≡ discard_count k log)
unfolding announce_expired
sent_count-announce_expired p rows [] log k = (refl, refl)
sent_count-announce_expired p rows (key ∷ rest) log k = elim (Option-cases (lookup key rows)) [
  | inl e ↦ rw (e, announce_expired) (sent_count-announce_expired p rows rest log k)
  | inr (r, e) ↦
      let next = if is_expired r.status then announce p key expired log else log in
      rw (e, announce_expired)
        (ground (
          arith,
          sent_count-announce_expired p rows rest next k,
          announce_counts p key expired log k,
        ))
]

discard_expired_counts :
    (p : Pipelines) (rows : Dict FilteredMessage) (ids : List String) (log : List Effect)
    (k : String)
    → (sent_count k (discard_expired p rows ids log) ≡ sent_count k log)
      × ((discard_count k (discard_expired p rows ids log) ≡ discard_count k log)
          ⊎ ((r : FilteredMessage) × (lookup k rows ≡ some r) × (r.status ≡ expired)))
unfolding discard_expired
discard_expired_counts p rows [] log k = (refl, inl refl)
discard_expired_counts p rows (key ∷ rest) log k = elim (Option-cases (lookup key rows)) [
  | inl e ↦ rw (e, discard_expired) (discard_expired_counts p rows rest log k)
  | inr (r, e) ↦ elim (Bool-cases (is_expired r.status)) [
    | inl x ↦
        rw (e, discard_expired, x)
          (after r e x (discard_expired_counts p rows rest (discard p key r log) k))
    | inr x ↦ rw (e, discard_expired, x) (discard_expired_counts p rows rest log k)
  ]
]
  where
    after :
        (r : FilteredMessage)
        → lookup key rows ≡ some r
        → is_expired r.status ≡ true
        → (let kept = discard p key r log in
            (sent_count k (discard_expired p rows rest kept) ≡ sent_count k kept)
            × ((discard_count k (discard_expired p rows rest kept) ≡ discard_count k kept)
                ⊎ ((s : FilteredMessage) × (lookup k rows ≡ some s) × (s.status ≡ expired))))
        → (let kept = discard p key r log in
            (sent_count k (discard_expired p rows rest kept) ≡ sent_count k log)
            × ((discard_count k (discard_expired p rows rest kept) ≡ discard_count k log)
                ⊎ ((s : FilteredMessage) × (lookup k rows ≡ some s) × (s.status ≡ expired))))
    after r e x (sends, inr found) = (sends ∙ (discard_counts p key r log k).0, inr found)
    after r e x (sends, inl same) = (
      sends ∙ (discard_counts p key r log k).0,
      elim (Bool-cases (key == k)) [
        | inl y ↦ inr (r, ground (arith, eq_iff key k), ground arith)
        | inr y ↦ inl (same ∙ (discard_counts p key r log k).1 y)
      ],
    )

pub expire-IsClean :
    (p : Pipelines) (ids : List String) (q : Queue) → IsClean q → IsClean (expire p ids q)
unfolding expire
expire-IsClean p ids q h k =
    let rows = expire_rows ids q.rows in
    let log = discard_expired p rows ids q.log in
    let told = sent_count-announce_expired p rows ids log k in
    let dropped = discard_expired_counts p rows ids q.log k in
    elim (Bool-cases p.reads_back) [
      | inl b ↦ elim (expire_rows_cases ids q.rows k) [
        | inl same ↦ ground (arith, h k, told, dropped, b)
        | inr (r, there, fresh, done) ↦ ground (arith, h k, told, dropped, b)
      ]
      | inr b ↦ elim (expire_rows_cases ids q.rows k) [
        | inl same ↦ ground (arith, h k, b)
        | inr (r, there, fresh, done) ↦ ground (arith, h k, b)
      ]
    ]
