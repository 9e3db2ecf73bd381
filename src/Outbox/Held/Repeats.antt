-- ===== src/Outbox/Held/Repeats.antt =====
-- A review that is sent again, after a success or after a failure.
use panmail.Base.Int.{pos}
use panmail.Base.{
  [], false, inl, inr, none, refl, some, true, ◌∷◌, Bool, List, String, ℕ, ◌≡◌, Bool-cases,
  Option-cases, arith, filter, ◌⊎◌,
}
use text.Mathlib.Text.{◌==◌}
use text.Mathlib.TextEquality.{eq_iff}
use panmail.Queue.{pending, OutboxEmail}
use panmail.Outbox.{Row, delete_rows, get_by_id, update_rows, update_row}
use panmail.Outbox.Held.{
  release_held, discard_held, read_failed, write_failed, no_longer_stored, of_another_tenant,
  HeldError, Review, release, discard, run_review, is_held, refuse, accept, released,
}

get_by_id-id :
    (id : String) (rows : List Row) (e : OutboxEmail)
    → get_by_id id rows ≡ some e
    → (e.id == id) ≡ true
unfolding get_by_id
get_by_id-id id [] e h = absurd (ground (arith, h))
get_by_id-id id (r ∷ rows) e h = ground (arith, h, get_by_id-id id rows e)

get_by_id-update_rows :
    (id : String) (new : OutboxEmail) (rows : List Row) (e : OutboxEmail)
    → new.id ≡ id
    → get_by_id id rows ≡ some e
    → get_by_id id (update_rows new rows)
      ≡ some (record e {
        status = new.status;
        retry_count = new.retry_count;
        next_retry_at = new.next_retry_at;
        last_error = new.last_error;
        updated_at = new.updated_at;
      })
unfolding get_by_id update_rows update_row
get_by_id-update_rows id new [] e same h = absurd (ground (arith, h))
get_by_id-update_rows id new (r ∷ rows) e same h = elim (Bool-cases (r.email.id == id)) [
  | inl i ↦ let k : r.email ≡ e = ground (arith, h, i) in rw (same, i) (rw i (rw k refl))
  | inr i ↦
      let ih = get_by_id-update_rows id new rows e same (ground (arith, h, i)) in
      rw (same, i) (rw i ih)
]

get_by_id-delete_rows : (id : String) (rows : List Row) → get_by_id id (delete_rows id rows) ≡ none
unfolding get_by_id delete_rows filter
get_by_id-delete_rows id [] = refl
get_by_id-delete_rows id (r ∷ rows) = ground (arith, get_by_id-delete_rows id rows)

-- The message is the tenant's, and is not held.
pub record IsSettled (tenant_id id : String) (rows : List Row) : Type 0 where
  pub message : OutboxEmail
  pub stored : get_by_id id rows ≡ some message
  pub owner : (message.tenant_id == tenant_id) ≡ true
  pub status : is_held message.status ≡ false

module _ (has_worker read_fails write_fails : Bool) (now : ℕ) (tenant_id id : String) where
  release_held-IsSettled :
      (rows : List Row)
      → (release_held has_worker read_fails write_fails now tenant_id id rows).error ≡ none
      → IsSettled tenant_id id
          (release_held has_worker read_fails write_fails now tenant_id id rows).rows
  unfolding release_held refuse accept is_held released
  release_held-IsSettled rows h = elim (Option-cases (get_by_id id rows)) [
    | inl n ↦ absurd (ground (arith, h, n))
    | inr (e, s) ↦ elim (Bool-cases (e.tenant_id == tenant_id)) [
      | inr o ↦ absurd (ground (arith, h, s, o))
      | inl o ↦ elim (Bool-cases (is_held e.status)) [
        | inr k ↦
            let same : (release_held has_worker read_fails write_fails now tenant_id id rows).rows
                ≡ rows =
              ground (arith, h, s, o, k) in
            rw same record { message = e; stored = s; owner = o; status = k }
        | inl k ↦
            let moved : (release_held has_worker read_fails write_fails now tenant_id id rows).rows
                ≡ update_rows (released now e) rows =
              ground (arith, h, s, o, k) in
            rw moved record {
              message = record e { status = pending; next_retry_at = pos now; updated_at = now };
              stored =
                  get_by_id-update_rows id (released now e) rows e
                    ((eq_iff e.id id).0 (get_by_id-id id rows e s)) s;
              owner = o;
              status = refl;
            }
      ]
    ]
  ]

  IsSettled-release_held :
      (rows : List Row)
      → IsSettled tenant_id id rows
      → (release_held has_worker read_fails write_fails now tenant_id id rows).rows ≡ rows
  unfolding release_held refuse accept
  IsSettled-release_held rows s = ground (arith, s.stored, s.owner, s.status)

  release_held-refused :
      (rows : List Row) (error : HeldError)
      → (release_held has_worker read_fails write_fails now tenant_id id rows).error ≡ some error
      → (release_held has_worker read_fails write_fails now tenant_id id rows).rows ≡ rows
  unfolding release_held refuse accept is_held released
  release_held-refused rows error h = ground arith

module _ (read_fails write_fails : Bool) (tenant_id id : String) where
  discard_held-refused :
      (rows : List Row) (error : HeldError)
      → (discard_held read_fails write_fails tenant_id id rows).error ≡ some error
      → (discard_held read_fails write_fails tenant_id id rows).rows ≡ rows
  unfolding discard_held refuse accept is_held
  discard_held-refused rows error h = ground arith

  -- Once discarded, the message is gone, or was the tenant's and no longer held.
  discard_held-gone :
      (rows : List Row)
      → (discard_held read_fails write_fails tenant_id id rows).error ≡ none
      → (get_by_id id (discard_held read_fails write_fails tenant_id id rows).rows ≡ none)
        ⊎ IsSettled tenant_id id (discard_held read_fails write_fails tenant_id id rows).rows
  unfolding discard_held refuse accept is_held
  discard_held-gone rows h = elim (Option-cases (get_by_id id rows)) [
    | inl n ↦ inl (ground (arith, h, n))
    | inr (e, s) ↦ elim (Bool-cases (is_held e.status)) [
      | inr k ↦
          let same : (discard_held read_fails write_fails tenant_id id rows).rows ≡ rows =
            ground (arith, h, s, k) in
          let o : (e.tenant_id == tenant_id) ≡ true = ground (arith, h, s, k) in
          inr (rw same record { message = e; stored = s; owner = o; status = k })
      | inl k ↦ inl (ground (arith, h, s, k, get_by_id-delete_rows id rows))
    ]
  ]

  gone-discard_held :
      (rows : List Row)
      → (get_by_id id rows ≡ none) ⊎ IsSettled tenant_id id rows
      → (discard_held read_fails write_fails tenant_id id rows).rows ≡ rows
  unfolding discard_held refuse accept
  gone-discard_held rows (inl n) = ground (arith, n)
  gone-discard_held rows (inr s) = ground (arith, s.stored, s.owner, s.status)

module _ (read_fails write_fails : Bool) (tenant_id id : String) (rows : List Row) where
  unfoldable pub Causes : HeldError → Type 0
  Causes read_failed = read_fails ≡ true
  Causes write_failed = write_fails ≡ true
  Causes no_longer_stored = get_by_id id rows ≡ none
  Causes of_another_tenant =
      (e : OutboxEmail) × (get_by_id id rows ≡ some e) × ((e.tenant_id == tenant_id) ≡ false)

module _ (has_worker read_fails write_fails : Bool) (tenant_id id : String) where
  -- Each error has its cause in what was stored, or in a statement that failed.
  run_review-Causes :
      (r : Review) (rows : List Row) (error : HeldError)
      → (run_review has_worker read_fails write_fails tenant_id id r rows).error ≡ some error
      → Causes read_fails write_fails tenant_id id rows error
  unfolding run_review Causes release_held discard_held refuse accept is_held
  run_review-Causes (release now) rows read_failed h = ground arith
  run_review-Causes (release now) rows write_failed h = ground arith
  run_review-Causes (release now) rows no_longer_stored h = ground arith
  run_review-Causes (release now) rows of_another_tenant h =
      elim (Option-cases (get_by_id id rows)) [
        | inl n ↦ absurd (ground (arith, h, n))
        | inr (e, s) ↦ (e, s, ground (arith, h, s))
      ]
  run_review-Causes discard rows read_failed h = ground arith
  run_review-Causes discard rows write_failed h = ground arith
  run_review-Causes discard rows no_longer_stored h = absurd (ground arith)
  run_review-Causes discard rows of_another_tenant h = elim (Option-cases (get_by_id id rows)) [
    | inl n ↦ absurd (ground (arith, h, n))
    | inr (e, s) ↦ (e, s, ground (arith, h, s))
  ]

  run_review-settles :
      (r : Review) (rows : List Row)
      → (run_review has_worker read_fails write_fails tenant_id id r rows).error ≡ none
      → (get_by_id id (run_review has_worker read_fails write_fails tenant_id id r rows).rows
          ≡ none)
        ⊎ IsSettled tenant_id id
            (run_review has_worker read_fails write_fails tenant_id id r rows).rows
  unfolding run_review
  run_review-settles (release now) rows h =
      inr (release_held-IsSettled has_worker read_fails write_fails now tenant_id id rows h)
  run_review-settles discard rows h = discard_held-gone read_fails write_fails tenant_id id rows h

  settled-run_review :
      (r : Review) (rows : List Row)
      → (get_by_id id rows ≡ none) ⊎ IsSettled tenant_id id rows
      → (run_review has_worker read_fails write_fails tenant_id id r rows).rows ≡ rows
  unfolding run_review release_held refuse
  settled-run_review (release now) rows (inl n) = ground (arith, n)
  settled-run_review (release now) rows (inr s) =
      IsSettled-release_held has_worker read_fails write_fails now tenant_id id rows s
  settled-run_review discard rows s = gone-discard_held read_fails write_fails tenant_id id rows s

  run_review-refused :
      (r : Review) (rows : List Row) (error : HeldError)
      → (run_review has_worker read_fails write_fails tenant_id id r rows).error ≡ some error
      → (run_review has_worker read_fails write_fails tenant_id id r rows).rows ≡ rows
  unfolding run_review
  run_review-refused (release now) rows error h =
      release_held-refused has_worker read_fails write_fails now tenant_id id rows error h
  run_review-refused discard rows error h =
      discard_held-refused read_fails write_fails tenant_id id rows error h

-- A review of a held message either reports an error or does not. If it does, it has changed
-- nothing, and the error has its cause: the reading or the writing failed, or the message is not in
-- the table, or it is another tenant's. If it does not, it leaves the message out of the
-- table or with its tenant and no longer held, and then no review of it by that tenant, a release
-- or a discard, failing or not, changes the table again.
pub run_review-once :
    (has_worker read_fails write_fails woken_later read_fails_later write_fails_later : Bool)
    (tenant_id id : String) (first later : Review) (rows : List Row)
    → ((error : HeldError) × Causes read_fails write_fails tenant_id id rows error
        × ((run_review has_worker read_fails write_fails tenant_id id first rows).error
            ≡ some error)
        × ((run_review has_worker read_fails write_fails tenant_id id first rows).rows ≡ rows))
      ⊎ (((run_review has_worker read_fails write_fails tenant_id id first rows).error ≡ none)
          × ((get_by_id id
                  (run_review has_worker read_fails write_fails tenant_id id first rows).rows
                ≡ none)
              ⊎ IsSettled tenant_id id
                  (run_review has_worker read_fails write_fails tenant_id id first rows).rows)
          × ((run_review woken_later read_fails_later write_fails_later tenant_id id later
                (run_review has_worker read_fails write_fails tenant_id id first rows).rows).rows
              ≡ (run_review has_worker read_fails write_fails tenant_id id first rows).rows))
run_review-once hw rf wf hw' rf' wf' tenant_id id first later rows =
    elim (Option-cases (run_review hw rf wf tenant_id id first rows).error) [
      | inl n ↦
          let s = run_review-settles hw rf wf tenant_id id first rows n in
          inr (n, s, settled-run_review hw' rf' wf' tenant_id id later _ s)
      | inr (e, h) ↦ inl (
        e,
        run_review-Causes hw rf wf tenant_id id first rows e h,
        h,
        run_review-refused hw rf wf tenant_id id first rows e h,
      )
    ]
