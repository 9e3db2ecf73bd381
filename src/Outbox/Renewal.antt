-- ===== src/Outbox/Renewal.antt =====
-- What the answer of a renewal says of the claim.
use panmail.Outbox.Others.{Step, IsOther, run_all, run_all-Holds, claimed_misses}
use panmail.Outbox.Lease.{rows_of, IsHeld, Holds}
use panmail.Outbox.{is_claim, has_token, Row, renew_rows, renew_claim, claim_pending}
use panmail.Base.{
  [], false, inl, inr, refl, some, true, ◌∷◌, String, Bool, filter, ◌≡◌, List, arith, ℕ, All,
  Option-cases, length, ◌≤◌, Bool-cases, ◌∙◌, any,
}
use text.Mathlib.Text.{◌==◌}
use text.Mathlib.TextEquality.{eq_iff}
use text.Mathlib.TextPositions.{eq_refl}
use panmail.Queue.{sending, OutboxStatus}

sending_only :
    (x : OutboxStatus) → (elim x as (λ y. Bool) [ sending ↦ true | _ ↦ false ]) ≡ true → x ≡ sending
sending_only x h = ground arith

module _ (id token : String) where
  is_claim-sending :
      (r : Row)
      → is_claim id token r ≡ true
      → (r.email.status ≡ sending) × (r.claim_token ≡ some token)
  unfolding is_claim has_token
  is_claim-sending r h = elim (Option-cases r.claim_token) [
    | inl e ↦ absurd (ground (arith, e))
    | inr (t, e) ↦ ground (arith, e, eq_iff t token)
  ]

  is_claim-id : (r : Row) → is_claim id token r ≡ true → (r.email.id == id) ≡ true
  unfolding is_claim
  is_claim-id r h = ground arith

  claims-le : (rows : List Row) → length (filter (is_claim id token) rows) ≤ rows_of id rows
  unfolding filter rows_of is_claim
  claims-le [] = omega arith
  claims-le (r ∷ rows) = ground (arith, claims-le rows)

  -- If every row of the message is claimed, the renewed rows are held.
  renewed_held :
      (until : ℕ) (rows : List Row)
      → length (filter (is_claim id token) rows) ≡ rows_of id rows
      → (rows_of id (renew_rows id token until rows) ≡ rows_of id rows)
        × All
            (λ r. (r.email.id == id) ≡ true → IsHeld token until r)
            (renew_rows id token until rows)
  unfolding filter rows_of renew_rows
  renewed_held until [] h = (refl, tt)
  renewed_held until (r ∷ rows) h = elim (Bool-cases (is_claim id token r)) [
    | inl c ↦
        let i = is_claim-id r c in
        let k = is_claim-sending r c in
        let (n, a) = renewed_held until rows (ground (arith, h, c, i)) in
        rw c (rw n refl, ((λ e. record { claimed = k.1; status = k.0; lease = refl }), a))
    | inr c ↦
        let i : (r.email.id == id) ≡ false = ground (arith, h, c, claims-le rows) in
        let (n, a) = renewed_held until rows (ground (arith, h, c, i)) in
        rw (c, i) (omega (arith, n), ((λ e. absurd (ground (arith, e, i))), a))
  ]

  held_claims :
      (until : ℕ) (rows : List Row)
      → All (λ r. (r.email.id == id) ≡ true → IsHeld token until r) rows
      → length (filter (is_claim id token) rows) ≡ rows_of id rows
  unfolding filter rows_of is_claim has_token
  held_claims until [] h = refl
  held_claims until (r ∷ rows) h = elim (Bool-cases (r.email.id == id)) [
    | inl i ↦
        let k = h.0 i in
        rw (i, k.claimed, k.status, eq_refl token) (omega (arith, held_claims until rows h.1))
    | inr i ↦ rw i (omega (arith, held_claims until rows h.1))
  ]

  -- A renewal that is answered true makes the claim hold, in a table with one row for the message.
  pub renew_claim-Holds :
      (until : ℕ) (rows : List Row)
      → rows_of id rows ≡ 1
      → (renew_claim id token until rows).1 ≡ true
      → Holds id token until (renew_claim id token until rows).0
  unfolding renew_claim
  renew_claim-Holds until rows one h =
      let (n, a) = renewed_held until rows (ground (arith, h, one)) in
      record { one = n ∙ one; held = a }

  -- A claim that holds can be renewed.
  pub renew_claim-true :
      (until after : ℕ) (rows : List Row)
      → Holds id token until rows
      → (renew_claim id token after rows).1 ≡ true
  unfolding renew_claim
  renew_claim-true until after rows h = ground (arith, held_claims until rows h.held, h.one)

-- The lease is exclusive. Once a worker's renewal is answered true, whatever others do until it
-- ends, no claim made by then under another token is handed the message, and a further renewal is
-- answered true. The table has one row for the message, and the others settle other messages.
pub renewed_lease_is_exclusive :
    (id token : String) (until : ℕ) (rows : List Row) (steps : List Step)
    → rows_of id rows ≡ 1
    → (renew_claim id token until rows).1 ≡ true
    → All (IsOther id token until) steps
    → let now_rows = run_all steps (renew_claim id token until rows).0 in
      ((after : ℕ) → (renew_claim id token after now_rows).1 ≡ true)
      × ((limit lease_for now : ℕ) (other : String)
          → (token == other) ≡ false
          → now ≤ until
          → any (λ e. e.id == id) (claim_pending limit lease_for now other now_rows).1 ≡ false)
renewed_lease_is_exclusive id token until rows steps one ok others =
    let start = renew_claim-Holds id token until rows one ok in
    let now_rows = run_all steps (renew_claim id token until rows).0 in
    let held =
      run_all-Holds id token until steps (renew_claim id token until rows).0 others start in
    (
      (λ after. renew_claim-true id token until after now_rows held),
      λ limit lease_for now other apart early.
          claimed_misses id token until limit lease_for now other now_rows apart early held,
    )
