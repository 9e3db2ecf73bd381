-- ===== src/Outbox/Lease.antt =====
-- While a worker's lease runs, its claim is no one else's.
use panmail.Outbox.{Row, has_token, is_due, is_one_of, insert, is_open, oldest_first, has_lapsed}
use text.Mathlib.Text.{◌==◌}
use panmail.Base.{
  [], if◌then◌else◌, refl, some, true, ◌∷◌, String, filter, List, ℕ, Bool, ◌+◌, ◌≡◌, All, map,
  subst, false, inl, inr, suc, zero, Bool-cases, arith, take, ◌≤◌,
}
use panmail.Queue.{sending}

unfoldable pub rows_of : String → List Row → ℕ
rows_of id [] = 0
rows_of id (r ∷ rows) = (if r.email.id == id then 1 else 0) + rows_of id rows

pub record IsHeld (token : String) (until : ℕ) (r : Row) : Type 0 where
  pub claimed : r.claim_token ≡ some token
  pub status : r.email.status ≡ sending
  pub lease : r.claimed_until ≡ some until

-- The message's one row is claimed under the token, until then.
pub record Holds (id token : String) (until : ℕ) (rows : List Row) : Type 0 where
  pub one : rows_of id rows ≡ 1
  pub held : All (λ r. (r.email.id == id) ≡ true → IsHeld token until r) rows

-- A statement that changes rows in place, or keeps some of them.
pub map-Holds :
    (id token : String) (until after : ℕ) (g : Row → Row) (rows : List Row)
    → ((r : Row) → (g r).email.id ≡ r.email.id)
    → ((r : Row) → (r.email.id == id) ≡ true → IsHeld token until r → IsHeld token after (g r))
    → (rows_of id (map g rows) ≡ rows_of id rows)
      × (All (λ r. (r.email.id == id) ≡ true → IsHeld token until r) rows
          → All (λ r. (r.email.id == id) ≡ true → IsHeld token after r) (map g rows))
unfolding rows_of
map-Holds id token until after g [] same keeps = (refl, λ h. h)
map-Holds id token until after g (r ∷ rows) same keeps =
    let (n, a) = map-Holds id token until after g rows same keeps in
    (
      rw (same r, n) refl,
      λ h. (λ e. let e' = subst (λ x. (x == id) ≡ true) (same r) e in keeps r e' (h.0 e'), a h.1),
    )

pub filter-Holds :
    (id token : String) (until : ℕ) (p : Row → Bool) (rows : List Row)
    → ((r : Row) → (r.email.id == id) ≡ true → IsHeld token until r → p r ≡ true)
    → All (λ r. (r.email.id == id) ≡ true → IsHeld token until r) rows
    → (rows_of id (filter p rows) ≡ rows_of id rows)
      × All (λ r. (r.email.id == id) ≡ true → IsHeld token until r) (filter p rows)
unfolding rows_of filter
filter-Holds id token until p [] keeps h = (refl, tt)
filter-Holds id token until p (r ∷ rows) keeps h =
    let (n, a) = filter-Holds id token until p rows keeps h.1 in
    elim (Bool-cases (p r)) [
      | inl e ↦ rw e (rw n refl, (h.0, a))
      | inr e ↦ elim (Bool-cases (r.email.id == id)) [
        | inl i ↦ absurd (ground (arith, keeps r i (h.0 i)))
        | inr i ↦ rw (e, i) (omega (arith, n), a)
      ]
    ]

-- A held row is not due, and so is not among those that a claim takes.
is_one_of-insert :
    (id : String) (r : Row) (rows : List Row)
    → is_one_of (insert r rows) id ≡ is_one_of (r ∷ rows) id
unfolding is_one_of insert
is_one_of-insert id r [] = refl
is_one_of-insert id r (s ∷ rows) = ground (arith, is_one_of-insert id r rows)

pub is_one_of-oldest_first :
    (id : String) (rows : List Row) → is_one_of (oldest_first rows) id ≡ is_one_of rows id
unfolding is_one_of oldest_first
is_one_of-oldest_first id [] = refl
is_one_of-oldest_first id (r ∷ rows) =
    ground (arith, is_one_of-oldest_first id rows, is_one_of-insert id r (oldest_first rows))

pub is_one_of-take :
    (id : String) (n : ℕ) (rows : List Row)
    → is_one_of rows id ≡ false
    → is_one_of (take n rows) id ≡ false
unfolding is_one_of
is_one_of-take id zero rows h = refl
is_one_of-take id (suc n) [] h = refl
is_one_of-take id (suc n) (r ∷ rows) h = ground (arith, is_one_of-take id n rows)

-- No row of the message passes a test that a held row fails.
pub none_passes :
    (id token : String) (until : ℕ) (p : Row → Bool) (rows : List Row)
    → ((r : Row) → IsHeld token until r → p r ≡ false)
    → All (λ r. (r.email.id == id) ≡ true → IsHeld token until r) rows
    → is_one_of (filter p rows) id ≡ false
unfolding is_one_of filter
none_passes id token until p [] fails h = refl
none_passes id token until p (r ∷ rows) fails h = elim (Bool-cases (r.email.id == id)) [
  | inl i ↦ ground (arith, fails r (h.0 i), none_passes id token until p rows fails h.1)
  | inr i ↦ ground (arith, none_passes id token until p rows fails h.1)
]

is_open-held :
    (token : String) (until now : ℕ) (r : Row)
    → now ≤ until
    → IsHeld token until r
    → is_open now r ≡ false
unfolding is_open has_lapsed
is_open-held token until now r early h = rw (is_open, h.status, h.lease) (ground arith)

pub is_due-held :
    (token : String) (until now : ℕ) (r : Row)
    → now ≤ until
    → IsHeld token until r
    → is_due now r ≡ false
unfolding is_due
is_due-held token until now r early h = ground (arith, is_open-held token until now r early h)

pub has_token-held :
    (token other : String) (until : ℕ) (r : Row)
    → (token == other) ≡ false
    → IsHeld token until r
    → has_token other r ≡ false
unfolding has_token
has_token-held token other until r apart h = rw (has_token, h.claimed) apart
