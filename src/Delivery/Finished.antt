-- ===== src/Delivery/Finished.antt =====
-- How often a history finishes with a recipient, and how many of the recipients it leaves.
use panmail.Delivery.{finished_in, Event, delivered_in, is_delivered, settled_in, settles}
use panmail.Bounce.{EventType}
use panmail.Base.{
  [], false, if◌then◌else◌, inl, inr, refl, true, ◌∷◌, List, Bool, ℕ, ◌&&◌, ◌++◌, ◌+◌, ◌||◌, ◌≡◌,
  ◌≤◌, arith, ltb, ◌<◌, Bool-cases, filter, not, suc, take, zero,
}
use panmail.Base.Text.{◌==◌, Text, holds, eq_of_==}

unfoldable pub finishes : EventType → Bool
finishes t = is_delivered t || settles t

-- The events that finish with a recipient: deliveries and final verdicts.
unfoldable pub finishings : Text → List Event → ℕ
finishings r [] = 0
finishings r (e ∷ es) =
    (if finishes e.event_type && e.recipient == r then 1 else 0) + finishings r es

pub finishings-append :
    (r : Text) (xs ys : List Event) → finishings r (xs ++ ys) ≡ finishings r xs + finishings r ys
unfolding finishings
finishings-append r [] ys = omega arith
finishings-append r (x ∷ xs) ys = omega (arith, finishings-append r xs ys)

pub finished_in-finishings :
    (r : Text) (es : List Event) → finished_in es r ≡ ltb 0 (finishings r es)
unfolding finished_in delivered_in settled_in finishings finishes
finished_in-finishings r [] = refl
finished_in-finishings r (e ∷ es) = ground (arith, finished_in-finishings r es)

pub finished_in-append :
    (r : Text) (xs ys : List Event)
    → finished_in (xs ++ ys) r ≡ (finished_in xs r || finished_in ys r)
finished_in-append r xs ys = ground (
  arith,
  finished_in-finishings r (xs ++ ys),
  finished_in-finishings r xs,
  finished_in-finishings r ys,
  finishings-append r xs ys,
)

module _ (r : Text) (p : Event → Bool) where
  pub finishings-filter :
      (es : List Event)
      → finishings r (filter p es) + finishings r (filter (λ e. not (p e)) es) ≡ finishings r es
  unfolding finishings filter
  finishings-filter [] = omega arith
  finishings-filter (e ∷ es) = ground (arith, finishings-filter es)

  pub finishings-filter-append :
      (xs ys : List Event)
      → finishings r (filter p (xs ++ ys)) ≡ finishings r (filter p xs) + finishings r (filter p ys)
  unfolding finishings filter
  finishings-filter-append [] ys = omega arith
  finishings-filter-append (x ∷ xs) ys = ground (arith, finishings-filter-append xs ys)

  pub finishings-filter-take :
      (n : ℕ) (es : List Event) → finishings r (filter p (take n es)) ≤ finishings r (filter p es)
  unfolding finishings filter
  finishings-filter-take zero es = omega arith
  finishings-filter-take (suc n) [] = omega arith
  finishings-filter-take (suc n) (e ∷ es) = ground (arith, finishings-filter-take n es)

-- How many of the events finish with somebody.
unfoldable pub all_finishings : List Event → ℕ
all_finishings [] = 0
all_finishings (e ∷ es) = (if finishes e.event_type then 1 else 0) + all_finishings es

pub finishings-le : (r : Text) (es : List Event) → finishings r es ≤ all_finishings es
unfolding finishings all_finishings
finishings-le r [] = omega arith
finishings-le r (e ∷ es) = ground (arith, finishings-le r es)

pub all_finishings-append :
    (xs ys : List Event) → all_finishings (xs ++ ys) ≡ all_finishings xs + all_finishings ys
unfolding all_finishings
all_finishings-append [] ys = omega arith
all_finishings-append (x ∷ xs) ys = omega (arith, all_finishings-append xs ys)

-- How many of the recipients a history has not finished with.
unfoldable pub remaining : List Event → List Text → ℕ
remaining history [] = 0
remaining history (r ∷ rs) = (if finished_in history r then 0 else 1) + remaining history rs

pub remaining-append-le :
    (xs ys : List Event) (rs : List Text) → remaining (xs ++ ys) rs ≤ remaining xs rs
unfolding remaining
remaining-append-le xs ys [] = omega arith
remaining-append-le xs ys (r ∷ rs) =
    ground (arith, finished_in-append r xs ys, remaining-append-le xs ys rs)

pub remaining-append-lt :
    (xs ys : List Event) (r : Text) (rs : List Text)
    → holds rs r ≡ true
    → finished_in xs r ≡ false
    → 0 < finishings r ys
    → remaining (xs ++ ys) rs < remaining xs rs
unfolding remaining
remaining-append-lt xs ys r [] h u f = ground arith
remaining-append-lt xs ys r (x ∷ rs) h u f = elim (Bool-cases (x == r)) [
  | inl e ↦
      let same = eq_of_== x r e in
      ground (
        arith,
        same,
        finished_in-append x xs ys,
        finished_in-append r xs ys,
        finished_in-finishings r ys,
        remaining-append-le xs ys rs,
      )
  | inr e ↦
      ground (arith, finished_in-append x xs ys, remaining-append-lt xs ys r rs (ground arith) u f)
]
