-- ===== src/Webhook/Batch/Grouping.antt =====
-- How `bySubscription` splits a batch.
use text.Mathlib.TextPositions.{eq_refl}
use text.Mathlib.TextEquality.{eq_iff}
use mathlib.Core.List.{append-nil, append_assoc}
use panmail.Webhook.Batch.{append_at, group_from, by_subscription}
use panmail.Webhook.{Delivery}
use panmail.Base.Dict.{Dict, lookup, put, lookup-put}
use text.Mathlib.Text.{◌==◌}
use panmail.Base.{
  ◌==◌ as nat_eq, [], if◌then◌else◌, none, refl, some, suc, zero, ◌∷◌, List, String, ℕ, filter,
  get_elem?, length, ◌≡◌, ap, ◌++◌, ◌≢◌, arith, ◌<◌, inl, inr, false, subst, ◌+◌, ◌⊎◌, Bool-cases,
  sym, ◌∙◌, Option-cases, length-append, ltb,
}
use mathlib.Core.Option

-- The rows owed to a subscription.
abbrev pub owed : String → List Delivery → List Delivery
owed w rows = filter (λ d. d.webhook_id == w) rows

-- The index and the groups hold exactly the rows read so far: an indexed subscription has its rows,
-- in order, at its index, and no other subscription has that index; one that is not indexed has no
-- rows; and each group belongs to an indexed subscription.
pub record Grouped (done : List Delivery) (index : Dict ℕ) (groups : List (List Delivery))
    : Type 0 where
  pub indexed :
      (w : String) (i : ℕ)
      → lookup w index ≡ some i
      → (get_elem? groups i ≡ some (owed w done)) × (owed w done ≢ [])
  pub absent : (w : String) → lookup w index ≡ none → owed w done ≡ []
  pub distinct : (v w : String) (i : ℕ) → lookup v index ≡ some i → lookup w index ≡ some i → v ≡ w
  pub below : (w : String) (i : ℕ) → lookup w index ≡ some i → i < length groups
  pub covered : (i : ℕ) → i < length groups → (w : String) × (lookup w index ≡ some i)

get_elem?-append_at :
    (i : ℕ) (d : Delivery) (groups : List (List Delivery)) (j : ℕ)
    → get_elem? (append_at i d groups) j ≡ (
        if nat_eq i j
        then Option.map (λ g. g ++ d ∷ []) (get_elem? groups j)
        else get_elem? groups j)
get_elem?-append_at i d [] j = ground arith
get_elem?-append_at zero d (g ∷ groups) zero = refl
get_elem?-append_at zero d (g ∷ groups) (suc j) = ground arith
get_elem?-append_at (suc i) d (g ∷ groups) zero = ground arith
get_elem?-append_at (suc i) d (g ∷ groups) (suc j) =
    ground (arith, get_elem?-append_at i d groups j)

length-append_at :
    (i : ℕ) (d : Delivery) (groups : List (List Delivery))
    → length (append_at i d groups) ≡ length groups
length-append_at i d [] = refl
length-append_at zero d (g ∷ groups) = refl
length-append_at (suc i) d (g ∷ groups) = ap suc (length-append_at i d groups)

get_elem?-snoc :
    (g : List Delivery) (groups : List (List Delivery)) (j : ℕ)
    → get_elem? (groups ++ g ∷ []) j
      ≡ (if nat_eq (length groups) j then some g else get_elem? groups j)
get_elem?-snoc g [] zero = ground arith
get_elem?-snoc g [] (suc j) = ground arith
get_elem?-snoc g (x ∷ groups) zero = ground arith
get_elem?-snoc g (x ∷ groups) (suc j) = ground (arith, get_elem?-snoc g groups j)

owed-snoc :
    (w : String) (done : List Delivery) (d : Delivery)
    → owed w (done ++ d ∷ []) ≡ (if d.webhook_id == w then owed w done ++ d ∷ [] else owed w done)
unfolding filter
owed-snoc w [] d = ground arith
owed-snoc w (x ∷ done) d = ground (arith, owed-snoc w done d)

snoc_not_empty : (xs : List Delivery) (d : Delivery) → xs ++ d ∷ [] ≢ []
snoc_not_empty [] d e = ground arith
snoc_not_empty (x ∷ xs) d e = ground arith

known-indexed :
    (done : List Delivery) (index : Dict ℕ) (groups : List (List Delivery)) (d : Delivery) (i : ℕ)
    → Grouped done index groups
    → lookup d.webhook_id index ≡ some i
    → (w : String) (j : ℕ) → lookup w index ≡ some j
    → (get_elem? (append_at i d groups) j ≡ some (owed w (done ++ d ∷ [])))
      × (owed w (done ++ d ∷ []) ≢ [])
known-indexed done index groups d i h e w j q =
    let (old, filled) = h.indexed w j q in
    elim (Bool-cases (d.webhook_id == w)) [
      | inl x ↦ (
        ground (arith, get_elem?-append_at i d groups j, owed-snoc w done d, eq_iff d.webhook_id w),
        λ z. snoc_not_empty (owed w done) d (ground (arith, owed-snoc w done d)),
      )
      | inr x ↦ (
        ground (arith, get_elem?-append_at i d groups j, owed-snoc w done d, apart x),
        λ z. filled (ground (arith, owed-snoc w done d)),
      )
    ]
  where
    apart : (d.webhook_id == w) ≡ false → i ≢ j
    apart x s =
        let v = h.distinct d.webhook_id w j (ground arith) q in
        ground (arith, eq_iff d.webhook_id w)

known-Grouped :
    (done : List Delivery) (index : Dict ℕ) (groups : List (List Delivery)) (d : Delivery) (i : ℕ)
    → Grouped done index groups
    → lookup d.webhook_id index ≡ some i
    → Grouped (done ++ d ∷ []) index (append_at i d groups)
known-Grouped done index groups d i h e = record {
  indexed = λ w j q. known-indexed done index groups d i h e w j q;
  absent = λ w q. ground (arith, eq_iff d.webhook_id w, owed-snoc w done d, h.absent w q);
  distinct = h.distinct;
  below = λ w j q. ground (arith, length-append_at i d groups, h.below w j q);
  covered = λ j le. h.covered j (ground (arith, length-append_at i d groups));
}

-- Where the index of a new subscription points, for every subscription.
new_index :
    (done : List Delivery) (index : Dict ℕ) (groups : List (List Delivery)) (d : Delivery)
    → Grouped done index groups
    → (w : String) (j : ℕ) → lookup w (put d.webhook_id (length groups) index) ≡ some j
    → ((d.webhook_id ≡ w) × (j ≡ length groups))
      ⊎ (((d.webhook_id == w) ≡ false) × (lookup w index ≡ some j) × (j < length groups))
new_index done index groups d h w j q =
    let law = lookup-put d.webhook_id w (length groups) index in
    elim (Bool-cases (d.webhook_id == w)) [
      | inl x ↦ inl (ground (arith, eq_iff d.webhook_id w), ground (arith, law))
      | inr x ↦ inr (x, ground (arith, law), h.below w j (ground (arith, law)))
    ]

new-indexed :
    (done : List Delivery) (index : Dict ℕ) (groups : List (List Delivery)) (d : Delivery)
    → Grouped done index groups
    → lookup d.webhook_id index ≡ none
    → (w : String) (j : ℕ) → lookup w (put d.webhook_id (length groups) index) ≡ some j
    → (get_elem? (append_at (length groups) d (groups ++ [] ∷ [])) j
        ≡ some (owed w (done ++ d ∷ [])))
      × (owed w (done ++ d ∷ []) ≢ [])
new-indexed done index groups d h e w j q =
    let at = get_elem?-append_at (length groups) d (groups ++ [] ∷ []) j in
    let last = get_elem?-snoc [] groups j in
    let more = owed-snoc w done d in
    elim (new_index done index groups d h w j q) [
      | inl (x, y) ↦
          let none_owed = h.absent d.webhook_id e in
          (
            ground (arith, at, last, more, none_owed, eq_iff d.webhook_id w),
            λ z. snoc_not_empty (owed w done) d (ground (arith, more, eq_iff d.webhook_id w)),
          )
      | inr (x, y, z) ↦
          let (old, filled) = h.indexed w j y in
          (ground (arith, at, last, more, old), λ n. filled (ground (arith, more)))
    ]

new_covered :
    (done : List Delivery) (index : Dict ℕ) (groups : List (List Delivery)) (d : Delivery)
    → Grouped done index groups
    → lookup d.webhook_id index ≡ none
    → (j : ℕ) → j < length groups + 1
    → (w : String) × (lookup w (put d.webhook_id (length groups) index) ≡ some j)
new_covered done index groups d h e j le = elim (Bool-cases (ltb j (length groups))) [
  | inl x ↦
      let (w, q) = h.covered j (ground arith) in
      (w, ground (arith, lookup-put d.webhook_id w (length groups) index, eq_iff d.webhook_id w))
  | inr x ↦ (
    d.webhook_id,
    ground
        (arith, lookup-put d.webhook_id d.webhook_id (length groups) index, eq_refl d.webhook_id),
  )
]

new-Grouped :
    (done : List Delivery) (index : Dict ℕ) (groups : List (List Delivery)) (d : Delivery)
    → Grouped done index groups
    → lookup d.webhook_id index ≡ none
    → Grouped
        (done ++ d ∷ [])
        (put d.webhook_id (length groups) index)
        (append_at (length groups) d (groups ++ [] ∷ []))
new-Grouped done index groups d h e = record {
  indexed = new-indexed done index groups d h e;
  absent = λ w q.
      ground
        (arith, owed-snoc w done d, lookup-put d.webhook_id w (length groups) index, h.absent w);
  distinct = λ v w j q r. ground (
    arith,
    new_index done index groups d h v j q,
    new_index done index groups d h w j r,
    h.distinct v w j,
  );
  below = λ w j q. ground (arith, new_index done index groups d h w j q, grown);
  covered = λ j le. new_covered done index groups d h e j (omega (arith, le, grown));
}
  where
    grown : length (append_at (length groups) d (groups ++ [] ∷ [])) ≡ length groups + 1
    grown = length-append_at (length groups) d (groups ++ [] ∷ []) ∙ length-append groups ([] ∷ [])

group_from-Grouped :
    (due done : List Delivery) (index : Dict ℕ) (groups : List (List Delivery))
    → Grouped done index groups
    → Grouped (done ++ due) (group_from index groups due).0 (group_from index groups due).1
unfolding group_from
group_from-Grouped [] done index groups h =
    subst (λ t. Grouped t index groups) (sym (append-nil done)) h
group_from-Grouped (d ∷ due) done index groups h = elim (Option-cases (lookup d.webhook_id index)) [
  | inl e ↦
      let i = length groups in
      subst
        (λ t. Grouped t (group_from index groups (d ∷ due)).0 (group_from index groups (d ∷ due)).1)
        (append_assoc done (d ∷ []) due)
        (rw (e, group_from)
          (group_from-Grouped due (done ++ d ∷ []) (put d.webhook_id i index)
            (append_at i d (groups ++ [] ∷ [])) (new-Grouped done index groups d h e)))
  | inr (i, e) ↦
      subst
        (λ t. Grouped t (group_from index groups (d ∷ due)).0 (group_from index groups (d ∷ due)).1)
        (append_assoc done (d ∷ []) due)
        (rw (e, group_from)
          (group_from-Grouped due (done ++ d ∷ []) index (append_at i d groups)
            (known-Grouped done index groups d i h e)))
]

none_there : (w : String) (i : ℕ) → lookup {V = ℕ} w [] ≢ some i
unfolding lookup
none_there w i q = ground arith

-- A batch is split so that each subscription with rows in it has exactly one group, which holds
-- exactly its rows in claim order, and there is no other group.
pub by_subscription-Grouped :
    (due : List Delivery) → Grouped due (group_from [] [] due).0 (by_subscription due)
unfolding by_subscription filter
by_subscription-Grouped due = group_from-Grouped due [] [] [] empty
  where
    empty : Grouped [] [] []
    empty = record {
      indexed = λ w i q. absurd (none_there w i q);
      absent = λ w q. refl;
      distinct = λ v w i q r. absurd (none_there v i q);
      below = λ w i q. absurd (none_there w i q);
      covered = λ i le. absurd (omega arith);
    }
