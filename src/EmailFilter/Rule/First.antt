-- ===== src/EmailFilter/Rule/First.antt =====
-- Which rule decides.
use panmail.Base.{
  [], false, inl, inr, none, refl, some, suc, true, zero, ◌∷◌, Bool, ℕ, ◌≡◌, List, arith, ◌+◌, ◌⊎◌,
  Bool-cases, get_elem?, ◌<◌, ◌≤◌, Option-cases, ap, subst, ◌∙◌, All, Option, all, any,
  if◌then◌else◌, not, ◌&&◌, sym, false, ◌↔◌,
}
use mathlib.Core.Bool.{true≢false}
use panmail.EmailFilter.{Message, Direction, inbound, other_direction, outbound}
use panmail.EmailFilter.Condition.{matches}
use panmail.EmailFilter.Rule.{
  Action, Rule, allow, applicable, applies, decide, evaluate, hold, is_allow, other_action, reject,
  same_direction, sort_rules, tag,
}
use panmail.EmailFilter.Rule.Sorted.{
  fires, best, chosen_decision, first-sort_rules, first_decision-first,
}
use panmail.Base.Text.{Text, ==_iff}
use panmail.Base.Int.{ℤ, ltb_ℤ, ◌≤ℤ◌, ◌+ℤ◌, pos, int_laws, pos_part, neg_part, eq_of_parts}

less : (a b : ℤ) → ltb_ℤ a b ≡ true → pos_part a + neg_part b < pos_part b + neg_part a
less a b h = ground arith

not_less : (a b : ℤ) → ltb_ℤ a b ≡ false → b ≤ℤ a
not_less a b h = ground arith

reach : (b x s : ℤ) (i j : ℕ) → ltb_ℤ b x ≡ false → (pos 1 +ℤ b ≤ℤ s) ⊎ ((b ≡ s) × (i ≤ j)) → x ≤ℤ s
reach b x s i j l (inl h) = omega (int_laws, not_less b x l)
reach b x s i j l (inr (e, h)) = omega (int_laws, not_less b x l, ap pos_part e, ap neg_part e)

-- The action that a deciding rule takes.
abbrev pub taken : Action → Option Action
taken hold = some hold
taken reject = some reject
taken tag = some tag
taken allow = none
taken (other_action name) = some (other_action name)

taken-is_allow : (a : Action) → (if is_allow a then none else some a) ≡ taken a
taken-is_allow hold = refl
taken-is_allow reject = refl
taken-is_allow tag = refl
taken-is_allow allow = refl
taken-is_allow (other_action name) = refl

same_direction_iff : (a b : Direction) → (same_direction a b ≡ true) ↔ (a ≡ b)
same_direction_iff outbound outbound = ((λ h. refl), λ h. refl)
same_direction_iff outbound inbound = ((λ h. ground arith), λ h. ground arith)
same_direction_iff outbound (other_direction t) = ((λ h. ground arith), λ h. ground arith)
same_direction_iff inbound outbound = ((λ h. ground arith), λ h. ground arith)
same_direction_iff inbound inbound = ((λ h. refl), λ h. refl)
same_direction_iff inbound (other_direction t) = ((λ h. ground arith), λ h. ground arith)
same_direction_iff (other_direction s) outbound = ((λ h. ground arith), λ h. ground arith)
same_direction_iff (other_direction s) inbound = ((λ h. ground arith), λ h. ground arith)
same_direction_iff (other_direction s) (other_direction t) =
    ((λ h. ap other_direction ((==_iff s t).0 h)), λ h. (==_iff s t).1 (ground arith))

module _ {A : Type 0} (p : A → Bool) where
  all_iff : (xs : List A) → (all p xs ≡ true) ↔ All (λ x. p x ≡ true) xs
  all_iff [] = ((λ h. tt), λ h. refl)
  all_iff (x ∷ xs) =
      let (to, from) = all_iff xs in ((λ h. ground (arith, to)), λ h. ground (arith, from))

  any_iff : (xs : List A) → (any p xs ≡ false) ↔ All (λ x. p x ≡ false) xs
  any_iff [] = ((λ h. tt), λ h. refl)
  any_iff (x ∷ xs) =
      let (to, from) = any_iff xs in ((λ h. ground (arith, to)), λ h. ground (arith, from))

module _ {Pattern : Type 0} (search : Pattern → Text → Bool) (direction : Direction)
    (m : Message) where
  -- A rule of the direction that is enabled, all of whose conditions match and none of whose
  -- exceptions does.
  abbrev pub Suits : Rule Pattern → Type 0
  Suits r =
      (r.direction ≡ direction)
      × (r.enabled ≡ true)
      × All (λ c. matches search c m ≡ true) r.conditions
      × All (λ c. matches search c m ≡ false) r.exceptions

  unfoldable suits : Rule Pattern → Bool
  suits r = applies search direction r && fires search m r

  suits-Suits : (r : Rule Pattern) → (suits r ≡ true) ↔ Suits r
  unfolding suits fires
  suits-Suits r =
      let (c, c') = all_iff (λ c. matches search c m) r.conditions in
      let (x, x') = any_iff (λ c. matches search c m) r.exceptions in
      let (s, s') = same_direction_iff r.direction direction in
      (
        (λ h. (s (ground arith), ground arith, c (ground arith), x (ground arith))),
        λ (a, b, cs, xs).
            let i = s' a in let j = c' cs in let k = x' xs in ground (arith, i, b, j, k),
      )

  unfoldable best_in : List (Rule Pattern) → Option (Rule Pattern)
  best_in [] = none
  best_in (r ∷ rest) =
      let more = best_in rest in
      if not (suits r) then more else elim more [
        | none ↦ some r
        | some b ↦ if ltb_ℤ b.priority r.priority then some b else some r
      ]

  best-applicable :
      (xs : List (Rule Pattern)) → best search m (applicable search direction xs) ≡ best_in xs
  unfolding best best_in applicable suits
  best-applicable [] = refl
  best-applicable (x ∷ xs) = elim (Bool-cases (applies search direction x)) [
    | inr e ↦ rw (e, applicable) (best-applicable xs)
    | inl e ↦ rw (e, applicable, best, best-applicable xs) refl
  ]

  -- The rule at an index that suits, before which no rule of the same priority does, and no rule of
  -- a lower one anywhere.
  record IsChosen (xs : List (Rule Pattern)) (r : Rule Pattern) : Type 0 where
    at : ℕ
    stands : get_elem? xs at ≡ some r
    does_suit : suits r ≡ true
    first_best :
        (j : ℕ) (s : Rule Pattern)
        → get_elem? xs j ≡ some s
        → suits s ≡ true
        → (pos 1 +ℤ r.priority ≤ℤ s.priority) ⊎ ((r.priority ≡ s.priority) × (at ≤ j))

  IsChosen-tail :
      (x : Rule Pattern) (xs : List (Rule Pattern)) (r : Rule Pattern)
      → IsChosen xs r
      → (suits x ≡ true → pos 1 +ℤ r.priority ≤ℤ x.priority)
      → IsChosen (x ∷ xs) r
  IsChosen-tail x xs r h low = record {
    at = suc h.at;
    stands = h.stands;
    does_suit = h.does_suit;
    first_best = later;
  }
    where
      later :
          (j : ℕ) (s : Rule Pattern)
          → get_elem? (x ∷ xs) j ≡ some s
          → suits s ≡ true
          → (pos 1 +ℤ r.priority ≤ℤ s.priority) ⊎ ((r.priority ≡ s.priority) × (suc h.at ≤ j))
      later zero s q f =
          let same : x ≡ s = ground arith in
          inl (subst (λ (t : Rule Pattern). pos 1 +ℤ r.priority ≤ℤ t.priority) same (low (cc)))
      later (suc j) s q f = elim (h.first_best j s q f) [
        | inl le ↦ inl le
        | inr (e, le) ↦ inr (e, omega (arith, le))
      ]

  IsChosen-head :
      (x : Rule Pattern) (xs : List (Rule Pattern))
      → suits x ≡ true
      → ((j : ℕ) (s : Rule Pattern)
          → get_elem? xs j ≡ some s
          → suits s ≡ true
          → x.priority ≤ℤ s.priority)
      → IsChosen (x ∷ xs) x
  IsChosen-head x xs f low = record { at = 0; stands = refl; does_suit = f; first_best = later }
    where
      apart : (a b : ℤ) (j : ℕ) → a ≤ℤ b → (pos 1 +ℤ a ≤ℤ b) ⊎ ((a ≡ b) × (0 ≤ j))
      apart a b j le = elim (Bool-cases (ltb_ℤ a b)) [
        | inl e ↦ inl (omega (int_laws, less a b e))
        | inr e ↦ inr (eq_of_parts a b (ground arith), omega arith)
      ]

      later :
          (j : ℕ) (s : Rule Pattern)
          → get_elem? (x ∷ xs) j ≡ some s
          → suits s ≡ true
          → (pos 1 +ℤ x.priority ≤ℤ s.priority) ⊎ ((x.priority ≡ s.priority) × (0 ≤ j))
      later zero s q g =
          let same : x ≡ s = ground arith in
          inr (ap (λ (t : Rule Pattern). t.priority) same, omega arith)
      later (suc j) s q g = apart x.priority s.priority (suc j) (low j s q g)

  best_in-none :
      (xs : List (Rule Pattern)) (j : ℕ) (s : Rule Pattern)
      → best_in xs ≡ none
      → get_elem? xs j ≡ some s
      → suits s ≡ false
  unfolding best_in
  best_in-none [] j s e q = absurd (ground arith)
  best_in-none (x ∷ xs) zero s e q =
      let same : x ≡ s = ground arith in
      let quiet : suits x ≡ false = ground arith in
      subst (λ (t : Rule Pattern). suits t ≡ false) same quiet
  best_in-none (x ∷ xs) (suc j) s e q = best_in-none xs j s (ground arith) q

  best_in-IsChosen :
      (xs : List (Rule Pattern)) (r : Rule Pattern) → best_in xs ≡ some r → IsChosen xs r
  unfolding best_in
  best_in-IsChosen [] r e = absurd (ground arith)
  best_in-IsChosen (x ∷ xs) r e = elim (Bool-cases (suits x)) [
    | inl f ↦ elim (Option-cases (best_in xs)) [
      | inl n ↦
          subst (λ (t : Rule Pattern). IsChosen (x ∷ xs) t) (ground arith)
            (IsChosen-head x xs f (λ j s q g. absurd (ground (arith, best_in-none xs j s n q))))
      | inr (b, n) ↦
          let h = best_in-IsChosen xs b n in
          elim (Bool-cases (ltb_ℤ b.priority x.priority)) [
            | inl l ↦
                subst (λ (t : Rule Pattern). IsChosen (x ∷ xs) t) (ground arith)
                  (IsChosen-tail x xs b h (λ _. omega (int_laws, less b.priority x.priority l)))
            | inr l ↦
                subst (λ (t : Rule Pattern). IsChosen (x ∷ xs) t) (ground arith)
                  (IsChosen-head x xs f (λ j s q g.
                    reach b.priority x.priority s.priority h.at j l (h.first_best j s q g)))
          ]
    ]
    | inr f ↦
        IsChosen-tail x xs r (best_in-IsChosen xs r (ground arith)) (λ g. absurd (ground arith))
  ]

  -- The rule that decides: one that suits, before which no rule of the same priority does, and no
  -- rule of a lower priority anywhere.
  pub record IsDecisive (rules : List (Rule Pattern)) (r : Rule Pattern) : Type 0 where
    pub at : ℕ
    pub stands : get_elem? rules at ≡ some r
    pub does_suit : Suits r
    pub first_best :
        (j : ℕ) (s : Rule Pattern)
        → get_elem? rules j ≡ some s
        → Suits s
        → (pos 1 +ℤ r.priority ≤ℤ s.priority) ⊎ ((r.priority ≡ s.priority) × (at ≤ j))

  IsDecisive-IsChosen :
      (rules : List (Rule Pattern)) (r : Rule Pattern) → IsChosen rules r → IsDecisive rules r
  IsDecisive-IsChosen rules r h = record {
    at = h.at;
    stands = h.stands;
    does_suit = (suits-Suits r).0 h.does_suit;
    first_best = λ j s q f. h.first_best j s q ((suits-Suits s).1 f);
  }

  decided :
      (r : Rule Pattern)
      → decide search r r.conditions
        ≡ record { action = taken r.action; rule = some r; matched = r.conditions }
  unfolding decide
  decided r =
      ap (λ a. record { action = a; rule = some r; matched = r.conditions })
        (taken-is_allow r.action)

  evaluate-best :
      (rules : List (Rule Pattern)) {o : Option (Rule Pattern)}
      → best_in rules ≡ o
      → evaluate search rules direction m ≡ chosen_decision search m o
  unfolding evaluate
  evaluate-best rules e =
      let xs = applicable search direction rules in
      first_decision-first search m (sort_rules search xs)
      ∙ ap (chosen_decision search m) (first-sort_rules search m xs ∙ best-applicable rules ∙ e)

  -- A message is decided by the suiting rule of the lowest priority, and by the first in the
  -- store's order among those of equal priority: with its action, or with none if it allows, and
  -- with all of its conditions as matched. A rule suits that is of the message's direction and
  -- enabled, all of whose conditions match and none of whose exceptions does. A message that no
  -- rule suits is left alone.
  pub evaluate-IsDecisive :
      (rules : List (Rule Pattern))
      → ((r : Rule Pattern) × IsDecisive rules r
          × (evaluate search rules direction m
              ≡ record { action = taken r.action; rule = some r; matched = r.conditions }))
        ⊎ (((j : ℕ) (s : Rule Pattern) → get_elem? rules j ≡ some s → ¬ (Suits s))
            × (evaluate search rules direction m
                ≡ record { action = none; rule = none; matched = [] }))
  evaluate-IsDecisive rules = elim (Option-cases (best_in rules)) [
    | inl e ↦ inr (
      (λ j s q f. true≢false (sym ((suits-Suits s).1 f) ∙ best_in-none rules j s e q)),
      evaluate-best rules e,
    )
    | inr (r, e) ↦ inl (
      r,
      IsDecisive-IsChosen rules r (best_in-IsChosen rules r e),
      evaluate-best rules e ∙ decided r,
    )
  ]
