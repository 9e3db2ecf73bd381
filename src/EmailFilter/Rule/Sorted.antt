-- ===== src/EmailFilter/Rule/Sorted.antt =====
-- Rules that fire, and the first of them by priority.
use mathlib.Core.List.{append-nil, append_assoc}
use panmail.Base.{
  [], if◌then◌else◌, inl, inr, none, refl, some, ◌∷◌, Bool, List, Option, ◌&&◌, ◌≡◌, All,
  Bool-cases, all, arith, not, any, ◌++◌, ap, sym, Option-cases, subst, ◌∙◌,
}
use panmail.EmailFilter.{Message}
use panmail.EmailFilter.Condition.{Condition, matches}
use panmail.EmailFilter.Rule.{
  Rule, rule_matches, matched_from, insert_rule, sort_rules, first_decision, decide, Decision,
}
use panmail.Base.Text.{Text}
use panmail.Base.Int.{ℤ, ltb_ℤ, leb_ℤ, ◌≤ℤ◌}

module _ {Pattern : Type 0} (search : Pattern → Text → Bool) (m : Message) where
  -- The rule is enabled, all of its conditions match and none of its exceptions does.
  unfoldable pub fires : Rule Pattern → Bool
  fires r =
      r.enabled
      && all (λ c. matches search c m) r.conditions
      && not (any (λ c. matches search c m) r.exceptions)

  matched_from-all :
      (acc cs : List (Condition Pattern))
      → matched_from search m acc cs
        ≡ (if all (λ c. matches search c m) cs then some (acc ++ cs) else none)
  unfolding matched_from
  matched_from-all acc [] = ap some (sym (append-nil acc))
  matched_from-all acc (c ∷ cs) = elim (Bool-cases (matches search c m)) [
    | inl e ↦ rw (e, matched_from-all (acc ++ c ∷ []) cs, append_assoc acc (c ∷ []) cs) refl
    | inr e ↦ rw e refl
  ]

  -- A rule matches exactly if it fires, and then with all of its conditions.
  pub rule_matches-fires :
      (r : Rule Pattern) → rule_matches search r m ≡ (if fires r then some r.conditions else none)
  unfolding rule_matches fires
  rule_matches-fires r = ground (arith, matched_from-all [] r.conditions)

  -- The first of the firing rules by priority; of equal ones, the one that stands first.
  unfoldable pub best : List (Rule Pattern) → Option (Rule Pattern)
  best [] = none
  best (r ∷ rest) =
      let more = best rest in
      if not (fires r) then more else elim more [
        | none ↦ some r
        | some b ↦ if ltb_ℤ b.priority r.priority then some b else some r
      ]

  -- The first rule of a list that fires.
  unfoldable pub first : List (Rule Pattern) → Option (Rule Pattern)
  first [] = none
  first (r ∷ rest) = let more = first rest in if fires r then some r else more

  abbrev IsSorted : List (Rule Pattern) → Type 0
  IsSorted [] = Unit
  IsSorted (r ∷ rest) = All (λ s. r.priority ≤ℤ s.priority) rest × IsSorted rest

  All-weaken :
      (a b : ℤ) (xs : List (Rule Pattern))
      → a ≤ℤ b
      → All (λ s. b ≤ℤ s.priority) xs
      → All (λ s. a ≤ℤ s.priority) xs
  All-weaken a b [] h hs = tt
  All-weaken a b (x ∷ xs) h hs = (omega (arith, h, hs.0), All-weaken a b xs h hs.1)

  All-insert_rule :
      (a : ℤ) (r : Rule Pattern) (xs : List (Rule Pattern))
      → a ≤ℤ r.priority
      → All (λ s. a ≤ℤ s.priority) xs
      → All (λ s. a ≤ℤ s.priority) (insert_rule search r xs)
  unfolding insert_rule
  All-insert_rule a r [] h hs = (h, tt)
  All-insert_rule a r (x ∷ xs) h hs = elim (Bool-cases (leb_ℤ r.priority x.priority)) [
    | inl e ↦ rw e (h, hs)
    | inr e ↦ rw e (hs.0, All-insert_rule a r xs h hs.1)
  ]

  insert_rule-IsSorted :
      (r : Rule Pattern) (xs : List (Rule Pattern))
      → IsSorted xs
      → IsSorted (insert_rule search r xs)
  unfolding insert_rule
  insert_rule-IsSorted r [] h = (tt, tt)
  insert_rule-IsSorted r (x ∷ xs) h = elim (Bool-cases (leb_ℤ r.priority x.priority)) [
    | inl e ↦ rw e ((ground arith, All-weaken r.priority x.priority xs (ground arith) h.0), h)
    | inr e ↦
        rw e (All-insert_rule x.priority r xs (ground arith) h.0, insert_rule-IsSorted r xs h.1)
  ]

  sort_rules-IsSorted : (xs : List (Rule Pattern)) → IsSorted (sort_rules search xs)
  unfolding sort_rules
  sort_rules-IsSorted [] = tt
  sort_rules-IsSorted (x ∷ xs) =
      insert_rule-IsSorted x (sort_rules search xs) (sort_rules-IsSorted xs)

  -- The choice between a rule that fires and the best of those after it.
  abbrev pub better : Rule Pattern → Option (Rule Pattern) → Option (Rule Pattern)
  better r none = some r
  better r (some b) = if ltb_ℤ b.priority r.priority then some b else some r

  first-All :
      (a : ℤ) (xs : List (Rule Pattern)) (b : Rule Pattern)
      → All (λ s. a ≤ℤ s.priority) xs
      → first xs ≡ some b
      → a ≤ℤ b.priority
  unfolding first
  first-All a [] b h e = absurd (ground arith)
  first-All a (x ∷ xs) b h e = elim (Bool-cases (fires x)) [
    | inl q ↦
        let same : x ≡ b = ground arith in subst (λ (s : Rule Pattern). a ≤ℤ s.priority) same h.0
    | inr q ↦ first-All a xs b h.1 (ground arith)
  ]

  better-first :
      (r : Rule Pattern) (xs : List (Rule Pattern))
      → All (λ s. r.priority ≤ℤ s.priority) xs
      → better r (first xs) ≡ some r
  better-first r xs h = elim (Option-cases (first xs)) [
    | inl e ↦ rw e refl
    | inr (b, e) ↦ rw e (low b (first-All r.priority xs b h e))
  ]
    where
      low : (b : Rule Pattern) → r.priority ≤ℤ b.priority → better r (some b) ≡ some r
      low b le = ground arith

  first-insert_rule :
      (r : Rule Pattern) (xs : List (Rule Pattern))
      → IsSorted xs
      → first (insert_rule search r xs) ≡ (if fires r then better r (first xs) else first xs)
  unfolding first insert_rule
  first-insert_rule r [] h = refl
  first-insert_rule r (x ∷ xs) h = elim (Bool-cases (leb_ℤ r.priority x.priority)) [
    | inl e ↦ rw e (elim (Bool-cases (fires r)) [
      | inl f ↦ rw f (
          sym (
            better-first r (x ∷ xs)
              (ground arith, All-weaken r.priority x.priority xs (ground arith) h.0)))
      | inr f ↦ rw f refl
    ])
    | inr e ↦ rw (e, first-insert_rule r xs h.1) (ground arith)
  ]

  pub first-sort_rules : (xs : List (Rule Pattern)) → first (sort_rules search xs) ≡ best xs
  unfolding best sort_rules first
  first-sort_rules [] = refl
  first-sort_rules (x ∷ xs) = elim (Bool-cases (fires x)) [
    | inl e ↦
        rw
          (
            first-insert_rule x (sort_rules search xs) (sort_rules-IsSorted xs),
            first-sort_rules xs,
            e,
          )
          refl
    | inr e ↦
        rw
          (
            first-insert_rule x (sort_rules search xs) (sort_rules-IsSorted xs),
            first-sort_rules xs,
            e,
          )
          refl
  ]

  rule_matches-value :
      (r : Rule Pattern) {b : Bool}
      → fires r ≡ b
      → rule_matches search r m ≡ (if b then some r.conditions else none)
  rule_matches-value r e = rule_matches-fires r ∙ ap (λ t. if t then some r.conditions else none) e

  abbrev pub chosen_decision : Option (Rule Pattern) → Decision Pattern
  chosen_decision none = record { action = none; rule = none; matched = [] }
  chosen_decision (some r) = decide search r r.conditions

  pub first_decision-first :
      (xs : List (Rule Pattern))
      → first_decision search xs m ≡ elim (first xs) [
        | none ↦ record { action = none; rule = none; matched = [] }
        | some r ↦ decide search r r.conditions
      ]
  unfolding first_decision first
  first_decision-first [] = refl
  first_decision-first (x ∷ xs) = elim (Bool-cases (fires x)) [
    | inl e ↦ rw (rule_matches-value x e, first_decision, e) refl
    | inr e ↦ rw (rule_matches-value x e, first_decision, e) (first_decision-first xs)
  ]
