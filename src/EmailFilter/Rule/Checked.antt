-- ===== src/EmailFilter/Rule/Checked.antt =====
-- `Rule.Validate`: the rule with its compiled conditions, or the first thing wrong with it.
use panmail.Base.{
  [], false, if◌then◌else◌, inl, inr, true, ◌∷◌, Bool, Option, List, ◌⊎◌, not, ◌≡◌, length, leb,
  ◌≤◌,
}
use panmail.EmailFilter.{Direction, is_direction}
use panmail.EmailFilter.Condition.{Condition}
use panmail.EmailFilter.Condition.Valid.{validate, Invalid, IsValid}
use panmail.EmailFilter.Rule.{Rule, Action, hold, reject, tag, allow, other_action}
use panmail.Base.Text.{Text, trim_space, ◌==◌}

-- `Action.Valid`
unfoldable pub is_action : Action → Bool
is_action hold = true
is_action reject = true
is_action tag = true
is_action allow = true
is_action (other_action t) = false

pub data Fault : Type 0 where
  no_name wrong_direction wrong_action no_conditions : Fault
  wrong_condition : Invalid → Fault
  wrong_exception : Invalid → Fault

module _ {Pattern : Type 0} (compile : Text → Option Pattern) where
  unfoldable pub validate_all :
      Direction → List (Condition Pattern) → Invalid ⊎ List (Condition Pattern)
  validate_all direction [] = inr []
  validate_all direction (c ∷ rest) =
      let more = validate_all direction rest in
      elim (validate compile direction c) [
        | inl e ↦ inl e
        | inr v ↦ elim more [ inl e ↦ inl e | inr vs ↦ inr (v ∷ vs) ]
      ]

  unfoldable pub with_exceptions : Rule Pattern → List (Condition Pattern) → Fault ⊎ Rule Pattern
  with_exceptions r conditions = elim (validate_all r.direction r.exceptions) [
    | inl e ↦ inl (wrong_exception e)
    | inr exceptions ↦ inr (record r { conditions = conditions; exceptions = exceptions })
  ]

  unfoldable pub with_conditions : Rule Pattern → Fault ⊎ Rule Pattern
  with_conditions r = elim (validate_all r.direction r.conditions) [
    | inl e ↦ inl (wrong_condition e)
    | inr conditions ↦ with_exceptions r conditions
  ]

  unfoldable pub validate_rule : Rule Pattern → Fault ⊎ Rule Pattern
  validate_rule r =
      if trim_space r.name == []
      then inl no_name
      else if not (is_direction r.direction)
      then inl wrong_direction
      else if not (is_action r.action)
      then inl wrong_action
      else if leb (length r.conditions) 0
      then inl no_conditions
      else with_conditions r

  -- Each condition of the second list is the first's, validated.
  abbrev pub AreValid : Direction → List (Condition Pattern) → List (Condition Pattern) → Type 0
  AreValid direction [] [] = Unit
  AreValid direction [] (v ∷ vs) = ⊥
  AreValid direction (c ∷ cs) [] = ⊥
  AreValid direction (c ∷ cs) (v ∷ vs) = IsValid compile direction c v × AreValid direction cs vs

  -- What a rule that passes validation is.
  pub record IsChecked (r checked : Rule Pattern) : Type 0 where
    pub directed : is_direction r.direction ≡ true
    pub acts : is_action r.action ≡ true
    pub conditional : 1 ≤ length r.conditions
    pub same_rule :
        (checked.priority ≡ r.priority)
        × (checked.direction ≡ r.direction)
        × (checked.action ≡ r.action)
        × (checked.enabled ≡ r.enabled)
    pub valid_conditions : AreValid r.direction r.conditions checked.conditions
    pub valid_exceptions : AreValid r.direction r.exceptions checked.exceptions
