-- ===== src/EmailFilter/Rule.antt =====
-- internal/emailfilter/rule.go: rules, and what they decide about a message.
pub mod Sorted
pub mod First
pub mod Checked
use panmail.Base.{
  [], false, if◌then◌else◌, none, some, true, ◌∷◌, Bool, Option, String, List, ◌&&◌, not, ◌++◌, any,
}
use panmail.EmailFilter.{Message, Direction, outbound, inbound, other_direction}
use panmail.EmailFilter.Condition.{Condition, matches}
use panmail.Base.Text.{Text, ◌==◌}
use panmail.Base.Int.{ℤ, leb_ℤ}

pub data Action : Type 0 where
  hold reject tag allow : Action
  other_action : Text → Action

pub record Rule (Pattern : Type 0) : Type 0 where
  pub id : String
  pub tenant_id : String
  pub name : Text
  pub direction : Direction
  pub action : Action
  pub priority : ℤ
  pub enabled : Bool
  pub conditions : List (Condition Pattern)
  pub exceptions : List (Condition Pattern)
  pub tag_label : Text

-- An empty action is `none`.
pub record Decision (Pattern : Type 0) : Type 0 where
  pub action : Option Action
  pub rule : Option (Rule Pattern)
  pub matched : List (Condition Pattern)

abbrev pub same_direction : Direction → Direction → Bool
same_direction outbound outbound = true
same_direction inbound inbound = true
same_direction (other_direction s) (other_direction t) = s == t
same_direction _ _ = false

abbrev pub is_allow : Action → Bool
is_allow allow = true
is_allow _ = false

-- `Delivers`
unfoldable pub delivers : {Pattern : Type 0} → Decision Pattern → Bool
delivers d = elim d.action [
  | none ↦ true
  | some a ↦ elim a [ allow ↦ true | tag ↦ true | _ ↦ false ]
]

module _ {Pattern : Type 0} (search : Pattern → Text → Bool) where
  -- The loop over the conditions with its `matched`.
  unfoldable pub matched_from :
      Message
      → List (Condition Pattern)
      → List (Condition Pattern)
      → Option (List (Condition Pattern))
  matched_from m matched [] = some matched
  matched_from m matched (c ∷ rest) =
      let more = matched_from m (matched ++ c ∷ []) rest in
      if matches search c m then more else none

  unfoldable pub rule_matches : Rule Pattern → Message → Option (List (Condition Pattern))
  rule_matches r m = if not r.enabled then none else elim (matched_from m [] r.conditions) [
    | none ↦ none
    | some matched ↦ if any (λ c. matches search c m) r.exceptions then none else some matched
  ]

  abbrev pub applies : Direction → Rule Pattern → Bool
  applies direction r = same_direction r.direction direction && r.enabled

  unfoldable pub applicable : Direction → List (Rule Pattern) → List (Rule Pattern)
  applicable direction [] = []
  applicable direction (r ∷ rest) =
      let more = applicable direction rest in if applies direction r then r ∷ more else more

  -- `sort.SliceStable` by priority, as a stable insertion sort.
  unfoldable pub insert_rule : Rule Pattern → List (Rule Pattern) → List (Rule Pattern)
  insert_rule r [] = r ∷ []
  insert_rule r (s ∷ rest) =
      let more = insert_rule r rest in
      if leb_ℤ r.priority s.priority then r ∷ s ∷ rest else s ∷ more

  unfoldable pub sort_rules : List (Rule Pattern) → List (Rule Pattern)
  sort_rules [] = []
  sort_rules (r ∷ rest) = insert_rule r (sort_rules rest)

  unfoldable pub decide : Rule Pattern → List (Condition Pattern) → Decision Pattern
  decide r matched = record {
    action = if is_allow r.action then none else some r.action;
    rule = some r;
    matched = matched;
  }

  unfoldable pub first_decision : List (Rule Pattern) → Message → Decision Pattern
  first_decision [] m = record { action = none; rule = none; matched = [] }
  first_decision (r ∷ rest) m =
      let more = first_decision rest m in
      elim (rule_matches r m) [ none ↦ more | some matched ↦ decide r matched ]

  unfoldable pub evaluate : List (Rule Pattern) → Direction → Message → Decision Pattern
  evaluate rules direction m = first_decision (sort_rules (applicable direction rules)) m
