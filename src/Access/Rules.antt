-- ===== src/Access/Rules.antt =====
-- What holds of every row of the authorization table.
use panmail.Access.{
  Role, policy, Procedure, Scope, is_tenant_role, Access, providers_read, contains, templates_read,
  all_scopes, suppressions_read, webhooks_read, events_read, inbound_read, filters_read, sign_in,
  viewer,
}
use panmail.Base.{[], false, none, some, true, ◌∷◌, List, Option, Bool, ◌≡◌, arith, ◌⊎◌, ◌≢◌}

-- The scopes that only read.
abbrev read_scopes : List Scope
read_scopes =
    providers_read ∷ templates_read ∷ suppressions_read ∷ webhooks_read ∷ events_read ∷ inbound_read
    ∷ filters_read ∷ []

abbrev is_viewer : Role → Bool
is_viewer viewer = true
is_viewer _ = false

-- What a rule that an API key can meet asks of a user.
abbrev pub IsLeastPrivilege : Option Scope → Option Role → Type 0
IsLeastPrivilege none r = Unit
IsLeastPrivilege (some s) none = ⊥
IsLeastPrivilege (some s) (some r) =
    (is_tenant_role r ≡ true)
    × (contains all_scopes s ≡ true)
    × (contains read_scopes s ≡ is_viewer r)

-- Each rule that an API key can meet can be met by a role of a tenant, below super admin; its
-- scope is one that can be granted, and it is a read scope exactly where a viewer is enough.
pub policy-IsLeastPrivilege :
    (procedure : Procedure) (rule : Access)
    → policy procedure ≡ some rule
    → IsLeastPrivilege rule.scope rule.min_role
unfolding policy is_tenant_role
policy-IsLeastPrivilege sign_in rule h = ground arith
policy-IsLeastPrivilege _ rule h = ground arith

-- A public procedure has no other rule, and every other listed procedure names a role, so that no
-- listed procedure is reachable by keys alone.
pub policy-public :
    (procedure : Procedure) (rule : Access)
    → policy procedure ≡ some rule
    → (rule.public ≡ true) × (rule.min_role ≡ none) × (rule.scope ≡ none)
      ⊎ (rule.public ≡ false) × (rule.min_role ≢ none)
unfolding policy
policy-public sign_in rule h = ground arith
policy-public _ rule h = ground arith
