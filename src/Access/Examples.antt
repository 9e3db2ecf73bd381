-- ===== src/Access/Examples.antt =====
-- The theorems about access at concrete callers.
use panmail.Access.Rules.{IsLeastPrivilege, policy-IsLeastPrivilege}
use text.Mathlib.Text.{◌==◌}
use panmail.Base.{[], if◌then◌else◌, none, refl, some, ◌∷◌, ◌≡◌, ◌↔◌, arith, any, ◌&&◌}
use panmail.Access.{
  Principal, viewer, editor, user, api_key, send_email, create_api_key, email_send, authorize,
  policy, authorize_rule, normalize_scopes, role_level, admin, authorize_kind, events_read, Access,
  Scope, authorize_api_key, authorize_user, contains, has_scope, role_satisfies, insufficient_role,
  is_valid_scope, role_or_scope,
}
use panmail.Access.Scopes.{normalize_scopes_granted, IsDistinct}
use panmail.Access.Decisions.{authorize_iff, authorize_monotone, MayCall}

abbrev sender : Principal
sender = record {
  kind = api_key;
  user_id = "";
  tenant_id = "acme";
  role = viewer;
  scopes = email_send ∷ [];
}

abbrev writer : Principal
writer = record { kind = user; user_id = "u1"; tenant_id = "acme"; role = editor; scopes = [] }

sender_may_send : authorize (some sender) send_email ≡ none
unfolding authorize authorize_rule authorize_kind authorize_api_key has_scope policy
sender_may_send = refl

writer_may_send : authorize (some writer) send_email ≡ none
unfolding authorize authorize_rule authorize_kind authorize_user role_satisfies role_level policy
writer_may_send = refl

writer_may_not_issue_keys : authorize (some writer) create_api_key ≡ some insufficient_role
unfolding authorize authorize_rule authorize_kind authorize_user role_satisfies role_level policy
writer_may_not_issue_keys = refl

authorize_iff_example :
    (authorize (some sender) send_email ≡ none)
    ↔ ((rule : Access) × (policy send_email ≡ some rule) × MayCall (some sender) rule)
authorize_iff_example = authorize_iff (some sender) send_email

authorize_monotone_example : authorize (some (record writer { role = admin })) send_email ≡ none
unfolding role_level
authorize_monotone_example =
    authorize_monotone writer send_email admin {have = 2} {more = 3} refl levels.0 levels.1
      (omega arith) writer_may_send
  where
    levels : (role_level editor ≡ some 2) × (role_level admin ≡ some 3)
    levels = (refl, refl)

normalize_scopes_granted_example :
    IsDistinct (normalize_scopes (events_read ∷ "root" ∷ []))
    × ((t : Scope)
        → contains (normalize_scopes (events_read ∷ "root" ∷ [])) t ≡ (
            if any is_valid_scope (events_read ∷ "root" ∷ [])
            then is_valid_scope t && contains (events_read ∷ "root" ∷ []) t
            else email_send == t))
normalize_scopes_granted_example = normalize_scopes_granted (events_read ∷ "root" ∷ [])

policy-IsLeastPrivilege_example : IsLeastPrivilege (some email_send) (some editor)
unfolding policy
policy-IsLeastPrivilege_example =
    policy-IsLeastPrivilege send_email (role_or_scope editor email_send) refl
