-- ===== src/Access.antt =====
-- internal/auth/middlewares/policy.go and rbac_interceptor.go, with the roles and scopes of
-- internal/auth/entities: who may call which procedure.
--
-- A procedure is the generated constant that names it; `unlisted` is any other name. A role is one
-- of the four strings, or another; a scope is its string.
pub mod Decisions
mod Examples
pub mod Rules
pub mod Scopes
use panmail.Base.{
  [], false, if◌then◌else◌, none, some, true, ◌∷◌, Bool, List, Option, String, leb, ℕ, ◌&&◌, ◌||◌,
  not, ◌++◌,
}
use text.Mathlib.Text.{◌==◌}

pub data Role : Type 0 where
  viewer editor admin super_admin : Role
  other_role : String → Role

abbrev pub Scope : Type 0
Scope = String

abbrev pub email_send : Scope
email_send = "email:send"

abbrev pub providers_read : Scope
providers_read = "providers:read"

abbrev pub providers_write : Scope
providers_write = "providers:write"

abbrev pub templates_read : Scope
templates_read = "templates:read"

abbrev pub templates_write : Scope
templates_write = "templates:write"

abbrev pub suppressions_read : Scope
suppressions_read = "suppressions:read"

abbrev pub suppressions_write : Scope
suppressions_write = "suppressions:write"

abbrev pub webhooks_read : Scope
webhooks_read = "webhooks:read"

abbrev pub webhooks_write : Scope
webhooks_write = "webhooks:write"

abbrev pub events_read : Scope
events_read = "events:read"

abbrev pub inbound_read : Scope
inbound_read = "inbound:read"

abbrev pub filters_read : Scope
filters_read = "filters:read"

abbrev pub filters_write : Scope
filters_write = "filters:write"

abbrev pub filters_release : Scope
filters_release = "filters:release"

-- `AllScopes`
abbrev pub all_scopes : List Scope
all_scopes =
    email_send ∷ providers_read ∷ providers_write ∷ templates_read ∷ templates_write
    ∷ suppressions_read ∷ suppressions_write ∷ webhooks_read ∷ webhooks_write ∷ events_read
    ∷ inbound_read ∷ filters_read ∷ filters_write ∷ filters_release ∷ []

pub data Procedure : Type 0 where
  sign_in sign_out verify_two_factor get_current_user setup_two_factor : Procedure
  enable_two_factor disable_two_factor : Procedure
  get_setup_status setup test_database_connection : Procedure
  list_user_tenants assign_user_to_tenant remove_user_from_tenant create_user : Procedure
  list_users delete_user update_user_role update_user_two_factor : Procedure
  create_tenant update_tenant delete_tenant list_tenants : Procedure
  update_settings update_smtp_submission get_data_key change_data_key : Procedure
  get_settings : Procedure
  get_performance_metrics list_events get_event get_metrics : Procedure
  get_time_series_metrics list_archives download_archive : Procedure
  create_api_key list_api_keys update_api_key delete_api_key enable_api_key : Procedure
  disable_api_key : Procedure
  get_sent_copy_settings update_sent_copy_settings list_sent_copy_mailboxes : Procedure
  save_sent_copy_mailbox delete_sent_copy_mailbox : Procedure
  create_email_provider update_email_provider delete_email_provider : Procedure
  test_email_provider test_email_provider_config get_email_provider : Procedure
  list_email_providers check_domain_health : Procedure
  create_template update_template delete_template get_template list_templates : Procedure
  create_filter_rule update_filter_rule delete_filter_rule : Procedure
  release_filtered_message reject_filtered_message list_filter_rules : Procedure
  list_filtered_messages get_filtered_message : Procedure
  add_suppression import_suppressions remove_suppression list_suppressions : Procedure
  check_suppression : Procedure
  create_webhook update_webhook delete_webhook test_webhook list_webhooks : Procedure
  list_webhook_event_samples : Procedure
  send_email : Procedure
  list_inbound_emails get_inbound_email : Procedure
  list_logs stream_logs : Procedure
  unlisted : String → Procedure

-- An empty `minRole` and an empty `scope` are `none`.
pub record Access : Type 0 where
  pub public : Bool
  pub min_role : Option Role
  pub scope : Option Scope

abbrev pub open_to_all : Access
open_to_all = record { public = true; min_role = none; scope = none }

abbrev pub role_only : Role → Access
role_only r = record { public = false; min_role = some r; scope = none }

abbrev pub role_or_scope : Role → Scope → Access
role_or_scope r s = record { public = false; min_role = some r; scope = some s }

-- `procedurePolicy` and its lookup.
unfoldable pub policy : Procedure → Option Access
policy sign_in = some open_to_all
policy sign_out = some open_to_all
policy verify_two_factor = some open_to_all
policy get_setup_status = some open_to_all
policy setup = some open_to_all
policy test_database_connection = some open_to_all
policy get_current_user = some (role_only viewer)
policy list_user_tenants = some (role_only viewer)
policy setup_two_factor = some (role_only viewer)
policy enable_two_factor = some (role_only viewer)
policy disable_two_factor = some (role_only viewer)
policy create_tenant = some (role_only super_admin)
policy update_tenant = some (role_only super_admin)
policy delete_tenant = some (role_only super_admin)
policy list_tenants = some (role_only super_admin)
policy assign_user_to_tenant = some (role_only super_admin)
policy remove_user_from_tenant = some (role_only super_admin)
policy update_settings = some (role_only super_admin)
policy update_smtp_submission = some (role_only super_admin)
policy get_data_key = some (role_only super_admin)
policy change_data_key = some (role_only super_admin)
policy get_performance_metrics = some (role_only super_admin)
policy create_api_key = some (role_only admin)
policy list_api_keys = some (role_only admin)
policy update_api_key = some (role_only admin)
policy delete_api_key = some (role_only admin)
policy enable_api_key = some (role_only admin)
policy disable_api_key = some (role_only admin)
policy create_user = some (role_only admin)
policy get_sent_copy_settings = some (role_only admin)
policy update_sent_copy_settings = some (role_only admin)
policy list_sent_copy_mailboxes = some (role_only admin)
policy save_sent_copy_mailbox = some (role_only admin)
policy delete_sent_copy_mailbox = some (role_only admin)
policy list_users = some (role_only admin)
policy delete_user = some (role_only admin)
policy update_user_role = some (role_only admin)
policy update_user_two_factor = some (role_only admin)
policy create_email_provider = some (role_or_scope editor providers_write)
policy update_email_provider = some (role_or_scope editor providers_write)
policy delete_email_provider = some (role_or_scope editor providers_write)
policy test_email_provider = some (role_or_scope editor providers_write)
policy test_email_provider_config = some (role_or_scope editor providers_write)
policy create_template = some (role_or_scope editor templates_write)
policy update_template = some (role_or_scope editor templates_write)
policy delete_template = some (role_or_scope editor templates_write)
policy create_filter_rule = some (role_or_scope editor filters_write)
policy update_filter_rule = some (role_or_scope editor filters_write)
policy delete_filter_rule = some (role_or_scope editor filters_write)
policy release_filtered_message = some (role_or_scope admin filters_release)
policy reject_filtered_message = some (role_or_scope admin filters_release)
policy add_suppression = some (role_or_scope editor suppressions_write)
policy import_suppressions = some (role_or_scope editor suppressions_write)
policy remove_suppression = some (role_or_scope editor suppressions_write)
policy create_webhook = some (role_or_scope editor webhooks_write)
policy update_webhook = some (role_or_scope editor webhooks_write)
policy delete_webhook = some (role_or_scope editor webhooks_write)
policy test_webhook = some (role_or_scope editor webhooks_write)
policy send_email = some (role_or_scope editor email_send)
policy get_email_provider = some (role_or_scope viewer providers_read)
policy list_email_providers = some (role_or_scope viewer providers_read)
policy check_domain_health = some (role_or_scope viewer providers_read)
policy get_template = some (role_or_scope viewer templates_read)
policy list_templates = some (role_or_scope viewer templates_read)
policy list_filter_rules = some (role_or_scope viewer filters_read)
policy list_filtered_messages = some (role_or_scope viewer filters_read)
policy get_filtered_message = some (role_or_scope viewer filters_read)
policy list_suppressions = some (role_or_scope viewer suppressions_read)
policy check_suppression = some (role_or_scope viewer suppressions_read)
policy list_webhooks = some (role_or_scope viewer webhooks_read)
policy list_webhook_event_samples = some (role_or_scope viewer webhooks_read)
policy list_events = some (role_or_scope viewer events_read)
policy get_event = some (role_or_scope viewer events_read)
policy get_metrics = some (role_or_scope viewer events_read)
policy get_time_series_metrics = some (role_or_scope viewer events_read)
policy list_inbound_emails = some (role_or_scope viewer inbound_read)
policy get_inbound_email = some (role_or_scope viewer inbound_read)
policy get_settings = some (role_only viewer)
policy list_archives = some (role_only viewer)
policy download_archive = some (role_only viewer)
policy list_logs = some (role_only admin)
policy stream_logs = some (role_only admin)
policy (unlisted name) = none

-- `roleLevel`; a role that the map does not hold has no level.
unfoldable pub role_level : Role → Option ℕ
role_level viewer = some 1
role_level editor = some 2
role_level admin = some 3
role_level super_admin = some 4
role_level (other_role name) = none

-- A missing map entry reads as 0 where the source does not ask whether it is there.
abbrev pub level_or_zero : Option ℕ → ℕ
level_or_zero none = 0
level_or_zero (some n) = n

unfoldable pub role_satisfies : Role → Option Role → Bool
role_satisfies role none = false
role_satisfies role (some min_role) = elim (role_level role) [
  | none ↦ false
  | some have ↦ leb (level_or_zero (role_level min_role)) have
]

pub data Kind : Type 0 where
  user api_key : Kind
  other_kind : String → Kind

pub record Principal : Type 0 where
  pub kind : Kind
  pub user_id : String
  pub tenant_id : String
  pub role : Role
  pub scopes : List Scope

-- `slices.Contains`
abbrev pub contains : List Scope → Scope → Bool
contains [] s = false
contains (x ∷ xs) s = x == s || contains xs s

-- `IsValidScope`
unfoldable pub is_valid_scope : Scope → Bool
is_valid_scope s = contains all_scopes s

-- `NormalizeScopes`: the loop with its `out`, and the default.
unfoldable pub normalize_from : List Scope → List Scope → List Scope
normalize_from out [] = out
normalize_from out (s ∷ rest) =
    normalize_from (if is_valid_scope s && not (contains out s) then out ++ s ∷ [] else out) rest

abbrev pub default_scopes : List Scope
default_scopes = email_send ∷ []

abbrev pub or_default : List Scope → List Scope
or_default [] = default_scopes
or_default (s ∷ rest) = s ∷ rest

unfoldable pub normalize_scopes : List Scope → List Scope
normalize_scopes requested = or_default (normalize_from [] requested)

-- `IsTenantRole`
unfoldable pub is_tenant_role : Role → Bool
is_tenant_role viewer = true
is_tenant_role editor = true
is_tenant_role admin = true
is_tenant_role super_admin = false
is_tenant_role (other_role name) = false

unfoldable pub has_scope : Principal → Scope → Bool
has_scope p scope = contains p.scopes scope

pub data Denial : Type 0 where
  unauthenticated unknown_procedure no_key_access missing_scope insufficient_role : Denial

-- `nil` is `none`.
unfoldable pub authorize_api_key : Principal → Access → Option Denial
authorize_api_key p rule = elim rule.scope [
  | none ↦ some no_key_access
  | some scope ↦ if has_scope p scope then none else some missing_scope
]

abbrev pub is_super_admin : Role → Bool
is_super_admin super_admin = true
is_super_admin _ = false

unfoldable pub authorize_user : Principal → Access → Option Denial
authorize_user p rule =
    if is_super_admin p.role
    then none
    else if role_satisfies p.role rule.min_role
    then none
    else some insufficient_role

unfoldable pub authorize_kind : Kind → Principal → Access → Option Denial
authorize_kind api_key p rule = authorize_api_key p rule
authorize_kind user p rule = authorize_user p rule
authorize_kind (other_kind name) p rule = some unauthenticated

unfoldable pub authorize_rule : Option Principal → Access → Option Denial
authorize_rule caller rule =
    if rule.public
    then none
    else elim caller [ none ↦ some unauthenticated | some p ↦ authorize_kind p.kind p rule ]

unfoldable pub authorize : Option Principal → Procedure → Option Denial
authorize caller procedure = elim (policy procedure) [
  | none ↦ some unknown_procedure
  | some rule ↦ authorize_rule caller rule
]
