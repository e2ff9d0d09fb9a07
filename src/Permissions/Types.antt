-- ===== src/Permissions/Types.antt =====
-- core/permissions/types.py: requests and decisions. Identifiers of rows (UUIDs) and times are
-- numbers; a frozen set is a list without repetitions.
use Prim.Native.String
use synapse_os.Base.{
  ℕ, Bool, true, false, ◌&&◌, List, [], ◌∷◌, String, leb, length, all, any, if◌then◌else◌,
}
use synapse_os.Enums.{Permission, same_permission, ToolRiskLevel}

pub data PermissionOutcome : Type 0 where
  allow deny ask : PermissionOutcome

pub data PermissionReasonCode : Type 0 where
  granted unknown_permission invalid_scope missing_permission human_approval_required
        autonomy_approval_required :
      PermissionReasonCode

pub record PermissionRequest : Type 0 where
  pub agent_id : String
  pub agent_run_id : ℕ
  pub project_id : ℕ
  pub task_id : ℕ
  pub tool_name : String
  pub risk_level : ToolRiskLevel
  pub required_permission_ids : List String
  pub correlation_id : ℕ

pub record PolicyRequest : Type 0 where
  pub agent_id : String
  pub agent_run_id : ℕ
  pub project_id : ℕ
  pub task_id : ℕ
  pub tool_name : String
  pub risk_level : ToolRiskLevel
  pub required_permissions : List Permission
  pub correlation_id : ℕ

pub record PermissionDecision : Type 0 where
  pub agent_id : String
  pub agent_run_id : ℕ
  pub project_id : ℕ
  pub task_id : ℕ
  pub tool_name : String
  pub outcome : PermissionOutcome
  pub required_permissions : List Permission
  pub reason_code : PermissionReasonCode
  pub safe_message : String
  pub correlation_id : ℕ
  pub evaluated_at : ℕ

-- `p in permissions`
abbrev pub contains : List Permission → Permission → Bool
contains permissions p = any (same_permission p) permissions

-- `a.issubset(b)`
abbrev pub is_subset : List Permission → List Permission → Bool
is_subset xs ys = all (contains ys) xs

-- `sorted(value, key=lambda item: item.value)` of a set: its members, by their texts.
abbrev pub in_order : List Permission
in_order =
    Permission.database_read ∷ Permission.database_write ∷ Permission.deployment_production
    ∷ Permission.deployment_staging ∷ Permission.filesystem_read ∷ Permission.filesystem_write
    ∷ Permission.git_read ∷ Permission.git_write ∷ Permission.network_access
    ∷ Permission.shell_execute ∷ Permission.tests_execute ∷ []

abbrev members_among : List Permission → List Permission → List Permission
members_among permissions [] = []
members_among permissions (p ∷ rest) =
    let others = members_among permissions rest in
    if contains permissions p then p ∷ others else others

unfoldable pub sort_permissions : List Permission → List Permission
sort_permissions permissions = members_among permissions in_order

-- `require_consistent_outcome_and_reason`
unfoldable pub is_consistent : PermissionOutcome → PermissionReasonCode → Bool
is_consistent PermissionOutcome.allow PermissionReasonCode.granted = true
is_consistent PermissionOutcome.deny PermissionReasonCode.unknown_permission = true
is_consistent PermissionOutcome.deny PermissionReasonCode.invalid_scope = true
is_consistent PermissionOutcome.deny PermissionReasonCode.missing_permission = true
is_consistent PermissionOutcome.ask PermissionReasonCode.human_approval_required = true
is_consistent PermissionOutcome.ask PermissionReasonCode.autonomy_approval_required = true
is_consistent _ _ = false

-- The bounds of the fields; `matches` is the test of a text against a pattern.
module _ (matches : String → String → Bool) where
  abbrev pub is_identifier : String → Bool
  is_identifier = matches "^[a-z0-9][a-z0-9._:-]{0,127}$"

  unfoldable pub is_valid_request : PermissionRequest → Bool
  is_valid_request r =
      is_identifier r.agent_id
      && is_identifier r.tool_name
      && leb 1 (length r.required_permission_ids)
      && leb (length r.required_permission_ids) 128
      && all is_identifier r.required_permission_ids

  unfoldable pub is_valid_policy_request : PolicyRequest → Bool
  is_valid_policy_request r =
      is_identifier r.agent_id
      && is_identifier r.tool_name
      && leb 1 (length r.required_permissions)
      && leb (length r.required_permissions) 11

  unfoldable pub is_valid_decision : PermissionDecision → Bool
  unfolding is_consistent
  is_valid_decision d =
      is_identifier d.agent_id
      && is_identifier d.tool_name
      && leb (length d.required_permissions) 11
      && leb 1 (String.count d.safe_message)
      && leb (String.count d.safe_message) 255
      && is_consistent d.outcome d.reason_code

-- `PolicyRequest.from_request`
abbrev pub policy_request : PermissionRequest → List Permission → PolicyRequest
policy_request r permissions = record {
  agent_id = r.agent_id;
  agent_run_id = r.agent_run_id;
  project_id = r.project_id;
  task_id = r.task_id;
  tool_name = r.tool_name;
  risk_level = r.risk_level;
  required_permissions = permissions;
  correlation_id = r.correlation_id;
}

-- `PermissionDecision.from_request` of a policy's request
abbrev pub decision_of :
    PolicyRequest → PermissionOutcome → PermissionReasonCode → String → ℕ → PermissionDecision
decision_of r outcome reason message now = record {
  agent_id = r.agent_id;
  agent_run_id = r.agent_run_id;
  project_id = r.project_id;
  task_id = r.task_id;
  tool_name = r.tool_name;
  outcome = outcome;
  required_permissions = sort_permissions r.required_permissions;
  reason_code = reason;
  safe_message = message;
  correlation_id = r.correlation_id;
  evaluated_at = now;
}
