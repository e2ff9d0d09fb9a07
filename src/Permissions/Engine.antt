-- ===== src/Permissions/Engine.antt =====
-- `PermissionEngine` of core/permissions/engine.py, over a policy, a clock and an audit recorder.
use synapse_os.Base.{
  ℕ, Bool, ◌&&◌, List, [], ◌∷◌, Option, none, some, String, str_eq, ◌==◌, if◌then◌else◌, Result, ok,
  err, ◌>>=◌,
}
use synapse_os.Enums.{Permission}
use synapse_os.Permissions.Types.{
  PermissionOutcome, PermissionReasonCode, PermissionRequest, PolicyRequest, PermissionDecision,
  is_subset, is_valid_request, is_valid_decision, policy_request, decision_of,
}
use synapse_os.Permissions.Policy.{PermissionError, input_error, policy_error, audit_error}

-- `Permission(identifier)`, where `none` stands for the `ValueError`.
abbrev pub permission_value : Permission → String
permission_value Permission.filesystem_read = "filesystem.read"
permission_value Permission.filesystem_write = "filesystem.write"
permission_value Permission.git_read = "git.read"
permission_value Permission.git_write = "git.write"
permission_value Permission.shell_execute = "shell.execute"
permission_value Permission.tests_execute = "tests.execute"
permission_value Permission.network_access = "network.access"
permission_value Permission.database_read = "database.read"
permission_value Permission.database_write = "database.write"
permission_value Permission.deployment_staging = "deployment.staging"
permission_value Permission.deployment_production = "deployment.production"

abbrev pub all_permissions : List Permission
all_permissions =
    Permission.filesystem_read ∷ Permission.filesystem_write ∷ Permission.git_read
    ∷ Permission.git_write ∷ Permission.shell_execute ∷ Permission.tests_execute
    ∷ Permission.network_access ∷ Permission.database_read ∷ Permission.database_write
    ∷ Permission.deployment_staging ∷ Permission.deployment_production ∷ []

abbrev pub find_permission : List Permission → String → Option Permission
find_permission [] text = none
find_permission (p ∷ rest) text =
    let later = find_permission rest text in
    if str_eq (permission_value p) text then some p else later

-- `frozenset(Permission(identifier) for identifier in ...)`
abbrev pub parse_permissions : List String → Option (List Permission)
parse_permissions [] = some []
parse_permissions (text ∷ rest) = elim (find_permission all_permissions text) [
  | none ↦ none
  | some p ↦ elim (parse_permissions rest) [ none ↦ none | some ps ↦ some (p ∷ ps) ]
]

-- The comparison of `_validate_decision`.
unfoldable pub is_scope_kept : PermissionDecision → PolicyRequest → ℕ → Bool
is_scope_kept d r now =
    str_eq d.agent_id r.agent_id
    && d.agent_run_id == r.agent_run_id
    && d.project_id == r.project_id
    && d.task_id == r.task_id
    && str_eq d.tool_name r.tool_name
    && (is_subset d.required_permissions r.required_permissions
        && is_subset r.required_permissions d.required_permissions)
    && d.correlation_id == r.correlation_id
    && d.evaluated_at == now

module _ {W : Type 0} (matches : String → String → Bool)
    (policy : PolicyRequest → ℕ → Result PermissionError PermissionDecision) (clock : Option ℕ)
    (record_decision : PermissionDecision → W → Result PermissionError W) where
  -- `_validate_decision`
  unfoldable pub validate_decision :
      PermissionDecision → PolicyRequest → ℕ → Result PermissionError PermissionDecision
  validate_decision d r now =
      if is_valid_decision matches d && is_scope_kept d r now then ok d else err policy_error

  -- `_record`, with the decision that `evaluate` then returns.
  unfoldable pub record_and_return :
      PermissionDecision → W → Result PermissionError (PermissionDecision × W)
  record_and_return d w = elim (record_decision d w) [
    | ok w' ↦ ok (d, w')
    | err _ ↦ err audit_error
  ]

  -- `self._policy.evaluate(...)`, whose every error becomes one error.
  unfoldable pub ask_policy : PolicyRequest → ℕ → Result PermissionError PermissionDecision
  ask_policy r now = elim (policy r now) [ ok d ↦ ok d | err _ ↦ err policy_error ]

  -- The decision on an unknown permission.
  abbrev pub unknown_decision : PermissionRequest → ℕ → PermissionDecision
  unknown_decision r now =
      decision_of (policy_request r []) PermissionOutcome.deny
        PermissionReasonCode.unknown_permission "A required permission is unknown." now

  -- `evaluate` at the time of the clock, on a request that is valid.
  unfoldable pub evaluate_valid :
      PermissionRequest
      → ℕ
      → Option (List Permission)
      → W
      → Result PermissionError (PermissionDecision × W)
  evaluate_valid r now none w = record_and_return (unknown_decision r now) w
  evaluate_valid r now (some permissions) w = do
    raw ← ask_policy (policy_request r permissions) now
    decision ← validate_decision raw (policy_request r permissions) now
    record_and_return decision w

  -- `evaluate`
  unfoldable pub evaluate_request :
      PermissionRequest → W → Result PermissionError (PermissionDecision × W)
  evaluate_request r w =
      if is_valid_request matches r
      then elim clock [
        | none ↦ err input_error
        | some now ↦ evaluate_valid r now (parse_permissions r.required_permission_ids) w
      ]
      else err input_error
