-- ===== src/Permissions/Policy.antt =====
-- `SQLAlchemyPermissionPolicy` of infrastructure/permissions/policy.py, on the rows that it reads.
use synapse_os.Base.{
  ℕ, Bool, true, false, ◌&&◌, not, List, [], ◌∷◌, Option, none, some, String, str_eq, ◌==◌, ltb,
  any, if◌then◌else◌, Result, ok, err,
}
use synapse_os.Enums.{Permission, ToolRiskLevel}
use synapse_os.Permissions.Types.{
  PermissionOutcome, PermissionReasonCode, PolicyRequest, PermissionDecision, contains, is_subset,
  is_valid_policy_request, decision_of,
}

-- `PermissionInputError`, `PermissionPolicyError` and `PermissionAuditError`
pub data PermissionError : Type 0 where
  input_error policy_error audit_error : PermissionError

pub record Agent : Type 0 where
  pub id : ℕ
  pub slug : String
  pub autonomy_level : ℕ

pub record AgentRun : Type 0 where
  pub id : ℕ
  pub agent_id : ℕ
  pub task_id : ℕ

pub record WorkTask : Type 0 where
  pub id : ℕ
  pub project_id : ℕ
  pub assigned_agent_id : Option ℕ

pub record AgentPermission : Type 0 where
  pub agent_id : ℕ
  pub permission : Permission
  pub project_id : Option ℕ
  pub revoked_at : Option ℕ
  pub expires_at : Option ℕ

pub record Database : Type 0 where
  pub agents : List Agent
  pub runs : List AgentRun
  pub tasks : List WorkTask
  pub permissions : List AgentPermission

-- `_MINIMUM_AUTONOMY`
abbrev pub minimum_autonomy : Permission → ℕ
minimum_autonomy Permission.filesystem_read = 0
minimum_autonomy Permission.filesystem_write = 1
minimum_autonomy Permission.git_read = 0
minimum_autonomy Permission.git_write = 2
minimum_autonomy Permission.shell_execute = 3
minimum_autonomy Permission.tests_execute = 1
minimum_autonomy Permission.network_access = 3
minimum_autonomy Permission.database_read = 0
minimum_autonomy Permission.database_write = 3
minimum_autonomy Permission.deployment_staging = 3
minimum_autonomy Permission.deployment_production = 4

-- `_MINIMUM_RISK_AUTONOMY`, which has no entry for the critical level: the number there is never read.
abbrev pub minimum_risk_autonomy : ToolRiskLevel → ℕ
minimum_risk_autonomy ToolRiskLevel.low = 0
minimum_risk_autonomy ToolRiskLevel.medium = 1
minimum_risk_autonomy ToolRiskLevel.high = 2
minimum_risk_autonomy ToolRiskLevel.critical = 0

-- A column that may be null, compared with a number.
abbrev pub is_number : Option ℕ → ℕ → Bool
is_number none n = false
is_number (some m) n = m == n

-- The conditions of the first query on one row of the join.
unfoldable pub is_scoped : PolicyRequest → Agent → AgentRun → WorkTask → Bool
is_scoped r agent run task =
    run.agent_id == agent.id
    && task.id == run.task_id
    && run.id == r.agent_run_id
    && str_eq agent.slug r.agent_id
    && run.task_id == r.task_id
    && task.id == r.task_id
    && task.project_id == r.project_id
    && is_number task.assigned_agent_id agent.id

-- The first row of the join that meets them: its agent's autonomy level.
abbrev pub first_task : PolicyRequest → Agent → AgentRun → List WorkTask → Option ℕ
first_task r agent run [] = none
first_task r agent run (t ∷ rest) =
    let others = first_task r agent run rest in
    if is_scoped r agent run t then some agent.autonomy_level else others

abbrev pub or_else : Option ℕ → Option ℕ → Option ℕ
or_else none other = other
or_else (some n) other = some n

abbrev pub first_run : PolicyRequest → Agent → List WorkTask → List AgentRun → Option ℕ
first_run r agent tasks [] = none
first_run r agent tasks (run ∷ rest) =
    or_else (first_task r agent run tasks) (first_run r agent tasks rest)

abbrev pub first_agent : PolicyRequest → List WorkTask → List AgentRun → List Agent → Option ℕ
first_agent r tasks runs [] = none
first_agent r tasks runs (a ∷ rest) =
    or_else (first_run r a tasks runs) (first_agent r tasks runs rest)

abbrev pub autonomy_of : Database → PolicyRequest → Option ℕ
autonomy_of db r = first_agent r db.tasks db.runs db.agents

-- `select(Agent.id).where(Agent.slug == ...)`; a slug is unique.
abbrev pub agent_of : String → List Agent → Option ℕ
agent_of slug [] = none
agent_of slug (a ∷ rest) =
    let others = agent_of slug rest in if str_eq a.slug slug then some a.id else others

-- `expires_at > timestamp`, or no expiry
abbrev pub is_current : Option ℕ → ℕ → Bool
is_current none now = true
is_current (some expiry) now = ltb now expiry

-- No project, or the request's.
abbrev pub covers : Option ℕ → ℕ → Bool
covers none project = true
covers (some p) project = p == project

abbrev pub is_none : Option ℕ → Bool
is_none none = true
is_none (some _) = false

-- The conditions of the second query on one grant.
unfoldable pub is_active : Option ℕ → PolicyRequest → ℕ → AgentPermission → Bool
is_active agent r now g =
    is_number agent g.agent_id
    && contains r.required_permissions g.permission
    && covers g.project_id r.project_id
    && is_none g.revoked_at
    && is_current g.expires_at now

abbrev pub granted_among : Option ℕ → PolicyRequest → ℕ → List AgentPermission → List Permission
granted_among agent r now [] = []
granted_among agent r now (g ∷ rest) =
    let others = granted_among agent r now rest in
    if is_active agent r now g then g.permission ∷ others else others

abbrev pub granted_of : Database → PolicyRequest → ℕ → List Permission
granted_of db r now = granted_among (agent_of r.agent_id db.agents) r now db.permissions

abbrev pub is_critical : ToolRiskLevel → Bool
is_critical ToolRiskLevel.critical = true
is_critical _ = false

abbrev human_approval : PolicyRequest → ℕ → PermissionDecision
human_approval r now =
    decision_of r PermissionOutcome.ask PermissionReasonCode.human_approval_required
      "Human approval is required." now

abbrev autonomy_approval : PolicyRequest → ℕ → PermissionDecision
autonomy_approval r now =
    decision_of r PermissionOutcome.ask PermissionReasonCode.autonomy_approval_required
      "Additional approval is required for this autonomy level." now

-- From the queries' results to the decision.
unfoldable pub decide : PolicyRequest → ℕ → Option ℕ → List Permission → PermissionDecision
decide r now none granted =
    decision_of r PermissionOutcome.deny PermissionReasonCode.invalid_scope
      "Permission scope is invalid." now
decide r now (some level) granted =
    if not (is_subset r.required_permissions granted)
    then decision_of r PermissionOutcome.deny PermissionReasonCode.missing_permission
        "A required permission is not granted." now
    else if contains r.required_permissions Permission.deployment_production
    then human_approval r now
    else if is_critical r.risk_level
    then human_approval r now
    else if any (λ p. ltb level (minimum_autonomy p)) r.required_permissions
    then autonomy_approval r now
    else if ltb level (minimum_risk_autonomy r.risk_level)
    then autonomy_approval r now
    else decision_of r PermissionOutcome.allow PermissionReasonCode.granted "Permission granted."
        now

-- `evaluate`; without a database the queries raise.
unfoldable pub evaluate_policy :
    (String → String → Bool)
    → Option Database
    → PolicyRequest
    → ℕ
    → Result PermissionError PermissionDecision
evaluate_policy matches database r now =
    if is_valid_policy_request matches r
    then elim database [
      | none ↦ err policy_error
      | some db ↦ ok (decide r now (autonomy_of db r) (granted_of db r now))
    ]
    else err policy_error
