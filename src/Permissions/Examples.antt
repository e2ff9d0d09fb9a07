-- ===== src/Permissions/Examples.antt =====
-- An agent that may read the files of its project.
use synapse_os.Base.{
  arith, ℕ, Bool, true, List, [], ◌∷◌, ◌++◌, none, some, String, Result, ok, ◌≡◌, refl,
}
use synapse_os.Enums.{Permission, same_permission, ToolRiskLevel}
use synapse_os.Permissions.Types.{
  PermissionOutcome, PermissionReasonCode, PermissionRequest, PolicyRequest, PermissionDecision,
  policy_request, decision_of, is_valid_request, is_valid_policy_request, is_valid_decision,
  is_consistent, sort_permissions,
}
use synapse_os.Permissions.Policy.{
  PermissionError, Database, is_scoped, is_active, decide, evaluate_policy,
}
use synapse_os.Permissions.Engine.{
  parse_permissions, is_scope_kept, validate_decision, record_and_return, ask_policy,
  evaluate_valid, evaluate_request,
}
use synapse_os.Permissions.Authority.{IsAuthorized, policy-IsAuthorized}
use synapse_os.Permissions.Granted.{policy_allows}
use synapse_os.Permissions.Audited.{
  IsAbout, evaluate_request_recorded, evaluate_request-IsAuthorized,
}

abbrev database : Database
database = record {
  agents = record { id = 1; slug = "dev-1"; autonomy_level = 1 } ∷ [];
  runs = record { id = 20; agent_id = 1; task_id = 30 } ∷ [];
  tasks = record { id = 30; project_id = 40; assigned_agent_id = some 1 } ∷ [];
  permissions =
      record {
        agent_id = 1;
        permission = Permission.filesystem_read;
        project_id = some 40;
        revoked_at = none;
        expires_at = some 1000;
      }
      ∷ [];
}

abbrev request : PermissionRequest
request = record {
  agent_id = "dev-1";
  agent_run_id = 20;
  project_id = 40;
  task_id = 30;
  tool_name = "read_file";
  risk_level = ToolRiskLevel.low;
  required_permission_ids = "filesystem.read" ∷ [];
  correlation_id = 50;
}

abbrev reading : PolicyRequest
reading = policy_request request (Permission.filesystem_read ∷ [])

abbrev any_text : String → String → Bool
any_text pattern text = true

abbrev allowed : PermissionDecision
allowed =
    decision_of reading PermissionOutcome.allow PermissionReasonCode.granted "Permission granted."
      500

-- A recorder that keeps every decision.
abbrev keep :
    PermissionDecision → List PermissionDecision → Result PermissionError (List PermissionDecision)
keep d log = ok (log ++ d ∷ [])

allows : evaluate_policy any_text (some database) reading 500 ≡ ok allowed
unfolding evaluate_policy decide is_valid_policy_request is_scoped is_active sort_permissions
    same_permission
allows = refl

engine_allows :
    evaluate_request any_text (evaluate_policy any_text (some database)) (some 500) keep request []
    ≡ ok (allowed, allowed ∷ [])
unfolding evaluate_request evaluate_valid ask_policy validate_decision record_and_return
    evaluate_policy decide is_valid_request is_valid_policy_request is_valid_decision is_consistent
    is_scope_kept is_scoped is_active sort_permissions same_permission
engine_allows = refl

policy-IsAuthorized_example : (level : ℕ) × IsAuthorized database reading 500 level
policy-IsAuthorized_example = policy-IsAuthorized any_text database reading 500 allowed allows refl

evaluate_request_recorded_example : IsAbout request allowed × (keep allowed [] ≡ ok (allowed ∷ []))
evaluate_request_recorded_example =
    evaluate_request_recorded any_text (evaluate_policy any_text (some database)) (some 500) keep
      request allowed [] (allowed ∷ []) engine_allows

evaluate_request-IsAuthorized_example :
    (now : ℕ) × (ps : List Permission) × (level : ℕ) × (some 500 ≡ some now)
    × (parse_permissions ("filesystem.read" ∷ []) ≡ some ps)
    × IsAuthorized database (policy_request request ps) now level
evaluate_request-IsAuthorized_example =
    evaluate_request-IsAuthorized any_text database (some 500) keep request allowed []
      (allowed ∷ []) engine_allows refl

authorized : IsAuthorized database reading 500 1
unfolding same_permission
authorized = record {
  scope = (
    record { id = 1; slug = "dev-1"; autonomy_level = 1 },
    record { id = 20; agent_id = 1; task_id = 30 },
    record { id = 30; project_id = 40; assigned_agent_id = some 1 },
    (0, refl),
    (0, refl),
    (0, refl),
    record {
      run_id = refl;
      runs = refl;
      slug = refl;
      works_on = refl;
      task = refl;
      project = refl;
      assigned = refl;
    },
    refl,
  );
  granted = (
    (
      record {
        agent_id = 1;
        permission = Permission.filesystem_read;
        project_id = some 40;
        revoked_at = none;
        expires_at = some 1000;
      },
      (0, refl),
      record { holder = refl; permission = refl; project = refl; live = refl; current = refl },
    ),
    tt,
  );
  not_production = refl;
  not_critical = λ e. cc;
  autonomy = (omega arith, tt);
  risk = omega arith;
}

policy_allows_example :
    evaluate_policy any_text (some database) reading 500
    ≡ ok (
        decision_of reading PermissionOutcome.allow PermissionReasonCode.granted
          "Permission granted." 500)
unfolding is_valid_policy_request is_scoped
policy_allows_example = policy_allows any_text database reading 500 1 refl refl authorized
