-- ===== src/Tools/Examples.antt =====
-- A tool that reads, run under audit.
use synapse_os.Base.{
  ℕ, Bool, true, false, List, [], ◌∷◌, some, String, ok, ◌≡◌, refl, ap, any, strip, ◌++◌, ◌+◌,
}
use synapse_os.Enums.{Permission, ToolRiskLevel}
use synapse_os.Permissions.Types.{
  PermissionOutcome, PermissionReasonCode, PermissionRequest, PermissionDecision, is_valid_request,
}
use synapse_os.Tools.Types.{
  ToolAuditOutcome, ToolExecutionContext, Fields, ToolResult, ToolTransaction, ToolReply, Tool,
}
use synapse_os.Tools.Registry.{is_valid_tool, get, build_registry, build_registry-get}
use synapse_os.Tools.Executor.{
  Toolbox, audit_start, permission_request, succeeded_result, success_finish, is_valid_context,
  is_valid_call, OutputSize, counted, checked_output, finish_call, failure_result, roll_back,
  commit, interrupt, complete, undo, undo_interrupted, judge, resume, deliver, receive, run_call,
  heed, ask_permission, find_tool, with_handle, execute_tool,
}
use synapse_os.Tools.Traced.{ToolEvent, begun, evaluated, executed, paused, finished, committed}
use synapse_os.Tools.Guarantees.{
  audits, is_run, Phase, is_orderly, Permitted, execution, execute_tool-audits,
  execute_tool-first_run, execute_tool-is_orderly,
}
use synapse_os.Tools.Lifecycle.{Lifecycle}
use synapse_os.Tools.Protocol.{execute_tool-Lifecycle}

abbrev any_text : String → String → Bool
any_text pattern text = true

abbrev two_bytes : Fields → OutputSize
two_bytes fields = counted 2

abbrev writing : ToolTransaction ℕ
writing = record { commit = λ s. (true, s + 1); rollback = λ s. (true, s) }

abbrev write_file : Tool ℕ
write_file = record {
  name = "write_file";
  description = "Writes a file.";
  required_permissions = Permission.filesystem_write ∷ [];
  risk_level = ToolRiskLevel.medium;
  timeout = 5_000_000;
  has_closed_schema = true;
  prepare = λ arguments. some (λ context s. (ToolReply.output (some []) (some writing), s));
}

abbrev decision : PermissionRequest → PermissionDecision
decision q = record {
  agent_id = q.agent_id;
  agent_run_id = q.agent_run_id;
  project_id = q.project_id;
  task_id = q.task_id;
  tool_name = q.tool_name;
  outcome = PermissionOutcome.allow;
  required_permissions = Permission.filesystem_write ∷ [];
  reason_code = PermissionReasonCode.granted;
  safe_message = "Permission granted.";
  correlation_id = q.correlation_id;
  evaluated_at = 7;
}

abbrev box : Toolbox ℕ
box = record {
  registry = write_file ∷ [];
  begin_audit = λ start s. (some 5, s);
  finish_audit = λ id finish s. (true, s);
  evaluate = λ q s. (ok (decision q), s);
  pause = λ s. (true, s);
}

abbrev context : ToolExecutionContext
context = record {
  agent_id = "dev-1";
  agent_run_id = 20;
  project_id = 40;
  task_id = 30;
  declared_tool_ids = "write_file" ∷ [];
  correlation_id = 50;
}

abbrev request : PermissionRequest
request = permission_request "write_file" context write_file

abbrev written : ToolResult
written = succeeded_result 5 "write_file" [] false

abbrev earlier : List ToolEvent
earlier =
    begun (audit_start "write_file" 0 context) (some 5)
    ∷ evaluated request (ok (decision request))
    ∷ []

abbrev later : List ToolEvent
later = paused true ∷ finished 5 (success_finish [] false 2) true ∷ committed true ∷ []

abbrev trace : List ToolEvent
trace = earlier ++ executed "write_file" ∷ later

run : execution any_text two_bytes box "write_file" [] context [] 0 ≡ (ok written, (trace, 1))
unfolding is_valid_request is_valid_context is_valid_call checked_output finish_call failure_result
    roll_back commit interrupt complete undo undo_interrupted judge resume deliver receive run_call
    heed ask_permission find_tool with_handle execute_tool
run = refl

build_registry-get_example :
    (get (write_file ∷ []) "write_file" ≡ some write_file)
    × (is_valid_tool any_text write_file ≡ true)
unfolding build_registry is_valid_tool strip
build_registry-get_example =
    build_registry-get any_text (write_file ∷ []) (write_file ∷ []) 0 write_file refl refl

execute_tool-Lifecycle_example :
    let w = execution any_text two_bytes box "write_file" [] context [] 0 in
    (added : List ToolEvent) × (w.1.0 ≡ added)
    × Lifecycle any_text two_bytes box "write_file" context []
        (audit_start "write_file" 0 context)
        w.0
        added
execute_tool-Lifecycle_example =
    execute_tool-Lifecycle any_text two_bytes box "write_file" [] context [] 0

execute_tool-audits_example : audits trace ≡ (ToolAuditOutcome.succeeded, true) ∷ []
execute_tool-audits_example =
    execute_tool-audits any_text two_bytes box "write_file" [] context [] 0 written trace
      (ap (λ o. o.0) run) (ap (λ o. o.1.0) run)

execute_tool-first_run_example :
    Permitted box "write_file" context (audit_start "write_file" 0 context) earlier "write_file"
    × (any is_run later ≡ false)
execute_tool-first_run_example =
    execute_tool-first_run any_text two_bytes box "write_file" [] context [] 0 trace earlier later
      "write_file" (ap (λ o. o.1.0) run) refl

execute_tool-is_orderly_example : is_orderly Phase.fresh trace ≡ true
execute_tool-is_orderly_example =
    execute_tool-is_orderly any_text two_bytes box "write_file" [] context [] 0 trace
      (ap (λ o. o.1.0) run)
