-- ===== src/Tools/Executor.antt =====
-- `ToolExecutor` of core/tools/executor.py, over a registry, an audit recorder and a permission engine.
use synapse_os.Base.{
  ℕ, Bool, true, false, ◌&&◌, List, [], ◌∷◌, map, Option, none, some, String, str_eq, leb, length,
  all, any, if◌then◌else◌, Result, ok, err,
}
use synapse_os.Effects.{Effect, ◌>>=◌, ◌>>◌, pure, raise, handle, attempt, lift, guard}
use synapse_os.Runtime.Types.{JsonValue, ToolErrorCode, ToolResultStatus}
use synapse_os.Permissions.Types.{
  PermissionOutcome, PermissionRequest, PermissionDecision, is_valid_request,
}
use synapse_os.Permissions.Policy.{PermissionError}
use synapse_os.Permissions.Engine.{permission_value}
use synapse_os.Tools.Types.{
  ToolAuditOutcome, ToolRaise, input_error, audit_error, compensation_error, other,
  ToolExecutionContext, ToolAuditStart, ToolAuditFinish, Fields, ToolResult, ToolTransaction,
  ToolReply, Tool,
}
use synapse_os.Tools.Registry.{get}

-- What the executor is built from. The recorder's `begin` gives the handle's identifier, or nothing
-- when it raises; `pause` is `asyncio.sleep(0)`, which is false when the call is cancelled there.
pub record Toolbox (W : Type 0) : Type 0 where
  pub registry : List (Tool W)
  pub begin_audit : ToolAuditStart → W → Option ℕ × W
  pub finish_audit : ℕ → ToolAuditFinish → W → Bool × W
  pub evaluate : PermissionRequest → W → Result PermissionError PermissionDecision × W
  pub pause : W → Bool × W

abbrev pub audit_start : String → ℕ → ToolExecutionContext → ToolAuditStart
audit_start name count c = record {
  tool_name = name;
  agent_id = c.agent_id;
  agent_run_id = c.agent_run_id;
  project_id = c.project_id;
  task_id = c.task_id;
  correlation_id = c.correlation_id;
  argument_count = count;
}

-- The end of a call that gives no output.
abbrev pub empty_finish : ToolAuditOutcome → ToolErrorCode → ToolAuditFinish
empty_finish outcome code = record {
  outcome = outcome;
  truncated = false;
  output_field_count = 0;
  output_bytes = 0;
  error_code = some code;
}

abbrev pub success_finish : Fields → Bool → ℕ → ToolAuditFinish
success_finish output truncated bytes = record {
  outcome = ToolAuditOutcome.succeeded;
  truncated = truncated;
  output_field_count = length output;
  output_bytes = bytes;
  error_code = none;
}

abbrev pub failed_result : ℕ → String → ToolResultStatus → ToolErrorCode → ToolResult
failed_result id name status code = record {
  tool_name = name;
  status = status;
  output = [];
  error_code = some code;
  truncated = false;
  tool_call_id = id;
}

abbrev pub succeeded_result : ℕ → String → Fields → Bool → ToolResult
succeeded_result id name output truncated = record {
  tool_name = name;
  status = ToolResultStatus.succeeded;
  output = output;
  error_code = none;
  truncated = truncated;
  tool_call_id = id;
}

abbrev pub permission_request :
    String → ToolExecutionContext → {W : Type 0} → Tool W → PermissionRequest
permission_request name c tool = record {
  agent_id = c.agent_id;
  agent_run_id = c.agent_run_id;
  project_id = c.project_id;
  task_id = c.task_id;
  tool_name = name;
  risk_level = tool.risk_level;
  required_permission_ids = map permission_value tool.required_permissions;
  correlation_id = c.correlation_id;
}

-- `output.get("truncated") is True`
abbrev pub is_truncated : Fields → Bool
is_truncated [] = false
is_truncated (f ∷ rest) =
    let later = is_truncated rest in
    if str_eq f.0 "truncated" then elim f.1 [ JsonValue.boolean b ↦ b | _ ↦ false ] else later

abbrev pub is_allowed : PermissionOutcome → Bool
is_allowed PermissionOutcome.allow = true
is_allowed _ = false

abbrev pub refusal : PermissionOutcome → ToolErrorCode
refusal PermissionOutcome.ask = ToolErrorCode.approval_required
refusal _ = ToolErrorCode.permission_denied

-- The number of bytes of an output as JSON, or what encoding it raises: a `TypeError` or a
-- `ValueError`, or another exception.
pub data OutputSize : Type 0 where
  counted : ℕ → OutputSize
  refused broke : OutputSize

-- An output that passes its checks, with its bytes; one that does not; or another exception.
pub data CheckedOutput : Type 0 where
  valid_output : Fields → ℕ → CheckedOutput
  invalid_output unchecked_output : CheckedOutput

-- `matches` is the test of a text against a pattern, and `size` the size of an output as JSON.
module _ (matches : String → String → Bool) (size : Fields → OutputSize) where
  abbrev pub is_identifier : String → Bool
  is_identifier = matches "^[a-z0-9][a-z0-9._:-]{0,127}$"

  -- `_validate_context`
  unfoldable pub is_valid_context : ToolExecutionContext → Bool
  is_valid_context c =
      is_identifier c.agent_id
      && leb 1 (length c.declared_tool_ids)
      && leb (length c.declared_tool_ids) 128
      && all is_identifier c.declared_tool_ids

  -- `_validate_request`
  unfoldable pub is_valid_call : String → Fields → Bool
  is_valid_call name arguments = is_identifier name && leb (length arguments) 128

  -- `_validated_output`, `_output_bytes` and the check of `ToolResult`.
  unfoldable pub checked_output : Option Fields → CheckedOutput
  checked_output none = invalid_output
  checked_output (some fields) =
      if leb (length fields) 128
      then elim (size fields) [
        | counted bytes ↦ if leb bytes 1_048_576 then valid_output fields bytes else invalid_output
        | refused ↦ invalid_output
        | broke ↦ unchecked_output
      ]
      else invalid_output

  module _ {W : Type 0} (box : Toolbox W) where
    -- `_finish_audit`
    unfoldable pub finish_call : ℕ → ToolAuditFinish → Effect W ToolRaise (Unit {0})
    finish_call id finish = attempt (box.finish_audit id finish) audit_error

    -- `_failure_result`
    unfoldable pub failure_result :
        ℕ
        → String
        → ToolResultStatus
        → ToolAuditOutcome
        → ToolErrorCode
        → Effect W ToolRaise ToolResult
    failure_result id name status outcome code = do
      finish_call id (empty_finish outcome code)
      pure (failed_result id name status code)

    -- `_rollback` and `_commit`
    unfoldable pub roll_back : Option (ToolTransaction W) → Effect W ToolRaise (Unit {0})
    roll_back none = pure tt
    roll_back (some t) = attempt t.rollback compensation_error

    unfoldable pub commit : Option (ToolTransaction W) → Effect W ToolRaise (Unit {0})
    commit none = pure tt
    commit (some t) = attempt t.commit compensation_error

    -- The cancellation is raised again once it is audited; an audit that fails is raised in its place.
    unfoldable pub interrupt : ℕ → Effect W ToolRaise ToolResult
    interrupt id = do
      finish_call id (empty_finish ToolAuditOutcome.cancelled ToolErrorCode.cancelled)
      raise ToolRaise.cancelled

    -- The success is audited before the transaction is committed.
    unfoldable pub complete :
        ℕ → String → Fields → ℕ → Option (ToolTransaction W) → Effect W ToolRaise ToolResult
    complete id name fields bytes transaction = do
      handle (finish_call id (success_finish fields (is_truncated fields) bytes))
          (λ e. do roll_back transaction; raise e)
      commit transaction
      pure (succeeded_result id name fields (is_truncated fields))

    -- An output that is no output: what the tool has done is undone first.
    unfoldable pub undo : ℕ → String → Option (ToolTransaction W) → Effect W ToolRaise ToolResult
    undo id name transaction = do
      roll_back transaction
      failure_result id name ToolResultStatus.failed ToolAuditOutcome.failed
          ToolErrorCode.output_limit

    unfoldable pub undo_interrupted : ℕ → Option (ToolTransaction W) → Effect W ToolRaise ToolResult
    undo_interrupted id transaction = do roll_back transaction; interrupt id

    -- From the output to the result.
    unfoldable pub judge :
        ℕ → String → Option (ToolTransaction W) → CheckedOutput → Effect W ToolRaise ToolResult
    judge id name transaction invalid_output = undo id name transaction
    judge id name transaction unchecked_output = raise other
    judge id name transaction (valid_output fields bytes) =
        complete id name fields bytes transaction

    unfoldable pub resume :
        ℕ
        → String
        → Option Fields
        → Option (ToolTransaction W)
        → Bool
        → Effect W ToolRaise ToolResult
    resume id name raw transaction false = undo_interrupted id transaction
    resume id name raw transaction true = judge id name transaction (checked_output raw)

    unfoldable pub deliver :
        ℕ → String → Option Fields → Option (ToolTransaction W) → Effect W ToolRaise ToolResult
    deliver id name raw transaction = do
      resumed ← lift box.pause
      resume id name raw transaction resumed

    -- What the tool's reply leads to.
    unfoldable pub receive : ℕ → String → ToolReply W → Effect W ToolRaise ToolResult
    receive id name (ToolReply.output raw transaction) = deliver id name raw transaction
    receive id name ToolReply.timed_out =
        failure_result id name ToolResultStatus.timed_out ToolAuditOutcome.timed_out
          ToolErrorCode.tool_timed_out
    receive id name ToolReply.cancelled = interrupt id
    receive id name (ToolReply.tool_error code) =
        failure_result id name ToolResultStatus.failed ToolAuditOutcome.failed code
    receive id name ToolReply.crashed =
        failure_result id name ToolResultStatus.failed ToolAuditOutcome.failed
          ToolErrorCode.tool_failed

    -- From the permission on: the arguments are validated, and the tool runs.
    unfoldable pub run_call :
        ℕ
        → String
        → ToolExecutionContext
        → Option (ToolExecutionContext → W → ToolReply W × W)
        → Effect W ToolRaise ToolResult
    run_call id name context none =
        failure_result id name ToolResultStatus.failed ToolAuditOutcome.failed
          ToolErrorCode.invalid_input
    run_call id name context (some call) = do reply ← lift (call context); receive id name reply

    -- What the engine's answer leads to.
    unfoldable pub heed :
        ℕ
        → String
        → ToolExecutionContext
        → Fields
        → Tool W
        → Result PermissionError PermissionDecision
        → Effect W ToolRaise ToolResult
    heed id name context arguments tool (err _) =
        failure_result id name ToolResultStatus.failed ToolAuditOutcome.failed
          ToolErrorCode.permission_audit_failed
    heed id name context arguments tool (ok decision) =
        if is_allowed decision.outcome
        then run_call id name context (tool.prepare arguments)
        else failure_result id name ToolResultStatus.denied ToolAuditOutcome.denied
            (refusal decision.outcome)

    -- Building the permission request checks it.
    unfoldable pub ask_permission :
        ℕ → String → ToolExecutionContext → Fields → Tool W → Effect W ToolRaise ToolResult
    ask_permission id name context arguments tool = do
      guard (is_valid_request matches (permission_request name context tool)) other
      answer ← lift (box.evaluate (permission_request name context tool))
      heed id name context arguments tool answer

    -- The tool is looked up, and must be declared.
    unfoldable pub find_tool :
        ℕ → String → ToolExecutionContext → Fields → Option (Tool W) → Effect W ToolRaise ToolResult
    find_tool id name context arguments none =
        failure_result id name ToolResultStatus.denied ToolAuditOutcome.denied
          ToolErrorCode.tool_not_found
    find_tool id name context arguments (some tool) =
        if any (λ declared. str_eq name declared) context.declared_tool_ids
        then ask_permission id name context arguments tool
        else failure_result id name ToolResultStatus.denied ToolAuditOutcome.denied
            ToolErrorCode.tool_not_declared

    unfoldable pub with_handle :
        String → ToolExecutionContext → Fields → Option ℕ → Effect W ToolRaise ToolResult
    with_handle name context arguments none = raise audit_error
    with_handle name context arguments (some id) =
        find_tool id name context arguments (get box.registry name)

    -- `execute`
    unfoldable pub execute_tool :
        String → Fields → ToolExecutionContext → Effect W ToolRaise ToolResult
    execute_tool name arguments context = do
      guard (is_valid_context context && is_valid_call name arguments) input_error
      begun ← lift (box.begin_audit (audit_start name (length arguments) context))
      with_handle name context arguments begun
