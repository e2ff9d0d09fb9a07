-- ===== src/Runtime/Loop.antt =====
-- `AgentRuntime.run` and `_execute` of core/runtime/runtime.py.
use synapse_os.Base.{
  ℕ, zero, suc, Bool, true, false, [], Option, none, some, String, leb, if◌then◌else◌,
}
use synapse_os.Runtime.Types.{
  RuntimeStep, RuntimeAction, RuntimeVerificationOutcome, RuntimeTerminalStatus,
  RuntimeTerminalReason, RuntimeErrorCode, RuntimeAuditOutcome, ToolErrorCode, ToolResultStatus,
  RuntimeLimits, RuntimeDecision, RuntimeVerification, ToolResult, RuntimeHistoryEntry, RunState,
  fresh_run, RuntimeResult, is_valid_result, RuntimeAuditRecord, is_valid_record,
}
use synapse_os.Runtime.Stagnation.{Canonical, canonical, observe_digest}
use synapse_os.Runtime.Machine.{
  runtime_error, timeout, cancelled, other, Reply, answer, raise, Exit, returned, continued, raised,
  value, exit, Collaborators, Run, Action, ◌>>=◌, ◌>>◌, pure, leave, await, update,
  catch_runtime_error, catch_tool_audit_error, append_entry, count_failure, count_tool_call,
  terminal_record, audit_step, terminal_audit, reason_step, terminal, terminal_failure,
  check_tokens, finish,
}

abbrev pub entry :
    ℕ → RuntimeStep → Option RuntimeDecision → Option ToolErrorCode → RuntimeHistoryEntry
entry iteration step decision code = record {
  iteration = iteration;
  step = step;
  action = elim decision [ none ↦ none | some d ↦ some d.action ];
  tool_name = elim decision [ none ↦ none | some d ↦ d.tool_name ];
  tool_error_code = code;
}

-- `decision.tool_name or "invalid"`
abbrev pub tool_or_invalid : Option String → String
tool_or_invalid none = "invalid"
tool_or_invalid (some String.[]) = "invalid"
tool_or_invalid (some (String.◌∷◌ ch s)) = String.◌∷◌ ch s

abbrev pub tool_outcome : ToolResultStatus → RuntimeAuditOutcome
tool_outcome ToolResultStatus.succeeded = RuntimeAuditOutcome.succeeded
tool_outcome ToolResultStatus.denied = RuntimeAuditOutcome.denied
tool_outcome _ = RuntimeAuditOutcome.failed

module _ {W O P R : Type 0} (c : Collaborators W O P R) (limits : RuntimeLimits)
    (digest : Canonical → ℕ) where
  -- `if state.failures >= max_failures: return await self._finish(...)`
  unfoldable pub check_failures : Action W (Unit {0})
  check_failures s =
      if leb limits.max_failures s.state.failures
      then finish c limits RuntimeTerminalStatus.failed RuntimeTerminalReason.max_failures_reached s
      else pure tt s

  -- The three reasoning steps before an action, each followed by the token check.
  unfoldable pub think : Action W RuntimeDecision
  think = do
    observation ← reason_step c limits RuntimeStep.observe c.observe none
    check_tokens c limits
    plan ← reason_step c limits RuntimeStep.plan (c.plan observation) none
    check_tokens c limits
    decision ← reason_step c limits RuntimeStep.decide (c.decide observation plan) none
    check_tokens c limits
    pure decision

  -- A reasoning failure: it is counted, and the next iteration begins unless there are too many.
  unfoldable pub thinking_failed : {A : Type 0} → ℕ → RuntimeErrorCode → Action W A
  thinking_failed iteration RuntimeErrorCode.audit_failed =
      leave (raised (runtime_error RuntimeErrorCode.audit_failed))
  thinking_failed iteration _ = do
    update count_failure
    update (append_entry limits.max_history_entries (entry iteration RuntimeStep.decide none none))
    check_failures
    leave continued

  unfoldable pub verifying_failed : {A : Type 0} → RuntimeErrorCode → Action W A
  verifying_failed RuntimeErrorCode.audit_failed =
      leave (raised (runtime_error RuntimeErrorCode.audit_failed))
  verifying_failed _ = do update count_failure; check_failures; leave continued

  unfoldable pub tool_audit_failed : {A : Type 0} → RuntimeDecision → Action W A
  tool_audit_failed d = do
    audit_step c limits RuntimeStep.act RuntimeAuditOutcome.failed (some d)
        (some ToolErrorCode.audit_failed)
    audit_step c limits RuntimeStep.observe_result RuntimeAuditOutcome.started (some d) none
    audit_step c limits RuntimeStep.observe_result RuntimeAuditOutcome.failed (some d)
        (some ToolErrorCode.audit_failed)
    terminal_failure c limits RuntimeTerminalReason.audit_failed

  -- The call of the tool, with the audit records round it.
  unfoldable pub call_tool : RuntimeDecision → Action W ToolResult
  call_tool d = do
    audit_step c limits RuntimeStep.act RuntimeAuditOutcome.started (some d) none
    update count_tool_call
    result ←
        catch_tool_audit_error (await (c.execute (tool_or_invalid d.tool_name) d.arguments))
          (tool_audit_failed d)
    audit_step c limits RuntimeStep.act (tool_outcome result.status) (some d) result.error_code
    audit_step c limits RuntimeStep.observe_result RuntimeAuditOutcome.started (some d) none
    audit_step c limits RuntimeStep.observe_result (tool_outcome result.status) (some d)
        result.error_code
    pure result

  -- The same behind the tool-call budget.
  unfoldable pub act : RuntimeDecision → Action W ToolResult
  act d s =
      if leb limits.max_tool_calls s.state.tool_calls
      then terminal c limits RuntimeTerminalStatus.limit_reached
          RuntimeTerminalReason.max_tool_calls_reached s
      else call_tool d s

  -- What an unsuccessful tool result leads to.
  unfoldable pub check_error : Option ToolErrorCode → Action W (Unit {0})
  check_error (some ToolErrorCode.permission_denied) =
      finish c limits RuntimeTerminalStatus.escalated RuntimeTerminalReason.permission_denied
  check_error (some ToolErrorCode.approval_required) =
      finish c limits RuntimeTerminalStatus.escalated RuntimeTerminalReason.human_approval_required
  check_error _ = do update count_failure; check_failures

  unfoldable pub check_result : ToolResultStatus → Option ToolErrorCode → Action W (Unit {0})
  check_result ToolResultStatus.succeeded code = pure tt
  check_result _ code = check_error code

  -- The detector's `observe`, and what a stagnating loop leads to.
  unfoldable pub check_stagnation :
      RuntimeDecision → RuntimeVerification → Option ToolErrorCode → Action W (Unit {0})
  check_stagnation d v code s =
      let seen =
        observe_digest limits.stagnation_window (digest (canonical d (some v) code)) s.digests in
      let s' : Run W = record s { digests = seen.0 } in
      if seen.1
      then finish c limits RuntimeTerminalStatus.escalated RuntimeTerminalReason.stagnation_detected
          s'
      else pure tt s'

  unfoldable pub conclude_verification :
      RuntimeDecision
      → Option ToolErrorCode
      → RuntimeVerification
      → RuntimeVerificationOutcome
      → Action W (Unit {0})
  conclude_verification d code v RuntimeVerificationOutcome.complete =
      finish c limits RuntimeTerminalStatus.completed RuntimeTerminalReason.task_completed
  conclude_verification d code v RuntimeVerificationOutcome.escalate =
      finish c limits RuntimeTerminalStatus.escalated RuntimeTerminalReason.agent_escalated
  conclude_verification d code v RuntimeVerificationOutcome.continue = check_stagnation d v code

  -- From the verification to the end of the body.
  unfoldable pub settle : ℕ → RuntimeDecision → ToolResult → Action W (Unit {0})
  settle iteration d result = do
    v ←
        catch_runtime_error (reason_step c limits RuntimeStep.verify (c.verify d result) (some d))
          verifying_failed
    check_tokens c limits
    update (
        append_entry limits.max_history_entries
          (entry iteration RuntimeStep.verify (some d) result.error_code))
    conclude_verification d result.error_code v v.outcome

  -- What the decision's action leads to.
  unfoldable pub take_action : ℕ → RuntimeDecision → RuntimeAction → Action W (Unit {0})
  take_action i d RuntimeAction.complete =
      finish c limits RuntimeTerminalStatus.completed RuntimeTerminalReason.task_completed
  take_action i d RuntimeAction.escalate =
      finish c limits RuntimeTerminalStatus.escalated RuntimeTerminalReason.agent_escalated
  take_action i d RuntimeAction.tool_call = do
    result ← act d
    check_result result.status result.error_code
    settle i d result

  -- The body of the loop of `_execute`.
  unfoldable pub iteration : ℕ → Action W (Unit {0})
  iteration i = do
    update (λ s. record s { iterations = i })
    d ← catch_runtime_error think (thinking_failed i)
    update (append_entry limits.max_history_entries (entry i RuntimeStep.decide (some d) none))
    take_action i d d.action

  -- `for iteration in range(i, max_iterations + 1)`, with the number of rounds left.
  unfoldable pub iterate : ℕ → ℕ → Action W (Unit {0})
  iterate zero i s =
      terminal c limits RuntimeTerminalStatus.limit_reached
        RuntimeTerminalReason.max_iterations_reached s
  iterate (suc rounds) i s =
      let (r, s') = iteration i s in
      elim r [
        | value _ ↦ iterate rounds (suc i) s'
        | exit continued ↦ iterate rounds (suc i) s'
        | exit e ↦ (exit e, s')
      ]

  -- `_execute`
  unfoldable pub execute : Action W (Unit {0})
  execute = iterate limits.max_iterations 1

  -- `_result`: building the result checks it.
  unfoldable pub result_of :
      RuntimeTerminalStatus → RuntimeTerminalReason → RunState → Reply RuntimeResult
  result_of status reason state =
      let r : RuntimeResult = record { status = status; reason = reason; state = state } in
      if is_valid_result r then answer r else raise other

  -- Building the record of a cancellation checks it.
  unfoldable pub record_cancelled : RuntimeAuditRecord → Action W (Unit {0})
  record_cancelled r s =
      if is_valid_record r then await (c.record_cancellation r) s else leave (raised other) s

  -- The handlers of `run`. A handler's own failure is not handled.
  unfoldable pub conclude : Exit → Run W → Reply RuntimeResult × Run W
  conclude (returned status reason) s = (result_of status reason s.state, s)
  conclude (raised cancelled) s =
      let record_of =
        terminal_record s.state RuntimeAuditOutcome.cancelled RuntimeTerminalReason.cancelled in
      let (r, s') = record_cancelled record_of s in
      (
        raise (elim r [
          | exit (raised (runtime_error _)) ↦ cancelled
          | exit (raised e) ↦ e
          | _ ↦ cancelled
        ]),
        s',
      )
  conclude (raised timeout) s =
      let (r, s') =
        terminal_audit c limits RuntimeAuditOutcome.timed_out RuntimeTerminalReason.global_timeout
          s in
      (
        elim r [
          | exit (raised e) ↦ raise e
          | _ ↦
              result_of RuntimeTerminalStatus.timed_out RuntimeTerminalReason.global_timeout
                s'.state
        ],
        s',
      )
  conclude (raised (runtime_error RuntimeErrorCode.audit_failed)) s =
      (result_of RuntimeTerminalStatus.failed RuntimeTerminalReason.audit_failed s.state, s)
  conclude (raised e) s = (raise e, s)
  conclude continued s = (raise other, s)

  -- `run`, for a task of the context's scope or not.
  unfoldable pub run : Bool → W → Reply RuntimeResult × W
  run false w = (raise (runtime_error RuntimeErrorCode.invalid_request), w)
  run true w =
      let (r, s) = execute (record { state = fresh_run; digests = []; world = w }) in
      let (reply, s') = conclude (elim r [ exit e ↦ e | value _ ↦ continued ]) s in
      (reply, s'.world)
