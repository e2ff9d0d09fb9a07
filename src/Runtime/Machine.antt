-- ===== src/Runtime/Machine.antt =====
-- The parts of `AgentRuntime` of core/runtime/runtime.py that its loop is made of, as actions on the
-- state of a run. An action ends with a value, leaves the loop's body by `return` or `continue`, or
-- raises; the state reached stays in every case.
use synapse_os.Base.{
  ℕ, ◌+◌, ◌-◌, ◌&&◌, List, [], ◌∷◌, ◌++◌, Option, none, some, String, leb, length, drop,
  if◌then◌else◌,
}
use synapse_os.Runtime.Types.{
  RuntimeStep, RuntimeTerminalStatus, RuntimeTerminalReason, RuntimeErrorCode, RuntimeAuditOutcome,
  ToolErrorCode, RuntimeLimits, JsonValue, RuntimeDecision, RuntimeVerification, ReasonerOutput,
  ToolResult, RuntimeHistoryEntry, RuntimeAuditRecord, is_valid_record, RunState,
}

-- What an await may raise: a `RuntimeError` with its code, the global timeout, a cancellation, a
-- `ToolAuditError`, or anything else, such as a validation error.
pub data Raised : Type 0 where
  runtime_error : RuntimeErrorCode → Raised
  timeout cancelled tool_audit_error other : Raised

pub data Reply (A : Type 0) : Type 0 where
  answer : A → Reply A
  raise : Raised → Reply A

-- How the body of the loop is left other than at its end.
pub data Exit : Type 0 where
  returned : RuntimeTerminalStatus → RuntimeTerminalReason → Exit
  continued : Exit
  raised : Raised → Exit

pub data Flow (A : Type 0) : Type 0 where
  value : A → Flow A
  exit : Exit → Flow A

-- What is injected into the runtime: the reasoner, the tool executor and the audit recorder, over
-- the state `W` of the outside world. The task and the context of a run stay the same and are left
-- out; `digest` is the hash of the encoded fingerprint.
pub record Collaborators (W Observation Plan Report : Type 0) : Type 0 where
  pub observe : List RuntimeHistoryEntry → W → Reply (ReasonerOutput Observation) × W
  pub plan : Observation → List RuntimeHistoryEntry → W → Reply (ReasonerOutput Plan) × W
  pub decide :
      Observation → Plan → List RuntimeHistoryEntry → W → Reply (ReasonerOutput RuntimeDecision) × W
  pub verify :
      RuntimeDecision
      → ToolResult
      → List RuntimeHistoryEntry
      → W
      → Reply (ReasonerOutput RuntimeVerification) × W
  pub report :
      RuntimeTerminalStatus
      → RuntimeTerminalReason
      → List RuntimeHistoryEntry
      → W
      → Reply (ReasonerOutput Report) × W
  pub execute : String → JsonValue → W → Reply ToolResult × W
  pub record_audit : RuntimeAuditRecord → W → Reply (Unit {0}) × W
  pub record_cancellation : RuntimeAuditRecord → W → Reply (Unit {0}) × W

-- The state of one call of `run`: `_RunState`, the detector's digests, and the world.
pub record Run (W : Type 0) : Type 0 where
  pub state : RunState
  pub digests : List ℕ
  pub world : W

abbrev pub Action : Type 0 → Type 0 → Type 0
Action W A = Run W → Flow A × Run W

module _ {W : Type 0} where
  infixl 5 ◌>>=◌ ◌>>◌
  abbrev pub ◌>>=◌ : {A B : Type 0} → Action W A → (A → Action W B) → Action W B
  ◌>>=◌ m f s = let (r, s') = m s in elim r [ value a ↦ f a s' | exit e ↦ (exit e, s') ]

  abbrev pub ◌>>◌ : {A B : Type 0} → Action W A → Action W B → Action W B
  m >> k = m >>= λ _. k

  abbrev pub pure : {A : Type 0} → A → Action W A
  pure a s = (value a, s)

  abbrev pub leave : {A : Type 0} → Exit → Action W A
  leave e s = (exit e, s)

  -- An awaited call: what it raises passes through.
  abbrev pub await : {A : Type 0} → (W → Reply A × W) → Action W A
  await call s =
      let (r, w) = call s.world in
      (elim r [ answer a ↦ value a | raise e ↦ exit (raised e) ], record s { world = w })

  abbrev pub update : (RunState → RunState) → Action W (Unit {0})
  update f s = (value tt, record s { state = f s.state })

  abbrev pub get_state : Action W RunState
  get_state s = (value s.state, s)

  -- `try: m except RuntimeError as error: handler`
  abbrev pub catch_runtime_error :
      {A : Type 0} → Action W A → (RuntimeErrorCode → Action W A) → Action W A
  catch_runtime_error m handler s =
      let (r, s') = m s in
      elim r [
        | value a ↦ (value a, s')
        | exit (raised (runtime_error code)) ↦ handler code s'
        | exit e ↦ (exit e, s')
      ]

  -- `try: m except ToolAuditError: handler`, round the call of the tool executor
  abbrev pub catch_tool_audit_error : {A : Type 0} → Action W A → Action W A → Action W A
  catch_tool_audit_error m handler s =
      let (r, s') = m s in
      elim r [
        | value a ↦ (value a, s')
        | exit (raised tool_audit_error) ↦ handler s'
        | exit e ↦ (exit e, s')
      ]

-- `_RunState.append`: the newest `max_history` entries are kept, where `max_history` is at least 1.
unfoldable pub append_entry : ℕ → RuntimeHistoryEntry → RunState → RunState
append_entry max_history entry s =
    let entries = s.history ++ entry ∷ [] in
    record s { history = drop (length entries - max_history) entries }

abbrev pub count_failure : RunState → RunState
count_failure s = record s { failures = s.failures + 1 }

abbrev pub count_tool_call : RunState → RunState
count_tool_call s = record s { tool_calls = s.tool_calls + 1 }

abbrev pub count_tokens : {A : Type 0} → ReasonerOutput A → RunState → RunState
count_tokens output s = record s {
  reported_tokens = s.reported_tokens + output.reported_tokens;
  usage_available = s.usage_available && output.usage_available;
}

-- The record that `_audit_step` builds.
abbrev pub step_record :
    RunState
    → RuntimeStep
    → RuntimeAuditOutcome
    → Option RuntimeDecision
    → Option ToolErrorCode
    → RuntimeAuditRecord
step_record s step outcome decision code = record {
  iteration = s.iterations;
  step = step;
  outcome = outcome;
  tool_calls = s.tool_calls;
  failures = s.failures;
  reported_tokens = s.reported_tokens;
  reason = none;
  action = elim decision [ none ↦ none | some d ↦ some d.action ];
  tool_name = elim decision [ none ↦ none | some d ↦ d.tool_name ];
  error_code = code;
}

-- `_build_terminal_audit_record`
abbrev pub terminal_record :
    RunState → RuntimeAuditOutcome → RuntimeTerminalReason → RuntimeAuditRecord
terminal_record s outcome reason = record {
  iteration = s.iterations;
  step = RuntimeStep.report;
  outcome = outcome;
  tool_calls = s.tool_calls;
  failures = s.failures;
  reported_tokens = s.reported_tokens;
  reason = some reason;
  action = none;
  tool_name = none;
  error_code = none;
}

module _ {W O P R : Type 0} (c : Collaborators W O P R) (limits : RuntimeLimits) where
  -- Building a record checks its bounds, and the recorder may refuse it.
  unfoldable pub record_one : RuntimeAuditRecord → Action W (Unit {0})
  record_one r s = if is_valid_record r then await (c.record_audit r) s else leave (raised other) s

  unfoldable pub audit_step :
      RuntimeStep
      → RuntimeAuditOutcome
      → Option RuntimeDecision
      → Option ToolErrorCode
      → Action W (Unit {0})
  audit_step step outcome decision code s =
      record_one (step_record s.state step outcome decision code) s

  unfoldable pub terminal_audit : RuntimeAuditOutcome → RuntimeTerminalReason → Action W (Unit {0})
  terminal_audit outcome reason s = record_one (terminal_record s.state outcome reason) s

  -- The awaited operation of `_reason`, whose failure is recorded and raised again.
  unfoldable pub ask :
      {A : Type 0}
      → RuntimeStep
      → (List RuntimeHistoryEntry → W → Reply (ReasonerOutput A) × W)
      → Option RuntimeDecision
      → Action W (ReasonerOutput A)
  ask step operation decision s =
      catch_runtime_error (await (operation s.state.history))
        (λ code. do
          audit_step step RuntimeAuditOutcome.failed decision none
          leave (raised (runtime_error code)))
        s

  -- `_reason`
  unfoldable pub reason_step :
      {A : Type 0}
      → RuntimeStep
      → (List RuntimeHistoryEntry → W → Reply (ReasonerOutput A) × W)
      → Option RuntimeDecision
      → Action W A
  reason_step step operation decision = do
    audit_step step RuntimeAuditOutcome.started decision none
    output ← ask step operation decision
    update (count_tokens output)
    audit_step step RuntimeAuditOutcome.succeeded decision none
    pure output.value

  -- `_terminal`
  unfoldable pub terminal :
      {A : Type 0} → RuntimeTerminalStatus → RuntimeTerminalReason → Action W A
  terminal status reason = do
    terminal_audit
        (elim status [
          | RuntimeTerminalStatus.limit_reached ↦ RuntimeAuditOutcome.limit_reached
          | _ ↦ RuntimeAuditOutcome.escalated
        ])
        reason
    leave (returned status reason)

  -- `_terminal_failure`
  unfoldable pub terminal_failure : {A : Type 0} → RuntimeTerminalReason → Action W A
  terminal_failure reason = do
    terminal_audit RuntimeAuditOutcome.failed reason
    leave (returned RuntimeTerminalStatus.failed reason)

  -- `if self._token_budget_reached(state): return self._token_terminal(context, state)`
  unfoldable pub check_tokens : Action W (Unit {0})
  check_tokens s =
      if leb limits.max_tokens s.state.reported_tokens
      then terminal RuntimeTerminalStatus.limit_reached RuntimeTerminalReason.token_budget_reached s
      else pure tt s

  -- `except RuntimeError` of `_finish`
  unfoldable pub report_failed : {A : Type 0} → RuntimeErrorCode → Action W A
  report_failed RuntimeErrorCode.audit_failed =
      leave (raised (runtime_error RuntimeErrorCode.audit_failed))
  report_failed _ = do
    update count_failure
    terminal_failure RuntimeTerminalReason.invalid_llm_output

  -- `_finish`
  unfoldable pub finish : {A : Type 0} → RuntimeTerminalStatus → RuntimeTerminalReason → Action W A
  finish status reason = do
    check_tokens
    catch_runtime_error (reason_step RuntimeStep.report (c.report status reason) none) report_failed
    check_tokens
    terminal_audit RuntimeAuditOutcome.succeeded reason
    leave (returned status reason)
