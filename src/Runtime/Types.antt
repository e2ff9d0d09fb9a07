-- ===== src/Runtime/Types.antt =====
-- core/runtime/types.py, core/runtime/errors.py and core/runtime/audit.py: the values of the loop.
-- Times are left out (`timeout_seconds`, `duration_ms`): when the global timeout strikes is for the
-- awaited collaborators to say.
use synapse_os.Base.{ℕ, ◌≤◌, Bool, true, false, ◌&&◌, List, [], Option, String, leb, length}

pub data RuntimeStep : Type 0 where
  observe plan decide act observe_result verify report : RuntimeStep

pub data RuntimeAction : Type 0 where
  tool_call complete escalate : RuntimeAction

pub data RuntimeVerificationOutcome : Type 0 where
  continue complete escalate : RuntimeVerificationOutcome

pub data RuntimeTerminalStatus : Type 0 where
  completed escalated limit_reached timed_out failed : RuntimeTerminalStatus

pub data RuntimeTerminalReason : Type 0 where
  task_completed agent_escalated human_approval_required permission_denied stagnation_detected
        max_iterations_reached max_tool_calls_reached token_budget_reached global_timeout
        max_failures_reached audit_failed invalid_llm_output cancelled :
      RuntimeTerminalReason

pub data RuntimeErrorCode : Type 0 where
  invalid_request llm_failed llm_output_invalid audit_failed tool_failed budget_exceeded :
      RuntimeErrorCode

pub data RuntimeAuditOutcome : Type 0 where
  started succeeded failed denied timed_out cancelled escalated limit_reached : RuntimeAuditOutcome

-- `ToolErrorCode` and `ToolResultStatus` of core/tools/types.py
pub data ToolErrorCode : Type 0 where
  tool_not_found tool_not_declared permission_denied approval_required permission_audit_failed
        invalid_input workspace_violation unsupported_file output_limit tool_failed audit_failed
        tool_timed_out cancelled target_not_found target_conflict patch_mismatch mutation_failed
        compensation_failed :
      ToolErrorCode

pub data ToolResultStatus : Type 0 where
  succeeded failed denied timed_out : ToolResultStatus

-- `RuntimeTerminalStatus.accepts`, with the table `_STATUS_REASONS`
unfoldable pub accepts : RuntimeTerminalStatus → RuntimeTerminalReason → Bool
accepts completed RuntimeTerminalReason.task_completed = true
accepts escalated RuntimeTerminalReason.agent_escalated = true
accepts escalated RuntimeTerminalReason.human_approval_required = true
accepts escalated RuntimeTerminalReason.permission_denied = true
accepts escalated RuntimeTerminalReason.stagnation_detected = true
accepts limit_reached RuntimeTerminalReason.max_iterations_reached = true
accepts limit_reached RuntimeTerminalReason.max_tool_calls_reached = true
accepts limit_reached RuntimeTerminalReason.token_budget_reached = true
accepts timed_out RuntimeTerminalReason.global_timeout = true
accepts failed RuntimeTerminalReason.max_failures_reached = true
accepts failed RuntimeTerminalReason.audit_failed = true
accepts failed RuntimeTerminalReason.invalid_llm_output = true
accepts _ _ = false

pub record RuntimeLimits : Type 0 where
  pub max_iterations : ℕ
  pub max_tool_calls : ℕ
  pub max_failures : ℕ
  pub max_tokens : ℕ
  pub max_history_entries : ℕ
  pub stagnation_window : ℕ
  pub max_step_tokens : ℕ

-- The field bounds of `RuntimeLimits`, and its model validator.
pub record IsValidLimits (l : RuntimeLimits) : Type 0 where
  pub iterations : (l.max_iterations ≤ 100) × (1 ≤ l.max_iterations)
  pub tool_calls : l.max_tool_calls ≤ 1000
  pub failures : l.max_failures ≤ 100
  pub tokens : (l.max_tokens ≤ 10_000_000) × (1 ≤ l.max_tokens)
  pub history : (l.max_history_entries ≤ 1000) × (1 ≤ l.max_history_entries)
  pub window : (2 ≤ l.stagnation_window) × (l.stagnation_window ≤ 20)
  pub retained : l.stagnation_window ≤ l.max_history_entries
  pub step_tokens : (l.max_step_tokens ≤ 131_072) × (1 ≤ l.max_step_tokens)

-- `JsonValue` of core/tools/types.py; a float is only ever asked for its kind.
mutual
  pub data JsonValue : Type 0 where
    null number : JsonValue
    boolean : Bool → JsonValue
    string : String → JsonValue
    integer : ℕ → JsonValue
    list : JsonItems → JsonValue
    object : JsonFields → JsonValue

  pub data JsonItems : Type 0 where
    nil : JsonItems
    cons : JsonValue → JsonItems → JsonItems

  pub data JsonFields : Type 0 where
    end : JsonFields
    field : String → JsonValue → JsonFields → JsonFields

pub record RuntimeDecision : Type 0 where
  pub action : RuntimeAction
  pub tool_name : Option String
  pub arguments : JsonValue

pub record RuntimeVerification : Type 0 where
  pub outcome : RuntimeVerificationOutcome
  pub progress_made : Bool

-- `ReasonerOutput[ValueT]`
pub record ReasonerOutput (A : Type 0) : Type 0 where
  pub value : A
  pub reported_tokens : ℕ
  pub usage_available : Bool

-- What the loop reads of a `ToolResult`.
pub record ToolResult : Type 0 where
  pub status : ToolResultStatus
  pub error_code : Option ToolErrorCode

pub record RuntimeHistoryEntry : Type 0 where
  pub iteration : ℕ
  pub step : RuntimeStep
  pub action : Option RuntimeAction
  pub tool_name : Option String
  pub tool_error_code : Option ToolErrorCode

-- `RuntimeAuditRecord`, without the identities of the run and the duration.
pub record RuntimeAuditRecord : Type 0 where
  pub iteration : ℕ
  pub step : RuntimeStep
  pub outcome : RuntimeAuditOutcome
  pub tool_calls : ℕ
  pub failures : ℕ
  pub reported_tokens : ℕ
  pub reason : Option RuntimeTerminalReason
  pub action : Option RuntimeAction
  pub tool_name : Option String
  pub error_code : Option ToolErrorCode

-- The numeric bounds that building a `RuntimeAuditRecord` checks.
unfoldable pub is_valid_record : RuntimeAuditRecord → Bool
is_valid_record r =
    leb r.iteration 100
    && leb r.tool_calls 1000
    && leb r.failures 100
    && leb r.reported_tokens 10_000_000

-- `_RunState`, without its clocks.
pub record RunState : Type 0 where
  pub iterations : ℕ
  pub tool_calls : ℕ
  pub failures : ℕ
  pub reported_tokens : ℕ
  pub usage_available : Bool
  pub history : List RuntimeHistoryEntry

abbrev pub fresh_run : RunState
fresh_run = record {
  iterations = 0;
  tool_calls = 0;
  failures = 0;
  reported_tokens = 0;
  usage_available = true;
  history = [];
}

-- `RuntimeResult`, without the summary, the duration and the report, which is always `None`.
pub record RuntimeResult : Type 0 where
  pub status : RuntimeTerminalStatus
  pub reason : RuntimeTerminalReason
  pub state : RunState

-- What building a `RuntimeResult` checks: its bounds, and that the reason belongs to the status.
unfoldable pub is_valid_result : RuntimeResult → Bool
unfolding accepts
is_valid_result r =
    leb r.state.iterations 100
    && leb r.state.tool_calls 1000
    && leb r.state.failures 100
    && leb r.state.reported_tokens 10_000_000
    && leb (length r.state.history) 1000
    && accepts r.status r.reason
