-- ===== src/Tools/Types.antt =====
-- core/tools/types.py, core/tools/audit.py and core/tools/tool.py: the values of a tool's execution.
-- Durations and texts that are fixed by an error code are left out.
use synapse_os.Base.{ℕ, Bool, List, Option, String}
use synapse_os.Enums.{Permission, ToolRiskLevel}
use synapse_os.Runtime.Types.{JsonValue, ToolErrorCode, ToolResultStatus}

pub data ToolAuditOutcome : Type 0 where
  succeeded failed denied timed_out cancelled : ToolAuditOutcome

-- What `ToolExecutor.execute` raises: a `ToolInputError`, a `ToolAuditError`, a `ToolError` of a
-- compensation, a cancellation, or another exception.
pub data ToolRaise : Type 0 where
  input_error audit_error compensation_error cancelled other : ToolRaise

-- `ToolExecutionContext`, without the root of the workspace.
pub record ToolExecutionContext : Type 0 where
  pub agent_id : String
  pub agent_run_id : ℕ
  pub project_id : ℕ
  pub task_id : ℕ
  pub declared_tool_ids : List String
  pub correlation_id : ℕ

pub record ToolAuditStart : Type 0 where
  pub tool_name : String
  pub agent_id : String
  pub agent_run_id : ℕ
  pub project_id : ℕ
  pub task_id : ℕ
  pub correlation_id : ℕ
  pub argument_count : ℕ

pub record ToolAuditFinish : Type 0 where
  pub outcome : ToolAuditOutcome
  pub truncated : Bool
  pub output_field_count : ℕ
  pub output_bytes : ℕ
  pub error_code : Option ToolErrorCode

abbrev pub Fields : Type 0
Fields = List (String × JsonValue)

pub record ToolResult : Type 0 where
  pub tool_name : String
  pub status : ToolResultStatus
  pub output : Fields
  pub error_code : Option ToolErrorCode
  pub truncated : Bool
  pub tool_call_id : ℕ

-- `ToolTransaction`: each says whether it went through.
pub record ToolTransaction (W : Type 0) : Type 0 where
  pub commit : W → Bool × W
  pub rollback : W → Bool × W

-- How an awaited tool ends: with an output, which may be no mapping of texts and may come with a
-- transaction, or with one of the exceptions.
pub data ToolReply (W : Type 0) : Type 0 where
  output : Option Fields → Option (ToolTransaction W) → ToolReply W
  timed_out cancelled crashed : ToolReply W
  tool_error : ToolErrorCode → ToolReply W

-- A registered tool. Its timeout is a finite number of microseconds; `has_closed_schema` says that its
-- input type is a model that forbids extra fields and has a JSON schema; `prepare` validates the arguments and gives the call to await.
pub record Tool (W : Type 0) : Type 0 where
  pub name : String
  pub description : String
  pub required_permissions : List Permission
  pub risk_level : ToolRiskLevel
  pub timeout : ℕ
  pub has_closed_schema : Bool
  pub prepare : Fields → Option (ToolExecutionContext → W → ToolReply W × W)
