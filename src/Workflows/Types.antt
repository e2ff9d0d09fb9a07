-- ===== src/Workflows/Types.antt =====
-- The values of core/workflows/types.py, errors.py, audit.py and validation.py that a workflow run
-- passes on. Scores count millionths.
use synapse_os.Base.{ℕ, Option, String}
use synapse_os.Enums.{TaskStatus}
use synapse_os.Tasks.Event.{AuditEvent}
use synapse_os.Tasks.StateMachine.{TransitionError}

pub data WorkflowErrorCode : Type 0 where
  invalid_input invalid_scope invalid_state invalid_role invalid_agent unsafe_handoff timeout
        collaborator_failure persistence_failure internal_failure :
      WorkflowErrorCode

pub data ReviewDecision : Type 0 where
  approved changes_requested : ReviewDecision

pub data WorkflowOutcome : Type 0 where
  approved review_cycles_exhausted : WorkflowOutcome

pub data WorkflowEventType : Type 0 where
  workflow_started developer_handoff_created review_completed review_cycle_exhausted
        workflow_completed :
      WorkflowEventType

-- `ValidatedWorkflowScope`: the persistent agents, and the bound of the request.
pub record Scope : Type 0 where
  pub developer_id : ℕ
  pub developer_slug : String
  pub reviewer_slug : String
  pub max_review_cycles : ℕ

-- The row of the task.
pub record TaskRow : Type 0 where
  pub id : ℕ
  pub project_id : ℕ
  pub status : TaskStatus
  pub assigned_agent_id : Option ℕ

-- The data of a workflow event.
pub data EventData : Type 0 where
  of_start : String → String → ℕ → EventData
  of_cycle : ℕ → EventData
  of_review : ℕ → ReviewDecision → ℕ → ℕ → EventData
  of_exhaustion : ℕ → ℕ → EventData

pub record WorkflowEvent : Type 0 where
  pub event_type : WorkflowEventType
  pub actor_id : String
  pub project_id : ℕ
  pub task_id : ℕ
  pub data_of : EventData

-- A row of the audit table: a change of status, or a workflow event.
pub data LogEntry : Type 0 where
  changed : AuditEvent → LogEntry
  recorded : WorkflowEvent → LogEntry

-- What a checkpoint's stage raises.
pub data StageError : Type 0 where
  workflow : WorkflowErrorCode → StageError
  transition : TransitionError → StageError

pub record ReviewerResult : Type 0 where
  pub decision : ReviewDecision
  pub review_score : ℕ
  pub finding_count : ℕ

pub record WorkflowResult : Type 0 where
  pub task_status : TaskStatus
  pub outcome : WorkflowOutcome
  pub max_review_cycles : ℕ
  pub developer_cycles : ℕ
  pub reviewer_cycles : ℕ
  pub reviewer_result : ReviewerResult
