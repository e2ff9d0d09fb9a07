-- ===== src/Workflows/Stages.antt =====
-- The stages of core/workflows/audit.py: what a checkpoint writes to the task and the audit table.
use synapse_os.Base.{
  ℕ, Bool, true, false, not, ◌&&◌, ◌||◌, ◌==◌, leb, List, [], ◌∷◌, ◌++◌, Option, none, some, String,
  if◌then◌else◌, Result, ok, err, ◌>>=◌, ◌>>◌, require,
}
use synapse_os.Enums.{TaskStatus, AuditActorType}
use synapse_os.Tasks.StateMachine.{transition_task}
use synapse_os.Workflows.Types.{
  WorkflowErrorCode, ReviewDecision, WorkflowEventType, Scope, TaskRow, EventData, of_start,
  of_cycle, of_review, of_exhaustion, LogEntry, changed, recorded, StageError, workflow,
}

abbrev pub is_given {ℓ} : {A : Type ℓ} → Option A → Bool
is_given none = false
is_given (some a) = true

-- The arguments of an event: cycle, decision, score, findings and the bound.
pub record EventArguments : Type 0 where
  pub cycle : Option ℕ
  pub decision : Option ReviewDecision
  pub review_score : Option ℕ
  pub finding_count : Option ℕ
  pub max_review_cycles : Option ℕ

abbrev pub no_arguments : EventArguments
no_arguments = record {
  cycle = none;
  decision = none;
  review_score = none;
  finding_count = none;
  max_review_cycles = none;
}

abbrev pub invalid {ℓ} : {A : Type ℓ} → Result WorkflowErrorCode A
invalid = err WorkflowErrorCode.invalid_input

unfoldable pub require_cycle : Scope → Option ℕ → Result WorkflowErrorCode ℕ
require_cycle scope none = invalid
require_cycle scope (some cycle) =
    if leb 1 cycle && leb cycle scope.max_review_cycles then ok cycle else invalid

unfoldable pub require_review_decision :
    Option ReviewDecision → Result WorkflowErrorCode ReviewDecision
require_review_decision none = invalid
require_review_decision (some decision) = ok decision

unfoldable pub require_review_score : Option ℕ → Result WorkflowErrorCode ℕ
require_review_score none = invalid
require_review_score (some score) = if leb score 1_000_000 then ok score else invalid

unfoldable pub require_finding_count : Option ℕ → Result WorkflowErrorCode ℕ
require_finding_count none = invalid
require_finding_count (some count) = if leb count 128 then ok count else invalid

unfoldable pub require_max_review_cycles : Scope → Option ℕ → Result WorkflowErrorCode ℕ
require_max_review_cycles scope none = invalid
require_max_review_cycles scope (some bound) =
    if bound == scope.max_review_cycles then ok bound else invalid

-- `_event_data`, with `_require_absent` written out.
unfoldable pub event_data :
    Scope → WorkflowEventType → EventArguments → Result WorkflowErrorCode EventData
unfolding require_cycle require_review_decision require_review_score require_finding_count
    require_max_review_cycles
event_data scope WorkflowEventType.workflow_started a = do
  require
      (not (
        is_given a.cycle
        || is_given a.decision
        || is_given a.review_score
        || is_given a.finding_count
        || is_given a.max_review_cycles))
      WorkflowErrorCode.invalid_input
  ok (of_start scope.developer_slug scope.reviewer_slug scope.max_review_cycles)
event_data scope WorkflowEventType.developer_handoff_created a = do
  require
      (not (
        is_given a.decision
        || is_given a.review_score
        || is_given a.finding_count
        || is_given a.max_review_cycles))
      WorkflowErrorCode.invalid_input
  cycle ← require_cycle scope a.cycle
  ok (of_cycle cycle)
event_data scope WorkflowEventType.review_completed a = do
  require (not (is_given a.max_review_cycles)) WorkflowErrorCode.invalid_input
  cycle ← require_cycle scope a.cycle
  decision ← require_review_decision a.decision
  score ← require_review_score a.review_score
  count ← require_finding_count a.finding_count
  ok (of_review cycle decision score count)
event_data scope WorkflowEventType.review_cycle_exhausted a = do
  require (not (is_given a.decision || is_given a.review_score || is_given a.finding_count))
      WorkflowErrorCode.invalid_input
  cycle ← require_cycle scope a.cycle
  bound ← require_max_review_cycles scope a.max_review_cycles
  require (cycle == bound) WorkflowErrorCode.invalid_input
  ok (of_exhaustion cycle bound)
event_data scope WorkflowEventType.workflow_completed a = do
  require
      (not (
        is_given a.decision
        || is_given a.review_score
        || is_given a.finding_count
        || is_given a.max_review_cycles))
      WorkflowErrorCode.invalid_input
  cycle ← require_cycle scope a.cycle
  ok (of_cycle cycle)

abbrev pub event_actor : Scope → WorkflowEventType → String
event_actor scope WorkflowEventType.workflow_started = scope.developer_slug
event_actor scope WorkflowEventType.developer_handoff_created = scope.developer_slug
event_actor scope _ = scope.reviewer_slug

-- What a stage leaves: the task's row, and the rows for the audit table.
abbrev pub Staged : Type 0
Staged = TaskRow × List LogEntry

abbrev pub Stage : Type 0
Stage = Staged → Result StageError Staged

abbrev pub checked {ℓ} : {A : Type ℓ} → Result WorkflowErrorCode A → Result StageError A
checked (ok a) = ok a
checked (err code) = err (workflow code)

-- `_stage_workflow_event`
unfoldable pub stage_event : Scope → WorkflowEventType → EventArguments → Stage
stage_event scope event_type arguments staged = do
  data_of ← checked (event_data scope event_type arguments)
  ok (
    staged.0,
    staged.1
        ++ recorded (record {
          event_type = event_type;
          actor_id = event_actor scope event_type;
          project_id = staged.0.project_id;
          task_id = staged.0.id;
          data_of = data_of;
        })
          ∷ [],
  )

-- `_transition`, by the task state machine.
unfoldable pub move : TaskStatus → AuditActorType → Option String → String → Stage
move target actor_type actor_id reason staged =
    elim (transition_task
      (record {
        id = staged.0.id;
        project_id = staged.0.project_id;
        persisted = staged.0.status;
        status = staged.0.status;
        authorization = none;
      })
      (record {
        target = target;
        actor_type = actor_type;
        actor_id = actor_id;
        reason = reason;
        object_id = 0;
      })) [
        | ok done ↦
            ok (record (staged.0) { status = done.0.status }, staged.1 ++ changed done.1 ∷ [])
        | err e ↦ err (StageError.transition e)
      ]

unfoldable pub stage_assignment : Scope → Stage
stage_assignment scope staged = do
  moved ←
      move TaskStatus.assigned AuditActorType.agent (some scope.developer_slug)
        "Workflow developer assignment accepted."
        (record (staged.0) { assigned_agent_id = some scope.developer_id }, staged.1)
  stage_event scope WorkflowEventType.workflow_started no_arguments moved

unfoldable pub stage_developer_started : Scope → ℕ → Stage
stage_developer_started scope cycle staged = do
  _ ← checked (require_cycle scope (some cycle))
  move TaskStatus.in_progress AuditActorType.agent (some scope.developer_slug)
      "Workflow developer cycle started." staged

unfoldable pub stage_developer_handoff : Scope → ℕ → Stage
stage_developer_handoff scope cycle staged = do
  _ ← checked (require_cycle scope (some cycle))
  stage_event scope WorkflowEventType.developer_handoff_created
      (record no_arguments { cycle = some cycle }) staged

unfoldable pub stage_developer_completed : Scope → ℕ → Stage
stage_developer_completed scope cycle staged = do
  _ ← checked (require_cycle scope (some cycle))
  move TaskStatus.waiting_review AuditActorType.agent (some scope.developer_slug)
      "Workflow developer cycle completed." staged

abbrev pub reviewed_status : ReviewDecision → TaskStatus
reviewed_status ReviewDecision.approved = TaskStatus.waiting_qa
reviewed_status ReviewDecision.changes_requested = TaskStatus.changes_requested

abbrev pub review_reason : ReviewDecision → String
review_reason ReviewDecision.approved = "Workflow review approved."
review_reason ReviewDecision.changes_requested = "Workflow review requested changes."

abbrev pub close_review : Scope → ℕ → ReviewDecision → Stage
close_review scope cycle ReviewDecision.changes_requested staged = ok staged
close_review scope cycle ReviewDecision.approved staged =
    stage_event scope WorkflowEventType.workflow_completed
      (record no_arguments { cycle = some cycle }) staged

unfoldable pub stage_review_completed : Scope → ℕ → ReviewDecision → ℕ → ℕ → Stage
stage_review_completed scope cycle decision score count staged = do
  _ ← checked (require_cycle scope (some cycle))
  _ ← checked (require_review_decision (some decision))
  _ ← checked (require_review_score (some score))
  _ ← checked (require_finding_count (some count))
  moved ←
      move (reviewed_status decision) AuditActorType.agent (some scope.reviewer_slug)
        (review_reason decision) staged
  told ←
      stage_event scope WorkflowEventType.review_completed
        (record {
          cycle = some cycle;
          decision = some decision;
          review_score = some score;
          finding_count = some count;
          max_review_cycles = none;
        })
        moved
  close_review scope cycle decision told

unfoldable pub stage_review_cycle_exhausted : Scope → ℕ → ℕ → Stage
stage_review_cycle_exhausted scope cycle bound staged = do
  _ ← checked (require_cycle scope (some cycle))
  _ ← checked (require_max_review_cycles scope (some bound))
  require (cycle == bound) (workflow WorkflowErrorCode.invalid_input)
  moved ←
      move TaskStatus.waiting_human AuditActorType.agent (some scope.reviewer_slug)
        "Workflow review cycles exhausted." staged
  stage_event scope WorkflowEventType.review_cycle_exhausted
      (record no_arguments { cycle = some cycle; max_review_cycles = some bound }) moved

unfoldable pub stage_next_review_cycle : Scope → ℕ → Stage
stage_next_review_cycle scope cycle staged = do
  _ ← checked (require_cycle scope (some cycle))
  move TaskStatus.in_progress AuditActorType.agent (some scope.developer_slug)
      "Workflow correction cycle started." staged

-- `_require_safe_failure_code`
abbrev pub is_safe_code : WorkflowErrorCode → Bool
is_safe_code WorkflowErrorCode.unsafe_handoff = true
is_safe_code WorkflowErrorCode.timeout = true
is_safe_code WorkflowErrorCode.collaborator_failure = true
is_safe_code WorkflowErrorCode.persistence_failure = true
is_safe_code WorkflowErrorCode.internal_failure = true
is_safe_code _ = false

unfoldable pub stage_safe_failure : WorkflowErrorCode → Stage
stage_safe_failure code staged = do
  require (is_safe_code code) (workflow WorkflowErrorCode.invalid_input)
  move TaskStatus.waiting_human AuditActorType.system none
      "Workflow safely escalated for human attention." staged
