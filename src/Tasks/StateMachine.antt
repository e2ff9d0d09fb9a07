-- ===== src/Tasks/StateMachine.antt =====
-- `TaskStateMachine.transition` of core/tasks/state_machine.py, with
-- `authorize_task_status_change` of infrastructure/database/task_status_guard.py.
use mathlib.Core.Option
use synapse_os.Base.{
  ℕ, Bool, true, false, not, ◌||◌, List, [], ◌∷◌, ◌++◌, Option, none, some, String, strip, is_empty,
  get_elem?, set, if◌then◌else◌, Result, ok, err, ◌>>=◌, ◌>>◌, require,
}
use synapse_os.Enums.{TaskStatus, AuditActorType, AuditResult, same_status}
use synapse_os.Tasks.Event.{AuditEvent, status_value}
use synapse_os.Tasks.Graph.{can_transition}

-- `_TaskStatusAuthorization`; its task is the one that holds it.
pub record Authorization : Type 0 where
  pub current : TaskStatus
  pub target : TaskStatus
  pub events : List AuditEvent

-- A `Task` object of the session. `persisted` is the status that the row has, the attribute's
-- history; `authorization` is the entry of `session.info` under the identity of this object.
pub record Task : Type 0 where
  pub id : ℕ
  pub project_id : ℕ
  pub persisted : TaskStatus
  pub status : TaskStatus
  pub authorization : Option Authorization

-- A database session: its persistent tasks, `session.new` as far as it holds audit events, and the
-- rows of the audit table.
pub record Session : Type 0 where
  pub tasks : List Task
  pub new : List AuditEvent
  pub log : List AuditEvent

pub data TransitionError : Type 0 where
  not_persistent empty_reason actor_required chain_mismatch : TransitionError
  invalid_transition : TaskStatus → TaskStatus → TransitionError

-- The arguments of `transition`; `object_id` is the identity of the event that the call creates.
pub record Request : Type 0 where
  pub target : TaskStatus
  pub actor_type : AuditActorType
  pub actor_id : Option String
  pub reason : String
  pub object_id : ℕ

abbrev pub is_system : AuditActorType → Bool
is_system AuditActorType.system = true
is_system _ = false

-- The truth of an optional text: `None` and the empty text are false.
abbrev pub is_given : Option String → Bool
is_given none = false
is_given (some s) = not (is_empty s)

unfoldable pub authorize_task_status_change :
    Task → TaskStatus → TaskStatus → AuditEvent → Result TransitionError Task
authorize_task_status_change task current target event = elim task.authorization [
  | none ↦ ok (record task {
    authorization = some (record { current = current; target = target; events = event ∷ [] });
  })
  | some existing ↦
      if same_status existing.target current
      then ok (record task {
        authorization = some (record {
          current = existing.current;
          target = target;
          events = existing.events ++ event ∷ [];
        });
      })
      else err chain_mismatch
]

-- The event that `transition` builds.
abbrev pub transition_event : Task → Request → AuditEvent
transition_event task r = record {
  object_id = r.object_id;
  actor_type = r.actor_type;
  actor_id = Option.map strip r.actor_id;
  project_id = task.project_id;
  task_id = task.id;
  event_type = "TASK_STATUS_CHANGED";
  action = "transition_task_status";
  result = AuditResult.succeeded;
  from_status = status_value task.status;
  to_status = status_value r.target;
  reason = strip r.reason;
}

-- `transition` on a task of the session: the task afterwards, and the event to add.
unfoldable pub transition_task : Task → Request → Result TransitionError (Task × AuditEvent)
transition_task task r = do
  require (not (is_empty (strip r.reason))) empty_reason
  require (is_system r.actor_type || is_given (Option.map strip r.actor_id)) actor_required
  require (can_transition task.status r.target) (invalid_transition task.status r.target)
  authorized ← authorize_task_status_change task task.status r.target (transition_event task r)
  ok (record authorized { status = r.target }, transition_event task r)

-- The task is named by its position; one that the session does not hold is refused.
unfoldable pub transition : ℕ → Request → Session → Result TransitionError Session
transition i r s = elim (get_elem? s.tasks i) [
  | none ↦ err not_persistent
  | some task ↦ do
    done ← transition_task task r
    ok (record s { tasks = set s.tasks i done.0; new = s.new ++ done.1 ∷ [] })
]
