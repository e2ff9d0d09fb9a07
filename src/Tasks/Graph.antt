-- ===== src/Tasks/Graph.antt =====
-- core/tasks/state_machine.py: the table of approved transitions, read as a graph.
use synapse_os.Base.{Bool, List, [], ◌∷◌, any}
use synapse_os.Enums.{
  TaskStatus, same_status, backlog, ready, assigned, in_progress, waiting_review, changes_requested,
  waiting_qa, waiting_security, blocked, waiting_human, completed, failed, cancelled,
}

-- `ALLOWED_TASK_TRANSITIONS`
unfoldable pub allowed_task_transitions : TaskStatus → List TaskStatus
allowed_task_transitions backlog = ready ∷ waiting_human ∷ cancelled ∷ []
allowed_task_transitions ready = assigned ∷ waiting_human ∷ cancelled ∷ []
allowed_task_transitions assigned = in_progress ∷ blocked ∷ waiting_human ∷ cancelled ∷ []
allowed_task_transitions in_progress =
    waiting_review ∷ blocked ∷ failed ∷ waiting_human ∷ cancelled ∷ []
allowed_task_transitions waiting_review =
    changes_requested ∷ waiting_qa ∷ waiting_human ∷ cancelled ∷ []
allowed_task_transitions changes_requested = in_progress ∷ blocked ∷ waiting_human ∷ cancelled ∷ []
allowed_task_transitions waiting_qa =
    changes_requested ∷ waiting_security ∷ failed ∷ waiting_human ∷ cancelled ∷ []
allowed_task_transitions waiting_security =
    changes_requested ∷ completed ∷ failed ∷ waiting_human ∷ cancelled ∷ []
allowed_task_transitions blocked = ready ∷ waiting_human ∷ cancelled ∷ []
allowed_task_transitions waiting_human = ready ∷ cancelled ∷ []
allowed_task_transitions completed = []
allowed_task_transitions failed = ready ∷ waiting_human ∷ cancelled ∷ []
allowed_task_transitions cancelled = []

-- `TaskStateMachine.can_transition`
unfoldable pub can_transition : TaskStatus → TaskStatus → Bool
unfolding allowed_task_transitions same_status
can_transition current target = any (same_status target) (allowed_task_transitions current)
