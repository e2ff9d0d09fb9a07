-- ===== src/Workflows/Moves.antt =====
-- Where the stages of core/workflows/audit.py take a task, and that they never raise `INVALID_STATE`.
use synapse_os.Base.{
  ℕ, Bool, true, false, not, ◌&&◌, ◌||◌, ◌==◌, leb, [], ◌∷◌, ◌++◌, Option, none, some, String,
  if◌then◌else◌, is_empty, strip, Result, ok, err, ◌>>=◌, require, Bool-cases, inl, inr, ◌≡◌, refl,
}
use mathlib.Core.Option
use synapse_os.Enums.{TaskStatus, AuditActorType}
use synapse_os.Tasks.Event.{AuditEvent}
use synapse_os.Tasks.Graph.{can_transition, allowed_task_transitions}
use synapse_os.Tasks.StateMachine.{
  Task, TransitionError, Request, is_system, is_given, transition_task,
  authorize_task_status_change,
}
use synapse_os.Workflows.Types.{
  WorkflowErrorCode, ReviewDecision, WorkflowEventType, Scope, TaskRow, changed, StageError,
  workflow,
}
use synapse_os.Workflows.Stages.{
  require_cycle, require_review_decision, require_review_score, require_finding_count,
  require_max_review_cycles, no_arguments, EventArguments, event_data, Staged, Stage, checked,
  stage_event, move, stage_assignment, stage_developer_started, stage_developer_handoff,
  stage_developer_completed, reviewed_status, review_reason, close_review, stage_review_completed,
  stage_review_cycle_exhausted, stage_next_review_cycle,
}
use synapse_os.Workflows.Checkpoints.{stage_code}
use synapse_os.Workflows.Orchestrator.{is_invalid_state}

-- The task has the status and the agent.
pub record Holds (status : TaskStatus) (agent : ℕ) (row : TaskRow) : Type 0 where
  pub at : row.status ≡ status
  pub by : row.assigned_agent_id ≡ some agent

-- A stage leaves such a task, or raises something else than `INVALID_STATE`.
pub data Ends (status : TaskStatus) (agent : ℕ) : Result StageError Staged → Type 0 where
  stays : (s : Staged) → Holds status agent s.0 → Ends status agent (ok s)
  raises : (e : StageError) → is_invalid_state (stage_code e) ≡ false → Ends status agent (err e)

abbrev pub Moves : TaskStatus → TaskStatus → ℕ → Stage → Type 0
Moves from to agent stage =
    (staged : Staged) → Holds from agent staged.0 → Ends to agent (stage staged)

abbrev EdgeEnds : TaskStatus → Result TransitionError (Task × AuditEvent) → Type 0
EdgeEnds target (ok done) = done.0.status ≡ target
EdgeEnds target (err e) = is_invalid_state (stage_code (StageError.transition e)) ≡ false

-- `transition_task` on a task without pending authorization refuses only a text, if the graph has
-- the edge.
transition_task-edge :
    (task : Task) (r : Request)
    → task.authorization ≡ none
    → can_transition task.status r.target ≡ true
    → EdgeEnds r.target (transition_task task r)
unfolding transition_task authorize_task_status_change
transition_task-edge task r a h = elim (Bool-cases (not (is_empty (strip r.reason)))) [
  | inr e ↦ rw e refl
  | inl e ↦ elim (Bool-cases (is_system r.actor_type || is_given (Option.map strip r.actor_id))) [
    | inr f ↦ rw (e, f) refl
    | inl f ↦ rw (e, f, h, a) refl
  ]
]

-- On such a task, with the texts that it asks for, it goes through.
pub transition_task-goes :
    (task : Task) (r : Request)
    → task.authorization ≡ none
    → can_transition task.status r.target ≡ true
    → not (is_empty (strip r.reason)) ≡ true
    → is_system r.actor_type ≡ true
    → (done : Task × AuditEvent) × (transition_task task r ≡ ok done) × (done.0.status ≡ r.target)
unfolding transition_task authorize_task_status_change
transition_task-goes task r a h reason sys = rw (reason, sys, h, a) (_, refl, refl)

pub move-Moves :
    (from target : TaskStatus) (agent : ℕ) (actor_type : AuditActorType) (actor_id : Option String)
    (reason : String)
    → can_transition from target ≡ true
    → Moves from target agent (move target actor_type actor_id reason)
unfolding move
move-Moves from target agent actor_type actor_id reason h staged held =
    finish (transition_task task r) (transition_task-edge task r refl (rw (held.at) h))
  where
    task : Task
    task = record {
      id = staged.0.id;
      project_id = staged.0.project_id;
      persisted = staged.0.status;
      status = staged.0.status;
      authorization = none;
    }

    r : Request
    r = record {
      target = target;
      actor_type = actor_type;
      actor_id = actor_id;
      reason = reason;
      object_id = 0;
    }

    finish :
        (out : Result TransitionError (Task × AuditEvent))
        → EdgeEnds target out
        → Ends target agent (elim out [
          | ok done ↦
              ok (record (staged.0) { status = done.0.status }, staged.1 ++ changed done.1 ∷ [])
          | err e ↦ err (StageError.transition e)
        ])
    finish (ok done) e = Ends.stays _ (record { at = e; by = held.by })
    finish (err x) e = Ends.raises _ e

-- What is refused is refused as something else than `INVALID_STATE`.
data Refuses {A : Type 0} : Result WorkflowErrorCode A → Type 0 where
  passes : (a : A) → Refuses (ok a)
  refuses : (code : WorkflowErrorCode) → is_invalid_state code ≡ false → Refuses (err code)

require-Refuses :
    (test : Bool) (code : WorkflowErrorCode)
    → is_invalid_state code ≡ false
    → Refuses (require test code)
require-Refuses true code h = Refuses.passes tt
require-Refuses false code h = Refuses.refuses code h

if-Refuses :
    {A : Type 0} (test : Bool) (a : A)
    → Refuses (if test then ok a else err WorkflowErrorCode.invalid_input)
if-Refuses true a = Refuses.passes a
if-Refuses false a = Refuses.refuses _ refl

Refuses-bind :
    {A B : Type 0} (m : Result WorkflowErrorCode A) (f : A → Result WorkflowErrorCode B)
    → Refuses m
    → ((a : A) → Refuses (f a))
    → Refuses (m >>= f)
Refuses-bind (ok a) f h k = k a
Refuses-bind (err c) f (Refuses.refuses _ h) k = Refuses.refuses c h

require_cycle-Refuses : (scope : Scope) (cycle : Option ℕ) → Refuses (require_cycle scope cycle)
unfolding require_cycle
require_cycle-Refuses scope none = Refuses.refuses _ refl
require_cycle-Refuses scope (some cycle) =
    if-Refuses (leb 1 cycle && leb cycle scope.max_review_cycles) cycle

require_review_decision-Refuses : (d : Option ReviewDecision) → Refuses (require_review_decision d)
unfolding require_review_decision
require_review_decision-Refuses none = Refuses.refuses _ refl
require_review_decision-Refuses (some d) = Refuses.passes d

require_review_score-Refuses : (score : Option ℕ) → Refuses (require_review_score score)
unfolding require_review_score
require_review_score-Refuses none = Refuses.refuses _ refl
require_review_score-Refuses (some score) = if-Refuses (leb score 1_000_000) score

require_finding_count-Refuses : (count : Option ℕ) → Refuses (require_finding_count count)
unfolding require_finding_count
require_finding_count-Refuses none = Refuses.refuses _ refl
require_finding_count-Refuses (some count) = if-Refuses (leb count 128) count

require_max_review_cycles-Refuses :
    (scope : Scope) (bound : Option ℕ) → Refuses (require_max_review_cycles scope bound)
unfolding require_max_review_cycles
require_max_review_cycles-Refuses scope none = Refuses.refuses _ refl
require_max_review_cycles-Refuses scope (some bound) =
    if-Refuses (bound == scope.max_review_cycles) bound

event_data-Refuses :
    (scope : Scope) (event_type : WorkflowEventType) (a : EventArguments)
    → Refuses (event_data scope event_type a)
unfolding event_data
event_data-Refuses scope WorkflowEventType.workflow_started a =
    Refuses-bind _ _ (require-Refuses _ WorkflowErrorCode.invalid_input refl)
      (λ x. Refuses.passes _)
event_data-Refuses scope WorkflowEventType.developer_handoff_created a =
    Refuses-bind _ _ (require-Refuses _ WorkflowErrorCode.invalid_input refl)
      (λ x. Refuses-bind _ _ (require_cycle-Refuses scope a.cycle) (λ y. Refuses.passes _))
event_data-Refuses scope WorkflowEventType.review_completed a =
    Refuses-bind _ _ (require-Refuses _ WorkflowErrorCode.invalid_input refl) (λ x.
      Refuses-bind _ _ (require_cycle-Refuses scope a.cycle) (λ c.
        Refuses-bind _ _ (require_review_decision-Refuses a.decision) (λ d.
          Refuses-bind _ _ (require_review_score-Refuses a.review_score) (λ s.
            Refuses-bind _ _ (require_finding_count-Refuses a.finding_count)
              (λ n. Refuses.passes _)))))
event_data-Refuses scope WorkflowEventType.review_cycle_exhausted a =
    Refuses-bind _ _ (require-Refuses _ WorkflowErrorCode.invalid_input refl) (λ x.
      Refuses-bind _ _ (require_cycle-Refuses scope a.cycle) (λ c.
        Refuses-bind _ _ (require_max_review_cycles-Refuses scope a.max_review_cycles) (λ b.
          Refuses-bind _ _ (require-Refuses (c == b) WorkflowErrorCode.invalid_input refl)
            (λ y. Refuses.passes _))))
event_data-Refuses scope WorkflowEventType.workflow_completed a =
    Refuses-bind _ _ (require-Refuses _ WorkflowErrorCode.invalid_input refl)
      (λ x. Refuses-bind _ _ (require_cycle-Refuses scope a.cycle) (λ y. Refuses.passes _))

checked-Ends :
    {A : Type 0} {to : TaskStatus} {agent : ℕ} (m : Result WorkflowErrorCode A)
    (f : A → Result StageError Staged)
    → Refuses m
    → ((a : A) → Ends to agent (f a))
    → Ends to agent (checked m >>= f)
checked-Ends (ok a) f h k = k a
checked-Ends (err c) f (Refuses.refuses _ h) k = Ends.raises _ h

Ends-bind :
    {mid to : TaskStatus} {agent : ℕ} (m : Result StageError Staged)
    (f : Staged → Result StageError Staged)
    → Ends mid agent m
    → ((s : Staged) → Holds mid agent s.0 → Ends to agent (f s))
    → Ends to agent (m >>= f)
Ends-bind (ok s) f (Ends.stays _ h) k = k s h
Ends-bind (err e) f (Ends.raises _ h) k = Ends.raises e h

pub stage_event-Moves :
    (at : TaskStatus) (agent : ℕ) (scope : Scope) (event_type : WorkflowEventType)
    (a : EventArguments)
    → Moves at at agent (stage_event scope event_type a)
unfolding stage_event
stage_event-Moves at agent scope event_type a staged held =
    checked-Ends (event_data scope event_type a) _ (event_data-Refuses scope event_type a)
      (λ x. Ends.stays _ held)

pub stage_assignment-Ends :
    (scope : Scope) (staged : Staged)
    → staged.0.status ≡ TaskStatus.ready
    → Ends TaskStatus.assigned scope.developer_id (stage_assignment scope staged)
unfolding stage_assignment can_transition allowed_task_transitions
stage_assignment-Ends scope staged h =
    Ends-bind _ _
      (move-Moves TaskStatus.ready TaskStatus.assigned scope.developer_id AuditActorType.agent
        (some scope.developer_slug) "Workflow developer assignment accepted." refl
        (record (staged.0) { assigned_agent_id = some scope.developer_id }, staged.1)
        (record { at = h; by = refl }))
      (stage_event-Moves TaskStatus.assigned scope.developer_id scope
        WorkflowEventType.workflow_started no_arguments)

-- A stage that checks the cycle and moves the task.
cycle-Moves :
    (from to : TaskStatus) (agent : ℕ) (scope : Scope) (cycle : ℕ) (actor : Option String)
    (reason : String)
    → can_transition from to ≡ true
    → Moves from to agent (λ staged. checked (require_cycle scope (some cycle)) >>= λ _.
        move to AuditActorType.agent actor reason staged)
cycle-Moves from to agent scope cycle actor reason h staged held =
    checked-Ends (require_cycle scope (some cycle)) _ (require_cycle-Refuses scope (some cycle))
      (λ c. move-Moves from to agent AuditActorType.agent actor reason h staged held)

pub stage_developer_started-Moves :
    (agent : ℕ) (scope : Scope) (cycle : ℕ)
    → Moves TaskStatus.assigned TaskStatus.in_progress agent (stage_developer_started scope cycle)
unfolding stage_developer_started can_transition allowed_task_transitions
stage_developer_started-Moves agent scope cycle =
    cycle-Moves TaskStatus.assigned TaskStatus.in_progress agent scope cycle
      (some scope.developer_slug) "Workflow developer cycle started." refl

pub stage_next_review_cycle-Moves :
    (agent : ℕ) (scope : Scope) (cycle : ℕ)
    → Moves TaskStatus.changes_requested TaskStatus.in_progress agent
        (stage_next_review_cycle scope cycle)
unfolding stage_next_review_cycle can_transition allowed_task_transitions
stage_next_review_cycle-Moves agent scope cycle =
    cycle-Moves TaskStatus.changes_requested TaskStatus.in_progress agent scope cycle
      (some scope.developer_slug) "Workflow correction cycle started." refl

pub stage_developer_completed-Moves :
    (agent : ℕ) (scope : Scope) (cycle : ℕ)
    → Moves TaskStatus.in_progress TaskStatus.waiting_review agent
        (stage_developer_completed scope cycle)
unfolding stage_developer_completed can_transition allowed_task_transitions
stage_developer_completed-Moves agent scope cycle =
    cycle-Moves TaskStatus.in_progress TaskStatus.waiting_review agent scope cycle
      (some scope.developer_slug) "Workflow developer cycle completed." refl

pub stage_developer_handoff-Moves :
    (at : TaskStatus) (agent : ℕ) (scope : Scope) (cycle : ℕ)
    → Moves at at agent (stage_developer_handoff scope cycle)
unfolding stage_developer_handoff
stage_developer_handoff-Moves at agent scope cycle staged held =
    checked-Ends (require_cycle scope (some cycle)) _ (require_cycle-Refuses scope (some cycle))
      (λ c.
        stage_event-Moves at agent scope WorkflowEventType.developer_handoff_created
          (record no_arguments { cycle = some cycle }) staged held)

close_review-Moves :
    (at : TaskStatus) (agent : ℕ) (scope : Scope) (cycle : ℕ) (d : ReviewDecision)
    → Moves at at agent (close_review scope cycle d)
close_review-Moves at agent scope cycle ReviewDecision.changes_requested staged held =
    Ends.stays staged held
close_review-Moves at agent scope cycle ReviewDecision.approved staged held =
    stage_event-Moves at agent scope WorkflowEventType.workflow_completed
      (record no_arguments { cycle = some cycle }) staged held

review-edge :
    (d : ReviewDecision) → can_transition TaskStatus.waiting_review (reviewed_status d) ≡ true
unfolding can_transition allowed_task_transitions
review-edge ReviewDecision.approved = refl
review-edge ReviewDecision.changes_requested = refl

pub stage_review_completed-Moves :
    (agent : ℕ) (scope : Scope) (cycle : ℕ) (d : ReviewDecision) (score count : ℕ)
    → Moves TaskStatus.waiting_review
        (reviewed_status d)
        agent
        (stage_review_completed scope cycle d score count)
unfolding stage_review_completed
stage_review_completed-Moves agent scope cycle d score count staged held =
    checked-Ends (require_cycle scope (some cycle)) _ (require_cycle-Refuses scope (some cycle))
      (λ _.
        checked-Ends (require_review_decision (some d)) _ (require_review_decision-Refuses (some d))
          (λ _.
            checked-Ends (require_review_score (some score)) _
              (require_review_score-Refuses (some score))
              (λ _.
                checked-Ends (require_finding_count (some count)) _
                  (require_finding_count-Refuses (some count))
                  (λ _.
                    Ends-bind _ _
                      (move-Moves TaskStatus.waiting_review (reviewed_status d) agent
                        AuditActorType.agent (some scope.reviewer_slug) (review_reason d)
                        (review-edge d) staged held)
                      (λ moved held'.
                        Ends-bind _ _
                          (stage_event-Moves (reviewed_status d) agent scope
                            WorkflowEventType.review_completed
                            (record {
                              cycle = some cycle;
                              decision = some d;
                              review_score = some score;
                              finding_count = some count;
                              max_review_cycles = none;
                            })
                            moved held')
                          (close_review-Moves (reviewed_status d) agent scope cycle d))))))

require-Ends :
    {to : TaskStatus} {agent : ℕ} (test : Bool) (code : WorkflowErrorCode)
    (m : Result StageError Staged)
    → is_invalid_state code ≡ false
    → Ends to agent m
    → Ends to agent (require test (workflow code) >>= λ _. m)
require-Ends true code m h k = k
require-Ends false code m h k = Ends.raises _ h

pub stage_review_cycle_exhausted-Moves :
    (agent : ℕ) (scope : Scope) (cycle bound : ℕ)
    → Moves TaskStatus.changes_requested TaskStatus.waiting_human agent
        (stage_review_cycle_exhausted scope cycle bound)
unfolding stage_review_cycle_exhausted can_transition allowed_task_transitions
stage_review_cycle_exhausted-Moves agent scope cycle bound staged held =
    checked-Ends (require_cycle scope (some cycle)) _ (require_cycle-Refuses scope (some cycle))
      (λ _.
        checked-Ends (require_max_review_cycles scope (some bound)) _
          (require_max_review_cycles-Refuses scope (some bound))
          (λ _. require-Ends (cycle == bound) WorkflowErrorCode.invalid_input _ refl (
            Ends-bind _ _
              (move-Moves TaskStatus.changes_requested TaskStatus.waiting_human agent
                AuditActorType.agent (some scope.reviewer_slug) "Workflow review cycles exhausted."
                refl staged held)
              (stage_event-Moves TaskStatus.waiting_human agent scope
                WorkflowEventType.review_cycle_exhausted
                (record no_arguments { cycle = some cycle; max_review_cycles = some bound })))))
