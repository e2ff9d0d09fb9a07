-- ===== src/Workflows/Examples.antt =====
-- A workflow that is approved in its second cycle, and one whose reviewer breaks down.
use synapse_os.Base.{ℕ, ◌==◌, true, false, [], none, some, ok, strip, if◌then◌else◌, ◌≡◌, refl}
use synapse_os.Enums.{TaskStatus, same_status}
use synapse_os.Tasks.Graph.{can_transition, allowed_task_transitions}
use synapse_os.Tasks.StateMachine.{transition_task, authorize_task_status_change}
use synapse_os.Workflows.Types.{
  ReviewDecision, WorkflowOutcome, Scope, TaskRow, ReviewerResult, WorkflowResult,
}
use synapse_os.Workflows.Stages.{
  require_cycle, require_review_decision, require_review_score, require_finding_count,
  require_max_review_cycles, event_data, stage_event, move, stage_assignment,
  stage_developer_started, stage_developer_handoff, stage_developer_completed,
  stage_review_completed, stage_review_cycle_exhausted, stage_next_review_cycle, stage_safe_failure,
}
use synapse_os.Workflows.Checkpoints.{
  World, Deadline, Database, configure_timeouts, lock_expected, write_staged, attempt_checkpoint,
  recover, commit_checkpoint, commit_assignment, commit_developer_started, commit_developer_handoff,
  commit_developer_completed, commit_review_completed, commit_review_cycle_exhausted,
  commit_next_review_cycle, commit_safe_failure,
}
use synapse_os.Workflows.Orchestrator.{
  Reply, Collaborators, is_truthful, build_result, start_cycle, develop_cycle, review_cycle,
  exhaust, conclude, run_cycle, run_cycles, run_scope, escalate, give_up, settle, run_validated,
  run_workflow,
}
use synapse_os.Workflows.Committed.{IsReliable}
use synapse_os.Workflows.Ended.{FailsSafely, run_workflow-FailsSafely}
use synapse_os.Workflows.Truthful.{Tells, run_workflow-Tells}

abbrev database : Database ℕ
database = record {
  begin = λ d s. (none, s);
  is_late = λ d s. (false, s);
  set_timeouts = λ d s. (none, s);
  lock = λ d s. (none, s);
  commit = λ d s. (none, s);
  rollback = λ s. (true, s);
}

abbrev scope : Scope
scope = record {
  developer_id = 1;
  developer_slug = "dev-1";
  reviewer_slug = "rev-1";
  max_review_cycles = 2;
}

abbrev row : TaskRow
row = record { id = 30; project_id = 40; status = TaskStatus.ready; assigned_agent_id = none }

abbrev world : World ℕ
world = record { row = some row; log = []; object_status = TaskStatus.ready; outside = 0 }

abbrev review : ReviewDecision → ReviewerResult
review decision = record { decision = decision; review_score = 900_000; finding_count = 1 }

-- The reviewer approves what it sees a second time.
abbrev parts : Collaborators ℕ ℕ ℕ ℕ
parts = record {
  preflight = λ w. (ok scope, w);
  develop = λ w. (Reply.replied 7, w);
  build_handoff = λ d cycle w. (Reply.replied cycle, w);
  validate_handoff = λ d h. some h;
  review = λ q w. (
    Reply.replied
        (review (if q == 2 then ReviewDecision.approved else ReviewDecision.changes_requested)),
    w,
  );
}

abbrev approved : WorkflowResult
approved = record {
  task_status = TaskStatus.waiting_qa;
  outcome = WorkflowOutcome.approved;
  max_review_cycles = 2;
  developer_cycles = 2;
  reviewer_cycles = 2;
  reviewer_result = review ReviewDecision.approved;
}

returns : (run_workflow database parts world).0 ≡ ok approved
unfolding run_workflow run_validated settle give_up escalate run_scope run_cycles run_cycle conclude
    exhaust review_cycle develop_cycle start_cycle build_result is_truthful commit_safe_failure
    commit_next_review_cycle commit_review_cycle_exhausted commit_review_completed
    commit_developer_completed commit_developer_handoff commit_developer_started commit_assignment
    commit_checkpoint recover attempt_checkpoint write_staged configure_timeouts lock_expected
    stage_safe_failure stage_next_review_cycle stage_review_cycle_exhausted stage_review_completed
    stage_developer_completed stage_developer_handoff stage_developer_started stage_assignment move
    stage_event event_data require_cycle require_review_decision require_review_score
    require_finding_count require_max_review_cycles transition_task authorize_task_status_change
    can_transition allowed_task_transitions same_status strip
returns = refl

run_workflow-Tells_example : Tells approved (run_workflow database parts world).1
run_workflow-Tells_example = run_workflow-Tells database parts world approved returns

abbrev broken : Collaborators ℕ ℕ ℕ ℕ
broken = record parts { review = λ q w. (Reply.broken, w) }

-- Of a database that fails no call, and with a reviewer that breaks down.
escalating : IsReliable database Deadline.of_recovery
escalating = record {
  begins = λ s. refl;
  in_time = λ s. refl;
  sets = λ s. refl;
  locks = λ s. refl;
  commits = λ s. refl;
}

run_workflow-FailsSafely_example :
    FailsSafely row 1 (run_workflow database broken world).0 (run_workflow database broken world).1
run_workflow-FailsSafely_example =
    run_workflow-FailsSafely database broken world world scope row refl refl refl refl refl
      escalating
      (record { develops = λ w. refl; builds = λ d cycle w. refl; reviews = λ q w. refl })
