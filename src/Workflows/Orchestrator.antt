-- ===== src/Workflows/Orchestrator.antt =====
-- `WorkflowOrchestrator` of core/workflows/orchestrator.py. The preflight, the developer, the builder
-- of handoffs, the validation of a handoff and the reviewer are parameters, which may change the world.
use synapse_os.Base.{
  ℕ, zero, suc, ◌+◌, Bool, true, false, not, ◌&&◌, ◌||◌, ◌==◌, leb, Option, none, some,
  if◌then◌else◌, Result, ok, err,
}
use synapse_os.Enums.{TaskStatus, same_status}
use synapse_os.Effects.{Effect, ◌>>=◌, ◌>>◌, pure, raise}
use synapse_os.Workflows.Types.{
  WorkflowErrorCode, ReviewDecision, WorkflowOutcome, Scope, ReviewerResult, WorkflowResult,
}
use synapse_os.Workflows.Stages.{reviewed_status}
use synapse_os.Workflows.Checkpoints.{
  World, Database, commit_assignment, commit_developer_started, commit_developer_handoff,
  commit_developer_completed, commit_review_completed, commit_review_cycle_exhausted,
  commit_next_review_cycle, commit_safe_failure,
}

-- The locals of `_run_with_deadline` that its handlers read, and the world.
pub record Run (S : Type 0) : Type 0 where
  pub workflow_started : Bool
  pub checkpoint_status : TaskStatus
  pub world : World S

-- What leaves the body: a `WorkflowError`, the deadline, a cancellation, or another exception.
pub data Abort : Type 0 where
  failed : WorkflowErrorCode → Abort
  deadline cancelled exception : Abort

-- What `run` raises.
pub data WorkflowStop : Type 0 where
  failed : WorkflowErrorCode → WorkflowStop
  cancelled : WorkflowStop

-- How awaiting a collaborator ends; `broken` is any exception, also of the canonical copy.
pub data Reply (A : Type 0) : Type 0 where
  replied : A → Reply A
  late stopped broken : Reply A

-- `D`, `H` and `Q` are the developer's results, the handoffs and the reviewer's requests.
pub record Collaborators (S D H Q : Type 0) : Type 0 where
  pub preflight : World S → Result WorkflowErrorCode Scope × World S
  pub develop : World S → Reply D × World S
  pub build_handoff : D → ℕ → World S → Reply H × World S
  pub validate_handoff : D → H → Option Q
  pub review : Q → World S → Reply ReviewerResult × World S

abbrev pub is_approved : ReviewDecision → Bool
is_approved ReviewDecision.approved = true
is_approved ReviewDecision.changes_requested = false

-- `require_truthful_terminal_result`, with the bounds of the fields.
abbrev pub is_terminal_pair : TaskStatus → WorkflowOutcome → Bool
is_terminal_pair status WorkflowOutcome.approved = same_status status TaskStatus.waiting_qa
is_terminal_pair status WorkflowOutcome.review_cycles_exhausted =
    same_status status TaskStatus.waiting_human

abbrev pub is_exhausted : WorkflowOutcome → Bool
is_exhausted WorkflowOutcome.approved = false
is_exhausted WorkflowOutcome.review_cycles_exhausted = true

abbrev pub is_expected_decision : WorkflowOutcome → ReviewDecision → Bool
is_expected_decision WorkflowOutcome.approved d = is_approved d
is_expected_decision WorkflowOutcome.review_cycles_exhausted d = not (is_approved d)

unfoldable pub is_truthful : WorkflowResult → Bool
is_truthful r =
    leb 1 r.max_review_cycles
    && leb r.max_review_cycles 10
    && leb 1 r.developer_cycles
    && leb r.developer_cycles 10
    && is_terminal_pair r.task_status r.outcome
    && r.developer_cycles == r.reviewer_cycles
    && leb r.developer_cycles r.max_review_cycles
    && (not (is_exhausted r.outcome) || r.developer_cycles == r.max_review_cycles)
    && is_expected_decision r.outcome r.reviewer_result.decision

-- `_normalization_code`
abbrev pub normalization_code : WorkflowErrorCode → WorkflowErrorCode
normalization_code WorkflowErrorCode.unsafe_handoff = WorkflowErrorCode.unsafe_handoff
normalization_code WorkflowErrorCode.collaborator_failure = WorkflowErrorCode.collaborator_failure
normalization_code WorkflowErrorCode.persistence_failure = WorkflowErrorCode.persistence_failure
normalization_code WorkflowErrorCode.invalid_state = WorkflowErrorCode.invalid_state
normalization_code WorkflowErrorCode.timeout = WorkflowErrorCode.timeout
normalization_code _ = WorkflowErrorCode.internal_failure

abbrev pub is_invalid_state : WorkflowErrorCode → Bool
is_invalid_state WorkflowErrorCode.invalid_state = true
is_invalid_state _ = false

module _ {S : Type 0} where
  -- A checkpoint in the body.
  abbrev pub commit :
      Effect (World S) WorkflowErrorCode (Unit {0}) → Effect (Run S) Abort (Unit {0})
  commit m run =
      let (r, w) = m run.world in
      (elim r [ ok a ↦ ok a | err code ↦ err (Abort.failed code) ], record run { world = w })

  abbrev pub set_checkpoint : TaskStatus → Effect (Run S) Abort (Unit {0})
  set_checkpoint status run = (ok tt, record run { checkpoint_status = status })

  abbrev pub set_started : Effect (Run S) Abort (Unit {0})
  set_started run = (ok tt, record run { workflow_started = true })

  -- `_invoke_collaborator`
  abbrev pub invoke : {A : Type 0} → (World S → Reply A × World S) → Effect (Run S) Abort A
  invoke call run =
      let (reply, w) = call run.world in
      (
        elim reply [
          | Reply.replied a ↦ ok a
          | Reply.late ↦ err Abort.deadline
          | Reply.stopped ↦ err Abort.cancelled
          | Reply.broken ↦ err (Abort.failed WorkflowErrorCode.collaborator_failure)
        ],
        record run { world = w },
      )

  abbrev pub result_with : Scope → WorkflowOutcome → ℕ → ReviewerResult → Run S → WorkflowResult
  result_with scope outcome cycle review run = record {
    task_status = run.world.object_status;
    outcome = outcome;
    max_review_cycles = scope.max_review_cycles;
    developer_cycles = cycle;
    reviewer_cycles = cycle;
    reviewer_result = review;
  }

  -- `_approved_result` and `_exhausted_result`; a result that is not truthful raises.
  unfoldable pub build_result :
      Scope → WorkflowOutcome → ℕ → ReviewerResult → Effect (Run S) Abort WorkflowResult
  build_result scope outcome cycle review run =
      if is_truthful (result_with scope outcome cycle review run)
      then (ok (result_with scope outcome cycle review run), run)
      else (err Abort.exception, run)

  module _ {D H Q : Type 0} (db : Database S) (parts : Collaborators S D H Q) (scope : Scope) where
    unfoldable pub start_cycle : ℕ → Effect (Run S) Abort (Unit {0})
    start_cycle cycle =
        if cycle == 1
        then commit (commit_developer_started db scope cycle)
        else commit (commit_next_review_cycle db scope cycle)

    abbrev pub accept_handoff : Option Q → Effect (Run S) Abort Q
    accept_handoff none = raise (Abort.failed WorkflowErrorCode.unsafe_handoff)
    accept_handoff (some q) = pure q

    -- The developer's half of a cycle.
    unfoldable pub develop_cycle : ℕ → Effect (Run S) Abort Q
    develop_cycle cycle = do
      start_cycle cycle
      set_checkpoint TaskStatus.in_progress
      result ← invoke parts.develop
      commit (commit_developer_completed db scope cycle)
      set_checkpoint TaskStatus.waiting_review
      handoff ← invoke (parts.build_handoff result cycle)
      accept_handoff (parts.validate_handoff result handoff)

    -- The reviewer's half.
    unfoldable pub review_cycle : ℕ → Q → Effect (Run S) Abort ReviewerResult
    review_cycle cycle q = do
      commit (commit_developer_handoff db scope cycle)
      review ← invoke (parts.review q)
      commit (
          commit_review_completed db scope cycle review.decision review.review_score
            review.finding_count)
      set_checkpoint (reviewed_status review.decision)
      pure review

    unfoldable pub exhaust : ℕ → ReviewerResult → Effect (Run S) Abort WorkflowResult
    exhaust cycle review = do
      commit (commit_review_cycle_exhausted db scope cycle scope.max_review_cycles)
      set_checkpoint TaskStatus.waiting_human
      build_result scope WorkflowOutcome.review_cycles_exhausted cycle review

    abbrev pub finished :
        Effect (Run S) Abort WorkflowResult → Effect (Run S) Abort (Option WorkflowResult)
    finished m = m >>= λ r. pure (some r)

    -- What a review leads to: a result, or the next cycle.
    unfoldable pub conclude : ℕ → ReviewerResult → Effect (Run S) Abort (Option WorkflowResult)
    conclude cycle review =
        if is_approved review.decision
        then finished (build_result scope WorkflowOutcome.approved cycle review)
        else if cycle == scope.max_review_cycles
        then finished (exhaust cycle review)
        else pure none

    unfoldable pub run_cycle : ℕ → Effect (Run S) Abort (Option WorkflowResult)
    run_cycle cycle = do
      q ← develop_cycle cycle
      review ← review_cycle cycle q
      conclude cycle review

    -- The `for` loop, with the number of cycles left and the next cycle.
    unfoldable pub run_cycles : ℕ → ℕ → Effect (Run S) Abort (Option WorkflowResult)
    run_cycles zero cycle = pure none
    run_cycles (suc left) cycle = run_cycle cycle >>= λ done. elim done [
      | some r ↦ pure (some r)
      | none ↦ run_cycles left (cycle + 1)
    ]

    unfoldable pub run_scope : Effect (Run S) Abort (Option WorkflowResult)
    run_scope = do
      commit (commit_assignment db scope)
      set_started
      set_checkpoint TaskStatus.assigned
      run_cycles scope.max_review_cycles 1

    -- `_safe_escalation_code`: the code that is raised in the end.
    unfoldable pub escalate : WorkflowErrorCode → Run S → WorkflowErrorCode × Run S
    escalate code run =
        let (r, w) = commit_safe_failure db scope code run.checkpoint_status run.world in
        (elim r [ ok a ↦ code | err c ↦ normalization_code c ], record run { world = w })

    -- After the body: a failure of a workflow that has started is escalated.
    unfoldable pub give_up : WorkflowErrorCode → Effect (Run S) WorkflowStop WorkflowResult
    give_up code run =
        if run.workflow_started && not (is_invalid_state code)
        then (let (c, run') = escalate code run in (err (WorkflowStop.failed c), run'))
        else (err (WorkflowStop.failed code), run)

    unfoldable pub settle :
        Result Abort (Option WorkflowResult) → Effect (Run S) WorkflowStop WorkflowResult
    settle (ok (some r)) run = (ok r, run)
    settle (ok none) run = (err (WorkflowStop.failed WorkflowErrorCode.internal_failure), run)
    settle (err Abort.cancelled) run = (err WorkflowStop.cancelled, run)
    settle (err Abort.deadline) run = give_up WorkflowErrorCode.timeout run
    settle (err Abort.exception) run = give_up WorkflowErrorCode.internal_failure run
    settle (err (Abort.failed code)) run =
        give_up (if run.workflow_started then normalization_code code else code) run

    unfoldable pub run_validated : Effect (Run S) WorkflowStop WorkflowResult
    run_validated run = let (r, run') = run_scope run in settle r run'

  -- `_run_with_deadline`: nothing has started before the preflight is through.
  unfoldable pub run_workflow :
      {D H Q : Type 0}
      → Database S
      → Collaborators S D H Q
      → World S
      → Result WorkflowStop WorkflowResult × Run S
  run_workflow db parts w =
      let (checked, w') = parts.preflight w in
      let fresh : Run S = record {
        workflow_started = false;
        checkpoint_status = TaskStatus.ready;
        world = w';
      } in
      elim checked [
        | err code ↦ (err (WorkflowStop.failed code), fresh)
        | ok scope ↦ run_validated db parts scope fresh
      ]
