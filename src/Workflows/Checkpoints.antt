-- ===== src/Workflows/Checkpoints.antt =====
-- `_commit_checkpoint` of core/workflows/audit.py, and the checkpoints. The database's calls are
-- parameters, which may fail; a commit that fails leaves the rows as they were.
use synapse_os.Base.{
  ℕ, Bool, true, false, ◌&&◌, ◌==◌, List, [], ◌++◌, Option, none, some, if◌then◌else◌, Result, ok,
  err,
}
use synapse_os.Enums.{TaskStatus, same_status}
use synapse_os.Tasks.StateMachine.{TransitionError}
use synapse_os.Effects.{Effect, ◌>>=◌, ◌>>◌, pure, raise, handle, guard}
use synapse_os.Workflows.Types.{
  WorkflowErrorCode, ReviewDecision, Scope, TaskRow, LogEntry, StageError, workflow,
}
use synapse_os.Workflows.Stages.{
  Staged, Stage, stage_assignment, stage_developer_started, stage_developer_handoff,
  stage_developer_completed, stage_review_completed, stage_review_cycle_exhausted,
  stage_next_review_cycle, stage_safe_failure,
}

-- The row of the task and the audit table in the database, the status that the task's object has in
-- the session, and everything else.
pub record World (S : Type 0) : Type 0 where
  pub row : Option TaskRow
  pub log : List LogEntry
  pub object_status : TaskStatus
  pub outside : S

-- How a call of the database fails: out of time, with another database error, or otherwise.
pub data DatabaseFailure : Type 0 where
  late lost broken : DatabaseFailure

abbrev pub failure_code : DatabaseFailure → WorkflowErrorCode
failure_code DatabaseFailure.late = WorkflowErrorCode.timeout
failure_code DatabaseFailure.lost = WorkflowErrorCode.persistence_failure
failure_code DatabaseFailure.broken = WorkflowErrorCode.internal_failure

-- The deadline of the run, and that of the escalation after it.
pub data Deadline : Type 0 where
  of_run of_recovery : Deadline

-- The calls of a checkpoint, given its deadline: opening a connection, asking the clock whether the
-- deadline is over, setting the transaction's timeouts, locking the task's row, and committing; and
-- rolling back, which says whether it went through.
pub record Database (S : Type 0) : Type 0 where
  pub begin : Deadline → S → Option DatabaseFailure × S
  pub is_late : Deadline → S → Bool × S
  pub set_timeouts : Deadline → S → Option DatabaseFailure × S
  pub lock : Deadline → S → Option DatabaseFailure × S
  pub commit : Deadline → S → Option DatabaseFailure × S
  pub rollback : S → Bool × S

-- `_TaskSnapshot`
pub record TaskSnapshot : Type 0 where
  pub status : TaskStatus
  pub assigned_agent_id : Option ℕ

abbrev pub same_agent : Option ℕ → Option ℕ → Bool
same_agent none none = true
same_agent (some a) (some b) = a == b
same_agent _ _ = false

abbrev pub is_expected : TaskSnapshot → TaskRow → Bool
is_expected expected row =
    same_status row.status expected.status
    && same_agent row.assigned_agent_id expected.assigned_agent_id

-- `_assigned_task_snapshot`
abbrev pub assigned_snapshot : Scope → TaskStatus → TaskSnapshot
assigned_snapshot scope status = record {
  status = status;
  assigned_agent_id = some scope.developer_id;
}

abbrev pub stage_code : StageError → WorkflowErrorCode
stage_code (workflow code) = code
stage_code (StageError.transition (TransitionError.invalid_transition _ _)) =
    WorkflowErrorCode.invalid_state
stage_code (StageError.transition _) = WorkflowErrorCode.internal_failure

module _ {S : Type 0} where
  abbrev pub answered :
      (S → Option DatabaseFailure × S) → Effect (World S) WorkflowErrorCode (Unit {0})
  answered call w =
      let (failure, s) = call w.outside in
      (elim failure [ none ↦ ok tt | some f ↦ err (failure_code f) ], record w { outside = s })

  -- The locked row, which the session's object takes over.
  abbrev pub read_row : Effect (World S) WorkflowErrorCode TaskRow
  read_row w = elim w.row [
    | none ↦ (err WorkflowErrorCode.invalid_scope, w)
    | some row ↦ (ok row, record w { object_status = row.status })
  ]

  abbrev pub from_stage : Result StageError Staged → Effect (World S) WorkflowErrorCode Staged
  from_stage (ok staged) = pure staged
  from_stage (err e) = raise (stage_code e)

  abbrev pub save : Staged → Effect (World S) WorkflowErrorCode (Unit {0})
  save staged w = (
    ok tt,
    record w { row = some staged.0; log = w.log ++ staged.1; object_status = staged.0.status },
  )

  module _ (db : Database S) where
    -- `if monotonic() >= deadline: raise WorkflowError(WorkflowErrorCode.TIMEOUT)`
    abbrev pub check_deadline : Deadline → Effect (World S) WorkflowErrorCode (Unit {0})
    check_deadline deadline w =
        let (over, s) = db.is_late deadline w.outside in
        (if over then err WorkflowErrorCode.timeout else ok tt, record w { outside = s })

    -- `_configure_transaction_timeouts`
    unfoldable pub configure_timeouts : Deadline → Effect (World S) WorkflowErrorCode (Unit {0})
    configure_timeouts deadline = do
      check_deadline deadline
      answered (db.set_timeouts deadline)
      check_deadline deadline

    unfoldable pub lock_expected :
        Deadline → TaskSnapshot → Effect (World S) WorkflowErrorCode TaskRow
    lock_expected deadline expected = do
      answered (db.begin deadline)
      configure_timeouts deadline
      answered (db.lock deadline)
      row ← read_row
      guard (is_expected expected row) WorkflowErrorCode.invalid_state
      pure row

    unfoldable pub write_staged :
        Deadline → Result StageError Staged → Effect (World S) WorkflowErrorCode (Unit {0})
    write_staged deadline result = do
      staged ← from_stage result
      answered (db.commit deadline)
      save staged

    unfoldable pub attempt_checkpoint :
        Deadline → TaskSnapshot → Stage → Effect (World S) WorkflowErrorCode (Unit {0})
    attempt_checkpoint deadline expected stage = do
      row ← lock_expected deadline expected
      write_staged deadline (stage (row, []))

    -- `_recover_failed_checkpoint`: the object keeps the status it was locked with.
    unfoldable pub recover : WorkflowErrorCode → Effect (World S) WorkflowErrorCode (Unit {0})
    recover code w =
        let (through, s) = db.rollback w.outside in
        (
          err (if through then code else WorkflowErrorCode.persistence_failure),
          record w { outside = s },
        )

    -- `_commit_checkpoint`, with its failure raised.
    unfoldable pub commit_checkpoint :
        Deadline → TaskSnapshot → Stage → Effect (World S) WorkflowErrorCode (Unit {0})
    commit_checkpoint deadline expected stage =
        handle (attempt_checkpoint deadline expected stage) recover

    module _ (scope : Scope) where
      unfoldable pub commit_assignment : Effect (World S) WorkflowErrorCode (Unit {0})
      commit_assignment =
          commit_checkpoint Deadline.of_run
            (record { status = TaskStatus.ready; assigned_agent_id = none })
            (stage_assignment scope)

      unfoldable pub commit_developer_started : ℕ → Effect (World S) WorkflowErrorCode (Unit {0})
      commit_developer_started cycle =
          commit_checkpoint Deadline.of_run (assigned_snapshot scope TaskStatus.assigned)
            (stage_developer_started scope cycle)

      unfoldable pub commit_developer_handoff : ℕ → Effect (World S) WorkflowErrorCode (Unit {0})
      commit_developer_handoff cycle =
          commit_checkpoint Deadline.of_run (assigned_snapshot scope TaskStatus.waiting_review)
            (stage_developer_handoff scope cycle)

      unfoldable pub commit_developer_completed : ℕ → Effect (World S) WorkflowErrorCode (Unit {0})
      commit_developer_completed cycle =
          commit_checkpoint Deadline.of_run (assigned_snapshot scope TaskStatus.in_progress)
            (stage_developer_completed scope cycle)

      unfoldable pub commit_review_completed :
          ℕ → ReviewDecision → ℕ → ℕ → Effect (World S) WorkflowErrorCode (Unit {0})
      commit_review_completed cycle decision score count =
          commit_checkpoint Deadline.of_run (assigned_snapshot scope TaskStatus.waiting_review)
            (stage_review_completed scope cycle decision score count)

      unfoldable pub commit_review_cycle_exhausted :
          ℕ → ℕ → Effect (World S) WorkflowErrorCode (Unit {0})
      commit_review_cycle_exhausted cycle bound =
          commit_checkpoint Deadline.of_run (assigned_snapshot scope TaskStatus.changes_requested)
            (stage_review_cycle_exhausted scope cycle bound)

      unfoldable pub commit_next_review_cycle : ℕ → Effect (World S) WorkflowErrorCode (Unit {0})
      commit_next_review_cycle cycle =
          commit_checkpoint Deadline.of_run (assigned_snapshot scope TaskStatus.changes_requested)
            (stage_next_review_cycle scope cycle)

      unfoldable pub commit_safe_failure :
          WorkflowErrorCode → TaskStatus → Effect (World S) WorkflowErrorCode (Unit {0})
      commit_safe_failure code expected =
          commit_checkpoint Deadline.of_recovery (assigned_snapshot scope expected)
            (stage_safe_failure code)
