-- ===== src/Workflows/Ended.antt =====
-- How a run of core/workflows/orchestrator.py ends: a result, a task that waits for a human, or, where it
-- is cancelled, a task that stays where the last checkpoint left it.
use synapse_os.Base.{
  arith, ℕ, true, false, not, ◌&&◌, leb, [], Option, none, some, String, if◌then◌else◌, is_empty,
  strip, Result, ok, err, ◌>>=◌, require, Bool-cases, inl, inr, ◌≡◌, ◌⊎◌, refl, sym, ap, subst, ◌∙◌,
  same_iff,
}
use synapse_os.Enums.{TaskStatus, same_status, TaskStatus-discrete, AuditActorType}
use synapse_os.Effects.{◌>>◌}
use synapse_os.Effects.Triple.{Triple, Triple-bind}
use synapse_os.Tasks.Graph.{can_transition}
use synapse_os.Workflows.Types.{WorkflowErrorCode, Scope, TaskRow, WorkflowResult, workflow}
use synapse_os.Workflows.Stages.{Staged, move, stage_assignment, is_safe_code, stage_safe_failure}
use synapse_os.Workflows.Checkpoints.{
  World, Deadline, Database, assigned_snapshot, commit_assignment, commit_safe_failure,
}
use synapse_os.Workflows.Orchestrator.{
  Run, Abort, WorkflowStop, Collaborators, is_invalid_state, normalization_code, commit,
  set_checkpoint, set_started, run_cycles, run_scope, escalate, give_up, settle, run_validated,
  run_workflow,
}
use synapse_os.Workflows.Moves.{transition_task-goes, stage_assignment-Ends}
use synapse_os.Workflows.Committed.{
  IsReliable, Stands, OrKept, Reached, commit_checkpoint-Reached, Goes, commit_checkpoint-Goes,
}
use synapse_os.Workflows.Escalated.{Holds-expected, Stood, Left, OrLeft}
use synapse_os.Workflows.Cycles.{IsQuiet, run_cycles-returns}

abbrev escalation_reason : String
escalation_reason = "Workflow safely escalated for human attention."

reason_given : not (is_empty (strip escalation_reason)) ≡ true
unfolding strip
reason_given = refl

move_human :
    (row : TaskRow)
    → can_transition row.status TaskStatus.waiting_human ≡ true
    → (staged : Staged) × (move TaskStatus.waiting_human AuditActorType.system none
          escalation_reason
          (row, [])
        ≡ ok staged)
      × (staged.0.status ≡ TaskStatus.waiting_human)
unfolding move
move_human row edge =
    let (done, e, human) =
      transition_task-goes
        (record {
          id = row.id;
          project_id = row.project_id;
          persisted = row.status;
          status = row.status;
          authorization = none;
        })
        (record {
          target = TaskStatus.waiting_human;
          actor_type = AuditActorType.system;
          actor_id = none;
          reason = escalation_reason;
          object_id = 0;
        })
        refl edge reason_given refl in
    rw (move, e) (_, refl, human)

-- The stage of an escalation does not raise.
stage_safe_failure-human :
    (code : WorkflowErrorCode) (status : TaskStatus) (row : TaskRow)
    → is_safe_code code ≡ true
    → row.status ≡ status
    → can_transition status TaskStatus.waiting_human ≡ true
    → (staged : Staged) × (stage_safe_failure code (row, []) ≡ ok staged)
      × (staged.0.status ≡ TaskStatus.waiting_human)
unfolding stage_safe_failure
stage_safe_failure-human code status row safe at edge =
    let (staged, e, human) =
      move_human row (ap (λ s. can_transition s TaskStatus.waiting_human) at ∙ edge) in
    (
      staged,
      ap
            (λ b. require b (workflow WorkflowErrorCode.invalid_input) >>= λ _.
              move TaskStatus.waiting_human AuditActorType.system none escalation_reason (row, []))
            safe
          ∙ e,
      human,
    )

normal-safe :
    (code : WorkflowErrorCode)
    → is_invalid_state code ≡ false
    → (is_safe_code (normalization_code code) ≡ true)
      × (is_invalid_state (normalization_code code) ≡ false)
normal-safe WorkflowErrorCode.invalid_input h = (refl, refl)
normal-safe WorkflowErrorCode.invalid_scope h = (refl, refl)
normal-safe WorkflowErrorCode.invalid_state h = absurd (cc)
normal-safe WorkflowErrorCode.invalid_role h = (refl, refl)
normal-safe WorkflowErrorCode.invalid_agent h = (refl, refl)
normal-safe WorkflowErrorCode.unsafe_handoff h = (refl, refl)
normal-safe WorkflowErrorCode.timeout h = (refl, refl)
normal-safe WorkflowErrorCode.collaborator_failure h = (refl, refl)
normal-safe WorkflowErrorCode.persistence_failure h = (refl, refl)
normal-safe WorkflowErrorCode.internal_failure h = (refl, refl)

module _ {S : Type 0} where
  -- The task waits for a human.
  abbrev pub WaitsForHuman : Run S → Type 0
  WaitsForHuman run =
      (row : TaskRow) × (run.world.row ≡ some row) × (row.status ≡ TaskStatus.waiting_human)

  -- The task is the developer's, in the status of the last checkpoint, from which a human can be
  -- asked.
  pub record IsLeft (agent : ℕ) (run : Run S) : Type 0 where
    pub row : TaskRow
    pub there : run.world.row ≡ some row
    pub owned : row.assigned_agent_id ≡ some agent
    pub at_checkpoint : row.status ≡ run.checkpoint_status
    pub askable : can_transition row.status TaskStatus.waiting_human ≡ true

  Left-IsLeft : (agent : ℕ) (e : Abort) (run : Run S) → Left agent e run → IsLeft agent run
  Left-IsLeft agent e run l = record {
    row = l.stood.row;
    there = l.stood.there;
    owned = l.stood.holds.by;
    at_checkpoint = l.stood.holds.at ∙ sym l.stood.checkpoint;
    askable = ap (λ s. can_transition s TaskStatus.waiting_human) l.stood.holds.at ∙ l.edge;
  }

  -- What a run that raises leaves. With an error: it has not started and the row is as it was, or the
  -- task waits for a human. With a cancellation: the task where the last checkpoint left it.
  abbrev pub FailsSafely : TaskRow → ℕ → Result WorkflowStop WorkflowResult → Run S → Type 0
  FailsSafely row agent (ok r) run = Unit {0}
  FailsSafely row agent (err WorkflowStop.cancelled) run = IsLeft agent run
  FailsSafely row agent (err (WorkflowStop.failed code)) run =
      ((run.workflow_started ≡ false) × (run.world.row ≡ some row)) ⊎ WaitsForHuman run

  pub give_up-stops :
      {D H Q : Type 0} (db : Database S) (parts : Collaborators S D H Q) (scope : Scope)
      (code : WorkflowErrorCode) (run : Run S)
      → (c : WorkflowErrorCode) × ((give_up db parts scope code run).0
          ≡ err (WorkflowStop.failed c))
  unfolding give_up
  give_up-stops db parts scope code run =
      elim (Bool-cases (run.workflow_started && not (is_invalid_state code))) [
        | inl e ↦ rw (e, if◌then◌else◌) (_, refl)
        | inr e ↦ rw (e, if◌then◌else◌) (_, refl)
      ]

  module _ {D H Q : Type 0} (db : Database S) (parts : Collaborators S D H Q) (scope : Scope)
      (reliable : IsReliable db Deadline.of_recovery) where
    Goes-row :
        {row : Option TaskRow} (r : Result WorkflowErrorCode (Unit {0})) (w : World S)
        → Goes db (λ _ w. w.row ≡ row) r w
        → w.row ≡ row
    Goes-row (ok a) w p = p
    Goes-row (err e) w p = absurd p

    give_up-human :
        (code : WorkflowErrorCode) (status : TaskStatus) (run : Run S)
        → is_safe_code code ≡ true
        → is_invalid_state code ≡ false
        → can_transition status TaskStatus.waiting_human ≡ true
        → Stood status scope.developer_id run
        → WaitsForHuman (give_up db parts scope code run).1
    unfolding give_up escalate commit_safe_failure
    give_up-human code status run safe valid edge stood =
        let (staged, e, human) =
          stage_safe_failure-human code status stood.row safe stood.holds.at edge in
        let after =
          commit_checkpoint-Goes db Deadline.of_recovery
            (assigned_snapshot scope run.checkpoint_status) (stage_safe_failure code) stood.row
            staged reliable
            (rw (stood.checkpoint) (Holds-expected scope status stood.row stood.holds)) e run.world
            stood.there in
        let test : (run.workflow_started && not (is_invalid_state code)) ≡ true =
          (let started = stood.started in ground arith) in
        rw (test, if◌then◌else◌) (staged.0, Goes-row _ _ after, human)

    -- How the body ends, from a task that is ready and unassigned.
    data BodyEnds (row : TaskRow) : Result Abort (Option WorkflowResult) → Run S → Type 0 where
      returns : (r : WorkflowResult) (run : Run S) → BodyEnds row (ok (some r)) run
      unstarted :
          (code : WorkflowErrorCode) (run : Run S)
          → run.workflow_started ≡ false
          → run.world.row ≡ some row
          → BodyEnds row (err (Abort.failed code)) run
      left : (e : Abort) (run : Run S) → Left scope.developer_id e run → BodyEnds row (err e) run

    give_up-FailsSafely :
        (row : TaskRow) (code : WorkflowErrorCode) (run : Run S)
        → (((give_up db parts scope code run).1.workflow_started ≡ false)
            × ((give_up db parts scope code run).1.world.row ≡ some row))
          ⊎ WaitsForHuman (give_up db parts scope code run).1
        → FailsSafely row scope.developer_id
            (give_up db parts scope code run).0
            (give_up db parts scope code run).1
    give_up-FailsSafely row code run h =
        let (c, e) = give_up-stops db parts scope code run in
        subst (λ r. FailsSafely row scope.developer_id r (give_up db parts scope code run).1)
          (sym e) h

    give_up-unstarted :
        (code : WorkflowErrorCode) (run : Run S)
        → run.workflow_started ≡ false
        → give_up db parts scope code run ≡ (err (WorkflowStop.failed code), run)
    unfolding give_up
    give_up-unstarted code run h =
        let test : (run.workflow_started && not (is_invalid_state code)) ≡ false =
          ap (λ b. b && not (is_invalid_state code)) h in
        rw (test, if◌then◌else◌) refl

    settle-FailsSafely :
        (row : TaskRow) (r : Result Abort (Option WorkflowResult)) (run : Run S)
        → BodyEnds row r run
        → FailsSafely row scope.developer_id
            (settle db parts scope r run).0
            (settle db parts scope r run).1
    unfolding settle give_up
    settle-FailsSafely row (ok (some r)) run (BodyEnds.returns _ _) = tt
    settle-FailsSafely row (ok none) run h = elim h [ ]
    settle-FailsSafely row (err (Abort.failed code)) run (BodyEnds.unstarted _ _ h there) =
        subst (λ o. FailsSafely row scope.developer_id o.0 o.1)
          (sym (
            give_up-unstarted (if run.workflow_started then normalization_code code else code) run
              h))
          (inl (h, there))
    settle-FailsSafely row (err Abort.cancelled) run (BodyEnds.left _ _ l) =
        Left-IsLeft scope.developer_id Abort.cancelled run l
    settle-FailsSafely row (err Abort.deadline) run (BodyEnds.left _ _ l) =
        give_up-FailsSafely row WorkflowErrorCode.timeout run
          (inr (give_up-human WorkflowErrorCode.timeout l.status run refl refl l.edge l.stood))
    settle-FailsSafely row (err Abort.exception) run (BodyEnds.left _ _ l) =
        give_up-FailsSafely row WorkflowErrorCode.internal_failure run (
          inr (
            give_up-human WorkflowErrorCode.internal_failure l.status run refl refl l.edge l.stood))
    settle-FailsSafely row (err (Abort.failed code)) run (BodyEnds.left _ _ l) =
        let (safe, valid) = normal-safe code l.code in
        let started = l.stood.started in
        subst
          (λ b.
            let out = give_up db parts scope (if b then normalization_code code else code) run in
            FailsSafely row scope.developer_id out.0 out.1)
          (sym started)
          (give_up-FailsSafely row (normalization_code code) run
            (inr (give_up-human (normalization_code code) l.status run safe valid l.edge l.stood)))

    module _ (row : TaskRow) (is_ready : row.status ≡ TaskStatus.ready)
        (is_free : row.assigned_agent_id ≡ none) where
      -- The run before its first checkpoint.
      abbrev Fresh : Run S → Type 0
      Fresh run = (run.workflow_started ≡ false) × (run.world.row ≡ some row)

      data Assigned : Result Abort (Unit {0}) → Run S → Type 0 where
        assigned_now :
            (run : Run S)
            → Stands TaskStatus.assigned scope.developer_id run.world
            → Assigned (ok tt) run
        not_assigned :
            (code : WorkflowErrorCode) (run : Run S)
            → Fresh run
            → Assigned (err (Abort.failed code)) run

      commit-Assigned : Triple Fresh (commit (commit_assignment db scope)) Assigned
      unfolding commit_assignment same_status
      commit-Assigned run (fresh, there) =
          let same_state = (same_iff TaskStatus-discrete row.status TaskStatus.ready).1 is_ready in
          after (commit_assignment db scope run.world).0 (commit_assignment db scope run.world).1 (
            commit_checkpoint-Reached db Deadline.of_run TaskStatus.assigned scope.developer_id
              (record { status = TaskStatus.ready; assigned_agent_id = none })
              (stage_assignment scope) row (rw (same_state, is_free) refl)
              (stage_assignment-Ends scope (row, []) is_ready) run.world there)
        where
          after :
              (r : Result WorkflowErrorCode (Unit {0})) (w : World S)
              → Reached db TaskStatus.assigned scope.developer_id row r w
              → let out : Result Abort (Unit {0}) = elim r [
                | ok a ↦ ok a
                | err code ↦ err (Abort.failed code)
              ] in
                Assigned out (record run { world = w })
          after (ok tt) w (OrKept.goes _ _ stands) = Assigned.assigned_now _ stands
          after (err code) w (OrKept.keeps _ _ h kept) = Assigned.not_assigned code _ (fresh, kept)

      run_scope-BodyEnds :
          (leb 1 scope.max_review_cycles && leb scope.max_review_cycles 10) ≡ true
          → IsQuiet parts
          → Triple Fresh (run_scope db parts scope) (BodyEnds row)
      unfolding run_scope
      run_scope-BodyEnds bounds quiet =
          Triple-bind Fresh (commit (commit_assignment db scope)) _ Assigned (BodyEnds row)
            commit-Assigned next stop
        where
          ended :
              (r : Result Abort (Option WorkflowResult)) (run : Run S)
              → OrLeft scope.developer_id
                  (λ done run'. (x : WorkflowResult) × (done ≡ some x))
                  r
                  run
              → BodyEnds row r run
          ended (ok none) run (OrLeft.goes_on _ _ p) = absurd (cc)
          ended (ok (some x)) run (OrLeft.goes_on _ _ p) = BodyEnds.returns x run
          ended (err e) run (OrLeft.leaves _ _ l) = BodyEnds.left e run l

          next :
              (a : Unit {0})
              → Triple
                  (Assigned (ok a))
                  (set_started
                    >> (set_checkpoint TaskStatus.assigned
                        >> run_cycles db parts scope scope.max_review_cycles 1))
                  (BodyEnds row)
          next a run (Assigned.assigned_now _ stands) = ended _ _ (
              run_cycles-returns db parts scope quiet scope.max_review_cycles 1 bounds (omega arith)
                (omega arith) (ground arith) _
                (record {
                  started = refl;
                  checkpoint = refl;
                  row = stands.row;
                  there = stands.there;
                  holds = stands.holds;
                }))

          stop : (e : Abort) (run : Run S) → Assigned (err e) run → BodyEnds row (err e) run
          stop e run (Assigned.not_assigned code _ fresh) =
              BodyEnds.unstarted code run fresh.0 fresh.1

pub run_workflow-run_validated :
    {S D H Q : Type 0} (db : Database S) (parts : Collaborators S D H Q) (w w' : World S)
    (scope : Scope)
    → parts.preflight w ≡ (ok scope, w')
    → run_workflow db parts w
      ≡ run_validated db parts scope
          (record { workflow_started = false; checkpoint_status = TaskStatus.ready; world = w' })
unfolding run_workflow
run_workflow-run_validated {S} db parts w w' scope e = ap outcome e
  where
    outcome : Result WorkflowErrorCode Scope × World S → Result WorkflowStop WorkflowResult × Run S
    outcome p =
        let fresh : Run S = record {
          workflow_started = false;
          checkpoint_status = TaskStatus.ready;
          world = p.1;
        } in
        elim p.0 [
          | err code ↦ (err (WorkflowStop.failed code), fresh)
          | ok found ↦ run_validated db parts found fresh
        ]

-- With collaborators that leave the row of the task alone, and whatever the database and the clock
-- do before, if in an escalation the deadline is not over and no call of the database fails but a
-- rollback, a run whose preflight has found the task ready and unassigned, and whose bound on cycles
-- is from 1 to 10, raises an error only with the task waiting for a human, or before it has started,
-- with the row as it was; and a run that is cancelled leaves the task to the developer in the status
-- of the last checkpoint, from which a human can be asked.
pub run_workflow-FailsSafely :
    {S D H Q : Type 0} (db : Database S) (parts : Collaborators S D H Q) (w w' : World S)
    (scope : Scope) (row : TaskRow)
    → parts.preflight w ≡ (ok scope, w')
    → w'.row ≡ some row
    → row.status ≡ TaskStatus.ready
    → row.assigned_agent_id ≡ none
    → (leb 1 scope.max_review_cycles && leb scope.max_review_cycles 10) ≡ true
    → IsReliable db Deadline.of_recovery
    → IsQuiet parts
    → FailsSafely row scope.developer_id (run_workflow db parts w).0 (run_workflow db parts w).1
unfolding run_validated
run_workflow-FailsSafely {S} db parts w w' scope row e there is_ready is_free bounds reliable
      quiet =
    subst (λ o. FailsSafely row scope.developer_id o.0 o.1)
      (sym (run_workflow-run_validated db parts w w' scope e))
      (settle-FailsSafely db parts scope reliable row (run_scope db parts scope fresh).0
        (run_scope db parts scope fresh).1
        (run_scope-BodyEnds db parts scope reliable row is_ready is_free bounds quiet fresh
          (refl, there)))
  where
    fresh : Run S
    fresh = record { workflow_started = false; checkpoint_status = TaskStatus.ready; world = w' }
