-- ===== src/Workflows/Escalated.antt =====
-- That a run of core/workflows/orchestrator.py that fails leaves its task to a human.
use synapse_os.Base.{ℕ, true, false, [], some, Result, ok, err, ◌≡◌, refl, ◌∙◌, ==_iff, same_iff}
use synapse_os.Enums.{TaskStatus, same_status, TaskStatus-discrete}
use synapse_os.Effects.{Effect, ◌>>=◌}
use synapse_os.Effects.Triple.{Triple, Triple-bind}
use synapse_os.Tasks.Graph.{can_transition}
use synapse_os.Workflows.Types.{WorkflowErrorCode, Scope, TaskRow}
use synapse_os.Workflows.Stages.{Stage}
use synapse_os.Workflows.Checkpoints.{
  World, Deadline, Database, is_expected, assigned_snapshot, commit_checkpoint,
}
use synapse_os.Workflows.Orchestrator.{
  Run, Abort, Reply, is_invalid_state, commit, set_checkpoint, invoke,
}
use synapse_os.Workflows.Moves.{Holds, Moves}
use synapse_os.Workflows.Committed.{Stands, OrKept, Reached, commit_checkpoint-Reached}

pub Holds-expected :
    (scope : Scope) (status : TaskStatus) (row : TaskRow)
    → Holds status scope.developer_id row
    → is_expected (assigned_snapshot scope status) row ≡ true
unfolding same_status
Holds-expected scope status row held =
    let same_state = (same_iff TaskStatus-discrete row.status status).1 held.at in
    let same_id = (==_iff scope.developer_id scope.developer_id).1 refl in
    rw (same_state, held.by, same_id) refl

abbrev pub abort_code : Abort → WorkflowErrorCode
abort_code (Abort.failed code) = code
abort_code _ = WorkflowErrorCode.internal_failure

module _ {S : Type 0} where
  -- The run has started, the task has the developer, and its status is that of the last checkpoint.
  pub record Stood (status : TaskStatus) (agent : ℕ) (run : Run S) : Type 0 where
    pub started : run.workflow_started ≡ true
    pub checkpoint : run.checkpoint_status ≡ status
    pub row : TaskRow
    pub there : run.world.row ≡ some row
    pub holds : Holds status agent row

  -- The task has moved on, and the checkpoint is not noted yet.
  pub record Moved (from to : TaskStatus) (agent : ℕ) (run : Run S) : Type 0 where
    pub started : run.workflow_started ≡ true
    pub checkpoint : run.checkpoint_status ≡ from
    pub stands : Stands to agent run.world

  -- How a started run is left: it stands at a status from which a human can be asked.
  pub record Left (agent : ℕ) (e : Abort) (run : Run S) : Type 0 where
    pub status : TaskStatus
    pub stood : Stood status agent run
    pub edge : can_transition status TaskStatus.waiting_human ≡ true
    pub code : is_invalid_state (abort_code e) ≡ false

  -- The value's property, or such an end.
  pub data OrLeft {A : Type 0} (agent : ℕ) (P : A → Run S → Type 0)
      : Result Abort A → Run S → Type 0 where
    goes_on : (a : A) (run : Run S) → P a run → OrLeft agent P (ok a) run
    leaves : (e : Abort) (run : Run S) → Left agent e run → OrLeft agent P (err e) run

  pub OrLeft-bind :
      {A B : Type 0} (agent : ℕ) (Pre : Run S → Type 0) (m : Effect (Run S) Abort A)
      (f : A → Effect (Run S) Abort B) (P : A → Run S → Type 0) (Q : B → Run S → Type 0)
      → Triple Pre m (OrLeft agent P)
      → ((a : A) → Triple (P a) (f a) (OrLeft agent Q))
      → Triple Pre (m >>= f) (OrLeft agent Q)
  OrLeft-bind {A} {B} agent Pre m f P Q h k =
      Triple-bind Pre m f (OrLeft agent P) (OrLeft agent Q) h (λ a run p. next a run p) stop
    where
      next :
          (a : A) (run : Run S) → OrLeft agent P (ok a) run → OrLeft agent Q (f a run).0 (f a run).1
      next a run (OrLeft.goes_on _ _ p) = k a run p

      stop : (e : Abort) (run : Run S) → OrLeft agent P (err e) run → OrLeft agent Q (err e) run
      stop e run (OrLeft.leaves _ _ l) = OrLeft.leaves e run l

  module _ (db : Database S) (scope : Scope) where
    pub commit-Moved :
        (from to : TaskStatus) (stage : Stage)
        → can_transition from TaskStatus.waiting_human ≡ true
        → Moves from to scope.developer_id stage
        → Triple
            (Stood from scope.developer_id)
            (commit (commit_checkpoint db Deadline.of_run (assigned_snapshot scope from) stage))
            (OrLeft scope.developer_id (λ _ run. Moved from to scope.developer_id run))
    commit-Moved from to stage edge moves run stood =
        let h = Holds-expected scope from stood.row stood.holds in
        let ends = moves (stood.row, []) stood.holds in
        let at_world =
          commit_checkpoint-Reached db Deadline.of_run to scope.developer_id
            (assigned_snapshot scope from) stage stood.row h ends run.world stood.there in
        after
          (commit_checkpoint db Deadline.of_run (assigned_snapshot scope from) stage run.world).0
          (commit_checkpoint db Deadline.of_run (assigned_snapshot scope from) stage run.world).1
          at_world
      where
        after :
            (r : Result WorkflowErrorCode (Unit {0})) (w : World S)
            → Reached db to scope.developer_id stood.row r w
            → let out : Result Abort (Unit {0}) = elim r [
              | ok a ↦ ok a
              | err code ↦ err (Abort.failed code)
            ] in
              OrLeft scope.developer_id
                (λ _ run'. Moved from to scope.developer_id run')
                out
                (record run { world = w })
        after (ok tt) w (OrKept.goes _ _ stands) =
            OrLeft.goes_on tt _
              (record { started = stood.started; checkpoint = stood.checkpoint; stands = stands })
        after (err code) w (OrKept.keeps _ _ h there) =
            OrLeft.leaves (Abort.failed code) _ (record {
              status = from;
              stood = record {
                started = stood.started;
                checkpoint = stood.checkpoint;
                row = stood.row;
                there = there;
                holds = stood.holds;
              };
              edge = edge;
              code = h;
            })

    -- A checkpoint that keeps the status.
    pub Moved-Stood :
        (status : TaskStatus) (run : Run S)
        → Moved status status scope.developer_id run
        → Stood status scope.developer_id run
    Moved-Stood status run moved = record {
      started = moved.started;
      checkpoint = moved.checkpoint;
      row = moved.stands.row;
      there = moved.stands.there;
      holds = moved.stands.holds;
    }

    -- The status noted after a checkpoint.
    pub set-Stood :
        (from to : TaskStatus)
        → Triple (Moved from to scope.developer_id) (set_checkpoint to) (
            OrLeft scope.developer_id
              (λ _ run. Stood to scope.developer_id run × (run.world.object_status ≡ to)))
    set-Stood from to run moved = OrLeft.goes_on tt _ (
      record {
        started = moved.started;
        checkpoint = refl;
        row = moved.stands.row;
        there = moved.stands.there;
        holds = moved.stands.holds;
      },
      moved.stands.object,
    )

    pub invoke-Stood :
        {A : Type 0} (status : TaskStatus) (call : World S → Reply A × World S)
        → ((w : World S) → (call w).1.row ≡ w.row)
        → can_transition status TaskStatus.waiting_human ≡ true
        → Triple
            (Stood status scope.developer_id)
            (invoke call)
            (OrLeft scope.developer_id (λ _ run. Stood status scope.developer_id run))
    invoke-Stood {A} status call quiet edge run stood = after (call run.world).0
      where
        still : Stood status scope.developer_id (record run { world = (call run.world).1 })
        still = record {
          started = stood.started;
          checkpoint = stood.checkpoint;
          row = stood.row;
          there = quiet run.world ∙ stood.there;
          holds = stood.holds;
        }

        after :
            (reply : Reply A)
            → let out : Result Abort A = elim reply [
              | Reply.replied a ↦ ok a
              | Reply.late ↦ err Abort.deadline
              | Reply.stopped ↦ err Abort.cancelled
              | Reply.broken ↦ err (Abort.failed WorkflowErrorCode.collaborator_failure)
            ] in
              OrLeft scope.developer_id
                (λ _ run'. Stood status scope.developer_id run')
                out
                (record run { world = (call run.world).1 })
        after (Reply.replied a) = OrLeft.goes_on a _ still
        after Reply.late =
            OrLeft.leaves Abort.deadline _
              (record { status = status; stood = still; edge = edge; code = refl })
        after Reply.stopped =
            OrLeft.leaves Abort.cancelled _
              (record { status = status; stood = still; edge = edge; code = refl })
        after Reply.broken =
            OrLeft.leaves (Abort.failed WorkflowErrorCode.collaborator_failure) _
              (record { status = status; stood = still; edge = edge; code = refl })
