-- ===== src/Workflows/Truthful.antt =====
-- That a result of core/workflows/orchestrator.py tells what the database holds.
use synapse_os.Base.{
  ℕ, zero, suc, ◌+◌, true, false, ◌==◌, Option, none, some, if◌then◌else◌, Result, ok, err,
  Bool-cases, inl, inr, ◌≤◌, ◌||◌, not, arith, ==_iff, ◌≡◌, sym, subst,
}
use synapse_os.Enums.{TaskStatus, same_status_iff}
use synapse_os.Effects.{Effect, ◌>>=◌, ◌>>◌, pure}
use synapse_os.Effects.Triple.{Triple, Triple-bind}
use synapse_os.Workflows.Types.{
  WorkflowErrorCode, ReviewDecision, WorkflowOutcome, Scope, TaskRow, ReviewerResult,
  WorkflowResult,
}
use synapse_os.Workflows.Stages.{
  Stage, reviewed_status, stage_review_completed, stage_review_cycle_exhausted,
}
use synapse_os.Workflows.Checkpoints.{
  World, Deadline, Database, TaskSnapshot, assigned_snapshot, commit_checkpoint, commit_assignment,
  commit_developer_handoff, commit_review_completed, commit_review_cycle_exhausted,
}
use synapse_os.Workflows.Orchestrator.{
  Run, Abort, WorkflowStop, Collaborators, normalization_code, is_approved, is_truthful,
  is_terminal_pair, is_exhausted, is_expected_decision, result_with, build_result, commit, invoke,
  set_checkpoint, set_started, develop_cycle, review_cycle, exhaust, finished, conclude, run_cycle,
  run_cycles, run_scope, give_up, settle, run_validated, run_workflow,
}
use synapse_os.Workflows.Committed.{InSync, Then, commit_checkpoint-InSync}
use synapse_os.Workflows.Cycles.{decision_of_test}
use synapse_os.Workflows.Ended.{give_up-stops}

-- An outcome goes with the task's status and with the reviewer's decision.
abbrev pub IsVerdict : WorkflowOutcome → WorkflowResult → Type 0
IsVerdict WorkflowOutcome.approved r =
    (r.task_status ≡ TaskStatus.waiting_qa) × (r.reviewer_result.decision ≡ ReviewDecision.approved)
IsVerdict WorkflowOutcome.review_cycles_exhausted r =
    (r.task_status ≡ TaskStatus.waiting_human)
    × (r.reviewer_result.decision ≡ ReviewDecision.changes_requested)
    × (r.developer_cycles ≡ r.max_review_cycles)

-- What a result says fits together.
pub record IsCoherent (r : WorkflowResult) : Type 0 where
  pub verdict : IsVerdict r.outcome r
  pub same_cycles : r.developer_cycles ≡ r.reviewer_cycles
  pub some_cycle : 1 ≤ r.developer_cycles
  pub within_bound : r.developer_cycles ≤ r.max_review_cycles
  pub bounded : r.max_review_cycles ≤ 10

tests-IsVerdict :
    (o : WorkflowOutcome) (r : WorkflowResult)
    → is_terminal_pair r.task_status o ≡ true
    → is_expected_decision o r.reviewer_result.decision ≡ true
    → (not (is_exhausted o) || r.developer_cycles == r.max_review_cycles) ≡ true
    → IsVerdict o r
tests-IsVerdict WorkflowOutcome.approved r pair decided full = (
  (same_status_iff r.task_status TaskStatus.waiting_qa).0 pair,
  decision_of_test r.reviewer_result.decision true decided,
)
tests-IsVerdict WorkflowOutcome.review_cycles_exhausted r pair decided full = (
  (same_status_iff r.task_status TaskStatus.waiting_human).0 pair,
  decision_of_test r.reviewer_result.decision false (ground arith),
  (==_iff r.developer_cycles r.max_review_cycles).0 full,
)

is_truthful-IsCoherent : (r : WorkflowResult) → is_truthful r ≡ true → IsCoherent r
unfolding is_truthful
is_truthful-IsCoherent r h = record {
  verdict = tests-IsVerdict r.outcome r (ground arith) (ground arith) (ground arith);
  same_cycles = ground arith;
  some_cycle = ground arith;
  within_bound = ground arith;
  bounded = ground arith;
}

module _ {S : Type 0} where
  -- What holds of the value and the run, if the call goes through.
  data Ok {E A : Type 0} (P : A → Run S → Type 0) : Result E A → Run S → Type 0 where
    went : (a : A) (run : Run S) → P a run → Ok P (ok a) run
    raised : (e : E) (run : Run S) → Ok P (err e) run

  abbrev Always : Run S → Type 0
  Always run = Unit {0}

  Ok-bind :
      {A B : Type 0} {Pre : Run S → Type 0} {m : Effect (Run S) Abort A}
      {f : A → Effect (Run S) Abort B} {Q : B → Run S → Type 0} (P : A → Run S → Type 0)
      → Triple Pre m (Ok P)
      → ((a : A) → Triple (P a) (f a) (Ok Q))
      → Triple Pre (m >>= f) (Ok Q)
  Ok-bind {A = A} {Pre = Pre} {m = m} {f = f} {Q = Q} P h k =
      Triple-bind Pre m f (Ok P) (Ok Q) h next (λ e run p. Ok.raised e run)
    where
      next : (a : A) → Triple (Ok {E = Abort} P (ok a)) (f a) (Ok Q)
      next a run (Ok.went _ _ p) = k a run p

  Ok-Always : {A : Type 0} (m : Effect (Run S) Abort A) → Triple Always m (Ok (λ _ run. Unit {0}))
  Ok-Always {A} m run p = after (m run).0
    where
      after : (r : Result Abort A) → Ok (λ _ run'. Unit {0}) r (m run).1
      after (ok a) = Ok.went a _ tt
      after (err e) = Ok.raised e _

  -- The result is truthful, and the row has its status.
  abbrev pub Tells : WorkflowResult → Run S → Type 0
  Tells r run =
      (is_truthful r ≡ true)
      × IsCoherent r
      × ((row : TaskRow) × (run.world.row ≡ some row) × (row.status ≡ r.task_status))

  build_result-Tells :
      (scope : Scope) (outcome : WorkflowOutcome) (cycle : ℕ) (review : ReviewerResult)
      → Triple (λ run. InSync run.world) (build_result scope outcome cycle review) (Ok Tells)
  unfolding build_result
  build_result-Tells scope outcome cycle review run sync =
      elim (Bool-cases (is_truthful (result_with scope outcome cycle review run))) [
        | inl e ↦
            rw (e, if◌then◌else◌)
              (Ok.went _ run
                (e, is_truthful-IsCoherent _ e, (sync.row, sync.there, sym (sync.same))))
        | inr e ↦ rw (e, if◌then◌else◌) (Ok.raised _ run)
      ]

  commit-InSync :
      (db : Database S) (deadline : Deadline) (expected : TaskSnapshot) (stage : Stage)
      → Triple Always
          (commit (commit_checkpoint db deadline expected stage))
          (Ok (λ _ run. InSync run.world))
  commit-InSync db deadline expected stage run p =
      after (commit_checkpoint db deadline expected stage run.world).0
        (commit_checkpoint db deadline expected stage run.world).1
        (commit_checkpoint-InSync db deadline expected stage run.world tt)
    where
      after :
          (r : Result WorkflowErrorCode (Unit {0})) (w : World S)
          → Then InSync r w
          → let out : Result Abort (Unit {0}) = elim r [
            | ok a ↦ ok a
            | err code ↦ err (Abort.failed code)
          ] in
            Ok (λ _ run'. InSync run'.world) out (record run { world = w })
      after (ok a) w h = Ok.went a _ h
      after (err code) w h = Ok.raised _ _

  module _ {D H Q : Type 0} (db : Database S) (parts : Collaborators S D H Q) (scope : Scope) where
    review_cycle-InSync :
        (cycle : ℕ) (q : Q)
        → Triple Always (review_cycle db parts scope cycle q) (Ok (λ _ run. InSync run.world))
    unfolding review_cycle commit_review_completed
    review_cycle-InSync cycle q =
        Ok-bind (λ _ run. Unit {0}) (Ok-Always (commit (commit_developer_handoff db scope cycle)))
          (λ _.
            Ok-bind (λ _ run. Unit {0}) (Ok-Always (invoke (parts.review q)))
              (λ review.
                Ok-bind {f = λ _. set_checkpoint (reviewed_status review.decision) >> pure review}
                  (λ _ run. InSync run.world)
                  (commit-InSync db Deadline.of_run
                    (assigned_snapshot scope TaskStatus.waiting_review)
                    (stage_review_completed scope cycle review.decision review.review_score
                      review.finding_count))
                  (λ _ run sync. Ok.went review _ sync)))

    exhaust-Tells :
        (cycle : ℕ) (review : ReviewerResult)
        → Triple Always (exhaust db parts scope cycle review) (Ok Tells)
    unfolding exhaust commit_review_cycle_exhausted
    exhaust-Tells cycle review =
        Ok-bind (λ _ run. InSync run.world)
          (commit-InSync db Deadline.of_run (assigned_snapshot scope TaskStatus.changes_requested)
            (stage_review_cycle_exhausted scope cycle scope.max_review_cycles))
          (λ _ run sync.
            build_result-Tells scope WorkflowOutcome.review_cycles_exhausted cycle review
              (record run { checkpoint_status = TaskStatus.waiting_human }) sync)

    -- A result, if there is one.
    abbrev MayTell : Option WorkflowResult → Run S → Type 0
    MayTell none run = Unit {0}
    MayTell (some r) run = Tells r run

    finished-MayTell :
        (Pre : Run S → Type 0) (m : Effect (Run S) Abort WorkflowResult)
        → Triple Pre m (Ok Tells)
        → Triple Pre (finished db parts scope m) (Ok MayTell)
    finished-MayTell Pre m h = Ok-bind Tells h (λ r run p. Ok.went (some r) run p)

    conclude-MayTell :
        (cycle : ℕ) (review : ReviewerResult)
        → Triple (λ run. InSync run.world) (conclude db parts scope cycle review) (Ok MayTell)
    unfolding conclude
    conclude-MayTell cycle review = elim (Bool-cases (is_approved review.decision)) [
      | inl e ↦
          rw (e, if◌then◌else◌)
            (finished-MayTell (λ run. InSync run.world)
              (build_result scope WorkflowOutcome.approved cycle review)
              (build_result-Tells scope WorkflowOutcome.approved cycle review))
      | inr e ↦ elim (Bool-cases (cycle == scope.max_review_cycles)) [
        | inl last ↦
            rw (e, if◌then◌else◌, last, if◌then◌else◌)
              (finished-MayTell (λ run. InSync run.world) (exhaust db parts scope cycle review)
                (λ run sync. exhaust-Tells cycle review run tt))
        | inr more ↦ rw (e, if◌then◌else◌, more, if◌then◌else◌) (λ run sync. Ok.went none run tt)
      ]
    ]

    run_cycle-MayTell : (cycle : ℕ) → Triple Always (run_cycle db parts scope cycle) (Ok MayTell)
    unfolding run_cycle
    run_cycle-MayTell cycle =
        Ok-bind (λ _ run. Unit {0}) (Ok-Always (develop_cycle db parts scope cycle))
          (λ q.
            Ok-bind (λ _ run. InSync run.world) (review_cycle-InSync cycle q)
              (conclude-MayTell cycle))

    run_cycles-MayTell :
        (left cycle : ℕ) → Triple Always (run_cycles db parts scope left cycle) (Ok MayTell)
    unfolding run_cycles
    run_cycles-MayTell zero cycle = λ run p. Ok.went none run tt
    run_cycles-MayTell (suc left) cycle =
        Ok-bind MayTell (run_cycle-MayTell cycle) (after (run_cycles-MayTell left (cycle + 1)))
      where
        after :
            Triple Always (run_cycles db parts scope left (cycle + 1)) (Ok MayTell)
            → (done : Option WorkflowResult)
            → Triple
                (MayTell done)
                (elim done [
                  | some r ↦ pure (some r)
                  | none ↦ run_cycles db parts scope left (cycle + 1)
                ])
                (Ok MayTell)
        after rest (some r) run p = Ok.went (some r) run p
        after rest none run p = rest run tt

    run_scope-MayTell : Triple Always (run_scope db parts scope) (Ok MayTell)
    unfolding run_scope
    run_scope-MayTell =
        Ok-bind
          {f = λ _.
            set_started
            >> (set_checkpoint TaskStatus.assigned
                >> run_cycles db parts scope scope.max_review_cycles 1)}
          (λ _ run. Unit {0}) (Ok-Always (commit (commit_assignment db scope)))
          (λ _ run p.
            run_cycles-MayTell scope.max_review_cycles 1
              (record run { workflow_started = true; checkpoint_status = TaskStatus.assigned }) tt)

    give_up-Ok :
        (code : WorkflowErrorCode) (run : Run S)
        → Ok Tells (give_up db parts scope code run).0 (give_up db parts scope code run).1
    give_up-Ok code run =
        subst (λ r. Ok Tells r (give_up db parts scope code run).1)
          (sym (give_up-stops db parts scope code run).1) (Ok.raised _ _)

    settle-Tells :
        (r : Result Abort (Option WorkflowResult)) (run : Run S)
        → Ok MayTell r run
        → Ok Tells (settle db parts scope r run).0 (settle db parts scope r run).1
    unfolding settle
    settle-Tells (ok (some r)) run (Ok.went _ _ h) = Ok.went r run h
    settle-Tells (ok none) run h = Ok.raised _ run
    settle-Tells (err Abort.cancelled) run h = Ok.raised _ run
    settle-Tells (err Abort.deadline) run h = give_up-Ok WorkflowErrorCode.timeout run
    settle-Tells (err Abort.exception) run h = give_up-Ok WorkflowErrorCode.internal_failure run
    settle-Tells (err (Abort.failed code)) run h =
        give_up-Ok (if run.workflow_started then normalization_code code else code) run

run_workflow-Ok :
    {S D H Q : Type 0} (db : Database S) (parts : Collaborators S D H Q) (w : World S)
    → Ok Tells (run_workflow db parts w).0 (run_workflow db parts w).1
unfolding run_workflow run_validated
run_workflow-Ok {S} db parts w = after (parts.preflight w).0 (parts.preflight w).1
  where
    after :
        (checked : Result WorkflowErrorCode Scope) (w' : World S)
        → let fresh : Run S = record {
          workflow_started = false;
          checkpoint_status = TaskStatus.ready;
          world = w';
        } in
          let out : Result WorkflowStop WorkflowResult × Run S = elim checked [
            | err code ↦ (err (WorkflowStop.failed code), fresh)
            | ok scope ↦ run_validated db parts scope fresh
          ] in
          Ok Tells out.0 out.1
    after (err code) w' = Ok.raised _ _
    after (ok scope) w' = settle-Tells db parts scope _ _ (run_scope-MayTell db parts scope _ tt)

-- Whatever the database and the collaborators do, a result that a run returns is truthful: approved
-- with the task waiting for QA and the reviewer's approval, or exhausted with the task waiting for a
-- human, changes requested and all cycles used, and after as many cycles of the developer as of the
-- reviewer, within the bound. At its return the task's row has the status that the result tells.
pub run_workflow-Tells :
    {S D H Q : Type 0} (db : Database S) (parts : Collaborators S D H Q) (w : World S)
    (r : WorkflowResult)
    → (run_workflow db parts w).0 ≡ ok r
    → Tells r (run_workflow db parts w).1
run_workflow-Tells {S} db parts w r h =
    tell (subst (λ o. Ok Tells o (run_workflow db parts w).1) h (run_workflow-Ok db parts w))
  where
    tell : {run : Run S} → Ok {E = WorkflowStop} Tells (ok r) run → Tells r run
    tell (Ok.went _ _ p) = p
