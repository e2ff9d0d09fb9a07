-- ===== src/Workflows/Cycles.antt =====
-- The cycles of core/workflows/orchestrator.py whatever the database does: where they leave the task.
use synapse_os.Base.{
  arith, ℕ, zero, suc, ◌+◌, ◌≤◌, Bool, true, false, ◌&&◌, ◌==◌, leb, Option, none, some,
  if◌then◌else◌, Result, Bool-cases, inl, inr, ◌≡◌, refl, sym, ap, subst,
}
use synapse_os.Enums.{TaskStatus, same_status}
use synapse_os.Effects.{Effect, ◌>>=◌, pure}
use synapse_os.Effects.Triple.{Triple}
use synapse_os.Tasks.Graph.{can_transition, allowed_task_transitions}
use synapse_os.Workflows.Types.{
  ReviewDecision, WorkflowOutcome, Scope, ReviewerResult, WorkflowResult,
}
use synapse_os.Workflows.Stages.{
  reviewed_status, stage_developer_started, stage_next_review_cycle, stage_developer_completed,
  stage_developer_handoff, stage_review_completed, stage_review_cycle_exhausted,
}
use synapse_os.Workflows.Checkpoints.{
  World, Database, commit_developer_started, commit_developer_handoff, commit_developer_completed,
  commit_review_completed, commit_review_cycle_exhausted, commit_next_review_cycle,
}
use synapse_os.Workflows.Orchestrator.{
  Run, Abort, Collaborators, is_approved, is_truthful, result_with, build_result, start_cycle,
  accept_handoff, develop_cycle, review_cycle, exhaust, finished, conclude, run_cycle, run_cycles,
}
use synapse_os.Workflows.Moves.{
  stage_developer_started-Moves, stage_next_review_cycle-Moves, stage_developer_completed-Moves,
  stage_developer_handoff-Moves, stage_review_completed-Moves, stage_review_cycle_exhausted-Moves,
}
use synapse_os.Workflows.Escalated.{
  Stood, Moved, OrLeft, OrLeft-bind, commit-Moved, Moved-Stood, set-Stood, invoke-Stood,
}

-- The developer, the builder of handoffs and the reviewer leave the task's row alone.
pub record IsQuiet {S D H Q : Type 0} (parts : Collaborators S D H Q) : Type 0 where
  pub develops : (w : World S) → (parts.develop w).1.row ≡ w.row
  pub builds : (d : D) (cycle : ℕ) (w : World S) → (parts.build_handoff d cycle w).1.row ≡ w.row
  pub reviews : (q : Q) (w : World S) → (parts.review q w).1.row ≡ w.row

-- From where a cycle starts.
abbrev pub start_status : ℕ → TaskStatus
start_status cycle = if cycle == 1 then TaskStatus.assigned else TaskStatus.changes_requested

pub decision_of_test :
    (d : ReviewDecision) (b : Bool)
    → is_approved d ≡ b
    → d ≡ (if b then ReviewDecision.approved else ReviewDecision.changes_requested)
decision_of_test ReviewDecision.approved true e = refl
decision_of_test ReviewDecision.approved false e = absurd (cc)
decision_of_test ReviewDecision.changes_requested true e = absurd (cc)
decision_of_test ReviewDecision.changes_requested false e = refl

module _ {S D H Q : Type 0} (db : Database S) (parts : Collaborators S D H Q) (scope : Scope)
    (quiet : IsQuiet parts) where
  abbrev At : TaskStatus → Run S → Type 0
  At status run = Stood status scope.developer_id run

  abbrev OrEnds : {A : Type 0} → (A → Run S → Type 0) → Result Abort A → Run S → Type 0
  OrEnds P r run = OrLeft scope.developer_id P r run

  start_cycle-Moved :
      (cycle : ℕ)
      → Triple (At (start_status cycle)) (start_cycle db parts scope cycle) (
          OrEnds
            (λ _ run. Moved (start_status cycle) TaskStatus.in_progress scope.developer_id run))
  unfolding start_cycle commit_developer_started commit_next_review_cycle can_transition
      allowed_task_transitions
  start_cycle-Moved cycle = elim (Bool-cases (cycle == 1)) [
    | inl e ↦
        rw (e, if◌then◌else◌)
          (commit-Moved db scope TaskStatus.assigned TaskStatus.in_progress
            (stage_developer_started scope cycle) refl
            (stage_developer_started-Moves scope.developer_id scope cycle))
    | inr e ↦
        rw (e, if◌then◌else◌)
          (commit-Moved db scope TaskStatus.changes_requested TaskStatus.in_progress
            (stage_next_review_cycle scope cycle) refl
            (stage_next_review_cycle-Moves scope.developer_id scope cycle))
  ]

  -- A step of the body, and the rest of it.
  next :
      {A B : Type 0} {Pre : Run S → Type 0} {m : Effect (Run S) Abort A}
      {f : A → Effect (Run S) Abort B} {Q : B → Run S → Type 0} (P : A → Run S → Type 0)
      → Triple Pre m (OrEnds P)
      → ((a : A) → Triple (P a) (f a) (OrEnds Q))
      → Triple Pre (m >>= f) (OrEnds Q)
  next {Pre = Pre} {m = m} {f = f} {Q = Q} P h k = OrLeft-bind scope.developer_id Pre m f P Q h k

  accept_handoff-At :
      (q : Option Q)
      → Triple
          (At TaskStatus.waiting_review)
          (accept_handoff db parts scope q)
          (OrEnds (λ _ run. At TaskStatus.waiting_review run))
  unfolding can_transition allowed_task_transitions
  accept_handoff-At (some q) run stood = OrLeft.goes_on q run stood
  accept_handoff-At none run stood =
      OrLeft.leaves _ run
        (record { status = TaskStatus.waiting_review; stood = stood; edge = refl; code = refl })

  develop_cycle-At :
      (cycle : ℕ)
      → Triple
          (At (start_status cycle))
          (develop_cycle db parts scope cycle)
          (OrEnds (λ _ run. At TaskStatus.waiting_review run))
  unfolding develop_cycle commit_developer_completed can_transition allowed_task_transitions
  develop_cycle-At cycle =
      next (λ _ run. Moved (start_status cycle) TaskStatus.in_progress scope.developer_id run)
        (start_cycle-Moved cycle)
        (λ _.
          next
            (λ _ run.
              At TaskStatus.in_progress run × (run.world.object_status ≡ TaskStatus.in_progress))
            (set-Stood db scope (start_status cycle) TaskStatus.in_progress)
            (λ _.
              next (λ _ run. At TaskStatus.in_progress run)
                (λ run p.
                  invoke-Stood db scope TaskStatus.in_progress parts.develop quiet.develops refl run
                    p.0)
                (λ result.
                  next
                    (λ _ run.
                      Moved TaskStatus.in_progress TaskStatus.waiting_review scope.developer_id run)
                    (commit-Moved db scope TaskStatus.in_progress TaskStatus.waiting_review
                      (stage_developer_completed scope cycle) refl
                      (stage_developer_completed-Moves scope.developer_id scope cycle))
                    (λ _.
                      next
                        (λ _ run.
                          At TaskStatus.waiting_review run
                          × (run.world.object_status ≡ TaskStatus.waiting_review))
                        (set-Stood db scope TaskStatus.in_progress TaskStatus.waiting_review)
                        (λ _.
                          next (λ _ run. At TaskStatus.waiting_review run)
                            (λ run p.
                              invoke-Stood db scope TaskStatus.waiting_review
                                (parts.build_handoff result cycle) (quiet.builds result cycle) refl
                                run p.0)
                            (λ handoff.
                              accept_handoff-At (parts.validate_handoff result handoff)))))))

  -- After a review: the status of the decision, which the object has too.
  abbrev Reviewed : ReviewDecision → Run S → Type 0
  Reviewed d run = At (reviewed_status d) run × (run.world.object_status ≡ reviewed_status d)

  review_cycle-Reviewed :
      (cycle : ℕ) (q : Q)
      → Triple
          (At TaskStatus.waiting_review)
          (review_cycle db parts scope cycle q)
          (OrEnds (λ review run. Reviewed review.decision run))
  unfolding review_cycle commit_developer_handoff commit_review_completed can_transition
      allowed_task_transitions
  review_cycle-Reviewed cycle q =
      next
        (λ _ run. Moved TaskStatus.waiting_review TaskStatus.waiting_review scope.developer_id run)
        (commit-Moved db scope TaskStatus.waiting_review TaskStatus.waiting_review
          (stage_developer_handoff scope cycle) refl
          (stage_developer_handoff-Moves TaskStatus.waiting_review scope.developer_id scope cycle))
        (λ _.
          next (λ _ run. At TaskStatus.waiting_review run)
            (λ run p.
              invoke-Stood db scope TaskStatus.waiting_review (parts.review q) (quiet.reviews q)
                refl run (Moved-Stood db scope TaskStatus.waiting_review run p))
            (λ review.
              next
                (λ _ run.
                  Moved TaskStatus.waiting_review (reviewed_status review.decision)
                    scope.developer_id run)
                (commit-Moved db scope TaskStatus.waiting_review (reviewed_status review.decision)
                  (stage_review_completed scope cycle review.decision review.review_score
                    review.finding_count)
                  refl
                  (stage_review_completed-Moves scope.developer_id scope cycle review.decision
                    review.review_score review.finding_count))
                (λ _.
                  next (λ _ run. Reviewed review.decision run)
                    (set-Stood db scope TaskStatus.waiting_review (reviewed_status review.decision))
                    (λ _ run p. OrLeft.goes_on review run p))))

  -- What a cycle ends with: a result, or nothing and the task where the next cycle starts.
  abbrev Concluded : ℕ → Option WorkflowResult → Run S → Type 0
  Concluded cycle (some r) run = Unit {0}
  Concluded cycle none run =
      At TaskStatus.changes_requested run × ((cycle == scope.max_review_cycles) ≡ false)

  finished-ends :
      (Pre : Run S → Type 0) (cycle : ℕ) (m : Effect (Run S) Abort WorkflowResult)
      → Triple Pre m (OrEnds (λ _ run. Unit {0}))
      → Triple Pre (finished db parts scope m) (OrEnds (Concluded cycle))
  finished-ends Pre cycle m h =
      next (λ _ run. Unit {0}) h (λ r run p. OrLeft.goes_on (some r) run tt)

  -- An approved result that were not truthful would still be escalated.
  approve-ends :
      (cycle : ℕ) (review : ReviewerResult)
      → Triple
          (Reviewed ReviewDecision.approved)
          (build_result scope WorkflowOutcome.approved cycle review)
          (OrEnds (λ _ run. Unit {0}))
  unfolding build_result can_transition allowed_task_transitions
  approve-ends cycle review run stood =
      elim (Bool-cases
        (is_truthful (result_with scope WorkflowOutcome.approved cycle review run))) [
          | inl e ↦ rw (e, if◌then◌else◌) (OrLeft.goes_on _ run tt)
          | inr e ↦
              rw (e, if◌then◌else◌)
                (OrLeft.leaves _ run (record {
                  status = TaskStatus.waiting_qa;
                  stood = stood.0;
                  edge = refl;
                  code = refl;
                }))
        ]

  -- The result of an exhausted workflow is truthful.
  exhausted-truthful :
      (cycle : ℕ) (review : ReviewerResult) (run : Run S)
      → (leb 1 scope.max_review_cycles && leb scope.max_review_cycles 10) ≡ true
      → is_approved review.decision ≡ false
      → (cycle == scope.max_review_cycles) ≡ true
      → run.world.object_status ≡ TaskStatus.waiting_human
      → is_truthful (result_with scope WorkflowOutcome.review_cycles_exhausted cycle review run)
        ≡ true
  unfolding is_truthful same_status
  exhausted-truthful cycle review run bounds refused e at = rw (at, refused) (ground arith)

  exhausted-ends :
      (cycle : ℕ) (review : ReviewerResult)
      → (leb 1 scope.max_review_cycles && leb scope.max_review_cycles 10) ≡ true
      → is_approved review.decision ≡ false
      → (cycle == scope.max_review_cycles) ≡ true
      → Triple
          (λ run. run.world.object_status ≡ TaskStatus.waiting_human)
          (build_result scope WorkflowOutcome.review_cycles_exhausted cycle review)
          (OrEnds (λ _ run. Unit {0}))
  unfolding build_result
  exhausted-ends cycle review bounds refused e run at =
      rw (exhausted-truthful cycle review run bounds refused e at, if◌then◌else◌)
        (OrLeft.goes_on _ run tt)

  exhaust-ends :
      (cycle : ℕ) (review : ReviewerResult)
      → (leb 1 scope.max_review_cycles && leb scope.max_review_cycles 10) ≡ true
      → is_approved review.decision ≡ false
      → (cycle == scope.max_review_cycles) ≡ true
      → Triple
          (At TaskStatus.changes_requested)
          (exhaust db parts scope cycle review)
          (OrEnds (λ _ run. Unit {0}))
  unfolding exhaust commit_review_cycle_exhausted build_result can_transition
      allowed_task_transitions
  exhaust-ends cycle review bounds refused e =
      next
        (λ _ run.
          Moved TaskStatus.changes_requested TaskStatus.waiting_human scope.developer_id run)
        (commit-Moved db scope TaskStatus.changes_requested TaskStatus.waiting_human
          (stage_review_cycle_exhausted scope cycle scope.max_review_cycles) refl
          (stage_review_cycle_exhausted-Moves scope.developer_id scope cycle
            scope.max_review_cycles))
        (λ _.
          next
            (λ _ run.
              At TaskStatus.waiting_human run
              × (run.world.object_status ≡ TaskStatus.waiting_human))
            (set-Stood db scope TaskStatus.changes_requested TaskStatus.waiting_human)
            (λ _ run p. exhausted-ends cycle review bounds refused e run p.1))

  conclude-Concluded :
      (cycle : ℕ) (review : ReviewerResult)
      → (leb 1 scope.max_review_cycles && leb scope.max_review_cycles 10) ≡ true
      → Triple
          (Reviewed review.decision)
          (conclude db parts scope cycle review)
          (OrEnds (Concluded cycle))
  unfolding conclude
  conclude-Concluded cycle review bounds = elim (Bool-cases (is_approved review.decision)) [
    | inl e ↦
        rw (e, if◌then◌else◌)
          (finished-ends (Reviewed review.decision) cycle
            (build_result scope WorkflowOutcome.approved cycle review)
            (λ run p.
              approve-ends cycle review run
                (subst (λ d. Reviewed d run) (decision_of_test review.decision true e) p)))
    | inr e ↦ elim (Bool-cases (cycle == scope.max_review_cycles)) [
      | inl last ↦
          rw (e, if◌then◌else◌, last, if◌then◌else◌)
            (finished-ends (Reviewed review.decision) cycle (exhaust db parts scope cycle review)
              (λ run p.
                exhaust-ends cycle review bounds e last run
                  (subst (λ d. Reviewed d run) (decision_of_test review.decision false e) p).0))
      | inr more ↦
          rw (e, if◌then◌else◌, more, if◌then◌else◌)
            (λ run p.
              OrLeft.goes_on none run (
                (subst (λ d. Reviewed d run) (decision_of_test review.decision false e) p).0,
                more,
              ))
    ]
  ]

  run_cycle-Concluded :
      (cycle : ℕ)
      → (leb 1 scope.max_review_cycles && leb scope.max_review_cycles 10) ≡ true
      → Triple (At (start_status cycle)) (run_cycle db parts scope cycle) (OrEnds (Concluded cycle))
  unfolding run_cycle
  run_cycle-Concluded cycle bounds =
      next (λ _ run. At TaskStatus.waiting_review run) (develop_cycle-At cycle)
        (λ q.
          next (λ review run. Reviewed review.decision run) (review_cycle-Reviewed cycle q)
            (λ review. conclude-Concluded cycle review bounds))

  -- With the cycles up to the bound, the loop ends with a result or leaves the task to a human.
  pub run_cycles-returns :
      (left cycle : ℕ)
      → (leb 1 scope.max_review_cycles && leb scope.max_review_cycles 10) ≡ true
      → 1 ≤ cycle
      → cycle + left ≡ scope.max_review_cycles + 1
      → 1 ≤ left
      → Triple
          (At (start_status cycle))
          (run_cycles db parts scope left cycle)
          (OrEnds (λ done run. (r : WorkflowResult) × (done ≡ some r)))
  unfolding run_cycles
  run_cycles-returns zero cycle bounds low sum some_left = absurd (omega arith)
  run_cycles-returns (suc left) cycle bounds low sum some_left =
      next (Concluded cycle) (run_cycle-Concluded cycle bounds) (
        after (λ more run.
          run_cycles-returns left (cycle + 1) bounds (omega arith) (omega arith) (ground arith)
            run))
    where
      after :
          ((cycle == scope.max_review_cycles) ≡ false
            → Triple
                (At (start_status (cycle + 1)))
                (run_cycles db parts scope left (cycle + 1))
                (OrEnds (λ done run. (r : WorkflowResult) × (done ≡ some r))))
          → (done : Option WorkflowResult)
          → Triple
              (Concluded cycle done)
              (elim done [
                | some r ↦ pure (some r)
                | none ↦ run_cycles db parts scope left (cycle + 1)
              ])
              (OrEnds (λ done' run. (r : WorkflowResult) × (done' ≡ some r)))
      after rest (some r) run p = OrLeft.goes_on (some r) run (r, refl)
      after rest none run (stood, more) =
          let later : (cycle + 1 == 1) ≡ false = ground arith in
          rest more run (
            subst (λ s. At s run)
              (sym
                (ap (λ b. if b then TaskStatus.assigned else TaskStatus.changes_requested) later))
              stood)
