-- ===== src/Workflows/Committed.antt =====
-- What a checkpoint of core/workflows/audit.py leaves, committed or not.
use synapse_os.Base.{
  ℕ, true, false, [], Option, none, some, if◌then◌else◌, Result, ok, err, Bool-cases, inl, inr, ◌≡◌,
  refl, sym, ap, subst, ◌∙◌,
}
use synapse_os.Enums.{TaskStatus}
use synapse_os.Effects.{Effect, ◌>>=◌, ◌>>◌, pure, guard}
use synapse_os.Effects.Triple.{Triple, Triple-bind, Triple-handle}
use synapse_os.Workflows.Types.{WorkflowErrorCode, TaskRow, StageError}
use synapse_os.Workflows.Stages.{Staged, Stage}
use synapse_os.Workflows.Checkpoints.{
  World, DatabaseFailure, failure_code, Deadline, Database, check_deadline, configure_timeouts,
  TaskSnapshot, is_expected, stage_code, answered, read_row, from_stage, save, lock_expected,
  write_staged, attempt_checkpoint, recover, commit_checkpoint,
}
use synapse_os.Workflows.Orchestrator.{is_invalid_state}
use synapse_os.Workflows.Moves.{Holds, Ends}

module _ {S : Type 0} where
  -- The row is there, and the session's object has its status.
  pub record InSync (w : World S) : Type 0 where
    pub row : TaskRow
    pub there : w.row ≡ some row
    pub same : w.object_status ≡ row.status

  -- What holds of the world if the call goes through.
  abbrev pub Then : {E A : Type 0} → (World S → Type 0) → Result E A → World S → Type 0
  Then P (ok a) w = P w
  Then P (err e) w = Unit {0}

  abbrev pub Anything : World S → Type 0
  Anything w = Unit {0}

  -- The task has the status and the agent, and so has the session's object.
  pub record Stands (status : TaskStatus) (agent : ℕ) (w : World S) : Type 0 where
    pub row : TaskRow
    pub there : w.row ≡ some row
    pub holds : Holds status agent row
    pub object : w.object_status ≡ status

  module _ (db : Database S) where
    Triple-Anything :
        {E A B : Type 0} (m : Effect (World S) E A) (f : A → Effect (World S) E B)
        (P : World S → Type 0)
        → ((a : A) → Triple Anything (f a) (Then P))
        → Triple Anything (m >>= f) (Then P)
    Triple-Anything m f P h =
        Triple-bind Anything m f (λ r w. Unit {0}) (Then P) (λ w _. tt) (λ a w _. h a w tt)
          (λ e w _. tt)

    -- A checkpoint that goes through leaves the row and the object in step.
    pub commit_checkpoint-InSync :
        (deadline : Deadline) (expected : TaskSnapshot) (stage : Stage)
        → Triple Anything (commit_checkpoint db deadline expected stage) (Then InSync)
    unfolding commit_checkpoint attempt_checkpoint write_staged recover
    commit_checkpoint-InSync deadline expected stage =
        Triple-handle Anything (attempt_checkpoint db deadline expected stage) (recover db)
          (Then InSync) (Then InSync)
          (Triple-Anything (lock_expected db deadline expected)
            (λ row. write_staged db deadline (stage (row, []))) InSync
            (λ row.
              Triple-Anything (from_stage (stage (row, [])))
                (λ staged. answered (db.commit deadline) >>= λ _. save staged) InSync
                (λ staged.
                  Triple-Anything (answered (db.commit deadline)) (λ _. save staged) InSync
                    (λ _ w _. record { row = staged.0; there = refl; same = refl }))))
          (λ e w _. tt) (λ a w h. h)

    -- The row after a call that goes through.
    abbrev pub Goes : {E A : Type 0} → (A → World S → Type 0) → Result E A → World S → Type 0
    Goes P (ok a) w = P a w
    Goes P (err e) w = ⊥

    -- In a checkpoint of the deadline the deadline is not over and no call fails, but for a rollback.
    pub record IsReliable (deadline : Deadline) : Type 0 where
      pub begins : (s : S) → (db.begin deadline s).0 ≡ none
      pub in_time : (s : S) → (db.is_late deadline s).0 ≡ false
      pub sets : (s : S) → (db.set_timeouts deadline s).0 ≡ none
      pub locks : (s : S) → (db.lock deadline s).0 ≡ none
      pub commits : (s : S) → (db.commit deadline s).0 ≡ none

    -- A call gives a value with the property, or leaves the row and does not raise `INVALID_STATE`.
    pub data OrKept {A : Type 0} (row : TaskRow) (P : A → World S → Type 0)
        : Result WorkflowErrorCode A → World S → Type 0 where
      goes : (a : A) (w : World S) → P a w → OrKept row P (ok a) w
      keeps :
          (code : WorkflowErrorCode) (w : World S)
          → is_invalid_state code ≡ false
          → w.row ≡ some row
          → OrKept row P (err code) w

    OrKept-bind :
        {A B : Type 0} (row : TaskRow) (Pre : World S → Type 0)
        (m : Effect (World S) WorkflowErrorCode A) (f : A → Effect (World S) WorkflowErrorCode B)
        (P : A → World S → Type 0) (Q : B → World S → Type 0)
        → Triple Pre m (OrKept row P)
        → ((a : A) → Triple (P a) (f a) (OrKept row Q))
        → Triple Pre (m >>= f) (OrKept row Q)
    OrKept-bind {A} {B} row Pre m f P Q h k =
        Triple-bind Pre m f (OrKept row P) (OrKept row Q) h next stop
      where
        next : (a : A) (w : World S) → OrKept row P (ok a) w → OrKept row Q (f a w).0 (f a w).1
        next a w (OrKept.goes _ _ p) = k a w p

        stop :
            (e : WorkflowErrorCode) (w : World S) → OrKept row P (err e) w → OrKept row Q (err e) w
        stop e w (OrKept.keeps _ _ h there) = OrKept.keeps e w h there

    -- With the row in place.
    abbrev At : TaskRow → World S → Type 0
    At row w = w.row ≡ some row

    abbrev Found : TaskRow → TaskRow → World S → Type 0
    Found row r w = (r ≡ row) × (w.row ≡ some row)

    failure-valid : (f : DatabaseFailure) → is_invalid_state (failure_code f) ≡ false
    failure-valid DatabaseFailure.late = refl
    failure-valid DatabaseFailure.lost = refl
    failure-valid DatabaseFailure.broken = refl

    answered-OrKept :
        (row : TaskRow) (call : S → Option DatabaseFailure × S)
        → Triple (At row) (answered call) (OrKept row (λ _ w. At row w))
    answered-OrKept row call w e = after (call w.outside).0
      where
        after :
            (o : Option DatabaseFailure)
            → OrKept row
                (λ _ w. At row w)
                (elim o [ none ↦ ok tt | some f ↦ err (failure_code f) ])
                (record w { outside = (call w.outside).1 })
        after none = OrKept.goes tt _ e
        after (some f) = OrKept.keeps (failure_code f) _ (failure-valid f) e

    check_deadline-OrKept :
        (row : TaskRow) (deadline : Deadline)
        → Triple (At row) (check_deadline db deadline) (OrKept row (λ _ w. At row w))
    check_deadline-OrKept row deadline w e = elim (Bool-cases (db.is_late deadline w.outside).0) [
      | inl late ↦ rw (late, if◌then◌else◌) (OrKept.keeps WorkflowErrorCode.timeout _ refl e)
      | inr timely ↦ rw (timely, if◌then◌else◌) (OrKept.goes tt _ e)
    ]

    -- A step, and the rest.
    then-OrKept :
        {A : Type 0} (row : TaskRow) (m : Effect (World S) WorkflowErrorCode (Unit {0}))
        (k : Effect (World S) WorkflowErrorCode A) (Q : A → World S → Type 0)
        → Triple (At row) m (OrKept row (λ _ w. At row w))
        → Triple (At row) k (OrKept row Q)
        → Triple (At row) (m >> k) (OrKept row Q)
    then-OrKept row m k Q h rest =
        OrKept-bind row (At row) m (λ _. k) (λ _ w. At row w) Q h (λ _. rest)

    configure_timeouts-OrKept :
        (row : TaskRow) (deadline : Deadline)
        → Triple (At row) (configure_timeouts db deadline) (OrKept row (λ _ w. At row w))
    unfolding configure_timeouts
    configure_timeouts-OrKept row deadline =
        then-OrKept row (check_deadline db deadline) _ (λ _ w. At row w)
          (check_deadline-OrKept row deadline)
          (then-OrKept row (answered (db.set_timeouts deadline)) _ (λ _ w. At row w)
            (answered-OrKept row (db.set_timeouts deadline)) (check_deadline-OrKept row deadline))

    read_row-OrKept : (row : TaskRow) → Triple (At row) read_row (OrKept row (Found row))
    read_row-OrKept row w e = rw e (OrKept.goes row _ (refl, refl))

    agree-OrKept :
        (expected : TaskSnapshot) (row r : TaskRow)
        → is_expected expected row ≡ true
        → Triple
            (Found row r)
            (guard (is_expected expected r) WorkflowErrorCode.invalid_state >> pure r)
            (OrKept row (Found row))
    agree-OrKept expected row r h w (same, there) =
        let at_r = ap (is_expected expected) same ∙ h in
        rw (at_r, if◌then◌else◌) (OrKept.goes r w (same, there))

    lock_expected-OrKept :
        (deadline : Deadline) (expected : TaskSnapshot) (row : TaskRow)
        → is_expected expected row ≡ true
        → Triple (At row) (lock_expected db deadline expected) (OrKept row (Found row))
    unfolding lock_expected
    lock_expected-OrKept deadline expected row h =
        then-OrKept row (answered (db.begin deadline)) _ (Found row)
          (answered-OrKept row (db.begin deadline))
          (then-OrKept row (configure_timeouts db deadline) _ (Found row)
            (configure_timeouts-OrKept row deadline)
            (then-OrKept row (answered (db.lock deadline)) _ (Found row)
              (answered-OrKept row (db.lock deadline))
              (OrKept-bind row (At row) read_row _ (Found row) (Found row) (read_row-OrKept row)
                (λ r. agree-OrKept expected row r h))))

    -- A checkpoint takes the task to the status, or leaves its row and does not raise
    -- `INVALID_STATE`.
    abbrev pub Reached :
        TaskStatus → ℕ → TaskRow → Result WorkflowErrorCode (Unit {0}) → World S → Type 0
    Reached to agent row r w = OrKept row (λ _ w. Stands to agent w) r w

    write_staged-Reached :
        (deadline : Deadline) (to : TaskStatus) (agent : ℕ) (row : TaskRow)
        (result : Result StageError Staged)
        → Ends to agent result
        → Triple (At row) (write_staged db deadline result) (Reached to agent row)
    unfolding write_staged
    write_staged-Reached deadline to agent row (err e) (Ends.raises _ h) w there =
        OrKept.keeps (stage_code e) w h there
    write_staged-Reached deadline to agent row (ok staged) (Ends.stays _ held) w there =
        then-OrKept row (answered (db.commit deadline)) (save staged) (λ _ w. Stands to agent w)
          (answered-OrKept row (db.commit deadline))
          (λ w _.
            OrKept.goes tt _
              (record { row = staged.0; there = refl; holds = held; object = held.at }))
          w there

    recover-Reached :
        (to : TaskStatus) (agent : ℕ) (row : TaskRow) (code : WorkflowErrorCode)
        → Triple (Reached to agent row (err code)) (recover db code) (Reached to agent row)
    unfolding recover
    recover-Reached to agent row code w (OrKept.keeps _ _ h there) =
        elim (Bool-cases (db.rollback w.outside).0) [
          | inl e ↦ rw (e, if◌then◌else◌) (OrKept.keeps code _ h there)
          | inr e ↦
              rw (e, if◌then◌else◌)
                (OrKept.keeps WorkflowErrorCode.persistence_failure _ refl there)
        ]

    -- From the expected row, whatever the database's calls and the clock answer.
    pub commit_checkpoint-Reached :
        (deadline : Deadline) (to : TaskStatus) (agent : ℕ) (expected : TaskSnapshot)
        (stage : Stage) (row : TaskRow)
        → is_expected expected row ≡ true
        → Ends to agent (stage (row, []))
        → Triple (At row) (commit_checkpoint db deadline expected stage) (Reached to agent row)
    unfolding commit_checkpoint attempt_checkpoint
    commit_checkpoint-Reached deadline to agent expected stage row h ends =
        Triple-handle (At row) (attempt_checkpoint db deadline expected stage) (recover db)
          (Reached to agent row) (Reached to agent row)
          (OrKept-bind row (At row) (lock_expected db deadline expected)
            (λ r. write_staged db deadline (stage (r, []))) (Found row) (λ _ w. Stands to agent w)
            (lock_expected-OrKept deadline expected row h)
            (λ r w p.
              write_staged-Reached deadline to agent row (stage (r, []))
                (subst (λ x. Ends to agent (stage (x, []))) (sym p.0) ends) w p.1))
          (recover-Reached to agent row) (λ a w p. p)

    answered-Goes :
        (row : TaskRow) (call : S → Option DatabaseFailure × S)
        → ((s : S) → (call s).0 ≡ none)
        → Triple (At row) (answered call) (Goes (λ _ w. At row w))
    answered-Goes row call h w e = rw (h w.outside) e

    check_deadline-Goes :
        (row : TaskRow) (deadline : Deadline)
        → IsReliable deadline
        → Triple (At row) (check_deadline db deadline) (Goes (λ _ w. At row w))
    check_deadline-Goes row deadline reliable w e = rw (reliable.in_time w.outside, if◌then◌else◌) e

    then-Goes :
        {A : Type 0} (row : TaskRow) (m : Effect (World S) WorkflowErrorCode (Unit {0}))
        (k : Effect (World S) WorkflowErrorCode A) (Q : A → World S → Type 0)
        → Triple (At row) m (Goes (λ _ w. At row w))
        → Triple (At row) k (Goes Q)
        → Triple (At row) (m >> k) (Goes Q)
    then-Goes row m k Q h rest =
        Triple-bind (At row) m (λ _. k) (Goes (λ _ w. At row w)) (Goes Q) h (λ _. rest)
          (λ e w p. absurd p)

    configure_timeouts-Goes :
        (row : TaskRow) (deadline : Deadline)
        → IsReliable deadline
        → Triple (At row) (configure_timeouts db deadline) (Goes (λ _ w. At row w))
    unfolding configure_timeouts
    configure_timeouts-Goes row deadline reliable =
        then-Goes row (check_deadline db deadline) _ (λ _ w. At row w)
          (check_deadline-Goes row deadline reliable)
          (then-Goes row (answered (db.set_timeouts deadline)) _ (λ _ w. At row w)
            (answered-Goes row (db.set_timeouts deadline) reliable.sets)
            (check_deadline-Goes row deadline reliable))

    lock_expected-Goes :
        (deadline : Deadline) (expected : TaskSnapshot) (row : TaskRow)
        → IsReliable deadline
        → is_expected expected row ≡ true
        → Triple (At row) (lock_expected db deadline expected) (Goes (Found row))
    unfolding lock_expected
    lock_expected-Goes deadline expected row reliable h =
        then-Goes row (answered (db.begin deadline)) _ (Found row)
          (answered-Goes row (db.begin deadline) reliable.begins)
          (then-Goes row (configure_timeouts db deadline) _ (Found row)
            (configure_timeouts-Goes row deadline reliable)
            (then-Goes row (answered (db.lock deadline)) _ (Found row)
              (answered-Goes row (db.lock deadline) reliable.locks) found))
      where
        found :
            Triple
              (At row)
              (read_row >>= λ r.
                guard (is_expected expected r) WorkflowErrorCode.invalid_state >> pure r)
              (Goes (Found row))
        found w e = rw (e, h, if◌then◌else◌) (refl, refl)

    -- From the expected row, with a stage that does not raise, if nothing fails.
    pub commit_checkpoint-Goes :
        (deadline : Deadline) (expected : TaskSnapshot) (stage : Stage) (row : TaskRow)
        (staged : Staged)
        → IsReliable deadline
        → is_expected expected row ≡ true
        → stage (row, []) ≡ ok staged
        → Triple
            (At row)
            (commit_checkpoint db deadline expected stage)
            (Goes (λ _ w. w.row ≡ some staged.0))
    unfolding commit_checkpoint attempt_checkpoint write_staged
    commit_checkpoint-Goes deadline expected stage row staged reliable h e =
        Triple-handle (At row) (attempt_checkpoint db deadline expected stage) (recover db)
          (Goes (λ _ w. w.row ≡ some staged.0)) (Goes (λ _ w. w.row ≡ some staged.0))
          (Triple-bind (At row) (lock_expected db deadline expected)
            (λ r. write_staged db deadline (stage (r, []))) (Goes (Found row))
            (Goes (λ _ w. w.row ≡ some staged.0))
            (lock_expected-Goes deadline expected row reliable h)
            (λ r w p. written r (ap (λ x. stage (x, [])) p.0 ∙ e) w p.1) (λ e w p. absurd p))
          (λ code w p. absurd p) (λ a w p. p)
      where
        written :
            (r : TaskRow)
            → stage (r, []) ≡ ok staged
            → Triple
                (At row)
                (write_staged db deadline (stage (r, [])))
                (Goes (λ _ w. w.row ≡ some staged.0))
        written r e' =
            subst
              (λ x.
                Triple (At row) (write_staged db deadline x) (Goes (λ _ w. w.row ≡ some staged.0)))
              (sym e')
              (then-Goes row (answered (db.commit deadline)) (save staged)
                (λ _ w. w.row ≡ some staged.0)
                (answered-Goes row (db.commit deadline) reliable.commits) (λ w _. refl))
