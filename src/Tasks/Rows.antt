-- ===== src/Tasks/Rows.antt =====
-- What the rows of the task table can become, whatever code does through a session.
use synapse_os.Base.{
  ℕ, zero, suc, true, false, List, [], ◌∷◌, some, get_elem?, ◌≡◌, ◌∙◌, refl, sym, ap, subst, ok,
  Each,
}
use synapse_os.Enums.{
  TaskStatus, completed, waiting_security, waiting_qa, waiting_review, in_progress,
}
use synapse_os.Tasks.Walks.{
  Walk, Walk-trans, Follows, latest, is_terminal, is_gate, Follows-terminal, completed_gates,
}
use synapse_os.Tasks.StateMachine.{Task, Session}
use synapse_os.Tasks.Guard.{Transaction, flush}
use synapse_os.Tasks.Invariant.{Moved, flush-Moved}
use synapse_os.Tasks.Reach.{Reach, IsFresh, RowsMove, opened, opened-IsHeld, Reach-IsHeld}

RowsMove-at :
    (xs ys : List Task) (i : ℕ) (t : Task)
    → RowsMove xs ys
    → get_elem? xs i ≡ some t
    → (t' : Task) × (get_elem? ys i ≡ some t') × (t'.id ≡ t.id) × Walk t.persisted t'.persisted
RowsMove-at [] ys i t m e = absurd (cc)
RowsMove-at (x ∷ xs) [] i t m e = absurd m
RowsMove-at (x ∷ xs) (y ∷ ys) zero t m e =
    let p : x ≡ t = cc in (y, refl, cc, subst (λ (z : Task). Walk z.persisted y.persisted) p m.0.1)
RowsMove-at (x ∷ xs) (y ∷ ys) (suc i) t m e = RowsMove-at xs ys i t m.1 e

-- Whatever transitions, other writes, flushes, commits and rollbacks a session goes through from a
-- fresh start, every task keeps its identity, its committed row has moved along approved transitions
-- from the row at the start, and its row in the session has moved so from the committed row.
pub rows_follow_graph :
    (s : Session) (y : Transaction) (i : ℕ) (t : Task)
    → IsFresh s.tasks
    → Reach (opened s) y
    → get_elem? s.tasks i ≡ some t
    → (kept : Task) × (seen : Task) × (get_elem? y.committed.tasks i ≡ some kept)
      × (get_elem? y.session.tasks i ≡ some seen)
      × (kept.id ≡ t.id)
      × (seen.id ≡ t.id)
      × Walk t.persisted kept.persisted
      × Walk kept.persisted seen.persisted
rows_follow_graph s y i t fresh r e =
    let (stays, held) = Reach-IsHeld (opened-IsHeld s fresh) r in
    let (kept, at, same, walk) = RowsMove-at s.tasks y.committed.tasks i t stays e in
    let (seen, at', same', walk') =
      RowsMove-at y.committed.tasks y.session.tasks i kept held.0 at in
    (kept, seen, at, at', same, same' ∙ same, walk, walk')

-- From a fresh start, in which the rows are as committed, a row that says completed or cancelled
-- keeps saying so, in the database and in the session, whatever transitions, other writes, flushes,
-- commits and rollbacks the session goes through.
pub terminal_rows_stay :
    (s : Session) (y : Transaction) (i : ℕ) (t : Task)
    → IsFresh s.tasks
    → Reach (opened s) y
    → get_elem? s.tasks i ≡ some t
    → is_terminal t.persisted ≡ true
    → (kept : Task) × (seen : Task) × (get_elem? y.committed.tasks i ≡ some kept)
      × (get_elem? y.session.tasks i ≡ some seen)
      × (kept.persisted ≡ t.persisted)
      × (seen.persisted ≡ t.persisted)
terminal_rows_stay s y i t fresh r e h =
    let (kept, seen, at, at', _, _, walk, walk') = rows_follow_graph s y i t fresh r e in
    let whole = Walk-trans t.persisted kept.persisted seen.persisted walk walk' in
    (
      kept,
      seen,
      at,
      at',
      sym walk.2 ∙ Follows-terminal t.persisted walk.0 h walk.1,
      sym whole.2 ∙ Follows-terminal t.persisted whole.0 h whole.1,
    )

-- From a fresh start, a row that starts before review says completed in the session, committed or
-- only flushed, only after changes that end with review, QA, security and completed, one after the
-- other, and with in progress before them.
pub completed_rows_gated :
    (s : Session) (y : Transaction) (i : ℕ) (t t' : Task)
    → IsFresh s.tasks
    → Reach (opened s) y
    → get_elem? s.tasks i ≡ some t
    → get_elem? y.session.tasks i ≡ some t'
    → is_gate t.persisted ≡ false
    → t'.persisted ≡ completed
    → (older : List TaskStatus) × Follows t.persisted
        (completed ∷ waiting_security ∷ waiting_qa ∷ waiting_review ∷ older)
      × (latest t.persisted older ≡ in_progress)
completed_rows_gated s y i t t' fresh r e e' g c =
    let (kept, seen, _, at, _, _, first, second) = rows_follow_graph s y i t fresh r e in
    let same : seen ≡ t' = cc in
    let walk = Walk-trans t.persisted kept.persisted seen.persisted first second in
    let (older, shape, start) =
      completed_gates t.persisted walk.0 g walk.1
        (walk.2 ∙ ap (λ (x : Task). x.persisted) same ∙ c) in
    (older, subst (Follows t.persisted) shape walk.1, start)

-- In a session that has gone through any transitions, other writes, flushes, commits and rollbacks
-- from a fresh start, a flush that goes through writes the status of every task to its row along
-- approved transitions and uses up its authorization, and where that changes the row, the
-- authorization leads from the row to the status, with all its events about to be written.
pub reached_flush-Moved :
    (s u : Session) (x : Transaction)
    → IsFresh s.tasks
    → Reach (opened s) x
    → flush x.session ≡ ok u
    → Each (Moved x.session.new) x.session.tasks u.tasks
reached_flush-Moved s u x fresh r h =
    flush-Moved x.session u (Reach-IsHeld (opened-IsHeld s fresh) r).1.1 h
