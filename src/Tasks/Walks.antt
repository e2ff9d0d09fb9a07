-- ===== src/Tasks/Walks.antt =====
-- Walks along the approved transitions of core/tasks/state_machine.py.
use synapse_os.Base.{Bool, true, false, List, [], ◌∷◌, ◌++◌, ap, ◌≡◌, ◌∙◌, refl, arith}
use synapse_os.Enums.{
  TaskStatus, backlog, ready, assigned, in_progress, waiting_review, changes_requested, waiting_qa,
  waiting_security, blocked, waiting_human, completed, failed, cancelled,
}
use synapse_os.Tasks.Graph.{can_transition}

-- The status after a list of changes, the newest first.
abbrev pub latest : TaskStatus → List TaskStatus → TaskStatus
latest s [] = s
latest s (t ∷ older) = t

-- Each change is an approved transition from the status before it.
abbrev pub Follows : TaskStatus → List TaskStatus → Type 0
Follows s [] = Unit
Follows s (t ∷ older) = (can_transition (latest s older) t ≡ true) × Follows s older

-- A walk from one status to another: its changes, the newest first.
abbrev pub Walk : TaskStatus → TaskStatus → Type 0
Walk s t = (changes : List TaskStatus) × Follows s changes × (latest s changes ≡ t)

pub latest-append :
    (s : TaskStatus) (xs ys : List TaskStatus) → latest s (xs ++ ys) ≡ latest (latest s ys) xs
latest-append s [] ys = refl
latest-append s (x ∷ xs) ys = refl

pub Follows-append :
    (s : TaskStatus) (xs ys : List TaskStatus)
    → Follows (latest s ys) xs
    → Follows s ys
    → Follows s (xs ++ ys)
Follows-append s [] ys hx hy = hy
Follows-append s (x ∷ xs) ys hx hy =
    (rw (latest-append s xs ys) hx.0, Follows-append s xs ys hx.1 hy)

pub Walk-refl : (s : TaskStatus) → Walk s s
Walk-refl s = ([], tt, refl)

pub Walk-trans : (s t u : TaskStatus) → Walk s t → Walk t u → Walk s u
Walk-trans s t u (xs, fx, ex) (ys, fy, ey) =
    (ys ++ xs, Follows-append s ys xs (rw ex fy) fx, latest-append s ys xs ∙ rw ex ey)

abbrev pub is_terminal : TaskStatus → Bool
is_terminal completed = true
is_terminal cancelled = true
is_terminal _ = false

-- Completed and cancelled have no approved transition out of them.
pub terminal_stuck : (s t : TaskStatus) → is_terminal s ≡ true → can_transition s t ≡ false
unfolding can_transition
terminal_stuck s t h = ground arith

pub Follows-terminal :
    (s : TaskStatus) (l : List TaskStatus) → is_terminal s ≡ true → Follows s l → latest s l ≡ s
Follows-terminal s [] h f = refl
Follows-terminal s (t ∷ l) h f =
    let same : latest s l ≡ s = Follows-terminal s l h f.1 in cc (terminal_stuck s t h, same)

-- The gates: the four statuses that a completed task has gone through last.
before_completed : (s : TaskStatus) → can_transition s completed ≡ true → s ≡ waiting_security
unfolding can_transition
before_completed s h = ground arith

before_security : (s : TaskStatus) → can_transition s waiting_security ≡ true → s ≡ waiting_qa
unfolding can_transition
before_security s h = ground arith

before_qa : (s : TaskStatus) → can_transition s waiting_qa ≡ true → s ≡ waiting_review
unfolding can_transition
before_qa s h = ground arith

before_review : (s : TaskStatus) → can_transition s waiting_review ≡ true → s ≡ in_progress
unfolding can_transition
before_review s h = ground arith

abbrev pub is_gate : TaskStatus → Bool
is_gate waiting_review = true
is_gate waiting_qa = true
is_gate waiting_security = true
is_gate completed = true
is_gate _ = false

-- A task that starts before the gates is completed only by the changes from in progress to review,
-- from review to QA, from QA to security and from security to completed, one after the other, as
-- the last four.
pub completed_gates :
    (s : TaskStatus) (changes : List TaskStatus)
    → is_gate s ≡ false
    → Follows s changes
    → latest s changes ≡ completed
    → (older : List TaskStatus) × (changes
        ≡ completed ∷ waiting_security ∷ waiting_qa ∷ waiting_review ∷ older)
      × (latest s older ≡ in_progress)
completed_gates s [] g f e = cc
completed_gates s (a ∷ []) g f e = cc (before_completed s (rw e at f.0), g)
completed_gates s (a ∷ b ∷ []) g f e =
    let p : b ≡ waiting_security = before_completed b (rw e at f.0) in
    cc (ap is_gate (before_security s (rw p at f.1.0)), g)
completed_gates s (a ∷ b ∷ c ∷ []) g f e =
    let p : b ≡ waiting_security = before_completed b (rw e at f.0) in
    let q : c ≡ waiting_qa = before_security c (rw p at f.1.0) in
    cc (ap is_gate (before_qa s (rw q at f.1.1.0)), g)
completed_gates s (a ∷ b ∷ c ∷ d ∷ older) g f e =
    let p : b ≡ waiting_security = before_completed b (rw e at f.0) in
    let q : c ≡ waiting_qa = before_security c (rw p at f.1.0) in
    let r : d ≡ waiting_review = before_qa d (rw q at f.1.1.0) in
    (older, cc, before_review (latest s older) (rw r at f.1.1.1.0))

-- A way to completed, the newest status first.
route : TaskStatus → List TaskStatus
route completed = []
route waiting_security = completed ∷ []
route waiting_qa = completed ∷ waiting_security ∷ []
route waiting_review = completed ∷ waiting_security ∷ waiting_qa ∷ []
route in_progress = completed ∷ waiting_security ∷ waiting_qa ∷ waiting_review ∷ []
route assigned = completed ∷ waiting_security ∷ waiting_qa ∷ waiting_review ∷ in_progress ∷ []
route changes_requested =
    completed ∷ waiting_security ∷ waiting_qa ∷ waiting_review ∷ in_progress ∷ []
route ready =
    completed ∷ waiting_security ∷ waiting_qa ∷ waiting_review ∷ in_progress ∷ assigned ∷ []
route _ =
    completed ∷ waiting_security ∷ waiting_qa ∷ waiting_review ∷ in_progress ∷ assigned ∷ ready ∷ []

-- Every status that is not terminal has a walk to completed, and an approved transition to
-- cancelled.
pub completed_reachable :
    (s : TaskStatus)
    → is_terminal s ≡ false
    → Walk s completed × (can_transition s cancelled ≡ true)
unfolding can_transition route
completed_reachable completed h = cc
completed_reachable backlog h = ((route backlog, ground arith, refl), refl)
completed_reachable ready h = ((route ready, ground arith, refl), refl)
completed_reachable assigned h = ((route assigned, ground arith, refl), refl)
completed_reachable in_progress h = ((route in_progress, ground arith, refl), refl)
completed_reachable waiting_review h = ((route waiting_review, ground arith, refl), refl)
completed_reachable changes_requested h = ((route changes_requested, ground arith, refl), refl)
completed_reachable waiting_qa h = ((route waiting_qa, ground arith, refl), refl)
completed_reachable waiting_security h = ((route waiting_security, ground arith, refl), refl)
completed_reachable blocked h = ((route blocked, ground arith, refl), refl)
completed_reachable waiting_human h = ((route waiting_human, ground arith, refl), refl)
completed_reachable failed h = ((route failed, ground arith, refl), refl)
completed_reachable cancelled h = cc
