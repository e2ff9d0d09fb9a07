-- ===== src/Tasks/Reach.antt =====
-- The operations of a session as a step relation: the state machine's transitions, writes by code
-- that goes round it, flushes, commits and rollbacks; and what no order of them can do to the rows.
use synapse_os.Base.{
  ℕ, zero, suc, true, List, [], ◌∷◌, ◌++◌, map, none, some, get_elem?, set, All, Each, ◌≡◌, inl,
  inr, ◌∙◌, refl, sym, subst, arith, Bool-cases, Option-cases, Result-cases, ok,
}
use synapse_os.Enums.{TaskStatus, same_status}
use synapse_os.Tasks.Event.{AuditEvent}
use synapse_os.Tasks.Graph.{can_transition}
use synapse_os.Tasks.Walks.{Walk, Walk-refl, Walk-trans}
use synapse_os.Tasks.StateMachine.{
  Authorization, Task, Session, Request, authorize_task_status_change, transition_event,
  transition_task, transition,
}
use synapse_os.Tasks.Guard.{Transaction, flush, commit, rollback, clear_authorization}
use synapse_os.Tasks.Invariant.{IsApproved, AllApproved, IsSound, Moved, flush-Moved}

-- `task.status = value`, by code that does not call the state machine.
abbrev pub assign_status : ℕ → TaskStatus → Session → Session
assign_status i v s = elim (get_elem? s.tasks i) [
  | none ↦ s
  | some t ↦ record s { tasks = set s.tasks i (record t { status = v }) }
]

-- The session goes on, with no commit.
abbrev pub with_session : Transaction → Session → Transaction
with_session x s = record x { session = s }

pub data Step (x : Transaction) : Transaction → Type 0 where
  transit :
      {s : Session} (i : ℕ) (r : Request)
      → transition i r x.session ≡ ok s
      → Step x (with_session x s)
  assign : (i : ℕ) (v : TaskStatus) → Step x (with_session x (assign_status i v x.session))
  -- Any change of `session.new`: events added by other code, or taken out.
  renew : (events : List AuditEvent) → Step x (with_session x (record x.session { new = events }))
  flushed : {s : Session} → flush x.session ≡ ok s → Step x (with_session x s)
  committed : {y : Transaction} → commit x ≡ ok y → Step x y
  rolled_back : Step x (rollback x)

pub data Reach (x : Transaction) : Transaction → Type 0 where
  here : Reach x x
  next : {y z : Transaction} → Reach x y → Step y z → Reach x z

-- A session that has just begun.
abbrev pub opened : Session → Transaction
opened s = record { session = s; committed = s }

-- The session begins with the rows as they are.
abbrev pub IsFresh : List Task → Type 0
IsFresh = All (λ t. (t.status ≡ t.persisted) × (t.authorization ≡ none))

All-append_one {ℓ} :
    {A : Type ℓ} (P : A → Type 0) (xs : List A) (x : A) → All P xs → P x → All P (xs ++ x ∷ [])
All-append_one P [] y h p = (p, tt)
All-append_one P (x ∷ xs) y h p = (h.0, All-append_one P xs y h.1 p)

-- What a transition that goes through does to its task.
pub record Transited (r : Request) (before after : Task) : Type 0 where
  pub approved : can_transition before.status r.target ≡ true
  pub same_id : after.id ≡ before.id
  pub same_row : after.persisted ≡ before.persisted
  pub retargeted : after.status ≡ r.target
  pub sound : AllApproved before.authorization → AllApproved after.authorization

pub authorize_sound :
    (t t' : Task) (current target : TaskStatus) (e : AuditEvent)
    → authorize_task_status_change t current target e ≡ ok t'
    → IsApproved e
    → (t'.id ≡ t.id)
      × (t'.persisted ≡ t.persisted)
      × (AllApproved t.authorization → AllApproved t'.authorization)
unfolding authorize_task_status_change
authorize_sound t t' current target e h p = elim (Option-cases t.authorization) [
  | inl empty ↦
      let made : Authorization = record { current = current; target = target; events = e ∷ [] } in
      let q : t' ≡ record t { authorization = some made } = ground arith in
      rw q (refl, refl, λ _. (p, tt))
  | inr (a, full) ↦ elim (Bool-cases (same_status a.target current)) [
    | inl same ↦
        let made : Authorization = record {
          current = a.current;
          target = target;
          events = a.events ++ e ∷ [];
        } in
        let q : t' ≡ record t { authorization = some made } = ground arith in
        rw q (refl, refl, λ s. All-append_one IsApproved a.events e (subst AllApproved full s) p)
    | inr other ↦ absurd (ground arith)
  ]
]

pub transition_task_parts :
    (t t' : Task) (r : Request) (e : AuditEvent)
    → transition_task t r ≡ ok (t', e)
    → (can_transition t.status r.target ≡ true)
      × (e ≡ transition_event t r)
      × (a : Task) × (authorize_task_status_change t t.status r.target (transition_event t r)
          ≡ ok a)
      × (t' ≡ record a { status = r.target })
unfolding transition_task
transition_task_parts t t' r e h =
    elim (Result-cases (authorize_task_status_change t t.status r.target (transition_event t r))) [
      | inl (a, q) ↦ (ground arith, ground arith, a, q, ground arith)
      | inr (_, q) ↦ absurd (ground arith)
    ]

-- A transition that goes through takes an approved transition, and leaves the row alone.
pub transition_task-Transited :
    (t t' : Task) (r : Request) (e : AuditEvent)
    → transition_task t r ≡ ok (t', e)
    → Transited r t t'
transition_task-Transited t t' r e h =
    let (edge, _, a, q, p) = transition_task_parts t t' r e h in
    let (ids, rows, sound) =
      authorize_sound t a t.status r.target (transition_event t r) q
        (t.status, r.target, refl, refl, edge) in
    rw p
      (record { approved = edge; same_id = ids; same_row = rows; retargeted = refl; sound = sound })

-- The rows of the tasks move along approved transitions.
abbrev pub RowsMove : List Task → List Task → Type 0
RowsMove = Each (λ t t'. (t'.id ≡ t.id) × Walk t.persisted t'.persisted)

RowsMove-refl : (tasks : List Task) → RowsMove tasks tasks
RowsMove-refl [] = tt
RowsMove-refl (t ∷ tasks) = ((refl, Walk-refl t.persisted), RowsMove-refl tasks)

RowsMove-trans : (xs ys zs : List Task) → RowsMove xs ys → RowsMove ys zs → RowsMove xs zs
RowsMove-trans [] [] zs h k = k
RowsMove-trans [] (y ∷ ys) zs h k = absurd h
RowsMove-trans (x ∷ xs) [] zs h k = absurd h
RowsMove-trans (x ∷ xs) (y ∷ ys) [] h k = absurd k
RowsMove-trans (x ∷ xs) (y ∷ ys) (z ∷ zs) h k = (
  (k.0.0 ∙ h.0.0, Walk-trans x.persisted y.persisted z.persisted h.0.1 k.0.1),
  RowsMove-trans xs ys zs h.1 k.1,
)

-- One write at a position keeps what each row needs, if it keeps it at that position.
set-RowsMove :
    (tasks : List Task) (i : ℕ) (t t' : Task)
    → get_elem? tasks i ≡ some t
    → t'.id ≡ t.id
    → t'.persisted ≡ t.persisted
    → (AllApproved t.authorization → AllApproved t'.authorization)
    → IsSound tasks
    → RowsMove tasks (set tasks i t') × IsSound (set tasks i t')
set-RowsMove [] i t t' e ids rows keep s = absurd (cc)
set-RowsMove (x ∷ tasks) zero t t' e ids rows keep s =
    let p : x ≡ t = cc in
    (
      ((cc, ([], tt, cc)), RowsMove-refl tasks),
      (keep (subst (λ (y : Task). AllApproved y.authorization) p s.0), s.1),
    )
set-RowsMove (x ∷ tasks) (suc i) t t' e ids rows keep s =
    let rest = set-RowsMove tasks i t t' e ids rows keep s.1 in
    (((refl, Walk-refl x.persisted), rest.0), (s.0, rest.1))

flush-IsSound : (new : List AuditEvent) (xs ys : List Task) → Each (Moved new) xs ys → IsSound ys
flush-IsSound new [] [] h = tt
flush-IsSound new [] (y ∷ ys) h = absurd h
flush-IsSound new (x ∷ xs) [] h = absurd h
flush-IsSound new (x ∷ xs) (y ∷ ys) h =
    (subst AllApproved (sym h.0.settled.1) tt, flush-IsSound new xs ys h.1)

flush-RowsMove :
    (new : List AuditEvent) (xs ys : List Task) → Each (Moved new) xs ys → RowsMove xs ys
flush-RowsMove new [] [] h = tt
flush-RowsMove new [] (y ∷ ys) h = absurd h
flush-RowsMove new (x ∷ xs) [] h = absurd h
flush-RowsMove new (x ∷ xs) (y ∷ ys) h = ((h.0.same_id, h.0.walked), flush-RowsMove new xs ys h.1)

rollback-IsSound :
    (tasks : List Task)
    → let back = map (λ t. clear_authorization (record t { status = t.persisted })) tasks in
      RowsMove tasks back × IsSound back
rollback-IsSound [] = (tt, tt)
rollback-IsSound (t ∷ tasks) =
    let rest = rollback-IsSound tasks in (((refl, Walk-refl t.persisted), rest.0), (tt, rest.1))

assign-RowsMove :
    (i : ℕ) (v : TaskStatus) (s : Session)
    → IsSound s.tasks
    → RowsMove s.tasks (assign_status i v s).tasks × IsSound (assign_status i v s).tasks
assign-RowsMove i v s sound = elim (Option-cases (get_elem? s.tasks i)) [
  | inl absent ↦
      let q : (assign_status i v s).tasks ≡ s.tasks = ground arith in
      rw q (RowsMove-refl s.tasks, sound)
  | inr (t, e) ↦
      let q : (assign_status i v s).tasks ≡ set s.tasks i (record t { status = v }) =
        ground arith in
      rw q (
        set-RowsMove s.tasks i t (record t { status = v }) e refl refl (λ approved. approved) sound)
]

-- A transition moves no row.
transition-RowsMove :
    (i : ℕ) (r : Request) (s u : Session)
    → transition i r s ≡ ok u
    → IsSound s.tasks
    → RowsMove s.tasks u.tasks × IsSound u.tasks
unfolding transition
transition-RowsMove i r s u h sound = elim (Option-cases (get_elem? s.tasks i)) [
  | inl absent ↦ absurd (ground arith)
  | inr (t, e) ↦ elim (Result-cases (transition_task t r)) [
    | inr (_, refused) ↦ absurd (ground arith)
    | inl (done, d) ↦
        let m = transition_task-Transited t done.0 r done.1 d in
        let q : u.tasks ≡ set s.tasks i done.0 = ground arith in
        rw q (set-RowsMove s.tasks i t done.0 e m.same_id m.same_row m.sound sound)
  ]
]

flush-keeps :
    (s u : Session) → flush s ≡ ok u → IsSound s.tasks → RowsMove s.tasks u.tasks × IsSound u.tasks
flush-keeps s u h sound =
    let m = flush-Moved s u sound h in
    (flush-RowsMove s.new s.tasks u.tasks m, flush-IsSound s.new s.tasks u.tasks m)

commit-flush :
    (x y : Transaction)
    → commit x ≡ ok y
    → (flush x.session ≡ ok y.session) × (y.committed ≡ y.session)
unfolding commit
commit-flush x y h = elim (Result-cases (flush x.session)) [
  | inl (s, e) ↦
      let q : opened s ≡ y = ground arith in
      subst (λ (z : Transaction). (flush x.session ≡ ok z.session) × (z.committed ≡ z.session)) q
        (e, refl)
  | inr (_, e) ↦ absurd (ground arith)
]

-- Only approved transitions are authorized, and the rows that are flushed have moved along approved
-- transitions from those that are committed.
abbrev pub IsHeld : Transaction → Type 0
IsHeld x = RowsMove x.committed.tasks x.session.tasks × IsSound x.session.tasks

IsHeld-onward :
    (x : Transaction) (s : Session)
    → IsHeld x
    → RowsMove x.session.tasks s.tasks × IsSound s.tasks
    → RowsMove x.committed.tasks x.committed.tasks × IsHeld (with_session x s)
IsHeld-onward x s held m = (
  RowsMove-refl x.committed.tasks,
  (RowsMove-trans x.committed.tasks x.session.tasks s.tasks held.0 m.0, m.1),
)

Step-IsHeld :
    {x y : Transaction}
    → Step x y
    → IsHeld x
    → RowsMove x.committed.tasks y.committed.tasks × IsHeld y
unfolding rollback
Step-IsHeld {x} (transit {s = s} i r h) held =
    IsHeld-onward x s held (transition-RowsMove i r x.session s h held.1)
Step-IsHeld {x} (assign i v) held =
    IsHeld-onward x (assign_status i v x.session) held (assign-RowsMove i v x.session held.1)
Step-IsHeld {x} (renew events) held =
    IsHeld-onward x (record x.session { new = events }) held (RowsMove-refl x.session.tasks, held.1)
Step-IsHeld {x} (flushed {s = s} h) held = IsHeld-onward x s held (flush-keeps x.session s h held.1)
Step-IsHeld {x} {y} (committed h) held =
    let (e, same) = commit-flush x y h in
    let m = flush-keeps x.session y.session e held.1 in
    let moved = RowsMove-trans x.committed.tasks x.session.tasks y.session.tasks held.0 m.0 in
    (
      subst (λ (s : Session). RowsMove x.committed.tasks s.tasks) (sym same) moved,
      (
        subst (λ (s : Session). RowsMove s.tasks y.session.tasks) (sym same)
            (RowsMove-refl y.session.tasks),
        m.1,
      ),
    )
Step-IsHeld {x} rolled_back held =
    (RowsMove-refl x.committed.tasks, rollback-IsSound x.committed.tasks)

IsFresh-IsSound : (tasks : List Task) → IsFresh tasks → IsSound tasks
IsFresh-IsSound [] f = tt
IsFresh-IsSound (t ∷ tasks) f = (subst AllApproved (sym f.0.1) tt, IsFresh-IsSound tasks f.1)

pub opened-IsHeld : (s : Session) → IsFresh s.tasks → IsHeld (opened s)
opened-IsHeld s fresh = (RowsMove-refl s.tasks, IsFresh-IsSound s.tasks fresh)

pub Reach-IsHeld :
    {x y : Transaction}
    → IsHeld x
    → Reach x y
    → RowsMove x.committed.tasks y.committed.tasks × IsHeld y
Reach-IsHeld {x} held here = (RowsMove-refl x.committed.tasks, held)
Reach-IsHeld {x} {y} held (next {y = m} r st) =
    let before = Reach-IsHeld held r in
    let after = Step-IsHeld st before.1 in
    (RowsMove-trans x.committed.tasks m.committed.tasks y.committed.tasks before.0 after.0, after.1)
