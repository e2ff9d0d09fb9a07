-- ===== src/Tasks/Accept.antt =====
-- The state machine and the guard together: what the one authorizes the other lets through, but
-- for a task that is back where its row stands.
use mathlib.Core.Option
use synapse_os.Base.{
  ℕ, zero, suc, Bool, true, false, not, ◌&&◌, ◌||◌, ◌==◌, ==_iff, List, [], ◌∷◌, ◌++◌, map, any,
  Option, none, some, get_elem?, set, String, strip, is_empty, is_empty-strip-strip, eq_refl, ◌≡◌,
  ◌≢◌, ◌∙◌, subst, refl, sym, ap, ap₂, inl, inr, arith, Bool-cases, Option-cases, Result-cases, ok,
  ◌↔◌,
}
use synapse_os.Enums.{TaskStatus, same_status, same_status_iff}
use synapse_os.Tasks.Event.{AuditEvent, parse_status-status_value}
use synapse_os.Tasks.Graph.{can_transition}
use synapse_os.Tasks.StateMachine.{
  Authorization, Task, Session, Request, is_system, is_given, authorize_task_status_change,
  transition_event, transition_task, transition,
}
use synapse_os.Tasks.Guard.{
  or_empty, is_mismatch, matches_chain, is_authorized, find_unauthorized, find_unconsumed,
  reject_unauthorized_task_status_changes, clear_authorization, flush,
}
use synapse_os.Tasks.Reach.{IsFresh, transition_task_parts}

-- An authorization takes the event exactly when it ends at the task's status.
authorize_ok :
    (t : Task) (current target : TaskStatus) (e : AuditEvent)
    → ((a : Authorization) → t.authorization ≡ some a → a.target ≡ current)
    → (t' : Task) × (authorize_task_status_change t current target e ≡ ok t')
unfolding authorize_task_status_change
authorize_ok t current target e h = elim (Option-cases t.authorization) [
  | inl empty ↦
      let made : Authorization = record { current = current; target = target; events = e ∷ [] } in
      (record t { authorization = some made }, ground arith)
  | inr (a, full) ↦
      let made : Authorization = record {
        current = a.current;
        target = target;
        events = a.events ++ e ∷ [];
      } in
      (
        record t { authorization = some made },
        ground (arith, (same_status_iff a.target current).1 (h a full)),
      )
]

authorize_chain :
    (t t' : Task) (current target : TaskStatus) (e : AuditEvent) (a : Authorization)
    → authorize_task_status_change t current target e ≡ ok t'
    → t.authorization ≡ some a
    → a.target ≡ current
unfolding authorize_task_status_change
authorize_chain t t' current target e a h full = (same_status_iff a.target current).0 (ground arith)

transition_task_guards :
    (t : Task) (r : Request) (done : Task × AuditEvent)
    → transition_task t r ≡ ok done
    → (is_empty (strip r.reason) ≡ false)
      × ((is_system r.actor_type || is_given (Option.map strip r.actor_id)) ≡ true)
unfolding transition_task
transition_task_guards t r done h = ground arith

transition_task_returns :
    (t t' : Task) (r : Request)
    → is_empty (strip r.reason) ≡ false
    → (is_system r.actor_type || is_given (Option.map strip r.actor_id)) ≡ true
    → can_transition t.status r.target ≡ true
    → authorize_task_status_change t t.status r.target (transition_event t r) ≡ ok t'
    → transition_task t r ≡ ok (record t' { status = r.target }, transition_event t r)
unfolding transition_task
transition_task_returns t t' r reason actor edge h = rw (reason, actor, edge, h)

-- A pending authorization, if there is one, ends at the status.
abbrev pub EndsAt : TaskStatus → Option Authorization → Type 0
EndsAt s none = Unit
EndsAt s (some a) = a.target ≡ s

EndsAt-all :
    (s : TaskStatus) (o : Option Authorization)
    → ((a : Authorization) → o ≡ some a → a.target ≡ s)
    → EndsAt s o
EndsAt-all s none h = tt
EndsAt-all s (some a) h = h a refl

-- A transition goes through exactly when its reason is not blank, an actor other than the system is
-- named, the change is approved, and the pending authorization, if there is one, ends at the
-- task's status.
pub transition_task_iff :
    (t : Task) (r : Request)
    → ((done : Task × AuditEvent) × (transition_task t r ≡ ok done)) ↔ (
        (is_empty (strip r.reason) ≡ false)
        × ((is_system r.actor_type || is_given (Option.map strip r.actor_id)) ≡ true)
        × (can_transition t.status r.target ≡ true)
        × EndsAt t.status t.authorization)
transition_task_iff t r = (
  (λ h.
      let p = transition_task_parts t h.0.0 r h.0.1 h.1 in
      let g = transition_task_guards t r h.0 h.1 in
      (
        g.0,
        g.1,
        p.0,
        EndsAt-all t.status t.authorization
            (λ a full. authorize_chain t p.2 t.status r.target (transition_event t r) a p.3 full),
      )),
  (λ h.
      let a =
        authorize_ok t t.status r.target (transition_event t r)
          (λ x full. subst (EndsAt t.status) full h.3) in
      (_, transition_task_returns t a.0 r h.0 h.1 h.2 a.1)),
)

same_status_refl : (s : TaskStatus) → same_status s s ≡ true
same_status_refl s = (same_status_iff s s).1 refl

stripped_actor :
    (kind : Bool) (actor_id : Option String)
    → (kind || is_given (Option.map strip actor_id)) ≡ true
    → (not kind && is_empty (strip (or_empty (Option.map strip actor_id)))) ≡ false
stripped_actor true actor_id h = refl
stripped_actor false none h = cc
stripped_actor false (some a) h = ground (arith, is_empty-strip-strip a)

-- The task after one transition of a fresh task.
abbrev transited : Task → Request → Task
transited t r = record t {
  status = r.target;
  authorization =
      some (record { current = t.status; target = r.target; events = transition_event t r ∷ [] });
}

-- The event of a transition passes the guard's comparison.
event-matches :
    (new : List AuditEvent) (t : Task) (r : Request)
    → is_empty (strip r.reason) ≡ false
    → (is_system r.actor_type || is_given (Option.map strip r.actor_id)) ≡ true
    → any (λ n. n.object_id == r.object_id) new ≡ true
    → is_mismatch new (transited t r) t.status (transition_event t r) ≡ false
unfolding is_mismatch
event-matches new t r reason actor listed = simp (
  listed,
  (==_iff t.id t.id).1 refl,
  (==_iff t.project_id t.project_id).1 refl,
  eq_refl,
  stripped_actor (is_system r.actor_type) r.actor_id actor,
  is_empty-strip-strip r.reason,
  reason,
)

stuck_edge : (s : TaskStatus) → can_transition s s ≡ false
unfolding can_transition
stuck_edge s = ground arith

-- The task after the flush.
abbrev settled : Task → Request → Task
settled t r = record t { persisted = r.target; status = r.target; authorization = none }

fresh_transited :
    (t t' : Task) (r : Request) (e : AuditEvent)
    → t.authorization ≡ none
    → transition_task t r ≡ ok (t', e)
    → (t' ≡ transited t r) × (e ≡ transition_event t r)
unfolding transition_task authorize_task_status_change
fresh_transited t t' r e fresh h = ground arith

transited-is_authorized :
    (new : List AuditEvent) (t : Task) (r : Request)
    → t.status ≡ t.persisted
    → is_mismatch new (transited t r) t.status (transition_event t r) ≡ false
    → is_authorized new (transited t r) ≡ true
unfolding is_authorized matches_chain
transited-is_authorized new t r fresh h = ground (
  arith,
  (same_status_iff t.status t.persisted).1 fresh,
  same_status_refl r.target,
  parse_status-status_value r.target,
)

transited-changed :
    (t : Task) (r : Request)
    → t.status ≡ t.persisted
    → can_transition t.status r.target ≡ true
    → same_status t.persisted r.target ≡ false
transited-changed t r fresh edge = elim (Bool-cases (same_status t.persisted r.target)) [
  | inr different ↦ different
  | inl same ↦
      let p : t.status ≡ r.target = fresh ∙ (same_status_iff t.persisted r.target).0 same in
      cc (ap (can_transition t.status) p, stuck_edge t.status)
]

unchanged : (x : Task) → x.status ≡ x.persisted → same_status x.persisted x.status ≡ true
unchanged x f = (same_status_iff x.persisted x.status).1 (sym f)

abbrev written : Task → Task
written t = clear_authorization (record t { persisted = t.status })

written_fresh : (x : Task) → x.status ≡ x.persisted → x.authorization ≡ none → written x ≡ x
written_fresh x f n = ground arith

module _ (new : List AuditEvent) where
  find_unauthorized-fresh : (tasks : List Task) → IsFresh tasks → find_unauthorized new tasks ≡ none
  unfolding find_unauthorized
  find_unauthorized-fresh [] f = refl
  find_unauthorized-fresh (x ∷ tasks) f = rw (unchanged x f.0.0) (find_unauthorized-fresh tasks f.1)

find_unconsumed-fresh : (tasks : List Task) → IsFresh tasks → find_unconsumed tasks ≡ none
unfolding find_unconsumed
find_unconsumed-fresh [] f = refl
find_unconsumed-fresh (x ∷ tasks) f = ground (arith, find_unconsumed-fresh tasks f.1)

map-written_fresh : (tasks : List Task) → IsFresh tasks → map written tasks ≡ tasks
map-written_fresh [] f = refl
map-written_fresh (x ∷ tasks) f =
    ap₂ ◌∷◌ (written_fresh x f.0.0 f.0.1) (map-written_fresh tasks f.1)

module _ (r : Request) (new : List AuditEvent) (t : Task) (fresh : t.status ≡ t.persisted)
    (edge : can_transition t.status r.target ≡ true)
    (good : is_mismatch new (transited t r) t.status (transition_event t r) ≡ false) where
  find_unauthorized-set :
      (tasks : List Task) (i : ℕ)
      → IsFresh tasks
      → get_elem? tasks i ≡ some t
      → find_unauthorized new (set tasks i (transited t r)) ≡ none
  unfolding find_unauthorized
  find_unauthorized-set [] i f e = refl
  find_unauthorized-set (x ∷ tasks) zero f e =
      ground
        (arith, transited-is_authorized new t r fresh good, find_unauthorized-fresh new tasks f.1)
  find_unauthorized-set (x ∷ tasks) (suc i) f e =
      rw (unchanged x f.0.0) (find_unauthorized-set tasks i f.1 e)

  find_unconsumed-set :
      (tasks : List Task) (i : ℕ)
      → IsFresh tasks
      → get_elem? tasks i ≡ some t
      → find_unconsumed (set tasks i (transited t r)) ≡ none
  unfolding find_unconsumed
  find_unconsumed-set [] i f e = refl
  find_unconsumed-set (x ∷ tasks) zero f e =
      ground (arith, transited-changed t r fresh edge, find_unconsumed-fresh tasks f.1)
  find_unconsumed-set (x ∷ tasks) (suc i) f e = ground (arith, find_unconsumed-set tasks i f.1 e)

  map-written_set :
      (tasks : List Task) (i : ℕ)
      → IsFresh tasks
      → get_elem? tasks i ≡ some t
      → map written (set tasks i (transited t r)) ≡ set tasks i (settled t r)
  map-written_set [] i f e = refl
  map-written_set (x ∷ tasks) zero f e = ap₂ ◌∷◌ refl (map-written_fresh tasks f.1)
  map-written_set (x ∷ tasks) (suc i) f e =
      ap₂ ◌∷◌ (written_fresh x f.0.0 f.0.1) (map-written_set tasks i f.1 e)

any-last :
    (k : ℕ) (xs : List AuditEvent) (e : AuditEvent)
    → e.object_id ≡ k
    → any (λ n. n.object_id == k) (xs ++ e ∷ []) ≡ true
any-last k [] e p = ground arith
any-last k (x ∷ xs) e p = ground (arith, any-last k xs e p)

transition_parts :
    (s s' : Session) (i : ℕ) (r : Request) (t : Task)
    → get_elem? s.tasks i ≡ some t
    → transition i r s ≡ ok s'
    → (done : Task × AuditEvent) × (transition_task t r ≡ ok done)
      × (s' ≡ record s { tasks = set s.tasks i done.0; new = s.new ++ done.1 ∷ [] })
unfolding transition
transition_parts s s' i r t e h = elim (Result-cases (transition_task t r)) [
  | inl (done, d) ↦ (done, d, ground arith)
  | inr (_, d) ↦ absurd (ground arith)
]

IsFresh-at :
    (tasks : List Task) (i : ℕ) (t : Task)
    → IsFresh tasks
    → get_elem? tasks i ≡ some t
    → (t.status ≡ t.persisted) × (t.authorization ≡ none)
IsFresh-at [] i t f e = absurd (cc)
IsFresh-at (x ∷ tasks) zero t f e =
    let p : x ≡ t = cc in
    subst (λ (y : Task). (y.status ≡ y.persisted) × (y.authorization ≡ none)) p f.0
IsFresh-at (x ∷ tasks) (suc i) t f e = IsFresh-at tasks i t f.1 e

-- The session that one transition leaves.
abbrev staged : Session → ℕ → Request → Task → Session
staged s i r t = record s {
  tasks = set s.tasks i (transited t r);
  new = s.new ++ transition_event t r ∷ [];
}

staged-eq :
    (s s' : Session) (i : ℕ) (r : Request) (t : Task)
    → t.authorization ≡ none
    → get_elem? s.tasks i ≡ some t
    → transition i r s ≡ ok s'
    → s' ≡ staged s i r t
staged-eq s s' i r t fresh e h =
    let p = transition_parts s s' i r t e h in
    let q = fresh_transited t p.0.0 r p.0.1 fresh p.1 in
    p.2 ∙ (λ j. record s { tasks = set s.tasks i (q.0 j); new = s.new ++ q.1 j ∷ [] })

flush-passes :
    (s : Session)
    → find_unauthorized s.new s.tasks ≡ none
    → find_unconsumed s.tasks ≡ none
    → flush s ≡ ok (record { tasks = map written s.tasks; new = []; log = s.log ++ s.new })
unfolding flush reject_unauthorized_task_status_changes
flush-passes s a b = ground arith

flush-staged :
    (s : Session) (i : ℕ) (r : Request) (t : Task)
    → find_unauthorized (staged s i r t).new (staged s i r t).tasks ≡ none
    → find_unconsumed (staged s i r t).tasks ≡ none
    → map written (staged s i r t).tasks ≡ set s.tasks i (settled t r)
    → flush (staged s i r t)
      ≡ ok (record {
        tasks = set s.tasks i (settled t r);
        new = [];
        log = s.log ++ (s.new ++ transition_event t r ∷ []);
      })
flush-staged s i r t a b c = flush-passes (staged s i r t) a b ∙ (λ j.
    ok (record { tasks = c j; new = []; log = s.log ++ (s.new ++ transition_event t r ∷ []) }))

unconsumed_found :
    (tasks : List Task) (i : ℕ) (t : Task) (a : Authorization)
    → get_elem? tasks i ≡ some t
    → t.authorization ≡ some a
    → same_status t.persisted t.status ≡ true
    → find_unconsumed tasks ≢ none
unfolding find_unconsumed
unconsumed_found [] i t a e full same h = cc
unconsumed_found (x ∷ tasks) zero t a e full same h = ground arith
unconsumed_found (x ∷ tasks) (suc i) t a e full same h =
    ground (arith, unconsumed_found tasks i t a e full same)

flush-passed : (s s' : Session) → flush s ≡ ok s' → find_unconsumed s.tasks ≡ none
unfolding flush reject_unauthorized_task_status_changes
flush-passed s s' h = ground arith

-- In a session whose tasks are as their rows are, one transition that goes through can be flushed:
-- the row of the task gets the target, no other task changes, and the audit table gets the events
-- that waited and then the transition's.
pub transition-flush :
    (s s' : Session) (i : ℕ) (r : Request) (t : Task)
    → IsFresh s.tasks
    → get_elem? s.tasks i ≡ some t
    → transition i r s ≡ ok s'
    → flush s'
      ≡ ok (record {
        tasks =
            set s.tasks i
              (record t { persisted = r.target; status = r.target; authorization = none });
        new = [];
        log = s.log ++ (s.new ++ transition_event t r ∷ []);
      })
transition-flush s s' i r t fresh e h =
    let f = IsFresh-at s.tasks i t fresh e in
    let p = transition_parts s s' i r t e h in
    let g = transition_task_guards t r p.0 p.1 in
    let edge = (transition_task_parts t p.0.0 r p.0.1 p.1).0 in
    let new : List AuditEvent = s.new ++ transition_event t r ∷ [] in
    let good =
      event-matches new t r g.0 g.1 (any-last r.object_id s.new (transition_event t r) refl) in
    rw (staged-eq s s' i r t f.1 e h) (
      flush-staged s i r t (find_unauthorized-set r new t f.0 edge good s.tasks i fresh e)
        (find_unconsumed-set r new t f.0 edge good s.tasks i fresh e)
        (map-written_set r new t f.0 edge good s.tasks i fresh e))

-- A task with a pending authorization whose status is the one that its row has makes every flush of
-- the session fail.
pub returned_refused :
    (s s' : Session) (i : ℕ) (t : Task) (a : Authorization)
    → get_elem? s.tasks i ≡ some t
    → t.authorization ≡ some a
    → t.status ≡ t.persisted
    → flush s ≢ ok s'
returned_refused s s' i t a e full same h =
    unconsumed_found s.tasks i t a e full ((same_status_iff t.persisted t.status).1 (sym same))
      (flush-passed s s' h)
