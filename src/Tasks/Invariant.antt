-- ===== src/Tasks/Invariant.antt =====
-- What holds of a session between two operations, and what a flush that goes through has checked.
use synapse_os.Base.{
  true, false, List, [], ◌∷◌, Option, none, some, any, ◌==◌, All, Each, ◌≡◌, refl, ◌≢◌, ◌⊎◌, ◌&&◌,
  not, subst, subst₂, inl, inr, arith, Bool-cases, Option-cases, eq_iff, str_eq, ok, map,
}
use synapse_os.Enums.{TaskStatus, same_status, same_status_iff}
use synapse_os.Tasks.Event.{
  AuditEvent, status_value, parse_status, parse_status-status_value, status_value-injective,
}
use synapse_os.Tasks.Graph.{can_transition}
use synapse_os.Tasks.Walks.{Walk, Walk-trans}
use synapse_os.Tasks.StateMachine.{Authorization, Task, Session}
use synapse_os.Tasks.Guard.{
  is_mismatch, matches_chain, has_changes, clear_authorization, is_authorized, find_unauthorized,
  find_unconsumed, reject_unauthorized_task_status_changes, flush,
}

-- The event tells of one approved transition.
abbrev pub IsApproved : AuditEvent → Type 0
IsApproved e =
    (u : TaskStatus) × (v : TaskStatus) × (e.from_status ≡ status_value u)
    × (e.to_status ≡ status_value v)
    × (can_transition u v ≡ true)

abbrev pub AllApproved : Option Authorization → Type 0
AllApproved none = Unit
AllApproved (some a) = All IsApproved a.events

-- Only approved transitions are authorized.
abbrev pub IsSound : List Task → Type 0
IsSound = All (λ t. AllApproved t.authorization)

abbrev pub IsNew : List AuditEvent → AuditEvent → Type 0
IsNew new e = any (λ n. n.object_id == e.object_id) new ≡ true

mismatch_parts :
    (new : List AuditEvent) (t : Task) (current : TaskStatus) (e : AuditEvent)
    → is_mismatch new t current e ≡ false
    → IsNew new e × (str_eq e.from_status (status_value current) ≡ true)
unfolding is_mismatch
mismatch_parts new t current e m = ground arith

-- One event that the guard lets pass, and that tells of an approved transition, is that transition.
mismatch-Walk :
    (new : List AuditEvent) (t : Task) (current next : TaskStatus) (e : AuditEvent)
    → is_mismatch new t current e ≡ false
    → parse_status e.to_status ≡ some next
    → IsApproved e
    → Walk current next
mismatch-Walk new t current next e m p (u, v, eu, ev, ok_edge) =
    let from =
      (eq_iff e.from_status (status_value current)).0 (mismatch_parts new t current e m).1 in
    let same_start : u ≡ current = status_value-injective u current (cc) in
    let same_end : v ≡ next = cc (parse_status-status_value v) in
    (next ∷ [], (rw (same_start, same_end) at ok_edge, tt), refl)

-- The events that the guard has compared make up a walk, and each of them is about to be written.
pub matches_chain-Walk :
    (new : List AuditEvent) (t : Task) (target current : TaskStatus) (events : List AuditEvent)
    → matches_chain new t target current events ≡ true
    → All IsApproved events
    → Walk current target × All (IsNew new) events
unfolding matches_chain
matches_chain-Walk new t target current [] h a =
    (([], tt, (same_status_iff current target).0 h), tt)
matches_chain-Walk new t target current (e ∷ events) h a =
    elim (Bool-cases (is_mismatch new t current e)) [
      | inl bad ↦ absurd (ground arith)
      | inr good ↦ elim (Option-cases (parse_status e.to_status)) [
        | inl lost ↦ absurd (ground arith)
        | inr (next, p) ↦
            let rest = matches_chain-Walk new t target next events (ground arith) a.1 in
            (
              Walk-trans current next target (mismatch-Walk new t current next e good p a.0) rest.0,
              ((mismatch_parts new t current e good).0, rest.1),
            )
      ]
    ]

-- What a flush does to one task: its row takes the attribute's status, along approved transitions,
-- and where that changes the row, the authorization's events lead there and are all being written.
pub record Moved (new : List AuditEvent) (before after : Task) : Type 0 where
  pub same_id : after.id ≡ before.id
  pub written : after.persisted ≡ before.status
  pub settled : (after.status ≡ after.persisted) × (after.authorization ≡ none)
  pub walked : Walk before.persisted after.persisted
  pub audited :
      (before.persisted ≡ before.status)
      ⊎ ((a : Authorization) × (before.authorization ≡ some a)
          × (a.current ≡ before.persisted)
          × (a.target ≡ before.status)
          × All (IsNew new) a.events)

unauthorized_without :
    (new : List AuditEvent) (t : Task) → is_authorized new t ≡ true → t.authorization ≢ none
unfolding is_authorized
unauthorized_without new t h e = ground arith

-- A changed task that the guard accepts.
authorized-Walk :
    (new : List AuditEvent) (t : Task) (a : Authorization)
    → t.authorization ≡ some a
    → is_authorized new t ≡ true
    → All IsApproved a.events
    → (a.current ≡ t.persisted)
      × (a.target ≡ t.status)
      × Walk a.current a.target
      × All (IsNew new) a.events
unfolding is_authorized
authorized-Walk new t a e h s =
    let parts : (same_status a.current t.persisted ≡ true)
        × (same_status a.target t.status ≡ true)
        × (matches_chain new t a.target a.current a.events ≡ true) =
      ground arith in
    let chain = matches_chain-Walk new t a.target a.current a.events parts.2 s in
    (
      (same_status_iff a.current t.persisted).0 parts.0,
      (same_status_iff a.target t.status).0 parts.1,
      chain.0,
      chain.1,
    )

has_changes_iff : (t : Task) → has_changes t ≡ false → t.persisted ≡ t.status
has_changes_iff t h = (same_status_iff t.persisted t.status).0 (ground arith)

-- The row of a task that passes the first loop.
passed-Moved :
    (new : List AuditEvent) (t : Task)
    → (has_changes t && not (is_authorized new t)) ≡ false
    → AllApproved t.authorization
    → Moved new t (clear_authorization (record t { persisted = t.status }))
passed-Moved new t h s = elim (Bool-cases (has_changes t)) [
  | inr same ↦
      let e = has_changes_iff t same in
      record {
        same_id = refl;
        written = refl;
        settled = (refl, refl);
        walked = ([], tt, e);
        audited = inl e;
      }
  | inl changed ↦ elim (Option-cases t.authorization) [
    | inl missing ↦ absurd (unauthorized_without new t (ground arith) missing)
    | inr (a, e) ↦
        let found = authorized-Walk new t a e (ground arith) (subst AllApproved e s) in
        record {
          same_id = refl;
          written = refl;
          settled = (refl, refl);
          walked = subst₂ Walk found.0 found.1 found.2;
          audited = inr (a, e, found.0, found.1, found.3);
        }
  ]
]

pub find_unauthorized-Moved :
    (new : List AuditEvent) (tasks : List Task)
    → find_unauthorized new tasks ≡ none
    → IsSound tasks
    → Each
        (Moved new)
        tasks
        (map (λ t. clear_authorization (record t { persisted = t.status })) tasks)
unfolding find_unauthorized
find_unauthorized-Moved new [] h s = tt
find_unauthorized-Moved new (t ∷ tasks) h s =
    (passed-Moved new t (ground arith) s.0, find_unauthorized-Moved new tasks (ground arith) s.1)

reject-none :
    (s : Session)
    → reject_unauthorized_task_status_changes s ≡ none
    → (find_unauthorized s.new s.tasks ≡ none) × (find_unconsumed s.tasks ≡ none)
unfolding reject_unauthorized_task_status_changes
reject-none s h = ground arith

-- Where only approved transitions are authorized, a flush that goes through moves the row of every
-- task along approved transitions.
pub flush-Moved :
    (s s' : Session) → IsSound s.tasks → flush s ≡ ok s' → Each (Moved s.new) s.tasks s'.tasks
unfolding flush
flush-Moved s s' sound h = elim (Option-cases (reject_unauthorized_task_status_changes s)) [
  | inl passed ↦
      let e : s'.tasks
          ≡ map (λ t. clear_authorization (record t { persisted = t.status })) s.tasks =
        ground arith in
      rw e (find_unauthorized-Moved s.new s.tasks (reject-none s passed).0 sound)
  | inr (_, refused) ↦ absurd (ground arith)
]
