-- ===== src/Tasks/Guard.antt =====
-- infrastructure/database/task_status_guard.py: what the listeners of a session do before a flush,
-- after it, and after a rollback.
use synapse_os.Base.{
  ℕ, Bool, true, false, not, ◌&&◌, ◌||◌, ◌==◌, List, [], ◌∷◌, ◌++◌, map, any, Option, none, some,
  str_eq, String, strip, is_empty, if◌then◌else◌, Result, ok, err,
}
use synapse_os.Enums.{TaskStatus, AuditResult, same_status}
use synapse_os.Tasks.Event.{AuditEvent, status_value, parse_status}
use synapse_os.Tasks.StateMachine.{Task, Session, is_system}

-- `UnauthorizedTaskStatusChangeError`
pub data FlushError : Type 0 where
  unauthorized : ℕ → TaskStatus → TaskStatus → FlushError

abbrev is_succeeded : AuditResult → Bool
is_succeeded AuditResult.succeeded = true
is_succeeded _ = false

abbrev pub or_empty : Option String → String
or_empty none = ""
or_empty (some s) = s

-- The test in the loop of `_has_matching_audit_chain`. An event always has an actor's type here.
unfoldable pub is_mismatch : List AuditEvent → Task → TaskStatus → AuditEvent → Bool
is_mismatch new task expected e =
    not (any (λ n. n.object_id == e.object_id) new)
    || not (e.task_id == task.id)
    || not (e.project_id == task.project_id)
    || not (str_eq e.event_type "TASK_STATUS_CHANGED")
    || not (str_eq e.action "transition_task_status")
    || not (is_succeeded e.result)
    || (not (is_system e.actor_type) && is_empty (strip (or_empty e.actor_id)))
    || not (str_eq e.from_status (status_value expected))
    || is_empty (strip e.reason)

-- The loop of `_has_matching_audit_chain`, from `expected_current` on.
unfoldable pub matches_chain :
    List AuditEvent → Task → TaskStatus → TaskStatus → List AuditEvent → Bool
matches_chain new task target expected [] = same_status expected target
matches_chain new task target expected (e ∷ events) = elim (is_mismatch new task expected e) [
  | true ↦ false
  | false ↦ elim (parse_status e.to_status) [
    | none ↦ false
    | some next ↦ matches_chain new task target next events
  ]
]

-- `history.has_changes()`
abbrev pub has_changes : Task → Bool
has_changes task = not (same_status task.persisted task.status)

-- The test of the first loop of `_reject_unauthorized_task_status_changes`, on a changed task.
unfoldable pub is_authorized : List AuditEvent → Task → Bool
is_authorized new task = elim task.authorization [
  | none ↦ false
  | some a ↦
      same_status a.current task.persisted
      && same_status a.target task.status
      && matches_chain new task a.target a.current a.events
]

-- The first loop. The tasks are visited in order; Python visits `session.dirty`, a set.
unfoldable pub find_unauthorized : List AuditEvent → List Task → Option FlushError
find_unauthorized new [] = none
find_unauthorized new (t ∷ tasks) =
    if has_changes t && not (is_authorized new t)
    then some (unauthorized t.id t.persisted t.status)
    else find_unauthorized new tasks

-- The second loop: an authorization that the first loop has not consumed.
unfoldable pub find_unconsumed : List Task → Option FlushError
find_unconsumed [] = none
find_unconsumed (t ∷ tasks) = elim t.authorization [
  | none ↦ find_unconsumed tasks
  | some a ↦
      if has_changes t then find_unconsumed tasks else some (unauthorized t.id a.current a.target)
]

unfoldable pub reject_unauthorized_task_status_changes : Session → Option FlushError
unfolding find_unauthorized find_unconsumed
reject_unauthorized_task_status_changes s = elim (find_unauthorized s.new s.tasks) [
  | some e ↦ some e
  | none ↦ find_unconsumed s.tasks
]

-- `clear_task_status_authorizations`, for one task.
abbrev pub clear_authorization : Task → Task
clear_authorization t = record t { authorization = none }

-- A flush: the listener before it, the writes, and the listener after it.
unfoldable pub flush : Session → Result FlushError Session
flush s = elim (reject_unauthorized_task_status_changes s) [
  | some e ↦ err e
  | none ↦ ok (record {
    tasks = map (λ t. clear_authorization (record t { persisted = t.status })) s.tasks;
    new = [];
    log = s.log ++ s.new;
  })
]

-- A session, and what the last commit has left in the database: the tasks' rows and the log.
pub record Transaction : Type 0 where
  pub session : Session
  pub committed : Session

-- A commit: a flush, whose writes stay.
unfoldable pub commit : Transaction → Result FlushError Transaction
commit x = elim (flush x.session) [
  | err e ↦ err e
  | ok s ↦ ok (record { session = s; committed = s })
]

-- A rollback, with its listener: what is flushed and not committed is undone, and the attributes read
-- as the rows of the last commit again.
unfoldable pub rollback : Transaction → Transaction
rollback x = record x {
  session = record {
    tasks = map (λ t. clear_authorization (record t { status = t.persisted })) x.committed.tasks;
    new = [];
    log = x.committed.log;
  };
}
