-- ===== src/Tasks/Examples.antt =====
-- Runs of the state machine and the guard, and the theorems at work on them.
use synapse_os.Base.{
  true, false, List, [], ◌∷◌, none, some, get_elem?, is_empty, strip, ok, ◌≡◌, ◌≢◌, ◌↔◌, refl, ◌||◌,
  Each, set, ◌++◌, subst,
}
use mathlib.Core.Option
use synapse_os.Enums.{
  TaskStatus, AuditActorType, in_progress, waiting_review, waiting_qa, waiting_security, completed,
  changes_requested, blocked, ready, assigned, cancelled, same_status,
}
use synapse_os.Tasks.Event.{AuditEvent, parse_status}
use synapse_os.Tasks.Graph.{can_transition}
use synapse_os.Tasks.Walks.{Walk, Follows, latest, completed_gates, completed_reachable}
use synapse_os.Tasks.StateMachine.{
  Task, Session, Request, is_system, is_given, transition_event, transition_task, transition,
  authorize_task_status_change,
}
use synapse_os.Tasks.Guard.{
  Transaction, flush, commit, rollback, is_authorized, matches_chain, is_mismatch,
  reject_unauthorized_task_status_changes,
}
use synapse_os.Tasks.Invariant.{Moved}
use synapse_os.Tasks.Reach.{Step, Reach, opened}
use synapse_os.Tasks.Rows.{
  rows_follow_graph, terminal_rows_stay, completed_rows_gated, reached_flush-Moved,
}
use synapse_os.Tasks.Accept.{EndsAt, transition_task_iff, transition-flush, returned_refused}

abbrev securing : Task
securing = record {
  id = 7;
  project_id = 1;
  persisted = waiting_security;
  status = waiting_security;
  authorization = none;
}

abbrev working : Task
working = record {
  id = 8;
  project_id = 1;
  persisted = in_progress;
  status = in_progress;
  authorization = none;
}

abbrev finish : Request
finish = record {
  target = completed;
  actor_type = AuditActorType.agent;
  actor_id = some "sec-1";
  reason = " no findings ";
  object_id = 40;
}

abbrev start : Session
start = record { tasks = working ∷ securing ∷ []; new = []; log = [] }

abbrev finished : Task
finished = record {
  id = 7;
  project_id = 1;
  persisted = waiting_security;
  status = completed;
  authorization = some (record {
    current = waiting_security;
    target = completed;
    events = transition_event securing finish ∷ [];
  });
}

abbrev middle : Session
middle = record {
  tasks = working ∷ finished ∷ [];
  new = transition_event securing finish ∷ [];
  log = [];
}

abbrev end : Session
end = record {
  tasks = working ∷ record securing { persisted = completed; status = completed } ∷ [];
  new = [];
  log = transition_event securing finish ∷ [];
}

moved : transition 1 finish start ≡ ok middle
unfolding transition transition_task strip can_transition authorize_task_status_change
moved = refl

written : flush middle ≡ ok end
unfolding flush reject_unauthorized_task_status_changes same_status is_authorized matches_chain
    is_mismatch strip parse_status
written = refl

-- The change is flushed and undone, and then made again and committed.
abbrev flushed_end : Transaction
flushed_end = record { session = end; committed = start }

undone : rollback flushed_end ≡ opened start
unfolding rollback
undone = refl

kept : commit (record { session = middle; committed = start }) ≡ ok (opened end)
unfolding commit flush reject_unauthorized_task_status_changes same_status is_authorized
    matches_chain is_mismatch strip parse_status
kept = refl

abbrev pending : Transaction
pending = record { session = middle; committed = start }

first_try : Reach (opened start) flushed_end
first_try = Reach.next (Reach.next Reach.here (Step.transit 1 finish moved)) (Step.flushed written)

second_try : Reach (opened start) pending
second_try =
    Reach.next (subst (Reach (opened start)) undone (Reach.next first_try Step.rolled_back))
      (Step.transit 1 finish moved)

reached : Reach (opened start) (opened end)
reached = Reach.next second_try (Step.committed kept)

rows_follow_graph_example :
    (a : Task) × (b : Task) × (get_elem? end.tasks 1 ≡ some a)
    × (get_elem? end.tasks 1 ≡ some b)
    × (a.id ≡ 7)
    × (b.id ≡ 7)
    × Walk waiting_security a.persisted
    × Walk a.persisted b.persisted
rows_follow_graph_example =
    rows_follow_graph start (opened end) 1 securing ((refl, refl), ((refl, refl), tt)) reached refl

reached_flush-Moved_example : Each (Moved middle.new) middle.tasks end.tasks
reached_flush-Moved_example =
    reached_flush-Moved start end pending ((refl, refl), ((refl, refl), tt)) second_try written

-- A row that is completed, under a write of another status and a rollback.
abbrev done : Task
done = record {
  id = 9;
  project_id = 1;
  persisted = completed;
  status = completed;
  authorization = none;
}

abbrev closed : Session
closed = record { tasks = done ∷ []; new = []; log = [] }

tried : Reach (opened closed) (opened closed)
unfolding rollback
tried = Reach.next (Reach.next Reach.here (Step.assign 0 ready)) Step.rolled_back

terminal_rows_stay_example :
    (a : Task) × (b : Task) × (get_elem? closed.tasks 0 ≡ some a)
    × (get_elem? closed.tasks 0 ≡ some b)
    × (a.persisted ≡ completed)
    × (b.persisted ≡ completed)
terminal_rows_stay_example =
    terminal_rows_stay closed (opened closed) 0 done ((refl, refl), tt) tried refl refl

completed_gates_example :
    (older : List TaskStatus) × ◌≡◌ {A = List TaskStatus}
      (completed ∷ waiting_security ∷ waiting_qa ∷ waiting_review ∷ in_progress ∷ [])
      (completed ∷ waiting_security ∷ waiting_qa ∷ waiting_review ∷ older)
    × (latest assigned older ≡ in_progress)
unfolding can_transition
completed_gates_example =
    completed_gates assigned
      (completed ∷ waiting_security ∷ waiting_qa ∷ waiting_review ∷ in_progress ∷ []) refl
      (refl, (refl, (refl, (refl, (refl, tt))))) refl

completed_reachable_example : Walk blocked completed × (can_transition blocked cancelled ≡ true)
completed_reachable_example = completed_reachable blocked refl

transition-flush_example :
    flush middle
    ≡ ok (record {
      tasks =
          set start.tasks 1
            (record securing { persisted = completed; status = completed; authorization = none });
      new = [];
      log = [] ++ ([] ++ transition_event securing finish ∷ []);
    })
transition-flush_example =
    transition-flush start middle 1 finish securing ((refl, refl), ((refl, refl), tt)) refl moved

transition_task_iff_example :
    ((result : Task × AuditEvent) × (transition_task securing finish ≡ ok result)) ↔ (
      (is_empty (strip finish.reason) ≡ false)
      × ((is_system finish.actor_type || is_given (Option.map strip finish.actor_id)) ≡ true)
      × (can_transition securing.status finish.target ≡ true)
      × EndsAt securing.status securing.authorization)
transition_task_iff_example = transition_task_iff securing finish

-- One task through all the gates in one flush.
abbrev to : TaskStatus → Request
to s = record {
  target = s;
  actor_type = AuditActorType.system;
  actor_id = none;
  reason = "step";
  object_id = 50;
}

abbrev at : TaskStatus → Task
at s = record working { status = s }

-- The session after a chain of changes from in progress, whose events are given.
abbrev chained : TaskStatus → List AuditEvent → Session
chained s events = record {
  tasks =
      record working {
        status = s;
        authorization = some (record { current = in_progress; target = s; events = events });
      }
      ∷ [];
  new = events;
  log = [];
}

abbrev solo : Session
solo = record { tasks = working ∷ []; new = []; log = [] }

abbrev review_event : AuditEvent
review_event = transition_event working (to waiting_review)

abbrev qa_event : AuditEvent
qa_event = transition_event (at waiting_review) (to waiting_qa)

abbrev security_event : AuditEvent
security_event = transition_event (at waiting_qa) (to waiting_security)

abbrev completed_event : AuditEvent
completed_event = transition_event (at waiting_security) (to completed)

abbrev gate_events : List AuditEvent
gate_events = review_event ∷ qa_event ∷ security_event ∷ completed_event ∷ []

in_review : transition 0 (to waiting_review) solo ≡ ok (chained waiting_review (review_event ∷ []))
unfolding transition transition_task strip can_transition authorize_task_status_change
in_review = refl

in_qa :
    transition 0 (to waiting_qa) (chained waiting_review (review_event ∷ []))
    ≡ ok (chained waiting_qa (review_event ∷ qa_event ∷ []))
unfolding transition transition_task strip can_transition authorize_task_status_change same_status
in_qa = refl

in_security :
    transition 0 (to waiting_security) (chained waiting_qa (review_event ∷ qa_event ∷ []))
    ≡ ok (chained waiting_security (review_event ∷ qa_event ∷ security_event ∷ []))
unfolding transition transition_task strip can_transition authorize_task_status_change same_status
in_security = refl

all_done :
    transition 0
      (to completed)
      (chained waiting_security (review_event ∷ qa_event ∷ security_event ∷ []))
    ≡ ok (chained completed gate_events)
unfolding transition transition_task strip can_transition authorize_task_status_change same_status
all_done = refl

abbrev released : Session
released = record {
  tasks = record working { persisted = completed; status = completed } ∷ [];
  new = [];
  log = gate_events;
}

gates_written : flush (chained completed gate_events) ≡ ok released
unfolding flush reject_unauthorized_task_status_changes same_status is_authorized matches_chain
    is_mismatch strip parse_status
gates_written = refl

gates_reached : Reach (opened solo) (record { session = released; committed = solo })
gates_reached =
    Reach.next
      (Reach.next
        (Reach.next
          (Reach.next (Reach.next Reach.here (Step.transit 0 (to waiting_review) in_review))
            (Step.transit 0 (to waiting_qa) in_qa))
          (Step.transit 0 (to waiting_security) in_security))
        (Step.transit 0 (to completed) all_done))
      (Step.flushed gates_written)

completed_rows_gated_example :
    (older : List TaskStatus) × Follows in_progress
      (completed ∷ waiting_security ∷ waiting_qa ∷ waiting_review ∷ older)
    × (latest in_progress older ≡ in_progress)
completed_rows_gated_example =
    completed_rows_gated solo (record { session = released; committed = solo }) 0 working
      (record working { persisted = completed; status = completed }) ((refl, refl), tt)
      gates_reached refl refl refl refl

-- A task that was sent to review and back to work before a flush.
abbrev changes_event : AuditEvent
changes_event = transition_event (at waiting_review) (to changes_requested)

abbrev back_event : AuditEvent
back_event = transition_event (at changes_requested) (to in_progress)

abbrev returned : Session
returned = chained in_progress (review_event ∷ changes_event ∷ back_event ∷ [])

sent_back :
    transition 0 (to changes_requested) (chained waiting_review (review_event ∷ []))
    ≡ ok (chained changes_requested (review_event ∷ changes_event ∷ []))
unfolding transition transition_task strip can_transition authorize_task_status_change same_status
sent_back = refl

taken_up :
    transition 0 (to in_progress) (chained changes_requested (review_event ∷ changes_event ∷ []))
    ≡ ok returned
unfolding transition transition_task strip can_transition authorize_task_status_change same_status
taken_up = refl

returned_refused_example : flush returned ≢ ok solo
returned_refused_example =
    returned_refused returned solo 0
      (record working {
        authorization = some (record {
          current = in_progress;
          target = in_progress;
          events = review_event ∷ changes_event ∷ back_event ∷ [];
        });
      })
      (record {
        current = in_progress;
        target = in_progress;
        events = review_event ∷ changes_event ∷ back_event ∷ [];
      })
      refl refl refl
