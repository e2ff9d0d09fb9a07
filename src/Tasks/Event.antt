-- ===== src/Tasks/Event.antt =====
-- infrastructure/database/models/history.py, as far as the state machine writes it: the audit event
-- of one status change. The statuses stand in its JSON data as texts.
use synapse_os.Base.{
  ℕ, List, [], ◌∷◌, Option, none, some, String, str_eq, if◌then◌else◌, ◌≡◌, refl, ap,
}
use synapse_os.Enums.{
  TaskStatus, AuditActorType, AuditResult, backlog, ready, assigned, in_progress, waiting_review,
  changes_requested, waiting_qa, waiting_security, blocked, waiting_human, completed, failed,
  cancelled,
}

-- `TaskStatus(...).value`
abbrev pub status_value : TaskStatus → String
status_value backlog = "BACKLOG"
status_value ready = "READY"
status_value assigned = "ASSIGNED"
status_value in_progress = "IN_PROGRESS"
status_value waiting_review = "WAITING_REVIEW"
status_value changes_requested = "CHANGES_REQUESTED"
status_value waiting_qa = "WAITING_QA"
status_value waiting_security = "WAITING_SECURITY"
status_value blocked = "BLOCKED"
status_value waiting_human = "WAITING_HUMAN"
status_value completed = "COMPLETED"
status_value failed = "FAILED"
status_value cancelled = "CANCELLED"

pub statuses : List TaskStatus
statuses =
    backlog ∷ ready ∷ assigned ∷ in_progress ∷ waiting_review ∷ changes_requested ∷ waiting_qa
    ∷ waiting_security ∷ blocked ∷ waiting_human ∷ completed ∷ failed ∷ cancelled ∷ []

find_status : List TaskStatus → String → Option TaskStatus
find_status [] v = none
find_status (s ∷ rest) v = if str_eq (status_value s) v then some s else find_status rest v

-- `TaskStatus(text)`, where `none` stands for the `ValueError`.
unfoldable pub parse_status : String → Option TaskStatus
unfolding find_status statuses
parse_status v = find_status statuses v

-- Reading a status back from its text gives the status.
pub parse_status-status_value : (s : TaskStatus) → parse_status (status_value s) ≡ some s
unfolding parse_status
parse_status-status_value backlog = refl
parse_status-status_value ready = refl
parse_status-status_value assigned = refl
parse_status-status_value in_progress = refl
parse_status-status_value waiting_review = refl
parse_status-status_value changes_requested = refl
parse_status-status_value waiting_qa = refl
parse_status-status_value waiting_security = refl
parse_status-status_value blocked = refl
parse_status-status_value waiting_human = refl
parse_status-status_value completed = refl
parse_status-status_value failed = refl
parse_status-status_value cancelled = refl

pub status_value-injective : (s t : TaskStatus) → status_value s ≡ status_value t → s ≡ t
status_value-injective s t e =
    cc (parse_status-status_value s, parse_status-status_value t, ap parse_status e)

pub record AuditEvent : Type 0 where
  pub object_id : ℕ  -- the identity of the Python object, which `session.new` compares
  pub actor_type : AuditActorType
  pub actor_id : Option String
  pub project_id : ℕ
  pub task_id : ℕ
  pub event_type : String
  pub action : String
  pub result : AuditResult
  pub from_status : String
  pub to_status : String
  pub reason : String
