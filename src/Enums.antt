-- ===== src/Enums.antt =====
-- core/enums.py: the enumerations that several parts of the program share.
use synapse_os.Base.{Bool, true, same, same_iff, ◌≡◌, ◌↔◌}

pub data TaskStatus : Type 0 where
  backlog ready assigned in_progress waiting_review changes_requested waiting_qa waiting_security
        blocked waiting_human completed failed cancelled :
      TaskStatus

pub TaskStatus-discrete : Discrete TaskStatus
TaskStatus-discrete = hlevel

-- `a is b`
unfoldable pub same_status : TaskStatus → TaskStatus → Bool
unfolding TaskStatus-discrete
same_status a b = same TaskStatus-discrete a b

pub same_status_iff : (a b : TaskStatus) → (same_status a b ≡ true) ↔ (a ≡ b)
unfolding same_status
same_status_iff a b = same_iff TaskStatus-discrete a b

pub data AuditActorType : Type 0 where
  agent human system worker tool webhook : AuditActorType

pub data AuditResult : Type 0 where
  succeeded failed denied cancelled : AuditResult

pub data Permission : Type 0 where
  filesystem_read filesystem_write git_read git_write shell_execute tests_execute network_access
        database_read database_write deployment_staging deployment_production :
      Permission

pub Permission-discrete : Discrete Permission
Permission-discrete = hlevel

unfoldable pub same_permission : Permission → Permission → Bool
unfolding Permission-discrete
same_permission a b = same Permission-discrete a b

pub data ToolRiskLevel : Type 0 where
  low medium high critical : ToolRiskLevel
