-- ===== src/Tools/Lifecycle.antt =====
-- What the executor of core/tools/executor.py may do with its collaborators, in order, and how it ends.
use synapse_os.Base.{
  ℕ, Bool, true, false, List, [], ◌∷◌, Option, none, some, String, any, str_eq, Result, ok, err,
  ◌≡◌,
}
use synapse_os.Runtime.Types.{ToolErrorCode, ToolResultStatus}
use synapse_os.Permissions.Types.{PermissionDecision, is_valid_request}
use synapse_os.Permissions.Policy.{PermissionError}
use synapse_os.Tools.Types.{
  ToolAuditOutcome, ToolRaise, input_error, audit_error, compensation_error, other,
  ToolExecutionContext, ToolAuditStart, ToolAuditFinish, Fields, ToolResult, ToolTransaction,
  ToolReply, Tool,
}
use synapse_os.Tools.Registry.{get}
use synapse_os.Tools.Executor.{
  Toolbox, empty_finish, success_finish, failed_result, succeeded_result, permission_request,
  is_truncated, is_allowed, refusal, checked_output, OutputSize, CheckedOutput, valid_output,
  invalid_output, unchecked_output,
}
use synapse_os.Tools.Traced.{
  ToolEvent, begun, evaluated, executed, paused, finished, committed, rolled_back,
}

abbrev pub Outcome : Type 0
Outcome = Result ToolRaise ToolResult

-- The failure is audited, and returned if the audit takes it.
pub data Reported (id : ℕ) (finish : ToolAuditFinish) (end : Outcome)
    : Outcome → List ToolEvent → Type 0 where
  told : Reported id finish end end (finished id finish true ∷ [])
  untold : Reported id finish end (err audit_error) (finished id finish false ∷ [])

-- What a transaction has done is undone before the rest, if there is a transaction.
pub data Undone {A : Type 0} (transactional : Bool)
    (P : Result ToolRaise A → List ToolEvent → Type 0)
    : Result ToolRaise A → List ToolEvent → Type 0 where
  nothing :
      {r : Result ToolRaise A} {l : List ToolEvent}
      → transactional ≡ false
      → P r l
      → Undone transactional P r l
  undone :
      {r : Result ToolRaise A} {l : List ToolEvent}
      → transactional ≡ true
      → P r l
      → Undone transactional P r (rolled_back true ∷ l)
  stuck :
      transactional ≡ true
      → Undone transactional P (err compensation_error) (rolled_back false ∷ [])

-- The audit refuses the success: nothing more, and its error.
pub data Unaudited {A : Type 0} : Result ToolRaise A → List ToolEvent → Type 0 where
  unaudited : Unaudited (err audit_error) []

-- The success is audited, and what the transaction has done is committed, or else undone.
pub data Completed (id : ℕ) (finish : ToolAuditFinish) (end : Outcome) (transactional : Bool)
    : Outcome → List ToolEvent → Type 0 where
  kept :
      transactional ≡ false
      → Completed id finish end transactional end (finished id finish true ∷ [])
  fixed :
      transactional ≡ true
      → Completed id finish end transactional end (finished id finish true ∷ committed true ∷ [])
  unfixed :
      transactional ≡ true
      → Completed id finish end transactional
          (err compensation_error)
          (finished id finish true ∷ committed false ∷ [])
  dropped :
      {r : Outcome} {l : List ToolEvent}
      → Undone transactional Unaudited r l
      → Completed id finish end transactional r (finished id finish false ∷ l)

abbrev pub Failed :
    ℕ
    → String
    → ToolResultStatus
    → ToolAuditOutcome
    → ToolErrorCode
    → Outcome
    → List ToolEvent
    → Type 0
Failed id name status outcome code =
    Reported id (empty_finish outcome code) (ok (failed_result id name status code))

abbrev pub Interrupted : ℕ → Outcome → List ToolEvent → Type 0
Interrupted id =
    Reported id (empty_finish ToolAuditOutcome.cancelled ToolErrorCode.cancelled)
      (err ToolRaise.cancelled)

abbrev pub BadOutput : ℕ → String → Outcome → List ToolEvent → Type 0
BadOutput id name =
    Failed id name ToolResultStatus.failed ToolAuditOutcome.failed ToolErrorCode.output_limit

-- From the tool's output on, where the check of the output is given, and whether a transaction came
-- with it.
pub data Delivered (id : ℕ) (name : String) (checked : CheckedOutput) (transactional : Bool)
    : Outcome → List ToolEvent → Type 0 where
  stopped :
      {r : Outcome} {l : List ToolEvent}
      → Undone transactional (Interrupted id) r l
      → Delivered id name checked transactional r (paused false ∷ l)
  rejected :
      {r : Outcome} {l : List ToolEvent}
      → checked ≡ invalid_output
      → Undone transactional (BadOutput id name) r l
      → Delivered id name checked transactional r (paused true ∷ l)
  -- The exception leaves `execute` as it is.
  escaped :
      checked ≡ unchecked_output
      → Delivered id name checked transactional (err other) (paused true ∷ [])
  accepted :
      {r : Outcome} {l : List ToolEvent} (fields : Fields) (bytes : ℕ)
      → checked ≡ valid_output fields bytes
      → Completed id
          (success_finish fields (is_truncated fields) bytes)
          (ok (succeeded_result id name fields (is_truncated fields)))
          transactional
          r
          l
      → Delivered id name checked transactional r (paused true ∷ l)

abbrev pub has_transaction : {S : Type 0} → Option (ToolTransaction S) → Bool
has_transaction none = false
has_transaction (some t) = true

module _ {S : Type 0} (matches : String → String → Bool) (size : Fields → OutputSize) (id : ℕ)
    (name : String) where
  -- Once the tool has run, with its reply.
  pub data Ran : ToolReply S → Outcome → List ToolEvent → Type 0 where
    delivered :
        {r : Outcome} {l : List ToolEvent} (raw : Option Fields) (t : Option (ToolTransaction S))
        → Delivered id name (checked_output matches size raw) (has_transaction t) r l
        → Ran (ToolReply.output raw t) r l
    late :
        {r : Outcome} {l : List ToolEvent}
        → Failed id name ToolResultStatus.timed_out ToolAuditOutcome.timed_out
            ToolErrorCode.tool_timed_out r l
        → Ran ToolReply.timed_out r l
    interrupted :
        {r : Outcome} {l : List ToolEvent} → Interrupted id r l → Ran ToolReply.cancelled r l
    crashed :
        {r : Outcome} {l : List ToolEvent}
        → Failed id name ToolResultStatus.failed ToolAuditOutcome.failed ToolErrorCode.tool_failed r
            l
        → Ran ToolReply.crashed r l
    failed :
        {r : Outcome} {l : List ToolEvent} (code : ToolErrorCode)
        → Failed id name ToolResultStatus.failed ToolAuditOutcome.failed code r l
        → Ran (ToolReply.tool_error code) r l

  -- Once the permission engine has answered for the tool.
  pub data Answered (tool : Tool S) (context : ToolExecutionContext) (arguments : Fields)
      : Result PermissionError PermissionDecision → Outcome → List ToolEvent → Type 0 where
    unanswered :
        {r : Outcome} {l : List ToolEvent} (e : PermissionError)
        → Failed id name ToolResultStatus.failed ToolAuditOutcome.failed
            ToolErrorCode.permission_audit_failed r l
        → Answered tool context arguments (err e) r l
    denied :
        {r : Outcome} {l : List ToolEvent} (d : PermissionDecision)
        → is_allowed d.outcome ≡ false
        → Failed id name ToolResultStatus.denied ToolAuditOutcome.denied (refusal d.outcome) r l
        → Answered tool context arguments (ok d) r l
    unprepared :
        {r : Outcome} {l : List ToolEvent} (d : PermissionDecision)
        → is_allowed d.outcome ≡ true
        → tool.prepare arguments ≡ none
        → Failed id name ToolResultStatus.failed ToolAuditOutcome.failed ToolErrorCode.invalid_input
            r l
        → Answered tool context arguments (ok d) r l
    ran :
        {r : Outcome} {l : List ToolEvent} (d : PermissionDecision)
        (call : ToolExecutionContext → S → ToolReply S × S) (reply : ToolReply S) (s s' : S)
        → is_allowed d.outcome ≡ true
        → tool.prepare arguments ≡ some call
        → call context s ≡ (reply, s')
        → Ran reply r l
        → Answered tool context arguments (ok d) r (executed tool.name ∷ l)

module _ {S : Type 0} (matches : String → String → Bool) (size : Fields → OutputSize)
    (box : Toolbox S) (name : String) (context : ToolExecutionContext) (arguments : Fields) where
  -- Once the audit has begun.
  pub data Opened (id : ℕ) : Outcome → List ToolEvent → Type 0 where
    missing :
        {r : Outcome} {l : List ToolEvent}
        → get box.registry name ≡ none
        → Failed id name ToolResultStatus.denied ToolAuditOutcome.denied
            ToolErrorCode.tool_not_found r l
        → Opened id r l
    undeclared :
        {r : Outcome} {l : List ToolEvent}
        → any (λ declared. str_eq name declared) context.declared_tool_ids ≡ false
        → Failed id name ToolResultStatus.denied ToolAuditOutcome.denied
            ToolErrorCode.tool_not_declared r l
        → Opened id r l
    malformed :
        (tool : Tool S)
        → is_valid_request matches (permission_request name context tool) ≡ false
        → Opened id (err other) []
    asked :
        {r : Outcome} {l : List ToolEvent} (tool : Tool S)
        (answer : Result PermissionError PermissionDecision) (s s' : S)
        → get box.registry name ≡ some tool
        → any (λ declared. str_eq name declared) context.declared_tool_ids ≡ true
        → box.evaluate (permission_request name context tool) s ≡ (answer, s')
        → Answered matches size id name tool context arguments answer r l
        → Opened id r (evaluated (permission_request name context tool) answer ∷ l)

  pub data Lifecycle (start : ToolAuditStart) : Outcome → List ToolEvent → Type 0 where
    unfit : Lifecycle start (err input_error) []
    unopened : Lifecycle start (err audit_error) (begun start none ∷ [])
    opened :
        {r : Outcome} {l : List ToolEvent} (id : ℕ)
        → Opened id r l
        → Lifecycle start r (begun start (some id) ∷ l)
