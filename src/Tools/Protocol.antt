-- ===== src/Tools/Protocol.antt =====
-- That the order in which the executor of core/tools/executor.py calls its collaborators is a lifecycle.
use mathlib.Core.Option
use synapse_os.Base.{
  ℕ, Bool, true, false, ◌&&◌, List, [], ◌∷◌, ◌++◌, map, Option, none, some, String, if◌then◌else◌,
  Result, ok, err, ◌≡◌, refl, sym, ◌∙◌, append_assoc, append_nil, length, any, str_eq, Bool-cases,
  inl, inr,
}
use synapse_os.Effects.{Effect, ◌>>=◌, ◌>>◌, pure, raise, handle}
use synapse_os.Effects.Trace.{
  Emits, Emits-weaken, Emits-pure, Emits-raise, Emits-bind, Tried, Emits-attempt, Emits-once,
  Emits-tried, Emits-tried-handle,
}
use synapse_os.Runtime.Types.{ToolErrorCode, ToolResultStatus}
use synapse_os.Permissions.Types.{PermissionDecision, is_valid_request}
use synapse_os.Permissions.Policy.{PermissionError}
use synapse_os.Tools.Types.{
  ToolAuditOutcome, ToolRaise, input_error, audit_error, compensation_error, other,
  ToolExecutionContext, ToolAuditStart, ToolAuditFinish, Fields, ToolResult, ToolTransaction,
  ToolReply, Tool,
}
use synapse_os.Tools.Registry.{get}
use synapse_os.Tools.Executor.{
  Toolbox, audit_start, empty_finish, success_finish, failed_result, succeeded_result,
  permission_request, is_truncated, refusal, is_valid_context, is_valid_call, checked_output,
  OutputSize, CheckedOutput, valid_output, invalid_output, unchecked_output, finish_call,
  failure_result, roll_back, commit, interrupt, complete, undo, undo_interrupted, deliver, receive,
  run_call, judge, resume, is_allowed, heed, ask_permission, find_tool, with_handle, execute_tool,
}
use synapse_os.Tools.Traced.{
  ToolEvent, begun, evaluated, executed, paused, finished, committed, rolled_back, World,
  traced_transaction, traced_reply, traced_call, traced_tool, traced_box,
}
use synapse_os.Tools.Lifecycle.{
  Outcome, Reported, Undone, Unaudited, Completed, Failed, Interrupted, BadOutput, Delivered, Ran,
  has_transaction, Answered, Opened, Lifecycle,
}

-- The audit of a success, with what follows a refusal.
data Audited (id : ℕ) (finish : ToolAuditFinish) (transactional : Bool)
    : Result ToolRaise (Unit {0}) → List ToolEvent → Type 0 where
  passed : Audited id finish transactional (ok tt) (finished id finish true ∷ [])
  dropped :
      {r : Result ToolRaise (Unit {0})} {l : List ToolEvent}
      → Undone transactional Unaudited r l
      → Audited id finish transactional r (finished id finish false ∷ l)

get-map :
    {S : Type 0} (registry : List (Tool S)) (name : String)
    → get (map traced_tool registry) name ≡ Option.map traced_tool (get registry name)
get-map [] name = refl
get-map (t ∷ rest) name = elim (Bool-cases (str_eq t.name name)) [
  | inl h ↦ rw (h, if◌then◌else◌) refl
  | inr h ↦ rw (h, if◌then◌else◌) (get-map rest name)
]

module _ {S : Type 0} (matches : String → String → Bool) (size : Fields → OutputSize)
    (box : Toolbox S) where
  finish_call-Emits :
      (id : ℕ) (finish : ToolAuditFinish)
      → Emits
          (finish_call matches size (traced_box box) id finish)
          (Tried (finished id finish) audit_error)
  unfolding finish_call
  finish_call-Emits id finish =
      Emits-attempt (finished id finish) (box.finish_audit id finish) audit_error

  report-Emits :
      (id : ℕ) (finish : ToolAuditFinish) (end : Outcome)
      → Emits
          (finish_call matches size (traced_box box) id finish >>= λ _ w. (end, w))
          (Reported id finish end)
  report-Emits id finish end =
      Emits-tried (finished id finish) audit_error
        (finish_call matches size (traced_box box) id finish) (λ w. (end, w))
        (Reported id finish end) (finish_call-Emits id finish)
        (λ before s. ([], sym (append_nil before), Reported.told)) Reported.untold

  roll_back-Emits :
      {A : Type 0} (t : Option (ToolTransaction S)) (k : Effect (World S) ToolRaise A)
      (P : Result ToolRaise A → List ToolEvent → Type 0)
      → Emits k P
      → Emits
          (roll_back matches size (traced_box box) (Option.map traced_transaction t) >>= λ _. k)
          (Undone (has_transaction t) P)
  unfolding roll_back
  roll_back-Emits none k P h = Emits-weaken k P (Undone false P) h (λ r l p. Undone.nothing refl p)
  roll_back-Emits (some t) k P h =
      Emits-tried rolled_back compensation_error
        (roll_back matches size (traced_box box) (some (traced_transaction t))) k (Undone true P)
        (Emits-attempt rolled_back t.rollback compensation_error)
        (Emits-weaken k P (λ r l. Undone true P r (rolled_back true ∷ l)) h
          (λ r l p. Undone.undone refl p))
        (Undone.stuck refl)

  failure_result-Emits :
      (id : ℕ) (name : String) (status : ToolResultStatus) (outcome : ToolAuditOutcome)
      (code : ToolErrorCode)
      → Emits
          (failure_result matches size (traced_box box) id name status outcome code)
          (Failed id name status outcome code)
  unfolding failure_result
  failure_result-Emits id name status outcome code =
      report-Emits id (empty_finish outcome code) (ok (failed_result id name status code))

  -- A failure that is reported, as a step of a larger family.
  reported-Emits :
      (id : ℕ) (name : String) (status : ToolResultStatus) (outcome : ToolAuditOutcome)
      (code : ToolErrorCode) (R : Outcome → List ToolEvent → Type 0)
      → ((r : Outcome) (l : List ToolEvent) → Failed id name status outcome code r l → R r l)
      → Emits (failure_result matches size (traced_box box) id name status outcome code) R
  reported-Emits id name status outcome code R f =
      Emits-weaken (failure_result matches size (traced_box box) id name status outcome code)
        (Failed id name status outcome code) R (failure_result-Emits id name status outcome code) f

  interrupt-Emits : (id : ℕ) → Emits (interrupt matches size (traced_box box) id) (Interrupted id)
  unfolding interrupt
  interrupt-Emits id =
      report-Emits id (empty_finish ToolAuditOutcome.cancelled ToolErrorCode.cancelled)
        (err ToolRaise.cancelled)

  undo-Emits :
      (id : ℕ) (name : String) (t : Option (ToolTransaction S))
      → Emits
          (undo matches size (traced_box box) id name (Option.map traced_transaction t))
          (Undone (has_transaction t) (BadOutput id name))
  unfolding undo
  undo-Emits id name t =
      roll_back-Emits t
        (failure_result matches size (traced_box box) id name ToolResultStatus.failed
          ToolAuditOutcome.failed ToolErrorCode.output_limit)
        (BadOutput id name)
        (failure_result-Emits id name ToolResultStatus.failed ToolAuditOutcome.failed
          ToolErrorCode.output_limit)

  undo_interrupted-Emits :
      (id : ℕ) (t : Option (ToolTransaction S))
      → Emits
          (undo_interrupted matches size (traced_box box) id (Option.map traced_transaction t))
          (Undone (has_transaction t) (Interrupted id))
  unfolding undo_interrupted
  undo_interrupted-Emits id t =
      roll_back-Emits t (interrupt matches size (traced_box box) id) (Interrupted id)
        (interrupt-Emits id)

  -- What follows an audited success.
  keep-Emits :
      (id : ℕ) (finish : ToolAuditFinish) (result : ToolResult) (t : Option (ToolTransaction S))
      → Emits
          (commit matches size (traced_box box) (Option.map traced_transaction t) >> pure result)
          (λ r l.
            Completed id finish (ok result) (has_transaction t) r (finished id finish true ∷ l))
  unfolding commit
  keep-Emits id finish result none =
      Emits-pure result
        (λ r l. Completed id finish (ok result) false r (finished id finish true ∷ l))
        (Completed.kept refl)
  keep-Emits id finish result (some t) =
      Emits-tried committed compensation_error
        (commit matches size (traced_box box) (some (traced_transaction t))) (λ w. (ok result, w))
        (λ r l. Completed id finish (ok result) true r (finished id finish true ∷ l))
        (Emits-attempt committed t.commit compensation_error)
        (λ before s. ([], sym (append_nil before), Completed.fixed refl)) (Completed.unfixed refl)

  audit-Emits :
      (id : ℕ) (finish : ToolAuditFinish) (t : Option (ToolTransaction S))
      → Emits
          (handle (finish_call matches size (traced_box box) id finish) (λ e.
            roll_back matches size (traced_box box) (Option.map traced_transaction t)
            >> raise {A = Unit {0}} e))
          (Audited id finish (has_transaction t))
  audit-Emits id finish t =
      Emits-tried-handle (finished id finish) audit_error
        (finish_call matches size (traced_box box) id finish)
        (λ e. roll_back matches size (traced_box box) (Option.map traced_transaction t) >> raise e)
        (Audited id finish (has_transaction t)) (finish_call-Emits id finish)
        (Emits-weaken
          (roll_back matches size (traced_box box) (Option.map traced_transaction t)
            >> raise audit_error)
          (Undone (has_transaction t) Unaudited)
          (λ r l. Audited id finish (has_transaction t) r (finished id finish false ∷ l))
          (roll_back-Emits t (raise audit_error) Unaudited
            (Emits-raise audit_error Unaudited Unaudited.unaudited))
          (λ r l u. Audited.dropped u))
        Audited.passed

  settle-Emits :
      (id : ℕ) (finish : ToolAuditFinish) (result : ToolResult) (t : Option (ToolTransaction S))
      → Emits
          (handle (finish_call matches size (traced_box box) id finish) (λ e.
              roll_back matches size (traced_box box) (Option.map traced_transaction t) >> raise e)
            >> (commit matches size (traced_box box) (Option.map traced_transaction t)
                >> pure result))
          (Completed id finish (ok result) (has_transaction t))
  settle-Emits id finish result t =
      Emits-bind
        (handle (finish_call matches size (traced_box box) id finish) (λ e.
          roll_back matches size (traced_box box) (Option.map traced_transaction t) >> raise e))
        (λ _. commit matches size (traced_box box) (Option.map traced_transaction t) >> pure result)
        (Audited id finish (has_transaction t))
        (Completed id finish (ok result) (has_transaction t)) (audit-Emits id finish t) next stop
    where
      next :
          (a : Unit {0}) (l : List ToolEvent)
          → Audited id finish (has_transaction t) (ok a) l
          → Emits
              (commit matches size (traced_box box) (Option.map traced_transaction t)
                >> pure result)
              (λ r k. Completed id finish (ok result) (has_transaction t) r (l ++ k))
      next a l Audited.passed = keep-Emits id finish result t
      next a l (Audited.dropped (Undone.nothing h u)) = elim u [ ]
      next a l (Audited.dropped (Undone.undone h u)) = elim u [ ]

      stop :
          (e : ToolRaise) (l : List ToolEvent)
          → Audited id finish (has_transaction t) (err e) l
          → Completed id finish (ok result) (has_transaction t) (err e) l
      stop e l (Audited.dropped (Undone.nothing h Unaudited.unaudited)) =
          Completed.dropped (Undone.nothing h Unaudited.unaudited)
      stop e l (Audited.dropped (Undone.undone h Unaudited.unaudited)) =
          Completed.dropped (Undone.undone h Unaudited.unaudited)
      stop e l (Audited.dropped (Undone.stuck h)) = Completed.dropped (Undone.stuck h)

  complete-Emits :
      (id : ℕ) (name : String) (fields : Fields) (bytes : ℕ) (t : Option (ToolTransaction S))
      → Emits
          (complete matches size
            (traced_box box)
            id
            name
            fields
            bytes
            (Option.map traced_transaction t))
          (Completed id
            (success_finish fields (is_truncated fields) bytes)
            (ok (succeeded_result id name fields (is_truncated fields)))
            (has_transaction t))
  unfolding complete
  complete-Emits id name fields bytes t =
      settle-Emits id (success_finish fields (is_truncated fields) bytes)
        (succeeded_result id name fields (is_truncated fields)) t

  judge-Emits :
      (id : ℕ) (name : String) (t : Option (ToolTransaction S)) (checked : CheckedOutput)
      → Emits
          (judge matches size (traced_box box) id name (Option.map traced_transaction t) checked)
          (λ r l. Delivered id name checked (has_transaction t) r (paused true ∷ l))
  unfolding judge
  judge-Emits id name t invalid_output =
      Emits-weaken (undo matches size (traced_box box) id name (Option.map traced_transaction t))
        (Undone (has_transaction t) (BadOutput id name))
        (λ r l. Delivered id name invalid_output (has_transaction t) r (paused true ∷ l))
        (undo-Emits id name t) (λ r l u. Delivered.rejected refl u)
  judge-Emits id name t unchecked_output =
      Emits-raise other
        (λ r l. Delivered id name unchecked_output (has_transaction t) r (paused true ∷ l))
        (Delivered.escaped refl)
  judge-Emits id name t (valid_output fields bytes) =
      Emits-weaken
        (complete matches size (traced_box box) id name fields bytes
          (Option.map traced_transaction t))
        (Completed id (success_finish fields (is_truncated fields) bytes)
          (ok (succeeded_result id name fields (is_truncated fields))) (has_transaction t))
        (λ r l.
          Delivered id name (valid_output fields bytes) (has_transaction t) r (paused true ∷ l))
        (complete-Emits id name fields bytes t) (λ r l c. Delivered.accepted fields bytes refl c)

  resume-Emits :
      (id : ℕ) (name : String) (raw : Option Fields) (t : Option (ToolTransaction S))
      (resumed : Bool)
      → Emits
          (resume matches size
            (traced_box box)
            id
            name
            raw
            (Option.map traced_transaction t)
            resumed)
          (λ r l.
            Delivered id name
              (checked_output matches size raw)
              (has_transaction t)
              r
              (paused resumed ∷ l))
  unfolding resume
  resume-Emits id name raw t true = judge-Emits id name t (checked_output matches size raw)
  resume-Emits id name raw t false =
      Emits-weaken
        (undo_interrupted matches size (traced_box box) id (Option.map traced_transaction t))
        (Undone (has_transaction t) (Interrupted id))
        (λ r l.
          Delivered id name (checked_output matches size raw) (has_transaction t) r
            (paused false ∷ l))
        (undo_interrupted-Emits id t) (λ r l u. Delivered.stopped u)

  deliver-Emits :
      (id : ℕ) (name : String) (raw : Option Fields) (t : Option (ToolTransaction S))
      → Emits
          (deliver matches size (traced_box box) id name raw (Option.map traced_transaction t))
          (Delivered id name (checked_output matches size raw) (has_transaction t))
  unfolding deliver
  deliver-Emits id name raw t =
      Emits-once paused box.pause
        (λ resumed.
          resume matches size (traced_box box) id name raw (Option.map traced_transaction t)
            resumed)
        (Delivered id name (checked_output matches size raw) (has_transaction t))
        (λ resumed s s' e. resume-Emits id name raw t resumed)

  receive-Emits :
      (id : ℕ) (name : String) (reply : ToolReply S)
      → Emits
          (receive matches size (traced_box box) id name (traced_reply reply))
          (Ran matches size id name reply)
  unfolding receive
  receive-Emits id name (ToolReply.output raw t) =
      Emits-weaken
        (deliver matches size (traced_box box) id name raw (Option.map traced_transaction t))
        (Delivered id name (checked_output matches size raw) (has_transaction t))
        (Ran matches size id name (ToolReply.output raw t)) (deliver-Emits id name raw t)
        (λ r l d. Ran.delivered raw t d)
  receive-Emits id name ToolReply.timed_out =
      reported-Emits id name ToolResultStatus.timed_out ToolAuditOutcome.timed_out
        ToolErrorCode.tool_timed_out (Ran matches size id name ToolReply.timed_out)
        (λ r l f. Ran.late f)
  receive-Emits id name ToolReply.cancelled =
      Emits-weaken (interrupt matches size (traced_box box) id) (Interrupted id)
        (Ran matches size id name ToolReply.cancelled) (interrupt-Emits id)
        (λ r l i. Ran.interrupted i)
  receive-Emits id name ToolReply.crashed =
      reported-Emits id name ToolResultStatus.failed ToolAuditOutcome.failed
        ToolErrorCode.tool_failed (Ran matches size id name ToolReply.crashed)
        (λ r l f. Ran.crashed f)
  receive-Emits id name (ToolReply.tool_error code) =
      reported-Emits id name ToolResultStatus.failed ToolAuditOutcome.failed code
        (Ran matches size id name (ToolReply.tool_error code)) (λ r l f. Ran.failed code f)

  run-Emits :
      (id : ℕ) (name : String) (context : ToolExecutionContext) (arguments : Fields) (tool : Tool S)
      (d : PermissionDecision) (found : Option (ToolExecutionContext → S → ToolReply S × S))
      → is_allowed d.outcome ≡ true
      → tool.prepare arguments ≡ found
      → Emits
          (run_call matches size
            (traced_box box)
            id
            name
            context
            (Option.map (traced_call tool.name) found))
          (Answered matches size id name tool context arguments (ok d))
  unfolding run_call
  run-Emits id name context arguments tool d none h e before s =
      reported-Emits id name ToolResultStatus.failed ToolAuditOutcome.failed
        ToolErrorCode.invalid_input (Answered matches size id name tool context arguments (ok d))
        (λ r l f. Answered.unprepared d h e f) before s
  run-Emits id name context arguments tool d (some call) h e before s =
      let (reply, s') = call context s in
      let (l, grown, p) = receive-Emits id name reply (before ++ executed tool.name ∷ []) s' in
      (
        executed tool.name ∷ l,
        grown ∙ append_assoc before (executed tool.name ∷ []) l,
        Answered.ran d call reply s s' h e refl p,
      )

  heed-Emits :
      (id : ℕ) (name : String) (context : ToolExecutionContext) (arguments : Fields) (tool : Tool S)
      (answer : Result PermissionError PermissionDecision)
      → Emits
          (heed matches size (traced_box box) id name context arguments (traced_tool tool) answer)
          (Answered matches size id name tool context arguments answer)
  unfolding heed
  heed-Emits id name context arguments tool (err e) =
      reported-Emits id name ToolResultStatus.failed ToolAuditOutcome.failed
        ToolErrorCode.permission_audit_failed
        (Answered matches size id name tool context arguments (err e))
        (λ r l f. Answered.unanswered e f)
  heed-Emits id name context arguments tool (ok d) = elim (Bool-cases (is_allowed d.outcome)) [
    | inl h ↦
        rw (h, if◌then◌else◌)
          (run-Emits id name context arguments tool d (tool.prepare arguments) h refl)
    | inr h ↦
        rw (h, if◌then◌else◌)
          (reported-Emits id name ToolResultStatus.denied ToolAuditOutcome.denied
            (refusal d.outcome) (Answered matches size id name tool context arguments (ok d))
            (λ r l f. Answered.denied d h f))
  ]

  ask_permission-Emits :
      (id : ℕ) (name : String) (context : ToolExecutionContext) (arguments : Fields) (tool : Tool S)
      → get box.registry name ≡ some tool
      → any (λ declared. str_eq name declared) context.declared_tool_ids ≡ true
      → Emits
          (ask_permission matches size
            (traced_box box)
            id
            name
            context
            arguments
            (traced_tool tool))
          (Opened matches size box name context arguments id)
  unfolding ask_permission
  ask_permission-Emits id name context arguments tool found declared =
      elim (Bool-cases (is_valid_request matches (permission_request name context tool))) [
        | inr h ↦
            rw (h, if◌then◌else◌)
              (Emits-raise other (Opened matches size box name context arguments id)
                (Opened.malformed tool h))
        | inl h ↦
            rw (h, if◌then◌else◌)
              (Emits-once (evaluated (permission_request name context tool))
                (box.evaluate (permission_request name context tool))
                (heed matches size (traced_box box) id name context arguments (traced_tool tool))
                (Opened matches size box name context arguments id)
                (λ answer s s' e.
                  Emits-weaken
                    (heed matches size (traced_box box) id name context arguments (traced_tool tool)
                      answer)
                    (Answered matches size id name tool context arguments answer)
                    (λ r l.
                      Opened matches size box name context arguments id r
                        (evaluated (permission_request name context tool) answer ∷ l))
                    (heed-Emits id name context arguments tool answer)
                    (λ r l a. Opened.asked tool answer s s' found declared e a)))
      ]

  find_tool-Emits :
      (id : ℕ) (name : String) (context : ToolExecutionContext) (arguments : Fields)
      (found : Option (Tool S))
      → get box.registry name ≡ found
      → Emits
          (find_tool matches size
            (traced_box box)
            id
            name
            context
            arguments
            (Option.map traced_tool found))
          (Opened matches size box name context arguments id)
  unfolding find_tool
  find_tool-Emits id name context arguments none e =
      reported-Emits id name ToolResultStatus.denied ToolAuditOutcome.denied
        ToolErrorCode.tool_not_found (Opened matches size box name context arguments id)
        (λ r l f. Opened.missing e f)
  find_tool-Emits id name context arguments (some tool) e =
      elim (Bool-cases (any (λ declared. str_eq name declared) context.declared_tool_ids)) [
        | inl h ↦ rw (h, if◌then◌else◌) (ask_permission-Emits id name context arguments tool e h)
        | inr h ↦
            rw (h, if◌then◌else◌)
              (reported-Emits id name ToolResultStatus.denied ToolAuditOutcome.denied
                ToolErrorCode.tool_not_declared (Opened matches size box name context arguments id)
                (λ r l f. Opened.undeclared h f))
      ]

  with_handle-Emits :
      (name : String) (context : ToolExecutionContext) (arguments : Fields) (start : ToolAuditStart)
      (handle : Option ℕ)
      → Emits (with_handle matches size (traced_box box) name context arguments handle) (λ r l.
        Lifecycle matches size box name context arguments start r (begun start handle ∷ l))
  unfolding with_handle
  with_handle-Emits name context arguments start none =
      Emits-raise audit_error
        (λ r l. Lifecycle matches size box name context arguments start r (begun start none ∷ l))
        Lifecycle.unopened
  with_handle-Emits name context arguments start (some id) =
      Emits-weaken
        (find_tool matches size (traced_box box) id name context arguments
          (get (map traced_tool box.registry) name))
        (Opened matches size box name context arguments id)
        (λ r l.
          Lifecycle matches size box name context arguments start r (begun start (some id) ∷ l))
        (rw (get-map box.registry name)
          (find_tool-Emits id name context arguments (get box.registry name) refl))
        (λ r l o. Lifecycle.opened id o)

-- Whatever its collaborators do, a call of the executor adds to the trace of their calls a lifecycle
-- that ends as the call does. In it, what a tool has done in a transaction is rolled back if the
-- call is cancelled after the tool's reply, if the output does not pass its checks, or if the audit
-- refuses the success, and is committed otherwise, but that an exception other than a `TypeError` or
-- a `ValueError` from the check of the output ends the call with neither; and an output without a
-- transaction has neither.
pub execute_tool-Lifecycle :
    {S : Type 0} (matches : String → String → Bool) (size : Fields → OutputSize) (box : Toolbox S)
    (name : String) (arguments : Fields) (context : ToolExecutionContext)
    → Emits (execute_tool matches size (traced_box box) name arguments context) (
        Lifecycle matches size box name context arguments
          (audit_start name (length arguments) context))
unfolding execute_tool
execute_tool-Lifecycle matches size box name arguments context =
    elim (Bool-cases
      (is_valid_context matches size context && is_valid_call matches size name arguments)) [
        | inr h ↦
            rw (h, if◌then◌else◌)
              (Emits-raise input_error
                (Lifecycle matches size box name context arguments
                  (audit_start name (length arguments) context))
                Lifecycle.unfit)
        | inl h ↦
            rw (h, if◌then◌else◌)
              (Emits-once (begun (audit_start name (length arguments) context))
                (box.begin_audit (audit_start name (length arguments) context))
                (with_handle matches size (traced_box box) name context arguments)
                (Lifecycle matches size box name context arguments
                  (audit_start name (length arguments) context))
                (λ begun_as s s' e.
                  with_handle-Emits matches size box name context arguments
                    (audit_start name (length arguments) context) begun_as))
      ]
