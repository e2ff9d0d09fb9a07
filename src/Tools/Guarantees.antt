-- ===== src/Tools/Guarantees.antt =====
-- What a lifecycle of core/tools/executor.py gives: the audit of a result, the permission of a run, and
-- the order of audit, commit and rollback.
use synapse_os.Base.{
  ℕ, Bool, true, false, List, [], ◌∷◌, ◌++◌, Option, none, some, String, length, any, str_eq,
  Result, ok, err, ◌≡◌, refl, sym, ap, ◌∙◌, subst, if◌then◌else◌,
}
use synapse_os.Runtime.Types.{ToolErrorCode, ToolResultStatus}
use synapse_os.Permissions.Types.{PermissionRequest, PermissionDecision}
use synapse_os.Permissions.Policy.{PermissionError}
use synapse_os.Tools.Types.{
  ToolAuditOutcome, ToolExecutionContext, ToolAuditStart, ToolAuditFinish, Fields, ToolResult,
  ToolReply, Tool,
}
use synapse_os.Tools.Registry.{get}
use synapse_os.Tools.Executor.{
  Toolbox, audit_start, permission_request, is_allowed, is_truncated, success_finish,
  succeeded_result, execute_tool, OutputSize, CheckedOutput,
}
use synapse_os.Tools.Traced.{
  ToolEvent, begun, evaluated, executed, paused, finished, committed, rolled_back, World,
  traced_box,
}
use synapse_os.Tools.Lifecycle.{
  Outcome, Reported, Undone, Unaudited, Completed, Failed, Interrupted, BadOutput, Delivered, Ran,
  Answered, Opened, Lifecycle,
}
use synapse_os.Tools.Protocol.{execute_tool-Lifecycle}

-- The audits that end a call, with whether the recorder took them.
abbrev pub audits : List ToolEvent → List (ToolAuditOutcome × Bool)
audits [] = []
audits (e ∷ rest) =
    let later = audits rest in elim e [ finished id f b ↦ (f.outcome, b) ∷ later | _ ↦ later ]

abbrev pub audit_outcome : ToolResultStatus → ToolAuditOutcome
audit_outcome ToolResultStatus.succeeded = ToolAuditOutcome.succeeded
audit_outcome ToolResultStatus.failed = ToolAuditOutcome.failed
audit_outcome ToolResultStatus.denied = ToolAuditOutcome.denied
audit_outcome ToolResultStatus.timed_out = ToolAuditOutcome.timed_out

-- If a result is returned, its status is what was audited, once, and the recorder took it.
abbrev Told : Outcome → List (ToolAuditOutcome × Bool) → Type 0
Told (ok result) told = told ≡ (audit_outcome result.status, true) ∷ []
Told (err e) told = Unit {0}

abbrev pub is_run : ToolEvent → Bool
is_run (executed name) = true
is_run _ = false

-- How far a call has come: nothing is settled, the recorder has taken its success, what it has done
-- is rolled back, or it has ended.
pub data Phase : Type 0 where
  fresh kept reverted ended : Phase

abbrev pub is_success : ToolAuditFinish → Bool
is_success f = elim f.outcome [ ToolAuditOutcome.succeeded ↦ true | _ ↦ false ]

-- The phase after an event, or nothing where the event must not happen.
abbrev pub after_event : Phase → ToolEvent → Option Phase
after_event Phase.fresh (finished id f false) = some Phase.fresh
after_event Phase.fresh (finished id f true) =
    some (if is_success f then Phase.kept else Phase.ended)
after_event Phase.fresh (rolled_back b) = some Phase.reverted
after_event Phase.kept (committed b) = some Phase.ended
after_event Phase.reverted (finished id f b) = if is_success f then none else some Phase.ended
after_event phase (finished id f b) = none
after_event phase (committed b) = none
after_event phase (rolled_back b) = none
after_event phase (begun start id) = some phase
after_event phase (evaluated q a) = some phase
after_event phase (executed name) = some phase
after_event phase (paused b) = some phase

abbrev pub is_orderly : Phase → List ToolEvent → Bool
is_orderly phase [] = true
is_orderly phase (e ∷ rest) = elim (after_event phase e) [
  | none ↦ false
  | some next ↦ is_orderly next rest
]

-- What holds of every part of a call that comes after the run.
record Good (r : Outcome) (l : List ToolEvent) : Type 0 where
  audited : Told r (audits l)
  quiet : any is_run l ≡ false
  orderly : is_orderly Phase.fresh l ≡ true

Failed-Good :
    {id : ℕ} {name : String} (status : ToolResultStatus) {code : ToolErrorCode} {r : Outcome}
    {l : List ToolEvent}
    → Failed id name status (audit_outcome status) code r l
    → Good r l
Failed-Good ToolResultStatus.succeeded Reported.told = record {
  audited = refl;
  quiet = refl;
  orderly = refl;
}
Failed-Good ToolResultStatus.failed Reported.told = record {
  audited = refl;
  quiet = refl;
  orderly = refl;
}
Failed-Good ToolResultStatus.denied Reported.told = record {
  audited = refl;
  quiet = refl;
  orderly = refl;
}
Failed-Good ToolResultStatus.timed_out Reported.told = record {
  audited = refl;
  quiet = refl;
  orderly = refl;
}
Failed-Good status Reported.untold = record { audited = tt; quiet = refl; orderly = refl }

Interrupted-Good : {id : ℕ} {r : Outcome} {l : List ToolEvent} → Interrupted id r l → Good r l
Interrupted-Good Reported.told = record { audited = tt; quiet = refl; orderly = refl }
Interrupted-Good Reported.untold = record { audited = tt; quiet = refl; orderly = refl }

-- An end that may also follow a rollback.
abbrev IsEnd : (Outcome → List ToolEvent → Type 0) → Type 0
IsEnd P =
    (r : Outcome) (l : List ToolEvent) → P r l → Good r l × (is_orderly Phase.reverted l ≡ true)

BadOutput-IsEnd : (id : ℕ) (name : String) → IsEnd (BadOutput id name)
BadOutput-IsEnd id name r l b = (Failed-Good ToolResultStatus.failed b, after b)
  where
    after :
        {r : Outcome} {l : List ToolEvent}
        → BadOutput id name r l
        → is_orderly Phase.reverted l ≡ true
    after Reported.told = refl
    after Reported.untold = refl

Interrupted-IsEnd : (id : ℕ) → IsEnd (Interrupted id)
Interrupted-IsEnd id r l i = (Interrupted-Good i, after i)
  where
    after :
        {r : Outcome} {l : List ToolEvent} → Interrupted id r l → is_orderly Phase.reverted l ≡ true
    after Reported.told = refl
    after Reported.untold = refl

Undone-Good :
    {t : Bool} {r : Outcome} {l : List ToolEvent} (P : Outcome → List ToolEvent → Type 0)
    → IsEnd P
    → Undone t P r l
    → Good r l
Undone-Good P end (Undone.nothing h p) = (end _ _ p).0
Undone-Good P end (Undone.undone h p) =
    let (g, o) = end _ _ p in record { audited = g.audited; quiet = g.quiet; orderly = o }
Undone-Good P end (Undone.stuck h) = record { audited = tt; quiet = refl; orderly = refl }

Completed-Good :
    {id bytes : ℕ} {name : String} {fields : Fields} {t : Bool} {r : Outcome} {l : List ToolEvent}
    → Completed id
        (success_finish fields (is_truncated fields) bytes)
        (ok (succeeded_result id name fields (is_truncated fields)))
        t
        r
        l
    → Good r l
Completed-Good (Completed.kept h) = record { audited = refl; quiet = refl; orderly = refl }
Completed-Good (Completed.fixed h) = record { audited = refl; quiet = refl; orderly = refl }
Completed-Good (Completed.unfixed h) = record { audited = tt; quiet = refl; orderly = refl }
Completed-Good (Completed.dropped (Undone.nothing h Unaudited.unaudited)) = record {
  audited = tt;
  quiet = refl;
  orderly = refl;
}
Completed-Good (Completed.dropped (Undone.undone h Unaudited.unaudited)) = record {
  audited = tt;
  quiet = refl;
  orderly = refl;
}
Completed-Good (Completed.dropped (Undone.stuck h)) = record {
  audited = tt;
  quiet = refl;
  orderly = refl;
}

-- An event that settles nothing before the rest.
Good-paused : {r : Outcome} {l : List ToolEvent} (b : Bool) → Good r l → Good r (paused b ∷ l)
Good-paused b g = record { audited = g.audited; quiet = g.quiet; orderly = g.orderly }

Good-opened :
    (start : ToolAuditStart) (id : Option ℕ) {r : Outcome} {l : List ToolEvent}
    → Good r l
    → Good r (begun start id ∷ l)
Good-opened start id g = record { audited = g.audited; quiet = g.quiet; orderly = g.orderly }

Good-begun :
    (start : ToolAuditStart) (id : ℕ) (q : PermissionRequest)
    (a : Result PermissionError PermissionDecision) {r : Outcome} {l : List ToolEvent}
    → Good r l
    → Good r (begun start (some id) ∷ evaluated q a ∷ l)
Good-begun start id q a g = record { audited = g.audited; quiet = g.quiet; orderly = g.orderly }

Delivered-Good :
    {id : ℕ} {name : String} {checked : CheckedOutput} {t : Bool} {r : Outcome} {l : List ToolEvent}
    → Delivered id name checked t r l
    → Good r l
Delivered-Good {id} {name} (Delivered.stopped u) =
    Good-paused false (Undone-Good (Interrupted id) (Interrupted-IsEnd id) u)
Delivered-Good {id} {name} (Delivered.rejected e u) =
    Good-paused true (Undone-Good (BadOutput id name) (BadOutput-IsEnd id name) u)
Delivered-Good (Delivered.escaped e) = record { audited = tt; quiet = refl; orderly = refl }
Delivered-Good (Delivered.accepted fields bytes e c) = Good-paused true (Completed-Good c)

Ran-Good :
    {S : Type 0} {matches : String → String → Bool} {size : Fields → OutputSize} {id : ℕ}
    {name : String} {reply : ToolReply S} {r : Outcome} {l : List ToolEvent}
    → Ran matches size id name reply r l
    → Good r l
Ran-Good (Ran.delivered raw t d) = Delivered-Good d
Ran-Good (Ran.late f) = Failed-Good ToolResultStatus.timed_out f
Ran-Good (Ran.interrupted i) = Interrupted-Good i
Ran-Good (Ran.crashed f) = Failed-Good ToolResultStatus.failed f
Ran-Good (Ran.failed code f) = Failed-Good ToolResultStatus.failed f

-- The trace up to the first run, the name of the tool that runs, and the rest.
abbrev pub first_run : List ToolEvent → Option (List ToolEvent × String × List ToolEvent)
first_run [] = none
first_run (executed name ∷ rest) = some ([], name, rest)
first_run (e ∷ rest) =
    let later = first_run rest in
    elim later [ none ↦ none | some (l, name, m) ↦ some (e ∷ l, name, m) ]

quiet-first_run : (l : List ToolEvent) → any is_run l ≡ false → first_run l ≡ none
quiet-first_run [] h = refl
quiet-first_run (begun start id ∷ rest) h = rw (quiet-first_run rest h) refl
quiet-first_run (evaluated q a ∷ rest) h = rw (quiet-first_run rest h) refl
quiet-first_run (executed name ∷ rest) h = absurd (cc)
quiet-first_run (paused b ∷ rest) h = rw (quiet-first_run rest h) refl
quiet-first_run (finished id f b ∷ rest) h = rw (quiet-first_run rest h) refl
quiet-first_run (committed b ∷ rest) h = rw (quiet-first_run rest h) refl
quiet-first_run (rolled_back b ∷ rest) h = rw (quiet-first_run rest h) refl

-- The trace of a call whose tool ran, up to the run, is the audit's begin and an answer of the
-- permission engine that allows the tool.
pub record Permitted {S : Type 0} (box : Toolbox S) (name : String) (context : ToolExecutionContext)
    (start : ToolAuditStart) (earlier : List ToolEvent) (ran : String) : Type 0 where
  pub id : ℕ
  pub tool : Tool S
  pub decision : PermissionDecision
  pub s : S
  pub s' : S
  pub ran_tool : ran ≡ tool.name
  pub registered : get box.registry name ≡ some tool
  pub declared : any (λ declared. str_eq name declared) context.declared_tool_ids ≡ true
  pub answered : box.evaluate (permission_request name context tool) s ≡ (ok decision, s')
  pub allowed : is_allowed decision.outcome ≡ true
  pub trace :
      earlier
      ≡ begun start (some id) ∷ evaluated (permission_request name context tool) (ok decision) ∷ []

-- What a whole call gives.
record Kept {S : Type 0} (box : Toolbox S) (name : String) (context : ToolExecutionContext)
    (start : ToolAuditStart) (r : Outcome) (l : List ToolEvent) : Type 0 where
  audited : Told r (audits l)
  orderly : is_orderly Phase.fresh l ≡ true
  permitted :
      (earlier later : List ToolEvent) (ran : String)
      → first_run l ≡ some (earlier, ran, later)
      → Permitted box name context start earlier ran × (any is_run later ≡ false)

module _ {S : Type 0} (matches : String → String → Bool) (size : Fields → OutputSize)
    (box : Toolbox S) (name : String) (context : ToolExecutionContext) (arguments : Fields)
    (start : ToolAuditStart) where
  quiet-Kept : {r : Outcome} (l : List ToolEvent) → Good r l → Kept box name context start r l
  quiet-Kept l g = record {
    audited = g.audited;
    orderly = g.orderly;
    permitted = λ earlier later ran e. let none_ran = quiet-first_run l g.quiet in absurd (cc);
  }

  Answered-Kept :
      {r : Outcome} {l : List ToolEvent} (id : ℕ) (tool : Tool S)
      (answer : Result PermissionError PermissionDecision) (s s' : S)
      → get box.registry name ≡ some tool
      → any (λ declared. str_eq name declared) context.declared_tool_ids ≡ true
      → box.evaluate (permission_request name context tool) s ≡ (answer, s')
      → Answered matches size id name tool context arguments answer r l
      → Kept box name context start r
          (begun start (some id) ∷ evaluated (permission_request name context tool) answer ∷ l)
  Answered-Kept id tool answer s s' found declared e (Answered.unanswered _ f) =
      quiet-Kept _ (Good-begun start id _ _ (Failed-Good ToolResultStatus.failed f))
  Answered-Kept id tool answer s s' found declared e (Answered.denied d h f) =
      quiet-Kept _ (Good-begun start id _ _ (Failed-Good ToolResultStatus.denied f))
  Answered-Kept id tool answer s s' found declared e (Answered.unprepared d h none_found f) =
      quiet-Kept _ (Good-begun start id _ _ (Failed-Good ToolResultStatus.failed f))
  Answered-Kept id tool answer s s' found declared e
        (Answered.ran {l = l} d call reply u u' h found_call called ran) =
      record {
        audited = (Ran-Good ran).audited;
        orderly = (Ran-Good ran).orderly;
        permitted = λ earlier later n e'.
            let after : later ≡ l = cc in
            (
              record {
                id = id;
                tool = tool;
                decision = d;
                s = s;
                s' = s';
                ran_tool = cc;
                registered = found;
                declared = declared;
                answered = e;
                allowed = h;
                trace = cc;
              },
              ap (any is_run) after ∙ (Ran-Good ran).quiet,
            );
      }

  Opened-Kept :
      {r : Outcome} {l : List ToolEvent} (id : ℕ)
      → Opened matches size box name context arguments id r l
      → Kept box name context start r (begun start (some id) ∷ l)
  Opened-Kept id (Opened.missing e f) =
      quiet-Kept _ (Good-opened start (some id) (Failed-Good ToolResultStatus.denied f))
  Opened-Kept id (Opened.undeclared e f) =
      quiet-Kept _ (Good-opened start (some id) (Failed-Good ToolResultStatus.denied f))
  Opened-Kept id (Opened.malformed tool e) =
      quiet-Kept _ (record { audited = tt; quiet = refl; orderly = refl })
  Opened-Kept id (Opened.asked tool answer s s' found declared e a) =
      Answered-Kept id tool answer s s' found declared e a

  Lifecycle-Kept :
      {r : Outcome} {l : List ToolEvent}
      → Lifecycle matches size box name context arguments start r l
      → Kept box name context start r l
  Lifecycle-Kept Lifecycle.unfit =
      quiet-Kept _ (record { audited = tt; quiet = refl; orderly = refl })
  Lifecycle-Kept Lifecycle.unopened =
      quiet-Kept _ (record { audited = tt; quiet = refl; orderly = refl })
  Lifecycle-Kept (Lifecycle.opened id o) = Opened-Kept id o

append_cancel : {A : Type 0} (before l m : List A) → before ++ l ≡ before ++ m → l ≡ m
append_cancel [] l m e = e
append_cancel (x ∷ before) l m e = append_cancel before l m (cc)

module _ {S : Type 0} (matches : String → String → Bool) (size : Fields → OutputSize)
    (box : Toolbox S) (name : String) (arguments : Fields) (context : ToolExecutionContext)
    (before : List ToolEvent) (s : S) where
  abbrev pub execution : Outcome × World S
  execution = execute_tool matches size (traced_box box) name arguments context (before, s)

  execution-Kept :
      (added : List ToolEvent)
      → execution.1.0 ≡ before ++ added
      → Kept box name context (audit_start name (length arguments) context) execution.0 added
  execution-Kept added e =
      let (l, grown, h) = execute_tool-Lifecycle matches size box name arguments context before s in
      subst (Kept box name context (audit_start name (length arguments) context) execution.0)
        (append_cancel before l added (sym grown ∙ e))
        (Lifecycle-Kept matches size box name context arguments
          (audit_start name (length arguments) context) h)

  -- If a call of the executor returns a result, then among the events that it adds to the trace is
  -- exactly one end of an audit, which the recorder took, with the outcome of the result's status.
  pub execute_tool-audits :
      (result : ToolResult) (added : List ToolEvent)
      → execution.0 ≡ ok result
      → execution.1.0 ≡ before ++ added
      → audits added ≡ (audit_outcome result.status, true) ∷ []
  execute_tool-audits result added h e =
      subst (λ r. Told r (audits added)) h (execution-Kept added e).audited

  -- If a tool runs in a call of the executor, it is the registered tool of the name asked for, the
  -- name is declared in the context, an audit was begun and the permission engine has allowed the
  -- request for that tool, nothing else has happened before, and no tool runs afterwards.
  pub execute_tool-first_run :
      (added earlier later : List ToolEvent) (ran : String)
      → execution.1.0 ≡ before ++ added
      → first_run added ≡ some (earlier, ran, later)
      → Permitted box name context (audit_start name (length arguments) context) earlier ran
        × (any is_run later ≡ false)
  execute_tool-first_run added earlier later ran e h =
      (execution-Kept added e).permitted earlier later ran h

  -- In a call of the executor a commit comes only after an accepted audit of a success, a rollback
  -- at most once and not after an accepted end of the audit, no success is audited after a rollback,
  -- and nothing of these follows a commit or an accepted end of the audit but the commit.
  pub execute_tool-is_orderly :
      (added : List ToolEvent)
      → execution.1.0 ≡ before ++ added
      → is_orderly Phase.fresh added ≡ true
  execute_tool-is_orderly added e = (execution-Kept added e).orderly
