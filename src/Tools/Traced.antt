-- ===== src/Tools/Traced.antt =====
-- The executor's collaborators with a trace of the calls that reach them.
use mathlib.Core.Option
use synapse_os.Base.{ℕ, Bool, List, [], ◌∷◌, ◌++◌, map, Option, String, Result}
use synapse_os.Effects.Trace.{traced}
use synapse_os.Permissions.Types.{PermissionRequest, PermissionDecision}
use synapse_os.Permissions.Policy.{PermissionError}
use synapse_os.Tools.Types.{
  ToolExecutionContext, ToolAuditStart, ToolAuditFinish, ToolTransaction, ToolReply, Tool,
}
use synapse_os.Tools.Executor.{Toolbox}

pub data ToolEvent : Type 0 where
  begun : ToolAuditStart → Option ℕ → ToolEvent
  evaluated : PermissionRequest → Result PermissionError PermissionDecision → ToolEvent
  executed : String → ToolEvent
  paused : Bool → ToolEvent
  finished : ℕ → ToolAuditFinish → Bool → ToolEvent
  committed rolled_back : Bool → ToolEvent

abbrev pub World : Type 0 → Type 0
World S = List ToolEvent × S

module _ {S : Type 0} where
  abbrev pub traced_transaction : ToolTransaction S → ToolTransaction (World S)
  traced_transaction t = record {
    commit = traced committed t.commit;
    rollback = traced rolled_back t.rollback;
  }

  abbrev pub traced_reply : ToolReply S → ToolReply (World S)
  traced_reply (ToolReply.output raw t) = ToolReply.output raw (Option.map traced_transaction t)
  traced_reply ToolReply.timed_out = ToolReply.timed_out
  traced_reply ToolReply.cancelled = ToolReply.cancelled
  traced_reply ToolReply.crashed = ToolReply.crashed
  traced_reply (ToolReply.tool_error code) = ToolReply.tool_error code

  abbrev pub traced_call :
      String
      → (ToolExecutionContext → S → ToolReply S × S)
      → ToolExecutionContext
      → World S
      → ToolReply (World S) × World S
  traced_call name call context w =
      let (r, s) = call context w.1 in (traced_reply r, (w.0 ++ executed name ∷ [], s))

  abbrev pub traced_tool : Tool S → Tool (World S)
  traced_tool t = record {
    name = t.name;
    description = t.description;
    required_permissions = t.required_permissions;
    risk_level = t.risk_level;
    timeout = t.timeout;
    has_closed_schema = t.has_closed_schema;
    prepare = λ a. Option.map (traced_call t.name) (t.prepare a);
  }

  abbrev pub traced_box : Toolbox S → Toolbox (World S)
  traced_box box = record {
    registry = map traced_tool box.registry;
    begin_audit = λ start. traced (begun start) (box.begin_audit start);
    finish_audit = λ id finish. traced (finished id finish) (box.finish_audit id finish);
    evaluate = λ request. traced (evaluated request) (box.evaluate request);
    pause = traced paused box.pause;
  }
