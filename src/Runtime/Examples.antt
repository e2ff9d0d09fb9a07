-- ===== src/Runtime/Examples.antt =====
-- Runs of the runtime and of its stagnation detector, and the theorems at work on them.
use synapse_os.Base.{ℕ, ◌+◌, ◌≤◌, true, [], ◌∷◌, none, some, ◌≡◌, ◌↔◌, refl, arith, suc}
use synapse_os.Runtime.Types.{
  RuntimeStep, RuntimeAction, RuntimeVerificationOutcome, RuntimeTerminalStatus,
  RuntimeTerminalReason, ToolResultStatus, RuntimeLimits, JsonValue, RuntimeDecision, RuntimeResult,
  RuntimeHistoryEntry, accepts, is_valid_record, is_valid_result,
}
use synapse_os.Runtime.Stagnation.{Canonical, keep_equal, observe_digest, observe_all, streak}
use synapse_os.Runtime.Streak.{stagnates_iff}
use synapse_os.Runtime.Machine.{
  answer, raise, other, Collaborators, append_entry, record_one, audit_step, terminal_audit, ask,
  reason_step, terminal, check_tokens, finish,
}
use synapse_os.Runtime.Loop.{
  check_failures, think, call_tool, act, check_result, check_stagnation, conclude_verification,
  settle, take_action, iteration, iterate, execute, result_of, conclude, run,
}
use synapse_os.Runtime.Bounds.{Counts}
use synapse_os.Runtime.Results.{IsBounded, run-IsBounded, run_calls_bounded}

-- An agent that reads the same file again and again; the world counts the calls of the tool.
abbrev reading : RuntimeDecision
reading = record {
  action = RuntimeAction.tool_call;
  tool_name = some "read_file";
  arguments = JsonValue.null;
}

abbrev agent : Collaborators ℕ (Unit {0}) (Unit {0}) (Unit {0})
agent = record {
  observe = λ h w. (answer (record { value = tt; reported_tokens = 5; usage_available = true }), w);
  plan = λ o h w. (answer (record { value = tt; reported_tokens = 5; usage_available = true }), w);
  decide = λ o p h w.
      (answer (record { value = reading; reported_tokens = 5; usage_available = true }), w);
  verify = λ d t h w. (
    answer (record {
      value = record { outcome = RuntimeVerificationOutcome.continue; progress_made = true };
      reported_tokens = 5;
      usage_available = true;
    }),
    w,
  );
  report =
      λ s r h w. (answer (record { value = tt; reported_tokens = 5; usage_available = true }), w);
  execute =
      λ n a w. (answer (record { status = ToolResultStatus.succeeded; error_code = none }), suc w);
  record_audit = λ r w. (answer tt, w);
  record_cancellation = λ r w. (answer tt, w);
}

abbrev limits : RuntimeLimits
limits = record {
  max_iterations = 3;
  max_tool_calls = 1;
  max_failures = 2;
  max_tokens = 1000;
  max_history_entries = 2;
  stagnation_window = 2;
  max_step_tokens = 100;
}

counts : Counts agent (λ w. w)
counts = record {
  by_observe = λ h w. omega arith;
  by_plan = λ o h w. omega arith;
  by_decide = λ o p h w. omega arith;
  by_verify = λ d t h w. omega arith;
  by_report = λ s r h w. omega arith;
  by_record = λ r w. omega arith;
  by_cancellation = λ r w. omega arith;
  by_execute = λ n a w. omega arith;
}

abbrev noted : ℕ → RuntimeStep → RuntimeHistoryEntry
noted i step = record {
  iteration = i;
  step = step;
  action = some RuntimeAction.tool_call;
  tool_name = some "read_file";
  tool_error_code = none;
}

abbrev stopped : RuntimeResult
stopped = record {
  status = RuntimeTerminalStatus.limit_reached;
  reason = RuntimeTerminalReason.max_tool_calls_reached;
  state = record {
    iterations = 2;
    tool_calls = 1;
    failures = 0;
    reported_tokens = 35;
    usage_available = true;
    history = noted 1 RuntimeStep.verify ∷ noted 2 RuntimeStep.decide ∷ [];
  };
}

abbrev digest : Canonical → ℕ
digest c = 0

stops : (run agent limits digest true 0).0 ≡ answer stopped
unfolding run conclude result_of execute iterate iteration take_action settle conclude_verification
    check_stagnation check_result act call_tool think check_failures finish check_tokens terminal
    reason_step ask terminal_audit audit_step record_one append_entry is_valid_result
    is_valid_record accepts observe_digest keep_equal
stops = refl

run-IsBounded_example : IsBounded limits stopped
run-IsBounded_example = run-IsBounded agent limits digest (λ w. w) counts 0 stopped stops

run_calls_bounded_example : (run agent limits digest true 4).1 ≤ 4 + limits.max_tool_calls
run_calls_bounded_example = run_calls_bounded agent limits digest (λ w. w) counts true 4

stagnates_iff_example :
    ((observe_all 3 (8 ∷ 8 ∷ 8 ∷ 6 ∷ [])).1 ≡ true) ↔ (3 ≤ suc (streak 8 (8 ∷ 8 ∷ 6 ∷ [])))
stagnates_iff_example = stagnates_iff 3 8 (8 ∷ 8 ∷ 6 ∷ []) (omega arith)

-- A reasoner that reports more tokens in two steps than an audit record can hold.
abbrev costly : Collaborators ℕ (Unit {0}) (Unit {0}) (Unit {0})
costly = record agent {
  observe = λ h w.
      (answer (record { value = tt; reported_tokens = 6_000_000; usage_available = true }), w);
  plan = λ o h w.
      (answer (record { value = tt; reported_tokens = 6_000_000; usage_available = true }), w);
}

abbrev widest : RuntimeLimits
widest = record limits { max_tokens = 10_000_000 }

-- The run raises a validation error, where the token budget is reached.
tokens_overflow : (run costly widest digest true 0).0 ≡ raise other
unfolding run conclude result_of execute iterate iteration think check_tokens terminal reason_step
    ask terminal_audit audit_step record_one is_valid_record
tokens_overflow = refl
