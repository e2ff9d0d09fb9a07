-- ===== src/Runtime/Results.antt =====
-- What a call of `AgentRuntime.run` returns, and what it has done to the world, whatever the
-- reasoner, the tool executor and the audit recorder do.
use synapse_os.Base.{
  ℕ, ◌+◌, ◌≤◌, ◌<◌, max, Bool, true, false, [], length, ◌≡◌, ◌≢◌, ◌⊎◌, refl, arith, Bool-cases, inl,
  inr, if◌then◌else◌,
}
use synapse_os.Runtime.Types.{
  RuntimeTerminalStatus, RuntimeTerminalReason, RuntimeErrorCode, RuntimeAuditOutcome,
  RuntimeLimits, RunState, fresh_run, RuntimeResult, accepts, RuntimeAuditRecord, is_valid_record,
}
use synapse_os.Runtime.Stagnation.{Canonical}
use synapse_os.Runtime.Machine.{
  runtime_error, timeout, cancelled, tool_audit_error, other, answer, raise, Exit, returned,
  continued, raised, Flow, value, exit, Collaborators, Run, terminal_record, terminal_audit,
  record_one,
}
use synapse_os.Runtime.Loop.{execute, result_of, record_cancelled, conclude, run}
use synapse_os.Runtime.Bounds.{Counts, Within, most_failures, Ended, iterate-Ended}

-- What a returned result tells: iterations, tool calls and history are within the limits, the
-- failures nearly so, the reason belongs to the status, and a run that says completed has tokens left.
pub record IsBounded (limits : RuntimeLimits) (r : RuntimeResult) : Type 0 where
  pub iterations : r.state.iterations ≤ limits.max_iterations
  pub tool_calls : r.state.tool_calls ≤ limits.max_tool_calls
  pub history : length r.state.history ≤ limits.max_history_entries
  pub failures : r.state.failures ≤ max 1 limits.max_failures + 1
  pub truthful : accepts r.status r.reason ≡ true
  pub in_budget :
      (r.status ≢ RuntimeTerminalStatus.completed) ⊎ (r.state.reported_tokens < limits.max_tokens)

-- A guarantee for one status, as an alternative.
completed_or :
    (P : Type 0) (status : RuntimeTerminalStatus)
    → (status ≡ RuntimeTerminalStatus.completed → P)
    → (status ≢ RuntimeTerminalStatus.completed) ⊎ P
completed_or P RuntimeTerminalStatus.completed h = inr (h refl)
completed_or P RuntimeTerminalStatus.escalated h = inl (λ e. cc)
completed_or P RuntimeTerminalStatus.limit_reached h = inl (λ e. cc)
completed_or P RuntimeTerminalStatus.timed_out h = inl (λ e. cc)
completed_or P RuntimeTerminalStatus.failed h = inl (λ e. cc)

-- A result that is built is the one that was to be built.
result_of-answer :
    {W O P R : Type 0} (c : Collaborators W O P R) (limits : RuntimeLimits) (digest : Canonical → ℕ)
    (status : RuntimeTerminalStatus) (reason : RuntimeTerminalReason) (s : RunState)
    (r : RuntimeResult)
    → result_of c limits digest status reason s ≡ answer r
    → r ≡ record { status = status; reason = reason; state = s }
unfolding result_of
result_of-answer c limits digest status reason s r h = ground arith

module _ {W O P R : Type 0} (c : Collaborators W O P R) (limits : RuntimeLimits)
    (digest : Canonical → ℕ) (calls : W → ℕ) (counts : Counts c calls) (base : ℕ) where
  abbrev Loose : Run W → Type 0
  Loose = Within c limits calls counts base (most_failures c limits calls counts base + 1)

  loose-IsBounded :
      (status : RuntimeTerminalStatus) (reason : RuntimeTerminalReason) (s : Run W)
      (r : RuntimeResult)
      → Loose s
      → accepts status reason ≡ true
      → (status ≡ RuntimeTerminalStatus.completed → s.state.reported_tokens < limits.max_tokens)
      → result_of c limits digest status reason s.state ≡ answer r
      → IsBounded limits r
  loose-IsBounded status reason s r w truth budget h =
      rw (result_of-answer c limits digest status reason s.state r h) (record {
        iterations = w.iterations;
        tool_calls = w.tool_calls;
        history = w.history;
        failures = w.failures;
        truthful = truth;
        in_budget = completed_or (s.state.reported_tokens < limits.max_tokens) status budget;
      })

  terminal_audit_quiet :
      (outcome : RuntimeAuditOutcome) (reason : RuntimeTerminalReason) (s : Run W)
      → let s' = (terminal_audit c limits outcome reason s).1 in
        (s'.state ≡ s.state) × (calls s'.world ≤ calls s.world)
  unfolding terminal_audit record_one
  terminal_audit_quiet outcome reason s =
      elim (Bool-cases (is_valid_record (terminal_record s.state outcome reason))) [
        | inl good ↦
            rw (good, if◌then◌else◌)
              (refl, counts.by_record (terminal_record s.state outcome reason) s.world)
        | inr bad ↦ rw (bad, if◌then◌else◌) (refl, omega arith)
      ]

  record_cancelled_quiet :
      (r : RuntimeAuditRecord) (s : Run W)
      → calls (record_cancelled c limits digest r s).1.world ≤ calls s.world
  unfolding record_cancelled
  record_cancelled_quiet r s = elim (Bool-cases (is_valid_record r)) [
    | inl good ↦ rw (good, if◌then◌else◌) (counts.by_cancellation r s.world)
    | inr bad ↦ rw (bad, if◌then◌else◌) (omega arith)
  ]

  after_timeout :
      (f : Flow (Unit {0})) (state : RunState) (r : RuntimeResult)
      → elim f [
        | exit (raised e) ↦ raise e
        | _ ↦
            result_of c limits digest RuntimeTerminalStatus.timed_out
              RuntimeTerminalReason.global_timeout state
      ]
        ≡ answer r
      → result_of c limits digest RuntimeTerminalStatus.timed_out
          RuntimeTerminalReason.global_timeout state
        ≡ answer r
  after_timeout (value _) state r h = h
  after_timeout (exit (returned _ _)) state r h = h
  after_timeout (exit continued) state r h = h
  after_timeout (exit (raised e)) state r h = absurd (cc)

  conclude-IsBounded :
      (e : Exit) (s : Run W) (r : RuntimeResult)
      → Ended c limits calls counts base (exit e, s)
      → (conclude c limits digest e s).0 ≡ answer r
      → IsBounded limits r
  unfolding conclude
  conclude-IsBounded (returned status reason) s r f h =
      loose-IsBounded status reason s r f.loose f.truthful f.in_budget h
  conclude-IsBounded continued s r f h = absurd f
  conclude-IsBounded (raised timeout) s r f h =
      let t =
        terminal_audit c limits RuntimeAuditOutcome.timed_out RuntimeTerminalReason.global_timeout
          s in
      let same =
        (terminal_audit_quiet RuntimeAuditOutcome.timed_out RuntimeTerminalReason.global_timeout
          s).0 in
      loose-IsBounded RuntimeTerminalStatus.timed_out RuntimeTerminalReason.global_timeout s r f
        (unfold accepts in refl) (λ q. absurd (cc)) (rw same at (after_timeout t.0 t.1.state r h))
  conclude-IsBounded (raised cancelled) s r f h = absurd (cc)
  conclude-IsBounded (raised (runtime_error RuntimeErrorCode.audit_failed)) s r f h =
      loose-IsBounded RuntimeTerminalStatus.failed RuntimeTerminalReason.audit_failed s r f
        (unfold accepts in refl) (λ q. absurd (cc)) h
  conclude-IsBounded (raised (runtime_error _)) s r f h = absurd (cc)
  conclude-IsBounded (raised tool_audit_error) s r f h = absurd (cc)
  conclude-IsBounded (raised other) s r f h = absurd (cc)

  conclude-calls :
      (e : Exit) (s : Run W)
      → Ended c limits calls counts base (exit e, s)
      → calls (conclude c limits digest e s).1.world ≤ base + limits.max_tool_calls
  unfolding conclude
  conclude-calls (returned status reason) s f = omega (arith, f.loose.executed, f.loose.tool_calls)
  conclude-calls continued s f = absurd f
  conclude-calls (raised timeout) s f =
      let q =
        terminal_audit_quiet RuntimeAuditOutcome.timed_out RuntimeTerminalReason.global_timeout s in
      omega (arith, f.executed, f.tool_calls, q.1)
  conclude-calls (raised cancelled) s f =
      let r =
        terminal_record s.state RuntimeAuditOutcome.cancelled RuntimeTerminalReason.cancelled in
      let q = record_cancelled_quiet r s in omega (arith, f.executed, f.tool_calls, q)
  conclude-calls (raised (runtime_error RuntimeErrorCode.audit_failed)) s f =
      omega (arith, f.executed, f.tool_calls)
  conclude-calls (raised (runtime_error _)) s f = omega (arith, f.executed, f.tool_calls)
  conclude-calls (raised tool_audit_error) s f = omega (arith, f.executed, f.tool_calls)
  conclude-calls (raised other) s f = omega (arith, f.executed, f.tool_calls)

  -- The exit that the handlers of `run` see.
  abbrev exit_of : Flow (Unit {0}) → Exit
  exit_of (exit e) = e
  exit_of (value _) = continued

  Ended-IsBounded :
      (f : Flow (Unit {0})) (s : Run W) (r : RuntimeResult)
      → Ended c limits calls counts base (f, s)
      → (conclude c limits digest (elim f [ exit e ↦ e | value _ ↦ continued ]) s).0 ≡ answer r
      → IsBounded limits r
  Ended-IsBounded (exit e) s r f h = conclude-IsBounded e s r f h
  Ended-IsBounded (value _) s r f h = absurd f

  Ended-calls :
      (f : Flow (Unit {0})) (s : Run W)
      → Ended c limits calls counts base (f, s)
      → calls (conclude c limits digest (elim f [ exit e ↦ e | value _ ↦ continued ]) s).1.world
        ≤ base + limits.max_tool_calls
  Ended-calls (exit e) s f = conclude-calls e s f
  Ended-calls (value _) s f = absurd f

module _ {W O P R : Type 0} (c : Collaborators W O P R) (limits : RuntimeLimits)
    (digest : Canonical → ℕ) (calls : W → ℕ) (counts : Counts c calls) where
  abbrev start : W → Run W
  start w = record { state = fresh_run; digests = []; world = w }

  execute-Ended :
      (w : W) → Ended c limits calls counts (calls w) (execute c limits digest (start w))
  unfolding execute
  execute-Ended w =
      iterate-Ended c limits calls counts (calls w) digest limits.max_iterations 1 (omega arith)
        (start w)
        (record {
          executed = omega arith;
          tool_calls = omega arith;
          iterations = omega arith;
          history = omega arith;
          failures = omega arith;
        })

  -- A call of `run` that returns a result, returns one whose iterations, tool calls and history
  -- are within the limits, whose failures are at most one more than the larger of their limit and
  -- one, whose reason belongs to its status, and which says completed only with tokens left,
  -- whatever the collaborators do, for a measure of the world that only the tool executor raises,
  -- by one at most.
  pub run-IsBounded :
      (w : W) (r : RuntimeResult) → (run c limits digest true w).0 ≡ answer r → IsBounded limits r
  unfolding run
  run-IsBounded w r h =
      let e = execute c limits digest (start w) in
      Ended-IsBounded c limits digest calls counts (calls w) e.0 e.1 r (execute-Ended w) h

  -- A call of `run` calls the tool executor at most `max_tool_calls` times, however it ends: a
  -- measure of the world that only the tool executor raises, by one at most, is higher by that much
  -- at most.
  pub run_calls_bounded :
      (in_scope : Bool) (w : W)
      → calls (run c limits digest in_scope w).1 ≤ calls w + limits.max_tool_calls
  unfolding run
  run_calls_bounded false w = omega arith
  run_calls_bounded true w =
      let e = execute c limits digest (start w) in
      Ended-calls c limits digest calls counts (calls w) e.0 e.1 (execute-Ended w)
