-- ===== src/Runtime/Bounds.antt =====
-- The budgets of a run: what holds of its counters and of its end, whatever the collaborators do.
use synapse_os.Base.{
  ℕ, zero, suc, ◌+◌, ◌-◌, ◌≤◌, ◌<◌, max, true, List, [], ◌∷◌, ◌++◌, Option, none, some, String, leb,
  length, length-drop, if◌then◌else◌, ◌≡◌, refl, arith, Bool-cases, inl, inr, ◌≢◌,
}
use synapse_os.Runtime.Types.{
  RuntimeStep, RuntimeAction, RuntimeVerificationOutcome, RuntimeTerminalStatus,
  RuntimeTerminalReason, RuntimeErrorCode, RuntimeAuditOutcome, ToolErrorCode, ToolResultStatus,
  RuntimeLimits, RuntimeDecision, RuntimeVerification, ReasonerOutput, JsonValue, ToolResult,
  RuntimeHistoryEntry, RuntimeAuditRecord, is_valid_record, accepts,
}
use synapse_os.Runtime.Stagnation.{Canonical, canonical, observe_digest}
use synapse_os.Runtime.Machine.{
  runtime_error, Reply, answer, raise, Exit, returned, continued, raised, Flow, value, exit,
  Collaborators, Run, Action, ◌>>◌, leave, await, update, append_entry, count_failure,
  count_tool_call, count_tokens, step_record, terminal_record, record_one, audit_step,
  terminal_audit, ask, reason_step, terminal, terminal_failure, check_tokens, report_failed, finish,
}
use synapse_os.Runtime.Loop.{
  entry, tool_or_invalid, tool_outcome, check_failures, think, thinking_failed, verifying_failed,
  tool_audit_failed, call_tool, act, check_error, check_result, check_stagnation,
  conclude_verification, settle, take_action, iteration, iterate,
}
use synapse_os.Runtime.Triple.{
  Ends, Triple, triple, apply, bind_rule, weaken, catch_rule, catch_tool_rule, update_rule,
  pure_rule, leave_rule,
}

abbrev terminal_outcome : RuntimeTerminalStatus → RuntimeAuditOutcome
terminal_outcome status = elim status [
  | RuntimeTerminalStatus.limit_reached ↦ RuntimeAuditOutcome.limit_reached
  | _ ↦ RuntimeAuditOutcome.escalated
]

-- A count of tool executions in the outside world: only the tool executor raises it, by one at most.
pub record Counts {W O P R : Type 0} (c : Collaborators W O P R) (calls : W → ℕ) : Type 0 where
  pub by_observe : (h : List RuntimeHistoryEntry) (w : W) → calls (c.observe h w).1 ≤ calls w
  pub by_plan : (o : O) (h : List RuntimeHistoryEntry) (w : W) → calls (c.plan o h w).1 ≤ calls w
  pub by_decide :
      (o : O) (p : P) (h : List RuntimeHistoryEntry) (w : W) → calls (c.decide o p h w).1 ≤ calls w
  pub by_verify :
      (d : RuntimeDecision) (t : ToolResult) (h : List RuntimeHistoryEntry) (w : W)
      → calls (c.verify d t h w).1 ≤ calls w
  pub by_report :
      (s : RuntimeTerminalStatus) (r : RuntimeTerminalReason) (h : List RuntimeHistoryEntry) (w : W)
      → calls (c.report s r h w).1 ≤ calls w
  pub by_record : (r : RuntimeAuditRecord) (w : W) → calls (c.record_audit r w).1 ≤ calls w
  pub by_cancellation :
      (r : RuntimeAuditRecord) (w : W) → calls (c.record_cancellation r w).1 ≤ calls w
  pub by_execute : (n : String) (a : JsonValue) (w : W) → calls (c.execute n a w).1 ≤ calls w + 1

module _ {W O P R : Type 0} (c : Collaborators W O P R) (limits : RuntimeLimits) (calls : W → ℕ)
    (counts : Counts c calls) (base : ℕ) where
  -- The counters are within the limits, and `failures` is at most `k`.
  pub record Within (k : ℕ) (s : Run W) : Type 0 where
    pub executed : calls s.world ≤ base + s.state.tool_calls
    pub tool_calls : s.state.tool_calls ≤ limits.max_tool_calls
    pub iterations : s.state.iterations ≤ limits.max_iterations
    pub history : length s.state.history ≤ limits.max_history_entries
    pub failures : s.state.failures ≤ k

  -- Every failure count from which the loop goes on is below this one.
  abbrev pub most_failures : ℕ
  most_failures = max 1 limits.max_failures

  abbrev pub Tight : Run W → Type 0
  Tight = Within (most_failures - 1)

  abbrev pub Loose : Run W → Type 0
  Loose = Within (most_failures + 1)

  -- The end of a run that returns.
  pub record Final (status : RuntimeTerminalStatus) (reason : RuntimeTerminalReason) (s : Run W)
      : Type 0 where
    pub loose : Loose s
    pub truthful : accepts status reason ≡ true
    pub in_budget :
        status ≡ RuntimeTerminalStatus.completed → s.state.reported_tokens < limits.max_tokens

  -- What holds where the body of the loop is left, given what holds where it raises.
  abbrev pub Left : (Run W → Type 0) → Exit → Run W → Type 0
  Left H (returned status reason) s = Final status reason s
  Left H continued s = Tight s
  Left H (raised e) s = H s

  -- A predicate that a call which leaves the counters alone keeps.
  abbrev IsKept : (Run W → Type 0) → Type 0
  IsKept I = (s s' : Run W) → s'.state ≡ s.state → calls s'.world ≤ calls s.world → I s → I s'

  Within-IsKept : (k : ℕ) → IsKept (Within k)
  Within-IsKept k s s' e h w = record {
    executed = rw e (omega (arith, w.executed));
    tool_calls = rw e w.tool_calls;
    iterations = rw e w.iterations;
    history = rw e w.history;
    failures = rw e w.failures;
  }

  Within-mono : (k l : ℕ) → k ≤ l → (s : Run W) → Within k s → Within l s
  Within-mono k l h s w = record {
    executed = w.executed;
    tool_calls = w.tool_calls;
    iterations = w.iterations;
    history = w.history;
    failures = omega (arith, w.failures);
  }

  await-Ends :
      {A : Type 0} (I : Run W → Type 0) (s : Run W) (r : Reply A) (w : W)
      → I (record s { world = w })
      → Ends
          (λ _. I)
          (Left I)
          (elim r [ answer a ↦ value a | raise e ↦ exit (raised e) ], record s { world = w })
  await-Ends I s (answer a) w h = h
  await-Ends I s (raise e) w h = h

  -- An awaited call that executes no tool.
  await_rule :
      {A : Type 0} (I : Run W → Type 0)
      → IsKept I
      → (call : W → Reply A × W) → ((w : W) → calls (call w).1 ≤ calls w)
      → Triple I (await call) (λ _. I) (Left I)
  await_rule I keep call quiet = triple λ s h.
      await-Ends I s (call s.world).0 (call s.world).1
        (keep s (record s { world = (call s.world).1 }) refl (quiet s.world) h)

  -- Writing an audit record.
  record_one-keeps :
      (I : Run W → Type 0)
      → IsKept I
      → (r : RuntimeAuditRecord) → Triple I (record_one c limits r) (λ _. I) (Left I)
  unfolding record_one
  record_one-keeps I keep r = triple λ s h. elim (Bool-cases (is_valid_record r)) [
    | inl good ↦
        rw (good, if◌then◌else◌)
          (apply (await_rule I keep (c.record_audit r) (λ w. counts.by_record r w)) s h)
    | inr bad ↦ rw (bad, if◌then◌else◌) h
  ]

  audit_step-keeps :
      (I : Run W → Type 0)
      → IsKept I
      → (step : RuntimeStep) (outcome : RuntimeAuditOutcome) (d : Option RuntimeDecision)
        (code : Option ToolErrorCode)
      → Triple I (audit_step c limits step outcome d code) (λ _. I) (Left I)
  unfolding audit_step
  audit_step-keeps I keep step outcome d code =
      triple λ s h. apply (record_one-keeps I keep (step_record s.state step outcome d code)) s h

  terminal_audit-keeps :
      (I : Run W → Type 0)
      → IsKept I
      → (outcome : RuntimeAuditOutcome) (reason : RuntimeTerminalReason)
      → Triple I (terminal_audit c limits outcome reason) (λ _. I) (Left I)
  unfolding terminal_audit
  terminal_audit-keeps I keep outcome reason =
      triple λ s h. apply (record_one-keeps I keep (terminal_record s.state outcome reason)) s h

  -- Leaving by a return that is not a completion.
  return-keeps :
      {A : Type 0} (K : A → Run W → Type 0) (H : Run W → Type 0) (k : ℕ)
      → k ≤ most_failures + 1
      → (status : RuntimeTerminalStatus) (reason : RuntimeTerminalReason)
      → accepts status reason ≡ true
      → status ≢ RuntimeTerminalStatus.completed
      → Triple (Within k) (leave (returned status reason)) K (Left H)
  return-keeps K H k small status reason truth ne = triple λ s w. record {
    loose = Within-mono k (most_failures + 1) small s w;
    truthful = truth;
    in_budget = λ e. absurd (ne e);
  }

  -- `_terminal`, for a reason that belongs to its status.
  terminal-keeps :
      {A : Type 0} (K : A → Run W → Type 0) (k : ℕ)
      → k ≤ most_failures + 1
      → (status : RuntimeTerminalStatus) (reason : RuntimeTerminalReason)
      → accepts status reason ≡ true
      → status ≢ RuntimeTerminalStatus.completed
      → Triple (Within k) (terminal c limits {A = A} status reason) K (Left (Within k))
  unfolding terminal
  terminal-keeps K k small status reason truth ne =
      bind_rule (terminal_audit c limits (terminal_outcome status) reason)
        (λ _. leave (returned status reason))
        (terminal_audit-keeps (Within k) (Within-IsKept k) (terminal_outcome status) reason)
        (λ _. return-keeps K (Within k) k small status reason truth ne)

  terminal_failure-keeps :
      {A : Type 0} (K : A → Run W → Type 0) (k : ℕ)
      → k ≤ most_failures + 1
      → (reason : RuntimeTerminalReason) → accepts RuntimeTerminalStatus.failed reason ≡ true
      → Triple (Within k) (terminal_failure c limits {A = A} reason) K (Left (Within k))
  unfolding terminal_failure
  terminal_failure-keeps K k small reason truth =
      bind_rule (terminal_audit c limits RuntimeAuditOutcome.failed reason)
        (λ _. leave (returned RuntimeTerminalStatus.failed reason))
        (terminal_audit-keeps (Within k) (Within-IsKept k) RuntimeAuditOutcome.failed reason)
        (λ _. return-keeps K (Within k) k small RuntimeTerminalStatus.failed reason truth (λ e. cc))

  -- Within the limits, with tokens left.
  record Solvent (k : ℕ) (s : Run W) : Type 0 where
    pub within : Within k s
    pub left : s.state.reported_tokens < limits.max_tokens

  Solvent-IsKept : (k : ℕ) → IsKept (Solvent k)
  Solvent-IsKept k s s' e h w = record {
    within = Within-IsKept k s s' e h w.within;
    left = rw e w.left;
  }

  -- The token check: past it there are tokens left.
  check_tokens-keeps :
      (k : ℕ)
      → k ≤ most_failures + 1
      → Triple (Within k) (check_tokens c limits) (λ _. Solvent k) (Left (Within k))
  unfolding check_tokens
  check_tokens-keeps k small = triple λ s w.
      elim (Bool-cases (leb limits.max_tokens s.state.reported_tokens)) [
        | inl spent ↦
            rw (spent, if◌then◌else◌)
              (apply
                (terminal-keeps (λ _. Solvent k) k small RuntimeTerminalStatus.limit_reached
                  RuntimeTerminalReason.token_budget_reached (unfold accepts in refl) (λ e. cc))
                s w)
        | inr left ↦ rw (left, if◌then◌else◌) (record { within = w; left = ground arith })
      ]

  ask-keeps :
      {A : Type 0} (k : ℕ) (step : RuntimeStep)
      (operation : List RuntimeHistoryEntry → W → Reply (ReasonerOutput A) × W)
      (d : Option RuntimeDecision)
      → ((h : List RuntimeHistoryEntry) (w : W) → calls (operation h w).1 ≤ calls w)
      → Triple (Within k) (ask c limits step operation d) (λ _. Within k) (Left (Within k))
  unfolding ask
  ask-keeps {A} k step operation d quiet = triple λ s w.
      apply
        (catch_rule (await (operation s.state.history))
          (λ code.
            audit_step c limits step RuntimeAuditOutcome.failed d none
            >> leave {A = ReasonerOutput A} (raised (runtime_error code)))
          (await_rule (Within k) (Within-IsKept k) (operation s.state.history)
            (quiet s.state.history))
          (λ code.
            bind_rule _ _
              (audit_step-keeps (Within k) (Within-IsKept k) step RuntimeAuditOutcome.failed d none)
              (λ _. leave_rule (raised (runtime_error code)) (λ s' w'. w')))
          (λ e s' h. h))
        s w

  Within-tokens :
      {A : Type 0} (k : ℕ) (out : ReasonerOutput A) (s : Run W)
      → Within k s
      → Within k (record s { state = count_tokens out s.state })
  Within-tokens k out s w = record {
    executed = w.executed;
    tool_calls = w.tool_calls;
    iterations = w.iterations;
    history = w.history;
    failures = w.failures;
  }

  -- `_reason`: the counters that are bounded stay as they are.
  reason_step-keeps :
      {A : Type 0} (k : ℕ) (step : RuntimeStep)
      (operation : List RuntimeHistoryEntry → W → Reply (ReasonerOutput A) × W)
      (d : Option RuntimeDecision)
      → ((h : List RuntimeHistoryEntry) (w : W) → calls (operation h w).1 ≤ calls w)
      → Triple (Within k) (reason_step c limits step operation d) (λ _. Within k) (Left (Within k))
  unfolding reason_step
  reason_step-keeps k step operation d quiet =
      bind_rule _ _
        (audit_step-keeps (Within k) (Within-IsKept k) step RuntimeAuditOutcome.started d none)
        λ _. bind_rule _ _ (ask-keeps k step operation d quiet) λ output.
          bind_rule _ _ (update_rule (count_tokens output) (λ s w. Within-tokens k output s w)) λ _.
            bind_rule _ _
              (audit_step-keeps (Within k) (Within-IsKept k) step RuntimeAuditOutcome.succeeded d
                none)
              (λ _. pure_rule output.value (λ s w. w))

  -- What a narrower bound leaves holds of the widest one too.
  loosen :
      (k : ℕ)
      → k ≤ most_failures + 1
      → (e : Exit) (s : Run W) → Left (Within k) e s
      → Left Loose e s
  loosen k small (returned status reason) s h = h
  loosen k small continued s h = h
  loosen k small (raised e) s h = Within-mono k (most_failures + 1) small s h

  loose_rule :
      {A : Type 0} {I : Run W → Type 0} {m : Action W A} {K : A → Run W → Type 0} (k : ℕ)
      → k ≤ most_failures + 1
      → Triple I m K (Left (Within k))
      → Triple I m K (Left Loose)
  loose_rule k small t = weaken (λ s h. h) (λ a s h. h) (loosen k small) t

  count_failure-keeps :
      (k : ℕ) {E : Exit → Run W → Type 0}
      → Triple (Within k) (update count_failure) (λ _. Within (k + 1)) E
  count_failure-keeps k = update_rule count_failure λ s w. record {
    executed = w.executed;
    tool_calls = w.tool_calls;
    iterations = w.iterations;
    history = w.history;
    failures = omega (arith, w.failures);
  }

  report_failed-keeps :
      {A : Type 0} (K : A → Run W → Type 0) (k : ℕ)
      → k ≤ most_failures
      → (code : RuntimeErrorCode)
      → Triple (Within k) (report_failed c limits {A = A} code) K (Left Loose)
  unfolding report_failed
  report_failed-keeps K k small RuntimeErrorCode.audit_failed =
      leave_rule (raised (runtime_error RuntimeErrorCode.audit_failed))
        (λ s w. Within-mono k (most_failures + 1) (omega arith) s w)
  report_failed-keeps K k small _ = bind_rule _ _ (count_failure-keeps k) λ _.
      loose_rule (k + 1) (omega arith) (
        terminal_failure-keeps K (k + 1) (omega arith) RuntimeTerminalReason.invalid_llm_output
          (unfold accepts in refl))

  -- `_finish` always leaves the body. A run completes only with tokens left.
  finish-keeps :
      {A : Type 0} (K : A → Run W → Type 0) (k : ℕ)
      → k ≤ most_failures
      → (status : RuntimeTerminalStatus) (reason : RuntimeTerminalReason)
      → accepts status reason ≡ true
      → Triple (Within k) (finish c limits {A = A} status reason) K (Left Loose)
  unfolding finish
  finish-keeps K k small status reason truth =
      bind_rule _ _ (loose_rule k (omega arith) (check_tokens-keeps k (omega arith))) λ _.
        bind_rule _ _
          (weaken (λ s (w : Solvent k s). w.within) (λ a s h. h) (λ e s h. h)
            (catch_rule _ _
              (reason_step-keeps k RuntimeStep.report (c.report status reason) none
                (λ h w. counts.by_report status reason h w))
              (report_failed-keeps (λ _. Within k) k small) (loosen k (omega arith))))
          λ _. bind_rule _ _ (loose_rule k (omega arith) (check_tokens-keeps k (omega arith))) λ _.
            bind_rule _ _
              (weaken (λ s h. h) (λ a s h. h) solvent-loosen
                (terminal_audit-keeps (Solvent k) (Solvent-IsKept k) RuntimeAuditOutcome.succeeded
                  reason))
              λ _. leave_rule (returned status reason) λ s (w : Solvent k s). record {
                loose = Within-mono k (most_failures + 1) (omega arith) s w.within;
                truthful = truth;
                in_budget = λ _. w.left;
              }
    where
      solvent-loosen : (e : Exit) (s : Run W) → Left (Solvent k) e s → Left Loose e s
      solvent-loosen (returned st r) s h = h
      solvent-loosen continued s h = h
      solvent-loosen (raised e) s h = Within-mono k (most_failures + 1) (omega arith) s h.within

  append_entry-keeps :
      (k : ℕ) (e : RuntimeHistoryEntry) {E : Exit → Run W → Type 0}
      → Triple (Within k) (update (append_entry limits.max_history_entries e)) (λ _. Within k) E
  unfolding append_entry
  append_entry-keeps k e = update_rule (append_entry limits.max_history_entries e) λ s w. record {
    executed = w.executed;
    tool_calls = w.tool_calls;
    iterations = w.iterations;
    history =
        let entries = s.state.history ++ e ∷ [] in
        rw (length-drop (length entries - limits.max_history_entries) entries) (omega arith);
    failures = w.failures;
  }

  -- The failure check: past it the count is below the limit again.
  check_failures-keeps :
      (digest : Canonical → ℕ)
      → Triple (Within most_failures) (check_failures c limits digest) (λ _. Tight) (Left Loose)
  unfolding check_failures
  check_failures-keeps digest = triple λ s w.
      elim (Bool-cases (leb limits.max_failures s.state.failures)) [
        | inl many ↦
            rw (many, if◌then◌else◌)
              (apply
                (finish-keeps (λ _. Tight) most_failures (omega arith) RuntimeTerminalStatus.failed
                  RuntimeTerminalReason.max_failures_reached (unfold accepts in refl))
                s w)
        | inr few ↦
            let below : s.state.failures < limits.max_failures = ground arith in
            rw (few, if◌then◌else◌)
              (record {
                executed = w.executed;
                tool_calls = w.tool_calls;
                iterations = w.iterations;
                history = w.history;
                failures = omega arith;
              })
      ]

  -- A reasoning step with the token check behind it.
  think-keeps :
      (digest : Canonical → ℕ) → Triple Tight (think c limits digest) (λ _. Tight) (Left Tight)
  unfolding think
  think-keeps digest =
      bind_rule _ _
        (reason_step-keeps (most_failures - 1) RuntimeStep.observe c.observe none
          (λ h w. counts.by_observe h w))
        λ o. bind_rule _ _ checked λ _.
          bind_rule _ _
            (reason_step-keeps (most_failures - 1) RuntimeStep.plan (c.plan o) none
              (λ h w. counts.by_plan o h w))
            λ p. bind_rule _ _ checked λ _.
              bind_rule _ _
                (reason_step-keeps (most_failures - 1) RuntimeStep.decide (c.decide o p) none
                  (λ h w. counts.by_decide o p h w))
                λ d. bind_rule _ _ checked (λ _. pure_rule d (λ s w. w))
    where
      checked : Triple Tight (check_tokens c limits) (λ _. Tight) (Left Tight)
      checked =
          weaken (λ s h. h) (λ a s (w : Solvent (most_failures - 1) s). w.within) (λ e s h. h)
            (check_tokens-keeps (most_failures - 1) (omega arith))

  -- A failure from which the next iteration begins, unless there are too many.
  failed-keeps :
      {A : Type 0} (digest : Canonical → ℕ) (K : A → Run W → Type 0)
      → Triple
          (Within most_failures)
          (check_failures c limits digest >> leave {A = A} continued)
          K
          (Left Loose)
  failed-keeps digest K =
      bind_rule _ _ (check_failures-keeps digest) (λ _. leave_rule continued (λ s w. w))

  counted :
      {E : Exit → Run W → Type 0}
      → Triple Tight (update count_failure) (λ _. Within most_failures) E
  counted =
      weaken (λ s h. h) (λ a s. Within-mono (most_failures - 1 + 1) most_failures (omega arith) s)
        (λ e s h. h) (count_failure-keeps (most_failures - 1))

  thinking_failed-keeps :
      {A : Type 0} (digest : Canonical → ℕ) (K : A → Run W → Type 0) (i : ℕ)
      (code : RuntimeErrorCode)
      → Triple Tight (thinking_failed c limits digest {A = A} i code) K (Left Loose)
  unfolding thinking_failed
  thinking_failed-keeps digest K i RuntimeErrorCode.audit_failed =
      leave_rule (raised (runtime_error RuntimeErrorCode.audit_failed))
        (λ s w. Within-mono (most_failures - 1) (most_failures + 1) (omega arith) s w)
  thinking_failed-keeps digest K i _ = bind_rule _ _ counted λ _.
      bind_rule _ _ (append_entry-keeps most_failures (entry i RuntimeStep.decide none none))
        (λ _. failed-keeps digest K)

  verifying_failed-keeps :
      {A : Type 0} (digest : Canonical → ℕ) (K : A → Run W → Type 0) (code : RuntimeErrorCode)
      → Triple Tight (verifying_failed c limits digest {A = A} code) K (Left Loose)
  unfolding verifying_failed
  verifying_failed-keeps digest K RuntimeErrorCode.audit_failed =
      leave_rule (raised (runtime_error RuntimeErrorCode.audit_failed))
        (λ s w. Within-mono (most_failures - 1) (most_failures + 1) (omega arith) s w)
  verifying_failed-keeps digest K _ = bind_rule _ _ counted (λ _. failed-keeps digest K)

  -- Within the limits, with a tool call left.
  record Room (s : Run W) : Type 0 where
    pub tight : Tight s
    pub left : s.state.tool_calls < limits.max_tool_calls

  Room-IsKept : IsKept Room
  Room-IsKept s s' e h r = record {
    tight = Within-IsKept (most_failures - 1) s s' e h r.tight;
    left = rw e r.left;
  }

  -- A tool call is counted that has not been made yet.
  record Counted (s : Run W) : Type 0 where
    pub tight : Tight s
    pub unspent : calls s.world + 1 ≤ base + s.state.tool_calls

  count_tool_call-keeps :
      {E : Exit → Run W → Type 0} → Triple Room (update count_tool_call) (λ _. Counted) E
  count_tool_call-keeps = update_rule count_tool_call λ s r. record {
    tight = record {
      executed = omega (arith, r.tight.executed);
      tool_calls = omega (arith, r.left);
      iterations = r.tight.iterations;
      history = r.tight.history;
      failures = r.tight.failures;
    };
    unspent = omega (arith, r.tight.executed);
  }

  execute-keeps :
      (n : String) (a : JsonValue)
      → Triple Counted (await (c.execute n a)) (λ _. Tight) (Left Tight)
  execute-keeps n a = triple λ s w.
      await-Ends Tight s (c.execute n a s.world).0 (c.execute n a s.world).1 (record {
        executed = omega (arith, w.unspent, counts.by_execute n a s.world);
        tool_calls = w.tight.tool_calls;
        iterations = w.tight.iterations;
        history = w.tight.history;
        failures = w.tight.failures;
      })

  audited :
      (step : RuntimeStep) (outcome : RuntimeAuditOutcome) (d : RuntimeDecision)
      (code : Option ToolErrorCode)
      → Triple Tight (audit_step c limits step outcome (some d) code) (λ _. Tight) (Left Tight)
  audited step outcome d code =
      audit_step-keeps Tight (Within-IsKept (most_failures - 1)) step outcome (some d) code

  tool_audit_failed-keeps :
      {A : Type 0} (digest : Canonical → ℕ) (K : A → Run W → Type 0) (d : RuntimeDecision)
      → Triple Tight (tool_audit_failed c limits digest {A = A} d) K (Left Tight)
  unfolding tool_audit_failed
  tool_audit_failed-keeps digest K d =
      bind_rule _ _
        (audited RuntimeStep.act RuntimeAuditOutcome.failed d (some ToolErrorCode.audit_failed))
        λ _.
          bind_rule _ _ (audited RuntimeStep.observe_result RuntimeAuditOutcome.started d none) λ _.
            bind_rule _ _
              (audited RuntimeStep.observe_result RuntimeAuditOutcome.failed d
                (some ToolErrorCode.audit_failed))
              λ _.
                terminal_failure-keeps K (most_failures - 1) (omega arith)
                  RuntimeTerminalReason.audit_failed (unfold accepts in refl)

  call_tool-keeps :
      (digest : Canonical → ℕ) (d : RuntimeDecision)
      → Triple Room (call_tool c limits digest d) (λ _. Tight) (Left Tight)
  unfolding call_tool
  call_tool-keeps digest d =
      bind_rule _ _
        (weaken (λ s h. h) (λ a s h. h) room-tight
          (audit_step-keeps Room Room-IsKept RuntimeStep.act RuntimeAuditOutcome.started (some d)
            none))
        λ _. bind_rule _ _ count_tool_call-keeps λ _.
          bind_rule _ _
            (catch_tool_rule _ _ (execute-keeps (tool_or_invalid d.tool_name) d.arguments)
              (tool_audit_failed-keeps digest (λ _. Tight) d))
            λ t. bind_rule _ _ (audited RuntimeStep.act (tool_outcome t.status) d t.error_code) λ _.
              bind_rule _ _ (audited RuntimeStep.observe_result RuntimeAuditOutcome.started d none)
                λ _.
                  bind_rule _ _
                    (audited RuntimeStep.observe_result (tool_outcome t.status) d t.error_code)
                    (λ _. pure_rule t (λ s w. w))
    where
      room-tight : (e : Exit) (s : Run W) → Left Room e s → Left Tight e s
      room-tight (returned st r) s h = h
      room-tight continued s h = h
      room-tight (raised e) s h = h.tight

  act-keeps :
      (digest : Canonical → ℕ) (d : RuntimeDecision)
      → Triple Tight (act c limits digest d) (λ _. Tight) (Left Tight)
  unfolding act
  act-keeps digest d = triple λ s w.
      elim (Bool-cases (leb limits.max_tool_calls s.state.tool_calls)) [
        | inl spent ↦
            rw (spent, if◌then◌else◌)
              (apply
                (terminal-keeps (λ _. Tight) (most_failures - 1) (omega arith)
                  RuntimeTerminalStatus.limit_reached RuntimeTerminalReason.max_tool_calls_reached
                  (unfold accepts in refl) (λ e. cc))
                s w)
        | inr left ↦
            rw (left, if◌then◌else◌)
              (apply (call_tool-keeps digest d) s (record { tight = w; left = ground arith }))
      ]

  tightened :
      {A : Type 0} {I : Run W → Type 0} {m : Action W A} {K : A → Run W → Type 0}
      → Triple I m K (Left Tight)
      → Triple I m K (Left Loose)
  tightened t = loose_rule (most_failures - 1) (omega arith) t

  finished :
      (status : RuntimeTerminalStatus) (reason : RuntimeTerminalReason)
      → accepts status reason ≡ true
      → Triple Tight (finish c limits {A = Unit {0}} status reason) (λ _. Tight) (Left Loose)
  finished status reason truth =
      finish-keeps (λ _. Tight) (most_failures - 1) (omega arith) status reason truth

  failed_result-keeps :
      (digest : Canonical → ℕ)
      → Triple Tight
          (update count_failure >> check_failures c limits digest)
          (λ _. Tight)
          (Left Loose)
  failed_result-keeps digest = bind_rule _ _ counted (λ _. check_failures-keeps digest)

  check_error-keeps :
      (digest : Canonical → ℕ) (code : Option ToolErrorCode)
      → Triple Tight (check_error c limits digest code) (λ _. Tight) (Left Loose)
  unfolding check_error
  check_error-keeps digest (some ToolErrorCode.permission_denied) =
      finished RuntimeTerminalStatus.escalated RuntimeTerminalReason.permission_denied
        (unfold accepts in refl)
  check_error-keeps digest (some ToolErrorCode.approval_required) =
      finished RuntimeTerminalStatus.escalated RuntimeTerminalReason.human_approval_required
        (unfold accepts in refl)
  check_error-keeps digest none = failed_result-keeps digest
  check_error-keeps digest (some _) = failed_result-keeps digest

  check_result-keeps :
      (digest : Canonical → ℕ) (status : ToolResultStatus) (code : Option ToolErrorCode)
      → Triple Tight (check_result c limits digest status code) (λ _. Tight) (Left Loose)
  unfolding check_result
  check_result-keeps digest ToolResultStatus.succeeded code = pure_rule tt (λ s w. w)
  check_result-keeps digest _ code = check_error-keeps digest code

  check_stagnation-keeps :
      (digest : Canonical → ℕ) (d : RuntimeDecision) (v : RuntimeVerification)
      (code : Option ToolErrorCode)
      → Triple Tight (check_stagnation c limits digest d v code) (λ _. Tight) (Left Loose)
  unfolding check_stagnation
  check_stagnation-keeps digest d v code = triple λ s w.
      let seen =
        observe_digest limits.stagnation_window (digest (canonical d (some v) code)) s.digests in
      let w' : Tight (record s { digests = seen.0 }) = record {
        executed = w.executed;
        tool_calls = w.tool_calls;
        iterations = w.iterations;
        history = w.history;
        failures = w.failures;
      } in
      elim (Bool-cases seen.1) [
        | inl stuck ↦
            rw (stuck, if◌then◌else◌)
              (apply
                (finished RuntimeTerminalStatus.escalated RuntimeTerminalReason.stagnation_detected
                  (unfold accepts in refl))
                (record s { digests = seen.0 }) w')
        | inr moving ↦ rw (moving, if◌then◌else◌) w'
      ]

  conclude_verification-keeps :
      (digest : Canonical → ℕ) (d : RuntimeDecision) (code : Option ToolErrorCode)
      (v : RuntimeVerification) (o : RuntimeVerificationOutcome)
      → Triple Tight (conclude_verification c limits digest d code v o) (λ _. Tight) (Left Loose)
  unfolding conclude_verification
  conclude_verification-keeps digest d code v RuntimeVerificationOutcome.complete =
      finished RuntimeTerminalStatus.completed RuntimeTerminalReason.task_completed
        (unfold accepts in refl)
  conclude_verification-keeps digest d code v RuntimeVerificationOutcome.escalate =
      finished RuntimeTerminalStatus.escalated RuntimeTerminalReason.agent_escalated
        (unfold accepts in refl)
  conclude_verification-keeps digest d code v RuntimeVerificationOutcome.continue =
      check_stagnation-keeps digest d v code

  settle-keeps :
      (digest : Canonical → ℕ) (i : ℕ) (d : RuntimeDecision) (t : ToolResult)
      → Triple Tight (settle c limits digest i d t) (λ _. Tight) (Left Loose)
  unfolding settle
  settle-keeps digest i d t =
      bind_rule _ _
        (catch_rule _ _
          (reason_step-keeps (most_failures - 1) RuntimeStep.verify (c.verify d t) (some d)
            (λ h w. counts.by_verify d t h w))
          (verifying_failed-keeps digest (λ _. Tight)) (loosen (most_failures - 1) (omega arith)))
        λ v.
          bind_rule _ _
            (weaken (λ s h. h) (λ a s (w : Solvent (most_failures - 1) s). w.within)
              (loosen (most_failures - 1) (omega arith))
              (check_tokens-keeps (most_failures - 1) (omega arith)))
            λ _.
              bind_rule _ _
                (append_entry-keeps (most_failures - 1)
                  (entry i RuntimeStep.verify (some d) t.error_code))
                λ _. conclude_verification-keeps digest d t.error_code v v.outcome

  take_action-keeps :
      (digest : Canonical → ℕ) (i : ℕ) (d : RuntimeDecision) (a : RuntimeAction)
      → Triple Tight (take_action c limits digest i d a) (λ _. Tight) (Left Loose)
  unfolding take_action
  take_action-keeps digest i d RuntimeAction.complete =
      finished RuntimeTerminalStatus.completed RuntimeTerminalReason.task_completed
        (unfold accepts in refl)
  take_action-keeps digest i d RuntimeAction.escalate =
      finished RuntimeTerminalStatus.escalated RuntimeTerminalReason.agent_escalated
        (unfold accepts in refl)
  take_action-keeps digest i d RuntimeAction.tool_call =
      bind_rule _ _ (tightened (act-keeps digest d)) λ t.
        bind_rule _ _ (check_result-keeps digest t.status t.error_code)
          (λ _. settle-keeps digest i d t)

  iteration-keeps :
      (digest : Canonical → ℕ) (i : ℕ)
      → i ≤ limits.max_iterations
      → Triple Tight (iteration c limits digest i) (λ _. Tight) (Left Loose)
  unfolding iteration
  iteration-keeps digest i small =
      bind_rule _ _ (update_rule (λ r. record r { iterations = i }) numbered) λ _.
        bind_rule _ _
          (catch_rule _ _ (think-keeps digest) (thinking_failed-keeps digest (λ _. Tight) i)
            (loosen (most_failures - 1) (omega arith)))
          λ d.
            bind_rule _ _
              (append_entry-keeps (most_failures - 1) (entry i RuntimeStep.decide (some d) none))
              (λ _. take_action-keeps digest i d d.action)
    where
      numbered :
          (s : Run W) → Tight s → Tight (record s { state = record s.state { iterations = i } })
      numbered s w = record {
        executed = w.executed;
        tool_calls = w.tool_calls;
        iterations = small;
        history = w.history;
        failures = w.failures;
      }

  -- How the loop ends: it never falls out of its last round.
  abbrev pub Ended : Flow (Unit {0}) × Run W → Type 0
  Ended (value _, s) = ⊥
  Ended (exit (returned status reason), s) = Final status reason s
  Ended (exit continued, s) = ⊥
  Ended (exit (raised e), s) = Loose s

  out_of_rounds :
      (r : Flow (Unit {0})) (s : Run W)
      → Ends (λ _ _. ⊥) (Left Loose) (r, s)
      → r ≢ exit continued
      → Ended (r, s)
  out_of_rounds (value _) s h l = h
  out_of_rounds (exit (returned status reason)) s h l = h
  out_of_rounds (exit continued) s h l = absurd (l refl)
  out_of_rounds (exit (raised e)) s h l = h

  terminal-ne-continued :
      (status : RuntimeTerminalStatus) (reason : RuntimeTerminalReason) (s : Run W)
      → (terminal c limits {A = Unit {0}} status reason s).0 ≢ exit continued
  unfolding terminal terminal_audit record_one
  terminal-ne-continued status reason s h = ground arith

  next_round :
      (again : Run W → Flow (Unit {0}) × Run W)
      → ((s : Run W) → Tight s → Ended (again s))
      → (r : Flow (Unit {0})) (s : Run W) → Ends (λ _. Tight) (Left Loose) (r, s)
      → Ended (elim r [ value _ ↦ again s | exit continued ↦ again s | exit e ↦ (exit e, s) ])
  next_round again h (value _) s w = h s w
  next_round again h (exit (returned status reason)) s w = w
  next_round again h (exit continued) s w = h s w
  next_round again h (exit (raised e)) s w = w

  pub iterate-Ended :
      (digest : Canonical → ℕ) (rounds i : ℕ)
      → i + rounds ≤ limits.max_iterations + 1
      → (s : Run W) → Tight s
      → Ended (iterate c limits digest rounds i s)
  unfolding iterate
  iterate-Ended digest zero i small s w =
      let t =
        terminal c limits {A = Unit {0}} RuntimeTerminalStatus.limit_reached
          RuntimeTerminalReason.max_iterations_reached s in
      out_of_rounds t.0 t.1
        (apply
          (tightened (
            terminal-keeps (λ _ _. ⊥) (most_failures - 1) (omega arith)
              RuntimeTerminalStatus.limit_reached RuntimeTerminalReason.max_iterations_reached
              (unfold accepts in refl) (λ e. cc)))
          s w)
        (terminal-ne-continued RuntimeTerminalStatus.limit_reached
          RuntimeTerminalReason.max_iterations_reached s)
  iterate-Ended digest (suc rounds) i small s w =
      next_round (iterate c limits digest rounds (suc i))
        (iterate-Ended digest rounds (suc i) (omega arith)) (iteration c limits digest i s).0
        (iteration c limits digest i s).1 (apply (iteration-keeps digest i (omega arith)) s w)
