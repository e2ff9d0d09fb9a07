-- ===== src/Budget/Examples.antt =====
-- A project with a ceiling on tokens and one of its tasks with a ceiling on calls.
use synapse_os.Base.{ℕ, List, [], ◌∷◌, Option, none, some, true, ◌≡◌, ◌↔◌, refl}
use synapse_os.Budget.Engine.{
  BudgetScope, UsageKind, UsageRecord, Budget, BudgetDecisionOutcome, BudgetReason, evaluate_usage,
  evaluate_budget, matches,
}
use synapse_os.Budget.Ceilings.{
  IsAffordable, evaluate_usage_iff, IsGated, unused, used, AreKept, IsGated-AreKept,
}

abbrev call : ℕ → UsageRecord
call tokens = record {
  project_id = 1;
  task_id = some 10;
  run_id = none;
  agent_id = some 5;
  kind = UsageKind.llm_request;
  input_tokens = some tokens;
  output_tokens = none;
  duration_ms = 3;
  tool_calls = 0;
  cpu_ms = 1;
  gpu_ms = 0;
  provider_cost = none;
}

abbrev ceiling : BudgetScope → ℕ → Option ℕ → Option ℕ → Budget
ceiling scope id tokens calls = record {
  scope = scope;
  scope_id = id;
  max_tokens = tokens;
  max_llm_calls = calls;
  max_duration_ms = none;
  max_tool_calls = none;
  max_cpu_ms = none;
  max_gpu_ms = none;
  max_provider_cost = none;
}

abbrev budgets : List Budget
budgets =
    ceiling BudgetScope.project 1 (some 100) none ∷ ceiling BudgetScope.task 10 none (some 2) ∷ []

third_call_stops : evaluate_usage budgets (call 1) (call 40 ∷ call 50 ∷ []) ≡ record {
  outcome = BudgetDecisionOutcome.stop;
  scope = some BudgetScope.task;
  reason = BudgetReason.llm_calls_exceeded;
  escalation_required = true;
}
unfolding evaluate_usage evaluate_budget matches
third_call_stops = refl

first_allowed : (evaluate_usage budgets (call 40) []).outcome ≡ BudgetDecisionOutcome.allow
unfolding evaluate_usage evaluate_budget matches
first_allowed = refl

second_allowed :
    (evaluate_usage budgets (call 60) (call 40 ∷ [])).outcome ≡ BudgetDecisionOutcome.allow
unfolding evaluate_usage evaluate_budget matches
second_allowed = refl

evaluate_usage_iff_example :
    ((evaluate_usage budgets (call 60) (call 40 ∷ [])).outcome ≡ BudgetDecisionOutcome.allow)
    ↔ IsAffordable budgets (call 60) (call 40 ∷ [])
evaluate_usage_iff_example = evaluate_usage_iff budgets (call 60) (call 40 ∷ [])

two_calls : IsGated budgets (call 40 ∷ call 60 ∷ [])
two_calls = used (call 40 ∷ []) (call 60) (used [] (call 40) unused first_allowed) second_allowed

IsGated-AreKept_example : AreKept budgets (call 40 ∷ call 60 ∷ [])
IsGated-AreKept_example = IsGated-AreKept budgets (call 40 ∷ call 60 ∷ []) two_calls
