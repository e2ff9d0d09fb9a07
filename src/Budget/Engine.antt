-- ===== src/Budget/Engine.antt =====
-- `BudgetEngine` of core/budget/engine.py, with the values of core/budget/types.py. Costs, which have
-- eight decimals, and times are numbers of a small unit; identifiers are numbers; reasons are a type.
use synapse_os.Base.{
  ℕ, ◌+◌, Bool, true, false, ◌==◌, ltb, List, [], ◌∷◌, ◌++◌, Option, none, some, if◌then◌else◌,
  filter,
}

pub data BudgetScope : Type 0 where
  project task run agent : BudgetScope

pub data UsageKind : Type 0 where
  llm_request tool_call : UsageKind

pub record UsageRecord : Type 0 where
  pub project_id : ℕ
  pub task_id : Option ℕ
  pub run_id : Option ℕ
  pub agent_id : Option ℕ
  pub kind : UsageKind
  pub input_tokens : Option ℕ
  pub output_tokens : Option ℕ
  pub duration_ms : ℕ
  pub tool_calls : ℕ
  pub cpu_ms : ℕ
  pub gpu_ms : ℕ
  pub provider_cost : Option ℕ

pub record Budget : Type 0 where
  pub scope : BudgetScope
  pub scope_id : ℕ
  pub max_tokens : Option ℕ
  pub max_llm_calls : Option ℕ
  pub max_duration_ms : Option ℕ
  pub max_tool_calls : Option ℕ
  pub max_cpu_ms : Option ℕ
  pub max_gpu_ms : Option ℕ
  pub max_provider_cost : Option ℕ

pub data BudgetReason : Type 0 where
  within_budget tokens_exceeded llm_calls_exceeded duration_exceeded tool_calls_exceeded
        cpu_exceeded gpu_exceeded provider_cost_exceeded :
      BudgetReason

pub data BudgetDecisionOutcome : Type 0 where
  allow stop : BudgetDecisionOutcome

pub record BudgetDecision : Type 0 where
  pub outcome : BudgetDecisionOutcome
  pub scope : Option BudgetScope
  pub reason : BudgetReason
  pub escalation_required : Bool

-- `value or 0`
abbrev pub or_zero : Option ℕ → ℕ
or_zero none = 0
or_zero (some n) = n

abbrev pub total_tokens : UsageRecord → ℕ
total_tokens r = or_zero r.input_tokens + or_zero r.output_tokens

abbrev pub is_id : Option ℕ → ℕ → Bool
is_id none id = false
is_id (some n) id = n == id

abbrev pub identifier : BudgetScope → UsageRecord → Option ℕ
identifier BudgetScope.project r = some r.project_id
identifier BudgetScope.task r = r.task_id
identifier BudgetScope.run r = r.run_id
identifier BudgetScope.agent r = r.agent_id

-- `_matches`
unfoldable pub matches : Budget → UsageRecord → Bool
matches budget r = is_id (identifier budget.scope r) budget.scope_id

-- `sum(... for item in scoped)`
abbrev pub sum_of : (UsageRecord → ℕ) → List UsageRecord → ℕ
sum_of measure [] = 0
sum_of measure (r ∷ rest) = measure r + sum_of measure rest

-- `item.kind is UsageKind.LLM_REQUEST` as a number
abbrev pub count_llm : UsageKind → ℕ
count_llm UsageKind.llm_request = 1
count_llm UsageKind.tool_call = 0

abbrev pub is_exceeded : Option ℕ → ℕ → Bool
is_exceeded none used = false
is_exceeded (some limit) used = ltb limit used

-- A row of `checks`.
pub record Check : Type 0 where
  pub limit : Option ℕ
  pub used : ℕ
  pub reason : BudgetReason

abbrev pub checks : Budget → List UsageRecord → List Check
checks budget scoped =
    record {
      limit = budget.max_tokens;
      used = sum_of total_tokens scoped;
      reason = BudgetReason.tokens_exceeded;
    }
    ∷ record {
      limit = budget.max_llm_calls;
      used = sum_of (λ r. count_llm r.kind) scoped;
      reason = BudgetReason.llm_calls_exceeded;
    }
    ∷ record {
      limit = budget.max_duration_ms;
      used = sum_of (λ r. r.duration_ms) scoped;
      reason = BudgetReason.duration_exceeded;
    }
    ∷ record {
      limit = budget.max_tool_calls;
      used = sum_of (λ r. r.tool_calls) scoped;
      reason = BudgetReason.tool_calls_exceeded;
    }
    ∷ record {
      limit = budget.max_cpu_ms;
      used = sum_of (λ r. r.cpu_ms) scoped;
      reason = BudgetReason.cpu_exceeded;
    }
    ∷ record {
      limit = budget.max_gpu_ms;
      used = sum_of (λ r. r.gpu_ms) scoped;
      reason = BudgetReason.gpu_exceeded;
    }
    ∷ record {
      limit = budget.max_provider_cost;
      used = sum_of (λ r. or_zero r.provider_cost) scoped;
      reason = BudgetReason.provider_cost_exceeded;
    }
    ∷ []

-- The decision for a check that fails.
abbrev pub stop_for : BudgetScope → BudgetReason → BudgetDecision
stop_for scope reason = record {
  outcome = BudgetDecisionOutcome.stop;
  scope = some scope;
  reason = reason;
  escalation_required = true;
}

-- The loop over `checks`.
abbrev pub first_exceeded : BudgetScope → List Check → Option BudgetDecision
first_exceeded scope [] = none
first_exceeded scope (c ∷ rest) =
    let later = first_exceeded scope rest in
    if is_exceeded c.limit c.used then some (stop_for scope c.reason) else later

-- `_evaluate_budget`
unfoldable pub evaluate_budget : Budget → UsageRecord → List UsageRecord → Option BudgetDecision
evaluate_budget budget current history =
    first_exceeded budget.scope (checks budget (filter (matches budget) history ++ current ∷ []))

abbrev pub or_else : Option BudgetDecision → BudgetDecision → BudgetDecision
or_else none later = later
or_else (some decision) later = decision

-- `BudgetEngine.evaluate`, over the budgets of the policy.
unfoldable pub evaluate_usage : List Budget → UsageRecord → List UsageRecord → BudgetDecision
evaluate_usage [] current history = record {
  outcome = BudgetDecisionOutcome.allow;
  scope = none;
  reason = BudgetReason.within_budget;
  escalation_required = false;
}
evaluate_usage (budget ∷ rest) current history =
    let later = evaluate_usage rest current history in
    if matches budget current then or_else (evaluate_budget budget current history) later else later
