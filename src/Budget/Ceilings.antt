-- ===== src/Budget/Ceilings.antt =====
-- What a decision of `BudgetEngine` of core/budget/engine.py says of the ceilings.
use synapse_os.Base.{
  ℕ, ◌≤◌, Bool, true, false, List, [], ◌∷◌, ◌++◌, Option, none, some, if◌then◌else◌, filter, All,
  append_nil, Bool-cases, Option-cases, inl, inr, ◌≡◌, refl, sym, ap, subst, ◌∙◌, ◌↔◌, arith,
}
use synapse_os.Budget.Engine.{
  BudgetScope, UsageRecord, Budget, BudgetDecisionOutcome, BudgetDecision, Check, or_zero,
  total_tokens, matches, sum_of, count_llm, is_exceeded, checks, first_exceeded, stop_for,
  evaluate_budget, evaluate_usage,
}

-- The use is at most the ceiling, if there is one.
abbrev pub IsUnder : Option ℕ → ℕ → Type 0
IsUnder none used = Unit
IsUnder (some limit) used = used ≤ limit

-- The uses of the records are at most the budget's ceilings.
pub record IsKept (budget : Budget) (uses : List UsageRecord) : Type 0 where
  pub tokens : IsUnder budget.max_tokens (sum_of total_tokens uses)
  pub llm_calls : IsUnder budget.max_llm_calls (sum_of (λ r. count_llm r.kind) uses)
  pub duration : IsUnder budget.max_duration_ms (sum_of (λ r. r.duration_ms) uses)
  pub tool_calls : IsUnder budget.max_tool_calls (sum_of (λ r. r.tool_calls) uses)
  pub cpu : IsUnder budget.max_cpu_ms (sum_of (λ r. r.cpu_ms) uses)
  pub gpu : IsUnder budget.max_gpu_ms (sum_of (λ r. r.gpu_ms) uses)
  pub provider_cost : IsUnder budget.max_provider_cost (sum_of (λ r. or_zero r.provider_cost) uses)

exceeded-IsUnder :
    (limit : Option ℕ) (used : ℕ) → is_exceeded limit used ≡ false → IsUnder limit used
exceeded-IsUnder none used h = tt
exceeded-IsUnder (some limit) used h = ground arith

IsUnder-exceeded :
    (limit : Option ℕ) (used : ℕ) → IsUnder limit used → is_exceeded limit used ≡ false
IsUnder-exceeded none used h = refl
IsUnder-exceeded (some limit) used h = ground arith

abbrev IsPassed : Check → Type 0
IsPassed c = IsUnder c.limit c.used

-- No check fails, or the first that fails tells the decision.
exceeded-IsPassed :
    (scope : BudgetScope) (cs : List Check) → first_exceeded scope cs ≡ none → All IsPassed cs
exceeded-IsPassed scope [] h = tt
exceeded-IsPassed scope (c ∷ rest) h = elim (Bool-cases (is_exceeded c.limit c.used)) [
  | inl e ↦ absurd (ground arith)
  | inr e ↦ (exceeded-IsUnder c.limit c.used e, exceeded-IsPassed scope rest (ground arith))
]

IsPassed-exceeded :
    (scope : BudgetScope) (cs : List Check) → All IsPassed cs → first_exceeded scope cs ≡ none
IsPassed-exceeded scope [] h = refl
IsPassed-exceeded scope (c ∷ rest) h =
    let e = IsUnder-exceeded c.limit c.used h.0 in
    let later = IsPassed-exceeded scope rest h.1 in rw (e, if◌then◌else◌) later

exceeded-stops :
    (scope : BudgetScope) (cs : List Check) (d : BudgetDecision)
    → first_exceeded scope cs ≡ some d
    → d.outcome ≡ BudgetDecisionOutcome.stop
exceeded-stops scope [] d h = absurd (cc)
exceeded-stops scope (c ∷ rest) d h = elim (Bool-cases (is_exceeded c.limit c.used)) [
  | inl e ↦
      let p : stop_for scope c.reason ≡ d = ground arith in
      sym (ap (λ (x : BudgetDecision). x.outcome) p)
  | inr e ↦ exceeded-stops scope rest d (ground arith)
]

checks-IsKept :
    (budget : Budget) (uses : List UsageRecord)
    → All IsPassed (checks budget uses)
    → IsKept budget uses
checks-IsKept budget uses (a, (b, (c, (d, (e, (f, (g, u))))))) = record {
  tokens = a;
  llm_calls = b;
  duration = c;
  tool_calls = d;
  cpu = e;
  gpu = f;
  provider_cost = g;
}

IsKept-checks :
    (budget : Budget) (uses : List UsageRecord)
    → IsKept budget uses
    → All IsPassed (checks budget uses)
IsKept-checks budget uses k =
    (k.tokens, (k.llm_calls, (k.duration, (k.tool_calls, (k.cpu, (k.gpu, (k.provider_cost, tt)))))))

-- Each budget that the record falls under is kept by the uses of its scope and the record.
abbrev pub IsAffordable : List Budget → UsageRecord → List UsageRecord → Type 0
IsAffordable budgets current history =
    All
      (λ (b : Budget).
        matches b current ≡ true → IsKept b (filter (matches b) history ++ current ∷ []))
      budgets

evaluate_budget-IsKept :
    (b : Budget) (current : UsageRecord) (history : List UsageRecord)
    → evaluate_budget b current history ≡ none
    → IsKept b (filter (matches b) history ++ current ∷ [])
unfolding evaluate_budget
evaluate_budget-IsKept b current history h =
    checks-IsKept b _ (exceeded-IsPassed b.scope (checks b _) h)

IsKept-evaluate_budget :
    (b : Budget) (current : UsageRecord) (history : List UsageRecord)
    → IsKept b (filter (matches b) history ++ current ∷ [])
    → evaluate_budget b current history ≡ none
unfolding evaluate_budget
IsKept-evaluate_budget b current history k =
    IsPassed-exceeded b.scope (checks b _) (IsKept-checks b _ k)

evaluate_budget-stops :
    (b : Budget) (current : UsageRecord) (history : List UsageRecord) (d : BudgetDecision)
    → evaluate_budget b current history ≡ some d
    → d.outcome ≡ BudgetDecisionOutcome.stop
unfolding evaluate_budget
evaluate_budget-stops b current history d h = exceeded-stops b.scope (checks b _) d h

pub evaluate_usage-IsAffordable :
    (budgets : List Budget) (current : UsageRecord) (history : List UsageRecord)
    → (evaluate_usage budgets current history).outcome ≡ BudgetDecisionOutcome.allow
    → IsAffordable budgets current history
unfolding evaluate_usage
evaluate_usage-IsAffordable [] current history h = tt
evaluate_usage-IsAffordable (b ∷ rest) current history h = elim (Bool-cases (matches b current)) [
  | inr e ↦
      let q : evaluate_usage (b ∷ rest) current history ≡ evaluate_usage rest current history =
        rw (e, if◌then◌else◌) refl in
      let ok = sym (ap (λ (x : BudgetDecision). x.outcome) q) ∙ h in
      (λ m. absurd (cc), evaluate_usage-IsAffordable rest current history ok)
  | inl e ↦ elim (Option-cases (evaluate_budget b current history)) [
    | inl p ↦
        let q : evaluate_usage (b ∷ rest) current history ≡ evaluate_usage rest current history =
          rw (e, p, if◌then◌else◌) refl in
        let ok = sym (ap (λ (x : BudgetDecision). x.outcome) q) ∙ h in
        (
          λ m. evaluate_budget-IsKept b current history p,
          evaluate_usage-IsAffordable rest current history ok,
        )
    | inr (d, p) ↦
        let q : evaluate_usage (b ∷ rest) current history ≡ d = rw (e, p, if◌then◌else◌) refl in
        let allowed = sym (ap (λ (x : BudgetDecision). x.outcome) q) ∙ h in
        let stopped = evaluate_budget-stops b current history d p in absurd (cc)
  ]
]

pub IsAffordable-evaluate_usage :
    (budgets : List Budget) (current : UsageRecord) (history : List UsageRecord)
    → IsAffordable budgets current history
    → (evaluate_usage budgets current history).outcome ≡ BudgetDecisionOutcome.allow
unfolding evaluate_usage
IsAffordable-evaluate_usage [] current history h = refl
IsAffordable-evaluate_usage (b ∷ rest) current history h =
    let later = IsAffordable-evaluate_usage rest current history h.1 in
    elim (Bool-cases (matches b current)) [
      | inr e ↦ rw (e, if◌then◌else◌) later
      | inl e ↦
          let p = IsKept-evaluate_budget b current history (h.0 e) in rw (e, p, if◌then◌else◌) later
    ]

-- The gate allows a record exactly if, for each budget that the record falls under, the recorded
-- uses in the budget's scope and the record itself are at most each of the budget's ceilings.
pub evaluate_usage_iff :
    (budgets : List Budget) (current : UsageRecord) (history : List UsageRecord)
    → ((evaluate_usage budgets current history).outcome ≡ BudgetDecisionOutcome.allow)
      ↔ IsAffordable budgets current history
evaluate_usage_iff budgets current history = (
  evaluate_usage-IsAffordable budgets current history,
  IsAffordable-evaluate_usage budgets current history,
)

-- A history of records that the gate allowed one after the other.
pub data IsGated (budgets : List Budget) : List UsageRecord → Type 0 where
  unused : IsGated budgets []
  used :
      (history : List UsageRecord) (r : UsageRecord)
      → IsGated budgets history
      → (evaluate_usage budgets r history).outcome ≡ BudgetDecisionOutcome.allow
      → IsGated budgets (history ++ r ∷ [])

filter_snoc :
    (p : UsageRecord → Bool) (xs : List UsageRecord) (r : UsageRecord)
    → filter p (xs ++ r ∷ []) ≡ filter p xs ++ filter p (r ∷ [])
filter_snoc p [] r = refl
filter_snoc p (x ∷ xs) r = elim (Bool-cases (p x)) [
  | inl e ↦ rw (e, if◌then◌else◌) (ap (λ l. x ∷ l) (filter_snoc p xs r))
  | inr e ↦ rw (e, if◌then◌else◌) (filter_snoc p xs r)
]

nothing-IsUnder : (limit : Option ℕ) → IsUnder limit 0
nothing-IsUnder none = tt
nothing-IsUnder (some limit) = omega arith

nothing-IsKept : (b : Budget) → IsKept b []
nothing-IsKept b = record {
  tokens = nothing-IsUnder b.max_tokens;
  llm_calls = nothing-IsUnder b.max_llm_calls;
  duration = nothing-IsUnder b.max_duration_ms;
  tool_calls = nothing-IsUnder b.max_tool_calls;
  cpu = nothing-IsUnder b.max_cpu_ms;
  gpu = nothing-IsUnder b.max_gpu_ms;
  provider_cost = nothing-IsUnder b.max_provider_cost;
}

-- Each budget is kept by the uses of its scope.
abbrev pub AreKept : List Budget → List UsageRecord → Type 0
AreKept budgets history = All (λ (b : Budget). IsKept b (filter (matches b) history)) budgets

nothing-AreKept : (budgets : List Budget) → AreKept budgets []
nothing-AreKept [] = tt
nothing-AreKept (b ∷ rest) = (nothing-IsKept b, nothing-AreKept rest)

AreKept-snoc :
    (budgets : List Budget) (history : List UsageRecord) (r : UsageRecord)
    → AreKept budgets history
    → IsAffordable budgets r history
    → AreKept budgets (history ++ r ∷ [])
AreKept-snoc [] history r h a = tt
AreKept-snoc (b ∷ rest) history r h a = (
  elim (Bool-cases (matches b r)) [
    | inl e ↦
        let q : filter (matches b) (r ∷ []) ≡ r ∷ [] = rw (e, if◌then◌else◌) refl in
        subst (IsKept b)
          (sym (filter_snoc (matches b) history r ∙ ap (λ l. filter (matches b) history ++ l) q))
          (a.0 e)
    | inr e ↦
        let q : filter (matches b) (r ∷ []) ≡ [] = rw (e, if◌then◌else◌) refl in
        subst (IsKept b)
          (sym (
            filter_snoc (matches b) history r
            ∙ ap (λ l. filter (matches b) history ++ l) q
            ∙ append_nil (filter (matches b) history)))
          h.0
  ],
  AreKept-snoc rest history r h.1 a.1,
)

-- When every record of a history was allowed by the gate before it was added, the uses in the scope
-- of each budget are at most each of the budget's ceilings.
pub IsGated-AreKept :
    (budgets : List Budget) (history : List UsageRecord)
    → IsGated budgets history
    → AreKept budgets history
IsGated-AreKept budgets [] unused = nothing-AreKept budgets
IsGated-AreKept budgets _ (used history r g h) =
    AreKept-snoc budgets history r (IsGated-AreKept budgets history g)
      (evaluate_usage-IsAffordable budgets r history h)
