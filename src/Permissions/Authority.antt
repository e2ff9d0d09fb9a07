-- ===== src/Permissions/Authority.antt =====
-- What stands behind an `ALLOW` of the database policy of infrastructure/permissions/policy.py.
use synapse_os.Base.{
  ℕ, suc, ◌≤◌, Bool, true, false, List, [], ◌∷◌, Option, none, some, String, ==_iff, eq_iff, ltb,
  any, all-true, any-false, All, get_elem?, ok, ◌≡◌, ◌≢◌, refl, sym, subst, ap, arith, Bool-cases,
  Option-cases, &&_true, inl, inr, same_iff,
}
use synapse_os.Enums.{Permission, Permission-discrete, same_permission, ToolRiskLevel}
use synapse_os.Permissions.Types.{
  PermissionOutcome, PolicyRequest, PermissionDecision, contains, is_subset,
}
use synapse_os.Permissions.Policy.{
  Agent, AgentRun, WorkTask, AgentPermission, Database, minimum_autonomy, minimum_risk_autonomy,
  is_number, is_scoped, first_task, first_run, first_agent, autonomy_of, agent_of, is_current,
  covers, is_none, is_active, granted_among, granted_of, is_critical, decide, evaluate_policy,
}

-- The item stands in the list.
abbrev pub Among {ℓ} : {A : Type ℓ} → A → List A → Type ℓ
Among x xs = (i : ℕ) × (get_elem? xs i ≡ some x)

-- The rows of the request's agent, run and task, which belong together.
pub record IsScoped (r : PolicyRequest) (a : Agent) (run : AgentRun) (t : WorkTask) : Type 0 where
  pub run_id : run.id ≡ r.agent_run_id
  pub runs : run.agent_id ≡ a.id
  pub slug : a.slug ≡ r.agent_id
  pub works_on : run.task_id ≡ r.task_id
  pub task : t.id ≡ r.task_id
  pub project : t.project_id ≡ r.project_id
  pub assigned : t.assigned_agent_id ≡ some a.id

-- A grant of the permission to the agent, for all projects or the request's, not revoked and not
-- expired.
pub record IsGranting (agent : Option ℕ) (r : PolicyRequest) (now : ℕ) (g : AgentPermission)
    (p : Permission) : Type 0 where
  pub holder : agent ≡ some g.agent_id
  pub permission : g.permission ≡ p
  pub project : covers g.project_id r.project_id ≡ true
  pub live : g.revoked_at ≡ none
  pub current : is_current g.expires_at now ≡ true

number_some : (o : Option ℕ) (n : ℕ) → is_number o n ≡ true → o ≡ some n
number_some none n h = absurd (cc)
number_some (some m) n h = let p = (==_iff m n).0 h in cc

is_scoped-IsScoped :
    (r : PolicyRequest) (a : Agent) (run : AgentRun) (t : WorkTask)
    → is_scoped r a run t ≡ true
    → IsScoped r a run t
unfolding is_scoped
is_scoped-IsScoped r a run t h =
    let s7 = &&_true _ _ h in
    let s6 = &&_true _ _ s7.0 in
    let s5 = &&_true _ _ s6.0 in
    let s4 = &&_true _ _ s5.0 in
    let s3 = &&_true _ _ s4.0 in
    let s2 = &&_true _ _ s3.0 in
    let s1 = &&_true _ _ s2.0 in
    record {
      run_id = (==_iff _ _).0 s2.1;
      runs = (==_iff _ _).0 s1.0;
      slug = (eq_iff _ _).0 s3.1;
      works_on = (==_iff _ _).0 s4.1;
      task = (==_iff _ _).0 s5.1;
      project = (==_iff _ _).0 s6.1;
      assigned = number_some _ _ s7.1;
    }

is_none-none : (o : Option ℕ) → is_none o ≡ true → o ≡ none
is_none-none none h = refl
is_none-none (some n) h = absurd (cc)

is_active-IsGranting :
    (agent : Option ℕ) (r : PolicyRequest) (now : ℕ) (g : AgentPermission)
    → is_active agent r now g ≡ true
    → IsGranting agent r now g g.permission
unfolding is_active
is_active-IsGranting agent r now g h =
    let s4 = &&_true _ _ h in
    let s3 = &&_true _ _ s4.0 in
    let s2 = &&_true _ _ s3.0 in
    let s1 = &&_true _ _ s2.0 in
    record {
      holder = number_some _ _ s1.0;
      permission = refl;
      project = s2.1;
      live = is_none-none _ s3.1;
      current = s4.1;
    }

-- A row of the join, for a level that one list gives.
abbrev pub Scoped : Database → PolicyRequest → ℕ → Type 0
Scoped db r level =
    (a : Agent) × (run : AgentRun) × (t : WorkTask) × Among a db.agents
    × Among run db.runs
    × Among t db.tasks
    × IsScoped r a run t
    × (a.autonomy_level ≡ level)

first_task-IsScoped :
    (r : PolicyRequest) (a : Agent) (run : AgentRun) (tasks : List WorkTask) (level : ℕ)
    → first_task r a run tasks ≡ some level
    → (t : WorkTask) × Among t tasks × IsScoped r a run t × (a.autonomy_level ≡ level)
first_task-IsScoped r a run [] level h = absurd (cc)
first_task-IsScoped r a run (t ∷ rest) level h = elim (Bool-cases (is_scoped r a run t)) [
  | inl e ↦ (t, (0, refl), is_scoped-IsScoped r a run t e, ground arith)
  | inr e ↦
      let (u, (i, at), s, same) = first_task-IsScoped r a run rest level (ground arith) in
      (u, (suc i, at), s, same)
]

first_run-IsScoped :
    (r : PolicyRequest) (a : Agent) (tasks : List WorkTask) (runs : List AgentRun) (level : ℕ)
    → first_run r a tasks runs ≡ some level
    → (run : AgentRun) × (t : WorkTask) × Among run runs
      × Among t tasks
      × IsScoped r a run t
      × (a.autonomy_level ≡ level)
first_run-IsScoped r a tasks [] level h = absurd (cc)
first_run-IsScoped r a tasks (run ∷ rest) level h = elim (Option-cases (first_task r a run tasks)) [
  | inl e ↦
      let (u, t, (i, at), places, s, same) =
        first_run-IsScoped r a tasks rest level (ground arith) in
      (u, t, (suc i, at), places, s, same)
  | inr (n, e) ↦
      let (t, place, s, same) = first_task-IsScoped r a run tasks level (ground arith) in
      (run, t, (0, refl), place, s, same)
]

first_agent-IsScoped :
    (r : PolicyRequest) (tasks : List WorkTask) (runs : List AgentRun) (agents : List Agent)
    (level : ℕ)
    → first_agent r tasks runs agents ≡ some level
    → (a : Agent) × (run : AgentRun) × (t : WorkTask) × Among a agents
      × Among run runs
      × Among t tasks
      × IsScoped r a run t
      × (a.autonomy_level ≡ level)
first_agent-IsScoped r tasks runs [] level h = absurd (cc)
first_agent-IsScoped r tasks runs (a ∷ rest) level h =
    elim (Option-cases (first_run r a tasks runs)) [
      | inl e ↦
          let (b, run, t, (i, at), at_run, at_task, s, same) =
            first_agent-IsScoped r tasks runs rest level (ground arith) in
          (b, run, t, (suc i, at), at_run, at_task, s, same)
      | inr (n, e) ↦
          let (run, t, at_run, at_task, s, same) =
            first_run-IsScoped r a tasks runs level (ground arith) in
          (a, run, t, (0, refl), at_run, at_task, s, same)
    ]

same_permission-eq : (p q : Permission) → same_permission p q ≡ true → p ≡ q
unfolding same_permission
same_permission-eq p q h = (same_iff Permission-discrete p q).0 h

-- A member of the granted permissions comes from a grant.
granted_among-IsGranting :
    (agent : Option ℕ) (r : PolicyRequest) (now : ℕ) (grants : List AgentPermission)
    (p : Permission)
    → contains (granted_among agent r now grants) p ≡ true
    → (g : AgentPermission) × Among g grants × IsGranting agent r now g p
granted_among-IsGranting agent r now [] p h = absurd (cc)
granted_among-IsGranting agent r now (g ∷ rest) p h = elim (Bool-cases (is_active agent r now g)) [
  | inr e ↦
      let (k, (i, at), granting) = granted_among-IsGranting agent r now rest p (ground arith) in
      (k, (suc i, at), granting)
  | inl e ↦ elim (Bool-cases (same_permission p g.permission)) [
    | inl same ↦
        let q : p ≡ g.permission = same_permission-eq p g.permission same in
        (
          g,
          (0, refl),
          subst (IsGranting agent r now g) (sym q) (is_active-IsGranting agent r now g e),
        )
    | inr other ↦
        let (k, (i, at), granting) = granted_among-IsGranting agent r now rest p (ground arith) in
        (k, (suc i, at), granting)
  ]
]

-- What an `ALLOW` needs: the request's agent, run and task belong together in the database, every
-- required permission is granted, deployment to production is not among them, the risk is not
-- critical, and the agent's autonomy suffices for each permission and for the risk.
pub record IsAuthorized (db : Database) (r : PolicyRequest) (now : ℕ) (level : ℕ) : Type 0 where
  pub scope : Scoped db r level
  pub granted :
      All
        (λ p.
          (g : AgentPermission) × Among g db.permissions
          × IsGranting (agent_of r.agent_id db.agents) r now g p)
        r.required_permissions
  pub not_production : contains r.required_permissions Permission.deployment_production ≡ false
  pub not_critical : r.risk_level ≢ ToolRiskLevel.critical
  pub autonomy : All (λ p. minimum_autonomy p ≤ level) r.required_permissions
  pub risk : minimum_risk_autonomy r.risk_level ≤ level

pub All-map :
    {A : Type 0} (P Q : A → Type 0) (xs : List A) → ((x : A) → P x → Q x) → All P xs → All Q xs
All-map P Q [] f h = tt
All-map P Q (x ∷ xs) f h = (f x h.0, All-map P Q xs f h.1)

-- The tests of `decide` that an `ALLOW` has passed.
record IsPassed (r : PolicyRequest) (level : ℕ) (granted : List Permission) : Type 0 where
  subset : is_subset r.required_permissions granted ≡ true
  staging : contains r.required_permissions Permission.deployment_production ≡ false
  risk : is_critical r.risk_level ≡ false
  autonomy : any (λ p. ltb level (minimum_autonomy p)) r.required_permissions ≡ false
  risk_autonomy : ltb level (minimum_risk_autonomy r.risk_level) ≡ false

decide-IsPassed :
    (r : PolicyRequest) (now level : ℕ) (granted : List Permission)
    → (decide r now (some level) granted).outcome ≡ PermissionOutcome.allow
    → IsPassed r level granted
unfolding decide
decide-IsPassed r now level granted h = record {
  subset = ground arith;
  staging = ground arith;
  risk = ground arith;
  autonomy = ground arith;
  risk_autonomy = ground arith;
}

critical_not : (r : ToolRiskLevel) → is_critical r ≡ false → r ≢ ToolRiskLevel.critical
critical_not r h e = cc (h, ap is_critical e)

decide-IsAuthorized :
    (db : Database) (r : PolicyRequest) (now : ℕ) (o : Option ℕ)
    → autonomy_of db r ≡ o
    → (decide r now o (granted_of db r now)).outcome ≡ PermissionOutcome.allow
    → (level : ℕ) × IsAuthorized db r now level
unfolding decide
decide-IsAuthorized db r now none e h = absurd (cc)
decide-IsAuthorized db r now (some level) e h =
    let w = decide-IsPassed r now level (granted_of db r now) h in
    (
      level,
      record {
        scope = first_agent-IsScoped r db.tasks db.runs db.agents level e;
        granted =
            All-map (λ p. contains (granted_of db r now) p ≡ true) _ r.required_permissions
              (λ p m.
                granted_among-IsGranting (agent_of r.agent_id db.agents) r now db.permissions p m)
              (all-true (contains (granted_of db r now)) r.required_permissions w.subset);
        not_production = w.staging;
        not_critical = critical_not r.risk_level w.risk;
        autonomy =
            All-map (λ p. ltb level (minimum_autonomy p) ≡ false) _ r.required_permissions
              (λ p m. ground arith)
              (any-false (λ p. ltb level (minimum_autonomy p)) r.required_permissions w.autonomy);
        risk = let q = w.risk_autonomy in ground arith;
      },
    )

-- The database policy allows a request only if the request's agent, run and task belong together
-- in the database, every required permission is granted, deployment to production is not required,
-- the risk is not critical, and the agent's autonomy suffices.
pub policy-IsAuthorized :
    (matches : String → String → Bool) (db : Database) (r : PolicyRequest) (now : ℕ)
    (d : PermissionDecision)
    → evaluate_policy matches (some db) r now ≡ ok d
    → d.outcome ≡ PermissionOutcome.allow
    → (level : ℕ) × IsAuthorized db r now level
unfolding evaluate_policy
policy-IsAuthorized matches db r now d h allowed =
    let p : d ≡ decide r now (autonomy_of db r) (granted_of db r now) = ground arith in
    decide-IsAuthorized db r now (autonomy_of db r) refl
      (subst (λ (x : PermissionDecision). x.outcome ≡ PermissionOutcome.allow) p allowed)
