-- ===== src/Permissions/Granted.antt =====
-- The other way round: what the database authorizes, the policy allows.
use synapse_os.Base.{
  ℕ, zero, suc, ◌≤◌, Bool, true, false, List, [], ◌∷◌, Option, some, String, ==_iff, ltb, any, All,
  get_elem?, ok, ◌≡◌, ◌≢◌, refl, arith, same_iff,
}
use synapse_os.Enums.{Permission, Permission-discrete, same_permission, ToolRiskLevel}
use synapse_os.Permissions.Types.{
  PermissionOutcome, PermissionReasonCode, PolicyRequest, contains, is_subset,
  is_valid_policy_request, decision_of,
}
use synapse_os.Permissions.Policy.{
  AgentPermission, Database, minimum_autonomy, minimum_risk_autonomy, is_number, autonomy_of,
  agent_of, is_active, granted_among, granted_of, is_critical, decide, evaluate_policy,
}
use synapse_os.Permissions.Authority.{Among, All-map, IsGranting, IsAuthorized}

same_permission_refl : (p : Permission) → same_permission p p ≡ true
unfolding same_permission
same_permission_refl p = (same_iff Permission-discrete p p).1 refl

number_is : (o : Option ℕ) (n : ℕ) → o ≡ some n → is_number o n ≡ true
number_is o n h = rw (h, (==_iff n n).1 refl) refl

IsGranting-is_active :
    (agent : Option ℕ) (r : PolicyRequest) (now : ℕ) (g : AgentPermission) (p : Permission)
    → contains r.required_permissions p ≡ true
    → IsGranting agent r now g p
    → is_active agent r now g ≡ true
unfolding is_active
IsGranting-is_active agent r now g p m w =
    rw (number_is agent g.agent_id w.holder, w.permission, m, w.project, w.live, w.current) refl

granted_among-contains :
    (agent : Option ℕ) (r : PolicyRequest) (now : ℕ) (grants : List AgentPermission) (i : ℕ)
    (g : AgentPermission) (p : Permission)
    → get_elem? grants i ≡ some g
    → is_active agent r now g ≡ true
    → g.permission ≡ p
    → contains (granted_among agent r now grants) p ≡ true
granted_among-contains agent r now [] i g p e a h = absurd (cc)
granted_among-contains agent r now (x ∷ rest) zero g p e a h =
    let q : x ≡ g = cc in
    let active : is_active agent r now x ≡ true = rw q a in
    let same : same_permission p x.permission ≡ true = rw (q, h) (same_permission_refl p) in
    rw (active, same) refl
granted_among-contains agent r now (x ∷ rest) (suc i) g p e a h =
    let later = granted_among-contains agent r now rest i g p e a h in ground (arith, later)

own_members : (xs : List Permission) → All (λ p. contains xs p ≡ true) xs
own_members [] = tt
own_members (x ∷ xs) = (
  rw (same_permission_refl x) refl,
  All-map (λ p. contains xs p ≡ true) (λ p. contains (x ∷ xs) p ≡ true) xs
      (λ p m. ground (arith, m)) (own_members xs),
)

granted_all :
    (db : Database) (r : PolicyRequest) (now : ℕ) (xs : List Permission)
    → All (λ p. contains r.required_permissions p ≡ true) xs
    → All
        (λ p.
          (g : AgentPermission) × Among g db.permissions
          × IsGranting (agent_of r.agent_id db.agents) r now g p)
        xs
    → is_subset xs (granted_of db r now) ≡ true
granted_all db r now [] m w = refl
granted_all db r now (p ∷ xs) m w =
    let (g, (i, at), granting) = w.0 in
    let agent = agent_of r.agent_id db.agents in
    let active = IsGranting-is_active agent r now g p m.0 granting in
    let here =
      granted_among-contains agent r now db.permissions i g p at active granting.permission in
    rw here (granted_all db r now xs m.1 w.1)

autonomy_any :
    (level : ℕ) (xs : List Permission)
    → All (λ p. minimum_autonomy p ≤ level) xs
    → any (λ p. ltb level (minimum_autonomy p)) xs ≡ false
autonomy_any level [] w = refl
autonomy_any level (p ∷ xs) w =
    let here = w.0 in let rest = autonomy_any level xs w.1 in ground (arith, here, rest)

critical_iff : (l : ToolRiskLevel) → l ≢ ToolRiskLevel.critical → is_critical l ≡ false
critical_iff ToolRiskLevel.low h = refl
critical_iff ToolRiskLevel.medium h = refl
critical_iff ToolRiskLevel.high h = refl
critical_iff ToolRiskLevel.critical h = absurd (h refl)

-- The database policy allows a request that is valid, for whose scope it finds an autonomy level,
-- and which the database authorizes at this level.
pub policy_allows :
    (matches : String → String → Bool) (db : Database) (r : PolicyRequest) (now level : ℕ)
    → is_valid_policy_request matches r ≡ true
    → autonomy_of db r ≡ some level
    → IsAuthorized db r now level
    → evaluate_policy matches (some db) r now
      ≡ ok (
          decision_of r PermissionOutcome.allow PermissionReasonCode.granted "Permission granted."
            now)
unfolding evaluate_policy decide
policy_allows matches db r now level valid found w =
    let subset =
      granted_all db r now r.required_permissions (own_members r.required_permissions) w.granted in
    let low : ltb level (minimum_risk_autonomy r.risk_level) ≡ false =
      let q = w.risk in ground arith in
    rw
      (
        valid,
        found,
        subset,
        w.not_production,
        critical_iff r.risk_level w.not_critical,
        autonomy_any level r.required_permissions w.autonomy,
        low,
      )
      refl
