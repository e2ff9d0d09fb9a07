-- ===== src/Matching/Matcher.antt =====
-- `AgentMatcher` of core/agent_registry/matcher.py, with the values of core/agent_registry/types.py.
-- Scores, which have four decimals, are numbers of ten-thousandths. Identifiers are numbers in their
-- order; texts of reasons and explanations are left out.
use synapse_os.Base.{
  ℕ, ◌+◌, ◌-◌, ◌*◌, ◌/◌, Bool, true, false, not, ◌&&◌, ◌||◌, ◌==◌, ltb, List, [], ◌∷◌, ◌++◌, Option,
  none, some, String, str_eq, length, take, any, all, if◌then◌else◌, is_nonempty, leb, map, Result,
  ok, err, ◌>>=◌,
}
use synapse_os.Enums.{Permission, same_permission, ToolRiskLevel}

pub data AgentSeniority : Type 0 where
  trainee junior engineer senior staff principal : AgentSeniority

pub data AgentStatus : Type 0 where
  available assigned working waiting blocked offline : AgentStatus

pub record AgentCapabilitySnapshot : Type 0 where
  pub name : String
  pub expertise : ℕ

pub record AgentCandidate : Type 0 where
  pub agent_id : ℕ
  pub seniority : AgentSeniority
  pub status : AgentStatus
  pub autonomy_level : ℕ
  pub reputation : ℕ
  pub reliability : ℕ
  pub capabilities : List AgentCapabilitySnapshot
  pub active_permissions : List Permission

pub record AgentCostEstimate : Type 0 where
  pub agent_id : ℕ
  pub normalized_cost : ℕ

-- `required_capabilities` are those of the workstream.
pub record AgentMatchingRequest : Type 0 where
  pub required_capabilities : List String
  pub required_permissions : List Permission
  pub minimum_seniority : AgentSeniority
  pub risk_level : ToolRiskLevel
  pub cost_estimates : List AgentCostEstimate
  pub limit : ℕ

pub record AgentMatchScore : Type 0 where
  pub expertise : ℕ
  pub reputation : ℕ
  pub reliability : ℕ
  pub seniority_fit : ℕ
  pub cost_efficiency : ℕ

pub record AgentMatch : Type 0 where
  pub agent : AgentCandidate
  pub score : ℕ
  pub breakdown : AgentMatchScore

pub data RejectionReason : Type 0 where
  not_available missing_capabilities missing_permissions autonomy_too_low seniority_too_low
        no_cost :
      RejectionReason

pub record RejectedAgentMatch : Type 0 where
  pub agent_id : ℕ
  pub reasons : List RejectionReason

pub record AgentMatchingResult : Type 0 where
  pub matches : List AgentMatch
  pub rejections : List RejectedAgentMatch

-- `_SENIORITY_RANK`
abbrev pub seniority_rank : AgentSeniority → ℕ
seniority_rank AgentSeniority.trainee = 0
seniority_rank AgentSeniority.junior = 1
seniority_rank AgentSeniority.engineer = 2
seniority_rank AgentSeniority.senior = 3
seniority_rank AgentSeniority.staff = 4
seniority_rank AgentSeniority.principal = 5

-- `_RISK_AUTONOMY`
abbrev pub risk_autonomy : ToolRiskLevel → ℕ
risk_autonomy ToolRiskLevel.low = 0
risk_autonomy ToolRiskLevel.medium = 1
risk_autonomy ToolRiskLevel.high = 2
risk_autonomy ToolRiskLevel.critical = 3

abbrev pub is_available : AgentStatus → Bool
is_available AgentStatus.available = true
is_available _ = false

abbrev pub find_cost : List AgentCostEstimate → ℕ → Option ℕ
find_cost [] agent = none
find_cost (e ∷ rest) agent =
    let later = find_cost rest agent in
    if e.agent_id == agent then some e.normalized_cost else later

abbrev pub has_cost : Option ℕ → Bool
has_cost none = false
has_cost (some cost) = true

-- `_quantize` of a quotient: the nearest number, halves up.
abbrev pub quantize : ℕ → ℕ → ℕ
quantize a b = (2 * a + b) / (2 * b)

-- A reason, if its condition holds.
abbrev pub reason_if : Bool → RejectionReason → List RejectionReason
reason_if true reason = reason ∷ []
reason_if false reason = []

-- `_seniority_fit`
abbrev pub seniority_fit : AgentSeniority → ℕ
seniority_fit s = quantize (seniority_rank s * 10_000) 5

-- The key `(-item.score, item.agent.agent_id.int)`.
abbrev pub is_ranked_before : AgentMatch → AgentMatch → Bool
is_ranked_before a b =
    ltb b.score a.score || (a.score == b.score && ltb a.agent.agent_id b.agent.agent_id)

abbrev pub insert_by : {A : Type 0} → (A → A → Bool) → A → List A → List A
insert_by before a [] = a ∷ []
insert_by before a (x ∷ rest) =
    let later = insert_by before a rest in if before x a then x ∷ later else a ∷ x ∷ rest

-- `list.sort`, which is stable.
abbrev pub sort_by : {A : Type 0} → (A → A → Bool) → List A → List A
sort_by before [] = []
sort_by before (x ∷ rest) = insert_by before x (sort_by before rest)

-- `costs[candidate.agent_id]`, where the agent has a cost.
abbrev pub cost_or_zero : Option ℕ → ℕ
cost_or_zero none = 0
cost_or_zero (some cost) = cost

-- The `ValueError` that `_canonical_candidates` raises.
pub data MatchError : Type 0 where
  unbounded repeated : MatchError

abbrev pub is_distinct : List ℕ → Bool
is_distinct [] = true
is_distinct (x ∷ xs) = not (any (λ y. x == y) xs) && is_distinct xs

abbrev pub candidate_ids : List AgentCandidate → List ℕ
candidate_ids candidates = map (λ (c : AgentCandidate). c.agent_id) candidates

-- `_canonical_candidates`. A candidate is a value that its type's own checks have passed, so that the
-- copy of it passes them again.
unfoldable pub canonical_candidates : List AgentCandidate → Result MatchError (List AgentCandidate)
canonical_candidates candidates =
    if not (leb (length candidates) 100)
    then err unbounded
    else if not (is_distinct (candidate_ids candidates))
    then err repeated
    else ok candidates

-- `casefold` is the text method of that name.
module _ (casefold : String → String) where
  -- `capabilities[name.casefold()].expertise`, where every name that is asked for is a key, and a
  -- candidate names no capability twice.
  abbrev pub expertise_of : List AgentCapabilitySnapshot → String → ℕ
  expertise_of [] name = 0
  expertise_of (c ∷ rest) name =
      let later = expertise_of rest name in
      if str_eq (casefold c.name) (casefold name) then c.expertise else later

  abbrev pub has_capability : AgentCandidate → String → Bool
  has_capability candidate name =
      any (λ (c : AgentCapabilitySnapshot). str_eq (casefold c.name) (casefold name))
        candidate.capabilities

  abbrev pub has_permission : AgentCandidate → Permission → Bool
  has_permission candidate permission =
      any (same_permission permission) candidate.active_permissions

  -- `_rejection_reasons`
  unfoldable pub rejection_reasons : AgentMatchingRequest → AgentCandidate → List RejectionReason
  rejection_reasons request c =
      reason_if (not (is_available c.status)) RejectionReason.not_available
      ++ (reason_if (not (all (has_capability c) request.required_capabilities))
            RejectionReason.missing_capabilities
          ++ (reason_if (not (all (has_permission c) request.required_permissions))
                RejectionReason.missing_permissions
              ++ (reason_if (ltb c.autonomy_level (risk_autonomy request.risk_level))
                    RejectionReason.autonomy_too_low
                  ++ (reason_if
                        (ltb (seniority_rank c.seniority)
                          (seniority_rank request.minimum_seniority))
                        RejectionReason.seniority_too_low
                      ++ reason_if (not (has_cost (find_cost request.cost_estimates c.agent_id)))
                          RejectionReason.no_cost))))

  abbrev pub total_expertise : AgentCandidate → List String → ℕ
  total_expertise c [] = 0
  total_expertise c (name ∷ rest) = expertise_of c.capabilities name + total_expertise c rest

  abbrev pub breakdown_of : AgentMatchingRequest → AgentCandidate → ℕ → AgentMatchScore
  breakdown_of request c cost = record {
    expertise =
        quantize (total_expertise c request.required_capabilities)
          (length request.required_capabilities);
    reputation = c.reputation;
    reliability = c.reliability;
    seniority_fit = seniority_fit c.seniority;
    cost_efficiency = 10_000 - cost;
  }

  abbrev pub score_of : AgentMatchScore → ℕ
  score_of b =
      quantize
        (35 * b.expertise
          + 20 * b.reputation
          + 20 * b.reliability
          + 10 * b.seniority_fit
          + 15 * b.cost_efficiency)
        100

  -- `_ranked_match`
  unfoldable pub ranked_match : AgentMatchingRequest → AgentCandidate → ℕ → AgentMatch
  ranked_match request c cost = record {
    agent = c;
    score = score_of (breakdown_of request c cost);
    breakdown = breakdown_of request c cost;
  }

  -- The loop: the matches and the rejections, in the order of the candidates.
  unfoldable pub sort_out :
      AgentMatchingRequest → List AgentCandidate → List AgentMatch × List RejectedAgentMatch
  sort_out request [] = ([], [])
  sort_out request (c ∷ rest) =
      let (found, rejected) = sort_out request rest in
      if is_nonempty (rejection_reasons request c)
      then (
        found,
        record { agent_id = c.agent_id; reasons = rejection_reasons request c } ∷ rejected,
      )
      else (
        ranked_match request c (cost_or_zero (find_cost request.cost_estimates c.agent_id)) ∷ found,
        rejected,
      )

  -- `match`, from the canonical values on.
  unfoldable pub rank_candidates : AgentMatchingRequest → List AgentCandidate → AgentMatchingResult
  rank_candidates request candidates =
      let (found, rejected) = sort_out request candidates in
      record {
        matches = take request.limit (sort_by is_ranked_before found);
        rejections = sort_by (λ (a b : RejectedAgentMatch). ltb a.agent_id b.agent_id) rejected;
      }

  -- `match`
  unfoldable pub match_agents :
      AgentMatchingRequest → List AgentCandidate → Result MatchError AgentMatchingResult
  match_agents request candidates = do
    canonical ← canonical_candidates candidates
    ok (rank_candidates request canonical)
