-- ===== src/Matching/Examples.antt =====
-- Two agents that may have a workstream, and one that is offline.
use synapse_os.Base.{
  ok, err, ◌++◌, ℕ, ◌≤◌, true, List, [], ◌∷◌, String, length, All, arith, ◌≡◌, refl,
}
use synapse_os.Enums.{Permission, same_permission, ToolRiskLevel}
use synapse_os.Matching.Matcher.{
  AgentSeniority, AgentStatus, AgentCandidate, AgentMatchingRequest, AgentMatch, is_ranked_before,
  rejection_reasons, ranked_match, sort_out, rank_candidates, match_agents, canonical_candidates,
  repeated, AgentMatchingResult,
}
use synapse_os.Matching.Ranked.{IsMatchOf, is_sorted, match_agents-ranks, match_agents-scores}

abbrev same_text : String → String
same_text s = s

abbrev candidate : ℕ → AgentStatus → ℕ → AgentCandidate
candidate id status expertise = record {
  agent_id = id;
  seniority = AgentSeniority.senior;
  status = status;
  autonomy_level = 2;
  reputation = 8000;
  reliability = 9000;
  capabilities = record { name = "python"; expertise = expertise } ∷ [];
  active_permissions = Permission.filesystem_read ∷ [];
}

abbrev candidates : List AgentCandidate
candidates =
    candidate 1 AgentStatus.available 5000
    ∷ candidate 2 AgentStatus.offline 9000
    ∷ candidate 3 AgentStatus.available 9000
    ∷ []

abbrev request : AgentMatchingRequest
request = record {
  required_capabilities = "python" ∷ [];
  required_permissions = Permission.filesystem_read ∷ [];
  minimum_seniority = AgentSeniority.engineer;
  risk_level = ToolRiskLevel.medium;
  cost_estimates =
      record { agent_id = 1; normalized_cost = 2000 }
      ∷ record { agent_id = 2; normalized_cost = 0 }
      ∷ record { agent_id = 3; normalized_cost = 2000 }
      ∷ [];
  limit = 10;
}

abbrev scores : List AgentMatch → List (ℕ × ℕ)
scores [] = []
scores (m ∷ rest) = (m.agent.agent_id, m.score) ∷ scores rest

abbrev result : AgentMatchingResult
result = rank_candidates same_text request candidates

ranking : scores result.matches ≡ (3, 8350) ∷ (1, 6950) ∷ []
unfolding rank_candidates sort_out rejection_reasons ranked_match same_permission
ranking = refl

returned : match_agents same_text request candidates ≡ ok result
unfolding match_agents canonical_candidates
returned = refl

repeated_refused : match_agents same_text request (candidates ++ candidates) ≡ err repeated
unfolding match_agents canonical_candidates
repeated_refused = refl

match_agents-ranks_example :
    All (IsMatchOf same_text request candidates) result.matches
    × (is_sorted is_ranked_before result.matches ≡ true)
    × (length result.matches ≤ 10)
match_agents-ranks_example = match_agents-ranks same_text request candidates result returned

match_agents-scores_example : All (λ (m : AgentMatch). m.score ≤ 10_000) result.matches
match_agents-scores_example =
    match_agents-scores same_text request candidates result returned refl (omega arith)
