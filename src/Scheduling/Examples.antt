-- ===== src/Scheduling/Examples.antt =====
-- Two projects that ask for the same agent.
use synapse_os.Base.{ℕ, ◌+◌, List, [], ◌∷◌, String, Result, ok, length, ◌≡◌, refl}
use synapse_os.Enums.{Permission, ToolRiskLevel}
use synapse_os.Matching.Matcher.{AgentSeniority, AgentStatus, AgentCandidate, AgentMatchingRequest}
use synapse_os.Scheduling.Scheduler.{
  AssignmentStatus, ProjectScheduleRequest, RankedAgentMatch, AgentAssignment, Scheduler, schedule,
  release_project,
}
use synapse_os.Scheduling.Matched.{matcher, Assigns, schedule-Assigns}
use synapse_os.Scheduling.Stable.{IsGreedy, schedule-IsGreedy}
use synapse_os.Scheduling.Exclusive.{
  others, IsExtended, schedule-IsExtended, release_project-others,
}

abbrev busy : AgentAssignment
busy = record {
  assignment_id = 100;
  agent_id = 1;
  project_id = 9;
  task_id = 90;
  project_priority = 5;
  score = 8000;
  status = AssignmentStatus.active;
}

abbrev scheduler : Scheduler
scheduler = record { active_by_agent = (1, busy) ∷ []; history = busy ∷ []; next_id = 101 }

-- Agent 1 is the best match of every request, agent 2 the next.
abbrev matches : ℕ → Result ℕ (List RankedAgentMatch)
matches q = ok (record { agent_id = 1; score = 9000 } ∷ record { agent_id = 2; score = 7000 } ∷ [])

abbrev low : ProjectScheduleRequest ℕ
low = record { project_id = 7; task_id = 70; project_priority = 1; matching_request = 0 }

abbrev high : ProjectScheduleRequest ℕ
high = record { project_id = 8; task_id = 80; project_priority = 3; matching_request = 0 }

schedule-IsExtended_example :
    IsExtended matches scheduler (schedule matches (low ∷ high ∷ []) scheduler)
schedule-IsExtended_example = schedule-IsExtended matches (low ∷ high ∷ []) scheduler refl

release_project-others_example :
    ((release_project 9 scheduler).1.active_by_agent ≡ others 9 scheduler.active_by_agent)
    × ((release_project 9 scheduler).0 + length (release_project 9 scheduler).1.active_by_agent
        ≡ length scheduler.active_by_agent)
release_project-others_example = release_project-others 9 scheduler refl

-- The same matches, from a matcher that does not raise.
abbrev found : ℕ → List RankedAgentMatch
found q = record { agent_id = 1; score = 9000 } ∷ record { agent_id = 2; score = 7000 } ∷ []

schedule-IsGreedy_example :
    IsGreedy found {E = ℕ}
      (low ∷ high ∷ [])
      (1 ∷ [])
      (schedule (λ q. ok (found q)) (low ∷ high ∷ []) scheduler)
schedule-IsGreedy_example = schedule-IsGreedy found (low ∷ high ∷ []) scheduler

abbrev same_text : String → String
same_text s = s

abbrev candidates : List AgentCandidate
candidates =
    record {
      agent_id = 4;
      seniority = AgentSeniority.senior;
      status = AgentStatus.available;
      autonomy_level = 2;
      reputation = 8000;
      reliability = 9000;
      capabilities = record { name = "python"; expertise = 9000 } ∷ [];
      active_permissions = Permission.filesystem_read ∷ [];
    }
    ∷ []

abbrev backend : ProjectScheduleRequest AgentMatchingRequest
backend = record {
  project_id = 7;
  task_id = 70;
  project_priority = 1;
  matching_request = record {
    required_capabilities = "python" ∷ [];
    required_permissions = Permission.filesystem_read ∷ [];
    minimum_seniority = AgentSeniority.engineer;
    risk_level = ToolRiskLevel.medium;
    cost_estimates = record { agent_id = 4; normalized_cost = 2000 } ∷ [];
    limit = 10;
  };
}

schedule-Assigns_example :
    Assigns same_text candidates
      (backend ∷ [])
      (schedule (matcher same_text candidates) (backend ∷ []) scheduler).0
schedule-Assigns_example = schedule-Assigns same_text candidates (backend ∷ []) scheduler refl
