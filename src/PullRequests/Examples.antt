-- ===== src/PullRequests/Examples.antt =====
-- A pull request that the merge gate passes.
use synapse_os.Base.{Bool, true, false, [], ◌∷◌, some, String, ◌≡◌, ◌↔◌, refl}
use synapse_os.PullRequests.Types.{
  PullRequestReviewDecision, ApprovalKind, ApprovalDecision, MergeGateDecision, ApprovalEvidence,
  MergeGateRequest, is_valid_request, has_unique_kinds, same_kind, same_reason,
}
use synapse_os.PullRequests.Gate.{reasons_of, evaluate}
use synapse_os.PullRequests.Mergeable.{IsMergeable, evaluate_pass}

abbrev approval : ApprovalKind → ApprovalEvidence
approval ApprovalKind.reviewer = record {
  kind = ApprovalKind.reviewer;
  approver_agent_id = 2;
  approver_role = "Reviewer";
  decision = ApprovalDecision.approved;
  head_sha = "aaaa";
  correlation_id = 77;
}
approval ApprovalKind.qa = record {
  kind = ApprovalKind.qa;
  approver_agent_id = 3;
  approver_role = "QA";
  decision = ApprovalDecision.approved;
  head_sha = "aaaa";
  correlation_id = 77;
}
approval ApprovalKind.security = record {
  kind = ApprovalKind.security;
  approver_agent_id = 4;
  approver_role = "Security";
  decision = ApprovalDecision.approved;
  head_sha = "aaaa";
  correlation_id = 77;
}

abbrev request : MergeGateRequest
request = record {
  expected_task_id = 10;
  candidate = record {
    pull_request_id = 5;
    project_id = 6;
    task_id = 10;
    author_agent_id = 1;
    head_sha = "aaaa";
    correlation_id = 77;
  };
  review = some (record {
    reviewer_agent_id = 2;
    reviewer_role = "Reviewer";
    decision = PullRequestReviewDecision.approved;
    head_sha = "aaaa";
    correlation_id = 77;
  });
  approvals =
      approval ApprovalKind.reviewer
      ∷ approval ApprovalKind.qa
      ∷ approval ApprovalKind.security
      ∷ [];
  tests = record { name = "unit"; passed = true; truncated = false; head_sha = "aaaa" } ∷ [];
  branch_mergeable = true;
}

abbrev any_text : String → String → Bool
any_text pattern text = true

passes_all : (evaluate any_text request).decision ≡ MergeGateDecision.pass
unfolding evaluate is_valid_request has_unique_kinds same_kind same_reason reasons_of
passes_all = refl

-- The author as the security approver is refused.
author_blocked :
    (evaluate any_text
      (record request { candidate = record request.candidate { author_agent_id = 4 } })).decision
    ≡ MergeGateDecision.block
unfolding evaluate is_valid_request has_unique_kinds same_kind same_reason reasons_of
author_blocked = refl

evaluate_pass_example :
    ((evaluate any_text request).decision ≡ MergeGateDecision.pass)
    ↔ ((is_valid_request any_text request ≡ true) × IsMergeable request)
evaluate_pass_example = evaluate_pass any_text request
