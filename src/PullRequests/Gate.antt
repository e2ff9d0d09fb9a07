-- ===== src/PullRequests/Gate.antt =====
-- `MergeGate.evaluate` of core/pull_requests/gate.py. The set of reasons is the list of those added.
use synapse_os.Base.{
  ℕ, Bool, true, false, ◌||◌, not, List, [], ◌∷◌, Option, none, some, String, str_eq, ◌==◌, map,
  any, if◌then◌else◌,
}
use synapse_os.PullRequests.Types.{
  PullRequestReviewDecision, ApprovalKind, ApprovalDecision, MergeGateDecision, MergeGateReason,
  PullRequestCandidate, PullRequestReviewEvidence, ApprovalEvidence, PullRequestTestEvidence,
  MergeGateRequest, MergeGateResult, is_valid_request, same_kind, same_reason,
}

-- The members of `MergeGateReason` in the order of their definition.
abbrev pub all_reasons : List MergeGateReason
all_reasons =
    MergeGateReason.task_mismatch ∷ MergeGateReason.project_task_mismatch
    ∷ MergeGateReason.author_task_mismatch ∷ MergeGateReason.author_is_reviewer
    ∷ MergeGateReason.reviewer_role_mismatch ∷ MergeGateReason.approver_identity_conflict
    ∷ MergeGateReason.approver_role_mismatch ∷ MergeGateReason.review_not_approved
    ∷ MergeGateReason.reviewer_approval_missing ∷ MergeGateReason.qa_not_passed
    ∷ MergeGateReason.security_blocked ∷ MergeGateReason.tests_not_passed
    ∷ MergeGateReason.branch_not_mergeable ∷ MergeGateReason.stale_evidence ∷ []

-- `if test: reasons.add(reason)`
abbrev pub add : Bool → MergeGateReason → List MergeGateReason → List MergeGateReason
add test reason reasons = if test then reason ∷ reasons else reasons

abbrev pub is_member : List MergeGateReason → MergeGateReason → Bool
is_member reasons reason = any (same_reason reason) reasons

-- `reason for reason in candidates if reason in reasons`
abbrev pub select : List MergeGateReason → List MergeGateReason → List MergeGateReason
select reasons [] = []
select reasons (r ∷ rest) =
    let others = select reasons rest in if is_member reasons r then r ∷ others else others

-- `approvals.get(kind)` of `{approval.kind: approval for ...}`: a later entry replaces an earlier.
abbrev pub get_approval : ApprovalKind → List ApprovalEvidence → Option ApprovalEvidence
get_approval kind [] = none
get_approval kind (a ∷ rest) = elim (get_approval kind rest) [
  | some b ↦ some b
  | none ↦ if same_kind a.kind kind then some a else none
]

abbrev pub expected_role : ApprovalKind → String
expected_role ApprovalKind.reviewer = "Reviewer"
expected_role ApprovalKind.qa = "QA"
expected_role ApprovalKind.security = "Security"

abbrev pub is_approved : ApprovalDecision → Bool
is_approved ApprovalDecision.approved = true
is_approved _ = false

abbrev pub is_review_approved : PullRequestReviewDecision → Bool
is_review_approved PullRequestReviewDecision.approved = true
is_review_approved _ = false

-- `approval is None or approval.decision is not ApprovalDecision.APPROVED`
abbrev pub is_missing : Option ApprovalEvidence → Bool
is_missing none = true
is_missing (some a) = not (is_approved a.decision)

-- The reviewer's approval must be the one of the review.
abbrev pub is_reviewer_missing : Option ApprovalEvidence → Option PullRequestReviewEvidence → Bool
is_reviewer_missing none review = true
is_reviewer_missing (some a) none = true
is_reviewer_missing (some a) (some r) =
    not (is_approved a.decision) || not (a.approver_agent_id == r.reviewer_agent_id)

abbrev pub is_stale_approval : PullRequestCandidate → ApprovalEvidence → Bool
is_stale_approval c a =
    not (str_eq a.head_sha c.head_sha) || not (a.correlation_id == c.correlation_id)

abbrev pub is_stale_review : PullRequestCandidate → Option PullRequestReviewEvidence → Bool
is_stale_review c none = false
is_stale_review c (some r) =
    not (str_eq r.head_sha c.head_sha) || not (r.correlation_id == c.correlation_id)

-- `len(set(ids)) != len(ids)`
abbrev pub has_duplicates : List ℕ → Bool
has_duplicates [] = false
has_duplicates (x ∷ xs) = any (λ y. x == y) xs || has_duplicates xs

abbrev pub is_self_review : PullRequestCandidate → Option PullRequestReviewEvidence → Bool
is_self_review c none = false
is_self_review c (some r) = r.reviewer_agent_id == c.author_agent_id

abbrev pub is_wrong_role : Option PullRequestReviewEvidence → Bool
is_wrong_role none = false
is_wrong_role (some r) = not (str_eq r.reviewer_role "Reviewer")

abbrev pub is_not_approved : Option PullRequestReviewEvidence → Bool
is_not_approved none = false
is_not_approved (some r) = not (is_review_approved r.decision)

abbrev pub is_none : Option PullRequestReviewEvidence → Bool
is_none none = true
is_none (some r) = false

abbrev pub no_tests : List PullRequestTestEvidence → Bool
no_tests [] = true
no_tests (t ∷ rest) = false

-- The reasons that a canonical request gives.
unfoldable pub reasons_of : MergeGateRequest → List MergeGateReason
reasons_of r =
    let c = r.candidate in
    let ids = map (λ a. a.approver_agent_id) r.approvals in
    add (not (r.expected_task_id == c.task_id)) MergeGateReason.task_mismatch (
      add (is_none r.review) MergeGateReason.review_not_approved (
        add (is_self_review c r.review) MergeGateReason.author_is_reviewer (
          add (is_wrong_role r.review) MergeGateReason.reviewer_role_mismatch (
            add (is_not_approved r.review) MergeGateReason.review_not_approved (
              add (not r.branch_mergeable) MergeGateReason.branch_not_mergeable (
                add (no_tests r.tests || any (λ t. not t.passed || t.truncated) r.tests)
                  MergeGateReason.tests_not_passed
                  (add
                    (is_reviewer_missing (get_approval ApprovalKind.reviewer r.approvals) r.review)
                    MergeGateReason.reviewer_approval_missing
                    (add (is_missing (get_approval ApprovalKind.qa r.approvals))
                      MergeGateReason.qa_not_passed
                      (add (is_missing (get_approval ApprovalKind.security r.approvals))
                        MergeGateReason.security_blocked
                        (add
                          (any (λ a. not (str_eq a.approver_role (expected_role a.kind)))
                            r.approvals)
                          MergeGateReason.approver_role_mismatch
                          (add
                            (any (is_stale_approval c) r.approvals
                              || any (λ t. not (str_eq t.head_sha c.head_sha)) r.tests
                              || is_stale_review c r.review)
                            MergeGateReason.stale_evidence
                            (add (any (λ i. c.author_agent_id == i) ids || has_duplicates ids)
                              MergeGateReason.approver_identity_conflict []))))))))))))

abbrev pub result_of : List MergeGateReason → MergeGateResult
result_of [] = record { decision = MergeGateDecision.pass; reasons = [] }
result_of (r ∷ rest) = record { decision = MergeGateDecision.block; reasons = r ∷ rest }

-- `evaluate`
unfoldable pub evaluate : (String → String → Bool) → MergeGateRequest → MergeGateResult
evaluate matches request =
    if is_valid_request matches request
    then result_of (select (reasons_of request) all_reasons)
    else record {
      decision = MergeGateDecision.block;
      reasons = MergeGateReason.stale_evidence ∷ [];
    }
