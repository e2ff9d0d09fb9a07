-- ===== src/PullRequests/Types.antt =====
-- core/pull_requests/types.py: the evidence of a merge and the gate's result. An identifier (a UUID)
-- is a number. The candidate's confidence, which the gate does not read, is left out.
use synapse_os.Base.{
  ℕ, Bool, true, ◌&&◌, not, List, [], ◌∷◌, Option, none, some, String, leb, length, same, same_iff,
  all, any, ◌≡◌, ◌↔◌,
}
use Prim.Native.String

pub data PullRequestReviewDecision : Type 0 where
  approved changes_requested : PullRequestReviewDecision

pub data ApprovalKind : Type 0 where
  reviewer qa security : ApprovalKind

pub data ApprovalDecision : Type 0 where
  approved rejected blocked : ApprovalDecision

pub data MergeGateDecision : Type 0 where
  pass block : MergeGateDecision

pub data MergeGateReason : Type 0 where
  task_mismatch project_task_mismatch author_task_mismatch author_is_reviewer reviewer_role_mismatch
        approver_identity_conflict approver_role_mismatch review_not_approved
        reviewer_approval_missing qa_not_passed security_blocked tests_not_passed
        branch_not_mergeable stale_evidence :
      MergeGateReason

ApprovalKind-discrete : Discrete ApprovalKind
ApprovalKind-discrete = hlevel

MergeGateReason-discrete : Discrete MergeGateReason
MergeGateReason-discrete = hlevel

unfoldable pub same_kind : ApprovalKind → ApprovalKind → Bool
unfolding ApprovalKind-discrete
same_kind a b = same ApprovalKind-discrete a b

unfoldable pub same_reason : MergeGateReason → MergeGateReason → Bool
unfolding MergeGateReason-discrete
same_reason a b = same MergeGateReason-discrete a b

pub same_kind_iff : (a b : ApprovalKind) → (same_kind a b ≡ true) ↔ (a ≡ b)
unfolding same_kind
same_kind_iff a b = same_iff ApprovalKind-discrete a b

pub same_reason_iff : (a b : MergeGateReason) → (same_reason a b ≡ true) ↔ (a ≡ b)
unfolding same_reason
same_reason_iff a b = same_iff MergeGateReason-discrete a b

pub record PullRequestCandidate : Type 0 where
  pub pull_request_id : ℕ
  pub project_id : ℕ
  pub task_id : ℕ
  pub author_agent_id : ℕ
  pub head_sha : String
  pub correlation_id : ℕ

pub record PullRequestReviewEvidence : Type 0 where
  pub reviewer_agent_id : ℕ
  pub reviewer_role : String
  pub decision : PullRequestReviewDecision
  pub head_sha : String
  pub correlation_id : ℕ

pub record ApprovalEvidence : Type 0 where
  pub kind : ApprovalKind
  pub approver_agent_id : ℕ
  pub approver_role : String
  pub decision : ApprovalDecision
  pub head_sha : String
  pub correlation_id : ℕ

pub record PullRequestTestEvidence : Type 0 where
  pub name : String
  pub passed : Bool
  pub truncated : Bool
  pub head_sha : String

pub record MergeGateRequest : Type 0 where
  pub expected_task_id : ℕ
  pub candidate : PullRequestCandidate
  pub review : Option PullRequestReviewEvidence
  pub approvals : List ApprovalEvidence
  pub tests : List PullRequestTestEvidence
  pub branch_mergeable : Bool

pub record MergeGateResult : Type 0 where
  pub decision : MergeGateDecision
  pub reasons : List MergeGateReason

-- `len({approval.kind for ...}) == len(...)`: no kind occurs twice.
unfoldable pub has_unique_kinds : List ApprovalEvidence → Bool
has_unique_kinds [] = true
has_unique_kinds (a ∷ rest) = not (any (λ b. same_kind a.kind b.kind) rest) && has_unique_kinds rest

-- What validating a request again checks; `matches` is the test of a text against a pattern.
module _ (matches : String → String → Bool) where
  abbrev is_sha : String → Bool
  is_sha = matches "^[0-9a-f]{40,64}$"

  abbrev is_role : String → Bool
  is_role role = leb 1 (String.count role) && leb (String.count role) 64

  abbrev is_valid_review : Option PullRequestReviewEvidence → Bool
  is_valid_review none = true
  is_valid_review (some r) = is_role r.reviewer_role && is_sha r.head_sha

  unfoldable pub is_valid_request : MergeGateRequest → Bool
  unfolding has_unique_kinds
  is_valid_request r =
      is_sha r.candidate.head_sha
      && is_valid_review r.review
      && leb (length r.approvals) 3
      && all (λ a. is_role a.approver_role && is_sha a.head_sha) r.approvals
      && leb (length r.tests) 32
      && all (λ t. matches "^[a-z0-9][a-z0-9._:-]{0,127}$" t.name && is_sha t.head_sha) r.tests
      && has_unique_kinds r.approvals
