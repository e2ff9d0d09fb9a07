-- ===== src/PullRequests/Mergeable.antt =====
-- What the merge gate of core/pull_requests/gate.py asks of the evidence.
use synapse_os.Base.{
  Bool, true, false, ◌||◌, not, List, [], ◌∷◌, String, str_eq, ◌==◌, ==_iff, map, any, All,
  if◌then◌else◌, ◌≡◌, ◌≢◌, ◌↔◌, refl, arith, Bool-cases, ||_false, inl, inr, subst,
}
use synapse_os.PullRequests.Types.{
  ApprovalKind, MergeGateDecision, MergeGateReason, MergeGateRequest, is_valid_request, same_reason,
  same_reason_iff,
}
use synapse_os.PullRequests.Evidence.{
  IsFit, IsGreen, Approves, Reviewed, not-false, missing_iff, review_iff, approvals_iff, tests_iff,
  no_tests_iff,
}
use synapse_os.PullRequests.Gate.{
  all_reasons, add, is_member, select, get_approval, expected_role, is_missing, is_reviewer_missing,
  is_stale_approval, is_stale_review, has_duplicates, is_self_review, is_wrong_role,
  is_not_approved, is_none, no_tests, reasons_of, result_of, evaluate,
}

add_empty :
    (b : Bool) (r : MergeGateReason) (rest : List MergeGateReason)
    → add b r rest ≡ []
    → (b ≡ false) × (rest ≡ [])
add_empty b r rest h = ground arith

select_none : (candidates : List MergeGateReason) → select [] candidates ≡ []
select_none [] = refl
select_none (r ∷ rest) = select_none rest

cons_select :
    (reasons : List MergeGateReason) (q : MergeGateReason) (rest : List MergeGateReason)
    → is_member reasons q ≡ true
    → select reasons (q ∷ rest) ≢ []
cons_select reasons q rest m h = ground arith

tail_select :
    (reasons : List MergeGateReason) (q : MergeGateReason) (rest : List MergeGateReason)
    → select reasons (q ∷ rest) ≡ []
    → select reasons rest ≡ []
tail_select reasons q rest h = ground arith

select_empty :
    (reasons candidates : List MergeGateReason) (r : MergeGateReason)
    → select reasons candidates ≡ []
    → is_member reasons r ≡ true
    → is_member candidates r ≡ false
select_empty reasons [] r h m = refl
select_empty reasons (q ∷ rest) r h m = elim (Bool-cases (same_reason r q)) [
  | inl e ↦
      let mq : is_member reasons q ≡ true =
        subst (λ x. is_member reasons x ≡ true) ((same_reason_iff r q).0 e) m in
      absurd (cons_select reasons q rest mq h)
  | inr e ↦ rw (e) (select_empty reasons rest r (tail_select reasons q rest h) m)
]

all_reasons-total : (r : MergeGateReason) → is_member all_reasons r ≡ true
unfolding same_reason
all_reasons-total MergeGateReason.task_mismatch = refl
all_reasons-total MergeGateReason.project_task_mismatch = refl
all_reasons-total MergeGateReason.author_task_mismatch = refl
all_reasons-total MergeGateReason.author_is_reviewer = refl
all_reasons-total MergeGateReason.reviewer_role_mismatch = refl
all_reasons-total MergeGateReason.approver_identity_conflict = refl
all_reasons-total MergeGateReason.approver_role_mismatch = refl
all_reasons-total MergeGateReason.review_not_approved = refl
all_reasons-total MergeGateReason.reviewer_approval_missing = refl
all_reasons-total MergeGateReason.qa_not_passed = refl
all_reasons-total MergeGateReason.security_blocked = refl
all_reasons-total MergeGateReason.tests_not_passed = refl
all_reasons-total MergeGateReason.branch_not_mergeable = refl
all_reasons-total MergeGateReason.stale_evidence = refl

member_here : (r : MergeGateReason) (rest : List MergeGateReason) → is_member (r ∷ rest) r ≡ true
member_here r rest = rw ((same_reason_iff r r).1 refl) refl

ordered_empty : (reasons : List MergeGateReason) → select reasons all_reasons ≡ [] → reasons ≡ []
ordered_empty [] h = refl
ordered_empty (r ∷ rest) h =
    let out = select_empty (r ∷ rest) all_reasons r h (member_here r rest) in
    absurd (cc (out, all_reasons-total r))

-- What a merge needs: the task is the expected one; someone other than the author, in the role of
-- reviewer, approved the head of the branch, and the reviewer's approval is theirs; QA and security
-- approved; every approval is of the head, by someone in its role who is not the author; no two
-- approvals are by the same agent; there are tests, and each passed in full on the head; and the
-- branch merges.
pub record IsMergeable (r : MergeGateRequest) : Type 0 where
  pub task : r.expected_task_id ≡ r.candidate.task_id
  pub reviewed : Reviewed r.candidate r.review (get_approval ApprovalKind.reviewer r.approvals)
  pub qa : Approves (get_approval ApprovalKind.qa r.approvals) (λ _. Unit)
  pub security : Approves (get_approval ApprovalKind.security r.approvals) (λ _. Unit)
  pub approvals : All (IsFit r.candidate) r.approvals
  pub distinct : has_duplicates (map (λ a. a.approver_agent_id) r.approvals) ≡ false
  pub tested : r.tests ≢ []
  pub tests : All (IsGreen r.candidate) r.tests
  pub mergeable : r.branch_mergeable ≡ true

-- Every test of the gate fails.
record IsClear (r : MergeGateRequest) : Type 0 where
  task : not (r.expected_task_id == r.candidate.task_id) ≡ false
  reviewed : is_none r.review ≡ false
  self_review : is_self_review r.candidate r.review ≡ false
  review_role : is_wrong_role r.review ≡ false
  review_approved : is_not_approved r.review ≡ false
  branch : not r.branch_mergeable ≡ false
  tests : (no_tests r.tests || any (λ t. not t.passed || t.truncated) r.tests) ≡ false
  reviewer : is_reviewer_missing (get_approval ApprovalKind.reviewer r.approvals) r.review ≡ false
  qa : is_missing (get_approval ApprovalKind.qa r.approvals) ≡ false
  security : is_missing (get_approval ApprovalKind.security r.approvals) ≡ false
  roles : any (λ a. not (str_eq a.approver_role (expected_role a.kind))) r.approvals ≡ false
  fresh :
      (any (is_stale_approval r.candidate) r.approvals
        || any (λ t. not (str_eq t.head_sha r.candidate.head_sha)) r.tests
        || is_stale_review r.candidate r.review)
      ≡ false
  identities :
      (any (λ i. r.candidate.author_agent_id == i) (map (λ a. a.approver_agent_id) r.approvals)
        || has_duplicates (map (λ a. a.approver_agent_id) r.approvals))
      ≡ false

reasons_of-IsClear : (r : MergeGateRequest) → reasons_of r ≡ [] → IsClear r
unfolding reasons_of
reasons_of-IsClear r h =
    let s1 = add_empty _ _ _ h in
    let s2 = add_empty _ _ _ s1.1 in
    let s3 = add_empty _ _ _ s2.1 in
    let s4 = add_empty _ _ _ s3.1 in
    let s5 = add_empty _ _ _ s4.1 in
    let s6 = add_empty _ _ _ s5.1 in
    let s7 = add_empty _ _ _ s6.1 in
    let s8 = add_empty _ _ _ s7.1 in
    let s9 = add_empty _ _ _ s8.1 in
    let s10 = add_empty _ _ _ s9.1 in
    let s11 = add_empty _ _ _ s10.1 in
    let s12 = add_empty _ _ _ s11.1 in
    let s13 = add_empty _ _ _ s12.1 in
    record {
      task = s1.0;
      reviewed = s2.0;
      self_review = s3.0;
      review_role = s4.0;
      review_approved = s5.0;
      branch = s6.0;
      tests = s7.0;
      reviewer = s8.0;
      qa = s9.0;
      security = s10.0;
      roles = s11.0;
      fresh = s12.0;
      identities = s13.0;
    }

clear_reasons : (r : MergeGateRequest) → IsClear r → reasons_of r ≡ []
unfolding reasons_of
clear_reasons r w =
    rw
      (
        w.task, w.reviewed, w.self_review, w.review_role, w.review_approved, w.branch, w.tests,
        w.reviewer, w.qa, w.security, w.roles, w.fresh, w.identities,
      )
      refl

IsClear-IsMergeable : (r : MergeGateRequest) → IsClear r → IsMergeable r
IsClear-IsMergeable r w =
    let tests = ||_false _ _ w.tests in
    let fresh = ||_false _ _ w.fresh in
    let others = ||_false _ _ fresh.0 in
    let identities = ||_false _ _ w.identities in
    record {
      task = (==_iff _ _).0 (not-false _ w.task);
      reviewed =
          (review_iff r.candidate r.review (get_approval ApprovalKind.reviewer r.approvals)).0
            (record {
              given = w.reviewed;
              independent = w.self_review;
              role = w.review_role;
              approved = w.review_approved;
              fresh = fresh.1;
              approval = w.reviewer;
            });
      qa = (missing_iff _).0 w.qa;
      security = (missing_iff _).0 w.security;
      approvals =
          (approvals_iff r.candidate r.approvals).0
            (record { roles = w.roles; fresh = others.0; identities = identities.0 });
      distinct = identities.1;
      tested = (no_tests_iff r.tests).0 tests.0;
      tests = (tests_iff r.candidate r.tests).0 (record { passed = tests.1; fresh = others.1 });
      mergeable = not-false _ w.branch;
    }

IsMergeable-IsClear : (r : MergeGateRequest) → IsMergeable r → IsClear r
IsMergeable-IsClear r w =
    let v =
      (review_iff r.candidate r.review (get_approval ApprovalKind.reviewer r.approvals)).1
        w.reviewed in
    let a = (approvals_iff r.candidate r.approvals).1 w.approvals in
    let t = (tests_iff r.candidate r.tests).1 w.tests in
    record {
      task = rw ((==_iff r.expected_task_id r.candidate.task_id).1 w.task) refl;
      reviewed = v.given;
      self_review = v.independent;
      review_role = v.role;
      review_approved = v.approved;
      branch = rw (w.mergeable) refl;
      tests = rw ((no_tests_iff r.tests).1 w.tested) t.passed;
      reviewer = v.approval;
      qa = (missing_iff _).1 w.qa;
      security = (missing_iff _).1 w.security;
      roles = a.roles;
      fresh = rw (a.fresh, t.fresh) v.fresh;
      identities = rw (a.identities) w.distinct;
    }

ordered_pass :
    (reasons : List MergeGateReason)
    → ((result_of reasons).decision ≡ MergeGateDecision.pass) ↔ (reasons ≡ [])
ordered_pass [] = ((λ _. refl), (λ _. refl))
ordered_pass (r ∷ rest) = ((λ h. absurd (cc)), (λ h. absurd (cc)))

-- The gate passes exactly the requests that are valid and that carry all that a merge needs.
pub evaluate_pass :
    (matches : String → String → Bool) (r : MergeGateRequest)
    → ((evaluate matches r).decision ≡ MergeGateDecision.pass)
      ↔ ((is_valid_request matches r ≡ true) × IsMergeable r)
unfolding evaluate
evaluate_pass matches r = elim (Bool-cases (is_valid_request matches r)) [
  | inl valid ↦
      rw (valid, if◌then◌else◌)
        (
          (λ h. (
            refl,
            IsClear-IsMergeable r (
                reasons_of-IsClear r (
                  ordered_empty (reasons_of r)
                    ((ordered_pass (select (reasons_of r) all_reasons)).0 h))),
          )),
          (λ (_, w).
              (ordered_pass (select (reasons_of r) all_reasons)).1
                (rw (clear_reasons r (IsMergeable-IsClear r w)) (select_none all_reasons))),
        )
  | inr invalid ↦ rw (invalid, if◌then◌else◌) ((λ h. absurd (cc)), (λ (e, _). absurd (cc)))
]
