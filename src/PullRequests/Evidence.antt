-- ===== src/PullRequests/Evidence.antt =====
-- The gate's tests on the parts of the evidence, read as what they ask.
use synapse_os.Base.{
  Bool, true, false, ◌||◌, not, List, [], ◌∷◌, Option, none, some, String, str_eq, eq_iff, ◌==◌,
  ==_iff, map, any, All, ◌≡◌, ◌≢◌, ◌↔◌, refl, sym, arith, ||_false,
}
use synapse_os.PullRequests.Types.{
  PullRequestReviewDecision, ApprovalDecision, PullRequestCandidate, PullRequestReviewEvidence,
  ApprovalEvidence, PullRequestTestEvidence,
}
use synapse_os.PullRequests.Gate.{
  expected_role, is_approved, is_missing, is_reviewer_missing, is_stale_approval, is_stale_review,
  is_self_review, is_wrong_role, is_not_approved, is_none, no_tests, is_review_approved,
}

-- Someone other than the author reviewed the head of the branch and approved it.
pub record IsReviewed (c : PullRequestCandidate) (r : PullRequestReviewEvidence) : Type 0 where
  pub independent : r.reviewer_agent_id ≢ c.author_agent_id
  pub role : r.reviewer_role ≡ "Reviewer"
  pub approved : r.decision ≡ PullRequestReviewDecision.approved
  pub fresh : r.head_sha ≡ c.head_sha
  pub correlated : r.correlation_id ≡ c.correlation_id

-- The approval is of the branch's head, by someone in its role who is not the author.
pub record IsFit (c : PullRequestCandidate) (a : ApprovalEvidence) : Type 0 where
  pub independent : a.approver_agent_id ≢ c.author_agent_id
  pub role : a.approver_role ≡ expected_role a.kind
  pub fresh : a.head_sha ≡ c.head_sha
  pub correlated : a.correlation_id ≡ c.correlation_id

pub record IsGreen (c : PullRequestCandidate) (t : PullRequestTestEvidence) : Type 0 where
  pub passed : t.passed ≡ true
  pub complete : t.truncated ≡ false
  pub fresh : t.head_sha ≡ c.head_sha

-- There is an approval, it approves, and it has the property.
abbrev pub Approves : Option ApprovalEvidence → (ApprovalEvidence → Type 0) → Type 0
Approves o P =
    (a : ApprovalEvidence) × (o ≡ some a) × (a.decision ≡ ApprovalDecision.approved) × P a

pub not-false : (b : Bool) → not b ≡ false → b ≡ true
not-false b h = ground arith

same_text : (s t : String) → not (str_eq s t) ≡ false → s ≡ t
same_text s t h = (eq_iff s t).0 (not-false (str_eq s t) h)

text_same : (s t : String) → s ≡ t → not (str_eq s t) ≡ false
text_same s t h = rw ((eq_iff s t).1 h) refl

approved_decision :
    (d : ApprovalDecision) → not (is_approved d) ≡ false → d ≡ ApprovalDecision.approved
approved_decision ApprovalDecision.approved h = refl
approved_decision ApprovalDecision.rejected h = absurd (cc)
approved_decision ApprovalDecision.blocked h = absurd (cc)

approved_review :
    (d : PullRequestReviewDecision)
    → not (is_review_approved d) ≡ false
    → d ≡ PullRequestReviewDecision.approved
approved_review PullRequestReviewDecision.approved h = refl
approved_review PullRequestReviewDecision.changes_requested h = absurd (cc)

is_missing-approves : (o : Option ApprovalEvidence) → Approves o (λ _. Unit) → is_missing o ≡ false
is_missing-approves o (a, e, d, u) = rw (e, d) refl

pub missing_iff : (o : Option ApprovalEvidence) → (is_missing o ≡ false) ↔ Approves o (λ _. Unit)
missing_iff none = ((λ h. absurd (cc)), (λ h. absurd (cc (h.1))))
missing_iff (some a) =
    ((λ h. (a, refl, approved_decision a.decision h, tt)), (λ h. is_missing-approves (some a) h))

-- The six tests on the review.
pub record IsReviewClear (c : PullRequestCandidate) (o : Option PullRequestReviewEvidence)
    (a : Option ApprovalEvidence) : Type 0 where
  pub given : is_none o ≡ false
  pub independent : is_self_review c o ≡ false
  pub role : is_wrong_role o ≡ false
  pub approved : is_not_approved o ≡ false
  pub fresh : is_stale_review c o ≡ false
  pub approval : is_reviewer_missing a o ≡ false

abbrev pub Reviewed :
    PullRequestCandidate → Option PullRequestReviewEvidence → Option ApprovalEvidence → Type 0
Reviewed c o a =
    (v : PullRequestReviewEvidence) × (o ≡ some v)
    × IsReviewed c v
    × Approves a (λ b. b.approver_agent_id ≡ v.reviewer_agent_id)

review_clear :
    (c : PullRequestCandidate) (o : Option PullRequestReviewEvidence) (a : Option ApprovalEvidence)
    → IsReviewClear c o a
    → Reviewed c o a
review_clear c none a w = absurd (cc (w.given))
review_clear c (some v) none w = absurd (cc (w.approval))
review_clear c (some v) (some b) w =
    let both = ||_false _ _ w.approval in
    let stale = ||_false _ _ w.fresh in
    (
      v,
      refl,
      record {
        independent = λ e. cc (w.independent, (==_iff v.reviewer_agent_id c.author_agent_id).1 e);
        role = same_text v.reviewer_role "Reviewer" w.role;
        approved = approved_review v.decision w.approved;
        fresh = same_text v.head_sha c.head_sha stale.0;
        correlated = (==_iff _ _).0 (not-false _ stale.1);
      },
      (b, refl, approved_decision b.decision both.0, (==_iff _ _).0 (not-false _ both.1)),
    )

clear_review :
    (c : PullRequestCandidate) (o : Option PullRequestReviewEvidence) (a : Option ApprovalEvidence)
    → Reviewed c o a
    → IsReviewClear c o a
clear_review c o a (v, ov, w, (b, ab, d, same)) =
    rw (ov, ab)
      (record {
        given = refl;
        independent = ground (arith, w.independent);
        role = text_same v.reviewer_role "Reviewer" w.role;
        approved = rw (w.approved) refl;
        fresh =
            rw
              (
                text_same v.head_sha c.head_sha w.fresh,
                (==_iff v.correlation_id c.correlation_id).1 w.correlated,
              )
              refl;
        approval = rw (d, (==_iff b.approver_agent_id v.reviewer_agent_id).1 same) refl;
      })

-- The tests on the review say that it is an independent approval of the head.
pub review_iff :
    (c : PullRequestCandidate) (o : Option PullRequestReviewEvidence) (a : Option ApprovalEvidence)
    → IsReviewClear c o a ↔ Reviewed c o a
review_iff c o a = (review_clear c o a, clear_review c o a)

-- The three tests on the approvals.
pub record AreApprovalsClear (c : PullRequestCandidate) (xs : List ApprovalEvidence) : Type 0 where
  pub roles : any (λ a. not (str_eq a.approver_role (expected_role a.kind))) xs ≡ false
  pub fresh : any (is_stale_approval c) xs ≡ false
  pub identities : any (λ i. c.author_agent_id == i) (map (λ a. a.approver_agent_id) xs) ≡ false

approvals_clear :
    (c : PullRequestCandidate) (xs : List ApprovalEvidence)
    → AreApprovalsClear c xs
    → All (IsFit c) xs
approvals_clear c [] w = tt
approvals_clear c (x ∷ xs) w =
    let role = ||_false _ _ w.roles in
    let fresh = ||_false _ _ w.fresh in
    let stale = ||_false _ _ fresh.0 in
    let other = ||_false (c.author_agent_id == x.approver_agent_id) _ w.identities in
    (
      record {
        independent = λ e. cc (other.0, (==_iff c.author_agent_id x.approver_agent_id).1 (sym e));
        role = same_text _ _ role.0;
        fresh = same_text _ _ stale.0;
        correlated = (==_iff _ _).0 (not-false _ stale.1);
      },
      approvals_clear c xs (record { roles = role.1; fresh = fresh.1; identities = other.1 }),
    )

clear_approvals :
    (c : PullRequestCandidate) (xs : List ApprovalEvidence)
    → All (IsFit c) xs
    → AreApprovalsClear c xs
clear_approvals c [] w = record { roles = refl; fresh = refl; identities = refl }
clear_approvals c (x ∷ xs) (f, rest) =
    let w = clear_approvals c xs rest in
    record {
      roles = rw (text_same x.approver_role (expected_role x.kind) f.role) w.roles;
      fresh =
          rw
            (
              text_same x.head_sha c.head_sha f.fresh,
              (==_iff x.correlation_id c.correlation_id).1 f.correlated,
            )
            w.fresh;
      identities = ground (arith, f.independent, w.identities);
    }

-- The tests on the approvals say that each is fit.
pub approvals_iff :
    (c : PullRequestCandidate) (xs : List ApprovalEvidence)
    → AreApprovalsClear c xs ↔ All (IsFit c) xs
approvals_iff c xs = (approvals_clear c xs, clear_approvals c xs)

-- The tests on the tests' results.
pub record AreTestsClear (c : PullRequestCandidate) (xs : List PullRequestTestEvidence)
    : Type 0 where
  pub passed : any (λ t. not t.passed || t.truncated) xs ≡ false
  pub fresh : any (λ t. not (str_eq t.head_sha c.head_sha)) xs ≡ false

tests_clear :
    (c : PullRequestCandidate) (xs : List PullRequestTestEvidence)
    → AreTestsClear c xs
    → All (IsGreen c) xs
tests_clear c [] w = tt
tests_clear c (x ∷ xs) w =
    let passed = ||_false _ _ w.passed in
    let green = ||_false _ _ passed.0 in
    let fresh = ||_false _ _ w.fresh in
    (
      record { passed = not-false _ green.0; complete = green.1; fresh = same_text _ _ fresh.0 },
      tests_clear c xs (record { passed = passed.1; fresh = fresh.1 }),
    )

clear_tests :
    (c : PullRequestCandidate) (xs : List PullRequestTestEvidence)
    → All (IsGreen c) xs
    → AreTestsClear c xs
clear_tests c [] w = record { passed = refl; fresh = refl }
clear_tests c (x ∷ xs) (g, rest) =
    let w = clear_tests c xs rest in
    record {
      passed = rw (g.passed, g.complete) w.passed;
      fresh = rw (text_same x.head_sha c.head_sha g.fresh) w.fresh;
    }

pub tests_iff :
    (c : PullRequestCandidate) (xs : List PullRequestTestEvidence)
    → AreTestsClear c xs ↔ All (IsGreen c) xs
tests_iff c xs = (tests_clear c xs, clear_tests c xs)

pub no_tests_iff : (xs : List PullRequestTestEvidence) → (no_tests xs ≡ false) ↔ (xs ≢ [])
no_tests_iff [] = ((λ h. absurd (cc)), (λ h. absurd (h refl)))
no_tests_iff (x ∷ xs) = ((λ h e. cc), (λ h. refl))
