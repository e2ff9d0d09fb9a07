-- ===== src/Career/Policy.antt =====
-- `CareerAutonomyPolicyEngine` of core/career/policy.py, with the values of core/career/types.py.
-- Scores, which are decimals without a bound on their digits, are numbers of ten-thousandths, and finer
-- ones are left out, as are texts of reasons and evidence.
use synapse_os.Base.{
  ℕ, ◌+◌, ◌-◌, Bool, true, false, ◌&&◌, ◌||◌, ◌==◌, ltb, leb, List, [], ◌∷◌, ◌++◌, Option, none,
  some,
}
use synapse_os.Matching.Matcher.{AgentSeniority, seniority_rank}

pub data CareerAction : Type 0 where
  promotion demotion autonomy_increase autonomy_reduction mandatory_review capability_restriction
        mentoring :
      CareerAction

pub record CareerMetrics : Type 0 where
  pub seniority : AgentSeniority
  pub autonomy_level : ℕ
  pub success_rate : ℕ
  pub reliability : ℕ
  pub review_failures : ℕ
  pub high_risk_incidents : ℕ
  pub calibration_score : ℕ

pub record CareerRecommendation : Type 0 where
  pub action : CareerAction
  pub proposed_seniority : Option AgentSeniority
  pub proposed_autonomy_level : Option ℕ

-- `_ORDER[current_index + 1]`, of an index in range.
abbrev pub seniority_above : AgentSeniority → AgentSeniority
seniority_above AgentSeniority.trainee = AgentSeniority.junior
seniority_above AgentSeniority.junior = AgentSeniority.engineer
seniority_above AgentSeniority.engineer = AgentSeniority.senior
seniority_above AgentSeniority.senior = AgentSeniority.staff
seniority_above _ = AgentSeniority.principal

-- `_ORDER[max(0, current_index - 1)]`
abbrev pub seniority_below : AgentSeniority → AgentSeniority
seniority_below AgentSeniority.principal = AgentSeniority.staff
seniority_below AgentSeniority.staff = AgentSeniority.senior
seniority_below AgentSeniority.senior = AgentSeniority.engineer
seniority_below AgentSeniority.engineer = AgentSeniority.junior
seniority_below _ = AgentSeniority.trainee

-- A score is compared with the binary fraction that `0.90` stands for, which is a little more than
-- nine tenths, so that a score of nine tenths is not enough; that of `0.85` and that of `0.60` are a
-- little less than the decimals.
abbrev pub is_strong : CareerMetrics → Bool
is_strong m =
    ltb 9000 m.success_rate
    && ltb 9000 m.reliability
    && leb 8500 m.calibration_score
    && m.review_failures == 0
    && m.high_risk_incidents == 0

abbrev pub is_weak : CareerMetrics → Bool
is_weak m = ltb m.success_rate 6000 || ltb m.reliability 6000

abbrev pub has_incident : CareerMetrics → Bool
has_incident m = ltb 0 m.high_risk_incidents

abbrev pub plain : CareerAction → CareerRecommendation
plain action = record { action = action; proposed_seniority = none; proposed_autonomy_level = none }

abbrev pub with_seniority : CareerAction → AgentSeniority → CareerRecommendation
with_seniority action s = record {
  action = action;
  proposed_seniority = some s;
  proposed_autonomy_level = none;
}

abbrev pub with_autonomy : CareerAction → ℕ → CareerRecommendation
with_autonomy action level = record {
  action = action;
  proposed_seniority = none;
  proposed_autonomy_level = some level;
}

-- The recommendations, if the condition holds.
abbrev pub append_if : Bool → List CareerRecommendation → List CareerRecommendation
append_if true recommendations = recommendations
append_if false recommendations = []

-- `recommend`
unfoldable pub recommend : CareerMetrics → List CareerRecommendation
recommend m =
    append_if (is_strong m && ltb (seniority_rank m.seniority) 5)
      (with_seniority CareerAction.promotion (seniority_above m.seniority) ∷ [])
    ++ (append_if (is_strong m && ltb m.autonomy_level 5)
          (with_autonomy CareerAction.autonomy_increase (m.autonomy_level + 1) ∷ [])
        ++ (append_if (is_weak m) (
              with_seniority CareerAction.demotion (seniority_below m.seniority)
              ∷ with_autonomy CareerAction.autonomy_reduction (m.autonomy_level - 1)
              ∷ [])
            ++ (append_if (has_incident m || ltb 0 m.review_failures) (
                  plain CareerAction.mandatory_review
                  ∷ plain CareerAction.capability_restriction
                  ∷ [])
                ++ append_if (is_weak m || has_incident m) (plain CareerAction.mentoring ∷ []))))
