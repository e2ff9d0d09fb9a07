-- ===== src/Career/Examples.antt =====
-- An agent that does well, and the same agent after an incident.
use synapse_os.Base.{ℕ, ◌≤◌, true, false, [], ◌∷◌, map, any, all, length, arith, ◌≡◌, refl}
use synapse_os.Matching.Matcher.{AgentSeniority}
use synapse_os.Career.Policy.{CareerAction, CareerMetrics, CareerRecommendation, recommend}
use synapse_os.Career.Coherent.{
  advances, cautions, is_valid_recommendation, recommend-advances, recommend-is_valid,
}

abbrev metrics : ℕ → ℕ → CareerMetrics
metrics rate incidents = record {
  seniority = AgentSeniority.engineer;
  autonomy_level = 4;
  success_rate = rate;
  reliability = 9500;
  review_failures = 0;
  high_risk_incidents = incidents;
  calibration_score = 8500;
}

-- A rate of nine tenths is not enough.
nine_tenths : recommend (metrics 9000 0) ≡ []
unfolding recommend
nine_tenths = refl

after_incident :
    map (λ (r : CareerRecommendation). r.action) (recommend (metrics 9500 1))
    ≡ CareerAction.mandatory_review ∷ CareerAction.capability_restriction ∷ CareerAction.mentoring
      ∷ []
unfolding recommend
after_incident = refl

advanced : any advances (recommend (metrics 9500 0)) ≡ true
unfolding recommend
advanced = refl

recommend-advances_example : any cautions (recommend (metrics 9500 0)) ≡ false
recommend-advances_example = recommend-advances (metrics 9500 0) advanced

recommend-is_valid_example :
    (all is_valid_recommendation (recommend (metrics 9500 0)) ≡ true)
    × (length (recommend (metrics 9500 0)) ≤ 8)
recommend-is_valid_example = recommend-is_valid (metrics 9500 0) (omega arith)
