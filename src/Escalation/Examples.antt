-- ===== src/Escalation/Examples.antt =====
-- An agent that is unsure about a risky change.
use synapse_os.Base.{ℕ, true, false, List, [], ◌∷◌, ◌++◌, some, Result, ok, ◌≡◌, ◌↔◌, refl}
use synapse_os.Enums.{ToolRiskLevel}
use synapse_os.Escalation.Engine.{
  EscalationTarget, EscalationTrigger, EscalationRequest, EscalationAction, EscalationAuditEvent,
  EscalationResult, trigger_rules, condition, first_trigger, action_of, event_of, emit,
  evaluate_escalation,
}
use synapse_os.Escalation.Emitted.{
  target_of, IsMostUrgent, first_trigger_iff, IsEmitted, evaluate_escalation-IsEmitted,
}

abbrev unsure : EscalationRequest
unsure = record {
  project_id = 1;
  task_id = 2;
  agent_id = 3;
  confidence = 4000;
  minimum_confidence = 7000;
  expertise = 8000;
  required_expertise = 6000;
  permission_denied = true;
  permission_denial_is_critical = false;
  iterations = 3;
  max_iterations = 10;
  contradiction_unresolved = false;
  irreversible_decision = false;
  risk_level = ToolRiskLevel.high;
}

-- The sinks keep what they are given.
abbrev record_event :
    EscalationAuditEvent
    → List EscalationAuditEvent × List EscalationAction
    → Result ℕ (Unit {0}) × (List EscalationAuditEvent × List EscalationAction)
record_event e w = (ok tt, (w.0 ++ e ∷ [], w.1))

abbrev create :
    EscalationAction
    → List EscalationAuditEvent × List EscalationAction
    → Result ℕ (Unit {0}) × (List EscalationAuditEvent × List EscalationAction)
create a w = (ok tt, (w.0, w.1 ++ a ∷ []))

abbrev action : EscalationAction
action = action_of 5 unsure EscalationTrigger.high_risk EscalationTarget.security

abbrev event : EscalationAuditEvent
event = event_of 6 unsure EscalationTrigger.high_risk EscalationTarget.security

escalates : evaluate_escalation record_event create 5 6 unsure ([], []) ≡ (
  ok (
      EscalationResult.triggered EscalationTrigger.high_risk EscalationTarget.security action
        event),
  (event ∷ [], action ∷ []),
)
unfolding evaluate_escalation emit first_trigger trigger_rules condition
escalates = refl

first_trigger_iff_example :
    (first_trigger unsure ≡ some (EscalationTrigger.high_risk, EscalationTarget.security)) ↔ (
      (EscalationTarget.security ≡ target_of EscalationTrigger.high_risk)
      × IsMostUrgent unsure EscalationTrigger.high_risk)
first_trigger_iff_example =
    first_trigger_iff unsure EscalationTrigger.high_risk EscalationTarget.security

evaluate_escalation-IsEmitted_example :
    IsEmitted record_event create 5 6 unsure
      ([], [])
      (event ∷ [], action ∷ [])
      EscalationTrigger.high_risk
      EscalationTarget.security
      action
      event
evaluate_escalation-IsEmitted_example =
    evaluate_escalation-IsEmitted record_event create 5 6 unsure ([], []) (event ∷ [], action ∷ [])
      EscalationTrigger.high_risk EscalationTarget.security action event escalates
