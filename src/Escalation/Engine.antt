-- ===== src/Escalation/Engine.antt =====
-- core/escalation/engine.py and types.py: the rules, in their order, and what an escalation emits.
-- Scores are decimals that are only compared, here numbers over a common denominator; the
-- identifiers that `uuid4` makes are arguments. The texts of the action and of the event, and the
-- event's metadata, are left out.
use synapse_os.Base.{
  ℕ, Bool, true, false, ◌&&◌, List, [], ◌∷◌, Option, none, some, ltb, leb, if◌then◌else◌, Result,
  ok, err,
}
use synapse_os.Enums.{ToolRiskLevel}

pub data EscalationTarget : Type 0 where
  human senior_agent security architecture_review pm finance : EscalationTarget

pub data EscalationTrigger : Type 0 where
  low_confidence insufficient_expertise critical_permission_denied max_iterations
        unresolved_contradiction irreversible_decision high_risk :
      EscalationTrigger

pub record EscalationRequest : Type 0 where
  pub project_id : ℕ
  pub task_id : ℕ
  pub agent_id : ℕ
  pub confidence : ℕ
  pub minimum_confidence : ℕ
  pub expertise : ℕ
  pub required_expertise : ℕ
  pub permission_denied : Bool
  pub permission_denial_is_critical : Bool
  pub iterations : ℕ
  pub max_iterations : ℕ
  pub contradiction_unresolved : Bool
  pub irreversible_decision : Bool
  pub risk_level : ToolRiskLevel

pub record EscalationAction : Type 0 where
  pub id : ℕ
  pub project_id : ℕ
  pub task_id : ℕ
  pub target : EscalationTarget
  pub trigger : EscalationTrigger

pub record EscalationAuditEvent : Type 0 where
  pub id : ℕ
  pub project_id : ℕ
  pub task_id : ℕ
  pub agent_id : ℕ
  pub trigger : EscalationTrigger
  pub target : EscalationTarget

-- `EscalationResult`: not triggered, or triggered with all four of its fields.
pub data EscalationResult : Type 0 where
  quiet : EscalationResult
  triggered :
      EscalationTrigger
      → EscalationTarget
      → EscalationAction
      → EscalationAuditEvent
      → EscalationResult

-- `_TRIGGER_RULES`
unfoldable pub trigger_rules : List (EscalationTrigger × EscalationTarget)
trigger_rules =
    (EscalationTrigger.critical_permission_denied, EscalationTarget.security)
    ∷ (EscalationTrigger.irreversible_decision, EscalationTarget.finance)
    ∷ (EscalationTrigger.high_risk, EscalationTarget.security)
    ∷ (EscalationTrigger.unresolved_contradiction, EscalationTarget.architecture_review)
    ∷ (EscalationTrigger.insufficient_expertise, EscalationTarget.senior_agent)
    ∷ (EscalationTrigger.low_confidence, EscalationTarget.human)
    ∷ (EscalationTrigger.max_iterations, EscalationTarget.pm)
    ∷ []

abbrev pub is_high : ToolRiskLevel → Bool
is_high ToolRiskLevel.high = true
is_high ToolRiskLevel.critical = true
is_high _ = false

-- `conditions[trigger]`
unfoldable pub condition : EscalationRequest → EscalationTrigger → Bool
condition r EscalationTrigger.critical_permission_denied =
    r.permission_denied && r.permission_denial_is_critical
condition r EscalationTrigger.irreversible_decision = r.irreversible_decision
condition r EscalationTrigger.high_risk = is_high r.risk_level
condition r EscalationTrigger.unresolved_contradiction = r.contradiction_unresolved
condition r EscalationTrigger.insufficient_expertise = ltb r.expertise r.required_expertise
condition r EscalationTrigger.low_confidence = ltb r.confidence r.minimum_confidence
condition r EscalationTrigger.max_iterations = leb r.max_iterations r.iterations

abbrev pub first_of :
    EscalationRequest
    → List (EscalationTrigger × EscalationTarget)
    → Option (EscalationTrigger × EscalationTarget)
first_of r [] = none
first_of r (rule ∷ rest) =
    let later = first_of r rest in if condition r rule.0 then some rule else later

-- `_first_trigger`
unfoldable pub first_trigger : EscalationRequest → Option (EscalationTrigger × EscalationTarget)
first_trigger r = first_of r trigger_rules

abbrev pub action_of :
    ℕ → EscalationRequest → EscalationTrigger → EscalationTarget → EscalationAction
action_of id r trigger target = record {
  id = id;
  project_id = r.project_id;
  task_id = r.task_id;
  target = target;
  trigger = trigger;
}

abbrev pub event_of :
    ℕ → EscalationRequest → EscalationTrigger → EscalationTarget → EscalationAuditEvent
event_of id r trigger target = record {
  id = id;
  project_id = r.project_id;
  task_id = r.task_id;
  agent_id = r.agent_id;
  trigger = trigger;
  target = target;
}

-- `evaluate`, over the two sinks: what it returns or raises, and the state of the world it leaves.
module _ {W E : Type 0} (record_event : EscalationAuditEvent → W → Result E (Unit {0}) × W)
    (create : EscalationAction → W → Result E (Unit {0}) × W) where
  -- The audit event is recorded before the action is created.
  unfoldable pub emit :
      EscalationAuditEvent → EscalationAction → EscalationResult → W → Result E EscalationResult × W
  emit event action result w =
      let (recorded, w1) = record_event event w in
      elim recorded [
        | err e ↦ (err e, w1)
        | ok _ ↦
            let (created, w2) = create action w1 in
            (elim created [ err e ↦ err e | ok _ ↦ ok result ], w2)
      ]

  unfoldable pub evaluate_escalation : ℕ → ℕ → EscalationRequest → W → Result E EscalationResult × W
  evaluate_escalation action_id event_id r w = elim (first_trigger r) [
    | none ↦ (ok EscalationResult.quiet, w)
    | some (trigger, target) ↦
        emit (event_of event_id r trigger target) (action_of action_id r trigger target)
          (EscalationResult.triggered trigger target (action_of action_id r trigger target)
            (event_of event_id r trigger target))
          w
  ]
